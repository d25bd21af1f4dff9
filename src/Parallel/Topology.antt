-- ===== src/Parallel/Topology.antt =====
-- astrai/parallel/topology.py, class `ParallelTopology`: a world of ranks as dp, cp and tp groups. The
-- process group's rank and world size are parameters, none where no process group is initialized; of
-- the device mesh only whether it is made is modelled. A world has at least one rank.
pub mod Ranks
mod Tests
use astr_ai.Base.{
  ℕ, ◌+◌, ◌-◌, ◌*◌, ◌/◌, ◌%◌, Bool, true, false, not, ◌&&◌, ◌||◌, Option, none, some, ltb, leb,
  ◌==◌, Result, ok, value_error, runtime_error, ◌>>=◌, ◌>>◌, raise_if,
}

pub record ParallelTopology : Type 0 where
  pub world_size : ℕ
  pub cp_size : ℕ
  pub tp_size : ℕ
  pub dp_size : ℕ
  pub global_rank : ℕ
  pub tp_rank : ℕ
  pub cp_rank : ℕ
  pub dp_rank : ℕ
  pub has_mesh : Bool

-- `dist.get_rank() if dist.is_initialized() else 0`, and likewise the world size, else 1.
abbrev pub value_or : Option ℕ → ℕ → ℕ
value_or none otherwise = otherwise
value_or (some n) otherwise = n

-- `__init__`.
unfoldable pub init : Option ℕ → ℕ → ℕ → ℕ → Result ParallelTopology
init rank world_size cp_size tp_size = do
  raise_if (ltb tp_size 1 || ltb cp_size 1) value_error
  raise_if (not (world_size % (cp_size * tp_size) == 0)) value_error
  let global_rank = value_or rank 0
  ok (record {
    world_size = world_size;
    cp_size = cp_size;
    tp_size = tp_size;
    dp_size = world_size / (cp_size * tp_size);
    global_rank = global_rank;
    tp_rank = global_rank % tp_size;
    cp_rank = global_rank / tp_size % cp_size;
    dp_rank = global_rank / (cp_size * tp_size);
    has_mesh = ltb 1 world_size && (ltb 1 cp_size || ltb 1 tp_size);
  })

abbrev pub is_trivial : ParallelTopology → Bool
is_trivial t = t.cp_size == 1 && t.tp_size == 1

abbrev pub is_dp_leader : ParallelTopology → Bool
is_dp_leader t = t.cp_rank == 0 && t.tp_rank == 0

unfoldable pub samples_per_replica : ParallelTopology → ℕ → ℕ
samples_per_replica t dataset_len = (dataset_len + t.dp_size - 1) / t.dp_size

abbrev pub is_initialized : Option ℕ → Bool
is_initialized none = false
is_initialized (some n) = true

-- From the world size and the rank of the process group.
unfoldable pub build_topology : Option ℕ → Option ℕ → ℕ → ℕ → Result ParallelTopology
unfolding init
build_topology world rank cp_size tp_size = do
  raise_if ((ltb 1 cp_size || ltb 1 tp_size) && not (is_initialized world)) runtime_error
  init rank (value_or world 1) cp_size tp_size

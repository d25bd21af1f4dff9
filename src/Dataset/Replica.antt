-- ===== src/Dataset/Replica.antt =====
-- astrai/dataset/sampler.py, class `RDSampler`: the shard of a replica. The permutation of an epoch,
-- which torch draws from the seed, is a parameter, and so are the rank and the number of replicas of
-- the process group. The iterator is what starts an epoch, gives an index, and ends it.
pub mod Shards
mod Tests
use astr_ai.Base.{
  ℕ, zero, suc, ◌+◌, ◌-◌, ◌*◌, ◌/◌, ◌%◌, Bool, true, false, not, ◌&&◌, List, [], ◌∷◌, ◌++◌, Option,
  none, some, ltb, ◌==◌, if◌then◌else◌, length, take, drop, Result, ok, zero_division_error, ◌>>=◌,
  ◌>>◌, raise_if,
}
use astr_ai.Preprocessing.Packing.{range_from}

pub record RdSampler : Type 0 where
  pub epoch : ℕ
  pub iter : ℕ
  pub num_samples : ℕ
  pub rank : ℕ
  pub num_replicas : ℕ
  pub drop_last : Bool
  pub shuffle : Bool
  pub num_samples_per_replica : ℕ
  pub total_size : ℕ
  pub indices : Option (List ℕ)

abbrev pub per_replica : ℕ → ℕ → Bool → ℕ
per_replica num_samples num_replicas drop_last =
    (num_samples + (if drop_last then 0 else num_replicas - 1)) / num_replicas

-- `__init__`, in a process group of this rank and size; a remainder by 0 raises.
unfoldable pub init : ℕ → ℕ → ℕ → ℕ → ℕ → Bool → Bool → Result RdSampler
init num_samples rank num_replicas start_epoch start_iter drop_last shuffle = do
  let share = per_replica num_samples num_replicas drop_last
  raise_if (num_replicas == 0) zero_division_error
  raise_if (share == 0) zero_division_error
  ok (record {
    epoch = start_epoch;
    iter = start_iter % share;
    num_samples = num_samples;
    rank = rank;
    num_replicas = num_replicas;
    drop_last = drop_last;
    shuffle = shuffle;
    num_samples_per_replica = share;
    total_size = share * num_replicas;
    indices = none;
  })

-- `xs[::step]`, with fuel for each entry.
unfoldable pub stride : ℕ → ℕ → List ℕ → List ℕ
stride step zero xs = []
stride step (suc fuel) [] = []
stride step (suc fuel) (x ∷ xs) = x ∷ stride step fuel (drop (step - 1) xs)

-- The permutation of the epoch, or the samples in order.
abbrev pub order_of : (ℕ → List ℕ) → RdSampler → List ℕ
order_of permutation s = if s.shuffle then permutation s.epoch else range_from 0 s.num_samples

-- With its first indices again at the end, as far as there are any.
unfoldable pub pad : RdSampler → List ℕ → List ℕ
pad s indices =
    if not s.drop_last && ltb s.num_samples s.total_size
    then indices ++ take (s.total_size - length indices) indices
    else indices

-- `indices[rank:total_size:num_replicas]`.
unfoldable pub shard : RdSampler → List ℕ → List ℕ
unfolding stride
shard s indices =
    let kept = drop s.rank (take s.total_size indices) in stride s.num_replicas (length kept) kept

-- `_get_indices`.
unfoldable pub get_indices : (ℕ → List ℕ) → RdSampler → RdSampler
unfolding pad shard
get_indices permutation s =
    let iter = s.iter % s.num_samples_per_replica in
    record s { iter = iter; indices = some (drop iter (shard s (pad s (order_of permutation s)))) }

-- The start of `__iter__`.
abbrev pub begin_epoch : (ℕ → List ℕ) → RdSampler → Option (List ℕ) → RdSampler
begin_epoch permutation s none = get_indices permutation s
begin_epoch permutation s (some indices) = s

-- An index that is yielded.
abbrev pub advance : RdSampler → RdSampler
advance s = record s { iter = s.iter + 1 }

-- What follows the last one.
unfoldable pub end_epoch : RdSampler → RdSampler
end_epoch s = record s {
  epoch = s.epoch + 1;
  indices = none;
  iter = s.iter % s.num_samples_per_replica;
}

unfoldable pub set_epoch : RdSampler → ℕ → RdSampler
set_epoch s epoch = record s { epoch = epoch; iter = 0; indices = none }

-- `_remaining`, and the length.
unfoldable pub remaining : RdSampler → ℕ
remaining s = s.num_samples_per_replica - s.iter

-- ===== src/Dataset/Sampler.antt =====
-- astrai/dataset/sampler.py, class `GlobalBatchSampler`: the optimizer windows of an epoch, sharded
-- over replicas. The permutation of an epoch, which torch draws from the seed, is a parameter. The
-- sizes are positive, and the tail policy is one of its two values.
pub mod Windows
mod Tests
use astr_ai.Base.{
  ℕ, zero, suc, ◌+◌, ◌-◌, ◌*◌, ◌/◌, ◌%◌, min, Bool, true, false, not, ◌&&◌, ◌||◌, List, [], ◌∷◌,
  ◌++◌, ltb, leb, ◌==◌, if◌then◌else◌, take, drop, Result, ok, err, index_error, value_error, ◌>>=◌,
  ◌>>◌, raise_if,
}

pub data TailPolicy : Type 0 where
  drop_tail flush_tail : TailPolicy

pub record GlobalBatchSampler : Type 0 where
  pub num_samples : ℕ
  pub dp_size : ℕ
  pub dp_rank : ℕ
  pub batch_size : ℕ
  pub accumulation_steps : ℕ
  pub tail_policy : TailPolicy
  pub epoch : ℕ
  pub start_offset : ℕ

abbrev pub global_batch : GlobalBatchSampler → ℕ
global_batch s = s.dp_size * s.batch_size * s.accumulation_steps

abbrev pub capacity : GlobalBatchSampler → ℕ
capacity s = s.dp_size * s.batch_size

-- The tests of `__init__`.
unfoldable pub check : GlobalBatchSampler → Result GlobalBatchSampler
check s = do
  raise_if (ltb s.num_samples 1) value_error
  raise_if
      (ltb s.num_samples s.start_offset
        || (not (s.start_offset == s.num_samples) && not (s.start_offset % global_batch s == 0)))
      value_error
  ok s

unfoldable pub set_epoch : GlobalBatchSampler → ℕ → ℕ → GlobalBatchSampler
set_epoch s epoch start_offset = record s { epoch = epoch; start_offset = start_offset }

-- A window: where it starts, its samples, and its microbatches.
pub record Window : Type 0 where
  pub start : ℕ
  pub count : ℕ
  pub microbatches : ℕ

abbrev pub window_at : GlobalBatchSampler → ℕ → ℕ → Window
window_at s start count = record {
  start = start;
  count = count;
  microbatches = (count + capacity s - 1) / capacity s;
}

abbrev pub drops : TailPolicy → Bool
drops drop_tail = true
drops flush_tail = false

-- `range(start, num_samples, global_batch)`, with fuel for each sample left.
unfoldable pub windows_from : GlobalBatchSampler → ℕ → ℕ → List Window
windows_from s zero start = []
windows_from s (suc fuel) start =
    let count = min (global_batch s) (s.num_samples - start) in
    let rest = windows_from s fuel (start + global_batch s) in
    if ltb start s.num_samples
    then (if ltb count (global_batch s) && drops s.tail_policy
        then []
        else window_at s start count ∷ rest)
    else []

unfoldable pub windows : GlobalBatchSampler → List Window
unfolding windows_from
windows s = windows_from s (s.num_samples - s.start_offset) s.start_offset

abbrev pub first_of : GlobalBatchSampler → ℕ → ℕ → ℕ
first_of s window_start microbatch =
    window_start + microbatch * s.dp_size * s.batch_size + s.dp_rank * s.batch_size

unfoldable pub real_count : GlobalBatchSampler → ℕ → ℕ → ℕ
real_count s window_start microbatch =
    min s.batch_size (s.num_samples - first_of s window_start microbatch)

-- `indices[first : min(first + batch_size, num_samples)]`.
unfoldable pub local_indices : GlobalBatchSampler → List ℕ → ℕ → ℕ → List ℕ
local_indices s indices window_start microbatch =
    let first = first_of s window_start microbatch in
    take (min (first + s.batch_size) s.num_samples - first) (drop first indices)

-- `local or [indices[0]]`.
abbrev pub or_first : List ℕ → List ℕ → Result (List ℕ)
or_first (i ∷ local) indices = ok (i ∷ local)
or_first [] [] = err index_error
or_first [] (i ∷ indices) = ok (i ∷ [])

-- The batches of the microbatches from `k` on, `n` of them.
unfoldable pub emit_microbatches : GlobalBatchSampler → List ℕ → ℕ → ℕ → ℕ → Result (List (List ℕ))
unfolding local_indices
emit_microbatches s indices start zero k = ok []
emit_microbatches s indices start (suc n) k = do
  batch ← or_first (local_indices s indices start k) indices
  rest ← emit_microbatches s indices start n (k + 1)
  ok (batch ∷ rest)

-- `__iter__`, over the windows.
unfoldable pub iterate : GlobalBatchSampler → List ℕ → List Window → Result (List (List ℕ))
unfolding emit_microbatches
iterate s indices [] = ok []
iterate s indices (w ∷ ws) = do
  batches ← emit_microbatches s indices w.start w.microbatches 0
  rest ← iterate s indices ws
  ok (batches ++ rest)

-- `divmod(a - b, d)`, rounded down: the quotient is `whole` less `owed`, of which one is 0.
pub record Quotient : Type 0 where
  pub whole : ℕ
  pub owed : ℕ
  pub rest : ℕ

unfoldable pub divmod : ℕ → ℕ → ℕ → Quotient
divmod a b d =
    let owed = (b - a + d - 1) / d in
    if leb b a
    then record { whole = (a - b) / d; owed = 0; rest = (a - b) % d }
    else record { whole = 0; owed = owed; rest = owed * d - (b - a) }

-- What `len` makes of `n` less `m`: it refuses a negative length.
abbrev pub as_length : ℕ → ℕ → Result ℕ
as_length n m = if ltb n m then err value_error else ok (n - m)

-- `__len__`, also after a `set_epoch` to an offset past the samples.
unfoldable pub length_hint : GlobalBatchSampler → Result ℕ
unfolding divmod
length_hint s =
    let q = divmod s.num_samples s.start_offset (global_batch s) in
    as_length
      (q.whole * s.accumulation_steps
        + (if not (q.rest == 0) && not (drops s.tail_policy)
            then (q.rest + capacity s - 1) / capacity s
            else 0))
      (q.owed * s.accumulation_steps)

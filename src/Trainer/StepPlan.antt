-- ===== src/Trainer/StepPlan.antt =====
-- astrai/trainer/step_plan.py: the updates of a window of prompts and the steps of an epoch. The tail
-- policy is the sampler's, and a slice is its bounds and whether it is the window's last update.
pub mod EpochSlices
pub mod Slices
pub mod Epoch
mod Tests
use astr_ai.Base.{
  ℕ, zero, suc, ◌+◌, ◌-◌, ◌*◌, ◌/◌, ◌%◌, min, Bool, true, false, not, ◌&&◌, ◌||◌, List, [], ◌∷◌,
  ◌++◌, Option, none, some, ltb, ◌==◌, if◌then◌else◌, Result, ok, value_error, ◌>>=◌, ◌>>◌,
  raise_if,
}
use astr_ai.Base.Int.{ℤ, pos, negsuc}
use astr_ai.Dataset.Sampler.{TailPolicy, drops, Quotient, divmod}

unfoldable pub ceil_div : ℕ → ℕ → ℕ
ceil_div value divisor = (value + divisor - 1) / divisor

-- `given or otherwise`.
abbrev pub or_else : Option ℕ → ℕ → ℕ
or_else none otherwise = otherwise
or_else (some given) otherwise = if given == 0 then otherwise else given

pub record Update : Type 0 where
  pub begin : ℕ
  pub end : ℕ
  pub final : Bool

-- `range(begin, total, size)` of the last epoch or of an earlier one, with fuel for each prompt left.
unfoldable pub epoch_slices : ℕ → ℕ → Bool → ℕ → ℕ → List Update
epoch_slices total size last zero begin = []
epoch_slices total size last (suc fuel) begin =
    let end = min (begin + size) total in
    let rest = epoch_slices total size last fuel (begin + size) in
    if ltb begin total
    then record { begin = begin; end = end; final = last && end == total } ∷ rest
    else []

-- The epochs that are left; the last of them is the window's last.
unfoldable pub replay : ℕ → ℕ → ℕ → List Update
unfolding epoch_slices
replay total size zero = []
replay total size (suc epochs) =
    epoch_slices total size (epochs == 0) total 0 ++ replay total size epochs

unfoldable pub learner_update_slices : ℕ → ℕ → Option ℕ → Result (List Update)
unfolding replay
learner_update_slices total update_epochs minibatch_prompts = do
  let size = or_else minibatch_prompts total
  raise_if (total == 0 || update_epochs == 0 || size == 0) value_error
  ok (replay total size update_epochs)

-- `n` less `m`: a number of steps is negative where the offset is past the samples.
abbrev pub difference : ℕ → ℕ → ℤ
difference n m = if ltb n m then negsuc (m - n - 1) else pos (n - m)

-- `full` of the divmod is `whole` less `owed`.
unfoldable pub global_epoch_steps : ℕ → ℕ → ℕ → TailPolicy → Bool → ℕ → Option ℕ → ℤ
unfolding ceil_div divmod
global_epoch_steps dataset_len start_offset global_batch tail_policy online rl_update_epochs
      rl_minibatch_prompts =
    let q = divmod dataset_len start_offset global_batch in
    let tail = if drops tail_policy then 0 else q.rest in
    let group_size = or_else rl_minibatch_prompts global_batch in
    if not online
    then difference (q.whole + (if ltb 0 tail then 1 else 0)) q.owed
    else difference
        (rl_update_epochs
          * (q.whole * ceil_div global_batch group_size
              + (if tail == 0 then 0 else ceil_div tail group_size)))
        (rl_update_epochs * (q.owed * ceil_div global_batch group_size))

-- ===== src/Trainer/StepPlan/Epoch.antt =====
-- astrai/trainer/step_plan.py against astrai/dataset/sampler.py: the steps of an epoch are the updates
-- of the sampler's windows.
use native.Mathlib.Nat.{
  div-eq_of_lt, div-eq-sub-div, mod-eq-sub-mod, mod-eq_of_lt, zero-div, zero-mod,
}
use astr_ai.Base.{
  ℕ, zero, suc, ◌+◌, ◌-◌, ◌*◌, ◌/◌, ◌%◌, ◌≤◌, ◌<◌, min, ◌≡◌, refl, sym, ap, ◌∙◌, Bool, true, false,
  List, [], ◌∷◌, Option, none, some, ltb, ◌==◌, if◌then◌else◌, length, ok, err, arith, Bool-cases,
  inl, inr,
}
use astr_ai.Base.Int.{pos}
use astr_ai.Dataset.Sampler.{GlobalBatchSampler, global_batch, Window, drops, windows_from, windows}
use astr_ai.Dataset.Sampler.Windows.{divmod_within}
use astr_ai.Trainer.StepPlan.{
  difference, ceil_div, or_else, learner_update_slices, global_epoch_steps,
}
use astr_ai.Trainer.StepPlan.EpochSlices.{ceil_div-zero, ceil_div-step}
use astr_ai.Trainer.StepPlan.Slices.{learner_update_slices-replayed}

-- What some windows cost together, where a window of `n` samples costs `cost n`.
abbrev pub total_cost : (ℕ → ℕ) → List Window → ℕ
total_cost cost [] = 0
total_cost cost (w ∷ ws) = cost w.count + total_cost cost ws

module _ (s : GlobalBatchSampler) (cost : ℕ → ℕ) (steps : 0 < global_batch s) where
  -- The cost of the last `m` samples of an epoch.
  left_cost : ℕ → ℕ
  left_cost m =
      m / global_batch s * cost (global_batch s)
      + (if m % global_batch s == 0
          then 0
          else if drops s.tail_policy
          then 0
          else cost (m % global_batch s))

  left_cost-none : left_cost 0 ≡ 0
  unfolding left_cost
  left_cost-none = ground (arith, zero-div (global_batch s), zero-mod (global_batch s))

  left_cost-tail :
      (m : ℕ)
      → 0 < m
      → m < global_batch s
      → left_cost m ≡ (if drops s.tail_policy then 0 else cost m)
  unfolding left_cost
  left_cost-tail m some_left below =
      rw
        (
          div-eq_of_lt {n = m} {m = global_batch s} below,
          mod-eq_of_lt {n = m} {m = global_batch s} below,
        )
        (ground arith)

  left_cost-full :
      (m : ℕ)
      → global_batch s ≤ m
      → left_cost m ≡ cost (global_batch s) + left_cost (m - global_batch s)
  unfolding left_cost
  left_cost-full m above =
      rw
        (
          div-eq-sub-div {m = global_batch s} {n = m} steps above,
          mod-eq-sub-mod {n = m} {m = global_batch s} above,
        )
        (grind arith)

  total_cost-windows_from :
      (fuel start : ℕ)
      → s.num_samples - start ≤ fuel
      → total_cost cost (windows_from s fuel start) ≡ left_cost (s.num_samples - start)
  unfolding windows_from
  total_cost-windows_from zero start room =
      let e : s.num_samples - start ≡ 0 = omega arith in rw (e, left_cost-none)
  total_cost-windows_from (suc fuel) start room =
      let left = s.num_samples - start in
      let ih = total_cost-windows_from fuel (start + global_batch s) (omega arith) in
      elim (Bool-cases (ltb start s.num_samples)) [
        | inr out ↦ let e : left ≡ 0 = ground arith in rw (out, e, left_cost-none)
        | inl more ↦ elim (Bool-cases (ltb left (global_batch s))) [
          | inl tail ↦
              let c : min (global_batch s) left ≡ left = ground arith in
              let e : s.num_samples - (start + global_batch s) ≡ 0 = ground arith in
              let rest = ih ∙ ap left_cost e ∙ left_cost-none in
              ground (arith, c, ap cost c, rest, left_cost-tail left (ground arith) (ground arith))
          | inr whole ↦
              let c : min (global_batch s) left ≡ global_batch s = ground arith in
              let e : s.num_samples - (start + global_batch s) ≡ left - global_batch s =
                omega arith in
              let rest = ih ∙ ap left_cost e in
              ground (arith, c, ap cost c, rest, left_cost-full left (ground arith))
        ]
      ]

  total_cost-windows : total_cost cost (windows s) ≡ left_cost (s.num_samples - s.start_offset)
  unfolding windows
  total_cost-windows =
      total_cost-windows_from (s.num_samples - s.start_offset) s.start_offset (omega arith)

-- The updates that a window of `n` prompts makes.
pub update_count : ℕ → Option ℕ → ℕ → ℕ
update_count epochs minibatch_prompts n = elim (learner_update_slices n epochs minibatch_prompts) [
  | ok updates ↦ length updates
  | err e ↦ 0
]

update_count-ceil_div :
    (epochs : ℕ) (minibatch_prompts : Option ℕ) (n : ℕ)
    → 0 < epochs
    → 0 < n
    → update_count epochs minibatch_prompts n ≡ epochs * ceil_div n (or_else minibatch_prompts n)
unfolding update_count
update_count-ceil_div epochs minibatch_prompts n some_epochs some_prompts =
    let (updates, e, sized, order, last) =
      learner_update_slices-replayed n epochs minibatch_prompts some_prompts some_epochs in
    rw (e, update_count) sized

ceil_div-one : (n d : ℕ) → 0 < n → n ≤ d → ceil_div n d ≡ 1
ceil_div-one n d some_left within =
    let e : n - d ≡ 0 = omega arith in
    omega (
      arith,
      ceil_div-step n d (omega arith) some_left,
      ap (λ (k : ℕ). ceil_div k d) e,
      ceil_div-zero d (omega arith),
    )

-- The tail's updates counted by the whole batch's group size.
group_size-tail :
    (minibatch_prompts : Option ℕ) (tail batch : ℕ)
    → 0 < tail
    → tail < batch
    → ceil_div tail (or_else minibatch_prompts tail)
      ≡ ceil_div tail (or_else minibatch_prompts batch)
group_size-tail none tail batch some_left below =
    ceil_div-one tail tail some_left (omega arith)
    ∙ sym (ceil_div-one tail batch some_left (omega arith))
group_size-tail (some n) tail batch some_left below = ground (
  arith,
  ceil_div-one tail tail some_left (omega arith),
  ceil_div-one tail batch some_left (omega arith),
)

spread :
    (epochs full whole rest : ℕ)
    → full * (epochs * whole) + epochs * rest ≡ epochs * (full * whole + rest)
spread epochs full whole rest = grind arith

combine :
    (dropped : Bool) (epochs full tail group whole whole_cost tail_cost : ℕ)
    → whole_cost ≡ epochs * whole
    → (0 < tail → tail_cost ≡ epochs * ceil_div tail group)
    → full * whole_cost + (if tail == 0 then 0 else if dropped then 0 else tail_cost)
      ≡ epochs
        * (full * whole
            + (if (if dropped then 0 else tail) == 0
                then 0
                else ceil_div (if dropped then 0 else tail) group))
combine true epochs full tail group whole whole_cost tail_cost e f =
    rw e (ground arith ∙ spread epochs full whole 0)
combine false epochs full tail group whole whole_cost tail_cost e f =
    elim (Bool-cases (tail == 0)) [
      | inl none_left ↦ rw (e, none_left) (ground arith ∙ spread epochs full whole 0)
      | inr some_left ↦
          rw (e, some_left, f (ground arith)) (spread epochs full whole (ceil_div tail group))
    ]

difference_zero : (n m : ℕ) → m ≡ 0 → difference n m ≡ pos n
difference_zero n m e = ground arith

-- Without replay an epoch has as many steps as the sampler has windows, under either tail policy.
global_epoch_steps-windows :
    (s : GlobalBatchSampler) (epochs : ℕ) (minibatch_prompts : Option ℕ)
    → 0 < global_batch s
    → s.start_offset ≤ s.num_samples
    → global_epoch_steps s.num_samples s.start_offset
        (global_batch s)
        s.tail_policy
        false
        epochs
        minibatch_prompts
      ≡ pos (length (windows s))
unfolding global_epoch_steps left_cost
global_epoch_steps-windows s epochs minibatch_prompts steps within =
    let counted = total_cost-windows s (λ (n : ℕ). 1) steps in
    rw (divmod_within s.num_samples s.start_offset (global_batch s) within)
      (difference_zero _ 0 refl ∙ ap pos (ground (arith, counted, total_cost-length (windows s))))
  where
    total_cost-length : (ws : List Window) → total_cost (λ (n : ℕ). 1) ws ≡ length ws
    total_cost-length [] = refl
    total_cost-length (w ∷ ws) = omega (arith, total_cost-length ws)

-- With replay an epoch has as many steps as the updates that the sampler's windows make together,
-- under either tail policy and for any minibatch size.
global_epoch_steps-replayed :
    (s : GlobalBatchSampler) (epochs : ℕ) (minibatch_prompts : Option ℕ)
    → 0 < global_batch s
    → 0 < epochs
    → s.start_offset ≤ s.num_samples
    → global_epoch_steps s.num_samples s.start_offset
        (global_batch s)
        s.tail_policy
        true
        epochs
        minibatch_prompts
      ≡ pos (total_cost (update_count epochs minibatch_prompts) (windows s))
unfolding global_epoch_steps left_cost
global_epoch_steps-replayed s epochs minibatch_prompts steps some_epochs within =
    let left = s.num_samples - s.start_offset in
    let tail = left % global_batch s in
    let counted = total_cost-windows s (update_count epochs minibatch_prompts) steps in
    let whole = update_count-ceil_div epochs minibatch_prompts (global_batch s) some_epochs steps in
    let below : tail < global_batch s = omega arith in
    let combined =
      counted
      ∙ combine (drops s.tail_policy) epochs (left / global_batch s) tail
          (or_else minibatch_prompts (global_batch s))
          (ceil_div (global_batch s) (or_else minibatch_prompts (global_batch s)))
          (update_count epochs minibatch_prompts (global_batch s))
          (update_count epochs minibatch_prompts tail) whole
          (λ some_left.
            update_count-ceil_div epochs minibatch_prompts tail some_epochs some_left
            ∙ ap (λ (n : ℕ). epochs * n)
                (group_size-tail minibatch_prompts tail (global_batch s) some_left below)) in
    rw (divmod_within s.num_samples s.start_offset (global_batch s) within) (
      difference_zero _ (epochs * (0 * ceil_div (global_batch s) _)) (omega arith)
      ∙ ap pos (sym combined))

-- At an offset within the samples, with a positive global batch and a positive number of replay epochs
-- and under either tail policy, an epoch without replay has as many steps as the sampler has windows,
-- and one with replay as many as the updates that those windows make together, for any minibatch size.
pub global_epoch_steps-updates :
    (s : GlobalBatchSampler) (epochs : ℕ) (minibatch_prompts : Option ℕ)
    → 0 < global_batch s
    → 0 < epochs
    → s.start_offset ≤ s.num_samples
    → (global_epoch_steps s.num_samples s.start_offset
          (global_batch s)
          s.tail_policy
          false
          epochs
          minibatch_prompts
        ≡ pos (length (windows s)))
      × (global_epoch_steps s.num_samples s.start_offset
            (global_batch s)
            s.tail_policy
            true
            epochs
            minibatch_prompts
          ≡ pos (total_cost (update_count epochs minibatch_prompts) (windows s)))
global_epoch_steps-updates s epochs minibatch_prompts steps some_epochs within = (
  global_epoch_steps-windows s epochs minibatch_prompts steps within,
  global_epoch_steps-replayed s epochs minibatch_prompts steps some_epochs within,
)

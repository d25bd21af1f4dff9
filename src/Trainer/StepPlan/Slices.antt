-- ===== src/Trainer/StepPlan/Slices.antt =====
-- astrai/trainer/step_plan.py: the updates of one window.
use mathlib.Core.List.{append-nil, append_assoc}
use astr_ai.Base.{
  ℕ, zero, suc, ◌-◌, ◌*◌, ◌<◌, ◌≡◌, refl, sym, ap, ◌∙◌, true, false, ◌||◌, List, [], ◌∷◌, ◌++◌,
  Option, none, some, ◌==◌, length, length-append, ok, ◌>>=◌, arith,
}
use astr_ai.Preprocessing.Packing.{range_from}
use astr_ai.Trainer.StepPlan.{
  ceil_div, or_else, Update, epoch_slices, replay, learner_update_slices,
}
use astr_ai.Trainer.StepPlan.EpochSlices.{
  range_from-cong, prompts, LastFinal, append-LastFinal, length-epoch_slices, prompts-epoch_slices,
  epoch_slices-NoneFinal, epoch_slices-LastFinal,
}

-- The prompts of a window, once for each epoch.
abbrev pub replayed : ℕ → ℕ → List ℕ
replayed total zero = []
replayed total (suc epochs) = range_from 0 total ++ replayed total epochs

prompts-append : (xs ys : List Update) → prompts (xs ++ ys) ≡ prompts xs ++ prompts ys
prompts-append [] ys = refl
prompts-append (u ∷ xs) ys =
    ap (λ (r : List ℕ). range_from u.begin (u.end - u.begin) ++ r) (prompts-append xs ys)
    ∙ sym (append_assoc (range_from u.begin (u.end - u.begin)) (prompts xs) (prompts ys))

module _ (total size : ℕ) (positive : 0 < size) where
  prompts-replay : (epochs : ℕ) → prompts (replay total size epochs) ≡ replayed total epochs
  unfolding replay
  prompts-replay zero = refl
  prompts-replay (suc epochs) =
      prompts-append (epoch_slices total size (epochs == 0) total 0) (replay total size epochs)
      ∙ ap (λ (r : List ℕ). r ++ prompts (replay total size epochs))
          (prompts-epoch_slices total size positive (epochs == 0) total 0 (omega arith)
            ∙ range_from-cong 0 0 (total - 0) total refl (omega arith))
      ∙ ap (λ (r : List ℕ). range_from 0 total ++ r) (prompts-replay epochs)

  length-replay : (epochs : ℕ) → length (replay total size epochs) ≡ epochs * ceil_div total size
  unfolding replay
  length-replay zero = omega arith
  length-replay (suc epochs) = omega (
    arith,
    length-append (epoch_slices total size (epochs == 0) total 0) (replay total size epochs),
    length-epoch_slices total size positive (epochs == 0) total 0 (omega arith),
    ap (λ (n : ℕ). ceil_div n size) {x = total - 0} {y = total} (omega arith),
    length-replay epochs,
  )

  replay-LastFinal : (epochs : ℕ) → 0 < total → 0 < epochs → LastFinal (replay total size epochs)
  unfolding replay
  replay-LastFinal zero some_prompts some_epochs = absurd (omega arith)
  replay-LastFinal (suc zero) some_prompts some_epochs =
      rw (append-nil (epoch_slices total size true total 0))
        (epoch_slices-LastFinal total size positive total 0 (omega arith) some_prompts)
  replay-LastFinal (suc (suc epochs)) some_prompts some_epochs =
      let earlier : (suc epochs == 0) ≡ false = ground arith in
      rw earlier (
        append-LastFinal (epoch_slices total size false total 0) (replay total size (suc epochs))
          (epoch_slices-NoneFinal total size positive total 0)
          (replay-LastFinal (suc epochs) some_prompts (omega arith)))

or_else-positive : (given : Option ℕ) (total : ℕ) → 0 < total → 0 < or_else given total
or_else-positive none total h = h
or_else-positive (some n) total h = ground arith

-- On a window that is not empty and a positive number of epochs the updates are made: as many as
-- ceil_div counts for each epoch, over all prompts in order once per epoch, and exactly the last
-- one is marked final.
pub learner_update_slices-replayed :
    (total epochs : ℕ) (minibatch_prompts : Option ℕ)
    → 0 < total
    → 0 < epochs
    → (updates : List Update) × (learner_update_slices total epochs minibatch_prompts ≡ ok updates)
      × (length updates ≡ epochs * ceil_div total (or_else minibatch_prompts total))
      × (prompts updates ≡ replayed total epochs)
      × LastFinal updates
unfolding learner_update_slices
learner_update_slices-replayed total epochs minibatch_prompts some_prompts some_epochs =
    let size = or_else minibatch_prompts total in
    let positive = or_else-positive minibatch_prompts total some_prompts in
    let valid : (total == 0 || epochs == 0 || size == 0) ≡ false = ground (arith, positive) in
    (
      replay total size epochs,
      rw (valid, ◌>>=◌) refl,
      length-replay total size positive epochs,
      prompts-replay total size positive epochs,
      replay-LastFinal total size positive epochs some_prompts some_epochs,
    )

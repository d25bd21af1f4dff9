-- ===== src/Trainer/StepPlan/EpochSlices.antt =====
-- astrai/trainer/step_plan.py: the updates of one epoch of a window.
use native.Mathlib.Nat.{div-eq_of_lt, div-eq-sub-div}
use astr_ai.Base.{
  ℕ, zero, suc, ◌+◌, ◌-◌, ◌/◌, ◌≤◌, ◌<◌, min, ◌≡◌, refl, ap, ◌∙◌, Bool, true, false, ◌&&◌, List, [],
  ◌∷◌, ◌++◌, ltb, ◌==◌, length, arith, Bool-cases, inl, inr,
}
use astr_ai.Preprocessing.Packing.{range_from}
use astr_ai.Trainer.StepPlan.{ceil_div, Update, epoch_slices}

pub ceil_div-zero : (size : ℕ) → 0 < size → ceil_div 0 size ≡ 0
unfolding ceil_div
ceil_div-zero size positive =
    ap (λ (n : ℕ). n / size) (omega arith) ∙ div-eq_of_lt {n = size - 1} {m = size} (omega arith)

pub ceil_div-step : (n size : ℕ) → 0 < size → 0 < n → ceil_div n size ≡ 1 + ceil_div (n - size) size
unfolding ceil_div
ceil_div-step n size positive some_left =
    div-eq-sub-div {m = size} {n = n + size - 1} positive (omega arith)
    ∙ elim (Bool-cases (ltb n size)) [
      | inr over ↦
          let e : n + size - 1 - size ≡ n - size + size - 1 = ground arith in
          omega (arith, ap (λ (k : ℕ). k / size) e)
      | inl below ↦
          let e : n + size - 1 - size ≡ n - 1 = omega arith in
          let d = div-eq_of_lt {n = n - 1} {m = size} (ground arith) in
          let f : n - size ≡ 0 = ground arith in
          omega (
            arith,
            ap (λ (k : ℕ). k / size) e,
            d,
            ap (λ (k : ℕ). (k + size - 1) / size) f
                ∙ unfold ceil_div in ceil_div-zero size positive,
          )
    ]

pub range_from-cong : (a b m n : ℕ) → a ≡ b → m ≡ n → range_from a m ≡ range_from b n
range_from-cong a b m n p q = ap (λ (k : ℕ). range_from k m) p ∙ ap (λ (k : ℕ). range_from b k) q

pub range_from-append :
    (start m n : ℕ) → range_from start m ++ range_from (start + m) n ≡ range_from start (m + n)
range_from-append start zero n =
    range_from-cong (start + 0) start n (0 + n) (omega arith) (omega arith)
range_from-append start (suc m) n =
    ap (λ (r : List ℕ). start ∷ r)
      (ap (λ (r : List ℕ). range_from (start + 1) m ++ r)
          (range_from-cong (start + suc m) (start + 1 + m) n n (omega arith) refl)
        ∙ range_from-append (start + 1) m n)
    ∙ range_from-cong start start (suc (m + n)) (suc m + n) refl (omega arith)

-- The prompts of some updates, in order.
abbrev pub prompts : List Update → List ℕ
prompts [] = []
prompts (u ∷ updates) = range_from u.begin (u.end - u.begin) ++ prompts updates

-- No update of an earlier epoch is final, and of the last epoch the last one is.
abbrev pub NoneFinal : List Update → Type 0
NoneFinal [] = Unit
NoneFinal (u ∷ updates) = (u.final ≡ false) × NoneFinal updates

abbrev pub LastFinal : List Update → Type 0
LastFinal [] = ⊥
LastFinal (u ∷ []) = u.final ≡ true
LastFinal (u ∷ v ∷ updates) = (u.final ≡ false) × LastFinal (v ∷ updates)

pub append-LastFinal :
    (earlier updates : List Update)
    → NoneFinal earlier
    → LastFinal updates
    → LastFinal (earlier ++ updates)
append-LastFinal [] updates none_final l = l
append-LastFinal (u ∷ []) [] none_final l = absurd l
append-LastFinal (u ∷ []) (v ∷ updates) (h, none_final) l = (h, l)
append-LastFinal (u ∷ v ∷ earlier) updates (h, none_final) l =
    (h, append-LastFinal (v ∷ earlier) updates none_final l)

pub cons-LastFinal :
    (u : Update) (updates : List Update)
    → u.final ≡ false
    → LastFinal updates
    → LastFinal (u ∷ updates)
cons-LastFinal u [] h l = absurd l
cons-LastFinal u (v ∷ updates) h l = (h, l)

module _ (total size : ℕ) (positive : 0 < size) where
  pub length-epoch_slices :
      (last : Bool) (fuel begin : ℕ)
      → total - begin ≤ fuel
      → length (epoch_slices total size last fuel begin) ≡ ceil_div (total - begin) size
  unfolding epoch_slices
  length-epoch_slices last zero begin room =
      let e : total - begin ≡ 0 = omega arith in rw (e, ceil_div-zero size positive) refl
  length-epoch_slices last (suc fuel) begin room =
      let rest = length-epoch_slices last fuel (begin + size) (omega arith) in
      elim (Bool-cases (ltb begin total)) [
        | inr out ↦
            let e : total - begin ≡ 0 = ground arith in
            rw (out, e, ceil_div-zero size positive) refl
        | inl more ↦
            let e : total - (begin + size) ≡ total - begin - size = omega arith in
            rw more (
              omega (
                arith,
                rest,
                ap (λ (k : ℕ). ceil_div k size) e,
                ceil_div-step (total - begin) size positive (ground arith),
              ))
      ]

  pub after_end :
      (begin : ℕ)
      → begin < total
      → range_from (begin + size) (total - (begin + size))
        ≡ range_from
            (begin + (min (begin + size) total - begin))
            (total - begin - (min (begin + size) total - begin))
  after_end begin more = elim (Bool-cases (ltb (begin + size) total)) [
    | inl within ↦
        range_from-cong (begin + size) (begin + (min (begin + size) total - begin))
          (total - (begin + size)) (total - begin - (min (begin + size) total - begin))
          (ground arith) (ground arith)
    | inr over ↦
        let e : total - (begin + size) ≡ 0 = ground arith in
        let f : total - begin - (min (begin + size) total - begin) ≡ 0 = ground arith in
        rw (e, f) refl
  ]

  pub prompts-epoch_slices :
      (last : Bool) (fuel begin : ℕ)
      → total - begin ≤ fuel
      → prompts (epoch_slices total size last fuel begin) ≡ range_from begin (total - begin)
  unfolding epoch_slices
  prompts-epoch_slices last zero begin room = let e : total - begin ≡ 0 = omega arith in rw e refl
  prompts-epoch_slices last (suc fuel) begin room =
      let rest = prompts-epoch_slices last fuel (begin + size) (omega arith) in
      elim (Bool-cases (ltb begin total)) [
        | inr out ↦ let e : total - begin ≡ 0 = ground arith in rw (out, e) refl
        | inl more ↦
            let d = min (begin + size) total - begin in
            rw more (
              ap (λ (r : List ℕ). range_from begin d ++ r) (rest ∙ after_end begin (ground arith))
              ∙ range_from-append begin d (total - begin - d)
              ∙ range_from-cong begin begin (d + (total - begin - d)) (total - begin) refl
                  (ground arith))
      ]

  pub epoch_slices-NoneFinal :
      (fuel begin : ℕ) → NoneFinal (epoch_slices total size false fuel begin)
  unfolding epoch_slices
  epoch_slices-NoneFinal zero begin = tt
  epoch_slices-NoneFinal (suc fuel) begin =
      let rest = epoch_slices-NoneFinal fuel (begin + size) in
      elim (Bool-cases (ltb begin total)) [ inl more ↦ rw more (refl, rest) | inr out ↦ rw out tt ]

  pub epoch_slices-none :
      (last : Bool) (fuel begin : ℕ) → total ≤ begin → epoch_slices total size last fuel begin ≡ []
  unfolding epoch_slices
  epoch_slices-none last zero begin over = refl
  epoch_slices-none last (suc fuel) begin over =
      let out : ltb begin total ≡ false = ground arith in rw out refl

  pub epoch_slices-LastFinal :
      (fuel begin : ℕ)
      → total - begin ≤ fuel
      → begin < total
      → LastFinal (epoch_slices total size true fuel begin)
  unfolding epoch_slices
  epoch_slices-LastFinal zero begin room more = absurd (omega arith)
  epoch_slices-LastFinal (suc fuel) begin room more =
      let inside : ltb begin total ≡ true = ground arith in
      elim (Bool-cases (ltb (begin + size) total)) [
        | inr over ↦
            let e = epoch_slices-none true fuel (begin + size) (ground arith) in
            rw (inside, e) (ground arith)
        | inl within ↦
            let rest = epoch_slices-LastFinal fuel (begin + size) (omega arith) (ground arith) in
            rw inside (
              cons-LastFinal
                (record {
                  begin = begin;
                  end = min (begin + size) total;
                  final = true && min (begin + size) total == total;
                })
                (epoch_slices total size true fuel (begin + size)) (ground arith) rest)
      ]

-- ===== src/Frontend/StopChecker/Scan.antt =====
-- astrai/inference/frontend/output_processor.py, `StopSequenceChecker.push`: the scan for the earliest stop sequence, and a text that has none.
use astr_ai.Base.{
  ℕ, zero, suc, ◌+◌, ◌-◌, ◌≤◌, ◌<◌, ◌≡◌, refl, sym, ap, ◌∙◌, true, false, List, [], ◌∷◌, ◌++◌,
  Option, none, some, ◌⊎◌, inl, inr, arith, ltb, get_elem?, length, take, drop, is_nil, Bool-cases,
  Option-cases, length-append, length-take, take-append-drop,
}
use mathlib.Core.List.{append_assoc}
use astr_ai.Frontend.StopChecker.{Text, find, scan}
use astr_ai.Frontend.StopChecker.Find.{
  at, find-none, find-some, find-earliest, at-lt, at-append, at-append_left, at-append_right,
}

-- No sequence stands anywhere in the text.
abbrev pub Free : List Text → Text → Type 0
Free [] text = Unit {0}
Free (seq ∷ sequences) text = ((p : ℕ) → at seq text p ≡ false) × Free sequences text

-- The sequences are nonempty and no longer than `n`.
abbrev pub Within : ℕ → List Text → Type 0
Within n [] = Unit {0}
Within n (seq ∷ sequences) = (is_nil seq ≡ false) × (length seq ≤ n) × Within n sequences

-- The sequence is one of the list.
abbrev pub Listed : Text → List Text → Type 0
Listed seq sequences = (k : ℕ) × (get_elem? sequences k ≡ some seq)

-- No sequence stands before the place `f`.
pub Clear : ℕ → List Text → Text → Type 0
Clear f [] text = Unit {0}
Clear f (seq ∷ sequences) text = ((p : ℕ) → p < f → at seq text p ≡ false) × Clear f sequences text

pub scan-le :
    (buffer : Text) (sequences : List Text) (first : ℕ) (m : Option Text)
    → (scan buffer sequences first m).0 ≤ first
unfolding scan
scan-le buffer [] first m = omega arith
scan-le buffer (seq ∷ sequences) first m = elim (Option-cases (find seq buffer)) [
  | inl e ↦ rw (e, scan) (scan-le buffer sequences first m)
  | inr (q, e) ↦ elim (Bool-cases (ltb q first)) [
    | inl lt ↦ rw (e, scan, lt) (let h = scan-le buffer sequences q (some seq) in ground arith)
    | inr ge ↦ rw (e, scan, ge) (scan-le buffer sequences first m)
  ]
]

module _ (buffer seq : Text) (sequences : List Text) (first : ℕ) (m : Option Text) where
  pub scan_absent :
      find seq buffer ≡ none → scan buffer (seq ∷ sequences) first m ≡ scan buffer sequences first m
  unfolding scan
  scan_absent e = rw (e, scan)

  pub scan_closer :
      (q : ℕ)
      → find seq buffer ≡ some q
      → ltb q first ≡ true
      → scan buffer (seq ∷ sequences) first m ≡ scan buffer sequences q (some seq)
  unfolding scan
  scan_closer q e lt = rw (e, scan, lt)

  pub scan_further :
      (q : ℕ)
      → find seq buffer ≡ some q
      → ltb q first ≡ false
      → scan buffer (seq ∷ sequences) first m ≡ scan buffer sequences first m
  unfolding scan
  scan_further q e ge = rw (e, scan, ge)

pub Clear-nil : (f : ℕ) (text : Text) → Clear f [] text
unfolding Clear
Clear-nil f text = tt

pub Clear-cons :
    (f : ℕ) (seq : Text) (sequences : List Text) (text : Text)
    → ((p : ℕ) → p < f → at seq text p ≡ false)
    → Clear f sequences text
    → Clear f (seq ∷ sequences) text
unfolding Clear
Clear-cons f seq sequences text h hs = (h, hs)

pub scan-Clear :
    (buffer : Text) (sequences : List Text) (first : ℕ) (m : Option Text)
    → Clear (scan buffer sequences first m).0 sequences buffer
scan-Clear buffer [] first m = Clear-nil (scan buffer [] first m).0 buffer
scan-Clear buffer (seq ∷ sequences) first m = elim (Option-cases (find seq buffer)) [
  | inl e ↦ rw (scan_absent buffer seq sequences first m e) (
      Clear-cons _ seq sequences buffer (λ p lt. find-none seq buffer e p)
        (scan-Clear buffer sequences first m))
  | inr (q, e) ↦ elim (Bool-cases (ltb q first)) [
    | inl lt ↦ rw (scan_closer buffer seq sequences first m q e lt) (
        Clear-cons _ seq sequences buffer
          (λ p below.
            find-earliest seq buffer q p e (omega (arith, scan-le buffer sequences q (some seq))))
          (scan-Clear buffer sequences q (some seq)))
    | inr ge ↦ rw (scan_further buffer seq sequences first m q e ge) (
        Clear-cons _ seq sequences buffer
          (λ p below.
            find-earliest seq buffer q p e
              (let h = scan-le buffer sequences first m in ground arith))
          (scan-Clear buffer sequences first m))
  ]
]

-- The scan keeps what it was given, or gives a match of one of the sequences.
pub scan-cases :
    (buffer : Text) (sequences : List Text) (first : ℕ) (m : Option Text)
    → (scan buffer sequences first m ≡ (first, m))
      ⊎ ((f : ℕ) × (seq : Text) × (scan buffer sequences first m ≡ (f, some seq))
          × Listed seq sequences
          × (at seq buffer f ≡ true))
unfolding scan
scan-cases buffer [] first m = inl refl
scan-cases buffer (seq ∷ sequences) first m = elim (Option-cases (find seq buffer)) [
  | inl e ↦ rw (e, scan) (later (scan-cases buffer sequences first m))
  | inr (q, e) ↦ elim (Bool-cases (ltb q first)) [
    | inl lt ↦ rw (e, scan, lt) (found q e (scan-cases buffer sequences q (some seq)))
    | inr ge ↦ rw (e, scan, ge) (later (scan-cases buffer sequences first m))
  ]
]
  where
    Outcome : ℕ × Option Text → List Text → Type 0
    Outcome r among =
        (f : ℕ) × (s : Text) × (r ≡ (f, some s)) × Listed s among × (at s buffer f ≡ true)

    later :
        {r : ℕ × Option Text}
        → (r ≡ (first, m)) ⊎ Outcome r sequences
        → (r ≡ (first, m)) ⊎ Outcome r (seq ∷ sequences)
    later (inl h) = inl h
    later (inr (f, s, h, (k, among), stands)) = inr (f, s, h, (suc k, among), stands)

    found :
        {r : ℕ × Option Text} (q : ℕ)
        → find seq buffer ≡ some q
        → (r ≡ (q, some seq)) ⊎ Outcome r sequences
        → (r ≡ (first, m)) ⊎ Outcome r (seq ∷ sequences)
    found q e (inl h) = inr (q, seq, h, (zero, refl), find-some seq buffer q e)
    found q e (inr (f, s, h, (k, among), stands)) = inr (f, s, h, (suc k, among), stands)

-- A text in which no sequence stands before its end is free of them.
pub Clear-Free :
    (n : ℕ) (sequences : List Text) (text : Text)
    → Within n sequences
    → Clear (length text) sequences text
    → Free sequences text
unfolding Clear
Clear-Free n [] text w c = tt
Clear-Free n (seq ∷ sequences) text (full, short, w) (c, cs) = (
  (λ p. elim (Bool-cases (at seq text p)) [
    | inr out ↦ out
    | inl stands ↦ c p (at-lt seq text p full stands)
  ]),
  Clear-Free n sequences text w cs,
)

module _ (n : ℕ) (out held : Text) (tail : (out ≡ []) ⊎ (n ≤ length held + 1)) where
  -- A match that begins in what was released ends in what was there before.
  pub ends_before :
      (seq : Text) (p : ℕ) → length seq ≤ n → p < length out → p + length seq ≤ length (out ++ held)
  ends_before seq p short lt = elim tail [
    | inl e ↦ absurd (omega (arith, ap length e))
    | inr long ↦ omega (arith, length-append out held)
  ]

  pub Free-extend :
      (sequences : List Text) (new : Text)
      → Within n sequences
      → Free sequences (out ++ held)
      → Free sequences (held ++ new)
      → Free sequences (out ++ (held ++ new))
  Free-extend [] new w f g = tt
  Free-extend (seq ∷ sequences) new (full, short, w) (f, fs) (g, gs) = (
    (λ p. elim (Bool-cases (ltb p (length out))) [
      | inl lt ↦
          ap (λ (text : Text). at seq text p) (sym (append_assoc out held new))
          ∙ at-append_left seq (out ++ held) new p (ends_before seq p short (ground arith))
          ∙ f p
      | inr ge ↦ at-append_right seq out (held ++ new) p (ground arith) ∙ g (p - length out)
    ]),
    Free-extend sequences new w fs gs,
  )

  -- What is released before a match is free of every sequence.
  pub Free-cut :
      (sequences : List Text) (new : Text) (f : ℕ)
      → Within n sequences
      → Free sequences (out ++ held)
      → Clear f sequences (held ++ new)
      → Free sequences (out ++ take f (held ++ new))
  unfolding Clear
  Free-cut [] new k w f c = tt
  Free-cut (seq ∷ sequences) new k (full, short, w) (f, fs) (c, cs) = (
    (λ p. elim (Bool-cases (at seq (out ++ take k (held ++ new)) p)) [
      | inr gone ↦ gone
      | inl stands ↦ elim (Bool-cases (ltb p (length out))) [
        | inl lt ↦ absurd (
            let here =
              at-append_left seq (out ++ held) new p (ends_before seq p short (ground arith)) in
            let whole =
              ap (λ (text : Text). at seq text p)
                (sym (
                  append_assoc out (take k (held ++ new)) (drop k (held ++ new))
                  ∙ ap (λ (text : Text). out ++ text) (take-append-drop k (held ++ new))
                  ∙ sym (append_assoc out held new)))
              ∙ at-append seq (out ++ take k (held ++ new)) (drop k (held ++ new)) p full stands in
            cc (whole, here, f p))
        | inr ge ↦ absurd (
            let q = p - length out in
            let cut =
              sym (at-append_right seq out (take k (held ++ new)) p (ground arith)) ∙ stands in
            let below = at-lt seq (take k (held ++ new)) q full cut in
            let whole =
              ap (λ (text : Text). at seq text q) (sym (take-append-drop k (held ++ new)))
              ∙ at-append seq (take k (held ++ new)) (drop k (held ++ new)) q full cut in
            cc (whole, c q (omega (arith, length-take k (held ++ new)))))
      ]
    ]),
    Free-cut sequences new k w fs cs,
  )

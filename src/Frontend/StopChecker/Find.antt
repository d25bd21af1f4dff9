-- ===== src/Frontend/StopChecker/Find.antt =====
-- Where a sequence stands in a text, and what joining texts does to it.
use astr_ai.Base.{
  ℕ, zero, suc, ◌+◌, ◌-◌, ◌≤◌, ◌<◌, ◌≡◌, refl, ap, ◌∙◌, Bool, true, false, [], ◌∷◌, ◌++◌, none,
  some, inl, inr, arith, length, drop, is_nil, Bool-cases, Option-cases,
}
use astr_ai.Frontend.StopChecker.{Text, starts_with, find}

-- `seq` stands in `text` from the place `p` on.
abbrev pub at : Text → Text → ℕ → Bool
at seq text p = starts_with seq (drop p text)

pub find-none : (seq text : Text) → find seq text ≡ none → (p : ℕ) → at seq text p ≡ false
unfolding find
find-none [] [] h p = ground arith
find-none (x ∷ seq) [] h zero = refl
find-none (x ∷ seq) [] h (suc p) = refl
find-none seq (c ∷ text) h zero = ground arith
find-none seq (c ∷ text) h (suc p) = elim (Option-cases (find seq text)) [
  | inl e ↦ find-none seq text e p
  | inr (q, e) ↦ ground (arith, e)
]

pub find-some : (seq text : Text) (p : ℕ) → find seq text ≡ some p → at seq text p ≡ true
unfolding find
find-some [] [] zero h = refl
find-some [] [] (suc p) h = ground arith
find-some (x ∷ seq) [] p h = ground arith
find-some seq (c ∷ text) zero h = elim (Bool-cases (starts_with seq (c ∷ text))) [
  | inl here ↦ here
  | inr later ↦ elim (Option-cases (find seq text)) [
    | inl e ↦ ground (arith, e)
    | inr (q, e) ↦ ground (arith, e)
  ]
]
find-some seq (c ∷ text) (suc p) h = elim (Option-cases (find seq text)) [
  | inl e ↦ ground (arith, e)
  | inr (q, e) ↦ ground (arith, e, find-some seq text q e)
]

-- Nothing stands before the place that `find` gives.
pub find-earliest :
    (seq text : Text) (p q : ℕ) → find seq text ≡ some p → q < p → at seq text q ≡ false
unfolding find
find-earliest [] [] p q h lt = ground arith
find-earliest (x ∷ seq) [] p q h lt = ground arith
find-earliest seq (c ∷ text) p zero h lt = ground arith
find-earliest seq (c ∷ text) p (suc q) h lt = elim (Option-cases (find seq text)) [
  | inl e ↦ find-none seq text e q
  | inr (r, e) ↦ find-earliest seq text r q e (ground (arith, e))
]

pub find-lt :
    (seq text : Text) (p : ℕ) → is_nil seq ≡ false → find seq text ≡ some p → p < length text
unfolding find
find-lt seq [] p full h = ground arith
find-lt seq (c ∷ text) p full h = elim (Option-cases (find seq text)) [
  | inl e ↦ ground (arith, e)
  | inr (q, e) ↦ ground (arith, e, find-lt seq text q full e)
]

pub starts_with-append :
    (seq xs ys : Text) → starts_with seq xs ≡ true → starts_with seq (xs ++ ys) ≡ true
starts_with-append [] xs ys h = refl
starts_with-append (x ∷ seq) [] ys h = cc
starts_with-append (x ∷ seq) (y ∷ xs) ys h = ground (arith, starts_with-append seq xs ys)

starts_with-of_append :
    (seq xs ys : Text) → length seq ≤ length xs → starts_with seq (xs ++ ys) ≡ starts_with seq xs
starts_with-of_append [] xs ys h = refl
starts_with-of_append (x ∷ seq) [] ys h = absurd (omega arith)
starts_with-of_append (x ∷ seq) (y ∷ xs) ys h = rw (starts_with-of_append seq xs ys (omega arith))

-- A place whose match would end in the first part.
pub at-append_left :
    (seq xs ys : Text) (p : ℕ) → p + length seq ≤ length xs → at seq (xs ++ ys) p ≡ at seq xs p
at-append_left seq xs ys zero h = starts_with-of_append seq xs ys (omega arith)
at-append_left seq [] ys (suc p) h = absurd (omega arith)
at-append_left seq (x ∷ xs) ys (suc p) h = at-append_left seq xs ys p (omega arith)

pub at-append_right :
    (seq xs ys : Text) (p : ℕ) → length xs ≤ p → at seq (xs ++ ys) p ≡ at seq ys (p - length xs)
at-append_right seq [] ys p h = ap (at seq ys) (omega arith)
at-append_right seq (x ∷ xs) ys zero h = absurd (omega arith)
at-append_right seq (x ∷ xs) ys (suc p) h =
    at-append_right seq xs ys p (omega arith) ∙ ap (at seq ys) (omega arith)

pub at-lt : (seq xs : Text) (p : ℕ) → is_nil seq ≡ false → at seq xs p ≡ true → p < length xs
at-lt [] xs p full h = cc
at-lt (x ∷ seq) [] zero full h = cc
at-lt (x ∷ seq) [] (suc p) full h = cc
at-lt (x ∷ seq) (y ∷ xs) zero full h = omega arith
at-lt (x ∷ seq) (y ∷ xs) (suc p) full h = omega (arith, at-lt (x ∷ seq) xs p full h)

-- What stands in the first part of a text stands in the text.
pub at-append :
    (seq xs ys : Text) (p : ℕ)
    → is_nil seq ≡ false
    → at seq xs p ≡ true
    → at seq (xs ++ ys) p ≡ true
at-append seq xs ys zero full h = starts_with-append seq xs ys h
at-append [] [] ys (suc p) full h = cc
at-append (x ∷ seq) [] ys (suc p) full h = cc
at-append seq (x ∷ xs) ys (suc p) full h = at-append seq xs ys p full h

pub starts_with-split :
    (seq xs : Text) → starts_with seq xs ≡ true → (rest : Text) × (xs ≡ seq ++ rest)
starts_with-split [] xs h = (xs, refl)
starts_with-split (x ∷ seq) [] h = cc
starts_with-split (x ∷ seq) (y ∷ xs) h =
    let (rest, e) = starts_with-split seq xs (ground arith) in (rest, ground (arith, e))

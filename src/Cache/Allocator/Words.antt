-- ===== src/Cache/Allocator/Words.antt =====
-- A mask cut into words of 64 bits: writes to a word are writes to the mask.
use astr_ai.Base.{
  Bool-cases, inl, inr, ℕ, zero, suc, ◌+◌, ◌*◌, ◌/◌, ◌%◌, ◌≤◌, ◌<◌, ◌≡◌, refl, sym, ap, ◌∙◌, Bool,
  true, false, List, [], ◌∷◌, ◌++◌, arith, length, set, take, drop, length-append, length-set,
}
use mathlib.Core.List.{append_assoc}
use astr_ai.Cache.Allocator.{modify, put_bit, clear_words, advance}
use astr_ai.Cache.Mask.{Mask, clear_bits, is_empty}

abbrev pub Wide : List Mask → Type 0
Wide [] = Unit
Wide (w ∷ ws) = (length w ≡ 64) × Wide ws

abbrev pub flatten : List Mask → Mask
flatten [] = []
flatten (w ∷ ws) = w ++ flatten ws

-- No 1 in any of the words.
abbrev pub Blank : List Mask → Type 0
Blank [] = Unit
Blank (w ∷ ws) = (is_empty w ≡ true) × Blank ws

pub flatten-append : (vs ws : List Mask) → flatten (vs ++ ws) ≡ flatten vs ++ flatten ws
flatten-append [] ws = refl
flatten-append (v ∷ vs) ws = simp (flatten-append vs ws, append_assoc)

pub length-flatten : (ws : List Mask) → Wide ws → length (flatten ws) ≡ length ws * 64
length-flatten [] h = omega arith
length-flatten (w ∷ ws) h = omega (arith, length-append w (flatten ws), length-flatten ws h.1, h.0)

set-append_left {ℓ} :
    {A : Type ℓ} (xs ys : List A) (i : ℕ) (v : A)
    → i < length xs
    → set (xs ++ ys) i v ≡ set xs i v ++ ys
set-append_left [] ys i v h = absurd (omega arith)
set-append_left (x ∷ xs) ys zero v h = refl
set-append_left (x ∷ xs) ys (suc i) v h = ap (◌∷◌ x) (set-append_left xs ys i v (omega arith))

set-append_right {ℓ} :
    {A : Type ℓ} (xs ys : List A) (i j : ℕ) (v : A)
    → i ≡ length xs + j
    → set (xs ++ ys) i v ≡ xs ++ set ys j v
set-append_right [] ys i j v h = let e : i ≡ j = omega arith in rw e
set-append_right (x ∷ xs) ys zero j v h = absurd (omega arith)
set-append_right (x ∷ xs) ys (suc i) j v h = ap (◌∷◌ x) (set-append_right xs ys i j v (omega arith))

pub modify-Wide :
    (ws : List Mask) (w r : ℕ) (b : Bool) → Wide ws → Wide (modify ws w (λ x. set x r b))
modify-Wide [] w r b h = tt
modify-Wide (x ∷ ws) zero r b h = (length-set x r b ∙ h.0, h.1)
modify-Wide (x ∷ ws) (suc w) r b h = (h.0, modify-Wide ws w r b h.1)

flatten-modify :
    (ws : List Mask) (w r : ℕ) (b : Bool)
    → Wide ws
    → r < 64
    → flatten (modify ws w (λ x. set x r b)) ≡ set (flatten ws) (w * 64 + r) b
flatten-modify [] w r b h lt = refl
flatten-modify (x ∷ ws) zero r b h lt =
    let e : 0 * 64 + r ≡ r = omega arith in
    rw e (sym (set-append_left x (flatten ws) r b (omega (arith, h.0))))
flatten-modify (x ∷ ws) (suc w) r b h lt =
    ap (◌++◌ x) (flatten-modify ws w r b h.1 lt)
    ∙ sym (set-append_right x (flatten ws) (suc w * 64 + r) (w * 64 + r) b (omega (arith, h.0)))

-- A bit written through the word index is that bit of the mask.
pub flatten-put_bit :
    (ws : List Mask) (idx : ℕ) (b : Bool)
    → Wide ws
    → flatten (put_bit ws idx b) ≡ set (flatten ws) idx b
flatten-put_bit ws idx b h =
    let e : idx / 64 * 64 + idx % 64 ≡ idx = omega arith in
    flatten-modify ws (idx / 64) (idx % 64) b h (omega arith)
    ∙ ap (λ (k : ℕ). set (flatten ws) k b) e

pub put_bit-Wide : (ws : List Mask) (idx : ℕ) (b : Bool) → Wide ws → Wide (put_bit ws idx b)
put_bit-Wide ws idx b h = modify-Wide ws (idx / 64) (idx % 64) b h

pub clear_words-Wide : (ws : List Mask) (pages : List ℕ) → Wide ws → Wide (clear_words ws pages)
clear_words-Wide ws [] h = h
clear_words-Wide ws (i ∷ pages) h =
    clear_words-Wide (put_bit ws i false) pages (put_bit-Wide ws i false h)

pub flatten-clear_words :
    (ws : List Mask) (pages : List ℕ)
    → Wide ws
    → flatten (clear_words ws pages) ≡ clear_bits (flatten ws) pages
flatten-clear_words ws [] h = refl
flatten-clear_words ws (i ∷ pages) h =
    flatten-clear_words (put_bit ws i false) pages (put_bit-Wide ws i false h)
    ∙ ap (λ (m : Mask). clear_bits m pages) (flatten-put_bit ws i false h)

is_empty-set-false : (m : Mask) (i : ℕ) → is_empty m ≡ true → is_empty (set m i false) ≡ true
is_empty-set-false [] i h = refl
is_empty-set-false (b ∷ m) zero h = ground arith
is_empty-set-false (b ∷ m) (suc i) h = ground (arith, is_empty-set-false m i)

-- Clearing bits keeps empty words empty.
modify-Blank :
    (n : ℕ) (ws : List Mask) (w r : ℕ)
    → Blank (take n ws)
    → Blank (take n (modify ws w (λ x. set x r false)))
modify-Blank zero ws w r h = tt
modify-Blank (suc n) [] w r h = tt
modify-Blank (suc n) (x ∷ ws) zero r h = (is_empty-set-false x r h.0, h.1)
modify-Blank (suc n) (x ∷ ws) (suc w) r h = (h.0, modify-Blank n ws w r h.1)

pub clear_words-Blank :
    (n : ℕ) (ws : List Mask) (pages : List ℕ)
    → Blank (take n ws)
    → Blank (take n (clear_words ws pages))
clear_words-Blank n ws [] h = h
clear_words-Blank n ws (i ∷ pages) h =
    clear_words-Blank n (put_bit ws i false) pages (modify-Blank n ws (i / 64) (i % 64) h)

-- Words below the written one stay as they are.
pub modify-Blank_below :
    (n : ℕ) (ws : List Mask) (w : ℕ) (f : Mask → Mask)
    → n ≤ w
    → Blank (take n ws)
    → Blank (take n (modify ws w f))
modify-Blank_below zero ws w f le h = tt
modify-Blank_below (suc n) [] w f le h = tt
modify-Blank_below (suc n) (x ∷ ws) zero f le h = absurd (omega arith)
modify-Blank_below (suc n) (x ∷ ws) (suc w) f le h =
    (h.0, modify-Blank_below n ws w f (omega arith) h.1)

pub Blank-mono : (m n : ℕ) (ws : List Mask) → m ≤ n → Blank (take n ws) → Blank (take m ws)
Blank-mono zero n ws le h = tt
Blank-mono (suc m) zero ws le h = absurd (omega arith)
Blank-mono (suc m) (suc n) [] le h = tt
Blank-mono (suc m) (suc n) (x ∷ ws) le h = (h.0, Blank-mono m n ws (omega arith) h.1)

pub length-modify : (ws : List Mask) (w : ℕ) (f : Mask → Mask) → length (modify ws w f) ≡ length ws
length-modify [] w f = refl
length-modify (x ∷ ws) zero f = refl
length-modify (x ∷ ws) (suc w) f = ap suc (length-modify ws w f)

pub length-clear_words :
    (ws : List Mask) (pages : List ℕ) → length (clear_words ws pages) ≡ length ws
length-clear_words ws [] = refl
length-clear_words ws (i ∷ pages) =
    length-clear_words (put_bit ws i false) pages ∙ length-modify ws (i / 64) _

advance-suc : (w : ℕ) (ws : List Mask) → advance (suc w) ws ≡ suc (advance w ws)
unfolding advance
advance-suc w [] = refl
advance-suc w (x ∷ ws) =
    let e : suc w + 1 ≡ suc (w + 1) = omega arith in
    let ih = ap (λ (k : ℕ). advance k ws) e ∙ advance-suc (w + 1) ws in ground arith

advance_zero-Blank : (ws : List Mask) → Blank (take (advance 0 ws) ws)
unfolding advance
advance_zero-Blank [] = tt
advance_zero-Blank (x ∷ ws) = elim (Bool-cases (is_empty x)) [
  | inl e ↦ rw (e, advance-suc 0 ws) (e, advance_zero-Blank ws)
  | inr e ↦ rw e tt
]

-- The cursor stops behind empty words only.
pub advance-Blank :
    (n : ℕ) (ws : List Mask) → Blank (take n ws) → Blank (take (advance n (drop n ws)) ws)
unfolding advance
advance-Blank zero ws h = advance_zero-Blank ws
advance-Blank (suc n) [] h = tt
advance-Blank (suc n) (x ∷ ws) h = rw (advance-suc n (drop n ws)) (h.0, advance-Blank n ws h.1)

pub advance-le : (n : ℕ) (ws : List Mask) → advance n ws ≤ n + length ws
unfolding advance
advance-le n [] = omega arith
advance-le n (x ∷ ws) = ground (arith, advance-le (n + 1) ws)

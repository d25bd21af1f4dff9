-- ===== src/Cache/Mask/Bits.antt =====
-- The bits of a mask after a write, and the scans for its lowest 1s.
use astr_ai.Base.{
  ℕ, zero, suc, ◌+◌, ◌-◌, ◌<◌, ◌≡◌, refl, ap, ◌∙◌, Bool, true, false, List, [], ◌∷◌, ◌++◌, none,
  some, arith, ltb, ◌==◌, if◌then◌else◌, length, set, mem, Distinct,
}
use astr_ai.Cache.Mask.{Mask, bit, is_empty, lsb, bit_count, clear_bits, set_bits}

pub bit-set-false :
    (m : Mask) (i j : ℕ) → bit (set m i false) j ≡ (if i == j then false else bit m j)
bit-set-false [] i j = ground arith
bit-set-false (b ∷ m) zero zero = refl
bit-set-false (b ∷ m) zero (suc j) = ground arith
bit-set-false (b ∷ m) (suc i) zero = ground arith
bit-set-false (b ∷ m) (suc i) (suc j) = ground (arith, bit-set-false m i j)

pub bit-set-true :
    (m : Mask) (i j : ℕ) → i < length m → bit (set m i true) j ≡ (if i == j then true else bit m j)
bit-set-true [] i j h = absurd (omega arith)
bit-set-true (b ∷ m) zero zero h = refl
bit-set-true (b ∷ m) zero (suc j) h = ground arith
bit-set-true (b ∷ m) (suc i) zero h = ground arith
bit-set-true (b ∷ m) (suc i) (suc j) h = ground (arith, bit-set-true m i j)

pub bit_lt : (m : Mask) (i : ℕ) → bit m i ≡ true → i < length m
bit_lt [] i h = cc
bit_lt (b ∷ m) zero h = omega arith
bit_lt (b ∷ m) (suc i) h = omega (arith, bit_lt m i h)

pub bit-append :
    (m n : Mask) (i : ℕ)
    → bit (m ++ n) i ≡ (if ltb i (length m) then bit m i else bit n (i - length m))
bit-append [] n i = ground arith
bit-append (b ∷ m) n zero = ground arith
bit-append (b ∷ m) n (suc i) = ground (arith, bit-append m n i)

-- Masks of one length with the same bits are equal.
pub mask_ext : (m n : Mask) → length m ≡ length n → ((i : ℕ) → bit m i ≡ bit n i) → m ≡ n
mask_ext [] [] l h = refl
mask_ext [] (b ∷ n) l h = absurd (omega arith)
mask_ext (a ∷ m) [] l h = absurd (omega arith)
mask_ext (a ∷ m) (b ∷ n) l h =
    let tails = mask_ext m n (omega arith) (λ i. h (suc i)) in let heads = h 0 in cc

pub bit-clear_bits :
    (m : Mask) (pages : List ℕ) (j : ℕ)
    → bit (clear_bits m pages) j ≡ (if mem j pages then false else bit m j)
bit-clear_bits m [] j = refl
bit-clear_bits m (i ∷ pages) j =
    ground (arith, bit-clear_bits (set m i false) pages j, bit-set-false m i j)

pub length-clear_bits : (m : Mask) (pages : List ℕ) → length (clear_bits m pages) ≡ length m
length-clear_bits m [] = refl
length-clear_bits m (i ∷ pages) = length-clear_bits (set m i false) pages ∙ length-set m i false
  where
    length-set : (xs : Mask) (i : ℕ) (v : Bool) → length (set xs i v) ≡ length xs
    length-set [] i v = refl
    length-set (x ∷ xs) zero v = refl
    length-set (x ∷ xs) (suc i) v = ap suc (length-set xs i v)

-- A fresh 1 counts once more.
pub bit_count-set-true :
    (m : Mask) (i : ℕ) → i < length m → bit m i ≡ false → bit_count (set m i true) ≡ bit_count m + 1
bit_count-set-true [] i h e = absurd (omega arith)
bit_count-set-true (b ∷ m) zero h e = ground arith
bit_count-set-true (b ∷ m) (suc i) h e = omega (arith, bit_count-set-true m i (omega arith) e)

pub length-set_bits : (base : ℕ) (m : Mask) → length (set_bits base m) ≡ bit_count m
length-set_bits base [] = refl
length-set_bits base (true ∷ m) = omega (arith, length-set_bits (base + 1) m)
length-set_bits base (false ∷ m) = omega (arith, length-set_bits (base + 1) m)

pub set_bits_of_is_empty : (base : ℕ) (m : Mask) → is_empty m ≡ true → set_bits base m ≡ []
set_bits_of_is_empty base [] h = refl
set_bits_of_is_empty base (true ∷ m) h = cc
set_bits_of_is_empty base (false ∷ m) h = set_bits_of_is_empty (base + 1) m h

-- A word is empty exactly when it has no lowest 1; otherwise that is the first of its 1s, and the
-- others are those of the word without it.
pub set_bits_of_lsb-none : (base : ℕ) (m : Mask) → lsb m ≡ none → set_bits base m ≡ []
set_bits_of_lsb-none base [] h = refl
set_bits_of_lsb-none base (true ∷ m) h = cc
set_bits_of_lsb-none base (false ∷ m) h = set_bits_of_lsb-none (base + 1) m (ground arith)

pub set_bits_of_lsb :
    (base : ℕ) (m : Mask) (i : ℕ)
    → lsb m ≡ some i
    → set_bits base m ≡ (base + i) ∷ set_bits base (set m i false)
set_bits_of_lsb base [] i h = cc
set_bits_of_lsb base (true ∷ m) zero h = ap (λ (k : ℕ). k ∷ set_bits (base + 1) m) (omega arith)
set_bits_of_lsb base (true ∷ m) (suc i) h = cc
set_bits_of_lsb base (false ∷ m) zero h = ground arith
set_bits_of_lsb base (false ∷ m) (suc i) h =
    set_bits_of_lsb (base + 1) m i (ground arith)
    ∙ ap (λ (k : ℕ). k ∷ set_bits (base + 1) (set m i false)) (omega arith)

pub lsb-bit : (m : Mask) (i : ℕ) → lsb m ≡ some i → bit m i ≡ true
lsb-bit [] i h = cc
lsb-bit (true ∷ m) zero h = refl
lsb-bit (true ∷ m) (suc i) h = cc
lsb-bit (false ∷ m) zero h = ground arith
lsb-bit (false ∷ m) (suc i) h = lsb-bit m i (ground arith)

pub lsb-none-bit : (m : Mask) (i : ℕ) → lsb m ≡ none → bit m i ≡ false
lsb-none-bit [] i h = refl
lsb-none-bit (true ∷ m) i h = cc
lsb-none-bit (false ∷ m) zero h = refl
lsb-none-bit (false ∷ m) (suc i) h = lsb-none-bit m i (ground arith)

-- The scan finds the 1s and nothing else, each once.
pub mem-set_bits_below : (base : ℕ) (m : Mask) (j : ℕ) → j < base → mem j (set_bits base m) ≡ false
mem-set_bits_below base [] j h = refl
mem-set_bits_below base (true ∷ m) j h = ground (arith, mem-set_bits_below (base + 1) m j)
mem-set_bits_below base (false ∷ m) j h = mem-set_bits_below (base + 1) m j (omega arith)

pub mem-set_bits :
    (base : ℕ) (m : Mask) (k j : ℕ) → base + k ≡ j → mem j (set_bits base m) ≡ bit m k
mem-set_bits base [] k j e = refl
mem-set_bits base (true ∷ m) zero j e = ground arith
mem-set_bits base (false ∷ m) zero j e = mem-set_bits_below (base + 1) m j (omega arith)
mem-set_bits base (true ∷ m) (suc k) j e =
    ground (arith, mem-set_bits (base + 1) m k j (omega arith))
mem-set_bits base (false ∷ m) (suc k) j e = mem-set_bits (base + 1) m k j (omega arith)

pub set_bits-Distinct : (base : ℕ) (m : Mask) → Distinct (set_bits base m)
set_bits-Distinct base [] = tt
set_bits-Distinct base (true ∷ m) =
    (mem-set_bits_below (base + 1) m base (omega arith), set_bits-Distinct (base + 1) m)
set_bits-Distinct base (false ∷ m) = set_bits-Distinct (base + 1) m

-- ===== src/Cache/Mask.antt =====
-- Python's non-negative big integers as sets of bits: `bit m i` is `(m >> i) & 1`. Bits beyond the
-- list are 0, so a mask is as long as the words that index it.
pub mod Bits
use mathlib.Core.Option
use astr_ai.Base.{
  ℕ, zero, suc, ◌+◌, Bool, true, false, not, ◌&&◌, List, [], ◌∷◌, Option, none, some, if◌then◌else◌,
  set,
}

abbrev pub Mask : Type 0
Mask = List Bool

abbrev pub bit : Mask → ℕ → Bool
bit [] i = false
bit (b ∷ m) zero = b
bit (b ∷ m) (suc i) = bit m i

-- `m == 0`.
abbrev pub is_empty : Mask → Bool
is_empty [] = true
is_empty (b ∷ m) = not b && is_empty m

-- `(m & -m).bit_length() - 1`, the place of the lowest 1.
abbrev pub lsb : Mask → Option ℕ
lsb [] = none
lsb (true ∷ m) = some 0
lsb (false ∷ m) = Option.map suc (lsb m)

-- `m.bit_count()`.
abbrev pub bit_count : Mask → ℕ
bit_count [] = 0
bit_count (b ∷ m) = (if b then 1 else 0) + bit_count m

-- `m &= ~clear` for the aggregated bits of `pages`.
abbrev pub clear_bits : Mask → List ℕ → Mask
clear_bits m [] = m
clear_bits m (i ∷ pages) = clear_bits (set m i false) pages

-- The places of the 1s, lowest first, counted from `base`: what the scans of the masks should give.
abbrev pub set_bits : ℕ → Mask → List ℕ
set_bits base [] = []
set_bits base (true ∷ m) = base ∷ set_bits (base + 1) m
set_bits base (false ∷ m) = set_bits (base + 1) m

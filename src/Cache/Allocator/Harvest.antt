-- ===== src/Cache/Allocator/Harvest.antt =====
-- The harvest of the words gives the lowest free pages of the mask, in order.
use astr_ai.Base.{
  ℕ, zero, suc, ◌+◌, ◌-◌, ◌*◌, ◌≡◌, refl, ap, ◌∙◌, true, false, inl, inr, List, [], ◌∷◌, ◌++◌,
  arith, ltb, length, set, take, mem, Option-cases, Bool-cases, length-set, mem-append,
}
use astr_ai.Cache.Mask.{Mask, bit, is_empty, lsb, set_bits}
use astr_ai.Cache.Mask.Bits.{
  bit-set-false, bit-append, set_bits_of_is_empty, set_bits_of_lsb-none, set_bits_of_lsb,
}
use astr_ai.Cache.Allocator.{harvest_word, harvest}
use astr_ai.Cache.Allocator.Words.{Wide, flatten}

pub set_bits-append :
    (base : ℕ) (m n : Mask)
    → set_bits base (m ++ n) ≡ set_bits base m ++ set_bits (base + length m) n
set_bits-append base [] n = let e : base + 0 ≡ base = omega arith in rw e
set_bits-append base (true ∷ m) n =
    let e : base + suc (length m) ≡ base + 1 + length m = omega arith in
    rw e (ap (◌∷◌ base) (set_bits-append (base + 1) m n))
set_bits-append base (false ∷ m) n =
    let e : base + suc (length m) ≡ base + 1 + length m = omega arith in
    rw e (set_bits-append (base + 1) m n)

-- A bounded scan of two lists goes through the first, and then through the second with what is
-- left of the bound.
take-append {ℓ} :
    {A : Type ℓ} (n : ℕ) (xs ys : List A)
    → take n (xs ++ ys) ≡ take n xs ++ take (n - length (take n xs)) ys
take-append zero xs ys = refl
take-append (suc n) [] ys = let e : suc n - 0 ≡ suc n = omega arith in rw e
take-append (suc n) (x ∷ xs) ys =
    let e : suc n - suc (length (take n xs)) ≡ n - length (take n xs) = omega arith in
    rw e (ap (◌∷◌ x) (take-append n xs ys))

harvest_word-lowest :
    (need base : ℕ) (word : Mask) → (harvest_word need base word).0 ≡ take need (set_bits base word)
unfolding harvest_word
harvest_word-lowest zero base word = refl
harvest_word-lowest (suc need) base word = elim (Option-cases (lsb word)) [
  | inl e ↦ rw (e, harvest_word, set_bits_of_lsb-none base word e)
  | inr (i, e) ↦
      rw (e, harvest_word, set_bits_of_lsb base word i e)
        (ap (◌∷◌ (base + i)) (harvest_word-lowest need base (set word i false)))
]

length-harvest_word :
    (need base : ℕ) (word : Mask) → length (harvest_word need base word).1 ≡ length word
unfolding harvest_word
length-harvest_word zero base word = refl
length-harvest_word (suc need) base word = elim (Option-cases (lsb word)) [
  | inl e ↦ rw (e, harvest_word)
  | inr (i, e) ↦
      rw (e, harvest_word)
        (length-harvest_word need base (set word i false) ∙ length-set word i false)
]

harvest_word-bit :
    (need base : ℕ) (word : Mask) (j : ℕ)
    → mem (base + j) (harvest_word need base word).0 ≡ false
    → bit (harvest_word need base word).1 j ≡ bit word j
unfolding harvest_word
harvest_word-bit zero base word j h = refl
harvest_word-bit (suc need) base word j h = elim (Option-cases (lsb word)) [
  | inl e ↦ ground arith
  | inr (i, e) ↦
      ground (arith, harvest_word-bit need base (set word i false) j, bit-set-false word i j)
]

-- What a harvest from word `w` on leaves: as many words as wide, and every bit but those taken.
pub record Harvested (w : ℕ) (ws : List Mask) (r : List ℕ × List Mask) : Type 0 where
  pub wide : Wide r.1
  pub long : length r.1 ≡ length ws
  pub kept : (j : ℕ) → mem (w * 64 + j) r.0 ≡ false → bit (flatten r.1) j ≡ bit (flatten ws) j

Harvested-cons :
    (w : ℕ) (word word' : Mask) (ws : List Mask) (out : List ℕ) (r : List ℕ × List Mask)
    → length word ≡ 64
    → length word' ≡ 64
    → ((j : ℕ) → mem (w * 64 + j) out ≡ false → bit word' j ≡ bit word j)
    → Harvested (w + 1) ws r
    → Harvested w (word ∷ ws) (out ++ r.0, word' ∷ r.1)
Harvested-cons w word word' ws out r l l' same tail = record {
  wide = (l', tail.wide);
  long = ap suc tail.long;
  kept = kept;
}
  where
    kept :
        (j : ℕ)
        → mem (w * 64 + j) (out ++ r.0) ≡ false
        → bit (word' ++ flatten r.1) j ≡ bit (word ++ flatten ws) j
    kept j m = elim (Bool-cases (ltb j 64)) [
      | inl lt ↦ ground (
        arith,
        same j,
        mem-append (w * 64 + j) out r.0,
        bit-append word (flatten ws) j,
        bit-append word' (flatten r.1) j,
      )
      | inr ge ↦
          let at : (w + 1) * 64 + (j - 64) ≡ w * 64 + j = ground arith in
          let later : mem ((w + 1) * 64 + (j - 64)) r.0 ≡ false =
            rw at (ground (arith, mem-append (w * 64 + j) out r.0)) in
          ground (
            arith,
            tail.kept (j - 64) later,
            bit-append word (flatten ws) j,
            bit-append word' (flatten r.1) j,
          )
    ]

harvest_skips :
    (need w : ℕ) (word : Mask) (ws : List Mask)
    → is_empty word ≡ true
    → harvest (suc need) w (word ∷ ws)
      ≡ ((harvest (suc need) (w + 1) ws).0, word ∷ (harvest (suc need) (w + 1) ws).1)
unfolding harvest
harvest_skips need w word ws e = rw (e, harvest)

abbrev word_of : ℕ → ℕ → Mask → List ℕ × Mask
word_of need w word = harvest_word (suc need) (w * 64) word

abbrev rest_of : ℕ → ℕ → Mask → List Mask → List ℕ × List Mask
rest_of need w word ws = harvest (suc need - length (word_of need w word).0) (w + 1) ws

harvest_takes :
    (need w : ℕ) (word : Mask) (ws : List Mask)
    → is_empty word ≡ false
    → harvest (suc need) w (word ∷ ws) ≡ (
      (word_of need w word).0 ++ (rest_of need w word ws).0,
      (word_of need w word).1 ∷ (rest_of need w word ws).1,
    )
unfolding harvest
harvest_takes need w word ws e = rw (e, harvest)

-- The harvest is the bounded scan of the whole mask.
pub harvest-lowest :
    (need w : ℕ) (ws : List Mask)
    → Wide ws
    → (harvest need w ws).0 ≡ take need (set_bits (w * 64) (flatten ws))
unfolding harvest
harvest-lowest zero w [] h = refl
harvest-lowest (suc need) w [] h = refl
harvest-lowest zero w (word ∷ ws) h = refl
harvest-lowest (suc need) w (word ∷ ws) h =
    let next : w * 64 + length word ≡ (w + 1) * 64 = omega (arith, h.0) in
    elim (Bool-cases (is_empty word)) [
      | inl e ↦
          rw
            (
              e,
              harvest,
              set_bits-append (w * 64) word (flatten ws),
              set_bits_of_is_empty (w * 64) word e,
              next,
            )
            (harvest-lowest (suc need) (w + 1) ws h.1)
      | inr e ↦
          rw
            (
              e,
              harvest,
              set_bits-append (w * 64) word (flatten ws),
              next,
              take-append (suc need) (set_bits (w * 64) word)
                  (set_bits ((w + 1) * 64) (flatten ws)),
              harvest_word-lowest (suc need) (w * 64) word,
            )
            (ap (◌++◌ (take (suc need) (set_bits (w * 64) word))) (
              harvest-lowest (suc need - length (take (suc need) (set_bits (w * 64) word))) (w + 1)
                ws h.1))
    ]

pub harvest-Harvested : (need w : ℕ) (ws : List Mask) → Wide ws → Harvested w ws (harvest need w ws)
unfolding harvest
harvest-Harvested zero w [] h = record { wide = tt; long = refl; kept = λ j m. refl }
harvest-Harvested (suc need) w [] h = record { wide = tt; long = refl; kept = λ j m. refl }
harvest-Harvested zero w (word ∷ ws) h = record { wide = h; long = refl; kept = λ j m. refl }
harvest-Harvested (suc need) w (word ∷ ws) h = elim (Bool-cases (is_empty word)) [
  | inl e ↦ rw (harvest_skips need w word ws e) (
      Harvested-cons w word word ws [] _ h.0 h.0 (λ j m. refl)
        (harvest-Harvested (suc need) (w + 1) ws h.1))
  | inr e ↦ rw (harvest_takes need w word ws e) (
      Harvested-cons w word _ ws _ _ h.0 (length-harvest_word (suc need) (w * 64) word ∙ h.0)
        (harvest_word-bit (suc need) (w * 64) word)
        (harvest-Harvested (suc need - length (word_of need w word).0) (w + 1) ws h.1))
]

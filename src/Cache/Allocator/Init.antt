-- ===== src/Cache/Allocator/Init.antt =====
-- The fresh pool, and the word index rebuilt from the mask.
use astr_ai.Base.{
  ℕ, zero, suc, ◌+◌, ◌-◌, ◌*◌, ◌/◌, ◌≡◌, refl, sym, ap, ◌∙◌, Bool, true, false, inl, inr, [], ◌∷◌,
  ◌++◌, none, some, arith, ltb, if◌then◌else◌, length, get_elem?, take, drop, replicate, Bool-cases,
  length-append, length-take, length-drop, length-replicate, take-append-drop,
}
use astr_ai.Base.Int.{ℤ, pos}
use astr_ai.Cache.Mask.{Mask, bit, is_empty}
use astr_ai.Cache.Mask.Bits.{mask_ext, bit-append}
use astr_ai.Cache.Allocator.{Allocator, fill_words, sync_words, all_free, fresh, init, word_bits}
use astr_ai.Cache.Allocator.Words.{Wide, flatten, length-flatten, advance-Blank, advance-le}
use astr_ai.Cache.Allocator.Index.{Indexed}
use astr_ai.Cache.Allocator.Inv.{Inv}

bit_of_is_empty : (m : Mask) (j : ℕ) → is_empty m ≡ true → bit m j ≡ false
bit_of_is_empty [] j h = refl
bit_of_is_empty (true ∷ m) j h = cc
bit_of_is_empty (false ∷ m) zero h = refl
bit_of_is_empty (false ∷ m) (suc j) h = bit_of_is_empty m j h

bit-replicate : (b : Bool) (n j : ℕ) → bit (replicate n b) j ≡ (if ltb j n then b else false)
bit-replicate b zero j = ground arith
bit-replicate b (suc n) zero = ground arith
bit-replicate b (suc n) (suc j) = ground (arith, bit-replicate b n j)

zero_word : Mask
zero_word = replicate word_bits false

zeros-Wide : (n : ℕ) → Wide (replicate n zero_word)
unfolding zero_word
zeros-Wide zero = tt
zeros-Wide (suc n) = (refl, zeros-Wide n)

zeros-append :
    (z m : Mask) (j : ℕ)
    → ((i : ℕ) → bit z i ≡ false)
    → ((i : ℕ) → bit m i ≡ false)
    → bit (z ++ m) j ≡ false
zeros-append z m j hz hm = ground (arith, bit-append z m j, hz j, hm (j - length z))

zero_word-bit : (j : ℕ) → bit zero_word j ≡ false
unfolding zero_word
zero_word-bit j = bit_of_is_empty (replicate word_bits false) j refl

zeros_bit : (n j : ℕ) → bit (flatten (replicate n zero_word)) j ≡ false
zeros_bit zero j = refl
zeros_bit (suc n) j =
    zeros-append zero_word (flatten (replicate n zero_word)) j zero_word-bit (zeros_bit n)

-- The words are the mask cut up, if it is as long as they are.
fill_words_lem :
    (n : ℕ) (m : Mask)
    → length m ≡ n * 64
    → Wide (fill_words n m) × (flatten (fill_words n m) ≡ m) × (length (fill_words n m) ≡ n)
unfolding fill_words zero_word
fill_words_lem zero [] h = (tt, refl, refl)
fill_words_lem zero (b ∷ m) h = absurd (omega arith)
fill_words_lem (suc n) m h = elim (Bool-cases (is_empty m)) [
  | inl e ↦ rw e (
    zeros-Wide (suc n),
    mask_ext _ m
        (omega (
          arith,
          length-flatten (replicate (suc n) zero_word) (zeros-Wide (suc n)),
          length-replicate (suc n) zero_word,
        ))
        (λ j. zeros_bit (suc n) j ∙ sym (bit_of_is_empty m j e)),
    length-replicate (suc n) zero_word,
  )
  | inr e ↦
      let (w, f, l) = fill_words_lem n (drop 64 m) (omega (arith, length-drop 64 m)) in
      rw e (
        (omega (arith, length-take 64 m), w),
        ap (◌++◌ (take 64 m)) f ∙ take-append-drop 64 m,
        ap suc l,
      )
]

-- For a mask of whole words for the pool's pages, the words that `_sync_words` builds are 64 bits wide
-- and are together the mask, and every word before the cursor is empty.
pub sync_words-Indexed :
    (a : Allocator) → length a.free_mask ≡ (a.n_pages + 63) / 64 * 64 → Indexed (sync_words a)
unfolding sync_words
sync_words-Indexed a h =
    let n = (a.n_pages + 63) / 64 in
    let ws = fill_words n a.free_mask in
    let e : (a.n_pages + 64 - 1) / 64 ≡ n = ap (λ (k : ℕ). k / 64) (omega arith) in
    let (w, f, l) = fill_words_lem n a.free_mask h in
    rw e (record {
      wide = w;
      agree = f;
      bounded = omega (arith, advance-le 0 ws);
      blank = advance-Blank 0 ws tt;
    })

length-all_free : (n : ℕ) → length (all_free n) ≡ (n + 63) / 64 * 64
unfolding all_free
length-all_free n = omega (
  arith,
  length-append (replicate n true) (replicate ((n + 64 - 1) / 64 * 64 - n) false),
  length-replicate n true,
  length-replicate ((n + 64 - 1) / 64 * 64 - n) false,
)

bit-all_free : (n j : ℕ) → bit (all_free n) j ≡ ltb j n
unfolding all_free
bit-all_free n j = ground (
  arith,
  bit-append (replicate n true) (replicate ((n + 64 - 1) / 64 * 64 - n) false) j,
  length-replicate n true,
  bit-replicate true n j,
  bit-replicate false ((n + 64 - 1) / 64 * 64 - n) (j - length (replicate n true)),
)

get_elem?-replicate :
    (r : ℤ) (n j : ℕ) → get_elem? (replicate n r) j ≡ (if ltb j n then some r else none)
get_elem?-replicate r zero j = ground arith
get_elem?-replicate r (suc n) zero = ground arith
get_elem?-replicate r (suc n) (suc j) = ground (arith, get_elem?-replicate r n j)

-- A fresh pool of any size is in order, and the free bits are exactly those of its pages.
pub init-Inv : (n : ℕ) → Inv (init n) × ((j : ℕ) → bit (init n).free_mask j ≡ ltb j n)
unfolding init sync_words
init-Inv n = (
  record {
    indexed = sync_words-Indexed (fresh n) (length-all_free n);
    roomy = omega (arith, length-all_free n);
    sized = length-replicate n (pos 0);
    distinct = tt;
    pages = λ j. ground (arith, bit-all_free n j, get_elem?-replicate (pos 0) n j);
  },
  bit-all_free n,
)

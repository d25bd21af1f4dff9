-- ===== src/Cache/Allocator/Room.antt =====
-- astrai/inference/core/cache/strategy.py, `Allocator`: when a batch of pages can be had, read off the
-- reference counts alone.
use astr_ai.Base.{
  ℕ, zero, suc, ◌+◌, ◌≤◌, ◌<◌, ◌≡◌, refl, Bool, true, false, inl, inr, List, [], ◌∷◌, Option, none,
  some, arith, leb, length, mem, get_elem?, if◌then◌else◌, Bool-cases, List-cases, ok,
  length-remove,
}
use astr_ai.Base.Int.{ℤ, pos, negsuc, is_zero}
use astr_ai.Cache.Mask.{Mask, bit, bit_count}
use astr_ai.Cache.Mask.Bits.{bit_count-set-true}
use astr_ai.Cache.Allocator.{Allocator, Hook, alloc_many, mask_free_bit}
use astr_ai.Cache.Allocator.Inv.{Inv, page_ok, cached_lt, cached_bit, uncached, uncached-Inv}
use astr_ai.Cache.Allocator.Alloc.{available, alloc_many_all}

-- The pages to which no request refers.
abbrev pub unheld : List ℤ → ℕ
unheld [] = 0
unheld (r ∷ refs) = (if is_zero r then 1 else 0) + unheld refs

page_ok-is_zero : (b : Bool) (r : ℤ) → page_ok b false (some r) ≡ true → b ≡ is_zero r
page_ok-is_zero true (pos zero) h = refl
page_ok-is_zero true (pos (suc n)) h = ground arith
page_ok-is_zero true (negsuc n) h = ground arith
page_ok-is_zero false (pos zero) h = ground arith
page_ok-is_zero false (pos (suc n)) h = refl
page_ok-is_zero false (negsuc n) h = refl

no_page : (b : Bool) → page_ok b false none ≡ true → b ≡ false
no_page true h = ground arith
no_page false h = refl

-- With nothing cached the free pages are those without a reference.
bit_count-unheld :
    (m : Mask) (refs : List ℤ)
    → ((i : ℕ) → page_ok (bit m i) false (get_elem? refs i) ≡ true)
    → bit_count m ≡ unheld refs
bit_count-unheld [] [] h = refl
bit_count-unheld [] (r ∷ refs) h =
    ground (arith, page_ok-is_zero false r (h 0), bit_count-unheld [] refs (λ i. h (suc i)))
bit_count-unheld (b ∷ m) [] h =
    ground (arith, no_page b (h 0), bit_count-unheld m [] (λ i. h (suc i)))
bit_count-unheld (b ∷ m) (r ∷ refs) h =
    ground (arith, page_ok-is_zero b r (h 0), bit_count-unheld m refs (λ i. h (suc i)))

none_cached : (a : Allocator) → Inv a → a.lru ≡ [] → available a ≡ unheld a.refs
none_cached a h nil =
    let counted = bit_count-unheld a.free_mask a.refs (λ i. rw nil at (h.pages i)) in
    rw nil (omega (arith, counted))

-- In a pool in order the free and the cached pages together are those without a reference.
available-unheld :
    (fuel : ℕ) (a : Allocator) → Inv a → length a.lru ≤ fuel → available a ≡ unheld a.refs
unfolding mask_free_bit
available-unheld zero a h room = elim (List-cases a.lru) [
  | inl nil ↦ none_cached a h nil
  | inr (i, rest, e) ↦ absurd (ground (arith, e))
]
available-unheld (suc fuel) a h room = elim (List-cases a.lru) [
  | inl nil ↦ none_cached a h nil
  | inr (i, rest, e) ↦
      let cached : mem i a.lru ≡ true = ground (arith, e) in
      let less = length-remove i a.lru h.distinct cached in
      let freed =
        bit_count-set-true a.free_mask i (cached_lt a h i cached) (cached_bit a h i cached) in
      let ih =
        available-unheld fuel (uncached a h i cached) (uncached-Inv a h i cached)
          (omega (arith, less)) in
      omega (arith, less, freed, ih)
]

-- What `alloc_many` of `n` pages answers: pages, as many as asked, or none, with nothing changed.
unfoldable pub Answered :
    {C : Type 0} → ℕ → Allocator → C → Allocator → C → Option (List ℕ) → Type 0
Answered n a c a' c' none = (a' ≡ a) × (c' ≡ c)
Answered n a c a' c' (some out) = length out ≡ n

abbrev pub is_given : Option (List ℕ) → Bool
is_given none = false
is_given (some out) = true

module _ {C : Type 0} (hook : Hook C) (a : Allocator) (c : C) (h : Inv a) where
  refused : (n : ℕ) → available a < n → alloc_many hook a c n ≡ ok (a, c, none)
  unfolding alloc_many
  refused zero few = absurd (omega arith)
  refused (suc k) few = ground arith

  -- In a pool in order, under any eviction callback, `alloc_many` never raises; it gives pages exactly
  -- if at least `n` pages have no reference, and then `n` of them, and otherwise changes nothing.
  pub alloc_many-unheld :
      (n : ℕ)
      → (a' : Allocator) × (c' : C) × (r : Option (List ℕ)) × (alloc_many hook a c n
          ≡ ok (a', c', r))
        × (is_given r ≡ leb n (unheld a.refs))
        × Answered n a c a' c' r
  unfolding Answered
  alloc_many-unheld n =
      let counted = available-unheld (length a.lru) a h (omega arith) in
      elim (Bool-cases (leb n (unheld a.refs))) [
        | inl enough ↦
            let (a', c', out, e, sized, _, _) =
              alloc_many_all hook a c h n (ground (arith, counted)) in
            (a', c', some out, e, ground arith, sized)
        | inr short ↦ (a, c, none, refused n (ground (arith, counted)), ground arith, (refl, refl))
      ]

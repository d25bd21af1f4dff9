-- ===== src/Cache/PagedStrategy/Slots.antt =====
-- astrai/inference/core/cache/strategy.py: the slots that an admission writes in bulk against the
-- slot of a single position.
use native.Mathlib.Nat.{div-eq_of_lt, div-eq-sub-div, mod-eq-sub-mod, mod-eq_of_lt}
use astr_ai.Base.{
  ℕ, zero, suc, ◌+◌, ◌-◌, ◌*◌, ◌/◌, ◌≤◌, ◌<◌, ◌≡◌, refl, ap, ◌∙◌, min, List, [], ◌∷◌, ◌++◌, some,
  ltb, length, length-append, get_elem?, arith, Bool-cases, Option-cases, inl, inr, ok,
}
use astr_ai.Cache.ReqPool.{range_from}
use astr_ai.Cache.PagedStrategy.{page_slots, slot_of}

length-range_from : (i n : ℕ) → length (range_from i n) ≡ n
length-range_from i zero = refl
length-range_from i (suc n) = ap suc (length-range_from (i + 1) n)

get_elem?-range_from : (i n k : ℕ) → k < n → get_elem? (range_from i n) k ≡ some (i + k)
get_elem?-range_from i zero k h = ground arith
get_elem?-range_from i (suc n) zero h = ap some (omega arith)
get_elem?-range_from i (suc n) (suc k) h =
    get_elem?-range_from (i + 1) n k (omega arith) ∙ ap some (omega arith)

pub get_elem?-append_left :
    (xs ys : List ℕ) (k : ℕ) → k < length xs → get_elem? (xs ++ ys) k ≡ get_elem? xs k
get_elem?-append_left [] ys k h = ground arith
get_elem?-append_left (x ∷ xs) ys zero h = refl
get_elem?-append_left (x ∷ xs) ys (suc k) h = get_elem?-append_left xs ys k (omega arith)

get_elem?-append_right :
    (xs ys : List ℕ) (k : ℕ) → length xs ≤ k → get_elem? (xs ++ ys) k ≡ get_elem? ys (k - length xs)
get_elem?-append_right [] ys k h = ap (get_elem? ys) (omega arith)
get_elem?-append_right (x ∷ xs) ys zero h = ground arith
get_elem?-append_right (x ∷ xs) ys (suc k) h =
    get_elem?-append_right xs ys k (omega arith) ∙ ap (get_elem? ys) (omega arith)

pub length-page_slots :
    (page_size left : ℕ) (pages : List ℕ)
    → left ≤ length pages * page_size
    → length (page_slots page_size left pages) ≡ left
unfolding page_slots
length-page_slots page_size left [] room = omega arith
length-page_slots page_size left (p ∷ pages) room = omega (
  arith,
  length-append (range_from (p * page_size) (min page_size left))
      (page_slots page_size (left - page_size) pages),
  length-range_from (p * page_size) (min page_size left),
  length-page_slots page_size (left - page_size) pages (omega arith),
)

module _ (page_size : ℕ) (sized : 0 < page_size) where
  slot_of-first :
      (p : ℕ) (pages : List ℕ) (pos : ℕ)
      → pos < page_size
      → slot_of page_size (p ∷ pages) pos ≡ ok (p * page_size + pos)
  unfolding slot_of
  slot_of-first p pages pos h =
      rw
        (
          slot_of,
          div-eq_of_lt {n = pos} {m = page_size} h,
          mod-eq_of_lt {n = pos} {m = page_size} h,
        )
        refl

  slot_of-later :
      (p : ℕ) (pages : List ℕ) (pos : ℕ)
      → page_size ≤ pos
      → slot_of page_size (p ∷ pages) pos ≡ slot_of page_size pages (pos - page_size)
  unfolding slot_of
  slot_of-later p pages pos h =
      let d : pos / page_size ≡ suc ((pos - page_size) / page_size) =
        div-eq-sub-div {m = page_size} {n = pos} sized h ∙ omega arith in
      elim (Option-cases (get_elem? pages ((pos - page_size) / page_size))) [
        | inl e ↦ rw (slot_of, d, e) refl
        | inr (q, e) ↦ rw (slot_of, d, e, mod-eq-sub-mod {n = pos} {m = page_size} h) refl
      ]

  -- At a positive page size, the loop of `write_indices` over pages that hold the positions below
  -- `left` writes for each of these positions the slot that `extend` computes for it from the pages.
  pub page_slots-slot_of :
      (left : ℕ) (pages : List ℕ) (pos : ℕ)
      → pos < left
      → left ≤ length pages * page_size
      → (slot : ℕ) × (get_elem? (page_slots page_size left pages) pos ≡ some slot)
        × (slot_of page_size pages pos ≡ ok slot)
  unfolding page_slots
  page_slots-slot_of left [] pos h room = absurd (omega arith)
  page_slots-slot_of left (p ∷ pages) pos h room =
      let here = range_from (p * page_size) (min page_size left) in
      let rest = page_slots page_size (left - page_size) pages in
      let long = length-range_from (p * page_size) (min page_size left) in
      elim (Bool-cases (ltb pos page_size)) [
        | inl first ↦
            let lt : pos < page_size = ground arith in
            (
              p * page_size + pos,
              get_elem?-append_left here rest pos (omega (arith, long))
                  ∙ get_elem?-range_from (p * page_size) (min page_size left) pos (omega arith),
              slot_of-first p pages pos lt,
            )
        | inr later ↦
            let ge : page_size ≤ pos = ground arith in
            let (slot, e, f) =
              page_slots-slot_of (left - page_size) pages (pos - page_size) (omega arith)
                (omega arith) in
            (
              slot,
              get_elem?-append_right here rest pos (omega (arith, long))
                  ∙ ap (get_elem? rest) (omega (arith, long))
                  ∙ e,
              slot_of-later p pages pos ge ∙ f,
            )
      ]

-- ===== src/Cache/PagedStrategy/Write.antt =====
-- astrai/inference/core/cache/strategy.py: what `write_indices` leaves of an admission, against the
-- slot of a single position.
use native.Mathlib.Nat.{div-add-mod', mod-lt}
use astr_ai.Base.{
  ℕ, zero, suc, ◌+◌, ◌-◌, ◌*◌, ◌/◌, ◌%◌, ◌≤◌, ◌<◌, ◌≡◌, refl, sym, ap, ◌∙◌, min, List, [], ◌∷◌,
  some, true, false, leb, ltb, ◌==◌, length, length-take, get_elem?, take, drop, arith, Bool-cases,
  Option-cases, inl, inr, ok,
}
use astr_ai.Cache.Allocator.{modify}
use astr_ai.Cache.ReqPool.{ReqPool, put_row, overwrite}
use astr_ai.Cache.PagedStrategy.{
  Paged, RequestCacheState, pages_for, slot_of, slots_upto, write_indices,
}
use astr_ai.Cache.PagedStrategy.Slots.{get_elem?-append_left, length-page_slots, page_slots-slot_of}

get_elem?-of_take :
    (n i : ℕ) (xs : List ℕ) (x : ℕ) → get_elem? (take n xs) i ≡ some x → get_elem? xs i ≡ some x
get_elem?-of_take zero i xs x h = ground arith
get_elem?-of_take (suc n) i [] x h = ground arith
get_elem?-of_take (suc n) zero (y ∷ xs) x h = h
get_elem?-of_take (suc n) (suc i) (y ∷ xs) x h = get_elem?-of_take n i xs x h

get_elem?-take : (n i : ℕ) (xs : List ℕ) → i < n → get_elem? (take n xs) i ≡ get_elem? xs i
get_elem?-take zero i xs h = absurd (omega arith)
get_elem?-take (suc n) i [] h = refl
get_elem?-take (suc n) zero (x ∷ xs) h = refl
get_elem?-take (suc n) (suc i) (x ∷ xs) h = get_elem?-take n i xs (omega arith)

get_elem?-some : (xs : List ℕ) (i : ℕ) → i < length xs → (x : ℕ) × (get_elem? xs i ≡ some x)
get_elem?-some [] i h = absurd (omega arith)
get_elem?-some (x ∷ xs) zero h = (x, refl)
get_elem?-some (x ∷ xs) (suc i) h = get_elem?-some xs i (omega arith)

get_elem?-modify :
    (rows : List (List ℕ)) (i : ℕ) (row : List ℕ) (f : List ℕ → List ℕ)
    → get_elem? rows i ≡ some row
    → get_elem? (modify rows i f) i ≡ some (f row)
get_elem?-modify [] i row f h = ground arith
get_elem?-modify (x ∷ rows) zero row f h = ground arith
get_elem?-modify (x ∷ rows) (suc i) row f h = get_elem?-modify rows i row f h

-- At a page size of 1 a page is the slot of its one position.
slot_of-one :
    (pages : List ℕ) (pos slot : ℕ)
    → get_elem? pages pos ≡ some slot
    → slot_of 1 pages pos ≡ ok slot
unfolding slot_of
slot_of-one pages pos slot h =
    let d : pos / 1 ≡ pos = omega arith in
    let e : slot * 1 + pos % 1 ≡ slot = omega arith in rw (slot_of, d, h, e) refl

slot_of-take :
    (page_size n : ℕ) (pages : List ℕ) (pos slot : ℕ)
    → slot_of page_size (take n pages) pos ≡ ok slot
    → slot_of page_size pages pos ≡ ok slot
unfolding slot_of
slot_of-take page_size n pages pos slot h =
    elim (Option-cases (get_elem? (take n pages) (pos / page_size))) [
      | inl e ↦ ground (arith, e)
      | inr (q, e) ↦ ground (arith, e, get_elem?-of_take n (pos / page_size) pages q e)
    ]

-- The pages that a number of tokens needs hold them.
pages_for_enough : (page_size n : ℕ) → 0 < page_size → n ≤ pages_for page_size n * page_size
pages_for_enough page_size n sized =
    omega (arith, div-add-mod' (n + page_size - 1) page_size, mod-lt (n + page_size - 1) sized)

module _ (page_size total : ℕ) (pages : List ℕ) (sized : 0 < page_size)
    (room : total ≤ length pages * page_size) where
  taken_room : total ≤ length (take (pages_for page_size total) pages) * page_size
  taken_room =
      let long = length-take (pages_for page_size total) pages in
      elim (Bool-cases (leb (pages_for page_size total) (length pages))) [
        | inl le ↦
            let e : length (take (pages_for page_size total) pages) ≡ pages_for page_size total =
              ground (arith, long) in
            rw e (pages_for_enough page_size total sized)
        | inr gt ↦
            let e : length (take (pages_for page_size total) pages) ≡ length pages =
              ground (arith, long) in
            rw e room
      ]

  length-slots_upto : length (slots_upto page_size total pages) ≡ total
  unfolding slots_upto
  length-slots_upto = elim (Bool-cases (page_size == 1)) [
    | inl one ↦
        let e : page_size ≡ 1 = ground arith in
        ground (arith, one, length-take total pages, ap (λ (n : ℕ). length pages * n) e)
    | inr more ↦
        rw more
          (length-page_slots page_size total (take (pages_for page_size total) pages) taken_room)
  ]

  slots_upto-slot_of :
      (pos : ℕ)
      → pos < total
      → (slot : ℕ) × (get_elem? (slots_upto page_size total pages) pos ≡ some slot)
        × (slot_of page_size pages pos ≡ ok slot)
  unfolding slots_upto
  slots_upto-slot_of pos h = elim (Bool-cases (page_size == 1)) [
    | inl one ↦
        let e : page_size ≡ 1 = ground arith in
        let within : total ≤ length pages = omega (arith, ap (λ (n : ℕ). length pages * n) e) in
        let (slot, p) = get_elem?-some pages pos (omega arith) in
        (
          slot,
          rw one (get_elem?-take total pos pages h ∙ p),
          ap (λ (n : ℕ). slot_of n pages pos) e ∙ slot_of-one pages pos slot p,
        )
    | inr more ↦
        let (slot, p, q) =
          page_slots-slot_of page_size sized total (take (pages_for page_size total) pages) pos h
            taken_room in
        (slot, rw more p, slot_of-take page_size (pages_for page_size total) pages pos slot q)
  ]

-- With a positive page size, an admission whose prompt reaches `pos` and whose pages hold `pos`, in a
-- row of the table that is long enough: `write_indices` succeeds, keeps a slot for each of the
-- positions that the prompt and the pages reach and marks them all as written, and the slot at `pos`,
-- in the request's state and in its row of the table, is the one that `extend` computes for `pos`
-- from the pages.
pub write_indices-slot_of :
    (s : Paged) (state : RequestCacheState) (prompt_ids row : List ℕ) (pos : ℕ)
    → 0 < s.page_size
    → get_elem? s.req_pool.req_to_token state.req_idx ≡ some row
    → state.req_idx < s.req_pool.size
    → min (length prompt_ids) (length state.pages * s.page_size) ≤ s.req_pool.max_context_len
    → pos < min (length prompt_ids) (length state.pages * s.page_size)
    → (s' : Paged) × (state' : RequestCacheState) × (row' : List ℕ) × (slot : ℕ) × (write_indices s
          state prompt_ids
        ≡ ok (s', state'))
      × (length state'.slots ≡ min (length prompt_ids) (length state.pages * s.page_size))
      × (state'.flushed ≡ length state'.slots)
      × (get_elem? state'.slots pos ≡ some slot)
      × (get_elem? s'.req_pool.req_to_token state.req_idx ≡ some row')
      × (get_elem? row' pos ≡ some slot)
      × (slot_of s.page_size state.pages pos ≡ ok slot)
unfolding write_indices put_row
write_indices-slot_of s state prompt_ids row pos sized has_row in_pool fits reached =
    let total = min (length prompt_ids) (length state.pages * s.page_size) in
    let vals = slots_upto s.page_size total state.pages in
    let room : total ≤ length state.pages * s.page_size = omega arith in
    let long = length-slots_upto s.page_size total state.pages sized room in
    let (slot, p, q) = slots_upto-slot_of s.page_size total state.pages sized room pos reached in
    let some_left : leb total 0 ≡ false = ground arith in
    let inside : ltb state.req_idx s.req_pool.size ≡ true = ground arith in
    let enough : leb (0 + length vals) s.req_pool.max_context_len ≡ true = ground (arith, long) in
    let pool : ReqPool = record s.req_pool {
      req_to_token = modify s.req_pool.req_to_token state.req_idx (λ r. overwrite r 0 vals);
    } in
    (
      record s { req_pool = pool },
      record state { slots = vals; flushed = total },
      overwrite row 0 vals,
      slot,
      rw (some_left, inside, enough) refl,
      long,
      sym long,
      p,
      get_elem?-modify s.req_pool.req_to_token state.req_idx row (λ r. overwrite r 0 vals) has_row,
      get_elem?-append_left vals (drop (0 + length vals) row) pos (omega (arith, long)) ∙ p,
      q,
    )

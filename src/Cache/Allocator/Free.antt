-- ===== src/Cache/Allocator/Free.antt =====
-- astrai/inference/core/cache/strategy.py, `Allocator`: release, by `free`, `free_many`, `inc_ref` and `clear_cached`.
use mathlib.Core.Option
use astr_ai.Base.{
  ℕ, zero, suc, ◌+◌, ◌≤◌, ◌≡◌, refl, ap, ◌∙◌, Bool, true, false, inl, inr, List, [], ◌∷◌, none,
  some, arith, ltb, ◌==◌, if◌then◌else◌, length, set, get_elem?, is_nil, mem, remove, Distinct,
  Bool-cases, Option-cases, List-cases, Result, ok, err, index_error, ◌>>=◌, length-set,
  get_elem?-set, get_elem?_lt, mem-remove, remove-Distinct,
}
use astr_ai.Base.Int.{ℤ, pos, dec}
use astr_ai.Cache.Mask.{bit, bit_count}
use astr_ai.Cache.Allocator
use astr_ai.Cache.Allocator.{
  Allocator, Hook, Batch, next_cached, revoke, evict_cached, evict_all, clear_cached, mask_free_bit,
  put_ref, ref_count, touch, put_bit, word_bits, add_bits, free_step, free_loop, close_batch,
  free_many, inc_ref,
}
use astr_ai.Cache.Allocator.Inv.{Inv, ref_count_lem}
use astr_ai.Cache.Allocator.Granted.{put_ref_lem}
use astr_ai.Cache.Allocator.Alloc.{evict_cached-Evicted}
use astr_ai.Cache.Allocator.Dropped.{dropped, free_lem, dropped-Inv}

free_missing :
    (a : Allocator) (i : ℕ) (keep : Bool)
    → get_elem? a.refs i ≡ none
    → Allocator.free a i keep ≡ err index_error
unfolding Allocator.free ref_count
free_missing a i keep e = ground arith

-- The pages released one after the other.
pub free_each : (ℕ → Bool) → Allocator → List ℕ → Result Allocator
free_each keep a [] = ok a
free_each keep a (i ∷ idxs) = Allocator.free a i (keep i) >>= λ a'. free_each keep a' idxs

module _ (keep : ℕ → Bool) (a : Allocator) where
  -- The pool as it is once a batch is closed, whether or not a page was freed.
  merged : Batch → Allocator
  merged b = record a {
    refs = b.refs;
    lru = b.lru;
    words = b.words;
    free_mask = add_bits a.free_mask b.freed;
    first_nonempty = if ltb b.lowest_word a.first_nonempty then b.lowest_word else a.first_nonempty;
  }

  -- Before a page is freed the batch does not move the cursor.
  abbrev Fits : Batch → Type 0
  Fits b = b.freed ≡ [] → a.first_nonempty ≤ b.lowest_word

  close_merged : (b : Batch) → Fits b → close_batch a b ≡ merged b
  unfolding close_batch merged
  close_merged b f = ground arith

  step-Fits : (b : Batch) (i : ℕ) (r : ℤ) → Fits b → Fits (free_step keep b i r)
  unfolding free_step
  step-Fits b i r f = ground arith

  step_merged :
      (b : Batch) (i : ℕ) (r : ℤ)
      → get_elem? b.refs i ≡ some r
      → Allocator.free (merged b) i (keep i) ≡ ok (merged (free_step keep b i r))
  unfolding Allocator.free free_step merged mask_free_bit
  step_merged b i r e =
      rw
        (
          ref_count_lem (merged b) i r e,
          put_ref_lem (merged b) i (dec r) (get_elem?_lt b.refs i r e),
        )
        (ground arith)

  loop_merged :
      (b : Batch) (idxs : List ℕ)
      → Fits b
      → (free_loop keep b idxs >>= λ b'. ok (close_batch a b')) ≡ free_each keep (merged b) idxs
  unfolding free_loop free_each merged
  loop_merged b [] f = ap ok (close_merged b f)
  loop_merged b (i ∷ idxs) f = elim (Option-cases (get_elem? b.refs i)) [
    | inl e ↦ rw (e, free_loop, free_missing (merged b) i (keep i) e)
    | inr (r, e) ↦
        rw (e, free_loop, step_merged b i r e)
          (loop_merged (free_step keep b i r) idxs (step-Fits b i r f))
  ]

-- In a pool in order, `free_many` with a predicate gives exactly what releasing the pages one after
-- the other gives, errors included.
pub free_many-free_each :
    (a : Allocator) (idxs : List ℕ) (keep : ℕ → Bool)
    → Inv a
    → free_many a idxs (some keep) ≡ free_each keep a idxs
unfolding free_many
free_many-free_each a idxs keep h =
    loop_merged keep a start idxs (λ _. h.indexed.bounded)
    ∙ ap (λ (b : Allocator). free_each keep b idxs) begins
  where
    start : Batch
    start = record {
      refs = a.refs;
      lru = a.lru;
      freed = [];
      words = a.words;
      lowest_word = length a.words;
    }

    begins : merged keep a start ≡ a
    begins = unfold merged in (ground (arith, h.indexed.bounded))

dropped_ref :
    (a : Allocator) (i n : ℕ) (keep : Bool) (j : ℕ)
    → get_elem? a.refs i ≡ some (pos (suc n))
    → get_elem? (dropped a i n keep).refs j ≡ (if i == j then some (pos n) else get_elem? a.refs j)
dropped_ref a i (suc n) keep j r = get_elem?-set a.refs i j _ (get_elem?_lt a.refs i _ r)
dropped_ref a i zero true j r = get_elem?-set a.refs i j _ (get_elem?_lt a.refs i _ r)
dropped_ref a i zero false j r =
    unfold mask_free_bit in get_elem?-set a.refs i j _ (get_elem?_lt a.refs i _ r)

abbrev pub Held : Allocator → ℕ → Type 0
Held a j = (n : ℕ) × (get_elem? a.refs j ≡ some (pos (suc n)))

still-Held :
    (a : Allocator) (i n : ℕ) (keep : Bool) (j : ℕ)
    → get_elem? a.refs i ≡ some (pos (suc n))
    → (i == j) ≡ false
    → Held a j
    → Held (dropped a i n keep) j
still-Held a i n keep j r ne (k, s) = (k, rw (dropped_ref a i n keep j r, ne) s)

mem_ne : (i j : ℕ) (idxs : List ℕ) → mem i idxs ≡ false → mem j idxs ≡ true → (i == j) ≡ false
mem_ne i j idxs out m = elim (Bool-cases (i == j)) [
  | inr ne ↦ ne
  | inl same ↦ let e : i ≡ j = ground arith in absurd (let o = rw e at out in ground arith)
]

mem_head : (i : ℕ) (idxs : List ℕ) → mem i (i ∷ idxs) ≡ true
mem_head i idxs = ground arith

mem_tail : (i j : ℕ) (idxs : List ℕ) → mem j idxs ≡ true → mem j (i ∷ idxs) ≡ true
mem_tail i j idxs m = ground arith

-- Each of the held pages loses one reference, and nothing else does.
pub free_each-Inv :
    (keep : ℕ → Bool) (a : Allocator) (idxs : List ℕ)
    → Inv a
    → Distinct idxs
    → ((j : ℕ) → mem j idxs ≡ true → Held a j)
    → (a' : Allocator) × (free_each keep a idxs ≡ ok a')
      × Inv a'
      × ((j : ℕ)
          → get_elem? a'.refs j
            ≡ (if mem j idxs then Option.map dec (get_elem? a.refs j) else get_elem? a.refs j))
unfolding free_each
free_each-Inv keep a [] h d held = (a, refl, h, λ j. refl)
free_each-Inv keep a (i ∷ idxs) h d held =
    let (n, r) = held i (mem_head i idxs) in
    let (a', e, v, after) =
      free_each-Inv keep (dropped a i n (keep i)) idxs (dropped-Inv a i n (keep i) r h) d.1
        (rest n r) in
    (
      a',
      rw (free_lem a i n (keep i) r) e,
      v,
      λ j. elim (Bool-cases (i == j)) [
        | inl same ↦
            let q : i ≡ j = ground arith in
            let out : mem j idxs ≡ false = rw (← q) d.0 in
            let rj : get_elem? a.refs j ≡ some (pos (suc n)) = rw (← q) r in
            rw (after j, out, same, dropped_ref a i n (keep i) j r, same, rj)
        | inr ne ↦ rw (after j, ne, dropped_ref a i n (keep i) j r, ne)
      ],
    )
  where
    rest :
        (n : ℕ) (r : get_elem? a.refs i ≡ some (pos (suc n))) (j : ℕ)
        → mem j idxs ≡ true
        → Held (dropped a i n (keep i)) j
    rest n r j m =
        still-Held a i n (keep i) j r (mem_ne i j idxs d.0 m) (held j (mem_tail i j idxs m))

-- In a pool in order, `free_many` of distinct pages, each of which is held, raises nothing: each of
-- them loses one reference, no other page's count changes, and the pool stays in order.
pub free_many-Inv :
    (a : Allocator) (idxs : List ℕ) (keep : ℕ → Bool)
    → Inv a
    → Distinct idxs
    → ((j : ℕ) → mem j idxs ≡ true → Held a j)
    → (a' : Allocator) × (free_many a idxs (some keep) ≡ ok a')
      × Inv a'
      × ((j : ℕ)
          → get_elem? a'.refs j
            ≡ (if mem j idxs then Option.map dec (get_elem? a.refs j) else get_elem? a.refs j))
free_many-Inv a idxs keep h d held =
    let (a', e, v, after) = free_each-Inv keep a idxs h d held in
    (a', free_many-free_each a idxs keep h ∙ e, v, after)

-- In a pool in order, `inc_ref` of a page that is not free gives it one reference more and takes it
-- out of the LRU, leaves every other count and the free mask, and keeps the pool in order.
pub inc_ref-Inv :
    (a : Allocator) (i n : ℕ)
    → Inv a
    → bit a.free_mask i ≡ false
    → get_elem? a.refs i ≡ some (pos n)
    → (a' : Allocator) × (inc_ref a i ≡ ok a')
      × Inv a'
      × (mem i a'.lru ≡ false)
      × ((j : ℕ)
          → get_elem? a'.refs j ≡ (if i == j then some (pos (suc n)) else get_elem? a.refs j))
      × (a'.free_mask ≡ a.free_mask)
unfolding inc_ref
inc_ref-Inv a i n h taken r =
    let lt = get_elem?_lt a.refs i (pos n) r in
    let after = λ (j : ℕ). get_elem?-set a.refs i j (pos (suc n)) lt in
    (
      record a { refs = set a.refs i (pos (suc n)); lru = remove i a.lru },
      rw (ref_count_lem a i (pos n) r, put_ref_lem a i (pos (suc n)) lt),
      record {
        indexed = record {
          wide = h.indexed.wide;
          agree = h.indexed.agree;
          bounded = h.indexed.bounded;
          blank = h.indexed.blank;
        };
        roomy = h.roomy;
        sized = length-set a.refs i (pos (suc n)) ∙ h.sized;
        distinct = remove-Distinct i a.lru h.distinct;
        pages = λ j. ground (arith, h.pages j, after j, mem-remove i j a.lru);
      },
      ground (arith, mem-remove i i a.lru),
      after,
      refl,
    )

-- The loop of `clear_cached`.
module _ {C : Type 0} (hook : Hook C) where
  evict_all-Inv :
      (fuel : ℕ) (a : Allocator) (c : C)
      → Inv a
      → length a.lru ≤ fuel
      → (a' : Allocator) × (c' : C) × (evict_all hook fuel a c ≡ ok (a', c'))
        × Inv a'
        × (a'.lru ≡ [])
        × (a'.refs ≡ a.refs)
        × (bit_count a'.free_mask ≡ bit_count a.free_mask + length a.lru)
  unfolding evict_all
  evict_all-Inv zero a c h room = elim (List-cases a.lru) [
    | inl e ↦ (a, c, refl, h, e, refl, omega (arith, ap length e))
    | inr (i, rest, e) ↦ absurd (omega (arith, ap length e))
  ]
  evict_all-Inv (suc fuel) a c h room = elim (List-cases a.lru) [
    | inl e ↦ (a, c, rw (ap is_nil e, evict_all), h, e, refl, omega (arith, ap length e))
    | inr (i, rest, e) ↦
        let (b, m, f, v) = evict_cached-Evicted hook a c i h in
        let shrinks = v.released_one (rw e (mem_head i rest)) in
        let (a', c', g, w, x, y, z) =
          evict_all-Inv fuel b (revoke hook c i).0 v.inv (omega (arith, v.lru_count)) in
        (
          a',
          c',
          rw (ap is_nil e, evict_all, ap next_cached e, f) g,
          w,
          x,
          y ∙ v.refs_same,
          omega (arith, v.freed_count, v.lru_count),
        )
  ]

  -- In a pool in order, `clear_cached` ends without raising, under any callback: the LRU is empty, as
  -- many pages are free besides as were cached, which is the answer, no reference changes, and the pool
  -- stays in order.
  pub clear_cached-Inv :
      (a : Allocator) (c : C)
      → Inv a
      → (a' : Allocator) × (c' : C) × (clear_cached hook a c ≡ ok (a', c', length a.lru))
        × Inv a'
        × (a'.lru ≡ [])
        × (a'.refs ≡ a.refs)
        × (bit_count a'.free_mask ≡ bit_count a.free_mask + length a.lru)
  unfolding clear_cached
  clear_cached-Inv a c h =
      let (a', c', e, v, x, y, z) = evict_all-Inv (length a.lru) a c h (omega arith) in
      (a', c', rw e, v, x, y, z)

-- ===== src/Cache/Allocator/Alloc.antt =====
-- Allocation, under any eviction callback: `alloc` and `alloc_many` never raise, and hand out pages
-- that no request holds.
use astr_ai.Base.{
  ℕ, zero, suc, ◌+◌, ◌≤◌, ◌≡◌, refl, ap, ◌∙◌, Bool, true, false, inl, inr, List, [], ◌∷◌, Option,
  none, some, arith, ltb, length, take, is_nil, mem, Distinct, Bool-cases, Option-cases, List-cases,
  ok, get_elem?_lt, length-take,
}
use astr_ai.Base.Int.{pos}
use astr_ai.Cache.Mask.{Mask, bit, lsb, bit_count, set_bits}
use astr_ai.Cache.Mask.Bits.{length-set_bits, set_bits-Distinct, lsb-bit, set_bits_of_lsb-none}
use astr_ai.Cache.Allocator.{
  Allocator, Hook, next_cached, revoke, evict_cached, evict_until, take_page, alloc, alloc_many,
  mask_alloc_bits,
}
use astr_ai.Cache.Allocator.Index.{mask_alloc_bits-Indexed}
use astr_ai.Cache.Allocator.Inv.{Inv, page_ok, discard_cached-Discarded, cached_ref}
use astr_ai.Cache.Allocator.Granted.{
  put_ref_lem, Granted, free_lem, granted, granted_lem, take-Distinct, harvest_pages-Granted,
}

module _ {C : Type 0} (hook : Hook C) where
  -- What an eviction of the cached page `idx` has done.
  pub record Evicted (a : Allocator) (idx : ℕ) (a' : Allocator) (n : ℕ) : Type 0 where
    pub inv : Inv a'
    pub refs_same : a'.refs ≡ a.refs
    pub n_pages_same : a'.n_pages ≡ a.n_pages
    pub gone : mem idx a'.lru ≡ false
    pub lru_after : (j : ℕ) → mem j a'.lru ≡ true → mem j a.lru ≡ true
    pub freed_count : bit_count a'.free_mask ≡ bit_count a.free_mask + n
    pub lru_count : length a'.lru + n ≡ length a.lru
    pub released_one : mem idx a.lru ≡ true → 1 ≤ n

  -- In a pool in order, evicting a page never raises, whatever the callback reports: the page is cached
  -- no more, the pages that leave the LRU are as many as become free, their count is the answer, which
  -- is at least one if the page was cached, no reference changes, and the pool stays in order.
  pub evict_cached-Evicted :
      (a : Allocator) (c : C) (idx : ℕ)
      → Inv a
      → (a' : Allocator) × (n : ℕ) × (evict_cached hook a c idx ≡ ok (a', (revoke hook c idx).0, n))
        × Evicted a idx a' n
  unfolding evict_cached
  evict_cached-Evicted a c idx h =
      let (a₁, n, e, d) = discard_cached-Discarded a (revoke hook c idx).1 h in
      let (a₂, m, f, g) = discard_cached-Discarded a₁ (idx ∷ []) d.inv in
      (
        a₂,
        n + m,
        rw (e, f),
        record {
          inv = g.inv;
          refs_same = g.refs_same ∙ d.refs_same;
          n_pages_same = g.n_pages_same ∙ d.n_pages_same;
          gone = ground (arith, g.lru_left idx);
          lru_after = λ j k. ground (arith, g.lru_left j, d.lru_left j);
          freed_count = omega (arith, d.freed_count, g.freed_count);
          lru_count = omega (arith, d.lru_count, g.lru_count);
          released_one = λ k. elim (Bool-cases (mem idx a₁.lru)) [
            | inl later ↦ omega (arith, g.released_one idx later (ground (arith, g.lru_left idx)))
            | inr early ↦ omega (arith, d.released_one idx k early)
          ];
        },
      )

  -- Evicting makes room: it ends by its test with `n` pages free, if so many are free or cached.
  pub record Reclaimed (a : Allocator) (n : ℕ) (a' : Allocator) : Type 0 where
    pub inv : Inv a'
    pub refs_same : a'.refs ≡ a.refs
    pub n_pages_same : a'.n_pages ≡ a.n_pages
    pub lru_after : (j : ℕ) → mem j a'.lru ≡ true → mem j a.lru ≡ true
    pub enough : n ≤ bit_count a'.free_mask

  pub evict_until_idle :
      (fuel n free : ℕ) (a : Allocator) (c : C)
      → n ≤ free
      → evict_until hook fuel n free a c ≡ ok (a, c)
  unfolding evict_until
  evict_until_idle zero n free a c h = ground arith
  evict_until_idle (suc fuel) n free a c h = ground arith

  pub evict_until-Reclaimed :
      (fuel n free : ℕ) (a : Allocator) (c : C)
      → Inv a
      → length a.lru ≤ fuel
      → free ≡ bit_count a.free_mask
      → n ≤ free + length a.lru
      → (a' : Allocator) × (c' : C) × (evict_until hook fuel n free a c ≡ ok (a', c'))
        × Reclaimed a n a'
  unfolding evict_until
  evict_until-Reclaimed zero n free a c h room count fits = (
    a,
    c,
    evict_until_idle zero n free a c (omega arith),
    record {
      inv = h;
      refs_same = refl;
      n_pages_same = refl;
      lru_after = λ j m. m;
      enough = omega arith;
    },
  )
  evict_until-Reclaimed (suc fuel) n free a c h room count fits = elim (Bool-cases (ltb free n)) [
    | inr done ↦ (
      a,
      c,
      evict_until_idle (suc fuel) n free a c (ground arith),
      record {
        inv = h;
        refs_same = refl;
        n_pages_same = refl;
        lru_after = λ j m. m;
        enough = ground arith;
      },
    )
    | inl short ↦ elim (List-cases a.lru) [
      | inl e ↦ absurd (let l = ap length e in ground arith)
      | inr (idx, rest, e) ↦
          let (a', m, f, v) = evict_cached-Evicted a c idx h in
          let shrinks = v.released_one (rw e (ground arith)) in
          let (a'', c', g, r) =
            evict_until-Reclaimed fuel n (free + m) a' (revoke hook c idx).0 v.inv
              (omega (arith, v.lru_count)) (omega (arith, v.freed_count))
              (omega (arith, v.lru_count)) in
          (
            a'',
            c',
            rw (short, evict_until, ap next_cached e, f) g,
            record {
              inv = r.inv;
              refs_same = r.refs_same ∙ v.refs_same;
              n_pages_same = r.n_pages_same ∙ v.n_pages_same;
              lru_after = λ j k. v.lru_after j (r.lru_after j k);
              enough = r.enough;
            },
          )
    ]
  ]

abbrev pub available : Allocator → ℕ
available a = bit_count a.free_mask + length a.lru

-- A grant after pages were evicted is a grant.
Granted-Reclaimed :
    {a b a' : Allocator} (out : List ℕ)
    → b.refs ≡ a.refs
    → b.n_pages ≡ a.n_pages
    → ((j : ℕ) → mem j b.lru ≡ true → mem j a.lru ≡ true)
    → Granted b a' out
    → Granted a a' out
Granted-Reclaimed {a} {b} {a'} out refs pages lrus g = record {
  inv = g.inv;
  n_pages_same = g.n_pages_same ∙ pages;
  unheld = λ j m. rw (← refs) (g.unheld j m);
  refs_after = λ j. rw (← refs) (g.refs_after j);
  lru_after = λ j m. lrus j (g.lru_after j m);
}

Granted-nothing : (a : Allocator) → Inv a → Granted a a []
Granted-nothing a h = record {
  inv = h;
  n_pages_same = refl;
  unheld = λ j m. cc;
  refs_after = λ j. refl;
  lru_after = λ j m. m;
}

length-lowest : (n : ℕ) (m : Mask) → n ≤ bit_count m → length (take n (set_bits 0 m)) ≡ n
length-lowest n m h = omega (arith, length-take n (set_bits 0 m), length-set_bits 0 m)

module _ {C : Type 0} (hook : Hook C) (a : Allocator) (c : C) (h : Inv a) where
  -- In a pool in order with at least `n` free or cached pages, `alloc_many` gives `n` distinct pages
  -- under any eviction callback: no request held them, each has one reference after, no other page's
  -- count changes, no page becomes cached, and the pool stays in order.
  pub alloc_many_all :
      (n : ℕ)
      → n ≤ available a
      → (a' : Allocator) × (c' : C) × (out : List ℕ) × (alloc_many hook a c n
          ≡ ok (a', c', some out))
        × (length out ≡ n)
        × Distinct out
        × Granted a a' out
  unfolding alloc_many
  alloc_many_all zero fits = (a, c, [], refl, refl, tt, Granted-nothing a h)
  alloc_many_all (suc k) fits =
      let (b, c', e, r) =
        evict_until-Reclaimed hook (length a.lru) (suc k) (bit_count a.free_mask) a c h
          (omega arith) refl fits in
      let (a', f, g, _) = harvest_pages-Granted b (suc k) r.inv in
      let out = take (suc k) (set_bits 0 b.free_mask) in
      let enough : ltb (bit_count a.free_mask + length a.lru) (suc k) ≡ false = ground arith in
      (
        a',
        c',
        out,
        rw (enough, e, f),
        length-lowest (suc k) b.free_mask r.enough,
        take-Distinct (suc k) _ (set_bits-Distinct 0 b.free_mask),
        Granted-Reclaimed out r.refs_same r.n_pages_same r.lru_after g,
      )

  -- With `n` free pages in a pool in order, `alloc_many` calls no callback, gives the lowest `n` free
  -- pages in ascending order, and leaves the LRU as it is.
  pub alloc_many_lowest :
      (n : ℕ)
      → n ≤ bit_count a.free_mask
      → (a' : Allocator) × (alloc_many hook a c n
          ≡ ok (a', c, some (take n (set_bits 0 a.free_mask))))
        × (a'.lru ≡ a.lru)
  unfolding alloc_many
  alloc_many_lowest zero fits = (a, refl, refl)
  alloc_many_lowest (suc k) fits =
      let (a', f, _, kept) = harvest_pages-Granted a (suc k) h in
      let enough : ltb (bit_count a.free_mask + length a.lru) (suc k) ≡ false = ground arith in
      let idle = evict_until_idle hook (length a.lru) (suc k) (bit_count a.free_mask) a c fits in
      (a', rw (enough, idle, f), kept)

  -- The end of `alloc`, at a page that is free.
  take_page-Granted :
      (b : Allocator) (d : C) (idx : ℕ)
      → Inv b
      → bit b.free_mask idx ≡ true
      → (a' : Allocator) × (take_page hook b d idx ≡ ok (a', d, some idx)) × Granted b a' (idx ∷ [])
  unfolding take_page mask_alloc_bits
  take_page-Granted b d idx v free =
      let only : (j : ℕ) → mem j (idx ∷ []) ≡ true → bit b.free_mask j ≡ true =
        λ j m. let e : idx ≡ j = ground arith in rw (← e) free in
      let indexed = mask_alloc_bits-Indexed b (idx ∷ []) v.indexed in
      (
        granted b b (idx ∷ []) v only indexed refl refl refl refl,
        rw (
            put_ref_lem (mask_alloc_bits b (idx ∷ [])) idx (pos 1) (
              unfold mask_alloc_bits in get_elem?_lt b.refs idx (pos 0) (free_lem b idx v free).0)),
        granted_lem b b (idx ∷ []) v only indexed refl refl refl refl,
      )

  freed_page : (b : Bool) → page_ok b false (some (pos 0)) ≡ true → b ≡ true
  freed_page true e = refl
  freed_page false e = cc

  -- The answer of `alloc`: a page, or none if none is free or cached.
  abbrev pub Allocated : Allocator → Option ℕ → Type 0
  Allocated a' none = (a' ≡ a) × (available a ≡ 0)
  Allocated a' (some idx) = Granted a a' (idx ∷ [])

  -- In a pool in order, `alloc` never raises: it gives a page that no request held, which has one
  -- reference after while no other page's count changes, or it gives none, changes nothing, and no page
  -- was free or cached.
  pub alloc-Allocated :
      (a' : Allocator) × (c' : C) × (r : Option ℕ) × (alloc hook a c ≡ ok (a', c', r))
      × Allocated a' r
  unfolding alloc
  alloc-Allocated = elim (Option-cases (lsb a.free_mask)) [
    | inr (idx, e) ↦
        let (a', f, g) = take_page-Granted a c idx h (lsb-bit a.free_mask idx e) in
        (a', c, some idx, rw (e, alloc) f, g)
    | inl e ↦ elim (List-cases a.lru) [
      | inl l ↦ (
        a,
        c,
        none,
        rw (e, alloc, ap is_nil l),
        (
          refl,
          omega (
            arith,
            ap length l,
            ap (length {A = ℕ}) (set_bits_of_lsb-none 0 a.free_mask e),
            length-set_bits 0 a.free_mask,
          ),
        ),
      )
      | inr (idx, rest, l) ↦
          let (b, m, f, v) = evict_cached-Evicted hook a c idx h in
          let cached = (cached_ref a h idx (rw l (ground arith))) in
          let free =
            freed_page (bit b.free_mask idx)
              (rw (v.gone, v.refs_same, cached) at (v.inv.pages idx)) in
          let (a', k, g) = take_page-Granted b (revoke hook c idx).0 idx v.inv free in
          (
            a',
            (revoke hook c idx).0,
            some idx,
            rw (e, alloc, ap is_nil l, ap next_cached l, f) k,
            Granted-Reclaimed (idx ∷ []) v.refs_same v.n_pages_same v.lru_after g,
          )
    ]
  ]

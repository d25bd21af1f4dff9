-- ===== src/Cache/Allocator/Inv.antt =====
-- Every page is free, cached or held: the invariant of the pool.
use astr_ai.Base.{
  ℕ, zero, suc, ◌+◌, ◌≤◌, ◌<◌, ◌≡◌, refl, Bool, true, false, not, ◌&&◌, inl, inr, List, [], ◌∷◌,
  Option, none, some, arith, length, get_elem?, mem, remove, Distinct, Bool-cases, ok, length-set,
  get_elem?_lt, mem-remove, remove-Distinct, length-remove,
}
use astr_ai.Base.Int.{ℤ, pos, negsuc}
use astr_ai.Cache.Mask.{bit, bit_count}
use astr_ai.Cache.Mask.Bits.{bit-set-true, bit_count-set-true}
use astr_ai.Cache.Allocator.{Allocator, discard_cached, mask_free_bit, ref_count}
use astr_ai.Cache.Allocator.Index.{Indexed, mask_free_bit-Indexed}

-- From a page's free bit, its membership in the LRU and its count: it is free with no reference,
-- cached with no reference, held with at least one, or no page of the pool.
abbrev pub page_ok : Bool → Bool → Option ℤ → Bool
page_ok true false (some (pos zero)) = true
page_ok false true (some (pos zero)) = true
page_ok false false (some (pos (suc n))) = true
page_ok false false none = true
page_ok _ _ _ = false

pub record Inv (a : Allocator) : Type 0 where
  pub indexed : Indexed a
  pub roomy : a.n_pages ≤ length a.free_mask
  pub sized : length a.refs ≡ a.n_pages
  pub distinct : Distinct a.lru
  pub pages : (i : ℕ) → page_ok (bit a.free_mask i) (mem i a.lru) (get_elem? a.refs i) ≡ true

-- A cached page is in range, has no reference, and is not free.
pub cached_page :
    (b : Bool) (r : Option ℤ) → page_ok b true r ≡ true → (r ≡ some (pos 0)) × (b ≡ false)
cached_page false (some (pos zero)) h = (refl, refl)
cached_page false (some (pos (suc n))) h = cc
cached_page false (some (negsuc n)) h = cc
cached_page false none h = cc
cached_page true r h = go r h
  where
    go : (r : Option ℤ) → page_ok true true r ≡ true → (r ≡ some (pos 0)) × (true ≡ false)
    go (some (pos zero)) h = cc
    go (some (pos (suc n))) h = cc
    go (some (negsuc n)) h = cc
    go none h = cc

module _ (a : Allocator) (h : Inv a) (i : ℕ) (cached : mem i a.lru ≡ true) where
  cached_lem : (get_elem? a.refs i ≡ some (pos 0)) × (bit a.free_mask i ≡ false)
  cached_lem = cached_page (bit a.free_mask i) (get_elem? a.refs i) (rw cached at (h.pages i))

  pub cached_ref : get_elem? a.refs i ≡ some (pos 0)
  cached_ref = cached_lem.0

  pub cached_bit : bit a.free_mask i ≡ false
  cached_bit = cached_lem.1

  pub cached_lt : i < length a.free_mask
  cached_lt = omega (arith, get_elem?_lt a.refs i (pos 0) cached_ref, h.sized, h.roomy)

  -- A cached page becomes free.
  abbrev pub uncached : Allocator
  uncached = mask_free_bit (record a { lru = remove i a.lru }) i

  pub uncached-Inv : Inv uncached
  unfolding mask_free_bit
  uncached-Inv = record {
    indexed =
        mask_free_bit-Indexed (record a { lru = remove i a.lru }) i
          (record {
            wide = h.indexed.wide;
            agree = h.indexed.agree;
            bounded = h.indexed.bounded;
            blank = h.indexed.blank;
          });
    roomy = omega (arith, h.roomy, length-set a.free_mask i true);
    sized = h.sized;
    distinct = remove-Distinct i a.lru h.distinct;
    pages = λ j. ground (
      arith,
      h.pages j,
      bit-set-true a.free_mask i j cached_lt,
      mem-remove i j a.lru,
      cached_ref,
    );
  }

pub ref_count_lem :
    (a : Allocator) (i : ℕ) (r : ℤ) → get_elem? a.refs i ≡ some r → ref_count a i ≡ ok r
unfolding ref_count
ref_count_lem a i r e = rw (e, ref_count)

-- What a discard of `idxs` that released `n` pages has done.
pub record Discarded (a : Allocator) (idxs : List ℕ) (a' : Allocator) (n : ℕ) : Type 0 where
  pub inv : Inv a'
  pub refs_same : a'.refs ≡ a.refs
  pub n_pages_same : a'.n_pages ≡ a.n_pages
  pub lru_left : (j : ℕ) → mem j a'.lru ≡ (mem j a.lru && not (mem j idxs))
  pub freed_count : bit_count a'.free_mask ≡ bit_count a.free_mask + n
  pub lru_count : length a'.lru + n ≡ length a.lru
  pub released_one : (j : ℕ) → mem j a.lru ≡ true → mem j a'.lru ≡ false → 1 ≤ n

-- In a pool in order, a discard never raises: the pages it names leave the LRU and no others, as many
-- pages become free as leave it, which is the answer, no reference changes, and the pool stays in
-- order.
pub discard_cached-Discarded :
    (a : Allocator) (idxs : List ℕ)
    → Inv a
    → (a' : Allocator) × (n : ℕ) × (discard_cached a idxs ≡ ok (a', n)) × Discarded a idxs a' n
unfolding discard_cached
discard_cached-Discarded a [] h = (
  a,
  0,
  refl,
  record {
    inv = h;
    refs_same = refl;
    n_pages_same = refl;
    lru_left = λ j. ground arith;
    freed_count = omega arith;
    lru_count = omega arith;
    released_one = λ j m k. cc;
  },
)
discard_cached-Discarded a (i ∷ idxs) h = elim (Bool-cases (mem i a.lru)) [
  | inr out ↦
      let (a', n, e, d) = discard_cached-Discarded a idxs h in
      (
        a',
        n,
        rw (out, discard_cached) e,
        record {
          inv = d.inv;
          refs_same = d.refs_same;
          n_pages_same = d.n_pages_same;
          lru_left = λ j. ground (arith, d.lru_left j);
          freed_count = d.freed_count;
          lru_count = d.lru_count;
          released_one = d.released_one;
        },
      )
  | inl cached ↦
      let (a', n, e, d) =
        discard_cached-Discarded (uncached a h i cached) idxs (uncached-Inv a h i cached) in
      (
        a',
        n + 1,
        rw (cached, discard_cached, ref_count_lem a i (pos 0) (cached_ref a h i cached), e),
        record {
          inv = d.inv;
          refs_same = d.refs_same;
          n_pages_same = d.n_pages_same;
          lru_left = λ j. ground (arith, d.lru_left j, mem-remove i j a.lru);
          freed_count = omega (
            arith,
            d.freed_count,
            bit_count-set-true a.free_mask i (cached_lt a h i cached) (cached_bit a h i cached),
          );
          lru_count = omega (arith, d.lru_count, length-remove i a.lru h.distinct cached);
          released_one = λ j m k. omega arith;
        },
      )
]

-- ===== src/Cache/Allocator/Granted.antt =====
-- astrai/inference/core/cache/strategy.py, `Allocator`: pages that are free are handed out, by a claim or by a harvest of the mask.
use astr_ai.Base.{
  ℕ, zero, suc, ◌<◌, ◌≡◌, refl, sym, ap, subst, ◌∙◌, Bool, true, false, inl, inr, List, [], ◌∷◌,
  Option, none, some, arith, if◌then◌else◌, length, set, get_elem?, take, mem, Distinct, Bool-cases,
  ok, length-set, get_elem?-set, get_elem?_lt,
}
use astr_ai.Base.Int.{ℤ, pos, negsuc}
use astr_ai.Cache.Mask.{bit, set_bits}
use astr_ai.Cache.Mask.Bits.{bit-clear_bits, length-clear_bits, mem-set_bits}
use astr_ai.Cache.Allocator.{Allocator, harvest_pages, mask_alloc_bits, put_ref, claim}
use astr_ai.Cache.Allocator.Index.{Indexed, harvested, harvested-lowest, rewritten, harvest-Indexed}
use astr_ai.Cache.Allocator.Inv.{Inv, page_ok}

-- The references after the pages of `out` were claimed.
abbrev pub claimed : List ℤ → List ℕ → List ℤ
claimed refs [] = refs
claimed refs (i ∷ out) = claimed (set refs i (pos 1)) out

pub length-claimed : (refs : List ℤ) (out : List ℕ) → length (claimed refs out) ≡ length refs
length-claimed refs [] = refl
length-claimed refs (i ∷ out) = length-claimed (set refs i (pos 1)) out ∙ length-set refs i (pos 1)

pub get_elem?-claimed :
    (refs : List ℤ) (out : List ℕ) (j : ℕ)
    → ((i : ℕ) → mem i out ≡ true → i < length refs)
    → get_elem? (claimed refs out) j ≡ (if mem j out then some (pos 1) else get_elem? refs j)
get_elem?-claimed refs [] j h = refl
get_elem?-claimed refs (i ∷ out) j h =
    let here : i < length refs = h i (ground arith) in
    ground (
      arith,
      get_elem?-claimed (set refs i (pos 1)) out j
          (λ k m. omega (arith, length-set refs i (pos 1), h k (ground arith))),
      get_elem?-set refs i j (pos 1) here,
    )

pub put_ref_lem :
    (a : Allocator) (i : ℕ) (r : ℤ)
    → i < length a.refs
    → put_ref a i r ≡ ok (record a { refs = set a.refs i r })
unfolding put_ref
put_ref_lem a i r h = ground arith

pub claim_lem :
    (a : Allocator) (out : List ℕ)
    → ((i : ℕ) → mem i out ≡ true → i < length a.refs)
    → claim a out ≡ ok (record a { refs = claimed a.refs out })
unfolding claim put_ref
claim_lem a [] h = refl
claim_lem a (i ∷ out) h =
    let here : i < length a.refs = h i (ground arith) in
    let rest =
      claim_lem (record a { refs = set a.refs i (pos 1) }) out
        (λ k m. omega (arith, length-set a.refs i (pos 1), h k (ground arith))) in
    ground arith

-- Pages that were free or cached are held once now; nothing else about any page has changed, but
-- that cached pages may have been freed.
pub record Granted (a a' : Allocator) (out : List ℕ) : Type 0 where
  pub inv : Inv a'
  pub n_pages_same : a'.n_pages ≡ a.n_pages
  pub unheld : (j : ℕ) → mem j out ≡ true → get_elem? a.refs j ≡ some (pos 0)
  pub refs_after :
      (j : ℕ) → get_elem? a'.refs j ≡ (if mem j out then some (pos 1) else get_elem? a.refs j)
  pub lru_after : (j : ℕ) → mem j a'.lru ≡ true → mem j a.lru ≡ true

pub free_page :
    (c : Bool) (r : Option ℤ) → page_ok true c r ≡ true → (r ≡ some (pos 0)) × (c ≡ false)
free_page false (some (pos zero)) h = (refl, refl)
free_page false (some (pos (suc n))) h = cc
free_page false (some (negsuc n)) h = cc
free_page false none h = cc
free_page true r h = go r h
  where
    go : (r : Option ℤ) → page_ok true true r ≡ true → (r ≡ some (pos 0)) × (true ≡ false)
    go (some (pos zero)) h = cc
    go (some (pos (suc n))) h = cc
    go (some (negsuc n)) h = cc
    go none h = cc

pub free_lem :
    (a : Allocator) (i : ℕ)
    → Inv a
    → bit a.free_mask i ≡ true
    → (get_elem? a.refs i ≡ some (pos 0)) × (mem i a.lru ≡ false)
free_lem a i h e = free_page (mem i a.lru) (get_elem? a.refs i) (rw e at (h.pages i))

-- Taking free pages out of the mask and claiming them.
module _ (a b : Allocator) (out : List ℕ) (h : Inv a)
    (free : (j : ℕ) → mem j out ≡ true → bit a.free_mask j ≡ true)
    (indexed : Indexed (mask_alloc_bits b out)) (masks : b.free_mask ≡ a.free_mask)
    (lrus : b.lru ≡ a.lru) (pages : b.n_pages ≡ a.n_pages) (refs : b.refs ≡ a.refs) where
  abbrev pub granted : Allocator
  granted = record (mask_alloc_bits b out) { refs = claimed b.refs out }

  pub in_range : (i : ℕ) → mem i out ≡ true → i < length b.refs
  in_range i m = rw refs (get_elem?_lt a.refs i (pos 0) (free_lem a i h (free i m)).0)

  pub claim-granted : claim (mask_alloc_bits b out) out ≡ ok granted
  unfolding mask_alloc_bits
  claim-granted = claim_lem (mask_alloc_bits b out) out in_range

  pub granted_lem : Granted a granted out
  unfolding mask_alloc_bits
  granted_lem = record {
    inv = record {
      indexed = record {
        wide = indexed.wide;
        agree = indexed.agree;
        bounded = indexed.bounded;
        blank = indexed.blank;
      };
      roomy = omega (arith, h.roomy, length-clear_bits b.free_mask out, ap length masks, pages);
      sized = omega (arith, length-claimed b.refs out, h.sized, ap length refs, pages);
      distinct = rw lrus h.distinct;
      pages = λ j.
          rw
            (
              get_elem?-claimed b.refs out j in_range,
              bit-clear_bits b.free_mask out j,
              masks,
              lrus,
              refs,
            )
            (elim (Bool-cases (mem j out)) [
              | inl m ↦ rw (m, (free_lem a j h (free j m)).1)
              | inr m ↦ rw m (h.pages j)
            ]);
    };
    n_pages_same = pages;
    unheld = λ j m. (free_lem a j h (free j m)).0;
    refs_after = λ j. rw (get_elem?-claimed b.refs out j in_range, refs);
    lru_after = λ j m. rw lrus at m;
  }

-- The pages that a bounded scan of the mask finds are free.
pub take-mem : (n j : ℕ) (xs : List ℕ) → mem j (take n xs) ≡ true → mem j xs ≡ true
take-mem zero j xs m = cc
take-mem (suc n) j [] m = cc
take-mem (suc n) j (x ∷ xs) m = ground (arith, take-mem n j xs)

pub take-Distinct : (n : ℕ) (xs : List ℕ) → Distinct xs → Distinct (take n xs)
take-Distinct zero xs d = tt
take-Distinct (suc n) [] d = tt
take-Distinct (suc n) (x ∷ xs) d = (
  elim (Bool-cases (mem x (take n xs))) [
    | inl m ↦ absurd (ground (arith, take-mem n x xs, d.0))
    | inr m ↦ m
  ],
  take-Distinct n xs d.1,
)

-- With enough free pages the harvest hands out the lowest of them.
pub harvest_pages-Granted :
    (a : Allocator) (n : ℕ)
    → Inv a
    → (a' : Allocator) × (harvest_pages a n ≡ ok (a', take n (set_bits 0 a.free_mask)))
      × Granted a a' (take n (set_bits 0 a.free_mask))
      × (a'.lru ≡ a.lru)
unfolding harvest_pages
harvest_pages-Granted a n h =
    let out = take n (set_bits 0 a.free_mask) in
    let found : (harvested a n h.indexed).0 ≡ out = harvested-lowest a n h.indexed in
    let b = rewritten a n h.indexed in
    let indexed =
      subst (λ (l : List ℕ). Indexed (mask_alloc_bits b l)) found (harvest-Indexed a n h.indexed) in
    let free : (j : ℕ) → mem j out ≡ true → bit a.free_mask j ≡ true =
      λ j m. sym (mem-set_bits 0 a.free_mask j j (omega arith)) ∙ take-mem n j _ m in
    (
      granted a b out h free indexed refl refl refl refl,
      rw (found, claim-granted a b out h free indexed refl refl refl refl),
      granted_lem a b out h free indexed refl refl refl refl,
      unfold mask_alloc_bits in refl,
    )

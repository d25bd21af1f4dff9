-- ===== src/Cache/Radix/Prefix.antt =====
-- astrai/inference/core/cache/strategy.py, `RadixCache`: what a lookup hits, and what an eviction removes.
use astr_ai.Base.{
  ℕ, zero, suc, ◌+◌, ◌≡◌, ◌≢◌, refl, ap, ◌∙◌, ◌⊎◌, inl, inr, true, List, [], ◌∷◌, ◌++◌, Option,
  none, some, if◌then◌else◌, mem, get_elem?, Option-cases,
}
use astr_ai.Base.Dict.{nat_eq, list_eq, list_beq_iff, lookup}
use astr_ai.Cache.Radix.{
  RadixCache, NodePath, is_prefix, evict, page_tokens, walk, full_pages, find_prefix,
}
use astr_ai.Cache.Radix.Inv.{Inv, page_after, revoked_of_prefix, remove_subtree-Inv}

-- The path of the first `n` pages of the tokens, from the page `i` below `path`.
abbrev pub prefix_from : ℕ → List ℕ → NodePath → ℕ → ℕ → NodePath
prefix_from page_size token_ids path i zero = path
prefix_from page_size token_ids path i (suc n) =
    prefix_from page_size token_ids (path ++ page_tokens page_size token_ids i ∷ []) (i + 1) n

-- A node is missing, or holds no page, or holds one.
pub slot-cases :
    (o : Option (Option ℕ)) → (o ≡ none) ⊎ ((o ≡ some none) ⊎ ((p : ℕ) × (o ≡ some (some p))))
slot-cases none = inl refl
slot-cases (some none) = inr (inl refl)
slot-cases (some (some p)) = inr (inr (p, refl))

walk_exact :
    (c : RadixCache) (token_ids : List ℕ) (n i : ℕ) (path : NodePath) (k p : ℕ)
    → get_elem? (walk c token_ids n i path) k ≡ some p
    → lookup (prefix_from c.page_size token_ids path i (suc k)) c.nodes ≡ some (some p)
unfolding walk
walk_exact c token_ids zero i path k p h = cc
walk_exact c token_ids (suc n) i path zero p h =
    elim (slot-cases (lookup (path ++ page_tokens c.page_size token_ids i ∷ []) c.nodes)) [
      | inl e ↦ absurd (let g = rw (e, walk) at h in cc)
      | inr (inl e) ↦ absurd (let g = rw (e, walk) at h in cc)
      | inr (inr (q, e)) ↦ let g = rw (e, walk) at h in e ∙ ap some g
    ]
walk_exact c token_ids (suc n) i path (suc k) p h =
    elim (slot-cases (lookup (path ++ page_tokens c.page_size token_ids i ∷ []) c.nodes)) [
      | inl e ↦ absurd (let g = rw (e, walk) at h in cc)
      | inr (inl e) ↦ absurd (let g = rw (e, walk) at h in cc)
      | inr (inr (q, e)) ↦
          walk_exact c token_ids n (i + 1) (path ++ page_tokens c.page_size token_ids i ∷ []) k p
            (rw (e, walk) at h)
    ]

-- In an index in order, if the `k`-th hit of a lookup is a page, then this page is indexed at exactly
-- the first `k + 1` pages of the tokens.
pub find_prefix-exact :
    (c : RadixCache) (token_ids : List ℕ) (k p : ℕ)
    → Inv c
    → get_elem? (find_prefix c token_ids) k ≡ some p
    → lookup p c.page_to_node ≡ some (prefix_from c.page_size token_ids [] 0 (suc k))
unfolding find_prefix
find_prefix-exact c token_ids k p h e =
    h.back (prefix_from c.page_size token_ids [] 0 (suc k)) p
      (walk_exact c token_ids (full_pages c token_ids) 0 [] k p e)

pub is_prefix_refl : (path : NodePath) → is_prefix path path ≡ true
is_prefix_refl [] = refl
is_prefix_refl (t ∷ path) = rw ((list_beq_iff t t).1 refl) (is_prefix_refl path)

-- In an index in order, after an eviction of `idx` the index is in order, `idx` is indexed nowhere, and
-- any page is indexed nowhere if the eviction reports it and where it was before if not.
pub evict-revoked :
    (c : RadixCache) (idx p : ℕ)
    → Inv c
    → (Inv (evict c idx).0)
      × (lookup p (evict c idx).0.page_to_node
          ≡ (if mem p (evict c idx).1 then none else lookup p c.page_to_node))
      × (lookup idx (evict c idx).0.page_to_node ≡ none)
unfolding evict
evict-revoked c idx p h = elim (Option-cases (lookup idx c.page_to_node)) [
  | inl e ↦ rw (e, evict) (h, refl, e)
  | inr (node, e) ↦
      rw (e, evict)
        (
          remove_subtree-Inv c node h,
          page_after c node h p,
          page_after c node h idx
              ∙ rw (revoked_of_prefix c node h idx node (is_prefix_refl node) e),
        )
]

-- In an index in order, no lookup of any tokens hits a page after its eviction.
pub find_prefix-evict :
    (c : RadixCache) (idx : ℕ) (token_ids : List ℕ) (k : ℕ)
    → Inv c
    → get_elem? (find_prefix (evict c idx).0 token_ids) k ≢ some idx
find_prefix-evict c idx token_ids k h e =
    let (inv, _, gone) = evict-revoked c idx idx h in
    let at = find_prefix-exact (evict c idx).0 token_ids k idx inv e in cc

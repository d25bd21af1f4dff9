-- ===== src/Cache/Radix/Inv.antt =====
-- The two maps of the index are inverse to each other, and the trie has no gap.
use astr_ai.Base.{
  ℕ, ◌≡◌, refl, ap, ◌∙◌, ◌⊎◌, inl, inr, true, not, List, [], ◌∷◌, ◌++◌, Option, none, some, arith,
  ◌==◌, if◌then◌else◌, mem, Bool-cases,
}
use astr_ai.Base.Dict.{
  ◌≟◌, nat_eq, list_eq, list_beq_iff, lookup, lookup-keep_keys, lookup_here, lookup_later,
  lookup_cons, Unique, keep_keys-Unique,
}
use astr_ai.Cache.Radix.{RadixCache, NodePath, is_prefix, revoked_pages, remove_subtree}

pub record Inv (c : RadixCache) : Type 0 where
  pub unique : Unique c.nodes
  pub forth :
      (p : ℕ) (path : NodePath)
      → lookup p c.page_to_node ≡ some path
      → lookup path c.nodes ≡ some (some p)
  pub back :
      (path : NodePath) (p : ℕ)
      → lookup path c.nodes ≡ some (some p)
      → lookup p c.page_to_node ≡ some path
  pub closed :
      (path : NodePath) (t : List ℕ) (o : Option ℕ)
      → lookup (path ++ t ∷ []) c.nodes ≡ some o
      → (path ≡ []) ⊎ ((o' : Option ℕ) × (lookup path c.nodes ≡ some o'))

path_iff : (a b : NodePath) → ((a ≟ b) ≡ true → a ≡ b) × (a ≡ b → (a ≟ b) ≡ true)
path_iff a b = list_beq_iff a b

pub is_prefix-append :
    (root path : NodePath) (t : List ℕ)
    → is_prefix root path ≡ true
    → is_prefix root (path ++ t ∷ []) ≡ true
is_prefix-append [] path t h = refl
is_prefix-append (u ∷ root) [] t h = cc
is_prefix-append (u ∷ root) (v ∷ path) t h = ground (arith, is_prefix-append root path t)

-- A page among the revoked sits at a node of the subtree, and only such pages are.
revoked_sound :
    (root : NodePath) (nodes : List (NodePath × Option ℕ)) (p : ℕ)
    → Unique nodes
    → mem p (revoked_pages root nodes) ≡ true
    → (path : NodePath) × (is_prefix root path ≡ true) × (lookup path nodes ≡ some (some p))
revoked_sound root [] p u m = cc
revoked_sound root ((path, none) ∷ nodes) p u m =
    let (q, pre, at) = revoked_sound root nodes p u.1 m in
    (q, pre, lookup_later q path (some p) none nodes u.0 at)
revoked_sound root ((path, some page) ∷ nodes) p u m = elim (Bool-cases (is_prefix root path)) [
  | inl pre ↦ elim (Bool-cases (page == p)) [
    | inl same ↦
        let q : page ≡ p = ground arith in
        (path, pre, lookup_here path (some page) nodes ∙ ap (λ (k : ℕ). some (some k)) q)
    | inr ne ↦
        let (q, pre', at) = revoked_sound root nodes p u.1 (ground arith) in
        (q, pre', lookup_later q path (some p) (some page) nodes u.0 at)
  ]
  | inr out ↦
      let (q, pre', at) = revoked_sound root nodes p u.1 (ground arith) in
      (q, pre', lookup_later q path (some p) (some page) nodes u.0 at)
]

revoked_complete :
    (root : NodePath) (nodes : List (NodePath × Option ℕ)) (path : NodePath) (p : ℕ)
    → is_prefix root path ≡ true
    → lookup path nodes ≡ some (some p)
    → mem p (revoked_pages root nodes) ≡ true
revoked_complete root [] path p pre at = unfold lookup in cc
revoked_complete root ((q, o) ∷ nodes) path p pre at =
    go o (lookup_cons path q (some p) o nodes at) (revoked_complete root nodes path p pre)
  where
    go :
        (o : Option ℕ)
        → ((q ≡ path) × (o ≡ some p)) ⊎ (lookup path nodes ≡ some (some p))
        → (lookup path nodes ≡ some (some p) → mem p (revoked_pages root nodes) ≡ true)
        → mem p (revoked_pages root ((q, o) ∷ nodes)) ≡ true
    go none (inl (e, f)) ih = cc
    go none (inr later) ih = ih later
    go (some page) (inl (e, f)) ih =
        let h : page ≡ p = ground arith in
        let pre' : is_prefix root q ≡ true = rw e pre in rw pre' (ground arith)
    go (some page) (inr later) ih = let m = ih later in ground arith

module _ (c : RadixCache) (root : NodePath) (h : Inv c) where
  abbrev revoked : List ℕ
  revoked = revoked_pages root c.nodes

  abbrev pub pruned : RadixCache
  pruned = (remove_subtree c root).0

  pub node_after :
      (path : NodePath)
      → lookup path pruned.nodes ≡ (if is_prefix root path then none else lookup path c.nodes)
  unfolding remove_subtree
  node_after path =
      ground (arith, lookup-keep_keys (λ (q : NodePath). not (is_prefix root q)) path c.nodes)

  pub page_after :
      (p : ℕ)
      → lookup p pruned.page_to_node
        ≡ (if mem p (remove_subtree c root).1 then none else lookup p c.page_to_node)
  unfolding remove_subtree
  page_after p = ground (arith, lookup-keep_keys (λ (q : ℕ). not (mem q revoked)) p c.page_to_node)

  pub revoked_node :
      (p : ℕ)
      → mem p (remove_subtree c root).1 ≡ true
      → (path : NodePath) × (is_prefix root path ≡ true) × (lookup p c.page_to_node ≡ some path)
  unfolding remove_subtree
  revoked_node p m =
      let (path, pre, at) = revoked_sound root c.nodes p h.unique m in (path, pre, h.back path p at)

  pub revoked_of_prefix :
      (p : ℕ) (path : NodePath)
      → is_prefix root path ≡ true
      → lookup p c.page_to_node ≡ some path
      → mem p (remove_subtree c root).1 ≡ true
  unfolding remove_subtree
  revoked_of_prefix p path pre at = revoked_complete root c.nodes path p pre (h.forth p path at)

  pub remove_subtree-Inv : Inv pruned
  remove_subtree-Inv = record {
    unique = unfold remove_subtree in keep_keys-Unique _ c.nodes h.unique;
    forth = λ p path at. elim (Bool-cases (mem p (remove_subtree c root).1)) [
      | inl gone ↦ absurd (let e = page_after p in ground arith)
      | inr kept ↦
          let e = page_after p in
          let at' : lookup p c.page_to_node ≡ some path = ground arith in
          elim (Bool-cases (is_prefix root path)) [
            | inl pre ↦ absurd (let m = revoked_of_prefix p path pre at' in cc)
            | inr out ↦ rw (node_after path, out) (h.forth p path at')
          ]
    ];
    back = λ path p at. elim (Bool-cases (is_prefix root path)) [
      | inl pre ↦ absurd (let e = node_after path in ground arith)
      | inr out ↦
          let e = node_after path in
          let at' = h.back path p (ground arith) in
          elim (Bool-cases (mem p (remove_subtree c root).1)) [
            | inr kept ↦ rw (page_after p, kept) at'
            | inl gone ↦
                let (q, pre, found) = revoked_node p gone in
                let same : q ≡ path = ground arith in
                let pre' : is_prefix root path ≡ true = rw (← same) pre in absurd (ground arith)
          ]
    ];
    closed = λ path t o at. elim (Bool-cases (is_prefix root (path ++ t ∷ []))) [
      | inl pre ↦ absurd (let e = node_after (path ++ t ∷ []) in ground arith)
      | inr out ↦
          let e = node_after (path ++ t ∷ []) in
          elim (h.closed path t o (ground arith)) [
            | inl top ↦ inl top
            | inr (o', found) ↦ inr (
              o',
              elim (Bool-cases (is_prefix root path)) [
                | inl pre ↦ absurd (let f = is_prefix-append root path t pre in ground arith)
                | inr out' ↦ rw (node_after path, out') found
              ],
            )
          ]
    ];
  }

-- ===== src/Cache/Radix/Record.antt =====
-- Recording a page keeps the index in order.
use astr_ai.Base.{
  ℕ, zero, suc, ◌+◌, ◌≡◌, refl, sym, ap, subst, ◌∙◌, ◌⊎◌, inl, inr, Bool, true, false, not, List,
  [], ◌∷◌, ◌++◌, Option, none, some, arith, ltb, ◌==◌, if◌then◌else◌, Bool-cases, Option-cases,
}
use astr_ai.Base.Dict.{
  ◌≟◌, nat_eq, list_eq, list_beq_iff, lookup, insert, keep_keys, lookup-insert, lookup-keep_keys,
  insert-Unique,
}
use astr_ai.Cache.Radix.{
  RadixCache, NodePath, is_prefix, remove_subtree, page_tokens, full_pages, descend, settle, place,
  record_page,
}
use astr_ai.Cache.Radix.Inv.{Inv, node_after, page_after, revoked_of_prefix, remove_subtree-Inv}
use astr_ai.Cache.Radix.Prefix.{is_prefix_refl}

drop_last : NodePath → NodePath
drop_last [] = []
drop_last (t ∷ []) = []
drop_last (t ∷ u ∷ path) = t ∷ drop_last (u ∷ path)

drop_last-append : (path : NodePath) (t : List ℕ) → drop_last (path ++ t ∷ []) ≡ path
unfolding drop_last
drop_last-append [] t = refl
drop_last-append (u ∷ []) t = refl
drop_last-append (u ∷ v ∷ path) t = ap (◌∷◌ u) (drop_last-append (v ∷ path) t)

parent-eq : (p q : NodePath) (t u : List ℕ) → p ++ t ∷ [] ≡ q ++ u ∷ [] → p ≡ q
parent-eq p q t u e = sym (drop_last-append p t) ∙ ap drop_last e ∙ drop_last-append q u

-- A node is there: the root, or one in the dictionary.
abbrev pub Present : RadixCache → NodePath → Type 0
Present c path = (path ≡ []) ⊎ ((o : Option ℕ) × (lookup path c.nodes ≡ some o))

path_iff : (a b : NodePath) → ((a ≟ b) ≡ true → a ≡ b) × (a ≡ b → (a ≟ b) ≡ true)
path_iff a b = list_beq_iff a b

abbrev NotAbove : RadixCache → NodePath → Type 0
NotAbove c path = (q : NodePath) (u : List ℕ) → path ≡ q ++ u ∷ [] → Present c q

module _ (c : RadixCache) (h : Inv c) (path : NodePath) (o : Option ℕ)
    (above : NotAbove c path) where
  keeps :
      (q : NodePath)
      → Present c q
      → (q ≡ []) ⊎ ((r' : Option ℕ) × (lookup q (insert path o c.nodes) ≡ some r'))
  keeps q (inl top) = inl top
  keeps q (inr (r', found)) = elim (Bool-cases (path ≟ q)) [
    | inl same ↦ inr (o, lookup-insert path q o c.nodes ∙ rw same)
    | inr ne ↦ inr (r', lookup-insert path q o c.nodes ∙ rw ne found)
  ]

  -- A written node leaves no gap if its parent is there.
  closed_insert :
      (q : NodePath) (u : List ℕ) (r : Option ℕ)
      → lookup (q ++ u ∷ []) (insert path o c.nodes) ≡ some r
      → (q ≡ []) ⊎ ((r' : Option ℕ) × (lookup q (insert path o c.nodes) ≡ some r'))
  closed_insert q u r at = keeps q (elim (Bool-cases (path ≟ (q ++ u ∷ []))) [
    | inl same ↦ above q u ((path_iff path (q ++ u ∷ [])).0 same)
    | inr ne ↦ h.closed q u r (let f = lookup-insert path (q ++ u ∷ []) o c.nodes in ground arith)
  ])

-- A fresh node without a page.
made-Inv :
    (c : RadixCache) (path : NodePath)
    → Inv c
    → NotAbove c path
    → lookup path c.nodes ≡ none
    → Inv (record c { nodes = insert path none c.nodes })
made-Inv c path h above new = record {
  unique = insert-Unique path none c.nodes h.unique;
  forth = λ p q at. elim (Bool-cases (path ≟ q)) [
    | inl same ↦
        let e = (path_iff path q).0 same in
        let f = h.forth p q at in
        absurd (let g = subst (λ (w : NodePath). lookup w c.nodes ≡ none) e new in cc)
    | inr ne ↦ lookup-insert path q none c.nodes ∙ rw ne (h.forth p q at)
  ];
  back = λ q p at. elim (Bool-cases (path ≟ q)) [
    | inl same ↦ absurd (let f = lookup-insert path q none c.nodes in ground arith)
    | inr ne ↦ h.back q p (let f = lookup-insert path q none c.nodes in ground arith)
  ];
  closed = closed_insert c h path none above;
}

abbrev held_by : Option ℕ → ℕ → Bool
held_by none p = false
held_by (some q) p = q == p

held_by_sound : (o : Option ℕ) (p : ℕ) → held_by o p ≡ true → o ≡ some p
held_by_sound none p h = cc
held_by_sound (some q) p h = ap some (ground arith)

held_by_refl : (p : ℕ) → held_by (some p) p ≡ true
held_by_refl p = ground arith

-- A page written to a present node, in place of the page it held, if it is indexed nowhere itself.
module _ (c : RadixCache) (path : NodePath) (page : ℕ) (o : Option ℕ) (ptn : List (ℕ × NodePath))
    (h : Inv c) (free : lookup page c.page_to_node ≡ none) (there : lookup path c.nodes ≡ some o)
    (pages : (p : ℕ)
      → lookup p ptn ≡ (
          if page == p
          then some path
          else (if held_by o p then none else lookup p c.page_to_node))) where
  abbrev filled : RadixCache
  filled = record c { nodes = insert path (some page) c.nodes; page_to_node = ptn }

  node_at :
      (q : NodePath)
      → lookup q filled.nodes ≡ (if path ≟ q then some (some page) else lookup q c.nodes)
  node_at q = lookup-insert path q (some page) c.nodes

  filled_forth :
      (p : ℕ) (q : NodePath) → lookup p ptn ≡ some q → lookup q filled.nodes ≡ some (some p)
  filled_forth p q at = elim (Bool-cases (page == p)) [
    | inl own ↦
        let e : page ≡ p = ground arith in
        let f : path ≡ q = let g = pages p in ground arith in
        node_at q ∙ rw ((path_iff path q).1 f) (ap (λ (k : ℕ). some (some k)) e)
    | inr other ↦ elim (Bool-cases (held_by o p)) [
      | inl out ↦ absurd (let g = pages p in ground arith)
      | inr kept ↦
          let old : lookup p c.page_to_node ≡ some q = let g = pages p in ground arith in
          let node = h.forth p q old in
          elim (Bool-cases (path ≟ q)) [
            | inr ne ↦ node_at q ∙ rw ne node
            | inl same ↦
                let e = (path_iff path q).0 same in
                let there' = subst (λ (w : NodePath). lookup w c.nodes ≡ some o) e there in
                let f : o ≡ some p = cc in
                absurd
                  (let k = subst (λ (w : Option ℕ). held_by w p ≡ false) f kept in ground arith)
          ]
    ]
  ]

  filled_back :
      (q : NodePath) (p : ℕ) → lookup q filled.nodes ≡ some (some p) → lookup p ptn ≡ some q
  filled_back q p at = elim (Bool-cases (path ≟ q)) [
    | inl same ↦
        let e = (path_iff path q).0 same in
        let f : page ≡ p = let g = node_at q in ground arith in
        let own : (page == p) ≡ true = ground arith in pages p ∙ rw own (ap some e)
    | inr ne ↦
        let node : lookup q c.nodes ≡ some (some p) = let g = node_at q in ground arith in
        let old = h.back q p node in
        elim (Bool-cases (page == p)) [
          | inl own ↦ let e : page ≡ p = ground arith in absurd (let f = rw e at free in cc)
          | inr other ↦ elim (Bool-cases (held_by o p)) [
            | inr kept ↦ pages p ∙ rw (other, kept) old
            | inl out ↦
                let e = held_by_sound o p out in
                let back = h.back path p (there ∙ ap some e) in
                let f : path ≡ q = cc in absurd (let k = (path_iff path q).1 f in cc)
          ]
        ]
  ]

  filled-Inv : Inv filled
  filled-Inv = record {
    unique = insert-Unique path (some page) c.nodes h.unique;
    forth = filled_forth;
    back = filled_back;
    closed = closed_insert c h path (some page) (λ q u e. h.closed q u o (rw (← e) there));
  }

settle-Inv :
    (c : RadixCache) (page : ℕ) (path : NodePath) (o : Option ℕ)
    → Inv c
    → lookup page c.page_to_node ≡ none
    → lookup path c.nodes ≡ some o
    → Inv (settle c page path).0
unfolding settle
settle-Inv c page path none h free there =
    rw (there, settle)
      (filled-Inv c path page none (insert page path c.page_to_node) h free there
        (λ p. lookup-insert page p path c.page_to_node))
settle-Inv c page path (some q) h free there =
    rw (there, settle)
      (filled-Inv c path page (some q)
        (insert page path (keep_keys (λ r. not (r == q)) c.page_to_node)) h free there
        (λ p. ground (
          arith,
          lookup-insert page p path (keep_keys (λ (r : ℕ). not (r == q)) c.page_to_node),
          lookup-keep_keys (λ (r : ℕ). not (r == q)) p c.page_to_node,
        )))

-- Where the descent ends: at a node that is there now, or nowhere.
abbrev Reaches : RadixCache → Option NodePath × List (NodePath × Option ℕ) → Type 0
Reaches c (none, nodes) = Inv (record c { nodes = nodes })
Reaches c (some path, nodes) =
    Inv (record c { nodes = nodes }) × ((o : Option ℕ) × (lookup path nodes ≡ some o))

descend-Reaches :
    (c : RadixCache) (token_ids : List ℕ) (left i : ℕ) (path : NodePath)
    → Inv c
    → Present c path
    → Reaches c (descend c.page_size token_ids (suc left) i path c.nodes)
unfolding descend
descend-Reaches c token_ids zero i path h there = elim (Option-cases (lookup child c.nodes)) [
  | inr (o, e) ↦ rw (e, descend) (h, (o, e))
  | inl e ↦
      rw (e, descend)
        (
          made-Inv c child h above e,
          (none, lookup-insert child child none c.nodes ∙ rw ((path_iff child child).1 refl)),
        )
]
  where
    child : NodePath
    child = path ++ page_tokens c.page_size token_ids i ∷ []

    above : NotAbove c child
    above q u e = subst (λ (w : NodePath). Present c w) (parent-eq path q _ u e) there
descend-Reaches c token_ids (suc left) i path h there =
    elim (Option-cases (lookup (path ++ page_tokens c.page_size token_ids i ∷ []) c.nodes)) [
      | inl e ↦ rw (e, descend) h
      | inr (o, e) ↦
          rw (e, descend)
            (descend-Reaches c token_ids left (i + 1)
              (path ++ page_tokens c.page_size token_ids i ∷ []) h (inr (o, e)))
    ]

place-Inv :
    (c : RadixCache) (page : ℕ) (node old : Option NodePath)
    → Reaches c (node, c.nodes)
    → lookup page c.page_to_node ≡ old
    → Inv (place c page node old).0
unfolding place
place-Inv c page none none r e = r
place-Inv c page none (some old) r e = remove_subtree-Inv c old r
place-Inv c page (some node) none r e = settle-Inv c page node r.1.0 r.0 e r.1.1
place-Inv c page (some node) (some old) r e = elim (Bool-cases (old ≟ node)) [
  | inl same ↦ rw (same, place) r.0
  | inr moved ↦ elim (Bool-cases (is_prefix old node)) [
    | inl cut ↦ rw (moved, place, cut) (remove_subtree-Inv c old r.0)
    | inr apart ↦
        rw (moved, place, apart)
          (settle-Inv (remove_subtree c old).0 page node r.1.0 (remove_subtree-Inv c old r.0)
            (page_after c old r.0 page
              ∙ rw (revoked_of_prefix c old r.0 page old (is_prefix_refl old) e))
            (node_after c old r.0 node ∙ rw apart r.1.1))
  ]
]

-- Recording any page at any page of any tokens keeps an index in order: its two maps stay inverse to
-- each other, and every node keeps its ancestors.
pub record_page-Inv :
    (c : RadixCache) (page : ℕ) (token_ids : List ℕ) (logical_page : ℕ)
    → Inv c
    → Inv (record_page c page token_ids logical_page).0
unfolding record_page
record_page-Inv c page token_ids l h = elim (Bool-cases (ltb l (full_pages c token_ids))) [
  | inr out ↦ rw (out, record_page) h
  | inl fits ↦
      rw (fits, record_page)
        (go (descend c.page_size token_ids (suc l) 0 [] c.nodes)
          (descend-Reaches c token_ids l 0 [] h (inl refl)))
]
  where
    go :
        (d : Option NodePath × List (NodePath × Option ℕ))
        → Reaches c d
        → Inv (place (record c { nodes = d.1 }) page d.0 (lookup page c.page_to_node)).0
    go (none, nodes) r = place-Inv (record c { nodes = nodes }) page none _ r refl
    go (some node, nodes) r = place-Inv (record c { nodes = nodes }) page (some node) _ r refl

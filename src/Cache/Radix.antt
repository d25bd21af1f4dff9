-- ===== src/Cache/Radix.antt =====
-- astrai/inference/core/cache/strategy.py, classes `RadixNode` and `RadixCache`: the prefix index.
-- A node is known by its path, the page-sized token tuples on the way from the root (which holds no
-- page): the children of a node are the nodes whose path is one tuple longer, and the walk by
-- `node.children.get` is a lookup of the longer path. A node whose ancestor is removed is removed
-- with it, so that no path is ever reused by a detached node. The list of revoked pages stands in the
-- order in which the nodes were made, where the source's stack pops them: its readers discard each.
mod Tests
pub mod Inv
pub mod Prefix
pub mod Record
use astr_ai.Base.{
  ℕ, zero, suc, ◌+◌, ◌*◌, ◌/◌, Bool, true, false, not, List, [], ◌∷◌, ◌++◌, Option, none, some, ltb,
  ◌==◌, if◌then◌else◌, take, drop, mem, length,
}
use astr_ai.Base.Dict.{Eq, ◌≟◌, nat_eq, list_eq, lookup, insert, keep_keys, has_key}

abbrev pub NodePath : Type 0
NodePath = List (List ℕ)

-- `nodes` holds `page_idx` of every node but the root.
pub record RadixCache : Type 0 where
  pub page_size : ℕ
  pub nodes : List (NodePath × Option ℕ)
  pub page_to_node : List (ℕ × NodePath)

pub init : ℕ → RadixCache
init page_size = record { page_size = page_size; nodes = []; page_to_node = [] }

-- Whether a node lies in the subtree of another.
abbrev pub is_prefix : NodePath → NodePath → Bool
is_prefix [] path = true
is_prefix (t ∷ root) [] = false
is_prefix (t ∷ root) (u ∷ path) = if t ≟ u then is_prefix root path else false

-- The pages that the nodes of a subtree hold.
abbrev pub revoked_pages : NodePath → List (NodePath × Option ℕ) → List ℕ
revoked_pages root [] = []
revoked_pages root ((path, none) ∷ nodes) = revoked_pages root nodes
revoked_pages root ((path, some page) ∷ nodes) =
    let rest = revoked_pages root nodes in if is_prefix root path then page ∷ rest else rest

-- `_remove_subtree`.
unfoldable pub remove_subtree : RadixCache → NodePath → RadixCache × List ℕ
remove_subtree c root = (
  record c {
    nodes = keep_keys (λ path. not (is_prefix root path)) c.nodes;
    page_to_node = keep_keys (λ page. not (mem page revoked)) c.page_to_node;
  },
  revoked,
)
  where
    revoked : List ℕ
    revoked = revoked_pages root c.nodes

unfoldable pub evict : RadixCache → ℕ → RadixCache × List ℕ
evict c idx = elim (lookup idx c.page_to_node) [
  | none ↦ (c, [])
  | some node ↦ remove_subtree c node
]

unfoldable pub has_page : RadixCache → ℕ → Bool
has_page c idx = has_key idx c.page_to_node

-- `token_ids[start : start + page_size]` for the page numbered `i`.
abbrev pub page_tokens : ℕ → List ℕ → ℕ → List ℕ
page_tokens page_size token_ids i = take page_size (drop (i * page_size) token_ids)

-- The loop of `lookup` over the `n` pages from `i` on, at the node `path`.
unfoldable pub walk : RadixCache → List ℕ → ℕ → ℕ → NodePath → List ℕ
walk c token_ids zero i path = []
walk c token_ids (suc n) i path =
    let child = path ++ page_tokens c.page_size token_ids i ∷ [] in
    elim (lookup child c.nodes) [
      | none ↦ []
      | some none ↦ []
      | some (some page) ↦ page ∷ walk c token_ids n (i + 1) child
    ]

abbrev pub full_pages : RadixCache → List ℕ → ℕ
full_pages c token_ids = length token_ids / c.page_size

unfoldable pub find_prefix : RadixCache → List ℕ → List ℕ
find_prefix c token_ids = walk c token_ids (full_pages c token_ids) 0 []

-- The loop of `record`, with `left` pages to go: the node, unless an ancestor is missing; the last
-- one is made where it is missing.
unfoldable pub descend :
    ℕ
    → List ℕ
    → ℕ
    → ℕ
    → NodePath
    → List (NodePath × Option ℕ)
    → Option NodePath × List (NodePath × Option ℕ)
descend page_size token_ids zero i path nodes = (some path, nodes)
descend page_size token_ids (suc left) i path nodes =
    let child = path ++ page_tokens page_size token_ids i ∷ [] in
    elim (lookup child nodes) [
      | some _ ↦ descend page_size token_ids left (i + 1) child nodes
      | none ↦ elim left [ zero ↦ (some child, insert child none nodes) | suc _ ↦ (none, nodes) ]
    ]

-- `revoked.remove(page)`, the first occurrence.
abbrev pub remove_first : ℕ → List ℕ → List ℕ
remove_first page [] = []
remove_first page (x ∷ xs) = if x == page then xs else x ∷ remove_first page xs

-- `node.page_idx = page_idx` and what goes with it, at a node that is still in the trie.
unfoldable pub settle : RadixCache → ℕ → NodePath → RadixCache × List ℕ
settle c page path = elim (lookup path c.nodes) [
  | some (some occupant) ↦ (
    record c {
      nodes = insert path (some page) c.nodes;
      page_to_node = insert page path (keep_keys (λ q. not (q == occupant)) c.page_to_node);
    },
    occupant ∷ [],
  )
  | _ ↦ (
    record c {
      nodes = insert path (some page) c.nodes;
      page_to_node = insert page path c.page_to_node;
    },
    [],
  )
]

-- `record` from the test `old is node` on.
unfoldable pub place : RadixCache → ℕ → Option NodePath → Option NodePath → RadixCache × List ℕ
unfolding settle remove_subtree
place c page none none = (c, [])
place c page none (some old) = remove_subtree c old
place c page (some node) none = settle c page node
place c page (some node) (some old) =
    if old ≟ node
    then (c, [])
    else (if is_prefix old node
        then remove_subtree c old
        else (let (c₁, revoked) = remove_subtree c old in
            let (c₂, replaced) = settle c₁ page node in
            (c₂, remove_first page (revoked ++ replaced))))

unfoldable pub record_page : RadixCache → ℕ → List ℕ → ℕ → RadixCache × List ℕ
unfolding descend place
record_page c page token_ids logical_page =
    if ltb logical_page (full_pages c token_ids)
    then (let (node, nodes) = descend c.page_size token_ids (suc logical_page) 0 [] c.nodes in
        place (record c { nodes = nodes }) page node (lookup page c.page_to_node))
    else (c, [])

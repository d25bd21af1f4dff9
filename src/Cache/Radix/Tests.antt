-- ===== src/Cache/Radix/Tests.antt =====
-- Runs of the prefix index of astrai/inference/core/cache/strategy.py on concrete inputs.
use astr_ai.Base.{◌≡◌, ◌≢◌, refl, [], ◌∷◌, none, some, if◌then◌else◌, get_elem?, mem}
use astr_ai.Base.Dict.{lookup, insert, list_eq, nat_eq}
use astr_ai.Cache.Radix.{RadixCache, evict, walk, find_prefix, descend, settle, place, record_page}
use astr_ai.Cache.Radix.Inv.{Inv}
use astr_ai.Cache.Radix.Prefix.{prefix_from, find_prefix-exact, evict-revoked, find_prefix-evict}
use astr_ai.Cache.Radix.Record.{record_page-Inv}

abbrev empty : RadixCache
empty = record { page_size = 2; nodes = []; page_to_node = [] }

-- Page 5 holds the tokens 1 2, and page 7 the tokens 3 4 after them.
abbrev two_pages : RadixCache
two_pages = (record_page (record_page empty 5 (1 ∷ 2 ∷ 3 ∷ 4 ∷ []) 0).0 7 (1 ∷ 2 ∷ 3 ∷ 4 ∷ []) 1).0

empty-Inv : Inv empty
unfolding lookup
empty-Inv = record {
  unique = tt;
  forth = λ p path e. cc;
  back = λ path p e. cc;
  closed = λ path t o e. absurd (let f : none ≡ some o = e in cc);
}

two_pages-Inv : Inv two_pages
two_pages-Inv =
    record_page-Inv (record_page empty 5 (1 ∷ 2 ∷ 3 ∷ 4 ∷ []) 0).0 7 (1 ∷ 2 ∷ 3 ∷ 4 ∷ []) 1
      (record_page-Inv empty 5 (1 ∷ 2 ∷ 3 ∷ 4 ∷ []) 0 empty-Inv)

second_hit : get_elem? (find_prefix two_pages (1 ∷ 2 ∷ 3 ∷ 4 ∷ 9 ∷ [])) 1 ≡ some 7
unfolding record_page descend place settle find_prefix walk lookup insert
second_hit = refl

find_prefix-exact_example :
    lookup 7 two_pages.page_to_node ≡ some (prefix_from 2 (1 ∷ 2 ∷ 3 ∷ 4 ∷ 9 ∷ []) [] 0 2)
unfolding record_page place settle lookup insert
find_prefix-exact_example =
    find_prefix-exact two_pages (1 ∷ 2 ∷ 3 ∷ 4 ∷ 9 ∷ []) 1 7 two_pages-Inv second_hit

record_page-Inv_example : Inv (record_page two_pages 5 (8 ∷ 9 ∷ 3 ∷ 4 ∷ []) 0).0
record_page-Inv_example = record_page-Inv two_pages 5 (8 ∷ 9 ∷ 3 ∷ 4 ∷ []) 0 two_pages-Inv

evict-revoked_example :
    (Inv (evict two_pages 5).0)
    × (lookup 7 (evict two_pages 5).0.page_to_node
        ≡ (if mem 7 (evict two_pages 5).1 then none else lookup 7 two_pages.page_to_node))
    × (lookup 5 (evict two_pages 5).0.page_to_node ≡ none)
evict-revoked_example = evict-revoked two_pages 5 7 two_pages-Inv

find_prefix-evict_example :
    get_elem? (find_prefix (evict two_pages 5).0 (1 ∷ 2 ∷ 3 ∷ 4 ∷ [])) 0 ≢ some 5
find_prefix-evict_example = find_prefix-evict two_pages 5 (1 ∷ 2 ∷ 3 ∷ 4 ∷ []) 0 two_pages-Inv

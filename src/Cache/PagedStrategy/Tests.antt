-- ===== src/Cache/PagedStrategy/Tests.antt =====
-- Runs of `PagedStrategy` of astrai/inference/core/cache/strategy.py on concrete inputs.
use astr_ai.Base.{ℕ, ◌≡◌, refl, List, [], ◌∷◌, none, some, ok, length, get_elem?, arith}
use astr_ai.Cache.Allocator
use astr_ai.Cache.ReqPool.{ReqPool}
use astr_ai.Cache.PagedStrategy.{Paged, RequestCacheState, fresh_state, slot_of, write_indices}
use astr_ai.Cache.PagedStrategy.Write.{write_indices-slot_of}

abbrev blank : List ℕ
blank = 0 ∷ 0 ∷ 0 ∷ 0 ∷ 0 ∷ 0 ∷ 0 ∷ 0 ∷ []

abbrev pool : ReqPool
pool = record {
  size = 2;
  max_context_len = 8;
  req_to_token = blank ∷ blank ∷ [];
  free_slots = 0 ∷ [];
}

-- Two rows of eight positions, over ten pages of four.
abbrev strategy : Paged
strategy = record { alloc = Allocator.init 10; prefix = none; page_size = 4; req_pool = pool }

abbrev admitted : RequestCacheState
admitted = record (fresh_state 1) { pages = 9 ∷ 2 ∷ [] }

abbrev prompt : List ℕ
prompt = 5 ∷ 6 ∷ 7 ∷ 8 ∷ 9 ∷ 10 ∷ 11 ∷ []

write_indices-slot_of_example :
    (s' : Paged) × (state' : RequestCacheState) × (row' : List ℕ) × (slot : ℕ) × (write_indices
        strategy admitted prompt
      ≡ ok (s', state'))
    × (length state'.slots ≡ 7)
    × (state'.flushed ≡ length state'.slots)
    × (get_elem? state'.slots 5 ≡ some slot)
    × (get_elem? s'.req_pool.req_to_token 1 ≡ some row')
    × (get_elem? row' 5 ≡ some slot)
    × (slot_of 4 (9 ∷ 2 ∷ []) 5 ≡ ok slot)
write_indices-slot_of_example =
    write_indices-slot_of strategy admitted prompt blank 5 (omega arith) refl (omega arith)
      (omega arith) (omega arith)

-- ===== src/Cache/PagedStrategy.antt =====
-- astrai/inference/core/cache/strategy.py, `RequestCacheState` and
-- `PagedStrategy`. The table of the requests' rows is one object that the pool, the manager and the
-- paged strategy share: it stands once, inside the strategy. A method returns the strategy and the
-- request state that it has changed. Positions and ends are natural numbers, so the check for
-- negative ones in `record_hashes` has no counterpart. Staging buffers on the way to the device
-- carry no state of their own: a flush is a write of the rows.
mod Tests
pub mod Slots
pub mod Write
use astr_ai.Base.{
  ℕ, zero, suc, ◌+◌, ◌-◌, ◌*◌, ◌/◌, ◌%◌, min, Bool, true, false, ◌&&◌, List, [], ◌∷◌, ◌++◌, Option,
  none, some, map, ltb, leb, ◌==◌, if◌then◌else◌, length, get_elem?, take, drop, Result, ok, err,
  index_error, ◌>>=◌,
}
use astr_ai.Cache.Allocator
use astr_ai.Cache.Allocator.{Allocator, Hook, modify}
use astr_ai.Cache.Radix
use astr_ai.Cache.Radix.{RadixCache}
use astr_ai.Cache.ReqPool
use astr_ai.Cache.ReqPool.{ReqPool, range_from}

pub record RequestCacheState : Type 0 where
  pub req_idx : ℕ
  pub length : ℕ
  pub cached : ℕ
  pub pages : List ℕ
  pub slots : List ℕ
  pub flushed : ℕ

abbrev pub fresh_state : ℕ → RequestCacheState
fresh_state req_idx = record {
  req_idx = req_idx;
  length = 0;
  cached = 0;
  pages = [];
  slots = [];
  flushed = 0;
}

pub record Paged : Type 0 where
  pub alloc : Allocator
  pub prefix : Option RadixCache
  pub page_size : ℕ
  pub req_pool : ReqPool

-- `alloc.on_evict = prefix.evict`, where there is a prefix index.
abbrev pub on_evict : Option RadixCache → ℕ → Option RadixCache × Option (List ℕ)
on_evict none idx = (none, none)
on_evict (some c) idx = let (c', revoked) = Radix.evict c idx in (some c', some revoked)

abbrev pub hook : Option RadixCache → Hook (Option RadixCache)
hook none = none
hook (some c) = some on_evict

-- `for p in hits: self._alloc.inc_ref(p)`.
unfoldable pub share : Allocator → List ℕ → Result Allocator
share a [] = ok a
share a (p ∷ hits) = do a' ← Allocator.inc_ref a p; share a' hits

-- The part of `alloc` that is for the prefix index.
unfoldable pub reuse : Paged → RequestCacheState → List ℕ → Result (Paged × RequestCacheState)
unfolding share
reuse s state prompt_ids = elim s.prefix [
  | none ↦ ok (s, state)
  | some c ↦ do
    let hits = Radix.find_prefix c prompt_ids
    a ← share s.alloc hits
    ok (record s { alloc = a }, record state { cached = length hits * s.page_size; pages = hits })
]

abbrev pub pages_for : ℕ → ℕ → ℕ
pages_for page_size n_tokens = (n_tokens + page_size - 1) / page_size

-- `alloc_many` with the callback, which works on the strategy's own index.
unfoldable pub alloc_pages : Paged → ℕ → Result (Paged × Option (List ℕ))
alloc_pages s n = do
  (a, c, out) ← Allocator.alloc_many (hook s.prefix) s.alloc s.prefix n
  ok (record s { alloc = a; prefix = c }, out)

-- The part of `alloc` from `remaining` on.
unfoldable pub reserve :
    Paged → RequestCacheState → List ℕ → Result (Paged × RequestCacheState × Bool)
unfolding alloc_pages
reserve s state prompt_ids =
    let remaining = length prompt_ids - state.cached in
    if leb remaining 0 then ok (s, state, true) else do
      (s', out) ← alloc_pages s (pages_for s.page_size remaining)
      elim out [
        | none ↦ ok (s', state, false)
        | some new_pages ↦ ok (s', record state { pages = state.pages ++ new_pages }, true)
      ]

unfoldable pub alloc :
    Paged → RequestCacheState → List ℕ → Result (Paged × RequestCacheState × Bool)
unfolding reuse reserve
alloc s state prompt_ids = do (s', state') ← reuse s state prompt_ids; reserve s' state' prompt_ids

unfoldable pub free : Paged → RequestCacheState → Result Paged
free s state = do
  a ←
      Allocator.free_many s.alloc state.pages
        (elim s.prefix [ none ↦ none | some c ↦ some (Radix.has_page c) ])
  ok (record s { alloc = a })

-- The slot of a position, `pages[pos // page_size] * page_size + pos % page_size`.
unfoldable pub slot_of : ℕ → List ℕ → ℕ → Result ℕ
slot_of page_size pages pos = elim (get_elem? pages (pos / page_size)) [
  | none ↦ err index_error
  | some page ↦ ok (page * page_size + pos % page_size)
]

-- The tail of `extend`, and of the loop of `extend_batch`.
unfoldable pub map_position : Paged → RequestCacheState → ℕ → Result (Paged × RequestCacheState)
unfolding slot_of
map_position s state pos = do
  slot ← slot_of s.page_size state.pages pos
  if s.page_size == 1 && pos == length state.slots
      then ok (s, record state { slots = state.slots ++ slot ∷ [] })
      else do
        pool ← ReqPool.put s.req_pool state.req_idx pos slot
        ok (record s { req_pool = pool }, state)

unfoldable pub extend : Paged → RequestCacheState → ℕ → Result (Paged × RequestCacheState × Bool)
unfolding map_position
extend s state pos =
    if leb (length state.pages) (pos / s.page_size)
    then (do
      (a, c, out) ← Allocator.alloc (hook s.prefix) s.alloc s.prefix
      let s' = record s { alloc = a; prefix = c }
      elim out [
        | none ↦ ok (s', state, false)
        | some p ↦ do
          (s'', state') ← map_position s' (record state { pages = state.pages ++ p ∷ [] }) pos
          ok (s'', state', true)
      ])
    else do (s', state') ← map_position s state pos; ok (s', state', true)

-- `[self.extend(s, p) for s, p in zip(states, positions)]`.
unfoldable pub extend_each :
    Paged → List RequestCacheState → List ℕ → Result (Paged × List RequestCacheState × List Bool)
unfolding extend
extend_each s [] positions = ok (s, [], [])
extend_each s (state ∷ states) [] = ok (s, state ∷ states, [])
extend_each s (state ∷ states) (pos ∷ positions) = do
  (s', state', done) ← extend s state pos
  (s'', states', rest) ← extend_each s' states positions
  ok (s'', state' ∷ states', done ∷ rest)

-- Which requests need one more page.
unfoldable pub needs_page : ℕ → RequestCacheState → ℕ → Bool
needs_page page_size state pos = leb (length state.pages) (pos / page_size)

unfoldable pub count_needs : ℕ → List RequestCacheState → List ℕ → ℕ
unfolding needs_page
count_needs page_size [] positions = 0
count_needs page_size (state ∷ states) [] = 0
count_needs page_size (state ∷ states) (pos ∷ positions) =
    (if needs_page page_size state pos then 1 else 0) + count_needs page_size states positions

-- `for i, p in zip(need, pages): states[i].pages.append(p)`.
unfoldable pub hand_out : ℕ → List RequestCacheState → List ℕ → List ℕ → List RequestCacheState
unfolding needs_page
hand_out page_size [] positions pages = []
hand_out page_size (state ∷ states) [] pages = state ∷ states
hand_out page_size (state ∷ states) (pos ∷ positions) [] = state ∷ states
hand_out page_size (state ∷ states) (pos ∷ positions) (p ∷ pages) =
    elim (needs_page page_size state pos) [
      | true ↦
          record state { pages = state.pages ++ p ∷ [] } ∷ hand_out page_size states positions pages
      | false ↦ state ∷ hand_out page_size states positions (p ∷ pages)
    ]

-- The last loop of `extend_batch`.
unfoldable pub map_each :
    Paged → List RequestCacheState → List ℕ → Result (Paged × List RequestCacheState)
unfolding map_position
map_each s [] positions = ok (s, [])
map_each s (state ∷ states) [] = ok (s, state ∷ states)
map_each s (state ∷ states) (pos ∷ positions) = do
  (s', state') ← map_position s state pos
  (s'', states') ← map_each s' states positions
  ok (s'', state' ∷ states')

unfoldable pub map_all :
    Paged → List RequestCacheState → List ℕ → Result (Paged × List RequestCacheState × List Bool)
unfolding map_each
map_all s states positions = do
  (s', states') ← map_each s states positions
  ok (s', states', map (λ _. true) states)

unfoldable pub extend_batch :
    Paged → List RequestCacheState → List ℕ → Result (Paged × List RequestCacheState × List Bool)
unfolding count_needs hand_out map_all extend_each alloc_pages
extend_batch s states positions =
    let need = count_needs s.page_size states positions in
    if need == 0 then map_all s states positions else do
      (s', out) ← alloc_pages s need
      elim out [
        | none ↦ extend_each s' states positions
        | some pages ↦
            if ltb (length pages) need
            then extend_each s' states positions
            else map_all s' (hand_out s.page_size states positions pages) positions
      ]

-- The values of `write_indices` at a page size above 1, with `left` positions to go.
unfoldable pub page_slots : ℕ → ℕ → List ℕ → List ℕ
page_slots page_size left [] = []
page_slots page_size left (p ∷ pages) =
    range_from (p * page_size) (min page_size left) ++ page_slots page_size (left - page_size) pages

unfoldable pub slots_upto : ℕ → ℕ → List ℕ → List ℕ
unfolding page_slots
slots_upto page_size total pages =
    if page_size == 1
    then take total pages
    else page_slots page_size total (take (pages_for page_size total) pages)

unfoldable pub write_indices :
    Paged → RequestCacheState → List ℕ → Result (Paged × RequestCacheState)
unfolding slots_upto
write_indices s state prompt_ids =
    let total = min (length prompt_ids) (length state.pages * s.page_size) in
    if leb total 0 then ok (s, state) else do
      let vals = slots_upto s.page_size total state.pages
      pool ← ReqPool.put_row s.req_pool state.req_idx 0 vals
      ok (record s { req_pool = pool }, record state { slots = vals; flushed = total })

unfoldable pub flush_slots :
    Paged → List RequestCacheState → Result (Paged × List RequestCacheState)
flush_slots s [] = ok (s, [])
flush_slots s (state ∷ states) =
    if leb (length state.slots) state.flushed
    then (do (s', rest) ← flush_slots s states; ok (s', state ∷ rest))
    else do
      pool ← ReqPool.put_row s.req_pool state.req_idx state.flushed (drop state.flushed state.slots)
      (s', rest) ← flush_slots (record s { req_pool = pool }) states
      ok (s', record state { flushed = length state.slots } ∷ rest)

-- The loop of `record_hashes` over `n` pages from `i` on.
unfoldable pub record_loop :
    Allocator → RadixCache → RequestCacheState → List ℕ → ℕ → ℕ → Result (Allocator × RadixCache)
record_loop a c state prompt_ids zero i = ok (a, c)
record_loop a c state prompt_ids (suc n) i = elim (get_elem? state.pages i) [
  | none ↦ err index_error
  | some page ↦ do
    let (c', revoked) = Radix.record_page c page prompt_ids i
    (a', _) ← Allocator.discard_cached a revoked
    record_loop a' c' state prompt_ids n (i + 1)
]

unfoldable pub record_hashes : Paged → RequestCacheState → List ℕ → ℕ → ℕ → Result Paged
unfolding record_loop
record_hashes s state prompt_ids start materialized_end = elim s.prefix [
  | none ↦ ok s
  | some c ↦ do
    let full = min materialized_end (length prompt_ids) / s.page_size
    let n = min full (length state.pages) - start
    (a, c') ← record_loop s.alloc c state prompt_ids n start
    ok (record s { alloc = a; prefix = some c' })
]

unfoldable pub invalidate_cache : Paged → Result (Paged × ℕ)
invalidate_cache s = elim s.prefix [
  | none ↦ ok (s, 0)
  | some c ↦ do
    (a, c', count) ← Allocator.clear_cached (hook (some c)) s.alloc (some c)
    ok (record s { alloc = a; prefix = c' }, count)
]

unfoldable pub can_ever_fit : Paged → ℕ → Bool
can_ever_fit s n_tokens = Allocator.can_ever_satisfy s.alloc (pages_for s.page_size n_tokens)

-- ===== src/Cache/AllocationStrategy.antt =====
-- astrai/inference/core/cache/strategy.py, `AllocationStrategy` and `ContiguousStrategy`: the calls
-- of a strategy, by the class that answers them.
use astr_ai.Base.{ℕ, Bool, true, List, length, take, replicate, Result, ok, ◌>>=◌}
use astr_ai.Cache.ReqPool.{ReqPool}
use astr_ai.Cache.PagedStrategy
use astr_ai.Cache.PagedStrategy.{Paged, RequestCacheState}

-- `AllocationStrategy`, by its two subclasses, each with the table of rows.
pub data Strategy : Type 0 where
  contiguous : ReqPool → Strategy
  paged : Paged → Strategy

abbrev pub req_pool : Strategy → ReqPool
req_pool (contiguous p) = p
req_pool (paged s) = s.req_pool

abbrev pub with_req_pool : Strategy → ReqPool → Strategy
with_req_pool (contiguous _) p = contiguous p
with_req_pool (paged s) p = paged (record s { req_pool = p })

unfoldable pub alloc :
    Strategy → RequestCacheState → List ℕ → Result (Strategy × RequestCacheState × Bool)
alloc (contiguous p) state prompt_ids = ok (contiguous p, state, true)
alloc (paged s) state prompt_ids = do
  (s', state', done) ← PagedStrategy.alloc s state prompt_ids
  ok (paged s', state', done)

unfoldable pub free : Strategy → RequestCacheState → Result Strategy
free (contiguous p) state = ok (contiguous p)
free (paged s) state = do s' ← PagedStrategy.free s state; ok (paged s')

unfoldable pub extend :
    Strategy → RequestCacheState → ℕ → Result (Strategy × RequestCacheState × Bool)
extend (contiguous p) state pos = ok (contiguous p, state, true)
extend (paged s) state pos = do
  (s', state', done) ← PagedStrategy.extend s state pos
  ok (paged s', state', done)

-- The base class's loop over `zip(states, positions)` for the contiguous strategy.
unfoldable pub extend_batch :
    Strategy
    → List RequestCacheState
    → List ℕ
    → Result (Strategy × List RequestCacheState × List Bool)
extend_batch (contiguous p) states positions =
    ok (contiguous p, states, replicate (length (take (length positions) states)) true)
extend_batch (paged s) states positions = do
  (s', states', done) ← PagedStrategy.extend_batch s states positions
  ok (paged s', states', done)

unfoldable pub write_indices :
    Strategy → RequestCacheState → List ℕ → Result (Strategy × RequestCacheState)
write_indices (contiguous p) state prompt_ids = ok (contiguous p, state)
write_indices (paged s) state prompt_ids = do
  (s', state') ← PagedStrategy.write_indices s state prompt_ids
  ok (paged s', state')

unfoldable pub record_hashes : Strategy → RequestCacheState → List ℕ → ℕ → ℕ → Result Strategy
record_hashes (contiguous p) state prompt_ids start materialized_end = ok (contiguous p)
record_hashes (paged s) state prompt_ids start materialized_end = do
  s' ← PagedStrategy.record_hashes s state prompt_ids start materialized_end
  ok (paged s')

unfoldable pub flush_slots :
    Strategy → List RequestCacheState → Result (Strategy × List RequestCacheState)
flush_slots (contiguous p) states = ok (contiguous p, states)
flush_slots (paged s) states = do
  (s', states') ← PagedStrategy.flush_slots s states
  ok (paged s', states')

unfoldable pub invalidate_cache : Strategy → Result (Strategy × ℕ)
invalidate_cache (contiguous p) = ok (contiguous p, 0)
invalidate_cache (paged s) = do (s', n) ← PagedStrategy.invalidate_cache s; ok (paged s', n)

unfoldable pub can_ever_fit : Strategy → ℕ → Bool
can_ever_fit (contiguous p) n_tokens = true
can_ever_fit (paged s) n_tokens = PagedStrategy.can_ever_fit s n_tokens

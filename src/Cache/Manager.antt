-- ===== src/Cache/Manager.antt =====
-- astrai/inference/core/cache/pool.py, class `KVCacheManager`: the request's slots from admission to
-- release. The dictionary of states is an association list; the pool is part of the manager.
mod Tests
pub mod Steady
use Prim.Native.String.{String}
use astr_ai.Base.{
  ℕ, ◌+◌, Bool, true, false, not, ◌&&◌, List, [], ◌∷◌, Option, none, some, map, ltb, leb, ◌==◌,
  if◌then◌else◌, length, get_elem?, set, replicate, is_nil, Result, ok, err, index_error, key_error,
  value_error, runtime_error, ◌>>=◌, ◌>>◌, raise_if,
}
use astr_ai.Base.Dict.{◌≟◌, nat_eq, string_eq, list_eq, lookup, insert, erase}
use astr_ai.Cache.ReqPool
use astr_ai.Cache.PagedStrategy.{RequestCacheState, fresh_state}
use astr_ai.Cache.AllocationStrategy
use astr_ai.Cache.AllocationStrategy.{Strategy, req_pool, with_req_pool}
use astr_ai.Cache.BlockPool
use astr_ai.Cache.BlockPool.{BlockPool, Workspace, KvCache}

pub record BindState : Type 0 where
  pub sig : List ℕ
  pub seq_lens : List ℕ

pub record Manager : Type 0 where
  pub pool : BlockPool
  pub states : List (String × RequestCacheState)
  pub bind_state : Option BindState
  pub bind_was_steady : Bool

abbrev pub init : BlockPool → Manager
init pool = record { pool = pool; states = []; bind_state = none; bind_was_steady = false }

abbrev pub with_strategy : Manager → Strategy → Manager
with_strategy m s = record m { pool = record (m.pool) { strategy = s } }

-- `self._req_pool.free([state.req_idx])`.
abbrev pub free_row : Strategy → ℕ → Strategy
free_row s req_idx = with_req_pool s (ReqPool.free (req_pool s) (req_idx ∷ []))

unfoldable pub rollback : Manager → RequestCacheState → String → Result Manager
rollback m state request_id = do
  s ← AllocationStrategy.free m.pool.strategy state
  ok (record (with_strategy m (free_row s state.req_idx)) { states = erase request_id m.states })

-- `alloc_slots` from the new state on.
unfoldable pub admit : Manager → String → RequestCacheState → List ℕ → Result (Manager × Bool)
unfolding rollback
admit m request_id state prompt_ids = do
  (s, state', done) ← AllocationStrategy.alloc m.pool.strategy state prompt_ids
  let m' = record (with_strategy m s) { states = insert request_id state' m.states }
  if done
      then (do
        (s', written) ← AllocationStrategy.write_indices s state' prompt_ids
        let kept = record written { length = length prompt_ids }
        ok (record (with_strategy m' s') { states = insert request_id kept m'.states }, true))
      else (do m'' ← rollback m' state' request_id; ok (m'', false))

unfoldable pub alloc_slots : Manager → String → List ℕ → Result (Manager × Bool)
unfolding admit
alloc_slots m request_id prompt_ids =
    let unbound = record m { bind_state = none } in
    let (pool, req_slots) = ReqPool.alloc (req_pool m.pool.strategy) 1 in
    elim req_slots [
      | none ↦ ok (unbound, false)
      | some [] ↦ err index_error
      | some (req ∷ _) ↦
          admit (with_strategy unbound (with_req_pool m.pool.strategy pool)) request_id
            (fresh_state req) prompt_ids
    ]

unfoldable pub free_slots : Manager → String → Result Manager
free_slots m request_id =
    let m' = record m { bind_state = none; states = erase request_id m.states } in
    elim (lookup request_id m.states) [
      | none ↦ ok m'
      | some state ↦ do
        s ← AllocationStrategy.free m.pool.strategy state
        ok (with_strategy m' (free_row s state.req_idx))
    ]

unfoldable pub extend_slots : Manager → String → ℕ → Result (Manager × Bool)
extend_slots m request_id position = elim (lookup request_id m.states) [
  | none ↦ ok (m, false)
  | some state ↦ if leb m.pool.max_seq_len position then ok (m, false) else (do
    (s, state', done) ← AllocationStrategy.extend m.pool.strategy state position
    let kept = if done then record state' { length = position + 1 } else state'
    ok (record (with_strategy m s) { states = insert request_id kept m.states }, done))
]

-- The requests of a decode step that have a state and a position below the cap.
pub record Live : Type 0 where
  pub index : ℕ
  pub request_id : String
  pub state : RequestCacheState
  pub position : ℕ

unfoldable pub live_requests : Manager → ℕ → List String → List ℕ → Result (List Live)
live_requests m i [] positions = ok []
live_requests m i (tid ∷ tids) positions = do
  rest ← live_requests m (i + 1) tids positions
  elim (lookup tid m.states) [
    | none ↦ ok rest
    | some state ↦ elim (get_elem? positions i) [
      | none ↦ err index_error
      | some position ↦ ok (
          if ltb position m.pool.max_seq_len
          then record { index = i; request_id = tid; state = state; position = position } ∷ rest
          else rest)
    ]
  ]

-- The last loop: lengths and flags, and the states as the strategy left them.
unfoldable pub settle_batch :
    List Live
    → List RequestCacheState
    → List Bool
    → List (String × RequestCacheState)
    → List Bool
    → List (String × RequestCacheState) × List Bool
settle_batch [] extended done states results = (states, results)
settle_batch (l ∷ live) [] done states results = (states, results)
settle_batch (l ∷ live) (state ∷ extended) [] states results = (states, results)
settle_batch (l ∷ live) (state ∷ extended) (done ∷ rest) states results =
    settle_batch live extended rest
      (insert l.request_id (if done then record state { length = l.position + 1 } else state)
        states)
      (if done then set results l.index true else results)

unfoldable pub extend_slots_batch : Manager → List String → List ℕ → Result (Manager × List Bool)
unfolding live_requests settle_batch
extend_slots_batch m request_ids positions = do
  live ← live_requests m 0 request_ids positions
  let results = replicate (length request_ids) false
  if is_nil live then ok (m, results) else (do
    (s, states, done) ←
        AllocationStrategy.extend_batch m.pool.strategy (map (λ l. l.state) live)
          (map (λ l. l.position) live)
    let (states', results') = settle_batch live states done m.states results
    ok (record (with_strategy m s) { states = states' }, results'))

unfoldable pub request_count : Manager → ℕ
request_count m = length m.states

unfoldable pub cached_tokens : Manager → String → ℕ
cached_tokens m request_id = elim (lookup request_id m.states) [
  | none ↦ 0
  | some state ↦ state.cached
]

unfoldable pub record_block_hashes : Manager → String → List ℕ → ℕ → ℕ → Result Manager
record_block_hashes m request_id prompt_ids start_logical_page materialized_end =
    elim (lookup request_id m.states) [
      | none ↦ ok m
      | some state ↦ do
        s ←
            AllocationStrategy.record_hashes m.pool.strategy state prompt_ids start_logical_page
              materialized_end
        ok (with_strategy m s)
    ]

unfoldable pub invalidate_cache : Manager → Result (Manager × ℕ)
invalidate_cache m = do
  raise_if (not (is_nil m.states)) runtime_error
  (s, count) ← AllocationStrategy.invalidate_cache m.pool.strategy
  ok (record (with_strategy m s) { bind_state = none; bind_was_steady = false }, count)

unfoldable pub can_ever_fit : Manager → ℕ → Bool
can_ever_fit m n_tokens = AllocationStrategy.can_ever_fit m.pool.strategy n_tokens

-- `all(c == p + 1 for c, p in zip(cur_vals, prev_vals))`.
abbrev pub all_next : List ℕ → List ℕ → Bool
all_next [] cur = true
all_next (p ∷ prev) [] = true
all_next (p ∷ prev) (c ∷ cur) = if c == p + 1 then all_next prev cur else false

unfoldable pub is_steady_increment : Option BindState → List ℕ → List ℕ → Bool
is_steady_increment none cur_sig cur_vals = false
is_steady_increment (some prev) cur_sig cur_vals =
    (prev.sig ≟ cur_sig)
    && length prev.seq_lens == length cur_vals
    && all_next prev.seq_lens cur_vals

-- `[self._states[tid] for tid in request_ids]`.
unfoldable pub states_of : Manager → List String → Result (List RequestCacheState)
states_of m [] = ok []
states_of m (tid ∷ tids) = elim (lookup tid m.states) [
  | none ↦ err key_error
  | some state ↦ do rest ← states_of m tids; ok (state ∷ rest)
]

abbrev pub put_states :
    List String
    → List RequestCacheState
    → List (String × RequestCacheState)
    → List (String × RequestCacheState)
put_states [] states m = m
put_states (tid ∷ tids) [] m = m
put_states (tid ∷ tids) (state ∷ states) m = put_states tids states (insert tid state m)

unfoldable pub bind :
    Manager
    → List String
    → Workspace
    → Option ℕ
    → Option (List ℕ)
    → Result (Manager × Workspace × KvCache)
unfolding states_of is_steady_increment
bind m request_ids workspace start_pos seq_ends = do
  states ← states_of m request_ids
  let sig = map (λ s. s.req_idx) states
  seq_lens ← elim seq_ends [
    | none ↦ ok (map (λ s. s.length) states)
    | some ends ↦ if length ends == length states then ok ends else err value_error
  ]
  let incremental : Bool = elim start_pos [
    | none ↦ is_steady_increment m.bind_state sig seq_lens
    | some _ ↦ false
  ]
  (s, flushed) ← AllocationStrategy.flush_slots m.pool.strategy states
  let m' = record (with_strategy m s) {
    states = put_states request_ids flushed m.states;
    bind_state = some (record { sig = sig; seq_lens = seq_lens });
    bind_was_steady = incremental;
  }
  (w, cache) ← BlockPool.bind_tasks m'.pool sig seq_lens workspace start_pos incremental
  ok (m', w, cache)

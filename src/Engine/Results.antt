-- ===== src/Engine/Results.antt =====
-- astrai/inference/core/scheduler.py, class `Scheduler`: what comes back from the worker
-- (`update_from_output`), plans that are undone (`rollback_schedule`, `discard_outstanding`) and the
-- slots of requests that a caller drives itself. An exception ends the call, and the state that it
-- leaves behind is not modelled.
pub mod Rows
use Prim.Native.String.{String}
use astr_ai.Base.{
  ℕ, ◌+◌, ◌/◌, max, Bool, true, false, not, List, [], ◌∷◌, ◌++◌, Option, none, some, ◌==◌,
  if◌then◌else◌, is_nil, Result, ok, err, key_error, value_error, runtime_error, ◌>>=◌, ◌>>◌,
  raise_if,
}
use astr_ai.Base.Dict.{◌≟◌, nat_eq, string_eq, pair_eq, lookup, insert, erase, has_key}
use astr_ai.Cache.Manager
use astr_ai.Cache.Manager.{Manager}
use astr_ai.Engine.Request.{
  Identity, Request, prefill, engine_abort, stale_execution, ExecutionRequest, SchedulerOutput,
  RequestOutput, ModelRunnerOutput, Phase, decode, score, Event, token_delta, identity,
  materialized_end, samples, eos_of, is_finished,
}
use astr_ai.Engine.Scheduler.{
  Key, Scheduler, put, emit, remember, finish, finish_reason, active_requests,
}

-- `identities.append` for an identity that is not there yet.
abbrev pub add_once : Identity → List Identity → List Identity
add_once i [] = i ∷ []
add_once i (j ∷ js) = let rest = add_once i js in if i ≟ j then j ∷ js else j ∷ rest

-- `dict.setdefault`.
abbrev pub set_default :
    Key → RequestOutput → List (Key × RequestOutput) → List (Key × RequestOutput)
set_default key row ready = if has_key key ready then ready else insert key row ready

-- The first loop of `update_from_output`: rows of a planned step and its policy version are kept.
unfoldable pub gather :
    Scheduler → ℕ → ℕ → List RequestOutput → List Identity → Scheduler × List Identity
gather s step version [] seen = (s, seen)
gather s step version (row ∷ rows) seen = elim (lookup (step, row.identity) s.planned) [
  | none ↦ gather s step version rows seen
  | some (planned_version, entry) ↦
      gather
        (if version == planned_version
          then record s { ready = set_default (step, row.identity) row s.ready }
          else s)
        step version rows (if version == planned_version then add_once row.identity seen else seen)
]

abbrev pub is_prefill : Phase → Bool
is_prefill prefill = true
is_prefill decode = false
is_prefill score = false

abbrev pub is_some : Option ℕ → Bool
is_some none = false
is_some (some _) = true

abbrev pub same_bool : Bool → Bool → Bool
same_bool true b = b
same_bool false b = not b

abbrev pub append_some : List ℕ → Option ℕ → List ℕ
append_some xs none = xs
append_some xs (some x) = xs ++ x ∷ []

-- The sampled token of a row: the request grows by it, its event is emitted, and it may end.
unfoldable pub apply_token : Request → RequestOutput → Request × List Event × List String
unfolding finish finish_reason
apply_token r row = elim row.token_id [
  | none ↦ (r, [], [])
  | some token ↦
      let r₁ : Request = record r {
        output_ids = r.output_ids ++ token ∷ [];
        output_tokens = r.output_tokens + 1;
        output_logprobs = append_some r.output_logprobs row.logprob;
      } in
      let delta : List Event =
        if r.emit_events then token_delta r.request_id token r₁.output_tokens ∷ [] else [] in
      if is_finished r₁ (eos_of r₁)
      then (let (r₂, ended) = finish r₁ (finish_reason r₁) none false in
          (r₂, delta ++ ended, r.request_id ∷ []))
      else (r₁, delta, r.request_id ∷ [])
]

-- A row whose request is still there, with the watermark raised.
unfoldable pub materialize : Request → RequestOutput → Request
materialize r row = record r {
  num_materialized_tokens = max r.num_materialized_tokens row.materialized_end;
}

unfoldable pub apply_row :
    Scheduler
    → Request
    → ExecutionRequest
    → RequestOutput
    → Result (Scheduler × List Event × List String)
unfolding apply_token materialize
apply_row s r entry row =
    let r₁ = materialize r row in
    if r₁.terminal_emitted then ok (put s r₁, [], []) else (do
      kv ←
          if is_prefill entry.phase
          then Manager.record_block_hashes s.kv r.request_id r.prompt_ids
              (entry.position / s.kv.pool.page_size) row.materialized_end
          else ok s.kv
      let (r₂, events, produced) = apply_token r₁ row
      ok (put (record s { kv = kv }) r₂, events, produced))

-- A row that left the queue: its request may be gone, and its plan may be of stale weights.
unfoldable pub settle_row :
    Scheduler
    → ℕ
    → ℕ
    → ExecutionRequest
    → RequestOutput
    → Result (Scheduler × List Event × List String)
unfolding finish apply_row
settle_row s policy_version version entry row = elim (lookup (entry.identity.0) s.states) [
  | none ↦ ok (s, [], [])
  | some r ↦
      if identity r ≟ entry.identity
      then (if version == policy_version
          then apply_row s r entry row
          else (let (r', events) = finish r engine_abort (some stale_execution) false in
              ok (put s r', events, [])))
      else ok (s, [], [])
]

-- `while order`: the steps of one identity in the order they were planned, up to the first that has
-- no row.
unfoldable pub drain :
    Scheduler → ℕ → Identity → List ℕ → Result (Scheduler × List Event × List String)
unfolding settle_row
drain s policy_version i [] = ok (record s { pending_order = erase i s.pending_order }, [], [])
drain s policy_version i (step ∷ order) = elim (lookup (step, i) s.ready) [
  | none ↦ ok (record s { pending_order = insert i (step ∷ order) s.pending_order }, [], [])
  | some row ↦ elim (lookup (step, i) s.planned) [
    | none ↦ err key_error
    | some (version, entry) ↦ do
      raise_if (not (row.materialized_end == materialized_end entry)) runtime_error
      raise_if (not (same_bool (samples entry) (is_some row.token_id))) runtime_error
      (s₁, events, produced) ←
          settle_row
            (record s { ready = erase (step, i) s.ready; planned = erase (step, i) s.planned })
            policy_version version entry row
      (s₂, events', produced') ← drain s₁ policy_version i order
      ok (s₂, events ++ events', produced ++ produced')
  ]
]

abbrev pub order_of : List (Identity × List ℕ) → Identity → List ℕ
order_of pending i = elim (lookup i pending) [ none ↦ [] | some order ↦ order ]

unfoldable pub drain_each :
    Scheduler → ℕ → List Identity → Result (Scheduler × List Event × List String)
unfolding drain
drain_each s policy_version [] = ok (s, [], [])
drain_each s policy_version (i ∷ identities) = do
  (s₁, events, produced) ← drain s policy_version i (order_of s.pending_order i)
  (s₂, events', produced') ← drain_each s₁ policy_version identities
  ok (s₂, events ++ events', produced ++ produced')

-- The requests that got a token are given by their ids.
unfoldable pub update_from_output :
    Scheduler → ModelRunnerOutput → Option ℕ → Result (Scheduler × List String)
unfolding gather drain_each
update_from_output s output policy_version = do
  let policy : ℕ = elim policy_version [ none ↦ s.policy_version | some v ↦ v ]
  let (s₁, identities) = gather s output.step_id output.policy_version output.results []
  (s₂, events, produced) ← drain_each s₁ policy identities
  ok (emit s₂ events, produced)

-- `deque.remove`: the first occurrence.
unfoldable pub remove_step : ℕ → List ℕ → Result (List ℕ)
remove_step step [] = err value_error
remove_step step (x ∷ xs) =
    let rest = remove_step step xs in if x == step then ok xs else (do xs' ← rest; ok (x ∷ xs'))

-- The watermark that the steps still outstanding leave.
unfoldable pub watermark : Scheduler → Identity → ℕ → List ℕ → Result ℕ
watermark s i m [] = ok m
watermark s i m (step ∷ order) = elim (lookup (step, i) s.planned) [
  | none ↦ err key_error
  | some (version, entry) ↦ watermark s i (max m (materialized_end entry)) order
]

unfoldable pub rollback_entry : Scheduler → ℕ → Identity → Result Scheduler
unfolding remove_step watermark
rollback_entry s step i = do
  let s₁ : Scheduler = record s {
    ready = erase (step, i) s.ready;
    planned = erase (step, i) s.planned;
  }
  (s₂, order) ← elim (lookup i s.pending_order) [
    | none ↦ ok (s₁, [])
    | some steps ↦ do
      order ← remove_step step steps
      ok (
        record s₁ {
          pending_order =
              if is_nil order then erase i s.pending_order else insert i order s.pending_order;
        },
        order,
      )
  ]
  elim (lookup (i.0) s.states) [
    | none ↦ ok s₂
    | some r ↦
        if identity r ≟ i
        then (do
          m ← watermark s₂ i r.num_materialized_tokens order
          ok (put s₂ (record r { num_computed_tokens = m })))
        else ok s₂
  ]

unfoldable pub rollback_schedule : Scheduler → ℕ → List ExecutionRequest → Result Scheduler
unfolding rollback_entry
rollback_schedule s step [] = ok s
rollback_schedule s step (entry ∷ entries) = do
  s' ← rollback_entry s step entry.identity
  rollback_schedule s' step entries

abbrev pub rewind : List (String × Request) → List (String × Request)
rewind [] = []
rewind ((rid, r) ∷ states) =
    (rid, record r { num_computed_tokens = r.num_materialized_tokens }) ∷ rewind states

unfoldable pub discard_outstanding : Scheduler → Scheduler
discard_outstanding s = record s {
  planned = [];
  pending_order = [];
  ready = [];
  states = rewind s.states;
}

unfoldable pub reserve_tokenized_request : Scheduler → Request → Result (Scheduler × Bool)
unfolding remember
reserve_tokenized_request s r = if has_key r.request_id s.states then err value_error else (do
  (kv, done) ← Manager.alloc_slots s.kv r.request_id r.prompt_ids
  if done
      then (do
        (s', r') ← remember (record s { kv = kv }) (record r { emit_events = false })
        ok (s', true))
      else ok (record s { kv = kv }, false))

unfoldable pub release_tokenized_request : Scheduler → Request → Result Scheduler
release_tokenized_request s r = do
  kv ← Manager.free_slots s.kv r.request_id
  ok (record s { kv = kv; states = erase r.request_id s.states })

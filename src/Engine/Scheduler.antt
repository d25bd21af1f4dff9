-- ===== src/Engine/Scheduler.antt =====
-- astrai/inference/core/scheduler.py, class `Scheduler`: the life of a request. The dictionary
-- `_states` holds every request object that is alive; `waiting` and `running` name its entries by id,
-- and another object with the same id is one of another incarnation. Every method runs under the
-- engine's lock. `events` logs what the sink was given, in order. The metrics, the wake-up event and
-- the tokenizer have no part in the request's life and are left out: `prompt_ids` are given.
pub mod Finish
use Prim.Native.String.{String}
use astr_ai.Base.{
  ℕ, zero, suc, ◌+◌, ◌-◌, min, Bool, true, false, not, ◌&&◌, ◌||◌, List, [], ◌∷◌, ◌++◌, Option,
  none, some, map, ltb, leb, ◌==◌, if◌then◌else◌, length, is_nil, Result, ok, err, key_error,
  value_error, ◌>>=◌, ◌>>◌, raise_if,
}
use astr_ai.Base.Dict.{Eq, ◌≟◌, nat_eq, string_eq, list_eq, pair_eq, lookup, insert, erase, has_key}
use astr_ai.Cache.Manager
use astr_ai.Cache.Manager.{Manager}
use astr_ai.Engine.Planner.{plan}
use astr_ai.Engine.Request.{
  Identity, Request, Status, running, finished, aborted, FinishReason, stop_token, length_cap,
  cancelled, engine_abort, rejected, ErrorReason, kv_cache_allocation_failed,
  kv_cache_extension_failed, ExecutionRequest, SchedulerOutput, RequestOutput, Event,
  request_finished, request_error, identity, materialized_end, last?, ends_in, eos_of, next_pos,
  prefill_complete, is_finished,
}

abbrev pub Key : Type 0
Key = ℕ × Identity

pub record Scheduler : Type 0 where
  pub max_seq_len : ℕ
  pub max_batch_size : ℕ
  pub kv : Manager
  pub token_budget : Option ℕ
  pub stop_ids : List ℕ
  pub waiting : List String
  pub running : List String
  pub states : List (String × Request)
  pub step_id : ℕ
  pub policy_version : ℕ
  pub planned : List (Key × (ℕ × ExecutionRequest))
  pub pending_order : List (Identity × List ℕ)
  pub ready : List (Key × RequestOutput)
  pub total_requests : ℕ
  pub total_tokens : ℕ
  pub cancelled_total : ℕ
  pub events : List Event

abbrev pub put : Scheduler → Request → Scheduler
put s r = record s { states = insert r.request_id r s.states }

abbrev pub emit : Scheduler → List Event → Scheduler
emit s events = record s { events = s.events ++ events }

-- The object that `_states` holds under the id of `r`, with the defaults that `remember` sets.
abbrev pub remembered : Scheduler → Request → Request
remembered s r = record r {
  eos_token_ids = elim r.eos_token_ids [ none ↦ some s.stop_ids | some ids ↦ some ids ];
  input_tokens = length r.prompt_ids;
}

unfoldable pub remember : Scheduler → Request → Result (Scheduler × Request)
remember s r = elim (lookup r.request_id s.states) [
  | none ↦ ok (put s (remembered s r), remembered s r)
  | some current ↦
      if current.incarnation == r.incarnation
      then ok (put s (remembered s current), remembered s current)
      else err value_error
]

unfoldable pub finish_reason : Request → FinishReason
finish_reason r = if ends_in (last? r.output_ids) (eos_of r) then stop_token else length_cap

-- `reason in (FINISH_LENGTH, FINISH_STOP_TOKEN) and error is None`.
abbrev pub succeeds : FinishReason → Bool → Bool
succeeds stop_token failed = not failed
succeeds length_cap failed = not failed
succeeds _ failed = false

-- The request after `finish`.
abbrev pub ended : Request → FinishReason → Option ErrorReason → Bool → Request
ended r reason error_reason failed = record r {
  terminal_emitted = true;
  finish_reason = some reason;
  error_reason = error_reason;
  status = if succeeds reason failed then finished else aborted;
}

-- `finish`: the request and the terminal event, which the caller emits or collects. `failed` tells
-- whether an error is given.
unfoldable pub finish : Request → FinishReason → Option ErrorReason → Bool → Request × List Event
finish r reason error_reason failed =
    if r.terminal_emitted
    then (r, [])
    else (if r.emit_events
        then (
          ended r reason error_reason failed,
          (if failed
                then request_error r.request_id
                else request_finished r.request_id reason r.input_tokens r.output_tokens)
              ∷ [],
        )
        else (ended r reason error_reason failed, []))

-- `self.finish(request, ...)` with the event given to the sink.
unfoldable pub finish_now : Scheduler → Request → FinishReason → Option ErrorReason → Scheduler
unfolding finish
finish_now s r reason error_reason =
    let (r', events) = finish r reason error_reason false in emit (put s r') events

abbrev pub without : String → List String → List String
without rid [] = []
without rid (x ∷ xs) = let rest = without rid xs in if x ≟ rid then rest else x ∷ rest

abbrev pub is_done : Status → Bool
is_done finished = true
is_done _ = false

-- One round of the loop of `release_finished`.
unfoldable pub release_one : Scheduler → Request → Result Scheduler
release_one s r = do
  kv ←
      if is_done r.status && ltb 0 r.num_materialized_tokens
      then Manager.record_block_hashes s.kv r.request_id (r.prompt_ids ++ r.output_ids) 0
          r.num_materialized_tokens
      else ok s.kv
  kv' ← Manager.free_slots kv r.request_id
  ok (record s {
    kv = kv';
    waiting = without r.request_id s.waiting;
    running = without r.request_id s.running;
    states = erase r.request_id s.states;
    total_tokens = s.total_tokens + r.output_tokens;
  })

-- `self._pending_order.get(identity)` is a nonempty queue.
abbrev pub has_pending : Scheduler → Identity → Bool
has_pending s i = elim (lookup i s.pending_order) [ none ↦ false | some order ↦ not (is_nil order) ]

-- `for rid, request in list(self._states.items())`, over the entries at the start.
unfoldable pub release_loop : Scheduler → List (String × Request) → Result Scheduler
unfolding release_one
release_loop s [] = ok s
release_loop s ((rid, r) ∷ entries) = do
  s' ← if r.terminal_emitted && not (has_pending s (identity r)) then release_one s r else ok s
  release_loop s' entries

unfoldable pub release_finished : Scheduler → Bool → Result Scheduler
unfolding release_loop
release_finished s safe_to_release = if safe_to_release then release_loop s s.states else ok s

-- `len(set(ids)) != len(ids) or any(rid in self._states for rid in ids)`.
abbrev pub clashes : List (String × Request) → List Request → Bool
clashes states [] = false
clashes states (r ∷ rs) = has_key r.request_id states || clashes ((r.request_id, r) ∷ states) rs

unfoldable pub enqueue_loop : Scheduler → Bool → List Request → Result Scheduler
unfolding remember finish_now
enqueue_loop s emit_events [] = ok s
enqueue_loop s emit_events (r ∷ rs) = do
  (s₁, r₁) ← remember s (record r { emit_events = emit_events })
  let s₂ = record s₁ {
    waiting = s₁.waiting ++ r.request_id ∷ [];
    total_requests = s₁.total_requests + 1;
  }
  let s₃ : Scheduler = elim r₁.max_tokens [
    | none ↦ s₂
    | some n ↦ if leb n 0 then finish_now s₂ r₁ length_cap none else s₂
  ]
  enqueue_loop s₃ emit_events rs

unfoldable pub enqueue_tokenized_requests : Scheduler → Bool → List Request → Result Scheduler
unfolding enqueue_loop release_finished
enqueue_tokenized_requests s emit_events requests = do
  raise_if (clashes s.states requests) value_error
  s' ← enqueue_loop s emit_events requests
  release_finished s' true

unfoldable pub reject_loop : Scheduler → List String → Result Scheduler
unfolding finish_now
reject_loop s [] = ok s
reject_loop s (rid ∷ rids) = elim (lookup rid s.states) [
  | none ↦ err key_error
  | some r ↦ reject_loop (finish_now s r rejected (some kv_cache_allocation_failed)) rids
]

unfoldable pub reject_waiting_for_capacity : Scheduler → Result Scheduler
unfolding reject_loop release_finished
reject_waiting_for_capacity s = do s' ← reject_loop s s.waiting; release_finished s' true

unfoldable pub cancel_request : Scheduler → String → Result (Scheduler × Bool)
unfolding finish_now release_finished
cancel_request s request_id = elim (lookup request_id s.states) [
  | none ↦ ok (s, false)
  | some r ↦ if r.terminal_emitted then ok (s, false) else (do
    s' ←
        release_finished
          (finish_now (record s { cancelled_total = s.cancelled_total + 1 }) r cancelled none) true
    ok (s', true))
]

-- `abort_all`: every request is finished, and the events are emitted together.
unfoldable pub abort_loop :
    List (String × Request) → FinishReason → Bool → List (String × Request) × List Event
unfolding finish
abort_loop [] reason failed = ([], [])
abort_loop ((rid, r) ∷ states) reason failed =
    let (r', events) = finish r reason none failed in
    let (rest, later) = abort_loop states reason failed in ((rid, r') ∷ rest, events ++ later)

unfoldable pub abort_all : Scheduler → FinishReason → Bool → Scheduler
unfolding abort_loop
abort_all s reason failed =
    let (states, events) = abort_loop s.states reason failed in
    emit (record s { states = states }) events

-- The requests that the ids name; an id of `running` always names one.
abbrev pub objects : List (String × Request) → List String → List Request
objects states [] = []
objects states (rid ∷ rids) = elim (lookup rid states) [
  | none ↦ objects states rids
  | some r ↦ r ∷ objects states rids
]

abbrev pub unfinished : List Request → List Request
unfinished [] = []
unfinished (r ∷ rs) = let rest = unfinished rs in if r.terminal_emitted then rest else r ∷ rest

abbrev pub active_requests : Scheduler → List Request
active_requests s = unfinished (objects s.states s.running)

-- The loop of `admit_requests` over `n` waiting requests; `failed` are those that got no slots.
unfoldable pub admit_loop : Scheduler → ℕ → List String → Result (Scheduler × List String)
unfolding finish_now
admit_loop s zero failed = ok (s, failed)
admit_loop s (suc n) failed = elim s.waiting [
  | [] ↦ ok (s, failed)
  | rid ∷ rest ↦
      let s₁ = record s { waiting = rest } in
      elim (lookup rid s.states) [
        | none ↦ err key_error
        | some r ↦
            if r.terminal_emitted
            then admit_loop s₁ n failed
            else (if Manager.can_ever_fit s.kv (length r.prompt_ids)
                then (do
                  (kv, done) ← Manager.alloc_slots s.kv rid r.prompt_ids
                  let s₂ = record s₁ { kv = kv }
                  if done
                      then admit_loop
                          (record (put s₂ (record r { status = running })) {
                            running = s₂.running ++ rid ∷ [];
                          })
                          n failed
                      else admit_loop s₂ n (failed ++ rid ∷ []))
                else admit_loop (finish_now s₁ r rejected (some kv_cache_allocation_failed)) n
                    failed)
      ]
]

unfoldable pub admit_requests : Scheduler → Bool → Result Scheduler
unfolding admit_loop release_finished
admit_requests s safe_to_release =
    let available = s.max_batch_size - length s.running in
    if leb available 0 then ok s else (do
      (s', failed) ← admit_loop s (min available (length s.waiting)) []
      release_finished (record s' { waiting = failed ++ s'.waiting }) safe_to_release)

-- The first loop of `schedule`: finished requests end, the others are eligible.
unfoldable pub select_eligible : Scheduler → List Request → Result (Scheduler × List Request)
unfolding remember finish_now finish_reason
select_eligible s [] = ok (s, [])
select_eligible s (r ∷ rs) = do
  (s₁, q) ← remember s r
  let stops = not q.terminal_emitted && is_finished q (eos_of q)
  let full = not q.terminal_emitted && prefill_complete q && leb s.max_seq_len (next_pos q)
  (s₂, eligible) ←
      select_eligible
        (if stops
          then finish_now s₁ q (finish_reason q) none
          else (if full then finish_now s₁ q length_cap none else s₁))
        rs
  ok (s₂, if q.terminal_emitted || stops || full then eligible else q ∷ eligible)

-- Requests that got no slot for their next position.
unfoldable pub abort_failed : Scheduler → List Request → Scheduler
unfolding finish_now
abort_failed s [] = s
abort_failed s (r ∷ rs) =
    abort_failed (finish_now s r engine_abort (some kv_cache_extension_failed)) rs

abbrev pub push_order : List (Identity × List ℕ) → Identity → ℕ → List (Identity × List ℕ)
push_order order i step = elim (lookup i order) [
  | none ↦ insert i (step ∷ []) order
  | some steps ↦ insert i (steps ++ step ∷ []) order
]

-- The last loop of `schedule`: what a step's entries leave outstanding.
unfoldable pub register_entries :
    Scheduler → SchedulerOutput → List ExecutionRequest → Result Scheduler
register_entries s out [] = ok s
register_entries s out (entry ∷ entries) = elim (lookup (entry.identity.0) s.states) [
  | none ↦ err key_error
  | some r ↦
      register_entries
        (put
          (record s {
            planned = insert (out.step_id, entry.identity) (out.policy_version, entry) s.planned;
            pending_order = push_order s.pending_order entry.identity out.step_id;
          })
          (record r { num_computed_tokens = materialized_end entry }))
        out entries
]

unfoldable pub schedule :
    Scheduler → Option (List Request) → Option ℕ → Bool → Result (Scheduler × SchedulerOutput)
unfolding select_eligible abort_failed register_entries
schedule s requests policy_version return_logprobs = do
  let version : ℕ = elim policy_version [ none ↦ s.policy_version | some v ↦ v ]
  let given : List Request = elim requests [ none ↦ active_requests s | some rs ↦ rs ]
  (s₁, eligible) ← select_eligible s given
  (kv, entries, failed) ← plan s₁.kv s₁.token_budget eligible
  let s₂ = abort_failed (record s₁ { kv = kv }) failed
  let out : SchedulerOutput = record {
    step_id = s₂.step_id + 1;
    policy_version = version;
    requests = entries;
    return_logprobs = return_logprobs;
  }
  s₃ ← register_entries (record s₂ { step_id = s₂.step_id + 1 }) out entries
  ok (s₃, out)

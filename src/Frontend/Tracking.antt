-- ===== src/Frontend/Tracking.antt =====
-- astrai/inference/frontend/tracking.py: the event queues of requests. An event loop and an async
-- queue are numbers, and whether a loop still takes calls is a parameter; a new queue's number is an
-- argument. The waits on the condition are not modelled, only what they wait for.
pub mod Delivery
pub mod Restore
use Prim.Native.String.{String}
use astr_ai.Base.{
  ℕ, ◌+◌, ◌-◌, Bool, true, false, not, ◌&&◌, ◌||◌, List, [], ◌∷◌, ◌++◌, Option, none, some, ◌==◌,
  if◌then◌else◌, length, drop, is_nil, Result, ok, err, key_error,
}
use astr_ai.Base.Dict.{string_eq, nat_eq, ◌≟◌, lookup, insert, erase, has_key}
use astr_ai.Engine.Request.{
  Event, token_delta, request_finished, request_error, FinishReason, stop_token, length_cap,
  cancelled, engine_abort, rejected,
}

-- `deque(maxlen=bound)`, with the loop and the queue of a subscriber.
pub record TrackedRequest : Type 0 where
  pub events : List Event
  pub bound : ℕ
  pub finished : Bool
  pub subscriber : Option (ℕ × ℕ)

pub record RequestTracker : Type 0 where
  pub requests : List (String × TrackedRequest)
  pub event_capacity : ℕ

-- The last `n` entries.
abbrev pub keep_last : ℕ → List Event → List Event
keep_last n events = drop (length events - n) events

-- `state.events.extend(events)`.
abbrev pub extend : TrackedRequest → List Event → TrackedRequest
extend state events = record state { events = keep_last state.bound (state.events ++ events) }

abbrev pub with_requests : RequestTracker → List (String × TrackedRequest) → RequestTracker
with_requests t requests = record t { requests = requests }

unfoldable pub register : RequestTracker → String → Option ℕ → RequestTracker
register t request_id event_capacity = with_requests t (
    insert request_id
      (record {
        events = [];
        bound = elim event_capacity [ none ↦ t.event_capacity | some n ↦ n ];
        finished = false;
        subscriber = none;
      })
      t.requests)

unfoldable pub unregister : RequestTracker → String → RequestTracker
unregister t request_id = with_requests t (erase request_id t.requests)

-- The events that were waiting go to the new subscriber.
unfoldable pub subscribe_async :
    RequestTracker → String → ℕ → ℕ → Result (RequestTracker × List Event)
subscribe_async t request_id loop queue = elim (lookup request_id t.requests) [
  | none ↦ err key_error
  | some state ↦ ok (
    with_requests t (
        insert request_id (record state { events = []; subscriber = some (loop, queue) })
          t.requests),
    state.events,
  )
]

abbrev pub id_of : Event → String
id_of (token_delta rid token number) = rid
id_of (request_finished rid reason prompt_tokens completion_tokens) = rid
id_of (request_error rid) = rid

abbrev pub is_terminal : Event → Bool
is_terminal (token_delta rid token number) = false
is_terminal (request_finished rid reason prompt_tokens completion_tokens) = true
is_terminal (request_error rid) = true

-- A delivery: the request, its queue and a batch of events.
abbrev pub Delivery : Type 0
Delivery = String × (ℕ × List Event)

abbrev pub ByLoop : Type 0
ByLoop = List (ℕ × List Delivery)

-- Onto the last batch, if it is for the same queue, else a batch of its own.
unfoldable pub add_event : List Delivery → String → ℕ → Event → List Delivery
add_event [] rid queue event = (rid, (queue, event ∷ [])) ∷ []
add_event ((r, (q, batch)) ∷ []) rid queue event =
    if q == queue
    then (r, (q, batch ++ event ∷ [])) ∷ []
    else (r, (q, batch)) ∷ (rid, (queue, event ∷ [])) ∷ []
add_event (first ∷ second ∷ deliveries) rid queue event =
    first ∷ add_event (second ∷ deliveries) rid queue event

abbrev pub deliveries_of : Option (List Delivery) → List Delivery
deliveries_of none = []
deliveries_of (some deliveries) = deliveries

-- What one event does to the state of its request.
abbrev pub mark : TrackedRequest → Event → TrackedRequest
mark state event = if is_terminal event then record state { finished = true } else state

-- The event to a subscriber's queue, or to the request's own.
abbrev pub hand_over :
    RequestTracker → ByLoop → Event → TrackedRequest → Option (ℕ × ℕ) → RequestTracker × ByLoop
hand_over t by_loop event state (some (loop, queue)) = (
  with_requests t (insert (id_of event) (mark state event) t.requests),
  insert loop (add_event (deliveries_of (lookup loop by_loop)) (id_of event) queue event) by_loop,
)
hand_over t by_loop event state none = (
  with_requests t (insert (id_of event) (mark (extend state (event ∷ [])) event) t.requests),
  by_loop,
)

abbrev pub take_event :
    RequestTracker → ByLoop → Event → Option TrackedRequest → RequestTracker × ByLoop
take_event t by_loop event none = (t, by_loop)
take_event t by_loop event (some state) =
    if state.finished then (t, by_loop) else hand_over t by_loop event state state.subscriber

unfoldable pub collect_event : RequestTracker → ByLoop → Event → RequestTracker × ByLoop
collect_event t by_loop event = take_event t by_loop event (lookup (id_of event) t.requests)

-- The part of `__call__` under the lock.
unfoldable pub collect : RequestTracker → ByLoop → List Event → RequestTracker × ByLoop
unfolding collect_event
collect t by_loop [] = (t, by_loop)
collect t by_loop (event ∷ events) =
    let (t', by_loop') = collect_event t by_loop event in collect t' by_loop' events

abbrev pub is_subscriber : Option (ℕ × ℕ) → ℕ → ℕ → Bool
is_subscriber none loop queue = false
is_subscriber (some (l, q)) loop queue = l == loop && q == queue

abbrev pub mem_id : String → List String → Bool
mem_id rid [] = false
mem_id rid (r ∷ restored) = (r ≟ rid) || mem_id rid restored

-- A delivery that a closed loop refused goes back to its request.
abbrev pub give_back :
    RequestTracker
    → ℕ
    → List String
    → Delivery
    → Option TrackedRequest
    → RequestTracker × List String
give_back t loop restored delivery none = (t, restored)
give_back t loop restored (rid, (queue, batch)) (some state) =
    if mem_id rid restored
    then (with_requests t (insert rid (extend state batch) t.requests), restored)
    else if is_subscriber state.subscriber loop queue
    then (
      with_requests t (insert rid (extend (record state { subscriber = none }) batch) t.requests),
      rid ∷ restored,
    )
    else (t, restored)

unfoldable pub restore_one :
    RequestTracker → ℕ → List String → Delivery → RequestTracker × List String
restore_one t loop restored delivery =
    give_back t loop restored delivery (lookup delivery.0 t.requests)

unfoldable pub restore : RequestTracker → ℕ → List String → List Delivery → RequestTracker
unfolding restore_one
restore t loop restored [] = t
restore t loop restored (delivery ∷ deliveries) =
    let (t', restored') = restore_one t loop restored delivery in
    restore t' loop restored' deliveries

-- The part of `__call__` after it, with the batches that the open loops took.
unfoldable pub schedule : (ℕ → Bool) → RequestTracker → ByLoop → RequestTracker × List Delivery
unfolding restore
schedule open_loop t [] = (t, [])
schedule open_loop t ((loop, deliveries) ∷ by_loop) =
    let t' = if open_loop loop then t else restore t loop [] deliveries in
    let (t'', sent) = schedule open_loop t' by_loop in
    (t'', if open_loop loop then deliveries ++ sent else sent)

unfoldable pub call : (ℕ → Bool) → RequestTracker → List Event → RequestTracker × List Delivery
unfolding collect schedule
call open_loop t events = let (t', by_loop) = collect t [] events in schedule open_loop t' by_loop

unfoldable pub is_finished : RequestTracker → String → Bool
is_finished t request_id = elim (lookup request_id t.requests) [
  | none ↦ false
  | some state ↦ state.finished
]

unfoldable pub drain : RequestTracker → String → RequestTracker × List Event
drain t request_id = elim (lookup request_id t.requests) [
  | none ↦ (t, [])
  | some state ↦
      (with_requests t (insert request_id (record state { events = [] }) t.requests), state.events)
]

-- What `wait_for_events` waits for.
unfoldable pub ready : RequestTracker → List String → Bool
ready t [] = false
ready t (rid ∷ request_ids) =
    elim (lookup rid t.requests) [ none ↦ true | some state ↦ not (is_nil state.events) ]
    || ready t request_ids

-- `map_finish_reason`: the protocols' words.
pub data FinishWord : Type 0 where
  stop_word length_word cancelled_word aborted_word rejected_word : FinishWord

abbrev pub map_finish_reason : Option FinishReason → FinishWord
map_finish_reason none = stop_word
map_finish_reason (some stop_token) = stop_word
map_finish_reason (some length_cap) = length_word
map_finish_reason (some cancelled) = cancelled_word
map_finish_reason (some engine_abort) = aborted_word
map_finish_reason (some rejected) = rejected_word

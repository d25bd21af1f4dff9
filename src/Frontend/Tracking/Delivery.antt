-- ===== src/Frontend/Tracking/Delivery.antt =====
-- astrai/inference/frontend/tracking.py: what one call of the tracker does to a request without a
-- subscriber.
use Prim.Native.String.{String}
use mathlib.Core.List.{append-nil, append_assoc}
use astr_ai.Base.{
  ℕ, zero, suc, ◌+◌, ◌-◌, ◌≤◌, ◌≡◌, refl, sym, ap, ◌∙◌, Bool, true, false, ◌||◌, List, [], ◌∷◌,
  ◌++◌, Option, none, some, if◌then◌else◌, length, length-append, length-drop, drop-drop, drop,
  arith, Bool-cases, Option-cases, inl, inr,
}
use astr_ai.Base.Dict.{string_eq, ◌≟◌, lookup, lookup-insert}
use astr_ai.Engine.Request.{Event}
use astr_ai.Frontend.Tracking.{
  TrackedRequest, RequestTracker, keep_last, extend, id_of, is_terminal, ByLoop, mark, hand_over,
  take_event, collect_event, collect,
}

-- The events of a request, as far as its terminal one.
abbrev pub events_of : String → List Event → List Event
events_of rid [] = []
events_of rid (event ∷ events) =
    let rest = events_of rid events in
    if id_of event ≟ rid then (if is_terminal event then event ∷ [] else event ∷ rest) else rest

abbrev pub any_terminal : List Event → Bool
any_terminal [] = false
any_terminal (event ∷ events) = is_terminal event || any_terminal events

drop-append_beyond :
    (n : ℕ) (xs ys : List Event) → n ≤ length xs → drop n (xs ++ ys) ≡ drop n xs ++ ys
drop-append_beyond zero xs ys h = refl
drop-append_beyond (suc n) [] ys h = absurd (omega arith)
drop-append_beyond (suc n) (x ∷ xs) ys h = drop-append_beyond n xs ys (omega arith)

-- Keeping the last ones twice keeps the last ones.
keep_last-append :
    (n : ℕ) (xs ys : List Event) → keep_last n (keep_last n xs ++ ys) ≡ keep_last n (xs ++ ys)
keep_last-append n xs ys =
    let k = length xs - n in
    let e = drop-append_beyond k xs ys (omega arith) in
    let sized : length (drop k xs ++ ys) ≡ length (xs ++ ys) - k =
      omega (arith, length-append (drop k xs) ys, length-append xs ys, length-drop k xs) in
    ap (λ (m : ℕ). drop (m - n) (drop k xs ++ ys)) sized
    ∙ ap (λ (zs : List Event). drop (length (xs ++ ys) - k - n) zs) (sym e)
    ∙ drop-drop (length (xs ++ ys) - k - n) k (xs ++ ys)
    ∙ ap (λ (m : ℕ). drop m (xs ++ ys)) {x = k + (length (xs ++ ys) - k - n)}
        {y = length (xs ++ ys) - n} (omega (arith, length-append xs ys))

keep_last_all : (n : ℕ) (xs : List Event) → length xs ≤ n → keep_last n xs ≡ xs
keep_last_all n xs h = let e : length xs - n ≡ 0 = omega arith in rw e refl

length-keep_last : (n : ℕ) (xs : List Event) → length (keep_last n xs) ≤ n
length-keep_last n xs = omega (arith, length-drop (length xs - n) xs)

-- What an event does to its request.
abbrev pub received : Option (ℕ × ℕ) → TrackedRequest → Event → TrackedRequest
received none state event = mark (extend state (event ∷ [])) event
received (some subscriber) state event = mark state event

abbrev pub receive : TrackedRequest → Event → TrackedRequest
receive state event = if state.finished then state else received state.subscriber state event

-- An event changes the state of its own request only.
unchanged :
    (rid : String) (event : Event) (requests : List (String × TrackedRequest))
    (state : TrackedRequest)
    → lookup (id_of event) requests ≡ some state
    → lookup rid requests ≡ (if id_of event ≟ rid then some state else lookup rid requests)
unchanged rid event requests state found = elim (Bool-cases (id_of event ≟ rid)) [
  | inr other ↦ rw other refl
  | inl same ↦
      let q : id_of event ≡ rid = (string_eq.beq_iff (id_of event) rid).0 same in
      rw same (ap (λ (k : String). lookup k requests) (sym q) ∙ found)
]

hand_over-received :
    (rid : String) (t : RequestTracker) (by_loop : ByLoop) (event : Event) (state : TrackedRequest)
    (o : Option (ℕ × ℕ))
    → lookup rid (hand_over t by_loop event state o).0.requests
      ≡ (if id_of event ≟ rid then some (received o state event) else lookup rid t.requests)
hand_over-received rid t by_loop event state none =
    lookup-insert (id_of event) rid (mark (extend state (event ∷ [])) event) t.requests
hand_over-received rid t by_loop event state (some subscriber) =
    lookup-insert (id_of event) rid (mark state event) t.requests

take_event-receive :
    (rid : String) (t : RequestTracker) (by_loop : ByLoop) (event : Event) (state : TrackedRequest)
    → lookup (id_of event) t.requests ≡ some state
    → (over : Bool)
    → lookup rid
        (if over then (t, by_loop) else hand_over t by_loop event state state.subscriber).0.requests
      ≡ (if id_of event ≟ rid
          then some (if over then state else received state.subscriber state event)
          else lookup rid t.requests)
take_event-receive rid t by_loop event state found true = unchanged rid event t.requests state found
take_event-receive rid t by_loop event state found false =
    hand_over-received rid t by_loop event state state.subscriber

collect_event-receive :
    (rid : String) (t : RequestTracker) (by_loop : ByLoop) (event : Event) (state : TrackedRequest)
    → lookup (id_of event) t.requests ≡ some state
    → lookup rid (collect_event t by_loop event).0.requests
      ≡ (if id_of event ≟ rid then some (receive state event) else lookup rid t.requests)
unfolding collect_event
collect_event-receive rid t by_loop event state found =
    ap (λ (o : Option TrackedRequest). lookup rid (take_event t by_loop event o).0.requests) found
    ∙ take_event-receive rid t by_loop event state found state.finished

collect_event-missing :
    (rid : String) (t : RequestTracker) (by_loop : ByLoop) (event : Event)
    → lookup (id_of event) t.requests ≡ none
    → lookup rid (collect_event t by_loop event).0.requests ≡ lookup rid t.requests
unfolding collect_event
collect_event-missing rid t by_loop event missing =
    ap (λ (o : Option TrackedRequest). lookup rid (take_event t by_loop event o).0.requests) missing

-- A request without a subscriber.
abbrev pub waiting : List Event → ℕ → Bool → TrackedRequest
waiting events bound finished = record {
  events = events;
  bound = bound;
  finished = finished;
  subscriber = none;
}

-- An event of another request.
pub collect_event-other :
    (rid : String) (t : RequestTracker) (by_loop : ByLoop) (event : Event)
    → (id_of event ≟ rid) ≡ false
    → lookup rid (collect_event t by_loop event).0.requests ≡ lookup rid t.requests
collect_event-other rid t by_loop event other =
    elim (Option-cases (lookup (id_of event) t.requests)) [
      | inl missing ↦ collect_event-missing rid t by_loop event missing
      | inr (state, found) ↦ collect_event-receive rid t by_loop event state found ∙ rw other refl
    ]

pub collect_event-own :
    (rid : String) (t : RequestTracker) (by_loop : ByLoop) (event : Event) (state : TrackedRequest)
    → (id_of event ≟ rid) ≡ true
    → lookup rid t.requests ≡ some state
    → lookup rid (collect_event t by_loop event).0.requests ≡ some (receive state event)
collect_event-own rid t by_loop event state same found =
    let q : id_of event ≡ rid = (string_eq.beq_iff (id_of event) rid).0 same in
    collect_event-receive rid t by_loop event state
      (ap (λ (k : String). lookup k t.requests) q ∙ found)
    ∙ rw same refl

pub collect_finished :
    (rid : String) (events : List Event) (t : RequestTracker) (by_loop : ByLoop) (kept : List Event)
    (bound : ℕ)
    → lookup rid t.requests ≡ some (waiting kept bound true)
    → lookup rid (collect t by_loop events).0.requests ≡ some (waiting kept bound true)
unfolding collect
collect_finished rid [] t by_loop kept bound found = found
collect_finished rid (event ∷ events) t by_loop kept bound found =
    let next =
      elim (Bool-cases (id_of event ≟ rid))
        as (λ _.
          lookup rid (collect_event t by_loop event).0.requests ≡ some (waiting kept bound true)) [
            | inr other ↦ collect_event-other rid t by_loop event other ∙ found
            | inl same ↦ collect_event-own rid t by_loop event (waiting kept bound true) same found
          ] in
    collect_finished rid events (collect_event t by_loop event).0 (collect_event t by_loop event).1
      kept bound next

-- The events of a request without a subscriber, up to its terminal one, come to stand after those
-- that it has, in order, of which the last ones within its bound are kept; it is finished if one of
-- them is terminal.
pub collect-waiting :
    (rid : String) (events : List Event) (t : RequestTracker) (by_loop : ByLoop) (kept : List Event)
    (bound : ℕ)
    → lookup rid t.requests ≡ some (waiting kept bound false)
    → length kept ≤ bound
    → lookup rid (collect t by_loop events).0.requests
      ≡ some (
          waiting
            (keep_last bound (kept ++ events_of rid events))
            bound
            (any_terminal (events_of rid events)))
unfolding collect
collect-waiting rid [] t by_loop kept bound found room =
    found
    ∙ ap (λ (k : List Event). some (waiting k bound false))
        (sym (ap (keep_last bound) (append-nil kept) ∙ keep_last_all bound kept room))
collect-waiting rid (event ∷ events) t by_loop kept bound found room =
    elim (Bool-cases (id_of event ≟ rid)) [
      | inr other ↦ rw other (
          collect-waiting rid events (collect_event t by_loop event).0
            (collect_event t by_loop event).1 kept bound
            (collect_event-other rid t by_loop event other ∙ found) room)
      | inl same ↦
          let own = collect_event-own rid t by_loop event (waiting kept bound false) same found in
          elim (Bool-cases (is_terminal event)) [
            | inl last ↦
                rw (same, last)
                  (collect_finished rid events (collect_event t by_loop event).0
                      (collect_event t by_loop event).1 (keep_last bound (kept ++ event ∷ [])) bound
                      (own ∙ rw last refl)
                    ∙ ap
                        (λ (b : Bool).
                          some (waiting (keep_last bound (kept ++ event ∷ [])) bound (b || false)))
                        (sym last))
            | inr more ↦
                let rest =
                  collect-waiting rid events (collect_event t by_loop event).0
                    (collect_event t by_loop event).1 (keep_last bound (kept ++ event ∷ [])) bound
                    (own ∙ rw more refl) (length-keep_last bound (kept ++ event ∷ [])) in
                rw (same, more)
                  (rest
                    ∙ ap
                        (λ (k : List Event).
                          some (waiting k bound (any_terminal (events_of rid events))))
                        (keep_last-append bound (kept ++ event ∷ []) (events_of rid events)
                          ∙ ap (keep_last bound)
                              (append_assoc kept (event ∷ []) (events_of rid events)))
                    ∙ ap
                        (λ (b : Bool). some (
                          waiting (keep_last bound (kept ++ event ∷ events_of rid events)) bound
                            (b || any_terminal (events_of rid events))))
                        (sym more))
          ]
    ]

-- ===== src/Frontend/Tracking/Restore.antt =====
-- astrai/inference/frontend/tracking.py: the deliveries that a closed loop refuses leave a request
-- without a subscriber as it is.
use Prim.Native.String.{String}
use astr_ai.Base.{
  ℕ, ◌≤◌, ◌≡◌, refl, sym, ap, ◌∙◌, subst, Bool, true, false, List, [], ◌∷◌, ◌++◌, Option, none,
  some, ◌==◌, if◌then◌else◌, length, Bool-cases, inl, inr,
}
use astr_ai.Base.Dict.{string_eq, nat_eq, ◌≟◌, lookup, insert, lookup-insert}
use astr_ai.Engine.Request.{Event}
use astr_ai.Frontend.Tracking.{
  TrackedRequest, RequestTracker, keep_last, extend, with_requests, id_of, is_terminal, Delivery,
  ByLoop, add_event, deliveries_of, hand_over, take_event, collect_event, collect, is_subscriber,
  mem_id, give_back, restore_one, restore, schedule, call,
}
use astr_ai.Frontend.Tracking.Delivery.{
  events_of, any_terminal, receive, waiting, collect_event-other, collect_event-own,
  collect-waiting,
}

-- No delivery is for this request.
abbrev Absent : String → List Delivery → Type 0
Absent rid [] = Unit
Absent rid (delivery ∷ deliveries) = ((delivery.0 ≟ rid) ≡ false) × Absent rid deliveries

abbrev AbsentAll : String → ByLoop → Type 0
AbsentAll rid [] = Unit
AbsentAll rid ((loop, deliveries) ∷ by_loop) = Absent rid deliveries × AbsentAll rid by_loop

add_event-Absent :
    (rid other : String) (queue : ℕ) (event : Event) (deliveries : List Delivery)
    → (other ≟ rid) ≡ false
    → Absent rid deliveries
    → Absent rid (add_event deliveries other queue event)
unfolding add_event
add_event-Absent rid other queue event [] ne absent = (ne, tt)
add_event-Absent rid other queue event ((r, (q, batch)) ∷ []) ne (here, absent) =
    elim (Bool-cases (q == queue)) [
      | inl same ↦ rw same (here, tt)
      | inr differs ↦ rw differs (here, (ne, tt))
    ]
add_event-Absent rid other queue event (first ∷ second ∷ deliveries) ne (here, absent) =
    (here, add_event-Absent rid other queue event (second ∷ deliveries) ne absent)

lookup-Absent :
    (rid : String) (loop : ℕ) (by_loop : ByLoop)
    → AbsentAll rid by_loop
    → Absent rid (deliveries_of (lookup loop by_loop))
unfolding lookup
lookup-Absent rid loop [] absent = tt
lookup-Absent rid loop ((l, deliveries) ∷ by_loop) (here, absent) = elim (Bool-cases (l == loop)) [
  | inl same ↦ rw same here
  | inr differs ↦ rw differs (lookup-Absent rid loop by_loop absent)
]

insert-Absent :
    (rid : String) (loop : ℕ) (deliveries : List Delivery) (by_loop : ByLoop)
    → Absent rid deliveries
    → AbsentAll rid by_loop
    → AbsentAll rid (insert loop deliveries by_loop)
unfolding insert
insert-Absent rid loop deliveries [] new absent = (new, tt)
insert-Absent rid loop deliveries ((l, ds) ∷ by_loop) new (here, absent) =
    elim (Bool-cases (l == loop)) [
      | inl same ↦ rw same (new, absent)
      | inr differs ↦ rw differs (here, insert-Absent rid loop deliveries by_loop new absent)
    ]

hand_over-Absent :
    (rid : String) (t : RequestTracker) (by_loop : ByLoop) (event : Event) (state : TrackedRequest)
    (o : Option (ℕ × ℕ))
    → (id_of event ≟ rid) ≡ false
    → AbsentAll rid by_loop
    → AbsentAll rid (hand_over t by_loop event state o).1
hand_over-Absent rid t by_loop event state none ne absent = absent
hand_over-Absent rid t by_loop event state (some (loop, queue)) ne absent =
    insert-Absent rid loop
      (add_event (deliveries_of (lookup loop by_loop)) (id_of event) queue event) by_loop
      (add_event-Absent rid (id_of event) queue event (deliveries_of (lookup loop by_loop)) ne
        (lookup-Absent rid loop by_loop absent))
      absent

take_event-Absent :
    (rid : String) (t : RequestTracker) (by_loop : ByLoop) (event : Event)
    (o : Option TrackedRequest)
    → (id_of event ≟ rid) ≡ false
    → AbsentAll rid by_loop
    → AbsentAll rid (take_event t by_loop event o).1
take_event-Absent rid t by_loop event none ne absent = absent
take_event-Absent rid t by_loop event (some state) ne absent = elim (Bool-cases state.finished) [
  | inl over ↦
      subst
        (λ (b : Bool).
          AbsentAll rid
            (if b then (t, by_loop) else hand_over t by_loop event state state.subscriber).1)
        (sym over) absent
  | inr live ↦
      subst
        (λ (b : Bool).
          AbsentAll rid
            (if b then (t, by_loop) else hand_over t by_loop event state state.subscriber).1)
        (sym live) (hand_over-Absent rid t by_loop event state state.subscriber ne absent)
]

take_event-waiting :
    (t : RequestTracker) (by_loop : ByLoop) (event : Event) (kept : List Event) (bound : ℕ)
    (over : Bool)
    → (take_event t by_loop event (some (waiting kept bound over))).1 ≡ by_loop
take_event-waiting t by_loop event kept bound true = refl
take_event-waiting t by_loop event kept bound false = refl

-- A request that waits goes on to wait.
receive-waiting :
    (kept : List Event) (bound : ℕ) (over : Bool) (event : Event)
    → (kept' : List Event) × (over' : Bool) × (receive (waiting kept bound over) event
        ≡ waiting kept' bound over')
receive-waiting kept bound true event = (kept, true, refl)
receive-waiting kept bound false event = elim (Bool-cases (is_terminal event)) [
  | inl last ↦ (keep_last bound (kept ++ event ∷ []), true, rw last refl)
  | inr more ↦ (keep_last bound (kept ++ event ∷ []), false, rw more refl)
]

collect-Absent :
    (rid : String) (events : List Event) (t : RequestTracker) (by_loop : ByLoop) (kept : List Event)
    (bound : ℕ) (over : Bool)
    → lookup rid t.requests ≡ some (waiting kept bound over)
    → AbsentAll rid by_loop
    → AbsentAll rid (collect t by_loop events).1
unfolding collect collect_event
collect-Absent rid [] t by_loop kept bound over found absent = absent
collect-Absent rid (event ∷ events) t by_loop kept bound over found absent =
    elim (Bool-cases (id_of event ≟ rid)) [
      | inr other ↦
          collect-Absent rid events (collect_event t by_loop event).0
            (collect_event t by_loop event).1 kept bound over
            (collect_event-other rid t by_loop event other ∙ found)
            (take_event-Absent rid t by_loop event (lookup (id_of event) t.requests) other absent)
      | inl same ↦
          let (kept', over', e) = receive-waiting kept bound over event in
          let q : id_of event ≡ rid = (string_eq.beq_iff (id_of event) rid).0 same in
          let still : (collect_event t by_loop event).1 ≡ by_loop =
            ap (λ (o : Option TrackedRequest). (take_event t by_loop event o).1)
              (ap (λ (k : String). lookup k t.requests) q ∙ found)
            ∙ take_event-waiting t by_loop event kept bound over in
          collect-Absent rid events (collect_event t by_loop event).0
            (collect_event t by_loop event).1 kept' bound over'
            (collect_event-own rid t by_loop event (waiting kept bound over) same found
              ∙ ap (λ (s : TrackedRequest). some s) e)
            (subst (AbsentAll rid) (sym still) absent)
    ]

give_back-other :
    (rid : String) (t : RequestTracker) (loop : ℕ) (restored : List String) (delivery : Delivery)
    (o : Option TrackedRequest)
    → (delivery.0 ≟ rid) ≡ false
    → lookup rid (give_back t loop restored delivery o).0.requests ≡ lookup rid t.requests
give_back-other rid t loop restored delivery none ne = refl
give_back-other rid t loop restored (r, (queue, batch)) (some state) ne =
    elim (Bool-cases (mem_id r restored)) [
      | inl again ↦ rw again (lookup-insert r rid (extend state batch) t.requests ∙ rw ne refl)
      | inr first ↦ elim (Bool-cases (is_subscriber state.subscriber loop queue)) [
        | inl its ↦
            let back =
              with_requests t
                (insert r (extend (record state { subscriber = none }) batch) t.requests) in
            rw first (
              ap
                (λ (b : Bool).
                  let r' : RequestTracker × List String =
                    if b then (back, r ∷ restored) else (t, restored) in
                  lookup rid r'.0.requests)
                its
              ∙ lookup-insert r rid (extend (record state { subscriber = none }) batch) t.requests
              ∙ rw ne refl)
        | inr gone ↦
            let back =
              with_requests t
                (insert r (extend (record state { subscriber = none }) batch) t.requests) in
            rw first (
              ap
                (λ (b : Bool).
                  let r' : RequestTracker × List String =
                    if b then (back, r ∷ restored) else (t, restored) in
                  lookup rid r'.0.requests)
                gone)
      ]
    ]

restore-other :
    (rid : String) (t : RequestTracker) (loop : ℕ) (restored : List String)
    (deliveries : List Delivery)
    → Absent rid deliveries
    → lookup rid (restore t loop restored deliveries).requests ≡ lookup rid t.requests
unfolding restore restore_one
restore-other rid t loop restored [] absent = refl
restore-other rid t loop restored (delivery ∷ deliveries) (here, absent) =
    restore-other rid (restore_one t loop restored delivery).0 loop
      (restore_one t loop restored delivery).1 deliveries absent
    ∙ give_back-other rid t loop restored delivery (lookup delivery.0 t.requests) here

schedule-other :
    (rid : String) (open_loop : ℕ → Bool) (by_loop : ByLoop) (t : RequestTracker)
    → AbsentAll rid by_loop
    → lookup rid (schedule open_loop t by_loop).0.requests ≡ lookup rid t.requests
unfolding schedule
schedule-other rid open_loop [] t absent = refl
schedule-other rid open_loop ((loop, deliveries) ∷ by_loop) t (here, absent) =
    elim (Bool-cases (open_loop loop)) [
      | inl opened ↦ rw opened (schedule-other rid open_loop by_loop t absent)
      | inr closed ↦ rw closed (
          schedule-other rid open_loop by_loop (restore t loop [] deliveries) absent
          ∙ restore-other rid t loop [] deliveries here)
    ]

-- After a call, whatever loops are closed, a request without a subscriber that is not finished has the
-- call's events of it up to its terminal one, in order, after those that it had, of which the last
-- ones within its bound are kept; it is finished if one of them is terminal.
pub call-waiting :
    (open_loop : ℕ → Bool) (rid : String) (events : List Event) (t : RequestTracker)
    (kept : List Event) (bound : ℕ)
    → lookup rid t.requests ≡ some (waiting kept bound false)
    → length kept ≤ bound
    → lookup rid (call open_loop t events).0.requests
      ≡ some (
          waiting
            (keep_last bound (kept ++ events_of rid events))
            bound
            (any_terminal (events_of rid events)))
unfolding call
call-waiting open_loop rid events t kept bound found room =
    schedule-other rid open_loop (collect t [] events).1 (collect t [] events).0
      (collect-Absent rid events t [] kept bound false found tt)
    ∙ collect-waiting rid events t [] kept bound found room

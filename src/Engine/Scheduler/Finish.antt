-- ===== src/Engine/Scheduler/Finish.antt =====
-- astrai/inference/core/scheduler.py: how requests end.
use Prim.Native.String.{String}
use astr_ai.Base.{
  ◌≡◌, refl, ap, Bool, true, false, not, ◌&&◌, if◌then◌else◌, List, [], ◌∷◌, ◌++◌, Option, none,
  some, map, Bool-cases, inl, inr, arith,
}
use mathlib.Core.List.{append-nil}
use astr_ai.Engine.Request.{
  Request, Status, finished, aborted, FinishReason, stop_token, length_cap, cancelled, engine_abort,
  rejected, ErrorReason, Event, request_finished, request_error,
}
use astr_ai.Engine.Scheduler.{Scheduler, finish, abort_loop, abort_all}

-- A call of `finish` on one request: the reason, the error's reason, and whether an error is given.
abbrev pub Ending : Type 0
Ending = FinishReason × Option ErrorReason × Bool

-- Calls of `finish` on one request, one after the other, with the events of all of them.
pub finish_each : Request → List Ending → Request × List Event
finish_each r [] = (r, [])
finish_each r ((reason, why, failed) ∷ calls) =
    let (r', events) = finish r reason why failed in
    let (r'', later) = finish_each r' calls in (r'', events ++ later)

-- A request finishes by its length or a stop token, and without an error.
abbrev pub final_status : FinishReason → Bool → Status
final_status stop_token false = finished
final_status length_cap false = finished
final_status _ _ = aborted

-- The one event that says how a request ended.
abbrev pub terminal_event : FinishReason → Bool → Request → Event
terminal_event reason true r = request_error r.request_id
terminal_event reason false r = request_finished r.request_id reason r.input_tokens r.output_tokens

-- A live request with its end.
abbrev pub closed : FinishReason → Option ErrorReason → Bool → Request → Request
closed reason why failed r = record r {
  status = final_status reason failed;
  finish_reason = some reason;
  error_reason = why;
  terminal_emitted = true;
}

finish-closed :
    (r : Request) (reason : FinishReason) (why : Option ErrorReason) (failed : Bool)
    → r.terminal_emitted ≡ false
    → finish r reason why failed ≡ (
      closed reason why failed r,
      if r.emit_events then terminal_event reason failed r ∷ [] else [],
    )
unfolding finish
finish-closed r stop_token why failed live = ground arith
finish-closed r length_cap why failed live = ground arith
finish-closed r cancelled why failed live = ground arith
finish-closed r engine_abort why failed live = ground arith
finish-closed r rejected why failed live = ground arith

finish-terminal :
    (r : Request) (reason : FinishReason) (why : Option ErrorReason) (failed : Bool)
    → r.terminal_emitted ≡ true
    → finish r reason why failed ≡ (r, [])
unfolding finish
finish-terminal r reason why failed h = rw h refl

finish_each-terminal :
    (r : Request) (calls : List Ending) → r.terminal_emitted ≡ true → finish_each r calls ≡ (r, [])
unfolding finish_each
finish_each-terminal r [] h = refl
finish_each-terminal r ((reason, why, failed) ∷ calls) h =
    rw (finish-terminal r reason why failed h, finish_each-terminal r calls h) refl

-- However often and for whatever reasons `finish` is called on a live request, the first call alone
-- counts: its reason, error and status stay, the rest of the request is as it was, and all calls
-- together give exactly one event, the first call's, where the request announces its events, and none
-- where it does not.
pub finish_each-first :
    (r : Request) (reason : FinishReason) (why : Option ErrorReason) (failed : Bool)
    (calls : List Ending)
    → r.terminal_emitted ≡ false
    → finish_each r ((reason, why, failed) ∷ calls) ≡ (
      closed reason why failed r,
      if r.emit_events then terminal_event reason failed r ∷ [] else [],
    )
unfolding finish_each
finish_each-first r reason why failed calls live =
    rw
      (
        finish-closed r reason why failed live,
        finish_each-terminal (closed reason why failed r) calls refl,
      )
      (ap (λ (es : List Event). (closed reason why failed r, es)) (append-nil _))

-- The requests after `abort_all`, by their ids: the live ones are closed.
abbrev pub all_closed : FinishReason → Bool → List (String × Request) → List (String × Request)
all_closed reason failed [] = []
all_closed reason failed ((rid, r) ∷ states) =
    (rid, if r.terminal_emitted then r else closed reason none failed r)
    ∷ all_closed reason failed states

-- The live requests that announce their events, in the order of the dictionary.
abbrev pub announced : List (String × Request) → List Request
announced [] = []
announced ((rid, r) ∷ states) =
    let rest = announced states in
    if not r.terminal_emitted && r.emit_events then r ∷ rest else rest

abort_loop-all_closed :
    (states : List (String × Request)) (reason : FinishReason) (failed : Bool)
    → abort_loop states reason failed
      ≡ (all_closed reason failed states, map (terminal_event reason failed) (announced states))
unfolding abort_loop
abort_loop-all_closed [] reason failed = refl
abort_loop-all_closed ((rid, r) ∷ states) reason failed =
    let ih = abort_loop-all_closed states reason failed in
    elim (Bool-cases r.terminal_emitted) [
      | inl over ↦ rw (finish-terminal r reason none failed over, ih, over) refl
      | inr live ↦ elim (Bool-cases r.emit_events) [
        | inl loud ↦ rw (finish-closed r reason none failed live, ih, live, loud) refl
        | inr quiet ↦ rw (finish-closed r reason none failed live, ih, live, quiet) refl
      ]
    ]

all_closed-all_closed :
    (states : List (String × Request)) (reason reason' : FinishReason) (failed failed' : Bool)
    → all_closed reason' failed' (all_closed reason failed states) ≡ all_closed reason failed states
all_closed-all_closed [] reason reason' failed failed' = refl
all_closed-all_closed ((rid, r) ∷ states) reason reason' failed failed' =
    let ih = all_closed-all_closed states reason reason' failed failed' in
    elim (Bool-cases r.terminal_emitted) [
      | inl over ↦ rw (over, ih) refl
      | inr live ↦ rw (live, ih) refl
    ]

announced-all_closed :
    (states : List (String × Request)) (reason : FinishReason) (failed : Bool)
    → announced (all_closed reason failed states) ≡ []
announced-all_closed [] reason failed = refl
announced-all_closed ((rid, r) ∷ states) reason failed =
    let ih = announced-all_closed states reason failed in
    elim (Bool-cases r.terminal_emitted) [ inl over ↦ rw over ih | inr live ↦ rw live ih ]

-- `abort_all` closes every live request with its reason and keeps the others as they are, under the
-- same ids in the same order; it emits after the events so far exactly one terminal event for each
-- live request that announces its events, in their order; the rest of the scheduler is untouched. A
-- second `abort_all`, for whatever reason, changes nothing and emits nothing.
pub abort_all-all_closed :
    (s : Scheduler) (reason reason' : FinishReason) (failed failed' : Bool)
    → (abort_all s reason failed ≡ record s {
      states = all_closed reason failed s.states;
      events = s.events ++ map (terminal_event reason failed) (announced s.states);
    })
      × (abort_all (abort_all s reason failed) reason' failed' ≡ abort_all s reason failed)
unfolding abort_all
abort_all-all_closed s reason reason' failed failed' =
    let states = all_closed reason failed s.states in
    (
      rw (abort_loop-all_closed s.states reason failed) refl,
      rw
          (
            abort_loop-all_closed s.states reason failed,
            abort_loop-all_closed states reason' failed',
            all_closed-all_closed s.states reason reason' failed failed',
            announced-all_closed s.states reason failed,
            append-nil (s.events ++ map (terminal_event reason failed) (announced s.states)),
          )
          refl,
    )

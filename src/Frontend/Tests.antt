-- ===== src/Frontend/Tests.antt =====
-- Runs of astrai/inference/frontend on concrete inputs.
use astr_ai.Base.{
  ℕ, zero, suc, ◌+◌, ◌≡◌, refl, false, List, [], ◌∷◌, ◌++◌, Option, none, some, if◌then◌else◌,
  arith,
}
use astr_ai.Base.Dict.{string_eq, lookup, insert}
use astr_ai.Engine.Request.{Event, token_delta, request_finished, stop_token, length_cap}
use astr_ai.Frontend.StopChecker.{Text, nonempty, find, scan, release, flush, init, push}
use astr_ai.Frontend.StopChecker.Scan.{Free, Listed}
use astr_ai.Frontend.StopChecker.Stream.{concat, push_all, push_all-passes, push_all-stops}
use astr_ai.Frontend.Output.{OutputProcessor, new}
use astr_ai.Frontend.Output.Stream.{shown, pieces, events, fold, fold-push_all}
use astr_ai.Frontend.Tracking.{RequestTracker, register, call, keep_last}
use astr_ai.Frontend.Tracking.Delivery.{waiting, events_of, any_terminal}
use astr_ai.Frontend.Tracking.Restore.{call-waiting}

abbrev sequences : List Text
sequences = (7 ∷ 8 ∷ []) ∷ [] ∷ []

abbrev passing : List Text
passing = (1 ∷ 7 ∷ []) ∷ (9 ∷ []) ∷ (8 ∷ []) ∷ []

abbrev stopping : List Text
stopping = (1 ∷ 7 ∷ []) ∷ (8 ∷ 2 ∷ []) ∷ []

push_all-passes_example :
    ((push_all (init sequences) passing).1 ++ (push_all (init sequences) passing).0.buffer
      ≡ concat passing)
    × Free (nonempty sequences) (concat passing)
unfolding push_all init push scan find release flush
push_all-passes_example = push_all-passes sequences passing refl

push_all-stops_example :
    (seq : Text) × (rest : Text) × ((push_all (init sequences) stopping).0.matched ≡ some seq)
    × Listed seq (nonempty sequences)
    × (concat stopping ≡ (push_all (init sequences) stopping).1 ++ (seq ++ rest))
    × Free (nonempty sequences) (push_all (init sequences) stopping).1
unfolding push_all init push scan find release flush
push_all-stops_example = push_all-stops sequences stopping refl

-- A decoder that gives no text for the token 0, and counts.
abbrev decode : ℕ → ℕ → ℕ × Option Text
decode n zero = (n + 1, none)
decode n (suc token) = (n + 1, some (suc token ∷ []))

abbrev str_of : ℕ → Text
str_of token = 48 ∷ []

abbrev processor : OutputProcessor ℕ
processor = new "a" 0 sequences 3

abbrev response : List Event
response = events decode str_of "a" (1 ∷ 0 ∷ 7 ∷ 8 ∷ 5 ∷ []) 3 length_cap

abbrev response_pieces : List Text
response_pieces = pieces decode str_of 0 (1 ∷ 0 ∷ 7 ∷ 8 ∷ 5 ∷ [])

fold-push_all_example :
    ((fold decode str_of processor response).1 ≡ shown (push_all processor.stop response_pieces))
    × ((fold decode str_of processor response).0.state.finish_reason
        ≡ some (if (push_all processor.stop response_pieces).2 then stop_token else length_cap))
    × ((fold decode str_of processor response).0.state.stop_sequence
        ≡ (push_all processor.stop response_pieces).0.matched)
fold-push_all_example =
    fold-push_all decode str_of "a" (1 ∷ 0 ∷ 7 ∷ 8 ∷ 5 ∷ []) 3 length_cap processor refl

abbrev tracker : RequestTracker
tracker = register (record { requests = []; event_capacity = 2 }) "a" none

abbrev some_events : List Event
some_events =
    token_delta "a" 5 1
    ∷ token_delta "b" 6 1
    ∷ token_delta "a" 7 2
    ∷ request_finished "a" length_cap 3 2
    ∷ token_delta "a" 8 3
    ∷ []

call-waiting_example :
    lookup "a" (call (λ (loop : ℕ). false) tracker some_events).0.requests
    ≡ some (
        waiting
          (keep_last 2 ([] ++ events_of "a" some_events))
          2
          (any_terminal (events_of "a" some_events)))
unfolding register lookup insert
call-waiting_example =
    call-waiting (λ (loop : ℕ). false) "a" some_events tracker [] 2 refl (omega arith)

-- ===== src/Engine/Tests.antt =====
-- Runs of the scheduler of astrai/inference/core on concrete inputs.
use astr_ai.Base.{
  ℕ, ◌+◌, ◌≤◌, ◌<◌, ◌≡◌, refl, true, false, [], ◌∷◌, Option, none, some, arith, Result, ok,
}
use astr_ai.Cache.Manager
use astr_ai.Cache.BlockPool.{BlockPool}
use astr_ai.Cache.ReqPool
use astr_ai.Cache.AllocationStrategy.{contiguous}
use astr_ai.Base.Dict.{lookup}
use astr_ai.Engine.Request.{
  Request, SamplingParams, new_request, ExecutionRequest, prefill, RequestOutput, ModelRunnerOutput,
  running, stop_token, cancelled, engine_abort, request_finished, request_error, execution,
  input_token, stale_execution,
}
use astr_ai.Engine.Planner.{plan_group}
use astr_ai.Engine.Planner.Budget.{total, Windows, plan_group-Windows}
use astr_ai.Engine.Scheduler.{Scheduler, abort_all}
use astr_ai.Engine.Scheduler.Finish.{closed, finish_each, finish_each-first, abort_all-all_closed}
use astr_ai.Engine.Results.{update_from_output}
use astr_ai.Engine.Results.Rows.{AllUnplanned, update_from_output-unplanned}
use astr_ai.Engine.Versioning.{Guard, update_weights, apply_weight_update, validate, target, commit}
use astr_ai.Engine.Versioning

abbrev greedy : SamplingParams
greedy = record { has_frequency_penalty = false; params = 0 }

abbrev hello : Request
hello = record (new_request "hello" 1 (10 ∷ 11 ∷ 12 ∷ []) (some 4) none greedy) {
  status = running;
  input_tokens = 3;
}

abbrev window : ExecutionRequest
window = record {
  identity = ("hello", 1);
  prompt_ids = 10 ∷ 11 ∷ 12 ∷ [];
  input_token_id = 12;
  position = 0;
  num_tokens = 2;
  phase = prefill;
  sampling = greedy;
  output_ids = [];
  cont_len = 0;
}

window_planned : plan_group 0 (some 2) (hello ∷ hello ∷ []) ≡ ok (window ∷ [])
unfolding plan_group execution input_token
window_planned = refl

plan_group-Windows_example : (total (window ∷ []) ≤ 2) × Windows 0 (window ∷ [])
plan_group-Windows_example =
    plan_group-Windows 0 2 (hello ∷ hello ∷ []) (window ∷ []) window_planned

-- The callbacks count their calls.
abbrev count_call : ℕ → Result ℕ
count_call n = ok (n + 1)

abbrev guard : Guard ℕ
guard = record { version = 3; world = 0 }

abbrev published : Guard ℕ
published = record { version = 5; world = 2 }

acknowledged : update_weights count_call count_call guard 5 ≡ ok published
unfolding update_weights validate commit
acknowledged = refl

update_weights-version_example : (published.version ≡ 5) × (guard.version ≤ published.version)
update_weights-version_example =
    Versioning.update_weights-version count_call count_call guard 5 published acknowledged

abbrev given : Option ℕ
given = some 5

mutated :
    apply_weight_update count_call count_call guard given (λ v w. ok (w, v)) ≡ ok (published, 5)
unfolding apply_weight_update target validate commit
mutated = refl

apply_weight_update-version_example :
    (guard.version < published.version)
    × (given ≡ none → published.version ≡ guard.version + 1)
    × ((n : ℕ) → given ≡ some n → published.version ≡ n)
apply_weight_update-version_example =
    Versioning.apply_weight_update-version count_call count_call guard given (λ v w. ok (w, v))
      published 5 mutated

finish_each-first_example :
    finish_each hello (
      (engine_abort, some stale_execution, true)
      ∷ (cancelled, none, false)
      ∷ (stop_token, none, false)
      ∷ [])
    ≡ (closed engine_abort (some stale_execution) true hello, request_error "hello" ∷ [])
finish_each-first_example =
    finish_each-first hello engine_abort (some stale_execution) true
      ((cancelled, none, false) ∷ (stop_token, none, false) ∷ []) refl

abbrev pool : BlockPool
pool = record {
  page_size = 1;
  max_batch_size = 2;
  max_seq_len = 8;
  n_tokens = 16;
  strategy = contiguous (ReqPool.init 2 8);
}

-- One request runs, and its window of the first step is outstanding under the version 3.
abbrev scheduler : Scheduler
scheduler = record {
  max_seq_len = 8;
  max_batch_size = 2;
  kv = Manager.init pool;
  token_budget = none;
  stop_ids = [];
  waiting = [];
  running = "hello" ∷ [];
  states = ("hello", hello) ∷ [];
  step_id = 1;
  policy_version = 3;
  planned = ((1, ("hello", 1)), (3, window)) ∷ [];
  pending_order = (("hello", 1), 1 ∷ []) ∷ [];
  ready = [];
  total_requests = 1;
  total_tokens = 0;
  cancelled_total = 0;
  events = [];
}

abort_all-all_closed_example :
    (abort_all scheduler engine_abort false ≡ record scheduler {
      states = ("hello", closed engine_abort none false hello) ∷ [];
      events = request_finished "hello" engine_abort 3 0 ∷ [];
    })
    × (abort_all (abort_all scheduler engine_abort false) cancelled true
        ≡ abort_all scheduler engine_abort false)
abort_all-all_closed_example = abort_all-all_closed scheduler engine_abort cancelled false true

-- A row of that step that was computed with other weights.
abbrev stale_row : RequestOutput
stale_row = record {
  identity = ("hello", 1);
  materialized_end = 2;
  token_id = none;
  logprob = none;
}

abbrev stale_output : ModelRunnerOutput
stale_output = record { step_id = 1; policy_version = 2; results = stale_row ∷ [] }

stale_output_unplanned : AllUnplanned scheduler 1 2 (stale_row ∷ [])
unfolding AllUnplanned lookup
stale_output_unplanned = ((λ v entry e. ground arith), tt)

update_from_output-unplanned_example :
    update_from_output scheduler stale_output none ≡ ok (scheduler, [])
update_from_output-unplanned_example =
    update_from_output-unplanned scheduler stale_output none stale_output_unplanned

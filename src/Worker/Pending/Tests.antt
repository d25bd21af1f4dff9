-- ===== src/Worker/Pending/Tests.antt =====
-- Runs of astrai/inference/worker/pending.py on concrete inputs.
use astr_ai.Base.{ℕ, ◌≡◌, refl, true, false, List, [], ◌∷◌, none, some}
use astr_ai.Engine.Request.{ExecutionRequest, decode}
use astr_ai.Worker.Pending.{ResultRing, PendingExecution, new_ring, claim, find_slot, post, commit}
use astr_ai.Worker.Pending.Slots.{posts, passes}
use astr_ai.Worker.Pending.Commit.{output_of, post-commit}

abbrev planned_request : ExecutionRequest
planned_request = record {
  identity = ("a", 1);
  prompt_ids = 4 ∷ 5 ∷ [];
  input_token_id = 5;
  position = 2;
  num_tokens = 1;
  phase = decode;
  sampling = record { has_frequency_penalty = false; params = 0 };
  output_ids = [];
  cont_len = 0;
}

abbrev step : List ℕ → PendingExecution
step tokens = record {
  snapshot = record {
    step_id = 7;
    policy_version = 0;
    requests = planned_request ∷ [];
    return_logprobs = false;
  };
  tokens = some tokens;
  logprobs = none;
  sampled_identities = ("a", 1) ∷ [];
  host = none;
  payload = none;
}

abbrev taken : PendingExecution
taken = record (step (9 ∷ [])) {
  host = some (record { event = 0; count = 1; has_logprobs = false });
}

abbrev ring_after : ResultRing
ring_after = record (new_ring true 2) {
  slots =
      record { tokens = 9 ∷ 0 ∷ []; logprobs = 0 ∷ 0 ∷ []; event = 0; in_use = true }
      ∷ record { tokens = 0 ∷ 0 ∷ []; logprobs = 0 ∷ 0 ∷ []; event = 1; in_use = false }
      ∷ [];
}

post-commit_example :
    output_of
      (commit (passes ring_after (posts (step (3 ∷ [])) ∷ posts (step (4 ∷ [])) ∷ [])) taken)
    ≡ output_of (commit (new_ring true 2) (step (9 ∷ [])))
unfolding post claim find_slot
post-commit_example =
    post-commit (new_ring true 2) ring_after (step (9 ∷ [])) taken (9 ∷ [])
      (posts (step (3 ∷ [])) ∷ posts (step (4 ∷ [])) ∷ []) refl tt refl (refl, (refl, tt)) refl tt

-- ===== src/Engine/Results/Rows.antt =====
-- astrai/inference/core/scheduler.py: rows of the worker that nothing waits for.
use mathlib.Core.List.{append-nil}
use astr_ai.Base.{
  ℕ, ◌≡◌, ◌==◌, refl, false, List, [], ◌∷◌, Option, some, inl, inr, Option-cases, ok,
}
use astr_ai.Base.Dict.{lookup, nat_eq, string_eq, pair_eq}
use astr_ai.Engine.Request.{ExecutionRequest, RequestOutput, ModelRunnerOutput, Identity}
use astr_ai.Engine.Scheduler.{Scheduler}
use astr_ai.Engine.Results.{gather, drain_each, update_from_output}

-- No entry that is outstanding for the step has the row's identity and the policy version.
abbrev Unplanned : Scheduler → ℕ → ℕ → RequestOutput → Type 0
Unplanned s step version row =
    (planned_version : ℕ) (entry : ExecutionRequest)
    → lookup (step, row.identity) s.planned ≡ some (planned_version, entry)
    → (version == planned_version) ≡ false

-- Each row is unplanned.
unfoldable pub AllUnplanned : Scheduler → ℕ → ℕ → List RequestOutput → Type 0
AllUnplanned s step version [] = Unit {0}
AllUnplanned s step version (row ∷ rows) =
    Unplanned s step version row × AllUnplanned s step version rows

gather_unplanned :
    (s : Scheduler) (step version : ℕ) (rows : List RequestOutput) (seen : List Identity)
    → AllUnplanned s step version rows
    → gather s step version rows seen ≡ (s, seen)
unfolding gather AllUnplanned
gather_unplanned s step version [] seen h = refl
gather_unplanned s step version (row ∷ rows) seen (h, hs) =
    elim (Option-cases (lookup (step, row.identity) s.planned)) [
      | inl e ↦ rw (e, gather, gather_unplanned s step version rows seen hs)
      | inr ((v, entry), e) ↦
          rw (e, gather, h v entry e, gather_unplanned s step version rows seen hs)
    ]

-- An output of which no row is planned for its step, its identity and its policy version, among them
-- a row that was applied before, leaves the scheduler as it is and gives no request a token.
pub update_from_output-unplanned :
    (s : Scheduler) (output : ModelRunnerOutput) (policy_version : Option ℕ)
    → AllUnplanned s output.step_id output.policy_version output.results
    → update_from_output s output policy_version ≡ ok (s, [])
unfolding update_from_output drain_each
update_from_output-unplanned s output policy_version h = rw (
  gather_unplanned s output.step_id output.policy_version output.results [] h,
  append-nil s.events,
)

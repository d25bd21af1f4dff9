-- ===== src/Engine/Planner/Budget.antt =====
-- astrai/inference/core/planner.py: what a group of prefill windows asks of the worker.
use astr_ai.Base.{
  ℕ, ◌+◌, ◌-◌, ◌≤◌, ◌<◌, min, ◌≡◌, inl, inr, List, [], ◌∷◌, some, length, ok, arith, Result-cases,
}
use astr_ai.Engine.Request.{Request, ExecutionRequest, prefill, execution, materialized_end}
use astr_ai.Engine.Planner.{plan_group}

-- The tokens that the entries compute.
abbrev pub total : List ExecutionRequest → ℕ
total [] = 0
total (e ∷ es) = e.num_tokens + total es

-- Each entry is a nonempty window of its prompt that begins at `start`.
unfoldable pub Windows : ℕ → List ExecutionRequest → Type 0
Windows start [] = Unit {0}
Windows start (e ∷ es) =
    (e.position ≡ start)
    × (0 < e.num_tokens)
    × (materialized_end e ≤ length e.prompt_ids)
    × Windows start es

execution_fields :
    (r : Request) (start count : ℕ) (e : ExecutionRequest)
    → execution r prefill start count ≡ ok e
    → (e.position ≡ start) × (e.num_tokens ≡ count) × (e.prompt_ids ≡ r.prompt_ids)
unfolding execution
execution_fields r start count e h = ground arith

-- The windows of one group under a budget: together they compute no more tokens than the budget, and
-- each is nonempty, begins at the start of the group and ends within its prompt.
pub plan_group-Windows :
    (start budget : ℕ) (group : List Request) (entries : List ExecutionRequest)
    → plan_group start (some budget) group ≡ ok entries
    → (total entries ≤ budget) × Windows start entries
unfolding plan_group Windows
plan_group-Windows start budget [] entries h = ground arith
plan_group-Windows start budget (r ∷ group) entries h =
    let count = min (length r.prompt_ids - start) budget in
    elim (Result-cases (execution r prefill start count)) [
      | inr (x, e) ↦ ground (arith, e)
      | inl (entry, e) ↦ elim (Result-cases (plan_group start (some (budget - count)) group)) [
        | inr (x, p) ↦ ground (arith, e, p)
        | inl (rest, p) ↦ ground (
          arith,
          e,
          p,
          plan_group-Windows start (budget - count) group rest p,
          execution_fields r start count entry e,
        )
      ]
    ]

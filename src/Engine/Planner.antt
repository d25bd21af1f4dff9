-- ===== src/Engine/Planner.antt =====
-- astrai/inference/core/planner.py: the prefill windows of a step under the token budget, and the
-- slots of its decode positions. A request that has outputs has a prompt.
pub mod Budget
use astr_ai.Base.{
  ℕ, zero, suc, ◌+◌, ◌-◌, min, max, Bool, true, false, not, List, [], ◌∷◌, ◌++◌, Option, none, some,
  map, ltb, leb, ◌==◌, if◌then◌else◌, length, is_nil, Result, ok, err, index_error, value_error,
  ◌>>=◌,
}
use astr_ai.Base.Dict.{nat_eq, lookup, insert}
use astr_ai.Cache.Manager
use astr_ai.Cache.Manager.{Manager}
use astr_ai.Engine.Request.{
  Request, ExecutionRequest, prefill, decode, execution, next_pos, prefill_complete,
}

-- `__init__`: a budget is positive or absent.
unfoldable pub check_budget : Option ℕ → Result (Option ℕ)
check_budget none = ok none
check_budget (some b) = if leb b 0 then err value_error else ok (some b)

-- Where the next window of a prefill begins; the -1 of an empty prompt is `none`.
unfoldable pub window_start : Manager → Request → Option ℕ
window_start m r =
    if is_nil r.prompt_ids
    then none
    else some (
        min (max r.num_computed_tokens (Manager.cached_tokens m r.request_id))
          (length r.prompt_ids - 1))

abbrev pub same_start : Option ℕ → Option ℕ → Bool
same_start none none = true
same_start none (some b) = false
same_start (some a) none = false
same_start (some a) (some b) = a == b

-- `groups.setdefault(start, []).append(request)`.
abbrev pub add_to_group :
    Option ℕ → Request → List (Option ℕ × List Request) → List (Option ℕ × List Request)
add_to_group start r [] = (start, r ∷ []) ∷ []
add_to_group start r ((s, group) ∷ groups) =
    if same_start s start
    then (s, group ++ r ∷ []) ∷ groups
    else (s, group) ∷ add_to_group start r groups

-- The first loop of `plan`: the prefills by their start, and the decodes.
unfoldable pub sort_requests :
    Manager
    → List Request
    → List (Option ℕ × List Request)
    → List Request
    → List (Option ℕ × List Request) × List Request
unfolding window_start
sort_requests m [] groups decodes = (groups, decodes)
sort_requests m (r ∷ rs) groups decodes =
    sort_requests m rs
      (if prefill_complete r then groups else add_to_group (window_start m r) r groups)
      (if prefill_complete r then decodes ++ r ∷ [] else decodes)

abbrev pub window_size : Option ℕ → ℕ → ℕ
window_size none need = need
window_size (some remaining) need = min need remaining

abbrev pub left_over : Option ℕ → ℕ → Option ℕ
left_over none count = none
left_over (some remaining) count = some (remaining - count)

-- The windows of one group; the first that would be empty ends it.
unfoldable pub plan_group : ℕ → Option ℕ → List Request → Result (List ExecutionRequest)
plan_group start remaining [] = ok []
plan_group start remaining (r ∷ group) =
    let count = window_size remaining (length r.prompt_ids - start) in
    let rest = plan_group start (left_over remaining count) group in
    if leb count 0
    then ok []
    else (do entry ← execution r prefill start count; entries ← rest; ok (entry ∷ entries))

-- The windows of the requests whose prompt is empty: the first, of one token from -1 on, has no token to
-- start from, which raises.
abbrev pub plan_empty : Option ℕ → List Request → Result (List ExecutionRequest)
plan_empty remaining [] = ok []
plan_empty remaining (r ∷ group) =
    if leb (window_size remaining 1) 0 then ok [] else err index_error

unfoldable pub plan_groups :
    Option ℕ → List (Option ℕ × List Request) → Result (List ExecutionRequest)
unfolding plan_group
plan_groups budget [] = ok []
plan_groups budget ((start, group) ∷ groups) = do
  entries ← elim start [ none ↦ plan_empty budget group | some n ↦ plan_group n budget group ]
  rest ← plan_groups budget groups
  ok (entries ++ rest)

-- `zip(decode, extended)`: the entries that got a slot, and the requests that did not.
unfoldable pub split_decodes :
    List Request → List Bool → Result (List ExecutionRequest × List Request)
split_decodes [] extended = ok ([], [])
split_decodes (r ∷ rs) [] = ok ([], [])
split_decodes (r ∷ rs) (done ∷ extended) = do
  (entries, failed) ← split_decodes rs extended
  if done
      then (do entry ← execution r decode (next_pos r) 1; ok (entry ∷ entries, failed))
      else ok (entries, r ∷ failed)

unfoldable pub plan_decodes :
    Manager → List Request → Result (Manager × List ExecutionRequest × List Request)
unfolding split_decodes
plan_decodes m decodes = if is_nil decodes then ok (m, [], []) else (do
  (m', extended) ←
      Manager.extend_slots_batch m (map (λ r. r.request_id) decodes) (map (λ r. next_pos r) decodes)
  (entries, failed) ← split_decodes decodes extended
  ok (m', entries, failed))

unfoldable pub plan :
    Manager → Option ℕ → List Request → Result (Manager × List ExecutionRequest × List Request)
unfolding sort_requests plan_groups plan_decodes
plan m budget requests = do
  let (groups, decodes) = sort_requests m requests [] []
  entries ← plan_groups budget groups
  (m', decoded, failed) ← plan_decodes m decodes
  ok (m', entries ++ decoded, failed)

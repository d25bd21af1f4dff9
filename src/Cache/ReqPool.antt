-- ===== src/Cache/ReqPool.antt =====
-- astrai/model/kv_cache.py, class `ReqToTokenPool`: the table from a request's row and a position
-- to a slot of the KV storage. A write outside of the table raises, as the tensor's does.
use astr_ai.Base.{
  ℕ, zero, suc, ◌+◌, ◌&&◌, List, [], ◌∷◌, ◌++◌, Option, none, some, ltb, leb, if◌then◌else◌, length,
  set, take, drop, replicate, Result, ok, err, index_error, runtime_error,
}
use astr_ai.Cache.Allocator.{modify}

pub record ReqPool : Type 0 where
  pub size : ℕ
  pub max_context_len : ℕ
  pub req_to_token : List (List ℕ)
  pub free_slots : List ℕ

-- `range(start, start + n)`.
abbrev pub range_from : ℕ → ℕ → List ℕ
range_from start zero = []
range_from start (suc n) = start ∷ range_from (start + 1) n

pub init : ℕ → ℕ → ReqPool
init size max_context_len = record {
  size = size;
  max_context_len = max_context_len;
  req_to_token = replicate size (replicate max_context_len 0);
  free_slots = range_from 0 size;
}

unfoldable pub alloc : ReqPool → ℕ → ReqPool × Option (List ℕ)
alloc p num_reqs =
    if ltb (length p.free_slots) num_reqs
    then (p, none)
    else (record p { free_slots = drop num_reqs p.free_slots }, some (take num_reqs p.free_slots))

unfoldable pub free : ReqPool → List ℕ → ReqPool
free p req_indices = record p { free_slots = p.free_slots ++ req_indices }

-- `req_to_token[req, pos] = slot`.
unfoldable pub put : ReqPool → ℕ → ℕ → ℕ → Result ReqPool
put p req pos slot =
    if ltb req p.size && ltb pos p.max_context_len
    then ok (record p { req_to_token = modify p.req_to_token req (λ row. set row pos slot) })
    else err index_error

-- `row[start : start + len(vals)] = vals`.
abbrev pub overwrite : List ℕ → ℕ → List ℕ → List ℕ
overwrite row start vals = take start row ++ vals ++ drop (start + length vals) row

-- `req_to_token[req, start : start + len(vals)] = vals`.
unfoldable pub put_row : ReqPool → ℕ → ℕ → List ℕ → Result ReqPool
put_row p req start vals =
    if ltb req p.size
    then (if leb (start + length vals) p.max_context_len
        then ok (record p {
          req_to_token = modify p.req_to_token req (λ row. overwrite row start vals);
        })
        else err runtime_error)
    else err index_error

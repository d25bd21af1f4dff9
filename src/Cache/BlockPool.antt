-- ===== src/Cache/BlockPool.antt =====
-- astrai/inference/core/cache/pool.py, class `BlockPool`: the choice of a strategy, and the index
-- metadata of a batch. The K/V storage and the kernels' result buffers hold no metadata and are left
-- out; tensors of indices are lists. A buffer of the workspace is the part of it that the last bind
-- wrote: `inc` counts up from 0 (astrai/inference/worker/workspace.py).

use astr_ai.Base.{
  ℕ, zero, suc, ◌+◌, ◌-◌, ◌*◌, ◌/◌, ◌^◌, max, Bool, true, false, List, [], ◌∷◌, ◌++◌, Option, none,
  some, map, ltb, leb, ◌==◌, is_nil, if◌then◌else◌, length, get_elem?, take, drop, replicate,
  Result, ok, err, index_error, value_error, runtime_error, ◌>>=◌, ◌>>◌, raise_if,
}
use astr_ai.Cache.Allocator
use astr_ai.Cache.Radix
use astr_ai.Cache.ReqPool
use astr_ai.Cache.ReqPool.{ReqPool, range_from}
use astr_ai.Cache.AllocationStrategy.{Strategy, contiguous, paged, req_pool}

pub record BlockPool : Type 0 where
  pub page_size : ℕ
  pub max_batch_size : ℕ
  pub max_seq_len : ℕ
  pub n_tokens : ℕ
  pub strategy : Strategy

-- `torch.iinfo(torch.int32).max`.
abbrev pub int32_max : ℕ
int32_max = 2 ^ 31 - 1

-- `for i in range(max_batch_size): row i = arange(i * max_seq_len, (i + 1) * max_seq_len)`.
unfoldable pub contiguous_rows : ℕ → ℕ → ℕ → List (List ℕ)
contiguous_rows zero i max_seq_len = []
contiguous_rows (suc n) i max_seq_len =
    range_from (i * max_seq_len) max_seq_len ∷ contiguous_rows n (i + 1) max_seq_len

unfoldable pub init : ℕ → ℕ → ℕ → Option ℕ → Result BlockPool
unfolding contiguous_rows
init max_batch_size max_seq_len page_size n_tokens = do
  let total : ℕ = elim n_tokens [ none ↦ max_batch_size * max_seq_len | some n ↦ n ]
  raise_if (ltb int32_max total) value_error
  let pool = ReqPool.init max_batch_size max_seq_len
  ok (record {
    page_size = page_size;
    max_batch_size = max_batch_size;
    max_seq_len = max_seq_len;
    n_tokens = total;
    strategy = elim n_tokens [
      | none ↦
          contiguous (record pool { req_to_token = contiguous_rows max_batch_size 0 max_seq_len })
      | some n ↦ paged (record {
        alloc = Allocator.init (total / page_size);
        prefix = if ltb 1 page_size then some (Radix.init page_size) else none;
        page_size = page_size;
        req_pool = pool;
      })
    ];
  })

pub record Workspace : Type 0 where
  pub req_pool_indices : List ℕ
  pub seq_lens : List ℕ
  pub kv_indptr : List ℕ

-- `cumsum`, from `total` on.
abbrev pub cumsum : ℕ → List ℕ → List ℕ
cumsum total [] = []
cumsum total (n ∷ ns) = (total + n) ∷ cumsum (total + n) ns

-- A tensor sum, entry by entry.
abbrev pub add_each : List ℕ → List ℕ → List ℕ
add_each [] ys = []
add_each (x ∷ xs) [] = []
add_each (x ∷ xs) (y ∷ ys) = (x + y) ∷ add_each xs ys

-- The first part of `bind_tasks`: what the workspace holds, by counting on or from scratch.
unfoldable pub refresh : Workspace → List ℕ → List ℕ → Bool → Workspace
refresh w req_indices seq_lens incremental =
    if incremental
    then record w {
      seq_lens = map (λ n. n + 1) w.seq_lens;
      kv_indptr = add_each w.kv_indptr (range_from 0 (length req_indices + 1));
    }
    else record {
      req_pool_indices = req_indices;
      seq_lens = seq_lens;
      kv_indptr = 0 ∷ cumsum 0 seq_lens;
    }

-- `req_to_token[req, start:stop]`, one request after the other; `torch.cat` of no rows raises, which
-- `bind_prefill` tests.
unfoldable pub gather : List (List ℕ) → List ℕ → ℕ → List ℕ → Result (List ℕ)
gather rows [] start seq_lens = ok []
gather rows (req ∷ reqs) start [] = err index_error
gather rows (req ∷ reqs) start (stop ∷ stops) = elim (get_elem? rows req) [
  | none ↦ err index_error
  | some row ↦ do
    rest ← gather rows reqs start stops
    ok (take (stop - start) (drop start row) ++ rest)
]

-- The column `n - 1` of a row, the last one where `n` is 0.
abbrev pub column : List ℕ → ℕ → Option ℕ
column row n = get_elem? row (if n == 0 then length row - 1 else n - 1)

-- `req_to_token[req, seq_len - 1]`, one entry for each request.
unfoldable pub gather_last : List (List ℕ) → List ℕ → List ℕ → Result (List ℕ)
gather_last rows [] seq_lens = ok []
gather_last rows (req ∷ reqs) [] = err index_error
gather_last rows (req ∷ reqs) (n ∷ ns) = elim (get_elem? rows req) [
  | none ↦ err index_error
  | some row ↦ elim (column row n) [
    | none ↦ err index_error
    | some slot ↦ do rest ← gather_last rows reqs ns; ok (slot ∷ rest)
  ]
]

-- `Q_TILE_ROWS`.
abbrev pub q_tile_rows : ℕ
q_tile_rows = 64

abbrev pub n_tiles : ℕ → ℕ
n_tiles q_len = (q_len + q_tile_rows - 1) / q_tile_rows

-- The tiles of the queries: for each the request, counted from `batch`, and its index within it.
unfoldable pub tiles : ℕ → List ℕ → List ℕ × List ℕ
tiles batch [] = ([], [])
tiles batch (q_len ∷ q_lens) =
    let (batches, indices) = tiles (batch + 1) q_lens in
    (replicate (n_tiles q_len) batch ++ batches, range_from 0 (n_tiles q_len) ++ indices)

-- `any(q_len <= 0 for q_len in q_lens)`.
abbrev pub any_empty : ℕ → List ℕ → Bool
any_empty start [] = false
any_empty start (n ∷ ns) = if leb n start then true else any_empty start ns

-- The largest of `n` and others.
abbrev pub largest : ℕ → List ℕ → ℕ
largest n [] = n
largest n (m ∷ ns) = largest (max n m) ns

-- `max(seq_lens)`, which has none of no lengths.
abbrev pub maximum : List ℕ → Result ℕ
maximum [] = err value_error
maximum (n ∷ ns) = ok (largest n ns)

pub record PrefillKvCache : Type 0 where
  pub indices : Workspace
  pub max_len : ℕ
  pub out_cache_loc : List ℕ
  pub qo_indptr : List ℕ
  pub q_tile_to_batch : List ℕ
  pub q_tile_to_index : List ℕ

pub record DecodeKvCache : Type 0 where
  pub indices : Workspace
  pub max_len : ℕ
  pub out_cache_loc : List ℕ
  pub qo_indptr : List ℕ

pub data KvCache : Type 0 where
  prefill : PrefillKvCache → KvCache
  decode : DecodeKvCache → KvCache

unfoldable pub bind_prefill : BlockPool → Workspace → List ℕ → ℕ → Result KvCache
unfolding gather tiles
bind_prefill pool w seq_lens start_pos = do
  let q_lens = map (λ n. n - start_pos) seq_lens
  raise_if (any_empty start_pos seq_lens) value_error
  raise_if (is_nil w.req_pool_indices) runtime_error
  loc ← gather (req_pool pool.strategy).req_to_token w.req_pool_indices start_pos seq_lens
  max_len ← maximum seq_lens
  let (batches, indices) = tiles 0 q_lens
  ok (
      prefill (record {
        indices = w;
        max_len = max_len;
        out_cache_loc = loc;
        qo_indptr = 0 ∷ cumsum 0 q_lens;
        q_tile_to_batch = batches;
        q_tile_to_index = indices;
      }))

unfoldable pub bind_decode : BlockPool → Workspace → List ℕ → Result KvCache
unfolding gather_last
bind_decode pool w seq_lens = do
  loc ← gather_last (req_pool pool.strategy).req_to_token w.req_pool_indices w.seq_lens
  max_len ← maximum seq_lens
  ok (
      decode (record {
        indices = w;
        max_len = max_len;
        out_cache_loc = loc;
        qo_indptr = range_from 0 (length w.req_pool_indices + 1);
      }))

unfoldable pub bind_tasks :
    BlockPool → List ℕ → List ℕ → Workspace → Option ℕ → Bool → Result (Workspace × KvCache)
unfolding refresh bind_prefill bind_decode
bind_tasks pool req_indices seq_lens workspace start_pos incremental = do
  let w = refresh workspace req_indices seq_lens incremental
  cache ← elim start_pos [
    | some start ↦ bind_prefill pool w seq_lens start
    | none ↦ bind_decode pool w seq_lens
  ]
  ok (w, cache)

-- ===== src/Cache/Manager/Tests.antt =====
-- Runs of astrai/inference/core/cache/pool.py on concrete inputs.
use astr_ai.Base.{◌≡◌, refl, true, false, [], ◌∷◌, none, some}
use astr_ai.Cache.ReqPool
use astr_ai.Cache.AllocationStrategy.{contiguous}
use astr_ai.Cache.BlockPool.{BlockPool, Workspace, contiguous_rows, refresh, bind_tasks}
use astr_ai.Cache.Manager.{BindState, is_steady_increment}
use astr_ai.Cache.Manager.Steady.{bind_tasks-steady}

abbrev pool : BlockPool
pool = record {
  page_size = 1;
  max_batch_size = 2;
  max_seq_len = 8;
  n_tokens = 16;
  strategy = contiguous (record (ReqPool.init 2 8) { req_to_token = contiguous_rows 2 0 8 });
}

abbrev last_bind : BindState
last_bind = record { sig = 0 ∷ 1 ∷ []; seq_lens = 3 ∷ 5 ∷ [] }

abbrev blank : Workspace
blank = record { req_pool_indices = []; seq_lens = []; kv_indptr = [] }

recognized : is_steady_increment (some last_bind) (0 ∷ 1 ∷ []) (4 ∷ 6 ∷ []) ≡ true
unfolding is_steady_increment
recognized = refl

bind_tasks-steady_example :
    bind_tasks pool
      (0 ∷ 1 ∷ [])
      (4 ∷ 6 ∷ [])
      (refresh blank (0 ∷ 1 ∷ []) (3 ∷ 5 ∷ []) false)
      none
      true
    ≡ bind_tasks pool (0 ∷ 1 ∷ []) (4 ∷ 6 ∷ []) blank none false
bind_tasks-steady_example =
    bind_tasks-steady pool last_bind (0 ∷ 1 ∷ []) (4 ∷ 6 ∷ []) blank blank refl recognized

-- ===== src/Cache/Manager/Steady.antt =====
-- astrai/inference/core/cache/pool.py: a decode step that counts on from the last bind.
use astr_ai.Base.{
  ℕ, suc, ◌+◌, ◌≡◌, refl, true, false, List, [], ◌∷◌, none, some, map, length, arith,
}
use astr_ai.Base.Dict.{nat_eq, list_eq, list_beq_iff}
use astr_ai.Cache.ReqPool.{range_from}
use astr_ai.Cache.BlockPool.{BlockPool, Workspace, cumsum, add_each, refresh, bind_tasks}
use astr_ai.Cache.Manager.{BindState, is_steady_increment, all_next}

all_next_lem :
    (prev cur : List ℕ)
    → length prev ≡ length cur
    → all_next prev cur ≡ true
    → cur ≡ map (λ n. n + 1) prev
all_next_lem [] [] e h = refl
all_next_lem [] (y ∷ cur) e h = ground arith
all_next_lem (x ∷ prev) [] e h = ground arith
all_next_lem (x ∷ prev) (y ∷ cur) e h =
    ground (arith, all_next_lem prev cur (ground arith) (ground arith))

cumsum-counts :
    (t i : ℕ) (ns : List ℕ)
    → add_each (cumsum t ns) (range_from (i + 1) (length ns)) ≡ cumsum (t + i) (map (λ n. n + 1) ns)
cumsum-counts t i [] = refl
cumsum-counts t i (n ∷ ns) =
    let e : t + n + (i + 1) ≡ t + i + (n + 1) = omega arith in
    rw (cumsum-counts (t + n) (i + 1) ns, e) refl

count_up : (n : ℕ) → range_from 0 (n + 1) ≡ 0 ∷ range_from 1 n
count_up n = let e : n + 1 ≡ suc n = omega arith in rw e refl

refresh_steady :
    (sig seq_lens : List ℕ) (before other : Workspace)
    → length sig ≡ length seq_lens
    → refresh (refresh before sig seq_lens false) sig (map (λ n. n + 1) seq_lens) true
      ≡ refresh other sig (map (λ n. n + 1) seq_lens) false
unfolding refresh
refresh_steady sig seq_lens before other h =
    rw (h, count_up (length seq_lens), cumsum-counts 0 0 seq_lens) refl

-- After a full decode bind, a bind that is recognized as the steady increment gives the workspace and
-- the cache metadata of a full bind, whatever was in the workspace before.
pub bind_tasks-steady :
    (pool : BlockPool) (prev : BindState) (req_indices seq_lens : List ℕ) (before other : Workspace)
    → length seq_lens ≡ length req_indices
    → is_steady_increment (some prev) req_indices seq_lens ≡ true
    → bind_tasks pool req_indices seq_lens (refresh before prev.sig prev.seq_lens false) none true
      ≡ bind_tasks pool req_indices seq_lens other none false
unfolding bind_tasks is_steady_increment
bind_tasks-steady pool prev req_indices seq_lens before other sized steady =
    let same : prev.sig ≡ req_indices = (list_beq_iff prev.sig req_indices).0 (ground arith) in
    let size : length prev.seq_lens ≡ length seq_lens = ground arith in
    let next = all_next_lem prev.seq_lens seq_lens size (ground arith) in
    let long : length req_indices ≡ length prev.seq_lens = omega arith in
    rw (same, next, refresh_steady req_indices prev.seq_lens before other long) refl

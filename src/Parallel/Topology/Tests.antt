-- ===== src/Parallel/Topology/Tests.antt =====
-- Runs of astrai/parallel/topology.py on concrete inputs.
use astr_ai.Base.{◌≡◌, refl, ◌<◌, ◌==◌, ◌&&◌, some, ok, arith}
use astr_ai.Parallel.Topology.{ParallelTopology, init, is_dp_leader}
use astr_ai.Parallel.Topology.Ranks.{rank_of, init-rank_of, init-coordinates}

init-rank_of_example :
    (t : ParallelTopology) × (init (some 7) 12 2 3 ≡ ok t)
    × (t.dp_rank < t.dp_size)
    × (t.cp_rank < 2)
    × (t.tp_rank < 3)
    × (rank_of 2 3 t.dp_rank t.cp_rank t.tp_rank ≡ 7)
init-rank_of_example = init-rank_of 12 2 3 (omega arith) (omega arith) refl 7 (omega arith)

init-coordinates_example :
    (t : ParallelTopology) × (init (some (rank_of 2 3 1 0 1)) 12 2 3 ≡ ok t)
    × (rank_of 2 3 1 0 1 < 12)
    × (t.dp_rank ≡ 1)
    × (t.cp_rank ≡ 0)
    × (t.tp_rank ≡ 1)
    × (is_dp_leader t ≡ (0 == 0 && 1 == 0))
init-coordinates_example =
    init-coordinates 12 2 3 (omega arith) (omega arith) refl 1 0 1 (omega arith) (omega arith)
      (omega arith)

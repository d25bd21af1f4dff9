-- ===== src/Dataset/Replica/Tests.antt =====
-- Runs of astrai/dataset/sampler.py, `RDSampler`, on concrete inputs.
use astr_ai.Base.{
  ℕ, ◌+◌, ◌*◌, ◌<◌, ◌≡◌, refl, true, false, [], ◌∷◌, none, ok, length, get_elem?, arith,
}
use astr_ai.Dataset.Replica.{RdSampler, per_replica, init, stride, pad, shard}
use astr_ai.Dataset.Replica.Shards.{init-shard}

init-shard_example :
    (s : RdSampler) × (init 5 1 2 0 0 false true ≡ ok s)
    × (length (shard s (pad s (4 ∷ 2 ∷ 0 ∷ 1 ∷ 3 ∷ []))) ≡ per_replica 5 2 false)
    × ((i : ℕ)
        → i < per_replica 5 2 false
        → get_elem? (shard s (pad s (4 ∷ 2 ∷ 0 ∷ 1 ∷ 3 ∷ []))) i
          ≡ get_elem? (pad s (4 ∷ 2 ∷ 0 ∷ 1 ∷ 3 ∷ [])) (1 + i * 2))
init-shard_example =
    init-shard 5 1 2 0 0 false true (4 ∷ 2 ∷ 0 ∷ 1 ∷ 3 ∷ []) (omega arith) (omega arith)
      (omega arith) refl

-- The last of four replicas of a dataset of one sample.
abbrev lonely : RdSampler
lonely = record {
  epoch = 0;
  iter = 0;
  num_samples = 1;
  rank = 3;
  num_replicas = 4;
  drop_last = false;
  shuffle = false;
  num_samples_per_replica = 1;
  total_size = 4;
  indices = none;
}

-- Its share is one sample, and its shard is empty: the padding repeats the samples once only.
lonely-init : init 1 3 4 0 0 false false ≡ ok lonely
unfolding init
lonely-init = refl

lonely-shard : shard lonely (pad lonely (0 ∷ [])) ≡ []
unfolding shard pad stride
lonely-shard = refl

-- ===== src/Dataset/Replica/Shards.antt =====
-- astrai/dataset/sampler.py, `RDSampler`: the shards of the replicas.
use native.Mathlib.Nat.{div-add-mod'}
use astr_ai.Base.{
  ℕ, zero, suc, ◌+◌, ◌-◌, ◌*◌, ◌/◌, ◌%◌, ◌≤◌, ◌<◌, ◌≡◌, refl, ap, ◌∙◌, Bool, false, List, [], ◌∷◌,
  none, ◌==◌, length, get_elem?, take, drop, length-append, length-take, length-drop, ok, ◌>>=◌,
  arith, Bool-cases, inl, inr,
}
use astr_ai.Dataset.Replica.{RdSampler, per_replica, init, stride, pad, shard}

-- A list that needs `n` steps to pass has `n` entries in its stride.
length-stride :
    (step n fuel : ℕ) (xs : List ℕ)
    → 0 < step
    → length xs ≤ fuel
    → length xs ≤ n * step
    → n * step < length xs + step
    → length (stride step fuel xs) ≡ n
unfolding stride
length-stride step zero zero [] positive enough upper lower = refl
length-stride step zero (suc fuel) [] positive enough upper lower = refl
length-stride step zero fuel (x ∷ xs) positive enough upper lower = absurd (omega arith)
length-stride step (suc n) fuel [] positive enough upper lower = absurd (omega arith)
length-stride step (suc n) zero (x ∷ xs) positive enough upper lower = absurd (omega arith)
length-stride step (suc n) (suc fuel) (x ∷ xs) positive enough upper lower =
    let rest = drop (step - 1) xs in
    let sized = length-drop (step - 1) xs in
    ap suc (
      length-stride step n fuel rest positive (omega (arith, sized)) (omega (arith, sized))
        (omega (arith, sized)))

-- The `i`-th entry of a stride.
get_elem?-drop : (n i : ℕ) (xs : List ℕ) → get_elem? (drop n xs) i ≡ get_elem? xs (n + i)
get_elem?-drop zero i xs = ap (λ (k : ℕ). get_elem? xs k) {x = i} {y = zero + i} (omega arith)
get_elem?-drop (suc n) i [] = refl
get_elem?-drop (suc n) i (x ∷ xs) =
    get_elem?-drop n i xs
    ∙ ap (λ (k : ℕ). get_elem? (x ∷ xs) k) {x = suc (n + i)} {y = suc n + i} (omega arith)

get_elem?-stride :
    (step fuel i : ℕ) (xs : List ℕ)
    → 0 < step
    → length xs ≤ fuel
    → get_elem? (stride step fuel xs) i ≡ get_elem? xs (i * step)
unfolding stride
get_elem?-stride step zero i [] positive enough = refl
get_elem?-stride step zero i (x ∷ xs) positive enough = absurd (omega arith)
get_elem?-stride step (suc fuel) i [] positive enough = refl
get_elem?-stride step (suc fuel) zero (x ∷ xs) positive enough =
    ap (λ (k : ℕ). get_elem? (x ∷ xs) k) {x = zero} {y = zero * step} (omega arith)
get_elem?-stride step (suc fuel) (suc i) (x ∷ xs) positive enough =
    get_elem?-stride step fuel i (drop (step - 1) xs) positive
      (omega (arith, length-drop (step - 1) xs))
    ∙ get_elem?-drop (step - 1) (i * step) xs
    ∙ ap (λ (k : ℕ). get_elem? (x ∷ xs) k) {x = suc (step - 1 + i * step)} {y = suc i * step}
        (omega arith)

get_elem?-take : (n i : ℕ) (xs : List ℕ) → i < n → get_elem? (take n xs) i ≡ get_elem? xs i
get_elem?-take zero i xs below = absurd (omega arith)
get_elem?-take (suc n) i [] below = refl
get_elem?-take (suc n) zero (x ∷ xs) below = refl
get_elem?-take (suc n) (suc i) (x ∷ xs) below = get_elem?-take n i xs (omega arith)

-- The sizes that a sampler is made with: whole shards, which a remainder of the samples may fall short
-- of or exceed.
total_size-dropped : (n replicas : ℕ) → n / replicas * replicas ≤ n
total_size-dropped n replicas = omega (arith, div-add-mod' n replicas)

total_size-padded :
    (n replicas : ℕ) → 0 < replicas → (n + (replicas - 1)) / replicas * replicas < n + replicas
total_size-padded n replicas positive = omega (arith, div-add-mod' (n + (replicas - 1)) replicas)

module _ (s : RdSampler) (rank_in : s.rank < s.num_replicas)
    (share : s.num_samples_per_replica ≡ per_replica s.num_samples s.num_replicas s.drop_last)
    (whole : s.total_size ≡ s.num_samples_per_replica * s.num_replicas)
    (few : s.num_replicas ≤ s.num_samples + 1) where
  pad-long : (order : List ℕ) → length order ≡ s.num_samples → s.total_size ≤ length (pad s order)
  unfolding pad
  pad-long order sized = elim (Bool-cases s.drop_last) [
    | inl dropped ↦
        let e : s.num_samples_per_replica ≡ (s.num_samples + 0) / s.num_replicas =
          share ∙ ap (per_replica s.num_samples s.num_replicas) dropped in
        let f =
          whole
          ∙ ap (λ (m : ℕ). m * s.num_replicas)
              (e
                ∙ ap (λ (m : ℕ). m / s.num_replicas) {x = s.num_samples + 0} {y = s.num_samples}
                    (omega arith)) in
        ground (arith, dropped, f, sized, total_size-dropped s.num_samples s.num_replicas)
    | inr padded ↦
        let e : s.num_samples_per_replica
            ≡ (s.num_samples + (s.num_replicas - 1)) / s.num_replicas =
          share ∙ ap (per_replica s.num_samples s.num_replicas) padded in
        let f = whole ∙ ap (λ (m : ℕ). m * s.num_replicas) e in
        ground (
          arith,
          padded,
          f,
          sized,
          total_size-padded s.num_samples s.num_replicas (omega arith),
          length-append order (take (s.total_size - length order) order),
          length-take (s.total_size - length order) order,
        )
  ]

  length-kept :
      (order : List ℕ)
      → length order ≡ s.num_samples
      → length (drop s.rank (take s.total_size (pad s order))) ≡ s.total_size - s.rank
  length-kept order sized = omega (
    arith,
    pad-long order sized,
    length-take s.total_size (pad s order),
    length-drop s.rank (take s.total_size (pad s order)),
  )

  length-shard :
      (order : List ℕ)
      → length order ≡ s.num_samples
      → length (shard s (pad s order)) ≡ s.num_samples_per_replica
  unfolding shard
  length-shard order sized =
      let kept = drop s.rank (take s.total_size (pad s order)) in
      let n = length-kept order sized in
      length-stride s.num_replicas s.num_samples_per_replica (length kept) kept (omega arith)
        (omega arith) (omega (arith, n, whole)) (omega (arith, n, whole))

  get_elem?-shard :
      (order : List ℕ) (i : ℕ)
      → i < s.num_samples_per_replica
      → get_elem? (shard s (pad s order)) i ≡ get_elem? (pad s order) (s.rank + i * s.num_replicas)
  unfolding shard
  get_elem?-shard order i below =
      let kept = drop s.rank (take s.total_size (pad s order)) in
      get_elem?-stride s.num_replicas (length kept) i kept (omega arith) (omega arith)
      ∙ get_elem?-drop s.rank (i * s.num_replicas) (take s.total_size (pad s order))
      ∙ get_elem?-take s.total_size (s.rank + i * s.num_replicas) (pad s order)
          (grind (arith, whole, below, rank_in))

-- A sampler for a rank of the group is made where a replica's share is not empty, and, with no more
-- replicas than samples and one, its shard of an order of the samples has as many entries as the
-- share says; they are every num_replicas-th of the padded order, from the rank on.
pub init-shard :
    (num_samples rank num_replicas start_epoch start_iter : ℕ) (drop_last shuffle : Bool)
    (order : List ℕ)
    → rank < num_replicas
    → 0 < per_replica num_samples num_replicas drop_last
    → num_replicas ≤ num_samples + 1
    → length order ≡ num_samples
    → (s : RdSampler) × (init num_samples rank num_replicas start_epoch start_iter drop_last shuffle
        ≡ ok s)
      × (length (shard s (pad s order)) ≡ per_replica num_samples num_replicas drop_last)
      × ((i : ℕ)
          → i < per_replica num_samples num_replicas drop_last
          → get_elem? (shard s (pad s order)) i ≡ get_elem? (pad s order) (rank + i * num_replicas))
unfolding init
init-shard num_samples rank num_replicas start_epoch start_iter drop_last shuffle order rank_in
      some_share few sized =
    let share = per_replica num_samples num_replicas drop_last in
    let group : (num_replicas == 0) ≡ false = ground arith in
    let full : (share == 0) ≡ false = ground arith in
    let s : RdSampler = record {
      epoch = start_epoch;
      iter = start_iter % share;
      num_samples = num_samples;
      rank = rank;
      num_replicas = num_replicas;
      drop_last = drop_last;
      shuffle = shuffle;
      num_samples_per_replica = share;
      total_size = share * num_replicas;
      indices = none;
    } in
    (
      s,
      rw (group, full, ◌>>=◌) refl,
      length-shard s rank_in refl refl few order sized,
      λ i below. get_elem?-shard s rank_in refl refl few order i below,
    )

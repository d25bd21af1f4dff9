-- ===== src/Parallel/Topology/Ranks.antt =====
-- astrai/parallel/topology.py: ranks against coordinates.
use native.Mathlib.Nat.{
  mod-lt, div-add-mod', div-div-eq-div-mul, div-lt_iff_lt-mul, dvd_of_mod-eq-zero, div-mul_cancel,
  mul-add-div_right, mul-add-mod_self_right, mod-eq_of_lt, div-eq_of_lt,
}
use astr_ai.Base.{
  ℕ, ◌+◌, ◌*◌, ◌/◌, ◌%◌, ◌<◌, ◌≡◌, refl, sym, ap, ◌∙◌, subst, false, not, ◌&&◌, ◌||◌, some, ltb,
  ◌==◌, ok, ◌>>=◌, arith,
}
use astr_ai.Parallel.Topology.{ParallelTopology, init, is_dp_leader}

-- `dp_idx * (cp * tp) + cp_idx * tp + tp_idx`.
abbrev pub rank_of : ℕ → ℕ → ℕ → ℕ → ℕ → ℕ
rank_of cp tp dp_idx cp_idx tp_idx = dp_idx * (cp * tp) + cp_idx * tp + tp_idx

swap : (m n : ℕ) → m * n ≡ n * m
swap m n = grind arith

nest : (cp tp d k i : ℕ) → rank_of cp tp d k i ≡ (d * cp + k) * tp + i
nest cp tp d k i = grind arith

within : (tp k cp i : ℕ) → k < cp → i < tp → k * tp + i < cp * tp
within tp k cp i below small = grind arith

product_pos : (m n : ℕ) → 0 < m → 0 < n → 0 < m * n
product_pos m n p q = grind arith

module _ (world cp tp : ℕ) (some_cp : 0 < cp) (some_tp : 0 < tp)
    (divides : world % (cp * tp) ≡ 0) where
  at_rank : ℕ → ParallelTopology
  at_rank rank = record {
    world_size = world;
    cp_size = cp;
    tp_size = tp;
    dp_size = world / (cp * tp);
    global_rank = rank;
    tp_rank = rank % tp;
    cp_rank = rank / tp % cp;
    dp_rank = rank / (cp * tp);
    has_mesh = ltb 1 world && (ltb 1 cp || ltb 1 tp);
  }

  init-at_rank : (rank : ℕ) → init (some rank) world cp tp ≡ ok (at_rank rank)
  unfolding init at_rank
  init-at_rank rank =
      let positive : (ltb tp 1 || ltb cp 1) ≡ false = ground arith in
      let whole : not (world % (cp * tp) == 0) ≡ false = ground arith in
      rw (positive, whole, ◌>>=◌) refl

  split_rank : (rank : ℕ) → rank_of cp tp (rank / (cp * tp)) (rank / tp % cp) (rank % tp) ≡ rank
  split_rank rank =
      let inner = div-add-mod' rank tp in
      let outer = div-add-mod' (rank / tp) cp in
      let e : rank / tp / cp ≡ rank / (cp * tp) =
        div-div-eq-div-mul rank tp cp ∙ ap (λ (n : ℕ). rank / n) (swap tp cp) in
      nest cp tp (rank / (cp * tp)) (rank / tp % cp) (rank % tp)
      ∙ ap (λ (n : ℕ). (n * cp + rank / tp % cp) * tp + rank % tp) (sym e)
      ∙ ap (λ (n : ℕ). n * tp + rank % tp) outer
      ∙ inner

  whole : world / (cp * tp) * (cp * tp) ≡ world
  whole = div-mul_cancel (cp * tp) (dvd_of_mod-eq-zero (cp * tp) divides)

  dp_rank_lt : (rank : ℕ) → rank < world → rank / (cp * tp) < world / (cp * tp)
  dp_rank_lt rank inside =
      (div-lt_iff_lt-mul (product_pos cp tp some_cp some_tp)).1
        (subst (λ (n : ℕ). rank < n) (sym whole) inside)

  -- Every rank of the world has coordinates within the groups' sizes, and the layout of those
  -- coordinates is the rank.
  pub init-rank_of :
      (rank : ℕ)
      → rank < world
      → (t : ParallelTopology) × (init (some rank) world cp tp ≡ ok t)
        × (t.dp_rank < t.dp_size)
        × (t.cp_rank < cp)
        × (t.tp_rank < tp)
        × (rank_of cp tp t.dp_rank t.cp_rank t.tp_rank ≡ rank)
  unfolding at_rank
  init-rank_of rank inside = (
    at_rank rank,
    init-at_rank rank,
    dp_rank_lt rank inside,
    mod-lt (rank / tp) some_cp,
    mod-lt rank some_tp,
    split_rank rank,
  )

  coordinates :
      (d k i : ℕ)
      → k < cp
      → i < tp
      → (rank_of cp tp d k i % tp ≡ i)
        × (rank_of cp tp d k i / tp % cp ≡ k)
        × (rank_of cp tp d k i / (cp * tp) ≡ d)
  coordinates d k i below small =
      let quotient : rank_of cp tp d k i / tp ≡ d * cp + k =
        ap (λ (n : ℕ). n / tp) (nest cp tp d k i)
        ∙ mul-add-div_right some_tp (d * cp + k) i
        ∙ omega (arith, div-eq_of_lt {n = i} {m = tp} small) in
      (
        ap (λ (n : ℕ). n % tp) (nest cp tp d k i)
            ∙ mul-add-mod_self_right (d * cp + k) tp i
            ∙ mod-eq_of_lt {n = i} {m = tp} small,
        ap (λ (n : ℕ). n % cp) quotient
            ∙ mul-add-mod_self_right d cp k
            ∙ mod-eq_of_lt {n = k} {m = cp} below,
        ap (λ (n : ℕ). rank_of cp tp d k i / n) (swap cp tp)
            ∙ sym (div-div-eq-div-mul (rank_of cp tp d k i) tp cp)
            ∙ ap (λ (n : ℕ). n / cp) quotient
            ∙ mul-add-div_right some_cp d k
            ∙ omega (arith, div-eq_of_lt {n = k} {m = cp} below),
      )

  -- Coordinates within the groups' sizes are laid out at a rank of the world, where the topology has
  -- those coordinates, and leads its dp group exactly at the first cp and tp ranks.
  pub init-coordinates :
      (d k i : ℕ)
      → d < world / (cp * tp)
      → k < cp
      → i < tp
      → (t : ParallelTopology) × (init (some (rank_of cp tp d k i)) world cp tp ≡ ok t)
        × (rank_of cp tp d k i < world)
        × (t.dp_rank ≡ d)
        × (t.cp_rank ≡ k)
        × (t.tp_rank ≡ i)
        × (is_dp_leader t ≡ (k == 0 && i == 0))
  unfolding at_rank
  init-coordinates d k i in_dp in_cp in_tp =
      let (tp_back, cp_back, dp_back) = coordinates d k i in_cp in_tp in
      (
        at_rank (rank_of cp tp d k i),
        init-at_rank (rank_of cp tp d k i),
        omega (
          arith,
          whole,
          within (cp * tp) d (world / (cp * tp)) (k * tp + i) in_dp (within tp k cp i in_cp in_tp),
        ),
        dp_back,
        cp_back,
        tp_back,
        rw (tp_back, cp_back) refl,
      )

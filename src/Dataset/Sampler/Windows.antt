-- ===== src/Dataset/Sampler/Windows.antt =====
-- astrai/dataset/sampler.py: the length of a sampler against the windows that it yields.
use native.Mathlib.Nat.{
  mul-add-div, div-eq_of_lt, div-eq-sub-div, mod-eq-sub-mod, mod-eq_of_lt, zero-div, zero-mod,
}
use astr_ai.Base.{
  ℕ, zero, suc, ◌+◌, ◌-◌, ◌*◌, ◌/◌, ◌%◌, ◌≤◌, ◌<◌, ◌≡◌, refl, sym, ap, true, ok, leb, ◌∙◌, min, not,
  ◌&&◌, List, [], ◌∷◌, ltb, ◌==◌, if◌then◌else◌, drop, length, length-take, length-drop, arith,
  Bool-cases, inl, inr,
}
use astr_ai.Dataset.Sampler.{
  GlobalBatchSampler, global_batch, capacity, Window, drops, windows_from, windows, first_of,
  real_count, local_indices, divmod, as_length, length_hint,
}

-- The microbatches of some windows.
abbrev pub total_microbatches : List Window → ℕ
total_microbatches [] = 0
total_microbatches (w ∷ ws) = w.microbatches + total_microbatches ws

-- On a permutation of all samples, a replica's slice of a microbatch has as many samples as
-- `real_count` says.
pub length-local_indices :
    (s : GlobalBatchSampler) (indices : List ℕ) (window_start microbatch : ℕ)
    → length indices ≡ s.num_samples
    → length (local_indices s indices window_start microbatch)
      ≡ real_count s window_start microbatch
unfolding local_indices real_count
length-local_indices s indices window_start microbatch h =
    let first = first_of s window_start microbatch in
    omega (
      arith,
      h,
      length-take (min (first + s.batch_size) s.num_samples - first) (drop first indices),
      length-drop first indices,
    )

full_window : (c a : ℕ) → 0 < c → (c * a + c - 1) / c ≡ a
full_window c a h =
    ap (λ (m : ℕ). m / c) (omega arith)
    ∙ mul-add-div h a (c - 1)
    ∙ omega (arith, div-eq_of_lt {n = c - 1} {m = c} (omega arith))

one_more : (x a t : ℕ) → (x + 1) * a + t ≡ a + (x * a + t)
one_more x a t = omega arith

-- The microbatches of the last `m` samples of an epoch.
hint : GlobalBatchSampler → ℕ → ℕ
hint s m =
    m / global_batch s * s.accumulation_steps
    + (if not (m % global_batch s == 0) && not (drops s.tail_policy)
        then (m % global_batch s + capacity s - 1) / capacity s
        else 0)

module _ (s : GlobalBatchSampler) (sized : 0 < capacity s) (steps : 0 < global_batch s) where
  hint_none : hint s 0 ≡ 0
  unfolding hint
  hint_none = ground (arith, zero-div (global_batch s), zero-mod (global_batch s))

  hint_tail :
      (m : ℕ)
      → 0 < m
      → m < global_batch s
      → hint s m ≡ (if drops s.tail_policy then 0 else (m + capacity s - 1) / capacity s)
  unfolding hint
  hint_tail m some_left below =
      rw
        (
          div-eq_of_lt {n = m} {m = global_batch s} below,
          mod-eq_of_lt {n = m} {m = global_batch s} below,
        )
        (ground arith)

  hint_full :
      (m : ℕ) → global_batch s ≤ m → hint s m ≡ s.accumulation_steps + hint s (m - global_batch s)
  unfolding hint
  hint_full m above =
      rw
        (
          div-eq-sub-div {m = global_batch s} {n = m} steps above,
          mod-eq-sub-mod {n = m} {m = global_batch s} above,
        )
        (one_more ((m - global_batch s) / global_batch s) s.accumulation_steps _)

  windows_from-hint :
      (fuel start : ℕ)
      → s.num_samples - start ≤ fuel
      → total_microbatches (windows_from s fuel start) ≡ hint s (s.num_samples - start)
  unfolding windows_from
  windows_from-hint zero start room =
      let e : s.num_samples - start ≡ 0 = omega arith in rw (e, hint_none)
  windows_from-hint (suc fuel) start room =
      let left = s.num_samples - start in
      let ih = windows_from-hint fuel (start + global_batch s) (omega arith) in
      elim (Bool-cases (ltb start s.num_samples)) [
        | inr out ↦ let e : left ≡ 0 = ground arith in rw (out, e, hint_none)
        | inl more ↦ elim (Bool-cases (ltb left (global_batch s))) [
          | inl tail ↦
              let c : min (global_batch s) left ≡ left = ground arith in
              let e : s.num_samples - (start + global_batch s) ≡ 0 = ground arith in
              let rest = ih ∙ ap (hint s) e ∙ hint_none in
              ground (arith, c, rest, hint_tail left (ground arith) (ground arith))
          | inr whole ↦
              let c : min (global_batch s) left ≡ global_batch s = ground arith in
              let e : s.num_samples - (start + global_batch s) ≡ left - global_batch s =
                omega arith in
              let rest = ih ∙ ap (hint s) e in
              ground (
                arith,
                c,
                rest,
                hint_full left (ground arith),
                full_window (capacity s) s.accumulation_steps sized,
              )
        ]
      ]

-- At an offset within the samples no quotient is negative.
pub divmod_within :
    (a b d : ℕ)
    → b ≤ a
    → divmod a b d ≡ record { whole = (a - b) / d; owed = 0; rest = (a - b) % d }
unfolding divmod
divmod_within a b d h = let e : leb b a ≡ true = ground arith in rw e refl

as_length_zero : (n a : ℕ) → as_length n (0 * a) ≡ ok n
as_length_zero n a = ground arith

-- With positive sizes and an offset within the samples, `__len__` succeeds and is the number of
-- microbatches of all windows together, under either tail policy.
pub length_hint-windows :
    (s : GlobalBatchSampler)
    → 0 < capacity s
    → 0 < global_batch s
    → s.start_offset ≤ s.num_samples
    → length_hint s ≡ ok (total_microbatches (windows s))
unfolding length_hint windows hint
length_hint-windows s sized steps within =
    let counted =
      windows_from-hint s sized steps (s.num_samples - s.start_offset) s.start_offset
        (omega arith) in
    rw (divmod_within s.num_samples s.start_offset (global_batch s) within)
      (as_length_zero _ s.accumulation_steps ∙ ap ok (sym counted))

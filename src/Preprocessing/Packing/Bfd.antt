-- ===== src/Preprocessing/Packing/Bfd.antt =====
-- astrai/preprocessing/packing.py: the bins of a whole plan.
use astr_ai.Base.{
  ℕ, zero, suc, ◌+◌, ◌≤◌, ◌<◌, ◌≡◌, refl, sym, ap, ◌∙◌, Bool, false, not, ◌||◌, List, [], ◌∷◌, ltb,
  ◌==◌, if◌then◌else◌, length, replicate, is_nil, ok, ◌>>=◌, length-replicate, arith, Bool-cases,
  inl, inr,
}
use astr_ai.Cache.Mask.{bit}
use astr_ai.Preprocessing.Packing.{
  Plan, insert_by, sort_by, range_from, len_at, longest_first, any_unfit, place, place_each,
  empty_plan, least, any_empty, by_least, plan_bfd,
}
use astr_ai.Preprocessing.Packing.Counting.{
  count, count_all, total, nth, count-range_from, count-sort_by, count_all-sort_by,
}
use astr_ai.Preprocessing.Packing.Bins.{Inv}
use astr_ai.Preprocessing.Packing.BestFit.{place-Placed}

-- A predicate of every bin.
abbrev pub Each : (List ℕ → Type 0) → List (List ℕ) → Type 0
Each P [] = Unit
Each P (bin ∷ bins) = P bin × Each P bins

insert_by-Each :
    (P : List ℕ → Type 0) (before : List ℕ → List ℕ → Bool) (bin : List ℕ) (bins : List (List ℕ))
    → P bin
    → Each P bins
    → Each P (insert_by before bin bins)
insert_by-Each P before bin [] p each = (p, tt)
insert_by-Each P before bin (b ∷ bins) p (q, each) = elim (Bool-cases (before bin b)) [
  | inl ahead ↦ rw ahead (p, (q, each))
  | inr behind ↦ rw behind (q, insert_by-Each P before bin bins p each)
]

sort_by-Each :
    (P : List ℕ → Type 0) (before : List ℕ → List ℕ → Bool) (bins : List (List ℕ))
    → Each P bins
    → Each P (sort_by before bins)
unfolding sort_by
sort_by-Each P before [] each = tt
sort_by-Each P before (bin ∷ bins) (p, each) =
    insert_by-Each P before bin (sort_by before bins) p (sort_by-Each P before bins each)

pub nth-Each :
    (P : List ℕ → Type 0) (bins : List (List ℕ))
    → ((b : ℕ) → b < length bins → P (nth bins b))
    → Each P bins
nth-Each P [] h = tt
nth-Each P (bin ∷ bins) h =
    (h 0 (omega arith), nth-Each P bins (λ b below. h (suc b) (omega arith)))

pub map-Each :
    (P Q : List ℕ → Type 0) (bins : List (List ℕ))
    → ((bin : List ℕ) → P bin → Q bin)
    → Each P bins
    → Each Q bins
map-Each P Q [] f each = tt
map-Each P Q (bin ∷ bins) f (p, each) = (f bin p, map-Each P Q bins f each)

-- The first indices of the bins ascend.
abbrev pub Ascending : List (List ℕ) → Type 0
Ascending [] = Unit
Ascending (bin ∷ bins) = Each (λ (later : List ℕ). least bin ≤ least later) bins × Ascending bins

insert_by-Ascending :
    (bin : List ℕ) (bins : List (List ℕ)) → Ascending bins → Ascending (insert_by by_least bin bins)
insert_by-Ascending bin [] up = (tt, tt)
insert_by-Ascending bin (b ∷ bins) (above, up) = elim (Bool-cases (by_least bin b)) [
  | inl ahead ↦ rw ahead (
    (
      ground arith,
      map-Each (λ (c : List ℕ). least b ≤ least c) (λ (c : List ℕ). least bin ≤ least c) bins
          (λ c le. ground arith) above,
    ),
    (above, up),
  )
  | inr behind ↦ rw behind (
    insert_by-Each (λ (c : List ℕ). least b ≤ least c) by_least bin bins (ground arith) above,
    insert_by-Ascending bin bins up,
  )
]

sort_by-Ascending : (bins : List (List ℕ)) → Ascending (sort_by by_least bins)
unfolding sort_by
sort_by-Ascending [] = tt
sort_by-Ascending (bin ∷ bins) =
    insert_by-Ascending bin (sort_by by_least bins) (sort_by-Ascending bins)

any_empty_none :
    (bins : List (List ℕ))
    → Each (λ (bin : List ℕ). is_nil bin ≡ false) bins
    → any_empty bins ≡ false
any_empty_none [] each = refl
any_empty_none (bin ∷ bins) (full, each) = rw (full, any_empty_none bins each) refl

used-full : (lengths bin : List ℕ) → 0 < total lengths bin → is_nil bin ≡ false
used-full lengths [] h = absurd (omega arith)
used-full lengths (i ∷ bin) h = refl

nth-replicate : (n i : ℕ) → nth (replicate n []) i ≡ []
nth-replicate zero i = refl
nth-replicate (suc n) zero = refl
nth-replicate (suc n) (suc i) = nth-replicate n i

bit-replicate : (n i : ℕ) → bit (replicate n false) i ≡ false
bit-replicate zero i = refl
bit-replicate (suc n) zero = refl
bit-replicate (suc n) (suc i) = bit-replicate n i

pub any_unfit_none :
    (capacity : ℕ) (lengths : List ℕ) (i : ℕ)
    → any_unfit capacity lengths ≡ false
    → i < length lengths
    → (0 < len_at lengths i) × (len_at lengths i ≤ capacity)
any_unfit_none capacity [] i h below = absurd (omega arith)
any_unfit_none capacity (n ∷ lengths) zero h below = ground arith
any_unfit_none capacity (n ∷ lengths) (suc i) h below =
    any_unfit_none capacity lengths i (ground arith) (omega arith)

module _ (lengths : List ℕ) (capacity : ℕ) where
  pub empty_plan-Inv : Inv lengths capacity (empty_plan capacity)
  empty_plan-Inv = record {
    tables = record {
      stacked = length-replicate (capacity + 1) [];
      wide = length-replicate (capacity + 1) false;
      bits = λ r.
          bit-replicate (capacity + 1) r
          ∙ ap (λ (s : List ℕ). not (is_nil s)) (sym (nth-replicate (capacity + 1) r));
    };
    stacks = λ r b. ap (count b) (nth-replicate (capacity + 1) r) ∙ ground arith;
    used = λ b below. absurd (omega arith);
    fits = λ b below. absurd (omega arith);
  }

  place_each_step :
      (p q : Plan) (index : ℕ) (indices : List ℕ)
      → place capacity lengths p index ≡ ok q
      → place_each capacity lengths p (index ∷ indices) ≡ place_each capacity lengths q indices
  unfolding place_each
  place_each_step p q index indices e = rw (e, ◌>>=◌) refl

  place_each-Inv :
      (indices : List ℕ) (p : Plan)
      → Inv lengths capacity p
      → ((i : ℕ) → 0 < count i indices → (0 < len_at lengths i) × (len_at lengths i ≤ capacity))
      → (q : Plan) × (place_each capacity lengths p indices ≡ ok q)
        × Inv lengths capacity q
        × ((x : ℕ) → count_all x q.bins ≡ count x indices + count_all x p.bins)
  unfolding place_each
  place_each-Inv [] p h fit = (p, refl, h, λ x. omega arith)
  place_each-Inv (index ∷ indices) p h fit =
      let (positive, small) = fit index (ground arith) in
      let (q, e, placed) = place-Placed lengths capacity p index h positive small in
      let (r, rest, kept, counts) =
        place_each-Inv indices q placed.kept (λ i some_of. fit i (omega arith)) in
      (
        r,
        place_each_step p q index indices e ∙ rest,
        kept,
        λ x. omega (arith, counts x, placed.counts x),
      )

  -- What a plan promises: bins that are not empty and within the capacity, in the order of their first
  -- indices, with every index in exactly one of them.
  pub record Packed (bins : List (List ℕ)) : Type 0 where
    pub within :
        Each (λ (bin : List ℕ). (0 < total lengths bin) × (total lengths bin ≤ capacity)) bins
    pub ascending : Ascending bins
    pub once : (i : ℕ) → count_all i bins ≡ (if ltb i (length lengths) then 1 else 0)

  -- The indices that the loop visits.
  visited :
      (i : ℕ)
      → count i (sort_by (longest_first lengths) (range_from 0 (length lengths)))
        ≡ (if ltb i (length lengths) then 1 else 0)
  visited i =
      count-sort_by (longest_first lengths) i (range_from 0 (length lengths))
      ∙ ground (arith, count-range_from 0 (length lengths) i)

  plan_bfd-ok :
      (p : Plan)
      → (capacity == 0 || any_unfit capacity lengths) ≡ false
      → place_each capacity lengths
          (empty_plan capacity)
          (sort_by (longest_first lengths) (range_from 0 (length lengths)))
        ≡ ok p
      → any_empty p.bins ≡ false
      → plan_bfd lengths capacity ≡ ok (sort_by by_least p.bins)
  unfolding plan_bfd
  plan_bfd-ok p fit e full = rw (fit, e, full, ◌>>=◌) refl

  -- On a positive capacity and positive lengths within it a plan is made.
  pub plan_bfd-Packed :
      (capacity == 0 || any_unfit capacity lengths) ≡ false
      → (bins : List (List ℕ)) × (plan_bfd lengths capacity ≡ ok bins) × Packed bins
  plan_bfd-Packed fit =
      let (p, e, kept, counts) =
        place_each-Inv (sort_by (longest_first lengths) (range_from 0 (length lengths)))
          (empty_plan capacity) empty_plan-Inv
          (λ i some_of.
            any_unfit_none capacity lengths i (ground arith)
              (ground (arith, some_of, visited i))) in
      let each =
        nth-Each (λ (bin : List ℕ). (0 < total lengths bin) × (total lengths bin ≤ capacity)) p.bins
          (λ b below. (kept.used b below, kept.fits b below)) in
      let full =
        nth-Each (λ (bin : List ℕ). is_nil bin ≡ false) p.bins
          (λ b below. used-full lengths (nth p.bins b) (kept.used b below)) in
      (
        sort_by by_least p.bins,
        plan_bfd-ok p fit e (any_empty_none p.bins full),
        record {
          within =
              sort_by-Each
                (λ (bin : List ℕ). (0 < total lengths bin) × (total lengths bin ≤ capacity))
                by_least p.bins each;
          ascending = sort_by-Ascending p.bins;
          once = λ i. count_all-sort_by by_least i p.bins ∙ omega (arith, counts i, visited i);
        },
      )

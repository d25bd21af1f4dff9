-- ===== src/Preprocessing/Fields/Planned.antt =====
-- astrai/preprocessing/packing.py, `pack_sequences`: the chunks are lengths that a plan takes, and what its bins are.
use astr_ai.Base.{
  ℕ, zero, suc, ◌+◌, ◌≤◌, ◌<◌, ◌≡◌, refl, false, List, [], ◌∷◌, ◌++◌, ltb, length, ok, arith,
  Bool-cases, inl, inr,
}
use astr_ai.Base.Dict.{string_eq}
use astr_ai.Preprocessing.Packing.{range_from, any_unfit}
use astr_ai.Preprocessing.Packing.Counting.{count, count_all, total}
use astr_ai.Preprocessing.Packing.Bfd.{Each, map-Each, any_unfit_none, plan_bfd-Packed}
use astr_ai.Preprocessing.Fields.{
  Overflow, truncate, split, Strategy, bfd, one_per_bin, TruncationMode, keep_start, keep_end, Rows,
  steps, chunk_starts, cut_row, field_chunks, singletons, plan, row_lengths,
}
use astr_ai.Preprocessing.Fields.Chunks.{length-chunk}

-- Every number of a list is below a bound.
abbrev pub Below : ℕ → List ℕ → Type 0
Below n [] = Unit
Below n (i ∷ is) = (i < n) × Below n is

pub steps-Below : (limit stop fuel start : ℕ) → Below stop (steps limit stop fuel start)
unfolding steps
steps-Below limit stop zero start = tt
steps-Below limit stop (suc fuel) start = elim (Bool-cases (ltb start stop)) [
  | inl more ↦ rw more (ground arith, steps-Below limit stop fuel (start + limit))
  | inr over ↦ rw over tt
]

pub chunk_starts-Below :
    (overflow : Overflow) (mode : TruncationMode) (limit size : ℕ)
    → 0 < limit
    → 0 < size
    → Below size (chunk_starts overflow mode limit size)
unfolding chunk_starts
chunk_starts-Below split mode limit size positive full = steps-Below limit size size 0
chunk_starts-Below truncate keep_end limit size positive full = (omega arith, tt)
chunk_starts-Below truncate keep_start limit size positive full = (full, tt)

pub any_unfit-append :
    (capacity : ℕ) (xs ys : Rows)
    → any_unfit capacity (row_lengths xs) ≡ false
    → any_unfit capacity (row_lengths ys) ≡ false
    → any_unfit capacity (row_lengths (xs ++ ys)) ≡ false
any_unfit-append capacity [] ys h k = k
any_unfit-append capacity (x ∷ xs) ys h k =
    let rest = any_unfit-append capacity xs ys (ground arith) k in ground (arith, h, rest)

pub cut_row-fit :
    (capacity limit : ℕ) (seq starts : List ℕ)
    → 0 < limit
    → limit ≤ capacity
    → Below (length seq) starts
    → any_unfit capacity (row_lengths (cut_row "sequence" limit seq starts)) ≡ false
cut_row-fit capacity limit seq [] positive le below = refl
cut_row-fit capacity limit seq (start ∷ starts) positive le (here, below) =
    let rest = cut_row-fit capacity limit seq starts positive le below in
    ground (arith, rest, length-chunk "sequence" limit seq start)

-- The chunks are lengths that a plan takes.
pub field_chunks-fit :
    (overflow : Overflow) (mode : TruncationMode) (capacity limit : ℕ) (sequences : Rows)
    → 0 < limit
    → limit ≤ capacity
    → any_unfit capacity
        (row_lengths (field_chunks overflow mode limit "sequence" sequences sequences))
      ≡ false
unfolding field_chunks
field_chunks-fit overflow mode capacity limit [] positive le = refl
field_chunks-fit overflow mode capacity limit (seq ∷ sequences) positive le =
    let rest = field_chunks-fit overflow mode capacity limit sequences positive le in go seq rest
  where
    go :
        (seq : List ℕ)
        → any_unfit capacity
            (row_lengths (field_chunks overflow mode limit "sequence" sequences sequences))
          ≡ false
        → any_unfit capacity (
            row_lengths
              (field_chunks overflow mode limit "sequence" (seq ∷ sequences) (seq ∷ sequences)))
          ≡ false
    go [] rest = rest
    go (x ∷ seq) rest =
        any_unfit-append capacity
          (cut_row "sequence" limit (x ∷ seq) (chunk_starts overflow mode limit (length (x ∷ seq))))
          (field_chunks overflow mode limit "sequence" sequences sequences)
          (cut_row-fit capacity limit (x ∷ seq)
            (chunk_starts overflow mode limit (length (x ∷ seq))) positive le
            (chunk_starts-Below overflow mode limit (length (x ∷ seq)) positive (omega arith)))
          rest

pub count_all-Below :
    (n : ℕ) (bins : List (List ℕ)) → ((i : ℕ) → 0 < count_all i bins → i < n) → Each (Below n) bins
count_all-Below n [] h = tt
count_all-Below n (bin ∷ bins) h = (
  go bin (λ i some_of. h i (omega arith)),
  count_all-Below n bins (λ i some_of. h i (omega arith)),
)
  where
    go : (bin : List ℕ) → ((i : ℕ) → 0 < count i bin → i < n) → Below n bin
    go [] h = tt
    go (i ∷ bin) h = (h i (ground arith), go bin (λ j some_of. h j (omega arith)))

-- The bins of either packing.
unfoldable pub Planned : List ℕ → ℕ → List ℕ → Type 0
Planned lengths capacity bin = Below (length lengths) bin × (total lengths bin ≤ capacity)

pub both-Each :
    (P Q : List ℕ → Type 0) (bins : List (List ℕ))
    → Each P bins
    → Each Q bins
    → Each (λ (bin : List ℕ). P bin × Q bin) bins
both-Each P Q [] p q = tt
both-Each P Q (bin ∷ bins) (p, ps) (q, qs) = ((p, q), both-Each P Q bins ps qs)

pub singletons-Planned :
    (lengths : List ℕ) (capacity : ℕ)
    → any_unfit capacity lengths ≡ false
    → (start n : ℕ) → start + n ≤ length lengths
    → Each (Planned lengths capacity) (singletons (range_from start n))
unfolding Planned
singletons-Planned lengths capacity fit start zero le = tt
singletons-Planned lengths capacity fit start (suc n) le = (
  ((omega arith, tt), omega (arith, (any_unfit_none capacity lengths start fit (omega arith)).1)),
  singletons-Planned lengths capacity fit (start + 1) n (omega arith),
)

pub plan-Planned :
    (packing : Strategy) (lengths : List ℕ) (capacity : ℕ)
    → 0 < capacity
    → any_unfit capacity lengths ≡ false
    → (bins : List (List ℕ)) × (plan packing lengths capacity ≡ ok bins)
      × Each (Planned lengths capacity) bins
unfolding plan Planned
plan-Planned one_per_bin lengths capacity positive fit = (
  singletons (range_from 0 (length lengths)),
  refl,
  singletons-Planned lengths capacity fit 0 (length lengths) (omega arith),
)
plan-Planned bfd lengths capacity positive fit =
    let (bins, e, packed) = plan_bfd-Packed lengths capacity (ground (arith, fit)) in
    (
      bins,
      e,
      both-Each (Below (length lengths)) (λ (bin : List ℕ). total lengths bin ≤ capacity) bins
          (count_all-Below (length lengths) bins
            (λ i some_of. ground (arith, some_of, packed.once i)))
          (map-Each (λ (bin : List ℕ). (0 < total lengths bin) × (total lengths bin ≤ capacity))
            (λ (bin : List ℕ). total lengths bin ≤ capacity) bins (λ bin p. p.1) packed.within),
    )

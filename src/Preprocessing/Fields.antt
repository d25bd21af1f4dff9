-- ===== src/Preprocessing/Fields.antt =====
-- astrai/preprocessing/packing.py, `pack_sequences`: token-aligned fields are cut into chunks and the
-- chunks are packed by one plan. The options are one of their two values each, and a field is cut in
-- a pass of its own.
pub mod Chunks
pub mod Planned
pub mod Aligned
pub mod Sequences
use Prim.Native.String.{String}
use mathlib.Core.Option
use astr_ai.Base.{
  ℕ, zero, suc, ◌+◌, ◌-◌, min, Bool, true, false, not, ◌&&◌, List, [], ◌∷◌, ◌++◌, map, Option, none,
  some, ltb, ◌==◌, if◌then◌else◌, length, get_elem?, take, drop, is_nil, Result, ok, err,
  index_error, value_error, ◌>>=◌, ◌>>◌, raise_if,
}
use astr_ai.Base.Dict.{string_eq, ◌≟◌, lookup, insert, has_key}
use astr_ai.Preprocessing.Packing.{range_from, plan_bfd}

pub data Overflow : Type 0 where
  truncate split : Overflow

pub data Strategy : Type 0 where
  bfd one_per_bin : Strategy

pub data TruncationMode : Type 0 where
  keep_start keep_end : TruncationMode

abbrev pub Rows : Type 0
Rows = List (List ℕ)

abbrev pub Fields : Type 0
Fields = List (String × Rows)

-- `range(start, stop, limit)`, with fuel for each place that is left.
unfoldable pub steps : ℕ → ℕ → ℕ → ℕ → List ℕ
steps limit stop zero start = []
steps limit stop (suc fuel) start =
    let rest = steps limit stop fuel (start + limit) in if ltb start stop then start ∷ rest else []

-- Where the chunks of a sequence of this length start.
unfoldable pub chunk_starts : Overflow → TruncationMode → ℕ → ℕ → List ℕ
unfolding steps
chunk_starts split mode limit size = steps limit size size 0
chunk_starts truncate keep_end limit size = (size - limit) ∷ []
chunk_starts truncate keep_start limit size = 0 ∷ []

unfoldable pub chunk : String → ℕ → List ℕ → ℕ → List ℕ
chunk name limit row start =
    let cut = take limit (drop start row) in
    if name ≟ "position_ids" then range_from 0 (length cut) else cut

abbrev pub cut_row : String → ℕ → List ℕ → List ℕ → Rows
cut_row name limit row [] = []
cut_row name limit row (start ∷ starts) = chunk name limit row start ∷ cut_row name limit row starts

-- `chunks[name]`.
unfoldable pub field_chunks : Overflow → TruncationMode → ℕ → String → Rows → Rows → Rows
unfolding chunk_starts chunk
field_chunks overflow mode limit name [] rows = []
field_chunks overflow mode limit name (seq ∷ sequences) [] = []
field_chunks overflow mode limit name (seq ∷ sequences) (row ∷ rows) =
    let rest = field_chunks overflow mode limit name sequences rows in
    if is_nil seq
    then rest
    else cut_row name limit row (chunk_starts overflow mode limit (length seq)) ++ rest

-- `len(rows) == len(sequences)`, and so are the rows.
abbrev pub aligned : Rows → Rows → Bool
aligned [] [] = true
aligned [] (seq ∷ sequences) = false
aligned (row ∷ rows) [] = false
aligned (row ∷ rows) (seq ∷ sequences) = length row == length seq && aligned rows sequences

abbrev pub all_aligned : Rows → Fields → Bool
all_aligned sequences [] = true
all_aligned sequences ((name, rows) ∷ keys) = aligned rows sequences && all_aligned sequences keys

-- `[token for index in indices for token in rows[index]]`.
abbrev pub item_or {ℓ} : {A : Type ℓ} → Option A → Result A
item_or none = err index_error
item_or (some a) = ok a

unfoldable pub gather : Rows → List ℕ → Result (List ℕ)
gather rows [] = ok []
gather rows (index ∷ indices) = do
  row ← item_or (get_elem? rows index)
  rest ← gather rows indices
  ok (row ++ rest)

-- `[lengths[index] for index in indices]`.
unfoldable pub pick : List ℕ → List ℕ → Result (List ℕ)
pick lengths [] = ok []
pick lengths (index ∷ indices) = do
  n ← item_or (get_elem? lengths index)
  rest ← pick lengths indices
  ok (n ∷ rest)

-- One answer for each bin.
abbrev pub each_bin : (List ℕ → Result (List ℕ)) → List (List ℕ) → Result Rows
each_bin f [] = ok []
each_bin f (bin ∷ bins) = do row ← f bin; rest ← each_bin f bins; ok (row ∷ rest)

unfoldable pub pack_fields : List (List ℕ) → Fields → Result Fields
unfolding gather
pack_fields bins [] = ok []
pack_fields bins ((name, rows) ∷ chunks) = do
  packed ← each_bin (gather rows) bins
  rest ← pack_fields bins chunks
  ok ((name, packed) ∷ rest)

abbrev pub chunk_fields : Overflow → TruncationMode → ℕ → Rows → Fields → Fields
chunk_fields overflow mode limit sequences [] = []
chunk_fields overflow mode limit sequences ((name, rows) ∷ keys) =
    (name, field_chunks overflow mode limit name sequences rows)
    ∷ chunk_fields overflow mode limit sequences keys

abbrev pub singletons : List ℕ → List (List ℕ)
singletons [] = []
singletons (index ∷ indices) = (index ∷ []) ∷ singletons indices

unfoldable pub plan : Strategy → List ℕ → ℕ → Result (List (List ℕ))
plan bfd lengths max_packed_len = plan_bfd lengths max_packed_len
plan one_per_bin lengths max_packed_len = ok (singletons (range_from 0 (length lengths)))

abbrev pub row_lengths : Rows → List ℕ
row_lengths [] = []
row_lengths (row ∷ rows) = length row ∷ row_lengths rows

-- From the chunks on.
unfoldable pub assemble : Strategy → ℕ → Rows → Fields → Result Fields
unfolding plan pick pack_fields
assemble packing max_packed_len sequence chunks = do
  bins ← plan packing (row_lengths sequence) max_packed_len
  packed ← pack_fields bins chunks
  segments ← each_bin (pick (row_lengths sequence)) bins
  ok (insert "seq_lengths" segments packed)

unfoldable pub pack_sequences :
    Fields → ℕ → ℕ → Overflow → Strategy → TruncationMode → Result Fields
unfolding assemble field_chunks
pack_sequences keys max_seq_len max_packed_len overflow packing mode = do
  let limit = min max_seq_len max_packed_len
  raise_if (limit == 0) value_error
  elim (lookup "sequence" keys) [
    | none ↦ ok keys
    | some sequences ↦ do
      raise_if (has_key "seq_lengths" keys) value_error
      raise_if (not (all_aligned sequences keys)) value_error
      assemble packing max_packed_len
          (field_chunks overflow mode limit "sequence" sequences sequences)
          (chunk_fields overflow mode limit sequences keys)
  ]

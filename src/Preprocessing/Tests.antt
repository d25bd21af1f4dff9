-- ===== src/Preprocessing/Tests.antt =====
-- Runs of astrai/preprocessing/packing.py on concrete inputs.
use astr_ai.Base.{ℕ, ◌≡◌, refl, List, [], ◌∷◌, ok, arith}
use astr_ai.Base.Dict.{string_eq, lookup, insert, has_key}
use astr_ai.Preprocessing.Packing.{Plan, empty_plan, place, plan_bfd}
use astr_ai.Preprocessing.Packing.Bfd.{Packed, plan_bfd-Packed, empty_plan-Inv}
use astr_ai.Preprocessing.Packing.BestFit.{Placed, place-Placed}
use astr_ai.Preprocessing.Fields.{
  split, truncate, bfd, keep_start, keep_end, Rows, Fields, field_chunks, pack_sequences,
}
use astr_ai.Preprocessing.Fields.Chunks.{concat, concat-field_chunks}
use astr_ai.Preprocessing.Fields.Aligned.{Within, sums, Matching}
use astr_ai.Preprocessing.Fields.Sequences.{pack_sequences-Matching}
use astr_ai.Preprocessing.PositionId.{doc_reset, generate_position_ids}
use astr_ai.Preprocessing.PositionId.Packed.{field_chunks-positions}

abbrev lengths : List ℕ
lengths = 3 ∷ 4 ∷ 2 ∷ 1 ∷ []

plan_of_lengths : plan_bfd lengths 5 ≡ ok ((0 ∷ 2 ∷ []) ∷ (1 ∷ 3 ∷ []) ∷ [])
unfolding plan_bfd
plan_of_lengths = refl

plan_bfd-Packed_example :
    (bins : List (List ℕ)) × (plan_bfd lengths 5 ≡ ok bins) × Packed lengths 5 bins
plan_bfd-Packed_example = plan_bfd-Packed lengths 5 refl

place-Placed_example :
    (q : Plan) × (place 5 lengths (empty_plan 5) 1 ≡ ok q) × Placed lengths 5 (empty_plan 5) 1 q
place-Placed_example =
    place-Placed lengths 5 (empty_plan 5) 1 (empty_plan-Inv lengths 5) (omega arith) (omega arith)

abbrev sequences : Rows
sequences = (7 ∷ 8 ∷ 9 ∷ []) ∷ [] ∷ (5 ∷ 6 ∷ []) ∷ []

abbrev masks : Rows
masks = (0 ∷ 1 ∷ 1 ∷ []) ∷ [] ∷ (1 ∷ 1 ∷ []) ∷ []

concat-field_chunks_example :
    concat (field_chunks split keep_start 2 "loss_mask" sequences masks) ≡ concat masks
concat-field_chunks_example =
    concat-field_chunks keep_start 2 "loss_mask" sequences masks (omega arith) refl refl

abbrev keys : Fields
keys = ("sequence", sequences) ∷ ("loss_mask", masks) ∷ []

packed_keys :
    pack_sequences keys 2 3 truncate bfd keep_end
    ≡ ok (
        ("sequence", (8 ∷ 9 ∷ []) ∷ (5 ∷ 6 ∷ []) ∷ [])
        ∷ ("loss_mask", (1 ∷ 1 ∷ []) ∷ (1 ∷ 1 ∷ []) ∷ [])
        ∷ ("seq_lengths", (2 ∷ []) ∷ (2 ∷ []) ∷ [])
        ∷ [])
unfolding pack_sequences plan_bfd lookup insert has_key
packed_keys = refl

pack_sequences-Matching_example :
    (fields : Fields) × (segments : Rows) × (pack_sequences keys 2 3 split bfd keep_start
      ≡ ok (insert "seq_lengths" segments fields))
    × Matching segments keys fields
    × Within 3 (sums segments)
pack_sequences-Matching_example =
    pack_sequences-Matching keys 2 3 split bfd keep_start sequences (omega arith) (omega arith)
      (unfold lookup in refl) (unfold has_key in refl) refl

field_chunks-positions_example :
    concat (field_chunks split keep_start 2 "position_ids" sequences masks)
    ≡ generate_position_ids
        (field_chunks split keep_start 2 "sequence" sequences sequences)
        doc_reset
field_chunks-positions_example = field_chunks-positions split keep_start 2 sequences masks refl

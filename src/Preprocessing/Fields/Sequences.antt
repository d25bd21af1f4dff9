-- ===== src/Preprocessing/Fields/Sequences.antt =====
-- astrai/preprocessing/packing.py: what `pack_sequences` gives.
use Prim.Native.String.{String}
use astr_ai.Base.{
  ℕ, ◌<◌, min, ◌≡◌, refl, sym, ap, ◌∙◌, subst, true, false, List, [], ◌∷◌, some, ◌==◌, length, ok,
  ◌>>=◌, arith,
}
use astr_ai.Base.Dict.{string_eq, lookup, insert, has_key}
use astr_ai.Preprocessing.Packing.Bfd.{Each, map-Each}
use astr_ai.Preprocessing.Fields.{
  Overflow, Strategy, TruncationMode, Rows, Fields, field_chunks, aligned, all_aligned, pick,
  each_bin, pack_fields, chunk_fields, plan, row_lengths, assemble, pack_sequences,
}
use astr_ai.Preprocessing.Fields.Chunks.{row_lengths-field_chunks}
use astr_ai.Preprocessing.Fields.Planned.{Below, field_chunks-fit, Planned, plan-Planned}
use astr_ai.Preprocessing.Fields.Aligned.{
  totals, sums, length-row_lengths, each_bin-gather, each_bin-pick, Within, totals-Within, Matching,
  pack_fields_step,
}

module _ (overflow : Overflow) (packing : Strategy) (mode : TruncationMode) (limit : ℕ)
    (sequences : Rows) where
  lengths_of : List ℕ
  lengths_of = row_lengths (field_chunks overflow mode limit "sequence" sequences sequences)

  -- A field's chunks are as many as the plan has lengths.
  length-field_chunks :
      (name : String) (rows : Rows)
      → aligned rows sequences ≡ true
      → length lengths_of ≡ length (field_chunks overflow mode limit name sequences rows)
  unfolding lengths_of
  length-field_chunks name rows h =
      ap (λ (ns : List ℕ). length ns)
        (sym (row_lengths-field_chunks overflow mode limit name sequences rows h))
      ∙ length-row_lengths (field_chunks overflow mode limit name sequences rows)

  pack_fields-Matching :
      (capacity : ℕ) (bins : List (List ℕ)) (segments : Rows)
      → Each (Planned lengths_of capacity) bins
      → sums segments ≡ totals lengths_of bins
      → (keys : Fields) → all_aligned sequences keys ≡ true
      → (fields : Fields) × (pack_fields bins (chunk_fields overflow mode limit sequences keys)
          ≡ ok fields)
        × Matching segments keys fields
  unfolding Planned lengths_of
  pack_fields-Matching capacity bins segments each sized [] h = ([], unfold pack_fields in refl, tt)
  pack_fields-Matching capacity bins segments each sized ((name, rows) ∷ keys) h =
      let here : aligned rows sequences ≡ true = ground arith in
      let chunks = field_chunks overflow mode limit name sequences rows in
      let (fields, e, rest) =
        pack_fields-Matching capacity bins segments each sized keys (ground arith) in
      let (packed, f, long) = each_bin-gather chunks bins (
        subst (λ (n : ℕ). Each (Below n) bins) (length-field_chunks name rows here)
          (map-Each (Planned lengths_of capacity) (Below (length lengths_of)) bins (λ bin p. p.0)
            each)) in
      (
        (name, packed) ∷ fields,
        pack_fields_step bins name chunks packed (chunk_fields overflow mode limit sequences keys)
            fields f e,
        (
          refl,
          long
              ∙ ap (λ (ns : List ℕ). totals ns bins)
                  (row_lengths-field_chunks overflow mode limit name sequences rows here)
              ∙ sym sized,
          rest,
        ),
      )

assemble-ok :
    (packing : Strategy) (max_packed_len : ℕ) (sequence : Rows) (chunks : Fields)
    (bins : List (List ℕ)) (fields : Fields) (segments : Rows)
    → plan packing (row_lengths sequence) max_packed_len ≡ ok bins
    → pack_fields bins chunks ≡ ok fields
    → each_bin (pick (row_lengths sequence)) bins ≡ ok segments
    → assemble packing max_packed_len sequence chunks ≡ ok (insert "seq_lengths" segments fields)
unfolding assemble
assemble-ok packing max_packed_len sequence chunks bins fields segments e f g =
    rw (e, f, g, ◌>>=◌) refl

pack_sequences-assemble :
    (keys : Fields) (max_seq_len max_packed_len : ℕ) (overflow : Overflow) (packing : Strategy)
    (mode : TruncationMode) (sequences : Rows)
    → 0 < max_seq_len
    → 0 < max_packed_len
    → lookup "sequence" keys ≡ some sequences
    → has_key "seq_lengths" keys ≡ false
    → all_aligned sequences keys ≡ true
    → pack_sequences keys max_seq_len max_packed_len overflow packing mode
      ≡ assemble packing max_packed_len
          (field_chunks overflow mode
            (min max_seq_len max_packed_len)
            "sequence"
            sequences
            sequences)
          (chunk_fields overflow mode (min max_seq_len max_packed_len) sequences keys)
unfolding pack_sequences
pack_sequences-assemble keys max_seq_len max_packed_len overflow packing mode sequences long wide
      found fresh same =
    let sized : (min max_seq_len max_packed_len == 0) ≡ false = ground arith in
    rw (sized, found, fresh, same, ◌>>=◌) refl

-- On positive bounds and token-aligned fields, one of which is named sequence and none seq_lengths,
-- packing succeeds under every option: each packed field has the name of its key and rows as long as
-- the segments that seq_lengths records for them, and no row is longer than max_packed_len.
pub pack_sequences-Matching :
    (keys : Fields) (max_seq_len max_packed_len : ℕ) (overflow : Overflow) (packing : Strategy)
    (mode : TruncationMode) (sequences : Rows)
    → 0 < max_seq_len
    → 0 < max_packed_len
    → lookup "sequence" keys ≡ some sequences
    → has_key "seq_lengths" keys ≡ false
    → all_aligned sequences keys ≡ true
    → (fields : Fields) × (segments : Rows) × (pack_sequences keys max_seq_len max_packed_len
          overflow packing mode
        ≡ ok (insert "seq_lengths" segments fields))
      × Matching segments keys fields
      × Within max_packed_len (sums segments)
unfolding lengths_of Planned
pack_sequences-Matching keys max_seq_len max_packed_len overflow packing mode sequences long wide
      found fresh same =
    let limit = min max_seq_len max_packed_len in
    let sequence = field_chunks overflow mode limit "sequence" sequences sequences in
    let (bins, e, each) =
      plan-Planned packing (row_lengths sequence) max_packed_len wide (
        field_chunks-fit overflow mode max_packed_len limit sequences (omega arith)
          (omega arith)) in
    let (segments, g, sized) = each_bin-pick (row_lengths sequence) bins (
      map-Each (Planned (row_lengths sequence) max_packed_len)
        (Below (length (row_lengths sequence))) bins (λ bin p. p.0) each) in
    let (fields, f, matching) =
      pack_fields-Matching overflow packing mode limit sequences max_packed_len bins segments each
        sized keys same in
    (
      fields,
      segments,
      pack_sequences-assemble keys max_seq_len max_packed_len overflow packing mode sequences long
            wide found fresh same
          ∙ assemble-ok packing max_packed_len sequence
              (chunk_fields overflow mode limit sequences keys) bins fields segments e f g,
      matching,
      subst (Within max_packed_len) (sym sized)
          (totals-Within (row_lengths sequence) max_packed_len bins each),
    )

-- ===== src/Preprocessing/PositionId/Packed.antt =====
-- astrai/preprocessing/position_id.py against packing.py: the positions that the packer writes.
use mathlib.Core.List.{append_assoc}
use astr_ai.Base.{
  ℕ, ◌-◌, min, ◌≡◌, refl, sym, ap, ◌∙◌, true, List, [], ◌∷◌, ◌++◌, length, is_nil, drop, arith,
  Bool-cases, inl, inr, length-take, length-drop,
}
use astr_ai.Preprocessing.Packing.{range_from}
use astr_ai.Preprocessing.Fields.{
  Overflow, TruncationMode, Rows, chunk_starts, chunk, cut_row, field_chunks, aligned,
}
use astr_ai.Preprocessing.Fields.Chunks.{concat, concat-append}
use astr_ai.Preprocessing.PositionId.{doc_reset, reset_positions, generate_position_ids}

chunk-positions :
    (limit : ℕ) (row seq : List ℕ) (start : ℕ)
    → length row ≡ length seq
    → chunk "position_ids" limit row start
      ≡ range_from 0 (length (chunk "sequence" limit seq start))
unfolding chunk
chunk-positions limit row seq start e =
    ap (λ (n : ℕ). range_from 0 n)
      (length-take limit (drop start row)
        ∙ ap (λ (n : ℕ). min limit n)
            (length-drop start row ∙ ap (λ (n : ℕ). n - start) e ∙ sym (length-drop start seq))
        ∙ sym (length-take limit (drop start seq)))

cut_row-positions :
    (limit : ℕ) (row seq starts : List ℕ)
    → length row ≡ length seq
    → concat (cut_row "position_ids" limit row starts)
      ≡ reset_positions (cut_row "sequence" limit seq starts)
cut_row-positions limit row seq [] e = refl
cut_row-positions limit row seq (start ∷ starts) e =
    ap (λ (ps : List ℕ). ps ++ concat (cut_row "position_ids" limit row starts))
      (chunk-positions limit row seq start e)
    ∙ ap (λ (ps : List ℕ). range_from 0 (length (chunk "sequence" limit seq start)) ++ ps)
        (cut_row-positions limit row seq starts e)

reset_positions-append :
    (xs ys : Rows) → reset_positions (xs ++ ys) ≡ reset_positions xs ++ reset_positions ys
reset_positions-append [] ys = refl
reset_positions-append (x ∷ xs) ys =
    ap (λ (ps : List ℕ). range_from 0 (length x) ++ ps) (reset_positions-append xs ys)
    ∙ sym (append_assoc (range_from 0 (length x)) (reset_positions xs) (reset_positions ys))

-- Whatever an aligned position_ids field holds, and under every overflow and truncation mode, its
-- chunks are together the positions that doc_reset generates for the chunks of the sequences.
pub field_chunks-positions :
    (overflow : Overflow) (mode : TruncationMode) (limit : ℕ) (sequences rows : Rows)
    → aligned rows sequences ≡ true
    → concat (field_chunks overflow mode limit "position_ids" sequences rows)
      ≡ generate_position_ids
          (field_chunks overflow mode limit "sequence" sequences sequences)
          doc_reset
unfolding field_chunks
field_chunks-positions overflow mode limit [] rows h = refl
field_chunks-positions overflow mode limit (seq ∷ sequences) [] h = cc
field_chunks-positions overflow mode limit (seq ∷ sequences) (row ∷ rows) h =
    let same : length row ≡ length seq = ground arith in
    let rest = field_chunks-positions overflow mode limit sequences rows (ground arith) in
    let starts = chunk_starts overflow mode limit (length seq) in
    elim (Bool-cases (is_nil seq)) [
      | inl blank ↦ rw blank rest
      | inr full ↦ rw full (
          concat-append (cut_row "position_ids" limit row starts)
            (field_chunks overflow mode limit "position_ids" sequences rows)
          ∙ ap
              (λ (ps : List ℕ).
                ps ++ concat (field_chunks overflow mode limit "position_ids" sequences rows))
              (cut_row-positions limit row seq starts same)
          ∙ ap (λ (ps : List ℕ). reset_positions (cut_row "sequence" limit seq starts) ++ ps) rest
          ∙ sym (
              reset_positions-append (cut_row "sequence" limit seq starts)
                (field_chunks overflow mode limit "sequence" sequences sequences)))
    ]

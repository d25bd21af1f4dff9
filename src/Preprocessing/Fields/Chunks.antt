-- ===== src/Preprocessing/Fields/Chunks.antt =====
-- astrai/preprocessing/packing.py: the chunks that a field is cut into.
use Prim.Native.String.{String}
use mathlib.Core.List.{append_assoc}
use astr_ai.Base.{
  ℕ, zero, suc, ◌+◌, ◌-◌, ◌≤◌, ◌<◌, min, ◌≡◌, refl, sym, ap, ◌∙◌, true, false, List, [], ◌∷◌, ◌++◌,
  ltb, length, take, drop, is_nil, length-take, length-drop, drop-drop, take-append-drop, arith,
  Bool-cases, inl, inr,
}
use astr_ai.Base.Dict.{string_eq, ◌≟◌}
use astr_ai.Preprocessing.Packing.{range_from}
use astr_ai.Preprocessing.Fields.{
  Overflow, split, TruncationMode, Rows, steps, chunk_starts, chunk, cut_row, field_chunks, aligned,
  row_lengths,
}

abbrev pub concat : Rows → List ℕ
concat [] = []
concat (row ∷ rows) = row ++ concat rows

pub concat-append : (xs ys : Rows) → concat (xs ++ ys) ≡ concat xs ++ concat ys
concat-append [] ys = refl
concat-append (x ∷ xs) ys =
    ap (λ (r : List ℕ). x ++ r) (concat-append xs ys) ∙ sym (append_assoc x (concat xs) (concat ys))

length-range_from : (start n : ℕ) → length (range_from start n) ≡ n
length-range_from start zero = refl
length-range_from start (suc n) = ap suc (length-range_from (start + 1) n)

pub length-chunk :
    (name : String) (limit : ℕ) (row : List ℕ) (start : ℕ)
    → length (chunk name limit row start) ≡ min limit (length row - start)
unfolding chunk
length-chunk name limit row start = ground (
  arith,
  length-range_from 0 (length (take limit (drop start row))),
  length-take limit (drop start row),
  length-drop start row,
)

-- Fields that are aligned are cut into chunks of the same lengths.
row_lengths-append : (xs ys : Rows) → row_lengths (xs ++ ys) ≡ row_lengths xs ++ row_lengths ys
row_lengths-append [] ys = refl
row_lengths-append (x ∷ xs) ys = ap (λ (r : List ℕ). length x ∷ r) (row_lengths-append xs ys)

row_lengths-cut_row :
    (name other : String) (limit : ℕ) (row seq : List ℕ) (starts : List ℕ)
    → length row ≡ length seq
    → row_lengths (cut_row name limit row starts) ≡ row_lengths (cut_row other limit seq starts)
row_lengths-cut_row name other limit row seq [] e = refl
row_lengths-cut_row name other limit row seq (start ∷ starts) e =
    let here : length (chunk name limit row start) ≡ length (chunk other limit seq start) =
      length-chunk name limit row start
      ∙ ap (λ (n : ℕ). min limit (n - start)) e
      ∙ sym (length-chunk other limit seq start) in
    let rest = row_lengths-cut_row name other limit row seq starts e in
    ap (λ (n : ℕ). n ∷ row_lengths (cut_row name limit row starts)) here
    ∙ ap (λ (ns : List ℕ). length (chunk other limit seq start) ∷ ns) rest

pub row_lengths-field_chunks :
    (overflow : Overflow) (mode : TruncationMode) (limit : ℕ) (name : String)
    (sequences rows : Rows)
    → aligned rows sequences ≡ true
    → row_lengths (field_chunks overflow mode limit name sequences rows)
      ≡ row_lengths (field_chunks overflow mode limit "sequence" sequences sequences)
unfolding field_chunks
row_lengths-field_chunks overflow mode limit name [] rows h = refl
row_lengths-field_chunks overflow mode limit name (seq ∷ sequences) [] h = cc
row_lengths-field_chunks overflow mode limit name (seq ∷ sequences) (row ∷ rows) h =
    let rest = row_lengths-field_chunks overflow mode limit name sequences rows (ground arith) in
    elim (Bool-cases (is_nil seq)) [
      | inl blank ↦ rw blank rest
      | inr full ↦ rw full (
          row_lengths-append
            (cut_row name limit row (chunk_starts overflow mode limit (length seq)))
            (field_chunks overflow mode limit name sequences rows)
          ∙ ap
              (λ (ns : List ℕ).
                ns ++ row_lengths (field_chunks overflow mode limit name sequences rows))
              (row_lengths-cut_row name "sequence" limit row seq
                (chunk_starts overflow mode limit (length seq)) (ground arith))
          ∙ ap
              (λ (ns : List ℕ).
                row_lengths
                  (cut_row "sequence" limit seq (chunk_starts overflow mode limit (length seq)))
                ++ ns)
              rest
          ∙ sym (
              row_lengths-append
                (cut_row "sequence" limit seq (chunk_starts overflow mode limit (length seq)))
                (field_chunks overflow mode limit "sequence" sequences sequences)))
    ]

-- The pieces of `row` from `start` on, cut at each step, put together again.
drop_all : (n : ℕ) (row : List ℕ) → length row ≤ n → drop n row ≡ []
drop_all zero [] h = refl
drop_all zero (x ∷ row) h = absurd (omega arith)
drop_all (suc n) [] h = refl
drop_all (suc n) (x ∷ row) h = drop_all n row (omega arith)

concat-steps :
    (name : String) (limit : ℕ) (row : List ℕ)
    → 0 < limit
    → (name ≟ "position_ids") ≡ false
    → (fuel start : ℕ) → length row ≤ start + fuel
    → concat (cut_row name limit row (steps limit (length row) fuel start)) ≡ drop start row
unfolding steps chunk
concat-steps name limit row positive other zero start enough =
    sym (drop_all start row (omega arith))
concat-steps name limit row positive other (suc fuel) start enough =
    elim (Bool-cases (ltb start (length row))) [
      | inr over ↦ rw over (sym (drop_all start row (ground arith)))
      | inl more ↦
          let rest =
            concat-steps name limit row positive other fuel (start + limit) (omega arith) in
          rw (more, other)
            (ap (λ (r : List ℕ). take limit (drop start row) ++ r)
                (rest ∙ sym (drop-drop limit start row))
              ∙ take-append-drop limit (drop start row))
    ]

blank_row : (row seq : List ℕ) → length row ≡ length seq → is_nil seq ≡ true → row ≡ []
blank_row [] seq e h = refl
blank_row (x ∷ row) [] e h = absurd (omega (arith, e))
blank_row (x ∷ row) (y ∷ seq) e h = cc

-- Splitting loses no token and keeps their order: the chunks of an aligned field that is not
-- position_ids are together its rows.
pub concat-field_chunks :
    (mode : TruncationMode) (limit : ℕ) (name : String) (sequences rows : Rows)
    → 0 < limit
    → (name ≟ "position_ids") ≡ false
    → aligned rows sequences ≡ true
    → concat (field_chunks split mode limit name sequences rows) ≡ concat rows
unfolding field_chunks chunk_starts
concat-field_chunks mode limit name [] [] positive other h = refl
concat-field_chunks mode limit name [] (row ∷ rows) positive other h = cc
concat-field_chunks mode limit name (seq ∷ sequences) [] positive other h = cc
concat-field_chunks mode limit name (seq ∷ sequences) (row ∷ rows) positive other h =
    let same : length row ≡ length seq = ground arith in
    let rest = concat-field_chunks mode limit name sequences rows positive other (ground arith) in
    elim (Bool-cases (is_nil seq)) [
      | inl blank ↦
          rw blank
            (rest ∙ ap (λ (r : List ℕ). r ++ concat rows) (sym (blank_row row seq same blank)))
      | inr full ↦ rw full (
          concat-append (cut_row name limit row (steps limit (length seq) (length seq) 0))
            (field_chunks split mode limit name sequences rows)
          ∙ ap
              (λ (r : List ℕ).
                concat (cut_row name limit row (steps limit (length seq) (length seq) 0)) ++ r)
              rest
          ∙ ap (λ (r : List ℕ). r ++ concat rows)
              (ap (λ (n : ℕ). concat (cut_row name limit row (steps limit n n 0))) (sym same)
                ∙ concat-steps name limit row positive other (length row) 0 (omega arith)))
    ]

-- ===== src/Preprocessing/Fields/Aligned.antt =====
-- astrai/preprocessing/packing.py, `pack_sequences`: the packed fields stay aligned.
use Prim.Native.String.{String}
use astr_ai.Base.{
  ℕ, zero, suc, ◌+◌, ◌≤◌, ◌≡◌, refl, ap, ◌∙◌, List, [], ◌∷◌, ◌++◌, some, length, get_elem?, Result,
  ok, ◌>>=◌, length-append, get_elem?_total, arith,
}
use astr_ai.Base.Dict.{string_eq}
use astr_ai.Preprocessing.Packing.{len_at}
use astr_ai.Preprocessing.Packing.Counting.{total}
use astr_ai.Preprocessing.Packing.Bfd.{Each}
use astr_ai.Preprocessing.Fields.{
  Rows, Fields, item_or, gather, pick, each_bin, pack_fields, row_lengths,
}
use astr_ai.Preprocessing.Fields.Planned.{Below, Planned}

-- The totals of some bins, and of their segments.
unfoldable pub totals : List ℕ → List (List ℕ) → List ℕ
totals lengths [] = []
totals lengths (bin ∷ bins) = total lengths bin ∷ totals lengths bins

abbrev pub sum : List ℕ → ℕ
sum [] = 0
sum (n ∷ ns) = n + sum ns

abbrev pub sums : Rows → List ℕ
sums [] = []
sums (segment ∷ segments) = sum segment ∷ sums segments

pub length-row_lengths : (rows : Rows) → length (row_lengths rows) ≡ length rows
length-row_lengths [] = refl
length-row_lengths (row ∷ rows) = ap suc (length-row_lengths rows)

len_at-row_lengths :
    (rows : Rows) (i : ℕ) (row : List ℕ)
    → get_elem? rows i ≡ some row
    → len_at (row_lengths rows) i ≡ length row
len_at-row_lengths [] i row e = cc
len_at-row_lengths (r ∷ rows) zero row e = ground (arith, e)
len_at-row_lengths (r ∷ rows) (suc i) row e = len_at-row_lengths rows i row e

len_at-get_elem? :
    (lengths : List ℕ) (i n : ℕ) → get_elem? lengths i ≡ some n → len_at lengths i ≡ n
len_at-get_elem? [] i n e = cc
len_at-get_elem? (m ∷ lengths) zero n e = ground (arith, e)
len_at-get_elem? (m ∷ lengths) (suc i) n e = len_at-get_elem? lengths i n e

gather_step :
    (rows : Rows) (i : ℕ) (bin row rest : List ℕ)
    → get_elem? rows i ≡ some row
    → gather rows bin ≡ ok rest
    → gather rows (i ∷ bin) ≡ ok (row ++ rest)
unfolding gather
gather_step rows i bin row rest e f = rw (e, item_or, f, ◌>>=◌) refl

pick_step :
    (lengths : List ℕ) (i : ℕ) (bin : List ℕ) (n : ℕ) (rest : List ℕ)
    → get_elem? lengths i ≡ some n
    → pick lengths bin ≡ ok rest
    → pick lengths (i ∷ bin) ≡ ok (n ∷ rest)
unfolding pick
pick_step lengths i bin n rest e f = rw (e, item_or, f, ◌>>=◌) refl

each_bin_step :
    (f : List ℕ → Result (List ℕ)) (bin row : List ℕ) (bins rest : Rows)
    → f bin ≡ ok row
    → each_bin f bins ≡ ok rest
    → each_bin f (bin ∷ bins) ≡ ok (row ∷ rest)
each_bin_step f bin row bins rest e g = rw (e, g, each_bin, ◌>>=◌) refl

gather-Below :
    (rows : Rows) (bin : List ℕ)
    → Below (length rows) bin
    → (row : List ℕ) × (gather rows bin ≡ ok row) × (length row ≡ total (row_lengths rows) bin)
gather-Below rows [] below = ([], unfold gather in refl, refl)
gather-Below rows (i ∷ bin) (here, below) =
    let (row, e) = get_elem?_total rows i here in
    let (rest, f, sized) = gather-Below rows bin below in
    (
      row ++ rest,
      gather_step rows i bin row rest e f,
      omega (arith, length-append row rest, sized, len_at-row_lengths rows i row e),
    )

pick-Below :
    (lengths bin : List ℕ)
    → Below (length lengths) bin
    → (segment : List ℕ) × (pick lengths bin ≡ ok segment) × (sum segment ≡ total lengths bin)
pick-Below lengths [] below = ([], unfold pick in refl, refl)
pick-Below lengths (i ∷ bin) (here, below) =
    let (n, e) = get_elem?_total lengths i here in
    let (rest, f, sized) = pick-Below lengths bin below in
    (
      n ∷ rest,
      pick_step lengths i bin n rest e f,
      omega (arith, sized, len_at-get_elem? lengths i n e),
    )

pub each_bin-gather :
    (rows bins : Rows)
    → Each (Below (length rows)) bins
    → (packed : Rows) × (each_bin (gather rows) bins ≡ ok packed)
      × (row_lengths packed ≡ totals (row_lengths rows) bins)
unfolding totals
each_bin-gather rows [] below = ([], refl, refl)
each_bin-gather rows (bin ∷ bins) (here, below) =
    let (row, e, sized) = gather-Below rows bin here in
    let (packed, f, others) = each_bin-gather rows bins below in
    (
      row ∷ packed,
      each_bin_step (gather rows) bin row bins packed e f,
      ap (λ (n : ℕ). n ∷ row_lengths packed) sized
          ∙ ap (λ (ns : List ℕ). total (row_lengths rows) bin ∷ ns) others,
    )

pub each_bin-pick :
    (lengths : List ℕ) (bins : Rows)
    → Each (Below (length lengths)) bins
    → (segments : Rows) × (each_bin (pick lengths) bins ≡ ok segments)
      × (sums segments ≡ totals lengths bins)
unfolding totals
each_bin-pick lengths [] below = ([], refl, refl)
each_bin-pick lengths (bin ∷ bins) (here, below) =
    let (segment, e, sized) = pick-Below lengths bin here in
    let (segments, f, others) = each_bin-pick lengths bins below in
    (
      segment ∷ segments,
      each_bin_step (pick lengths) bin segment bins segments e f,
      ap (λ (n : ℕ). n ∷ sums segments) sized ∙ ap (λ (ns : List ℕ). total lengths bin ∷ ns) others,
    )

-- Every number of a list is within a bound.
abbrev pub Within : ℕ → List ℕ → Type 0
Within n [] = Unit
Within n (m ∷ ms) = (m ≤ n) × Within n ms

pub totals-Within :
    (lengths : List ℕ) (capacity : ℕ) (bins : List (List ℕ))
    → Each (Planned lengths capacity) bins
    → Within capacity (totals lengths bins)
unfolding totals Planned
totals-Within lengths capacity [] each = tt
totals-Within lengths capacity (bin ∷ bins) (p, each) =
    (p.1, totals-Within lengths capacity bins each)

-- Each field has the name of its key, and rows as long as the segments' sums.
abbrev pub Matching : Rows → Fields → Fields → Type 0
Matching segments [] [] = Unit
Matching segments [] (field ∷ fields) = ⊥
Matching segments (key ∷ keys) [] = ⊥
Matching segments ((name, rows) ∷ keys) ((same, packed) ∷ fields) =
    (name ≡ same) × (row_lengths packed ≡ sums segments) × Matching segments keys fields

pub pack_fields_step :
    (bins : List (List ℕ)) (name : String) (rows packed : Rows) (chunks fields : Fields)
    → each_bin (gather rows) bins ≡ ok packed
    → pack_fields bins chunks ≡ ok fields
    → pack_fields bins ((name, rows) ∷ chunks) ≡ ok ((name, packed) ∷ fields)
unfolding pack_fields
pack_fields_step bins name rows packed chunks fields e f = rw (e, f, ◌>>=◌) refl

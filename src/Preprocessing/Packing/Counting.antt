-- ===== src/Preprocessing/Packing/Counting.antt =====
-- astrai/preprocessing/packing.py: how often an index stands in some bins, and the length of a bin.
use astr_ai.Base.{
  ℕ, zero, suc, ◌+◌, ◌≤◌, ◌<◌, ◌≡◌, refl, Bool, List, [], ◌∷◌, ◌++◌, some, ltb, ◌==◌, if◌then◌else◌,
  length, get_elem?, set, arith,
}
use astr_ai.Preprocessing.Packing.{len_at, range_from, insert_by, sort_by}

abbrev pub count : ℕ → List ℕ → ℕ
count x [] = 0
count x (y ∷ ys) = (if y == x then 1 else 0) + count x ys

-- In all bins together.
abbrev pub count_all : ℕ → List (List ℕ) → ℕ
count_all x [] = 0
count_all x (bin ∷ bins) = count x bin + count_all x bins

-- The length of a bin's items.
abbrev pub total : List ℕ → List ℕ → ℕ
total lengths [] = 0
total lengths (i ∷ bin) = len_at lengths i + total lengths bin

-- An entry, empty out of range.
abbrev pub nth : List (List ℕ) → ℕ → List ℕ
nth [] i = []
nth (xs ∷ xss) zero = xs
nth (xs ∷ xss) (suc i) = nth xss i

pub nth-set :
    (xss : List (List ℕ)) (i j : ℕ) (v : List ℕ)
    → i < length xss
    → nth (set xss i v) j ≡ (if i == j then v else nth xss j)
nth-set [] i j v h = absurd (omega arith)
nth-set (xs ∷ xss) zero zero v h = refl
nth-set (xs ∷ xss) zero (suc j) v h = ground arith
nth-set (xs ∷ xss) (suc i) zero v h = ground arith
nth-set (xs ∷ xss) (suc i) (suc j) v h = ground (arith, nth-set xss i j v)

pub get_elem?-nth :
    (xss : List (List ℕ)) (i : ℕ) → i < length xss → get_elem? xss i ≡ some (nth xss i)
get_elem?-nth [] i h = absurd (omega arith)
get_elem?-nth (xs ∷ xss) zero h = refl
get_elem?-nth (xs ∷ xss) (suc i) h = get_elem?-nth xss i (omega arith)

pub nth_beyond : (xss : List (List ℕ)) (i : ℕ) → length xss ≤ i → nth xss i ≡ []
nth_beyond [] i h = refl
nth_beyond (xs ∷ xss) zero h = absurd (omega arith)
nth_beyond (xs ∷ xss) (suc i) h = nth_beyond xss i (omega arith)

pub nth_append_nil : (xss : List (List ℕ)) (i : ℕ) → nth (xss ++ [] ∷ []) i ≡ nth xss i
nth_append_nil [] zero = refl
nth_append_nil [] (suc i) = refl
nth_append_nil (xs ∷ xss) zero = refl
nth_append_nil (xs ∷ xss) (suc i) = nth_append_nil xss i

pub count-append : (x : ℕ) (xs ys : List ℕ) → count x (xs ++ ys) ≡ count x xs + count x ys
count-append x [] ys = omega arith
count-append x (y ∷ xs) ys = omega (arith, count-append x xs ys)

pub total-append :
    (lengths xs ys : List ℕ) → total lengths (xs ++ ys) ≡ total lengths xs + total lengths ys
total-append lengths [] ys = omega arith
total-append lengths (y ∷ xs) ys = omega (arith, total-append lengths xs ys)

pub count_all-append_nil :
    (x : ℕ) (xss : List (List ℕ)) → count_all x (xss ++ [] ∷ []) ≡ count_all x xss
count_all-append_nil x [] = refl
count_all-append_nil x (xs ∷ xss) = omega (arith, count_all-append_nil x xss)

pub count_all-set :
    (x : ℕ) (xss : List (List ℕ)) (i : ℕ) (v : List ℕ)
    → i < length xss
    → count_all x (set xss i v) + count x (nth xss i) ≡ count_all x xss + count x v
count_all-set x [] i v h = absurd (omega arith)
count_all-set x (xs ∷ xss) zero v h = omega arith
count_all-set x (xs ∷ xss) (suc i) v h = omega (arith, count_all-set x xss i v)

-- Every index of a range stands in it once.
pub count-range_from :
    (start n x : ℕ)
    → count x (range_from start n) ≡ (if ltb x start then 0 else if ltb x (start + n) then 1 else 0)
count-range_from start zero x = ground arith
count-range_from start (suc n) x = ground (arith, count-range_from (start + 1) n x)

-- A sort keeps the counts.
pub count-insert_by :
    (before : ℕ → ℕ → Bool) (x y : ℕ) (ys : List ℕ)
    → count x (insert_by before y ys) ≡ (if y == x then 1 else 0) + count x ys
count-insert_by before x y [] = refl
count-insert_by before x y (z ∷ ys) = ground (arith, count-insert_by before x y ys)

pub count-sort_by :
    (before : ℕ → ℕ → Bool) (x : ℕ) (ys : List ℕ) → count x (sort_by before ys) ≡ count x ys
unfolding sort_by
count-sort_by before x [] = refl
count-sort_by before x (y ∷ ys) =
    omega (arith, count-sort_by before x ys, count-insert_by before x y (sort_by before ys))

pub count_all-insert_by :
    (before : List ℕ → List ℕ → Bool) (x : ℕ) (bin : List ℕ) (bins : List (List ℕ))
    → count_all x (insert_by before bin bins) ≡ count x bin + count_all x bins
count_all-insert_by before x bin [] = refl
count_all-insert_by before x bin (b ∷ bins) = ground (arith, count_all-insert_by before x bin bins)

pub count_all-sort_by :
    (before : List ℕ → List ℕ → Bool) (x : ℕ) (bins : List (List ℕ))
    → count_all x (sort_by before bins) ≡ count_all x bins
unfolding sort_by
count_all-sort_by before x [] = refl
count_all-sort_by before x (bin ∷ bins) =
    omega (
      arith,
      count_all-sort_by before x bins,
      count_all-insert_by before x bin (sort_by before bins),
    )

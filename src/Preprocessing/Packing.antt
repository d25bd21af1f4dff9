-- ===== src/Preprocessing/Packing.antt =====
-- astrai/preprocessing/packing.py: best-fit decreasing packing of lengths into bins, and the packing
-- of token-aligned fields by such a plan. A stack of bins is a list with its top first, and the
-- bitset of the capacities that have a bin is a mask of capacity + 1 bits.
pub mod Counting
pub mod Bins
pub mod BestFit
pub mod Bfd
use mathlib.Core.Option
use astr_ai.Base.{
  ℕ, zero, suc, ◌+◌, ◌-◌, min, Bool, true, false, not, ◌||◌, List, [], ◌∷◌, ◌++◌, Option, none,
  some, ltb, leb, ◌==◌, if◌then◌else◌, length, get_elem?, set, drop, replicate, is_nil, Result, ok,
  err, index_error, value_error, ◌>>=◌, ◌>>◌, raise_if,
}
use astr_ai.Cache.Mask.{Mask, lsb}

-- `sorted`, where `before x y` lets `x` stand ahead of a later `y`: it is stable.
module _ {ℓ} {A : Type ℓ} (before : A → A → Bool) where
  abbrev pub insert_by : A → List A → List A
  insert_by x [] = x ∷ []
  insert_by x (y ∷ ys) = let rest = insert_by x ys in if before x y then x ∷ y ∷ ys else y ∷ rest

  unfoldable pub sort_by : List A → List A
  sort_by [] = []
  sort_by (x ∷ xs) = insert_by x (sort_by xs)

-- `range(start, start + n)`.
abbrev pub range_from : ℕ → ℕ → List ℕ
range_from start zero = []
range_from start (suc n) = start ∷ range_from (start + 1) n

-- `lengths[i]` for an index that is in range.
abbrev pub len_at : List ℕ → ℕ → ℕ
len_at [] i = 0
len_at (n ∷ lengths) zero = n
len_at (n ∷ lengths) (suc i) = len_at lengths i

-- `sorted(range(len(lengths)), key=lengths.__getitem__, reverse=True)`.
abbrev pub longest_first : List ℕ → ℕ → ℕ → Bool
longest_first lengths i j = leb (len_at lengths j) (len_at lengths i)

-- `any(n <= 0 or n > capacity for n in lengths)`.
abbrev pub any_unfit : ℕ → List ℕ → Bool
any_unfit capacity [] = false
any_unfit capacity (n ∷ lengths) = n == 0 || ltb capacity n || any_unfit capacity lengths

pub record Plan : Type 0 where
  pub bins : List (List ℕ)
  pub by_remaining : List (List ℕ)
  pub available : Mask

-- The smallest capacity, `length` or more, that has a bin.
abbrev pub best_fit : Mask → ℕ → Option ℕ
best_fit available length = Option.map (λ (k : ℕ). length + k) (lsb (drop length available))

-- `by_remaining[remaining].pop()`, and the bit goes with the last bin.
abbrev pub pop_bin : Plan → ℕ → Option (List ℕ) → Result (ℕ × ℕ × Plan)
pop_bin p remaining none = err index_error
pop_bin p remaining (some []) = err index_error
pop_bin p remaining (some (bin_id ∷ stack)) = ok (
  bin_id,
  remaining,
  record p {
    by_remaining = set p.by_remaining remaining stack;
    available = if is_nil stack then set p.available remaining false else p.available;
  },
)

-- The bin that an item of this length goes to, and what that bin has left.
unfoldable pub choose : ℕ → Plan → ℕ → Result (ℕ × ℕ × Plan)
choose capacity p item = elim (best_fit p.available item) [
  | some remaining ↦ pop_bin p remaining (get_elem? p.by_remaining remaining)
  | none ↦ ok (length p.bins, capacity, record p { bins = p.bins ++ [] ∷ [] })
]

-- `xs[i].append(x)` on a bin, `xs[i].append(x)` on a stack.
abbrev pub append_at : List (List ℕ) → ℕ → ℕ → Result (List (List ℕ))
append_at bins i x = elim (get_elem? bins i) [
  | none ↦ err index_error
  | some bin ↦ ok (set bins i (bin ++ x ∷ []))
]

abbrev pub push_at : List (List ℕ) → ℕ → ℕ → Result (List (List ℕ))
push_at stacks i x = elim (get_elem? stacks i) [
  | none ↦ err index_error
  | some stack ↦ ok (set stacks i (x ∷ stack))
]

-- The item put in its bin, and the bin on the stack of what it has left.
unfoldable pub put : Plan → ℕ → ℕ → ℕ → Result Plan
put p index bin_id remaining = do
  bins ← append_at p.bins bin_id index
  if remaining == 0 then ok (record p { bins = bins }) else (do
    stacks ← push_at p.by_remaining remaining bin_id
    ok (record { bins = bins; by_remaining = stacks; available = set p.available remaining true }))

-- The body of the loop.
unfoldable pub place : ℕ → List ℕ → Plan → ℕ → Result Plan
unfolding choose put
place capacity lengths p index = do
  (bin_id, remaining, q) ← choose capacity p (len_at lengths index)
  put q index bin_id (remaining - len_at lengths index)

unfoldable pub place_each : ℕ → List ℕ → Plan → List ℕ → Result Plan
unfolding place
place_each capacity lengths p [] = ok p
place_each capacity lengths p (index ∷ indices) = do
  q ← place capacity lengths p index
  place_each capacity lengths q indices

abbrev pub empty_plan : ℕ → Plan
empty_plan capacity = record {
  bins = [];
  by_remaining = replicate (capacity + 1) [];
  available = replicate (capacity + 1) false;
}

-- `min(bin)`, of a bin that is not empty.
abbrev pub least : List ℕ → ℕ
least [] = 0
least (i ∷ []) = i
least (i ∷ j ∷ bin) = min i (least (j ∷ bin))

abbrev pub any_empty : List (List ℕ) → Bool
any_empty [] = false
any_empty (bin ∷ bins) = is_nil bin || any_empty bins

abbrev pub by_least : List ℕ → List ℕ → Bool
by_least a b = leb (least a) (least b)

unfoldable pub plan_bfd : List ℕ → ℕ → Result (List (List ℕ))
unfolding place_each sort_by
plan_bfd lengths capacity = do
  raise_if (capacity == 0 || any_unfit capacity lengths) value_error
  p ←
      place_each capacity lengths (empty_plan capacity)
        (sort_by (longest_first lengths) (range_from 0 (length lengths)))
  raise_if (any_empty p.bins) value_error
  ok (sort_by by_least p.bins)

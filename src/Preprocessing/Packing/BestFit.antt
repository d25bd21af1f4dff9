-- ===== src/Preprocessing/Packing/BestFit.antt =====
-- astrai/preprocessing/packing.py: where the loop of `plan_bfd` puts an item.
use astr_ai.Base.{
  ℕ, zero, suc, ◌+◌, ◌-◌, ◌≤◌, ◌<◌, ◌≡◌, refl, sym, ap, ◌∙◌, true, false, not, List, [], ◌∷◌, ◌++◌,
  none, some, ltb, ◌==◌, if◌then◌else◌, length, drop, set, is_nil, ok, ◌>>=◌, arith, Bool-cases,
  Option-cases, inl, inr,
}
use astr_ai.Cache.Mask.{Mask, bit, lsb}
use astr_ai.Cache.Mask.Bits.{bit_lt, lsb-bit, lsb-none-bit}
use astr_ai.Preprocessing.Packing.{Plan, len_at, best_fit, choose, put, place}
use astr_ai.Preprocessing.Packing.Counting.{
  count, count_all, nth, nth-set, count-append, nth_append_nil, count_all-append_nil, count_all-set,
}
use astr_ai.Preprocessing.Packing.Bins.{
  filled, Inv, Chosen, put_full, put_left, put_full-Inv, put_left-Inv, popped, choose-popped,
  popped-Chosen, choose-new, new-Chosen,
}

bit-drop : (n : ℕ) (m : Mask) (k : ℕ) → bit (drop n m) k ≡ bit m (n + k)
bit-drop zero m k = ap (λ (i : ℕ). bit m i) {x = k} {y = zero + k} (omega arith)
bit-drop (suc n) [] k = refl
bit-drop (suc n) (b ∷ m) k =
    bit-drop n m k ∙ ap (λ (i : ℕ). bit (b ∷ m) i) {x = suc (n + k)} {y = suc n + k} (omega arith)

lsb_least : (m : Mask) (k j : ℕ) → lsb m ≡ some k → bit m j ≡ true → k ≤ j
lsb_least [] k j h b = cc
lsb_least (true ∷ m) k j h b = ground (arith, h)
lsb_least (false ∷ m) k zero h b = cc
lsb_least (false ∷ m) zero (suc j) h b = omega arith
lsb_least (false ∷ m) (suc k) (suc j) h b =
    let low = lsb_least m k j (ground (arith, h)) b in omega (arith, low)

best_fit_low :
    (m : Mask) (item k : ℕ)
    → lsb (drop item m) ≡ some k
    → (bit m (item + k) ≡ true) × ((j : ℕ) → item ≤ j → bit m j ≡ true → item + k ≤ j)
best_fit_low m item k e = (
  sym (bit-drop item m k) ∙ lsb-bit (drop item m) k e,
  λ j le b.
      let there : item + (j - item) ≡ j = omega arith in
      let low =
        lsb_least (drop item m) k (j - item) e
          (bit-drop item m (j - item) ∙ ap (λ (i : ℕ). bit m i) there ∙ b) in
      omega (arith, low),
)

best_fit_none : (m : Mask) (item j : ℕ) → lsb (drop item m) ≡ none → item ≤ j → bit m j ≡ false
best_fit_none m item j e le =
    let there : j ≡ item + (j - item) = omega arith in
    ap (λ (i : ℕ). bit m i) there
    ∙ sym (bit-drop item m (j - item))
    ∙ lsb-none-bit (drop item m) (j - item) e

counted : (x : ℕ) (xs : List ℕ) → 0 < count x xs → is_nil xs ≡ false
counted x [] h = absurd (omega arith)
counted x (y ∷ xs) h = refl

not_nil : (xs : List ℕ) → true ≡ not (is_nil xs) → (x : ℕ) × (rest : List ℕ) × (xs ≡ x ∷ rest)
not_nil [] h = cc
not_nil (x ∷ rest) h = (x, rest, refl)

module _ (lengths : List ℕ) (capacity : ℕ) where
  -- The bit of what a bin has left is set.
  bit-filled :
      (p : Plan)
      → Inv lengths capacity p
      → (b left : ℕ) → b < length p.bins
      → 0 < left
      → filled lengths capacity p b + left ≡ capacity
      → bit p.available left ≡ true
  bit-filled p h b left below some_left e =
      let stacked = counted b (nth p.by_remaining left) (ground (arith, h.stacks left b)) in
      h.tables.bits left ∙ ap not stacked

  -- No bin of the plan that has room for the item is fuller than bin `c`, and `c` is a new bin only if
  -- none has room.
  abbrev pub Best : Plan → ℕ → ℕ → Type 0
  Best p item c =
      (b : ℕ)
      → b < length p.bins
      → filled lengths capacity p b + item ≤ capacity
      → (c < length p.bins) × (filled lengths capacity p b ≤ filled lengths capacity p c)

  record Choice (p : Plan) (item c left : ℕ) (q : Plan) : Type 0 where
    pub chosen : Chosen lengths capacity q c left
    pub room : item ≤ left
    pub same : (b : ℕ) → nth q.bins b ≡ nth p.bins b
    pub counts : (x : ℕ) → count_all x q.bins ≡ count_all x p.bins
    pub best : Best p item c

  choose-Choice :
      (p : Plan) (item : ℕ)
      → Inv lengths capacity p
      → 0 < item
      → item ≤ capacity
      → (c : ℕ) × (left : ℕ) × (q : Plan) × (choose capacity p item ≡ ok (c, left, q))
        × Choice p item c left q
  unfolding popped
  choose-Choice p item h positive small = elim (Option-cases (lsb (drop item p.available))) [
    | inl e ↦ (
      length p.bins,
      capacity,
      record p { bins = p.bins ++ [] ∷ [] },
      choose-new lengths capacity p item (rw (e, best_fit) refl),
      record {
        chosen = new-Chosen lengths capacity p h;
        room = small;
        same = λ b. nth_append_nil p.bins b;
        counts = λ x. count_all-append_nil x p.bins;
        best = λ b under fits.
            let set_bit =
              bit-filled p h b (capacity - filled lengths capacity p b) under (omega arith)
                (omega arith) in
            let clear =
              best_fit_none p.available item (capacity - filled lengths capacity p b) e
                (omega arith) in
            absurd (let k = sym set_bit ∙ clear in cc);
      },
    )
    | inr (k, e) ↦
        let (set_bit, lowest) = best_fit_low p.available item k e in
        let (x, stack, top) =
          not_nil (nth p.by_remaining (item + k)) (sym set_bit ∙ h.tables.bits (item + k)) in
        let within : item + k < length p.by_remaining =
          omega (arith, bit_lt p.available (item + k) set_bit, h.tables.wide, h.tables.stacked) in
        let taken = popped-Chosen lengths capacity p (item + k) x stack h within top in
        (
          x,
          item + k,
          popped lengths capacity p (item + k) stack,
          choose-popped lengths capacity p item (item + k) x stack (rw (e, best_fit) refl) within
              top,
          record {
            chosen = taken;
            room = omega arith;
            same = λ b. refl;
            counts = λ x. refl;
            best = λ b under fits.
                let others =
                  bit-filled p h b (capacity - filled lengths capacity p b) under (omega arith)
                    (omega arith) in
                let low = lowest (capacity - filled lengths capacity p b) (omega arith) others in
                (taken.here, omega (arith, taken.left_over, low));
          },
        )
  ]

  -- Where an item of the loop goes.
  pub record Placed (p : Plan) (index : ℕ) (q : Plan) : Type 0 where
    pub bin : ℕ
    pub kept : Inv lengths capacity q
    pub grown :
        (b : ℕ) → nth q.bins b ≡ (if bin == b then nth p.bins b ++ index ∷ [] else nth p.bins b)
    pub counts : (x : ℕ) → count_all x q.bins ≡ (if index == x then 1 else 0) + count_all x p.bins
    pub best : Best p (len_at lengths index) bin

  place_of :
      (p q : Plan) (index c left : ℕ)
      → choose capacity p (len_at lengths index) ≡ ok (c, left, q)
      → place capacity lengths p index ≡ put q index c (left - len_at lengths index)
  unfolding place
  place_of p q index c left e = rw (e, ◌>>=◌) refl

  grown_of :
      (p q : Plan) (index c : ℕ)
      → c < length q.bins
      → ((b : ℕ) → nth q.bins b ≡ nth p.bins b)
      → (b : ℕ)
      → nth (set q.bins c (nth q.bins c ++ index ∷ [])) b
        ≡ (if c == b then nth p.bins b ++ index ∷ [] else nth p.bins b)
  grown_of p q index c here same b =
      nth-set q.bins c b (nth q.bins c ++ index ∷ []) here
      ∙ ground (arith, same b, ap (λ (bin : List ℕ). bin ++ index ∷ []) (same c))

  counts_of :
      (p q : Plan) (index c : ℕ)
      → c < length q.bins
      → ((x : ℕ) → count_all x q.bins ≡ count_all x p.bins)
      → (x : ℕ)
      → count_all x (set q.bins c (nth q.bins c ++ index ∷ []))
        ≡ (if index == x then 1 else 0) + count_all x p.bins
  counts_of p q index c here same x = omega (
    arith,
    same x,
    count_all-set x q.bins c (nth q.bins c ++ index ∷ []) here,
    count-append x (nth q.bins c) (index ∷ []),
  )

  pub place-Placed :
      (p : Plan) (index : ℕ)
      → Inv lengths capacity p
      → 0 < len_at lengths index
      → len_at lengths index ≤ capacity
      → (q : Plan) × (place capacity lengths p index ≡ ok q) × Placed p index q
  place-Placed p index h positive small =
      let (c, left, q, e, s) = choose-Choice p (len_at lengths index) h positive small in
      let d = s.chosen in
      let grown = grown_of p q index c d.here s.same in
      let counts = counts_of p q index c d.here s.counts in
      elim (Bool-cases (ltb (len_at lengths index) left)) [
        | inl less ↦ (
          record {
            bins = set q.bins c (nth q.bins c ++ index ∷ []);
            by_remaining =
                set q.by_remaining (left - len_at lengths index)
                  (c ∷ nth q.by_remaining (left - len_at lengths index));
            available = set q.available (left - len_at lengths index) true;
          },
          place_of p q index c left e
              ∙ put_left lengths capacity q index c (left - len_at lengths index) d.here
                  (ground arith) (omega (arith, positive, d.left_over, d.tables.stacked)),
          record {
            bin = c;
            kept =
                put_left-Inv lengths capacity q index c left d positive (ground arith)
                  (left - len_at lengths index) (ground arith);
            grown = grown;
            counts = counts;
            best = s.best;
          },
        )
        | inr all ↦ (
          record q { bins = set q.bins c (nth q.bins c ++ index ∷ []) },
          place_of p q index c left e
              ∙ ap (λ (n : ℕ). put q index c n) (ground arith)
              ∙ put_full lengths capacity q index c d.here,
          record {
            bin = c;
            kept = put_full-Inv lengths capacity q index c left d (ground arith) (ground arith);
            grown = grown;
            counts = counts;
            best = s.best;
          },
        )
      ]

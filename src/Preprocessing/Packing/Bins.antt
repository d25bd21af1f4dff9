-- ===== src/Preprocessing/Packing/Bins.antt =====
-- astrai/preprocessing/packing.py: the loop of `plan_bfd` keeps the stacks and the bitset in step with
-- what each bin has left.
use astr_ai.Base.{
  ℕ, ◌+◌, ◌≤◌, ◌<◌, ◌≡◌, ◌≢◌, refl, sym, ap, ◌∙◌, true, false, not, ◌&&◌, List, [], ◌∷◌, ◌++◌, none,
  some, ltb, ◌==◌, if◌then◌else◌, length, set, is_nil, ok, length-set, length-append, arith,
}
use astr_ai.Cache.Mask.{bit}
use astr_ai.Cache.Mask.Bits.{bit-set-true, bit-set-false}
use astr_ai.Preprocessing.Packing.{Plan, len_at, best_fit, choose, append_at, push_at, pop_bin, put}
use astr_ai.Preprocessing.Packing.Counting.{
  count, total, nth, nth-set, get_elem?-nth, nth_beyond, nth_append_nil, total-append,
}

module _ (lengths : List ℕ) (capacity : ℕ) where
  abbrev pub filled : Plan → ℕ → ℕ
  filled p b = total lengths (nth p.bins b)

  -- How often bin `b` should stand on the stack of the capacity `r`.
  abbrev pub listed : Plan → ℕ → ℕ → ℕ
  listed p r b = if ltb b (length p.bins) && filled p b + r == capacity && ltb 0 r then 1 else 0

  -- The tables have their sizes, and a bit stands for a stack that is not empty.
  pub record Tables (p : Plan) : Type 0 where
    pub stacked : length p.by_remaining ≡ capacity + 1
    pub wide : length p.available ≡ capacity + 1
    pub bits : (r : ℕ) → bit p.available r ≡ not (is_nil (nth p.by_remaining r))

  pub record Inv (p : Plan) : Type 0 where
    pub tables : Tables p
    pub stacks : (r b : ℕ) → count b (nth p.by_remaining r) ≡ listed p r b
    pub used : (b : ℕ) → b < length p.bins → 0 < filled p b
    pub fits : (b : ℕ) → b < length p.bins → filled p b ≤ capacity

  -- Between the choice of bin `c`, which has `left` left, and the item's entry in it.
  pub record Chosen (p : Plan) (c left : ℕ) : Type 0 where
    pub tables : Tables p
    pub here : c < length p.bins
    pub left_over : filled p c + left ≡ capacity
    pub stacks : (r b : ℕ) → count b (nth p.by_remaining r) ≡ (if c == b then 0 else listed p r b)
    pub used : (b : ℕ) → b < length p.bins → c ≢ b → 0 < filled p b
    pub fits : (b : ℕ) → b < length p.bins → filled p b ≤ capacity

  filled-put :
      (p : Plan) (c index : ℕ)
      → c < length p.bins
      → (b : ℕ)
      → total lengths (nth (set p.bins c (nth p.bins c ++ index ∷ [])) b)
        ≡ (if c == b then filled p c + len_at lengths index else filled p b)
  filled-put p c index h b =
      ap (total lengths) (nth-set p.bins c b (nth p.bins c ++ index ∷ []) h)
      ∙ ground (arith, total-append lengths (nth p.bins c) (index ∷ []))

  append_at-nth :
      (bins : List (List ℕ)) (i x : ℕ)
      → i < length bins
      → append_at bins i x ≡ ok (set bins i (nth bins i ++ x ∷ []))
  append_at-nth bins i x h = rw (get_elem?-nth bins i h, append_at) refl

  push_at-nth :
      (stacks : List (List ℕ)) (i x : ℕ)
      → i < length stacks
      → push_at stacks i x ≡ ok (set stacks i (x ∷ nth stacks i))
  push_at-nth stacks i x h = rw (get_elem?-nth stacks i h, push_at) refl

  pub put_full :
      (p : Plan) (index c : ℕ)
      → c < length p.bins
      → put p index c 0 ≡ ok (record p { bins = set p.bins c (nth p.bins c ++ index ∷ []) })
  unfolding put
  put_full p index c h = rw (append_at-nth p.bins c index h, put) refl

  pub put_left :
      (p : Plan) (index c left : ℕ)
      → c < length p.bins
      → 0 < left
      → left < length p.by_remaining
      → put p index c left
        ≡ ok (record {
          bins = set p.bins c (nth p.bins c ++ index ∷ []);
          by_remaining = set p.by_remaining left (c ∷ nth p.by_remaining left);
          available = set p.available left true;
        })
  unfolding put
  put_left p index c left h some_left below =
      let first = append_at-nth p.bins c index h in
      let second = push_at-nth p.by_remaining left c below in ground (arith, first, second)

  -- The item fills its bin.
  pub put_full-Inv :
      (p : Plan) (index c left : ℕ)
      → Chosen p c left
      → 0 < left
      → len_at lengths index ≡ left
      → Inv (record p { bins = set p.bins c (nth p.bins c ++ index ∷ []) })
  put_full-Inv p index c left h some_left e = record {
    tables = record { stacked = h.tables.stacked; wide = h.tables.wide; bits = h.tables.bits };
    stacks = λ r b. ground (
      arith,
      h.stacks r b,
      h.left_over,
      filled-put p c index h.here b,
      length-set p.bins c (nth p.bins c ++ index ∷ []),
    );
    used = λ b below. ground (
      arith,
      h.used b,
      filled-put p c index h.here b,
      length-set p.bins c (nth p.bins c ++ index ∷ []),
    );
    fits = λ b below. ground (
      arith,
      h.fits b,
      h.left_over,
      filled-put p c index h.here b,
      length-set p.bins c (nth p.bins c ++ index ∷ []),
    );
  }

  -- The item leaves some of its bin.
  pub put_left-Inv :
      (p : Plan) (index c left : ℕ)
      → Chosen p c left
      → 0 < len_at lengths index
      → len_at lengths index < left
      → (rest : ℕ) → rest + len_at lengths index ≡ left
      → Inv (record {
        bins = set p.bins c (nth p.bins c ++ index ∷ []);
        by_remaining = set p.by_remaining rest (c ∷ nth p.by_remaining rest);
        available = set p.available rest true;
      })
  put_left-Inv p index c left h positive below rest e =
      let sized = length-set p.bins c (nth p.bins c ++ index ∷ []) in
      let in_stacks : rest < length p.by_remaining = omega (arith, h.left_over, h.tables.stacked) in
      let in_mask : rest < length p.available = omega (arith, h.left_over, h.tables.wide) in
      record {
        tables = record {
          stacked = length-set p.by_remaining rest (c ∷ nth p.by_remaining rest) ∙ h.tables.stacked;
          wide = length-set p.available rest true ∙ h.tables.wide;
          bits = λ r. ground (
            arith,
            h.tables.bits r,
            bit-set-true p.available rest r in_mask,
            nth-set p.by_remaining rest r (c ∷ nth p.by_remaining rest) in_stacks,
          );
        };
        stacks = λ r b. ground (
          arith,
          h.stacks r b,
          h.left_over,
          filled-put p c index h.here b,
          sized,
          nth-set p.by_remaining rest r (c ∷ nth p.by_remaining rest) in_stacks,
        );
        used = λ b under. ground (arith, h.used b, filled-put p c index h.here b, sized);
        fits =
            λ b under. ground (arith, h.fits b, h.left_over, filled-put p c index h.here b, sized);
      }

  -- The bin on top of the stack of the capacity `r`.
  unfoldable pub popped : Plan → ℕ → List ℕ → Plan
  popped p r stack = record p {
    by_remaining = set p.by_remaining r stack;
    available = if is_nil stack then set p.available r false else p.available;
  }

  pub choose-popped :
      (p : Plan) (item r x : ℕ) (stack : List ℕ)
      → best_fit p.available item ≡ some r
      → r < length p.by_remaining
      → nth p.by_remaining r ≡ x ∷ stack
      → choose capacity p item ≡ ok (x, r, popped p r stack)
  unfolding choose popped
  choose-popped p item r x stack e below top =
      let found = get_elem?-nth p.by_remaining r below ∙ ap (λ (s : List ℕ). some s) top in
      rw (e, choose, found, pop_bin) refl

  pub popped-Chosen :
      (p : Plan) (r x : ℕ) (stack : List ℕ)
      → Inv p
      → r < length p.by_remaining
      → nth p.by_remaining r ≡ x ∷ stack
      → Chosen (popped p r stack) x r
  unfolding popped
  popped-Chosen p r x stack h below top =
      let once : count x (x ∷ stack) ≡ listed p r x = ap (count x) (sym top) ∙ h.stacks r x in
      record {
        tables = record {
          stacked = length-set p.by_remaining r stack ∙ h.tables.stacked;
          wide = ground (arith, h.tables.wide, length-set p.available r false);
          bits = λ i. ground (
            arith,
            bit-set-false p.available r i,
            h.tables.bits i,
            h.tables.bits r,
            ap is_nil top,
            ap is_nil (nth-set p.by_remaining r i stack below),
          );
        };
        here = ground (arith, once);
        left_over = ground (arith, once);
        stacks = λ i b. ground (
          arith,
          once,
          h.stacks i b,
          h.stacks r b,
          ap (count b) top,
          ap (count b) (nth-set p.by_remaining r i stack below),
        );
        used = λ b under other. h.used b under;
        fits = λ b under. h.fits b under;
      }

  pub choose-new :
      (p : Plan) (item : ℕ)
      → best_fit p.available item ≡ none
      → choose capacity p item ≡ ok (length p.bins, capacity, record p { bins = p.bins ++ [] ∷ [] })
  unfolding choose
  choose-new p item e = rw (e, choose) refl

  filled-new : (p : Plan) (b : ℕ) → total lengths (nth (p.bins ++ [] ∷ []) b) ≡ filled p b
  filled-new p b = ap (total lengths) (nth_append_nil p.bins b)

  pub new-Chosen :
      (p : Plan) → Inv p → Chosen (record p { bins = p.bins ++ [] ∷ [] }) (length p.bins) capacity
  new-Chosen p h =
      let longer = length-append p.bins ([] ∷ []) in
      record {
        tables = record { stacked = h.tables.stacked; wide = h.tables.wide; bits = h.tables.bits };
        here = omega (arith, longer);
        left_over = omega (
          arith,
          filled-new p (length p.bins),
          ap (total lengths) (nth_beyond p.bins (length p.bins) (omega arith)),
        );
        stacks = λ r b. ground (arith, longer, h.stacks r b, filled-new p b);
        used = λ b under other. ground (arith, longer, h.used b, other, filled-new p b);
        fits = λ b under. ground (
          arith,
          longer,
          h.fits b,
          filled-new p b,
          ap (total lengths) (nth_beyond p.bins (length p.bins) (omega arith)),
        );
      }

-- ===== src/Cache/Allocator/Dropped.antt =====
-- astrai/inference/core/cache/strategy.py, `Allocator`: one reference less on a page that is held.
use astr_ai.Base.{
  ℕ, zero, suc, ◌<◌, ◌≡◌, refl, ◌∙◌, Bool, true, false, ◌||◌, inl, inr, List, [], ◌∷◌, some, arith,
  ◌==◌, if◌then◌else◌, length, set, get_elem?, mem, Distinct, Bool-cases, ok, length-set,
  get_elem?-set, get_elem?_lt, mem-append, append_one-Distinct,
}
use astr_ai.Base.Int.{ℤ, pos}
use astr_ai.Cache.Mask.{bit}
use astr_ai.Cache.Mask.Bits.{bit-set-true}
use astr_ai.Cache.Allocator
use astr_ai.Cache.Allocator.{
  Allocator, Hook, Batch, next_cached, revoke, evict_cached, evict_all, clear_cached, mask_free_bit,
  put_ref, ref_count, touch, put_bit, word_bits, add_bits, free_step, free_loop, close_batch,
  free_many, inc_ref,
}
use astr_ai.Cache.Allocator.Index.{Indexed, mask_free_bit-Indexed}
use astr_ai.Cache.Allocator.Inv.{Inv, page_ok, ref_count_lem}
use astr_ai.Cache.Allocator.Granted.{put_ref_lem}

pub held_page :
    (b c : Bool) (n : ℕ) → page_ok b c (some (pos (suc n))) ≡ true → (b ≡ false) × (c ≡ false)
held_page false false n h = (refl, refl)
held_page false true n h = cc
held_page true false n h = cc
held_page true true n h = cc

pub touch-Distinct : (lru : List ℕ) (i : ℕ) → Distinct lru → Distinct (touch lru i)
touch-Distinct lru i d = elim (Bool-cases (mem i lru)) [
  | inl m ↦ rw m d
  | inr m ↦ rw m (append_one-Distinct lru i d m)
]

pub mem-touch : (lru : List ℕ) (i j : ℕ) → mem j (touch lru i) ≡ (i == j || mem j lru)
mem-touch lru i j = ground (arith, mem-append j lru (i ∷ []))

-- The pool after a held page with `n` more references lost one.
abbrev pub dropped : Allocator → ℕ → ℕ → Bool → Allocator
dropped a i (suc n) keep = record a { refs = set a.refs i (pos (suc n)) }
dropped a i zero true = record a { refs = set a.refs i (pos 0); lru = touch a.lru i }
dropped a i zero false = mask_free_bit (record a { refs = set a.refs i (pos 0) }) i

pub free_lem :
    (a : Allocator) (i n : ℕ) (keep : Bool)
    → get_elem? a.refs i ≡ some (pos (suc n))
    → Allocator.free a i keep ≡ ok (dropped a i n keep)
unfolding Allocator.free
free_lem a i (suc n) keep held = rw (
  ref_count_lem a i (pos (suc (suc n))) held,
  put_ref_lem a i (pos (suc n)) (get_elem?_lt a.refs i _ held),
)
free_lem a i zero true held =
    rw (ref_count_lem a i (pos 1) held, put_ref_lem a i (pos 0) (get_elem?_lt a.refs i _ held))
free_lem a i zero false held =
    rw (ref_count_lem a i (pos 1) held, put_ref_lem a i (pos 0) (get_elem?_lt a.refs i _ held))

module _ (a : Allocator) (i n : ℕ) (held : get_elem? a.refs i ≡ some (pos (suc n)))
    (h : Inv a) where
  pub held_lem : (bit a.free_mask i ≡ false) × (mem i a.lru ≡ false)
  held_lem = held_page (bit a.free_mask i) (mem i a.lru) n (rw held at (h.pages i))

  pub held_lt : i < length a.refs
  held_lt = get_elem?_lt a.refs i (pos (suc n)) held

  pub ref_after :
      (r : ℤ) (j : ℕ)
      → get_elem? (set a.refs i r) j ≡ (if i == j then some r else get_elem? a.refs j)
  ref_after r j = get_elem?-set a.refs i j r held_lt

  pub lowered-Indexed :
      (r : ℤ) (lru : List ℕ) → Indexed (record a { refs = set a.refs i r; lru = lru })
  lowered-Indexed r lru = record {
    wide = h.indexed.wide;
    agree = h.indexed.agree;
    bounded = h.indexed.bounded;
    blank = h.indexed.blank;
  }

  pub lowered-sized : (r : ℤ) → length (set a.refs i r) ≡ a.n_pages
  lowered-sized r = length-set a.refs i r ∙ h.sized

pub dropped-Inv :
    (a : Allocator) (i n : ℕ) (keep : Bool)
    → get_elem? a.refs i ≡ some (pos (suc n))
    → Inv a
    → Inv (dropped a i n keep)
dropped-Inv a i (suc n) keep held h = record {
  indexed = lowered-Indexed a i (suc n) held h (pos (suc n)) a.lru;
  roomy = h.roomy;
  sized = lowered-sized a i (suc n) held h (pos (suc n));
  distinct = h.distinct;
  pages = λ j.
      ground (
        arith,
        h.pages j,
        ref_after a i (suc n) held h (pos (suc n)) j,
        held_lem a i (suc n) held h,
      );
}
dropped-Inv a i zero true held h = record {
  indexed = lowered-Indexed a i zero held h (pos 0) (touch a.lru i);
  roomy = h.roomy;
  sized = lowered-sized a i zero held h (pos 0);
  distinct = touch-Distinct a.lru i h.distinct;
  pages = λ j. ground (
    arith,
    h.pages j,
    ref_after a i zero held h (pos 0) j,
    held_lem a i zero held h,
    mem-touch a.lru i j,
  );
}
dropped-Inv a i zero false held h =
    unfold mask_free_bit in
    (record {
      indexed =
          mask_free_bit-Indexed (record a { refs = set a.refs i (pos 0) }) i
            (lowered-Indexed a i zero held h (pos 0) a.lru);
      roomy = omega (arith, h.roomy, length-set a.free_mask i true);
      sized = lowered-sized a i zero held h (pos 0);
      distinct = h.distinct;
      pages = λ j. ground (
        arith,
        h.pages j,
        ref_after a i zero held h (pos 0) j,
        held_lem a i zero held h,
        bit-set-true a.free_mask i j (omega (arith, held_lt a i zero held h, h.sized, h.roomy)),
      );
    })

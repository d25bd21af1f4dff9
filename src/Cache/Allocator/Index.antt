-- ===== src/Cache/Allocator/Index.antt =====
-- The two structures that the lock keeps together: the free mask and its words with their cursor.
use astr_ai.Base.{
  ℕ, zero, suc, ◌+◌, ◌-◌, ◌*◌, ◌/◌, ◌%◌, ◌≤◌, ◌≡◌, refl, sym, ap, ◌∙◌, true, false, inl, inr, List,
  [], ◌∷◌, ◌++◌, arith, ltb, length, set, take, drop, mem, Bool-cases, length-append, length-take,
  length-drop, take-append-drop,
}
use native.Mathlib.Nat.{zero-add}
use astr_ai.Cache.Mask.{Mask, bit, set_bits, clear_bits}
use astr_ai.Cache.Mask.Bits.{
  bit-append, bit-clear_bits, length-clear_bits, mask_ext, set_bits_of_is_empty,
}
use astr_ai.Cache.Allocator.{Allocator, mask_alloc_bits, mask_free_bit, clear_words, harvest}
use astr_ai.Cache.Allocator.Words.{
  Wide, flatten, Blank, flatten-append, length-flatten, flatten-put_bit, put_bit-Wide,
  clear_words-Wide, flatten-clear_words, clear_words-Blank, modify-Blank_below, Blank-mono,
  length-modify, length-clear_words, advance-Blank, advance-le,
}
use astr_ai.Cache.Allocator.Harvest.{harvest-Harvested, harvest-lowest, set_bits-append}

-- The words are the mask, 64 bits each, and the words below the cursor are empty.
pub record Indexed (a : Allocator) : Type 0 where
  pub wide : Wide a.words
  pub agree : flatten a.words ≡ a.free_mask
  pub bounded : a.first_nonempty ≤ length a.words
  pub blank : Blank (take a.first_nonempty a.words)

pub mask_alloc_bits-Indexed :
    (a : Allocator) (pages : List ℕ) → Indexed a → Indexed (mask_alloc_bits a pages)
unfolding mask_alloc_bits
mask_alloc_bits-Indexed a pages h = record {
  wide = clear_words-Wide a.words pages h.wide;
  agree = flatten-clear_words a.words pages h.wide ∙ ap (λ (m : Mask). clear_bits m pages) h.agree;
  bounded = omega (
    arith,
    h.bounded,
    advance-le a.first_nonempty (drop a.first_nonempty (clear_words a.words pages)),
    length-drop a.first_nonempty (clear_words a.words pages),
    length-clear_words a.words pages,
  );
  blank =
      advance-Blank a.first_nonempty (clear_words a.words pages)
        (clear_words-Blank a.first_nonempty a.words pages h.blank);
}

pub mask_free_bit-Indexed : (a : Allocator) (idx : ℕ) → Indexed a → Indexed (mask_free_bit a idx)
unfolding mask_free_bit
mask_free_bit-Indexed a idx h = record {
  wide = put_bit-Wide a.words idx true h.wide;
  agree = flatten-put_bit a.words idx true h.wide ∙ ap (λ (m : Mask). set m idx true) h.agree;
  bounded =
      ground
        (arith, h.bounded, length-modify a.words (idx / 64) (λ word. set word (idx % 64) true));
  blank = elim (Bool-cases (ltb (idx / 64) a.first_nonempty)) [
    | inl lt ↦ rw lt (
        modify-Blank_below (idx / 64) a.words (idx / 64) _ (omega arith)
          (Blank-mono (idx / 64) a.first_nonempty a.words (ground arith) h.blank))
    | inr ge ↦
        rw ge (modify-Blank_below a.first_nonempty a.words (idx / 64) _ (ground arith) h.blank)
  ];
}

Blank-set_bits : (base : ℕ) (ws : List Mask) → Blank ws → set_bits base (flatten ws) ≡ []
Blank-set_bits base [] h = refl
Blank-set_bits base (w ∷ ws) h =
    rw (set_bits-append base w (flatten ws), set_bits_of_is_empty base w h.0)
      (Blank-set_bits (base + length w) ws h.1)

take-Wide : (n : ℕ) (ws : List Mask) → Wide ws → Wide (take n ws)
take-Wide zero ws h = tt
take-Wide (suc n) [] h = tt
take-Wide (suc n) (w ∷ ws) h = (h.0, take-Wide n ws h.1)

drop-Wide : (n : ℕ) (ws : List Mask) → Wide ws → Wide (drop n ws)
drop-Wide zero ws h = h
drop-Wide (suc n) [] h = tt
drop-Wide (suc n) (w ∷ ws) h = drop-Wide n ws h.1

append-Wide : (vs ws : List Mask) → Wide vs → Wide ws → Wide (vs ++ ws)
append-Wide [] ws g h = h
append-Wide (v ∷ vs) ws g h = (g.0, append-Wide vs ws g.1 h)

take-append-Blank :
    (n : ℕ) (ws vs : List Mask)
    → n ≤ length ws
    → Blank (take n ws)
    → Blank (take n (take n ws ++ vs))
take-append-Blank zero ws vs le h = tt
take-append-Blank (suc n) [] vs le h = absurd (omega arith)
take-append-Blank (suc n) (w ∷ ws) vs le h = (h.0, take-append-Blank n ws vs (omega arith) h.1)

module _ (a : Allocator) (n : ℕ) (h : Indexed a) where
  abbrev skipped : List Mask
  skipped = take a.first_nonempty a.words

  abbrev scanned : List Mask
  scanned = drop a.first_nonempty a.words

  abbrev pub harvested : List ℕ × List Mask
  harvested = harvest n a.first_nonempty scanned

  skipped_length : length (flatten skipped) ≡ a.first_nonempty * 64
  skipped_length = omega (
    arith,
    length-flatten skipped (take-Wide a.first_nonempty a.words h.wide),
    length-take a.first_nonempty a.words,
    h.bounded,
  )

  mask_split : flatten skipped ++ flatten scanned ≡ a.free_mask
  mask_split =
      sym (flatten-append skipped scanned)
      ∙ ap flatten (take-append-drop a.first_nonempty a.words)
      ∙ h.agree

  -- Started at the cursor, the harvest is the bounded scan of the mask from its lowest bit.
  pub harvested-lowest : harvested.0 ≡ take n (set_bits 0 a.free_mask)
  harvested-lowest =
      harvest-lowest n a.first_nonempty scanned (drop-Wide a.first_nonempty a.words h.wide)
      ∙ ap (take n) (sym scan)
    where
      scan : set_bits 0 a.free_mask ≡ set_bits (a.first_nonempty * 64) (flatten scanned)
      scan =
          ap (set_bits 0) (sym mask_split)
          ∙ rw (
            set_bits-append 0 (flatten skipped) (flatten scanned),
            Blank-set_bits 0 skipped h.blank,
            skipped_length,
            zero-add,
          )

  abbrev pub rewritten : Allocator
  rewritten = record a { words = skipped ++ harvested.1 }

  rewritten-Wide : Wide rewritten.words
  rewritten-Wide =
      append-Wide skipped harvested.1 (take-Wide a.first_nonempty a.words h.wide)
        (harvest-Harvested n a.first_nonempty scanned
          (drop-Wide a.first_nonempty a.words h.wide)).wide

  -- The bits that the harvest cleared are those that are cleared once more.
  rewritten_bit :
      (j : ℕ) → mem j harvested.0 ≡ false → bit (flatten rewritten.words) j ≡ bit a.free_mask j
  rewritten_bit j m =
      ap (λ (k : Mask). bit k j) (flatten-append skipped harvested.1)
      ∙ later
      ∙ ap (λ (k : Mask). bit k j) mask_split
    where
      wide : Wide scanned
      wide = drop-Wide a.first_nonempty a.words h.wide

      base : ℕ
      base = a.first_nonempty * 64

      later :
          bit (flatten skipped ++ flatten harvested.1) j
          ≡ bit (flatten skipped ++ flatten scanned) j
      later = elim (Bool-cases (ltb j base)) [
        | inl lt ↦ ground (
          arith,
          skipped_length,
          bit-append (flatten skipped) (flatten harvested.1) j,
          bit-append (flatten skipped) (flatten scanned) j,
        )
        | inr ge ↦
            let at : base + (j - base) ≡ j = ground arith in
            let same =
              (harvest-Harvested n a.first_nonempty scanned wide).kept (j - base) (rw at m) in
            ground (
              arith,
              same,
              skipped_length,
              bit-append (flatten skipped) (flatten harvested.1) j,
              bit-append (flatten skipped) (flatten scanned) j,
            )
      ]

  rewritten_length : length (flatten rewritten.words) ≡ length a.free_mask
  rewritten_length = omega (
    arith,
    length-flatten rewritten.words rewritten-Wide,
    length-flatten a.words h.wide,
    ap length h.agree,
    length-append skipped harvested.1,
    length-take a.first_nonempty a.words,
    length-drop a.first_nonempty a.words,
    (harvest-Harvested n a.first_nonempty scanned (drop-Wide a.first_nonempty a.words h.wide)).long,
  )

  rewritten-Blank : Blank (take a.first_nonempty rewritten.words)
  rewritten-Blank = take-append-Blank a.first_nonempty a.words harvested.1 h.bounded h.blank

  -- Writing the harvested words back and clearing the pages in both structures keeps them in step.
  pub harvest-Indexed : Indexed (mask_alloc_bits rewritten harvested.0)
  unfolding mask_alloc_bits
  harvest-Indexed = record {
    wide = clear_words-Wide rewritten.words harvested.0 rewritten-Wide;
    agree =
        flatten-clear_words rewritten.words harvested.0 rewritten-Wide
        ∙ mask_ext _ _
            (length-clear_bits (flatten rewritten.words) harvested.0
              ∙ rewritten_length
              ∙ sym (length-clear_bits a.free_mask harvested.0))
            (λ j. ground (
              arith,
              bit-clear_bits (flatten rewritten.words) harvested.0 j,
              bit-clear_bits a.free_mask harvested.0 j,
              rewritten_bit j,
            ));
    bounded = omega (
      arith,
      h.bounded,
      advance-le a.first_nonempty (drop a.first_nonempty (clear_words rewritten.words harvested.0)),
      length-drop a.first_nonempty (clear_words rewritten.words harvested.0),
      length-clear_words rewritten.words harvested.0,
      length-append skipped harvested.1,
      length-take a.first_nonempty a.words,
    );
    blank =
        advance-Blank a.first_nonempty (clear_words rewritten.words harvested.0)
          (clear_words-Blank a.first_nonempty rewritten.words harvested.0 rewritten-Blank);
  }

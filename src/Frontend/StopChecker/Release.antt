-- ===== src/Frontend/StopChecker/Release.antt =====
-- astrai/inference/frontend/output_processor.py, `StopSequenceChecker.push` over a whole stream: what
-- is released, and when the stream stops.
use astr_ai.Base.{
  ℕ, ◌+◌, ◌-◌, ◌≤◌, ◌≡◌, refl, sym, ap, ◌∙◌, subst, true, false, [], ◌++◌, Option, none, some, ◌⊎◌,
  inl, inr, arith, ltb, leb, length, take, drop, is_nil, Bool-cases, length-append, length-drop,
  take-append-drop,
}
use mathlib.Core.List.{append-nil, append_assoc}
use astr_ai.Frontend.StopChecker.{Text, StopChecker, scan, flush, release, push}
use astr_ai.Frontend.StopChecker.Find.{starts_with-split}
use astr_ai.Frontend.StopChecker.Scan.{
  Free, Within, Listed, Clear, scan-Clear, scan-cases, Clear-Free, Free-extend, Free-cut,
}

-- A checker that has released `out` and not stopped.
pub record Holds (out : Text) (c : StopChecker) : Type 0 where
  pub some_sequence : is_nil c.sequences ≡ false
  pub sized : Within c.max_len c.sequences
  pub unmatched : c.matched ≡ none
  pub free : Free c.sequences (out ++ c.buffer)
  pub tail : (out ≡ []) ⊎ (c.max_len ≤ length c.buffer + 1)

-- The next piece is passed on but for a tail.
pub record Passes (out : Text) (c : StopChecker) (text : Text) (c' : StopChecker) (released : Text)
    : Type 0 where
  pub holds : Holds (out ++ released) c'
  pub same : c'.sequences ≡ c.sequences
  pub kept : released ++ c'.buffer ≡ c.buffer ++ text

-- A sequence is complete, and what stands before it is released.
pub record Stops (out : Text) (c : StopChecker) (text : Text) (c' : StopChecker) (released : Text)
    : Type 0 where
  pub seq : Text
  pub rest : Text
  pub matched : c'.matched ≡ some seq
  pub listed : Listed seq c.sequences
  pub split : c.buffer ++ text ≡ released ++ (seq ++ rest)
  pub free : Free c.sequences (out ++ released)

module _ (out : Text) (c : StopChecker) (h : Holds out c) (text : Text) where
  grown : StopChecker
  grown = record c { buffer = c.buffer ++ text }

  passed :
      (released buffer : Text)
      → Free c.sequences (c.buffer ++ text)
      → released ++ buffer ≡ c.buffer ++ text
      → (out ++ released ≡ []) ⊎ (c.max_len ≤ length buffer + 1)
      → Passes out c text (record c { buffer = buffer }) released
  passed released buffer clear kept tail = record {
    holds = record {
      some_sequence = h.some_sequence;
      sized = h.sized;
      unmatched = h.unmatched;
      free =
          subst (λ (full : Text). Free c.sequences full)
            (sym (append_assoc out released buffer ∙ ap (λ (full : Text). out ++ full) kept))
            (Free-extend c.max_len out c.buffer h.tail c.sequences text h.sized h.free clear);
      tail = tail;
    };
    same = refl;
    kept = kept;
  }

  release-Passes :
      Free c.sequences (c.buffer ++ text)
      → (c' : StopChecker) × (released : Text) × (release grown ≡ (c', released, false))
        × Passes out c text c' released
  unfolding release grown flush
  release-Passes clear =
      let full = c.buffer ++ text in
      let keep = c.max_len - 1 in
      elim (Bool-cases (leb c.max_len 1)) [
        | inl short ↦ (
          record c { buffer = [] },
          full,
          rw short refl,
          passed full [] clear (append-nil full) (inr (ground arith)),
        )
        | inr long ↦ elim (Bool-cases (ltb keep (length full))) [
          | inl more ↦ (
            record c { buffer = drop (length full - keep) full },
            take (length full - keep) full,
            rw (long, more) refl,
            passed (take (length full - keep) full) (drop (length full - keep) full) clear
                (take-append-drop (length full - keep) full)
                (inr (ground (arith, length-drop (length full - keep) full))),
          )
          | inr less ↦ (
            grown,
            [],
            rw (long, less) refl,
            passed [] full clear refl (elim h.tail [
              | inl e ↦ inl (rw e refl)
              | inr room ↦ inr (omega (arith, length-append c.buffer text))
            ]),
          )
        ]
      ]

  push-release :
      scan (c.buffer ++ text) c.sequences (length (c.buffer ++ text)) none
        ≡ (length (c.buffer ++ text), none)
      → push c text ≡ release grown
  unfolding push grown
  push-release e = ground (arith, h.some_sequence, h.unmatched, e)

  push_stop :
      (f : ℕ) (seq : Text)
      → scan (c.buffer ++ text) c.sequences (length (c.buffer ++ text)) none ≡ (f, some seq)
      → push c text
        ≡ (record c { buffer = []; matched = some seq }, take f (c.buffer ++ text), true)
  unfolding push
  push_stop f seq e = ground (arith, h.some_sequence, h.unmatched, e)

  -- A push passes the piece on but for a tail, or finds a sequence and stops.
  pub push-cases :
      ((c' : StopChecker) × (released : Text) × (push c text ≡ (c', released, false))
        × Passes out c text c' released)
      ⊎ ((c' : StopChecker) × (released : Text) × (push c text ≡ (c', released, true))
          × Stops out c text c' released)
  push-cases =
      let full = c.buffer ++ text in
      let clear = scan-Clear full c.sequences (length full) none in
      elim (scan-cases full c.sequences (length full) none) [
        | inl e ↦
            let free =
              Clear-Free c.max_len c.sequences full h.sized
                (subst (λ (r : ℕ × Option Text). Clear r.0 c.sequences full) e clear) in
            let (c', released, e', p) = release-Passes free in
            inl (c', released, push-release e ∙ e', p)
        | inr (f, seq, e, listed, stands) ↦
            let (rest, cut) = starts_with-split seq (drop f full) stands in
            inr (
              record c { buffer = []; matched = some seq },
              take f full,
              push_stop f seq e,
              record {
                seq = seq;
                rest = rest;
                matched = refl;
                listed = listed;
                split = sym (take-append-drop f full) ∙ ap (λ (end : Text). take f full ++ end) cut;
                free =
                    Free-cut c.max_len out c.buffer h.tail c.sequences text f h.sized h.free
                      (subst (λ (r : ℕ × Option Text). Clear r.0 c.sequences full) e clear);
              },
            )
      ]

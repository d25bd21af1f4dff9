-- ===== src/Frontend/StopChecker/Stream.antt =====
-- astrai/inference/frontend/output_processor.py: a stream of pieces through `StopSequenceChecker`.
use mathlib.Core.List.{append-nil, append_assoc}
use astr_ai.Base.{
  ℕ, zero, suc, ◌≤◌, ◌≡◌, refl, sym, ap, ◌∙◌, subst, Bool, true, false, List, [], ◌∷◌, ◌++◌, some,
  ◌⊎◌, inl, inr, arith, length, max, is_nil, if◌then◌else◌, Bool-cases,
}
use astr_ai.Frontend.StopChecker.{Text, StopChecker, nonempty, longest, init, push}
use astr_ai.Frontend.StopChecker.Find.{at}
use astr_ai.Frontend.StopChecker.Scan.{Free, Within, Listed}
use astr_ai.Frontend.StopChecker.Release.{Holds, Passes, Stops, push-cases}

abbrev pub concat : List Text → Text
concat [] = []
concat (t ∷ ts) = t ++ concat ts

-- The pieces pushed one after the other until one stops the stream, with all that was released.
unfoldable pub push_all : StopChecker → List Text → StopChecker × Text × Bool
push_all c [] = (c, [], false)
push_all c (t ∷ ts) =
    let (c₁, released, stopped) = push c t in
    let (c₂, more, stops) = push_all c₁ ts in
    if stopped then (c₁, released, true) else (c₂, released ++ more, stops)

-- The stream passed, or it stopped.
abbrev Outcome : Text → StopChecker → Text → StopChecker × Text × Bool → Type 0
Outcome out c text (c', released, stopped) =
    ((stopped ≡ false) × Passes out c text c' released)
    ⊎ ((stopped ≡ true) × Stops out c text c' released)

push_all-Outcome :
    (ts : List Text) (out : Text) (c : StopChecker)
    → Holds out c
    → Outcome out c (concat ts) (push_all c ts)
unfolding push_all
push_all-Outcome [] out c h = inl (
  refl,
  record {
    holds = subst (λ (o : Text). Holds o c) (sym (append-nil out)) h;
    same = refl;
    kept = sym (append-nil c.buffer);
  },
)
push_all-Outcome (t ∷ ts) out c h = elim (push-cases out c h t) [
  | inr (c₁, released, e, s) ↦ rw e (
      inr (
        refl,
        record {
          seq = s.seq;
          rest = s.rest ++ concat ts;
          matched = s.matched;
          listed = s.listed;
          split =
              sym (append_assoc c.buffer t (concat ts))
              ∙ ap (λ (x : Text). x ++ concat ts) s.split
              ∙ append_assoc released (s.seq ++ s.rest) (concat ts)
              ∙ ap (λ (x : Text). released ++ x) (append_assoc s.seq s.rest (concat ts));
          free = s.free;
        },
      ))
  | inl (c₁, released, e, p) ↦
      rw e (go c₁ released p (push_all c₁ ts) (push_all-Outcome ts (out ++ released) c₁ p.holds))
]
  where
    go :
        (c₁ : StopChecker) (released : Text)
        → Passes out c t c₁ released
        → (r : StopChecker × Text × Bool) → Outcome (out ++ released) c₁ (concat ts) r
        → Outcome out c (t ++ concat ts) (r.0, released ++ r.1, r.2)
    go c₁ released p (c₂, more, stops) (inl (e, q)) = inl (
      e,
      record {
        holds = subst (λ (o : Text). Holds o c₂) (append_assoc out released more) q.holds;
        same = q.same ∙ p.same;
        kept =
            append_assoc released more c₂.buffer
            ∙ ap (λ (x : Text). released ++ x) q.kept
            ∙ sym (append_assoc released c₁.buffer (concat ts))
            ∙ ap (λ (x : Text). x ++ concat ts) p.kept
            ∙ append_assoc c.buffer t (concat ts);
      },
    )
    go c₁ released p (c₂, more, stops) (inr (e, s)) = inr (
      e,
      record {
        seq = s.seq;
        rest = s.rest;
        matched = s.matched;
        listed = subst (λ (among : List Text). Listed s.seq among) p.same s.listed;
        split =
            sym (append_assoc c.buffer t (concat ts))
            ∙ ap (λ (x : Text). x ++ concat ts) (sym p.kept)
            ∙ append_assoc released c₁.buffer (concat ts)
            ∙ ap (λ (x : Text). released ++ x) s.split
            ∙ sym (append_assoc released more (s.seq ++ s.rest));
        free =
            subst (λ (o : Text). Free c.sequences o) (append_assoc out released more)
              (subst (λ (among : List Text). Free among ((out ++ released) ++ more)) p.same s.free);
      },
    )

Within-mono : (m n : ℕ) (sequences : List Text) → m ≤ n → Within m sequences → Within n sequences
Within-mono m n [] le w = tt
Within-mono m n (seq ∷ sequences) le (full, short, w) =
    (full, omega arith, Within-mono m n sequences le w)

nonempty-Within :
    (sequences : List Text) → Within (longest (nonempty sequences)) (nonempty sequences)
nonempty-Within [] = tt
nonempty-Within (s ∷ sequences) =
    let kept = nonempty sequences in
    let w = nonempty-Within sequences in
    elim (Bool-cases (is_nil s)) [
      | inl blank ↦ rw blank w
      | inr full ↦ rw full (
        full,
        omega arith,
        Within-mono (longest kept) (max (length s) (longest kept)) kept (omega arith) w,
      )
    ]

nothing-Free : (sequences : List Text) → (n : ℕ) → Within n sequences → Free sequences []
nothing-Free [] n w = tt
nothing-Free ([] ∷ sequences) n (full, short, w) = absurd (let f = full in cc)
nothing-Free ((x ∷ seq) ∷ sequences) n (full, short, w) = (nowhere, nothing-Free sequences n w)
  where
    nowhere : (p : ℕ) → at (x ∷ seq) [] p ≡ false
    nowhere zero = refl
    nowhere (suc p) = refl

no_sequence-Free :
    (sequences : List Text) (text : Text) → is_nil sequences ≡ true → Free sequences text
no_sequence-Free [] text h = tt
no_sequence-Free (s ∷ sequences) text h = absurd (let k = h in cc)

init-Holds :
    (sequences : List Text) → is_nil (nonempty sequences) ≡ false → Holds [] (init sequences)
unfolding init
init-Holds sequences full = record {
  some_sequence = full;
  sized = nonempty-Within sequences;
  unmatched = refl;
  free =
      nothing-Free (nonempty sequences) (longest (nonempty sequences)) (nonempty-Within sequences);
  tail = inl refl;
}

-- With no sequence every piece is passed on at once.
push_all_plain :
    (ts : List Text) (c : StopChecker)
    → is_nil c.sequences ≡ true
    → push_all c ts ≡ (c, concat ts, false)
unfolding push_all push
push_all_plain [] c h = refl
push_all_plain (t ∷ ts) c h = let rest = push_all_plain ts c h in ground (arith, h, rest)

-- However a text is cut into pieces: when the stream does not stop, what was released and the tail
-- still held are together the whole text, and no stop sequence stands anywhere in it.
pub push_all-passes :
    (sequences ts : List Text)
    → (push_all (init sequences) ts).2 ≡ false
    → ((push_all (init sequences) ts).1 ++ (push_all (init sequences) ts).0.buffer ≡ concat ts)
      × Free (nonempty sequences) (concat ts)
unfolding init
push_all-passes sequences ts h = elim (Bool-cases (is_nil (nonempty sequences))) [
  | inl blank ↦
      subst
        (λ (r : StopChecker × Text × Bool).
          (r.1 ++ r.0.buffer ≡ concat ts) × Free (nonempty sequences) (concat ts))
        (sym (push_all_plain ts (init sequences) blank))
        (append-nil (concat ts), no_sequence-Free (nonempty sequences) (concat ts) blank)
  | inr full ↦ elim (push_all-Outcome ts [] (init sequences) (init-Holds sequences full)) [
    | inl (e, p) ↦ (
      p.kept,
      subst (λ (among : List Text). Free among (concat ts)) p.same
          (subst (λ (text : Text). Free (push_all (init sequences) ts).0.sequences text) p.kept
            p.holds.free),
    )
    | inr (e, s) ↦ absurd (let k = sym e ∙ h in cc)
  ]
]

-- However a text is cut into pieces: when the stream stops, one of the stop sequences stands in the
-- text right after what was released, it is the one reported, and no stop sequence stands anywhere in
-- what was released.
pub push_all-stops :
    (sequences ts : List Text)
    → (push_all (init sequences) ts).2 ≡ true
    → (seq : Text) × (rest : Text) × ((push_all (init sequences) ts).0.matched ≡ some seq)
      × Listed seq (nonempty sequences)
      × (concat ts ≡ (push_all (init sequences) ts).1 ++ (seq ++ rest))
      × Free (nonempty sequences) (push_all (init sequences) ts).1
unfolding init
push_all-stops sequences ts h = elim (Bool-cases (is_nil (nonempty sequences))) [
  | inl blank ↦ absurd (let e = push_all_plain ts (init sequences) blank in cc)
  | inr full ↦ elim (push_all-Outcome ts [] (init sequences) (init-Holds sequences full)) [
    | inl (e, p) ↦ absurd (let k = sym e ∙ h in cc)
    | inr (e, s) ↦ (s.seq, s.rest, s.matched, s.listed, s.split, s.free)
  ]
]

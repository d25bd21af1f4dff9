-- ===== src/Worker/Pending/Slots.antt =====
-- astrai/inference/worker/pending.py: a step that the ring took commits to what its own tensors hold,
-- whatever happens to other steps in between.
use mathlib.Core.Option
use astr_ai.Base.{
  ℕ, ◌≡◌, ◌≢◌, refl, sym, ap, ◌∙◌, subst, Bool, true, false, List, [], ◌∷◌, ◌++◌, Option, none,
  some, ◌==◌, if◌then◌else◌, length, take, drop, Result, ok, err, arith, Bool-cases, inl, inr,
}
use astr_ai.Worker.Pending.{
  Slot, ResultRing, HostView, PendingExecution, overwrite, is_given, fill_slot, claim, post,
  free_slot, release, find_slot,
}

take-append : (values rest : List ℕ) → take (length values) (values ++ rest) ≡ values
take-append [] rest = refl
take-append (v ∷ values) rest = ap (λ (vs : List ℕ). v ∷ vs) (take-append values rest)

-- No event stands for two slots.
abbrev pub Apart : List Slot → Type 0
Apart [] = Unit
Apart (slot ∷ slots) = (find_slot slot.event slots ≡ none) × Apart slots

find_here :
    (event : ℕ) (s : Slot) (slots : List Slot)
    → (s.event == event) ≡ true
    → find_slot event (s ∷ slots) ≡ some s
unfolding find_slot
find_here event s slots e = ap (λ (b : Bool). if b then some s else find_slot event slots) e

find_there :
    (event : ℕ) (s : Slot) (slots : List Slot)
    → (s.event == event) ≡ false
    → find_slot event (s ∷ slots) ≡ find_slot event slots
unfolding find_slot
find_there event s slots e = ap (λ (b : Bool). if b then some s else find_slot event slots) e

abbrev cons_slot : Slot → List Slot × ℕ → List Slot × ℕ
cons_slot s (slots, event) = (s ∷ slots, event)

claim_used :
    (s : Slot) (slots : List Slot) (tokens : List ℕ) (logprobs : Option (List ℕ))
    → s.in_use ≡ true
    → claim (s ∷ slots) tokens logprobs ≡ Option.map (cons_slot s) (claim slots tokens logprobs)
unfolding claim
claim_used s slots tokens logprobs e =
    ap
      (λ (b : Bool).
        if b
        then Option.map (cons_slot s) (claim slots tokens logprobs)
        else some (fill_slot s tokens logprobs ∷ slots, s.event))
      e

claim_free :
    (s : Slot) (slots : List Slot) (tokens : List ℕ) (logprobs : Option (List ℕ))
    → s.in_use ≡ false
    → claim (s ∷ slots) tokens logprobs ≡ some (fill_slot s tokens logprobs ∷ slots, s.event)
unfolding claim
claim_free s slots tokens logprobs e =
    ap
      (λ (b : Bool).
        if b
        then Option.map (cons_slot s) (claim slots tokens logprobs)
        else some (fill_slot s tokens logprobs ∷ slots, s.event))
      e

-- The slots after a claim that may have found none.
abbrev pub claimed : List Slot → Option (List Slot × ℕ) → List Slot
claimed slots none = slots
claimed slots (some (slots', event)) = slots'

claimed-cons :
    (s : Slot) (slots : List Slot) (o : Option (List Slot × ℕ))
    → claimed (s ∷ slots) (Option.map (cons_slot s) o) ≡ s ∷ claimed slots o
claimed-cons s slots none = refl
claimed-cons s slots (some r) = refl

some-inj : (s slot : Slot) → some s ≡ some slot → s ≡ slot
some-inj s slot e = cc

-- A slot that is in use is found as it was after another step took one.
pub claim-kept :
    (slots : List Slot) (tokens : List ℕ) (logprobs : Option (List ℕ)) (event : ℕ) (slot : Slot)
    → find_slot event slots ≡ some slot
    → slot.in_use ≡ true
    → find_slot event (claimed slots (claim slots tokens logprobs)) ≡ some slot
claim-kept [] tokens logprobs event slot found used = absurd (unfold find_slot in cc found)
claim-kept (s ∷ slots) tokens logprobs event slot found used =
    elim (Bool-cases (s.event == event)) [
      | inl here ↦
          let own : s ≡ slot = some-inj s slot (sym (find_here event s slots here) ∙ found) in
          let e : s.in_use ≡ true = ap (λ (x : Slot). x.in_use) own ∙ used in
          ap (λ (o : Option (List Slot × ℕ)). find_slot event (claimed (s ∷ slots) o))
            (claim_used s slots tokens logprobs e)
          ∙ ap (find_slot event) (claimed-cons s slots (claim slots tokens logprobs))
          ∙ find_here event s (claimed slots (claim slots tokens logprobs)) here
          ∙ ap (λ (x : Slot). some x) own
      | inr there ↦
          let later = sym (find_there event s slots there) ∙ found in
          elim (Bool-cases s.in_use) [
            | inl e ↦
                ap (λ (o : Option (List Slot × ℕ)). find_slot event (claimed (s ∷ slots) o))
                  (claim_used s slots tokens logprobs e)
                ∙ ap (find_slot event) (claimed-cons s slots (claim slots tokens logprobs))
                ∙ find_there event s (claimed slots (claim slots tokens logprobs)) there
                ∙ claim-kept slots tokens logprobs event slot later used
            | inr e ↦
                ap (λ (o : Option (List Slot × ℕ)). find_slot event (claimed (s ∷ slots) o))
                  (claim_free s slots tokens logprobs e)
                ∙ find_there event (fill_slot s tokens logprobs) slots there
                ∙ later
          ]
    ]

-- Another step's slot becomes free.
pub free_slot-kept :
    (slots : List Slot) (event other : ℕ) (slot : Slot)
    → (other == event) ≡ false
    → find_slot event slots ≡ some slot
    → find_slot event (free_slot slots other) ≡ some slot
unfolding free_slot
free_slot-kept [] event other slot apart found = found
free_slot-kept (s ∷ slots) event other slot apart found = elim (Bool-cases (s.event == other)) [
  | inl its ↦
      let there : (s.event == event) ≡ false = ground arith in
      ap
        (λ (b : Bool).
          find_slot event
            (if b then record s { in_use = false } ∷ slots else s ∷ free_slot slots other))
        its
      ∙ find_there event (record s { in_use = false }) slots there
      ∙ sym (find_there event s slots there)
      ∙ found
  | inr not_its ↦
      ap
        (λ (b : Bool).
          find_slot event
            (if b then record s { in_use = false } ∷ slots else s ∷ free_slot slots other))
        not_its
      ∙ elim (Bool-cases (s.event == event)) [
        | inl here ↦
            find_here event s (free_slot slots other) here
            ∙ sym (find_here event s slots here)
            ∙ found
        | inr there ↦
            find_there event s (free_slot slots other) there
            ∙ free_slot-kept slots event other slot apart
                (sym (find_there event s slots there) ∙ found)
      ]
]

-- A slot that holds a step's results.
pub record Copied (tokens : List ℕ) (logprobs : Option (List ℕ)) (slot : Slot) : Type 0 where
  pub used : slot.in_use ≡ true
  pub tokens_there : take (length tokens) slot.tokens ≡ tokens
  pub logprobs_there :
      (if is_given logprobs then some (take (length tokens) slot.logprobs) else none) ≡ logprobs

-- The log probabilities, where there are any, are as many as the tokens.
abbrev pub Sized : List ℕ → Option (List ℕ) → Type 0
Sized tokens none = Unit
Sized tokens (some logprobs) = length logprobs ≡ length tokens

fill_slot-Copied :
    (tokens : List ℕ) (logprobs : Option (List ℕ)) (s : Slot)
    → Sized tokens logprobs
    → Copied tokens logprobs (fill_slot s tokens logprobs)
fill_slot-Copied tokens none s sized = record {
  used = refl;
  tokens_there = take-append tokens (drop (length tokens) s.tokens);
  logprobs_there = refl;
}
fill_slot-Copied tokens (some logprobs) s sized = record {
  used = refl;
  tokens_there = take-append tokens (drop (length tokens) s.tokens);
  logprobs_there =
      ap (λ (n : ℕ). some (take n (overwrite s.logprobs logprobs))) (sym sized)
      ∙ ap (λ (ls : List ℕ). some ls) (take-append logprobs (drop (length logprobs) s.logprobs));
}

-- A claim that found a slot.
abbrev pub Owned : List Slot → List ℕ → Option (List ℕ) → Option (List Slot × ℕ) → Type 0
Owned slots tokens logprobs none = Unit
Owned slots tokens logprobs (some (slots', event)) =
    ((slot : Slot) × (find_slot event slots' ≡ some slot) × Copied tokens logprobs slot)
    × (find_slot event slots ≢ none)

cons-Owned :
    (s : Slot) (slots : List Slot) (tokens : List ℕ) (logprobs : Option (List ℕ))
    (o : Option (List Slot × ℕ))
    → find_slot s.event slots ≡ none
    → Owned slots tokens logprobs o
    → Owned (s ∷ slots) tokens logprobs (Option.map (cons_slot s) o)
cons-Owned s slots tokens logprobs none apart owned = tt
cons-Owned s slots tokens logprobs (some (slots', event)) apart ((slot, found, copied), old) =
    elim (Bool-cases (s.event == event)) [
      | inl same ↦
          let q : s.event ≡ event = ground arith in
          absurd (old (subst (λ (n : ℕ). find_slot n slots ≡ none) q apart))
      | inr differs ↦ (
        (slot, find_there event s slots' differs ∙ found, copied),
        λ missing. old (sym (find_there event s slots differs) ∙ missing),
      )
    ]

pub claim-Owned :
    (slots : List Slot) (tokens : List ℕ) (logprobs : Option (List ℕ))
    → Sized tokens logprobs
    → Apart slots
    → Owned slots tokens logprobs (claim slots tokens logprobs)
claim-Owned [] tokens logprobs sized apart = unfold claim in tt
claim-Owned (s ∷ slots) tokens logprobs sized (here, apart) = elim (Bool-cases s.in_use) [
  | inl e ↦ subst (Owned (s ∷ slots) tokens logprobs) (sym (claim_used s slots tokens logprobs e)) (
      cons-Owned s slots tokens logprobs (claim slots tokens logprobs) here
        (claim-Owned slots tokens logprobs sized apart))
  | inr e ↦ subst (Owned (s ∷ slots) tokens logprobs) (sym (claim_free s slots tokens logprobs e)) (
    (
      fill_slot s tokens logprobs,
      find_here s.event (fill_slot s tokens logprobs) slots (ground arith),
      fill_slot-Copied tokens logprobs s sized,
    ),
    λ missing. let k = sym (find_here s.event s slots (ground arith)) ∙ missing in cc,
  )
]

-- What happens to a ring between a step's post and its commit: other steps are posted or committed.
pub data Meanwhile : Type 0 where
  posts : PendingExecution → Meanwhile
  commits : PendingExecution → Meanwhile

-- The ring after a post, or as it was where the post raised: what a failed copy leaves in a free slot
-- is overwritten by the next step that takes it.
abbrev pub ring_or : ResultRing → Result (ResultRing × PendingExecution × Bool) → ResultRing
ring_or ring (err e) = ring
ring_or ring (ok r) = r.0

unfoldable pub passes : ResultRing → List Meanwhile → ResultRing
passes ring [] = ring
passes ring (posts other ∷ rest) = passes (ring_or ring (post ring other)) rest
passes ring (commits other ∷ rest) = passes (release ring other) rest

abbrev pub ApartFrom : ℕ → Option HostView → Type 0
ApartFrom event none = Unit
ApartFrom event (some view) = (view.event == event) ≡ false

-- No other step that commits has this event.
abbrev pub Others : ℕ → List Meanwhile → Type 0
Others event [] = Unit
Others event (posts other ∷ rest) = Others event rest
Others event (commits other ∷ rest) = ApartFrom event other.host × Others event rest

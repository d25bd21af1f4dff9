-- ===== src/Worker/Pending/Commit.antt =====
-- astrai/inference/worker/pending.py: the commit of a step that the ring took.
use astr_ai.Base.{
  ℕ, ◌≡◌, refl, sym, ap, ◌∙◌, subst, Bool, true, false, not, List, [], ◌∷◌, Option, none, some, ltb,
  ◌==◌, arith, if◌then◌else◌, length, take, Result, ok, err, ◌>>=◌, Bool-cases, inl, inr,
}
use astr_ai.Engine.Request.{Identity, SchedulerOutput, ModelRunnerOutput}
use astr_ai.Worker.Pending.{
  Slot, ResultRing, HostView, PendingExecution, is_given, claim, stage, spread, all_in_use,
  stage_spread, post_tokens, post, free_view, release, find_slot, tokens_or, read_slot, read_host,
  read, assemble, commit_payload, commit,
}
use astr_ai.Worker.Pending.Slots.{
  Apart, claimed, claim-kept, free_slot-kept, Sized, Owned, claim-Owned, Meanwhile, posts, commits,
  ring_or, passes, ApartFrom, Others,
}

-- A post leaves the slots that are in use as they are.
staged-kept :
    (ring : ResultRing) (p : PendingExecution) (tokens : List ℕ) (o : Option (List Slot × ℕ))
    (event : ℕ)
    → find_slot event (stage ring p tokens o).0.slots ≡ find_slot event (claimed ring.slots o)
staged-kept ring p tokens none event = refl
staged-kept ring p tokens (some r) event = refl

stage_spread-kept :
    (ring : ResultRing) (p : PendingExecution) (tokens : List ℕ) (r : Result (Option (List ℕ)))
    (event : ℕ) (slot : Slot)
    → find_slot event ring.slots ≡ some slot
    → slot.in_use ≡ true
    → find_slot event (ring_or ring (stage_spread ring p tokens r)).slots ≡ some slot
stage_spread-kept ring p tokens (ok logprobs) event slot found used =
    staged-kept ring p tokens (claim ring.slots tokens logprobs) event
    ∙ claim-kept ring.slots tokens logprobs event slot found used
stage_spread-kept ring p tokens (err e) event slot found used =
    elim (Bool-cases (all_in_use ring.slots)) [
      | inl full ↦ rw full found
      | inr free ↦ rw free found
    ]

post_tokens-kept :
    (ring : ResultRing) (p : PendingExecution) (o : Option (List ℕ)) (event : ℕ) (slot : Slot)
    → find_slot event ring.slots ≡ some slot
    → slot.in_use ≡ true
    → find_slot event (ring_or ring (post_tokens ring p o)).slots ≡ some slot
post_tokens-kept ring p none event slot found used = found
post_tokens-kept ring p (some tokens) event slot found used =
    elim (Bool-cases (ltb ring.max_batch_size (length tokens))) [
      | inl large ↦ rw large found
      | inr small ↦ rw small (
          stage_spread-kept ring p tokens (spread (length tokens) p.logprobs) event slot found used)
    ]

post-kept :
    (ring : ResultRing) (p : PendingExecution) (event : ℕ) (slot : Slot)
    → find_slot event ring.slots ≡ some slot
    → slot.in_use ≡ true
    → find_slot event (ring_or ring (post ring p)).slots ≡ some slot
unfolding post
post-kept ring p event slot found used = on (not ring.enabled)
  where
    on :
        (disabled : Bool)
        → find_slot event
            (ring_or ring
              (if disabled then ok (ring, p, false) else post_tokens ring p p.tokens)).slots
          ≡ some slot
    on true = found
    on false = post_tokens-kept ring p p.tokens event slot found used

free_view-kept :
    (ring : ResultRing) (o : Option HostView) (event : ℕ) (slot : Slot)
    → ApartFrom event o
    → find_slot event ring.slots ≡ some slot
    → find_slot event (free_view ring o).slots ≡ some slot
free_view-kept ring none event slot apart found = found
free_view-kept ring (some view) event slot apart found =
    free_slot-kept ring.slots event view.event slot apart found

release-kept :
    (ring : ResultRing) (p : PendingExecution) (event : ℕ) (slot : Slot)
    → ApartFrom event p.host
    → find_slot event ring.slots ≡ some slot
    → find_slot event (release ring p).slots ≡ some slot
unfolding release
release-kept ring p event slot apart found = on (not ring.enabled)
  where
    on :
        (disabled : Bool)
        → find_slot event (if disabled then ring else free_view ring p.host).slots ≡ some slot
    on true = found
    on false = free_view-kept ring p.host event slot apart found

passes-kept :
    (steps : List Meanwhile) (ring : ResultRing) (event : ℕ) (slot : Slot)
    → Others event steps
    → find_slot event ring.slots ≡ some slot
    → slot.in_use ≡ true
    → find_slot event (passes ring steps).slots ≡ some slot
unfolding passes
passes-kept [] ring event slot others found used = found
passes-kept (posts other ∷ rest) ring event slot others found used =
    passes-kept rest (ring_or ring (post ring other)) event slot others
      (post-kept ring other event slot found used) used
passes-kept (commits other ∷ rest) ring event slot (apart, others) found used =
    passes-kept rest (release ring other) event slot others
      (release-kept ring other event slot apart found) used

-- What a step that a post took reads.
Taken : ResultRing → PendingExecution → List ℕ → ResultRing × PendingExecution × Bool → Type 0
Taken ring p tokens (ring', p', true) =
    (view : HostView) × (slot : Slot) × (p' ≡ record p { host = some view })
    × (find_slot view.event ring'.slots ≡ some slot)
    × (slot.in_use ≡ true)
    × (read_slot view (some slot) ≡ (tokens, p.logprobs))
Taken ring p tokens (ring', p', false) = Unit

stage-Taken :
    (ring : ResultRing) (p : PendingExecution) (tokens : List ℕ) (o : Option (List Slot × ℕ))
    → Owned ring.slots tokens p.logprobs o
    → Taken ring p tokens (stage ring p tokens o)
unfolding Taken
stage-Taken ring p tokens none owned = tt
stage-Taken ring p tokens (some (slots, event)) ((slot, found, copied), old) = (
  record { event = event; count = length tokens; has_logprobs = is_given p.logprobs },
  slot,
  refl,
  found,
  copied.used,
  ap
        (λ (ts : List ℕ).
          (ts, (if is_given p.logprobs then some (take (length tokens) slot.logprobs) else none)))
        copied.tokens_there
      ∙ ap (λ (ls : Option (List ℕ)). (tokens, ls)) copied.logprobs_there,
)

-- The same of an answer that may be an exception.
TakenBy :
    ResultRing → PendingExecution → List ℕ → Result (ResultRing × PendingExecution × Bool) → Type 0
TakenBy ring p tokens (err e) = Unit
TakenBy ring p tokens (ok r) = Taken ring p tokens r

spread-Sized :
    (tokens : List ℕ) (o : Option (List ℕ)) → Sized tokens o → spread (length tokens) o ≡ ok o
spread-Sized tokens none sized = refl
spread-Sized tokens (some values) sized =
    let e : (length values == length tokens) ≡ true = ground arith in rw e refl

post-TakenBy :
    (ring : ResultRing) (p : PendingExecution) (tokens : List ℕ)
    → p.tokens ≡ some tokens
    → Sized tokens p.logprobs
    → Apart ring.slots
    → TakenBy ring p tokens (post ring p)
unfolding post TakenBy
post-TakenBy ring p tokens there sized apart =
    subst
      (λ (o : Option (List ℕ)).
        TakenBy ring p tokens
          (if not ring.enabled then ok (ring, p, false) else post_tokens ring p o))
      (sym there) (on (not ring.enabled) (ltb ring.max_batch_size (length tokens)))
  where
    on :
        (disabled large : Bool)
        → TakenBy ring p tokens (
            if disabled
            then ok (ring, p, false)
            else if large
            then ok (ring, p, false)
            else stage_spread ring p tokens (spread (length tokens) p.logprobs))
    on true large = unfold Taken in tt
    on false true = unfold Taken in tt
    on false false =
        subst
          (λ (r : Result (Option (List ℕ))). TakenBy ring p tokens (stage_spread ring p tokens r))
          (sym (spread-Sized tokens p.logprobs sized))
          (stage-Taken ring p tokens (claim ring.slots tokens p.logprobs)
            (claim-Owned ring.slots tokens p.logprobs sized apart))

-- What a commit answers.
abbrev pub output_of :
    Result (ResultRing × PendingExecution × ModelRunnerOutput) → Result ModelRunnerOutput
output_of (err e) = err e
output_of (ok (ring, p, output)) = ok output

answer :
    SchedulerOutput
    → List Identity
    → Option ModelRunnerOutput
    → List ℕ × Option (List ℕ)
    → Result ModelRunnerOutput
answer snapshot identities (some payload) values = ok payload
answer snapshot identities none values = assemble snapshot identities values

commit-answer :
    (ring : ResultRing) (p : PendingExecution)
    → output_of (commit ring p) ≡ answer p.snapshot p.sampled_identities p.payload (read ring p)
unfolding commit answer
commit-answer ring p = on p.payload
  where
    chained :
        (r : Result ModelRunnerOutput)
        → output_of
            (r >>= λ payload. ok (release ring p, record p { payload = some payload }, payload))
          ≡ r
    chained (ok payload) = refl
    chained (err e) = refl

    on :
        (o : Option ModelRunnerOutput)
        → output_of (commit_payload ring p o)
          ≡ answer p.snapshot p.sampled_identities o (read ring p)
    on (some payload) = refl
    on none = chained (assemble p.snapshot p.sampled_identities (read ring p))

-- No other step commits with the event of this view.
abbrev pub ApartSteps : Option HostView → List Meanwhile → Type 0
ApartSteps none steps = Unit
ApartSteps (some view) steps = Others view.event steps

-- A fresh step with as many log probabilities as tokens, if any, that the ring took: it commits to what
-- it would commit to from its own tensors, errors included, whatever other steps are posted in between
-- and whatever steps of other events are committed: no other step's results reach it.
pub post-commit :
    (ring ring' : ResultRing) (p p' : PendingExecution) (tokens : List ℕ) (steps : List Meanwhile)
    → p.tokens ≡ some tokens
    → Sized tokens p.logprobs
    → p.host ≡ none
    → Apart ring.slots
    → post ring p ≡ ok (ring', p', true)
    → ApartSteps p'.host steps
    → output_of (commit (passes ring' steps) p') ≡ output_of (commit ring p)
unfolding read Taken TakenBy
post-commit ring ring' p p' tokens steps there sized alone apart taken others =
    let (view, slot, e, found, used, values) =
      subst (λ (r : Result (ResultRing × PendingExecution × Bool)). TakenBy ring p tokens r) taken
        (post-TakenBy ring p tokens there sized apart) in
    let own : Others view.event steps =
      subst (λ (x : PendingExecution). ApartSteps x.host steps) e others in
    let still = passes-kept steps ring' view.event slot own found used in
    let direct : read ring p ≡ (tokens, p.logprobs) =
      ap (read_host ring p) alone ∙ ap (λ (o : Option (List ℕ)). (tokens_or o, p.logprobs)) there in
    let copied : read (passes ring' steps) (record p { host = some view }) ≡ (tokens, p.logprobs) =
      ap (read_slot view) still ∙ values in
    ap (λ (x : PendingExecution). output_of (commit (passes ring' steps) x)) e
    ∙ commit-answer (passes ring' steps) (record p { host = some view })
    ∙ ap (answer p.snapshot p.sampled_identities p.payload) (copied ∙ sym direct)
    ∙ sym (commit-answer ring p)

-- ===== src/Worker/Pending.antt =====
-- astrai/inference/worker/pending.py: the results of a submitted step and the pinned slots that they
-- are copied to. A tensor is the list of its entries and a log probability its bit pattern. A copy is
-- complete once its event has been waited on, which every read does first, so it is made at once. A
-- host tensor is a view of its slot: the slot's event and how much of it is the step's. Whether the
-- ring is enabled is a parameter of its making.
pub mod Slots
pub mod Commit
mod Tests
use Prim.Native.String.{String}
use mathlib.Core.Option
use astr_ai.Base.{
  ℕ, ◌+◌, Bool, true, false, not, ◌&&◌, ◌||◌, List, [], ◌∷◌, ◌++◌, Option, none, some, ltb, ◌==◌,
  if◌then◌else◌, length, take, drop, replicate, Result, ok, err, type_error, runtime_error, ◌>>=◌,
  ◌>>◌, raise_if,
}
use astr_ai.Base.Dict.{string_eq, nat_eq, pair_eq, ◌≟◌, lookup, insert, has_key}
use astr_ai.Engine.Request.{
  Identity, ExecutionRequest, SchedulerOutput, RequestOutput, ModelRunnerOutput, materialized_end,
}

pub record Slot : Type 0 where
  pub tokens : List ℕ
  pub logprobs : List ℕ
  pub event : ℕ
  pub in_use : Bool

pub record ResultRing : Type 0 where
  pub enabled : Bool
  pub max_batch_size : ℕ
  pub slots : List Slot

-- What `post` leaves on a step: the copy's event, and how many tokens and log probabilities it has.
pub record HostView : Type 0 where
  pub event : ℕ
  pub count : ℕ
  pub has_logprobs : Bool

pub record PendingExecution : Type 0 where
  pub snapshot : SchedulerOutput
  pub tokens : Option (List ℕ)
  pub logprobs : Option (List ℕ)
  pub sampled_identities : List Identity
  pub host : Option HostView
  pub payload : Option ModelRunnerOutput

abbrev pub empty_slot : ℕ → ℕ → Slot
empty_slot max_batch_size event = record {
  tokens = replicate max_batch_size 0;
  logprobs = replicate max_batch_size 0;
  event = event;
  in_use = false;
}

-- `ResultRing.__init__`: two slots, if there is a device.
abbrev pub new_ring : Bool → ℕ → ResultRing
new_ring enabled max_batch_size = record {
  enabled = enabled;
  max_batch_size = max_batch_size;
  slots = if enabled then empty_slot max_batch_size 0 ∷ empty_slot max_batch_size 1 ∷ [] else [];
}

-- `pin[:b].copy_(values)`.
abbrev pub overwrite : List ℕ → List ℕ → List ℕ
overwrite pin values = values ++ drop (length values) pin

abbrev pub copy_logprobs : List ℕ → Option (List ℕ) → List ℕ
copy_logprobs pin none = pin
copy_logprobs pin (some values) = overwrite pin values

abbrev pub is_given : Option (List ℕ) → Bool
is_given none = false
is_given (some values) = true

abbrev pub fill_slot : Slot → List ℕ → Option (List ℕ) → Slot
fill_slot slot tokens logprobs = record slot {
  tokens = overwrite slot.tokens tokens;
  logprobs = copy_logprobs slot.logprobs logprobs;
  in_use = true;
}

-- The first free slot takes the step, and names its event.
unfoldable pub claim : List Slot → List ℕ → Option (List ℕ) → Option (List Slot × ℕ)
claim [] tokens logprobs = none
claim (slot ∷ slots) tokens logprobs =
    let rest = claim slots tokens logprobs in
    if slot.in_use
    then Option.map (λ (r : List Slot × ℕ). (slot ∷ r.0, r.1)) rest
    else some (fill_slot slot tokens logprobs ∷ slots, slot.event)

-- `post` of a step with these tokens, refused where it answers False.
abbrev pub stage :
    ResultRing
    → PendingExecution
    → List ℕ
    → Option (List Slot × ℕ)
    → ResultRing × PendingExecution × Bool
stage ring pending tokens none = (ring, pending, false)
stage ring pending tokens (some (slots, event)) = (
  record ring { slots = slots },
  record pending {
    host =
        some (record {
          event = event;
          count = length tokens;
          has_logprobs = is_given pending.logprobs;
        });
  },
  true,
)

-- What `copy_` puts into `b` places: as many values, or one value in each; it raises for others.
abbrev pub spread_one : ℕ → List ℕ → Result (Option (List ℕ))
spread_one b (v ∷ []) = ok (some (replicate b v))
spread_one b values = err runtime_error

abbrev pub spread : ℕ → Option (List ℕ) → Result (Option (List ℕ))
spread b none = ok none
spread b (some values) = if length values == b then ok (some values) else spread_one b values

abbrev pub all_in_use : List Slot → Bool
all_in_use [] = true
all_in_use (slot ∷ slots) = slot.in_use && all_in_use slots

-- A free slot is looked for before anything is copied.
abbrev pub stage_spread :
    ResultRing
    → PendingExecution
    → List ℕ
    → Result (Option (List ℕ))
    → Result (ResultRing × PendingExecution × Bool)
stage_spread ring pending tokens (ok logprobs) =
    ok (stage ring pending tokens (claim ring.slots tokens logprobs))
stage_spread ring pending tokens (err e) =
    if all_in_use ring.slots then ok (ring, pending, false) else err e

-- The device's tokens are there, or the attribute error of `None`.
abbrev pub post_tokens :
    ResultRing → PendingExecution → Option (List ℕ) → Result (ResultRing × PendingExecution × Bool)
post_tokens ring pending none = err type_error
post_tokens ring pending (some tokens) =
    if ltb ring.max_batch_size (length tokens)
    then ok (ring, pending, false)
    else stage_spread ring pending tokens (spread (length tokens) pending.logprobs)

unfoldable pub post : ResultRing → PendingExecution → Result (ResultRing × PendingExecution × Bool)
unfolding claim
post ring pending =
    if not ring.enabled then ok (ring, pending, false) else post_tokens ring pending pending.tokens

-- The first slot with this event becomes free.
unfoldable pub free_slot : List Slot → ℕ → List Slot
free_slot [] event = []
free_slot (slot ∷ slots) event =
    let rest = free_slot slots event in
    if slot.event == event then record slot { in_use = false } ∷ slots else slot ∷ rest

abbrev pub free_view : ResultRing → Option HostView → ResultRing
free_view ring none = ring
free_view ring (some view) = record ring { slots = free_slot ring.slots view.event }

unfoldable pub release : ResultRing → PendingExecution → ResultRing
unfolding free_slot
release ring pending = if not ring.enabled then ring else free_view ring pending.host

unfoldable pub find_slot : ℕ → List Slot → Option Slot
find_slot event [] = none
find_slot event (slot ∷ slots) =
    let rest = find_slot event slots in if slot.event == event then some slot else rest

abbrev pub tokens_or : Option (List ℕ) → List ℕ
tokens_or none = []
tokens_or (some tokens) = tokens

-- The tokens and the log probabilities in a view of a slot.
abbrev pub read_slot : HostView → Option Slot → List ℕ × Option (List ℕ)
read_slot view none = ([], none)
read_slot view (some slot) = (
  take view.count slot.tokens,
  if view.has_logprobs then some (take view.count slot.logprobs) else none,
)

-- What `commit` reads: the copy, else the device's tensors.
abbrev pub read_host : ResultRing → PendingExecution → Option HostView → List ℕ × Option (List ℕ)
read_host ring pending none = (tokens_or pending.tokens, pending.logprobs)
read_host ring pending (some view) = read_slot view (find_slot view.event ring.slots)

unfoldable pub read : ResultRing → PendingExecution → List ℕ × Option (List ℕ)
unfolding find_slot
read ring pending = read_host ring pending pending.host

-- The dictionary from identities to tokens and log probabilities.
abbrev pub zip_logprobs : List Identity → List ℕ → List ℕ → List (Identity × (ℕ × Option ℕ))
zip_logprobs [] tokens logprobs = []
zip_logprobs (i ∷ is) [] logprobs = []
zip_logprobs (i ∷ is) (t ∷ tokens) [] = (i, (t, none)) ∷ zip_logprobs is tokens []
zip_logprobs (i ∷ is) (t ∷ tokens) (l ∷ logprobs) =
    (i, (t, some l)) ∷ zip_logprobs is tokens logprobs

abbrev pub dict_of :
    List (Identity × (ℕ × Option ℕ))
    → List (Identity × (ℕ × Option ℕ))
    → List (Identity × (ℕ × Option ℕ))
dict_of sampled [] = sampled
dict_of sampled ((i, row) ∷ rows) = dict_of (insert i row sampled) rows

abbrev pub planned : Identity → List ExecutionRequest → Bool
planned i [] = false
planned i (r ∷ requests) = (r.identity ≟ i) || planned i requests

abbrev pub all_planned : List (Identity × (ℕ × Option ℕ)) → List ExecutionRequest → Bool
all_planned [] requests = true
all_planned ((i, row) ∷ sampled) requests = planned i requests && all_planned sampled requests

abbrev pub row_of : ExecutionRequest → Option (ℕ × Option ℕ) → RequestOutput
row_of r none = record {
  identity = r.identity;
  materialized_end = materialized_end r;
  token_id = none;
  logprob = none;
}
row_of r (some (token, logprob)) = record {
  identity = r.identity;
  materialized_end = materialized_end r;
  token_id = some token;
  logprob = logprob;
}

abbrev pub rows_of : List (Identity × (ℕ × Option ℕ)) → List ExecutionRequest → List RequestOutput
rows_of sampled [] = []
rows_of sampled (r ∷ requests) = row_of r (lookup r.identity sampled) ∷ rows_of sampled requests

abbrev pub wrong_count : Option (List ℕ) → ℕ → Bool
wrong_count none n = false
wrong_count (some logprobs) n = not (length logprobs == n)

-- The output of what was read.
unfoldable pub assemble :
    SchedulerOutput → List Identity → List ℕ × Option (List ℕ) → Result ModelRunnerOutput
assemble snapshot identities (tokens, logprobs) = do
  raise_if (not (length tokens == length identities)) runtime_error
  raise_if (wrong_count logprobs (length tokens)) runtime_error
  let sampled = dict_of [] (zip_logprobs identities tokens (tokens_or logprobs))
  raise_if (not (length sampled == length identities)) runtime_error
  raise_if (not (all_planned sampled snapshot.requests)) runtime_error
  ok (record {
    step_id = snapshot.step_id;
    policy_version = snapshot.policy_version;
    results = rows_of sampled snapshot.requests;
  })

abbrev pub commit_payload :
    ResultRing
    → PendingExecution
    → Option ModelRunnerOutput
    → Result (ResultRing × PendingExecution × ModelRunnerOutput)
commit_payload ring pending (some payload) = ok (ring, pending, payload)
commit_payload ring pending none = do
  payload ← assemble pending.snapshot pending.sampled_identities (read ring pending)
  ok (release ring pending, record pending { payload = some payload }, payload)

unfoldable pub commit :
    ResultRing → PendingExecution → Result (ResultRing × PendingExecution × ModelRunnerOutput)
unfolding assemble read release
commit ring pending = commit_payload ring pending pending.payload

abbrev pub committed : PendingExecution → Bool
committed pending = elim pending.payload [ none ↦ false | some payload ↦ true ]

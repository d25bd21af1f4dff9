-- ===== src/Engine/Request.antt =====
-- astrai/inference/core/request.py, events.py and astrai/inference/contracts.py: a request, what the
-- worker is told of it, what comes back, and the events. A log probability stands for its bit
-- pattern; the sampling parameters are opaque but for the test whether a frequency penalty is set.
-- An incarnation is a number where the source draws a random hex string.
use Prim.Native.String.{String}
use astr_ai.Base.{
  ℕ, ◌+◌, Bool, true, false, ◌&&◌, ◌||◌, List, [], ◌∷◌, Option, none, some, ltb, leb, ◌==◌,
  if◌then◌else◌, length, mem, Result, ok, err, index_error,
}

-- `RequestIdentity`: the id and the incarnation.
abbrev pub Identity : Type 0
Identity = String × ℕ

pub data Status : Type 0 where
  pending running finished aborted : Status

pub data FinishReason : Type 0 where
  stop_token length_cap cancelled engine_abort rejected : FinishReason

pub data ErrorReason : Type 0 where
  kv_cache_allocation_failed kv_cache_extension_failed stale_execution : ErrorReason

pub data Phase : Type 0 where
  prefill decode score : Phase

pub record SamplingParams : Type 0 where
  pub has_frequency_penalty : Bool
  pub params : ℕ

pub record Request : Type 0 where
  pub request_id : String
  pub incarnation : ℕ
  pub prompt_ids : List ℕ
  pub max_tokens : Option ℕ
  pub eos_token_ids : Option (List ℕ)
  pub sampling : SamplingParams
  pub cont_len : ℕ
  pub status : Status
  pub output_ids : List ℕ
  pub output_logprobs : List ℕ
  pub input_tokens : ℕ
  pub output_tokens : ℕ
  pub num_computed_tokens : ℕ
  pub num_materialized_tokens : ℕ
  pub finish_reason : Option FinishReason
  pub error_reason : Option ErrorReason
  pub terminal_emitted : Bool
  pub emit_events : Bool

-- `Request.__init__`.
abbrev pub new_request : String → ℕ → List ℕ → Option ℕ → Option (List ℕ) → SamplingParams → Request
new_request request_id incarnation prompt_ids max_tokens eos_token_ids sampling = record {
  request_id = request_id;
  incarnation = incarnation;
  prompt_ids = prompt_ids;
  max_tokens = max_tokens;
  eos_token_ids = eos_token_ids;
  sampling = sampling;
  cont_len = 0;
  status = pending;
  output_ids = [];
  output_logprobs = [];
  input_tokens = 0;
  output_tokens = 0;
  num_computed_tokens = 0;
  num_materialized_tokens = 0;
  finish_reason = none;
  error_reason = none;
  terminal_emitted = false;
  emit_events = true;
}

abbrev pub identity : Request → Identity
identity r = (r.request_id, r.incarnation)

pub record ExecutionRequest : Type 0 where
  pub identity : Identity
  pub prompt_ids : List ℕ
  pub input_token_id : ℕ
  pub position : ℕ
  pub num_tokens : ℕ
  pub phase : Phase
  pub sampling : SamplingParams
  pub output_ids : List ℕ
  pub cont_len : ℕ

abbrev pub materialized_end : ExecutionRequest → ℕ
materialized_end e = e.position + e.num_tokens

abbrev pub samples : ExecutionRequest → Bool
samples e = elim e.phase [
  | decode ↦ true
  | prefill ↦ materialized_end e == length e.prompt_ids
  | score ↦ false
]

pub record SchedulerOutput : Type 0 where
  pub step_id : ℕ
  pub policy_version : ℕ
  pub requests : List ExecutionRequest
  pub return_logprobs : Bool

pub record RequestOutput : Type 0 where
  pub identity : Identity
  pub materialized_end : ℕ
  pub token_id : Option ℕ
  pub logprob : Option ℕ

pub record ModelRunnerOutput : Type 0 where
  pub step_id : ℕ
  pub policy_version : ℕ
  pub results : List RequestOutput

pub data Event : Type 0 where
  token_delta : String → ℕ → ℕ → Event
  request_finished : String → FinishReason → ℕ → ℕ → Event
  request_error : String → Event

-- `xs[-1]`, where there is one.
abbrev pub last? : List ℕ → Option ℕ
last? [] = none
last? (x ∷ []) = some x
last? (x ∷ y ∷ xs) = last? (y ∷ xs)

-- `output_ids[-1] if output_ids else prompt_ids[-1]`.
unfoldable pub input_token : Request → Result ℕ
input_token r = elim (last? r.output_ids) [
  | some t ↦ ok t
  | none ↦ elim (last? r.prompt_ids) [ some t ↦ ok t | none ↦ err index_error ]
]

unfoldable pub execution : Request → Phase → ℕ → ℕ → Result ExecutionRequest
unfolding input_token
execution r phase position num_tokens = elim (input_token r) [
  | err e ↦ err e
  | ok token ↦ ok (record {
    identity = identity r;
    prompt_ids = r.prompt_ids;
    input_token_id = token;
    position = position;
    num_tokens = num_tokens;
    phase = phase;
    sampling = r.sampling;
    output_ids = if r.sampling.has_frequency_penalty then r.output_ids else [];
    cont_len = r.cont_len;
  })
]

abbrev pub next_pos : Request → ℕ
next_pos r = r.num_computed_tokens

abbrev pub prefill_complete : Request → Bool
prefill_complete r = leb r.input_tokens r.num_computed_tokens && ltb 0 r.input_tokens

abbrev pub eos_of : Request → List ℕ
eos_of r = elim r.eos_token_ids [ none ↦ [] | some ids ↦ ids ]

abbrev pub at_limit : Option ℕ → ℕ → Bool
at_limit none n = false
at_limit (some limit) n = leb limit n

abbrev pub ends_in : Option ℕ → List ℕ → Bool
ends_in none stop_ids = false
ends_in (some t) stop_ids = mem t stop_ids

unfoldable pub is_finished : Request → List ℕ → Bool
is_finished r stop_ids =
    at_limit r.max_tokens r.output_tokens || ends_in (last? r.output_ids) stop_ids

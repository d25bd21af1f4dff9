-- ===== src/Frontend/Output.antt =====
-- astrai/inference/frontend/output_processor.py, class `OutputProcessor`: the events of one request
-- folded into text and a terminal state. The tokenizer's incremental decoder is a parameter over its
-- state `D`; it gives no text where it raises, and `str_of` is `str` of a token's number. The core
-- leaves `RequestFinished.token_ids` empty, so the processor's own tokens stay.
pub mod Stream
use Prim.Native.String.{String}
use astr_ai.Base.{
  ℕ, Bool, true, false, List, [], ◌∷◌, ◌++◌, Option, none, some, if◌then◌else◌, length,
}
use astr_ai.Engine.Request.{
  Event, token_delta, request_finished, request_error, FinishReason, stop_token, engine_abort,
}
use astr_ai.Frontend.StopChecker
use astr_ai.Frontend.StopChecker.{StopChecker, Text}

pub record ProcessedOutput : Type 0 where
  pub request_id : String
  pub token_ids : List ℕ
  pub prompt_tokens : ℕ
  pub finish_reason : Option FinishReason
  pub stop_sequence : Option Text

pub record OutputProcessor (D : Type 0) : Type 0 where
  pub decoder : D
  pub stop : StopChecker
  pub state : ProcessedOutput

abbrev pub is_set : Option FinishReason → Bool
is_set none = false
is_set (some _) = true

abbrev pub finished : {D : Type 0} → OutputProcessor D → Bool
finished p = is_set p.state.finish_reason

-- `_finish`.
abbrev pub finish : {D : Type 0} → OutputProcessor D → FinishReason → OutputProcessor D
finish p reason = record p {
  state = record (p.state) { finish_reason = some reason; stop_sequence = p.stop.matched };
}

module _ {D : Type 0} (decode : D → ℕ → D × Option Text) (str_of : ℕ → Text) where
  -- The text of a token: what the decoder gives, or the token's number.
  abbrev pub raw_of : Option Text → ℕ → Text
  raw_of none token = str_of token
  raw_of (some text) token = text

  unfoldable pub push_token : OutputProcessor D → ℕ → OutputProcessor D × Text × Bool
  push_token p token =
      let (decoder, decoded) = decode p.decoder token in
      let (stop, text, stopped) = StopChecker.push p.stop (raw_of decoded token) in
      let q : OutputProcessor D = record {
        decoder = decoder;
        stop = stop;
        state = record (p.state) { token_ids = p.state.token_ids ++ token ∷ [] };
      } in
      (if stopped then finish q stop_token else q, text, stopped)

  -- The tail that was held is part of the response.
  unfoldable pub push_end : OutputProcessor D → FinishReason → OutputProcessor D × Text × Bool
  push_end p reason =
      let q = finish p reason in
      let (stop, tail) = StopChecker.flush q.stop in (record q { stop = stop }, tail, false)

  unfoldable pub push_event : OutputProcessor D → Event → OutputProcessor D × Text × Bool
  unfolding push_token push_end
  push_event p (token_delta rid token number) = push_token p token
  push_event p (request_finished rid reason prompt_tokens completion_tokens) =
      push_end (record p { state = record (p.state) { prompt_tokens = prompt_tokens } }) reason
  push_event p (request_error rid) = push_end p engine_abort

  unfoldable pub push : OutputProcessor D → Event → OutputProcessor D × Text × Bool
  unfolding push_event
  push p event = if finished p then (p, [], false) else push_event p event

abbrev pub new : {D : Type 0} → String → D → List Text → ℕ → OutputProcessor D
new request_id decoder stop_sequences prompt_tokens = record {
  decoder = decoder;
  stop = StopChecker.init stop_sequences;
  state = record {
    request_id = request_id;
    token_ids = [];
    prompt_tokens = prompt_tokens;
    finish_reason = none;
    stop_sequence = none;
  };
}

abbrev pub usage : {D : Type 0} → OutputProcessor D → ℕ × ℕ
usage p = (p.state.prompt_tokens, length p.state.token_ids)

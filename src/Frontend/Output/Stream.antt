-- ===== src/Frontend/Output/Stream.antt =====
-- astrai/inference/frontend/output_processor.py: the text of a whole response.
use Prim.Native.String.{String}
use mathlib.Core.List.{append-nil, append_assoc}
use astr_ai.Base.{
  ℕ, ◌≡◌, refl, sym, ap, ◌∙◌, Bool, true, false, List, [], ◌∷◌, ◌++◌, Option, some, arith,
  if◌then◌else◌,
}
use astr_ai.Engine.Request.{Event, token_delta, request_finished, FinishReason, stop_token}
use astr_ai.Frontend.StopChecker
use astr_ai.Frontend.StopChecker.{StopChecker, Text}
use astr_ai.Frontend.StopChecker.Stream.{push_all}
use astr_ai.Frontend.Output.{
  OutputProcessor, finished, finish, raw_of, push_token, push_end, push_event, push,
}

-- What a consumer shows of a stream: with the tail, unless it stopped.
abbrev pub shown : StopChecker × Text × Bool → Text
shown (c, released, stopped) = if stopped then released else released ++ c.buffer

module _ {D : Type 0} (decode : D → ℕ → D × Option Text) (str_of : ℕ → Text) where
  -- The text of each token.
  abbrev pub pieces : D → List ℕ → List Text
  pieces d [] = []
  pieces d (token ∷ tokens) =
      raw_of decode str_of (decode d token).1 token ∷ pieces (decode d token).0 tokens

  -- The events of a response: its tokens, and the end.
  abbrev pub events : String → List ℕ → ℕ → FinishReason → List Event
  events rid [] n reason = request_finished rid reason n 0 ∷ []
  events rid (token ∷ tokens) n reason = token_delta rid token 0 ∷ events rid tokens n reason

  -- The events folded one after the other, with all the text.
  unfoldable pub fold : OutputProcessor D → List Event → OutputProcessor D × Text
  fold p [] = (p, [])
  fold p (event ∷ es) =
      let (q, text, stopped) = push decode str_of p event in
      let (r, more) = fold q es in (r, text ++ more)

  fold_finished :
      (es : List Event) (p : OutputProcessor D) → finished p ≡ true → fold p es ≡ (p, [])
  unfolding fold push
  fold_finished [] p h = refl
  fold_finished (e ∷ es) p h = let rest = fold_finished es p h in ground (arith, h, rest)

  push-push_token :
      (p : OutputProcessor D) (rid : String) (token number : ℕ)
      → finished p ≡ false
      → push decode str_of p (token_delta rid token number) ≡ push_token decode str_of p token
  unfolding push push_event
  push-push_token p rid token number h = ground (arith, h)

  -- The processor after a token that does not stop it.
  abbrev taken : OutputProcessor D → ℕ → StopChecker → OutputProcessor D
  taken p token c = record {
    decoder = (decode p.decoder token).0;
    stop = c;
    state = record (p.state) { token_ids = p.state.token_ids ++ token ∷ [] };
  }

  push_token-taken :
      (p : OutputProcessor D) (token : ℕ) (c : StopChecker) (text : Text) (stopped : Bool)
      → StopChecker.push p.stop (raw_of decode str_of (decode p.decoder token).1 token)
        ≡ (c, text, stopped)
      → push_token decode str_of p token
        ≡ (if stopped then finish (taken p token c) stop_token else taken p token c, text, stopped)
  unfolding push_token
  push_token-taken p token c text stopped e = rw e refl

  -- The tail at the end of the stream.
  push_all_stops :
      (c c₁ : StopChecker) (t text : Text) (ts : List Text)
      → StopChecker.push c t ≡ (c₁, text, true)
      → push_all c (t ∷ ts) ≡ (c₁, text, true)
  unfolding push_all
  push_all_stops c c₁ t text ts e = rw e refl

  push_all_passes :
      (c c₁ : StopChecker) (t text : Text) (ts : List Text)
      → StopChecker.push c t ≡ (c₁, text, false)
      → push_all c (t ∷ ts) ≡ ((push_all c₁ ts).0, text ++ (push_all c₁ ts).1, (push_all c₁ ts).2)
  unfolding push_all
  push_all_passes c c₁ t text ts e = rw e refl

  shown-append :
      (c : StopChecker) (a b : Text) (stopped : Bool)
      → shown (c, a ++ b, stopped) ≡ a ++ shown (c, b, stopped)
  shown-append c a b true = refl
  shown-append c a b false = append_assoc a b c.buffer

  abbrev Same : OutputProcessor D × Text → FinishReason → StopChecker × Text × Bool → Type 0
  Same (q, text) reason r =
      (text ≡ shown r)
      × (q.state.finish_reason ≡ some (if r.2 then stop_token else reason))
      × (q.state.stop_sequence ≡ r.0.matched)

  -- A token's event that stops the stream, and one that does not.
  fold_stopped :
      (rid : String) (token : ℕ) (es : List Event) (p : OutputProcessor D) (c : StopChecker)
      (text : Text)
      → finished p ≡ false
      → StopChecker.push p.stop (raw_of decode str_of (decode p.decoder token).1 token)
        ≡ (c, text, true)
      → fold p (token_delta rid token 0 ∷ es) ≡ (finish (taken p token c) stop_token, text ++ [])
  unfolding fold
  fold_stopped rid token es p c text h e =
      rw
        (
          push-push_token p rid token 0 h,
          push_token-taken p token c text true e,
          fold_finished es (finish (taken p token c) stop_token) refl,
        )
        refl

  fold_passed :
      (rid : String) (token : ℕ) (es : List Event) (p : OutputProcessor D) (c : StopChecker)
      (text : Text)
      → finished p ≡ false
      → StopChecker.push p.stop (raw_of decode str_of (decode p.decoder token).1 token)
        ≡ (c, text, false)
      → fold p (token_delta rid token 0 ∷ es)
        ≡ ((fold (taken p token c) es).0, text ++ (fold (taken p token c) es).1)
  unfolding fold
  fold_passed rid token es p c text h e =
      rw (push-push_token p rid token 0 h, push_token-taken p token c text false e) refl

  fold-push_all_cons :
      (rid : String) (token : ℕ) (tokens : List ℕ) (n : ℕ) (reason : FinishReason)
      (p : OutputProcessor D)
      → finished p ≡ false
      → ((c : StopChecker)
          → Same
              (fold (taken p token c) (events rid tokens n reason))
              reason
              (push_all c (pieces (decode p.decoder token).0 tokens)))
      → (r : StopChecker × Text × Bool)
      → StopChecker.push p.stop (raw_of decode str_of (decode p.decoder token).1 token) ≡ r
      → Same
          (fold p (events rid (token ∷ tokens) n reason))
          reason
          (push_all p.stop (pieces p.decoder (token ∷ tokens)))
  fold-push_all_cons rid token tokens n reason p h rest (c, text, true) e =
      rw
        (
          fold_stopped rid token (events rid tokens n reason) p c text h e,
          push_all_stops p.stop c (raw_of decode str_of (decode p.decoder token).1 token) text
              (pieces (decode p.decoder token).0 tokens) e,
        )
        (append-nil text, refl, refl)
  fold-push_all_cons rid token tokens n reason p h rest (c, text, false) e =
      let (same, reasons, seq) = rest c in
      let r = push_all c (pieces (decode p.decoder token).0 tokens) in
      rw
        (
          fold_passed rid token (events rid tokens n reason) p c text h e,
          push_all_passes p.stop c (raw_of decode str_of (decode p.decoder token).1 token) text
              (pieces (decode p.decoder token).0 tokens) e,
        )
        (ap (λ (x : Text). text ++ x) same ∙ sym (shown-append r.0 text r.1 r.2), reasons, seq)

  fold-push_all-Same :
      (rid : String) (tokens : List ℕ) (n : ℕ) (reason : FinishReason) (p : OutputProcessor D)
      → finished p ≡ false
      → Same
          (fold p (events rid tokens n reason))
          reason
          (push_all p.stop (pieces p.decoder tokens))
  unfolding fold push push_event push_all push_end StopChecker.flush
  fold-push_all-Same rid [] n reason p h = rw h (append-nil p.stop.buffer, refl, refl)
  fold-push_all-Same rid (token ∷ tokens) n reason p h =
      fold-push_all_cons rid token tokens n reason p h
        (λ (c : StopChecker). fold-push_all-Same rid tokens n reason (taken p token c) h)
        (StopChecker.push p.stop (raw_of decode str_of (decode p.decoder token).1 token)) refl

  -- The text of a whole response, its finish reason and its stop sequence are those of the stop
  -- checker on the pieces that the tokens decode to: the tail that it still holds is shown unless it
  -- stopped, and the reason is then the core's.
  pub fold-push_all :
      (rid : String) (tokens : List ℕ) (n : ℕ) (reason : FinishReason) (p : OutputProcessor D)
      → finished p ≡ false
      → ((fold p (events rid tokens n reason)).1
          ≡ shown (push_all p.stop (pieces p.decoder tokens)))
        × ((fold p (events rid tokens n reason)).0.state.finish_reason
            ≡ some (if (push_all p.stop (pieces p.decoder tokens)).2 then stop_token else reason))
        × ((fold p (events rid tokens n reason)).0.state.stop_sequence
            ≡ (push_all p.stop (pieces p.decoder tokens)).0.matched)
  fold-push_all rid tokens n reason p h = fold-push_all-Same rid tokens n reason p h

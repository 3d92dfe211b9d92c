-- ===== src/Gateway/Streaming/Relay.antt =====
-- How `handleChatCompletionsStream` of pkg/gateway/openai_proxy.go reads a stream and passes its chunks
-- on. A stream is the list of what its decoder gives, and its end is the end of the list.
use ai_peer.Base.{
  String, Bool, true, false, ℤ, ℕ, pos, suc, leb_ℤ, sub64, Option, none, some, List, [], ◌∷◌,
  if◌then◌else◌, ◌==◌, string_eq, not, ◌&&◌,
}
use ai_peer.Wire.{InferenceStreamChunk}
use ai_peer.Gateway.Pricing.{ChatRequest, estimate_input_tokens, at_least}
use ai_peer.Gateway.Messages.{StreamEvent}

-- What the decoder gives: a value, or an error other than the end of the stream.
pub data Frame (A : Type 0) : Type 0 where
  chunk : A → Frame A
  broken : Frame A

-- A stream, with the time from the start of the attempt until its first value is decoded, and the time
-- that the decoding then waits, both in nanoseconds.
pub record Opened (A : Type 0) : Type 0 where
  pub elapsed : ℤ
  pub waited : ℤ
  pub frames : List (Frame A)

pub record OllamaStreamResponse : Type 0 where
  pub model : String
  pub content : String
  pub prompt_eval_count : ℤ
  pub eval_count : ℤ
  pub done : Bool

module _ {A : Type 0} where
  abbrev pub head_of : List (Frame A) → Option (A × List (Frame A))
  head_of [] = none
  head_of (broken ∷ frames) = none
  head_of (chunk c ∷ frames) = some (c, frames)

  -- The first value and the rest, through `decodeWithTimeout` with what is left of the limit.
  unfoldable pub decode_with_timeout : ℤ → Opened A → Option (A × List (Frame A))
  decode_with_timeout limit o =
      if leb_ℤ (sub64 limit o.elapsed) (pos 0)
      then none
      else if leb_ℤ limit (pos 0)
      then head_of o.frames
      else if leb_ℤ limit o.waited
      then none
      else head_of o.frames

-- What has been relayed, and the tokens that were reported.
pub record Relayed : Type 0 where
  pub prompt_tokens : ℤ
  pub completion_tokens : ℤ
  pub success : Bool
  pub events : List StreamEvent

abbrev pub ended : ℤ → ℤ → Bool → List StreamEvent → Relayed
ended prompt completion success events = record {
  prompt_tokens = prompt;
  completion_tokens = completion;
  success = success;
  events = events;
}

abbrev pub with_event : StreamEvent → Relayed → Relayed
with_event e r = record r { events = e ∷ r.events }

-- The model that is named in the events from here on.
abbrev pub model_after : String → String → String
model_after model given = if model == "" && not (given == "") then given else model

abbrev pub event : String → Bool → String → Bool → StreamEvent
event model role content finished = record {
  model = model;
  role = role;
  content = content;
  finished = finished;
}

module _ (takes : ℕ → Bool) (req : ChatRequest) where
  -- What the prompt of a stream that is done counts as.
  abbrev pub prompt_estimate : ℤ
  prompt_estimate = pos (estimate_input_tokens (some req))

  -- The loop over the chunks after the first. `n` counts the events before.
  unfoldable pub relay_remote : ℕ → String → List (Frame InferenceStreamChunk) → Relayed
  relay_remote n model [] = ended (pos 0) (pos 0) true []
  relay_remote n model (broken ∷ frames) = ended (pos 0) (pos 0) false []
  relay_remote n model (chunk c ∷ frames) =
      let named = model_after model c.model in
      let e = event named false c.content c.done in
      let rest = relay_remote (suc n) named frames in
      let prompt_tok = if c.done then prompt_estimate else pos 0 in
      let completion_tok = if c.done then at_least (pos 0) c.tokens_used else pos 0 in
      if not c.ok
      then ended (pos 0) (pos 0) false []
      else if not (takes n)
      then ended prompt_tok completion_tok false []
      else if c.done
      then ended prompt_tok completion_tok true (e ∷ [])
      else with_event e rest

  unfoldable pub relay_first_remote :
      InferenceStreamChunk → List (Frame InferenceStreamChunk) → Relayed
  unfolding relay_remote
  relay_first_remote first frames =
      let named = model_after req.model first.model in
      let e = event named true first.content first.done in
      if not (takes 0)
      then ended (pos 0) (pos 0) false []
      else if first.done
      then ended prompt_estimate (at_least (pos 0) first.tokens_used) true (e ∷ [])
      else with_event e (relay_remote 1 named frames)

module _ (takes : ℕ → Bool) where
  -- The same for the local backend, whose stream is read on after a chunk that is done.
  unfoldable pub relay_local : ℕ → String → ℤ → ℤ → List (Frame OllamaStreamResponse) → Relayed
  relay_local n model prompt completion [] = ended prompt completion true []
  relay_local n model prompt completion (broken ∷ frames) = ended prompt completion false []
  relay_local n model prompt completion (chunk c ∷ frames) =
      let named = model_after model c.model in
      let prompt_tok = if c.done then c.prompt_eval_count else prompt in
      let completion_tok = if c.done then c.eval_count else completion in
      let rest = relay_local (suc n) named prompt_tok completion_tok frames in
      if not (takes n)
      then ended prompt_tok completion_tok false []
      else with_event (event named false c.content c.done) rest

  unfoldable pub relay_first_local :
      String → OllamaStreamResponse → List (Frame OllamaStreamResponse) → Relayed
  unfolding relay_local
  relay_first_local model first frames =
      let named = model_after model first.model in
      let prompt_tok = if first.done then first.prompt_eval_count else pos 0 in
      let completion_tok = if first.done then first.eval_count else pos 0 in
      let e = event named true first.content first.done in
      if not (takes 0)
      then ended prompt_tok completion_tok false []
      else if first.done
      then ended prompt_tok completion_tok true (e ∷ [])
      else with_event e (relay_local 1 named prompt_tok completion_tok frames)

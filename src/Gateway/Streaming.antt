-- ===== src/Gateway/Streaming.antt =====
-- `handleChatCompletionsStream` of pkg/gateway/openai_proxy.go and what it calls. The remote call, the local backend, the
-- JSON decoder, the clock and the client's connection are parameters. The failure texts, which are
-- only logged, and the ids and times in an event are left out.
pub mod Relay
pub mod Relaying
mod Tests
use ai_peer.Base.{
  String, Bool, true, false, ℤ, ℕ, pos, suc, ltb, leb_ℤ, sub64, Option, none, some, List, [], ◌∷◌,
  if◌then◌else◌, ◌==◌, string_eq, not, ◌&&◌, ◌||◌, trim_space,
}
use ai_peer.Gateway.Streaming.Relay.{
  Frame, Opened, OllamaStreamResponse, decode_with_timeout, Relayed, relay_first_remote,
  relay_first_local,
}
use ai_peer.Wire.{InferenceStreamChunk}
use ai_peer.Registry.{NodeRecord}
use ai_peer.Gateway.Records.{ApiKeyPrincipal}
use ai_peer.Gateway.Pricing.{ChatRequest, estimate_input_tokens, at_least}
use ai_peer.Gateway.Proxy.{Proxy}
use ai_peer.Gateway.Sessions.{PrepaidChargeSession}
use ai_peer.Gateway.Routing.{RemotePaymentRequiredError, max_remote_retries, writes_payment}
use ai_peer.Gateway.Answers.{write_error}
use ai_peer.Gateway.Chat.{Surroundings, Served, not_served, nodes_to_try, conclude}
use ai_peer.Gateway.Messages.{
  OllamaChatBody, to_ollama_chat_body, StreamEvent, ChatReply, event_stream, error_reply, forwarded,
}

pub data RemoteStream : Type 0 where
  opened : Opened InferenceStreamChunk → RemoteStream
  wants_payment : RemotePaymentRequiredError → RemoteStream
  refused : RemoteStream

-- The local backend's stream, or the status and message that the client is given.
pub data LocalStream : Type 0 where
  local_opened : Opened OllamaStreamResponse → LocalStream
  local_failed : ℕ → String → LocalStream

-- The body of an error message that asks for payment.
pub record PaymentEnvelope : Type 0 where
  pub code : String
  pub message : String
  pub payment_required : String
  pub payment_response : String

-- What stands outside: the remote call, the decoder of envelopes, the local backend, whether the
-- client's writer can flush, and whether it takes its n-th event.
pub record StreamSurroundings : Type 0 where
  pub remote_stream : Option (String → RemoteStream)
  pub parse_envelope : String → Option PaymentEnvelope
  pub local_stream : OllamaChatBody → LocalStream
  pub flushes : Bool
  pub takes : ℕ → Bool

abbrev pub envelope_error : Option PaymentEnvelope → Option RemotePaymentRequiredError
envelope_error none = none
envelope_error (some env) =
    if not (env.code == "payment_required") || trim_space env.payment_required == ""
    then none
    else some (record {
      message = env.message;
      payment_required_header = env.payment_required;
      payment_response_header = env.payment_response;
    })

unfoldable pub decode_remote_payment_required_error :
    (String → Option PaymentEnvelope) → String → Option RemotePaymentRequiredError
decode_remote_payment_required_error parse msg =
    if trim_space msg == "" then none else envelope_error (parse (trim_space msg))

-- The end of a stream is marked exactly when it succeeds.
abbrev pub streamed : Relayed → Served
streamed r = record {
  prompt_tokens = r.prompt_tokens;
  completion_tokens = r.completion_tokens;
  success = r.success;
  reply = event_stream r.events r.success;
}

abbrev pub cannot_flush : Served
cannot_flush = not_served (error_reply (write_error 500 "streaming not supported by server writer"))

module _ {S : Type 0} (w : Surroundings) (o : StreamSurroundings) (p : Proxy S)
    (req : ChatRequest) where
  abbrev pub forward_or : Option RemotePaymentRequiredError → Option Served → Option Served
  forward_or none next = next
  forward_or (some e) next =
      if writes_payment w.decodes e then some (not_served (forwarded e)) else next

  -- What is made of a node's first chunk. `next` is what the remaining nodes give.
  abbrev pub after_first :
      Option Served
      → Option (InferenceStreamChunk × List (Frame InferenceStreamChunk))
      → Option Served
  after_first next none = next
  after_first next (some (first, frames)) =
      if not first.ok
      then forward_or (decode_remote_payment_required_error o.parse_envelope first.error_message)
          next
      else if not o.flushes
      then some cannot_flush
      else some (streamed (relay_first_remote o.takes req first frames))

  -- The nodes that are asked, in order, until one of them decides the answer. `i` counts the nodes before.
  unfoldable pub ask_streams : (String → RemoteStream) → ℕ → List NodeRecord → Option Served
  unfolding decode_with_timeout decode_remote_payment_required_error relay_first_remote
  ask_streams call i [] = none
  ask_streams call i (node ∷ nodes) =
      let next = ask_streams call (suc i) nodes in
      if ltb max_remote_retries i then none else elim (call node.node_id) [
        | opened stream ↦ after_first next (decode_with_timeout p.first_token_timeout stream)
        | wants_payment e ↦ forward_or (some e) next
        | refused ↦ next
      ]

  abbrev pub after_first_local :
      Option (OllamaStreamResponse × List (Frame OllamaStreamResponse)) → Served
  after_first_local none = not_served (error_reply (write_error 504 "first token timeout"))
  after_first_local (some (first, frames)) =
      if not o.flushes
      then cannot_flush
      else streamed (relay_first_local o.takes req.model first frames)

  unfoldable pub stream_locally : Served
  unfolding decode_with_timeout relay_first_local
  stream_locally =
      if not p.local_backend_enabled
      then not_served (error_reply (write_error 503 "no remote provider available for model"))
      else elim (o.local_stream (to_ollama_chat_body req)) [
        | local_opened stream ↦ after_first_local (decode_with_timeout p.first_token_timeout stream)
        | local_failed status message ↦ not_served (error_reply (write_error status message))
      ]

  -- Remote nodes, then the local backend.
  unfoldable pub serve_stream : Served
  unfolding ask_streams stream_locally
  serve_stream = elim o.remote_stream [
    | none ↦ stream_locally
    | some call ↦ elim (ask_streams call 0 (nodes_to_try w p req)) [
      | none ↦ stream_locally
      | some result ↦ result
    ]
  ]

unfoldable pub handle_chat_completions_stream :
    {S : Type 0}
    → Surroundings
    → StreamSurroundings
    → Proxy S
    → Option ApiKeyPrincipal
    → Option PrepaidChargeSession
    → ChatRequest
    → String
    → S
    → S × ChatReply
unfolding conclude serve_stream
handle_chat_completions_stream w o p principal session req request_id s =
    conclude w p principal session req request_id (serve_stream w o p req) s

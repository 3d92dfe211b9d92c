-- ===== src/Gateway/Chat/Costs.antt =====
-- What a chat request costs a prepaid consumer, from its arrival to its end.
use ai_peer.Base.{
  Bool, true, false, ℤ, Option, some, ◌≡◌, ◌==◌, string_eq, nat_eq, to_lower, contains, length,
}
use ai_peer.Dataplane.Tables.{Tables, ok}
use ai_peer.Dataplane.Prepaid.{charge_of}
use ai_peer.Dataplane.Prepaid.Moves.{reserved_tables}
use ai_peer.Gateway.Records.{ApiKeyPrincipal}
use ai_peer.Gateway.Pricing.{ChatRequest}
use ai_peer.Gateway.Proxy.{Proxy}
use ai_peer.Gateway.Auth.{enforce_api_key_auth, admitted}
use ai_peer.Gateway.Sessions.{
  PrepaidChargeSession, estimate_prepaid_reserve, compute_prepaid_charge,
}
use ai_peer.Gateway.Sessions.Billing.{session_of}
use ai_peer.Gateway.Streaming.{StreamSurroundings, handle_chat_completions_stream}
use ai_peer.Gateway.Chat.{Surroundings, ChatCall, Served, Streaming}

-- The request is complete, is for a stream as `streams` says, and comes with a key of the principal.
pub record Welcome (w : Surroundings) (p : Proxy Tables) (call : ChatCall) (req : ChatRequest)
    (streams : Bool) (principal : ApiKeyPrincipal) (t : Tables) : Type 0 where
  pub is_json : contains (to_lower call.content_type) "application/json" ≡ true
  pub is_read : call.body ≡ ok req
  pub model_named : (req.model == "") ≡ false
  pub has_messages : (length req.messages == 0) ≡ false
  pub is_streamed : req.stream ≡ streams
  pub has_key : enforce_api_key_auth w.hash p call.headers t ≡ admitted (some principal)

module _ (w : Surroundings) (p : Proxy Tables) (now : ℤ) (stream : Streaming Tables)
    (call : ChatCall) (req : ChatRequest) (principal : ApiKeyPrincipal) (b : ℤ) (t : Tables) where
  session : Option PrepaidChargeSession
  session = some (session_of principal call.request_id (estimate_prepaid_reserve p (some req)))

  -- What holds the estimate when the inference starts.
  held : Tables
  held =
      reserved_tables principal.consumer_id call.request_id (estimate_prepaid_reserve p (some req))
        b t

  -- What the request costs its consumer if it ends so.
  abbrev pub cost_of : Served → ℤ
  cost_of result =
      charge_of (estimate_prepaid_reserve p (some req))
        (compute_prepaid_charge p (some req) result.completion_tokens) result.success

module _ (w : Surroundings) (o : StreamSurroundings) (p : Proxy Tables) (now : ℤ) (call : ChatCall)
    (req : ChatRequest) (principal : ApiKeyPrincipal) (b : ℤ) (t : Tables) where
  handler : Streaming Tables
  handler = handle_chat_completions_stream w o p

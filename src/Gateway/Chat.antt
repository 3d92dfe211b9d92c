-- ===== src/Gateway/Chat.antt =====
-- `handleChatCompletions` of pkg/gateway/openai_proxy.go, with the usage event of a hosted gateway. The
-- remote call, the local backend, the clock and the facilitator are parameters, and so is `stream`,
-- which handles a request for a stream in the place of `handleChatCompletionsStream`. The ids and
-- times in an answer are left out.
pub mod Costs
mod Tests
use ai_peer.Base.{
  String, Bool, true, false, ℤ, ℕ, pos, ◌+ℤ◌, add64, Option, none, some, List, [], ◌∷◌,
  if◌then◌else◌, ◌==◌, string_eq, not, ◌&&◌, ◌||◌, trim_space, to_lower, contains, equal_fold,
  str_append, is_some, length, nat_eq,
}
use ai_peer.Dataplane.Tables.{Result, ok, err}
use ai_peer.Registry.{Registry, NodeRecord}
use ai_peer.Gateway.Records.{ApiKeyPrincipal, UsageEvent}
use ai_peer.Gateway.Pricing.{ChatRequest, ChatMessage, estimate_input_tokens}
use ai_peer.Gateway.Proxy.{
  Proxy, ControlStore, Refusal, is_official_prepaid_only, official_gateway_id,
}
use ai_peer.Gateway.Auth.{Headers, Access, admitted, refused, enforce_api_key_auth}
use ai_peer.Gateway.Sessions.{
  PrepaidChargeSession, Begin, proceed, stop, begin_prepaid_reservation,
  finalize_prepaid_reservation, compute_prepaid_charge, is_prepaid,
}
use ai_peer.Gateway.Routing.{
  Reply, RemoteChatResponse, RemotePaymentRequiredError, Routed, served, payment_sent, exhausted,
  ask_remote,
}
use ai_peer.Gateway.Ranking.{ranked_nodes_for_model, reorder_nodes_by_ping}
use ai_peer.Gateway.Paywall.{
  Facilitator, HttpRequest, Payment, accepted, demanded, Demand, enforce_chat_payment,
}
use ai_peer.Gateway.Messages.{
  OllamaChatBody, to_ollama_chat_body, Backend, completion_from_ollama, completion_from_remote,
  ChatReply, chatted, failed, error_reply, demand_reply, forwarded, completed,
}
use ai_peer.Gateway.Answers.{Answer, write_error}

-- How the inference ends.
pub record Served : Type 0 where
  pub prompt_tokens : ℤ
  pub completion_tokens : ℤ
  pub success : Bool
  pub reply : ChatReply

abbrev pub not_served : ChatReply → Served
not_served reply = record {
  prompt_tokens = pos 0;
  completion_tokens = pos 0;
  success = false;
  reply = reply;
}

-- What stands outside the gateway.
pub record Surroundings : Type 0 where
  pub hash : String → String
  pub facilitator : Facilitator
  pub registry : Option Registry
  pub peer_latency : Option (String → Result ℤ)
  pub remote_chat : Option (String → Reply)
  pub decodes : String → Bool
  pub backend : OllamaChatBody → Backend
  pub now : ℤ
  pub latency_ms : ℤ

pub record ChatCall : Type 0 where
  pub request_id : String
  pub content_type : String
  pub headers : Headers
  pub http : HttpRequest
  pub body : Result ChatRequest

abbrev pub from_backend : ChatRequest → String → Backend → Served
from_backend req request_id (chatted ollama) = record {
  prompt_tokens = ollama.prompt_eval_count;
  completion_tokens = ollama.eval_count;
  success = true;
  reply = completed (completion_from_ollama ollama req.model request_id);
}
from_backend req request_id (failed status message) =
    not_served (error_reply (write_error status message))

module _ {S : Type 0} (w : Surroundings) (p : Proxy S) where
  unfoldable pub serve_locally : ChatRequest → String → Served
  serve_locally req request_id =
      if not p.local_backend_enabled
      then not_served (error_reply (write_error 503 "no remote provider available for model"))
      else from_backend req request_id (w.backend (to_ollama_chat_body req))

  abbrev pub after_remote : ChatRequest → String → Routed → Served
  after_remote req request_id (served id resp billed) = record {
    prompt_tokens = pos (estimate_input_tokens (some req));
    completion_tokens = billed;
    success = true;
    reply = completed (completion_from_remote resp req.model request_id);
  }
  after_remote req request_id (payment_sent id e) = not_served (forwarded e)
  after_remote req request_id (exhausted reason) = serve_locally req request_id

  -- The nodes that are tried, best first, without any where there is no registry.
  abbrev pub nodes_to_try : ChatRequest → List NodeRecord
  nodes_to_try req =
      reorder_nodes_by_ping w.peer_latency (ranked_nodes_for_model w.registry req.model)

  -- Remote nodes, then the local backend.
  unfoldable pub serve : ChatRequest → String → Served
  unfolding serve_locally
  serve req request_id = elim w.remote_chat [
    | none ↦ serve_locally req request_id
    | some call ↦ after_remote req request_id (ask_remote call w.decodes (nodes_to_try req)).1
  ]

abbrev pub is_enabled : Option PrepaidChargeSession → Bool
is_enabled none = false
is_enabled (some session) = session.enabled

abbrev pub consumer_of : Option ApiKeyPrincipal → String
consumer_of none = ""
consumer_of (some principal) = principal.consumer_id

module _ {S : Type 0} (w : Surroundings) (p : Proxy S) where
  abbrev pub payment_method : Option PrepaidChargeSession → String
  payment_method session =
      if is_enabled session then "prepaid" else if is_some p.chat_paywall then "x402" else "none"

  abbrev pub usage_event :
      Option ApiKeyPrincipal
      → Option PrepaidChargeSession
      → ChatRequest
      → String
      → Served
      → UsageEvent
  usage_event principal session req request_id result = record {
    request_id = request_id;
    gateway_id = official_gateway_id p;
    gateway_type = "official";
    consumer_id = consumer_of principal;
    provider_id = "";
    model = trim_space req.model;
    tokens_in = result.prompt_tokens;
    tokens_out = result.completion_tokens;
    cost_usdc =
        if is_enabled session && result.success
        then compute_prepaid_charge p (some req) result.completion_tokens
        else pos 0;
    latency_ms = w.latency_ms;
    status = if result.success then "ok" else "error";
    payment_method = payment_method session;
    created_at = some w.now;
  }

  -- An error of the store is only logged.
  unfoldable pub record_official_chat_usage :
      Option ApiKeyPrincipal → Option PrepaidChargeSession → ChatRequest → String → Served → S → S
  record_official_chat_usage principal session req request_id result s =
      if not (equal_fold (trim_space p.gateway_mode) "official") then s else elim p.control_store [
        | none ↦ s
        | some store ↦
            (store.insert_usage_events (usage_event principal session req request_id result ∷ [])
              s).0
      ]

  -- What is deferred to the end of the inference: the charge and the usage event.
  unfoldable pub conclude :
      Option ApiKeyPrincipal
      → Option PrepaidChargeSession
      → ChatRequest
      → String
      → Served
      → S
      → S × ChatReply
  unfolding record_official_chat_usage
  conclude principal session req request_id result s =
      let s1 =
        finalize_prepaid_reservation p session (some req) result.completion_tokens result.success
          s in
      (record_official_chat_usage principal session req request_id result s1, result.reply)

  unfoldable pub infer :
      Option ApiKeyPrincipal
      → Option PrepaidChargeSession
      → ChatRequest
      → String
      → S
      → S × ChatReply
  unfolding conclude
  infer principal session req request_id s =
      conclude principal session req request_id (serve w p req request_id) s

abbrev pub prepaid_principal : Option ApiKeyPrincipal → Bool
prepaid_principal none = false
prepaid_principal (some principal) = is_prepaid principal

-- Serves a stream to a request that is let in.
abbrev pub Streaming : Type 0 → Type 0
Streaming S =
    Option ApiKeyPrincipal → Option PrepaidChargeSession → ChatRequest → String → S → S × ChatReply

module _ {S : Type 0} (w : Surroundings) (p : Proxy S) (stream : Streaming S) where
  abbrev pub paid_infer :
      Option ApiKeyPrincipal
      → Option PrepaidChargeSession
      → ChatRequest
      → String
      → Payment
      → S
      → S × ChatReply
  paid_infer principal session req request_id (accepted header) s =
      if req.stream
      then stream principal session req request_id s
      else infer w p principal session req request_id s
  paid_infer principal session req request_id (demanded demand) s =
      (finalize_prepaid_reservation p session (some req) (pos 0) false s, demand_reply demand)

  abbrev pub after_reservation :
      ChatCall → Option ApiKeyPrincipal → ChatRequest → S × Begin → S × ChatReply
  after_reservation call principal req (s, stop r) =
      (s, error_reply (write_error r.status r.message))
  after_reservation call principal req (s, proceed session) =
      let need_chat_x402 = not (is_official_prepaid_only p) && not (is_enabled session) in
      paid_infer principal session req call.request_id
        (if need_chat_x402
          then enforce_chat_payment w.facilitator p call.http (some req)
          else accepted none)
        s

  abbrev pub after_auth : ChatCall → ChatRequest → Access → S → S × ChatReply
  after_auth call req (refused r) s = (s, error_reply (write_error r.status r.message))
  after_auth call req (admitted principal) s =
      if is_official_prepaid_only p && not (prepaid_principal principal)
      then (s, error_reply (write_error 403 "official gateway requires a prepaid API key"))
      else after_reservation call principal req
          (begin_prepaid_reservation p call.request_id principal (some req) s)

  abbrev pub checked_chat : ChatCall → ChatRequest → S → S × ChatReply
  checked_chat call req s =
      if req.model == ""
      then (s, error_reply (write_error 400 "missing model"))
      else if length req.messages == 0
      then (s, error_reply (write_error 400 "missing messages"))
      else after_auth call req (enforce_api_key_auth w.hash p call.headers s) s

  unfoldable pub handle_chat_completions : ChatCall → S → S × ChatReply
  unfolding infer
  handle_chat_completions call s =
      if not (contains (to_lower call.content_type) "application/json")
      then (s, error_reply (write_error 415 "expected application/json body"))
      else elim call.body [
        | err e ↦ (s, error_reply (write_error 400 e))
        | ok req ↦ checked_chat call req s
      ]

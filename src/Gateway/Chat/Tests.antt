-- ===== src/Gateway/Chat/Tests.antt =====
-- A chat request at a hosted gateway with three nodes.
use ai_peer.Base.{
  String, Bool, true, false, ℤ, pos, ◌-ℤ◌, Option, none, some, List, [], ◌∷◌, ◌≡◌, ◌↔◌, ◌≢◌, refl,
  if◌then◌else◌, ◌==◌, string_eq, str_append, In, map, Sorted, length,
}
use ai_peer.Dataplane.Tables.{Tables, Consumer, KeyRow, ok, err}
use ai_peer.Dataplane.Faults.{never}
use ai_peer.Dataplane.Store.{postgres_store}
use ai_peer.Registry.{Registry, NodeRecord, blank, records}
use ai_peer.Gateway.Records.{ApiKeyPrincipal}
use ai_peer.Gateway.Pricing.{ChatRequest, TokenPricing}
use ai_peer.Gateway.Proxy.{Proxy, new_proxy}
use ai_peer.Gateway.Auth.{Headers, admitted}
use ai_peer.Gateway.Routing.{Reply}
use ai_peer.Gateway.Routing
use ai_peer.Gateway.Paywall.{Facilitator}
use ai_peer.Gateway.Ranking.{ranks_before, ranked_nodes_for_model, reorder_nodes_by_ping}
use ai_peer.Gateway.Ranking.Tests.{three}
use ai_peer.Gateway.Chat.{Surroundings, ChatCall, Streaming, serve}
use ai_peer.Gateway.Messages.{failed, error_reply}
use ai_peer.Wire.{InferenceStreamChunk}
use ai_peer.Gateway.Streaming
use ai_peer.Gateway.Streaming.Relay
use ai_peer.Gateway.Streaming.Relay.{chunk}
use ai_peer.Gateway.Streaming.{StreamSurroundings, serve_stream}
use ai_peer.Gateway.Answers.{write_error}

abbrev alice : ApiKeyPrincipal
alice = record { consumer_id = "alice"; consumer_type = "prepaid"; wallet_address = "" }

abbrev row : Consumer
row = record { api_key_hash = some "h:secret"; wallet_address = none; consumer_type = "prepaid" }

abbrev key_row : KeyRow
key_row = record { consumer_id = "alice"; status = "active"; revoked_reason = "" }

abbrev ledger : Tables
ledger = record {
  consumers = ("alice", row) ∷ [];
  api_keys = ("h:secret", key_row) ∷ [];
  balances = ("alice", pos 10_000_000) ∷ [];
  reservations = [];
  ledger = [];
  topups = [];
  providers = [];
  wallets = [];
  batches = [];
  usage = [];
}

abbrev token_price : TokenPricing
token_price = record {
  atomic_per_1k_tokens = pos 100;
  min_amount_atomic = pos 0;
  max_amount_atomic = pos 0;
  default_output_tokens = pos 256;
}

abbrev hosted : Proxy Tables
hosted = record (new_proxy ":8080") {
  gateway_mode = "official";
  auth_mode = "required";
  prepaid_token_pricing = some token_price;
  control_store = some (postgres_store never (pos 0));
}

abbrev hello : ChatRequest
hello = record {
  model = "llama3";
  messages = record { role = "user"; content = "hello" } ∷ [];
  stream = false;
  max_tokens = none;
  temperature = none;
}

abbrev no_facilitator : Facilitator
no_facilitator = record {
  decode_payload = λ header. none;
  encode_required = λ pr. none;
  encode_settlement = λ settle. none;
  post_verify = λ url body. err "";
  post_settle = λ url body. err "";
}

abbrev around : Surroundings
around = record {
  hash = λ key. str_append "h:" key;
  facilitator = no_facilitator;
  registry = some three;
  peer_latency = none;
  remote_chat = some (λ id.
      if id == "b"
      then Routing.refused "busy"
      else Routing.answered
          (record { model = "llama3"; content = "hi"; completion_tokens = pos 9 }));
  decodes = λ header. true;
  backend = λ body. failed 502 "no backend";
  now = pos 7;
  latency_ms = pos 40;
}

abbrev call : ChatCall
call = record {
  request_id = "gw-1";
  content_type = "Application/JSON";
  headers = record { api_key = "secret"; authorization = ""; control_token = "" };
  http = record { tls = true; host = "gw"; path = "/v1/chat/completions"; payment_signature = "" };
  body = ok hello;
}

abbrev no_streams : Streaming Tables
no_streams principal session req id t = (t, error_reply (write_error 500 "no streams"))

second_node_serves : (serve around hosted hello "gw-1").completion_tokens ≡ pos 9
unfolding serve Routing.ask_remote Routing.ask_nodes reorder_nodes_by_ping ranked_nodes_for_model
    ai_peer.Base.sort_by ai_peer.Registry.nodes_for_model ai_peer.Base.ltb_str ranks_before
second_node_serves = refl

abbrev hello_stream : ChatRequest
hello_stream = record hello { stream = true }

abbrev stream_call : ChatCall
stream_call = record call { body = ok hello_stream }

abbrev piece : String → Bool → ℤ → InferenceStreamChunk
piece content done tokens = record {
  request_id = "gw-1";
  model = "llama3";
  content = content;
  tokens_used = tokens;
  done = done;
  ok = true;
  error_message = "";
}

-- Node b is busy, and the first chunk of node c comes after a second.
abbrev streams : StreamSurroundings
streams = record {
  remote_stream = some (λ id.
      if id == "b"
      then Streaming.refused
      else Streaming.opened (record {
        elapsed = pos 1_000_000;
        waited = pos 1_000_000_000;
        frames = chunk (piece "hel" false (pos 0)) ∷ chunk (piece "lo" true (pos 9)) ∷ [];
      }));
  parse_envelope = λ text. none;
  local_stream = λ body. Streaming.local_failed 502 "no backend";
  flushes = true;
  takes = λ n. true;
}

second_node_streams : (serve_stream around streams hosted hello_stream).completion_tokens ≡ pos 9
unfolding serve_stream Streaming.ask_streams Relay.decode_with_timeout Relay.relay_first_remote
    Relay.relay_remote reorder_nodes_by_ping ranked_nodes_for_model ai_peer.Base.sort_by
    ai_peer.Registry.nodes_for_model ai_peer.Base.ltb_str ranks_before ai_peer.Base.sub64
    ai_peer.Base.wrap64 ◌-ℤ◌
second_node_streams = refl

-- ===== src/Gateway/Tests.antt =====
-- The gateway's theorems at a hosted gateway with one prepaid consumer.
use ai_peer.Dataplane.Store.{postgres_store}
use ai_peer.Dataplane.Faults.{never}
use ai_peer.Registry.{NodeRecord, blank}
use ai_peer.Gateway.Routing.{Reply, ask_remote, ask_nodes, answered, refused}
use ai_peer.Gateway.Sessions.Coverage.{estimate_covers_charge}
use ai_peer.Gateway.Auth.Admission.{Sends, is_authorized_official_control_iff}
use ai_peer.Gateway.Proxy.{Proxy, new_proxy}
use ai_peer.Gateway.Records.{ApiKeyPrincipal}
use ai_peer.Base.{
  inl, Option, String, ◌∷◌, pos, none, str_append, ◌≡◌, [], true, some, refl, false, ◌↔◌,
  if◌then◌else◌, ◌==◌, trim_space, string_eq, ◌≤ℤ◌, ◌≢◌, arith, List,
}
use ai_peer.Gateway.Sessions.{
  resolve_prepaid_token_pricing, estimate_prepaid_reserve, compute_prepaid_charge,
}
use ai_peer.Gateway.Pricing.{
  TokenPricing, apply_model_pricing_override, ChatRequest, estimate_input_tokens,
}
use ai_peer.Dataplane.Tables.{Tables, Consumer}
use ai_peer.Gateway.Auth.{is_authorized_official_control, Headers, enforce_api_key_auth, admitted}

abbrev alice : ApiKeyPrincipal
alice = record { consumer_id = "alice"; consumer_type = "prepaid"; wallet_address = "" }

abbrev consumer_row : Consumer
consumer_row = record {
  api_key_hash = some "h:secret";
  wallet_address = none;
  consumer_type = "prepaid";
}

abbrev one_consumer : Tables
one_consumer = record {
  consumers = ("alice", consumer_row) ∷ [];
  api_keys =
      ("h:secret", record { consumer_id = "alice"; status = "active"; revoked_reason = "" }) ∷ [];
  balances = ("alice", pos 10_000_000) ∷ [];
  reservations = [];
  ledger = [];
  topups = [];
  providers = [];
  wallets = [];
  batches = [];
  usage = [];
}

abbrev digest : String → String
digest key = str_append "h:" key

abbrev token_price : TokenPricing
token_price = record {
  atomic_per_1k_tokens = pos 100;
  min_amount_atomic = pos 0;
  max_amount_atomic = pos 0;
  default_output_tokens = pos 256;
}

abbrev hosted : Proxy Tables
hosted = record (new_proxy ":8080") {
  gateway_mode = "official";
  auth_mode = "required";
  control_api_token = "t0ken";
  prepaid_token_pricing = some token_price;
  control_store = some (postgres_store never (pos 0));
}

abbrev with_key : Headers
with_key = record { api_key = ""; authorization = "Bearer secret"; control_token = "t0ken" }

abbrev hello : Option ChatRequest
hello = some (record {
  model = "llama3";
  messages = record { role = "user"; content = "hello" } ∷ [];
  stream = false;
  max_tokens = none;
  temperature = none;
})

let_in : enforce_api_key_auth digest hosted with_key one_consumer ≡ admitted (some alice)
unfolding enforce_api_key_auth trim_space ai_peer.Base.to_lower ai_peer.Gateway.Auth.extract_api_key
    ai_peer.Gateway.Auth.after_bearer ai_peer.Base.strip_prefix ai_peer.Base.drop_chars
    ai_peer.Dataplane.Keys.lookup_active_api_key ai_peer.Dataplane.Keys.who ai_peer.Base.lookup
let_in = refl

is_authorized_official_control_iff_example :
    (is_authorized_official_control hosted with_key ≡ true) ↔ (
      (trim_space hosted.control_api_token ≢ "")
      × Sends with_key (trim_space hosted.control_api_token))
is_authorized_official_control_iff_example = is_authorized_official_control_iff hosted with_key

-- Without its own header the token may come as a bearer token.
as_bearer :
    is_authorized_official_control hosted
      (record { api_key = ""; authorization = "BEARER t0ken"; control_token = " " })
    ≡ true
unfolding is_authorized_official_control trim_space ai_peer.Gateway.Auth.after_bearer
    ai_peer.Base.strip_prefix ai_peer.Base.to_lower ai_peer.Base.drop_chars
as_bearer = refl

abbrev long_hello : ChatRequest
long_hello = record {
  model = "llama3";
  messages = record { role = "user"; content = "hello" } ∷ [];
  stream = false;
  max_tokens = some (pos 300);
  temperature = none;
}

estimate_covers_charge_example :
    compute_prepaid_charge hosted (some long_hello) (pos 290)
    ≤ℤ estimate_prepaid_reserve hosted (some long_hello)
unfolding resolve_prepaid_token_pricing apply_model_pricing_override estimate_input_tokens
    trim_space ai_peer.Base.lookup
estimate_covers_charge_example =
    estimate_covers_charge hosted long_hello 99 290 255 300 refl (inl refl) (inl refl) (omega arith)
      (omega arith) (omega arith)

abbrev four_nodes : List NodeRecord
four_nodes = blank "a" ∷ blank "b" ∷ blank "c" ∷ blank "d" ∷ []

abbrev only_c : String → Reply
only_c id =
    if id == "c"
    then answered (record { model = "llama3"; content = "hi"; completion_tokens = pos 9 })
    else refused "dial failed"

third_answers : (ask_remote only_c (λ header. true) four_nodes).0 ≡ "a" ∷ "b" ∷ "c" ∷ []
unfolding ask_remote ask_nodes
third_answers = refl

-- ===== src/Gateway/Control/Tests.antt =====
-- The theorems on the control API and the paywall at a hosted gateway.
use ai_peer.Base.{
  inr, ◌≢◌, ◌==◌, string_eq, zero, suc, String, Bool, true, false, ℤ, ℕ, pos, Option, none, some,
  List, [], ◌∷◌, ◌≡◌, ◌↔◌, ◌⊎◌, refl, arith, inl, inr, ◌==◌, string_eq, str_append, any, trim_space,
  if◌then◌else◌, ◌+ℤ◌,
}
use ai_peer.X402.{PaymentPayload, no_settlement}
use ai_peer.Dataplane.Tables.{Amount, Tables, Consumer, KeyRow, ok, err}
use ai_peer.Dataplane.Faults.{never}
use ai_peer.Dataplane.Keys.{who}
use ai_peer.Dataplane.Keys.Lifecycle.{is_owner}
use ai_peer.Dataplane.Keys.Exchange.{Unused, refuse_upsert}
use ai_peer.Dataplane.Usage.Recording.{refuse_insert}
use ai_peer.Dataplane.Store.{postgres_store}
use ai_peer.Gateway.Records.{UsageEvent}
use ai_peer.Gateway.Proxy.{Proxy, new_proxy}
use ai_peer.Gateway.Pricing.{PaywallConfig, ChatRequest}
use ai_peer.Gateway.Auth.{Headers, is_authorized_official_control}
use ai_peer.Gateway.Answers.{write_error}
use ai_peer.Gateway.Paywall.{Facilitator, HttpRequest, enforce_chat_payment, is_accepted}
use ai_peer.Gateway.Paywall.Admitted.{Paid, enforce_chat_payment_iff}
use ai_peer.Gateway.Control.Keys.{
  CreateKey, RevokeKey, RotateKey, Deposit, handle_api_keys_create, handle_api_keys_revoke,
  handle_api_keys_rotate, handle_prepaid_deposit_confirm,
}
use text.Mathlib.TextEquality.{eq_iff}
use ai_peer.Gateway.Auth.Admission.{is_authorized_official_control_iff}
use ai_peer.Gateway.Control.Guarded.{needs_token}
use ai_peer.Gateway.Control.Rotation.{
  Rotatable, rotated_principal, rotation_replaces, rotation_locks_out,
}
use ai_peer.Gateway.Control.Telemetry.{
  Signing, TelemetryUsageBatchRequest, trimmed_batch, batch_answer, handle_telemetry_usage,
}
use ai_peer.Gateway.Control.Telemetry.Retries.{
  Acceptable, retry_is_duplicate, refused_events_are_lost,
}

abbrev keyed : Consumer
keyed = record {
  api_key_hash = some "h:old";
  wallet_address = some "0xa";
  consumer_type = "prepaid";
}

abbrev one_key_row : KeyRow
one_key_row = record { consumer_id = "alice"; status = "active"; revoked_reason = "" }

abbrev small : Tables
small = record {
  consumers = ("alice", keyed) ∷ [];
  api_keys = ("h:old", one_key_row) ∷ [];
  balances = [];
  reservations = [];
  ledger = [];
  topups = [];
  providers = [];
  wallets = [];
  batches = [];
  usage = [];
}

abbrev digest : String → String
digest key = str_append "h:" key

abbrev gateway : (String → Bool) → Proxy Tables
gateway fails = record (new_proxy ":8080") {
  control_api_token = "t0ken";
  control_store = some (postgres_store fails (pos 5));
}

abbrev caller : String → Headers
caller token = record { api_key = ""; authorization = ""; control_token = token }

abbrev no_create : CreateKey
no_create = record { consumer_id = "bob"; wallet_address = ""; consumer_type = "" }

abbrev no_revoke : RevokeKey
no_revoke = record { consumer_id = "alice"; api_key = "old"; api_key_hash = ""; reason = "" }

abbrev new_for_old : RotateKey
new_for_old = record {
  consumer_id = "alice";
  old_api_key = "old";
  old_api_key_hash = "";
  wallet_address = "";
  consumer_type = "";
}

abbrev five : Amount
five = record { is_positive = true; atomic = pos 5; kept = pos 5; kept_sum = λ b. b +ℤ pos 5 }

abbrev gift : Deposit
gift = record { consumer_id = "alice"; amount_usdc = five; reference = ""; tx_hash = "" }

wrong_token : is_authorized_official_control (gateway never) (caller "guess") ≡ false
unfolding is_authorized_official_control trim_space ai_peer.Gateway.Auth.after_bearer
    ai_peer.Base.strip_prefix ai_peer.Base.to_lower
wrong_token = refl

right_token :
    (fails : String → Bool) → is_authorized_official_control (gateway fails) (caller "t0ken") ≡ true
unfolding is_authorized_official_control trim_space ai_peer.Gateway.Auth.after_bearer
    ai_peer.Base.strip_prefix ai_peer.Base.to_lower
right_token fails = refl

t0ken_nonempty : ◌==◌ {A = String} "t0ken" "" ≡ false
t0ken_nonempty = refl

token_set : trim_space (gateway never).control_api_token ≢ ""
unfolding trim_space
token_set = λ e. cc (t0ken_nonempty, (eq_iff "t0ken" "").1 e)

needs_token_example :
    (handle_api_keys_create digest
        (some "new")
        (gateway never)
        (caller "guess")
        (ok no_create)
        small
      ≡ (small, write_error 401 "official control token required"))
    × (handle_api_keys_revoke digest
          (some "new")
          (gateway never)
          (caller "guess")
          (ok no_revoke)
          small
        ≡ (small, write_error 401 "official control token required"))
    × (handle_api_keys_rotate digest
          (some "new")
          (gateway never)
          (caller "guess")
          (ok new_for_old)
          small
        ≡ (small, write_error 401 "official control token required"))
    × (handle_prepaid_deposit_confirm (gateway never) (caller "guess") (ok gift) small
        ≡ (small, write_error 401 "official control token required"))
needs_token_example =
    needs_token digest (some "new") (gateway never) (caller "guess") (ok no_create) (ok no_revoke)
      (ok new_for_old) (ok gift) small
      (inr (λ sent. cc (
        wrong_token,
        (is_authorized_official_control_iff (gateway never) (caller "guess")).1 (token_set, sent),
      )))

rotatable : Rotatable digest new_for_old small
unfolding trim_space who ai_peer.Base.lookup
rotatable = record { named = refl; kind_known = refl; old_given = refl; in_use = refl }

unused : Unused "alice" "h:new" small
unfolding ai_peer.Base.lookup ai_peer.Dataplane.Keys.hash_taken
unused = record { no_key = refl; no_pointer = refl }

rotation_replaces_example :
    ((handle_api_keys_rotate digest
        (some "new")
        (gateway never)
        (caller "t0ken")
        (ok new_for_old)
        small).1.status
      ≡ 200)
    × (who "h:old"
          (handle_api_keys_rotate digest
            (some "new")
            (gateway never)
            (caller "t0ken")
            (ok new_for_old)
            small).0
        ≡ none)
    × (who "h:new"
          (handle_api_keys_rotate digest
            (some "new")
            (gateway never)
            (caller "t0ken")
            (ok new_for_old)
            small).0
        ≡ some (rotated_principal new_for_old small))
unfolding trim_space
rotation_replaces_example =
    rotation_replaces digest (gateway never) (caller "t0ken") (pos 5) "new" new_for_old small refl
      (right_token never) rotatable unused

rotation_locks_out_example :
    ((handle_api_keys_rotate digest
        (some "new")
        (gateway refuse_upsert)
        (caller "t0ken")
        (ok new_for_old)
        small).1
      ≡ write_error 500 "failed to persist new api key")
    × (is_owner "alice" (
          who "h:old"
            (handle_api_keys_rotate digest
              (some "new")
              (gateway refuse_upsert)
              (caller "t0ken")
              (ok new_for_old)
              small).0)
        ≡ false)
unfolding trim_space
rotation_locks_out_example =
    rotation_locks_out digest (gateway refuse_upsert) (caller "t0ken") (pos 5) "new" "h:old"
      new_for_old small refl (right_token refuse_upsert) rotatable

abbrev repeated : ℕ → List ℕ
repeated zero = []
repeated (suc n) = 7 ∷ repeated n

-- Keys and signatures of the right size, and any signature verifies.
abbrev trusting : Signing
trusting = record {
  raw_url_base64 = λ s. some (if s == "key" then repeated 32 else repeated 64);
  std_base64 = λ s. none;
  hexadecimal = λ s. none;
  marshal = λ payload. ok [];
  ed25519_verify = λ key msg sig. true;
  parse_rfc3339 = λ s. some (pos 4);
}

abbrev event : UsageEvent
event = record {
  request_id = "r1";
  gateway_id = "";
  gateway_type = "";
  consumer_id = "";
  provider_id = "";
  model = "llama3";
  tokens_in = pos 3;
  tokens_out = pos 5;
  cost_usdc = pos 7;
  latency_ms = pos 40;
  status = "ok";
  payment_method = "none";
  created_at = none;
}

abbrev batch : TelemetryUsageBatchRequest
batch = record {
  gateway_id = "gw";
  gateway_pubkey = "key";
  batch_id = "b1";
  sent_at = "now";
  signature = "sig";
  events = event ∷ [];
}

acceptable : (fails : String → Bool) → Acceptable trusting (caller "") batch (pos 5) (gateway fails)
unfolding trim_space ai_peer.Gateway.Control.Telemetry.verify_telemetry_signature
    ai_peer.Gateway.Control.Telemetry.decode_telemetry_public_key
    ai_peer.Gateway.Control.Telemetry.decode_telemetry_signature
    ai_peer.Gateway.Control.Telemetry.canonical_telemetry_message
    ai_peer.Gateway.Control.Telemetry.batch_contains_official_event ai_peer.Base.◌-ℤ◌
    ai_peer.Base.equal_fold
acceptable fails = refl

retry_is_duplicate_example :
    handle_telemetry_usage trusting
      (pos 5)
      (gateway never)
      (caller "")
      (ok batch)
      (handle_telemetry_usage trusting (pos 5) (gateway never) (caller "") (ok batch) small).0
    ≡ (
      (handle_telemetry_usage trusting (pos 5) (gateway never) (caller "") (ok batch) small).0,
      batch_answer (trimmed_batch batch) 0 true,
    )
retry_is_duplicate_example =
    retry_is_duplicate trusting (caller "") batch never (pos 5) (pos 5) (gateway never)
      (gateway never) small refl refl (acceptable never) (acceptable never) refl

refused_events_are_lost_example :
    ((handle_telemetry_usage trusting
        (pos 5)
        (gateway refuse_insert)
        (caller "")
        (ok batch)
        small).1
      ≡ write_error 500 "telemetry usage persist failed")
    × ((handle_telemetry_usage trusting
          (pos 5)
          (gateway never)
          (caller "")
          (ok batch)
          (handle_telemetry_usage trusting
            (pos 5)
            (gateway refuse_insert)
            (caller "")
            (ok batch)
            small).0).1
        ≡ batch_answer (trimmed_batch batch) 0 true)
    × ((handle_telemetry_usage trusting
          (pos 5)
          (gateway never)
          (caller "")
          (ok batch)
          (handle_telemetry_usage trusting
            (pos 5)
            (gateway refuse_insert)
            (caller "")
            (ok batch)
            small).0).0.usage
        ≡ [])
refused_events_are_lost_example =
    refused_events_are_lost trusting (caller "") batch (pos 5) (pos 5) (gateway refuse_insert)
      (gateway never) small refl refl (acceptable refuse_insert) (acceptable never) refl

abbrev price : PaywallConfig
price = record {
  facilitator_url = " https://pay.example/ ";
  requirement = record {
    scheme = "exact";
    network = "base";
    amount = "25";
    asset = "usdc";
    pay_to = "0xgw";
    max_timeout_seconds = pos 60;
    extra = [];
  };
  token_pricing = none;
  model_pricing = [];
}

abbrev payment : PaymentPayload
payment = record {
  x402_version = pos 2;
  resource = record { url = ""; description = ""; mime_type = "" };
  accepted = price.requirement;
  payload = record {
    signature = "0xsig";
    authorization = record {
      from = "0xa";
      to = "0xgw";
      value = "25";
      valid_after = "0";
      valid_before = "9";
      nonce = "1";
    };
  };
  extensions = [];
}

abbrev willing : Facilitator
willing = record {
  decode_payload = λ header. if header == "paid" then some payment else none;
  encode_required = λ pr. some "required";
  encode_settlement = λ settle. some "settled";
  post_verify = λ url body.
      if url == "https://pay.example/verify"
      then ok (record { is_valid = true; invalid_reason = ""; payer = "0xa" })
      else err "not found";
  post_settle = λ url body. ok (record no_settlement { success = true; payer = "0xa" });
}

abbrev charging : Proxy Tables
charging = record (gateway never) { chat_paywall = some price }

abbrev paying : HttpRequest
paying = record {
  tls = true;
  host = "gw";
  path = "/v1/chat/completions";
  payment_signature = "paid";
}

enforce_chat_payment_iff_example :
    (is_accepted (enforce_chat_payment willing charging paying none) ≡ true) ↔ (
      (charging.chat_paywall ≡ none)
      ⊎ ((paywall : PaywallConfig) × (charging.chat_paywall ≡ some paywall)
          × Paid willing paywall paying none))
enforce_chat_payment_iff_example = enforce_chat_payment_iff willing charging paying none

let_through : is_accepted (enforce_chat_payment willing charging paying none) ≡ true
unfolding enforce_chat_payment trim_space ai_peer.Gateway.Paywall.validate_accepted_payment
    ai_peer.Gateway.Pricing.compute_payment_requirement
    ai_peer.Gateway.Paywall.settle_with_facilitator ai_peer.Gateway.Paywall.trim_slashes
let_through = refl

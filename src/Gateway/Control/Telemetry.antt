-- ===== src/Gateway/Control/Telemetry.antt =====
-- The telemetry endpoint of pkg/gateway/control_api.go: signed batches of usage events. The decoders of
-- base64 and hexadecimal, JSON, ed25519 and the parser of RFC 3339 times are parameters; `now` is the
-- server's time in nanoseconds.
pub mod Retries
use ai_peer.Base.{
  String, Bool, true, false, ℤ, ℕ, pos, ltb_ℤ, ◌-ℤ◌, Option, none, some, List, [], ◌∷◌,
  if◌then◌else◌, ◌==◌, string_eq, nat_eq, not, ◌&&◌, ◌||◌, trim_space, str_append, length, any, map,
  equal_fold,
}
use ai_peer.Dataplane.Tables.{Result, ok, err}
use ai_peer.Dataplane.Usage.{time_or}
use ai_peer.Gateway.Records.{UsageEvent}
use ai_peer.Gateway.Proxy.{Proxy, ControlStore}
use ai_peer.Gateway.Auth.{Headers, is_authorized_official_control}
use ai_peer.Gateway.Answers.{Answer, text, flag, number, write_json, write_error}
use ai_peer.Gateway.Control.{require_control_store, with_body, stored, or_default}

pub record TelemetryUsageBatchRequest : Type 0 where
  pub gateway_id : String
  pub gateway_pubkey : String
  pub batch_id : String
  pub sent_at : String
  pub signature : String
  pub events : List UsageEvent

pub record TelemetrySignedPayload : Type 0 where
  pub gateway_id : String
  pub gateway_pubkey : String
  pub batch_id : String
  pub sent_at : String
  pub events : List UsageEvent

abbrev pub Bytes : Type 0
Bytes = List ℕ

pub record Signing : Type 0 where
  pub raw_url_base64 : String → Option Bytes
  pub std_base64 : String → Option Bytes
  pub hexadecimal : String → Option Bytes
  pub marshal : TelemetrySignedPayload → Result Bytes
  pub ed25519_verify : Bytes → Bytes → Bytes → Bool
  pub parse_rfc3339 : String → Option ℤ

abbrev pub of_size : ℕ → Option Bytes → Option Bytes
of_size size none = none
of_size size (some raw) = if length raw == size then some raw else none

abbrev pub first_of : Option Bytes → Option Bytes → Option Bytes
first_of none second = second
first_of (some raw) second = some raw

abbrev pub or_error : String → Option Bytes → Result Bytes
or_error message none = err message
or_error message (some raw) = ok raw

-- Ten minutes.
abbrev pub telemetry_max_skew : ℤ
telemetry_max_skew = pos 600_000_000_000

abbrev pub trimmed_batch : TelemetryUsageBatchRequest → TelemetryUsageBatchRequest
trimmed_batch req = record req {
  gateway_id = trim_space req.gateway_id;
  gateway_pubkey = trim_space req.gateway_pubkey;
  batch_id = trim_space req.batch_id;
  sent_at = trim_space req.sent_at;
  signature = trim_space req.signature;
}

module _ (x : Signing) where
  -- The first of the three encodings that gives the right number of bytes.
  abbrev pub decode_sized : ℕ → String → Option Bytes
  decode_sized size s =
      first_of (of_size size (x.raw_url_base64 s))
        (first_of (of_size size (x.std_base64 s)) (of_size size (x.hexadecimal s)))

  unfoldable pub decode_telemetry_public_key : String → Result Bytes
  decode_telemetry_public_key given =
      let s = trim_space given in
      if s == ""
      then err "empty gateway_pubkey"
      else or_error "gateway_pubkey must decode to ed25519 32-byte key" (decode_sized 32 s)

  unfoldable pub decode_telemetry_signature : String → Result Bytes
  decode_telemetry_signature given =
      let s = trim_space given in
      if s == ""
      then err "empty signature"
      else or_error "signature must decode to ed25519 64-byte signature" (decode_sized 64 s)

  unfoldable pub canonical_telemetry_message : TelemetryUsageBatchRequest → Result Bytes
  canonical_telemetry_message req =
      elim (x.marshal (record {
        gateway_id = req.gateway_id;
        gateway_pubkey = req.gateway_pubkey;
        batch_id = req.batch_id;
        sent_at = req.sent_at;
        events = req.events;
      })) [ ok raw ↦ ok raw | err e ↦ err (str_append "marshal payload: " e) ]

  -- The error, if the signature does not verify.
  unfoldable pub verify_telemetry_signature : TelemetryUsageBatchRequest → Option String
  verify_telemetry_signature req = elim (decode_telemetry_public_key req.gateway_pubkey) [
    | err e ↦ some e
    | ok pub_key ↦ elim (decode_telemetry_signature req.signature) [
      | err e ↦ some e
      | ok sig ↦ elim (canonical_telemetry_message req) [
        | err e ↦ some e
        | ok msg ↦ if not (x.ed25519_verify pub_key msg sig) then some "invalid signature" else none
      ]
    ]
  ]

unfoldable pub batch_contains_official_event : List UsageEvent → Bool
batch_contains_official_event events =
    any (λ ev. equal_fold (trim_space ev.gateway_type) "official") events

-- An event as the gateway passes it on.
abbrev pub attributed : String → ℤ → UsageEvent → UsageEvent
attributed gateway_id now e = record e {
  gateway_id = gateway_id;
  gateway_type = or_default "community" e.gateway_type;
  created_at = some (time_or now e.created_at);
}

abbrev pub batch_answer : TelemetryUsageBatchRequest → ℕ → Bool → Answer
batch_answer req inserted duplicate = write_json 200 (
    ("ok", flag true)
    ∷ ("gateway_id", text req.gateway_id)
    ∷ ("batch_id", text req.batch_id)
    ∷ ("received", number (length req.events))
    ∷ ("inserted_rows", number inserted)
    ∷ ("duplicate", flag duplicate)
    ∷ [])

abbrev pub outside_window : ℤ → ℤ → Bool
outside_window now sent_at =
    ltb_ℤ telemetry_max_skew (now -ℤ sent_at) || ltb_ℤ telemetry_max_skew (sent_at -ℤ now)

module _ {S : Type 0} (x : Signing) (now : ℤ) (p : Proxy S) where
  -- What a request is turned away with before the store is asked.
  abbrev pub batch_error : Headers → TelemetryUsageBatchRequest → Option Answer
  batch_error headers req =
      if req.gateway_id == ""
        || req.gateway_pubkey == ""
        || req.batch_id == ""
        || req.sent_at == ""
        || req.signature == ""
      then some (
          write_error 400
            "gateway_id, gateway_pubkey, batch_id, sent_at, and signature are required")
      else if length req.events == 0
      then some (write_error 400 "events must not be empty")
      else elim (x.parse_rfc3339 req.sent_at) [
        | none ↦ some (write_error 400 "sent_at must be RFC3339 timestamp")
        | some sent_at ↦
            if outside_window now sent_at
            then some (write_error 401 "telemetry sent_at outside allowed time window")
            else elim (verify_telemetry_signature x req) [
              | some e ↦
                  some (write_error 401 (str_append "telemetry signature verification failed: " e))
              | none ↦
                  if batch_contains_official_event req.events
                    && not (is_authorized_official_control p headers)
                  then some (write_error 401 "official gateway telemetry requires control token")
                  else none
            ]
      ]

  -- The batch's id is recorded first, its events after it.
  abbrev pub persist_batch : ControlStore S → TelemetryUsageBatchRequest → S → S × Answer
  persist_batch store req s =
      stored "telemetry batch idempotency check failed"
        (λ new s'.
          if not new
          then (s', batch_answer req 0 true)
          else stored "telemetry usage persist failed"
              (λ inserted s''. (s'', batch_answer req inserted false))
              (store.insert_usage_events (map (attributed req.gateway_id now) req.events) s'))
        (store.record_telemetry_batch req.gateway_id req.batch_id req.signature (length req.events)
          s)

  abbrev pub accept_batch : ControlStore S → Headers → TelemetryUsageBatchRequest → S → S × Answer
  accept_batch store headers given s =
      let req = trimmed_batch given in
      elim (batch_error headers req) [
        | some answer ↦ (s, answer)
        | none ↦ persist_batch store req s
      ]

  unfoldable pub handle_telemetry_usage :
      Headers → Result TelemetryUsageBatchRequest → S → S × Answer
  handle_telemetry_usage headers body =
      require_control_store p λ store. with_body body (accept_batch store headers)

-- ===== src/Gateway/Control.antt =====
-- The control API of pkg/gateway/control_api.go: the handlers for providers, balances and listings, and
-- what all handlers share. A handler takes the store's state to the new state and the answer. `body`
-- is what `decodeJSONBody` gives for the request's body.
pub mod Keys
pub mod Telemetry
pub mod Topup
pub mod Guarded
pub mod Rotation
mod Tests
use ai_peer.Base.{
  String, Bool, true, false, ℤ, pos, leb_ℤ, ltb_ℤ, Option, none, some, List, [], ◌∷◌, if◌then◌else◌,
  ◌==◌, string_eq, not, ◌&&◌, ◌||◌, trim_space, str_append, parse_int,
}
use ai_peer.Dataplane.Tables.{Result, ok, err}
use ai_peer.Gateway.Records.{
  ProviderRegisterRequest, ProviderHeartbeatRequest, ProviderWalletRotateRequest, UsageEvent,
  UsageListFilter, ApiKeyPrincipal,
}
use ai_peer.Gateway.Proxy.{Proxy, ControlStore, Refusal}
use ai_peer.Gateway.Auth.{
  Headers, Access, admitted, refused, require_strict_api_key, is_authorized_official_control,
  extract_api_key,
}
use ai_peer.Gateway.Answers.{
  Answer, Body, Field, text, flag, amount, events, write_json, write_error,
}

-- `decodeJSONBody`: `decode` is the JSON decoder on at most 4 MiB of the body.
abbrev pub decode_json_body : {A : Type 0} → (String → Result A) → String → Result A
decode_json_body decode raw = elim (decode raw) [
  | ok request ↦ ok request
  | err e ↦ err (str_append "invalid json body: " e)
]

abbrev pub or_default : String → String → String
or_default default given = if given == "" then default else given

abbrev pub Handler : Type 0 → Type 0
Handler S = S → S × Answer

module _ {S : Type 0} where
  -- `requireControlStore`.
  abbrev pub require_control_store : Proxy S → (ControlStore S → Handler S) → Handler S
  require_control_store p next s = elim p.control_store [
    | none ↦ (s, write_error 503 "control store not configured")
    | some store ↦ next store s
  ]

  abbrev pub with_body : {A : Type 0} → Result A → (A → Handler S) → Handler S
  with_body (ok request) next s = next request s
  with_body (err e) next s = (s, write_error 400 e)

  abbrev pub with_token : Proxy S → Headers → Handler S → Handler S
  with_token p headers next s =
      if not (is_authorized_official_control p headers)
      then (s, write_error 401 "official control token required")
      else next s

  -- Goes on with what the store gave, or reports the error.
  abbrev pub stored : {A : Type 0} → String → (A → Handler S) → S × Result A → S × Answer
  stored message next (s, ok a) = next a s
  stored message next (s, err e) = (s, write_error 500 message)

  -- The same for a call that only reads.
  abbrev pub read : {A : Type 0} → String → (A → Handler S) → Result A → Handler S
  read message next (ok a) s = next a s
  read message next (err e) s = (s, write_error 500 message)

  abbrev pub ok_provider : String → Unit {0} → Handler S
  ok_provider id _ s = (s, write_json 200 (("ok", flag true) ∷ ("provider_id", text id) ∷ []))

abbrev pub trimmed_register : ProviderRegisterRequest → ProviderRegisterRequest
trimmed_register req = record req {
  provider_id = trim_space req.provider_id;
  peer_id = trim_space req.peer_id;
  status = or_default "active" (trim_space req.status);
  wallet_address = trim_space req.wallet_address;
}

abbrev pub trimmed_heartbeat : ProviderHeartbeatRequest → ProviderHeartbeatRequest
trimmed_heartbeat req = record {
  provider_id = trim_space req.provider_id;
  peer_id = trim_space req.peer_id;
  status = or_default "active" (trim_space req.status);
}

abbrev pub trimmed_rotate : ProviderWalletRotateRequest → ProviderWalletRotateRequest
trimmed_rotate req = record {
  provider_id = trim_space req.provider_id;
  new_wallet = trim_space req.new_wallet;
  rotation_proof = trim_space req.rotation_proof;
  requested_by_peer = trim_space req.requested_by_peer;
}

module _ {S : Type 0} (p : Proxy S) where
  abbrev pub register : ControlStore S → ProviderRegisterRequest → S → S × Answer
  register store given s =
      let req = trimmed_register given in
      if req.provider_id == "" || req.peer_id == ""
      then (s, write_error 400 "provider_id and peer_id are required")
      else stored "provider register failed" (ok_provider req.provider_id)
          (store.upsert_provider req s)

  unfoldable pub handle_provider_register : Result ProviderRegisterRequest → S → S × Answer
  handle_provider_register body = require_control_store p λ store. with_body body (register store)

  abbrev pub heartbeat : ControlStore S → ProviderHeartbeatRequest → S → S × Answer
  heartbeat store given s =
      let req = trimmed_heartbeat given in
      if req.provider_id == "" || req.peer_id == ""
      then (s, write_error 400 "provider_id and peer_id are required")
      else stored "provider heartbeat failed" (ok_provider req.provider_id)
          (store.heartbeat_provider req s)

  unfoldable pub handle_provider_heartbeat : Result ProviderHeartbeatRequest → S → S × Answer
  handle_provider_heartbeat body = require_control_store p λ store. with_body body (heartbeat store)

  abbrev pub rotate_wallet : ControlStore S → ProviderWalletRotateRequest → S → S × Answer
  rotate_wallet store given s =
      let req = trimmed_rotate given in
      if req.provider_id == "" || req.new_wallet == "" || req.rotation_proof == ""
      then (s, write_error 400 "provider_id, new_wallet, and rotation_proof are required")
      else stored "wallet rotation failed"
          (λ _ s'. (
            s',
            write_json 200 (
                ("ok", flag true)
                ∷ ("provider_id", text req.provider_id)
                ∷ ("wallet", text req.new_wallet)
                ∷ []),
          ))
          (store.rotate_provider_wallet req s)

  unfoldable pub handle_provider_wallet_rotate : Result ProviderWalletRotateRequest → S → S × Answer
  handle_provider_wallet_rotate body =
      require_control_store p λ store. with_body body (rotate_wallet store)

-- The number of events that the query asks for: a hundred by default, a thousand at most.
unfoldable pub query_limit : String → Option ℤ
query_limit given =
    let v = trim_space given in
    if v == "" then some (pos 100) else elim (parse_int v) [
      | none ↦ none
      | some n ↦
          if leb_ℤ n (pos 0) then none else if ltb_ℤ (pos 1000) n then some (pos 1000) else some n
    ]

-- The query of the usage endpoint.
pub record UsageQuery : Type 0 where
  pub limit : String
  pub consumer_id : String
  pub provider_id : String

abbrev pub query_filter : UsageQuery → ℤ → UsageListFilter
query_filter query limit = record {
  consumer_id = trim_space query.consumer_id;
  provider_id = trim_space query.provider_id;
  limit = limit;
}

module _ {S : Type 0} (p : Proxy S) where
  unfoldable pub handle_usage_list : UsageQuery → S → S × Answer
  handle_usage_list query = require_control_store p λ store s. elim (query_limit query.limit) [
    | none ↦ (s, write_error 400 "limit must be a positive integer")
    | some limit ↦
        read "usage query failed"
          (λ found s'. (s', write_json 200 (("object", text "list") ∷ ("data", events found) ∷ [])))
          (store.list_usage_events (query_filter query limit) s) s
  ]

  -- What a strict key lets do, with the principal.
  abbrev pub with_principal :
      (String → String) → Headers → (ApiKeyPrincipal → S → S × Answer) → S → S × Answer
  with_principal hash headers next s = elim (require_strict_api_key hash p headers s) [
    | refused r ↦ (s, write_error r.status r.message)
    | admitted none ↦ (s, write_error 401 "invalid api key")
    | admitted (some principal) ↦ next principal s
  ]

  unfoldable pub handle_prepaid_balance : (String → String) → Headers → S → S × Answer
  handle_prepaid_balance hash headers = require_control_store p λ store.
      with_principal hash headers λ principal s.
        read "failed to read prepaid balance"
          (λ balance s'. (
            s',
            write_json 200 (
                ("ok", flag true)
                ∷ ("consumer_id", text principal.consumer_id)
                ∷ ("consumer_type", text principal.consumer_type)
                ∷ ("wallet", text principal.wallet_address)
                ∷ ("balance_usdc", amount balance)
                ∷ []),
          ))
          (store.current_consumer_balance principal.consumer_id s) s

-- ===== src/Gateway/Auth.antt =====
-- API keys and the control token: `enforceAPIKeyAuth` and `extractAPIKey` of
-- pkg/gateway/openai_proxy.go, `requireStrictAPIKey` and `isAuthorizedOfficialControl` of
-- pkg/gateway/control_api.go. `hash` is the SHA-256 of a key in hexadecimal.
pub mod Admission
-- The headers that are read.
use ai_peer.Dataplane.Tables.{err, ok, Result}
use ai_peer.Gateway.Proxy.{Proxy, ControlStore, Refusal}
use ai_peer.Gateway.Records.{ApiKeyPrincipal}
use ai_peer.Base.{
  Option, String, ℕ, strip_prefix, trim_space, some, if◌then◌else◌, none, to_lower, Bool, ◌==◌,
  drop_chars, string_eq, ◌||◌, false,
}

pub record Headers : Type 0 where
  pub api_key : String
  pub authorization : String
  pub control_token : String

-- What follows `bearer ` in a header that starts so, in any case of the letters.
unfoldable pub after_bearer : String → Option String
after_bearer header = elim (strip_prefix "bearer " (to_lower header)) [
  | none ↦ none
  | some rest ↦ some (trim_space (drop_chars 7 header))
]

abbrev pub or_text : String → Option String → String
or_text default none = default
or_text default (some text) = text

unfoldable pub extract_api_key : Headers → String
extract_api_key headers =
    let key = trim_space headers.api_key in
    if key == "" then or_text "" (after_bearer (trim_space headers.authorization)) else key

-- The caller may go on, as a principal or as nobody; or the request is refused.
pub data Access : Type 0 where
  admitted : Option ApiKeyPrincipal → Access
  refused : Refusal → Access

abbrev pub refuse : ℕ → String → Access
refuse status message = refused (record { status = status; message = message })

-- The token that the caller sent.
abbrev pub received_token : Headers → String
received_token headers =
    let own = trim_space headers.control_token in
    let sent = or_text own (after_bearer own) in
    if sent == "" then or_text "" (after_bearer (trim_space headers.authorization)) else sent

module _ {S : Type 0} where
  abbrev pub auth_off : Proxy S → Bool
  auth_off p = let mode = trim_space (to_lower p.auth_mode) in mode == "" || mode == "off"

  unfoldable pub is_authorized_official_control : Proxy S → Headers → Bool
  is_authorized_official_control p headers =
      let token = trim_space p.control_api_token in
      let received = received_token headers in
      if token == "" then false else if received == "" then false else received == token

-- What the store's answer means for the request.
abbrev pub verdict : Result (Option ApiKeyPrincipal) → Access
verdict (err e) = refuse 500 "api key validation failed"
verdict (ok none) = refuse 401 "invalid api key"
verdict (ok (some principal)) = admitted (some principal)

module _ {S : Type 0} (hash : String → String) where
  unfoldable pub validate_key : ControlStore S → String → S → Access
  validate_key store key s = verdict (store.lookup_active_api_key (hash key) s)

  unfoldable pub enforce_api_key_auth : Proxy S → Headers → S → Access
  unfolding validate_key
  enforce_api_key_auth p headers s =
      let mode = trim_space (to_lower p.auth_mode) in
      let key = extract_api_key headers in
      if auth_off p
      then admitted none
      else if key == ""
      then if mode == "required" then refuse 401 "api key required" else admitted none
      else elim p.control_store [
        | none ↦ refuse 503 "api key validation unavailable"
        | some store ↦ validate_key store key s
      ]

  unfoldable pub require_strict_api_key : Proxy S → Headers → S → Access
  unfolding validate_key
  require_strict_api_key p headers s =
      let key = extract_api_key headers in
      elim p.control_store [
        | none ↦ refuse 503 "api key validation unavailable"
        | some store ↦
            if trim_space key == "" then refuse 401 "api key required" else validate_key store key s
      ]

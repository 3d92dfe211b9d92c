-- ===== src/Gateway/Control/Keys.antt =====
-- The API key and deposit handlers of pkg/gateway/control_api.go. `fresh` is what `generateAPIKey`
-- draws, if the random source works, and `hash` is SHA-256 in hexadecimal.
use ai_peer.Base.{
  String, Bool, true, Option, none, some, [], ◌∷◌, if◌then◌else◌, ◌==◌, string_eq, not, ◌&&◌, ◌||◌,
  trim_space, str_append,
}
use ai_peer.Dataplane.Tables.{Result}
use ai_peer.Gateway.Records.{ApiKeyPrincipal}
use ai_peer.Gateway.Proxy.{Proxy, ControlStore}
use ai_peer.Gateway.Auth.{Headers, extract_api_key}
use ai_peer.Dataplane.Tables.{Amount}
use ai_peer.Gateway.Answers.{float_amount, Answer, text, flag, write_json, write_error}
use ai_peer.Gateway.Control.{
  require_control_store, with_body, with_token, stored, with_principal, or_default,
}

pub record CreateKey : Type 0 where
  pub consumer_id : String
  pub wallet_address : String
  pub consumer_type : String

pub record RevokeKey : Type 0 where
  pub consumer_id : String
  pub api_key : String
  pub api_key_hash : String
  pub reason : String

pub record RotateKey : Type 0 where
  pub consumer_id : String
  pub old_api_key : String
  pub old_api_key_hash : String
  pub wallet_address : String
  pub consumer_type : String

pub record Deposit : Type 0 where
  pub consumer_id : String
  pub amount_usdc : Amount
  pub reference : String
  pub tx_hash : String

-- `consumerIDFromWallet` is in Topup. The kinds that the handlers take.
abbrev pub is_kind : String → Bool
is_kind consumer_type = consumer_type == "prepaid" || consumer_type == "x402"

-- The hash that is given, or that of the key that is given.
abbrev pub hash_or : (String → String) → String → String → String
hash_or hash key given = if given == "" && not (key == "") then hash key else given

module _ {S : Type 0} (hash : String → String) (fresh : Option String) (p : Proxy S) where
  -- A key is drawn and stored; `next` answers with it.
  abbrev pub issue_key :
      ControlStore S
      → String
      → String
      → String
      → String
      → String
      → (String → Answer)
      → S
      → S × Answer
  issue_key store consumer wallet kind no_key no_store next s = elim fresh [
    | none ↦ (s, write_error 500 no_key)
    | some key ↦
        stored no_store (λ _ s'. (s', next key))
          (store.upsert_consumer_api_key consumer wallet kind (hash key) s)
  ]

  abbrev pub create_key : ControlStore S → CreateKey → S → S × Answer
  create_key store req s =
      let consumer = trim_space req.consumer_id in
      let kind = or_default "prepaid" (trim_space req.consumer_type) in
      if consumer == ""
      then (s, write_error 400 "consumer_id is required")
      else if not (is_kind kind)
      then (s, write_error 400 "consumer_type must be prepaid or x402")
      else issue_key store consumer (trim_space req.wallet_address) kind
          "failed to generate api key" "failed to persist api key"
          (λ key.
            write_json 200
              (("ok", flag true) ∷ ("consumer_id", text consumer) ∷ ("api_key", text key) ∷ []))
          s

  unfoldable pub handle_api_keys_create : Headers → Result CreateKey → S → S × Answer
  handle_api_keys_create headers body =
      with_token p headers (require_control_store p λ store. with_body body (create_key store))

  abbrev pub revoke_key : ControlStore S → RevokeKey → S → S × Answer
  revoke_key store req s =
      let consumer = trim_space req.consumer_id in
      let h = hash_or hash (trim_space req.api_key) (trim_space req.api_key_hash) in
      if consumer == ""
      then (s, write_error 400 "consumer_id is required")
      else if h == ""
      then (s, write_error 400 "api_key or api_key_hash is required")
      else stored "failed to revoke api key"
          (λ revoked s'. if not revoked then (s', write_error 404 "active api key not found") else (
            s',
            write_json 200 (
                ("ok", flag true)
                ∷ ("consumer_id", text consumer)
                ∷ ("api_key_hash", text h)
                ∷ ("revoked", flag true)
                ∷ []),
          ))
          (store.revoke_consumer_api_key consumer h (trim_space req.reason) s)

  unfoldable pub handle_api_keys_revoke : Headers → Result RevokeKey → S → S × Answer
  handle_api_keys_revoke headers body =
      with_token p headers (require_control_store p λ store. with_body body (revoke_key store))

  -- The old key is revoked in one transaction, the new one stored in another.
  abbrev pub rotate_key : ControlStore S → RotateKey → S → S × Answer
  rotate_key store req s =
      let consumer = trim_space req.consumer_id in
      let kind = or_default "prepaid" (trim_space req.consumer_type) in
      let old = hash_or hash (trim_space req.old_api_key) (trim_space req.old_api_key_hash) in
      if consumer == ""
      then (s, write_error 400 "consumer_id is required")
      else if not (is_kind kind)
      then (s, write_error 400 "consumer_type must be prepaid or x402")
      else if old == ""
      then (s, write_error 400 "old_api_key or old_api_key_hash is required")
      else stored "failed to revoke old api key"
          (λ revoked s'.
            if not revoked
            then (s', write_error 404 "active old api key not found")
            else issue_key store consumer (trim_space req.wallet_address) kind
                "failed to generate new api key" "failed to persist new api key"
                (λ key. write_json 200 (
                  ("ok", flag true)
                  ∷ ("consumer_id", text consumer)
                  ∷ ("old_api_key_hash", text old)
                  ∷ ("new_api_key", text key)
                  ∷ []))
                s')
          (store.revoke_consumer_api_key consumer old "rotated" s)

  unfoldable pub handle_api_keys_rotate : Headers → Result RotateKey → S → S × Answer
  handle_api_keys_rotate headers body =
      with_token p headers (require_control_store p λ store. with_body body (rotate_key store))

  -- A consumer exchanges the key that it calls with.
  abbrev pub self_rotate : Headers → ControlStore S → ApiKeyPrincipal → S → S × Answer
  self_rotate headers store principal s =
      stored "failed to revoke api key"
        (λ revoked s'.
          if not revoked
          then (s', write_error 404 "active api key not found")
          else issue_key store principal.consumer_id principal.wallet_address
              principal.consumer_type "failed to generate api key" "failed to persist new api key"
              (λ key. write_json 200 (
                ("ok", flag true)
                ∷ ("consumer_id", text principal.consumer_id)
                ∷ ("new_api_key", text key)
                ∷ []))
              s')
        (store.revoke_consumer_api_key principal.consumer_id (hash (extract_api_key headers))
          "self-rotated" s)

  unfoldable pub handle_prepaid_rotate_api_key : Headers → S → S × Answer
  handle_prepaid_rotate_api_key headers =
      require_control_store p λ store. with_principal p hash headers (self_rotate headers store)

abbrev pub deposit_reference : Deposit → String
deposit_reference req =
    let reference = or_default "deposit" (trim_space req.reference) in
    let tx_hash = trim_space req.tx_hash in
    if tx_hash == "" then reference else str_append reference (str_append ":" tx_hash)

module _ {S : Type 0} (p : Proxy S) where
  abbrev pub confirm_deposit : ControlStore S → Deposit → S → S × Answer
  confirm_deposit store req s =
      let consumer = trim_space req.consumer_id in
      if consumer == ""
      then (s, write_error 400 "consumer_id is required")
      else if not req.amount_usdc.is_positive
      then (s, write_error 400 "amount_usdc must be > 0")
      else stored "failed to credit prepaid balance"
          (λ _ s'. (
            s',
            write_json 200 (
                ("ok", flag true)
                ∷ ("consumer_id", text consumer)
                ∷ ("amount_usdc", float_amount req.amount_usdc)
                ∷ ("reference", text (deposit_reference req))
                ∷ []),
          ))
          (store.credit_consumer_balance consumer req.amount_usdc (deposit_reference req) s)

  unfoldable pub handle_prepaid_deposit_confirm : Headers → Result Deposit → S → S × Answer
  handle_prepaid_deposit_confirm headers body =
      with_token p headers (require_control_store p λ store. with_body body (confirm_deposit store))

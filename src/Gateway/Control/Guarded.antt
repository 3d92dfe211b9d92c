-- ===== src/Gateway/Control/Guarded.antt =====
-- What the control API asks of its callers.
use ai_peer.Base.{trim_space, ◌⊎◌, inl, inr, Bool-cases, String, Option, ◌≡◌, false, refl}
use ai_peer.Dataplane.Tables.{Result}
use ai_peer.Gateway.Proxy.{Proxy}
use ai_peer.Gateway.Auth.{Headers, is_authorized_official_control}
use ai_peer.Gateway.Auth.Admission.{Sends, is_authorized_official_control_iff}
use ai_peer.Gateway.Answers.{write_error, Answer}
use ai_peer.Gateway.Control.Keys.{
  CreateKey, RevokeKey, RotateKey, Deposit, handle_api_keys_create, handle_api_keys_revoke,
  handle_api_keys_rotate, handle_prepaid_deposit_confirm,
}

abbrev unauthorized : Answer
unauthorized = write_error 401 "official control token required"

-- Where no control token is configured, or the caller sends another or none (neither in its own header
-- nor as a bearer token), creating, revoking and rotating keys and confirming deposits are refused with
-- 401 whatever the body is, and the store's state stays as it was.
pub needs_token :
    {S : Type 0} (hash : String → String) (fresh : Option String) (p : Proxy S) (headers : Headers)
    (create : Result CreateKey) (revoke : Result RevokeKey) (rotate : Result RotateKey)
    (deposit : Result Deposit) (s : S)
    → (trim_space p.control_api_token ≡ "") ⊎ ¬ Sends headers (trim_space p.control_api_token)
    → (handle_api_keys_create hash fresh p headers create s ≡ (s, unauthorized))
      × (handle_api_keys_revoke hash fresh p headers revoke s ≡ (s, unauthorized))
      × (handle_api_keys_rotate hash fresh p headers rotate s ≡ (s, unauthorized))
      × (handle_prepaid_deposit_confirm p headers deposit s ≡ (s, unauthorized))
unfolding handle_api_keys_create handle_api_keys_revoke handle_api_keys_rotate
    handle_prepaid_deposit_confirm
needs_token hash fresh p headers create revoke rotate deposit s h =
    let (opens, _) = is_authorized_official_control_iff p headers in
    let closed : is_authorized_official_control p headers ≡ false =
      elim (Bool-cases (is_authorized_official_control p headers)) [
        | inl e ↦ absurd (elim h [ inl none ↦ (opens e).0 none | inr other ↦ other (opens e).1 ])
        | inr e ↦ e
      ] in
    rw closed (refl, refl, refl, refl)

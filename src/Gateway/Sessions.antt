-- ===== src/Gateway/Sessions.antt =====
-- The prepaid sessions of pkg/gateway/openai_proxy.go: what is reserved before a chat request and
-- charged after it, in atomic units (the source's USDC floats are whole multiples of 10 ^ -6).
pub mod Coverage
pub mod Billing
use ai_peer.Dataplane.Prepaid.{ReserveResult}
use ai_peer.Dataplane.Tables.{Result, err, ok}
use ai_peer.Base.{
  Bool, String, Option, ℤ, equal_fold, if◌then◌else◌, ℕ, some, leb_ℤ, trim_space, not, none, pos,
  ltb_ℤ, true, add64,
}
use ai_peer.Gateway.Proxy.{Proxy, Refusal, ControlStore}
use ai_peer.Gateway.Records.{ApiKeyPrincipal}
use ai_peer.Gateway.Pricing.{
  TokenPricing, ceil_at, ChatRequest, estimate_input_tokens, raise_to, floor_at,
  apply_model_pricing_override, requested, resolve_token_pricing, price_of, at_least,
}

pub record PrepaidChargeSession : Type 0 where
  pub enabled : Bool
  pub consumer_id : String
  pub request_id : String
  pub reserved_usdc : ℤ

-- What `beginPrepaidReservation` returns: a session or none, or the answer it has written.
pub data Begin : Type 0 where
  proceed : Option PrepaidChargeSession → Begin
  stop : Refusal → Begin

-- Without the minimum of one unit that `computePaymentRequirement` has.
abbrev pub bounded : TokenPricing → ℤ → ℤ
bounded pricing amount =
    ceil_at pricing.max_amount_atomic (floor_at pricing.min_amount_atomic amount)

unfoldable pub total_charged : ℕ → ℤ → ℤ
total_charged input completion = at_least (pos 1) (add64 (pos input) (at_least (pos 0) completion))

unfoldable pub charge_atomic : TokenPricing → ℕ → ℤ → ℤ
charge_atomic pricing input completion =
    if leb_ℤ pricing.atomic_per_1k_tokens (pos 0)
    then pos 0
    else bounded pricing (price_of (total_charged input completion) pricing.atomic_per_1k_tokens)

unfoldable pub default_output : TokenPricing → Option ChatRequest → ℤ
default_output pricing req =
    let out = pricing.default_output_tokens in
    raise_to (requested req) (if leb_ℤ out (pos 0) then pos 256 else out)

abbrev pub is_prepaid : ApiKeyPrincipal → Bool
is_prepaid principal = equal_fold (trim_space principal.consumer_type) "prepaid"

-- The amount that the store is asked for: nothing for a failed request, at most the reservation.
abbrev pub asked : ℤ → ℤ → Bool → ℤ
asked reserved charge success =
    let actual = if not success then pos 0 else charge in
    if ltb_ℤ reserved actual then reserved else actual

module _ {S : Type 0} where
  unfoldable pub resolve_prepaid_token_pricing : Proxy S → Option ChatRequest → TokenPricing
  resolve_prepaid_token_pricing p req = elim p.prepaid_token_pricing [
    | some base ↦ apply_model_pricing_override base req p.prepaid_model_pricing
    | none ↦ resolve_token_pricing p.chat_paywall req
  ]

  unfoldable pub compute_prepaid_charge : Proxy S → Option ChatRequest → ℤ → ℤ
  compute_prepaid_charge p req completion =
      charge_atomic (resolve_prepaid_token_pricing p req) (estimate_input_tokens req) completion

  unfoldable pub default_prepaid_output_tokens : Proxy S → Option ChatRequest → ℤ
  default_prepaid_output_tokens p req = default_output (resolve_prepaid_token_pricing p req) req

  -- A thousand units, 0.001 USDC, where the request is free.
  unfoldable pub estimate_prepaid_reserve : Proxy S → Option ChatRequest → ℤ
  estimate_prepaid_reserve p req =
      let charge = compute_prepaid_charge p req (default_prepaid_output_tokens p req) in
      if leb_ℤ charge (pos 0) then pos 1000 else charge

  unfoldable pub begin_answer : String → ApiKeyPrincipal → S × Result ReserveResult → S × Begin
  begin_answer request_id principal (s, err e) =
      (s, stop (record { status = 500; message = "failed to reserve prepaid balance" }))
  begin_answer request_id principal (s, ok res) =
      if not res.approved
      then (s, stop (record { status = 402; message = "insufficient prepaid balance" }))
      else (
        s,
        proceed (
            some (record {
              enabled = true;
              consumer_id = principal.consumer_id;
              request_id = request_id;
              reserved_usdc = res.reserved_usdc;
            })),
      )

  unfoldable pub begin_for : Proxy S → String → ApiKeyPrincipal → Option ChatRequest → S → S × Begin
  unfolding begin_answer
  begin_for p request_id principal req s =
      if not (is_prepaid principal) then (s, proceed none) else elim p.control_store [
        | none ↦ (s, stop (record { status = 503; message = "prepaid billing unavailable" }))
        | some store ↦ begin_answer request_id principal (
            store.reserve_prepaid principal.consumer_id request_id (estimate_prepaid_reserve p req)
              s)
      ]

  unfoldable pub begin_prepaid_reservation :
      Proxy S → String → Option ApiKeyPrincipal → Option ChatRequest → S → S × Begin
  unfolding begin_for
  begin_prepaid_reservation p request_id none req s = (s, proceed none)
  begin_prepaid_reservation p request_id (some principal) req s =
      begin_for p request_id principal req s

  unfoldable pub finalize_with :
      Proxy S → ControlStore S → PrepaidChargeSession → Option ChatRequest → ℤ → Bool → S → S
  finalize_with p store session req completion success s =
      (store.finalize_prepaid session.consumer_id session.request_id
        (asked session.reserved_usdc (compute_prepaid_charge p req completion) success) success s).0

  -- A failure of the store is only logged.
  unfoldable pub finalize_prepaid_reservation :
      Proxy S → Option PrepaidChargeSession → Option ChatRequest → ℤ → Bool → S → S
  unfolding finalize_with
  finalize_prepaid_reservation p none req completion success s = s
  finalize_prepaid_reservation p (some session) req completion success s =
      if not session.enabled then s else elim p.control_store [
        | none ↦ s
        | some store ↦ finalize_with p store session req completion success s
      ]

-- ===== src/Gateway/Control/Topup.antt =====
-- The prepaid top-up of pkg/gateway/control_api.go: a payment by x402 that credits the payer's account
-- and gives it an API key if it has none.
use ai_peer.Base.{
  String, Bool, true, false, pos, leb_ℤ, Option, none, some, Map, [], ◌∷◌, if◌then◌else◌, ◌==◌,
  string_eq, not, trim_space, to_lower, str_append, format_int,
}
use ai_peer.X402.{
  PaymentRequirements, PaymentRequired, PaymentPayload, SettlementResponse, no_settlement,
}
use ai_peer.Dataplane.Tables.{Amount, Balance, Result, ok, err}
use ai_peer.Gateway.Pricing.{PaywallConfig}
use ai_peer.Gateway.Proxy.{Proxy, ControlStore}
use ai_peer.Gateway.Answers.{
  Answer, Field, text, flag, float_amount, balance, write_json, write_error,
}
use ai_peer.Gateway.Paywall.{
  Facilitator, HttpRequest, Payment, accepted, demanded, Demand, request_url,
  validate_accepted_payment, settle_with_facilitator, write_payment_required, with_error,
  local_settlement,
}
use ai_peer.Gateway.Control.{stored, read}

unfoldable pub consumer_id_from_wallet : String → String
consumer_id_from_wallet wallet = str_append "wallet:" (to_lower (trim_space wallet))

-- The amount in units of 10 ^ -6 USDC, as text.
unfoldable pub usdc_amount_to_atomic_string : Amount → Result String
usdc_amount_to_atomic_string amount_usdc =
    if not amount_usdc.is_positive
    then err "amount_usdc must be > 0"
    else let atomic = amount_usdc.atomic in
      if leb_ℤ atomic (pos 0) then err "amount_usdc too small" else ok (format_int atomic)

-- An answer with its PAYMENT-RESPONSE header, or a demand for payment.
pub data Reply : Type 0 where
  answered : Answer → Option String → Reply
  charged : Demand → Reply

abbrev pub topup_failure : String → String
topup_failure reason =
    let cause = trim_space reason in if cause == "" then "payment settlement failed" else cause

module _ (x : Facilitator) where
  abbrev pub topup_settled : PaymentRequired → Result SettlementResponse → Payment
  topup_settled pr (err e) =
      demanded (
        write_payment_required x (with_error pr (str_append "facilitator error: " e)) no_settlement)
  topup_settled pr (ok settle) =
      if not settle.success
      then demanded
          (write_payment_required x (with_error pr (topup_failure settle.error_reason)) settle)
      else accepted (x.encode_settlement settle)

  -- The payment is for the amount, and collected where there is a facilitator.
  abbrev pub collect_topup :
      String → PaymentRequirements → PaymentRequired → PaymentPayload → Payment
  collect_topup facilitator_url requirement pr payload =
      elim (validate_accepted_payment payload.accepted requirement) [
        | some mismatch ↦ demanded (write_payment_required x (with_error pr mismatch) no_settlement)
        | none ↦
            if not (trim_space facilitator_url == "")
            then topup_settled pr (settle_with_facilitator x facilitator_url payload requirement)
            else accepted (x.encode_settlement (local_settlement "x402-topup-local" payload))
      ]

abbrev pub topup_demand : PaymentRequirements → HttpRequest → PaymentRequired
topup_demand requirement r = record {
  x402_version = pos 2;
  error = "PAYMENT-SIGNATURE header is required";
  resource = record {
    url = request_url r;
    description = "prepaid topup request";
    mime_type = "application/json";
  };
  accepts = requirement ∷ [];
  extensions = ("intent", "prepaid_topup") ∷ [];
}

abbrev pub key_fields : Option String → Map Field
key_fields none = ("api_key_created", flag false) ∷ []
key_fields (some key) = ("api_key", text key) ∷ ("api_key_created", flag true) ∷ []

-- What the account is credited with, and on what grounds.
pub record Credit : Type 0 where
  pub wallet : String
  pub fingerprint : String
  pub amount_usdc : Amount

abbrev pub topup_answer : Credit → Bool → Balance → Option String → Answer
topup_answer credit inserted total key = write_json 200 (
    ("ok", flag true)
    ∷ ("consumer_id", text (consumer_id_from_wallet credit.wallet))
    ∷ ("wallet", text credit.wallet)
    ∷ ("amount_usdc", float_amount credit.amount_usdc)
    ∷ ("balance_usdc", balance total)
    ∷ ("payment_ref", text credit.fingerprint)
    ∷ ("idempotent", flag (not inserted))
    ∷ key_fields key)

abbrev pub with_reply_header : {S : Type 0} → Option String → S × Answer → S × Reply
with_reply_header header (s, answer) = (s, answered answer header)

module _ {S : Type 0} (hash : String → String) (fresh : Option String) where
  -- A consumer without a key gets one.
  abbrev pub give_key : ControlStore S → Credit → Bool → Balance → String → S → S × Answer
  give_key store credit inserted total existing s =
      if not (trim_space existing == "")
      then (s, topup_answer credit inserted total none)
      else elim fresh [
        | none ↦ (s, write_error 500 "failed to generate api key")
        | some key ↦
            stored "failed to persist api key"
              (λ _ s'. (s', topup_answer credit inserted total (some key)))
              (store.upsert_consumer_api_key (consumer_id_from_wallet credit.wallet) credit.wallet
                "prepaid" (hash key) s)
      ]

  unfoldable pub credit_topup : ControlStore S → Credit → S → S × Answer
  credit_topup store credit s =
      let consumer = consumer_id_from_wallet credit.wallet in
      stored "failed to record prepaid topup"
        (λ recorded s'.
          read "failed to read consumer api key state" (give_key store credit recorded.0 recorded.1)
            (store.lookup_consumer_api_key_hash consumer s') s')
        (store.record_x402_prepaid_topup consumer credit.fingerprint credit.amount_usdc s)

module _ {S : Type 0} (x : Facilitator) (hash : String → String) (fresh : Option String)
    (p : Proxy S) where
  abbrev pub topup_paid :
      ControlStore S → Amount → String → PaymentPayload → Payment → S → S × Reply
  topup_paid store amount_usdc header payload (demanded demand) s = (s, charged demand)
  topup_paid store amount_usdc header payload (accepted response) s = with_reply_header response (
      credit_topup hash fresh store
        (record {
          wallet = payload.payload.authorization.from;
          fingerprint = hash header;
          amount_usdc = amount_usdc;
        })
        s)

  abbrev pub topup_decoded :
      ControlStore S
      → Amount
      → String
      → PaymentRequirements
      → PaymentRequired
      → String
      → Option PaymentPayload
      → S
      → S × Reply
  topup_decoded store amount_usdc url requirement pr header none s = (
    s,
    charged
        (write_payment_required x (with_error pr "invalid PAYMENT-SIGNATURE header") no_settlement),
  )
  topup_decoded store amount_usdc url requirement pr header (some payload) s =
      topup_paid store amount_usdc header payload (collect_topup x url requirement pr payload) s

  abbrev pub topup_priced :
      ControlStore S → HttpRequest → Amount → PaywallConfig → Result String → S → S × Reply
  topup_priced store r amount_usdc paywall (err e) s = (s, answered (write_error 400 e) none)
  topup_priced store r amount_usdc paywall (ok atomic) s =
      let requirement : PaymentRequirements = record paywall.requirement { amount = atomic } in
      let pr = topup_demand requirement r in
      let header = trim_space r.payment_signature in
      if header == ""
      then (s, charged (write_payment_required x pr no_settlement))
      else topup_decoded store amount_usdc paywall.facilitator_url requirement pr header
          (x.decode_payload header) s

  abbrev pub topup : ControlStore S → HttpRequest → Amount → S → S × Reply
  topup store r amount_usdc s =
      if not amount_usdc.is_positive
      then (s, answered (write_error 400 "amount_usdc must be > 0") none)
      else elim p.prepaid_topup_paywall [
        | none ↦ (s, answered (write_error 503 "x402 topup unavailable") none)
        | some paywall ↦
            topup_priced store r amount_usdc paywall (usdc_amount_to_atomic_string amount_usdc) s
      ]

  -- The body is the amount.
  unfoldable pub handle_prepaid_topup : HttpRequest → Result Amount → S → S × Reply
  handle_prepaid_topup r body s = elim p.control_store [
    | none ↦ (s, answered (write_error 503 "control store not configured") none)
    | some store ↦ elim body [
      | err e ↦ (s, answered (write_error 400 e) none)
      | ok amount_usdc ↦ topup store r amount_usdc s
    ]
  ]

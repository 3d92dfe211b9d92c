-- ===== src/Gateway/Paywall.antt =====
-- The x402 paywall of pkg/gateway/x402_paywall.go. The base64 JSON headers and the facilitator's two
-- endpoints are parameters; log lines and durations are left out.
pub mod Admitted
use ai_peer.Base.{
  String, Bool, true, false, ℤ, pos, Option, none, some, List, [], ◌∷◌, if◌then◌else◌, ◌==◌,
  string_eq, not, ◌&&◌, ◌||◌, trim_space, str_append,
}
use ai_peer.X402.{
  PaymentRequirements, PaymentRequired, PaymentPayload, SettlementResponse, no_settlement,
}
use ai_peer.Dataplane.Tables.{Result, ok, err}
use ai_peer.Gateway.Pricing.{PaywallConfig, ChatRequest, compute_payment_requirement}
use ai_peer.Gateway.Proxy.{Proxy}
use ai_peer.Gateway.Answers.{Answer, payment_required, plain}
use Prim.Native.String
use Prim.Native.Char.{code}

pub record VerifyRequest : Type 0 where
  pub x402_version : ℤ
  pub payment_payload : PaymentPayload
  pub payment_requirements : PaymentRequirements

pub record VerifyResponse : Type 0 where
  pub is_valid : Bool
  pub invalid_reason : String
  pub payer : String

-- `DecodeBase64JSON`, `EncodeBase64JSON` at its two types, and `postJSON` to /verify and /settle, with
-- the URL and what the facilitator answers.
pub record Facilitator : Type 0 where
  pub decode_payload : String → Option PaymentPayload
  pub encode_required : PaymentRequired → Option String
  pub encode_settlement : SettlementResponse → Option String
  pub post_verify : String → VerifyRequest → Result VerifyResponse
  pub post_settle : String → VerifyRequest → Result SettlementResponse

pub record HttpRequest : Type 0 where
  pub tls : Bool
  pub host : String
  pub path : String
  pub payment_signature : String

unfoldable pub request_url : HttpRequest → String
request_url r =
    let scheme = if r.tls then "https" else "http" in
    str_append scheme (str_append "://" (str_append r.host r.path))

-- `strings.TrimRight(url, "/")`.
unfoldable pub trim_slashes : String → String
trim_slashes String.[] = ""
trim_slashes (String.◌∷◌ c s) =
    let rest = trim_slashes s in
    if String.◌∷◌ c "" == "/" && rest == "" then "" else String.◌∷◌ c rest

unfoldable pub validate_accepted_payment : PaymentRequirements → PaymentRequirements → Option String
validate_accepted_payment got want =
    if not (got.scheme == want.scheme)
      || not (got.network == want.network)
      || not (got.amount == want.amount)
      || not (got.asset == want.asset)
      || not (got.pay_to == want.pay_to)
    then some "PAYMENT-SIGNATURE accepted requirement mismatch"
    else none

-- The headers and the body of a 402 answer; the PAYMENT-RESPONSE header goes with a settlement that
-- has something to say.
pub record Demand : Type 0 where
  pub answer : Answer
  pub required_header : Option String
  pub response_header : Option String

abbrev pub has_news : SettlementResponse → Bool
has_news settle =
    not (settle.network == "") || not (settle.transaction == "") || not (settle.error_reason == "")

module _ (x : Facilitator) where
  unfoldable pub write_payment_required : PaymentRequired → SettlementResponse → Demand
  write_payment_required pr settle = elim (x.encode_required pr) [
    | none ↦ record {
      answer = record { status = 500; body = plain "failed to encode PAYMENT-REQUIRED" };
      required_header = none;
      response_header = none;
    }
    | some header ↦ record {
      answer = record { status = 402; body = payment_required pr };
      required_header = some header;
      response_header = if has_news settle then x.encode_settlement settle else none;
    }
  ]

  -- The facilitator calls a payment invalid.
  abbrev pub invalid_payment : PaymentRequirements → VerifyResponse → SettlementResponse
  invalid_payment req verified = record no_settlement {
    error_reason = verified.invalid_reason;
    payer = verified.payer;
    network = req.network;
  }

  abbrev pub settle_verified :
      String → VerifyRequest → Result VerifyResponse → Result SettlementResponse
  settle_verified url body (err e) = err e
  settle_verified url body (ok verified) =
      if not verified.is_valid
      then ok (invalid_payment body.payment_requirements verified)
      else x.post_settle (str_append url "/settle") body

  unfoldable pub settle_with_facilitator :
      String → PaymentPayload → PaymentRequirements → Result SettlementResponse
  settle_with_facilitator facilitator_url payload req =
      let url = trim_slashes (trim_space facilitator_url) in
      let body : VerifyRequest = record {
        x402_version = pos 2;
        payment_payload = payload;
        payment_requirements = req;
      } in
      settle_verified url body (x.post_verify (str_append url "/verify") body)

-- What a payment check ends with: the request goes on, with a PAYMENT-RESPONSE header or none;
-- or it is answered.
pub data Payment : Type 0 where
  accepted : Option String → Payment
  demanded : Demand → Payment

abbrev pub is_accepted : Payment → Bool
is_accepted (accepted header) = true
is_accepted (demanded demand) = false

abbrev pub with_error : PaymentRequired → String → PaymentRequired
with_error pr e = record pr { error = e }

-- The settlement that the gateway makes up where there is no facilitator.
abbrev pub local_settlement : String → PaymentPayload → SettlementResponse
local_settlement transaction payload = record no_settlement {
  success = true;
  payer = payload.payload.authorization.from;
  transaction = transaction;
  network = payload.accepted.network;
}

-- The message for a settlement that failed.
abbrev pub chat_failure : String → String
chat_failure reason =
    let cause = trim_space reason in
    if cause == ""
    then "payment settlement failed"
    else str_append "payment settlement failed: " cause

abbrev pub chat_demand : PaymentRequirements → HttpRequest → PaymentRequired
chat_demand requirement r = record {
  x402_version = pos 2;
  error = "PAYMENT-SIGNATURE header is required";
  resource = record {
    url = request_url r;
    description = "paid chat completion request";
    mime_type = "application/json";
  };
  accepts = requirement ∷ [];
  extensions = [];
}

module _ (x : Facilitator) where
  abbrev pub chat_settled : PaymentRequired → Result SettlementResponse → Payment
  chat_settled pr (err e) =
      demanded (
        write_payment_required x (with_error pr (str_append "facilitator error: " e)) no_settlement)
  chat_settled pr (ok settle) =
      if not settle.success
      then demanded
          (write_payment_required x (with_error pr (chat_failure settle.error_reason)) settle)
      else accepted (x.encode_settlement settle)

  abbrev pub chat_checked :
      String → PaymentRequirements → PaymentRequired → PaymentPayload → Option String → Payment
  chat_checked facilitator_url requirement pr payload (some mismatch) =
      demanded (write_payment_required x (with_error pr mismatch) no_settlement)
  chat_checked facilitator_url requirement pr payload none =
      if trim_space facilitator_url == ""
      then accepted (x.encode_settlement (local_settlement "0xspike-local-no-facilitator" payload))
      else chat_settled pr (settle_with_facilitator x facilitator_url payload requirement)

  abbrev pub chat_decoded :
      String → PaymentRequirements → PaymentRequired → Option PaymentPayload → Payment
  chat_decoded facilitator_url requirement pr none =
      demanded
        (write_payment_required x (with_error pr "invalid PAYMENT-SIGNATURE header") no_settlement)
  chat_decoded facilitator_url requirement pr (some payload) =
      chat_checked facilitator_url requirement pr payload
        (validate_accepted_payment payload.accepted requirement)

  unfoldable pub charge_chat : PaywallConfig → HttpRequest → Option ChatRequest → Payment
  charge_chat paywall r req =
      let requirement = (compute_payment_requirement paywall req).requirement in
      let pr = chat_demand requirement r in
      if trim_space r.payment_signature == ""
      then demanded (write_payment_required x pr no_settlement)
      else chat_decoded paywall.facilitator_url requirement pr
          (x.decode_payload r.payment_signature)

  unfoldable pub enforce_chat_payment :
      {S : Type 0} → Proxy S → HttpRequest → Option ChatRequest → Payment
  unfolding charge_chat
  enforce_chat_payment p r req = elim p.chat_paywall [
    | none ↦ accepted none
    | some paywall ↦ charge_chat paywall r req
  ]

-- ===== src/Gateway/Paywall/Admitted.antt =====
-- Which chat requests pass the paywall, and what the others are told.
use text.Mathlib.TextEquality.{eq_iff}
use mathlib.Core.Bool.{false≢true}
use ai_peer.Base.{
  subst, String, true, false, pos, Option, none, some, ◌≡◌, ◌↔◌, ◌⊎◌, inl, inr, refl, arith, ◌==◌,
  string_eq, trim_space, str_append, Bool-cases, Option-cases,
}
use ai_peer.X402.{PaymentRequirements, PaymentRequired, PaymentPayload, SettlementResponse}
use ai_peer.Dataplane.Tables.{Result, ok, err}
use ai_peer.Gateway.Pricing.{PaywallConfig, ChatRequest, compute_payment_requirement}
use ai_peer.Gateway.Proxy.{Proxy}
use ai_peer.Gateway.Paywall.{
  chat_demand, Facilitator, HttpRequest, VerifyRequest, VerifyResponse, is_accepted, trim_slashes,
  validate_accepted_payment, settle_with_facilitator, settle_verified, charge_chat,
  enforce_chat_payment, chat_settled, chat_checked, chat_decoded, chat_demand,
}

-- The payment names the quoted requirement.
abbrev pub Matches : PaymentRequirements → PaymentRequirements → Type 0
Matches got want =
    (got.scheme ≡ want.scheme)
    × (got.network ≡ want.network)
    × (got.amount ≡ want.amount)
    × (got.asset ≡ want.asset)
    × (got.pay_to ≡ want.pay_to)

validate_lem :
    (got want : PaymentRequirements)
    → (validate_accepted_payment got want ≡ none) ↔ Matches got want
unfolding validate_accepted_payment
validate_lem got want = (
  λ h. (
    ground (arith, eq_iff got.scheme want.scheme),
    ground (arith, eq_iff got.network want.network),
    ground (arith, eq_iff got.amount want.amount),
    ground (arith, eq_iff got.asset want.asset),
    ground (arith, eq_iff got.pay_to want.pay_to),
  ),
  λ h. ground (
    arith,
    eq_iff got.scheme want.scheme,
    eq_iff got.network want.network,
    eq_iff got.amount want.amount,
    eq_iff got.asset want.asset,
    eq_iff got.pay_to want.pay_to,
  ),
)

abbrev facilitator_body : PaymentPayload → PaymentRequirements → VerifyRequest
facilitator_body payload req = record {
  x402_version = pos 2;
  payment_payload = payload;
  payment_requirements = req;
}

-- The facilitator has verified the payment and then settled it.
pub record Collected (x : Facilitator) (url : String) (body : VerifyRequest) : Type 0 where
  pub verified : VerifyResponse
  pub verify_answer :
      x.post_verify (str_append (trim_slashes (trim_space url)) "/verify") body ≡ ok verified
  pub is_valid : verified.is_valid ≡ true
  pub settled : SettlementResponse
  pub settle_answer :
      x.post_settle (str_append (trim_slashes (trim_space url)) "/settle") body ≡ ok settled
  pub is_settled : settled.success ≡ true

-- The request carries a payment of exactly the quote, which the facilitator has collected where one is
-- configured.
pub record Paid (x : Facilitator) (paywall : PaywallConfig) (r : HttpRequest)
    (req : Option ChatRequest) : Type 0 where
  pub payload : PaymentPayload
  pub header_given : (trim_space r.payment_signature == "") ≡ false
  pub header_read : x.decode_payload r.payment_signature ≡ some payload
  pub quoted : Matches payload.accepted (compute_payment_requirement paywall req).requirement
  pub collected :
      ((trim_space paywall.facilitator_url == "") ≡ true)
      ⊎ Collected x paywall.facilitator_url
          (facilitator_body payload (compute_payment_requirement paywall req).requirement)

module _ (x : Facilitator) where
  settled-Collected :
      (url : String) (payload : PaymentPayload) (requirement : PaymentRequirements)
      (pr : PaymentRequired)
      → is_accepted (chat_settled x pr (settle_with_facilitator x url payload requirement)) ≡ true
      → Collected x url (facilitator_body payload requirement)
  unfolding settle_with_facilitator
  settled-Collected url payload requirement pr h =
      verify_first (x.post_verify (str_append base "/verify") body) refl h
    where
      base : String
      base = trim_slashes (trim_space url)

      body : VerifyRequest
      body = facilitator_body payload requirement

      settle_next :
          (verified : VerifyResponse) (answer : Result SettlementResponse)
          → x.post_verify (str_append base "/verify") body ≡ ok verified
          → verified.is_valid ≡ true
          → x.post_settle (str_append base "/settle") body ≡ answer
          → is_accepted (chat_settled x pr answer) ≡ true
          → Collected x url body
      settle_next verified (err e) q v k h = absurd (false≢true h)
      settle_next verified (ok settle) q v k h = elim (Bool-cases settle.success) [
        | inl s ↦ record {
          verified = verified;
          verify_answer = q;
          is_valid = v;
          settled = settle;
          settle_answer = k;
          is_settled = s;
        }
        | inr s ↦ absurd (ground arith)
      ]

      verify_first :
          (answer : Result VerifyResponse)
          → x.post_verify (str_append base "/verify") body ≡ answer
          → is_accepted (chat_settled x pr (settle_verified x base body answer)) ≡ true
          → Collected x url body
      verify_first (err e) q h = absurd (false≢true h)
      verify_first (ok verified) q h = elim (Bool-cases verified.is_valid) [
        | inr v ↦ absurd (ground arith)
        | inl v ↦
            settle_next verified (x.post_settle (str_append base "/settle") body) q v refl
              (rw v at h)
      ]

  facilitator_agrees :
      (url : String) (payload : PaymentPayload) (requirement : PaymentRequirements)
      (pr : PaymentRequired)
      → Collected x url (facilitator_body payload requirement)
      → is_accepted (chat_settled x pr (settle_with_facilitator x url payload requirement)) ≡ true
  unfolding settle_with_facilitator
  facilitator_agrees url payload requirement pr c =
      rw (c.verify_answer, c.is_valid, c.settle_answer, c.is_settled) refl

  charge-Paid :
      (paywall : PaywallConfig) (r : HttpRequest) (req : Option ChatRequest)
      → is_accepted (charge_chat x paywall r req) ≡ true
      → Paid x paywall r req
  unfolding charge_chat
  charge-Paid paywall r req h = elim (Bool-cases (trim_space r.payment_signature == "")) [
    | inl blank ↦ absurd (false≢true (rw blank at h))
    | inr given ↦ decoded (x.decode_payload r.payment_signature) refl given (rw given at h)
  ]
    where
      requirement : PaymentRequirements
      requirement = (compute_payment_requirement paywall req).requirement

      pr : PaymentRequired
      pr = chat_demand requirement r

      checked :
          (payload : PaymentPayload) (mismatch : Option String)
          → x.decode_payload r.payment_signature ≡ some payload
          → (trim_space r.payment_signature == "") ≡ false
          → validate_accepted_payment payload.accepted requirement ≡ mismatch
          → is_accepted (chat_checked x paywall.facilitator_url requirement pr payload mismatch)
            ≡ true
          → Paid x paywall r req
      checked payload (some e) read given q k = absurd (false≢true k)
      checked payload none read given q k = record {
        payload = payload;
        header_given = given;
        header_read = read;
        quoted = (validate_lem payload.accepted requirement).0 q;
        collected = elim (Bool-cases (trim_space paywall.facilitator_url == "")) [
          | inl off ↦ inl off
          | inr on ↦
              inr (settled-Collected paywall.facilitator_url payload requirement pr (rw on at k))
        ];
      }

      decoded :
          (found : Option PaymentPayload)
          → x.decode_payload r.payment_signature ≡ found
          → (trim_space r.payment_signature == "") ≡ false
          → is_accepted (chat_decoded x paywall.facilitator_url requirement pr found) ≡ true
          → Paid x paywall r req
      decoded none read given k = absurd (false≢true k)
      decoded (some payload) read given k =
          checked payload (validate_accepted_payment payload.accepted requirement) read given refl k

  payment_passes :
      (paywall : PaywallConfig) (r : HttpRequest) (req : Option ChatRequest)
      → Paid x paywall r req
      → is_accepted (charge_chat x paywall r req) ≡ true
  unfolding charge_chat
  payment_passes paywall r req p =
      let requirement = (compute_payment_requirement paywall req).requirement in
      rw (p.header_given, p.header_read, (validate_lem p.payload.accepted requirement).1 p.quoted)
        (elim p.collected [
          | inl off ↦ rw off refl
          | inr c ↦ elim (Bool-cases (trim_space paywall.facilitator_url == "")) [
            | inl off ↦ rw off refl
            | inr on ↦ rw on (
                facilitator_agrees paywall.facilitator_url p.payload requirement
                  (chat_demand requirement r) c)
          ]
        ])

  -- A chat request passes exactly when there is no paywall, or when it carries a payment that names the
  -- scheme, network, amount, asset and receiver of its own quote and that the facilitator, where one is
  -- configured, has verified and settled.
  pub enforce_chat_payment_iff :
      {S : Type 0} (p : Proxy S) (r : HttpRequest) (req : Option ChatRequest)
      → (is_accepted (enforce_chat_payment x p r req) ≡ true) ↔ (
          (p.chat_paywall ≡ none)
          ⊎ ((paywall : PaywallConfig) × (p.chat_paywall ≡ some paywall) × Paid x paywall r req))
  unfolding enforce_chat_payment
  enforce_chat_payment_iff p r req = elim (Option-cases p.chat_paywall) [
    | inl q ↦ rw q (λ _. inl refl, λ _. refl)
    | inr (paywall, q) ↦ rw q (
      λ h. inr (paywall, refl, charge-Paid paywall r req h),
      λ h. elim h [
        | inl k ↦ cc
        | inr (other, k, paid) ↦
            let e : other ≡ paywall = cc in
            subst (λ c. is_accepted (charge_chat x c r req) ≡ true) e
              (payment_passes other r req paid)
      ],
    )
  ]

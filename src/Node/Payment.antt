-- ===== src/Node/Payment.antt =====
-- pkg/node/x402_paywall.go: the node's quote for an inference request, the debt that each payer owes,
-- and its reconciliation with the tokens that were used. int64 arithmetic wraps; the token estimate is
-- a natural number, as in the gateway's pricing.
pub mod Debt
mod Tests
use Prim.Native.String.{len}
use ai_peer.Config.{ModelPricing}
use ai_peer.X402.{PaymentRequirements}
use ai_peer.Gateway.Pricing.{at_least, over, floor_at, raise_to, price_of}
use ai_peer.Wire.{
  InferenceRequest, ChatMessage, request_messages, request_params, message_content, message_role,
}
use ai_peer.Base.{
  ℤ, List, Option, String, Map, pos, some, to_lower, if◌then◌else◌, parse_int, lookup, sub64, add64,
  trim_space, ℕ, none, leb_ℤ, ◌==◌, ltb_ℤ, ◌∷◌, string_eq, delete, format_int, insert, int_eq, ◌+◌,
  ◌/◌, [],
}

pub record NodePricing : Type 0 where
  pub atomic_per_1k_tokens : ℤ
  pub min_amount_atomic : ℤ
  pub default_output_tokens : ℤ

pub record InferencePaywall : Type 0 where
  pub facilitator_url : String
  pub requirement : PaymentRequirements
  pub pricing : NodePricing
  pub model_pricing : Map ModelPricing

pub record PaymentSession : Type 0 where
  pub payer : String
  pub model : String
  pub prior_debt_atomic : ℤ
  pub prepaid_atomic : ℤ
  pub pricing : NodePricing

-- A price of the model's own wins where it is positive.
override_node : NodePricing → Option ModelPricing → NodePricing
override_node pricing none = pricing
override_node pricing (some own) = record {
  atomic_per_1k_tokens = over pricing.atomic_per_1k_tokens own.price_per_1k_atomic;
  min_amount_atomic = over pricing.min_amount_atomic own.min_amount_atomic;
  default_output_tokens = over pricing.default_output_tokens own.default_output_tokens;
}

unfoldable pub resolve_inference_pricing : InferencePaywall → Option InferenceRequest → NodePricing
unfolding override_node
resolve_inference_pricing paywall none = paywall.pricing
resolve_inference_pricing paywall (some req) =
    let model = trim_space req.model in
    if model == ""
    then paywall.pricing
    else override_node paywall.pricing (lookup model paywall.model_pricing)

estimate_wire_messages : List (Option ChatMessage) → ℕ
estimate_wire_messages [] = 0
estimate_wire_messages (msg ∷ msgs) =
    (len (message_content msg) + 3) / 4
    + (len (message_role msg) + 3) / 4
    + 4
    + estimate_wire_messages msgs

unfoldable pub estimate_inference_input_tokens : Option InferenceRequest → ℕ
unfolding estimate_wire_messages
estimate_inference_input_tokens req = estimate_wire_messages (request_messages req)

-- The `max_tokens` parameter, a decimal text; one that is missing or malformed counts as none.
max_tokens_param : Option String → Option ℤ
max_tokens_param none = none
max_tokens_param (some raw) = parse_int (trim_space raw)

unfoldable pub requested_tokens : Option InferenceRequest → Option ℤ
unfolding max_tokens_param
requested_tokens req = max_tokens_param (lookup "max_tokens" (request_params req))

-- The amount for a number of tokens, with the floor and at least one unit.
unfoldable pub node_amount : NodePricing → ℤ → ℤ
node_amount pricing total =
    at_least (pos 1)
      (floor_at pricing.min_amount_atomic (price_of total pricing.atomic_per_1k_tokens))

unfoldable pub node_total : NodePricing → Option InferenceRequest → ℤ
node_total pricing req = at_least (pos 1) (
    add64 (pos (estimate_inference_input_tokens req))
      (at_least (pos 0) (raise_to (requested_tokens req) pricing.default_output_tokens)))

unfoldable pub compute_inference_requirement :
    InferencePaywall → Option InferenceRequest → PaymentRequirements × ℤ
compute_inference_requirement paywall req =
    let pricing = resolve_inference_pricing paywall req in
    let amount = node_amount pricing (node_total pricing req) in
    if leb_ℤ pricing.atomic_per_1k_tokens (pos 0)
    then (record paywall.requirement { amount = "1" }, pos 1)
    else (record paywall.requirement { amount = format_int amount }, amount)

-- The debts by payer, under the payer's address in lower case without spaces around it.
abbrev pub payer_key : String → String
payer_key payer = to_lower (trim_space payer)

abbrev pub debt_or_zero : Option ℤ → ℤ
debt_or_zero none = pos 0
debt_or_zero (some debt) = debt

unfoldable pub get_payment_debt : String → Map ℤ → ℤ
get_payment_debt payer debts =
    let key = payer_key payer in if key == "" then pos 0 else debt_or_zero (lookup key debts)

-- A debt that is not positive is no debt.
unfoldable pub set_payment_debt : String → ℤ → Map ℤ → Map ℤ
set_payment_debt payer debt debts =
    let key = payer_key payer in
    let owed = if ltb_ℤ debt (pos 0) then pos 0 else debt in
    if key == "" then debts else if owed == pos 0 then delete key debts else insert key owed debts

-- `computeActualDueAtomic` of a session.
unfoldable pub compute_actual_due : NodePricing → ℤ → ℤ
compute_actual_due pricing tokens_used = node_amount pricing (at_least (pos 1) tokens_used)

unfoldable pub reconcile_actual_usage : Option PaymentSession → ℤ → Map ℤ → Map ℤ
reconcile_actual_usage none tokens_used debts = debts
reconcile_actual_usage (some session) tokens_used debts =
    let due = compute_actual_due session.pricing tokens_used in
    let outstanding = sub64 (add64 session.prior_debt_atomic due) session.prepaid_atomic in
    if session.payer == ""
    then debts
    else if leb_ℤ session.pricing.atomic_per_1k_tokens (pos 0)
    then debts
    else set_payment_debt session.payer (at_least (pos 0) outstanding) debts

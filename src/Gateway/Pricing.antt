-- ===== src/Gateway/Pricing.antt =====
-- pkg/gateway/x402_paywall.go and pkg/gateway/openai_proxy.go: what a chat request costs.
-- int64 arithmetic wraps. The token estimate of a request is a natural number: a request body has
-- at most 4 MB, so the sum of lengths stays far below 2 ^ 63. USDC amounts, floats that are whole
-- multiples of 10 ^ -6, are counted in that unit (atomic units).
pub mod Amount
mod Tests
use Prim.Native.String.{len}
use ai_peer.Base.{
  ℕ, ◌+◌, ◌/◌, ℤ, pos, String, Bool, true, false, ◌&&◌, ◌||◌, not, Option, none, some, List, [],
  ◌∷◌, Map, lookup, ltb_ℤ, leb_ℤ, ◌==◌, string_eq, if◌then◌else◌, add64, mul64, quot, trim_space,
  format_int, is_some,
}
use ai_peer.Wire.{Float64}
use ai_peer.X402.{PaymentRequirements}

pub record ChatMessage : Type 0 where
  pub role : String
  pub content : String

-- `openAIChatRequest`; `max_tokens` is a 64-bit `int`.
pub record ChatRequest : Type 0 where
  pub model : String
  pub messages : List ChatMessage
  pub stream : Bool
  pub max_tokens : Option ℤ
  pub temperature : Option Float64

pub record TokenPricing : Type 0 where
  pub atomic_per_1k_tokens : ℤ
  pub min_amount_atomic : ℤ
  pub max_amount_atomic : ℤ
  pub default_output_tokens : ℤ

pub record PaywallConfig : Type 0 where
  pub facilitator_url : String
  pub requirement : PaymentRequirements
  pub token_pricing : Option TokenPricing
  pub model_pricing : Map TokenPricing

-- `X402TokenPricingConfig{}`
abbrev pub no_pricing : TokenPricing
no_pricing = record {
  atomic_per_1k_tokens = pos 0;
  min_amount_atomic = pos 0;
  max_amount_atomic = pos 0;
  default_output_tokens = pos 0;
}

-- A positive value of the model's own price wins.
abbrev pub over : ℤ → ℤ → ℤ
over base own = if ltb_ℤ (pos 0) own then own else base

abbrev pub override : TokenPricing → TokenPricing → TokenPricing
override base own = record {
  atomic_per_1k_tokens = over base.atomic_per_1k_tokens own.atomic_per_1k_tokens;
  min_amount_atomic = over base.min_amount_atomic own.min_amount_atomic;
  max_amount_atomic = over base.max_amount_atomic own.max_amount_atomic;
  default_output_tokens = over base.default_output_tokens own.default_output_tokens;
}

override_found : TokenPricing → Option TokenPricing → TokenPricing
override_found base none = base
override_found base (some own) = override base own

unfoldable pub apply_model_pricing_override :
    TokenPricing → Option ChatRequest → Map TokenPricing → TokenPricing
unfolding override_found
apply_model_pricing_override base none model_pricing = base
apply_model_pricing_override base (some req) model_pricing =
    let model = trim_space req.model in
    if model == "" then base else override_found base (lookup model model_pricing)

estimate_messages : List ChatMessage → ℕ
estimate_messages [] = 0
estimate_messages (msg ∷ msgs) =
    (len msg.content + 3) / 4 + (len msg.role + 3) / 4 + 4 + estimate_messages msgs

unfoldable pub estimate_input_tokens : Option ChatRequest → ℕ
unfolding estimate_messages
estimate_input_tokens none = 0
estimate_input_tokens (some req) = estimate_messages req.messages

-- The client's `max_tokens` where it is larger than the provider's default.
abbrev pub raise_to : Option ℤ → ℤ → ℤ
raise_to none tokens = tokens
raise_to (some v) tokens =
    if ltb_ℤ (pos 0) v then (if ltb_ℤ tokens v then v else tokens) else tokens

abbrev pub requested : Option ChatRequest → Option ℤ
requested none = none
requested (some req) = req.max_tokens

abbrev pub at_least : ℤ → ℤ → ℤ
at_least low n = if ltb_ℤ n low then low else n

-- The limits apply only where they are positive.
abbrev pub floor_at : ℤ → ℤ → ℤ
floor_at low n = if ltb_ℤ (pos 0) low && ltb_ℤ n low then low else n

abbrev pub ceil_at : ℤ → ℤ → ℤ
ceil_at high n = if ltb_ℤ (pos 0) high && ltb_ℤ high n then high else n

-- `(totalTokens*price + 999) / 1000`
unfoldable pub price_of : ℤ → ℤ → ℤ
price_of total price = quot (add64 (mul64 total price) (pos 999)) 1000

unfoldable pub resolve_token_pricing : Option PaywallConfig → Option ChatRequest → TokenPricing
resolve_token_pricing none req = no_pricing
resolve_token_pricing (some paywall) req = elim paywall.token_pricing [
  | none ↦ no_pricing
  | some pricing ↦ apply_model_pricing_override pricing req paywall.model_pricing
]

pub record Quote : Type 0 where
  pub requirement : PaymentRequirements
  pub input_tokens : ℤ
  pub output_tokens : ℤ
  pub total_tokens : ℤ

-- The tokens that a request is charged for, before the answer is known.
unfoldable pub output_estimate : TokenPricing → Option ChatRequest → ℤ
output_estimate pricing req =
    at_least (pos 0) (raise_to (requested req) pricing.default_output_tokens)

unfoldable pub total_estimate : TokenPricing → Option ChatRequest → ℤ
unfolding output_estimate
total_estimate pricing req =
    at_least (pos 1) (add64 (pos (estimate_input_tokens req)) (output_estimate pricing req))

-- The floor, the ceiling and the minimum of one unit.
abbrev pub limited : TokenPricing → ℤ → ℤ
limited pricing amount =
    at_least (pos 1) (ceil_at pricing.max_amount_atomic (floor_at pricing.min_amount_atomic amount))

unfoldable pub quote_amount : TokenPricing → ℤ → ℤ
unfolding price_of
quote_amount pricing total = limited pricing (price_of total pricing.atomic_per_1k_tokens)

-- `computePaymentRequirement`, whose caller has checked that there is a paywall.
unfoldable pub compute_payment_requirement : PaywallConfig → Option ChatRequest → Quote
compute_payment_requirement paywall req =
    let flat : Quote = record {
      requirement = paywall.requirement;
      input_tokens = pos 0;
      output_tokens = pos 0;
      total_tokens = pos 0;
    } in
    let pricing = resolve_token_pricing (some paywall) req in
    let total = total_estimate pricing req in
    if not (is_some paywall.token_pricing) || leb_ℤ pricing.atomic_per_1k_tokens (pos 0)
    then flat
    else record {
      requirement = record paywall.requirement { amount = format_int (quote_amount pricing total) };
      input_tokens = pos (estimate_input_tokens req);
      output_tokens = output_estimate pricing req;
      total_tokens = total;
    }

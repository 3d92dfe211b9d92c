-- ===== src/Gateway/Pricing/Tests.antt =====
-- The pricing theorems at a paywall of 100 units per 1000 tokens.
use ai_peer.Gateway.Pricing.Amount.{quote_amount_mono, total_estimate_overflow}
use ai_peer.Base.{ℤ, pos, some, [], ◌∷◌, ◌≡◌, ◌≤ℤ◌, false, arith, none, refl}
use ai_peer.X402.{PaymentRequirements}
use ai_peer.Gateway.Pricing.{
  PaywallConfig, estimate_input_tokens, TokenPricing, quote_amount, ChatRequest, total_estimate,
}

abbrev base : TokenPricing
base = record {
  atomic_per_1k_tokens = pos 100;
  min_amount_atomic = pos 5;
  max_amount_atomic = pos 0;
  default_output_tokens = pos 256;
}

abbrev flat_requirement : PaymentRequirements
flat_requirement = record {
  scheme = "exact";
  network = "eip155:84532";
  amount = "1";
  asset = "usdc";
  pay_to = "0xabc";
  max_timeout_seconds = pos 60;
  extra = [];
}

abbrev paywall : PaywallConfig
paywall = record {
  facilitator_url = "http://facilitator";
  requirement = flat_requirement;
  token_pricing = some base;
  model_pricing = [];
}

abbrev chat : ℤ → ChatRequest
chat max_tokens = record {
  model = "llama3";
  messages = record { role = "user"; content = "hello" } ∷ [];
  stream = false;
  max_tokens = some max_tokens;
  temperature = none;
}

quote_amount_mono_example : quote_amount base (pos 10) ≤ℤ quote_amount base (pos 2000)
quote_amount_mono_example = quote_amount_mono base 10 2000 100 refl (omega arith) (omega arith)

total_estimate_overflow_example :
    (total_estimate base (some (chat (pos 9223372036854775807))) ≡ pos 1)
    × (quote_amount base (total_estimate base (some (chat (pos 9223372036854775807))))
        ≡ quote_amount base (pos 1))
unfolding estimate_input_tokens
total_estimate_overflow_example =
    total_estimate_overflow base (chat (pos 9223372036854775807)) 9223372036854775807 refl
      (ground arith) (omega arith) (omega arith) (omega arith)

-- ===== src/Gateway/Pricing/Amount.antt =====
-- The amount of a quote: x402_paywall.go, `computePaymentRequirement`.
use Prim.Native.Nat.{max}
use mathlib.Core.Path.{subst₂, subst, sym, ap}
use ai_peer.Base.{
  ℕ, ◌+◌, ◌-◌, ◌*◌, ◌/◌, ◌^◌, ◌≤◌, ◌<◌, pos, pos_part, ◌≤ℤ◌, ◌<ℤ◌, ◌≡◌, ◌⊎◌, arith, add64, mul64,
  wrap64_small, mul_pos, add_pos, ◌∙◌, Option, some, wrap64_overflow,
}
use ai_peer.Gateway.Pricing.{
  TokenPricing, price_of, quote_amount, limited, at_least, output_estimate, total_estimate,
  ChatRequest, estimate_input_tokens,
}

-- Without overflow the price is the exact quotient, rounded up.
pub price_of_lem :
    (t p : ℕ) → t * p + 999 < 2 ^ 63 → price_of (pos t) (pos p) ≡ pos ((t * p + 999) / 1000)
unfolding price_of add64 mul64
price_of_lem t p h = rw (
  mul_pos t p,
  wrap64_small (t * p) (omega arith),
  add_pos (t * p) 999,
  wrap64_small (t * p + 999) h,
)

-- `n` atomic units are a fair price for `x` thousandths of a unit under the limits of `pricing`.
pub record IsFair (pricing : TokenPricing) (x n : ℕ) : Type 0 where
  pub positive : 1 ≤ n
  -- Never above the ceiling.
  pub capped : pos 0 <ℤ pricing.max_amount_atomic → pos n ≤ℤ pricing.max_amount_atomic
  -- Unless the ceiling cuts it: at least the floor, and at least the exact price.
  pub covers :
      (pricing.max_amount_atomic ≤ℤ pos 0) ⊎ (pos n <ℤ pricing.max_amount_atomic)
      → (pricing.min_amount_atomic ≤ℤ pos n) × (x ≤ 1000 * n)
  -- Above the floor it exceeds the exact price by less than one unit.
  pub tight : 1 < n → pricing.min_amount_atomic <ℤ pos n → 1000 * (n - 1) < x

limited-IsFair :
    (pricing : TokenPricing) (x : ℕ)
    → (n : ℕ) × (limited pricing (pos ((x + 999) / 1000)) ≡ pos n) × IsFair pricing x n
limited-IsFair pricing x = (
  pos_part (limited pricing (pos ((x + 999) / 1000))),
  ground arith,
  record {
    positive = ground arith;
    capped = ground arith;
    covers = ground arith;
    tight = ground arith;
  },
)

exact_price :
    (pricing : TokenPricing) (t p : ℕ)
    → pricing.atomic_per_1k_tokens ≡ pos p
    → t * p + 999 < 2 ^ 63
    → price_of (pos t) pricing.atomic_per_1k_tokens ≡ pos ((t * p + 999) / 1000)
exact_price pricing t p e h = ap (price_of (pos t)) e ∙ price_of_lem t p h

pub quote_amount-IsFair :
    (pricing : TokenPricing) (t p : ℕ)
    → pricing.atomic_per_1k_tokens ≡ pos p
    → t * p + 999 < 2 ^ 63
    → (n : ℕ) × (quote_amount pricing (pos t) ≡ pos n) × IsFair pricing (t * p) n
unfolding quote_amount
quote_amount-IsFair pricing t p e h =
    subst (λ q. (n : ℕ) × (limited pricing q ≡ pos n) × IsFair pricing (t * p) n)
      (sym (exact_price pricing t p e h)) (limited-IsFair pricing (t * p))

pub limited_mono :
    (pricing : TokenPricing) (a b : ℕ) → a ≤ b → limited pricing (pos a) ≤ℤ limited pricing (pos b)
limited_mono pricing a b h = ground arith

-- Where nothing overflows, more estimated tokens never cost less.
pub quote_amount_mono :
    (pricing : TokenPricing) (t t' p : ℕ)
    → pricing.atomic_per_1k_tokens ≡ pos p
    → t ≤ t'
    → t' * p + 999 < 2 ^ 63
    → quote_amount pricing (pos t) ≤ℤ quote_amount pricing (pos t')
unfolding quote_amount
quote_amount_mono pricing t t' p e le h =
    let grows : t * p ≤ t' * p = grind arith in
    subst₂ (λ q q'. limited pricing q ≤ℤ limited pricing q')
      (sym (exact_price pricing t p e (omega arith))) (sym (exact_price pricing t' p e h))
      (limited_mono pricing ((t * p + 999) / 1000) ((t' * p + 999) / 1000) (omega arith))

-- The estimate's total, where input plus output fits an int64.
pub total_estimate_lem :
    (pricing : TokenPricing) (req : Option ChatRequest) (o : ℕ)
    → output_estimate pricing req ≡ pos o
    → estimate_input_tokens req + o < 2 ^ 63
    → total_estimate pricing req ≡ at_least (pos 1) (pos (estimate_input_tokens req + o))
unfolding total_estimate add64
total_estimate_lem pricing req o e h =
    rw (e, add_pos (estimate_input_tokens req) o, wrap64_small (estimate_input_tokens req + o) h)

output_estimate_raised :
    (pricing : TokenPricing) (req : ChatRequest) (v : ℕ)
    → req.max_tokens ≡ some (pos v)
    → pricing.default_output_tokens <ℤ pos v
    → output_estimate pricing (some req) ≡ pos v
unfolding output_estimate
output_estimate_raised pricing req v e h = ground arith

-- The wrap-around of `inputTokens + outputTokens`: a request whose `max_tokens` brings the total to
-- 2 ^ 63 or more, and so asks for the most, is quoted as a request of one single token.
pub total_estimate_overflow :
    (pricing : TokenPricing) (req : ChatRequest) (v : ℕ)
    → req.max_tokens ≡ some (pos v)
    → pricing.default_output_tokens <ℤ pos v
    → v < 2 ^ 63
    → estimate_input_tokens (some req) < 2 ^ 63
    → 2 ^ 63 ≤ estimate_input_tokens (some req) + v
    → (total_estimate pricing (some req) ≡ pos 1)
      × (quote_amount pricing (total_estimate pricing (some req)) ≡ quote_amount pricing (pos 1))
unfolding total_estimate add64
total_estimate_overflow pricing req v e d small est h =
    let n : ℕ = estimate_input_tokens (some req) + v in
    let wrapped = wrap64_overflow n h (omega arith) in
    let one : total_estimate pricing (some req) ≡ pos 1 =
      rw
        (
          output_estimate_raised pricing req v e d,
          add_pos (estimate_input_tokens (some req)) v,
          wrapped,
        )
        (ground arith) in
    (one, ap (quote_amount pricing) one)

pub at_least_one : (n : ℕ) → at_least (pos 1) (pos n) ≡ pos (max 1 n)
at_least_one n = ground arith

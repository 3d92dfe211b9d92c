-- ===== src/Gateway/Sessions/Coverage.antt =====
-- The reservation covers the charge.
use ai_peer.Gateway.Pricing.Amount.{at_least_one, price_of_lem}
use Prim.Native.Nat.{max}
use ai_peer.Gateway.Proxy.{Proxy}
use ai_peer.Base.{
  some, none, ◌⊎◌, ℤ, ◌≤ℤ◌, add64, ℕ, ◌≤◌, if◌then◌else◌, ◌≡◌, Option, leb_ℤ, pos, ◌<ℤ◌, arith, suc,
  ◌+◌, ◌*◌, ◌<◌, ◌^◌, ◌/◌, add_pos, wrap64_small, ap, false, ◌∙◌, wrap64,
}
use ai_peer.Gateway.Pricing.{TokenPricing, ChatRequest, estimate_input_tokens, price_of, at_least}
use ai_peer.Gateway.Sessions.{
  charge_atomic, estimate_prepaid_reserve, compute_prepaid_charge, bounded,
  resolve_prepaid_token_pricing, default_output, default_prepaid_output_tokens, total_charged,
}

at_least_zero : (n : ℕ) → at_least (pos 0) (pos n) ≡ pos n
at_least_zero n = ground arith

total_charged_lem :
    (input completion : ℕ)
    → input + completion < 2 ^ 63
    → total_charged input (pos completion) ≡ pos (max 1 (input + completion))
unfolding total_charged add64
total_charged_lem input completion fits =
    ap (λ o. at_least (pos 1) (add64 (pos input) o)) (at_least_zero completion)
    ∙ ap (at_least (pos 1))
        (ap wrap64 (add_pos input completion) ∙ wrap64_small (input + completion) fits)
    ∙ at_least_one (input + completion)

raised : (c d : ℤ) → c ≤ℤ d → c ≤ℤ (if leb_ℤ d (pos 0) then pos 1000 else d)
raised c d h = ground arith

charge_atomic_lem :
    (pricing : TokenPricing) (input completion p : ℕ)
    → pricing.atomic_per_1k_tokens ≡ pos (suc p)
    → input + completion < 2 ^ 63
    → max 1 (input + completion) * suc p + 999 < 2 ^ 63
    → charge_atomic pricing input (pos completion)
      ≡ bounded pricing (pos ((max 1 (input + completion) * suc p + 999) / 1000))
unfolding charge_atomic
charge_atomic_lem pricing input completion p e fits fits' =
    let positive : leb_ℤ pricing.atomic_per_1k_tokens (pos 0) ≡ false = ground arith in
    rw positive (
      ap (bounded pricing) (
        ap (price_of (total_charged input (pos completion))) e
        ∙ ap (λ t. price_of t (pos (suc p))) (total_charged_lem input completion fits)
        ∙ price_of_lem (max 1 (input + completion)) (suc p) fits'))

bounded_mono :
    (pricing : TokenPricing) (a b : ℕ) → a ≤ b → bounded pricing (pos a) ≤ℤ bounded pricing (pos b)
bounded_mono pricing a b h = ground arith

-- Where nothing overflows, more completion tokens never cost less.
charge_atomic_mono :
    (pricing : TokenPricing) (input c c' p : ℕ)
    → pricing.atomic_per_1k_tokens ≡ pos (suc p)
    → c ≤ c'
    → input + c' < 2 ^ 63
    → max 1 (input + c') * suc p + 999 < 2 ^ 63
    → charge_atomic pricing input (pos c) ≤ℤ charge_atomic pricing input (pos c')
charge_atomic_mono pricing input c c' p e le fits fits' =
    let grows : max 1 (input + c) * suc p ≤ max 1 (input + c') * suc p = grind arith in
    rw
      (
        charge_atomic_lem pricing input c p e (omega arith) (omega arith),
        charge_atomic_lem pricing input c' p e fits fits',
      )
      (bounded_mono pricing ((max 1 (input + c) * suc p + 999) / 1000)
        ((max 1 (input + c') * suc p + 999) / 1000) (omega arith))

output_at_least :
    (pricing : TokenPricing) (req : ChatRequest) (default limit : ℕ)
    → (pricing.default_output_tokens ≡ pos (suc default))
      ⊎ ((pricing.default_output_tokens ≤ℤ pos 0) × (default ≡ 255))
    → (req.max_tokens ≡ some (pos limit)) ⊎ ((req.max_tokens ≡ none) × (limit ≡ 0))
    → default_output pricing (some req) ≡ pos (max (suc default) limit)
unfolding default_output
output_at_least pricing req default limit d m = ground arith

module _ {S : Type 0} where
  -- A reservation is always of a positive amount.
  pub estimate_prepaid_reserve_positive :
      (p : Proxy S) (req : Option ChatRequest) → pos 0 <ℤ estimate_prepaid_reserve p req
  unfolding estimate_prepaid_reserve
  estimate_prepaid_reserve_positive p req = ground arith

  -- Where nothing overflows, what is reserved before a request is at least what the request costs, for
  -- as many completion tokens as the larger of `max_tokens` and the default output, which is 256 where
  -- none is configured.
  pub estimate_covers_charge :
      (p : Proxy S) (req : ChatRequest) (price completion default limit : ℕ)
      → (resolve_prepaid_token_pricing p (some req)).atomic_per_1k_tokens ≡ pos (suc price)
      → ((resolve_prepaid_token_pricing p (some req)).default_output_tokens ≡ pos (suc default))
        ⊎ (((resolve_prepaid_token_pricing p (some req)).default_output_tokens ≤ℤ pos 0)
            × (default ≡ 255))
      → (req.max_tokens ≡ some (pos limit)) ⊎ ((req.max_tokens ≡ none) × (limit ≡ 0))
      → completion ≤ max (suc default) limit
      → estimate_input_tokens (some req) + max (suc default) limit < 2 ^ 63
      → max 1 (estimate_input_tokens (some req) + max (suc default) limit) * suc price + 999
        < 2 ^ 63
      → compute_prepaid_charge p (some req) (pos completion)
        ≤ℤ estimate_prepaid_reserve p (some req)
  unfolding estimate_prepaid_reserve compute_prepaid_charge default_prepaid_output_tokens
  estimate_covers_charge p req price completion default limit e d m le fits fits' =
      let pricing = resolve_prepaid_token_pricing p (some req) in
      let input = estimate_input_tokens (some req) in
      let out = max (suc default) limit in
      let grows = charge_atomic_mono pricing input completion out price e le fits fits' in
      rw (output_at_least pricing req default limit d m) (
        raised (charge_atomic pricing input (pos completion))
          (charge_atomic pricing input (pos out)) grows)

-- ===== src/Node/Payment/Debt.antt =====
-- What a payer owes.
use text.Mathlib.TextEquality.{eq_iff}
use Prim.Native.Nat.{max}
use ai_peer.Gateway.Pricing.{at_least, floor_at}
use ai_peer.Gateway.Pricing.Amount.{at_least_one, price_of_lem}
use ai_peer.Node.Payment.{
  reconcile_actual_usage, get_payment_debt, set_payment_debt, payer_key, debt_or_zero,
  PaymentSession, NodePricing, compute_actual_due, node_amount,
}
use ai_peer.Base.{
  ℤ, String, Map, pos, ◌≢◌, add64, ◌≡◌, sub64, ◌==◌, leb_ℤ, if◌then◌else◌, false, lookup, arith,
  delete, insert, Int64, string_eq, lookup-insert, ◌+ℤ◌, lookup-delete, ◌-ℤ◌, some, wrap64_of_Int64,
  ◌∙◌, ap, ℕ, Bool, suc, ◌+◌, ◌*◌, ◌/◌, ◌^◌, ◌<◌, to_lower, trim_space,
}

eq_false : (s : String) → s ≢ "" → (s == "") ≡ false
eq_false s ne = ground (arith, eq_iff s "")

at_least_twice : (n : ℤ) → at_least (pos 0) (at_least (pos 0) n) ≡ at_least (pos 0) n
at_least_twice n = ground arith

debt_insert :
    (key other : String) (v : ℤ) (debts : Map ℤ)
    → debt_or_zero (lookup other (insert key v debts))
      ≡ (if key == other then v else debt_or_zero (lookup other debts))
debt_insert key other v debts = ground (arith, lookup-insert key other v debts)

debt_delete :
    (key other : String) (debts : Map ℤ)
    → debt_or_zero (lookup other (delete key debts))
      ≡ (if key == other then pos 0 else debt_or_zero (lookup other debts))
debt_delete key other debts = ground (arith, lookup-delete key other debts)

-- Two spellings of an address, which differ in letter case and in the spaces around them.
abbrev pub same_payer : String → String → Bool
same_payer payer other = to_lower (trim_space payer) == to_lower (trim_space other)

-- After a debt is set, its payer owes it, or nothing where it is negative, under any spelling of the
-- address in letter case and surrounding spaces, and every other payer owes what it did.
pub get-set_payment_debt :
    (payer other : String) (debt : ℤ) (debts : Map ℤ)
    → (to_lower (trim_space payer) ≢ "")
    → get_payment_debt other (set_payment_debt payer debt debts)
      ≡ (if same_payer payer other then at_least (pos 0) debt else get_payment_debt other debts)
unfolding get_payment_debt set_payment_debt
get-set_payment_debt payer other debt debts ne =
    let key : String = payer_key payer in
    let key' : String = payer_key other in
    ground (
      arith,
      eq_iff key "",
      eq_iff key' "",
      eq_iff key key',
      debt_insert key key' (at_least (pos 0) debt) debts,
      debt_delete key key' debts,
    )

-- What a number of tokens costs at a price for a thousand: the price rounded up, at least the minimum
-- and at least one unit, where no tokens count as one.
abbrev pub cost : (price min tokens : ℕ) → ℕ
cost price min tokens = max 1 (max min ((max 1 tokens * price + 999) / 1000))

compute_actual_due_lem :
    (pricing : NodePricing) (price min tokens : ℕ)
    → pricing.atomic_per_1k_tokens ≡ pos price
    → pricing.min_amount_atomic ≡ pos min
    → max 1 tokens * price + 999 < 2 ^ 63
    → compute_actual_due pricing (pos tokens) ≡ pos (cost price min tokens)
unfolding compute_actual_due node_amount
compute_actual_due_lem pricing price min tokens e e' fits =
    rw (at_least_one tokens, e, e', price_of_lem (max 1 tokens) price fits)
      (floored min ((max 1 tokens * price + 999) / 1000))
  where
    floored : (low n : ℕ) → at_least (pos 1) (floor_at (pos low) (pos n)) ≡ pos (max 1 (max low n))
    floored low n = ground arith

-- Where nothing overflows, a session that ends leaves its payer owing the old debt and the cost of the
-- tokens used (their price rounded up, at least the minimum and at least one unit) less what was
-- prepaid, and nothing where that is negative; nobody else's debt changes.
pub reconcile_actual_usage_lem :
    (session : PaymentSession) (price min tokens : ℕ) (other : String) (debts : Map ℤ)
    → (session.payer ≢ "")
    → (to_lower (trim_space session.payer) ≢ "")
    → session.pricing.atomic_per_1k_tokens ≡ pos (suc price)
    → session.pricing.min_amount_atomic ≡ pos min
    → max 1 tokens * suc price + 999 < 2 ^ 63
    → Int64 (session.prior_debt_atomic +ℤ pos (cost (suc price) min tokens))
    → Int64
        (session.prior_debt_atomic +ℤ pos (cost (suc price) min tokens) -ℤ session.prepaid_atomic)
    → get_payment_debt other (reconcile_actual_usage (some session) (pos tokens) debts) ≡ (
        if same_payer session.payer other
        then at_least (pos 0) (
            session.prior_debt_atomic
            +ℤ pos (cost (suc price) min tokens)
            -ℤ session.prepaid_atomic)
        else get_payment_debt other debts)
unfolding reconcile_actual_usage add64 sub64
reconcile_actual_usage_lem session price min tokens other debts ne ne' e e' small fits fits' =
    let owed : ℤ =
      session.prior_debt_atomic +ℤ pos (cost (suc price) min tokens) -ℤ session.prepaid_atomic in
    let priced : leb_ℤ session.pricing.atomic_per_1k_tokens (pos 0) ≡ false = ground arith in
    rw
      (
        eq_false session.payer ne,
        priced,
        compute_actual_due_lem session.pricing (suc price) min tokens e e' small,
        wrap64_of_Int64 (session.prior_debt_atomic +ℤ pos (cost (suc price) min tokens)) fits,
        wrap64_of_Int64 owed fits',
      )
      (get-set_payment_debt session.payer other (at_least (pos 0) owed) debts ne'
        ∙ ap (λ d. if same_payer session.payer other then d else get_payment_debt other debts)
            (at_least_twice owed))

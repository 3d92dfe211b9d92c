-- ===== src/Node/Payment/Tests.antt =====
-- The debt theorems at a payer that used more tokens than it paid for.
use text.Mathlib.TextEquality.{eq_iff}
use ai_peer.Node.Payment.Debt.{reconcile_actual_usage_lem, get-set_payment_debt, same_payer, cost}
use ai_peer.Gateway.Pricing.{at_least}
use ai_peer.Base.{
  trim_space, pos, to_lower, some, ◌≡◌, ◌+ℤ◌, refl, ◌-ℤ◌, [], if◌then◌else◌, ◌==◌, arith, string_eq,
  String, true, false, ◌≢◌,
}
use ai_peer.Node.Payment.{
  compute_actual_due, reconcile_actual_usage, PaymentSession, NodePricing, get_payment_debt,
  set_payment_debt,
}

abbrev price : NodePricing
price = record {
  atomic_per_1k_tokens = pos 100;
  min_amount_atomic = pos 1;
  default_output_tokens = pos 256;
}

abbrev session : PaymentSession
session = record {
  payer = "0xAbC";
  model = "llama3";
  prior_debt_atomic = pos 7;
  prepaid_atomic = pos 27;
  pricing = price;
}

nonempty : (s : String) → (s == "") ≡ false → s ≢ ""
nonempty s h = λ e. cc (h, (eq_iff s "").1 e)

get-set_payment_debt_example : get_payment_debt " 0xabc " (set_payment_debt "0xABC" (pos 5) []) ≡ (
    if same_payer "0xABC" " 0xabc "
    then at_least (pos 0) (pos 5)
    else get_payment_debt " 0xabc " [])
unfolding trim_space to_lower
get-set_payment_debt_example = get-set_payment_debt "0xABC" " 0xabc " (pos 5) [] (nonempty _ refl)

owed : get_payment_debt "0xabc" (reconcile_actual_usage (some session) (pos 1000) []) ≡ pos 80
unfolding reconcile_actual_usage get_payment_debt to_lower trim_space ai_peer.Base.lookup
    set_payment_debt ai_peer.Base.sub64 ai_peer.Base.wrap64 ◌-ℤ◌ ai_peer.Base.add64 ◌+ℤ◌
    compute_actual_due ai_peer.Node.Payment.node_amount ai_peer.Gateway.Pricing.price_of
    ai_peer.Base.mul64 ai_peer.Base.◌*ℤ◌ ai_peer.Base.insert
owed = refl

reconcile_actual_usage_lem_example :
    get_payment_debt "0xabc" (reconcile_actual_usage (some session) (pos 1000) []) ≡ (
      if same_payer session.payer "0xabc"
      then at_least (pos 0) (pos 7 +ℤ pos (cost 100 1 1000) -ℤ pos 27)
      else get_payment_debt "0xabc" [])
unfolding trim_space to_lower ◌+ℤ◌ ◌-ℤ◌
reconcile_actual_usage_lem_example =
    reconcile_actual_usage_lem session 99 1 1000 "0xabc" [] (nonempty _ refl) (nonempty _ refl) refl
      refl (omega arith) (ground arith) (ground arith)

-- A letter that is not of ASCII has a lower case too.
accented : same_payer "É" "é" ≡ true
unfolding trim_space to_lower
accented = refl

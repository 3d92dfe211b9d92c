-- ===== src/Dataplane/Prepaid/History.antt =====
-- Histories of billing calls, each with its own refused statements.
use ai_peer.Dataplane.Prepaid.Crediting.{credit-Move, topup-Move}
use ai_peer.Dataplane.Prepaid.Settling.{finalize-Move}
use ai_peer.Dataplane.Prepaid.{
  reserve_prepaid_balance, finalize_prepaid_charge, credit_consumer_balance,
  record_x402_prepaid_topup, charge_of,
}
use ai_peer.Dataplane.Prepaid.Books.{
  Solvent, IsBalanced, Covered, explained_entry, charge_lem, explained_settle,
}
use ai_peer.Dataplane.Faults.{Agrees, is_err}
use ai_peer.Dataplane.Prepaid.Faults.{billing_is_atomic}
use ai_peer.Dataplane.Tables.{Tables, Result, Amount}
use ai_peer.Dataplane.Prepaid.Moves.{
  keep, balance_of, NotTaking, Move, reserve-Move, same_tables, reserve, close, credit,
}
use ai_peer.Base.{
  String, List, ℤ, Every, pos, Bool, All, ◌≤ℤ◌, ◌∷◌, ◌+ℤ◌, [], Option-cases, Bool-cases, true,
  false, ◌-ℤ◌, neg, lookup, int_laws, inl, arith, inr, ◌≡◌, Every-lookup, Every-insert,
}

stays_solvent :
    (b reserved charge : ℤ) → pos 0 ≤ℤ b → charge ≤ℤ reserved → pos 0 ≤ℤ b +ℤ reserved -ℤ charge
stays_solvent b reserved charge p h = grind int_laws

balance_solvent : (c : String) (t : Tables) → Every Solvent t.balances → pos 0 ≤ℤ balance_of c t
unfolding balance_of
balance_solvent c t h = elim (Option-cases (lookup c t.balances)) [
  | inl e ↦ rw e (ground arith)
  | inr (b, e) ↦ rw e (Every-lookup Solvent c b t.balances e h)
]

Move-IsBalanced : (t t' : Tables) → Move t t' → IsBalanced t → IsBalanced t'
Move-IsBalanced t t' (keep e f g) v = record {
  covered = rw f v.covered;
  solvent = rw e v.solvent;
  explained = λ c. unfold balance_of in rw (e, g) (v.explained c);
}
Move-IsBalanced t t' (reserve c r amount b p bal le free e f g) v = record {
  covered = rw f (Every-insert Covered r _ t.reservations (ground arith) v.covered);
  solvent = rw e (Every-insert Solvent c _ t.balances (grind int_laws) v.solvent);
  explained = λ j.
      unfold balance_of in
      rw (e, g) (explained_entry c "reserve" _ j (neg amount) (b -ℤ amount) t (v.explained j));
}
Move-IsBalanced t t' (close c r row b actual success res own held bal e f g) v =
    let backed : pos 0 ≤ℤ row.reserved_usdc =
      Every-lookup Covered r row t.reservations res v.covered in
    let funded : pos 0 ≤ℤ b = Every-lookup Solvent c b t.balances bal v.solvent in
    let (low, high) = charge_lem row.reserved_usdc actual success backed in
    record {
      covered = rw f (Every-insert Covered r _ t.reservations backed v.covered);
      solvent = rw e (
          Every-insert Solvent c _ t.balances
            (stays_solvent b row.reserved_usdc (charge_of row.reserved_usdc actual success) funded
              high)
            v.solvent);
      explained = λ j.
          unfold balance_of in
          rw (e, g)
            (explained_settle c r j row b (charge_of row.reserved_usdc actual success) t low
              (v.explained j));
    }
Move-IsBalanced t t' (credit c ref amount p e f g) v = record {
  covered = rw f v.covered;
  solvent = rw e (
      Every-insert Solvent c _ t.balances (p (balance_of c t) (balance_solvent c t v.solvent))
        v.solvent);
  explained = λ j.
      unfold balance_of in
      rw (e, g)
        (explained_entry c "credit" ref j amount.kept (amount.kept_sum (balance_of c t)) t
          (v.explained j));
}

pub data Call : Type 0 where
  reserve_call : (consumer request : String) (amount : ℤ) → Call
  finalize_call : (consumer request : String) (actual : ℤ) (success : Bool) → Call
  credit_call : (consumer : String) (amount : Amount) (reference : String) → Call
  topup_call : (consumer fingerprint : String) (amount : Amount) → Call

unfoldable pub step : (String → Bool) × Call → Tables → Tables
step (fails, reserve_call c r amount) t = (reserve_prepaid_balance fails c r amount t).0
step (fails, finalize_call c r actual success) t =
    (finalize_prepaid_charge fails c r actual success t).0
step (fails, credit_call c amount reference) t =
    (credit_consumer_balance fails c amount reference t).0
step (fails, topup_call c fingerprint amount) t =
    (record_x402_prepaid_topup fails c fingerprint amount t).0

unfoldable pub run : List ((String → Bool) × Call) → Tables → Tables
run [] t = t
run (c ∷ cs) t = run cs (step c t)

-- What is credited takes nothing away.
abbrev pub NonNegative : (String → Bool) × Call → Type 0
NonNegative (fails, reserve_call c r amount) = Unit
NonNegative (fails, finalize_call c r actual success) = Unit
NonNegative (fails, credit_call c amount reference) = NotTaking amount
NonNegative (fails, topup_call c fingerprint amount) = NotTaking amount

Agrees-Move :
    {A : Type 0} (t : Tables) (x y : Tables × Result A) → Agrees t x y → Move t y.0 → Move t x.0
Agrees-Move t x y (on_err, on_ok) m = elim (Bool-cases (is_err x.1)) [
  | inl e ↦ same_tables (on_err e)
  | inr e ↦ let q : x ≡ y = on_ok e in rw q m
]

-- Stands where the call has no such amount.
abbrev none_given : Amount
none_given = record { is_positive = false; atomic = pos 0; kept = pos 0; kept_sum = λ b. b }

step-Move : (c : (String → Bool) × Call) (t : Tables) → NonNegative c → Move t (step c t)
unfolding step
step-Move (fails, reserve_call c r amount) t p =
    Agrees-Move t _ _ (billing_is_atomic fails c r "" amount none_given true t).0
      (reserve-Move c r amount t)
step-Move (fails, finalize_call c r actual success) t p =
    Agrees-Move t _ _ (billing_is_atomic fails c r "" actual none_given success t).1
      (finalize-Move c r actual success t)
step-Move (fails, credit_call c amount reference) t p =
    Agrees-Move t _ _ (billing_is_atomic fails c "" reference (pos 0) amount true t).2
      (credit-Move c amount reference t p)
step-Move (fails, topup_call c fingerprint amount) t p =
    Agrees-Move t _ _ (billing_is_atomic fails c fingerprint "" (pos 0) amount true t).3
      (topup-Move c fingerprint amount t p)

-- From balanced books, any history of reservations, finalizations, top-ups and credits, of amounts that
-- take no balance below zero, and whatever statements are refused in each call, leaves balanced books:
-- every balance is what its consumer's newest ledger entry states, and neither a balance nor a
-- reservation is below zero.
pub run-IsBalanced :
    (cs : List ((String → Bool) × Call)) (t : Tables)
    → All NonNegative cs
    → IsBalanced t
    → IsBalanced (run cs t)
unfolding run
run-IsBalanced [] t h v = v
run-IsBalanced (c ∷ cs) t (p, h) v =
    run-IsBalanced cs (step c t) h (Move-IsBalanced t (step c t) (step-Move c t p) v)

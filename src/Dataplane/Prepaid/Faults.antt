-- ===== src/Dataplane/Prepaid/Faults.antt =====
-- The billing calls under faults.
use ai_peer.Base.{
  not, Bool, String, ℤ, ltb_ℤ, pos, ◌==◌, not, ◌||◌, string_eq, leb_ℤ, Bool-cases, inl, inr,
  trim_space, refl,
}
use ai_peer.Base.{none, some}
use ai_peer.Dataplane.Faults.{
  never, SubM, Sub-bind, Sub-refl, Sub-choice, Sub-statement, Agrees, transaction-Agrees,
}
use ai_peer.Dataplane.Tables.{Amount, Tables, Reservation}
use ai_peer.Dataplane.Prepaid.{
  repeat_reserve, take_reserve, credit_body, debit_entry, repeat_topup, finalize_found,
  reserve_body, first_topup, finalize_body, add_credit, fresh_reserve, topup_body, settle,
  is_closed, reserve_prepaid_balance, finalize_prepaid_charge, credit_consumer_balance,
  record_x402_prepaid_topup,
}

module _ (fails : String → Bool) where
  repeat_reserve-Sub :
      (c : String) (found : Reservation)
      → SubM (repeat_reserve fails c found) (repeat_reserve never c found)
  unfolding repeat_reserve
  repeat_reserve-Sub c found =
      Sub-bind (Sub-statement fails _ _)
        (λ balance. Sub-bind (Sub-statement fails _ _) (λ _. Sub-refl _))

  take_reserve-Sub :
      (c r : String) (reserve current : ℤ)
      → SubM (take_reserve fails c r reserve current) (take_reserve never c r reserve current)
  unfolding take_reserve
  take_reserve-Sub c r reserve current = search (Sub-bind, Sub-statement, Sub-refl) depth 12

  fresh_reserve-Sub :
      (c r : String) (reserve : ℤ)
      → SubM (fresh_reserve fails c r reserve) (fresh_reserve never c r reserve)
  unfolding fresh_reserve
  fresh_reserve-Sub c r reserve = Sub-bind (Sub-statement fails _ _) (λ _.
      Sub-bind (Sub-statement fails _ _) (λ current.
        Sub-choice (ltb_ℤ current reserve) (Sub-refl _) (take_reserve-Sub c r reserve current)))

  reserve_body-Sub :
      (c r : String) (reserve : ℤ)
      → SubM (reserve_body fails c r reserve) (reserve_body never c r reserve)
  unfolding reserve_body
  reserve_body-Sub c r reserve = Sub-bind (Sub-statement fails _ _) (λ _.
      Sub-bind (Sub-statement fails _ _)
        (elim [ none ↦ fresh_reserve-Sub c r reserve | some found ↦ repeat_reserve-Sub c found ]))

  debit_entry-Sub :
      (c r : String) (charge after : ℤ)
      → SubM (debit_entry fails c r charge after) (debit_entry never c r charge after)
  unfolding debit_entry
  debit_entry-Sub c r charge after =
      Sub-choice (ltb_ℤ (pos 0) charge) (Sub-statement fails _ _) (Sub-refl _)

  settle-Sub :
      (c r : String) (found : Reservation) (current charge : ℤ)
      → SubM (settle fails c r found current charge) (settle never c r found current charge)
  unfolding settle
  settle-Sub c r found current charge =
      search (Sub-bind, Sub-statement, Sub-refl, debit_entry-Sub) depth 14

  finalize_found-Sub :
      (c r : String) (actual : ℤ) (success : Bool) (found : Reservation)
      → SubM
          (finalize_found fails c r actual success found)
          (finalize_found never c r actual success found)
  unfolding finalize_found
  finalize_found-Sub c r actual success found = Sub-bind (Sub-statement fails _ _) (λ current.
      Sub-choice (is_closed found) (Sub-bind (Sub-statement fails _ _) (λ _. Sub-refl _)) (
        Sub-choice (not (found.status == "reserved")) (Sub-refl _)
          (settle-Sub c r found current _)))

  finalize_body-Sub :
      (c r : String) (actual : ℤ) (success : Bool)
      → SubM (finalize_body fails c r actual success) (finalize_body never c r actual success)
  unfolding finalize_body
  finalize_body-Sub c r actual success = Sub-bind (Sub-statement fails _ _) (λ _.
      Sub-bind (Sub-statement fails _ _)
        (elim [ none ↦ Sub-refl _ | some found ↦ finalize_found-Sub c r actual success found ]))

  add_credit-Sub :
      (update entry c : String) (amount : Amount) (reference : String)
      → SubM
          (add_credit fails update entry c amount reference)
          (add_credit never update entry c amount reference)
  unfolding add_credit
  add_credit-Sub update entry c amount reference =
      search (Sub-bind, Sub-statement, Sub-refl) depth 12

  credit_body-Sub :
      (c : String) (amount : Amount) (reference : String)
      → SubM (credit_body fails c amount reference) (credit_body never c amount reference)
  unfolding credit_body
  credit_body-Sub c amount reference =
      search (Sub-bind, Sub-statement, Sub-refl, add_credit-Sub) depth 12

  first_topup-Sub :
      (c fingerprint : String) (amount : Amount)
      → SubM (first_topup fails c fingerprint amount) (first_topup never c fingerprint amount)
  unfolding first_topup
  first_topup-Sub c fingerprint amount =
      search (Sub-bind, Sub-statement, Sub-refl, add_credit-Sub) depth 12

  repeat_topup-Sub : (c : String) → SubM (repeat_topup fails c) (repeat_topup never c)
  unfolding repeat_topup
  repeat_topup-Sub c = search (Sub-bind, Sub-statement, Sub-refl) depth 12

  topup_body-Sub :
      (c fingerprint : String) (amount : Amount)
      → SubM (topup_body fails c fingerprint amount) (topup_body never c fingerprint amount)
  unfolding topup_body
  topup_body-Sub c fingerprint amount = Sub-bind (Sub-statement fails _ _) (λ _.
      Sub-choice (c == "" || fingerprint == "" || not amount.is_positive) (Sub-refl _) (
        Sub-bind (Sub-statement fails _ _) (λ _.
          Sub-bind (Sub-statement fails _ _) (λ added.
            Sub-choice added (first_topup-Sub c fingerprint amount) (repeat_topup-Sub c)))))

-- Whatever statements are refused, each of the four billing calls either reports an error and leaves
-- every table as it was, or changes the tables and answers exactly as in a run where none is refused.
pub billing_is_atomic :
    (fails : String → Bool) (c r reference : String) (amount : ℤ) (given : Amount) (success : Bool)
    (t : Tables)
    → Agrees t
        (reserve_prepaid_balance fails c r amount t)
        (reserve_prepaid_balance never c r amount t)
      × Agrees t
          (finalize_prepaid_charge fails c r amount success t)
          (finalize_prepaid_charge never c r amount success t)
      × Agrees t
          (credit_consumer_balance fails c given reference t)
          (credit_consumer_balance never c given reference t)
      × Agrees t
          (record_x402_prepaid_topup fails c r given t)
          (record_x402_prepaid_topup never c r given t)
unfolding reserve_prepaid_balance finalize_prepaid_charge credit_consumer_balance
    record_x402_prepaid_topup
billing_is_atomic fails c r reference amount given success t = (
  elim (Bool-cases (leb_ℤ amount (pos 0))) [
    | inl e ↦ rw e (λ _. refl, λ _. refl)
    | inr e ↦ rw e (transaction-Agrees t _ _ (reserve_body-Sub fails c r amount t))
  ],
  transaction-Agrees t _ _ (finalize_body-Sub fails c r amount success t),
  transaction-Agrees t _ _ (credit_body-Sub fails c given reference t),
  transaction-Agrees t _ _ (topup_body-Sub fails (trim_space c) (trim_space r) given t),
)

-- ===== src/Dataplane/Prepaid/Moves.antt =====
-- What the billing calls do to the books, as moves of an abstract account machine.
use text.Mathlib.TextEquality.{eq_iff}
use ai_peer.Dataplane.Faults.{never}
use ai_peer.Base.{
  Option, ◌≡◌, String, ℤ, lookup, if◌then◌else◌, List, pos, ◌<ℤ◌, some, ltb_ℤ, neg, ◌≤ℤ◌, none,
  insert, str_append, ◌-ℤ◌, ◌∷◌, ◌+ℤ◌, lookup-insert, is_some, refl, true, false, arith, Bool, ap,
  Option-cases, inl, inr, Bool-cases, leb_ℤ, ◌==◌, string_eq,
}
use ai_peer.Dataplane.Tables.{
  Amount, Tables, Reservation, LedgerEntry, ◌>>=◌, statement, done, failed, finish,
}
use ai_peer.Dataplane.Prepaid.{
  fresh_reserve, take_reserve, charge_of, reserve_prepaid_balance, repeat_reserve, reserve_body,
}

-- A missing row is an empty account.
abbrev pub or_zero : Option ℤ → ℤ
or_zero none = pos 0
or_zero (some b) = b

unfoldable pub balance_of : String → Tables → ℤ
balance_of c t = or_zero (lookup c t.balances)

abbrev pub reserve_row : String → ℤ → Reservation
reserve_row c amount = record {
  consumer_id = c;
  reserved_usdc = amount;
  charged_usdc = pos 0;
  status = "reserved";
}

abbrev pub final_status : ℤ → String
final_status charge = if ltb_ℤ (pos 0) charge then "finalized" else "released"

abbrev pub entry : String → String → ℤ → String → ℤ → LedgerEntry
entry c kind amount reference after = record {
  consumer_id = c;
  entry_type = kind;
  amount_usdc = amount;
  reference = reference;
  balance_after = after;
}

abbrev pub settled : Reservation → ℤ → Reservation
settled row charge = record row { status = final_status charge; charged_usdc = charge }

-- The release of the reservation, and the charge if there is one.
abbrev pub settlement : String → String → Reservation → ℤ → ℤ → List LedgerEntry → List LedgerEntry
settlement c r row b charge ledger =
    let released = b +ℤ row.reserved_usdc in
    let rest = entry c "release" row.reserved_usdc (str_append "release:" r) released ∷ ledger in
    if ltb_ℤ (pos 0) charge
    then entry c "debit" (neg charge) (str_append "debit:" r) (released -ℤ charge) ∷ rest
    else rest

-- Added to a balance that is not below zero, the amount does not take it there.
abbrev pub NotTaking : Amount → Type 0
NotTaking amount = (b : ℤ) → pos 0 ≤ℤ b → pos 0 ≤ℤ amount.kept_sum b

-- The books of `t'` against those of `t`.
pub data Move (t t' : Tables) : Type 0 where
  keep :
      t'.balances ≡ t.balances → t'.reservations ≡ t.reservations → t'.ledger ≡ t.ledger → Move t t'
  -- An amount that the account covers goes from the balance into a new reservation.
  reserve :
      (c r : String) (amount b : ℤ)
      → pos 0 <ℤ amount
      → lookup c t.balances ≡ some b
      → amount ≤ℤ b
      → lookup r t.reservations ≡ none
      → t'.balances ≡ insert c (b -ℤ amount) t.balances
      → t'.reservations ≡ insert r (reserve_row c amount) t.reservations
      → t'.ledger
        ≡ entry c "reserve" (neg amount) (str_append "reserve:" r) (b -ℤ amount) ∷ t.ledger
      → Move t t'
  -- An open reservation goes back into the balance, less a charge that it covers.
  close :
      (c r : String) (row : Reservation) (b actual : ℤ) (success : Bool)
      → lookup r t.reservations ≡ some row
      → row.consumer_id ≡ c
      → row.status ≡ "reserved"
      → lookup c t.balances ≡ some b
      → t'.balances
        ≡ insert c (b +ℤ row.reserved_usdc -ℤ charge_of row.reserved_usdc actual success) t.balances
      → t'.reservations
        ≡ insert r (settled row (charge_of row.reserved_usdc actual success)) t.reservations
      → t'.ledger ≡ settlement c r row b (charge_of row.reserved_usdc actual success) t.ledger
      → Move t t'
  -- Money comes in.
  credit :
      (c reference : String) (amount : Amount)
      → NotTaking amount
      → t'.balances ≡ insert c (amount.kept_sum (balance_of c t)) t.balances
      → t'.reservations ≡ t.reservations
      → t'.ledger
        ≡ entry c "credit" amount.kept reference (amount.kept_sum (balance_of c t)) ∷ t.ledger
      → Move t t'

pub same_tables : {t t' : Tables} → t' ≡ t → Move t t'
same_tables e = keep (ap (λ u. u.balances) e) (ap (λ u. u.reservations) e) (ap (λ u. u.ledger) e)

unfoldable pub reserved_tables : String → String → ℤ → ℤ → Tables → Tables
reserved_tables c r amount b t = record t {
  balances = insert c (b -ℤ amount) t.balances;
  reservations = insert r (reserve_row c amount) t.reservations;
  ledger = entry c "reserve" (neg amount) (str_append "reserve:" r) (b -ℤ amount) ∷ t.ledger;
}

pub fresh_take :
    (c r : String) (amount b : ℤ) (t : Tables)
    → lookup c t.balances ≡ some b
    → ltb_ℤ b amount ≡ false
    → is_some (lookup c t.consumers) ≡ true
    → lookup r t.reservations ≡ none
    → fresh_reserve never c r amount t
      ≡ done
          (record { approved = true; reserved_usdc = amount; balance_after = b -ℤ amount }, true)
          (reserved_tables c r amount b t)
unfolding ◌>>=◌ statement fresh_reserve take_reserve reserved_tables
fresh_take c r amount b t e s k free = ground arith

fresh_deny :
    (c r : String) (amount b : ℤ) (t : Tables)
    → lookup c t.balances ≡ some b
    → ltb_ℤ b amount ≡ true
    → fresh_reserve never c r amount t
      ≡ done (record { approved = false; reserved_usdc = amount; balance_after = b }, false) t
unfolding ◌>>=◌ statement fresh_reserve take_reserve
fresh_deny c r amount b t e s = ground arith

fresh_refused :
    (c r : String) (amount b : ℤ) (t : Tables)
    → lookup c t.balances ≡ some b
    → ltb_ℤ b amount ≡ false
    → is_some (lookup c t.consumers) ≡ false
    → (message : String) × (fresh_reserve never c r amount t ≡ failed message)
unfolding ◌>>=◌ statement fresh_reserve take_reserve
fresh_refused c r amount b t e s k = ("insert reserve ledger entry", ground arith)

fresh_missing :
    (c r : String) (amount : ℤ) (t : Tables)
    → pos 0 <ℤ amount
    → lookup c t.balances ≡ none
    → (finish t (fresh_reserve never c r amount t)).0 ≡ t
unfolding ◌>>=◌ statement fresh_reserve take_reserve
fresh_missing c r amount t p e = ground (arith, lookup-insert c c (pos 0) t.balances, eq_iff c c)

fresh_reserve-Move :
    (c r : String) (amount : ℤ) (t : Tables)
    → pos 0 <ℤ amount
    → lookup r t.reservations ≡ none
    → Move t (finish t (fresh_reserve never c r amount t)).0
fresh_reserve-Move c r amount t p free = elim (Option-cases (lookup c t.balances)) [
  | inl e ↦ same_tables (fresh_missing c r amount t p e)
  | inr (b, e) ↦ elim (Bool-cases (ltb_ℤ b amount)) [
    | inl s ↦ rw (fresh_deny c r amount b t e s) (keep refl refl refl)
    | inr s ↦ elim (Bool-cases (is_some (lookup c t.consumers))) [
      | inl k ↦
          rw (fresh_take c r amount b t e s k free)
            (unfold reserved_tables in reserve c r amount b p e (ground arith) free refl refl refl)
      | inr k ↦ rw ((fresh_refused c r amount b t e s k).1) (keep refl refl refl)
    ]
  ]
]

repeat_reserve-keeps :
    (c : String) (found : Reservation) (t : Tables)
    → (finish t (repeat_reserve never c found t)).0 ≡ t
unfolding ◌>>=◌ statement repeat_reserve
repeat_reserve-keeps c found t = elim (Option-cases (lookup c t.balances)) [
  | inl e ↦ ground arith
  | inr (b, e) ↦ ground arith
]

-- The request id belongs to another consumer's reservation.
fresh_taken :
    (c r : String) (amount : ℤ) (row : Reservation) (t : Tables)
    → pos 0 <ℤ amount
    → lookup r t.reservations ≡ some row
    → (finish t (fresh_reserve never c r amount t)).0 ≡ t
unfolding ◌>>=◌ statement fresh_reserve take_reserve
fresh_taken c r amount row t p taken = elim (Option-cases (lookup c t.balances)) [
  | inl e ↦ fresh_missing c r amount t p e
  | inr (b, e) ↦ elim (Bool-cases (ltb_ℤ b amount)) [
    | inl s ↦ ground arith
    | inr s ↦ elim (Bool-cases (is_some (lookup c t.consumers))) [
      | inl k ↦ ground arith
      | inr k ↦ ground arith
    ]
  ]
]

pub reserve_body-free :
    (c r : String) (amount : ℤ) (t : Tables)
    → lookup r t.reservations ≡ none
    → reserve_body never c r amount t ≡ fresh_reserve never c r amount t
unfolding ◌>>=◌ statement reserve_body
reserve_body-free c r amount t e = ground arith

pub reserve_body-own :
    (c r : String) (amount : ℤ) (row : Reservation) (t : Tables)
    → lookup r t.reservations ≡ some row
    → row.consumer_id ≡ c
    → reserve_body never c r amount t ≡ repeat_reserve never c row t
unfolding ◌>>=◌ statement reserve_body
reserve_body-own c r amount row t e own = ground (arith, eq_iff row.consumer_id c)

reserve_body-other :
    (c r : String) (amount : ℤ) (row : Reservation) (t : Tables)
    → lookup r t.reservations ≡ some row
    → (row.consumer_id == c) ≡ false
    → reserve_body never c r amount t ≡ fresh_reserve never c r amount t
unfolding ◌>>=◌ statement reserve_body
reserve_body-other c r amount row t e own = ground arith

reserve_body-Move :
    (c r : String) (amount : ℤ) (t : Tables)
    → pos 0 <ℤ amount
    → Move t (finish t (reserve_body never c r amount t)).0
reserve_body-Move c r amount t p = elim (Option-cases (lookup r t.reservations)) [
  | inl e ↦ rw (reserve_body-free c r amount t e) (fresh_reserve-Move c r amount t p e)
  | inr (row, e) ↦ elim (Bool-cases (row.consumer_id == c)) [
    | inl own ↦
        rw (reserve_body-own c r amount row t e ((eq_iff row.consumer_id c).0 own))
          (same_tables (repeat_reserve-keeps c row t))
    | inr own ↦
        rw (reserve_body-other c r amount row t e own)
          (same_tables (fresh_taken c r amount row t p e))
  ]
]

pub reserve-Move :
    (c r : String) (amount : ℤ) (t : Tables) → Move t (reserve_prepaid_balance never c r amount t).0
unfolding reserve_prepaid_balance
reserve-Move c r amount t = elim (Bool-cases (leb_ℤ amount (pos 0))) [
  | inl e ↦ rw e (keep refl refl refl)
  | inr e ↦ rw e (reserve_body-Move c r amount t (ground arith))
]

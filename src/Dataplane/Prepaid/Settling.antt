-- ===== src/Dataplane/Prepaid/Settling.antt =====
-- What `FinalizePrepaidCharge` does to the books.
use text.Mathlib.TextEquality.{eq_iff}
use ai_peer.Dataplane.Faults.{never}
use ai_peer.Dataplane.Prepaid.Moves.{Move, settled, same_tables, settlement, close}
use ai_peer.Dataplane.Prepaid.{
  finalize_prepaid_charge, settle, finalize_body, finalize_found, debit_entry, is_closed, charge_of,
}
use ai_peer.Base.{
  String, ℤ, Bool, lookup, insert, ◌≡◌, ◌+ℤ◌, none, Option-cases, ◌-ℤ◌, some, arith, ◌==◌, inl,
  is_some, true, false, string_eq, Bool-cases, inr, ltb_ℤ, refl, pos,
}
use ai_peer.Dataplane.Tables.{◌>>=◌, Reservation, statement, Tables, finish, done}

unfoldable pub settled_tables : String → String → Reservation → ℤ → ℤ → Tables → Tables
settled_tables c r row b charge t = record t {
  balances = insert c (b +ℤ row.reserved_usdc -ℤ charge) t.balances;
  reservations = insert r (settled row charge) t.reservations;
  ledger = settlement c r row b charge t.ledger;
}

pub settle_lem :
    (c r : String) (row : Reservation) (b charge : ℤ) (t : Tables)
    → lookup r t.reservations ≡ some row
    → row.consumer_id ≡ c
    → lookup c t.balances ≡ some b
    → is_some (lookup c t.consumers) ≡ true
    → settle never c r row b charge t
      ≡ done (b +ℤ row.reserved_usdc -ℤ charge, true) (settled_tables c r row b charge t)
unfolding ◌>>=◌ statement settle debit_entry settled_tables
settle_lem c r row b charge t e own bal k = elim (Bool-cases (ltb_ℤ (pos 0) charge)) [
  | inl s ↦ ground (arith, eq_iff row.consumer_id c)
  | inr s ↦ ground (arith, eq_iff row.consumer_id c)
]

settle_refused :
    (c r : String) (row : Reservation) (b charge : ℤ) (t : Tables)
    → lookup c t.balances ≡ some b
    → is_some (lookup c t.consumers) ≡ false
    → (finish t (settle never c r row b charge t)).0 ≡ t
unfolding ◌>>=◌ statement settle debit_entry
settle_refused c r row b charge t bal k = ground arith

finalize_missing :
    (c r : String) (actual : ℤ) (success : Bool) (row : Reservation) (t : Tables)
    → lookup c t.balances ≡ none
    → (finish t (finalize_found never c r actual success row t)).0 ≡ t
unfolding ◌>>=◌ statement finalize_found
finalize_missing c r actual success row t e = ground arith

finalize_closed :
    (c r : String) (actual : ℤ) (success : Bool) (row : Reservation) (b : ℤ) (t : Tables)
    → lookup c t.balances ≡ some b
    → is_closed row ≡ true
    → (finish t (finalize_found never c r actual success row t)).0 ≡ t
unfolding ◌>>=◌ statement finalize_found
finalize_closed c r actual success row b t e s = ground arith

finalize_invalid :
    (c r : String) (actual : ℤ) (success : Bool) (row : Reservation) (b : ℤ) (t : Tables)
    → lookup c t.balances ≡ some b
    → is_closed row ≡ false
    → (row.status == "reserved") ≡ false
    → (finish t (finalize_found never c r actual success row t)).0 ≡ t
unfolding ◌>>=◌ statement finalize_found
finalize_invalid c r actual success row b t e s held = ground arith

pub finalize_open :
    (c r : String) (actual : ℤ) (success : Bool) (row : Reservation) (b : ℤ) (t : Tables)
    → lookup c t.balances ≡ some b
    → is_closed row ≡ false
    → (row.status == "reserved") ≡ true
    → finalize_found never c r actual success row t
      ≡ settle never c r row b (charge_of row.reserved_usdc actual success) t
unfolding ◌>>=◌ statement finalize_found
finalize_open c r actual success row b t e s held = ground arith

finalize_unknown :
    (c r : String) (actual : ℤ) (success : Bool) (t : Tables)
    → lookup r t.reservations ≡ none
    → (finalize_prepaid_charge never c r actual success t).0 ≡ t
unfolding ◌>>=◌ statement finalize_prepaid_charge finalize_body
finalize_unknown c r actual success t e = ground arith

finalize_other :
    (c r : String) (actual : ℤ) (success : Bool) (row : Reservation) (t : Tables)
    → lookup r t.reservations ≡ some row
    → (row.consumer_id == c) ≡ false
    → (finalize_prepaid_charge never c r actual success t).0 ≡ t
unfolding ◌>>=◌ statement finalize_prepaid_charge finalize_body
finalize_other c r actual success row t e own = ground arith

pub finalize_body_own :
    (c r : String) (actual : ℤ) (success : Bool) (row : Reservation) (t : Tables)
    → lookup r t.reservations ≡ some row
    → (row.consumer_id == c) ≡ true
    → finalize_body never c r actual success t ≡ finalize_found never c r actual success row t
unfolding ◌>>=◌ statement finalize_body
finalize_body_own c r actual success row t e own = ground arith

settle-Move :
    (c r : String) (actual : ℤ) (success : Bool) (row : Reservation) (b : ℤ) (t : Tables)
    → lookup r t.reservations ≡ some row
    → row.consumer_id ≡ c
    → row.status ≡ "reserved"
    → lookup c t.balances ≡ some b
    → Move t (finish t (settle never c r row b (charge_of row.reserved_usdc actual success) t)).0
settle-Move c r actual success row b t e own held bal =
    let charge : ℤ = charge_of row.reserved_usdc actual success in
    elim (Bool-cases (is_some (lookup c t.consumers))) [
      | inr k ↦ same_tables (settle_refused c r row b charge t bal k)
      | inl k ↦
          rw (settle_lem c r row b charge t e own bal k)
            (unfold settled_tables in close c r row b actual success e own held bal refl refl refl)
    ]

finalize_found-Move :
    (c r : String) (actual : ℤ) (success : Bool) (row : Reservation) (t : Tables)
    → lookup r t.reservations ≡ some row
    → row.consumer_id ≡ c
    → Move t (finish t (finalize_found never c r actual success row t)).0
finalize_found-Move c r actual success row t e own = elim (Option-cases (lookup c t.balances)) [
  | inl bal ↦ same_tables (finalize_missing c r actual success row t bal)
  | inr (b, bal) ↦ elim (Bool-cases (is_closed row)) [
    | inl s ↦ same_tables (finalize_closed c r actual success row b t bal s)
    | inr s ↦ elim (Bool-cases (row.status == "reserved")) [
      | inr held ↦ same_tables (finalize_invalid c r actual success row b t bal s held)
      | inl held ↦
          rw (finalize_open c r actual success row b t bal s held) (
            settle-Move c r actual success row b t e own ((eq_iff row.status "reserved").0 held)
              bal)
    ]
  ]
]

pub finalize-Move :
    (c r : String) (actual : ℤ) (success : Bool) (t : Tables)
    → Move t (finalize_prepaid_charge never c r actual success t).0
unfolding finalize_prepaid_charge
finalize-Move c r actual success t = elim (Option-cases (lookup r t.reservations)) [
  | inl e ↦ same_tables (finalize_unknown c r actual success t e)
  | inr (row, e) ↦ elim (Bool-cases (row.consumer_id == c)) [
    | inr own ↦ same_tables (finalize_other c r actual success row t e own)
    | inl own ↦
        let o : row.consumer_id ≡ c = (eq_iff row.consumer_id c).0 own in
        rw (finalize_body_own c r actual success row t e own)
          (finalize_found-Move c r actual success row t e o)
  ]
]

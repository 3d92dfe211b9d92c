-- ===== src/Dataplane/Prepaid/Once.antt =====
-- A request is reserved once and charged once, however often the gateway asks.
use ai_peer.Dataplane.Prepaid.Settling.{
  settled_tables, finalize_body_own, finalize_open, settle_lem,
}
use text.Mathlib.TextEquality.{eq_iff}
use ai_peer.Dataplane.Faults.{never}
use ai_peer.Dataplane.Prepaid.Moves.{
  reserved_tables, reserve_body-own, reserve_body-free, reserve_row, entry, fresh_take,
}
use ai_peer.Dataplane.Tables.{Reservation, ◌>>=◌, Tables, statement, ok}
use ai_peer.Base.{
  ℤ, String, ◌≤ℤ◌, pos, Bool, ◌≡◌, Map, ◌<ℤ◌, false, ltb_ℤ, lookup, refl, none, true, arith, leb_ℤ,
  some, insert, is_some, lookup-insert, ◌-ℤ◌, ◌+ℤ◌, neg, str_append, ◌∷◌,
}
use ai_peer.Dataplane.Prepaid.{
  finalize_prepaid_charge, reserve_prepaid_balance, is_closed, repeat_reserve, charge_of,
}

pub own_key : {V : Type 0} (k : String) (v : V) (m : Map V) → lookup k (insert k v m) ≡ some v
own_key k v m = rw (lookup-insert k k v m, (eq_iff k k).1 refl) refl

leb_of_positive : (amount : ℤ) → pos 0 <ℤ amount → leb_ℤ amount (pos 0) ≡ false
leb_of_positive amount p = ground arith

ltb_of_le : (b amount : ℤ) → amount ≤ℤ b → ltb_ℤ b amount ≡ false
ltb_of_le b amount p = ground arith

held_not_closed : (row : Reservation) → row.status ≡ "reserved" → is_closed row ≡ false
held_not_closed row e = rw e refl

pub first_reserve :
    (c r : String) (amount b : ℤ) (t : Tables)
    → pos 0 <ℤ amount
    → amount ≤ℤ b
    → lookup r t.reservations ≡ none
    → lookup c t.balances ≡ some b
    → is_some (lookup c t.consumers) ≡ true
    → reserve_prepaid_balance never c r amount t ≡ (
      reserved_tables c r amount b t,
      ok (record { approved = true; reserved_usdc = amount; balance_after = b -ℤ amount }),
    )
unfolding reserve_prepaid_balance
first_reserve c r amount b t p le free bal k =
    rw
      (
        leb_of_positive amount p,
        reserve_body-free c r amount t free,
        fresh_take c r amount b t bal (ltb_of_le b amount le) k free,
      )
      refl

again_reserve :
    (c r : String) (amount b : ℤ) (row : Reservation) (t : Tables)
    → pos 0 <ℤ amount
    → lookup r t.reservations ≡ some row
    → row.consumer_id ≡ c
    → row.status ≡ "reserved"
    → lookup c t.balances ≡ some b
    → reserve_prepaid_balance never c r amount t
      ≡ (t, ok (record { approved = true; reserved_usdc = row.reserved_usdc; balance_after = b }))
unfolding reserve_prepaid_balance ◌>>=◌ statement repeat_reserve
again_reserve c r amount b row t p e own held bal =
    rw (leb_of_positive amount p, reserve_body-own c r amount row t e own)
      (ground (arith, eq_iff row.status "reserved"))

-- A new request whose amount the balance covers is approved: the amount leaves the balance and is
-- held for the request, with a ledger entry. Asking again for the same request, with any positive
-- amount, is approved with the first amount and changes nothing.
pub reserve_once :
    (c r : String) (amount again b : ℤ) (t : Tables)
    → pos 0 <ℤ amount
    → pos 0 <ℤ again
    → amount ≤ℤ b
    → lookup r t.reservations ≡ none
    → lookup c t.balances ≡ some b
    → is_some (lookup c t.consumers) ≡ true
    → (reserve_prepaid_balance never c r amount t ≡ (
      reserved_tables c r amount b t,
      ok (record { approved = true; reserved_usdc = amount; balance_after = b -ℤ amount }),
    ))
      × (reserve_prepaid_balance never c r again (reserve_prepaid_balance never c r amount t).0
          ≡ reserve_prepaid_balance never c r amount t)
reserve_once c r amount again b t p q le free bal k =
    let once = first_reserve c r amount b t p le free bal k in
    (
      once,
      rw once (
          unfold reserved_tables in
          again_reserve c r again (b -ℤ amount) (reserve_row c amount)
            (record t {
              balances = insert c (b -ℤ amount) t.balances;
              reservations = insert r (reserve_row c amount) t.reservations;
              ledger =
                  entry c "reserve" (neg amount) (str_append "reserve:" r) (b -ℤ amount) ∷ t.ledger;
            })
            q (own_key r _ t.reservations) refl refl (own_key c _ t.balances)),
    )

pub first_finalize :
    (c r : String) (actual : ℤ) (success : Bool) (row : Reservation) (b : ℤ) (t : Tables)
    → lookup r t.reservations ≡ some row
    → row.consumer_id ≡ c
    → row.status ≡ "reserved"
    → lookup c t.balances ≡ some b
    → is_some (lookup c t.consumers) ≡ true
    → finalize_prepaid_charge never c r actual success t ≡ (
      settled_tables c r row b (charge_of row.reserved_usdc actual success) t,
      ok (b +ℤ row.reserved_usdc -ℤ charge_of row.reserved_usdc actual success),
    )
unfolding finalize_prepaid_charge
first_finalize c r actual success row b t e own held bal k =
    rw
      (
        finalize_body_own c r actual success row t e ((eq_iff row.consumer_id c).1 own),
        finalize_open c r actual success row b t bal (held_not_closed row held)
            ((eq_iff row.status "reserved").1 held),
        settle_lem c r row b (charge_of row.reserved_usdc actual success) t e own bal k,
      )
      refl

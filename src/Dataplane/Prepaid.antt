-- ===== src/Dataplane/Prepaid.antt =====
-- The prepaid flow of pkg/dataplane/postgres_store.go: reserve, finalize, credit, top up. Row locks
-- (FOR UPDATE) make a transaction atomic on the rows of one consumer, so a history of calls is a
-- sequence of transactions. What is reserved and charged comes from whole units of 10 ^ -6 USDC, in
-- which the float64 sums of the source are exact up to 2 ^ 53 units. What is credited is any float64.
pub mod Faults
pub mod Moves
pub mod Once
pub mod History
pub mod Books
pub mod Crediting
pub mod Settling
mod Tests
use ai_peer.Base.{
  ℤ, pos, neg, ◌+ℤ◌, ◌-ℤ◌, String, Bool, true, false, ◌||◌, not, none, some, ltb_ℤ, leb_ℤ,
  if◌then◌else◌, ◌==◌, string_eq, trim_space, str_append, lookup,
}
use ai_peer.Dataplane.Tables.{
  Amount, Balance, as_read, summed, Tables, Reservation, M, ◌>>=◌, ◌>>◌, return, fail, Result, ok,
  err, transaction, control, ensure_balance, query_current_balance, update_balance, insert_ledger,
  select_reservation, insert_reservation, update_reservation, ensure_prepaid_consumer, insert_topup,
  statement,
}

pub record ReserveResult : Type 0 where
  pub approved : Bool
  pub reserved_usdc : ℤ
  pub balance_after : ℤ

-- The charge of a finished request: nothing if it failed, and never more than was reserved.
abbrev pub charge_of : ℤ → ℤ → Bool → ℤ
charge_of reserved actual success =
    let nonneg = if ltb_ℤ actual (pos 0) then pos 0 else actual in
    let charge = if success then nonneg else pos 0 in
    if ltb_ℤ reserved charge then reserved else charge

-- The reservation was closed before.
abbrev pub is_closed : Reservation → Bool
is_closed found = found.status == "finalized" || found.status == "released"

module _ (fails : String → Bool) where
  -- The request has a reservation already: nothing is changed.
  pub repeat_reserve : String → Reservation → M (ReserveResult × Bool)
  repeat_reserve c found = do
    balance ← query_current_balance fails c
    control fails "commit reserve prepaid idempotent tx"
    return (
      record {
        approved =
            found.status == "reserved" || found.status == "finalized" || found.status == "released";
        reserved_usdc = found.reserved_usdc;
        balance_after = balance;
      },
      true,
    )

  take_reserve : String → String → ℤ → ℤ → M (ReserveResult × Bool)
  take_reserve c r reserve current =
      let after = current -ℤ reserve in
      do
        update_balance fails "update consumer balance after reserve" c after
        insert_ledger fails "insert reserve ledger entry" (record {
          consumer_id = c;
          entry_type = "reserve";
          amount_usdc = neg reserve;
          reference = str_append "reserve:" r;
          balance_after = after;
        })
        insert_reservation fails "insert prepaid reservation" r (record {
          consumer_id = c;
          reserved_usdc = reserve;
          charged_usdc = pos 0;
          status = "reserved";
        })
        control fails "commit reserve prepaid tx"
        return (record { approved = true; reserved_usdc = reserve; balance_after = after }, true)

  -- A balance that is too small is an answer and no error; the transaction rolls back.
  pub fresh_reserve : String → String → ℤ → M (ReserveResult × Bool)
  fresh_reserve c r reserve = do
    ensure_balance fails "ensure consumer balance row" c
    current ← query_current_balance fails c
    if ltb_ℤ current reserve
        then return
            (record { approved = false; reserved_usdc = reserve; balance_after = current }, false)
        else take_reserve c r reserve current

  pub reserve_body : String → String → ℤ → M (ReserveResult × Bool)
  reserve_body c r reserve = do
    control fails "begin reserve prepaid tx"
    existing ← select_reservation fails "lookup prepaid reservation" c r
    elim existing [ none ↦ fresh_reserve c r reserve | some found ↦ repeat_reserve c found ]

  unfoldable pub reserve_prepaid_balance :
      String → String → ℤ → Tables → Tables × Result ReserveResult
  unfolding ◌>>=◌ statement repeat_reserve take_reserve fresh_reserve reserve_body
  reserve_prepaid_balance c r reserve t =
      if leb_ℤ reserve (pos 0)
      then (t, err "reserve amount must be > 0")
      else transaction (reserve_body c r reserve) t

  debit_entry : String → String → ℤ → ℤ → M (Unit {0})
  debit_entry c r charge after =
      if ltb_ℤ (pos 0) charge
      then insert_ledger fails "insert debit ledger entry" (record {
        consumer_id = c;
        entry_type = "debit";
        amount_usdc = neg charge;
        reference = str_append "debit:" r;
        balance_after = after;
      })
      else return tt

  pub settle : String → String → Reservation → ℤ → ℤ → M (ℤ × Bool)
  settle c r found current charge =
      let released = current +ℤ found.reserved_usdc in
      let after = released -ℤ charge in
      do
        update_balance fails "update consumer balance after finalize" c after
        insert_ledger fails "insert release ledger entry" (record {
          consumer_id = c;
          entry_type = "release";
          amount_usdc = found.reserved_usdc;
          reference = str_append "release:" r;
          balance_after = released;
        })
        debit_entry c r charge after
        update_reservation fails "update prepaid reservation finalize state" c r
            (if ltb_ℤ (pos 0) charge then "finalized" else "released") charge
        control fails "commit finalize prepaid tx"
        return (after, true)

  pub finalize_found : String → String → ℤ → Bool → Reservation → M (ℤ × Bool)
  finalize_found c r actual success found = do
    current ← query_current_balance fails c
    if is_closed found
        then (control fails "commit finalize prepaid idempotent tx" >> return (current, true))
        else if not (found.status == "reserved")
        then fail "invalid reservation status"
        else settle c r found current (charge_of found.reserved_usdc actual success)

  pub finalize_body : String → String → ℤ → Bool → M (ℤ × Bool)
  finalize_body c r actual success = do
    control fails "begin finalize prepaid tx"
    existing ← select_reservation fails "load prepaid reservation" c r
    elim existing [
      | none ↦ fail "prepaid reservation not found"
      | some found ↦ finalize_found c r actual success found
    ]

  unfoldable pub finalize_prepaid_charge : String → String → ℤ → Bool → Tables → Tables × Result ℤ
  unfolding ◌>>=◌ statement debit_entry settle finalize_found finalize_body
  finalize_prepaid_charge c r actual success t = transaction (finalize_body c r actual success) t

  -- `balance + amount` with its ledger entry.
  add_credit : String → String → String → Amount → String → M Balance
  add_credit update entry c amount reference = do
    current ← query_current_balance fails c
    let after = amount.kept_sum current
    update_balance fails update c after
    insert_ledger fails entry (record {
      consumer_id = c;
      entry_type = "credit";
      amount_usdc = amount.kept;
      reference = reference;
      balance_after = after;
    })
    return (summed current amount)

  credit_body : String → Amount → String → M (Unit {0} × Bool)
  credit_body c amount reference = do
    control fails "begin credit balance tx"
    ensure_balance fails "ensure consumer balance row" c
    after ←
        add_credit "update consumer balance after credit" "insert credit balance ledger" c amount
          reference
    control fails "commit credit balance tx"
    return (tt, true)

  unfoldable pub credit_consumer_balance :
      String → Amount → String → Tables → Tables × Result (Unit {0})
  unfolding ◌>>=◌ statement add_credit credit_body
  credit_consumer_balance c amount reference t = transaction (credit_body c amount reference) t

  first_topup : String → String → Amount → M ((Bool × Balance) × Bool)
  first_topup c fingerprint amount = do
    ensure_balance fails "ensure consumer balance row for x402 topup" c
    after ←
        add_credit "update consumer balance after x402 topup" "insert x402 topup balance ledger" c
          amount (str_append "x402_topup:" fingerprint)
    control fails "commit x402 prepaid topup tx"
    return ((true, after), true)

  -- The payment was credited before.
  repeat_topup : String → M ((Bool × Balance) × Bool)
  repeat_topup c = do
    balance ← query_current_balance fails c
    control fails "commit x402 prepaid topup idempotent tx"
    return ((false, as_read balance), true)

  topup_body : String → String → Amount → M ((Bool × Balance) × Bool)
  topup_body c fingerprint amount = do
    control fails "begin x402 prepaid topup tx"
    if c == "" || fingerprint == "" || not amount.is_positive
        then fail "consumer_id, payment_fingerprint, and amount_usdc are required"
        else do
          ensure_prepaid_consumer fails "ensure consumer row for x402 topup" c
          added ←
              insert_topup fails "insert x402_prepaid_topups" fingerprint
                (record { consumer_id = c; amount_usdc = amount.kept })
          if added then first_topup c fingerprint amount else repeat_topup c

  unfoldable pub record_x402_prepaid_topup :
      String → String → Amount → Tables → Tables × Result (Bool × Balance)
  unfolding ◌>>=◌ statement add_credit first_topup repeat_topup topup_body
  record_x402_prepaid_topup c fingerprint amount t =
      transaction (topup_body (trim_space c) (trim_space fingerprint) amount) t

  -- A plain read, outside a transaction; a missing row reads as zero.
  unfoldable pub current_consumer_balance : String → Tables → Result ℤ
  current_consumer_balance c t =
      let id = trim_space c in
      if id == ""
      then err "consumer_id is required"
      else if fails "query consumer balance"
      then err "query consumer balance"
      else elim (lookup id t.balances) [ none ↦ ok (pos 0) | some balance ↦ ok balance ]

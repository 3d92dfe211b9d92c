-- ===== src/Dataplane/Tables.antt =====
-- The tables of db/migrations that the prepaid flow reads and writes, and the SQL statements of
-- pkg/dataplane/postgres_store.go on them, with the primary keys and foreign keys of the schema.
-- NUMERIC(20, 6) amounts are counted in units of 10 ^ -6 USDC.
use ai_peer.Gateway.Records.{UsageEvent}
use ai_peer.Base.{
  ℤ, pos, String, Bool, true, false, Option, none, some, List, ◌∷◌, Map, lookup, insert, is_some,
  if◌then◌else◌, ◌==◌, string_eq, ℕ,
}

-- A float64 amount of USDC that a client names, by what the code, the driver and the columns make of
-- it, in units of 10 ^ -6 USDC: whether it is above zero, `int64(math.Round(x * 1_000_000))`, what a
-- NUMERIC(20, 6) column keeps of it, and what it keeps of the float64 sum of a balance and it. The last
-- two are rounded apart, so that the second need not be the balance and the first.
pub record Amount : Type 0 where
  pub is_positive : Bool
  pub atomic : ℤ
  pub kept : ℤ
  pub kept_sum : ℤ → ℤ

-- A balance in an answer: as it was read, or the float64 sum of one and an amount.
pub data Balance : Type 0 where
  as_read : ℤ → Balance
  summed : ℤ → Amount → Balance

pub record Consumer : Type 0 where
  pub api_key_hash : Option String
  pub wallet_address : Option String
  pub consumer_type : String

pub record Reservation : Type 0 where
  pub consumer_id : String
  pub reserved_usdc : ℤ
  pub charged_usdc : ℤ
  pub status : String

pub record LedgerEntry : Type 0 where
  pub consumer_id : String
  pub entry_type : String
  pub amount_usdc : ℤ
  pub reference : String
  pub balance_after : ℤ

pub record Topup : Type 0 where
  pub consumer_id : String
  pub amount_usdc : ℤ

pub record KeyRow : Type 0 where
  pub consumer_id : String
  pub status : String
  pub revoked_reason : String

pub record ProviderRow : Type 0 where
  pub peer_id : String
  pub status : String
  pub last_seen_at : ℤ
  pub metadata : Map String

-- `active_to` is NULL while the wallet is active.
pub record WalletRow : Type 0 where
  pub provider_id : String
  pub wallet_address : String
  pub rotation_proof : String
  pub active_to : Option ℤ

pub record BatchRow : Type 0 where
  pub gateway_id : String
  pub batch_id : String
  pub signature : String
  pub event_count : ℕ

-- Each map has the primary key of its table for keys. The ledger and the wallet
-- history have their newest entry first.
pub record Tables : Type 0 where
  pub consumers : Map Consumer
  pub api_keys : Map KeyRow
  pub balances : Map ℤ
  pub reservations : Map Reservation
  pub ledger : List LedgerEntry
  pub topups : Map Topup
  pub providers : Map ProviderRow
  pub wallets : List WalletRow
  pub batches : List BatchRow
  pub usage : Map UsageEvent

-- A statement's error, named by the message that the source wraps it in.
pub data Outcome {ℓ} (A : Type ℓ) : Type ℓ where
  done : A → Tables → Outcome A
  failed : String → Outcome A

abbrev pub M : Type 0 → Type 0
M A = Tables → Outcome A

infixl 5 ◌>>=◌ ◌>>◌
unfoldable pub ◌>>=◌ : {A B : Type 0} → M A → (A → M B) → M B
◌>>=◌ run next t = elim (run t) [ done a t' ↦ next a t' | failed message ↦ failed message ]

abbrev pub ◌>>◌ : {B : Type 0} → M (Unit {0}) → M B → M B
◌>>◌ m k = m >>= λ _. k

abbrev pub return : {A : Type 0} → A → M A
return a t = done a t

abbrev pub fail : {A : Type 0} → String → M A
fail e t = failed e

-- What a store call gives back: the tables afterwards, and the value or the error.
pub data Result {ℓ} (A : Type ℓ) : Type ℓ where
  ok : A → Result A
  err : String → Result A

-- A transaction with its deferred rollback: the changes stay only when the body has committed,
-- which is the flag of its value.
abbrev pub finish : {A : Type 0} → Tables → Outcome (A × Bool) → Tables × Result A
finish t (done (a, committed) t') = (if committed then t' else t, ok a)
finish t (failed e) = (t, err e)

abbrev pub transaction : {A : Type 0} → M (A × Bool) → Tables → Tables × Result A
transaction body t = finish t (body t)

-- A statement outside a transaction: it is committed by itself.
abbrev pub autocommit : {A : Type 0} → M A → Tables → Tables × Result A
autocommit m t = elim (m t) [ done a t' ↦ (t', ok a) | failed e ↦ (t, err e) ]

-- A call that goes on after such a statement; what was committed before an error stays.
abbrev pub and_then :
    {A B : Type 0} → Tables × Result A → (A → Tables → Tables × Result B) → Tables × Result B
and_then (t, ok a) next = next a t
and_then (t, err e) next = (t, err e)

-- `fails` tells which statements the server or the connection refuses in this run, by message.
module _ (fails : String → Bool) where
  unfoldable pub statement : {A : Type 0} → String → M A → M A
  statement message run t = if fails message then failed message else run t

  -- `tx.Begin` and `tx.Commit`.
  abbrev pub control : String → M (Unit {0})
  control message = statement message (return tt)

  -- INSERT INTO consumer_balances ... VALUES (c, 0) ON CONFLICT DO NOTHING.
  abbrev pub ensure_balance : String → String → M (Unit {0})
  ensure_balance message c = statement message λ t.
      if is_some (lookup c t.balances)
      then done tt t
      else if is_some (lookup c t.consumers)
      then done tt (record t { balances = insert c (pos 0) t.balances })
      else failed message

  -- `queryCurrentBalanceForUpdate`.
  abbrev pub query_current_balance : String → M ℤ
  query_current_balance c = statement "query consumer balance" λ t. elim (lookup c t.balances) [
    | none ↦ failed "consumer balance row missing"
    | some balance ↦ done balance t
  ]

  abbrev pub update_balance : String → String → ℤ → M (Unit {0})
  update_balance message c balance = statement message λ t.
      if is_some (lookup c t.balances)
      then done tt (record t { balances = insert c balance t.balances })
      else done tt t

  abbrev pub insert_ledger : String → LedgerEntry → M (Unit {0})
  insert_ledger message entry = statement message λ t.
      if is_some (lookup entry.consumer_id t.consumers)
      then done tt (record t { ledger = entry ∷ t.ledger })
      else failed message

  -- SELECT ... FROM prepaid_reservations WHERE request_id = r AND consumer_id = c FOR UPDATE.
  abbrev pub select_reservation : String → String → String → M (Option Reservation)
  select_reservation message c r = statement message λ t. elim (lookup r t.reservations) [
    | none ↦ done none t
    | some found ↦ done (if found.consumer_id == c then some found else none) t
  ]

  abbrev pub insert_reservation : String → String → Reservation → M (Unit {0})
  insert_reservation message r row = statement message λ t.
      if is_some (lookup r t.reservations)
      then failed message
      else if is_some (lookup row.consumer_id t.consumers)
      then done tt (record t { reservations = insert r row t.reservations })
      else failed message

  -- UPDATE prepaid_reservations SET status, charged_usdc WHERE request_id = r AND consumer_id = c.
  abbrev pub update_reservation : String → String → String → String → ℤ → M (Unit {0})
  update_reservation message c r status charged = statement message λ t.
      elim (lookup r t.reservations) [
        | none ↦ done tt t
        | some found ↦
            if found.consumer_id == c
            then done tt (record t {
              reservations =
                  insert r (record found { status = status; charged_usdc = charged })
                    t.reservations;
            })
            else done tt t
      ]

  -- INSERT INTO consumers ... ON CONFLICT (consumer_id) DO UPDATE SET consumer_type = 'prepaid'.
  abbrev pub ensure_prepaid_consumer : String → String → M (Unit {0})
  ensure_prepaid_consumer message c = statement message λ t. elim (lookup c t.consumers) [
    | none ↦ done tt (record t {
      consumers =
          insert c
            (record { api_key_hash = none; wallet_address = none; consumer_type = "prepaid" })
            t.consumers;
    })
    | some found ↦
        done tt (record t {
          consumers = insert c (record found { consumer_type = "prepaid" }) t.consumers;
        })
  ]

  -- INSERT INTO x402_prepaid_topups ... ON CONFLICT DO NOTHING; tells whether a row was added.
  abbrev pub insert_topup : String → String → Topup → M Bool
  insert_topup message fingerprint row = statement message λ t.
      if is_some (lookup fingerprint t.topups)
      then done false t
      else if is_some (lookup row.consumer_id t.consumers)
      then done true (record t { topups = insert fingerprint row t.topups })
      else failed message

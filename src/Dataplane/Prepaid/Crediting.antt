-- ===== src/Dataplane/Prepaid/Crediting.antt =====
-- What `CreditConsumerBalance` and `RecordX402PrepaidTopup` do to the books.
use text.Mathlib.TextEquality.{eq_iff}
use ai_peer.Dataplane.Faults.{never}
use ai_peer.Dataplane.Prepaid.Moves.{NotTaking, keep, Move, balance_of, entry, credit, same_tables}
use ai_peer.Dataplane.Tables.{
  Amount, summed, statement, Tables, ◌>>=◌, Consumer, finish, Topup, done,
}
use ai_peer.Base.{
  not, Option, String, insert, is_some, Bool, some, lookup, ◌==◌, Bool-cases, trim_space, ◌≡◌, ◌||◌,
  inl, true, pos, ◌∷◌, arith, string_eq, inr, lookup-insert, Option-cases, false, str_append, none,
  refl, insert-insert,
}
use ai_peer.Dataplane.Prepaid.{
  credit_consumer_balance, record_x402_prepaid_topup, credit_body, first_topup, topup_body,
  repeat_topup, add_credit,
}

credited_tables : String → String → Amount → Tables → Tables
credited_tables c reference amount t = record t {
  balances = insert c (amount.kept_sum (balance_of c t)) t.balances;
  ledger = entry c "credit" amount.kept reference (amount.kept_sum (balance_of c t)) ∷ t.ledger;
}

credit_body-known :
    (c reference : String) (amount : Amount) (t : Tables)
    → is_some (lookup c t.consumers) ≡ true
    → credit_body never c amount reference t
      ≡ done (tt, true) (credited_tables c reference amount t)
unfolding ◌>>=◌ statement credit_body add_credit credited_tables balance_of
credit_body-known c reference amount t k = elim (Option-cases (lookup c t.balances)) [
  | inl e ↦ ground (
    arith,
    eq_iff c c,
    lookup-insert c c (pos 0) t.balances,
    insert-insert c (amount.kept_sum (pos 0)) (pos 0) t.balances,
  )
  | inr (b, e) ↦ ground arith
]

credit_body-unknown :
    (c reference : String) (amount : Amount) (t : Tables)
    → is_some (lookup c t.consumers) ≡ false
    → (finish t (credit_body never c amount reference t)).0 ≡ t
unfolding ◌>>=◌ statement credit_body add_credit
credit_body-unknown c reference amount t k = elim (Option-cases (lookup c t.balances)) [
  | inl e ↦ ground arith
  | inr (b, e) ↦ ground arith
]

pub credit-Move :
    (c : String) (amount : Amount) (reference : String) (t : Tables)
    → NotTaking amount
    → Move t (credit_consumer_balance never c amount reference t).0
unfolding credit_consumer_balance
credit-Move c amount reference t p = elim (Bool-cases (is_some (lookup c t.consumers))) [
  | inl k ↦
      rw (credit_body-known c reference amount t k)
        (unfold credited_tables in credit c reference amount p refl refl refl)
  | inr k ↦ same_tables (credit_body-unknown c reference amount t k)
]

first_topup_lem :
    (c fingerprint : String) (amount : Amount) (t : Tables)
    → is_some (lookup c t.consumers) ≡ true
    → first_topup never c fingerprint amount t
      ≡ done
          ((true, summed (balance_of c t) amount), true)
          (credited_tables c (str_append "x402_topup:" fingerprint) amount t)
unfolding ◌>>=◌ statement first_topup add_credit credited_tables balance_of
first_topup_lem c fingerprint amount t k = elim (Option-cases (lookup c t.balances)) [
  | inl e ↦ ground (
    arith,
    eq_iff c c,
    lookup-insert c c (pos 0) t.balances,
    insert-insert c (amount.kept_sum (pos 0)) (pos 0) t.balances,
  )
  | inr (b, e) ↦ ground arith
]

-- The consumer's row after a top-up.
prepaid_row : Option Consumer → Consumer
prepaid_row none = record { api_key_hash = none; wallet_address = none; consumer_type = "prepaid" }
prepaid_row (some found) = record found { consumer_type = "prepaid" }

with_consumer : String → Tables → Tables
with_consumer c t = record t {
  consumers = insert c (prepaid_row (lookup c t.consumers)) t.consumers;
}

with_topup : String → String → Amount → Tables → Tables
with_topup c fingerprint amount t = record (with_consumer c t) {
  topups = insert fingerprint (record { consumer_id = c; amount_usdc = amount.kept }) t.topups;
}

bad_topup : String → String → Amount → Bool
bad_topup c fingerprint amount = c == "" || fingerprint == "" || not amount.is_positive

topup_body-new :
    (c fingerprint : String) (amount : Amount) (t : Tables)
    → bad_topup c fingerprint amount ≡ false
    → lookup fingerprint t.topups ≡ none
    → topup_body never c fingerprint amount t
      ≡ first_topup never c fingerprint amount (with_topup c fingerprint amount t)
unfolding ◌>>=◌ statement topup_body with_topup with_consumer prepaid_row bad_topup
topup_body-new c fingerprint amount t g e = elim (Option-cases (lookup c t.consumers)) [
  | inl k ↦ ground (arith, eq_iff c c, lookup-insert c c (prepaid_row none) t.consumers)
  | inr (row, k) ↦
      ground (arith, eq_iff c c, lookup-insert c c (prepaid_row (some row)) t.consumers)
]

topup_body-old :
    (c fingerprint : String) (amount : Amount) (row : Topup) (t : Tables)
    → bad_topup c fingerprint amount ≡ false
    → lookup fingerprint t.topups ≡ some row
    → topup_body never c fingerprint amount t ≡ repeat_topup never c (with_consumer c t)
unfolding ◌>>=◌ statement topup_body with_consumer prepaid_row bad_topup
topup_body-old c fingerprint amount row t g e = elim (Option-cases (lookup c t.consumers)) [
  | inl k ↦ ground arith
  | inr (found, k) ↦ ground arith
]

topup_body-bad :
    (c fingerprint : String) (amount : Amount) (t : Tables)
    → bad_topup c fingerprint amount ≡ true
    → (finish t (topup_body never c fingerprint amount t)).0 ≡ t
unfolding ◌>>=◌ statement topup_body bad_topup
topup_body-bad c fingerprint amount t g = ground arith

repeat_topup-Move :
    (c : String) (t : Tables) → Move t (finish t (repeat_topup never c (with_consumer c t))).0
unfolding ◌>>=◌ statement repeat_topup with_consumer
repeat_topup-Move c t = elim (Option-cases (lookup c t.balances)) [
  | inl e ↦ rw (finish, e) (keep refl refl refl)
  | inr (b, e) ↦ rw (finish, e) (keep refl refl refl)
]

known_after_topup :
    (c fingerprint : String) (amount : Amount) (t : Tables)
    → is_some (lookup c (with_topup c fingerprint amount t).consumers) ≡ true
unfolding with_topup with_consumer
known_after_topup c fingerprint amount t =
    ground (arith, eq_iff c c, lookup-insert c c (prepaid_row (lookup c t.consumers)) t.consumers)

topup_body-Move :
    (c fingerprint : String) (amount : Amount) (t : Tables)
    → NotTaking amount
    → Move t (finish t (topup_body never c fingerprint amount t)).0
topup_body-Move c fingerprint amount t p = elim (Bool-cases (bad_topup c fingerprint amount)) [
  | inl g ↦ same_tables (topup_body-bad c fingerprint amount t g)
  | inr g ↦ elim (Option-cases (lookup fingerprint t.topups)) [
    | inl e ↦
        rw
          (
            topup_body-new c fingerprint amount t g e,
            first_topup_lem c fingerprint amount (with_topup c fingerprint amount t)
                (known_after_topup c fingerprint amount t),
          )
          (unfold credited_tables with_topup with_consumer balance_of in
            credit c (str_append "x402_topup:" fingerprint) amount p refl refl refl)
    | inr (row, e) ↦ rw (topup_body-old c fingerprint amount row t g e) (repeat_topup-Move c t)
  ]
]

pub topup-Move :
    (c fingerprint : String) (amount : Amount) (t : Tables)
    → NotTaking amount
    → Move t (record_x402_prepaid_topup never c fingerprint amount t).0
unfolding record_x402_prepaid_topup
topup-Move c fingerprint amount t p =
    topup_body-Move (trim_space c) (trim_space fingerprint) amount t p

-- ===== src/Dataplane/Prepaid/Books.antt =====
-- The books balance: what holds of the tables after any history of billing calls.
use ai_peer.Dataplane.Prepaid.{charge_of}
use ai_peer.Dataplane.Prepaid.Moves.{balance_of, or_zero, entry, settlement}
use ai_peer.Dataplane.Tables.{Tables, Reservation, LedgerEntry}
use ai_peer.Base.{
  some, ℤ, String, Map, pos, Every, Bool, lookup, List, ◌≡◌, ◌≤ℤ◌, ◌∷◌, insert, if◌then◌else◌,
  arith, ◌==◌, ◌-ℤ◌, lookup-insert, ◌+ℤ◌, string_eq, [], Bool-cases, inl, inr, int_laws, ltb_ℤ,
}

-- The balance that a consumer's newest entry states, and nothing where it has none.
unfoldable pub newest_balance : String → List LedgerEntry → ℤ
newest_balance c [] = pos 0
newest_balance c (e ∷ ledger) =
    let rest = newest_balance c ledger in if e.consumer_id == c then e.balance_after else rest

abbrev pub Covered : String → Reservation → Type 0
Covered r row = pos 0 ≤ℤ row.reserved_usdc

abbrev pub Solvent : String → ℤ → Type 0
Solvent c balance = pos 0 ≤ℤ balance

pub record IsBalanced (t : Tables) : Type 0 where
  -- No reservation is of a negative amount, and no balance is below zero.
  pub covered : Every Covered t.reservations
  pub solvent : Every Solvent t.balances
  -- A balance is what its consumer's newest ledger entry states.
  pub explained : (c : String) → newest_balance c t.ledger ≡ balance_of c t

pub charge_lem :
    (reserved actual : ℤ) (success : Bool)
    → pos 0 ≤ℤ reserved
    → (pos 0 ≤ℤ charge_of reserved actual success) × (charge_of reserved actual success ≤ℤ reserved)
charge_lem reserved actual success h = ground arith

or_zero-insert :
    (c j : String) (v : ℤ) (m : Map ℤ)
    → or_zero (lookup j (insert c v m)) ≡ (if c == j then v else or_zero (lookup j m))
or_zero-insert c j v m = ground (arith, lookup-insert c j v m)

pub known_balance :
    (c : String) (b : ℤ) (t : Tables) → lookup c t.balances ≡ some b → balance_of c t ≡ b
unfolding balance_of
known_balance c b t e = ground arith

-- The ledger and the balances after an entry that states what is stored, and after a settlement.
pub explained_entry :
    (c kind ref j : String) (amount v : ℤ) (t : Tables)
    → newest_balance j t.ledger ≡ balance_of j t
    → newest_balance j (entry c kind amount ref v ∷ t.ledger)
      ≡ or_zero (lookup j (insert c v t.balances))
unfolding newest_balance balance_of
explained_entry c kind ref j amount v t h = ground (arith, or_zero-insert c j v t.balances)

pub explained_settle :
    (c r j : String) (row : Reservation) (b charge : ℤ) (t : Tables)
    → pos 0 ≤ℤ charge
    → newest_balance j t.ledger ≡ balance_of j t
    → newest_balance j (settlement c r row b charge t.ledger)
      ≡ or_zero (lookup j (insert c (b +ℤ row.reserved_usdc -ℤ charge) t.balances))
unfolding newest_balance balance_of
explained_settle c r j row b charge t p h =
    let v : ℤ = b +ℤ row.reserved_usdc -ℤ charge in
    elim (Bool-cases (ltb_ℤ (pos 0) charge)) [
      | inl s ↦ rw s (ground (arith, or_zero-insert c j v t.balances))
      | inr s ↦
          let free : b +ℤ row.reserved_usdc ≡ v = grind int_laws in
          rw (s, free) (ground (arith, or_zero-insert c j v t.balances))
    ]

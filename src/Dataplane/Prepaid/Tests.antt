-- ===== src/Dataplane/Prepaid/Tests.antt =====
-- The billing theorems at a consumer with ten USDC.
use ai_peer.Dataplane.Prepaid.Once.{reserve_once}
use ai_peer.Dataplane.Prepaid.History.{
  run, step, Call, run-IsBalanced, reserve_call, topup_call, credit_call, finalize_call,
}
use ai_peer.Dataplane.Prepaid.Books.{IsBalanced, newest_balance}
use ai_peer.Dataplane.Prepaid.Moves.{reserved_tables, reserve_row, balance_of}
use ai_peer.Base.{
  ℕ, ℤ, int_laws, String, ◌∷◌, none, pos, Bool, ◌≡◌, [], ◌==◌, string_eq, true, refl, List, ◌+ℤ◌,
  arith, ◌-ℤ◌, lookup, some, ◌≤ℤ◌,
}
use ai_peer.Dataplane.Prepaid.{
  reserve_prepaid_balance, finalize_prepaid_charge, credit_consumer_balance,
  record_x402_prepaid_topup,
}
use ai_peer.Dataplane.Tables.{Consumer, Tables, Amount, ok}
use ai_peer.Dataplane.Faults.{Agrees, is_err, never}
use ai_peer.Dataplane.Prepaid.Faults.{billing_is_atomic}

abbrev prepaid : Consumer
prepaid = record { api_key_hash = none; wallet_address = none; consumer_type = "prepaid" }

abbrev funded : Tables
funded = record {
  consumers = ("alice", prepaid) ∷ [];
  api_keys = [];
  balances = ("alice", pos 10_000_000) ∷ [];
  reservations = [];
  ledger = [];
  topups = [];
  providers = [];
  wallets = [];
  batches = [];
  usage = [];
}

-- The commit of a reservation is refused.
abbrev no_commit : String → Bool
no_commit message = message == "commit reserve prepaid tx"

-- 0.0085615 USDC. The column keeps 0.008562 of it, and of its float64 sum with a balance one unit less.
abbrev odd : Amount
odd = record {
  is_positive = true;
  atomic = pos 8562;
  kept = pos 8562;
  kept_sum = λ b. b +ℤ pos 8561;
}

abbrev whole : Amount
whole = record {
  is_positive = true;
  atomic = pos 1_000_000;
  kept = pos 1_000_000;
  kept_sum = λ b. b +ℤ pos 1_000_000;
}

billing_is_atomic_example :
    Agrees funded
      (reserve_prepaid_balance no_commit "alice" "r1" (pos 300) funded)
      (reserve_prepaid_balance never "alice" "r1" (pos 300) funded)
    × Agrees funded
        (finalize_prepaid_charge no_commit "alice" "r1" (pos 300) true funded)
        (finalize_prepaid_charge never "alice" "r1" (pos 300) true funded)
    × Agrees funded
        (credit_consumer_balance no_commit "alice" odd "gift" funded)
        (credit_consumer_balance never "alice" odd "gift" funded)
    × Agrees funded
        (record_x402_prepaid_topup no_commit "alice" "r1" odd funded)
        (record_x402_prepaid_topup never "alice" "r1" odd funded)
billing_is_atomic_example =
    billing_is_atomic no_commit "alice" "r1" "gift" (pos 300) odd true funded

refused : is_err (reserve_prepaid_balance no_commit "alice" "r1" (pos 300) funded).1 ≡ true
unfolding reserve_prepaid_balance ai_peer.Base.lookup
refused = refl

abbrev billing : List ((String → Bool) × Call)
billing =
    (no_commit, reserve_call "alice" "r1" (pos 300))
    ∷ (never, reserve_call "alice" "r1" (pos 300))
    ∷ (never, topup_call "alice" "0xfeed" whole)
    ∷ (never, credit_call "alice" odd "gift")
    ∷ (never, finalize_call "alice" "r1" (pos 200) true)
    ∷ []

abbrev fresh : Tables
fresh = record {
  consumers = ("alice", prepaid) ∷ [];
  api_keys = [];
  balances = [];
  reservations = [];
  ledger = [];
  topups = [];
  providers = [];
  wallets = [];
  batches = [];
  usage = [];
}

fresh-IsBalanced : IsBalanced fresh
unfolding lookup
fresh-IsBalanced = record {
  covered = tt;
  solvent = tt;
  explained = λ c. unfold newest_balance balance_of in refl;
}

stays_above : (n : ℕ) (b : ℤ) → pos 0 ≤ℤ b → pos 0 ≤ℤ b +ℤ pos n
stays_above n b h = grind int_laws

run-IsBalanced_example : IsBalanced (run billing fresh)
run-IsBalanced_example =
    run-IsBalanced billing fresh (tt, (tt, (stays_above 1_000_000, (stays_above 8561, (tt, tt)))))
      fresh-IsBalanced

billed : lookup "alice" (run billing fresh).balances ≡ some (pos 1_008_561)
unfolding run step lookup finalize_prepaid_charge credit_consumer_balance record_x402_prepaid_topup
    ai_peer.Base.trim_space reserve_prepaid_balance ai_peer.Base.insert ◌+ℤ◌
billed = refl

reserve_once_example :
    (reserve_prepaid_balance never "alice" "r1" (pos 300) funded ≡ (
      reserved_tables "alice" "r1" (pos 300) (pos 10_000_000) funded,
      ok (record {
        approved = true;
        reserved_usdc = pos 300;
        balance_after = pos 10_000_000 -ℤ pos 300;
      }),
    ))
    × (reserve_prepaid_balance never "alice" "r1"
          (pos 700)
          (reserve_prepaid_balance never "alice" "r1" (pos 300) funded).0
        ≡ reserve_prepaid_balance never "alice" "r1" (pos 300) funded)
unfolding lookup
reserve_once_example =
    reserve_once "alice" "r1" (pos 300) (pos 700) (pos 10_000_000) funded (ground arith)
      (ground arith) (ground arith) refl refl refl

abbrev held : Tables
held = record funded {
  balances = ("alice", pos 9_999_700) ∷ [];
  reservations = ("r1", reserve_row "alice" (pos 300)) ∷ [];
}

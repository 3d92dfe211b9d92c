-- ===== src/Dataplane/Providers.antt =====
-- The providers of pkg/dataplane/postgres_store.go: `UpsertProvider`, `HeartbeatProvider` and
-- `RotateProviderWallet`, at the time `now` of the server.
pub mod Wallets
pub mod Current
use ai_peer.Base.{
  String, Bool, true, false, ℤ, Option, none, some, List, [], ◌∷◌, Map, lookup, insert, is_some,
  if◌then◌else◌, ◌==◌, string_eq, not, ◌&&◌, ◌||◌, trim_space,
}
use ai_peer.Gateway.Records.{
  ProviderRegisterRequest, ProviderHeartbeatRequest, ProviderWalletRotateRequest,
}
use ai_peer.Dataplane.Tables.{
  Tables, ProviderRow, WalletRow, M, ◌>>=◌, ◌>>◌, return, Result, ok, done, failed, statement,
  control, transaction, autocommit, and_then,
}

-- A row of the wallet history that has no end yet.
abbrev pub is_active : WalletRow → Bool
is_active row = not (is_some row.active_to)

-- `UPDATE provider_wallet_history SET active_to = now` where the row is active and passes the test.
unfoldable pub close_where : ℤ → (WalletRow → Bool) → List WalletRow → List WalletRow
close_where now test [] = []
close_where now test (row ∷ rows) =
    let rest = close_where now test rows in
    (if is_active row && test row then record row { active_to = some now } else row) ∷ rest

abbrev pub owned : String → WalletRow → Bool
owned provider row = row.provider_id == provider

abbrev pub owned_other : String → String → WalletRow → Bool
owned_other provider wallet row = row.provider_id == provider && not (row.wallet_address == wallet)

unfoldable pub has_active : String → String → List WalletRow → Bool
has_active provider wallet [] = false
has_active provider wallet (row ∷ rows) =
    let rest = has_active provider wallet rows in
    (is_active row && row.provider_id == provider && row.wallet_address == wallet) || rest

abbrev pub active_wallet : String → String → String → WalletRow
active_wallet provider wallet proof = record {
  provider_id = provider;
  wallet_address = wallet;
  rotation_proof = proof;
  active_to = none;
}

-- A heartbeat keeps the metadata.
abbrev pub beating : ℤ → ProviderHeartbeatRequest → ProviderRow → ProviderRow
beating now req row = record row { peer_id = req.peer_id; status = req.status; last_seen_at = now }

module _ (fails : String → Bool) (now : ℤ) where
  abbrev pub upsert_row : ProviderRegisterRequest → M (Unit {0})
  upsert_row req = statement fails "upsert provider" λ t. done tt (record t {
    providers =
        insert req.provider_id
          (record {
            peer_id = req.peer_id;
            status = req.status;
            last_seen_at = now;
            metadata = req.metadata;
          })
          t.providers;
  })

  abbrev pub close_wallets : String → (WalletRow → Bool) → M (Unit {0})
  close_wallets message test =
      statement fails message λ t. done tt (record t { wallets = close_where now test t.wallets })

  abbrev pub insert_wallet : String → String → String → String → M (Unit {0})
  insert_wallet message provider wallet proof = statement fails message λ t.
      if is_some (lookup provider t.providers)
      then done tt (record t { wallets = active_wallet provider wallet proof ∷ t.wallets })
      else failed message

  -- INSERT ... SELECT ... WHERE NOT EXISTS: only when the wallet is not the active one already.
  abbrev pub insert_missing_wallet : String → String → M (Unit {0})
  insert_missing_wallet provider wallet = λ t.
      if has_active provider wallet t.wallets
      then statement fails "insert provider wallet history" (return tt) t
      else insert_wallet "insert provider wallet history" provider wallet "" t

  abbrev pub set_wallet : String → String → Tables → Tables × Result (Unit {0})
  set_wallet provider wallet t =
      and_then
        (autocommit (close_wallets "close previous active wallet" (owned_other provider wallet)) t)
        λ _ t'. autocommit (insert_missing_wallet provider wallet) t'

  -- Three statements, each committed by itself.
  unfoldable pub upsert_provider : ProviderRegisterRequest → Tables → Tables × Result (Unit {0})
  unfolding statement
  upsert_provider req t = and_then (autocommit (upsert_row req) t) λ _ t'.
      if trim_space req.wallet_address == ""
      then (t', ok tt)
      else set_wallet req.provider_id req.wallet_address t'

  -- Tells whether there was a row.
  abbrev pub update_heartbeat : ProviderHeartbeatRequest → M Bool
  update_heartbeat req = statement fails "update provider heartbeat" λ t.
      elim (lookup req.provider_id t.providers) [
        | none ↦ done false t
        | some row ↦
            done true
              (record t { providers = insert req.provider_id (beating now req row) t.providers })
      ]

  abbrev pub insert_provider : ProviderHeartbeatRequest → M (Unit {0})
  insert_provider req = statement fails "insert provider from heartbeat" λ t.
      if is_some (lookup req.provider_id t.providers)
      then failed "insert provider from heartbeat"
      else done tt (record t {
        providers =
            insert req.provider_id
              (record {
                peer_id = req.peer_id;
                status = req.status;
                last_seen_at = now;
                metadata = [];
              })
              t.providers;
      })

  unfoldable pub heartbeat_provider : ProviderHeartbeatRequest → Tables → Tables × Result (Unit {0})
  unfolding statement
  heartbeat_provider req t =
      and_then (autocommit (update_heartbeat req) t)
        λ found t'. if found then (t', ok tt) else autocommit (insert_provider req) t'

  rotate_body : ProviderWalletRotateRequest → M (Unit {0} × Bool)
  rotate_body req = do
    control fails "begin wallet rotation tx"
    close_wallets "close active wallet" (owned req.provider_id)
    insert_wallet "insert rotated wallet" req.provider_id req.new_wallet req.rotation_proof
    control fails "commit wallet rotation tx"
    return (tt, true)

  unfoldable pub rotate_provider_wallet :
      ProviderWalletRotateRequest → Tables → Tables × Result (Unit {0})
  unfolding ◌>>=◌ statement rotate_body
  rotate_provider_wallet req t = transaction (rotate_body req) t

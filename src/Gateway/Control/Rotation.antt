-- ===== src/Gateway/Control/Rotation.antt =====
-- The rotation of an API key on the PostgreSQL store.
use ai_peer.Base.{String, true, false, ℤ, none, some, ◌≡◌, refl, ◌==◌, string_eq, trim_space}
use ai_peer.Dataplane.Tables.{Tables, ok}
use ai_peer.Dataplane.Faults.{never}
use ai_peer.Dataplane.Keys.{who}
use ai_peer.Dataplane.Keys.Lifecycle.{is_owner}
use ai_peer.Dataplane.Keys.Holders.{holds_lem}
use ai_peer.Dataplane.Keys.Exchange.{
  Unused, issued, exchange_lem, revoked_lem, revoked_tables, refuse_upsert, revoke_refusing_upsert,
  upsert_refusing, locked_out,
}
use ai_peer.Dataplane.Store.{postgres_store}
use ai_peer.Gateway.Records.{ApiKeyPrincipal}
use ai_peer.Gateway.Proxy.{Proxy}
use ai_peer.Gateway.Answers.{write_error}
use ai_peer.Gateway.Auth.{Headers, is_authorized_official_control}
use ai_peer.Gateway.Control.{or_default}
use ai_peer.Gateway.Control.Keys.{RotateKey, handle_api_keys_rotate, hash_or, is_kind}

abbrev pub old_hash : (String → String) → RotateKey → String
old_hash hash req = hash_or hash (trim_space req.old_api_key) (trim_space req.old_api_key_hash)

-- The principal that the new key stands for.
abbrev pub rotated_principal : RotateKey → Tables → ApiKeyPrincipal
rotated_principal req t =
    issued (trim_space req.consumer_id) (trim_space req.wallet_address)
      (or_default "prepaid" (trim_space req.consumer_type)) t

-- The request is complete, names a kind that exists, and its old key lets its consumer in.
pub record Rotatable (hash : String → String) (req : RotateKey) (t : Tables) : Type 0 where
  pub named : (trim_space req.consumer_id == "") ≡ false
  pub kind_known : is_kind (or_default "prepaid" (trim_space req.consumer_type)) ≡ true
  pub old_given : (old_hash hash req == "") ≡ false
  pub in_use : is_owner (trim_space req.consumer_id) (who (old_hash hash req) t) ≡ true

module _ (hash : String → String) (p : Proxy Tables) (headers : Headers) (now : ℤ) where
  -- A rotation of a key in use, on a store that refuses nothing, answers 200. After it the old key lets
  -- nobody in and the new key lets the consumer in, with the given kind and wallet.
  pub rotation_replaces :
      (key : String) (req : RotateKey) (t : Tables)
      → p.control_store ≡ some (postgres_store never now)
      → is_authorized_official_control p headers ≡ true
      → Rotatable hash req t
      → Unused (trim_space req.consumer_id) (hash key) t
      → ((handle_api_keys_rotate hash (some key) p headers (ok req) t).1.status ≡ 200)
        × (who (old_hash hash req) (handle_api_keys_rotate hash (some key) p headers (ok req) t).0
            ≡ none)
        × (who (hash key) (handle_api_keys_rotate hash (some key) p headers (ok req) t).0
            ≡ some (rotated_principal req t))
  unfolding handle_api_keys_rotate
  rotation_replaces key req t e open_door r u =
      let c = trim_space req.consumer_id in
      let old = old_hash hash req in
      let (row, owner, held) = holds_lem c old t r.in_use in
      let (t', done, dead, live) =
        exchange_lem c (trim_space req.wallet_address)
          (or_default "prepaid" (trim_space req.consumer_type)) old "rotated" (hash key) row owner t
          r.kind_known held u in
      rw
        (
          open_door,
          e,
          r.named,
          r.kind_known,
          r.old_given,
          revoked_lem c old "rotated" row t held.0 held.1,
          done,
        )
        (refl, dead, live)

  -- Where the statement that stores the new key is refused, a rotation of a key in use answers 500, and
  -- after it no key lets the consumer in: the revocation has been committed by itself.
  pub rotation_locks_out :
      (key other : String) (req : RotateKey) (t : Tables)
      → p.control_store ≡ some (postgres_store refuse_upsert now)
      → is_authorized_official_control p headers ≡ true
      → Rotatable hash req t
      → ((handle_api_keys_rotate hash (some key) p headers (ok req) t).1
          ≡ write_error 500 "failed to persist new api key")
        × (is_owner
              (trim_space req.consumer_id)
              (who other (handle_api_keys_rotate hash (some key) p headers (ok req) t).0)
            ≡ false)
  unfolding handle_api_keys_rotate
  rotation_locks_out key other req t e open_door r =
      let c = trim_space req.consumer_id in
      let old = old_hash hash req in
      let (row, owner, held) = holds_lem c old t r.in_use in
      rw
        (
          open_door,
          e,
          r.named,
          r.kind_known,
          r.old_given,
          revoke_refusing_upsert c old "rotated" row t held.0 held.1,
          upsert_refusing c (trim_space req.wallet_address)
              (or_default "prepaid" (trim_space req.consumer_type)) (hash key)
              (revoked_tables c old "rotated" row t),
        )
        (refl, locked_out c old "rotated" other row t r.in_use)

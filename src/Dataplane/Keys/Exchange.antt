-- ===== src/Dataplane/Keys/Exchange.antt =====
-- A key exchanged for another: the old one is revoked, then the new one is stored.
use text.Mathlib.TextEquality.{eq_iff}
use ai_peer.Base.{
  Map, String, Bool, true, false, none, some, lookup, insert, ◌≡◌, ◌∙◌, sym, ap, refl, arith,
  if◌then◌else◌, ◌==◌, string_eq, lookup-insert, Bool-cases, inl, inr,
}
use ai_peer.Gateway.Records.{ApiKeyPrincipal}
use ai_peer.Dataplane.Tables.{Tables, Consumer, KeyRow, ok, err, statement, ◌>>=◌}
use ai_peer.Dataplane.Faults.{never}
use ai_peer.Dataplane.Keys.{
  who, hash_taken, clear_hash, wallet_of, coalesce, nullif, or_blank_text, known_type, is_live,
  revoke_consumer_api_key, upsert_consumer_api_key, upsert_key_body, revoke_body, finish_revoke,
}
use ai_peer.Dataplane.Keys.Lifecycle.{
  who_after_upsert, dead_key_lem, is_owner, revoke_lem, upsert_lem,
}
use ai_peer.Dataplane.Keys.Holders.{Holds, hash_taken-clear_hash, wallet_of-clear_hash, one_key}

-- The tables after the key is revoked.
unfoldable pub revoked_tables : String → String → String → KeyRow → Tables → Tables
revoked_tables c h reason row t = record t {
  consumers = clear_hash c h t.consumers;
  api_keys = insert h (record row { status = "revoked"; revoked_reason = reason }) t.api_keys;
}

-- No row has the hash.
pub record Unused (c h : String) (t : Tables) : Type 0 where
  pub no_key : lookup h t.api_keys ≡ none
  pub no_pointer : hash_taken c h t.consumers ≡ false

who-revoked_tables :
    (c h reason other : String) (row : KeyRow) (t : Tables)
    → who other (revoked_tables c h reason row t) ≡ (if h == other then none else who other t)
unfolding revoked_tables who
who-revoked_tables c h reason other row t = dead_key_lem c h reason other row t

apart :
    {h new : String} {row : KeyRow} (keys : Map KeyRow)
    → lookup h keys ≡ some row
    → lookup new keys ≡ none
    → ¬ (h ≡ new)
apart keys found gone e = cc

Unused-revoked_tables :
    (c h reason new : String) (row : KeyRow) (t : Tables)
    → lookup h t.api_keys ≡ some row
    → Unused c new t
    → Unused c new (revoked_tables c h reason row t)
unfolding revoked_tables
Unused-revoked_tables c h reason new row t found u = record {
  no_key =
      lookup-insert h new (record row { status = "revoked"; revoked_reason = reason }) t.api_keys
      ∙ elim (Bool-cases (h == new)) [
        | inl same ↦ absurd (apart t.api_keys found u.no_key ((eq_iff h new).0 same))
        | inr differ ↦ rw differ u.no_key
      ];
  no_pointer = hash_taken-clear_hash c h new t.consumers ∙ u.no_pointer;
}

abbrev with_wallet : String → String → String → ApiKeyPrincipal
with_wallet c kind wallet = record {
  consumer_id = c;
  consumer_type = kind;
  wallet_address = wallet;
}

kept_wallet :
    (c h reason : String) (row : KeyRow) (t : Tables)
    → wallet_of (lookup c (revoked_tables c h reason row t).consumers)
      ≡ wallet_of (lookup c t.consumers)
unfolding revoked_tables
kept_wallet c h reason row t = wallet_of-clear_hash c h t.consumers

-- The principal that a new key stands for: a wallet that is not given is the stored one.
abbrev pub issued : String → String → String → Tables → ApiKeyPrincipal
issued c wallet kind t = record {
  consumer_id = c;
  consumer_type = kind;
  wallet_address = or_blank_text (coalesce (nullif wallet) (wallet_of (lookup c t.consumers)));
}

pub exchange_lem :
    (c wallet kind h reason new : String) (row : KeyRow) (owner : Consumer) (t : Tables)
    → known_type kind ≡ true
    → Holds c h t row owner
    → Unused c new t
    → (t' : Tables) × (upsert_consumer_api_key never c wallet kind new
          (revoked_tables c h reason row t)
        ≡ (t', ok tt))
      × (who h t' ≡ none)
      × (who new t' ≡ some (issued c wallet kind t))
exchange_lem c wallet kind h reason new row owner t k (found, live, there, has) u =
    let t1 = revoked_tables c h reason row t in
    let u1 : Unused c new t1 = Unused-revoked_tables c h reason new row t found u in
    let differ : (new == h) ≡ false = elim (Bool-cases (new == h)) [
      | inl e ↦ absurd (apart t.api_keys found u.no_key (sym ((eq_iff new h).0 e)))
      | inr n ↦ n
    ] in
    (
      (upsert_consumer_api_key never c wallet kind new t1).0,
      rw (upsert_lem c wallet kind new t1 k u1.no_pointer) refl,
      rw
          (
            who_after_upsert c wallet kind new h t1 k u1.no_pointer u1.no_key,
            differ,
            who-revoked_tables c h reason h row t,
            (eq_iff h h).1 refl,
          )
          refl,
      rw
          (
            who_after_upsert c wallet kind new new t1 k u1.no_pointer u1.no_key,
            (eq_iff new new).1 refl,
          )
          (ap (λ w. some (with_wallet c kind (or_blank_text (coalesce (nullif wallet) w))))
            (kept_wallet c h reason row t)),
    )

-- After the revocation no key lets the consumer in.
pub locked_out :
    (c h reason other : String) (row : KeyRow) (t : Tables)
    → is_owner c (who h t) ≡ true
    → is_owner c (who other (revoked_tables c h reason row t)) ≡ false
locked_out c h reason other row t own =
    rw (who-revoked_tables c h reason other row t) (elim (Bool-cases (h == other)) [
      | inl same ↦ rw same refl
      | inr differ ↦ rw differ (one_key c h other t own differ)
    ])

-- The statement that stores the new key is refused.
abbrev pub refuse_upsert : String → Bool
refuse_upsert message = message == "upsert consumer api key"

pub revoke_refusing_upsert :
    (c h reason : String) (row : KeyRow) (t : Tables)
    → lookup h t.api_keys ≡ some row
    → is_live c row ≡ true
    → revoke_consumer_api_key refuse_upsert c h reason t
      ≡ (revoked_tables c h reason row t, ok true)
unfolding revoke_consumer_api_key revoke_body finish_revoke ◌>>=◌ statement revoked_tables
revoke_refusing_upsert c h reason row t found live = ground arith

pub revoked_lem :
    (c h reason : String) (row : KeyRow) (t : Tables)
    → lookup h t.api_keys ≡ some row
    → is_live c row ≡ true
    → revoke_consumer_api_key never c h reason t ≡ (revoked_tables c h reason row t, ok true)
unfolding revoked_tables
revoked_lem c h reason row t found live = revoke_lem c h reason row t found live

pub upsert_refusing :
    (c wallet kind h : String) (t : Tables)
    → upsert_consumer_api_key refuse_upsert c wallet kind h t ≡ (t, err "upsert consumer api key")
unfolding upsert_consumer_api_key upsert_key_body ◌>>=◌ statement
upsert_refusing c wallet kind h t = refl

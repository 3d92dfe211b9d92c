-- ===== src/Dataplane/Keys/Lifecycle.antt =====
-- Which key lets whom in, before and after a key is made or revoked.
use text.Mathlib.TextEquality.{eq_iff}
use ai_peer.Dataplane.Faults.{never}
use ai_peer.Gateway.Records.{ApiKeyPrincipal}
use ai_peer.Dataplane.Tables.{Tables, ◌>>=◌, statement, ok, Consumer, KeyRow}
use ai_peer.Base.{
  String, Option, Bool, ◌≡◌, true, false, some, if◌then◌else◌, insert, lookup, ◌==◌, none,
  string_eq, arith, lookup-insert, Bool-cases, refl, Map, inl, inr, Option-cases, sym,
}
use ai_peer.Dataplane.Keys.{
  who, upsert_consumer_api_key, upsert_key_body, known_type, revoke_consumer_api_key, hash_taken,
  keyed_row, active_row, or_blank_text, coalesce, nullif, wallet_of, owner_of, has_hash,
  revoke_body, is_live, clear_hash, finish_revoke,
}

abbrev pub is_owner : String → Option ApiKeyPrincipal → Bool
is_owner c none = false
is_owner c (some principal) = principal.consumer_id == c

-- The key is the consumer's, and active.
abbrev pub revocable : String → Option KeyRow → Bool
revocable c none = false
revocable c (some row) = is_live c row

pub upsert_lem :
    (c wallet kind h : String) (t : Tables)
    → known_type kind ≡ true
    → hash_taken c h t.consumers ≡ false
    → upsert_consumer_api_key never c wallet kind h t ≡ (
      record t {
        consumers = insert c (keyed_row h wallet kind (lookup c t.consumers)) t.consumers;
        api_keys = insert h (active_row c (lookup h t.api_keys)) t.api_keys;
      },
      ok tt,
    )
unfolding upsert_consumer_api_key upsert_key_body ◌>>=◌ statement
upsert_lem c wallet kind h t k free = ground arith

-- The consumer's row now has the hash, and its key is active.
own_key_lem :
    (c h other : String) (row : Consumer) (key : Option KeyRow) (consumers : Map Consumer)
    → has_hash other row ≡ true
    → key ≡ none
    → owner_of other (some (active_row c key)) (insert c row consumers)
      ≡ some (record {
        consumer_id = c;
        consumer_type = row.consumer_type;
        wallet_address = or_blank_text row.wallet_address;
      })
own_key_lem c h other row none consumers e new =
    rw (lookup-insert c c row consumers, (eq_iff c c).1 refl, e) refl
own_key_lem c h other row (some key) consumers e new = ground arith

-- The consumer's row now has a hash other than the one looked up.
other_key_lem :
    (c other : String) (row : Consumer) (key : Option KeyRow) (consumers : Map Consumer)
    → has_hash other row ≡ false
    → owner_of other key (insert c row consumers)
      ≡ (if is_owner c (owner_of other key consumers) then none else owner_of other key consumers)
other_key_lem c other row none consumers h = refl
other_key_lem c other row (some key) consumers h = elim (Bool-cases (key.status == "active")) [
  | inr e ↦ rw e refl
  | inl e ↦
      rw (e, lookup-insert c key.consumer_id row consumers)
        (elim (Option-cases (lookup key.consumer_id consumers)) [
          | inl gone ↦ ground (arith, eq_iff c key.consumer_id)
          | inr (old, found) ↦ elim (Bool-cases (has_hash other old)) [
            | inl y ↦ ground (arith, eq_iff c key.consumer_id, eq_iff key.consumer_id c)
            | inr y ↦ ground (arith, eq_iff c key.consumer_id, eq_iff key.consumer_id c)
          ]
        ])
]

-- A new key of a known kind, whose hash no row has, lets its consumer in, with the given kind and the
-- given wallet, or the stored one where none is given; every older key of that consumer stops working;
-- every other key lets in whom it did.
pub who_after_upsert :
    (c wallet kind h other : String) (t : Tables)
    → known_type kind ≡ true
    → hash_taken c h t.consumers ≡ false
    → lookup h t.api_keys ≡ none
    → who other (upsert_consumer_api_key never c wallet kind h t).0 ≡ (
        if h == other
        then some (record {
          consumer_id = c;
          consumer_type = kind;
          wallet_address =
              or_blank_text (coalesce (nullif wallet) (wallet_of (lookup c t.consumers)));
        })
        else if is_owner c (who other t)
        then none
        else who other t)
unfolding who
who_after_upsert c wallet kind h other t k free new =
    rw
      (
        upsert_lem c wallet kind h t k free,
        lookup-insert h other (active_row c (lookup h t.api_keys)) t.api_keys,
      )
      (elim (Bool-cases (h == other)) [
        | inl same ↦ rw same (
            own_key_lem c h other (keyed_row h wallet kind (lookup c t.consumers))
              (lookup h t.api_keys) t.consumers same new)
        | inr differ ↦ rw differ (
            other_key_lem c other (keyed_row h wallet kind (lookup c t.consumers))
              (lookup other t.api_keys) t.consumers differ)
      ])

pub revoke_lem :
    (c h reason : String) (row : KeyRow) (t : Tables)
    → lookup h t.api_keys ≡ some row
    → is_live c row ≡ true
    → revoke_consumer_api_key never c h reason t ≡ (
      record t {
        consumers = clear_hash c h t.consumers;
        api_keys = insert h (record row { status = "revoked"; revoked_reason = reason }) t.api_keys;
      },
      ok true,
    )
unfolding revoke_consumer_api_key revoke_body finish_revoke ◌>>=◌ statement
revoke_lem c h reason row t found live = ground arith

clear_lem :
    (c h other : String) (row : Consumer) (key : KeyRow) (consumers : Map Consumer)
    → (h == other) ≡ false
    → lookup c consumers ≡ some row
    → has_hash h row ≡ true
    → owner_of other (some key) (insert c (record row { api_key_hash = none }) consumers)
      ≡ owner_of other (some key) consumers
clear_lem c h other row key consumers differ found y =
    rw (lookup-insert c key.consumer_id (record row { api_key_hash = none }) consumers)
      (elim (Bool-cases (c == key.consumer_id)) [
        | inr n ↦ rw n refl
        | inl same ↦
            rw (same, sym ((eq_iff c key.consumer_id).0 same), found)
              (elim (Option-cases row.api_key_hash) [
                | inl q ↦ ground arith
                | inr (own, q) ↦ ground (arith, eq_iff own h, eq_iff own other, eq_iff h other)
              ])
      ])

-- Clearing the pointer to one hash does not change whom another lets in.
owner_of-clear_hash :
    (c h other : String) (key : Option KeyRow) (consumers : Map Consumer)
    → (h == other) ≡ false
    → owner_of other key (clear_hash c h consumers) ≡ owner_of other key consumers
unfolding lookup
owner_of-clear_hash c h other none consumers differ = refl
owner_of-clear_hash c h other (some key) consumers differ =
    elim (Option-cases (lookup c consumers)) [
      | inl gone ↦ rw gone refl
      | inr (row, found) ↦ elim (Bool-cases (has_hash h row)) [
        | inr n ↦ rw (found, n) refl
        | inl y ↦ rw (found, y) (clear_lem c h other row key consumers differ found y)
      ]
    ]

pub dead_key_lem :
    (c h reason other : String) (row : KeyRow) (t : Tables)
    → owner_of other
        (lookup other
          (insert h (record row { status = "revoked"; revoked_reason = reason }) t.api_keys))
        (clear_hash c h t.consumers)
      ≡ (if h == other then none else who other t)
unfolding who
dead_key_lem c h reason other row t =
    rw
      (lookup-insert h other (record row { status = "revoked"; revoked_reason = reason })
        t.api_keys)
      (elim (Bool-cases (h == other)) [
        | inl same ↦ rw same refl
        | inr differ ↦
            rw differ (owner_of-clear_hash c h other (lookup other t.api_keys) t.consumers differ)
      ])

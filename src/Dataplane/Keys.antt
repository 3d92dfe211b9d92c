-- ===== src/Dataplane/Keys.antt =====
-- The API keys of pkg/dataplane/postgres_store.go: `UpsertConsumerAPIKey`, `RevokeConsumerAPIKey`,
-- `LookupActiveAPIKey`, `LookupConsumerAPIKeyHash`. A key is stored by its hash.
pub mod Lifecycle
pub mod Holders
pub mod Exchange
use ai_peer.Gateway.Records.{ApiKeyPrincipal}
use ai_peer.Dataplane.Tables.{
  Consumer, Tables, KeyRow, Result, M, ◌>>=◌, ok, statement, err, return, done, transaction, failed,
  ◌>>◌, control,
}
use ai_peer.Base.{
  String, Option, if◌then◌else◌, Map, Bool, some, trim_space, false, none, ◌==◌, lookup, string_eq,
  ◌||◌, insert, ◌&&◌, not, true, ◌∷◌, [],
}

-- `api_key_hash = h` on a nullable column.
abbrev pub has_hash : String → Consumer → Bool
has_hash h row = elim row.api_key_hash [ none ↦ false | some own ↦ own == h ]

-- The unique index on `consumers (api_key_hash)`: another consumer has the hash.
unfoldable pub hash_taken : String → String → Map Consumer → Bool
hash_taken c h [] = false
hash_taken c h ((j, row) ∷ rest) =
    let later = hash_taken c h rest in (not (j == c) && has_hash h row) || later

-- `NULLIF(text, '')`.
abbrev pub nullif : String → Option String
nullif text = if text == "" then none else some text

abbrev pub wallet_of : Option Consumer → Option String
wallet_of none = none
wallet_of (some row) = row.wallet_address

abbrev pub coalesce : Option String → Option String → Option String
coalesce none second = second
coalesce (some text) second = some text

abbrev pub known_type : String → Bool
known_type consumer_type = consumer_type == "prepaid" || consumer_type == "x402"

-- The consumer's row after the upsert, the given one winning over the stored one.
abbrev pub keyed_row : String → String → String → Option Consumer → Consumer
keyed_row h wallet consumer_type old = record {
  api_key_hash = some h;
  wallet_address = coalesce (nullif wallet) (wallet_of old);
  consumer_type = consumer_type;
}

-- The key's row after the upsert: a hash that is there keeps its consumer.
abbrev pub active_row : String → Option KeyRow → KeyRow
active_row c none = record { consumer_id = c; status = "active"; revoked_reason = "" }
active_row c (some row) = record row { status = "active"; revoked_reason = "" }

abbrev pub is_live : String → KeyRow → Bool
is_live c row = row.consumer_id == c && row.status == "active"

-- `UPDATE consumers SET api_key_hash = NULL WHERE consumer_id = c AND api_key_hash = h`.
abbrev pub clear_hash : String → String → Map Consumer → Map Consumer
clear_hash c h consumers = elim (lookup c consumers) [
  | none ↦ consumers
  | some row ↦
      if has_hash h row then insert c (record row { api_key_hash = none }) consumers else consumers
]

module _ (fails : String → Bool) where
  abbrev pub upsert_consumer : String → String → String → String → M (Unit {0})
  upsert_consumer c wallet consumer_type h = statement fails "upsert consumer api key" λ t.
      if known_type consumer_type && not (hash_taken c h t.consumers)
      then done tt (record t {
        consumers = insert c (keyed_row h wallet consumer_type (lookup c t.consumers)) t.consumers;
      })
      else failed "upsert consumer api key"

  abbrev pub upsert_key : String → String → M (Unit {0})
  upsert_key c h = statement fails "insert consumer api key history" λ t.
      done tt (record t { api_keys = insert h (active_row c (lookup h t.api_keys)) t.api_keys })

  upsert_key_body : String → String → String → String → M (Unit {0} × Bool)
  upsert_key_body c wallet consumer_type h = do
    control fails "begin upsert consumer api key tx"
    upsert_consumer c wallet consumer_type h
    upsert_key c h
    control fails "commit upsert consumer api key tx"
    return (tt, true)

  unfoldable pub upsert_consumer_api_key :
      String → String → String → String → Tables → Tables × Result (Unit {0})
  unfolding ◌>>=◌ statement upsert_key_body
  upsert_consumer_api_key c wallet consumer_type h t =
      transaction (upsert_key_body c wallet consumer_type h) t

  -- Tells whether a row was changed.
  abbrev pub revoke_key : String → String → String → M Bool
  revoke_key c h reason = statement fails "revoke consumer api key" λ t.
      elim (lookup h t.api_keys) [
        | none ↦ done false t
        | some row ↦
            if is_live c row
            then done true (record t {
              api_keys =
                  insert h (record row { status = "revoked"; revoked_reason = reason }) t.api_keys;
            })
            else done false t
      ]

  abbrev pub clear_pointer : String → String → M (Unit {0})
  clear_pointer c h =
      statement fails "clear active api key pointer"
        λ t. done tt (record t { consumers = clear_hash c h t.consumers })

  finish_revoke : String → String → Bool → M (Bool × Bool)
  finish_revoke c h false = return (false, false)
  finish_revoke c h true = do
    clear_pointer c h
    control fails "commit revoke api key tx"
    return (true, true)

  revoke_body : String → String → String → M (Bool × Bool)
  revoke_body c h reason = do
    control fails "begin revoke api key tx"
    changed ← revoke_key c h reason
    finish_revoke c h changed

  unfoldable pub revoke_consumer_api_key : String → String → String → Tables → Tables × Result Bool
  unfolding ◌>>=◌ statement finish_revoke revoke_body
  revoke_consumer_api_key c h reason t = transaction (revoke_body c h reason) t

-- `COALESCE(text, '')`.
abbrev pub or_blank_text : Option String → String
or_blank_text none = ""
or_blank_text (some text) = text

abbrev pub principal_of : String → String → Consumer → Option ApiKeyPrincipal
principal_of h c row =
    if has_hash h row
    then some (record {
      consumer_id = c;
      consumer_type = row.consumer_type;
      wallet_address = or_blank_text row.wallet_address;
    })
    else none

-- The join of the keys with the consumers.
abbrev pub owner_of : String → Option KeyRow → Map Consumer → Option ApiKeyPrincipal
owner_of h none consumers = none
owner_of h (some key) consumers =
    if key.status == "active"
    then elim (lookup key.consumer_id consumers) [
      | none ↦ none
      | some row ↦ principal_of h key.consumer_id row
    ]
    else none

unfoldable pub who : String → Tables → Option ApiKeyPrincipal
who h t = owner_of h (lookup h t.api_keys) t.consumers

unfoldable pub lookup_active_api_key :
    (String → Bool) → String → Tables → Result (Option ApiKeyPrincipal)
lookup_active_api_key fails h t =
    if fails "lookup active api key" then err "lookup active api key" else ok (who h t)

-- The hash that a consumer has, or an empty text.
abbrev pub stored_hash : Option Consumer → String
stored_hash none = ""
stored_hash (some row) = trim_space (or_blank_text row.api_key_hash)

unfoldable pub lookup_consumer_api_key_hash : (String → Bool) → String → Tables → Result String
lookup_consumer_api_key_hash fails consumer_id t =
    let c = trim_space consumer_id in
    if c == ""
    then ok ""
    else if fails "lookup consumer api key hash"
    then err "lookup consumer api key hash"
    else ok (stored_hash (lookup c t.consumers))

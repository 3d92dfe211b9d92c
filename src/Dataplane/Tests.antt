-- ===== src/Dataplane/Tests.antt =====
-- The store's theorems at small tables.
use ai_peer.Base.{
  inr, arith, String, Bool, true, ℤ, ℕ, ◌≤◌, ◌+◌, pos, Option, none, some, List, [], ◌∷◌, ◌≡◌, ◌⊎◌,
  refl, arith, if◌then◌else◌, ◌==◌, string_eq, length, lookup, is_some, not, ◌&&◌, trim_space,
}
use ai_peer.Gateway.Records.{
  ProviderRegisterRequest, ProviderWalletRotateRequest, UsageEvent, UsageListFilter,
}
use ai_peer.Dataplane.Tables.{Tables, Consumer, KeyRow, ProviderRow, ok}
use ai_peer.Dataplane.Faults.{never, is_err}
use ai_peer.Dataplane.Keys.{who, upsert_consumer_api_key}
use ai_peer.Dataplane.Keys.Lifecycle.{who_after_upsert}
use ai_peer.Dataplane.Keys.Exchange.{issued}
use ai_peer.Dataplane.Providers.{upsert_provider, rotate_provider_wallet}
use ai_peer.Dataplane.Providers.Wallets.{active_of}
use ai_peer.Dataplane.Providers.Current.{
  OneActive, run-OneActive, provider_run, Timed, register, rotate, rotate_all_or_nothing,
  registered_wallet, registered_row,
}
use ai_peer.Dataplane.Usage.{insert_usage_events, list_usage_events}
use ai_peer.Dataplane.Usage.Recording.{recorded_once}
use ai_peer.Dataplane.Usage.Query.{list_usage_events_lem, Lists}

abbrev keyed : Consumer
keyed = record {
  api_key_hash = some "h:old";
  wallet_address = some "0xa";
  consumer_type = "prepaid";
}

abbrev one_key_row : KeyRow
one_key_row = record { consumer_id = "alice"; status = "active"; revoked_reason = "" }

abbrev one_provider : ProviderRow
one_provider = record { peer_id = "peer"; status = "active"; last_seen_at = pos 1; metadata = [] }

abbrev small : Tables
small = record {
  consumers = ("alice", keyed) ∷ [];
  api_keys = ("h:old", one_key_row) ∷ [];
  balances = [];
  reservations = [];
  ledger = [];
  topups = [];
  providers = ("prov", one_provider) ∷ [];
  wallets = [];
  batches = [];
  usage = [];
}

who_after_upsert_example :
    who "h:new" (upsert_consumer_api_key never "alice" "" "prepaid" "h:new" small).0
    ≡ some (issued "alice" "" "prepaid" small)
unfolding ai_peer.Base.lookup ai_peer.Dataplane.Keys.hash_taken
who_after_upsert_example =
    who_after_upsert "alice" "" "prepaid" "h:new" "h:new" small refl refl refl

abbrev joining : String → ProviderRegisterRequest
joining wallet = record {
  provider_id = "prov";
  peer_id = "peer";
  status = "active";
  wallet_address = wallet;
  metadata = [];
}

abbrev moving : ProviderWalletRotateRequest
moving = record {
  provider_id = "prov";
  new_wallet = "0xc";
  rotation_proof = "sig";
  requested_by_peer = "";
}

-- The closing of the old wallet is refused, then the rotation goes through.
abbrev no_close : String → Bool
no_close message = message == "close previous active wallet"

abbrev provider_calls : List Timed
provider_calls =
    (never, pos 2, register (joining "0xa"))
    ∷ (no_close, pos 3, register (joining "0xb"))
    ∷ (never, pos 4, rotate moving)
    ∷ []

no_wallets : OneActive small
unfolding ai_peer.Dataplane.Providers.Wallets.active_of
no_wallets c = omega arith

run-OneActive_example : OneActive (provider_run provider_calls small)
run-OneActive_example = run-OneActive provider_calls small no_wallets

rotate_all_or_nothing_example :
    ((is_err (rotate_provider_wallet never (pos 4) moving small).1 ≡ true)
      × ((rotate_provider_wallet never (pos 4) moving small).0 ≡ small))
    ⊎ ((is_some (lookup "prov" small.providers) ≡ true)
        × ((rotate_provider_wallet never (pos 4) moving small).1 ≡ ok tt)
        × ((c : String)
            → active_of c (rotate_provider_wallet never (pos 4) moving small).0.wallets
              ≡ (if "prov" == c then "0xc" ∷ [] else active_of c small.wallets)))
rotate_all_or_nothing_example = rotate_all_or_nothing never (pos 4) moving small

registered_wallet_example :
    ((upsert_provider never (pos 2) (joining "0xa") small).1 ≡ ok tt)
    × (lookup "prov" (upsert_provider never (pos 2) (joining "0xa") small).0.providers
        ≡ some (registered_row (pos 2) (joining "0xa")))
    × (active_of "prov" (upsert_provider never (pos 2) (joining "0xa") small).0.wallets
        ≡ "0xa" ∷ [])
unfolding trim_space
registered_wallet_example =
    registered_wallet (pos 2) (joining "0xa") "prov" small (no_wallets "prov")

abbrev served : UsageEvent
served = record {
  request_id = "r1";
  gateway_id = "gw";
  gateway_type = "official";
  consumer_id = "alice";
  provider_id = "";
  model = "llama3";
  tokens_in = pos 3;
  tokens_out = pos 5;
  cost_usdc = pos 7;
  latency_ms = pos 40;
  status = "ok";
  payment_method = "prepaid";
  created_at = some (pos 9);
}

abbrev events : List UsageEvent
events = served ∷ record served { request_id = " " } ∷ served ∷ []

abbrev with_event : Tables
with_event = record small { usage = ("r1", served) ∷ [] }

inserted : insert_usage_events never (pos 9) events small ≡ (with_event, ok 1)
unfolding insert_usage_events trim_space lookup ai_peer.Base.insert
inserted = refl

recorded_once_example :
    (with_event ≡ record small { usage = with_event.usage })
    × (length with_event.usage ≡ length small.usage + 1)
    × ((k : String)
        → (lookup k small.usage ≡ none) ⊎ (lookup k with_event.usage ≡ lookup k small.usage))
    × (insert_usage_events never (pos 10) events with_event ≡ (with_event, ok 0))
recorded_once_example = recorded_once never (pos 9) (pos 10) events small with_event 1 inserted

abbrev by_alice : UsageListFilter
by_alice = record { consumer_id = "alice"; provider_id = ""; limit = pos 0 }

listed : list_usage_events never by_alice with_event ≡ ok (served ∷ [])
unfolding list_usage_events ai_peer.Base.sort_by ai_peer.Dataplane.Usage.stored_events
listed = refl

list_usage_events_lem_example : Lists by_alice 100 with_event (served ∷ [])
list_usage_events_lem_example =
    list_usage_events_lem by_alice 100 with_event (served ∷ []) (inr (ground arith, refl)) listed

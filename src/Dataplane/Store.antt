-- ===== src/Dataplane/Store.antt =====
-- The PostgreSQL store as the gateway's control store, in a run that refuses some statements, with the
-- server's time.
use ai_peer.Base.{String, Bool, ℤ}
use ai_peer.Gateway.Proxy.{ControlStore}
use ai_peer.Dataplane.Tables.{Tables}
use ai_peer.Dataplane.Providers.{upsert_provider, heartbeat_provider, rotate_provider_wallet}
use ai_peer.Dataplane.Usage.{record_telemetry_batch, insert_usage_events, list_usage_events}
use ai_peer.Dataplane.Keys.{
  upsert_consumer_api_key, revoke_consumer_api_key, lookup_active_api_key,
  lookup_consumer_api_key_hash,
}
use ai_peer.Dataplane.Prepaid.{
  reserve_prepaid_balance, finalize_prepaid_charge, credit_consumer_balance,
  current_consumer_balance, record_x402_prepaid_topup,
}

abbrev pub postgres_store : (String → Bool) → ℤ → ControlStore Tables
postgres_store fails now = record {
  upsert_provider = upsert_provider fails now;
  heartbeat_provider = heartbeat_provider fails now;
  rotate_provider_wallet = rotate_provider_wallet fails now;
  record_telemetry_batch = record_telemetry_batch fails;
  insert_usage_events = insert_usage_events fails now;
  list_usage_events = list_usage_events fails;
  upsert_consumer_api_key = upsert_consumer_api_key fails;
  revoke_consumer_api_key = revoke_consumer_api_key fails;
  lookup_active_api_key = lookup_active_api_key fails;
  lookup_consumer_api_key_hash = lookup_consumer_api_key_hash fails;
  reserve_prepaid = reserve_prepaid_balance fails;
  finalize_prepaid = finalize_prepaid_charge fails;
  credit_consumer_balance = credit_consumer_balance fails;
  current_consumer_balance = current_consumer_balance fails;
  record_x402_prepaid_topup = record_x402_prepaid_topup fails;
}

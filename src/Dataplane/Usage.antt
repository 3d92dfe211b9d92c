-- ===== src/Dataplane/Usage.antt =====
-- The usage events of pkg/dataplane/postgres_store.go: `RecordTelemetryBatch`, `InsertUsageEvents` and
-- `ListUsageEvents`. A cost is counted in units of 10 ^ -6 USDC; a NULL consumer or provider is an
-- empty text.
pub mod Recording
pub mod Query
use ai_peer.Base.{
  String, Bool, true, false, ℤ, ℕ, pos, leb_ℤ, ltb_ℤ, Option, none, some, List, [], ◌∷◌, Map,
  lookup, insert, is_some, if◌then◌else◌, ◌==◌, string_eq, not, ◌&&◌, ◌||◌, trim_space, any, keep,
  take, sort_by, pos_part, str_append, ◌+◌,
}
use ai_peer.Gateway.Records.{UsageEvent, UsageListFilter}
use ai_peer.Dataplane.Tables.{
  Tables, BatchRow, M, ◌>>=◌, ◌>>◌, return, Result, ok, err, done, failed, statement, control,
  transaction, autocommit,
}

abbrev pub same_batch : String → String → BatchRow → Bool
same_batch gateway_id batch_id row = row.gateway_id == gateway_id && row.batch_id == batch_id

-- What the table's foreign keys ask of an event: an unset consumer or provider, or a known one.
abbrev pub references : UsageEvent → Tables → Bool
references e t =
    (e.consumer_id == "" || is_some (lookup e.consumer_id t.consumers))
    && (e.provider_id == "" || is_some (lookup e.provider_id t.providers))

abbrev pub known_gateway_type : String → Bool
known_gateway_type gateway_type = gateway_type == "official" || gateway_type == "community"

abbrev pub time_or : ℤ → Option ℤ → ℤ
time_or now none = now
time_or now (some time) = time

-- The event as it is stored: one without a time gets the server's.
abbrev pub stamped : ℤ → UsageEvent → UsageEvent
stamped now e = record e { created_at = some (time_or now e.created_at) }

abbrev pub insert_message : UsageEvent → String
insert_message e = str_append "insert usage event " e.request_id

module _ (fails : String → Bool) where
  abbrev pub insert_batch : BatchRow → M Bool
  insert_batch row = statement fails "insert telemetry batch" λ t.
      if any (same_batch row.gateway_id row.batch_id) t.batches
      then done false t
      else done true (record t { batches = row ∷ t.batches })

  unfoldable pub record_telemetry_batch :
      String → String → String → ℕ → Tables → Tables × Result Bool
  unfolding statement
  record_telemetry_batch gateway_id batch_id signature event_count t =
      autocommit
        (insert_batch (record {
          gateway_id = gateway_id;
          batch_id = batch_id;
          signature = signature;
          event_count = event_count;
        }))
        t

  -- The check of the gateway's type comes before the primary key, the foreign keys after it.
  -- Gives the number of rows that were added.
  unfoldable pub insert_event : UsageEvent → M ℕ
  insert_event e = statement fails (insert_message e) λ t.
      if not (known_gateway_type e.gateway_type)
      then failed (insert_message e)
      else if is_some (lookup e.request_id t.usage)
      then done 0 t
      else if references e t
      then done 1 (record t { usage = insert e.request_id e t.usage })
      else failed (insert_message e)

  -- Events without a request id are left out.
  unfoldable pub insert_events : ℤ → List UsageEvent → M ℕ
  unfolding ◌>>=◌ insert_event
  insert_events now [] = return 0
  insert_events now (e ∷ events) =
      let rest = insert_events now events in
      if trim_space e.request_id == ""
      then rest
      else insert_event (stamped now e) >>= λ added. rest >>= λ more. return (added + more)

  insert_body : ℤ → List UsageEvent → M (ℕ × Bool)
  insert_body now events = do
    control fails "begin usage insert tx"
    inserted ← insert_events now events
    control fails "commit usage insert tx"
    return (inserted, true)

  unfoldable pub insert_usage_events : ℤ → List UsageEvent → Tables → Tables × Result ℕ
  unfolding ◌>>=◌ statement insert_body insert_events
  insert_usage_events now events t = transaction (insert_body now events) t

-- The clauses of the query.
abbrev pub selected : UsageListFilter → UsageEvent → Bool
selected filter e =
    (filter.consumer_id == "" || e.consumer_id == filter.consumer_id)
    && (filter.provider_id == "" || e.provider_id == filter.provider_id)

abbrev pub earlier : Option ℤ → Option ℤ → Bool
earlier none none = false
earlier none (some time) = true
earlier (some time) none = false
earlier (some time) (some time') = ltb_ℤ time time'

-- `ORDER BY created_at DESC`; events of one time keep the order they are stored in.
abbrev pub newer : UsageEvent → UsageEvent → Bool
newer e e' = earlier e'.created_at e.created_at

unfoldable pub stored_events : Map UsageEvent → List UsageEvent
stored_events [] = []
stored_events ((id, e) ∷ rest) = e ∷ stored_events rest

abbrev pub page_size : UsageListFilter → ℕ
page_size filter = if leb_ℤ filter.limit (pos 0) then 100 else pos_part filter.limit

unfoldable pub list_usage_events :
    (String → Bool) → UsageListFilter → Tables → Result (List UsageEvent)
list_usage_events fails filter t =
    if fails "query usage events"
    then err "query usage events"
    else ok
        (take (page_size filter) (sort_by newer (keep (selected filter) (stored_events t.usage))))

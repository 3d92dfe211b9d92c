-- ===== src/Gateway/Control/Telemetry/Retries.antt =====
-- A telemetry batch that is sent again.
use text.Mathlib.TextEquality.{eq_iff}
use ai_peer.Base.{
  Option, ap, not, if◌then◌else◌, ◌∙◌, String, Bool, true, false, ℕ, ℤ, none, some, ◌∷◌, ◌≡◌, refl,
  arith, any, length, map, Bool-cases, inl, inr, ◌∙◌,
}
use ai_peer.Dataplane.Tables.{Tables, BatchRow, ok, err, statement, Result}
use ai_peer.Dataplane.Faults.{never}
use ai_peer.Dataplane.Usage.{same_batch, record_telemetry_batch, insert_usage_events}
use ai_peer.Dataplane.Usage.Recording.{batches_kept, refuse_insert, insert_refused}
use ai_peer.Dataplane.Store.{postgres_store}
use ai_peer.Gateway.Proxy.{Proxy, ControlStore}
use ai_peer.Gateway.Auth.{Headers}
use ai_peer.Gateway.Answers.{write_error, Answer}
use ai_peer.Gateway.Control.{stored}
use ai_peer.Gateway.Control.Telemetry.{
  Signing, TelemetryUsageBatchRequest, trimmed_batch, batch_error, batch_answer,
  handle_telemetry_usage, attributed, persist_batch, accept_batch,
}

abbrev batch_row : TelemetryUsageBatchRequest → BatchRow
batch_row req = record {
  gateway_id = req.gateway_id;
  batch_id = req.batch_id;
  signature = req.signature;
  event_count = length req.events;
}

abbrev is_known : TelemetryUsageBatchRequest → Tables → Bool
is_known req t = any (same_batch req.gateway_id req.batch_id) t.batches

known_lem :
    (fails : String → Bool) (req : TelemetryUsageBatchRequest) (t : Tables)
    → fails "insert telemetry batch" ≡ false
    → is_known req t ≡ true
    → record_telemetry_batch fails req.gateway_id req.batch_id req.signature (length req.events) t
      ≡ (t, ok false)
unfolding record_telemetry_batch statement
known_lem fails req t f k = ground arith

new_lem :
    (fails : String → Bool) (req : TelemetryUsageBatchRequest) (t : Tables)
    → fails "insert telemetry batch" ≡ false
    → is_known req t ≡ false
    → record_telemetry_batch fails req.gateway_id req.batch_id req.signature (length req.events) t
      ≡ (record t { batches = batch_row req ∷ t.batches }, ok true)
unfolding record_telemetry_batch statement
new_lem fails req t f k = ground arith

stored_state :
    (message : String) (answer : ℕ → Answer) (r : Tables × Result ℕ)
    → (stored message (λ inserted s. (s, answer inserted)) r).0.batches ≡ r.0.batches
stored_state message answer (s, ok n) = refl
stored_state message answer (s, err e) = refl

module _ (x : Signing) (headers : Headers) (given : TelemetryUsageBatchRequest) where
  -- The request passes every check that is made before the store is asked.
  abbrev pub Acceptable : ℤ → Proxy Tables → Type 0
  Acceptable now p = batch_error x now p headers (trimmed_batch given) ≡ none

  accept_lem :
      (store : ControlStore Tables) (now : ℤ) (p : Proxy Tables) (t : Tables)
      → p.control_store ≡ some store
      → Acceptable now p
      → handle_telemetry_usage x now p headers (ok given) t
        ≡ persist_batch x now p store (trimmed_batch given) t
  unfolding handle_telemetry_usage
  accept_lem store now p t e a =
      let chosen : Option (ControlStore Tables) → Tables × Answer = λ o. elim o [
        | none ↦ (t, write_error 503 "control store not configured")
        | some found ↦ accept_batch x now p found headers given t
      ] in
      let checked : Option Answer → Tables × Answer = λ o. elim o [
        | some answer ↦ (t, answer)
        | none ↦ persist_batch x now p store (trimmed_batch given) t
      ] in
      ap chosen e ∙ ap checked a

  duplicate_lem :
      (now : ℤ) (p : Proxy Tables) (t : Tables)
      → p.control_store ≡ some (postgres_store never now)
      → Acceptable now p
      → is_known (trimmed_batch given) t ≡ true
      → handle_telemetry_usage x now p headers (ok given) t
        ≡ (t, batch_answer (trimmed_batch given) 0 true)
  duplicate_lem now p t e a k =
      accept_lem (postgres_store never now) now p t e a
      ∙ rw (known_lem never (trimmed_batch given) t refl k) refl

  -- What the handler does with the answer about the batch's id.
  abbrev first_answer : ℤ → Proxy Tables → (String → Bool) → Tables × Result Bool → Tables × Answer
  first_answer now p fails = stored "telemetry batch idempotency check failed" λ new s'.
      if not new
      then (s', batch_answer (trimmed_batch given) 0 true)
      else stored "telemetry usage persist failed"
          (λ inserted s''. (s'', batch_answer (trimmed_batch given) inserted false))
          (insert_usage_events fails now
            (map (attributed (trimmed_batch given).gateway_id now) (trimmed_batch given).events) s')

  recorded_lem :
      (fails : String → Bool) (now : ℤ) (p : Proxy Tables) (t : Tables)
      → p.control_store ≡ some (postgres_store fails now)
      → Acceptable now p
      → fails "insert telemetry batch" ≡ false
      → is_known (trimmed_batch given) (handle_telemetry_usage x now p headers (ok given) t).0
        ≡ true
  unfolding handle_telemetry_usage
  recorded_lem fails now p t e a f =
      let req = trimmed_batch given in
      let accepted = accept_lem (postgres_store fails now) now p t e a in
      elim (Bool-cases (is_known req t)) [
        | inl k ↦
            ap (λ r. is_known req r.0)
              (accepted ∙ ap (first_answer now p fails) (known_lem fails req t f k))
            ∙ k
        | inr k ↦
            ap (λ r. is_known req r.0)
              (accepted ∙ ap (first_answer now p fails) (new_lem fails req t f k))
            ∙ ap (any (same_batch req.gateway_id req.batch_id)) (
                stored_state _ _ _
                ∙ batches_kept fails now (map (attributed req.gateway_id now) req.events)
                    (record t { batches = batch_row req ∷ t.batches }))
            ∙ rw
                (
                  (eq_iff req.gateway_id req.gateway_id).1 refl,
                  (eq_iff req.batch_id req.batch_id).1 refl,
                )
                refl
      ]

  -- Once a batch has got as far as the store and its id has not been refused there, sending it again
  -- changes nothing and is answered as a duplicate, whatever became of its events.
  pub retry_is_duplicate :
      (fails : String → Bool) (now later : ℤ) (p p' : Proxy Tables) (t : Tables)
      → p.control_store ≡ some (postgres_store fails now)
      → p'.control_store ≡ some (postgres_store never later)
      → Acceptable now p
      → Acceptable later p'
      → fails "insert telemetry batch" ≡ false
      → handle_telemetry_usage x later p' headers
          (ok given)
          (handle_telemetry_usage x now p headers (ok given) t).0
        ≡ (
          (handle_telemetry_usage x now p headers (ok given) t).0,
          batch_answer (trimmed_batch given) 0 true,
        )
  retry_is_duplicate fails now later p p' t e e' a a' f =
      duplicate_lem later p' (handle_telemetry_usage x now p headers (ok given) t).0 e' a'
        (recorded_lem fails now p t e a f)

  -- The events of a new batch whose insert is refused are lost: the gateway is answered 500, its retry is
  -- answered as a duplicate, and no usage event has been stored.
  pub refused_events_are_lost :
      (now later : ℤ) (p p' : Proxy Tables) (t : Tables)
      → p.control_store ≡ some (postgres_store refuse_insert now)
      → p'.control_store ≡ some (postgres_store never later)
      → Acceptable now p
      → Acceptable later p'
      → any (same_batch (trimmed_batch given).gateway_id (trimmed_batch given).batch_id) t.batches
        ≡ false
      → ((handle_telemetry_usage x now p headers (ok given) t).1
          ≡ write_error 500 "telemetry usage persist failed")
        × ((handle_telemetry_usage x later p' headers
              (ok given)
              (handle_telemetry_usage x now p headers (ok given) t).0).1
            ≡ batch_answer (trimmed_batch given) 0 true)
        × ((handle_telemetry_usage x later p' headers
              (ok given)
              (handle_telemetry_usage x now p headers (ok given) t).0).0.usage
            ≡ t.usage)
  refused_events_are_lost now later p p' t e e' a a' k =
      let req = trimmed_batch given in
      let again = retry_is_duplicate refuse_insert now later p p' t e e' a a' refl in
      let first : handle_telemetry_usage x now p headers (ok given) t ≡ (
        record t { batches = batch_row req ∷ t.batches },
        write_error 500 "telemetry usage persist failed",
      ) =
        accept_lem (postgres_store refuse_insert now) now p t e a
        ∙ ap (first_answer now p refuse_insert) (new_lem refuse_insert req t refl k)
        ∙ rw
            (insert_refused now (map (attributed req.gateway_id now) req.events)
              (record t { batches = batch_row req ∷ t.batches }))
            refl in
      (
        ap (λ r. r.1) first,
        ap (λ r. r.1) again,
        ap (λ r. r.0.usage) again ∙ ap (λ r. r.0.usage) first,
      )

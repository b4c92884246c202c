-- ===== src/Engine.antt =====
-- matcher/src/matcher.rs: `MatchingEngine`, method by method. `sv` is what it stands on, `cfg` its
-- configuration. An `await` is a call: what other tasks do in between is not modelled here.
pub mod Parts
pub mod Windows
pub mod Seen
pub mod Incidents
pub mod Finalize
pub mod Timers
pub mod Handling
pub mod Startup
pub mod Apart
pub mod Lifecycle
use code_storm.Prelude.{
  ℕ, Uuid, String, Bool, true, false, not, Option, none, some, List, [], ◌∷◌, if◌then◌else◌, map,
  ◌==◌, or_else, unwrap_or, and_then, length,
}
use mathlib.Core.Option
use code_storm.Prelude.Int.{ℤ, pos, add_i64, wrap_i64, ◌==ℤ◌}
use code_storm.Config.{Config}
use code_storm.Services.{Services}
use code_storm.Exec.{Exec, pure, gets, modify, ignore, ◌>>=◌, ◌>>◌, for_each}
use code_storm.Model.Source
use code_storm.Model.Source.{Source, merchant}
use code_storm.Model.Event.{PaymentEvent, StreamMessage}
use code_storm.Model.Partial.{
  PartialTransaction, Events, new, is_complete, sources_seen, missing_sources, insert, len,
  first_value,
}
use code_storm.Model.Incident.{
  Incident, duplicate, missing_source, second_event, not_received, ReconciliationResult, matched,
  mismatched,
}
use code_storm.Model.Invariants.{check_invariants}
use code_storm.Model.Details.{build_details}
use code_storm.Model.Pubsub.{
  transaction_received, transaction_progress, transaction_matched, incident_created,
  incident_updated,
}
use code_storm.Store.RedisStore
use code_storm.Store.PostgresStore
use code_storm.Model.Incident
use Parts.{State, on_redis, on_postgres, utc_now, utc_text, instant, elapsed, publish_event}

module _ (sv : Services) (cfg : Config) where
  unfoldable pub persist_incident : Incident → Exec (State sv) (Unit {0})
  persist_incident incident = do
    id ← on_postgres sv (PostgresStore.create_incident sv.postgres incident)
    now_ms ← utc_now sv
    (if incident.severity ==ℤ pos 1
        then on_redis sv (
            RedisStore.add_escalation sv.redis id
              (add_i64 now_ms (wrap_i64 (pos cfg.reconciler_escalation_ms))))
        else pure tt)
    publish_event sv cfg (
        incident_created id incident.transaction_id (Incident.to_string incident.incident_type)
          incident.severity incident.description now_ms)

  unfoldable pub cleanup_window : Uuid → Exec (State sv) (Unit {0})
  cleanup_window tx_id = do
    modify (λ s. record s { windows = Windows.remove tx_id s.windows })
    on_redis sv (RedisStore.delete_window sv.redis tx_id)
    on_redis sv (RedisStore.remove_deadline sv.redis sv.codec tx_id)
    on_redis sv (RedisStore.cleanup_sources sv.redis tx_id)

  -- A text of the merchant's event, or else of the first event of the map, or else a default.
  abbrev pub text_of : (PaymentEvent → String) → String → Events → String
  text_of field default events =
      unwrap_or
        (or_else (Option.map field (events merchant))
          (Option.map field (first_value (sv.host.hash_order events) events)))
        default

  abbrev pub overall_status : ReconciliationResult → String
  overall_status matched = "matched"
  overall_status (mismatched _) = "mismatch"

  -- The `match result` of `finalize_window`.
  unfoldable pub report : Uuid → ℤ → ReconciliationResult → Exec (State sv) (Unit {0})
  report tx_id now_ms matched = do
    ignore (on_redis sv (RedisStore.record_match_result sv.redis true))
    publish_event sv cfg (transaction_matched tx_id now_ms)
  report tx_id now_ms (mismatched incidents) = do
    ignore (on_redis sv (RedisStore.record_match_result sv.redis false))
    for_each persist_incident incidents

  unfoldable pub finalize_window : PartialTransaction → Exec (State sv) (Unit {0})
  finalize_window window = do
    finalize_start ← instant sv
    now_ms ← utc_now sv
    let tx_id = window.transaction_id
    let result = check_invariants window
    spent ← elapsed sv finalize_start
    on_postgres sv (
        PostgresStore.upsert_transaction sv.postgres tx_id (overall_status result)
          (text_of (λ e. e.currency) "UZS" window.events)
          (text_of (λ e. e.tx_type) "card" window.events)
          (and_then (window.events merchant) (λ e. e.merchant_id))
          (add_i64 window.processing_time_micros spent))
    on_postgres sv
        (PostgresStore.upsert_reconciliation_details sv.postgres tx_id (build_details window))
    report tx_id now_ms result
    cleanup_window tx_id

  -- The branch of `handle_event` for a source that was registered before.
  unfoldable pub handle_duplicate : PaymentEvent → ℕ → Exec (State sv) (Unit {0})
  handle_duplicate event start_inst = do
    let tx_id = event.transaction_id
    on_postgres sv (
        PostgresStore.upsert_transaction sv.postgres tx_id "pending" event.currency event.tx_type
          event.merchant_id (pos 0))
    persist_incident (record {
      transaction_id = tx_id;
      incident_type = duplicate;
      severity = pos 1;
      description = second_event event.source tx_id;
    })
    latency_micros ← elapsed sv start_inst
    now ← utc_text sv
    ignore (
        on_redis sv (
          RedisStore.record_event_processed sv.redis sv.codec now (Source.to_string event.source)
            latency_micros latency_micros))

  -- The first event of a window gives it its deadline.
  unfoldable pub open_window : PaymentEvent → PartialTransaction → ℤ → Exec (State sv) (Unit {0})
  open_window event window now_ms = do
    on_redis sv (RedisStore.add_deadline sv.redis sv.codec event.transaction_id window.deadline_ms)
    publish_event sv cfg (transaction_received event.transaction_id event.source now_ms)

  abbrev store_window : Uuid → PartialTransaction → State sv → State sv
  store_window tx_id window s = record s { windows = Windows.insert tx_id window s.windows }

  -- The branch for a complete window; returns the time spent on its logic.
  unfoldable pub complete_window : PartialTransaction → ℕ → Exec (State sv) ℤ
  complete_window window start_inst = do
    spent ← elapsed sv start_inst
    let total_logic = add_i64 window.processing_time_micros spent
    finalize_window (record window { processing_time_micros = total_logic })
    pure total_logic

  -- The branch for a window that still waits.
  unfoldable pub keep_waiting : Uuid → PartialTransaction → ℤ → ℕ → Exec (State sv) ℤ
  keep_waiting tx_id window now_ms start_inst = do
    publish_event sv cfg
        (transaction_progress tx_id (sources_seen (sv.host.hash_order window.events) window) now_ms)
    spent ← elapsed sv start_inst
    let current_logic = add_i64 window.processing_time_micros spent
    let updated = record window { processing_time_micros = current_logic }
    modify (store_window tx_id updated)
    on_redis sv (RedisStore.save_window sv.redis sv.codec updated)
    pure current_logic

  -- The window of a transaction, or a new one.
  abbrev pub window_of : Uuid → ℤ → Windows.Windows → PartialTransaction
  window_of tx_id now_ms windows =
      unwrap_or (Windows.get tx_id windows) (new tx_id now_ms cfg.reconciler_timeout_ms)

  abbrev pub with_event : PaymentEvent → PartialTransaction → PartialTransaction
  with_event event window = record window { events = insert event.source event window.events }

  -- The end of `handle_event`: close the window or keep it waiting, then count the event.
  unfoldable pub settle : PaymentEvent → PartialTransaction → ℕ → ℤ → Exec (State sv) (Unit {0})
  settle event window start_inst now_ms = do
    logic_micros ←
        (if is_complete window cfg.expected_sources_count
          then complete_window window start_inst
          else keep_waiting event.transaction_id window now_ms start_inst)
    total_micros ← elapsed sv start_inst
    now ← utc_text sv
    ignore (
        on_redis sv (
          RedisStore.record_event_processed sv.redis sv.codec now (Source.to_string event.source)
            total_micros logic_micros))

  -- The rest of `handle_event`, for a source that is seen for the first time. The first `modify`
  -- is `entry(tx_id).or_insert_with(…)`, which opens the window in the map.
  unfoldable pub gather : PaymentEvent → ℕ → ℤ → Exec (State sv) (Unit {0})
  gather event start_inst now_ms = do
    let tx_id = event.transaction_id
    found ← gets (λ s. window_of tx_id now_ms s.windows)
    modify (store_window tx_id found)
    let window = with_event event found
    (if len found.events == 0 then open_window event window now_ms else pure tt)
    modify (store_window tx_id window)
    on_redis sv (RedisStore.save_window sv.redis sv.codec window)
    settle event window start_inst now_ms

  -- After the claim of the event.
  unfoldable pub handle_claimed : PaymentEvent → ℕ → Exec (State sv) (Unit {0})
  handle_claimed event start_inst = do
    now_ms ← utc_now sv
    first_time_source ←
        on_redis sv (RedisStore.try_register_source sv.redis event.transaction_id event.source)
    (if first_time_source
        then gather event start_inst now_ms
        else handle_duplicate event start_inst)

  unfoldable pub handle_event : StreamMessage → Exec (State sv) (Unit {0})
  handle_event msg = do
    start_inst ← instant sv
    is_new ←
        on_redis sv
          (RedisStore.try_claim_event sv.redis msg.event.event_id cfg.reconciler_dedup_window_ms)
    (if is_new then handle_claimed msg.event start_inst else pure tt)

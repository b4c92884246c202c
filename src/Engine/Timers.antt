-- ===== src/Engine/Timers.antt =====
-- matcher/src/matcher.rs: the methods that the timer calls. The tasks that the source spawns for
-- the due identifiers run here one after another, in the order of the list.
pub mod Timeout
pub mod Tick
pub mod Escalation
use mathlib.Core.Option
use code_storm.Prelude.{
  Uuid, String, Option, none, some, List, if◌then◌else◌, map, unwrap_or, and_then,
}
use code_storm.Prelude.Int.{ℤ, pos}
use code_storm.Config.{Config}
use code_storm.Services.{Services}
use code_storm.Exec.{Exec, pure, gets, modify, ignore, ◌>>=◌, ◌>>◌, for_each}
use code_storm.Model.Source
use code_storm.Model.Source.{Source, merchant}
use code_storm.Model.Event.{PaymentEvent}
use code_storm.Model.Partial.{PartialTransaction, Events, is_complete, missing_sources, first_value}
use code_storm.Model.Incident.{Incident, missing_source, not_received}
use code_storm.Model.Details.{build_details}
use code_storm.Model.Pubsub.{incident_updated}
use code_storm.Store.RedisStore
use code_storm.Store.PostgresStore
use code_storm.Engine.Windows
use code_storm.Engine.Parts.{State, on_redis, on_postgres, utc_now, publish_event}
use code_storm.Engine.{persist_incident, cleanup_window, finalize_window}

module _ (sv : Services) (cfg : Config) where
  -- A text of the first event of the map, or else a default.
  abbrev pub first_text : (PaymentEvent → String) → String → Events → String
  first_text field default events =
      unwrap_or (Option.map field (first_value (sv.host.hash_order events) events)) default

  abbrev pub missing_incident : Uuid → List Source → Incident
  missing_incident tx_id missing = record {
    transaction_id = tx_id;
    incident_type = missing_source;
    severity = pos 1;
    description = not_received (map Source.to_string missing) cfg.reconciler_timeout_ms;
  }

  -- `handle_timeout` for a window that is still incomplete.
  unfoldable pub degrade_window : Uuid → PartialTransaction → Exec (State sv) (Unit {0})
  degrade_window tx_id window = do
    on_postgres sv (
        PostgresStore.upsert_transaction sv.postgres tx_id "degraded"
          (first_text (λ e. e.currency) "UZS" window.events)
          (first_text (λ e. e.tx_type) "card" window.events)
          (and_then (window.events merchant) (λ e. e.merchant_id)) (pos 0))
    on_postgres sv
        (PostgresStore.upsert_reconciliation_details sv.postgres tx_id (build_details window))
    persist_incident sv cfg (missing_incident tx_id (missing_sources window))
    cleanup_window sv cfg tx_id

  -- `handle_timeout` after `windows.remove`.
  abbrev pub handle_removed : Uuid → Option PartialTransaction → Exec (State sv) (Unit {0})
  handle_removed tx_id none = pure tt
  handle_removed tx_id (some window) =
      if is_complete window cfg.expected_sources_count
      then finalize_window sv cfg window
      else degrade_window tx_id window

  unfoldable pub handle_timeout : Uuid → Exec (State sv) (Unit {0})
  handle_timeout tx_id = do
    window ← gets (λ s. Windows.get tx_id s.windows)
    modify (λ s. record s { windows = Windows.remove tx_id s.windows })
    handle_removed tx_id window

  -- An error of a task is logged, and ends that task alone.
  unfoldable pub process_expired_windows : Exec (State sv) (Unit {0})
  process_expired_windows = do
    now_ms ← utc_now sv
    expired_ids ← on_redis sv (RedisStore.pop_expired_deadlines sv.redis sv.codec now_ms)
    for_each (λ tx_id. ignore (handle_timeout tx_id)) expired_ids

  -- The task of one due incident.
  unfoldable pub escalate : ℤ → Exec (State sv) (Unit {0})
  escalate incident_id = do
    escalated ← on_postgres sv (PostgresStore.escalate_incident sv.postgres incident_id (pos 2))
    (if escalated
        then (do
          now_ms ← utc_now sv
          ignore (publish_event sv cfg (incident_updated incident_id none (pos 2) now_ms)))
        else pure tt)

  unfoldable pub process_expired_escalations : Exec (State sv) (Unit {0})
  process_expired_escalations = do
    now_ms ← utc_now sv
    expired_incidents ← on_redis sv (RedisStore.pop_expired_escalations sv.redis now_ms)
    for_each (λ incident_id. ignore (escalate incident_id)) expired_incidents

  -- matcher/src/timer.rs: the body of the loop of `run`, but for the sleep.
  unfoldable pub tick : Exec (State sv) (Unit {0})
  tick = do ignore process_expired_windows; ignore process_expired_escalations

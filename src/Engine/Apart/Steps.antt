-- ===== src/Engine/Apart/Steps.antt =====
-- The engine's steps (matcher/src/matcher.rs) for one transaction leave the others alone, whether
-- they end well or in an error.
use code_storm.Prelude.{Uuid, String, true, false, ◌≡◌, refl, ◌∙◌, ◌==◌, ℕ, Option}
use code_storm.Prelude.Int.{ℤ, pos, ◌==ℤ◌}
use code_storm.Config.{Config}
use code_storm.Services.{Services, ServiceLaws}
use code_storm.Exec.{modify, ignore}
use code_storm.Exec.Wp.{wp-modify}
use code_storm.Exec.Keeps.{
  IsFrame, bind-Keeps, if-Keeps, ignore-Keeps, lift-Keeps, pure-Keeps, for_each-Keeps,
}
use code_storm.Model.Partial.{PartialTransaction}
use code_storm.Model.Incident.{Incident, ReconciliationResult, matched, mismatched}
use code_storm.Model.Pubsub.{PubsubEvent}
use code_storm.Engine.Windows
use code_storm.Store.RedisStore
use code_storm.Store.PostgresStore
use code_storm.Engine.Windows.{Windows, get-remove, get-insert_ne}
use code_storm.Engine.Parts.{reading, elapsed, publish_event, on_redis, on_postgres}
use code_storm.Engine.Seen.{wp-reading, wp-elapsed}
use code_storm.Engine.{
  persist_incident, cleanup_window, report, modify, ignore, Option, on_redis, on_postgres,
}
use code_storm.Engine.Apart.{
  Scope, Apart, IsApart, apart-IsFrame, on_redis-IsApart, on_postgres-IsApart,
}
use code_storm.Engine.Apart.Stores.{
  publish-Leaves, record_match_result-Leaves, add_escalation-Leaves, record_event_processed-Leaves,
  delete_window-Leaves, cleanup_sources-Leaves, remove_deadline-Leaves,
  upsert_transaction-LeavesTables, create_incident-LeavesTables,
}

module _ {sv : Services} {F : Type 0} (laws : ServiceLaws F sv) (cfg : Config) (scope : Scope)
    (tx : Uuid) where
  abbrev frame : IsFrame (Apart sv.codec scope tx)
  frame = apart-IsFrame sv.codec scope tx

  -- A change of the window of the transaction.
  pub modify-IsApart :
      (f : Windows → Windows)
      → ((windows : Windows) (k : Uuid)
          → (tx == k) ≡ false
          → Windows.get k (f windows) ≡ Windows.get k windows)
      → IsApart sv scope tx (modify (λ s. record s { windows = f s.windows }))
  modify-IsApart f h σ =
      let same = frame.stay σ in
      wp-modify _ (λ σ. record σ { windows = f σ.windows }) (λ s. refl)
        (record { windows = h σ.windows; view = same.view; tables = same.tables })

  pub insert-IsApart :
      (w : PartialTransaction)
      → IsApart sv scope tx (modify (λ s. record s { windows = Windows.insert tx w s.windows }))
  insert-IsApart w =
      modify-IsApart (Windows.insert tx w) (λ windows k h. get-insert_ne tx k w windows h)

  pub reading-IsApart :
      {A : Type 0} (read : sv.host.Machine → A × sv.host.Machine)
      → IsApart sv scope tx (reading sv read)
  reading-IsApart read σ = wp-reading sv read (λ _. frame.stay σ)

  pub elapsed-IsApart : (start : ℕ) → IsApart sv scope tx (elapsed sv start)
  elapsed-IsApart start σ = wp-elapsed sv start (λ _. frame.stay σ)

  pub publish_event-IsApart :
      (event : PubsubEvent) → IsApart sv scope tx (publish_event sv cfg event)
  unfolding publish_event
  publish_event-IsApart event = bind-Keeps frame _ _ (lift-Keeps frame _) (λ t.
      on_redis-IsApart sv scope tx (publish-Leaves laws.redis_laws laws.codec_laws scope tx _ t))

  pub persist_incident-IsApart : (i : Incident) → IsApart sv scope tx (persist_incident sv cfg i)
  unfolding persist_incident
  persist_incident-IsApart i =
      bind-Keeps frame _ _
        (on_postgres-IsApart sv scope tx (create_incident-LeavesTables laws.postgres_laws tx i))
        (λ id. bind-Keeps frame _ _ (reading-IsApart _) (λ now_ms.
          bind-Keeps frame _ _
            (if-Keeps frame (i.severity ==ℤ pos 1) _ _
              (on_redis-IsApart sv scope tx
                (add_escalation-Leaves laws.redis_laws laws.codec_laws scope tx id _))
              (pure-Keeps frame tt))
            (λ _. publish_event-IsApart _)))

  pub cleanup_window-IsApart :
      scope.own_sources ≡ true → IsApart sv scope tx (cleanup_window sv cfg tx)
  unfolding cleanup_window
  cleanup_window-IsApart own =
      bind-Keeps frame _ _
        (modify-IsApart (Windows.remove tx) (λ windows k h. get-remove tx k windows ∙ rw h refl))
        (λ _.
          bind-Keeps frame _ _
            (on_redis-IsApart sv scope tx
              (delete_window-Leaves laws.redis_laws laws.codec_laws scope tx))
            (λ _.
              bind-Keeps frame _ _
                (on_redis-IsApart sv scope tx
                  (remove_deadline-Leaves laws.redis_laws laws.codec_laws scope tx))
                (λ _.
                  on_redis-IsApart sv scope tx
                    (cleanup_sources-Leaves laws.redis_laws laws.codec_laws scope tx own))))

  pub report-IsApart :
      (now_ms : ℤ) (r : ReconciliationResult) → IsApart sv scope tx (report sv cfg tx now_ms r)
  unfolding report
  report-IsApart now_ms matched =
      bind-Keeps frame _ _
        (ignore-Keeps frame _ (
          on_redis-IsApart sv scope tx
            (record_match_result-Leaves laws.redis_laws laws.codec_laws scope tx true)))
        (λ _. publish_event-IsApart _)
  report-IsApart now_ms (mismatched incidents) =
      bind-Keeps frame _ _
        (ignore-Keeps frame _ (
          on_redis-IsApart sv scope tx
            (record_match_result-Leaves laws.redis_laws laws.codec_laws scope tx false)))
        (λ _. for_each-Keeps frame _ incidents persist_incident-IsApart)

  -- The last step of a handled event.
  pub metrics-IsApart :
      (now source : String) (total logic : ℤ)
      → IsApart sv scope tx (
          ignore (
            on_redis sv
              (RedisStore.record_event_processed sv.redis sv.codec now source total logic)))
  metrics-IsApart now source total logic = ignore-Keeps frame _ (
      on_redis-IsApart sv scope tx (
        record_event_processed-Leaves laws.redis_laws laws.codec_laws scope tx now source total
          logic))

  pub store_row-IsApart :
      (status currency tx_type : String) (merchant_id : Option String) (micros : ℤ)
      → IsApart sv scope tx (
          on_postgres sv (
            PostgresStore.upsert_transaction sv.postgres tx status currency tx_type merchant_id
              micros))
  store_row-IsApart status currency tx_type merchant_id micros = on_postgres-IsApart sv scope tx (
      upsert_transaction-LeavesTables laws.postgres_laws tx status currency tx_type merchant_id
        micros)

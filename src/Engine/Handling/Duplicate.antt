-- ===== src/Engine/Handling/Duplicate.antt =====
-- `handle_event` for the second event of a source.
use code_storm.Prelude.{ℕ, [], Uuid, String, ◌≡◌, refl, true, ◌∙◌, ap}
use code_storm.Prelude.Int.{ℤ, pos}
use code_storm.Config.{Config}
use code_storm.Services.{Services, ServiceLaws}
use code_storm.Exec.{ignore}
use code_storm.Exec.Wp.{Wp, wp-bind, wp-command, wp-ignore, wp-weaken}
use code_storm.Redis.View.{window, incident_escalations}
use code_storm.Postgres.{TransactionRow, fits, insert_transaction}
use code_storm.Model.Event.{PaymentEvent}
use code_storm.Model.Incident.{Incident, duplicate, second_event}
use code_storm.Store.RedisStore
use code_storm.Store.PostgresStore
use code_storm.Store.RedisStore.Metrics.{Metered, record_event_processed-Metered}
use code_storm.Engine.Parts.{on_redis}
use code_storm.Engine.Seen.{Seen, see, wp-redis, wp-postgres, wp-reading, wp-elapsed}
use code_storm.Engine.Incidents.{persisted-IsRecorded, persist_incident-Wp, IsRecorded}
use code_storm.Engine.Finalize.Closing.{
  transaction_there, stored_transaction, on_conflict-status, HasStatus, row_accepted,
}
use code_storm.Engine.{handle_duplicate}

-- What two states have in common when only metrics lie between them.
pub record MeteredOnly (σ τ : Seen) : Type 0 where
  pub windows : τ.windows ≡ σ.windows
  pub view : Metered σ.view τ.view
  pub tables : τ.tables ≡ σ.tables

module _ {sv : Services} {F : Type 0} (laws : ServiceLaws F sv) (cfg : Config) where
  -- The last step of a handled event, whose error is dropped.
  pub metrics-Wp :
      (now source : String) (total logic : ℤ) (σ : Seen) {Q : Unit {0} → Seen → Type 0}
      {E : Seen → Type 0}
      → ((τ : Seen) → MeteredOnly σ τ → Q tt τ)
      → Wp
          (see sv)
          σ
          (ignore (
            on_redis sv
              (RedisStore.record_event_processed sv.redis sv.codec now source total logic)))
          Q
          E
  metrics-Wp now source total logic σ q = wp-ignore _ (
      wp-redis sv (
        wp-weaken
          (record_event_processed-Metered laws.redis_laws sv.codec now source total logic σ.view)
          (λ _ v m. q (record σ { view = v }) (record { windows = refl; view = m; tables = refl }))
          (λ v m. q (record σ { view = v }) (record { windows = refl; view = m; tables = refl }))))

  abbrev pub duplicate_incident : PaymentEvent → Incident
  duplicate_incident event = record {
    transaction_id = event.transaction_id;
    incident_type = duplicate;
    severity = pos 1;
    description = second_event event.source event.transaction_id;
  }

  pub IsRecorded-metered :
      {σ τ : Seen} (i : Incident)
      → MeteredOnly σ τ
      → IsRecorded laws cfg σ i
      → IsRecorded laws cfg τ i
  IsRecorded-metered i m (id, now_ms, stored, due) = (
    id,
    now_ms,
    ap (λ t. t.incidents id) m.tables ∙ stored,
    ap (λ z. z incident_escalations id) m.view.int_zsets ∙ due,
  )

  -- The row that is upserted for a duplicate.
  abbrev pub pending_row : PaymentEvent → TransactionRow
  pending_row event = record {
    overall_status = "pending";
    currency = event.currency;
    tx_type = event.tx_type;
    merchant_id = event.merchant_id;
    processing_time_micros = pos 0;
  }

  -- A duplicate is recorded as an incident, and leaves the windows alone.
  pub record Duplicated (event : PaymentEvent) (σ τ : Seen) : Type 0 where
    pub windows : τ.windows ≡ σ.windows
    pub saved : (k : Uuid) → τ.view.strings (window k) ≡ σ.view.strings (window k)
    pub deadlines : τ.view.text_zsets ≡ σ.view.text_zsets
    pub status : HasStatus laws cfg event.transaction_id "pending" τ
    pub recorded : IsRecorded laws cfg τ (duplicate_incident event)

  -- Where the texts of an event fit the columns of the transactions, the branch of `handle_event`
  -- for a second event of a source, unless a service fails, leaves the windows in memory and in
  -- Redis and the deadlines as they are, gives the transaction the status pending, and stores one
  -- open incident of a duplicate that is put up for escalation.
  pub handle_duplicate-Duplicated :
      (event : PaymentEvent) (start_inst : ℕ) (σ : Seen)
      → fits (pending_row event) ≡ true
      → Wp
          (see sv)
          σ
          (handle_duplicate sv cfg event start_inst)
          (λ _ τ. Duplicated event σ τ)
          (λ _. F)
  unfolding handle_duplicate PostgresStore.upsert_transaction
  handle_duplicate-Duplicated event start_inst σ ok_row = wp-bind _ _ (
      wp-postgres sv (
        wp-command
          (laws.postgres_laws.insert_transaction_law event.transaction_id (pending_row event))
          (λ _ _. wp-bind _ _ (
            persist_incident-Wp laws cfg (duplicate_incident event) _ refl
              (transaction_there event.transaction_id (pending_row event) [] σ.tables)
              (λ id now_ms t fresh. wp-bind _ _ (
                wp-elapsed sv start_inst λ latency. wp-bind _ _ (
                  wp-reading sv _ λ now. metrics-Wp _ _ _ _ _ λ τ m. record {
                    windows = m.windows;
                    saved = m.view.windows;
                    deadlines = m.view.text_zsets;
                    status = (
                      _,
                      ap (λ t. t.transactions event.transaction_id) m.tables
                          ∙ stored_transaction event.transaction_id (pending_row event) [] σ.tables,
                      on_conflict-status (σ.tables.transactions event.transaction_id)
                          (pending_row event),
                    );
                    recorded = IsRecorded-metered (duplicate_incident event) m (
                        persisted-IsRecorded laws cfg (duplicate_incident event) id now_ms t
                          (record σ {
                            tables =
                                insert_transaction event.transaction_id (pending_row event)
                                  σ.tables;
                          }));
                  })))))
          (row_accepted (pending_row event) ok_row)
          (λ _ h _. row_accepted (pending_row event) ok_row h)))

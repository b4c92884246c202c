-- ===== src/Store/PostgresStore.antt =====
-- matcher/src/store.rs: the methods of `PostgresStore`, each over its SQL statement.
pub mod Rows
use code_storm.Prelude.{ℕ, Uuid, String, Bool, Option, List, ltb}
use code_storm.Prelude.Int.{ℤ}
use code_storm.Exec.{Exec, pure, ◌>>=◌, for_each}
use code_storm.Model.Incident
use code_storm.Model.Incident.{Incident, ReconciliationDetail}
use code_storm.Postgres.{Postgres, TransactionRow, IncidentRow}

abbrev pub incident_row : Incident → IncidentRow
incident_row incident = record {
  transaction_id = incident.transaction_id;
  incident_type = Incident.to_string incident.incident_type;
  severity = incident.severity;
  description = incident.description;
  status = "open";
}

module _ (p : Postgres) where
  -- The processing time is in thousandths of the `f64` of milliseconds.
  unfoldable pub upsert_transaction :
      Uuid → String → String → String → Option String → ℤ → Exec p.Db (Unit {0})
  upsert_transaction transaction_id overall_status currency tx_type merchant_id
        processing_time_micros =
      p.insert_transaction transaction_id (record {
        overall_status = overall_status;
        currency = currency;
        tx_type = tx_type;
        merchant_id = merchant_id;
        processing_time_micros = processing_time_micros;
      })

  unfoldable pub upsert_reconciliation_details :
      Uuid → List ReconciliationDetail → Exec p.Db (Unit {0})
  upsert_reconciliation_details transaction_id details =
      for_each (λ d. p.insert_detail transaction_id d) details

  unfoldable pub create_incident : Incident → Exec p.Db ℤ
  create_incident incident = p.insert_incident (incident_row incident)

  unfoldable pub escalate_incident : ℤ → ℤ → Exec p.Db Bool
  escalate_incident incident_id new_severity = do
    rows_affected ← p.update_severity incident_id new_severity
    pure (ltb 0 rows_affected)

-- ===== src/Postgres.antt =====
-- The statements that matcher/src/store.rs sends to PostgreSQL, and the tables of
-- matcher/migrations that they touch. The server is not part of the repository: `Postgres` has one
-- operation for each statement, and `PostgresLaws` says that the server executes the text of the
-- statement. The columns filled by NOW() are left out.
use text.Mathlib.Text.{◌==◌ as str_eq}
use code_storm.Model.Source
use mathlib.Core.Option
use Prim.Native.String.{count}
use code_storm.Prelude.{
  ℕ, ◌≡◌, ◌⊎◌, Uuid, String, Bool, true, false, not, ◌&&◌, Option, none, some, ◌==◌, leb,
  if◌then◌else◌, is_some, unwrap_or,
}
use code_storm.Prelude.Int.{ℤ, ◌==ℤ◌, ltb_ℤ}
use code_storm.Exec.{Exec}
use code_storm.Exec.Wp.{Obeys}
use code_storm.Model.Incident.{Description, ReconciliationDetail}

pub record TransactionRow : Type 0 where
  pub overall_status : String
  pub currency : String
  pub tx_type : String
  pub merchant_id : Option String
  -- `processing_time_ms`, in thousandths.
  pub processing_time_micros : ℤ

pub record IncidentRow : Type 0 where
  pub transaction_id : Uuid
  pub incident_type : String
  pub severity : ℤ
  pub description : Description
  pub status : String

pub record Tables : Type 0 where
  pub transactions : Uuid → Option TransactionRow
  pub reconciliation_details : Uuid → Source.Source → Option ReconciliationDetail
  pub incidents : ℤ → Option IncidentRow

-- `ON CONFLICT (transaction_id) DO UPDATE SET overall_status, processing_time_ms`
abbrev pub on_conflict_transaction : Option TransactionRow → TransactionRow → TransactionRow
on_conflict_transaction none excluded = excluded
on_conflict_transaction (some row) excluded = record row {
  overall_status = excluded.overall_status;
  processing_time_micros = excluded.processing_time_micros;
}

abbrev pub insert_transaction : Uuid → TransactionRow → Tables → Tables
insert_transaction tx row t = record t {
  transactions = λ k.
      if tx == k then some (on_conflict_transaction (t.transactions tx) row) else t.transactions k;
}

-- `ON CONFLICT (transaction_id, source) DO UPDATE SET` every other column.
abbrev pub insert_detail : Uuid → ReconciliationDetail → Tables → Tables
insert_detail tx d t = record t {
  reconciliation_details =
      λ k s. if tx == k && Source.◌==◌ d.source s then some d else t.reconciliation_details k s;
}

abbrev pub insert_incident : IncidentRow → ℤ → Tables → Tables
insert_incident row id t = record t {
  incidents = λ k. if id ==ℤ k then some row else t.incidents k;
}

-- `WHERE id = $1 AND status = 'open' AND severity < $2`
abbrev pub is_escalable : ℤ → Option IncidentRow → Bool
is_escalable severity none = false
is_escalable severity (some row) = str_eq row.status "open" && ltb_ℤ row.severity severity

abbrev pub with_severity : ℤ → IncidentRow → IncidentRow
with_severity severity row = record row { severity = severity }

-- `SET severity = $2`
abbrev pub update_severity : ℤ → ℤ → Tables → Tables
update_severity id severity t = record t {
  incidents = λ k.
      if id ==ℤ k && is_escalable severity (t.incidents id)
      then Option.map (with_severity severity) (t.incidents k)
      else t.incidents k;
}

abbrev pub updated_rows : ℤ → ℤ → Tables → ℕ
updated_rows id severity t = if is_escalable severity (t.incidents id) then 1 else 0

pub record Postgres : Type 1 where
  pub Db : Type 0
  pub tables : Db → Tables
  pub insert_transaction : Uuid → TransactionRow → Exec Db (Unit {0})
  pub insert_detail : Uuid → ReconciliationDetail → Exec Db (Unit {0})
  pub insert_incident : IncidentRow → Exec Db ℤ
  pub update_severity : ℤ → ℤ → Exec Db ℕ
  -- `SELECT 1`
  pub select_one : Exec Db ℤ

-- A row that references a transaction which is not there.
abbrev pub dangles : Uuid → Tables → Bool
dangles tx t = not (is_some (t.transactions tx))

-- The columns CHAR(3), VARCHAR(20) and VARCHAR(100) of `transactions`.
abbrev pub fits : TransactionRow → Bool
fits row =
    leb (count row.currency) 3
    && leb (count row.tx_type) 20
    && leb (unwrap_or (Option.map count row.merchant_id) 0) 100

-- A statement fails by a fault of the server or the network, or where it breaks a constraint of
-- the tables: a value too long for its column, or a reference to a missing transaction.
pub record PostgresLaws (faults : Type 0) (p : Postgres) : Type 0 where
  pub insert_transaction_law :
      (tx : Uuid) (row : TransactionRow)
      → Obeys p.tables
          (λ _. faults ⊎ (fits row ≡ false))
          (λ _ _. Unit)
          (λ _. insert_transaction tx row)
          (p.insert_transaction tx row)
  pub insert_detail_law :
      (tx : Uuid) (d : ReconciliationDetail)
      → Obeys p.tables
          (λ t. faults ⊎ (dangles tx t ≡ true))
          (λ _ _. Unit)
          (λ _. insert_detail tx d)
          (p.insert_detail tx d)
  -- A new row gets an id that is not in use.
  pub insert_incident_law :
      (row : IncidentRow)
      → Obeys p.tables
          (λ t. faults ⊎ (dangles row.transaction_id t ≡ true))
          (λ t id. t.incidents id ≡ none)
          (insert_incident row)
          (p.insert_incident row)
  pub update_severity_law :
      (id severity : ℤ)
      → Obeys p.tables
          (λ _. faults)
          (λ t n. n ≡ updated_rows id severity t)
          (λ _. update_severity id severity)
          (p.update_severity id severity)
  pub select_one_law : Obeys p.tables (λ _. faults) (λ _ _. Unit) (λ _ t. t) p.select_one

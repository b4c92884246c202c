-- ===== src/Examples/Database.antt =====
-- A database whose statements fail only where they break a constraint, with its laws.
use mathlib.Core.Path.{fun_ext}
use mathlib.Core.Option
use code_storm.Prelude.{
  ℕ, zero, suc, ◌≡◌, refl, Bool, true, false, Uuid, Option, none, some, List, [], ◌∷◌, ◌++◌, ◌==◌,
  ◌&&◌, if◌then◌else◌, length, get_elem?, arith, inl, inr, ◌⊎◌, not, Bool-cases,
}
use code_storm.Prelude.Int.{ℤ, pos, negsuc, ◌==ℤ◌}
use code_storm.Error.{ReconcilerError, Result, ok, err}
use code_storm.Exec.Ensures.{Performs}
use code_storm.Model.Source.{Source}
use code_storm.Model.Incident.{ReconciliationDetail}
use code_storm.Postgres.{
  insert_transaction, insert_detail, insert_incident, TransactionRow, IncidentRow, Tables,
  is_escalable, with_severity, Postgres, PostgresLaws, fits, dangles, updated_rows,
}

-- The incidents are numbered from 0 in the order of their insertion.
pub record Rows : Type 0 where
  pub transactions : Uuid → Option TransactionRow
  pub details : Uuid → Source → Option ReconciliationDetail
  pub incidents : List IncidentRow

abbrev incident_at : List IncidentRow → ℤ → Option IncidentRow
incident_at rows (pos n) = get_elem? rows n
incident_at rows (negsuc n) = none

abbrev pub tables : Rows → Tables
tables db = record {
  transactions = db.transactions;
  reconciliation_details = db.details;
  incidents = incident_at db.incidents;
}

-- A statement that a constraint may refuse.
abbrev pub guarded : {A : Type 0} → Bool → A → Rows → Rows → Result A × Rows
guarded true a new old = (err (ReconcilerError.postgres "constraint"), old)
guarded false a new old = (ok a, new)

guarded-Performs :
    {A : Type 0} (b : Bool) (a : A) (new old : Rows) (P : Tables → A → Type 0)
    (eff : A → Tables → Tables)
    → P (tables old) a
    → tables new ≡ eff a (tables old)
    → Performs tables (λ _. ⊥ ⊎ (b ≡ true)) P eff (tables old) (guarded b a new old)
guarded-Performs true a new old P eff p e = (inr refl, inl refl)
guarded-Performs false a new old P eff p e = (p, e)

abbrev pub raised : List IncidentRow → ℕ → ℤ → List IncidentRow
raised [] n severity = []
raised (row ∷ rows) zero severity =
    (if is_escalable severity (some row) then with_severity severity row else row) ∷ rows
raised (row ∷ rows) (suc n) severity = row ∷ raised rows n severity

abbrev pub raised_at : List IncidentRow → ℤ → ℤ → List IncidentRow
raised_at rows (pos n) severity = raised rows n severity
raised_at rows (negsuc n) severity = rows

abbrev pub transaction_put : Uuid → TransactionRow → Rows → Rows
transaction_put tx row db = record db {
  transactions = (insert_transaction tx row (tables db)).transactions;
}

abbrev pub detail_put : Uuid → ReconciliationDetail → Rows → Rows
detail_put tx d db = record db { details = (insert_detail tx d (tables db)).reconciliation_details }

abbrev pub incident_put : IncidentRow → Rows → Rows
incident_put row db = record db { incidents = db.incidents ++ (row ∷ []) }

get_elem?-snoc :
    (rows : List IncidentRow) (row : IncidentRow) (n : ℕ)
    → get_elem? (rows ++ (row ∷ [])) n ≡ (if length rows == n then some row else get_elem? rows n)
get_elem?-snoc [] row zero = refl
get_elem?-snoc [] row (suc n) = ground arith
get_elem?-snoc (r ∷ rows) row zero = ground arith
get_elem?-snoc (r ∷ rows) row (suc n) = ground (arith, get_elem?-snoc rows row n)

get_elem?-length : (rows : List IncidentRow) → get_elem? rows (length rows) ≡ none
get_elem?-length [] = refl
get_elem?-length (r ∷ rows) = ground (arith, get_elem?-length rows)

incident_at-snoc :
    (rows : List IncidentRow) (row : IncidentRow) (k : ℤ)
    → incident_at (rows ++ (row ∷ [])) k
      ≡ (if pos (length rows) ==ℤ k then some row else incident_at rows k)
incident_at-snoc rows row (pos n) = get_elem?-snoc rows row n
incident_at-snoc rows row (negsuc n) = refl

get_elem?-raised :
    (rows : List IncidentRow) (n : ℕ) (severity : ℤ) (k : ℕ)
    → get_elem? (raised rows n severity) k ≡ (
        if (n == k) && is_escalable severity (get_elem? rows n)
        then Option.map (with_severity severity) (get_elem? rows k)
        else get_elem? rows k)
get_elem?-raised [] n severity k = ground arith
get_elem?-raised (row ∷ rows) zero severity zero = ground arith
get_elem?-raised (row ∷ rows) zero severity (suc k) = ground arith
get_elem?-raised (row ∷ rows) (suc n) severity zero = ground arith
get_elem?-raised (row ∷ rows) (suc n) severity (suc k) =
    ground (arith, get_elem?-raised rows n severity k)

incident_at-raised :
    (rows : List IncidentRow) (id severity k : ℤ)
    → incident_at (raised_at rows id severity) k ≡ (
        if (id ==ℤ k) && is_escalable severity (incident_at rows id)
        then Option.map (with_severity severity) (incident_at rows k)
        else incident_at rows k)
incident_at-raised rows (pos n) severity (pos k) = get_elem?-raised rows n severity k
incident_at-raised rows (pos n) severity (negsuc k) = ground arith
incident_at-raised rows (negsuc n) severity (pos k) = ground arith
incident_at-raised rows (negsuc n) severity (negsuc k) = ground arith

abbrev pub incident_raised : ℤ → ℤ → Rows → Rows
incident_raised id severity db = record db { incidents = raised_at db.incidents id severity }

abbrev pub postgres : Postgres
postgres = record {
  Db = Rows;
  tables = tables;
  insert_transaction = λ tx row db. guarded (not (fits row)) tt (transaction_put tx row db) db;
  insert_detail = λ tx d db. guarded (dangles tx (tables db)) tt (detail_put tx d db) db;
  insert_incident = λ row db.
      guarded (dangles row.transaction_id (tables db)) (pos (length db.incidents))
        (incident_put row db) db;
  update_severity =
      λ id severity db. (ok (updated_rows id severity (tables db)), incident_raised id severity db);
  select_one = λ db. (ok (pos 1), db);
}

pub postgres_laws : PostgresLaws ⊥ postgres
postgres_laws = record {
  insert_transaction_law = λ tx row. record {
    at = λ db. elim (Bool-cases (fits row)) [
      | inl good ↦ rw good (tt, refl)
      | inr bad ↦ rw bad (inr refl, inl refl)
    ];
  };
  insert_detail_law = λ tx d. record {
    at = λ db.
        guarded-Performs (dangles tx (tables db)) tt (detail_put tx d db) db (λ _ _. Unit)
          (λ _. insert_detail tx d) tt refl;
  };
  insert_incident_law = λ row. record {
    at = λ db.
        guarded-Performs (dangles row.transaction_id (tables db)) (pos (length db.incidents))
          (incident_put row db) db (λ t id. t.incidents id ≡ none) (insert_incident row)
          (get_elem?-length db.incidents)
          (λ i. record (tables db) { incidents = fun_ext (incident_at-snoc db.incidents row) i });
  };
  update_severity_law = λ id severity. record {
    at = λ db. (
      refl,
      λ i. record (tables db) {
        incidents = fun_ext (incident_at-raised db.incidents id severity) i;
      },
    );
  };
  select_one_law = record { at = λ db. (tt, refl) };
}

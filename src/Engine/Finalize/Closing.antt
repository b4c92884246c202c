-- ===== src/Engine/Finalize/Closing.antt =====
-- `finalize_window` (matcher/src/matcher.rs) as a whole: the row, the details, the verdict and the cleanup.
use code_storm.Engine.Finalize.{
  insert_details, cleaned, Announced, upsert_details-Wp, report-Wp, cleanup-Wp,
  insert_details-transactions,
}
use text.Mathlib.TextEquality.{eq_iff}
use mathlib.Core.Bool.{false≢true}
use code_storm.Prelude.{
  if◌then◌else◌, subst, sym, ap, refl, Uuid, ◌⊎◌, inl, inr, ◌∙◌, List, [], ◌∷◌, All, some, none,
  arith, true, false, ◌≢◌, ◌≡◌, String, and_then, ◌==◌, Option,
}
use code_storm.Prelude.Int.{ℤ, pos, add_i64}
use code_storm.Config.{Config}
use code_storm.Services.{Services, ServiceLaws}
use code_storm.Redis.View.{window, sources, deadlines}
use code_storm.Postgres.{Tables, TransactionRow, insert_transaction, on_conflict_transaction, fits}
use code_storm.Exec.Wp.{Wp, wp-bind, wp-command, wp-weaken}
use code_storm.Model.Source.{merchant}
use code_storm.Model.Partial.{PartialTransaction}
use code_storm.Model.Incident.{ReconciliationDetail, ReconciliationResult, matched, mismatched}
use code_storm.Model.Invariants.{check_invariants}
use code_storm.Model.Invariants.Incidents.{check_invariants-IsFresh}
use code_storm.Model.Details.{build_details}
use code_storm.Store.PostgresStore
use code_storm.Engine.Windows
use code_storm.Engine.Windows.{get-remove}
use code_storm.Engine.Seen.{Seen, see, wp-postgres, wp-reading, wp-elapsed}
use code_storm.Engine.{finalize_window, overall_status, text_of}

-- Each detail of a window is stored under its source.
pub stored_details :
    (tx : Uuid) (p : PartialTransaction) (t : Tables)
    → All
        (λ d. (insert_details tx (build_details p) t).reconciliation_details tx d.source ≡ some d)
        (build_details p)
unfolding build_details
stored_details tx p t = ground arith

-- The row that a conflict leaves has the new status.
pub on_conflict-status :
    (old : Option TransactionRow) (new : TransactionRow)
    → (on_conflict_transaction old new).overall_status ≡ new.overall_status
on_conflict-status none new = refl
on_conflict-status (some row) new = refl

pub stored_transaction :
    (tx : Uuid) (row : TransactionRow) (ds : List ReconciliationDetail) (t : Tables)
    → (insert_details tx ds (insert_transaction tx row t)).transactions tx
      ≡ some (on_conflict_transaction (t.transactions tx) row)
stored_transaction tx row ds t =
    rw (insert_details-transactions tx ds (insert_transaction tx row t)) (ground arith)

pub transaction_there :
    (tx : Uuid) (row : TransactionRow) (ds : List ReconciliationDetail) (t : Tables)
    → (insert_details tx ds (insert_transaction tx row t)).transactions tx ≢ none
transaction_there tx row ds t e = cc (stored_transaction tx row ds t)

pub row_accepted :
    {F : Type 0} (row : TransactionRow) → fits row ≡ true → F ⊎ (fits row ≡ false) → F
row_accepted row h (inl f) = f
row_accepted row h (inr e) = absurd (false≢true (sym e ∙ h))

module _ {sv : Services} {F : Type 0} (laws : ServiceLaws F sv) (cfg : Config) where
  -- The row that `finalize_window` upserts.
  abbrev pub closing_row : PartialTransaction → ℤ → TransactionRow
  closing_row p micros = record {
    overall_status = overall_status sv cfg (check_invariants p);
    currency = text_of sv cfg (λ e. e.currency) "UZS" p.events;
    tx_type = text_of sv cfg (λ e. e.tx_type) "card" p.events;
    merchant_id = and_then (p.events merchant) (λ e. e.merchant_id);
    processing_time_micros = micros;
  }

  -- What is seen once the verdict and the details are stored.
  abbrev stored : PartialTransaction → ℤ → Seen → Seen
  stored p micros σ = record σ {
    tables =
        insert_details p.transaction_id (build_details p)
          (insert_transaction p.transaction_id (closing_row p micros) σ.tables);
  }

  -- Nothing of the window of a transaction is left, in memory or in Redis; the other windows stay.
  pub record Forgotten (tx : Uuid) (σ τ : Seen) : Type 0 where
    pub windows :
        (k : Uuid) → Windows.get k τ.windows ≡ (if tx == k then none else Windows.get k σ.windows)
    pub no_window : τ.view.strings (window tx) ≡ none
    pub no_sources : (s : String) → τ.view.sets (sources tx) s ≡ false
    pub no_deadline : τ.view.text_zsets deadlines (sv.codec.uuid_to_string tx) ≡ none

  pub cleaned-Forgotten :
      (tx : Uuid) (σ τ : Seen) → τ.windows ≡ σ.windows → Forgotten tx σ (cleaned laws cfg tx τ)
  cleaned-Forgotten tx σ τ e = record {
    windows = λ k. ground (arith, get-remove tx k τ.windows);
    no_window = ground arith;
    no_sources = λ s. ground arith;
    no_deadline = ground (arith, eq_iff (sv.codec.uuid_to_string tx) (sv.codec.uuid_to_string tx));
  }

  -- A transaction is stored with a status.
  abbrev pub HasStatus : Uuid → String → Seen → Type 0
  HasStatus tx status τ =
      (row : TransactionRow) × (τ.tables.transactions tx ≡ some row) × (row.overall_status ≡ status)

  pub Announced-cleaned :
      (r : ReconciliationResult) (tx : Uuid) (σ ρ υ : Seen)
      → ρ.view ≡ σ.view
      → Announced laws cfg ρ υ r tx
      → Announced laws cfg σ (cleaned laws cfg tx υ) r tx
  Announced-cleaned matched tx σ ρ υ e (now_ms, t, text, sent) =
      (now_ms, t, text, sent ∙ ap (λ v. (cfg.redis_pubsub_channel, t) ∷ v.published) e)
  Announced-cleaned (mismatched incidents) tx σ ρ υ e h = h

  pub record Finalized (p : PartialTransaction) (σ τ : Seen) : Type 0 where
    pub forgotten : Forgotten p.transaction_id σ τ
    pub status : HasStatus p.transaction_id (overall_status sv cfg (check_invariants p)) τ
    pub details :
        All
          (λ d. τ.tables.reconciliation_details p.transaction_id d.source ≡ some d)
          (build_details p)
    pub announced : Announced laws cfg σ τ (check_invariants p) p.transaction_id

  -- Where the row of a window fits the transactions, `finalize_window`, unless a service fails,
  -- leaves nothing of the window in memory, in Redis or among the deadlines and keeps the other
  -- windows; the transaction has the status of the verdict, every detail is stored under its
  -- source, and either the match is published as the only new event, or each incident of the
  -- mismatch is stored open and put up for escalation.
  pub finalize_window-Finalized :
      (p : PartialTransaction) (σ : Seen)
      → fits (closing_row p (pos 0)) ≡ true
      → Wp (see sv) σ (finalize_window sv cfg p) (λ _ τ. Finalized p σ τ) (λ _. F)
  unfolding finalize_window PostgresStore.upsert_transaction
      PostgresStore.upsert_reconciliation_details
  finalize_window-Finalized p σ ok_row = wp-bind _ _ (
      wp-reading sv _ λ finalize_start. wp-bind _ _ (
        wp-reading sv _ λ now_ms. wp-bind _ _ (
          wp-elapsed sv finalize_start λ spent. wp-bind _ _ (
            wp-postgres sv (
              wp-command
                (laws.postgres_laws.insert_transaction_law p.transaction_id
                  (closing_row p (add_i64 p.processing_time_micros spent)))
                (λ _ _. wp-bind _ _ (
                  wp-postgres sv (
                    upsert_details-Wp laws cfg p.transaction_id (build_details p) _
                      (transaction_there p.transaction_id _ [] σ.tables)
                      (wp-bind _ _ (
                        wp-weaken
                          (report-Wp laws cfg p.transaction_id now_ms (check_invariants p) _
                            (check_invariants-IsFresh p)
                            (transaction_there p.transaction_id _ (build_details p) σ.tables))
                          (λ _ υ (r, ann). cleanup-Wp laws cfg p.transaction_id υ (record {
                            forgotten = cleaned-Forgotten p.transaction_id σ υ r.windows;
                            status = (
                              _,
                              ap (λ f. f p.transaction_id) r.transactions
                                  ∙ stored_transaction p.transaction_id _ (build_details p)
                                      σ.tables,
                              on_conflict-status (σ.tables.transactions p.transaction_id) _,
                            );
                            details =
                                subst
                                  (λ f.
                                    All (λ d. f p.transaction_id d.source ≡ some d)
                                      (build_details p))
                                  (sym r.details) (stored_details p.transaction_id p _);
                            announced =
                                Announced-cleaned (check_invariants p) p.transaction_id σ
                                  (stored p (add_i64 p.processing_time_micros spent) σ) υ refl ann;
                          }))
                          (λ _ f. f))))))
                (row_accepted (closing_row p (pos 0)) ok_row)
                (λ _ h _. row_accepted (closing_row p (pos 0)) ok_row h))))))

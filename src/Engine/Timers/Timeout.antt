-- ===== src/Engine/Timers/Timeout.antt =====
-- `handle_timeout` (matcher/src/matcher.rs), by the window that it finds.
use mathlib.Core.Option
use Prim.Native.String.{count, []}
use code_storm.Prelude.{
  Uuid, ◌≡◌, refl, sym, subst, All, Bool-cases, Option-cases, inl, inr, true, none, some, Option,
  arith, and_then, if◌then◌else◌, leb, ◌&&◌, unwrap_or, [],
}
use code_storm.Prelude.Int.{pos}
use code_storm.Config.{Config}
use code_storm.Services.{Services, ServiceLaws}
use code_storm.Postgres.{insert_transaction, TransactionRow, fits}
use code_storm.Exec.Wp.{Wp, wp-bind, wp-command, wp-weaken, wp-gets, wp-modify, wp-pure}
use code_storm.Model.Source.{Source, merchant}
use code_storm.Model.Event.{PaymentEvent}
use code_storm.Model.Partial.{PartialTransaction, is_complete, missing_sources, first_value}
use code_storm.Model.Partial.Sources.{first_value_source}
use code_storm.Model.Details.{build_details}
use code_storm.Store.PostgresStore
use code_storm.Engine.Windows
use code_storm.Engine.Windows.{Windows, get-remove}
use code_storm.Engine.Seen.{Seen, see, wp-postgres}
use code_storm.Engine.Incidents.{IsRecorded, persisted, persist_incident-Wp, persisted-IsRecorded}
use code_storm.Engine.Finalize.{upsert_details-Wp, cleanup-Wp, insert_details}
use code_storm.Engine.Finalize.Closing.{
  Forgotten, HasStatus, Finalized, finalize_window-Finalized, cleaned-Forgotten, stored_details,
  stored_transaction, transaction_there, row_accepted, on_conflict-status,
}
use code_storm.Engine.Handling.Fits.{IsWell, AllFit, closing_fits}
use code_storm.Engine.Timers.{
  first_text, missing_incident, degrade_window, handle_removed, handle_timeout,
}

module _ {sv : Services} {F : Type 0} (laws : ServiceLaws F sv) (cfg : Config) where
  -- The row that `handle_timeout` upserts.
  abbrev degraded_row : PartialTransaction → TransactionRow
  degraded_row p = record {
    overall_status = "degraded";
    currency = first_text sv cfg (λ e. e.currency) "UZS" p.events;
    tx_type = first_text sv cfg (λ e. e.tx_type) "card" p.events;
    merchant_id = and_then (p.events merchant) (λ e. e.merchant_id);
    processing_time_micros = pos 0;
  }

  degraded_texts :
      (p : PartialTransaction) (first : Option PaymentEvent)
      → AllFit laws cfg p.events
      → ((e : PaymentEvent) → first ≡ some e → (s : Source) × (p.events s ≡ some e))
      → leb (count (unwrap_or (Option.map (λ e. e.currency) first) "UZS")) 3
          && leb (count (unwrap_or (Option.map (λ e. e.tx_type) first) "card")) 20
          && leb
              (unwrap_or (Option.map count (and_then (p.events merchant) (λ e. e.merchant_id))) 0)
              100
        ≡ true
  degraded_texts p first h from = elim (Option-cases (p.events merchant)) [
    | inl em ↦ elim (Option-cases first) [
      | inl ef ↦ rw (em, ef) refl
      | inr (e, ef) ↦
          let (s, es) = from e ef in let fit = h s e es in rw (em, ef) (ground (arith, fit))
    ]
    | inr (m, em) ↦
        let fit = h merchant m em in
        elim (Option-cases first) [
          | inl ef ↦ rw (em, ef) (ground (arith, fit))
          | inr (e, ef) ↦
              let (s, es) = from e ef in
              let other = h s e es in rw (em, ef) (ground (arith, fit, other))
        ]
  ]

  degraded_fits : (p : PartialTransaction) → AllFit laws cfg p.events → fits (degraded_row p) ≡ true
  degraded_fits p h =
      degraded_texts p (first_value (sv.host.hash_order p.events) p.events) h
        (first_value_source (sv.host.hash_order p.events) p.events)

  -- A window is given up: its transaction is degraded, what came is stored, one incident tells what
  -- did not come, and nothing of the window is left.
  pub record Degraded (tx : Uuid) (p : PartialTransaction) (σ τ : Seen) : Type 0 where
    pub forgotten : Forgotten laws cfg tx σ τ
    pub status : HasStatus laws cfg tx "degraded" τ
    pub details : All (λ d. τ.tables.reconciliation_details tx d.source ≡ some d) (build_details p)
    pub recorded : IsRecorded laws cfg τ (missing_incident sv cfg tx (missing_sources p))

  abbrev stored : Uuid → PartialTransaction → Seen → Seen
  stored tx p σ = record σ {
    tables = insert_details tx (build_details p) (insert_transaction tx (degraded_row p) σ.tables);
  }

  degrade_window-Degraded :
      (tx : Uuid) (p : PartialTransaction) (σ : Seen)
      → AllFit laws cfg p.events
      → Wp (see sv) σ (degrade_window sv cfg tx p) (λ _ τ. Degraded tx p σ τ) (λ _. F)
  unfolding degrade_window PostgresStore.upsert_transaction
      PostgresStore.upsert_reconciliation_details
  degrade_window-Degraded tx p σ fit = wp-bind _ _ (
      wp-postgres sv (
        wp-command (laws.postgres_laws.insert_transaction_law tx (degraded_row p))
          (λ _ _. wp-bind _ _ (
            wp-postgres sv (
              upsert_details-Wp laws cfg tx (build_details p) _
                (transaction_there tx (degraded_row p) [] σ.tables)
                (wp-bind _ _ (
                  persist_incident-Wp laws cfg (missing_incident sv cfg tx (missing_sources p)) _
                    refl (transaction_there tx (degraded_row p) (build_details p) σ.tables)
                    (λ id now_ms t fresh. cleanup-Wp laws cfg tx _ (record {
                      forgotten =
                          cleaned-Forgotten laws cfg tx σ
                            (persisted laws cfg (missing_incident sv cfg tx (missing_sources p)) id
                              now_ms t (stored tx p σ))
                            refl;
                      status = (
                        _,
                        stored_transaction tx (degraded_row p) (build_details p) σ.tables,
                        on_conflict-status (σ.tables.transactions tx) _,
                      );
                      details = stored_details tx p _;
                      recorded =
                          persisted-IsRecorded laws cfg
                            (missing_incident sv cfg tx (missing_sources p)) id now_ms t
                            (stored tx p σ);
                    })))))))
          (row_accepted (degraded_row p) (degraded_fits p fit))
          (λ _ h _. row_accepted (degraded_row p) (degraded_fits p fit) h)))

  -- The state without a window.
  abbrev removed : Uuid → Seen → Seen
  removed tx σ = record σ { windows = Windows.remove tx σ.windows }

  -- What a timeout comes to, by the window that it finds.
  abbrev pub TimedOut : Uuid → Option PartialTransaction → Seen → Seen → Type 0
  TimedOut tx none σ τ = τ ≡ removed tx σ
  TimedOut tx (some p) σ τ =
      if is_complete p cfg.expected_sources_count
      then Finalized laws cfg p σ τ
      else Degraded tx p σ τ

  others_removed :
      (tx : Uuid) (σ τ : Seen) → Forgotten laws cfg tx (removed tx σ) τ → Forgotten laws cfg tx σ τ
  others_removed tx σ τ f = record {
    windows = λ k. ground (arith, f.windows k, get-remove tx k σ.windows);
    no_window = f.no_window;
    no_sources = f.no_sources;
    no_deadline = f.no_deadline;
  }

  Finalized-removed :
      (tx : Uuid) (p : PartialTransaction) (σ τ : Seen)
      → p.transaction_id ≡ tx
      → Finalized laws cfg p (removed tx σ) τ
      → Finalized laws cfg p σ τ
  Finalized-removed tx p σ τ same f = record {
    forgotten =
        others_removed p.transaction_id σ τ
          (subst (λ k. Forgotten laws cfg p.transaction_id (removed k σ) τ) (sym same) f.forgotten);
    status = f.status;
    details = f.details;
    announced = f.announced;
  }

  removed-TimedOut :
      (tx : Uuid) (o : Option PartialTransaction) (σ : Seen)
      → ((p : PartialTransaction) → o ≡ some p → (p.transaction_id ≡ tx) × AllFit laws cfg p.events)
      → Wp (see sv) (removed tx σ) (handle_removed sv cfg tx o) (λ _ τ. TimedOut tx o σ τ) (λ _. F)
  removed-TimedOut tx none σ well = wp-pure tt refl
  removed-TimedOut tx (some p) σ well =
      let (mine, fit) = well p refl in
      elim (Bool-cases (is_complete p cfg.expected_sources_count)) [
        | inl full ↦ rw full (
            wp-weaken
              (finalize_window-Finalized laws cfg p (removed tx σ) (closing_fits laws cfg p fit))
              (λ _ τ f. Finalized-removed tx p σ τ mine f) (λ _ f. f))
        | inr partial ↦ rw partial (
            wp-weaken (degrade_window-Degraded tx p (removed tx σ) fit)
              (λ _ τ d. record {
                forgotten = others_removed tx σ τ d.forgotten;
                status = d.status;
                details = d.details;
                recorded = d.recorded;
              })
              (λ _ f. f))
      ]

  -- Where every window in memory stands under its own transaction with events that fit the
  -- transactions, `handle_timeout`, unless a service fails, changes nothing that is seen but the
  -- map, in which there was no such window, or finalizes the window if it is complete, or degrades
  -- it if it is not: then the status is degraded, the details of what came are stored, one
  -- incident that names the missing sources is stored open and put up for escalation, and nothing
  -- of the window is left.
  pub handle_timeout-TimedOut :
      (tx : Uuid) (σ : Seen)
      → IsWell laws cfg σ.windows
      → Wp
          (see sv)
          σ
          (handle_timeout sv cfg tx)
          (λ _ τ. TimedOut tx (Windows.get tx σ.windows) σ τ)
          (λ _. F)
  unfolding handle_timeout
  handle_timeout-TimedOut tx σ well = wp-bind _ _ (
      wp-gets _ (λ σ. Windows.get tx σ.windows) (λ s. refl)
        (wp-bind _ _ (
          wp-modify _ (λ σ. record σ { windows = Windows.remove tx σ.windows }) (λ s. refl)
            (removed-TimedOut tx (Windows.get tx σ.windows) σ (well tx)))))

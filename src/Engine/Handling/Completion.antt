-- ===== src/Engine/Handling/Completion.antt =====
-- `handle_event` for the event that completes its window.
use code_storm.Prelude.{
  refl, Bool-cases, inl, inr, ℕ, Uuid, String, ◌≡◌, some, true, false, ◌∙◌, ap, List, [], ◌∷◌, All,
  subst, sym, ◌==◌,
}
use code_storm.Prelude.Int.{ℤ, pos, add_i64}
use code_storm.Config.{Config}
use code_storm.Services.{Services, ServiceLaws}
use code_storm.Error.{ok}
use code_storm.Exec.Wp.{Wp, wp-bind, wp-pure, wp-weaken}
use code_storm.Redis.View.{sources, deadlines}
use code_storm.Postgres.{fits}
use code_storm.Model.Event.{PaymentEvent}
use code_storm.Model.Partial.{PartialTransaction, is_complete}
use code_storm.Model.Incident.{Incident, ReconciliationResult, matched, mismatched}
use code_storm.Model.Invariants.{check_invariants}
use code_storm.Model.Details.{build_details}
use code_storm.Model.Pubsub.{transaction_matched}
use code_storm.Engine.Windows
use code_storm.Engine.Seen.{Seen, see, wp-reading, wp-elapsed}
use code_storm.Engine.Incidents.{IsRecorded}
use code_storm.Engine.Finalize.{Announced}
use code_storm.Engine.Finalize.Closing.{
  Finalized, Forgotten, HasStatus, closing_row, finalize_window-Finalized,
}
use code_storm.Engine.Handling.Duplicate.{MeteredOnly, metrics-Wp, IsRecorded-metered}
use code_storm.Engine.Handling.Opening.{Gathered, gather-Wp, found_at, Gathered-others}
use code_storm.Engine.{gather, settle, with_event, complete_window, overall_status}

module _ {sv : Services} {F : Type 0} (laws : ServiceLaws F sv) (cfg : Config) where
  -- The verdict has reached the outside: a match is the last thing published, the incidents of a
  -- mismatch are recorded.
  abbrev pub IsAnnounced : Seen → ReconciliationResult → Uuid → Type 0
  IsAnnounced τ matched tx =
      (now_ms : ℤ) × (t : String) × (earlier : List (String × String)) × (sv.codec.event_to_json
          (transaction_matched tx now_ms)
        ≡ ok t)
      × (τ.view.published ≡ (cfg.redis_pubsub_channel, t) ∷ earlier)
  IsAnnounced τ (mismatched incidents) tx = All (IsRecorded laws cfg τ) incidents

  -- The window is closed with its verdict.
  pub record Completed (p : PartialTransaction) (σ τ : Seen) : Type 0 where
    pub forgotten : Forgotten laws cfg p.transaction_id σ τ
    pub status : HasStatus laws cfg p.transaction_id (overall_status sv cfg (check_invariants p)) τ
    pub details :
        All
          (λ d. τ.tables.reconciliation_details p.transaction_id d.source ≡ some d)
          (build_details p)
    pub announced : IsAnnounced τ (check_invariants p) p.transaction_id

  All-metered :
      {σ τ : Seen} (is : List Incident)
      → MeteredOnly σ τ
      → All (IsRecorded laws cfg σ) is
      → All (IsRecorded laws cfg τ) is
  All-metered [] m h = tt
  All-metered (i ∷ is) m (h, hs) = (IsRecorded-metered laws cfg i m h, All-metered is m hs)

  Announced-metered :
      (ρ : Seen) {σ τ : Seen} (r : ReconciliationResult) (tx : Uuid)
      → MeteredOnly σ τ
      → Announced laws cfg ρ σ r tx
      → IsAnnounced τ r tx
  Announced-metered ρ matched tx m (now_ms, t, text, sent) =
      (now_ms, t, _, text, m.view.published ∙ sent)
  Announced-metered ρ (mismatched is) tx m h = All-metered is m h

  -- The processing time has no part in the verdict.
  Completed-micros :
      (p : PartialTransaction) (micros : ℤ) {ρ υ τ : Seen}
      → Finalized laws cfg (record p { processing_time_micros = micros }) ρ υ
      → MeteredOnly υ τ
      → Completed p ρ τ
  unfolding check_invariants build_details
  Completed-micros p micros {ρ} h m = record {
    forgotten = record {
      windows = λ k. ap (Windows.get k) m.windows ∙ h.forgotten.windows k;
      no_window = m.view.windows p.transaction_id ∙ h.forgotten.no_window;
      no_sources =
          λ s. ap (λ z. z (sources p.transaction_id) s) m.view.sets ∙ h.forgotten.no_sources s;
      no_deadline =
          ap (λ z. z deadlines (sv.codec.uuid_to_string p.transaction_id)) m.view.text_zsets
          ∙ h.forgotten.no_deadline;
    };
    status =
        let (row, there, status) = h.status in
        (row, ap (λ t. t.transactions p.transaction_id) m.tables ∙ there, status);
    details =
        subst
          (λ t.
            All (λ d. t.reconciliation_details p.transaction_id d.source ≡ some d)
              (build_details p))
          (sym m.tables) h.details;
    announced = Announced-metered ρ (check_invariants p) p.transaction_id m h.announced;
  }

  Forgotten-Gathered :
      (event : PaymentEvent) (now_ms : ℤ) (p : PartialTransaction) {σ ρ τ : Seen}
      → p.transaction_id ≡ event.transaction_id
      → Gathered laws cfg event now_ms σ ρ
      → Completed p ρ τ
      → Completed p σ τ
  Forgotten-Gathered event now_ms p {σ} {ρ} same g h = record {
    forgotten = record {
      windows = λ k. h.forgotten.windows k ∙ elim (Bool-cases (p.transaction_id == k)) [
        | inl e ↦ rw e refl
        | inr e ↦
            rw e
              (Gathered-others laws cfg event now_ms σ ρ g k (subst (λ t. (t == k) ≡ false) same e))
      ];
      no_window = h.forgotten.no_window;
      no_sources = h.forgotten.no_sources;
      no_deadline = h.forgotten.no_deadline;
    };
    status = h.status;
    details = h.details;
    announced = h.announced;
  }

  settle-Completed :
      (event : PaymentEvent) (p : PartialTransaction) (start_inst : ℕ) (now_ms : ℤ) (ρ : Seen)
      → is_complete p cfg.expected_sources_count ≡ true
      → fits (closing_row laws cfg p (pos 0)) ≡ true
      → Wp (see sv) ρ (settle sv cfg event p start_inst now_ms) (λ _ τ. Completed p ρ τ) (λ _. F)
  unfolding settle complete_window check_invariants
  settle-Completed event p start_inst now_ms ρ full ok_row = wp-bind _ _ (
      rw full (
        wp-bind _ _ (
          wp-elapsed sv start_inst λ spent. wp-bind _ _ (
            wp-weaken
              (finalize_window-Finalized laws cfg
                (record p { processing_time_micros = add_i64 p.processing_time_micros spent }) ρ
                ok_row)
              (λ _ υ h. wp-pure _ (
                wp-bind _ _ (
                  wp-elapsed sv start_inst λ total. wp-bind _ _ (
                    wp-reading sv _ λ now.
                      metrics-Wp laws cfg _ _ _ _ _
                        λ τ m. Completed-micros p (add_i64 p.processing_time_micros spent) h m))))
              (λ _ f. f)))))

  -- Where an event completes the window that it finds, the row of that window fits the
  -- transactions and the window is that of the transaction of the event, gathering it, unless a
  -- service fails, closes the window: nothing of it is left in memory, in Redis or among the
  -- deadlines, the other windows stay, the transaction has the status of its verdict, every detail
  -- is stored, and the match is published last or every incident is stored open and put up for
  -- escalation.
  pub gather-Completed :
      (event : PaymentEvent) (start_inst : ℕ) (now_ms : ℤ) (σ : Seen)
      → let p = with_event sv cfg event (found_at laws cfg event now_ms σ) in
        is_complete p cfg.expected_sources_count ≡ true
        → fits (closing_row laws cfg p (pos 0)) ≡ true
        → p.transaction_id ≡ event.transaction_id
        → Wp (see sv) σ (gather sv cfg event start_inst now_ms) (λ _ τ. Completed p σ τ) (λ _. F)
  gather-Completed event start_inst now_ms σ full ok_row same =
      gather-Wp laws cfg event start_inst now_ms σ λ ρ g.
        wp-weaken
          (settle-Completed event (with_event sv cfg event (found_at laws cfg event now_ms σ))
            start_inst now_ms ρ full ok_row)
          (λ _ τ h. Forgotten-Gathered event now_ms _ same g h) (λ _ f. f)

-- ===== src/Engine/Handling/Gather.antt =====
-- `handle_event` (matcher/src/matcher.rs) for an event that leaves its window waiting.
use code_storm.Prelude.{
  Bool-cases, inl, inr, ℕ, Uuid, String, ◌≡◌, refl, some, false, arith, ◌∙◌, ap, if◌then◌else◌,
  ◌==◌,
}
use code_storm.Prelude.Int.{ℤ, add_i64}
use code_storm.Config.{Config}
use code_storm.Services.{Services, ServiceLaws}
use code_storm.Error.{ok}
use code_storm.Exec.Wp.{Wp, wp-bind, wp-pure, wp-modify}
use code_storm.Redis.View
use code_storm.Redis.View.{window, deadlines}
use code_storm.Model.Event.{PaymentEvent}
use code_storm.Model.Partial.{PartialTransaction, insert, len, is_complete}
use code_storm.Store.RedisStore.Windows.{IsSaved, save-Wp}
use code_storm.Engine.Windows
use code_storm.Engine.Windows.{get-insert_self, get-insert_ne, get-remove, get-insert}
use code_storm.Engine.Seen.{Seen, see, wp-redis, wp-reading, wp-elapsed, wp-publish}
use code_storm.Engine.Handling.Opening.{found_at, Gathered, gather-Wp, Gathered-others}
use code_storm.Engine.Handling.Duplicate.{metrics-Wp}
use code_storm.Engine.{settle, gather, with_event, keep_waiting}

module _ {sv : Services} {F : Type 0} (laws : ServiceLaws F sv) (cfg : Config)
    (event : PaymentEvent) where
  -- A window that waits for more: the event is in it, in memory and in Redis, it has a deadline, and
  -- nothing else has changed.
  pub record Waiting (now_ms : ℤ) (σ τ : Seen) : Type 0 where
    pub kept : PartialTransaction
    pub windows :
        (k : Uuid)
        → Windows.get k τ.windows
          ≡ (if event.transaction_id == k then some kept else Windows.get k σ.windows)
    pub saved : IsSaved laws.redis_laws laws.codec_laws kept τ.view
    pub events : kept.events ≡ insert event.source event (found_at laws cfg event now_ms σ).events
    pub same_id : kept.transaction_id ≡ (found_at laws cfg event now_ms σ).transaction_id
    pub same_deadline : kept.deadline_ms ≡ (found_at laws cfg event now_ms σ).deadline_ms
    pub due : τ.view.text_zsets deadlines (sv.codec.uuid_to_string event.transaction_id) ≡ (
        if len (found_at laws cfg event now_ms σ).events == 0
        then some kept.deadline_ms
        else σ.view.text_zsets deadlines (sv.codec.uuid_to_string event.transaction_id))
    pub tables : τ.tables ≡ σ.tables

  keep_waiting-Wp :
      (p : PartialTransaction) (now_ms : ℤ) (start_inst : ℕ) (σ : Seen) {Q : ℤ → Seen → Type 0}
      → ((micros : ℤ) (t u : String)
          → sv.codec.window_from_json u ≡ ok (record p { processing_time_micros = micros })
          → Q micros (record σ {
            windows =
                Windows.insert event.transaction_id
                  (record p { processing_time_micros = micros })
                  σ.windows;
            view =
                View.set_px
                  (window p.transaction_id)
                  u
                  30_000
                  (View.publish cfg.redis_pubsub_channel t σ.view);
          }))
      → Wp (see sv) σ (keep_waiting sv cfg event.transaction_id p now_ms start_inst) Q (λ _. F)
  unfolding keep_waiting
  keep_waiting-Wp p now_ms start_inst σ q = wp-bind _ _ (
      wp-publish sv laws cfg _ λ t e. wp-bind _ _ (
        wp-elapsed sv start_inst λ spent.
          let micros = add_i64 p.processing_time_micros spent in
          wp-bind _ _ (
            wp-modify _
              (λ σ. record σ {
                windows =
                    Windows.insert event.transaction_id
                      (record p { processing_time_micros = micros }) σ.windows;
              })
              (λ s. refl)
              (wp-bind _ _ (
                wp-redis sv (
                  save-Wp laws.redis_laws laws.codec_laws
                    (record p { processing_time_micros = micros }) _
                    (λ u read. wp-pure _ (q micros t u read))))))))

  settle-Waiting :
      (start_inst : ℕ) (now_ms : ℤ) (σ ρ : Seen)
      → Gathered laws cfg event now_ms σ ρ
      → is_complete
          (with_event sv cfg event (found_at laws cfg event now_ms σ))
          cfg.expected_sources_count
        ≡ false
      → Wp
          (see sv)
          ρ
          (settle sv cfg event
            (with_event sv cfg event (found_at laws cfg event now_ms σ))
            start_inst
            now_ms)
          (λ _ τ. Waiting now_ms σ τ)
          (λ _. F)
  unfolding settle
  settle-Waiting start_inst now_ms σ ρ g partial = wp-bind _ _ (
      rw partial (
        keep_waiting-Wp (with_event sv cfg event (found_at laws cfg event now_ms σ)) now_ms
          start_inst ρ
          λ micros t u read. wp-bind _ _ (
            wp-elapsed sv start_inst λ total. wp-bind _ _ (
              wp-reading sv _ λ now. metrics-Wp laws cfg _ _ _ _ _ λ τ m. record {
                kept = record (with_event sv cfg event (found_at laws cfg event now_ms σ)) {
                  processing_time_micros = micros;
                };
                windows = λ k.
                    ap (Windows.get k) m.windows
                    ∙ get-insert event.transaction_id k _ ρ.windows
                    ∙ elim (Bool-cases (event.transaction_id == k)) [
                      | inl e ↦ rw e refl
                      | inr e ↦ rw e (Gathered-others laws cfg event now_ms σ ρ g k e)
                    ];
                saved = (u, m.view.windows _ ∙ ground arith, read);
                events = refl;
                same_id = refl;
                same_deadline = refl;
                due =
                    ap (λ z. z deadlines (sv.codec.uuid_to_string event.transaction_id))
                      m.view.text_zsets
                    ∙ g.due;
                tables = m.tables ∙ g.tables;
              }))))

  -- Where an event leaves its window incomplete, gathering it, unless a service fails, keeps the
  -- window with the event in it, under the same deadline, in memory and as a text in Redis that
  -- reads as the window; if the window was empty its deadline is set in Redis; the other windows
  -- and the tables stay.
  pub gather-Waiting :
      (start_inst : ℕ) (now_ms : ℤ) (σ : Seen)
      → is_complete
          (with_event sv cfg event (found_at laws cfg event now_ms σ))
          cfg.expected_sources_count
        ≡ false
      → Wp (see sv) σ (gather sv cfg event start_inst now_ms) (λ _ τ. Waiting now_ms σ τ) (λ _. F)
  gather-Waiting start_inst now_ms σ partial =
      gather-Wp laws cfg event start_inst now_ms σ
        λ ρ g. settle-Waiting start_inst now_ms σ ρ g partial

-- ===== src/Engine/Finalize.antt =====
-- The parts of `finalize_window` (matcher/src/matcher.rs): details, metrics, report and cleanup.
pub mod Closing
use code_storm.Engine.Parts.{on_redis}
use mathlib.Core.Option
use code_storm.Prelude.{
  Uuid, ◌⊎◌, Option-cases, inl, inr, Bool-cases, refl, ◌∙◌, List, [], ◌∷◌, All, some, none, arith,
  true, false, ◌≢◌, ◌≡◌, String, Bool, if◌then◌else◌, and_then, ◌==◌,
}
use code_storm.Prelude.Int.{ℤ, pos}
use code_storm.Config.{Config}
use code_storm.Services.{Services, ServiceLaws}
use code_storm.Redis.View.{
  Key, Keyspace, window, sources, deadlines, matches_success, matches_failed, del, zrem_text,
  publish,
}
use code_storm.Postgres.{
  Tables, TransactionRow, insert_transaction, insert_detail, on_conflict_transaction, fits,
}
use code_storm.Error.{ok}
use code_storm.Exec.{Exec, ignore, for_each, pure}
use code_storm.Exec.Wp.{Wp, wp-bind, wp-command, wp-pure, wp-weaken, wp-if, wp-ignore, wp-modify}
use code_storm.Model.Source.{merchant}
use code_storm.Model.Partial.{PartialTransaction}
use code_storm.Model.Incident.{ReconciliationDetail, ReconciliationResult, matched, mismatched}
use code_storm.Model.Invariants.{check_invariants}
use code_storm.Model.Invariants.Incidents.{incidents_of, IsFresh, check_invariants-IsFresh}
use code_storm.Model.Details.{build_details}
use code_storm.Model.Pubsub.{transaction_matched}
use code_storm.Store.RedisStore
use code_storm.Store.PostgresStore
use code_storm.Engine.Windows
use code_storm.Engine.Seen.{Seen, see, wp-redis, wp-postgres, wp-reading, wp-elapsed, wp-publish}
use code_storm.Engine.Incidents.{
  Reported, Reported-refl, Reported-trans, IsRecorded, persist_all-Wp, not_dangling,
}
use code_storm.Engine.{
  persist_incident, cleanup_window, finalize_window, report, overall_status, text_of,
}

-- The tables after the details of a transaction were stored.
abbrev pub insert_details : Uuid → List ReconciliationDetail → Tables → Tables
insert_details tx [] t = t
insert_details tx (d ∷ ds) t = insert_details tx ds (insert_detail tx d t)

pub insert_details-transactions :
    (tx : Uuid) (ds : List ReconciliationDetail) (t : Tables)
    → (insert_details tx ds t).transactions ≡ t.transactions
insert_details-transactions tx [] t = refl
insert_details-transactions tx (d ∷ ds) t = insert_details-transactions tx ds (insert_detail tx d t)

module _ {sv : Services} {F : Type 0} (laws : ServiceLaws F sv) (cfg : Config) where
  -- The counts of matches are metrics: whatever becomes of them, the engine goes on.
  record_match-Wp :
      (b : Bool) (σ : Seen) {Q : Unit {0} → Seen → Type 0} {E : Seen → Type 0}
      → ((c : Key → ℤ) → Q tt (record σ { view = record σ.view { counters = c } }))
      → Wp (see sv) σ (ignore (on_redis sv (RedisStore.record_match_result sv.redis b))) Q E
  unfolding RedisStore.record_match_result
  record_match-Wp b σ q = wp-ignore _ (
      wp-redis sv (
        wp-if b _ _
          (λ _.
            wp-command (laws.redis_laws.incr_law matches_success) (λ _ _. q _) (λ _. q _)
              (λ _ _ _. q _))
          (λ _.
            wp-command (laws.redis_laws.incr_law matches_failed) (λ _ _. q _) (λ _. q _)
              (λ _ _ _. q _))))

  pub upsert_details-Wp :
      (tx : Uuid) (ds : List ReconciliationDetail) (t : Tables) {Q : Unit {0} → Tables → Type 0}
      → t.transactions tx ≢ none
      → Q tt (insert_details tx ds t)
      → Wp sv.postgres.tables t (for_each (λ d. sv.postgres.insert_detail tx d) ds) Q (λ _. F)
  unfolding for_each
  upsert_details-Wp tx [] t there q = wp-pure tt q
  upsert_details-Wp tx (d ∷ ds) t there q = wp-bind _ _ (
      wp-command (laws.postgres_laws.insert_detail_law tx d)
        (λ _ _. upsert_details-Wp tx ds (insert_detail tx d t) there q)
        (λ h. not_dangling tx t there h) (λ _ h _. not_dangling tx t there h))

  -- What is seen after a window was cleaned up.
  abbrev pub cleaned : Uuid → Seen → Seen
  cleaned tx σ = record σ {
    windows = Windows.remove tx σ.windows;
    view =
        del (sources tx)
          (zrem_text deadlines (sv.codec.uuid_to_string tx) (del (window tx) σ.view));
  }

  pub cleanup-Wp :
      (tx : Uuid) (σ : Seen) {Q : Unit {0} → Seen → Type 0}
      → Q tt (cleaned tx σ)
      → Wp (see sv) σ (cleanup_window sv cfg tx) Q (λ _. F)
  unfolding cleanup_window RedisStore.delete_window RedisStore.remove_deadline
      RedisStore.cleanup_sources
  cleanup-Wp tx σ q = wp-bind _ _ (
      wp-modify _ (λ σ. record σ { windows = Windows.remove tx σ.windows }) (λ s. refl)
        (wp-bind _ _ (
          wp-redis sv (
            wp-command (laws.redis_laws.del_law (window tx))
              (λ _ _. wp-bind _ _ (
                wp-redis sv (
                  wp-bind _ _ (
                    wp-command
                      (laws.redis_laws.zrem_text_law deadlines (sv.codec.uuid_to_string tx))
                      (λ _ _. wp-pure tt (
                        wp-redis sv (
                          wp-command (laws.redis_laws.del_law (sources tx)) (λ _ _. q) (λ f. f)
                            (λ _ f _. f))))
                      (λ f. f) (λ _ f _. f)))))
              (λ f. f) (λ _ f _. f)))))

  -- A match is published; the incidents of a mismatch are recorded.
  abbrev pub Announced : Seen → Seen → ReconciliationResult → Uuid → Type 0
  Announced σ τ matched tx =
      (now_ms : ℤ) × (t : String) × (sv.codec.event_to_json (transaction_matched tx now_ms) ≡ ok t)
      × (τ.view.published ≡ (cfg.redis_pubsub_channel, t) ∷ σ.view.published)
  Announced σ τ (mismatched incidents) tx = All (IsRecorded laws cfg τ) incidents

  pub report-Wp :
      (tx : Uuid) (now_ms : ℤ) (r : ReconciliationResult) (σ : Seen)
      → All (IsFresh tx) (incidents_of r)
      → σ.tables.transactions tx ≢ none
      → Wp
          (see sv)
          σ
          (report sv cfg tx now_ms r)
          (λ _ τ. Reported σ τ × Announced σ τ r tx)
          (λ _. F)
  unfolding report
  report-Wp tx now_ms matched σ h there = wp-bind _ _ (
      record_match-Wp true σ λ c. wp-publish sv laws cfg _ λ t e. (
        record {
          windows = refl;
          strings = λ k. refl;
          sets = refl;
          text_zsets = refl;
          transactions = refl;
          details = refl;
          incidents = λ id row e. (e, refl);
        },
        (now_ms, t, e, refl),
      ))
  report-Wp tx now_ms (mismatched incidents) σ h there = wp-bind _ _ (
      record_match-Wp false σ λ c.
        wp-weaken (persist_all-Wp laws cfg tx incidents _ h there)
          (λ _ τ (r, all). (
            record {
              windows = r.windows;
              strings = r.strings;
              sets = r.sets;
              text_zsets = r.text_zsets;
              transactions = r.transactions;
              details = r.details;
              incidents = r.incidents;
            },
            all,
          ))
          (λ _ f. f))

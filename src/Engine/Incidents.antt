-- ===== src/Engine/Incidents.antt =====
-- `persist_incident`, and what `finalize_window` reports.
use code_storm.Prelude.{
  String, List, [], ◌∷◌, ◌≡◌, ◌≢◌, refl, some, none, inl, inr, All, ◌∙◌, arith, Bool-cases, true,
  false, Uuid, ◌⊎◌, Option-cases,
}
use code_storm.Prelude.Int.{ℤ, pos, ◌==ℤ◌, ==ℤ_iff, add_i64, wrap_i64}
use code_storm.Config.{Config}
use code_storm.Services.{Services, ServiceLaws}
use code_storm.Redis.View.{incident_escalations, zadd_int, publish, window}
use code_storm.Postgres.{Tables, insert_incident, IncidentRow, dangles}
use code_storm.Exec.{for_each}
use code_storm.Exec.Wp.{Wp, wp-bind, wp-command, wp-pure, wp-weaken, wp-if}
use code_storm.Model.Invariants.Incidents.{IsFresh}
use code_storm.Model.Incident.{Incident}
use code_storm.Store.RedisStore
use code_storm.Store.PostgresStore
use code_storm.Store.PostgresStore.{incident_row}
use code_storm.Engine.Seen.{Seen, see, wp-redis, wp-postgres, wp-reading, wp-publish}
use code_storm.Engine.{persist_incident}

pub not_dangling :
    {F : Type 0} (tx : Uuid) (t : Tables) → t.transactions tx ≢ none → F ⊎ (dangles tx t ≡ true) → F
not_dangling tx t there (inl f) = f
not_dangling tx t there (inr d) = elim (Option-cases (t.transactions tx)) [
  | inl gone ↦ absurd (there gone)
  | inr (row, e) ↦ absurd (ground arith)
]

-- All that reporting incidents may change are the incidents, their escalations, the metrics and
-- the channel; the incidents that were stored stay as they were.
pub record Reported (σ τ : Seen) : Type 0 where
  pub windows : τ.windows ≡ σ.windows
  pub strings : (k : Uuid) → τ.view.strings (window k) ≡ σ.view.strings (window k)
  pub sets : τ.view.sets ≡ σ.view.sets
  pub text_zsets : τ.view.text_zsets ≡ σ.view.text_zsets
  pub transactions : τ.tables.transactions ≡ σ.tables.transactions
  pub details : τ.tables.reconciliation_details ≡ σ.tables.reconciliation_details
  pub incidents :
      (id : ℤ) (row : IncidentRow)
      → σ.tables.incidents id ≡ some row
      → (τ.tables.incidents id ≡ some row)
        × (τ.view.int_zsets incident_escalations id ≡ σ.view.int_zsets incident_escalations id)

pub Reported-refl : (σ : Seen) → Reported σ σ
Reported-refl σ = record {
  windows = refl;
  strings = λ k. refl;
  sets = refl;
  text_zsets = refl;
  transactions = refl;
  details = refl;
  incidents = λ id row e. (e, refl);
}

pub Reported-trans : {σ τ υ : Seen} → Reported σ τ → Reported τ υ → Reported σ υ
Reported-trans a b = record {
  windows = b.windows ∙ a.windows;
  strings = λ k. b.strings k ∙ a.strings k;
  sets = b.sets ∙ a.sets;
  text_zsets = b.text_zsets ∙ a.text_zsets;
  transactions = b.transactions ∙ a.transactions;
  details = b.details ∙ a.details;
  incidents = λ id row e.
      let (there, same) = a.incidents id row e in
      let (still, same') = b.incidents id row there in (still, same' ∙ same);
}

severity_one : {A : Type 0} (severity : ℤ) → severity ≡ pos 1 → (severity ==ℤ pos 1) ≡ false → A
severity_one severity h e = absurd (ground arith)

module _ {sv : Services} {F : Type 0} (laws : ServiceLaws F sv) (cfg : Config) where
  -- When an incident that is seen at a time is due for escalation.
  abbrev pub escalation_time : ℤ → ℤ
  escalation_time now_ms = add_i64 now_ms (wrap_i64 (pos cfg.reconciler_escalation_ms))

  -- What is seen after an incident of severity 1 got its id at a time, and its text was published.
  abbrev pub persisted : Incident → ℤ → ℤ → String → Seen → Seen
  persisted i id now_ms t σ = record σ {
    view =
        publish cfg.redis_pubsub_channel t
          (zadd_int incident_escalations id (escalation_time now_ms) σ.view);
    tables = insert_incident (incident_row i) id σ.tables;
  }

  pub persist_incident-Wp :
      (i : Incident) (σ : Seen) {Q : Unit {0} → Seen → Type 0}
      → i.severity ≡ pos 1
      → σ.tables.transactions i.transaction_id ≢ none
      → ((id now_ms : ℤ) (t : String)
          → σ.tables.incidents id ≡ none
          → Q tt (persisted i id now_ms t σ))
      → Wp (see sv) σ (persist_incident sv cfg i) Q (λ _. F)
  unfolding persist_incident PostgresStore.create_incident RedisStore.add_escalation
  persist_incident-Wp i σ sev there q = wp-bind _ _ (
      wp-postgres sv (
        wp-command (laws.postgres_laws.insert_incident_law (incident_row i))
          (λ id fresh. wp-bind _ _ (
            wp-reading sv _ λ now_ms. wp-bind _ _ (
              wp-if (i.severity ==ℤ pos 1) _ _
                (λ _. wp-redis sv (
                  wp-command
                    (laws.redis_laws.zadd_int_law incident_escalations id (escalation_time now_ms))
                    (λ _ _. wp-publish sv laws cfg _ (λ t e. q id now_ms t fresh)) (λ f. f)
                    (λ _ f _. f)))
                (λ e. severity_one i.severity sev e))))
          (λ h. not_dangling _ σ.tables there h) (λ _ h _. not_dangling _ σ.tables there h)))

  -- An incident is stored as an open one, and put up for escalation.
  abbrev pub IsRecorded : Seen → Incident → Type 0
  IsRecorded σ i =
      (id : ℤ) × (now_ms : ℤ) × (σ.tables.incidents id ≡ some (incident_row i))
      × (σ.view.int_zsets incident_escalations id ≡ some (escalation_time now_ms))

  IsRecorded-keep : {σ τ : Seen} (i : Incident) → Reported σ τ → IsRecorded σ i → IsRecorded τ i
  IsRecorded-keep i r (id, now_ms, stored, due) =
      let (still, same) = r.incidents id _ stored in (id, now_ms, still, same ∙ due)

  persisted-Reported :
      (i : Incident) (id now_ms : ℤ) (t : String) (σ : Seen)
      → σ.tables.incidents id ≡ none
      → Reported σ (persisted i id now_ms t σ)
  persisted-Reported i id now_ms t σ fresh = record {
    windows = refl;
    strings = λ k. refl;
    sets = refl;
    text_zsets = refl;
    transactions = refl;
    details = refl;
    incidents = λ k row e. elim (Bool-cases (id ==ℤ k)) [
      | inl same ↦ absurd (ground (arith, (==ℤ_iff id k).0 same))
      | inr other ↦ (rw other e, rw other refl)
    ];
  }

  pub persisted-IsRecorded :
      (i : Incident) (id now_ms : ℤ) (t : String) (σ : Seen)
      → IsRecorded (persisted i id now_ms t σ) i
  persisted-IsRecorded i id now_ms t σ =
      let same : (id ==ℤ id) ≡ true = (==ℤ_iff id id).1 refl in
      (id, now_ms, rw same refl, rw same refl)

  pub persist_all-Wp :
      (tx : Uuid) (incidents : List Incident) (σ : Seen)
      → All (IsFresh tx) incidents
      → σ.tables.transactions tx ≢ none
      → Wp
          (see sv)
          σ
          (for_each (persist_incident sv cfg) incidents)
          (λ _ τ. Reported σ τ × All (IsRecorded τ) incidents)
          (λ _. F)
  unfolding for_each
  persist_all-Wp tx [] σ h there = wp-pure tt (Reported-refl σ, tt)
  persist_all-Wp tx (i ∷ rest) σ ((mine, sev), more) there = wp-bind _ _ (
      persist_incident-Wp i σ sev (rw mine there) λ id now_ms t fresh.
        let τ = persisted i id now_ms t σ in
        wp-weaken (persist_all-Wp tx rest τ more there)
          (λ _ υ (r, all). (
            Reported-trans (persisted-Reported i id now_ms t σ fresh) r,
            (IsRecorded-keep i r (persisted-IsRecorded i id now_ms t σ), all),
          ))
          (λ _ f. f))

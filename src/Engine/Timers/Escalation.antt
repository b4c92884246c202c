-- ===== src/Engine/Timers/Escalation.antt =====
-- `process_expired_escalations` (matcher/src/matcher.rs): the incidents before and after it.
use code_storm.Exec.Ensures.{Ensures}
use code_storm.Engine.Parts.{State}
use code_storm.Store.RedisStore.Escalations.{pop_expired_escalations-Popped, Popped}
use code_storm.Redis.View.{in_range, incident_escalations, Keyspace}
use code_storm.Prelude.{
  All, ◌≡◌, ◌⊎◌, refl, ◌∙◌, ap, inl, inr, List, [], ◌∷◌, any, arith, if◌then◌else◌, Bool, true,
  false, some, Bool-cases,
}
use code_storm.Prelude.Int.{ℤ, pos, ◌==ℤ◌, ==ℤ_iff}
use code_storm.Config.{Config}
use code_storm.Services.{Services, ServiceLaws}
use code_storm.Postgres.{update_severity, is_escalable, IncidentRow, with_severity}
use code_storm.Exec.{for_each, ignore}
use code_storm.Exec.Wp.{Wp, wp-bind, wp-weaken, wp-pure, wp-if, wp-ignore, wp-any}
use code_storm.Store.PostgresStore.Rows.{escalated, escalate-Wp, incident_updated}
use code_storm.Engine.Seen.{
  Seen, see, wp-postgres, wp-reading, wp-publish, wp-redis, shown_ms, reading-Ensures,
}
use code_storm.Engine.Timers.{escalate, process_expired_escalations, State}

module _ {sv : Services} {F : Type 0} (laws : ServiceLaws F sv) (cfg : Config) where
  escalate-Updated :
      (id : ℤ) (σ : Seen)
      → Wp
          (see sv)
          σ
          (escalate sv cfg id)
          (λ _ τ. F ⊎ ((τ.tables ≡ update_severity id (pos 2) σ.tables) × (τ.windows ≡ σ.windows)))
          (λ _. F)
  unfolding escalate
  escalate-Updated id σ = wp-bind _ _ (
      wp-postgres sv (
        escalate-Wp laws.postgres_laws id (pos 2) σ.tables (
          wp-if (is_escalable (pos 2) (σ.tables.incidents id)) _ _
            (λ _. wp-bind _ _ (
              wp-reading sv _ λ now_ms. wp-ignore _ (
                wp-weaken
                  {Q = λ _ τ.
                    F
                    ⊎ ((τ.tables ≡ update_severity id (pos 2) σ.tables) × (τ.windows ≡ σ.windows))}
                  (wp-publish sv laws cfg _ (λ t e. inr (refl, refl))) (λ _ _ h. h)
                  (λ _ f. inl f))))
            (λ _. wp-pure tt (inr (refl, refl))))))

  -- The tasks escalate their incidents, and leave the others alone.
  escalations-Wp :
      (ids : List ℤ) (σ : Seen)
      → Wp
          (see sv)
          σ
          (for_each (λ id. ignore (escalate sv cfg id)) ids)
          (λ _ τ.
            F
            ⊎ (((k : ℤ)
                  → τ.tables.incidents k ≡ (
                      if any (λ id. id ==ℤ k) ids
                      then escalated (pos 2) (σ.tables.incidents k)
                      else σ.tables.incidents k))
                × (τ.windows ≡ σ.windows)))
          (λ _. F)
  unfolding for_each
  escalations-Wp [] σ = wp-pure tt (inr (λ k. refl, refl))
  escalations-Wp (id ∷ ids) σ = wp-bind _ _ (
      wp-ignore _ (
        wp-weaken (escalate-Updated id σ)
          (λ _ ρ. elim [
            | inl f ↦ wp-any _ (λ _ _. inl f) (λ _. f)
            | inr (e, kept) ↦
                wp-weaken (escalations-Wp ids ρ)
                  (λ _ τ. elim [
                    | inl f ↦ inl f
                    | inr (rest, kept') ↦ inr (
                      λ k.
                          let first =
                            ap (λ t. t.incidents k) e ∙ incident_updated id (pos 2) k σ.tables in
                          rest k ∙ rw first (ground arith),
                      kept' ∙ kept,
                    )
                  ])
                  (λ _ f. f)
          ])
          (λ ρ f. wp-any _ (λ _ _. inl f) (λ _. f))))

  not_listed :
      (due : ℤ → Bool) (k : ℤ) (ids : List ℤ)
      → All (λ id. due id ≡ true) ids
      → due k ≡ false
      → any (λ id. id ==ℤ k) ids ≡ false
  not_listed due k [] h e = refl
  not_listed due k (id ∷ ids) (h, hs) e = elim (Bool-cases (id ==ℤ k)) [
    | inl same ↦ let same' : id ≡ k = (==ℤ_iff id k).0 same in absurd (ground arith)
    | inr other ↦ rw other (not_listed due k ids hs e)
  ]

  listed :
      (now_ms : ℤ) (σ : Seen) (ids : List ℤ) (id : ℤ)
      → ((in_range now_ms (σ.view.int_zsets incident_escalations id) ≡ false)
          ⊎ (any (λ k. k ==ℤ id) ids ≡ true))
      → in_range now_ms (σ.view.int_zsets incident_escalations id) ≡ true
      → any (λ k. k ==ℤ id) ids ≡ true
  listed now_ms σ ids id (inl later) due = absurd (ground arith)
  listed now_ms σ ids id (inr there) due = there

  -- The row of an incident after the tasks of the incidents that were popped.
  escalated_row :
      (now_ms : ℤ) (σ : Seen) (ids : List ℤ) (id : ℤ) (row : IncidentRow) {w : Keyspace}
      → Popped now_ms σ.view ids w
      → σ.tables.incidents id ≡ some row
      → row.status ≡ "open"
      → row.severity ≡ pos 1
      → (if any (λ k. k ==ℤ id) ids
          then escalated (pos 2) (σ.tables.incidents id)
          else σ.tables.incidents id)
        ≡ some (
            if in_range now_ms (σ.view.int_zsets incident_escalations id)
            then with_severity (pos 2) row
            else row)
  escalated_row now_ms σ ids id row popped there still one =
      let due_at : ℤ → Bool = λ k. in_range now_ms (σ.view.int_zsets incident_escalations k) in
      elim (Bool-cases (due_at id)) [
        | inl due ↦
            rw (due, listed now_ms σ ids id (popped.complete id) due, there) (rw (still, one) refl)
        | inr later ↦ rw (later, not_listed due_at id ids popped.due later, there) refl
      ]

  -- The incident has been escalated if that was due by the clock, and else is as it was.
  abbrev pub Escalated : State sv → ℤ → IncidentRow → Seen → Type 0
  Escalated s id row τ =
      τ.tables.incidents id
      ≡ some (
          if in_range (shown_ms sv s) ((see sv s).view.int_zsets incident_escalations id)
          then with_severity (pos 2) row
          else row)

  -- For an open incident of severity 1, after `process_expired_escalations` a service has failed,
  -- or the incident has severity 2 if its escalation was due at the time that the clock showed
  -- when the tick began, and is as before if it was not.
  pub process_expired_escalations-Escalated :
      (s : State sv) (id : ℤ) (row : IncidentRow)
      → (see sv s).tables.incidents id ≡ some row
      → row.status ≡ "open"
      → row.severity ≡ pos 1
      → Ensures
          (see sv)
          (λ _ τ. F ⊎ Escalated s id row τ)
          (λ _. F)
          (process_expired_escalations sv cfg s)
  unfolding process_expired_escalations
  process_expired_escalations-Escalated s id row there still one =
      let σ = see sv s in
      let now_ms = shown_ms sv s in
      reading-Ensures sv {Q = λ _ τ. F ⊎ Escalated s id row τ} _ _ s (
        wp-bind _ _ (
          wp-redis sv (
            wp-weaken (pop_expired_escalations-Popped laws.redis_laws now_ms σ.view)
              (λ ids v popped.
                wp-weaken (escalations-Wp ids (record σ { view = v }))
                  (λ _ τ. elim [
                    | inl f ↦ inl f
                    | inr (after, kept) ↦
                        inr (after id ∙ escalated_row now_ms σ ids id row popped there still one)
                  ])
                  (λ _ f. f))
              (λ _ f. f))))

  -- The escalations leave the windows alone.
  pub process_expired_escalations-windows :
      (σ : Seen)
      → Wp
          (see sv)
          σ
          (process_expired_escalations sv cfg)
          (λ _ τ. F ⊎ (τ.windows ≡ σ.windows))
          (λ _. F)
  unfolding process_expired_escalations
  process_expired_escalations-windows σ = wp-bind _ _ (
      wp-reading sv _ λ now_ms. wp-bind _ _ (
        wp-redis sv (
          wp-weaken (pop_expired_escalations-Popped laws.redis_laws now_ms σ.view)
            (λ ids v popped.
              wp-weaken (escalations-Wp ids (record σ { view = v }))
                (λ _ τ. elim [ inl f ↦ inl f | inr (after, kept) ↦ inr kept ]) (λ _ f. f))
            (λ _ f. f))))

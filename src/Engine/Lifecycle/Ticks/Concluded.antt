-- ===== src/Engine/Lifecycle/Ticks/Concluded.antt =====
-- A transaction whose deadline has come is concluded by the tick (matcher/src/matcher.rs).
use code_storm.Exec.Ensures.{Ensures, weaken-Ensures}
use code_storm.Engine.Parts.{State}
use code_storm.Prelude.{
  ℕ, Uuid, String, true, false, ◌==◌, ◌≡◌, ◌⊎◌, refl, sym, ap, subst, ◌∙◌, inl, inr, Bool-cases,
  Option, none, some, if◌then◌else◌, leb, arith, List, [], ◌∷◌, map, any,
}
use code_storm.Config.{Config}
use code_storm.Services.{Services, ServiceLaws}
use code_storm.Redis.View.{in_range, deadlines}
use code_storm.Model.Partial.{Events, len}
use code_storm.Engine.Seen.{see, shown_ms}
use code_storm.Engine.Timers.{process_expired_windows}
use code_storm.Engine.Handling.Fits.{IsWell}
use code_storm.Engine.Lifecycle.{Life, life, settled, expire, give_up}
use code_storm.Engine.Lifecycle.Occasions.{deadline, lived}
use code_storm.Engine.Lifecycle.Ticks.{
  process_expired_windows-lived, State, shown_ms, Ensures, Expired,
}

-- What a deadline makes of the events that wait.
abbrev pub ending : ℕ → Events → String
ending expected events = if leb expected (len events) then settled events else "degraded"

-- The transaction is done with, and this is its status.
pub record IsConcluded (tx : Uuid) (status : Option String) (l : Life) : Type 0 where
  pub nothing : l.pending tx ≡ none
  pub status_is : l.status tx ≡ status

module _ (expected : ℕ) (tx : Uuid) where
  give_up-others :
      (k : Uuid) (o : Option Events) (l : Life)
      → (k == tx) ≡ false
      → ((give_up expected k o l).pending tx ≡ l.pending tx)
        × ((give_up expected k o l).status tx ≡ l.status tx)
  give_up-others k none l h = (refl, refl)
  give_up-others k (some events) l h = rw h (refl, refl)

  -- A further deadline of any transaction leaves it so.
  expire-IsConcluded :
      (k : Uuid) (status : Option String) (l : Life)
      → IsConcluded tx status l
      → IsConcluded tx status (expire expected k l)
  expire-IsConcluded k status l h = elim (Bool-cases (k == tx)) [
    | inl same ↦
        let own : k ≡ tx = ground arith in
        let gone : l.pending k ≡ none = ap l.pending own ∙ h.nothing in rw gone h
    | inr other ↦
        let (p, s) = give_up-others k (l.pending k) l other in
        record { nothing = p ∙ h.nothing; status_is = s ∙ h.status_is }
  ]

  deadlines-IsConcluded :
      (ids : List Uuid) (status : Option String) (l : Life)
      → IsConcluded tx status l
      → IsConcluded tx status (lived expected (map (λ k. deadline k) ids) l)
  deadlines-IsConcluded [] status l h = h
  deadlines-IsConcluded (k ∷ ids) status l h =
      deadlines-IsConcluded ids status (expire expected k l) (expire-IsConcluded k status l h)

  own_deadline :
      (k : Uuid) (events : Events) (l : Life)
      → (k == tx) ≡ true
      → l.pending tx ≡ some events
      → IsConcluded tx (some (ending expected events)) (expire expected k l)
  own_deadline k events l same waits =
      let own : k ≡ tx = ground arith in
      let there : l.pending k ≡ some events = ap l.pending own ∙ waits in
      rw there (record { nothing = rw same refl; status_is = rw same refl })

  deadlines-conclude :
      (ids : List Uuid) (events : Events) (l : Life)
      → any (λ id. id == tx) ids ≡ true
      → l.pending tx ≡ some events
      → IsConcluded tx
          (some (ending expected events))
          (lived expected (map (λ k. deadline k) ids) l)
  deadlines-conclude [] events l h waits = absurd (cc)
  deadlines-conclude (k ∷ ids) events l h waits = elim (Bool-cases (k == tx)) [
    | inl same ↦
        deadlines-IsConcluded ids (some (ending expected events)) (expire expected k l)
          (own_deadline k events l same waits)
    | inr other ↦
        deadlines-conclude ids events (expire expected k l) (ground arith)
          ((give_up-others k (l.pending k) l other).0 ∙ waits)
  ]

module _ {sv : Services} {F : Type 0} (laws : ServiceLaws F sv) (cfg : Config) where
  -- Where every window in memory stands under its own transaction with events that fit the
  -- transactions, some events of a transaction wait in memory, and its deadline is due at the time
  -- that the clock shows, after `process_expired_windows` a service has failed, or none of those
  -- events waits any more and the status of the transaction is, if as many events as expected had
  -- come, matched or mismatch by whether they agree, and degraded if not.
  pub process_expired_windows-IsConcluded :
      (tx : Uuid) (events : Events) (s : State sv)
      → IsWell laws cfg s.windows
      → (life (see sv s)).pending tx ≡ some events
      → in_range (shown_ms sv s) ((see sv s).view.text_zsets deadlines (sv.codec.uuid_to_string tx))
        ≡ true
      → Ensures
          (see sv)
          (λ _ τ. F ⊎ IsConcluded tx (some (ending cfg.expected_sources_count events)) (life τ))
          (λ _. F)
          (process_expired_windows sv cfg s)
  process_expired_windows-IsConcluded tx events s well waits due =
      let status = some (ending cfg.expected_sources_count events) in
      weaken-Ensures (see sv) (λ _ τ. F ⊎ Expired laws cfg s τ) (λ _. F)
        (λ _ τ. F ⊎ IsConcluded tx status (life τ)) (λ _. F) _
        (process_expired_windows-lived laws cfg s well)
        (λ _ τ. elim [
          | inl f ↦ inl f
          | inr (ids, (complete, _), e) ↦ elim (complete tx) [
            | inl later ↦ absurd (cc)
            | inr listed ↦ inr (
                subst (IsConcluded tx status) (sym e) (
                  deadlines-conclude cfg.expected_sources_count tx ids events (life (see sv s))
                    listed waits))
          ]
        ])
        (λ _ f. f)

-- ===== src/Runs.antt =====
-- What the service does: the windows restored at its start, the entries of the stream
-- (matcher/src/stream.rs) and the ticks of the timer (matcher/src/timer.rs), one after another.
-- An error is logged, and the service goes on.
use code_storm.Error.{Result, ok, err}
use code_storm.Engine.Windows.{Windows}
use code_storm.Prelude.{[], refl, ◌≡◌, ◌⊎◌, sym, subst, inl, inr, arith, ℕ, ◌<◌, length, ◌≤◌}
use code_storm.Config.{Config}
use code_storm.Engine.Startup.{restore_from_redis}
use code_storm.Engine.Startup.Restored.{IsSavedWell, restore_from_redis-Restored}
use code_storm.Services.{Services, ServiceLaws}
use code_storm.Exec.{Exec}
use code_storm.Exec.Wp.{Wp, wp-bind, wp-weaken, wp-ignore, wp-any}
use code_storm.Exec.Ensures.{Ensures}
use code_storm.Engine.Parts.{State}
use code_storm.Engine.Seen.{Seen, see}
use code_storm.Engine.Handling.Fits.{IsWell}
use code_storm.Engine.Timers.{tick}
use code_storm.Engine.Timers.Tick.{process_expired_windows-IsWell}
use code_storm.Engine.Timers.Escalation.{process_expired_escalations-windows}
use code_storm.Redis.View.{Entry}
use code_storm.Stream.{handle_entry}
use code_storm.Stream.Acknowledged.{FitsPayload, handle_entry-IsHandled}
use code_storm.Engine.Windows

-- What there is to do.
pub data Input : Type 0 where
  entry : Entry → Input
  timer_tick : Input

module _ (sv : Services) (cfg : Config) where
  abbrev pub step : Input → Exec (State sv) (Unit {0})
  step (entry e) = handle_entry sv cfg e
  step timer_tick = tick sv cfg

module _ {sv : Services} {F : Type 0} (laws : ServiceLaws F sv) (cfg : Config) where
  tick-IsWell :
      (σ : Seen)
      → IsWell laws cfg σ.windows
      → Wp (see sv) σ (tick sv cfg) (λ _ τ. F ⊎ IsWell laws cfg τ.windows) (λ _. F)
  unfolding tick
  tick-IsWell σ well = wp-bind _ _ (
      wp-ignore _ (
        wp-weaken (process_expired_windows-IsWell laws cfg σ well)
          (λ _ ρ. elim [
            | inl f ↦ wp-any _ (λ _ _. inl f) (λ _. f)
            | inr still ↦ wp-ignore _ (
                wp-weaken {Q = λ _ τ. F ⊎ IsWell laws cfg τ.windows}
                  (process_expired_escalations-windows laws cfg ρ)
                  (λ _ τ. elim [
                    | inl f ↦ inl f
                    | inr same ↦ inr (subst (IsWell laws cfg) (sym same) still)
                  ])
                  (λ _ f. inl f))
          ])
          (λ ρ f. wp-any _ (λ _ _. inl f) (λ _. f))))

  -- The texts of a message fit the columns of the transactions.
  abbrev pub IsFitting : Input → Type 0
  IsFitting (entry e) = FitsPayload laws cfg e.payload
  IsFitting timer_tick = Unit

  step-IsWell :
      (i : Input) (σ : Seen)
      → IsFitting i
      → IsWell laws cfg σ.windows
      → Wp (see sv) σ (step sv cfg i) (λ _ τ. F ⊎ IsWell laws cfg τ.windows) (λ _. F)
  step-IsWell (entry e) σ fit well =
      wp-weaken (handle_entry-IsHandled laws cfg e σ fit well)
        (λ _ τ. elim [ inl f ↦ inl f | inr (acked, still) ↦ inr still ]) (λ _ f. f)
  step-IsWell timer_tick σ h well = tick-IsWell σ well

  -- The states that the service can get into: it starts with no window in memory, or with those
  -- that Redis holds, handles entries and ticks, and meanwhile time and the other clients of the
  -- servers change what they will.
  pub data Reaches : State sv → Type 0 where
    start : (s : State sv) → s.windows ≡ [] → Reaches s
    handled : (s : State sv) (i : Input) → Reaches s → IsFitting i → Reaches (step sv cfg i s).1
    restored :
        (s : State sv) (fuel : ℕ)
        → s.windows ≡ []
        → 0 < length (laws.redis_laws.scan_pages (sv.redis.view s.redis) 0)
        → length (laws.redis_laws.scan_pages (sv.redis.view s.redis) 0) ≤ fuel
        → IsSavedWell laws cfg (sv.redis.view s.redis)
        → Reaches (restore_from_redis sv fuel s).1
    outside : (s s' : State sv) → Reaches s → s'.windows ≡ s.windows → Reaches s'

  kept_after :
      {A : Type 0} (P : Seen → Type 0) (x : Result A × State sv)
      → Ensures (see sv) (λ _ τ. F ⊎ P τ) (λ _. F) x
      → F ⊎ P (see sv x.1)
  kept_after P (ok a, s) h = h
  kept_after P (err e, s) f = inl f

  pub no_windows-IsWell : (windows : Windows) → windows ≡ [] → IsWell laws cfg windows
  unfolding Windows.get
  no_windows-IsWell windows empty k w e = absurd (ground arith)

  restore-IsWell :
      (s : State sv) (fuel : ℕ)
      → s.windows ≡ []
      → 0 < length (laws.redis_laws.scan_pages (sv.redis.view s.redis) 0)
      → length (laws.redis_laws.scan_pages (sv.redis.view s.redis) 0) ≤ fuel
      → IsSavedWell laws cfg (sv.redis.view s.redis)
      → Wp
          (see sv)
          (see sv s)
          (restore_from_redis sv fuel)
          (λ _ τ. F ⊎ IsWell laws cfg τ.windows)
          (λ _. F)
  restore-IsWell s fuel empty some_left enough saved =
      wp-weaken
        (restore_from_redis-Restored laws cfg fuel (see sv s) some_left enough saved
          (no_windows-IsWell s.windows empty))
        (λ _ τ (_, h). inr h.well) (λ _ f. f)

  handled-IsWell :
      (s : State sv) (i : Input)
      → IsFitting i
      → F ⊎ IsWell laws cfg s.windows
      → F ⊎ IsWell laws cfg (step sv cfg i s).1.windows
  handled-IsWell s i fit (inl f) = inl f
  handled-IsWell s i fit (inr well) =
      kept_after (λ τ. IsWell laws cfg τ.windows) (step sv cfg i s)
        ((step-IsWell i (see sv s) fit well).at s refl)

  -- In every state that the service reaches from one with no window in memory, or, where every
  -- window that Redis holds stands under its own transaction with events that fit the
  -- transactions, from what a scan with enough fuel restores into it, by entries of the stream
  -- whose texts, if they can be read, fit the columns of the transactions, by ticks of the timer,
  -- and by changes from outside that leave the windows in memory alone, a service has failed, or
  -- every window in memory stands under its own transaction with events that fit.
  pub Reaches-IsWell : (s : State sv) → Reaches s → F ⊎ IsWell laws cfg s.windows
  Reaches-IsWell s (start _ empty) = inr (no_windows-IsWell s.windows empty)
  Reaches-IsWell _ (handled s i before fit) = handled-IsWell s i fit (Reaches-IsWell s before)
  Reaches-IsWell _ (restored s fuel empty some_left enough saved) =
      kept_after (λ τ. IsWell laws cfg τ.windows) (restore_from_redis sv fuel s)
        ((restore-IsWell s fuel empty some_left enough saved).at s refl)
  Reaches-IsWell s (outside before _ h same) = elim (Reaches-IsWell before h) [
    | inl f ↦ inl f
    | inr well ↦ inr (subst (IsWell laws cfg) (sym same) well)
  ]

-- ===== src/Engine/Timers/Tick.antt =====
-- `process_expired_windows`: one tick of the timer.
use code_storm.Prelude.{
  Uuid, ◌≡◌, ◌⊎◌, refl, subst, ◌∙◌, ap, inl, inr, Bool, true, false, none, some, Option, Bool-cases,
  List, [], ◌∷◌, any, ◌==◌, arith, if◌then◌else◌,
}
use code_storm.Config.{Config}
use code_storm.Services.{Services, ServiceLaws}
use code_storm.Exec.{for_each, ignore}
use code_storm.Exec.Wp.{Wp, wp-bind, wp-weaken, wp-pure, wp-ignore, wp-any}
use code_storm.Model.Partial.{PartialTransaction, is_complete}
use code_storm.Store.RedisStore.Deadlines.{pop_expired_deadlines-Popped}
use code_storm.Engine.Windows
use code_storm.Engine.Windows.{Windows, get-remove}
use code_storm.Engine.Seen.{Seen, see, wp-redis, wp-reading}
use code_storm.Engine.Finalize.Closing.{Finalized}
use code_storm.Engine.Handling.Fits.{IsWell}
use code_storm.Engine.Timers.{handle_timeout, process_expired_windows}
use code_storm.Engine.Timers.Timeout.{TimedOut, Degraded, handle_timeout-TimedOut}

module _ {sv : Services} {F : Type 0} (laws : ServiceLaws F sv) (cfg : Config) where
  -- The windows that a timeout leaves.
  abbrev pub IsWithout : Uuid → Windows → Windows → Type 0
  IsWithout tx before after =
      (k : Uuid) → Windows.get k after ≡ (if tx == k then none else Windows.get k before)

  closed_windows :
      (tx : Uuid) (p : PartialTransaction) (full : Bool) (σ τ : Seen)
      → p.transaction_id ≡ tx
      → (if full then Finalized laws cfg p σ τ else Degraded laws cfg tx p σ τ)
      → IsWithout tx σ.windows τ.windows
  closed_windows tx p true σ τ mine h =
      subst (λ k. IsWithout k σ.windows τ.windows) mine h.forgotten.windows
  closed_windows tx p false σ τ mine h = h.forgotten.windows

  pub TimedOut-windows :
      (tx : Uuid) (o : Option PartialTransaction) (σ τ : Seen)
      → ((p : PartialTransaction) → o ≡ some p → p.transaction_id ≡ tx)
      → TimedOut laws cfg tx o σ τ
      → IsWithout tx σ.windows τ.windows
  TimedOut-windows tx none σ τ mine e =
      λ k. ap (λ υ. Windows.get k υ.windows) e ∙ get-remove tx k σ.windows
  TimedOut-windows tx (some p) σ τ mine h =
      closed_windows tx p (is_complete p cfg.expected_sources_count) σ τ (mine p refl) h

  pub IsWell-without :
      (tx : Uuid) (before after : Windows)
      → IsWithout tx before after
      → IsWell laws cfg before
      → IsWell laws cfg after
  IsWell-without tx before after without well k w e = elim (Bool-cases (tx == k)) [
    | inl same ↦ absurd (ground (arith, without k))
    | inr other ↦ well k w (ground (arith, without k))
  ]

  -- After the tasks of some transactions, their windows are gone.
  timeouts-Wp :
      (ids : List Uuid) (σ : Seen)
      → IsWell laws cfg σ.windows
      → Wp
          (see sv)
          σ
          (for_each (λ tx. ignore (handle_timeout sv cfg tx)) ids)
          (λ _ τ.
            F
            ⊎ ((k : Uuid)
                → Windows.get k τ.windows
                  ≡ (if any (λ id. id == k) ids then none else Windows.get k σ.windows)))
          (λ _. F)
  unfolding for_each
  timeouts-Wp [] σ well = wp-pure tt (inr (λ k. refl))
  timeouts-Wp (tx ∷ ids) σ well = wp-bind _ _ (
      wp-ignore _ (
        wp-weaken (handle_timeout-TimedOut laws cfg tx σ well)
          (λ _ ρ h.
            let without =
              TimedOut-windows tx (Windows.get tx σ.windows) σ ρ (λ p e. (well tx p e).0) h in
            wp-weaken (timeouts-Wp ids ρ (IsWell-without tx σ.windows ρ.windows without well))
              (λ _ τ. elim [
                | inl f ↦ inl f
                | inr rest ↦ inr (λ k. ground (arith, rest k, without k))
              ])
              (λ _ f. f))
          (λ ρ f. wp-any _ (λ _ _. inl f) (λ _. f))))

  any-IsWell :
      (ids : List Uuid) (before after : Windows)
      → ((k : Uuid)
          → Windows.get k after ≡ (if any (λ id. id == k) ids then none else Windows.get k before))
      → IsWell laws cfg before
      → IsWell laws cfg after
  any-IsWell ids before after h well k w e = elim (Bool-cases (any (λ id. id == k) ids)) [
    | inl listed ↦ absurd (ground (arith, h k))
    | inr other ↦ well k w (ground (arith, h k))
  ]

  -- The tick keeps the windows well-formed.
  pub process_expired_windows-IsWell :
      (σ : Seen)
      → IsWell laws cfg σ.windows
      → Wp
          (see sv)
          σ
          (process_expired_windows sv cfg)
          (λ _ τ. F ⊎ IsWell laws cfg τ.windows)
          (λ _. F)
  unfolding process_expired_windows
  process_expired_windows-IsWell σ well = wp-bind _ _ (
      wp-reading sv _ λ now_ms. wp-bind _ _ (
        wp-redis sv (
          wp-weaken (pop_expired_deadlines-Popped laws.redis_laws laws.codec_laws now_ms σ.view)
            (λ ids v popped.
              wp-weaken (timeouts-Wp ids (record σ { view = v }) well)
                (λ _ τ. elim [
                  | inl f ↦ inl f
                  | inr gone ↦ inr (any-IsWell ids σ.windows τ.windows gone well)
                ])
                (λ _ f. f))
            (λ _ f. f))))

-- ===== src/Engine/Lifecycle/Expired.antt =====
-- `handle_timeout` (matcher/src/matcher.rs) does what a deadline does in the abstract life.
use code_storm.Prelude.{
  ℕ, Uuid, Bool, true, false, Option, none, some, ◌≡◌, refl, sym, ap, subst, ◌∙◌, inl, inr,
  Bool-cases, if◌then◌else◌, leb, arith, ◌==◌,
}
use code_storm.Config.{Config}
use code_storm.Services.{Services, ServiceLaws}
use code_storm.Exec.Wp.{Wp, wp-weaken, wp-both}
use code_storm.Model.Partial.{PartialTransaction, len, is_complete}
use code_storm.Engine.Windows.{get-remove}
use code_storm.Engine.Seen.{Seen, see}
use code_storm.Engine.Finalize.Closing.{HasStatus, Forgotten, Finalized}
use code_storm.Engine.Timers.{handle_timeout}
use code_storm.Engine.Timers.Timeout.{TimedOut, Degraded, handle_timeout-TimedOut}
use code_storm.Engine.Handling.Fits.{IsWell}
use code_storm.Engine.Apart.{Apart}
use code_storm.Engine.Apart.Whole.{handle_timeout-IsApart}
use code_storm.Engine.Lifecycle.{life, settled, conclude, give_up, expire}
use code_storm.Engine.Lifecycle.Verdict.{overall_status-settled}
use code_storm.Engine.Lifecycle.Branches.{Alike-eq, closing, conclude-life}
use mathlib.Core.Option
use code_storm.Engine.Windows

module _ {sv : Services} {F : Type 0} (laws : ServiceLaws F sv) (cfg : Config) where
  abbrev expected : ℕ
  expected = cfg.expected_sources_count

  absent-life :
      (tx : Uuid) (σ : Seen)
      → Windows.get tx σ.windows ≡ none
      → life (record σ { windows = Windows.remove tx σ.windows }) ≡ life σ
  absent-life tx σ e = Alike-eq _ _ (record {
    claimed = λ id. refl;
    registered = λ k s. refl;
    pending = λ k. elim (Bool-cases (tx == k)) [
      | inl h ↦
          let same : tx ≡ k = ground arith in
          rw (get-remove tx k σ.windows, h)
            (ap (Option.map (λ w. w.events))
              (sym (subst (λ z. Windows.get z σ.windows ≡ none) same e)))
      | inr h ↦ rw (get-remove tx k σ.windows, h) refl
    ];
    status = λ k. refl;
  })

  TimedOut-expires :
      (tx : Uuid) (o : Option PartialTransaction) (σ τ : Seen)
      → Windows.get tx σ.windows ≡ o
      → ((p : PartialTransaction) → o ≡ some p → p.transaction_id ≡ tx)
      → TimedOut laws cfg tx o σ τ
      → Apart sv.codec closing tx σ τ
      → life τ ≡ give_up expected tx (Option.map (λ w. w.events) o) (life σ)
  unfolding is_complete
  TimedOut-expires tx none σ τ e own h a = ap life h ∙ absent-life tx σ e
  TimedOut-expires tx (some p) σ τ e own h a = ended (leb expected (len p.events)) h
    where
      ended :
          (full : Bool)
          → (if full then Finalized laws cfg p σ τ else Degraded laws cfg tx p σ τ)
          → life τ ≡ conclude tx (if full then settled p.events else "degraded") (life σ)
      ended true f =
          conclude-life laws cfg tx (settled p.events) σ τ
            (subst (λ k. HasStatus laws cfg k (settled p.events) τ) (own p refl)
              (subst (λ s. HasStatus laws cfg p.transaction_id s τ)
                (overall_status-settled sv cfg p) f.status))
            (subst (λ k. Forgotten laws cfg k σ τ) (own p refl) f.forgotten) a
      ended false d = conclude-life laws cfg tx "degraded" σ τ d.status d.forgotten a

  -- Where every window in memory stands under its own transaction with events that fit the
  -- transactions, `handle_timeout`, unless a service fails, does what a deadline does.
  pub handle_timeout-expires :
      (tx : Uuid) (σ : Seen)
      → IsWell laws cfg σ.windows
      → Wp
          (see sv)
          σ
          (handle_timeout sv cfg tx)
          (λ _ τ. life τ ≡ expire cfg.expected_sources_count tx (life σ))
          (λ _. F)
  handle_timeout-expires tx σ well =
      wp-weaken
        (wp-both (handle_timeout-TimedOut laws cfg tx σ well)
          (handle_timeout-IsApart laws cfg tx σ (λ w h. (well tx w h).0)))
        (λ _ τ (h, a).
          TimedOut-expires tx (Windows.get tx σ.windows) σ τ refl (λ p e. (well tx p e).0) h a)
        (λ _ (f, _). f)

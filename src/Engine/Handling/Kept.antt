-- ===== src/Engine/Handling/Kept.antt =====
-- The windows before and after `handle_event` (matcher/src/matcher.rs).
use mathlib.Core.Option.{some-injective}
use code_storm.Prelude.{
  ◌≡◌, sym, ◌∙◌, subst, inl, inr, Bool, true, false, Bool-cases, Option-cases, ◌==◌, arith,
  if◌then◌else◌,
}
use code_storm.Prelude.Int.{ℤ}
use code_storm.Config.{Config}
use code_storm.Services.{Services, ServiceLaws}
use code_storm.Postgres.{fits}
use code_storm.Redis.View.{sources, dedup_event}
use code_storm.Exec.Wp.{Wp, wp-weaken}
use code_storm.Model.Source
use code_storm.Model.Event.{PaymentEvent, StreamMessage}
use code_storm.Model.Partial.{is_complete}
use code_storm.Engine.{handle_event, with_event}
use code_storm.Engine.Seen.{Seen, see}
use code_storm.Engine.Handling.Duplicate.{Duplicated, pending_row}
use code_storm.Engine.Handling.Gather.{Waiting}
use code_storm.Engine.Handling.Opening.{found_at}
use code_storm.Engine.Handling.Completion.{Completed}
use code_storm.Engine.Handling.Retry.{handle_event-claimed}
use code_storm.Engine.Handling.Fits.{IsWell, AllFit, found-IsWell, with_event-AllFit}
use code_storm.Engine.Handling.Outcome.{handle_event-Outcome}
use code_storm.Engine.Timers.Tick.{IsWell-without}

module _ {sv : Services} {F : Type 0} (laws : ServiceLaws F sv) (cfg : Config) where
  Waiting-IsWell :
      (event : PaymentEvent) (now_ms : ℤ) (σ τ : Seen)
      → fits (pending_row laws cfg event) ≡ true
      → IsWell laws cfg σ.windows
      → Waiting laws cfg event now_ms σ τ
      → IsWell laws cfg τ.windows
  Waiting-IsWell event now_ms σ τ ok_event well h k w e =
      elim (Bool-cases (event.transaction_id == k)) [
        | inl same ↦
            let (mine, fit) = found-IsWell laws cfg event now_ms σ well in
            let it : h.kept ≡ w = some-injective h.kept w (ground (arith, h.windows k)) in
            subst (λ p. (p.transaction_id ≡ k) × AllFit laws cfg p.events) it
              (
                h.same_id ∙ mine ∙ ground arith,
                subst (AllFit laws cfg) (sym h.events) (
                    with_event-AllFit laws cfg event (found_at laws cfg event now_ms σ).events fit
                      ok_event),
              )
        | inr other ↦ well k w (ground (arith, h.windows k))
      ]

  outcome-IsWell :
      (second full : Bool) (event : PaymentEvent) (now_ms : ℤ) (σ τ : Seen)
      → fits (pending_row laws cfg event) ≡ true
      → IsWell laws cfg σ.windows
      → (if second
          then Duplicated laws cfg event σ τ
          else if full
          then Completed laws cfg (with_event sv cfg event (found_at laws cfg event now_ms σ)) σ τ
          else Waiting laws cfg event now_ms σ τ)
      → IsWell laws cfg τ.windows
  outcome-IsWell true full event now_ms σ τ ok_event well h =
      subst (IsWell laws cfg) (sym h.windows) well
  outcome-IsWell false true event now_ms σ τ ok_event well h =
      IsWell-without laws cfg (found_at laws cfg event now_ms σ).transaction_id σ.windows τ.windows
        h.forgotten.windows well
  outcome-IsWell false false event now_ms σ τ ok_event well h =
      Waiting-IsWell event now_ms σ τ ok_event well h

  pub handle_event-IsWell :
      (msg : StreamMessage) (σ : Seen)
      → fits (pending_row laws cfg msg.event) ≡ true
      → IsWell laws cfg σ.windows
      → Wp (see sv) σ (handle_event sv cfg msg) (λ _ τ. IsWell laws cfg τ.windows) (λ _. F)
  handle_event-IsWell msg σ ok_event well =
      elim (Option-cases (σ.view.strings (dedup_event msg.event.event_id))) [
        | inl fresh ↦
            wp-weaken (handle_event-Outcome laws cfg msg σ fresh ok_event well)
              (λ _ τ (now_ms, h).
                outcome-IsWell
                  (σ.view.sets (sources msg.event.transaction_id)
                    (Source.to_string msg.event.source))
                  (is_complete (with_event sv cfg msg.event (found_at laws cfg msg.event now_ms σ))
                    cfg.expected_sources_count)
                  msg.event now_ms σ τ ok_event well h)
              (λ _ f. f)
        | inr (t, held) ↦
            wp-weaken (handle_event-claimed laws cfg msg σ t held)
              (λ _ τ same. subst (λ υ. IsWell laws cfg υ.windows) (sym same) well) (λ _ f. f)
      ]

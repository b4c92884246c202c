-- ===== src/Engine/Lifecycle/Refined.antt =====
-- `handle_event` and `handle_timeout` (matcher/src/matcher.rs) do what the abstract life does.
use code_storm.Prelude.{
  ℕ, String, true, false, not, Option, Option-cases, none, ◌≡◌, refl, sym, ap, ◌∙◌, inl, inr,
  Bool-cases, is_some, leb, unwrap_or, arith, subst,
}
use code_storm.Prelude.Int.{ℤ}
use code_storm.Config.{Config}
use code_storm.Services.{Services, ServiceLaws}
use code_storm.Exec.Wp.{Wp, wp-bind, wp-if, wp-weaken, wp-both}
use code_storm.Redis.View.{Key, Keyspace, dedup_event, sources, set_nx_px}
use code_storm.Postgres.{fits}
use code_storm.Model.Event.{PaymentEvent, StreamMessage}
use code_storm.Model.Partial.{PartialTransaction, no_events, insert, len, is_complete}
use code_storm.Store.RedisStore.Claims.{claim-Wp, register-Wp}
use code_storm.Engine.Seen.{Seen, see, wp-redis, wp-reading}
use code_storm.Engine.{with_event, gather, handle_claimed, handle_event}
use code_storm.Engine.Handling.Opening.{found_at}
use code_storm.Engine.Handling.Duplicate.{pending_row, handle_duplicate-Duplicated}
use code_storm.Engine.Handling.Gather.{gather-Waiting}
use code_storm.Engine.Handling.Completion.{gather-Completed, Completed}
use code_storm.Engine.Handling.Retry.{handle_event-claimed}
use code_storm.Engine.Handling.Fits.{IsWell, closing_fits, found-IsWell, with_event-AllFit}
use code_storm.Engine.Apart.Handling.{gather-IsApart, handle_duplicate-IsApart}
use code_storm.Engine.Lifecycle.{life, settled, take, mark, conclude, join, arrive}
use mathlib.Core.Bool.{false≢true}
use code_storm.Engine.Finalize.Closing.{HasStatus}
use code_storm.Engine.Apart.{Apart}
use code_storm.Engine.Handling.Outcome.{of_not-true, of_not-false}
use code_storm.Engine.Lifecycle.Verdict.{overall_status-settled}
use code_storm.Engine.Lifecycle.Branches.{
  keeping, closing, taken_view, taken-life, Duplicated-life, conclude-life, Waiting-life,
  found-events,
}
use code_storm.Model.Source

set_nx_px-sets :
    (k : Key) (t : String) (ttl : ℕ) (v : Keyspace) → (set_nx_px k t ttl v).sets ≡ v.sets
set_nx_px-sets k t ttl v = elim (Bool-cases (is_some (v.strings k))) [
  | inl h ↦ rw h refl
  | inr h ↦ rw h refl
]

module _ {sv : Services} {F : Type 0} (laws : ServiceLaws F sv) (cfg : Config) where
  abbrev expected : ℕ
  expected = cfg.expected_sources_count

  -- A new event of a source that has not reported.
  gather-joins :
      (e : PaymentEvent) (start : ℕ) (now_ms : ℤ) (σ : Seen)
      → fits (pending_row laws cfg e) ≡ true
      → IsWell laws cfg σ.windows
      → Wp
          (see sv)
          σ
          (gather sv cfg e start now_ms)
          (λ _ τ.
            life τ
            ≡ join expected e.transaction_id
                (insert e.source e (unwrap_or ((life σ).pending e.transaction_id) no_events))
                (life σ))
          (λ _. F)
  unfolding is_complete
  gather-joins e start now_ms σ ok_event well =
      let found = found_at laws cfg e now_ms σ in
      let p = with_event sv cfg e found in
      let (mine, fit) = found-IsWell laws cfg e now_ms σ well in
      rw (sym (found-events laws cfg e now_ms σ)) (elim (Bool-cases (leb expected (len p.events))) [
        | inl full ↦ rw full (
            wp-weaken
              (wp-both
                (gather-Completed laws cfg e start now_ms σ full
                  (closing_fits laws cfg p (with_event-AllFit laws cfg e found.events fit ok_event))
                  mine)
                (gather-IsApart laws cfg closing e start now_ms σ mine (λ _. refl)))
              (λ _ τ (c, a). completed e p σ τ mine c a) (λ _ (f, _). f))
        | inr partial ↦ rw partial (
            wp-weaken
              (wp-both (gather-Waiting laws cfg e start now_ms σ partial) (
                gather-IsApart laws cfg keeping e start now_ms σ mine
                  (λ full. absurd (false≢true (sym partial ∙ full)))))
              (λ _ τ (w, a). Waiting-life laws cfg e now_ms σ τ w a) (λ _ (f, _). f))
      ])
    where
      completed :
          (e : PaymentEvent) (p : PartialTransaction) (σ τ : Seen)
          → p.transaction_id ≡ e.transaction_id
          → Completed laws cfg p σ τ
          → Apart sv.codec closing e.transaction_id σ τ
          → life τ ≡ conclude e.transaction_id (settled p.events) (life σ)
      completed e p σ τ mine c a =
          subst
            (λ t. Apart sv.codec closing t σ τ → life τ ≡ conclude t (settled p.events) (life σ))
            mine
            (λ b.
              conclude-life laws cfg p.transaction_id (settled p.events) σ τ
                (subst (λ s. HasStatus laws cfg p.transaction_id s τ)
                  (overall_status-settled sv cfg p) c.status)
                c.forgotten b)
            a

  -- After the claim.
  handle_claimed-arrives :
      (e : PaymentEvent) (start ttl : ℕ) (σ : Seen)
      → σ.view.strings (dedup_event e.event_id) ≡ none
      → fits (pending_row laws cfg e) ≡ true
      → IsWell laws cfg σ.windows
      → Wp
          (see sv)
          (record σ { view = set_nx_px (dedup_event e.event_id) "1" ttl σ.view })
          (handle_claimed sv cfg e start)
          (λ _ τ. life τ ≡ arrive expected e (life σ))
          (λ _. F)
  unfolding handle_claimed
  handle_claimed-arrives e start ttl σ fresh ok_event well =
      let ρ : Seen = record σ { view = taken_view e ttl σ.view } in
      let taken = taken-life e ttl σ fresh in
      let sets =
        ap (λ z. z (sources e.transaction_id) (Source.to_string e.source))
          (set_nx_px-sets (dedup_event e.event_id) "1" ttl σ.view) in
      wp-bind _ _ (
        wp-reading sv _ λ now_ms. wp-bind _ _ (
          wp-redis sv (
            register-Wp laws.redis_laws e.transaction_id e.source _ (
              wp-if _ _ _
                (λ first.
                  wp-weaken (gather-joins e start now_ms ρ ok_event well)
                    (λ _ τ h. h ∙ joined e ρ σ taken fresh (sym sets ∙ of_not-true _ first))
                    (λ _ f. f))
                (λ second.
                  wp-weaken
                    (wp-both (handle_duplicate-Duplicated laws cfg e start ρ ok_event)
                      (handle_duplicate-IsApart laws cfg keeping e start ρ))
                    (λ _ τ (d, a).
                      Duplicated-life laws cfg e ρ τ d a
                      ∙ marked e ρ σ taken fresh (sym sets ∙ of_not-false _ second))
                    (λ _ (f, _). f))))))
    where
      joined :
          (e : PaymentEvent) (ρ σ : Seen)
          → life ρ ≡ take e (life σ)
          → σ.view.strings (dedup_event e.event_id) ≡ none
          → (life σ).registered e.transaction_id e.source ≡ false
          → join expected e.transaction_id
              (insert e.source e (unwrap_or ((life ρ).pending e.transaction_id) no_events))
              (life ρ)
            ≡ arrive expected e (life σ)
      joined e ρ σ h fresh first =
          ap
            (λ l.
              join expected e.transaction_id
                (insert e.source e (unwrap_or (l.pending e.transaction_id) no_events)) l)
            h
          ∙ rw (fresh, first) refl

      marked :
          (e : PaymentEvent) (ρ σ : Seen)
          → life ρ ≡ take e (life σ)
          → σ.view.strings (dedup_event e.event_id) ≡ none
          → (life σ).registered e.transaction_id e.source ≡ true
          → mark e.transaction_id "pending" (life ρ) ≡ arrive expected e (life σ)
      marked e ρ σ h fresh second = ap (mark e.transaction_id "pending") h ∙ rw (fresh, second) refl

  -- Where the texts of the event fit the columns of the transactions and every window in memory
  -- stands under its own transaction with events that fit, `handle_event`, unless a service fails,
  -- does what the arrival of the event does.
  pub handle_event-arrives :
      (msg : StreamMessage) (σ : Seen)
      → fits (pending_row laws cfg msg.event) ≡ true
      → IsWell laws cfg σ.windows
      → Wp
          (see sv)
          σ
          (handle_event sv cfg msg)
          (λ _ τ. life τ ≡ arrive cfg.expected_sources_count msg.event (life σ))
          (λ _. F)
  unfolding handle_event
  handle_event-arrives msg σ ok_event well =
      elim (Option-cases (σ.view.strings (dedup_event msg.event.event_id))) [
        | inl fresh ↦ wp-bind _ _ (
            wp-reading sv _ λ start. wp-bind _ _ (
              wp-redis sv (
                claim-Wp laws.redis_laws msg.event.event_id cfg.reconciler_dedup_window_ms σ.view (
                  wp-if _ _ _ (λ _. handle_claimed-arrives msg.event start _ σ fresh ok_event well)
                    (λ held. absurd (not_held _ fresh held))))))
        | inr (t, held) ↦
            wp-weaken (handle_event-claimed laws cfg msg σ t held)
              (λ _ τ same. ap life same ∙ rw held refl) (λ _ f. f)
      ]
    where
      not_held : (o : Option String) → o ≡ none → not (is_some o) ≡ false → ⊥
      not_held o e h = ground arith

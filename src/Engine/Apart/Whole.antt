-- ===== src/Engine/Apart/Whole.antt =====
-- `handle_event` and `handle_timeout` (matcher/src/matcher.rs) have to do with one transaction only.
use code_storm.Prelude.{
  Uuid, true, false, Option, Option-cases, none, some, ◌≡◌, refl, inl, inr, is_some, ◌==◌, ℕ,
  Bool-cases, sym, ◌∙◌, ap,
}
use code_storm.Prelude.Int.{ℤ}
use code_storm.Config.{Config}
use code_storm.Services.{Services, ServiceLaws}
use code_storm.Exec.{Exec, ◌>>=◌}
use code_storm.Exec.Wp.{Wp, wp-bind, wp-weaken, wp-gets, wp-if}
use code_storm.Exec.Keeps.{Keeps, KeepsFrom, command-Keeps, bind-Keeps, pure-Keeps, if-Keeps}
use code_storm.Redis.View.{dedup_event, sources}
use code_storm.Model.Event.{PaymentEvent, StreamMessage}
use code_storm.Model.Partial.{PartialTransaction, new}
use code_storm.Store.RedisStore
use code_storm.Engine.Windows
use code_storm.Engine.Windows.{Windows, get-remove}
use code_storm.Engine.Parts.{State, on_redis}
use code_storm.Engine.Seen.{Seen, see, wp-redis, wp-reading}
use code_storm.Engine.{handle_event, handle_claimed, new}
use code_storm.Engine.Timers.{handle_timeout, handle_removed}
use code_storm.Engine.Handling.Opening.{found_at}
use code_storm.Engine.Apart.{Scope, Apart, ApartView, IsApart, apart-IsFrame, view-IsFrame}
use code_storm.Engine.Apart.Handling.{
  gather-IsApart, handle_duplicate-IsApart, finalize_window-IsApart, degrade_window-IsApart,
}
use code_storm.Engine.Apart.Steps.{modify-IsApart}

-- The window of a transaction in memory, if there is one, is its own.
abbrev pub IsOwn : Uuid → Windows → Type 0
IsOwn tx windows =
    (w : PartialTransaction) → Windows.get tx windows ≡ some w → w.transaction_id ≡ tx

-- An event may claim its id and register its source.
abbrev pub of_event : PaymentEvent → Scope
of_event event = record { taken = λ id. event.event_id == id; own_sources = true }

-- A timeout claims nothing.
abbrev pub of_timeout : Scope
of_timeout = record { taken = λ _. false; own_sources = true }

module _ {sv : Services} {F : Type 0} (laws : ServiceLaws F sv) (cfg : Config) where
  pub found_own :
      (event : PaymentEvent) (now_ms : ℤ) (σ : Seen)
      → IsOwn event.transaction_id σ.windows
      → (found_at laws cfg event now_ms σ).transaction_id ≡ event.transaction_id
  unfolding new
  found_own event now_ms σ own = elim (Option-cases (Windows.get event.transaction_id σ.windows)) [
    | inl e ↦ rw e refl
    | inr (w, e) ↦ rw e (own w e)
  ]

  module _ (scope : Scope) (tx : Uuid) where
    -- A step in Redis, and then one with the same windows in memory.
    redis_first-IsApart :
        {A B : Type 0} (m : Exec sv.redis.Server A) (f : A → Exec (State sv) B) (σ : Seen)
        → Keeps sv.redis.view (ApartView sv.codec scope tx) m
        → ((a : A) (ρ : Seen)
            → ρ.windows ≡ σ.windows
            → KeepsFrom (see sv) (Apart sv.codec scope tx) ρ (f a))
        → KeepsFrom (see sv) (Apart sv.codec scope tx) σ (on_redis sv m >>= f)
    redis_first-IsApart m f σ h k =
        let frame = apart-IsFrame sv.codec scope tx in
        let same = frame.stay σ in
        wp-bind _ _ (
          wp-redis sv (
            wp-weaken (h σ.view)
              (λ a v r.
                wp-weaken (k a (record σ { view = v }) refl)
                  (λ _ τ s.
                    frame.onward (record { windows = same.windows; view = r; tables = same.tables })
                      s)
                  (λ τ s.
                    frame.onward (record { windows = same.windows; view = r; tables = same.tables })
                      s))
              (λ v r. record { windows = same.windows; view = r; tables = same.tables })))

  module _ (event : PaymentEvent) where
    abbrev tx_id : Uuid
    tx_id = event.transaction_id

    claim-IsApart :
        Keeps sv.redis.view
          (ApartView sv.codec (of_event event) tx_id)
          (RedisStore.try_claim_event sv.redis event.event_id cfg.reconciler_dedup_window_ms)
    unfolding RedisStore.try_claim_event
    claim-IsApart =
        let frame = view-IsFrame sv.codec (of_event event) tx_id in
        bind-Keeps frame _ _
          (command-Keeps frame (laws.redis_laws.set_nx_px_law (dedup_event event.event_id) "1" _)
            (λ _ v. elim (Bool-cases (is_some (v.strings (dedup_event event.event_id)))) [
              | inl held ↦ rw held (frame.stay v)
              | inr free ↦ rw free (record {
                claims = λ id h. rw h refl;
                saved = λ k h. refl;
                registered = λ k h. refl;
                due = λ k h. refl;
                acknowledged = refl;
              })
            ]))
          (λ _. pure-Keeps frame _)

    register-IsApart :
        Keeps sv.redis.view
          (ApartView sv.codec (of_event event) tx_id)
          (RedisStore.try_register_source sv.redis tx_id event.source)
    unfolding RedisStore.try_register_source
    register-IsApart =
        let frame = view-IsFrame sv.codec (of_event event) tx_id in
        bind-Keeps frame _ _
          (command-Keeps frame (laws.redis_laws.sadd_law (sources tx_id) _) (λ _ v. record {
            claims = λ id h. refl;
            saved = λ k h. refl;
            registered = λ k h. rw h refl;
            due = λ k h. refl;
            acknowledged = refl;
          }))
          (λ _.
            bind-Keeps frame _ _
              (command-Keeps frame (laws.redis_laws.expire_law (sources tx_id) _) (λ _ v. record {
                claims = λ id h. refl;
                saved = λ k h. refl;
                registered = λ k h. refl;
                due = λ k h. refl;
                acknowledged = refl;
              }))
              (λ _. pure-Keeps frame _))

    handle_claimed-IsApart :
        (start : ℕ) (σ : Seen)
        → IsOwn tx_id σ.windows
        → KeepsFrom
            (see sv)
            (Apart sv.codec (of_event event) tx_id)
            σ
            (handle_claimed sv cfg event start)
    unfolding handle_claimed
    handle_claimed-IsApart start σ own = wp-bind _ _ (
        wp-reading sv _ λ now_ms.
          redis_first-IsApart (of_event event) tx_id _ _ σ register-IsApart (λ first ρ e.
            wp-if first _ _
              (λ _.
                gather-IsApart laws cfg (of_event event) event start now_ms ρ
                  (found_own event now_ms ρ (λ w h. own w (sym (ap (Windows.get tx_id) e) ∙ h)))
                  (λ _. refl))
              (λ _. handle_duplicate-IsApart laws cfg (of_event event) event start ρ)))

  -- Whether it ends well or in an error, `handle_event` leaves the other claims and the other
  -- transactions alone, where the window in memory of its own transaction is its own.
  pub handle_event-IsApart :
      (msg : StreamMessage) (σ : Seen)
      → IsOwn msg.event.transaction_id σ.windows
      → Wp
          (see sv)
          σ
          (handle_event sv cfg msg)
          (λ _ τ. Apart sv.codec (of_event msg.event) msg.event.transaction_id σ τ)
          (λ τ. Apart sv.codec (of_event msg.event) msg.event.transaction_id σ τ)
  unfolding handle_event
  handle_event-IsApart msg σ own = wp-bind _ _ (
      wp-reading sv _ λ start.
        redis_first-IsApart (of_event msg.event) msg.event.transaction_id _ _ σ
          (claim-IsApart msg.event)
          (λ is_new ρ e.
            wp-if is_new _ _
              (λ _.
                handle_claimed-IsApart msg.event start ρ
                  (λ w h. own w (sym (ap (Windows.get msg.event.transaction_id) e) ∙ h)))
              (λ _.
                pure-Keeps (apart-IsFrame sv.codec (of_event msg.event) msg.event.transaction_id) tt
                  ρ)))

  removed-IsApart :
      (tx : Uuid) (o : Option PartialTransaction)
      → ((w : PartialTransaction) → o ≡ some w → w.transaction_id ≡ tx)
      → IsApart sv of_timeout tx (handle_removed sv cfg tx o)
  removed-IsApart tx none own = pure-Keeps (apart-IsFrame sv.codec of_timeout tx) tt
  removed-IsApart tx (some w) own =
      if-Keeps (apart-IsFrame sv.codec of_timeout tx) _ _ _
        (finalize_window-IsApart laws cfg of_timeout tx w (own w refl) refl)
        (degrade_window-IsApart laws cfg of_timeout tx w refl)

  -- Whether it ends well or in an error, `handle_timeout` leaves the claims and the other transactions
  -- alone, where the window in memory of its own transaction is its own.
  pub handle_timeout-IsApart :
      (tx : Uuid) (σ : Seen)
      → IsOwn tx σ.windows
      → Wp
          (see sv)
          σ
          (handle_timeout sv cfg tx)
          (λ _ τ. Apart sv.codec of_timeout tx σ τ)
          (λ τ. Apart sv.codec of_timeout tx σ τ)
  unfolding handle_timeout
  handle_timeout-IsApart tx σ own =
      let frame = apart-IsFrame sv.codec of_timeout tx in
      wp-bind _ _ (
        wp-gets _ (λ σ. Windows.get tx σ.windows) (λ s. refl)
          (bind-Keeps frame _ _
            (modify-IsApart laws cfg of_timeout tx (Windows.remove tx)
              (λ windows k h. get-remove tx k windows ∙ rw h refl))
            (λ _. removed-IsApart tx (Windows.get tx σ.windows) own) σ))

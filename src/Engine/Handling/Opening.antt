-- ===== src/Engine/Handling/Opening.antt =====
-- `handle_event` (matcher/src/matcher.rs) for the first event of a source: finding or opening its window.
use text.Mathlib.TextEquality.{eq_iff}
use code_storm.Prelude.{
  ℕ, Uuid, Bool, ◌≡◌, refl, some, true, false, arith, ◌∙◌, ap, if◌then◌else◌, ◌==◌,
}
use code_storm.Prelude.Int.{ℤ}
use code_storm.Config.{Config}
use code_storm.Services.{Services, ServiceLaws}
use code_storm.Exec.{pure}
use code_storm.Exec.Wp.{Wp, wp-bind, wp-pure, wp-command, wp-weaken, wp-modify, wp-gets}
use code_storm.Redis.View.{deadlines}
use code_storm.Model.Event.{PaymentEvent}
use code_storm.Model.Partial.{PartialTransaction, len}
use code_storm.Store.RedisStore
use code_storm.Store.RedisStore.Windows.{save-Wp}
use code_storm.Engine.Windows
use code_storm.Engine.Windows.{get-insert_self, get-insert_ne, get-remove, get-insert}
use code_storm.Engine.Seen.{Seen, see, wp-redis, wp-publish}
use code_storm.Engine.{settle, gather, window_of, with_event, open_window}

module _ {sv : Services} {F : Type 0} (laws : ServiceLaws F sv) (cfg : Config)
    (event : PaymentEvent) where
  -- The window that the event finds, or opens at a time.
  abbrev pub found_at : ℤ → Seen → PartialTransaction
  found_at now_ms σ = window_of sv cfg event.transaction_id now_ms σ.windows

  -- What opening a window does: its deadline is set; only the channel sees more of it.
  record Opened (p : PartialTransaction) (fresh : Bool) (σ τ : Seen) : Type 0 where
    windows : τ.windows ≡ σ.windows
    pub tables : τ.tables ≡ σ.tables
    pub due : τ.view.text_zsets deadlines (sv.codec.uuid_to_string event.transaction_id) ≡ (
        if fresh
        then some p.deadline_ms
        else σ.view.text_zsets deadlines (sv.codec.uuid_to_string event.transaction_id))

  open_window-Opened :
      (p : PartialTransaction) (now_ms : ℤ) (fresh : Bool) (σ : Seen)
      → Wp
          (see sv)
          σ
          (if fresh then open_window sv cfg event p now_ms else pure tt)
          (λ _ τ. Opened p fresh σ τ)
          (λ _. F)
  unfolding open_window RedisStore.add_deadline
  open_window-Opened p now_ms false σ =
      wp-pure tt (record { windows = refl; tables = refl; due = refl })
  open_window-Opened p now_ms true σ = wp-bind _ _ (
      wp-redis sv (
        wp-command (laws.redis_laws.zadd_text_law deadlines _ p.deadline_ms)
          (λ _ _. wp-publish sv laws cfg _ λ t e. record {
            windows = refl;
            tables = refl;
            due = ground (
              arith,
              eq_iff (sv.codec.uuid_to_string event.transaction_id)
                  (sv.codec.uuid_to_string event.transaction_id),
            );
          })
          (λ f. f) (λ _ f _. f)))

  -- The state in which the event is in its window, and the window in its places.
  pub record Gathered (now_ms : ℤ) (σ τ : Seen) : Type 0 where
    pub windows :
        τ.windows
        ≡ Windows.insert event.transaction_id
            (with_event sv cfg event (found_at now_ms σ))
            (Windows.insert event.transaction_id (found_at now_ms σ) σ.windows)
    pub tables : τ.tables ≡ σ.tables
    pub due : τ.view.text_zsets deadlines (sv.codec.uuid_to_string event.transaction_id) ≡ (
        if len (found_at now_ms σ).events == 0
        then some (found_at now_ms σ).deadline_ms
        else σ.view.text_zsets deadlines (sv.codec.uuid_to_string event.transaction_id))

  pub gather-Wp :
      (start_inst : ℕ) (now_ms : ℤ) (σ : Seen) {Q : Unit {0} → Seen → Type 0}
      → ((ρ : Seen)
          → Gathered now_ms σ ρ
          → Wp
              (see sv)
              ρ
              (settle sv cfg event (with_event sv cfg event (found_at now_ms σ)) start_inst now_ms)
              Q
              (λ _. F))
      → Wp (see sv) σ (gather sv cfg event start_inst now_ms) Q (λ _. F)
  unfolding gather
  gather-Wp start_inst now_ms σ q =
      let found = found_at now_ms σ in
      let p = with_event sv cfg event found in
      wp-bind _ _ (
        wp-gets _ (found_at now_ms) (λ s. refl)
          (wp-bind _ _ (
            wp-modify _
              (λ σ. record σ { windows = Windows.insert event.transaction_id found σ.windows })
              (λ s. refl)
              (wp-bind _ _ (
                wp-weaken (open_window-Opened p now_ms (len found.events == 0) _)
                  (λ _ ρ o. wp-bind _ _ (
                    wp-modify _
                      (λ σ. record σ { windows = Windows.insert event.transaction_id p σ.windows })
                      (λ s. refl)
                      (wp-bind _ _ (
                        wp-redis sv (
                          save-Wp laws.redis_laws laws.codec_laws p ρ.view (λ u read. q _ (record {
                            windows = ap (Windows.insert event.transaction_id p) o.windows;
                            tables = o.tables;
                            due = o.due;
                          })))))))
                  (λ _ f. f))))))

  pub Gathered-others :
      (now_ms : ℤ) (σ ρ : Seen)
      → Gathered now_ms σ ρ
      → (k : Uuid) → (event.transaction_id == k) ≡ false
      → Windows.get k ρ.windows ≡ Windows.get k σ.windows
  Gathered-others now_ms σ ρ g k e =
      ap (Windows.get k) g.windows
      ∙ get-insert_ne event.transaction_id k _ _ e
      ∙ get-insert_ne event.transaction_id k _ σ.windows e

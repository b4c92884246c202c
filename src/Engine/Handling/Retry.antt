-- ===== src/Engine/Handling/Retry.antt =====
-- `handle_event` for an event that was claimed before.
use code_storm.Prelude.{Option, not, is_some, String, ◌≡◌, refl, some, true, arith}
use code_storm.Config.{Config}
use code_storm.Services.{Services, ServiceLaws}
use code_storm.Redis.View.{dedup_event}
use code_storm.Exec.Wp.{Wp, wp-bind, wp-if, wp-pure}
use code_storm.Model.Event.{StreamMessage}
use code_storm.Store.RedisStore.Claims.{claim-Wp}
use code_storm.Engine.Seen.{Seen, see, wp-redis, wp-reading}
use code_storm.Engine.{handle_event}

not_new : (o : Option String) (t : String) → o ≡ some t → not (is_some o) ≡ true → ⊥
not_new o t h e = ground arith

module _ {sv : Services} {F : Type 0} (laws : ServiceLaws F sv) (cfg : Config) where
  -- Where the id of an event is claimed, handling the event again, unless a service fails, changes
  -- nothing that is seen of the engine, whatever became of the first attempt.
  pub handle_event-claimed :
      (msg : StreamMessage) (σ : Seen) (t : String)
      → σ.view.strings (dedup_event msg.event.event_id) ≡ some t
      → Wp (see sv) σ (handle_event sv cfg msg) (λ _ τ. τ ≡ σ) (λ _. F)
  unfolding handle_event
  handle_event-claimed msg σ t held = wp-bind _ _ (
      wp-reading sv _ λ start_inst. wp-bind _ _ (
        wp-redis sv (
          claim-Wp laws.redis_laws msg.event.event_id cfg.reconciler_dedup_window_ms σ.view
            (wp-if _ _ _ (λ e. absurd (not_new _ t held e)) (λ _. wp-pure tt (rw held refl))))))

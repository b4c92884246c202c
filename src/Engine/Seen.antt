-- ===== src/Engine/Seen.antt =====
-- What is seen of the engine's state, and the rules of its steps. The errors that a handler can
-- end in are the faults of the services.
use code_storm.Exec.Ensures.{Ensures}
use code_storm.Prelude.{ℕ, String, ◌≡◌, refl, subst, sym}
use code_storm.Prelude.Int.{ℤ}
use code_storm.Config.{Config}
use code_storm.Services.{Services, ServiceLaws}
use code_storm.Redis.View.{Keyspace, publish}
use code_storm.Postgres.{Tables}
use code_storm.Error.{ok}
use code_storm.Exec.{Exec, ◌>>=◌}
use code_storm.Exec.Wp.{Wp, wp-zoom, wp-bind, wp-lift-ok, wp-command}
use code_storm.Model.Pubsub.{PubsubEvent}
use code_storm.Store.RedisStore
use code_storm.Engine.Windows.{Windows}
use code_storm.Engine.Parts.{State, on_redis, on_postgres, reading, elapsed, publish_event}

pub record Seen : Type 0 where
  pub windows : Windows
  pub view : Keyspace
  pub tables : Tables

module _ (sv : Services) where
  abbrev pub see : State sv → Seen
  see s = record {
    windows = s.windows;
    view = sv.redis.view s.redis;
    tables = sv.postgres.tables s.postgres;
  }

  -- The time that the clock of the machine shows.
  abbrev pub shown_ms : State sv → ℤ
  shown_ms s = (sv.host.utc_now_ms s.machine).0

  -- The judgement on the engine's steps.
  abbrev pub EngineWp :
      {A : Type 0} → Seen → Exec (State sv) A → (A → Seen → Type 0) → (Seen → Type 0) → Type 0
  EngineWp σ m Q E = Wp (see) σ m Q E

  module _ {A : Type 0} {σ : Seen} {Q : A → Seen → Type 0} {E : Seen → Type 0} where
    pub wp-redis :
        {m : Exec sv.redis.Server A}
        → Wp sv.redis.view σ.view m
            (λ a v. Q a (record σ { view = v }))
            (λ v. E (record σ { view = v }))
        → Wp see σ (on_redis sv m) Q E
    unfolding on_redis
    wp-redis h =
        wp-zoom (λ s. s.redis) (λ t s. record s { redis = t }) (λ σ. σ.view)
          (λ v σ. record σ { view = v }) (λ s. refl) (λ s t. refl) h

    pub wp-postgres :
        {m : Exec sv.postgres.Db A}
        → Wp sv.postgres.tables σ.tables m
            (λ a t. Q a (record σ { tables = t }))
            (λ t. E (record σ { tables = t }))
        → Wp see σ (on_postgres sv m) Q E
    unfolding on_postgres
    wp-postgres h =
        wp-zoom (λ s. s.postgres) (λ t s. record s { postgres = t }) (λ σ. σ.tables)
          (λ v σ. record σ { tables = v }) (λ s. refl) (λ s t. refl) h

    -- A reading of the machine may give any value.
    pub wp-reading :
        (read : sv.host.Machine → A × sv.host.Machine)
        → ((a : A) → Q a σ)
        → Wp see σ (reading sv read) Q E
    unfolding reading
    wp-reading read h = record {
      at = λ s e. subst (Q (read s.machine).0) (sym e) (h (read s.machine).0);
    }

  -- A step that begins with a reading of the machine goes on with what the machine shows.
  pub reading-Ensures :
      {A B : Type 0} {Q : B → Seen → Type 0} {E : Seen → Type 0}
      (read : sv.host.Machine → A × sv.host.Machine) (f : A → Exec (State sv) B) (s : State sv)
      → Wp see (see s) (f (read s.machine).0) Q E
      → Ensures see Q E ((reading sv read >>= f) s)
  unfolding reading ◌>>=◌
  reading-Ensures read f s h = h.at (record s { machine = (read s.machine).1 }) refl

  pub wp-elapsed :
      {σ : Seen} {Q : ℤ → Seen → Type 0} {E : Seen → Type 0} (start : ℕ)
      → ((t : ℤ) → Q t σ)
      → Wp see σ (elapsed sv start) Q E
  unfolding elapsed
  wp-elapsed start h = wp-reading _ h

  module _ {F : Type 0} (laws : ServiceLaws F sv) (cfg : Config) {σ : Seen}
      {Q : Unit {0} → Seen → Type 0} where
    -- A published event reaches the channel as its JSON text.
    pub wp-publish :
        (event : PubsubEvent)
        → ((t : String)
            → sv.codec.event_to_json event ≡ ok t
            → Q tt (record σ { view = publish cfg.redis_pubsub_channel t σ.view }))
        → Wp see σ (publish_event sv cfg event) Q (λ _. F)
    unfolding publish_event RedisStore.publish
    wp-publish event h =
        let (t, e) = laws.codec_laws.event_encodes event in
        wp-bind _ _ (
          wp-lift-ok _ t e (
            wp-redis (
              wp-command (laws.redis_laws.publish_law cfg.redis_pubsub_channel t) (λ a p. h t e)
                (λ f. f) (λ a f p. f))))

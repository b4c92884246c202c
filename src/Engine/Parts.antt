-- ===== src/Engine/Parts.antt =====
-- The state of `MatchingEngine`, and the steps of its parts.
use code_storm.Prelude.{ℕ, ◌-◌, String}
use code_storm.Prelude.Int.{ℤ, pos, wrap_i64}
use code_storm.Config.{Config}
use code_storm.Services.{Services}
use code_storm.Exec.{Exec, lift, zoom, ◌>>=◌}
use code_storm.Error.{ok}
use code_storm.Model.Pubsub.{PubsubEvent}
use code_storm.Store.RedisStore
use code_storm.Engine.Windows.{Windows}

pub record State (sv : Services) : Type 0 where
  pub windows : Windows
  pub redis : sv.redis.Server
  pub postgres : sv.postgres.Db
  pub machine : sv.host.Machine

module _ (sv : Services) where
  unfoldable pub on_redis : {A : Type 0} → Exec sv.redis.Server A → Exec (State sv) A
  on_redis m = zoom (λ s. s.redis) (λ t s. record s { redis = t }) m

  unfoldable pub on_postgres : {A : Type 0} → Exec sv.postgres.Db A → Exec (State sv) A
  on_postgres m = zoom (λ s. s.postgres) (λ t s. record s { postgres = t }) m

  -- A reading of the machine, which always succeeds.
  unfoldable pub reading :
      {A : Type 0} → (sv.host.Machine → A × sv.host.Machine) → Exec (State sv) A
  reading read s = let (a, m) = read s.machine in (ok a, record s { machine = m })

  abbrev pub utc_now : Exec (State sv) ℤ
  utc_now = reading sv.host.utc_now_ms

  abbrev pub utc_text : Exec (State sv) String
  utc_text = reading sv.host.utc_now_text

  abbrev pub instant : Exec (State sv) ℕ
  instant = reading sv.host.instant_micros

  -- `start.elapsed().as_micros() as i64`
  unfoldable pub elapsed : ℕ → Exec (State sv) ℤ
  elapsed start =
      reading (λ m. let (t, m') = sv.host.instant_micros m in (wrap_i64 (pos (t - start)), m'))

  -- matcher/src/publisher.rs: `EventPublisher::publish_event`, on the channel of the configuration.
  unfoldable pub publish_event : Config → PubsubEvent → Exec (State sv) (Unit {0})
  publish_event cfg event = do
    json ← lift (sv.codec.event_to_json event)
    on_redis (RedisStore.publish sv.redis cfg.redis_pubsub_channel json)

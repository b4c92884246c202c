-- ===== src/Services.antt =====
-- What the engine stands on: the two servers, the codecs, and the machine that it runs on. The
-- clocks of the machine, and the order in which it iterates over a hash map, are not in the source.
use code_storm.Prelude.{ℕ, String}
use code_storm.Prelude.Int.{ℤ}
use code_storm.Model.Partial.{Events, HashOrder}
use code_storm.Codec.{Codec, CodecLaws}
use code_storm.Redis.{Redis, RedisLaws}
use code_storm.Postgres.{Postgres, PostgresLaws}

pub record Host : Type 1 where
  pub Machine : Type 0
  -- `Utc::now().timestamp_millis()`
  pub utc_now_ms : Machine → ℤ × Machine
  -- `Utc::now().to_rfc3339_opts(…)`
  pub utc_now_text : Machine → String × Machine
  -- `Instant::now()`, in microseconds.
  pub instant_micros : Machine → ℕ × Machine
  pub hash_order : Events → HashOrder

pub record Services : Type 1 where
  pub redis : Redis
  pub postgres : Postgres
  pub codec : Codec
  pub host : Host

pub record ServiceLaws (faults : Type 0) (sv : Services) : Type 0 where
  pub redis_laws : RedisLaws faults sv.redis
  pub postgres_laws : PostgresLaws faults sv.postgres
  pub codec_laws : CodecLaws sv.codec

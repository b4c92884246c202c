-- ===== src/Stream.antt =====
-- matcher/src/stream.rs: one round of the consumer, and what it does with one entry of the stream.
-- The second that it waits after a failed read is left to what happens between rounds.
pub mod Acknowledged
pub mod Replies
use code_storm.Prelude.{String, Option, none, some, List}
use code_storm.Config.{Config}
use code_storm.Redis.View.{Entry}
use code_storm.Exec.{attempt, for_each, Exec, pure, ignore, ◌>>=◌, ◌>>◌}
use code_storm.Services.{Services}
use code_storm.Error.{Result, ok, err}
use code_storm.Model.Event.{StreamMessage}
use code_storm.Engine.Parts.{State, on_redis}
use code_storm.Engine.{handle_event}

module _ (sv : Services) (cfg : Config) where
  unfoldable pub ack_message : String → Exec (State sv) (Unit {0})
  ack_message id = do
    on_redis sv (sv.redis.xack cfg.redis_stream_name cfg.redis_consumer_group id)
    pure tt

  -- A message that cannot be parsed is acknowledged, so that it does not come again. One that is
  -- handled is acknowledged after that, and one whose handling fails is not.
  abbrev pub handle_parsed : String → Result StreamMessage → Exec (State sv) (Unit {0})
  handle_parsed id (err e) = ignore (ack_message id)
  handle_parsed id (ok msg) = ignore (handle_event sv cfg msg >> ack_message id)

  abbrev pub handle_payload : String → Option String → Exec (State sv) (Unit {0})
  handle_payload id none = ignore (ack_message id)
  handle_payload id (some payload) = handle_parsed id (sv.codec.message_from_json payload)

  unfoldable pub handle_entry : Entry → Exec (State sv) (Unit {0})
  handle_entry entry = handle_payload entry.id entry.payload

  -- A failed read is logged.
  abbrev pub handle_reply : Result (List (List Entry)) → Exec (State sv) (Unit {0})
  handle_reply (err e) = pure tt
  handle_reply (ok keys) = for_each (λ ids. for_each handle_entry ids) keys

  -- The body of the loop of `run`.
  unfoldable pub consume : Exec (State sv) (Unit {0})
  consume = do
    reply ← attempt (
        on_redis sv (
          sv.redis.xreadgroup cfg.redis_consumer_group cfg.redis_consumer_name 10 1000
            cfg.redis_stream_name))
    handle_reply reply

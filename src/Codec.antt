-- ===== src/Codec.antt =====
-- What the program takes from serde_json and uuid: texts for windows, published events and
-- identifiers. `CodecLaws` says that reading gives back what was written.
use code_storm.Prelude.Int.{ℤ, IsI64}
use code_storm.Store.Stats.Numbers.{parse_i64}
use code_storm.Prelude.{Uuid, String, Option, some, ◌≡◌}
use code_storm.Error.{Result, ok}
use code_storm.Model.Partial.{PartialTransaction}
use code_storm.Model.Event.{StreamMessage}
use code_storm.Model.Pubsub.{PubsubEvent}

pub record Codec : Type 0 where
  pub window_to_json : PartialTransaction → Result String
  pub window_from_json : String → Result PartialTransaction
  pub message_from_json : String → Result StreamMessage
  pub event_to_json : PubsubEvent → Result String
  -- How the client writes an integer.
  pub i64_to_string : ℤ → String
  pub uuid_to_string : Uuid → String
  pub parse_uuid : String → Option Uuid

pub record CodecLaws (c : Codec) : Type 0 where
  pub window_round_trip :
      (p : PartialTransaction)
      → (t : String) × (c.window_to_json p ≡ ok t) × (c.window_from_json t ≡ ok p)
  pub event_encodes : (e : PubsubEvent) → (t : String) × (c.event_to_json e ≡ ok t)
  pub uuid_round_trip : (u : Uuid) → c.parse_uuid (c.uuid_to_string u) ≡ some u
  pub i64_round_trip : (x : ℤ) → IsI64 x → parse_i64 (c.i64_to_string x) ≡ some x

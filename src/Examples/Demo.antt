-- ===== src/Examples/Demo.antt =====
-- The services put together, and one payment seen by its three sources.
use code_storm.Prelude.{ℕ, suc, String, [], ◌∷◌, none, some, Uuid, false}
use code_storm.Prelude.Int.{ℤ, pos}
use code_storm.Config.{Config, default}
use code_storm.Services.{Host, Services, ServiceLaws}
use code_storm.Redis.View.{Keyspace}
use code_storm.Model.Source.{Source, merchant, gateway, bank}
use code_storm.Model.Event.{PaymentEvent, StreamMessage}
use code_storm.Model.Partial.{Events, PartialTransaction, mgb, insert, no_events}
use code_storm.Engine.Windows.{Windows}
use code_storm.Engine.Parts.{State}
use code_storm.Examples.RedisServer.{Server, redis, redis_laws}
use code_storm.Examples.Database.{postgres, postgres_laws}
use code_storm.Examples.TextCodec.{codec, codec_laws}

-- A machine whose clock ticks at each reading.
abbrev pub host : Host
host = record {
  Machine = ℕ;
  utc_now_ms = λ m. (pos m, suc m);
  utc_now_text = λ m. ("2026-01-01T00:00:00Z", m);
  instant_micros = λ m. (m, suc m);
  hash_order = λ _. mgb;
}

abbrev pub demo : Services
demo = record { redis = redis; postgres = postgres; codec = codec; host = host }

unfoldable pub demo_laws : ServiceLaws ⊥ demo
demo_laws = record {
  redis_laws = redis_laws;
  postgres_laws = postgres_laws;
  codec_laws = codec_laws;
}

abbrev pub config : Config
config = default "67e55044-10b1-426f-9247-bb680e5fe0c8"

abbrev pub empty_keyspace : Keyspace
empty_keyspace = record {
  clock_ms = 0;
  strings = λ _. none;
  sets = λ _ _. false;
  text_zsets = λ _ _. none;
  int_zsets = λ _ _. none;
  lists = λ _. [];
  counters = λ _. pos 0;
  expires = λ _. none;
  published = [];
  acknowledged = [];
  groups = λ _ _. false;
}

abbrev pub empty_server : Server
empty_server = record { base = empty_keyspace; texts = λ _. []; ints = λ _. [] }

abbrev pub start_with : Windows → State demo
start_with windows = record {
  windows = windows;
  redis = empty_server;
  postgres = record { transactions = λ _. none; details = λ _ _. none; incidents = [] };
  machine = 0;
}

abbrev pub payment : Source → Uuid → ℤ → ℤ → String → PaymentEvent
payment source id amount fee currency = record {
  event_id = id;
  transaction_id = 7;
  source = source;
  amount_minor = amount;
  fee_minor = fee;
  currency = currency;
  timestamp_ms = pos 5;
  tx_type = "card";
  merchant_id = some "m1";
}

abbrev pub from_merchant : PaymentEvent
from_merchant = payment merchant 1 (pos 5_000_000) (pos 25_000) "UZS"

abbrev pub from_gateway : PaymentEvent
from_gateway = payment gateway 2 (pos 5_000_000) (pos 25_000) "UZS"

abbrev pub from_bank : PaymentEvent
from_bank = payment bank 3 (pos 4_975_000) (pos 0) "UZS"

abbrev pub two_events : Events
two_events = insert gateway from_gateway (insert merchant from_merchant no_events)

abbrev pub three_events : Events
three_events = insert bank from_bank two_events

abbrev pub window_with : Events → PartialTransaction
window_with events = record {
  transaction_id = 7;
  events = events;
  first_seen_at_ms = pos 0;
  deadline_ms = pos 2000;
  processing_time_micros = pos 0;
}

abbrev pub message : PaymentEvent → StreamMessage
message e = record {
  event = e;
  internal_event_id = 100;
  correlation_id = none;
  ingested_at_ms = pos 0;
}

abbrev pub idle : State demo
idle = start_with []

abbrev pub waiting : State demo
waiting = start_with ((7, window_with two_events) ∷ [])

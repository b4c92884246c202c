-- ===== src/Model/Partial.antt =====
-- matcher/src/model.rs: `PartialTransaction`, the window in which the events of one transaction
-- are gathered. Its `HashMap<Source, PaymentEvent>` is a function of the source; the order in which
-- Rust iterates over it is arbitrary, and is an argument wherever the source depends on it.
pub mod Sources
use text.Mathlib.Text.{◌==◌ as str_eq}
use Prim.Native.Nat.{Ordering}
use Prim.Native.String.{compare}
use code_storm.Prelude.{
  ℕ, ◌+◌, Uuid, String, Bool, true, false, not, Option, none, some, List, [], ◌∷◌, if◌then◌else◌,
  leb, keep, is_some, length, and_then,
}
use code_storm.Prelude.Int.{ℤ, pos, wrap_i64, add_i64}
use code_storm.Model.Source.{Source, merchant, gateway, bank, to_string, all, ◌==◌}
use code_storm.Model.Event.{PaymentEvent}

abbrev pub Events : Type 0
Events = Source → Option PaymentEvent

-- `HashMap::with_capacity`
abbrev pub no_events : Events
no_events s = none

-- `HashMap::insert`
abbrev pub insert : Source → PaymentEvent → Events → Events
insert s e events t = if s == t then some e else events t

-- `HashMap::contains_key`
abbrev pub contains_key : Events → Source → Bool
contains_key events s = is_some (events s)

-- `HashMap::len`
abbrev pub len : Events → ℕ
len events = length (keep (contains_key events) all)

-- The six orders in which a map with these keys can be iterated over.
pub data HashOrder : Type 0 where
  mgb mbg gmb gbm bmg bgm : HashOrder

abbrev pub in_order : HashOrder → List Source
in_order mgb = merchant ∷ gateway ∷ bank ∷ []
in_order mbg = merchant ∷ bank ∷ gateway ∷ []
in_order gmb = gateway ∷ merchant ∷ bank ∷ []
in_order gbm = gateway ∷ bank ∷ merchant ∷ []
in_order bmg = bank ∷ merchant ∷ gateway ∷ []
in_order bgm = bank ∷ gateway ∷ merchant ∷ []

-- `HashMap::keys`
abbrev pub keys : HashOrder → Events → List Source
keys order events = keep (contains_key events) (in_order order)

abbrev first_of_keys : Events → List Source → Option PaymentEvent
first_of_keys events [] = none
first_of_keys events (s ∷ rest) = events s

-- `events.values().next()`
abbrev pub first_value : HashOrder → Events → Option PaymentEvent
first_value order events = first_of_keys events (keys order events)

pub record PartialTransaction : Type 0 where
  pub transaction_id : Uuid
  pub events : Events
  pub first_seen_at_ms : ℤ
  pub deadline_ms : ℤ
  pub processing_time_micros : ℤ

-- `PartialTransaction::new`; `timeout_ms as i64` wraps.
unfoldable pub new : Uuid → ℤ → ℕ → PartialTransaction
new transaction_id first_seen_at_ms timeout_ms = record {
  transaction_id = transaction_id;
  events = no_events;
  first_seen_at_ms = first_seen_at_ms;
  deadline_ms = add_i64 first_seen_at_ms (wrap_i64 (pos timeout_ms));
  processing_time_micros = pos 0;
}

unfoldable pub is_complete : PartialTransaction → ℕ → Bool
is_complete p expected = leb expected (len p.events)

abbrev le_name : Source → Source → Bool
le_name s t = elim (compare (to_string s) (to_string t)) [ Ordering.gt ↦ false | _ ↦ true ]

abbrev insert_by_name : Source → List Source → List Source
insert_by_name s [] = s ∷ []
insert_by_name s (t ∷ rest) = if le_name s t then s ∷ t ∷ rest else t ∷ insert_by_name s rest

-- `v.sort_by_key(|s| s.to_string())`
abbrev sort_by_name : List Source → List Source
sort_by_name [] = []
sort_by_name (s ∷ rest) = insert_by_name s (sort_by_name rest)

unfoldable pub sources_seen : HashOrder → PartialTransaction → List Source
sources_seen order p = sort_by_name (keys order p.events)

unfoldable pub missing_sources : PartialTransaction → List Source
missing_sources p = keep (λ s. not (contains_key p.events s)) all

-- ===== src/Examples/TextCodec.antt =====
-- A text for every window, read back by a parser: a codec that keeps the laws of serde_json and uuid.
use mathlib.Core.Path.{fun_ext}
use mathlib.Core.Option
use Prim.Native.Char.{Char, code}
use Prim.Native.String.{[], ◌∷◌}
use code_storm.Prelude.{
  ℕ, zero, suc, ◌≡◌, refl, ap, Bool, Option, none, some, String, ◌==◌, if◌then◌else◌, and_then,
}
use code_storm.Prelude.Int.{ℤ, pos, negsuc}
use code_storm.Error.{ReconcilerError, Result, ok, err}
use code_storm.Model.Source.{Source, merchant, gateway, bank}
use code_storm.Model.Event.{PaymentEvent, StreamMessage}
use code_storm.Model.Partial.{Events, PartialTransaction}
use code_storm.Prelude.Decimal.{int_decimal}
use code_storm.Store.Stats.Numbers.Printed.{parse_i64-int_decimal}
use code_storm.Codec.{Codec, CodecLaws}

-- A value written in front of a text, and read off it.
pub record Coding (A : Type 0) : Type 0 where
  pub write : A → String → String
  pub read : String → Option (A × String)
  pub round : (a : A) (k : String) → read (write a k) ≡ some (a, k)

abbrev is_one : Char → Bool
is_one c = code c == 49

abbrev with_first : {A B : Type 0} → (A → B) → A × String → B × String
with_first f (a, k) = (f a, k)

abbrev write_nat : ℕ → String → String
write_nat zero k = "0" ∷ k
write_nat (suc n) k = "1" ∷ write_nat n k

abbrev read_nat : String → Option (ℕ × String)
read_nat [] = none
read_nat (c ∷ k) =
    let rest : Option (ℕ × String) = read_nat k in
    if is_one c then Option.map (with_first suc) rest else some (0, k)

pub read-write_nat : (n : ℕ) (k : String) → read_nat (write_nat n k) ≡ some (n, k)
read-write_nat zero k = refl
read-write_nat (suc n) k = ap (Option.map (with_first suc)) (read-write_nat n k)

abbrev nats : Coding ℕ
nats = record { write = write_nat; read = read_nat; round = read-write_nat }

abbrev write_text : String → String → String
write_text [] k = "0" ∷ k
write_text (c ∷ t) k = "1" ∷ (c ∷ write_text t k)

abbrev read_text : String → Option (String × String)
read_text [] = none
read_text (c ∷ []) = some ([], [])
read_text (c ∷ (d ∷ k)) =
    let rest : Option (String × String) = read_text k in
    if is_one c then Option.map (with_first (λ t. d ∷ t)) rest else some ([], d ∷ k)

pub read-write_text : (t k : String) → read_text (write_text t k) ≡ some (t, k)
read-write_text [] [] = refl
read-write_text [] (c ∷ k) = refl
read-write_text (c ∷ t) k = ap (Option.map (with_first (λ u. c ∷ u))) (read-write_text t k)

abbrev texts : Coding String
texts = record { write = write_text; read = read_text; round = read-write_text }

abbrev pairs : {A B : Type 0} → Coding A → Coding B → Coding (A × B)
pairs p q = record {
  write = λ (a, b) k. p.write a (q.write b k);
  read = λ t. and_then (p.read t) (λ (a, u). Option.map (with_first (λ b. (a, b))) (q.read u));
  round = λ (a, b) k. rw (p.round a (q.write b k), q.round b k) refl;
}

-- A type that is read and written as another one.
abbrev through :
    {A B : Type 0} (p : Coding A) (f : A → B) (g : B → A) → ((b : B) → f (g b) ≡ b) → Coding B
through p f g h = record {
  write = λ b. p.write (g b);
  read = λ t. Option.map (with_first f) (p.read t);
  round = λ b k. rw (p.round (g b) k) (ap (λ x. some (x, k)) (h b));
}

abbrev to_int : ℕ × ℕ → ℤ
to_int (zero, n) = pos n
to_int (suc s, n) = negsuc n

abbrev of_int : ℤ → ℕ × ℕ
of_int (pos n) = (0, n)
of_int (negsuc n) = (1, n)

abbrev ints : Coding ℤ
ints = through (pairs nats nats) to_int of_int elim [ pos n ↦ refl | negsuc n ↦ refl ]

abbrev write_option : {A : Type 0} → Coding A → Option A → String → String
write_option p none k = "0" ∷ k
write_option p (some a) k = "1" ∷ p.write a k

abbrev read_option : {A : Type 0} → Coding A → String → Option (Option A × String)
read_option p [] = none
read_option p (c ∷ k) =
    if is_one c then Option.map (with_first (λ a. some a)) (p.read k) else some (none, k)

pub read-write_option :
    {A : Type 0} (p : Coding A) (o : Option A) (k : String)
    → read_option p (write_option p o k) ≡ some (o, k)
read-write_option p none k = refl
read-write_option p (some a) k = ap (Option.map (with_first (λ x. some x))) (p.round a k)

abbrev options : {A : Type 0} → Coding A → Coding (Option A)
options p = record { write = write_option p; read = read_option p; round = read-write_option p }

abbrev to_source : ℕ → Source
to_source zero = merchant
to_source (suc zero) = gateway
to_source (suc (suc n)) = bank

abbrev of_source : Source → ℕ
of_source merchant = 0
of_source gateway = 1
of_source bank = 2

abbrev sources : Coding Source
sources = through nats to_source of_source elim [ merchant ↦ refl | gateway ↦ refl | bank ↦ refl ]

abbrev Columns : Type 0
Columns = (ℕ × (ℕ × Source)) × ((ℤ × (ℤ × ℤ)) × (String × (String × Option String)))

abbrev to_event : Columns → PaymentEvent
to_event ((event_id, (tx, source)), ((amount, (fee, ts)), (currency, (tx_type, merchant_id)))) =
    record {
      event_id = event_id;
      transaction_id = tx;
      source = source;
      amount_minor = amount;
      fee_minor = fee;
      currency = currency;
      timestamp_ms = ts;
      tx_type = tx_type;
      merchant_id = merchant_id;
    }

abbrev of_event : PaymentEvent → Columns
of_event e = (
  (e.event_id, (e.transaction_id, e.source)),
  ((e.amount_minor, (e.fee_minor, e.timestamp_ms)), (e.currency, (e.tx_type, e.merchant_id))),
)

abbrev columns : Coding Columns
columns =
    pairs (pairs nats (pairs nats sources))
      (pairs (pairs ints (pairs ints ints)) (pairs texts (pairs texts (options texts))))

abbrev events : Coding PaymentEvent
events = through columns to_event of_event (λ e. refl)

abbrev Slots : Type 0
Slots = Option PaymentEvent × (Option PaymentEvent × Option PaymentEvent)

abbrev to_events : Slots → Events
to_events (m, (g, b)) merchant = m
to_events (m, (g, b)) gateway = g
to_events (m, (g, b)) bank = b

abbrev of_events : Events → Slots
of_events f = (f merchant, (f gateway, f bank))

abbrev maps : Coding Events
maps =
    through (pairs (options events) (pairs (options events) (options events))) to_events of_events
      (λ f. fun_ext elim [ merchant ↦ refl | gateway ↦ refl | bank ↦ refl ])

abbrev Parts : Type 0
Parts = ℕ × (Events × (ℤ × (ℤ × ℤ)))

abbrev to_window : Parts → PartialTransaction
to_window (tx, (f, (first_seen, (deadline, time)))) = record {
  transaction_id = tx;
  events = f;
  first_seen_at_ms = first_seen;
  deadline_ms = deadline;
  processing_time_micros = time;
}

abbrev of_window : PartialTransaction → Parts
of_window p =
    (p.transaction_id, (p.events, (p.first_seen_at_ms, (p.deadline_ms, p.processing_time_micros))))

abbrev windows : Coding PartialTransaction
windows =
    through (pairs nats (pairs maps (pairs ints (pairs ints ints)))) to_window of_window (λ p. refl)

abbrev parsed : {A : Type 0} → Option (A × String) → Result A
parsed none = err (ReconcilerError.serde "")
parsed (some (a, k)) = ok a

-- A message is written as its event.
abbrev to_message : PaymentEvent → StreamMessage
to_message e = record {
  event = e;
  internal_event_id = 0;
  correlation_id = none;
  ingested_at_ms = pos 0;
}

abbrev read_message : Result PaymentEvent → Result StreamMessage
read_message (ok e) = ok (to_message e)
read_message (err x) = err x

abbrev pub message_text : PaymentEvent → String
message_text e = events.write e ""

abbrev pub window_text : PartialTransaction → String
window_text p = windows.write p ""

unfoldable pub codec : Codec
codec = record {
  window_to_json = λ p. ok (windows.write p "");
  window_from_json = λ t. parsed (windows.read t);
  message_from_json = λ t. read_message (parsed (events.read t));
  event_to_json = λ e. ok "event";
  i64_to_string = int_decimal;
  uuid_to_string = λ u. nats.write u "";
  parse_uuid = λ t. Option.map (λ x. x.0) (nats.read t);
}

pub codec_laws : CodecLaws codec
unfolding codec
codec_laws = record {
  window_round_trip = λ p. (windows.write p "", refl, ap parsed (windows.round p ""));
  event_encodes = λ e. ("event", refl);
  uuid_round_trip = λ u. ap (Option.map (λ x. x.0)) (nats.round u "");
  i64_round_trip = parse_i64-int_decimal;
}

-- The text of an event is read as its message.
pub read_message_text :
    (e : PaymentEvent) → codec.message_from_json (message_text e) ≡ ok (to_message e)
unfolding codec
read_message_text e = ap (λ o. read_message (parsed o)) (events.round e "")

-- The text of a window is read as the window.
pub read_window_text : (p : PartialTransaction) → codec.window_from_json (window_text p) ≡ ok p
unfolding codec
read_window_text p = ap parsed (windows.round p "")

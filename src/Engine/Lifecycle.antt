-- ===== src/Engine/Lifecycle.antt =====
-- The life of the transactions as the outside may think of it, without clocks, rows, texts and
-- channels: which events were taken, which sources have reported, which events wait for the others,
-- and what each transaction came to.
pub mod Verdict
pub mod Branches
pub mod Refined
pub mod Expired
pub mod Occasions
pub mod Redelivered
pub mod Sound
pub mod Ticks
pub mod Trio
pub mod Orders
use text.Mathlib.Text.{◌==◌ as str_eq}
use mathlib.Core.Option
use code_storm.Prelude.{
  ℕ, Uuid, String, Bool, not, ◌&&◌, ◌||◌, Option, none, some, ◌==◌, if◌then◌else◌, is_some, leb,
  unwrap_or, List, [], ◌∷◌, false,
}
use code_storm.Prelude.Int.{◌==ℤ◌, sub_i64}
use code_storm.Redis.View.{dedup_event, sources}
use code_storm.Model.Source
use code_storm.Model.Source.{Source, merchant, gateway, bank}
use code_storm.Model.Event.{PaymentEvent}
use code_storm.Model.Partial.{Events, no_events, insert, len}
use code_storm.Engine.Windows
use code_storm.Engine.Seen.{Seen}

pub record Life : Type 0 where
  pub claimed : Uuid → Bool
  pub registered : Uuid → Source → Bool
  pub pending : Uuid → Option Events
  pub status : Uuid → Option String

-- What is seen of the engine, as such a life.
abbrev pub life : Seen → Life
life σ = record {
  claimed = λ id. is_some (σ.view.strings (dedup_event id));
  registered = λ tx s. σ.view.sets (sources tx) (Source.to_string s);
  pending = λ tx. Option.map (λ w. w.events) (Windows.get tx σ.windows);
  status = λ tx. Option.map (λ row. row.overall_status) (σ.tables.transactions tx);
}

-- The three parties agree.
abbrev pub agree : PaymentEvent → PaymentEvent → PaymentEvent → Bool
agree m g b =
    str_eq m.currency g.currency
    && str_eq g.currency b.currency
    && g.amount_minor ==ℤ m.amount_minor
    && b.amount_minor ==ℤ sub_i64 g.amount_minor g.fee_minor

abbrev pub all_agree : Option PaymentEvent → Option PaymentEvent → Option PaymentEvent → Bool
all_agree (some m) (some g) (some b) = agree m g b
all_agree _ _ _ = false

-- What the events of a transaction come to.
abbrev pub settled : Events → String
settled events =
    if all_agree (events merchant) (events gateway) (events bank) then "matched" else "mismatch"

abbrev pub take : PaymentEvent → Life → Life
take e l = record l {
  claimed = λ id. e.event_id == id || l.claimed id;
  registered = λ tx s. (e.transaction_id == tx && Source.◌==◌ e.source s) || l.registered tx s;
}

abbrev pub mark : Uuid → String → Life → Life
mark tx status l = record l { status = λ k. if tx == k then some status else l.status k }

abbrev pub wait : Uuid → Events → Life → Life
wait tx events l = record l { pending = λ k. if tx == k then some events else l.pending k }

-- A transaction is done with: only its status stays.
abbrev pub conclude : Uuid → String → Life → Life
conclude tx status l = record {
  claimed = l.claimed;
  registered = λ k s. not (tx == k) && l.registered k s;
  pending = λ k. if tx == k then none else l.pending k;
  status = λ k. if tx == k then some status else l.status k;
}

abbrev pub join : ℕ → Uuid → Events → Life → Life
join expected tx events l =
    if leb expected (len events) then conclude tx (settled events) l else wait tx events l

-- An event arrives: it is passed over if it was taken before; it is a duplicate if its source has
-- reported; otherwise it joins the events that wait, and may complete them.
abbrev pub arrive : ℕ → PaymentEvent → Life → Life
arrive expected e l =
    if l.claimed e.event_id
    then l
    else if l.registered e.transaction_id e.source
    then mark e.transaction_id "pending" (take e l)
    else join expected e.transaction_id
        (insert e.source e (unwrap_or (l.pending e.transaction_id) no_events)) (take e l)

abbrev pub give_up : ℕ → Uuid → Option Events → Life → Life
give_up expected tx none l = l
give_up expected tx (some events) l =
    conclude tx (if leb expected (len events) then settled events else "degraded") l

-- The deadline of a transaction comes.
abbrev pub expire : ℕ → Uuid → Life → Life
expire expected tx l = give_up expected tx (l.pending tx) l

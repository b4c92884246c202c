-- ===== src/Engine/Handling/Fits.antt =====
-- The windows that can be stored: each stands under its own transaction, and the texts of its
-- events fit the columns of the tables.
use mathlib.Core.Option
use Prim.Native.String.{count}
use code_storm.Prelude.{
  refl, Bool-cases, Option, leb, unwrap_or, or_else, and_then, ◌&&◌, Uuid, ◌≡◌, some, true, arith,
  inl, inr, Option-cases,
}
use code_storm.Prelude.Int.{pos, ℤ}
use code_storm.Config.{Config}
use code_storm.Services.{Services, ServiceLaws}
use code_storm.Postgres.{fits}
use code_storm.Model.Source.{Source, merchant}
use code_storm.Model.Event.{PaymentEvent}
use code_storm.Model.Partial.Sources.{first_value_source}
use code_storm.Model.Partial.{insert, new, first_value, PartialTransaction, Events}
use code_storm.Engine.Seen.{Seen}
use code_storm.Engine.Handling.Duplicate.{pending_row}
use code_storm.Engine.Handling.Opening.{found_at}
use code_storm.Engine.Windows.{Windows}
use code_storm.Engine.Finalize.Closing.{closing_row}
use code_storm.Model.Source
use code_storm.Engine.Windows

module _ {sv : Services} {F : Type 0} (laws : ServiceLaws F sv) (cfg : Config) where
  -- The texts of every event fit the columns of the table of transactions.
  abbrev pub AllFit : Events → Type 0
  AllFit events =
      (s : Source) (e : PaymentEvent) → events s ≡ some e → fits (pending_row laws cfg e) ≡ true

  -- Every window stands under its own transaction, and can be stored.
  abbrev pub IsWell : Windows → Type 0
  IsWell windows =
      (k : Uuid) (w : PartialTransaction)
      → Windows.get k windows ≡ some w
      → (w.transaction_id ≡ k) × AllFit w.events

  -- A row with the texts of an event fits where the event's own does; so does the default one.
  texts_fit :
      (p : PartialTransaction) (first : Option PaymentEvent)
      → AllFit p.events
      → ((e : PaymentEvent) → first ≡ some e → (s : Source) × (p.events s ≡ some e))
      → leb
            (count (
              unwrap_or
                (or_else
                  (Option.map (λ e. e.currency) (p.events merchant))
                  (Option.map (λ e. e.currency) first))
                "UZS"))
            3
          && leb
              (count (
                unwrap_or
                  (or_else
                    (Option.map (λ e. e.tx_type) (p.events merchant))
                    (Option.map (λ e. e.tx_type) first))
                  "card"))
              20
          && leb
              (unwrap_or (Option.map count (and_then (p.events merchant) (λ e. e.merchant_id))) 0)
              100
        ≡ true
  texts_fit p first h from = elim (Option-cases (p.events merchant)) [
    | inr (m, em) ↦ rw em (h merchant m em)
    | inl em ↦ elim (Option-cases first) [
      | inl ef ↦ rw (em, ef) refl
      | inr (e, ef) ↦
          let (s, es) = from e ef in let fit = h s e es in rw (em, ef) (ground (arith, fit))
    ]
  ]

  pub closing_fits :
      (p : PartialTransaction) → AllFit p.events → fits (closing_row laws cfg p (pos 0)) ≡ true
  closing_fits p h =
      texts_fit p (first_value (sv.host.hash_order p.events) p.events) h
        (first_value_source (sv.host.hash_order p.events) p.events)

  pub found-IsWell :
      (event : PaymentEvent) (now_ms : ℤ) (σ : Seen)
      → IsWell σ.windows
      → ((found_at laws cfg event now_ms σ).transaction_id ≡ event.transaction_id)
        × AllFit (found_at laws cfg event now_ms σ).events
  unfolding new
  found-IsWell event now_ms σ well =
      elim (Option-cases (Windows.get event.transaction_id σ.windows)) [
        | inl e ↦ rw e (refl, λ s x h. cc)
        | inr (w, e) ↦ rw e (well event.transaction_id w e)
      ]

  pub with_event-AllFit :
      (event : PaymentEvent) (events : Events)
      → AllFit events
      → fits (pending_row laws cfg event) ≡ true
      → AllFit (insert event.source event events)
  with_event-AllFit event events h ok_event s e there =
      elim (Bool-cases (Source.◌==◌ event.source s)) [
        | inl same ↦ ground arith
        | inr other ↦ h s e (ground arith)
      ]

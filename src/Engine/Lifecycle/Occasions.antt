-- ===== src/Engine/Lifecycle/Occasions.antt =====
-- Events and timeouts in sequence, as the abstract life has them (matcher/src/matcher.rs).
use code_storm.Prelude.{ℕ, Uuid, true, ◌≡◌, refl, ap, ◌∙◌, List, [], ◌∷◌, All}
use code_storm.Config.{Config}
use code_storm.Services.{Services, ServiceLaws}
use code_storm.Exec.{Exec, for_each}
use code_storm.Exec.Wp.{Wp, wp-bind, wp-pure, wp-weaken, wp-both}
use code_storm.Postgres.{fits}
use code_storm.Model.Event.{StreamMessage}
use code_storm.Engine.Windows.{get-remove}
use code_storm.Engine.Parts.{State}
use code_storm.Engine.Seen.{Seen, see}
use code_storm.Engine.{handle_event}
use code_storm.Engine.Timers.{handle_timeout}
use code_storm.Engine.Timers.Timeout.{handle_timeout-TimedOut}
use code_storm.Engine.Timers.Tick.{TimedOut-windows, IsWell-without}
use code_storm.Engine.Handling.Duplicate.{pending_row}
use code_storm.Engine.Handling.Kept.{handle_event-IsWell}
use code_storm.Engine.Handling.Fits.{IsWell}
use code_storm.Engine.Apart.{Apart}
use code_storm.Engine.Apart.Whole.{handle_timeout-IsApart}
use code_storm.Engine.Lifecycle.{Life, life, arrive, expire}
use code_storm.Engine.Lifecycle.Refined.{handle_event-arrives}
use code_storm.Engine.Windows
use code_storm.Engine.Lifecycle.Expired.{handle_timeout-expires}
use code_storm.Engine.Apart.{Scope, Apart}
use code_storm.Engine.Apart.Whole.{
  IsOwn, of_event, of_timeout, handle_event-IsApart, handle_timeout-IsApart,
}

-- What there is to do for a transaction.
pub data Occasion : Type 0 where
  arrival : StreamMessage → Occasion
  deadline : Uuid → Occasion

-- The same in the abstract life.
abbrev pub lived : ℕ → List Occasion → Life → Life
lived expected [] l = l
lived expected (arrival msg ∷ rest) l = lived expected rest (arrive expected msg.event l)
lived expected (deadline tx ∷ rest) l = lived expected rest (expire expected tx l)

-- The transaction of an occasion, and what it may change beside it.
abbrev pub tx_of : Occasion → Uuid
tx_of (arrival msg) = msg.event.transaction_id
tx_of (deadline tx) = tx

abbrev pub scope_of : Occasion → Scope
scope_of (arrival msg) = of_event msg.event
scope_of (deadline tx) = of_timeout

module _ (sv : Services) (cfg : Config) where
  abbrev pub perform : Occasion → Exec (State sv) (Unit {0})
  perform (arrival msg) = handle_event sv cfg msg
  perform (deadline tx) = handle_timeout sv cfg tx

module _ {sv : Services} {F : Type 0} (laws : ServiceLaws F sv) (cfg : Config) where
  -- The texts of an event fit the columns of the transactions.
  abbrev pub IsPossible : Occasion → Type 0
  IsPossible (arrival msg) = fits (pending_row laws cfg msg.event) ≡ true
  IsPossible (deadline tx) = Unit

  -- Where the texts of every event in a list of arrivals and deadlines fit the columns of the
  -- transactions and every window in memory stands under its own transaction with events that fit,
  -- handling the list with `handle_event` and `handle_timeout`, while no key of Redis expires,
  -- unless a service fails, ends in a state that is seen as the abstract life after the same
  -- arrivals and deadlines: which event ids were taken, which sources of which transactions have
  -- reported, which events wait, and which status each transaction has.
  pub occasions-lived :
      (occasions : List Occasion) (σ : Seen)
      → All IsPossible occasions
      → IsWell laws cfg σ.windows
      → Wp
          (see sv)
          σ
          (for_each (perform sv cfg) occasions)
          (λ _ τ. life τ ≡ lived cfg.expected_sources_count occasions (life σ))
          (λ _. F)
  unfolding for_each
  occasions-lived [] σ h well = wp-pure tt refl
  occasions-lived (arrival msg ∷ rest) σ (fit, h) well = wp-bind _ _ (
      wp-weaken
        (wp-both (handle_event-arrives laws cfg msg σ fit well)
          (handle_event-IsWell laws cfg msg σ fit well))
        (λ _ ρ (e, still).
          wp-weaken (occasions-lived rest ρ h still)
            (λ _ τ e'. e' ∙ ap (lived cfg.expected_sources_count rest) e) (λ _ f. f))
        (λ _ (f, _). f))
  occasions-lived (deadline tx ∷ rest) σ (_, h) well = wp-bind _ _ (
      wp-weaken
        (wp-both (handle_timeout-expires laws cfg tx σ well)
          (handle_timeout-TimedOut laws cfg tx σ well))
        (λ _ ρ (e, t).
          let without =
            TimedOut-windows laws cfg tx (Windows.get tx σ.windows) σ ρ (λ p e. (well tx p e).0)
              t in
          wp-weaken
            (occasions-lived rest ρ h (IsWell-without laws cfg tx σ.windows ρ.windows without well))
            (λ _ τ e'. e' ∙ ap (lived cfg.expected_sources_count rest) e) (λ _ f. f))
        (λ _ (f, _). f))

  -- Where the window in memory of the transaction of an event or a timeout, if there is one, is
  -- its own, `handle_event` and `handle_timeout`, whether they end well or in an error, leave
  -- every other transaction alone: its window in memory and in Redis, its registered sources, its
  -- deadline, its row and its details; and they leave every claim alone but that of the event, and
  -- the acknowledged entries.
  pub occasion-IsApart :
      (o : Occasion) (σ : Seen)
      → IsOwn (tx_of o) σ.windows
      → Wp
          (see sv)
          σ
          (perform sv cfg o)
          (λ _ τ. Apart sv.codec (scope_of o) (tx_of o) σ τ)
          (λ τ. Apart sv.codec (scope_of o) (tx_of o) σ τ)
  occasion-IsApart (arrival msg) σ own = handle_event-IsApart laws cfg msg σ own
  occasion-IsApart (deadline tx) σ own = handle_timeout-IsApart laws cfg tx σ own

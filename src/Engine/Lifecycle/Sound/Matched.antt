-- ===== src/Engine/Lifecycle/Sound/Matched.antt =====
-- What the abstract life matches has come and agrees (matcher/src/matcher.rs).
use mathlib.Core.Option.{some-injective}
use code_storm.Prelude.{
  ℕ, Uuid, Bool, true, false, ◌==◌, ◌≡◌, ◌⊎◌, refl, sym, ◌∙◌, inl, inr, Bool-cases, Option, none,
  some, if◌then◌else◌, subst, leb, arith, List, [], ◌∷◌, All, unwrap_or,
}
use code_storm.Config.{Config}
use code_storm.Services.{Services, ServiceLaws}
use code_storm.Exec.{for_each}
use code_storm.Exec.Wp.{Wp, wp-weaken}
use code_storm.Model.Source
use code_storm.Model.Source.{Source}
use code_storm.Model.Event.{PaymentEvent}
use code_storm.Model.Partial.{Events, no_events, insert, len}
use code_storm.Engine.Seen.{Seen, see}
use code_storm.Engine.Handling.Fits.{IsWell}
use code_storm.Engine.Lifecycle.{Life, life, settled, take, arrive, expire, give_up}
use code_storm.Engine.Lifecycle.Occasions.{
  Occasion, arrival, deadline, lived, perform, IsPossible, occasions-lived,
}
use code_storm.Engine.Lifecycle.Sound.{
  Came, is_matched, none-some, if_true, if_false, IsFrom, Agreed, AreFrom, IsSound, settled_sound,
  conclude-IsSound, join-IsSound,
}

module _ (P : PaymentEvent → Type 0) (tx : Uuid) where
  -- An event that has come joins the ones that wait.
  inserted-AreFrom :
      (e : PaymentEvent) (l : Life)
      → P e
      → IsSound P tx l
      → (e.transaction_id == tx) ≡ true
      → AreFrom P tx (insert e.source e (unwrap_or (l.pending e.transaction_id) no_events))
  inserted-AreFrom e l came h same s x there =
      let own : e.transaction_id ≡ tx = ground arith in
      elim (Bool-cases (Source.◌==◌ e.source s)) [
        | inl mine ↦
            let it = some-injective e x (
              if_true (Source.◌==◌ e.source s) (some e)
                (unwrap_or (l.pending e.transaction_id) no_events s) (some x) mine there) in
            subst (IsFrom P tx s) it
              (record { came = came; of_tx = own; of_source = same_source e.source s mine })
        | inr other ↦ old (l.pending tx) refl (
            subst (λ k. unwrap_or (l.pending k) no_events s ≡ some x) own
              (if_false (Source.◌==◌ e.source s) (some e)
                (unwrap_or (l.pending e.transaction_id) no_events s) (some x) other there))
      ]
    where
      same_source : (a b : Source) → Source.◌==◌ a b ≡ true → a ≡ b
      same_source a b q = ground arith

      old :
          (o : Option Events)
          → l.pending tx ≡ o
          → unwrap_or o no_events s ≡ some x
          → IsFrom P tx s x
      old none q r = cc
      old (some events) q r = h.waiting events q s x r

  take-IsSound : (e : PaymentEvent) (l : Life) → IsSound P tx l → IsSound P tx (take e l)
  take-IsSound e l h = record { waiting = h.waiting; matched = h.matched }

  arrive-IsSound :
      (expected : ℕ) (e : PaymentEvent) (l : Life)
      → P e
      → IsSound P tx l
      → IsSound P tx (arrive expected e l)
  arrive-IsSound expected e l came h = elim (Bool-cases (l.claimed e.event_id)) [
    | inl held ↦ rw held h
    | inr fresh ↦ rw fresh (elim (Bool-cases (l.registered e.transaction_id e.source)) [
      | inl second ↦ rw second (elim (Bool-cases (e.transaction_id == tx)) [
        | inl same ↦ record { waiting = h.waiting; matched = inl (rw same refl) }
        | inr other ↦ record { waiting = h.waiting; matched = rw other h.matched }
      ])
      | inr first ↦ rw first (
          join-IsSound P tx expected e.transaction_id
            (insert e.source e (unwrap_or (l.pending e.transaction_id) no_events)) (take e l)
            (λ same. inserted-AreFrom e l came h same) (take-IsSound e l h))
    ])
  ]

  give_up-IsSound :
      (expected : ℕ) (k : Uuid) (o : Option Events) (l : Life)
      → l.pending k ≡ o
      → IsSound P tx l
      → IsSound P tx (give_up expected k o l)
  give_up-IsSound expected k none l e h = h
  give_up-IsSound expected k (some events) l e h =
      conclude-IsSound P tx k (if leb expected (len events) then settled events else "degraded") l
        (λ same. ended same (leb expected (len events))) h
    where
      ended :
          (k == tx) ≡ true
          → (full : Bool)
          → (is_matched (some (if full then settled events else "degraded")) ≡ false) ⊎ Agreed P tx
      ended same true =
          let own : k ≡ tx = ground arith in
          settled_sound P tx events
            (h.waiting events (subst (λ j. l.pending j ≡ some events) own e))
      ended same false = inl refl

  lived-IsSound :
      (expected : ℕ) (occasions : List Occasion) (l : Life)
      → ((e : PaymentEvent) → Came e occasions → P e)
      → IsSound P tx l
      → IsSound P tx (lived expected occasions l)
  lived-IsSound expected [] l came h = h
  lived-IsSound expected (arrival msg ∷ rest) l came h =
      lived-IsSound expected rest (arrive expected msg.event l) (λ e c. came e (inr c))
        (arrive-IsSound expected msg.event l (came msg.event (inl refl)) h)
  lived-IsSound expected (deadline k ∷ rest) l came h =
      lived-IsSound expected rest (expire expected k l) came
        (give_up-IsSound expected k (l.pending k) l refl h)

module _ {sv : Services} {F : Type 0} (laws : ServiceLaws F sv) (cfg : Config) where
  -- Where the texts of every event in a list of arrivals and deadlines fit the columns of the
  -- transactions, every window in memory stands under its own transaction with events that fit,
  -- and a transaction has no window in memory and not the status matched, then after handling the
  -- list, while no key of Redis expires, unless a service fails, the transaction has not the
  -- status matched, or three events of the list, of the merchant, the gateway and the bank of this
  -- transaction, have one currency, the gateway and the merchant one amount, and the bank that of
  -- the gateway less its fee, as the machine subtracts.
  pub matched-Agreed :
      (occasions : List Occasion) (tx : Uuid) (σ : Seen)
      → All (IsPossible laws cfg) occasions
      → IsWell laws cfg σ.windows
      → (life σ).pending tx ≡ none
      → is_matched ((life σ).status tx) ≡ false
      → Wp
          (see sv)
          σ
          (for_each (perform sv cfg) occasions)
          (λ _ τ. (is_matched ((life τ).status tx) ≡ false) ⊎ Agreed (λ e. Came e occasions) tx)
          (λ _. F)
  matched-Agreed occasions tx σ possible well nothing unmatched =
      let start : IsSound (λ e. Came e occasions) tx (life σ) = record {
        waiting = λ events e. absurd (none-some events (sym nothing ∙ e));
        matched = inl unmatched;
      } in
      wp-weaken (occasions-lived laws cfg occasions σ possible well)
        (λ _ τ e.
          subst (λ l. (is_matched (l.status tx) ≡ false) ⊎ Agreed (λ e. Came e occasions) tx)
            (sym e)
            (lived-IsSound (λ e. Came e occasions) tx cfg.expected_sources_count occasions (life σ)
              (λ e c. c) start).matched)
        (λ _ f. f)

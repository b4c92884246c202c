-- ===== src/Engine/Lifecycle/Trio.antt =====
-- The three events of one transaction in the abstract life.
use mathlib.Core.Path.{fun_ext}
use code_storm.Prelude.{
  ℕ, Uuid, true, false, none, some, ◌==◌, ◌≡◌, refl, ap, ◌∙◌, arith, map, unwrap_or,
}
use code_storm.Model.Source
use code_storm.Model.Source.{Source, merchant, gateway, bank}
use code_storm.Model.Event.{PaymentEvent, StreamMessage}
use code_storm.Model.Partial.{
  Events, no_events, insert, len, HashOrder, in_order, mgb, mbg, gmb, gbm, bmg, bgm,
}
use code_storm.Engine.Lifecycle.{Life, settled, take, wait, conclude, join, arrive}
use code_storm.Engine.Lifecycle.Occasions.{arrival, lived}

-- One event of each source for one transaction, under different ids, of which nothing came before.
pub record IsNew (tx : Uuid) (events : Source → PaymentEvent) (l : Life) : Type 0 where
  pub same_tx : (s : Source) → (events s).transaction_id ≡ tx
  pub own_source : (s : Source) → (events s).source ≡ s
  pub distinct :
      (s t : Source)
      → Source.◌==◌ s t ≡ false
      → ((events s).event_id == (events t).event_id) ≡ false
  pub unclaimed : (s : Source) → l.claimed (events s).event_id ≡ false
  pub unregistered : (s : Source) → l.registered tx s ≡ false
  pub nothing : l.pending tx ≡ none

-- What three events have come to.
abbrev pub IsSettled : Uuid → (Source → PaymentEvent) → Life → Type 0
IsSettled tx events l =
    (l.status tx ≡ some (settled (λ s. some (events s)))) × (l.pending tx ≡ none)

arrive-joins :
    (expected : ℕ) (tx : Uuid) (s : Source) (e : PaymentEvent) (f : Events) (l : Life)
    → e.transaction_id ≡ tx
    → e.source ≡ s
    → l.claimed e.event_id ≡ false
    → l.registered tx s ≡ false
    → unwrap_or (l.pending tx) no_events ≡ f
    → arrive expected e l ≡ join expected tx (insert s e f) (take e l)
arrive-joins expected tx s e f l at_tx of_source fresh first found =
    rw (at_tx, of_source, fresh, first, found) refl

same_tx_is : (tx : Uuid) → (tx == tx) ≡ true
same_tx_is tx = ground arith

-- The sources in an order.
module _ (tx : Uuid) (events : Source → PaymentEvent) (a b c : Source) where
  abbrev one : Events
  one = insert a (events a) no_events

  abbrev two : Events
  two = insert b (events b) one

  abbrev three : Events
  three = insert c (events c) two

  -- The lives after one and after two of the events.
  abbrev first_life : Life → Life
  first_life l = wait tx one (take (events a) l)

  abbrev second_life : Life → Life
  second_life l = wait tx two (take (events b) (first_life l))

  record IsOrder : Type 0 where
    ab : Source.◌==◌ a b ≡ false
    ac : Source.◌==◌ a c ≡ false
    bc : Source.◌==◌ b c ≡ false
    one_len : len one ≡ 1
    two_len : len two ≡ 2
    three_len : len three ≡ 3
    all : (s : Source) → three s ≡ some (events s)

  module _ (l : Life) (new : IsNew tx events l) (o : IsOrder) where
    first_arrives : arrive 3 (events a) l ≡ first_life l
    first_arrives =
        arrive-joins 3 tx a (events a) no_events l (new.same_tx a) (new.own_source a)
          (new.unclaimed a) (new.unregistered a) (rw new.nothing refl)
        ∙ rw o.one_len refl

    second_arrives : arrive 3 (events b) (first_life l) ≡ second_life l
    second_arrives =
        arrive-joins 3 tx b (events b) one (first_life l) (new.same_tx b) (new.own_source b)
          (rw (new.distinct a b o.ab) (new.unclaimed b))
          (rw (new.same_tx a, new.own_source a, o.ab, same_tx_is tx) (new.unregistered b))
          (rw (same_tx_is tx) refl)
        ∙ rw o.two_len refl

    third_arrives :
        arrive 3 (events c) (second_life l)
        ≡ conclude tx (settled three) (take (events c) (second_life l))
    third_arrives =
        arrive-joins 3 tx c (events c) two (second_life l) (new.same_tx c) (new.own_source c)
          (rw (new.distinct b c o.bc, new.distinct a c o.ac) (new.unclaimed c))
          (rw
            (
              new.same_tx b,
              new.own_source b,
              new.same_tx a,
              new.own_source a,
              o.bc,
              o.ac,
              same_tx_is tx,
            )
            (new.unregistered c))
          (rw (same_tx_is tx) refl)
        ∙ rw o.three_len refl

    third-IsSettled :
        IsSettled tx events (arrive 3 (events c) (arrive 3 (events b) (arrive 3 (events a) l)))
    third-IsSettled =
        rw (first_arrives, second_arrives, third_arrives, same_tx_is tx)
          (ap (λ f. some (settled f)) (fun_ext o.all), refl)

-- Each order of the three sources ends in the same.
pub orders-IsSettled :
    (order : HashOrder) (messages : Source → StreamMessage) (tx : Uuid) (l : Life)
    → IsNew tx (λ s. (messages s).event) l
    → IsSettled tx
        (λ s. (messages s).event)
        (lived 3 (map (λ s. arrival (messages s)) (in_order order)) l)
orders-IsSettled mgb messages tx l new =
    third-IsSettled tx (λ s. (messages s).event) merchant gateway bank l new
      (record {
        ab = refl;
        ac = refl;
        bc = refl;
        one_len = refl;
        two_len = refl;
        three_len = refl;
        all = elim [ merchant ↦ refl | gateway ↦ refl | bank ↦ refl ];
      })
orders-IsSettled mbg messages tx l new =
    third-IsSettled tx (λ s. (messages s).event) merchant bank gateway l new
      (record {
        ab = refl;
        ac = refl;
        bc = refl;
        one_len = refl;
        two_len = refl;
        three_len = refl;
        all = elim [ merchant ↦ refl | gateway ↦ refl | bank ↦ refl ];
      })
orders-IsSettled gmb messages tx l new =
    third-IsSettled tx (λ s. (messages s).event) gateway merchant bank l new
      (record {
        ab = refl;
        ac = refl;
        bc = refl;
        one_len = refl;
        two_len = refl;
        three_len = refl;
        all = elim [ merchant ↦ refl | gateway ↦ refl | bank ↦ refl ];
      })
orders-IsSettled gbm messages tx l new =
    third-IsSettled tx (λ s. (messages s).event) gateway bank merchant l new
      (record {
        ab = refl;
        ac = refl;
        bc = refl;
        one_len = refl;
        two_len = refl;
        three_len = refl;
        all = elim [ merchant ↦ refl | gateway ↦ refl | bank ↦ refl ];
      })
orders-IsSettled bmg messages tx l new =
    third-IsSettled tx (λ s. (messages s).event) bank merchant gateway l new
      (record {
        ab = refl;
        ac = refl;
        bc = refl;
        one_len = refl;
        two_len = refl;
        three_len = refl;
        all = elim [ merchant ↦ refl | gateway ↦ refl | bank ↦ refl ];
      })
orders-IsSettled bgm messages tx l new =
    third-IsSettled tx (λ s. (messages s).event) bank gateway merchant l new
      (record {
        ab = refl;
        ac = refl;
        bc = refl;
        one_len = refl;
        two_len = refl;
        three_len = refl;
        all = elim [ merchant ↦ refl | gateway ↦ refl | bank ↦ refl ];
      })

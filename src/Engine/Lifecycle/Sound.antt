-- ===== src/Engine/Lifecycle/Sound.antt =====
-- No transaction is matched unless its three events have come and agree (matcher/src/matcher.rs).
pub mod Matched
use mathlib.Core.Bool.{false≢true}
use mathlib.Core.Option.{some-injective}
use text.Mathlib.Text.{◌==◌ as str_eq}
use code_storm.Prelude.{
  ℕ, Uuid, String, Bool, true, false, ◌==◌, ◌≡◌, ◌⊎◌, refl, sym, ◌∙◌, inl, inr, Bool-cases, Option,
  Option-cases, none, some, if◌then◌else◌, subst, leb, arith, List, [], ◌∷◌, All, unwrap_or,
}
use code_storm.Model.Source
use code_storm.Model.Source.{Source, merchant, gateway, bank}
use code_storm.Model.Event.{PaymentEvent}
use code_storm.Model.Partial.{Events, no_events, insert, len}
use code_storm.Engine.Lifecycle.{
  Life, life, agree, all_agree, settled, take, conclude, join, arrive, expire, give_up,
}
use code_storm.Engine.Lifecycle.Occasions.{
  Occasion, arrival, deadline, lived, perform, IsPossible, occasions-lived,
}

-- The event is among the arrivals.
abbrev pub Came : PaymentEvent → List Occasion → Type 0
Came e [] = ⊥
Came e (arrival msg ∷ rest) = (msg.event ≡ e) ⊎ Came e rest
Came e (deadline tx ∷ rest) = Came e rest

abbrev pub is_matched : Option String → Bool
is_matched none = false
is_matched (some status) = str_eq status "matched"

pub none-some : (events : Events) → none ≡ some events → ⊥
none-some events h = cc

pub if_true : {A : Type 0} (b : Bool) (x y z : A) → b ≡ true → (if b then x else y) ≡ z → x ≡ z
if_true true x y z h e = e
if_true false x y z h e = absurd (false≢true h)

pub if_false : {A : Type 0} (b : Bool) (x y z : A) → b ≡ false → (if b then x else y) ≡ z → y ≡ z
if_false false x y z h e = e
if_false true x y z h e = absurd (false≢true (sym h))

module _ (P : PaymentEvent → Type 0) (tx : Uuid) where
  -- An event of a source of the transaction that has come.
  pub record IsFrom (s : Source) (e : PaymentEvent) : Type 0 where
    pub came : P e
    pub of_tx : e.transaction_id ≡ tx
    pub of_source : e.source ≡ s

  -- Three such events that agree.
  pub record Agreed : Type 0 where
    pub m : PaymentEvent
    pub g : PaymentEvent
    pub b : PaymentEvent
    pub from_merchant : IsFrom merchant m
    pub from_gateway : IsFrom gateway g
    pub from_bank : IsFrom bank b
    pub agreed : agree m g b ≡ true

  abbrev pub AreFrom : Events → Type 0
  AreFrom events = (s : Source) (e : PaymentEvent) → events s ≡ some e → IsFrom s e

  -- What waits has come, and a match is one.
  pub record IsSound (l : Life) : Type 0 where
    pub waiting : (events : Events) → l.pending tx ≡ some events → AreFrom events
    pub matched : (is_matched (l.status tx) ≡ false) ⊎ Agreed

  agreed_three :
      (events : Events)
      → AreFrom events
      → all_agree (events merchant) (events gateway) (events bank) ≡ true
      → Agreed
  agreed_three events from h = elim (Option-cases (events merchant)) [
    | inl e ↦ absurd (cc)
    | inr (m, e) ↦ elim (Option-cases (events gateway)) [
      | inl f ↦ absurd (cc)
      | inr (g, f) ↦ elim (Option-cases (events bank)) [
        | inl k ↦ absurd (cc)
        | inr (b, k) ↦ record {
          m = m;
          g = g;
          b = b;
          from_merchant = from merchant m e;
          from_gateway = from gateway g f;
          from_bank = from bank b k;
          agreed = cc;
        }
      ]
    ]
  ]

  pub settled_sound :
      (events : Events) → AreFrom events → (is_matched (some (settled events)) ≡ false) ⊎ Agreed
  settled_sound events from =
      elim (Bool-cases (all_agree (events merchant) (events gateway) (events bank))) [
        | inl h ↦ inr (agreed_three events from h)
        | inr h ↦ inl (rw h refl)
      ]

  pub conclude-IsSound :
      (k : Uuid) (status : String) (l : Life)
      → ((k == tx) ≡ true → (is_matched (some status) ≡ false) ⊎ Agreed)
      → IsSound l
      → IsSound (conclude k status l)
  conclude-IsSound k status l told h = elim (Bool-cases (k == tx)) [
    | inl same ↦ record {
      waiting = λ events e.
          absurd (none-some events (if_true (k == tx) none (l.pending tx) (some events) same e));
      matched = rw same (told same);
    }
    | inr other ↦ record {
      waiting = λ events e.
          h.waiting events (if_false (k == tx) none (l.pending tx) (some events) other e);
      matched = rw other h.matched;
    }
  ]

  pub join-IsSound :
      (expected : ℕ) (k : Uuid) (events : Events) (l : Life)
      → ((k == tx) ≡ true → AreFrom events)
      → IsSound l
      → IsSound (join expected k events l)
  join-IsSound expected k events l from h = elim (Bool-cases (leb expected (len events))) [
    | inl full ↦
        rw full (conclude-IsSound k (settled events) l (λ same. settled_sound events (from same)) h)
    | inr partial ↦ rw partial (elim (Bool-cases (k == tx)) [
      | inl same ↦ record {
        waiting = λ others e.
            subst AreFrom
              (some-injective events others
                (if_true (k == tx) (some events) (l.pending tx) (some others) same e))
              (from same);
        matched = h.matched;
      }
      | inr other ↦ record {
        waiting = λ others e.
            h.waiting others
              (if_false (k == tx) (some events) (l.pending tx) (some others) other e);
        matched = h.matched;
      }
    ])
  ]

-- ===== src/Engine/Lifecycle/Redelivered.antt =====
-- Messages that the stream delivers again change nothing (matcher/src/matcher.rs).
use code_storm.Prelude.{
  ℕ, Uuid, true, ◌||◌, ◌==◌, ◌≡◌, refl, sym, ap, ◌∙◌, inl, inr, Bool-cases, Option, none, some,
  if◌then◌else◌, leb, arith, List, [], ◌∷◌, All, All-weaken, any, unwrap_or,
}
use code_storm.Config.{Config}
use code_storm.Services.{Services, ServiceLaws}
use code_storm.Exec.{for_each}
use code_storm.Exec.Wp.{Wp, wp-weaken}
use code_storm.Model.Event.{PaymentEvent}
use code_storm.Model.Partial.{Events, no_events, insert, len}
use code_storm.Engine.Seen.{Seen, see}
use code_storm.Engine.Handling.Fits.{IsWell}
use code_storm.Engine.Lifecycle.{Life, life, take, join, arrive, expire, give_up}
use code_storm.Engine.Lifecycle.Occasions.{
  Occasion, arrival, deadline, lived, perform, IsPossible, occasions-lived,
}

-- The occasions without the arrivals under an id that came before.
abbrev pub once : List Uuid → List Occasion → List Occasion
once seen [] = []
once seen (deadline tx ∷ rest) = deadline tx ∷ once seen rest
once seen (arrival msg ∷ rest) =
    let later = once (msg.event.event_id ∷ seen) rest in
    if any (λ id. id == msg.event.event_id) seen then later else arrival msg ∷ later

join-claimed :
    (expected : ℕ) (tx : Uuid) (events : Events) (l : Life) (id : Uuid)
    → (join expected tx events l).claimed id ≡ l.claimed id
join-claimed expected tx events l id = elim (Bool-cases (leb expected (len events))) [
  | inl full ↦ rw full refl
  | inr partial ↦ rw partial refl
]

taken_before :
    (e : PaymentEvent) (l : Life) (id : Uuid)
    → l.claimed e.event_id ≡ true
    → l.claimed id ≡ (e.event_id == id || l.claimed id)
taken_before e l id held = elim (Bool-cases (e.event_id == id)) [
  | inl same ↦ let it : e.event_id ≡ id = ground arith in rw same (ap l.claimed (sym it) ∙ held)
  | inr other ↦ rw other refl
]

-- An event that arrives is taken, and what was taken stays so.
arrive-claimed :
    (expected : ℕ) (e : PaymentEvent) (l : Life) (id : Uuid)
    → (arrive expected e l).claimed id ≡ (e.event_id == id || l.claimed id)
arrive-claimed expected e l id = elim (Bool-cases (l.claimed e.event_id)) [
  | inl held ↦ rw held (taken_before e l id held)
  | inr fresh ↦ rw fresh (elim (Bool-cases (l.registered e.transaction_id e.source)) [
    | inl second ↦ rw second refl
    | inr first ↦ rw first (
        join-claimed expected e.transaction_id
          (insert e.source e (unwrap_or (l.pending e.transaction_id) no_events)) (take e l) id)
  ])
]

give_up-claimed :
    (expected : ℕ) (tx : Uuid) (o : Option Events) (l : Life) (id : Uuid)
    → (give_up expected tx o l).claimed id ≡ l.claimed id
give_up-claimed expected tx none l id = refl
give_up-claimed expected tx (some events) l id = refl

-- The ids that were seen are taken.
abbrev AreTaken : List Uuid → Life → Type 0
AreTaken seen l = All (λ id. l.claimed id ≡ true) seen

taken-any :
    (seen : List Uuid) (l : Life) (id : Uuid)
    → AreTaken seen l
    → any (λ k. k == id) seen ≡ true
    → l.claimed id ≡ true
taken-any [] l id h there = cc
taken-any (k ∷ seen) l id (t, h) there = elim (Bool-cases (k == id)) [
  | inl same ↦ let it : k ≡ id = ground arith in ap l.claimed (sym it) ∙ t
  | inr other ↦ taken-any seen l id h (ground arith)
]

lived-once :
    (expected : ℕ) (occasions : List Occasion) (seen : List Uuid) (l : Life)
    → AreTaken seen l
    → lived expected occasions l ≡ lived expected (once seen occasions) l
lived-once expected [] seen l h = refl
lived-once expected (deadline tx ∷ rest) seen l h =
    lived-once expected rest seen (expire expected tx l)
      (All-weaken seen (λ id t. give_up-claimed expected tx (l.pending tx) l id ∙ t) h)
lived-once expected (arrival msg ∷ rest) seen l h =
    elim (Bool-cases (any (λ id. id == msg.event.event_id) seen)) [
      | inl again ↦
          let held = taken-any seen l msg.event.event_id h again in
          rw again (
            ap (lived expected rest) (rw held refl)
            ∙ lived-once expected rest (msg.event.event_id ∷ seen) l (held, h))
      | inr first ↦ rw first (
          lived-once expected rest (msg.event.event_id ∷ seen) (arrive expected msg.event l) (
            arrive-claimed expected msg.event l msg.event.event_id ∙ ground arith,
            All-weaken seen (λ id t. arrive-claimed expected msg.event l id ∙ ground (arith, t)) h,
          ))
    ]

module _ {sv : Services} {F : Type 0} (laws : ServiceLaws F sv) (cfg : Config) where
  -- Where the texts of every event in a list of arrivals and deadlines fit the columns of the
  -- transactions and every window in memory stands under its own transaction with events that fit,
  -- handling the list, while no key of Redis expires, unless a service fails, ends in a state that
  -- is seen as the abstract life after the list without the arrivals whose event id came before in
  -- it: what the stream delivers again changes nothing.
  pub occasions-once :
      (occasions : List Occasion) (σ : Seen)
      → All (IsPossible laws cfg) occasions
      → IsWell laws cfg σ.windows
      → Wp
          (see sv)
          σ
          (for_each (perform sv cfg) occasions)
          (λ _ τ. life τ ≡ lived cfg.expected_sources_count (once [] occasions) (life σ))
          (λ _. F)
  occasions-once occasions σ possible well =
      wp-weaken (occasions-lived laws cfg occasions σ possible well)
        (λ _ τ e. e ∙ lived-once cfg.expected_sources_count occasions [] (life σ) tt) (λ _ f. f)

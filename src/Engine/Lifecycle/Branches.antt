-- ===== src/Engine/Lifecycle/Branches.antt =====
-- The branches of `handle_event` and `handle_timeout` (matcher/src/matcher.rs), as steps of the
-- abstract life.
use code_storm.Prelude.Int.{ℤ}
use text.Mathlib.Text.{◌==◌ as str_eq}
use mathlib.Core.Option
use code_storm.Prelude.{
  ℕ, Uuid, String, true, false, Option-cases, none, some, ◌==◌, ◌≡◌, refl, ap, inl, inr, Bool-cases,
  if◌then◌else◌, is_some, unwrap_or, arith, subst,
}
use code_storm.Config.{Config}
use code_storm.Services.{Services, ServiceLaws}
use code_storm.Redis.View.{Keyspace, dedup_event, sources, set_nx_px, sadd}
use code_storm.Redis.View
use code_storm.Model.Source
use code_storm.Model.Source.{Source, merchant, gateway, bank}
use code_storm.Model.Event.{PaymentEvent}
use code_storm.Model.Partial.{no_events, insert, new}
use code_storm.Engine.Windows
use code_storm.Engine.Seen.{Seen}
use code_storm.Engine.{ℤ, new}
use code_storm.Engine.Finalize.Closing.{HasStatus, Forgotten}
use code_storm.Engine.Handling.Opening.{found_at}
use code_storm.Engine.Handling.Duplicate.{Duplicated}
use code_storm.Engine.Handling.Gather.{Waiting}
use code_storm.Engine.Apart.{Apart, Scope}
use code_storm.Engine.Lifecycle.{Life, life, take, mark, wait, conclude}

-- Two lives that are the same at every question.
pub record Alike (a b : Life) : Type 0 where
  pub claimed : (id : Uuid) → a.claimed id ≡ b.claimed id
  pub registered : (tx : Uuid) (s : Source) → a.registered tx s ≡ b.registered tx s
  pub pending : (tx : Uuid) → a.pending tx ≡ b.pending tx
  pub status : (tx : Uuid) → a.status tx ≡ b.status tx

pub Alike-eq : (a b : Life) → Alike a b → a ≡ b
Alike-eq a b h = λ i. record {
  claimed = λ id. h.claimed id i;
  registered = λ tx s. h.registered tx s i;
  pending = λ tx. h.pending tx i;
  status = λ tx. h.status tx i;
}

source_names : (s t : Source) → str_eq (Source.to_string s) (Source.to_string t) ≡ Source.◌==◌ s t
source_names merchant merchant = refl
source_names merchant gateway = refl
source_names merchant bank = refl
source_names gateway merchant = refl
source_names gateway gateway = refl
source_names gateway bank = refl
source_names bank merchant = refl
source_names bank gateway = refl
source_names bank bank = refl

-- The keys after an event has claimed its id and registered its source.
abbrev pub taken_view : PaymentEvent → ℕ → Keyspace → Keyspace
taken_view e ttl v = View.expire (sources e.transaction_id) 60 (
    sadd (sources e.transaction_id) (Source.to_string e.source)
      (set_nx_px (dedup_event e.event_id) "1" ttl v))

pub taken-life :
    (e : PaymentEvent) (ttl : ℕ) (σ : Seen)
    → σ.view.strings (dedup_event e.event_id) ≡ none
    → life (record σ { view = taken_view e ttl σ.view }) ≡ take e (life σ)
taken-life e ttl σ fresh = Alike-eq _ _ (
    rw fresh (record {
      claimed =
          λ id. elim (Bool-cases (e.event_id == id)) [ inl h ↦ rw h refl | inr h ↦ rw h refl ];
      registered = λ tx s. elim (Bool-cases (e.transaction_id == tx)) [
        | inl h ↦ rw (h, source_names e.source s) (ground arith)
        | inr h ↦ rw h refl
      ];
      pending = λ tx. refl;
      status = λ tx. refl;
    }))

-- Nothing is taken, and no source is forgotten.
abbrev pub keeping : Scope
keeping = record { taken = λ _. false; own_sources = false }

-- Nothing is taken, but the sources of the transaction may go.
abbrev pub closing : Scope
closing = record { taken = λ _. false; own_sources = true }

module _ {sv : Services} {F : Type 0} (laws : ServiceLaws F sv) (cfg : Config) where
  row-status :
      (tx : Uuid) (status : String) (τ : Seen)
      → HasStatus laws cfg tx status τ
      → (life τ).status tx ≡ some status
  row-status tx status τ (row, there, has) = rw there (ap (λ t. some t) has)

  -- A status for one transaction.
  status-marked :
      (c : Scope) (tx : Uuid) (status : String) (σ τ : Seen)
      → HasStatus laws cfg tx status τ
      → Apart sv.codec c tx σ τ
      → (k : Uuid) → (life τ).status k ≡ (if tx == k then some status else (life σ).status k)
  status-marked c tx status σ τ has a k = elim (Bool-cases (tx == k)) [
    | inl h ↦
        let same : tx ≡ k = ground arith in
        rw h (subst (λ z. (life τ).status z ≡ some status) same (row-status tx status τ has))
    | inr h ↦ rw h (ap (Option.map (λ row. row.overall_status)) (a.tables.rows k h))
  ]

  pub Duplicated-life :
      (e : PaymentEvent) (σ τ : Seen)
      → Duplicated laws cfg e σ τ
      → Apart sv.codec keeping e.transaction_id σ τ
      → life τ ≡ mark e.transaction_id "pending" (life σ)
  Duplicated-life e σ τ d a = Alike-eq _ _ (record {
    claimed = λ id. ap is_some (a.view.claims id refl);
    registered = λ tx s. ap (λ z. z (Source.to_string s)) (a.view.registered tx refl);
    pending = λ tx. ap (λ w. Option.map (λ w. w.events) (Windows.get tx w)) d.windows;
    status = status-marked keeping e.transaction_id "pending" σ τ d.status a;
  })

  pub conclude-life :
      (tx : Uuid) (status : String) (σ τ : Seen)
      → HasStatus laws cfg tx status τ
      → Forgotten laws cfg tx σ τ
      → Apart sv.codec closing tx σ τ
      → life τ ≡ conclude tx status (life σ)
  conclude-life tx status σ τ has f a = Alike-eq _ _ (record {
    claimed = λ id. ap is_some (a.view.claims id refl);
    registered = λ k s. elim (Bool-cases (tx == k)) [
      | inl h ↦
          let same : tx ≡ k = ground arith in
          rw h
            (subst (λ z. (life τ).registered z s ≡ false) same (f.no_sources (Source.to_string s)))
      | inr h ↦ rw h (ap (λ z. z (Source.to_string s)) (a.view.registered k h))
    ];
    pending = λ k. elim (Bool-cases (tx == k)) [
      | inl h ↦ rw (h, f.windows k, h) refl
      | inr h ↦ rw (h, f.windows k, h) refl
    ];
    status = status-marked closing tx status σ τ has a;
  })

  pub Waiting-life :
      (e : PaymentEvent) (now_ms : ℤ) (σ τ : Seen)
      → Waiting laws cfg e now_ms σ τ
      → Apart sv.codec keeping e.transaction_id σ τ
      → life τ
        ≡ wait e.transaction_id (insert e.source e (found_at laws cfg e now_ms σ).events) (life σ)
  Waiting-life e now_ms σ τ w a = Alike-eq _ _ (record {
    claimed = λ id. ap is_some (a.view.claims id refl);
    registered = λ tx s. ap (λ z. z (Source.to_string s)) (a.view.registered tx refl);
    pending = λ k. elim (Bool-cases (e.transaction_id == k)) [
      | inl h ↦ rw (h, w.windows k, h) (ap (λ z. some z) w.events)
      | inr h ↦ rw (h, w.windows k, h) refl
    ];
    status = λ k. ap (λ t. Option.map (λ row. row.overall_status) (t.transactions k)) w.tables;
  })

  pub found-events :
      (e : PaymentEvent) (now_ms : ℤ) (σ : Seen)
      → (found_at laws cfg e now_ms σ).events
        ≡ unwrap_or ((life σ).pending e.transaction_id) no_events
  unfolding new
  found-events e now_ms σ = elim (Option-cases (Windows.get e.transaction_id σ.windows)) [
    | inl h ↦ rw h refl
    | inr (w, h) ↦ rw h refl
  ]

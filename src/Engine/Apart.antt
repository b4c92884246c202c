-- ===== src/Engine/Apart.antt =====
-- What a step of the engine (matcher/src/matcher.rs) for one transaction has to do with the others.
pub mod Stores
pub mod Steps
pub mod Handling
pub mod Whole
use code_storm.Prelude.{Uuid, String, Bool, ◌&&◌, false, ◌≡◌, refl, ◌∙◌, ◌==◌}
use code_storm.Services.{Services, ServiceLaws}
use code_storm.Redis.View.{Keyspace, window, sources, deadlines, dedup_event}
use code_storm.Postgres.{Tables}
use code_storm.Codec.{Codec}
use code_storm.Model.Source.{Source}
use code_storm.Exec.{Exec}
use code_storm.Exec.Wp.{wp-weaken}
use code_storm.Exec.Keeps.{IsFrame, Keeps}
use code_storm.Engine.Windows
use code_storm.Engine.Parts.{State, on_redis, on_postgres}
use code_storm.Engine.Seen.{Seen, see, wp-redis, wp-postgres}

-- What a step may change: the claims of some events, and the registered sources of its transaction.
pub record Scope : Type 0 where
  pub taken : Uuid → Bool
  pub own_sources : Bool

-- Two views that agree on the other claims, the other transactions and the acknowledged entries.
pub record ApartView (c : Codec) (scope : Scope) (tx : Uuid) (v w : Keyspace) : Type 0 where
  pub claims :
      (id : Uuid) → scope.taken id ≡ false → w.strings (dedup_event id) ≡ v.strings (dedup_event id)
  pub saved : (k : Uuid) → (tx == k) ≡ false → w.strings (window k) ≡ v.strings (window k)
  pub registered :
      (k : Uuid) → (scope.own_sources && tx == k) ≡ false → w.sets (sources k) ≡ v.sets (sources k)
  pub due :
      (k : Uuid)
      → (tx == k) ≡ false
      → w.text_zsets deadlines (c.uuid_to_string k) ≡ v.text_zsets deadlines (c.uuid_to_string k)
  pub acknowledged : w.acknowledged ≡ v.acknowledged

-- Tables that agree on the other transactions.
pub record ApartTables (tx : Uuid) (t u : Tables) : Type 0 where
  pub rows : (k : Uuid) → (tx == k) ≡ false → u.transactions k ≡ t.transactions k
  pub details :
      (k : Uuid)
      → (tx == k) ≡ false
      → (s : Source) → u.reconciliation_details k s ≡ t.reconciliation_details k s

pub record Apart (c : Codec) (scope : Scope) (tx : Uuid) (σ τ : Seen) : Type 0 where
  pub windows : (k : Uuid) → (tx == k) ≡ false → Windows.get k τ.windows ≡ Windows.get k σ.windows
  pub view : ApartView c scope tx σ.view τ.view
  pub tables : ApartTables tx σ.tables τ.tables

pub tables-IsFrame : (tx : Uuid) → IsFrame (ApartTables tx)
tables-IsFrame tx = record {
  stay = λ v. record { rows = λ k h. refl; details = λ k h s. refl };
  onward = λ a b. record {
    rows = λ k h. b.rows k h ∙ a.rows k h;
    details = λ k h s. b.details k h s ∙ a.details k h s;
  };
}

module _ (c : Codec) (scope : Scope) (tx : Uuid) where
  pub view-IsFrame : IsFrame (ApartView c scope tx)
  view-IsFrame = record {
    stay = λ v. record {
      claims = λ id h. refl;
      saved = λ k h. refl;
      registered = λ k h. refl;
      due = λ k h. refl;
      acknowledged = refl;
    };
    onward = λ a b. record {
      claims = λ id h. b.claims id h ∙ a.claims id h;
      saved = λ k h. b.saved k h ∙ a.saved k h;
      registered = λ k h. b.registered k h ∙ a.registered k h;
      due = λ k h. b.due k h ∙ a.due k h;
      acknowledged = b.acknowledged ∙ a.acknowledged;
    };
  }

  pub apart-IsFrame : IsFrame (Apart c scope tx)
  apart-IsFrame = record {
    stay = λ σ. record {
      windows = λ k h. refl;
      view = view-IsFrame.stay σ.view;
      tables = (tables-IsFrame tx).stay σ.tables;
    };
    onward = λ a b. record {
      windows = λ k h. b.windows k h ∙ a.windows k h;
      view = view-IsFrame.onward a.view b.view;
      tables = (tables-IsFrame tx).onward a.tables b.tables;
    };
  }

module _ (sv : Services) (scope : Scope) (tx : Uuid) where
  -- The step leaves the other transactions alone.
  abbrev pub IsApart : {A : Type 0} → Exec (State sv) A → Type 0
  IsApart m = Keeps (see sv) (Apart sv.codec scope tx) m

  pub on_redis-IsApart :
      {A : Type 0} {m : Exec sv.redis.Server A}
      → Keeps sv.redis.view (ApartView sv.codec scope tx) m
      → IsApart (on_redis sv m)
  on_redis-IsApart h σ =
      let same = (apart-IsFrame sv.codec scope tx).stay σ in
      wp-redis sv (
        wp-weaken (h σ.view)
          (λ _ w a. record { windows = same.windows; view = a; tables = same.tables })
          (λ w a. record { windows = same.windows; view = a; tables = same.tables }))

  pub on_postgres-IsApart :
      {A : Type 0} {m : Exec sv.postgres.Db A}
      → Keeps sv.postgres.tables (ApartTables tx) m
      → IsApart (on_postgres sv m)
  on_postgres-IsApart h σ =
      let same = (apart-IsFrame sv.codec scope tx).stay σ in
      wp-postgres sv (
        wp-weaken (h σ.tables)
          (λ _ t a. record { windows = same.windows; view = same.view; tables = a })
          (λ t a. record { windows = same.windows; view = same.view; tables = a }))

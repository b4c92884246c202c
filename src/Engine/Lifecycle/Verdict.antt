-- ===== src/Engine/Lifecycle/Verdict.antt =====
-- The verdict of `check_invariants` (matcher/src/model.rs) is that of the abstract life.
use text.Mathlib.Text.{◌==◌ as str_eq}
use code_storm.Prelude.{Uuid, Option-cases, inl, inr, ◌≡◌, refl, Bool-cases, if◌then◌else◌}
use code_storm.Prelude.Int.{◌==ℤ◌, sub_i64}
use code_storm.Config.{Config}
use code_storm.Services.{Services}
use code_storm.Model.Source.{merchant, gateway, bank}
use code_storm.Model.Event.{PaymentEvent}
use code_storm.Model.Partial.{PartialTransaction}
use code_storm.Model.Invariants.{check_invariants, check_events}
use code_storm.Engine.{overall_status}
use code_storm.Engine.Lifecycle.{agree, settled}

module _ (sv : Services) (cfg : Config) where
  agreed-eq :
      (tx : Uuid) (m g b : PaymentEvent)
      → overall_status sv cfg (check_events tx m g b)
        ≡ (if agree m g b then "matched" else "mismatch")
  unfolding check_events
  agreed-eq tx m g b = elim (Bool-cases (str_eq m.currency g.currency)) [
    | inr e ↦ rw e refl
    | inl e ↦ elim (Bool-cases (str_eq g.currency b.currency)) [
      | inr f ↦ rw (e, f) refl
      | inl f ↦ elim (Bool-cases (g.amount_minor ==ℤ m.amount_minor)) [
        | inr h ↦ rw (e, f, h) refl
        | inl h ↦ elim (Bool-cases (b.amount_minor ==ℤ sub_i64 g.amount_minor g.fee_minor)) [
          | inr k ↦ rw (e, f, h, k) refl
          | inl k ↦ rw (e, f, h, k) refl
        ]
      ]
    ]
  ]

  -- The status that `finalize_window` stores is what the events of the window come to.
  pub overall_status-settled :
      (p : PartialTransaction) → overall_status sv cfg (check_invariants p) ≡ settled p.events
  unfolding check_invariants
  overall_status-settled p = elim (Option-cases (p.events merchant)) [
    | inl e ↦ rw e refl
    | inr (m, e) ↦ elim (Option-cases (p.events gateway)) [
      | inl f ↦ rw (e, f) refl
      | inr (g, f) ↦ elim (Option-cases (p.events bank)) [
        | inl h ↦ rw (e, f, h) refl
        | inr (b, h) ↦ rw (e, f, h) (agreed-eq p.transaction_id m g b)
      ]
    ]
  ]

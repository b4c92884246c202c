-- ===== src/Model/Details/Agreement.antt =====
-- How the per-source details relate to the verdict of `check_invariants`.
use text.Mathlib.TextEquality.{eq_iff}
use code_storm.Prelude.{◌≡◌, ◌↔◌, Uuid, some, none, map, arith, All, keep, true}
use code_storm.Prelude.Int.{==ℤ_iff}
use code_storm.Model.Source.{all}
use code_storm.Model.Event.{PaymentEvent}
use code_storm.Model.Partial.{PartialTransaction, contains_key}
use code_storm.Model.Incident.{ReconciliationDetail, matched}
use code_storm.Model.Invariants.{check_events, check_invariants, expected_bank_amount}
use code_storm.Model.Invariants.Verdict.{Holds, check_invariants-events}
use code_storm.Model.Details.{details_of, build_details}

-- There is one detail for each source present, in the order of `Source::all`.
pub build_details-sources :
    (p : PartialTransaction)
    → map (λ d. d.source) (build_details p) ≡ keep (contains_key p.events) all
unfolding build_details
build_details-sources p = ground arith

abbrev pub HasNoReason : ReconciliationDetail → Type 0
HasNoReason d = d.mismatch_reason ≡ none

abbrev pub IsMarked : ReconciliationDetail → Type 0
IsMarked d = d.is_matched ≡ true

build_details-events :
    (p : PartialTransaction) {m g b : PaymentEvent}
    → Holds p.events m g b
    → build_details p ≡ details_of (some m) (some g) (some b)
unfolding build_details
build_details-events p h = ground (arith, h.of_merchant, h.of_gateway, h.of_bank)

module _ (tx : Uuid) (m g b : PaymentEvent) where
  reasons_sound :
      All HasNoReason (details_of (some m) (some g) (some b)) → check_events tx m g b ≡ matched
  unfolding details_of check_events
  reasons_sound h = ground (
    arith,
    eq_iff m.currency g.currency,
    eq_iff g.currency b.currency,
    ==ℤ_iff g.amount_minor m.amount_minor,
    ==ℤ_iff b.amount_minor (expected_bank_amount g),
  )

  reasons_complete :
      check_events tx m g b ≡ matched → All HasNoReason (details_of (some m) (some g) (some b))
  unfolding details_of check_events
  reasons_complete h = ground (
    arith,
    eq_iff m.currency g.currency,
    eq_iff g.currency b.currency,
    eq_iff m.currency b.currency,
    ==ℤ_iff g.amount_minor m.amount_minor,
    ==ℤ_iff b.amount_minor (expected_bank_amount g),
  )

  marks_sound :
      All IsMarked (details_of (some m) (some g) (some b))
      → (g.amount_minor ≡ m.amount_minor) × (b.amount_minor ≡ expected_bank_amount g)
  unfolding details_of
  marks_sound h = ground (
    arith,
    ==ℤ_iff g.amount_minor m.amount_minor,
    ==ℤ_iff (expected_bank_amount g) b.amount_minor,
  )

  marks_complete :
      g.amount_minor ≡ m.amount_minor
      → b.amount_minor ≡ expected_bank_amount g
      → All IsMarked (details_of (some m) (some g) (some b))
  unfolding details_of
  marks_complete h k = ground (
    arith,
    ==ℤ_iff g.amount_minor m.amount_minor,
    ==ℤ_iff m.amount_minor g.amount_minor,
    ==ℤ_iff (expected_bank_amount g) b.amount_minor,
  )

-- Of a window that has its three events, the verdict is a match exactly when no detail carries a
-- mismatch reason.
pub matched-HasNoReason_iff :
    (p : PartialTransaction) (m g b : PaymentEvent)
    → Holds p.events m g b
    → (check_invariants p ≡ matched) ↔ All HasNoReason (build_details p)
matched-HasNoReason_iff p m g b held =
    rw (check_invariants-events p held, build_details-events p held)
      (reasons_complete p.transaction_id m g b, reasons_sound p.transaction_id m g b)

-- Of a window that has its three events, all details are marked `is_matched` exactly when the
-- gateway and the merchant agree in the amount and the amount of the bank is the expected one,
-- whatever the currencies are.
pub build_details-IsMarked_iff :
    (p : PartialTransaction) (m g b : PaymentEvent)
    → Holds p.events m g b
    → All IsMarked (build_details p)
      ↔ ((g.amount_minor ≡ m.amount_minor) × (b.amount_minor ≡ expected_bank_amount g))
build_details-IsMarked_iff p m g b held =
    rw (build_details-events p held)
      (marks_sound p.transaction_id m g b, λ (h, k). marks_complete p.transaction_id m g b h k)

-- ===== src/Model/Invariants/Incidents.antt =====
-- Which incidents `check_invariants` reports of a full window.
use code_storm.Model.Partial.{PartialTransaction}
use code_storm.Prelude.Int.{==ℤ_iff, pos}
use code_storm.Model.Invariants.{check_events, check_invariants, expected_bank_amount}
use code_storm.Prelude.{Uuid, List, Bool, any, ◌≡◌, true, ◌↔◌, [], arith, ◌≢◌, All, false}
use code_storm.Model.Event.{PaymentEvent}
use code_storm.Model.Incident.{
  ReconciliationResult, IncidentKind, Incident, currency_mismatch, amount_mismatch, fee_mismatch,
  missing_source, duplicate, source_offline, mismatched, matched,
}
use text.Mathlib.TextEquality.{eq_iff}
use code_storm.Model.Invariants.Verdict.{Holds, check_invariants-events}

abbrev pub incidents_of : ReconciliationResult → List Incident
incidents_of matched = []
incidents_of (mismatched incidents) = incidents

abbrev pub same_kind : IncidentKind → IncidentKind → Bool
same_kind amount_mismatch amount_mismatch = true
same_kind fee_mismatch fee_mismatch = true
same_kind currency_mismatch currency_mismatch = true
same_kind missing_source missing_source = true
same_kind duplicate duplicate = true
same_kind source_offline source_offline = true
same_kind _ _ = false

-- An incident of this kind is among those reported.
abbrev pub Reports : IncidentKind → ReconciliationResult → Type 0
Reports kind r = any (λ i. same_kind kind i.incident_type) (incidents_of r) ≡ true

abbrev pub SameCurrency : PaymentEvent → PaymentEvent → PaymentEvent → Type 0
SameCurrency m g b = (m.currency ≡ g.currency) × (g.currency ≡ b.currency)

module _ (tx : Uuid) (m g b : PaymentEvent) where
  currency_reported_iff : Reports currency_mismatch (check_events tx m g b) ↔ ¬ SameCurrency m g b
  unfolding check_events
  currency_reported_iff = (
    λ h. λ (e, f). ground (arith, eq_iff m.currency g.currency, eq_iff g.currency b.currency),
    λ h. grind (arith, eq_iff m.currency g.currency, eq_iff g.currency b.currency),
  )

  amount_reported_iff :
      Reports amount_mismatch (check_events tx m g b)
      ↔ (SameCurrency m g b × (g.amount_minor ≢ m.amount_minor))
  unfolding check_events
  amount_reported_iff = (
    λ h. ground (
      arith,
      eq_iff m.currency g.currency,
      eq_iff g.currency b.currency,
      ==ℤ_iff g.amount_minor m.amount_minor,
    ),
    λ h. ground (
      arith,
      eq_iff m.currency g.currency,
      eq_iff g.currency b.currency,
      ==ℤ_iff g.amount_minor m.amount_minor,
    ),
  )

  fee_reported_iff :
      Reports fee_mismatch (check_events tx m g b)
      ↔ (SameCurrency m g b × (b.amount_minor ≢ expected_bank_amount g))
  unfolding check_events
  fee_reported_iff = (
    λ h. ground (
      arith,
      eq_iff m.currency g.currency,
      eq_iff g.currency b.currency,
      ==ℤ_iff b.amount_minor (expected_bank_amount g),
    ),
    λ h. ground (
      arith,
      eq_iff m.currency g.currency,
      eq_iff g.currency b.currency,
      ==ℤ_iff b.amount_minor (expected_bank_amount g),
    ),
  )

-- The incidents of a window all belong to its transaction and have severity 1, so that each of
-- them is put up for escalation.
abbrev pub IsFresh : Uuid → Incident → Type 0
IsFresh tx i = (i.transaction_id ≡ tx) × (i.severity ≡ pos 1)

-- Every incident that `check_invariants` reports belongs to the transaction of the window and has
-- severity 1.
pub check_invariants-IsFresh :
    (p : PartialTransaction) → All (IsFresh p.transaction_id) (incidents_of (check_invariants p))
unfolding check_invariants check_events
check_invariants-IsFresh p = ground arith

-- Of a window that has its three events, a currency mismatch is reported exactly when the
-- currencies are not all the same; an amount mismatch exactly when they are and the gateway and
-- the merchant differ in the amount; a fee mismatch exactly when they are and the amount of the
-- bank is not the expected one.
pub check_invariants-Reports_iff :
    (p : PartialTransaction) (m g b : PaymentEvent)
    → Holds p.events m g b
    → (Reports currency_mismatch (check_invariants p) ↔ ¬ SameCurrency m g b)
      × (Reports amount_mismatch (check_invariants p)
          ↔ (SameCurrency m g b × (g.amount_minor ≢ m.amount_minor)))
      × (Reports fee_mismatch (check_invariants p)
          ↔ (SameCurrency m g b × (b.amount_minor ≢ expected_bank_amount g)))
check_invariants-Reports_iff p m g b held = rw (check_invariants-events p held) (
  currency_reported_iff p.transaction_id m g b,
  amount_reported_iff p.transaction_id m g b,
  fee_reported_iff p.transaction_id m g b,
)

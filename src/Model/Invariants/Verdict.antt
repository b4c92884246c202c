-- ===== src/Model/Invariants/Verdict.antt =====
-- What `check_invariants` decides.
use text.Mathlib.TextEquality.{eq_iff}
use code_storm.Prelude.{sym, ◌∙◌, ap, ◌≢◌, Option-cases, inl, inr, [], some, ◌≡◌, Uuid, arith, ◌↔◌}
use code_storm.Prelude.Int.{==ℤ_iff, ◌-ℤ◌, sub_i64-eq, IsI64}
use code_storm.Model.Source.{merchant, gateway, bank}
use code_storm.Model.Event.{PaymentEvent}
use code_storm.Model.Partial.{PartialTransaction, Events, missing_sources}
use code_storm.Model.Incident.{matched, mismatched}
use code_storm.Model.Invariants.{check_events, check_invariants, expected_bank_amount}

-- The agreement that the three parties owe one another: one currency, the gateway's amount is the
-- merchant's, and the bank's is the gateway's less the fee.
pub record IsReconciled (m g b : PaymentEvent) : Type 0 where
  pub merchant_currency : m.currency ≡ g.currency
  pub bank_currency : g.currency ≡ b.currency
  pub amount : g.amount_minor ≡ m.amount_minor
  pub settlement : b.amount_minor ≡ expected_bank_amount g

-- The three events of a full window.
pub record Holds (events : Events) (m g b : PaymentEvent) : Type 0 where
  pub of_merchant : events merchant ≡ some m
  pub of_gateway : events gateway ≡ some g
  pub of_bank : events bank ≡ some b

module _ (tx : Uuid) (m g b : PaymentEvent) where
  check_events_sound : check_events tx m g b ≡ matched → IsReconciled m g b
  unfolding check_events
  check_events_sound h = ground (
    arith,
    eq_iff m.currency g.currency,
    eq_iff g.currency b.currency,
    ==ℤ_iff g.amount_minor m.amount_minor,
    ==ℤ_iff b.amount_minor (expected_bank_amount g),
  )

  check_events_complete : IsReconciled m g b → check_events tx m g b ≡ matched
  unfolding check_events
  check_events_complete h = ground (
    arith,
    eq_iff m.currency g.currency,
    eq_iff g.currency b.currency,
    ==ℤ_iff g.amount_minor m.amount_minor,
    ==ℤ_iff b.amount_minor (expected_bank_amount g),
  )

abbrev pub IsReconciledWindow : Events → Type 0
IsReconciledWindow events =
    (m : PaymentEvent) × (g : PaymentEvent) × (b : PaymentEvent) × Holds events m g b
    × IsReconciled m g b

pub check_invariants-events :
    (p : PartialTransaction) {m g b : PaymentEvent}
    → Holds p.events m g b
    → check_invariants p ≡ check_events p.transaction_id m g b
unfolding check_invariants
check_invariants-events p h = ground (arith, h.of_merchant, h.of_gateway, h.of_bank)

matched-Holds :
    (p : PartialTransaction)
    → check_invariants p ≡ matched
    → (m : PaymentEvent) × (g : PaymentEvent) × (b : PaymentEvent) × Holds p.events m g b
unfolding check_invariants
matched-Holds p h = elim (Option-cases (p.events merchant)) [
  | inl e ↦ absurd (ground arith)
  | inr (m, em) ↦ elim (Option-cases (p.events gateway)) [
    | inl e ↦ absurd (ground arith)
    | inr (g, eg) ↦ elim (Option-cases (p.events bank)) [
      | inl e ↦ absurd (ground arith)
      | inr (b, eb) ↦ (m, g, b, record { of_merchant = em; of_gateway = eg; of_bank = eb })
    ]
  ]
]

-- A window is matched exactly when it has an event of each source, the three have one currency,
-- the amount of the gateway is that of the merchant, and that of the bank is what remains of the
-- amount of the gateway after its fee.
pub check_invariants-matched_iff :
    (p : PartialTransaction) → (check_invariants p ≡ matched) ↔ IsReconciledWindow p.events
check_invariants-matched_iff p = (
  λ h.
      let (m, g, b, held) = matched-Holds p h in
      (
        m,
        g,
        b,
        held,
        check_events_sound p.transaction_id m g b (sym (check_invariants-events p held) ∙ h),
      ),
  λ (m, g, b, held, ok).
      check_invariants-events p held ∙ check_events_complete p.transaction_id m g b ok,
)

-- A mismatch with no incident is reported exactly for a window that lacks a source.
pub check_invariants-silent_iff :
    (p : PartialTransaction) → (check_invariants p ≡ mismatched []) ↔ (missing_sources p ≢ [])
unfolding check_invariants check_events missing_sources
check_invariants-silent_iff p = (λ h. ground arith, λ h. ground arith)

-- Where a window has its three events, the amount of the gateway less its fee is within 64 bits
-- and the window is matched, the amount of the bank is that of the merchant less the fee of the
-- gateway, as integers.
pub matched_settlement :
    (p : PartialTransaction) (m g b : PaymentEvent)
    → Holds p.events m g b
    → IsI64 (g.amount_minor -ℤ g.fee_minor)
    → check_invariants p ≡ matched
    → b.amount_minor ≡ m.amount_minor -ℤ g.fee_minor
matched_settlement p m g b held fits h =
    let ok : IsReconciled m g b =
      check_events_sound p.transaction_id m g b (sym (check_invariants-events p held) ∙ h) in
    ok.settlement
    ∙ sub_i64-eq g.amount_minor g.fee_minor fits
    ∙ ap (λ x. x -ℤ g.fee_minor) ok.amount

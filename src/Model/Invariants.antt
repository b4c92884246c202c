-- ===== src/Model/Invariants.antt =====
-- matcher/src/model.rs: `check_invariants`.
pub mod Verdict
pub mod Incidents
use text.Mathlib.Text.{◌==◌ as str_eq}
use code_storm.Prelude.{
  Uuid, Bool, true, false, not, ◌&&◌, Option, none, some, List, [], ◌∷◌, ◌++◌, if◌then◌else◌,
}
use code_storm.Prelude.Int.{ℤ, pos, ◌==ℤ◌, sub_i64}
use code_storm.Model.Source.{merchant, gateway, bank}
use code_storm.Model.Event.{PaymentEvent}
use code_storm.Model.Partial.{PartialTransaction}
use code_storm.Model.Incident.{
  Incident, amount_mismatch, fee_mismatch, currency_mismatch, currencies_differ, amounts_differ,
  fee_differs, ReconciliationResult, matched, mismatched,
}

-- The incident pushed on different currencies.
abbrev pub currency_incident : Uuid → PaymentEvent → PaymentEvent → PaymentEvent → Incident
currency_incident tx m g b = record {
  transaction_id = tx;
  incident_type = currency_mismatch;
  severity = pos 1;
  description = currencies_differ m.currency g.currency b.currency;
}

-- The incident pushed on different amounts.
abbrev pub amount_incident : Uuid → PaymentEvent → PaymentEvent → Incident
amount_incident tx m g = record {
  transaction_id = tx;
  incident_type = amount_mismatch;
  severity = pos 1;
  description =
      amounts_differ m.amount_minor g.amount_minor (sub_i64 g.amount_minor m.amount_minor);
}

-- `gateway.amount_minor - gateway.fee_minor`
abbrev pub expected_bank_amount : PaymentEvent → ℤ
expected_bank_amount g = sub_i64 g.amount_minor g.fee_minor

-- The incident pushed on a fee that does not add up.
abbrev pub fee_incident : Uuid → PaymentEvent → PaymentEvent → Incident
fee_incident tx g b = record {
  transaction_id = tx;
  incident_type = fee_mismatch;
  severity = pos 1;
  description = fee_differs g.amount_minor g.fee_minor (expected_bank_amount g) b.amount_minor;
}

-- The last test, `incidents.is_empty()`.
abbrev verdict : List Incident → ReconciliationResult
verdict [] = matched
verdict (i ∷ rest) = mismatched (i ∷ rest)

-- The checks on three events.
unfoldable pub check_events :
    Uuid → PaymentEvent → PaymentEvent → PaymentEvent → ReconciliationResult
check_events tx m g b =
    if not (str_eq m.currency g.currency && str_eq g.currency b.currency)
    then mismatched (currency_incident tx m g b ∷ [])
    else verdict (
        (if not (g.amount_minor ==ℤ m.amount_minor) then amount_incident tx m g ∷ [] else [])
        ++ (if not (b.amount_minor ==ℤ expected_bank_amount g)
            then fee_incident tx g b ∷ []
            else []))

abbrev with_bank : Uuid → PaymentEvent → PaymentEvent → Option PaymentEvent → ReconciliationResult
with_bank tx m g none = mismatched []
with_bank tx m g (some b) = check_events tx m g b

abbrev with_gateway :
    Uuid → PaymentEvent → Option PaymentEvent → Option PaymentEvent → ReconciliationResult
with_gateway tx m none b = mismatched []
with_gateway tx m (some g) b = with_bank tx m g b

abbrev with_merchant :
    Uuid → Option PaymentEvent → Option PaymentEvent → Option PaymentEvent → ReconciliationResult
with_merchant tx none g b = mismatched []
with_merchant tx (some m) g b = with_gateway tx m g b

unfoldable pub check_invariants : PartialTransaction → ReconciliationResult
unfolding check_events
check_invariants p =
    with_merchant p.transaction_id (p.events merchant) (p.events gateway) (p.events bank)

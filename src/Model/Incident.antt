-- ===== src/Model/Incident.antt =====
-- matcher/src/model.rs: incidents, the result of a reconciliation and its details.
use code_storm.Prelude.{ℕ, Uuid, String, Bool, Option, List}
use code_storm.Prelude.Int.{ℤ}
use code_storm.Model.Source.{Source}

pub data IncidentKind : Type 0 where
  amount_mismatch fee_mismatch currency_mismatch missing_source duplicate source_offline :
      IncidentKind

abbrev pub to_string : IncidentKind → String
to_string amount_mismatch = "amount_mismatch"
to_string fee_mismatch = "fee_mismatch"
to_string currency_mismatch = "currency_mismatch"
to_string missing_source = "missing_source"
to_string duplicate = "duplicate"
to_string source_offline = "source_offline"

-- The descriptions, one constructor for each template text, with the values formatted into it.
pub data Description : Type 0 where
  currencies_differ : (of_merchant of_gateway of_bank : String) → Description
  amounts_differ : (of_merchant of_gateway difference : ℤ) → Description
  fee_differs : (gateway_amount gateway_fee expected_bank actual_bank : ℤ) → Description
  second_event : Source → Uuid → Description
  not_received : List String → (timeout_ms : ℕ) → Description

pub record Incident : Type 0 where
  pub transaction_id : Uuid
  pub incident_type : IncidentKind
  pub severity : ℤ
  pub description : Description

pub data ReconciliationResult : Type 0 where
  matched : ReconciliationResult
  mismatched : List Incident → ReconciliationResult

pub record ReconciliationDetail : Type 0 where
  pub source : Source
  pub amount_expected : Option ℤ
  pub amount_actual : Option ℤ
  pub fee_expected : Option ℤ
  pub fee_actual : Option ℤ
  pub is_matched : Bool
  pub mismatch_reason : Option String

-- ===== src/Model/Event.antt =====
-- matcher/src/model.rs: `PaymentEvent` and `StreamMessage`.
use code_storm.Prelude.{Uuid, String, Option}
use code_storm.Prelude.Int.{ℤ}
use code_storm.Model.Source.{Source}

pub record PaymentEvent : Type 0 where
  pub event_id : Uuid
  pub transaction_id : Uuid
  pub source : Source
  pub amount_minor : ℤ
  pub fee_minor : ℤ
  pub currency : String
  pub timestamp_ms : ℤ
  pub tx_type : String
  pub merchant_id : Option String

pub record StreamMessage : Type 0 where
  pub event : PaymentEvent
  pub internal_event_id : Uuid
  pub correlation_id : Option Uuid
  pub ingested_at_ms : ℤ

-- ===== src/Model/Pubsub.antt =====
-- matcher/src/model.rs: the events published to the dashboard.
use code_storm.Prelude.{Uuid, String, Bool, Option, List}
use code_storm.Prelude.Int.{ℤ}
use code_storm.Model.Source.{Source}
use code_storm.Model.Incident.{Description}

pub data PubsubEvent : Type 0 where
  transaction_received : Uuid → Source → (ts_ms : ℤ) → PubsubEvent
  transaction_progress : Uuid → List Source → (ts_ms : ℤ) → PubsubEvent
  transaction_matched : Uuid → (ts_ms : ℤ) → PubsubEvent
  incident_created :
      (incident_id : ℤ)
      → Uuid
      → (incident_type : String) → (severity : ℤ) → Description
      → (ts_ms : ℤ) → PubsubEvent
  incident_updated :
      (incident_id : ℤ)
      → (new_status : Option String) → (new_severity : ℤ) → (ts_ms : ℤ) → PubsubEvent
  source_status_changed : Source → (is_online : Bool) → (ts_ms : ℤ) → PubsubEvent

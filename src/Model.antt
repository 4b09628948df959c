-- ===== src/Model.antt =====
-- workflow/common.go and the document types of the other files: triggers, events, event types,
-- alerts and statistics.
use pz_workflow.Prelude.{ℕ, ◌+◌, ◌%◌, ◌^◌, String, Bool, List}
use pz_workflow.Json.{Fields}

-- `piazza.Ident` and `piazza.TimeStamp` are texts.
abbrev pub Ident : Type 0
Ident = String

abbrev pub TimeStamp : Type 0
TimeStamp = String

abbrev pub trigger_db_mapping : String
trigger_db_mapping = "Trigger"

abbrev pub event_db_mapping : String
event_db_mapping = "_default_"

abbrev pub event_type_db_mapping : String
event_type_db_mapping = "EventType"

abbrev pub alert_db_mapping : String
alert_db_mapping = "Alert"

abbrev pub cron_db_mapping : String
cron_db_mapping = "Cron"

pub record JobType : Type 0 where
  pub job_data : Fields
  pub job_type : String

pub record JobRequest : Type 0 where
  pub created_by : String
  pub job_type : JobType

pub record Trigger : Type 0 where
  pub trigger_id : Ident
  pub name : String
  pub event_type_id : Ident
  pub condition : Fields
  pub job : JobRequest
  pub percolation_id : Ident
  pub created_by : String
  pub created_on : TimeStamp
  pub enabled : Bool

pub record TriggerUpdate : Type 0 where
  pub enabled : Bool

pub record Event : Type 0 where
  pub event_id : Ident
  pub event_type_id : Ident
  pub payload : Fields
  pub created_by : String
  pub created_on : TimeStamp
  pub cron_schedule : String

pub record EventType : Type 0 where
  pub event_type_id : Ident
  pub name : String
  pub mapping : Fields
  pub created_by : String
  pub created_on : TimeStamp

pub record Alert : Type 0 where
  pub alert_id : Ident
  pub trigger_id : Ident
  pub event_id : Ident
  pub job_id : Ident
  pub created_by : String
  pub created_on : TimeStamp

pub record AlertExt : Type 0 where
  pub alert_id : Ident
  pub trigger : Trigger
  pub event : Event
  pub job_id : Ident
  pub created_by : String
  pub created_on : TimeStamp

-- workflow/TestElasticsearchDB.go
pub record TestElasticsearchBody : Type 0 where
  pub id : Ident
  pub value : ℕ

-- A counter is an `int` of 64 bits, kept as its bit pattern.
pub record Stats : Type 0 where
  pub created_on : TimeStamp
  pub num_event_types : ℕ
  pub num_events : ℕ
  pub num_triggers : ℕ
  pub num_alerts : ℕ
  pub num_triggered_jobs : ℕ

-- `*counter++`, as one step.
unfoldable pub incr_counter : ℕ → ℕ
incr_counter counter = (counter + 1) % 2 ^ 64

unfoldable pub incr_event_types : Stats → Stats
incr_event_types stats = record stats { num_event_types = incr_counter stats.num_event_types }

unfoldable pub incr_events : Stats → Stats
incr_events stats = record stats { num_events = incr_counter stats.num_events }

unfoldable pub incr_triggers : Stats → Stats
incr_triggers stats = record stats { num_triggers = incr_counter stats.num_triggers }

unfoldable pub incr_alerts : Stats → Stats
incr_alerts stats = record stats { num_alerts = incr_counter stats.num_alerts }

unfoldable pub incr_trigger_jobs : Stats → Stats
incr_trigger_jobs stats = record stats {
  num_triggered_jobs = incr_counter stats.num_triggered_jobs;
}

-- The values that a response carries in its field `Data`.
pub data Payload : Type 0 where
  no_data : Payload
  text_data : String → Payload
  version_data : String → Payload
  stats_data : Stats → Payload
  event_type_data : EventType → Payload
  event_types_data : List EventType → Payload
  event_data : Event → Payload
  events_data : List Event → Payload
  trigger_data : Trigger → Payload
  triggers_data : List Trigger → Payload
  alert_data : Alert → Payload
  alerts_data : List Alert → Payload
  alert_exts_data : List AlertExt → Payload
  test_data : TestElasticsearchBody → Payload

-- ===== src/Response/DataTypes.antt =====
-- The table of the types of data in workflow/common.go: every document and listing has a name there.
use pz_workflow.Prelude.{◌≡◌, refl, String, Option, none, some, List, [], ◌∷◌, ◌==◌, if◌then◌else◌}
use pz_workflow.Model.{
  Stats, EventType, Event, Trigger, Alert, AlertExt, TestElasticsearchBody, Payload, no_data,
  text_data, version_data, stats_data, event_type_data, event_types_data, event_data, events_data,
  trigger_data, triggers_data, alert_data, alerts_data, alert_exts_data, test_data,
}

-- `piazza.JsonResponseDataTypes`, as the package's `init` leaves it, by the name of the Go type.
abbrev pub json_response_data_types : List (String × String)
json_response_data_types =
    ("*workflow.EventType", "eventtype")
    ∷ ("[]workflow.EventType", "eventtype-list")
    ∷ ("*workflow.Event", "event")
    ∷ ("[]workflow.Event", "event-list")
    ∷ ("*workflow.Trigger", "trigger")
    ∷ ("[]workflow.Trigger", "trigger-list")
    ∷ ("*workflow.Alert", "alert")
    ∷ ("[]workflow.Alert", "alert-list")
    ∷ ("[]workflow.AlertExt", "alertext-list")
    ∷ ("workflow.Stats", "workflowstats")
    ∷ ("*workflow.TestElasticsearchBody", "testelasticsearch")
    ∷ ("[]workflow.TestElasticsearchBody", "testelasticsearch-list")
    ∷ []

unfoldable pub data_type : String → List (String × String) → Option String
data_type name [] = none
data_type name ((key, value) ∷ types) = if key == name then some value else data_type name types

-- The Go type of the value that stands in the field `Data`: a document is sent by its address, a
-- listing and the statistics are sent by value.
unfoldable pub go_type : Payload → String
go_type no_data = "<nil>"
go_type (text_data s) = "string"
go_type (version_data s) = "piazza.Version"
go_type (stats_data s) = "workflow.Stats"
go_type (event_type_data t) = "*workflow.EventType"
go_type (event_types_data ts) = "[]workflow.EventType"
go_type (event_data e) = "*workflow.Event"
go_type (events_data es) = "[]workflow.Event"
go_type (trigger_data t) = "*workflow.Trigger"
go_type (triggers_data ts) = "[]workflow.Trigger"
go_type (alert_data a) = "*workflow.Alert"
go_type (alerts_data list) = "[]workflow.Alert"
go_type (alert_exts_data list) = "[]workflow.AlertExt"
go_type (test_data b) = "*workflow.TestElasticsearchBody"

-- The package has given the type of the data a name.
abbrev pub IsRegistered : Payload → Type 0
IsRegistered p = (name : String) × (data_type (go_type p) json_response_data_types ≡ some name)

pub stats_data-IsRegistered : (x : Stats) → IsRegistered (stats_data x)
unfolding data_type go_type
stats_data-IsRegistered x = (_, refl)

pub event_type_data-IsRegistered : (x : EventType) → IsRegistered (event_type_data x)
unfolding data_type go_type
event_type_data-IsRegistered x = (_, refl)

pub event_types_data-IsRegistered : (x : List EventType) → IsRegistered (event_types_data x)
unfolding data_type go_type
event_types_data-IsRegistered x = (_, refl)

pub event_data-IsRegistered : (x : Event) → IsRegistered (event_data x)
unfolding data_type go_type
event_data-IsRegistered x = (_, refl)

pub events_data-IsRegistered : (x : List Event) → IsRegistered (events_data x)
unfolding data_type go_type
events_data-IsRegistered x = (_, refl)

pub trigger_data-IsRegistered : (x : Trigger) → IsRegistered (trigger_data x)
unfolding data_type go_type
trigger_data-IsRegistered x = (_, refl)

pub triggers_data-IsRegistered : (x : List Trigger) → IsRegistered (triggers_data x)
unfolding data_type go_type
triggers_data-IsRegistered x = (_, refl)

pub alert_data-IsRegistered : (x : Alert) → IsRegistered (alert_data x)
unfolding data_type go_type
alert_data-IsRegistered x = (_, refl)

pub alerts_data-IsRegistered : (x : List Alert) → IsRegistered (alerts_data x)
unfolding data_type go_type
alerts_data-IsRegistered x = (_, refl)

pub alert_exts_data-IsRegistered : (x : List AlertExt) → IsRegistered (alert_exts_data x)
unfolding data_type go_type
alert_exts_data-IsRegistered x = (_, refl)

pub test_data-IsRegistered : (x : TestElasticsearchBody) → IsRegistered (test_data x)
unfolding data_type go_type
test_data-IsRegistered x = (_, refl)

pub ruleset registered_rules = (
  stats_data-IsRegistered, event_type_data-IsRegistered, event_types_data-IsRegistered,
  event_data-IsRegistered, events_data-IsRegistered, trigger_data-IsRegistered,
  triggers_data-IsRegistered, alert_data-IsRegistered, alerts_data-IsRegistered,
  alert_exts_data-IsRegistered, test_data-IsRegistered,
)

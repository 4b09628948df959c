-- ===== src/Db/Uncounted.antt =====
-- The databases of workflow/ count nothing: the statistics are the service's own.
use pz_workflow.Prelude.{◌≡◌, String, Option}
use pz_workflow.Json.{Json, Fields, obj}
use pz_workflow.Backend.{JsonPagination}
use pz_workflow.Model.{Ident, EventType, Event, Trigger, Alert}
use pz_workflow.Exec.{World, final}
use pz_workflow.Exec.Keeps.{Keeps, counts, counts_rules}
use pz_workflow.Response.{status_not_found, status_bad_request, status_ok}
use pz_workflow.Unique.{as_map, remove_unique_params}
use pz_workflow.Db.EventTypes
use pz_workflow.Db.Events
use pz_workflow.Db.Events.Schema.{construct_event_mapping_schema}
use pz_workflow.Db.Events.Verify.{verify_event_ready_to_post}
use pz_workflow.Db.Alerts
use pz_workflow.Db.Crons
use pz_workflow.Db.Triggers
use pz_workflow.Service.Lookup.{get_event_type}

as_map-Keeps : (v : Json) → Keeps counts (as_map v)
unfolding as_map
as_map-Keeps (obj m) = search counts_rules
as_map-Keeps _ = search counts_rules

remove_unique_params-Keeps : (k : String) (m : Fields) → Keeps counts (remove_unique_params k m)
unfolding remove_unique_params
remove_unique_params-Keeps k m = search (counts_rules, as_map-Keeps)

EventTypes_get_one-Keeps : (id : Ident) → Keeps counts (EventTypes.get_one id)
unfolding EventTypes.get_one
EventTypes_get_one-Keeps id = search (counts_rules) depth 14

pub EventTypes_get_one-counts :
    (id : Ident) (w : World) → counts (final (EventTypes.get_one id w)) ≡ counts w
EventTypes_get_one-counts id w = (EventTypes_get_one-Keeps id).at w

EventTypes_get_id_by_name-Keeps :
    (format : Option JsonPagination) (name : String)
    → Keeps counts (EventTypes.get_id_by_name format name)
unfolding EventTypes.get_id_by_name
EventTypes_get_id_by_name-Keeps format name = search (counts_rules) depth 14

pub EventTypes_get_id_by_name-counts :
    (format : Option JsonPagination) (name : String) (w : World)
    → counts (final (EventTypes.get_id_by_name format name w)) ≡ counts w
EventTypes_get_id_by_name-counts format name w = (EventTypes_get_id_by_name-Keeps format name).at w

EventTypes_post_data-Keeps : (t : EventType) → Keeps counts (EventTypes.post_data t)
unfolding EventTypes.post_data
EventTypes_post_data-Keeps t = search (counts_rules) depth 14

pub EventTypes_post_data-counts :
    (t : EventType) (w : World) → counts (final (EventTypes.post_data t w)) ≡ counts w
EventTypes_post_data-counts t w = (EventTypes_post_data-Keeps t).at w

EventTypes_delete_by_id-Keeps : (id : Ident) → Keeps counts (EventTypes.delete_by_id id)
unfolding EventTypes.delete_by_id
EventTypes_delete_by_id-Keeps id = search (counts_rules) depth 14

pub EventTypes_delete_by_id-counts :
    (id : Ident) (w : World) → counts (final (EventTypes.delete_by_id id w)) ≡ counts w
EventTypes_delete_by_id-counts id w = (EventTypes_delete_by_id-Keeps id).at w

Events_name_exists-Keeps : (name : String) → Keeps counts (Events.name_exists name)
unfolding Events.name_exists
Events_name_exists-Keeps name = search (counts_rules) depth 14

pub Events_name_exists-counts :
    (name : String) (w : World) → counts (final (Events.name_exists name w)) ≡ counts w
Events_name_exists-counts name w = (Events_name_exists-Keeps name).at w

construct_event_mapping_schema-Keeps :
    (name : String) (m : Fields) → Keeps counts (construct_event_mapping_schema name m)
unfolding construct_event_mapping_schema
construct_event_mapping_schema-Keeps name m = search (counts_rules) depth 14

Events_add_mapping-Keeps : (name : String) (m : Fields) → Keeps counts (Events.add_mapping name m)
unfolding Events.add_mapping
Events_add_mapping-Keeps name m =
    search (counts_rules, construct_event_mapping_schema-Keeps) depth 14

pub Events_add_mapping-counts :
    (name : String) (m : Fields) (w : World)
    → counts (final (Events.add_mapping name m w)) ≡ counts w
Events_add_mapping-counts name m w = (Events_add_mapping-Keeps name m).at w

get_event_type-Keeps : (id : Ident) → Keeps counts (get_event_type id)
unfolding get_event_type status_not_found status_bad_request status_ok
get_event_type-Keeps id =
    search (counts_rules, EventTypes_get_one-Keeps, remove_unique_params-Keeps) depth 24

verify_event_ready_to_post-Keeps : (event : Event) → Keeps counts (verify_event_ready_to_post event)
unfolding verify_event_ready_to_post
verify_event_ready_to_post-Keeps event =
    search (counts_rules, get_event_type-Keeps, remove_unique_params-Keeps) depth 24

Events_post_data-Keeps : (event : Event) (typ : String) → Keeps counts (Events.post_data event typ)
unfolding Events.post_data
Events_post_data-Keeps event typ = search (counts_rules, verify_event_ready_to_post-Keeps) depth 14

pub Events_post_data-counts :
    (event : Event) (typ : String) (w : World)
    → counts (final (Events.post_data event typ w)) ≡ counts w
Events_post_data-counts event typ w = (Events_post_data-Keeps event typ).at w

Events_percolate_event_data-Keeps :
    (typ : String) (payload : Fields) → Keeps counts (Events.percolate_event_data typ payload)
unfolding Events.percolate_event_data
Events_percolate_event_data-Keeps typ payload = search (counts_rules) depth 14

pub Events_percolate_event_data-counts :
    (typ : String) (payload : Fields) (w : World)
    → counts (final (Events.percolate_event_data typ payload w)) ≡ counts w
Events_percolate_event_data-counts typ payload w =
    (Events_percolate_event_data-Keeps typ payload).at w

Alerts_post_data-Keeps : (alert : Alert) → Keeps counts (Alerts.post_data alert)
unfolding Alerts.post_data
Alerts_post_data-Keeps alert = search (counts_rules) depth 14

pub Alerts_post_data-counts :
    (alert : Alert) (w : World) → counts (final (Alerts.post_data alert w)) ≡ counts w
Alerts_post_data-counts alert w = (Alerts_post_data-Keeps alert).at w

Crons_post_data-Keeps : (event : Event) → Keeps counts (Crons.post_data event)
unfolding Crons.post_data
Crons_post_data-Keeps event = search (counts_rules) depth 14

pub Crons_post_data-counts :
    (event : Event) (w : World) → counts (final (Crons.post_data event w)) ≡ counts w
Crons_post_data-counts event w = (Crons_post_data-Keeps event).at w

Crons_delete_by_id-Keeps : (id : Ident) → Keeps counts (Crons.delete_by_id id)
unfolding Crons.delete_by_id
Crons_delete_by_id-Keeps id = search (counts_rules) depth 14

pub Crons_delete_by_id-counts :
    (id : Ident) (w : World) → counts (final (Crons.delete_by_id id w)) ≡ counts w
Crons_delete_by_id-counts id w = (Crons_delete_by_id-Keeps id).at w

Triggers_check_service-Keeps : (t : Trigger) → Keeps counts (Triggers.check_service t)
unfolding Triggers.check_service
Triggers_check_service-Keeps t = search (counts_rules) depth 14

Triggers_remove_query-Keeps : (id : Ident) → Keeps counts (Triggers.remove_query id)
unfolding Triggers.remove_query
Triggers_remove_query-Keeps id = search (counts_rules) depth 14

Triggers_post_data-Keeps : (t : Trigger) → Keeps counts (Triggers.post_data t)
unfolding Triggers.post_data
Triggers_post_data-Keeps t =
    search (counts_rules, Triggers_check_service-Keeps, Triggers_remove_query-Keeps) depth 24

pub Triggers_post_data-counts :
    (t : Trigger) (w : World) → counts (final (Triggers.post_data t w)) ≡ counts w
Triggers_post_data-counts t w = (Triggers_post_data-Keeps t).at w

pub ruleset counting = (
  EventTypes_get_one-counts, EventTypes_get_id_by_name-counts, EventTypes_post_data-counts,
  EventTypes_delete_by_id-counts, Events_name_exists-counts, Events_add_mapping-counts,
  Events_post_data-counts, Events_percolate_event_data-counts, Alerts_post_data-counts,
  Crons_post_data-counts, Crons_delete_by_id-counts, Triggers_post_data-counts,
)

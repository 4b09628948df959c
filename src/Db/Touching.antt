-- ===== src/Db/Touching.antt =====
-- The operations of the databases that request changes leave the counters and the rest of the world as they are.
use pz_workflow.Prelude.{String}
use pz_workflow.Json.{Fields}
use pz_workflow.Model.{Ident, EventType, Event, Trigger, TriggerUpdate, Alert}
use pz_workflow.Exec.Steady.{Touched, Touches, touches_rules, Touches-of_Reads}
use pz_workflow.Service.Reading.{get_event_type-Reads}
use pz_workflow.Db.Reading.{
  remove_unique_params-Reads, Triggers_check_service-Reads, Triggers_get_one-Reads,
}
use pz_workflow.Db.EventTypes
use pz_workflow.Db.Events
use pz_workflow.Db.Events.Schema.{construct_event_mapping_schema}
use pz_workflow.Db.Events.Verify.{verify_event_ready_to_post}
use pz_workflow.Db.Alerts
use pz_workflow.Db.Crons
use pz_workflow.Db.Triggers

pub EventTypes_post_data-Touches :
    (k : Touched) (t : EventType) → Touches k (EventTypes.post_data t)
unfolding EventTypes.post_data
EventTypes_post_data-Touches k t = search (touches_rules) depth 14

pub EventTypes_delete_by_id-Touches :
    (k : Touched) (id : Ident) → Touches k (EventTypes.delete_by_id id)
unfolding EventTypes.delete_by_id
EventTypes_delete_by_id-Touches k id = search (touches_rules) depth 14

construct_event_mapping_schema-Touches :
    (k : Touched) (name : String) (m : Fields) → Touches k (construct_event_mapping_schema name m)
unfolding construct_event_mapping_schema
construct_event_mapping_schema-Touches k name m = search (touches_rules) depth 14

pub Events_add_mapping-Touches :
    (k : Touched) (name : String) (m : Fields) → Touches k (Events.add_mapping name m)
unfolding Events.add_mapping
Events_add_mapping-Touches k name m =
    search (touches_rules, construct_event_mapping_schema-Touches) depth 14

verify_event_ready_to_post-Touches :
    (k : Touched) (event : Event) → Touches k (verify_event_ready_to_post event)
unfolding verify_event_ready_to_post
verify_event_ready_to_post-Touches k event =
    search (touches_rules, Touches-of_Reads, get_event_type-Reads, remove_unique_params-Reads) depth
      24

pub Events_post_data-Touches :
    (k : Touched) (event : Event) (typ : String) → Touches k (Events.post_data event typ)
unfolding Events.post_data
Events_post_data-Touches k event typ =
    search (touches_rules, verify_event_ready_to_post-Touches) depth 14

pub Events_delete_by_id-Touches :
    (k : Touched) (typ : String) (id : Ident) → Touches k (Events.delete_by_id typ id)
unfolding Events.delete_by_id
Events_delete_by_id-Touches k typ id = search (touches_rules) depth 14

pub Alerts_post_data-Touches : (k : Touched) (alert : Alert) → Touches k (Alerts.post_data alert)
unfolding Alerts.post_data
Alerts_post_data-Touches k alert = search (touches_rules) depth 14

pub Alerts_delete_by_id-Touches : (k : Touched) (id : Ident) → Touches k (Alerts.delete_by_id id)
unfolding Alerts.delete_by_id
Alerts_delete_by_id-Touches k id = search (touches_rules) depth 14

pub Crons_post_data-Touches : (k : Touched) (event : Event) → Touches k (Crons.post_data event)
unfolding Crons.post_data
Crons_post_data-Touches k event = search (touches_rules) depth 14

pub Crons_delete_by_id-Touches : (k : Touched) (id : Ident) → Touches k (Crons.delete_by_id id)
unfolding Crons.delete_by_id
Crons_delete_by_id-Touches k id = search (touches_rules) depth 14

pub Triggers_post_data-Touches : (k : Touched) (t : Trigger) → Touches k (Triggers.post_data t)
unfolding Triggers.post_data
Triggers_post_data-Touches k t =
    search (touches_rules, Touches-of_Reads, Triggers_check_service-Reads) depth 24

pub Triggers_put_trigger-Touches :
    (k : Touched) (t : Trigger) (update : TriggerUpdate) → Touches k (Triggers.put_trigger t update)
unfolding Triggers.put_trigger
Triggers_put_trigger-Touches k t update = search (touches_rules) depth 14

pub Triggers_delete_trigger-Touches :
    (k : Touched) (id : Ident) → Touches k (Triggers.delete_trigger id)
unfolding Triggers.delete_trigger
Triggers_delete_trigger-Touches k id =
    search (touches_rules, Touches-of_Reads, Triggers_get_one-Reads) depth 20

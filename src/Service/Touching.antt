-- ===== src/Service/Touching.antt =====
-- The methods of workflow/Service.go that request changes change their own counters, and leave the rest of the world as it is.
use pz_workflow.Prelude.{
  String, Bool, true, false, if◌then◌else◌, List, [], ◌∷◌, Option, none, some,
}
use pz_workflow.Json.{Json, null}
use pz_workflow.Backend.{EventRef, own, loop_variable, CronEvent}
use pz_workflow.Model.{
  Ident, EventType, Event, Trigger, TriggerUpdate, Alert, TestElasticsearchBody,
}
use pz_workflow.Exec.{M}
use pz_workflow.Exec.Keeps.{Keeps-bind, Keeps-pure}
use pz_workflow.Exec.Steady.{
  Touched, untouched, event_types, events, triggers, firing, posting, Touches, touches_rules,
  Touches-of_Reads, posting-firing,
}
use pz_workflow.Db.Touching
use pz_workflow.Db.Reading
use pz_workflow.Response.{JsonResponse}
use pz_workflow.Service.Reading.{
  status_bad_request-Reads, status_forbidden-Reads, status_internal_error-Reads,
  status_not_found-Reads, status_ok-Reads, status_created-Reads, status_put_ok-Reads,
}
use pz_workflow.Service.Firing.{check_access-Reads}
use pz_workflow.Service.EventTypes
use pz_workflow.Service.Events
use pz_workflow.Service.Triggers
use pz_workflow.Service.Alerts
use pz_workflow.Service.Stats
use pz_workflow.Service.Jobs
use pz_workflow.Service.Cron

ruleset method_rules = (
  touches_rules, Touches-of_Reads, status_bad_request-Reads, status_forbidden-Reads,
  status_internal_error-Reads, status_not_found-Reads, status_ok-Reads, status_created-Reads,
  status_put_ok-Reads,
)

pub Touches-if {ℓ} :
    {A : Type ℓ} (k : Touched) (b : Bool) (m n : M A)
    → Touches k m
    → Touches k n
    → Touches k (if b then m else n)
Touches-if k true m n h g = h
Touches-if k false m n h g = g

pub post_event_type-Touches : (t : EventType) → Touches event_types (EventTypes.post_event_type t)
unfolding EventTypes.post_event_type
post_event_type-Touches t =
    search
      (
        method_rules, Touches-if, Reading.EventTypes_get_id_by_name-Reads,
        Reading.Events_name_exists-Reads, Touching.EventTypes_post_data-Touches,
        Touching.EventTypes_delete_by_id-Touches, Touching.Events_add_mapping-Touches,
      )
      depth 40 fits 40000

pub delete_event_type-Touches : (id : Ident) → Touches untouched (EventTypes.delete_event_type id)
unfolding EventTypes.delete_event_type
delete_event_type-Touches id =
    search
      (
        method_rules, Reading.EventTypes_get_one-Reads,
        Reading.Triggers_get_triggers_by_event_type_id-Reads,
        Reading.Events_get_events_by_event_type_id-Reads, Touching.EventTypes_delete_by_id-Touches,
      )
      depth 30 fits 20000

pub post_alert-Touches : (alert : Alert) → Touches firing (Alerts.post_alert alert)
unfolding Alerts.post_alert
post_alert-Touches alert = search (method_rules, Touching.Alerts_post_data-Touches) depth 20

pub delete_alert-Touches : (id : Ident) → Touches untouched (Alerts.delete_alert id)
unfolding Alerts.delete_alert
delete_alert-Touches id = search (method_rules, Touching.Alerts_delete_by_id-Touches) depth 20

pub post_trigger-Touches : (t : Trigger) → Touches triggers (Triggers.post_trigger t)
unfolding Triggers.post_trigger
post_trigger-Touches t =
    search (method_rules, Reading.EventTypes_get_one-Reads, Touching.Triggers_post_data-Touches)
      depth 24

pub put_trigger-Touches :
    (id : Ident) (update : TriggerUpdate) → Touches untouched (Triggers.put_trigger id update)
unfolding Triggers.put_trigger
put_trigger-Touches id update =
    search (method_rules, Reading.Triggers_get_one-Reads, Touching.Triggers_put_trigger-Touches)
      depth 24

pub delete_trigger-Touches : (id : Ident) → Touches untouched (Triggers.delete_trigger id)
unfolding Triggers.delete_trigger
delete_trigger-Touches id = search (method_rules, Touching.Triggers_delete_trigger-Touches) depth 20

test_post_data-Touches :
    (k : Touched) (body : TestElasticsearchBody) (id : Ident) → Touches k (Stats.post_data body id)
unfolding Stats.post_data
test_post_data-Touches k body id = search (touches_rules) depth 14

pub test_post-Touches :
    (body : TestElasticsearchBody) → Touches untouched (Stats.test_elasticsearch_post body)
unfolding Stats.test_elasticsearch_post
test_post-Touches body = search (method_rules, Touches-if, test_post_data-Touches) depth 20

pub post_repeating_event-Touches :
    (event : Event) → Touches events (Events.post_repeating_event event)
unfolding Events.post_repeating_event
post_repeating_event-Touches event =
    search
      (
        method_rules, Reading.EventTypes_get_one-Reads, Touching.Crons_post_data-Touches,
        Touching.Crons_delete_by_id-Touches, Touching.Events_post_data-Touches,
      )
      depth 34 fits 20000

pub delete_event-Touches : (id : Ident) → Touches untouched (Events.delete_event id)
unfolding Events.delete_event
delete_event-Touches id =
    search
      (
        method_rules, Reading.Events_lookup_event_type_name_by_event_id-Reads,
        Reading.Crons_item_exists-Reads, Touching.Events_delete_by_id-Touches,
        Touching.Crons_delete_by_id-Touches,
      )
      depth 34 fits 20000

send_to_rabbit_mq-Touches :
    (k : Touched) (message : String) → Touches k (Jobs.send_to_rabbit_mq message)
unfolding Jobs.send_to_rabbit_mq
send_to_rabbit_mq-Touches k message = search (touches_rules) depth 24

own_data-Touches : (k : Touched) (event : Event) (t : EventType) → Touches k (Jobs.own_data event t)
unfolding Jobs.own_data
own_data-Touches k event t = search (method_rules, Reading.as_map-Reads) depth 14

submit-Touches :
    (event : Event) (et : EventType) (t : Trigger) (trigger_id job_id : Ident) (job : String)
    → Touches firing (Jobs.submit event et t trigger_id job_id job)
unfolding Jobs.submit
submit-Touches event et t trigger_id job_id job =
    search (method_rules, own_data-Touches, send_to_rabbit_mq-Touches, post_alert-Touches) depth 24

fire-Touches :
    (event : Event) (et : EventType) (id : Ident) → Touches firing (Jobs.fire event et id)
unfolding Jobs.fire
fire-Touches event et id =
    search (method_rules, Reading.Triggers_get_one-Reads, check_access-Reads, submit-Touches) depth
      30 fits 20000

pub fire_all-Touches :
    (event : Event) (et : EventType) (ids : List Ident) (results : List (Ident × JsonResponse))
    → Touches firing (Events.fire_all event et ids results)
unfolding Events.fire_all
fire_all-Touches event et [] results = Keeps-pure _
fire_all-Touches event et (id ∷ ids) results =
    Keeps-bind _ _ (fire-Touches event et id) λ result. fire_all-Touches event et ids _

fire_all-Posts :
    (event : Event) (et : EventType) (ids : List Ident) (results : List (Ident × JsonResponse))
    → Touches posting (Events.fire_all event et ids results)
fire_all-Posts event et ids results = posting-firing _ (fire_all-Touches event et ids results)

pub post_event-Touches : (event : Event) → Touches posting (Events.post_event event)
unfolding Events.post_event
post_event-Touches event =
    search
      (
        method_rules, Reading.EventTypes_get_one-Reads, Reading.Events_percolate_event_data-Reads,
        Touching.Events_post_data-Touches, fire_all-Posts,
      )
      depth 34 fits 20000

pub read_event-Touches : (k : Touched) (r : EventRef) → Touches k (Cron.read_event r)
unfolding Cron.read_event
read_event-Touches k (own event) = search touches_rules
read_event-Touches k loop_variable = search touches_rules

pub own_map-Touches : (k : Touched) (value : Option Json) → Touches k (Cron.own_map value)
own_map-Touches k none = Keeps-pure _
own_map-Touches k (some null) = Keeps-pure _
own_map-Touches k (some v) = Touches-of_Reads _ _ (Reading.as_map-Reads v)

-- A run of a scheduled job.
pub run-Touches : (c : CronEvent) → Touches posting (Cron.run c)
unfolding Cron.run
run-Touches c =
    search (touches_rules, read_event-Touches, own_map-Touches, post_event-Touches) depth 14

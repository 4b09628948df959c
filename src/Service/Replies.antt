-- ===== src/Service/Replies.antt =====
-- The shape of what the methods of workflow/Service.go answer: deletions, updates and single documents.
pub mod Firing
use pz_workflow.Prelude.{ℕ, refl, inl, String, List, [], ◌∷◌, Option}
use pz_workflow.Model.{
  Ident, EventType, Event, Trigger, TriggerUpdate, Alert, TestElasticsearchBody,
}
use pz_workflow.Backend.{HttpQueryParams, JsonPagination, Error}
use pz_workflow.Exec.{M}
use pz_workflow.Exec.Returns.{
  Returns, Returns-if, Some, Returns-recovered, Returns-bind, Returns-return_if, Returns-pure,
}
use pz_workflow.Response.{JsonResponse, Reply}
use pz_workflow.Response.WellFormed.{IsWellFormed, text, shape_rules, internal_error-IsWellFormed}
use pz_workflow.Service.Lookup
use pz_workflow.Service.EventTypes
use pz_workflow.Service.Events
use pz_workflow.Service.Triggers
use pz_workflow.Service.Alerts
use pz_workflow.Service.Stats

-- A response of `m`, if there is one, is well formed.
abbrev pub Shaped : ℕ → Reply → Type 0
Shaped n m = Returns (Some (IsWellFormed n)) m

pub get_stats-Shaped : Shaped 200 Stats.get_stats
unfolding Stats.get_stats
get_stats-Shaped = search (shape_rules) depth 14

pub get_event_type-Shaped : (id : Ident) → Shaped 200 (Lookup.get_event_type id)
unfolding Lookup.get_event_type
get_event_type-Shaped id = search (shape_rules) depth 24

pub get_event-Shaped : (id : Ident) → Shaped 200 (Events.get_event id)
unfolding Events.get_event
get_event-Shaped id = search (shape_rules) depth 40 fits 40000

pub delete_event-Shaped : (id : Ident) → Shaped 200 (Events.delete_event id)
unfolding Events.delete_event
delete_event-Shaped id = search (shape_rules) depth 40 fits 40000

reply_event_types-Shaped :
    (format : JsonPagination) (types : List EventType) (hits : ℕ)
    → Returns (IsWellFormed 200) (EventTypes.reply_event_types format types hits)
unfolding EventTypes.reply_event_types
reply_event_types-Shaped format types hits = search (shape_rules) depth 14

find_by_name-Shaped :
    (format : JsonPagination) (name : String) (rest : List EventType → M JsonResponse)
    → ((types : List EventType) → Returns (IsWellFormed 200) (rest types))
    → Returns (IsWellFormed 200) (EventTypes.find_by_name format name rest)
unfolding EventTypes.find_by_name
find_by_name-Shaped format name rest h = search (shape_rules, h) depth 24

pub get_all_event_types-Shaped :
    (params : HttpQueryParams) → Shaped 200 (EventTypes.get_all_event_types params)
unfolding EventTypes.get_all_event_types
get_all_event_types-Shaped params =
    search (shape_rules, find_by_name-Shaped, reply_event_types-Shaped) depth 24

pub query_event_types-Shaped :
    (dsl : String) (params : HttpQueryParams) → Shaped 200 (EventTypes.query_event_types dsl params)
unfolding EventTypes.query_event_types
query_event_types-Shaped dsl params = search (shape_rules, reply_event_types-Shaped) depth 24

pub post_event_type-Shaped : (t : EventType) → Shaped 201 (EventTypes.post_event_type t)
unfolding EventTypes.post_event_type
post_event_type-Shaped t = search (shape_rules, Returns-if) depth 40 fits 40000

pub delete_event_type-Shaped : (id : Ident) → Shaped 200 (EventTypes.delete_event_type id)
unfolding EventTypes.delete_event_type
delete_event_type-Shaped id = search (shape_rules) depth 40 fits 40000

event_type_query-Shaped :
    (params : HttpQueryParams) (rest : String → M JsonResponse)
    → ((name : String) → Returns (IsWellFormed 200) (rest name))
    → Returns (IsWellFormed 200) (Events.event_type_query params rest)
unfolding Events.event_type_query
event_type_query-Shaped params rest h = search (shape_rules, h) depth 24

strip_events-Shaped :
    (events : List Event) (rest : List Event → M JsonResponse)
    → ((shown : List Event) → Returns (IsWellFormed 200) (rest shown))
    → Returns (IsWellFormed 200) (Events.strip_events events rest)
unfolding Events.strip_events
strip_events-Shaped [] rest h = h []
strip_events-Shaped (ev ∷ events) rest h =
    search (shape_rules, h, strip_events-Shaped events) depth 24

pub get_all_events-Shaped : (params : HttpQueryParams) → Shaped 200 (Events.get_all_events params)
unfolding Events.get_all_events
get_all_events-Shaped params =
    search (shape_rules, event_type_query-Shaped, strip_events-Shaped) depth 24

pub query_events-Shaped :
    (jsn : String) (params : HttpQueryParams) → Shaped 200 (Events.query_events jsn params)
unfolding Events.query_events
query_events-Shaped jsn params = search (shape_rules, event_type_query-Shaped) depth 24

pub post_repeating_event-Shaped : (event : Event) → Shaped 201 (Events.post_repeating_event event)
unfolding Events.post_repeating_event
post_repeating_event-Shaped event = search (shape_rules) depth 40 fits 40000

pub get_trigger-Shaped : (id : Ident) → Shaped 200 (Triggers.get_trigger id)
unfolding Triggers.get_trigger
get_trigger-Shaped id = search (shape_rules) depth 30

strip_or_fail-Shaped :
    (list : List Trigger) (rest : List Trigger → M JsonResponse)
    → ((shown : List Trigger) → Returns (IsWellFormed 200) (rest shown))
    → Returns (IsWellFormed 200) (Triggers.strip_or_fail list rest)
unfolding Triggers.strip_or_fail
strip_or_fail-Shaped [] rest h = h []
strip_or_fail-Shaped (t ∷ list) rest h = search (shape_rules, h, strip_or_fail-Shaped list) depth 24

pub get_all_triggers-Shaped :
    (params : HttpQueryParams) → Shaped 200 (Triggers.get_all_triggers params)
unfolding Triggers.get_all_triggers
get_all_triggers-Shaped params = search (shape_rules) depth 24

pub query_triggers-Shaped :
    (jsn : String) (params : HttpQueryParams) → Shaped 200 (Triggers.query_triggers jsn params)
unfolding Triggers.query_triggers
query_triggers-Shaped jsn params = search (shape_rules, strip_or_fail-Shaped) depth 24

pub post_trigger-Shaped : (t : Trigger) → Shaped 201 (Triggers.post_trigger t)
unfolding Triggers.post_trigger
post_trigger-Shaped t = search (shape_rules) depth 30

pub put_trigger-Shaped :
    (id : Ident) (update : TriggerUpdate) → Shaped 200 (Triggers.put_trigger id update)
unfolding Triggers.put_trigger
put_trigger-Shaped id update = search (shape_rules) depth 30

pub delete_trigger-Shaped : (id : Ident) → Shaped 200 (Triggers.delete_trigger id)
unfolding Triggers.delete_trigger
delete_trigger-Shaped id = search (shape_rules) depth 30

pub get_alert-Shaped : (id : Ident) → Shaped 200 (Alerts.get_alert id)
unfolding Alerts.get_alert
get_alert-Shaped id = search (shape_rules) depth 30

reply_alerts-Shaped :
    (params : HttpQueryParams) (format : JsonPagination) (found : Option (List Alert) × ℕ × Error)
    (message : String) (on_failure : String → M JsonResponse)
    → ((e : String) → Returns (IsWellFormed 200) (on_failure e))
    → Returns (IsWellFormed 200) (Alerts.reply_alerts params format found message on_failure)
unfolding Alerts.reply_alerts
reply_alerts-Shaped params format found message on_failure h = search (shape_rules, h) depth 24

pub get_all_alerts-Shaped : (params : HttpQueryParams) → Shaped 200 (Alerts.get_all_alerts params)
unfolding Alerts.get_all_alerts
get_all_alerts-Shaped params = search (shape_rules, reply_alerts-Shaped) depth 30

pub query_alerts-Shaped :
    (dsl : String) (params : HttpQueryParams) → Shaped 200 (Alerts.query_alerts dsl params)
unfolding Alerts.query_alerts
query_alerts-Shaped dsl params = search (shape_rules, reply_alerts-Shaped) depth 30

pub post_alert-Shaped : (alert : Alert) → Shaped 201 (Alerts.post_alert alert)
unfolding Alerts.post_alert
post_alert-Shaped alert = search (shape_rules) depth 30

pub delete_alert-Shaped : (id : Ident) → Shaped 200 (Alerts.delete_alert id)
unfolding Alerts.delete_alert
delete_alert-Shaped id = search (shape_rules) depth 30

pub test_get_one-Shaped : (id : Ident) → Shaped 200 (Stats.test_elasticsearch_get_one id)
unfolding Stats.test_elasticsearch_get_one
test_get_one-Shaped id = search (shape_rules) depth 30

pub test_post-Shaped :
    (body : TestElasticsearchBody) → Shaped 201 (Stats.test_elasticsearch_post body)
unfolding Stats.test_elasticsearch_post
test_post-Shaped body = search (shape_rules, Returns-if) depth 30

pub test_version-Shaped : Shaped 200 Stats.test_elasticsearch_version
unfolding Stats.test_elasticsearch_version
test_version-Shaped = Returns-recovered _ (
    Returns-bind _ _ λ version.
      Returns-return_if _ _ _ (internal_error-IsWellFormed 200 _)
        (Returns-pure _ (text version refl (inl refl) refl)))

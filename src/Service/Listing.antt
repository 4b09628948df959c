-- ===== src/Service/Listing.antt =====
-- The listings and the queries request no change.
use pz_workflow.Prelude.{ℕ, String, Bool, Option, none, some, List, [], ◌∷◌}
use pz_workflow.Backend.{Error, JsonPagination, HttpQueryParams}
use pz_workflow.Model.{Ident, EventType, Event, Trigger, Alert}
use pz_workflow.Exec.{M}
use pz_workflow.Exec.Keeps.{
  Reads, reads_rules, Keeps-bind, Keeps-pure, Keeps-deref, Keeps-on_error, Keeps-return_if,
}
use pz_workflow.Response.{JsonResponse}
use pz_workflow.Db.Reading
use pz_workflow.Db.Reading.{remove_unique_params-Reads}
use pz_workflow.Service.Reading.{reply_rules, status_bad_request-Reads, status_internal_error-Reads}
use pz_workflow.Service.EventTypes
use pz_workflow.Service.Alerts
use pz_workflow.Service.Triggers
use pz_workflow.Service.Events
use pz_workflow.Service.Stats

strip_mappings-Reads : (types : List EventType) → Reads (EventTypes.strip_mappings types)
unfolding EventTypes.strip_mappings
strip_mappings-Reads [] = search reads_rules
strip_mappings-Reads (t ∷ types) =
    Keeps-bind _ _ (remove_unique_params-Reads _ _)
      λ mapping. Keeps-bind _ _ (strip_mappings-Reads types) λ rest. Keeps-pure _

reply_event_types-Reads :
    (format : JsonPagination) (types : List EventType) (hits : ℕ)
    → Reads (EventTypes.reply_event_types format types hits)
unfolding EventTypes.reply_event_types
reply_event_types-Reads format types hits = search (reply_rules, strip_mappings-Reads)

find_by_name-Reads :
    (format : JsonPagination) (name : String) (rest : List EventType → M JsonResponse)
    → ((types : List EventType) → Reads (rest types))
    → Reads (EventTypes.find_by_name format name rest)
unfolding EventTypes.find_by_name
find_by_name-Reads format name rest h =
    search
      (reply_rules, h, Reading.EventTypes_get_id_by_name-Reads, Reading.EventTypes_get_one-Reads)
      depth 20

pub get_all_event_types-Reads :
    (params : HttpQueryParams) → Reads (EventTypes.get_all_event_types params)
unfolding EventTypes.get_all_event_types
get_all_event_types-Reads params =
    search
      (reply_rules, find_by_name-Reads, reply_event_types-Reads, Reading.EventTypes_get_all-Reads)
      depth 20

pub query_event_types-Reads :
    (dsl : String) (params : HttpQueryParams) → Reads (EventTypes.query_event_types dsl params)
unfolding EventTypes.query_event_types
query_event_types-Reads dsl params =
    search
      (reply_rules, reply_event_types-Reads, Reading.EventTypes_get_event_types_by_dsl_query-Reads)
      depth 20

pub get_alert-Reads : (id : Ident) → Reads (Alerts.get_alert id)
unfolding Alerts.get_alert
get_alert-Reads id = search (reply_rules, Reading.Alerts_get_one-Reads) depth 20

or_stand_in-Reads :
    {A : Type 0} (stand_in : A) (found : Option A × Bool × Error)
    → Reads (Alerts.or_stand_in stand_in found)
unfolding Alerts.or_stand_in
or_stand_in-Reads stand_in (p, found, some e) = search reads_rules
or_stand_in-Reads stand_in (p, found, none) = search reads_rules

inflate_alert-Reads : (alert : Alert) → Reads (Alerts.inflate_alert alert)
unfolding Alerts.inflate_alert
inflate_alert-Reads alert =
    search
      (
        reads_rules, or_stand_in-Reads, Reading.Triggers_get_one-Reads,
        Reading.Events_get_one-Reads, Reading.Events_lookup_event_type_name_by_event_id-Reads,
      )
      depth 20

inflate_alerts-Reads : (alerts : List Alert) → Reads (Alerts.inflate_alerts alerts)
unfolding Alerts.inflate_alerts
inflate_alerts-Reads [] = search reads_rules
inflate_alerts-Reads (alert ∷ alerts) =
    Keeps-bind _ _ (inflate_alert-Reads alert)
      λ ext. Keeps-bind _ _ (inflate_alerts-Reads alerts) λ rest. Keeps-pure _

reply_alerts-Reads :
    (params : HttpQueryParams) (format : JsonPagination) (found : Option (List Alert) × ℕ × Error)
    (nil_message : String) (on_failure : String → M JsonResponse)
    → ((s : String) → Reads (on_failure s))
    → Reads (Alerts.reply_alerts params format found nil_message on_failure)
unfolding Alerts.reply_alerts
reply_alerts-Reads params format found nil_message on_failure h =
    search (reply_rules, h, inflate_alerts-Reads) depth 20

pub get_all_alerts-Reads : (params : HttpQueryParams) → Reads (Alerts.get_all_alerts params)
unfolding Alerts.get_all_alerts
get_all_alerts-Reads params =
    search
      (
        reply_rules, reply_alerts-Reads, Reading.Alerts_get_all-Reads,
        Reading.Alerts_get_all_by_trigger-Reads,
      )
      depth 20

pub query_alerts-Reads :
    (dsl : String) (params : HttpQueryParams) → Reads (Alerts.query_alerts dsl params)
unfolding Alerts.query_alerts
query_alerts-Reads dsl params =
    search (reply_rules, reply_alerts-Reads, Reading.Alerts_get_alerts_by_dsl_query-Reads) depth 20

pub get_trigger-Reads : (id : Ident) → Reads (Triggers.get_trigger id)
unfolding Triggers.get_trigger
get_trigger-Reads id =
    search (reply_rules, Reading.Triggers_get_one-Reads, Reading.EventTypes_get_one-Reads) depth 24

strip_or_keep-Reads : (triggers : List Trigger) → Reads (Triggers.strip_or_keep triggers)
unfolding Triggers.strip_or_keep
strip_or_keep-Reads [] = search reads_rules
strip_or_keep-Reads (t ∷ triggers) = Keeps-bind _ _ (Reading.EventTypes_get_one-Reads _) λ answer.
    Keeps-bind _ _ (search (reply_rules) depth 12)
      λ shown. Keeps-bind _ _ (strip_or_keep-Reads triggers) λ rest. Keeps-pure _

strip_or_fail-Reads :
    (triggers : List Trigger) (rest : List Trigger → M JsonResponse)
    → ((shown : List Trigger) → Reads (rest shown))
    → Reads (Triggers.strip_or_fail triggers rest)
unfolding Triggers.strip_or_fail
strip_or_fail-Reads [] rest h = h []
strip_or_fail-Reads (t ∷ triggers) rest h =
    Keeps-bind _ _ (Reading.EventTypes_get_one-Reads _) λ answer.
      Keeps-on_error _ _ _ (λ s. status_bad_request-Reads _)
        (Keeps-return_if _ _ _ (status_bad_request-Reads _) (
          Keeps-bind _ _ (Keeps-deref _) λ et.
            Keeps-bind _ _ (remove_unique_params-Reads _ _)
              λ condition. strip_or_fail-Reads triggers _ λ shown. h _))

pub get_all_triggers-Reads : (params : HttpQueryParams) → Reads (Triggers.get_all_triggers params)
unfolding Triggers.get_all_triggers
get_all_triggers-Reads params =
    search (reply_rules, strip_or_keep-Reads, Reading.Triggers_get_all-Reads) depth 20

pub query_triggers-Reads :
    (dsl : String) (params : HttpQueryParams) → Reads (Triggers.query_triggers dsl params)
unfolding Triggers.query_triggers
query_triggers-Reads dsl params =
    search (reply_rules, strip_or_fail-Reads, Reading.Triggers_get_triggers_by_dsl_query-Reads)
      depth 20

pub get_event-Reads : (id : Ident) → Reads (Events.get_event id)
unfolding Events.get_event
get_event-Reads id =
    search
      (
        reply_rules, Reading.Events_lookup_event_type_name_by_event_id-Reads,
        Reading.Events_get_one-Reads,
      )
      depth 24

event_type_query-Reads :
    (params : HttpQueryParams) (rest : String → M JsonResponse)
    → ((query : String) → Reads (rest query))
    → Reads (Events.event_type_query params rest)
unfolding Events.event_type_query
event_type_query-Reads params rest h =
    search (reply_rules, h, Reading.EventTypes_get_one-Reads) depth 20

strip_events-Reads :
    (events : List Event) (rest : List Event → M JsonResponse)
    → ((shown : List Event) → Reads (rest shown))
    → Reads (Events.strip_events events rest)
unfolding Events.strip_events
strip_events-Reads [] rest h = h []
strip_events-Reads (ev ∷ events) rest h =
    Keeps-bind _ _ (Reading.EventTypes_get_one-Reads _) λ answer.
      Keeps-return_if _ _ _ (status_internal_error-Reads _) (
        Keeps-on_error _ _ _ (λ s. status_internal_error-Reads _)
          (Keeps-bind _ _ (Keeps-deref _) λ et.
            Keeps-bind _ _ (remove_unique_params-Reads _ _)
              λ payload. strip_events-Reads events _ λ shown. h _))

pub get_all_events-Reads : (params : HttpQueryParams) → Reads (Events.get_all_events params)
unfolding Events.get_all_events
get_all_events-Reads params =
    search (reply_rules, event_type_query-Reads, strip_events-Reads, Reading.Events_get_all-Reads)
      depth 20

pub query_events-Reads :
    (jsn : String) (params : HttpQueryParams) → Reads (Events.query_events jsn params)
unfolding Events.query_events
query_events-Reads jsn params =
    search (reply_rules, event_type_query-Reads, Reading.Events_get_events_by_dsl_query-Reads) depth
      20

pub get_stats-Reads : Reads Stats.get_stats
unfolding Stats.get_stats
get_stats-Reads = search reply_rules

test_get_one-Reads : (id : Ident) → Reads (Stats.get_one id)
unfolding Stats.get_one
test_get_one-Reads id = search reads_rules depth 12

pub test_elasticsearch_version-Reads : Reads Stats.test_elasticsearch_version
unfolding Stats.test_elasticsearch_version
test_elasticsearch_version-Reads = search reply_rules depth 12

pub test_elasticsearch_get_one-Reads : (id : Ident) → Reads (Stats.test_elasticsearch_get_one id)
unfolding Stats.test_elasticsearch_get_one
test_elasticsearch_get_one-Reads id = search (reply_rules, test_get_one-Reads) depth 20

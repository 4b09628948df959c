-- ===== src/Db/Reading.antt =====
-- The questions of the databases request no change.
use pz_workflow.Prelude.{String, Option, List, [], ◌∷◌}
use pz_workflow.Json.{Json, Fields, obj}
use pz_workflow.Backend.{Backend, Result, Error, SearchResult, JsonPagination}
use pz_workflow.Model.{Ident, Trigger}
use pz_workflow.Exec.Keeps.{
  Reads, reads_rules, Keeps-bind, Keeps-pure, Keeps-attempt, Keeps-on_error, Keeps-return_if,
}
use pz_workflow.Unique.{as_map, remove_unique_params}
use pz_workflow.Db.Hits.{decode_hits, decode_result}
use pz_workflow.Db.EventTypes
use pz_workflow.Db.Alerts
use pz_workflow.Db.Crons
use pz_workflow.Db.Triggers
use pz_workflow.Db.Events

pub as_map-Reads : (v : Json) → Reads (as_map v)
unfolding as_map
as_map-Reads (obj m) = search reads_rules
as_map-Reads _ = search reads_rules

pub remove_unique_params-Reads : (k : String) (m : Fields) → Reads (remove_unique_params k m)
unfolding remove_unique_params
remove_unique_params-Reads k m = search (reads_rules, as_map-Reads)

module _ {ℓ} {A : Type ℓ} (unmarshal : Backend → String → Result A) where
  pub decode_hits-Reads : (hits : List (Option String)) → Reads (decode_hits unmarshal hits)
  unfolding decode_hits
  decode_hits-Reads [] = search reads_rules
  decode_hits-Reads (hit ∷ hits) = Keeps-bind _ _ (search reads_rules) λ source.
      Keeps-bind _ _ (search reads_rules) λ decoded.
        Keeps-attempt _ _ _ (λ s. Keeps-pure _)
          λ a. Keeps-bind _ _ (decode_hits-Reads hits) (λ rest. Keeps-pure _)

  pub decode_result-Reads : (result : SearchResult) → Reads (decode_result unmarshal result)
  unfolding decode_result
  decode_result-Reads result = search (reads_rules, decode_hits-Reads)

ruleset rules = (reads_rules, decode_result-Reads)

pub EventTypes_listed-Reads :
    (method : String) (found : Option SearchResult × Error) → Reads (EventTypes.listed method found)
unfolding EventTypes.listed
EventTypes_listed-Reads method found = search (rules) depth 12

pub Alerts_listed-Reads :
    (method : String) (found : Option SearchResult × Error) → Reads (Alerts.listed method found)
unfolding Alerts.listed Alerts.collect
Alerts_listed-Reads method found = search (rules) depth 12

pub Events_listed-Reads :
    (method : String) (found : Option SearchResult × Error) → Reads (Events.listed method found)
unfolding Events.listed
Events_listed-Reads method found = search (rules) depth 12

pub Triggers_listed-Reads :
    (method : String) (shown : Trigger → Trigger) (found : Option SearchResult × Error)
    → Reads (Triggers.listed method shown found)
unfolding Triggers.listed
Triggers_listed-Reads method shown found = search (rules) depth 12

pub EventTypes_get_all-Reads : (format : JsonPagination) → Reads (EventTypes.get_all format)
unfolding EventTypes.get_all
EventTypes_get_all-Reads format = search (rules, EventTypes_listed-Reads) depth 12

pub EventTypes_get_event_types_by_dsl_query-Reads :
    (dsl : String) → Reads (EventTypes.get_event_types_by_dsl_query dsl)
unfolding EventTypes.get_event_types_by_dsl_query
EventTypes_get_event_types_by_dsl_query-Reads dsl = search (rules, EventTypes_listed-Reads) depth 12

pub EventTypes_get_one-Reads : (id : Ident) → Reads (EventTypes.get_one id)
unfolding EventTypes.get_one
EventTypes_get_one-Reads id = search (rules) depth 12

pub EventTypes_get_id_by_name-Reads :
    (format : Option JsonPagination) (name : String) → Reads (EventTypes.get_id_by_name format name)
unfolding EventTypes.get_id_by_name
EventTypes_get_id_by_name-Reads format name = search (rules) depth 12

pub Alerts_get_all-Reads : (format : JsonPagination) → Reads (Alerts.get_all format)
unfolding Alerts.get_all
Alerts_get_all-Reads format = search (rules, Alerts_listed-Reads) depth 12

pub Alerts_get_alerts_by_dsl_query-Reads :
    (dsl : String) → Reads (Alerts.get_alerts_by_dsl_query dsl)
unfolding Alerts.get_alerts_by_dsl_query
Alerts_get_alerts_by_dsl_query-Reads dsl = search (rules, Alerts_listed-Reads) depth 12

pub Alerts_get_all_by_trigger-Reads :
    (format : JsonPagination) (id : Ident) → Reads (Alerts.get_all_by_trigger format id)
unfolding Alerts.get_all_by_trigger Alerts.collect
Alerts_get_all_by_trigger-Reads format id = search (rules) depth 12

pub Alerts_get_one-Reads : (id : Ident) → Reads (Alerts.get_one id)
unfolding Alerts.get_one
Alerts_get_one-Reads id = search (rules) depth 12

pub Crons_get_all-Reads : Reads Crons.get_all
unfolding Crons.get_all
Crons_get_all-Reads = search rules depth 12

pub Crons_exists-Reads : Reads Crons.exists
unfolding Crons.exists
Crons_exists-Reads = search rules depth 12

pub Crons_item_exists-Reads : (id : Ident) → Reads (Crons.item_exists id)
unfolding Crons.item_exists
Crons_item_exists-Reads id = search (rules) depth 12

pub Triggers_check_service-Reads : (trigger : Trigger) → Reads (Triggers.check_service trigger)
unfolding Triggers.check_service
Triggers_check_service-Reads trigger = search (rules) depth 12

pub Triggers_get_all-Reads : (format : JsonPagination) → Reads (Triggers.get_all format)
unfolding Triggers.get_all
Triggers_get_all-Reads format = search (rules, Triggers_listed-Reads) depth 12

pub Triggers_get_triggers_by_dsl_query-Reads :
    (dsl : String) → Reads (Triggers.get_triggers_by_dsl_query dsl)
unfolding Triggers.get_triggers_by_dsl_query
Triggers_get_triggers_by_dsl_query-Reads dsl = search (rules, Triggers_listed-Reads) depth 12

pub Triggers_get_one-Reads : (id : Ident) → Reads (Triggers.get_one id)
unfolding Triggers.get_one
Triggers_get_one-Reads id = search (rules) depth 12

pub Triggers_get_triggers_by_event_type_id-Reads :
    (format : Option JsonPagination) (id : Ident)
    → Reads (Triggers.get_triggers_by_event_type_id format id)
unfolding Triggers.get_triggers_by_event_type_id
Triggers_get_triggers_by_event_type_id-Reads format id =
    search (rules, Triggers_listed-Reads) depth 12

pub Events_mapping_exists-Reads : (mapping : String) → Reads (Events.mapping_exists mapping)
unfolding Events.mapping_exists
Events_mapping_exists-Reads mapping = search (rules) depth 12

pub Events_get_all-Reads :
    (mapping : String) (format : JsonPagination) → Reads (Events.get_all mapping format)
unfolding Events.get_all
Events_get_all-Reads mapping format =
    search (rules, Events_listed-Reads, Events_mapping_exists-Reads) depth 12

pub Events_get_events_by_dsl_query-Reads :
    (mapping jsn : String) → Reads (Events.get_events_by_dsl_query mapping jsn)
unfolding Events.get_events_by_dsl_query
Events_get_events_by_dsl_query-Reads mapping jsn =
    search (rules, Events_listed-Reads, Events_mapping_exists-Reads) depth 12

pub Events_get_events_by_event_type_id-Reads :
    (format : Option JsonPagination) (mapping : String) (id : Ident)
    → Reads (Events.get_events_by_event_type_id format mapping id)
unfolding Events.get_events_by_event_type_id
Events_get_events_by_event_type_id-Reads format mapping id =
    search (rules, Events_listed-Reads, Events_mapping_exists-Reads) depth 12

pub Events_find_type-Reads : (id : Ident) (types : List String) → Reads (Events.find_type id types)
unfolding Events.find_type
Events_find_type-Reads id [] = search rules
Events_find_type-Reads id (typ ∷ types) = Keeps-bind _ _ (search reads_rules) λ answer.
    Keeps-on_error _ _ _ (λ s. Keeps-pure _)
      (Keeps-return_if _ _ _ (Keeps-pure _) (Events_find_type-Reads id types))

pub Events_lookup_event_type_name_by_event_id-Reads :
    (id : Ident) → Reads (Events.lookup_event_type_name_by_event_id id)
unfolding Events.lookup_event_type_name_by_event_id
Events_lookup_event_type_name_by_event_id-Reads id = search (rules, Events_find_type-Reads) depth 12

pub Events_name_exists-Reads : (name : String) → Reads (Events.name_exists name)
unfolding Events.name_exists
Events_name_exists-Reads name = search (rules) depth 12

pub Events_get_one-Reads : (mapping : String) (id : Ident) → Reads (Events.get_one mapping id)
unfolding Events.get_one
Events_get_one-Reads mapping id = search (rules) depth 12

pub Events_percolate_event_data-Reads :
    (name : String) (payload : Fields) → Reads (Events.percolate_event_data name payload)
unfolding Events.percolate_event_data
Events_percolate_event_data-Reads name payload = search (rules) depth 12

-- ===== src/Db/Events.antt =====
-- workflow/EventDB.go; the schema of an event type and the check of an event are in the children.
pub mod Schema
pub mod Verify
use pz_workflow.Prelude.{
  ℕ, String, ◌<>◌, Bool, true, false, not, Option, none, some, List, [], ◌∷◌, ◌==◌, if◌then◌else◌,
}
use pz_workflow.Json.{Fields, obj, end, field}
use pz_workflow.Model.{Ident, Event}
use pz_workflow.Backend.{
  Error, events, event_doc, JsonPagination, SearchResult, post, delete, set_mapping,
}
use pz_workflow.Exec.{
  M, pure, deref, ask, send, compute, ◌>>=◌, on_error, return_if, attempt, on_nil,
}
use pz_workflow.Db.Hits.{decode_result}
use pz_workflow.Db.Events.Schema.{construct_event_mapping_schema}
use pz_workflow.Db.Events.Verify.{verify_event_ready_to_post}

unfoldable pub post_data : Event → String → M Error
post_data event typ = do
  refused ← verify_event_ready_to_post event
  on_error refused (λ e. pure (some e))
      do
        let doc = event_doc event
        (response, failure) ←
            send (post events typ event.event_id doc) (λ b. b.posted events typ event.event_id doc)
        on_error failure (λ e. pure (some ("EventDB.PostData failed: " <> e)))
            do
              result ← deref response
              pure (if result.created then none else some "EventDB.PostData failed: not created")

-- `if mapping != "" { exists, err = TypeExists(mapping) }`
unfoldable pub mapping_exists : String → M (Bool × Error)
mapping_exists mapping =
    return_if (mapping == "") (pure (true, none)) (ask (λ b. b.type_exists events mapping))

-- The end of each listing.
unfoldable pub listed : String → Option SearchResult × Error → M (Option (List Event) × ℕ × Error)
listed method (found, failure) =
    on_error failure (λ e. pure (none, 0, some (method <> " failed: " <> e)))
      (on_nil found (pure (none, 0, some (method <> " failed: no searchResult"))) λ result. do
        decoded ← decode_result (λ b. b.unmarshal_event) result
        attempt decoded (λ e. pure (none, 0, some e))
            λ list. pure (some list, result.total_hits, none))

unfoldable pub get_all : String → JsonPagination → M (Option (List Event) × ℕ × Error)
get_all mapping format = do
  (exists, failure) ← mapping_exists mapping
  on_error failure (λ e. pure (some [], 0, some e))
      do
        return_if (not exists) (pure (none, 0, some ("Type " <> mapping <> " does not exist (1)")))
            do
              found ← ask (λ b. b.filter_by_match_all events mapping format)
              listed "EventDB.GetAll" found

unfoldable pub get_events_by_dsl_query : String → String → M (Option (List Event) × ℕ × Error)
get_events_by_dsl_query mapping jsn = do
  (exists, failure) ← mapping_exists mapping
  on_error failure (λ e. pure (some [], 0, some e))
      do
        return_if (not exists) (pure (none, 0, some ("Type " <> mapping <> " does not exist (2)")))
            do
              found ← ask (λ b. b.search_by_json events mapping jsn)
              listed "EventDB.GetEventsByDslQuery" found

unfoldable pub get_events_by_event_type_id :
    Option JsonPagination → String → Ident → M (Option (List Event) × ℕ × Error)
get_events_by_event_type_id format mapping event_type_id = do
  (exists, failure) ← mapping_exists mapping
  on_error failure (λ e. pure (some [], 0, some e))
      do
        return_if (not exists) (pure (none, 0, some ("Type " <> mapping <> " does not exist (3)")))
            do
              found ←
                  ask
                    (λ b. b.filter_by_term_query events mapping "eventTypeId" event_type_id format)
              listed "EventDB.GetEventsByEventTypeId" found

-- The first type that has the item; the empty text if none has.
unfoldable pub find_type : Ident → List String → M (String × Error)
find_type id [] = pure ("", none)
find_type id (typ ∷ types) = do
  (there, failure) ← ask (λ b. b.item_exists events typ id)
  on_error failure (λ e. pure ("", some e))
      (return_if there (pure (typ, none)) (find_type id types))

unfoldable pub lookup_event_type_name_by_event_id : Ident → M (String × Error)
lookup_event_type_name_by_event_id id = do
  (types, failure) ← ask (λ b. b.get_types events)
  on_error failure (λ e. pure ("", some e))
      do
        (mapping, failed) ← find_type id types
        on_error failed (λ e. pure ("", some e))
            do
              pure (
                  if mapping == ""
                  then (
                    "",
                    some (
                        "EventDB.lookupEventTypeNameByEventID failed: [Item " <> id
                        <> " in index events does not exist]"),
                  )
                  else (mapping, none))

unfoldable pub name_exists : String → M (Bool × Error)
name_exists name = ask (λ b. b.type_exists events name)

unfoldable pub get_one : String → Ident → M (Option Event × Bool × Error)
get_one mapping id = do
  (answer, failure) ← ask (λ b. b.get_by_id events mapping id)
  on_error failure (λ e. pure (none, false, some ("EventDB.GetOne failed: " <> e)))
      (on_nil answer (pure (none, true, some "EventDB.GetOne failed: no getResult")) λ result. do
        source ← deref result.source
        decoded ← compute (λ b. b.unmarshal_event source)
        attempt decoded (λ e. pure (none, result.found, some e))
            λ event. pure (some event, result.found, none))

unfoldable pub delete_by_id : String → Ident → M (Bool × Error)
delete_by_id mapping id = do
  (answer, failure) ← send (delete events mapping id) (λ b. b.deleted events mapping id)
  on_error failure
      (λ e. do
        result ← deref answer
        pure (result.found, some ("EventDB.DeleteById failed: " <> e)))
      (on_nil answer (pure (false, some "EventDB.DeleteById failed: no deleteResult"))
        λ result. pure (result.found, none))

unfoldable pub add_mapping : String → Fields → M Error
add_mapping name mapping = do
  schema ← construct_event_mapping_schema name mapping
  attempt schema (λ e. pure (some ("EventDB.AddMapping failed: " <> e)))
      λ jsn. do
        failure ← send (set_mapping events name jsn) (λ b. b.mapping_set events name jsn)
        on_error failure (λ e. pure (some ("EventDB.AddMapping SetMapping failed: " <> e)))
            (pure none)

-- The ids of the triggers whose query the event's data meets.
unfoldable pub percolate_event_data : String → Fields → M (Option (List Ident) × Error)
percolate_event_data event_type payload = do
  (matches, failure) ← ask (λ b. b.percolate event_type (obj (field "data" (obj payload) end)))
  on_error failure (λ e. pure (none, some ("EventDB.PercolateEventData failed: " <> e)))
      (on_nil matches (pure (none, some "EventDB.PercolateEventData failed: no percolateResult"))
        λ ids. pure (some ids, none))

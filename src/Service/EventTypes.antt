-- ===== src/Service/EventTypes.antt =====
-- The methods of workflow/Service.go for event types. `Service.GetEventType` is in Service/Lookup.
use pz_workflow.Prelude.{
  ℕ, String, ◌<>◌, Bool, not, Option, none, some, List, [], ◌∷◌, length, is_empty, ltb, ◌==◌, ◌||◌,
  if◌then◌else◌,
}
use mathlib.Core.Option
use pz_workflow.Json.{Json}
use pz_workflow.Model.{
  Ident, EventType, event_type_data, event_types_data, no_data, incr_event_types,
}
use pz_workflow.Backend.{JsonPagination, HttpQueryParams}
use pz_workflow.Exec.{
  M, pure, deref, ask, compute, count, recovered, ◌>>=◌, ◌>>◌, on_error, return_if, attempt, on_nil,
}
use pz_workflow.Response.{
  Reply, JsonResponse, status_bad_request, status_forbidden, status_internal_error,
  status_not_found, status_ok, status_created, paginated,
}
use pz_workflow.Texts.{contains, has_suffix}
use pz_workflow.Unique.{add_unique_params, remove_unique_params}
use pz_workflow.Db.EventTypes
use pz_workflow.Db.Events
use pz_workflow.Db.Triggers
use pz_workflow.Service.Lookup.{is_system_event}

-- `for i := 0; i < len(eventtypes); i++ { … }`
unfoldable pub strip_mappings : List EventType → M (List EventType)
strip_mappings [] = pure []
strip_mappings (t ∷ types) = do
  mapping ← remove_unique_params t.name t.mapping
  rest ← strip_mappings types
  pure (record t { mapping = mapping } ∷ rest)

-- The common end of the two listings.
unfoldable pub reply_event_types : JsonPagination → List EventType → ℕ → M JsonResponse
unfolding strip_mappings
reply_event_types format types total_hits = do
  stripped ← strip_mappings types
  resp ← status_ok (event_types_data stripped)
  pure (paginated format total_hits resp)

-- The event type of a name, as a list. An error beside a name that is not found is passed over.
unfoldable pub find_by_name :
    JsonPagination → String → (List EventType → M JsonResponse) → M JsonResponse
find_by_name format name rest = do
  (id, found_name, failure) ← EventTypes.get_id_by_name (some format) name
  return_if (not found_name) (rest []) (
      on_nil id (rest []) λ event_type_id.
        on_error failure (λ e. status_bad_request (some e))
          do
            (event_type, found_type, failed) ← EventTypes.get_one event_type_id
            on_error failed (λ e. status_internal_error (some e))
                (return_if (not found_type) (rest [])
                  (on_nil event_type (rest []) λ t. rest (t ∷ []))))

unfoldable pub get_all_event_types : HttpQueryParams → Reply
unfolding find_by_name reply_event_types
get_all_event_types params = recovered do
  pagination ← compute (λ b. b.new_pagination params)
  attempt pagination (λ e. status_bad_request (some e))
      λ format. do
        name_param ← compute (λ b. b.get_as_string params "name" "")
        attempt name_param (λ e. status_bad_request (some e))
            λ name.
              return_if (not (name == ""))
                (find_by_name format name λ types. reply_event_types format types (length types))
                (do
                  (types, total_hits, failure) ← EventTypes.get_all format
                  on_error failure (λ e. status_internal_error (some e))
                      (on_nil types (status_internal_error (some "getalleventtypes returned nil"))
                        λ list. reply_event_types format list total_hits))

unfoldable pub query_event_types : String → HttpQueryParams → Reply
unfolding reply_event_types
query_event_types dsl params = recovered do
  pagination ← compute (λ b. b.new_pagination params)
  attempt pagination (λ e. status_bad_request (some e))
      λ format. do
        synced ← compute (λ b. b.sync_pagination format dsl)
        attempt synced (λ e. status_bad_request (some e))
            λ (query, format'). do
              (types, total_hits, failure) ← EventTypes.get_event_types_by_dsl_query query
              on_error failure (λ e. status_bad_request (some e))
                  (on_nil types (status_internal_error (some "queryeventtypes returned nil"))
                    λ list. reply_event_types format' list total_hits)

-- `for k := range vars { if strings.Contains(k, "~") { … } }`
unfoldable pub tilde_name : List (String × Json) → Option String
tilde_name [] = none
tilde_name ((k, v) ∷ vars) = if contains k "~" then some k else tilde_name vars

unfoldable pub post_event_type : EventType → Reply
post_event_type event_type = recovered do
  (name_found, failure) ← Events.name_exists event_type.name
  on_error failure (λ e. status_internal_error (some e))
      do
        return_if name_found (status_bad_request (some "EventType Name already exists")) do
          (id1, found, failed) ← EventTypes.get_id_by_name none event_type.name
          on_error failed (λ e. status_internal_error (some e))
              do
                return_if found
                    (status_bad_request (
                      some (
                        "EventType Name already exists under EventTypeId "
                        <> Option.get_or id1 "<nil>")))
                    do
                      id ← ask (λ b. b.new_ident)
                      now ← ask (λ b. b.now)
                      let response = record event_type { event_type_id = id; created_on = now }
                      vars ← compute (λ b. b.vars_from_struct event_type.mapping)
                      attempt vars
                          (λ e. status_bad_request (some ("EventTypeDB.PostData failed: " <> e)))
                          λ vs.
                            on_error (tilde_name vs)
                              (λ k. status_bad_request (
                                some (
                                  "EventTypeDB.PostData failed: Variable names cannot contain '"
                                  <> event_type.name <> "~': [" <> k <> "]")))
                              do
                                let stored = record response {
                                  mapping = add_unique_params event_type.name event_type.mapping;
                                }
                                refused ← EventTypes.post_data stored
                                on_error refused
                                    (λ e.
                                      if has_suffix e "was not recognized as a valid mapping type"
                                      then status_bad_request (some e)
                                      else status_internal_error (some e))
                                    do
                                      unmapped ← Events.add_mapping event_type.name stored.mapping
                                      on_error unmapped
                                          (λ e. do
                                            EventTypes.delete_by_id id
                                            status_internal_error (some e))
                                          do
                                            count incr_event_types
                                            status_created (event_type_data response)

abbrev pub hit_any {ℓ} : {A : Type ℓ} → ℕ → Option (List A) → Bool
hit_any hits none = ltb 0 hits
hit_any hits (some list) = ltb 0 hits || not (is_empty list)

-- The refusals of `DeleteEventType` for a type that is found: none, and the deletion goes on.
unfoldable pub delete_event_type : Ident → Reply
delete_event_type id = recovered do
  (found_type, found, failure) ← EventTypes.get_one id
  return_if (not found) (status_not_found failure) do
    on_error failure (λ e. status_bad_request (some e))
        do
          event_type ← deref found_type
          return_if (is_system_event event_type.name)
              (status_bad_request (some "Deleting system eventTypes is prohibited"))
              do
                (triggers, hits, failed) ← Triggers.get_triggers_by_event_type_id none id
                on_error failed (λ e. status_bad_request (some e))
                    do
                      return_if (hit_any hits triggers)
                          (status_forbidden
                            (some "Deleting eventTypes that are in use is prohibited"))
                          do
                            (events, hits2, failed2) ←
                                Events.get_events_by_event_type_id none event_type.name id
                            on_error failed2 (λ e. status_bad_request (some e))
                                do
                                  return_if (hit_any hits2 events)
                                      (status_forbidden
                                        (some "Deleting eventTypes that are in use is prohibited"))
                                      do
                                        (deleted, failed3) ← EventTypes.delete_by_id id
                                        return_if (not deleted) (status_not_found failed3) (
                                            on_error failed3 (λ e. status_bad_request (some e))
                                              (status_ok no_data))

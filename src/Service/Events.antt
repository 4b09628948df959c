-- ===== src/Service/Events.antt =====
-- The methods of workflow/Service.go for events.
pub mod Results
pub mod Repeating
use pz_workflow.Prelude.{
  ℕ, zero, suc, ◌%◌, String, Bool, true, false, not, Option, none, some, List, [], ◌∷◌, length,
  ◌==◌, if◌then◌else◌,
}
use pz_workflow.Model.{Ident, Event, EventType, event_data, events_data, no_data, incr_events}
use pz_workflow.Backend.{
  Backend, JsonPagination, HttpQueryParams, Error, Result, ok, err, own, CronEvent, add_job,
  remove_job,
}
use pz_workflow.Exec.{
  M, pure, deref, ask, send, request, compute, count, recovered, ◌>>=◌, ◌>>◌, on_error, return_if,
  attempt, on_nil,
}
use pz_workflow.Response.{
  Reply, JsonResponse, status_bad_request, status_internal_error, status_not_found, status_ok,
  status_created, paginated,
}
use pz_workflow.Unique.{add_unique_params, remove_unique_params}
use pz_workflow.Db.EventTypes
use pz_workflow.Db.Events
use pz_workflow.Db.Crons
use pz_workflow.Service.Lookup.{is_system_event}
use pz_workflow.Service.Jobs.{fire}

unfoldable pub get_event : Ident → Reply
get_event id = recovered do
  (mapping, failure) ← Events.lookup_event_type_name_by_event_id id
  return_if (mapping == "") (status_not_found failure) do
    on_error failure (λ e. status_bad_request (some e))
        do
          (event, found, failed) ← Events.get_one mapping id
          return_if (not found) (status_not_found failed) do
            on_error failed (λ e. status_bad_request (some e))
                do
                  ev ← deref event
                  payload ← remove_unique_params mapping ev.payload
                  status_ok (event_data (record ev { payload = payload }))

-- The name of the event type that the parameters ask for; by id wins, and no parameter is no name.
unfoldable pub event_type_query : HttpQueryParams → (String → M JsonResponse) → M JsonResponse
event_type_query params rest = do
  id_param ← compute (λ b. b.get_as_string params "eventTypeId" "")
  attempt id_param (λ e. status_bad_request (some e))
      λ event_type_id. do
        name_param ← compute (λ b. b.get_as_string params "eventTypeName" "")
        attempt name_param (λ e. status_bad_request (some e))
            λ event_type_name.
              return_if (not (event_type_id == ""))
                (do
                  (event_type, found, failure) ← EventTypes.get_one event_type_id
                  return_if (not found) (status_not_found failure) do
                    on_error failure (λ e. status_bad_request (some e))
                        do et ← deref event_type; rest et.name)
                (rest event_type_name)

-- `GetAllEvents` takes the type's name out of each event's data.
unfoldable pub strip_events : List Event → (List Event → M JsonResponse) → M JsonResponse
strip_events [] rest = rest []
strip_events (ev ∷ events) rest = do
  (event_type, found, failure) ← EventTypes.get_one ev.event_type_id
  return_if (not found) (status_internal_error failure) do
    on_error failure (λ e. status_internal_error (some e))
        do
          et ← deref event_type
          payload ← remove_unique_params et.name ev.payload
          strip_events events λ shown. rest (record ev { payload = payload } ∷ shown)

abbrev listing {ℓ} : {A : Type ℓ} → Option (List A) → List A
listing none = []
listing (some list) = list

unfoldable pub get_all_events : HttpQueryParams → Reply
unfolding event_type_query strip_events
get_all_events params = recovered do
  pagination ← compute (λ b. b.new_pagination params)
  attempt pagination (λ e. status_bad_request (some e))
      λ format. event_type_query params λ query. do
        (events, total_hits, failure) ← Events.get_all query format
        on_error failure (λ e. status_internal_error (some e))
            (strip_events (listing events) λ shown. do
              resp ← status_ok (events_data shown)
              pure (paginated format total_hits resp))

unfoldable pub query_events : String → HttpQueryParams → Reply
unfolding event_type_query
query_events jsn params = recovered do
  pagination ← compute (λ b. b.new_pagination params)
  attempt pagination (λ e. status_bad_request (some e))
      λ format. event_type_query params λ query. do
        synced ← compute (λ b. b.sync_pagination format jsn)
        attempt synced (λ e. status_bad_request (some e))
            λ (jsn', format'). do
              (events, total_hits, failure) ← Events.get_events_by_dsl_query query jsn'
              on_error failure (λ e. status_bad_request (some e))
                  do
                    resp ← status_ok (events_data (listing events))
                    pure (paginated format' total_hits resp)

unfoldable pub post_repeating_event : Event → Reply
post_repeating_event event = recovered do
  (event_type, found, failure) ← EventTypes.get_one event.event_type_id
  on_error failure (λ e. status_bad_request (some e))
      do
        return_if (not found) (status_bad_request failure) do
          et ← deref event_type
          unparsed ← compute (λ b. b.cron_parse event.cron_schedule)
          on_error unparsed (λ e. status_bad_request (some e))
              do
                id ← ask (λ b. b.new_ident)
                now ← ask (λ b. b.now)
                let response = record event { event_id = id; created_on = now }
                let stored = record response { payload = add_unique_params et.name event.payload }
                let job : CronEvent = record { event = own stored; event_type_name = et.name }
                unscheduled ←
                    send (add_job event.cron_schedule job) (λ b. b.job_added event.cron_schedule)
                on_error unscheduled (λ e. status_internal_error (some e))
                    do
                      unlisted ← Crons.post_data stored
                      on_error unlisted (λ e. status_internal_error (some e))
                          do
                            refused ← Events.post_data stored et.name
                            on_error refused
                                (λ e. do
                                  Crons.delete_by_id id
                                  request (remove_job id)
                                  status_internal_error (some e))
                                do count incr_events; status_created (event_data response)

-- `results[id] = resp`
unfoldable pub record_result :
    Ident → Option JsonResponse → List (Ident × JsonResponse) → List (Ident × JsonResponse)
record_result id none results = results
record_result id (some resp) [] = (id, resp) ∷ []
record_result id (some resp) ((j, old) ∷ results) =
    if j == id then (id, resp) ∷ results else (j, old) ∷ record_result id (some resp) results

-- The goroutines, each run to its end, in the order in which the scheduler takes them.
unfoldable pub fire_all :
    Event → EventType → List Ident → List (Ident × JsonResponse) → M (List (Ident × JsonResponse))
unfolding fire record_result
fire_all event event_type [] results = pure results
fire_all event event_type (id ∷ ids) results = do
  result ← fire event event_type id
  fire_all event event_type ids (record_result id result results)

-- The first result of a `range` over the map, which may begin anywhere.
unfoldable pub nth_result : ℕ → List (Ident × JsonResponse) → Option JsonResponse
nth_result n [] = none
nth_result zero ((id, resp) ∷ results) = some resp
nth_result (suc n) ((id, resp) ∷ results) = nth_result n results

unfoldable pub any_result : Backend → ℕ → List (Ident × JsonResponse) → Option JsonResponse
unfolding nth_result
any_result b n results = nth_result (n % length results) results

unfoldable pub post_event : Event → Reply
unfolding fire_all any_result
post_event event = recovered do
  (event_type, found, failure) ← EventTypes.get_one event.event_type_id
  on_error failure (λ e. status_bad_request (some e))
      do
        return_if (not found) (status_bad_request failure) do
          et ← deref event_type
          id ← ask (λ b. b.new_ident)
          now ← ask (λ b. b.now)
          let response = record event { event_id = id; created_on = now }
          let stored = record response { payload = add_unique_params et.name event.payload }
          refused ← Events.post_data stored et.name
          on_error refused (λ e. status_bad_request (some e))
              do
                (matches, failed) ← Events.percolate_event_data et.name stored.payload
                on_error failed (λ e. status_bad_request (some e))
                    do
                      ids ← deref matches
                      order ← ask (λ b. b.schedule ids)
                      results ← fire_all stored et order []
                      chosen ← ask (λ b. b.chosen (length results))
                      first ← compute (λ b. any_result b chosen results)
                      on_nil first (do count incr_events; status_created (event_data response)) pure

unfoldable pub delete_event : Ident → Reply
delete_event id = recovered do
  (mapping, failure) ← Events.lookup_event_type_name_by_event_id id
  return_if (mapping == "") (status_not_found failure) do
    on_error failure (λ e. status_bad_request (some e))
        do
          return_if (is_system_event mapping)
              (status_bad_request (some "Deleting system events is prohibited"))
              do
                (deleted, failed) ← Events.delete_by_id mapping id
                return_if (not deleted) (status_not_found failed) do
                  on_error failed (λ e. status_bad_request (some e))
                      do
                        (repeating, unknown) ← Crons.item_exists id
                        on_error unknown (λ e. status_bad_request (some e))
                            do
                              return_if (not repeating) (status_ok no_data) do
                                (removed, failed2) ← Crons.delete_by_id id
                                return_if (not removed) (status_not_found failed2) do
                                  on_error failed2 (λ e. status_bad_request (some e))
                                      do request (remove_job id); status_ok no_data

-- ===== src/Service/Triggers.antt =====
-- The methods of workflow/Service.go for triggers.
use pz_workflow.Prelude.{String, ◌<>◌, not, some, List, [], ◌∷◌, ◌==◌}
use pz_workflow.Model.{
  Ident, Trigger, TriggerUpdate, trigger_data, triggers_data, no_data, incr_triggers,
}
use pz_workflow.Backend.{HttpQueryParams}
use pz_workflow.Exec.{
  M, pure, deref, ask, compute, count, recovered, ◌>>=◌, ◌>>◌, on_error, return_if, attempt, on_nil,
}
use pz_workflow.Response.{
  Reply, JsonResponse, status_bad_request, status_internal_error, status_not_found, status_ok,
  status_created, status_put_ok, paginated,
}
use pz_workflow.Unique.{remove_unique_params}
use pz_workflow.Db.EventTypes
use pz_workflow.Db.Triggers
use pz_workflow.Db.Conditions.{handle_unique_params_map}
use pz_workflow.Db.Conditions.Paths.{insert_level}

unfoldable pub get_trigger : Ident → Reply
get_trigger id = recovered do
  (trigger, found, failure) ← Triggers.get_one id
  return_if (not found) (status_not_found failure) do
    on_error failure (λ e. status_bad_request (some e))
        do
          t ← deref trigger
          (event_type, found_type, failed) ← EventTypes.get_one t.event_type_id
          on_error failed (λ e. status_bad_request (some e))
              do
                return_if (not found_type) (status_bad_request failed) do
                  et ← deref event_type
                  condition ← remove_unique_params et.name t.condition
                  status_ok (trigger_data (record t { condition = condition }))

-- `GetAllTriggers` leaves a trigger as it is, if its event type cannot be had.
unfoldable pub strip_or_keep : List Trigger → M (List Trigger)
strip_or_keep [] = pure []
strip_or_keep (t ∷ triggers) = do
  (event_type, found, failure) ← EventTypes.get_one t.event_type_id
  shown ←
      on_error failure (λ e. pure t)
        (return_if (not found) (pure t) do
          et ← deref event_type
          condition ← remove_unique_params et.name t.condition
          pure (record t { condition = condition }))
  rest ← strip_or_keep triggers
  pure (shown ∷ rest)

-- `QueryTriggers` answers with the first failure.
unfoldable pub strip_or_fail : List Trigger → (List Trigger → M JsonResponse) → M JsonResponse
strip_or_fail [] rest = rest []
strip_or_fail (t ∷ triggers) rest = do
  (event_type, found, failure) ← EventTypes.get_one t.event_type_id
  on_error failure (λ e. status_bad_request (some e))
      do
        return_if (not found) (status_bad_request failure) do
          et ← deref event_type
          condition ← remove_unique_params et.name t.condition
          strip_or_fail triggers λ shown. rest (record t { condition = condition } ∷ shown)

unfoldable pub get_all_triggers : HttpQueryParams → Reply
unfolding strip_or_keep
get_all_triggers params = recovered do
  pagination ← compute (λ b. b.new_pagination params)
  attempt pagination (λ e. status_bad_request (some e))
      λ format. do
        (triggers, total_hits, failure) ← Triggers.get_all format
        on_error failure (λ e. status_internal_error (some e))
            (on_nil triggers (status_internal_error (some "GetAllTriggers returned nil")) λ list. do
              shown ← strip_or_keep list
              resp ← status_ok (triggers_data shown)
              pure (paginated format total_hits resp))

unfoldable pub query_triggers : String → HttpQueryParams → Reply
unfolding strip_or_fail
query_triggers dsl params = recovered do
  pagination ← compute (λ b. b.new_pagination params)
  attempt pagination (λ e. status_bad_request (some e))
      λ format. do
        synced ← compute (λ b. b.sync_pagination format dsl)
        attempt synced (λ e. status_bad_request (some e))
            λ (query, format'). do
              (triggers, total_hits, failure) ← Triggers.get_triggers_by_dsl_query query
              on_error failure (λ e. status_bad_request (some e))
                  (on_nil triggers (status_internal_error (some "QueryTriggers returned nil"))
                    λ list. strip_or_fail list λ shown. do
                      resp ← status_ok (triggers_data shown)
                      pure (paginated format' total_hits resp))

unfoldable pub post_trigger : Trigger → Reply
unfolding handle_unique_params_map
post_trigger trigger = recovered do
  id ← ask (λ b. b.new_ident)
  now ← ask (λ b. b.now)
  return_if (trigger.event_type_id == "")
      (status_bad_request (some "TriggerDB.PostData failed: no eventTypeId was specified"))
      do
        (event_type, found, failure) ← EventTypes.get_one trigger.event_type_id
        let unknown = status_bad_request (
            some (
              "TriggerDB.PostData failed: eventType " <> trigger.event_type_id
              <> " could not be found"))
        return_if (not found) unknown (
            on_error failure (λ e. unknown)
              do
                et ← deref event_type
                let fixed_query = handle_unique_params_map et.name insert_level trigger.condition
                let response = record trigger { trigger_id = id; created_on = now }
                refused ← Triggers.post_data (record response { condition = fixed_query })
                on_error refused (λ e. status_bad_request (some e))
                    do count incr_triggers; status_created (trigger_data response))

unfoldable pub put_trigger : Ident → TriggerUpdate → Reply
put_trigger id update = recovered do
  (trigger, found, failure) ← Triggers.get_one id
  return_if (not found) (status_not_found failure) do
    on_error failure (λ e. status_bad_request (some e))
        do
          t ← deref trigger
          (updated, refused) ← Triggers.put_trigger t update
          on_error refused (λ e. status_bad_request (some e)) (status_put_ok "Updated trigger")

unfoldable pub delete_trigger : Ident → Reply
delete_trigger id = recovered do
  (deleted, failure) ← Triggers.delete_trigger id
  return_if (not deleted) (status_not_found failure)
      (on_error failure (λ e. status_bad_request (some e)) (status_ok no_data))

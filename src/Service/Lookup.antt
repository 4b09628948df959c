-- ===== src/Service/Lookup.antt =====
-- `Service.GetEventType`, which `EventDB` calls too, and the small helpers of workflow/Service.go.
use pz_workflow.Prelude.{String, Bool, not, some, ◌==◌, ◌||◌}
use pz_workflow.Model.{Ident, event_type_data}
use pz_workflow.Exec.{recovered, ◌>>=◌, deref, on_error, return_if}
use pz_workflow.Response.{Reply, status_not_found, status_bad_request, status_ok}
use pz_workflow.Unique.{remove_unique_params}
use pz_workflow.Db.EventTypes

abbrev pub ingest_type_name : String
ingest_type_name = "piazza:ingest"

abbrev pub execute_type_name : String
execute_type_name = "piazza:executionComplete"

unfoldable pub is_system_event : String → Bool
is_system_event name = name == ingest_type_name || name == execute_type_name

unfoldable pub get_event_type : Ident → Reply
get_event_type id = recovered do
  (found_type, found, failure) ← EventTypes.get_one id
  return_if (not found) (status_not_found failure) do
    on_error failure (λ e. status_bad_request (some e))
        do
          event_type ← deref found_type
          mapping ← remove_unique_params event_type.name event_type.mapping
          status_ok (event_type_data (record event_type { mapping = mapping }))

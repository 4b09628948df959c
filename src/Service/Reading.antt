-- ===== src/Service/Reading.antt =====
-- The methods that answer a question request no change.
use pz_workflow.Prelude.{String, ℕ}
use pz_workflow.Backend.{Error}
use pz_workflow.Model.{Ident, Payload}
use pz_workflow.Exec.Keeps.{Reads, reads_rules, Keeps-bind}
use pz_workflow.Response.{
  status_bad_request, status_forbidden, status_internal_error, status_not_found, data_response,
  status_ok, status_created, status_put_ok,
}
use pz_workflow.Db.Reading
use pz_workflow.Db.Reading.{remove_unique_params-Reads}
use pz_workflow.Service.Lookup.{get_event_type}

pub status_bad_request-Reads : (e : Error) → Reads (status_bad_request e)
unfolding status_bad_request
status_bad_request-Reads e = search reads_rules

pub status_forbidden-Reads : (e : Error) → Reads (status_forbidden e)
unfolding status_forbidden
status_forbidden-Reads e = search reads_rules

pub status_internal_error-Reads : (e : Error) → Reads (status_internal_error e)
unfolding status_internal_error
status_internal_error-Reads e = search reads_rules

pub status_not_found-Reads : (e : Error) → Reads (status_not_found e)
unfolding status_not_found
status_not_found-Reads e = search reads_rules

pub data_response-Reads : (code : ℕ) (payload : Payload) → Reads (data_response code payload)
unfolding data_response
data_response-Reads code payload = search reads_rules

pub status_ok-Reads : (payload : Payload) → Reads (status_ok payload)
unfolding status_ok
status_ok-Reads payload = search reads_rules

pub status_created-Reads : (payload : Payload) → Reads (status_created payload)
unfolding status_created
status_created-Reads payload = search reads_rules

pub status_put_ok-Reads : (message : String) → Reads (status_put_ok message)
unfolding status_put_ok
status_put_ok-Reads message = search reads_rules

pub ruleset reply_rules = (
  reads_rules, status_bad_request-Reads, status_forbidden-Reads, status_internal_error-Reads,
  status_not_found-Reads, status_ok-Reads, status_created-Reads, status_put_ok-Reads,
  remove_unique_params-Reads,
)

pub get_event_type-Reads : (id : Ident) → Reads (get_event_type id)
unfolding get_event_type
get_event_type-Reads id = search (reply_rules, Reading.EventTypes_get_one-Reads) depth 20

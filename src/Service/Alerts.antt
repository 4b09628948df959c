-- ===== src/Service/Alerts.antt =====
-- The methods of workflow/Service.go for alerts.
use pz_workflow.Prelude.{ℕ, String, Bool, false, not, Option, none, some, List, [], ◌∷◌, ◌==◌, ◌&&◌}
use pz_workflow.Json.{end}
use pz_workflow.Model.{
  Ident, Alert, AlertExt, Trigger, Event, alert_data, alerts_data, alert_exts_data, no_data,
  incr_alerts,
}
use pz_workflow.Backend.{Backend, JsonPagination, HttpQueryParams, Error, ok, err}
use pz_workflow.Exec.{
  M, pure, deref, ask, compute, count, recovered, ◌>>=◌, ◌>>◌, on_error, return_if, attempt, on_nil,
}
use pz_workflow.Response.{
  Reply, JsonResponse, status_bad_request, status_internal_error, status_not_found, status_ok,
  status_created, paginated,
}
use pz_workflow.Db.Alerts
use pz_workflow.Db.Events
use pz_workflow.Db.Triggers

unfoldable pub get_alert : Ident → Reply
get_alert id = recovered do
  (alert, found, failure) ← Alerts.get_one id
  return_if (not found) (status_not_found failure) do
    on_error failure (λ e. status_bad_request (some e)) do a ← deref alert; status_ok (alert_data a)

-- What cannot be read as a Boolean counts as false.
unfoldable pub get_inflate_param : Backend → HttpQueryParams → Bool
get_inflate_param b params =
    let inflate_string : String = elim (b.get_as_string params "inflate" "false") [
      | ok s ↦ s
      | err e ↦ "false"
    ] in
    elim (b.parse_bool inflate_string) [ ok inflate ↦ inflate | err e ↦ false ]

abbrev empty_trigger : Ident → Trigger
empty_trigger id = record {
  trigger_id = id;
  name = "";
  event_type_id = "";
  condition = end;
  job = record { created_by = ""; job_type = record { job_data = end; job_type = "" } };
  percolation_id = "";
  created_by = "";
  created_on = "";
  enabled = false;
}

abbrev empty_event : Ident → Event
empty_event id = record {
  event_id = id;
  event_type_id = "";
  payload = end;
  created_by = "";
  created_on = "";
  cron_schedule = "";
}

-- A pointer with a flag and an error, or a stand-in.
unfoldable pub or_stand_in {ℓ} : {A : Type ℓ} → A → Option A × Bool × Error → M A
or_stand_in stand_in (p, found, some e) = pure stand_in
or_stand_in stand_in (p, found, none) = return_if (not found) (pure stand_in) (deref p)

-- A trigger or an event that is not there is replaced by one with its id alone.
unfoldable pub inflate_alert : Alert → M AlertExt
inflate_alert alert = do
  found_trigger ← Triggers.get_one alert.trigger_id
  trigger ← or_stand_in (empty_trigger alert.trigger_id) found_trigger
  (mapping, failure) ← Events.lookup_event_type_name_by_event_id alert.event_id
  found_event ← Events.get_one mapping alert.event_id
  event ← or_stand_in (empty_event alert.event_id) found_event
  pure (record {
    alert_id = alert.alert_id;
    trigger = trigger;
    event = event;
    job_id = alert.job_id;
    created_by = alert.created_by;
    created_on = alert.created_on;
  })

unfoldable pub inflate_alerts : List Alert → M (List AlertExt)
unfolding inflate_alert
inflate_alerts [] = pure []
inflate_alerts (alert ∷ alerts) = do
  ext ← inflate_alert alert
  rest ← inflate_alerts alerts
  pure (ext ∷ rest)

-- The common end of the two listings.
unfoldable pub reply_alerts :
    HttpQueryParams
    → JsonPagination
    → Option (List Alert) × ℕ × Error
    → String
    → (String → M JsonResponse)
    → M JsonResponse
unfolding get_inflate_param inflate_alerts
reply_alerts params format (alerts, total_hits, failure) nil_message on_failure =
    on_error failure on_failure (
      on_nil alerts (status_internal_error (some nil_message)) λ list. do
        inflate ← compute (λ b. get_inflate_param b params)
        return_if inflate
            (do
              exts ← inflate_alerts list
              resp ← status_ok (alert_exts_data exts)
              pure (paginated format total_hits resp))
            (do resp ← status_ok (alerts_data list); pure (paginated format total_hits resp)))

unfoldable pub get_all_alerts : HttpQueryParams → Reply
unfolding reply_alerts
get_all_alerts params = recovered do
  id_param ← compute (λ b. b.get_as_id params "triggerId" "")
  attempt id_param (λ e. status_bad_request (some e))
      λ trigger_id. do
        pagination ← compute (λ b. b.new_pagination params)
        attempt pagination (λ e. status_bad_request (some e))
            λ format. do
              valid ← compute (λ b. b.valid_uuid trigger_id)
              return_if (not (trigger_id == "") && valid)
                  (do
                    found ← Alerts.get_all_by_trigger format trigger_id
                    reply_alerts params format found "GetAllAlerts returned nil"
                        λ e. status_internal_error (some e))
                  (return_if (trigger_id == "")
                    (do
                      found ← Alerts.get_all format
                      reply_alerts params format found "GetAllAlerts returned nil"
                          λ e. status_internal_error (some e))
                    (status_bad_request (some "Malformed triggerId query parameter")))

unfoldable pub query_alerts : String → HttpQueryParams → Reply
unfolding reply_alerts
query_alerts dsl params = recovered do
  pagination ← compute (λ b. b.new_pagination params)
  attempt pagination (λ e. status_bad_request (some e))
      λ format. do
        synced ← compute (λ b. b.sync_pagination format dsl)
        attempt synced (λ e. status_bad_request (some e))
            λ (query, format'). do
              found ← Alerts.get_alerts_by_dsl_query query
              reply_alerts params format' found "QueryAlerts returned nil"
                  λ e. status_bad_request (some e)

unfoldable pub post_alert : Alert → Reply
post_alert alert = recovered do
  id ← ask (λ b. b.new_ident)
  now ← ask (λ b. b.now)
  let posted = record alert { alert_id = id; created_on = now }
  refused ← Alerts.post_data posted
  on_error refused (λ e. status_internal_error (some e))
      do count incr_alerts; status_created (alert_data posted)

unfoldable pub delete_alert : Ident → Reply
delete_alert id = recovered do
  (deleted, failure) ← Alerts.delete_by_id id
  return_if (not deleted) (status_not_found failure)
      (on_error failure (λ e. status_bad_request (some e)) (status_ok no_data))

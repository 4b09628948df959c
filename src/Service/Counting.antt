-- ===== src/Service/Counting.antt =====
-- The statistics of workflow/Service.go: which methods count, and when.
use pz_workflow.Prelude.{◌+◌, ◌≡◌, ◌≢◌, ◌⊎◌, String, some, arith}
use pz_workflow.Model.{
  EventType, Event, Trigger, Alert, incr_event_types, incr_alerts, incr_triggers, incr_events,
  alert_data,
}
use pz_workflow.Backend.{ok}
use pz_workflow.Exec.{World, ◌>>=◌, recovered}
use pz_workflow.Exec.Keeps.{counts}
use pz_workflow.Exec.Wrote.{Runs}
use pz_workflow.Response.{
  JsonResponse, status_created, data_response, status_bad_request, status_internal_error,
}
use pz_workflow.Db.Uncounted.{counting}
use pz_workflow.Db.Alerts as db
use pz_workflow.Service.Alerts
use pz_workflow.Service.EventTypes
use pz_workflow.Service.Events
use pz_workflow.Service.Triggers

-- When `PostAlert` returns a response, where the type of an alert is one that the library has a name for: the
-- statistics are those of before and the status is not 201, or the number of alerts alone is one higher and
-- the status is 201.
pub post_alert-counts :
    (alert : Alert) (w v : World) (resp : JsonResponse)
    → ((x : Alert) → (name : String) × (w.backend.response_type (alert_data x) ≡ ok name))
    → Runs (Alerts.post_alert alert) w (some resp) v
    → ((counts v ≡ counts w) × (resp.status_code ≢ 201))
      ⊎ ((counts v ≡ incr_alerts (counts w)) × (resp.status_code ≡ 201))
unfolding Alerts.post_alert db.post_data status_internal_error status_created data_response ◌>>=◌
    recovered
post_alert-counts alert w v resp typed r =
    let (name, n) = typed (record alert {
      alert_id = w.backend.new_ident w.history;
      created_on = w.backend.now (record w.history { calls = w.history.calls + 1 });
    }) in
    ground (arith, r, n)

-- When `PostEventType` returns a response, the statistics are those of before and the status is not 201, or
-- the number of event types alone is one higher.
pub post_event_type-counts :
    (t : EventType) (w v : World) (resp : JsonResponse)
    → Runs (EventTypes.post_event_type t) w (some resp) v
    → ((counts v ≡ counts w) × (resp.status_code ≢ 201)) ⊎ (counts v ≡ incr_event_types (counts w))
unfolding EventTypes.post_event_type status_internal_error status_bad_request status_created ◌>>=◌
    recovered
post_event_type-counts t w v resp r = grind (arith, counting)

-- When `PostTrigger` returns a response, the statistics are those of before and the status is not 201, or
-- the number of triggers alone is one higher.
pub post_trigger-counts :
    (t : Trigger) (w v : World) (resp : JsonResponse)
    → Runs (Triggers.post_trigger t) w (some resp) v
    → ((counts v ≡ counts w) × (resp.status_code ≢ 201)) ⊎ (counts v ≡ incr_triggers (counts w))
unfolding Triggers.post_trigger status_internal_error status_bad_request status_created ◌>>=◌
    recovered
post_trigger-counts t w v resp r = grind (arith, counting)

-- When `PostRepeatingEvent` returns a response, the statistics are those of before and the status is not 201, or
-- the number of events alone is one higher.
pub post_repeating_event-counts :
    (event : Event) (w v : World) (resp : JsonResponse)
    → Runs (Events.post_repeating_event event) w (some resp) v
    → ((counts v ≡ counts w) × (resp.status_code ≢ 201)) ⊎ (counts v ≡ incr_events (counts w))
unfolding Events.post_repeating_event status_internal_error status_bad_request status_created ◌>>=◌
    recovered
post_repeating_event-counts event w v resp r = grind (arith, counting)

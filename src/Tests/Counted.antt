-- ===== src/Tests/Counted.antt =====
-- The theorem on the alerts that are counted, at an example, and runs that count.
use pz_workflow.Prelude.{String, ◌≡◌, ◌≢◌, ◌⊎◌, refl, some}
use pz_workflow.Model.{Alert, alert_data, incr_alerts}
use pz_workflow.Backend.{ok}
use pz_workflow.Exec.{recovered, final, ◌>>=◌}
use pz_workflow.Exec.Keeps.{counts}
use pz_workflow.Exec.Wrote.{Runs}
use pz_workflow.Response.{JsonResponse}
use pz_workflow.Service.EventTypes
use pz_workflow.Service.Alerts
use pz_workflow.Service.Triggers as service_triggers
use pz_workflow.Service.Events as service_events
use pz_workflow.Service.Events.{fire_all}
use pz_workflow.Response.{JsonResponse}
use pz_workflow.Service.Counting.{post_alert-counts}
use pz_workflow.Db.Triggers
use pz_workflow.Texts.{has_suffix}
use pz_workflow.Tests.{reply_of, dike, event, trigger, alert, world}

alert_posted :
    Runs
      (Alerts.post_alert alert)
      world
      (some (reply_of (Alerts.post_alert alert world)))
      (final (Alerts.post_alert alert world))
unfolding Alerts.post_alert ◌>>=◌ recovered pz_workflow.Db.Alerts.post_data
    pz_workflow.Response.status_created
alert_posted = refl

-- The library has a name for every type.
named : (x : Alert) → (name : String) × (world.backend.response_type (alert_data x) ≡ ok name)
named x = ("event", refl)

post_alert-counts_example :
    ((counts (final (Alerts.post_alert alert world)) ≡ counts world)
      × ((reply_of (Alerts.post_alert alert world)).status_code ≢ 201))
    ⊎ ((counts (final (Alerts.post_alert alert world)) ≡ incr_alerts (counts world))
        × ((reply_of (Alerts.post_alert alert world)).status_code ≡ 201))
post_alert-counts_example = post_alert-counts alert world _ _ named alert_posted

event_type_posted :
    Runs
      (EventTypes.post_event_type dike)
      world
      (some (reply_of (EventTypes.post_event_type dike world)))
      (final (EventTypes.post_event_type dike world))
unfolding EventTypes.post_event_type ◌>>=◌ recovered pz_workflow.Db.Events.name_exists
    pz_workflow.Db.EventTypes.get_id_by_name pz_workflow.Db.EventTypes.post_data
    pz_workflow.Db.Events.add_mapping pz_workflow.Response.status_created EventTypes.tilde_name
    pz_workflow.Texts.contains pz_workflow.Db.EventTypes.first_invalid
    pz_workflow.Db.Events.Schema.construct_event_mapping_schema pz_workflow.Unique.add_unique_params
event_type_posted = refl

trigger_posted :
    Runs
      (service_triggers.post_trigger trigger)
      world
      (some (reply_of (service_triggers.post_trigger trigger world)))
      (final (service_triggers.post_trigger trigger world))
unfolding service_triggers.post_trigger ◌>>=◌ recovered pz_workflow.Db.EventTypes.get_one
    Triggers.post_data pz_workflow.Json.find pz_workflow.Response.status_created
trigger_posted = refl

repeating_event_posted :
    Runs
      (service_events.post_repeating_event event)
      world
      (some (reply_of (service_events.post_repeating_event event world)))
      (final (service_events.post_repeating_event event world))
unfolding service_events.post_repeating_event ◌>>=◌ recovered pz_workflow.Db.EventTypes.get_one
    pz_workflow.Db.Crons.post_data pz_workflow.Db.Events.post_data
    pz_workflow.Db.Events.Verify.verify_event_ready_to_post
    pz_workflow.Service.Lookup.get_event_type pz_workflow.Unique.remove_unique_params
    pz_workflow.Response.status_ok pz_workflow.Unique.add_unique_params
    pz_workflow.Response.status_created
repeating_event_posted = refl

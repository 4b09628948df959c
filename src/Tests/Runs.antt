-- ===== src/Tests/Runs.antt =====
-- The theorems on the runs of methods, at examples.
use pz_workflow.Prelude.{◌≡◌, ◌≢◌, ◌⊎◌, refl, is_empty, false, none, some, List, [], ◌∷◌, arith}
use pz_workflow.Model.{Ident, event_type_db_mapping}
use pz_workflow.Backend.{Error, declare_queue, delete, event_types}
use pz_workflow.Exec.{recovered, World, Outcome, done, panic, crash, final, requests, ◌>>=◌}
use pz_workflow.Exec.Wrote.{Runs}
use pz_workflow.Response.{JsonResponse}
use pz_workflow.Service.Deletion.{IsUnused, delete_event_type-IsUnused}
use pz_workflow.Service.EventTypes
use pz_workflow.Service.Alerts
use pz_workflow.Service.Events as service_events
use pz_workflow.Service.Events.{fire_all}
use pz_workflow.Service.Events.Results.{AllSilent, fire_all-AllSilent}
use pz_workflow.Response.{JsonResponse}
use pz_workflow.Service.Deletion.DeleteEvent.{IsDeletable, delete_event-IsDeletable}
use pz_workflow.Service.Deletion.Once.{delete_event_type-Adds}
use pz_workflow.Exec.Once.{Adds}
use pz_workflow.Service.Firing.{IsAllowed, fire-IsAllowed}
use pz_workflow.Service.Jobs.{fire, send_to_rabbit_mq}
use pz_workflow.Service.Jobs.Sending.{IsPublished, send_to_rabbit_mq-IsPublished}
use pz_workflow.Db.Triggers
use pz_workflow.Db.Compensation.{IsCompensated, post_data-IsCompensated}
use pz_workflow.Tests.{flood, event, trigger, world, full_disk}

abbrev no_error : Error
no_error = none

made : (w : World) → is_empty (requests w) ≡ false → ¬ (requests w ≡ [])
made w h e = ground arith

delete_made : is_empty (requests (final (EventTypes.delete_event_type "et1" world))) ≡ false
unfolding EventTypes.delete_event_type ◌>>=◌ recovered pz_workflow.Db.EventTypes.get_one
    pz_workflow.Service.Lookup.is_system_event Triggers.get_triggers_by_event_type_id
    pz_workflow.Db.Events.get_events_by_event_type_id pz_workflow.Db.Events.mapping_exists
    Triggers.listed pz_workflow.Db.Events.listed pz_workflow.Db.Hits.decode_result
    pz_workflow.Db.EventTypes.delete_by_id pz_workflow.Response.status_ok
delete_made = refl

delete_event_type-IsUnused_example : IsUnused "et1" world
delete_event_type-IsUnused_example =
    delete_event_type-IsUnused "et1" world
      (made (final (EventTypes.delete_event_type "et1" world)) delete_made)

delete_event_type-Adds_example :
    Adds
      (delete event_types event_type_db_mapping "et1")
      (final (EventTypes.delete_event_type "et1" world))
      world
delete_event_type-Adds_example = delete_event_type-Adds "et1" world

delete_event_made : is_empty (requests (final (service_events.delete_event "ev1" world))) ≡ false
unfolding service_events.delete_event ◌>>=◌ recovered
    pz_workflow.Db.Events.lookup_event_type_name_by_event_id pz_workflow.Db.Events.find_type
    pz_workflow.Service.Lookup.is_system_event pz_workflow.Db.Events.delete_by_id
    pz_workflow.Db.Crons.item_exists pz_workflow.Db.Crons.delete_by_id
    pz_workflow.Response.status_ok
delete_event_made = refl

delete_event-IsDeletable_example : IsDeletable "ev1" world
delete_event-IsDeletable_example =
    delete_event-IsDeletable "ev1" world
      (made (final (service_events.delete_event "ev1" world)) delete_event_made)

fire_made : is_empty (requests (final (fire event flood "t1" world))) ≡ false
unfolding fire ◌>>=◌ pz_workflow.Exec.in_goroutine Triggers.get_one
    pz_workflow.Service.Alerts.post_alert recovered pz_workflow.Db.Alerts.post_data
    pz_workflow.Response.status_created
fire_made = refl

fire-IsAllowed_example : IsAllowed flood "t1" world
fire-IsAllowed_example =
    fire-IsAllowed event flood "t1" world (made (final (fire event flood "t1" world)) fire_made)

refuses :
    Runs
      (Triggers.post_data trigger)
      full_disk
      (some "TriggerDB.PostData failed: disk full")
      (final (Triggers.post_data trigger full_disk))
unfolding Triggers.post_data ◌>>=◌ pz_workflow.Json.find
refuses = refl

post_data-IsCompensated_example :
    IsCompensated trigger full_disk (final (Triggers.post_data trigger full_disk))
post_data-IsCompensated_example = post_data-IsCompensated trigger full_disk _ _ refuses

sent : Runs (send_to_rabbit_mq "job") world none (final (send_to_rabbit_mq "job" world))
unfolding send_to_rabbit_mq ◌>>=◌
sent = refl

send_to_rabbit_mq-IsPublished_example :
    ((no_error ≡ none) × IsPublished "job" world (final (send_to_rabbit_mq "job" world)) no_error)
    ⊎ ((no_error ≢ none)
        × ((requests (final (send_to_rabbit_mq "job" world)) ≡ requests world)
            ⊎ (requests (final (send_to_rabbit_mq "job" world))
                ≡ declare_queue "Request-Job-test" ∷ requests world)
            ⊎ IsPublished "job" world (final (send_to_rabbit_mq "job" world)) no_error))
send_to_rabbit_mq-IsPublished_example =
    send_to_rabbit_mq-IsPublished "job" world (final (send_to_rabbit_mq "job" world)) none sent

abbrev one_trigger : List Ident
one_trigger = "t1" ∷ []

abbrev no_results : List (Ident × JsonResponse)
no_results = []

silent :
    Runs
      (fire_all event flood one_trigger no_results)
      world
      no_results
      (final (fire_all event flood one_trigger no_results world))
unfolding fire_all ◌>>=◌ fire pz_workflow.Exec.in_goroutine Triggers.get_one
    pz_workflow.Service.Alerts.post_alert recovered pz_workflow.Db.Alerts.post_data
    pz_workflow.Response.status_created
silent = refl

fire_all-AllSilent_example :
    (no_results ≡ [])
    × AllSilent event flood one_trigger world
        (final (fire_all event flood one_trigger no_results world))
fire_all-AllSilent_example =
    fire_all-AllSilent event flood one_trigger no_results world
      (final (fire_all event flood one_trigger no_results world)) silent

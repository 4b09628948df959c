-- ===== src/Service/Cron.antt =====
-- The scheduled events of workflow/Service.go: the registration at the start, and a job's run.
pub mod Register
use pz_workflow.Prelude.{String, ◌<>◌, Bool, not, Option, none, some, List, [], ◌∷◌}
use pz_workflow.Json.{Json, Fields, null, end, find}
use pz_workflow.Model.{Ident, Event}
use pz_workflow.Backend.{Error, EventRef, own, loop_variable, CronEvent, add_job, start_cron}
use pz_workflow.Exec.{
  M, pure, deref, ask, send, request, compute, recovered, set_loop_event, loop_event, ◌>>=◌, ◌>>◌,
  on_error, return_if,
}
use pz_workflow.Unique.{as_map}
use pz_workflow.Db.EventTypes
use pz_workflow.Db.Crons
use pz_workflow.Response.{Reply, JsonResponse}
use pz_workflow.Service.Events.{post_event}

-- `for _, e := range *events { … }`: there is one variable `e`, and each job gets its address.
unfoldable pub register_all : List Event → M Error
register_all [] = pure none
register_all (e ∷ events) = do
  set_loop_event e
  shown ← compute (λ b. b.show_event e)
  (event_type, found, failure) ← EventTypes.get_one e.event_type_id
  let unknown =
      pure
        (some ("WorkflowService.InitCron: Unable to retrieve event type for cron event " <> shown))
  return_if (not found) unknown (
      on_error failure (λ m. unknown)
        do
          et ← deref event_type
          unscheduled ←
              send
                (add_job e.cron_schedule
                  (record { event = loop_variable; event_type_name = et.name }))
                (λ b. b.job_added e.cron_schedule)
          on_error unscheduled
              (λ m.
                pure (some ("WorkflowService.InitCron: Unable to register cron event " <> shown)))
              (register_all events))

unfoldable pub start : M Error
start = do request start_cron; pure none

-- A panic is recovered, and then the result is the nil error: `none` stands for both.
unfoldable pub init_cron : M (Option Error)
unfolding register_all start
init_cron = recovered do
  (there, failure) ← Crons.exists
  on_error failure (λ e. pure (some e))
      do
        return_if (not there) start do
          (events, failed) ← Crons.get_all
          on_error failed
              (λ e. pure (some "WorkflowService.InitCron: Unable to get all from CronDB"))
              do
                list ← deref events
                unregistered ← register_all list
                on_error unregistered (λ e. pure (some e)) start

-- What the job's `*Event` points to when the job runs.
unfoldable pub read_event : EventRef → M Event
read_event (own event) = pure event
read_event loop_variable = do event ← loop_event; deref event

-- `uniqueMap.(map[string]interface{})`, an absent map being an empty one.
abbrev pub own_map : Option Json → M Fields
own_map none = pure end
own_map (some null) = pure end
own_map (some v) = as_map v

-- `cronEvent.Run`: a new event of the same type, created by the first one.
unfoldable pub run : CronEvent → Reply
unfolding read_event
run c = do
  event ← read_event c.event
  payload ← own_map (find c.event_type_name event.payload)
  now ← ask (λ b. b.now)
  post_event (record {
    event_id = "";
    event_type_id = event.event_type_id;
    payload = payload;
    created_by = event.event_id;
    created_on = now;
    cron_schedule = "";
  })

-- `cronEvent.Key`
unfoldable pub key : CronEvent → M String
unfolding read_event
key c = do event ← read_event c.event; pure event.event_id

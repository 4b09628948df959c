-- ===== src/Service/Ticking.antt =====
-- The methods of workflow/Service.go that count an event type, an event or a trigger: how often, and
-- that nothing is created without being counted.
use pz_workflow.Prelude.{◌≡◌, ◌≢◌, refl, List, Option, [], none, some, length}
use pz_workflow.Backend.{Error, CronEvent}
use pz_workflow.Model.{
  Ident, EventType, Event, Trigger, Stats, event_data, incr_event_types, incr_events, incr_triggers,
  incr_counter,
}
use pz_workflow.Exec.{M, ask, compute, count, on_nil, pure, ◌>>=◌, ◌>>◌}
use pz_workflow.Exec.Returns.{Returns, Returns-weaken, Returns-pure, Returns-compute, Some}
use pz_workflow.Exec.Steady.{Touches, untouched, touches_rules, Touches-of_Reads}
use pz_workflow.Exec.Ticks.{
  Counter, event_type_count, event_count, trigger_count, value, Ticks, Ticks-never, Ticks-then,
  Ticks-bind, Spares-untouched, Spares-firing, ticks_rules,
}
use pz_workflow.Response.{JsonResponse, status_bad_request, status_internal_error, status_created}
use pz_workflow.Response.WellFormed.{
  IsRefusal, IsRefusal-not_created, status_bad_request-IsRefusal, status_internal_error-IsRefusal,
}
use pz_workflow.Db.Touching
use pz_workflow.Db.Reading
use pz_workflow.Service.Reading.{
  status_bad_request-Reads, status_internal_error-Reads, status_created-Reads,
}
use pz_workflow.Service.Replies.Firing.{Refused, fire_all-Refused, any_result-Refused}
use pz_workflow.Service.Touching.{fire_all-Touches, read_event-Touches, own_map-Touches}
use pz_workflow.Service.EventTypes
use pz_workflow.Service.Events
use pz_workflow.Service.Triggers
use pz_workflow.Service.Cron

abbrev pub NotCreated : JsonResponse → Type 0
NotCreated resp = resp.status_code ≢ 201

module _ (c : Counter) where
  refusing : (m : M JsonResponse) → Touches untouched m → Returns IsRefusal m → Ticks c NotCreated m
  refusing m h k =
      Ticks-never c NotCreated m (Spares-untouched c m h) (Returns-weaken m k IsRefusal-not_created)

  Ticks-bad_request : (e : Error) → Ticks c NotCreated (status_bad_request e)
  Ticks-bad_request e =
      refusing _ (Touches-of_Reads _ _ (status_bad_request-Reads e))
        (status_bad_request-IsRefusal e)

  Ticks-internal_error : (e : Error) → Ticks c NotCreated (status_internal_error e)
  Ticks-internal_error e =
      refusing _ (Touches-of_Reads _ _ (status_internal_error-Reads e))
        (status_internal_error-IsRefusal e)

incr_event_types-value :
    (s : Stats)
    → value event_type_count (incr_event_types s) ≡ incr_counter (value event_type_count s)
unfolding incr_event_types value
incr_event_types-value s = refl

incr_events-value :
    (s : Stats) → value event_count (incr_events s) ≡ incr_counter (value event_count s)
unfolding incr_events value
incr_events-value s = refl

incr_triggers-value :
    (s : Stats) → value trigger_count (incr_triggers s) ≡ incr_counter (value trigger_count s)
unfolding incr_triggers value
incr_triggers-value s = refl

ruleset ticking_rules = (
  ticks_rules, Ticks-bad_request, Ticks-internal_error, touches_rules, Touches-of_Reads,
  status_created-Reads, incr_event_types-value, incr_events-value, incr_triggers-value,
)

pub post_event_type-Ticks :
    (t : EventType) → Ticks event_type_count (Some NotCreated) (EventTypes.post_event_type t)
unfolding EventTypes.post_event_type
post_event_type-Ticks t =
    search
      (
        ticking_rules, Reading.EventTypes_get_id_by_name-Reads, Reading.Events_name_exists-Reads,
        Touching.EventTypes_post_data-Touches, Touching.EventTypes_delete_by_id-Touches,
        Touching.Events_add_mapping-Touches,
      )
      depth 40 fits 40000

pub post_trigger-Ticks :
    (t : Trigger) → Ticks trigger_count (Some NotCreated) (Triggers.post_trigger t)
unfolding Triggers.post_trigger
post_trigger-Ticks t =
    search (ticking_rules, Reading.EventTypes_get_one-Reads, Touching.Triggers_post_data-Touches)
      depth 30 fits 20000

pub post_repeating_event-Ticks :
    (event : Event) → Ticks event_count (Some NotCreated) (Events.post_repeating_event event)
unfolding Events.post_repeating_event
post_repeating_event-Ticks event =
    search
      (
        ticking_rules, Reading.EventTypes_get_one-Reads, Touching.Crons_post_data-Touches,
        Touching.Crons_delete_by_id-Touches, Touching.Events_post_data-Touches,
      )
      depth 40 fits 40000

-- The end of `PostEvent`: where a goroutine left a result, that is the answer, and no event is counted.
answer-Ticks :
    (first : Option JsonResponse) (response : Event)
    → Some IsRefusal first
    → Ticks event_count NotCreated
        (on_nil first (do count incr_events; status_created (event_data response)) pure)
unfolding on_nil
answer-Ticks none response h = search ticking_rules depth 12
answer-Ticks (some resp) response h =
    Ticks-never event_count NotCreated _ (search touches_rules)
      (Returns-pure _ (IsRefusal-not_created resp h))

fired-Ticks :
    (event response : Event) (et : EventType) (ids : List Ident)
    → Ticks event_count NotCreated (do
      results ← Events.fire_all event et ids []
      chosen ← ask (λ b. b.chosen (length results))
      first ← compute (λ b. Events.any_result b chosen results)
      on_nil first (do count incr_events; status_created (event_data response)) pure)
fired-Ticks event response et ids =
    Ticks-then _ _ Refused _ _ (Spares-firing _ _ (fire_all-Touches event et ids []))
      (fire_all-Refused event et ids [] tt)
      λ results k. Ticks-bind _ _ _ _ (Spares-untouched _ _ (search touches_rules)) λ chosen.
        Ticks-then _ _ (Some IsRefusal) _ _ (search touches_rules)
          (Returns-compute _ λ b. any_result-Refused b chosen results k)
          λ first h. answer-Ticks first response h

pub post_event-Ticks :
    (event : Event) → Ticks event_count (Some NotCreated) (Events.post_event event)
unfolding Events.post_event
post_event-Ticks event =
    search
      (
        ticking_rules, fired-Ticks, Reading.EventTypes_get_one-Reads,
        Reading.Events_percolate_event_data-Reads, Touching.Events_post_data-Touches,
      )
      depth 40 fits 40000

-- A job's run posts an event, if it comes to that.
pub run-Ticks : (job : CronEvent) → Ticks event_count (Some NotCreated) (Cron.run job)
unfolding Cron.run
run-Ticks job =
    search (ticking_rules, read_event-Touches, own_map-Touches, post_event-Ticks) depth 20

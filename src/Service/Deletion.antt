-- ===== src/Service/Deletion.antt =====
-- When `DeleteEventType` and `DeleteEvent` of workflow/Service.go delete.
pub mod DeleteEvent
pub mod Once
use pz_workflow.Prelude.{ℕ, ◌≡◌, true, false, Option, none, some, List}
use pz_workflow.Model.{Ident, EventType, Trigger, Event}
use pz_workflow.Exec.{World}
use pz_workflow.Exec.Wrote.{
  Wrote, Runs, Wrote-recovered, Wrote-return_if, Wrote-found, Wrote-listed,
}
use pz_workflow.Response.{status_not_found, status_bad_request}
use pz_workflow.Service.Reading.{
  status_not_found-Reads, status_bad_request-Reads, status_forbidden-Reads,
}
use pz_workflow.Db.Reading
use pz_workflow.Db.EventTypes
use pz_workflow.Db.Triggers
use pz_workflow.Db.Events
use pz_workflow.Service.Lookup.{is_system_event}
use pz_workflow.Service.EventTypes as service

-- What the method learns before it deletes the event type `id`.
pub record IsUnused (id : Ident) (w : World) : Type 0 where
  pub event_type : EventType
  pub triggers : Option (List Trigger)
  pub trigger_hits : ℕ
  pub events : Option (List Event)
  pub event_hits : ℕ
  pub w1 : World
  pub w2 : World
  pub w3 : World
  pub found : Runs (EventTypes.get_one id) w (some event_type, true, none) w1
  pub no_system : is_system_event event_type.name ≡ false
  pub asked_triggers :
      Runs (Triggers.get_triggers_by_event_type_id none id) w1 (triggers, trigger_hits, none) w2
  pub no_triggers : service.hit_any trigger_hits triggers ≡ false
  pub asked_events :
      Runs
        (Events.get_events_by_event_type_id none event_type.name id)
        w2
        (events, event_hits, none)
        w3
  pub no_events : service.hit_any event_hits events ≡ false

-- A run of `DeleteEventType` that requests anything has found an event type that is no system type
-- and is in use by no trigger and no event.
pub delete_event_type-IsUnused :
    (id : Ident) (w : World) → Wrote (service.delete_event_type id) w → IsUnused id w
unfolding service.delete_event_type
delete_event_type-IsUnused id w h =
    let (et, w1, r1, h1) =
      Wrote-found _ _ status_not_found (λ e. status_bad_request (some e)) w
        (Reading.EventTypes_get_one-Reads id) status_not_found-Reads
        (λ e. status_bad_request-Reads _) (Wrote-recovered _ w h) in
    let (n1, h2) = Wrote-return_if _ _ _ w1 (status_bad_request-Reads _) h1 in
    let (ts, hits, w2, r2, h3) =
      Wrote-listed _ _ (λ e. status_bad_request (some e)) w1
        (Reading.Triggers_get_triggers_by_event_type_id-Reads none id)
        (λ e. status_bad_request-Reads _) h2 in
    let (n2, h4) = Wrote-return_if _ _ _ w2 (status_forbidden-Reads _) h3 in
    let (evs, hits2, w3, r3, h5) =
      Wrote-listed _ _ (λ e. status_bad_request (some e)) w2
        (Reading.Events_get_events_by_event_type_id-Reads none et.name id)
        (λ e. status_bad_request-Reads _) h4 in
    let (n3, h6) = Wrote-return_if _ _ _ w3 (status_forbidden-Reads _) h5 in
    record {
      event_type = et;
      triggers = ts;
      trigger_hits = hits;
      events = evs;
      event_hits = hits2;
      w1 = w1;
      w2 = w2;
      w3 = w3;
      found = r1;
      no_system = n1;
      asked_triggers = r2;
      no_triggers = n2;
      asked_events = r3;
      no_events = n3;
    }

-- ===== src/Service/Deletion/DeleteEvent.antt =====
-- When `DeleteEvent` of workflow/Service.go deletes.
use pz_workflow.Prelude.{◌≡◌, subst, String, ◌==◌, false, none}
use pz_workflow.Model.{Ident}
use pz_workflow.Exec.{World}
use pz_workflow.Exec.Wrote.{
  Wrote, Runs, Wrote-recovered, Wrote-bind, Wrote-return_if, Wrote-on_error,
}
use pz_workflow.Service.Reading.{status_not_found-Reads, status_bad_request-Reads}
use pz_workflow.Db.Reading
use pz_workflow.Db.Events
use pz_workflow.Service.Lookup.{is_system_event}
use pz_workflow.Service.Events as service

-- The name of the event's type was found, and it is no system type's.
abbrev pub IsDeletable : Ident → World → Type 0
IsDeletable id w =
    (name : String) × (v : World) × Runs (Events.lookup_event_type_name_by_event_id id) w
      (name, none) v
    × ((name == "") ≡ false)
    × (is_system_event name ≡ false)

-- If `DeleteEvent` has requested any change, then it has found the name of the event's type without
-- an error, and the name is not empty and no system type's.
pub delete_event-IsDeletable :
    (id : Ident) (w : World) → Wrote (service.delete_event id) w → IsDeletable id w
unfolding service.delete_event
delete_event-IsDeletable id w h =
    let (answer, v, r, h1) =
      Wrote-bind _ _ w (Reading.Events_lookup_event_type_name_by_event_id-Reads id)
        (Wrote-recovered _ w h) in
    let (n1, h2) = Wrote-return_if _ _ _ v (status_not_found-Reads _) h1 in
    let (n2, h3) = Wrote-on_error _ _ _ v (λ e. status_bad_request-Reads _) h2 in
    let (n3, h4) = Wrote-return_if _ _ _ v (status_bad_request-Reads _) h3 in
    (
      answer.0,
      v,
      subst (λ e. Runs (Events.lookup_event_type_name_by_event_id id) w (answer.0, e) v) n2 r,
      n1,
      n3,
    )

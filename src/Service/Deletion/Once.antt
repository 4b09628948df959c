-- ===== src/Service/Deletion/Once.antt =====
-- What `DeleteEventType` of workflow/Service.go deletes.
use pz_workflow.Prelude.{none}
use pz_workflow.Backend.{delete, event_types}
use pz_workflow.Model.{Ident, event_type_db_mapping}
use pz_workflow.Exec.{World, final}
use pz_workflow.Exec.Once.{
  Adds, Once, Once-of_Reads, Once-send, Once-on_error, Once-return_if, Once-recovered, Once-after,
  Once-before,
}
use pz_workflow.Exec.Keeps.{Keeps-deref}
use pz_workflow.Service.Reading.{
  reply_rules, status_not_found-Reads, status_bad_request-Reads, status_forbidden-Reads,
}
use pz_workflow.Db.Reading
use pz_workflow.Db.EventTypes
use pz_workflow.Service.EventTypes as service

delete_by_id-Once :
    (id : Ident) → Once (delete event_types event_type_db_mapping id) (EventTypes.delete_by_id id)
unfolding EventTypes.delete_by_id
delete_by_id-Once id = Once-before _ _ (Once-send _) λ answer. search reply_rules depth 12

-- Whatever it finds, and whether it answers or panics, `DeleteEventType` requests nothing but the
-- deletion of the event type with the given id, and that at most once.
pub delete_event_type-Adds :
    (id : Ident) (w : World)
    → Adds (delete event_types event_type_db_mapping id) (final (service.delete_event_type id w)) w
unfolding service.delete_event_type
delete_event_type-Adds id w =
    (Once-recovered _ (
        Once-after _ _ (Reading.EventTypes_get_one-Reads id) λ answer.
          Once-return_if _ _ _ (Once-of_Reads _ (status_not_found-Reads _)) (
            Once-on_error _ _ _ (λ e. Once-of_Reads _ (status_bad_request-Reads _))
              (Once-after _ _ (Keeps-deref _) λ et.
                Once-return_if _ _ _ (Once-of_Reads _ (status_bad_request-Reads _)) (
                  Once-after _ _ (Reading.Triggers_get_triggers_by_event_type_id-Reads none id)
                    λ ts.
                      Once-on_error _ _ _ (λ e. Once-of_Reads _ (status_bad_request-Reads _))
                        (Once-return_if _ _ _ (Once-of_Reads _ (status_forbidden-Reads _)) (
                          Once-after _ _
                            (Reading.Events_get_events_by_event_type_id-Reads none et.name id)
                            λ evs.
                              Once-on_error _ _ _
                                (λ e. Once-of_Reads _ (status_bad_request-Reads _))
                                (Once-return_if _ _ _ (Once-of_Reads _ (status_forbidden-Reads _)) (
                                  Once-before _ _ (delete_by_id-Once id)
                                    λ deleted. search reply_rules depth 12))))))))).at
      w

-- ===== src/Db/Crons.antt =====
-- workflow/CronDB.go
use pz_workflow.Prelude.{◌<>◌, Bool, false, not, Option, none, some, List, [], if◌then◌else◌}
use pz_workflow.Model.{Ident, Event, cron_db_mapping}
use pz_workflow.Backend.{Error, crons, event_doc, post, delete}
use pz_workflow.Exec.{M, pure, deref, ask, send, ◌>>=◌, on_error, return_if, attempt, on_nil}
use pz_workflow.Db.Hits.{decode_result}

unfoldable pub post_data : Event → M Error
post_data event = do
  let doc = event_doc event
  (response, failure) ←
      send (post crons cron_db_mapping event.event_id doc)
        (λ b. b.posted crons cron_db_mapping event.event_id doc)
  on_error failure (λ e. pure (some ("CronDB.PostData failed: " <> e)))
      do
        result ← deref response
        pure (if result.created then none else some "CronDB.PostData failed: not created")

-- The pointer to the list is nil on every error but that of the first question.
unfoldable pub get_all : M (Option (List Event) × Error)
get_all = do
  (exists, failure) ← ask (λ b. b.type_exists crons cron_db_mapping)
  on_error failure (λ e. pure (some [], some e))
      do
        return_if (not exists) (pure (none, some ("Type " <> cron_db_mapping <> " does not exist")))
            do
              (found, failed) ← ask (λ b. b.get_all_elements crons cron_db_mapping)
              on_error failed (λ e. pure (none, some ("CronDB.GetAll failed: " <> e)))
                  (on_nil found (pure (none, some "CronDB.GetAll failed: no searchResult"))
                    λ result. do
                      decoded ← decode_result (λ b. b.unmarshal_event) result
                      attempt decoded (λ e. pure (none, some ("CronDB.GetAll failed: " <> e)))
                          λ list. pure (some list, none))

unfoldable pub exists : M (Bool × Error)
exists = do
  (there, failure) ← ask (λ b. b.index_exists crons)
  on_error failure (λ e. pure (false, some e))
      do
        return_if (not there) (pure (there, none)) do
          (typed, failed) ← ask (λ b. b.type_exists crons cron_db_mapping)
          on_error failed (λ e. pure (false, some e)) (pure (typed, none))

unfoldable pub item_exists : Ident → M (Bool × Error)
item_exists id = ask (λ b. b.item_exists crons cron_db_mapping id)

unfoldable pub delete_by_id : Ident → M (Bool × Error)
delete_by_id id = do
  (answer, failure) ←
      send (delete crons cron_db_mapping id) (λ b. b.deleted crons cron_db_mapping id)
  on_error failure
      (λ e. do result ← deref answer; pure (result.found, some ("CronDB.DeleteById failed: " <> e)))
      (on_nil answer (pure (false, some "CronDB.DeleteById failed: no deleteResult"))
        λ result. pure (result.found, none))

-- ===== src/Db/Alerts.antt =====
-- workflow/AlertDB.go
use pz_workflow.Prelude.{
  ℕ, String, ◌<>◌, Bool, true, false, not, Option, none, some, List, [], nat_eq, if◌then◌else◌,
}
use pz_workflow.Model.{Ident, Alert, alert_db_mapping}
use pz_workflow.Backend.{Error, alerts, alert_doc, JsonPagination, SearchResult, post, delete}
use pz_workflow.Exec.{
  M, pure, deref, ask, send, compute, ◌>>=◌, on_error, return_if, attempt, on_nil,
}
use pz_workflow.Db.Hits.{decode_result}

unfoldable pub post_data : Alert → M Error
post_data alert = do
  let doc = alert_doc alert
  (response, failure) ←
      send (post alerts alert_db_mapping alert.alert_id doc)
        (λ b. b.posted alerts alert_db_mapping alert.alert_id doc)
  on_error failure (λ e. pure (some ("AlertDB.PostData failed: " <> e)))
      do
        result ← deref response
        pure (if result.created then none else some "AlertDB.PostData failed: not created")

-- The documents of a search, and the number of all hits.
unfoldable pub collect : SearchResult → M (Option (List Alert) × ℕ × Error)
collect result = do
  decoded ← decode_result (λ b. b.unmarshal_alert) result
  attempt decoded (λ e. pure (none, 0, some e)) λ list. pure (some list, result.total_hits, none)

-- The end of each listing.
unfoldable pub listed : String → Option SearchResult × Error → M (Option (List Alert) × ℕ × Error)
listed method (found, failure) =
    on_error failure (λ e. pure (none, 0, some (method <> " failed: " <> e)))
      (on_nil found (pure (none, 0, some (method <> " failed: no searchResult"))) collect)

unfoldable pub get_all : JsonPagination → M (Option (List Alert) × ℕ × Error)
get_all format = do
  (exists, failure) ← ask (λ b. b.type_exists alerts alert_db_mapping)
  on_error failure (λ e. pure (some [], 0, some e))
      do
        return_if (not exists) (pure (some [], 0, none)) do
          found ← ask (λ b. b.filter_by_match_all alerts alert_db_mapping format)
          listed "AlertDB.GetAll" found

unfoldable pub get_alerts_by_dsl_query : String → M (Option (List Alert) × ℕ × Error)
get_alerts_by_dsl_query dsl = do
  (exists, failure) ← ask (λ b. b.type_exists alerts alert_db_mapping)
  on_error failure (λ e. pure (some [], 0, some e))
      do
        return_if (not exists) (pure (some [], 0, none)) do
          found ← ask (λ b. b.search_by_json alerts alert_db_mapping dsl)
          listed "AlertDB.GetAlertsByDslQuery" found

-- No hit at all is an empty list, and no error.
unfoldable pub get_all_by_trigger : JsonPagination → Ident → M (Option (List Alert) × ℕ × Error)
get_all_by_trigger format trigger_id = do
  (exists, failure) ← ask (λ b. b.type_exists alerts alert_db_mapping)
  on_error failure (λ e. pure (some [], 0, some e))
      do
        return_if (not exists) (pure (some [], 0, none)) do
          (found, failed) ← ask (λ b.
              b.filter_by_term_query alerts alert_db_mapping "triggerId" trigger_id (some format))
          on_error failed (λ e. pure (none, 0, some ("AlertDB.GetAllByTrigger failed: " <> e)))
              (on_nil found (pure (none, 0, some "AlertDB.GetAllByTrigger failed: no searchResult"))
                λ result. on_nil result.hits (pure (some [], result.total_hits, none)) λ hits.
                  return_if (nat_eq result.total_hits 0) (pure (some [], 0, none)) (collect result))

unfoldable pub get_one : Ident → M (Option Alert × Bool × Error)
get_one id = do
  (answer, failure) ← ask (λ b. b.get_by_id alerts alert_db_mapping id)
  on_error failure (λ e. pure (none, false, some ("AlertDB.GetOne failed: " <> e)))
      (on_nil answer (pure (none, true, some ("AlertDB.GetOne failed: " <> id <> " no getResult")))
        λ result. do
          source ← deref result.source
          decoded ← compute (λ b. b.unmarshal_alert source)
          attempt decoded (λ e. pure (none, result.found, some e))
              λ alert. pure (some alert, result.found, none))

unfoldable pub delete_by_id : Ident → M (Bool × Error)
delete_by_id id = do
  (answer, failure) ←
      send (delete alerts alert_db_mapping id) (λ b. b.deleted alerts alert_db_mapping id)
  on_error failure
      (λ e. do
        result ← deref answer
        pure (result.found, some ("AlertDB.DeleteById failed: " <> e)))
      (on_nil answer (pure (false, some "AlertDB.DeleteById failed: no deleteResult")) λ result.
        return_if (not result.found) (pure (false, some "AlertDB.DeleteById failed: not found"))
          (pure (result.found, none)))

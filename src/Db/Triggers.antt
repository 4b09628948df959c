-- ===== src/Db/Triggers.antt =====
-- workflow/TriggerDB.go
use pz_workflow.Prelude.{
  ℕ, String, ◌<>◌, Bool, false, not, Option, none, some, List, [], map, nat_eq, ◌==◌, if◌then◌else◌,
}
use pz_workflow.Json.{Json, Fields, text, obj, find}
use pz_workflow.Model.{Ident, Trigger, TriggerUpdate, trigger_db_mapping}
use pz_workflow.Backend.{
  Error, triggers, trigger_doc, json_doc, JsonPagination, SearchResult, post, put, delete,
  add_percolation_query, delete_percolation_query, DeleteResponse,
}
use pz_workflow.Exec.{
  M, pure, deref, ask, send, compute, ◌>>=◌, ◌>>◌, on_error, return_if, attempt, on_nil,
}
use pz_workflow.Texts.{contains}
use pz_workflow.Db.Hits.{decode_result}
use pz_workflow.Db.Conditions.{encode_condition, decode_condition, handle_dot_tilde_map}
use pz_workflow.Db.Conditions.Paths.{dot_to_tilde}

-- `serviceID.(string)`
abbrev pub as_text : Option Json → Option String
as_text (some (text s)) = some s
as_text _ = none

-- The block CHECK SERVICE EXISTS. The service controller is asked only in a deployment.
unfoldable pub check_service : Trigger → M Error
check_service trigger = do
  let service_id = as_text (find "serviceId" trigger.job.job_type.job_data)
  on_nil service_id (pure (some "TriggerDB.PostData failed: serviceId field not of type string"))
      λ id. do
        domain ← ask (λ b. b.domain)
        return_if (domain == "") (pure none) do
          response ← ask (λ b.
              b.service_status ("https://pz-servicecontroller." <> domain <> "/service/" <> id))
          attempt response
              (λ e.
                pure
                  (some ("TriggerDB.PostData failed to make request to ServiceController: " <> e)))
              λ status. pure (
                if nat_eq status 200
                then none
                else some ("TriggerDB.PostData failed: serviceID " <> id <> " does not exist"))

abbrev percolation_failure : String → String
percolation_failure e =
    if contains e "elastic: Error 500 (Internal Server Error): failed to parse query"
    then "TriggerDB.PostData addpercquery failed: elastic failed to parse query. Common causes: [Variables do not start with 'data.' or are not found at your specified path, invalid perc query structure]."
    else "TriggerDB.PostData addpercquery failed [unknown cause]: " <> e <> " "

unfoldable pub remove_query : Ident → M (Option DeleteResponse × Error)
remove_query id = send (delete_percolation_query id) (λ b. b.percolation_deleted id)

-- The trigger is changed in place: its percolation id, and its condition, encoded.
unfoldable pub post_data : Trigger → M Error
unfolding check_service remove_query
post_data trigger = do
  refused ← check_service trigger
  on_error refused (λ e. pure (some e))
      do
        marshalled ← compute (λ b. b.marshal_fields trigger.condition)
        attempt marshalled (λ e. pure (some e))
            λ body. do
              (response, failure) ←
                  send (add_percolation_query trigger.trigger_id body)
                    (λ b. b.percolation_added trigger.trigger_id body)
              on_error failure (λ e. pure (some (percolation_failure e)))
                  (on_nil response
                    (pure (some "TriggerDB.PostData addpercquery failed: no indexResult"))
                    λ added.
                      return_if (not added.created)
                        (pure (some "TriggerDB.PostData addpercquery failed: not created"))
                        do
                          let stored = record trigger {
                            percolation_id = added.id;
                            condition = encode_condition trigger.condition;
                          }
                          (response2, failure2) ←
                              send
                                (post triggers trigger_db_mapping trigger.trigger_id
                                  (trigger_doc stored))
                                (λ b.
                                  b.posted triggers trigger_db_mapping trigger.trigger_id
                                    (trigger_doc stored))
                          on_error failure2
                              (λ e. do
                                remove_query trigger.trigger_id
                                pure (some ("TriggerDB.PostData failed: " <> e)))
                              do
                                result2 ← deref response2
                                return_if (not result2.created)
                                    (do
                                      remove_query trigger.trigger_id
                                      pure (some "TriggerDB.PostData failed: not created"))
                                    (pure none))

-- `intTrigger.(map[string]interface{})`
abbrev json_map : Json → Option Fields
json_map (obj m) = some m
json_map _ = none

unfoldable pub put_trigger : Trigger → TriggerUpdate → M (Trigger × Error)
put_trigger trigger update = do
  let updated = record trigger { enabled = update.enabled }
  converted ← compute (λ b. b.trigger_to_json updated)
  attempt converted (λ e. pure (updated, some ("TriggerDB.PutData failed: " <> e)))
      λ json.
        on_nil (json_map json) (pure (updated, some "TriggerDB.PutData failed: bad trigger"))
          λ fields. do
            let doc = json_doc (obj (handle_dot_tilde_map dot_to_tilde fields))
            (response, failure) ←
                send (put triggers trigger_db_mapping updated.trigger_id doc)
                  (λ b. b.posted triggers trigger_db_mapping updated.trigger_id doc)
            on_error failure (λ e. pure (updated, some ("TriggerDB.PutData failed: " <> e)))
                (pure (updated, none))

abbrev pub decoded : Trigger → Trigger
decoded trigger = record trigger { condition = decode_condition trigger.condition }

-- The end of each listing; the two that show triggers to users decode the conditions.
unfoldable pub listed :
    String
    → (Trigger → Trigger)
    → Option SearchResult × Error
    → M (Option (List Trigger) × ℕ × Error)
listed method shown (found, failure) =
    on_error failure (λ e. pure (none, 0, some (method <> " failed: " <> e)))
      (on_nil found (pure (none, 0, some (method <> " failed: no searchResult"))) λ result. do
        documents ← decode_result (λ b. b.unmarshal_trigger) result
        attempt documents (λ e. pure (none, 0, some e))
            λ list. pure (some (map shown list), result.total_hits, none))

unfoldable pub get_all : JsonPagination → M (Option (List Trigger) × ℕ × Error)
get_all format = do
  (exists, failure) ← ask (λ b. b.type_exists triggers trigger_db_mapping)
  on_error failure (λ e. pure (some [], 0, some e))
      do
        return_if (not exists) (pure (some [], 0, none)) do
          found ← ask (λ b. b.filter_by_match_all triggers trigger_db_mapping format)
          listed "TriggerDB.GetAll" decoded found

unfoldable pub get_triggers_by_dsl_query : String → M (Option (List Trigger) × ℕ × Error)
get_triggers_by_dsl_query dsl = do
  (exists, failure) ← ask (λ b. b.type_exists triggers trigger_db_mapping)
  on_error failure (λ e. pure (some [], 0, some e))
      do
        return_if (not exists) (pure (some [], 0, none)) do
          found ← ask (λ b. b.search_by_json triggers trigger_db_mapping dsl)
          listed "TriggerDB.GetTriggersByDslQuery" decoded found

unfoldable pub get_one : Ident → M (Option Trigger × Bool × Error)
get_one id = do
  (answer, failure) ← ask (λ b. b.get_by_id triggers trigger_db_mapping id)
  on_error failure (λ e. pure (none, false, some ("TriggerDB.GetOne failed: " <> e)))
      (on_nil answer (pure (none, false, some "TriggerDB.GetOne failed: no getResult")) λ result. do
        source ← deref result.source
        document ← compute (λ b. b.unmarshal_trigger source)
        attempt document (λ e. pure (none, result.found, some ("TriggerDB.GetOne failed: " <> e)))
            λ trigger. pure (some (decoded trigger), result.found, none))

unfoldable pub get_triggers_by_event_type_id :
    Option JsonPagination → Ident → M (Option (List Trigger) × ℕ × Error)
get_triggers_by_event_type_id format id = do
  (exists, failure) ← ask (λ b. b.type_exists triggers trigger_db_mapping)
  on_error failure (λ e. pure (some [], 0, some e))
      do
        return_if (not exists) (pure (some [], 0, none)) do
          found ←
              ask (λ b. b.filter_by_term_query triggers trigger_db_mapping "eventTypeId" id format)
          listed "TriggerDB.GetTriggersByEventTypeId" (λ trigger. trigger) found

unfoldable pub delete_trigger : Ident → M (Bool × Error)
unfolding remove_query
delete_trigger id = do
  (document, found, failure) ← get_one id
  on_error failure (λ e. pure (found, some e))
      (on_nil document (pure (false, none)) λ trigger. do
        (answer, failed) ←
            send (delete triggers trigger_db_mapping id)
              (λ b. b.deleted triggers trigger_db_mapping id)
        on_error failed
            (λ e. do
              result ← deref answer
              pure (result.found, some ("TriggerDB.DeleteById failed: " <> e)))
            (on_nil answer (pure (false, some "TriggerDB.DeleteById failed: no deleteResult"))
              λ result. return_if (not result.found) (pure (false, none)) do
                (answer2, failed2) ← remove_query trigger.percolation_id
                on_error failed2
                    (λ e. do
                      result2 ← deref answer2
                      pure (result2.found, some ("TriggerDB.DeleteById percquery failed: " <> e)))
                    (on_nil answer2
                      (pure (false, some "TriggerDB.DeleteById percquery failed: no deleteResult"))
                      λ result2. pure (result2.found, none))))

-- ===== src/Db/EventTypes.antt =====
-- workflow/EventTypeDB.go
use mathlib.Core.Option
use mathlib.Core.List.{head?}
use pz_workflow.Prelude.{
  ℕ, String, ◌<>◌, Bool, true, false, not, Option, none, some, List, [], ◌∷◌, length, ltb, nat_eq,
  if◌then◌else◌,
}
use pz_workflow.Json.{Json}
use pz_workflow.Model.{Ident, EventType, event_type_db_mapping}
use pz_workflow.Backend.{
  Backend, Error, event_types, event_type_doc, JsonPagination, SearchResult, post, delete,
}
use pz_workflow.Exec.{
  M, pure, deref, ask, send, compute, ◌>>=◌, on_error, return_if, attempt, on_nil,
}
use pz_workflow.Db.Hits.{decode_result}

-- The first variable whose type is no mapping type.
unfoldable pub first_invalid : Backend → List (String × Json) → Option Json
first_invalid b [] = none
first_invalid b ((k, v) ∷ vars) = if b.is_valid_mapping_type v then first_invalid b vars else some v

unfoldable pub post_data : EventType → M Error
post_data event_type = do
  vars ← compute (λ b. b.vars_from_struct event_type.mapping)
  attempt vars (λ e. pure (some ("EventTypeDB.PostData failed: " <> e)))
      λ vs. do
        invalid ← compute (λ b. first_invalid b vs)
        shown ← compute (λ b. Option.map b.sprint invalid)
        on_error shown
            (λ v. pure (
              some (
                "EventTypeDB.PostData failed: " <> v
                <> " was not recognized as a valid mapping type")))
            do
              let doc = event_type_doc event_type
              let id = event_type.event_type_id
              (response, failure) ←
                  send (post event_types event_type_db_mapping id doc)
                    (λ b. b.posted event_types event_type_db_mapping id doc)
              on_error failure (λ e. pure (some ("EventTypeDB.PostData failed: " <> e)))
                  do
                    result ← deref response
                    pure (
                        if result.created
                        then none
                        else some "EventTypeDB.PostData failed: not created")

-- The end of each listing: the documents of the search, and the number of all hits.
unfoldable pub listed :
    String → Option SearchResult × Error → M (Option (List EventType) × ℕ × Error)
listed method (found, failure) =
    on_error failure (λ e. pure (none, 0, some (method <> " failed: " <> e)))
      (on_nil found (pure (none, 0, some (method <> " failed: no searchResult"))) λ result. do
        decoded ← decode_result (λ b. b.unmarshal_event_type) result
        attempt decoded (λ e. pure (none, 0, some e))
            λ list. pure (some list, result.total_hits, none))

unfoldable pub get_all : JsonPagination → M (Option (List EventType) × ℕ × Error)
get_all format = do
  (exists, failure) ← ask (λ b. b.type_exists event_types event_type_db_mapping)
  on_error failure (λ e. pure (some [], 0, some e))
      do
        return_if (not exists) (pure (some [], 0, none)) do
          found ← ask (λ b. b.filter_by_match_all event_types event_type_db_mapping format)
          listed "EventTypeDB.GetAll" found

unfoldable pub get_event_types_by_dsl_query : String → M (Option (List EventType) × ℕ × Error)
get_event_types_by_dsl_query dsl = do
  (exists, failure) ← ask (λ b. b.type_exists event_types event_type_db_mapping)
  on_error failure (λ e. pure (some [], 0, some e))
      do
        return_if (not exists) (pure (some [], 0, none)) do
          found ← ask (λ b. b.search_by_json event_types event_type_db_mapping dsl)
          listed "EventTypeDB.GetEventTypesByDslQuery" found

-- On an error the flag is read off the result's pointer, whatever that is.
unfoldable pub get_one : Ident → M (Option EventType × Bool × Error)
get_one id = do
  (answer, failure) ← ask (λ b. b.get_by_id event_types event_type_db_mapping id)
  on_error failure
      (λ e. do
        result ← deref answer
        pure (none, result.found, some ("EventTypeDB.GetOne failed: " <> e)))
      (on_nil answer (pure (none, true, some "EventTypeDB.GetOne failed: no getResult")) λ result.
        do
          source ← deref result.source
          decoded ← compute (λ b. b.unmarshal_event_type source)
          attempt decoded (λ e. pure (none, result.found, some e))
              λ event_type. pure (some event_type, result.found, none))

-- `getResult.GetHit(0)`, out of range where there is no hit.
unfoldable pub first_hit : SearchResult → M (Option String)
first_hit result = do hits ← deref result.hits; deref (head? hits)

abbrev num_hits : SearchResult → ℕ
num_hits result = elim result.hits [ none ↦ 0 | some hits ↦ length hits ]

unfoldable pub get_id_by_name : Option JsonPagination → String → M (Option Ident × Bool × Error)
unfolding first_hit
get_id_by_name format name = do
  (answer, failure) ←
      ask (λ b. b.filter_by_term_query event_types event_type_db_mapping "name" name format)
  on_error failure
      (λ e. do
        result ← deref answer
        pure (none, result.found, some ("EventTypeDB.GetIDByName failed: " <> e)))
      (on_nil answer (pure (none, true, some "EventTypeDB.GetIDByName failed: no getResult"))
        λ result.
          return_if (ltb 1 (num_hits result))
            (pure
              (none, true, some "EventTypeDB.GetIDByName failed: matched more than one EventType!"))
            (return_if (nat_eq (num_hits result) 0) (pure (none, false, none)) do
              hit ← first_hit result
              source ← deref hit
              decoded ← compute (λ b. b.unmarshal_event_type source)
              attempt decoded (λ e. pure (none, result.found, some e))
                  λ event_type. pure (some event_type.event_type_id, result.found, none)))

unfoldable pub delete_by_id : Ident → M (Bool × Error)
delete_by_id id = do
  (answer, failure) ←
      send (delete event_types event_type_db_mapping id)
        (λ b. b.deleted event_types event_type_db_mapping id)
  on_error failure
      (λ e. do
        result ← deref answer
        pure (result.found, some ("EventTypeDB.DeleteById failed: " <> e)))
      (on_nil answer (pure (false, some "EventTypeDB.DeleteById failed: no deleteResult"))
        λ result. pure (result.found, none))

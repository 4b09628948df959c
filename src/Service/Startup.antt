-- ===== src/Service/Startup.antt =====
-- `Service.Init` of workflow/Service.go, with the six constructors of the databases that it calls. `made`
-- tells which indices are in the map that the kit hands over.
pub mod Created
pub mod Started
use pz_workflow.Prelude.{String, Bool, false, not, Option, none, some, List, [], ◌∷◌, is_empty}
use pz_workflow.Json.{Fields, text, end, field}
use pz_workflow.Model.{Stats, EventType, TimeStamp}
use pz_workflow.Backend.{
  Error, Index, event_types, events, triggers, alerts, crons, test_elasticsearch,
}
use pz_workflow.Exec.{
  M, pure, fault, deref, ask, count, set_origin, recovered, ◌>>=◌, ◌>>◌, on_error, return_if,
}
use pz_workflow.Db.Hits.{new_resource_db}
use pz_workflow.Service.Lookup.{ingest_type_name, execute_type_name}
use pz_workflow.Service.EventTypes.{post_event_type}

-- `NewEventTypeDB` and the other constructors, one after the other until one fails. An index that is not in
-- the map is a nil `IIndex`, on which `Create` panics.
unfoldable pub new_databases : (Index → Bool) → List Index → M Error
new_databases made [] = pure none
new_databases made (index ∷ indices) = return_if (not (made index)) fault do
  failure ← new_resource_db index
  on_error failure (λ e. pure (some e)) (new_databases made indices)

-- The indices in the order of `Init`.
abbrev pub service_indices : List Index
service_indices = event_types ∷ events ∷ triggers ∷ alerts ∷ crons ∷ test_elasticsearch ∷ []

-- The function that is polled: the index of event types is there and has a type.
unfoldable pub polling_fn : M (Bool × Error)
polling_fn = do
  (exists, failure) ← ask (λ b. b.index_exists event_types)
  on_error failure (λ e. pure (false, some e))
      do
        return_if (not exists) (pure (false, none)) do
          (types, failed) ← ask (λ b. b.get_types event_types)
          on_error failed (λ e. pure (false, some e))
              (return_if (is_empty types) (pure (false, none)) (pure (exists, none)))

abbrev system_type : String → String → Fields → EventType
system_type name created_by mapping = record {
  event_type_id = "";
  name = name;
  mapping = mapping;
  created_by = created_by;
  created_on = "";
}

abbrev pub ingest_event_type : String → EventType
ingest_event_type system = system_type ingest_type_name system (
    field "dataId" (text "string") (
      field "dataType" (text "string") (
        field "epsg" (text "integer") (
          field "minX" (text "double") (
            field "minY" (text "double") (
              field "maxX" (text "double")
                (field "maxY" (text "double") (field "hosted" (text "boolean") end))))))))

abbrev pub execution_completed_type : String → EventType
execution_completed_type system = system_type execute_type_name system (
    field "jobId" (text "string")
      (field "status" (text "string") (field "dataId" (text "string") end)))

abbrev pub set_created_on : TimeStamp → Stats → Stats
set_created_on now stats = record stats { created_on = now }

-- `elasticsearch.PollFunction`, the names of the service and of its user, and the kit's map.
module _ (poll : M (Bool × Error) → M (Bool × Error)) (name system : String)
    (made : Index → Bool) where
  -- Up to the point where the index of event types is ready.
  unfoldable pub prepare : M Error
  unfolding new_databases polling_fn
  prepare = do
    now ← ask (λ b. b.now)
    count (set_created_on now)
    failure ← new_databases made service_indices
    on_error failure (λ e. pure (some e))
        do set_origin name; (ready, not_ready) ← poll polling_fn; pure not_ready

  -- Both responses are only looked at for the log, which panics where there is none. A panic is
  -- recovered, and then the result is the nil error: `none` stands for that.
  unfoldable pub init : M (Option Error)
  unfolding prepare
  init = recovered do
    failure ← prepare
    on_error failure (λ e. pure (some e))
        do
          posted ← post_event_type (ingest_event_type system)
          resp ← deref posted
          posted_completed ← post_event_type (execution_completed_type system)
          resp_completed ← deref posted_completed
          pure none

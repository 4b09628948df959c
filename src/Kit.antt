-- ===== src/Kit.antt =====
-- workflow/Kit.go: how the service is put together, started and stopped.
pub mod Starting
pub mod Scripts
use pz_workflow.Prelude.{String, Bool, true, Option, none, some}
use pz_workflow.Model.{
  event_type_db_mapping, event_db_mapping, trigger_db_mapping, alert_db_mapping, cron_db_mapping,
}
use pz_workflow.Backend.{
  Error, Index, event_types, events, triggers, alerts, crons, test_elasticsearch, set_mapping,
}
use pz_workflow.Exec.{M, pure, request, exit, attempt, ◌>>=◌, ◌>>◌, on_error, return_if}
use pz_workflow.Service.Stats.{test_elasticsearch_mapping}
use pz_workflow.Kit.Scripts.Indices.{Surroundings, make_indices}
use pz_workflow.Service.Startup.{init}
use pz_workflow.Service.Cron.{init_cron}

-- The result of a method that recovers: after a panic it is the nil error.
abbrev pub error_of : Option Error → Error
error_of none = none
error_of (some failure) = failure

abbrev pub nothing : M (Unit {0})
nothing = pure tt

-- The errors of `SetMapping` are dropped.
unfoldable pub make_mock_indices : M (Unit {0})
make_mock_indices = do
  request (set_mapping event_types event_type_db_mapping "{}")
  request (set_mapping events event_db_mapping "{}")
  request (set_mapping triggers trigger_db_mapping "{}")
  request (set_mapping alerts alert_db_mapping "{}")
  request (set_mapping crons cron_db_mapping "{}")
  request (set_mapping test_elasticsearch test_elasticsearch_mapping "{}")

-- The map of the indices; an error of `makeIndices` ends the process.
unfoldable pub indices_of : Surroundings → Bool → M (Index → Bool)
unfolding make_mock_indices make_indices
indices_of s mocking =
    return_if mocking (do make_mock_indices; pure (λ index. true))
      (attempt (make_indices s) (λ e. exit) pure)

-- `PollFunction`, the names of the service and of its user, the calls of `makeIndices`, and that of the
-- generic server.
module _ (poll : M (Bool × Error) → M (Bool × Error)) (name system : String) (s : Surroundings)
    (configure : M Error) where
  unfoldable pub new_kit : Bool → M Error
  unfolding indices_of
  new_kit mocking = do
    made ← indices_of s mocking
    started ← init poll name system made
    on_error (error_of started) (λ e. pure (some e))
        do
          return_if mocking nothing
              do registered ← init_cron; on_error (error_of registered) (λ e. exit) nothing
          configure

unfoldable pub stop : M Error → (Index → M Error) → Bool → M Error
stop server_stop delete mocking = do
  failure ← server_stop
  on_error failure (λ e. pure (some e))
      (return_if mocking
        (do
          e1 ← delete event_types
          on_error e1 (λ e. pure (some e))
              do
                e2 ← delete events
                on_error e2 (λ e. pure (some e))
                    do e3 ← delete triggers; on_error e3 (λ e. pure (some e)) (delete alerts))
        (pure none))

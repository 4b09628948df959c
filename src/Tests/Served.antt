-- ===== src/Tests/Served.antt =====
-- The theorems on the routes and on the scheduled jobs, at examples.
use pz_workflow.Prelude.{◌≡◌, refl, none, [], ◌∷◌}
use pz_workflow.Backend.{loop_variable}
use pz_workflow.Exec.{World, requests, final, ◌>>=◌}
use pz_workflow.Exec.Keeps.{kept}
use pz_workflow.Exec.Steady.{steady}
use pz_workflow.Exec.Wrote.{Runs}
use pz_workflow.Service.Cron.{register_all, run}
use pz_workflow.Service.Cron.Register.{Requested}
use pz_workflow.Server.{handle, get_all_event_types, delete_alert}
use pz_workflow.Server.Reading.{reading_routes_change_nothing}
use pz_workflow.Server.Serving.{Serves, started, handled, ran, Serves-steady, RunsAs, Serves-run}
use pz_workflow.Texts.{has_suffix}
use pz_workflow.Tests.{context, event, later_event, world}

registers :
    Runs
      (register_all (event ∷ later_event ∷ []))
      world
      none
      (final (register_all (event ∷ later_event ∷ []) world))
unfolding register_all ◌>>=◌ pz_workflow.Db.EventTypes.get_one
registers = refl

reading_routes_change_nothing_example :
    kept (final (handle get_all_event_types context world)) ≡ kept world
unfolding has_suffix
reading_routes_change_nothing_example = reading_routes_change_nothing 2 _ context world refl refl

-- The world after the registration, a request and a job.
abbrev registered : World
registered = final (register_all (event ∷ later_event ∷ []) world)

abbrev served : World
served = final (
    run (record { event = loop_variable; event_type_name = "Flood" })
      (final (handle delete_alert context registered)))

serves : Serves registered served
serves =
    ran (handled started delete_alert context)
      (record { event = loop_variable; event_type_name = "Flood" })

Serves-steady_example : steady served ≡ steady registered
Serves-steady_example = Serves-steady serves

Serves-run_example :
    Requested
      (RunsAs later_event served)
      (event ∷ later_event ∷ [])
      (requests world)
      (requests registered)
Serves-run_example = Serves-run event (later_event ∷ []) world registered served registers serves

-- ===== src/Unique/Laws.antt =====
-- `addUniqueParams` and `removeUniqueParams` of workflow/Service.go undo each other.
use pz_workflow.Prelude.{String, ◌≡◌}
use pz_workflow.Json.{Fields, find}
use pz_workflow.Exec.{World, Outcome, done}
use pz_workflow.Unique.{add_unique_params, remove_unique_params}
use text.Mathlib.TextPositions.{eq_refl}

-- Data that was put under the name of its event type is given back as it was, whatever it holds; that
-- changes nothing in the world and cannot panic.
pub remove_unique_params-add_unique_params :
    (name : String) (input : Fields) (w : World)
    → remove_unique_params name (add_unique_params name input) w ≡ done input w
unfolding remove_unique_params add_unique_params find pz_workflow.Exec.on_nil pz_workflow.Exec.pure
remove_unique_params-add_unique_params name input w = rw (eq_refl name)

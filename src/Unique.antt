-- ===== src/Unique.antt =====
-- `addUniqueParams` and `removeUniqueParams` of workflow/Service.go: data is stored under the name of
-- its event type.
pub mod Laws
use pz_workflow.Prelude.{String}
use pz_workflow.Json.{Json, Fields, obj, end, field, find}
use pz_workflow.Exec.{M, pure, fault, on_nil}

unfoldable pub add_unique_params : String → Fields → Fields
add_unique_params unique_key input = field unique_key (obj input) end

-- `v.(map[string]interface{})` without a test.
unfoldable pub as_map : Json → M Fields
as_map (obj m) = pure m
as_map _ = fault

unfoldable pub remove_unique_params : String → Fields → M Fields
unfolding find as_map
remove_unique_params unique_key input = on_nil (find unique_key input) (pure input) as_map

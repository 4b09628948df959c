-- ===== src/Tests/Values.antt =====
-- The theorems on values, at examples.
use pz_workflow.Prelude.{◌≡◌, ◌↔◌, refl, none, [], ◌∷◌, length, inl}
use pz_workflow.Json.{Fields, field, end, text}
use pz_workflow.Exec.{done}
use pz_workflow.Unique.{add_unique_params, remove_unique_params}
use pz_workflow.Unique.Laws.{remove_unique_params-add_unique_params}
use pz_workflow.Db.Events.Schema.{visit_node}
use pz_workflow.Db.Events.Schema.Valid.{accepted, all_name_types, accepted-visit_node}
use pz_workflow.Db.Events.Verify.{Vars, vars_error}
use pz_workflow.Db.Events.Verify.Shapes.{HasShapes, vars_error-none}
use pz_workflow.Db.Conditions.{
  handle_dot_tilde_map, handle_unique_params_map, encode_condition, decode_condition,
}
use pz_workflow.Db.Conditions.Paths.{dot_to_tilde, tilde_to_dot, insert_level, strip_level}
use pz_workflow.Db.Conditions.RoundTrip.{
  handle_dot_tilde_map-undo, decode_condition-encode_condition, decode_condition_strips,
}
use pz_workflow.Tests.{flood, trigger, backend, world}

remove_unique_params-add_unique_params_example :
    remove_unique_params "Flood" (add_unique_params "Flood" flood.mapping) world
    ≡ done flood.mapping world
remove_unique_params-add_unique_params_example =
    remove_unique_params-add_unique_params "Flood" flood.mapping world

accepted-visit_node_example :
    accepted (visit_node backend flood.mapping) ≡ all_name_types backend flood.mapping
accepted-visit_node_example = accepted-visit_node backend flood.mapping

abbrev one_variable : Vars
one_variable = ("level", text "integer") ∷ []

abbrev one_value : Vars
one_value = ("level", text "7") ∷ []

vars_error-none_example :
    (vars_error backend one_variable one_value ≡ none)
    ↔ ((length one_variable ≡ length one_value) × HasShapes backend one_variable one_value)
vars_error-none_example = vars_error-none backend one_variable one_value

handle_dot_tilde_map-undo_example :
    handle_dot_tilde_map tilde_to_dot (handle_dot_tilde_map dot_to_tilde trigger.condition)
    ≡ trigger.condition
unfolding pz_workflow.Db.Conditions.has
handle_dot_tilde_map-undo_example = handle_dot_tilde_map-undo trigger.condition (refl, refl, tt, tt)

decode_condition-encode_condition_example :
    decode_condition
      (encode_condition (handle_unique_params_map "Flood" insert_level trigger.condition))
    ≡ trigger.condition
unfolding pz_workflow.Db.Conditions.has
decode_condition-encode_condition_example =
    decode_condition-encode_condition "Flood" trigger.condition refl refl
      ((refl, inl ("level", refl)), refl, tt, tt)

-- A condition on a variable within another one, and on a variable of the event.
abbrev nested : Fields
nested = field "data.place.level" (text "7") (field "data.level" (text "8") end)

stripped :
    handle_unique_params_map "unusedEventTypeName" (λ event_type_name key. strip_level key) nested
    ≡ field "data.level" (text "8") end
unfolding handle_unique_params_map strip_level
stripped = refl

decode_condition_strips_example :
    decode_condition (
      encode_condition (
        decode_condition (encode_condition (handle_unique_params_map "Flood" insert_level nested))))
    ≡ handle_unique_params_map "unusedEventTypeName" (λ event_type_name key. strip_level key) nested
unfolding pz_workflow.Db.Conditions.has
decode_condition_strips_example =
    decode_condition_strips "Flood" nested refl refl
      ((refl, inl ("place.level", refl)), refl, tt, ((refl, inl ("level", refl)), refl, tt, tt))

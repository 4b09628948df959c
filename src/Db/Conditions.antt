-- ===== src/Db/Conditions.antt =====
-- The rewriting of keys in trigger conditions, workflow/TriggerDB.go: dots are stored as tildes, and
-- the name of the event type, which `Service.PostTrigger` put into the paths, is taken out again.
pub mod Paths
pub mod Undo
pub mod RoundTrip
use pz_workflow.Prelude.{String, Bool, true, false, ◌==◌, ◌||◌, ◌<>◌, if◌then◌else◌}
use pz_workflow.Json.{
  Json, Items, Fields, null, boolean, number, text, arr, obj, nil, cons, end, field,
}
use pz_workflow.Db.Conditions.Paths.{dot_to_tilde, tilde_to_dot, strip_level}

unfoldable pub has : String → Fields → Bool
has k end = false
has k (field j v m) = j == k || has k m

-- `outputObj[k] = v` in a loop whose later rounds wrote `rest`: of equal keys the last one stays.
unfoldable pub enter : String → Json → Fields → Fields
unfolding has
enter k v rest = if has k rest then rest else field k v rest

-- The loops of `handleUniqueParamsMap` and `handleUniqueParamsArr`; `key` sees the entry's value too.
unfoldable mutual
  unfolding enter

  pub rewrite : (Json → String → String) → Json → Json
  rewrite key null = null
  rewrite key (boolean b) = boolean b
  rewrite key (number n) = number n
  rewrite key (text s) = text s
  rewrite key (arr xs) = arr (rewrite_arr key xs)
  rewrite key (obj m) = obj (rewrite_map key m)

  pub rewrite_arr : (Json → String → String) → Items → Items
  rewrite_arr key nil = nil
  rewrite_arr key (cons x xs) = cons (rewrite key x) (rewrite_arr key xs)

  pub rewrite_map : (Json → String → String) → Fields → Fields
  rewrite_map key end = end
  rewrite_map key (field k v m) = enter (key v k) (rewrite key v) (rewrite_map key m)

-- `handleDotTilde` replaces in the keys of leaves alone.
abbrev pub leaf_key : (String → String) → Json → String → String
leaf_key replace (arr xs) k = k
leaf_key replace (obj m) k = k
leaf_key replace _ k = replace k

unfoldable pub handle_dot_tilde_map : (String → String) → Fields → Fields
unfolding rewrite_map
handle_dot_tilde_map replace = rewrite_map (leaf_key replace)

unfoldable pub handle_unique_params_map : String → (String → String → String) → Fields → Fields
unfolding rewrite_map
handle_unique_params_map event_type_name get_key = rewrite_map (λ v k. get_key event_type_name k)

unfoldable pub encode_condition : Fields → Fields
unfolding handle_dot_tilde_map
encode_condition = handle_dot_tilde_map dot_to_tilde

unfoldable pub decode_condition : Fields → Fields
unfolding handle_dot_tilde_map handle_unique_params_map
decode_condition m =
    handle_unique_params_map "unusedEventTypeName" (λ event_type_name key. strip_level key)
      (handle_dot_tilde_map tilde_to_dot m)

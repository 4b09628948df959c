-- ===== src/Db/Events/Schema.antt =====
-- `ConstructEventMappingSchema` of workflow/EventDB.go: the index's schema from an event type's
-- mapping.
pub mod Valid
use Prim.Native.String.{len, slice}
use pz_workflow.Prelude.{String, ◌<>◌, ◌-◌, not, if◌then◌else◌}
use pz_workflow.Json.{Json, Fields, null, boolean, number, text, arr, obj, end, field}
use pz_workflow.Backend.{Backend, Result, ok, err}
use pz_workflow.Exec.{M, pure, compute, ◌>>=◌, attempt}

-- `v[1 : len(v)-1]`
abbrev pub element_type : String → String
element_type s = slice s 1 (len s - 1)

unfoldable pub visit_leaf : Backend → String → Result Json
visit_leaf b s =
    if not (b.is_valid_mapping_type (text s))
    then err (
        "EventDB.ConstructEventMappingSchema failed: \""
        <> b.go_syntax (text s)
        <> "\" was not recognized as a valid mapping type")
    else ok (
        obj (
          field "type" (text (if b.is_valid_array_type_mapping (text s) then element_type s else s))
            end))

abbrev unexpected : Backend → Json → Result Json
unexpected b v = err ("EventDB.ConstructEventMappingSchema failed: unexpected type " <> b.type_of v)

abbrev pub wrapper_tree : Result Fields → Result Json
wrapper_tree (err e) = err e
wrapper_tree (ok subtree) =
    ok (obj (field "dynamic" (text "strict") (field "properties" (obj subtree) end)))

-- `outputObj[k] = tree` and the rest of the loop.
abbrev pub join : String → Result Json → Result Fields → Result Fields
join k (err e) rest = err e
join k (ok tree) (err e) = err e
join k (ok tree) (ok rest) = ok (field k tree rest)

unfoldable mutual
  unfolding visit_leaf

  pub visit_value : Backend → Json → Result Json
  visit_value b (text s) = visit_leaf b s
  visit_value b (obj m) = wrapper_tree (visit_node b m)
  visit_value b null = unexpected b null
  visit_value b (boolean x) = unexpected b (boolean x)
  visit_value b (number n) = unexpected b (number n)
  visit_value b (arr xs) = unexpected b (arr xs)

  pub visit_node : Backend → Fields → Result Fields
  visit_node b end = ok end
  visit_node b (field k v m) = join k (visit_value b v) (visit_node b m)

unfoldable pub construct_event_mapping_schema : String → Fields → M (Result String)
unfolding visit_node
construct_event_mapping_schema name mapping = do
  esdsl ← compute (λ b. visit_node b mapping)
  attempt esdsl (λ e. pure (err e))
      λ tree. do
        printed ← compute (λ b. b.struct_to_string tree)
        attempt printed (λ e. pure (err e))
            λ dsl. pure (
              ok (
                "{\n\t\t\"" <> name
                <> "\":{\n\t\t\t\"properties\":{\n\t\t\t\t\"data\":{\n\t\t\t\t\t\"dynamic\": \"strict\",\n\t\t\t\t\t\"properties\": "
                <> dsl <> "\n\t\t\t\t}\n\t\t\t}\n\t\t}\n\t}"))

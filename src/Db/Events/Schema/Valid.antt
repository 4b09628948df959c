-- ===== src/Db/Events/Schema/Valid.antt =====
-- Which mappings `ConstructEventMappingSchema` of workflow/EventDB.go accepts.
use pz_workflow.Prelude.{◌≡◌, refl, Bool, true, false, ◌&&◌, arith}
use pz_workflow.Json.{Json, Fields, null, boolean, number, text, arr, obj, end, field}
use pz_workflow.Backend.{Backend, Result, ok, err}
use pz_workflow.Db.Events.Schema.{visit_value, visit_node}

-- Every leaf is a text that names a mapping type.
abbrev mutual
  pub names_types : Backend → Json → Bool
  names_types b (text s) = b.is_valid_mapping_type (text s)
  names_types b (obj m) = all_name_types b m
  names_types b _ = false

  pub all_name_types : Backend → Fields → Bool
  all_name_types b end = true
  all_name_types b (field k v m) = names_types b v && all_name_types b m

abbrev pub accepted {ℓ} : {A : Type ℓ} → Result A → Bool
accepted (ok a) = true
accepted (err e) = false

mutual
  unfolding visit_node

  accepted-visit_value : (b : Backend) (v : Json) → accepted (visit_value b v) ≡ names_types b v
  accepted-visit_value b (text s) = ground arith
  accepted-visit_value b (obj m) = ground (arith, accepted-tree b m)
  accepted-visit_value b null = refl
  accepted-visit_value b (boolean x) = refl
  accepted-visit_value b (number n) = refl
  accepted-visit_value b (arr xs) = refl

  accepted-tree : (b : Backend) (m : Fields) → accepted (visit_node b m) ≡ all_name_types b m
  accepted-tree b end = refl
  accepted-tree b (field k v m) = ground (arith, accepted-visit_value b v, accepted-tree b m)

-- A schema is made of an event type's mapping if and only if every leaf of the mapping, at any depth,
-- is a text that names a mapping type.
pub accepted-visit_node :
    (b : Backend) (m : Fields) → accepted (visit_node b m) ≡ all_name_types b m
accepted-visit_node = accepted-tree

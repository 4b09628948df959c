-- ===== src/Json.antt =====
-- Decoded JSON, the `interface{}` and `map[string]interface{}` values of the source. A map is its
-- list of entries in the order in which one `range` loop visits them; a number keeps its text.
use pz_workflow.Prelude.{String, Bool, Option, none, some, ◌==◌, if◌then◌else◌}

mutual
  pub data Json : Type 0 where
    null : Json
    boolean : Bool → Json
    number : String → Json
    text : String → Json
    arr : Items → Json
    obj : Fields → Json

  pub data Items : Type 0 where
    nil : Items
    cons : Json → Items → Items

  pub data Fields : Type 0 where
    end : Fields
    field : String → Json → Fields → Fields

-- `m[k]` with its presence.
unfoldable pub find : String → Fields → Option Json
find k end = none
find k (field j v m) = if j == k then some v else find k m

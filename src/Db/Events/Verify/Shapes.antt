-- ===== src/Db/Events/Verify/Shapes.antt =====
-- What `verifyEventReadyToPost` of workflow/EventDB.go demands of the variables.
use pz_workflow.Prelude.{◌≡◌, refl, ◌↔◌, String, Option, none, some, [], ◌∷◌, length, arith}
use pz_workflow.Json.{Json}
use pz_workflow.Backend.{Backend}
use pz_workflow.Db.Events.Verify.{Vars, value_of, shape_error, shapes_error, vars_error}

-- A value, if there is one, is an array where the type `v` says array, and only there.
abbrev pub HasShape : Backend → Json → Option Json → Type 0
HasShape b v none = Unit
HasShape b v (some w) = b.is_valid_array_type_mapping v ≡ b.value_is_valid_array w

abbrev pub HasShapes : Backend → Vars → Vars → Type 0
HasShapes b [] there = Unit
HasShapes b ((k, v) ∷ vars) there = HasShape b v (value_of k there) × HasShapes b vars there

shape_error-none :
    (b : Backend) (k : String) (v : Json) (o : Option Json)
    → shape_error b k v o ≡ none
    → HasShape b v o
shape_error-none b k v none h = tt
shape_error-none b k v (some w) h = ground arith

shape_error_of_HasShape :
    (b : Backend) (k : String) (v : Json) (o : Option Json)
    → HasShape b v o
    → shape_error b k v o ≡ none
shape_error_of_HasShape b k v none h = refl
shape_error_of_HasShape b k v (some w) h = ground arith

shapes_error-none :
    (b : Backend) (wanted there : Vars)
    → shapes_error b wanted there ≡ none
    → HasShapes b wanted there
unfolding shapes_error
shapes_error-none b [] there h = tt
shapes_error-none b ((k, v) ∷ vars) there h = (
  shape_error-none b k v (value_of k there) (ground arith),
  shapes_error-none b vars there (ground arith),
)

shapes_error_of_HasShapes :
    (b : Backend) (wanted there : Vars)
    → HasShapes b wanted there
    → shapes_error b wanted there ≡ none
unfolding shapes_error
shapes_error_of_HasShapes b [] there h = refl
shapes_error_of_HasShapes b ((k, v) ∷ vars) there h = rw (
  shape_error_of_HasShape b k v (value_of k there) h.0,
  shapes_error_of_HasShapes b vars there h.1,
)

-- The comparison finds no fault if and only if the event has as many variables as the mapping, and
-- each of them whose name the mapping has is an array exactly if the mapping says so.
pub vars_error-none :
    (b : Backend) (wanted there : Vars)
    → (vars_error b wanted there ≡ none)
      ↔ ((length wanted ≡ length there) × HasShapes b wanted there)
unfolding vars_error
vars_error-none b wanted there = (
  λ h. (ground arith, shapes_error-none b wanted there (ground arith)),
  λ h. ground (arith, shapes_error_of_HasShapes b wanted there h.1),
)

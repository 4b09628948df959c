-- ===== src/Tests/Shelved.antt =====
-- The refinement of the map of event types, at an example.
use pz_workflow.Prelude.{◌≡◌, refl, true, none, some, [], ◌∷◌, List, String, Option, arith}
use pz_workflow.Model.{EventType}
use pz_workflow.Exec.{World}
use pz_workflow.Exec.Wrote.{Runs}
use pz_workflow.Db.Shelf.{
  Shelf, shelf, is_some, is_none, IsReliable, Operation, put, remove, lookup, Shows, perform_all,
  specified_all,
}
use pz_workflow.Db.Shelf.Refined.{perform_all-Shows}
use pz_workflow.Tests.{flood, world}

-- The text of an event type is its name.
abbrev text_of : EventType → String
text_of t = t.name

source_of : Option EventType → Option String
source_of none = none
source_of (some t) = some (text_of t)

abbrev reliable : World
reliable = record world {
  backend = record world.backend {
    posted =
        λ i m id d h. (some (record { created = is_none (shelf h.requests id); id = id }), none);
    deleted = λ i m id h. (some (record { found = is_some (shelf h.requests id) }), none);
    get_by_id = λ i m id h. (
      some (record {
        source = source_of (shelf h.requests id);
        found = is_some (shelf h.requests id);
      }),
      none,
    );
  };
}

got :
    (p : Option EventType) (t : EventType)
    → p ≡ some t
    → (source_of p ≡ some (text_of t)) × (is_some p ≡ true)
unfolding source_of
got none t e = absurd (ground arith)
got (some x) t e = ground arith

is_reliable : IsReliable text_of reliable.backend
is_reliable = record {
  creates = λ t h. refl;
  deletes = λ id h. refl;
  gets = λ id t h e. let (a, b) = got (shelf h.requests id) t e in rw (a, b) refl;
}

abbrev steps : List Operation
steps = put flood ∷ lookup "et1" ∷ remove "et1" ∷ remove "et1" ∷ []

abbrev empty : Shelf
empty id = none

perform_all-Shows_example :
    (v : World) × Runs (perform_all steps) reliable (specified_all reliable.backend steps empty).0 v
    × Shows v (specified_all reliable.backend steps empty).1
unfolding shelf pz_workflow.Db.Shelf.specified pz_workflow.Db.Shelf.accepts
    pz_workflow.Db.EventTypes.first_invalid pz_workflow.Db.Shelf.all_valid
perform_all-Shows_example =
    perform_all-Shows steps reliable empty text_of is_reliable (λ id. refl)
      (tt, ((flood, refl, refl), (tt, (tt, tt))))

-- ===== src/Db/Events/Verify.antt =====
-- `EventDB.verifyEventReadyToPost` of workflow/EventDB.go: an event's data against its type's mapping.
pub mod Shapes
use pz_workflow.Prelude.{
  String, ◌<>◌, Option, none, some, List, [], ◌∷◌, length, ltb, ◌==◌, ◌||◌, not, if◌then◌else◌,
}
use pz_workflow.Json.{Json}
use pz_workflow.Model.{Event, EventType, Payload, event_type_data}
use pz_workflow.Backend.{Backend, Error}
use pz_workflow.Exec.{M, pure, deref, compute, ◌>>=◌, attempt, on_nil}
use pz_workflow.Texts.{show_names}
use pz_workflow.Unique.{remove_unique_params}
use pz_workflow.Service.Lookup.{get_event_type}

abbrev pub Vars : Type 0
Vars = List (String × Json)

-- The variables whose type is a geographical one.
unfoldable pub excluded : Backend → Vars → List String
excluded b [] = []
excluded b ((k, v) ∷ vars) =
    let rest = excluded b vars in
    if b.sprint v == "geo_point" || b.sprint v == "geo_shape" then k ∷ rest else rest

unfoldable pub value_of : String → Vars → Option Json
value_of k [] = none
value_of k ((j, v) ∷ vars) = if j == k then some v else value_of k vars

-- The names of the first that the second has not.
unfoldable pub missing : Vars → Vars → List String
unfolding value_of
missing [] there = []
missing ((k, v) ∷ vars) there =
    let rest = missing vars there in elim (value_of k there) [ none ↦ k ∷ rest | some w ↦ rest ]

-- One variable: an array where and only where the type says so.
abbrev pub shape_error : Backend → String → Json → Option Json → Error
shape_error b k v none = none
shape_error b k v (some w) =
    if not (b.is_valid_array_type_mapping v)
    then if b.value_is_valid_array w
      then some ("EventDB.PostData failed: an array was passed into the non-array field " <> k)
      else none
    else if not (b.value_is_valid_array w)
    then some ("EventDB.PostData failed: a non-array was pasted into the array field " <> k)
    else none

abbrev or_else : Error → Error → Error
or_else (some e) rest = some e
or_else none rest = rest

-- The nested loops at the end: an event's variable of the same name, if there is one, is compared.
unfoldable pub shapes_error : Backend → Vars → Vars → Error
unfolding value_of
shapes_error b [] there = none
shapes_error b ((k, v) ∷ vars) there =
    or_else (shape_error b k v (value_of k there)) (shapes_error b vars there)

-- The comparison of the variables: their numbers, then their shapes.
unfoldable pub vars_error : Backend → Vars → Vars → Error
unfolding missing shapes_error
vars_error b wanted there =
    if ltb (length there) (length wanted)
    then some (
        "EventDB.PostData failed: the variables "
        <> show_names (missing wanted there)
        <> " were specified in the EventType but were not found in the Event")
    else if ltb (length wanted) (length there)
    then some (
        "EventDB.PostData failed: the variables "
        <> show_names (missing there wanted)
        <> " were not specified in the EventType but were found in the Event")
    else shapes_error b wanted there

-- `eventTypeObj.(*EventType)`
abbrev as_event_type : Payload → Option EventType
as_event_type (event_type_data t) = some t
as_event_type _ = none

unfoldable pub verify_event_ready_to_post : Event → M Error
unfolding vars_error excluded
verify_event_ready_to_post event = do
  reply ← get_event_type event.event_type_id
  resp ← deref reply
  on_nil (as_event_type resp.payload)
      (pure (some "EventDB.PostData failed: unable to obtain specified eventtype"))
      λ event_type. do
        wanted ← compute (λ b. b.vars_from_struct event_type.mapping)
        attempt wanted (λ e. pure (some ("EventDB.PostData failed: " <> e)))
            λ wanted_vars. do
              event_data ← remove_unique_params event_type.name event.payload
              there ← compute (λ b. b.vars_from_struct_skip event_data (excluded b wanted_vars))
              attempt there (λ e. pure (some ("EventDB.PostData failed: " <> e)))
                  λ there_vars. compute (λ b. vars_error b wanted_vars there_vars)

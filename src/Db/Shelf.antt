-- ===== src/Db/Shelf.antt =====
-- What workflow/EventTypeDB.go promises: a map from identifiers to event types.
pub mod Refined
use pz_workflow.Prelude.{
  ◌≡◌, refl, subst, ◌∙◌, String, Bool, true, false, Option, none, some, Option-cases, List, [], ◌∷◌,
  ◌==◌, ◌&&◌, if◌then◌else◌, arith, inl, inr,
}
use pz_workflow.Json.{Json}
use pz_workflow.Model.{Ident, EventType, event_type_db_mapping}
use pz_workflow.Backend.{
  Backend, History, Request, ok, err, event_types, event_type_doc, post, delete,
}
use pz_workflow.Exec.{World, requests, M, final, pure, ask, send, ◌>>=◌}
use pz_workflow.Exec.Keeps.{Keeps, keeps_rules}
use pz_workflow.Exec.Wrote.{Runs}
use pz_workflow.Exec.Ran.{Result-cases, Runs-then}
use pz_workflow.Db.EventTypes

-- The abstract view of the index, which is a function of what was requested, newest first.
abbrev pub Shelf : Type 0
Shelf = Ident → Option EventType

unfoldable pub shelf : List Request → Shelf
shelf [] id = none
shelf (post event_types mapping i (event_type_doc t) ∷ rs) id =
    if i == id then some t else shelf rs id
shelf (delete event_types mapping i ∷ rs) id = if i == id then none else shelf rs id
shelf (r ∷ rs) id = shelf rs id

abbrev pub is_some {ℓ} : {A : Type ℓ} → Option A → Bool
is_some none = false
is_some (some a) = true

abbrev pub is_none {ℓ} : {A : Type ℓ} → Option A → Bool
is_none none = true
is_none (some a) = false

-- The index works: it keeps what is posted, and reports it as created where there was nothing under the
-- identifier; it deletes what is there, and gives the text of what it has.
pub record IsReliable (text : EventType → String) (b : Backend) : Type 0 where
  pub creates :
      (t : EventType) (h : History)
      → b.posted event_types event_type_db_mapping t.event_type_id (event_type_doc t) h ≡ (
        some
            (record { created = is_none (shelf h.requests t.event_type_id); id = t.event_type_id }),
        none,
      )
  pub deletes :
      (id : Ident) (h : History)
      → b.deleted event_types event_type_db_mapping id h
        ≡ (some (record { found = is_some (shelf h.requests id) }), none)
  pub gets :
      (id : Ident) (t : EventType) (h : History)
      → shelf h.requests id ≡ some t
      → b.get_by_id event_types event_type_db_mapping id h
        ≡ (some (record { source = some (text t); found = true }), none)

pub data Operation : Type 0 where
  put : EventType → Operation
  remove lookup : Ident → Operation

pub data Answer : Type 0 where
  stored removed : Bool → Answer
  found : Option EventType → Answer

-- The operations of the database, and what is seen of their results.
unfoldable pub perform : Operation → M Answer
perform (put t) = do failure ← EventTypes.post_data t; pure (stored (is_none failure))
perform (remove id) = do (deleted, failure) ← EventTypes.delete_by_id id; pure (removed deleted)
perform (lookup id) = do (t, there, failure) ← EventTypes.get_one id; pure (found t)

-- Every one of the variables names a mapping type.
unfoldable pub all_valid : Backend → List (String × Json) → Bool
all_valid b [] = true
all_valid b ((key, v) ∷ vars) = b.is_valid_mapping_type v && all_valid b vars

-- The variables of the mapping can be taken from it, and every one names a mapping type.
unfoldable pub accepts : Backend → EventType → Bool
unfolding all_valid
accepts b t = elim (b.vars_from_struct t.mapping) [ ok vars ↦ all_valid b vars | err e ↦ false ]

abbrev pub updated : Shelf → Ident → Option EventType → Shelf
updated m i t id = if i == id then t else m id

-- The specification: the answer, and the map after the operation.
unfoldable pub specified : Backend → Operation → Shelf → Answer × Shelf
unfolding accepts
specified b (put t) m = (
  stored (accepts b t && is_none (m t.event_type_id)),
  if accepts b t then updated m t.event_type_id (some t) else m,
)
specified b (remove id) m = (removed (is_some (m id)), updated m id none)
specified b (lookup id) m = (found (m id), m)

-- An event type is looked up where there is one, and its text can be decoded.
abbrev pub Allowed : (EventType → String) → Backend → Operation → Shelf → Type 0
Allowed text b (lookup id) m =
    (t : EventType) × (m id ≡ some t) × (b.unmarshal_event_type (text t) ≡ ok t)
Allowed text b op m = Unit {0}

abbrev pub Shows : World → Shelf → Type 0
Shows w m = (id : Ident) → shelf (requests w) id ≡ m id

-- A sequence of operations, and what it should answer.
unfoldable pub perform_all : List Operation → M (List Answer)
unfolding perform
perform_all [] = pure []
perform_all (op ∷ ops) = do answer ← perform op; answers ← perform_all ops; pure (answer ∷ answers)

unfoldable pub specified_all : Backend → List Operation → Shelf → List Answer × Shelf
unfolding specified
specified_all b [] m = ([], m)
specified_all b (op ∷ ops) m =
    let (answer, m') = specified b op m in
    let (answers, m'') = specified_all b ops m' in (answer ∷ answers, m'')

abbrev pub AllAllowed : (EventType → String) → Backend → List Operation → Shelf → Type 0
AllAllowed text b [] m = Unit {0}
AllAllowed text b (op ∷ ops) m = Allowed text b op m × AllAllowed text b ops (specified b op m).1

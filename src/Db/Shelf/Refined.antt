-- ===== src/Db/Shelf/Refined.antt =====
-- The operations of workflow/EventTypeDB.go implement a map from identifiers to event types.
use pz_workflow.Prelude.{
  ◌≡◌, refl, subst, ◌∙◌, String, true, false, Bool-cases, none, some, Option-cases, List, [], ◌∷◌,
  arith, inl, inr,
}
use pz_workflow.Json.{Json}
use pz_workflow.Model.{Ident, EventType}
use pz_workflow.Backend.{Backend, History, Request}
use pz_workflow.Exec.{World, final, pure, ask, send, ◌>>=◌}
use pz_workflow.Exec.Keeps.{Keeps, keeps_rules}
use pz_workflow.Exec.Wrote.{Runs}
use pz_workflow.Exec.Ran.{Result-cases, Runs-then}
use pz_workflow.Db.EventTypes
use pz_workflow.Db.Shelf.{
  Shelf, shelf, all_valid, IsReliable, Operation, put, remove, lookup, perform, specified, Allowed,
  Shows, perform_all, specified_all, AllAllowed,
}

-- What the search for the first invalid variable finds.
first_invalid-none :
    (b : Backend) (vs : List (String × Json))
    → EventTypes.first_invalid b vs ≡ none
    → all_valid b vs ≡ true
unfolding EventTypes.first_invalid all_valid
first_invalid-none b [] h = refl
first_invalid-none b ((key, v) ∷ vs) h = elim (Bool-cases (b.is_valid_mapping_type v)) [
  | inl e ↦ let ih = first_invalid-none b vs in ground (arith, e, h, ih)
  | inr e ↦ absurd (ground (arith, e, h))
]

first_invalid-some :
    (b : Backend) (vs : List (String × Json)) (x : Json)
    → EventTypes.first_invalid b vs ≡ some x
    → all_valid b vs ≡ false
unfolding EventTypes.first_invalid all_valid
first_invalid-some b [] x h = absurd (ground (arith, h))
first_invalid-some b ((key, v) ∷ vs) x h = elim (Bool-cases (b.is_valid_mapping_type v)) [
  | inl e ↦ let ih = first_invalid-some b vs x in ground (arith, e, h, ih)
  | inr e ↦ ground (arith, e)
]

put-Shows :
    (t : EventType) (w : World) (m : Shelf) (text : EventType → String)
    → IsReliable text w.backend
    → Shows w m
    → Runs (perform (put t)) w (specified w.backend (put t) m).0 (final (perform (put t) w))
      × Shows (final (perform (put t) w)) (specified w.backend (put t) m).1
unfolding perform EventTypes.post_data ◌>>=◌ specified shelf
put-Shows t w m text r s = elim (Result-cases (w.backend.vars_from_struct t.mapping)) [
  | inr (e, refused) ↦ (ground (arith, refused), λ i. ground (arith, refused, s i))
  | inl (vs, h) ↦ elim (Option-cases (EventTypes.first_invalid w.backend vs)) [
    | inl valid ↦
        let c = r.creates t w.history in
        let all = first_invalid-none w.backend vs valid in
        (
          ground (arith, h, valid, all, c, s t.event_type_id),
          λ i. ground (arith, h, valid, all, c, s i),
        )
    | inr (v, invalid) ↦
        let all = first_invalid-some w.backend vs v invalid in
        (ground (arith, h, invalid, all), λ i. ground (arith, h, invalid, all, s i))
  ]
]

remove-Shows :
    (id : Ident) (w : World) (m : Shelf) (text : EventType → String)
    → IsReliable text w.backend
    → Shows w m
    → Runs
        (perform (remove id))
        w
        (specified w.backend (remove id) m).0
        (final (perform (remove id) w))
      × Shows (final (perform (remove id) w)) (specified w.backend (remove id) m).1
unfolding perform EventTypes.delete_by_id ◌>>=◌ specified shelf
remove-Shows id w m text r s =
    let e = r.deletes id w.history in rw (e, s id) (refl, λ i. ground (arith, s i))

lookup-Shows :
    (id : Ident) (w : World) (m : Shelf) (text : EventType → String)
    → IsReliable text w.backend
    → Shows w m
    → Allowed text w.backend (lookup id) m
    → Runs
        (perform (lookup id))
        w
        (specified w.backend (lookup id) m).0
        (final (perform (lookup id) w))
      × Shows (final (perform (lookup id) w)) (specified w.backend (lookup id) m).1
unfolding perform EventTypes.get_one ◌>>=◌ specified
lookup-Shows id w m text r s (t, e, d) =
    let g = r.gets id t w.history (s id ∙ e) in ground (arith, g, e, d, s)

abbrev backend_of : World → Backend
backend_of w = w.backend

backend-ask {ℓ} : {A : Type ℓ} (f : Backend → History → A) → Keeps backend_of (ask f)
unfolding ask
backend-ask f = record { at = λ w. refl }

backend-send {ℓ} :
    {A : Type ℓ} (r : Request) (f : Backend → History → A) → Keeps backend_of (send r f)
unfolding send
backend-send r f = record { at = λ w. refl }

perform-Keeps : (op : Operation) → Keeps backend_of (perform op)
unfolding perform EventTypes.post_data EventTypes.delete_by_id EventTypes.get_one
perform-Keeps (put t) = search (keeps_rules, backend-send) depth 24
perform-Keeps (remove id) = search (keeps_rules, backend-send) depth 24
perform-Keeps (lookup id) = search (keeps_rules, backend-ask) depth 24

perform-Shows :
    (op : Operation) (w : World) (m : Shelf) (text : EventType → String)
    → IsReliable text w.backend
    → Shows w m
    → Allowed text w.backend op m
    → Runs (perform op) w (specified w.backend op m).0 (final (perform op w))
      × Shows (final (perform op w)) (specified w.backend op m).1
perform-Shows (put t) w m text r s a = put-Shows t w m text r s
perform-Shows (remove id) w m text r s a = remove-Shows id w m text r s
perform-Shows (lookup id) w m text r s a = lookup-Shows id w m text r s a

-- The same, for a backend that is that of the world.
perform-Shows_at :
    (op : Operation) (w : World) (m : Shelf) (text : EventType → String) (b : Backend)
    → backend_of w ≡ b
    → IsReliable text b
    → Shows w m
    → Allowed text b op m
    → Runs (perform op) w (specified b op m).0 (final (perform op w))
      × Shows (final (perform op w)) (specified b op m).1
perform-Shows_at op w m text b e r s a =
    subst
      (λ b.
        IsReliable text b
        → Allowed text b op m
        → Runs (perform op) w (specified b op m).0 (final (perform op w))
          × Shows (final (perform op w)) (specified b op m).1)
      e (λ r a. perform-Shows op w m text r s a) r a

performed :
    (ops : List Operation) (w : World) (m : Shelf) (text : EventType → String) (b : Backend)
    → backend_of w ≡ b
    → IsReliable text b
    → Shows w m
    → AllAllowed text b ops m
    → (v : World) × Runs (perform_all ops) w (specified_all b ops m).0 v
      × Shows v (specified_all b ops m).1
unfolding perform_all specified_all pure
performed [] w m text b e r s a = (w, refl, s)
performed (op ∷ ops) w m text b e r s (a, rest) =
    let (ran, s1) = perform-Shows_at op w m text b e r s a in
    let u = final (perform op w) in
    let (v, ran', s2) = performed ops u _ text b ((perform-Keeps op).at w ∙ e) r s1 rest in
    (
      v,
      Runs-then (perform op) _ w _ u _ v ran (Runs-then (perform_all ops) _ u _ v _ v ran' refl),
      s2,
    )

-- Over a reliable index, whatever operations are performed one after the other, each lookup being of an
-- event type that is there and can be decoded: each answers as the specification does for a map from
-- identifiers to event types, and the index then shows that map.
pub perform_all-Shows :
    (ops : List Operation) (w : World) (m : Shelf) (text : EventType → String)
    → IsReliable text w.backend
    → Shows w m
    → AllAllowed text w.backend ops m
    → (v : World) × Runs (perform_all ops) w (specified_all w.backend ops m).0 v
      × Shows v (specified_all w.backend ops m).1
perform_all-Shows ops w m text r s a = performed ops w m text w.backend refl r s a

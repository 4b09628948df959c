-- ===== src/Service/Startup/Started.antt =====
-- What `Service.Init` of workflow/Service.go has done when it returns.
use pz_workflow.Prelude.{
  ◌≡◌, refl, ap, subst, ◌∙◌, ◌+◌, String, Bool, true, false, inl, inr, none, some, List, [], ◌∷◌,
  is_empty, arith,
}
use pz_workflow.Backend.{Backend, Error, Index, Request, event_types}
use pz_workflow.Model.{TimeStamp}
use pz_workflow.Exec.{
  World, requests, M, done, pure, deref, recovered, ◌>>=◌, on_error, ask, count, set_origin,
}
use pz_workflow.Exec.Keeps.{
  Keeps, Reads, reads_rules, Keeps-bind, Keeps-pure, Keeps-on_error, Keeps-return_if, Keeps-fault,
}
use pz_workflow.Exec.Wrote.{Runs}
use pz_workflow.Exec.Ran.{
  Runs-bind, Runs-recovered, Runs-return_error, Runs-pure, Runs-deref, Runs-Keeps,
}
use pz_workflow.Response.{JsonResponse}
use pz_workflow.Service.EventTypes.{post_event_type}
use pz_workflow.Service.Startup.{
  new_databases, service_indices, polling_fn, prepare, init, set_created_on, ingest_event_type,
  execution_completed_type,
}
use pz_workflow.Db.Hits.{new_resource_db}
use pz_workflow.Service.Startup.Created.{created, new_databases-IsCreated}

-- The index of event types is there, and has a type.
abbrev pub IsReady : World → Type 0
IsReady w =
    (types : List String) × (w.backend.index_exists event_types w.history ≡ (true, none))
    × (w.backend.get_types event_types (record w.history { calls = w.history.calls + 1 })
        ≡ (types, none))
    × (is_empty types ≡ false)

polling_fn-IsReady : (w v : World) → Runs polling_fn w (true, none) v → IsReady w
unfolding polling_fn ◌>>=◌
polling_fn-IsReady w v r = (
  (w.backend.get_types event_types (record w.history { calls = w.history.calls + 1 })).0,
  ground (arith, r),
  ground (arith, r),
  ground (arith, r),
)

new_databases-none :
    (made : Index → Bool) (indices : List Index) (w v : World)
    → Runs (new_databases made indices) w none v
    → requests v ≡ created indices (requests w)
new_databases-none made indices w v r = elim (new_databases-IsCreated made indices w) [
  | inl (failure, u, r', inl (e, a, s)) ↦ ground (arith, r, r', s)
  | inl (failure, u, r', inr (e, b, i, t, l, a, s)) ↦ absurd (ground (arith, r, r', e))
  | inr (u, r', rest) ↦ absurd (ground (arith, r, r'))
]

-- What the start asks, and the outside that answers.
abbrev pub known : World → Backend × List Request
known w = (w.backend, requests w)

Keeps-now : Keeps known (ask (λ b. b.now))
unfolding ask
Keeps-now = record { at = λ w. refl }

Keeps-created_on : (t : TimeStamp) → Keeps known (count (set_created_on t))
unfolding count
Keeps-created_on t = record { at = λ w. refl }

Keeps-set_origin : (name : String) → Keeps known (set_origin name)
unfolding set_origin
Keeps-set_origin name = record { at = λ w. refl }

Keeps-new_databases :
    (made : Index → Bool) (indices : List Index)
    → Keeps (λ w. w.backend) (new_databases made indices)
unfolding new_databases new_resource_db pz_workflow.Exec.send
Keeps-new_databases made [] = Keeps-pure _
Keeps-new_databases made (index ∷ indices) = Keeps-return_if _ _ _ Keeps-fault (
    Keeps-bind _ _ (Keeps-new index)
      λ e. Keeps-on_error e _ _ (λ s. Keeps-pure _) (Keeps-new_databases made indices))
  where
    Keeps-new : (index : Index) → Keeps (λ w. w.backend) (new_resource_db index)
    Keeps-new index = record { at = λ w. refl }

known_chain :
    (seen u2 u1 w : World)
    → known seen ≡ known u2
    → u2.backend ≡ u1.backend
    → requests u2 ≡ created service_indices (requests u1)
    → known u1 ≡ known w
    → known seen ≡ (w.backend, created service_indices (requests w))
known_chain seen u2 u1 w a b c d = cc (a, b, c, ap (λ k. k.0) d, ap (λ k. k.1) d)

polling_fn-Reads : Reads polling_fn
unfolding polling_fn
polling_fn-Reads = search reads_rules depth 14

-- What stands behind a nil error of `Init` that no panic caused: the world in which the index was seen
-- to be ready, after all indices were asked for, and the responses to the two system event types.
pub record IsStarted (system : String) (w v : World) : Type 0 where
  pub seen : World
  pub is_made : known seen ≡ (w.backend, created service_indices (requests w))
  pub is_ready : IsReady seen
  pub prepared : World
  pub is_seen : Runs polling_fn seen (true, none) prepared
  pub ingest : JsonResponse
  pub posted : World
  pub is_ingest : Runs (post_event_type (ingest_event_type system)) prepared (some ingest) posted
  pub completed : JsonResponse
  pub is_completed :
      Runs (post_event_type (execution_completed_type system)) posted (some completed) v

module _ (poll : M (Bool × Error) → M (Bool × Error)) (name system : String) (made : Index → Bool)
    (w : World)
    (polls : (fn : M (Bool × Error)) (w v : World) (ok : Bool)
      → Reads fn
      → Runs (poll fn) w (ok, none) v
      → (u : World) × (known u ≡ known w) × Runs fn u (true, none) v) where
  prepare-none :
      (v : World)
      → Runs (prepare poll name system made) w none v
      → (seen : World) × (known seen ≡ (w.backend, created service_indices (requests w)))
        × Runs polling_fn seen (true, none) v
  unfolding prepare
  prepare-none v r =
      let (now, u0, r0, h0) = Runs-bind _ _ w none v r in
      let (x, u1, r1, h1) = Runs-bind _ _ u0 none v h0 in
      let (failure, u2, r2, h2) = Runs-bind _ _ u1 none v h1 in
      let (n2, h3) = Runs-return_error failure _ u2 v h2 in
      let (y, u3, r3, h4) = Runs-bind _ _ u2 none v h3 in
      let (polled, u4, r4, h5) = Runs-bind _ _ u3 none v h4 in
      let (n5, s5) = Runs-pure polled.1 none u4 v h5 in
      let (seen, k, q) =
        polls polling_fn u3 u4 polled.0 polling_fn-Reads
          (subst (λ e. Runs (poll polling_fn) u3 (polled.0, e) u4) n5 r4) in
      let k1 =
        Runs-Keeps known _ u0 x u1 (Keeps-created_on now) r1
        ∙ Runs-Keeps known _ w now u0 Keeps-now r0 in
      let k2 =
        Runs-Keeps (λ w. w.backend) _ u1 failure u2 (Keeps-new_databases made service_indices) r2 in
      let made =
        new_databases-none made service_indices u1 u2
          (subst (λ e. Runs (new_databases made service_indices) u1 e u2) n2 r2) in
      let k3 = k ∙ Runs-Keeps known _ u2 y u3 (Keeps-set_origin name) r3 in
      (
        seen,
        known_chain seen u2 u1 w k3 k2 made k1,
        subst (λ u. Runs polling_fn seen (true, none) u) s5 q,
      )

  -- If `Init` returns the nil error without a panic, where `PollFunction` asks for nothing itself and
  -- returns the nil error only when its function has returned true just before: the six indices were
  -- asked for, then the index of event types was seen to be there and to have a type, and then both system
  -- event types were posted and answered. Whether these were created is not asked.
  pub init-IsStarted :
      (v : World) → Runs (init poll name system made) w (some none) v → IsStarted system w v
  unfolding init
  init-IsStarted v r =
      let (failure, u0, r0, h0) = Runs-bind _ _ w none v (Runs-recovered _ none w v r) in
      let (n0, h1) = Runs-return_error failure _ u0 v h0 in
      let (posted, u1, r1, h2) = Runs-bind _ _ u0 none v h1 in
      let (resp, n1, h3) = Runs-deref posted _ u1 none v h2 in
      let (completed, u2, r2, h4) = Runs-bind _ _ u1 none v h3 in
      let (resp', n2, h5) = Runs-deref completed _ u2 none v h4 in
      let (n3, s3) = Runs-pure none none u2 v h5 in
      let (seen, k, q) =
        prepare-none u0 (subst (λ e. Runs (prepare poll name system made) w e u0) n0 r0) in
      record {
        seen = seen;
        is_made = k;
        is_ready = polling_fn-IsReady seen u0 q;
        prepared = u0;
        is_seen = q;
        ingest = resp;
        posted = u1;
        is_ingest = subst (λ p. Runs (post_event_type (ingest_event_type system)) u0 p u1) n1 r1;
        completed = resp';
        is_completed =
            subst (λ p. Runs (post_event_type (execution_completed_type system)) u1 p v) n2
              (subst (λ v. Runs (post_event_type (execution_completed_type system)) u1 completed v)
                s3 r2);
      }

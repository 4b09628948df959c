-- ===== src/Service/Startup/Created.antt =====
-- How the constructors of the databases end, which `Service.Init` of workflow/Service.go calls.
use pz_workflow.Prelude.{
  ◌≡◌, ◌≢◌, refl, ap, ◌∙◌, ◌⊎◌, inl, inr, Bool, true, false, not, none, some, List, [], ◌∷◌, ◌++◌,
  arith,
}
use pz_workflow.Backend.{Error, Index, Request, create}
use pz_workflow.Exec.{
  World, Outcome, done, panic, requests, M, pure, fault, ◌>>=◌, on_error, return_if,
}
use pz_workflow.Service.Startup.{new_databases}
use pz_workflow.Db.Hits.{new_resource_db}

abbrev pub created : List Index → List Request → List Request
created [] past = past
created (index ∷ indices) past = created indices (create index ∷ past)

-- All of these indices are in the map.
abbrev pub AllMade : (Index → Bool) → List Index → Type 0
AllMade made [] = Unit {0}
AllMade made (index ∷ indices) = (made index ≡ true) × AllMade made indices

-- How the constructors return: all indices were in the map and were asked for, or those up to one that
-- failed.
abbrev pub IsCreated : (Index → Bool) → List Index → World → Error → World → Type 0
IsCreated made indices w failure v =
    ((failure ≡ none) × AllMade made indices × (requests v ≡ created indices (requests w)))
    ⊎ ((failure ≢ none)
        × (before : List Index) × (index : Index) × (after : List Index) × (indices
            ≡ before ++ index ∷ after)
        × AllMade made (before ++ index ∷ [])
        × (requests v ≡ created (before ++ index ∷ []) (requests w)))

-- How they panic: one was not in the map, and those before it were asked for.
abbrev pub IsMissing : (Index → Bool) → List Index → World → World → Type 0
IsMissing made indices w v =
    (before : List Index) × (index : Index) × (after : List Index) × (indices
      ≡ before ++ index ∷ after)
    × AllMade made before
    × (made index ≡ false)
    × (requests v ≡ created before (requests w))

-- How a list of constructors ends.
abbrev pub Ends : (Index → Bool) → List Index → World → Outcome Error → Type 0
Ends made indices w o =
    ((failure : Error) × (v : World) × (o ≡ done failure v) × IsCreated made indices w failure v)
    ⊎ ((v : World) × (o ≡ panic v) × IsMissing made indices w v)

Ends-cons :
    (made : Index → Bool) (index : Index) (indices : List Index) (w u : World) (o : Outcome Error)
    → made index ≡ true
    → requests u ≡ create index ∷ requests w
    → Ends made indices u o
    → Ends made (index ∷ indices) w o
Ends-cons made index indices w u o m h (inl (failure, v, r, inl (e, a, s))) =
    inl (failure, v, r, inl (e, (m, a), s ∙ ap (created indices) h))
Ends-cons made index indices w u o m h
      (inl (failure, v, r, inr (e, before, last, after, l, a, s))) =
    inl (
      failure,
      v,
      r,
      inr (
        e,
        index ∷ before,
        last,
        after,
        ap (λ l. index ∷ l) l,
        (m, a),
        s ∙ ap (created (before ++ last ∷ [])) h,
      ),
    )
Ends-cons made index indices w u o m h (inr (v, r, (before, missing, after, l, a, n, s))) = inr (
  v,
  r,
  (index ∷ before, missing, after, ap (λ l. index ∷ l) l, (m, a), n, s ∙ ap (created before) h),
)

Ends-failed :
    (made : Index → Bool) (index : Index) (indices : List Index) (w u : World) (e : Error)
    → made index ≡ true
    → requests u ≡ create index ∷ requests w
    → Ends made indices u (new_databases made indices u)
    → Ends made (index ∷ indices) w (on_error e (λ e. pure (some e)) (new_databases made indices) u)
unfolding on_error pure
Ends-failed made index indices w u none m h rest = Ends-cons made index indices w u _ m h rest
Ends-failed made index indices w u (some e) m h rest =
    inl (some e, u, refl, inr ((λ p. ground (arith, p)), [], index, indices, refl, (m, tt), h))

Ends-return_if :
    (made : Index → Bool) (index : Index) (indices : List Index) (w : World) (m : M Error)
    (b : Bool)
    → made index ≡ b
    → (made index ≡ true → Ends made (index ∷ indices) w (m w))
    → Ends made (index ∷ indices) w (return_if (not b) fault m w)
unfolding return_if fault
Ends-return_if made index indices w m true e h = h e
Ends-return_if made index indices w m false e h =
    inr (w, refl, ([], index, indices, refl, tt, e, refl))

-- Whatever indices are in the map, and whatever the creations answer, the constructors of the databases end in
-- one of three ways: they return no error, all indices were in the map, and they have asked for all of them, in
-- order and each once; or they return an error, after asking for those up to one of them, all of which were
-- in the map; or they panic at the first index that is not in the map, after asking for those before it.
pub new_databases-IsCreated :
    (made : Index → Bool) (indices : List Index) (w : World)
    → Ends made indices w (new_databases made indices w)
unfolding new_databases new_resource_db ◌>>=◌
new_databases-IsCreated made [] w = inl (none, w, refl, inl (refl, tt, refl))
new_databases-IsCreated made (index ∷ indices) w =
    Ends-return_if made index indices w _ (made index) refl (λ m.
      Ends-failed made index indices w _ (w.backend.created index w.history) m refl
        (new_databases-IsCreated made indices _))

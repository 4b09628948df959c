-- ===== src/Kit/Starting.antt =====
-- How `Kit.Stop` of workflow/Kit.go ends, and what it has deleted.
use pz_workflow.Prelude.{
  ◌+◌, ◌≡◌, ◌≢◌, ◌⊎◌, inl, inr, refl, Bool, true, false, none, some, Option-cases, List, [], ◌∷◌,
  ◌++◌, arith,
}
use pz_workflow.Backend.{
  Backend, History, Error, Index, event_types, events, triggers, alerts, drop_index,
}
use pz_workflow.Exec.{World, M, requests, send, pure, ◌>>=◌, on_error, return_if}
use pz_workflow.Exec.Wrote.{Runs}
use pz_workflow.Kit.{stop}

-- The indices of a mocked kit that `Stop` deletes, in its order; those of scheduled events and of the test
-- documents are not among them.
abbrev pub stopped_indices : List Index
stopped_indices = event_types ∷ events ∷ triggers ∷ alerts ∷ []

-- All that was asked when the deletion of these has been asked for too.
abbrev pub asked : List Index → History → History
asked [] h = h
asked (index ∷ indices) h =
    asked indices (record { calls = h.calls + 1; requests = drop_index index ∷ h.requests })

module _ (dropped : Index → Backend → History → Error) where
  -- Each of the deletions was answered by the nil error.
  abbrev pub AllNil : List Index → Backend → History → Type 0
  AllNil [] b h = Unit {0}
  AllNil (index ∷ indices) b h =
      (dropped index b h ≡ none) × AllNil indices b (asked (index ∷ []) h)

  -- How the deletions end: all were asked for and answered by the nil error, or those up to one that
  -- failed, with the error of that one.
  abbrev pub IsDropped : World → Error → World → Type 0
  IsDropped u e v =
      ((e ≡ none)
        × AllNil stopped_indices u.backend u.history
        × (v.history ≡ asked stopped_indices u.history))
      ⊎ ((e ≢ none)
          × (before : List Index) × (index : Index) × (after : List Index) × (stopped_indices
              ≡ before ++ index ∷ after)
          × AllNil before u.backend u.history
          × (dropped index u.backend (asked before u.history) ≡ e)
          × (v.history ≡ asked (before ++ index ∷ []) u.history))

  deletions-IsDropped :
      (u v : World) (e : Error)
      → Runs (stop (pure none) (λ index. send (drop_index index) (dropped index)) true) u e v
      → IsDropped u e v
  unfolding stop ◌>>=◌ send on_error return_if pure
  deletions-IsDropped u v e r =
      let h0 = u.history in
      let h1 = asked (event_types ∷ []) h0 in
      let h2 = asked (events ∷ []) h1 in
      let h3 = asked (triggers ∷ []) h2 in
      elim (Option-cases (dropped event_types u.backend h0)) [
        | inr (m, f) ↦ inr (
          ground (arith, r, f),
          [],
          event_types,
          events ∷ triggers ∷ alerts ∷ [],
          refl,
          tt,
          ground (arith, r, f),
          ground (arith, r, f),
        )
        | inl e1 ↦ elim (Option-cases (dropped events u.backend h1)) [
          | inr (m, f) ↦ inr (
            ground (arith, r, e1, f),
            event_types ∷ [],
            events,
            triggers ∷ alerts ∷ [],
            refl,
            (e1, tt),
            ground (arith, r, e1, f),
            ground (arith, r, e1, f),
          )
          | inl e2 ↦ elim (Option-cases (dropped triggers u.backend h2)) [
            | inr (m, f) ↦ inr (
              ground (arith, r, e1, e2, f),
              event_types ∷ events ∷ [],
              triggers,
              alerts ∷ [],
              refl,
              (e1, (e2, tt)),
              ground (arith, r, e1, e2, f),
              ground (arith, r, e1, e2, f),
            )
            | inl e3 ↦ elim (Option-cases (dropped alerts u.backend h3)) [
              | inr (m, f) ↦ inr (
                ground (arith, r, e1, e2, e3, f),
                event_types ∷ events ∷ triggers ∷ [],
                alerts,
                [],
                refl,
                (e1, (e2, (e3, tt))),
                ground (arith, r, e1, e2, e3, f),
                ground (arith, r, e1, e2, e3, f),
              )
              | inl e4 ↦ inl (
                ground (arith, r, e1, e2, e3, e4),
                (e1, (e2, (e3, (e4, tt)))),
                ground (arith, r, e1, e2, e3, e4),
              )
            ]
          ]
        ]
      ]

  rest-IsDropped :
      (mocking : Bool) (u v : World) (e : Error)
      → Runs (stop (pure none) (λ index. send (drop_index index) (dropped index)) mocking) u e v
      → ((mocking ≡ false) × (e ≡ none) × (requests v ≡ requests u))
        ⊎ ((mocking ≡ true) × IsDropped u e v)
  unfolding stop ◌>>=◌ pure on_error return_if
  rest-IsDropped true u v e r = inr (refl, deletions-IsDropped u v e r)
  rest-IsDropped false u v e r = inl (refl, ground (arith, r), ground (arith, r))

  -- However `Stop` returns, once the server's stop has returned: with the server's error, or without one
  -- where the kit is not mocked, and it has deleted nothing; or for a mocked kit with the nil error, and it
  -- has asked for the deletion of the indices of event types, events, triggers and alerts, each once, and
  -- all four were answered by the nil error; or with the error of one of these deletions, all before it
  -- having been answered by the nil error and none after it having been asked for.
  pub stop-drops :
      (server_stopped : M Error) (mocking : Bool) (w u v : World) (e0 e : Error)
      → Runs server_stopped w e0 u
      → Runs (stop server_stopped (λ index. send (drop_index index) (dropped index)) mocking) w e v
      → ((e0 ≢ none) × (e ≡ e0) × (requests v ≡ requests u))
        ⊎ ((e0 ≡ none) × (mocking ≡ false) × (e ≡ none) × (requests v ≡ requests u))
        ⊎ ((e0 ≡ none) × (mocking ≡ true) × IsDropped u e v)
  unfolding stop ◌>>=◌
  stop-drops server_stopped mocking w u v none e r h =
      elim (rest-IsDropped mocking u v e (ground (arith, r, h))) [
        | inl (m, n, s) ↦ inr (inl (refl, m, n, s))
        | inr (m, d) ↦ inr (inr (refl, m, d))
      ]
  stop-drops server_stopped mocking w u v (some m) e r h =
      inl (ground arith, ground (arith, r, h), ground (arith, r, h))

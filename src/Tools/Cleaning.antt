-- ===== src/Tools/Cleaning.antt =====
-- The `main` of tools/main.go: four goroutines that share one variable for their errors.
use pz_workflow.Prelude.{
  ◌≡◌, ◌≢◌, ◌↔◌, refl, subst, All, ◌⊎◌, inl, inr, none, some, List, [], ◌∷◌, map, arith,
}
use pz_workflow.Backend.{Error}

-- Where a goroutine stands: `deleteAllObjects` runs, and will give that result; it has been assigned
-- to `err`; `err` has been found nil and `wg.Done()` called.
pub data Phase : Type 0 where
  deleting : Error → Phase
  assigned ended : Phase

-- The variable `err` and the goroutines, and a step of one of them. A goroutine that finds an error in
-- `err` calls `log.Fatal`: there is no step after that.
pub data Turn : Error → List Phase → Error → List Phase → Type 0 where
  assigns :
      {e : Error} {gs : List Phase} (result : Error)
      → Turn e (deleting result ∷ gs) result (assigned ∷ gs)
  passes : {gs : List Phase} → Turn none (assigned ∷ gs) none (ended ∷ gs)
  beside :
      {e e' : Error} {gs gs' : List Phase} (g : Phase)
      → Turn e gs e' gs'
      → Turn e (g ∷ gs) e' (g ∷ gs')

pub data Turns (e : Error) (gs : List Phase) : Error → List Phase → Type 0 where
  here : Turns e gs e gs
  next :
      {e' e'' : Error} {gs' gs'' : List Phase}
      → Turns e gs e' gs'
      → Turn e' gs' e'' gs''
      → Turns e gs e'' gs''

-- The goroutines for alerts, triggers, events and event types, by what their deletions result in.
abbrev pub goroutines : List Error → List Phase
goroutines results = map deleting results

-- Every goroutine has called `wg.Done()`, and `main` returns: the tool exits as after a success.
abbrev pub Finishes : List Error → Type 0
Finishes results = (e : Error) × Turns none (goroutines results) e (map (λ r. ended) results)

-- One of the results is nil.
abbrev pub OneSucceeds : List Error → Type 0
OneSucceeds [] = ⊥
OneSucceeds (r ∷ results) = (r ≡ none) ⊎ OneSucceeds results

module _ (g : Phase) where
  Turns-beside :
      {e : Error} {gs : List Phase} {e' : Error} {gs' : List Phase}
      → Turns e gs e' gs'
      → Turns e (g ∷ gs) e' (g ∷ gs')
  Turns-beside here = here
  Turns-beside (next p st) = next (Turns-beside p) (beside g st)

Turns-trans :
    {e : Error} {gs : List Phase} {e' : Error} {gs' : List Phase} {e'' : Error} {gs'' : List Phase}
    → Turns e gs e' gs'
    → Turns e' gs' e'' gs''
    → Turns e gs e'' gs''
Turns-trans p here = p
Turns-trans p (next q st) = next (Turns-trans p q) st

abbrev all_assigned : List Error → List Phase
all_assigned results = map (λ r. assigned) results

-- All goroutines can assign before any of them looks; the last one decides what they see.
assign_all :
    (e : Error) (results : List Error)
    → (e' : Error) × Turns e (goroutines results) e' (all_assigned results)
assign_all e [] = (e, here)
assign_all e (r ∷ results) =
    let (e', p) = assign_all e results in (r, next (Turns-beside (deleting r) p) (assigns r))

assign_success :
    (e : Error) (results : List Error)
    → OneSucceeds results
    → Turns e (goroutines results) none (all_assigned results)
assign_success e [] h = absurd h
assign_success e (r ∷ results) (inl n) =
    let (e', p) = assign_all e results in
    subst (λ x. Turns e (goroutines (r ∷ results)) x (all_assigned (r ∷ results))) n
      (next (Turns-beside (deleting r) p) (assigns r))
assign_success e (r ∷ results) (inr h) =
    Turns-trans (next here (assigns r)) (Turns-beside assigned (assign_success r results h))

pass_all :
    (results : List Error) → Turns none (all_assigned results) none (map (λ r. ended) results)
pass_all [] = here
pass_all (r ∷ results) = next (Turns-beside assigned (pass_all results)) passes

-- While every result is an error: no goroutine has ended.
abbrev Fails : Phase → Type 0
Fails (deleting none) = ⊥
Fails (deleting (some s)) = Unit {0}
Fails assigned = Unit {0}
Fails ended = ⊥

abbrev HasAssigned : List Phase → Type 0
HasAssigned [] = ⊥
HasAssigned (deleting r ∷ gs) = HasAssigned gs
HasAssigned (assigned ∷ gs) = Unit {0}
HasAssigned (ended ∷ gs) = HasAssigned gs

HasAssigned-later : (g : Phase) (gs : List Phase) → HasAssigned gs → HasAssigned (g ∷ gs)
HasAssigned-later (deleting r) gs h = h
HasAssigned-later assigned gs h = tt
HasAssigned-later ended gs h = h

-- Then each step leaves an error in `err`: it assigns one, since none that looks may go on.
Turn-Fails :
    {e : Error} {gs : List Phase} {e' : Error} {gs' : List Phase}
    → Turn e gs e' gs'
    → All Fails gs
    → (HasAssigned gs → e ≢ none)
    → All Fails gs' × (e' ≢ none)
Turn-Fails (assigns none) h k = absurd h.0
Turn-Fails (assigns (some s)) h k = ((tt, h.1), λ q. ground arith)
Turn-Fails passes h k = absurd (k tt refl)
Turn-Fails (beside {gs = gs} g st) h k =
    let (h', k') = Turn-Fails st h.1 (λ q. k (HasAssigned-later g gs q)) in ((h.0, h'), k')

Turns-Fails :
    {e : Error} {gs : List Phase} {e' : Error} {gs' : List Phase}
    → Turns e gs e' gs'
    → All Fails gs
    → (HasAssigned gs → e ≢ none)
    → All Fails gs' × (HasAssigned gs' → e' ≢ none)
Turns-Fails here h k = (h, k)
Turns-Fails (next p st) h k =
    let (h1, k1) = Turns-Fails p h k in let (h2, k2) = Turn-Fails st h1 k1 in (h2, λ q. k2)

unassigned : (results : List Error) → HasAssigned (goroutines results) → ⊥
unassigned [] h = absurd h
unassigned (r ∷ results) h = unassigned results h

some_success : (results : List Error) → OneSucceeds results ⊎ All Fails (goroutines results)
some_success [] = inr tt
some_success (none ∷ results) = inl (inl refl)
some_success (some s ∷ results) = elim (some_success results) [
  | inl h ↦ inl (inr h)
  | inr h ↦ inr (tt, h)
]

finished : (r : Error) (results : List Error) → Finishes (r ∷ results) → OneSucceeds (r ∷ results)
finished r results (e', p) = elim (some_success (r ∷ results)) [
  | inl h ↦ h
  | inr h ↦ let (h', k) = Turns-Fails p h (λ q. absurd (unassigned (r ∷ results) q)) in absurd h'.0
]

-- The tool can exit as after a success, in some order of the goroutines' steps, if and only if one of the
-- four deletions resulted in no error: the errors of the other three are then lost.
pub main-Finishes :
    (alerts triggers events event_types : Error)
    → Finishes (alerts ∷ triggers ∷ events ∷ event_types ∷ [])
      ↔ OneSucceeds (alerts ∷ triggers ∷ events ∷ event_types ∷ [])
main-Finishes alerts triggers events event_types =
    let results : List Error = alerts ∷ triggers ∷ events ∷ event_types ∷ [] in
    (
      finished alerts (triggers ∷ events ∷ event_types ∷ []),
      λ h. (none, Turns-trans (assign_success none results h) (pass_all results)),
    )

-- ===== src/Service/Events/Results.antt =====
-- What `PostEvent` of workflow/Service.go does with the goroutines' results.
use pz_workflow.Prelude.{
  ℕ, zero, suc, ◌%◌, ◌<◌, ◌≡◌, refl, ◌≢◌, ◌↔◌, Option, none, some, subst, List, [], ◌∷◌, length,
  arith,
}
use pz_workflow.Backend.{Backend}
use pz_workflow.Model.{Event, EventType, Ident}
use pz_workflow.Response.{JsonResponse}
use pz_workflow.Exec.{World}
use pz_workflow.Exec.Wrote.{Runs}
use pz_workflow.Exec.Ran.{Runs-bind}
use pz_workflow.Service.Jobs.{fire}
use pz_workflow.Service.Events.{fire_all, record_result, nth_result, any_result}

nth_result_below :
    (n : ℕ) (results : List (Ident × JsonResponse))
    → n < length results
    → nth_result n results ≢ none
unfolding nth_result
nth_result_below n [] h e = absurd (omega arith)
nth_result_below zero (x ∷ results) h e = ground arith
nth_result_below (suc n) (x ∷ results) h e = nth_result_below n results (omega arith) e

-- Wherever the `range` over the results begins, it finds none if and only if no goroutine left one: so
-- the event is answered with 201 only if no job failed.
pub any_result-none :
    (b : Backend) (n : ℕ) (results : List (Ident × JsonResponse))
    → (any_result b n results ≡ none) ↔ (results ≡ [])
unfolding any_result nth_result
any_result-none b n [] = (λ e. refl, λ e. refl)
any_result-none b n (x ∷ results) = (
  λ e. absurd (nth_result_below (n % length (x ∷ results)) (x ∷ results) (ground arith) e),
  λ e. absurd (ground arith),
)

-- Each of the goroutines, run in this order, ends without a result.
abbrev pub AllSilent : Event → EventType → List Ident → World → World → Type 0
AllSilent event et [] w v = w ≡ v
AllSilent event et (id ∷ ids) w v =
    (u : World) × Runs (fire event et id) w none u × AllSilent event et ids u v

record_result-nil :
    (id : Ident) (result : Option JsonResponse) (results : List (Ident × JsonResponse))
    → record_result id result results ≡ []
    → (result ≡ none) × (results ≡ [])
unfolding record_result
record_result-nil id none results h = (refl, h)
record_result-nil id (some resp) [] h = absurd (ground arith)
record_result-nil id (some resp) ((j, old) ∷ results) h = absurd (ground arith)

-- If the goroutines of `PostEvent` leave no results in the end, then there were none before, and each
-- of them, in the order of the run, returned without a result and did not crash.
pub fire_all-AllSilent :
    (event : Event) (et : EventType) (ids : List Ident) (results : List (Ident × JsonResponse))
    (w v : World)
    → Runs (fire_all event et ids results) w [] v
    → (results ≡ []) × AllSilent event et ids w v
unfolding fire_all pz_workflow.Exec.pure
fire_all-AllSilent event et [] results w v r = (ground arith, ground arith)
fire_all-AllSilent event et (id ∷ ids) results w v r =
    let (result, u, r1, r2) = Runs-bind _ _ w [] v r in
    let (nothing, silent) = fire_all-AllSilent event et ids _ u v r2 in
    let (no_result, before) = record_result-nil id result results nothing in
    (before, (u, subst (λ o. Runs (fire event et id) w o u) no_result r1, silent))

-- ===== src/Service/Replies/Firing.antt =====
-- The shape of what `Service.PostEvent` answers: a goroutine leaves an error in the results, or nothing.
use pz_workflow.Prelude.{
  All, length, ◌≡◌, refl, String, Bool, true, false, if◌then◌else◌, zero, suc, ℕ, List, [], ◌∷◌,
  Option, none, some, ◌==◌,
}
use pz_workflow.Backend.{Backend}
use pz_workflow.Model.{Ident, EventType, Event, Trigger, Alert}
use pz_workflow.Exec.{M, ask, compute, pure, deref, on_nil, ◌>>=◌}
use pz_workflow.Exec.Returns.{
  Returns, Returns-then, Returns-bind, Returns-pure, Returns-deref, Returns-compute, Some,
  returns_rules,
}
use pz_workflow.Response.{JsonResponse, is_error}
use pz_workflow.Response.WellFormed.{
  IsRefusal, IsWellFormed, shape_rules, refusal, is_error-IsRefusal, status_bad_request-IsRefusal,
  status_internal_error-IsRefusal, status_forbidden-IsRefusal,
}
use pz_workflow.Service.Replies.{Shaped, post_alert-Shaped}
use pz_workflow.Service.Alerts
use pz_workflow.Service.Events
use pz_workflow.Service.Jobs

Returns-refused :
    (m : M JsonResponse)
    → Returns IsRefusal m
    → Returns (Some IsRefusal) (m >>= λ resp. pure (some resp))
Returns-refused m h = Returns-then m _ h λ resp g. Returns-pure _ g

Returns-none : Returns (Some IsRefusal) (pure none)
Returns-none = Returns-pure _ tt

ruleset refusal_rules = (
  returns_rules, Returns-refused, Returns-none, status_bad_request-IsRefusal,
  status_internal_error-IsRefusal, status_forbidden-IsRefusal,
)

if-IsRefusal :
    (resp : JsonResponse) (b : Bool)
    → (b ≡ true → IsRefusal resp)
    → Some IsRefusal (if b then some resp else none)
if-IsRefusal resp true h = h refl
if-IsRefusal resp false h = tt

noted :
    (alert : Alert)
    → Returns (Some IsRefusal) (do
      reply ← Alerts.post_alert alert
      resp ← deref reply
      pure (if is_error resp then some resp else none))
noted alert = Returns-then _ _ (post_alert-Shaped alert) λ reply h.
    Returns-then _ _ (Returns-deref reply h)
      λ resp g. Returns-pure _ (if-IsRefusal resp (is_error resp) (is_error-IsRefusal resp g))

submit-Refuses :
    (event : Event) (et : EventType) (t : Trigger) (trigger_id job_id : Ident) (job : String)
    → Returns (Some IsRefusal) (Jobs.submit event et t trigger_id job_id job)
unfolding Jobs.submit
submit-Refuses event et t trigger_id job_id job = search (refusal_rules, noted) depth 24

granted : (et : EventType) → Returns (Some IsRefusal) (Jobs.check_access et)
unfolding Jobs.check_access
granted et = search (refusal_rules) depth 24

-- Where the rights were refused, that refusal is the result.
Returns-denied :
    (denied : Option JsonResponse) (m : M (Option JsonResponse))
    → Some IsRefusal denied
    → Returns (Some IsRefusal) m
    → Returns (Some IsRefusal) (on_nil denied m λ resp. pure (some resp))
unfolding on_nil
Returns-denied none m h k = k
Returns-denied (some resp) m h k = Returns-pure _ h

allowed :
    (event : Event) (et : EventType) (t : Trigger) (id job_id : Ident) (job : String)
    → Returns (Some IsRefusal) (
        Jobs.check_access et >>= λ denied.
        on_nil denied (Jobs.submit event et t id job_id job) λ resp. pure (some resp))
allowed event et t id job_id job =
    Returns-then _ _ (granted et)
      λ denied h. Returns-denied denied _ h (submit-Refuses event et t id job_id job)

fire-Refuses :
    (event : Event) (et : EventType) (id : Ident) → Returns (Some IsRefusal) (Jobs.fire event et id)
unfolding Jobs.fire
fire-Refuses event et id = search (refusal_rules, allowed) depth 40

-- Every entry of the results is an error.
abbrev pub Refused : List (Ident × JsonResponse) → Type 0
Refused results = All (λ x. IsRefusal x.1) results

record_result-Refused :
    (id : Ident) (result : Option JsonResponse) (results : List (Ident × JsonResponse))
    → Some IsRefusal result
    → Refused results
    → Refused (Events.record_result id result results)
unfolding Events.record_result
record_result-Refused id none results h k = k
record_result-Refused id (some resp) [] h k = (h, tt)
record_result-Refused id (some resp) ((j, old) ∷ results) h k =
    All-if (j == id) _ _ (h, k.1) (k.0, record_result-Refused id (some resp) results h k.1)
  where
    All-if :
        (b : Bool) (xs ys : List (Ident × JsonResponse))
        → Refused xs
        → Refused ys
        → Refused (if b then xs else ys)
    All-if true xs ys p q = p
    All-if false xs ys p q = q

pub fire_all-Refused :
    (event : Event) (et : EventType) (ids : List Ident) (results : List (Ident × JsonResponse))
    → Refused results
    → Returns Refused (Events.fire_all event et ids results)
unfolding Events.fire_all
fire_all-Refused event et [] results h = Returns-pure _ h
fire_all-Refused event et (id ∷ ids) results h =
    Returns-then _ _ (fire-Refuses event et id)
      λ result k. fire_all-Refused event et ids _ (record_result-Refused id result results k h)

nth_result-Refused :
    (n : ℕ) (results : List (Ident × JsonResponse))
    → Refused results
    → Some IsRefusal (Events.nth_result n results)
unfolding Events.nth_result
nth_result-Refused n [] h = tt
nth_result-Refused zero (x ∷ results) h = h.0
nth_result-Refused (suc n) (x ∷ results) h = nth_result-Refused n results h.1

pub any_result-Refused :
    (b : Backend) (n : ℕ) (results : List (Ident × JsonResponse))
    → Refused results
    → Some IsRefusal (Events.any_result b n results)
unfolding Events.any_result
any_result-Refused b n results h = nth_result-Refused _ results h

module _ (P : JsonResponse → Type 0)
    (weaker : (resp : JsonResponse) → IsRefusal resp → P resp) where
  chosen_or :
      (first : Option JsonResponse) (m : M JsonResponse)
      → Some IsRefusal first
      → Returns P m
      → Returns P (on_nil first m pure)
  unfolding on_nil
  chosen_or none m h k = k
  chosen_or (some resp) m h k = Returns-pure _ (weaker resp h)

  -- The end of `PostEvent`: the goroutines, and the first result or the response.
  pub fired-Returns :
      (event : Event) (et : EventType) (ids : List Ident) (m : M JsonResponse)
      → Returns P m
      → Returns P (do
        results ← Events.fire_all event et ids []
        chosen ← ask (λ b. b.chosen (length results))
        first ← compute (λ b. Events.any_result b chosen results)
        on_nil first m pure)
  fired-Returns event et ids m h =
      Returns-then _ _ (fire_all-Refused event et ids [] tt) λ results k. Returns-bind _ _ λ chosen.
        Returns-then _ _ (Returns-compute _ λ b. any_result-Refused b chosen results k)
          λ first g. chosen_or first m g h

pub post_event-Shaped : (event : Event) → Shaped 201 (Events.post_event event)
unfolding Events.post_event
post_event-Shaped event =
    search (shape_rules, fired-Returns (IsWellFormed 201) (λ resp. refusal)) depth 40 fits 40000

-- ===== src/Service/Firing.antt =====
-- When the goroutine of `PostEvent` for one trigger asks the queue for anything.
use pz_workflow.Prelude.{
  ◌+◌, ◌≡◌, ◌⊎◌, inl, inr, String, Bool, true, false, not, Option, none, some, ◌==◌, subst, arith,
}
use pz_workflow.Backend.{History, ok, err, Error}
use pz_workflow.Model.{Ident, Event, EventType, Trigger}
use pz_workflow.Exec.{World, ◌>>=◌}
use pz_workflow.Exec.Keeps.{Reads}
use pz_workflow.Exec.Ran.{Result-cases}
use pz_workflow.Exec.Wrote.{
  Wrote, Runs, Wrote-in_goroutine, Wrote-bind, Wrote-return_if, Wrote-on_error, Wrote-deref,
  Wrote-attempt, Wrote-on_nil_stop,
}
use pz_workflow.Response.{status_internal_error, status_forbidden}
use pz_workflow.Service.Reading.{reply_rules}
use pz_workflow.Db.Reading
use pz_workflow.Db.Triggers
use pz_workflow.Service.Jobs.{check_access, fire}

not-eq-false : (b : Bool) → not b ≡ false → b ≡ true
not-eq-false b h = ground arith

pub check_access-Reads : (et : EventType) → Reads (check_access et)
unfolding check_access
check_access-Reads et = search reply_rules depth 20

-- The service that decides on rights is not configured, or it granted the right to the event type's
-- creator.
abbrev pub IsGranted : EventType → World → Type 0
IsGranted et w =
    ((e : String) × (w.backend.idam_url w.history ≡ err e))
    ⊎ ((url : String) × (h : History) × (w.backend.idam_url w.history ≡ ok url)
        × (w.backend.request_access url et.created_by h ≡ ok true))

pub check_access-IsGranted :
    (et : EventType) (w v : World) → Runs (check_access et) w none v → IsGranted et w
unfolding check_access ◌>>=◌ status_internal_error status_forbidden
check_access-IsGranted et w v r = elim (Result-cases (w.backend.idam_url w.history)) [
  | inr (e, unset) ↦ inl (e, unset)
  | inl (url, set) ↦
      let h : History = record w.history { calls = w.history.calls + 1 } in
      elim (Result-cases (w.backend.request_access url et.created_by h)) [
        | inl (true, granted) ↦ inr (url, h, set, granted)
        | inl (false, denied) ↦ absurd (ground arith)
        | inr (e, failed) ↦ absurd (ground arith)
      ]
]

-- What is known when a job is submitted for the trigger `id`.
pub record IsAllowed (et : EventType) (id : Ident) (w : World) : Type 0 where
  pub answer : Option Trigger × Bool × Error
  pub trigger : Trigger
  pub w1 : World
  pub w2 : World
  pub asked : Runs (Triggers.get_one id) w answer w1
  pub no_failure : answer.2 ≡ none
  pub found : answer.1 ≡ true
  pub is_trigger : answer.0 ≡ some trigger
  pub enabled : trigger.enabled ≡ true
  pub same_type : (et.event_type_id == trigger.event_type_id) ≡ true
  pub granted : IsGranted et w2

pub fire-IsAllowed :
    (event : Event) (et : EventType) (id : Ident) (w : World)
    → Wrote (fire event et id) w
    → IsAllowed et id w
unfolding fire
fire-IsAllowed event et id w h =
    let (answer, w1, r1, h1) =
      Wrote-bind _ _ w (Reading.Triggers_get_one-Reads id) (Wrote-in_goroutine _ w h) in
    let (n1, h2) = Wrote-on_error _ _ _ w1 (λ s. search reply_rules) h1 in
    let (n2, h3) = Wrote-return_if _ _ _ w1 (search reply_rules) h2 in
    let (trigger, n3, h4) = Wrote-deref _ _ w1 h3 in
    let (n4, h5) = Wrote-return_if _ _ _ w1 (search reply_rules) h4 in
    let (n5, h6) = Wrote-return_if _ _ _ w1 (search reply_rules) h5 in
    let (job_id, u2, r2, h7) = Wrote-bind _ _ w1 (search reply_rules) h6 in
    let (job, u3, r3, h8) = Wrote-bind _ _ u2 (search reply_rules) h7 in
    let (job_string, n6, h9) = Wrote-attempt _ _ _ u3 (λ s. search reply_rules) h8 in
    let (denied, u4, r4, h10) = Wrote-bind _ _ u3 (check_access-Reads et) h9 in
    let (n7, h11) = Wrote-on_nil_stop _ _ _ u4 (λ resp. search reply_rules) h10 in
    record {
      answer = answer;
      trigger = trigger;
      w1 = w1;
      w2 = u3;
      asked = r1;
      no_failure = n1;
      found = not-eq-false _ n2;
      is_trigger = n3;
      enabled = not-eq-false _ n4;
      same_type = not-eq-false _ n5;
      granted = check_access-IsGranted et u3 u4 (subst (λ d. Runs (check_access et) u3 d u4) n7 r4);
    }

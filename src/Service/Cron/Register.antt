-- ===== src/Service/Cron/Register.antt =====
-- What `Service.InitCron` of workflow/Service.go registers.
use pz_workflow.Prelude.{
  ◌≡◌, refl, ap, subst, ◌∙◌, String, Bool, Option, none, some, List, [], ◌∷◌, arith,
}
use pz_workflow.Model.{Ident, Event, EventType}
use pz_workflow.Backend.{Backend, History, Request, Error, loop_variable, CronEvent, add_job}
use pz_workflow.Exec.{World, requests, done, ◌>>=◌, deref, send, compute, set_loop_event}
use pz_workflow.Exec.Wrote.{Runs}
use pz_workflow.Exec.Ran.{Runs-bind, Runs-return_if, Runs-on_error}
use pz_workflow.Db.EventTypes
use pz_workflow.Service.Cron.{register_all, read_event}

-- The last of the events; the loop's variable keeps it when the loop is over.
abbrev pub last : Event → List Event → Event
last e [] = e
last e (f ∷ events) = last f events

get_one-loop_event :
    (id : Ident) (w v : World) (x : Option EventType × Bool × Error)
    → Runs (EventTypes.get_one id) w x v
    → v.loop_event ≡ w.loop_event
unfolding EventTypes.get_one ◌>>=◌
get_one-loop_event id w v x r = ground arith

-- The questions of a round, and its request, leave the loop's variable as it is.
module _ {A : Type 0} (a : A) (w v : World) where
  deref-loop_event : (p : Option A) → Runs (deref p) w a v → v.loop_event ≡ w.loop_event
  unfolding deref
  deref-loop_event none r = absurd (ground arith)
  deref-loop_event (some x) r = ground arith

  send-loop_event :
      (q : Request) (f : Backend → History → A)
      → Runs (send q f) w a v
      → v.loop_event ≡ w.loop_event
  unfolding send
  send-loop_event q f r = ground arith

  compute-loop_event : (f : Backend → A) → Runs (compute f) w a v → v.loop_event ≡ w.loop_event
  unfolding compute
  compute-loop_event f r = ground arith

-- All that was requested, after the parts of a round.
module _ {A : Type 0} (a : A) (w v : World) where
  deref-requests : (p : Option A) → Runs (deref p) w a v → requests v ≡ requests w
  unfolding deref
  deref-requests none r = absurd (ground arith)
  deref-requests (some x) r = ground arith

  send-requests :
      (q : Request) (f : Backend → History → A)
      → Runs (send q f) w a v
      → requests v ≡ q ∷ requests w
  unfolding send
  send-requests q f r = ground arith

  compute-requests : (f : Backend → A) → Runs (compute f) w a v → requests v ≡ requests w
  unfolding compute
  compute-requests f r = ground arith

get_one-requests :
    (id : Ident) (w v : World) (x : Option EventType × Bool × Error)
    → Runs (EventTypes.get_one id) w x v
    → requests v ≡ requests w
unfolding EventTypes.get_one ◌>>=◌
get_one-requests id w v x r = ground arith

set_loop_event-requests :
    (e : Event) (t : Unit {0}) (w v : World)
    → Runs (set_loop_event e) w t v
    → requests v ≡ requests w
unfolding set_loop_event
set_loop_event-requests e t w v r = ground arith

-- A job was requested for each of the events, in their order and with the event's schedule.
abbrev pub Requested : (CronEvent → Type 0) → List Event → List Request → List Request → Type 0
Requested P [] before after = after ≡ before
Requested P (e ∷ events) before after =
    (job : CronEvent) × P job × Requested P events (add_job e.cron_schedule job ∷ before) after

pub Requested-map :
    (P Q : CronEvent → Type 0) (events : List Event) (before after : List Request)
    → ((job : CronEvent) → P job → Q job)
    → Requested P events before after
    → Requested Q events before after
Requested-map P Q [] before after f h = h
Requested-map P Q (e ∷ events) before after f (job, p, h) =
    (job, f job p, Requested-map P Q events _ after f h)

entered :
    (e : Event) (t : Unit {0}) (w v : World) → Runs (set_loop_event e) w t v → v.loop_event ≡ some e
unfolding set_loop_event
entered e t w v r = ground arith

-- The job that points to the loop's variable.
abbrev pub job_of : String → CronEvent
job_of name = record { event = loop_variable; event_type_name = name }

abbrev pub PointsToLoop : CronEvent → Type 0
PointsToLoop job = job ≡ job_of job.event_type_name

-- A round that goes on leaves its event in the loop's variable, and has requested one job.
round :
    (e : Event) (events : List Event) (w v : World)
    → Runs (register_all (e ∷ events)) w none v
    → (u : World) × (name : String) × (u.loop_event ≡ some e)
      × (requests u ≡ add_job e.cron_schedule (job_of name) ∷ requests w)
      × Runs (register_all events) u none v
unfolding register_all
round e events w v r =
    let (t0, u0, r0, h0) = Runs-bind _ _ w none v r in
    let (shown, u1, r1, h1) = Runs-bind _ _ u0 none v h0 in
    let (answer, u2, r2, h2) = Runs-bind _ _ u1 none v h1 in
    let h3 = Runs-on_error _ _ u2 v _ (Runs-return_if _ _ u2 v _ h2) in
    let (et, u3, r3, h4) = Runs-bind _ _ u2 none v h3 in
    let (unscheduled, u4, r4, h5) = Runs-bind _ _ u3 none v h4 in
    let same =
      send-loop_event _ u3 u4 _ _ r4
      ∙ deref-loop_event _ u2 u3 _ r3
      ∙ get_one-loop_event _ u1 u2 _ r2
      ∙ compute-loop_event _ u0 u1 _ r1 in
    let asked =
      send-requests _ u3 u4 _ _ r4
      ∙ ap (λ rs. add_job e.cron_schedule (job_of et.name) ∷ rs)
          (deref-requests _ u2 u3 _ r3
            ∙ get_one-requests _ u1 u2 _ r2
            ∙ compute-requests _ u0 u1 _ r1
            ∙ set_loop_event-requests e t0 w u0 r0) in
    (u4, et.name, same ∙ entered e t0 w u0 r0, asked, Runs-on_error _ _ u4 v _ h5)

held :
    (e : Event) (events : List Event) (u v : World)
    → u.loop_event ≡ some e
    → Runs (register_all events) u none v
    → v.loop_event ≡ some (last e events)
unfolding register_all ◌>>=◌
held e [] u v h r = ground arith
held e (f ∷ events) u v h r = let (t, name, k, a, q) = round f events u v r in held f events t v k q

-- After a start-up that registered every stored event, the variable that all its jobs point to holds
-- the last of them: a job, whichever event it was registered for, reads that one.
pub register_all-last :
    (e : Event) (events : List Event) (w v : World)
    → Runs (register_all (e ∷ events)) w none v
    → read_event loop_variable v ≡ done (last e events) v
unfolding read_event ◌>>=◌
register_all-last e events w v r =
    let (u, name, k, a, q) = round e events w v r in rw (held e events u v k q)

-- Each of the jobs that were requested points to the loop's variable.
pub register_all-Requested :
    (events : List Event) (w v : World)
    → Runs (register_all events) w none v
    → Requested PointsToLoop events (requests w) (requests v)
unfolding register_all ◌>>=◌
register_all-Requested [] w v r = ground (arith, r)
register_all-Requested (e ∷ events) w v r =
    let (u, name, k, a, q) = round e events w v r in
    (
      job_of name,
      refl,
      subst (λ rs. Requested PointsToLoop events rs (requests v)) a
          (register_all-Requested events u v q),
    )

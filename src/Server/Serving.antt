-- ===== src/Server/Serving.antt =====
-- The service after its start: requests and scheduled jobs, in any order.
use pz_workflow.Prelude.{
  ◌≡◌, refl, ap, subst, ◌∙◌, sym, String, Option, none, some, List, ◌∷◌, arith,
}
use pz_workflow.Model.{Event}
use pz_workflow.Backend.{own, loop_variable, CronEvent}
use pz_workflow.Exec.{World, requests, done, final, ◌>>=◌, deref}
use pz_workflow.Exec.Wrote.{Runs}
use pz_workflow.Exec.Steady.{steady, Steady-of_Touches}
use pz_workflow.Service.Touching.{run-Touches}
use pz_workflow.Service.Cron.{register_all, read_event, run}
use pz_workflow.Service.Cron.Register.{
  last, Requested, Requested-map, PointsToLoop, register_all-last, register_all-Requested,
}
use pz_workflow.Server.{Handler, Context, handle}
use pz_workflow.Server.Touching.{handle-Touches}

-- The worlds after a start that left `w`: requests were handled and scheduled jobs ran, one after the
-- other, each to its end before the next, in any order. A world in which the process has crashed is among them, and those after it.
pub data Serves (w : World) : World → Type 0 where
  started : Serves w w
  handled : {v : World} → Serves w v → (h : Handler) (c : Context) → Serves w (final (handle h c v))
  ran : {v : World} → Serves w v → (c : CronEvent) → Serves w (final (run c v))

-- Whatever requests are handled and whatever jobs run, the service's name, the time of its start and
-- the loop's variable of InitCron stay what they were after the start.
pub Serves-steady : {w v : World} → Serves w v → steady v ≡ steady w
Serves-steady started = refl
Serves-steady (handled s h c) = (Steady-of_Touches _ _ (handle-Touches h c)).at _ ∙ Serves-steady s
Serves-steady (ran s c) = (Steady-of_Touches _ _ (run-Touches c)).at _ ∙ Serves-steady s

read_event-run :
    (e : Event) (name : String) (w : World)
    → read_event loop_variable w ≡ done e w
    → run (record { event = loop_variable; event_type_name = name }) w
      ≡ run (record { event = own e; event_type_name = name }) w
unfolding run ◌>>=◌
read_event-run e name w r = rw r refl

deref-done :
    (p : Option Event) (e : Event) (u v : World) → deref p u ≡ done e u → deref p v ≡ done e v
unfolding deref
deref-done none e u v r = absurd (ground arith)
deref-done (some x) e u v r = ground arith

-- Where two worlds have the same loop variable, a job reads the same event in both.
read_event-steady :
    (e : Event) (u v : World)
    → steady v ≡ steady u
    → read_event loop_variable u ≡ done e u
    → read_event loop_variable v ≡ done e v
unfolding read_event ◌>>=◌
read_event-steady e u v same r =
    let e' : v.loop_event ≡ u.loop_event = ap (λ s. s.2) same in
    subst (λ p. deref p v ≡ done e v) (sym e') (deref-done u.loop_event e u v r)

-- A job is as good as one of its own for the event `e`.
abbrev pub RunsAs : Event → World → CronEvent → Type 0
RunsAs e v job = run job v ≡ run (record { event = own e; event_type_name = job.event_type_name }) v

-- After a start at which InitCron registered every stored event: it has asked for one job for each event, in
-- their order and with the event's schedule, and for nothing else; and after whatever requests and jobs, one
-- after the other, each of these jobs runs exactly as one would that holds the last of those events,
-- whichever event it was registered for.
pub Serves-run :
    (e : Event) (events : List Event) (w u v : World)
    → Runs (register_all (e ∷ events)) w none u
    → Serves u v
    → Requested (RunsAs (last e events) v) (e ∷ events) (requests w) (requests u)
Serves-run e events w u v r s =
    Requested-map PointsToLoop (RunsAs (last e events) v) (e ∷ events) (requests w) (requests u)
      (λ job p.
        ap (λ j. run j v) p
        ∙ read_event-run (last e events) job.event_type_name v (
            read_event-steady (last e events) u v (Serves-steady s)
              (register_all-last e events w u r)))
      (register_all-Requested (e ∷ events) w u r)

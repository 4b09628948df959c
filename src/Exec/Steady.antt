-- ===== src/Exec/Steady.antt =====
-- Actions that may request changes and count, but leave the rest of the world as it is.
use pz_workflow.Prelude.{refl, ap, String, Option}
use pz_workflow.Model.{
  Stats, Event, incr_event_types, incr_events, incr_triggers, incr_alerts, incr_trigger_jobs,
}
use pz_workflow.Backend.{Backend, History, Request}
use pz_workflow.Exec.{World, M, ask, send, request, count}
use pz_workflow.Exec.Keeps.{Keeps, keeps_rules, Reads}

-- What no method of the service changes: its name, the time of its start, and the loop's variable
-- of InitCron.
abbrev pub steady : World → String × String × Option Event
steady w = (w.origin, w.stats.created_on, w.loop_event)

abbrev pub Steady {ℓ} : {A : Type ℓ} → M A → Type ℓ
Steady m = Keeps steady m

-- Which counters an action may change.
pub data Touched : Type 0 where
  untouched event_types events triggers firing posting : Touched

-- The statistics without those counters: firing counts jobs and alerts, and a posted event fires.
unfoldable pub erase : Touched → Stats → Stats
erase untouched s = s
erase event_types s = record s { num_event_types = 0 }
erase events s = record s { num_events = 0 }
erase triggers s = record s { num_triggers = 0 }
erase firing s = record s { num_alerts = 0; num_triggered_jobs = 0 }
erase posting s = record s { num_events = 0; num_alerts = 0; num_triggered_jobs = 0 }

abbrev pub rest : Touched → World → Stats × String × Option Event
rest k w = (erase k w.stats, w.origin, w.loop_event)

-- All that `m` may change are those counters, and the history.
abbrev pub Touches {ℓ} : Touched → {A : Type ℓ} → M A → Type ℓ
Touches k m = Keeps (rest k) m

module _ {ℓ} {A : Type ℓ} where
  pub Touches-ask : (k : Touched) (f : Backend → History → A) → Touches k (ask f)
  unfolding ask
  Touches-ask k f = record { at = λ w. refl }

  pub Touches-send : (k : Touched) (r : Request) (f : Backend → History → A) → Touches k (send r f)
  unfolding send
  Touches-send k r f = record { at = λ w. refl }

  pub Steady-of_Reads : (m : M A) → Reads m → Steady m
  Steady-of_Reads m h = record { at = λ w. ap (λ k. (k.2, k.1.created_on, k.3)) (h.at w) }

  pub Touches-of_Reads : (k : Touched) (m : M A) → Reads m → Touches k m
  Touches-of_Reads k m h = record { at = λ w. ap (λ x. (erase k x.1, x.2, x.3)) (h.at w) }

  pub Steady-of_Touches : (k : Touched) (m : M A) → Touches k m → Steady m
  unfolding erase
  Steady-of_Touches untouched m h = record {
    at = λ w. ap (λ x. (x.1, x.0.created_on, x.2)) (h.at w);
  }
  Steady-of_Touches event_types m h = record {
    at = λ w. ap (λ x. (x.1, x.0.created_on, x.2)) (h.at w);
  }
  Steady-of_Touches events m h = record { at = λ w. ap (λ x. (x.1, x.0.created_on, x.2)) (h.at w) }
  Steady-of_Touches triggers m h = record {
    at = λ w. ap (λ x. (x.1, x.0.created_on, x.2)) (h.at w);
  }
  Steady-of_Touches firing m h = record { at = λ w. ap (λ x. (x.1, x.0.created_on, x.2)) (h.at w) }
  Steady-of_Touches posting m h = record { at = λ w. ap (λ x. (x.1, x.0.created_on, x.2)) (h.at w) }

pub Touches-request : (k : Touched) (r : Request) → Touches k (request r)
unfolding request
Touches-request k r = Touches-send k r _

pub Touches-incr_event_types : Touches event_types (count incr_event_types)
unfolding incr_event_types count erase
Touches-incr_event_types = record { at = λ w. refl }

pub Touches-incr_events : Touches events (count incr_events)
unfolding incr_events count erase
Touches-incr_events = record { at = λ w. refl }

pub Touches-incr_triggers : Touches triggers (count incr_triggers)
unfolding incr_triggers count erase
Touches-incr_triggers = record { at = λ w. refl }

pub Touches-incr_alerts : Touches firing (count incr_alerts)
unfolding incr_alerts count erase
Touches-incr_alerts = record { at = λ w. refl }

pub Touches-incr_trigger_jobs : Touches firing (count incr_trigger_jobs)
unfolding incr_trigger_jobs count erase
Touches-incr_trigger_jobs = record { at = λ w. refl }

pub Posts-incr_events : Touches posting (count incr_events)
unfolding incr_events count erase
Posts-incr_events = record { at = λ w. refl }

-- Firing, and one event alone, are parts of posting.
pub posting-firing {ℓ} : {A : Type ℓ} (m : M A) → Touches firing m → Touches posting m
unfolding erase
posting-firing m h = record { at = λ w. ap (λ x. (erase posting x.0, x.1, x.2)) (h.at w) }

pub posting-events {ℓ} : {A : Type ℓ} (m : M A) → Touches events m → Touches posting m
unfolding erase
posting-events m h = record { at = λ w. ap (λ x. (erase posting x.0, x.1, x.2)) (h.at w) }

pub ruleset touches_rules = (
  keeps_rules, Touches-ask, Touches-send, Touches-request, Touches-incr_event_types,
  Touches-incr_events, Touches-incr_triggers, Touches-incr_alerts, Touches-incr_trigger_jobs,
  Posts-incr_events,
)

-- ===== src/Tests/Starts.antt =====
-- The theorems on the start and the stop of the service, at examples.
use pz_workflow.Prelude.{◌≡◌, ◌≢◌, ◌⊎◌, refl, Bool, true, false, none, some, [], ◌∷◌, arith}
use pz_workflow.Backend.{Error, Index, crons, drop_index}
use pz_workflow.Exec.{World, M, Outcome, done, panic, crash, final, requests, pure, send, ◌>>=◌}
use pz_workflow.Exec.Keeps.{Reads}
use pz_workflow.Exec.Wrote.{Runs}
use pz_workflow.Service.EventTypes.{post_event_type}
use pz_workflow.Service.Startup.{new_databases, service_indices, init}
use pz_workflow.Service.Startup.Created.{Ends, new_databases-IsCreated}
use pz_workflow.Service.Startup.Started.{IsStarted, known, init-IsStarted}
use pz_workflow.Kit.{stop}
use pz_workflow.Kit.Starting.{IsDropped, stop-drops}
use pz_workflow.Tests.{world}

-- The index of event types has a type, and the name of a new event type is free.
abbrev pub fresh : World
fresh = record world {
  backend = record world.backend {
    get_types = λ i h. ("EventType" ∷ [], none);
    type_exists = λ i t h. (false, none);
  };
}

-- The function is tried once, before the time is over.
abbrev polled_once : Outcome (Bool × Error) → Outcome (Bool × Error)
polled_once (done (true, none) w) = done (true, none) w
polled_once (done (false, none) w) = done (false, some "timeout reached") w
polled_once (done (ready, some e) w) = done (false, some e) w
polled_once (panic w) = panic w
polled_once (crash w) = crash w

abbrev pub poll_once : M (Bool × Error) → M (Bool × Error)
poll_once fn w = polled_once (fn w)

polled_once-done :
    (o : Outcome (Bool × Error)) (v : World) (ready : Bool)
    → polled_once o ≡ done (ready, none) v
    → o ≡ done (true, none) v
polled_once-done (done (true, none) w) v ready h = ground arith
polled_once-done (done (false, none) w) v ready h = absurd (ground arith)
polled_once-done (done (ready', some e) w) v ready h = absurd (ground arith)
polled_once-done (panic w) v ready h = absurd (ground arith)
polled_once-done (crash w) v ready h = absurd (ground arith)

polls :
    (fn : M (Bool × Error)) (w v : World) (ready : Bool)
    → Reads fn
    → Runs (poll_once fn) w (ready, none) v
    → (u : World) × (known u ≡ known w) × Runs fn u (true, none) v
polls fn w v ready k h = (w, refl, polled_once-done (fn w) v ready h)

abbrev all_made : Index → Bool
all_made index = true

inits :
    Runs
      (init poll_once "pz-workflow" "piazza" all_made)
      fresh
      (some none)
      (final (init poll_once "pz-workflow" "piazza" all_made fresh))
unfolding init ◌>>=◌ pz_workflow.Exec.recovered pz_workflow.Db.Hits.new_resource_db post_event_type
    pz_workflow.Db.Events.name_exists pz_workflow.Db.EventTypes.get_id_by_name
    pz_workflow.Service.EventTypes.tilde_name pz_workflow.Texts.contains
    pz_workflow.Db.EventTypes.post_data pz_workflow.Db.EventTypes.first_invalid
    pz_workflow.Db.Events.add_mapping pz_workflow.Db.Events.Schema.construct_event_mapping_schema
    pz_workflow.Unique.add_unique_params pz_workflow.Response.status_created
inits = refl

init-IsStarted_example :
    IsStarted "piazza" fresh (final (init poll_once "pz-workflow" "piazza" all_made fresh))
init-IsStarted_example =
    init-IsStarted poll_once "pz-workflow" "piazza" all_made fresh polls _ inits

-- The map without the index of scheduled events.
abbrev without_crons : Index → Bool
without_crons crons = false
without_crons index = true

new_databases-IsCreated_example :
    Ends without_crons service_indices world (new_databases without_crons service_indices world)
new_databases-IsCreated_example = new_databases-IsCreated without_crons service_indices world

abbrev no_error : Error
no_error = none

stopped : Runs {A = Error} (pure none) world none world
unfolding pure
stopped = refl

stops :
    Runs
      (stop (pure none) (λ index. send (drop_index index) (λ b h. none)) true)
      world
      none
      (final (stop (pure none) (λ index. send (drop_index index) (λ b h. none)) true world))
unfolding stop ◌>>=◌
stops = refl

abbrev stopped_world : World
stopped_world = final (stop (pure none) (λ index. send (drop_index index) (λ b h. none)) true world)

stop-drops_example :
    (((no_error ≢ none) × (no_error ≡ none) × (requests stopped_world ≡ requests world))
      ⊎ ((no_error ≡ none)
          × (true ≡ false)
          × (no_error ≡ none)
          × (requests stopped_world ≡ requests world))
      ⊎ ((no_error ≡ none)
          × (true ≡ true)
          × IsDropped (λ index b h. none) world no_error stopped_world))
stop-drops_example =
    stop-drops (λ index b h. none) (pure none) true world world _ none none stopped stops

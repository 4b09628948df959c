-- ===== src/Main.antt =====
-- main.go: the program puts the service together, starts it and waits for its end.
use pz_workflow.Prelude.{
  ◌≡◌, refl, ap, sym, subst, String, Bool, true, false, Option, none, some, ◌==◌, arith,
}
use pz_workflow.Backend.{Error, Index, Result, ok, err}
use pz_workflow.Exec.{
  World, Outcome, done, panic, crash, M, final, attempt, pure, exit, ◌>>=◌, ◌>>◌, on_error,
  return_if,
}
use pz_workflow.Exec.Wrote.{Runs}
use pz_workflow.Exec.Ran.{Runs-bind, Runs-return_error}
use pz_workflow.Service.Startup.{init}
use pz_workflow.Service.Cron.{init_cron}
use pz_workflow.Kit.{error_of, nothing, indices_of, new_kit}
use pz_workflow.Kit.Scripts.Indices.{Surroundings, make_indices, AreMade, make_indices-AreMade}

-- `if err != nil { log.Fatal(err) }`
unfoldable pub fatal : Error → M (Unit {0}) → M (Unit {0})
fatal failure rest = on_error failure (λ e. exit) rest

-- What `NewSystemConfig`, `GetRequiredEnvVars` and `GetRequiredWriters` do, and their errors.
unfoldable pub make_clients : M Error → M Error → M Error → M (Unit {0})
unfolding fatal
make_clients new_system_config required_env_vars required_writers = do
  e1 ← new_system_config
  fatal e1 do e2 ← required_env_vars; fatal e2 do e3 ← required_writers; fatal e3 nothing

-- The library's calls: those for the clients, those of `NewKit`, the start of the generic server, and
-- the receipt from the channel that the start gives.
module _ (new_system_config required_env_vars required_writers : M Error)
    (poll : M (Bool × Error) → M (Bool × Error)) (name system : String)
    (surroundings : Surroundings) (configure server_start receive : M Error) (pz_pen : String) where
  unfoldable pub main : M (Unit {0})
  unfolding fatal make_clients
  main = do
    make_clients new_system_config required_env_vars required_writers
    return_if (pz_pen == "") exit do
      unmade ← new_kit poll name system surroundings configure false
      fatal unmade
          do unstarted ← server_start; fatal unstarted do ended ← receive; fatal ended nothing

  -- The way to the end: the calls for the clients returned no error, the indices were made from the scripts,
  -- and all calls after it have returned, and without an error.
  pub record IsServed (w v : World) : Type 0 where
    pub has_pen : (pz_pen == "") ≡ false
    pub a1 : World
    pub a2 : World
    pub w1 : World
    pub w3 : World
    pub w4 : World
    pub w5 : World
    pub w6 : World
    pub made : Index → Bool
    pub initialised : Option Error
    pub scheduled : Option Error
    pub configured_system : Runs new_system_config w none a1
    pub has_env_vars : Runs required_env_vars a1 none a2
    pub has_writers : Runs required_writers a2 none w1
    pub indices_made : AreMade surroundings made
    pub init_returned : Runs (init poll name system made) w1 initialised w3
    pub init_succeeded : error_of initialised ≡ none
    pub cron_returned : Runs init_cron w3 scheduled w4
    pub cron_succeeded : error_of scheduled ≡ none
    pub configured : Runs configure w4 none w5
    pub server_started : Runs server_start w5 none w6
    pub server_ended : Runs receive w6 none v

ran_fatal :
    (e : Error) (rest : M (Unit {0})) (w v : World)
    → Runs (fatal e rest) w tt v
    → (e ≡ none) × Runs rest w tt v
unfolding fatal on_error exit
ran_fatal none rest w v h = (refl, h)
ran_fatal (some s) rest w v h = absurd (ground arith)

ran_guard :
    (b : Bool) (rest : M (Unit {0})) (w v : World)
    → Runs (return_if b exit rest) w tt v
    → (b ≡ false) × Runs rest w tt v
unfolding return_if exit
ran_guard true rest w v h = absurd (ground arith)
ran_guard false rest w v h = (refl, h)

ran_nothing : (w v : World) → Runs nothing w tt v → w ≡ v
unfolding pure
ran_nothing w v h = ground arith

ran_init_cron :
    (w v : World)
    → Runs (do registered ← init_cron; on_error (error_of registered) (λ e. exit) nothing) w tt v
    → (scheduled : Option Error) × (error_of scheduled ≡ none) × Runs init_cron w scheduled v
unfolding fatal
ran_init_cron w v h =
    let (scheduled, u, r, k) = Runs-bind _ _ w _ v h in
    let (n, k') = ran_fatal (error_of scheduled) nothing u v k in
    (scheduled, n, subst (λ x. Runs init_cron w scheduled x) (ran_nothing u v k') r)

ran_step :
    (m : M Error) (rest : M (Unit {0})) (w v : World)
    → Runs (do e ← m; fatal e rest) w tt v
    → (u : World) × Runs m w none u × Runs rest u tt v
ran_step m rest w v h =
    let (e, u, r, k) = Runs-bind _ _ w _ v h in
    let (n, k') = ran_fatal e rest u v k in (u, subst (λ e. Runs m w e u) n r, k')

ran_last : (m : M Error) (w v : World) → Runs (do e ← m; fatal e nothing) w tt v → Runs m w none v
ran_last m w v h =
    let (u, r, k) = ran_step m nothing w v h in subst (λ x. Runs m w none x) (ran_nothing u v k) r

ran_make_clients :
    (new_system_config required_env_vars required_writers : M Error) (w v : World)
    → Runs (make_clients new_system_config required_env_vars required_writers) w tt v
    → (a1 : World) × (a2 : World) × Runs new_system_config w none a1
      × Runs required_env_vars a1 none a2
      × Runs required_writers a2 none v
unfolding make_clients
ran_make_clients config vars writers w v h =
    let (a1, r1, h1) = ran_step config _ w v h in
    let (a2, r2, h2) = ran_step vars _ a1 v h1 in (a1, a2, r1, r2, ran_last writers a2 v h2)

-- `makeIndices` returns only if it made the map so, and it is not part of the state.
abbrev made_of : Outcome (Index → Bool) → Index → Bool
made_of (done made w) index = made index
made_of (panic w) index = false
made_of (crash w) index = false

ran_attempt :
    (r : Result (Index → Bool)) (made : Index → Bool) (w v : World)
    → Runs (attempt r (λ e. exit) pure) w made v
    → (r ≡ ok made) × (w ≡ v)
unfolding attempt exit pure
ran_attempt (ok m) made w v h = (ap ok (ap made_of h), ap final h)
ran_attempt (err e) made w v h = absurd (ground arith)

module _ (poll : M (Bool × Error) → M (Bool × Error)) (name system : String) (s : Surroundings)
    (configure : M Error) where
  ran_new_kit :
      (w1 w5 : World)
      → Runs (new_kit poll name system s configure false) w1 none w5
      → (made : Index → Bool) × (initialised : Option Error) × (scheduled : Option Error)
        × (w3 : World) × (w4 : World) × AreMade s made
        × Runs (init poll name system made) w1 initialised w3
        × (error_of initialised ≡ none)
        × Runs init_cron w3 scheduled w4
        × (error_of scheduled ≡ none)
        × Runs configure w4 none w5
  unfolding new_kit indices_of return_if
  ran_new_kit w1 w5 k =
      let (made, w2, s1, k1) = Runs-bind _ _ w1 _ w5 k in
      let (is_made, same) = ran_attempt (make_indices s) made w1 w2 s1 in
      let (initialised, w3, s2, k2) = Runs-bind _ _ w2 _ w5 k1 in
      let (m1, k3) = Runs-return_error _ _ w3 w5 k2 in
      let (a3, w4, s3, k4) = Runs-bind _ _ w3 _ w5 k3 in
      let (scheduled, m2, s4) = ran_init_cron w3 w4 s3 in
      (
        made,
        initialised,
        scheduled,
        w3,
        w4,
        make_indices-AreMade s made is_made,
        subst (λ w. Runs (init poll name system made) w initialised w3) (sym same) s2,
        m1,
        s4,
        m2,
        k4,
      )

module _ (new_system_config required_env_vars required_writers : M Error)
    (poll : M (Bool × Error) → M (Bool × Error)) (name system : String) (s : Surroundings)
    (configure server_start receive : M Error) (pz_pen : String) where
  -- If `main` returns: the three calls for the clients returned no error, one after the other, and the pen was
  -- set; `makeIndices` has read the directory, every script in it whose name fits an index ran and reported
  -- success, the mapping of an index's last script, if it has one, is that of the index, and an index is in
  -- the map that `Init` gets if and only if there is a script for it; `Init` and `InitCron` returned no error
  -- or recovered from a panic; and the server was configured and started and ended without an error, in this
  -- order.
  pub main-IsServed :
      (w v : World)
      → Runs
          (main new_system_config required_env_vars required_writers poll name system s configure
            server_start receive pz_pen)
          w
          tt
          v
      → IsServed new_system_config required_env_vars required_writers poll name system s configure
          server_start receive pz_pen w v
  unfolding main
  main-IsServed w v h =
      let (x, w1, r1, h1) = Runs-bind _ _ w _ v h in
      let (a1, a2, c1, c2, c3) =
        ran_make_clients new_system_config required_env_vars required_writers w w1 r1 in
      let (has_pen, h2) = ran_guard _ _ w1 v h1 in
      let (w5, r2, h3) = ran_step _ _ w1 v h2 in
      let (w6, r3, h4) = ran_step server_start _ w5 v h3 in
      let (made, initialised, scheduled, w3, w4, s1, s2, m1, s4, m2, s5) =
        ran_new_kit poll name system s configure w1 w5 r2 in
      record {
        has_pen = has_pen;
        a1 = a1;
        a2 = a2;
        w1 = w1;
        w3 = w3;
        w4 = w4;
        w5 = w5;
        w6 = w6;
        made = made;
        initialised = initialised;
        scheduled = scheduled;
        configured_system = c1;
        has_env_vars = c2;
        has_writers = c3;
        indices_made = s1;
        init_returned = s2;
        init_succeeded = m1;
        cron_returned = s4;
        cron_succeeded = m2;
        configured = s5;
        server_started = r3;
        server_ended = ran_last receive w6 v h4;
      }

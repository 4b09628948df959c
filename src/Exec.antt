-- ===== src/Exec.antt =====
-- The way in which the service's methods run: they ask the backend, count statistics, and may panic.
-- What was requested before a panic stays requested. `Service.handlePanic` turns a panic into the
-- nil response of the method; a panic in a goroutine has no such guard and ends the process.
pub mod Keeps
pub mod Wrote
pub mod Once
pub mod Ran
pub mod Steady
pub mod Returns
pub mod Ticks
use pz_workflow.Prelude.{◌+◌, String, Bool, true, false, Option, none, some, List, ◌∷◌}
use pz_workflow.Model.{Stats, Event}
use pz_workflow.Backend.{Backend, History, Request, Result, ok, err, Error}

pub record World : Type 0 where
  pub backend : Backend
  pub history : History
  pub stats : Stats
  pub origin : String
  pub loop_event : Option Event

abbrev pub requests : World → List Request
requests w = w.history.requests

pub data Outcome {ℓ} (A : Type ℓ) : Type ℓ where
  done : A → World → Outcome A
  panic : World → Outcome A
  crash : World → Outcome A

abbrev pub final {ℓ} : {A : Type ℓ} → Outcome A → World
final (done a w) = w
final (panic w) = w
final (crash w) = w

abbrev pub M {ℓ} : Type ℓ → Type ℓ
M A = World → Outcome A

module _ {ℓ} {A : Type ℓ} where
  unfoldable pub pure : A → M A
  pure a w = done a w

  -- A nil pointer is dereferenced, or a type assertion fails.
  unfoldable pub fault : M A
  fault w = panic w

  unfoldable pub deref : Option A → M A
  deref none w = panic w
  deref (some a) w = done a w

  -- `log.Fatal`
  unfoldable pub exit : M A
  exit w = crash w

  -- A call that only reads.
  unfoldable pub ask : (Backend → History → A) → M A
  ask f w =
      done (f w.backend w.history)
        (record w { history = record w.history { calls = w.history.calls + 1 } })

  -- A call that asks for a change.
  unfoldable pub send : Request → (Backend → History → A) → M A
  send r f w = done (f w.backend w.history) (record w {
    history = record { calls = w.history.calls + 1; requests = r ∷ w.history.requests };
  })

  -- A library function without effect.
  unfoldable pub compute : (Backend → A) → M A
  compute f w = done (f w.backend) w

-- A request that answers nothing.
unfoldable pub request : Request → M (Unit {0})
unfolding send
request r = send r (λ b h. tt)

unfoldable pub count : (Stats → Stats) → M (Unit {0})
count f w = done tt (record w { stats = f w.stats })

-- The copy of the statistics that is taken under the lock.
unfoldable pub read_stats : M Stats
read_stats w = done w.stats w

unfoldable pub origin : M String
origin w = done w.origin w

-- The variable `e` of the loop in `Service.InitCron`.
unfoldable pub set_loop_event : Event → M (Unit {0})
set_loop_event event w = done tt (record w { loop_event = some event })

unfoldable pub set_origin : String → M (Unit {0})
set_origin name w = done tt (record w { origin = name })

unfoldable pub loop_event : M (Option Event)
loop_event w = done w.loop_event w

-- Early returns. `if err != nil { return … }`, for an error beside a value and for a result.
module _ {ℓ} {A : Type ℓ} where
  unfoldable pub on_error : Error → (String → M A) → M A → M A
  on_error none stop rest = rest
  on_error (some e) stop rest = stop e

  unfoldable pub return_if : Bool → M A → M A → M A
  return_if true stop rest = stop
  return_if false stop rest = rest

module _ {ℓ κ} {A : Type ℓ} {B : Type κ} where
  unfoldable pub attempt : Result A → (String → M B) → (A → M B) → M B
  attempt (ok a) stop rest = rest a
  attempt (err e) stop rest = stop e

  -- `if p == nil { return … }`, and the pointer's value.
  unfoldable pub on_nil : Option A → M B → (A → M B) → M B
  on_nil none stop rest = stop
  on_nil (some a) stop rest = rest a

module _ {ℓ κ} {A : Type ℓ} {B : Type κ} where
  abbrev pub continue : Outcome A → (A → M B) → Outcome B
  continue (done a w) f = f a w
  continue (panic w) f = panic w
  continue (crash w) f = crash w

  infixl 10 ◌>>=◌ ◌>>◌
  unfoldable pub ◌>>=◌ : M A → (A → M B) → M B
  unfolding pure fault deref exit ask send compute request count read_stats origin set_loop_event
      set_origin loop_event on_error return_if attempt on_nil
  ◌>>=◌ m f w = continue (m w) f

  abbrev pub ◌>>◌ : M A → M B → M B
  m >> n = m >>= λ _. n

module _ {ℓ} {A : Type ℓ} where
  abbrev pub recover : Outcome A → Outcome (Option A)
  recover (done a w) = done (some a) w
  recover (panic w) = done none w
  recover (crash w) = crash w

  -- `defer service.handlePanic()`
  unfoldable pub recovered : M A → M (Option A)
  recovered m w = recover (m w)

  abbrev pub uncaught : Outcome A → Outcome A
  uncaught (done a w) = done a w
  uncaught (panic w) = crash w
  uncaught (crash w) = crash w

  -- A goroutine that does not recover.
  unfoldable pub in_goroutine : M A → M A
  in_goroutine m w = uncaught (m w)

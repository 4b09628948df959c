-- ===== src/Exec/Keeps.antt =====
-- Actions that leave a part of the world as it is: one rule for each way to build an action.
use pz_workflow.Prelude.{◌≡◌, refl, ap, List, ◌∙◌, String, Bool, true, false, Option, none, some}
use pz_workflow.Model.{Stats, Event}
use pz_workflow.Backend.{Backend, History, Request, Result, ok, err, Error}
use pz_workflow.Exec.{
  World, requests, Outcome, done, panic, crash, final, M, pure, fault, deref, ask, send, compute,
  read_stats, origin, loop_event, ◌>>=◌, continue, recover, recovered, uncaught, in_goroutine,
  on_error, return_if, attempt, on_nil,
}

-- The observation `obs` is the same after `m`, whether it returns or panics.
pub record Keeps {ℓ κ} {X : Type κ} {A : Type ℓ} (obs : World → X) (m : M A) : Type (ℓ ⊔ κ) where
  pub at : (w : World) → obs (final (m w)) ≡ obs w

module _ {ℓ κ} {X : Type κ} {A : Type ℓ} where
  Keeps-recover : (obs : World → X) (o : Outcome A) → obs (final (recover o)) ≡ obs (final o)
  Keeps-recover obs (done a v) = refl
  Keeps-recover obs (panic v) = refl
  Keeps-recover obs (crash v) = refl

  Keeps-uncaught : (obs : World → X) (o : Outcome A) → obs (final (uncaught o)) ≡ obs (final o)
  Keeps-uncaught obs (done a v) = refl
  Keeps-uncaught obs (panic v) = refl
  Keeps-uncaught obs (crash v) = refl

module _ {ℓ κ} {X : Type κ} {A : Type ℓ} {obs : World → X} where
  pub Keeps-pure : (a : A) → Keeps obs (pure a)
  unfolding pure
  Keeps-pure a = record { at = λ w. refl }

  pub Keeps-fault : Keeps obs (fault {A = A})
  unfolding fault
  Keeps-fault = record { at = λ w. refl }

  pub Keeps-deref : (p : Option A) → Keeps obs (deref p)
  unfolding deref
  Keeps-deref none = record { at = λ w. refl }
  Keeps-deref (some a) = record { at = λ w. refl }

  pub Keeps-compute : (f : Backend → A) → Keeps obs (compute f)
  unfolding compute
  Keeps-compute f = record { at = λ w. refl }

  pub Keeps-on_error :
      (e : Error) (stop : String → M A) (rest : M A)
      → ((s : String) → Keeps obs (stop s))
      → Keeps obs rest
      → Keeps obs (on_error e stop rest)
  unfolding on_error
  Keeps-on_error none stop rest h k = k
  Keeps-on_error (some s) stop rest h k = h s

  pub Keeps-return_if :
      (b : Bool) (stop rest : M A)
      → Keeps obs stop
      → Keeps obs rest
      → Keeps obs (return_if b stop rest)
  unfolding return_if
  Keeps-return_if true stop rest h k = h
  Keeps-return_if false stop rest h k = k

  pub Keeps-recovered : (m : M A) → Keeps obs m → Keeps obs (recovered m)
  unfolding recovered
  Keeps-recovered m h = record { at = λ w. Keeps-recover obs (m w) ∙ h.at w }

  pub Keeps-in_goroutine : (m : M A) → Keeps obs m → Keeps obs (in_goroutine m)
  unfolding in_goroutine
  Keeps-in_goroutine m h = record { at = λ w. Keeps-uncaught obs (m w) ∙ h.at w }

module _ {κ} {X : Type κ} {obs : World → X} where
  pub Keeps-origin : Keeps obs origin
  unfolding origin
  Keeps-origin = record { at = λ w. refl }

  pub Keeps-read_stats : Keeps obs read_stats
  unfolding read_stats
  Keeps-read_stats = record { at = λ w. refl }

  pub Keeps-loop_event : Keeps obs loop_event
  unfolding loop_event
  Keeps-loop_event = record { at = λ w. refl }

module _ {ℓ κ} {A : Type ℓ} {B : Type κ} {χ : Type 0} {obs : World → χ} where
  pub Keeps-attempt :
      (r : Result A) (stop : String → M B) (rest : A → M B)
      → ((s : String) → Keeps obs (stop s))
      → ((a : A) → Keeps obs (rest a))
      → Keeps obs (attempt r stop rest)
  unfolding attempt
  Keeps-attempt (ok a) stop rest h k = k a
  Keeps-attempt (err s) stop rest h k = h s

  pub Keeps-on_nil :
      (p : Option A) (stop : M B) (rest : A → M B)
      → Keeps obs stop
      → ((a : A) → Keeps obs (rest a))
      → Keeps obs (on_nil p stop rest)
  unfolding on_nil
  Keeps-on_nil none stop rest h k = h
  Keeps-on_nil (some a) stop rest h k = k a

  Keeps-continue :
      (o : Outcome A) (f : A → M B)
      → ((a : A) → Keeps obs (f a))
      → obs (final (continue o f)) ≡ obs (final o)
  Keeps-continue (done a v) f k = (k a).at v
  Keeps-continue (panic v) f k = refl
  Keeps-continue (crash v) f k = refl

  pub Keeps-bind :
      (m : M A) (f : A → M B) → Keeps obs m → ((a : A) → Keeps obs (f a)) → Keeps obs (m >>= f)
  unfolding ◌>>=◌
  Keeps-bind m f h k = record { at = λ w. Keeps-continue (m w) f k ∙ h.at w }

pub ruleset keeps_rules = (
  Keeps-pure, Keeps-fault, Keeps-deref, Keeps-compute, Keeps-on_error, Keeps-return_if,
  Keeps-origin, Keeps-read_stats, Keeps-loop_event, Keeps-attempt, Keeps-on_nil, Keeps-bind,
  Keeps-recovered, Keeps-in_goroutine,
)

-- All but the number of calls so far, and the backend, which nothing changes.
abbrev pub kept : World → List Request × Stats × String × Option Event
kept w = (requests w, w.stats, w.origin, w.loop_event)

abbrev pub Reads {ℓ} : {A : Type ℓ} → M A → Type ℓ
Reads m = Keeps kept m

pub Reads-requests {ℓ} :
    {A : Type ℓ} {m : M A} → Reads m → (w : World) → requests (final (m w)) ≡ requests w
Reads-requests h w = ap (λ k. k.0) (h.at w)

pub Reads-loop_event {ℓ} :
    {A : Type ℓ} {m : M A} → Reads m → (w : World) → (final (m w)).loop_event ≡ w.loop_event
Reads-loop_event h w = ap (λ k. k.3) (h.at w)

-- The statistics.
abbrev pub counts : World → Stats
counts w = w.stats

module _ {ℓ} {A : Type ℓ} where
  pub Reads-ask : (f : Backend → History → A) → Reads (ask f)
  unfolding ask
  Reads-ask f = record { at = λ w. refl }

  pub counts-ask : (f : Backend → History → A) → Keeps counts (ask f)
  unfolding ask
  counts-ask f = record { at = λ w. refl }

  pub counts-send : (r : Request) (f : Backend → History → A) → Keeps counts (send r f)
  unfolding send
  counts-send r f = record { at = λ w. refl }

pub ruleset reads_rules = (keeps_rules, Reads-ask)

pub ruleset counts_rules = (keeps_rules, counts-ask, counts-send)

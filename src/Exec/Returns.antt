-- ===== src/Exec/Returns.antt =====
-- What the result of an action satisfies, where it has one: one rule for each way to build an action.
use pz_workflow.Prelude.{String, Bool, true, false, if◌then◌else◌, Option, none, some}
use pz_workflow.Backend.{Backend, Result, ok, err, Error}
use pz_workflow.Exec.{
  World, Outcome, done, panic, crash, M, pure, fault, deref, ◌>>=◌, continue, recover, recovered,
  uncaught, in_goroutine, compute, on_error, return_if, attempt, on_nil,
}

abbrev pub Holds {ℓ} : {A : Type ℓ} → (A → Type 0) → Outcome A → Type 0
Holds P (done a v) = P a
Holds P (panic v) = Unit {0}
Holds P (crash v) = Unit {0}

-- A result of `m` satisfies `P`.
pub record Returns {ℓ} {A : Type ℓ} (P : A → Type 0) (m : M A) : Type ℓ where
  pub at : (w : World) → Holds P (m w)

-- `P` of a result that is there.
abbrev pub Some {ℓ} : {A : Type ℓ} → (A → Type 0) → Option A → Type 0
Some P none = Unit {0}
Some P (some a) = P a

module _ {ℓ} {A : Type ℓ} where
  Holds-recover : (P : A → Type 0) (o : Outcome A) → Holds P o → Holds (Some P) (recover o)
  Holds-recover P (done a v) h = h
  Holds-recover P (panic v) h = tt
  Holds-recover P (crash v) h = tt

  Holds-uncaught : (P : A → Type 0) (o : Outcome A) → Holds P o → Holds P (uncaught o)
  Holds-uncaught P (done a v) h = h
  Holds-uncaught P (panic v) h = tt
  Holds-uncaught P (crash v) h = tt

  always : (o : Outcome A) → Holds (λ a. Unit {0}) o
  always (done a v) = tt
  always (panic v) = tt
  always (crash v) = tt

-- There is always something to say of a result: nothing.
pub Returns-anything {ℓ} : {A : Type ℓ} (m : M A) → Returns (λ a. Unit {0}) m
Returns-anything m = record { at = λ w. always (m w) }

module _ {ℓ} {A : Type ℓ} {P : A → Type 0} where
  pub Returns-pure : (a : A) → P a → Returns P (pure a)
  unfolding pure
  Returns-pure a h = record { at = λ w. h }

  pub Returns-fault : Returns P (fault {A = A})
  unfolding fault
  Returns-fault = record { at = λ w. tt }

  pub Returns-compute : (f : Backend → A) → ((b : Backend) → P (f b)) → Returns P (compute f)
  unfolding compute
  Returns-compute f h = record { at = λ w. h w.backend }

  pub Returns-deref : (p : Option A) → Some P p → Returns P (deref p)
  unfolding deref
  Returns-deref none h = record { at = λ w. tt }
  Returns-deref (some a) h = record { at = λ w. h }

  pub Returns-on_error :
      (e : Error) (stop : String → M A) (rest : M A)
      → ((s : String) → Returns P (stop s))
      → Returns P rest
      → Returns P (on_error e stop rest)
  unfolding on_error
  Returns-on_error none stop rest h k = k
  Returns-on_error (some s) stop rest h k = h s

  pub Returns-return_if :
      (b : Bool) (stop rest : M A)
      → Returns P stop
      → Returns P rest
      → Returns P (return_if b stop rest)
  unfolding return_if
  Returns-return_if true stop rest h k = h
  Returns-return_if false stop rest h k = k

  pub Returns-if :
      (b : Bool) (m n : M A) → Returns P m → Returns P n → Returns P (if b then m else n)
  Returns-if true m n h k = h
  Returns-if false m n h k = k

  pub Returns-recovered : (m : M A) → Returns P m → Returns (Some P) (recovered m)
  unfolding recovered
  Returns-recovered m h = record { at = λ w. Holds-recover P (m w) (h.at w) }

  pub Returns-in_goroutine : (m : M A) → Returns P m → Returns P (in_goroutine m)
  unfolding in_goroutine
  Returns-in_goroutine m h = record { at = λ w. Holds-uncaught P (m w) (h.at w) }

module _ {ℓ} {A : Type ℓ} {P Q : A → Type 0} where
  weaker : (o : Outcome A) → Holds Q o → ((a : A) → Q a → P a) → Holds P o
  weaker (done a v) h k = k a h
  weaker (panic v) h k = tt
  weaker (crash v) h k = tt

  pub Returns-weaken : (m : M A) → Returns Q m → ((a : A) → Q a → P a) → Returns P m
  Returns-weaken m h k = record { at = λ w. weaker (m w) (h.at w) k }

module _ {ℓ κ} {A : Type ℓ} {B : Type κ} {P : B → Type 0} where
  pub Returns-attempt :
      (r : Result A) (stop : String → M B) (rest : A → M B)
      → ((s : String) → Returns P (stop s))
      → ((a : A) → Returns P (rest a))
      → Returns P (attempt r stop rest)
  unfolding attempt
  Returns-attempt (ok a) stop rest h k = k a
  Returns-attempt (err s) stop rest h k = h s

  pub Returns-on_nil :
      (p : Option A) (stop : M B) (rest : A → M B)
      → Returns P stop
      → ((a : A) → Returns P (rest a))
      → Returns P (on_nil p stop rest)
  unfolding on_nil
  Returns-on_nil none stop rest h k = h
  Returns-on_nil (some a) stop rest h k = k a

  Holds-continue :
      {Q : A → Type 0} (o : Outcome A) (f : A → M B)
      → Holds Q o
      → ((a : A) → Q a → Returns P (f a))
      → Holds P (continue o f)
  Holds-continue (done a v) f h k = (k a h).at v
  Holds-continue (panic v) f h k = tt
  Holds-continue (crash v) f h k = tt

  -- What the first part returns is used in the second.
  pub Returns-then :
      {Q : A → Type 0} (m : M A) (f : A → M B)
      → Returns Q m
      → ((a : A) → Q a → Returns P (f a))
      → Returns P (m >>= f)
  unfolding ◌>>=◌
  Returns-then m f h k = record { at = λ w. Holds-continue (m w) f (h.at w) k }

  pub Returns-bind : (m : M A) (f : A → M B) → ((a : A) → Returns P (f a)) → Returns P (m >>= f)
  Returns-bind m f k = Returns-then {Q = λ a. Unit {0}} m f (Returns-anything m) λ a h. k a

pub ruleset returns_rules = (
  Returns-fault, Returns-on_error, Returns-return_if, Returns-attempt, Returns-on_nil, Returns-bind,
  Returns-recovered, Returns-in_goroutine,
)

-- ===== src/Exec/Ran.antt =====
-- Actions that returned no error, taken apart.
use pz_workflow.Prelude.{
  ◌≡◌, refl, ◌⊎◌, inl, inr, subst, sym, String, Bool, true, false, Option, none, some, arith,
}
use pz_workflow.Backend.{Error, Result, ok, err}
use pz_workflow.Exec.{
  World, Outcome, done, panic, crash, final, M, pure, deref, ◌>>=◌, continue, on_error, return_if,
  recover, recovered,
}
use pz_workflow.Exec.Keeps.{Keeps}
use pz_workflow.Exec.Wrote.{Runs}

module _ {ℓ κ} {A : Type ℓ} {B : Type κ} where
  ran_continue :
      (o : Outcome A) (f : A → M B) (b : B) (v : World)
      → continue o f ≡ done b v
      → (a : A) × (u : World) × (o ≡ done a u) × Runs (f a) u b v
  ran_continue (done a u) f b v h = (a, u, refl, h)
  ran_continue (panic u) f b v h = absurd (ground arith)
  ran_continue (crash u) f b v h = absurd (ground arith)

  pub Runs-bind :
      (m : M A) (f : A → M B) (w : World) (b : B) (v : World)
      → Runs (m >>= f) w b v
      → (a : A) × (u : World) × Runs m w a u × Runs (f a) u b v
  unfolding ◌>>=◌
  Runs-bind m f w b v h = ran_continue (m w) f b v h

  -- Two runs, one after the other.
  pub Runs-then :
      (m : M A) (f : A → M B) (w : World) (a : A) (u : World) (b : B) (v : World)
      → Runs m w a u
      → Runs (f a) u b v
      → Runs (m >>= f) w b v
  unfolding ◌>>=◌
  Runs-then m f w a u b v r k = subst (λ o. continue o f ≡ done b v) (sym r) k

module _ (m : String) (rest : M Error) (w v : World) where
  pub Runs-return_if :
      (b : Bool) → Runs (return_if b (pure (some m)) rest) w none v → Runs rest w none v
  unfolding return_if pure
  Runs-return_if true h = absurd (ground arith)
  Runs-return_if false h = h

  pub Runs-on_error :
      (e : Error) → Runs (on_error e (λ s. pure (some m)) rest) w none v → Runs rest w none v
  unfolding on_error pure
  Runs-on_error (some s) h = absurd (ground arith)
  Runs-on_error none h = h

module _ {ℓ} {A : Type ℓ} where
  ran_recover : (o : Outcome A) (a : A) (v : World) → recover o ≡ done (some a) v → o ≡ done a v
  ran_recover (done b u) a v h = ground arith
  ran_recover (panic u) a v h = absurd (ground arith)
  ran_recover (crash u) a v h = absurd (ground arith)

  -- A method that has a response did not panic.
  pub Runs-recovered :
      (m : M A) (a : A) (w v : World) → Runs (recovered m) w (some a) v → Runs m w a v
  unfolding recovered
  Runs-recovered m a w v h = ran_recover (m w) a v h

-- `if err != nil { return err }`
pub Runs-return_error :
    (e : Error) (rest : M Error) (w v : World)
    → Runs (on_error e (λ s. pure (some s)) rest) w none v
    → (e ≡ none) × Runs rest w none v
unfolding on_error pure
Runs-return_error (some s) rest w v h = absurd (ground arith)
Runs-return_error none rest w v h = (refl, h)

pub Runs-pure {ℓ} : {A : Type ℓ} (a b : A) (w v : World) → Runs (pure a) w b v → (a ≡ b) × (w ≡ v)
unfolding pure
Runs-pure a b w v h = ground arith

pub Runs-deref {ℓ κ} :
    {A : Type ℓ} {B : Type κ} (p : Option A) (f : A → M B) (w : World) (b : B) (v : World)
    → Runs (deref p >>= f) w b v
    → (a : A) × (p ≡ some a) × Runs (f a) w b v
unfolding ◌>>=◌
Runs-deref none f w b v h = absurd (ground arith)
Runs-deref (some a) f w b v h = (a, refl, h)

pub Runs-Keeps {ℓ κ} :
    {A : Type ℓ} {χ : Type κ} (obs : World → χ) (m : M A) (w : World) (a : A) (v : World)
    → Keeps obs m
    → Runs m w a v
    → obs v ≡ obs w
Runs-Keeps obs m w a v h r = subst (λ o. obs (final o) ≡ obs w) r (h.at w)

pub Result-cases {ℓ} :
    {A : Type ℓ} (r : Result A) → ((a : A) × (r ≡ ok a)) ⊎ ((e : String) × (r ≡ err e))
Result-cases (ok a) = inl (a, refl)
Result-cases (err e) = inr (e, refl)

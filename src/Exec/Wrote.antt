-- ===== src/Exec/Wrote.antt =====
-- Where an action has requested something, how it came to that: inversion of the ways to build it.
use pz_workflow.Prelude.{ℕ, ◌≡◌, refl, ◌∙◌, String, Bool, true, false, not, Option, none, some}
use pz_workflow.Backend.{Result, ok, err, Error}
use pz_workflow.Exec.{
  World, requests, Outcome, done, panic, crash, final, M, deref, ◌>>=◌, continue, recover,
  recovered, uncaught, in_goroutine, on_error, return_if, attempt, on_nil,
}
use pz_workflow.Exec.Keeps.{Reads, Reads-requests}

-- `m` has requested something by its end.
abbrev pub Wrote {ℓ} : {A : Type ℓ} → M A → World → Type 0
Wrote m w = ¬ (requests (final (m w)) ≡ requests w)

-- A run of `m` that returns `a`.
abbrev pub Runs {ℓ} : {A : Type ℓ} → M A → World → A → World → Type ℓ
Runs m w a v = m w ≡ done a v

module _ {ℓ} {A : Type ℓ} where
  pub Wrote-recovered : (m : M A) (w : World) → Wrote (recovered m) w → Wrote m w
  unfolding recovered
  Wrote-recovered m w h e = h (same (m w) ∙ e)
    where
      same : (o : Outcome A) → requests (final (recover o)) ≡ requests (final o)
      same (done a v) = refl
      same (panic v) = refl
      same (crash v) = refl

  pub Wrote-in_goroutine : (m : M A) (w : World) → Wrote (in_goroutine m) w → Wrote m w
  unfolding in_goroutine
  Wrote-in_goroutine m w h e = h (same (m w) ∙ e)
    where
      same : (o : Outcome A) → requests (final (uncaught o)) ≡ requests (final o)
      same (done a v) = refl
      same (panic v) = refl
      same (crash v) = refl

  pub Wrote-on_error :
      (e : Error) (stop : String → M A) (rest : M A) (w : World)
      → ((s : String) → Reads (stop s))
      → Wrote (on_error e stop rest) w
      → (e ≡ none) × Wrote rest w
  unfolding on_error
  Wrote-on_error none stop rest w k h = (refl, h)
  Wrote-on_error (some s) stop rest w k h = absurd (h (Reads-requests (k s) w))

  pub Wrote-return_if :
      (b : Bool) (stop rest : M A) (w : World)
      → Reads stop
      → Wrote (return_if b stop rest) w
      → (b ≡ false) × Wrote rest w
  unfolding return_if
  Wrote-return_if true stop rest w k h = absurd (h (Reads-requests k w))
  Wrote-return_if false stop rest w k h = (refl, h)

module _ {ℓ κ} {A : Type ℓ} {B : Type κ} where
  pub Wrote-attempt :
      (r : Result A) (stop : String → M B) (rest : A → M B) (w : World)
      → ((s : String) → Reads (stop s))
      → Wrote (attempt r stop rest) w
      → (a : A) × (r ≡ ok a) × Wrote (rest a) w
  unfolding attempt
  Wrote-attempt (ok a) stop rest w k h = (a, refl, h)
  Wrote-attempt (err s) stop rest w k h = absurd (h (Reads-requests (k s) w))

  pub Wrote-on_nil :
      (p : Option A) (stop : M B) (rest : A → M B) (w : World)
      → Reads stop
      → Wrote (on_nil p stop rest) w
      → (a : A) × (p ≡ some a) × Wrote (rest a) w
  unfolding on_nil
  Wrote-on_nil (some a) stop rest w k h = (a, refl, h)
  Wrote-on_nil none stop rest w k h = absurd (h (Reads-requests k w))

  Wrote-continue :
      (o : Outcome A) (f : A → M B) (w : World)
      → requests (final o) ≡ requests w
      → ¬ (requests (final (continue o f)) ≡ requests w)
      → (a : A) × (v : World) × (o ≡ done a v) × Wrote (f a) v
  Wrote-continue (done a v) f w same h = (a, v, refl, λ e. h (e ∙ same))
  Wrote-continue (panic v) f w same h = absurd (h same)
  Wrote-continue (crash v) f w same h = absurd (h same)

  -- The first part only reads: it returned, and the second part wrote.
  pub Wrote-bind :
      (m : M A) (f : A → M B) (w : World)
      → Reads m
      → Wrote (m >>= f) w
      → (a : A) × (v : World) × Runs m w a v × Wrote (f a) v
  unfolding ◌>>=◌
  Wrote-bind m f w k h = Wrote-continue (m w) f w (Reads-requests k w) h

-- The service's usual beginnings: a document is asked for, and the method goes on only with it.
module _ {ℓ κ} {A : Type ℓ} {B : Type κ} (m : M (Option A × Bool × Error)) (k : A → M B) where
  found_rest :
      (nf : Error → M B) (br : String → M B) (x : Option A × Bool × Error) (w v : World)
      → ((e : Error) → Reads (nf e))
      → ((s : String) → Reads (br s))
      → Runs m w x v
      → Wrote (return_if (not x.1) (nf x.2) (on_error x.2 br (deref x.0 >>= k))) v
      → (a : A) × Runs m w (some a, true, none) v × Wrote (k a) v
  unfolding return_if on_error ◌>>=◌
  found_rest nf br (p, false, e) w v knf kbr r h = absurd (h (Reads-requests (knf e) v))
  found_rest nf br (p, true, some s) w v knf kbr r h = absurd (h (Reads-requests (kbr s) v))
  found_rest nf br (none, true, none) w v knf kbr r h = absurd (h refl)
  found_rest nf br (some a, true, none) w v knf kbr r h = (a, r, h)

  pub Wrote-found :
      (nf : Error → M B) (br : String → M B) (w : World)
      → Reads m
      → ((e : Error) → Reads (nf e))
      → ((s : String) → Reads (br s))
      → Wrote (m >>= λ x. return_if (not x.1) (nf x.2) (on_error x.2 br (deref x.0 >>= k))) w
      → (a : A) × (v : World) × Runs m w (some a, true, none) v × Wrote (k a) v
  Wrote-found nf br w km knf kbr h =
      let (x, v, r, h1) = Wrote-bind m _ w km h in
      let (a, r2, h2) = found_rest nf br x w v knf kbr r h1 in (a, v, r2, h2)

-- A listing is asked for, and its error ends the method.
module _ {ℓ κ} {A : Type ℓ} {B : Type κ} (m : M (A × ℕ × Error)) (k : A → ℕ → M B) where
  listed_rest :
      (br : String → M B) (x : A × ℕ × Error) (w v : World)
      → ((s : String) → Reads (br s))
      → Runs m w x v
      → Wrote (on_error x.2 br (k x.0 x.1)) v
      → (a : A) × (n : ℕ) × Runs m w (a, n, none) v × Wrote (k a n) v
  unfolding on_error
  listed_rest br (a, n, some s) w v kbr r h = absurd (h (Reads-requests (kbr s) v))
  listed_rest br (a, n, none) w v kbr r h = (a, n, r, h)

  pub Wrote-listed :
      (br : String → M B) (w : World)
      → Reads m
      → ((s : String) → Reads (br s))
      → Wrote (m >>= λ x. on_error x.2 br (k x.0 x.1)) w
      → (a : A) × (n : ℕ) × (v : World) × Runs m w (a, n, none) v × Wrote (k a n) v
  Wrote-listed br w km kbr h =
      let (x, v, r, h1) = Wrote-bind m _ w km h in
      let (a, n, r2, h2) = listed_rest br x w v kbr r h1 in (a, n, v, r2, h2)

module _ {ℓ κ} {A : Type ℓ} {B : Type κ} where
  pub Wrote-deref :
      (p : Option A) (f : A → M B) (w : World)
      → Wrote (deref p >>= f) w
      → (a : A) × (p ≡ some a) × Wrote (f a) w
  unfolding ◌>>=◌
  Wrote-deref none f w h = absurd (h refl)
  Wrote-deref (some a) f w h = (a, refl, h)

  -- Here the method goes on where the pointer is nil.
  pub Wrote-on_nil_stop :
      (p : Option A) (stop : M B) (rest : A → M B) (w : World)
      → ((a : A) → Reads (rest a))
      → Wrote (on_nil p stop rest) w
      → (p ≡ none) × Wrote stop w
  unfolding on_nil
  Wrote-on_nil_stop none stop rest w k h = (refl, h)
  Wrote-on_nil_stop (some a) stop rest w k h = absurd (h (Reads-requests (k a) w))

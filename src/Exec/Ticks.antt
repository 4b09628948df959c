-- ===== src/Exec/Ticks.antt =====
-- Actions that count once at most: one rule for each way to build an action.
use pz_workflow.Prelude.{
  ℕ, ◌≡◌, ◌≢◌, refl, ◌∙◌, ap, ◌⊎◌, inl, inr, String, Bool, true, false, if◌then◌else◌, Option, none,
  some,
}
use pz_workflow.Model.{Stats, incr_counter}
use pz_workflow.Backend.{Result, ok, err, Error}
use pz_workflow.Exec.{
  World, Outcome, done, panic, crash, final, M, count, ◌>>=◌, ◌>>◌, continue, recover, recovered,
  on_error, return_if, attempt, on_nil,
}
use pz_workflow.Exec.Keeps.{Keeps}
use pz_workflow.Exec.Returns.{Returns, Returns-anything, Holds, Some}
use pz_workflow.Exec.Steady.{Touches, untouched, event_types, triggers, firing, posting, erase}

pub data Counter : Type 0 where
  event_type_count event_count trigger_count : Counter

unfoldable pub value : Counter → Stats → ℕ
value event_type_count s = s.num_event_types
value event_count s = s.num_events
value trigger_count s = s.num_triggers

abbrev pub counter : Counter → World → ℕ
counter c w = value c w.stats

abbrev pub Spares {ℓ} : Counter → {A : Type ℓ} → M A → Type ℓ
Spares c m = Keeps (counter c) m

-- The counter is as before, and a result satisfies `P`; or it is one higher.
abbrev pub Tick {ℓ} : Counter → {A : Type ℓ} → (A → Type 0) → World → Outcome A → Type 0
Tick c P w o =
    ((counter c (final o) ≡ counter c w) × Holds P o)
    ⊎ (counter c (final o) ≡ incr_counter (counter c w))

pub record Ticks {ℓ} {A : Type ℓ} (c : Counter) (P : A → Type 0) (m : M A) : Type ℓ where
  pub at : (w : World) → Tick c P w (m w)

module _ {ℓ} {A : Type ℓ} (c : Counter) where
  pub Spares-untouched : (m : M A) → Touches untouched m → Spares c m
  unfolding erase
  Spares-untouched m h = record { at = λ w. ap (λ x. value c x.0) (h.at w) }

  Tick-recover :
      (P : A → Type 0) (w : World) (o : Outcome A) → Tick c P w o → Tick c (Some P) w (recover o)
  Tick-recover P w (done a v) h = h
  Tick-recover P w (panic v) h = h
  Tick-recover P w (crash v) h = h

  pub Ticks-recovered : (P : A → Type 0) (m : M A) → Ticks c P m → Ticks c (Some P) (recovered m)
  unfolding recovered
  Ticks-recovered P m h = record { at = λ w. Tick-recover P w (m w) (h.at w) }

  module _ (P : A → Type 0) where
    pub Ticks-never : (m : M A) → Spares c m → Returns P m → Ticks c P m
    Ticks-never m h k = record { at = λ w. inl (h.at w, k.at w) }

    pub Ticks-count :
        (f : Stats → Stats) (m : M A)
        → ((s : Stats) → value c (f s) ≡ incr_counter (value c s))
        → Spares c m
        → Ticks c P (count f >> m)
    unfolding ◌>>=◌ count
    Ticks-count f m h k = record { at = λ w. inr (k.at _ ∙ h w.stats) }

    pub Ticks-on_error :
        (e : Error) (stop : String → M A) (rest : M A)
        → ((s : String) → Ticks c P (stop s))
        → Ticks c P rest
        → Ticks c P (on_error e stop rest)
    unfolding on_error
    Ticks-on_error none stop rest h k = k
    Ticks-on_error (some s) stop rest h k = h s

    pub Ticks-return_if :
        (b : Bool) (stop rest : M A)
        → Ticks c P stop
        → Ticks c P rest
        → Ticks c P (return_if b stop rest)
    unfolding return_if
    Ticks-return_if true stop rest h k = h
    Ticks-return_if false stop rest h k = k

    pub Ticks-if :
        (b : Bool) (m n : M A) → Ticks c P m → Ticks c P n → Ticks c P (if b then m else n)
    Ticks-if true m n h k = h
    Ticks-if false m n h k = k

later {κ} :
    {B : Type κ} (c : Counter) (P : B → Type 0) (u w : World) (o : Outcome B)
    → counter c u ≡ counter c w
    → Tick c P u o
    → Tick c P w o
later c P u w o e (inl (same, h)) = inl (same ∙ e, h)
later c P u w o e (inr more) = inr (more ∙ ap incr_counter e)

module _ {ℓ κ} {A : Type ℓ} {B : Type κ} (c : Counter) (P : B → Type 0) where
  pub Ticks-attempt :
      (r : Result A) (stop : String → M B) (rest : A → M B)
      → ((s : String) → Ticks c P (stop s))
      → ((a : A) → Ticks c P (rest a))
      → Ticks c P (attempt r stop rest)
  unfolding attempt
  Ticks-attempt (ok a) stop rest h k = k a
  Ticks-attempt (err s) stop rest h k = h s

  pub Ticks-on_nil :
      (p : Option A) (stop : M B) (rest : A → M B)
      → Ticks c P stop
      → ((a : A) → Ticks c P (rest a))
      → Ticks c P (on_nil p stop rest)
  unfolding on_nil
  Ticks-on_nil none stop rest h k = h
  Ticks-on_nil (some a) stop rest h k = k a

  Tick-continue :
      (Q : A → Type 0) (w : World) (o : Outcome A) (f : A → M B)
      → counter c (final o) ≡ counter c w
      → Holds Q o
      → ((a : A) → Q a → Ticks c P (f a))
      → Tick c P w (continue o f)
  Tick-continue Q w (done a v) f e q k = later c P v w (f a v) e ((k a q).at v)
  Tick-continue Q w (panic v) f e q k = inl (e, tt)
  Tick-continue Q w (crash v) f e q k = inl (e, tt)

  -- What the first part returns is used in the second.
  pub Ticks-then :
      (Q : A → Type 0) (m : M A) (f : A → M B)
      → Spares c m
      → Returns Q m
      → ((a : A) → Q a → Ticks c P (f a))
      → Ticks c P (m >>= f)
  unfolding ◌>>=◌
  Ticks-then Q m f h q k = record { at = λ w. Tick-continue Q w (m w) f (h.at w) (q.at w) k }

  pub Ticks-bind :
      (m : M A) (f : A → M B) → Spares c m → ((a : A) → Ticks c P (f a)) → Ticks c P (m >>= f)
  Ticks-bind m f h k = Ticks-then (λ a. Unit {0}) m f h (Returns-anything m) λ a q. k a

-- The counters that an action does not touch.
module _ {ℓ} {A : Type ℓ} (m : M A) where
  pub Spares-event_types : (c : Counter) → c ≢ event_type_count → Touches event_types m → Spares c m
  unfolding erase value
  Spares-event_types event_type_count n h = absurd (n refl)
  Spares-event_types event_count n h = record { at = λ w. ap (λ x. x.0.num_events) (h.at w) }
  Spares-event_types trigger_count n h = record { at = λ w. ap (λ x. x.0.num_triggers) (h.at w) }

  pub Spares-triggers : (c : Counter) → c ≢ trigger_count → Touches triggers m → Spares c m
  unfolding erase value
  Spares-triggers event_type_count n h = record { at = λ w. ap (λ x. x.0.num_event_types) (h.at w) }
  Spares-triggers event_count n h = record { at = λ w. ap (λ x. x.0.num_events) (h.at w) }
  Spares-triggers trigger_count n h = absurd (n refl)

  pub Spares-posting : (c : Counter) → c ≢ event_count → Touches posting m → Spares c m
  unfolding erase value
  Spares-posting event_type_count n h = record { at = λ w. ap (λ x. x.0.num_event_types) (h.at w) }
  Spares-posting event_count n h = absurd (n refl)
  Spares-posting trigger_count n h = record { at = λ w. ap (λ x. x.0.num_triggers) (h.at w) }

  pub Spares-firing : (c : Counter) → Touches firing m → Spares c m
  unfolding erase value
  Spares-firing event_type_count h = record { at = λ w. ap (λ x. x.0.num_event_types) (h.at w) }
  Spares-firing event_count h = record { at = λ w. ap (λ x. x.0.num_events) (h.at w) }
  Spares-firing trigger_count h = record { at = λ w. ap (λ x. x.0.num_triggers) (h.at w) }

pub ruleset ticks_rules = (
  Ticks-recovered, Ticks-on_error, Ticks-return_if, Ticks-if, Ticks-attempt, Ticks-on_nil,
  Ticks-bind, Ticks-count, Spares-untouched,
)

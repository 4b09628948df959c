-- ===== src/Exec/Once.antt =====
-- Actions that make at most one request, and which.
use pz_workflow.Prelude.{
  ◌≡◌, refl, ◌∙◌, ap, ◌⊎◌, inl, inr, String, Bool, true, false, Option, none, some, ◌∷◌,
}
use pz_workflow.Backend.{Backend, History, Request, Error}
use pz_workflow.Exec.{
  World, requests, Outcome, done, panic, crash, final, M, send, ◌>>=◌, continue, recover, recovered,
  on_error, return_if, on_nil,
}
use pz_workflow.Exec.Keeps.{Reads, Reads-requests}

-- The requests are those of before, or these and `r`.
abbrev pub Adds : Request → World → World → Type 0
Adds r v w = (requests v ≡ requests w) ⊎ (requests v ≡ r ∷ requests w)

pub record Once {ℓ} {A : Type ℓ} (r : Request) (m : M A) : Type ℓ where
  pub at : (w : World) → Adds r (final (m w)) w

same_as : (r : Request) (v u w : World) → requests v ≡ requests u → Adds r u w → Adds r v w
same_as r v u w e (inl p) = inl (e ∙ p)
same_as r v u w e (inr p) = inr (e ∙ p)

module _ {ℓ} {A : Type ℓ} {r : Request} where
  pub Once-of_Reads : (m : M A) → Reads m → Once r m
  Once-of_Reads m h = record { at = λ w. inl (Reads-requests h w) }

  pub Once-send : (f : Backend → History → A) → Once r (send r f)
  unfolding send
  Once-send f = record { at = λ w. inr refl }

  pub Once-on_error :
      (e : Error) (stop : String → M A) (rest : M A)
      → ((s : String) → Once r (stop s))
      → Once r rest
      → Once r (on_error e stop rest)
  unfolding on_error
  Once-on_error none stop rest h k = k
  Once-on_error (some s) stop rest h k = h s

  pub Once-return_if :
      (b : Bool) (stop rest : M A) → Once r stop → Once r rest → Once r (return_if b stop rest)
  unfolding return_if
  Once-return_if true stop rest h k = h
  Once-return_if false stop rest h k = k

  Once-recover : (o : Outcome A) (w : World) → Adds r (final o) w → Adds r (final (recover o)) w
  Once-recover (done a v) w h = h
  Once-recover (panic v) w h = h
  Once-recover (crash v) w h = h

  pub Once-recovered : (m : M A) → Once r m → Once r (recovered m)
  unfolding recovered
  Once-recovered m h = record { at = λ w. Once-recover (m w) w (h.at w) }

module _ {ℓ κ} {A : Type ℓ} {B : Type κ} {r : Request} where
  pub Once-on_nil :
      (p : Option A) (stop : M B) (rest : A → M B)
      → Once r stop
      → ((a : A) → Once r (rest a))
      → Once r (on_nil p stop rest)
  unfolding on_nil
  Once-on_nil none stop rest h k = h
  Once-on_nil (some a) stop rest h k = k a

  later :
      (o : Outcome A) (f : A → M B) (w : World)
      → requests (final o) ≡ requests w
      → ((a : A) → Once r (f a))
      → Adds r (final (continue o f)) w
  later (done a v) f w e k = elim ((k a).at v) [
    | inl p ↦ inl (p ∙ e)
    | inr p ↦ inr (p ∙ ap (λ rs. r ∷ rs) e)
  ]
  later (panic v) f w e k = inl e
  later (crash v) f w e k = inl e

  -- First questions, then the request; or the request first, and then questions.
  pub Once-after : (m : M A) (f : A → M B) → Reads m → ((a : A) → Once r (f a)) → Once r (m >>= f)
  unfolding ◌>>=◌
  Once-after m f h k = record { at = λ w. later (m w) f w (Reads-requests h w) k }

  earlier :
      (o : Outcome A) (f : A → M B) (w : World)
      → Adds r (final o) w
      → ((a : A) → Reads (f a))
      → Adds r (final (continue o f)) w
  earlier (done a v) f w h k = same_as r (final (f a v)) v w (Reads-requests (k a) v) h
  earlier (panic v) f w h k = h
  earlier (crash v) f w h k = h

  pub Once-before : (m : M A) (f : A → M B) → Once r m → ((a : A) → Reads (f a)) → Once r (m >>= f)
  unfolding ◌>>=◌
  Once-before m f h k = record { at = λ w. earlier (m w) f w (h.at w) k }

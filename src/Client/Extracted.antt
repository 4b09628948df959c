-- ===== src/Client/Extracted.antt =====
-- The ends of `json.Unmarshal` in the methods of workflow/Client.go.
use pz_workflow.Prelude.{String, ◌≡◌, ◌≢◌, refl, ◌⊎◌, inl, inr, none, some, arith}
use pz_workflow.Json.{Json, null, boolean, number, text, arr, obj}
use pz_workflow.Backend.{Result, ok, err}
use pz_workflow.Client.{into}

-- What `json.Unmarshal` leaves: nothing for null, else what was found, or its error.
pub into-cases {ℓ} :
    {A : Type ℓ} (found : Result A) (content : Json)
    → ((content ≡ null) × (into found content ≡ ok none))
      ⊎ ((content ≢ null)
          × (((a : A) × (found ≡ ok a) × (into found content ≡ ok (some a)))
              ⊎ ((e : String) × (found ≡ err e) × (into found content ≡ err e))))
into-cases found null = inl (refl, refl)
into-cases (ok a) (boolean b) = inr ((λ p. ground (arith, p)), inl (a, refl, refl))
into-cases (ok a) (number b) = inr ((λ p. ground (arith, p)), inl (a, refl, refl))
into-cases (ok a) (text b) = inr ((λ p. ground (arith, p)), inl (a, refl, refl))
into-cases (ok a) (arr b) = inr ((λ p. ground (arith, p)), inl (a, refl, refl))
into-cases (ok a) (obj b) = inr ((λ p. ground (arith, p)), inl (a, refl, refl))
into-cases (err e) (boolean b) = inr ((λ p. ground (arith, p)), inr (e, refl, refl))
into-cases (err e) (number b) = inr ((λ p. ground (arith, p)), inr (e, refl, refl))
into-cases (err e) (text b) = inr ((λ p. ground (arith, p)), inr (e, refl, refl))
into-cases (err e) (arr b) = inr ((λ p. ground (arith, p)), inr (e, refl, refl))
into-cases (err e) (obj b) = inr ((λ p. ground (arith, p)), inr (e, refl, refl))

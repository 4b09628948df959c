-- ===== src/Response/WellFormed.antt =====
-- The shapes of the service's responses.
use pz_workflow.Prelude.{ℕ, ◌≡◌, refl, ◌≢◌, ◌⊎◌, inl, inr, String, none, some, true, arith}
use pz_workflow.Model.{Payload, no_data, text_data, version_data}
use pz_workflow.Backend.{Backend, Error, JsonPagination, Result, ok, err}
use pz_workflow.Exec.{M, pure, attempt, ◌>>=◌}
use pz_workflow.Exec.Returns.{
  Returns, Returns-pure, Returns-bind, Returns-then, Returns-compute, Returns-weaken, returns_rules,
}
use pz_workflow.Response.DataTypes.{IsRegistered, registered_rules}
use pz_workflow.Response.{
  JsonResponse, is_error, failure_response, status_bad_request, status_forbidden,
  status_internal_error, status_not_found, data_response, status_ok, status_created, status_put_ok,
  paginated,
}

-- An error: one of four statuses, and neither data nor a type's name.
pub record IsRefusal (resp : JsonResponse) : Type 0 where
  pub status :
      ((resp.status_code ≡ 400) ⊎ (resp.status_code ≡ 403))
      ⊎ ((resp.status_code ≡ 404) ⊎ (resp.status_code ≡ 500))
  pub empty : resp.payload ≡ no_data
  pub untyped : resp.type_name ≡ ""

-- Documents of a registered type; a success without data; text; an error.
pub data IsWellFormed (created : ℕ) (resp : JsonResponse) : Type 0 where
  documents :
      (resp.status_code ≡ 200) ⊎ (resp.status_code ≡ created)
      → IsRegistered resp.payload
      → IsWellFormed created resp
  nothing : resp.status_code ≡ 200 → resp.payload ≡ no_data → IsWellFormed created resp
  text :
      (s : String)
      → resp.status_code ≡ 200
      → (resp.payload ≡ text_data s) ⊎ (resp.payload ≡ version_data s)
      → resp.type_name ≡ ""
      → IsWellFormed created resp
  refusal : IsRefusal resp → IsWellFormed created resp

pub IsRefusal-not_created : (resp : JsonResponse) → IsRefusal resp → resp.status_code ≢ 201
IsRefusal-not_created resp h = let s = h.status in ground arith

-- A response with data is no error.
pub is_error-IsRefusal :
    (resp : JsonResponse) → IsWellFormed 201 resp → is_error resp ≡ true → IsRefusal resp
is_error-IsRefusal resp (documents s r) e = absurd (ground arith)
is_error-IsRefusal resp (nothing s p) e = absurd (ground arith)
is_error-IsRefusal resp (text t s p n) e = absurd (ground arith)
is_error-IsRefusal resp (refusal r) e = r

failure_response-IsRefusal :
    (code : ℕ) (message : String)
    → ((code ≡ 400) ⊎ (code ≡ 403)) ⊎ ((code ≡ 404) ⊎ (code ≡ 500))
    → Returns IsRefusal (failure_response code message)
unfolding failure_response
failure_response-IsRefusal code message h =
    Returns-bind _ _ λ place. Returns-pure _ (record { status = h; empty = refl; untyped = refl })

pub status_bad_request-IsRefusal : (e : Error) → Returns IsRefusal (status_bad_request e)
unfolding status_bad_request
status_bad_request-IsRefusal e =
    Returns-bind _ _ λ m. failure_response-IsRefusal 400 m (inl (inl refl))

pub status_forbidden-IsRefusal : (e : Error) → Returns IsRefusal (status_forbidden e)
unfolding status_forbidden
status_forbidden-IsRefusal e =
    Returns-bind _ _ λ m. failure_response-IsRefusal 403 m (inl (inr refl))

pub status_not_found-IsRefusal : (e : Error) → Returns IsRefusal (status_not_found e)
unfolding status_not_found
status_not_found-IsRefusal e =
    Returns-bind _ _ λ m. failure_response-IsRefusal 404 m (inr (inl refl))

pub status_internal_error-IsRefusal : (e : Error) → Returns IsRefusal (status_internal_error e)
unfolding status_internal_error
status_internal_error-IsRefusal e =
    Returns-bind _ _ λ m. failure_response-IsRefusal 500 m (inr (inr refl))

-- The response with data that `status_ok` and `status_created` make.
abbrev data_of : ℕ → Payload → String → JsonResponse
data_of code p t = record {
  status_code = code;
  type_name = t;
  payload = p;
  pagination = none;
  message = "";
  origin = "";
}

-- The rules for the methods; `n` is the status beside 200 that a method may succeed with.
module _ (n : ℕ) where
  pub paginated-IsWellFormed :
      (format : JsonPagination) (hits : ℕ) (resp : JsonResponse)
      → IsWellFormed n resp
      → IsWellFormed n (paginated format hits resp)
  paginated-IsWellFormed format hits resp (documents s r) = documents s r
  paginated-IsWellFormed format hits resp (nothing s p) = nothing s p
  paginated-IsWellFormed format hits resp (text t s p n) = text t s p n
  paginated-IsWellFormed format hits resp (refusal r) =
      refusal (record { status = r.status; empty = r.empty; untyped = r.untyped })

  attempt-IsWellFormed :
      (code : ℕ) (p : Payload) (b : Backend) (typed : Result String)
      → b.response_type p ≡ typed
      → ((t : String) → b.response_type p ≡ ok t → IsWellFormed n (data_of code p t))
      → Returns
          (IsWellFormed n)
          (attempt typed (λ e. status_internal_error (some e)) λ t. pure (data_of code p t))
  unfolding attempt
  attempt-IsWellFormed code p b (ok t) e h = Returns-pure _ (h t e)
  attempt-IsWellFormed code p b (err m) e h =
      Returns-weaken _ (status_internal_error-IsRefusal (some m)) λ resp. refusal

  data_response-IsWellFormed :
      (code : ℕ) (p : Payload)
      → ((b : Backend) (t : String) → b.response_type p ≡ ok t → IsWellFormed n (data_of code p t))
      → Returns (IsWellFormed n) (data_response code p)
  unfolding data_response
  data_response-IsWellFormed code p h =
      Returns-then {Q = λ typed. (b : Backend) × (b.response_type p ≡ typed)} _ _
        (Returns-compute _ λ b. (b, refl))
        λ typed q. let (b, e) = q in attempt-IsWellFormed code p b typed e (h b)

  pub status_ok-IsWellFormed :
      (p : Payload) → IsRegistered p → Returns (IsWellFormed n) (status_ok p)
  unfolding status_ok
  status_ok-IsWellFormed p r = data_response-IsWellFormed 200 p λ b t e. documents (inl refl) r

  pub status_ok-none : Returns (IsWellFormed n) (status_ok no_data)
  unfolding status_ok
  status_ok-none = data_response-IsWellFormed 200 no_data λ b t e. nothing refl refl

  pub status_put_ok-IsWellFormed :
      (message : String) → Returns (IsWellFormed n) (status_put_ok message)
  unfolding status_put_ok
  status_put_ok-IsWellFormed message = Returns-bind _ _ λ place. Returns-pure _ (nothing refl refl)

  pub Returns-paginated :
      (format : JsonPagination) (hits : ℕ) (m : M JsonResponse)
      → Returns (IsWellFormed n) m
      → Returns (IsWellFormed n) (m >>= λ resp. pure (paginated format hits resp))
  Returns-paginated format hits m h =
      Returns-then m _ h λ resp g. Returns-pure _ (paginated-IsWellFormed format hits resp g)

  pub bad_request-IsWellFormed : (e : Error) → Returns (IsWellFormed n) (status_bad_request e)
  bad_request-IsWellFormed e = Returns-weaken _ (status_bad_request-IsRefusal e) λ resp. refusal

  pub not_found-IsWellFormed : (e : Error) → Returns (IsWellFormed n) (status_not_found e)
  not_found-IsWellFormed e = Returns-weaken _ (status_not_found-IsRefusal e) λ resp. refusal

  pub forbidden-IsWellFormed : (e : Error) → Returns (IsWellFormed n) (status_forbidden e)
  forbidden-IsWellFormed e = Returns-weaken _ (status_forbidden-IsRefusal e) λ resp. refusal

  pub internal_error-IsWellFormed : (e : Error) → Returns (IsWellFormed n) (status_internal_error e)
  internal_error-IsWellFormed e =
      Returns-weaken _ (status_internal_error-IsRefusal e) λ resp. refusal

pub status_created-IsWellFormed :
    (p : Payload) → IsRegistered p → Returns (IsWellFormed 201) (status_created p)
unfolding status_created
status_created-IsWellFormed p r =
    data_response-IsWellFormed 201 201 p λ b t e. documents (inr refl) r

pub ruleset shape_rules = (
  returns_rules, registered_rules, Returns-paginated, bad_request-IsWellFormed,
  not_found-IsWellFormed, internal_error-IsWellFormed, forbidden-IsWellFormed,
  status_ok-IsWellFormed, status_ok-none, status_created-IsWellFormed, status_put_ok-IsWellFormed,
)

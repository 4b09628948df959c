-- ===== src/Response.antt =====
-- Responses, `piazza.JsonResponse`, and the functions of workflow/Service.go that make them.
pub mod DataTypes
pub mod WellFormed
use pz_workflow.Prelude.{ℕ, String, Bool, Option, none, some, ◌||◌, ltb}
use pz_workflow.Model.{Payload, no_data}
use pz_workflow.Backend.{Error, JsonPagination}
use pz_workflow.Exec.{M, pure, deref, compute, origin, ◌>>=◌, attempt}

pub record JsonResponse : Type 0 where
  pub status_code : ℕ
  pub type_name : String
  pub payload : Payload
  pub pagination : Option JsonPagination
  pub message : String
  pub origin : String

-- `resp.IsError()`
abbrev pub is_error : JsonResponse → Bool
is_error resp = ltb resp.status_code 200 || ltb 299 resp.status_code

-- The answer of each method: nil, if it panicked.
abbrev pub Reply : Type 0
Reply = M (Option JsonResponse)

unfoldable pub failure_response : ℕ → String → M JsonResponse
failure_response code message = do
  place ← origin
  pure (record {
    status_code = code;
    type_name = "";
    payload = no_data;
    pagination = none;
    message = message;
    origin = place;
  })

-- `err.Error()` of a nil error is a fault.
unfoldable pub status_bad_request : Error → M JsonResponse
unfolding failure_response
status_bad_request error = do message ← deref error; failure_response 400 message

unfoldable pub status_forbidden : Error → M JsonResponse
unfolding failure_response
status_forbidden error = do message ← deref error; failure_response 403 message

unfoldable pub status_internal_error : Error → M JsonResponse
unfolding failure_response
status_internal_error error = do message ← deref error; failure_response 500 message

unfoldable pub status_not_found : Error → M JsonResponse
unfolding failure_response
status_not_found error = do message ← deref error; failure_response 404 message

-- A response with data: `SetType` knows the types that may be sent.
unfoldable pub data_response : ℕ → Payload → M JsonResponse
unfolding status_internal_error
data_response code payload = do
  typed ← compute (λ b. b.response_type payload)
  attempt typed (λ e. status_internal_error (some e))
      λ type_name. pure (record {
        status_code = code;
        type_name = type_name;
        payload = payload;
        pagination = none;
        message = "";
        origin = "";
      })

unfoldable pub status_ok : Payload → M JsonResponse
unfolding data_response
status_ok = data_response 200

unfoldable pub status_created : Payload → M JsonResponse
unfolding data_response
status_created = data_response 201

unfoldable pub status_put_ok : String → M JsonResponse
status_put_ok message = do
  place ← origin
  pure (record {
    status_code = 200;
    type_name = "success";
    payload = no_data;
    pagination = none;
    message = message;
    origin = place;
  })

-- `format.Count = int(totalHits); resp.Pagination = format`
abbrev pub paginated : JsonPagination → ℕ → JsonResponse → JsonResponse
paginated format hits resp = record resp { pagination = some (record format { count = hits }) }

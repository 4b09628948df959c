-- ===== src/Tools/Starting.antt =====
-- `makeClient` of tools/main.go, and `NewClient` of workflow/Client.go.
use pz_workflow.Prelude.{String, none, some}
use pz_workflow.Backend.{Error, Result, ok, err}

-- A client's address and its key, which `piazza.Http` has both of.
pub record Connection : Type 0 where
  pub url : String
  pub api_key : String

-- The service is waited for, and a line is logged.
unfoldable pub new_client : (String → Error) → Error → String → String → Result Connection
new_client wait_for_service info url api_key = elim (wait_for_service url) [
  | some e ↦ err e
  | none ↦ elim info [ some e ↦ err e | none ↦ ok (record { url = url; api_key = api_key }) ]
]

-- The API server is asked for, and its key; the address is not made from them.
unfoldable pub make_client :
    Result String → (String → Result String) → (String → Error) → Error → Result Connection
unfolding new_client
make_client api_server get_api_key wait_for_service info = elim api_server [
  | err e ↦ err e
  | ok server ↦ elim (get_api_key server) [
    | err e ↦ err e
    | ok api_key ↦
        new_client wait_for_service info "https://pz-workflow.int.geointservices.io" api_key
  ]
]

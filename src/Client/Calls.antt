-- ===== src/Client/Calls.antt =====
-- The HTTP library that workflow/Client.go calls, `piazza.Http` and `piazza.JsonResponse`, as a
-- parameter: an answer may depend on all requests sent before, newest first.
use pz_workflow.Prelude.{ℕ, String, Bool, ◌||◌, ltb, if◌then◌else◌, Option, none, some, List, ◌∷◌}
use pz_workflow.Json.{Json, Fields}
use pz_workflow.Backend.{Error, Result}
use pz_workflow.Model.{
  EventType, Event, Trigger, TriggerUpdate, Alert, Stats, TestElasticsearchBody,
}
use pz_workflow.Server.{Verb}

-- What is sent with a request.
pub data Body : Type 0 where
  no_body : Body
  event_type_body : EventType → Body
  event_body : Event → Body
  trigger_body : Trigger → Body
  update_body : TriggerUpdate → Body
  alert_body : Alert → Body
  test_body : TestElasticsearchBody → Body
  query_body : Fields → Body

pub record Sent : Type 0 where
  pub verb : Verb
  pub endpoint : String
  pub body : Body

-- The response as the client has it: the data is not decoded yet, and of the pagination the
-- client reads the count.
pub record Received : Type 0 where
  pub status_code : ℕ
  pub message : String
  pub content : Json
  pub count : Option ℕ

pub record Http : Type 0 where
  pub answer : Sent → List Sent → Received
  pub error_text : ℕ → String → String
  pub version : Json → Result String
  pub event_type : Json → Result EventType
  pub event_types : Json → Result (List EventType)
  pub event : Json → Result Event
  pub events : Json → Result (List Event)
  pub trigger : Json → Result Trigger
  pub triggers : Json → Result (List Trigger)
  pub update : Json → Result TriggerUpdate
  pub alert : Json → Result Alert
  pub alerts : Json → Result (List Alert)
  pub text : Json → Result String
  pub test : Json → Result TestElasticsearchBody
  pub stats : Json → Result Stats

-- A method's result, and the requests sent by its end.
abbrev pub Call {ℓ} : Type ℓ → Type ℓ
Call A = Http → List Sent → A × List Sent

infixl 10 ◌>>=◌
abbrev pub ◌>>=◌ {ℓ κ} : {A : Type ℓ} {B : Type κ} → Call A → (A → Call B) → Call B
◌>>=◌ m f h past = let (a, past') = m h past in f a h past'

abbrev pub return {ℓ} : {A : Type ℓ} → A → Call A
return a h past = (a, past)

-- `c.h.PzGet`, `PzPost`, `PzPut` and `PzDelete`
unfoldable pub exchange : Verb → String → Body → Call Received
exchange verb endpoint body h past =
    let sent : Sent = record { verb = verb; endpoint = endpoint; body = body } in
    (h.answer sent past, sent ∷ past)

-- `resp.IsError()`
abbrev pub is_error : Received → Bool
is_error resp = ltb resp.status_code 200 || ltb 299 resp.status_code

-- `resp.ToError()`, which is nil for a response that is no error.
abbrev pub to_error : Http → Received → Error
to_error h resp = if is_error resp then some (h.error_text resp.status_code resp.message) else none

-- The two tests that each method begins with: an error response, and a status that is not the wanted
-- one, both of which return `resp.ToError()`.
abbrev pub on_status {ℓ} : {A : Type ℓ} → Bool → Received → A → Call (A × Error) → Call (A × Error)
on_status wanted resp zero_value rest h past =
    if is_error resp
    then ((zero_value, to_error h resp), past)
    else if wanted
    then rest h past
    else ((zero_value, to_error h resp), past)

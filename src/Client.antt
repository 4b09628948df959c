-- ===== src/Client.antt =====
-- workflow/Client.go: the calls of the service over HTTP. Each method builds a path, sends one request
-- and takes the response apart.
pub mod Calls
pub mod Extracted
pub mod Answers
pub mod Methods
pub mod Routes
pub mod Unrouted
pub mod Served
use pz_workflow.Prelude.{ℕ, String, ◌<>◌, Option, none, some, List, [], nat_eq, ◌||◌, if◌then◌else◌}
use pz_workflow.Json.{Json, Fields, null}
use pz_workflow.Texts.{decimal}
use pz_workflow.Backend.{Error, Result, ok, err}
use pz_workflow.Model.{
  Ident, EventType, Event, Trigger, TriggerUpdate, Alert, Stats, TestElasticsearchBody,
}
use pz_workflow.Server.{get, post, put, delete}
use pz_workflow.Client.Calls.{
  Http, Received, Body, no_body, event_type_body, event_body, trigger_body, update_body, alert_body,
  test_body, query_body, Call, return, exchange, on_status, is_error, to_error, ◌>>=◌,
}

-- `json.Unmarshal` of null leaves what `out` points to as it is, without an error: `none`.
abbrev pub into {ℓ} : {A : Type ℓ} → Result A → Json → Result (Option A)
into found null = ok none
into (ok a) v = ok (some a)
into (err e) v = err e

-- For `&out`, null makes the pointer `out` itself nil.
abbrev pub into_pointer {ℓ} : {A : Type ℓ} → Result A → Json → Result (Option (Option A))
into_pointer found null = ok (some none)
into_pointer (ok a) v = ok (some (some a))
into_pointer (err e) v = err e

-- `resp.ExtractData(out)`: `none` leaves the zero value in `out`.
abbrev pub extracted {ℓ} : {A : Type ℓ} → Result (Option A) → Option A × Error
extracted (ok out) = (out, none)
extracted (err e) = (none, some e)

-- `getObject`, for what `json.Unmarshal` leaves in `out`.
unfoldable pub get_into :
    {A : Type 0} → (Http → Json → Result (Option A)) → String → Call (Option A × Error)
get_into extract endpoint = do
  resp ← exchange get endpoint no_body
  on_status (nat_eq resp.status_code 200) resp none
      (λ h past. (extracted (extract h resp.content), past))

module _ {A : Type 0} (extract : Http → Json → Result A) where
  abbrev extract_data : Received → Call (Option A × Error)
  extract_data resp h past = (extracted (into (extract h resp.content) resp.content), past)

  unfoldable pub get_object : String → Call (Option A × Error)
  unfolding get_into
  get_object = get_into (λ h v. into (extract h v) v)

  unfoldable pub post_object : Body → String → Call (Option A × Error)
  post_object obj endpoint = do
    resp ← exchange post endpoint obj
    on_status (nat_eq resp.status_code 201 || nat_eq resp.status_code 200) resp none
        (extract_data resp)

  unfoldable pub put_object : Body → String → Call (Option A × Error)
  put_object obj endpoint = do
    resp ← exchange put endpoint obj
    on_status (nat_eq resp.status_code 200) resp none (extract_data resp)

-- The count comes back from `json.Marshal` and `json.Unmarshal` as it went in.
abbrev counted : Option ℕ → ℕ
counted none = 0
counted (some count) = count

unfoldable pub get_object_count : String → Call (ℕ × Error)
get_object_count endpoint = do
  resp ← exchange get endpoint no_body
  on_status (nat_eq resp.status_code 200) resp 0 (return (counted resp.count, none))

unfoldable pub delete_object : String → Call Error
delete_object endpoint h past =
    let (resp, past') = exchange delete endpoint no_body h past in
    (
      if is_error resp
          then to_error h resp
          else if nat_eq resp.status_code 200
          then none
          else to_error h resp,
      past',
    )

unfoldable pub get_version : Call (Option String × Error)
unfolding get_object
get_version = get_object (λ h. h.version) "/version"

unfoldable pub get_event_type : Ident → Call (Option EventType × Error)
unfolding get_object
get_event_type id = get_object (λ h. h.event_type) ("/eventType/" <> id)

unfoldable pub get_event_type_by_name : String → Call (Option EventType × Error)
unfolding get_object
get_event_type_by_name name = get_object (λ h. h.event_type) ("/eventType?name=" <> name)

unfoldable pub get_num_event_types : Call (ℕ × Error)
unfolding get_object_count
get_num_event_types = get_object_count "/eventType"

unfoldable pub get_all_event_types : ℕ → ℕ → Call (Option (List EventType) × Error)
unfolding get_object
get_all_event_types per_page page =
    get_object (λ h. h.event_types)
      ("/eventType?perPage=" <> decimal per_page <> "&page=" <> decimal page)

unfoldable pub post_event_type : EventType → Call (Option EventType × Error)
unfolding post_object
post_event_type event_type =
    post_object (λ h. h.event_type) (event_type_body event_type) "/eventType"

unfoldable pub query_event_types : Fields → Call (Option (List EventType) × Error)
unfolding post_object
query_event_types query = post_object (λ h. h.event_types) (query_body query) "/eventType/query"

unfoldable pub put_event_type : EventType → Call (Option EventType × Error)
unfolding put_object
put_event_type event_type = put_object (λ h. h.event_type) (event_type_body event_type) "/eventType"

unfoldable pub delete_event_type : Ident → Call Error
unfolding delete_object
delete_event_type id = delete_object ("/eventType/" <> id)

unfoldable pub get_event : Ident → Call (Option Event × Error)
unfolding get_object
get_event id = get_object (λ h. h.event) ("/event/" <> id)

unfoldable pub get_all_events_by_event_type : Ident → Call (Option (List Event) × Error)
unfolding get_object
get_all_events_by_event_type event_type_id =
    get_object (λ h. h.events) ("/event?eventTypeId=" <> event_type_id)

unfoldable pub get_num_events : Call (ℕ × Error)
unfolding get_object_count
get_num_events = get_object_count "/event"

unfoldable pub get_all_events : ℕ → ℕ → Call (Option (List Event) × Error)
unfolding get_object
get_all_events per_page page =
    get_object (λ h. h.events) ("/event?perPage=" <> decimal per_page <> "&page=" <> decimal page)

unfoldable pub post_event : Event → Call (Option Event × Error)
unfolding post_object
post_event event = post_object (λ h. h.event) (event_body event) "/event"

unfoldable pub query_events : Fields → Call (Option (List Event) × Error)
unfolding post_object
query_events query = post_object (λ h. h.events) (query_body query) "/event/query"

unfoldable pub put_event : Event → Call (Option Event × Error)
unfolding put_object
put_event event = put_object (λ h. h.event) (event_body event) "/event"

unfoldable pub delete_event : Ident → Call Error
unfolding delete_object
delete_event id = delete_object ("/event/" <> id)

unfoldable pub get_trigger : Ident → Call (Option Trigger × Error)
unfolding get_object
get_trigger id = get_object (λ h. h.trigger) ("/trigger/" <> id)

unfoldable pub get_num_triggers : Call (ℕ × Error)
unfolding get_object_count
get_num_triggers = get_object_count "/trigger"

-- `&out`, where the call decoded a response: the pointer that it left; else that to the empty list.
abbrev pointer_of {ℓ} : {A : Type ℓ} → Option (Option (List A)) → Option (List A)
pointer_of none = some []
pointer_of (some out) = out

-- Of the client's methods, this one gives `&out` to getObject: its result `none` is the nil pointer.
unfoldable pub get_all_triggers : ℕ → ℕ → Call (Option (List Trigger) × Error)
unfolding get_into
get_all_triggers per_page page = do
  (out, failure) ←
      get_into (λ h v. into_pointer (h.triggers v) v)
        ("/trigger?perPage=" <> decimal per_page <> "&page=" <> decimal page)
  return (pointer_of out, failure)

unfoldable pub post_trigger : Trigger → Call (Option Trigger × Error)
unfolding post_object
post_trigger trigger = post_object (λ h. h.trigger) (trigger_body trigger) "/trigger"

unfoldable pub query_triggers : Fields → Call (Option (List Trigger) × Error)
unfolding post_object
query_triggers query = post_object (λ h. h.triggers) (query_body query) "/trigger/query"

unfoldable pub put_trigger : Ident → TriggerUpdate → Call Error
unfolding put_object
put_trigger id trigger_update = do
  (out, failure) ← put_object (λ h. h.update) (update_body trigger_update) ("/trigger/" <> id)
  return failure

unfoldable pub delete_trigger : Ident → Call Error
unfolding delete_object
delete_trigger id = delete_object ("/trigger/" <> id)

unfoldable pub get_alert : Ident → Call (Option Alert × Error)
unfolding get_object
get_alert id = get_object (λ h. h.alert) ("/alert/" <> id)

unfoldable pub get_alert_by_trigger : Ident → Call (Option (List Alert) × Error)
unfolding get_object
get_alert_by_trigger id = get_object (λ h. h.alerts) ("/alert?triggerId=" <> id)

unfoldable pub get_num_alerts : Call (ℕ × Error)
unfolding get_object_count
get_num_alerts = get_object_count "/alert"

unfoldable pub get_all_alerts : ℕ → ℕ → Call (Option (List Alert) × Error)
unfolding get_object
get_all_alerts per_page page =
    get_object (λ h. h.alerts) ("/alert?perPage=" <> decimal per_page <> "&page=" <> decimal page)

unfoldable pub post_alert : Alert → Call (Option Alert × Error)
unfolding post_object
post_alert alert = post_object (λ h. h.alert) (alert_body alert) "/alert"

unfoldable pub query_alerts : Fields → Call (Option (List Alert) × Error)
unfolding post_object
query_alerts query = post_object (λ h. h.alerts) (query_body query) "/alert/query"

unfoldable pub put_alert : Alert → Call (Option Alert × Error)
unfolding put_object
put_alert alert = put_object (λ h. h.alert) (alert_body alert) "/alert"

unfoldable pub delete_alert : Ident → Call Error
unfolding delete_object
delete_alert id = delete_object ("/alert/" <> id)

unfoldable pub test_elasticsearch_get_version : Call (Option String × Error)
unfolding get_object
test_elasticsearch_get_version = get_object (λ h. h.text) "/_test/elasticsearch/version"

unfoldable pub test_elasticsearch_get_one : Ident → Call (Option TestElasticsearchBody × Error)
unfolding get_object
test_elasticsearch_get_one id = get_object (λ h. h.test) ("/_test/elasticsearch/data/" <> id)

unfoldable pub test_elasticsearch_post :
    TestElasticsearchBody → Call (Option TestElasticsearchBody × Error)
unfolding post_object
test_elasticsearch_post body =
    post_object (λ h. h.test) (test_body body) "/_test/elasticsearch/data"

unfoldable pub get_stats : Call (Option Stats × Error)
unfolding get_object
get_stats = get_object (λ h. h.stats) "/admin/stats"

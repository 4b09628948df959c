-- ===== src/Server.antt =====
-- workflow/Server.go: the routes, and the handlers in front of the service's methods.
pub mod Reading
pub mod Replies
pub mod Touching
pub mod Serving
pub mod Counted
use pz_workflow.Prelude.{
  ℕ, String, Bool, not, Option, none, some, List, [], ◌∷◌, ◌==◌, if◌then◌else◌,
}
use pz_workflow.Model.{
  Ident, EventType, Event, Trigger, TriggerUpdate, Alert, Payload, TestElasticsearchBody, text_data,
  version_data,
}
use pz_workflow.Backend.{Backend, HttpQueryParams, Result, ok, err}
use pz_workflow.Exec.{World, M, pure, compute, origin, done, recovered, ◌>>=◌, attempt}
use pz_workflow.Response.{Reply, JsonResponse, status_ok, status_bad_request}
use pz_workflow.Service.Lookup
use pz_workflow.Service.Stats
use pz_workflow.Service.EventTypes
use pz_workflow.Service.Events
use pz_workflow.Service.Triggers
use pz_workflow.Service.Alerts

pub data Verb : Type 0 where
  get post put delete : Verb

-- A handler of the table, by the name of its method.
pub data Handler : Type 0 where
  get_root get_version get_stats : Handler
  get_all_event_types get_event_type post_event_type event_type_query delete_event_type : Handler
  get_event get_all_events post_event event_query delete_event : Handler
  get_trigger get_all_triggers post_trigger trigger_query put_trigger delete_trigger : Handler
  get_alert get_all_alerts post_alert alert_query delete_alert : Handler
  test_version test_get_one test_post : Handler

pub record Route : Type 0 where
  pub verb : Verb
  pub path : String
  pub handler : Handler

abbrev pub route : Verb → String → Handler → Route
route verb path handler = record { verb = verb; path = path; handler = handler }

-- `server.Routes`
abbrev pub routes : List Route
routes =
    route get "/" get_root
    ∷ route get "/version" get_version
    ∷ route get "/eventType" get_all_event_types
    ∷ route get "/eventType/:id" get_event_type
    ∷ route post "/eventType" post_event_type
    ∷ route post "/eventType/query" event_type_query
    ∷ route delete "/eventType/:id" delete_event_type
    ∷ route get "/event/:id" get_event
    ∷ route get "/event" get_all_events
    ∷ route post "/event" post_event
    ∷ route post "/event/query" event_query
    ∷ route delete "/event/:id" delete_event
    ∷ route get "/trigger/:id" get_trigger
    ∷ route get "/trigger" get_all_triggers
    ∷ route post "/trigger" post_trigger
    ∷ route post "/trigger/query" trigger_query
    ∷ route put "/trigger/:id" put_trigger
    ∷ route delete "/trigger/:id" delete_trigger
    ∷ route get "/alert/:id" get_alert
    ∷ route get "/alert" get_all_alerts
    ∷ route post "/alert" post_alert
    ∷ route post "/alert/query" alert_query
    ∷ route delete "/alert/:id" delete_alert
    ∷ route get "/admin/stats" get_stats
    ∷ route get "/_test/elasticsearch/version" test_version
    ∷ route get "/_test/elasticsearch/data/:id" test_get_one
    ∷ route post "/_test/elasticsearch/data" test_post
    ∷ []

-- What the handlers read of a request: the id of the path, the query, and the body, as text, and as
-- each handler binds it; a body that cannot be bound gives the error's message.
pub record Context : Type 0 where
  pub id : Ident
  pub params : HttpQueryParams
  pub body : Result String
  pub bound_event_type : Result EventType
  pub bound_event : Result Event
  -- over `&Trigger{Enabled: true}`
  pub bound_trigger : Result Trigger
  pub bound_update : Result TriggerUpdate
  pub bound_alert : Result Alert
  pub bound_test : Result TestElasticsearchBody

-- The body that all handlers with a body share: `400` with the message, or the method.
unfoldable pub bind {ℓ} : {A : Type ℓ} → Result A → (A → Reply) → Reply
bind (ok a) method = method a
bind (err e) method = do resp ← status_bad_request (some e); pure (some resp)

unfoldable pub handle_post_event_type : Context → Reply
unfolding bind
handle_post_event_type c = bind c.bound_event_type EventTypes.post_event_type

unfoldable pub handle_event_type_query : Context → Reply
unfolding bind
handle_event_type_query c = bind c.body λ jsn. EventTypes.query_event_types jsn c.params

-- An event with a schedule is a repeating one.
unfoldable pub handle_post_event : Context → Reply
unfolding bind
handle_post_event c = bind c.bound_event λ event.
    if not (event.cron_schedule == "")
    then Events.post_repeating_event event
    else Events.post_event event

unfoldable pub handle_event_query : Context → Reply
unfolding bind
handle_event_query c = bind c.body λ jsn. Events.query_events jsn c.params

unfoldable pub handle_post_trigger : Context → Reply
unfolding bind
handle_post_trigger c = bind c.bound_trigger Triggers.post_trigger

unfoldable pub handle_trigger_query : Context → Reply
unfolding bind
handle_trigger_query c = bind c.body λ jsn. Triggers.query_triggers jsn c.params

unfoldable pub handle_put_trigger : Context → Reply
unfolding bind
handle_put_trigger c = bind c.bound_update λ update. Triggers.put_trigger c.id update

unfoldable pub handle_alert_query : Context → Reply
unfolding bind
handle_alert_query c = bind c.body λ jsn. Alerts.query_alerts jsn c.params

unfoldable pub handle_post_alert : Context → Reply
unfolding bind
handle_post_alert c = bind c.bound_alert Alerts.post_alert

unfoldable pub handle_test_elasticsearch_post : Context → Reply
unfolding bind
handle_test_elasticsearch_post c = bind c.bound_test Stats.test_elasticsearch_post

unfoldable pub plain_reply : Payload → Reply
plain_reply payload = pure (
    some (record {
      status_code = 200;
      type_name = "";
      payload = payload;
      pagination = none;
      message = "";
      origin = "";
    }))

-- The handlers, each of which writes its reply with `piazza.GinReturnJson`.
unfoldable pub handle : Handler → Context → Reply
unfolding plain_reply handle_post_event_type handle_event_type_query handle_post_event
    handle_event_query handle_post_trigger handle_trigger_query handle_put_trigger
    handle_alert_query handle_post_alert handle_test_elasticsearch_post
handle get_root c = plain_reply (text_data "Hi! I'm pz-workflow.")
handle get_version c = plain_reply (version_data "1.0.0")
handle get_stats c = Stats.get_stats
handle get_all_event_types c = EventTypes.get_all_event_types c.params
handle get_event_type c = Lookup.get_event_type c.id
handle post_event_type c = handle_post_event_type c
handle event_type_query c = handle_event_type_query c
handle delete_event_type c = EventTypes.delete_event_type c.id
handle get_event c = Events.get_event c.id
handle get_all_events c = Events.get_all_events c.params
handle post_event c = handle_post_event c
handle event_query c = handle_event_query c
handle delete_event c = Events.delete_event c.id
handle get_trigger c = Triggers.get_trigger c.id
handle get_all_triggers c = Triggers.get_all_triggers c.params
handle post_trigger c = handle_post_trigger c
handle trigger_query c = handle_trigger_query c
handle put_trigger c = handle_put_trigger c
handle delete_trigger c = Triggers.delete_trigger c.id
handle get_alert c = Alerts.get_alert c.id
handle get_all_alerts c = Alerts.get_all_alerts c.params
handle post_alert c = handle_post_alert c
handle alert_query c = handle_alert_query c
handle delete_alert c = Alerts.delete_alert c.id
handle test_version c = Stats.test_elasticsearch_version
handle test_get_one c = Stats.test_elasticsearch_get_one c.id
handle test_post c = handle_test_elasticsearch_post c

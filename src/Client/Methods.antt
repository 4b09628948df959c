-- ===== src/Client/Methods.antt =====
-- The methods of workflow/Client.go as data: what each sends, and the route that it means.
use pz_workflow.Prelude.{ℕ, String, ◌<>◌, List}
use pz_workflow.Json.{Fields}
use pz_workflow.Texts.{decimal}
use pz_workflow.Model.{
  Ident, EventType, Event, Trigger, TriggerUpdate, Alert, TestElasticsearchBody,
}
use pz_workflow.Server.{Handler}
use pz_workflow.Server
use pz_workflow.Client.Calls.{Http, Sent}
use pz_workflow.Client
use pz_workflow.Client.Answers.{requests}

-- The methods of the client that a route of the server answers, with their arguments.
pub data Method : Type 0 where
  get_version get_num_event_types get_num_events get_num_triggers get_num_alerts get_stats
        test_version :
      Method
  get_event_type get_event get_trigger get_alert test_get_one : Ident → Method
  delete_event_type delete_event delete_trigger delete_alert : Ident → Method
  get_event_type_by_name get_all_events_by_event_type get_alert_by_trigger : String → Method
  get_all_event_types get_all_events get_all_triggers get_all_alerts : ℕ → ℕ → Method
  query_event_types query_events query_triggers query_alerts : Fields → Method
  post_event_type : EventType → Method
  post_event : Event → Method
  post_trigger : Trigger → Method
  post_alert : Alert → Method
  test_post : TestElasticsearchBody → Method
  put_trigger : Ident → TriggerUpdate → Method

-- All requests sent when a method ends.
abbrev pub sent : Method → Http → List Sent → List Sent
sent get_version = requests Client.get_version
sent get_num_event_types = requests Client.get_num_event_types
sent get_num_events = requests Client.get_num_events
sent get_num_triggers = requests Client.get_num_triggers
sent get_num_alerts = requests Client.get_num_alerts
sent get_stats = requests Client.get_stats
sent test_version = requests Client.test_elasticsearch_get_version
sent (get_event_type id) = requests (Client.get_event_type id)
sent (get_event id) = requests (Client.get_event id)
sent (get_trigger id) = requests (Client.get_trigger id)
sent (get_alert id) = requests (Client.get_alert id)
sent (test_get_one id) = requests (Client.test_elasticsearch_get_one id)
sent (delete_event_type id) = requests (Client.delete_event_type id)
sent (delete_event id) = requests (Client.delete_event id)
sent (delete_trigger id) = requests (Client.delete_trigger id)
sent (delete_alert id) = requests (Client.delete_alert id)
sent (get_event_type_by_name name) = requests (Client.get_event_type_by_name name)
sent (get_all_events_by_event_type id) = requests (Client.get_all_events_by_event_type id)
sent (get_alert_by_trigger id) = requests (Client.get_alert_by_trigger id)
sent (get_all_event_types per_page page) = requests (Client.get_all_event_types per_page page)
sent (get_all_events per_page page) = requests (Client.get_all_events per_page page)
sent (get_all_triggers per_page page) = requests (Client.get_all_triggers per_page page)
sent (get_all_alerts per_page page) = requests (Client.get_all_alerts per_page page)
sent (query_event_types query) = requests (Client.query_event_types query)
sent (query_events query) = requests (Client.query_events query)
sent (query_triggers query) = requests (Client.query_triggers query)
sent (query_alerts query) = requests (Client.query_alerts query)
sent (post_event_type event_type) = requests (Client.post_event_type event_type)
sent (post_event event) = requests (Client.post_event event)
sent (post_trigger trigger) = requests (Client.post_trigger trigger)
sent (post_alert alert) = requests (Client.post_alert alert)
sent (test_post body) = requests (Client.test_elasticsearch_post body)
sent (put_trigger id update) = requests (Client.put_trigger id update)

-- The handler that the method means, and the id in its path.
abbrev pub handler_of : Method → Handler
handler_of get_version = Server.get_version
handler_of get_num_event_types = Server.get_all_event_types
handler_of get_num_events = Server.get_all_events
handler_of get_num_triggers = Server.get_all_triggers
handler_of get_num_alerts = Server.get_all_alerts
handler_of get_stats = Server.get_stats
handler_of test_version = Server.test_version
handler_of (get_event_type id) = Server.get_event_type
handler_of (get_event id) = Server.get_event
handler_of (get_trigger id) = Server.get_trigger
handler_of (get_alert id) = Server.get_alert
handler_of (test_get_one id) = Server.test_get_one
handler_of (delete_event_type id) = Server.delete_event_type
handler_of (delete_event id) = Server.delete_event
handler_of (delete_trigger id) = Server.delete_trigger
handler_of (delete_alert id) = Server.delete_alert
handler_of (get_event_type_by_name name) = Server.get_all_event_types
handler_of (get_all_events_by_event_type id) = Server.get_all_events
handler_of (get_alert_by_trigger id) = Server.get_all_alerts
handler_of (get_all_event_types per_page page) = Server.get_all_event_types
handler_of (get_all_events per_page page) = Server.get_all_events
handler_of (get_all_triggers per_page page) = Server.get_all_triggers
handler_of (get_all_alerts per_page page) = Server.get_all_alerts
handler_of (query_event_types query) = Server.event_type_query
handler_of (query_events query) = Server.event_query
handler_of (query_triggers query) = Server.trigger_query
handler_of (query_alerts query) = Server.alert_query
handler_of (post_event_type event_type) = Server.post_event_type
handler_of (post_event event) = Server.post_event
handler_of (post_trigger trigger) = Server.post_trigger
handler_of (post_alert alert) = Server.post_alert
handler_of (test_post body) = Server.test_post
handler_of (put_trigger id update) = Server.put_trigger

abbrev pub id_of : Method → Ident
id_of (get_event_type id) = id
id_of (get_event id) = id
id_of (get_trigger id) = id
id_of (get_alert id) = id
id_of (test_get_one id) = id
id_of (delete_event_type id) = id
id_of (delete_event id) = id
id_of (delete_trigger id) = id
id_of (delete_alert id) = id
id_of (put_trigger id update) = id
id_of method = ""

-- The query that is put behind the path.
abbrev pub query_of : Method → String
query_of (get_event_type_by_name name) = "?name=" <> name
query_of (get_all_events_by_event_type id) = "?eventTypeId=" <> id
query_of (get_alert_by_trigger id) = "?triggerId=" <> id
query_of (get_all_event_types per_page page) =
    "?perPage=" <> decimal per_page <> "&page=" <> decimal page
query_of (get_all_events per_page page) =
    "?perPage=" <> decimal per_page <> "&page=" <> decimal page
query_of (get_all_triggers per_page page) =
    "?perPage=" <> decimal per_page <> "&page=" <> decimal page
query_of (get_all_alerts per_page page) =
    "?perPage=" <> decimal per_page <> "&page=" <> decimal page
query_of method = ""

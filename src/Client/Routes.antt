-- ===== src/Client/Routes.antt =====
-- The methods of workflow/Client.go against the route table of workflow/Server.go.
use Prim.Native.Char.{Char}
use text.Mathlib.TextLemmas.{cons-append, append-nil, nil-append, append_assoc}
use pz_workflow.Prelude.{
  ℕ, String, ◌<>◌, ◌≡◌, refl, ap, sym, ◌∙◌, false, none, some, List, ◌∷◌, get_elem?, arith, subst,
}
use pz_workflow.Texts.{decimal, char_eq, replace_first, strip_prefix}
use pz_workflow.Model.{Ident}
use pz_workflow.Server.{Handler, Route, routes}
use pz_workflow.Db.Conditions.Paths.Laws.{has_char, or-left, or-right}
use pz_workflow.Client.Calls.{
  Http, Sent, Body, no_body, event_type_body, event_body, trigger_body, update_body, alert_body,
  test_body, query_body,
}
use pz_workflow.Client
use pz_workflow.Client.Methods.{
  Method, sent, handler_of, id_of, query_of, get_version, get_num_event_types, get_num_events,
  get_num_triggers, get_num_alerts, get_stats, test_version, get_event_type, get_event, get_trigger,
  get_alert, test_get_one, delete_event_type, delete_event, delete_trigger, delete_alert,
  get_event_type_by_name, get_all_events_by_event_type, get_alert_by_trigger, get_all_event_types,
  get_all_events, get_all_triggers, get_all_alerts, query_event_types, query_events, query_triggers,
  query_alerts, post_event_type, post_event, post_trigger, post_alert, test_post, put_trigger,
}
use pz_workflow.Client.Answers.{
  request, get_object-requests, post_object-requests, put_object-requests,
  get_object_count-requests, get_all_triggers-requests, delete_object-requests,
}

strip_prefix-no_colon :
    (c : Char) (s : String) → char_eq c ":" ≡ false → strip_prefix ":id" (String.◌∷◌ c s) ≡ none
unfolding strip_prefix
strip_prefix-no_colon c s h = ground arith

replace_first-end :
    (id p : String) → has_char ":" p ≡ false → replace_first ":id" id (p <> ":id") ≡ p <> id
unfolding replace_first strip_prefix
replace_first-end id String.[] h = rw (append-nil id, nil-append id) refl
replace_first-end id (String.◌∷◌ c p) h =
    rw
      (
        cons-append c p ":id",
        cons-append c p id,
        replace_first,
        strip_prefix-no_colon c (p <> ":id") (or-left (char_eq c ":") (has_char ":" p) h),
        replace_first-end id p (or-right (char_eq c ":") (has_char ":" p) h),
      )
      refl

-- One request was sent: by the verb and the path of a route that leads to `handler`, with the id in its place.
abbrev pub Routed : Handler → Ident → String → List Sent → List Sent → Type 0
Routed handler id query past sent =
    (i : ℕ) × (r : Route) × (body : Body) × (get_elem? i routes ≡ some r)
    × (r.handler ≡ handler)
    × (sent ≡ request r.verb (replace_first ":id" id r.path <> query) body ∷ past)

id_endpoint :
    (id p : String) → has_char ":" p ≡ false → p <> id ≡ replace_first ":id" id (p <> ":id") <> ""
id_endpoint id p h = rw (replace_first-end id p h, append-nil (p <> id)) refl

id-Routed :
    (i : ℕ) (r : Route) (id prefix : String) (body : Body) (past sent : List Sent)
    → get_elem? i routes ≡ some r
    → has_char ":" prefix ≡ false
    → r.path ≡ prefix <> ":id"
    → sent ≡ request r.verb (prefix <> id) body ∷ past
    → Routed r.handler id "" past sent
id-Routed i r id prefix body past sent e h path s =
    let same : prefix <> id ≡ replace_first ":id" id r.path <> "" =
      id_endpoint id prefix h ∙ ap (λ p. replace_first ":id" id p <> "") (sym path) in
    (i, r, body, e, refl, subst (λ p. sent ≡ request r.verb p body ∷ past) same s)

query-Routed :
    (i : ℕ) (r : Route) (key value : String) (past sent : List Sent)
    → get_elem? i routes ≡ some r
    → replace_first ":id" "" r.path ≡ r.path
    → sent ≡ request r.verb ((r.path <> key) <> value) no_body ∷ past
    → Routed r.handler "" (key <> value) past sent
query-Routed i r key value past sent e path s =
    let same : (r.path <> key) <> value ≡ replace_first ":id" "" r.path <> (key <> value) =
      append_assoc r.path key value ∙ ap (λ p. p <> (key <> value)) (sym path) in
    (i, r, no_body, e, refl, subst (λ p. sent ≡ request r.verb p no_body ∷ past) same s)

abbrev paging : ℕ → ℕ → String
paging per_page n = decimal per_page <> "&page=" <> decimal n

-- Each method of the client but PutEventType, PutEvent and PutAlert sends exactly one request, whatever the
-- answer: by the verb and the path of the route whose handler it means, with its id in the path and its
-- arguments in the query.
pub sent-Routed :
    (method : Method) (h : Http) (past : List Sent)
    → Routed (handler_of method) (id_of method) (query_of method) past (sent method h past)
unfolding Client.get_version Client.get_num_event_types Client.get_num_events
    Client.get_num_triggers Client.get_num_alerts Client.get_stats
    Client.test_elasticsearch_get_version Client.get_event_type Client.delete_event_type
    Client.get_all_event_types Client.query_event_types Client.post_event_type Client.get_event
    Client.delete_event Client.get_all_events Client.query_events Client.post_event
    Client.get_trigger Client.delete_trigger Client.query_triggers Client.post_trigger
    Client.get_alert Client.delete_alert Client.get_all_alerts Client.query_alerts Client.post_alert
    Client.get_event_type_by_name Client.get_all_events_by_event_type Client.get_alert_by_trigger
    Client.test_elasticsearch_get_one Client.test_elasticsearch_post Client.put_trigger
    replace_first
sent-Routed get_version h past =
    (1, _, no_body, refl, refl, get_object-requests (λ h. h.version) "/version" h past)
sent-Routed get_num_event_types h past =
    (2, _, no_body, refl, refl, get_object_count-requests "/eventType" h past)
sent-Routed get_num_events h past =
    (8, _, no_body, refl, refl, get_object_count-requests "/event" h past)
sent-Routed get_num_triggers h past =
    (13, _, no_body, refl, refl, get_object_count-requests "/trigger" h past)
sent-Routed get_num_alerts h past =
    (19, _, no_body, refl, refl, get_object_count-requests "/alert" h past)
sent-Routed get_stats h past =
    (23, _, no_body, refl, refl, get_object-requests (λ h. h.stats) "/admin/stats" h past)
sent-Routed test_version h past = (
  24,
  _,
  no_body,
  refl,
  refl,
  get_object-requests (λ h. h.text) "/_test/elasticsearch/version" h past,
)
sent-Routed (get_event_type id) h past =
    id-Routed 3 _ id "/eventType/" no_body past _ refl refl refl
      (get_object-requests (λ h. h.event_type) _ h past)
sent-Routed (delete_event_type id) h past =
    id-Routed 6 _ id "/eventType/" no_body past _ refl refl refl (delete_object-requests _ h past)
sent-Routed (get_all_event_types per_page n) h past =
    query-Routed 2 _ "?perPage=" (paging per_page n) past _ refl refl
      (get_object-requests (λ h. h.event_types) _ h past)
sent-Routed (query_event_types query) h past =
    (5, _, _, refl, refl, post_object-requests (λ h. h.event_types) _ h past (query_body query))
sent-Routed (post_event_type event_type) h past = (
  4,
  _,
  _,
  refl,
  refl,
  post_object-requests (λ h. h.event_type) _ h past (event_type_body event_type),
)
sent-Routed (get_event id) h past =
    id-Routed 7 _ id "/event/" no_body past _ refl refl refl
      (get_object-requests (λ h. h.event) _ h past)
sent-Routed (delete_event id) h past =
    id-Routed 11 _ id "/event/" no_body past _ refl refl refl (delete_object-requests _ h past)
sent-Routed (get_all_events per_page n) h past =
    query-Routed 8 _ "?perPage=" (paging per_page n) past _ refl refl
      (get_object-requests (λ h. h.events) _ h past)
sent-Routed (query_events query) h past =
    (10, _, _, refl, refl, post_object-requests (λ h. h.events) _ h past (query_body query))
sent-Routed (post_event event) h past =
    (9, _, _, refl, refl, post_object-requests (λ h. h.event) _ h past (event_body event))
sent-Routed (get_trigger id) h past =
    id-Routed 12 _ id "/trigger/" no_body past _ refl refl refl
      (get_object-requests (λ h. h.trigger) _ h past)
sent-Routed (delete_trigger id) h past =
    id-Routed 17 _ id "/trigger/" no_body past _ refl refl refl (delete_object-requests _ h past)
sent-Routed (get_all_triggers per_page n) h past =
    query-Routed 13 _ "?perPage=" (paging per_page n) past _ refl refl
      (get_all_triggers-requests per_page n h past)
sent-Routed (query_triggers query) h past =
    (15, _, _, refl, refl, post_object-requests (λ h. h.triggers) _ h past (query_body query))
sent-Routed (post_trigger trigger) h past =
    (14, _, _, refl, refl, post_object-requests (λ h. h.trigger) _ h past (trigger_body trigger))
sent-Routed (get_alert id) h past =
    id-Routed 18 _ id "/alert/" no_body past _ refl refl refl
      (get_object-requests (λ h. h.alert) _ h past)
sent-Routed (delete_alert id) h past =
    id-Routed 22 _ id "/alert/" no_body past _ refl refl refl (delete_object-requests _ h past)
sent-Routed (get_all_alerts per_page n) h past =
    query-Routed 19 _ "?perPage=" (paging per_page n) past _ refl refl
      (get_object-requests (λ h. h.alerts) _ h past)
sent-Routed (query_alerts query) h past =
    (21, _, _, refl, refl, post_object-requests (λ h. h.alerts) _ h past (query_body query))
sent-Routed (post_alert alert) h past =
    (20, _, _, refl, refl, post_object-requests (λ h. h.alert) _ h past (alert_body alert))
sent-Routed (get_event_type_by_name name) h past =
    query-Routed 2 _ "?name=" name past _ refl refl
      (get_object-requests (λ h. h.event_type) _ h past)
sent-Routed (get_all_events_by_event_type id) h past =
    query-Routed 8 _ "?eventTypeId=" id past _ refl refl
      (get_object-requests (λ h. h.events) _ h past)
sent-Routed (get_alert_by_trigger id) h past =
    query-Routed 19 _ "?triggerId=" id past _ refl refl
      (get_object-requests (λ h. h.alerts) _ h past)
sent-Routed (test_get_one id) h past =
    id-Routed 25 _ id "/_test/elasticsearch/data/" no_body past _ refl refl refl
      (get_object-requests (λ h. h.test) _ h past)
sent-Routed (test_post body) h past =
    (26, _, _, refl, refl, post_object-requests (λ h. h.test) _ h past (test_body body))
sent-Routed (put_trigger id update) h past =
    id-Routed 16 _ id "/trigger/" (update_body update) past _ refl refl refl
      (put_object-requests (λ h. h.update) _ h past (update_body update))

-- ===== src/Server/Reading.antt =====
-- The handlers behind GET and behind the paths that end in /query.
use pz_workflow.Prelude.{
  ℕ, ◌≡◌, refl, Bool, true, false, not, ◌||◌, some, all, get_elem?, get_elem?-all, arith,
}
use pz_workflow.Texts.{has_suffix}
use pz_workflow.Model.{Payload}
use pz_workflow.Exec.{World, final}
use pz_workflow.Exec.Keeps.{kept, Reads, Keeps-pure, Keeps-bind}
use pz_workflow.Backend.{Result, ok, err}
use pz_workflow.Response.{Reply}
use pz_workflow.Service.Reading.{status_bad_request-Reads, get_event_type-Reads}
use pz_workflow.Service.Listing
use pz_workflow.Server.{
  Handler, Verb, Route, Context, routes, bind, handle, plain_reply, handle_event_type_query,
  handle_event_query, handle_trigger_query, handle_alert_query, get_root, get_version, get_stats,
  get_all_event_types, get_event_type, event_type_query, get_event, get_all_events, event_query,
  get_trigger, get_all_triggers, trigger_query, get_alert, get_all_alerts, alert_query,
  test_version, test_get_one, get,
}

abbrev is_get : Verb → Bool
is_get get = true
is_get _ = false

-- The routes that promise only to read: GET, and the queries, which are sent by POST.
abbrev pub is_reading : Route → Bool
unfolding has_suffix
is_reading r = is_get r.verb || has_suffix r.path "/query"

abbrev pub reads : Handler → Bool
reads get_root = true
reads get_version = true
reads get_stats = true
reads get_all_event_types = true
reads get_event_type = true
reads event_type_query = true
reads get_event = true
reads get_all_events = true
reads event_query = true
reads get_trigger = true
reads get_all_triggers = true
reads trigger_query = true
reads get_alert = true
reads get_all_alerts = true
reads alert_query = true
reads test_version = true
reads test_get_one = true
reads _ = false

abbrev agrees : Route → Bool
agrees r = not (is_reading r) || reads r.handler

routes-agree : all agrees routes ≡ true
unfolding has_suffix
routes-agree = refl

bind-Reads {ℓ} :
    {A : Type ℓ} (r : Result A) (method : A → Reply)
    → ((a : A) → Reads (method a))
    → Reads (bind r method)
unfolding bind
bind-Reads (ok a) method h = h a
bind-Reads (err e) method h = Keeps-bind _ _ (status_bad_request-Reads _) λ resp. Keeps-pure _

plain_reply-Reads : (s : Payload) → Reads (plain_reply s)
unfolding plain_reply
plain_reply-Reads s = Keeps-pure _

pub handle-Reads : (h : Handler) (c : Context) → reads h ≡ true → Reads (handle h c)
unfolding handle handle_event_type_query handle_event_query handle_trigger_query handle_alert_query
handle-Reads get_root c e = plain_reply-Reads _
handle-Reads get_version c e = plain_reply-Reads _
handle-Reads get_stats c e = Listing.get_stats-Reads
handle-Reads get_all_event_types c e = Listing.get_all_event_types-Reads _
handle-Reads get_event_type c e = get_event_type-Reads _
handle-Reads event_type_query c e = bind-Reads _ _ λ q. Listing.query_event_types-Reads _ _
handle-Reads get_event c e = Listing.get_event-Reads _
handle-Reads get_all_events c e = Listing.get_all_events-Reads _
handle-Reads event_query c e = bind-Reads _ _ λ q. Listing.query_events-Reads _ _
handle-Reads get_trigger c e = Listing.get_trigger-Reads _
handle-Reads get_all_triggers c e = Listing.get_all_triggers-Reads _
handle-Reads trigger_query c e = bind-Reads _ _ λ q. Listing.query_triggers-Reads _ _
handle-Reads get_alert c e = Listing.get_alert-Reads _
handle-Reads get_all_alerts c e = Listing.get_all_alerts-Reads _
handle-Reads alert_query c e = bind-Reads _ _ λ q. Listing.query_alerts-Reads _ _
handle-Reads test_version c e = Listing.test_elasticsearch_version-Reads
handle-Reads test_get_one c e = Listing.test_elasticsearch_get_one-Reads _
handle-Reads _ c e = absurd (ground arith)

implied : (a b : Bool) → not a || b ≡ true → a ≡ true → b ≡ true
implied a b h e = ground arith

-- Whatever route of the table is a GET, or has a path that ends in /query, its handler changes nothing,
-- whatever the request holds, and whether it returns or panics: the requests made after it, the
-- statistics, the origin and the loop's variable of InitCron are those of before.
pub reading_routes_change_nothing :
    (i : ℕ) (r : Route) (c : Context) (w : World)
    → get_elem? i routes ≡ some r
    → is_reading r ≡ true
    → kept (final (handle r.handler c w)) ≡ kept w
reading_routes_change_nothing i r c w at_i reading =
    (handle-Reads r.handler c
        (implied _ _ (get_elem?-all agrees i routes r routes-agree at_i) reading)).at
      w

-- ===== src/Server/Replies.antt =====
-- The shape of the replies of the handlers of workflow/Server.go.
use pz_workflow.Prelude.{ℕ, refl, subst, some, not, ◌==◌, inl, inr}
use pz_workflow.Backend.{Result, ok, err}
use pz_workflow.Exec.{World}
use pz_workflow.Exec.Wrote.{Runs}
use pz_workflow.Exec.Returns.{Returns-then, Returns-pure, Returns-if, Some, Holds}
use pz_workflow.Response.{Reply, JsonResponse}
use pz_workflow.Response.WellFormed.{IsWellFormed, text, bad_request-IsWellFormed}
use pz_workflow.Service.Replies as service
use pz_workflow.Service.Replies.{Shaped}
use pz_workflow.Service.Replies.Firing.{post_event-Shaped}
use pz_workflow.Server.{
  Handler, Context, bind, handle, plain_reply, handle_post_event_type, handle_event_type_query,
  handle_post_event, handle_event_query, handle_post_trigger, handle_trigger_query,
  handle_put_trigger, handle_alert_query, handle_post_alert, handle_test_elasticsearch_post,
  get_root, get_version, get_stats, get_all_event_types, get_event_type, post_event_type,
  event_type_query, delete_event_type, get_event, get_all_events, post_event, event_query,
  delete_event, get_trigger, get_all_triggers, post_trigger, trigger_query, put_trigger,
  delete_trigger, get_alert, get_all_alerts, post_alert, alert_query, delete_alert, test_version,
  test_get_one, test_post,
}

-- The handlers that create a document answer 201 for it; for a success, all others answer 200 only.
abbrev pub success : Handler → ℕ
success post_event_type = 201
success post_event = 201
success post_trigger = 201
success post_alert = 201
success test_post = 201
success h = 200

bind-Shaped {ℓ} :
    {A : Type ℓ} (n : ℕ) (r : Result A) (method : A → Reply)
    → ((a : A) → Shaped n (method a))
    → Shaped n (bind r method)
unfolding bind
bind-Shaped n (ok a) method h = h a
bind-Shaped n (err e) method h =
    Returns-then _ _ (bad_request-IsWellFormed n _) λ resp k. Returns-pure _ k

handle-Shaped : (h : Handler) (c : Context) → Shaped (success h) (handle h c)
unfolding handle plain_reply handle_post_event_type handle_event_type_query handle_post_event
    handle_event_query handle_post_trigger handle_trigger_query handle_put_trigger
    handle_alert_query handle_post_alert handle_test_elasticsearch_post
handle-Shaped get_root c = Returns-pure _ (text _ refl (inl refl) refl)
handle-Shaped get_version c = Returns-pure _ (text _ refl (inr refl) refl)
handle-Shaped get_stats c = service.get_stats-Shaped
handle-Shaped get_all_event_types c = service.get_all_event_types-Shaped _
handle-Shaped get_event_type c = service.get_event_type-Shaped _
handle-Shaped post_event_type c = bind-Shaped _ _ _ service.post_event_type-Shaped
handle-Shaped event_type_query c = bind-Shaped _ _ _ λ jsn. service.query_event_types-Shaped jsn _
handle-Shaped delete_event_type c = service.delete_event_type-Shaped _
handle-Shaped get_event c = service.get_event-Shaped _
handle-Shaped get_all_events c = service.get_all_events-Shaped _
handle-Shaped post_event c = bind-Shaped _ c.bound_event _ λ event.
    Returns-if (not (event.cron_schedule == "")) _ _ (service.post_repeating_event-Shaped event)
      (post_event-Shaped event)
handle-Shaped event_query c = bind-Shaped _ _ _ λ jsn. service.query_events-Shaped jsn _
handle-Shaped delete_event c = service.delete_event-Shaped _
handle-Shaped get_trigger c = service.get_trigger-Shaped _
handle-Shaped get_all_triggers c = service.get_all_triggers-Shaped _
handle-Shaped post_trigger c = bind-Shaped _ _ _ service.post_trigger-Shaped
handle-Shaped trigger_query c = bind-Shaped _ _ _ λ jsn. service.query_triggers-Shaped jsn _
handle-Shaped put_trigger c = bind-Shaped _ _ _ (service.put_trigger-Shaped _)
handle-Shaped delete_trigger c = service.delete_trigger-Shaped _
handle-Shaped get_alert c = service.get_alert-Shaped _
handle-Shaped get_all_alerts c = service.get_all_alerts-Shaped _
handle-Shaped post_alert c = bind-Shaped _ _ _ service.post_alert-Shaped
handle-Shaped alert_query c = bind-Shaped _ _ _ λ jsn. service.query_alerts-Shaped jsn _
handle-Shaped delete_alert c = service.delete_alert-Shaped _
handle-Shaped test_version c = service.test_version-Shaped
handle-Shaped test_get_one c = service.test_get_one-Shaped _
handle-Shaped test_post c = bind-Shaped _ _ _ service.test_post-Shaped

-- Whatever handler takes a request, in whatever world: the response, where there is one, is a success
-- with a document or a listing whose type the package has registered; a success without data; a success with a text; or an error of status 400, 403, 404 or
-- 500 without data. The status of a success is 200, or 201 with a document from a handler that creates one.
pub handle-IsWellFormed :
    (h : Handler) (c : Context) (w v : World) (resp : JsonResponse)
    → Runs (handle h c) w (some resp) v
    → IsWellFormed (success h) resp
handle-IsWellFormed h c w v resp r =
    subst (Holds (Some (IsWellFormed (success h)))) r ((handle-Shaped h c).at w)

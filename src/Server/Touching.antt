-- ===== src/Server/Touching.antt =====
-- Which counters the handlers of workflow/Server.go change.
use pz_workflow.Prelude.{refl, not, ◌==◌}
use pz_workflow.Backend.{Result, ok, err}
use pz_workflow.Exec.Keeps.{Keeps-pure, Keeps-bind}
use pz_workflow.Exec.Steady.{
  Touched, untouched, event_types, triggers, firing, posting, Touches, Touches-of_Reads,
  posting-events,
}
use pz_workflow.Response.{Reply}
use pz_workflow.Service.Reading.{status_bad_request-Reads}
use pz_workflow.Service.Touching as service
use pz_workflow.Server.Reading.{handle-Reads}
use pz_workflow.Server.{
  Handler, Context, handle, bind, handle_post_event_type, handle_post_event, handle_post_trigger,
  handle_put_trigger, handle_post_alert, handle_test_elasticsearch_post, post_event_type,
  delete_event_type, post_event, delete_event, post_trigger, put_trigger, delete_trigger,
  post_alert, delete_alert, test_post,
}

abbrev pub touched : Handler → Touched
touched post_event_type = event_types
touched post_event = posting
touched post_trigger = triggers
touched post_alert = firing
touched h = untouched

bind-Touches {ℓ} :
    {A : Type ℓ} (k : Touched) (r : Result A) (method : A → Reply)
    → ((a : A) → Touches k (method a))
    → Touches k (bind r method)
unfolding bind
bind-Touches k (ok a) method h = h a
bind-Touches k (err e) method h =
    Keeps-bind _ _ (Touches-of_Reads _ _ (status_bad_request-Reads _)) λ resp. Keeps-pure _

pub handle-Touches : (h : Handler) (c : Context) → Touches (touched h) (handle h c)
unfolding handle handle_post_event_type handle_post_event handle_post_trigger handle_put_trigger
    handle_post_alert handle_test_elasticsearch_post
handle-Touches post_event_type c = bind-Touches _ _ _ service.post_event_type-Touches
handle-Touches delete_event_type c = service.delete_event_type-Touches _
handle-Touches post_event c = bind-Touches _ c.bound_event _ λ event.
    service.Touches-if _ (not (event.cron_schedule == "")) _ _
      (posting-events _ (service.post_repeating_event-Touches event))
      (service.post_event-Touches event)
handle-Touches delete_event c = service.delete_event-Touches _
handle-Touches post_trigger c = bind-Touches _ _ _ service.post_trigger-Touches
handle-Touches put_trigger c = bind-Touches _ _ _ (service.put_trigger-Touches _)
handle-Touches delete_trigger c = service.delete_trigger-Touches _
handle-Touches post_alert c = bind-Touches _ _ _ service.post_alert-Touches
handle-Touches delete_alert c = service.delete_alert-Touches _
handle-Touches test_post c = bind-Touches _ _ _ service.test_post-Touches
handle-Touches h c = Touches-of_Reads _ _ (handle-Reads h c refl)

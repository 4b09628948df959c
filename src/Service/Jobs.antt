-- ===== src/Service/Jobs.antt =====
-- `Service.sendToRabbitMQ`, and the goroutine of `Service.PostEvent` for one trigger.
pub mod Sending
use Prim.Native.String.{count as char_count}
use pz_workflow.Prelude.{suc, String, ◌<>◌, not, Option, none, some, ◌==◌, if◌then◌else◌}
use pz_workflow.Json.{Fields, end, field, find}
use pz_workflow.Model.{Ident, Trigger, Event, EventType, incr_trigger_jobs}
use pz_workflow.Backend.{Backend, Error, declare_queue, publish}
use pz_workflow.Exec.{
  M, pure, deref, ask, send, compute, count, in_goroutine, ◌>>=◌, ◌>>◌, on_error, return_if,
  attempt, on_nil,
}
use pz_workflow.Response.{
  JsonResponse, status_bad_request, status_forbidden, status_internal_error, is_error,
}
use pz_workflow.Texts.{replace_all}
use pz_workflow.Unique.{as_map}
use pz_workflow.Db.Triggers
use pz_workflow.Service.Alerts.{post_alert}

unfoldable pub send_to_rabbit_mq : String → M Error
send_to_rabbit_mq message = do
  address ← ask (λ b. b.queue_address)
  attempt address (λ e. pure (some ("rabbit-related failure (1): " <> e)))
      λ rabbit_address. do
        dial_failure ← ask (λ b. b.dial rabbit_address)
        on_error dial_failure (λ e. pure (some ("rabbit-related failure (2): " <> e)))
            do
              channel_failure ← ask (λ b. b.channel)
              on_error channel_failure (λ e. pure (some ("rabbit-related failure (3): " <> e)))
                  do
                    space ← compute (λ b. b.space)
                    let topic = "Request-Job-" <> space
                    queue ← send (declare_queue topic) (λ b. b.queue_declared topic)
                    attempt queue (λ e. pure (some ("rabbit-related failure (4): " <> e)))
                        λ routing_key. do
                          publish_failure ←
                              send (publish routing_key message)
                                (λ b. b.published routing_key message)
                          on_error publish_failure
                              (λ e. pure (some ("rabbit-related failure (5): " <> e))) (pure none)

-- `strings.Replace(jobString, "$"+key, value, -1)` for one entry after the other.
unfoldable pub fill_in : Backend → Fields → String → String
unfolding replace_all
fill_in b end job = job
fill_in b (field k v m) job =
    fill_in b m (replace_all (suc (char_count job)) ("$" <> k) (b.sprint v) job)

-- The right to create the job; it is not asked for where there is no pz-idam (in a mock).
unfoldable pub check_access : EventType → M (Option JsonResponse)
check_access event_type = do
  idam_url ← ask (λ b. b.idam_url)
  attempt idam_url (λ e. pure none)
      λ url. do
        access ← ask (λ b. b.request_access url event_type.created_by)
        attempt access (λ e. do resp ← status_internal_error (some e); pure (some resp))
            λ auth.
              return_if auth (pure none)
                do resp ← status_forbidden (some "Access to create job denied"); pure (some resp)

-- The map of the event's own data, `event.Data[eventType.Name].(map[string]interface{})`.
unfoldable pub own_data : Event → EventType → M Fields
unfolding find as_map
own_data event event_type = do value ← deref (find event_type.name event.payload); as_map value

-- From the access on: the job is sent, counted, and noted in an alert.
unfoldable pub submit :
    Event → EventType → Trigger → Ident → Ident → String → M (Option JsonResponse)
unfolding send_to_rabbit_mq fill_in own_data
submit event event_type trigger trigger_id job_id job = do
  values ← own_data event event_type
  message ← compute (λ b. fill_in b values job)
  unsent ← send_to_rabbit_mq message
  on_error unsent (λ e. do resp ← status_internal_error (some e); pure (some resp))
      do
        count incr_trigger_jobs
        reply ← post_alert (record {
          alert_id = "";
          trigger_id = trigger_id;
          event_id = event.event_id;
          job_id = job_id;
          created_by = trigger.created_by;
          created_on = "";
        })
        resp ← deref reply
        pure (if is_error resp then some resp else none)

-- What the goroutine leaves under the trigger's id in `results`.
unfoldable pub fire : Event → EventType → Ident → M (Option JsonResponse)
unfolding check_access submit
fire event event_type trigger_id = in_goroutine do
  (found_trigger, found, failure) ← Triggers.get_one trigger_id
  on_error failure (λ e. do resp ← status_bad_request (some e); pure (some resp))
      do
        return_if (not found) (pure none) do
          trigger ← deref found_trigger
          return_if (not trigger.enabled) (pure none) do
            return_if (not (event_type.event_type_id == trigger.event_type_id)) (pure none) do
              job_id ← ask (λ b. b.new_ident)
              job ← compute (λ b. b.marshal_job trigger.job)
              attempt job (λ e. do resp ← status_internal_error (some e); pure (some resp))
                  λ job_string. do
                    denied ← check_access event_type
                    on_nil denied (submit event event_type trigger trigger_id job_id job_string)
                        λ resp. pure (some resp)

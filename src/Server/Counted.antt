-- ===== src/Server/Counted.antt =====
-- The counters of the statistics against the requests that the service has handled.
use pz_workflow.Prelude.{
  ℕ, ◌+◌, ◌%◌, ◌^◌, ◌≤◌, ◌<◌, ◌≡◌, refl, inl, inr, not, Bool, true, false, if◌then◌else◌, Option,
  none, some, ◌==◌, nat_eq, ap, ◌∙◌, arith,
}
use pz_workflow.Model.{incr_counter}
use pz_workflow.Backend.{CronEvent, Result, ok, err}
use pz_workflow.Exec.{World, Outcome, done, panic, crash, final}
use pz_workflow.Exec.Returns.{Returns-then, Returns-pure, Holds, Some}
use pz_workflow.Exec.Keeps.{Keeps-pure, Keeps-bind}
use pz_workflow.Exec.Steady.{Touches-of_Reads}
use pz_workflow.Exec.Ticks.{
  Counter, event_type_count, event_count, trigger_count, counter, Tick, Ticks, Ticks-never,
  Ticks-if, Spares, Spares-untouched, Spares-event_types, Spares-triggers, Spares-posting,
  Spares-firing,
}
use pz_workflow.Response.{Reply, JsonResponse}
use pz_workflow.Response.WellFormed.{IsRefusal-not_created, status_bad_request-IsRefusal}
use pz_workflow.Service.Cron.{run}
use pz_workflow.Service.Reading.{status_bad_request-Reads}
use pz_workflow.Service.Touching.{run-Touches}
use pz_workflow.Service.Ticking as service
use pz_workflow.Service.Ticking.{NotCreated, run-Ticks}
use pz_workflow.Server.Serving.{Serves, started, handled, ran}
use pz_workflow.Server.Touching.{handle-Touches}
use pz_workflow.Server.{
  Handler, Context, handle, bind, handle_post_event_type, handle_post_event, handle_post_trigger,
  post_event_type, post_event, post_trigger, post_alert,
}

-- The handlers whose method counts.
unfoldable pub counts_in : Counter → Handler → Bool
counts_in event_type_count post_event_type = true
counts_in event_count post_event = true
counts_in trigger_count post_trigger = true
counts_in c h = false

bind-Ticks {ℓ} :
    {A : Type ℓ} (c : Counter) (r : Result A) (method : A → Reply)
    → ((a : A) → Ticks c (Some NotCreated) (method a))
    → Ticks c (Some NotCreated) (bind r method)
unfolding bind
bind-Ticks c (ok a) method h = h a
bind-Ticks c (err e) method h =
    Ticks-never c _ _
      (Spares-untouched c _
        (Keeps-bind _ _ (Touches-of_Reads _ _ (status_bad_request-Reads _)) λ resp. Keeps-pure _))
      (Returns-then _ _ (status_bad_request-IsRefusal _)
        λ resp k. Returns-pure _ (IsRefusal-not_created resp k))

-- A handler that counts answers 201 only if it has counted, and counts once at most.
handle-Ticks :
    (c : Counter) (h : Handler) (ctx : Context)
    → counts_in c h ≡ true
    → Ticks c (Some NotCreated) (handle h ctx)
unfolding counts_in handle handle_post_event_type handle_post_event handle_post_trigger
handle-Ticks event_type_count post_event_type ctx e = bind-Ticks _ _ _ service.post_event_type-Ticks
handle-Ticks event_count post_event ctx e = bind-Ticks _ ctx.bound_event _ λ event.
    Ticks-if _ _ (not (event.cron_schedule == "")) _ _ (service.post_repeating_event-Ticks event)
      (service.post_event-Ticks event)
handle-Ticks trigger_count post_trigger ctx e = bind-Ticks _ _ _ service.post_trigger-Ticks
handle-Ticks c h ctx e = absurd (ground arith)

-- Any other handler leaves the counter as it is.
handle-Spares :
    (c : Counter) (h : Handler) (ctx : Context) → counts_in c h ≡ false → Spares c (handle h ctx)
unfolding counts_in
handle-Spares c post_event_type ctx e =
    Spares-event_types _ c (λ q. ground arith) (handle-Touches post_event_type ctx)
handle-Spares c post_event ctx e =
    Spares-posting _ c (λ q. ground arith) (handle-Touches post_event ctx)
handle-Spares c post_trigger ctx e =
    Spares-triggers _ c (λ q. ground arith) (handle-Touches post_trigger ctx)
handle-Spares c post_alert ctx e = Spares-firing _ c (handle-Touches post_alert ctx)
handle-Spares c h ctx e = Spares-untouched c _ (handle-Touches h ctx)

-- A reply of status 201 counts as one creation.
unfoldable pub replied_created : Outcome (Option JsonResponse) → ℕ
replied_created (done (some resp) v) = if nat_eq resp.status_code 201 then 1 else 0
replied_created (done none v) = 0
replied_created (panic v) = 0
replied_created (crash v) = 0

-- The replies of status 201 to the requests that count.
unfoldable pub created : Counter → {w v : World} → Serves w v → ℕ
unfolding replied_created counts_in
created c started = 0
created c (handled {v} s h ctx) =
    created c s + (if counts_in c h then replied_created (handle h ctx v) else 0)
created c (ran s job) = created c s

-- A run of a job may count an event.
unfoldable runs : Counter → ℕ
runs event_count = 1
runs c = 0

-- The requests that count, and for events the runs of jobs, each of which posts one.
unfoldable pub asked : Counter → {w v : World} → Serves w v → ℕ
unfolding counts_in runs
asked c started = 0
asked c (handled s h ctx) = asked c s + (if counts_in c h then 1 else 0)
asked c (ran s job) = asked c s + runs c

-- The counter went from `x` to `y` in steps of one, of which there were `low` at least and `high` at
-- most; it is an `int` of 64 bits.
abbrev pub Advances : ℕ → ℕ → ℕ → ℕ → Type 0
Advances low high x y = (n : ℕ) × (low ≤ n) × (n ≤ high) × (y ≡ (x + n) % 2 ^ 64)

replied_created_le : (o : Outcome (Option JsonResponse)) → replied_created o ≤ 1
unfolding replied_created
replied_created_le (done (some resp) v) = ground arith
replied_created_le (done none v) = omega arith
replied_created_le (panic v) = omega arith
replied_created_le (crash v) = omega arith

replied_created_zero :
    (o : Outcome (Option JsonResponse)) → Holds (Some NotCreated) o → replied_created o ≡ 0
unfolding replied_created
replied_created_zero (done (some resp) v) h = ground arith
replied_created_zero (done none v) h = refl
replied_created_zero (panic v) h = refl
replied_created_zero (crash v) h = refl

incr_counter-add : (x n : ℕ) → incr_counter ((x + n) % 2 ^ 64) ≡ (x + (n + 1)) % 2 ^ 64
unfolding incr_counter
incr_counter-add x n = omega arith

Advances-Tick :
    (c : Counter) (x low high : ℕ) (w : World) (o : Outcome (Option JsonResponse))
    → Advances low high x (counter c w)
    → Tick c (Some NotCreated) w o
    → Advances (low + replied_created o) (high + 1) x (counter c (final o))
Advances-Tick c x low high w o (n, a, b, e) (inr more) = (
  n + 1,
  omega (arith, replied_created_le o),
  omega arith,
  more ∙ ap incr_counter e ∙ incr_counter-add x n,
)
Advances-Tick c x low high w o (n, a, b, e) (inl (same, h)) =
    (n, omega (arith, replied_created_zero o h), omega arith, same ∙ e)

-- A step that leaves the counter.
Advances-same :
    (x y z low high : ℕ) → Advances low high x y → z ≡ y → Advances (low + 0) (high + 0) x z
Advances-same x y z low high (n, a, b, e) same = (n, omega arith, omega arith, same ∙ e)

handled-Advances :
    (c : Counter) (h : Handler) (ctx : Context) (x low high : ℕ) (v : World)
    → Advances low high x (counter c v)
    → (b : Bool) → counts_in c h ≡ b
    → Advances
        (low + (if b then replied_created (handle h ctx v) else 0))
        (high + (if b then 1 else 0))
        x
        (counter c (final (handle h ctx v)))
handled-Advances c h ctx x low high v a true e =
    Advances-Tick c x low high v _ a ((handle-Ticks c h ctx e).at v)
handled-Advances c h ctx x low high v a false e =
    Advances-same x _ _ low high a ((handle-Spares c h ctx e).at v)

ran-Advances :
    (c : Counter) (job : CronEvent) (x low high : ℕ) (v : World)
    → Advances low high x (counter c v)
    → Advances low (high + runs c) x (counter c (final (run job v)))
unfolding runs
ran-Advances event_count job x low high v a =
    let (n, p, q, e) = Advances-Tick event_count x low high v _ a ((run-Ticks job).at v) in
    (n, omega arith, q, e)
ran-Advances event_type_count job x low high v (n, p, q, e) = (
  n,
  p,
  omega arith,
  (Spares-posting _ event_type_count (λ r. ground arith) (run-Touches job)).at v ∙ e,
)
ran-Advances trigger_count job x low high v (n, p, q, e) = (
  n,
  p,
  omega arith,
  (Spares-posting _ trigger_count (λ r. ground arith) (run-Touches job)).at v ∙ e,
)

-- Whatever requests are handled and whatever jobs run after a start, in any order, each request and run to
-- its end before the next begins, so that no two increments overlap, where each counter is below 2 ^ 64 at
-- the start: the counters of event types, events and triggers are, modulo 2 ^ 64, higher than at the start
-- by at least the number of requests to create such a document that were answered with status 201, and by
-- at most the number of all such requests, for events together with the runs of jobs.
pub Serves-Advances :
    (c : Counter) {w v : World} (s : Serves w v)
    → counter c w < 2 ^ 64
    → Advances (created c s) (asked c s) (counter c w) (counter c v)
unfolding created asked
Serves-Advances c started h = (0, omega arith, omega arith, omega arith)
Serves-Advances c (handled {v} s k ctx) h =
    handled-Advances c k ctx _ _ _ v (Serves-Advances c s h) (counts_in c k) refl
Serves-Advances c (ran {v} s job) h = ran-Advances c job _ _ _ v (Serves-Advances c s h)

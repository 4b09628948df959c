-- ===== src/Service/Events/Repeating.antt =====
-- How `Service.PostRepeatingEvent` answers, by what it has tried.
use pz_workflow.Prelude.{
  ◌≡◌, refl, ◌∙◌, ap, subst, ◌⊎◌, inl, inr, String, Bool, true, false, none, some, ◌∷◌,
}
use pz_workflow.Model.{Ident, TimeStamp, Event, event_data, incr_events, cron_db_mapping}
use pz_workflow.Backend.{
  Backend, History, Request, Error, own, crons, events, event_doc, post, delete, add_job,
  remove_job,
}
use pz_workflow.Exec.{
  World, M, final, requests, request, send, count, on_error, return_if, ◌>>=◌, ◌>>◌,
}
use pz_workflow.Exec.Keeps.{
  Reads, reads_rules, Reads-requests, Reads-ask, counts, Keeps-deref, Keeps-compute,
}
use pz_workflow.Exec.Once.{
  Once, Adds, Once-send, Once-before, Once-after, Once-on_error, Once-of_Reads,
}
use pz_workflow.Exec.Wrote.{Runs}
use pz_workflow.Exec.Ran.{Runs-bind, Runs-recovered, Runs-Keeps}
use pz_workflow.Exec.Returns.{Holds}
use pz_workflow.Unique.{add_unique_params}
use pz_workflow.Db.Crons
use pz_workflow.Db.Events
use pz_workflow.Db.Events.Verify.{verify_event_ready_to_post}
use pz_workflow.Db.Reading
use pz_workflow.Service.Reading.{
  status_internal_error-Reads, status_bad_request-Reads, status_created-Reads, get_event_type-Reads,
}
use pz_workflow.Response.{JsonResponse, status_internal_error, status_bad_request, status_created}
use pz_workflow.Response.WellFormed.{
  IsRefusal, status_bad_request-IsRefusal, status_internal_error-IsRefusal,
}
use pz_workflow.Service.Events.{post_repeating_event}

-- The event as it is stored, under a new id and with the time, its data under the event type's name.
abbrev pub stored_event : Event → Ident → TimeStamp → String → Event
stored_event event id now name = record event {
  event_id = id;
  created_on = now;
  payload = add_unique_params name event.payload;
}

-- The job that posts the stored event, and the scheduled event's document.
abbrev pub scheduling : Event → String → Request
scheduling stored name =
    add_job stored.cron_schedule (record { event = own stored; event_type_name = name })

abbrev pub listing : Event → Request
listing stored = post crons cron_db_mapping stored.event_id (event_doc stored)

abbrev pub storing : Event → String → Request
storing stored name = post events name stored.event_id (event_doc stored)

abbrev pub unlisting : Event → Request
unlisting stored = delete crons cron_db_mapping stored.event_id

abbrev pub unscheduling : Event → Request
unscheduling stored = remove_job stored.event_id

abbrev pub schedule : Event → String → M Error
schedule stored name = send (scheduling stored name) (λ b. b.job_added stored.cron_schedule)

-- How the attempt to schedule and store the event `s` ends: the scheduler refuses the job; or cronDB.PostData
-- fails after that; or eventDB.PostData fails after both, and then the scheduled event is deleted and the job
-- removed, last; or it succeeds, and an event is counted.
pub data IsTried (s : Event) (name : String) (w v : World) (resp : JsonResponse) : Type 0 where
  unscheduled :
      (u x : World) (e : String)
      → requests u ≡ requests w
      → Runs (schedule s name) u (some e) x
      → requests v ≡ scheduling s name ∷ requests w
      → IsRefusal resp
      → IsTried s name w v resp
  unlisted :
      (u x : World) (e : String)
      → requests u ≡ scheduling s name ∷ requests w
      → Runs (Crons.post_data s) u (some e) x
      → requests v ≡ listing s ∷ scheduling s name ∷ requests w
      → IsRefusal resp
      → IsTried s name w v resp
  withdrawn :
      (u x : World) (e : String)
      → requests u ≡ listing s ∷ scheduling s name ∷ requests w
      → Runs (Events.post_data s name) u (some e) x
      → Adds (storing s name) x u
      → requests v ≡ unscheduling s ∷ unlisting s ∷ requests x
      → IsRefusal resp
      → IsTried s name w v resp
  stored :
      (u x : World)
      → requests u ≡ listing s ∷ scheduling s name ∷ requests w
      → Runs (Events.post_data s name) u none x
      → Adds (storing s name) x u
      → requests v ≡ requests x
      → counts v ≡ incr_events (counts x)
      → IsTried s name w v resp

-- How the whole method ends with a response: it has refused the event before any request, or it has tried
-- to schedule and store it.
abbrev pub Ends : Event → World → World → JsonResponse → Type 0
Ends event w v resp =
    ((requests v ≡ requests w) × IsRefusal resp)
    ⊎ ((id : Ident) × (now : TimeStamp) × (name : String) × IsTried (stored_event event id now name)
          name w v resp)

-- The two ways on from a test of an error, and from another test.
on_error-cases {ℓ} :
    {A : Type ℓ} (e : Error) (stop : String → M A) (rest : M A) (w v : World) (b : A)
    → Runs (on_error e stop rest) w b v
    → ((s : String) × (e ≡ some s) × Runs (stop s) w b v) ⊎ ((e ≡ none) × Runs rest w b v)
unfolding on_error
on_error-cases none stop rest w v b r = inr (refl, r)
on_error-cases (some s) stop rest w v b r = inl (s, refl, r)

return_if-cases {ℓ} :
    {A : Type ℓ} (t : Bool) (stop rest : M A) (w v : World) (b : A)
    → Runs (return_if t stop rest) w b v
    → Runs stop w b v ⊎ Runs rest w b v
unfolding return_if
return_if-cases true stop rest w v b r = inl r
return_if-cases false stop rest w v b r = inr r

-- What questions leave, and what a request adds.
read {ℓ} :
    {A : Type ℓ} (m : M A) (w v : World) (a : A) → Reads m → Runs m w a v → requests v ≡ requests w
read m w v a h r = Runs-Keeps requests m w a v (record { at = λ w. Reads-requests h w }) r

verify_event_ready_to_post-Reads : (e : Event) → Reads (verify_event_ready_to_post e)
unfolding verify_event_ready_to_post
verify_event_ready_to_post-Reads e =
    search (reads_rules, get_event_type-Reads, Reading.remove_unique_params-Reads) depth 24

Events_post_data-Once :
    (e : Event) (name : String) → Once (storing e name) (Events.post_data e name)
unfolding Events.post_data
Events_post_data-Once e name = Once-after _ _ (verify_event_ready_to_post-Reads e) λ refused.
    Once-on_error _ _ _ (λ s. Once-of_Reads _ (search reads_rules))
      (Once-before _ _ (Once-send _) λ answer. search reads_rules depth 12)

schedule-requests :
    (s : Event) (name : String) (w v : World) (e : Error)
    → Runs (schedule s name) w e v
    → requests v ≡ scheduling s name ∷ requests w
unfolding send
schedule-requests s name w v e r =
    subst (λ o. requests (final o) ≡ scheduling s name ∷ requests w) r refl

-- A request, and then only questions.
sent_first {ℓ κ} :
    {A : Type ℓ} {B : Type κ} (q : Request) (g : Backend → History → A) (f : A → M B) (w v : World)
    (b : B)
    → ((a : A) → Reads (f a))
    → Runs (send q g >>= f) w b v
    → requests v ≡ q ∷ requests w
unfolding send
sent_first q g f w v b h r =
    let (a, u, r0, k) = Runs-bind _ _ w b v r in
    read _ u v b (h a) k ∙ subst (λ o. requests (final o) ≡ q ∷ requests w) r0 refl

listing-requests :
    (s : Event) (w v : World) (e : Error)
    → Runs (Crons.post_data s) w e v
    → requests v ≡ listing s ∷ requests w
unfolding Crons.post_data
listing-requests s w v e r = sent_first _ _ _ w v e (λ a. search reads_rules depth 12) r

unlisting-requests :
    (id : Ident) (w v : World) (a : Bool × Error)
    → Runs (Crons.delete_by_id id) w a v
    → requests v ≡ delete crons cron_db_mapping id ∷ requests w
unfolding Crons.delete_by_id
unlisting-requests id w v a r = sent_first _ _ _ w v a (λ a. search reads_rules depth 12) r

request-requests :
    (q : Request) (w v : World) (t : Unit {0})
    → Runs (request q) w t v
    → requests v ≡ q ∷ requests w
unfolding request
request-requests q w v t r = subst (λ o. requests (final o) ≡ q ∷ requests w) r refl

-- The error responses.
bad_request :
    (e : Error) (w v : World) (resp : JsonResponse)
    → Runs (status_bad_request e) w resp v
    → (requests v ≡ requests w) × IsRefusal resp
bad_request e w v resp r = (
  read _ w v resp (status_bad_request-Reads e) r,
  subst (Holds IsRefusal) r ((status_bad_request-IsRefusal e).at w),
)

internal_error :
    (e : Error) (w v : World) (resp : JsonResponse)
    → Runs (status_internal_error e) w resp v
    → (requests v ≡ requests w) × IsRefusal resp
internal_error e w v resp r = (
  read _ w v resp (status_internal_error-Reads e) r,
  subst (Holds IsRefusal) r ((status_internal_error-IsRefusal e).at w),
)

count-counts :
    (w v : World) (t : Unit {0})
    → Runs (count incr_events) w t v
    → (requests v ≡ requests w) × (counts v ≡ incr_events (counts w))
unfolding count
count-counts w v t r = (
  subst (λ o. requests (final o) ≡ requests w) r refl,
  subst (λ o. counts (final o) ≡ incr_events (counts w)) r refl,
)

module _ (s response : Event) (name : String) (w v : World) (resp : JsonResponse) where
  -- After eventDB.PostData.
  finish : Error → M JsonResponse
  finish refused =
      on_error refused
        (λ e. do
          Crons.delete_by_id s.event_id
          request (remove_job s.event_id)
          status_internal_error (some e))
        do count incr_events; status_created (event_data response)

  finish-IsTried :
      (u x : World) (e : Error)
      → requests u ≡ listing s ∷ scheduling s name ∷ requests w
      → Runs (Events.post_data s name) u e x
      → Runs (finish e) x resp v
      → IsTried s name w v resp
  unfolding finish on_error
  finish-IsTried u x (some m) h r k =
      let (a, x1, r1, k1) = Runs-bind _ _ x resp v k in
      let (b, x2, r2, k2) = Runs-bind _ _ x1 resp v k1 in
      let (same, refusal) = internal_error (some m) x2 v resp k2 in
      withdrawn u x m h r
        (subst (λ o. Adds (storing s name) (final o) u) r ((Events_post_data-Once s name).at u))
        (same
          ∙ request-requests _ x1 x2 b r2
          ∙ ap (λ rs. unscheduling s ∷ rs) (unlisting-requests s.event_id x x1 a r1))
        refusal
  finish-IsTried u x none h r k =
      let (a, x1, r1, k1) = Runs-bind _ _ x resp v k in
      let (same, counted) = count-counts x x1 a r1 in
      stored u x h r
        (subst (λ o. Adds (storing s name) (final o) u) r ((Events_post_data-Once s name).at u))
        (read _ x1 v resp (status_created-Reads _) k1 ∙ same)
        (Runs-Keeps counts (status_created (event_data response)) x1 resp v
            (record { at = λ w. ap (λ k. k.1) ((status_created-Reads (event_data response)).at w) })
            k1
          ∙ counted)

  -- From the scheduler on.
  tried : M JsonResponse
  unfolding finish
  tried = do
    no_job ← schedule s name
    on_error no_job (λ e. status_internal_error (some e))
        do
          no_listing ← Crons.post_data s
          on_error no_listing (λ e. status_internal_error (some e))
              do refused ← Events.post_data s name; finish refused

  tried-IsTried :
      (u : World) → requests u ≡ requests w → Runs tried u resp v → IsTried s name w v resp
  unfolding tried
  tried-IsTried u h r =
      let (e1, u1, r1, k1) = Runs-bind _ _ u resp v r in
      let s1 = schedule-requests s name u u1 e1 r1 ∙ ap (λ rs. scheduling s name ∷ rs) h in
      elim (on_error-cases e1 _ _ u1 v resp k1) [
        | inl (m, n, q) ↦
            let (same, refusal) = internal_error (some m) u1 v resp q in
            unscheduled u u1 m h (subst (λ e. Runs (schedule s name) u e u1) n r1) (same ∙ s1)
              refusal
        | inr (n, q) ↦
            let (e2, u2, r2, k2) = Runs-bind _ _ u1 resp v q in
            let s2 = listing-requests s u1 u2 e2 r2 ∙ ap (λ rs. listing s ∷ rs) s1 in
            elim (on_error-cases e2 _ _ u2 v resp k2) [
              | inl (m, n, q) ↦
                  let (same, refusal) = internal_error (some m) u2 v resp q in
                  unlisted u1 u2 m s1 (subst (λ e. Runs (Crons.post_data s) u1 e u2) n r2)
                    (same ∙ s2) refusal
              | inr (n, q) ↦
                  let (e3, u3, r3, k3) = Runs-bind _ _ u2 resp v q in
                  finish-IsTried u2 u3 e3 s2 r3 k3
            ]
      ]

refused-Ends :
    (event : Event) (e : Error) (w u v : World) (resp : JsonResponse)
    → requests u ≡ requests w
    → Runs (status_bad_request e) u resp v
    → Ends event w v resp
refused-Ends event e w u v resp h r =
    let (same, refusal) = bad_request e u v resp r in inl (same ∙ h, refusal)

pub post_repeating_event-IsTried :
    (event : Event) (w v : World) (resp : JsonResponse)
    → Runs (post_repeating_event event) w (some resp) v
    → Ends event w v resp
unfolding post_repeating_event tried finish
post_repeating_event-IsTried event w v resp r =
    let (x, u1, r1, k1) = Runs-bind _ _ w resp v (Runs-recovered _ resp w v r) in
    let s1 = read _ w u1 x (Reading.EventTypes_get_one-Reads _) r1 in
    elim (on_error-cases x.2 _ _ u1 v resp k1) [
      | inl (m, n, q) ↦ refused-Ends event _ w u1 v resp s1 q
      | inr (n, q) ↦ elim (return_if-cases _ _ _ u1 v resp q) [
        | inl q ↦ refused-Ends event _ w u1 v resp s1 q
        | inr q ↦
            let (et, u2, r2, k2) = Runs-bind _ _ u1 resp v q in
            let s2 = read _ u1 u2 et (Keeps-deref _) r2 ∙ s1 in
            let (unparsed, u3, r3, k3) = Runs-bind _ _ u2 resp v k2 in
            let s3 = read _ u2 u3 unparsed (Keeps-compute _) r3 ∙ s2 in
            elim (on_error-cases unparsed _ _ u3 v resp k3) [
              | inl (m, n, q) ↦ refused-Ends event _ w u3 v resp s3 q
              | inr (n, q) ↦
                  let (id, u4, r4, k4) = Runs-bind _ _ u3 resp v q in
                  let (now, u5, r5, k5) = Runs-bind _ _ u4 resp v k4 in
                  let s5 =
                    read _ u4 u5 now (Reads-ask _) r5 ∙ read _ u3 u4 id (Reads-ask _) r4 ∙ s3 in
                  inr (
                    id,
                    now,
                    et.name,
                    tried-IsTried (stored_event event id now et.name)
                        (record event { event_id = id; created_on = now }) et.name w v resp u5 s5
                        k5,
                  )
            ]
      ]
    ]

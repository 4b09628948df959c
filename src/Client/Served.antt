-- ===== src/Client/Served.antt =====
-- The client of workflow/Client.go against the server of workflow/Server.go.
use pz_workflow.Prelude.{
  ℕ, String, ◌≡◌, ◌↔◌, refl, ◌⊎◌, inl, inr, subst, sym, Bool, true, false, ◌||◌, Option, none, some,
  List, get_elem?, get_elem?-all, nat_eq, ltb, ◌&&◌, arith,
}
use pz_workflow.Json.{Json, null}
use pz_workflow.Backend.{Error, Result}
use pz_workflow.Exec.{World}
use pz_workflow.Exec.Wrote.{Runs}
use pz_workflow.Response.{JsonResponse}
use pz_workflow.Response.WellFormed.{IsWellFormed, documents, nothing, text, refusal}
use pz_workflow.Server.{Verb, get, post, put, Route, routes, Context, handle}
use pz_workflow.Server.Replies.{success, handle-IsWellFormed}
use pz_workflow.Client.Calls.{Http, Sent, Body, no_body, Call, Received, is_error}
use pz_workflow.Client.{get_object, post_object, put_object}
use pz_workflow.Client.Answers.{answer_of, request, object-Answers}

-- The three ways to ask for an object.
pub data Asking : Type 0 where
  getting posting putting : Asking

abbrev pub verb_of : Asking → Verb
verb_of getting = get
verb_of posting = post
verb_of putting = put

abbrev pub body_of : Asking → Body → Body
body_of getting obj = no_body
body_of posting obj = obj
body_of putting obj = obj

abbrev pub ask_object :
    {A : Type 0} → Asking → (Http → Json → Result A) → Body → String → Call (Option A × Error)
ask_object getting extract obj endpoint = get_object extract endpoint
ask_object posting extract obj endpoint = post_object extract obj endpoint
ask_object putting extract obj endpoint = put_object extract obj endpoint

-- The answer to a request carries the status of the response that the handler of a route with the
-- request's verb gave.
pub record IsServed (sent : Sent) (h : Http) (past : List Sent) : Type 0 where
  pub i : ℕ
  pub route : Route
  pub context : Context
  pub w : World
  pub v : World
  pub resp : JsonResponse
  pub in_table : get_elem? i routes ≡ some route
  pub has_verb : route.verb ≡ sent.verb
  pub handled : Runs (handle route.handler context) w (some resp) v
  pub same_status : (h.answer sent past).status_code ≡ resp.status_code

posts : Verb → Bool
posts post = true
posts verb = false

posts_or_200 : ℕ → Verb → Bool
posts_or_200 n verb = nat_eq n 200 || posts verb && nat_eq n 201

-- The status that a handler of such a route succeeds with beside 200.
abbrev pub Succeeds : Asking → ℕ → Type 0
Succeeds getting n = n ≡ 200
Succeeds posting n = (n ≡ 201) ⊎ (n ≡ 200)
Succeeds putting n = n ≡ 200

succeeds : (k : Asking) (n : ℕ) → posts_or_200 n (verb_of k) ≡ true → Succeeds k n
unfolding posts_or_200 posts
succeeds getting n h = ground arith
succeeds posting n h = ground arith
succeeds putting n h = ground arith

-- Only a POST creates.
success-Succeeds :
    (k : Asking) (i : ℕ) (r : Route)
    → get_elem? i routes ≡ some r
    → r.verb ≡ verb_of k
    → Succeeds k (success r.handler)
unfolding posts_or_200 posts
success-Succeeds k i r e v = succeeds k (success r.handler) (
    subst (λ verb. posts_or_200 (success r.handler) verb ≡ true) v
      (get_elem?-all (λ r. posts_or_200 (success r.handler) r.verb) i routes r refl e))

settled :
    (n : ℕ) (resp : JsonResponse)
    → IsWellFormed n resp
    → ((resp.status_code ≡ 200) ⊎ (resp.status_code ≡ n))
      ⊎ (((resp.status_code ≡ 400) ⊎ (resp.status_code ≡ 403))
          ⊎ ((resp.status_code ≡ 404) ⊎ (resp.status_code ≡ 500)))
settled n resp (documents s r) = inl s
settled n resp (nothing s p) = inl (inl s)
settled n resp (text t s p q) = inl (inl s)
settled n resp (refusal r) = inr r.status

-- A status that is a success of the handler is one that the call wants; any other is an error.
never :
    (k : Asking) (n status : ℕ)
    → Succeeds k n
    → ((status ≡ 200) ⊎ (status ≡ n))
      ⊎ (((status ≡ 400) ⊎ (status ≡ 403)) ⊎ ((status ≡ 404) ⊎ (status ≡ 500)))
    → (ltb status 200 || ltb 299 status) ≡ false
    → ¬ Succeeds k status
    → ⊥
never getting n status h s e w = ground arith
never posting n status h s e w = ground arith
never putting n status h s e w = ground arith

module _ {A : Type 0} (extract : Http → Json → Result A) (obj : Body) (endpoint : String) (h : Http)
    (past : List Sent) where
  abbrev pub received : Asking → Received
  received k = h.answer (request (verb_of k) endpoint (body_of k obj)) past

  -- What object-Answers says of the answer that is neither data nor an error.
  neither :
      (k : Asking)
      → (answer_of (ask_object k extract obj endpoint) h past ≡ (none, none)) ↔ (
          ((is_error (received k) ≡ false) × ¬ Succeeds k (received k).status_code)
          ⊎ (Succeeds k (received k).status_code × ((received k).content ≡ null)))
  neither getting = (object-Answers extract endpoint h past obj).0.1
  neither posting = (object-Answers extract endpoint h past obj).1.1
  neither putting = (object-Answers extract endpoint h past obj).2.1

  unwanted :
      (k : Asking)
      → IsServed (request (verb_of k) endpoint (body_of k obj)) h past
      → is_error (received k) ≡ false
      → ¬ Succeeds k (received k).status_code
      → ⊥
  unwanted k s no_error h =
      let shape = handle-IsWellFormed s.route.handler s.context s.w s.v s.resp s.handled in
      let wanted = success-Succeeds k s.i s.route s.in_table s.has_verb in
      never k (success s.route.handler) (received k).status_code wanted
        (subst
          (λ status.
            ((status ≡ 200) ⊎ (status ≡ success s.route.handler))
            ⊎ (((status ≡ 400) ⊎ (status ≡ 403)) ⊎ ((status ≡ 404) ⊎ (status ≡ 500))))
          (sym s.same_status) (settled (success s.route.handler) s.resp shape))
        no_error h

  -- Where this service answers a call of getObject, postObject or putObject, the call gives neither data nor
  -- an error exactly if the status is one that it wants (200, for postObject also 201) and the data of the
  -- reply is null: no other status of this service is mistaken for a success.
  pub ask_object-Served :
      (k : Asking)
      → IsServed (request (verb_of k) endpoint (body_of k obj)) h past
      → (answer_of (ask_object k extract obj endpoint) h past ≡ (none, none))
        ↔ (Succeeds k (received k).status_code × ((received k).content ≡ null))
  ask_object-Served k s = (
    λ e. elim ((neither k).0 e) [
      | inl (no_error, h) ↦ absurd (unwanted k s no_error h)
      | inr h ↦ h
    ],
    λ h. (neither k).1 (inr h),
  )

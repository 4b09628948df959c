-- ===== src/Client/Answers.antt =====
-- What the methods of workflow/Client.go make of a response, and what they send.
use pz_workflow.Prelude.{
  ℕ, String, ◌<>◌, ◌≡◌, ◌≢◌, refl, ◌↔◌, ◌⊎◌, inl, inr, Bool, true, false, ◌||◌, Option, none, some,
  nat_eq, List, ◌∷◌, if◌then◌else◌, arith,
}
use pz_workflow.Json.{Json, null}
use pz_workflow.Texts.{decimal}
use pz_workflow.Backend.{Error, Result, ok}
use pz_workflow.Server.{Verb, get, post, put, delete}
use pz_workflow.Client.Calls.{Http, Sent, Body, no_body, Call, exchange, is_error}
use pz_workflow.Client.Extracted.{into-cases}
use pz_workflow.Client.{
  get_into, get_object, post_object, put_object, delete_object, get_object_count, get_all_triggers,
  into, into_pointer, extracted,
}

abbrev pub answer_of {ℓ} : {A : Type ℓ} → Call A → Http → List Sent → A
answer_of call h past = (call h past).0

-- All requests sent by a call's end.
abbrev pub requests {ℓ} : {A : Type ℓ} → Call A → Http → List Sent → List Sent
requests call h past = (call h past).1

abbrev pub request : Verb → String → Body → Sent
request verb endpoint body = record { verb = verb; endpoint = endpoint; body = body }

-- The two tests of the status.
abbrev tested {ℓ} : {A : Type ℓ} → Bool → Bool → A → A → A → List Sent → A × List Sent
tested fails wanted x y z past =
    if fails then (x, past) else if wanted then (y, past) else (z, past)

-- Whatever the tests of the status say, no request follows.
settled {ℓ} :
    {A : Type ℓ} (fails wanted : Bool) (x y z : A) (past : List Sent)
    → (tested fails wanted x y z past).1 ≡ past
settled true wanted x y z past = refl
settled false true x y z past = refl
settled false false x y z past = refl

abbrev Sends {ℓ} : {A : Type ℓ} → Call A → Verb → String → Body → Http → List Sent → Type 0
Sends call verb endpoint body h past = requests call h past ≡ request verb endpoint body ∷ past

-- What an answer says of the response: data stand in it, and there is neither data nor an error.
abbrev pub Answers {ℓ} : {A : Type ℓ} → Bool → Type 0 → Json → Result A → Option A × Error → Type ℓ
Answers {A = A} fails Wanted content found answer =
    ((a : A) → (answer ≡ (some a, none)) ↔ (Wanted × (content ≢ null) × (found ≡ ok a)))
    × ((answer ≡ (none, none)) ↔ (((fails ≡ false) × ¬ Wanted) ⊎ (Wanted × (content ≡ null))))

tested-Answers {ℓ} :
    {A : Type ℓ} (fails wanted : Bool) (text : String) (found : Result A) (content : Json)
    (past : List Sent) (Wanted : Type 0)
    → (wanted ≡ true ↔ Wanted)
    → (Wanted → fails ≡ false)
    → (let refusal : Option A × Error = (none, if fails then some text else none) in
        Answers fails Wanted content found
          (tested fails wanted refusal (extracted (into found content)) refusal past).0)
tested-Answers true wanted text found content past Wanted test sound = ground arith
tested-Answers false true text found content past Wanted test sound =
    elim (into-cases found content) [
      | inl (e, f) ↦ rw f (ground (arith, e, test))
      | inr (e, inl (a, g, f)) ↦ rw (f, g) (ground (arith, e, test))
      | inr (e, inr (m, g, f)) ↦ rw (f, g) (ground (arith, e, test))
    ]
tested-Answers false false text found content past Wanted test sound = ground arith

module _ {A : Type 0} (extract : Http → Json → Result (Option A)) (endpoint : String) (h : Http)
    (past : List Sent) where
  pub get_into-requests : Sends (get_into extract endpoint) get endpoint no_body h past
  unfolding get_into exchange
  get_into-requests =
      let resp = h.answer (request get endpoint no_body) past in
      settled (is_error resp) (nat_eq resp.status_code 200) _ _ _ _

module _ {A : Type 0} (extract : Http → Json → Result A) (endpoint : String) (h : Http)
    (past : List Sent) where
  pub get_object-requests : Sends (get_object extract endpoint) get endpoint no_body h past
  unfolding get_object
  get_object-requests = get_into-requests (λ h v. into (extract h v) v) endpoint h past

  pub post_object-requests :
      (obj : Body) → Sends (post_object extract obj endpoint) post endpoint obj h past
  unfolding post_object exchange
  post_object-requests obj =
      let resp = h.answer (request post endpoint obj) past in
      settled (is_error resp) (nat_eq resp.status_code 201 || nat_eq resp.status_code 200) _ _ _ _

  pub put_object-requests :
      (obj : Body) → Sends (put_object extract obj endpoint) put endpoint obj h past
  unfolding put_object exchange
  put_object-requests obj =
      let resp = h.answer (request put endpoint obj) past in
      settled (is_error resp) (nat_eq resp.status_code 200) _ _ _ _

  -- A call of getObject, postObject or putObject gives data exactly if the status is one that it wants
  -- (200, for postObject also 201) and the data is not null and can be decoded; it gives neither data nor an
  -- error exactly if the status is another one from 200 to 299, or is wanted and the data is null.
  pub object-Answers :
      (obj : Body)
      → (let resp = h.answer (request get endpoint no_body) past in
          Answers
            (is_error resp)
            (resp.status_code ≡ 200)
            resp.content
            (extract h resp.content)
            (answer_of (get_object extract endpoint) h past))
        × (let resp = h.answer (request post endpoint obj) past in
            Answers
              (is_error resp)
              ((resp.status_code ≡ 201) ⊎ (resp.status_code ≡ 200))
              resp.content
              (extract h resp.content)
              (answer_of (post_object extract obj endpoint) h past))
        × (let resp = h.answer (request put endpoint obj) past in
            Answers
              (is_error resp)
              (resp.status_code ≡ 200)
              resp.content
              (extract h resp.content)
              (answer_of (put_object extract obj endpoint) h past))
  unfolding get_object get_into post_object put_object exchange
  object-Answers obj = (
    (let resp = h.answer (request get endpoint no_body) past in
        tested-Answers (is_error resp) (nat_eq resp.status_code 200)
          (h.error_text resp.status_code resp.message) (extract h resp.content) resp.content _
          (resp.status_code ≡ 200) (ground arith) (ground arith)),
    (let resp = h.answer (request post endpoint obj) past in
        tested-Answers (is_error resp) (nat_eq resp.status_code 201 || nat_eq resp.status_code 200)
          (h.error_text resp.status_code resp.message) (extract h resp.content) resp.content _
          ((resp.status_code ≡ 201) ⊎ (resp.status_code ≡ 200)) (ground arith) (ground arith)),
    (let resp = h.answer (request put endpoint obj) past in
        tested-Answers (is_error resp) (nat_eq resp.status_code 200)
          (h.error_text resp.status_code resp.message) (extract h resp.content) resp.content _
          (resp.status_code ≡ 200) (ground arith) (ground arith)),
  )

pub get_all_triggers-requests :
    (per_page page : ℕ) (h : Http) (past : List Sent)
    → Sends
        (get_all_triggers per_page page)
        get
        ("/trigger?perPage=" <> decimal per_page <> "&page=" <> decimal page)
        no_body
        h
        past
unfolding get_all_triggers
get_all_triggers-requests per_page page h past =
    get_into-requests (λ h v. into_pointer (h.triggers v) v) _ h past

module _ (endpoint : String) (h : Http) (past : List Sent) where
  pub get_object_count-requests : Sends (get_object_count endpoint) get endpoint no_body h past
  unfolding get_object_count exchange
  get_object_count-requests =
      let resp = h.answer (request get endpoint no_body) past in
      settled (is_error resp) (nat_eq resp.status_code 200) _ _ _ _

  pub delete_object-requests : Sends (delete_object endpoint) delete endpoint no_body h past
  unfolding delete_object exchange
  delete_object-requests = refl

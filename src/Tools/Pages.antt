-- ===== src/Tools/Pages.antt =====
-- What the functions of tools/main.go that delete one page send.
use pz_workflow.Prelude.{
  ℕ, String, ◌<>◌, ◌≡◌, ◌≢◌, refl, sym, ap, subst, ◌⊎◌, inl, inr, none, some, List, [], ◌∷◌, ◌++◌,
  map, arith,
}
use pz_workflow.Backend.{Error}
use pz_workflow.Model.{Ident, Alert, Event, EventType, Trigger}
use pz_workflow.Server.{get, delete}
use pz_workflow.Texts.{decimal}
use pz_workflow.Client.{
  get_all_alerts, get_all_events, get_all_event_types, get_all_triggers, delete_alert, delete_event,
  delete_event_type, delete_trigger,
}
use pz_workflow.Client.Calls.{Http, Sent, Call, return, no_body}
use pz_workflow.Client.Answers.{
  answer_of, requests, request, get_object-requests, get_all_triggers-requests,
  delete_object-requests,
}
use pz_workflow.Tools.{
  delete_alerts, delete_each, delete_page_of_alerts, delete_page_of_events,
  delete_page_of_event_types, delete_page_of_triggers,
}

-- The requests that delete the objects behind `prefix`, one after the other.
abbrev pub deleted : String → List Ident → List Sent → List Sent
deleted prefix [] past = past
deleted prefix (id ∷ ids) past = deleted prefix ids (request delete (prefix <> id) no_body ∷ past)

delete_each-requests {ℓ} :
    {A : Type ℓ} (method : Ident → Call Error) (id_of : A → Ident) (prefix : String) (list : List A)
    (h : Http) (past : List Sent)
    → ((id : Ident) (past : List Sent)
        → requests (method id) h past ≡ request delete (prefix <> id) no_body ∷ past)
    → delete_each (λ a. method (id_of a)) list h past ≡ (none, deleted prefix (map id_of list) past)
unfolding delete_each
delete_each-requests method id_of prefix [] h past sends = refl
delete_each-requests method id_of prefix (a ∷ list) h past sends = rw (sends (id_of a) past) (
    delete_each-requests method id_of prefix list h
      (request delete (prefix <> id_of a) no_body ∷ past) sends)

delete_alert-requests :
    (id : Ident) (h : Http) (past : List Sent)
    → requests (delete_alert id) h past ≡ request delete ("/alert/" <> id) no_body ∷ past
unfolding delete_alert
delete_alert-requests id h past = delete_object-requests ("/alert/" <> id) h past

-- How a loop over alerts ends: after all of them, or with an error after one of them.
abbrev pub IsDeleted : List Alert → List Sent → Error × List Sent → Type 0
IsDeleted alerts past (failure, sent) =
    ((failure ≡ none) × (sent ≡ deleted "/alert/" (map (λ alert. alert.alert_id) alerts) past))
    ⊎ ((failure ≢ none)
        × (before : List Alert) × (after : List Alert) × (alert : Alert) × (alerts
            ≡ before ++ alert ∷ after)
        × (sent ≡ deleted "/alert/" (map (λ alert. alert.alert_id) (before ++ alert ∷ [])) past))

IsDeleted-cons :
    (alert : Alert) (alerts : List Alert) (past : List Sent) (result : Error × List Sent)
    → IsDeleted alerts (request delete ("/alert/" <> alert.alert_id) no_body ∷ past) result
    → IsDeleted (alert ∷ alerts) past result
IsDeleted-cons alert alerts past result (inl h) = inl h
IsDeleted-cons alert alerts past result (inr (f, before, after, last, e, s)) =
    inr (f, alert ∷ before, after, last, ap (λ l. alert ∷ l) e, s)

-- What the loop does after a deletion.
abbrev continued : Error → List Alert → Call Error
continued failure alerts = elim failure [ some e ↦ return (some e) | none ↦ delete_alerts alerts ]

continued-IsDeleted :
    (failure : Error) (alert : Alert) (alerts : List Alert) (h : Http) (past : List Sent)
    → (let past' = request delete ("/alert/" <> alert.alert_id) no_body ∷ past in
        IsDeleted alerts past' (delete_alerts alerts h past')
        → IsDeleted (alert ∷ alerts) past (continued failure alerts h past'))
continued-IsDeleted none alert alerts h past ih = IsDeleted-cons alert alerts past _ ih
continued-IsDeleted (some e) alert alerts h past ih =
    inr ((λ p. ground (arith, p)), [], alerts, alert, refl, refl)

delete_alerts-IsDeleted :
    (alerts : List Alert) (h : Http) (past : List Sent)
    → IsDeleted alerts past (delete_alerts alerts h past)
unfolding delete_alerts
delete_alerts-IsDeleted [] h past = inl (refl, refl)
delete_alerts-IsDeleted (alert ∷ alerts) h past =
    let failure = answer_of (delete_alert alert.alert_id) h past in
    subst (λ sent. IsDeleted (alert ∷ alerts) past (continued failure alerts h sent))
      (sym (delete_alert-requests alert.alert_id h past))
      (continued-IsDeleted failure alert alerts h past (delete_alerts-IsDeleted alerts h _))

-- The request for a page of a listing.
abbrev pub listing : String → ℕ → ℕ → Sent
listing path per_page page =
    request get (path <> decimal per_page <> "&page=" <> decimal page) no_body

module _ (per_page page : ℕ) (h : Http) (past : List Sent) where
  -- deletePageOfEvents, deletePageOfEventTypes and deletePageOfTriggers, for a page that could be had: each
  -- asks for the page and then for the deletion of every object on it, once and in the page's order,
  -- whatever the answers to the deletions are, and returns no error.
  pub delete_page-deleted :
      (events : List Event) (event_types : List EventType) (triggers : List Trigger)
      → answer_of (get_all_events per_page page) h past ≡ (some events, none)
      → answer_of (get_all_event_types per_page page) h past ≡ (some event_types, none)
      → answer_of (get_all_triggers per_page page) h past ≡ (some triggers, none)
      → (delete_page_of_events per_page page h past ≡ (
        none,
        deleted "/event/"
            (map (λ event. event.event_id) events)
            (listing "/event?perPage=" per_page page ∷ past),
      ))
        × (delete_page_of_event_types per_page page h past ≡ (
          none,
          deleted "/eventType/"
              (map (λ event_type. event_type.event_type_id) event_types)
              (listing "/eventType?perPage=" per_page page ∷ past),
        ))
        × (delete_page_of_triggers per_page page h past ≡ (
          some none,
          deleted "/trigger/"
              (map (λ trigger. trigger.trigger_id) triggers)
              (listing "/trigger?perPage=" per_page page ∷ past),
        ))
  unfolding delete_page_of_events delete_page_of_event_types delete_page_of_triggers get_all_events
      get_all_event_types delete_event delete_event_type delete_trigger
  delete_page-deleted events event_types triggers e f g = (
    rw
        (
          e,
          get_object-requests (λ h. h.events) (listing "/event?perPage=" per_page page).endpoint h
              past,
        )
        (delete_each-requests delete_event (λ event. event.event_id) "/event/" events h _
          (λ id. delete_object-requests ("/event/" <> id) h)),
    rw
        (
          f,
          get_object-requests (λ h. h.event_types)
              (listing "/eventType?perPage=" per_page page).endpoint h past,
        )
        (delete_each-requests delete_event_type (λ event_type. event_type.event_type_id)
          "/eventType/" event_types h _ (λ id. delete_object-requests ("/eventType/" <> id) h)),
    rw (g, get_all_triggers-requests per_page page h past)
        (ap (λ r. (some r.0, r.1))
          (delete_each-requests delete_trigger (λ trigger. trigger.trigger_id) "/trigger/" triggers
            h _ (λ id. delete_object-requests ("/trigger/" <> id) h))),
  )

  -- deletePageOfAlerts, for a page that could be had: without an error it asks for the deletion of every
  -- alert on the page, once and in the page's order; with an error it asks for that up to one of them.
  pub delete_page_of_alerts-IsDeleted :
      (alerts : List Alert)
      → answer_of (get_all_alerts per_page page) h past ≡ (some alerts, none)
      → IsDeleted alerts
          (listing "/alert?perPage=" per_page page ∷ past)
          (delete_page_of_alerts per_page page h past)
  unfolding delete_page_of_alerts get_all_alerts
  delete_page_of_alerts-IsDeleted alerts e =
      rw
        (
          e,
          get_object-requests (λ h. h.alerts) (listing "/alert?perPage=" per_page page).endpoint h
              past,
        )
        (delete_alerts-IsDeleted alerts h _)

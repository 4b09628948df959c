-- ===== src/Client/Unrouted.antt =====
-- The methods of workflow/Client.go that no route of workflow/Server.go answers.
use pz_workflow.Prelude.{
  ℕ, String, ◌≡◌, ◌≢◌, refl, ap, Bool, true, false, none, some, List, ◌∷◌, get_elem?, get_elem?-all,
  not, ◌==◌, ◌||◌, arith, subst,
}
use pz_workflow.Texts.{replace_first, strip_prefix}
use pz_workflow.Model.{Ident, EventType, Event, Alert}
use pz_workflow.Server.{Route, routes, Verb, put}
use pz_workflow.Client.Calls.{Http, Sent, Body, event_type_body, event_body, alert_body}
use pz_workflow.Client
use pz_workflow.Client.Answers.{requests, request, put_object-requests}

is_put : Verb → Bool
is_put put = true
is_put verb = false

put_path :
    (i : ℕ) (r : Route) → get_elem? i routes ≡ some r → r.verb ≡ put → r.path ≡ "/trigger/:id"
unfolding is_put
put_path i r e v =
    let test =
      get_elem?-all (λ r. not (is_put r.verb) || r.path == "/trigger/:id") i routes r refl e in
    ground (arith, subst (λ verb. not (is_put verb) || r.path == "/trigger/:id" ≡ true) v test)

-- The request for a path that does not begin with /t.
not_put :
    (i : ℕ) (r : Route) (id : Ident) (past sent : List Sent) (endpoint : String) (body body' : Body)
    → get_elem? i routes ≡ some r
    → r.verb ≡ put
    → strip_prefix "/t" endpoint ≡ none
    → sent ≡ request put endpoint body' ∷ past
    → sent ≢ request put (replace_first ":id" id r.path) body ∷ past
unfolding replace_first strip_prefix
not_put i r id past sent endpoint body body' e v other s s' =
    let path : endpoint ≡ replace_first ":id" id "/trigger/:id" = cc (s, s', put_path i r e v) in
    let found = ap (strip_prefix "/t") path in ground (arith, found)

-- PutEventType, PutEvent and PutAlert send a request that no PUT route of the server stands for, with
-- whatever id in its path.
pub put-NotRouted :
    (i : ℕ) (r : Route) (id : Ident) (h : Http) (past : List Sent) (body : Body)
    (event_type : EventType) (event : Event) (alert : Alert)
    → get_elem? i routes ≡ some r
    → r.verb ≡ put
    → (let routed : List Sent = request put (replace_first ":id" id r.path) body ∷ past in
        (requests (Client.put_event_type event_type) h past ≢ routed)
        × (requests (Client.put_event event) h past ≢ routed)
        × (requests (Client.put_alert alert) h past ≢ routed))
unfolding Client.put_event_type Client.put_event Client.put_alert strip_prefix
put-NotRouted i r id h past body event_type event alert e v = (
  not_put i r id past _ "/eventType" body (event_type_body event_type) e v refl
      (put_object-requests (λ h. h.event_type) "/eventType" h past (event_type_body event_type)),
  not_put i r id past _ "/event" body (event_body event) e v refl
      (put_object-requests (λ h. h.event) "/event" h past (event_body event)),
  not_put i r id past _ "/alert" body (alert_body alert) e v refl
      (put_object-requests (λ h. h.alert) "/alert" h past (alert_body alert)),
)

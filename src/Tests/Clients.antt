-- ===== src/Tests/Clients.antt =====
-- The theorems on the client and on the clean-up tool, at examples.
use pz_workflow.Prelude.{
  ◌≡◌, ◌≢◌, refl, ◌↔◌, true, false, some, none, [], ◌∷◌, count, length, arith,
}
use pz_workflow.Json.{boolean}
use pz_workflow.Backend.{ok, err}
use pz_workflow.Server.{route, put, post, get, put_trigger}
use pz_workflow.Server
use pz_workflow.Tests.{flood, event, trigger, alert}
use pz_workflow.Client
use pz_workflow.Client.{get_object}
use pz_workflow.Client.Calls.{Http, no_body, event_body}
use pz_workflow.Client.Answers.{Answers, answer_of, request, requests, object-Answers}
use pz_workflow.Client.Methods.{sent}
use pz_workflow.Client.Methods as method
use pz_workflow.Client.Routes.{Routed, sent-Routed}
use pz_workflow.Client.Unrouted.{put-NotRouted}
use pz_workflow.Tools
use pz_workflow.Tools.{delete_all_objects, num_pages, spawned}
use pz_workflow.Tools.Rounds.{
  returns, full_rounds, delete_all_objects-returns, delete_all_objects-count,
}
use pz_workflow.Tools.Waiting.{Round, begun, Step, ended, Reach, here, Passes, round-Passes}
use pz_workflow.Tools.Pages.{
  delete_page-deleted, delete_page_of_alerts-IsDeleted, IsDeleted, listing, deleted,
}

-- A server with one object of each kind.
abbrev pub http : Http
http = record {
  answer = λ sent past. record {
    status_code = 200;
    message = "";
    content = boolean true;
    count = some 1;
  };
  error_text = λ n message. message;
  version = λ v. ok "1.0.0";
  event_type = λ v. ok flood;
  event_types = λ v. ok (flood ∷ []);
  event = λ v. ok event;
  events = λ v. ok (event ∷ []);
  trigger = λ v. ok trigger;
  triggers = λ v. ok (trigger ∷ []);
  update = λ v. err "no update";
  alert = λ v. ok alert;
  alerts = λ v. ok (alert ∷ []);
  text = λ v. ok "2.2.0";
  test = λ v. err "no test";
  stats = λ v. err "no stats";
}

delete_all_objects-returns_example : returns (delete_all_objects (8500, none)) ≡ full_rounds 9
delete_all_objects-returns_example = delete_all_objects-returns 8500

two_pages :
    delete_all_objects (8500, none) ≡ some (none, 0 ∷ 1 ∷ 2 ∷ 3 ∷ 4 ∷ 5 ∷ 6 ∷ 7 ∷ 8 ∷ 9 ∷ [])
unfolding delete_all_objects
two_pages = refl

delete_all_objects-count_example : count 4 (0 ∷ 1 ∷ 2 ∷ 3 ∷ 4 ∷ 5 ∷ 6 ∷ 7 ∷ 8 ∷ 9 ∷ []) ≡ 1
delete_all_objects-count_example = delete_all_objects-count 8500 4 _ (omega arith) two_pages

sent-Routed_example : Routed Server.get_event "17" "" [] (sent (method.get_event "17") http [])
sent-Routed_example = sent-Routed (method.get_event "17") http []

put-NotRouted_example :
    (requests (Client.put_event_type flood) http [] ≢ request put "/trigger/17" no_body ∷ [])
    × (requests (Client.put_event event) http [] ≢ request put "/trigger/17" no_body ∷ [])
    × (requests (Client.put_alert alert) http [] ≢ request put "/trigger/17" no_body ∷ [])
unfolding pz_workflow.Texts.replace_first
put-NotRouted_example =
    put-NotRouted 16 (route put "/trigger/:id" put_trigger) "17" http [] no_body flood event alert
      refl refl

delete_page-deleted_example :
    (Tools.delete_page_of_events 1000 0 http []
      ≡ (none, deleted "/event/" ("ev1" ∷ []) (listing "/event?perPage=" 1000 0 ∷ [])))
    × (Tools.delete_page_of_event_types 1000 0 http []
        ≡ (none, deleted "/eventType/" ("et1" ∷ []) (listing "/eventType?perPage=" 1000 0 ∷ [])))
    × (Tools.delete_page_of_triggers 1000 0 http []
        ≡ (some none, deleted "/trigger/" ("t1" ∷ []) (listing "/trigger?perPage=" 1000 0 ∷ [])))
unfolding Client.get_all_events Client.get_all_event_types Client.get_all_triggers
    pz_workflow.Client.Calls.exchange
delete_page-deleted_example =
    delete_page-deleted 1000 0 http [] (event ∷ []) (flood ∷ []) (trigger ∷ []) events event_types
      triggers
  where
    events : answer_of (Client.get_all_events 1000 0) http [] ≡ (some (event ∷ []), none)
    events = refl

    event_types : answer_of (Client.get_all_event_types 1000 0) http [] ≡ (some (flood ∷ []), none)
    event_types = refl

    triggers : answer_of (Client.get_all_triggers 1000 0) http [] ≡ (some (trigger ∷ []), none)
    triggers = refl

alerts_listed : answer_of (Client.get_all_alerts 1000 0) http [] ≡ (some (alert ∷ []), none)
unfolding Client.get_all_alerts pz_workflow.Client.Calls.exchange
alerts_listed = refl

delete_page_of_alerts-IsDeleted_example :
    IsDeleted
      (alert ∷ [])
      (listing "/alert?perPage=" 1000 0 ∷ [])
      (Tools.delete_page_of_alerts 1000 0 http [])
delete_page_of_alerts-IsDeleted_example =
    delete_page_of_alerts-IsDeleted 1000 0 http [] (alert ∷ []) alerts_listed

object-Answers_example :
    (let resp = http.answer (request get "/event/17" no_body) [] in
      Answers false
        (resp.status_code ≡ 200)
        resp.content
        (ok event)
        (answer_of (get_object (λ h. h.event) "/event/17") http []))
object-Answers_example = (object-Answers (λ h. h.event) "/event/17" http [] no_body).0

-- Of two goroutines the second ends first.
second_ended : Step (begun (0 ∷ 1 ∷ [])) (record { counter = 9; running = 0 ∷ [] })
second_ended = ended (0 ∷ []) [] 1 refl (omega arith) refl refl

round-Passes_example :
    ((t : Round) × Reach (begun (spawned 10 0 0 9)) t × Passes t) ↔ (length (spawned 10 0 0 9) ≡ 10)
round-Passes_example = round-Passes 0 9 (begun (spawned 10 0 0 9)) here

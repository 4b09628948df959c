-- ===== src/Tests/Answered.antt =====
-- The theorems on replies, on repeating events, on counters and on the client's view of the server, at examples.
use pz_workflow.Prelude.{ℕ, ◌≡◌, ◌↔◌, refl, ◌⊎◌, true, ◌<◌, ◌^◌, none, some, [], ◌∷◌, arith}
use pz_workflow.Backend.{ok}
use pz_workflow.Json.{null, boolean}
use pz_workflow.Service.Events.{post_repeating_event}
use pz_workflow.Service.Events.Repeating.{Ends, post_repeating_event-IsTried}
use pz_workflow.Exec.{World, requests, final, ◌>>=◌}
use pz_workflow.Exec.Wrote.{Runs}
use pz_workflow.Exec.Ticks.{event_type_count, counter, value}
use pz_workflow.Response.WellFormed.{IsWellFormed}
use pz_workflow.Server.{Context, handle, post_event_type, route, post}
use pz_workflow.Server.Replies.{handle-IsWellFormed}
use pz_workflow.Server.Serving.{Serves, started, handled}
use pz_workflow.Server.Counted.{Advances, created, asked, Serves-Advances}
use pz_workflow.Client.{post_object}
use pz_workflow.Client.Calls.{Http, event_type_body}
use pz_workflow.Client.Answers.{answer_of, request}
use pz_workflow.Client.Served.{posting, IsServed, ask_object-Served}
use pz_workflow.Tools.Cleaning.{Finishes, OneSucceeds, main-Finishes}
use pz_workflow.Tests.{context, dike, event, reply_of, world}
use pz_workflow.Tests.Clients.{http}

-- A request that posts the new type.
abbrev posting_dike : Context
posting_dike = record context { bound_event_type = ok dike }

abbrev posted : World
posted = final (handle post_event_type posting_dike world)

abbrev serves : Serves world posted
serves = handled started post_event_type posting_dike

counts_one : counter event_type_count posted ≡ 1
unfolding value handle pz_workflow.Service.EventTypes.post_event_type pz_workflow.Exec.recovered
    ◌>>=◌ pz_workflow.Db.Events.name_exists pz_workflow.Db.EventTypes.get_id_by_name
    pz_workflow.Service.EventTypes.tilde_name pz_workflow.Texts.contains
    pz_workflow.Db.EventTypes.post_data pz_workflow.Db.EventTypes.first_invalid
    pz_workflow.Db.Events.add_mapping pz_workflow.Db.Events.Schema.construct_event_mapping_schema
    pz_workflow.Unique.add_unique_params pz_workflow.Response.status_created
    pz_workflow.Model.incr_event_types pz_workflow.Model.incr_counter
counts_one = refl

below : counter event_type_count world < 2 ^ 64
unfolding value
below = omega arith

Serves-Advances_example :
    Advances
      (created event_type_count serves)
      (asked event_type_count serves)
      (counter event_type_count world)
      (counter event_type_count posted)
Serves-Advances_example = Serves-Advances event_type_count serves below

created_one : created event_type_count serves ≡ 1
unfolding created handle pz_workflow.Service.EventTypes.post_event_type pz_workflow.Exec.recovered
    ◌>>=◌ pz_workflow.Db.Events.name_exists pz_workflow.Db.EventTypes.get_id_by_name
    pz_workflow.Service.EventTypes.tilde_name pz_workflow.Texts.contains
    pz_workflow.Db.EventTypes.post_data pz_workflow.Db.EventTypes.first_invalid
    pz_workflow.Db.Events.add_mapping pz_workflow.Db.Events.Schema.construct_event_mapping_schema
    pz_workflow.Unique.add_unique_params pz_workflow.Response.status_created
created_one = refl

answers :
    Runs
      (handle post_event_type posting_dike)
      world
      (some (reply_of (handle post_event_type posting_dike world)))
      posted
unfolding handle pz_workflow.Service.EventTypes.post_event_type pz_workflow.Exec.recovered ◌>>=◌
    pz_workflow.Db.Events.name_exists pz_workflow.Db.EventTypes.get_id_by_name
    pz_workflow.Service.EventTypes.tilde_name pz_workflow.Texts.contains
    pz_workflow.Db.EventTypes.post_data pz_workflow.Db.EventTypes.first_invalid
    pz_workflow.Db.Events.add_mapping pz_workflow.Db.Events.Schema.construct_event_mapping_schema
    pz_workflow.Unique.add_unique_params pz_workflow.Response.status_created
answers = refl

handle-IsWellFormed_example :
    IsWellFormed 201 (reply_of (handle post_event_type posting_dike world))
handle-IsWellFormed_example =
    handle-IsWellFormed post_event_type posting_dike world posted _ answers

-- A server that answers with the status of that reply.
abbrev created_http : Http
created_http = record http {
  answer =
      λ sent past. record { status_code = 201; message = ""; content = boolean true; count = none };
}

served : IsServed (request post "/eventType" (event_type_body dike)) created_http []
unfolding handle pz_workflow.Service.EventTypes.post_event_type pz_workflow.Exec.recovered ◌>>=◌
    pz_workflow.Db.Events.name_exists pz_workflow.Db.EventTypes.get_id_by_name
    pz_workflow.Service.EventTypes.tilde_name pz_workflow.Texts.contains
    pz_workflow.Db.EventTypes.post_data pz_workflow.Db.EventTypes.first_invalid
    pz_workflow.Db.Events.add_mapping pz_workflow.Db.Events.Schema.construct_event_mapping_schema
    pz_workflow.Unique.add_unique_params pz_workflow.Response.status_created
served = record {
  i = 4;
  route = route post "/eventType" post_event_type;
  context = posting_dike;
  w = world;
  v = posted;
  resp = reply_of (handle post_event_type posting_dike world);
  in_table = refl;
  has_verb = refl;
  handled = answers;
  same_status = refl;
}

abbrev created_status : ℕ
created_status = 201

ask_object-Served_example :
    (answer_of (post_object (λ h. h.event_type) (event_type_body dike) "/eventType") created_http []
      ≡ (none, none))
    ↔ (((created_status ≡ 201) ⊎ (created_status ≡ 200)) × (boolean true ≡ null))
ask_object-Served_example =
    ask_object-Served (λ h. h.event_type) (event_type_body dike) "/eventType" created_http []
      posting served

main-Finishes_example :
    Finishes (some "no alerts" ∷ none ∷ some "no events" ∷ some "no types" ∷ [])
    ↔ OneSucceeds (some "no alerts" ∷ none ∷ some "no events" ∷ some "no types" ∷ [])
main-Finishes_example = main-Finishes (some "no alerts") none (some "no events") (some "no types")

repeats :
    Runs
      (post_repeating_event event)
      world
      (some (reply_of (post_repeating_event event world)))
      (final (post_repeating_event event world))
unfolding post_repeating_event ◌>>=◌ pz_workflow.Exec.recovered pz_workflow.Db.EventTypes.get_one
    pz_workflow.Db.Crons.post_data pz_workflow.Db.Events.post_data
    pz_workflow.Db.Events.Verify.verify_event_ready_to_post
    pz_workflow.Service.Lookup.get_event_type pz_workflow.Unique.remove_unique_params
    pz_workflow.Response.status_ok pz_workflow.Unique.add_unique_params
    pz_workflow.Response.status_created
repeats = refl

post_repeating_event-IsTried_example :
    Ends event world
      (final (post_repeating_event event world))
      (reply_of (post_repeating_event event world))
post_repeating_event-IsTried_example =
    post_repeating_event-IsTried event world _ (reply_of (post_repeating_event event world)) repeats

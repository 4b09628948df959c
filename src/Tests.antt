-- ===== src/Tests.antt =====
-- A small outside for runs: every document is there and decodes to one of the values below, every
-- request is granted, and the listings are empty.
pub mod Runs
pub mod Starts
pub mod Scripted
pub mod Served
pub mod Clients
pub mod Counted
pub mod Answered
pub mod Shelved
pub mod Program
pub mod Values
use pz_workflow.Prelude.{ℕ, String, ◌<>◌, true, false, not, ◌==◌, Option, none, some, [], ◌∷◌}
use pz_workflow.Json.{Json, Fields, null, text, obj, end, field}
use pz_workflow.Model.{
  Trigger, TriggerUpdate, Event, EventType, Alert, TestElasticsearchBody, JobRequest, JobType,
  Stats, no_data,
}
use pz_workflow.Backend.{
  Backend, ok, err, JsonPagination, IndexResponse, DeleteResponse, GetResult, SearchResult,
}
use pz_workflow.Exec.{World, Outcome, done}
use pz_workflow.Response.{JsonResponse}
use pz_workflow.Server.{Context}

abbrev pub flood : EventType
flood = record {
  event_type_id = "et1";
  name = "Flood";
  mapping = field "level" (text "integer") end;
  created_by = "ann";
  created_on = "";
}

-- A type of which no event was stored yet.
abbrev pub dike : EventType
dike = record flood { name = "Dike" }

abbrev pub measured : Fields
measured = field "Flood" (obj (field "level" (text "7") end)) end

abbrev pub event : Event
event = record {
  event_id = "ev1";
  event_type_id = "et1";
  payload = measured;
  created_by = "ann";
  created_on = "";
  cron_schedule = "@daily";
}

abbrev pub later_event : Event
later_event = record event { event_id = "ev2" }

abbrev pub job : JobRequest
job = record {
  created_by = "ann";
  job_type = record { job_data = field "serviceId" (text "s1") end; job_type = "execute-service" };
}

abbrev pub trigger : Trigger
trigger = record {
  trigger_id = "t1";
  name = "High water";
  event_type_id = "et1";
  condition = field "data.level" (text "7") end;
  job = job;
  percolation_id = "";
  created_by = "ann";
  created_on = "";
  enabled = true;
}

abbrev pub alert : Alert
alert = record {
  alert_id = "";
  trigger_id = "t1";
  event_id = "ev1";
  job_id = "j1";
  created_by = "ann";
  created_on = "";
}

abbrev format : JsonPagination
format = record { count = 0; page = 0; per_page = 10; sort_by = ""; order = "" }

abbrev answer : IndexResponse
answer = record { created = true; id = "p1" }

abbrev there : DeleteResponse
there = record { found = true }

abbrev no_hits : SearchResult
no_hits = record { total_hits = 0; hits = none; found = true }

abbrev document : GetResult
document = record { source = some "{}"; found = true }

abbrev pub backend : Backend
backend = record {
  index_exists = λ i h. (true, none);
  type_exists = λ i t h. (not (t == "Dike"), none);
  item_exists = λ i t id h. (true, none);
  get_types = λ i h. ("Flood" ∷ [], none);
  get_by_id = λ i t id h. (some document, none);
  filter_by_match_all = λ i t f h. (some no_hits, none);
  get_all_elements = λ i t h. (some no_hits, none);
  filter_by_term_query = λ i t k v f h. (some no_hits, none);
  search_by_json = λ i t q h. (some no_hits, none);
  percolate = λ t d h. (some [], none);
  get_version = λ i h. "2.2.0";
  created = λ i h. none;
  posted = λ i t id d h. (some answer, none);
  deleted = λ i t id h. (some there, none);
  mapping_set = λ i t s h. none;
  percolation_added = λ id q h. (some answer, none);
  percolation_deleted = λ id h. (some there, none);
  queue_address = λ h. ok "amqp://queue";
  dial = λ a h. none;
  channel = λ h. none;
  queue_declared = λ t h. ok t;
  published = λ k m h. none;
  job_added = λ s h. none;
  cron_parse = λ s. none;
  service_status = λ u h. ok 200;
  domain = λ h. "example.org";
  idam_url = λ h. ok "https://idam";
  request_access = λ u n h. ok true;
  new_ident = λ h. "id1";
  now = λ h. "now";
  schedule = λ ids h. ids;
  chosen = λ n h. 0;
  unmarshal_event_type = λ s. ok flood;
  unmarshal_event = λ s. ok event;
  unmarshal_trigger = λ s. ok trigger;
  unmarshal_alert = λ s. ok alert;
  unmarshal_test = λ s. err "no test";
  marshal_fields = λ m. ok "{}";
  marshal_job = λ j. ok "{}";
  trigger_to_json = λ t. ok (obj end);
  vars_from_struct = λ m. ok (("level", text "integer") ∷ []);
  vars_from_struct_skip = λ m s. ok (("level", text "7") ∷ []);
  is_valid_mapping_type = λ v. true;
  is_valid_array_type_mapping = λ v. false;
  value_is_valid_array = λ v. false;
  sprint = λ v. "7";
  show_event = λ e. e.event_id;
  go_syntax = λ v. "";
  type_of = λ v. "";
  struct_to_string = λ m. ok "{}";
  response_type = λ p. ok "event";
  new_pagination = λ p. ok format;
  get_as_string = λ p k d. ok d;
  get_as_id = λ p k d. ok d;
  sync_pagination = λ f q. ok (q, f);
  valid_uuid = λ s. true;
  parse_bool = λ s. ok false;
  space = "test";
}

abbrev pub no_stats : Stats
no_stats = record {
  created_on = "";
  num_event_types = 0;
  num_events = 0;
  num_triggers = 0;
  num_alerts = 0;
  num_triggered_jobs = 0;
}

abbrev pub world : World
world = record {
  backend = backend;
  history = record { calls = 0; requests = [] };
  stats = no_stats;
  origin = "workflow";
  loop_event = none;
}

-- The same outside, where no document can be stored.
abbrev pub full_disk : World
full_disk = record world {
  backend = record backend { posted = λ i t id d h. (none, some "disk full") };
}

-- The same outside, where nothing is found that is to be deleted.
abbrev pub deleted_before : World
deleted_before = record world {
  backend = record backend { deleted = λ i t id h. (some (record { found = false }), none) };
}

-- A request without id, parameters or body.
abbrev pub context : Context
context = record {
  id = "";
  params = [];
  body = err "EOF";
  bound_event_type = err "EOF";
  bound_event = err "EOF";
  bound_trigger = err "EOF";
  bound_update = err "EOF";
  bound_alert = err "EOF";
  bound_test = err "EOF";
}

-- The response that a run of a method gives; where it gives none, an empty one.
abbrev pub reply_of : Outcome (Option JsonResponse) → JsonResponse
reply_of (done (some resp) w) = resp
reply_of _ = record {
  status_code = 0;
  type_name = "";
  payload = no_data;
  pagination = none;
  message = "";
  origin = "";
}

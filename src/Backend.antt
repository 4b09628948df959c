-- ===== src/Backend.antt =====
-- What the service does not implement: the Elasticsearch indices, the message queue, the scheduler,
-- the other services, JSON coding, identifiers and time. All of it is one record of functions, a
-- parameter of every operation. An answer may depend on everything that was asked before: on the
-- number of calls made and on the requests that change something, newest first. So it covers any
-- behaviour of the outside, other clients' included.
use pz_workflow.Prelude.{ℕ, String, Bool, Option, List}
use pz_workflow.Json.{Json, Fields}
use pz_workflow.Model.{
  Ident, TimeStamp, JobRequest, Trigger, Event, EventType, Alert, TestElasticsearchBody, Payload,
}

-- The six indices of `Service.Init`.
pub data Index : Type 0 where
  event_types events triggers alerts crons test_elasticsearch : Index

-- A text or an error message, as the library functions return a value and an `error`.
pub data Result {ℓ} (A : Type ℓ) : Type ℓ where
  ok : A → Result A
  err : String → Result A

-- An `error`, nil being `none`.
abbrev pub Error : Type 0
Error = Option String

pub data Document : Type 0 where
  event_type_doc : EventType → Document
  event_doc : Event → Document
  trigger_doc : Trigger → Document
  alert_doc : Alert → Document
  test_doc : TestElasticsearchBody → Document
  json_doc : Json → Document

pub record IndexResponse : Type 0 where
  pub created : Bool
  pub id : String

pub record DeleteResponse : Type 0 where
  pub found : Bool

-- The raw JSON is a pointer, which may be nil.
pub record GetResult : Type 0 where
  pub source : Option String
  pub found : Bool

pub record SearchResult : Type 0 where
  pub total_hits : ℕ
  pub hits : Option (List (Option String))
  pub found : Bool

pub record JsonPagination : Type 0 where
  pub count : ℕ
  pub page : ℕ
  pub per_page : ℕ
  pub sort_by : String
  pub order : String

abbrev pub HttpQueryParams : Type 0
HttpQueryParams = List (String × String)

-- The `*Event` of a job: an event of its own, or the variable of the loop in `Service.InitCron`, whose
-- address every round of that loop takes.
pub data EventRef : Type 0 where
  own : Event → EventRef
  loop_variable : EventRef

-- A job of the scheduler: the event that it posts, and the name of its type.
pub record CronEvent : Type 0 where
  pub event : EventRef
  pub event_type_name : String

-- The calls that ask the outside to change something.
pub data Request : Type 0 where
  create : Index → Request
  post : Index → String → String → Document → Request
  put : Index → String → String → Document → Request
  delete : Index → String → String → Request
  set_mapping : Index → String → String → Request
  add_percolation_query : String → String → Request
  delete_percolation_query : String → Request
  declare_queue : String → Request
  publish : String → String → Request
  add_job : String → CronEvent → Request
  remove_job : String → Request
  start_cron : Request
  drop_index : Index → Request

pub record History : Type 0 where
  pub calls : ℕ
  pub requests : List Request

pub record Backend : Type 0 where
  pub index_exists : Index → History → Bool × Error
  pub type_exists : Index → String → History → Bool × Error
  pub item_exists : Index → String → String → History → Bool × Error
  pub get_types : Index → History → List String × Error
  pub get_by_id : Index → String → String → History → Option GetResult × Error
  pub filter_by_match_all : Index → String → JsonPagination → History → Option SearchResult × Error
  pub get_all_elements : Index → String → History → Option SearchResult × Error
  pub filter_by_term_query :
      Index
      → String
      → String
      → String
      → Option JsonPagination
      → History
      → Option SearchResult × Error
  pub search_by_json : Index → String → String → History → Option SearchResult × Error
  pub percolate : String → Json → History → Option (List String) × Error
  pub get_version : Index → History → String
  pub created : Index → History → Error
  pub posted : Index → String → String → Document → History → Option IndexResponse × Error
  pub deleted : Index → String → String → History → Option DeleteResponse × Error
  pub mapping_set : Index → String → String → History → Error
  pub percolation_added : String → String → History → Option IndexResponse × Error
  pub percolation_deleted : String → History → Option DeleteResponse × Error
  pub queue_address : History → Result String
  pub dial : String → History → Error
  pub channel : History → Error
  pub queue_declared : String → History → Result String
  pub published : String → String → History → Error
  pub job_added : String → History → Error
  pub cron_parse : String → Error
  pub service_status : String → History → Result ℕ
  pub domain : History → String
  pub idam_url : History → Result String
  pub request_access : String → String → History → Result Bool
  pub new_ident : History → Ident
  pub now : History → TimeStamp
  pub schedule : List Ident → History → List Ident
  pub chosen : ℕ → History → ℕ
  pub unmarshal_event_type : String → Result EventType
  pub unmarshal_event : String → Result Event
  pub unmarshal_trigger : String → Result Trigger
  pub unmarshal_alert : String → Result Alert
  pub unmarshal_test : String → Result TestElasticsearchBody
  pub marshal_fields : Fields → Result String
  pub marshal_job : JobRequest → Result String
  pub trigger_to_json : Trigger → Result Json
  pub vars_from_struct : Fields → Result (List (String × Json))
  pub vars_from_struct_skip : Fields → List String → Result (List (String × Json))
  pub is_valid_mapping_type : Json → Bool
  pub is_valid_array_type_mapping : Json → Bool
  pub value_is_valid_array : Json → Bool
  pub sprint : Json → String
  pub show_event : Event → String
  pub go_syntax : Json → String
  pub type_of : Json → String
  pub struct_to_string : Fields → Result String
  pub response_type : Payload → Result String
  pub new_pagination : HttpQueryParams → Result JsonPagination
  pub get_as_string : HttpQueryParams → String → String → Result String
  pub get_as_id : HttpQueryParams → String → String → Result Ident
  pub sync_pagination : JsonPagination → String → Result (String × JsonPagination)
  pub valid_uuid : String → Bool
  pub parse_bool : String → Result Bool
  pub space : String

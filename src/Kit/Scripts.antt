-- ===== src/Kit/Scripts.antt =====
-- `Kit.makeIndices` of workflow/Kit.go: each index is made by the scripts whose names fit it.
pub mod Names
pub mod Runs
pub mod Passed
pub mod Indices
use Prim.Native.Char.{Char, code}
use pz_workflow.Prelude.{
  ℕ, String, ◌<>◌, Bool, true, false, ◌&&◌, not, Option, none, some, List, [], ◌∷◌, ◌==◌, leb,
  nat_eq, is_empty, if◌then◌else◌,
}
use pz_workflow.Json.{
  Json, Items, Fields, null, boolean, number, text, arr, obj, nil, cons, end, field, find,
}
use pz_workflow.Model.{
  event_type_db_mapping, event_db_mapping, trigger_db_mapping, alert_db_mapping, cron_db_mapping,
}
use pz_workflow.Backend.{
  Result, ok, err, Error, Index, event_types, events, triggers, alerts, crons, test_elasticsearch,
}
use pz_workflow.Service.Stats.{test_elasticsearch_mapping}
use pz_workflow.Texts.{strip_prefix}

-- `keyToPattern`
abbrev pub key_to_pattern : Index → String
key_to_pattern event_types = "EventType"
key_to_pattern events = "Event"
key_to_pattern triggers = "Trigger"
key_to_pattern alerts = "Alert"
key_to_pattern crons = "Cron"
key_to_pattern test_elasticsearch = "TestES"

-- `keyToType`
abbrev pub key_to_type : Index → String
key_to_type event_types = event_type_db_mapping
key_to_type events = event_db_mapping
key_to_type triggers = trigger_db_mapping
key_to_type alerts = alert_db_mapping
key_to_type crons = cron_db_mapping
key_to_type test_elasticsearch = test_elasticsearch_mapping

abbrev is_digit : Char → Bool
is_digit c = leb 48 (code c) && leb (code c) 57

-- `.sh$`, where the dot stands for any character but a line's end.
unfoldable pub any_then_sh : String → Bool
any_then_sh String.[] = false
any_then_sh (String.◌∷◌ c s) = not (nat_eq (code c) 10) && s == "sh"

-- `^[0-9]{3}-`
unfoldable pub after_number : String → Option String
unfolding strip_prefix
after_number (String.◌∷◌ a (String.◌∷◌ b (String.◌∷◌ c s))) =
    if is_digit a && (is_digit b && is_digit c) then strip_prefix "-" s else none
after_number s = none

-- `^[0-9]{3}-%s.sh$`, for a pattern of letters.
unfoldable pub matches : String → String → Bool
unfolding after_number strip_prefix any_then_sh
matches pattern name = elim (after_number name) [
  | none ↦ false
  | some s ↦ elim (strip_prefix pattern s) [ none ↦ false | some rest ↦ any_then_sh rest ]
]

-- The scripts of an index, among the files in the order of `ReadDir`, which is that of `sort.Strings`.
unfoldable pub scripts_of : Index → List String → List String
unfolding matches
scripts_of index [] = []
scripts_of index (name ∷ names) =
    let rest = scripts_of index names in
    if matches (key_to_pattern index) name then name ∷ rest else rest

-- ===== src/Tools.antt =====
-- tools/main.go: the tool that deletes all objects, page by page, ten goroutines at a time.
pub mod Pages
pub mod Rounds
pub mod Waiting
pub mod Cleaning
pub mod Starting
use pz_workflow.Prelude.{
  ℕ, zero, suc, ◌+◌, ◌/◌, String, Bool, true, false, Option, none, some, List, [], ◌∷◌, ◌++◌,
  length, ltb, nat_eq, if◌then◌else◌,
}
use pz_workflow.Backend.{Error}
use pz_workflow.Model.{Ident, Alert, Event, EventType, Trigger}
use pz_workflow.Client.Calls.{Call, return, ◌>>=◌}
use pz_workflow.Client.{
  get_all_alerts, get_all_events, get_all_event_types, get_all_triggers, delete_alert, delete_event,
  delete_event_type, delete_trigger,
}

abbrev pub page_size : ℕ
page_size = 1000

abbrev pub max_threads : ℕ
max_threads = 10

-- `math.Ceil(float64(count) / float64(pageSize))`, which is exact for counts below 2 ^ 53.
abbrev pub num_pages : ℕ → ℕ
num_pages count = (count + 999) / page_size

-- The inner loop, `k` rounds from `j`: the pages that the goroutines of a round get. The test lets the
-- page `pages` itself through, which is one behind the last.
unfoldable pub spawned : ℕ → ℕ → ℕ → ℕ → List ℕ
spawned zero j i pages = []
spawned (suc k) j i pages = elim (ltb pages (i + j)) [
  | true ↦ []
  | false ↦ (i + j) ∷ spawned k (j + 1) i pages
]

-- `for i := 0; i < numPages; i += maxThreads`, from `i` on: the pages in the order in which goroutines
-- are started for them, or `none` where `wg.Wait()` never returns, since fewer than `maxThreads`
-- goroutines were started. The fuel bounds the rounds; more than `pages - i` is enough.
unfoldable pub visited : ℕ → ℕ → ℕ → Option (List ℕ)
unfolding spawned
visited zero i pages = none
visited (suc fuel) i pages = elim (ltb i pages) [
  | false ↦ some []
  | true ↦ elim (nat_eq (length (spawned max_threads 0 i pages)) max_threads) [
    | false ↦ none
    | true ↦ elim (visited fuel (i + max_threads) pages) [
      | none ↦ none
      | some rest ↦ some (spawned max_threads 0 i pages ++ rest)
    ]
  ]
]

-- `deleteAllObjects` on the answer of `getNumObjectsF`: its error and the pages, or `none` where it
-- never returns. The errors of the pages are lost.
unfoldable pub delete_all_objects : ℕ × Error → Option (Error × List ℕ)
unfolding visited
delete_all_objects (count, some e) = some (some e, [])
delete_all_objects (count, none) =
    if nat_eq count 0
    then some (none, [])
    else elim (visited (suc (num_pages count)) 0 (num_pages count)) [
      | none ↦ none
      | some pages ↦ some (none, pages)
    ]

abbrev contents {ℓ} : {A : Type ℓ} → Option (List A) → List A
contents none = []
contents (some list) = list

-- The loop of `deletePageOfAlerts`, which ends at the first error.
unfoldable pub delete_alerts : List Alert → Call Error
delete_alerts [] = return none
delete_alerts (alert ∷ alerts) = do
  failure ← delete_alert alert.alert_id
  elim failure [ some e ↦ return (some e) | none ↦ delete_alerts alerts ]

-- The loop of the other three, which go on after an error.
unfoldable pub delete_each {ℓ} : {A : Type ℓ} → (A → Call Error) → List A → Call Error
delete_each delete [] = return none
delete_each delete (a ∷ list) = do failure ← delete a; delete_each delete list

-- `if err != nil { return err }` after the page was asked for.
abbrev with_page {ℓ} : {A : Type ℓ} → Option (List A) × Error → (List A → Call Error) → Call Error
with_page (out, some e) loop = return (some e)
with_page (out, none) loop = loop (contents out)

unfoldable pub delete_page_of_alerts : ℕ → ℕ → Call Error
unfolding delete_alerts
delete_page_of_alerts per_page page = do
  alerts ← get_all_alerts per_page page
  with_page alerts delete_alerts

unfoldable pub delete_page_of_events : ℕ → ℕ → Call Error
unfolding delete_each
delete_page_of_events per_page page = do
  events ← get_all_events per_page page
  with_page events (delete_each λ event. delete_event event.event_id)

unfoldable pub delete_page_of_event_types : ℕ → ℕ → Call Error
unfolding delete_each
delete_page_of_event_types per_page page = do
  event_types ← get_all_event_types per_page page
  with_page event_types (delete_each λ event_type. delete_event_type event_type.event_type_id)

-- The same for a pointer that may be nil: `none` is the panic on `*triggers`, which ends the process.
abbrev pub with_pointer {ℓ} :
    {A : Type ℓ} → Option (List A) × Error → (List A → Call Error) → Call (Option Error)
with_pointer (out, some e) loop = return (some (some e))
with_pointer (none, none) loop = return none
with_pointer (some list, none) loop = do ended ← loop list; return (some ended)

unfoldable pub delete_page_of_triggers : ℕ → ℕ → Call (Option Error)
unfolding delete_each
delete_page_of_triggers per_page page = do
  triggers ← get_all_triggers per_page page
  with_pointer triggers (delete_each λ trigger. delete_trigger trigger.trigger_id)

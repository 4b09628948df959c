-- ===== src/Kit/Scripts/Indices.antt =====
-- `Kit.makeIndices` of workflow/Kit.go for its six indices, and what is known when it returns.
use pz_workflow.Prelude.{◌≡◌, ap, subst, String, ◌<>◌, Bool, false, not, List, is_empty}
use pz_workflow.Json.{Json}
use pz_workflow.Backend.{
  Result, ok, err, Index, event_types, events, triggers, alerts, crons, test_elasticsearch,
}
use pz_workflow.Kit.Scripts.{scripts_of}
use pz_workflow.Kit.Scripts.Runs.{ScriptRes, fatal_or, make_index}
use pz_workflow.Kit.Scripts.Passed.{AllPassed, make_index-AllPassed, fatal_or-ok}

-- The calls of `makeIndices` outside: the working directory, the address of Elasticsearch, the files of a
-- directory, the output of a script there, and those that `make_index` takes.
pub record Surroundings : Type 0 where
  pub getwd : Result String
  pub es_url : Result String
  pub read_dir : String → Result (List String)
  pub output : String → String → Index → String → Result String
  pub unmarshal : String → Result ScriptRes
  pub new_index : Index → Result (Unit {0})
  pub parse : String → Result Json
  pub get_mapping : Index → String → Result Json

-- The map that is made, by whether each key is in it.
abbrev entries : Bool → Bool → Bool → Bool → Bool → Bool → Index → Bool
entries a b c d e f event_types = a
entries a b c d e f events = b
entries a b c d e f triggers = c
entries a b c d e f alerts = d
entries a b c d e f crons = e
entries a b c d e f test_elasticsearch = f

-- The index of one key, in a directory with these files.
unfoldable pub make_one : Surroundings → String → String → List String → Index → Result Bool
make_one s pwd url files index =
    make_index (s.output pwd url) s.unmarshal s.new_index s.parse s.get_mapping index files

-- The six keys in one of the orders in which `range` may visit the map.
unfoldable pub make_indices : Surroundings → Result (Index → Bool)
unfolding make_one
make_indices s = fatal_or s.getwd λ pwd. fatal_or s.es_url λ url.
    fatal_or (s.read_dir (pwd <> "/db/")) λ files.
      fatal_or (make_one s pwd url files event_types) λ a.
        fatal_or (make_one s pwd url files events) λ b.
          fatal_or (make_one s pwd url files triggers) λ c.
            fatal_or (make_one s pwd url files alerts) λ d.
              fatal_or (make_one s pwd url files crons) λ e.
                fatal_or (make_one s pwd url files test_elasticsearch) λ f. ok (entries a b c d e f)

-- An index is in the map exactly if there is a script for it, and all its scripts have passed.
abbrev pub IsMade : Surroundings → String → String → List String → (Index → Bool) → Index → Type 0
IsMade s pwd url files made index =
    (made index ≡ not (is_empty (scripts_of index files)))
    × AllPassed (s.output pwd url) s.unmarshal s.new_index s.parse s.get_mapping index
        (scripts_of index files)

-- The directory was read, and each of the six indices was made so.
abbrev pub AreMade : Surroundings → (Index → Bool) → Type 0
AreMade s made =
    (pwd : String) × (url : String) × (files : List String) × (s.getwd ≡ ok pwd)
    × (s.es_url ≡ ok url)
    × (s.read_dir (pwd <> "/db/") ≡ ok files)
    × ((index : Index) → IsMade s pwd url files made index)

module _ (s : Surroundings) (pwd url : String) (files : List String) where
  one-IsMade :
      (made : Index → Bool) (index : Index)
      → make_one s pwd url files index ≡ ok (made index)
      → IsMade s pwd url files made index
  unfolding make_one
  one-IsMade made index h =
      make_index-AllPassed (s.output pwd url) s.unmarshal s.new_index s.parse s.get_mapping index
        files (made index) h

  all-IsMade :
      (a b c d e f : Bool)
      → make_one s pwd url files event_types ≡ ok a
      → make_one s pwd url files events ≡ ok b
      → make_one s pwd url files triggers ≡ ok c
      → make_one s pwd url files alerts ≡ ok d
      → make_one s pwd url files crons ≡ ok e
      → make_one s pwd url files test_elasticsearch ≡ ok f
      → (index : Index) → IsMade s pwd url files (entries a b c d e f) index
  all-IsMade a b c d e f ra rb rc rd re rf event_types =
      one-IsMade (entries a b c d e f) event_types ra
  all-IsMade a b c d e f ra rb rc rd re rf events = one-IsMade (entries a b c d e f) events rb
  all-IsMade a b c d e f ra rb rc rd re rf triggers = one-IsMade (entries a b c d e f) triggers rc
  all-IsMade a b c d e f ra rb rc rd re rf alerts = one-IsMade (entries a b c d e f) alerts rd
  all-IsMade a b c d e f ra rb rc rd re rf crons = one-IsMade (entries a b c d e f) crons re
  all-IsMade a b c d e f ra rb rc rd re rf test_elasticsearch =
      one-IsMade (entries a b c d e f) test_elasticsearch rf

abbrev map_of : Result (Index → Bool) → Index → Bool
map_of (ok made) index = made index
map_of (err e) index = false

pub make_indices-AreMade :
    (s : Surroundings) (made : Index → Bool) → make_indices s ≡ ok made → AreMade s made
unfolding make_indices
make_indices-AreMade s made h =
    let (pwd, p, h1) = fatal_or-ok s.getwd _ made h in
    let (url, u, h2) = fatal_or-ok s.es_url _ made h1 in
    let (files, r, h3) = fatal_or-ok (s.read_dir (pwd <> "/db/")) _ made h2 in
    let (a, ra, h4) = fatal_or-ok (make_one s pwd url files event_types) _ made h3 in
    let (b, rb, h5) = fatal_or-ok (make_one s pwd url files events) _ made h4 in
    let (c, rc, h6) = fatal_or-ok (make_one s pwd url files triggers) _ made h5 in
    let (d, rd, h7) = fatal_or-ok (make_one s pwd url files alerts) _ made h6 in
    let (e, re, h8) = fatal_or-ok (make_one s pwd url files crons) _ made h7 in
    let (f, rf, h9) = fatal_or-ok (make_one s pwd url files test_elasticsearch) _ made h8 in
    (
      pwd,
      url,
      files,
      p,
      u,
      r,
      subst (λ m. (index : Index) → IsMade s pwd url files m index) (ap map_of h9)
          (all-IsMade s pwd url files a b c d e f ra rb rc rd re rf),
    )

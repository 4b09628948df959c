-- ===== src/Kit/Scripts/Passed.antt =====
-- What the scripts of an index have done when none of them ended the process, workflow/Kit.go.
use pz_workflow.Prelude.{
  ◌≡◌, refl, ap, ◌∙◌, ◌⊎◌, inl, inr, eq_iff, String, Bool, true, false, ◌&&◌, not, List, [], ◌∷◌,
  ◌==◌, is_empty, if◌then◌else◌, arith,
}
use pz_workflow.Json.{Json, Fields, null, boolean, number, text, arr, obj}
use pz_workflow.Backend.{Result, ok, err, Index}
use pz_workflow.Kit.Scripts.{key_to_type, scripts_of}
use pz_workflow.Kit.Scripts.Runs.{
  ScriptRes, fatal_or, format, check_mapping, as_fields, deep_equal, run_script, run_scripts,
  make_index,
}

-- What a result without an error came from.
pub fatal_or-ok {ℓ κ} :
    {A : Type ℓ} {B : Type κ} (r : Result A) (f : A → Result B) (b : B)
    → fatal_or r f ≡ ok b
    → (a : A) × (r ≡ ok a) × (f a ≡ ok b)
fatal_or-ok (ok a) f b h = (a, refl, h)
fatal_or-ok (err e) f b h = absurd (ground arith)

as_fields-ok : (v : Json) (m : Fields) → as_fields v ≡ ok m → v ≡ obj m
as_fields-ok (obj n) m h = ground (arith, h)
as_fields-ok null m h = absurd (ground (arith, h))
as_fields-ok (boolean b) m h = absurd (ground (arith, h))
as_fields-ok (number s) m h = absurd (ground (arith, h))
as_fields-ok (text s) m h = absurd (ground (arith, h))
as_fields-ok (arr xs) m h = absurd (ground (arith, h))

-- The nil error.
abbrev no_failure : Result (Unit {0})
no_failure = ok tt

same_ok :
    (b : Bool) (message : String) → (if b then no_failure else err message) ≡ no_failure → b ≡ true
same_ok true message h = refl
same_ok false message h = absurd (ground (arith, h))

if_ok :
    (b : Bool) (message : String) (r : Result (Unit {0}))
    → (if not b then err message else r) ≡ ok tt
    → (b ≡ true) × (r ≡ ok tt)
if_ok true message r h = (refl, h)
if_ok false message r h = absurd (ground arith)

if_checked :
    (b : Bool) (r : Result (Unit {0}))
    → (if b then r else ok tt) ≡ ok tt
    → (b ≡ false) ⊎ (r ≡ ok tt)
if_checked true r h = inr h
if_checked false r h = inl refl

module _ (output : Index → String → Result String) (unmarshal : String → Result ScriptRes)
    (new_index : Index → Result (Unit {0})) (parse : String → Result Json)
    (get_mapping : Index → String → Result Json) (index : Index) where
  -- A mapping and the one that the index has for its type are the same object.
  abbrev pub IsLike : String → Type 0
  IsLike mapping =
      (script_map es_map : Fields) × (parse mapping ≡ ok (obj script_map))
      × (get_mapping index (key_to_type index) ≡ ok (obj es_map))
      × (deep_equal (obj script_map) (obj es_map) ≡ true)

  -- A script ran, reported success, and the index could be opened; the last script's mapping, if it has
  -- one, is that of the index.
  abbrev pub HasPassed : String → Bool → Type 0
  HasPassed script is_last =
      (out_dat : String) × (res : ScriptRes) × (output index script ≡ ok out_dat)
      × (unmarshal (format out_dat) ≡ ok res)
      × (res.status ≡ "success")
      × (new_index index ≡ ok tt)
      × ((not (res.mapping == "") && is_last ≡ false) ⊎ IsLike res.mapping)

  check_mapping-IsLike :
      (mapping : String)
      → check_mapping output unmarshal new_index parse get_mapping index mapping ≡ ok tt
      → IsLike mapping
  unfolding check_mapping
  check_mapping-IsLike mapping h =
      let (inter, e, h1) = fatal_or-ok (parse mapping) _ tt h in
      let (script_map, f, h2) = fatal_or-ok (as_fields inter) _ tt h1 in
      let (inter', g, h3) = fatal_or-ok (get_mapping index (key_to_type index)) _ tt h2 in
      let (es_map, k, h4) = fatal_or-ok (as_fields inter') _ tt h3 in
      (
        script_map,
        es_map,
        e ∙ ap ok (as_fields-ok inter script_map f),
        g ∙ ap ok (as_fields-ok inter' es_map k),
        same_ok _ _ h4,
      )

  compared :
      (passed : Bool) (mapping : String)
      → (passed ≡ false)
        ⊎ (check_mapping output unmarshal new_index parse get_mapping index mapping ≡ ok tt)
      → (passed ≡ false) ⊎ IsLike mapping
  compared passed mapping (inl h) = inl h
  compared passed mapping (inr h) = inr (check_mapping-IsLike mapping h)

  abbrev pub AllPassed : List String → Type 0
  AllPassed [] = Unit
  AllPassed (script ∷ scripts) = HasPassed script (is_empty scripts) × AllPassed scripts

  run_script-HasPassed :
      (script : String) (is_last : Bool)
      → run_script output unmarshal new_index parse get_mapping index script is_last ≡ ok tt
      → HasPassed script is_last
  unfolding run_script
  run_script-HasPassed script is_last h =
      let (out_dat, e, h1) = fatal_or-ok (output index script) _ tt h in
      let (res, f, h2) = fatal_or-ok (unmarshal (format out_dat)) _ tt h1 in
      let (status, h3) = if_ok (res.status == "success") _ _ h2 in
      let (made, g, h4) = fatal_or-ok (new_index index) _ tt h3 in
      (
        out_dat,
        res,
        e,
        f,
        (eq_iff res.status "success").0 status,
        g,
        compared _ _ (if_checked _ _ h4),
      )

  run_scripts-AllPassed :
      (scripts : List String) (made : Bool)
      → run_scripts output unmarshal new_index parse get_mapping index scripts ≡ ok made
      → (made ≡ not (is_empty scripts)) × AllPassed scripts
  unfolding run_scripts
  run_scripts-AllPassed [] made h = (ground arith, tt)
  run_scripts-AllPassed (script ∷ scripts) made h =
      let (passed, e, h1) =
        fatal_or-ok
          (run_script output unmarshal new_index parse get_mapping index script (is_empty scripts))
          _ made h in
      let (made', f, h2) =
        fatal_or-ok (run_scripts output unmarshal new_index parse get_mapping index scripts) _ made
          h1 in
      (
        ground arith,
        (
          run_script-HasPassed script (is_empty scripts) e,
          (run_scripts-AllPassed scripts made' f).1,
        ),
      )

  -- If making an index did not end the process, each script whose name fits it ran and reported success,
  -- the mapping of the last one, if it has one, is that of the index, and the index is in the map if and
  -- only if there was a script: an index without a script is missing.
  pub make_index-AllPassed :
      (files : List String) (made : Bool)
      → make_index output unmarshal new_index parse get_mapping index files ≡ ok made
      → (made ≡ not (is_empty (scripts_of index files))) × AllPassed (scripts_of index files)
  unfolding make_index
  make_index-AllPassed files made h = run_scripts-AllPassed (scripts_of index files) made h

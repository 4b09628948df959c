-- ===== src/Kit/Scripts/Runs.antt =====
-- The loop of `Kit.makeIndices` over the scripts of an index, workflow/Kit.go.
use Prim.Native.Char.{code}
use mathlib.Core.Option
use pz_workflow.Prelude.{
  ℕ, zero, suc, String, ◌<>◌, Bool, true, false, ◌&&◌, not, Option, none, some, List, [], ◌∷◌, ◌==◌,
  nat_eq, is_empty, if◌then◌else◌,
}
use pz_workflow.Json.{
  Json, Items, Fields, null, boolean, number, text, arr, obj, nil, cons, end, field, find,
}
use pz_workflow.Backend.{Result, ok, err, Index}
use pz_workflow.Texts.{strip_prefix}
use pz_workflow.Kit.Scripts.{key_to_type, scripts_of}

abbrev starts : List ℕ → String → Bool
starts [] s = true
starts (n ∷ ns) String.[] = false
starts (n ∷ ns) (String.◌∷◌ c s) = nat_eq (code c) n && starts ns s

-- How much `\r?\n?\t` takes from the front.
abbrev tab_length : String → ℕ
tab_length s =
    if starts (13 ∷ 10 ∷ 9 ∷ []) s
    then 3
    else if starts (13 ∷ 9 ∷ []) s
    then 2
    else if starts (10 ∷ 9 ∷ []) s
    then 2
    else if starts (9 ∷ []) s
    then 1
    else 0

-- `re.ReplaceAllString(s, "")`, after `n` characters of a match.
unfoldable pub without_tabs : ℕ → String → String
without_tabs n String.[] = String.[]
without_tabs (suc n) (String.◌∷◌ c s) = without_tabs n s
without_tabs zero (String.◌∷◌ c s) = elim (tab_length (String.◌∷◌ c s)) [
  | zero ↦ String.◌∷◌ c (without_tabs zero s)
  | suc n ↦ without_tabs n s
]

-- The byte order mark.
abbrev without_mark : String → String
without_mark String.[] = String.[]
without_mark (String.◌∷◌ c s) = if nat_eq (code c) 65279 then s else String.◌∷◌ c s

-- The last part of `strings.SplitN(s, sep, 2)`.
unfoldable pub after_first : String → String → Option String
unfolding strip_prefix
after_first sep String.[] = none
after_first sep (String.◌∷◌ c s) = elim (strip_prefix sep (String.◌∷◌ c s)) [
  | some rest ↦ some rest
  | none ↦ after_first sep s
]

abbrev split_str : String
split_str = "{\"status\":"

unfoldable pub format : String → String
unfolding without_tabs after_first
format dat =
    split_str
    <> Option.get_or (after_first split_str (without_mark (without_tabs 0 dat)))
        (without_mark (without_tabs 0 dat))

-- `reflect.DeepEqual` for decoded JSON; a map has as many entries, in whatever order;
-- numbers are compared as they are printed.
abbrev num_entries : Fields → ℕ
num_entries end = 0
num_entries (field k v m) = suc (num_entries m)

abbrev mutual
  pub deep_equal : Json → Json → Bool
  deep_equal null null = true
  deep_equal (boolean true) (boolean b) = b
  deep_equal (boolean false) (boolean b) = not b
  deep_equal (number s) (number t) = s == t
  deep_equal (text s) (text t) = s == t
  deep_equal (arr xs) (arr ys) = equal_items xs ys
  deep_equal (obj m) (obj n) = nat_eq (num_entries m) (num_entries n) && equal_fields m n
  deep_equal _ _ = false

  equal_items : Items → Items → Bool
  equal_items nil nil = true
  equal_items (cons v xs) (cons u ys) = deep_equal v u && equal_items xs ys
  equal_items _ _ = false

  equal_fields : Fields → Fields → Bool
  equal_fields end n = true
  equal_fields (field k v m) n =
      elim (find k n) [ none ↦ false | some u ↦ deep_equal v u ] && equal_fields m n

pub record ScriptRes : Type 0 where
  pub status : String
  pub message : String
  pub mapping : String

-- The rest, unless there was an error, which ends the process: `log.Fatal`.
abbrev pub fatal_or {ℓ κ} : {A : Type ℓ} {B : Type κ} → Result A → (A → Result B) → Result B
fatal_or (ok a) rest = rest a
fatal_or (err e) rest = err e

-- `inter.(map[string]interface{})`
abbrev pub as_fields : Json → Result Fields
as_fields (obj m) = ok m
as_fields v = err "is not type map[string]interface{}"

-- The script's output, its decoding, and the calls on the index.
module _ (output : Index → String → Result String) (unmarshal : String → Result ScriptRes)
    (new_index : Index → Result (Unit {0})) (parse : String → Result Json)
    (get_mapping : Index → String → Result Json) where
  -- The comparison of the mapping that the script knows with the one in the index.
  unfoldable pub check_mapping : Index → String → Result (Unit {0})
  check_mapping index mapping = fatal_or (parse mapping) λ inter.
      fatal_or (as_fields inter) λ script_map.
        fatal_or (get_mapping index (key_to_type index)) λ inter'.
          fatal_or (as_fields inter') λ es_map.
            if deep_equal (obj script_map) (obj es_map)
            then ok tt
            else err "does not match the mapping provided"

  -- One script; its mapping is compared only where it is the last one.
  unfoldable pub run_script : Index → String → Bool → Result (Unit {0})
  unfolding format check_mapping
  run_script index script is_last = fatal_or (output index script) λ out_dat.
      fatal_or (unmarshal (format out_dat)) λ res.
        if not (res.status == "success")
        then err ("Script failed: [" <> res.message <> "]")
        else fatal_or (new_index index) λ made.
          if not (res.mapping == "") && is_last then check_mapping index res.mapping else ok tt

  -- Whether the index is in the map in the end.
  unfoldable pub run_scripts : Index → List String → Result Bool
  unfolding run_script
  run_scripts index [] = ok false
  run_scripts index (script ∷ scripts) =
      fatal_or (run_script index script (is_empty scripts))
        λ passed. fatal_or (run_scripts index scripts) λ made. ok true

  -- The scripts of an index, among the files in db/.
  unfoldable pub make_index : Index → List String → Result Bool
  unfolding run_scripts scripts_of
  make_index index files = run_scripts index (scripts_of index files)

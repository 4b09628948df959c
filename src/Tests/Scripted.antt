-- ===== src/Tests/Scripted.antt =====
-- The theorems on the scripts that make the indices, at examples.
use pz_workflow.Prelude.{◌≡◌, refl, true, String, List, [], ◌∷◌}
use pz_workflow.Json.{Json, obj, text, field, end}
use pz_workflow.Backend.{Result, ok, Index, events}
use pz_workflow.Kit.Scripts.{key_to_pattern, matches, scripts_of}
use pz_workflow.Kit.Scripts.Names.{matches_unique}
use pz_workflow.Kit.Scripts.Runs.{ScriptRes, make_index}
use pz_workflow.Kit.Scripts.Passed.{AllPassed, make_index-AllPassed}

abbrev files : List String
files = "001-Event.sh" ∷ "001-EventType.sh" ∷ "README.md" ∷ []

abbrev printed : Index → String → Result String
printed index script = ok "{\"status\":\"success\"}"

abbrev success : String → Result ScriptRes
success s = ok (record { status = "success"; message = ""; mapping = "{\"dynamic\":\"strict\"}" })

abbrev opened : Index → Result (Unit {0})
opened index = ok tt

-- The mapping of the script, decoded, and the mapping of the index.
abbrev strict : Json
strict = obj (field "dynamic" (text "strict") end)

abbrev parsed : String → Result Json
parsed s = ok strict

abbrev held : Index → String → Result Json
held index typ = ok strict

fits : matches (key_to_pattern events) "001-Event.sh" ≡ true
unfolding matches
fits = refl

matches_unique_example : events ≡ events
matches_unique_example = matches_unique events events "001-Event.sh" fits fits

makes : make_index printed success opened parsed held events files ≡ ok true
unfolding make_index pz_workflow.Json.find
makes = refl

make_index-AllPassed_example :
    (true ≡ true) × AllPassed printed success opened parsed held events (scripts_of events files)
unfolding scripts_of
make_index-AllPassed_example =
    make_index-AllPassed printed success opened parsed held events files true makes

-- ===== src/Db/Conditions/Paths.antt =====
-- The functions on the keys of conditions, workflow/TriggerDB.go and `Service.PostTrigger`: `strings.Index`
-- and slicing are walked by characters, which for the ASCII separators is the same as by bytes.
pub mod Laws
use Prim.Native.Char.{Char}
use pz_workflow.Prelude.{String, ◌<>◌, if◌then◌else◌}
use pz_workflow.Texts.{char_eq, replace_char, replace_first}

abbrev pub dot : Char
dot = "."

abbrev pub tilde : Char
tilde = "~"

unfoldable pub dot_to_tilde : String → String
unfolding replace_char
dot_to_tilde = replace_char dot tilde

unfoldable pub tilde_to_dot : String → String
unfolding replace_char
tilde_to_dot = replace_char tilde dot

-- What is put before a cut text: to its first part, or to its rest where there was no dot.
abbrev before : Char → String → String × String → String × String
before c s (String.[], rest) = (String.[], String.◌∷◌ c s)
before c s (String.◌∷◌ d part, rest) = (String.◌∷◌ c (String.◌∷◌ d part), rest)

-- A text up to and with its first dot, and the rest; without a dot all of it is the rest.
unfoldable pub cut_dot : String → String × String
cut_dot String.[] = (String.[], String.[])
cut_dot (String.◌∷◌ c s) =
    if char_eq c dot then (String.◌∷◌ c String.[], s) else before c s (cut_dot s)

-- `getKey` of `decodeCondition`: the second level of a path is left out.
unfoldable pub strip_level : String → String
unfolding cut_dot
strip_level key =
    let (first_part, rest) = cut_dot key in let (second, last) = cut_dot rest in first_part <> last

-- `getKey` of `Service.PostTrigger`.
unfoldable pub insert_level : String → String → String
unfolding replace_first
insert_level event_type_name key = replace_first "data." ("data." <> event_type_name <> ".") key

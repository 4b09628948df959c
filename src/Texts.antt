-- ===== src/Texts.antt =====
-- The functions of Go's `strings` that the service uses, walked by characters; for the ASCII texts
-- that it looks for this is the same as by bytes.
use Prim.Native.Char.{Char, code}
use pz_workflow.Prelude.{
  ℕ, zero, suc, ◌/◌, ◌%◌, ltb, String, Bool, true, false, Option, none, some, List, [], ◌∷◌, nat_eq,
  ◌<>◌, ◌==◌, ◌||◌, if◌then◌else◌,
}

abbrev pub char_eq : Char → Char → Bool
char_eq c d = nat_eq (code c) (code d)

-- `strings.Replace(in, from, to, -1)` for texts of one character.
unfoldable pub replace_char : Char → Char → String → String
replace_char from to String.[] = String.[]
replace_char from to (String.◌∷◌ c s) =
    String.◌∷◌ (if char_eq c from then to else c) (replace_char from to s)

-- What follows a prefix, if it is there.
unfoldable pub strip_prefix : String → String → Option String
strip_prefix String.[] s = some s
strip_prefix (String.◌∷◌ c p) String.[] = none
strip_prefix (String.◌∷◌ c p) (String.◌∷◌ d s) = if char_eq c d then strip_prefix p s else none

-- `strings.Replace(s, old, new, 1)`: the first place where `old`, which is not empty, stands.
unfoldable pub replace_first : String → String → String → String
unfolding strip_prefix
replace_first old new String.[] = String.[]
replace_first old new (String.◌∷◌ c s) = elim (strip_prefix old (String.◌∷◌ c s)) [
  | some rest ↦ new <> rest
  | none ↦ String.◌∷◌ c (replace_first old new s)
]

-- `strings.Replace(s, old, new, -1)`: after a place that was replaced the search goes on behind it.
-- The fuel bounds the rounds; one for each character and one more is enough.
unfoldable pub replace_all : ℕ → String → String → String → String
unfolding strip_prefix
replace_all zero old new s = s
replace_all (suc fuel) old new String.[] = String.[]
replace_all (suc fuel) old new (String.◌∷◌ c s) = elim (strip_prefix old (String.◌∷◌ c s)) [
  | some rest ↦ new <> replace_all fuel old new rest
  | none ↦ String.◌∷◌ c (replace_all fuel old new s)
]

-- `strings.Contains(s, needle)` for a needle that is not empty.
unfoldable pub contains : String → String → Bool
unfolding strip_prefix
contains String.[] needle = false
contains (String.◌∷◌ c s) needle = elim (strip_prefix needle (String.◌∷◌ c s)) [
  | some rest ↦ true
  | none ↦ contains s needle
]

-- `strings.HasSuffix(s, suffix)`
unfoldable pub has_suffix : String → String → Bool
has_suffix String.[] suffix = suffix == String.[]
has_suffix (String.◌∷◌ c s) suffix = String.◌∷◌ c s == suffix || has_suffix s suffix

-- `fmt.Sprintf("%s", names)` for a slice of texts.
abbrev spaced : List String → String
spaced [] = "]"
spaced (name ∷ names) = " " <> name <> spaced names

unfoldable pub show_names : List String → String
show_names [] = "[]"
show_names (name ∷ names) = "[" <> name <> spaced names

abbrev digit : ℕ → Char
digit n =
    if nat_eq n 0
    then "0"
    else if nat_eq n 1
    then "1"
    else if nat_eq n 2
    then "2"
    else if nat_eq n 3
    then "3"
    else if nat_eq n 4
    then "4"
    else if nat_eq n 5
    then "5"
    else if nat_eq n 6
    then "6"
    else if nat_eq n 7
    then "7"
    else if nat_eq n 8
    then "8"
    else "9"

-- The decimal digits of a number in front of a text. Each round divides by ten, so one round more than
-- the number itself is enough fuel.
unfoldable pub digits : ℕ → ℕ → String → String
digits zero n s = s
digits (suc fuel) n s = elim (ltb n 10) [
  | true ↦ String.◌∷◌ (digit n) s
  | false ↦ digits fuel (n / 10) (String.◌∷◌ (digit (n % 10)) s)
]

-- `%d` for a number that is not negative.
unfoldable pub decimal : ℕ → String
unfolding digits
decimal n = digits (suc n) n String.[]

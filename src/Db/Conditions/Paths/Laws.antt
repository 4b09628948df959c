-- ===== src/Db/Conditions/Paths/Laws.antt =====
-- The functions on keys, workflow/TriggerDB.go and `Service.PostTrigger`, undo each other.
use Prim.Native.Char.{Char}
use text.Mathlib.TextEquality.{Char-path}
use text.Mathlib.TextLemmas.{cons-append, nil-append, append_assoc}
use pz_workflow.Prelude.{
  ◌≡◌, refl, none, subst, sym, Bool, true, false, ◌||◌, String, ◌<>◌, if◌then◌else◌, arith,
}
use pz_workflow.Texts.{char_eq, replace_char, replace_first, strip_prefix}
use pz_workflow.Db.Conditions.Paths.{
  dot, tilde, tilde_to_dot, before, cut_dot, strip_level, insert_level,
}

-- `c` stands in the text.
abbrev pub has_char : Char → String → Bool
has_char c String.[] = false
has_char c (String.◌∷◌ d s) = char_eq d c || has_char c s

char_eq-path : (c d : Char) → char_eq c d ≡ true → c ≡ d
char_eq-path c d h = Char-path c d (ground arith)

char_eq_refl : (c : Char) → char_eq c c ≡ true
char_eq_refl c = ground arith

pub or-left : (a b : Bool) → a || b ≡ false → a ≡ false
or-left a b h = ground arith

pub or-right : (a b : Bool) → a || b ≡ false → b ≡ false
or-right a b h = ground arith

pub replace_char_back :
    (c d : Char) (s : String) → has_char d s ≡ false → replace_char d c (replace_char c d s) ≡ s
unfolding replace_char
replace_char_back c d String.[] h = refl
replace_char_back c d (String.◌∷◌ x s) h = cc (
  one x (char_eq x c) refl (or-left (char_eq x d) (has_char d s) h),
  replace_char_back c d s (or-right (char_eq x d) (has_char d s) h),
)
  where
    one :
        (x : Char) (b : Bool)
        → char_eq x c ≡ b
        → char_eq x d ≡ false
        → (if char_eq (if char_eq x c then d else x) d then c else (if char_eq x c then d else x))
          ≡ x
    one x true e n = rw (e, char_eq_refl d) (sym (char_eq-path x c e))
    one x false e n = rw (e, n)

-- A text put before the dot stays before it: `s` is cut after a part that is not empty.
before-cons :
    (c d : Char) (p r : String)
    → before c r (String.◌∷◌ d p, r) ≡ (String.◌∷◌ c (String.◌∷◌ d p), r)
before-cons c d p r = refl

-- `before` where the first part ends in the dot.
before_end :
    (c : Char) (s name x : String) → before c s (name <> ".", x) ≡ (String.◌∷◌ c (name <> "."), x)
before_end c s String.[] x = rw (nil-append ".")
before_end c s (String.◌∷◌ d name) x = rw (cons-append d name ".")

cut_dot-append :
    (name x : String) → has_char dot name ≡ false → cut_dot (name <> "." <> x) ≡ (name <> ".", x)
unfolding cut_dot
cut_dot-append String.[] x h =
    rw (nil-append ("." <> x), nil-append ".", cons-append dot "" x, nil-append x)
cut_dot-append (String.◌∷◌ c name) x h = rw (
  cons-append c name ("." <> x),
  cons-append c name ".",
  or-left (char_eq c dot) (has_char dot name) h,
  cut_dot-append name x (or-right (char_eq c dot) (has_char dot name) h),
  before_end c (name <> "." <> x) name x,
)

cut_dot-no_dot : (s : String) → has_char dot s ≡ false → cut_dot s ≡ ("", s)
unfolding cut_dot
cut_dot-no_dot String.[] h = refl
cut_dot-no_dot (String.◌∷◌ c s) h = rw (
  or-left (char_eq c dot) (has_char dot s) h,
  cut_dot-no_dot s (or-right (char_eq c dot) (has_char dot s) h),
)

-- A text with a dot is no prefix of one without.
strip_prefix-none :
    (p s : String) → has_char dot p ≡ true → has_char dot s ≡ false → strip_prefix p s ≡ none
unfolding strip_prefix
strip_prefix-none String.[] s h n = absurd (ground arith)
strip_prefix-none (String.◌∷◌ c p) String.[] h n = refl
strip_prefix-none (String.◌∷◌ c p) (String.◌∷◌ d s) h n = ground (arith, strip_prefix-none p s)

replace_first-no_dot : (new s : String) → has_char dot s ≡ false → replace_first "data." new s ≡ s
unfolding replace_first
replace_first-no_dot new String.[] h = refl
replace_first-no_dot new (String.◌∷◌ c s) h = rw (
  replace_first,
  strip_prefix-none "data." (String.◌∷◌ c s) refl h,
  replace_first-no_dot new s (or-right (char_eq c dot) (has_char dot s) h),
)

pub spelled :
    (x : String)
    → "data." <> x
      ≡ String.◌∷◌ "d" (String.◌∷◌ "a" (String.◌∷◌ "t" (String.◌∷◌ "a" (String.◌∷◌ "." x))))
spelled x = rw (
  cons-append "d" "ata." x,
  cons-append "a" "ta." x,
  cons-append "t" "a." x,
  cons-append "a" "." x,
  cons-append "." "" x,
  nil-append x,
)

replace_first-path : (new x : String) → replace_first "data." new ("data." <> x) ≡ new <> x
unfolding replace_first strip_prefix
replace_first-path new x = rw (spelled x)

cut_dot-data : (x : String) → cut_dot ("data." <> x) ≡ ("data.", x)
unfolding cut_dot
cut_dot-data x = rw (spelled x)

-- A path into the event's data.
pub strip_level-insert_level :
    (name x : String)
    → has_char dot name ≡ false
    → strip_level (insert_level name ("data." <> x)) ≡ "data." <> x
unfolding strip_level insert_level
strip_level-insert_level name x h = rw (
  replace_first-path ("data." <> name <> ".") x,
  append_assoc "data." (name <> ".") x,
  append_assoc name "." x,
  cut_dot-data (name <> "." <> x),
  cut_dot-append name x h,
)

-- A key without a dot is no path.
pub strip_level-no_dot :
    (name key : String) → has_char dot key ≡ false → strip_level (insert_level name key) ≡ key
unfolding strip_level insert_level
strip_level-no_dot name key h = rw (
  replace_first-no_dot ("data." <> name <> ".") key h,
  cut_dot-no_dot key h,
  cut_dot-no_dot key h,
  nil-append key,
)

-- What `PostTrigger` makes of the two kinds of keys.
pub insert_level-path :
    (name x : String) → insert_level name ("data." <> x) ≡ ("data." <> name <> ".") <> x
unfolding insert_level
insert_level-path name x = replace_first-path ("data." <> name <> ".") x

pub insert_level-no_dot :
    (name key : String) → has_char dot key ≡ false → insert_level name key ≡ key
unfolding insert_level
insert_level-no_dot name key h = replace_first-no_dot ("data." <> name <> ".") key h

has_char-append :
    (c : Char) (s t : String)
    → has_char c s ≡ false
    → has_char c t ≡ false
    → has_char c (s <> t) ≡ false
has_char-append c String.[] t h k = rw (nil-append t) k
has_char-append c (String.◌∷◌ d s) t h k = rw (
  cons-append d s t,
  or-left (char_eq d c) (has_char c s) h,
  has_char-append c s t (or-right (char_eq d c) (has_char c s) h) k,
)

-- The tilde does not come in with the name of the event type.
pub insert_level-no_tilde :
    (name x : String)
    → has_char tilde name ≡ false
    → has_char tilde ("data." <> x) ≡ false
    → has_char tilde (insert_level name ("data." <> x)) ≡ false
insert_level-no_tilde name x n h = rw (insert_level-path name x) (
    has_char-append tilde ("data." <> name <> ".") x
      (has_char-append tilde "data." (name <> ".") refl (has_char-append tilde name "." n refl))
      (subst (λ s. has_char tilde s ≡ false) (spelled x) h))

pub tilde_to_dot-same : (k : String) → has_char tilde k ≡ false → tilde_to_dot k ≡ k
unfolding tilde_to_dot replace_char
tilde_to_dot-same String.[] h = refl
tilde_to_dot-same (String.◌∷◌ c k) h = rw (
  or-left (char_eq c tilde) (has_char tilde k) h,
  tilde_to_dot-same k (or-right (char_eq c tilde) (has_char tilde k) h),
)

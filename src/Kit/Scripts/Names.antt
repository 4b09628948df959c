-- ===== src/Kit/Scripts/Names.antt =====
-- Which names fit an index, workflow/Kit.go.
use Prim.Native.Char.{Char}
use text.Mathlib.TextEquality.{Char-path}
use text.Mathlib.TextLemmas.{cons-append, nil-append}
use pz_workflow.Prelude.{
  ◌≡◌, refl, sym, ap, ◌∙◌, String, ◌<>◌, true, Option, none, some, Option-cases, ◌==◌, eq_iff,
  Bool-cases, and-right, ℕ, suc, ◌+◌, inl, inr, if◌then◌else◌, arith,
}
use pz_workflow.Texts.{strip_prefix, char_eq}
use pz_workflow.Backend.{Index, event_types, events, triggers, alerts, crons, test_elasticsearch}
use pz_workflow.Kit.Scripts.{key_to_pattern, any_then_sh, after_number, matches}

strip_prefix-append : (p s rest : String) → strip_prefix p s ≡ some rest → s ≡ p <> rest
unfolding strip_prefix
strip_prefix-append String.[] s rest h = let e : s ≡ rest = ground arith in rw (nil-append rest) e
strip_prefix-append (String.◌∷◌ c p) String.[] rest h = absurd (ground arith)
strip_prefix-append (String.◌∷◌ c p) (String.◌∷◌ d s) rest h = elim (Bool-cases (char_eq c d)) [
  | inl e ↦
      let ih = strip_prefix-append p s rest (ground (arith, h, e)) in
      let same : c ≡ d = Char-path c d (ground arith) in cc (cons-append c p rest, ih, same)
  | inr e ↦ absurd (ground (arith, h, e))
]

-- A name's end.
any_then_sh-cons :
    (rest : String) → any_then_sh rest ≡ true → (c : Char) × (rest ≡ String.◌∷◌ c "sh")
unfolding any_then_sh
any_then_sh-cons String.[] h = absurd (ground arith)
any_then_sh-cons (String.◌∷◌ c s) h =
    let e : s ≡ "sh" = (eq_iff s "sh").0 (and-right _ _ h) in (c, ap (λ t. String.◌∷◌ c t) e)

tail : String → String
tail String.[] = String.[]
tail (String.◌∷◌ c s) = s

head : Char → String → Char
head c String.[] = c
head c (String.◌∷◌ d s) = d

size : String → ℕ
size String.[] = 0
size (String.◌∷◌ c s) = suc (size s)

size-append : (s t : String) → size (s <> t) ≡ size s + size t
unfolding size
size-append String.[] t = rw (nil-append t) (omega arith)
size-append (String.◌∷◌ c s) t = rw (cons-append c s t) (omega (arith, size-append s t))

append-sh : (p q : String) (c d : Char) → p <> String.◌∷◌ c "sh" ≡ q <> String.◌∷◌ d "sh" → p ≡ q
unfolding head tail size
append-sh String.[] String.[] c d h = refl
append-sh String.[] (String.◌∷◌ x q) c d h = absurd (
    omega (
      arith,
      ap size h,
      size-append "" (String.◌∷◌ c "sh"),
      size-append (String.◌∷◌ x q) (String.◌∷◌ d "sh"),
    ))
append-sh (String.◌∷◌ x p) String.[] c d h = absurd (
    omega (
      arith,
      ap size h,
      size-append "" (String.◌∷◌ d "sh"),
      size-append (String.◌∷◌ x p) (String.◌∷◌ c "sh"),
    ))
append-sh (String.◌∷◌ x p) (String.◌∷◌ y q) c d h =
    let h' = sym (cons-append x p (String.◌∷◌ c "sh")) ∙ h ∙ cons-append y q (String.◌∷◌ d "sh") in
    cc (append-sh p q c d (ap tail h'), ap (head x) h')

-- What stands between the number and the end of a name that fits.
matches-parts :
    (pattern name : String)
    → matches pattern name ≡ true
    → (s : String) × (c : Char) × (after_number name ≡ some s) × (s ≡ pattern <> String.◌∷◌ c "sh")
unfolding matches
matches-parts pattern name h = elim (Option-cases (after_number name)) [
  | inl e ↦ absurd (ground (arith, h, e))
  | inr (s, e) ↦ elim (Option-cases (strip_prefix pattern s)) [
    | inl f ↦ absurd (ground (arith, h, e, f))
    | inr (rest, f) ↦
        let (c, g) = any_then_sh-cons rest (ground (arith, h, e, f)) in
        (s, c, e, strip_prefix-append pattern s rest f ∙ ap (λ r. pattern <> r) g)
  ]
]

matches-same : (p q name : String) → matches p name ≡ true → matches q name ≡ true → p ≡ q
matches-same p q name h k =
    let (s, c, e, f) = matches-parts p name h in
    let (t, d, e', f') = matches-parts q name k in append-sh p q c d (ground (arith, e, e', f, f'))

index_of : String → Option Index
index_of pattern =
    if pattern == "EventType"
    then some event_types
    else if pattern == "Event"
    then some events
    else if pattern == "Trigger"
    then some triggers
    else if pattern == "Alert"
    then some alerts
    else if pattern == "Cron"
    then some crons
    else if pattern == "TestES"
    then some test_elasticsearch
    else none

index_of-key : (i : Index) → index_of (key_to_pattern i) ≡ some i
unfolding index_of
index_of-key event_types = refl
index_of-key events = refl
index_of-key triggers = refl
index_of-key alerts = refl
index_of-key crons = refl
index_of-key test_elasticsearch = refl

-- No file is a script of two indices.
pub matches_unique :
    (i j : Index) (name : String)
    → matches (key_to_pattern i) name ≡ true
    → matches (key_to_pattern j) name ≡ true
    → i ≡ j
matches_unique i j name h k =
    let e = ap index_of (matches-same (key_to_pattern i) (key_to_pattern j) name h k) in
    let e' = sym (index_of-key i) ∙ e ∙ index_of-key j in ground (arith, e')

-- ===== src/Db/Conditions/RoundTrip.antt =====
-- A trigger's condition, from `Service.PostTrigger` through `TriggerDB.PostData` and back through
-- `TriggerDB.GetOne`.
use pz_workflow.Prelude.{◌≡◌, refl, sym, ap, ◌∙◌, subst, ◌⊎◌, inl, inr, false, String, ◌<>◌}
use pz_workflow.Json.{
  Json, Items, Fields, null, boolean, number, text, arr, obj, nil, cons, end, field,
}
use pz_workflow.Db.Conditions.{
  rewrite, rewrite_arr, rewrite_map, leaf_key, handle_dot_tilde_map, handle_unique_params_map,
  encode_condition, decode_condition,
}
use pz_workflow.Db.Conditions.Paths.{
  dot, tilde, dot_to_tilde, tilde_to_dot, strip_level, insert_level,
}
use pz_workflow.Db.Conditions.Paths.Laws.{
  has_char, replace_char_back, tilde_to_dot-same, strip_level-insert_level, strip_level-no_dot,
  insert_level-no_tilde, insert_level-no_dot,
}
use pz_workflow.Db.Conditions.Undo.{
  Keyed, KeyedArr, KeyedMap, has-rewrite_map, rewrite_map-field, rewrite_map-undo,
}

-- What holds of each key alone goes over to another property of the keys.
module _ {P Q : Json → String → Type 0} (to : (v : Json) (k : String) → P v k → Q v k) where
  mutual
    Keyed-to : (v : Json) → Keyed P v → Keyed Q v
    Keyed-to null u = tt
    Keyed-to (boolean b) u = tt
    Keyed-to (number n) u = tt
    Keyed-to (text s) u = tt
    Keyed-to (arr xs) u = KeyedArr-to xs u
    Keyed-to (obj m) u = KeyedMap-to m u

    KeyedArr-to : (xs : Items) → KeyedArr P xs → KeyedArr Q xs
    KeyedArr-to nil u = tt
    KeyedArr-to (cons x xs) u = (Keyed-to x u.0, KeyedArr-to xs u.1)

    KeyedMap-to : (m : Fields) → KeyedMap P m → KeyedMap Q m
    KeyedMap-to end u = tt
    KeyedMap-to (field k v m) u = (to v k u.0, u.1, Keyed-to v u.2, KeyedMap-to m u.3)

-- The new keys of a rewriting that can be undone.
module _ (f : Json → String → String) (h : String → String) (Q : String → Type 0)
    (P : Json → String → Type 0) (back : (v : Json) (k : String) → P v k → h (f v k) ≡ k)
    (new : (v : Json) (k : String) → P v k → Q (f v k)) where
  mutual
    unfolding rewrite

    Keyed-rewrite : (v : Json) → Keyed P v → Keyed (λ w k. Q k) (rewrite f v)
    Keyed-rewrite null u = tt
    Keyed-rewrite (boolean b) u = tt
    Keyed-rewrite (number n) u = tt
    Keyed-rewrite (text s) u = tt
    Keyed-rewrite (arr xs) u = KeyedArr-rewrite_arr xs u
    Keyed-rewrite (obj m) u = KeyedMap-rewrite m u

    KeyedArr-rewrite_arr : (xs : Items) → KeyedArr P xs → KeyedArr (λ w k. Q k) (rewrite_arr f xs)
    KeyedArr-rewrite_arr nil u = tt
    KeyedArr-rewrite_arr (cons x xs) u = (Keyed-rewrite x u.0, KeyedArr-rewrite_arr xs u.1)

    KeyedMap-rewrite : (m : Fields) → KeyedMap P m → KeyedMap (λ w k. Q k) (rewrite_map f m)
    KeyedMap-rewrite end u = tt
    KeyedMap-rewrite (field k v m) u =
        subst (λ t. KeyedMap (λ w j. Q j) t)
          (sym (rewrite_map-field f h k v m (KeyedMap-to back (field k v m) u)))
          (
            new v k u.0,
            has-rewrite_map f h (f v k) k m (back v k u.0) u.1 (KeyedMap-to back m u.3),
            Keyed-rewrite v u.2,
            KeyedMap-rewrite m u.3,
          )

  pub KeyedMap-rewrite_map : (m : Fields) → KeyedMap P m → KeyedMap (λ w k. Q k) (rewrite_map f m)
  KeyedMap-rewrite_map = KeyedMap-rewrite

-- A key of a condition: a path into the event's data, or a word of the query language, without dots;
-- and without the tilde, which the stored form uses.
abbrev pub IsKey : Json → String → Type 0
IsKey v k =
    (has_char tilde k ≡ false) × (((x : String) × (k ≡ "data." <> x)) ⊎ (has_char dot k ≡ false))

leaf_back :
    (v : Json) (k : String)
    → has_char tilde k ≡ false
    → tilde_to_dot (leaf_key dot_to_tilde v k) ≡ k
unfolding tilde_to_dot dot_to_tilde
leaf_back null k n = replace_char_back dot tilde k n
leaf_back (boolean b) k n = replace_char_back dot tilde k n
leaf_back (number x) k n = replace_char_back dot tilde k n
leaf_back (text s) k n = replace_char_back dot tilde k n
leaf_back (arr xs) k n = tilde_to_dot-same k n
leaf_back (obj m) k n = tilde_to_dot-same k n

leaf_undo :
    (v : Json) (k : String)
    → tilde_to_dot (leaf_key dot_to_tilde v k) ≡ k
    → leaf_key tilde_to_dot (rewrite (leaf_key dot_to_tilde) v) (leaf_key dot_to_tilde v k) ≡ k
unfolding rewrite
leaf_undo null k e = e
leaf_undo (boolean b) k e = e
leaf_undo (number n) k e = e
leaf_undo (text s) k e = e
leaf_undo (arr xs) k e = refl
leaf_undo (obj m) k e = refl

-- A condition of which no key has a tilde, and no map a key twice, comes back from its stored form.
pub handle_dot_tilde_map-undo :
    (m : Fields)
    → KeyedMap (λ v k. has_char tilde k ≡ false) m
    → handle_dot_tilde_map tilde_to_dot (handle_dot_tilde_map dot_to_tilde m) ≡ m
unfolding handle_dot_tilde_map
handle_dot_tilde_map-undo m u =
    rewrite_map-undo (leaf_key dot_to_tilde) (leaf_key tilde_to_dot) tilde_to_dot leaf_undo m
      (KeyedMap-to leaf_back m u)

key_back :
    (name k : String) (v : Json)
    → has_char dot name ≡ false
    → IsKey v k
    → strip_level (insert_level name k) ≡ k
key_back name k v n (t, inl (x, e)) =
    subst (λ j. strip_level (insert_level name j) ≡ j) (sym e) (strip_level-insert_level name x n)
key_back name k v n (t, inr d) = strip_level-no_dot name k d

key_tilde :
    (name k : String) (v : Json)
    → has_char tilde name ≡ false
    → IsKey v k
    → has_char tilde (insert_level name k) ≡ false
key_tilde name k v n (t, inl (x, e)) =
    subst (λ j. has_char tilde (insert_level name j) ≡ false) (sym e)
      (insert_level-no_tilde name x n (subst (λ j. has_char tilde j ≡ false) e t))
key_tilde name k v n (t, inr d) = rw (insert_level-no_dot name k d) t

-- The condition that `PostTrigger` made of a user's condition, with the name of the event type in its
-- paths, is read back from the index as the user's condition: where neither a dot nor a tilde is in the name,
-- each key has no tilde and begins with "data." or has no dot, and no map has a key twice.
pub decode_condition-encode_condition :
    (name : String) (m : Fields)
    → has_char dot name ≡ false
    → has_char tilde name ≡ false
    → KeyedMap IsKey m
    → decode_condition (encode_condition (handle_unique_params_map name insert_level m)) ≡ m
unfolding decode_condition encode_condition handle_unique_params_map
decode_condition-encode_condition name m d t u =
    ap (rewrite_map (λ v k. strip_level k)) (
      handle_dot_tilde_map-undo _ (
        KeyedMap-rewrite_map (λ v k. insert_level name k) strip_level
          (λ k. has_char tilde k ≡ false) IsKey (λ v k i. key_back name k v d i)
          (λ v k i. key_tilde name k v t i) m u))
    ∙ rewrite_map-undo (λ v k. insert_level name k) (λ v k. strip_level k) strip_level (λ v k e. e)
        m (KeyedMap-to (λ v k i. key_back name k v d i) m u)

pub decode_condition_strips :
    (name : String) (m : Fields)
    → has_char dot name ≡ false
    → has_char tilde name ≡ false
    → KeyedMap IsKey m
    → (let read =
          decode_condition (encode_condition (handle_unique_params_map name insert_level m)) in
        decode_condition (encode_condition read)
        ≡ handle_unique_params_map "unusedEventTypeName" (λ event_type_name key. strip_level key) m)
unfolding decode_condition encode_condition handle_unique_params_map
decode_condition_strips name m d t u =
    ap (λ c. decode_condition (encode_condition c)) (decode_condition-encode_condition name m d t u)
    ∙ ap (rewrite_map (λ v k. strip_level k))
        (handle_dot_tilde_map-undo m (KeyedMap-to (λ v k i. i.0) m u))

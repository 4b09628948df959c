-- ===== src/Db/Conditions/Undo.antt =====
-- When the rewriting of a condition's keys, workflow/TriggerDB.go, can be undone: no two keys of a map
-- meet, and one function takes every new key back to the old one.
use pz_workflow.Prelude.{◌≡◌, refl, ap, String, false, eq_iff, arith}
use pz_workflow.Json.{
  Json, Items, Fields, null, boolean, number, text, arr, obj, nil, cons, end, field,
}
use pz_workflow.Db.Conditions.{has, enter, rewrite, rewrite_arr, rewrite_map}

-- `P` holds of every key of every map, with its value, and no key stands twice in a map.
abbrev mutual
  pub Keyed : (Json → String → Type 0) → Json → Type 0
  Keyed P null = Unit
  Keyed P (boolean b) = Unit
  Keyed P (number n) = Unit
  Keyed P (text s) = Unit
  Keyed P (arr xs) = KeyedArr P xs
  Keyed P (obj m) = KeyedMap P m

  pub KeyedArr : (Json → String → Type 0) → Items → Type 0
  KeyedArr P nil = Unit
  KeyedArr P (cons x xs) = Keyed P x × KeyedArr P xs

  pub KeyedMap : (Json → String → Type 0) → Fields → Type 0
  KeyedMap P end = Unit
  KeyedMap P (field k v m) = P v k × (has k m ≡ false) × Keyed P v × KeyedMap P m

absent : (j k : String) (v : Json) (m : Fields) → has k (field j v m) ≡ false → has k m ≡ false
unfolding has
absent j k v m n = ground arith

module _ (f : Json → String → String) (h : String → String) where
  -- `h` takes the new key back.
  abbrev pub Undoes : Json → String → Type 0
  Undoes v k = h (f v k) ≡ k

  -- A key that is not there does not come in.
  pub has-rewrite_map :
      (x k : String) (m : Fields)
      → h x ≡ k
      → has k m ≡ false
      → KeyedMap Undoes m
      → has x (rewrite_map f m) ≡ false
  unfolding has rewrite_map enter
  has-rewrite_map x k end e n u = refl
  has-rewrite_map x k (field j v m) e n u =
      ground (arith, eq_iff (f v j) x, eq_iff j k, has-rewrite_map x k m e (absent j k v m n) u.3)

  -- So rewriting is the plain renaming of keys.
  pub rewrite_map-field :
      (k : String) (v : Json) (m : Fields)
      → KeyedMap Undoes (field k v m)
      → rewrite_map f (field k v m) ≡ field (f v k) (rewrite f v) (rewrite_map f m)
  unfolding rewrite_map enter
  rewrite_map-field k v m u = rw (has-rewrite_map (f v k) k m u.0 u.1 u.3)

-- A second rewriting takes the first one back.
module _ (f g : Json → String → String) (h : String → String)
    (back : (v : Json) (k : String) → h (f v k) ≡ k → g (rewrite f v) (f v k) ≡ k) where
  mutual
    unfolding rewrite enter

    rewrite_undo_lem : (v : Json) → Keyed (Undoes f h) v → rewrite g (rewrite f v) ≡ v
    rewrite_undo_lem null u = refl
    rewrite_undo_lem (boolean b) u = refl
    rewrite_undo_lem (number n) u = refl
    rewrite_undo_lem (text s) u = refl
    rewrite_undo_lem (arr xs) u = ap arr (rewrite_arr_undo xs u)
    rewrite_undo_lem (obj m) u = ap obj (rewrite_map_undo m u)

    rewrite_arr_undo :
        (xs : Items) → KeyedArr (Undoes f h) xs → rewrite_arr g (rewrite_arr f xs) ≡ xs
    rewrite_arr_undo nil u = refl
    rewrite_arr_undo (cons x xs) u = cc (rewrite_undo_lem x u.0, rewrite_arr_undo xs u.1)

    rewrite_map_undo : (m : Fields) → KeyedMap (Undoes f h) m → rewrite_map g (rewrite_map f m) ≡ m
    rewrite_map_undo end u = refl
    rewrite_map_undo (field k v m) u = rw (
      has-rewrite_map f h (f v k) k m u.0 u.1 u.3,
      back v k u.0,
      rewrite_map_undo m u.3,
      rewrite_undo_lem v u.2,
      u.1,
    )

  pub rewrite_map-undo :
      (m : Fields) → KeyedMap (Undoes f h) m → rewrite_map g (rewrite_map f m) ≡ m
  rewrite_map-undo = rewrite_map_undo

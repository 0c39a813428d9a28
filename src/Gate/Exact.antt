-- ===== src/Gate/Exact.antt =====
-- `_exact_json_value`: a document with the types and the values of another, keys in any order.
use devpath_shared.Base.{
  ℕ, suc, ◌≡◌, ◌↔◌, Bool, true, false, ◌&&◌, String, ◌<>◌, ◌==◌, eq_iff, arith,
}
use devpath_shared.Base.Decimal.{show}
use devpath_shared.Base.Integer.{ℤ, ==ℤ_iff}
use devpath_shared.Base.Result.{Result, ok, err, refused, ◌>>◌, ensure}
use devpath_shared.Json.{
  Json, null, boolean, integer, float, text, array, object, constant, Items, nil, cons, Fields, end,
  field, keys, get, py_eq,
}
use devpath_shared.Gate.Format.{subset}

abbrev pub count : Items → ℕ
count nil = 0
count (cons x xs) = suc (count xs)

-- `type(actual) is type(expected)`, of values that are no dict and no list; a constant is a float.
abbrev pub same_type : Json → Json → Bool
same_type null null = true
same_type (boolean a) (boolean b) = true
same_type (integer a) (integer b) = true
same_type (float a r) (float b q) = true
same_type (text a) (text b) = true
same_type _ _ = false

abbrev exact_leaf : Json → Json → String → Result (Unit {0})
exact_leaf actual expected label = do
  ensure (same_type actual expected) (label <> " has an invalid JSON type")
  ensure (py_eq actual expected) (label <> " value is not exact")

-- A dict or a list is entered only by one of the same type, and a key is read only when the keys are
-- the same as sets, and an item only when the lengths are the same.
unfoldable mutual
  pub exact_value : Json → Json → String → Result (Unit {0})
  exact_value actual (object e) label = elim actual [
    | object d ↦ do
      ensure (subset (keys d) (keys e) && subset (keys e) (keys d)) (label <> " keys are not exact")
      exact_fields d e label
    | _ ↦ err (refused (label <> " has an invalid JSON type"))
  ]
  exact_value actual (array ys) label = elim actual [
    | array xs ↦ do
      ensure (count xs == count ys) (label <> " array is not exact")
      exact_items xs ys label 0
    | _ ↦ err (refused (label <> " has an invalid JSON type"))
  ]
  exact_value actual null label = exact_leaf actual null label
  exact_value actual (boolean b) label = exact_leaf actual (boolean b) label
  exact_value actual (integer n) label = exact_leaf actual (integer n) label
  exact_value actual (float n r) label = exact_leaf actual (float n r) label
  exact_value actual (text s) label = exact_leaf actual (text s) label
  exact_value actual (constant s) label = exact_leaf actual (constant s) label

  pub exact_fields : Fields → Fields → String → Result (Unit {0})
  exact_fields d end label = ok tt
  exact_fields d (field k v e) label = do
    exact_value (get d k) v (label <> "." <> k)
    exact_fields d e label

  pub exact_items : Items → Items → String → ℕ → Result (Unit {0})
  exact_items xs nil label index = ok tt
  exact_items nil (cons y ys) label index = ok tt
  exact_items (cons x xs) (cons y ys) label index = do
    exact_value x y (label <> "[" <> show index <> "]")
    exact_items xs ys label (suc index)

-- Equal values of one type; floats up to what they are equal to.
unfoldable mutual
  pub Same : Json → Json → Type 0
  Same v (object e) = elim v [
    | object d ↦
        (subset (keys d) (keys e) ≡ true) × (subset (keys e) (keys d) ≡ true) × SameFields d e
    | _ ↦ ⊥
  ]
  Same v (array ys) = elim v [ array xs ↦ (count xs ≡ count ys) × SameItems xs ys | _ ↦ ⊥ ]
  Same v (float n r) = elim v [ float m q ↦ py_eq (float m q) (float n r) ≡ true | _ ↦ ⊥ ]
  Same v (constant s) = ⊥
  Same v null = v ≡ null
  Same v (boolean b) = v ≡ boolean b
  Same v (integer n) = v ≡ integer n
  Same v (text s) = v ≡ text s

  pub SameFields : Fields → Fields → Type 0
  SameFields d end = Unit
  SameFields d (field k v e) = Same (get d k) v × SameFields d e

  pub SameItems : Items → Items → Type 0
  SameItems xs nil = Unit
  SameItems nil (cons y ys) = Unit
  SameItems (cons x xs) (cons y ys) = Same x y × SameItems xs ys

leaf-null : (v : Json) (label : String) → (exact_leaf v null label ≡ ok tt) ↔ (v ≡ null)
unfolding py_eq
leaf-null null label = ground arith
leaf-null _ label = ground arith

leaf-boolean :
    (v : Json) (b : Bool) (label : String)
    → (exact_leaf v (boolean b) label ≡ ok tt) ↔ (v ≡ boolean b)
unfolding py_eq
leaf-boolean (boolean true) true label = ground arith
leaf-boolean (boolean true) false label = ground arith
leaf-boolean (boolean false) true label = ground arith
leaf-boolean (boolean false) false label = ground arith
leaf-boolean _ b label = ground arith

leaf-integer :
    (v : Json) (n : ℤ) (label : String) → (exact_leaf v (integer n) label ≡ ok tt) ↔ (v ≡ integer n)
unfolding py_eq
leaf-integer (integer m) n label = ground (arith, ==ℤ_iff n m)
leaf-integer _ n label = ground arith

leaf-text : (v : Json) (s label : String) → (exact_leaf v (text s) label ≡ ok tt) ↔ (v ≡ text s)
unfolding py_eq
leaf-text (text t) s label = ground (arith, eq_iff t s)
leaf-text _ s label = ground arith

mutual
  unfolding exact_value exact_fields exact_items Same SameFields SameItems

  value-Same : (v w : Json) (label : String) → (exact_value v w label ≡ ok tt) ↔ Same v w
  value-Same v null label = leaf-null v label
  value-Same v (boolean b) label = leaf-boolean v b label
  value-Same v (integer n) label = leaf-integer v n label
  value-Same v (text s) label = leaf-text v s label
  value-Same (float m q) (float n r) label = ground arith
  value-Same v (float n r) label = ground arith
  value-Same v (constant s) label = ground arith
  value-Same (array xs) (array ys) label = ground (arith, items-Same xs ys label 0)
  value-Same _ (array ys) label = ground arith
  value-Same (object d) (object e) label = ground (arith, fields-Same d e label)
  value-Same _ (object e) label = ground arith

  fields-Same : (d e : Fields) (label : String) → (exact_fields d e label ≡ ok tt) ↔ SameFields d e
  fields-Same d end label = ground arith
  fields-Same d (field k v e) label =
      ground (arith, value-Same (get d k) v (label <> "." <> k), fields-Same d e label)

  items-Same :
      (xs ys : Items) (label : String) (index : ℕ)
      → (exact_items xs ys label index ≡ ok tt) ↔ SameItems xs ys
  items-Same xs nil label index = ground arith
  items-Same nil (cons y ys) label index = ground arith
  items-Same (cons x xs) (cons y ys) label index = ground (
    arith,
    value-Same x y (label <> "[" <> show index <> "]"),
    items-Same xs ys label (suc index),
  )

-- The check of an exact value passes exactly when the two values are the same: each scalar equal and of
-- one type, each list of the same length with the same items in order, each dict with the same set of
-- keys and the same values under them.
pub exact_value-Same :
    (actual expected : Json) (label : String)
    → (exact_value actual expected label ≡ ok tt) ↔ Same actual expected
exact_value-Same actual expected label = value-Same actual expected label

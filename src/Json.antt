-- ===== src/Json.antt =====
-- The values that `json.loads` returns, `dict.get`, and Python's `==` on them.
pub mod Hooks
use devpath_shared.Base.{
  ℕ, suc, ◌≡◌, ◌↔◌, Bool, true, false, ◌&&◌, ◌||◌, Option, none, some, List, [], ◌∷◌, String, ◌==◌,
  ◌==ˢ◌, eq_iff, if◌then◌else◌, arith,
}
use devpath_shared.Base.Integer.{ℤ, pos, ◌==ℤ◌, ==ℤ_iff}

-- A dict keeps its insertion order. A float is the integer that it equals, if there is one, and
-- its `repr`; `constant` is the text `NaN` or `Infinity` before `parse_constant` sees it.
mutual
  pub data Json : Type 0 where
    null : Json
    boolean : Bool → Json
    integer : ℤ → Json
    float : Option ℤ → String → Json
    text : String → Json
    array : Items → Json
    object : Fields → Json
    constant : String → Json

  pub data Items : Type 0 where
    nil : Items
    cons : Json → Items → Items

  pub data Fields : Type 0 where
    end : Fields
    field : String → Json → Fields → Fields

abbrev pub to_list : Items → List Json
to_list nil = []
to_list (cons x xs) = x ∷ to_list xs

abbrev pub of_list : List Json → Items
of_list [] = nil
of_list (x ∷ xs) = cons x (of_list xs)

abbrev pub keys : Fields → List String
keys end = []
keys (field k v d) = k ∷ keys d

abbrev pub contains : List String → String → Bool
contains [] k = false
contains (j ∷ ks) k = (j ==ˢ k) || contains ks k

-- `d[key]`, if the key is there.
unfoldable pub lookup : String → Fields → Option Json
lookup k end = none
lookup k (field j v d) = if j ==ˢ k then some v else lookup k d

-- `d.get(key)`: `None` is `null`.
unfoldable pub get : Fields → String → Json
unfolding lookup
get d k = elim (lookup k d) [ none ↦ null | some v ↦ v ]

-- `isinstance(value, dict)`, `list` and `str`, with the value.
abbrev pub as_dict : Json → Option Fields
as_dict (object d) = some d
as_dict _ = none

abbrev pub as_list : Json → Option (List Json)
as_list (array xs) = some (to_list xs)
as_list _ = none

abbrev pub as_str : Json → Option String
as_str (text s) = some s
as_str _ = none

-- The integer that a number is equal to. Python's `bool` is a number too.
abbrev pub numeric : Json → Option ℤ
numeric (boolean true) = some (pos 1)
numeric (boolean false) = some (pos 0)
numeric (integer n) = some n
numeric (float n _) = n
numeric _ = none

abbrev is_number : Option ℤ → ℤ → Bool
is_number none n = false
is_number (some m) n = n ==ℤ m

abbrev pub count_fields : Fields → ℕ
count_fields end = 0
count_fields (field k v d) = suc (count_fields d)

-- `a == b`
unfoldable mutual
  pub py_eq : Json → Json → Bool
  py_eq null b = elim b [ null ↦ true | _ ↦ false ]
  py_eq (boolean true) b = is_number (numeric b) (pos 1)
  py_eq (boolean false) b = is_number (numeric b) (pos 0)
  py_eq (integer n) b = is_number (numeric b) n
  py_eq (float (some n) _) b = is_number (numeric b) n
  py_eq (float none r) b = elim b [ float none q ↦ r ==ˢ q | _ ↦ false ]
  py_eq (text s) b = elim b [ text t ↦ s ==ˢ t | _ ↦ false ]
  py_eq (array xs) b = elim b [ array ys ↦ eq_items xs ys | _ ↦ false ]
  py_eq (object d) b = elim b [
    | object e ↦ (count_fields d == count_fields e) && eq_fields d e
    | _ ↦ false
  ]
  py_eq (constant s) b = false

  eq_items : Items → Items → Bool
  eq_items nil ys = elim ys [ nil ↦ true | cons _ _ ↦ false ]
  eq_items (cons x xs) ys = elim ys [ nil ↦ false | cons y zs ↦ py_eq x y && eq_items xs zs ]

  eq_fields : Fields → Fields → Bool
  eq_fields end e = true
  eq_fields (field k v d) e = elim (lookup k e) [
    | none ↦ false
    | some w ↦ py_eq v w && eq_fields d e
  ]

-- `value == "…"` holds for that text alone.
pub py_eq-text_iff : (v : Json) (s : String) → (py_eq v (text s) ≡ true) ↔ (v ≡ text s)
unfolding py_eq
py_eq-text_iff null s = ground arith
py_eq-text_iff (boolean true) s = ground arith
py_eq-text_iff (boolean false) s = ground arith
py_eq-text_iff (float (some n) r) s = ground arith
py_eq-text_iff (float none r) s = ground arith
py_eq-text_iff (text t) s = ground (arith, eq_iff t s)
py_eq-text_iff _ s = ground arith

-- `value == n` holds for every number that is equal to `n`, `True` and `1.0` for 1 included.
pub py_eq-integer_iff : (v : Json) (n : ℤ) → (py_eq v (integer n) ≡ true) ↔ (numeric v ≡ some n)
unfolding py_eq
py_eq-integer_iff (boolean true) n = ground (arith, ==ℤ_iff n (pos 1))
py_eq-integer_iff (boolean false) n = ground (arith, ==ℤ_iff n (pos 0))
py_eq-integer_iff (integer m) n = ground (arith, ==ℤ_iff n m)
py_eq-integer_iff (float (some m) r) n = ground (arith, ==ℤ_iff n m)
py_eq-integer_iff (float none r) n = ground arith
py_eq-integer_iff _ n = ground arith

pub as_dict-eq : (v : Json) {d : Fields} → as_dict v ≡ some d → v ≡ object d
as_dict-eq (object e) h = ground arith
as_dict-eq null h = cc
as_dict-eq (array e) h = cc
as_dict-eq (text e) h = cc
as_dict-eq (boolean e) h = cc
as_dict-eq (integer e) h = cc
as_dict-eq (float e r) h = cc
as_dict-eq (constant e) h = cc

pub as_str-eq : (v : Json) {s : String} → as_str v ≡ some s → v ≡ text s
as_str-eq (text e) h = ground arith
as_str-eq null h = cc
as_str-eq (array e) h = cc
as_str-eq (object e) h = cc
as_str-eq (boolean e) h = cc
as_str-eq (integer e) h = cc
as_str-eq (float e r) h = cc
as_str-eq (constant e) h = cc

abbrev pub texts : List String → Items
texts [] = nil
texts (s ∷ ss) = cons (text s) (texts ss)

eq_items-texts_iff :
    (xs : Items) (ss : List String) → (eq_items xs (texts ss) ≡ true) ↔ (xs ≡ texts ss)
unfolding py_eq eq_items
eq_items-texts_iff nil [] = ground arith
eq_items-texts_iff nil (s ∷ ss) = ground arith
eq_items-texts_iff (cons x xs) [] = ground arith
eq_items-texts_iff (cons x xs) (s ∷ ss) =
    ground (arith, py_eq-text_iff x s, eq_items-texts_iff xs ss)

-- `value == […]` of texts holds for that list alone.
pub py_eq-texts_iff :
    (v : Json) (ss : List String) → (py_eq v (array (texts ss)) ≡ true) ↔ (v ≡ array (texts ss))
unfolding py_eq
py_eq-texts_iff null ss = ground arith
py_eq-texts_iff (boolean true) ss = ground arith
py_eq-texts_iff (boolean false) ss = ground arith
py_eq-texts_iff (float (some n) r) ss = ground arith
py_eq-texts_iff (float none r) ss = ground arith
py_eq-texts_iff (array xs) ss = ground (arith, eq_items-texts_iff xs ss)
py_eq-texts_iff _ ss = ground arith

pub py_eq-nil_iff : (v : Json) → (py_eq v (array nil) ≡ true) ↔ (v ≡ array nil)
py_eq-nil_iff v = py_eq-texts_iff v []

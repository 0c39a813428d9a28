-- ===== src/Gate/Names.antt =====
-- Sets of names, and dicts that the gate builds from a list of documents by a name that each of them
-- holds: the loops of `_rules_by_type` and `validate_gitops_authorization`.
use devpath_shared.Base.{
  ◌≡◌, refl, sym, ◌∙◌, ap, ◌↔◌, Bool, true, false, ◌&&◌, ◌||◌, not, List, [], ◌∷◌, ◌++◌, String,
  ◌==ˢ◌, eq_iff, eq_refl, inl, inr, Bool-cases, and_iff, All, if◌then◌else◌, arith,
}
use devpath_shared.Base.Result.{
  Result, ok, err, key_error, ◌>>=◌, ◌>>◌, ensure, or_refuse, ensure-eq-ok, or_refuse-eq-ok,
  ok-injective,
}
use devpath_shared.Json.{
  Json, text, object, null, boolean, integer, float, array, constant, keys, Fields, contains, get,
  as_str, as_str-eq,
}
use devpath_shared.Gate.Format.{subset, exact_keys}
use devpath_shared.Runtime.{Runtime}

-- A dict whose values are dicts, in the order of insertion.
abbrev pub Named : Type 0
Named = List (String × Fields)

abbrev pub names : Named → List String
names [] = []
names ((name, d) ∷ rest) = name ∷ names rest

-- `d[key]`
unfoldable pub item : String → Named → Result Fields
item key [] = err key_error
item key ((name, d) ∷ rest) = let other = item key rest in if name ==ˢ key then ok d else other

-- `set(a) == set(b)`
abbrev pub same_set : List String → List String → Bool
same_set a b = subset a b && subset b a

-- A round of the loop: the document `d` is stored under the name that it holds at `key`.
unfoldable pub add_named : String → String → (String → String) → Fields → Named → Result Named
add_named key invalid duplicate d result = do
  name ← or_refuse (as_str (get d key)) invalid
  ensure (not (contains (names result) name)) (duplicate name)
  ok (result ++ (name, d) ∷ [])

abbrev pub SameNames : List String → List String → Type 0
SameNames a b = (k : String) → contains a k ≡ contains b k

-- No name stands twice.
abbrev pub Distinct : List String → Type 0
Distinct [] = Unit
Distinct (k ∷ ks) = (contains ks k ≡ false) × Distinct ks

abbrev pub is_distinct : List String → Bool
is_distinct [] = true
is_distinct (k ∷ ks) = not (contains ks k) && is_distinct ks

pub is_distinct-Distinct : (ks : List String) → is_distinct ks ≡ true → Distinct ks
is_distinct-Distinct [] h = tt
is_distinct-Distinct (k ∷ ks) h = (ground arith, is_distinct-Distinct ks (ground arith))

pub subset-contains :
    (a b : List String) (k : String) → subset a b ≡ true → contains a k ≡ true → contains b k ≡ true
subset-contains [] b k h c = cc
subset-contains (s ∷ ss) b k h c = ground (arith, eq_iff s k, subset-contains ss b k)

contains-subset :
    (a b : List String)
    → ((k : String) → contains a k ≡ true → contains b k ≡ true)
    → subset a b ≡ true
contains-subset [] b h = refl
contains-subset (s ∷ ss) b h =
    ground (arith, h s, eq_refl s, contains-subset ss b (λ k c. h k (ground arith)))

equal_tests : (a b : Bool) → (a ≡ true → b ≡ true) → (b ≡ true → a ≡ true) → a ≡ b
equal_tests a b h g = ground (arith, h, g)

pub same_set_iff : (a b : List String) → (same_set a b ≡ true) ↔ SameNames a b
same_set_iff a b = (
  λ h k.
      equal_tests _ _ (subset-contains a b k ((and_iff _ _).0 h).0)
        (subset-contains b a k ((and_iff _ _).0 h).1),
  λ h.
      (and_iff _ _).1
        (contains-subset a b (λ k c. sym (h k) ∙ c), contains-subset b a (λ k c. h k ∙ c)),
)

contains-concat :
    (result : Named) (name k : String) (d : Fields)
    → contains (names (result ++ (name, d) ∷ [])) k ≡ (contains (names result) k || (name ==ˢ k))
contains-concat [] name k d = ground arith
contains-concat ((j, e) ∷ result) name k d = ground (arith, contains-concat result name k d)

Distinct-concat :
    (result : Named) (name : String) (d : Fields)
    → Distinct (names result)
    → contains (names result) name ≡ false
    → Distinct (names (result ++ (name, d) ∷ []))
Distinct-concat [] name d h c = (refl, tt)
Distinct-concat ((j, e) ∷ result) name d (fresh, h) c = (
  ground (arith, contains-concat result name j d, eq_iff name j, eq_iff j name),
  Distinct-concat result name d h (ground arith),
)

-- A round has read a new name from the document.
pub add_named-Distinct :
    (key invalid : String) (duplicate : String → String) (d : Fields) (result : Named) {r : Named}
    → add_named key invalid duplicate d result ≡ ok r
    → Distinct (names result)
    → (name : String) × (get d key ≡ text name)
      × (r ≡ result ++ (name, d) ∷ [])
      × Distinct (names r)
unfolding add_named
add_named-Distinct key invalid duplicate d result h distinct =
    let (name, is_name, h₁) = or_refuse-eq-ok (as_str (get d key)) _ _ h in
    let (fresh, h₂) = ensure-eq-ok (not (contains (names result) name)) _ _ h₁ in
    let same = ok-injective h₂ in
    (
      name,
      as_str-eq (get d key) is_name,
      sym same,
      rw (← same) (Distinct-concat result name d distinct (ground arith)),
    )

pub append_assoc : (a b c : Named) → (a ++ b) ++ c ≡ a ++ (b ++ c)
append_assoc [] b c = refl
append_assoc (x ∷ a) b c = ap (λ (l : Named). x ∷ l) (append_assoc a b c)

-- What holds of every entry holds of the one that is found.
pub item-All {ℓ} :
    (P : String × Fields → Type ℓ) (key : String) (entries : Named) {d : Fields}
    → item key entries ≡ ok d
    → All P entries
    → P (key, d)
unfolding item
item-All P key [] h all = cc
item-All P key ((name, e) ∷ rest) {d} h (first, all) = elim (Bool-cases (name ==ˢ key)) [
  | inl same ↦ entry_cong ((eq_iff name key).0 same) (ok-injective (rw same at h)) first
  | inr other ↦ item-All P key rest (rw other at h) all
]
  where
    entry_cong : name ≡ key → e ≡ d → P (name, e) → P (key, d)
    entry_cong p q x = rw (← p, ← q) x

pub exact_keys-SameNames :
    (R : Runtime) (v : Json) (expected : List String) (label : String) {d : Fields}
    → exact_keys R v expected label ≡ ok d
    → SameNames (keys d) expected
unfolding exact_keys
exact_keys-SameNames R (object e) expected label h =
    let (same, returned) = ensure-eq-ok (same_set (keys e) expected) _ _ h in
    rw (← (ok-injective returned)) ((same_set_iff _ _).0 same)
exact_keys-SameNames R null expected label h = cc
exact_keys-SameNames R (boolean b) expected label h = cc
exact_keys-SameNames R (integer n) expected label h = cc
exact_keys-SameNames R (float n r) expected label h = cc
exact_keys-SameNames R (array xs) expected label h = cc
exact_keys-SameNames R (text s) expected label h = cc
exact_keys-SameNames R (constant s) expected label h = cc

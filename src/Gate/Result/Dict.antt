-- ===== src/Gate/Result/Dict.antt =====
-- A dict that is known by its keys and its values, as `_ordered_keys` and the loops over expected
-- values read it.
use devpath_shared.Base.{
  ◌≡◌, refl, ◌↔◌, true, false, List, [], ◌∷◌, String, eq_iff, eq_refl, All, arith,
}
use devpath_shared.Base.Result.{ok, ensure-eq-ok, or_refuse-eq-ok, ok-injective}
use devpath_shared.Json.{
  Json, text, array, object, texts, Fields, end, field, keys, contains, lookup, get, as_dict,
  as_dict-eq, py_eq-text_iff, py_eq-texts_iff,
}
use devpath_shared.Runtime.{Runtime}
use devpath_shared.Gate.Format.{}
use devpath_shared.Gate.Values.{}
use devpath_shared.Gate.Names.{is_distinct}
use devpath_shared.Gate.Facts.{eq_lists, eq_lists_iff}
use devpath_shared.Gate.Result.{Pairs, dict, keys_of, ordered_keys}
use devpath_shared.Gate.Result.Check.{require_equal}

-- A dict with other keys in front is read past them.
skip :
    (j : String) (v : Json) (d : Fields) (pairs : Pairs)
    → contains (keys_of pairs) j ≡ false
    → All (λ (e : String × Json). get (field j v d) e.0 ≡ e.1) pairs
    → All (λ (e : String × Json). get d e.0 ≡ e.1) pairs
unfolding get lookup
skip j v d [] c all = tt
skip j v d ((key, value) ∷ pairs) c (first, all) =
    (ground (arith, eq_iff j key, eq_iff key j), skip j v d pairs (ground arith) all)

-- A dict is known by its keys, in order, and by its values.
pub dict_lem :
    (d : Fields) (pairs : Pairs)
    → keys d ≡ keys_of pairs
    → is_distinct (keys_of pairs) ≡ true
    → All (λ (e : String × Json). get d e.0 ≡ e.1) pairs
    → d ≡ dict pairs
unfolding get lookup
dict_lem end [] same distinct all = refl
dict_lem end (e ∷ pairs) same distinct all = absurd (ground arith)
dict_lem (field j v d) [] same distinct all = absurd (ground arith)
dict_lem (field j v d) ((key, value) ∷ pairs) same distinct (first, all) =
    let is_key : j ≡ key = cc in
    let fresh : contains (keys_of pairs) key ≡ false = ground arith in
    let rest = dict_lem d pairs (cc) (ground arith) (skip j v d pairs (rw is_key fresh) all) in
    ground (arith, eq_refl key)

-- A text, or a list of texts.
abbrev pub IsPlain : Json → Type 0
IsPlain (text s) = Unit
IsPlain (array xs) = (ss : List String) × (xs ≡ texts ss)
IsPlain _ = ⊥

pub require_equal_iff :
    (d : Fields) (label : String) (pairs : Pairs)
    → All (λ (e : String × Json). IsPlain e.1) pairs
    → (require_equal d label pairs ≡ ok tt) ↔ All (λ (e : String × Json). get d e.0 ≡ e.1) pairs
unfolding require_equal
require_equal_iff d label [] plain = ground arith
require_equal_iff d label ((key, text s) ∷ pairs) (_, plain) =
    ground (arith, py_eq-text_iff (get d key) s, require_equal_iff d label pairs plain)
require_equal_iff d label ((key, array xs) ∷ pairs) ((ss, e), plain) =
    ground (arith, e, py_eq-texts_iff (get d key) ss, require_equal_iff d label pairs plain)
require_equal_iff d label ((key, value) ∷ pairs) (impossible, plain) = absurd impossible

pub ordered_keys-eq_ok :
    (R : Runtime) (v : Json) (expected : List String) (label : String) {d : Fields}
    → ordered_keys R v expected label ≡ ok d
    → (v ≡ object d) × (keys d ≡ expected)
unfolding ordered_keys
ordered_keys-eq_ok R v expected label h =
    let (e, is_dict, h₁) = or_refuse-eq-ok (as_dict v) _ _ h in
    let (same, h₂) = ensure-eq-ok (eq_lists (keys e) expected) _ _ h₁ in
    rw (← (ok-injective h₂)) (as_dict-eq v is_dict, (eq_lists_iff (keys e) expected).0 same)

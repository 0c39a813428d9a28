-- ===== src/Json/Hooks.antt =====
-- The `object_pairs_hook` and the `parse_constant` of `json.loads`: `_reject_duplicate_keys` and
-- `_reject_json_constant` of migration_release_gate.py, `_unique_object` and `_reject_constant` of
-- immutable_migration_image.py. The two scripts differ in their messages, which are parameters.
use devpath_shared.Base.{
  ◌≡◌, refl, ◌↔◌, ◌∙◌, ap, sym, false, ◌||◌, String, eq_iff, if◌then◌else◌, arith,
}
use devpath_shared.Base.Result.{Result, ok, err, refused, ◌>>=◌, >>=-eq-ok}
use devpath_shared.Json.{
  Json, null, boolean, integer, float, text, array, object, constant, Items, nil, cons, Fields, end,
  field, keys, contains,
}

abbrev pub append : Fields → Fields → Fields
append end e = e
append (field k v d) e = field k v (append d e)

module _ (duplicate bad_constant : String → String) where
  -- The loop of the hook: `result` is built pair by pair.
  unfoldable pub unique_object : Fields → Fields → Result Fields
  unique_object end result = ok result
  unique_object (field k v pairs) result =
      let rest = unique_object pairs (append result (field k v end)) in
      if contains (keys result) k then err (refused (duplicate k)) else rest

  -- An inner value is finished before the hook sees the object that holds it.
  unfoldable mutual
    pub hooked : Json → Result Json
    hooked (constant s) = err (refused (bad_constant s))
    hooked (array xs) = do ys ← hooked_items xs; ok (array ys)
    hooked (object pairs) = do d ← hooked_fields pairs; e ← unique_object d end; ok (object e)
    hooked null = ok null
    hooked (boolean b) = ok (boolean b)
    hooked (integer n) = ok (integer n)
    hooked (float n r) = ok (float n r)
    hooked (text s) = ok (text s)

    hooked_items : Items → Result Items
    hooked_items nil = ok nil
    hooked_items (cons x xs) = do y ← hooked x; ys ← hooked_items xs; ok (cons y ys)

    hooked_fields : Fields → Result Fields
    hooked_fields end = ok end
    hooked_fields (field k v d) = do w ← hooked v; e ← hooked_fields d; ok (field k w e)

-- No key is listed twice.
abbrev pub NodupKeys : Fields → Type 0
NodupKeys end = Unit
NodupKeys (field k v d) = (contains (keys d) k ≡ false) × NodupKeys d

-- A value in which every object has distinct keys, and no constant is left.
unfoldable mutual
  pub IsClean : Json → Type 0
  IsClean (constant s) = ⊥
  IsClean (array xs) = AreClean xs
  IsClean (object d) = NodupKeys d × FieldsClean d
  IsClean null = Unit
  IsClean (boolean b) = Unit
  IsClean (integer n) = Unit
  IsClean (float n r) = Unit
  IsClean (text s) = Unit

  AreClean : Items → Type 0
  AreClean nil = Unit
  AreClean (cons x xs) = IsClean x × AreClean xs

  pub FieldsClean : Fields → Type 0
  FieldsClean end = Unit
  FieldsClean (field k v d) = IsClean v × FieldsClean d

append_assoc : (a b c : Fields) → append (append a b) c ≡ append a (append b c)
append_assoc end b c = refl
append_assoc (field k v a) b c = ap (field k v) (append_assoc a b c)

append-end : (a : Fields) → append a end ≡ a
append-end end = refl
append-end (field k v a) = ap (field k v) (append-end a)

contains-append :
    (a b : Fields) (k : String)
    → contains (keys (append a b)) k ≡ (contains (keys a) k || contains (keys b) k)
contains-append end b k = refl
contains-append (field j v a) b k = ground (arith, contains-append a b k)

-- No key of `a` is in `result`.
abbrev Apart : Fields → Fields → Type 0
Apart result end = Unit
Apart result (field k v a) = (contains (keys result) k ≡ false) × Apart result a

Apart-append :
    (result a : Fields) (k : String) (v : Json)
    → Apart (append result (field k v end)) a ↔ (Apart result a × (contains (keys a) k ≡ false))
Apart-append result end k v = (λ _. (tt, refl), λ _. tt)
Apart-append result (field j w a) k v = ground (
  arith,
  Apart-append result a k v,
  contains-append result (field k v end) j,
  eq_iff j k,
  eq_iff k j,
)

module _ (duplicate bad_constant : String → String) where
  unique_object_lem :
      (pairs result d : Fields)
      → (unique_object duplicate bad_constant pairs result ≡ ok d)
        ↔ ((d ≡ append result pairs) × NodupKeys pairs × Apart result pairs)
  unfolding unique_object
  unique_object_lem end result d = ground (arith, append-end result)
  unique_object_lem (field k v pairs) result d = ground (
    arith,
    unique_object_lem pairs (append result (field k v end)) d,
    append_assoc result (field k v end) pairs,
    Apart-append result pairs k v,
  )

  Apart-empty : (d : Fields) → Apart end d
  Apart-empty end = tt
  Apart-empty (field k v d) = (refl, Apart-empty d)

  unique_object_iff :
      (d e : Fields) → (unique_object duplicate bad_constant d end ≡ ok e) ↔ ((e ≡ d) × NodupKeys d)
  unique_object_iff d e = ground (arith, unique_object_lem d end e, Apart-empty d)

  mutual
    unfolding hooked IsClean

    hooked_sound :
        (v : Json) {w : Json} → hooked duplicate bad_constant v ≡ ok w → (w ≡ v) × IsClean v
    hooked_sound (constant s) h = cc
    hooked_sound (array xs) h =
        let r = >>=-eq-ok (hooked_items duplicate bad_constant xs) _ h in
        let q = hooked_items_sound xs r.1 in (cc, q.1)
    hooked_sound (object d) h =
        let r = >>=-eq-ok (hooked_fields duplicate bad_constant d) _ h in
        let q = hooked_fields_sound d r.1 in
        let t = >>=-eq-ok (unique_object duplicate bad_constant r.0 end) _ r.2 in
        let u = (unique_object_iff r.0 t.0).0 t.1 in (cc, (ground arith, q.1))
    hooked_sound null h = ground arith
    hooked_sound (boolean b) h = ground arith
    hooked_sound (integer n) h = ground arith
    hooked_sound (float n r) h = ground arith
    hooked_sound (text s) h = ground arith

    hooked_items_sound :
        (xs : Items) {ys : Items}
        → hooked_items duplicate bad_constant xs ≡ ok ys
        → (ys ≡ xs) × AreClean xs
    hooked_items_sound nil h = ground arith
    hooked_items_sound (cons x xs) h =
        let r = >>=-eq-ok (hooked duplicate bad_constant x) _ h in
        let t = >>=-eq-ok (hooked_items duplicate bad_constant xs) _ r.2 in
        let p = hooked_sound x r.1 in let q = hooked_items_sound xs t.1 in (cc, (p.1, q.1))

    hooked_fields_sound :
        (d : Fields) {e : Fields}
        → hooked_fields duplicate bad_constant d ≡ ok e
        → (e ≡ d) × FieldsClean d
    hooked_fields_sound end h = ground arith
    hooked_fields_sound (field k v d) h =
        let r = >>=-eq-ok (hooked duplicate bad_constant v) _ h in
        let t = >>=-eq-ok (hooked_fields duplicate bad_constant d) _ r.2 in
        let p = hooked_sound v r.1 in let q = hooked_fields_sound d t.1 in (cc, (p.1, q.1))

  mutual
    unfolding hooked IsClean

    hooked_complete : (v : Json) → IsClean v → hooked duplicate bad_constant v ≡ ok v
    hooked_complete (constant s) c = absurd c
    hooked_complete (array xs) c = rw (hooked_items_complete xs c)
    hooked_complete (object d) c =
        rw (hooked_fields_complete d c.1, (unique_object_iff d d).1 (refl, c.0))
    hooked_complete null c = refl
    hooked_complete (boolean b) c = refl
    hooked_complete (integer n) c = refl
    hooked_complete (float n r) c = refl
    hooked_complete (text s) c = refl

    hooked_items_complete :
        (xs : Items) → AreClean xs → hooked_items duplicate bad_constant xs ≡ ok xs
    hooked_items_complete nil c = refl
    hooked_items_complete (cons x xs) c = rw (hooked_complete x c.0, hooked_items_complete xs c.1)

    hooked_fields_complete :
        (d : Fields) → FieldsClean d → hooked_fields duplicate bad_constant d ≡ ok d
    hooked_fields_complete end c = refl
    hooked_fields_complete (field k v d) c =
        rw (hooked_complete v c.0, hooked_fields_complete d c.1)

  -- A document passes the hooks exactly when no object in it, at any depth, lists a key twice and no
  -- NaN or Infinity is left; then the hooks return it as it was.
  pub hooked_iff : (v w : Json) → (hooked duplicate bad_constant v ≡ ok w) ↔ ((w ≡ v) × IsClean v)
  hooked_iff v w = (hooked_sound v, λ h. hooked_complete v h.1 ∙ ap ok (sym h.0))

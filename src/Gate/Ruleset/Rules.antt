-- ===== src/Gate/Ruleset/Rules.antt =====
-- The rules of a ruleset as a dict: each rule once, under its type.
use devpath_shared.Base.{
  ◌≡◌, refl, sym, ◌∙◌, ap, some, List, [], ◌∷◌, ◌++◌, String, ◌<>◌, ◌==◌, All, length, ==_iff,
}
use devpath_shared.Base.Result.{ok, >>=-eq-ok, ensure-eq-ok, or_refuse-eq-ok, ok-injective}
use devpath_shared.Json.{Json, text, object, Fields, get, as_dict, as_dict-eq, as_list}
use devpath_shared.Runtime.{Runtime}
use devpath_shared.Gate.Names.{
  Named, names, same_set, same_set_iff, add_named, add_named-Distinct, SameNames, Distinct,
  append_assoc,
}
use devpath_shared.Gate.Ruleset.{collect_rules, rules_by_type}

-- The documents of the entries.
abbrev pub documents : Named → List Json
documents [] = []
documents ((name, d) ∷ rest) = object d ∷ documents rest

-- Each document holds its name at `key`.
abbrev pub HoldsName : String → String × Fields → Type 0
HoldsName key (name, d) = get d key ≡ text name

collect_rules-Distinct :
    (values : List Json) (result : Named) {r : Named}
    → collect_rules values result ≡ ok r
    → Distinct (names result)
    → (added : Named) × (r ≡ result ++ added)
      × (values ≡ documents added)
      × All (HoldsName "type") added
      × Distinct (names r)
unfolding collect_rules
collect_rules-Distinct [] result h distinct =
    ([], sym (ok-injective h) ∙ sym (append-nil result), refl, tt, rw (← (ok-injective h)) distinct)
  where
    append-nil : (l : Named) → l ++ [] ≡ l
    append-nil [] = refl
    append-nil (x ∷ l) = ap (λ (t : Named). x ∷ t) (append-nil l)
collect_rules-Distinct (value ∷ values) result h distinct =
    let (rule, is_dict, h₁) = or_refuse-eq-ok (as_dict value) _ _ h in
    let (more, is_added, h₂) =
      >>=-eq-ok
        (add_named "type" _ (λ t. "ruleset contains duplicate " <> t <> " rule") rule result) _
        h₁ in
    let (name, holds, same, fresh) = add_named-Distinct "type" _ _ rule result is_added distinct in
    let (added, all, values_same, typed, last) = collect_rules-Distinct values more h₂ fresh in
    (
      (name, rule) ∷ added,
      all ∙ ap (λ (l : Named). l ++ added) same ∙ append_assoc result ((name, rule) ∷ []) added,
      head_cong (as_dict-eq value is_dict) values_same,
      (holds, typed),
      last,
    )
  where
    head_cong : {v w : Json} {vs ws : List Json} → v ≡ w → vs ≡ ws → (v ∷ vs) ≡ (w ∷ ws)
    head_cong p q = λ i. p i ∷ q i

-- The rules of a ruleset, each once, under their types, which are the expected ones.
abbrev pub HasRules : Fields → List String → Named → Type 0
HasRules document expected rules =
    (as_list (get document "rules") ≡ some (documents rules))
    × All (HoldsName "type") rules
    × Distinct (names rules)
    × SameNames (names rules) expected

module _ (R : Runtime) where
  pub rules_by_type-HasRules :
      (document : Fields) (expected : List String) {rules : Named}
      → rules_by_type R document expected ≡ ok rules
      → HasRules document expected rules × (length (documents rules) ≡ length expected)
  unfolding rules_by_type
  rules_by_type-HasRules document expected {rules} h =
      let (values, is_list, h₁) = or_refuse-eq-ok (as_list (get document "rules")) _ _ h in
      let (size, h₂) = ensure-eq-ok (length values == length expected) _ _ h₁ in
      let (result, collected, h₃) = >>=-eq-ok (collect_rules values []) _ h₂ in
      let (exact, h₄) = ensure-eq-ok (same_set (names result) expected) _ _ h₃ in
      let (added, all, values_same, typed, distinct) =
        collect_rules-Distinct values [] collected tt in
      let same : added ≡ rules = sym all ∙ ok-injective h₄ in
      rw (← same) (
        (
          is_list ∙ ap some values_same,
          typed,
          rw all at distinct,
          (same_set_iff _ _).0 (rw all at exact),
        ),
        ap length (sym values_same) ∙ (==_iff _ _).0 size,
      )

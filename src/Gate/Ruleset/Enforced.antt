-- ===== src/Gate/Ruleset/Enforced.antt =====
-- What the two rulesets enforce when they are accepted.
use devpath_shared.Base.{
  ◌≡◌, ◌∙◌, ap, ℕ, ◌⊎◌, inl, inr, true, none, some, [], ◌∷◌, String, All, length, and_iff,
  Bool-cases, arith,
}
use devpath_shared.Base.Result.{ok, >>=-eq-ok, ensure-eq-ok, ensure_iff}
use devpath_shared.Json.{
  Json, text, array, object, nil, cons, Fields, keys, lookup, get, as_list, py_eq, py_eq-text_iff,
  py_eq-nil_iff, py_eq-texts_iff,
}
use devpath_shared.Runtime.{Runtime}
use devpath_shared.Gate.Format.{exact_keys, exact_keys-eq_ok}
use devpath_shared.Gate.Values.{gitops_ref}
use devpath_shared.Gate.Exact.{Same}
use devpath_shared.Gate.Names.{
  Named, item, item-All, same_set, same_set_iff, SameNames, exact_keys-SameNames,
}
use devpath_shared.Gate.Approval.{require_exact}
use devpath_shared.Gate.Approval.Users.{require_exact_iff}
use devpath_shared.Gate.Ruleset.{
  integrity_ruleset_name, governance_ruleset_name, header_values, require_ruleset_bypass_proof,
  integrity_types, require_bare, release_actors, exact_update, validate_ruleset_header,
  rules_by_type, validate_integrity_ruleset, check_update, validate_governance_ruleset,
}
use devpath_shared.Gate.Ruleset.Rules.{documents, HoldsName, HasRules, rules_by_type-HasRules}

-- The ruleset of this name and number is active for the main branch alone.
abbrev pub IsActive : Fields → String → ℕ → Type 0
IsActive document name id =
    (conditions ref_name : Fields) × All (λ (e : String × Json). get document e.0 ≡ e.1)
      (header_values name id)
    × (get document "conditions" ≡ object conditions)
    × SameNames (keys conditions) ("ref_name" ∷ [])
    × (get conditions "ref_name" ≡ object ref_name)
    × SameNames (keys ref_name) ("exclude" ∷ "include" ∷ [])
    × (get ref_name "include" ≡ array (cons (text gitops_ref) nil))
    × (get ref_name "exclude" ≡ array nil)

-- The actors who bypass the rules are these, if they are shown; else the caller's own right is this.
abbrev pub Bypasses : Fields → String → Json → Type 0
Bypasses document can_bypass actors =
    ((v : Json) → lookup "bypass_actors" document ≡ some v → py_eq v actors ≡ true)
    × (lookup "bypass_actors" document ≡ none
        → get document "current_user_can_bypass" ≡ text can_bypass)

-- What the integrity ruleset is to enforce.
abbrev pub KeepsIntegrity : Fields → ℕ → Type 0
KeepsIntegrity document id =
    IsActive document integrity_ruleset_name id
    × Bypasses document "never" (array nil)
    × (rules : Named) × HasRules document integrity_types rules
    × All (λ (e : String × Fields). SameNames (keys e.1) ("type" ∷ [])) rules

-- What the governance ruleset is to enforce.
abbrev pub KeepsGovernance : Fields → ℕ → ℕ → Type 0
KeepsGovernance document id app_id =
    IsActive document governance_ruleset_name id
    × Bypasses document "always" (release_actors app_id)
    × (update : Fields) × (as_list (get document "rules") ≡ some (object update ∷ []))
    × (get update "type" ≡ text "update")
    × (SameNames (keys update) ("type" ∷ []) ⊎ (py_eq (object update) exact_update ≡ true))

bypass-Bypasses :
    (document : Fields) (name can_bypass : String) (actors : Json)
    → require_ruleset_bypass_proof document name can_bypass actors ≡ ok tt
    → Bypasses document can_bypass actors
unfolding require_ruleset_bypass_proof
bypass-Bypasses document name can_bypass actors h = (
  λ v e. ground arith,
  λ e. ground (arith, py_eq-text_iff (get document "current_user_can_bypass") can_bypass),
)

bare-All :
    (rules : Named)
    → require_bare rules ≡ ok tt
    → All (λ (e : String × Fields). SameNames (keys e.1) ("type" ∷ [])) rules
unfolding require_bare
bare-All [] h = tt
bare-All ((rule_type, rule) ∷ rules) h =
    let (bare, more) = ensure-eq-ok (same_set (keys rule) ("type" ∷ [])) _ _ h in
    ((same_set_iff _ _).0 bare, bare-All rules more)

module _ (R : Runtime) where
  header-IsActive :
      (document : Fields) (name : String) (id : ℕ)
      → validate_ruleset_header R document name id ≡ ok tt
      → IsActive document name id
  unfolding validate_ruleset_header Same
  header-IsActive document name id h =
      let (_, exact, h₁) = >>=-eq-ok (require_exact document _ (header_values name id)) _ h in
      let (conditions, is_conditions, h₂) =
        >>=-eq-ok (exact_keys R (get document "conditions") _ _) _ h₁ in
      let (ref_name, is_ref_name, h₃) =
        >>=-eq-ok (exact_keys R (get conditions "ref_name") _ _) _ h₂ in
      let (included, excluded) = (and_iff _ _).0 ((ensure_iff _ _).0 h₃) in
      (
        conditions,
        ref_name,
        (require_exact_iff document _ (header_values name id)).0 exact,
        exact_keys-eq_ok R _ _ _ is_conditions,
        exact_keys-SameNames R _ _ _ is_conditions,
        exact_keys-eq_ok R _ _ _ is_ref_name,
        exact_keys-SameNames R _ _ _ is_ref_name,
        (py_eq-texts_iff _ (gitops_ref ∷ [])).0 included,
        (py_eq-nil_iff _).0 excluded,
      )

  -- An accepted integrity ruleset is active, under its number, for the main branch alone; nobody
  -- bypasses it, as far as the caller is shown; and its rules are exactly the deletion, the
  -- non-fast-forward and the linear-history rule, each once, in any order, and without parameters.
  pub validate_integrity_ruleset-Enforced :
      (document : Fields) (id : ℕ)
      → validate_integrity_ruleset R document id ≡ ok tt
      → KeepsIntegrity document id
  unfolding validate_integrity_ruleset
  validate_integrity_ruleset-Enforced document id h =
      let (_, active, h₁) =
        >>=-eq-ok (validate_ruleset_header R document integrity_ruleset_name id) _ h in
      let (_, bypass, h₂) =
        >>=-eq-ok (require_ruleset_bypass_proof document integrity_ruleset_name "never" (array nil))
          _ h₁ in
      let (rules, has_rules, h₃) = >>=-eq-ok (rules_by_type R document integrity_types) _ h₂ in
      (
        header-IsActive document integrity_ruleset_name id active,
        bypass-Bypasses document integrity_ruleset_name "never" (array nil) bypass,
        rules,
        (rules_by_type-HasRules R document integrity_types has_rules).0,
        bare-All rules h₃,
      )

  update_lem :
      (update : Fields)
      → get update "type" ≡ text "update"
      → check_update R update ≡ ok tt
      → SameNames (keys update) ("type" ∷ []) ⊎ (py_eq (object update) exact_update ≡ true)
  unfolding check_update
  update_lem update typed h = elim (Bool-cases (same_set (keys update) ("type" ∷ []))) [
    | inl bare ↦ inl ((same_set_iff _ _).0 bare)
    | inr shown ↦
        let (exact, is_exact, h₁) =
          >>=-eq-ok (exact_keys R (object update) ("parameters" ∷ "type" ∷ []) _) _
            (rw shown at h) in
        inr
          (same_document (exact_keys-eq_ok R (object update) _ _ is_exact) ((ensure_iff _ _).0 h₁))
  ]
    where
      same_document :
          {exact : Fields}
          → object update ≡ object exact
          → py_eq (object exact) exact_update ≡ true
          → py_eq (object update) exact_update ≡ true
      same_document e g = rw e g

  only_rule :
      (rules : Named) {update : Fields}
      → length (documents rules) ≡ 1
      → All (HoldsName "type") rules
      → item "update" rules ≡ ok update
      → (documents rules ≡ object update ∷ []) × (get update "type" ≡ text "update")
  unfolding item
  only_rule ((name, d) ∷ []) size typed found =
      (ground arith, item-All (HoldsName "type") "update" ((name, d) ∷ []) found typed)
  only_rule [] size typed found = absurd (omega arith)
  only_rule (x ∷ y ∷ rules) size typed found = absurd (omega arith)

  -- An accepted governance ruleset is active, under its number, for the main branch alone; only the
  -- release App bypasses it, as far as the caller is shown; and its one rule is the update rule, which
  -- has no parameters or is the exact one that does not allow fetch and merge.
  pub validate_governance_ruleset-Enforced :
      (document : Fields) (id app_id : ℕ)
      → validate_governance_ruleset R document id app_id ≡ ok tt
      → KeepsGovernance document id app_id
  unfolding validate_governance_ruleset
  validate_governance_ruleset-Enforced document id app_id h =
      let (_, active, h₁) =
        >>=-eq-ok (validate_ruleset_header R document governance_ruleset_name id) _ h in
      let (_, bypass, h₂) =
        >>=-eq-ok
          (require_ruleset_bypass_proof document governance_ruleset_name "always"
            (release_actors app_id))
          _ h₁ in
      let (rules, is_rules, h₃) = >>=-eq-ok (rules_by_type R document ("update" ∷ [])) _ h₂ in
      let (update, found, h₄) = >>=-eq-ok (item "update" rules) _ h₃ in
      let (has_rules, size) = rules_by_type-HasRules R document ("update" ∷ []) is_rules in
      let (only, typed) = only_rule rules size has_rules.1 found in
      (
        header-IsActive document governance_ruleset_name id active,
        bypass-Bypasses document governance_ruleset_name "always" (release_actors app_id) bypass,
        update,
        has_rules.0 ∙ ap some only,
        typed,
        update_lem update typed h₄,
      )

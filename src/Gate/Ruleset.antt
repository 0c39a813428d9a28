-- ===== src/Gate/Ruleset.antt =====
-- The two rulesets of the GitOps main branch: `_validate_ruleset_header`, `_rules_by_type`,
-- `_require_ruleset_bypass_proof`, `_validate_integrity_ruleset` and `_validate_governance_ruleset`.
pub mod Rules
pub mod Enforced
use devpath_shared.Base.{
  ℕ, Bool, true, false, ◌&&◌, not, Option, none, some, List, [], ◌∷◌, ◌++◌, String, ◌<>◌, ◌==◌,
  ◌==ˢ◌, length, if◌then◌else◌,
}
use devpath_shared.Base.Integer.{pos}
use devpath_shared.Base.Result.{Result, ok, err, key_error, ◌>>=◌, ◌>>◌, ensure, or_refuse}
use devpath_shared.Json.{
  Json, boolean, integer, text, array, object, nil, cons, Fields, end, field, keys, contains,
  lookup, get, as_dict, as_list, as_str, py_eq,
}
use devpath_shared.Runtime.{Runtime}
use devpath_shared.Gate.Format.{subset, join_names, exact_keys}
use devpath_shared.Gate.Names.{Named, names, item, same_set, add_named}
use devpath_shared.Gate.Values.{gitops_repository, gitops_ref}
use devpath_shared.Gate.Approval.{require_exact}

abbrev pub integrity_ruleset_name : String
integrity_ruleset_name = "mission-spine-main-integrity"

abbrev pub governance_ruleset_name : String
governance_ruleset_name = "mission-spine-main-governance"

abbrev pub header_values : String → ℕ → List (String × Json)
header_values expected_name expected_id =
    ("id", integer (pos expected_id))
    ∷ ("name", text expected_name)
    ∷ ("target", text "branch")
    ∷ ("source_type", text "Repository")
    ∷ ("source", text gitops_repository)
    ∷ ("enforcement", text "active")
    ∷ []

-- `for value in values` of `_rules_by_type`: the rules so far are `result`.
unfoldable pub collect_rules : List Json → Named → Result Named
collect_rules [] result = ok result
collect_rules (value ∷ values) result = do
  rule ← or_refuse (as_dict value) "ruleset contains an invalid rule"
  more ←
      add_named "type" "ruleset contains an invalid rule"
        (λ rule_type. "ruleset contains duplicate " <> rule_type <> " rule") rule result
  collect_rules values more

-- The visible actors, or what the caller is told of itself when they are hidden.
unfoldable pub require_ruleset_bypass_proof : Fields → String → String → Json → Result (Unit {0})
require_ruleset_bypass_proof document name expected_can_bypass expected_actors =
    elim (lookup "bypass_actors" document) [
      | some actors ↦
          ensure (py_eq actors expected_actors) (name <> " ruleset bypass actors are not exact")
      | none ↦ ensure (py_eq (get document "current_user_can_bypass") (text expected_can_bypass)) (
          name <> " caller bypass capability must be " <> expected_can_bypass
          <> " when bypass_actors is hidden")
    ]

abbrev pub integrity_types : List String
integrity_types = "deletion" ∷ "non_fast_forward" ∷ "required_linear_history" ∷ []

unfoldable pub require_bare : Named → Result (Unit {0})
require_bare [] = ok tt
require_bare ((rule_type, rule) ∷ rules) = do
  ensure (same_set (keys rule) ("type" ∷ []))
      ("integrity " <> rule_type <> " rule must not have parameters")
  require_bare rules

-- `[{"actor_id": app_id, "actor_type": "Integration", "bypass_mode": "always"}]`
abbrev pub release_actors : ℕ → Json
release_actors app_id = array (
    cons
      (object (
        field "actor_id" (integer (pos app_id))
          (field "actor_type" (text "Integration") (field "bypass_mode" (text "always") end))))
      nil)

-- `{"type": "update", "parameters": {"update_allows_fetch_and_merge": False}}`
abbrev pub exact_update : Json
exact_update = object (
    field "type" (text "update")
      (field "parameters" (object (field "update_allows_fetch_and_merge" (boolean false) end)) end))

module _ (R : Runtime) where
  unfoldable pub validate_ruleset_header : Fields → String → ℕ → Result (Unit {0})
  validate_ruleset_header document expected_name expected_id = do
    require_exact document ("ruleset " <> expected_name <> " ")
        (header_values expected_name expected_id)
    conditions ← exact_keys R (get document "conditions") ("ref_name" ∷ []) "conditions"
    ref_name ←
        exact_keys R (get conditions "ref_name") ("exclude" ∷ "include" ∷ []) "ref_name condition"
    ensure
        (py_eq (get ref_name "include") (array (cons (text gitops_ref) nil))
          && py_eq (get ref_name "exclude") (array nil))
        ("ruleset " <> expected_name <> " must target only refs/heads/main")

  -- The set of expected types is given in sorted order.
  unfoldable pub rules_by_type : Fields → List String → Result Named
  rules_by_type document expected = do
    values ←
        or_refuse (as_list (get document "rules"))
          ("ruleset rules must be exactly [" <> join_names R.repr expected <> "]")
    ensure (length values == length expected)
        ("ruleset rules must be exactly [" <> join_names R.repr expected <> "]")
    result ← collect_rules values []
    ensure (same_set (names result) expected)
        ("ruleset rules must be exactly [" <> join_names R.repr expected <> "]")
    ok result

  unfoldable pub validate_integrity_ruleset : Fields → ℕ → Result (Unit {0})
  validate_integrity_ruleset document ruleset_id = do
    validate_ruleset_header document integrity_ruleset_name ruleset_id
    require_ruleset_bypass_proof document integrity_ruleset_name "never" (array nil)
    rules ← rules_by_type document integrity_types
    require_bare rules

  unfoldable pub check_update : Fields → Result (Unit {0})
  check_update update =
      if same_set (keys update) ("type" ∷ [])
      then ensure (py_eq (get update "type") (text "update")) "governance update rule is not exact"
      else (exact_keys R (object update) ("parameters" ∷ "type" ∷ []) "update rule" >>= λ exact.
          ensure (py_eq (object exact) exact_update) "governance update rule is not exact")

  unfoldable pub validate_governance_ruleset : Fields → ℕ → ℕ → Result (Unit {0})
  validate_governance_ruleset document ruleset_id app_id = do
    validate_ruleset_header document governance_ruleset_name ruleset_id
    require_ruleset_bypass_proof document governance_ruleset_name "always" (release_actors app_id)
    rules ← rules_by_type document ("update" ∷ [])
    update ← item "update" rules
    check_update update

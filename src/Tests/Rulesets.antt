-- ===== src/Tests/Rulesets.antt =====
-- The theorems about the protection of the GitOps main branch, at a protected branch.
use devpath_shared.Base.Text.{codes}
use devpath_shared.Gate.Values.{positive_integer, json_array}
use devpath_shared.Json.Hooks.{hooked, unique_object}
use devpath_shared.Base.Decimal.{int_of_text, show_onto, scan, show}
use devpath_shared.Base.Pattern.{fullmatch, matches}
use devpath_shared.Gate.Names.{item, add_named}
use devpath_shared.Gate.Format.{json_object, json_value, positive_integer_string, exact_keys}
use devpath_shared.Gate.Exact.{exact_value}
use devpath_shared.Gate.Approval.{require_exact}
use devpath_shared.Base.{◌≡◌, refl, true, false, [], ◌∷◌, String, ℕ}
use devpath_shared.Base.Integer.{pos}
use devpath_shared.Base.Result.{ok}
use devpath_shared.Json.{
  Json, boolean, integer, text, array, object, Fields, field, end, cons, nil, py_eq, get, lookup,
}
use devpath_shared.Runtime.{Runtime}
use devpath_shared.Gate.Protection.{
  validate_classic_protection, classic_sole_app, validate_disabled_dismissal_restrictions,
  classic_app_only_actors, classic_enabled, check_reviews, is_disabled_dismissal,
}
use devpath_shared.Gate.Ruleset.{
  validate_integrity_ruleset, validate_governance_ruleset, validate_ruleset_header,
  require_ruleset_bypass_proof, rules_by_type, require_bare, check_update, collect_rules,
}
use devpath_shared.Gate.Ruleset.Enforced.{}
use devpath_shared.Gate.Authorization.{
  Authorization, validate_gitops_authorization, check_repositories, id_of, read_summaries,
  flatten_pages, check_rulesets, name_summaries, read_ids, flatten_page, read_details,
  require_summary,
}
use devpath_shared.Gate.Authorization.Granted.{Granted, validate_gitops_authorization-Granted}
use devpath_shared.Tests.Sample.{sha_c, runtime, Table, name_of, sha_of, document_of}

abbrev app : Json
app = object (field "id" (integer (pos 77)) (field "slug" (text "devpath-gitops-release") end))

abbrev app_only : Json
app_only = object (
    field "users" (array nil) (field "teams" (array nil) (field "apps" (array (cons app nil)) end)))

abbrev setting : String → Json → Fields → Fields
setting key v rest = field key (object (field "enabled" v end)) rest

abbrev reviews : Json
reviews = object (
    field "dismiss_stale_reviews" (boolean true) (
      field "require_code_owner_reviews" (boolean false) (
        field "required_approving_review_count" (integer (pos 1)) (
          field "require_last_push_approval" (boolean true) (
            field "dismissal_restrictions"
              (object (
                field "users" (array nil)
                  (field "teams" (array nil) (field "apps" (array nil) end))))
              (field "bypass_pull_request_allowances" app_only end))))))

abbrev protection : Fields
protection = field "restrictions" app_only (
    field "required_pull_request_reviews" reviews (
      setting "enforce_admins" (boolean true) (
        setting "required_linear_history" (boolean true) (
          setting "required_conversation_resolution" (boolean true) (
            setting "allow_force_pushes" (boolean false)
              (setting "allow_deletions" (boolean false) end))))))

abbrev bare_rule : String → Json
bare_rule rule_type = object (field "type" (text rule_type) end)

abbrev with_header : String → ℕ → Fields → Fields
with_header name id rest = field "id" (integer (pos id)) (
    field "name" (text name) (
      field "target" (text "branch") (
        field "source_type" (text "Repository") (
          field "source" (text "DevPathAi/devpath-gitops") (
            field "enforcement" (text "active") (
              field "conditions"
                (object (
                  field "ref_name"
                    (object (
                      field "include" (array (cons (text "refs/heads/main") nil))
                        (field "exclude" (array nil) end)))
                    end))
                rest))))))

abbrev integrity : Fields
integrity = with_header "mission-spine-main-integrity" 31 (
    field "current_user_can_bypass" (text "never") (
      field "rules"
        (array (
          cons (bare_rule "non_fast_forward")
            (cons (bare_rule "deletion") (cons (bare_rule "required_linear_history") nil))))
        end))

abbrev governance : Fields
governance = with_header "mission-spine-main-governance" 32 (
    field "current_user_can_bypass" (text "always")
      (field "rules" (array (cons (bare_rule "update") nil)) end))

abbrev rulesets : Json
rulesets =
    array
      (cons (array (cons (object integrity) nil)) (cons (array (cons (object governance) nil)) nil))

abbrev repositories : Json
repositories = object (
    field "total_count" (integer (pos 1)) (
      field "repositories"
        (array (
          cons
            (object (
              field "id" (integer (pos 3)) (
                field "full_name" (text "DevPathAi/devpath-gitops")
                  (field "archived" (boolean false) end))))
            nil))
        end))

abbrev ruleset_table : Table
ruleset_table =
    (21, "repositories", sha_c, repositories)
    ∷ (22, "protection", sha_c, object protection)
    ∷ (23, "rulesets", sha_c, rulesets)
    ∷ (24, "integrity", sha_c, object integrity)
    ∷ (25, "governance", sha_c, object governance)
    ∷ []

abbrev ruleset_runtime : Runtime
ruleset_runtime = record runtime {
  sha256 = sha_of ruleset_table;
  decode = name_of ruleset_table;
  loads = document_of ruleset_table;
}

branch_is_safe : validate_classic_protection (object protection) 77 ≡ ok tt
unfolding validate_classic_protection get classic_app_only_actors py_eq classic_sole_app
    check_reviews validate_disabled_dismissal_restrictions is_disabled_dismissal classic_enabled
branch_is_safe = refl

integrity_is_exact : validate_integrity_ruleset ruleset_runtime integrity 31 ≡ ok tt
unfolding validate_integrity_ruleset validate_ruleset_header require_exact exact_value get py_eq
    exact_keys require_ruleset_bypass_proof rules_by_type collect_rules add_named require_bare
integrity_is_exact = refl

governance_is_exact : validate_governance_ruleset ruleset_runtime governance 32 77 ≡ ok tt
unfolding validate_governance_ruleset validate_ruleset_header require_exact exact_value get py_eq
    exact_keys require_ruleset_bypass_proof rules_by_type collect_rules add_named item check_update
governance_is_exact = refl

abbrev authorization : Authorization
authorization = record {
  write_app_slug = "devpath-gitops-release";
  write_app_id = 77;
  write_app_installation_id = 88;
}

branch_is_authorized :
    validate_gitops_authorization ruleset_runtime "devpath-gitops-release" "77" "88"
      (21 ∷ [])
      "200"
      (22 ∷ [])
      (23 ∷ [])
      ((24 ∷ []) ∷ (25 ∷ []) ∷ [])
    ≡ ok authorization
unfolding validate_gitops_authorization positive_integer_string fullmatch int_of_text
    check_repositories json_object json_value hooked unique_object get py_eq
    validate_classic_protection classic_app_only_actors classic_sole_app check_reviews
    validate_disabled_dismissal_restrictions is_disabled_dismissal classic_enabled check_rulesets
    read_summaries json_array flatten_pages flatten_page name_summaries add_named scan show
    show_onto matches codes require_exact id_of read_details read_ids require_summary exact_value
    exact_keys item check_update collect_rules require_bare require_ruleset_bypass_proof
    rules_by_type validate_governance_ruleset validate_integrity_ruleset validate_ruleset_header
    positive_integer lookup
branch_is_authorized = refl

validate_gitops_authorization-Granted_example :
    Granted ruleset_runtime "devpath-gitops-release" "77" "88"
      (21 ∷ [])
      "200"
      (22 ∷ [])
      (23 ∷ [])
      ((24 ∷ []) ∷ (25 ∷ []) ∷ [])
      authorization
validate_gitops_authorization-Granted_example =
    validate_gitops_authorization-Granted ruleset_runtime "devpath-gitops-release" "77" "88"
      (21 ∷ []) "200" (22 ∷ []) (23 ∷ []) ((24 ∷ []) ∷ (25 ∷ []) ∷ []) branch_is_authorized

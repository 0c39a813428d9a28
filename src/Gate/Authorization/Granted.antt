-- ===== src/Gate/Authorization/Granted.antt =====
-- What an accepted authorization says of the App, of its installation and of the main branch.
use devpath_shared.Base.{
  ℕ, ◌<◌, ◌≡◌, refl, ◌∙◌, ap, false, ◌&&◌, some, List, [], ◌∷◌, String, ◌==◌, ◌==ˢ◌, eq_iff, All,
  length, and_iff, ==_iff, inl, inr, Bool-cases,
}
use devpath_shared.Base.Integer.{pos}
use devpath_shared.Base.Result.{ok, >>=-eq-ok, ensure-eq-ok, or_refuse-eq-ok, ok-injective}
use devpath_shared.Json.{
  Json, boolean, integer, text, object, Fields, get, as_dict, as_dict-eq, as_list, py_eq,
  py_eq-text_iff,
}
use devpath_shared.Runtime.{Bytes, Runtime}
use devpath_shared.Gate.Format.{max_api_document_bytes, json_object, positive_integer_string}
use devpath_shared.Gate.Values.{
  gitops_repository, gitops_write_app_slug, as_positive, positive_integer, positive_integer-eq_ok,
  is_boolean, is_boolean_iff, is_int, is_int_iff, single, single-eq,
}
use devpath_shared.Gate.Names.{Named, names, item, same_set}
use devpath_shared.Gate.Protection.{validate_classic_protection}
use devpath_shared.Gate.Ruleset.{
  integrity_ruleset_name, governance_ruleset_name, validate_integrity_ruleset,
}
use devpath_shared.Gate.Protection.Safe.{IsSafe, validate_classic_protection-Safe}
use devpath_shared.Gate.Ruleset.Enforced.{
  KeepsIntegrity, KeepsGovernance, validate_integrity_ruleset-Enforced,
  validate_governance_ruleset-Enforced,
}
use devpath_shared.Gate.Authorization.{
  Authorization, require_summary, expected_summary, read_ids, id_of, count_ids, check_repositories,
  read_summaries, read_details, check_rulesets, validate_gitops_authorization,
}

-- A summary of a ruleset, of this name and number, is in force.
abbrev pub Effective : Fields → ℕ → Type 0
Effective summary n =
    (get summary "id" ≡ integer (pos n))
    × (0 < n)
    × All (λ (e : String × String). get summary e.0 ≡ text e.1) expected_summary

require_summary_lem :
    (summary : Fields) (name : String) (expected : List (String × String))
    → require_summary summary name expected ≡ ok tt
    → All (λ (e : String × String). get summary e.0 ≡ text e.1) expected
unfolding require_summary
require_summary_lem summary name [] h = tt
require_summary_lem summary name ((key, value) ∷ rest) h =
    let (same, more) = ensure-eq-ok (py_eq (get summary key) (text value)) _ _ h in
    ((py_eq-text_iff _ value).0 same, require_summary_lem summary name rest more)

-- The number read for a name is the one in the summary of that name.
read_ids-Effective :
    (key : String) (summaries : Named) {ids : List (String × ℕ)} {n : ℕ}
    → read_ids summaries ≡ ok ids
    → id_of key ids ≡ ok n
    → (summary : Fields) × (item key summaries ≡ ok summary) × Effective summary n
unfolding read_ids id_of item
read_ids-Effective key [] {ids} {n} h found = no_entry ids (ok-injective h) found
  where
    no_entry :
        (ids : List (String × ℕ))
        → [] ≡ ids
        → id_of key ids ≡ ok n
        → (summary : Fields) × (item key [] ≡ ok summary) × Effective summary n
    no_entry [] e f = cc
    no_entry (x ∷ xs) e f = cc
read_ids-Effective key ((name, summary) ∷ rest) {ids} {n} h found =
    let (summary_id, is_id, h₁) = >>=-eq-ok (positive_integer (get summary "id") _) _ h in
    let (_, exact, h₂) = >>=-eq-ok (require_summary summary name expected_summary) _ h₁ in
    let (others, read, h₃) = >>=-eq-ok (read_ids rest) _ h₂ in
    let (same, above) = positive_integer-eq_ok _ (get summary "id") is_id in
    here_or_there others summary_id same above
      (require_summary_lem summary name expected_summary exact)
      (λ f. read_ids-Effective key rest read f) (rw (← (ok-injective h₃)) at found)
  where
    here_or_there :
        (others : List (String × ℕ)) (m : ℕ)
        → get summary "id" ≡ integer (pos m)
        → 0 < m
        → All (λ (e : String × String). get summary e.0 ≡ text e.1) expected_summary
        → (id_of key others ≡ ok n → (s : Fields) × (item key rest ≡ ok s) × Effective s n)
        → id_of key ((name, m) ∷ others) ≡ ok n
        → (s : Fields) × (item key ((name, summary) ∷ rest) ≡ ok s) × Effective s n
    here_or_there others m same above exact later f = elim (Bool-cases (name ==ˢ key)) [
      | inl e ↦
          let is_m : m ≡ n = ok-injective (rw e at f) in
          (
            summary,
            rw e refl,
            (same ∙ ap (λ (k : ℕ). integer (pos k)) is_m, rw (← is_m) above, exact),
          )
      | inr e ↦ let (s, there, effective) = later (rw e at f) in (s, rw e there, effective)
    ]

module _ (R : Runtime) where
  -- The token reaches this repository alone.
  abbrev pub Installed : Bytes → Type 0
  Installed raw =
      (repositories repository : Fields) × (id : ℕ) × (json_object R raw "installation repositories"
          max_api_document_bytes
        ≡ ok repositories)
      × (get repositories "total_count" ≡ integer (pos 1))
      × (as_list (get repositories "repositories") ≡ some (object repository ∷ []))
      × (get repository "full_name" ≡ text gitops_repository)
      × (get repository "archived" ≡ boolean false)
      × (as_positive (get repository "id") ≡ some id)

  repositories-Installed : (raw : Bytes) → check_repositories R raw ≡ ok tt → Installed raw
  unfolding check_repositories
  repositories-Installed raw h =
      let (repositories, parsed, h₁) = >>=-eq-ok (json_object R raw _ _) _ h in
      let (total, h₂) = ensure-eq-ok (is_int (get repositories "total_count") 1) _ _ h₁ in
      let (values, is_list, h₃) =
        or_refuse-eq-ok (as_list (get repositories "repositories")) _ _ h₂ in
      let (first, one, h₄) = or_refuse-eq-ok (single values) _ _ h₃ in
      let (repository, is_dict, h₅) = or_refuse-eq-ok (as_dict first) _ _ h₄ in
      let (exact, h₆) =
        ensure-eq-ok
          (py_eq (get repository "full_name") (text gitops_repository)
            && is_boolean (get repository "archived") false)
          _ _ h₅ in
      let (id, is_id, _) = or_refuse-eq-ok (as_positive (get repository "id")) _ _ h₆ in
      let (named, live) = (and_iff _ _).0 exact in
      (
        repositories,
        repository,
        id,
        parsed,
        (is_int_iff _ 1).0 total,
        is_list
            ∙ ap some (single-eq values one ∙ ap (λ (v : Json). v ∷ []) (as_dict-eq first is_dict)),
        (py_eq-text_iff _ gitops_repository).0 named,
        (is_boolean_iff _ false).0 live,
        is_id,
      )

  -- A detailed document of this name, validated under the number of the effective summary.
  abbrev pub Details : Bytes → List Bytes → ℕ → Type 0
  Details rulesets_raw ruleset_details_raw app_id =
      (summaries details : Named) × (integrity governance shown stated : Fields) × (m n : ℕ)
      × (read_summaries R rulesets_raw ≡ ok summaries)
      × (read_details R ruleset_details_raw 0 [] ≡ ok details)
      × (length ruleset_details_raw ≡ 2)
      × (item integrity_ruleset_name details ≡ ok integrity)
      × (item integrity_ruleset_name summaries ≡ ok shown)
      × Effective shown m
      × KeepsIntegrity integrity m
      × (item governance_ruleset_name details ≡ ok governance)
      × (item governance_ruleset_name summaries ≡ ok stated)
      × Effective stated n
      × KeepsGovernance governance n app_id

  rulesets-Details :
      (rulesets_raw : Bytes) (details_raw : List Bytes) (app_id : ℕ)
      → check_rulesets R rulesets_raw details_raw app_id ≡ ok tt
      → Details rulesets_raw details_raw app_id
  unfolding check_rulesets
  rulesets-Details rulesets_raw details_raw app_id h =
      let (summaries, summarised, h₁) = >>=-eq-ok (read_summaries R rulesets_raw) _ h in
      let (ids, are_ids, h₂) = >>=-eq-ok (read_ids summaries) _ h₁ in
      let (_, h₃) = ensure-eq-ok (count_ids ids == 2) _ _ h₂ in
      let (two, h₄) = ensure-eq-ok (length details_raw == 2) _ _ h₃ in
      let (details, detailed, h₅) = >>=-eq-ok (read_details R details_raw 0 []) _ h₄ in
      let (_, h₆) = ensure-eq-ok (same_set (names details) (names summaries)) _ _ h₅ in
      let (integrity, found, h₇) = >>=-eq-ok (item integrity_ruleset_name details) _ h₆ in
      let (m, is_m, h₈) = >>=-eq-ok (id_of integrity_ruleset_name ids) _ h₇ in
      let (_, enforced, h₉) = >>=-eq-ok (validate_integrity_ruleset R integrity m) _ h₈ in
      let (governance, there, h₁₀) = >>=-eq-ok (item governance_ruleset_name details) _ h₉ in
      let (n, is_n, h₁₁) = >>=-eq-ok (id_of governance_ruleset_name ids) _ h₁₀ in
      let (shown, in_summaries, effective) =
        read_ids-Effective integrity_ruleset_name summaries are_ids is_m in
      let (stated, in_summary, effects) =
        read_ids-Effective governance_ruleset_name summaries are_ids is_n in
      (
        summaries,
        details,
        integrity,
        governance,
        shown,
        stated,
        m,
        n,
        summarised,
        detailed,
        (==_iff _ _).0 two,
        found,
        in_summaries,
        effective,
        validate_integrity_ruleset-Enforced R integrity m enforced,
        there,
        in_summary,
        effects,
        validate_governance_ruleset-Enforced R governance n app_id h₁₁,
      )

  -- The App is installed on the one repository, whose main branch is protected.
  abbrev pub Granted :
      String
      → String
      → String
      → Bytes
      → String
      → Bytes
      → Bytes
      → List Bytes
      → Authorization
      → Type 0
  Granted app_slug app_id installation_id repositories_raw status classic_raw rulesets_raw
        details_raw r =
      (app_slug ≡ gitops_write_app_slug)
      × (r.write_app_slug ≡ gitops_write_app_slug)
      × (positive_integer_string (text app_id) "GitOps App id" ≡ ok r.write_app_id)
      × (positive_integer_string (text installation_id) "GitOps App installation id"
          ≡ ok r.write_app_installation_id)
      × Installed repositories_raw
      × (status ≡ "200")
      × (protection : Fields) × (json_object R classic_raw "classic GitOps main protection"
            max_api_document_bytes
          ≡ ok protection)
      × IsSafe (object protection) r.write_app_id
      × Details rulesets_raw details_raw r.write_app_id

  -- When an authorization is accepted, the App is the release App under the returned numbers; its
  -- token reaches the GitOps repository alone, which is not archived; the classic protection of the
  -- main branch is present and safe for this App; the detailed rulesets are two, and the one of either
  -- name enforces integrity or governance under the positive number of the effective summary of that
  -- name, which is in force for this repository.
  pub validate_gitops_authorization-Granted :
      (app_slug app_id installation_id : String) (repositories_raw : Bytes) (status : String)
      (classic_raw rulesets_raw : Bytes) (details_raw : List Bytes) {r : Authorization}
      → validate_gitops_authorization R app_slug app_id installation_id repositories_raw status
          classic_raw rulesets_raw details_raw
        ≡ ok r
      → Granted app_slug app_id installation_id repositories_raw status classic_raw rulesets_raw
          details_raw r
  unfolding validate_gitops_authorization
  validate_gitops_authorization-Granted app_slug app_id installation_id repositories_raw status
        classic_raw rulesets_raw details_raw h =
      let (is_app, h₁) = ensure-eq-ok (app_slug ==ˢ gitops_write_app_slug) _ _ h in
      let (app, is_number, h₂) = >>=-eq-ok (positive_integer_string (text app_id) _) _ h₁ in
      let (installation, is_installation, h₃) =
        >>=-eq-ok (positive_integer_string (text installation_id) _) _ h₂ in
      let (_, installed, h₄) = >>=-eq-ok (check_repositories R repositories_raw) _ h₃ in
      let (present, h₅) = ensure-eq-ok (status ==ˢ "200") _ _ h₄ in
      let (protection, parsed, h₆) = >>=-eq-ok (json_object R classic_raw _ _) _ h₅ in
      let (_, safe, h₇) = >>=-eq-ok (validate_classic_protection (object protection) app) _ h₆ in
      let (_, detailed, h₈) = >>=-eq-ok (check_rulesets R rulesets_raw details_raw app) _ h₇ in
      rw (← (ok-injective h₈)) (
        (eq_iff _ _).0 is_app,
        refl,
        is_number,
        is_installation,
        repositories-Installed repositories_raw installed,
        (eq_iff _ _).0 present,
        protection,
        parsed,
        validate_classic_protection-Safe (object protection) app safe,
        rulesets-Details rulesets_raw details_raw app detailed,
      )

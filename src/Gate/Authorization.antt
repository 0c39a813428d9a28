-- ===== src/Gate/Authorization.antt =====
-- `validate_gitops_authorization`: the release App is installed on the GitOps repository alone, and
-- its main branch is protected by the classic protection and by the two rulesets.
pub mod Granted
use devpath_shared.Base.{
  ℕ, suc, Bool, true, false, ◌&&◌, not, Option, none, some, List, [], ◌∷◌, ◌++◌, String, ◌<>◌, ◌==◌,
  ◌==ˢ◌, length, if◌then◌else◌,
}
use devpath_shared.Base.Integer.{pos}
use devpath_shared.Base.Decimal.{show}
use devpath_shared.Base.Result.{Result, ok, err, key_error, ◌>>=◌, ◌>>◌, ensure, or_refuse}
use devpath_shared.Json.{Json, text, object, Fields, contains, get, as_dict, as_list, as_str, py_eq}
use devpath_shared.Runtime.{Bytes, Runtime}
use devpath_shared.Gate.Format.{max_api_document_bytes, json_object, positive_integer_string}
use devpath_shared.Gate.Values.{
  gitops_repository, gitops_write_app_slug, json_array, as_positive, positive_integer, is_boolean,
  is_int, single,
}
use devpath_shared.Gate.Protection.{validate_classic_protection}
use devpath_shared.Gate.Names.{Named, names, item, same_set, add_named}
use devpath_shared.Gate.Ruleset.{
  integrity_ruleset_name, governance_ruleset_name, validate_integrity_ruleset,
  validate_governance_ruleset,
}

-- The dict that is returned.
pub record Authorization : Type 0 where
  pub write_app_slug : String
  pub write_app_id : ℕ
  pub write_app_installation_id : ℕ

unfoldable pub flatten_page : List Json → List Fields → Result (List Fields)
flatten_page [] flattened = ok flattened
flatten_page (value ∷ values) flattened = do
  summary ← or_refuse (as_dict value) "effective ruleset summary is invalid"
  flatten_page values (flattened ++ summary ∷ [])

unfoldable pub flatten_pages : List Json → List Fields → Result (List Fields)
flatten_pages [] flattened = ok flattened
flatten_pages (page ∷ pages) flattened = do
  values ← or_refuse (as_list page) "effective ruleset page must be an array"
  more ← flatten_page values flattened
  flatten_pages pages more

-- `summaries`, with the summaries so far.
unfoldable pub name_summaries : List Fields → Named → Result Named
name_summaries [] summaries = ok summaries
name_summaries (summary ∷ rest) summaries = do
  more ←
      add_named "name" "effective GitOps ruleset names are not unique"
        (λ _. "effective GitOps ruleset names are not unique") summary summaries
  name_summaries rest more

unfoldable pub require_summary : Fields → String → List (String × String) → Result (Unit {0})
require_summary summary name [] = ok tt
require_summary summary name ((key, expected) ∷ rest) = do
  ensure (py_eq (get summary key) (text expected))
      ("effective ruleset " <> name <> " " <> key <> " is not exact")
  require_summary summary name rest

abbrev pub expected_summary : List (String × String)
expected_summary =
    ("source_type", "Repository") ∷ ("source", gitops_repository) ∷ ("enforcement", "active") ∷ []

-- `summary_ids`
unfoldable pub read_ids : Named → Result (List (String × ℕ))
read_ids [] = ok []
read_ids ((name, summary) ∷ rest) = do
  summary_id ← positive_integer (get summary "id") (name <> " ruleset id")
  require_summary summary name expected_summary
  ids ← read_ids rest
  ok ((name, summary_id) ∷ ids)

-- `d[key]`
unfoldable pub id_of : String → List (String × ℕ) → Result ℕ
id_of key [] = err key_error
id_of key ((name, n) ∷ rest) = let other = id_of key rest in if name ==ˢ key then ok n else other

abbrev has_id : ℕ → List (String × ℕ) → Bool
has_id n [] = false
has_id n ((name, m) ∷ rest) = if m == n then true else has_id n rest

-- `len(set(ids.values()))`
abbrev pub count_ids : List (String × ℕ) → ℕ
count_ids [] = 0
count_ids ((name, n) ∷ rest) = let more = count_ids rest in if has_id n rest then more else suc more

module _ (R : Runtime) where
  unfoldable pub check_repositories : Bytes → Result (Unit {0})
  check_repositories raw = do
    repositories ← json_object R raw "installation repositories" max_api_document_bytes
    ensure (is_int (get repositories "total_count") 1)
        "GitOps App token is not scoped to exactly devpath-gitops"
    values ←
        or_refuse (as_list (get repositories "repositories"))
          "GitOps App token is not scoped to exactly devpath-gitops"
    first ← or_refuse (single values) "GitOps App token is not scoped to exactly devpath-gitops"
    repository ←
        or_refuse (as_dict first) "GitOps App token is not scoped to exactly devpath-gitops"
    ensure
        (py_eq (get repository "full_name") (text gitops_repository)
          && is_boolean (get repository "archived") false)
        "GitOps App token is not scoped to exactly devpath-gitops"
    _ ←
        or_refuse (as_positive (get repository "id"))
          "GitOps App token is not scoped to exactly devpath-gitops"
    ok tt

  unfoldable pub read_summaries : Bytes → Result Named
  read_summaries raw = do
    pages ← json_array R raw "effective GitOps rulesets" max_api_document_bytes
    flattened ← flatten_pages pages []
    ensure (length flattened == 2) "exactly two effective GitOps main rulesets are required"
    summaries ← name_summaries flattened []
    ensure (same_set (names summaries) (integrity_ruleset_name ∷ governance_ruleset_name ∷ []))
        "effective GitOps ruleset names are not exact"
    ok summaries

  -- `details`, with the details so far; `index` counts from zero.
  unfoldable pub read_details : List Bytes → ℕ → Named → Result Named
  read_details [] index details = ok details
  read_details (raw ∷ rest) index details = do
    detail ← json_object R raw ("ruleset detail " <> show (suc index)) max_api_document_bytes
    more ←
        add_named "name" "detailed ruleset names are invalid"
          (λ _. "detailed ruleset names are invalid") detail details
    read_details rest (suc index) more

  unfoldable pub check_rulesets : Bytes → List Bytes → ℕ → Result (Unit {0})
  check_rulesets rulesets_raw ruleset_details_raw app_id = do
    summaries ← read_summaries rulesets_raw
    ids ← read_ids summaries
    ensure (count_ids ids == 2) "effective GitOps ruleset ids are not unique"
    ensure (length ruleset_details_raw == 2) "exactly two detailed ruleset documents are required"
    details ← read_details ruleset_details_raw 0 []
    ensure (same_set (names details) (names summaries))
        "detailed rulesets do not match effective summaries"
    integrity ← item integrity_ruleset_name details
    integrity_id ← id_of integrity_ruleset_name ids
    validate_integrity_ruleset R integrity integrity_id
    governance ← item governance_ruleset_name details
    governance_id ← id_of governance_ruleset_name ids
    validate_governance_ruleset R governance governance_id app_id

  unfoldable pub validate_gitops_authorization :
      String → String → String → Bytes → String → Bytes → Bytes → List Bytes → Result Authorization
  validate_gitops_authorization app_slug app_id installation_id repositories_raw
        classic_protection_status classic_protection_raw rulesets_raw ruleset_details_raw =
      do
        ensure (app_slug ==ˢ gitops_write_app_slug)
            ("GitOps write App slug must equal " <> gitops_write_app_slug)
        expected_app_id ← positive_integer_string (text app_id) "GitOps App id"
        expected_installation_id ←
            positive_integer_string (text installation_id) "GitOps App installation id"
        check_repositories repositories_raw
        ensure (classic_protection_status ==ˢ "200")
            "classic GitOps main branch protection must be present"
        protection ←
            json_object R classic_protection_raw "classic GitOps main protection"
              max_api_document_bytes
        validate_classic_protection (object protection) expected_app_id
        check_rulesets rulesets_raw ruleset_details_raw expected_app_id
        ok (record {
          write_app_slug = gitops_write_app_slug;
          write_app_id = expected_app_id;
          write_app_installation_id = expected_installation_id;
        })

-- ===== src/Gate/Protection.antt =====
-- `_validate_classic_protection`, `_validate_disabled_dismissal_restrictions`,
-- `_classic_app_only_actors`, `_classic_sole_app` and `_classic_enabled`.
pub mod Safe
use devpath_shared.Base.{
  ℕ, Bool, true, false, ◌&&◌, Option, none, some, List, [], ◌∷◌, String, ◌<>◌,
}
use devpath_shared.Base.Integer.{pos}
use devpath_shared.Base.Result.{Result, ok, err, refused, ◌>>=◌, ◌>>◌, ensure, or_refuse}
use devpath_shared.Json.{
  Json, null, integer, text, array, object, nil, Fields, keys, lookup, get, as_dict, as_list, py_eq,
}
use devpath_shared.Gate.Format.{subset}
use devpath_shared.Gate.Values.{gitops_write_app_slug, is_boolean, is_int, single}

abbrev pub classic_dismissal_url : String
classic_dismissal_url =
    "https://api.github.com/repos/DevPathAi/devpath-gitops/branches/main/protection/dismissal_restrictions"

-- `value is None`
abbrev pub is_null : Json → Bool
is_null null = true
is_null _ = false

unfoldable pub classic_sole_app : Json → ℕ → String → Result (Unit {0})
classic_sole_app value app_id label = do
  apps ←
      or_refuse (as_list value)
        ("classic protection " <> label <> " must contain the sole release App")
  first ←
      or_refuse (single apps)
        ("classic protection " <> label <> " must contain the sole release App")
  app ←
      or_refuse (as_dict first)
        ("classic protection " <> label <> " must contain the sole release App")
  ensure
      (py_eq (get app "id") (integer (pos app_id))
        && py_eq (get app "slug") (text gitops_write_app_slug))
      ("classic protection " <> label <> " must contain the sole release App")

unfoldable pub classic_app_only_actors : Json → ℕ → String → Result (Unit {0})
classic_app_only_actors value app_id label = do
  actors ← or_refuse (as_dict value) ("classic protection " <> label <> " is invalid")
  ensure (py_eq (get actors "users") (array nil) && py_eq (get actors "teams") (array nil))
      ("classic protection " <> label <> " users/teams must be empty")
  classic_sole_app (get actors "apps") app_id (label <> " apps")

unfoldable pub classic_enabled : Json → Bool → String → Result (Unit {0})
classic_enabled value expected label = do
  setting ← or_refuse (as_dict value) ("classic protection " <> label <> " is not exact")
  ensure (is_boolean (get setting "enabled") expected)
      ("classic protection " <> label <> " is not exact")

-- `dismissal.get(key, expected) == expected`
abbrev pub absent_or : Option Json → String → Bool
absent_or none expected = true
absent_or (some v) expected = py_eq v (text expected)

abbrev pub dismissal_keys : List String
dismissal_keys = "users" ∷ "teams" ∷ "apps" ∷ []

abbrev pub metadata_keys : List String
metadata_keys = "users" ∷ "teams" ∷ "apps" ∷ "url" ∷ "users_url" ∷ "teams_url" ∷ []

unfoldable pub is_disabled_dismissal : Fields → Bool
is_disabled_dismissal dismissal =
    (subset dismissal_keys (keys dismissal) && subset (keys dismissal) metadata_keys)
    && (py_eq (get dismissal "users") (array nil)
        && (py_eq (get dismissal "teams") (array nil) && py_eq (get dismissal "apps") (array nil)))
    && (absent_or (lookup "url" dismissal) classic_dismissal_url
        && (absent_or (lookup "users_url" dismissal) (classic_dismissal_url <> "/users")
            && absent_or (lookup "teams_url" dismissal) (classic_dismissal_url <> "/teams")))

-- A key that is absent reads as `None`.
unfoldable pub validate_disabled_dismissal_restrictions : Fields → Result (Unit {0})
validate_disabled_dismissal_restrictions reviews = elim (get reviews "dismissal_restrictions") [
  | null ↦ ok tt
  | object dismissal ↦
      ensure (is_disabled_dismissal dismissal)
        "classic dismissal restrictions must be disabled and exact"
  | _ ↦ err (refused "classic dismissal restrictions must be disabled and exact")
]

unfoldable pub check_reviews : Json → ℕ → Result (Unit {0})
check_reviews value app_id = do
  reviews ← or_refuse (as_dict value) "classic pull-request reviews are missing"
  ensure
      ((is_boolean (get reviews "dismiss_stale_reviews") true
          && is_boolean (get reviews "require_code_owner_reviews") false)
        && (is_int (get reviews "required_approving_review_count") 1
            && is_boolean (get reviews "require_last_push_approval") true))
      "classic pull-request review parameters are not exact"
  validate_disabled_dismissal_restrictions reviews
  classic_app_only_actors (get reviews "bypass_pull_request_allowances") app_id "PR bypass"

unfoldable pub validate_classic_protection : Json → ℕ → Result (Unit {0})
validate_classic_protection value app_id = do
  protection ← or_refuse (as_dict value) "classic branch protection response is invalid"
  ensure (is_null (get protection "required_status_checks"))
      "classic required status checks must be absent or null"
  classic_app_only_actors (get protection "restrictions") app_id "push restrictions"
  check_reviews (get protection "required_pull_request_reviews") app_id
  classic_enabled (get protection "enforce_admins") true "administrator enforcement"
  classic_enabled (get protection "required_linear_history") true "linear history"
  classic_enabled (get protection "required_conversation_resolution") true "conversation resolution"
  classic_enabled (get protection "allow_force_pushes") false "force pushes"
  classic_enabled (get protection "allow_deletions") false "deletions"

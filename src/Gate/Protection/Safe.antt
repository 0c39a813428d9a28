-- ===== src/Gate/Protection/Safe.antt =====
-- What the classic protection of the main branch says when it is accepted.
use devpath_shared.Base.{
  ℕ, ◌≡◌, refl, ◌∙◌, ap, Bool, true, false, ◌&&◌, some, [], ◌∷◌, String, ◌<>◌, and_iff, arith,
}
use devpath_shared.Base.Integer.{pos}
use devpath_shared.Base.Result.{ok, >>=-eq-ok, ensure-eq-ok, ensure_iff, or_refuse-eq-ok}
use devpath_shared.Json.{
  Json, null, boolean, integer, float, text, array, object, constant, nil, Fields, keys, contains,
  lookup, get, as_dict, as_dict-eq, as_list, numeric, py_eq, py_eq-text_iff, py_eq-integer_iff,
  py_eq-nil_iff,
}
use devpath_shared.Gate.Names.{subset-contains}
use devpath_shared.Gate.Values.{
  gitops_write_app_slug, is_boolean, is_boolean_iff, is_int, is_int_iff, single, single-eq,
}
use devpath_shared.Gate.Protection.{
  classic_dismissal_url, is_null, classic_sole_app, classic_app_only_actors, classic_enabled,
  absent_or, metadata_keys, is_disabled_dismissal, validate_disabled_dismissal_restrictions,
  check_reviews, validate_classic_protection,
}

-- No user, no team, and the release App alone.
abbrev pub AppOnly : Json → ℕ → Type 0
AppOnly value app_id =
    (actors app : Fields) × (value ≡ object actors)
    × (get actors "users" ≡ array nil)
    × (get actors "teams" ≡ array nil)
    × (as_list (get actors "apps") ≡ some (object app ∷ []))
    × (numeric (get app "id") ≡ some (pos app_id))
    × (get app "slug" ≡ text gitops_write_app_slug)

abbrev pub IsExactly : Json → Bool → Type 0
IsExactly value expected =
    (setting : Fields) × (value ≡ object setting) × (get setting "enabled" ≡ boolean expected)

-- A link that is shown is this one.
abbrev pub Links : Fields → String → String → Type 0
Links d key url = (v : Json) → lookup key d ≡ some v → v ≡ text url

-- Nobody is named who may dismiss a review, and nothing but links stands beside.
abbrev pub NoDismissal : Fields → Type 0
NoDismissal d =
    (get d "users" ≡ array nil)
    × (get d "teams" ≡ array nil)
    × (get d "apps" ≡ array nil)
    × ((k : String) → contains (keys d) k ≡ true → contains metadata_keys k ≡ true)
    × Links d "url" classic_dismissal_url
    × Links d "users_url" (classic_dismissal_url <> "/users")
    × Links d "teams_url" (classic_dismissal_url <> "/teams")

-- The required reviews of a pull request.
abbrev pub Reviewed : Json → ℕ → Type 0
Reviewed value app_id =
    (reviews : Fields) × (value ≡ object reviews)
    × (get reviews "dismiss_stale_reviews" ≡ boolean true)
    × (get reviews "require_code_owner_reviews" ≡ boolean false)
    × (get reviews "required_approving_review_count" ≡ integer (pos 1))
    × (get reviews "require_last_push_approval" ≡ boolean true)
    × ((dismissal : Fields)
        → get reviews "dismissal_restrictions" ≡ object dismissal
        → NoDismissal dismissal)
    × AppOnly (get reviews "bypass_pull_request_allowances") app_id

app_only_lem :
    (value : Json) (app_id : ℕ) (label : String)
    → classic_app_only_actors value app_id label ≡ ok tt
    → AppOnly value app_id
unfolding classic_app_only_actors classic_sole_app
app_only_lem value app_id label h =
    let (actors, is_actors, h₁) = or_refuse-eq-ok (as_dict value) _ _ h in
    let (none_else, h₂) =
      ensure-eq-ok
        (py_eq (get actors "users") (array nil) && py_eq (get actors "teams") (array nil)) _ _ h₁ in
    let (apps, is_apps, h₃) = or_refuse-eq-ok (as_list (get actors "apps")) _ _ h₂ in
    let (first, one, h₄) = or_refuse-eq-ok (single apps) _ _ h₃ in
    let (app, is_app, h₅) = or_refuse-eq-ok (as_dict first) _ _ h₄ in
    let (no_users, no_teams) = (and_iff _ _).0 none_else in
    let (same_id, same_slug) = (and_iff _ _).0 ((ensure_iff _ _).0 h₅) in
    (
      actors,
      app,
      as_dict-eq value is_actors,
      (py_eq-nil_iff _).0 no_users,
      (py_eq-nil_iff _).0 no_teams,
      is_apps ∙ ap some (single-eq apps one ∙ ap (λ (v : Json). v ∷ []) (as_dict-eq first is_app)),
      (py_eq-integer_iff _ (pos app_id)).0 same_id,
      (py_eq-text_iff _ gitops_write_app_slug).0 same_slug,
    )

enabled-IsExactly :
    (value : Json) (expected : Bool) (label : String)
    → classic_enabled value expected label ≡ ok tt
    → IsExactly value expected
unfolding classic_enabled
enabled-IsExactly value expected label h =
    let (setting, is_setting, h₁) = or_refuse-eq-ok (as_dict value) _ _ h in
    (setting, as_dict-eq value is_setting, (is_boolean_iff _ expected).0 ((ensure_iff _ _).0 h₁))

absent_or-Links :
    (d : Fields) (key url : String) → absent_or (lookup key d) url ≡ true → Links d key url
absent_or-Links d key url h v e = ground (arith, py_eq-text_iff v url)

disabled-NoDismissal : (d : Fields) → is_disabled_dismissal d ≡ true → NoDismissal d
unfolding is_disabled_dismissal
disabled-NoDismissal d h =
    let (front, links) = (and_iff _ _).0 h in
    let (shape, empty) = (and_iff _ _).0 front in
    let (users, others) = (and_iff _ _).0 empty in
    let (teams, apps) = (and_iff _ _).0 others in
    let (url, more) = (and_iff _ _).0 links in
    let (users_url, teams_url) = (and_iff _ _).0 more in
    (
      (py_eq-nil_iff _).0 users,
      (py_eq-nil_iff _).0 teams,
      (py_eq-nil_iff _).0 apps,
      λ k. subset-contains (keys d) metadata_keys k ((and_iff _ _).0 shape).1,
      absent_or-Links d "url" classic_dismissal_url url,
      absent_or-Links d "users_url" (classic_dismissal_url <> "/users") users_url,
      absent_or-Links d "teams_url" (classic_dismissal_url <> "/teams") teams_url,
    )

dismissal-NoDismissal :
    (reviews : Fields)
    → validate_disabled_dismissal_restrictions reviews ≡ ok tt
    → (dismissal : Fields) → get reviews "dismissal_restrictions" ≡ object dismissal
    → NoDismissal dismissal
unfolding validate_disabled_dismissal_restrictions
dismissal-NoDismissal reviews h dismissal e =
    disabled-NoDismissal dismissal
      ((ensure_iff _ _).0 (rw (e, validate_disabled_dismissal_restrictions) at h))

reviews-Reviewed :
    (value : Json) (app_id : ℕ) → check_reviews value app_id ≡ ok tt → Reviewed value app_id
unfolding check_reviews
reviews-Reviewed value app_id h =
    let (reviews, is_reviews, h₁) = or_refuse-eq-ok (as_dict value) _ _ h in
    let (parameters, h₂) =
      ensure-eq-ok
        ((is_boolean (get reviews "dismiss_stale_reviews") true
            && is_boolean (get reviews "require_code_owner_reviews") false)
          && (is_int (get reviews "required_approving_review_count") 1
              && is_boolean (get reviews "require_last_push_approval") true))
        _ _ h₁ in
    let (_, dismissal, h₃) = >>=-eq-ok (validate_disabled_dismissal_restrictions reviews) _ h₂ in
    let (first, second) = (and_iff _ _).0 parameters in
    let (stale, owners) = (and_iff _ _).0 first in
    let (one, last) = (and_iff _ _).0 second in
    (
      reviews,
      as_dict-eq value is_reviews,
      (is_boolean_iff _ true).0 stale,
      (is_boolean_iff _ false).0 owners,
      (is_int_iff _ 1).0 one,
      (is_boolean_iff _ true).0 last,
      dismissal-NoDismissal reviews dismissal,
      app_only_lem _ app_id _ h₃,
    )

is_null-eq : (v : Json) → is_null v ≡ true → v ≡ null
is_null-eq null h = refl
is_null-eq (boolean b) h = cc
is_null-eq (integer n) h = cc
is_null-eq (float n r) h = cc
is_null-eq (array xs) h = cc
is_null-eq (object d) h = cc
is_null-eq (text s) h = cc
is_null-eq (constant s) h = cc

abbrev pub IsSafe : Json → ℕ → Type 0
IsSafe value app_id =
    (protection : Fields) × (value ≡ object protection)
    × (get protection "required_status_checks" ≡ null)
    × AppOnly (get protection "restrictions") app_id
    × Reviewed (get protection "required_pull_request_reviews") app_id
    × IsExactly (get protection "enforce_admins") true
    × IsExactly (get protection "required_linear_history") true
    × IsExactly (get protection "required_conversation_resolution") true
    × IsExactly (get protection "allow_force_pushes") false
    × IsExactly (get protection "allow_deletions") false

-- An accepted classic protection requires no status check, lets only the release App push, requires
-- one approving review of the last push that no stale review gives and nobody may dismiss, lets only
-- the release App go round the pull request, binds administrators, requires a linear history and
-- resolved conversations, and forbids forced pushes and deletions.
pub validate_classic_protection-Safe :
    (value : Json) (app_id : ℕ)
    → validate_classic_protection value app_id ≡ ok tt
    → IsSafe value app_id
unfolding validate_classic_protection
validate_classic_protection-Safe value app_id h =
    let (p, is_p, h₁) = or_refuse-eq-ok (as_dict value) _ _ h in
    let (no_checks, h₂) = ensure-eq-ok (is_null (get p "required_status_checks")) _ _ h₁ in
    let (_, restricted, h₃) =
      >>=-eq-ok (classic_app_only_actors (get p "restrictions") app_id _) _ h₂ in
    let (_, reviewed, h₄) =
      >>=-eq-ok (check_reviews (get p "required_pull_request_reviews") app_id) _ h₃ in
    let (_, admins, h₅) = >>=-eq-ok (classic_enabled (get p "enforce_admins") true _) _ h₄ in
    let (_, linear, h₆) =
      >>=-eq-ok (classic_enabled (get p "required_linear_history") true _) _ h₅ in
    let (_, resolved, h₇) =
      >>=-eq-ok (classic_enabled (get p "required_conversation_resolution") true _) _ h₆ in
    let (_, unforced, h₈) = >>=-eq-ok (classic_enabled (get p "allow_force_pushes") false _) _ h₇ in
    (
      p,
      as_dict-eq value is_p,
      is_null-eq _ no_checks,
      app_only_lem _ app_id _ restricted,
      reviews-Reviewed _ app_id reviewed,
      enabled-IsExactly _ true _ admins,
      enabled-IsExactly _ true _ linear,
      enabled-IsExactly _ true _ resolved,
      enabled-IsExactly _ false _ unforced,
      enabled-IsExactly _ false _ h₈,
    )

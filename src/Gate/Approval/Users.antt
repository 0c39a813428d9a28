-- ===== src/Gate/Approval/Users.antt =====
-- Who starts, reviews and is configured to review a run.
use devpath_shared.Base.{
  ℕ, ◌<◌, ◌≡◌, ◌∙◌, ap, ◌↔◌, true, some, List, [], ◌∷◌, String, ◌<>◌, All, arith,
}
use devpath_shared.Base.Integer.{pos}
use devpath_shared.Base.Result.{ok, >>=-eq-ok, ensure-eq-ok, or_refuse-eq-ok, ok-injective}
use devpath_shared.Context.{Env, Binds, require_env, require_env_iff}
use devpath_shared.Context.Source.{sha40}
use devpath_shared.Json.{
  Json, null, boolean, integer, float, text, array, object, constant, Fields, get, as_dict, as_list,
  as_dict-eq, py_eq-text_iff,
}
use devpath_shared.Gate.Format.{
  is_nonzero, nonzero, nonzero-eq_ok, of_env, of_env-text, positive_integer_string,
}
use devpath_shared.Gate.Values.{
  positive_integer, positive_integer-eq_ok, is_boolean, is_boolean_iff, single, single-eq, is_login,
  login, login-eq_ok, initiator_login, initiator_login-eq_ok,
}
use devpath_shared.Gate.Exact.{exact_value, exact_value-Same, Same}
use devpath_shared.Gate.Approval.{
  environment_name, approval_context, Run, read_run, User, read_user, as_user, configured_reviewer,
  check_approved_environment, require_exact,
}

-- The environment variables of the run.
abbrev pub Starts : Env → Run → Type 0
Starts env run =
    (env "GITHUB_SHA" ≡ some run.source_sha)
    × (is_nonzero sha40 run.source_sha ≡ true)
    × All (Binds env) (approval_context run.source_sha)
    × (env "GITHUB_ACTOR" ≡ some run.actor)
    × (env "GITHUB_TRIGGERING_ACTOR" ≡ some run.triggering_actor)

-- A dict names a user.
abbrev pub Names : Fields → User → Type 0
Names d user =
    (get d "login" ≡ text user.login)
    × (is_login user.login ≡ true)
    × (get d "id" ≡ integer (pos user.id))
    × (0 < user.id)

pub read_run-Starts : (env : Env) {run : Run} → read_run env ≡ ok run → Starts env run
unfolding read_run
read_run-Starts env h =
    let (sha, is_sha, h₁) = >>=-eq-ok (nonzero sha40 (of_env (env "GITHUB_SHA")) _) _ h in
    let (_, bound, h₂) = >>=-eq-ok (require_env env (approval_context sha)) _ h₁ in
    let (_, _, h₃) = >>=-eq-ok (positive_integer_string (of_env (env "GITHUB_RUN_ID")) _) _ h₂ in
    let (actor, is_actor, h₄) = >>=-eq-ok (initiator_login (of_env (env "GITHUB_ACTOR")) _) _ h₃ in
    let (triggering, is_triggering, h₅) =
      >>=-eq-ok (initiator_login (of_env (env "GITHUB_TRIGGERING_ACTOR")) _) _ h₄ in
    let (same, good) = nonzero-eq_ok sha40 _ _ is_sha in
    rw (← (ok-injective h₅)) (
      of_env-text _ same,
      good,
      (require_env_iff env (approval_context sha)).0 bound,
      of_env-text _ (initiator_login-eq_ok _ _ is_actor).0,
      of_env-text _ (initiator_login-eq_ok _ _ is_triggering).0,
    )

pub read_user-Names :
    (d : Fields) (l m : String) {user : User} → read_user d l m ≡ ok user → Names d user
unfolding read_user
read_user-Names d l m h =
    let (name, is_name, h₁) = >>=-eq-ok (login (get d "login") l) _ h in
    let (number, is_number, h₂) = >>=-eq-ok (positive_integer (get d "id") m) _ h₁ in
    let (same, good) = login-eq_ok l _ is_name in
    rw (← (ok-injective h₂)) (
      same,
      good,
      (positive_integer-eq_ok m _ is_number).0,
      (positive_integer-eq_ok m _ is_number).1,
    )

pub as_user-eq :
    (v : Json) {d : Fields} → as_user v ≡ some d → (v ≡ object d) × (get d "type" ≡ text "User")
unfolding as_user
as_user-eq (object e) h = ground (arith, py_eq-text_iff (get e "type") "User")
as_user-eq null h = cc
as_user-eq (boolean b) h = cc
as_user-eq (integer n) h = cc
as_user-eq (float n r) h = cc
as_user-eq (array xs) h = cc
as_user-eq (text s) h = cc
as_user-eq (constant s) h = cc

-- A required-reviewers rule forbids self review and names one user.
abbrev pub Requires : Fields → User → Type 0
Requires rule user =
    (get rule "prevent_self_review" ≡ boolean true)
    × (entry d : Fields) × (as_list (get rule "reviewers") ≡ some (object entry ∷ []))
    × (get entry "type" ≡ text "User")
    × (get entry "reviewer" ≡ object d)
    × (get d "type" ≡ text "User")
    × Names d user

pub configured_reviewer-Requires :
    (rule : Fields) {user : User} → configured_reviewer rule ≡ ok user → Requires rule user
unfolding configured_reviewer
configured_reviewer-Requires rule h =
    let (prevents, h₁) = ensure-eq-ok (is_boolean (get rule "prevent_self_review") true) _ _ h in
    let (configured, is_list, h₂) = or_refuse-eq-ok (as_list (get rule "reviewers")) _ _ h₁ in
    let (first, one, h₃) = or_refuse-eq-ok (single configured) _ _ h₂ in
    let (entry, is_entry, h₄) = or_refuse-eq-ok (as_user first) _ _ h₃ in
    let (user, is_user, h₅) = or_refuse-eq-ok (as_user (get entry "reviewer")) _ _ h₄ in
    let (same, direct) = as_user-eq first is_entry in
    let (same_user, typed) = as_user-eq (get entry "reviewer") is_user in
    (
      (is_boolean_iff _ true).0 prevents,
      entry,
      user,
      is_list ∙ ap some (single-eq configured one ∙ ap (λ (v : Json). v ∷ []) same),
      direct,
      same_user,
      typed,
      read_user-Names user _ _ h₅,
    )

pub approved_environment_lem :
    (v : Json) (environment_id : ℕ)
    → check_approved_environment v environment_id ≡ ok tt
    → (approved : Fields) × (as_list v ≡ some (object approved ∷ []))
      × (get approved "id" ≡ integer (pos environment_id))
      × (get approved "name" ≡ text environment_name)
unfolding check_approved_environment Same
approved_environment_lem v environment_id h =
    let (values, is_list, h₁) = or_refuse-eq-ok (as_list v) _ _ h in
    let (first, one, h₂) = or_refuse-eq-ok (single values) _ _ h₁ in
    let (approved, is_dict, h₃) = or_refuse-eq-ok (as_dict first) _ _ h₂ in
    let (_, named, h₄) =
      >>=-eq-ok (exact_value (get approved "id") (integer (pos environment_id)) _) _ h₃ in
    (
      approved,
      is_list
          ∙ ap some (single-eq values one ∙ ap (λ (v : Json). v ∷ []) (as_dict-eq first is_dict)),
      (exact_value-Same _ _ _).0 named,
      (exact_value-Same _ _ _).0 h₄,
    )

pub require_exact_iff :
    (d : Fields) (label : String) (expected : List (String × Json))
    → (require_exact d label expected ≡ ok tt)
      ↔ All (λ (e : String × Json). Same (get d e.0) e.1) expected
unfolding require_exact
require_exact_iff d label [] = ground arith
require_exact_iff d label ((key, value) ∷ rest) =
    ground
      (arith, exact_value-Same (get d key) value (label <> key), require_exact_iff d label rest)

pub user-cong : (u v : User) → u.login ≡ v.login → u.id ≡ v.id → u ≡ v
user-cong u v h g = λ i. record { login = h i; id = g i }

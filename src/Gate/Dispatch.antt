-- ===== src/Gate/Dispatch.antt =====
-- `validate_dispatch_context`: which run may release the migration.
use devpath_shared.Base.{
  ℕ, ◌≡◌, refl, ◌↔◌, ◌⊎◌, inl, inr, Bool, true, false, Option, none, some, List, [], ◌∷◌, String,
  ◌<>◌, ◌==ˢ◌, eq_iff, All, arith,
}
use devpath_shared.Base.Decimal.{int_of_text}
use devpath_shared.Base.Pattern.{fullmatch}
use devpath_shared.Base.Result.{Error, Result, ok, err, refused, ◌>>=◌, ◌>>◌, ensure}
use devpath_shared.Context.{Env, require_env, require_env_iff, Binds}
use devpath_shared.Context.Source.{sha40}
use devpath_shared.Json.{text, null}
use devpath_shared.Gate.Format.{
  repository, workflow_ref, job_name, is_nonzero, nonzero, of_env, positive_integer_string,
  positive_integer_pattern,
}

abbrev pub dispatch_context : String → List (String × String)
dispatch_context expected_source_sha =
    ("GITHUB_REPOSITORY", repository)
    ∷ ("GITHUB_EVENT_NAME", "workflow_dispatch")
    ∷ ("GITHUB_REF", "refs/heads/main")
    ∷ ("GITHUB_RUN_ATTEMPT", "1")
    ∷ ("GITHUB_WORKFLOW_REF", workflow_ref)
    ∷ ("GITHUB_WORKFLOW_SHA", expected_source_sha)
    ∷ ("GITHUB_JOB", job_name)
    ∷ []

-- The checks behind the loop, of the run's commit and its id.
unfoldable pub check_source :
    Option String → Option String → String → String → String → String → Result (Unit {0})
check_source sha run_id head_sha remote_main_sha status expected_source_sha = do
  source_sha ← nonzero sha40 (of_env sha) "GITHUB_SHA"
  _ ← nonzero sha40 (text expected_source_sha) "source_sha"
  ensure (source_sha ==ˢ expected_source_sha) "source_sha input does not equal GITHUB_SHA"
  ensure (head_sha ==ˢ source_sha) "checked-out HEAD does not equal GITHUB_SHA"
  ensure (remote_main_sha ==ˢ source_sha) "GITHUB_SHA is not the current origin/main head"
  ensure (status ==ˢ "") "migration release checkout is not clean"
  _ ← positive_integer_string (of_env run_id) "GITHUB_RUN_ID"
  ok tt

unfoldable pub validate_dispatch_context :
    Env → String → String → String → String → Result (Unit {0})
validate_dispatch_context env head_sha remote_main_sha status expected_source_sha = do
  require_env env (dispatch_context expected_source_sha)
  check_source (env "GITHUB_SHA") (env "GITHUB_RUN_ID") head_sha remote_main_sha status
      expected_source_sha

-- The run's id, as the pattern of positive integers has it.
abbrev pub HasRunId : Option String → Type 0
HasRunId none = ⊥
HasRunId (some s) = (fullmatch positive_integer_pattern s ≡ true) × ¬ (int_of_text s ≡ none)

run_id_cases :
    (s label : String)
    → ((n : ℕ) × (positive_integer_string (text s) label ≡ ok n) × HasRunId (some s))
      ⊎ ((e : Error) × (positive_integer_string (text s) label ≡ err e) × ¬ HasRunId (some s))
unfolding positive_integer_string
run_id_cases s label = split (fullmatch positive_integer_pattern s) (int_of_text s) refl refl
  where
    split :
        (b : Bool) (o : Option ℕ)
        → fullmatch positive_integer_pattern s ≡ b
        → int_of_text s ≡ o
        → ((n : ℕ) × (positive_integer_string (text s) label ≡ ok n) × HasRunId (some s))
          ⊎ ((e : Error) × (positive_integer_string (text s) label ≡ err e) × ¬ HasRunId (some s))
    split true (some n) e f = inl (n, ground (arith, e, f), (e, λ g. cc))
    split true none e f =
        inr (
          refused (label <> " must be a positive decimal integer"),
          ground (arith, e, f),
          λ g. g.1 f,
        )
    split false o e f =
        inr (refused (label <> " must be a positive decimal integer"), ground (arith, e), λ g. cc)

missing_run_id : (e : Error) × (positive_integer_string null "GITHUB_RUN_ID" ≡ err e)
unfolding positive_integer_string
missing_run_id = (_, refl)

check_source_iff :
    (sha run_id : Option String) (head_sha remote_main_sha status expected : String)
    → (check_source sha run_id head_sha remote_main_sha status expected ≡ ok tt) ↔ (
        (sha ≡ some expected)
        × (is_nonzero sha40 expected ≡ true)
        × (head_sha ≡ expected)
        × (remote_main_sha ≡ expected)
        × (status ≡ "")
        × HasRunId run_id)
unfolding check_source is_nonzero nonzero
check_source_iff none run_id head_sha remote_main_sha status expected = ground arith
check_source_iff (some s) none head_sha remote_main_sha status expected = ground (
  arith,
  missing_run_id,
  eq_iff s expected,
  eq_iff head_sha s,
  eq_iff remote_main_sha s,
  eq_iff status "",
)
check_source_iff (some s) (some r) head_sha remote_main_sha status expected =
    elim (run_id_cases r "GITHUB_RUN_ID") [
      | inl (n, e, h) ↦ ground (
        arith,
        e,
        h,
        eq_iff s expected,
        eq_iff head_sha s,
        eq_iff remote_main_sha s,
        eq_iff status "",
      )
      | inr (x, e, h) ↦ ground (
        arith,
        e,
        h,
        eq_iff s expected,
        eq_iff head_sha s,
        eq_iff remote_main_sha s,
        eq_iff status "",
      )
    ]

-- The release goes on exactly in the first attempt of the deploy job of the release workflow, dispatched
-- on main at the commit that the input names, which is a nonzero commit name, the checked-out head and
-- the head of main, in a clean checkout with a positive run id.
pub validate_dispatch_context_iff :
    (env : Env) (head_sha remote_main_sha status expected_source_sha : String)
    → (validate_dispatch_context env head_sha remote_main_sha status expected_source_sha ≡ ok tt)
      ↔ (All (Binds env) (dispatch_context expected_source_sha)
          × (env "GITHUB_SHA" ≡ some expected_source_sha)
          × (is_nonzero sha40 expected_source_sha ≡ true)
          × (head_sha ≡ expected_source_sha)
          × (remote_main_sha ≡ expected_source_sha)
          × (status ≡ "")
          × HasRunId (env "GITHUB_RUN_ID"))
unfolding validate_dispatch_context
validate_dispatch_context_iff env head_sha remote_main_sha status expected_source_sha = ground (
  arith,
  require_env_iff env (dispatch_context expected_source_sha),
  check_source_iff (env "GITHUB_SHA") (env "GITHUB_RUN_ID") head_sha remote_main_sha status
      expected_source_sha,
)

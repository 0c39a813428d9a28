-- ===== src/Package/Source.antt =====
-- `validate_source_identity`
use devpath_shared.Base.{◌≡◌, ◌↔◌, true, List, [], ◌∷◌, String, ◌==ˢ◌, eq_iff, All, arith}
use devpath_shared.Base.Result.{Result, ok, ◌>>◌, ensure}
use devpath_shared.Context.{Env, or_empty, require_env, require_env_iff, Binds}
use devpath_shared.Context.Source.{is_source_sha}
use devpath_shared.Package.Artifact.{repository}

abbrev pub push_context : List (String × String)
push_context =
    ("GITHUB_REPOSITORY", repository)
    ∷ ("GITHUB_EVENT_NAME", "push")
    ∷ ("GITHUB_REF", "refs/heads/main")
    ∷ ("GITHUB_RUN_ATTEMPT", "1")
    ∷ []

unfoldable pub validate_source_identity : Env → String → String → String → Result (Unit {0})
validate_source_identity env head_sha remote_main_sha status = do
  require_env env push_context
  let source_sha = or_empty (env "GITHUB_SHA")
  ensure (is_source_sha source_sha) "GITHUB_SHA must be one nonzero lowercase SHA-1"
  ensure (head_sha ==ˢ source_sha) "checked-out HEAD does not equal GITHUB_SHA"
  ensure (remote_main_sha ==ˢ source_sha) "GITHUB_SHA is not the current origin/main head"
  ensure (status ==ˢ "") "publication checkout is not clean"

-- The publication goes on exactly in the first attempt of a push to main of the repository, at a
-- nonzero lowercase commit name that is both the checked-out head and the head of main, in a clean
-- checkout.
pub validate_source_identity_iff :
    (env : Env) (head_sha remote_main_sha status : String)
    → (validate_source_identity env head_sha remote_main_sha status ≡ ok tt) ↔ (
        All (Binds env) push_context
        × (is_source_sha head_sha ≡ true)
        × (or_empty (env "GITHUB_SHA") ≡ head_sha)
        × (remote_main_sha ≡ head_sha)
        × (status ≡ ""))
unfolding validate_source_identity
validate_source_identity_iff env head_sha remote_main_sha status =
    let s = or_empty (env "GITHUB_SHA") in
    ground (
      arith,
      require_env_iff env push_context,
      eq_iff head_sha s,
      eq_iff remote_main_sha s,
      eq_iff status "",
    )

-- ===== src/Image/Workflow/Source.antt =====
-- `validate_ci_context`: which run may publish the image.
use devpath_shared.Base.{
  ℕ, ◌≡◌, ◌<◌, ◌≤◌, refl, sym, ap, ◌∙◌, ◌↔◌, true, ◌&&◌, Option, none, some, List, [], ◌∷◌, String,
  ◌==ˢ◌, eq_iff, All, arith, length, ltb, if◌then◌else◌,
}
use devpath_shared.Base.Text.{codes}
use devpath_shared.Base.Decimal.{max_int_digits, show, int_of_text}
use devpath_shared.Base.Result.{Result, ok, err, refused, value_error, ◌>>◌, ensure}
use devpath_shared.Context.{
  Env, or_empty, is_text, is_text_iff, require_env, require_env_iff, Binds,
}
use devpath_shared.Context.Source.{is_source_sha}
use devpath_shared.Image.Format.{repository}

abbrev pub push_context : List (String × String)
push_context =
    ("GITHUB_REPOSITORY", repository)
    ∷ ("GITHUB_EVENT_NAME", "push")
    ∷ ("GITHUB_REF", "refs/heads/main")
    ∷ ("GITHUB_RUN_ATTEMPT", "1")
    ∷ []

-- `isdecimal` also knows the digits of other scripts, whose canonical form is another text: they are
-- refused here with the rest.
unfoldable pub require_run_id : String → Result (Unit {0})
require_run_id run_id = elim (int_of_text run_id) [
  | none ↦ err (refused "GITHUB_RUN_ID must be one positive canonical integer")
  | some n ↦
      if ltb max_int_digits (length (codes run_id))
      then err value_error
      else ensure ((show n ==ˢ run_id) && ltb 0 n)
          "GITHUB_RUN_ID must be one positive canonical integer"
]

unfoldable pub validate_ci_context : Env → String → String → String → String → Result (Unit {0})
validate_ci_context env source_sha head_sha remote_main_sha status = do
  require_env env push_context
  ensure (is_source_sha source_sha && is_text (env "GITHUB_SHA") source_sha)
      "GITHUB_SHA must equal one nonzero lowercase source SHA"
  require_run_id (or_empty (env "GITHUB_RUN_ID"))
  ensure (head_sha ==ˢ source_sha) "checked-out HEAD does not equal GITHUB_SHA"
  ensure (remote_main_sha ==ˢ source_sha) "GITHUB_SHA is not the current origin/main head"
  ensure (status ==ˢ "") "migration image checkout is not clean"

-- A text that is the canonical form of a positive number, and not too long for `int`.
abbrev pub IsRunId : String → Type 0
IsRunId s =
    (n : ℕ) × (0 < n)
    × (length (codes s) ≤ max_int_digits)
    × (int_of_text s ≡ some n)
    × (show n ≡ s)

require_run_id_iff : (s : String) → (require_run_id s ≡ ok tt) ↔ IsRunId s
unfolding require_run_id
require_run_id_iff s = split (int_of_text s) refl
  where
    split : (o : Option ℕ) → int_of_text s ≡ o → (require_run_id s ≡ ok tt) ↔ IsRunId s
    split none e = (λ h. absurd (ground arith), λ (n, l, b, f, g). absurd (ground arith))
    split (some n) e = (
      λ h. (
        n,
        ground (arith, eq_iff (show n) s),
        ground (arith, eq_iff (show n) s),
        e,
        ground (arith, eq_iff (show n) s),
      ),
      λ (k, l, b, f, g).
          let same : k ≡ n = ground arith in
          let shown : show n ≡ s = sym (ap show same) ∙ g in ground (arith, eq_iff (show n) s),
    )

-- The image may be published exactly in the first attempt of a push to main of the repository, with a
-- canonical positive run id, at a nonzero lowercase commit name that is the run's, the checked-out
-- head and the head of main, in a clean checkout.
pub validate_ci_context_iff :
    (env : Env) (source_sha head_sha remote_main_sha status : String)
    → (validate_ci_context env source_sha head_sha remote_main_sha status ≡ ok tt) ↔ (
        All (Binds env) push_context
        × (is_source_sha source_sha ≡ true)
        × (env "GITHUB_SHA" ≡ some source_sha)
        × IsRunId (or_empty (env "GITHUB_RUN_ID"))
        × (head_sha ≡ source_sha)
        × (remote_main_sha ≡ source_sha)
        × (status ≡ ""))
unfolding validate_ci_context
validate_ci_context_iff env source_sha head_sha remote_main_sha status =
    let run_iff = require_run_id_iff (or_empty (env "GITHUB_RUN_ID")) in
    ground (
      arith,
      require_env_iff env push_context,
      is_text_iff (env "GITHUB_SHA") source_sha,
      run_iff,
      eq_iff head_sha source_sha,
      eq_iff remote_main_sha source_sha,
      eq_iff status "",
    )

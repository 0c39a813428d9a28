-- ===== src/Gate/BaseJob/Bound.antt =====
-- An accepted base job is bound to one commit.
use devpath_shared.Base.{◌≡◌, sym, ◌∙◌, ap, some, [], ◌∷◌, ◌&&◌, String, ◌<>◌, ◌==◌, and_iff}
use mathlib.Core.Option.{some-injective}
use devpath_shared.Base.Result.{ok, >>=-eq-ok, ensure-eq-ok}
use devpath_shared.Context.Source.{sha40}
use devpath_shared.Json.{text}
use devpath_shared.Runtime.{Bytes, Runtime}
use devpath_shared.Gate.Format.{nonzero, nonzero_iff}
use devpath_shared.Gate.Facts.{eq_lists, eq_lists_iff}
use devpath_shared.Gate.Text.{lf_text, lf_text-eq_ok}
use devpath_shared.Gate.Scan.{count_text}
use devpath_shared.Gate.BaseJob.{
  max_job_bytes, is_inert, check_containers, commits_in, check_binding, validate_base_migration_job,
}

commits_lem :
    (source_sha content : String)
    → check_binding source_sha content ≡ ok tt
    → commits_in content ≡ source_sha ∷ source_sha ∷ []
unfolding check_binding
commits_lem source_sha content h =
    let (bound, _) =
      ensure-eq-ok
        (eq_lists (commits_in content) (source_sha ∷ source_sha ∷ [])
          && (count_text ("test \"$EXPECTED_SHARED_COMMIT\" = \"" <> (source_sha <> "\"")) content
              == 1))
        _ _ h in
    (eq_lists_iff _ _).0 ((and_iff _ _).0 bound).0

module _ (R : Runtime) where
  -- What an accepted job is read as, and the commit that it names in both of its containers.
  bound_lem :
      (raw : Bytes) (expected_shared_commit : String)
      → validate_base_migration_job R raw expected_shared_commit ≡ ok tt
      → (content : String) × (R.decode raw ≡ some content)
        × (commits_in content ≡ expected_shared_commit ∷ expected_shared_commit ∷ [])
  unfolding validate_base_migration_job
  bound_lem raw expected h =
      let (content, read, h₁) = >>=-eq-ok (lf_text R raw "base migration Job" max_job_bytes) _ h in
      let (source_sha, is_sha, h₂) =
        >>=-eq-ok (nonzero sha40 (text expected) "expected shared commit") _ h₁ in
      let (_, h₃) = ensure-eq-ok (is_inert content) _ _ h₂ in
      let (_, _, h₄) = >>=-eq-ok (check_containers content) _ h₃ in
      let same = ((nonzero_iff sha40 expected "expected shared commit" source_sha).0 is_sha).0 in
      let (_, _, _, _, _, decoded) = lf_text-eq_ok R raw "base migration Job" max_job_bytes read in
      (content, decoded, commits_lem source_sha content h₄ ∙ ap (λ (s : String). s ∷ s ∷ []) same)

  -- A base job is accepted for one commit at most: if it is accepted for two, they are the same.
  pub validate_base_migration_job-commit :
      (raw : Bytes) (commit other : String)
      → validate_base_migration_job R raw commit ≡ ok tt
      → validate_base_migration_job R raw other ≡ ok tt
      → commit ≡ other
  validate_base_migration_job-commit raw commit other h k =
      let (content, read, names) = bound_lem raw commit h in
      let (content', read', names') = bound_lem raw other k in
      let same : content ≡ content' = some-injective _ _ (sym read ∙ read') in
      let pairs : commit ∷ commit ∷ [] ≡ other ∷ other ∷ [] =
        sym names ∙ ap commits_in same ∙ names' in
      cc

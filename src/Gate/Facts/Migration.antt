-- ===== src/Gate/Facts/Migration.antt =====
-- Which migration commits are accepted.
use devpath_shared.Base.{◌≡◌, ◌≢◌, ◌↔◌, ◌⊎◌, true, ◌==ˢ◌, eq_iff, arith}
use devpath_shared.Base.Pattern.{fullmatch}
use devpath_shared.Base.Result.{ok, ensure, ◌>>=◌, >>=-eq-ok}
use devpath_shared.Context.Source.{sha40, sha64}
use devpath_shared.Json.{contains}
use devpath_shared.Gate.Format.{bot_name, migration_paths, release_pattern, is_nonzero, nonzero}
use devpath_shared.Gate.Facts.{
  CommitFacts, migration_subject, publish_modes, eq_lists_iff, check_formats, check_commit,
  expected_pre_push, facts_of, validate_migration_facts,
}

-- The names are well formed and not all zeroes.
abbrev pub WellFormed : CommitFacts → Type 0
WellFormed f =
    (fullmatch release_pattern f.release_id ≡ true)
    × (is_nonzero sha64 f.release_manifest_sha256 ≡ true)
    × (is_nonzero sha40 f.gitops_base_sha ≡ true)
    × (is_nonzero sha40 f.pre_push_main_sha ≡ true)
    × (is_nonzero sha40 f.migration_commit_sha ≡ true)
    × (is_nonzero sha40 f.migration_parent_sha ≡ true)
    × (is_nonzero sha40 f.migration_tree_sha ≡ true)
    × (is_nonzero sha40 f.expected_tree_sha ≡ true)

-- The release bot's commit of the exact paths and tree on the sealed base.
abbrev pub IsSealedChild : CommitFacts → Type 0
IsSealedChild f =
    (f.migration_commit_sha ≢ f.gitops_base_sha)
    × (f.migration_parent_sha ≡ f.gitops_base_sha)
    × (f.migration_tree_sha ≡ f.expected_tree_sha)
    × (f.changed_paths ≡ migration_paths)
    × (f.commit_subject ≡ migration_subject f.release_id f.release_manifest_sha256)
    × (f.commit_author_name ≡ bot_name)
    × (f.commit_committer_name ≡ bot_name)

check_formats_iff : (f : CommitFacts) → (check_formats f ≡ ok tt) ↔ WellFormed f
unfolding check_formats nonzero is_nonzero
check_formats_iff f = ground arith

check_commit_iff : (f : CommitFacts) → (check_commit f ≡ ok tt) ↔ IsSealedChild f
unfolding check_commit
check_commit_iff f = ground (
  arith,
  eq_iff f.migration_commit_sha f.gitops_base_sha,
  eq_iff f.migration_parent_sha f.gitops_base_sha,
  eq_iff f.migration_tree_sha f.expected_tree_sha,
  eq_lists_iff f.changed_paths migration_paths,
  eq_iff f.commit_subject (migration_subject f.release_id f.release_manifest_sha256),
  eq_iff f.commit_author_name bot_name,
  eq_iff f.commit_committer_name bot_name,
)

-- Where main stood before the push: at the base when the commit was pushed now, at the commit itself
-- when an earlier run had pushed it.
abbrev pub PushedFrom : CommitFacts → Type 0
PushedFrom f =
    ((f.publish_mode ≡ "published") × (f.pre_push_main_sha ≡ f.gitops_base_sha))
    ⊎ ((f.publish_mode ≡ "reused") × (f.pre_push_main_sha ≡ f.migration_commit_sha))

mode_iff :
    (f : CommitFacts)
    → ((ensure (contains publish_modes f.publish_mode) "migration publish mode is invalid" >>= λ _.
          ensure
            (f.pre_push_main_sha ==ˢ expected_pre_push f)
            "pre-push main SHA does not match the publish mode"
          >>= λ _. ok (facts_of f))
        ≡ ok (facts_of f))
      ↔ PushedFrom f
mode_iff f = ground (
  arith,
  eq_iff "published" f.publish_mode,
  eq_iff f.publish_mode "published",
  eq_iff "reused" f.publish_mode,
  eq_iff "published" "reused",
  eq_iff f.pre_push_main_sha f.gitops_base_sha,
  eq_iff f.pre_push_main_sha f.migration_commit_sha,
)

-- The facts are accepted, and returned with the exact paths, subject and bot, exactly when the names
-- are well formed, the commit is the release bot's distinct child of the sealed base with the
-- reconstructed tree, the exact paths and the exact subject, and main stood at the base before a fresh
-- push or at the commit before a reuse.
pub validate_migration_facts_iff :
    (f : CommitFacts)
    → (validate_migration_facts f ≡ ok (facts_of f))
      ↔ (WellFormed f × IsSealedChild f × PushedFrom f)
unfolding validate_migration_facts
validate_migration_facts_iff f =
    let formats = check_formats_iff f in
    let commit = check_commit_iff f in
    let rest = mode_iff f in
    (
      λ h.
          let (u, h₁, h₂) = >>=-eq-ok (check_formats f) _ h in
          let (v, g₁, g₂) = >>=-eq-ok (check_commit f) _ h₂ in
          (formats.0 h₁, commit.0 g₁, rest.0 g₂),
      λ (w, c, p). rw (formats.1 w, commit.1 c) (rest.1 p),
    )

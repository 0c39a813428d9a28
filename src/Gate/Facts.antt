-- ===== src/Gate/Facts.antt =====
-- `validate_migration_facts` and `validate_pre_reconstruction_source_facts`: the commit that carries
-- the migration, after and before it is pushed.
pub mod Migration
pub mod Source
use devpath_shared.Base.{
  ℕ, ◌≡◌, refl, ◌↔◌, Bool, true, false, ◌&&◌, ◌||◌, not, Option, none, some, List, [], ◌∷◌, String,
  ◌<>◌, ◌==ˢ◌, eq_iff, arith, if◌then◌else◌,
}
use devpath_shared.Base.Pattern.{fullmatch}
use devpath_shared.Base.Result.{Result, ok, err, refused, ◌>>=◌, ◌>>◌, ensure}
use devpath_shared.Context.Source.{sha40, sha64}
use devpath_shared.Json.{text, contains}
use devpath_shared.Gate.Format.{bot_name, migration_paths, release_pattern, nonzero}

-- `deploy(devpath-migration): {release_id} sealed {release_sha}`
abbrev pub migration_subject : String → String → String
migration_subject release_id release_sha =
    "deploy(devpath-migration): " <> release_id <> " sealed " <> release_sha

abbrev pub publish_modes : List String
publish_modes = "published" ∷ "reused" ∷ []

-- `list(a) == list(b)`
abbrev pub eq_lists : List String → List String → Bool
eq_lists [] [] = true
eq_lists [] (t ∷ ts) = false
eq_lists (s ∷ ss) [] = false
eq_lists (s ∷ ss) (t ∷ ts) = (s ==ˢ t) && eq_lists ss ts

pub eq_lists_iff : (ss ts : List String) → (eq_lists ss ts ≡ true) ↔ (ss ≡ ts)
eq_lists_iff [] [] = ground arith
eq_lists_iff [] (t ∷ ts) = ground arith
eq_lists_iff (s ∷ ss) [] = ground arith
eq_lists_iff (s ∷ ss) (t ∷ ts) = ground (arith, eq_iff s t, eq_lists_iff ss ts)

-- The facts of the migration commit, as they are passed by name.
pub record CommitFacts : Type 0 where
  pub release_id : String
  pub release_manifest_sha256 : String
  pub gitops_base_sha : String
  pub pre_push_main_sha : String
  pub migration_commit_sha : String
  pub migration_parent_sha : String
  pub migration_tree_sha : String
  pub expected_tree_sha : String
  pub changed_paths : List String
  pub commit_subject : String
  pub commit_author_name : String
  pub commit_committer_name : String
  pub publish_mode : String

-- The dict that is returned.
pub record MigrationFacts : Type 0 where
  pub pre_push_main_sha : String
  pub migration_commit_sha : String
  pub migration_tree_sha : String
  pub publish_mode : String
  pub changed_paths : List String
  pub commit_subject : String
  pub commit_author_name : String
  pub commit_committer_name : String

-- The formats of the names, in the order of the code.
unfoldable pub check_formats : CommitFacts → Result (Unit {0})
check_formats f = do
  ensure (fullmatch release_pattern f.release_id) "release_id has an invalid format"
  _ ← nonzero sha64 (text f.release_manifest_sha256) "release_manifest_sha256"
  _ ← nonzero sha40 (text f.gitops_base_sha) "gitops base SHA"
  _ ← nonzero sha40 (text f.pre_push_main_sha) "pre-push main SHA"
  _ ← nonzero sha40 (text f.migration_commit_sha) "migration commit SHA"
  _ ← nonzero sha40 (text f.migration_parent_sha) "migration parent SHA"
  _ ← nonzero sha40 (text f.migration_tree_sha) "migration tree SHA"
  _ ← nonzero sha40 (text f.expected_tree_sha) "expected migration tree SHA"
  ok tt

-- The commit as a child of the sealed base.
unfoldable pub check_commit : CommitFacts → Result (Unit {0})
check_commit f = do
  ensure (not (f.migration_commit_sha ==ˢ f.gitops_base_sha))
      "migration commit must be a distinct child of the GitOps base"
  ensure (f.migration_parent_sha ==ˢ f.gitops_base_sha)
      "migration commit parent does not equal the sealed GitOps base"
  ensure (f.migration_tree_sha ==ˢ f.expected_tree_sha)
      "migration commit tree does not equal the reconstructed tree"
  ensure (eq_lists f.changed_paths migration_paths)
      "migration commit must change exactly the migration and writer-fence paths"
  ensure (f.commit_subject ==ˢ migration_subject f.release_id f.release_manifest_sha256)
      "migration commit subject is not exact"
  ensure ((f.commit_author_name ==ˢ bot_name) && (f.commit_committer_name ==ˢ bot_name))
      "migration commit author and committer must be the release App bot"

abbrev pub expected_pre_push : CommitFacts → String
expected_pre_push f =
    if f.publish_mode ==ˢ "published" then f.gitops_base_sha else f.migration_commit_sha

abbrev pub facts_of : CommitFacts → MigrationFacts
facts_of f = record {
  pre_push_main_sha = f.pre_push_main_sha;
  migration_commit_sha = f.migration_commit_sha;
  migration_tree_sha = f.migration_tree_sha;
  publish_mode = f.publish_mode;
  changed_paths = migration_paths;
  commit_subject = migration_subject f.release_id f.release_manifest_sha256;
  commit_author_name = bot_name;
  commit_committer_name = bot_name;
}

unfoldable pub validate_migration_facts : CommitFacts → Result MigrationFacts
validate_migration_facts f = do
  check_formats f
  check_commit f
  ensure (contains publish_modes f.publish_mode) "migration publish mode is invalid"
  ensure (f.pre_push_main_sha ==ˢ expected_pre_push f)
      "pre-push main SHA does not match the publish mode"
  ok (facts_of f)

-- The facts of the GitOps head before the change is built, as they are passed by name.
pub record SourceFacts : Type 0 where
  pub release_id : String
  pub release_manifest_sha256 : String
  pub gitops_base_sha : String
  pub supplied_source_sha : String
  pub current_head_sha : String
  pub current_parent_shas : List String
  pub changed_paths : List String
  pub commit_subject : String
  pub commit_author_name : String
  pub commit_committer_name : String

abbrev pub is_nil : List String → Bool
is_nil [] = true
is_nil (s ∷ ss) = false

-- `[_nonzero(SHA40, parent, …) for parent in current_parent_shas]`
unfoldable pub nonzero_parents : List String → Result (List String)
nonzero_parents [] = ok []
nonzero_parents (s ∷ ss) = do
  p ← nonzero sha40 (text s) "current GitOps main parent SHA"
  ps ← nonzero_parents ss
  ok (p ∷ ps)

-- The head is the base: nothing is said of a child.
unfoldable pub check_base : SourceFacts → Result String
check_base f = do
  ensure
      (is_nil f.current_parent_shas
        && is_nil f.changed_paths
        && (f.commit_subject ==ˢ "")
        && (f.commit_author_name ==ˢ "")
        && (f.commit_committer_name ==ˢ ""))
      "base source must not carry migration-child facts"
  ok "published"

-- The head is a child that an earlier run has pushed.
unfoldable pub check_child : SourceFacts → Result String
check_child f = do
  parents ← nonzero_parents f.current_parent_shas
  ensure (eq_lists parents (f.gitops_base_sha ∷ []))
      "current GitOps main must be the exact one-parent child of the base"
  ensure (eq_lists f.changed_paths migration_paths)
      "pre-existing migration child must change only the exact migration paths"
  ensure (f.commit_subject ==ˢ migration_subject f.release_id f.release_manifest_sha256)
      "pre-existing migration child subject is not exact"
  ensure ((f.commit_author_name ==ˢ bot_name) && (f.commit_committer_name ==ˢ bot_name))
      "pre-existing migration child actor names are not exact"
  ok "reused"

unfoldable pub validate_pre_reconstruction_source_facts : SourceFacts → Result String
validate_pre_reconstruction_source_facts f = do
  ensure (fullmatch release_pattern f.release_id) "release_id has an invalid format"
  _ ← nonzero sha64 (text f.release_manifest_sha256) "release_manifest_sha256"
  _ ← nonzero sha40 (text f.gitops_base_sha) "gitops base SHA"
  _ ← nonzero sha40 (text f.supplied_source_sha) "supplied GitOps source SHA"
  _ ← nonzero sha40 (text f.current_head_sha) "current GitOps main SHA"
  ensure (f.current_head_sha ==ˢ f.supplied_source_sha)
      "supplied GitOps source is not the fetched current main"
  (if f.current_head_sha ==ˢ f.gitops_base_sha then check_base f else check_child f)

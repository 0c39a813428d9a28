-- ===== src/Gate/Facts/Source.antt =====
-- Which heads are accepted before the change is built.
use devpath_shared.Base.{
  ◌≡◌, ◌≢◌, refl, sym, ◌∙◌, ◌↔◌, ◌⊎◌, true, ◌&&◌, List, [], ◌∷◌, String, ◌==ˢ◌, eq_iff, arith,
}
use devpath_shared.Base.Pattern.{fullmatch}
use devpath_shared.Base.Result.{Result, ok, ensure, >>=-eq-ok, ensure-eq-ok, ◌>>◌}
use devpath_shared.Context.Source.{sha40, sha64}
use devpath_shared.Json.{text}
use devpath_shared.Gate.Format.{
  bot_name, migration_paths, release_pattern, is_nonzero, nonzero, nonzero_iff,
}
use devpath_shared.Gate.Facts.{
  SourceFacts, is_nil, migration_subject, eq_lists, eq_lists_iff, nonzero_parents, check_base,
  check_child, validate_pre_reconstruction_source_facts,
}

-- The head is the base itself, and no fact of a child is given.
abbrev pub IsBase : SourceFacts → Type 0
IsBase f =
    (f.current_head_sha ≡ f.gitops_base_sha)
    × (f.current_parent_shas ≡ [])
    × (f.changed_paths ≡ [])
    × (f.commit_subject ≡ "")
    × (f.commit_author_name ≡ "")
    × (f.commit_committer_name ≡ "")

-- The head is the release bot's one child of the base, with the exact paths and the exact subject.
abbrev pub IsChild : SourceFacts → Type 0
IsChild f =
    (f.current_head_sha ≢ f.gitops_base_sha)
    × (f.current_parent_shas ≡ f.gitops_base_sha ∷ [])
    × (f.changed_paths ≡ migration_paths)
    × (f.commit_subject ≡ migration_subject f.release_id f.release_manifest_sha256)
    × (f.commit_author_name ≡ bot_name)
    × (f.commit_committer_name ≡ bot_name)

nonzero_parents_lem : (ss ps : List String) → nonzero_parents ss ≡ ok ps → ps ≡ ss
unfolding nonzero_parents
nonzero_parents_lem [] ps h = ground arith
nonzero_parents_lem (s ∷ ss) ps h =
    let (p, first, h₁) = >>=-eq-ok (nonzero sha40 (text s) _) _ h in
    let (qs, rest, h₂) = >>=-eq-ok (nonzero_parents ss) _ h₁ in
    let same = ((nonzero_iff sha40 s _ p).0 first).0 in
    let tail = nonzero_parents_lem ss qs rest in ground arith

parents_back :
    (base : String) → is_nonzero sha40 base ≡ true → nonzero_parents (base ∷ []) ≡ ok (base ∷ [])
unfolding nonzero_parents
parents_back base good = rw ((nonzero_iff sha40 base _ _).1 (refl, good)) refl

is_nil_iff : (ss : List String) → (is_nil ss ≡ true) ↔ (ss ≡ [])
is_nil_iff [] = ground arith
is_nil_iff (s ∷ ss) = ground arith

check_base_iff :
    (f : SourceFacts) (mode : String)
    → ((f.current_head_sha ≡ f.gitops_base_sha) × (check_base f ≡ ok mode))
      ↔ (IsBase f × (mode ≡ "published"))
unfolding check_base
check_base_iff f mode = ground (
  arith,
  is_nil_iff f.current_parent_shas,
  is_nil_iff f.changed_paths,
  eq_iff f.commit_subject "",
  eq_iff f.commit_author_name "",
  eq_iff f.commit_committer_name "",
)

-- The checks of a child behind its parents.
abbrev child_rest : SourceFacts → Result String
child_rest f =
    ensure (eq_lists f.changed_paths migration_paths)
      "pre-existing migration child must change only the exact migration paths"
    >> (ensure (f.commit_subject ==ˢ migration_subject f.release_id f.release_manifest_sha256)
          "pre-existing migration child subject is not exact"
        >> (ensure ((f.commit_author_name ==ˢ bot_name) && (f.commit_committer_name ==ˢ bot_name))
              "pre-existing migration child actor names are not exact"
            >> ok "reused"))

child_rest_iff :
    (f : SourceFacts) (mode : String)
    → (child_rest f ≡ ok mode) ↔ (
        (f.changed_paths ≡ migration_paths)
        × (f.commit_subject ≡ migration_subject f.release_id f.release_manifest_sha256)
        × (f.commit_author_name ≡ bot_name)
        × (f.commit_committer_name ≡ bot_name)
        × (mode ≡ "reused"))
child_rest_iff f mode = ground (
  arith,
  eq_lists_iff f.changed_paths migration_paths,
  eq_iff f.commit_subject (migration_subject f.release_id f.release_manifest_sha256),
  eq_iff f.commit_author_name bot_name,
  eq_iff f.commit_committer_name bot_name,
)

check_child_iff :
    (f : SourceFacts) (mode : String)
    → is_nonzero sha40 f.gitops_base_sha ≡ true
    → ((f.current_head_sha ≢ f.gitops_base_sha) × (check_child f ≡ ok mode))
      ↔ (IsChild f × (mode ≡ "reused"))
unfolding check_child
check_child_iff f mode good = (
  λ (apart, h).
      let (ps, parents, h₁) = >>=-eq-ok (nonzero_parents f.current_parent_shas) _ h in
      let (exact, h₂) = ensure-eq-ok (eq_lists ps (f.gitops_base_sha ∷ [])) _ _ h₁ in
      let (paths, subject, author, committer, is_mode) = (child_rest_iff f mode).0 h₂ in
      let same =
        sym (nonzero_parents_lem _ _ parents)
        ∙ (eq_lists_iff ps (f.gitops_base_sha ∷ [])).0 exact in
      ((apart, same, paths, subject, author, committer), is_mode),
  λ ((apart, parents, paths, subject, author, committer), is_mode). (
    apart,
    rw
        (
          parents,
          parents_back f.gitops_base_sha good,
          (eq_lists_iff (f.gitops_base_sha ∷ []) (f.gitops_base_sha ∷ [])).1 refl,
        )
        ((child_rest_iff f mode).1 (paths, subject, author, committer, is_mode)),
  ),
)

abbrev pub WellNamed : SourceFacts → Type 0
WellNamed f =
    (fullmatch release_pattern f.release_id ≡ true)
    × (is_nonzero sha64 f.release_manifest_sha256 ≡ true)
    × (is_nonzero sha40 f.gitops_base_sha ≡ true)
    × (is_nonzero sha40 f.supplied_source_sha ≡ true)
    × (is_nonzero sha40 f.current_head_sha ≡ true)
    × (f.current_head_sha ≡ f.supplied_source_sha)

-- The head is accepted with a mode exactly when the names are well formed, the supplied commit is the
-- head, and either the head is the base, no fact of a child is given and the mode is a fresh
-- publication, or the head is the release bot's one child of the base with the exact paths and
-- subject and the mode is a reuse.
pub validate_pre_reconstruction_source_facts_iff :
    (f : SourceFacts) (mode : String)
    → (validate_pre_reconstruction_source_facts f ≡ ok mode)
      ↔ (WellNamed f × ((IsBase f × (mode ≡ "published")) ⊎ (IsChild f × (mode ≡ "reused"))))
unfolding validate_pre_reconstruction_source_facts nonzero is_nonzero
validate_pre_reconstruction_source_facts_iff f mode = ground (
  arith,
  eq_iff f.current_head_sha f.supplied_source_sha,
  eq_iff f.current_head_sha f.gitops_base_sha,
  check_base_iff f mode,
  check_child_iff f mode,
)

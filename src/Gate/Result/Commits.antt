-- ===== src/Gate/Result/Commits.antt =====
-- The commits of the GitOps part of the evidence.
use devpath_shared.Base.{
  ◌≡◌, ◌≢◌, ◌⊎◌, inl, inr, true, not, String, ◌==ˢ◌, eq_iff, Bool-cases, if◌then◌else◌, arith,
}
use devpath_shared.Base.Result.{ok, >>=-eq-ok, ensure-eq-ok, ensure_iff, or_refuse-eq-ok}
use devpath_shared.Context.Source.{sha40}
use devpath_shared.Json.{text, Fields, contains, get, as_str, as_str-eq}
use devpath_shared.Gate.Format.{is_nonzero, nonzero, nonzero-eq_ok}
use devpath_shared.Gate.Values.{}
use devpath_shared.Gate.Facts.{publish_modes}
use devpath_shared.Gate.Result.{}
use devpath_shared.Gate.Result.Check.{check_commits}

pub apart_lem : (s t : String) → not (s ==ˢ t) ≡ true → s ≢ t
apart_lem s t f e = absurd (ground (arith, eq_iff s t))

pub mode_lem :
    (mode pre base commit : String)
    → contains publish_modes mode ≡ true
    → (pre ==ˢ (if mode ==ˢ "published" then base else commit)) ≡ true
    → ((mode ≡ "published") × (pre ≡ base)) ⊎ ((mode ≡ "reused") × (pre ≡ commit))
mode_lem mode pre base commit known matched = elim (Bool-cases (mode ==ˢ "published")) [
  | inl e ↦ inl ((eq_iff _ _).0 e, (eq_iff _ _).0 (rw e at matched))
  | inr e ↦ inr (
    ground (arith, eq_iff "published" mode, eq_iff mode "published", eq_iff "reused" mode),
    (eq_iff _ _).0 (rw e at matched),
  )
]

-- The commits of the GitOps part.
abbrev pub Commits : Fields → String → String → String → String → String → String → Type 0
Commits d base sealed pre commit tree mode =
    (get d "base_sha" ≡ text base)
    × (get d "sealed_release_sha" ≡ text sealed)
    × (get d "pre_push_main_sha" ≡ text pre)
    × (get d "migration_commit_sha" ≡ text commit)
    × (get d "migration_tree_sha" ≡ text tree)
    × (get d "publish_mode" ≡ text mode)
    × (is_nonzero sha40 base ≡ true)
    × (is_nonzero sha40 sealed ≡ true)
    × (is_nonzero sha40 pre ≡ true)
    × (is_nonzero sha40 commit ≡ true)
    × (is_nonzero sha40 tree ≡ true)
    × (commit ≢ base)
    × (((mode ≡ "published") × (pre ≡ base)) ⊎ ((mode ≡ "reused") × (pre ≡ commit)))

pub commits_lem :
    (d : Fields)
    → check_commits d ≡ ok tt
    → (base sealed pre commit tree mode : String) × Commits d base sealed pre commit tree mode
unfolding check_commits
commits_lem d h =
    let (base, is_base, h₁) = >>=-eq-ok (nonzero sha40 (get d "base_sha") _) _ h in
    let (sealed, is_sealed, h₂) = >>=-eq-ok (nonzero sha40 (get d "sealed_release_sha") _) _ h₁ in
    let (pre, is_pre, h₃) = >>=-eq-ok (nonzero sha40 (get d "pre_push_main_sha") _) _ h₂ in
    let (commit, is_commit, h₄) = >>=-eq-ok (nonzero sha40 (get d "migration_commit_sha") _) _ h₃ in
    let (tree, is_tree, h₅) = >>=-eq-ok (nonzero sha40 (get d "migration_tree_sha") _) _ h₄ in
    let (fresh, h₆) = ensure-eq-ok (not (commit ==ˢ base)) _ _ h₅ in
    let (mode, is_mode, h₇) = or_refuse-eq-ok (as_str (get d "publish_mode")) _ _ h₆ in
    let (known, h₈) = ensure-eq-ok (contains publish_modes mode) _ _ h₇ in
    let (same_base, good_base) = nonzero-eq_ok sha40 _ _ is_base in
    let (same_sealed, good_sealed) = nonzero-eq_ok sha40 _ _ is_sealed in
    let (same_pre, good_pre) = nonzero-eq_ok sha40 _ _ is_pre in
    let (same_commit, good_commit) = nonzero-eq_ok sha40 _ _ is_commit in
    let (same_tree, good_tree) = nonzero-eq_ok sha40 _ _ is_tree in
    (
      base,
      sealed,
      pre,
      commit,
      tree,
      mode,
      (
        same_base,
        same_sealed,
        same_pre,
        same_commit,
        same_tree,
        as_str-eq _ is_mode,
        good_base,
        good_sealed,
        good_pre,
        good_commit,
        good_tree,
        apart_lem commit base fresh,
        mode_lem mode pre base commit known ((ensure_iff _ _).0 h₈),
      ),
    )

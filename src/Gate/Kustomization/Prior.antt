-- ===== src/Gate/Kustomization/Prior.antt =====
-- The patch behind the body of a kustomization, and the job name in it.
use Prim.Native.Char.{code}
use Prim.Native.String.append
use devpath_shared.Base.{
  ℕ, zero, suc, ◌≡◌, refl, sym, ◌∙◌, ap, Bool, true, not, ◌&&◌, Option, none, some, List, [], ◌∷◌,
  String, ◌<>◌, ◌==◌, ◌==ˢ◌, eq_iff, map, Bool-cases, inl, inr,
}
use mathlib.Core.Option.{some-injective}
use devpath_shared.Base.Text.{
  take_text, after_prefix, remove_prefix, append-after_prefix, strip, is_empty,
}
use devpath_shared.Base.Pattern.{fullmatch}
use devpath_shared.Base.Result.{
  ok, >>=-eq-ok, ensure-eq-ok, ensure_iff, or_refuse-eq-ok, ok-injective,
}
use devpath_shared.Context.Source.{sha64, digest_pattern}
use devpath_shared.Json.{text}
use devpath_shared.Gate.Format.{nonzero, nonzero_iff}
use devpath_shared.Gate.Values.{single, single-eq}
use devpath_shared.Gate.JobName.{
  migration_job_prefix, migration_job_name_pattern, derived_migration_job_name,
}
use devpath_shared.Gate.Facts.{eq_lists_iff}
use devpath_shared.Gate.Lines.{lf_lines, drop_text, filter}
use devpath_shared.Gate.Kustomization.{
  is_patch_key, patch_of, patch_for_job_name, migration_image_block, selector_lines,
  validate_migration_image_selector, split_patch, prior_names, job_name_groups, check_prior,
}

-- The text is what stands before the patch, and the patch.
pub split_patch-append : (b : Bool) (s : String) → s ≡ (split_patch b s).0 <> (split_patch b s).1
unfolding split_patch
split_patch-append b String.[] = sym (λ i. append.nil String.[] i)
split_patch-append b (String.◌∷◌ c s) =
    let rest = split_patch (code c == b'\n') s in
    elim (Bool-cases (b && is_patch_key (String.◌∷◌ c s))) [
      | inl e ↦ rw e (sym (λ i. append.nil (String.◌∷◌ c s) i))
      | inr e ↦ rw e (
          ap (λ (t : String). String.◌∷◌ c t) (split_patch-append (code c == b'\n') s)
          ∙ sym (λ i. append.cons c rest.0 rest.1 i))
    ]

pub take-drop_text : (n : ℕ) (s : String) → s ≡ take_text n s <> drop_text n s
unfolding take_text drop_text
take-drop_text zero s = sym (λ i. append.nil s i)
take-drop_text (suc n) String.[] = sym (λ i. append.nil String.[] i)
take-drop_text (suc n) (String.◌∷◌ c s) =
    ap (λ (t : String). String.◌∷◌ c t) (take-drop_text n s)
    ∙ sym (λ i. append.cons c (take_text n s) (drop_text n s) i)

-- A name is its prefix, its part of the digest and its part of the release.
pub groups_lem :
    (name : String) {groups : String × String}
    → job_name_groups name ≡ some groups
    → name ≡ migration_job_prefix <> (groups.0 <> ("-" <> groups.1))
unfolding job_name_groups
groups_lem name {groups} h = outer (after_prefix migration_job_prefix name) refl h
  where
    inner :
        (g : String) (o : Option String)
        → after_prefix migration_job_prefix name ≡ some g
        → after_prefix "-" (drop_text 12 g) ≡ o
        → (elim o [ none ↦ none | some release ↦ some (take_text 12 g, release) ]) ≡ some groups
        → name ≡ migration_job_prefix <> (groups.0 <> ("-" <> groups.1))
    inner g none e f k = cc
    inner g (some release) e f k =
        let same : (take_text 12 g, release) ≡ groups = some-injective _ _ k in
        append-after_prefix migration_job_prefix name e
        ∙ ap (λ (t : String). migration_job_prefix <> t)
            (take-drop_text 12 g
              ∙ ap (λ (t : String). take_text 12 g <> t)
                  (append-after_prefix "-" (drop_text 12 g) f)
              ∙ ap (λ (p : String × String). p.0 <> ("-" <> p.1)) same)

    outer :
        (o : Option String)
        → after_prefix migration_job_prefix name ≡ o
        → (elim o [
          | none ↦ none
          | some g ↦ elim (after_prefix "-" (drop_text 12 g)) [
            | none ↦ none
            | some release ↦ some (take_text 12 g, release)
          ]
        ])
          ≡ some groups
        → name ≡ migration_job_prefix <> (groups.0 <> ("-" <> groups.1))
    outer none e k = cc
    outer (some g) e k = inner g (after_prefix "-" (drop_text 12 g)) e refl k

pub prior_lem :
    (value patch : String) {release_prefix : String}
    → check_prior value patch ≡ ok release_prefix
    → (name : String) × (name
        ≡ migration_job_prefix
          <> (take_text 12 (remove_prefix "sha256:" value) <> ("-" <> release_prefix)))
      × (patch ≡ patch_of name)
      × (prior_names (lf_lines patch) ≡ name ∷ [])
      × (fullmatch migration_job_name_pattern name ≡ true)
unfolding check_prior patch_for_job_name
prior_lem value patch h =
    let (digest, is_digest, h₁) = >>=-eq-ok (nonzero digest_pattern (text value) _) _ h in
    let (name, one, h₂) = or_refuse-eq-ok (single (prior_names (lf_lines patch))) _ _ h₁ in
    let (groups, grouped, h₃) = or_refuse-eq-ok (job_name_groups name) _ _ h₂ in
    let (bound, h₄) =
      ensure-eq-ok (groups.0 ==ˢ take_text 12 (remove_prefix "sha256:" digest)) _ _ h₃ in
    let (expected, is_expected, h₅) = >>=-eq-ok (patch_for_job_name name) _ h₄ in
    let (exact, h₆) = ensure-eq-ok (patch ==ˢ expected) _ _ h₅ in
    let (matched, is_patch) =
      ensure-eq-ok (fullmatch migration_job_name_pattern name) _ _ is_expected in
    let same_digest = ((nonzero_iff digest_pattern value _ digest).0 is_digest).0 in
    (
      name,
      groups_lem name grouped
          ∙ ap (λ (p : String × String). migration_job_prefix <> (p.0 <> ("-" <> p.1)))
              (pair_cong
                ((eq_iff _ _).0 bound
                  ∙ ap (λ (d : String). take_text 12 (remove_prefix "sha256:" d)) same_digest)
                (ok-injective h₆)),
      (eq_iff _ _).0 exact ∙ sym (ok-injective is_patch),
      single-eq _ one,
      matched,
    )
  where
    pair_cong : {a b c d : String} → a ≡ b → c ≡ d → ◌≡◌ {A = String × String} (a, c) (b, d)
    pair_cong p q = λ i. (p i, q i)

-- The name of the prefix, the digest's part and the release's part is the derived one.
pub derived_lem :
    (image_digest release_manifest_sha256 : String) {digest release name : String}
    → nonzero digest_pattern (text image_digest) "migration image digest" ≡ ok digest
    → nonzero sha64 (text release_manifest_sha256) "release manifest SHA-256" ≡ ok release
    → name
      ≡ migration_job_prefix
        <> (take_text 12 (remove_prefix "sha256:" image_digest)
            <> ("-" <> take_text 24 release_manifest_sha256))
    → derived_migration_job_name image_digest release_manifest_sha256 ≡ ok name
unfolding derived_migration_job_name
derived_lem image_digest release_manifest_sha256 {digest} {release} {name} d r e =
    let same_digest =
      ((nonzero_iff digest_pattern image_digest "migration image digest" digest).0 d).0 in
    let same_release =
      ((nonzero_iff sha64 release_manifest_sha256 "release manifest SHA-256" release).0 r).0 in
    named same_digest same_release (rw (d, r) refl)
  where
    named :
        digest ≡ image_digest
        → release ≡ release_manifest_sha256
        → derived_migration_job_name image_digest release_manifest_sha256
          ≡ ok (
              migration_job_prefix
              <> (take_text 12 (remove_prefix "sha256:" digest) <> ("-" <> take_text 24 release)))
        → derived_migration_job_name image_digest release_manifest_sha256 ≡ ok name
    named p q h = h ∙ rw (p, q) (ap ok (sym e))

pub image_lem :
    (body kind value : String)
    → validate_migration_image_selector body kind value ≡ ok tt
    → (block : List String) × (migration_image_block body ≡ ok block)
      × (filter (λ line. not (is_empty line)) (map strip block) ≡ selector_lines kind value)
unfolding validate_migration_image_selector
image_lem body kind value h =
    let (block, found, exact) = >>=-eq-ok (migration_image_block body) _ h in
    (block, found, (eq_lists_iff _ _).0 ((ensure_iff _ _).0 exact))

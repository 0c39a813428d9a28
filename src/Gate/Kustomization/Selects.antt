-- ===== src/Gate/Kustomization/Selects.antt =====
-- An accepted kustomization selects one image and one job.
use devpath_shared.Gate.Kustomization.Prior.{split_patch-append, prior_lem, derived_lem, image_lem}
use devpath_shared.Base.{
  ◌≡◌, refl, sym, ◌∙◌, ap, true, not, ◌||◌, Option, some, List, [], ◌∷◌, String, ◌<>◌, ◌==ˢ◌,
  eq_iff, leb, map, and_iff,
}
use devpath_shared.Base.Text.{take_text, strip, is_empty}
use devpath_shared.Base.Result.{
  ok, >>=-eq-ok, ensure-eq-ok, ensure_iff, or_refuse-eq-ok, ok-injective,
}
use devpath_shared.Context.Source.{sha64, digest_pattern}
use devpath_shared.Json.{text}
use devpath_shared.Runtime.{Bytes, Runtime}
use devpath_shared.Gate.Format.{nonzero, nonzero_iff}
use devpath_shared.Gate.Values.{single, single-eq}
use devpath_shared.Gate.JobName.{derived_migration_job_name}
use devpath_shared.Gate.Text.{lf_text}
use devpath_shared.Gate.Fence.{max_kustomization_bytes}
use devpath_shared.Gate.Lines.{split_lines, lf_lines, filter, count_if}
use devpath_shared.Gate.Kustomization.{
  is_patch_key, first_line, patch_of, migration_image_block, selector_lines,
  validate_migration_image_selector, check_forbidden, forbidden, split_patch, selectors,
  check_prior, check_selector, BaseParts, migration_base_parts, is_prior,
  validate_migration_kustomization,
}

module _ (R : Runtime) where
  -- The bytes are a text of a body, which has one selector, this digest, in the one image entry, and
  -- of the patch that gives the job its derived name.
  abbrev pub SelectsJob : Bytes → String → String → Type 0
  SelectsJob raw image_digest release_manifest_sha256 =
      (content body name : String) × (block : List String) × (lf_text R raw
          "migration kustomization" max_kustomization_bytes
        ≡ ok content)
      × (content ≡ body <> patch_of name)
      × (derived_migration_job_name image_digest release_manifest_sha256 ≡ ok name)
      × (selectors (split_lines body) ≡ ("digest", image_digest) ∷ [])
      × (migration_image_block body ≡ ok block)
      × (filter (λ line. not (is_empty line)) (map strip block)
          ≡ selector_lines "digest" image_digest)

  selected_prior :
      (body patch kind value prefix : String) {prior : Option String}
      → check_selector body patch kind value ≡ ok prior
      → kind ≡ "digest"
      → is_prior R prior prefix ≡ true
      → check_prior value patch ≡ ok prefix
  unfolding check_selector
  selected_prior body patch kind value prefix {prior} h is_digest same =
      let (release, checked, returned) =
        >>=-eq-ok (check_prior value patch) _ (rw is_digest at h) in
      let is_some : is_prior R (some release) prefix ≡ true =
        rw (← (ok-injective returned)) at same in
      checked ∙ ap ok ((eq_iff release prefix).0 is_some)

  parts_lem :
      (raw : Bytes) (image_digest prefix : String) {parts : BaseParts}
      → migration_base_parts R raw ≡ ok parts
      → parts.kind ≡ "digest"
      → parts.value ≡ image_digest
      → is_prior R parts.prior_release_prefix prefix ≡ true
      → (content body patch : String) × (block : List String) × (lf_text R raw
            "migration kustomization" max_kustomization_bytes
          ≡ ok content)
        × (content ≡ body <> patch)
        × (selectors (split_lines body) ≡ ("digest", image_digest) ∷ [])
        × (check_prior image_digest patch ≡ ok prefix)
        × (migration_image_block body ≡ ok block)
        × (filter (λ line. not (is_empty line)) (map strip block)
            ≡ selector_lines "digest" image_digest)
  unfolding migration_base_parts
  parts_lem raw image_digest prefix {parts} h is_kind is_value is_release =
      let (content, read, h₁) =
        >>=-eq-ok (lf_text R raw "migration kustomization" max_kustomization_bytes) _ h in
      let (_, _, h₂) = >>=-eq-ok (check_forbidden content forbidden) _ h₁ in
      let (_, h₃) = ensure-eq-ok (leb (count_if is_patch_key (lf_lines content)) 1) _ _ h₂ in
      let (_, h₄) =
        ensure-eq-ok
          (is_empty (split_patch true content).1
            || (first_line (lf_lines (split_patch true content).1) ==ˢ "patches:"))
          _ _ h₃ in
      let (selector, one, h₅) =
        or_refuse-eq-ok (single (selectors (split_lines (split_patch true content).0))) _ _ h₄ in
      let (prior, checked, h₆) =
        >>=-eq-ok
          (check_selector (split_patch true content).0 (split_patch true content).1 selector.0
            selector.1)
          _ h₅ in
      let (_, selected, h₇) =
        >>=-eq-ok
          (validate_migration_image_selector (split_patch true content).0 selector.0 selector.1) _
          h₆ in
      let same = ok-injective h₇ in
      let kind_same : selector.0 ≡ "digest" = ap (λ (p : BaseParts). p.kind) same ∙ is_kind in
      let value_same : selector.1 ≡ image_digest =
        ap (λ (p : BaseParts). p.value) same ∙ is_value in
      finish content (split_patch true content).0 (split_patch true content).1 selector.0 selector.1
        read (split_patch-append true content) (single-eq _ one) checked selected kind_same
        value_same
        (ap (λ (p : BaseParts). is_prior R p.prior_release_prefix prefix) same ∙ is_release)
    where
      finish :
          (content body patch kind value : String) {prior : Option String}
          → lf_text R raw "migration kustomization" max_kustomization_bytes ≡ ok content
          → content ≡ body <> patch
          → selectors (split_lines body) ≡ (kind, value) ∷ []
          → check_selector body patch kind value ≡ ok prior
          → validate_migration_image_selector body kind value ≡ ok tt
          → kind ≡ "digest"
          → value ≡ image_digest
          → is_prior R prior prefix ≡ true
          → (content body patch : String) × (block : List String) × (lf_text R raw
                "migration kustomization" max_kustomization_bytes
              ≡ ok content)
            × (content ≡ body <> patch)
            × (selectors (split_lines body) ≡ ("digest", image_digest) ∷ [])
            × (check_prior image_digest patch ≡ ok prefix)
            × (migration_image_block body ≡ ok block)
            × (filter (λ line. not (is_empty line)) (map strip block)
                ≡ selector_lines "digest" image_digest)
      finish content body patch kind value read split one checked selected k v p =
          let (block, found, lines) =
            image_lem body "digest" image_digest (rw (k, v) at selected) in
          (
            content,
            body,
            patch,
            block,
            read,
            split,
            rw (k, v) at one,
            selected_prior body patch "digest" image_digest prefix (rw (k, v) at checked) refl p,
            found,
            lines,
          )

  -- A kustomization that is accepted for a digest and a release is a text of two parts: a body whose
  -- one selector is this digest, inside the one image entry, which is exactly the entry of the migration
  -- image; and behind it nothing but the exact patch that gives the job the name derived from this
  -- digest and this release.
  pub validate_migration_kustomization-SelectsJob :
      (raw : Bytes) (image_digest release_manifest_sha256 : String)
      → validate_migration_kustomization R raw image_digest release_manifest_sha256 ≡ ok tt
      → SelectsJob raw image_digest release_manifest_sha256
  unfolding validate_migration_kustomization
  validate_migration_kustomization-SelectsJob raw image_digest release_manifest_sha256 h =
      let (digest, is_digest, h₁) =
        >>=-eq-ok (nonzero digest_pattern (text image_digest) "migration image digest") _ h in
      let (release, is_release, h₂) =
        >>=-eq-ok (nonzero sha64 (text release_manifest_sha256) "release manifest SHA-256") _ h₁ in
      let (parts, found, h₃) = >>=-eq-ok (migration_base_parts R raw) _ h₂ in
      let (same_digest, _) = (nonzero_iff digest_pattern image_digest _ digest).0 is_digest in
      let (same_release, _) = (nonzero_iff sha64 release_manifest_sha256 _ release).0 is_release in
      let (is_kind, more) = (and_iff _ _).0 ((ensure_iff _ _).0 h₃) in
      let (is_value, is_prefix) = (and_iff _ _).0 more in
      let (content, body, patch, block, read, split, one, checked, image, lines) =
        parts_lem raw image_digest (take_text 24 release_manifest_sha256) found
          ((eq_iff _ _).0 is_kind) ((eq_iff _ _).0 is_value ∙ same_digest)
          (ap (λ (r : String). is_prior R parts.prior_release_prefix (take_text 24 r))
              (sym same_release)
            ∙ is_prefix) in
      let (name, is_name, is_patch, _, _) = prior_lem image_digest patch checked in
      (
        content,
        body,
        name,
        block,
        read,
        split ∙ ap (λ (t : String). body <> t) is_patch,
        derived_lem image_digest release_manifest_sha256 is_digest is_release is_name,
        one,
        image,
        lines,
      )

-- ===== src/Image/Document/Provenance.antt =====
-- What an accepted image is bound to: the bytes by their digests, and the source by its labels.
use devpath_shared.Base.{
  ◌≡◌, ◌∙◌, ◌&&◌, String, ◌<>◌, ◌==ˢ◌, eq_iff, length, arith, All, ap, sym, and_iff,
}
use devpath_shared.Base.Integer.{pos}
use devpath_shared.Base.Result.{
  ok, or_refuse, >>=-eq-ok, ok-injective, ensure-eq-ok, or_refuse-eq-ok,
}
use devpath_shared.Context.Source.{is_source_sha}
use devpath_shared.Json.{
  Json, integer, text, object, Fields, get, py_eq, py_eq-text_iff, as_dict, as_list, as_str,
  as_dict-eq,
}
use devpath_shared.Runtime.{Bytes, Runtime}
use devpath_shared.Image.Format.{
  is_digest, valid_digest, positive_int, in_set, expected_labels, require_texts_iff, HasText,
  parse_json,
}
use devpath_shared.Image.Document.{
  RemoteImage, manifest_media_types, config_media_types, check_manifest, check_config,
  validate_remote_image,
}

module _ (R : Runtime) where
  -- A config document of a linux/amd64 image whose labels name the source and the four base digests.
  pub record Describes (config_bytes : Bytes) (source_sha : String) : Type 0 where
    pub config : Fields
    pub runtime_config : Fields
    pub labels : Fields
    pub parsed : parse_json R config_bytes "image config" ≡ ok (object config)
    pub architecture : get config "architecture" ≡ text "amd64"
    pub system : get config "os" ≡ text "linux"
    pub nested : get config "config" ≡ object runtime_config
    pub labelled : get runtime_config "Labels" ≡ object labels
    pub provenance : All (HasText labels) (expected_labels source_sha)

  check_manifest-digest :
      (manifest_bytes config_bytes : Bytes) {s : String}
      → check_manifest R manifest_bytes config_bytes ≡ ok s
      → s ≡ "sha256:" <> R.sha256 config_bytes
  unfolding check_manifest
  check_manifest-digest manifest_bytes config_bytes h =
      let (m, _, h₁) = >>=-eq-ok (parse_json R manifest_bytes "image manifest") _ h in
      let (d, _, h₂) = or_refuse-eq-ok (as_dict m) _ _ h₁ in
      let (_, h₃) = ensure-eq-ok (py_eq (get d "schemaVersion") (integer (pos 2))) _ _ h₂ in
      let (known, _, h₄) = >>=-eq-ok (in_set (get d "mediaType") manifest_media_types) _ h₃ in
      let (_, h₅) = ensure-eq-ok known _ _ h₄ in
      let (_, _, h₆) = or_refuse-eq-ok (as_list (get d "layers")) _ _ h₅ in
      let (c, _, h₇) = or_refuse-eq-ok (as_dict (get d "config")) _ _ h₆ in
      let (known', _, h₈) = >>=-eq-ok (in_set (get c "mediaType") config_media_types) _ h₇ in
      let (_, h₉) = ensure-eq-ok known' _ _ h₈ in
      let (_, g) = ensure-eq-ok (valid_digest (get c "digest")) _ _ h₉ in
      let (_, g₁) =
        ensure-eq-ok
          (positive_int (get c "size")
            && py_eq (get c "size") (integer (pos (length config_bytes))))
          _ _ g in
      let (exact, g₂) =
        ensure-eq-ok (py_eq (get c "digest") (text ("sha256:" <> R.sha256 config_bytes))) _ _ g₁ in
      of_text (get c "digest") ((py_eq-text_iff (get c "digest") _).0 exact) g₂
    where
      of_text :
          (v : Json) {t s : String}
          → v ≡ text t
          → or_refuse (as_str v) "image config descriptor digest is invalid" ≡ ok s
          → s ≡ t
      of_text v e g = ground arith

  check_config-Describes :
      (config_bytes : Bytes) (source_sha : String)
      → check_config R config_bytes source_sha ≡ ok tt
      → Describes config_bytes source_sha
  unfolding check_config
  check_config-Describes config_bytes source_sha h =
      let (v, parsed, h₁) = >>=-eq-ok (parse_json R config_bytes "image config") _ h in
      let (c, is_dict, h₂) = or_refuse-eq-ok (as_dict v) _ _ h₁ in
      let (platform, h₃) =
        ensure-eq-ok
          (py_eq (get c "architecture") (text "amd64") && py_eq (get c "os") (text "linux")) _ _
          h₂ in
      let (rc, nested, h₄) = or_refuse-eq-ok (as_dict (get c "config")) _ _ h₃ in
      let (ls, labelled, h₅) = or_refuse-eq-ok (as_dict (get rc "Labels")) _ _ h₄ in
      let both = (and_iff _ _).0 platform in
      record {
        config = c;
        runtime_config = rc;
        labels = ls;
        parsed = parsed ∙ ap ok (as_dict-eq v is_dict);
        architecture = (py_eq-text_iff _ _).0 both.0;
        system = (py_eq-text_iff _ _).0 both.1;
        nested = as_dict-eq _ nested;
        labelled = as_dict-eq _ labelled;
        provenance = (require_texts_iff _ ls (expected_labels source_sha)).0 h₅;
      }

  -- An accepted remote image carries the digest of its own manifest bytes, which the registry's header
  -- repeated, names its config by the digest of the config bytes, and that config is one of linux/amd64
  -- whose labels give the source commit and the four pinned base digests.
  pub validate_remote_image-bound :
      (manifest_bytes : Bytes) (header : String) (config_bytes : Bytes) (source_sha : String)
      {image : RemoteImage}
      → validate_remote_image R manifest_bytes header config_bytes source_sha ≡ ok image
      → (image.digest ≡ header)
        × (header ≡ "sha256:" <> R.sha256 manifest_bytes)
        × (image.config_digest ≡ "sha256:" <> R.sha256 config_bytes)
        × Describes config_bytes source_sha
  unfolding validate_remote_image
  validate_remote_image-bound m header c source_sha h =
      let (_, h₁) = ensure-eq-ok (is_source_sha source_sha) _ _ h in
      let (_, h₂) = ensure-eq-ok (is_digest header) _ _ h₁ in
      let (same, h₃) = ensure-eq-ok (header ==ˢ ("sha256:" <> R.sha256 m)) _ _ h₂ in
      let (digest, checked, h₄) = >>=-eq-ok (check_manifest R m c) _ h₃ in
      let (_, described, last) = >>=-eq-ok (check_config R c source_sha) _ h₄ in
      let e = ok-injective last in
      (
        ap (λ (i : RemoteImage). i.digest) (sym e),
        (eq_iff _ _).0 same,
        ap (λ (i : RemoteImage). i.config_digest) (sym e) ∙ check_manifest-digest m c checked,
        check_config-Describes c source_sha described,
      )

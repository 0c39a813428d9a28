-- ===== src/Image/Document.antt =====
-- `validate_remote_image`, `validate_local_image_document` and the two comparisons with the candidate.
pub mod Provenance
use devpath_shared.Base.{
  ℕ, ◌≡◌, refl, ◌↔◌, Bool, true, false, ◌&&◌, ◌||◌, not, Option, none, some, List, [], ◌∷◌, String,
  ◌<>◌, ◌==◌, ◌==ˢ◌, eq_iff, length, arith,
}
use devpath_shared.Base.Integer.{pos}
use devpath_shared.Base.Result.{Result, ok, err, ◌>>=◌, ◌>>◌, ensure, or_refuse}
use devpath_shared.Context.Source.{is_source_sha}
use devpath_shared.Json.{
  Json, integer, text, array, object, Items, nil, cons, Fields, get, py_eq, as_dict, as_list,
  as_str, to_list,
}
use devpath_shared.Runtime.{Bytes, Runtime}
use devpath_shared.Image.Format.{
  is_digest, valid_digest, positive_int, in_set, expected_labels, require_texts, parse_json,
  image_repository,
}

-- `RemoteImage`
pub record RemoteImage : Type 0 where
  pub digest : String
  pub config_digest : String

abbrev pub manifest_media_types : List String
manifest_media_types =
    "application/vnd.oci.image.manifest.v1+json"
    ∷ "application/vnd.docker.distribution.manifest.v2+json" ∷ []

abbrev pub config_media_types : List String
config_media_types =
    "application/vnd.oci.image.config.v1+json" ∷ "application/vnd.docker.container.image.v1+json"
    ∷ []

module _ (R : Runtime) where
  -- The checks of the manifest, up to the config's digest and size.
  unfoldable pub check_manifest : Bytes → Bytes → Result String
  check_manifest manifest_bytes config_bytes = do
    manifest ← parse_json R manifest_bytes "image manifest"
    d ← or_refuse (as_dict manifest) "image manifest root must be an object"
    ensure (py_eq (get d "schemaVersion") (integer (pos 2)))
        "image manifest schemaVersion must equal 2"
    known ← in_set (get d "mediaType") manifest_media_types
    ensure known "image reference must resolve to one image manifest, not an index"
    layers ← or_refuse (as_list (get d "layers")) "image manifest layers must be an array"
    descriptor ← or_refuse (as_dict (get d "config")) "image manifest config descriptor is missing"
    config_known ← in_set (get descriptor "mediaType") config_media_types
    ensure config_known "image config descriptor mediaType is invalid"
    ensure (valid_digest (get descriptor "digest")) "image config descriptor digest is invalid"
    ensure
        (positive_int (get descriptor "size")
          && py_eq (get descriptor "size") (integer (pos (length config_bytes))))
        "image config descriptor size does not match config bytes"
    ensure (py_eq (get descriptor "digest") (text ("sha256:" <> R.sha256 config_bytes)))
        "image config bytes do not match the manifest descriptor"
    or_refuse (as_str (get descriptor "digest")) "image config descriptor digest is invalid"

  -- The checks of the config: the platform and the provenance labels.
  unfoldable pub check_config : Bytes → String → Result (Unit {0})
  check_config config_bytes source_sha = do
    config ← parse_json R config_bytes "image config"
    c ← or_refuse (as_dict config) "image config root must be an object"
    ensure (py_eq (get c "architecture") (text "amd64") && py_eq (get c "os") (text "linux"))
        "image config must describe linux/amd64"
    runtime_config ← or_refuse (as_dict (get c "config")) "image runtime config is missing"
    labels ← or_refuse (as_dict (get runtime_config "Labels")) "image provenance labels are missing"
    require_texts (λ key. "image provenance label " <> key <> " drifted") labels
        (expected_labels source_sha)

  unfoldable pub validate_remote_image : Bytes → String → Bytes → String → Result RemoteImage
  validate_remote_image manifest_bytes manifest_digest_header config_bytes source_sha = do
    ensure (is_source_sha source_sha) "image source SHA is invalid"
    ensure (is_digest manifest_digest_header) "registry manifest digest header is invalid"
    ensure (manifest_digest_header ==ˢ ("sha256:" <> R.sha256 manifest_bytes))
        "registry manifest bytes do not match Docker-Content-Digest"
    config_digest ← check_manifest manifest_bytes config_bytes
    check_config config_bytes source_sha
    ok (record { digest = manifest_digest_header; config_digest = config_digest })

unfoldable pub require_candidate_config : RemoteImage → String → Result (Unit {0})
require_candidate_config image candidate_config_digest = do
  ensure (is_digest candidate_config_digest) "local candidate config digest is invalid"
  ensure (image.config_digest ==ˢ candidate_config_digest)
      "remote image config/rootfs does not equal the local candidate"

unfoldable pub require_local_candidate_config : String → String → Result (Unit {0})
require_local_candidate_config local_config_digest candidate_config_digest = do
  ensure (is_digest local_config_digest) "loaded local candidate config digest is invalid"
  ensure (is_digest candidate_config_digest) "build action candidate config digest is invalid"
  ensure (local_config_digest ==ˢ candidate_config_digest)
      "build action image ID does not equal the loaded local candidate"

-- `expected_tag in repo_tags`
unfoldable pub has_text : Items → String → Bool
has_text nil s = false
has_text (cons x xs) s = py_eq x (text s) || has_text xs s

abbrev tag_listed : Json → String → Bool
tag_listed (array xs) s = has_text xs s
tag_listed _ s = false

unfoldable pub validate_local_image_document : Json → String → Result String
validate_local_image_document document source_sha = do
  ensure (is_source_sha source_sha) "local candidate source SHA is invalid"
  d ← or_refuse (as_dict document) "local candidate inspect root must be an object"
  ensure (valid_digest (get d "Id")) "local candidate config digest is invalid"
  ensure (py_eq (get d "Architecture") (text "amd64") && py_eq (get d "Os") (text "linux"))
      "local candidate must be linux/amd64"
  ensure (tag_listed (get d "RepoTags") (image_repository <> ":" <> source_sha))
      "local candidate does not have the exact source-SHA tag"
  config ← or_refuse (as_dict (get d "Config")) "local candidate provenance labels are missing"
  labels ← or_refuse (as_dict (get config "Labels")) "local candidate provenance labels are missing"
  require_texts (λ key. "local candidate provenance label " <> key <> " drifted") labels
      (expected_labels source_sha)
  or_refuse (as_str (get d "Id")) "local candidate config digest is invalid"

-- ===== src/Image/Recheck.antt =====
-- `resolve_recheck`: whether to push, from what the preflight saw and what the registry holds now.
use devpath_shared.Base.{
  ◌≡◌, ◌↔◌, Bool, true, false, Option, none, some, String, ◌==ˢ◌, eq_iff, ◌⊎◌, arith, if◌then◌else◌,
}
use devpath_shared.Base.Result.{Result, ok, err, refused, ◌>>◌, ensure}
use devpath_shared.Image.Format.{is_digest}
use devpath_shared.Image.Document.{RemoteImage, require_candidate_config}

-- The preflight found no image: it may be there by now, and then it must be the candidate.
unfoldable pub recheck_absent : String → Option RemoteImage → String → Result (Bool × String)
recheck_absent preflight_digest current candidate = do
  ensure (preflight_digest ==ˢ "") "absent preflight unexpectedly carried an image digest"
  elim current [
    | none ↦ ok (true, "")
    | some image ↦ do require_candidate_config image candidate; ok (false, image.digest)
  ]

-- The preflight found the image: it must still be there, unchanged.
unfoldable pub recheck_present : String → Option RemoteImage → String → Result (Bool × String)
recheck_present preflight_digest current candidate = do
  ensure (is_digest preflight_digest) "present preflight image digest is invalid"
  elim current [
    | none ↦ err (refused "present preflight image disappeared before push boundary")
    | some image ↦ do
      ensure (image.digest ==ˢ preflight_digest)
          "present preflight manifest digest drifted before push boundary"
      require_candidate_config image candidate
      ok (false, image.digest)
  ]

unfoldable pub resolve_recheck :
    String → String → Option RemoteImage → String → Result (Bool × String)
resolve_recheck preflight_publish_needed preflight_digest current candidate = do
  ensure (is_digest candidate) "recheck local candidate config digest is invalid"
  (if preflight_publish_needed ==ˢ "true"
      then recheck_absent preflight_digest current candidate
      else if preflight_publish_needed ==ˢ "false"
      then recheck_present preflight_digest current candidate
      else err (refused "preflight publish_needed must equal true or false"))

-- The image will be pushed exactly when the preflight saw none and carried no digest, the registry
-- still has none, and the candidate's digest is well formed; the digest handed on is then empty.
pub resolve_recheck-push_iff :
    (needed preflight_digest : String) (current : Option RemoteImage) (candidate digest : String)
    → (resolve_recheck needed preflight_digest current candidate ≡ ok (true, digest)) ↔ (
        (needed ≡ "true")
        × (preflight_digest ≡ "")
        × (current ≡ none)
        × (is_digest candidate ≡ true)
        × (digest ≡ ""))
unfolding resolve_recheck recheck_absent recheck_present require_candidate_config
resolve_recheck-push_iff needed preflight_digest none candidate digest =
    ground (arith, eq_iff needed "true", eq_iff needed "false", eq_iff preflight_digest "")
resolve_recheck-push_iff needed preflight_digest (some image) candidate digest =
    ground (arith, eq_iff needed "true", eq_iff needed "false", eq_iff preflight_digest "")

-- There is an image of this digest, with the candidate's config.
abbrev pub Holds : Option RemoteImage → String → String → Type 0
Holds none digest candidate = ⊥
Holds (some image) digest candidate = (image.digest ≡ digest) × (image.config_digest ≡ candidate)

recheck_absent-reuse :
    (preflight_digest : String) (current : Option RemoteImage) (candidate digest : String)
    → (recheck_absent preflight_digest current candidate ≡ ok (false, digest))
      ↔ (Holds current digest candidate × (is_digest candidate ≡ true) × (preflight_digest ≡ ""))
unfolding recheck_absent require_candidate_config
recheck_absent-reuse preflight_digest none candidate digest =
    ground (arith, eq_iff preflight_digest "")
recheck_absent-reuse preflight_digest (some image) candidate digest =
    ground (arith, eq_iff preflight_digest "", eq_iff image.config_digest candidate)

recheck_present-reuse :
    (preflight_digest : String) (current : Option RemoteImage) (candidate digest : String)
    → (recheck_present preflight_digest current candidate ≡ ok (false, digest)) ↔ (
        Holds current digest candidate
        × (is_digest candidate ≡ true)
        × (preflight_digest ≡ digest)
        × (is_digest digest ≡ true))
unfolding recheck_present require_candidate_config
recheck_present-reuse preflight_digest none candidate digest = ground arith
recheck_present-reuse preflight_digest (some image) candidate digest =
    ground (arith, eq_iff image.digest preflight_digest, eq_iff image.config_digest candidate)

-- The image is reused exactly when the registry holds one whose config is the candidate's, and the
-- preflight either saw none and carried no digest, or saw an image of the same well-formed digest; the
-- digest handed on is that image's.
pub resolve_recheck-reuse_iff :
    (needed preflight_digest : String) (current : Option RemoteImage) (candidate digest : String)
    → (resolve_recheck needed preflight_digest current candidate ≡ ok (false, digest)) ↔ (
        Holds current digest candidate
        × (is_digest candidate ≡ true)
        × (((needed ≡ "true") × (preflight_digest ≡ ""))
            ⊎ ((needed ≡ "false") × (preflight_digest ≡ digest) × (is_digest digest ≡ true))))
unfolding resolve_recheck
resolve_recheck-reuse_iff needed preflight_digest current candidate digest = ground (
  arith,
  eq_iff needed "true",
  eq_iff needed "false",
  eq_iff "true" "false",
  recheck_absent-reuse preflight_digest current candidate digest,
  recheck_present-reuse preflight_digest current candidate digest,
)

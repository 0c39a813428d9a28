-- ===== src/Gate/JobName.antt =====
-- `derived_migration_job_name`, and `MIGRATION_JOB_NAME`, which reads the name again.
use devpath_shared.Base.{
  ℕ, zero, suc, ◌≤◌, ◌≡◌, refl, ◌∙◌, true, String, ◌<>◌, arith, length, all_of, and_iff, some, ◌==◌,
}
use Prim.Native.Char.{code}
use devpath_shared.Base.Text.{codes, take_text, remove_prefix, after_prefix, codes-take_text}
use devpath_shared.Base.Pattern.{
  Pattern, done, times, literal, matches, fullmatch, fullmatch-literal, fullmatch-times_append,
  fullmatch-range_iff, is_hex,
}
use devpath_shared.Base.Result.{Result, ok, ◌>>=◌}
use devpath_shared.Context.Source.{sha64, digest_pattern}
use devpath_shared.Json.{text}
use devpath_shared.Gate.Format.{is_nonzero, nonzero, nonzero_iff}

abbrev pub migration_job_prefix : String
migration_job_prefix = "devpath-flyway-migrate-"

-- `^devpath-flyway-migrate-([0-9a-f]{12})-([0-9a-f]{24})$`
abbrev pub migration_job_name_pattern : Pattern
migration_job_name_pattern =
    literal migration_job_prefix (times 12 is_hex (literal "-" (times 24 is_hex done)))

unfoldable pub derived_migration_job_name : String → String → Result String
derived_migration_job_name image_digest release_manifest_sha256 = do
  digest ← nonzero digest_pattern (text image_digest) "migration image digest"
  release_sha ← nonzero sha64 (text release_manifest_sha256) "release manifest SHA-256"
  ok (
      migration_job_prefix
      <> (take_text 12 (remove_prefix "sha256:" digest) <> ("-" <> take_text 24 release_sha)))

all_of-take :
    (n : ℕ) (s : String)
    → all_of is_hex (codes s) ≡ true
    → all_of is_hex (codes (take_text n s)) ≡ true
unfolding codes take_text
all_of-take zero s h = refl
all_of-take (suc n) String.[] h = refl
all_of-take (suc n) (String.◌∷◌ c s) h = ground (arith, all_of-take n s)

-- The name of a text of at least 12 hexadecimal digits and one of at least 24 matches the pattern.
name_matches :
    (s t : String)
    → 12 ≤ length (codes s)
    → 24 ≤ length (codes t)
    → all_of is_hex (codes s) ≡ true
    → all_of is_hex (codes t) ≡ true
    → fullmatch migration_job_name_pattern
        (migration_job_prefix <> (take_text 12 s <> ("-" <> take_text 24 t)))
      ≡ true
name_matches s t l m a b =
    fullmatch-literal migration_job_prefix _ _
    ∙ fullmatch-times_append is_hex 12 (literal "-" (times 24 is_hex done)) (take_text 12 s) _
        (codes-take_text 12 s l) (all_of-take 12 s a)
    ∙ fullmatch-literal "-" _ _
    ∙ (fullmatch-range_iff is_hex 24 24 (take_text 24 t) (omega arith)).1 (
      omega (arith, codes-take_text 24 t m),
      omega (arith, codes-take_text 24 t m),
      all_of-take 24 t b,
    )

-- A text that matches a literal and a rest is the literal and a text that matches the rest.
after_literal :
    (w s : String) (r : Pattern)
    → fullmatch (literal w r) s ≡ true
    → (t : String) × (after_prefix w s ≡ some t) × (fullmatch r t ≡ true)
unfolding fullmatch matches literal codes after_prefix
after_literal String.[] s r h = (s, refl, h)
after_literal (String.◌∷◌ c w) String.[] r h = absurd (ground arith)
after_literal (String.◌∷◌ c w) (String.◌∷◌ d s) r h =
    let (same, rest) = (and_iff (code d == code c) (matches (literal w r) (codes s))).0 h in
    let (t, after, matched) = after_literal w s r rest in (t, ground (arith, same), matched)

remove_prefix-of_after :
    (p s : String) {t : String} → after_prefix p s ≡ some t → remove_prefix p s ≡ t
unfolding remove_prefix
remove_prefix-of_after p s h = ground arith

digest_digits :
    (digest : String)
    → fullmatch digest_pattern digest ≡ true
    → (length (codes (remove_prefix "sha256:" digest)) ≡ 64)
      × (all_of is_hex (codes (remove_prefix "sha256:" digest)) ≡ true)
unfolding digest_pattern
digest_digits digest h =
    let (t, after, matched) = after_literal "sha256:" digest (times 64 is_hex done) h in
    let (least, most, hex) = (fullmatch-range_iff is_hex 64 64 t (omega arith)).0 matched in
    rw (remove_prefix-of_after "sha256:" digest after) (omega arith, hex)

-- A nonzero digest and a nonzero SHA-256 of the release always give a name, and the name matches
-- the pattern by which jobs are recognised.
pub derived_migration_job_name-matches :
    (image_digest release_manifest_sha256 : String)
    → is_nonzero digest_pattern image_digest ≡ true
    → is_nonzero sha64 release_manifest_sha256 ≡ true
    → (name : String) × (derived_migration_job_name image_digest release_manifest_sha256 ≡ ok name)
      × (fullmatch migration_job_name_pattern name ≡ true)
unfolding derived_migration_job_name is_nonzero
derived_migration_job_name-matches image_digest release_manifest_sha256 h g =
    let (size, hex) = digest_digits image_digest ((and_iff _ _).0 h).0 in
    let (least, most, release_hex) =
      (fullmatch-range_iff is_hex 64 64 release_manifest_sha256 (omega arith)).0
        ((and_iff _ _).0 g).0 in
    (
      _,
      rw
          (
            (nonzero_iff digest_pattern image_digest _ _).1 (refl, h),
            (nonzero_iff sha64 release_manifest_sha256 _ _).1 (refl, g),
          )
          refl,
      name_matches (remove_prefix "sha256:" image_digest) release_manifest_sha256 (omega arith)
          (omega arith) hex release_hex,
    )

-- ===== src/Image/Registry.antt =====
-- `RegistryClient`: the bearer token, the storage redirect, the config blob, the exact absence of a
-- manifest, and `inspect`.
pub mod Inspect
use devpath_shared.Base.{
  ℕ, suc, Bool, true, false, ◌&&◌, ◌||◌, not, Option, none, some, List, [], ◌∷◌, String, ◌<>◌, ◌==◌,
  ◌==ˢ◌, leb, ltb, length, take, if◌then◌else◌, ◌⊎◌, inl, inr,
}
use devpath_shared.Base.Decimal.{max_int_digits, show, int_of_text}
use devpath_shared.Base.Pattern.{Pattern, done, piece, literal, fullmatch, is_digit}
use devpath_shared.Base.Text.{codes}
use devpath_shared.Base.Result.{
  Result, ok, err, refused, value_error, ◌>>=◌, ◌>>◌, ensure, or_refuse,
}
use devpath_shared.Context.Source.{is_source_sha, digest_pattern}
use devpath_shared.Json.{
  Json, Fields, Items, field, end, nil, cons, text, array, object, get, py_eq, as_dict, as_str,
}
use devpath_shared.Runtime.{Bytes, Runtime}
use devpath_shared.Url.{SplitUrl, is_https_port, is_none}
use devpath_shared.Context.{is_text, or_empty}
use devpath_shared.Image.Format.{registry_repository, is_digest, valid_digest, parse_json}
use devpath_shared.Image.Response.{Headers, header, last_header, is_identity, is_count, headers_of}
use devpath_shared.Image.Http.{Failure}
use devpath_shared.Image.Document.{RemoteImage, validate_remote_image}

abbrev pub max_manifest_bytes : ℕ
max_manifest_bytes = 4194304

abbrev pub max_config_bytes : ℕ
max_config_bytes = 4194304

abbrev pub max_token_bytes : ℕ
max_token_bytes = 65536

abbrev pub max_error_bytes : ℕ
max_error_bytes = 8192

abbrev pub user_agent : String × String
user_agent = ("User-Agent", "devpath-shared-immutable-image/1")

-- `service=ghcr.io&scope=…`, as `urlencode` writes it.
abbrev pub token_url : String
token_url =
    "https://ghcr.io/token?service=ghcr.io&scope=repository%3Adevpathai%2Fdevpath-migration%3Apull"

-- The arguments of the constructor; a line break in either is refused.
abbrev pub has_line_break : List ℕ → Bool
has_line_break [] = false
has_line_break (c ∷ s) = (c == 10 || c == 13) || has_line_break s

pub record Credentials : Type 0 where
  pub actor : String
  pub token : String

unfoldable pub registry_client : String → String → Result Credentials
unfolding codes
registry_client actor token =
    if (actor ==ˢ "" || token ==ˢ "")
      || (has_line_break (codes actor) || has_line_break (codes token))
    then err (refused "GitHub registry credentials are missing or malformed")
    else ok (record { actor = actor; token = token })

unfoldable pub manifest_url : String → Result String
manifest_url source_sha =
    if is_source_sha source_sha
    then ok ("https://ghcr.io/v2/" <> registry_repository <> "/manifests/" <> source_sha)
    else err (refused "manifest source SHA is invalid")

unfoldable pub config_url : String → Result String
config_url config_digest =
    if is_digest config_digest
    then ok ("https://ghcr.io/v2/" <> registry_repository <> "/blobs/" <> config_digest)
    else err (refused "config digest is invalid")

-- `value.isdecimal() and 0 < int(value) <= MAX_ERROR_BYTES`
abbrev pub error_length_allowed : Option String → Result Bool
error_length_allowed none = ok true
error_length_allowed (some value) = elim (int_of_text value) [
  | none ↦ ok false
  | some n ↦
      if ltb max_int_digits (length (codes value))
      then err value_error
      else ok (ltb 0 n && leb n max_error_bytes)
]

abbrev error_length_kept : Option String → ℕ → Bool
error_length_kept none n = true
error_length_kept (some value) n = is_count value n

-- The only body that counts as absence.
abbrev pub manifest_unknown : Json
manifest_unknown = object (
    field "errors"
      (array (
        cons
          (object (
            field "code" (text "MANIFEST_UNKNOWN") (field "message" (text "manifest unknown") end)))
          nil))
      end)

abbrev is_json_type : Option String → Bool
is_json_type none = false
is_json_type (some t) = t ==ˢ "application/json" || t ==ˢ "application/json; charset=utf-8"

abbrev is_ok_eq : Result Json → Json → Bool
is_ok_eq (ok v) w = py_eq v w
is_ok_eq (err e) w = false

-- `raw == b`, byte by byte
abbrev pub eq_bytes : Bytes → Bytes → Bool
eq_bytes [] [] = true
eq_bytes [] (b ∷ bs) = false
eq_bytes (a ∷ as') [] = false
eq_bytes (a ∷ as') (b ∷ bs) = (a == b) && eq_bytes as' bs

module _ (R : Runtime) where
  -- The checks up to the encoding of the failure.
  abbrev pub names_absence : Failure → String → Bool
  names_absence f manifest_url =
      (f.code == 404 && f.url ==ˢ manifest_url)
      && (is_json_type (header "Content-Type" (headers_of f.headers))
          && is_identity (header "Content-Encoding" (headers_of f.headers)))

  -- The checks of its body; an `ImageError` in them is a no.
  abbrev pub holds_absence : Failure → Bool
  holds_absence f =
      let raw = take (suc max_error_bytes) f.body in
      (ltb 0 (length raw) && leb (length raw) max_error_bytes)
      && error_length_kept (header "Content-Length" (headers_of f.headers)) (length raw)
      && is_ok_eq (parse_json R raw "registry manifest absence response") manifest_unknown
      && eq_bytes raw (R.dumps_unicode manifest_unknown)

  -- `_is_exact_manifest_absence`
  unfoldable pub is_exact_manifest_absence : Failure → String → Result Bool
  is_exact_manifest_absence f manifest_url =
      if names_absence f manifest_url
      then (do
        allowed ← error_length_allowed (header "Content-Length" (headers_of f.headers))
        ok (allowed && holds_absence f))
      else ok false

  -- What `_bearer_token` makes of the reply.
  unfoldable pub read_token : (Bytes × Headers) ⊎ Failure → Result String
  unfolding codes
  read_token (inr f) = err (refused ("registry token API returned HTTP " <> show f.code))
  read_token (inl (raw, hs)) = do
    ensure (is_text (last_header "content-type" hs) "application/json")
        "registry token response Content-Type is invalid"
    document ← parse_json R raw "registry token response"
    d ← or_refuse (as_dict document) "registry token response root must be an object"
    bearer ← or_refuse (as_str (get d "token")) "registry bearer token is missing or malformed"
    ensure (not (bearer ==ˢ "") && leb (length (codes bearer)) 8192)
        "registry bearer token is missing or malformed"
    ok bearer

  -- The config digest that `inspect` reads out of the manifest before it fetches the config.
  unfoldable pub named_config : Bytes → Result String
  named_config manifest_bytes = do
    manifest ← parse_json R manifest_bytes "image manifest"
    d ← or_refuse (as_dict manifest) "image manifest config descriptor is missing"
    descriptor ← or_refuse (as_dict (get d "config")) "image manifest config descriptor is missing"
    ensure (valid_digest (get descriptor "digest")) "image config descriptor digest is invalid"
    or_refuse (as_str (get descriptor "digest")) "image config descriptor digest is invalid"

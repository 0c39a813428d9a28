-- ===== src/Image/Redirect.antt =====
-- `_storage_redirect`: the one redirect that a config request may follow. It is judged from the
-- `HTTPError` and the split of its `Location`.
use devpath_shared.Base.{
  ◌≡◌, Bool, true, ◌&&◌, not, none, some, String, ◌<>◌, ◌==◌, ◌==ˢ◌, length, eq_iff, arith, ◌⊎◌,
}
use mathlib.Core.Path.{subst}
use devpath_shared.Base.Decimal.{show}
use devpath_shared.Base.Result.{Result, ok, ◌>>=◌, ◌>>◌, ensure, or_refuse, >>=-eq-ok, ok-injective}
use devpath_shared.Base.Pattern.{done, piece, literal, fullmatch, is_digit}
use devpath_shared.Base.Text.{codes}
use devpath_shared.Context.Source.{digest_pattern}
use devpath_shared.Context.{is_text, is_text_iff}
use devpath_shared.Url.{SplitUrl, is_https_port, is_none}
use devpath_shared.Image.Response.{header, is_identity, headers_of}
use devpath_shared.Image.Http.{Failure}

-- `re.fullmatch(r"/ghcrblobs[0-9]+/blobs/(sha256:[0-9a-f]{64})", path)` with the config digest for its
-- group; a run of digits is no longer than the path.
unfoldable pub is_blob_path : String → String → Bool
unfolding literal codes fullmatch
is_blob_path config_digest path =
    fullmatch digest_pattern config_digest
    && fullmatch
        (literal "/ghcrblobs"
          (piece is_digit 1 (length (codes path)) (literal "/blobs/" (literal config_digest done))))
        path

unfoldable pub redirect_location : Failure → String → Result String
redirect_location f config_url = do
  ensure (f.code == 307 && f.url ==ˢ config_url)
      ("registry config request returned HTTP " <> show f.code)
  let hs = headers_of f.headers
  ensure (is_text (header "Content-Length" hs) "0")
      "registry config redirect body length is invalid"
  ensure (is_identity (header "Content-Encoding" hs))
      "registry config redirect Content-Encoding is invalid"
  ensure (length f.body == 0) "registry config redirect body must be empty"
  or_refuse (header "Location" hs) "registry config redirect Location is missing"

-- The port is read only when the scheme and the host have passed.
unfoldable pub allow_target : SplitUrl → String → Result (Unit {0})
allow_target parsed config_digest = do
  let refusal : String = "registry config redirect target is not allowlisted"
  ensure
      (parsed.scheme ==ˢ "https" && is_text parsed.hostname "pkg-containers.githubusercontent.com")
      refusal
  port ← parsed.port
  ensure (is_https_port port && (is_none parsed.username && is_none parsed.password)) refusal
  ensure (is_blob_path config_digest parsed.path) refusal
  ensure (not (parsed.query ==ˢ "") && parsed.fragment ==ˢ "") refusal

unfoldable pub storage_redirect : (String → SplitUrl) → Failure → String → String → Result String
storage_redirect urlsplit f config_url config_digest = do
  location ← redirect_location f config_url
  allow_target (urlsplit location) config_digest
  ok location

-- An address of GitHub's container storage over https, with no credentials in it, for this blob.
pub record IsStorage (u : SplitUrl) (config_digest : String) : Type 0 where
  pub secure : u.scheme ≡ "https"
  pub named : u.hostname ≡ some "pkg-containers.githubusercontent.com"
  pub standard : (u.port ≡ ok none) ⊎ (u.port ≡ ok (some 443))
  pub nobody : (u.username ≡ none) × (u.password ≡ none)
  pub blob : is_blob_path config_digest u.path ≡ true
  pub whole : u.fragment ≡ ""

allow_target-IsStorage :
    (u : SplitUrl) (config_digest : String)
    → allow_target u config_digest ≡ ok tt
    → IsStorage u config_digest
unfolding allow_target
allow_target-IsStorage u config_digest h = ground (
  arith,
  eq_iff u.scheme "https",
  is_text_iff u.hostname "pkg-containers.githubusercontent.com",
  eq_iff u.fragment "",
)

redirect_location-eq :
    (f : Failure) (config_url : String) {location : String}
    → redirect_location f config_url ≡ ok location
    → (f.code ≡ 307) × (f.url ≡ config_url) × (length f.body ≡ 0)
unfolding redirect_location
redirect_location-eq f config_url h = ground (arith, eq_iff f.url config_url)

-- A redirect is followed only if it is a 307 of the config's own URL with an empty body, and only to
-- GitHub's container storage, to the blob of the very digest that was asked for.
pub storage_redirect-IsStorage :
    (urlsplit : String → SplitUrl) (f : Failure) (config_url config_digest : String)
    {location : String}
    → storage_redirect urlsplit f config_url config_digest ≡ ok location
    → (f.code ≡ 307)
      × (f.url ≡ config_url)
      × (length f.body ≡ 0)
      × IsStorage (urlsplit location) config_digest
unfolding storage_redirect
storage_redirect-IsStorage urlsplit f config_url config_digest {location} h =
    let (found, located, h₁) = >>=-eq-ok (redirect_location f config_url) _ h in
    let (_, allowed, last) = >>=-eq-ok (allow_target (urlsplit found) config_digest) _ h₁ in
    let (code, url, body) = redirect_location-eq f config_url located in
    (
      code,
      url,
      body,
      subst (λ l. IsStorage (urlsplit l) config_digest) (ok-injective last)
          (allow_target-IsStorage (urlsplit found) config_digest allowed),
    )

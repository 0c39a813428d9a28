-- ===== src/Package/Redirect.antt =====
-- `SafePackageRedirect` and `is_absent_package_response`. A URL is given as `urllib.parse.urlsplit`
-- splits it.
use devpath_shared.Base.{
  ℕ, ◌≡◌, refl, Bool, false, ◌&&◌, ◌||◌, Option, none, some, List, [], ◌∷◌, ◌⊎◌, String, ◌==◌,
  ◌==ˢ◌, eq_iff, arith, if◌then◌else◌,
}
use devpath_shared.Base.Result.{Result, ok, ◌>>=◌, ◌>>◌, ensure, >>=-eq-ok, ok-injective}
use devpath_shared.Url.{SplitUrl, is_https_port, is_none}
use devpath_shared.Context.{is_text, is_text_iff}

-- The header fields of a request.
pub record Request : Type 0 where
  pub url : String
  pub headers : List (String × String)

-- `remove_header(name)`
unfoldable pub remove_header : String → List (String × String) → List (String × String)
remove_header name [] = []
remove_header name ((key, value) ∷ headers) =
    let rest = remove_header name headers in if key ==ˢ name then rest else (key, value) ∷ rest

-- The two tests read `port` only when those before it have passed.
module _ (refuse : String) where
  unfoldable pub require_host : SplitUrl → String → Result (Unit {0})
  require_host u host = do
    ensure (u.scheme ==ˢ "https") refuse
    ensure (is_text u.hostname host) refuse
    port ← u.port
    ensure (is_https_port port) refuse

-- `redirected.remove_header("Authorization")`, if there is a request
abbrev pub drop_credentials : Option Request → Option Request
drop_credentials none = none
drop_credentials (some r) = some (record r { headers = remove_header "Authorization" r.headers })

-- `super().redirect_request(…)` is the parameter `follow`: the request that `urllib` would send, or
-- none.
unfoldable pub redirect_request :
    (urlsplit : String → SplitUrl) (follow : Request → String → Result (Option Request))
    → Request
    → String
    → Result (Option Request)
redirect_request urlsplit follow req newurl = do
  require_host "package redirect source is not allowlisted" (urlsplit req.url)
      "maven.pkg.github.com"
  let target = urlsplit newurl
  require_host "package redirect target is not allowlisted" target
      "github-registry-files.githubusercontent.com"
  ensure (is_none target.username && is_none target.password)
      "package redirect target is not allowlisted"
  redirected ← follow req newurl
  ok (drop_credentials redirected)

-- The status is tested first, and the port before the credentials.
unfoldable pub is_absent_package_response : SplitUrl → ℕ → Result Bool
is_absent_package_response parsed status =
    if (status == 404 && parsed.scheme ==ˢ "https")
      && is_text parsed.hostname "maven.pkg.github.com"
    then (do
      port ← parsed.port
      ok ((is_https_port port && is_none parsed.username) && is_none parsed.password))
    else ok false

abbrev pub has_header : String → List (String × String) → Bool
has_header name [] = false
has_header name ((key, value) ∷ headers) = key ==ˢ name || has_header name headers

has_header-remove_header :
    (name : String) (headers : List (String × String))
    → has_header name (remove_header name headers) ≡ false
unfolding remove_header
has_header-remove_header name [] = refl
has_header-remove_header name ((key, value) ∷ headers) =
    ground (arith, has_header-remove_header name headers)

drop_credentials-safe :
    (o : Option Request) {r : Request}
    → drop_credentials o ≡ some r
    → has_header "Authorization" r.headers ≡ false
drop_credentials-safe none h = cc
drop_credentials-safe (some q) {r} h =
    ground (arith, has_header-remove_header "Authorization" q.headers)

-- A URL of the host over https, on its standard port.
pub record IsHost (u : SplitUrl) (host : String) : Type 0 where
  pub secure : u.scheme ≡ "https"
  pub named : u.hostname ≡ some host
  pub standard : (u.port ≡ ok none) ⊎ (u.port ≡ ok (some 443))

require_host-IsHost :
    (refuse : String) (u : SplitUrl) (host : String)
    → require_host refuse u host ≡ ok tt
    → IsHost u host
unfolding require_host
require_host-IsHost refuse u host h =
    ground (arith, eq_iff u.scheme "https", is_text_iff u.hostname host)

module _ (urlsplit : String → SplitUrl) (follow : Request → String → Result (Option Request)) where
  -- A redirect that is followed leads from the package host to GitHub's storage host, both over https
  -- on the standard port, with no user or password in the target, and the request that is sent
  -- on carries no `Authorization` header.
  pub redirect-safe :
      (req r : Request) (newurl : String)
      → redirect_request urlsplit follow req newurl ≡ ok (some r)
      → IsHost (urlsplit req.url) "maven.pkg.github.com"
        × IsHost (urlsplit newurl) "github-registry-files.githubusercontent.com"
        × ((urlsplit newurl).username ≡ none)
        × ((urlsplit newurl).password ≡ none)
        × (has_header "Authorization" r.headers ≡ false)
  unfolding redirect_request
  redirect-safe req r newurl h =
      let (_, from, h₁) = >>=-eq-ok (require_host _ (urlsplit req.url) _) _ h in
      let (_, to, h₂) = >>=-eq-ok (require_host _ (urlsplit newurl) _) _ h₁ in
      let (_, bare, h₃) =
        >>=-eq-ok
          (ensure (is_none (urlsplit newurl).username && is_none (urlsplit newurl).password)
            "package redirect target is not allowlisted")
          _ h₂ in
      let (redirected, followed, sent) = >>=-eq-ok (follow req newurl) _ h₃ in
      (
        require_host-IsHost _ _ _ from,
        require_host-IsHost _ _ _ to,
        ground arith,
        ground arith,
        drop_credentials-safe redirected (ok-injective sent),
      )

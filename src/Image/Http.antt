-- ===== src/Image/Http.antt =====
-- `RegistryClient._request`: one GET, whose reply is checked in Response.
use devpath_shared.Base.{
  ℕ, Bool, true, false, Option, List, [], ◌∷◌, ◌++◌, String, if◌then◌else◌, ◌⊎◌, inl, inr,
}
use devpath_shared.Base.Result
use devpath_shared.Base.Result.{Result, ok, err, refused, ensure}
use devpath_shared.Base.Exec.{Exec, pure, lift, ◌>>=◌, ◌>>◌}
use devpath_shared.Base.Text.{strip, eq_lower}
use devpath_shared.Runtime.{Bytes}
use devpath_shared.Image.Response.{Headers, Response, check_response}
use devpath_shared.Url.{SplitUrl}

-- An `HTTPError`: its code, URL, header fields (perhaps none at all) and body.
pub record Failure : Type 0 where
  pub code : ℕ
  pub url : String
  pub headers : Option Headers
  pub body : Bytes

pub data Opened : Type 0 where
  response : Response → Opened
  http_failure : Failure → Opened
  url_failure : Opened

-- The registry, the clock, and `urllib`.
pub record Network (W : Type 0) : Type 0 where
  pub open_url : String → Headers → Exec W Opened
  pub sleep : W → W
  pub urlsplit : String → SplitUrl

-- The header fields whose name is Accept-Encoding, and the others.
abbrev pub encodings : Headers → List String
encodings [] = []
encodings ((key, value) ∷ hs) =
    let rest = encodings hs in if eq_lower key "accept-encoding" then value ∷ rest else rest

abbrev pub without_encodings : Headers → Headers
without_encodings [] = []
without_encodings ((key, value) ∷ hs) =
    let rest = without_encodings hs in
    if eq_lower key "accept-encoding" then rest else (key, value) ∷ rest

abbrev pub encodings_allowed : List String → Bool
encodings_allowed [] = true
encodings_allowed (e ∷ []) = eq_lower (strip e) "identity"
encodings_allowed (e ∷ f ∷ es) = false

-- The bytes and the header fields, or the `HTTPError` that is raised; every caller catches that one.
module _ {W : Type 0} (N : Network W) where
  unfoldable pub request : String → Headers → ℕ → Exec W ((Bytes × Headers) ⊎ Failure)
  unfolding check_response
  request url headers max_bytes = do
    lift (
        ensure (encodings_allowed (encodings headers))
          "registry request Accept-Encoding is invalid")
    opened ← N.open_url url (without_encodings headers ++ ("Accept-Encoding", "identity") ∷ [])
    elim opened [
      | response r ↦ lift (Result.◌>>=◌ (check_response url max_bytes r) (λ b. ok (inl b)))
      | http_failure f ↦ pure (inr f)
      | url_failure ↦ lift (err (refused "registry API request failed"))
    ]

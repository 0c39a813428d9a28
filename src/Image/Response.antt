-- ===== src/Image/Response.antt =====
-- A reply of the registry and the checks of `RegistryClient._request` on it: status, URL, encoding
-- and length.
use devpath_shared.Base.{
  ltb, ℕ, suc, Bool, true, false, ◌&&◌, Option, none, some, List, [], ◌∷◌, String, ◌<>◌, ◌==◌,
  ◌==ˢ◌, leb, length, take, if◌then◌else◌,
}
use devpath_shared.Base.Decimal.{max_int_digits, show, int_of_text}
use devpath_shared.Base.Result.{Result, ok, err, value_error, ◌>>=◌, ◌>>◌, ensure}
use devpath_shared.Base.Text.{codes, strip, eq_lower}
use devpath_shared.Runtime.{Bytes}

abbrev pub Headers : Type 0
Headers = List (String × String)

-- `headers.get(name)`, which ignores case.
unfoldable pub header : String → Headers → Option String
unfolding eq_lower
header name [] = none
header name ((key, value) ∷ hs) = if eq_lower key name then some value else header name hs

-- `{key.lower(): value.strip() for …}.get(name)`: the last of several fields counts.
unfoldable pub last_header : String → Headers → Option String
unfolding eq_lower strip
last_header name [] = none
last_header name ((key, value) ∷ hs) = elim (last_header name hs) [
  | some v ↦ some v
  | none ↦ if eq_lower key name then some (strip value) else none
]

-- The header fields of an error, which may have none at all.
abbrev pub headers_of : Option Headers → Headers
headers_of none = []
headers_of (some hs) = hs

pub record Response : Type 0 where
  pub status : ℕ
  pub url : String
  pub headers : Headers
  pub body : Bytes

-- `encoding is None or encoding.strip().lower() == "identity"`
abbrev pub is_identity : Option String → Bool
is_identity none = true
is_identity (some e) = eq_lower (strip e) "identity"

-- `value.isdecimal() and str(int(value)) == value and int(value) <= most`
abbrev pub is_length : String → ℕ → Result Bool
is_length value most = elim (int_of_text value) [
  | none ↦ ok false
  | some n ↦
      if ltb max_int_digits (length (codes value))
      then err value_error
      else ok ((show n ==ˢ value) && leb n most)
]

abbrev pub is_count : String → ℕ → Bool
is_count value n = elim (int_of_text value) [ none ↦ false | some m ↦ n == m ]

abbrev length_allowed : Option String → ℕ → Result Bool
length_allowed none most = ok true
length_allowed (some value) most = is_length value most

abbrev length_kept : Option String → ℕ → Bool
length_kept none n = true
length_kept (some value) n = is_count value n

unfoldable pub check_response : String → ℕ → Response → Result (Bytes × Headers)
check_response url max_bytes r = do
  ensure (r.status == 200) ("registry API returned HTTP " <> show r.status)
  ensure (r.url ==ˢ url) "registry API response URL drifted"
  ensure (is_identity (header "Content-Encoding" r.headers))
      "registry response Content-Encoding is invalid"
  let content_length = header "Content-Length" r.headers
  allowed ← length_allowed content_length max_bytes
  ensure allowed "registry response Content-Length is invalid"
  let raw = take (suc max_bytes) r.body
  ensure (leb (length raw) max_bytes) "registry response exceeded its byte limit"
  ensure (length_kept content_length (length raw))
      "registry response bytes do not match Content-Length"
  ok (raw, r.headers)

-- ===== src/Url.antt =====
-- A URL as `urllib.parse.urlsplit` splits it.
use devpath_shared.Base.{ℕ, Bool, true, false, Option, none, some, String, ◌==◌}
use devpath_shared.Base.Result.{Result}

-- Reading `port` raises `ValueError` where the text behind the colon is no port number.
pub record SplitUrl : Type 0 where
  pub scheme : String
  pub hostname : Option String
  pub port : Result (Option ℕ)
  pub username : Option String
  pub password : Option String
  pub path : String
  pub query : String
  pub fragment : String

-- `port in (None, 443)`
abbrev pub is_https_port : Option ℕ → Bool
is_https_port none = true
is_https_port (some n) = n == 443

-- `value is None`
abbrev pub is_none : Option String → Bool
is_none none = true
is_none (some s) = false

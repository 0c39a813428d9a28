-- ===== src/Runtime.antt =====
-- What the scripts call of Python's own library and cannot be read here: `hashlib.sha256`, the
-- UTF-8 codec, and the text of a JSON document in `json.loads` and `json.dumps`. The hooks that the
-- scripts hand to `json.loads` are in Json/Hooks.
use devpath_shared.Base.{ℕ, String, Option, List}
use devpath_shared.Json.{Json}

abbrev pub Bytes : Type 0
Bytes = List ℕ

pub record Runtime : Type 0 where
  -- `hashlib.sha256(raw).hexdigest()`
  pub sha256 : Bytes → String
  -- `raw.decode("utf-8")`; `none` is a `UnicodeDecodeError`
  pub decode : Bytes → Option String
  -- The document with its pairs in order, before any hook; `none` is a `JSONDecodeError`.
  pub loads : String → Option Json
  -- `repr(s)`
  pub repr : String → String
  -- `base64.b64encode(s.encode("utf-8")).decode("ascii")`
  pub b64encode : String → String
  -- `(json.dumps(value, ensure_ascii=False, separators=(",", ":")) + "\n").encode("utf-8")`
  pub dumps_unicode : Json → Bytes
  -- `(json.dumps(value, separators=(",", ":")) + "\n").encode("utf-8")`
  pub dumps : Json → Bytes
  -- `s.encode("utf-8")`
  pub encode : String → Bytes

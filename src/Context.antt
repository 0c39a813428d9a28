-- ===== src/Context.antt =====
-- The environment of a workflow run, and the loop `for key, value in expected.items()` over it that
-- all three scripts begin with.
pub mod Source
use devpath_shared.Base.{
  ◌≡◌, refl, ◌↔◌, Bool, true, false, Option, none, some, List, [], ◌∷◌, String, ◌<>◌, ◌==ˢ◌, eq_iff,
  All, arith,
}
use devpath_shared.Base.Result.{Result, ok, err, ◌>>=◌, ◌>>◌, ensure}

-- `os.environ`
abbrev pub Env : Type 0
Env = String → Option String

-- `env.get(key) == value`
abbrev pub is_text : Option String → String → Bool
is_text none v = false
is_text (some s) v = s ==ˢ v

-- `env.get(key, "")`
abbrev pub or_empty : Option String → String
or_empty none = ""
or_empty (some s) = s

pub is_text_iff : (o : Option String) (v : String) → (is_text o v ≡ true) ↔ (o ≡ some v)
is_text_iff none v = ground arith
is_text_iff (some s) v = ground (arith, eq_iff s v)

unfoldable pub require_env : Env → List (String × String) → Result (Unit {0})
require_env env [] = ok tt
require_env env ((key, value) ∷ expected) = do
  ensure (is_text (env key) value) (key <> " must equal " <> value)
  require_env env expected

abbrev pub Binds : Env → String × String → Type 0
Binds env (key, value) = env key ≡ some value

pub require_env_iff :
    (env : Env) (expected : List (String × String))
    → (require_env env expected ≡ ok tt) ↔ All (Binds env) expected
unfolding require_env
require_env_iff env [] = ground arith
require_env_iff env ((key, value) ∷ expected) =
    ground (arith, is_text_iff (env key) value, require_env_iff env expected)

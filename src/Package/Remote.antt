-- ===== src/Package/Remote.antt =====
-- `classify_remote_artifacts`, `fetch` of `_authenticated_fetch`, and the retries of `verify_remote`.
pub mod Classify
pub mod Verify
use devpath_shared.Base.{
  ℕ, ◌≡◌, refl, ◌↔◌, Bool, true, false, ◌&&◌, ◌||◌, not, Option, none, some, List, [], ◌∷◌, String,
  ◌<>◌, ◌==◌, ◌==ˢ◌, suc, ◌+◌, length, take, if◌then◌else◌, arith,
}
use devpath_shared.Base.Decimal.{show}
use devpath_shared.Base.Result
use devpath_shared.Base.Result.{Result, ok, err, refused, ensure}
use devpath_shared.Base.Exec.{Exec, pure, lift, ◌>>=◌, ◌>>◌, retry}
use devpath_shared.Url.{SplitUrl}
use devpath_shared.Runtime.{Bytes, Runtime}
use devpath_shared.Package.Artifact.{ArtifactSpec, Specs, artifacts, validate_artifact_bytes}
use devpath_shared.Package.Redirect.{is_absent_package_response}

-- What one artifact's `fetch` answered: an entry of `statuses` and of `payloads`.
pub record Fetched : Type 0 where
  pub name : String
  pub artifact : ArtifactSpec
  pub status : ℕ
  pub payload : Bytes

abbrev pub known_status : ℕ → Bool
known_status status = status == 200 || status == 404

-- The first loop of `classify_remote_artifacts`.
module _ {W : Type 0} (fetch : String → Exec W (ℕ × Bytes)) where
  unfoldable pub fetch_all : Specs → Exec W (List Fetched)
  fetch_all [] = pure []
  fetch_all ((name, spec) ∷ specs) = do
    (status, raw) ← fetch name
    lift (ensure (known_status status) ("remote " <> name <> " returned HTTP " <> show status))
    rest ← fetch_all specs
    pure (record { name = name; artifact = spec; status = status; payload = raw } ∷ rest)

-- `present`
abbrev pub count_present : List Fetched → ℕ
count_present [] = 0
count_present (f ∷ fs) = (if f.status == 200 then 1 else 0) + count_present fs

module _ (R : Runtime) where
  unfoldable pub validate_all : List Fetched → Result (Unit {0})
  validate_all [] = ok tt
  validate_all (f ∷ fs) =
      Result.◌>>◌ (validate_artifact_bytes R f.artifact f.payload) (validate_all fs)

  -- What follows the loop. The result is true when the publication is absent.
  unfoldable pub decide_remote : Bool → List Fetched → Result Bool
  decide_remote require_present fs =
      if count_present fs == 0
      then (if require_present
          then err (refused "immutable package is still missing after publication")
          else ok true)
      else if not (count_present fs == length fs)
      then err (refused "immutable package is partial; refusing publication")
      else Result.◌>>◌ (validate_all fs) (ok false)

  module _ {W : Type 0} (fetch : String → Exec W (ℕ × Bytes)) where
    unfoldable pub classify_remote_artifacts : Specs → Bool → Exec W Bool
    classify_remote_artifacts specs require_present = do
      fs ← fetch_all fetch specs
      lift (decide_remote require_present fs)

-- What `opener.open(request)` gives back or raises: a status with the bytes that can be read, an
-- `HTTPError` with its code and URL, or another `URLError`.
pub data Opened : Type 0 where
  response : ℕ → Bytes → Opened
  http_failure : ℕ → String → Opened
  url_failure : Opened

abbrev pub maven_base_url : String
maven_base_url =
    "https://maven.pkg.github.com/DevPathAi/devpath-shared/ai/devpath/devpath-shared/0.0.1-rm.20260907"

-- `ARTIFACTS[name]`
abbrev pub find_spec : String → Specs → Option ArtifactSpec
find_spec name [] = none
find_spec name ((key, spec) ∷ specs) = if name ==ˢ key then some spec else find_spec name specs

-- The service and the clock behind `verify_remote`.
pub record Remote (W : Type 0) : Type 0 where
  pub urlsplit : String → SplitUrl
  pub open_url : String → Exec W Opened
  pub sleep : W → W

module _ {W : Type 0} (N : Remote W) where
  abbrev refuse_fetch : String → Result (ℕ × Bytes)
  refuse_fetch message = err (refused message)

  -- What `fetch` makes of the reply: at most one byte more than the artifact's size is read.
  unfoldable pub read_reply : String → ArtifactSpec → Opened → Result (ℕ × Bytes)
  read_reply name spec (response status body) = ok (status, take (suc spec.size) body)
  read_reply name spec (http_failure code url) =
      Result.◌>>=◌ (is_absent_package_response (N.urlsplit url) code) (λ absent.
        if absent
        then ok (404, [])
        else refuse_fetch ("remote " <> name <> " returned HTTP " <> show code))
  read_reply name spec url_failure = refuse_fetch ("remote " <> name <> " could not be fetched")

  -- `fetch`, once its name has been looked up in `ARTIFACTS`
  unfoldable pub fetch_artifact : String → Option ArtifactSpec → Exec W (ℕ × Bytes)
  fetch_artifact name none = lift (refuse_fetch "unexpected remote artifact name")
  fetch_artifact name (some spec) = do
    opened ← N.open_url (maven_base_url <> "/" <> name)
    lift (read_reply name spec opened)

  unfoldable pub fetch : String → Exec W (ℕ × Bytes)
  unfolding fetch_artifact
  fetch name = fetch_artifact name (find_spec name artifacts)

  unfoldable pub verify_remote : Runtime → String → String → Bool → ℕ → Exec W Bool
  verify_remote R actor token require_present retries =
      if actor ==ˢ "" || token ==ˢ ""
      then lift (err (refused "GitHub package credentials are missing"))
      else retry (classify_remote_artifacts R fetch artifacts require_present) N.sleep retries

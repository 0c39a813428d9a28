-- ===== src/Tests/Packages.antt =====
-- The theorems about the package, the JSON hooks and the retries.
use devpath_shared.Base.{
  ℕ, suc, zero, ◌≡◌, ◌<◌, ◌≢◌, refl, true, false, Option, none, some, List, [], ◌∷◌, String, inl,
  inr, ◌<>◌, arith, if◌then◌else◌, ◌==ˢ◌, ◌==◌,
}
use devpath_shared.Base.Integer.{pos}
use devpath_shared.Base.Result.{Result, ok}
use devpath_shared.Base.Exec.{Exec, retry, retry-ok_iff, after_attempts}
use devpath_shared.Json.{text, integer, object, field, end}
use devpath_shared.Json.Hooks.{hooked, hooked_iff, IsClean}
use devpath_shared.Url.{SplitUrl}
use devpath_shared.Package.Artifact.{ArtifactSpec, Specs, artifacts}
use devpath_shared.Package.Redirect.{
  Request, redirect_request, redirect-safe, IsHost, has_header, remove_header,
  is_absent_package_response, require_host,
}
use devpath_shared.Package.Remote.{
  classify_remote_artifacts, Remote, http_failure, find_spec, fetch, verify_remote, fetch_all,
  decide_remote, read_reply,
}
use devpath_shared.Package.Remote.Classify.{classify-IsMissing_iff, classify-IsPresent_iff}
use devpath_shared.Package.Remote.Verify.{fetch-Answered, verify_remote_iff, Answered}
use devpath_shared.Runtime.{Bytes}
use devpath_shared.Tests.Sample.{runtime, sha_a}

hooked_example :
    hooked (λ s. s) (λ s. s) (object (field "a" (integer (pos 1)) (field "b" (text "x") end)))
    ≡ ok (object (field "a" (integer (pos 1)) (field "b" (text "x") end)))
unfolding IsClean
hooked_example =
    (hooked_iff (λ s. s) (λ s. s) (object (field "a" (integer (pos 1)) (field "b" (text "x") end)))
        (object (field "a" (integer (pos 1)) (field "b" (text "x") end)))).1
      (refl, ((refl, (refl, tt)), (tt, (tt, tt))))

abbrev small : ArtifactSpec
small = record { name = "a.jar"; size = 1; sha256 = sha_a }

abbrev specs : Specs
specs = ("a.jar", small) ∷ []

abbrev holding : String → Exec ℕ (ℕ × Bytes)
holding name w = (ok (200, 1 ∷ []), suc w)

abbrev lacking : String → Exec ℕ (ℕ × Bytes)
lacking name w = (ok (404, []), suc w)

classify-IsPresent_example : classify_remote_artifacts runtime holding specs true 0 ≡ (ok false, 1)
unfolding fetch_all devpath_shared.Base.Exec.◌>>=◌
classify-IsPresent_example = (classify-IsPresent_iff runtime holding specs true 0 1).1 (
  omega arith,
  (
    record { name = "a.jar"; artifact = small; status = 200; payload = 1 ∷ [] } ∷ [],
    refl,
    ((refl, (refl, refl)), tt),
  ),
)

classify-IsMissing_example : classify_remote_artifacts runtime lacking specs false 0 ≡ (ok true, 1)
unfolding fetch_all devpath_shared.Base.Exec.◌>>=◌
classify-IsMissing_example = (classify-IsMissing_iff runtime lacking specs false 0 1).1 (
  refl,
  (record { name = "a.jar"; artifact = small; status = 404; payload = [] } ∷ [], refl, (refl, tt)),
)

abbrev hosted : String → SplitUrl
hosted url = record {
  scheme = "https";
  hostname = some (
      if url ==ˢ "storage"
      then "github-registry-files.githubusercontent.com"
      else "maven.pkg.github.com");
  port = ok none;
  username = none;
  password = none;
  path = "/x";
  query = "";
  fragment = "";
}

-- The service answers 404 to everything.
abbrev empty_service : Remote ℕ
empty_service = record {
  urlsplit = hosted;
  open_url = λ url w. (ok (http_failure 404 url), suc w);
  sleep = λ w. w;
}

abbrev pom : ArtifactSpec
pom = record {
  name = "devpath-shared-0.0.1-rm.20260907.pom";
  size = 1545;
  sha256 = "3d2dbf7bc1dd2ef98d327d941ac4c23b419e22fb8d69857d4f7a02f556b3ba50";
}

pom_is_known : find_spec "devpath-shared-0.0.1-rm.20260907.pom" artifacts ≡ some pom
unfolding artifacts
pom_is_known = refl

pom_is_absent : fetch empty_service "devpath-shared-0.0.1-rm.20260907.pom" 0 ≡ (ok (404, []), 1)
unfolding fetch artifacts devpath_shared.Base.Exec.◌>>=◌ read_reply is_absent_package_response
pom_is_absent = refl

fetch-Answered_example :
    Answered empty_service pom "devpath-shared-0.0.1-rm.20260907.pom" 404 [] 0 1
fetch-Answered_example =
    fetch-Answered empty_service "devpath-shared-0.0.1-rm.20260907.pom" 0 pom_is_known pom_is_absent

all_are_absent :
    classify_remote_artifacts runtime (fetch empty_service) artifacts false 0 ≡ (ok true, 3)
unfolding classify_remote_artifacts devpath_shared.Base.Exec.◌>>=◌ fetch_all artifacts fetch
    read_reply is_absent_package_response decide_remote
all_are_absent = refl

verify_remote_example : verify_remote empty_service runtime "actor" "token" false 2 0 ≡ (ok true, 3)
unfolding after_attempts
verify_remote_example =
    (verify_remote_iff empty_service runtime "actor" "token" false true 2 0 3).1
      (λ h. cc, λ h. cc, (0, omega arith, λ j l. absurd (omega arith), all_are_absent))

abbrev request : Request
request = record {
  url = "package";
  headers = ("Authorization", "Basic x") ∷ ("Accept", "*/*") ∷ [];
}

abbrev follow : Request → String → Result (Option Request)
follow r url = ok (some (record { url = url; headers = r.headers }))

redirect_is_followed :
    redirect_request hosted follow request "storage"
    ≡ ok (some (record { url = "storage"; headers = ("Accept", "*/*") ∷ [] }))
unfolding redirect_request require_host remove_header
redirect_is_followed = refl

redirect-safe_example :
    IsHost (hosted "package") "maven.pkg.github.com"
    × IsHost (hosted "storage") "github-registry-files.githubusercontent.com"
    × ((hosted "storage").username ≡ none)
    × ((hosted "storage").password ≡ none)
    × (has_header "Authorization" (("Accept", "*/*") ∷ []) ≡ false)
redirect-safe_example =
    redirect-safe hosted follow request
      (record { url = "storage"; headers = ("Accept", "*/*") ∷ [] }) "storage" redirect_is_followed

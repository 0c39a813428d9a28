-- ===== src/Tests/Sample.antt =====
-- A small concrete runtime, registry and runner.
use devpath_shared.Base.{
  ℕ, suc, Option, none, some, List, [], ◌∷◌, String, ◌<>◌, ◌==◌, ◌==ˢ◌, if◌then◌else◌,
}
use devpath_shared.Base.Text.{codes}
use devpath_shared.Base.Integer.{pos}
use devpath_shared.Base.Result.{ok}
use devpath_shared.Json.{Json, text, integer, object, array, Fields, field, end, cons, nil}
use devpath_shared.Runtime.{Bytes, Runtime}
use devpath_shared.Context.{Env}
use devpath_shared.Url.{SplitUrl}
use devpath_shared.Image.Format.{
  source_label, builder_base_index_digest, builder_base_amd64_digest, runtime_base_index_digest,
  runtime_base_amd64_digest,
}
use devpath_shared.Image.Response.{Headers}
use devpath_shared.Image.Http.{Network, Opened, response}
use devpath_shared.Image.Registry.{token_url, manifest_unknown}
use devpath_shared.Image.Evidence.{evidence_document}
use devpath_shared.Image.Workflow.Steps.{Runner}

abbrev pub source_sha : String
source_sha = "1111111111111111111111111111111111111111"

abbrev pub sha_a : String
sha_a = "aaaaaaaaaaaaaaaaaaaaaaaaaaaaaaaaaaaaaaaaaaaaaaaaaaaaaaaaaaaaaaaa"

abbrev pub sha_b : String
sha_b = "bbbbbbbbbbbbbbbbbbbbbbbbbbbbbbbbbbbbbbbbbbbbbbbbbbbbbbbbbbbbbbbb"

abbrev pub sha_c : String
sha_c = "cccccccccccccccccccccccccccccccccccccccccccccccccccccccccccccccc"

abbrev pub sha_d : String
sha_d = "dddddddddddddddddddddddddddddddddddddddddddddddddddddddddddddddd"

abbrev pub image_digest : String
image_digest = "sha256:aaaaaaaaaaaaaaaaaaaaaaaaaaaaaaaaaaaaaaaaaaaaaaaaaaaaaaaaaaaaaaaa"

abbrev pub config_digest : String
config_digest = "sha256:bbbbbbbbbbbbbbbbbbbbbbbbbbbbbbbbbbbbbbbbbbbbbbbbbbbbbbbbbbbbbbbb"

abbrev pub manifest : Json
manifest = object (
    field "schemaVersion" (integer (pos 2)) (
      field "mediaType" (text "application/vnd.oci.image.manifest.v1+json") (
        field "config"
          (object (
            field "mediaType" (text "application/vnd.oci.image.config.v1+json")
              (field "digest" (text config_digest) (field "size" (integer (pos 1)) end))))
          (field "layers" (array nil) end))))

abbrev pub labels : Json
labels = object (
    field "org.opencontainers.image.source" (text source_label) (
      field "org.opencontainers.image.revision" (text source_sha) (
        field "ai.devpath.migration.builder-base.index-digest" (text builder_base_index_digest) (
          field "ai.devpath.migration.builder-base.amd64-digest" (text builder_base_amd64_digest) (
            field "ai.devpath.migration.runtime-base.index-digest" (text runtime_base_index_digest)
              (field "ai.devpath.migration.runtime-base.amd64-digest"
                (text runtime_base_amd64_digest) end))))))

abbrev pub config : Json
config = object (
    field "architecture" (text "amd64")
      (field "os" (text "linux") (field "config" (object (field "Labels" labels end)) end)))

abbrev pub image_ref : String
image_ref = "ghcr.io/devpathai/devpath-migration:1111111111111111111111111111111111111111"

abbrev pub local_image : Json
local_image = array (
    cons
      (object (
        field "Id" (text config_digest) (
          field "Architecture" (text "amd64") (
            field "Os" (text "linux") (
              field "RepoTags" (array (cons (text image_ref) nil))
                (field "Config" (object (field "Labels" labels end)) end))))))
      nil)

abbrev pub evidence : Fields
evidence = evidence_document source_sha 7 1 image_digest "published"

abbrev pub release : Json
release = object (
    field "document_type" (text "release-manifest") (
      field "release_id" (text "ms-20260907-spine") (
        field "validation_attestation" (object (field "validator_head_sha" (text source_sha) end)) (
          field "candidate_spec"
            (object (
              field "path"
                (text "release-manifests/candidates/ms-20260907-spine.candidate-spec.json")
                (field "sha256" (text sha_d) end)))
            end))))

abbrev pub candidate : Json
candidate = object (
    field "document_type" (text "candidate-spec") (
      field "release_id" (text "ms-20260907-spine") (
        field "gitops" (object (field "base_sha" (text source_sha) end)) (
          field "shared_migration"
            (object (
              field "repository" (text "DevPathAi/devpath-shared") (
                field "source_sha" (text source_sha) (
                  field "shared_version" (text "0.0.1-rm.20260907") (
                    field "shared_jar_sha256"
                      (text "3a64de1a1773f1aa05ccd801a88f01ef2cead887e44930554074230fd01f2996")
                      (field "image_repository" (text "ghcr.io/devpathai/devpath-migration") (
                        field "image_digest" (text image_digest) (
                          field "flyway_target" (text "202609051004") (
                            field "required_migration"
                              (text "V202609051004__mentor_invite_batches.sql")
                              (field "rollback_policy" (text "additive-retained") end))))))))))
            end))))

abbrev pub Table : Type 0
Table = List (ℕ × String × String × Json)

-- A byte for each document, with the text and the hash that stand for it.
abbrev pub table : Table
table =
    (1, "manifest", sha_a, manifest)
    ∷ (2, "config", sha_b, config)
    ∷ (3, "evidence", sha_c, object evidence)
    ∷ (4, "unknown", sha_c, manifest_unknown)
    ∷ (5, "token", sha_c, object (field "token" (text "bearer") end))
    ∷ (6, "local", sha_c, local_image)
    ∷ (7, "release", sha_c, release)
    ∷ (8, "candidate", sha_d, candidate)
    ∷ []

abbrev pub name_of : Table → Bytes → Option String
name_of [] raw = none
name_of ((n, name, sha, v) ∷ t) [] = none
name_of ((n, name, sha, v) ∷ t) (c ∷ raw) =
    let rest = name_of t (c ∷ raw) in if n == c then some name else rest

abbrev pub sha_of : Table → Bytes → String
sha_of [] raw = sha_c
sha_of ((n, name, sha, v) ∷ t) [] = sha_c
sha_of ((n, name, sha, v) ∷ t) (c ∷ raw) =
    let rest = sha_of t (c ∷ raw) in if n == c then sha else rest

abbrev pub document_of : Table → String → Option Json
document_of [] s = none
document_of ((n, name, sha, v) ∷ t) s =
    let rest = document_of t s in if name ==ˢ s then some v else rest

-- `errors` is the first key of the document of an absent manifest alone.
abbrev pub byte_of : Json → Bytes
byte_of (object (field k v d)) = if k ==ˢ "errors" then 4 ∷ [] else 3 ∷ []
byte_of _ = 3 ∷ []

abbrev pub runtime : Runtime
runtime = record {
  sha256 = sha_of table;
  decode = name_of table;
  loads = document_of table;
  repr = λ s. "'" <> s <> "'";
  b64encode = λ s. s;
  dumps_unicode = byte_of;
  dumps = byte_of;
  encode = codes;
}

abbrev pub split : String → SplitUrl
split s = record {
  scheme = "https";
  hostname = some "pkg-containers.githubusercontent.com";
  port = ok none;
  username = none;
  password = none;
  path = "/ghcrblobs1/blobs/" <> config_digest;
  query = "se=1";
  fragment = "";
}

abbrev reply : String → Headers → Bytes → Opened
reply url headers body =
    response (record { status = 200; url = url; headers = headers; body = body })

abbrev pub manifest_address : String
manifest_address =
    "https://ghcr.io/v2/devpathai/devpath-migration/manifests/1111111111111111111111111111111111111111"

-- A registry that holds the image; its world counts the requests.
abbrev pub network : Network ℕ
network = record {
  open_url = λ url headers w. (
    ok (
        if url ==ˢ token_url
        then reply url (("Content-Type", "application/json") ∷ []) (5 ∷ [])
        else if url ==ˢ manifest_address
        then reply url (("Docker-Content-Digest", image_digest) ∷ []) (1 ∷ [])
        else reply url [] (2 ∷ [])),
    suc w,
  );
  sleep = λ w. w;
  urlsplit = split;
}

abbrev output_of : List String → String
output_of [] = ""
output_of (s ∷ ss) = if s ==ˢ "rev-parse" then source_sha <> "\n" else ""

abbrev pub runner : Runner ℕ
runner = record {
  network = network;
  git = λ args w. (ok (output_of args), w);
  docker_image_inspect = λ ref w. (ok (6 ∷ []), w);
}

abbrev pub of_pairs : List (String × String) → Env
of_pairs [] key = none
of_pairs ((k, v) ∷ pairs) key = let rest = of_pairs pairs key in if k ==ˢ key then some v else rest

abbrev pub env : Env
env = of_pairs (
    ("GITHUB_REPOSITORY", "DevPathAi/devpath-shared")
    ∷ ("GITHUB_EVENT_NAME", "push")
    ∷ ("GITHUB_REF", "refs/heads/main")
    ∷ ("GITHUB_RUN_ATTEMPT", "1")
    ∷ ("GITHUB_SHA", source_sha)
    ∷ ("GITHUB_RUN_ID", "7")
    ∷ ("GITHUB_ACTOR", "actor")
    ∷ ("GITHUB_TOKEN", "secret")
    ∷ [])

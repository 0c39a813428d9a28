-- ===== src/Image/Registry/Inspect.antt =====
-- `_bearer_token`, `_storage_redirect`, `_fetch_config_blob` and `inspect`. `request` gives an
-- `HTTPError` back as a value, since each of these catches it.
pub mod Bound
use devpath_shared.Base.{
  ℕ, Bool, true, false, ◌&&◌, ◌||◌, not, Option, none, some, List, [], ◌∷◌, String, ◌<>◌, ◌==◌,
  ◌==ˢ◌, leb, length, if◌then◌else◌, ◌⊎◌, inl, inr,
}
use devpath_shared.Base.Decimal.{show}
use devpath_shared.Base.Text.{codes}
use devpath_shared.Base.Result
use devpath_shared.Base.Result.{Result, ok, err, refused, ensure, or_refuse}
use devpath_shared.Base.Exec.{Exec, pure, lift, ◌>>=◌, ◌>>◌}
use devpath_shared.Context.{is_text, or_empty}
use devpath_shared.Json.{Json, get, as_dict, as_str}
use devpath_shared.Runtime.{Bytes, Runtime}
use devpath_shared.Image.Format.{valid_digest, parse_json}
use devpath_shared.Image.Response.{Headers, last_header}
use devpath_shared.Image.Http.{Failure, Network, request}
use devpath_shared.Image.Document.{RemoteImage, validate_remote_image}
use devpath_shared.Image.Redirect.{storage_redirect}
use devpath_shared.Image.Registry.{
  Credentials, token_url, user_agent, manifest_url, config_url, read_token, named_config,
  is_exact_manifest_absence, max_token_bytes, max_manifest_bytes, max_config_bytes,
}

-- `", ".join(sorted(…))` of the accepted media types.
abbrev manifest_accept : String
manifest_accept =
    "application/vnd.docker.distribution.manifest.v2+json, application/vnd.oci.image.manifest.v1+json"

abbrev config_accept : String
config_accept =
    "application/vnd.docker.container.image.v1+json, application/vnd.oci.image.config.v1+json"

module _ {W : Type 0} (R : Runtime) (N : Network W) where
  unfoldable pub bearer_token : Credentials → Exec W String
  bearer_token c = do
    reply ←
        request N token_url
          (("Authorization", "Basic " <> R.b64encode (c.actor <> ":" <> c.token))
            ∷ ("Accept", "application/json")
            ∷ user_agent
            ∷ [])
          max_token_bytes
    lift (read_token R reply)

  -- The second request of `_fetch_config_blob`, which carries no credentials.
  unfoldable pub fetch_from_storage : String → Exec W Bytes
  fetch_from_storage storage_url = do
    reply ←
        request N storage_url (("Accept", "application/octet-stream") ∷ user_agent ∷ [])
          max_config_bytes
    elim reply [
      | inl (raw, hs) ↦ pure raw
      | inr f ↦
          lift (err (refused ("registry config storage request returned HTTP " <> show f.code)))
    ]

  unfoldable pub fetch_config_blob : String → String → Exec W Bytes
  fetch_config_blob config_digest bearer = do
    url ← lift (config_url config_digest)
    reply ←
        request N url
          (("Authorization", "Bearer " <> bearer) ∷ ("Accept", config_accept) ∷ user_agent ∷ [])
          max_config_bytes
    elim reply [
      | inl (raw, hs) ↦ pure raw
      | inr f ↦ do
        storage_url ← lift (storage_redirect N.urlsplit f url config_digest)
        fetch_from_storage storage_url
    ]

  -- `inspect` once the manifest is there.
  unfoldable pub inspect_manifest : String → String → Bytes → Headers → Exec W (Option RemoteImage)
  inspect_manifest source_sha bearer manifest_bytes hs = do
    config_digest ← lift (named_config R manifest_bytes)
    config_bytes ← fetch_config_blob config_digest bearer
    lift (
        Result.◌>>=◌
          (validate_remote_image R manifest_bytes
            (or_empty (last_header "docker-content-digest" hs)) config_bytes source_sha)
          (λ image. ok (some image)))

  -- `inspect` when the manifest request has failed.
  unfoldable pub inspect_failure : Failure → String → Bool → Exec W (Option RemoteImage)
  inspect_failure f url true = do
    exact ← lift (is_exact_manifest_absence R f url)
    lift (elim exact [
      | true ↦ ok none
      | false ↦ err (refused ("registry manifest request returned HTTP " <> show f.code))
    ])
  inspect_failure f url false =
      lift (err (refused ("registry manifest request returned HTTP " <> show f.code)))

  -- What `inspect` makes of the reply to the manifest request.
  unfoldable pub inspect_reply :
      String → String → String → Bool → (Bytes × Headers) ⊎ Failure → Exec W (Option RemoteImage)
  inspect_reply source_sha bearer url allow_absent (inl (manifest_bytes, hs)) =
      inspect_manifest source_sha bearer manifest_bytes hs
  inspect_reply source_sha bearer url allow_absent (inr f) = inspect_failure f url allow_absent

  unfoldable pub inspect : Credentials → String → Bool → Exec W (Option RemoteImage)
  inspect c source_sha allow_absent = do
    url ← lift (manifest_url source_sha)
    bearer ← bearer_token c
    reply ←
        request N url
          (("Authorization", "Bearer " <> bearer) ∷ ("Accept", manifest_accept) ∷ user_agent ∷ [])
          max_manifest_bytes
    inspect_reply source_sha bearer url allow_absent reply

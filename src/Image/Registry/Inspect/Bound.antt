-- ===== src/Image/Registry/Inspect/Bound.antt =====
-- What `inspect` has seen when it returns.
use mathlib.Core.Path.{sym, ap}
use devpath_shared.Base.{
  ℕ, ◌++◌, ap, false, ◌&&◌, Bool-cases, ◌≡◌, ◌∙◌, refl, Bool, true, Option, none, some, [], ◌∷◌,
  String, ◌⊎◌, inl, inr, arith, eq_iff, take-eq_of_short, leb_iff, and_iff, ==_iff,
}
use devpath_shared.Base.Result
use devpath_shared.Base.Result.{Result, ok, err, refused, ensure, ok-injective}
use devpath_shared.Base.Exec.{Exec, pure, lift->>=-eq_ok, lift, >>=-eq-ok}
use devpath_shared.Context.{or_empty}
use devpath_shared.Runtime.{Bytes, Runtime}
use devpath_shared.Image.Response.{check_response, header, headers_of, Headers, last_header}
use devpath_shared.Image.Http.{
  Failure, Network, Opened, response, http_failure, url_failure, encodings, without_encodings,
  encodings_allowed, request,
}
use devpath_shared.Image.Document.{RemoteImage, validate_remote_image}
use devpath_shared.Image.Registry.{
  Credentials, manifest_url, named_config, is_exact_manifest_absence, names_absence, holds_absence,
  error_length_allowed, manifest_unknown, eq_bytes, max_error_bytes, max_manifest_bytes,
}
use devpath_shared.Image.Registry.Inspect.{
  bearer_token, fetch_config_blob, inspect_manifest, inspect_failure, inspect_reply, inspect,
}

eq_bytes-eq : (a b : Bytes) → eq_bytes a b ≡ true → a ≡ b
eq_bytes-eq [] [] h = refl
eq_bytes-eq [] (y ∷ b) h = cc
eq_bytes-eq (x ∷ a) [] h = cc
eq_bytes-eq (x ∷ a) (y ∷ b) h = ground (arith, eq_bytes-eq a b)

module _ (R : Runtime) where
  named :
      (f : Failure) (url : String) → names_absence R f url ≡ true → (f.code ≡ 404) × (f.url ≡ url)
  named f url h =
      let (code, url_same) = (and_iff _ _).0 ((and_iff _ _).0 h).0 in
      ((==_iff _ _).0 code, (eq_iff _ _).0 url_same)

  body_exact : (f : Failure) → holds_absence R f ≡ true → f.body ≡ R.dumps_unicode manifest_unknown
  body_exact f h =
      let (rest₁, exact) = (and_iff _ _).0 h in
      let (rest₂, parsed) = (and_iff _ _).0 rest₁ in
      let (sized, kept) = (and_iff _ _).0 rest₂ in
      let short = (leb_iff _ _).0 ((and_iff _ _).0 sized).1 in
      sym (take-eq_of_short max_error_bytes f.body short) ∙ eq_bytes-eq _ _ exact

  -- A failure counts as absence only if it is a 404 of the manifest's own URL whose whole body is the
  -- canonical MANIFEST_UNKNOWN document.
  pub absence-exact :
      (f : Failure) (url : String)
      → is_exact_manifest_absence R f url ≡ ok true
      → (f.code ≡ 404) × (f.url ≡ url) × (f.body ≡ R.dumps_unicode manifest_unknown)
  unfolding is_exact_manifest_absence
  absence-exact f url h = elim (Bool-cases (names_absence R f url)) [
    | inr e ↦ absurd (ground arith)
    | inl e ↦
        let (allowed, _, g) =
          Result.>>=-eq-ok (error_length_allowed (header "Content-Length" (headers_of f.headers))) _
            (rw e at h) in
        let held : (allowed && holds_absence R f) ≡ true = ok-injective g in
        let (code, url_same) = named f url e in
        (code, url_same, body_exact f ((and_iff _ _).0 held).1)
  ]

module _ {W : Type 0} (R : Runtime) (N : Network W) where
  -- The last check of `inspect`, at the bytes that it has fetched.
  abbrev pub Inspected : String → Bytes → RemoteImage → Type 0
  Inspected source_sha m image =
      (header : String) × (config_bytes : Bytes) × (validate_remote_image R m header config_bytes
          source_sha
        ≡ ok image)

  inspect_manifest-Inspected :
      (source_sha bearer : String) (m : Bytes) (hs : Headers) (w : W) {o : Option RemoteImage}
      {w' : W}
      → inspect_manifest R N source_sha bearer m hs w ≡ (ok o, w')
      → (image : RemoteImage) × (o ≡ some image) × Inspected source_sha m image
  unfolding inspect_manifest
  inspect_manifest-Inspected source_sha bearer m hs w h =
      let (named, w₁, _, h₁) = >>=-eq-ok (lift (named_config R m)) _ w h in
      let (config_bytes, w₂, _, h₂) = >>=-eq-ok (fetch_config_blob R N named bearer) _ w₁ h₁ in
      let header : String = or_empty (last_header "docker-content-digest" hs) in
      let (image, checked, last) =
        Result.>>=-eq-ok (validate_remote_image R m header config_bytes source_sha) _
          (ap (λ (p : Result (Option RemoteImage) × W). p.0) h₂) in
      (image, sym (ok-injective last), (header, config_bytes, checked))

  -- A failed request counts as absence only where the caller allows it.
  inspect_failure-none :
      (f : Failure) (url : String) (allow_absent : Bool) (w : W) {o : Option RemoteImage} {w' : W}
      → inspect_failure R N f url allow_absent w ≡ (ok o, w')
      → (o ≡ none) × (allow_absent ≡ true) × (is_exact_manifest_absence R f url ≡ ok true)
  unfolding inspect_failure
  inspect_failure-none f url true w h =
      let (exact, absent, h₁) = lift->>=-eq_ok (is_exact_manifest_absence R f url) _ w h in
      elim (Bool-cases exact) [
        | inl e ↦ (ground arith, refl, absent ∙ ap ok e)
        | inr e ↦ absurd (ground arith)
      ]
  inspect_failure-none f url false w h = absurd (ground arith)

  -- What came back at a URL, for some header fields: a reply within the bound, or a failure.
  abbrev pub Replied : String → Bytes → Type 0
  Replied url m =
      (sent : Headers) × (hs : Headers) × (v : W) × (v' : W) × (request N url sent
          max_manifest_bytes v
        ≡ (ok (inl (m, hs)), v'))

  abbrev pub Failed : String → Failure → Type 0
  Failed url f =
      (sent : Headers) × (v : W) × (v' : W) × (N.open_url url sent v ≡ (ok (http_failure f), v'))

  -- The failure that a request gives back is the one that the network answered.
  request-Failed :
      (url : String) (sent : Headers) (max_bytes : ℕ) (w : W) {f : Failure} {w' : W}
      → request N url sent max_bytes w ≡ (ok (inr f), w')
      → Failed url f
  unfolding request
  request-Failed url sent max_bytes w h =
      let (_, _, h₁) = lift->>=-eq_ok (ensure (encodings_allowed (encodings sent)) _) _ w h in
      let (opened, v, answered, h₂) =
        >>=-eq-ok (N.open_url url (without_encodings sent ++ ("Accept-Encoding", "identity") ∷ []))
          _ w h₁ in
      (
        without_encodings sent ++ ("Accept-Encoding", "identity") ∷ [],
        w,
        v,
        answered ∙ ap (λ (o : Opened). (ok o, v)) (is_failure opened v h₂),
      )
    where
      is_failure :
          (opened : Opened) (v : W) {w' : W} {f : Failure}
          → (let m : Exec W ((Bytes × Headers) ⊎ Failure) = elim opened [
            | response r ↦ lift (Result.◌>>=◌ (check_response url max_bytes r) (λ b. ok (inl b)))
            | http_failure g ↦ pure (inr g)
            | url_failure ↦ lift (err (refused "registry API request failed"))
          ] in
              m v)
            ≡ (ok (inr f), w')
          → opened ≡ http_failure f
      is_failure (response r) v k =
          let (b, _, gone) =
            Result.>>=-eq-ok (check_response url max_bytes r) _
              (ap (λ (p : Result ((Bytes × Headers) ⊎ Failure) × W). p.0) k) in
          absurd (ground (arith, ok-injective gone))
      is_failure (http_failure g) v k = ground arith
      is_failure url_failure v k = absurd (ground arith)

  -- What `inspect` returns: an image that has passed every check at the manifest bytes of a reply to
  -- the manifest's own URL, or absence, which the caller allowed and which the network answered there
  -- by a failure that is the exact absence of this manifest.
  abbrev pub Outcome : Bool → String → Option RemoteImage → Type 0
  Outcome allow_absent source_sha o =
      ((image : RemoteImage) × (m : Bytes) × (url : String) × (o ≡ some image)
        × Inspected source_sha m image
        × (manifest_url source_sha ≡ ok url)
        × Replied url m)
      ⊎ ((f : Failure) × (url : String) × (o ≡ none)
          × (allow_absent ≡ true)
          × (manifest_url source_sha ≡ ok url)
          × (is_exact_manifest_absence R f url ≡ ok true)
          × Failed url f)

  inspect_reply-Outcome :
      (source_sha bearer url : String) (allow_absent : Bool) (sent : Headers)
      (reply : (Bytes × Headers) ⊎ Failure) (v w : W) {o : Option RemoteImage} {w' : W}
      → manifest_url source_sha ≡ ok url
      → request N url sent max_manifest_bytes v ≡ (ok reply, w)
      → inspect_reply R N source_sha bearer url allow_absent reply w ≡ (ok o, w')
      → Outcome allow_absent source_sha o
  unfolding inspect_reply
  inspect_reply-Outcome source_sha bearer url allow_absent sent (inl (m, hs)) v w is_url came h =
      let (image, is_image, checked) = inspect_manifest-Inspected source_sha bearer m hs w h in
      inl (image, m, url, is_image, checked, is_url, (sent, hs, v, w, came))
  inspect_reply-Outcome source_sha bearer url allow_absent sent (inr f) v w is_url came h =
      let (is_none, allowed, exact) = inspect_failure-none f url allow_absent w h in
      inr
        (f, url, is_none, allowed, is_url, exact, request-Failed url sent max_manifest_bytes v came)

  -- An inspection that returns has either an image that passed every check at the manifest bytes of a
  -- reply to the manifest's own URL, or absence, which the caller allowed and which the network
  -- answered at that URL by a failure that is the exact absence of the manifest.
  pub inspect-Outcome :
      (c : Credentials) (source_sha : String) (allow_absent : Bool) (w : W) {o : Option RemoteImage}
      {w' : W}
      → inspect R N c source_sha allow_absent w ≡ (ok o, w')
      → Outcome allow_absent source_sha o
  unfolding inspect
  inspect-Outcome c source_sha allow_absent w h =
      let (url, w₁, is_url, h₁) = >>=-eq-ok (lift (manifest_url source_sha)) _ w h in
      let (bearer, w₂, _, h₂) = >>=-eq-ok (bearer_token R N c) _ w₁ h₁ in
      let (reply, w₃, came, h₃) = >>=-eq-ok (request N url _ _) _ w₂ h₂ in
      inspect_reply-Outcome source_sha bearer url allow_absent _ reply w₂ w₃
        (ap (λ (p : Result String × W). p.0) is_url) came h₃

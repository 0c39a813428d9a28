-- ===== src/Image/Workflow/Verify.antt =====
-- `verify_evidence_cli`: the evidence belongs to the run that produced it.
use devpath_shared.Base.{
  suc, ◌≡◌, refl, ◌↔◌, true, false, String, ◌<>◌, ◌==ˢ◌, eq_iff, ap, ◌∙◌, arith,
}
use devpath_shared.Base.Decimal.{show}
use devpath_shared.Base.Integer.{pos, negsuc}
use devpath_shared.Base.Result.{Result, ok, ◌>>=◌, ◌>>◌, ensure, >>=-eq-ok, ok-injective}
use devpath_shared.Context.{Env, or_empty}
use devpath_shared.Json.{Json, boolean, integer, float, text, Fields, get, py_eq, py_eq-text_iff}
use devpath_shared.Runtime.{Runtime}
use devpath_shared.Image.Evidence.Folder.{Root, validate_evidence_directory}

-- `str(value)` of the values that a validated run id or attempt can have: an `int`, a `float` or a
-- `bool`. A validated document has no other there.
abbrev pub str_of : Json → String
str_of (integer (pos n)) = show n
str_of (integer (negsuc n)) = "-" <> show (suc n)
str_of (float n r) = r
str_of (boolean true) = "True"
str_of (boolean false) = "False"
str_of (text s) = s
str_of _ = "None"

-- The comparisons with the environment, of the two texts and the two printed numbers.
unfoldable pub check_producer : Json → Json → String → String → Env → Result (Unit {0})
check_producer evidence_repository source_sha run_id run_attempt env = do
  ensure (py_eq evidence_repository (text (or_empty (env "GITHUB_REPOSITORY"))))
      "evidence repository does not equal the producer context"
  ensure (py_eq source_sha (text (or_empty (env "GITHUB_SHA"))))
      "evidence source_sha does not equal the producer context"
  ensure (run_id ==ˢ or_empty (env "GITHUB_RUN_ID"))
      "evidence producer_run_id does not equal the producer context"
  ensure (run_attempt ==ˢ or_empty (env "GITHUB_RUN_ATTEMPT"))
      "evidence run attempt does not equal the producer context"

unfoldable pub verify_evidence_cli : Runtime → Env → Root → Result Fields
verify_evidence_cli R env root = do
  document ← validate_evidence_directory R root
  check_producer (get document "repository") (get document "source_sha")
      (str_of (get document "producer_run_id")) (str_of (get document "producer_run_attempt")) env
  ok document

check_producer_iff :
    (r s : Json) (run_id run_attempt : String) (env : Env)
    → (check_producer r s run_id run_attempt env ≡ ok tt) ↔ (
        (r ≡ text (or_empty (env "GITHUB_REPOSITORY")))
        × (s ≡ text (or_empty (env "GITHUB_SHA")))
        × (run_id ≡ or_empty (env "GITHUB_RUN_ID"))
        × (run_attempt ≡ or_empty (env "GITHUB_RUN_ATTEMPT")))
unfolding check_producer
check_producer_iff r s run_id run_attempt env = ground (
  arith,
  py_eq-text_iff r (or_empty (env "GITHUB_REPOSITORY")),
  py_eq-text_iff s (or_empty (env "GITHUB_SHA")),
  eq_iff run_id (or_empty (env "GITHUB_RUN_ID")),
  eq_iff run_attempt (or_empty (env "GITHUB_RUN_ATTEMPT")),
)

-- The directory is verified, with its document, exactly when it validates and the document names the
-- repository, the commit, the run id and the attempt of the environment.
pub verify_evidence_cli_iff :
    (R : Runtime) (env : Env) (root : Root) (d : Fields)
    → (verify_evidence_cli R env root ≡ ok d) ↔ (
        (validate_evidence_directory R root ≡ ok d)
        × (get d "repository" ≡ text (or_empty (env "GITHUB_REPOSITORY")))
        × (get d "source_sha" ≡ text (or_empty (env "GITHUB_SHA")))
        × (str_of (get d "producer_run_id") ≡ or_empty (env "GITHUB_RUN_ID"))
        × (str_of (get d "producer_run_attempt") ≡ or_empty (env "GITHUB_RUN_ATTEMPT")))
unfolding verify_evidence_cli
verify_evidence_cli_iff R env root d =
    let checked =
      check_producer_iff (get d "repository") (get d "source_sha")
        (str_of (get d "producer_run_id")) (str_of (get d "producer_run_attempt")) env in
    (
      λ h.
          let (e, valid, h₁) = >>=-eq-ok (validate_evidence_directory R root) _ h in
          let (u, good, h₂) =
            >>=-eq-ok
              (check_producer (get e "repository") (get e "source_sha")
                (str_of (get e "producer_run_id")) (str_of (get e "producer_run_attempt")) env)
              _ h₁ in
          let same = ok-injective h₂ in
          let (r, c, i, t) = checked.0 (at_document same good) in (valid ∙ ap ok same, r, c, i, t),
      λ (valid, r, c, i, t). rw (valid, checked.1 (r, c, i, t)) refl,
    )
  where
    at_document :
        {e : Fields}
        → e ≡ d
        → check_producer
            (get e "repository")
            (get e "source_sha")
            (str_of (get e "producer_run_id"))
            (str_of (get e "producer_run_attempt"))
            env
          ≡ ok tt
        → check_producer
            (get d "repository")
            (get d "source_sha")
            (str_of (get d "producer_run_id"))
            (str_of (get d "producer_run_attempt"))
            env
          ≡ ok tt
    at_document same good = rw same at good

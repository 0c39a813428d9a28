-- ===== src/Lib.antt =====
-- A model of the release tooling of devpath-shared in scripts/release: the three gates that decide
-- whether a package, a container image and a database migration may be published.
--
-- How the parts work together. A push to main publishes the Java package
-- (immutable_shared_package.py) and the migration image (immutable_migration_image.py). Each
-- script first checks that the run stands at the current, clean head of main, then asks the
-- registry whether the publication is absent or is there byte for byte, and after the push it asks
-- again, with retries. The image script leaves an evidence file that names the image. A later,
-- dispatched run (migration_release_gate.py) follows the hashes from a sealed release manifest to
-- the image digest and checks the GitOps commit that deploys it.
--
-- Where what is modelled:
--   Base       Python's exceptions as values (Result), state with exceptions and the retry loop
--              (Exec), str (Text), regular expressions (Pattern), int and str of numbers (Decimal).
--   Json       the values of json.loads, dict.get and ==; Json.Hooks has the object_pairs_hook and
--              the parse_constant of both scripts.
--   Runtime    what is called of Python's own library and is a parameter: SHA-256, the UTF-8 codec,
--              the text of JSON documents, repr.
--   Context    os.environ, the loop over expected variables, commit names and digests.
--   Url        a URL as urlsplit gives it.
--   Package    scripts/release/immutable_shared_package.py: Artifact has ARTIFACTS and
--              validate_artifact_bytes, Source has validate_source_identity, Local has
--              validate_local_artifacts with the POM and module checks, Redirect has
--              SafePackageRedirect and is_absent_package_response, Remote has
--              classify_remote_artifacts, fetch and verify_remote.
--   Image      scripts/release/immutable_migration_image.py: Format has the constants and
--              _parse_json, Document has validate_remote_image and
--              validate_local_image_document, Http, Response, Redirect and Registry have
--              RegistryClient, Recheck has resolve_recheck, Evidence has _validate_evidence,
--              write_evidence and validate_evidence_directory, Workflow has validate_ci_context,
--              _write_github_outputs, verify_ci_source, inspect_local_image, preflight, recheck,
--              postflight and verify_evidence_cli.
--   Gate       scripts/release/migration_release_gate.py: Format has _nonzero, _json_object and
--              _exact_keys, Exact has _exact_json_value, Dispatch has validate_dispatch_context, Sealed has
--              validate_sealed_release, JobName has derived_migration_job_name, Facts has
--              validate_migration_facts and validate_pre_reconstruction_source_facts.
--              Values has _positive_integer, _login and _utc_z_seconds, Approval has
--              validate_protected_approval, Ruleset, Protection and Authorization have
--              validate_gitops_authorization and the checks of rulesets and of the classic protection,
--              Text has _validate_lf_text, File has _read_regular_file, Result has
--              build_result_evidence, validate_result_evidence, write_result_evidence and
--              verify_result_evidence_dir, Fence has render_writer_fence_kustomization and
--              validate_writer_fence_kustomization, Kustomization has _migration_base_parts,
--              render_migration_kustomization and validate_migration_kustomization, Scan has what re
--              and str.count find, Render has the checks of rendered manifests, BaseJob has
--              validate_base_migration_job, InPlace has write_migration_kustomization and
--              write_writer_fence_kustomization.
--   Tests      the theorems applied to a concrete runtime, registry and runner.
--
-- State. The registry, the package service, git, docker and the clock act on a world of any type,
-- which is passed on beside every result, raised errors included; the records Network, Remote and
-- Runner are these services. The two paths that the image script writes, the workflow's output
-- file and the evidence directory, are data (OutputFile, Root) in the record World; the evidence
-- directory of the gate is the record Place. A file that the gate reads is the record File: what
-- the operating system answers about it, and the bytes it hands out at each offset; one that it
-- replaces is in a Site. The readers of XML and of JSON without hooks that the package script
-- calls are the record Reader.
--
-- Bounds and fuel. Two loops are not over data. The retry loop is recursion on the number of
-- attempts, as in the code. The loop that reads a file runs on fuel, one more than the bytes that
-- remain, and every round but the last takes a byte at least. The digits of str(n) are written on
-- fuel n + 1, and n has at most that many digits. Python refuses to convert more than 4300 digits;
-- the places that can meet such a text, the run id and a Content-Length, have that branch. Numbers
-- are unbounded, as Python's are. The delay of the retries enters as the Boolean of its range
-- check.
--
-- Texts that a gate writes itself are ASCII, so their UTF-8 bytes are their code points; what
-- follows from that for a decoded text is a hypothesis where a theorem needs it (Extends, Reads).
--
-- Not modelled: printing, argparse and the exit codes of main, and the git subprocesses of the
-- migration gate. Permissions, flushing, and what other processes do meanwhile to the evidence
-- directory or to a kustomization are left out; a temporary file that could not be renamed counts
-- as removed. The Java libraries, the SQL migrations and the workflows of the repository are
-- outside this library.
pub mod Base
pub mod Json
pub mod Runtime
pub mod Context
pub mod Url
pub mod Package
pub mod Image
pub mod Gate
pub mod Tests

-- ===== src/Audit/Ci.antt =====
-- `check_ci` and `check_clean_room` of scripts/audit_release.py: the record of a CI run that took the
-- clean-room bundle, attested it and replayed a case.
pub mod Collected
pub mod Accepted
use ckb_vm_sail_verify.Base.{
  String, ℕ, Bool, true, ◌&&◌, not, List, [], ◌∷◌, ◌<>◌, str_eq, pos, if◌then◌else◌,
}
use ckb_vm_sail_verify.Base.Result.{
  Result, ok, err, runtime_error, type_error, incomplete, require, ◌>>=◌, ◌>>◌,
}
use ckb_vm_sail_verify.Base.Text.{append}
use ckb_vm_sail_verify.Base.Json.{
  Value, str, int, bool, dict, Fields, end, field, fields, item, equal, null, is_str, find,
}
use ckb_vm_sail_verify.Release.Manifest
use ckb_vm_sail_verify.Release.Stages.{or_null}
use ckb_vm_sail_verify.Audit.Checks.{
  expect, reach, reads, agree, reads_true, reads_false, reads_number, reads_one_of, reads_integer,
  has_names, each_field, fields_of, merge,
}
use ckb_vm_sail_verify.Audit.Site.{Files, reference}
use ckb_vm_sail_verify.Audit.Policy.{Policy, CiPolicy}
use ckb_vm_sail_verify.Audit.Report.{check_vm_report}

abbrev pub ci_fields : List String
ci_fields =
    "schema_version" ∷ "kind" ∷ "status" ∷ "candidate" ∷ "repository" ∷ "run" ∷ "jobs" ∷ "artifact"
    ∷ "attestation" ∷ "clean_room" ∷ "replay" ∷ "queries" ∷ "boundaries" ∷ []

unfoldable pub check_run : Value → Policy → String → Result (Unit {0})
check_run report policy candidate = do
  Manifest.fields report ci_fields "CI record"
  expect
      (reads_number report ("schema_version" ∷ []) 2
        ∷ reads report ("kind" ∷ []) (str "ci-evidence-v2")
        ∷ reads report ("status" ∷ []) (str "passed")
        ∷ reads report ("candidate" ∷ []) (str candidate)
        ∷ reads report ("repository" ∷ []) (str policy.repository)
        ∷ [])
      "CI identity/status"
  expect
      (reads report ("run" ∷ "head_sha" ∷ []) (str candidate)
        ∷ reads report ("run" ∷ "conclusion" ∷ []) (str "success")
        ∷ reads_one_of report ("run" ∷ "event" ∷ []) ("push" ∷ "workflow_dispatch" ∷ [])
        ∷ reads report ("run" ∷ "workflow_path" ∷ []) (str policy.ci.workflow)
        ∷ reads_integer report ("run" ∷ "run_id" ∷ []) "run id"
        ∷ [])
      "CI run"

-- for name in ('run', 'jobs', 'artifacts')
unfoldable pub check_queries : Value → List String → Result (Unit {0})
check_queries report [] = ok tt
check_queries report (name ∷ names) = do
  expect (reads_number report ("queries" ∷ name ∷ "exit_code" ∷ []) 0 ∷ [])
      ("remote query failed: " <> name)
  check_queries report names

-- read(path).get('kind')
unfoldable pub kind_of : Value → Result Value
kind_of (dict fs) = ok (or_null (find "kind" fs))
kind_of _ = err type_error

module _ (files : Files) where
  open files use {FilePath, parent, is_same, sha, read}

  unfoldable pub check_job : FilePath → String → Value → Result (Unit {0})
  check_job directory name row = do
    expect
        (reads row ("conclusion" ∷ []) (str "success")
          ∷ reads_integer row ("job_id" ∷ []) "job id"
          ∷ [])
        ("CI job failed: " <> name)
    log ← item row "log"
    _ ← reference files directory log ("CI job log " <> name)
    ok tt

  unfoldable pub check_jobs : FilePath → Value → List String → Result (Unit {0})
  check_jobs directory report names = do
    jobs ← item report "jobs"
    expect (has_names jobs names ∷ []) "CI job inventory"
    rows ← fields_of jobs
    each_field (check_job directory) rows

  -- sha(first) == sha(second)
  unfoldable pub same_sha : FilePath → FilePath → Result Bool
  same_sha first second = do a ← sha first; b ← sha second; ok (str_eq a b)

  -- sha(path) == digest(value[key], label)
  unfoldable pub has_sha : FilePath → Value → String → String → Result Bool
  has_sha path v k label = do
    a ← sha path
    given ← item v k
    expected ← Manifest.digest given label
    ok (str_eq a expected)

  -- The second of the two downloads of the artifact.
  unfoldable pub check_downloads : FilePath → Value → CiPolicy → String → Result FilePath
  check_downloads directory artifact cfg candidate = do
    expect
        (reads artifact ("name" ∷ []) (str (append cfg.artifact_name_prefix candidate))
          ∷ reads_false artifact ("expired" ∷ [])
          ∷ [])
        "CI artifact identity"
    first_row ← item artifact "first_download"
    first ← reference files directory first_row "first download"
    second_row ← item artifact "second_download"
    second ← reference files directory second_row "second download"
    expect
        (ok (not (is_same first second))
          ∷ same_sha first second
          ∷ has_sha second artifact "sha256" "artifact hash"
          ∷ [])
        "independent downloads differ"
    ok second

  -- value[key]...[key] == sha(path)
  unfoldable pub reads_sha : Value → List String → FilePath → Result Bool
  reads_sha v ks path = do w ← reach v ks; hash ← sha path; ok (equal w (str hash))

  unfoldable pub check_replay : FilePath → Value → String → Result (Unit {0})
  check_replay directory report case = do
    replay ← item report "replay"
    expect (reads replay ("case" ∷ []) (str case) ∷ reads_number replay ("exit_code" ∷ []) 0 ∷ [])
        "CI downloaded replay"
    stdout ← item replay "stdout"
    _ ← reference files directory stdout "replay stdout"
    stderr ← item replay "stderr"
    _ ← reference files directory stderr "replay stderr"
    ok tt

  module _ (load_policy : Result Policy) (current_snapshot : Result Value) (root : FilePath)
      -- gh attestation verify, with exit code 0: of the file, in the repository, by the bundle, by the
      -- workflow, for the source
      (is_attested : FilePath → String → FilePath → String → String → Result Bool) where
    unfoldable pub check_attested :
        FilePath → Value → FilePath → Policy → String → Result (Unit {0})
    check_attested directory report second policy candidate = do
      row ← reach report ("artifact" ∷ "attestation" ∷ [])
      bundle ← reference files directory row "attestation bundle"
      passed ←
          is_attested second policy.repository bundle
            (append policy.repository (append "/" policy.ci.workflow)) candidate
      require passed "CI provenance attestation verification failed"
      expect (reads_number report ("attestation" ∷ "exit_code" ∷ []) 0 ∷ [])
          "recorded attestation verification failed"

    -- The clean-room report in the checkout, which the bundle carries too.
    unfoldable pub check_local : Value → Result FilePath
    check_local report = do
      row ← reach report ("clean_room" ∷ "report" ∷ [])
      path ← reference files root row "CI clean-room report"
      expect
          (agree report ("clean_room" ∷ "bundle_sha256" ∷ []) report ("artifact" ∷ "sha256" ∷ [])
            ∷ reads_sha report ("clean_room" ∷ "archived_report_sha256" ∷ []) path
            ∷ [])
          "CI bundle does not carry the local clean-room report"
      ok path

    unfoldable pub ci_summary : Value → Value → Result Value
    ci_summary report vm = do
      vm_rows ← fields_of vm
      run_id ← reach report ("run" ∷ "run_id" ∷ [])
      url ← reach report ("run" ∷ "html_url" ∷ [])
      bundle ← reach report ("artifact" ∷ "sha256" ∷ [])
      case ← reach report ("replay" ∷ "case" ∷ [])
      ok (
          dict (
            merge vm_rows (
              fields (
                ("ci_run_id", run_id)
                ∷ ("ci_url", url)
                ∷ ("bundle_sha256", bundle)
                ∷ ("attestation_verified", bool true)
                ∷ ("external_downloads", int (pos 2))
                ∷ ("replayed_case", case)
                ∷ []))))

    unfoldable pub check_ci : FilePath → String → Result Value
    check_ci path candidate = do
      report ← read path
      policy ← load_policy
      check_run report policy candidate
      check_jobs (parent path) report policy.ci.jobs
      artifact ← item report "artifact"
      second ← check_downloads (parent path) artifact policy.ci candidate
      check_attested (parent path) report second policy candidate
      local ← check_local report
      check_replay (parent path) report policy.ci.replay_case
      check_queries report ("run" ∷ "jobs" ∷ "artifacts" ∷ [])
      vm ← check_vm_report files load_policy current_snapshot local candidate
      ci_summary report vm

    -- A report of the guest without a record of CI is not enough, even if it passes.
    unfoldable pub check_vm_alone : FilePath → String → Result Value
    check_vm_alone path candidate = do
      _ ← check_vm_report files load_policy current_snapshot path candidate
      err (incomplete "VM report validated; the externally collected CI record is absent")

    unfoldable pub check_clean_room : FilePath → String → Result Value
    check_clean_room path candidate = do
      report ← read path
      kind ← kind_of report
      if equal kind (str "ci-evidence-v2")
          then check_ci path candidate
          else if equal kind (str "clean-room-evidence-v2")
          then check_vm_alone path candidate
          else err (runtime_error "unknown clean-room record kind")

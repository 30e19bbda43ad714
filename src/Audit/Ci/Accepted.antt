-- ===== src/Audit/Ci/Accepted.antt =====
-- The record of a CI run and the clean-room report that it carries.
use ckb_vm_sail_verify.Base.{String, ◌≡◌, ap, ◌∙◌, Bool, true, [], ◌∷◌, if◌then◌else◌}
use ckb_vm_sail_verify.Base.Result.{Result, ok, err, runtime_error}
use ckb_vm_sail_verify.Base.Result.Returns.{
  Returns, Returns-ok, Returns-err, Returns-bind, Returns-require, Returns-self, Returns-if,
}
use ckb_vm_sail_verify.Base.Json.{Value, str, equal}
use ckb_vm_sail_verify.Base.Text.{append}
use ckb_vm_sail_verify.Audit.Checks.Facts.{Reads, Returns-expect, expect-Returns, item-Reads}
use ckb_vm_sail_verify.Audit.Site.{Files}
use ckb_vm_sail_verify.Audit.Site.Member.{Refers, reference-Refers}
use ckb_vm_sail_verify.Audit.Policy.{Policy}
use ckb_vm_sail_verify.Audit.Report.Reproduced.{IsReproduced, check_vm_report-IsReproduced}
use ckb_vm_sail_verify.Audit.Ci.{
  check_attested, check_local, check_ci, check_vm_alone, check_clean_room,
}
use ckb_vm_sail_verify.Audit.Ci.Collected.{
  check_run-head, HasJobs, check_jobs-HasJobs, AreDownloads, check_downloads-AreDownloads,
}

module _ (files : Files) (load_policy : Result Policy) (current_snapshot : Result Value)
    (root : files.FilePath)
    (is_attested : files.FilePath → String → files.FilePath → String → String → Result Bool) where
  open files use {FilePath, parent, is_same, sha, read}

  -- What the record of a run shows, with the clean-room report that it carries.
  pub record IsCollected (path : FilePath) (candidate : String) : Type 0 where
    pub policy : Policy
    pub has_policy : load_policy ≡ ok policy
    pub report : Value
    pub has_report : read path ≡ ok report
    pub head : Reads report ("run" ∷ "head_sha" ∷ []) (str candidate)
    pub succeeded : Reads report ("run" ∷ "conclusion" ∷ []) (str "success")
    pub jobs : HasJobs files (parent path) report (policy.ci.jobs)
    pub artifact : Value
    pub has_artifact : Reads report ("artifact" ∷ []) artifact
    pub second : FilePath
    pub downloads : AreDownloads files (parent path) artifact (policy.ci) candidate second
    -- gh attests the second download, as made by the workflow from the candidate
    pub bundle : FilePath
    pub attested :
        is_attested second
          (policy.repository)
          bundle
          (append (policy.repository) (append "/" (policy.ci.workflow)))
          candidate
        ≡ ok true
    pub local : FilePath
    pub row : Value
    pub local_kept : Refers files root row local
    pub reproduced : IsReproduced files load_policy current_snapshot local candidate

  check_attested-bundle :
      (directory : FilePath) (report : Value) (second : FilePath) (policy : Policy)
      (candidate : String)
      → Returns
          (λ _.
            (bundle : FilePath) × (is_attested second policy.repository bundle
                (append policy.repository (append "/" policy.ci.workflow))
                candidate
              ≡ ok true))
          (check_attested files load_policy current_snapshot root is_attested directory report
            second policy candidate)
  unfolding check_attested
  check_attested-bundle directory report second policy candidate = Returns-bind λ row e.
      Returns-bind λ bundle f.
        Returns-bind
          λ passed g. Returns-require _ λ h. expect-Returns _ _ λ _. (bundle, g ∙ ap ok h)

  check_local-Refers :
      (report : Value)
      → Returns
          (λ path. (row : Value) × Refers files root row path)
          (check_local files load_policy current_snapshot root is_attested report)
  unfolding check_local
  check_local-Refers report = Returns-bind λ row e. Returns-bind λ path f.
      Returns-expect _ _ λ _. Returns-ok path (row, (reference-Refers files root row _).at path f)

  check_ci-IsCollected :
      (path : FilePath) (candidate : String)
      → Returns
          (λ _. IsCollected path candidate)
          (check_ci files load_policy current_snapshot root is_attested path candidate)
  unfolding check_ci
  check_ci-IsCollected path candidate = Returns-bind λ report e. Returns-bind λ policy f.
      Returns-bind λ b1 run. Returns-bind λ b2 jobs. Returns-bind λ artifact g.
        Returns-bind λ second downloads. Returns-bind λ b3 attested. Returns-bind λ local carried.
          Returns-bind λ b4 _. Returns-bind λ b5 _. Returns-bind λ vm h. Returns-self _ λ _ _.
            let (head, succeeded) = (check_run-head report policy candidate).at b1 run in
            let (bundle, verified) =
              (check_attested-bundle _ report second policy candidate).at b3 attested in
            let (row, kept) = (check_local-Refers report).at local carried in
            record {
              policy = policy;
              has_policy = f;
              report = report;
              has_report = e;
              head = head;
              succeeded = succeeded;
              jobs = (check_jobs-HasJobs files _ report _).at b2 jobs;
              artifact = artifact;
              has_artifact = item-Reads _ _ _ g;
              second = second;
              downloads =
                  (check_downloads-AreDownloads files _ artifact _ candidate).at second downloads;
              bundle = bundle;
              attested = verified;
              local = local;
              row = row;
              local_kept = kept;
              reproduced = (check_vm_report-IsReproduced files _ _ local candidate).at vm h;
            }

  check_clean_room-IsCollected :
      (path : FilePath) (candidate : String)
      → Returns
          (λ _. IsCollected path candidate)
          (check_clean_room files load_policy current_snapshot root is_attested path candidate)
  unfolding check_clean_room check_vm_alone
  check_clean_room-IsCollected path candidate = Returns-bind λ report _. Returns-bind λ kind _.
      Returns-if (equal kind (str "ci-evidence-v2"))
        {m = check_ci files load_policy current_snapshot root is_attested path candidate}
        {n = other kind} (λ _. check_ci-IsCollected path candidate) (λ _. refused kind)
    where
      other : Value → Result Value
      other kind =
          if equal kind (str "clean-room-evidence-v2")
          then check_vm_alone files load_policy current_snapshot root is_attested path candidate
          else err (runtime_error "unknown clean-room record kind")

      alone :
          Returns
            (λ _. IsCollected path candidate)
            (check_vm_alone files load_policy current_snapshot root is_attested path candidate)
      alone = Returns-bind λ _ _. Returns-err _

      refused : (kind : Value) → Returns (λ _. IsCollected path candidate) (other kind)
      refused kind =
          Returns-if (equal kind (str "clean-room-evidence-v2")) (λ _. alone) (λ _. Returns-err _)

  -- Only a record of CI passes for the clean-room slot; a report of the guest alone is at best
  -- incomplete. An accepted record is of a run that succeeded on the candidate, with exactly the jobs
  -- of the policy, whose logs are kept; two downloads of its artifact, at different places, have the
  -- same digest, which is the recorded one; gh attests the second as made by the workflow from the
  -- candidate; and the clean-room report in the checkout shows that the candidate was reproduced.
  pub check_clean_room_sound :
      (path : FilePath) (candidate : String) (summary : Value)
      → check_clean_room files load_policy current_snapshot root is_attested path candidate
        ≡ ok summary
      → IsCollected path candidate
  check_clean_room_sound path candidate summary h =
      (check_clean_room-IsCollected path candidate).at summary h

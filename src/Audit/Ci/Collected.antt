-- ===== src/Audit/Ci/Collected.antt =====
-- What an accepted record of a CI run shows.
use ckb_vm_sail_verify.Base.{
  String, ◌≡◌, refl, ap, sym, ◌∙◌, Bool, true, false, not, List, [], ◌∷◌, eq_iff,
}
use ckb_vm_sail_verify.Base.Result.{ok, >>=-eq-ok}
use ckb_vm_sail_verify.Base.Result.Returns.{
  Returns, Returns-ok, Returns-bind, Returns-self, ok-injective,
}
use ckb_vm_sail_verify.Base.Json.{Value, str, bool, dict, Fields, item}
use ckb_vm_sail_verify.Base.Text.{append}
use ckb_vm_sail_verify.Release.Manifest.Members.{digest-Returns}
use ckb_vm_sail_verify.Audit.Checks.Facts.{
  Hold, Reads, Returns-expect, expect-Returns, item-Reads, reads-str, reads_false-bool, EachField,
  each_field-EachField, fields_of-dict, NamesAre, has_names-NamesAre,
}
use ckb_vm_sail_verify.Audit.Site.{Files}
use ckb_vm_sail_verify.Audit.Site.Member.{Refers, reference-Refers}
use ckb_vm_sail_verify.Audit.Policy.{Policy, CiPolicy}
use ckb_vm_sail_verify.Audit.Ci.{
  check_run, check_job, check_jobs, same_sha, has_sha, check_downloads,
}

pub check_run-head :
    (report : Value) (policy : Policy) (candidate : String)
    → Returns
        (λ _.
          Reads report ("run" ∷ "head_sha" ∷ []) (str candidate)
          × Reads report ("run" ∷ "conclusion" ∷ []) (str "success"))
        (check_run report policy candidate)
unfolding check_run
check_run-head report policy candidate = Returns-bind λ _ _.
    Returns-expect _ _ λ _. expect-Returns _ _ λ h. (reads-str _ _ _ h.0, reads-str _ _ _ h.1.0)

module _ (files : Files) where
  open files use {FilePath, parent, is_same, sha, read}

  -- A job that succeeded, and whose log is kept.
  pub record IsJob (directory : FilePath) (row : Value) : Type 0 where
    pub succeeded : Reads row ("conclusion" ∷ []) (str "success")
    pub log : Value
    pub has_log : Reads row ("log" ∷ []) log
    pub path : FilePath
    pub log_kept : Refers files directory log path

  check_job-IsJob :
      (directory : FilePath) (name : String) (row : Value)
      → Returns (λ _. IsJob directory row) (check_job files directory name row)
  unfolding check_job
  check_job-IsJob directory name row = Returns-expect _ _ λ h. Returns-bind λ log e.
      Returns-bind λ path f. Returns-ok tt (record {
        succeeded = reads-str _ _ _ h.0;
        log = log;
        has_log = item-Reads _ _ _ e;
        path = path;
        log_kept = (reference-Refers files directory log _).at path f;
      })

  -- The record has exactly these jobs.
  abbrev pub HasJobs : FilePath → Value → List String → Type 0
  HasJobs directory report names =
      (v : Value) × (rows : Fields) × Reads report ("jobs" ∷ []) v
      × NamesAre v names
      × (v ≡ dict rows)
      × EachField (λ _. IsJob directory) rows

  pub check_jobs-HasJobs :
      (directory : FilePath) (report : Value) (names : List String)
      → Returns (λ _. HasJobs directory report names) (check_jobs files directory report names)
  unfolding check_jobs
  check_jobs-HasJobs directory report names = Returns-bind λ v e. Returns-expect _ _ λ h.
      Returns-bind λ rows f. Returns-self _ λ u each. (
        v,
        rows,
        item-Reads _ _ _ e,
        has_names-NamesAre v names h.0,
        (fields_of-dict v).at rows f,
        (each_field-EachField _ (check_job-IsJob directory) rows).at u each,
      )

  -- Two downloads of the artifact of this candidate, at different places and with the same bytes.
  pub record AreDownloads (directory : FilePath) (artifact : Value) (cfg : CiPolicy)
      (candidate : String) (second : FilePath) : Type 0 where
    pub named : Reads artifact ("name" ∷ []) (str (append (cfg.artifact_name_prefix) candidate))
    pub unexpired : Reads artifact ("expired" ∷ []) (bool false)
    pub first_row : Value
    pub second_row : Value
    pub first : FilePath
    pub first_kept : Refers files directory first_row first
    pub second_kept : Refers files directory second_row second
    pub apart : is_same first second ≡ false
    pub hash : String
    pub first_hash : sha first ≡ ok hash
    pub second_hash : sha second ≡ ok hash
    pub artifact_hash : Reads artifact ("sha256" ∷ []) (str hash)

  same_sha-eq :
      (p q : FilePath) → Hold (same_sha files p q) → (h : String) × (sha p ≡ ok h) × (sha q ≡ ok h)
  unfolding same_sha
  same_sha-eq p q holds =
      let (a, at_p, rest) = >>=-eq-ok (sha p) _ holds in
      let (b, at_q, same) = >>=-eq-ok (sha q) _ rest in
      (b, at_p ∙ ap ok ((eq_iff a b).0 (ok-injective _ _ same)), at_q)

  has_sha-Reads :
      (p : FilePath) (v : Value) (k label : String)
      → Hold (has_sha files p v k label)
      → (h : String) × (sha p ≡ ok h) × Reads v (k ∷ []) (str h)
  unfolding has_sha
  has_sha-Reads p v k label holds =
      let (a, at_p, rest) = >>=-eq-ok (sha p) _ holds in
      let (given, found, rest') = >>=-eq-ok (item v k) _ rest in
      let (b, digits, same) = >>=-eq-ok _ _ rest' in
      let (is_text, _) = (digest-Returns given label).at b digits in
      let eq = (eq_iff a b).0 (ok-injective _ _ same) in
      (a, at_p, item-Reads _ _ _ found ∙ ap ok (is_text ∙ ap str (sym eq)))

  pub check_downloads-AreDownloads :
      (directory : FilePath) (artifact : Value) (cfg : CiPolicy) (candidate : String)
      → Returns
          (λ second. AreDownloads directory artifact cfg candidate second)
          (check_downloads files directory artifact cfg candidate)
  unfolding check_downloads
  check_downloads-AreDownloads directory artifact cfg candidate = Returns-expect _ _ λ h.
      Returns-bind λ row e. Returns-bind λ first f. Returns-bind λ row' e'.
        Returns-bind λ second f'. Returns-expect _ _ λ equals.
          let (hash, first_hash, second_hash) = same_sha-eq first second equals.1.0 in
          let (hash', second_hash', given) = has_sha-Reads second artifact _ _ equals.1.1.0 in
          Returns-ok second (record {
            named = reads-str _ _ _ h.0;
            unexpired = reads_false-bool _ _ h.1.0;
            first_row = row;
            second_row = row';
            first = first;
            first_kept = (reference-Refers files directory row _).at first f;
            second_kept = (reference-Refers files directory row' _).at second f';
            apart = not-true (is_same first second) (ok-injective _ _ equals.0);
            hash = hash;
            first_hash = first_hash;
            second_hash = second_hash;
            artifact_hash =
                given ∙ ap ok (ap str (ok-injective hash' hash (sym second_hash' ∙ second_hash)));
          })
    where
      not-true : (b : Bool) → not b ≡ true → b ≡ false
      not-true true h = cc h
      not-true false h = refl

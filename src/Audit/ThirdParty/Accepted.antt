-- ===== src/Audit/ThirdParty/Accepted.antt =====
-- The parts of an accepted third-party report together.
use ckb_vm_sail_verify.Base.{String, Bool, ◌≡◌, ap, ◌∙◌, true, [], ◌∷◌}
use ckb_vm_sail_verify.Base.Result.{Result, ok}
use ckb_vm_sail_verify.Base.Result.Returns.{Returns, Returns-bind, Returns-self}
use ckb_vm_sail_verify.Base.Json.{Value, str, list, Items, equal, elements}
use ckb_vm_sail_verify.Release.Stages.Passed.{ArePassed, check_stages_sound}
use ckb_vm_sail_verify.Audit.Checks.Facts.{Reads, Returns-expect, item-Reads, agree-equal}
use ckb_vm_sail_verify.Audit.Site.{Files, sha_below}
use ckb_vm_sail_verify.Audit.Policy.{Policy}
use ckb_vm_sail_verify.Audit.ThirdParty.{check_third_party}
use ckb_vm_sail_verify.Audit.ThirdParty.Independent.{
  IsIndependent, check_performer-IsIndependent, check_report_identity-candidate, IsStated,
  check_statement-IsStated, IsAuthorized, check_authorization-IsAuthorized, IsSignedBy,
  check_signed-IsSignedBy,
}

module _ (files : Files) (read_text : files.FilePath → Result String)
    (is_signed : files.FilePath → String → String → files.FilePath → files.FilePath → Result Bool)
    (load_policy : Result Policy) (current_snapshot : Result Value) (root : files.FilePath) where
  open files use {FilePath, parent, read}

  -- The report of a third party that reproduced the current source.
  pub record IsReproducedBy (path : FilePath) (candidate : String) : Type 0 where
    pub policy : Policy
    pub has_policy : load_policy ≡ ok policy
    pub report : Value
    pub has_report : read path ≡ ok report
    pub about : Reads report ("candidate" ∷ []) (str candidate)
    pub performer : Value
    pub has_performer : Reads report ("performer" ∷ []) performer
    pub independent : IsIndependent performer (policy.signer)
    pub current : Value
    pub has_current : current_snapshot ≡ ok current
    pub given : Value
    pub has_given : Reads report ("source_snapshot_sha256" ∷ []) given
    pub digest : Value
    pub has_digest : Reads current ("snapshot_sha256" ∷ []) digest
    pub same_source : equal given digest ≡ true
    pub stages : Items
    pub has_stages : Reads report ("stages" ∷ []) (list stages)
    pub stages_passed :
        ArePassed (sha_below files (parent path)) (elements stages) (policy.third_party.stages)
    pub statement : FilePath
    pub stated :
        IsStated files read_text is_signed (parent path) report performer candidate statement
    pub signers : FilePath
    pub authorized :
        IsAuthorized files read_text is_signed (parent path) root (policy.signer) signers
    pub signed :
        IsSignedBy files read_text is_signed signers statement performer
          (policy.third_party.namespace)

  check_third_party-IsReproducedBy :
      (path : FilePath) (candidate : String)
      → Returns
          (λ _. IsReproducedBy path candidate)
          (check_third_party files read_text is_signed load_policy current_snapshot root path
            candidate)
  unfolding check_third_party
  check_third_party-IsReproducedBy path candidate = Returns-bind λ report e.
      Returns-bind λ policy f. Returns-bind λ b1 about. Returns-bind λ performer g.
        Returns-bind λ b2 independent. Returns-bind λ _ _. Returns-bind λ current h.
          Returns-expect _ _ λ same. Returns-bind λ v i. Returns-bind λ b3 stages.
            Returns-bind λ statement stated. Returns-bind λ signers authorized.
              Returns-bind λ b4 signed. Returns-self _ λ _ _.
                let (rows, is_list, passed) =
                  check_stages_sound _ v policy.third_party.stages stages in
                let (given, digest, has_given, has_digest, same_source) =
                  agree-equal report _ current _ same.0 in
                record {
                  policy = policy;
                  has_policy = f;
                  report = report;
                  has_report = e;
                  about = (check_report_identity-candidate report candidate).at b1 about;
                  performer = performer;
                  has_performer = item-Reads _ _ _ g;
                  independent = (check_performer-IsIndependent performer _).at b2 independent;
                  current = current;
                  has_current = h;
                  given = given;
                  has_given = has_given;
                  digest = digest;
                  has_digest = has_digest;
                  same_source = same_source;
                  stages = rows;
                  has_stages = item-Reads _ _ _ i ∙ ap ok is_list;
                  stages_passed = passed;
                  statement = statement;
                  stated =
                      (check_statement-IsStated files read_text is_signed _ report performer
                          candidate).at
                        statement stated;
                  signers = signers;
                  authorized =
                      (check_authorization-IsAuthorized files read_text is_signed _ root report
                          policy.signer).at
                        signers authorized;
                  signed =
                      (check_signed-IsSignedBy files read_text is_signed _ signers statement report
                          performer _).at
                        b4 signed;
                }

  -- A report of a third party that is accepted says that the candidate passed every stage of the
  -- policy, on the source of the current checkout, performed by one who is independent and not the
  -- signer of the release. Its statement, a file beside the report, says what the report says, and is
  -- signed by the performer, by a list of signers that the owner of the release has signed; both
  -- signers stand in the files of signers that ssh-keygen was given.
  pub check_third_party_sound :
      (path : FilePath) (candidate : String) (summary : Value)
      → check_third_party files read_text is_signed load_policy current_snapshot root path candidate
        ≡ ok summary
      → IsReproducedBy path candidate
  check_third_party_sound path candidate summary h =
      (check_third_party-IsReproducedBy path candidate).at summary h

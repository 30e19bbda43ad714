-- ===== src/Audit/ThirdParty/Independent.antt =====
-- What an accepted report of a third party shows.
use ckb_vm_sail_verify.Base.{String, ◌≡◌, refl, ap, ◌∙◌, Bool, true, false, not, List, [], ◌∷◌}
use ckb_vm_sail_verify.Base.Result.{Result, ok, >>=-eq-ok}
use ckb_vm_sail_verify.Base.Result.Returns.{
  Returns, Returns-ok, Returns-err, Returns-bind, Returns-require, Returns-self, ok-injective,
}
use ckb_vm_sail_verify.Base.Json.{Value, str, bool, equal}
use ckb_vm_sail_verify.Audit.Checks.{reach}
use ckb_vm_sail_verify.Audit.Checks.Facts.{
  Hold, Reads, expect-Returns, item-Reads, reads-str, reads_true-bool, reads_false-bool,
}
use ckb_vm_sail_verify.Audit.Site.{Files}
use ckb_vm_sail_verify.Audit.Site.Member.{Refers, reference-Refers}
use ckb_vm_sail_verify.Audit.Policy.{Signer}
use ckb_vm_sail_verify.Audit.Signatures.Approved.{IsSigned, verify_ssh_signature-IsSigned}
use ckb_vm_sail_verify.Audit.ThirdParty.{
  differs, check_report_identity, check_performer, statement_of, identity_of, check_statement,
  check_authorization, check_signed,
}

-- The performer says to be independent, and is not the signer of the release.
pub record IsIndependent (performer : Value) (signer : Signer) : Type 0 where
  pub independent : Reads performer ("independent" ∷ []) (bool true)
  pub no_maintainer : Reads performer ("maintainer" ∷ []) (bool false)
  pub identity : Value
  pub has_identity : Reads performer ("identity" ∷ []) identity
  pub other : equal identity (str (signer.identity)) ≡ false

differs-false :
    (v : Value) (ks : List String) (other : Value)
    → Hold (differs v ks other)
    → (w : Value) × Reads v ks w × (equal w other ≡ false)
unfolding differs
differs-false v ks other h =
    let (w, found, holds) = >>=-eq-ok (reach v ks) _ h in
    (w, found, not-true (equal w other) (ok-injective _ _ holds))
  where
    not-true : (b : Bool) → not b ≡ true → b ≡ false
    not-true true h = cc h
    not-true false h = refl

pub check_performer-IsIndependent :
    (performer : Value) (signer : Signer)
    → Returns (λ _. IsIndependent performer signer) (check_performer performer signer)
unfolding check_performer
check_performer-IsIndependent performer signer = Returns-bind λ _ _. expect-Returns _ _ λ h.
    let (identity, found, other) = differs-false performer _ _ h.1.1.0 in
    record {
      independent = reads_true-bool _ _ h.0;
      no_maintainer = reads_false-bool _ _ h.1.0;
      identity = identity;
      has_identity = found;
      other = other;
    }

identity_of-str : (v : Value) → Returns (λ s. v ≡ str s) (identity_of v)
unfolding identity_of
identity_of-str (str s) = Returns-ok s refl
identity_of-str v = Returns-err _

pub check_report_identity-candidate :
    (report : Value) (candidate : String)
    → Returns
        (λ _. Reads report ("candidate" ∷ []) (str candidate))
        (check_report_identity report candidate)
unfolding check_report_identity
check_report_identity-candidate report candidate =
    Returns-bind λ _ _. expect-Returns _ _ λ h. reads-str _ _ _ h.1.1.1.0

module _ (files : Files) (read_text : files.FilePath → Result String)
    (is_signed : files.FilePath
      → String
      → String
      → files.FilePath
      → files.FilePath
      → Result Bool) where
  open files use {FilePath, parent, child, read}

  -- The statement is a file beside the report, and says what the report says.
  pub record IsStated (directory : FilePath) (report performer : Value) (candidate : String)
      (statement : FilePath) : Type 0 where
    pub row : Value
    pub kept : Refers files directory row statement
    pub value : Value
    pub has_value : read statement ≡ ok value
    pub expected : Value
    pub says : statement_of report performer candidate ≡ ok expected
    pub same : equal value expected ≡ true

  pub check_statement-IsStated :
      (directory : FilePath) (report performer : Value) (candidate : String)
      → Returns
          (λ statement. IsStated directory report performer candidate statement)
          (check_statement files read_text is_signed directory report performer candidate)
  unfolding check_statement
  check_statement-IsStated directory report performer candidate = Returns-bind λ row e.
      Returns-bind λ statement f. Returns-bind λ value g. Returns-bind λ expected h.
        Returns-require _ λ same. Returns-ok statement (record {
          row = row;
          kept = (reference-Refers files directory row _).at statement f;
          value = value;
          has_value = g;
          expected = expected;
          says = h;
          same = same;
        })

  -- The owner of the release, by the file of signers in the checkout, signed the list of signers.
  abbrev pub IsAuthorized : FilePath → FilePath → Signer → FilePath → Type 0
  IsAuthorized directory root signer signers =
      (row : Value) × (signature : FilePath) × Refers files directory row signers
      × IsSigned files read_text is_signed (child root signer.allowed_signers) signer.identity
          signer.namespace signature signers

  pub check_authorization-IsAuthorized :
      (directory root : FilePath) (report : Value) (signer : Signer)
      → Returns
          (λ signers. IsAuthorized directory root signer signers)
          (check_authorization files read_text is_signed directory root report signer)
  unfolding check_authorization
  check_authorization-IsAuthorized directory root report signer = Returns-bind λ _ _.
      Returns-bind λ _ _. Returns-bind λ row _. Returns-bind λ signers e. Returns-bind λ _ _.
        Returns-bind λ signature _. Returns-bind λ u f. Returns-ok signers (
          row,
          signature,
          (reference-Refers files directory row _).at signers e,
          (verify_ssh_signature-IsSigned files read_text is_signed _ _ _ signature signers _).at u
              f,
        )

  -- The performer, by the list of signers, signed the statement.
  abbrev pub IsSignedBy : FilePath → FilePath → Value → String → Type 0
  IsSignedBy signers statement performer namespace =
      (identity : String) × (signature : FilePath) × Reads performer ("identity" ∷ [])
        (str identity)
      × IsSigned files read_text is_signed signers identity namespace signature statement

  pub check_signed-IsSignedBy :
      (directory signers statement : FilePath) (report performer : Value) (namespace : String)
      → Returns
          (λ _. IsSignedBy signers statement performer namespace)
          (check_signed files read_text is_signed directory signers statement report performer
            namespace)
  unfolding check_signed
  check_signed-IsSignedBy directory signers statement report performer namespace =
      Returns-bind λ _ _. Returns-bind λ signature _. Returns-bind λ given e.
        Returns-bind λ identity f. Returns-self _ λ u g. (
          identity,
          signature,
          item-Reads _ _ _ e ∙ ap ok ((identity_of-str given).at identity f),
          (verify_ssh_signature-IsSigned files read_text is_signed _ _ _ signature statement _).at u
              g,
        )

-- ===== src/Audit/Signatures/Approved.antt =====
-- What an approved identity is, and which keys stand for it in a tag.
use mathlib.Core.Path.{subst}
use ckb_vm_sail_verify.Base.{
  String, ◌≡◌, refl, ap, sym, ◌∙◌, Bool, true, false, List, [], ◌∷◌, eq_iff, In, here, there, All,
  if◌then◌else◌, Bool-cases, inl, inr, &&-eq-true, arith,
}
use ckb_vm_sail_verify.Base.Result.{Result, ok}
use ckb_vm_sail_verify.Base.Result.Returns.{
  Returns, Returns-ok, Returns-bind, Returns-require, Returns-self, require-eq-true, ok-injective,
}
use ckb_vm_sail_verify.Base.Text.{append, lines, words, strip, occurs}
use ckb_vm_sail_verify.Audit.Site.{Files, regular}
use ckb_vm_sail_verify.Audit.Signatures.{
  is_row, names_signer, is_approval, has_approval, git_keys, Ran, approved_identity,
  verify_ssh_signature, verify_tag,
}

-- A line that is neither blank nor a comment, and that starts with the identity.
pub record IsApproval (identity line : String) : Type 0 where
  pub row : is_row line ≡ true
  pub rest : List String
  pub starts : words line ≡ identity ∷ rest

is_approval-IsApproval :
    (identity line : String) → is_approval identity line ≡ true → IsApproval identity line
unfolding names_signer
is_approval-IsApproval identity line h =
    let (row, named) = &&-eq-true (is_row line) _ h in go (words line) refl row named
  where
    go :
        (ws : List String)
        → words line ≡ ws
        → is_row line ≡ true
        → names_signer identity ws ≡ true
        → IsApproval identity line
    go [] e row n = absurd (cc n)
    go (w ∷ ws) e row n = record {
      row = row;
      rest = ws;
      starts = e ∙ ap (λ v. v ∷ ws) ((eq_iff w identity).0 n);
    }

has_approval-In :
    (identity : String) (ls : List String)
    → has_approval identity ls ≡ true
    → (line : String) × In line ls × IsApproval identity line
unfolding has_approval
has_approval-In identity [] h = cc h
has_approval-In identity (line ∷ rest) h = elim (Bool-cases (is_approval identity line)) [
  | inl e ↦ (line, here, is_approval-IsApproval identity line e)
  | inr e ↦
      let (found, place, approval) = has_approval-In identity rest (later e h) in
      (found, there place, approval)
]
  where
    later :
        is_approval identity line ≡ false
        → (if is_approval identity line then true else has_approval identity rest) ≡ true
        → has_approval identity rest ≡ true
    later e h = ground arith

-- A key that is given to git, which stands for the identity in git's namespace only.
abbrev pub IsGitKey : String → String → Type 0
IsGitKey identity key =
    (rest : String) × (key ≡ append identity (append " namespaces=\"git\" " rest))

All-add :
    (P : String → Type 0) (b : Bool) (key : String) (keys : List String)
    → P key
    → All P keys
    → All P (if b then key ∷ keys else keys)
All-add P true key keys k ks = (k, ks)
All-add P false key keys k ks = ks

git_keys-IsGitKey :
    (identity : String) (ls : List String) → All (IsGitKey identity) (git_keys identity ls)
unfolding git_keys
git_keys-IsGitKey identity [] = tt
git_keys-IsGitKey identity (line ∷ rest) =
    All-add (IsGitKey identity) (is_approval identity line) _ (git_keys identity rest) (_, refl)
      (git_keys-IsGitKey identity rest)

module _ (files : Files) (read_text : files.FilePath → Result String) where
  open files use {FilePath}

  -- The file of signers lists the identity.
  pub record IsApproved (allowed : FilePath) (identity : String) : Type 0 where
    pub body : String
    pub has_body : read_text allowed ≡ ok body
    pub line : String
    pub listed : In line (lines body)
    pub approval : IsApproval identity line

  pub regular-same : (path : FilePath) → Returns (λ p. path ≡ p) (regular files path)
  unfolding regular
  regular-same path =
      Returns-require _ λ _. Returns-bind λ _ _. Returns-require _ λ _. Returns-ok path refl

  pub approved_identity-IsApproved :
      (allowed : FilePath) (identity : String)
      → Returns
          (λ path. (allowed ≡ path) × IsApproved allowed identity)
          (approved_identity files read_text allowed identity)
  unfolding approved_identity
  approved_identity-IsApproved allowed identity = Returns-bind λ path e. Returns-bind λ body f.
      Returns-require _ λ h.
        let same = (regular-same allowed).at path e in
        let (line, place, approval) = has_approval-In identity (lines body) h in
        Returns-ok path (
          same,
          record {
            body = body;
            has_body = subst (λ p. read_text p ≡ ok body) (sym same) f;
            line = line;
            listed = place;
            approval = approval;
          },
        )

  module _ (is_signed : FilePath → String → String → FilePath → FilePath → Result Bool) where
    -- An identity that the file lists signed the payload, as ssh-keygen says by this file.
    pub record IsSigned (allowed : FilePath) (identity namespace : String)
        (signature payload : FilePath) : Type 0 where
      pub approved : IsApproved allowed identity
      pub signed : is_signed allowed identity namespace signature payload ≡ ok true

    pub verify_ssh_signature-IsSigned :
        (allowed : FilePath) (identity namespace : String) (signature payload : FilePath)
        (label : String)
        → Returns
            (λ _. IsSigned allowed identity namespace signature payload)
            (verify_ssh_signature files read_text is_signed allowed identity namespace signature
              payload label)
    unfolding verify_ssh_signature
    verify_ssh_signature-IsSigned allowed identity namespace signature payload label =
        Returns-bind λ path e. Returns-bind λ passed f. Returns-self _ λ u h.
          let (same, approved) = (approved_identity-IsApproved allowed identity).at path e in
          record {
            approved = approved;
            signed =
                subst (λ p. is_signed p identity namespace signature payload ≡ ok true) (sym same)
                  (f ∙ ap ok (require-eq-true _ _ u h));
          }

  module _ (git_verify_tag : List String → String → Result Ran)
      (rev_parse : String → Result Ran) where
    -- The tag points at the candidate, and git verifies it by keys that stand for the identity, which
    -- the file lists, in git's namespace only.
    pub record IsTagged (version : String) (allowed : FilePath) (identity candidate : String)
        : Type 0 where
      pub approved : IsApproved allowed identity
      pub verify : Ran
      pub verified : git_verify_tag (git_keys identity (lines (approved.body))) version ≡ ok verify
      pub passed : verify.passed ≡ true
      pub keys : All (IsGitKey identity) (git_keys identity (lines (approved.body)))
      pub signer :
          occurs (append "Good \"git\" signature for " (append identity " ")) (verify.output) ≡ true
      pub target : Ran
      pub has_target : rev_parse (append version "^{commit}") ≡ ok target
      pub at_candidate : strip (target.output) ≡ candidate

    pub verify_tag-IsTagged :
        (version : String) (allowed : FilePath) (identity candidate : String)
        → Returns
            (λ _. IsTagged version allowed identity candidate)
            (verify_tag files read_text git_verify_tag rev_parse version allowed identity candidate)
    unfolding verify_tag
    verify_tag-IsTagged version allowed identity candidate = Returns-bind λ path e.
        Returns-bind λ body f. Returns-bind λ verify g. Returns-require _ λ passed.
          Returns-require _ λ signer. Returns-bind λ target h. Returns-require _ λ at_it.
            Returns-self _ λ _ _.
              let (same, approved) = (approved_identity-IsApproved allowed identity).at path e in
              let same_body =
                ok-injective approved.body body (sym approved.has_body ∙ ap read_text same ∙ f) in
              record {
                approved = approved;
                verify = verify;
                verified =
                    subst (λ b. git_verify_tag (git_keys identity (lines b)) version ≡ ok verify)
                      (sym same_body) g;
                passed = passed;
                keys = git_keys-IsGitKey identity (lines approved.body);
                signer = signer;
                target = target;
                has_target = h;
                at_candidate = (eq_iff (strip target.output) candidate).0 (&&-eq-true _ _ at_it).1;
              }

-- ===== src/Audit/Signatures.antt =====
-- `approved_identity`, `verify_ssh_signature` and `verify_tag` of scripts/release_common.py. What
-- ssh-keygen and git answer are parameters.
pub mod Approved
use ckb_vm_sail_verify.Base.{
  String, ℕ, Bool, true, false, ◌&&◌, not, List, [], ◌∷◌, ◌++◌, ◌<>◌, str_eq, all, if◌then◌else◌,
  map,
}
use ckb_vm_sail_verify.Base.Result.{Result, ok, require, ◌>>=◌, ◌>>◌}
use ckb_vm_sail_verify.Base.Text.{
  append, is_blank, skip_spaces, starts_with, occurs, lines, words, spaced, strip,
}
use ckb_vm_sail_verify.Base.Json.{Value, str, bool, dict, fields}
use ckb_vm_sail_verify.Audit.Site.{Files, regular}

-- line.strip() and not line.lstrip().startswith('#')
abbrev pub is_row : String → Bool
is_row line = not (is_blank line) && not (starts_with "#" (skip_spaces line))

-- line.split()[0] == identity
unfoldable pub names_signer : String → List String → Bool
names_signer identity [] = false
names_signer identity (word ∷ rest) = str_eq word identity

abbrev pub is_approval : String → String → Bool
is_approval identity line = is_row line && names_signer identity (words line)

unfoldable pub has_approval : String → List String → Bool
has_approval identity [] = false
has_approval identity (line ∷ rest) =
    if is_approval identity line then true else has_approval identity rest

-- The words that do not restrict a key to other namespaces.
unfoldable pub unrestricted : List String → List String
unrestricted [] = []
unrestricted (word ∷ rest) =
    let kept = unrestricted rest in if starts_with "namespaces=" word then kept else word ∷ kept

unfoldable pub key_words : List String → List String
key_words [] = []
key_words (word ∷ rest) = unrestricted rest

-- The keys of the identity, restricted to git's namespace.
unfoldable pub git_keys : String → List String → List String
git_keys identity [] = []
git_keys identity (line ∷ rest) =
    let keys = git_keys identity rest in
    if is_approval identity line
    then append identity (append " namespaces=\"git\" " (spaced (key_words (words line)))) ∷ keys
    else keys

-- Whether a command ended with 0, and what it wrote.
pub record Ran : Type 0 where
  pub passed : Bool
  pub output : String

module _ (files : Files) (read_text : files.FilePath → Result String) where
  open files use {FilePath}

  unfoldable pub approved_identity : FilePath → String → Result FilePath
  approved_identity allowed identity = do
    path ← regular files allowed
    body ← read_text path
    require (has_approval identity (lines body))
        ("identity is not an approved signer: " <> identity)
    ok path

  module _
      -- ssh-keygen -Y verify, by the signers in a file: this identity and namespace signed the payload
      (is_signed : FilePath → String → String → FilePath → FilePath → Result Bool) where
    unfoldable pub verify_ssh_signature :
        FilePath → String → String → FilePath → FilePath → String → Result (Unit {0})
    verify_ssh_signature allowed identity namespace signature payload label = do
      path ← approved_identity allowed identity
      passed ← is_signed path identity namespace signature payload
      require passed (label <> " signature verification failed")

  module _
      -- git verify-tag, by these lines of signers, with both outputs; and git rev-parse --verify
      (git_verify_tag : List String → String → Result Ran) (rev_parse : String → Result Ran) where
    unfoldable pub verify_tag : String → FilePath → String → String → Result Value
    verify_tag version allowed identity candidate = do
      path ← approved_identity allowed identity
      body ← read_text path
      verify ← git_verify_tag (git_keys identity (lines body)) version
      require verify.passed ("tag signature verification failed: " <> version)
      require (occurs (append "Good \"git\" signature for " (append identity " ")) verify.output)
          "tag is not signed by the approved identity"
      target ← rev_parse (append version "^{commit}")
      require (target.passed && str_eq (strip target.output) candidate)
          "tag does not point at the candidate"
      tag ← rev_parse (append "refs/tags/" version)
      require tag.passed ("tag object absent: " <> version)
      ok (
          dict (
            fields (
              ("tag", str version)
              ∷ ("tag_object", str (strip tag.output))
              ∷ ("commit", str candidate)
              ∷ ("signer", str identity)
              ∷ ("verified", bool true)
              ∷ [])))

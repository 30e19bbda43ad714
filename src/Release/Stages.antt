-- ===== src/Release/Stages.antt =====
-- `text`, `linked`, `reference` and `check_stages` of scripts/release_common.py. The digest of an
-- evidence file, by its name below the evidence directory, is a parameter.
pub mod Passed
use ckb_vm_sail_verify.Base.{
  String, ℕ, Bool, true, false, ◌&&◌, not, Option, none, some, List, [], ◌∷◌, str_eq, if◌then◌else◌,
  pos, ◌<>◌, zero,
}
use ckb_vm_sail_verify.Base.Text.{is_blank}
use ckb_vm_sail_verify.Base.Result.{
  Result, ok, err, runtime_error, type_error, require, ◌>>=◌, ◌>>◌,
}
use ckb_vm_sail_verify.Base.Json.{
  Value, null, int, str, list, dict, Items, nil, cons, find, item, elements,
}
use ckb_vm_sail_verify.Release.Names.{safe_name}
use ckb_vm_sail_verify.Release.Manifest.{fields, digest}

unfoldable pub text : Value → String → Result String
text (str s) label = do require (not (is_blank s)) label; ok s
text _ label = err (runtime_error label)

abbrev pub or_null : Option Value → Value
or_null none = null
or_null (some v) = v

-- row.get('name')
abbrev pub name_in : Value → Result Value
name_in (dict fs) = ok (or_null (find "name" fs))
name_in _ = err type_error

unfoldable pub names_in : List Value → Result (List Value)
names_in [] = ok []
names_in (row ∷ rows) = do name ← name_in row; names ← names_in rows; ok (name ∷ names)

-- the values are these texts
abbrev pub is_text : Value → String → Bool
is_text (str s) t = str_eq s t
is_text _ t = false

unfoldable pub are_texts : List Value → List String → Bool
are_texts [] [] = true
are_texts (v ∷ vs) (t ∷ ts) = is_text v t && are_texts vs ts
are_texts _ _ = false

-- type(argv) is list and argv and all(type(a) is str and a for a in argv)
abbrev is_argument : Value → Bool
is_argument (str s) = not (str_eq s "")
is_argument _ = false

abbrev are_arguments : List Value → Bool
are_arguments [] = true
are_arguments (v ∷ vs) = is_argument v && are_arguments vs

abbrev pub is_argv : Value → Bool
is_argv (list (cons v rest)) = is_argument v && are_arguments (elements rest)
is_argv _ = false

-- same(value, 0): the JSON text is `0`
abbrev pub is_zero : Value → Bool
is_zero (int (pos zero)) = true
is_zero _ = false

module _ (sha_of : String → Result String) where
  -- `member` refuses unsafe names; what it tests of the file is in `sha_of`
  unfoldable pub linked : String → Value → Result String
  linked name given = do
    expected ← digest given "evidence hash"
    safe ← safe_name (str name)
    found ← sha_of safe
    require (str_eq found expected) "evidence hash differs"
    ok safe

  -- the path that they return is this name below the directory
  unfoldable pub reference : Value → String → Result String
  reference row label = do
    fields row ("path" ∷ "sha256" ∷ []) (label <> " reference")
    path ← item row "path"
    name ← text path (label <> " path")
    given ← item row "sha256"
    linked name given

  unfoldable pub check_stage : Value → Result (Unit {0})
  check_stage row = do
    fields row ("name" ∷ "argv" ∷ "cwd" ∷ "exit_code" ∷ "stdout" ∷ "stderr" ∷ []) "stage"
    argv ← item row "argv"
    require (is_argv argv) "stage argv"
    code ← item row "exit_code"
    require (is_zero code) "stage failed"
    stdout ← item row "stdout"
    _ ← reference stdout "stdout"
    stderr ← item row "stderr"
    _ ← reference stderr "stderr"
    ok tt

  unfoldable pub check_each : List Value → Result (Unit {0})
  check_each [] = ok tt
  check_each (row ∷ rows) = do check_stage row; check_each rows

  unfoldable pub check_stages : Value → List String → Result (Unit {0})
  check_stages (list rows) expected = do
    names ← names_in (elements rows)
    require (are_texts names expected) "stage inventory"
    check_each (elements rows)
  check_stages _ expected = err (runtime_error "stage inventory")

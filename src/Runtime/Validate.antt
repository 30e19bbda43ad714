-- ===== src/Runtime/Validate.antt =====
-- `validate` of scripts/runtime_evidence.py: a report on the corpus, against the directory of its
-- artifacts.
pub mod Validated
use Prim.Native.Char.{code}
use ckb_vm_sail_verify.Base.{
  String, ℕ, suc, Bool, true, false, ◌&&◌, ◌||◌, not, List, [], ◌∷◌, ◌++◌, map, str_eq,
  if◌then◌else◌, ◌==◌, leb, pos, length, all,
}
use ckb_vm_sail_verify.Base.Result.{
  Result, ok, err, runtime_error, type_error, require, ◌>>=◌, ◌>>◌,
}
use ckb_vm_sail_verify.Base.Text.{append}
use ckb_vm_sail_verify.Base.Json.{
  Value, null, bool, int, str, dict, Fields, end, field, fields, item, is_str, truthy,
}
use ckb_vm_sail_verify.Release.Names.{parts_of}
use ckb_vm_sail_verify.Release.Manifest.{is_one_of}
use ckb_vm_sail_verify.Proof.{are_distinct}
use ckb_vm_sail_verify.Audit.Checks.{expect, reach, reads, reads_number, rows_of, within}
use ckb_vm_sail_verify.Audit.Package.{last_part}
use ckb_vm_sail_verify.Audit.Site.{Files}
use ckb_vm_sail_verify.Runtime.Case.{reads_exactly, check_case}
use ckb_vm_sail_verify.Runtime.Mutations.{text_at, check_mutations}

abbrev pub family_names : List String
family_names = "ADD" ∷ "ADDI" ∷ "BEQ" ∷ []

unfoldable pub ids_of : List Value → Result (List String)
ids_of [] = ok []
ids_of (row ∷ rows) = do id ← text_at row "id"; ids ← ids_of rows; ok (id ∷ ids)

-- [a-z0-9]
abbrev pub is_id_char : ℕ → Bool
is_id_char c = leb 97 c && leb c 122 || leb 48 c && leb c 57

-- [a-z0-9-]*
unfoldable pub are_id_chars : String → Bool
are_id_chars String.[] = true
are_id_chars (String.◌∷◌ c s) = (is_id_char (code c) || code c == 45) && are_id_chars s

-- [a-z0-9][a-z0-9-]*
unfoldable pub is_case_id : String → Bool
is_case_id String.[] = false
is_case_id (String.◌∷◌ c s) = is_id_char (code c) && are_id_chars s

-- {'total': n, 'failures': 0, 'mutations_passed': True, 'passed': True}
abbrev pub corpus_summary : ℕ → Value
corpus_summary n = dict (
    fields (
      ("total", int (pos n))
      ∷ ("failures", int (pos 0))
      ∷ ("mutations_passed", bool true)
      ∷ ("passed", bool true)
      ∷ []))

unfoldable pub check_corpus : Value → Value → Result (List Value)
check_corpus report environment = do
  expect
      (reads_number report ("schema_version" ∷ []) 3
        ∷ reads report ("mode" ∷ []) (str "corpus")
        ∷ reads report ("terminal_policy" ∷ []) (str "exact")
        ∷ [])
      "wrong runtime report schema/mode"
  expect (reads_exactly report ("environment" ∷ []) environment ∷ [])
      "runtime environment not approved"
  given ← item report "results"
  rows ← rows_of given
  ids ← ids_of rows
  require (leb 10 (length rows) && are_distinct ids) "too few/duplicate corpus cases"
  expect (reads_exactly report ("summary" ∷ []) (corpus_summary (length rows)) ∷ [])
      "runtime summary failure or inconsistent counts"
  ok rows

unfoldable pub families_of : List (String × Value) → Result (List String)
families_of [] = ok []
families_of ((name, artifact) ∷ cases) = do
  case ← item artifact "case"
  family ← text_at case "family"
  others ← families_of cases
  ok (family ∷ others)

-- families[name]
abbrev pub count_in : List String → String → ℕ
count_in [] name = 0
count_in (x ∷ xs) name = let n = count_in xs name in if str_eq x name then suc n else n

unfoldable pub check_families : List String → Result (Unit {0})
check_families families = do
  require (within families family_names && within family_names families)
      "missing required instruction family"
  require (all (λ name. leb 10 (count_in families name)) family_names)
      "at least 10 cases per instruction family"

abbrev pub family_counts : List String → List String → Fields
family_counts families [] = end
family_counts families (name ∷ names) =
    field name (int (pos (count_in families name))) (family_counts families names)

-- {name: digest}
abbrev pub hash_fields : List (String × String) → Fields
hash_fields [] = end
hash_fields ((name, hash) ∷ rest) = field name (str hash) (hash_fields rest)

abbrev pub hash_names : List (String × String) → List String
hash_names [] = []
hash_names ((name, hash) ∷ rest) = name ∷ hash_names rest

abbrev pub is_replay : Value → Bool
is_replay v = is_str v && truthy v

-- isinstance(recorded['replay'], str) and recorded['replay']
unfoldable pub reads_replay : Value → Result Bool
reads_replay recorded = do w ← item recorded "replay"; ok (is_replay w)

unfoldable pub check_recorded : Value → Value → Value → Result (Unit {0})
check_recorded recorded report environment = do
  seed ← item report "seed"
  mutations ← item report "mutations"
  expect
      (reads_number recorded ("schema_version" ∷ []) 3
        ∷ reads_exactly recorded ("environment" ∷ []) environment
        ∷ reads_exactly recorded ("seed" ∷ []) seed
        ∷ reads_exactly recorded ("summary" ∷ []) mutations
        ∷ reads_replay recorded
        ∷ [])
      "mutation artifact/report mismatch"

module _ (files : Files)
    -- {p.name for p in path.iterdir()}
    (entries : files.FilePath → Result (List String)) where
  open files use {FilePath, child, resolve, is_symlink, sha, read}

  -- One case: its artifact in the directory, and the digest of this file.
  unfoldable pub take_case : FilePath → Value → Value → Result (String × Value × String)
  take_case directory environment row = do
    id ← text_at row "id"
    require (is_case_id id) "unsafe case id"
    recorded ← text_at row "artifact"
    require (str_eq (last_part (parts_of recorded)) (append id ".json"))
        "recorded artifact filename differs"
    let path = child directory (append id ".json")
    require (not (is_symlink path)) "linked case artifact"
    artifact ← read path
    check_case row artifact environment
    hash ← sha path
    ok (id, artifact, hash)

  unfoldable pub take_cases :
      FilePath → Value → List Value → Result (List (String × Value) × List (String × String))
  take_cases directory environment [] = ok ([], [])
  take_cases directory environment (row ∷ rows) = do
    (id, artifact, hash) ← take_case directory environment row
    (cases, hashes) ← take_cases directory environment rows
    ok ((id, artifact) ∷ cases, (append id ".json", hash) ∷ hashes)

  unfoldable pub validate : FilePath → FilePath → Value → Result Value
  validate report_path artifact_directory environment = do
    let directory = resolve artifact_directory
    report ← read report_path
    rows ← check_corpus report environment
    (cases, hashes) ← take_cases directory environment rows
    families ← families_of cases
    check_families families
    let mutation_file = child directory "mutations.json"
    require (not (is_symlink mutation_file)) "linked mutation artifact"
    recorded ← read mutation_file
    check_recorded recorded report environment
    summary ← item report "mutations"
    mutations ← check_mutations summary cases
    hash ← sha mutation_file
    let all_hashes = hashes ++ (("mutations.json", hash) ∷ [])
    found ← entries directory
    require (within found (hash_names all_hashes) && within (hash_names all_hashes) found)
        "unexpected/missing artifact entry"
    report_hash ← sha report_path
    ok (
        dict (
          fields (
            ("status", str "runtime_evidence_verified")
            ∷ ("report_sha256", str report_hash)
            ∷ ("artifact_sha256", dict (hash_fields all_hashes))
            ∷ ("cases", int (pos (length cases)))
            ∷ ("families", dict (family_counts families family_names))
            ∷ ("mutations", mutations)
            ∷ ("release_claimed", bool false)
            ∷ [])))

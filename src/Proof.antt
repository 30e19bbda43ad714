-- ===== src/Proof.antt =====
-- scripts/check_proof.py: the audit of the axioms of the final theorem, `parse_audit`,
-- `boundary_hashes` and `check_audit`. `json.loads` and the digest of a canonical JSON text are
-- parameters.
pub mod Reviewed
pub mod Failure
use ckb_vm_sail_verify.Base.{
  String, Bool, true, false, ◌&&◌, ◌||◌, not, List, [], ◌∷◌, ◌++◌, all, map, if◌then◌else◌, str_eq,
}
use ckb_vm_sail_verify.Base.Result.{
  Result, ok, err, runtime_error, type_error, require, ◌>>=◌, ◌>>◌,
}
use ckb_vm_sail_verify.Base.Text.{lines, starts_with}
use ckb_vm_sail_verify.Base.Sorted.{sorted}
use ckb_vm_sail_verify.Base.Json.{
  Value, str, list, dict, Items, nil, cons, Fields, end, field, item, items, equal,
}
use ckb_vm_sail_verify.Audit.Checks.{texts_of, fields_of}

-- text[len(prefix):]
unfoldable pub after_prefix : String → String → String
after_prefix String.[] s = s
after_prefix (String.◌∷◌ c p) String.[] = String.[]
after_prefix (String.◌∷◌ c p) (String.◌∷◌ d s) = after_prefix p s

abbrev pub marker : String
marker = "PROOF_AUDIT_JSON="

-- The lines of a log that carry the marker, without it.
unfoldable pub marked : List String → List String
unfolding after_prefix
marked [] = []
marked (line ∷ rest) =
    let rows = marked rest in
    if starts_with marker line then after_prefix marker line ∷ rows else rows

unfoldable pub only_row : List String → Result String
only_row (row ∷ []) = ok row
only_row _ = err (runtime_error "expected exactly one Lean environment audit record")

-- The exporter writes lists of texts.
unfoldable pub names_of : Value → Result (List String)
names_of (list vs) = texts_of vs
names_of _ = err type_error

-- a dict of lists of names
unfoldable pub groups_of : Fields → Result (List (String × List String))
groups_of end = ok []
groups_of (field k v rest) = do
  names ← names_of v
  groups ← groups_of rest
  ok ((k, names) ∷ groups)

-- value[key], a dict of lists of names
unfoldable pub groups_at : Value → String → Result (List (String × List String))
groups_at v k = do w ← item v k; fs ← fields_of w; groups_of fs

abbrev pub includes : List String → String → Bool
includes [] k = false
includes (x ∷ xs) k = str_eq x k || includes xs k

-- len(set(names)) == len(names)
unfoldable pub are_distinct : List String → Bool
are_distinct [] = true
are_distinct (x ∷ xs) = not (includes xs x) && are_distinct xs

-- not ('sorryAx' in names or len(set(names)) != len(names))
unfoldable pub is_clean : List String → Bool
is_clean names = not (includes names "sorryAx") && are_distinct names

abbrev pub all_clean : List (String × List String) → Bool
all_clean [] = true
all_clean ((k, names) ∷ rest) = is_clean names && all_clean rest

-- [name for group in groups.values() for name in group]
abbrev pub flatten : List (String × List String) → List String
flatten [] = []
flatten ((k, names) ∷ rest) = names ++ flatten rest

-- {name: sorted(deps) for name, deps in groups.items()}
abbrev pub sorted_groups : List (String × List String) → Fields
sorted_groups [] = end
sorted_groups ((k, names) ∷ rest) =
    field k (list (items (map str (sorted names)))) (sorted_groups rest)

unfoldable pub require_equal : Value → Value → String → Result (Unit {0})
require_equal actual expected label = require (equal actual expected) label

unfoldable pub same_texts : List String → List String → Bool
same_texts [] [] = true
same_texts (x ∷ xs) (y ∷ ys) = str_eq x y && same_texts xs ys
same_texts _ _ = false

-- The axioms of a wrapper or a witness: reviewed, and without `sorryAx`.
unfoldable pub check_groups : Value → Value → String → Result (Unit {0})
check_groups audit policy key = do
  groups ← groups_at audit key
  reviewed ← item policy key
  require_equal (dict (sorted_groups groups)) reviewed "axiom sets"
  require (all_clean groups) "sorryAx or duplicate axiom"

-- The witnesses are tested for `sorryAx` first.
unfoldable pub check_witnesses : Value → Value → Result (Unit {0})
check_witnesses audit policy = do
  groups ← groups_at audit "witness_axioms"
  require (all_clean groups) "sorryAx or duplicate axiom in non-vacuity witnesses"
  reviewed ← item policy "witness_axioms"
  require_equal (dict (sorted_groups groups)) reviewed "non-vacuity witness axiom sets"

unfoldable pub check_axioms : Value → Value → Result (Unit {0})
check_axioms audit policy = do
  given ← item audit "axioms"
  names ← names_of given
  require (is_clean names) "sorryAx or duplicate axiom in final theorem"
  groups ← groups_at policy "axioms"
  require (same_texts (sorted names) (sorted (flatten groups))) "final theorem axiom set"

module _ (loads : String → Result Value) (digest : Value → String) where
  unfoldable pub parse_audit : String → Result Value
  parse_audit log = do row ← only_row (marked (lines log)); loads row

  unfoldable pub hashes : Fields → Fields
  hashes end = end
  hashes (field k v rest) = field k (str (digest v)) (hashes rest)

  unfoldable pub boundary_hashes : Value → Result Value
  boundary_hashes audit = do
    boundary ← item audit "boundary"
    fs ← fields_of boundary
    ok (dict (hashes fs))

  unfoldable pub check_audit : Value → Value → Result (Unit {0})
  check_audit audit policy = do
    theorem ← item audit "theorem"
    expected ← item policy "theorem"
    require_equal theorem expected "theorem name"
    check_axioms audit policy
    found ← boundary_hashes audit
    reviewed ← item policy "boundary_sha256"
    require_equal found reviewed "elaborated theorem signature"
    check_groups audit policy "contract_axioms"
    check_witnesses audit policy

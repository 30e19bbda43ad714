-- ===== src/Proof/Failure.antt =====
-- `check_failure` of scripts/rocq_spike.py: which rejections of the compiler count, by its log.
use Prim.Native.Char.{code}
use ckb_vm_sail_verify.Base.{
  String, ℕ, ◌+◌, Bool, true, false, ◌&&◌, ◌||◌, not, List, [], ◌∷◌, ◌++◌, str_eq, if◌then◌else◌,
  ◌==◌, leb, map,
}
use ckb_vm_sail_verify.Base.Result.{Result, ok, err, runtime_error, require, ◌>>=◌, ◌>>◌}
use ckb_vm_sail_verify.Base.Text.{push, starts_with, ends_with, occurs, spaced, words}
use ckb_vm_sail_verify.Proof.{after_prefix}

-- A letter of either case, as `re.I` folds it onto the lower one; three letters have other forms.
unfoldable pub fold_case : ℕ → ℕ
fold_case c =
    if leb 65 c && leb c 90
    then c + 32
    else if c == 0x130 || c == 0x131
    then 105
    else if c == 0x17f
    then 115
    else if c == 0x212a
    then 107
    else c

unfoldable pub starts_folded : String → String → Bool
unfolding fold_case
starts_folded String.[] s = true
starts_folded (String.◌∷◌ c p) String.[] = false
starts_folded (String.◌∷◌ c p) (String.◌∷◌ d s) = code c == fold_case (code d) && starts_folded p s

unfoldable pub occurs_folded : String → String → Bool
unfolding starts_folded
occurs_folded part String.[] = starts_folded part String.[]
occurs_folded part (String.◌∷◌ c s) = starts_folded part (String.◌∷◌ c s) || occurs_folded part s

abbrev pub infra_failures : List String
infra_failures =
    "out of memory" ∷ "stack overflow" ∷ "segmentation fault" ∷ "killed" ∷ "time out" ∷ "timed out"
    ∷ "cannot find a physical path" ∷ "cannot find library" ∷ "no such file" ∷ "anomaly" ∷ []

unfoldable pub any_folded : List String → String → Bool
any_folded [] log = false
any_folded (part ∷ parts) log = occurs_folded part log || any_folded parts log

-- INFRA_FAILURE.search(log)
unfoldable pub is_infra_failure : String → Bool
is_infra_failure log = any_folded infra_failures log

-- text.split('\n'): where `^` matches
unfoldable pub line_starts : String → List String
line_starts String.[] = String.[] ∷ []
line_starts (String.◌∷◌ c s) =
    let rest = line_starts s in if code c == 10 then String.[] ∷ rest else push c rest

-- The words of each error, from its line on to the next one, and the words before the first error.
unfoldable pub error_words : List String → List String × List (List String)
error_words [] = ([], [])
error_words (line ∷ rest) =
    let (before, errors) = error_words rest in
    if starts_with "Error:" line
    then ([], (words (after_prefix "Error:" line) ++ before) ∷ errors)
    else (words line ++ before, errors)

-- [' '.join(error.split()) for error in errors]
unfoldable pub error_messages : String → List String
error_messages log = map spaced ((error_words (line_starts log)).1)

unfoldable pub only_error : List String → String → Result String
only_error (message ∷ []) kind = ok message
only_error _ kind = err (runtime_error "expected exactly one compiler error")

abbrev pub rust_error : String
rust_error = "The term \"result bool\" has type \"Type -> Type\" which should be Set, Prop or Type."

abbrev pub sail_error : String
sail_error = "The reference e_div was not found in the current environment."

unfoldable pub check_message : String → String → Result (Unit {0})
check_message kind message =
    if str_eq kind "rust"
    then require (occurs "core_cmp_PartialEq_t" message && ends_with rust_error message)
        "rust: failure does not match the reviewed result-type conflict"
    else if str_eq kind "sail"
    then require (str_eq message sail_error)
        "sail: failure does not match the reviewed missing e_div"
    else err (runtime_error "unknown NO-GO classification")

-- code == 1, which True is too
unfoldable pub check_failure : String → Bool → String → Result (Unit {0})
check_failure kind is_one log = do
  require is_one "expected compiler rejection with exit 1"
  require (not (is_infra_failure log)) "infrastructure failure is not NO-GO evidence"
  message ← only_error (error_messages log) kind
  check_message kind message

-- ===== src/Release/Stages/Passed.antt =====
-- What a stage list that passes shows.
use ckb_vm_sail_verify.Base.{
  String, ◌≡◌, refl, ap, ◌∙◌, true, Option, none, some, List, [], ◌∷◌, eq_iff, arith, pos, zero,
  &&-eq-true,
}
use ckb_vm_sail_verify.Base.Result.{Result, ok}
use ckb_vm_sail_verify.Base.Result.Returns.{
  Returns, Returns-ok, Returns-err, Returns-bind, Returns-require, Returns-self, ok-injective,
}
use ckb_vm_sail_verify.Base.Json.{Fields, Value, int, str, list, dict, find, item, Items, elements}
use ckb_vm_sail_verify.Release.Names.Safe.{IsSafe, safe_name_iff}
use ckb_vm_sail_verify.Release.Manifest.Members.{digest-Returns}
use ckb_vm_sail_verify.Release.Stages.{
  text, or_null, name_in, names_in, is_text, are_texts, is_argv, is_zero, linked, reference,
  check_stage, check_each, check_stages,
}

pub text-Returns : (v : Value) (label : String) → Returns (λ s. v ≡ str s) (text v label)
unfolding text
text-Returns (str s) label = Returns-require _ λ _. Returns-ok s refl
text-Returns v label = Returns-err _

module _ (sha_of : String → Result String) where
  -- The row names a file, safely, and has the digest of its bytes.
  pub record IsReference (row : Value) : Type 0 where
    pub path : String
    pub sha256 : String
    pub has_path : item row "path" ≡ ok (str path)
    pub has_digest : item row "sha256" ≡ ok (str sha256)
    pub safe : IsSafe path
    pub found : sha_of path ≡ ok sha256

  -- The stage of this name ended with 0, and its two output files are those that it ended with.
  pub record IsPassed (row : Value) (name : String) : Type 0 where
    pub has_name : item row "name" ≡ ok (str name)
    pub code_zero : item row "exit_code" ≡ ok (int (pos 0))
    pub argv : Value
    pub has_argv : item row "argv" ≡ ok argv
    pub argv_texts : is_argv argv ≡ true
    pub stdout : Value
    pub stderr : Value
    pub has_stdout : item row "stdout" ≡ ok stdout
    pub has_stderr : item row "stderr" ≡ ok stderr
    pub stdout_kept : IsReference stdout
    pub stderr_kept : IsReference stderr

  abbrev pub ArePassed : List Value → List String → Type 0
  ArePassed [] [] = Unit
  ArePassed (row ∷ rows) (name ∷ names) = IsPassed row name × ArePassed rows names
  ArePassed _ _ = ⊥

  pub reference-IsReference :
      (row : Value) (label : String)
      → Returns (λ name. (r : IsReference row) × (r.path ≡ name)) (reference sha_of row label)
  unfolding reference linked
  reference-IsReference row label = Returns-bind λ _ _. Returns-bind λ path has_path.
      Returns-bind λ name is_name. Returns-bind λ given has_given.
        Returns-bind λ expected is_expected. Returns-bind λ safe is_safe.
          Returns-bind λ found is_found. Returns-require _ λ same. Returns-ok safe (
            let (same_name, safe') = (safe_name_iff (str name) safe).0 is_safe in
            let (same_hash, _) = (digest-Returns given _).at expected is_expected in
            let same_path = (text-Returns path _).at name is_name in
            let eq = (eq_iff found expected).0 same in
            (
              record {
                path = safe;
                sha256 = expected;
                has_path = has_path ∙ ap ok (same_path ∙ same_name);
                has_digest = has_given ∙ ap ok same_hash;
                safe = safe';
                found = is_found ∙ ap ok eq;
              },
              refl,
            ))

  zero-value : (v : Value) → is_zero v ≡ true → v ≡ int (pos 0)
  zero-value (int (pos zero)) h = refl
  zero-value v h = cc

  check_stage-IsPassed :
      (row : Value) (name : String)
      → item row "name" ≡ ok (str name)
      → Returns (λ _. IsPassed row name) (check_stage sha_of row)
  unfolding check_stage
  check_stage-IsPassed row name has_name = Returns-bind λ _ _. Returns-bind λ argv has_argv.
      Returns-require _ λ argv_texts. Returns-bind λ code has_code. Returns-require _ λ code_zero.
        Returns-bind λ stdout has_stdout. Returns-bind λ u first. Returns-bind λ stderr has_stderr.
          Returns-bind λ v second. Returns-ok tt (record {
            has_name = has_name;
            code_zero = has_code ∙ ap ok (zero-value code code_zero);
            argv = argv;
            has_argv = has_argv;
            argv_texts = argv_texts;
            stdout = stdout;
            stderr = stderr;
            has_stdout = has_stdout;
            has_stderr = has_stderr;
            stdout_kept = ((reference-IsReference stdout _).at u first).0;
            stderr_kept = ((reference-IsReference stderr _).at v second).0;
          })

  text-value : (v : Value) (t : String) → is_text v t ≡ true → v ≡ str t
  text-value (str s) t h = ap str ((eq_iff s t).0 h)
  text-value v t h = cc

  item-found : (fs : Fields) (w : Value) → find "name" fs ≡ some w → item (dict fs) "name" ≡ ok w
  item-found fs w f = ground arith

  name_in-item :
      (row v : Value) (t : String)
      → name_in row ≡ ok v
      → is_text v t ≡ true
      → item row "name" ≡ ok (str t)
  name_in-item (dict fs) v t e h =
      by_find (find "name" fs) refl (ok-injective _ v e ∙ text-value v t h)
    where
      by_find :
          (o : Option Value)
          → find "name" fs ≡ o
          → or_null o ≡ str t
          → item (dict fs) "name" ≡ ok (str t)
      by_find none f k = absurd (cc k)
      by_find (some w) f k = item-found fs w f ∙ ap ok k
  name_in-item row v t e h = cc

  -- The names of the rows are the expected ones, row by row.
  Named : List Value → List String → Type 0
  Named [] [] = Unit
  Named (row ∷ rows) (t ∷ ts) = (item row "name" ≡ ok (str t)) × Named rows ts
  Named _ _ = ⊥

  names_in-Named :
      (rows : List Value) (expected : List String)
      → Returns (λ vs. are_texts vs expected ≡ true → Named rows expected) (names_in rows)
  unfolding names_in are_texts Named
  names_in-Named [] [] = Returns-ok [] (λ _. tt)
  names_in-Named [] (t ∷ ts) = Returns-ok [] (λ h. cc h)
  names_in-Named (row ∷ rows) [] =
      Returns-bind λ v _. Returns-bind λ vs _. Returns-ok (v ∷ vs) (λ h. cc h)
  names_in-Named (row ∷ rows) (t ∷ ts) = Returns-bind λ v e. Returns-bind λ vs es.
      Returns-ok (v ∷ vs) (λ h.
        let (first, rest) = &&-eq-true (is_text v t) (are_texts vs ts) h in
        (name_in-item row v t e first, (names_in-Named rows ts).at vs es rest))

  check_each-ArePassed :
      (rows : List Value) (expected : List String)
      → Named rows expected
      → Returns (λ _. ArePassed rows expected) (check_each sha_of rows)
  unfolding check_each Named
  check_each-ArePassed [] [] h = Returns-ok tt tt
  check_each-ArePassed [] (t ∷ ts) h = absurd h
  check_each-ArePassed (row ∷ rows) [] h = absurd h
  check_each-ArePassed (row ∷ rows) (t ∷ ts) h = Returns-bind λ u first. Returns-self _ λ v rest.
      ((check_stage-IsPassed row t h.0).at u first, (check_each-ArePassed rows ts h.1).at v rest)

  check_stages-ArePassed :
      (v : Value) (expected : List String)
      → Returns
          (λ _. (rows : Items) × (v ≡ list rows) × ArePassed (elements rows) expected)
          (check_stages sha_of v expected)
  unfolding check_stages
  check_stages-ArePassed (list rows) expected = Returns-bind λ names e. Returns-require _ λ same.
      Returns-self _ λ u each. (
        rows,
        refl,
        (check_each-ArePassed (elements rows) expected
              ((names_in-Named (elements rows) expected).at names e same)).at
            u each,
      )
  check_stages-ArePassed v expected = Returns-err _

  -- A list of stages that passes has one row for each expected name, in their order; each stage has
  -- that name, arguments, and the exit code 0, and its two references name files, safely, by the
  -- digests that these files have.
  pub check_stages_sound :
      (v : Value) (expected : List String)
      → check_stages sha_of v expected ≡ ok tt
      → (rows : Items) × (v ≡ list rows) × ArePassed (elements rows) expected
  check_stages_sound v expected h = (check_stages-ArePassed v expected).at tt h

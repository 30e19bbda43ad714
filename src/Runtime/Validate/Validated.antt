-- ===== src/Runtime/Validate/Validated.antt =====
-- What an accepted report on the corpus shows of the directory of its artifacts.
use ckb_vm_sail_verify.Base.{
  String, ◌≡◌, ◌≤◌, leb→le, true, &&-eq-true, List, [], ◌∷◌, all, In, here, there, leb,
}
use ckb_vm_sail_verify.Base.Result.{Result, ok}
use ckb_vm_sail_verify.Base.Result.Returns.{
  Returns, Returns-ok, Returns-bind, Returns-require, Returns-self, require-eq-true,
}
use ckb_vm_sail_verify.Base.Text.{append}
use ckb_vm_sail_verify.Base.Json.{Value, item}
use ckb_vm_sail_verify.Audit.Checks.{rows_of}
use ckb_vm_sail_verify.Audit.Checks.Facts.{Returns-expect}
use ckb_vm_sail_verify.Audit.Site.{Files}
use ckb_vm_sail_verify.Runtime.Case.Accepted.{IsAccepted, check_case_sound}
use ckb_vm_sail_verify.Runtime.Mutations.{text_at, matrix}
use ckb_vm_sail_verify.Runtime.Mutations.Matrix.{IsMutated, check_mutations_sound}
use ckb_vm_sail_verify.Runtime.Validate.{
  family_names, families_of, count_in, check_corpus, check_families, take_case, take_cases,
  validate,
}

check_families-counted :
    (families : List String)
    → Returns
        (λ _. (name : String) → In name family_names → 10 ≤ count_in families name)
        (check_families families)
unfolding check_families
check_families-counted families =
    Returns-require _
      λ _. Returns-self _ λ u h name m. leb→le _ _ (at family_names (require-eq-true _ _ u h) m)
  where
    at :
        {name : String} (names : List String)
        → all (λ n. leb 10 (count_in families n)) names ≡ true
        → In name names
        → leb 10 (count_in families name) ≡ true
    at [] h m = elim m [ ]
    at (n ∷ ns) h here = (&&-eq-true _ _ h).0
    at (n ∷ ns) h (there m) = at ns (&&-eq-true _ _ h).1 m

module _ (files : Files) (entries : files.FilePath → Result (List String)) where
  open files use {FilePath, child, resolve, read}

  -- Each row of the report has its artifact in the directory, and this case is accepted.
  pub data AreTaken (directory : FilePath) : List Value → List (String × Value) → Type 0 where
    no_case : AreTaken directory [] []
    case :
        {row : Value} {rows : List Value} {cases : List (String × Value)} (id : String)
        (artifact : Value)
        → text_at row "id" ≡ ok id
        → read (child directory (append id ".json")) ≡ ok artifact
        → IsAccepted row artifact
        → AreTaken directory rows cases
        → AreTaken directory (row ∷ rows) ((id, artifact) ∷ cases)

  record IsTaken (directory : FilePath) (row : Value) (id : String) (artifact : Value)
      : Type 0 where
    has_id : text_at row "id" ≡ ok id
    kept : read (child directory (append id ".json")) ≡ ok artifact
    accepted : IsAccepted row artifact

  take_case-IsTaken :
      (directory : FilePath) (environment row : Value)
      → Returns
          (λ taken. IsTaken directory row (taken.0) (taken.1))
          (take_case files entries directory environment row)
  unfolding take_case
  take_case-IsTaken directory environment row = Returns-bind λ id a. Returns-require _ λ _.
      Returns-bind λ recorded _. Returns-require _ λ _. Returns-require _ λ _.
        Returns-bind λ artifact b. Returns-bind λ u c. Returns-bind λ hash _.
          Returns-ok _ (record {
            has_id = a;
            kept = b;
            accepted = check_case_sound row artifact environment c;
          })

  take_cases-AreTaken :
      (directory : FilePath) (environment : Value) (rows : List Value)
      → Returns
          (λ taken. AreTaken directory rows (taken.0))
          (take_cases files entries directory environment rows)
  unfolding take_cases
  take_cases-AreTaken directory environment [] = Returns-ok _ no_case
  take_cases-AreTaken directory environment (row ∷ rows) = Returns-bind λ taken e.
      Returns-bind λ others f. Returns-ok _ (
        let t = (take_case-IsTaken directory environment row).at taken e in
        case (taken.0) (taken.1) t.has_id t.kept t.accepted
          ((take_cases-AreTaken directory environment rows).at others f))

  -- Every row of the report is an accepted case, there are ten cases of each family, and every mutation
  -- of every case is accounted for.
  pub record IsValidated (report_path artifact_directory : FilePath) : Type 0 where
    pub report : Value
    pub has_report : read report_path ≡ ok report
    pub given : Value
    pub has_results : item report "results" ≡ ok given
    pub rows : List Value
    pub has_rows : rows_of given ≡ ok rows
    pub cases : List (String × Value)
    pub taken : AreTaken (resolve artifact_directory) rows cases
    pub families : List String
    pub has_families : families_of cases ≡ ok families
    pub enough : (name : String) → In name family_names → 10 ≤ count_in families name
    pub mutations :
        (name kind : String) → In (name, kind) (matrix cases) → IsMutated cases name kind

  check_corpus-rows :
      (report environment : Value)
      → Returns
          (λ rows. (given : Value) × (item report "results" ≡ ok given) × (rows_of given ≡ ok rows))
          (check_corpus report environment)
  unfolding check_corpus
  check_corpus-rows report environment = Returns-expect _ _ λ _. Returns-expect _ _ λ _.
      Returns-bind λ given e. Returns-bind λ rows f.
        Returns-bind
          λ _ _. Returns-require _ λ _. Returns-expect _ _ λ _. Returns-ok rows (given, e, f)

  pub validate-IsValidated :
      (report_path artifact_directory : FilePath) (environment : Value)
      → Returns
          (λ _. IsValidated report_path artifact_directory)
          (validate files entries report_path artifact_directory environment)
  unfolding validate
  validate-IsValidated report_path artifact_directory environment = Returns-bind λ report a.
      Returns-bind λ rows b. Returns-bind λ taken c. Returns-bind λ families d. Returns-bind λ u e.
        Returns-require _ λ _. Returns-bind λ recorded _. Returns-bind λ _ _.
          Returns-bind λ summary _. Returns-bind λ mutations f. Returns-self _ λ _ _.
            let (given, has_results, has_rows) = (check_corpus-rows report environment).at rows b in
            record {
              report = report;
              has_report = a;
              given = given;
              has_results = has_results;
              rows = rows;
              has_rows = has_rows;
              cases = taken.0;
              taken =
                  (take_cases-AreTaken (resolve artifact_directory) environment rows).at taken c;
              families = families;
              has_families = d;
              enough = (check_families-counted families).at u e;
              mutations = check_mutations_sound summary mutations (taken.0) f;
            }

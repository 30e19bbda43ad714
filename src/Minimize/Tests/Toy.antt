-- ===== src/Minimize/Tests/Toy.antt =====
-- A small system for the tests. Its engines disagree on inputs that hold both of the words 7 and 9.
use ckb_vm_sail_verify.Base.{
  ℕ, Bool, true, false, ◌&&◌, ◌||◌, List, [], ◌∷◌, length, ◌==◌, str_eq, if◌then◌else◌, String,
  ◌<>◌, ℤ, pos, map,
}
use ckb_vm_sail_verify.Base.Result.{Result, ok, err, os_error, ◌>>=◌}
use ckb_vm_sail_verify.Base.Json.{Value, null, bool, int, str, list, dict, items, fields}
use ckb_vm_sail_verify.Minimize.Artifact.{program, hex_words, reset_state}
use ckb_vm_sail_verify.Minimize.Trial.{environment_keys, summary_of}
use ckb_vm_sail_verify.Minimize.Oracle.{System, Arguments}

abbrev has : ℕ → List ℕ → Bool
has n [] = false
has n (x ∷ xs) = n == x || has n xs

abbrev event : Value
event = dict (fields (("instruction", int (pos 7)) ∷ []))

abbrev trace : Value
trace = dict (fields (("events", list (items (event ∷ []))) ∷ []))

-- The comparison of a run on which the engines agree, or not.
abbrev comparison : Bool → Value
comparison true = dict (fields (("mismatch", null) ∷ []))
comparison false = dict (
    fields
      (("mismatch", dict (fields (("field", str "rd_value") ∷ ("step", int (pos 0)) ∷ []))) ∷ []))

abbrev class : Bool → Value
class passed = str (if passed then "match" else "unclassified_mismatch")

abbrev environment : Value
environment = dict (fields (map (λ k. (k, str "pinned")) environment_keys))

abbrev pub artifact : String → List ℕ → Bool → Value
artifact id words passed = dict (
    fields (
      ("schema_version", int (pos 3))
      ∷ (
        "case",
        dict (
            fields (
              ("id", str id) ∷ ("instructions", list (items (map (λ w. int (pos w)) words))) ∷ [])),
      )
      ∷ ("instructions_hex", hex_words words)
      ∷ ("initial_state", reset_state)
      ∷ ("error", null)
      ∷ ("ckb_trace", trace)
      ∷ ("sail_trace", trace)
      ∷ ("comparison", comparison passed)
      ∷ ("passed", bool passed)
      ∷ ("classification", class passed)
      ∷ ("environment", environment)
      ∷ []))

abbrev pub envelope : List ℕ → Bool → Value
envelope words passed = dict (
    fields (
      ("schema_version", int (pos 3))
      ∷ ("mode", str "replay")
      ∷ ("terminal_policy", str "exact")
      ∷ ("mutations", null)
      ∷ (
        "results",
        list (
            items (
              dict (
                fields (
                  ("id", str "candidate")
                  ∷ ("instructions", int (pos (length words)))
                  ∷ ("passed", bool passed)
                  ∷ ("classification", class passed)
                  ∷ ("comparison", comparison passed)
                  ∷ ("error", null)
                  ∷ []))
              ∷ [])),
      )
      ∷ ("environment", environment)
      ∷ ("summary", summary_of passed)
      ∷ []))

abbrev pub Files : Type 0
Files = List (String × Value)

abbrev read : String → Files → Result Value
read path [] = err (os_error path)
read path ((k, v) ∷ rest) = if str_eq k path then ok v else read path rest

abbrev input_of : List String → String
input_of (_ ∷ _ ∷ path ∷ _) = path
input_of _ = ""

abbrev evidence_of : List String → String
evidence_of (_ ∷ _ ∷ _ ∷ _ ∷ _ ∷ directory ∷ _) = directory <> "/candidate.json"
evidence_of _ = ""

abbrev replayed : String → String → Files → Result (List ℕ) → Result ℤ × Files
replayed evidence stdout w (err e) = (err e, w)
replayed evidence stdout w (ok words) =
    let passed = if has 7 words && has 9 words then false else true in
    (
      ok (pos (if passed then 0 else 1)),
      (evidence, artifact "candidate" words passed) ∷ (stdout, envelope words passed) ∷ w,
    )

-- Files by path. The differential binary replays its input and writes the evidence and the envelope.
abbrev pub toy : System
toy = record {
  World = Files;
  sha = λ path w. ok path;
  mkdir = λ path w. (ok tt, w);
  save = λ path v w. (ok tt, (path, v) ∷ w);
  save_report = λ r w. (ok tt, w);
  load = read;
  run = λ command stdout stderr w.
      replayed (evidence_of command) stdout w (read (input_of command) w >>= program);
}

abbrev pub arguments : ℕ → Arguments
arguments budget = record {
  differential_binary = "diff";
  sail_bin = "sail";
  sail_config = "config";
  sail_timeout = 30;
  timeout = 120;
  max_evaluations = budget;
  directory = "out";
  artifact = "recorded.json";
  script = "minimize_mismatch.py";
  classification = "unsupported";
  rationale = "test";
}

abbrev pub recorded : Value
recorded = artifact "original" (7 ∷ 3 ∷ 9 ∷ []) false

abbrev pub start : Files
start = ("recorded.json", recorded) ∷ []

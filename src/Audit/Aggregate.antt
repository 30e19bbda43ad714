-- ===== src/Audit/Aggregate.antt =====
-- `load_manifest`, `aggregate` and `main` of scripts/audit_release.py: one verdict over the six slots.
pub mod Verdict
pub mod Graded
pub mod Passed
pub mod Returned
use ckb_vm_sail_verify.Base.{
  String, ℕ, Bool, true, false, ◌&&◌, ◌||◌, not, Option, none, some, List, [], ◌∷◌, ◌++◌, str_eq,
  if◌then◌else◌, pos,
}
use ckb_vm_sail_verify.Base.Result.{Error, Result, ok, err, type_error, require, ◌>>=◌, ◌>>◌}
use ckb_vm_sail_verify.Base.Json.{
  Value, null, str, int, dict, Fields, end, field, fields, find, item, equal, is_none,
}
use ckb_vm_sail_verify.Release.Manifest.{is_hex_text}
use ckb_vm_sail_verify.Release.Manifest
use ckb_vm_sail_verify.Audit.Checks.{expect, reach, reads, reads_number, has_names}
use ckb_vm_sail_verify.Audit.Site.{Files, reference, ref}

abbrev pub slot_names : List String
slot_names = "runtime" ∷ "lean" ∷ "rocq" ∷ "clean_room" ∷ "release" ∷ "third_party" ∷ []

-- GIT_OID.fullmatch(value or '')
unfoldable pub is_oid : Value → Result Bool
is_oid (str s) = ok (is_hex_text 40 s)
is_oid null = ok false
is_oid _ = err type_error

unfoldable pub reads_oid : Value → List String → Result Bool
reads_oid v ks = do w ← reach v ks; is_oid w

unfoldable pub check_slot_names : Value → Result Bool
check_slot_names (dict fs) = has_names (dict fs) slot_names
check_slot_names _ = ok false

unfoldable pub check_manifest : Value → Result (Unit {0})
check_manifest manifest = do
  Manifest.fields manifest ("schema_version" ∷ "kind" ∷ "candidate" ∷ "slots" ∷ []) "audit manifest"
  expect
      (reads_number manifest ("schema_version" ∷ []) 2
        ∷ reads manifest ("kind" ∷ []) (str "release-audit-manifest-v2")
        ∷ reads_oid manifest ("candidate" ∷ [])
        ∷ [])
      "audit manifest identity"
  slots ← item manifest "slots"
  expect (check_slot_names slots ∷ []) "audit manifest slot inventory"

-- What is known of a slot: the row of its reference, and the summary of its validator or the error.
pub data Slot : Type 0 where
  deferred missing : Slot
  verified : Value → Value → Slot
  unfinished : Value → String → Slot
  invalid : Value → Error → Slot

-- the three results of a validator
unfoldable pub settle : Value → Result Value → Slot
settle row (ok summary) = verified row summary
settle row (err (Error.incomplete reason)) = unfinished row reason
settle row (err e) = invalid row e

-- a slot without a report
abbrev pub absent : String → Slot
absent name = if str_eq name "third_party" then deferred else missing

abbrev pub is_invalid : Slot → Bool
is_invalid (invalid _ _) = true
is_invalid _ = false

abbrev pub is_outstanding : Slot → Bool
is_outstanding missing = true
is_outstanding (unfinished _ _) = true
is_outstanding _ = false

abbrev pub is_deferred : Slot → Bool
is_deferred deferred = true
is_deferred _ = false

abbrev pub is_verified : Slot → Bool
is_verified (verified _ _) = true
is_verified _ = false

-- [name for name, row in slots.items() if test(row)]
unfoldable pub names_where : (Slot → Bool) → List (String × Slot) → List String
names_where test [] = []
names_where test ((name, slot) ∷ slots) =
    let rest = names_where test slots in if test slot then name ∷ rest else rest

abbrev pub snapshot_in : Slot → Option Value
snapshot_in (verified row (dict summary)) = find "source_snapshot_sha256" summary
snapshot_in _ = none

abbrev pub differs : Value → Option Value → Bool
differs current none = false
differs current (some v) = not (equal v current)

-- snapshots and set(snapshots.values()) != {current}
unfoldable pub is_drifted : Value → List (String × Slot) → Bool
is_drifted current [] = false
is_drifted current ((name, slot) ∷ slots) =
    differs current (snapshot_in slot) || is_drifted current slots

pub data Status : Type 0 where
  invalid incomplete passed : Status

-- 'invalid' if invalid else 'incomplete' if outstanding else 'passed'
unfoldable pub status_of : List String → List String → Status
status_of (name ∷ rest) outstanding = invalid
status_of [] (name ∷ rest) = incomplete
status_of [] [] = passed

unfoldable pub exit_code : Status → ℕ
exit_code invalid = 1
exit_code incomplete = 2
exit_code passed = 0

pub record Report : Type 0 where
  pub candidate : Value
  pub status : Status
  pub source_snapshot_sha256 : Value
  pub slots : List (String × Slot)
  pub invalid_names : List String
  pub outstanding : List String
  pub deferred_names : List String
  pub release_claimed : Bool
  pub third_party_reproduced : Bool

abbrev pub is_passed : Status → Bool
is_passed passed = true
is_passed _ = false

-- slots['third_party']['status'] == 'verified'
abbrev pub reproduced : List (String × Slot) → Bool
reproduced [] = false
reproduced ((name, slot) ∷ slots) =
    if str_eq name "third_party" then is_verified slot else reproduced slots

abbrev pub failed : Result (Unit {0}) → Bool
failed (ok _) = false
failed (err _) = true

-- ['public_claims'] if the claims failed, and 'source_snapshot' if a snapshot differs
unfoldable pub also : Bool → String → List String
also true name = name ∷ []
also false name = []

unfoldable pub report_of : Value → Value → List (String × Slot) → Bool → Report
report_of candidate current slots claims_failed =
    let more =
      also claims_failed "public_claims" ++ also (is_drifted current slots) "source_snapshot" in
    let bad = names_where is_invalid slots ++ more in
    let outstanding = names_where is_outstanding slots in
    let status = status_of bad outstanding in
    record {
      candidate = candidate;
      status = status;
      source_snapshot_sha256 = current;
      slots = slots;
      invalid_names = bad;
      outstanding = outstanding;
      deferred_names = names_where is_deferred slots;
      release_claimed = is_passed status;
      third_party_reproduced = reproduced slots;
    }

-- the report of `main` after `try`, and that of `except`
unfoldable pub concluded : Result (Report × ℕ) → Status × Bool × Bool × ℕ
concluded (ok (report, code)) =
    (report.status, report.release_claimed, report.third_party_reproduced, code)
concluded (err e) = (invalid, false, false, 1)

module _ (files : Files) (root : files.FilePath)
    -- VALIDATORS[name](path, candidate, root)
    (validators : String → files.FilePath → Value → Result Value)
    -- public_claims.check(root), and current_snapshot(root)
    (claims : Result (Unit {0})) (current_snapshot : Result Value) where
  open files use {FilePath, resolve, sha, read}

  unfoldable pub load_manifest : FilePath → Result Value
  load_manifest path = do manifest ← read path; check_manifest manifest; ok manifest

  -- for name, path in args: None, or a reference
  unfoldable pub slots_of : List (String × Option FilePath) → Result Fields
  slots_of [] = ok end
  slots_of ((name, none) ∷ args) = do rest ← slots_of args; ok (field name null rest)
  slots_of ((name, some path) ∷ args) = do
    row ← ref files root path
    rest ← slots_of args
    ok (field name row rest)

  unfoldable pub compose_manifest : Value → List (String × Option FilePath) → Result Value
  compose_manifest candidate args = do
    expect (is_oid candidate ∷ []) "--candidate must be a full commit OID"
    slots ← slots_of args
    ok (
        dict (
          fields (
            ("schema_version", int (pos 2))
            ∷ ("kind", str "release-audit-manifest-v2")
            ∷ ("candidate", candidate)
            ∷ ("slots", dict slots)
            ∷ [])))

  unfoldable pub validate : String → Value → Value → Result Value
  validate name row candidate = do
    path ← reference files root row name
    summary ← validators name path candidate
    hash ← sha path
    given ← item row "sha256"
    require (equal (str hash) given) "report changed during validation"
    ok summary

  abbrev pub slot_of : String → Value → Value → Slot
  slot_of name row candidate =
      if is_none row then absent name else settle row (validate name row candidate)

  unfoldable pub take_slots : Value → Value → List String → Result (List (String × Slot))
  take_slots rows candidate [] = ok []
  take_slots rows candidate (name ∷ names) = do
    row ← item rows name
    rest ← take_slots rows candidate names
    ok ((name, slot_of name row candidate) ∷ rest)

  unfoldable pub aggregate : Value → Result (Report × ℕ)
  aggregate manifest = do
    candidate ← item manifest "candidate"
    rows ← item manifest "slots"
    slots ← take_slots rows candidate slot_names
    snapshot ← current_snapshot
    current ← item snapshot "snapshot_sha256"
    let report = report_of candidate current slots (failed claims)
    ok (report, exit_code report.status)

  unfoldable pub attempt :
      Result Value → Result (Unit {0}) → Result (Unit {0}) → Result (Report × ℕ)
  attempt manifest written head = do m ← manifest; written; head; aggregate m

  -- The status, the claims and the exit code of `main`, after a manifest that was loaded or composed;
  -- writing it and asking git for the commit may raise. Where anything raises, the report says so.
  unfoldable pub main :
      Result Value → Result (Unit {0}) → Result (Unit {0}) → Status × Bool × Bool × ℕ
  main manifest written head = concluded (attempt manifest written head)

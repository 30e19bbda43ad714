-- ===== src/VirtualMachine/Evidence.antt =====
-- `evidence_members` of scripts/ephemeral_vm.py: where the files that the guest wrote belong. The path
-- of the canonical checkout, without its first slash, is a parameter, since the policy has it.
use ckb_vm_sail_verify.Base.{
  String, Bool, true, false, ◌&&◌, ◌||◌, not, Option, none, some, List, [], ◌∷◌, ◌++◌, str_eq,
  if◌then◌else◌,
}
use ckb_vm_sail_verify.Base.Result.{Result, ok, err, runtime_error, require, ◌>>=◌, ◌>>◌}
use ckb_vm_sail_verify.Base.Text.{append, starts_with, ends_with}
use ckb_vm_sail_verify.Release.Names.{split, join, is_absolute, all_plain}
use ckb_vm_sail_verify.Release.Manifest.{is_one_of}
use ckb_vm_sail_verify.Release.Inventory.{Item, Kind, is_file, is_directory, is_other}
use ckb_vm_sail_verify.Inputs.Chains.{all_but_last}
use ckb_vm_sail_verify.EvidenceBundle.Targets.{any_of}

abbrev pub diagnostic_suffixes : List String
diagnostic_suffixes = ".json" ∷ ".log" ∷ ".stdout" ∷ ".stderr" ∷ ".txt" ∷ []

abbrev pub restored_root_prefixes : List String
restored_root_prefixes = "isolated-" ∷ "aeneas-opam-" ∷ []

abbrev pub excluded_evidence_parts : List String
excluded_evidence_parts =
    "fixed-inputs" ∷ "cargo-target" ∷ "rust-tests-cargo-home" ∷ "runtime-cargo-home" ∷ []

-- The root of the evidence, or the directory of the guest on the host.
pub data Base : Type 0 where
  evidence guest : Base

-- ('evidence', relative) or ('guest', relative)
pub record Target : Type 0 where
  pub base : Base
  pub relative : String

-- text.startswith(prefixes)
unfoldable pub starts_with_any : List String → String → Bool
starts_with_any [] text = false
starts_with_any (p ∷ ps) text = starts_with p text || starts_with_any ps text

-- text.endswith(suffixes)
unfoldable pub ends_with_any : List String → String → Bool
ends_with_any [] text = false
ends_with_any (p ∷ ps) text = ends_with p text || ends_with_any ps text

unfoldable pub drop : String → String → String
drop String.[] s = s
drop (String.◌∷◌ c p) String.[] = String.[]
drop (String.◌∷◌ c p) (String.◌∷◌ d s) = drop p s

-- text[len(prefix):], if text.startswith(prefix)
abbrev pub after : String → String → Option String
after prefix text = if starts_with prefix text then some (drop prefix text) else none

abbrev pub first_part : List String → String
first_part [] = ""
first_part (x ∷ xs) = x

-- 'artifacts/boundary-check/'
abbrev pub boundary : String
boundary = "artifacts/boundary-check/"

-- GUEST_RUN without its first slash, and with one at its end
abbrev pub run : String
run = "home/clair/clean-room-run/"

abbrev pub evidence_target : String → Target
evidence_target rest = record { base = evidence; relative = append boundary rest }

abbrev pub guest_target : String → Target
guest_target rest = record { base = guest; relative = rest }

-- A name below artifacts/boundary-check: the clean-room output, or the diagnostics of another
-- generator, which are passed over in a directory that is left out.
unfoldable pub boundary_target : String → String → Bool → Result (Option Target)
boundary_target name rest is_excluded = do
  require (not (starts_with_any restored_root_prefixes (first_part (split rest))))
      "guest evidence member inside a restored installation root"
  if str_eq (first_part (split rest)) "clean-room"
      then (require (not is_excluded) "downloaded inputs and build caches are not evidence"
          >> ok (some (evidence_target rest)))
      else (require (ends_with_any diagnostic_suffixes name)
            "guest evidence member outside allowed prefixes"
          >> ok (if is_excluded then none else some (evidence_target rest)))

module _ (checkout : String) where
  -- canonical
  abbrev pub canonical : String
  canonical = append checkout "/"

  abbrev pub checkout_logs : String
  checkout_logs = append (join (all_but_last (split checkout))) "/clean-room-checkout-"

  abbrev pub logs_target : Option String → Result (Option Target)
  logs_target none = err (runtime_error "guest evidence member outside allowed prefixes")
  logs_target (some rest) = ok (some (guest_target (append "checkout-logs/" rest)))

  abbrev pub run_target : String → Option String → Result (Option Target)
  run_target name none = logs_target (after checkout_logs name)
  run_target name (some rest) = ok (some (guest_target rest))

  abbrev pub first_target : String → Option String → Result (Option Target)
  first_target name none = run_target name (after run name)
  first_target name (some rest) =
      boundary_target name rest (any_of excluded_evidence_parts (split name))

  -- Where a file of this name belongs: nowhere, if it is passed over.
  unfoldable pub target_of : String → Result (Option Target)
  target_of name = first_target name (after (append canonical boundary) name)

  abbrev pub names_of : List (String × Target) → List String
  names_of [] = []
  names_of ((name, _) ∷ rest) = name ∷ names_of rest

  abbrev pub kind_target : Kind → String → Result (Option Target)
  kind_target is_file name = target_of name
  kind_target is_directory name = ok none
  kind_target is_other name = err (runtime_error "special/link guest evidence member")

  unfoldable pub add_member :
      String → Option Target → List (String × Target) → Result (List (String × Target))
  add_member name none members = ok members
  add_member name (some target) members = do
    require (not (is_one_of (names_of members) name)) "duplicate guest evidence member"
    ok (members ++ (name, target) ∷ [])

  -- The loop, with the members so far.
  unfoldable pub add_members : List Item → List (String × Target) → Result (List (String × Target))
  add_members [] members = ok members
  add_members (m ∷ rest) members = do
    require (not (is_absolute m.path) && all_plain (split m.path)) "unsafe guest evidence member"
    target ← kind_target m.kind m.path
    more ← add_member m.path target members
    add_members rest more

  abbrev pub is_filled : List (String × Target) → Bool
  is_filled [] = false
  is_filled (_ ∷ _) = true

  unfoldable pub evidence_members : List Item → Result (List (String × Target))
  evidence_members items = do
    members ← add_members items []
    require (is_filled members) "empty guest evidence archive"
    ok members

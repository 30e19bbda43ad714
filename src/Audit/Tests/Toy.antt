-- ===== src/Audit/Tests/Toy.antt =====
-- A host for the tests of the audit, in which every file has one digest.
use ckb_vm_sail_verify.Base.{
  String, ℕ, true, false, Option, some, List, [], ◌∷◌, if◌then◌else◌, ◌==◌,
}
use ckb_vm_sail_verify.Base.Result.{Result, ok, err, os_error}
use ckb_vm_sail_verify.Base.Text.{append}
use ckb_vm_sail_verify.Base.Json.{Value, str, dict, Fields, end, field, fields, find, item}
use ckb_vm_sail_verify.Release.Names.{split}
use ckb_vm_sail_verify.Release.Inventory.{Item, is_file}
use ckb_vm_sail_verify.Proof.{same_texts}
use ckb_vm_sail_verify.Audit.Site.{Files}
use ckb_vm_sail_verify.Audit.Policy.{Policy}
use ckb_vm_sail_verify.Audit.Validators.{Host}
use ckb_vm_sail_verify.Runtime.TestLog.{engine_tests}
use ckb_vm_sail_verify.Runtime.Tests.Whole
use ckb_vm_sail_verify.Audit.Tests.Source.{hash, commit, snapshot, capsule_manifest}
use ckb_vm_sail_verify.Audit.Tests.Proofs.{step_policy_value, lean_audit, lean_report, rocq_report}
use ckb_vm_sail_verify.Audit.Tests.CleanRoom.{vm_provenance, vm_report, ci_report}
use ckb_vm_sail_verify.Audit.Tests.Records.{
  live_release, release_report, package_manifest, third_party_report, statement,
}

-- A path is the list of its names, the last one first.
abbrev below : List String → List String → List String
below p [] = p
below p (x ∷ xs) = below (x ∷ p) xs

abbrev parent : List String → List String
parent [] = []
parent (x ∷ p) = p

abbrev name : List String → String
name [] = ""
name (x ∷ p) = x

abbrev table : Fields
table = fields (
    ("lean.json", lean_report)
    ∷ ("step-policy.json", step_policy_value)
    ∷ ("lean-audit.json", lean_audit)
    ∷ ("rocq.json", rocq_report)
    ∷ ("ci.json", ci_report)
    ∷ ("report.json", vm_report)
    ∷ ("vm-provenance.json", vm_provenance)
    ∷ ("snapshot.json", snapshot)
    ∷ ("release.json", release_report)
    ∷ ("package.json", package_manifest)
    ∷ ("third.json", third_party_report)
    ∷ ("statement.json", statement)
    ∷ [])

-- with the files of a run
abbrev with_run : Fields → Fields
with_run end = Whole.table
with_run (field k v rest) = field k v (with_run rest)

abbrev pub files : Files
files = record {
  FilePath = List String;
  parent = parent;
  name = name;
  child = λ p n. below p (split n);
  resolve = λ p. p;
  absolute = λ p. p;
  relative = λ p root. name p;
  is_same = same_texts;
  is_below = λ p root. true;
  exists = λ p. true;
  is_symlink = λ p. false;
  is_linked = λ p. false;
  is_file = λ p. true;
  has_plain_mode = λ p. ok true;
  size = λ p. ok 7;
  sha = λ p. ok hash;
  read = λ p. item (dict (with_run table)) (name p);
}

abbrev rust_log : String
rust_log =
    "File x\nError: In core_cmp_PartialEq_t,\n The term \"result bool\" has type \"Type -> Type\" which should be Set, Prop or Type.\n"

abbrev sail_log : String
sail_log = "Error:\nThe reference e_div was not found in the current environment.\n"

abbrev pub texts : Fields
texts = fields (
    ("theorem-audit.log", str "built\nPROOF_AUDIT_JSON=audit\n")
    ∷ ("rust-model.log", str rust_log)
    ∷ ("sail-model.log", str sail_log)
    ∷ ("sail-repro.log", str sail_log)
    ∷ ("cargo-test.stdout", str (Whole.test_log engine_tests))
    ∷ ("keys", str "# owners\nowner@x ssh-ed25519 K\n")
    ∷ ("signers.txt", str "third@y ssh-ed25519 T\n")
    ∷ [])

abbrev text_or : Option Value → String
text_or (some (str s)) = s
text_or _ = "done"

abbrev entry : String → ℕ → Item
entry path b = record {
  path = path;
  mode = 0x1a4;
  kind = is_file;
  linkname = "";
  size = 1;
  content = b ∷ [];
}

abbrev packed : List Item
packed =
    entry "MANIFEST.json" 1 ∷ entry "docs/README.md" 2 ∷ entry "source/source-capsule.tar.gz" 3 ∷ []

abbrev pub capsule : List Item
capsule =
    entry "MANIFEST.json" 10
    ∷ entry "source-snapshot.json" 11
    ∷ entry "root.bundle" 12
    ∷ entry "ckb.bundle" 13
    ∷ entry "sail.bundle" 14
    ∷ entry "payload/a.txt" 15
    ∷ entry "payload/deps/ckb-vm/b.txt" 16
    ∷ entry "payload/deps/sail-riscv/c.txt" 17
    ∷ []

abbrev pub loads_bytes : List ℕ → Result Value
loads_bytes (b ∷ []) = if b == 10 then ok capsule_manifest else ok snapshot
loads_bytes _ = err (os_error "no JSON")

abbrev policy : Policy
policy = record {
  repository = "o/r";
  version = "v1";
  signer = record { identity = "owner@x"; allowed_signers = "keys"; namespace = "n" };
  clean_room = record {
    providers = "independent-ephemeral-vm" ∷ [];
    image_sha256 = hash;
    stages = "build" ∷ "prove" ∷ [];
    tools = "lean" ∷ [];
    generated_roots = "gen" ∷ [];
  };
  ci = record {
    workflow = "w.yml";
    jobs = "fast" ∷ [];
    artifact_name_prefix = "e-";
    replay_case = "add";
  };
  third_party = record { namespace = "t"; stages = "run" ∷ [] };
  pkg = record {
    required_members = "source/" ∷ "MANIFEST.json" ∷ [];
    docs = "README.md" ∷ [];
    tool_asset = "tool.tar";
    tool_size = 7;
    tool_sha256 = hash;
  };
}

abbrev pub host : Host
host = record {
  files = files;
  root = [];
  read_text = λ p. ok (text_or (find (name p) texts));
  loads = λ s. ok lean_audit;
  loads_bytes = loads_bytes;
  digest = λ v. hash;
  sha_bytes = λ bs. hash;
  items_of = λ p. ok packed;
  open_tar = λ bs. ok capsule;
  is_signed = λ allowed identity namespace signature payload. ok true;
  git_verify_tag = λ keys version.
      ok (record { passed = true; output = "Good \"git\" signature for owner@x with ED25519 key" });
  rev_parse = λ rev. ok (record { passed = true; output = append commit "\n" });
  is_attested = λ path repository bundle workflow candidate. ok true;
  query_release = λ repository id. ok live_release;
  load_policy = ok policy;
  current_snapshot = ok snapshot;
  entries = λ p. ok Whole.artifact_names;
}

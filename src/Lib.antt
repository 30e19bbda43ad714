-- ===== src/Lib.antt =====
-- A model of the release and evidence scripts of this repository, which compare the CKB-VM
-- interpreter with the Sail RISC-V model, and the theorems that make them correct.
--
-- Parts. The differential binary replays an instruction sequence on both engines and writes an
-- artifact. scripts/minimize_mismatch.py takes the artifact of a difference and looks for a
-- shortest subsequence of its instructions that still shows it: `program` and `signature` read
-- an artifact, `check_trial` and `check_environment` decide whether a replay counts,
-- `shortest_subsequence` enumerates, `ReplayOracle` replays one candidate and records it in the
-- report, and `run` puts these together and chooses the exit code.
-- scripts/sail_model_transaction.py regenerates the Sail model and puts it in the place of the
-- published one: `replace_model` moves the old output away, generates, adapts a staged copy, moves
-- the old model away and the new one to its name, and puts the old names back where it fails.
-- scripts/release_common.py has the tests on file names, manifests and archives that the
-- release scripts share.
-- scripts/ckb_source_baseline.py identifies the patched source of the interpreter, and applies the
-- patch where it is asked to. Git and the checkout are the parameter `Checkout`.
-- scripts/audit_release.py decides whether a candidate may be released: a manifest names a report for
-- each of six slots, a validator reopens each report with the files that it names, and `aggregate`
-- makes one verdict of them, which `main` writes with its exit code. The validators share the tests
-- and signatures of scripts/release_common.py; that of the Lean proof parses the audit of the axioms by
-- scripts/check_proof.py, that of the Rocq attempt classifies the logs by scripts/rocq_spike.py, and
-- that of the release inspects the source capsule in its archive by scripts/source_capsule.py.
-- scripts/runtime_evidence.py looks at the artifacts of a differential run again: the traces of both
-- engines in each case of the corpus, and the mutations of a trace that the comparison has to find.
-- Around the audit stand the scripts that carry inputs and evidence from one machine to another.
-- scripts/fixed_inputs.py compares an archive of tools with its inventory, scripts/ephemeral_vm.py
-- starts the machine of a clean-room run and takes in what its guest wrote, and
-- scripts/evidence_bundle.py puts the evidence of such a run into a checkout, where `check_vm_report` of
-- the audit looks at it. scripts/ci_evidence.py selects the run of CI that carries this evidence,
-- scripts/release_package.py authenticates a release before it is restored, and
-- scripts/decoder_input_bundle.py unpacks the inputs of the decoder. They share the files on a disk
-- (Disk) and the writing and extraction of archives in scripts/release_common.py.
-- scripts/source_snapshot.py makes the inventory of all sources that a source capsule carries.
--   Base            what the models share: numbers and tests, lists, Python's exceptions as a
--                   result type (Base/Result), code with a state that may raise, with triples
--                   about it (Base/Exec), and the values of `json.loads` (Base/Json)
--   Baseline        scripts/ckb_source_baseline.py: `tree` and `check`
--   Minimize        scripts/minimize_mismatch.py
--     Decimal         the number formats of the f-strings
--     Artifact        `program` and `signature`
--     Trial           `check_trial` and `check_environment`
--     Search          `shortest_subsequence`, over any evaluator with a state
--     Input           the replay input of a candidate
--     Oracle          `ReplayOracle`: `__init__` is `identify`, `__call__` is `evaluate`, whose
--                     `try` is `attempt` and whose `except` and `finally` are `settle`
--     Run             `run`: its `try` is `minimize`, its `except` and `finally` are `conclude`
--   FileSystem      directory trees by path, with renaming and copying of subtrees as
--                   os.rename and shutil.copytree do it
--   Transaction     scripts/sail_model_transaction.py
--     Generated       `regular_tree`
--     Replace         `replace_model`: `check_places` is its guards, and `install` of the parent
--                     module the rest, whose `try` is `body` and whose `except` is `settle`
--   Release         scripts/release_common.py
--     Names           `safe_name`, with PurePosixPath as the split of a text at its slashes
--     Manifest        `fields`, `integer`, `digest`, `size_ok` and `manifest_members`
--     Inventory       `tar_inventory`
--     Stages          `text`, `linked`, `reference` and `check_stages`
--     Write           `tar_info` and `write_tar_gz`
--     Extract         `extract_verified`
--   Audit           scripts/audit_release.py
--     Checks          the tests of a JSON record, as the operands of `require`
--     Site            the files, as the validators see them, with `regular`, `member`, `linked`,
--                     `reference` and `ref` of scripts/release_common.py
--     Policy          the keys of docs/release/policy.json that the validators read
--     Signatures      `approved_identity`, `verify_ssh_signature` and `verify_tag`
--     Provenance      `check_vm_provenance`
--     Report          `check_vm_report`
--     Ci              `check_ci` and `check_clean_room`
--     Package         the first half of `check_release`, about the archive
--     Publication     the rest of `check_release`, about what is signed and published
--     ThirdParty      `check_third_party`
--     Lean            `check_lean`
--     Rocq            `check_rocq`
--     Aggregate       `load_manifest`, `aggregate` and `main`
--     Validators      `VALIDATORS`, with everything that the validators need as one `Host`
--   Proof           `parse_audit`, `boundary_hashes` and `check_audit` of scripts/check_proof.py
--     Failure         `check_failure` of scripts/rocq_spike.py
--   Runtime         scripts/runtime_evidence.py, the artifacts of the differential run
--     Trace           `first_difference` and `mutated`
--     Case            `check_case` and `check_replay`
--     Mutations       `check_mutations`
--     TestLog         `check_test_log`
--     Validate        `validate`
--     Check           `check`
--   Capsule         scripts/source_capsule.py, and `archive_member_bytes`
--     Snapshot        `validate_snapshot`
--     Inspect         `inspect`
--   Disk            files with bytes and modes, and the steps that make new ones: mkdir, exclusive
--                   creation and chmod, with what these leave as it was (Disk/Kept)
--   Inputs          scripts/fixed_inputs.py
--     Chains          the loop of `entries_valid` that follows links, and posixpath
--     Entries         the rest of `entries_valid`
--     Archive         `load_manifest`, `compression_of`, `validate_member` and `verify_archive`
--   EvidenceBundle  `extract` and `unpack` of scripts/evidence_bundle.py
--     Targets         `candidate_root`, `safe_member` and the first pass of `extract`
--   VirtualMachine  `extract_evidence` of scripts/ephemeral_vm.py
--     Launch          `meta_data`, `secrets_blob` and `qemu_argv`
--     Evidence        `evidence_members`
--   CiEvidence      `select_remote` and `unique_bundle` of scripts/ci_evidence.py
--   ReleasePackage  `authenticate` of scripts/release_package.py
--   DecoderBundle   `check_members` and `unpack` of scripts/decoder_input_bundle.py, this up to the
--                   verification of what it wrote
--   Snapshot        `capture` of scripts/source_snapshot.py
--     Tree            `safe`, `regular` and `entries`
--     Inventory       `inventory`
--
-- State. An action takes a state to a result and a state; what was written before a raise stays
-- written. The state of the minimizer is the world of the system and the report. The world, with
-- the files, the digests and the differential binary, is the parameter `System`: nothing is
-- assumed of it but what a theorem names. The state of a transaction is a directory tree, the
-- record, and the record last written to transaction.json. The callbacks `generate` and `adapt`,
-- `mkdir` with `mkdtemp`, and whether the file can be written are parameters; `Behaves` and `Makes`
-- say what the script relies on: fresh names are new, and a callback leaves alone what is not its own.
-- The audit changes nothing that it looks at, so that files, the policy, git, gh, ssh-keygen, tar, the
-- digests and `json.loads` are functions, of paths where they read files. The extractions change a
-- disk, the list of its entries with the newest first; paths are without links, as the scripts resolve
-- them or test for links first, and a new file begins with the mode 0644. A value of another shape
-- than the code expects raises; lists of names are lists of texts.
--
-- Bounds and fuel. The loops of the search are structural: `try_sizes` runs over the sizes below
-- the number of words, `try_each` over the combinations of one size. `digits_of` takes the number
-- plus one as fuel, and `digits_of-fuel` says that more does not matter. `follow` takes the number of
-- entries plus one, and `follow_total` says that this is enough. A word is below 2 ^ 32.
--
-- Not modelled: an interrupt between a renaming and the line that notes it; the process driver of
-- sail_model_transaction.py (`run_backend`) with its lock; commands and JSON files in
-- release_common.py; compression and the format of archives, which are the items that tarfile yields;
-- the staging of fixed inputs, packing evidence, starting a machine, collecting from CI, building and
-- restoring releases, and the catalogue of decoder inputs; what public_claims.py makes of a checkout
-- and the snapshot of the candidate, which are parameters of the audit; `export` and `restore` of
-- source_snapshot.py; the producers in runtime_evidence.py; the drivers in check_proof.py and
-- rocq_spike.py, and `create` and `restore` of source_capsule.py; in ckb_source_baseline.py the
-- parsing of git's rows and the reading of upstream blobs; argument parsing, printed lines and
-- timestamps; the keys of the report that only repeat paths, commands and messages; floats in JSON,
-- which no modelled record holds; the other scripts, the Rust crates and the Lean and Rocq proofs.
pub mod Audit
pub mod Base
pub mod Baseline
pub mod Capsule
pub mod CiEvidence
pub mod DecoderBundle
pub mod Disk
pub mod EvidenceBundle
pub mod FileSystem
pub mod Inputs
pub mod Minimize
pub mod Proof
pub mod Release
pub mod ReleasePackage
pub mod Runtime
pub mod Snapshot
pub mod Transaction
pub mod VirtualMachine

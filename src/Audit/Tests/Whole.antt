-- ===== src/Audit/Tests/Whole.antt =====
-- The audit of the toy release passes.
use ckb_vm_sail_verify.Base.{ℕ, false, ◌≡◌, refl, []}
use ckb_vm_sail_verify.Base.Result.{Result, ok}
use ckb_vm_sail_verify.Base.Json.{Value, Fields, str}
use ckb_vm_sail_verify.Audit.Aggregate.{Report, aggregate, check_manifest, report_of}
use ckb_vm_sail_verify.Audit.Validators.{validators}
use ckb_vm_sail_verify.Audit.Tests.Toy.{host, files}
use ckb_vm_sail_verify.Audit.Tests.Records.{audit_manifest}
use ckb_vm_sail_verify.Base.Json
use ckb_vm_sail_verify.Base.Text
use ckb_vm_sail_verify.Base.Sorted
use ckb_vm_sail_verify.Base.Result
use ckb_vm_sail_verify.Release.Names
use ckb_vm_sail_verify.Release.Manifest
use ckb_vm_sail_verify.Release.Stages
use ckb_vm_sail_verify.Release.Inventory
use ckb_vm_sail_verify.Audit.Checks
use ckb_vm_sail_verify.Audit.Site
use ckb_vm_sail_verify.Proof
use ckb_vm_sail_verify.Proof.Failure
use ckb_vm_sail_verify.Audit.Lean
use ckb_vm_sail_verify.Audit.Rocq
use ckb_vm_sail_verify.Audit.Provenance
use ckb_vm_sail_verify.Audit.Report as VmReport
use ckb_vm_sail_verify.Audit.Ci
use ckb_vm_sail_verify.Audit.Signatures
use ckb_vm_sail_verify.Audit.ThirdParty
use ckb_vm_sail_verify.Capsule
use ckb_vm_sail_verify.Capsule.Snapshot
use ckb_vm_sail_verify.Capsule.Inspect
use ckb_vm_sail_verify.Audit.Package
use ckb_vm_sail_verify.Audit.Publication
use ckb_vm_sail_verify.Audit.Aggregate
use ckb_vm_sail_verify.Audit.Validators
use ckb_vm_sail_verify.Minimize.Artifact
use ckb_vm_sail_verify.Minimize.Decimal
use ckb_vm_sail_verify.Runtime.Trace
use ckb_vm_sail_verify.Runtime.Case
use ckb_vm_sail_verify.Runtime.Mutations
use ckb_vm_sail_verify.Runtime.TestLog
use ckb_vm_sail_verify.Runtime.Validate
use ckb_vm_sail_verify.Runtime.Check

abbrev empty_report : Report
empty_report = report_of Value.null Value.null [] false

abbrev pub report_in : Result (Report × ℕ) → Report
report_in (ok (report, code)) = report
report_in _ = empty_report

abbrev pub audit_report : Report
audit_report =
    report_in (aggregate files [] (validators host) (ok tt) host.current_snapshot audit_manifest)

pub audit-accepted :
    aggregate files [] (validators host) (ok tt) host.current_snapshot audit_manifest
    ≡ ok (audit_report, 0)
unfolding Json.equal Json.equal_items Json.equal_fields Json.same Json.same_items Json.same_fields
    Text.is_space Text.is_blank Text.starts_with Text.ends_with Text.occurs Text.append Text.spaced
    Text.is_line_end Text.first_line Text.skip_spaces Text.trim_end Text.lines Text.words
    Sorted.text_leb Sorted.insert Sorted.sorted Result.require Result.both Result.◌>>=◌ Names.split
    Names.extend Names.join Names.keep_parts Names.is_absolute Names.has_bad Names.all_plain
    Names.safe_name Manifest.fields Manifest.integer Manifest.is_hex_text Manifest.digest
    Manifest.size_ok Manifest.new_size Manifest.add_members Manifest.manifest_members Stages.text
    Stages.names_in Stages.are_texts Stages.linked Stages.reference Stages.check_stage
    Stages.check_each Stages.check_stages Inventory.rstrip Inventory.entry_of Inventory.take_items
    Inventory.tar_inventory Checks.all_hold Checks.expect Checks.reach Checks.reads Checks.agree
    Checks.reads_true Checks.reads_false Checks.is_number Checks.reads_number Checks.reads_one_of
    Checks.has_names Checks.part Checks.texts_of Checks.each_field Checks.need Checks.fields_of
    Checks.first_line_of Checks.first_lines Checks.size_of Checks.reads_integer Checks.set_field
    Checks.merge Checks.suffixed Checks.rows_of Site.regular Site.descend Site.member Site.sha_below
    Site.reference Site.linked Site.ref Proof.after_prefix Proof.marked Proof.only_row
    Proof.names_of Proof.groups_of Proof.groups_at Proof.are_distinct Proof.is_clean
    Proof.require_equal Proof.same_texts Proof.check_groups Proof.check_witnesses Proof.check_axioms
    Proof.parse_audit Proof.hashes Proof.boundary_hashes Proof.check_audit Failure.fold_case
    Failure.starts_folded Failure.occurs_folded Failure.any_folded Failure.is_infra_failure
    Failure.line_starts Failure.error_words Failure.error_messages Failure.only_error
    Failure.check_message Failure.check_failure Lean.need_log Lean.need_logs Lean.has_log_name
    Lean.reads_same Lean.check_public Lean.check_status Lean.read_stage Lean.read_stages
    Lean.check_recorded Lean.check_lean Rocq.rejection_of Rocq.tracked_model Rocq.includes_all
    Rocq.file_name Rocq.check_verdict Rocq.judge Rocq.check_outcome Rocq.check_rocq_stage
    Rocq.check_rocq_stages Rocq.check_tracked Rocq.check_model Rocq.check_rocq Provenance.is_launch
    Provenance.check_bound Provenance.check_hypervisor Provenance.check_disks
    Provenance.check_launch Provenance.check_report_bound Provenance.check_vm_provenance
    VmReport.heads_of VmReport.reads_heads VmReport.check_tool VmReport.check_tools
    VmReport.check_root VmReport.all_digests VmReport.check_roots VmReport.check_identity
    VmReport.check_provider VmReport.check_checkout VmReport.check_slots VmReport.check_snapshot
    VmReport.vm_summary VmReport.check_vm_report Ci.check_run Ci.check_queries Ci.kind_of
    Ci.check_job Ci.check_jobs Ci.same_sha Ci.has_sha Ci.check_downloads Ci.reads_sha
    Ci.check_replay Ci.check_attested Ci.check_local Ci.ci_summary Ci.check_ci Ci.check_vm_alone
    Ci.check_clean_room Signatures.names_signer Signatures.has_approval Signatures.unrestricted
    Signatures.key_words Signatures.git_keys Signatures.approved_identity
    Signatures.verify_ssh_signature Signatures.verify_tag ThirdParty.differs
    ThirdParty.check_report_identity ThirdParty.check_performer ThirdParty.statement_of
    ThirdParty.identity_of ThirdParty.check_statement ThirdParty.check_authorization
    ThirdParty.check_signed ThirdParty.check_third_party Capsule.bundle_of Capsule.only_item
    Capsule.archive_member_bytes Snapshot.without_field Snapshot.reads_hex Snapshot.reads_empty
    Snapshot.reads_full Snapshot.repository_heads Snapshot.check_file Snapshot.is_unnested
    Snapshot.check_repository Snapshot.check_digest Snapshot.validate_snapshot Inspect.mode_of
    Inspect.need_mode Inspect.check_member Inspect.mode_bits Inspect.payload_name
    Inspect.check_payload Inspect.payload_names Inspect.check_source Inspect.check_sources
    Inspect.sized Inspect.member_rows Inspect.read_manifest Inspect.read_snapshot Inspect.inspect
    Package.check_release_identity Package.check_manifest_identity Package.need_member
    Package.without_member Package.all_members Package.same_members Package.check_required
    Package.has_names_in Package.check_docs Package.check_archive Package.check_manifest_file
    Package.check_members Package.check_tool_asset Publication.get Publication.gets
    Publication.gets_true Publication.gets_false Publication.put_asset Publication.add_assets
    Publication.assets_of Publication.check_live Publication.asset_value Publication.reads_asset
    Publication.gets_size Publication.gets_digest Publication.check_asset Publication.same_bytes
    Publication.check_download Publication.set_path Publication.expected_assets
    Publication.check_assets Publication.check_downloads Publication.check_publication
    Publication.check_capsule Publication.check_signed Publication.check_release Aggregate.is_oid
    Aggregate.reads_oid Aggregate.check_slot_names Aggregate.check_manifest Aggregate.settle
    Aggregate.names_where Aggregate.is_drifted Aggregate.status_of Aggregate.exit_code
    Aggregate.also Aggregate.report_of Aggregate.concluded Aggregate.load_manifest
    Aggregate.slots_of Aggregate.compose_manifest Aggregate.validate Aggregate.take_slots
    Aggregate.aggregate Aggregate.attempt Aggregate.main Validators.with_text Validators.validators
    Artifact.word_of Artifact.words_of Decimal.digit Decimal.hex_word Decimal.decimal
    Decimal.decimal5 Trace.differing_field Trace.differing_event Trace.events_in
    Trace.last_difference Trace.differing_end Trace.differing_rest Trace.first_difference
    Trace.assign Trace.elem Trace.pop Trace.has_writes Trace.next_written Trace.written_index
    Trace.as_number Trace.mutated_write Trace.mutated_writes Trace.mutated_event Trace.with_events
    Trace.changed_at Trace.with_write Trace.mutated Case.bounded Case.program_words Case.opcode_of
    Case.reads_none Case.reads_exactly Case.keep Case.check_evidence Case.check_writes
    Case.check_event Case.check_events Case.check_trace Case.check_packets Case.is_nothing
    Case.check_agreement Case.check_program Case.check_case Case.only_result Case.check_replay
    Mutations.expected_field Mutations.text_at Mutations.key_of Mutations.keys_of
    Mutations.case_named Mutations.reads_reason Mutations.check_skipped Mutations.check_applied
    Mutations.check_outcome Mutations.check_located Mutations.check_mutation Mutations.check_rows
    Mutations.coverage_kinds Mutations.reads_located Mutations.check_tally Mutations.check_tallies
    Mutations.check_coverage Mutations.check_mutations TestLog.last_segment TestLog.passed_test
    TestLog.passed_tests TestLog.number_from TestLog.is_verdict TestLog.result_of
    TestLog.count_passed TestLog.check_test_log Validate.ids_of Validate.are_id_chars
    Validate.is_case_id Validate.check_corpus Validate.families_of Validate.check_families
    Validate.reads_replay Validate.check_recorded Validate.take_case Validate.take_cases
    Validate.validate Check.last_two Check.is_replay_command Check.argv_of Check.check_commands
    Check.first_text Check.case_ids Check.check_run_status Check.check_tests Check.check_replayed
    Check.check_replays Check.check_copies Check.check_run_stages Check.check
audit-accepted = refl

pub manifest-accepted : check_manifest audit_manifest ≡ ok tt
unfolding Json.equal Json.equal_items Json.equal_fields Json.same Json.same_items Json.same_fields
    Text.is_space Text.is_blank Text.starts_with Text.ends_with Text.occurs Text.append Text.spaced
    Text.is_line_end Text.first_line Text.skip_spaces Text.trim_end Text.lines Text.words
    Sorted.text_leb Sorted.insert Sorted.sorted Result.require Result.both Result.◌>>=◌ Names.split
    Names.extend Names.join Names.keep_parts Names.is_absolute Names.has_bad Names.all_plain
    Names.safe_name Manifest.fields Manifest.integer Manifest.is_hex_text Manifest.digest
    Manifest.size_ok Manifest.new_size Manifest.add_members Manifest.manifest_members Stages.text
    Stages.names_in Stages.are_texts Stages.linked Stages.reference Stages.check_stage
    Stages.check_each Stages.check_stages Inventory.rstrip Inventory.entry_of Inventory.take_items
    Inventory.tar_inventory Checks.all_hold Checks.expect Checks.reach Checks.reads Checks.agree
    Checks.reads_true Checks.reads_false Checks.is_number Checks.reads_number Checks.reads_one_of
    Checks.has_names Checks.part Checks.texts_of Checks.each_field Checks.need Checks.fields_of
    Checks.first_line_of Checks.first_lines Checks.size_of Checks.reads_integer Checks.set_field
    Checks.merge Checks.suffixed Checks.rows_of Site.regular Site.descend Site.member Site.sha_below
    Site.reference Site.linked Site.ref Aggregate.is_oid Aggregate.reads_oid
    Aggregate.check_slot_names Aggregate.check_manifest Aggregate.settle Aggregate.names_where
    Aggregate.is_drifted Aggregate.status_of Aggregate.exit_code Aggregate.also Aggregate.report_of
    Aggregate.concluded Aggregate.load_manifest Aggregate.slots_of Aggregate.compose_manifest
    Aggregate.validate Aggregate.take_slots Aggregate.aggregate Aggregate.attempt Aggregate.main
manifest-accepted = refl

-- ===== src/Audit/Tests/Accepted.antt =====
-- Each validator accepts its record.
use ckb_vm_sail_verify.Base.{◌≡◌, refl, some, [], ◌∷◌}
use ckb_vm_sail_verify.Base.Result.{Result, ok}
use ckb_vm_sail_verify.Base.Json.{Value, Fields, str}
use ckb_vm_sail_verify.Audit.Lean.{check_lean}
use ckb_vm_sail_verify.Audit.Rocq.{check_rocq}
use ckb_vm_sail_verify.Audit.Report.{check_vm_report}
use ckb_vm_sail_verify.Audit.Ci.{check_clean_room}
use ckb_vm_sail_verify.Audit.Publication.{check_release}
use ckb_vm_sail_verify.Audit.ThirdParty.{check_third_party}
use ckb_vm_sail_verify.Capsule.Inspect.{inspect}
use ckb_vm_sail_verify.Audit.Tests.Toy.{host, files, capsule, loads_bytes}
use ckb_vm_sail_verify.Audit.Tests.Source.{commit, snapshot}
use ckb_vm_sail_verify.Base.Json
use ckb_vm_sail_verify.Base.Text
use ckb_vm_sail_verify.Base.Sorted
use ckb_vm_sail_verify.Base.Result
use ckb_vm_sail_verify.Release.Names
use ckb_vm_sail_verify.Release.Manifest
use ckb_vm_sail_verify.Release.Stages
use ckb_vm_sail_verify.Release.Inventory
use ckb_vm_sail_verify.Audit.Checks
use ckb_vm_sail_verify.Audit.Site
use ckb_vm_sail_verify.Proof
use ckb_vm_sail_verify.Proof.Failure
use ckb_vm_sail_verify.Audit.Lean
use ckb_vm_sail_verify.Audit.Rocq
use ckb_vm_sail_verify.Audit.Provenance
use ckb_vm_sail_verify.Audit.Report as VmReport
use ckb_vm_sail_verify.Audit.Ci
use ckb_vm_sail_verify.Audit.Signatures
use ckb_vm_sail_verify.Audit.ThirdParty
use ckb_vm_sail_verify.Capsule
use ckb_vm_sail_verify.Capsule.Snapshot
use ckb_vm_sail_verify.Capsule.Inspect
use ckb_vm_sail_verify.Audit.Package
use ckb_vm_sail_verify.Audit.Publication

abbrev pub value_in : Result Value → Value
value_in (ok v) = v
value_in _ = Value.null

abbrev pub lean_summary : Value
lean_summary =
    value_in (check_lean files host.read_text host.loads host.digest ("lean.json" ∷ "ev" ∷ []) [])

pub lean-accepted :
    check_lean files host.read_text host.loads host.digest ("lean.json" ∷ "ev" ∷ []) []
    ≡ ok lean_summary
unfolding Json.equal Json.equal_items Json.equal_fields Json.same Json.same_items Json.same_fields
    Text.is_space Text.is_blank Text.starts_with Text.ends_with Text.occurs Text.append Text.spaced
    Text.is_line_end Text.first_line Text.skip_spaces Text.trim_end Text.lines Text.words
    Sorted.text_leb Sorted.insert Sorted.sorted Result.require Result.both Result.◌>>=◌ Names.split
    Names.extend Names.join Names.keep_parts Names.is_absolute Names.has_bad Names.all_plain
    Names.safe_name Manifest.fields Manifest.integer Manifest.is_hex_text Manifest.digest
    Manifest.size_ok Manifest.new_size Manifest.add_members Manifest.manifest_members Stages.text
    Stages.names_in Stages.are_texts Stages.linked Stages.reference Stages.check_stage
    Stages.check_each Stages.check_stages Inventory.rstrip Inventory.entry_of Inventory.take_items
    Inventory.tar_inventory Checks.all_hold Checks.expect Checks.reach Checks.reads Checks.agree
    Checks.reads_true Checks.reads_false Checks.is_number Checks.reads_number Checks.reads_one_of
    Checks.has_names Checks.part Checks.texts_of Checks.each_field Checks.need Checks.fields_of
    Checks.first_line_of Checks.first_lines Checks.size_of Checks.reads_integer Checks.set_field
    Checks.merge Checks.suffixed Checks.rows_of Site.regular Site.descend Site.member Site.sha_below
    Site.reference Site.linked Site.ref Proof.after_prefix Proof.marked Proof.only_row
    Proof.names_of Proof.groups_of Proof.groups_at Proof.are_distinct Proof.is_clean
    Proof.require_equal Proof.same_texts Proof.check_groups Proof.check_witnesses Proof.check_axioms
    Proof.parse_audit Proof.hashes Proof.boundary_hashes Proof.check_audit Lean.need_log
    Lean.need_logs Lean.has_log_name Lean.reads_same Lean.check_public Lean.check_status
    Lean.read_stage Lean.read_stages Lean.check_recorded Lean.check_lean
lean-accepted = refl

abbrev pub rocq_summary : Value
rocq_summary = value_in (check_rocq files host.read_text ("rocq.json" ∷ "ev" ∷ []) [])

pub rocq-accepted : check_rocq files host.read_text ("rocq.json" ∷ "ev" ∷ []) [] ≡ ok rocq_summary
unfolding Json.equal Json.equal_items Json.equal_fields Json.same Json.same_items Json.same_fields
    Text.is_space Text.is_blank Text.starts_with Text.ends_with Text.occurs Text.append Text.spaced
    Text.is_line_end Text.first_line Text.skip_spaces Text.trim_end Text.lines Text.words
    Sorted.text_leb Sorted.insert Sorted.sorted Result.require Result.both Result.◌>>=◌ Names.split
    Names.extend Names.join Names.keep_parts Names.is_absolute Names.has_bad Names.all_plain
    Names.safe_name Manifest.fields Manifest.integer Manifest.is_hex_text Manifest.digest
    Manifest.size_ok Manifest.new_size Manifest.add_members Manifest.manifest_members Stages.text
    Stages.names_in Stages.are_texts Stages.linked Stages.reference Stages.check_stage
    Stages.check_each Stages.check_stages Inventory.rstrip Inventory.entry_of Inventory.take_items
    Inventory.tar_inventory Checks.all_hold Checks.expect Checks.reach Checks.reads Checks.agree
    Checks.reads_true Checks.reads_false Checks.is_number Checks.reads_number Checks.reads_one_of
    Checks.has_names Checks.part Checks.texts_of Checks.each_field Checks.need Checks.fields_of
    Checks.first_line_of Checks.first_lines Checks.size_of Checks.reads_integer Checks.set_field
    Checks.merge Checks.suffixed Checks.rows_of Site.regular Site.descend Site.member Site.sha_below
    Site.reference Site.linked Site.ref Proof.after_prefix Proof.marked Proof.only_row
    Proof.names_of Proof.groups_of Proof.groups_at Proof.are_distinct Proof.is_clean
    Proof.require_equal Proof.same_texts Proof.check_groups Proof.check_witnesses Proof.check_axioms
    Proof.parse_audit Proof.hashes Proof.boundary_hashes Proof.check_audit Failure.fold_case
    Failure.starts_folded Failure.occurs_folded Failure.any_folded Failure.is_infra_failure
    Failure.line_starts Failure.error_words Failure.error_messages Failure.only_error
    Failure.check_message Failure.check_failure Rocq.rejection_of Rocq.tracked_model
    Rocq.includes_all Rocq.file_name Rocq.check_verdict Rocq.judge Rocq.check_outcome
    Rocq.check_rocq_stage Rocq.check_rocq_stages Rocq.check_tracked Rocq.check_model Rocq.check_rocq
rocq-accepted = refl

abbrev pub vm_summary : Value
vm_summary = value_in (
    check_vm_report files host.load_policy host.current_snapshot ("report.json" ∷ "ev" ∷ []) commit)

pub vm-accepted :
    check_vm_report files host.load_policy host.current_snapshot ("report.json" ∷ "ev" ∷ []) commit
    ≡ ok vm_summary
unfolding Json.equal Json.equal_items Json.equal_fields Json.same Json.same_items Json.same_fields
    Text.is_space Text.is_blank Text.starts_with Text.ends_with Text.occurs Text.append Text.spaced
    Text.is_line_end Text.first_line Text.skip_spaces Text.trim_end Text.lines Text.words
    Sorted.text_leb Sorted.insert Sorted.sorted Result.require Result.both Result.◌>>=◌ Names.split
    Names.extend Names.join Names.keep_parts Names.is_absolute Names.has_bad Names.all_plain
    Names.safe_name Manifest.fields Manifest.integer Manifest.is_hex_text Manifest.digest
    Manifest.size_ok Manifest.new_size Manifest.add_members Manifest.manifest_members Stages.text
    Stages.names_in Stages.are_texts Stages.linked Stages.reference Stages.check_stage
    Stages.check_each Stages.check_stages Inventory.rstrip Inventory.entry_of Inventory.take_items
    Inventory.tar_inventory Checks.all_hold Checks.expect Checks.reach Checks.reads Checks.agree
    Checks.reads_true Checks.reads_false Checks.is_number Checks.reads_number Checks.reads_one_of
    Checks.has_names Checks.part Checks.texts_of Checks.each_field Checks.need Checks.fields_of
    Checks.first_line_of Checks.first_lines Checks.size_of Checks.reads_integer Checks.set_field
    Checks.merge Checks.suffixed Checks.rows_of Site.regular Site.descend Site.member Site.sha_below
    Site.reference Site.linked Site.ref Provenance.is_launch Provenance.check_bound
    Provenance.check_hypervisor Provenance.check_disks Provenance.check_launch
    Provenance.check_report_bound Provenance.check_vm_provenance VmReport.heads_of
    VmReport.reads_heads VmReport.check_tool VmReport.check_tools VmReport.check_root
    VmReport.all_digests VmReport.check_roots VmReport.check_identity VmReport.check_provider
    VmReport.check_checkout VmReport.check_slots VmReport.check_snapshot VmReport.vm_summary
    VmReport.check_vm_report
vm-accepted = refl

abbrev pub clean_room_summary : Value
clean_room_summary = value_in (
    check_clean_room files host.load_policy host.current_snapshot [] host.is_attested
      ("ci.json" ∷ "ev" ∷ []) commit)

pub clean_room-accepted :
    check_clean_room files host.load_policy host.current_snapshot [] host.is_attested
      ("ci.json" ∷ "ev" ∷ [])
      commit
    ≡ ok clean_room_summary
unfolding Json.equal Json.equal_items Json.equal_fields Json.same Json.same_items Json.same_fields
    Text.is_space Text.is_blank Text.starts_with Text.ends_with Text.occurs Text.append Text.spaced
    Text.is_line_end Text.first_line Text.skip_spaces Text.trim_end Text.lines Text.words
    Sorted.text_leb Sorted.insert Sorted.sorted Result.require Result.both Result.◌>>=◌ Names.split
    Names.extend Names.join Names.keep_parts Names.is_absolute Names.has_bad Names.all_plain
    Names.safe_name Manifest.fields Manifest.integer Manifest.is_hex_text Manifest.digest
    Manifest.size_ok Manifest.new_size Manifest.add_members Manifest.manifest_members Stages.text
    Stages.names_in Stages.are_texts Stages.linked Stages.reference Stages.check_stage
    Stages.check_each Stages.check_stages Inventory.rstrip Inventory.entry_of Inventory.take_items
    Inventory.tar_inventory Checks.all_hold Checks.expect Checks.reach Checks.reads Checks.agree
    Checks.reads_true Checks.reads_false Checks.is_number Checks.reads_number Checks.reads_one_of
    Checks.has_names Checks.part Checks.texts_of Checks.each_field Checks.need Checks.fields_of
    Checks.first_line_of Checks.first_lines Checks.size_of Checks.reads_integer Checks.set_field
    Checks.merge Checks.suffixed Checks.rows_of Site.regular Site.descend Site.member Site.sha_below
    Site.reference Site.linked Site.ref Proof.after_prefix Proof.marked Proof.only_row
    Proof.names_of Proof.groups_of Proof.groups_at Proof.are_distinct Proof.is_clean
    Proof.require_equal Proof.same_texts Proof.check_groups Proof.check_witnesses Proof.check_axioms
    Proof.parse_audit Proof.hashes Proof.boundary_hashes Proof.check_audit Provenance.is_launch
    Provenance.check_bound Provenance.check_hypervisor Provenance.check_disks
    Provenance.check_launch Provenance.check_report_bound Provenance.check_vm_provenance
    VmReport.heads_of VmReport.reads_heads VmReport.check_tool VmReport.check_tools
    VmReport.check_root VmReport.all_digests VmReport.check_roots VmReport.check_identity
    VmReport.check_provider VmReport.check_checkout VmReport.check_slots VmReport.check_snapshot
    VmReport.vm_summary VmReport.check_vm_report Ci.check_run Ci.check_queries Ci.kind_of
    Ci.check_job Ci.check_jobs Ci.same_sha Ci.has_sha Ci.check_downloads Ci.reads_sha
    Ci.check_replay Ci.check_attested Ci.check_local Ci.ci_summary Ci.check_ci Ci.check_vm_alone
    Ci.check_clean_room
clean_room-accepted = refl

abbrev pub third_party_summary : Value
third_party_summary = value_in (
    check_third_party files host.read_text host.is_signed host.load_policy host.current_snapshot []
      ("third.json" ∷ "ev" ∷ []) commit)

pub third_party-accepted :
    check_third_party files host.read_text host.is_signed host.load_policy host.current_snapshot []
      ("third.json" ∷ "ev" ∷ [])
      commit
    ≡ ok third_party_summary
unfolding Json.equal Json.equal_items Json.equal_fields Json.same Json.same_items Json.same_fields
    Text.is_space Text.is_blank Text.starts_with Text.ends_with Text.occurs Text.append Text.spaced
    Text.is_line_end Text.first_line Text.skip_spaces Text.trim_end Text.lines Text.words
    Sorted.text_leb Sorted.insert Sorted.sorted Result.require Result.both Result.◌>>=◌ Names.split
    Names.extend Names.join Names.keep_parts Names.is_absolute Names.has_bad Names.all_plain
    Names.safe_name Manifest.fields Manifest.integer Manifest.is_hex_text Manifest.digest
    Manifest.size_ok Manifest.new_size Manifest.add_members Manifest.manifest_members Stages.text
    Stages.names_in Stages.are_texts Stages.linked Stages.reference Stages.check_stage
    Stages.check_each Stages.check_stages Inventory.rstrip Inventory.entry_of Inventory.take_items
    Inventory.tar_inventory Checks.all_hold Checks.expect Checks.reach Checks.reads Checks.agree
    Checks.reads_true Checks.reads_false Checks.is_number Checks.reads_number Checks.reads_one_of
    Checks.has_names Checks.part Checks.texts_of Checks.each_field Checks.need Checks.fields_of
    Checks.first_line_of Checks.first_lines Checks.size_of Checks.reads_integer Checks.set_field
    Checks.merge Checks.suffixed Checks.rows_of Site.regular Site.descend Site.member Site.sha_below
    Site.reference Site.linked Site.ref Signatures.names_signer Signatures.has_approval
    Signatures.unrestricted Signatures.key_words Signatures.git_keys Signatures.approved_identity
    Signatures.verify_ssh_signature Signatures.verify_tag ThirdParty.differs
    ThirdParty.check_report_identity ThirdParty.check_performer ThirdParty.statement_of
    ThirdParty.identity_of ThirdParty.check_statement ThirdParty.check_authorization
    ThirdParty.check_signed ThirdParty.check_third_party
third_party-accepted = refl

abbrev pub release_summary : Value
release_summary = value_in (
    check_release files host.read_text host.is_signed host.git_verify_tag host.rev_parse
      host.items_of host.sha_bytes host.open_tar host.loads_bytes host.digest host.query_release
      host.load_policy host.current_snapshot [] ("release.json" ∷ "ev" ∷ []) commit)

pub release-accepted :
    check_release files host.read_text host.is_signed host.git_verify_tag host.rev_parse
      host.items_of host.sha_bytes host.open_tar host.loads_bytes host.digest host.query_release
      host.load_policy host.current_snapshot []
      ("release.json" ∷ "ev" ∷ [])
      commit
    ≡ ok release_summary
unfolding Json.equal Json.equal_items Json.equal_fields Json.same Json.same_items Json.same_fields
    Text.is_space Text.is_blank Text.starts_with Text.ends_with Text.occurs Text.append Text.spaced
    Text.is_line_end Text.first_line Text.skip_spaces Text.trim_end Text.lines Text.words
    Sorted.text_leb Sorted.insert Sorted.sorted Result.require Result.both Result.◌>>=◌ Names.split
    Names.extend Names.join Names.keep_parts Names.is_absolute Names.has_bad Names.all_plain
    Names.safe_name Manifest.fields Manifest.integer Manifest.is_hex_text Manifest.digest
    Manifest.size_ok Manifest.new_size Manifest.add_members Manifest.manifest_members Stages.text
    Stages.names_in Stages.are_texts Stages.linked Stages.reference Stages.check_stage
    Stages.check_each Stages.check_stages Inventory.rstrip Inventory.entry_of Inventory.take_items
    Inventory.tar_inventory Checks.all_hold Checks.expect Checks.reach Checks.reads Checks.agree
    Checks.reads_true Checks.reads_false Checks.is_number Checks.reads_number Checks.reads_one_of
    Checks.has_names Checks.part Checks.texts_of Checks.each_field Checks.need Checks.fields_of
    Checks.first_line_of Checks.first_lines Checks.size_of Checks.reads_integer Checks.set_field
    Checks.merge Checks.suffixed Checks.rows_of Site.regular Site.descend Site.member Site.sha_below
    Site.reference Site.linked Site.ref Proof.after_prefix Proof.marked Proof.only_row
    Proof.names_of Proof.groups_of Proof.groups_at Proof.are_distinct Proof.is_clean
    Proof.require_equal Proof.same_texts Proof.check_groups Proof.check_witnesses Proof.check_axioms
    Proof.parse_audit Proof.hashes Proof.boundary_hashes Proof.check_audit Lean.need_log
    Lean.need_logs Lean.has_log_name Lean.reads_same Lean.check_public Lean.check_status
    Lean.read_stage Lean.read_stages Lean.check_recorded Lean.check_lean Signatures.names_signer
    Signatures.has_approval Signatures.unrestricted Signatures.key_words Signatures.git_keys
    Signatures.approved_identity Signatures.verify_ssh_signature Signatures.verify_tag
    ThirdParty.differs ThirdParty.check_report_identity ThirdParty.check_performer
    ThirdParty.statement_of ThirdParty.identity_of ThirdParty.check_statement
    ThirdParty.check_authorization ThirdParty.check_signed ThirdParty.check_third_party
    Capsule.bundle_of Capsule.only_item Capsule.archive_member_bytes Snapshot.without_field
    Snapshot.reads_hex Snapshot.reads_empty Snapshot.reads_full Snapshot.repository_heads
    Snapshot.check_file Snapshot.is_unnested Snapshot.check_repository Snapshot.check_digest
    Snapshot.validate_snapshot Inspect.mode_of Inspect.need_mode Inspect.check_member
    Inspect.mode_bits Inspect.payload_name Inspect.check_payload Inspect.payload_names
    Inspect.check_source Inspect.check_sources Inspect.sized Inspect.member_rows
    Inspect.read_manifest Inspect.read_snapshot Inspect.inspect Package.check_release_identity
    Package.check_manifest_identity Package.need_member Package.without_member Package.all_members
    Package.same_members Package.check_required Package.has_names_in Package.check_docs
    Package.check_archive Package.check_manifest_file Package.check_members Package.check_tool_asset
    Publication.get Publication.gets Publication.gets_true Publication.gets_false
    Publication.put_asset Publication.add_assets Publication.assets_of Publication.check_live
    Publication.asset_value Publication.reads_asset Publication.gets_size Publication.gets_digest
    Publication.check_asset Publication.same_bytes Publication.check_download Publication.set_path
    Publication.expected_assets Publication.check_assets Publication.check_downloads
    Publication.check_publication Publication.check_capsule Publication.check_signed
    Publication.check_release
release-accepted = refl

abbrev pub members_in : Result (Value × Fields) → Fields
members_in (ok (v, rows)) = rows
members_in _ = Fields.end

abbrev pub capsule_rows : Fields
capsule_rows =
    members_in (inspect loads_bytes host.digest host.sha_bytes capsule commit (some snapshot))

pub capsule-accepted :
    inspect loads_bytes host.digest host.sha_bytes capsule commit (some snapshot)
    ≡ ok (snapshot, capsule_rows)
unfolding Json.equal Json.equal_items Json.equal_fields Json.same Json.same_items Json.same_fields
    Text.is_space Text.is_blank Text.starts_with Text.ends_with Text.occurs Text.append Text.spaced
    Text.is_line_end Text.first_line Text.skip_spaces Text.trim_end Text.lines Text.words
    Sorted.text_leb Sorted.insert Sorted.sorted Result.require Result.both Result.◌>>=◌ Names.split
    Names.extend Names.join Names.keep_parts Names.is_absolute Names.has_bad Names.all_plain
    Names.safe_name Manifest.fields Manifest.integer Manifest.is_hex_text Manifest.digest
    Manifest.size_ok Manifest.new_size Manifest.add_members Manifest.manifest_members Stages.text
    Stages.names_in Stages.are_texts Stages.linked Stages.reference Stages.check_stage
    Stages.check_each Stages.check_stages Inventory.rstrip Inventory.entry_of Inventory.take_items
    Inventory.tar_inventory Checks.all_hold Checks.expect Checks.reach Checks.reads Checks.agree
    Checks.reads_true Checks.reads_false Checks.is_number Checks.reads_number Checks.reads_one_of
    Checks.has_names Checks.part Checks.texts_of Checks.each_field Checks.need Checks.fields_of
    Checks.first_line_of Checks.first_lines Checks.size_of Checks.reads_integer Checks.set_field
    Checks.merge Checks.suffixed Checks.rows_of Site.regular Site.descend Site.member Site.sha_below
    Site.reference Site.linked Site.ref Proof.after_prefix Proof.marked Proof.only_row
    Proof.names_of Proof.groups_of Proof.groups_at Proof.are_distinct Proof.is_clean
    Proof.require_equal Proof.same_texts Proof.check_groups Proof.check_witnesses Proof.check_axioms
    Proof.parse_audit Proof.hashes Proof.boundary_hashes Proof.check_audit Lean.need_log
    Lean.need_logs Lean.has_log_name Lean.reads_same Lean.check_public Lean.check_status
    Lean.read_stage Lean.read_stages Lean.check_recorded Lean.check_lean
    Package.check_release_identity Package.check_manifest_identity Package.need_member
    Package.without_member Package.all_members Package.same_members Package.check_required
    Package.has_names_in Package.check_docs Package.check_archive Package.check_manifest_file
    Package.check_members Package.check_tool_asset Capsule.bundle_of Capsule.only_item
    Capsule.archive_member_bytes Snapshot.without_field Snapshot.reads_hex Snapshot.reads_empty
    Snapshot.reads_full Snapshot.repository_heads Snapshot.check_file Snapshot.is_unnested
    Snapshot.check_repository Snapshot.check_digest Snapshot.validate_snapshot Inspect.mode_of
    Inspect.need_mode Inspect.check_member Inspect.mode_bits Inspect.payload_name
    Inspect.check_payload Inspect.payload_names Inspect.check_source Inspect.check_sources
    Inspect.sized Inspect.member_rows Inspect.read_manifest Inspect.read_snapshot Inspect.inspect
capsule-accepted = refl

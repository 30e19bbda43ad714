-- ===== src/Runtime/Tests.antt =====
-- One case of the corpus, its matrix of mutations, and the theorems at it.
mod Corpus
pub mod Whole
use ckb_vm_sail_verify.Runtime.Tests.Corpus.{
  Sample, addi_word, trace_of, empty_environment, artifact_of, row_of, summary_of,
}
use ckb_vm_sail_verify.Base.{
  String, ℕ, ◌≡◌, refl, ◌↔◌, true, false, none, List, [], ◌∷◌, pos, here, there,
}
use ckb_vm_sail_verify.Base.Result.{ok, require, both, ◌>>=◌}
use ckb_vm_sail_verify.Base.Json.{
  Value, null, bool, int, str, list, dict, nil, end, items, fields, item, equal, same,
}
use ckb_vm_sail_verify.Minimize.Decimal
use ckb_vm_sail_verify.Minimize.Artifact
use ckb_vm_sail_verify.Minimize.Artifact.{hex_words, reset_state}
use ckb_vm_sail_verify.Release.Manifest
use ckb_vm_sail_verify.Audit.Checks
use ckb_vm_sail_verify.Audit.Checks.{reach}
use ckb_vm_sail_verify.Runtime.Trace
use ckb_vm_sail_verify.Runtime.Trace.{first_difference}
use ckb_vm_sail_verify.Runtime.Trace.Agreeing.{IsSame, first_difference_iff}
use ckb_vm_sail_verify.Runtime.Case
use ckb_vm_sail_verify.Runtime.Case.{complete, full_comparison, check_case}
use ckb_vm_sail_verify.Runtime.Case.Accepted.{IsAccepted, check_case_sound}
use ckb_vm_sail_verify.Runtime.Mutations
use ckb_vm_sail_verify.Runtime.Mutations.{Tally, counted, check_mutations}
use ckb_vm_sail_verify.Runtime.Mutations.Located.{IsFound, mutation-IsFound}
use ckb_vm_sail_verify.Runtime.Mutations.Matrix.{IsMutated, check_mutations_sound}

abbrev sample : Sample
sample = record { id = "addi-one"; family = "ADDI"; word = addi_word }

abbrev one_trace : Value
one_trace = trace_of addi_word

abbrev one_artifact : Value
one_artifact = artifact_of empty_environment sample

abbrev one_row : Value
one_row = row_of sample

abbrev mutation_summary : Value
mutation_summary = summary_of "addi-one" (sample ∷ [])

case_accepted : check_case one_row one_artifact empty_environment ≡ ok tt
unfolding require both ◌>>=◌ equal same Trace.differing_field Trace.differing_event Trace.events_in
    Trace.last_difference Trace.differing_end Trace.differing_rest Trace.first_difference
    Trace.assign Trace.elem Trace.pop Trace.has_writes Trace.next_written Trace.written_index
    Trace.as_number Trace.mutated_write Trace.mutated_writes Trace.mutated_event Trace.with_events
    Trace.changed_at Trace.with_write Trace.mutated Case.bounded Case.program_words Case.opcode_of
    Case.reads_none Case.reads_exactly Case.keep Case.check_evidence Case.check_writes
    Case.check_event Case.check_events Case.check_trace Case.check_packets Case.is_nothing
    Case.check_agreement Case.check_program Case.check_case Case.only_result Case.check_replay
    Mutations.expected_field Mutations.text_at Mutations.key_of Mutations.keys_of
    Mutations.case_named Mutations.reads_reason Mutations.check_skipped Mutations.check_applied
    Mutations.check_outcome Mutations.check_located Mutations.check_mutation Mutations.check_rows
    Mutations.coverage_kinds Mutations.reads_located Mutations.check_tally Mutations.check_tallies
    Mutations.check_coverage Mutations.check_mutations Checks.all_hold Checks.expect Checks.reach
    Checks.reads Checks.agree Checks.reads_true Checks.reads_false Checks.is_number
    Checks.reads_number Checks.reads_one_of Checks.has_names Checks.part Checks.texts_of
    Checks.each_field Checks.need Checks.fields_of Checks.first_line_of Checks.first_lines
    Checks.size_of Checks.reads_integer Checks.set_field Checks.merge Checks.suffixed Checks.rows_of
    Manifest.fields Manifest.digest Manifest.is_hex_text Artifact.word_of Artifact.words_of
    Decimal.hex_word
case_accepted = refl

first_difference_iff_example :
    (first_difference one_trace one_trace ≡ ok (none, none)) ↔ IsSame one_trace one_trace
first_difference_iff_example = first_difference_iff one_trace one_trace

check_case_sound_example : IsAccepted one_row one_artifact
check_case_sound_example = check_case_sound one_row one_artifact empty_environment case_accepted

mutation-IsFound_example :
    (ckb : Value) × (sail : Value) × (focus : ℕ) × (item one_artifact "ckb_trace" ≡ ok ckb)
    × (item one_artifact "sail_trace" ≡ ok sail)
    × (reach one_artifact ("case" ∷ "focus_step" ∷ []) ≡ ok (int (pos focus)))
    × IsFound ckb sail "pc_after" focus
    × IsFound ckb sail "trap" focus
mutation-IsFound_example = mutation-IsFound one_row one_artifact empty_environment case_accepted

abbrev cases : List (String × Value)
cases = ("addi-one", one_artifact) ∷ []

-- What the six mutations of the case come to.
abbrev all_located : Tally
all_located = record {
  skipped = 0;
  located =
      ("termination", "addi-one")
      ∷ ("trace_length", "addi-one")
      ∷ ("trap", "addi-one")
      ∷ ("register_value", "addi-one")
      ∷ ("register_index", "addi-one")
      ∷ ("pc_after", "addi-one")
      ∷ [];
}

mutations_accepted : check_mutations mutation_summary cases ≡ ok (dict (counted all_located))
unfolding require both ◌>>=◌ equal same Trace.differing_field Trace.differing_event Trace.events_in
    Trace.last_difference Trace.differing_end Trace.differing_rest Trace.first_difference
    Trace.assign Trace.elem Trace.pop Trace.has_writes Trace.next_written Trace.written_index
    Trace.as_number Trace.mutated_write Trace.mutated_writes Trace.mutated_event Trace.with_events
    Trace.changed_at Trace.with_write Trace.mutated Case.bounded Case.program_words Case.opcode_of
    Case.reads_none Case.reads_exactly Case.keep Case.check_evidence Case.check_writes
    Case.check_event Case.check_events Case.check_trace Case.check_packets Case.is_nothing
    Case.check_agreement Case.check_program Case.check_case Case.only_result Case.check_replay
    Mutations.expected_field Mutations.text_at Mutations.key_of Mutations.keys_of
    Mutations.case_named Mutations.reads_reason Mutations.check_skipped Mutations.check_applied
    Mutations.check_outcome Mutations.check_located Mutations.check_mutation Mutations.check_rows
    Mutations.coverage_kinds Mutations.reads_located Mutations.check_tally Mutations.check_tallies
    Mutations.check_coverage Mutations.check_mutations Checks.all_hold Checks.expect Checks.reach
    Checks.reads Checks.agree Checks.reads_true Checks.reads_false Checks.is_number
    Checks.reads_number Checks.reads_one_of Checks.has_names Checks.part Checks.texts_of
    Checks.each_field Checks.need Checks.fields_of Checks.first_line_of Checks.first_lines
    Checks.size_of Checks.reads_integer Checks.set_field Checks.merge Checks.suffixed Checks.rows_of
    Manifest.fields Manifest.digest Manifest.is_hex_text Artifact.word_of Artifact.words_of
    Decimal.hex_word
mutations_accepted = refl

check_mutations_sound_example : IsMutated cases "addi-one" "register_value"
check_mutations_sound_example =
    check_mutations_sound mutation_summary (dict (counted all_located)) cases mutations_accepted
      "addi-one" "register_value" (there (there here))

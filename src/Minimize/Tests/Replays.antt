-- ===== src/Minimize/Tests/Replays.antt =====
-- One replay of the small system, and the theorems at it.
use ckb_vm_sail_verify.Base.{
  ℕ, ◌≡◌, ◌≤◌, ◌↔◌, refl, false, Option, some, List, [], ◌∷◌, length, pos, arith,
}
use ckb_vm_sail_verify.Base.Result.{Result, ok, err}
use ckb_vm_sail_verify.Base.Result
use ckb_vm_sail_verify.Base.Exec.{◌>>=◌}
use ckb_vm_sail_verify.Base.Json.{Value, null, int, equal}
use ckb_vm_sail_verify.Minimize.Decimal.{hex_word, decimal, decimal5}
use ckb_vm_sail_verify.Minimize.Artifact.{
  Signature, instruction_words, mismatch, located, step_signature, step_index, length_of, row,
  events_of, field_name, require_trace, passing, program, signature,
}
use ckb_vm_sail_verify.Minimize.Artifact.Program.{IsReplayable, IsSequence, program_iff}
use ckb_vm_sail_verify.Minimize.Trial.{
  check_mode, check_result, agree, words_eq, check_keys, check_trial, check_environment,
}
use ckb_vm_sail_verify.Minimize.Trial.Checked.{check_trial_sound}
use ckb_vm_sail_verify.Minimize.Oracle.{
  Identity, Session, started, update_last, system, ask, set_trials, save_now, identify, identity_eq,
  check_identity, attempt, guarded, settle, trial, evaluate,
}
use ckb_vm_sail_verify.Minimize.Input.{candidate_of}
use ckb_vm_sail_verify.Minimize.Oracle.Records.{evaluate_bounded}
use ckb_vm_sail_verify.Minimize.Input.Candidate.{candidate_accepted}
use ckb_vm_sail_verify.Minimize.Run.{initial_report}
use ckb_vm_sail_verify.Minimize.Tests.Toy.{toy, arguments, recorded, start, artifact, envelope}

abbrev two_words : List ℕ
two_words = 7 ∷ 9 ∷ []

abbrev difference : Signature
difference = record { field = "rd_value"; offending_words = some (int (pos 7), int (pos 7)) }

program_iff_example :
    (program recorded ≡ ok (7 ∷ 3 ∷ 9 ∷ [])) ↔ IsReplayable recorded (7 ∷ 3 ∷ 9 ∷ [])
program_iff_example = program_iff recorded (7 ∷ 3 ∷ 9 ∷ [])

checked_pair :
    check_trial (envelope two_words false) (artifact "candidate" two_words false) (pos 1) two_words
    ≡ ok (some difference)
unfolding Result.◌>>=◌ program signature instruction_words mismatch located step_signature
    step_index length_of row events_of field_name require_trace passing check_mode check_result
    agree words_eq check_trial equal decimal hex_word
checked_pair = refl

check_trial_sound_example :
    (program (artifact "candidate" two_words false) ≡ ok two_words)
    × (signature (artifact "candidate" two_words false) ≡ ok (some difference))
    × (pos 1 ≡ pos 1)
check_trial_sound_example =
    check_trial_sound (envelope two_words false) (artifact "candidate" two_words false) (pos 1)
      two_words (some difference) checked_pair

written : Value
unfolding candidate_of Result.◌>>=◌
written = value (candidate_of recorded two_words)
  where
    value : Result Value → Value
    value (ok v) = v
    value (err e) = null

recorded-program : program recorded ≡ ok (7 ∷ 3 ∷ 9 ∷ [])
unfolding Result.◌>>=◌ program instruction_words equal decimal hex_word length_of
recorded-program = refl

candidate-written : candidate_of recorded two_words ≡ ok written
unfolding written
candidate-written = refl

two_words-IsSequence : IsSequence two_words
two_words-IsSequence = record {
  nonempty = omega arith;
  short = omega arith;
  in_range = (omega arith, (omega arith, tt));
}

candidate_accepted_example : program written ≡ ok two_words
candidate_accepted_example =
    candidate_accepted recorded written (7 ∷ 3 ∷ 9 ∷ []) two_words recorded-program
      two_words-IsSequence candidate-written

abbrev identity : Identity
identity = record { differential_binary = "diff"; sail_binary = "sail"; sail_config = "config" }

session : Session toy
unfolding initial_report
session = record { world = start; report = initial_report (7 ∷ 3 ∷ 9 ∷ []) (some difference) }

answer : Result (Option Signature) × Session toy
unfolding session ◌>>=◌ Result.◌>>=◌ program signature instruction_words mismatch located
    step_signature step_index length_of row events_of field_name require_trace passing check_mode
    check_result agree words_eq check_keys identify ask evaluate trial check_identity identity_eq
    system candidate_of started set_trials save_now guarded attempt update_last settle check_trial
    check_environment decimal5 decimal hex_word equal
answer = evaluate toy (arguments 20) recorded identity two_words session

session-few : length session.report.trials ≤ 20
unfolding session
session-few = omega arith

evaluate_bounded_example :
    length (evaluate toy (arguments 20) recorded identity two_words session).1.report.trials ≤ 20
evaluate_bounded_example =
    evaluate_bounded toy (arguments 20) recorded identity two_words session session-few

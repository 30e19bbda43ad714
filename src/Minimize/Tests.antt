-- ===== src/Minimize/Tests.antt =====
-- Runs of the minimizer over a small system, and the theorems at these runs.
mod Toy
mod Replays
use Toy.{Files, toy, arguments, recorded, start}
use ckb_vm_sail_verify.Base.{
  ℕ, ◌<◌, ◌≤◌, ◌≡◌, refl, Bool, true, false, ◌&&◌, ◌||◌, Option, none, some, List, [], ◌∷◌, ◌++◌,
  length, ◌==◌, str_eq, if◌then◌else◌, String, ◌<>◌, ℤ, pos, inl, inr, ◌⊎◌, arith, map,
}
use ckb_vm_sail_verify.Base.Result.{Result, ok, err, os_error, budget_exhausted}
use ckb_vm_sail_verify.Base.Result
use ckb_vm_sail_verify.Base.Exec.{◌>>=◌}
use ckb_vm_sail_verify.Base.Json.{
  Value, null, bool, int, str, list, dict, item, items, fields, equal,
}
use ckb_vm_sail_verify.Minimize.Decimal.{hex_word, decimal, decimal5}
use ckb_vm_sail_verify.Minimize.Artifact.{
  Signature, instruction_words, mismatch, located, step_signature, step_index, length_of, row,
  events_of, field_name, require_trace, passing, program, signature, hex_words, reset_state,
  matches,
}
use ckb_vm_sail_verify.Minimize.Trial.{
  check_mode, check_result, agree, words_eq, check_keys, check_trial, check_environment,
  environment_keys, summary_of,
}
use ckb_vm_sail_verify.Minimize.Search.{
  pick, shortest_subsequence, range_from, combinations, try_each, try_sizes,
}
use ckb_vm_sail_verify.Minimize.Search.Combinations.{Subseq, done, skip, keep}
use ckb_vm_sail_verify.Minimize.Oracle.{
  ReportStatus, Report, Trial, System, Arguments, started, update_last, system, ask, set_trials,
  save_now, identify, identity_eq, check_identity, attempt, guarded, settle, trial, evaluate,
}
use ckb_vm_sail_verify.Minimize.Input.{candidate_of}
use ckb_vm_sail_verify.Base.Text.{is_blank}
use ckb_vm_sail_verify.Minimize.Run.{
  run, query, minimize, failure, finish, conclude, search, initial_report, contains, record_minimum,
}
use ckb_vm_sail_verify.Minimize.Run.Minimal.{Row}
use ckb_vm_sail_verify.Minimize.Run.Outcome.{Outcome}
use ckb_vm_sail_verify.Minimize.Run.Verdict.{run_minimal, run_shown, run_exit, search_returns}

-- A run with enough budget: seven trials.
done_run : Result (ℕ × Report) × Files
unfolding run contains is_blank query ◌>>=◌ Result.◌>>=◌ program signature instruction_words
    mismatch located step_signature step_index length_of row events_of field_name require_trace
    passing check_mode check_result agree words_eq check_keys search minimize identify ask evaluate
    trial check_identity identity_eq system candidate_of started set_trials save_now guarded attempt
    update_last settle check_trial check_environment matches shortest_subsequence try_sizes try_each
    combinations range_from pick record_minimum conclude finish failure initial_report decimal5
    decimal hex_word equal
done_run = run toy (arguments 20) start

report_of : Result (ℕ × Report) × Files → Report
report_of (ok (_, r), _) = r
report_of (err _, _) = initial_report [] none

final : Report
unfolding done_run report_of
final = report_of done_run

run_returns : run toy (arguments 20) start ≡ (ok (0, final), done_run.1)
unfolding final
run_returns = refl

-- A shorter input that was tried, and does not show the difference.
run_minimal_example : Row final final.signature (7 ∷ []) false
run_minimal_example =
    run_minimal toy (arguments 20) start done_run.1 final (7 ∷ 9 ∷ []) (7 ∷ []) run_returns
      (unfold final in refl) (unfold final in keep 7 (skip 3 (skip 9 done))) (omega arith)
      (omega arith)

run_shown_example :
    (minimum indices : List ℕ) × (final.minimal_words ≡ some minimum)
    × (final.retained_indices ≡ some indices)
    × (minimum ≡ pick final.original_words indices)
    × Subseq minimum final.original_words
    × Row final final.signature minimum true
run_shown_example = run_shown toy (arguments 20) start done_run.1 final run_returns

found_words : final.minimal_words ≡ some (7 ∷ 9 ∷ [])
unfolding final
found_words = refl

run_exit_example :
    ((◌≡◌ {A = ℕ} 0 0) × (final.status ≡ ReportStatus.minimized) × (final.minimum_proved ≡ true))
    ⊎ ((◌≡◌ {A = ℕ} 0 2)
        × (final.status ≡ ReportStatus.incomplete)
        × (final.minimum_proved ≡ false)
        × ((m : String) × (final.error ≡ some (budget_exhausted m))))
    ⊎ ((◌≡◌ {A = ℕ} 0 1) × (final.status ≡ ReportStatus.failed) × (final.minimum_proved ≡ false))
run_exit_example = run_exit toy (arguments 20) start done_run.1 0 final run_returns

search_returns_example :
    (code : ℕ) × (r : Report) × ((search toy
        (arguments 2)
        recorded
        final.original_words
        final.signature
        "recorded.json"
        "script"
        start).0
      ≡ ok (code, r))
    × Outcome final.original_words final.signature code r
search_returns_example =
    search_returns toy (arguments 2) (λ r u. refl) recorded final.original_words final.signature
      "recorded.json" "script" start

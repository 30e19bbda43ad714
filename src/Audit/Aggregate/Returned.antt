-- ===== src/Audit/Aggregate/Returned.antt =====
-- That an audit of a loaded manifest comes to a verdict, and the codes of the script.
use ckb_vm_sail_verify.Base.{String, ℕ, ◌≡◌, List, All}
use ckb_vm_sail_verify.Base.Result.{Result, ok}
use ckb_vm_sail_verify.Base.Result.Returns.{Returns}
use ckb_vm_sail_verify.Base.Json.{Value, item}
use ckb_vm_sail_verify.Audit.Aggregate.{slot_names, is_passed, Report}
use ckb_vm_sail_verify.Audit.Aggregate.Verdict.{IsCode}

-- The rows of all slots are there.
abbrev pub HasRows : Value → List String → Type 0
HasRows rows names = All (λ name. (row : Value) × (item rows name ≡ ok row)) names

-- What a loaded manifest has.
pub record IsLoaded (manifest : Value) : Type 0 where
  pub candidate : Value
  pub has_candidate : item manifest "candidate" ≡ ok candidate
  pub rows : Value
  pub has_rows : item manifest "slots" ≡ ok rows
  pub all_rows : HasRows rows slot_names

-- A report whose code and whose claim agree with its status.
abbrev IsCoded : Report × ℕ → Type 0
IsCoded (report, code) =
    IsCode report.status code × (report.release_claimed ≡ is_passed report.status)

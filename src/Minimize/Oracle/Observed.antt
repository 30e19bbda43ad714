-- ===== src/Minimize/Oracle/Observed.antt =====
-- An answer of the oracle comes from a replay that was checked.
use ckb_vm_sail_verify.Base.{ℕ, ◌≡◌, Option, List, ℤ}
use ckb_vm_sail_verify.Base.Result.{Result, ok}
use ckb_vm_sail_verify.Base.Exec.Triple.{Triple}
use ckb_vm_sail_verify.Base.Json.{Value, item}
use ckb_vm_sail_verify.Minimize.Artifact.{Signature}
use ckb_vm_sail_verify.Minimize.Trial.{check_trial, check_environment}

-- What was checked of the replay of `words` that was observed to be `o`: the envelope and the
-- artifact against each other, and the environments.
pub record IsChecked (recorded : Value) (words : List ℕ) (o : Option Signature) : Type 0 where
  pub envelope : Value
  pub artifact : Value
  pub exit_code : ℤ
  pub before : Value
  pub after : Value
  pub checked : check_trial envelope artifact exit_code words ≡ ok o
  pub recorded_environment : item recorded "environment" ≡ ok before
  pub fresh_environment : item artifact "environment" ≡ ok after
  pub same_environment : check_environment before after ≡ ok tt

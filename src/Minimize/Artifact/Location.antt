-- ===== src/Minimize/Artifact/Location.antt =====
-- Where the difference is that `signature` finds.
use ckb_vm_sail_verify.Base.{ℕ, ◌≡◌, true, Option, none, some, String, ◌⊎◌}
use ckb_vm_sail_verify.Base.Result.{ok}
use ckb_vm_sail_verify.Base.Result.Returns.{Returns}
use ckb_vm_sail_verify.Base.Json.{Value, item, is_true, is_false}
use ckb_vm_sail_verify.Minimize.Artifact.{Signature, events_of, row}

-- Both engines report an instruction at step `n` of their traces: `x` and `y`.
pub record IsAt (left right : Value) (n : ℕ) (x y : Value) : Type 0 where
  pub left_row : Value
  pub right_row : Value
  pub has_left : row left n ≡ ok left_row
  pub has_right : row right n ≡ ok right_row
  pub left_word : item left_row "instruction" ≡ ok x
  pub right_word : item right_row "instruction" ≡ ok y

-- The words of a signature come from one step of both traces; with no words, the field is one that
-- need not have a step.
abbrev pub Place : Value → Value → String → Option (Value × Value) → Type 0
Place left right name none = (name ≡ "trace_length") ⊎ (name ≡ "termination")
Place left right name (some (x, y)) = (n : ℕ) × IsAt left right n x y

abbrev pub IsLocated : Value → Value → Signature → Type 0
IsLocated left right s = Place left right s.field s.offending_words

-- What a recorded difference says of its artifact.
abbrev pub IsRecorded : Value → Signature → Type 0
IsRecorded artifact s =
    (left : Value) × (right : Value) × (events_of artifact "ckb_trace" ≡ ok left)
    × (events_of artifact "sail_trace" ≡ ok right)
    × IsLocated left right s

abbrev Verdict : Value → Value → Option Signature → Type 0
Verdict artifact passed none = is_true passed ≡ true
Verdict artifact passed (some s) = (is_false passed ≡ true) × IsRecorded artifact s

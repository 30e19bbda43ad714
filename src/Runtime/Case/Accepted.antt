-- ===== src/Runtime/Case/Accepted.antt =====
-- What an accepted case shows.
use ckb_vm_sail_verify.Base.{
  String, ℕ, ◌≡◌, refl, ap, ◌∙◌, true, Option, none, some, List, [], ◌∷◌, pos, length, ==_iff,
  get_or,
}
use ckb_vm_sail_verify.Base.Result.{ok}
use ckb_vm_sail_verify.Base.Result.Returns.{
  Returns, Returns-ok, Returns-bind, Returns-require, Returns-self, require-eq-true,
}
use ckb_vm_sail_verify.Base.Json.{Value, int, str, bool, item}
use ckb_vm_sail_verify.Audit.Checks.Facts.{
  Reads, Returns-expect, expect-Returns, reads-str, reads_true-bool,
}
use Prim.Native.Nat.{bit_and, ◌<◌}
use ckb_vm_sail_verify.Base.{ltb→lt}
use ckb_vm_sail_verify.Runtime.Trace.Agreeing.{IsSame, first_difference_iff}
use ckb_vm_sail_verify.Runtime.Case.{
  program_words, opcode_of, check_evidence, check_agreement, check_program, is_nothing,
  check_packets, check_case,
}
use ckb_vm_sail_verify.Runtime.Case.Run.{bounded-Returns, IsRecorded, check_trace-IsRecorded}

-- The words are those of the case, and at its focus stands an opcode of its family.
pub record IsProgram (case : Value) (words : List ℕ) : Type 0 where
  pub given : Value
  pub has_instructions : item case "instructions" ≡ ok given
  pub has_words : program_words given ≡ ok words
  pub focus : ℕ
  pub has_focus : item case "focus_step" ≡ ok (int (pos focus))
  pub inside : focus < length words
  pub family : Value
  pub has_family : item case "family" ≡ ok family
  pub mask : ℕ
  pub opcode : ℕ
  pub is_family : opcode_of family ≡ ok (mask, opcode)
  pub at_focus : bit_and (get_or words focus 0) mask ≡ opcode

check_program-IsProgram :
    (artifact case : Value) → Returns (λ words. IsProgram case words) (check_program artifact case)
unfolding check_program
check_program-IsProgram artifact case = Returns-bind λ given e. Returns-bind λ words f.
    Returns-bind λ step g. Returns-bind λ focus h. Returns-require _ λ inside.
      Returns-expect _ _ λ _. Returns-bind λ family k. Returns-bind λ opcode l.
        Returns-require _ λ m. Returns-ok words (record {
          given = given;
          has_instructions = e;
          has_words = f;
          focus = focus;
          has_focus = g ∙ ap ok ((bounded-Returns step (length words)).at focus h).0;
          inside = ltb→lt _ _ inside;
          family = family;
          has_family = k;
          mask = opcode.0;
          opcode = opcode.1;
          is_family = l;
          at_focus = (==_iff _ _).0 m;
        })

-- A report or an artifact says that the case passed, with nothing left out.
pub record IsPassing (evidence : Value) : Type 0 where
  pub passed : Reads evidence ("passed" ∷ []) (bool true)
  pub match : Reads evidence ("classification" ∷ []) (str "match")

check_evidence-IsPassing :
    (evidence : Value) (count : ℕ)
    → Returns (λ _. IsPassing evidence) (check_evidence evidence count)
unfolding check_evidence
check_evidence-IsPassing evidence count = Returns-expect _ _ λ h.
    expect-Returns _ _
      λ _. record { passed = reads_true-bool _ _ h.0; match = reads-str _ _ _ h.1.0 }

is_nothing-none :
    (found : Option String × Option ℕ) → is_nothing found ≡ true → found ≡ (none, none)
unfolding is_nothing
is_nothing-none (none, none) h = refl
is_nothing-none (none, some i) h = cc
is_nothing-none (some k, none) h = cc
is_nothing-none (some k, some i) h = cc

check_agreement-IsSame :
    (left right : Value) → Returns (λ _. IsSame left right) (check_agreement left right)
unfolding check_agreement
check_agreement-IsSame left right = Returns-bind λ found e. Returns-self _ λ u h.
    (first_difference_iff left right).0
      (e ∙ ap ok (is_nothing-none found (require-eq-true _ _ u h)))

-- Both traces record a run of the words of the case, from the reset vector to the end of the words, and
-- have the same observations.
pub record IsAccepted (row artifact : Value) : Type 0 where
  pub case : Value
  pub has_case : item artifact "case" ≡ ok case
  pub words : List ℕ
  pub is_program : IsProgram case words
  pub row_passing : IsPassing row
  pub artifact_passing : IsPassing artifact
  pub ckb : Value
  pub sail : Value
  pub has_ckb : item artifact "ckb_trace" ≡ ok ckb
  pub has_sail : item artifact "sail_trace" ≡ ok sail
  pub ckb_run : IsRecorded ckb words
  pub sail_run : IsRecorded sail words
  pub same_traces : IsSame ckb sail
  pub packets : Value
  pub has_packets : item artifact "sail_raw_packets" ≡ ok packets
  pub packets_passed : check_packets packets (length words) ≡ ok tt

check_case-IsAccepted :
    (row artifact environment : Value)
    → Returns (λ _. IsAccepted row artifact) (check_case row artifact environment)
unfolding check_case
check_case-IsAccepted row artifact environment = Returns-expect _ _ λ _. Returns-bind λ case a.
    Returns-bind λ words b. Returns-expect _ _ λ _. Returns-expect _ _ λ _. Returns-bind λ _ _.
      Returns-expect _ _ λ _. Returns-bind λ b1 c. Returns-bind λ b2 d. Returns-bind λ ckb e.
        Returns-bind λ b3 f. Returns-bind λ sail g. Returns-bind λ b4 h. Returns-bind λ b5 k.
          Returns-bind λ packets l. Returns-bind λ b6 m. Returns-bind λ _ _. Returns-self _ λ _ _.
            record {
              case = case;
              has_case = a;
              words = words;
              is_program = (check_program-IsProgram artifact case).at words b;
              row_passing = (check_evidence-IsPassing row _).at b1 c;
              artifact_passing = (check_evidence-IsPassing artifact _).at b2 d;
              ckb = ckb;
              sail = sail;
              has_ckb = e;
              has_sail = g;
              ckb_run = (check_trace-IsRecorded ckb words).at b3 f;
              sail_run = (check_trace-IsRecorded sail words).at b4 h;
              same_traces = (check_agreement-IsSame ckb sail).at b5 k;
              packets = packets;
              has_packets = l;
              packets_passed = m;
            }

-- An accepted case has two traces, each of a run of its whole program: every event executes its word at
-- the address where the one before it went on, from the reset vector on, without a trap, and writes
-- registers in their order. Both runs have the same observations, and at the focus of the case stands
-- an opcode of its family.
pub check_case_sound :
    (row artifact environment : Value)
    → check_case row artifact environment ≡ ok tt
    → IsAccepted row artifact
check_case_sound row artifact environment h =
    (check_case-IsAccepted row artifact environment).at tt h

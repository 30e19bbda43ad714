-- ===== src/Runtime/Case/Run.antt =====
-- The run that a trace of an accepted case records, as a step relation.
use ckb_vm_sail_verify.Base.{
  ℕ, suc, ◌≡◌, refl, ap, ◌∙◌, ◌≤◌, true, false, List, [], ◌∷◌, pos, leb→le, length,
}
use ckb_vm_sail_verify.Base.Result.{ok, bind-ok}
use ckb_vm_sail_verify.Base.Result.Returns.{
  Returns, Returns-ok, Returns-err, Returns-bind, Returns-require, Returns-self,
}
use ckb_vm_sail_verify.Base.Json.{Value, int, bool, list, nil, item, equal}
use ckb_vm_sail_verify.Audit.Checks.{rows_of}
use ckb_vm_sail_verify.Audit.Checks.Facts.{
  Reads, Returns-expect, reads-equal, reads_false-bool, reads_number-int,
}
use ckb_vm_sail_verify.Runtime.Trace.{events_in}
use ckb_vm_sail_verify.Runtime.Case.{
  bounded, check_writes, check_event, check_events, check_trace, complete,
}

abbrev pub last_word : ℕ
last_word = 0xffffffffffffffff

pub bounded-Returns :
    (v : Value) (high : ℕ) → Returns (λ n. (v ≡ int (pos n)) × n ≤ high) (bounded v high)
unfolding bounded
bounded-Returns (int (pos n)) high = Returns-require _ λ h. Returns-ok n (refl, leb→le n high h)
bounded-Returns v high = Returns-err _

-- The registers that are written are numbered upwards, from `low` to 31, and the values fit.
pub data AreWrites : ℕ → List Value → Type 0 where
  no_writes : {low : ℕ} → AreWrites low []
  writes :
      {low : ℕ} {write : Value} {rest : List Value} (index value : ℕ)
      → item write "index" ≡ ok (int (pos index))
      → item write "value" ≡ ok (int (pos value))
      → low ≤ index
      → index ≤ 31
      → value ≤ last_word
      → AreWrites (suc index) rest
      → AreWrites low (write ∷ rest)

check_writes-AreWrites :
    (low : ℕ) (rows : List Value) → Returns (λ _. AreWrites low rows) (check_writes low rows)
unfolding check_writes
check_writes-AreWrites low [] = Returns-ok tt no_writes
check_writes-AreWrites low (write ∷ rest) = Returns-bind λ _ _. Returns-bind λ given e.
    Returns-bind λ index f. Returns-require _ λ h. Returns-bind λ v g. Returns-bind λ value k.
      Returns-self _ λ u later.
        let (is_index, small) = (bounded-Returns given 31).at index f in
        let (is_value, fits) = (bounded-Returns v last_word).at value k in
        writes index value (e ∙ ap ok is_index) (g ∙ ap ok is_value) (leb→le low index h) small fits
          ((check_writes-AreWrites (suc index) rest).at u later)

-- The `i`th event executes `word` at `pc` and goes on at `next`, without a trap.
pub record IsEvent (i word pc : ℕ) (event : Value) (next : ℕ) : Type 0 where
  pub order : Reads event ("order" ∷ []) (int (pos i))
  pub instruction : Reads event ("instruction" ∷ []) (int (pos word))
  pub before : Reads event ("pc_before" ∷ []) (int (pos pc))
  pub after : item event "pc_after" ≡ ok (int (pos next))
  pub fits : next ≤ last_word
  pub no_trap : Reads event ("trap" ∷ []) (bool false)
  pub no_halt : Reads event ("halt" ∷ []) (bool false)
  pub memory : Value
  pub has_memory : Reads event ("memory" ∷ []) memory
  pub no_memory : equal memory (list nil) ≡ true
  pub given : Value
  pub has_writes : item event "register_writes" ≡ ok given
  pub rows : List Value
  pub has_rows : rows_of given ≡ ok rows
  pub written : AreWrites 1 rows

check_event-IsEvent :
    (i word pc : ℕ) (event : Value)
    → Returns (λ next. IsEvent i word pc event next) (check_event i word pc event)
unfolding check_event
check_event-IsEvent i word pc event = Returns-bind λ _ _. Returns-expect _ _ λ h.
    Returns-expect _ _ λ p. Returns-bind λ _ _. Returns-bind λ given e. Returns-bind λ next f.
      Returns-expect _ _ λ q. Returns-bind λ w g. Returns-bind λ rows r. Returns-bind λ b k.
        Returns-ok next (
          let (is_next, fits) = (bounded-Returns given last_word).at next f in
          let (memory, has_memory, no_memory) = reads-equal _ _ _ q.1.1.0 in
          record {
            order = reads_number-int _ _ _ h.0;
            instruction = reads_number-int _ _ _ h.1.0;
            before = reads_number-int _ _ _ p.0;
            after = e ∙ ap ok is_next;
            fits = fits;
            no_trap = reads_false-bool _ _ q.0;
            no_halt = reads_false-bool _ _ q.1.0;
            memory = memory;
            has_memory = has_memory;
            no_memory = no_memory;
            given = w;
            has_writes = g;
            rows = rows;
            has_rows = r;
            written = (check_writes-AreWrites 1 rows).at b k;
          })

-- The events execute the words in their order: each goes on where the one before it went to.
pub data IsRun : ℕ → List ℕ → ℕ → List Value → Type 0 where
  done : {i pc : ℕ} → IsRun i [] pc []
  step :
      {i word pc : ℕ} {words : List ℕ} {event : Value} {events : List Value} (next : ℕ)
      → IsEvent i word pc event next
      → IsRun (suc i) words next events
      → IsRun i (word ∷ words) pc (event ∷ events)

check_events-IsRun :
    (i : ℕ) (words : List ℕ) (pc : ℕ) (events : List Value)
    → Returns (λ _. IsRun i words pc events) (check_events i words pc events)
unfolding check_events
check_events-IsRun i [] pc [] = Returns-ok tt done
check_events-IsRun i (word ∷ words) pc (event ∷ events) = Returns-bind λ next e.
    Returns-self _ λ u f.
      step next ((check_event-IsEvent i word pc event).at next e)
        ((check_events-IsRun (suc i) words next events).at u f)
check_events-IsRun i [] pc (event ∷ events) = Returns-err _
check_events-IsRun i (word ∷ words) pc [] = Returns-err _

pub IsRun-length :
    {i pc : ℕ} {words : List ℕ} {events : List Value}
    → IsRun i words pc events
    → length events ≡ length words
IsRun-length done = refl
IsRun-length (step next event rest) = ap suc (IsRun-length rest)

-- A trace of the whole program, from the reset vector on, to the end of the injected words.
pub record IsRecorded (trace : Value) (words : List ℕ) : Type 0 where
  pub events : List Value
  pub has_events : events_in trace ≡ ok events
  pub run : IsRun 0 words 0x80000000 events
  pub last : Value
  pub has_end : Reads trace ("end" ∷ []) last
  pub is_complete : equal last complete ≡ true

pub check_trace-IsRecorded :
    (trace : Value) (words : List ℕ)
    → Returns (λ _. IsRecorded trace words) (check_trace trace words)
unfolding check_trace events_in
check_trace-IsRecorded trace words = Returns-bind λ _ _. Returns-bind λ given e.
    Returns-bind λ rows f. Returns-require _ λ _. Returns-expect _ _ λ h. Returns-self _ λ u g.
      let (last, has_end, is_complete) = reads-equal _ _ _ h.0 in
      record {
        events = rows;
        has_events = bind-ok _ e f;
        run = (check_events-IsRun 0 words 0x80000000 rows).at u g;
        last = last;
        has_end = has_end;
        is_complete = is_complete;
      }

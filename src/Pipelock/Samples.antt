-- ===== src/Pipelock/Samples.antt =====
-- A log of three lines, with a consumer that stores events or fails to.
use kiss_protocol.Base.{
  ℤ, pos, negsuc, ℕ, ◌≤◌, ◌≡◌, refl, ◌==◌, ◌&&◌, true, false, Option, none, some, List, [], ◌∷◌,
  ◌++◌, Bytes, codes, length, leb, if◌then◌else◌,
}
use kiss_protocol.Store.Head.{key_listed, is_empty}
use kiss_protocol.Pipelock.Lines.{split_line, trim_newline}
use kiss_protocol.Pipelock.Tailer.{
  FileIdent, same_ident, resumed, restarted, TailState, Tailer, StateCodec, FlushWorld, flush,
  open_info, new_tailer, consume, event_of, record_line, advance, advance_from, ack, ack_first,
  acked_next, flush_locked,
}
use kiss_protocol.Pipelock.Delivery.{
  Tailing, TailStep, reads, stores, fails, flushes, grows, run, step, read_step, store_step,
  fail_step,
}
use kiss_protocol.Pipelock.Resuming.{IsOpenedAt, Resumption, run-resumes}
use kiss_protocol.Pipelock.Opening.{StatesReadBack, open_info-bound, open_info-flush}
use kiss_protocol.Pipelock.Evidence.{run_scans, starts_of, found_in, run_scans-starts}

abbrev put_offset : ℤ → Bytes → Bytes
put_offset (pos n) rest = 0 ∷ n ∷ rest
put_offset (negsuc n) rest = 1 ∷ n ∷ rest

abbrev write_state : TailState → Option Bytes
write_state st = some (st.ident.dev ∷ st.ident.ino ∷ st.updated ∷ put_offset st.offset st.path)

abbrev read_state : Bytes → Option TailState
read_state (dev ∷ ino ∷ updated ∷ sign ∷ n ∷ path) = some (record {
  path = path;
  ident = record { dev = dev; ino = ino };
  offset = if sign == 0 then pos n else negsuc n;
  updated = updated;
})
read_state _ = none

abbrev codec : StateCodec
codec = record { marshal_state = write_state; unmarshal_state = read_state }

reads_offset :
    (path : Bytes) (ident : FileIdent) (offset : ℤ) (updated : ℕ) (bytes : Bytes)
    → write_state (record { path = path; ident = ident; offset = offset; updated = updated })
      ≡ some bytes
    → read_state bytes
      ≡ some (record { path = path; ident = ident; offset = offset; updated = updated })
reads_offset path ident (pos n) updated bytes h =
    let same : ident.dev ∷ ident.ino ∷ updated ∷ 0 ∷ n ∷ path ≡ bytes = cc in rw (← same) refl
reads_offset path ident (negsuc n) updated bytes h =
    let same : ident.dev ∷ ident.ino ∷ updated ∷ 1 ∷ n ∷ path ≡ bytes = cc in rw (← same) refl

codec-StatesReadBack : StatesReadBack codec
codec-StatesReadBack st bytes h = reads_offset st.path st.ident st.offset st.updated bytes h

-- A line that starts with a brace.
abbrev parse : Bytes → Option Bytes
parse [] = none
parse (c ∷ cs) = if c == 123 then some (c ∷ cs) else none

abbrev tailer : Tailer
tailer = new_tailer (codes "audit.log") (codes "state")

abbrev at_start : Tailing Bytes
at_start = record {
  tailer = tailer;
  at = 0;
  file = codes "{1}" ++ 10 ∷ codes "noise" ++ 10 ∷ codes "{2}" ++ 10 ∷ codes "{3";
  state_file = none;
  delivered = [];
  taken = 0;
  stored = [];
}

at_start-IsOpenedAt : IsOpenedAt codec parse 0 at_start
unfolding new_tailer
at_start-IsOpenedAt = (refl, refl, refl, refl, refl, refl, refl)

abbrev quick : FlushWorld
quick = record { now = 1; written = true }

abbrev steps : List TailStep
steps = reads ∷ reads ∷ reads ∷ stores quick ∷ grows (codes "}") ∷ flushes quick ∷ []

abbrev after_steps : Tailing Bytes
after_steps = run codec parse steps at_start

run-resumes_example : Resumption codec parse 0 after_steps
run-resumes_example =
    run-resumes codec parse 0 steps at_start (tt, (tt, (tt, (tt, (tt, (tt, tt))))))
      at_start-IsOpenedAt

-- The Append of the first event fails and that of the second succeeds: its Ack is taken for the line of
-- the first, which the saved position passes although it is in no log.
abbrev failed_append : Tailing Bytes
failed_append = run codec parse (reads ∷ reads ∷ reads ∷ fails ∷ stores quick ∷ []) at_start

unstored_line_passed :
    (failed_append.stored ≡ codes "{2}" ∷ []) × (failed_append.tailer.committed ≡ 10)
unfolding run step read_step store_step fail_step split_line consume event_of trim_newline
    record_line advance advance_from ack ack_first acked_next flush flush_locked new_tailer
unstored_line_passed = (refl, refl)

abbrev all_stored : Tailing Bytes
all_stored = run codec parse (steps ++ stores quick ∷ []) at_start

everything_taken : all_stored.taken ≡ length all_stored.delivered
unfolding run step read_step store_step split_line consume event_of trim_newline record_line advance
    advance_from ack ack_first acked_next flush flush_locked new_tailer
everything_taken = refl

-- The first line and the one without an event are passed over; the second event waits.
passes_two_lines : after_steps.tailer.committed ≡ 10
unfolding run step read_step store_step split_line consume event_of trim_newline record_line advance
    advance_from ack ack_first acked_next flush flush_locked new_tailer
passes_two_lines = refl

abbrev ident : FileIdent
ident = record { dev = 3; ino = 4 }

open_info-bound_example :
    ((open_info codec true false tailer none 12 ident).from ≤ 12)
    × ((open_info codec true false tailer none 12 ident).file_size ≡ 12)
open_info-bound_example = open_info-bound codec true false tailer none 12 ident

abbrev running : Tailer
running = record tailer { committed = 10; ident = ident }

running_resumes : is_empty running.state_path ≡ false
unfolding new_tailer
running_resumes = refl

open_info-flush_example :
    open_info codec true false running (flush codec quick running none).1 12 ident ≡ (
      if same_ident ident ident && leb 10 12
      then record { mode = resumed; from = 10; file_size = 12 }
      else record { mode = restarted; from = 0; file_size = 12 })
open_info-flush_example =
    open_info-flush codec quick running none 12 ident codec-StatesReadBack running_resumes refl
      (_, refl)

run_scans-starts_example :
    starts_of (codes "b") (run_scans (codes "a" ∷ []) ((codes "b" ∷ codes "a" ∷ []) ∷ [])) ≡ (
      if key_listed (codes "b") (codes "a" ∷ [])
      then false ∷ []
      else if found_in (codes "b") ((codes "b" ∷ codes "a" ∷ []) ∷ [])
      then true ∷ []
      else [])
run_scans-starts_example =
    run_scans-starts (codes "b") (codes "a" ∷ []) ((codes "b" ∷ codes "a" ∷ []) ∷ [])

-- ===== src/Pipelock/Opening.antt =====
-- Where `openFile` of internal/pipelock/tailer.go starts to read.
use kiss_protocol.Base.{
  pos, ℕ, ◌≤◌, ◌≡◌, ◌&&◌, refl, Bool, true, false, Option, none, some, Bytes, bytes_eq_refl, leb,
  arith, if◌then◌else◌,
}
use kiss_protocol.Store.Head.{is_empty}
use kiss_protocol.Pipelock.Tailer.{
  FileIdent, same_ident, resumed, restarted, TailState, Tailer, StateCodec, FlushWorld, flush,
  flush_locked, load_state, saved_position, open_info,
}

saved_position-bound :
    (saved : Option (FileIdent × ℕ)) (size : ℕ) (ident : FileIdent)
    → ((saved_position saved size ident).from ≤ size)
      × ((saved_position saved size ident).file_size ≡ size)
unfolding saved_position
saved_position-bound none size ident = (omega arith, refl)
saved_position-bound (some (saved, offset)) size ident = ground arith

module _ (codec : StateCodec) where
  -- Whatever the saved state says, reading starts inside the file or at its end, and the size that
  -- is reported is the file's.
  pub open_info-bound :
      (first_open appeared : Bool) (t : Tailer) (file : Option Bytes) (size : ℕ) (ident : FileIdent)
      → ((open_info codec first_open appeared t file size ident).from ≤ size)
        × ((open_info codec first_open appeared t file size ident).file_size ≡ size)
  unfolding open_info
  open_info-bound first_open appeared t file size ident =
      ground (arith, saved_position-bound (load_state codec t file) size ident)

  -- A saved state reads back.
  abbrev pub StatesReadBack : Type 0
  StatesReadBack =
      (st : TailState) (bytes : Bytes)
      → codec.marshal_state st ≡ some bytes
      → codec.unmarshal_state bytes ≡ some st

  -- The state of a flush that wrote its file loads as the position and the file of the tailer.
  pub load_state-flush :
      (w : FlushWorld) (t : Tailer) (file : Option Bytes)
      → StatesReadBack
      → is_empty t.state_path ≡ false
      → w.written ≡ true
      → ((bytes : Bytes) × (codec.marshal_state
              (record { path = t.path; ident = t.ident; offset = pos t.committed; updated = w.now })
            ≡ some bytes))
      → load_state codec t (flush codec w t file).1 ≡ some (t.ident, t.committed)
  unfolding load_state flush flush_locked
  load_state-flush w t file reads resumes written (bytes, made) =
      let back = reads _ bytes made in
      rw (resumes, made, written, flush, flush_locked, load_state)
        (rw (back, bytes_eq_refl t.path) refl)

  -- After a flush that wrote its file, the next run opens the same file at the saved position when
  -- the file is no shorter, and reads it from the start when it is shorter or another file.
  pub open_info-flush :
      (w : FlushWorld) (t : Tailer) (file : Option Bytes) (size : ℕ) (ident : FileIdent)
      → StatesReadBack
      → is_empty t.state_path ≡ false
      → w.written ≡ true
      → ((bytes : Bytes) × (codec.marshal_state
              (record { path = t.path; ident = t.ident; offset = pos t.committed; updated = w.now })
            ≡ some bytes))
      → open_info codec true false t (flush codec w t file).1 size ident ≡ (
          if same_ident t.ident ident && leb t.committed size
          then record { mode = resumed; from = t.committed; file_size = size }
          else record { mode = restarted; from = 0; file_size = size })
  unfolding open_info saved_position
  open_info-flush w t file size ident reads resumes written made =
      rw (resumes, load_state-flush w t file reads resumes written made, open_info) refl

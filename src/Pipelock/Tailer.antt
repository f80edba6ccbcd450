-- ===== src/Pipelock/Tailer.antt =====
-- internal/pipelock/tailer.go: the lines that wait for their Ack, the saved position, and where a
-- file is opened. Times are in nanoseconds.
use kiss_protocol.Base.{
  ℤ, pos, negsuc, ℕ, ◌+◌, ◌-◌, ◌==◌, ◌||◌, ◌&&◌, not, Bool, true, false, Option, none, some, List,
  [], ◌∷◌, ◌++◌, Bytes, bytes_eq, length, leb, if◌then◌else◌,
}
use kiss_protocol.Store.Head.{is_empty}
use kiss_protocol.Pipelock.Lines.{trim_newline}

pub record FileIdent : Type 0 where
  pub dev : ℕ  -- uint64
  pub ino : ℕ  -- uint64

unfoldable pub same_ident : FileIdent → FileIdent → Bool
same_ident a b = (a.dev == b.dev) && (a.ino == b.ino)

pub record PendingLine : Type 0 where
  pub end : ℕ
  pub acked : Bool

pub data Mode : Type 0 where
  fresh created resumed restarted rotated : Mode

pub record OpenInfo : Type 0 where
  pub mode : Mode
  pub from : ℕ
  pub file_size : ℕ

pub record TailState : Type 0 where
  pub path : Bytes
  pub ident : FileIdent
  pub offset : ℤ  -- int64
  pub updated : ℕ

pub record Tailer : Type 0 where
  pub path : Bytes
  pub state_path : Bytes
  pub pending : List PendingLine
  pub committed : ℕ
  pub ident : FileIdent
  pub dirty : ℕ
  pub last_flush : ℕ

-- `NewTailer` and `SetStateFile`
unfoldable pub new_tailer : Bytes → Bytes → Tailer
new_tailer path state_path = record {
  path = path;
  state_path = state_path;
  pending = [];
  committed = 0;
  ident = record { dev = 0; ino = 0 };
  dirty = 0;
  last_flush = 0;
}

abbrev pub flush_every : ℕ
flush_every = 1000000000

abbrev pub flush_every_acks : ℕ
flush_every_acks = 64

-- The JSON of the resume record.
pub record StateCodec : Type 0 where
  pub marshal_state : TailState → Option Bytes
  pub unmarshal_state : Bytes → Option TailState

-- What the machine does in a flush: the clock, and whether the file was written and renamed.
pub record FlushWorld : Type 0 where
  pub now : ℕ
  pub written : Bool

-- The loop of `advanceLocked`: the position, and the lines that stay pending.
unfoldable pub advance_from : ℕ → List PendingLine → ℕ × List PendingLine
advance_from committed [] = (committed, [])
advance_from committed (p ∷ ps) =
    let moved = advance_from p.end ps in if p.acked then moved else (committed, p ∷ ps)

-- `advanceLocked`
unfoldable pub advance : Tailer → Tailer
advance t =
    let (committed, pending) = advance_from t.committed t.pending in
    record t { committed = committed; pending = pending }

-- The loop of `Ack`.
unfoldable pub ack_first : List PendingLine → List PendingLine
ack_first [] = []
ack_first (p ∷ ps) =
    let rest = ack_first ps in if p.acked then p ∷ rest else record p { acked = true } ∷ ps

-- `trimNewline`, and the line is decoded unless it is empty.
unfoldable pub event_of {ℓ} : {A : Type ℓ} → (Bytes → Option A) → Bytes → Option A
event_of parse line = if is_empty (trim_newline line) then none else parse (trim_newline line)

-- `record`
unfoldable pub record_line : Tailer → ℕ → Bool → Tailer
record_line t end emitted =
    if is_empty t.state_path
    then t
    else advance
        (record t { pending = t.pending ++ record { end = end; acked = not emitted } ∷ [] })

abbrev pub has_event {ℓ} : {A : Type ℓ} → Option A → Bool
has_event none = false
has_event (some event) = true

-- What `Run` does with a complete line: the position behind it, and the event that it delivers.
unfoldable pub consume {ℓ} :
    {A : Type ℓ} → (Bytes → Option A) → Tailer → ℕ → Bytes → Tailer × ℕ × Option A
consume parse t at line =
    let end = at + length line in
    let event = event_of parse line in (record_line t end (has_event event), end, event)

-- The part of the switch of `openFile` with a state file.
unfoldable pub saved_position : Option (FileIdent × ℕ) → ℕ → FileIdent → OpenInfo
saved_position none size ident = record { mode = fresh; from = size; file_size = size }
saved_position (some (saved, offset)) size ident =
    if same_ident saved ident && leb offset size
    then record { mode = resumed; from = offset; file_size = size }
    else record { mode = restarted; from = 0; file_size = size }

-- The end of `openFile`.
unfoldable pub opened_at : Tailer → OpenInfo → FileIdent → Tailer
opened_at t info ident =
    if is_empty t.state_path
    then t
    else record t { pending = []; committed = info.from; ident = ident }

module _ (codec : StateCodec) where
  -- `flushLocked`, with the state file; a state that is not written leaves the old file.
  unfoldable pub flush_locked : FlushWorld → Tailer → Option Bytes → Tailer × Option Bytes
  flush_locked w t file =
      elim (codec.marshal_state
        (record { path = t.path; ident = t.ident; offset = pos t.committed; updated = w.now })) [
          | none ↦ (t, file)
          | some bytes ↦
              if w.written
              then (record t { dirty = 0; last_flush = w.now }, some bytes)
              else (t, file)
        ]

  -- `Flush`
  unfoldable pub flush : FlushWorld → Tailer → Option Bytes → Tailer × Option Bytes
  flush w t file = if is_empty t.state_path then (t, file) else flush_locked w t file

  -- The part of `Ack` before it flushes.
  unfoldable pub acked_next : Tailer → Tailer
  acked_next t =
      let moved = advance (record t { pending = ack_first t.pending }) in
      record moved { dirty = moved.dirty + 1 }

  -- `Ack`
  unfoldable pub ack : FlushWorld → Tailer → Option Bytes → Tailer × Option Bytes
  ack w t file =
      if is_empty t.state_path
      then (t, file)
      else if leb flush_every_acks (acked_next t).dirty || leb flush_every (w.now - t.last_flush)
      then flush_locked w (acked_next t) file
      else (acked_next t, file)

  -- `loadState`
  unfoldable pub load_state : Tailer → Option Bytes → Option (FileIdent × ℕ)
  load_state t none = none
  load_state t (some bytes) = elim (codec.unmarshal_state bytes) [
    | none ↦ none
    | some st ↦
        if not (bytes_eq st.path t.path)
        then none
        else elim st.offset [ pos n ↦ some (st.ident, n) | negsuc n ↦ none ]
  ]

  -- The switch of `openFile`.
  unfoldable pub open_info : Bool → Bool → Tailer → Option Bytes → ℕ → FileIdent → OpenInfo
  open_info first_open appeared t file size ident =
      if not first_open
      then record { mode = rotated; from = 0; file_size = size }
      else if appeared
      then record { mode = created; from = 0; file_size = size }
      else if is_empty t.state_path
      then record { mode = fresh; from = size; file_size = size }
      else saved_position (load_state t file) size ident

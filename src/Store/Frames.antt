-- ===== src/Store/Frames.antt =====
-- `readLog`: the framed, encrypted log file. A frame is a 4-byte big-endian length and that many bytes.
use mathlib.Core.Option
use kiss_protocol.Base.{
  ℕ, zero, suc, ◌+◌, ◌==◌, ◌||◌, Option, none, some, List, [], ◌∷◌, ◌++◌, map, Bytes, length, take,
  drop, ltb, if◌then◌else◌,
}
use kiss_protocol.Codec.BigEndian.{uint32, put_uint32}
use kiss_protocol.Encrypt.{open_box}
use kiss_protocol.Store.Types.{Entry, Host}

-- 64<<20
abbrev pub max_frame : ℕ
max_frame = 67108864

pub record Record : Type 0 where
  pub entry : Entry
  pub end_offset : ℕ

pub record LogRead : Type 0 where
  pub records : List Record
  pub frames : ℕ
  pub size : ℕ

-- One round's reads: the sealed bytes of the next complete frame, and what follows it.
unfoldable pub next_frame : Bytes → Option (Bytes × Bytes)
next_frame (a ∷ b ∷ c ∷ d ∷ rest) =
    let n = uint32 a b c d in
    if n == 0 || ltb max_frame n || ltb (length rest) n
    then none
    else some (take n rest, drop n rest)
next_frame _ = none

-- What `Append` writes for a sealed record; the length is converted to a uint32.
unfoldable pub frame : Bytes → Bytes
unfolding put_uint32
frame sealed = put_uint32 (length sealed) ++ sealed

module _ (host : Host) (key : Bytes) where
  unfoldable pub decode_record : Bytes → Option Entry
  decode_record sealed = Option.bind (open_box host.gcm sealed key) host.unmarshal_entry

  abbrev pub keep_record : Option Entry → ℕ → LogRead → LogRead
  keep_record none off r = r
  keep_record (some e) off r = record r {
    records = record { entry = e; end_offset = off } ∷ r.records;
  }

  -- The loop, given rounds; each round reads four bytes or more, so the file's length is enough.
  unfoldable pub read_frames : ℕ → Bytes → ℕ → LogRead
  unfolding next_frame decode_record
  read_frames zero bytes off = record { records = []; frames = off; size = off + length bytes }
  read_frames (suc rounds) bytes off = elim (next_frame bytes) [
    | none ↦ record { records = []; frames = off; size = off + length bytes }
    | some (sealed, rest) ↦
        let past = off + 4 + length sealed in
        keep_record (decode_record sealed) past (read_frames rounds rest past)
  ]

  -- `none` is a file that does not exist.
  unfoldable pub read_log : Option Bytes → LogRead
  unfolding read_frames
  read_log none = record { records = []; frames = 0; size = 0 }
  read_log (some file) = read_frames (length file) file 0

abbrev pub entries : LogRead → List Entry
entries r = map (λ (x : Record). x.entry) r.records

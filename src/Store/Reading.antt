-- ===== src/Store/Reading.antt =====
-- What `readLog` finds in a file of whole rows, with or without a torn frame behind them.
use mathlib.Core.List.{append_assoc, append-nil}
use kiss_protocol.Base.{
  ℕ, zero, suc, ◌+◌, ◌≤◌, ◌<◌, ◌≡◌, refl, sym, ap, ◌∙◌, none, some, List, [], ◌∷◌, ◌++◌, Bytes,
  length, take, length-append, length-take, take-append_left, drop-append_left, All, arith,
}
use kiss_protocol.Codec.BigEndian.{put_uint32, uint32-put}
use kiss_protocol.Store.Types.{Entry, Host}
use kiss_protocol.Store.Frames.{
  LogRead, next_frame, frame, decode_record, keep_record, read_frames, read_log, max_frame, entries,
}
use kiss_protocol.Store.Rows.{
  Row, IsReadable, file_of, row_entries, entries-records_from, records_from, length-frame,
  length-file_of-le,
}

next_frame-frame :
    (sealed rest : Bytes)
    → 1 ≤ length sealed
    → length sealed ≤ max_frame
    → next_frame (frame sealed ++ rest) ≡ some (sealed, rest)
unfolding next_frame frame put_uint32
next_frame-frame sealed rest h h' =
    rw
      (
        uint32-put (length sealed) (omega arith),
        take-append_left sealed rest,
        drop-append_left sealed rest,
      )
      (ground (arith, length-append sealed rest))

-- A frame that was not written to its end is no frame.
pub next_frame-torn :
    (sealed : Bytes) (n : ℕ)
    → length sealed ≤ max_frame
    → n < length (frame sealed)
    → next_frame (take n (frame sealed)) ≡ none
unfolding next_frame frame put_uint32
next_frame-torn sealed zero h lt = refl
next_frame-torn sealed (suc zero) h lt = refl
next_frame-torn sealed (suc (suc zero)) h lt = refl
next_frame-torn sealed (suc (suc (suc zero))) h lt = refl
next_frame-torn sealed (suc (suc (suc (suc n)))) h lt =
    rw (uint32-put (length sealed) (omega arith)) (ground (arith, length-take n sealed))

module _ (host : Host) (key : Bytes) where
  abbrev pub found : ℕ → List Row → Bytes → LogRead
  found off rows tail = record {
    records = records_from off rows;
    frames = off + length (file_of rows);
    size = off + length (file_of rows ++ tail);
  }

  read_frames-stop :
      (rounds off : ℕ) (bytes : Bytes)
      → next_frame bytes ≡ none
      → read_frames host key rounds bytes off
        ≡ record { records = []; frames = off; size = off + length bytes }
  unfolding read_frames
  read_frames-stop zero off bytes torn = refl
  read_frames-stop (suc rounds) off bytes torn = ground arith

  read_frames-step :
      (rounds off : ℕ) (bytes sealed rest : Bytes) (e : Entry)
      → next_frame bytes ≡ some (sealed, rest)
      → decode_record host key sealed ≡ some e
      → let past = off + 4 + length sealed in
        read_frames host key (suc rounds) bytes off
        ≡ keep_record host key (some e) past (read_frames host key rounds rest past)
  unfolding read_frames
  read_frames-step rounds off bytes sealed rest e next decoded = ground arith

  found-step :
      (off : ℕ) (r : Row) (rows : List Row) (tail : Bytes)
      → let past = off + 4 + length r.sealed in
        keep_record host key (some r.entry) past (found past rows tail) ≡ found off (r ∷ rows) tail
  found-step off r rows tail = ground (
    arith,
    length-append (frame r.sealed) (file_of rows),
    length-append (frame r.sealed ++ file_of rows) tail,
    length-append (file_of rows) tail,
    length-frame r.sealed,
  )

  pub read_frames-rows :
      (rounds off : ℕ) (rows : List Row) (tail : Bytes)
      → All (IsReadable host key) rows
      → next_frame tail ≡ none
      → length rows ≤ rounds
      → read_frames host key rounds (file_of rows ++ tail) off ≡ found off rows tail
  read_frames-rows rounds off [] tail h torn le =
      read_frames-stop rounds off tail torn ∙ ground arith
  read_frames-rows zero off (r ∷ rows) tail h torn le = absurd (omega arith)
  read_frames-rows (suc rounds) off (r ∷ rows) tail h torn le =
      let past = off + 4 + length r.sealed in
      let next =
        ap next_frame (append_assoc (frame r.sealed) (file_of rows) tail)
        ∙ next_frame-frame r.sealed (file_of rows ++ tail) h.0.not_empty h.0.not_too_long in
      read_frames-step rounds off ((frame r.sealed ++ file_of rows) ++ tail) r.sealed
        (file_of rows ++ tail) r.entry next h.0.decodes
      ∙ (ap (keep_record host key (some r.entry) past)
            (read_frames-rows rounds past rows tail h.1 torn (omega arith))
          ∙ found-step off r rows tail)

  -- A file of whole rows, with a torn frame or nothing behind them, reads as exactly those rows; the
  -- offset of the last complete frame is where the torn bytes begin.
  pub read_log-rows :
      (rows : List Row) (tail : Bytes)
      → All (IsReadable host key) rows
      → next_frame tail ≡ none
      → read_log host key (some (file_of rows ++ tail)) ≡ found 0 rows tail
  unfolding read_log
  read_log-rows rows tail h torn =
      read_frames-rows (length (file_of rows ++ tail)) 0 rows tail h torn
        (omega (arith, length-append (file_of rows) tail, length-file_of-le rows))

  no_frame : next_frame [] ≡ none
  unfolding next_frame
  no_frame = refl

  -- The entries of a file of whole rows.
  pub entries-rows :
      (rows : List Row)
      → All (IsReadable host key) rows
      → entries (read_log host key (some (file_of rows))) ≡ row_entries rows
  entries-rows rows h =
      ap (λ file. entries (read_log host key (some file))) (sym (append-nil (file_of rows)))
      ∙ ap entries (read_log-rows rows [] h no_frame)
      ∙ entries-records_from 0 rows

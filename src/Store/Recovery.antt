-- ===== src/Store/Recovery.antt =====
-- What `openStore` does with the file that an interrupted `Append` leaves.
use mathlib.Core.List.{append_assoc, append-nil, map-append}
use kiss_protocol.Base.{
  ℕ, ◌+◌, ◌-◌, ◌≤◌, ◌<◌, ◌≡◌, refl, sym, ap, ◌∙◌, true, false, Option, none, some, List, [], ◌∷◌,
  ◌++◌, map, Bytes, length, take, length-append, take-append_left, drop-append_left, All,
  All-append, arith, ltb, Result, ok,
}
use kiss_protocol.Store.Types.{Entry, TreeHead, Signer, Host, Disk, Recovery, Store}
use kiss_protocol.Store.Frames.{LogRead, next_frame, read_log, entries}
use kiss_protocol.Store.Rows.{
  Row, IsReadable, file_of, row_entries, records_from, file_of-append, row_entries-append,
  entries-records_from, length-records_from,
}
use kiss_protocol.Store.Reading.{found, read_log-rows}
use kiss_protocol.Store.Head.{leaf_hash, HeadError}
use kiss_protocol.Store.Opening.{
  uint64_mod, no_recovery, end_of, committed_count, read_stored_head, leaves_of, is_crash_tail,
  quarantine_tail, opened, check_head, settle, open_store,
}
use kiss_protocol.Store.Offsets.{
  length-map, end_of-rows, end_of-all, empty_file, committed_count-rows,
}

module _ (host : Host) (key : Bytes) (signer : Option Signer) (trusted pinned : List Bytes) where
  abbrev open_with : Disk → Result HeadError (Store × Disk)
  open_with disk = open_store host key signer trusted pinned disk

  abbrev settle_with : Disk → LogRead → ℕ → Result HeadError (Store × Disk)
  settle_with disk log committed = settle host key signer trusted pinned disk log committed

  open_store-settle :
      (disk : Disk) (log : LogRead) (k : ℕ)
      → read_log host key disk.log_file ≡ log
      → 1 ≤ length (leaves_of host (entries log))
      → committed_count (read_stored_head host disk) (length (leaves_of host (entries log))) ≡ k
      → check_head host key signer trusted pinned disk (take k (leaves_of host (entries log)))
        ≡ ok tt
      → open_with disk ≡ settle_with disk log k
  unfolding open_store
  open_store-settle disk log k el pos ek ec = rw el (ground arith)

  -- With a whole number of frames before it, what follows the committed rows is a crash tail.
  is_crash_tail-found :
      (rows extra : List Row) (tail : Bytes)
      → is_crash_tail host (found host key 0 (rows ++ extra) tail) (length (file_of rows))
        ≡ ltb 0 (length (file_of extra ++ tail))
  unfolding is_crash_tail
  is_crash_tail-found rows extra tail =
      let all = rows ++ extra in
      let records_length = length-records_from 0 all in
      let last_good : end_of (length (records_from 0 all)) (records_from 0 all)
          ≡ length (file_of all) =
        rw records_length (end_of-all all) in
      ground (
        arith,
        last_good,
        records_length,
        ap length (file_of-append rows extra),
        length-append (file_of rows) (file_of extra),
        length-append (file_of all) tail,
        length-append (file_of extra) tail,
        empty_file all,
      )

  settle-crash :
      (disk : Disk) (log : LogRead) (k : ℕ)
      → is_crash_tail host log (end_of k log.records) ≡ true
      → settle_with disk log k
        ≡ ok (
            opened host key signer trusted pinned
              (quarantine_tail host disk (end_of k log.records))
              (take k (entries log))
              (record {
                moved_bytes = log.size - end_of k log.records;
                uncommitted_records = length (entries log) - k;
                has_quarantine = true;
              }))
  unfolding settle
  settle-crash disk log k tail = rw tail refl

  settle-clean :
      (disk : Disk) (log : LogRead) (k : ℕ)
      → is_crash_tail host log (end_of k log.records) ≡ false
      → length (entries log) ≤ k
      → settle_with disk log k
        ≡ ok (opened host key signer trusted pinned disk (entries log) no_recovery)
  unfolding settle
  settle-clean disk log k tail le =
      let covered : ltb k (length (entries log)) ≡ false = ground arith in rw (tail, covered) refl

  -- The disk that a recovery leaves: the committed rows, and what followed them set aside.
  abbrev pub recovered_disk : Disk → List Row → List Row → Bytes → Disk
  recovered_disk disk rows extra tail = record disk {
    log_file = some (file_of rows);
    quarantined = (file_of extra ++ tail) ∷ disk.quarantined;
  }

  abbrev pub tail_recovery : List Row → Bytes → Recovery
  tail_recovery extra tail = record {
    moved_bytes = length (file_of extra ++ tail);
    uncommitted_records = length extra;
    has_quarantine = true;
  }

  opened_path :
      {d d' : Disk} {es es' : List Entry} {r r' : Recovery}
      → d ≡ d'
      → es ≡ es'
      → r ≡ r'
      → ◌≡◌ {A = Result HeadError (Store × Disk)}
          (ok (opened host key signer trusted pinned d es r))
          (ok (opened host key signer trusted pinned d' es' r'))
  opened_path ed ee er = λ i. ok (opened host key signer trusted pinned (ed i) (ee i) (er i))

  quarantine_tail-rows :
      (disk : Disk) (rows extra : List Row) (tail : Bytes)
      → disk.log_file ≡ some (file_of (rows ++ extra) ++ tail)
      → quarantine_tail host disk (length (file_of rows)) ≡ recovered_disk disk rows extra tail
  unfolding quarantine_tail
  quarantine_tail-rows disk rows extra tail ed =
      let whole =
        ap (λ (b : Bytes). b ++ tail) (file_of-append rows extra)
        ∙ append_assoc (file_of rows) (file_of extra) tail in
      rw
        (
          ed,
          whole,
          take-append_left (file_of rows) (file_of extra ++ tail),
          drop-append_left (file_of rows) (file_of extra ++ tail),
        )
        refl

  take_entries :
      (rows extra : List Row)
      → take (length rows) (row_entries rows ++ row_entries extra) ≡ row_entries rows
  take_entries rows extra =
      rw (sym (length-map (λ (r : Row). r.entry) rows))
        (take-append_left (row_entries rows) (row_entries extra))

  recovery_path :
      (rows extra : List Row) (tail : Bytes)
      → end_of (length rows) (records_from 0 (rows ++ extra)) ≡ length (file_of rows)
      → length (entries (found host key 0 (rows ++ extra) tail))
        ≡ length (row_entries rows ++ row_entries extra)
      → record {
        moved_bytes =
            (found host key 0 (rows ++ extra) tail).size
            - end_of (length rows) (records_from 0 (rows ++ extra));
        uncommitted_records =
            length (entries (found host key 0 (rows ++ extra) tail)) - length rows;
        has_quarantine = true;
      }
        ≡ tail_recovery extra tail
  recovery_path rows extra tail ends count = ground (
    arith,
    ends,
    count,
    length-map (λ (r : Row). r.entry) rows,
    length-map (λ (r : Row). r.entry) extra,
    length-append (row_entries rows) (row_entries extra),
    ap length (file_of-append rows extra),
    length-append (file_of rows) (file_of extra),
    length-append (file_of (rows ++ extra)) tail,
    length-append (file_of extra) tail,
  )

  settle-found :
      (disk : Disk) (rows extra : List Row) (tail : Bytes)
      → disk.log_file ≡ some (file_of (rows ++ extra) ++ tail)
      → 0 < length (file_of extra ++ tail)
      → settle_with disk (found host key 0 (rows ++ extra) tail) (length rows)
        ≡ ok (
            opened host key signer trusted pinned
              (recovered_disk disk rows extra tail)
              (row_entries rows)
              (tail_recovery extra tail))
  settle-found disk rows extra tail ed more =
      let ends = end_of-rows rows extra in
      let all = rows ++ extra in
      let found_entries = entries-records_from 0 all ∙ row_entries-append rows extra in
      settle-crash disk (found host key 0 all tail) (length rows)
        (rw ends (is_crash_tail-found rows extra tail ∙ ground arith))
      ∙ opened_path
          (ap (quarantine_tail host disk) ends ∙ quarantine_tail-rows disk rows extra tail ed)
          (rw found_entries (take_entries rows extra))
          (recovery_path rows extra tail ends (ap length found_entries))

  leaves-found :
      (rows extra : List Row) (tail : Bytes)
      → leaves_of host (entries (found host key 0 (rows ++ extra) tail))
        ≡ leaves_of host (row_entries rows) ++ leaves_of host (row_entries extra)
  unfolding leaves_of
  leaves-found rows extra tail =
      rw (entries-records_from 0 (rows ++ extra), row_entries-append rows extra)
        (map-append (leaf_hash host) (row_entries rows) (row_entries extra))

  length-leaves :
      (rows extra : List Row)
      → length (leaves_of host (row_entries rows) ++ leaves_of host (row_entries extra))
        ≡ length rows + length extra
  unfolding leaves_of
  length-leaves rows extra = omega (
    arith,
    length-append (leaves_of host (row_entries rows)) (leaves_of host (row_entries extra)),
    length-map (leaf_hash host) (row_entries rows),
    length-map (leaf_hash host) (row_entries extra),
    length-map (λ (r : Row). r.entry) rows,
    length-map (λ (r : Row). r.entry) extra,
  )

  committed_leaves :
      (rows extra : List Row)
      → take (length rows) (leaves_of host (row_entries rows) ++ leaves_of host (row_entries extra))
        ≡ leaves_of host (row_entries rows)
  unfolding leaves_of
  committed_leaves rows extra =
      let count : length rows ≡ length (map (leaf_hash host) (row_entries rows)) =
        sym (
          length-map (leaf_hash host) (row_entries rows)
          ∙ length-map (λ (r : Row). r.entry) rows) in
      rw count (
        take-append_left (map (leaf_hash host) (row_entries rows))
          (map (leaf_hash host) (row_entries extra)))

  refl_torn : next_frame [] ≡ none
  unfolding next_frame
  refl_torn = refl

  -- The first check passes over the committed leaves, whatever follows them.
  open_store-found :
      (disk : Disk) (rows extra : List Row) (tail : Bytes) (head : TreeHead)
      → disk.log_file ≡ some (file_of (rows ++ extra) ++ tail)
      → All (IsReadable host key) rows
      → All (IsReadable host key) extra
      → next_frame tail ≡ none
      → 1 ≤ length rows
      → length extra ≤ 1
      → length rows + 1 < uint64_mod
      → read_stored_head host disk ≡ some head
      → head.size ≡ length rows
      → check_head host key signer trusted pinned disk (leaves_of host (row_entries rows)) ≡ ok tt
      → open_with disk ≡ settle_with disk (found host key 0 (rows ++ extra) tail) (length rows)
  open_store-found disk rows extra tail head ed hr hx torn pos few small eh es ec =
      let all = rows ++ extra in
      let split_leaves = leaves-found rows extra tail in
      let counts = length-leaves rows extra in
      open_store-settle disk (found host key 0 all tail) (length rows)
        (rw ed (
          read_log-rows host key all tail (All-append (IsReadable host key) rows extra hr hx) torn))
        (rw split_leaves (omega (arith, counts)))
        (rw (split_leaves, counts, eh)
          (committed_count-rows head (length rows) (length extra) es pos few small))
        (rw split_leaves (rw (committed_leaves rows extra) ec))

  -- After a crash: a log of committed rows, at most one row that the head does not cover yet, and the
  -- torn bytes of a frame. The store opens with the committed entries, the log is cut back to them,
  -- and all that followed is kept in the quarantine.
  pub open_store-recovers :
      (disk : Disk) (rows extra : List Row) (tail : Bytes) (head : TreeHead)
      → disk.log_file ≡ some (file_of (rows ++ extra) ++ tail)
      → All (IsReadable host key) rows
      → All (IsReadable host key) extra
      → next_frame tail ≡ none
      → 0 < length (file_of extra ++ tail)
      → 1 ≤ length rows
      → length extra ≤ 1
      → length rows + 1 < uint64_mod
      → read_stored_head host disk ≡ some head
      → head.size ≡ length rows
      → check_head host key signer trusted pinned disk (leaves_of host (row_entries rows)) ≡ ok tt
      → open_with disk
        ≡ ok (
            opened host key signer trusted pinned
              (recovered_disk disk rows extra tail)
              (row_entries rows)
              (tail_recovery extra tail))
  open_store-recovers disk rows extra tail head ed hr hx torn more pos few small eh es ec =
      open_store-found disk rows extra tail head ed hr hx torn pos few small eh es ec
      ∙ settle-found disk rows extra tail ed more

  -- Opening a log that its head covers to the last byte changes no file and loses no entry.
  pub open_store-intact :
      (disk : Disk) (rows : List Row) (head : TreeHead)
      → disk.log_file ≡ some (file_of rows)
      → All (IsReadable host key) rows
      → 1 ≤ length rows
      → length rows + 1 < uint64_mod
      → read_stored_head host disk ≡ some head
      → head.size ≡ length rows
      → check_head host key signer trusted pinned disk (leaves_of host (row_entries rows)) ≡ ok tt
      → open_with disk
        ≡ ok (opened host key signer trusted pinned disk (row_entries rows) no_recovery)
  open_store-intact disk rows head ed hr pos small eh es ec =
      let ed' : disk.log_file ≡ some (file_of (rows ++ []) ++ []) =
        rw (append-nil rows, append-nil (file_of rows)) ed in
      let kept : entries (found host key 0 (rows ++ []) []) ≡ row_entries rows =
        entries-records_from 0 (rows ++ []) ∙ ap row_entries (append-nil rows) in
      open_store-found disk rows [] [] head ed' hr tt refl_torn pos (omega arith) small eh es ec
      ∙ (settle-clean disk (found host key 0 (rows ++ []) []) (length rows)
            (rw (end_of-rows rows []) (is_crash_tail-found rows [] []))
            (omega (arith, ap length kept, length-map (λ (r : Row). r.entry) rows))
          ∙ opened_path refl kept refl)

-- ===== src/Store/Opening.antt =====
-- `openStore`, with its recovery of a crash tail. File operations succeed here; a file that does not
-- exist is a value of its own.
use mathlib.Core.Option
use mathlib.Core.List.{get_last?}
use kiss_protocol.Base.{
  ℕ, zero, suc, ◌+◌, ◌-◌, ◌%◌, ◌^◌, ◌==◌, ◌||◌, ◌&&◌, not, Bool, true, false, Option, none, some,
  List, [], ◌∷◌, map, Bytes, length, take, drop, ltb, leb, if◌then◌else◌, Result, ok, ◌>>◌,
}
use kiss_protocol.Store.Types.{Entry, TreeHead, Signer, Host, Disk, Recovery, Uncovered, Store}
use kiss_protocol.Store.Frames.{LogRead, Record, read_log, entries}
use kiss_protocol.Store.Head.{HeadError, is_empty, leaf_hash, verify_tree_head}

abbrev pub uint64_mod : ℕ
uint64_mod = 2 ^ 64

abbrev pub no_recovery : Recovery
no_recovery = record { moved_bytes = 0; uncommitted_records = 0; has_quarantine = false }

abbrev pub nothing_uncovered : Uncovered
nothing_uncovered = record { trailing_records = 0; trailing_bytes = 0 }

-- The offset just past the first `n` records, 0 for none.
unfoldable pub end_of : ℕ → List Record → ℕ
end_of n [] = 0
end_of zero (r ∷ rs) = 0
end_of (suc zero) (r ∷ rs) = r.end_offset
end_of (suc (suc n)) (r ∷ rs) = end_of (suc n) rs

-- How many of `n` records the stored head covers: all, or all but the one of an interrupted append.
unfoldable pub committed_count : Option TreeHead → ℕ → ℕ
committed_count none n = n
committed_count (some head) n =
    if leb 1 head.size && (head.size + 1) % uint64_mod == n then head.size else n

module _ (host : Host) where
  -- `readStoredHead`, where a failure of either kind is `none`.
  unfoldable pub read_stored_head : Disk → Option TreeHead
  read_stored_head disk = Option.bind disk.head_file host.unmarshal_head

  unfoldable pub leaves_of : List Entry → List Bytes
  leaves_of es = map (leaf_hash host) es

  -- The crash tail: moved aside when nothing but it follows the committed records.
  unfoldable pub is_crash_tail : LogRead → ℕ → Bool
  unfolding end_of
  is_crash_tail log cut =
      let n = length log.records in
      let last_good = if n == 0 then cut else end_of n log.records in
      ltb cut log.size && log.frames == last_good

  -- `quarantineTail`: the log is cut to `cut` bytes, and a new file holds the rest.
  unfoldable pub quarantine_tail : Disk → ℕ → Disk
  quarantine_tail disk cut = elim disk.log_file [
    | none ↦ disk
    | some file ↦ record disk {
      log_file = some (take cut file);
      quarantined = drop cut file ∷ disk.quarantined;
    }
  ]

  abbrev pub create_log : Disk → Disk
  create_log disk = record disk { log_file = some (Option.get_or disk.log_file []) }

  unfoldable pub carries_no_signature : Option Signer → List Bytes → Option TreeHead → Bool
  carries_no_signature (some s) (leaf ∷ leaves) (some head) = is_empty head.signature
  carries_no_signature _ _ _ = false

  unfoldable pub last_seq : Option Entry → ℕ
  last_seq none = 0
  last_seq (some e) = e.seq

  module _ (key : Bytes) (signer : Option Signer) (trusted pinned : List Bytes) where
    -- The store over the entries that stay in the log.
    unfoldable pub opened : Disk → List Entry → Recovery → Store × Disk
    unfolding read_stored_head leaves_of carries_no_signature last_seq
    opened disk es recovery = (
      record {
        key = key;
        signer = signer;
        trusted = trusted;
        pinned = pinned;
        unsigned_head = carries_no_signature signer (leaves_of es) (read_stored_head disk);
        recovered = recovery;
        read_only = false;
        uncovered = nothing_uncovered;
        last = get_last? es;
        seq = last_seq (get_last? es);
        leaves = leaves_of es;
      },
      create_log disk,
    )

    abbrev pub check_head : Disk → List Bytes → Result HeadError (Unit {0})
    check_head disk leaves = verify_tree_head host key signer trusted pinned disk.head_file leaves

    -- What follows the first check, with `committed` records covered by the head.
    unfoldable pub settle : Disk → LogRead → ℕ → Result HeadError (Store × Disk)
    settle disk log committed =
        let es = entries log in
        let n = length es in
        let cut = end_of committed log.records in
        if is_crash_tail log cut
        then ok (
            opened (quarantine_tail disk cut) (take committed es) (record {
              moved_bytes = log.size - cut;
              uncommitted_records = n - committed;
              has_quarantine = true;
            }))
        else ((if ltb committed n then check_head disk (leaves_of es) else ok tt)
            >> ok (opened disk es no_recovery))

    unfoldable pub open_store : Disk → Result HeadError (Store × Disk)
    open_store disk =
        let log = read_log host key disk.log_file in
        let leaves = leaves_of (entries log) in
        let n = length leaves in
        let committed = committed_count (read_stored_head disk) n in
        if not (n == 0) || not (is_empty pinned)
        then (check_head disk (take committed leaves) >> settle disk log committed)
        else settle disk log n

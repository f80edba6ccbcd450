-- ===== src/Store/Failures.antt =====
-- What a call of `Append` leaves behind when it fails, and what a reader makes of an oversized record.
use kiss_protocol.Base.{
  inl, inr, Option-cases, ◌+◌, ◌%◌, ◌<◌, ◌≡◌, refl, Bool, true, false, Option, none, some, List, [],
  ◌∷◌, ◌++◌, Bytes, length, length-append, All, arith, if◌then◌else◌, ◌^◌,
}
use kiss_protocol.Encrypt.{seal}
use kiss_protocol.Codec.BigEndian.{put_uint32, uint32-put}
use kiss_protocol.Store.Types.{Host, Disk, Store, Entry}
use kiss_protocol.Store.Head.{leaf_hash}
use kiss_protocol.Store.Frames.{frame, next_frame, read_log, max_frame}
use kiss_protocol.Store.Rows.{Row, IsReadable, file_of}
use kiss_protocol.Store.Reading.{found, read_log-rows}
use kiss_protocol.Store.Opening.{uint64_mod}
use kiss_protocol.Store.Appending.{
  Surroundings, Request, AppendError, marshal_failed, seal_failed, write_failed, commit_entry,
  write_tree_head, next_seq, append, request_body, append_log, new_entry,
}

-- Failures after the sequence number is taken and before the leaf is added.
abbrev pub loses_step : Option AppendError → Bool
loses_step (some marshal_failed) = true
loses_step (some seal_failed) = true
loses_step (some write_failed) = true
loses_step _ = false

write_tree_head_keeps :
    (host : Host) (world : Surroundings) (s : Store) (disk : Disk)
    → loses_step (write_tree_head host world s disk).1 ≡ false
unfolding write_tree_head
write_tree_head_keeps host world s disk = ground arith

commit_entry-leaves :
    (host : Host) (world : Surroundings) (s : Store) (disk : Disk) (e : Entry)
    → ((commit_entry host world s disk e).0.seq ≡ s.seq)
      × (length (commit_entry host world s disk e).0.leaves ≡ (
          if loses_step (commit_entry host world s disk e).2
          then length s.leaves
          else length s.leaves + 1))
unfolding commit_entry
commit_entry-leaves host world s disk e =
    elim (Option-cases (seal host.gcm world.nonce (host.marshal_entry e) s.key)) [
      | inl no_box ↦ rw (no_box, commit_entry) (refl, refl)
      | inr (sealed, es) ↦ elim (Option-cases world.torn_at) [
        | inl whole ↦
            let s' = record s { leaves = s.leaves ++ leaf_hash host e ∷ []; last = some e } in
            rw
              (
                es,
                whole,
                commit_entry,
                write_tree_head_keeps host world s' (append_log host world disk (frame sealed)),
              )
              (refl, length-append s.leaves (leaf_hash host e ∷ []))
        | inr (n, torn) ↦ rw (es, torn, commit_entry) (refl, refl)
      ]
    ]

-- Every call on a writable store takes a sequence number; a call that fails before its leaf is added
-- gives none back, so from then on the numbers run ahead of the leaves.
pub append-seq :
    (host : Host) (world : Surroundings) (s : Store) (r : Request) (disk : Disk)
    → s.read_only ≡ false
    → let (s', disk', failure) = append host world s r disk in
      (s'.seq ≡ (s.seq + 1) % uint64_mod)
      × (length s'.leaves ≡ (if loses_step failure then length s.leaves else length s.leaves + 1))
unfolding append next_seq
append-seq host world s r disk h = elim (Option-cases (request_body host world r.body)) [
  | inl no_body ↦ rw (h, no_body) (refl, refl)
  | inr (body, eb) ↦
      rw (h, eb)
        (commit_entry-leaves host world (next_seq host world s) disk
          (new_entry host world (next_seq host world s) r body))
]

next_frame-oversize :
    (sealed rest : Bytes)
    → max_frame < length sealed
    → length sealed < 2 ^ 32
    → next_frame (frame sealed ++ rest) ≡ none
unfolding next_frame frame put_uint32
next_frame-oversize sealed rest h h' = rw (uint32-put (length sealed) h') (ground arith)

-- `Append` writes a record of any size, but a record above 64 MiB hides itself and all that follows
-- it from `readLog`.
pub read_log-oversize :
    (host : Host) (key : Bytes) (rows : List Row) (sealed rest : Bytes)
    → All (IsReadable host key) rows
    → max_frame < length sealed
    → length sealed < 2 ^ 32
    → read_log host key (some (file_of rows ++ (frame sealed ++ rest)))
      ≡ found host key 0 rows (frame sealed ++ rest)
read_log-oversize host key rows sealed rest h big fits =
    read_log-rows host key rows (frame sealed ++ rest) h (next_frame-oversize sealed rest big fits)

-- ===== src/Store/Reopening.antt =====
-- The promise of `Append`: what it has reported as written, the next `Open` returns.
use kiss_protocol.Base.{◌≡◌, inl, inr, none, some, Bytes, arith, Option-cases}
use kiss_protocol.Store.Types.{Host, Disk, Store}
use kiss_protocol.Store.Appending.{
  Surroundings, Request, commit_entry, request_body, next_seq, new_entry, append,
}

-- A call of `Append` that reports no error has made an entry and committed it.
pub append-commits :
    (host : Host) (world : Surroundings) (s : Store) (r : Request) (disk : Disk) (s' : Store)
    (disk' : Disk)
    → append host world s r disk ≡ (s', disk', none)
    → (body : Bytes) × (request_body host world r.body ≡ some body)
      × (commit_entry host world
            (next_seq host world s)
            disk
            (new_entry host world (next_seq host world s) r body)
          ≡ (s', disk', none))
unfolding append
append-commits host world s r disk s' disk' h =
    elim (Option-cases (request_body host world r.body)) [
      | inl failed ↦ absurd (ground arith)
      | inr (body, eb) ↦ (body, eb, ground arith)
    ]

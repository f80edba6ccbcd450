-- ===== src/Store/Persistence.antt =====
-- A record that `Append` has reported as written is there when the store is opened again.
use mathlib.Core.List.{append-nil, map-append}
use mathlib.Core.Option
use kiss_protocol.Base.{
  ℕ, ◌≤◌, ◌≡◌, refl, sym, ap, ◌∙◌, Option, none, some, List, [], ◌∷◌, ◌++◌, Bytes, length, All,
  All-append, length-append, ok, arith,
}
use kiss_protocol.Encrypt.{seal, nonce_size}
use kiss_protocol.Merkle.Tree.{root, hash_leaf}
use kiss_protocol.Store.Types.{TreeHead, Signer, Host, Disk, Store, Entry}
use kiss_protocol.Store.Frames.{frame, decode_record, max_frame}
use kiss_protocol.Store.Rows.{
  Row, IsReadable, file_of, row_entries, file_of-append, row_entries-append,
}
use kiss_protocol.Store.Head.{leaf_hash, compute_mac, check_tree_head, verify_tree_head}
use kiss_protocol.Store.HeadLaws.{check_tree_head_iff}
use kiss_protocol.Store.Opening.{leaves_of, read_stored_head, check_head}
use kiss_protocol.Store.Offsets.{length-map}
use kiss_protocol.Store.Written.{IsHash, SignerIsSound, root-IsHash, sign_head-IsAuthentic}
use kiss_protocol.Store.Appending.{
  Surroundings, unsigned_tree_head, sign_head, append_log, commit_entry,
}
use kiss_protocol.Store.Committing.{
  Opens, open_box-seal, seal-eq, write_tree_head-written, commit_entry-IsCommitted,
}

-- A store in step with its log file.
pub record IsCurrent (host : Host) (s : Store) (disk : Disk) (rows : List Row) : Type 0 where
  pub log_matches : disk.log_file ≡ some (file_of rows)
  pub readable : All (IsReadable host s.key) rows
  pub leaves_match : s.leaves ≡ leaves_of host (row_entries rows)

-- A disk whose head covers a log to its end.
pub record IsCovered (host : Host) (s : Store) (disk : Disk) (rows : List Row) : Type 0 where
  pub head : TreeHead
  pub head_reads : read_stored_head host disk ≡ some head
  pub head_size : head.size ≡ length rows
  pub head_checks :
      check_head host s.key s.signer s.trusted s.pinned disk (leaves_of host (row_entries rows))
      ≡ ok tt

-- An entry whose JSON reads back as itself and whose frame a reader takes.
pub record IsStorable (host : Host) (world : Surroundings) (key : Bytes) (e : Entry) : Type 0 where
  pub json_reads_back : host.unmarshal_entry (host.marshal_entry e) ≡ some e
  pub fits :
      length (world.nonce ++ host.gcm.seal key world.nonce (host.marshal_entry e)) ≤ max_frame

-- The documented behaviour of what the store calls.
pub record IsLawful (host : Host) (world : Surroundings) : Type 0 where
  pub hashes : (x : Bytes) → IsHash (host.blake3 x)
  pub macs : (k x : Bytes) → IsHash (host.blake3_keyed k x)
  pub opens : Opens host.gcm
  pub heads_read_back : (h : TreeHead) → host.unmarshal_head (host.marshal_head h) ≡ some h
  pub nonce_length : length world.nonce ≡ nonce_size

pub leaves-IsHash :
    (host : Host) (es : List Entry)
    → ((x : Bytes) → IsHash (host.blake3 x))
    → All IsHash (leaves_of host es)
unfolding leaves_of leaf_hash hash_leaf
leaves-IsHash host [] h = tt
leaves-IsHash host (e ∷ es) h = (h _, leaves-IsHash host es h)

pub length-leaves_of :
    (host : Host) (rs : List Row) → length (leaves_of host (row_entries rs)) ≡ length rs
unfolding leaves_of
length-leaves_of host rs =
    length-map (leaf_hash host) (row_entries rs) ∙ length-map (λ (r : Row). r.entry) rs

pub verify_tree_head-some :
    (host : Host) (key : Bytes) (signer : Option Signer) (trusted pinned : List Bytes)
    (file : Bytes) (h : TreeHead) (leaves : List Bytes)
    → host.unmarshal_head file ≡ some h
    → verify_tree_head host key signer trusted pinned (some file) leaves
      ≡ check_tree_head host key signer trusted pinned h leaves
unfolding verify_tree_head
verify_tree_head-some host key signer trusted pinned file h leaves e = rw e refl

pub read_stored_head-some :
    (host : Host) (d : Disk) (file : Bytes) (h : TreeHead)
    → d.head_file ≡ some file
    → host.unmarshal_head file ≡ some h
    → read_stored_head host d ≡ some h
unfolding read_stored_head Option.bind
read_stored_head-some host d file h ed e = rw (ed, e) refl

-- What was sealed reads back.
pub sealed-IsReadable :
    (host : Host) (world : Surroundings) (key : Bytes) (e : Entry) (sealed : Bytes)
    → Opens host.gcm
    → length world.nonce ≡ nonce_size
    → IsStorable host world key e
    → seal host.gcm world.nonce (host.marshal_entry e) key ≡ some sealed
    → IsReadable host key (record { entry = e; sealed = sealed })
unfolding decode_record Option.bind
sealed-IsReadable host world key e sealed opens sized storable es =
    let made = seal-eq host.gcm world.nonce (host.marshal_entry e) key sealed es in
    let opened_box =
      open_box-seal host.gcm world.nonce (host.marshal_entry e) key sealed opens sized es in
    record {
      decodes = rw opened_box storable.json_reads_back;
      not_empty = omega (
        arith,
        ap length made,
        length-append world.nonce (host.gcm.seal key world.nonce (host.marshal_entry e)),
        sized,
      );
      not_too_long = rw made storable.fits;
    }

module _ (host : Host) (world : Surroundings) (lawful : IsLawful host world) (s : Store)
    (disk : Disk) (rows : List Row) (current : IsCurrent host s disk rows)
    (unpinned : s.pinned ≡ []) (sound : SignerIsSound host s.signer) where
  unfoldable pub new_row : Entry → Bytes → Row
  new_row e sealed = record { entry = e; sealed = sealed }

  new_row-IsReadable :
      (e : Entry) (sealed : Bytes)
      → IsStorable host world s.key e
      → seal host.gcm world.nonce (host.marshal_entry e) s.key ≡ some sealed
      → IsReadable host s.key (new_row e sealed)
  unfolding new_row
  new_row-IsReadable e sealed storable es =
      sealed-IsReadable host world s.key e sealed lawful.opens lawful.nonce_length storable es

  unfoldable pub after_rows : Entry → Bytes → List Row
  after_rows e sealed = rows ++ new_row e sealed ∷ []

  append_log-rows :
      (e : Entry) (sealed : Bytes)
      → (append_log host world disk (frame sealed)).log_file ≡ some (file_of (after_rows e sealed))
  unfolding after_rows new_row
  append_log-rows e sealed =
      rw
        (
          current.log_matches,
          file_of-append rows (new_row e sealed ∷ []),
          append-nil (frame sealed),
        )
        refl

  leaves_of-after :
      (e : Entry) (sealed : Bytes)
      → s.leaves ++ leaf_hash host e ∷ [] ≡ leaves_of host (row_entries (after_rows e sealed))
  unfolding leaves_of after_rows new_row
  leaves_of-after e sealed =
      rw (current.leaves_match, row_entries-append rows (new_row e sealed ∷ []))
        (sym (map-append (leaf_hash host) (row_entries rows) (e ∷ [])))

  mac-IsHash : (n : ℕ) (digest : Bytes) → IsHash (compute_mac host s.key n digest)
  unfolding compute_mac
  mac-IsHash n digest = lawful.macs s.key _

  abbrev pub extended : Entry → Store
  extended e = record s { leaves = s.leaves ++ leaf_hash host e ∷ []; last = some e }

  extended-IsCurrent :
      (e : Entry) (sealed : Bytes) (disk' : Disk)
      → IsReadable host s.key (new_row e sealed)
      → disk'.log_file ≡ some (file_of (after_rows e sealed))
      → IsCurrent host (extended e) disk' (after_rows e sealed)
  unfolding after_rows
  extended-IsCurrent e sealed disk' readable logged = record {
    log_matches = logged;
    readable =
        All-append (IsReadable host s.key) rows (new_row e sealed ∷ []) current.readable
          (readable, tt);
    leaves_match = leaves_of-after e sealed;
  }

  head-IsCovered :
      (e : Entry) (sealed : Bytes) (disk' : Disk) (signed : TreeHead)
      → sign_head host world s.signer
          (unsigned_tree_head host world s.key
            (append_log host world disk (frame sealed))
            (extended e).leaves)
          (root host.blake3 (extended e).leaves)
        ≡ some signed
      → disk' ≡ record (append_log host world disk (frame sealed)) {
        head_file = some (host.marshal_head signed);
      }
      → IsCovered host (extended e) disk' (after_rows e sealed)
  head-IsCovered e sealed disk' signed es ed =
      let leaves = (extended e).leaves in
      let listed = leaves_of-after e sealed in
      let hashes : All IsHash leaves =
        rw listed (leaves-IsHash host (row_entries (after_rows e sealed)) lawful.hashes) in
      let authentic =
        sign_head-IsAuthentic host world s.key s.trusted (append_log host world disk (frame sealed))
          leaves (root-IsHash host.blake3 lawful.hashes leaves hashes)
          (mac-IsHash (length leaves) (root host.blake3 leaves)) s.signer signed sound es in
      record {
        head = signed;
        head_reads =
            ap (read_stored_head host) ed
            ∙ read_stored_head-some host _ (host.marshal_head signed) signed refl
                (lawful.heads_read_back signed);
        head_size =
            authentic.size_matches
            ∙ (ap length listed ∙ length-leaves_of host (after_rows e sealed));
        head_checks =
            rw (ap (λ (d : Disk). d.head_file) ed, unpinned, ← listed)
              (verify_tree_head-some host s.key s.signer s.trusted [] (host.marshal_head signed)
                  signed leaves (lawful.heads_read_back signed)
                ∙ (check_tree_head_iff host s.key s.signer s.trusted [] signed leaves).1 authentic);
      }

  -- A successful `commitEntry` adds one readable row, and leaves a head that covers it.
  pub commit_entry-persists :
      (e : Entry) (s' : Store) (disk' : Disk)
      → IsStorable host world s.key e
      → commit_entry host world s disk e ≡ (s', disk', none)
      → (sealed : Bytes) × (s' ≡ extended e)
        × IsCurrent host (extended e) disk' (after_rows e sealed)
        × IsCovered host (extended e) disk' (after_rows e sealed)
  commit_entry-persists e s' disk' storable h =
      let done = commit_entry-IsCommitted host world s disk e s' disk' h in
      let sealed = done.sealed in
      let (signed, es, ed) =
        write_tree_head-written host world (extended e) (append_log host world disk (frame sealed))
          disk' (rw done.store_eq at done.head_written) in
      let logged = ap (λ (d : Disk). d.log_file) ed ∙ append_log-rows e sealed in
      (
        sealed,
        done.store_eq,
        extended-IsCurrent e sealed disk' (new_row-IsReadable e sealed storable done.seals) logged,
        head-IsCovered e sealed disk' signed es ed,
      )

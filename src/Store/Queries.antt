-- ===== src/Store/Queries.antt =====
-- The store's read operations: `Last`, `RootAt`, `Head`, `ReadAll`, `VerifyIntegrity` and
-- `InclusionProof`.
use mathlib.Core.List.{append-nil}
use kiss_protocol.Base.{
  ℕ, zero, suc, ◌≤◌, ◌≡◌, refl, sym, ap, ◌∙◌, ◌&&◌, Option, none, some, List, [], ◌∷◌, Bytes,
  length, take, get_elem?, take_all, ltb, if◌then◌else◌, Result, ok, ◌>>=◌, arith,
}
use kiss_protocol.Codec.Hex.{encode}
use kiss_protocol.Merkle.Tree.{root}
use kiss_protocol.Merkle.Root.{max_leaves}
use kiss_protocol.Merkle.Proof.{Proof, prove, verify, accepted}
use kiss_protocol.Merkle.Completeness.{verify-prove}
use kiss_protocol.Store.Types.{Entry, TreeHead, Host, Disk, Store}
use kiss_protocol.Store.Frames.{read_log, entries, next_frame}
use kiss_protocol.Store.Rows.{Row, row_entries, file_of, entries-records_from}
use kiss_protocol.Store.Reading.{read_log-rows}
use kiss_protocol.Store.Head.{is_empty, leaf_hash, verify_tree_head}
use kiss_protocol.Store.Opening.{leaves_of}
use kiss_protocol.Store.Committed.{Attempt, ReadError, read_committed, lift_head}
use kiss_protocol.Store.Offsets.{length-map}
use kiss_protocol.Store.Persistence.{IsCurrent, length-leaves_of}

module _ (host : Host) where
  -- `Head`, at the clock's text.
  unfoldable pub current_head : Bytes → Store → TreeHead
  current_head now_text s = record {
    size = length s.leaves;
    root = encode (root host.blake3 s.leaves);
    prev_root = [];
    timestamp = now_text;
    mac = [];
    signature = [];
    signer_key = [];
  }

  -- `RootAt`; `none` is a size beyond the records.
  unfoldable pub root_at : Store → ℕ → Option Bytes
  root_at s size =
      if ltb (length s.leaves) size
      then none
      else some (encode (root host.blake3 (take size s.leaves)))

  unfoldable pub read_all : Disk → Bytes → List Entry
  read_all disk key = entries (read_log host key disk.log_file)

  -- `VerifyIntegrity`, with the files as a reader beside a writer finds them for a read-only store.
  unfoldable pub verify_integrity : Store → Disk → List Attempt → Result ReadError ℕ
  verify_integrity s disk attempts =
      let leaves = leaves_of host (read_all disk s.key) in
      if s.read_only
      then (read_committed host s.key s.pinned attempts >>= λ v. ok (length v.leaves))
      else if is_empty leaves && is_empty s.pinned
      then ok 0
      else lift_head (verify_tree_head host s.key s.signer s.trusted s.pinned disk.head_file leaves)
          (length leaves)

  -- `InclusionProof`; `none` is an index beyond the records.
  unfoldable pub inclusion_proof : Store → Disk → ℕ → Option (Proof × Entry)
  inclusion_proof s disk index =
      let es = take (length s.leaves) (read_all disk s.key) in
      elim (get_elem? es index) [
        | none ↦ none
        | some e ↦ elim (prove host.blake3 (leaves_of host es) index) [
          | none ↦ none
          | some p ↦ some (p, e)
        ]
      ]

  nothing_torn : next_frame [] ≡ none
  unfolding next_frame
  nothing_torn = refl

  read_all-rows :
      (s : Store) (disk : Disk) (rows : List Row)
      → IsCurrent host s disk rows
      → read_all disk s.key ≡ row_entries rows
  unfolding read_all
  read_all-rows s disk rows current =
      ap entries (
        ap (read_log host s.key) (current.log_matches ∙ ap some (sym (append-nil (file_of rows))))
        ∙ read_log-rows host s.key rows [] current.readable nothing_torn)
      ∙ entries-records_from 0 rows

  get_elem?-leaves_of :
      (es : List Entry) (i : ℕ) (e : Entry)
      → get_elem? es i ≡ some e
      → get_elem? (leaves_of host es) i ≡ some (leaf_hash host e)
  unfolding leaves_of
  get_elem?-leaves_of [] i e h = cc
  get_elem?-leaves_of (x ∷ es) zero e h = ap some (ap (leaf_hash host) (some_path h))
    where
      some_path : {a b : Entry} → ◌≡◌ {A = Option Entry} (some a) (some b) → a ≡ b
      some_path p = cc
  get_elem?-leaves_of (x ∷ es) (suc i) e h = get_elem?-leaves_of es i e h

  -- For every record of a store that is in step with its log, `InclusionProof` returns that record
  -- and a proof that verifies against the root of the store's leaves.
  pub inclusion_proof-verifies :
      (s : Store) (disk : Disk) (rows : List Row) (index : ℕ) (e : Entry)
      → IsCurrent host s disk rows
      → length rows ≤ max_leaves
      → get_elem? (row_entries rows) index ≡ some e
      → (p : Proof) × (inclusion_proof s disk index ≡ some (p, e))
        × (verify host.blake3 (root host.blake3 s.leaves) (leaf_hash host e) p ≡ accepted)
  unfolding inclusion_proof
  inclusion_proof-verifies s disk rows index e current small at =
      let leaves = leaves_of host (row_entries rows) in
      let (p, proved, good) =
        verify-prove host.blake3 leaves index (leaf_hash host e)
          (omega (arith, length-leaves_of host rows))
          (get_elem?-leaves_of (row_entries rows) index e at) in
      let es : take (length s.leaves) (read_all disk s.key) ≡ row_entries rows =
        ap (take (length s.leaves)) (read_all-rows s disk rows current)
        ∙ take_all (length s.leaves) (row_entries rows) (
            omega (
              arith,
              ap length current.leaves_match,
              length-leaves_of host rows,
              length-map (λ (r : Row). r.entry) rows,
            )) in
      (p, rw (inclusion_proof, es, at, es, proved) refl, rw current.leaves_match good)

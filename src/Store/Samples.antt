-- ===== src/Store/Samples.antt =====
-- A log of two records under the sample host: written, torn, opened again and exported.
use mathlib.Core.Option
use kiss_protocol.Base.{
  ℕ, ◌≡◌, ◌↔◌, ◌∙◌, refl, false, Option, none, some, List, [], ◌∷◌, ◌++◌, Bytes, bytes_eq, codes,
  length, length-replicate, replicate, arith, ok,
}
use kiss_protocol.Encrypt.{seal, open_box}
use kiss_protocol.Merkle.Tree.{root, hash_leaf}
use kiss_protocol.Codec.BigEndian.{uint32}
use kiss_protocol.Codec.Hex.{encode, decode}
use kiss_protocol.Store.Types.{Entry, TreeHead, Disk, Store}
use kiss_protocol.Store.Frames.{frame, next_frame, decode_record, read_log}
use kiss_protocol.Store.Rows.{Row, IsReadable, file_of, row_entries}
use kiss_protocol.Store.Reading.{found, read_log-rows}
use kiss_protocol.Store.Head.{
  mac_equal, check_tree_head, check_signature, leaf_hash, decode_sized, compute_mac, key_accepted,
  tree_head_sig_input,
}
use kiss_protocol.Store.HeadLaws.{IsAuthentic, check_tree_head_iff}
use kiss_protocol.Store.Opening.{
  leaves_of, no_recovery, nothing_uncovered, opened, open_store, read_stored_head, check_head,
}
use kiss_protocol.Store.Recovery.{
  open_store-recovers, open_store-intact, recovered_disk, tail_recovery,
}
use kiss_protocol.Store.Persistence.{IsCurrent, verify_tree_head-some, read_stored_head-some}
use kiss_protocol.Store.Appending.{
  Request, AppendError, append, new_entry, next_seq, unsigned_tree_head, sign_head,
}
use kiss_protocol.Merkle.Proof.{Proof, verify, accepted}
use kiss_protocol.Store.Queries.{inclusion_proof, inclusion_proof-verifies}
use kiss_protocol.Store.SampleHost.{
  host, world, signer, public_key, host-IsLawful, checksum, write_entry, write_head, marking,
}

abbrev pub key : Bytes
key = replicate 32 3

abbrev pub entry_at : ℕ → Bytes → Entry
entry_at n event = record {
  seq = n;
  timestamp = 1700000000;
  level = codes "INFO";
  event = event;
  source = codes "test";
  body = [];
}

abbrev pub row_of : Entry → Row
row_of e = record {
  entry = e;
  sealed = world.nonce ++ marking.seal key world.nonce (write_entry e);
}

abbrev pub first : Entry
first = entry_at 1 (codes "start")

abbrev pub second : Entry
second = entry_at 2 (codes "stop")

pub first-IsReadable : IsReadable host key (row_of first)
unfolding decode_record open_box Option.bind
first-IsReadable = record { decodes = refl; not_empty = omega arith; not_too_long = omega arith }

second-IsReadable : IsReadable host key (row_of second)
unfolding decode_record open_box Option.bind
second-IsReadable = record { decodes = refl; not_empty = omega arith; not_too_long = omega arith }

abbrev pub empty_disk : Disk
empty_disk = record { log_file = some []; head_file = none; quarantined = [] }

abbrev pub leaves_one : List Bytes
leaves_one = leaf_hash host first ∷ []

abbrev pub signed : TreeHead → Bytes → TreeHead
signed h digest = Option.get_or (sign_head host world (some signer) h digest) h

abbrev pub head_of : List Bytes → TreeHead
head_of leaves = signed (unsigned_tree_head host world key empty_disk leaves) (root checksum leaves)

check_one :
    check_tree_head host key (some signer) [] (public_key ∷ []) (head_of leaves_one) leaves_one
    ≡ ok tt
unfolding check_tree_head check_signature unsigned_tree_head sign_head root decode_sized decode
    encode leaf_hash hash_leaf compute_mac mac_equal key_accepted bytes_eq tree_head_sig_input
check_one = refl

check_tree_head_iff_example :
    (check_tree_head host key (some signer) [] (public_key ∷ []) (head_of leaves_one) leaves_one
      ≡ ok tt)
    ↔ IsAuthentic host key (some signer) [] (public_key ∷ []) (head_of leaves_one) leaves_one
check_tree_head_iff_example =
    check_tree_head_iff host key (some signer) [] (public_key ∷ []) (head_of leaves_one) leaves_one

abbrev both : List Row
both = row_of first ∷ row_of second ∷ []

abbrev torn : Bytes
torn = 0 ∷ 0 ∷ 0 ∷ 9 ∷ 1 ∷ []

torn_stops : next_frame torn ≡ none
unfolding next_frame uint32
torn_stops = refl

read_log-rows_example : read_log host key (some (file_of both ++ torn)) ≡ found host key 0 both torn
read_log-rows_example =
    read_log-rows host key both torn (first-IsReadable, (second-IsReadable, tt)) torn_stops

-- A byte string of any length that is asked for.
sized : (n : ℕ) → (xs : Bytes) × (length xs ≡ n)
sized n = (replicate n 0, length-replicate n 0)

abbrev too_long : (xs : Bytes) × (length xs ≡ 67108865)
too_long = sized 67108865

-- The disk after the second record was written and torn bytes behind it, but no second head.
abbrev crashed : Disk
crashed = record {
  log_file = some (file_of both ++ torn);
  head_file = some (write_head (head_of leaves_one));
  quarantined = [];
}

crashed_head : read_stored_head host crashed ≡ some (head_of leaves_one)
crashed_head =
    read_stored_head-some host crashed (write_head (head_of leaves_one)) (head_of leaves_one) refl
      (host-IsLawful.heads_read_back (head_of leaves_one))

head_size : (head_of leaves_one).size ≡ 1
unfolding unsigned_tree_head sign_head
head_size = refl

crashed_check :
    check_head host key
      (some signer)
      []
      (public_key ∷ [])
      crashed
      (leaves_of host (row_entries (row_of first ∷ [])))
    ≡ ok tt
unfolding leaves_of
crashed_check =
    verify_tree_head-some host key (some signer) [] (public_key ∷ [])
      (write_head (head_of leaves_one)) (head_of leaves_one) leaves_one
      (host-IsLawful.heads_read_back (head_of leaves_one))
    ∙ check_one

open_store-recovers_example :
    open_store host key (some signer) [] (public_key ∷ []) crashed
    ≡ ok (
        opened host key
          (some signer)
          []
          (public_key ∷ [])
          (recovered_disk host key
            (some signer)
            []
            (public_key ∷ [])
            crashed
            (row_of first ∷ [])
            (row_of second ∷ [])
            torn)
          (first ∷ [])
          (tail_recovery host key (some signer) [] (public_key ∷ []) (row_of second ∷ []) torn))
unfolding frame
open_store-recovers_example =
    open_store-recovers host key (some signer) [] (public_key ∷ []) crashed (row_of first ∷ [])
      (row_of second ∷ []) torn (head_of leaves_one) refl (first-IsReadable, tt)
      (second-IsReadable, tt) torn_stops (omega arith) (omega arith) (omega arith) (omega arith)
      crashed_head head_size crashed_check

-- The disk after the first record and its head.
abbrev intact : Disk
intact = record {
  log_file = some (file_of (row_of first ∷ []));
  head_file = some (write_head (head_of leaves_one));
  quarantined = [];
}

open_store-intact_example :
    open_store host key (some signer) [] (public_key ∷ []) intact
    ≡ ok (opened host key (some signer) [] (public_key ∷ []) intact (first ∷ []) no_recovery)
open_store-intact_example =
    open_store-intact host key (some signer) [] (public_key ∷ []) intact (row_of first ∷ [])
      (head_of leaves_one) refl (first-IsReadable, tt) (omega arith) (omega arith)
      (read_stored_head-some host intact (write_head (head_of leaves_one)) (head_of leaves_one) refl
        (host-IsLawful.heads_read_back (head_of leaves_one)))
      head_size crashed_check

abbrev running : Store
running = record {
  key = key;
  signer = some signer;
  trusted = [];
  pinned = [];
  unsigned_head = false;
  recovered = no_recovery;
  read_only = false;
  uncovered = nothing_uncovered;
  last = some first;
  seq = 1;
  leaves = leaves_one;
}

abbrev stop_request : Request
stop_request = record {
  level = codes "INFO";
  event = codes "stop";
  source = codes "test";
  body = none;
}

running-IsCurrent : IsCurrent host running intact (row_of first ∷ [])
unfolding leaves_of
running-IsCurrent = record {
  log_matches = refl;
  readable = (first-IsReadable, tt);
  leaves_match = refl;
}

abbrev after_append : Store × Disk × Option AppendError
after_append = append host world running stop_request intact

abbrev stop_entry : Bytes → Entry
stop_entry body = new_entry host world (next_seq host world running) stop_request body

inclusion_proof-verifies_example :
    (p : Proof) × (inclusion_proof host running intact 0 ≡ some (p, first))
    × (verify checksum (root checksum leaves_one) (leaf_hash host first) p ≡ accepted)
inclusion_proof-verifies_example =
    inclusion_proof-verifies host running intact (row_of first ∷ []) 0 first running-IsCurrent
      (omega arith) refl

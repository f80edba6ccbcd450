-- ===== src/Store/Appending.antt =====
-- `Append` and `writeTreeHead`. What the machine does in a call (the clock, the nonce, the outcome of
-- each write) is an argument.
use mathlib.Core.Option
use kiss_protocol.Base.{
  ℕ, ◌+◌, ◌%◌, Bool, Option, none, some, List, [], ◌∷◌, ◌++◌, Bytes, length, take, if◌then◌else◌,
}
use kiss_protocol.Codec.Hex.{encode}
use kiss_protocol.Encrypt.{seal}
use kiss_protocol.Merkle.Tree.{root}
use kiss_protocol.Store.Types.{Entry, TreeHead, Signer, Host, Disk, Store}
use kiss_protocol.Store.Frames.{frame}
use kiss_protocol.Store.Head.{leaf_hash, compute_mac, tree_head_sig_input}
use kiss_protocol.Store.Opening.{read_stored_head, uint64_mod}

pub data AppendError : Type 0 where
  opened_read_only marshal_failed seal_failed write_failed sign_failed head_write_failed :
      AppendError

-- The arguments of a call; `none` is nil data, and `some none` is data that does not marshal.
pub record Request : Type 0 where
  pub level : Bytes
  pub event : Bytes
  pub source : Bytes
  pub body : Option (Option Bytes)

pub record Surroundings : Type 0 where
  pub now : ℕ
  pub now_text : Bytes
  pub nonce : Bytes
  pub torn_at : Option ℕ  -- `some n`: the write of the frame fails after `n` of its bytes
  pub head_written : Bool

module _ (host : Host) (world : Surroundings) where
  -- The head that `writeTreeHead` makes for `leaves`, before it is signed.
  unfoldable pub unsigned_tree_head : Bytes → Disk → List Bytes → TreeHead
  unfolding compute_mac read_stored_head
  unsigned_tree_head key disk leaves = record {
    size = length leaves;
    root = encode (root host.blake3 leaves);
    prev_root = elim (read_stored_head host disk) [ none ↦ [] | some existing ↦ existing.root ];
    timestamp = world.now_text;
    mac = encode (compute_mac host key (length leaves) (root host.blake3 leaves));
    signature = [];
    signer_key = [];
  }

  unfoldable pub sign_head : Option Signer → TreeHead → Bytes → Option TreeHead
  unfolding tree_head_sig_input
  sign_head none head digest = some head
  sign_head (some s) head digest = elim (s.sign (tree_head_sig_input head.size digest)) [
    | none ↦ none
    | some sig ↦ some (record head { signature = encode sig; signer_key = encode s.public_key })
  ]

  -- Written to a temporary file and renamed, so the head on disk is the old one or the new one.
  unfoldable pub write_tree_head : Store → Disk → Disk × Option AppendError
  write_tree_head s disk =
      let head = unsigned_tree_head s.key disk s.leaves in
      elim (sign_head s.signer head (root host.blake3 s.leaves)) [
        | none ↦ (disk, some sign_failed)
        | some signed ↦
            if world.head_written
            then (record disk { head_file = some (host.marshal_head signed) }, none)
            else (disk, some head_write_failed)
      ]

  abbrev pub append_log : Disk → Bytes → Disk
  append_log disk bytes = record disk { log_file = some (Option.get_or disk.log_file [] ++ bytes) }

  unfoldable pub new_entry : Store → Request → Bytes → Entry
  new_entry s r body = record {
    seq = s.seq;
    timestamp = world.now;
    level = host.to_valid_utf8 r.level;
    event = host.to_valid_utf8 r.event;
    source = host.to_valid_utf8 r.source;
    body = body;
  }

  -- The part of `Append` after the entry is made: seal, write, extend the tree, write the head.
  unfoldable pub commit_entry : Store → Disk → Entry → Store × Disk × Option AppendError
  commit_entry s disk e = elim (seal host.gcm world.nonce (host.marshal_entry e) s.key) [
    | none ↦ (s, disk, some seal_failed)
    | some sealed ↦ elim world.torn_at [
      | some n ↦ (s, append_log disk (take n (frame sealed)), some write_failed)
      | none ↦
          let s' = record s { leaves = s.leaves ++ leaf_hash host e ∷ []; last = some e } in
          let (disk', failure) = write_tree_head s' (append_log disk (frame sealed)) in
          (s', disk', failure)
    ]
  ]

  -- `none` is data that does not marshal.
  unfoldable pub request_body : Option (Option Bytes) → Option Bytes
  request_body none = some []
  request_body (some b) = b

  unfoldable pub next_seq : Store → Store
  next_seq s = record s { seq = (s.seq + 1) % uint64_mod }

  unfoldable pub append : Store → Request → Disk → Store × Disk × Option AppendError
  append s r disk =
      if s.read_only then (s, disk, some opened_read_only) else elim (request_body r.body) [
        | none ↦ (next_seq s, disk, some marshal_failed)
        | some body ↦ commit_entry (next_seq s) disk (new_entry (next_seq s) r body)
      ]

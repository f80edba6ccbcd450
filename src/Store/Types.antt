-- ===== src/Store/Types.antt =====
-- The records of internal/store/store.go, and what the store calls: hashes, signatures, the cipher
-- and the JSON encoding of its two documents.
use kiss_protocol.Base.{ℕ, Bool, Option, List, Bytes}
use kiss_protocol.Encrypt.{Gcm}

pub record Entry : Type 0 where
  pub seq : ℕ  -- uint64
  pub timestamp : ℕ
  pub level : Bytes
  pub event : Bytes
  pub source : Bytes
  pub body : Bytes  -- Data, empty if absent

pub record TreeHead : Type 0 where
  pub size : ℕ  -- uint64
  pub root : Bytes  -- hex
  pub prev_root : Bytes  -- hex, "" for the first head
  pub timestamp : Bytes
  pub mac : Bytes  -- hex
  pub signature : Bytes  -- hex, "" if absent
  pub signer_key : Bytes  -- hex, "" if absent

-- signer.Signer
pub record Signer : Type 0 where
  pub public_key : Bytes
  pub sign : Bytes → Option Bytes

-- What is not this program's own code.
pub record Host : Type 0 where
  pub blake3 : Bytes → Bytes
  pub blake3_keyed : Bytes → Bytes → Bytes
  pub ed25519_verify : Bytes → Bytes → Bytes → Bool
  pub gcm : Gcm
  pub marshal_entry : Entry → Bytes
  pub unmarshal_entry : Bytes → Option Entry
  pub marshal_head : TreeHead → Bytes
  pub unmarshal_head : Bytes → Option TreeHead
  pub to_valid_utf8 : Bytes → Bytes

-- The files of the store's directory; `none` is a file that does not exist.
pub record Disk : Type 0 where
  pub log_file : Option Bytes
  pub head_file : Option Bytes
  pub quarantined : List Bytes

pub record Recovery : Type 0 where
  pub moved_bytes : ℕ
  pub uncommitted_records : ℕ
  pub has_quarantine : Bool

pub record Uncovered : Type 0 where
  pub trailing_records : ℕ
  pub trailing_bytes : ℕ

pub record Store : Type 0 where
  pub key : Bytes
  pub signer : Option Signer
  pub trusted : List Bytes
  pub pinned : List Bytes
  pub unsigned_head : Bool
  pub recovered : Recovery
  pub read_only : Bool
  pub uncovered : Uncovered
  pub last : Option Entry  -- last and hasLast
  pub seq : ℕ  -- uint64
  pub leaves : List Bytes

-- ===== src/Death/Records.antt =====
-- The records of internal/death, and the digests that they hold.
use kiss_protocol.Base.{
  ℕ, ◌-◌, ◌==◌, ◌&&◌, Bool, true, false, Option, none, some, List, [], ◌++◌, Bytes, codes, bytes_eq,
  length, take, drop, ltb, if◌then◌else◌, Result, ok, err, ℤ, uint64_of,
}
use kiss_protocol.Codec.Hex.{encode, decode, decode_prefix}
use kiss_protocol.Codec.BigEndian.{put_uint64}

pub record Hash : Type 0 where
  pub status : Bytes  -- complete, incomplete or error
  pub sha256 : Bytes  -- hex
  pub error : Bytes

pub record Reference : Type 0 where
  pub name : Bytes
  pub sha256 : Bytes  -- hex

pub record SkippedRecord : Type 0 where
  pub name : Bytes
  pub error : Bytes

pub record Record : Type 0 where
  pub format : Bytes
  pub timestamp : Bytes
  pub trigger : Bytes
  pub machine_id : Bytes
  pub tree_head : Option Bytes
  pub tree_head_error : Bytes
  pub log_bytes : ℤ  -- -1 if stat failed
  pub log_hash : Hash
  pub genesis_hash : Hash
  pub hash_mode : Bytes
  pub segment_start : ℤ
  pub segment_sha256 : Bytes
  pub chain_sha256 : Bytes
  pub tail_sha256 : Bytes
  pub tail_hash : Hash
  pub prev_record : Option Reference
  pub skipped_records : List SkippedRecord
  pub fallback_reason : Bytes
  pub prefix_changed : Bool
  pub log_shrank : Bool

-- A record and its own file.
pub record SavedRecord : Type 0 where
  pub saved : Record
  pub reference : Reference

-- SHA-256, JSON and filepath.Base.
pub record DeathHost : Type 0 where
  pub sha256 : Bytes → Bytes
  pub unmarshal_record : Bytes → Option Record
  pub marshal_record : Record → Option Bytes
  pub is_json : Bytes → Bool
  pub base_name : Bytes → Bytes

abbrev pub format_1 : Bytes
format_1 = codes "witness-death/1"

abbrev pub format_2 : Bytes
format_2 = codes "witness-death/2"

abbrev pub status_complete : Bytes
status_complete = codes "complete"

abbrev pub status_incomplete : Bytes
status_incomplete = codes "incomplete"

abbrev pub status_error : Bytes
status_error = codes "error"

abbrev pub mode_full : Bytes
mode_full = codes "full"

abbrev pub mode_segment : Bytes
mode_segment = codes "segment"

abbrev pub tail_bytes : ℕ
tail_bytes = 1048576

abbrev pub sha256_size : ℕ
sha256_size = 32

-- `validDigest`
unfoldable pub valid_digest : Bytes → Bool
valid_digest s = elim (decode s) [
  | none ↦ false
  | some b ↦ (length b == sha256_size) && bytes_eq s (encode b)
]

abbrev pub is_format_2 : Record → Bool
is_format_2 r = bytes_eq r.format format_2

abbrev pub is_segment : Record → Bool
is_segment r = bytes_eq r.hash_mode mode_segment

abbrev pub is_complete : Hash → Bool
is_complete h = bytes_eq h.status status_complete

-- `anchor`
unfoldable pub anchor : Record → Bytes
anchor r = if is_format_2 r && is_segment r then r.chain_sha256 else r.log_hash.sha256

-- `tailStart`, of a length that is not negative.
unfoldable pub tail_start : ℕ → ℕ
tail_start n = if ltb tail_bytes n then n - tail_bytes else 0

abbrev pub failed_hash : Bytes → Hash
failed_hash text = record { status = status_error; sha256 = []; error = text }

abbrev pub unfinished_hash : Hash
unfinished_hash = record { status = status_incomplete; sha256 = []; error = [] }

module _ (host : DeathHost) where
  abbrev pub complete_hash : Bytes → Hash
  complete_hash bytes = record {
    status = status_complete;
    sha256 = encode (host.sha256 bytes);
    error = [];
  }

  -- `chainDigest`; of text that is not hexadecimal, the digits before the first that is not.
  unfoldable pub chain_digest : Bytes → Bytes → ℤ → Bytes
  chain_digest previous segment n =
      encode
        (host.sha256 (decode_prefix previous ++ decode_prefix segment ++ put_uint64 (uint64_of n)))

  -- `hashRange` with a size: the deadline passes before it ends or not, and the file is what it reads
  -- or the text of the error.
  unfoldable pub hash_range : Bool → Result Bytes Bytes → ℕ → ℕ → Hash
  hash_range true file start size = unfinished_hash
  hash_range false (err text) start size = failed_hash text
  hash_range false (ok bytes) start size =
      let range = take size (drop start bytes) in
      if length range == size then complete_hash range else failed_hash (codes "unexpected EOF")

  -- `hashFile` with the size -1.
  unfoldable pub hash_all : Bool → Result Bytes Bytes → Hash
  hash_all true file = unfinished_hash
  hash_all false (err text) = failed_hash text
  hash_all false (ok bytes) = complete_hash bytes

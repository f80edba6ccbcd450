-- ===== src/Death/Checks.antt =====
-- `loadRecord` and `checkLink` of internal/death/chain.go.
use kiss_protocol.Base.{
  ℕ, ◌==◌, ◌&&◌, ◌||◌, not, Bool, true, false, Option, none, some, List, [], ◌∷◌, Bytes, bytes_eq,
  length, ltb, if◌then◌else◌, Result, ok, ◌>>=◌, ◌>>◌, refuse_if, or_fail, ℤ, pos, negsuc,
  is_negative, lt_int, eq_int,
}
use kiss_protocol.Codec.Hex.{encode}
use kiss_protocol.Store.Head.{is_empty}
use kiss_protocol.Death.Records.{
  Reference, Record, SavedRecord, DeathHost, format_1, status_incomplete, status_error, mode_full,
  valid_digest, is_format_2, is_segment, is_complete, anchor,
}

pub data LoadError : Type 0 where
  unreadable too_large malformed unsupported_format invalid_log_length invalid_complete_hash :
      LoadError
  invalid_status invalid_mode invalid_segment invalid_segment_hash segment_on_full : LoadError
  invalid_full_hash inconsistent_tail missing_tail partial_digest : LoadError
  invalid_reference missing_previous previous_mismatch : LoadError

abbrev pub max_record : ℕ
max_record = 1048576

-- A record of the directory; `none` is a file that does not read.
abbrev pub Dir : Type 0
Dir = List (Bytes × Option Bytes)

abbrev pub below_minus_one : ℤ → Bool
below_minus_one (pos n) = false
below_minus_one (negsuc n) = ltb 0 n

abbrev pub is_none {ℓ} : {A : Type ℓ} → Option A → Bool
is_none none = true
is_none (some a) = false

-- The switch on the status of the log hash.
unfoldable pub check_status : Record → Result LoadError (Unit {0})
check_status r =
    if is_complete r.log_hash
    then refuse_if (is_negative r.log_bytes || not (valid_digest (anchor r))) invalid_complete_hash
    else refuse_if
        (not (bytes_eq r.log_hash.status status_incomplete)
          && not (bytes_eq r.log_hash.status status_error))
        invalid_status

-- The fields of a record whose mode is segment, and of one whose mode is not.
unfoldable pub check_mode : Record → Result LoadError (Unit {0})
check_mode r =
    if is_segment r
    then refuse_if
        (is_none r.prev_record || is_negative r.segment_start || lt_int r.log_bytes r.segment_start)
        invalid_segment
      >> refuse_if
          (is_complete r.log_hash
            && (not (valid_digest r.segment_sha256)
                || not (valid_digest r.chain_sha256)
                || not (is_empty r.log_hash.sha256)))
          invalid_segment_hash
    else refuse_if
        (not (is_empty r.segment_sha256)
          || not (is_empty r.chain_sha256)
          || not (eq_int r.segment_start (pos 0)))
        segment_on_full
      >> refuse_if (is_complete r.log_hash && not (valid_digest r.log_hash.sha256))
          invalid_full_hash

-- The checks of the second format.
unfoldable pub check_format_2 : Record → Result LoadError (Unit {0})
check_format_2 r = do
  refuse_if
      (not (bytes_eq r.hash_mode mode_full) && not (is_segment r) && not (is_negative r.log_bytes))
      invalid_mode
  check_mode r
  refuse_if
      (not (is_empty r.tail_sha256)
        && (not (is_complete r.tail_hash)
            || not (valid_digest r.tail_sha256)
            || not (bytes_eq r.tail_hash.sha256 r.tail_sha256)))
      inconsistent_tail
  refuse_if (is_complete r.tail_hash && not (valid_digest r.tail_sha256)) missing_tail
  refuse_if
      (not (is_complete r.log_hash)
        && (not (is_empty r.log_hash.sha256)
            || not (is_empty r.segment_sha256)
            || not (is_empty r.chain_sha256)))
      partial_digest

-- What `loadRecord` checks of a record that decodes.
unfoldable pub check_record : Record → Result LoadError (Unit {0})
check_record r = do
  refuse_if (not (bytes_eq r.format format_1) && not (is_format_2 r)) unsupported_format
  refuse_if (below_minus_one r.log_bytes) invalid_log_length
  check_status r
  if is_format_2 r then check_format_2 r else ok tt

-- The order of strings.
unfoldable pub bytes_lt : Bytes → Bytes → Bool
bytes_lt [] [] = false
bytes_lt [] (y ∷ ys) = true
bytes_lt (x ∷ xs) [] = false
bytes_lt (x ∷ xs) (y ∷ ys) = let rest = bytes_lt xs ys in if x == y then rest else ltb x y

unfoldable pub find_file : Bytes → Dir → Option (Option Bytes)
find_file name [] = none
find_file name ((n, contents) ∷ rest) =
    let later = find_file name rest in if bytes_eq n name then some contents else later

module _ (host : DeathHost) where
  -- `loadRecord`
  unfoldable pub load_record : Bytes → Option Bytes → Result LoadError SavedRecord
  load_record name contents = do
    bytes ← or_fail contents unreadable
    refuse_if (ltb max_record (length bytes)) too_large
    r ← or_fail (host.unmarshal_record bytes) malformed
    check_record r
    ok (record {
      saved = r;
      reference = record { name = name; sha256 = encode (host.sha256 bytes) };
    })

  -- `checkLink`
  unfoldable pub check_link : Dir → Bytes → Reference → Result LoadError (Unit {0})
  check_link dir current ref = do
    refuse_if
        (not (bytes_eq ref.name (host.base_name ref.name))
          || not (bytes_lt ref.name current)
          || not (valid_digest ref.sha256))
        invalid_reference
    contents ← or_fail (find_file ref.name dir) missing_previous
    s ← load_record ref.name contents
    refuse_if (not (bytes_eq s.reference.sha256 ref.sha256)) previous_mismatch

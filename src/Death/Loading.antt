-- ===== src/Death/Loading.antt =====
-- The record that `fire` makes passes the checks of `loadRecord`.
use kiss_protocol.Base.{
  ℕ, suc, ◌==◌, ◌≡◌, refl, inl, inr, ◌&&◌, ◌||◌, not, Bool, true, false, [], ◌∷◌, Bytes, bytes_eq,
  bytes_eq_refl, length, take, drop, codes, arith, Bool-cases, Result, ok, err, pos, is_negative,
  ◌>>◌, refuse_if,
}
use kiss_protocol.Codec.Hex.{encode, decode-encode}
use kiss_protocol.Store.Head.{is_empty}
use kiss_protocol.Store.Written.{IsHash}
use kiss_protocol.Death.Records.{
  Hash, Record, DeathHost, mode_full, format_1, format_2, is_format_2, is_segment, valid_digest,
  complete_hash, failed_hash, unfinished_hash, hash_range, is_complete, anchor,
}
use kiss_protocol.Death.Checks.{
  LoadError, unsupported_format, invalid_log_length, invalid_mode, inconsistent_tail, missing_tail,
  partial_digest, below_minus_one, check_status, check_mode, check_format_2, check_record,
}

passes :
    {b : Bool} (e : LoadError) {k : Result LoadError (Unit {0})}
    → b ≡ false
    → k ≡ ok tt
    → (refuse_if b e >> k) ≡ ok tt
passes {b} e {k} h h' = rw (h, h') refl

done-passes : {m k : Result LoadError (Unit {0})} → m ≡ ok tt → k ≡ ok tt → (m >> k) ≡ ok tt
done-passes {m} {k} h h' = rw (h, h') refl

last-passes : {b : Bool} (e : LoadError) → b ≡ false → refuse_if b e ≡ ok tt
last-passes {b} e h = rw h refl

filled : (xs : Bytes) (n : ℕ) → length xs ≡ suc n → is_empty (encode xs) ≡ false
unfolding encode
filled [] n h = absurd (omega arith)
filled (x ∷ xs) n h = refl

module _ (host : DeathHost) where
  -- The outcomes of hashing a range.
  pub data IsHashed : Hash → Type 0 where
    whole : (bytes : Bytes) → IsHashed (complete_hash host bytes)
    late : IsHashed unfinished_hash
    failed : (text : Bytes) → IsHashed (failed_hash text)

  pub hash_range-IsHashed :
      (stalled : Bool) (file : Result Bytes Bytes) (start size : ℕ)
      → IsHashed (hash_range host stalled file start size)
  unfolding hash_range
  hash_range-IsHashed true file start size = late
  hash_range-IsHashed false (err text) start size = failed text
  hash_range-IsHashed false (ok bytes) start size =
      elim (Bool-cases (length (take size (drop start bytes)) == size)) [
        | inl all ↦ rw (all, hash_range) (whole (take size (drop start bytes)))
        | inr short ↦ rw (short, hash_range) (failed (codes "unexpected EOF"))
      ]

  pub valid_digest-encode :
      ((m : Bytes) → IsHash (host.sha256 m))
      → (m : Bytes) → valid_digest (encode (host.sha256 m)) ≡ true
  unfolding valid_digest
  valid_digest-encode hashes m =
      rw
        (
          valid_digest,
          decode-encode (host.sha256 m) (hashes m).1,
          (hashes m).0,
          bytes_eq_refl (encode (host.sha256 m)),
        )
        refl

  -- The digest of a hash does not stay empty.
  encode-filled :
      ((m : Bytes) → IsHash (host.sha256 m))
      → (m : Bytes) → is_empty (encode (host.sha256 m)) ≡ false
  encode-filled hashes m = filled (host.sha256 m) 31 (hashes m).0

  -- The checks on the tail.
  pub tail-fine :
      ((m : Bytes) → IsHash (host.sha256 m))
      → (t : Hash) → IsHashed t
      → ((not (is_empty t.sha256)
            && (not (is_complete t)
                || not (valid_digest t.sha256)
                || not (bytes_eq t.sha256 t.sha256)))
          ≡ false)
        × ((is_complete t && not (valid_digest t.sha256)) ≡ false)
  unfolding bytes_eq
  tail-fine hashes t (whole b) =
      rw
        (
          valid_digest-encode hashes b,
          encode-filled hashes b,
          bytes_eq_refl (encode (host.sha256 b)),
        )
        (refl, refl)
  tail-fine hashes t late = (refl, refl)
  tail-fine hashes t (failed text) = (refl, refl)

  -- The checks of a record, one by one.
  pub record IsFine (r : Record) : Type 0 where
    pub second_format : is_format_2 r ≡ true
    pub has_size : below_minus_one r.log_bytes ≡ false
    pub status : check_status r ≡ ok tt
    pub known_mode :
        (not (bytes_eq r.hash_mode mode_full)
          && not (is_segment r)
          && not (is_negative r.log_bytes))
        ≡ false
    pub mode : check_mode r ≡ ok tt
    pub tail :
        (not (is_empty r.tail_sha256)
          && (not (is_complete r.tail_hash)
              || not (valid_digest r.tail_sha256)
              || not (bytes_eq r.tail_hash.sha256 r.tail_sha256)))
        ≡ false
    pub tail_present : (is_complete r.tail_hash && not (valid_digest r.tail_sha256)) ≡ false
    pub whole_digest :
        (not (is_complete r.log_hash)
          && (not (is_empty r.log_hash.sha256)
              || not (is_empty r.segment_sha256)
              || not (is_empty r.chain_sha256)))
        ≡ false

  pub check_record-IsFine : (r : Record) → IsFine r → check_record r ≡ ok tt
  unfolding check_record check_format_2
  check_record-IsFine r fine =
      let known : (not (bytes_eq r.format format_1) && not (is_format_2 r)) ≡ false =
        ground (arith, fine.second_format) in
      passes unsupported_format known (
        passes invalid_log_length fine.has_size (
          done-passes fine.status (
            rw fine.second_format (
              passes invalid_mode fine.known_mode (
                done-passes fine.mode (
                  passes inconsistent_tail fine.tail (
                    passes missing_tail fine.tail_present
                      (last-passes partial_digest fine.whole_digest))))))))

  abbrev pub full_of : Record → Hash → Hash → Bytes → Bool → Record
  full_of r h t reason changed = record r {
    hash_mode = mode_full;
    fallback_reason = reason;
    prefix_changed = changed;
    tail_hash = t;
    tail_sha256 = t.sha256;
    log_hash = h;
  }

  -- A record before its hashes.
  pub record IsBlank (r : Record) (size : ℕ) : Type 0 where
    pub of_format : r.format ≡ format_2
    pub of_size : r.log_bytes ≡ pos size
    pub at_start : r.segment_start ≡ pos 0
    pub no_segment : r.segment_sha256 ≡ []
    pub no_chain : r.chain_sha256 ≡ []

  full-status :
      ((m : Bytes) → IsHash (host.sha256 m))
      → (r : Record) (h t : Hash) (size : ℕ) (reason : Bytes) (changed : Bool)
      → r.log_bytes ≡ pos size
      → IsHashed h
      → check_status (full_of r h t reason changed) ≡ ok tt
  unfolding check_status anchor bytes_eq
  full-status hashes r h t size reason changed bytes (whole a) =
      rw (bytes, check_status, anchor) (ground (arith, valid_digest-encode hashes a))
  full-status hashes r h t size reason changed bytes late = refl
  full-status hashes r h t size reason changed bytes (failed text) = refl

  full-mode :
      ((m : Bytes) → IsHash (host.sha256 m))
      → (r : Record) (h t : Hash) (size : ℕ) (reason : Bytes) (changed : Bool) → IsBlank r size
      → IsHashed h
      → check_mode (full_of r h t reason changed) ≡ ok tt
  unfolding check_mode bytes_eq
  full-mode hashes r h t size reason changed blank (whole a) =
      rw
        (blank.at_start, blank.no_segment, blank.no_chain, check_mode, valid_digest-encode hashes a)
        refl
  full-mode hashes r h t size reason changed blank late =
      rw (blank.at_start, blank.no_segment, blank.no_chain, check_mode) refl
  full-mode hashes r h t size reason changed blank (failed text) =
      rw (blank.at_start, blank.no_segment, blank.no_chain, check_mode) refl

  full-digest :
      (r : Record) (h t : Hash) (size : ℕ) (reason : Bytes) (changed : Bool)
      → IsBlank r size
      → IsHashed h
      → (not (is_complete h)
          && (not (is_empty h.sha256)
              || not (is_empty r.segment_sha256)
              || not (is_empty r.chain_sha256)))
        ≡ false
  unfolding bytes_eq
  full-digest r h t size reason changed blank (whole a) = refl
  full-digest r h t size reason changed blank late = rw (blank.no_segment, blank.no_chain) refl
  full-digest r h t size reason changed blank (failed text) =
      rw (blank.no_segment, blank.no_chain) refl

  pub full-IsFine :
      ((m : Bytes) → IsHash (host.sha256 m))
      → (r : Record) (h t : Hash) (size : ℕ) (reason : Bytes) (changed : Bool) → IsBlank r size
      → IsHashed h
      → IsHashed t
      → IsFine (full_of r h t reason changed)
  full-IsFine hashes r h t size reason changed blank hashed_log hashed_tail = record {
    second_format = rw blank.of_format (bytes_eq_refl format_2);
    has_size = rw blank.of_size refl;
    status = full-status hashes r h t size reason changed blank.of_size hashed_log;
    known_mode = rw (bytes_eq_refl mode_full) refl;
    mode = full-mode hashes r h t size reason changed blank hashed_log;
    tail = (tail-fine hashes t hashed_tail).0;
    tail_present = (tail-fine hashes t hashed_tail).1;
    whole_digest = full-digest r h t size reason changed blank hashed_log;
  }

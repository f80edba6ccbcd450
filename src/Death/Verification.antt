-- ===== src/Death/Verification.antt =====
-- `Verify` of internal/death/verify.go: the failures that it reports, in their order.
use kiss_protocol.Base.{
  ℕ, ◌-◌, ◌&&◌, ◌||◌, not, Bool, true, false, Option, none, some, List, [], ◌∷◌, ◌++◌, Bytes,
  bytes_eq, ltb, if◌then◌else◌, Result, ok, err, ℤ, pos, negsuc, lt_int, eq_int,
}
use kiss_protocol.Death.Records.{
  Reference, Record, SavedRecord, DeathHost, valid_digest, is_format_2, is_segment, is_complete,
  anchor, tail_start, chain_digest, hash_range,
}
use kiss_protocol.Death.Checks.{Dir, LoadError, load_record, check_link}

pub data Issue : Type 0 where
  unreadable_record bad_link : LoadError → Issue
  not_newest missing_link segment_without_previous invalid_bounds ineligible_previous : Issue
  machine_changed chain_mismatch tail_unavailable log_unfinished invalid_range : Issue
  range_unread range_changed tail_unread tail_changed : Issue

abbrev pub fail_if : Bool → Issue → List Issue
fail_if true issue = issue ∷ []
fail_if false issue = []

abbrev pub names_previous : Reference → Option SavedRecord → Bool
names_previous ref none = false
names_previous ref (some p) = bytes_eq ref.name p.reference.name

abbrev pub is_some_record : Option SavedRecord → Bool
is_some_record none = false
is_some_record (some p) = true

abbrev pub link_failure : Result LoadError (Unit {0}) → List Issue
link_failure (ok done) = []
link_failure (err e) = bad_link e ∷ []

module _ (host : DeathHost) where
  -- The link of a record of the second format.
  unfoldable pub link_issues : Dir → Bytes → Option SavedRecord → Record → List Issue
  link_issues dir name previous r = elim r.prev_record [
    | none ↦ fail_if (is_some_record previous) missing_link
    | some ref ↦
        link_failure (check_link host dir name ref)
        ++ fail_if (not (names_previous ref previous)) not_newest
  ]

  -- A segment against the record that it extends.
  unfoldable pub extends_issues : Record → Record → List Issue
  extends_issues p r =
      fail_if (not (eq_int r.segment_start p.log_bytes) || lt_int r.log_bytes r.segment_start)
        invalid_bounds
      ++ (fail_if
            (not (is_complete p.log_hash)
              || not (is_format_2 p)
              || not (valid_digest p.tail_sha256))
            ineligible_previous
          ++ (fail_if (not (bytes_eq p.machine_id r.machine_id)) machine_changed
              ++ fail_if
                  (is_complete r.log_hash
                    && not (
                        bytes_eq (chain_digest host (anchor p) r.segment_sha256 r.log_bytes)
                          r.chain_sha256))
                  chain_mismatch))

  unfoldable pub segment_issues : Option SavedRecord → Record → List Issue
  segment_issues previous r =
      if is_segment r
      then elim previous [
        | none ↦ segment_without_previous ∷ []
        | some p ↦ elim r.prev_record [
          | none ↦ segment_without_previous ∷ []
          | some ref ↦ extends_issues p.saved r
        ]
      ]
      else []

  unfoldable pub format_2_issues : Dir → Bytes → Option SavedRecord → Record → List Issue
  format_2_issues dir name previous r =
      if is_format_2 r
      then link_issues dir name previous r
        ++ (segment_issues previous r
            ++ fail_if (not (valid_digest r.tail_sha256)) tail_unavailable)
      else []

  -- A range of the retained log against the digest of a record.
  unfoldable pub compare_range : Result Bytes Bytes → ℕ → ℕ → Bytes → Issue → Issue → List Issue
  compare_range log start size want unread changed =
      let h = hash_range host false log start size in
      if not (is_complete h) then unread ∷ [] else fail_if (not (bytes_eq h.sha256 want)) changed

  abbrev pub captured_start : Record → ℤ
  captured_start r = if is_segment r then r.segment_start else pos 0

  abbrev pub captured_digest : Record → Bytes
  captured_digest r = if is_segment r then r.segment_sha256 else r.log_hash.sha256

  -- The range that a record of `n` log bytes has captured.
  unfoldable pub range_issues : Result Bytes Bytes → Record → ℕ → List Issue
  range_issues log r n = elim (captured_start r) [
    | negsuc a ↦ invalid_range ∷ []
    | pos a ↦
        if ltb n a
        then invalid_range ∷ []
        else if is_complete r.log_hash
        then compare_range log a (n - a) (captured_digest r) range_unread range_changed
        else []
  ]

  unfoldable pub tail_issues : Result Bytes Bytes → Record → ℕ → List Issue
  tail_issues log r n =
      if is_format_2 r && valid_digest r.tail_sha256
      then compare_range log (tail_start n) (n - tail_start n) r.tail_sha256 tail_unread
          tail_changed
      else []

  -- The part of the loop with the retained log; without a path for it, `none`.
  unfoldable pub log_issues : Option (Result Bytes Bytes) → Record → List Issue
  log_issues none r = []
  log_issues (some log) r = elim r.log_bytes [
    | negsuc a ↦ []
    | pos n ↦ range_issues log r n ++ tail_issues log r n
  ]

  -- One record that loads.
  unfoldable pub record_issues :
      Dir → Option (Result Bytes Bytes) → Bytes → Option SavedRecord → Record → List Issue
  record_issues dir log name previous r =
      format_2_issues dir name previous r
      ++ (fail_if (not (is_complete r.log_hash)) log_unfinished ++ log_issues log r)

  -- The loop of `Verify`.
  unfoldable pub verify_records :
      Dir → Option (Result Bytes Bytes) → Option SavedRecord → Dir → List Issue
  verify_records dir log previous [] = []
  verify_records dir log previous ((name, contents) ∷ rest) =
      elim (load_record host name contents) [
        | err e ↦ unreadable_record e ∷ verify_records dir log previous rest
        | ok s ↦ record_issues dir log name previous s.saved ++ verify_records dir log (some s) rest
      ]

  -- `Verify`: `none` is a directory without records, which is an error.
  unfoldable pub verify_dir : Dir → Option (Result Bytes Bytes) → Option (List Issue)
  verify_dir [] log = none
  verify_dir (file ∷ files) log = some (verify_records (file ∷ files) log none (file ∷ files))

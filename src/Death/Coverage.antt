-- ===== src/Death/Coverage.antt =====
-- What `Verify` of internal/death says about the retained log.
use kiss_protocol.Base.{
  ℕ, ◌-◌, ◌≤◌, ◌==◌, ◌≡◌, ◌≢◌, ◌⊎◌, refl, sym, ap, subst, ◌∙◌, inl, inr, ◌||◌, not, Bool, true,
  false, Option, none, some, List, [], ◌∷◌, ◌++◌, Bytes, bytes_eq, bytes_eq_sound, bytes_eq_refl,
  length, take, drop, take-cut, append-empty, ltb, eq_int_sound, ℤ-cases, Option-cases, All, arith,
  Bool-cases, Result, ok, err, pos, negsuc, lt_int, eq_int,
}
use kiss_protocol.Codec.Hex.{encode, encode-injective}
use kiss_protocol.Store.Written.{IsHash}
use kiss_protocol.Death.Records.{
  Record, SavedRecord, DeathHost, valid_digest, is_format_2, is_segment, is_complete, hash_range,
}
use kiss_protocol.Death.Checks.{Dir, LoadError, load_record}
use kiss_protocol.Death.Verification.{
  Issue, invalid_bounds, ineligible_previous, fail_if, link_issues, extends_issues, segment_issues,
  format_2_issues, compare_range, captured_start, captured_digest, range_issues, log_issues,
  record_issues, verify_records, verify_dir, range_unread, range_changed, log_unfinished,
}

fail_if-empty : (b : Bool) (issue : Issue) → fail_if b issue ≡ [] → b ≡ false
fail_if-empty false issue h = refl
fail_if-empty true issue h = cc

same_record : {a b : SavedRecord} → ◌≡◌ {A = Result LoadError SavedRecord} (ok a) (ok b) → a ≡ b
same_record h = cc

load-cases :
    (r : Result LoadError SavedRecord)
    → ((e : LoadError) × (r ≡ err e)) ⊎ ((s : SavedRecord) × (r ≡ ok s))
load-cases (err e) = inl (e, refl)
load-cases (ok s) = inr (s, refl)

same_issues : {a b : List Issue} → ◌≡◌ {A = Option (List Issue)} (some a) (some b) → a ≡ b
same_issues h = cc

same_pos : {a b : ℕ} → pos a ≡ pos b → a ≡ b
same_pos h = cc

cons-nil : {A : Type 0} {x : A} {xs : List A} → x ∷ xs ≢ []
cons-nil h = cc

false-true : ◌≡◌ {A = Bool} false true → ⊥
false-true h = cc

not-false : (b : Bool) → not b ≡ false → b ≡ true
not-false true h = refl
not-false false h = cc

module _ (host : DeathHost) where
  -- One digest of two ranges that are read.
  compare_range-same :
      (log : Bytes) (start size : ℕ) (want : Bytes) (unread changed : Issue)
      → compare_range host (ok log) start size want unread changed ≡ []
      → encode (host.sha256 (take size (drop start log))) ≡ want
  unfolding compare_range hash_range bytes_eq
  compare_range-same log start size want unread changed h =
      elim (Bool-cases (length (take size (drop start log)) == size)) [
        | inl whole ↦
            bytes_eq_sound _ want
              (not-false _ (fail_if-empty _ changed (rw (whole, compare_range, hash_range) at h)))
        | inr short ↦ absurd (ground (arith, short, h))
      ]

  -- What a record that passes has captured of the log.
  Captured : Bytes → Record → ℕ → ℕ → Type 0
  Captured log r a n =
      (a ≤ n) × (encode (host.sha256 (take (n - a) (drop a log))) ≡ captured_digest host r)

  range_issues-Captured :
      (log : Bytes) (r : Record) (a n : ℕ)
      → is_complete r.log_hash ≡ true
      → captured_start host r ≡ pos a
      → range_issues host (ok log) r n ≡ []
      → Captured log r a n
  unfolding range_issues Captured
  range_issues-Captured log r a n complete start h = elim (Bool-cases (ltb n a)) [
    | inl beyond ↦ absurd (cons-nil (rw (start, beyond, range_issues) at h))
    | inr inside ↦ (
      ground (arith, inside),
      compare_range-same log a (n - a) (captured_digest host r) range_unread range_changed
          (rw (start, inside, complete, range_issues) at h),
    )
  ]

  negative_start :
      (log : Bytes) (r : Record) (a n : ℕ)
      → captured_start host r ≡ negsuc a
      → range_issues host (ok log) r n ≢ []
  unfolding range_issues
  negative_start log r a n start h = cons-nil (rw (start, range_issues) at h)

  -- One range of two logs that is different, with one SHA-256 digest.
  abbrev pub RangeClash : Bytes → Bytes → Type 0
  RangeClash log other =
      (a : ℕ) × (size : ℕ) × (take size (drop a log) ≢ take size (drop a other))
      × (host.sha256 (take size (drop a log)) ≡ host.sha256 (take size (drop a other)))

  -- Two logs agree on the bytes that a record covers.
  abbrev pub Agrees : Bytes → Bytes → Record → Type 0
  Agrees log other r =
      (n : ℕ) → r.log_bytes ≡ pos n → (take n log ≡ take n other) ⊎ RangeClash log other

  same_digest :
      (x y want : Bytes)
      → ((m : Bytes) → IsHash (host.sha256 m))
      → encode (host.sha256 x) ≡ want
      → encode (host.sha256 y) ≡ want
      → (x ≡ y) ⊎ ((x ≢ y) × (host.sha256 x ≡ host.sha256 y))
  same_digest x y want hashes hx hy = elim (Bool-cases (bytes_eq x y)) [
    | inl same ↦ inl (bytes_eq_sound x y same)
    | inr other ↦ inr (
      (λ e. absurd (false-true (sym other ∙ subst (λ z. bytes_eq x z ≡ true) e (bytes_eq_refl x)))),
      encode-injective (host.sha256 x) (host.sha256 y) (hashes x).1 (hashes y).1 (hx ∙ sym hy),
    )
  ]

  -- The bytes up to the start of a range, and then those of the range.
  extends-agreement :
      (log other : Bytes) (r : Record) (a n : ℕ)
      → ((m : Bytes) → IsHash (host.sha256 m))
      → Captured log r a n
      → Captured other r a n
      → (take a log ≡ take a other) ⊎ RangeClash log other
      → (take n log ≡ take n other) ⊎ RangeClash log other
  unfolding Captured
  extends-agreement log other r a n hashes (le, first) (le', second) (inr found) = inr found
  extends-agreement log other r a n hashes (le, first) (le', second) (inl before) =
      elim (same_digest (take (n - a) (drop a log)) (take (n - a) (drop a other))
        (captured_digest host r) hashes first second) [
          | inr (differs, collides) ↦ inr (a, n - a, differs, collides)
          | inl same ↦ inl (
              take-cut a n log le
              ∙ ap (λ p. p ++ take (n - a) (drop a log)) before
              ∙ ap (◌++◌ (take a other)) same
              ∙ sym (take-cut a n other le))
        ]

  -- The record before, where it is of the second format.
  abbrev pub PreviousAgrees : Bytes → Bytes → Option SavedRecord → Type 0
  PreviousAgrees log other none = Unit
  PreviousAgrees log other (some p) = is_format_2 p.saved ≡ true → Agrees log other p.saved

  extends-start :
      (p r : Record)
      → extends_issues host p r ≡ []
      → (r.segment_start ≡ p.log_bytes) × (is_format_2 p ≡ true)
  unfolding extends_issues
  extends-start p r h =
      let (bounds, rest) = append-empty _ _ h in
      let (eligible, more) = append-empty _ _ rest in
      let no_bounds =
        fail_if-empty
          (not (eq_int r.segment_start p.log_bytes) || lt_int r.log_bytes r.segment_start)
          invalid_bounds bounds in
      let is_eligible =
        fail_if-empty
          (not (is_complete p.log_hash) || not (is_format_2 p) || not (valid_digest p.tail_sha256))
          ineligible_previous eligible in
      (
        eq_int_sound r.segment_start p.log_bytes (ground (arith, no_bounds)),
        ground (arith, is_eligible),
      )

  start-agreement :
      (log other : Bytes) (previous : Option SavedRecord) (r : Record) (a : ℕ)
      → segment_issues host previous r ≡ []
      → PreviousAgrees log other previous
      → captured_start host r ≡ pos a
      → (take a log ≡ take a other) ⊎ RangeClash log other
  unfolding segment_issues
  start-agreement log other none r a h prior start = elim (Bool-cases (is_segment r)) [
    | inl segment ↦ absurd (cons-nil (rw (segment, segment_issues) at h))
    | inr full ↦
        let zero_start : 0 ≡ a = same_pos (rw full at start) in inl (rw (← zero_start) refl)
  ]
  start-agreement log other (some p) r a h prior start = elim (Bool-cases (is_segment r)) [
    | inr full ↦
        let zero_start : 0 ≡ a = same_pos (rw full at start) in inl (rw (← zero_start) refl)
    | inl segment ↦ elim (Option-cases r.prev_record) [
      | inl missing ↦ absurd (cons-nil (rw (segment, missing, segment_issues) at h))
      | inr (ref, linked) ↦
          let (bounds, eligible) =
            extends-start p.saved r (rw (segment, linked, segment_issues) at h) in
          prior eligible a (sym bounds ∙ (rw segment at start))
    ]
  ]

  record-parts :
      (dir : Dir) (log : Option (Result Bytes Bytes)) (name : Bytes) (previous : Option SavedRecord)
      (r : Record)
      → record_issues host dir log name previous r ≡ []
      → (format_2_issues host dir name previous r ≡ [])
        × (is_complete r.log_hash ≡ true)
        × (log_issues host log r ≡ [])
  unfolding record_issues
  record-parts dir log name previous r h =
      let (shape, rest) = append-empty (format_2_issues host dir name previous r) _ h in
      let (done, ranges) =
        append-empty (fail_if (not (is_complete r.log_hash)) log_unfinished) _ rest in
      (shape, not-false _ (fail_if-empty _ log_unfinished done), ranges)

  format_2-segment :
      (dir : Dir) (name : Bytes) (previous : Option SavedRecord) (r : Record)
      → format_2_issues host dir name previous r ≡ []
      → is_format_2 r ≡ true
      → segment_issues host previous r ≡ []
  unfolding format_2_issues
  format_2-segment dir name previous r h format =
      let (linked, rest) =
        append-empty (link_issues host dir name previous r) _ (rw (format, format_2_issues) at h) in
      (append-empty (segment_issues host previous r) _ rest).0

  log-range :
      (log : Bytes) (r : Record) (n : ℕ)
      → log_issues host (some (ok log)) r ≡ []
      → r.log_bytes ≡ pos n
      → range_issues host (ok log) r n ≡ []
  unfolding log_issues
  log-range log r n h size =
      (append-empty (range_issues host (ok log) r n) _ (rw (size, log_issues) at h)).0

  record-agreement :
      (dir : Dir) (log other : Bytes) (name : Bytes) (previous : Option SavedRecord) (r : Record)
      → ((m : Bytes) → IsHash (host.sha256 m))
      → record_issues host dir (some (ok log)) name previous r ≡ []
      → record_issues host dir (some (ok other)) name previous r ≡ []
      → PreviousAgrees log other previous
      → is_format_2 r ≡ true
      → Agrees log other r
  record-agreement dir log other name previous r hashes h k prior format n size =
      let (shape, complete, ranges) = record-parts dir (some (ok log)) name previous r h in
      let (shape', complete', ranges') = record-parts dir (some (ok other)) name previous r k in
      let segment = format_2-segment dir name previous r shape format in
      let range = log-range log r n ranges size in
      let range' = log-range other r n ranges' size in
      elim (ℤ-cases (captured_start host r)) [
        | inl (a, start) ↦
            extends-agreement log other r a n hashes
              (range_issues-Captured log r a n complete start range)
              (range_issues-Captured other r a n complete start range')
              (start-agreement log other previous r a segment prior start)
        | inr (a, start) ↦ absurd (negative_start log r a n start range)
      ]

  -- A record of the second format that loads says the same of both logs.
  abbrev pub FileAgrees : Bytes → Bytes → Bytes × Option Bytes → Type 0
  FileAgrees log other (name, contents) =
      (s : SavedRecord)
      → load_record host name contents ≡ ok s
      → is_format_2 s.saved ≡ true
      → Agrees log other s.saved

  -- The loop of `Verify` from a record before on which the logs agree.
  verify_records-agree :
      (dir : Dir) (log other : Bytes) (previous : Option SavedRecord) (files : Dir)
      → ((m : Bytes) → IsHash (host.sha256 m))
      → verify_records host dir (some (ok log)) previous files ≡ []
      → verify_records host dir (some (ok other)) previous files ≡ []
      → PreviousAgrees log other previous
      → All (FileAgrees log other) files
  unfolding verify_records
  verify_records-agree dir log other previous [] hashes h k prior = tt
  verify_records-agree dir log other previous ((name, contents) ∷ rest) hashes h k prior =
      elim (load-cases (load_record host name contents)) [
        | inl (e, failed) ↦ absurd (cons-nil (rw (failed, verify_records) at h))
        | inr (s, loaded) ↦
            let (here, later) =
              append-empty (record_issues host dir (some (ok log)) name previous s.saved) _
                (rw (loaded, verify_records) at h) in
            let (here', later') =
              append-empty (record_issues host dir (some (ok other)) name previous s.saved) _
                (rw (loaded, verify_records) at k) in
            let agrees =
              record-agreement dir log other name previous s.saved hashes here here' prior in
            (
              λ s' loaded' format.
                  let same : s ≡ s' = same_record (sym loaded ∙ loaded') in
                  subst (λ x. is_format_2 x.saved ≡ true → Agrees log other x.saved) same agrees
                    format,
              verify_records-agree dir log other (some s) rest hashes later later' agrees,
            )
      ]

  -- Where SHA-256 returns 32 bytes: if `Verify` reports no failure of one directory of records for
  -- two retained logs, then the logs agree on the bytes that each record of the second format covers,
  -- from the start of the log on although a segment hashes only its own bytes, or one range of the two
  -- logs is different and has one SHA-256 digest.
  pub verify_dir-agree :
      (dir : Dir) (log other : Bytes)
      → ((m : Bytes) → IsHash (host.sha256 m))
      → verify_dir host dir (some (ok log)) ≡ some []
      → verify_dir host dir (some (ok other)) ≡ some []
      → All (FileAgrees log other) dir
  unfolding verify_dir
  verify_dir-agree [] log other hashes h k = tt
  verify_dir-agree (file ∷ files) log other hashes h k =
      verify_records-agree (file ∷ files) log other none (file ∷ files) hashes (same_issues h)
        (same_issues k) tt

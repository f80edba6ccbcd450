-- ===== src/Death/Firing.antt =====
-- Every record that `fire` of internal/death makes passes the checks of `loadRecord`.
use kiss_protocol.Base.{
  ℕ, ◌-◌, ◌≤◌, ◌≡◌, ◌≢◌, reverse, ℤ-cases, ◌⊎◌, refl, inl, inr, ◌&&◌, ◌||◌, not, Bool, true, false,
  Option, none, some, List, [], Bytes, bytes_eq, bytes_eq_refl, ltb, arith, Bool-cases,
  Option-cases, if◌then◌else◌, Result, ok, err, pos,
}
use kiss_protocol.Codec.Hex.{encode}
use kiss_protocol.Store.Head.{is_empty}
use kiss_protocol.Store.Written.{IsHash}
use kiss_protocol.Death.Records.{
  Hash, Record, SavedRecord, DeathHost, mode_full, mode_segment, format_1, format_2, valid_digest,
  failed_hash, chain_digest, hash_range, is_complete, anchor,
}
use kiss_protocol.Death.Checks.{
  LoadError, is_none, check_status, check_mode, check_format_2, check_record,
}
use kiss_protocol.Death.Capture.{
  FireWorld, Judgement, full_hash, extends, judge_tail, judge_link, judge, judgement_of, hashed,
  hash_log, new_record, fire, tail_of, has_shrunk, find_previous,
}
use kiss_protocol.Death.Records.{SkippedRecord, tail_start}
use kiss_protocol.Death.Checks.{check_link}
use kiss_protocol.Death.Capture.{files_of, reference_of}
use kiss_protocol.Death.Loading.{
  IsHashed, whole, late, failed, hash_range-IsHashed, valid_digest-encode, tail-fine, IsFine,
  check_record-IsFine, IsBlank, full-IsFine,
}

full-extends :
    {reason : Bytes} {changed : Bool} {q : SavedRecord} {start : ℕ}
    → full_hash reason changed ≢ extends q start
full-extends h = cc

-- A branch to the whole log was not taken.
unless-full :
    (b : Bool) (reason : Bytes) (changed : Bool) (rest : Judgement) {q : SavedRecord} {start : ℕ}
    → (if b then full_hash reason changed else rest) ≡ extends q start
    → (b ≡ false) × (rest ≡ extends q start)
unless-full true reason changed rest h = absurd (full-extends h)
unless-full false reason changed rest h = (refl, h)

same_start : {p q : SavedRecord} {n start : ℕ} → extends p n ≡ extends q start → start ≡ n
same_start h = cc

size-cases : (r : Result Bytes ℕ) → ((text : Bytes) × (r ≡ err text)) ⊎ ((size : ℕ) × (r ≡ ok size))
size-cases (err text) = inl (text, refl)
size-cases (ok size) = inr (size, refl)

link-cases : (r : Result LoadError (Unit {0})) → ((e : LoadError) × (r ≡ err e)) ⊎ (r ≡ ok tt)
link-cases (err e) = inl (e, refl)
link-cases (ok tt) = inr refl

module _ (host : DeathHost) where
  abbrev segment_of : Record → Hash → Hash → Bytes → ℕ → Bytes → Record
  segment_of r h t reason start chain = record r {
    hash_mode = mode_segment;
    fallback_reason = reason;
    prefix_changed = false;
    segment_start = pos start;
    tail_hash = t;
    tail_sha256 = t.sha256;
    log_hash = record { status = h.status; sha256 = []; error = h.error };
    segment_sha256 = if is_complete h then h.sha256 else [];
    chain_sha256 = if is_complete h then chain else [];
  }

  segment-status :
      ((m : Bytes) → IsHash (host.sha256 m))
      → (r : Record) (h t : Hash) (size start : ℕ) (input : Bytes) → r.format ≡ format_2
      → r.log_bytes ≡ pos size
      → IsHashed host h
      → check_status (segment_of r h t [] start (encode (host.sha256 input))) ≡ ok tt
  unfolding check_status anchor bytes_eq
  segment-status hashes r h t size start input format bytes (whole a) =
      rw (format, bytes, check_status, anchor, valid_digest-encode host hashes input) refl
  segment-status hashes r h t size start input format bytes late = refl
  segment-status hashes r h t size start input format bytes (failed text) = refl

  segment-mode :
      ((m : Bytes) → IsHash (host.sha256 m))
      → (r : Record) (h t : Hash) (size start : ℕ) (input : Bytes) → r.log_bytes ≡ pos size
      → start ≤ size
      → is_none r.prev_record ≡ false
      → IsHashed host h
      → check_mode (segment_of r h t [] start (encode (host.sha256 input))) ≡ ok tt
  unfolding check_mode bytes_eq
  segment-mode hashes r h t size start input bytes inside linked (whole a) =
      let ordered : ltb size start ≡ false = ground (arith, inside) in
      rw
        (
          bytes,
          linked,
          ordered,
          check_mode,
          valid_digest-encode host hashes a,
          valid_digest-encode host hashes input,
        )
        refl
  segment-mode hashes r h t size start input bytes inside linked late =
      let ordered : ltb size start ≡ false = ground (arith, inside) in
      rw (bytes, linked, ordered, check_mode) refl
  segment-mode hashes r h t size start input bytes inside linked (failed text) =
      let ordered : ltb size start ≡ false = ground (arith, inside) in
      rw (bytes, linked, ordered, check_mode) refl

  segment-digest :
      (h : Hash) (chain : Bytes)
      → IsHashed host h
      → (not (is_complete h)
          && (not true
              || not (is_empty (if is_complete h then h.sha256 else []))
              || not (is_empty (if is_complete h then chain else []))))
        ≡ false
  unfolding bytes_eq
  segment-digest h chain (whole a) = refl
  segment-digest h chain late = refl
  segment-digest h chain (failed text) = refl

  segment-IsFine :
      ((m : Bytes) → IsHash (host.sha256 m))
      → (r : Record) (h t : Hash) (size start : ℕ) (input : Bytes) → IsBlank host r size
      → start ≤ size
      → is_none r.prev_record ≡ false
      → IsHashed host h
      → IsHashed host t
      → IsFine host (segment_of r h t [] start (encode (host.sha256 input)))
  segment-IsFine hashes r h t size start input blank inside linked hashed_log hashed_tail = record {
    second_format = rw blank.of_format (bytes_eq_refl format_2);
    has_size = rw blank.of_size refl;
    status = segment-status hashes r h t size start input blank.of_format blank.of_size hashed_log;
    known_mode = rw (bytes_eq_refl mode_segment) (ground arith);
    mode = segment-mode hashes r h t size start input blank.of_size inside linked hashed_log;
    tail = (tail-fine host hashes t hashed_tail).0;
    tail_present = (tail-fine host hashes t hashed_tail).1;
    whole_digest = segment-digest h (encode (host.sha256 input)) hashed_log;
  }

module _ (host : DeathHost) (w : FireWorld) where
  judge_tail-extends :
      (p q : SavedRecord) (n start : ℕ) → judge_tail host w p n ≡ extends q start → start ≡ n
  unfolding judge_tail
  judge_tail-extends p q n start h =
      let checked = hash_range host w.guard_late w.guard_log (tail_start n) (n - tail_start n) in
      elim (Bool-cases (is_complete checked)) [
        | inr broken ↦ absurd (full-extends (rw (broken, judge_tail) at h))
        | inl complete ↦ elim (Bool-cases (bytes_eq checked.sha256 p.saved.tail_sha256)) [
          | inr changed ↦ absurd (full-extends (rw (complete, changed, judge_tail) at h))
          | inl same ↦ same_start (rw (complete, same, judge_tail) at h)
        ]
      ]

  judge_link-extends :
      (p q : SavedRecord) (n start : ℕ) → judge_link host w p n ≡ extends q start → start ≡ n
  unfolding judge_link
  judge_link-extends p q n start h = elim (Option-cases p.saved.prev_record) [
    | inl missing ↦ judge_tail-extends p q n start (rw (missing, judge_link) at h)
    | inr (ref, linked) ↦
        elim (link-cases (check_link host (files_of w.listing) p.reference.name ref)) [
          | inl (e, broken) ↦ absurd (full-extends (rw (linked, broken, judge_link) at h))
          | inr good ↦ judge_tail-extends p q n start (rw (linked, good, judge_link) at h)
        ]
  ]

  judge-extends :
      (skipped : List SkippedRecord) (machine_id : Bytes) (size : ℕ) (p q : SavedRecord) (start : ℕ)
      → judge host w skipped machine_id size p ≡ extends q start
      → start ≤ size
  unfolding judge
  judge-extends skipped machine_id size p q start h =
      let (kept, h1) = unless-full (not (is_empty skipped)) _ false _ h in
      let (longer, h2) = unless-full (has_shrunk host w p.saved size) _ false _ h1 in
      let (complete, h3) = unless-full (not (is_complete p.saved.log_hash)) _ false _ h2 in
      let (same, h4) = unless-full (not (bytes_eq p.saved.machine_id machine_id)) _ false _ h3 in
      let (tailed, h5) =
        unless-full (bytes_eq p.saved.format format_1 || not (valid_digest p.saved.tail_sha256)) _
          false _ h4 in
      elim (ℤ-cases p.saved.log_bytes) [
        | inr (a, negative) ↦ absurd (full-extends (rw negative at h5))
        | inl (n, size_of) ↦
            let at_n = judge_link-extends p q n start (rw size_of at h5) in
            let fits : ltb size n ≡ false = rw size_of at longer in ground (arith, at_n, fits)
      ]

  judgement_of-extends :
      (found : Option SavedRecord × List SkippedRecord × Bool) (machine_id : Bytes) (size : ℕ)
      (q : SavedRecord) (start : ℕ)
      → judgement_of host w found machine_id size ≡ extends q start
      → (is_none (reference_of host w found.0) ≡ false) × (start ≤ size)
  unfolding judgement_of
  judgement_of-extends (none, skipped, timeout) machine_id size q start h = absurd (full-extends h)
  judgement_of-extends (some p, skipped, timeout) machine_id size q start h =
      (refl, judge-extends skipped machine_id size p q start h)

  hashed-passes :
      ((m : Bytes) → IsHash (host.sha256 m))
      → (j : Judgement) (size : ℕ) (r : Record) → IsBlank host r size
      → ((q : SavedRecord) (start : ℕ)
          → j ≡ extends q start
          → (is_none r.prev_record ≡ false) × (start ≤ size))
      → check_record (hashed host w j size r) ≡ ok tt
  unfolding hashed chain_digest
  hashed-passes hashes (full_hash reason changed) size r blank extending =
      check_record-IsFine host _ (
        full-IsFine host hashes r (hash_range host w.log_late w.log 0 size) (tail_of host w size)
          size reason changed blank (hash_range-IsHashed host w.log_late w.log 0 size)
          (hash_range-IsHashed host w.tail_late w.tail_log _ _))
  hashed-passes hashes (extends p start) size r blank extending =
      let (linked, inside) = extending p start refl in
      check_record-IsFine host _ (
        segment-IsFine host hashes r (hash_range host w.log_late w.log start (size - start))
          (tail_of host w size) size start _ blank inside linked
          (hash_range-IsHashed host w.log_late w.log start (size - start))
          (hash_range-IsHashed host w.tail_late w.tail_log _ _))

  no_log-passes :
      (text trigger machine_id : Bytes)
      → w.log_size ≡ err text
      → check_record (record (new_record host w trigger machine_id) {
        log_hash = failed_hash text;
        hash_mode = mode_full;
        tail_hash = failed_hash text;
      })
        ≡ ok tt
  unfolding new_record check_record check_status check_format_2 check_mode bytes_eq
  no_log-passes text trigger machine_id missing = rw (missing, check_record) refl

  -- Where SHA-256 returns 32 bytes: the record that `fire` makes passes every check that `loadRecord`
  -- makes of a record that decodes, whatever the earlier records are, wherever a read fails and
  -- whenever the deadline passes.
  pub fire-passes :
      ((m : Bytes) → IsHash (host.sha256 m))
      → (trigger machine_id : Bytes) → check_record (fire host w trigger machine_id) ≡ ok tt
  unfolding fire hash_log new_record
  fire-passes hashes trigger machine_id = elim (size-cases w.log_size) [
    | inl (text, missing) ↦ rw (missing, fire) (no_log-passes text trigger machine_id missing)
    | inr (size, present) ↦
        let found = find_previous host w w.loads_in_time (reverse (files_of w.listing)) [] in
        rw (present, fire)
          (hashed-passes hashes (judgement_of host w found machine_id size) size _
            (record {
              of_format = refl;
              of_size = rw present refl;
              at_start = refl;
              no_segment = refl;
              no_chain = refl;
            })
            (λ q start h. judgement_of-extends found machine_id size q start h))
  ]

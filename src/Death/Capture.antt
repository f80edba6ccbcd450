-- ===== src/Death/Capture.antt =====
-- `fire` and `hashLog` of internal/death: the record of a death.
use kiss_protocol.Base.{
  ℕ, zero, suc, ◌-◌, ◌&&◌, ◌||◌, not, Bool, true, false, Option, none, some, List, [], ◌∷◌, ◌++◌,
  Bytes, codes, bytes_eq, reverse, if◌then◌else◌, Result, ok, err, pos, negsuc, is_negative, lt_int,
}
use kiss_protocol.Store.Head.{is_empty}
use kiss_protocol.Death.Records.{
  Hash, Reference, SkippedRecord, Record, SavedRecord, DeathHost, format_1, format_2, mode_full,
  mode_segment, valid_digest, is_complete, anchor, tail_start, failed_hash, chain_digest,
  hash_range, hash_all,
}
use kiss_protocol.Death.Checks.{Dir, LoadError, load_record, check_link}

-- What the machine does while a record is made: the files as each read finds them, or the text of the
-- error, and whether the deadline passes before that read ends.
pub record FireWorld : Type 0 where
  pub now_text : Bytes
  pub tree_head : Result Bytes Bytes
  pub log_size : Result Bytes ℕ
  pub genesis_file : Result Bytes Bytes
  pub genesis_late : Bool
  pub listing : Result Bytes Dir
  pub loads_in_time : Option ℕ  -- `none`: the deadline does not pass while records are loaded
  pub guard_log : Result Bytes Bytes
  pub guard_late : Bool
  pub tail_log : Result Bytes Bytes
  pub tail_late : Bool
  pub log : Result Bytes Bytes
  pub log_late : Bool
  pub error_text : LoadError → Bytes

-- The decision of `hashLog`: the whole log, with the reason, or the segment behind a record.
pub data Judgement : Type 0 where
  full_hash : Bytes → Bool → Judgement
  extends : SavedRecord → ℕ → Judgement

abbrev pub files_of : Result Bytes Dir → Dir
files_of (err text) = []
files_of (ok dir) = dir

abbrev pub one_less : Option ℕ → Option ℕ
one_less none = none
one_less (some zero) = some 0
one_less (some (suc n)) = some n

abbrev pub is_late : Option ℕ → Bool
is_late (some zero) = true
is_late _ = false

module _ (host : DeathHost) (w : FireWorld) where
  -- The loop over the records, newest first: the record found, those that were skipped, and whether
  -- the deadline passed.
  unfoldable pub find_previous :
      Option ℕ → Dir → List SkippedRecord → Option SavedRecord × List SkippedRecord × Bool
  find_previous left [] skipped = (none, skipped, false)
  find_previous left ((name, contents) ∷ older) skipped =
      if is_late left then (none, skipped, true) else elim (load_record host name contents) [
        | ok s ↦ (some s, skipped, false)
        | err e ↦
            find_previous (one_less left) older
              (skipped ++ record { name = name; error = w.error_text e } ∷ [])
      ]

  unfoldable pub initial_reason : Bool → Bytes
  initial_reason true = codes "history_deadline"
  initial_reason false = elim w.listing [
    | err text ↦ codes "history_read_error: " ++ text
    | ok dir ↦ codes "no_previous_record"
  ]

  -- The tail of the record before, read again.
  unfoldable pub judge_tail : SavedRecord → ℕ → Judgement
  judge_tail p n =
      let h = hash_range host w.guard_late w.guard_log (tail_start n) (n - tail_start n) in
      if not (is_complete h)
      then full_hash (codes "previous_tail_" ++ h.status) false
      else if not (bytes_eq h.sha256 p.saved.tail_sha256)
      then full_hash (codes "prefix_changed") true
      else extends p n

  unfoldable pub judge_link : SavedRecord → ℕ → Judgement
  judge_link p n = elim p.saved.prev_record [
    | none ↦ judge_tail p n
    | some ref ↦ elim (check_link host (files_of w.listing) p.reference.name ref) [
      | err e ↦ full_hash (codes "previous_record_link_invalid: " ++ w.error_text e) false
      | ok linked ↦ judge_tail p n
    ]
  ]

  abbrev pub has_shrunk : Record → ℕ → Bool
  has_shrunk p size = not (is_negative p.log_bytes) && lt_int (pos size) p.log_bytes

  -- The switch over the record before; one whose hash is complete has no negative length.
  unfoldable pub judge : List SkippedRecord → Bytes → ℕ → SavedRecord → Judgement
  judge skipped machine_id size p =
      if not (is_empty skipped)
      then full_hash (codes "skipped_invalid_records") false
      else if has_shrunk p.saved size
      then full_hash (codes "log_shrank") false
      else if not (is_complete p.saved.log_hash)
      then full_hash (codes "previous_hash_" ++ p.saved.log_hash.status) false
      else if not (bytes_eq p.saved.machine_id machine_id)
      then full_hash (codes "machine_id_changed") false
      else if bytes_eq p.saved.format format_1 || not (valid_digest p.saved.tail_sha256)
      then full_hash (codes "previous_record_has_no_tail") false
      else elim p.saved.log_bytes [ negsuc a ↦ full_hash [] false | pos n ↦ judge_link p n ]

  unfoldable pub judgement_of :
      Option SavedRecord × List SkippedRecord × Bool → Bytes → ℕ → Judgement
  judgement_of (none, skipped, late) machine_id size =
      full_hash
        (if not (is_empty skipped) then codes "skipped_invalid_records" else initial_reason late)
        false
  judgement_of (some p, skipped, late) machine_id size = judge skipped machine_id size p

  abbrev pub shrank_since : Option SavedRecord → ℕ → Bool
  shrank_since none size = false
  shrank_since (some p) size = has_shrunk p.saved size

  abbrev pub reference_of : Option SavedRecord → Option Reference
  reference_of none = none
  reference_of (some p) = some p.reference

  abbrev pub tail_of : ℕ → Hash
  tail_of size = hash_range host w.tail_late w.tail_log (tail_start size) (size - tail_start size)

  -- The end of `hashLog`.
  unfoldable pub hashed : Judgement → ℕ → Record → Record
  hashed (full_hash reason changed) size r = record r {
    hash_mode = mode_full;
    fallback_reason = reason;
    prefix_changed = changed;
    tail_hash = tail_of size;
    tail_sha256 = (tail_of size).sha256;
    log_hash = hash_range host w.log_late w.log 0 size;
  }
  hashed (extends p start) size r =
      let h = hash_range host w.log_late w.log start (size - start) in
      record r {
        hash_mode = mode_segment;
        fallback_reason = [];
        prefix_changed = false;
        segment_start = pos start;
        tail_hash = tail_of size;
        tail_sha256 = (tail_of size).sha256;
        log_hash = record { status = h.status; sha256 = []; error = h.error };
        segment_sha256 = if is_complete h then h.sha256 else [];
        chain_sha256 =
            if is_complete h then chain_digest host (anchor p.saved) h.sha256 (pos size) else [];
      }

  -- `hashLog`
  unfoldable pub hash_log : ℕ → Record → Record
  hash_log size r =
      let found = find_previous w.loads_in_time (reverse (files_of w.listing)) [] in
      hashed (judgement_of found r.machine_id size) size (record r {
        prev_record = reference_of found.0;
        skipped_records = found.1;
        log_shrank = shrank_since found.0 size;
      })

  unfoldable pub new_record : Bytes → Bytes → Record
  new_record trigger machine_id = record {
    format = format_2;
    timestamp = w.now_text;
    trigger = trigger;
    machine_id = machine_id;
    tree_head = elim w.tree_head [
      | err text ↦ none
      | ok head ↦ if host.is_json head then some head else none
    ];
    tree_head_error = elim w.tree_head [
      | err text ↦ text
      | ok head ↦ if host.is_json head then [] else codes "tree-head.json is not valid JSON"
    ];
    log_bytes = elim w.log_size [ err text ↦ negsuc 0 | ok size ↦ pos size ];
    log_hash = record { status = []; sha256 = []; error = [] };
    genesis_hash = hash_all host w.genesis_late w.genesis_file;
    hash_mode = [];
    segment_start = pos 0;
    segment_sha256 = [];
    chain_sha256 = [];
    tail_sha256 = [];
    tail_hash = record { status = []; sha256 = []; error = [] };
    prev_record = none;
    skipped_records = [];
    fallback_reason = [];
    prefix_changed = false;
    log_shrank = false;
  }

  -- `fire`, up to the publication of the record.
  unfoldable pub fire : Bytes → Bytes → Record
  fire trigger machine_id = elim w.log_size [
    | err text ↦ record (new_record trigger machine_id) {
      log_hash = failed_hash text;
      hash_mode = mode_full;
      tail_hash = failed_hash text;
    }
    | ok size ↦ hash_log size (new_record trigger machine_id)
  ]

  -- The bytes that are published.
  unfoldable pub record_file : Record → Option Bytes
  record_file r = elim (host.marshal_record r) [
    | none ↦ none
    | some bytes ↦ some (bytes ++ 10 ∷ [])
  ]

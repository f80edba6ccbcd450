-- ===== src/Death/Samples.antt =====
-- One death record, of a log that has grown since.
use kiss_protocol.Base.{
  ◌≡◌, refl, true, false, none, some, [], ◌∷◌, ◌++◌, Bytes, bytes_eq, codes, All, ok, err, pos,
}
use kiss_protocol.Codec.Hex.{encode, decode}
use kiss_protocol.Store.SampleHost.{checksum, checksum-IsHash}
use kiss_protocol.Death.Records.{
  Record, DeathHost, format_2, mode_full, valid_digest, anchor, tail_start, hash_range,
}
use kiss_protocol.Death.Checks.{
  Dir, check_status, check_mode, check_format_2, check_record, load_record,
}
use kiss_protocol.Death.Verification.{
  verify_dir, verify_records, record_issues, format_2_issues, link_issues, segment_issues,
  log_issues, range_issues, tail_issues, compare_range,
}
use kiss_protocol.Death.Coverage.{FileAgrees, verify_dir-agree}
use kiss_protocol.Death.Capture.{
  FireWorld, fire, hash_log, new_record, find_previous, judgement_of, judge, judge_link, judge_tail,
  hashed,
}
use kiss_protocol.Death.Firing.{fire-passes}

abbrev log : Bytes
log = 5 ∷ 6 ∷ 7 ∷ []

abbrev digest : Bytes
digest = encode (checksum log)

abbrev death : Record
death = record {
  format = format_2;
  timestamp = codes "now";
  trigger = codes "signal";
  machine_id = codes "box";
  tree_head = none;
  tree_head_error = [];
  log_bytes = pos 3;
  log_hash = record { status = codes "complete"; sha256 = digest; error = [] };
  genesis_hash = record { status = codes "error"; sha256 = []; error = codes "missing" };
  hash_mode = mode_full;
  segment_start = pos 0;
  segment_sha256 = [];
  chain_sha256 = [];
  tail_sha256 = digest;
  tail_hash = record { status = codes "complete"; sha256 = digest; error = [] };
  prev_record = none;
  skipped_records = [];
  fallback_reason = codes "no_previous_record";
  prefix_changed = false;
  log_shrank = false;
}

abbrev host : DeathHost
host = record {
  sha256 = checksum;
  unmarshal_record = λ bytes. some death;
  marshal_record = λ r. some (codes "death");
  is_json = λ bytes. true;
  base_name = λ name. name;
}

abbrev dir : Dir
dir = (codes "death_1.json", some (codes "death")) ∷ []

verifies : verify_dir host dir (some (ok log)) ≡ some []
unfolding verify_dir verify_records load_record check_record check_status check_format_2 check_mode
    anchor valid_digest record_issues format_2_issues link_issues segment_issues log_issues
    range_issues tail_issues compare_range hash_range tail_start bytes_eq encode decode
verifies = refl

verifies_grown : verify_dir host dir (some (ok (log ++ 8 ∷ []))) ≡ some []
unfolding verify_dir verify_records load_record check_record check_status check_format_2 check_mode
    anchor valid_digest record_issues format_2_issues link_issues segment_issues log_issues
    range_issues tail_issues compare_range hash_range tail_start bytes_eq encode decode
verifies_grown = refl

verify_dir-agree_example : All (FileAgrees host log (log ++ 8 ∷ [])) dir
verify_dir-agree_example =
    verify_dir-agree host dir log (log ++ 8 ∷ []) checksum-IsHash verifies verifies_grown

-- The deadline passes before the tail is read, and the log cannot be opened for the guard.
abbrev late_world : FireWorld
late_world = record {
  now_text = codes "now";
  tree_head = err (codes "missing");
  log_size = ok 4;
  genesis_file = err (codes "missing");
  genesis_late = false;
  listing = ok dir;
  loads_in_time = none;
  guard_log = ok (log ++ 8 ∷ []);
  guard_late = false;
  tail_log = ok (log ++ 8 ∷ []);
  tail_late = true;
  log = ok (log ++ 8 ∷ []);
  log_late = false;
  error_text = λ e. codes "bad record";
}

fire-passes_example : check_record (fire host late_world (codes "signal") (codes "box")) ≡ ok tt
fire-passes_example = fire-passes host late_world checksum-IsHash (codes "signal") (codes "box")

-- That record extends the first one: its segment starts where the log ended then.
fires_segment : (fire host late_world (codes "signal") (codes "box")).segment_start ≡ pos 3
unfolding fire hash_log new_record find_previous judgement_of judge judge_link judge_tail hashed
    load_record check_record check_status check_format_2 check_mode anchor valid_digest hash_range
    tail_start bytes_eq encode decode
fires_segment = refl

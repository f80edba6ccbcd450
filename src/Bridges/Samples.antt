-- ===== src/Bridges/Samples.antt =====
-- A receipt that was denied, a decision that stopped, and an error of two lines.
use kiss_protocol.Base.{◌≡◌, refl, Bool, true, false, [], ◌∷◌, Bytes, codes, bytes_eq, take}
use kiss_protocol.Store.Head.{key_listed}
use kiss_protocol.Bridges.Events.{
  Fields, text, flag, object, no_fields, field, event_level, receipt_event, receipt_verdict,
  nested_string, first_non_empty, get,
}
use kiss_protocol.Bridges.Levels.{
  Pattern, error_prefix, info, error, normalize_level, classify_receipt, elevate_for_verdict,
  stderr_level, classify_stderr, stderr_levels, classify_decision,
}

abbrev same_letters : Bytes → Bytes
same_letters s = s

abbrev denied : Fields
denied = field (codes "level") (text info) (
    field (codes "detail")
      (object (
        field (codes "payload") (object (field (codes "verdict") (text (codes "deny")) no_fields))
          no_fields))
      no_fields)

denied_level :
    classify_receipt same_letters same_letters denied ≡ (codes "WARN", codes "pipelock_receipt")
unfolding classify_receipt elevate_for_verdict normalize_level event_level receipt_verdict
    receipt_event nested_string first_non_empty get bytes_eq key_listed
denied_level = refl

abbrev stopped : Fields
stopped =
    field (codes "manipulation_risk") (text (codes "low"))
      (field (codes "stop_and_ask") (flag true) no_fields)

stopped_decision : classify_decision stopped ≡ (codes "WARN", codes "sbh_decision:stop_and_ask")
unfolding classify_decision get bytes_eq
stopped_decision = refl

-- A line is an error if it begins with "E".
abbrev begins_with_e : Pattern → Bytes → Bool
begins_with_e error_prefix line = bytes_eq (take 1 line) (codes "E")
begins_with_e _ line = false

two_lines : stderr_levels begins_with_e [] (codes "E1" ∷ codes "    at" ∷ []) ≡ error ∷ error ∷ []
unfolding stderr_levels stderr_level classify_stderr bytes_eq
two_lines = refl

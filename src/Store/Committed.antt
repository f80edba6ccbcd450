-- ===== src/Store/Committed.antt =====
-- `readCommitted`, `OpenPinned` and `VerifyIntegrity`: reading beside a running writer. What the files
-- hold at each read is an argument, since the writer may change them in between.
use mathlib.Core.List.{get_last?}
use kiss_protocol.Base.{
  ◌-◌, true, false, Option, none, some, List, [], ◌∷◌, Bytes, length, take, ltb, if◌then◌else◌,
  Result, ok, err, ◌>>=◌,
}
use kiss_protocol.Store.Types.{Entry, TreeHead, Host, Uncovered, Store}
use kiss_protocol.Store.Frames.{LogRead, read_log, entries}
use kiss_protocol.Store.Head.{
  HeadError, missing_tree_head, unparseable_head, is_empty, check_tree_head, verify_tree_head,
}
use kiss_protocol.Store.Opening.{end_of, leaves_of, last_seq, no_recovery}

-- One attempt's reads: the head, then the log, and the head once more when there was none.
pub record Attempt : Type 0 where
  pub head_file : Option Bytes
  pub log_file : Option Bytes
  pub head_again : Option Bytes

pub record CommittedLog : Type 0 where
  pub committed : List Entry
  pub leaves : List Bytes
  pub uncovered : Uncovered

pub data ReadError : Type 0 where
  head_refused : HeadError → ReadError
  head_beyond_log : ReadError
  no_attempt : ReadError

abbrev pub lift_head {ℓ} : {A : Type ℓ} → Result HeadError (Unit {0}) → A → Result ReadError A
lift_head (ok _) a = ok a
lift_head (err e) a = err (head_refused e)

-- `retry e` is a `continue` with `lastErr` set.
pub data Outcome : Type 0 where
  done : Result ReadError CommittedLog → Outcome
  retry : ReadError → Outcome

module _ (host : Host) (key : Bytes) (pinned : List Bytes) where
  -- The log as covered by a head that was read before it.
  unfoldable pub covered_log : TreeHead → LogRead → CommittedLog
  covered_log head log =
      let kept = take head.size (entries log) in
      record {
        committed = kept;
        leaves = leaves_of host kept;
        uncovered = record {
          trailing_records = length log.records - length kept;
          trailing_bytes = log.size - end_of (length kept) log.records;
        };
      }

  unfoldable pub try_committed : Attempt → Outcome
  try_committed a =
      let log = read_log host key a.log_file in
      elim a.head_file [
        | none ↦
            if is_empty (entries log)
            then done (
                lift_head (verify_tree_head host key none [] pinned a.head_again []) (record {
                  committed = [];
                  leaves = [];
                  uncovered = record { trailing_records = 0; trailing_bytes = log.size };
                }))
            else retry (head_refused missing_tree_head)
        | some file ↦ elim (host.unmarshal_head file) [
          | none ↦ done (err (head_refused unparseable_head))
          | some head ↦
              if ltb (length (entries log)) head.size
              then retry head_beyond_log
              else done (
                  lift_head
                    (check_tree_head host key none [] pinned head
                      (leaves_of host (take head.size (entries log))))
                    (covered_log head log))
        ]
      ]

  -- The loop over the attempts that are left, with the last error.
  unfoldable pub read_committed_from : ReadError → List Attempt → Result ReadError CommittedLog
  read_committed_from last_error [] = err last_error
  read_committed_from last_error (a ∷ rest) = elim (try_committed a) [
    | done result ↦ result
    | retry e ↦ read_committed_from e rest
  ]

  unfoldable pub read_committed : List Attempt → Result ReadError CommittedLog
  read_committed attempts = read_committed_from no_attempt attempts

  unfoldable pub open_pinned : List Attempt → Result ReadError Store
  open_pinned attempts = do
    v ← read_committed attempts
    ok (record {
      key = key;
      signer = none;
      trusted = [];
      pinned = pinned;
      unsigned_head = false;
      recovered = no_recovery;
      read_only = true;
      uncovered = v.uncovered;
      last = get_last? v.committed;
      seq = last_seq host (get_last? v.committed);
      leaves = v.leaves;
    })

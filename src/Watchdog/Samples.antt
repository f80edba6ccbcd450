-- ===== src/Watchdog/Samples.antt =====
-- A crash, a mirror that fails, a push that is always in conflict, a drifted machine and an audit.
use kiss_protocol.Base.{
  ◌≡◌, ◌≢◌, ◌⊎◌, ◌↔◌, refl, true, false, Option, none, some, [], ◌∷◌, Bytes, All, take, replicate,
  bytes_eq, codes,
}
use kiss_protocol.Watchdog.Lifecycle.{DowntimeEvent, critical, downtime}
use kiss_protocol.Watchdog.Mirror.{
  push, pushed, precondition_failed, IsStored, AreConflicts, push-pushed_iff,
}
use kiss_protocol.Store.Types.{Entry, Store, TreeHead}
use kiss_protocol.Store.Head.{key_listed}
use kiss_protocol.Store.SampleHost.{host}
use kiss_protocol.Watchdog.Drift.{FileEntry, Snapshot, IsSame, measure, measure-empty_iff}
use kiss_protocol.Watchdog.Audit.{audit_head, exit_code, IsExtended, audit_head-fails_iff}

abbrev last : Entry
last = record {
  seq = 7;
  timestamp = 1000000000;
  level = codes "INFO";
  event = codes "tick";
  source = codes "sys";
  body = [];
}

abbrev crash : DowntimeEvent
crash = record {
  level = critical;
  gap_seconds = 3;
  clean_stop = false;
  after_init = false;
  last_seq = 7;
  last_event = codes "tick";
  last_ts = 1000000000;
}

recorded_crash : downtime (some last) 4000000000 60000000000 ≡ some crash
unfolding downtime bytes_eq
recorded_crash = refl

push-pushed_iff_example : (push (replicate 3 precondition_failed) ≡ pushed) ↔ (
    IsStored (take 3 (replicate 3 precondition_failed))
    ⊎ AreConflicts (take 3 (replicate 3 precondition_failed)))
push-pushed_iff_example = push-pushed_iff (replicate 3 precondition_failed)

abbrev shell : FileEntry
shell = record { path = codes "/bin/sh"; sha256 = codes "ab"; mode = codes "755"; size = 9 }

abbrev snapshot : Snapshot
snapshot = record { files = shell ∷ []; procs = codes "init" ∷ [] }

-- A machine whose shell was made writable.
abbrev machine : Bytes → Option FileEntry
machine path = some (record shell { mode = codes "777" })

measure-empty_iff_example : (measure machine (codes "init" ∷ []) snapshot ≡ []) ↔ (
    All (IsSame machine) snapshot.files
    × All (λ p. key_listed p snapshot.procs ≡ true) (codes "init" ∷ []))
measure-empty_iff_example = measure-empty_iff machine (codes "init" ∷ []) snapshot

abbrev local : Store
local = record {
  key = replicate 32 1;
  signer = none;
  trusted = [];
  pinned = [];
  unsigned_head = false;
  recovered = record { moved_bytes = 0; uncommitted_records = 0; has_quarantine = false };
  read_only = false;
  uncovered = record { trailing_records = 0; trailing_bytes = 0 };
  last = some last;
  seq = 2;
  leaves = replicate 32 5 ∷ replicate 32 6 ∷ [];
}

-- The head that a mirror holds of the first leaf.
abbrev mirrored : TreeHead
mirrored = record {
  size = 1;
  root = codes "00";
  prev_root = [];
  timestamp = [];
  mac = [];
  signature = [];
  signer_key = [];
}

audit_head-fails_iff_example :
    (exit_code (audit_head host (codes "now") local 10 mirrored) ≢ 1)
    ↔ IsExtended host local mirrored
audit_head-fails_iff_example = audit_head-fails_iff host (codes "now") local 10 mirrored

-- ===== src/Watchdog/Lifecycle.antt =====
-- internal/lifecycle/lifecycle.go. Times are in nanoseconds.
use kiss_protocol.Base.{
  ℕ, zero, suc, ◌+◌, ◌-◌, ◌/◌, ◌≡◌, ◌↔◌, refl, sym, ap, ◌==◌, ◌&&◌, ◌||◌, not, Bool, true, false,
  Option, none, some, List, [], ◌∷◌, Bytes, codes, bytes_eq, ltb, leb, if◌then◌else◌, arith,
  replicate,
}
use kiss_protocol.Store.Types.{Entry}
use kiss_protocol.Store.Head.{is_empty}

pub data Level : Type 0 where
  info warn critical : Level

pub record DowntimeEvent : Type 0 where
  pub level : Level
  pub gap_seconds : ℕ
  pub clean_stop : Bool
  pub after_init : Bool
  pub last_seq : ℕ
  pub last_event : Bytes
  pub last_ts : ℕ

abbrev pub after_genesis : Entry → Bool
after_genesis e = bytes_eq e.event (codes "genesis") && e.seq == 1

abbrev pub stopped_cleanly : Entry → Bool
stopped_cleanly e =
    bytes_eq e.level (codes "DEATH") && bytes_eq e.event (codes "signal_received")
    || after_genesis e

unfoldable pub downtime_level : Bool → ℕ → ℕ → Level
downtime_level clean gap alert_after =
    if not clean then critical else if ltb alert_after gap then warn else info

-- `Downtime`; a gap below zero is recorded as zero, and seconds are rounded.
unfoldable pub downtime : Option Entry → ℕ → ℕ → Option DowntimeEvent
unfolding downtime_level
downtime none now alert_after = none
downtime (some last) now alert_after =
    let gap = now - last.timestamp in
    let clean = stopped_cleanly last in
    some (record {
      level = downtime_level clean gap alert_after;
      gap_seconds = (gap + 500000000) / 1000000000;
      clean_stop = clean;
      after_init = after_genesis last;
      last_seq = last.seq;
      last_event = last.event;
      last_ts = last.timestamp;
    })

abbrev pub is_critical : Level → Bool
is_critical critical = true
is_critical _ = false

abbrev level_of : Option DowntimeEvent → Level
level_of none = info
level_of (some e) = e.level

downtime_level-critical :
    (clean : Bool) (gap alert_after : ℕ)
    → (is_critical (downtime_level clean gap alert_after) ≡ true) ↔ (clean ≡ false)
unfolding downtime_level
downtime_level-critical false gap alert_after = ((λ h. refl), (λ h. refl))
downtime_level-critical true gap alert_after = ((λ h. ground arith), (λ h. cc))

-- A start after an entry is recorded as critical exactly when that entry records no stop, however
-- short the gap was.
pub downtime-critical :
    (last : Entry) (now alert_after : ℕ) (event : DowntimeEvent)
    → downtime (some last) now alert_after ≡ some event
    → (is_critical event.level ≡ true) ↔ (stopped_cleanly last ≡ false)
unfolding downtime
downtime-critical last now alert_after event h =
    let level : event.level
        ≡ downtime_level (stopped_cleanly last) (now - last.timestamp) alert_after =
      sym (ap level_of h) in
    rw level (downtime_level-critical (stopped_cleanly last) (now - last.timestamp) alert_after)

pub record MirrorHealth : Type 0 where
  pub failures : ℕ
  pub escalate_after : ℕ

unfoldable pub new_mirror_health : ℕ → MirrorHealth
new_mirror_health n = record { failures = 0; escalate_after = if ltb n 1 then 1 else n }

pub data MirrorEvent : Type 0 where
  push_failed : MirrorEvent
  unreachable recovered : ℕ → MirrorEvent

-- `Result`; the push has failed or not.
unfoldable pub push_result : MirrorHealth → Bool → MirrorHealth × Option MirrorEvent
push_result m false =
    if m.failures == 0 then (m, none) else (record m { failures = 0 }, some (recovered m.failures))
push_result m true =
    let n = m.failures + 1 in
    let m' = record m { failures = n } in
    if n == 1
    then (m', some push_failed)
    else if n == m.escalate_after
    then (m', some (unreachable n))
    else (m', none)

abbrev pub is_unreachable : Option MirrorEvent → ℕ
is_unreachable (some (unreachable n)) = 1
is_unreachable _ = 0

-- The records of an unreachable mirror in a run of results.
unfoldable pub unreachables : MirrorHealth → List Bool → ℕ
unreachables m [] = 0
unreachables m (failed ∷ rest) =
    let (m', event) = push_result m failed in is_unreachable event + unreachables m' rest

unreachables-from :
    (n : ℕ) (m : MirrorHealth)
    → unreachables m (replicate n true) ≡ (
        if leb 2 m.escalate_after
          && ltb m.failures m.escalate_after
          && leb m.escalate_after (m.failures + n)
        then 1
        else 0)
unfolding unreachables push_result
unreachables-from zero m = ground arith
unreachables-from (suc n) m =
    ground (arith, unreachables-from n (record m { failures = m.failures + 1 }))

-- A run of `n` failures from a healthy mirror records it as unreachable once if `n` reaches the
-- threshold, and never if the threshold is one: the record of the first failure takes its place.
pub unreachables-once :
    (n threshold : ℕ)
    → unreachables (new_mirror_health threshold) (replicate n true)
      ≡ (if leb 2 threshold && leb threshold n then 1 else 0)
unfolding new_mirror_health
unreachables-once n threshold = ground (arith, unreachables-from n (new_mirror_health threshold))

pub data MirrorProblem : Type 0 where
  not_configured misconfigured : MirrorProblem

-- `MirrorConfig`; the mirror did not open, or did.
unfoldable pub mirror_config : Bytes → Bool → Bool → Option (Level × MirrorProblem)
mirror_config url open_failed dev_mode =
    let level = if dev_mode then warn else critical in
    if is_empty url
    then some (level, not_configured)
    else if open_failed
    then some (level, misconfigured)
    else none

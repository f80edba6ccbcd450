-- ===== src/Watchdog/Anomaly.antt =====
-- `runStorage` and `runNetwork` of internal/anomaly/detector.go: three failed checks in a row are an
-- anomaly. The two loops are the same but for the check.
use kiss_protocol.Base.{
  ℕ, zero, suc, ◌+◌, ◌/◌, ◌<◌, ◌≤◌, ◌≡◌, Bool, true, false, List, [], ◌∷◌, leb, if◌then◌else◌,
  arith, replicate, Bool-cases, inl, inr,
}

-- One tick: whether the check passed, and whether the channel takes an event.
unfoldable pub tick : ℕ → Bool → Bool → ℕ × Bool
tick failures passed room =
    if passed then (0, false) else if leb 3 (failures + 1) then (0, room) else (failures + 1, false)

abbrev sent : Bool → ℕ
sent true = 1
sent false = 0

-- The events of a run of ticks with room in the channel.
unfoldable pub events : ℕ → List Bool → ℕ
events failures [] = 0
events failures (passed ∷ rest) =
    let (failures', event) = tick failures passed true in sent event + events failures' rest

events-from :
    (n failures : ℕ) → failures < 3 → events failures (replicate n false) ≡ (failures + n) / 3
unfolding events tick
events-from zero failures h = ground arith
events-from (suc n) failures h = elim (Bool-cases (leb 3 (failures + 1))) [
  | inl full ↦ rw full (omega (arith, events-from n 0 (omega arith), leb_iff 3 (failures + 1) full))
  | inr more ↦ ground (arith, events-from n (failures + 1))
]
  where
    leb_iff : (a b : ℕ) → leb a b ≡ true → a ≤ b
    leb_iff a b e = ground arith

-- Failed checks in a row send one event for every three of them.
pub events-every_third : (n : ℕ) → events 0 (replicate n false) ≡ n / 3
events-every_third n = ground (arith, events-from n 0)

-- ===== src/Enforcer/Samples.antt =====
-- A log of three entries and a channel with room for one.
use kiss_protocol.Base.{ℕ, List, ◌≡◌, ◌+◌, refl, some, [], ◌∷◌, length, take, drop, codes}
use kiss_protocol.Store.Types.{Entry}
use kiss_protocol.Store.SampleHost.{host}
use kiss_protocol.Enforcer.Reader.{
  event_at, deliver, poll, polls, events_from, reads_of, polls-in_order, reached,
}

abbrev entry : ℕ → Entry
entry n = record {
  seq = n;
  timestamp = 1000 + n;
  level = codes "INFO";
  event = codes "tick";
  source = codes "sys";
  body = [];
}

abbrev log : List Entry
log = entry 1 ∷ entry 2 ∷ entry 3 ∷ []

abbrev two_polls : List (ℕ × ℕ)
two_polls = (2, 1) ∷ (3, 8) ∷ []

-- The first poll finds two entries and sends one; the second finds all and sends the rest.
polls-in_order_example :
    ((polls host (reads_of host log two_polls) 0).1
      ≡ take
          (length (polls host (reads_of host log two_polls) 0).1)
          (drop 0 (events_from host 0 log)))
    × ((polls host (reads_of host log two_polls) 0).0
        ≡ 0 + length (polls host (reads_of host log two_polls) 0).1)
    × ((polls host (reads_of host log two_polls) 0).0 ≡ reached host log two_polls 0)
polls-in_order_example = polls-in_order host log two_polls 0 (refl, (refl, (refl, tt)))

full_channel : poll host (some log) 1 0 ≡ (1, event_at host 0 (entry 1) ∷ [])
unfolding poll deliver
full_channel = refl

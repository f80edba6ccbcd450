-- ===== src/Enforcer/Reader.antt =====
-- `TailReader` of internal/enforcer/reader.go. The entries that ReadAll returns and the room in the
-- channel are arguments of a poll.
use kiss_protocol.Base.{
  length-take, length-drop, ℕ, zero, suc, ◌+◌, ◌-◌, ◌≤◌, ◌≡◌, refl, sym, ap, ◌∙◌, inl, inr, Option,
  none, some, List, [], ◌∷◌, ◌++◌, Bytes, length, length-append, take, drop, take-nil, drop-nil,
  drop-drop, take-cut, leb, arith, Bool-cases, if◌then◌else◌,
}
use kiss_protocol.Store.Types.{Host, Entry}
use kiss_protocol.Store.Head.{leaf_hash}

pub record Event : Type 0 where
  pub entry : Entry
  pub leaf_index : ℕ
  pub leaf : Bytes

-- What is in a window of the first entries is at the start of the rest.
take-window :
    {A : Type 0} (room n : ℕ) (xs : List A)
    → take room (take n xs) ≡ take (length (take room (take n xs))) xs
take-window zero n xs = refl
take-window (suc room) zero xs = refl
take-window (suc room) (suc n) [] = refl
take-window (suc room) (suc n) (x ∷ xs) = ap (◌∷◌ x) (take-window room n xs)

drop-window :
    {A : Type 0} (last room n : ℕ) (xs : List A)
    → take room (drop last (take n xs))
      ≡ take (length (take room (drop last (take n xs)))) (drop last xs)
drop-window zero room n xs = take-window room n xs
drop-window (suc last) room zero xs = rw (take-nil {A = _} room) refl
drop-window (suc last) room (suc n) [] = rw (take-nil {A = _} room) refl
drop-window (suc last) room (suc n) (x ∷ xs) = drop-window last room n xs

-- Two windows behind one another.
join-windows :
    {A : Type 0} (last : ℕ) (first later xs : List A)
    → first ≡ take (length first) (drop last xs)
    → later ≡ take (length later) (drop (last + length first) xs)
    → first ++ later ≡ take (length (first ++ later)) (drop last xs)
join-windows last first later xs h k =
    let total : length (first ++ later) ≡ length first + length later = length-append first later in
    let rest : length first + length later - length first ≡ length later = omega arith in
    let behind = k ∙ ap (take (length later)) (drop-drop last (length first) xs) in
    ap (λ p. p ++ later) h
    ∙ ap (◌++◌ (take (length first) (drop last xs))) behind
    ∙ ap (λ n. take (length first) (drop last xs) ++ take n (drop (length first) (drop last xs)))
        (sym rest)
    ∙ sym (take-cut (length first) (length first + length later) (drop last xs) (omega arith))
    ∙ ap (λ n. take n (drop last xs)) (sym total)

module _ (host : Host) where
  abbrev pub event_at : ℕ → Entry → Event
  event_at i e = record { entry = e; leaf_index = i; leaf = leaf_hash host e }

  -- The loop of `poll` from an index on, with the number of events that the channel takes; the last
  -- sequence number, and the events that were sent.
  unfoldable pub deliver : ℕ → ℕ → ℕ → List Entry → ℕ × List Event
  deliver i room last [] = (last, [])
  deliver i zero last (e ∷ es) =
      let skipped = deliver (i + 1) zero last es in
      if leb e.seq last then skipped else (e.seq - 1, [])
  deliver i (suc room) last (e ∷ es) =
      let skipped = deliver (i + 1) (suc room) last es in
      let (last', sent) = deliver (i + 1) room e.seq es in
      if leb e.seq last then skipped else (last', event_at i e ∷ sent)

  -- `poll`: `none` is a log that does not read.
  unfoldable pub poll : Option (List Entry) → ℕ → ℕ → ℕ × List Event
  poll none room last = (last, [])
  poll (some entries) room last = deliver 0 room last entries

  -- The polls of `Run`: at each, the entries that were read and the room in the channel.
  unfoldable pub polls : List (Option (List Entry) × ℕ) → ℕ → ℕ × List Event
  polls [] last = (last, [])
  polls ((entries, room) ∷ rest) last =
      let (last', sent) = poll entries room last in
      let (final, later) = polls rest last' in (final, sent ++ later)

  -- The entries are numbered without a gap.
  abbrev pub IsNumbered : ℕ → List Entry → Type 0
  IsNumbered k [] = Unit
  IsNumbered k (e ∷ es) = (e.seq ≡ k + 1) × IsNumbered (k + 1) es

  abbrev pub events_from : ℕ → List Entry → List Event
  events_from i [] = []
  events_from i (e ∷ es) = event_at i e ∷ events_from (i + 1) es

  deliver_lem :
      (k room last : ℕ) (es : List Entry)
      → IsNumbered k es
      → k ≤ last
      → ((deliver k room last es).1 ≡ take room (drop (last - k) (events_from k es)))
        × ((deliver k room last es).0 ≡ last + length (deliver k room last es).1)
  unfolding deliver
  deliver_lem k room last [] numbered le =
      (sym (ap (take room) (drop-nil (last - k)) ∙ take-nil room), omega arith)
  deliver_lem k zero last (e ∷ es) (at, numbered) le = elim (Bool-cases (leb e.seq last)) [
    | inl old ↦
        let next : k + 1 ≤ last = ground (arith, old, at) in
        rw (old, deliver) (deliver_lem (k + 1) zero last es numbered next)
    | inr fresh ↦ rw (fresh, deliver) (refl, ground (arith, fresh, at, le))
  ]
  deliver_lem k (suc room) last (e ∷ es) (at, numbered) le = elim (Bool-cases (leb e.seq last)) [
    | inl old ↦
        let next : k + 1 ≤ last = ground (arith, old, at) in
        let ahead : last - k ≡ suc (last - (k + 1)) = omega (arith, next) in
        rw (old, ahead, deliver) (deliver_lem (k + 1) (suc room) last es numbered next)
    | inr fresh ↦
        let here : last - k ≡ 0 = ground (arith, fresh, at, le) in
        let then_next : e.seq - (k + 1) ≡ 0 = omega (arith, at) in
        let (sent, counted) = deliver_lem (k + 1) room e.seq es numbered (omega (arith, at)) in
        rw (fresh, here, deliver)
          (
            ap (◌∷◌ (event_at k e))
                (sent ∙ ap (λ n. take room (drop n (events_from (k + 1) es))) then_next),
            ground (arith, counted, fresh, at, le),
          )
  ]

  IsNumbered-take : (n k : ℕ) (es : List Entry) → IsNumbered k es → IsNumbered k (take n es)
  IsNumbered-take zero k es h = tt
  IsNumbered-take (suc n) k [] h = tt
  IsNumbered-take (suc n) k (e ∷ es) (at, h) = (at, IsNumbered-take n (k + 1) es h)

  events_from-take :
      (n k : ℕ) (es : List Entry) → events_from k (take n es) ≡ take n (events_from k es)
  events_from-take zero k es = refl
  events_from-take (suc n) k [] = refl
  events_from-take (suc n) k (e ∷ es) = ap (◌∷◌ (event_at k e)) (events_from-take n (k + 1) es)

  -- What a poll of a prefix of the log has sent, and the number that it keeps.
  poll_lem :
      (log : List Entry) (n room last : ℕ)
      → IsNumbered 0 log
      → ((poll (some (take n log)) room last).1
          ≡ take room (drop last (take n (events_from 0 log))))
        × ((poll (some (take n log)) room last).0
            ≡ last + length (poll (some (take n log)) room last).1)
  unfolding poll
  poll_lem log n room last numbered =
      let (sent, counted) =
        deliver_lem 0 room last (take n log) (IsNumbered-take n 0 log numbered) (omega arith) in
      let start : last - 0 ≡ last = omega arith in
      (
        sent
            ∙ ap (λ m. take room (drop m (events_from 0 (take n log)))) start
            ∙ ap (λ es. take room (drop last es)) (events_from-take n 0 log),
        counted,
      )

  -- The polls of one growing log: how many of its entries each finds, and the room in the channel.
  abbrev pub reads_of : List Entry → List (ℕ × ℕ) → List (Option (List Entry) × ℕ)
  reads_of log [] = []
  reads_of log ((n, room) ∷ rest) = (some (take n log), room) ∷ reads_of log rest

  -- Where the polls stand at the end: each adds what it finds behind the last number, up to the room.
  abbrev pub reached : List Entry → List (ℕ × ℕ) → ℕ → ℕ
  reached log [] last = last
  reached log ((n, room) ∷ rest) last =
      reached log rest (last + length (take room (drop last (take n log))))

  length-events_from : (k : ℕ) (es : List Entry) → length (events_from k es) ≡ length es
  length-events_from k [] = refl
  length-events_from k (e ∷ es) = ap suc (length-events_from (k + 1) es)

  length-window :
      (log : List Entry) (last room n : ℕ)
      → length (take room (drop last (take n (events_from 0 log))))
        ≡ length (take room (drop last (take n log)))
  length-window log last room n =
      let events = events_from 0 log in
      omega (
        arith,
        length-take room (drop last (take n events)),
        length-drop last (take n events),
        length-take n events,
        length-take room (drop last (take n log)),
        length-drop last (take n log),
        length-take n log,
        length-events_from 0 log,
      )

  -- From the last number on, polls of one log without gaps in its numbers send the entries behind that
  -- number once each, in their order and with their positions: each poll sends all that it finds behind
  -- the number that was reached before it, as far as the channel has room, and a full channel only
  -- delays an entry.
  pub polls-in_order :
      (log : List Entry) (reads : List (ℕ × ℕ)) (last : ℕ)
      → IsNumbered 0 log
      → ((polls (reads_of log reads) last).1
          ≡ take (length (polls (reads_of log reads) last).1) (drop last (events_from 0 log)))
        × ((polls (reads_of log reads) last).0 ≡ last + length (polls (reads_of log reads) last).1)
        × ((polls (reads_of log reads) last).0 ≡ reached log reads last)
  unfolding polls
  polls-in_order log [] last numbered = (refl, omega arith, refl)
  polls-in_order log ((n, room) ∷ rest) last numbered =
      let (sent, counted) = poll_lem log n room last numbered in
      let last' = (poll (some (take n log)) room last).0 in
      let first = (poll (some (take n log)) room last).1 in
      let (later, total, arrived) = polls-in_order log rest last' numbered in
      let events = events_from 0 log in
      let from_last = sent ∙ drop-window last room n events in
      let same = ap length sent in
      let whole : first ≡ take (length first) (drop last events) =
        from_last ∙ ap (λ m. take m (drop last events)) (sym same) in
      let after = polls (reads_of log rest) last' in
      let behind = later ∙ ap (λ m. take (length after.1) (drop m events)) counted in
      let here : last' ≡ last + length (take room (drop last (take n log))) =
        counted ∙ ap (◌+◌ last) (same ∙ length-window log last room n) in
      (
        join-windows last first after.1 events whole behind,
        omega (arith, total, counted, length-append first after.1),
        arrived ∙ ap (reached log rest) here,
      )

-- ===== src/Pipelock/Tracking.antt =====
-- The pending lines of the tailer against the lines of the file.
use kiss_protocol.Base.{
  ℕ, ◌+◌, ◌≤◌, ◌<◌, ◌≡◌, refl, ap, inl, inr, not, ◌&&◌, Bool, true, false, Option, List, [], ◌∷◌,
  ◌++◌, Bytes, length, arith, Option-cases, Bool-cases, if◌then◌else◌,
}
use kiss_protocol.Pipelock.Tailer.{PendingLine, advance_from, ack_first, event_of, has_event}
use kiss_protocol.Pipelock.Spans.{Between, events_of}

-- The head waits for its Ack, or nothing is pending.
abbrev pub IsSettled : List PendingLine → Type 0
IsSettled [] = Unit
IsSettled (p ∷ ps) = p.acked ≡ false

module _ {ℓ} {A : Type ℓ} (parse : Bytes → Option A) where
  abbrev pub emits : Bytes → Bool
  emits l = has_event (event_of parse l)

  -- The pending lines are those lines of the file, and one that waits for its Ack has an event.
  abbrev pub Matches : ℕ → List Bytes → List PendingLine → Type 0
  Matches a [] [] = Unit
  Matches a [] (p ∷ ps) = ⊥
  Matches a (l ∷ ls) [] = ⊥
  Matches a (l ∷ ls) (p ∷ ps) =
      (p.end ≡ a + length l) × (p.acked ≡ false → emits l ≡ true) × Matches (a + length l) ls ps

  -- How many of the lines have an event that has been acknowledged.
  abbrev pub acked_events : List Bytes → List PendingLine → ℕ
  acked_events [] ps = 0
  acked_events (l ∷ ls) [] = 0
  acked_events (l ∷ ls) (p ∷ ps) =
      let rest = acked_events ls ps in if emits l && p.acked then rest + 1 else rest

  pub count_events :
      (l : Bytes) (ls : List Bytes)
      → length (events_of parse (l ∷ ls))
        ≡ (if emits l then length (events_of parse ls) + 1 else length (events_of parse ls))
  count_events l ls = elim (Option-cases (event_of parse l)) [
    | inl missing ↦ rw missing refl
    | inr (event, e) ↦ rw e (omega arith)
  ]

  pub acked_events-le :
      (ls : List Bytes) (ps : List PendingLine) → acked_events ls ps ≤ length (events_of parse ls)
  acked_events-le [] ps = omega arith
  acked_events-le (l ∷ ls) [] = omega arith
  acked_events-le (l ∷ ls) (p ∷ ps) = ground (arith, acked_events-le ls ps, count_events l ls)

  -- A line behind the pending ones.
  pub Matches-last :
      (a b : ℕ) (file : Bytes) (ls : List Bytes) (ps : List PendingLine) (l : Bytes)
      → Between file a ls b
      → Matches a ls ps
      → Matches a (ls ++ l ∷ []) (ps ++ record { end = b + length l; acked = not (emits l) } ∷ [])
  Matches-last a b file [] [] l h m = (omega (arith, h), λ e. ground (arith, e), tt)
  Matches-last a b file [] (p ∷ ps) l h m = absurd m
  Matches-last a b file (x ∷ ls) [] l h m = absurd m
  Matches-last a b file (x ∷ ls) (p ∷ ps) l (rest, e, h) (at_end, waits, m) =
      (at_end, waits, Matches-last (a + length x) b file ls ps l h m)

  pub acked_events-last :
      (a : ℕ) (ls : List Bytes) (ps : List PendingLine) (l : Bytes) (end : ℕ)
      → Matches a ls ps
      → acked_events (ls ++ l ∷ []) (ps ++ record { end = end; acked = not (emits l) } ∷ [])
        ≡ acked_events ls ps
  acked_events-last a [] [] l end m = ground arith
  acked_events-last a [] (p ∷ ps) l end m = absurd m
  acked_events-last a (x ∷ ls) [] l end m = absurd m
  acked_events-last a (x ∷ ls) (p ∷ ps) l end (at_end, waits, m) =
      rw (acked_events-last (a + length x) ls ps l end m) refl

  -- What `advanceLocked` has moved past, and what is left.
  pub record Advanced (file : Bytes) (a b : ℕ) (ls : List Bytes) (ps : List PendingLine)
      : Type 0 where
    pub moved : List Bytes
    pub kept : List Bytes
    pub split : ls ≡ moved ++ kept
    pub before : Between file a moved (advance_from a ps).0
    pub after : Between file (advance_from a ps).0 kept b
    pub matches : Matches (advance_from a ps).0 kept (advance_from a ps).1
    pub settled : IsSettled (advance_from a ps).1
    pub counted :
        acked_events ls ps
        ≡ length (events_of parse moved) + acked_events kept (advance_from a ps).1

  pub advance_from-Advanced :
      (file : Bytes) (a b : ℕ) (ls : List Bytes) (ps : List PendingLine)
      → Between file a ls b
      → Matches a ls ps
      → Advanced file a b ls ps
  unfolding advance_from
  advance_from-Advanced file a b [] [] h m = record {
    moved = [];
    kept = [];
    split = refl;
    before = refl;
    after = h;
    matches = tt;
    settled = tt;
    counted = omega arith;
  }
  advance_from-Advanced file a b [] (p ∷ ps) h m = absurd m
  advance_from-Advanced file a b (l ∷ ls) [] h m = absurd m
  advance_from-Advanced file a b (l ∷ ls) (p ∷ ps) (rest, e, h) (at_end, waits, m) =
      elim (Bool-cases p.acked) [
        | inl acked ↦
            let next = advance_from-Advanced file (a + length l) b ls ps h m in
            let same : advance_from a (p ∷ ps) ≡ advance_from (a + length l) ps =
              rw (acked, at_end, advance_from) refl in
            record {
              moved = l ∷ next.moved;
              kept = next.kept;
              split = ap (◌∷◌ l) next.split;
              before = (rest, e, rw same next.before);
              after = rw same next.after;
              matches = rw same next.matches;
              settled = rw same next.settled;
              counted = rw same (ground (arith, acked, next.counted, count_events l next.moved));
            }
        | inr waiting ↦
            let same : advance_from a (p ∷ ps) ≡ (a, p ∷ ps) = rw (waiting, advance_from) refl in
            record {
              moved = [];
              kept = l ∷ ls;
              split = refl;
              before = rw same refl;
              after = rw same (rest, e, h);
              matches = rw same (at_end, waits, m);
              settled = rw same waiting;
              counted = rw same (omega arith);
            }
      ]

  -- `Ack` marks a line that has an event, as long as one waits.
  pub ack_first-Matches :
      (a : ℕ) (ls : List Bytes) (ps : List PendingLine)
      → Matches a ls ps
      → acked_events ls ps < length (events_of parse ls)
      → Matches a ls (ack_first ps) × (acked_events ls (ack_first ps) ≡ acked_events ls ps + 1)
  unfolding ack_first
  ack_first-Matches a [] ps m h = absurd (omega (arith, h))
  ack_first-Matches a (l ∷ ls) [] m h = absurd m
  ack_first-Matches a (l ∷ ls) (p ∷ ps) (at_end, waits, m) h = elim (Bool-cases p.acked) [
    | inl acked ↦
        let fewer : acked_events ls ps < length (events_of parse ls) =
          ground (arith, h, acked, count_events l ls) in
        let (kept, counted) = ack_first-Matches (a + length l) ls ps m fewer in
        rw (acked, ack_first) ((at_end, (λ e. absurd (cc)), kept), ground (arith, counted, acked))
    | inr waiting ↦
        let emitted = waits waiting in
        rw (waiting, ack_first) ((at_end, (λ e. absurd (cc)), m), ground (arith, waiting, emitted))
  ]

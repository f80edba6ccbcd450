-- ===== src/Pipelock/Positions.antt =====
-- The saved position of the tailer and its pending lines, against the lines of the file.
use mathlib.Core.List.{append_assoc}
use kiss_protocol.Base.{
  ℕ, ◌+◌, ◌<◌, ◌≡◌, refl, sym, ap, ◌∙◌, not, false, Option, some, List, [], ◌∷◌, ◌++◌, Bytes,
  length, length-append, take, drop, arith,
}
use kiss_protocol.Store.Head.{is_empty}
use kiss_protocol.Pipelock.Lines.{split_line}
use kiss_protocol.Pipelock.Tailer.{PendingLine, advance_from, ack_first, event_of}
use kiss_protocol.Pipelock.Spans.{
  Between, Between-append, Between-grown, events_of, events_of-append, emit,
}
use kiss_protocol.Pipelock.Tracking.{
  IsSettled, Matches, acked_events, Matches-last, acked_events-last, advance_from-Advanced,
  ack_first-Matches, emits,
}
use kiss_protocol.Pipelock.Delivery.{Tailing}

module _ {ℓ} {A : Type ℓ} (parse : Bytes → Option A) where
  -- The lines from `from` on: those up to the position that is saved, and those that wait.
  pub record Tracks (from : ℕ) (file : Bytes) (at committed : ℕ) (pending : List PendingLine)
      (delivered : List A) (taken : ℕ) : Type ℓ where
    pub done : List Bytes
    pub waiting : List Bytes
    pub before : Between file from done committed
    pub after : Between file committed waiting at
    pub matches : Matches parse committed waiting pending
    pub counted : taken ≡ length (events_of parse done) + acked_events parse waiting pending
    pub delivers : delivered ≡ events_of parse done ++ events_of parse waiting

  -- The tailer resumes, its pending lines are those of the file, and the first one waits.
  pub record IsTracked (from : ℕ) (t : Tailing A) : Type ℓ where
    pub resumes : is_empty t.tailer.state_path ≡ false
    pub tracks : Tracks from t.file t.at t.tailer.committed t.tailer.pending t.delivered t.taken
    pub settled : IsSettled t.tailer.pending
    pub keeps : t.stored ≡ take t.taken t.delivered

  pub Tracks-advance :
      (from : ℕ) (file : Bytes) (at c : ℕ) (ps : List PendingLine) (dl : List A) (st : ℕ)
      → Tracks from file at c ps dl st
      → Tracks from file at (advance_from c ps).0 (advance_from c ps).1 dl st
        × IsSettled (advance_from c ps).1
  Tracks-advance from file at c ps dl st t =
      let next = advance_from-Advanced parse file c at t.waiting ps t.after t.matches in
      let longer = events_of-append parse t.done next.moved in
      (
        record {
          done = t.done ++ next.moved;
          waiting = next.kept;
          before =
              Between-append file from c (advance_from c ps).0 t.done next.moved t.before
                next.before;
          after = next.after;
          matches = next.matches;
          counted = rw longer (
              omega (
                arith,
                t.counted,
                next.counted,
                length-append (events_of parse t.done) (events_of parse next.moved),
              ));
          delivers =
              t.delivers
              ∙ ap (λ ls. events_of parse t.done ++ events_of parse ls) next.split
              ∙ ap (◌++◌ (events_of parse t.done)) (events_of-append parse next.moved next.kept)
              ∙ sym (
                  append_assoc (events_of parse t.done) (events_of parse next.moved)
                    (events_of parse next.kept))
              ∙ ap (λ es. es ++ events_of parse next.kept) (sym longer);
        },
        next.settled,
      )

  pub Tracks-line :
      (from : ℕ) (file : Bytes) (at c : ℕ) (ps : List PendingLine) (dl : List A) (st : ℕ)
      (l rest : Bytes)
      → split_line (drop at file) ≡ some (l, rest)
      → Tracks from file at c ps dl st
      → Tracks from file
          (at + length l)
          c
          (ps ++ record { end = at + length l; acked = not (emits parse l) } ∷ [])
          (dl ++ emit parse (event_of parse l) [])
          st
  Tracks-line from file at c ps dl st l rest e t = record {
    done = t.done;
    waiting = t.waiting ++ l ∷ [];
    before = t.before;
    after = Between-append file c at (at + length l) t.waiting (l ∷ []) t.after (rest, e, refl);
    matches = Matches-last parse c at file t.waiting ps l t.after t.matches;
    counted =
        t.counted
        ∙ ap (◌+◌ (length (events_of parse t.done)))
            (sym (acked_events-last parse c t.waiting ps l (at + length l) t.matches));
    delivers =
        ap (λ es. es ++ emit parse (event_of parse l) []) t.delivers
        ∙ append_assoc (events_of parse t.done) (events_of parse t.waiting)
            (emit parse (event_of parse l) [])
        ∙ ap (◌++◌ (events_of parse t.done)) (sym (events_of-append parse t.waiting (l ∷ [])));
  }

  pub Tracks-ack :
      (from : ℕ) (file : Bytes) (at c : ℕ) (ps : List PendingLine) (dl : List A) (st : ℕ)
      → st < length dl
      → Tracks from file at c ps dl st
      → Tracks from file at c (ack_first ps) dl (st + 1)
  Tracks-ack from file at c ps dl st h t =
      let count = ap length t.delivers in
      let sum = length-append (events_of parse t.done) (events_of parse t.waiting) in
      let (matches, more) =
        ack_first-Matches parse c t.waiting ps t.matches
          (omega (arith, h, t.counted, count, sum)) in
      record {
        done = t.done;
        waiting = t.waiting;
        before = t.before;
        after = t.after;
        matches = matches;
        counted = omega (arith, t.counted, more);
        delivers = t.delivers;
      }

  pub Tracks-grown :
      (from : ℕ) (file more : Bytes) (at c : ℕ) (ps : List PendingLine) (dl : List A) (st : ℕ)
      → Tracks from file at c ps dl st
      → Tracks from (file ++ more) at c ps dl st
  Tracks-grown from file more at c ps dl st t = record {
    done = t.done;
    waiting = t.waiting;
    before = Between-grown file from c t.done more t.before;
    after = Between-grown file c at t.waiting more t.after;
    matches = t.matches;
    counted = t.counted;
    delivers = t.delivers;
  }

-- ===== src/Pipelock/Resuming.antt =====
-- What the saved position of the tailer promises, where every Append of the consumer succeeds.
use mathlib.Core.List.{append_assoc}
use kiss_protocol.Base.{
  take-past, All, take, take-append-drop, ℕ, ◌+◌, ◌≤◌, ◌≡◌, sym, ap, ◌∙◌, false, Option, List, [],
  ◌∷◌, ◌++◌, Bytes, length, length-append, drop, arith,
}
use kiss_protocol.Store.Head.{is_empty}
use kiss_protocol.Pipelock.Lines.{lines}
use kiss_protocol.Pipelock.Tailer.{PendingLine, StateCodec}
use kiss_protocol.Pipelock.Spans.{Between, Between-lines, events_of, events_of-append}
use kiss_protocol.Pipelock.Tracking.{
  IsSettled, Matches, acked_events, acked_events-le, count_events,
}
use kiss_protocol.Pipelock.Delivery.{Tailing, TailStep, run}
use kiss_protocol.Pipelock.Positions.{IsTracked}
use kiss_protocol.Pipelock.Stepping.{Succeeds, run-IsTracked}

module _ {ℓ} {A : Type ℓ} (codec : StateCodec) (parse : Bytes → Option A) where
  -- A tailer that has just been opened at a position.
  abbrev pub IsOpenedAt : ℕ → Tailing A → Type ℓ
  IsOpenedAt from t =
      (is_empty t.tailer.state_path ≡ false)
      × (t.at ≡ from)
      × (t.tailer.committed ≡ from)
      × (t.tailer.pending ≡ [])
      × (t.delivered ≡ [])
      × (t.taken ≡ 0)
      × (t.stored ≡ [])

  opened-IsTracked : (from : ℕ) (t : Tailing A) → IsOpenedAt from t → IsTracked parse from t
  opened-IsTracked from t (resumes, at, committed, pending, delivered, taken, stored) = record {
    resumes = resumes;
    tracks = record {
      done = [];
      waiting = [];
      before = sym committed;
      after = committed ∙ sym at;
      matches = rw pending tt;
      counted = taken;
      delivers = delivered;
    };
    settled = rw pending tt;
    keeps = stored ∙ ap (λ n. take n t.delivered) (sym taken);
  }

  -- What the saved position promises, in four parts of the events of the file: those before it, those
  -- stored behind it, those delivered but not stored, and those that have not been delivered.
  pub record Resumption (from : ℕ) (t : Tailing A) : Type ℓ where
    pub passed : List A
    pub again : List A
    pub waiting : List A
    pub unread : List A
    pub stores_first : t.stored ≡ passed ++ again
    pub delivers_first : t.delivered ≡ t.stored ++ waiting
    pub resumes_with :
        events_of parse (lines (drop t.tailer.committed t.file)) ≡ again ++ waiting ++ unread
    pub file_has :
        events_of parse (lines (drop from t.file))
        ≡ passed ++ events_of parse (lines (drop t.tailer.committed t.file))

  tracked-Resumption : (from : ℕ) (t : Tailing A) → IsTracked parse from t → Resumption from t
  tracked-Resumption from t tracked =
      let tracks = tracked.tracks in
      let done = events_of parse tracks.done in
      let behind = events_of parse tracks.waiting in
      let acked = acked_events parse tracks.waiting t.tailer.pending in
      let stored : t.stored ≡ done ++ take acked behind =
        tracked.keeps
        ∙ ap (λ n. take n t.delivered) tracks.counted
        ∙ ap (take (length done + acked)) tracks.delivers
        ∙ take-past done acked behind in
      record {
        passed = done;
        again = take acked behind;
        waiting = drop acked behind;
        unread = events_of parse (lines (drop t.at t.file));
        stores_first = stored;
        delivers_first =
            tracks.delivers
            ∙ ap (◌++◌ done) (sym (take-append-drop acked behind))
            ∙ sym (append_assoc done (take acked behind) (drop acked behind))
            ∙ ap (λ es. es ++ drop acked behind) (sym stored);
        resumes_with =
            ap (events_of parse)
              (Between-lines t.file t.tailer.committed t.at tracks.waiting tracks.after)
            ∙ events_of-append parse tracks.waiting (lines (drop t.at t.file))
            ∙ ap (λ es. es ++ events_of parse (lines (drop t.at t.file)))
                (sym (take-append-drop acked behind));
        file_has =
            ap (events_of parse)
              (Between-lines t.file from t.tailer.committed tracks.done tracks.before)
            ∙ events_of-append parse tracks.done (lines (drop t.tailer.committed t.file));
      }

  -- From the opening of a file with a state file, through every run before Stop of lines read, events
  -- taken, flushes and growth of the file in which every Append of the consumer succeeds: the events
  -- before the saved position have all been stored, and the events behind it, which a run that resumes
  -- there delivers, begin with stored ones that it passes again and then have every event that was
  -- delivered but not stored, and after those every one that was not delivered.
  pub run-resumes :
      (from : ℕ) (steps : List TailStep) (t : Tailing A)
      → All Succeeds steps
      → IsOpenedAt from t
      → Resumption from (run codec parse steps t)
  run-resumes from steps t good opened =
      tracked-Resumption from (run codec parse steps t)
        (run-IsTracked codec parse from steps t good (opened-IsTracked from t opened))

  all_acked :
      (c b : ℕ) (file : Bytes) (ls : List Bytes) (ps : List PendingLine)
      → Between file c ls b
      → Matches parse c ls ps
      → IsSettled ps
      → length (events_of parse ls) ≤ acked_events parse ls ps
      → c ≡ b
  all_acked c b file [] ps h m settled full = h
  all_acked c b file (l ∷ ls) [] h m settled full = absurd m
  all_acked c b file (l ∷ ls) (p ∷ ps) h (at_end, waits, m) settled full = absurd (
      ground
        (arith, waits settled, settled, full, count_events parse l ls, acked_events-le parse ls ps))

  -- Where every Append succeeds: when the consumer has taken every event that was delivered, the saved position is behind the
  -- last line that was read: nothing is delivered twice.
  pub run-caught_up :
      (from : ℕ) (steps : List TailStep) (t : Tailing A)
      → All Succeeds steps
      → IsOpenedAt from t
      → let t' = run codec parse steps t in
        t'.taken ≡ length t'.delivered → t'.tailer.committed ≡ t'.at
  run-caught_up from steps t good opened all =
      let t' = run codec parse steps t in
      let tracked = run-IsTracked codec parse from steps t good (opened-IsTracked from t opened) in
      let tracks = tracked.tracks in
      let count = ap length tracks.delivers in
      let sum = length-append (events_of parse tracks.done) (events_of parse tracks.waiting) in
      all_acked t'.tailer.committed t'.at t'.file tracks.waiting t'.tailer.pending tracks.after
        tracks.matches tracked.settled (omega (arith, all, tracks.counted, count, sum))

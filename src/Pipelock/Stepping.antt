-- ===== src/Pipelock/Stepping.antt =====
-- Every step of the tailer and of a consumer whose Append succeeds keeps the pending lines in place.
use kiss_protocol.Base.{
  get_elem?-below, take-next, take-within, All, get_elem?, ℕ, ◌+◌, ◌≤◌, ◌≡◌, refl, sym, ap, ◌∙◌,
  inl, inr, not, Bool, false, Option, List, [], ◌∷◌, ◌++◌, Bytes, length, length-append, drop,
  arith, Option-cases,
}
use kiss_protocol.Store.Head.{is_empty}
use kiss_protocol.Pipelock.Lines.{split_line}
use kiss_protocol.Pipelock.Tailer.{
  Tailer, StateCodec, FlushWorld, advance_from, advance, ack_first, event_of, record_line, consume,
  flush_locked, flush, acked_next, ack,
}
use kiss_protocol.Pipelock.Spans.{events_of, emit}
use kiss_protocol.Pipelock.Tracking.{acked_events-le, emits}
use kiss_protocol.Pipelock.Delivery.{
  Tailing, TailStep, reads, stores, fails, flushes, grows, read_step, store_step, step, run,
}
use kiss_protocol.Pipelock.Positions.{
  IsTracked, Tracks-advance, Tracks-line, Tracks-ack, Tracks-grown,
}

-- The Append of the step succeeds.
abbrev pub Succeeds : TailStep → Type 0
Succeeds fails = ⊥
Succeeds _ = Unit

module _ {ℓ} {A : Type ℓ} (codec : StateCodec) (parse : Bytes → Option A) where
  flush_locked-position :
      (w : FlushWorld) (t : Tailer) (f : Option Bytes)
      → ((flush_locked codec w t f).0.committed ≡ t.committed)
        × ((flush_locked codec w t f).0.pending ≡ t.pending)
        × ((flush_locked codec w t f).0.state_path ≡ t.state_path)
  unfolding flush_locked
  flush_locked-position w t f = ground arith

  flush-position :
      (w : FlushWorld) (t : Tailer) (f : Option Bytes)
      → ((flush codec w t f).0.committed ≡ t.committed)
        × ((flush codec w t f).0.pending ≡ t.pending)
        × ((flush codec w t f).0.state_path ≡ t.state_path)
  unfolding flush
  flush-position w t f = ground (arith, flush_locked-position w t f)

  ack-position :
      (w : FlushWorld) (t : Tailer) (f : Option Bytes)
      → is_empty t.state_path ≡ false
      → let moved = advance_from t.committed (ack_first t.pending) in
        ((ack codec w t f).0.committed ≡ moved.0)
        × ((ack codec w t f).0.pending ≡ moved.1)
        × ((ack codec w t f).0.state_path ≡ t.state_path)
  unfolding ack acked_next advance
  ack-position w t f h = ground (arith, h, flush_locked-position w (acked_next codec t) f)

  -- The reading of a line, in the tailer's own fields.
  record_line-position :
      (t : Tailer) (end : ℕ) (emitted : Bool)
      → is_empty t.state_path ≡ false
      → let moved =
          advance_from t.committed (t.pending ++ record { end = end; acked = not emitted } ∷ []) in
        ((record_line t end emitted).committed ≡ moved.0)
        × ((record_line t end emitted).pending ≡ moved.1)
        × ((record_line t end emitted).state_path ≡ t.state_path)
  unfolding record_line advance
  record_line-position t end emitted h = rw (h, record_line) (refl, refl, refl)

  taken-within : (from : ℕ) (t : Tailing A) → IsTracked parse from t → t.taken ≤ length t.delivered
  taken-within from t tracked =
      let tracks = tracked.tracks in
      omega (
        arith,
        tracks.counted,
        acked_events-le parse tracks.waiting t.tailer.pending,
        ap length tracks.delivers,
        length-append (events_of parse tracks.done) (events_of parse tracks.waiting),
      )

  read_step-IsTracked :
      (from : ℕ) (t : Tailing A)
      → IsTracked parse from t
      → IsTracked parse from (read_step codec parse t)
  unfolding read_step consume
  read_step-IsTracked from t tracked = elim (Option-cases (split_line (drop t.at t.file))) [
    | inl missing ↦ rw (missing, read_step) tracked
    | inr ((line, rest), e) ↦
        let end = t.at + length line in
        let next =
          Tracks-advance parse from t.file end t.tailer.committed
            (t.tailer.pending ++ record { end = end; acked = not (emits parse line) } ∷ [])
            (t.delivered ++ emit parse (event_of parse line) []) t.taken
            (Tracks-line parse from t.file t.at t.tailer.committed t.tailer.pending t.delivered
              t.taken line rest e tracked.tracks) in
        let (committed, pending, path) =
          record_line-position t.tailer end (emits parse line) tracked.resumes in
        rw (e, read_step)
          (record {
            resumes = rw path tracked.resumes;
            tracks = rw (committed, pending) next.0;
            settled = rw pending next.1;
            keeps =
                tracked.keeps
                ∙ sym (
                    take-within t.taken t.delivered (emit parse (event_of parse line) [])
                      (taken-within from t tracked));
          })
  ]

  store_step-IsTracked :
      (from : ℕ) (w : FlushWorld) (t : Tailing A)
      → IsTracked parse from t
      → IsTracked parse from (store_step codec parse w t)
  unfolding store_step
  store_step-IsTracked from w t tracked = elim (Option-cases (get_elem? t.delivered t.taken)) [
    | inl all_taken ↦ rw (all_taken, store_step) tracked
    | inr (event, more) ↦
        let next =
          Tracks-advance parse from t.file t.at t.tailer.committed (ack_first t.tailer.pending)
            t.delivered (t.taken + 1)
            (Tracks-ack parse from t.file t.at t.tailer.committed t.tailer.pending t.delivered
              t.taken (get_elem?-below t.delivered t.taken event more) tracked.tracks) in
        let (committed, pending, path) = ack-position w t.tailer t.state_file tracked.resumes in
        rw (more, store_step)
          (record {
            resumes = rw path tracked.resumes;
            tracks = rw (committed, pending) next.0;
            settled = rw pending next.1;
            keeps =
                ap (λ es. es ++ event ∷ []) tracked.keeps
                ∙ sym (take-next t.delivered t.taken event more);
          })
  ]

  pub step-IsTracked :
      (from : ℕ) (s : TailStep) (t : Tailing A)
      → Succeeds s
      → IsTracked parse from t
      → IsTracked parse from (step codec parse s t)
  unfolding step
  step-IsTracked from reads t good tracked = read_step-IsTracked from t tracked
  step-IsTracked from fails t good tracked = absurd good
  step-IsTracked from (stores w) t good tracked = store_step-IsTracked from w t tracked
  step-IsTracked from (flushes w) t good tracked =
      let (committed, pending, path) = flush-position w t.tailer t.state_file in
      record {
        resumes = rw path tracked.resumes;
        tracks = rw (committed, pending) tracked.tracks;
        settled = rw pending tracked.settled;
        keeps = tracked.keeps;
      }
  step-IsTracked from (grows more) t good tracked = record {
    resumes = tracked.resumes;
    tracks =
        Tracks-grown parse from t.file more t.at t.tailer.committed t.tailer.pending t.delivered
          t.taken tracked.tracks;
    settled = tracked.settled;
    keeps = tracked.keeps;
  }

  pub run-IsTracked :
      (from : ℕ) (steps : List TailStep) (t : Tailing A)
      → All Succeeds steps
      → IsTracked parse from t
      → IsTracked parse from (run codec parse steps t)
  unfolding run
  run-IsTracked from [] t good tracked = tracked
  run-IsTracked from (s ∷ ss) t (good, rest) tracked =
      run-IsTracked from ss (step codec parse s t) rest (step-IsTracked from s t good tracked)

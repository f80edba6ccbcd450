-- ===== src/Pipelock/Delivery.antt =====
-- The tailer of internal/pipelock/tailer.go with its consumer: the lines that `Run` reads before it is
-- stopped, and a consumer that acknowledges the events whose Append has succeeded, as in the loops of
-- internal/sbh/bridge.go and internal/pipelock_bridge/bridge.go.
use kiss_protocol.Base.{
  ℕ, ◌+◌, Option, none, some, List, [], ◌∷◌, ◌++◌, Bytes, length, drop, get_elem?, ltb,
  if◌then◌else◌,
}
use kiss_protocol.Pipelock.Lines.{split_line}
use kiss_protocol.Pipelock.Tailer.{Tailer, StateCodec, FlushWorld, consume, flush, ack}
use kiss_protocol.Pipelock.Spans.{emit}

-- The tailer on one file, with the events that have been delivered, how many of them the consumer has
-- taken, and those that it has stored.
pub record Tailing {ℓ} (A : Type ℓ) : Type ℓ where
  pub tailer : Tailer
  pub at : ℕ
  pub file : Bytes
  pub state_file : Option Bytes
  pub delivered : List A
  pub taken : ℕ
  pub stored : List A

pub data TailStep : Type 0 where
  reads : TailStep
  stores : FlushWorld → TailStep  -- Append succeeds
  fails : TailStep  -- Append fails
  flushes : FlushWorld → TailStep
  grows : Bytes → TailStep

module _ {ℓ} {A : Type ℓ} (codec : StateCodec) (parse : Bytes → Option A) where
  -- A line is read and its event delivered.
  unfoldable pub read_step : Tailing A → Tailing A
  read_step t = elim (split_line (drop t.at t.file)) [
    | none ↦ t
    | some (line, rest) ↦
        let (tailer, at, event) = consume parse t.tailer t.at line in
        record t { tailer = tailer; at = at; delivered = t.delivered ++ emit parse event [] }
  ]

  -- The consumer takes the next event, if one has been delivered. It stores and acknowledges it, or
  -- its Append fails and it goes on.
  unfoldable pub store_step : FlushWorld → Tailing A → Tailing A
  store_step w t =
      let (tailer, state_file) = ack codec w t.tailer t.state_file in
      elim (get_elem? t.delivered t.taken) [
        | none ↦ t
        | some event ↦ record t {
          tailer = tailer;
          state_file = state_file;
          taken = t.taken + 1;
          stored = t.stored ++ event ∷ [];
        }
      ]

  unfoldable pub fail_step : Tailing A → Tailing A
  fail_step t = if ltb t.taken (length t.delivered) then record t { taken = t.taken + 1 } else t

  unfoldable pub step : TailStep → Tailing A → Tailing A
  step reads t = read_step t
  step (stores w) t = store_step w t
  step fails t = fail_step t
  step (flushes w) t =
      let (tailer, state_file) = flush codec w t.tailer t.state_file in
      record t { tailer = tailer; state_file = state_file }
  step (grows more) t = record t { file = t.file ++ more }

  unfoldable pub run : List TailStep → Tailing A → Tailing A
  run [] t = t
  run (s ∷ ss) t = run ss (step s t)

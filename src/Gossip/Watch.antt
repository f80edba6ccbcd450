-- ===== src/Gossip/Watch.antt =====
-- Runs of a node: packets and checks in any order, at any times.
use kiss_protocol.Base.{
  ℕ, ◌+◌, ◌-◌, ◌/◌, ◌≤◌, ◌≡◌, inl, inr, refl, sym, ap, ◌∙◌, some, List, [], ◌∷◌, Bytes, bytes_eq,
  bytes_eq_sound, arith, Bool-cases,
}
use kiss_protocol.Gossip.Node.{
  Node, PeerState, PeerStatus, alive, silent, presumed_compromised, Report, went_silent, died,
  check_peer, check_states, check_peers, Wire, lookup, assign, handle_packet,
}
use kiss_protocol.Gossip.Replay.{
  IsHeartbeat, handle_packet-heartbeat, handle_packet-cases, lookup-assign, lookup-assign_other,
  stale_packet, last_seq_of,
}

check_peer-last_seq :
    (interval missed death now : ℕ) (st : PeerState)
    → (check_peer interval missed death now st).0.last_seq ≡ st.last_seq
unfolding check_peer
check_peer-last_seq interval missed death now st = ground arith

pub check_states-lookup :
    (interval missed death now : ℕ) (states : List (Bytes × PeerState)) (id : Bytes)
    (st : PeerState)
    → lookup id states ≡ some st
    → lookup id (check_states interval missed death now states).0
      ≡ some (check_peer interval missed death now st).0
unfolding lookup check_states
check_states-lookup interval missed death now [] id st h = cc
check_states-lookup interval missed death now ((k, old) ∷ rest) id st h =
    elim (Bool-cases (bytes_eq id k)) [
      | inl same ↦ let one : old ≡ st = ground arith in rw (same, one) refl
      | inr other ↦ ground (arith, check_states-lookup interval missed death now rest id st)
    ]

-- What happens to a node: packets come, and the watch loop checks the peers.
pub data Run (wire : Wire) : Node → Node → Type 0 where
  stays : {n : Node} → Run wire n n
  then_receives :
      {n m : Node} (now : ℕ) (packet : Bytes)
      → Run wire n m
      → Run wire n (handle_packet wire now m packet)
  then_checks : {n m : Node} (now : ℕ) → Run wire n m → Run wire n (check_peers now m).0

module _ (wire : Wire) where
  receive-keeps :
      (now : ℕ) (n : Node) (packet : Bytes) (id : Bytes) (st : PeerState)
      → lookup id n.states ≡ some st
      → (st' : PeerState) × (lookup id (handle_packet wire now n packet).states ≡ some st')
        × (st.last_seq ≤ st'.last_seq)
  receive-keeps now n packet id st h = elim (handle_packet-cases wire n packet) [
    | inl refused ↦ (st, ap (λ (x : Node). lookup id x.states) (refused now) ∙ h, omega arith)
    | inr (b, taken) ↦
        let new = record (b.state) { last_seq = b.seq; last_seen = now; status = alive } in
        let states_now = ap (λ (x : Node). lookup id x.states) (taken now) in
        elim (Bool-cases (bytes_eq id b.peer_id)) [
          | inl same ↦
              let one : id ≡ b.peer_id = bytes_eq_sound id b.peer_id same in
              let was : b.state.last_seq ≡ st.last_seq =
                ap last_seq_of
                  (sym b.listed ∙ (ap (λ (i : Bytes). lookup i n.states) (sym one) ∙ h)) in
              (
                new,
                states_now
                    ∙ (ap (λ (i : Bytes). lookup i (assign b.peer_id new n.states)) one
                        ∙ lookup-assign b.peer_id new n.states),
                omega (arith, b.is_fresh, was),
              )
          | inr other ↦ (
            st,
            states_now ∙ (lookup-assign_other b.peer_id id new n.states other ∙ h),
            omega arith,
          )
        ]
  ]

  check-keeps :
      (now : ℕ) (n : Node) (id : Bytes) (st : PeerState)
      → lookup id n.states ≡ some st
      → (st' : PeerState) × (lookup id (check_peers now n).0.states ≡ some st')
        × (st.last_seq ≤ st'.last_seq)
  unfolding check_peers
  check-keeps now n id st h = (
    (check_peer n.interval n.missed n.death now st).0,
    check_states-lookup n.interval n.missed n.death now n.states id st h,
    omega (arith, check_peer-last_seq n.interval n.missed n.death now st),
  )

  -- Through any run, a listed peer stays listed and its last number does not fall.
  pub run-last_seq :
      (n m : Node) (id : Bytes) (st : PeerState)
      → Run wire n m
      → lookup id n.states ≡ some st
      → (st' : PeerState) × (lookup id m.states ≡ some st') × (st.last_seq ≤ st'.last_seq)
  run-last_seq n m id st stays h = (st, h, omega arith)
  run-last_seq n m id st (then_receives now packet run) h =
      let (mid, at, low) = run-last_seq n _ id st run h in
      let (last, at', low') = receive-keeps now _ packet id mid at in
      (last, at', omega (arith, low, low'))
  run-last_seq n m id st (then_checks now run) h =
      let (mid, at, low) = run-last_seq n _ id st run h in
      let (last, at', low') = check-keeps now _ id mid at in (last, at', omega (arith, low, low'))

  -- A heartbeat that a node has received changes nothing for the rest of the run, whenever it is sent
  -- again.
  pub run-replay :
      (now later : ℕ) (n m : Node) (packet : Bytes) (b : IsHeartbeat wire n packet)
      → Run wire (handle_packet wire now n packet) m
      → handle_packet wire later m packet ≡ m
  run-replay now later n m packet b run =
      let st = record (b.state) { last_seq = b.seq; last_seen = now; status = alive } in
      let received = handle_packet-heartbeat wire now n packet b in
      let (last, at, low) = run-last_seq (handle_packet wire now n packet) m b.peer_id st run (
        ap (λ (x : Node). lookup b.peer_id x.states) received
        ∙ lookup-assign b.peer_id st n.states) in
      stale_packet wire later m packet b.payload b.sig b.peer_id b.seq last b.decodes b.names at
        (omega (arith, low))

-- The reports of one peer in checks at the given times, with no packet in between.
abbrev pub is_death : Report → ℕ
is_death died = 1
is_death _ = 0

abbrev pub is_silence : Report → ℕ
is_silence went_silent = 1
is_silence _ = 0

abbrev death_rank : PeerStatus → ℕ
death_rank presumed_compromised = 1
death_rank _ = 0

abbrev silence_rank : PeerStatus → ℕ
silence_rank alive = 0
silence_rank _ = 1

module _ (interval missed death : ℕ) where
  unfoldable pub deaths : PeerState → List ℕ → ℕ
  deaths st [] = 0
  deaths st (now ∷ times) =
      let (st', report) = check_peer interval missed death now st in
      is_death report + deaths st' times

  unfoldable pub silences : PeerState → List ℕ → ℕ
  silences st [] = 0
  silences st (now ∷ times) =
      let (st', report) = check_peer interval missed death now st in
      is_silence report + silences st' times

  -- A report of a death moves the status from below `presumed_compromised` to it, and nothing else
  -- reaches or leaves it.
  check_peer-death_rank :
      (now : ℕ) (st : PeerState) (s : PeerStatus)
      → st.status ≡ s
      → let (st', report) = check_peer interval missed death now st in
        is_death report + death_rank st.status ≡ death_rank st'.status
  unfolding check_peer
  check_peer-death_rank now st alive e = rw e (ground (arith, e))
  check_peer-death_rank now st silent e = rw e (ground (arith, e))
  check_peer-death_rank now st presumed_compromised e = rw e (ground (arith, e))

  check_peer-silence_rank :
      (now : ℕ) (st : PeerState) (s : PeerStatus)
      → st.status ≡ s
      → let (st', report) = check_peer interval missed death now st in
        is_silence report + silence_rank st.status ≤ silence_rank st'.status
  unfolding check_peer
  check_peer-silence_rank now st alive e = rw e (ground (arith, e))
  check_peer-silence_rank now st silent e = rw e (ground (arith, e))
  check_peer-silence_rank now st presumed_compromised e = rw e (ground (arith, e))

  deaths-rank : (st : PeerState) (times : List ℕ) → deaths st times + death_rank st.status ≤ 1
  unfolding deaths
  deaths-rank st [] = omega (arith, rank_small st.status)
    where
      rank_small : (s : PeerStatus) → death_rank s ≤ 1
      rank_small alive = omega arith
      rank_small silent = omega arith
      rank_small presumed_compromised = omega arith
  deaths-rank st (now ∷ times) =
      let (st', report) = check_peer interval missed death now st in
      omega (arith, deaths-rank st' times, check_peer-death_rank now st st.status refl)

  silences-rank : (st : PeerState) (times : List ℕ) → silences st times + silence_rank st.status ≤ 1
  unfolding silences
  silences-rank st [] = omega (arith, rank_small st.status)
    where
      rank_small : (s : PeerStatus) → silence_rank s ≤ 1
      rank_small alive = omega arith
      rank_small silent = omega arith
      rank_small presumed_compromised = omega arith
  silences-rank st (now ∷ times) =
      let (st', report) = check_peer interval missed death now st in
      omega (arith, silences-rank st' times, check_peer-silence_rank now st st.status refl)

  -- However often the watch loop checks, a peer that sends nothing is reported silent at most once
  -- and dead at most once.
  pub reports-once :
      (st : PeerState) (times : List ℕ) → (silences st times ≤ 1) × (deaths st times ≤ 1)
  reports-once st times =
      (omega (arith, silences-rank st times), omega (arith, deaths-rank st times))

  -- A peer that has been quiet for the death threshold of intervals is presumed compromised by the
  -- next check, whatever its status was.
  pub check_peer-detects :
      (now : ℕ) (st : PeerState)
      → death ≤ (now - st.last_seen) / interval
      → (check_peer interval missed death now st).0.status ≡ presumed_compromised
  unfolding check_peer
  check_peer-detects now st h = detected now st st.status refl h
    where
      detected :
          (now : ℕ) (st : PeerState) (s : PeerStatus)
          → st.status ≡ s
          → death ≤ (now - st.last_seen) / interval
          → (check_peer interval missed death now st).0.status ≡ presumed_compromised
      detected now st alive e h = ground (arith, e)
      detected now st silent e h = ground (arith, e)
      detected now st presumed_compromised e h = ground (arith, e)

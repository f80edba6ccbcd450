-- ===== src/Gossip/Silence.antt =====
-- A peer that falls silent: what the checks make of it, whatever else the node receives.
use kiss_protocol.Base.{
  ℕ, ◌-◌, ◌/◌, ◌≤◌, ◌≡◌, inl, inr, refl, sym, subst, ◌∙◌, false, some, Bytes, bytes_eq, arith,
}
use kiss_protocol.Gossip.Node.{
  Node, PeerState, alive, presumed_compromised, Wire, check_peer, check_peers, lookup,
  handle_packet,
}
use kiss_protocol.Gossip.Replay.{
  IsHeartbeat, handle_packet-heartbeat, handle_packet-cases, lookup-assign, lookup-assign_other,
}
use kiss_protocol.Gossip.Watch.{check_states-lookup, check_peer-detects}

-- A run in which no heartbeat of one peer comes: other packets, and checks, at any times.
pub data Quiet (wire : Wire) (id : Bytes) : Node → Node → Type 0 where
  stays_quiet : {n : Node} → Quiet wire id n n
  then_other :
      {n m : Node} (now : ℕ) (packet : Bytes)
      → ((b : IsHeartbeat wire m packet) → bytes_eq id b.peer_id ≡ false)
      → Quiet wire id n m
      → Quiet wire id n (handle_packet wire now m packet)
  then_quiet_check :
      {n m : Node} (now : ℕ) → Quiet wire id n m → Quiet wire id n (check_peers now m).0

check_peer-last_seen :
    (interval missed death now : ℕ) (st : PeerState)
    → (check_peer interval missed death now st).0.last_seen ≡ st.last_seen
unfolding check_peer
check_peer-last_seen interval missed death now st = ground arith

module _ (wire : Wire) (id : Bytes) where
  -- The peer was last heard of then, under those settings.
  record IsHeard (heard interval death : ℕ) (n : Node) : Type 0 where
    state : PeerState
    listed : lookup id n.states ≡ some state
    last_heard : state.last_seen ≡ heard
    same_interval : n.interval ≡ interval
    same_death : n.death ≡ death

  other-IsHeard :
      (heard interval death now : ℕ) (m : Node) (packet : Bytes)
      → ((b : IsHeartbeat wire m packet) → bytes_eq id b.peer_id ≡ false)
      → IsHeard heard interval death m
      → IsHeard heard interval death (handle_packet wire now m packet)
  other-IsHeard heard interval death now m packet other h =
      elim (handle_packet-cases wire m packet) [
        | inl refused ↦ subst (IsHeard heard interval death) (sym (refused now)) h
        | inr (b, taken) ↦
            let new = record (b.state) { last_seq = b.seq; last_seen = now; status = alive } in
            subst (IsHeard heard interval death) (sym (taken now)) (record {
              state = h.state;
              listed = lookup-assign_other b.peer_id id new m.states (other b) ∙ h.listed;
              last_heard = h.last_heard;
              same_interval = h.same_interval;
              same_death = h.same_death;
            })
      ]

  check-IsHeard :
      (heard interval death now : ℕ) (m : Node)
      → IsHeard heard interval death m
      → IsHeard heard interval death (check_peers now m).0
  unfolding check_peers
  check-IsHeard heard interval death now m h = record {
    state = (check_peer m.interval m.missed m.death now h.state).0;
    listed = check_states-lookup m.interval m.missed m.death now m.states id h.state h.listed;
    last_heard = check_peer-last_seen m.interval m.missed m.death now h.state ∙ h.last_heard;
    same_interval = h.same_interval;
    same_death = h.same_death;
  }

  Quiet-IsHeard :
      (heard interval death : ℕ) (n m : Node)
      → Quiet wire id n m
      → IsHeard heard interval death n
      → IsHeard heard interval death m
  Quiet-IsHeard heard interval death n m stays_quiet h = h
  Quiet-IsHeard heard interval death n m (then_other now packet other run) h =
      other-IsHeard heard interval death now _ packet other
        (Quiet-IsHeard heard interval death n _ run h)
  Quiet-IsHeard heard interval death n m (then_quiet_check now run) h =
      check-IsHeard heard interval death now _ (Quiet-IsHeard heard interval death n _ run h)

-- A node receives a heartbeat of a peer, and then other packets and checks, but no further heartbeat
-- of that peer. A check that comes when the death threshold of intervals has passed since leaves the
-- peer presumed compromised.
pub run-detects :
    (wire : Wire) (heard now : ℕ) (n m : Node) (packet : Bytes) (b : IsHeartbeat wire n packet)
    → Quiet wire b.peer_id (handle_packet wire heard n packet) m
    → n.death ≤ (now - heard) / n.interval
    → (st : PeerState) × (lookup b.peer_id (check_peers now m).0.states ≡ some st)
      × (st.status ≡ presumed_compromised)
unfolding check_peers
run-detects wire heard now n m packet b run late =
    let new = record (b.state) { last_seq = b.seq; last_seen = heard; status = alive } in
    let start : IsHeard wire b.peer_id heard n.interval n.death
        (handle_packet wire heard n packet) =
      subst (IsHeard wire b.peer_id heard n.interval n.death)
        (sym (handle_packet-heartbeat wire heard n packet b))
        (record {
          state = new;
          listed = lookup-assign b.peer_id new n.states;
          last_heard = refl;
          same_interval = refl;
          same_death = refl;
        }) in
    let h =
      Quiet-IsHeard wire b.peer_id heard n.interval n.death (handle_packet wire heard n packet) m
        run start in
    (
      (check_peer m.interval m.missed m.death now h.state).0,
      check_states-lookup m.interval m.missed m.death now m.states b.peer_id h.state h.listed,
      check_peer-detects m.interval m.missed m.death now h.state
          (rw (h.last_heard, h.same_interval, h.same_death) late),
    )

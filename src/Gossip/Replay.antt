-- ===== src/Gossip/Replay.antt =====
-- `handlePacket`: only fresh packets of listed peers change a node.
use kiss_protocol.Base.{
  ℕ, ◌<◌, ◌≤◌, ◌≡◌, ◌⊎◌, inl, inr, refl, sym, ap, ◌∙◌, true, false, Option, none, some, List, [],
  ◌∷◌, Bytes, bytes_eq, bytes_eq_refl, bytes_eq_sound, leb, if◌then◌else◌, arith, Option-cases,
  Bool-cases,
}
use kiss_protocol.Codec.Hex.{decode}
use kiss_protocol.Store.Head.{is_empty, decode_sized, public_key_size}
use kiss_protocol.Gossip.Packet.{decode_packet}
use kiss_protocol.Gossip.Node.{
  Node, PeerState, alive, Wire, lookup, assign, accept_packet, handle_packet,
}

pub lookup-assign :
    (id : Bytes) (st : PeerState) (states : List (Bytes × PeerState))
    → lookup id (assign id st states) ≡ some st
unfolding lookup assign
lookup-assign id st [] = rw (bytes_eq_refl id) refl
lookup-assign id st ((k, old) ∷ rest) = elim (Bool-cases (bytes_eq id k)) [
  | inl same ↦ ground arith
  | inr other ↦ ground (arith, lookup-assign id st rest)
]

pub lookup-assign_other :
    (id other : Bytes) (st : PeerState) (states : List (Bytes × PeerState))
    → bytes_eq other id ≡ false
    → lookup other (assign id st states) ≡ lookup other states
unfolding lookup assign
lookup-assign_other id other st [] h = rw h refl
lookup-assign_other id other st ((k, old) ∷ rest) h = elim (Bool-cases (bytes_eq id k)) [
  | inl same ↦
      let apart : bytes_eq other k ≡ false = rw (← bytes_eq_sound id k same) h in ground arith
  | inr differs ↦ ground (arith, lookup-assign_other id other st rest h)
]

first_of :
    {A B : Type 0} (a a' : A) (b b' : B)
    → ◌≡◌ {A = Option (A × B)} (some (a, b)) (some (a', b'))
    → a ≡ a'
first_of a a' b b' e = cc

second_of :
    {A B : Type 0} (a a' : A) (b b' : B)
    → ◌≡◌ {A = Option (A × B)} (some (a, b)) (some (a', b'))
    → b ≡ b'
second_of a a' b b' e = cc

abbrev pub last_seq_of : Option PeerState → ℕ
last_seq_of none = 0
last_seq_of (some st) = st.last_seq

module _ (wire : Wire) where
  -- A packet of a listed peer, signed with that peer's key, with a number above the last.
  pub record IsHeartbeat (n : Node) (packet : Bytes) : Type 0 where
    pub payload : Bytes
    pub sig : Bytes
    pub peer_id : Bytes
    pub pub_key : Bytes
    pub seq : ℕ
    pub state : PeerState
    pub decodes : decode_packet packet ≡ some (payload, sig)
    pub names : wire.unmarshal_header payload ≡ some (peer_id, seq)
    pub key_decodes : decode_sized public_key_size peer_id ≡ some pub_key
    pub listed : lookup peer_id n.states ≡ some state
    pub verifies : wire.ed25519_verify pub_key payload sig ≡ true
    pub is_fresh : state.last_seq < seq

  -- What a heartbeat does to the node.
  abbrev pub refreshed : ℕ → (n : Node) (packet : Bytes) → IsHeartbeat n packet → Node
  refreshed now n packet b = record n {
    states =
        assign b.peer_id (record (b.state) { last_seq = b.seq; last_seen = now; status = alive })
          n.states;
  }

  key-present :
      (id key : Bytes)
      → decode_sized public_key_size id ≡ some key
      → (if is_empty id then none else decode_sized public_key_size id) ≡ some key
  unfolding decode_sized decode
  key-present [] key h = cc
  key-present (c ∷ id) key h = h

  -- What `handlePacket` makes of a heartbeat.
  pub handle_packet-heartbeat :
      (now : ℕ) (n : Node) (packet : Bytes) (b : IsHeartbeat n packet)
      → handle_packet wire now n packet ≡ refreshed now n packet b
  unfolding handle_packet accept_packet
  handle_packet-heartbeat now n packet b =
      let fresh : leb b.seq b.state.last_seq ≡ false = ground (arith, b.is_fresh) in
      rw
        (
          b.decodes,
          b.names,
          key-present b.peer_id b.pub_key b.key_decodes,
          b.listed,
          b.verifies,
          fresh,
          handle_packet,
          accept_packet,
        )
        refl

  -- Whether a packet is taken does not depend on the time.
  pub handle_packet-cases :
      (n : Node) (packet : Bytes)
      → ((now : ℕ) → handle_packet wire now n packet ≡ n)
        ⊎ ((b : IsHeartbeat n packet) × ((now : ℕ)
              → handle_packet wire now n packet ≡ refreshed now n packet b))
  unfolding handle_packet accept_packet
  handle_packet-cases n packet = elim (Option-cases (decode_packet packet)) [
    | inl no_packet ↦ inl (λ now. rw (no_packet, handle_packet) refl)
    | inr ((payload, sig), ep) ↦ elim (Option-cases (wire.unmarshal_header payload)) [
      | inl no_header ↦ inl (λ now. rw (ep, no_header, handle_packet) refl)
      | inr ((id, seq), eh) ↦
          elim (Option-cases (if is_empty id then none else decode_sized public_key_size id)) [
            | inl no_key ↦ inl (λ now. rw (ep, eh, no_key, handle_packet) refl)
            | inr (pub_key, ek) ↦ elim (Option-cases (lookup id n.states)) [
              | inl unknown ↦ inl (λ now. rw (ep, eh, ek, unknown, handle_packet) refl)
              | inr (st, el) ↦ elim (Bool-cases (wire.ed25519_verify pub_key payload sig)) [
                | inr forged ↦
                    inl (λ now. rw (ep, eh, ek, el, forged, handle_packet, accept_packet) refl)
                | inl good ↦ elim (Bool-cases (leb seq st.last_seq)) [
                  | inl stale ↦
                      inl
                        (λ now. rw (ep, eh, ek, el, good, stale, handle_packet, accept_packet) refl)
                  | inr is_fresh ↦ inr (
                    record {
                      payload = payload;
                      sig = sig;
                      peer_id = id;
                      pub_key = pub_key;
                      seq = seq;
                      state = st;
                      decodes = ep;
                      names = eh;
                      key_decodes = ground arith;
                      listed = el;
                      verifies = good;
                      is_fresh = ground arith;
                    },
                    (λ now. rw (ep, eh, ek, el, good, is_fresh, handle_packet, accept_packet) refl),
                  )
                ]
              ]
            ]
          ]
    ]
  ]

  -- A packet whose number its peer has reached already changes nothing.
  pub stale_packet :
      (now : ℕ) (n : Node) (packet payload sig id : Bytes) (seq : ℕ) (st : PeerState)
      → decode_packet packet ≡ some (payload, sig)
      → wire.unmarshal_header payload ≡ some (id, seq)
      → lookup id n.states ≡ some st
      → seq ≤ st.last_seq
      → handle_packet wire now n packet ≡ n
  stale_packet now n packet payload sig id seq st decodes names listed reached =
      elim (handle_packet-cases n packet) [
        | inl refused ↦ refused now
        | inr (b, taken) ↦
            let one_payload : b.payload ≡ payload =
              first_of b.payload payload b.sig sig (sym b.decodes ∙ decodes) in
            let one_header = sym b.names ∙ (ap wire.unmarshal_header one_payload ∙ names) in
            let one_peer : b.peer_id ≡ id = first_of b.peer_id id b.seq seq one_header in
            let one_seq : b.seq ≡ seq = second_of b.peer_id id b.seq seq one_header in
            let one_state =
              sym b.listed ∙ (ap (λ (i : Bytes). lookup i n.states) one_peer ∙ listed) in
            absurd (omega (arith, b.is_fresh, one_seq, ap last_seq_of one_state, reached))
      ]

  -- A packet that is captured and sent again changes nothing, at whatever time it comes.
  pub handle_packet-replay :
      (now later : ℕ) (n : Node) (packet : Bytes)
      → handle_packet wire later (handle_packet wire now n packet) packet
        ≡ handle_packet wire now n packet
  handle_packet-replay now later n packet = elim (handle_packet-cases n packet) [
    | inl refused ↦ rw (refused now) (refused later)
    | inr (b, taken) ↦
        let st = record (b.state) { last_seq = b.seq; last_seen = now; status = alive } in
        rw (taken now) (
          stale_packet later (refreshed now n packet b) packet b.payload b.sig b.peer_id b.seq st
            b.decodes b.names (lookup-assign b.peer_id st n.states) (omega arith))
  ]

-- ===== src/Gossip/Node.antt =====
-- A gossip node: the state it keeps of each peer, the handler of a packet and the periodic check.
-- Times and the interval are in nanoseconds of a clock that does not run backwards.
use kiss_protocol.Base.{
  ℕ, ◌+◌, ◌-◌, ◌/◌, ◌%◌, ◌==◌, ◌&&◌, not, Bool, true, false, Option, none, some, List, [], ◌∷◌,
  Bytes, bytes_eq, leb, if◌then◌else◌,
}
use kiss_protocol.Codec.Hex.{encode}
use kiss_protocol.Store.Types.{Signer}
use kiss_protocol.Store.Head.{is_empty, decode_sized, public_key_size}
use kiss_protocol.Store.Opening.{uint64_mod}
use kiss_protocol.Gossip.Packet.{encode_packet, decode_packet}
use kiss_protocol.Gossip.Peers.{Peer}

pub data PeerStatus : Type 0 where
  alive silent presumed_compromised : PeerStatus

pub record PeerState : Type 0 where
  pub peer : Peer
  pub last_seen : ℕ
  pub last_seq : ℕ
  pub status : PeerStatus

pub record NodeConfig : Type 0 where
  pub signer : Option Signer
  pub peers : List Peer
  pub interval : ℕ
  pub missed_threshold : ℕ
  pub death_threshold : ℕ

pub record Node : Type 0 where
  pub signer : Option Signer
  pub peers : List Peer
  pub interval : ℕ
  pub missed : ℕ
  pub death : ℕ
  pub states : List (Bytes × PeerState)  -- keyed by the hex public key
  pub seq : ℕ

-- The payload of a heartbeat, and what is read of any payload.
pub record Heartbeat : Type 0 where
  pub peer_id : Bytes
  pub seq : ℕ
  pub time_text : Bytes
  pub nonce : Bytes

-- What a node calls: ed25519 and the JSON of payloads.
pub record Wire : Type 0 where
  pub ed25519_verify : Bytes → Bytes → Bytes → Bool
  pub marshal_heartbeat : Heartbeat → Bytes
  pub unmarshal_header : Bytes → Option (Bytes × ℕ)

-- A map's lookup and assignment.
unfoldable pub lookup : Bytes → List (Bytes × PeerState) → Option PeerState
lookup id [] = none
lookup id ((k, st) ∷ rest) = if bytes_eq id k then some st else lookup id rest

unfoldable pub assign : Bytes → PeerState → List (Bytes × PeerState) → List (Bytes × PeerState)
assign id st [] = (id, st) ∷ []
assign id st ((k, old) ∷ rest) =
    let kept = assign id st rest in if bytes_eq id k then (k, st) ∷ rest else (k, old) ∷ kept

-- A field that is zero takes its default.
abbrev pub or_default : ℕ → ℕ → ℕ
or_default n default = if n == 0 then default else n

unfoldable pub initial_states : ℕ → List Peer → List (Bytes × PeerState) → List (Bytes × PeerState)
initial_states now [] states = states
initial_states now (p ∷ ps) states = initial_states now ps (
    assign (encode p.pub_key) (record { peer = p; last_seen = now; last_seq = 0; status = alive })
      states)

-- `NewNode`
unfoldable pub new_node : ℕ → NodeConfig → Node
new_node now config = record {
  signer = config.signer;
  peers = config.peers;
  interval = or_default config.interval 30000000000;
  missed = or_default config.missed_threshold 3;
  death = or_default config.death_threshold 6;
  states = initial_states now config.peers [];
  seq = 0;
}

-- The check of one peer; the second part says what is reported.
pub data Report : Type 0 where
  nothing went_silent died : Report

abbrev pub is_alive : PeerStatus → Bool
is_alive alive = true
is_alive _ = false

abbrev pub is_compromised : PeerStatus → Bool
is_compromised presumed_compromised = true
is_compromised _ = false

unfoldable pub check_peer : ℕ → ℕ → ℕ → ℕ → PeerState → PeerState × Report
check_peer interval missed death now st =
    let passed = (now - st.last_seen) / interval in
    if leb death passed && not (is_compromised st.status)
    then (record st { status = presumed_compromised }, died)
    else if leb missed passed && is_alive st.status
    then (record st { status = silent }, went_silent)
    else (st, nothing)

unfoldable pub check_states :
    ℕ → ℕ → ℕ → ℕ → List (Bytes × PeerState) → List (Bytes × PeerState) × List (Peer × Report)
check_states interval missed death now [] = ([], [])
check_states interval missed death now ((id, st) ∷ rest) =
    let (st', report) = check_peer interval missed death now st in
    let (rest', reports) = check_states interval missed death now rest in
    ((id, st') ∷ rest', (st.peer, report) ∷ reports)

-- `checkPeers`, with what it reports of each peer.
unfoldable pub check_peers : ℕ → Node → Node × List (Peer × Report)
check_peers now n =
    let (states, reports) = check_states n.interval n.missed n.death now n.states in
    (record n { states = states }, reports)

module _ (wire : Wire) where
  -- The end of `handlePacket`, for a packet of a known peer.
  unfoldable pub accept_packet : ℕ → Node → Bytes → PeerState → Bool → ℕ → Node
  accept_packet now n id st verified seq =
      if not verified then n else if leb seq st.last_seq then n else record n {
        states = assign id (record st { last_seq = seq; last_seen = now; status = alive }) n.states;
      }

  -- `handlePacket`
  unfoldable pub handle_packet : ℕ → Node → Bytes → Node
  handle_packet now n packet = elim (decode_packet packet) [
    | none ↦ n
    | some (payload, sig) ↦ elim (wire.unmarshal_header payload) [
      | none ↦ n
      | some (id, seq) ↦ elim (if is_empty id then none else decode_sized public_key_size id) [
        | none ↦ n
        | some pub_key ↦ elim (lookup id n.states) [
          | none ↦ n
          | some st ↦ accept_packet now n id st (wire.ed25519_verify pub_key payload sig) seq
        ]
      ]
    ]
  ]

  -- `sendHeartbeat`: the packet that is written to every peer, if the signer makes a signature.
  unfoldable pub send_heartbeat : Bytes → Bytes → Node → Node × Option Bytes
  send_heartbeat time_text nonce n = elim n.signer [
    | none ↦ (n, none)
    | some s ↦
        let seq = (n.seq + 1) % uint64_mod in
        let payload = wire.marshal_heartbeat (record {
          peer_id = encode s.public_key;
          seq = seq;
          time_text = time_text;
          nonce = encode nonce;
        }) in
        elim (s.sign payload) [
          | none ↦ (record n { seq = seq }, none)
          | some sig ↦ (record n { seq = seq }, some (encode_packet payload sig))
        ]
  ]

-- internal/gossip/death.go
pub record DeathReport : Type 0 where
  pub machine_id : Bytes
  pub peer_id : Bytes
  pub reason : Bytes
  pub time_text : Bytes
  pub seq : ℕ

-- `BroadcastDeath`: the packet that is written to every peer; the JSON of the report is a parameter.
unfoldable pub broadcast_death :
    (DeathReport → Bytes) → List Peer → Option Signer → Bytes → Bytes → Bytes → ℕ → Option Bytes
broadcast_death marshal_report peers none machine_id reason time_text seq = none
broadcast_death marshal_report peers (some s) machine_id reason time_text seq =
    let payload = marshal_report (record {
      machine_id = machine_id;
      peer_id = encode s.public_key;
      reason = reason;
      time_text = time_text;
      seq = seq;
    }) in
    if is_empty peers
    then none
    else elim (s.sign payload) [ none ↦ none | some sig ↦ some (encode_packet payload sig) ]

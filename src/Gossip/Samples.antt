-- ===== src/Gossip/Samples.antt =====
-- A node with one peer, a heartbeat of that peer and what follows it.
use kiss_protocol.Base.{
  ℕ, ◌-◌, ◌/◌, ◌≤◌, ◌≡◌, refl, Option, none, some, [], ◌∷◌, ◌++◌, Bytes, AreBytes, bytes_eq, codes,
  take, drop, replicate, arith, ok,
}
use kiss_protocol.Codec.Hex.{encode, decode}
use kiss_protocol.Store.Head.{decode_sized}
use kiss_protocol.Gossip.Packet.{encode_packet, decode_packet}
use kiss_protocol.Gossip.PacketLaws.{decode_packet-encode_packet, encode_packet-decode_packet}
use kiss_protocol.Gossip.Peers.{Peer, clash, add_peer}
use kiss_protocol.Gossip.Node.{
  Node, PeerState, alive, presumed_compromised, Wire, new_node, initial_states, assign, lookup,
  handle_packet, check_peers, check_peer,
}
use kiss_protocol.Gossip.Replay.{IsHeartbeat}
use kiss_protocol.Gossip.Silence.{stays_quiet, then_quiet_check, run-detects}
use kiss_protocol.Gossip.Watch.{
  stays, then_receives, then_checks, run-replay, silences, deaths, reports-once,
}

abbrev signature : Bytes
signature = replicate 64 7

-- A payload is the hexadecimal key and the number.
abbrev read_header : Bytes → Option (Bytes × ℕ)
read_header payload = number (take 64 payload) (drop 64 payload)
  where
    number : Bytes → Bytes → Option (Bytes × ℕ)
    number id [] = none
    number id (n ∷ rest) = some (id, n)

abbrev wire : Wire
wire = record {
  ed25519_verify = λ pub_key m sig. bytes_eq sig signature;
  marshal_heartbeat = λ h. h.peer_id ++ h.seq ∷ [];
  unmarshal_header = read_header;
}

abbrev alice : Peer
alice = record { label = codes "alice"; addr = codes "10.0.0.1:9273"; pub_key = replicate 32 9 }

abbrev bob : Peer
bob = record { label = codes "bob"; addr = codes "10.0.0.2:9273"; pub_key = replicate 32 8 }

abbrev alice_id : Bytes
alice_id = encode alice.pub_key

abbrev alice_state : PeerState
alice_state = record { peer = alice; last_seen = 0; last_seq = 0; status = alive }

abbrev node : Node
node = new_node 0 (record {
  signer = none;
  peers = alice ∷ [];
  interval = 0;
  missed_threshold = 0;
  death_threshold = 0;
})

abbrev payload : Bytes
payload = alice_id ++ 1 ∷ []

abbrev packet : Bytes
packet = encode_packet payload signature

packet_bytes : AreBytes packet
unfolding encode encode_packet
packet_bytes = omega arith

packet_reads : decode_packet (encode_packet payload signature) ≡ some (payload, signature)
unfolding encode
packet_reads = decode_packet-encode_packet payload signature (omega arith) refl

encode_packet-decode_packet_example : encode_packet payload signature ≡ packet
encode_packet-decode_packet_example =
    encode_packet-decode_packet packet payload signature packet_bytes packet_reads

is_heartbeat : IsHeartbeat wire node packet
unfolding encode decode decode_sized new_node initial_states assign lookup bytes_eq
is_heartbeat = record {
  payload = payload;
  sig = signature;
  peer_id = alice_id;
  pub_key = alice.pub_key;
  seq = 1;
  state = alice_state;
  decodes = packet_reads;
  names = refl;
  key_decodes = refl;
  listed = refl;
  verifies = refl;
  is_fresh = omega arith;
}

abbrev after : Node
after = (check_peers 70 (handle_packet wire 60 (handle_packet wire 40 node packet) packet)).0

run-replay_example : handle_packet wire 90 after packet ≡ after
run-replay_example =
    run-replay wire 40 90 node after packet is_heartbeat
      (then_checks 70 (then_receives 60 packet stays))

reports-once_example :
    (silences 30 3 6 alice_state (100 ∷ 200 ∷ 300 ∷ []) ≤ 1)
    × (deaths 30 3 6 alice_state (100 ∷ 200 ∷ 300 ∷ []) ≤ 1)
reports-once_example = reports-once 30 3 6 alice_state (100 ∷ 200 ∷ 300 ∷ [])

reports_come :
    (silences 30 3 6 alice_state (100 ∷ 200 ∷ []) ≡ 1)
    × (deaths 30 3 6 alice_state (100 ∷ 200 ∷ []) ≡ 1)
unfolding silences deaths check_peer
reports_come = (refl, refl)

long_ago : node.death ≤ (200000000040 - 40) / node.interval
unfolding new_node
long_ago = omega arith

-- Nothing but a check after the heartbeat.
run-detects_example :
    (st : PeerState) × (lookup is_heartbeat.peer_id
        (check_peers 200000000040 (check_peers 70 (handle_packet wire 40 node packet)).0).0.states
      ≡ some st)
    × (st.status ≡ presumed_compromised)
run-detects_example =
    run-detects wire 40 200000000040 node (check_peers 70 (handle_packet wire 40 node packet)).0
      packet is_heartbeat (then_quiet_check 70 stays_quiet) long_ago

added : add_peer bob (alice ∷ []) ≡ ok (alice ∷ bob ∷ [])
unfolding add_peer clash bytes_eq
added = refl

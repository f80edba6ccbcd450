-- ===== src/Gossip/Packet.antt =====
-- `encodePacket` and `decodePacket`: a magic word, the length of the payload, the payload and a
-- signature.
use kiss_protocol.Base.{
  ℕ, ◌+◌, ◌==◌, not, Option, none, some, ◌∷◌, ◌++◌, Bytes, length, take, drop, replicate, ltb,
  if◌then◌else◌,
}
use kiss_protocol.Codec.BigEndian.{put_uint32, uint32}
use kiss_protocol.Store.Head.{signature_size}

-- "WITS"
abbrev pub packet_magic : ℕ
packet_magic = 1464423507

-- The buffer has room for a signature of 64 bytes, and starts as zeros.
unfoldable pub encode_packet : Bytes → Bytes → Bytes
unfolding put_uint32
encode_packet payload sig =
    put_uint32 packet_magic
    ++ (put_uint32 (length payload)
        ++ (payload ++ take signature_size (sig ++ replicate signature_size 0)))

-- The packet behind its two words.
abbrev pub split_payload : ℕ → Bytes → Option (Bytes × Bytes)
split_payload n rest =
    if n + signature_size == length rest then some (take n rest, drop n rest) else none

-- `none` is a packet that is too short, of another protocol, or of another length than it says.
unfoldable pub decode_packet : Bytes → Option (Bytes × Bytes)
unfolding uint32
decode_packet (a ∷ b ∷ c ∷ d ∷ e ∷ f ∷ g ∷ h ∷ rest) =
    if ltb (length rest) signature_size
    then none
    else if not (uint32 a b c d == packet_magic)
    then none
    else split_payload (uint32 e f g h) rest
decode_packet _ = none

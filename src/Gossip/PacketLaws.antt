-- ===== src/Gossip/PacketLaws.antt =====
-- Packets are read as they were written, and no two packets read alike.
use kiss_protocol.Base.{
  ℕ, ◌+◌, ◌^◌, ◌<◌, ◌≡◌, sym, ap, ap₂, ◌∙◌, some, [], ◌∷◌, ◌++◌, Bytes, AreBytes, length, take,
  drop, replicate, length-append, length-drop, length-take, take-append_left, drop-append_left,
  take-append-drop, arith,
}
use kiss_protocol.Codec.BigEndian.{put_uint32, uint32, uint32-put, put_uint32-uint32}
use kiss_protocol.Store.Head.{signature_size}
use kiss_protocol.Gossip.Packet.{packet_magic, encode_packet, decode_packet}

signature_kept :
    (sig : Bytes)
    → length sig ≡ signature_size
    → take signature_size (sig ++ replicate signature_size 0) ≡ sig
signature_kept sig h =
    ap (λ (n : ℕ). take n (sig ++ replicate signature_size 0)) (sym h)
    ∙ take-append_left sig (replicate signature_size 0)

-- What one side writes, the other reads.
pub decode_packet-encode_packet :
    (payload sig : Bytes)
    → length payload < 2 ^ 32
    → length sig ≡ signature_size
    → decode_packet (encode_packet payload sig) ≡ some (payload, sig)
unfolding decode_packet encode_packet put_uint32
decode_packet-encode_packet payload sig h h' =
    rw
      (
        signature_kept sig h',
        uint32-put (length payload) h,
        take-append_left payload sig,
        drop-append_left payload sig,
      )
      (ground (arith, length-append payload sig))

rebuilt :
    (a b c d e f g i : ℕ) (rest payload sig : Bytes)
    → AreBytes (a ∷ b ∷ c ∷ d ∷ e ∷ f ∷ g ∷ i ∷ rest)
    → uint32 e f g i + signature_size ≡ length rest
    → uint32 a b c d ≡ packet_magic
    → take (uint32 e f g i) rest ≡ payload
    → drop (uint32 e f g i) rest ≡ sig
    → encode_packet payload sig ≡ a ∷ b ∷ c ∷ d ∷ e ∷ f ∷ g ∷ i ∷ rest
unfolding encode_packet
rebuilt a b c d e f g i rest payload sig (ha, (hb, (hc, (hd, (he, (hf, (hg, (hi, hr)))))))) fits
      magic front back =
    let n = uint32 e f g i in
    let counted : length payload ≡ n =
      ap length (sym front) ∙ (length-take n rest ∙ ground arith) in
    let signed : length sig ≡ signature_size =
      ap length (sym back) ∙ omega (arith, length-drop n rest, fits) in
    let whole : payload ++ sig ≡ rest = ap₂ ◌++◌ (sym front) (sym back) ∙ take-append-drop n rest in
    let magic_bytes : put_uint32 packet_magic ≡ a ∷ b ∷ c ∷ d ∷ [] =
      ap put_uint32 (sym magic) ∙ put_uint32-uint32 a b c d ha hb hc hd in
    let length_bytes : put_uint32 n ≡ e ∷ f ∷ g ∷ i ∷ [] = put_uint32-uint32 e f g i he hf hg hi in
    rw (signature_kept sig signed, whole, counted)
      (ap₂ (λ (x : Bytes) (y : Bytes). x ++ (y ++ rest)) magic_bytes length_bytes)

-- A packet that is read is the one that its payload and signature are written as.
pub encode_packet-decode_packet :
    (packet payload sig : Bytes)
    → AreBytes packet
    → decode_packet packet ≡ some (payload, sig)
    → encode_packet payload sig ≡ packet
unfolding decode_packet
encode_packet-decode_packet (a ∷ b ∷ c ∷ d ∷ e ∷ f ∷ g ∷ i ∷ rest) payload sig bytes h =
    let n = uint32 e f g i in
    let fits : n + signature_size ≡ length rest = ground arith in
    let magic : uint32 a b c d ≡ packet_magic = ground arith in
    let front : take n rest ≡ payload = ground arith in
    let back : drop n rest ≡ sig = ground arith in
    rebuilt a b c d e f g i rest payload sig bytes fits magic front back
encode_packet-decode_packet [] payload sig bytes h = cc
encode_packet-decode_packet (a ∷ []) payload sig bytes h = cc
encode_packet-decode_packet (a ∷ b ∷ []) payload sig bytes h = cc
encode_packet-decode_packet (a ∷ b ∷ c ∷ []) payload sig bytes h = cc
encode_packet-decode_packet (a ∷ b ∷ c ∷ d ∷ []) payload sig bytes h = cc
encode_packet-decode_packet (a ∷ b ∷ c ∷ d ∷ e ∷ []) payload sig bytes h = cc
encode_packet-decode_packet (a ∷ b ∷ c ∷ d ∷ e ∷ f ∷ []) payload sig bytes h = cc
encode_packet-decode_packet (a ∷ b ∷ c ∷ d ∷ e ∷ f ∷ g ∷ []) payload sig bytes h = cc

-- ===== src/Codec/BigEndian.antt =====
-- encoding/binary: unsigned words of 4 and 8 bytes, most significant byte first.
use kiss_protocol.Base.{ℕ, ◌+◌, ◌*◌, ◌/◌, ◌%◌, ◌^◌, ◌<◌, ◌≡◌, refl, [], ◌∷◌, Bytes, arith}

abbrev byte : ℕ → ℕ
byte n = n % 256

-- `binary.BigEndian.PutUint32`
unfoldable pub put_uint32 : ℕ → Bytes
put_uint32 n = byte (n / 2 ^ 24) ∷ byte (n / 2 ^ 16) ∷ byte (n / 2 ^ 8) ∷ byte n ∷ []

-- `binary.BigEndian.Uint32` of the first four bytes
unfoldable pub uint32 : ℕ → ℕ → ℕ → ℕ → ℕ
uint32 a b c d = a * 2 ^ 24 + b * 2 ^ 16 + c * 2 ^ 8 + d

-- `binary.BigEndian.PutUint64`
unfoldable pub put_uint64 : ℕ → Bytes
put_uint64 n =
    byte (n / 2 ^ 56)
    ∷ byte (n / 2 ^ 48)
    ∷ byte (n / 2 ^ 40)
    ∷ byte (n / 2 ^ 32)
    ∷ byte (n / 2 ^ 24)
    ∷ byte (n / 2 ^ 16)
    ∷ byte (n / 2 ^ 8)
    ∷ byte n
    ∷ []

pub uint32-put :
    (n : ℕ)
    → n < 2 ^ 32
    → uint32 (byte (n / 2 ^ 24)) (byte (n / 2 ^ 16)) (byte (n / 2 ^ 8)) (byte n) ≡ n
unfolding uint32
uint32-put n h = omega arith

-- The other way round, for four bytes.
pub put_uint32-uint32 :
    (a b c d : ℕ)
    → a < 256
    → b < 256
    → c < 256
    → d < 256
    → put_uint32 (uint32 a b c d) ≡ a ∷ b ∷ c ∷ d ∷ []
unfolding put_uint32 uint32
put_uint32-uint32 a b c d ha hb hc hd =
    let first : byte ((a * 2 ^ 24 + b * 2 ^ 16 + c * 2 ^ 8 + d) / 2 ^ 24) ≡ a = omega arith in
    let second : byte ((a * 2 ^ 24 + b * 2 ^ 16 + c * 2 ^ 8 + d) / 2 ^ 16) ≡ b = omega arith in
    let third : byte ((a * 2 ^ 24 + b * 2 ^ 16 + c * 2 ^ 8 + d) / 2 ^ 8) ≡ c = omega arith in
    let fourth : byte (a * 2 ^ 24 + b * 2 ^ 16 + c * 2 ^ 8 + d) ≡ d = omega arith in
    rw (first, second, third, fourth) refl

-- ===== src/Codec/Hex.antt =====
-- encoding/hex: `EncodeToString` writes lower case, `DecodeString` reads both cases and wants an even
-- number of digits.
use kiss_protocol.Base.{
  ℕ, ◌+◌, ◌-◌, ◌*◌, ◌/◌, ◌%◌, ◌<◌, ◌≡◌, refl, ◌&&◌, Option, none, some, [], ◌∷◌, Bytes, AreBytes,
  length, Option-cases, inl, inr, subst, arith, ltb, leb, if◌then◌else◌,
}

hex_digit : ℕ → ℕ
hex_digit n = if ltb n 10 then b'0' + n else b'a' + (n - 10)

unfoldable pub encode : Bytes → Bytes
unfolding hex_digit
encode [] = []
encode (x ∷ xs) = hex_digit (x / 16) ∷ hex_digit (x % 16) ∷ encode xs

from_digit : ℕ → Option ℕ
from_digit c =
    if leb b'0' c && leb c b'9'
    then some (c - b'0')
    else if leb b'a' c && leb c b'f'
    then some (c - b'a' + 10)
    else if leb b'A' c && leb c b'F'
    then some (c - b'A' + 10)
    else none

abbrev join : Option ℕ → Option ℕ → Option Bytes → Option Bytes
join (some high) (some low) (some rest) = some ((high * 16 + low) ∷ rest)
join _ _ _ = none

unfoldable pub decode : Bytes → Option Bytes
unfolding from_digit
decode [] = some []
decode (c ∷ []) = none
decode (c ∷ d ∷ cs) = join (from_digit c) (from_digit d) (decode cs)

abbrev join_digits : Option ℕ → Option ℕ → Bytes → Bytes
join_digits (some high) (some low) rest = (high * 16 + low) ∷ rest
join_digits _ _ rest = []

-- The bytes that `DecodeString` returns beside an error: those before the first wrong digit.
unfoldable pub decode_prefix : Bytes → Bytes
unfolding from_digit
decode_prefix [] = []
decode_prefix (c ∷ []) = []
decode_prefix (c ∷ d ∷ cs) = join_digits (from_digit c) (from_digit d) (decode_prefix cs)

from_digit-hex_digit : (n : ℕ) → n < 16 → from_digit (hex_digit n) ≡ some n
unfolding from_digit hex_digit
from_digit-hex_digit n h = ground arith

-- What is written is read back.
pub decode-encode : (xs : Bytes) → AreBytes xs → decode (encode xs) ≡ some xs
unfolding encode decode
decode-encode [] h = refl
decode-encode (x ∷ xs) h =
    let high = from_digit-hex_digit (x / 16) (omega (arith, h.0)) in
    let low = from_digit-hex_digit (x % 16) (omega arith) in
    rw (high, low, decode-encode xs h.1) (cc (bytes_of_nibbles x))
  where
    bytes_of_nibbles : (y : ℕ) → y / 16 * 16 + y % 16 ≡ y
    bytes_of_nibbles y = omega arith

pub length-encode : (xs : Bytes) → length (encode xs) ≡ 2 * length xs
unfolding encode
length-encode [] = refl
length-encode (x ∷ xs) = omega (arith, length-encode xs)

-- Two byte strings with one hexadecimal text are the same.
pub encode-injective : (xs ys : Bytes) → AreBytes xs → AreBytes ys → encode xs ≡ encode ys → xs ≡ ys
encode-injective xs ys hx hy e = ground (arith, decode-encode xs hx, decode-encode ys hy)

from_digit-bound : (c n : ℕ) → from_digit c ≡ some n → n < 16
unfolding from_digit
from_digit-bound c n h = ground arith

-- What is read from digits is bytes.
pub decode-AreBytes : (text xs : Bytes) → decode text ≡ some xs → AreBytes xs
unfolding decode
decode-AreBytes [] xs h = let same : [] ≡ xs = cc in subst AreBytes same tt
decode-AreBytes (c ∷ []) xs h = cc
decode-AreBytes (c ∷ d ∷ cs) xs h = elim (Option-cases (from_digit c)) [
  | inl missing ↦ absurd (ground (arith, rw missing at h))
  | inr (high, eh) ↦ elim (Option-cases (from_digit d)) [
    | inl missing ↦ absurd (ground arith)
    | inr (low, el) ↦ elim (Option-cases (decode cs)) [
      | inl missing ↦ absurd (ground arith)
      | inr (rest, er) ↦
          let same : (high * 16 + low) ∷ rest ≡ xs = ground arith in
          subst AreBytes same (
            omega (arith, from_digit-bound c high eh, from_digit-bound d low el),
            decode-AreBytes cs rest er,
          )
    ]
  ]
]

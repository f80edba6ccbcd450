-- ===== src/Encrypt.antt =====
-- internal/encrypt: AES-256-GCM with the nonce in front of the ciphertext. The cipher itself is a
-- parameter.
use kiss_protocol.Base.{
  ℕ, Bool, ◌||◌, Option, none, some, ◌++◌, Bytes, length, take, drop, ltb, ◌==◌, if◌then◌else◌,
}

-- AES-GCM under a key: `seal key nonce plain` is the ciphertext with its tag.
pub record Gcm : Type 0 where
  pub seal : Bytes → Bytes → Bytes → Bytes
  pub open_sealed : Bytes → Bytes → Bytes → Option Bytes

abbrev pub nonce_size : ℕ
nonce_size = 12

-- `aes.NewCipher` takes keys of 16, 24 and 32 bytes.
abbrev pub is_aes_key : Bytes → Bool
is_aes_key key = length key == 16 || length key == 24 || length key == 32

module _ (gcm : Gcm) where
  -- `Seal`, with the nonce that it draws.
  unfoldable pub seal : Bytes → Bytes → Bytes → Option Bytes
  seal nonce plaintext key =
      if is_aes_key key then some (nonce ++ gcm.seal key nonce plaintext) else none

  -- `Open`
  unfoldable pub open_box : Bytes → Bytes → Option Bytes
  open_box ciphertext key =
      if is_aes_key key
      then if ltb (length ciphertext) nonce_size
        then none
        else gcm.open_sealed key (take nonce_size ciphertext) (drop nonce_size ciphertext)
      else none

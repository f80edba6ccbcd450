-- ===== src/Store/Head.antt =====
-- `checkTreeHead` and `verifyTreeHead`: the stored head against a list of leaves.
use Prim.Native.Nat.{bit_or, bit_xor}
use kiss_protocol.Base.{
  ℕ, ◌==◌, ◌||◌, ◌&&◌, not, Bool, true, false, Option, none, some, List, [], ◌∷◌, ◌++◌, Bytes,
  bytes_eq, length, if◌then◌else◌, Result, ok, err, ◌>>=◌, ◌>>◌, refuse_if, or_fail,
}
use kiss_protocol.Codec.Hex.{decode}
use kiss_protocol.Codec.BigEndian.{put_uint64}
use kiss_protocol.Merkle.Tree.{root, hash_leaf}
use kiss_protocol.Store.Types.{Entry, TreeHead, Signer, Host}

pub data HeadError : Type 0 where
  malformed_root root_mismatch size_mismatch malformed_mac mac_failed : HeadError
  head_not_signed malformed_signature malformed_signer_key : HeadError
  unexpected_signer signature_failed : HeadError
  missing_tree_head unparseable_head : HeadError

abbrev pub public_key_size : ℕ
public_key_size = 32

abbrev pub signature_size : ℕ
signature_size = 64

unfoldable pub tree_head_sig_input : ℕ → Bytes → Bytes
unfolding put_uint64
tree_head_sig_input size digest = put_uint64 size ++ digest

-- The loop of `macEqual`, for two strings of one length.
unfoldable pub mac_diff : ℕ → Bytes → Bytes → ℕ
mac_diff diff (x ∷ xs) (y ∷ ys) = mac_diff (bit_or diff (bit_xor x y)) xs ys
mac_diff diff _ _ = diff

unfoldable pub mac_equal : Bytes → Bytes → Bool
unfolding mac_diff
mac_equal xs ys = if length xs == length ys then mac_diff 0 xs ys == 0 else false

unfoldable pub key_listed : Bytes → List Bytes → Bool
key_listed pub_key [] = false
key_listed pub_key (k ∷ ks) = bytes_eq pub_key k || key_listed pub_key ks

-- `keyAccepted`; a nil own key is the empty string.
unfoldable pub key_accepted : Bytes → Bytes → List Bytes → Bool
unfolding key_listed
key_accepted pub_key own trusted = bytes_eq pub_key own || key_listed pub_key trusted

abbrev pub is_empty {ℓ} : {A : Type ℓ} → List A → Bool
is_empty [] = true
is_empty (_ ∷ _) = false

-- A hexadecimal field that must hold `n` bytes.
unfoldable pub decode_sized : ℕ → Bytes → Option Bytes
decode_sized n text = elim (decode text) [
  | none ↦ none
  | some bytes ↦ if length bytes == n then some bytes else none
]

abbrev pub refused_by : Option Signer → Bytes → List Bytes → Bool
refused_by none pub_key trusted = false
refused_by (some s) pub_key trusted = not (key_accepted pub_key s.public_key trusted)

module _ (host : Host) where
  unfoldable pub compute_mac : Bytes → ℕ → Bytes → Bytes
  unfolding tree_head_sig_input
  compute_mac key size digest = host.blake3_keyed key (tree_head_sig_input size digest)

  unfoldable pub leaf_hash : Entry → Bytes
  leaf_hash e = hash_leaf host.blake3 (host.marshal_entry e)

  module _ (key : Bytes) (signer : Option Signer) (trusted pinned : List Bytes) where
    -- The ed25519 part of `checkTreeHead`, over a head that carries a signature.
    unfoldable pub check_signature : TreeHead → ℕ → Bytes → Result HeadError (Unit {0})
    check_signature head size digest = do
      raw_sig ← or_fail (decode_sized signature_size head.signature) malformed_signature
      pub_key ← or_fail (decode_sized public_key_size head.signer_key) malformed_signer_key
      refuse_if (not (is_empty pinned) && not (key_accepted pub_key [] pinned)) unexpected_signer
      refuse_if (refused_by signer pub_key trusted) unexpected_signer
      refuse_if (not (host.ed25519_verify pub_key (tree_head_sig_input size digest) raw_sig))
          signature_failed

    unfoldable pub check_tree_head : TreeHead → List Bytes → Result HeadError (Unit {0})
    unfolding check_signature
    check_tree_head head leaves = do
      let digest = root host.blake3 leaves
      stored_root ← or_fail (decode_sized 32 head.root) malformed_root
      refuse_if (not (bytes_eq digest stored_root)) root_mismatch
      refuse_if (not (head.size == length leaves)) size_mismatch
      stored_mac ← or_fail (decode_sized 32 head.mac) malformed_mac
      refuse_if (not (mac_equal (compute_mac key (length leaves) digest) stored_mac)) mac_failed
      refuse_if (not (is_empty pinned) && is_empty head.signature) head_not_signed
      if is_empty head.signature then ok tt else check_signature head (length leaves) digest

    -- `none` is a tree-head.json that does not exist.
    unfoldable pub verify_tree_head : Option Bytes → List Bytes → Result HeadError (Unit {0})
    unfolding check_tree_head
    verify_tree_head none [] = if is_empty pinned then ok tt else err head_not_signed
    verify_tree_head none (leaf ∷ leaves) = err missing_tree_head
    verify_tree_head (some file) leaves = do
      head ← or_fail (host.unmarshal_head file) unparseable_head
      check_tree_head head leaves

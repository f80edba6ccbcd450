-- ===== src/Store/Written.antt =====
-- The head that `writeTreeHead` puts on disk passes `checkTreeHead` for the leaves it was made from.
use kiss_protocol.Base.{
  ℕ, zero, suc, ◌≤◌, ◌≡◌, refl, subst, inl, inr, true, false, Option, none, some, List, [], ◌∷◌,
  Bytes, AreBytes, bytes_eq_refl, length, All, arith, Option-cases,
}
use kiss_protocol.Codec.Hex.{encode, decode-encode, length-encode}
use kiss_protocol.Merkle.Tree.{root, root_of, subtree_root, hash_node}
use kiss_protocol.Merkle.NodeHash.{IsDigest}
use kiss_protocol.Store.Types.{TreeHead, Signer, Host, Disk}
use kiss_protocol.Store.Head.{
  is_empty, decode_sized, signature_size, public_key_size, compute_mac, tree_head_sig_input,
  key_accepted,
}
use kiss_protocol.Store.HeadLaws.{IsSigned, IsAuthentic}
use kiss_protocol.Store.Appending.{Surroundings, unsigned_tree_head, sign_head}

-- A `[32]byte` whose entries are bytes, which is what a hash returns.
abbrev pub IsHash : Bytes → Type 0
IsHash d = IsDigest d × AreBytes d

-- An ed25519 signer: keys of 32 bytes, and signatures of 64 bytes that verify.
pub record IsSound (host : Host) (s : Signer) : Type 0 where
  pub key_length : length s.public_key ≡ public_key_size
  pub key_bytes : AreBytes s.public_key
  pub signature_length : (m sig : Bytes) → s.sign m ≡ some sig → length sig ≡ signature_size
  pub signature_bytes : (m sig : Bytes) → s.sign m ≡ some sig → AreBytes sig
  pub verifies :
      (m sig : Bytes) → s.sign m ≡ some sig → host.ed25519_verify s.public_key m sig ≡ true

abbrev pub SignerIsSound : Host → Option Signer → Type 0
SignerIsSound host none = Unit
SignerIsSound host (some s) = IsSound host s

pub decode_sized-encode :
    (n : ℕ) (xs : Bytes) → length xs ≡ n → AreBytes xs → decode_sized n (encode xs) ≡ some xs
unfolding decode_sized
decode_sized-encode n xs h b = rw (decode-encode xs b, decode_sized) (ground arith)

not_empty : (xs : Bytes) → 1 ≤ length xs → is_empty xs ≡ false
not_empty [] h = absurd (omega arith)
not_empty (x ∷ xs) h = refl

module _ (blake3 : Bytes → Bytes) (hashes : (x : Bytes) → IsHash (blake3 x)) where
  root_of-IsHash :
      (b : ℕ) (leaves : List Bytes) → All IsHash leaves → IsHash (root_of blake3 b leaves)
  unfolding root_of hash_node
  root_of-IsHash b [] h = (refl, omega arith)
  root_of-IsHash b (x ∷ []) h = h.0
  root_of-IsHash zero (x ∷ y ∷ xs) h = (refl, omega arith)
  root_of-IsHash (suc b) (x ∷ y ∷ xs) h = hashes _

  pub root-IsHash : (leaves : List Bytes) → All IsHash leaves → IsHash (root blake3 leaves)
  unfolding root subtree_root
  root-IsHash leaves h = root_of-IsHash (length leaves) leaves h

module _ (host : Host) (world : Surroundings) (key : Bytes) (trusted : List Bytes) where
  module _ (disk : Disk) (leaves : List Bytes) (hr : IsHash (root host.blake3 leaves))
      (hm : IsHash (compute_mac host key (length leaves) (root host.blake3 leaves))) where
    bare-IsAuthentic :
        IsAuthentic host key none trusted [] (unsigned_tree_head host world key disk leaves) leaves
    unfolding unsigned_tree_head
    bare-IsAuthentic = record {
      root_matches = decode_sized-encode 32 (root host.blake3 leaves) hr.0 hr.1;
      size_matches = refl;
      mac_matches =
          decode_sized-encode 32 (compute_mac host key (length leaves) (root host.blake3 leaves))
            hm.0 hm.1;
      signature = inl (refl, refl);
    }

    sign_head-IsSigned :
        (s : Signer) (sig : Bytes)
        → IsSound host s
        → s.sign (tree_head_sig_input (length leaves) (root host.blake3 leaves)) ≡ some sig
        → IsSigned host key
            (some s)
            trusted
            []
            (record (unsigned_tree_head host world key disk leaves) {
              signature = encode sig;
              signer_key = encode s.public_key;
            })
            (length leaves)
            (root host.blake3 leaves)
    unfolding key_accepted
    sign_head-IsSigned s sig sound e = record {
      signer_bytes = s.public_key;
      signature_bytes = sig;
      key_decodes = decode_sized-encode 32 s.public_key sound.key_length sound.key_bytes;
      signature_decodes =
          decode_sized-encode 64 sig (sound.signature_length _ sig e)
            (sound.signature_bytes _ sig e);
      verifies = sound.verifies _ sig e;
      pinned_key = inl refl;
      own_or_trusted = rw (bytes_eq_refl s.public_key) refl;
    }

    signed-IsAuthentic :
        (s : Signer) (sig : Bytes)
        → IsSound host s
        → s.sign (tree_head_sig_input (length leaves) (root host.blake3 leaves)) ≡ some sig
        → IsAuthentic host key
            (some s)
            trusted
            []
            (record (unsigned_tree_head host world key disk leaves) {
              signature = encode sig;
              signer_key = encode s.public_key;
            })
            leaves
    unfolding unsigned_tree_head
    signed-IsAuthentic s sig sound e = record {
      root_matches = decode_sized-encode 32 (root host.blake3 leaves) hr.0 hr.1;
      size_matches = refl;
      mac_matches =
          decode_sized-encode 32 (compute_mac host key (length leaves) (root host.blake3 leaves))
            hm.0 hm.1;
      signature = inr (
        not_empty (encode sig) (omega (arith, length-encode sig, sound.signature_length _ sig e)),
        sign_head-IsSigned s sig sound e,
      );
    }

    pub sign_head-IsAuthentic :
        (signer : Option Signer) (signed : TreeHead)
        → SignerIsSound host signer
        → sign_head host world signer
            (unsigned_tree_head host world key disk leaves)
            (root host.blake3 leaves)
          ≡ some signed
        → IsAuthentic host key signer trusted [] signed leaves
    unfolding sign_head unsigned_tree_head
    sign_head-IsAuthentic none signed sound e =
        let same : unsigned_tree_head host world key disk leaves ≡ signed = cc in
        subst (λ h. IsAuthentic host key none trusted [] h leaves) same bare-IsAuthentic
    sign_head-IsAuthentic (some s) signed sound e =
        elim (Option-cases
          (s.sign (tree_head_sig_input (length leaves) (root host.blake3 leaves)))) [
            | inl failed ↦ absurd (ground arith)
            | inr (sig, es) ↦
                let same : record (unsigned_tree_head host world key disk leaves) {
                  signature = encode sig;
                  signer_key = encode s.public_key;
                }
                    ≡ signed =
                  ground arith in
                subst (λ h. IsAuthentic host key (some s) trusted [] h leaves) same
                  (signed-IsAuthentic s sig sound es)
          ]

-- ===== src/Store/HeadLaws.antt =====
-- What a head that passes `checkTreeHead` establishes.
use Prim.Native.Nat.{bit_or, bit_xor}
use kiss_protocol.Base.{
  ℕ, ◌≤◌, ◌≡◌, ◌↔◌, ◌⊎◌, inl, inr, refl, sym, ap, ap₂, ◌∙◌, true, false, Option, some, List, [],
  ◌∷◌, Bytes, bytes_eq, bytes_eq_sound, bytes_eq_refl, length, All, ok, arith, Option-cases,
  Bool-cases,
}
use kiss_protocol.Codec.Bits.{bit_or-zero, bit_xor-zero, bit_xor_self}
use kiss_protocol.Merkle.Tree.{root}
use kiss_protocol.Merkle.Root.{max_leaves}
use kiss_protocol.Merkle.NodeHash.{IsDigest, Bound}
use kiss_protocol.Merkle.Logs.{root-bound}
use kiss_protocol.Store.Types.{TreeHead, Signer, Host}
use kiss_protocol.Store.Head.{
  mac_diff, mac_equal, key_listed, key_accepted, is_empty, decode_sized, signature_size,
  public_key_size, refused_by, compute_mac, tree_head_sig_input, check_signature, check_tree_head,
}

mac_diff-zero :
    (diff : ℕ) (xs ys : Bytes)
    → length xs ≡ length ys
    → mac_diff diff xs ys ≡ 0
    → (diff ≡ 0) × (xs ≡ ys)
unfolding mac_diff
mac_diff-zero diff [] [] h e = (e, refl)
mac_diff-zero diff [] (y ∷ ys) h e = absurd (omega arith)
mac_diff-zero diff (x ∷ xs) [] h e = absurd (omega arith)
mac_diff-zero diff (x ∷ xs) (y ∷ ys) h e =
    let (so_far, rest) = mac_diff-zero (bit_or diff (bit_xor x y)) xs ys (omega arith) e in
    let (before, here) = bit_or-zero diff (bit_xor x y) so_far in
    (before, ap₂ ◌∷◌ (bit_xor-zero x y here) rest)

mac_diff_self : (xs : Bytes) → mac_diff 0 xs xs ≡ 0
unfolding mac_diff
mac_diff_self [] = refl
mac_diff_self (x ∷ xs) = rw (bit_xor_self x) (mac_diff_self xs)

-- The comparison that looks at every byte agrees with equality of the byte strings.
pub mac_equal_iff : (xs ys : Bytes) → (mac_equal xs ys ≡ true) ↔ (xs ≡ ys)
unfolding mac_equal
mac_equal_iff xs ys = (
  (λ e. (mac_diff-zero 0 xs ys (ground arith) (ground arith)).1),
  (λ e. rw e (ground (arith, mac_diff_self ys))),
)

-- A key that a list of keys holds.
pub data Listed (k : Bytes) : List Bytes → Type 0 where
  here : {ks : List Bytes} → Listed k (k ∷ ks)
  there : {j : Bytes} {ks : List Bytes} → Listed k ks → Listed k (j ∷ ks)

pub key_listed-Listed : (k : Bytes) (ks : List Bytes) → key_listed k ks ≡ true → Listed k ks
unfolding key_listed
key_listed-Listed k [] e = cc
key_listed-Listed k (j ∷ ks) e = elim (Bool-cases (bytes_eq k j)) [
  | inl same ↦ rw (bytes_eq_sound k j same) here
  | inr other ↦ there (key_listed-Listed k ks (rw other at e))
]

pub Listed-key_listed : (k : Bytes) (ks : List Bytes) → Listed k ks → key_listed k ks ≡ true
unfolding key_listed
Listed-key_listed k [] m = elim m [ ]
Listed-key_listed k (j ∷ ks) here = rw (bytes_eq_refl j)
Listed-key_listed k (j ∷ ks) (there m) = ground (arith, Listed-key_listed k ks m)

module _ (host : Host) (key : Bytes) (signer : Option Signer) (trusted pinned : List Bytes) where
  -- The evidence behind an accepted signature.
  pub record IsSigned (head : TreeHead) (size : ℕ) (digest : Bytes) : Type 0 where
    pub signer_bytes : Bytes
    pub signature_bytes : Bytes
    pub key_decodes : decode_sized public_key_size head.signer_key ≡ some signer_bytes
    pub signature_decodes : decode_sized signature_size head.signature ≡ some signature_bytes
    pub verifies :
        host.ed25519_verify signer_bytes (tree_head_sig_input size digest) signature_bytes ≡ true
    pub pinned_key : (is_empty pinned ≡ true) ⊎ (key_accepted signer_bytes [] pinned ≡ true)
    pub own_or_trusted : refused_by signer signer_bytes trusted ≡ false

  check_signature-IsSigned :
      (head : TreeHead) (size : ℕ) (digest : Bytes)
      → check_signature host key signer trusted pinned head size digest ≡ ok tt
      → IsSigned head size digest
  unfolding check_signature
  check_signature-IsSigned head size digest e =
      elim (Option-cases (decode_sized signature_size head.signature)) [
        | inl missing ↦ absurd (ground arith)
        | inr (sig, es) ↦ elim (Option-cases (decode_sized public_key_size head.signer_key)) [
          | inl missing ↦ absurd (ground arith)
          | inr (pub_key, ek) ↦ record {
            signer_bytes = pub_key;
            signature_bytes = sig;
            key_decodes = ek;
            signature_decodes = es;
            verifies = ground arith;
            pinned_key = ground arith;
            own_or_trusted = ground arith;
          }
        ]
      ]

  IsSigned-check_signature :
      (head : TreeHead) (size : ℕ) (digest : Bytes)
      → IsSigned head size digest
      → check_signature host key signer trusted pinned head size digest ≡ ok tt
  unfolding check_signature
  IsSigned-check_signature head size digest v =
      rw (v.key_decodes, v.signature_decodes, v.verifies, v.own_or_trusted)
        (ground (arith, v.pinned_key))

  -- What an accepted head says of the leaves: their root and number under the machine's MAC, and a
  -- signature by an acceptable key, which only an unpinned head may lack.
  pub record IsAuthentic (head : TreeHead) (leaves : List Bytes) : Type 0 where
    pub root_matches : decode_sized 32 head.root ≡ some (root host.blake3 leaves)
    pub size_matches : head.size ≡ length leaves
    pub mac_matches :
        decode_sized 32 head.mac
        ≡ some (compute_mac host key (length leaves) (root host.blake3 leaves))
    pub signature :
        ((is_empty head.signature ≡ true) × (is_empty pinned ≡ true))
        ⊎ ((is_empty head.signature ≡ false)
            × IsSigned head (length leaves) (root host.blake3 leaves))

  check_tree_head-IsAuthentic :
      (head : TreeHead) (leaves : List Bytes)
      → check_tree_head host key signer trusted pinned head leaves ≡ ok tt
      → IsAuthentic head leaves
  unfolding check_tree_head
  check_tree_head-IsAuthentic head leaves e =
      let digest = root host.blake3 leaves in
      let mac = compute_mac host key (length leaves) digest in
      elim (Option-cases (decode_sized 32 head.root)) [
        | inl missing ↦ absurd (ground arith)
        | inr (stored_root, er) ↦ elim (Option-cases (decode_sized 32 head.mac)) [
          | inl missing ↦ absurd (ground arith)
          | inr (stored_mac, em) ↦ record {
            root_matches = er ∙ ap some (sym (bytes_eq_sound digest stored_root (ground arith)));
            size_matches = ground arith;
            mac_matches = em ∙ ap some (sym ((mac_equal_iff mac stored_mac).0 (ground arith)));
            signature = elim (Bool-cases (is_empty head.signature)) [
              | inl bare ↦ inl (bare, ground arith)
              | inr signed ↦
                  inr (signed, check_signature-IsSigned head (length leaves) digest (ground arith))
            ];
          }
        ]
      ]

  IsAuthentic-check_tree_head :
      (head : TreeHead) (leaves : List Bytes)
      → IsAuthentic head leaves
      → check_tree_head host key signer trusted pinned head leaves ≡ ok tt
  unfolding check_tree_head
  IsAuthentic-check_tree_head head leaves v =
      let digest = root host.blake3 leaves in
      let mac = compute_mac host key (length leaves) digest in
      rw (v.root_matches, v.mac_matches, bytes_eq_refl digest, (mac_equal_iff mac mac).1 refl)
        (elim v.signature [
          | inl (bare, open_pins) ↦ ground arith
          | inr (signed, evidence) ↦
              ground (arith, IsSigned-check_signature head (length leaves) digest evidence)
        ])

  -- `checkTreeHead` accepts exactly the authentic heads.
  pub check_tree_head_iff :
      (head : TreeHead) (leaves : List Bytes)
      → (check_tree_head host key signer trusted pinned head leaves ≡ ok tt)
        ↔ IsAuthentic head leaves
  check_tree_head_iff head leaves =
      (check_tree_head-IsAuthentic head leaves, IsAuthentic-check_tree_head head leaves)

  -- One head accepted for two lists of leaf hashes: they are the same list, or BLAKE3 has collided.
  pub check_tree_head-bound :
      ((x : Bytes) → IsDigest (host.blake3 x))
      → (head : TreeHead) (xs ys : List Bytes) → All IsDigest xs
      → All IsDigest ys
      → length xs ≤ max_leaves
      → check_tree_head host key signer trusted pinned head xs ≡ ok tt
      → check_tree_head host key signer trusted pinned head ys ≡ ok tt
      → Bound host.blake3 (xs ≡ ys)
  check_tree_head-bound digests head xs ys hx hy m ex ey =
      let x = check_tree_head-IsAuthentic head xs ex in
      let y = check_tree_head-IsAuthentic head ys ey in
      root-bound host.blake3 digests xs ys (sym x.size_matches ∙ y.size_matches) m hx hy
        (some_path (sym x.root_matches ∙ y.root_matches))
    where
      some_path : {a b : Bytes} → ◌≡◌ {A = Option Bytes} (some a) (some b) → a ≡ b
      some_path e = cc

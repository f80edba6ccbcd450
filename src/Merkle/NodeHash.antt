-- ===== src/Merkle/NodeHash.antt =====
-- Equal node hashes have equal children, or are hashes of two different inputs.
use kiss_protocol.Base.{
  ℕ, zero, suc, ◌≡◌, ◌≢◌, refl, sym, ◌∙◌, ◌⊎◌, inl, inr, List, [], ◌∷◌, ◌++◌, Bytes, bytes_eq,
  bytes_eq_iff, length, take, drop, All, append-cancel, Bool-cases,
}
use kiss_protocol.Merkle.Tree.{
  split, hash_node, node_prefix, digest_size, root_of, subtree_root, Collision,
}

-- A `[32]byte`.
abbrev pub IsDigest : Bytes → Type 0
IsDigest d = length d ≡ digest_size

-- A statement, or two inputs of one digest that refute collision resistance.
abbrev pub Bound : (Bytes → Bytes) → Type 0 → Type 0
Bound blake3 P = P ⊎ Collision blake3

pub and_then :
    (blake3 : Bytes → Bytes) {P Q : Type 0} → Bound blake3 P → (P → Bound blake3 Q) → Bound blake3 Q
and_then blake3 (inl p) f = f p
and_then blake3 (inr c) f = inr c

-- BLAKE3 with an output of 32 bytes.
module _ (blake3 : Bytes → Bytes) (blake3-IsDigest : (x : Bytes) → IsDigest (blake3 x)) where
  -- Two nodes of one hash have the same children, or are different inputs.
  pub hash_node-cases :
      (l r l' r' : Bytes)
      → IsDigest l
      → IsDigest l'
      → hash_node blake3 l r ≡ hash_node blake3 l' r'
      → ((l ≡ l') × (r ≡ r'))
        ⊎ ((node_prefix ∷ l ++ r ≢ node_prefix ∷ l' ++ r')
            × (blake3 (node_prefix ∷ l ++ r) ≡ blake3 (node_prefix ∷ l' ++ r')))
  unfolding hash_node
  hash_node-cases l r l' r' h h' e =
      let x = node_prefix ∷ l ++ r in
      let y = node_prefix ∷ l' ++ r' in
      elim (Bool-cases (bytes_eq x y)) [
        | inl same ↦ inl (append-cancel l r l' r' (h ∙ sym h') (cc ((bytes_eq_iff x y).0 same)))
        | inr other ↦ inr ((λ p. cc ((bytes_eq_iff x y).1 p)), e)
      ]

  pub hash_node-bound :
      (l r l' r' : Bytes)
      → IsDigest l
      → IsDigest l'
      → hash_node blake3 l r ≡ hash_node blake3 l' r'
      → Bound blake3 ((l ≡ l') × (r ≡ r'))
  hash_node-bound l r l' r' h h' e = elim (hash_node-cases l r l' r' h h' e) [
    | inl same ↦ inl same
    | inr (differs, collides) ↦
        inr (node_prefix ∷ l ++ r, node_prefix ∷ l' ++ r', differs, collides)
  ]

  pub hash_node-IsDigest : (l r : Bytes) → IsDigest (hash_node blake3 l r)
  unfolding hash_node
  hash_node-IsDigest l r = blake3-IsDigest (node_prefix ∷ l ++ r)

  root_of-IsDigest :
      (b : ℕ) (leaves : List Bytes) → All IsDigest leaves → IsDigest (root_of blake3 b leaves)
  unfolding root_of
  root_of-IsDigest b [] h = refl
  root_of-IsDigest b (x ∷ []) h = h.0
  root_of-IsDigest zero (x ∷ y ∷ xs) h = refl
  root_of-IsDigest (suc b) (x ∷ y ∷ xs) h =
      let all = x ∷ y ∷ xs in
      let k = split (length all) in
      hash_node-IsDigest (root_of blake3 b (take k all)) (root_of blake3 b (drop k all))

  pub subtree_root-IsDigest :
      (leaves : List Bytes) → All IsDigest leaves → IsDigest (subtree_root blake3 leaves)
  unfolding subtree_root
  subtree_root-IsDigest leaves h = root_of-IsDigest (length leaves) leaves h

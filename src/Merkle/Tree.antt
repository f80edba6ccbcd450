-- ===== src/Merkle/Tree.antt =====
-- internal/merkle/tree.go: leaf and node hashes, and the root of a slice of leaf hashes. BLAKE3 is a
-- parameter; a `[32]byte` is a byte string of length 32.
use mathlib.Core.Option
use kiss_protocol.Base.{
  ℕ, zero, suc, ◌≡◌, ◌≢◌, List, [], ◌∷◌, ◌++◌, Bytes, length, take, drop, replicate,
}
use kiss_protocol.Merkle.Split.{split_point}

abbrev pub digest_size : ℕ
digest_size = 32

abbrev pub leaf_prefix : ℕ
leaf_prefix = 0x00

abbrev pub node_prefix : ℕ
node_prefix = 0x01

-- The zero value of `[32]byte`.
abbrev pub zero_digest : Bytes
zero_digest = replicate digest_size 0

-- `splitPoint` at the length of a slice, which is far below the 2^62 where the loop stops returning.
unfoldable pub split : ℕ → ℕ
unfolding split_point
split n = Option.get_or (split_point n) 0

module _ (blake3 : Bytes → Bytes) where
  unfoldable pub hash_leaf : Bytes → Bytes
  hash_leaf bytes = blake3 (leaf_prefix ∷ bytes)

  unfoldable pub hash_node : Bytes → Bytes → Bytes
  hash_node left right = blake3 (node_prefix ∷ left ++ right)

  -- The recursion of `subtreeRoot`, on a bound on the number of leaves.
  unfoldable pub root_of : ℕ → List Bytes → Bytes
  unfolding hash_node
  root_of bound [] = zero_digest
  root_of bound (leaf ∷ []) = leaf
  root_of zero (a ∷ b ∷ leaves) = zero_digest
  root_of (suc bound) (a ∷ b ∷ leaves) =
      let all = a ∷ b ∷ leaves in
      let k = split (length all) in
      hash_node (root_of bound (take k all)) (root_of bound (drop k all))

  unfoldable pub subtree_root : List Bytes → Bytes
  unfolding root_of
  subtree_root leaves = root_of (length leaves) leaves

  unfoldable pub root : List Bytes → Bytes
  unfolding subtree_root
  root leaves = subtree_root leaves

-- Two different inputs with one digest.
abbrev pub Collision : (Bytes → Bytes) → Type 0
Collision blake3 = (x : Bytes) × (y : Bytes) × (x ≢ y) × (blake3 x ≡ blake3 y)

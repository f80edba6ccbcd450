-- ===== src/Merkle/Root.antt =====
-- The root by its defining equation, independent of the recursion's bound, and its length.
use kiss_protocol.Base.{
  ℕ, zero, suc, ◌^◌, ◌≤◌, ◌<◌, ◌≡◌, refl, List, [], ◌∷◌, Bytes, length, take, drop, length-take,
  length-drop, arith, ap₂, some,
}
use kiss_protocol.Merkle.Split.{split_point, IsSplit, split_point-IsSplit}
use kiss_protocol.Merkle.Tree.{split, hash_node, root_of, subtree_root}

-- The lengths that the program can meet.
abbrev pub max_leaves : ℕ
max_leaves = 2 ^ 62

pub split-IsSplit :
    (n : ℕ) → 2 ≤ n → n ≤ max_leaves → (split_point n ≡ some (split n)) × IsSplit n (split n)
unfolding split
split-IsSplit n h h' = let (k, e, v) = split_point-IsSplit n h h' in rw e (refl, v)

pub split-bounds : (n : ℕ) → 2 ≤ n → n ≤ max_leaves → (0 < split n) × (split n < n)
split-bounds n h h' = let (e, v) = split-IsSplit n h h' in omega (arith, v.below, v.at_least_half)

module _ (blake3 : Bytes → Bytes) where
  root_of-bound :
      (b c : ℕ) (leaves : List Bytes)
      → length leaves ≤ b
      → length leaves ≤ c
      → length leaves ≤ max_leaves
      → root_of blake3 b leaves ≡ root_of blake3 c leaves
  unfolding root_of
  root_of-bound b c [] h h' m = refl
  root_of-bound b c (x ∷ []) h h' m = refl
  root_of-bound zero c (x ∷ y ∷ xs) h h' m = absurd (omega arith)
  root_of-bound (suc b) zero (x ∷ y ∷ xs) h h' m = absurd (omega arith)
  root_of-bound (suc b) (suc c) (x ∷ y ∷ xs) h h' m =
      let all = x ∷ y ∷ xs in
      let k = split (length all) in
      let (low, high) = split-bounds (length all) (omega arith) m in
      let lt = length-take k all in
      let ld = length-drop k all in
      ap₂ (hash_node blake3)
        (root_of-bound b c (take k all) (omega arith) (omega arith) (omega arith))
        (root_of-bound b c (drop k all) (omega arith) (omega arith) (omega arith))

  subtree_root-step_length :
      (leaves : List Bytes)
      → 2 ≤ length leaves
      → length leaves ≤ max_leaves
      → subtree_root blake3 leaves
        ≡ hash_node blake3
            (subtree_root blake3 (take (split (length leaves)) leaves))
            (subtree_root blake3 (drop (split (length leaves)) leaves))
  unfolding subtree_root
  subtree_root-step_length [] h m = absurd (omega arith)
  subtree_root-step_length (x ∷ []) h m = absurd (omega arith)
  subtree_root-step_length (x ∷ y ∷ xs) h m =
      let all = x ∷ y ∷ xs in
      let k = split (length all) in
      let (low, high) = split-bounds (length all) (omega arith) m in
      let lt = length-take k all in
      let ld = length-drop k all in
      ap₂ (hash_node blake3)
        (root_of-bound (suc (length xs)) (length (take k all)) (take k all) (omega arith)
          (omega arith) (omega arith))
        (root_of-bound (suc (length xs)) (length (drop k all)) (drop k all) (omega arith)
          (omega arith) (omega arith))

  -- The root of two leaves or more hashes the roots of the two parts.
  pub subtree_root-step :
      (leaves : List Bytes) (n : ℕ)
      → n ≡ length leaves
      → 2 ≤ n
      → n ≤ max_leaves
      → subtree_root blake3 leaves
        ≡ hash_node blake3
            (subtree_root blake3 (take (split n) leaves))
            (subtree_root blake3 (drop (split n) leaves))
  subtree_root-step leaves n e h m =
      rw e (subtree_root-step_length leaves (omega arith) (omega arith))

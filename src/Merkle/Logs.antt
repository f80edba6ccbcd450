-- ===== src/Merkle/Logs.antt =====
-- Two logs of one length under one root: where their trees differ, two nodes have one BLAKE3 hash.
use kiss_protocol.Base.{
  ℕ, zero, suc, ◌-◌, ◌≤◌, ◌≡◌, ◌≢◌, ◌⊎◌, refl, sym, ap, ap₂, ◌∙◌, inl, inr, List, [], ◌∷◌, ◌++◌,
  Bytes, length, take, drop, length-take, length-drop, All, All-take, All-drop, take-append-drop,
  arith,
}
use kiss_protocol.Merkle.Tree.{split, node_prefix, root, root_of, subtree_root, Collision}
use kiss_protocol.Merkle.Root.{max_leaves, split-bounds, subtree_root-step}
use kiss_protocol.Merkle.NodeHash.{IsDigest, Bound, hash_node-cases, subtree_root-IsDigest}

joined : (k : ℕ) (xs ys : List Bytes) → take k xs ≡ take k ys → drop k xs ≡ drop k ys → xs ≡ ys
joined k xs ys e e' = sym (take-append-drop k xs) ∙ (ap₂ ◌++◌ e e' ∙ take-append-drop k ys)

module _ (blake3 : Bytes → Bytes) where
  -- What the hash of the top node of a tree of that many leaves is taken of.
  abbrev pub node_input : ℕ → List Bytes → Bytes
  node_input n xs =
      node_prefix ∷ subtree_root blake3 (take (split n) xs)
      ++ subtree_root blake3 (drop (split n) xs)

  -- Two trees of that many leaves that have, at one place, different nodes of one hash.
  pub data NodeClash : ℕ → List Bytes → List Bytes → Type 0 where
    at_node :
        {n : ℕ} {xs ys : List Bytes}
        → 2 ≤ n
        → node_input n xs ≢ node_input n ys
        → blake3 (node_input n xs) ≡ blake3 (node_input n ys)
        → NodeClash n xs ys
    in_left :
        {n : ℕ} {xs ys : List Bytes}
        → NodeClash (split n) (take (split n) xs) (take (split n) ys)
        → NodeClash n xs ys
    in_right :
        {n : ℕ} {xs ys : List Bytes}
        → NodeClash (n - split n) (drop (split n) xs) (drop (split n) ys)
        → NodeClash n xs ys

  NodeClash-Collision : {n : ℕ} {xs ys : List Bytes} → NodeClash n xs ys → Collision blake3
  NodeClash-Collision (at_node {xs = xs} {ys = ys} low differs collides) =
      (node_input _ xs, node_input _ ys, differs, collides)
  NodeClash-Collision (in_left clash) = NodeClash-Collision clash
  NodeClash-Collision (in_right clash) = NodeClash-Collision clash

-- BLAKE3 with an output of 32 bytes.
module _ (blake3 : Bytes → Bytes) (blake3-IsDigest : (x : Bytes) → IsDigest (blake3 x)) where
  parts-located :
      (b : ℕ) (xs ys : List Bytes) (n : ℕ)
      → n ≡ length xs
      → n ≡ length ys
      → 2 ≤ n
      → n ≤ suc b
      → n ≤ max_leaves
      → All IsDigest xs
      → All IsDigest ys
      → subtree_root blake3 xs ≡ subtree_root blake3 ys
      → ((us vs : List Bytes) (k : ℕ)
          → k ≡ length us
          → k ≡ length vs
          → k ≤ b
          → k ≤ max_leaves
          → All IsDigest us
          → All IsDigest vs
          → subtree_root blake3 us ≡ subtree_root blake3 vs
          → (us ≡ vs) ⊎ NodeClash blake3 k us vs)
      → (xs ≡ ys) ⊎ NodeClash blake3 n xs ys
  parts-located b xs ys n en en' low h m hx hy e ih =
      let k = split n in
      let (positive, below) = split-bounds n low m in
      let node =
        sym (subtree_root-step blake3 xs n en low m)
        ∙ (e ∙ subtree_root-step blake3 ys n en' low m) in
      elim (hash_node-cases blake3 blake3-IsDigest (subtree_root blake3 (take k xs))
        (subtree_root blake3 (drop k xs)) (subtree_root blake3 (take k ys))
        (subtree_root blake3 (drop k ys))
        (subtree_root-IsDigest blake3 blake3-IsDigest (take k xs) (All-take IsDigest k xs hx))
        (subtree_root-IsDigest blake3 blake3-IsDigest (take k ys) (All-take IsDigest k ys hy))
        node) [
          | inr (differs, collides) ↦ inr (at_node low differs collides)
          | inl (left_root, right_root) ↦
              elim (ih (take k xs) (take k ys) k (omega (arith, length-take k xs))
                (omega (arith, length-take k ys)) (omega arith) (omega arith)
                (All-take IsDigest k xs hx) (All-take IsDigest k ys hy) left_root) [
                  | inr clash ↦ inr (in_left clash)
                  | inl lefts ↦
                      elim (ih (drop k xs) (drop k ys) (n - k) (omega (arith, length-drop k xs))
                        (omega (arith, length-drop k ys)) (omega arith) (omega arith)
                        (All-drop IsDigest k xs hx) (All-drop IsDigest k ys hy) right_root) [
                          | inr clash ↦ inr (in_right clash)
                          | inl rights ↦ inl (joined k xs ys lefts rights)
                        ]
                ]
        ]

  roots-located :
      (b : ℕ) (xs ys : List Bytes) (n : ℕ)
      → n ≡ length xs
      → n ≡ length ys
      → n ≤ b
      → n ≤ max_leaves
      → All IsDigest xs
      → All IsDigest ys
      → subtree_root blake3 xs ≡ subtree_root blake3 ys
      → (xs ≡ ys) ⊎ NodeClash blake3 n xs ys
  unfolding subtree_root root_of
  roots-located b [] [] n en en' h m hx hy e = inl refl
  roots-located b [] (y ∷ ys) n en en' h m hx hy e = absurd (omega arith)
  roots-located b (x ∷ xs) [] n en en' h m hx hy e = absurd (omega arith)
  roots-located b (x ∷ []) (y ∷ []) n en en' h m hx hy e = inl (ap (λ d. d ∷ []) e)
  roots-located b (x ∷ []) (y ∷ y' ∷ ys) n en en' h m hx hy e = absurd (omega arith)
  roots-located b (x ∷ x' ∷ xs) (y ∷ []) n en en' h m hx hy e = absurd (omega arith)
  roots-located zero (x ∷ x' ∷ xs) (y ∷ y' ∷ ys) n en en' h m hx hy e = absurd (omega arith)
  roots-located (suc b) (x ∷ x' ∷ xs) (y ∷ y' ∷ ys) n en en' h m hx hy e =
      parts-located b (x ∷ x' ∷ xs) (y ∷ y' ∷ ys) n en en' (omega arith) h m hx hy e
        (λ us vs k. roots-located b us vs k)

  -- Two logs of one length with one root are the same log, or their trees have, at one place, two
  -- different nodes of one hash.
  pub root-located :
      (xs ys : List Bytes)
      → length xs ≡ length ys
      → length xs ≤ max_leaves
      → All IsDigest xs
      → All IsDigest ys
      → root blake3 xs ≡ root blake3 ys
      → (xs ≡ ys) ⊎ NodeClash blake3 (length xs) xs ys
  unfolding root
  root-located xs ys en m hx hy e =
      roots-located (length xs) xs ys (length xs) refl en (omega arith) m hx hy e

  -- Two logs of one length with one root are the same log, or give a collision.
  pub root-bound :
      (xs ys : List Bytes)
      → length xs ≡ length ys
      → length xs ≤ max_leaves
      → All IsDigest xs
      → All IsDigest ys
      → root blake3 xs ≡ root blake3 ys
      → Bound blake3 (xs ≡ ys)
  root-bound xs ys en m hx hy e = elim (root-located xs ys en m hx hy e) [
    | inl same ↦ inl same
    | inr clash ↦ inr (NodeClash-Collision blake3 clash)
  ]

-- ===== src/Merkle/Recompute.antt =====
-- What a run of `recompute` that returns has computed.
use kiss_protocol.Base.{
  ℕ, zero, suc, ◌-◌, ◌≤◌, ◌<◌, ◌≡◌, refl, inl, inr, List, [], ◌∷◌, Bytes, arith, ltb, Bool-cases,
}
use kiss_protocol.Merkle.Tree.{split, hash_node}
use kiss_protocol.Merkle.Proof.{Run, returns, panics, hangs, hash_left, hash_right, recompute_from}
use kiss_protocol.Merkle.Root.{max_leaves, split-IsSplit}
use kiss_protocol.Merkle.NodeHash.{IsDigest, hash_node-IsDigest}

module _ (blake3 : Bytes → Bytes) where
  hash_left-returns :
      (run : Run) (outer d : Bytes)
      → hash_left blake3 run outer ≡ returns d
      → (c : Bytes) × (run ≡ returns c) × (d ≡ hash_node blake3 c outer)
  hash_left-returns (returns c) outer d e = (c, refl, cc)
  hash_left-returns panics outer d e = cc
  hash_left-returns hangs outer d e = cc

  hash_right-returns :
      (run : Run) (outer d : Bytes)
      → hash_right blake3 outer run ≡ returns d
      → (c : Bytes) × (run ≡ returns c) × (d ≡ hash_node blake3 outer c)
  hash_right-returns (returns c) outer d e = (c, refl, cc)
  hash_right-returns panics outer d e = cc
  hash_right-returns hangs outer d e = cc

  module _ (leaf : Bytes) (index size : ℕ) (outer : Bytes) (inner : List Bytes) (d : Bytes)
      (low : 2 ≤ size) (m : size ≤ max_leaves)
      (e : recompute_from blake3 leaf index size (outer ∷ inner) ≡ returns d) where
    pub recompute_from-inner_left :
        index < split size
        → (c : Bytes) × (recompute_from blake3 leaf index (split size) inner ≡ returns c)
          × (d ≡ hash_node blake3 c outer)
    unfolding recompute_from
    recompute_from-inner_left lt =
        hash_left-returns (recompute_from blake3 leaf index (split size) inner) outer d
          (ground (arith, (split-IsSplit size low m).0))

    pub recompute_from-inner_right :
        split size ≤ index
        → (c : Bytes) × (recompute_from blake3 leaf (index - split size) (size - split size) inner
            ≡ returns c)
          × (d ≡ hash_node blake3 outer c)
    unfolding recompute_from
    recompute_from-inner_right le =
        hash_right-returns
          (recompute_from blake3 leaf (index - split size) (size - split size) inner) outer d
          (ground (arith, (split-IsSplit size low m).0))

  pub recompute_from-nil :
      (leaf : Bytes) (index size : ℕ) (d : Bytes)
      → recompute_from blake3 leaf index size [] ≡ returns d
      → (size ≡ 1) × (d ≡ leaf)
  unfolding recompute_from
  recompute_from-nil leaf index size d e = ground arith

  pub recompute_from-one :
      (leaf : Bytes) (index : ℕ) (path : List Bytes) (d : Bytes)
      → recompute_from blake3 leaf index 1 path ≡ returns d
      → d ≡ leaf
  unfolding recompute_from
  recompute_from-one leaf index [] d e = cc
  recompute_from-one leaf index (outer ∷ inner) d e = cc

-- BLAKE3 with an output of 32 bytes.
module _ (blake3 : Bytes → Bytes) (blake3-IsDigest : (x : Bytes) → IsDigest (blake3 x)) where
  pub recompute_from-IsDigest :
      (leaf : Bytes) (index size : ℕ) (path : List Bytes) (d : Bytes)
      → 1 ≤ size
      → size ≤ max_leaves
      → IsDigest leaf
      → recompute_from blake3 leaf index size path ≡ returns d
      → IsDigest d
  recompute_from-IsDigest leaf index size [] d pos m h e =
      rw (recompute_from-nil blake3 leaf index size d e).1 h
  recompute_from-IsDigest leaf index zero (outer ∷ inner) d pos m h e = elim pos [ ]
  recompute_from-IsDigest leaf index (suc zero) (outer ∷ inner) d pos m h e =
      rw (recompute_from-one blake3 leaf index (outer ∷ inner) d e) h
  recompute_from-IsDigest leaf index (suc (suc size)) (outer ∷ inner) d pos m h e =
      let n = suc (suc size) in
      elim (Bool-cases (ltb index (split n))) [
        | inl left ↦
            let (c, _, hashed) =
              recompute_from-inner_left blake3 leaf index n outer inner d (omega arith) m e
                (ground arith) in
            rw hashed (hash_node-IsDigest blake3 blake3-IsDigest c outer)
        | inr right ↦
            let (c, _, hashed) =
              recompute_from-inner_right blake3 leaf index n outer inner d (omega arith) m e
                (ground arith) in
            rw hashed (hash_node-IsDigest blake3 blake3-IsDigest outer c)
      ]

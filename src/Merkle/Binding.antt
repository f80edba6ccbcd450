-- ===== src/Merkle/Binding.antt =====
-- A second leaf under one root and index is a BLAKE3 collision.
use kiss_protocol.Base.{
  ℕ, zero, suc, ◌-◌, ◌≤◌, ◌<◌, ◌≡◌, sym, ap, ◌∙◌, inl, inr, some, List, [], ◌∷◌, reverse, Bytes,
  bytes_eq_sound, length, get_elem?, take, drop, length-take, length-drop, All, All-take, All-drop,
  All-reverse, get_elem?-take, get_elem?-drop, arith, ltb, Bool-cases,
}
use kiss_protocol.Merkle.Tree.{split, root, root_of, subtree_root}
use kiss_protocol.Merkle.Proof.{
  Proof, Run, returns, panics, hangs, recompute_from, verify, accepted, compare_root,
}
use kiss_protocol.Merkle.Root.{max_leaves, split-bounds, subtree_root-step}
use kiss_protocol.Merkle.NodeHash.{
  IsDigest, Bound, and_then, hash_node-bound, subtree_root-IsDigest,
}
use kiss_protocol.Merkle.Recompute.{
  recompute_from-nil, recompute_from-one, recompute_from-inner_left, recompute_from-inner_right,
  recompute_from-IsDigest,
}

-- BLAKE3 with an output of 32 bytes.
module _ (blake3 : Bytes → Bytes) (blake3-IsDigest : (x : Bytes) → IsDigest (blake3 x)) where
  abbrev AtIndex : List Bytes → ℕ → Bytes → Type 0
  AtIndex leaves index leaf = Bound blake3 (get_elem? leaves index ≡ some leaf)

  single-bound :
      (leaves : List Bytes) (index : ℕ) (leaf : Bytes)
      → length leaves ≡ 1
      → index < 1
      → subtree_root blake3 leaves ≡ leaf
      → AtIndex leaves index leaf
  unfolding subtree_root root_of
  single-bound [] index leaf n lt e = absurd (omega arith)
  single-bound (x ∷ []) zero leaf n lt e = inl (ap some e)
  single-bound (x ∷ []) (suc i) leaf n lt e = absurd (omega arith)
  single-bound (x ∷ y ∷ xs) index leaf n lt e = absurd (omega arith)

  at-take :
      (k : ℕ) (leaves : List Bytes) (index : ℕ) (leaf : Bytes)
      → index < k
      → AtIndex (take k leaves) index leaf
      → AtIndex leaves index leaf
  at-take k leaves index leaf lt (inl e) = inl (sym (get_elem?-take k leaves index lt) ∙ e)
  at-take k leaves index leaf lt (inr c) = inr c

  at-drop :
      (k : ℕ) (leaves : List Bytes) (index : ℕ) (leaf : Bytes)
      → k ≤ index
      → AtIndex (drop k leaves) (index - k) leaf
      → AtIndex leaves index leaf
  at-drop k leaves index leaf le (inl e) =
      inl (sym (get_elem?-drop k leaves (index - k) index (omega arith)) ∙ e)
  at-drop k leaves index leaf le (inr c) = inr c

  recompute_from-bound :
      (path : List Bytes) (leaves : List Bytes) (n index : ℕ) (leaf : Bytes)
      → n ≡ length leaves
      → index < n
      → n ≤ max_leaves
      → IsDigest leaf
      → All IsDigest path
      → All IsDigest leaves
      → recompute_from blake3 leaf index n path ≡ returns (subtree_root blake3 leaves)
      → AtIndex leaves index leaf
  recompute_from-bound [] leaves n index leaf en lt m h hp hl e =
      let (one, same) = recompute_from-nil blake3 leaf index n (subtree_root blake3 leaves) e in
      single-bound leaves index leaf (omega arith) (omega arith) same
  recompute_from-bound (outer ∷ inner) leaves zero index leaf en lt m h hp hl e = elim lt [ ]
  recompute_from-bound (outer ∷ inner) leaves (suc zero) index leaf en lt m h hp hl e =
      single-bound leaves index leaf (omega arith) (omega arith)
        (recompute_from-one blake3 leaf index (outer ∷ inner) (subtree_root blake3 leaves) e)
  recompute_from-bound (outer ∷ inner) leaves (suc (suc size)) index leaf en lt m h hp hl e =
      let n = suc (suc size) in
      let k = split n in
      let (pos, below) = split-bounds n (omega arith) m in
      let left_length = length-take k leaves in
      let right_length = length-drop k leaves in
      let step = subtree_root-step blake3 leaves n en (omega arith) m in
      elim (Bool-cases (ltb index k)) [
        | inl left ↦
            let (c, runs, hashed) =
              recompute_from-inner_left blake3 leaf index n outer inner (subtree_root blake3 leaves)
                (omega arith) m e (ground arith) in
            and_then blake3
              (hash_node-bound blake3 blake3-IsDigest c outer _ _
                (recompute_from-IsDigest blake3 blake3-IsDigest leaf index k inner c pos
                  (omega arith) h runs)
                (subtree_root-IsDigest blake3 blake3-IsDigest (take k leaves)
                  (All-take IsDigest k leaves hl))
                (sym hashed ∙ step))
              (λ same. at-take k leaves index leaf (ground arith) (
                recompute_from-bound inner (take k leaves) k index leaf (omega arith) (ground arith)
                  (omega arith) h hp.1 (All-take IsDigest k leaves hl) (runs ∙ ap returns same.0)))
        | inr right ↦
            let (c, runs, hashed) =
              recompute_from-inner_right blake3 leaf index n outer inner
                (subtree_root blake3 leaves) (omega arith) m e (ground arith) in
            and_then blake3
              (hash_node-bound blake3 blake3-IsDigest outer c _ _ hp.0
                (subtree_root-IsDigest blake3 blake3-IsDigest (take k leaves)
                  (All-take IsDigest k leaves hl))
                (sym hashed ∙ step))
              (λ same. at-drop k leaves index leaf (ground arith) (
                recompute_from-bound inner (drop k leaves) (n - k) (index - k) leaf (omega arith)
                  (ground arith) (omega arith) h hp.1 (All-drop IsDigest k leaves hl)
                  (runs ∙ ap returns same.1)))
      ]

  compare_root-accepted :
      (run : Run) (r : Bytes) → compare_root blake3 run r ≡ accepted → run ≡ returns r
  compare_root-accepted (returns d) r e = ap returns (bytes_eq_sound d r (ground arith))
  compare_root-accepted panics r e = cc
  compare_root-accepted hangs r e = cc

  verify-accepted :
      (r leaf : Bytes) (proof : Proof)
      → verify blake3 r leaf proof ≡ accepted
      → (proof.index < proof.size)
        × (recompute_from blake3 leaf proof.index proof.size (reverse proof.path) ≡ returns r)
  unfolding verify
  verify-accepted r leaf proof e =
      let run = recompute_from blake3 leaf proof.index proof.size (reverse proof.path) in
      (ground arith, compare_root-accepted run r (ground arith))

  -- A proof that `Verify` accepts against a log's root shows the leaf that stands at its index, or
  -- gives a collision.
  pub verify-bound :
      (leaves : List Bytes) (leaf : Bytes) (proof : Proof)
      → proof.size ≡ length leaves
      → length leaves ≤ max_leaves
      → IsDigest leaf
      → All IsDigest proof.path
      → All IsDigest leaves
      → verify blake3 (root blake3 leaves) leaf proof ≡ accepted
      → Bound blake3 (get_elem? leaves proof.index ≡ some leaf)
  unfolding root
  verify-bound leaves leaf proof en m h hp hl e =
      let (inside, runs) = verify-accepted (root blake3 leaves) leaf proof e in
      recompute_from-bound (reverse proof.path) leaves proof.size proof.index leaf en inside
        (omega arith) h (All-reverse IsDigest proof.path hp) hl runs

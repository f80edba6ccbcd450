-- ===== src/Merkle/Completeness.antt =====
-- `Verify` accepts what `Prove` makes.
use mathlib.Core.List.{reverse-append}
use kiss_protocol.Base.{
  ℕ, zero, suc, ◌-◌, ◌≤◌, ◌<◌, ◌≡◌, refl, ◌∙◌, inl, inr, some, List, [], ◌∷◌, ◌++◌, reverse, Bytes,
  bytes_eq_refl, length, get_elem?, take, drop, length-take, length-drop, get_elem?-lt,
  get_elem?-take, get_elem?-drop, arith, ltb, Bool-cases,
}
use kiss_protocol.Merkle.Tree.{split, hash_node, root, root_of, subtree_root}
use kiss_protocol.Merkle.Proof.{Proof, returns, audit_path, prove, recompute_from, verify, accepted}
use kiss_protocol.Merkle.Root.{max_leaves, split-IsSplit, split-bounds, subtree_root-step}

reverse-snoc {ℓ} : {A : Type ℓ} (xs : List A) (x : A) → reverse (xs ++ x ∷ []) ≡ x ∷ reverse xs
reverse-snoc xs x = reverse-append xs (x ∷ [])

module _ (blake3 : Bytes → Bytes) where
  recompute_from-left :
      (h : Bytes) (index size : ℕ) (path : List Bytes) (sibling d : Bytes)
      → 2 ≤ size
      → size ≤ max_leaves
      → index < split size
      → recompute_from blake3 h index (split size) (reverse path) ≡ returns d
      → recompute_from blake3 h index size (reverse (path ++ sibling ∷ []))
        ≡ returns (hash_node blake3 d sibling)
  unfolding recompute_from
  recompute_from-left h index size path sibling d low m lt e =
      rw (reverse-snoc path sibling, (split-IsSplit size low m).0) (ground arith)

  recompute_from-right :
      (h : Bytes) (index size : ℕ) (path : List Bytes) (sibling d : Bytes)
      → 2 ≤ size
      → size ≤ max_leaves
      → split size ≤ index
      → recompute_from blake3 h (index - split size) (size - split size) (reverse path) ≡ returns d
      → recompute_from blake3 h index size (reverse (path ++ sibling ∷ []))
        ≡ returns (hash_node blake3 sibling d)
  unfolding recompute_from
  recompute_from-right h index size path sibling d low m le e =
      rw (reverse-snoc path sibling, (split-IsSplit size low m).0) (ground arith)

  audit_path-left :
      (b : ℕ) (leaves : List Bytes) (n index : ℕ)
      → 2 ≤ n
      → index < split n
      → audit_path blake3 (suc b) leaves index n
        ≡ audit_path blake3 b (take (split n) leaves) index (split n)
          ++ subtree_root blake3 (drop (split n) leaves) ∷ []
  unfolding audit_path
  audit_path-left b leaves n index h lt = ground arith

  audit_path-right :
      (b : ℕ) (leaves : List Bytes) (n index : ℕ)
      → 2 ≤ n
      → split n ≤ index
      → audit_path blake3 (suc b) leaves index n
        ≡ audit_path blake3 b (drop (split n) leaves) (index - split n) (n - split n)
          ++ subtree_root blake3 (take (split n) leaves) ∷ []
  unfolding audit_path
  audit_path-right b leaves n index h le = ground arith

  audit_path-single :
      (b : ℕ) (leaf : Bytes) (n : ℕ)
      → n ≡ 1
      → recompute_from blake3 leaf 0 n (reverse (audit_path blake3 (suc b) (leaf ∷ []) 0 n))
        ≡ returns leaf
  unfolding audit_path recompute_from
  audit_path-single b leaf n h = rw h refl

  audit_path-recompute_parts :
      (b : ℕ) (leaves : List Bytes) (n index : ℕ) (leaf : Bytes)
      → n ≡ length leaves
      → 2 ≤ n
      → n ≤ max_leaves
      → n ≤ suc b
      → get_elem? leaves index ≡ some leaf
      → ((part : List Bytes) (size i : ℕ)
          → size ≡ length part
          → size ≤ b
          → size ≤ max_leaves
          → get_elem? part i ≡ some leaf
          → recompute_from blake3 leaf i size (reverse (audit_path blake3 b part i size))
            ≡ returns (subtree_root blake3 part))
      → recompute_from blake3 leaf index n (reverse (audit_path blake3 (suc b) leaves index n))
        ≡ returns (subtree_root blake3 leaves)
  audit_path-recompute_parts b leaves n index leaf en low m h e ih =
      let (pos, lt) = split-bounds n low m in
      let k = split n in
      let left_length = length-take k leaves in
      let right_length = length-drop k leaves in
      elim (Bool-cases (ltb index k)) [
        | inl left ↦
            let below : index < k = ground arith in
            rw
              (
                audit_path-left b leaves n index low below,
                subtree_root-step blake3 leaves n en low m,
              )
              (recompute_from-left leaf index n (audit_path blake3 b (take k leaves) index k) _ _
                low m below
                (ih (take k leaves) k index (omega arith) (omega arith) (omega arith)
                  (get_elem?-take k leaves index below ∙ e)))
        | inr right ↦
            let above : k ≤ index = ground arith in
            rw
              (
                audit_path-right b leaves n index low above,
                subtree_root-step blake3 leaves n en low m,
              )
              (recompute_from-right leaf index n
                (audit_path blake3 b (drop k leaves) (index - k) (n - k)) _ _ low m above
                (ih (drop k leaves) (n - k) (index - k) (omega arith) (omega arith) (omega arith)
                  (get_elem?-drop k leaves (index - k) index (omega arith) ∙ e)))
      ]

  -- What `Prove` collects for a leaf, `recompute` turns back into the root.
  pub audit_path-recompute :
      (b : ℕ) (leaves : List Bytes) (n index : ℕ) (leaf : Bytes)
      → n ≡ length leaves
      → n ≤ b
      → n ≤ max_leaves
      → get_elem? leaves index ≡ some leaf
      → recompute_from blake3 leaf index n (reverse (audit_path blake3 b leaves index n))
        ≡ returns (subtree_root blake3 leaves)
  unfolding subtree_root root_of
  audit_path-recompute zero [] n index leaf en h m e = cc
  audit_path-recompute zero (x ∷ xs) n index leaf en h m e = absurd (omega arith)
  audit_path-recompute (suc b) [] n index leaf en h m e = cc
  audit_path-recompute (suc b) (x ∷ []) n zero leaf en h m e =
      let same : x ≡ leaf = cc in rw same (audit_path-single b leaf n en)
  audit_path-recompute (suc b) (x ∷ []) n (suc i) leaf en h m e = cc
  audit_path-recompute (suc b) (x ∷ y ∷ xs) n index leaf en h m e =
      audit_path-recompute_parts b (x ∷ y ∷ xs) n index leaf en (omega arith) m h e
        (λ part size i. audit_path-recompute b part size i leaf)

  verify-recompute :
      (r leaf : Bytes) (proof : Proof)
      → proof.index < proof.size
      → recompute_from blake3 leaf proof.index proof.size (reverse proof.path) ≡ returns r
      → verify blake3 r leaf proof ≡ accepted
  unfolding verify
  verify-recompute r leaf proof lt e = rw e (ground (arith, bytes_eq_refl r))

  -- For every leaf of a log, `Prove` makes a proof that `Verify` accepts against the log's root.
  pub verify-prove :
      (leaves : List Bytes) (index : ℕ) (leaf : Bytes)
      → length leaves ≤ max_leaves
      → get_elem? leaves index ≡ some leaf
      → (proof : Proof) × (prove blake3 leaves index ≡ some proof)
        × (verify blake3 (root blake3 leaves) leaf proof ≡ accepted)
  unfolding prove root
  verify-prove leaves index leaf m e =
      let inside = get_elem?-lt leaves index leaf e in
      let n = length leaves in
      (
        record { index = index; size = n; path = audit_path blake3 n leaves index n },
        ground arith,
        verify-recompute (root blake3 leaves) leaf
            (record { index = index; size = n; path = audit_path blake3 n leaves index n }) inside
            (audit_path-recompute n leaves n index leaf refl (omega arith) m e),
      )

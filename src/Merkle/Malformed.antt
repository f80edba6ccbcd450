-- ===== src/Merkle/Malformed.antt =====
-- `Verify` on a proof document that no `Prove` made: the size and the path come from its sender.
use kiss_protocol.Base.{ℕ, ◌^◌, ◌≤◌, ◌<◌, ◌≡◌, refl, none, List, [], Bytes, arith, reverse, ◌∷◌}
use kiss_protocol.Merkle.Split.{split_point, int_sign, split_loop-hangs}
use kiss_protocol.Merkle.Root.{max_leaves, split-IsSplit}
use kiss_protocol.Merkle.Proof.{Proof, recompute_from, hangs, verify, verify_panics, verify_hangs}

-- `splitPoint` does not return for any length between 2^62 and 2^63, whatever rounds it is given.
pub split_point-hangs : (n : ℕ) → 2 ^ 62 < n → n < int_sign → split_point n ≡ none
unfolding split_point
split_point-hangs n h h' = rw (split_loop-hangs 64 63 1 n refl h h')

-- For any root, leaf and index, a proof of two leaves or more with an empty path makes `Verify` panic.
pub verify-panics :
    (blake3 : Bytes → Bytes) (root leaf : Bytes) (index size : ℕ)
    → 2 ≤ size
    → size ≤ max_leaves
    → index < size
    → verify blake3 root leaf (record { index = index; size = size; path = [] }) ≡ verify_panics
unfolding verify recompute_from
verify-panics blake3 root leaf index size low m lt = ground (arith, (split-IsSplit size low m).0)

recompute_from-hangs :
    (blake3 : Bytes → Bytes) (leaf : Bytes) (index size : ℕ) (path : List Bytes)
    → 2 ^ 62 < size
    → size < int_sign
    → recompute_from blake3 leaf index size path ≡ hangs
unfolding recompute_from
recompute_from-hangs blake3 leaf index size [] h h' = ground (arith, split_point-hangs size h h')
recompute_from-hangs blake3 leaf index size (outer ∷ inner) h h' =
    ground (arith, split_point-hangs size h h')

-- A proof that claims more than 2^62 leaves, and fewer than 2^63, makes `Verify` run for ever.
pub verify-hangs :
    (blake3 : Bytes → Bytes) (root leaf : Bytes) (proof : Proof)
    → 2 ^ 62 < proof.size
    → proof.size < int_sign
    → proof.index < proof.size
    → verify blake3 root leaf proof ≡ verify_hangs
unfolding verify
verify-hangs blake3 root leaf proof h h' lt =
    ground
      (arith, recompute_from-hangs blake3 leaf proof.index proof.size (reverse proof.path) h h')

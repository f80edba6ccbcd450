-- ===== src/Merkle/Samples.antt =====
-- A tree of five leaves under a small stand-in for BLAKE3.
use kiss_protocol.Base.{
  ℕ, ◌+◌, ◌*◌, ◌%◌, ◌^◌, ◌≡◌, refl, some, List, [], ◌∷◌, Bytes, bytes_eq, get_elem?, replicate, All,
  arith,
}
use kiss_protocol.Merkle.Split.{split_point, IsSplit, split_point-IsSplit}
use kiss_protocol.Merkle.Tree.{split, root}
use kiss_protocol.Merkle.Proof.{Proof, prove, verify, accepted, verify_panics, verify_hangs}
use kiss_protocol.Merkle.NodeHash.{IsDigest, Bound}
use kiss_protocol.Merkle.Completeness.{verify-prove}
use kiss_protocol.Merkle.Binding.{verify-bound}
use kiss_protocol.Merkle.Logs.{root-bound}
use kiss_protocol.Merkle.Malformed.{verify-panics, verify-hangs}

-- A 32-byte checksum.
abbrev fold_bytes : Bytes → ℕ
fold_bytes [] = 7
fold_bytes (x ∷ xs) = (x + 31 * fold_bytes xs) % 65521

abbrev checksum : Bytes → Bytes
checksum xs = fold_bytes xs ∷ replicate 31 0

checksum-IsDigest : (xs : Bytes) → IsDigest (checksum xs)
checksum-IsDigest xs = refl

abbrev leaf_at : ℕ → Bytes
leaf_at i = i ∷ replicate 31 1

abbrev five : List Bytes
five = leaf_at 0 ∷ leaf_at 1 ∷ leaf_at 2 ∷ leaf_at 3 ∷ leaf_at 4 ∷ []

five-IsDigest : All IsDigest five
five-IsDigest = omega arith

split_point-IsSplit_example : (k : ℕ) × (split_point 11 ≡ some k) × IsSplit 11 k
split_point-IsSplit_example = split_point-IsSplit 11 (omega arith) (omega arith)

split_point_eight : split_point 8 ≡ some 4
unfolding split_point
split_point_eight = refl

verify-prove_example :
    (proof : Proof) × (prove checksum five 4 ≡ some proof)
    × (verify checksum (root checksum five) (leaf_at 4) proof ≡ accepted)
verify-prove_example = verify-prove checksum five 4 (leaf_at 4) (omega arith) refl

abbrev proof_of_three : Proof
proof_of_three = record {
  index = 3;
  size = 5;
  path = leaf_at 2 ∷ root checksum (leaf_at 0 ∷ leaf_at 1 ∷ []) ∷ leaf_at 4 ∷ [];
}

prove_three : prove checksum five 3 ≡ some proof_of_three
unfolding prove root split
prove_three = refl

verify-bound_example : Bound checksum (get_elem? five 3 ≡ some (leaf_at 3))
unfolding verify root split bytes_eq
verify-bound_example =
    verify-bound checksum checksum-IsDigest five (leaf_at 3) proof_of_three refl (omega arith) refl
      (refl, (refl, (refl, tt))) five-IsDigest refl

root-bound_example : Bound checksum (five ≡ five)
root-bound_example =
    root-bound checksum checksum-IsDigest five five refl (omega arith) five-IsDigest five-IsDigest
      refl

verify-panics_example :
    verify checksum (leaf_at 9) (leaf_at 0) (record { index = 1; size = 2; path = [] })
    ≡ verify_panics
verify-panics_example =
    verify-panics checksum (leaf_at 9) (leaf_at 0) 1 2 (omega arith) (omega arith) (omega arith)

verify-hangs_example :
    verify checksum
      (leaf_at 9)
      (leaf_at 0)
      (record { index = 1; size = 2 ^ 62 + 1; path = leaf_at 0 ∷ [] })
    ≡ verify_hangs
verify-hangs_example =
    verify-hangs checksum (leaf_at 9) (leaf_at 0)
      (record { index = 1; size = 2 ^ 62 + 1; path = leaf_at 0 ∷ [] }) (omega arith) (omega arith)
      (omega arith)

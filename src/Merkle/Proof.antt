-- ===== src/Merkle/Proof.antt =====
-- internal/merkle/proof.go: inclusion proofs. `path[len(path)-1]` on an empty path is a run-time
-- panic, and `splitPoint` may run for ever, so recomputing a root has these as results of their own.
use kiss_protocol.Base.{
  ℕ, zero, suc, ◌-◌, ◌||◌, Option, none, some, List, [], ◌∷◌, ◌++◌, reverse, Bytes, bytes_eq,
  length, take, drop, ltb, leb, ◌==◌, if◌then◌else◌,
}
use kiss_protocol.Merkle.Split.{split_point}
use kiss_protocol.Merkle.Tree.{split, hash_node, subtree_root}

pub record Proof : Type 0 where
  pub index : ℕ  -- uint64
  pub size : ℕ  -- uint64
  pub path : List Bytes

pub data ProveError : Type 0 where
  index_out_of_range : ProveError

pub data Run : Type 0 where
  returns : Bytes → Run
  panics : Run
  hangs : Run

pub data Verdict : Type 0 where
  accepted : Verdict
  empty_proof bad_index root_mismatch : Verdict
  verify_panics verify_hangs : Verdict

module _ (blake3 : Bytes → Bytes) where
  -- `auditPath`, by recursion on a bound on the number of leaves.
  unfoldable pub audit_path : ℕ → List Bytes → ℕ → ℕ → List Bytes
  audit_path zero leaves index n = []
  audit_path (suc bound) leaves index n =
      let k = split n in
      let left =
        audit_path bound (take k leaves) index k ++ subtree_root blake3 (drop k leaves) ∷ [] in
      let right =
        audit_path bound (drop k leaves) (index - k) (n - k)
        ++ subtree_root blake3 (take k leaves) ∷ [] in
      if n == 1 then [] else if ltb index k then left else right

  unfoldable pub prove : List Bytes → ℕ → Option Proof
  unfolding audit_path
  prove leaves index =
      let n = length leaves in
      if n == 0 || leb n index
      then none
      else some (record { index = index; size = n; path = audit_path n leaves index n })

  abbrev pub hash_left : Run → Bytes → Run
  hash_left (returns d) outer = returns (hash_node blake3 d outer)
  hash_left panics outer = panics
  hash_left hangs outer = hangs

  abbrev pub hash_right : Bytes → Run → Run
  hash_right outer (returns d) = returns (hash_node blake3 outer d)
  hash_right outer panics = panics
  hash_right outer hangs = hangs

  -- The recursion of `recompute`, on the path from its end. `size - k` is an unsigned subtraction with
  -- `k` at most `size`.
  unfoldable pub recompute_from : Bytes → ℕ → ℕ → List Bytes → Run
  recompute_from h index size [] =
      if size == 1 then returns h else elim (split_point size) [ none ↦ hangs | some k ↦ panics ]
  recompute_from h index size (outer ∷ inner) =
      if size == 1 then returns h else elim (split_point size) [
        | none ↦ hangs
        | some k ↦
            let left = hash_left (recompute_from h index k inner) outer in
            let right = hash_right outer (recompute_from h (index - k) (size - k) inner) in
            if ltb index k then left else right
      ]

  unfoldable pub recompute : Bytes → ℕ → ℕ → List Bytes → Run
  unfolding recompute_from
  recompute h index size path = recompute_from h index size (reverse path)

  abbrev pub compare_root : Run → Bytes → Verdict
  compare_root (returns d) root = if bytes_eq d root then accepted else root_mismatch
  compare_root panics root = verify_panics
  compare_root hangs root = verify_hangs

  unfoldable pub verify : Bytes → Bytes → Proof → Verdict
  unfolding recompute
  verify root leaf proof =
      if proof.size == 0
      then empty_proof
      else if leb proof.size proof.index
      then bad_index
      else compare_root (recompute leaf proof.index proof.size proof.path) root

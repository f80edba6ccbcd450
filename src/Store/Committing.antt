-- ===== src/Store/Committing.antt =====
-- What a successful `Append` has done, step by step.
use kiss_protocol.Base.{
  ℕ, ◌≡◌, sym, ap, ◌∙◌, inl, inr, none, some, [], ◌∷◌, ◌++◌, Bytes, length, take-append_left,
  drop-append_left, length-append, arith, Option-cases, take, drop,
}
use kiss_protocol.Encrypt.{Gcm, seal, open_box, nonce_size}
use kiss_protocol.Merkle.Tree.{root}
use kiss_protocol.Store.Types.{TreeHead, Host, Disk, Store, Entry}
use kiss_protocol.Store.Frames.{frame}
use kiss_protocol.Store.Head.{leaf_hash}
use kiss_protocol.Store.Appending.{
  Surroundings, unsigned_tree_head, sign_head, write_tree_head, append_log, commit_entry,
}

-- AES-GCM: what is sealed under a key and a nonce of 12 bytes opens under them.
abbrev pub Opens : Gcm → Type 0
Opens gcm =
    (key nonce plain : Bytes)
    → length nonce ≡ nonce_size
    → gcm.open_sealed key nonce (gcm.seal key nonce plain) ≡ some plain

pub open_box-seal :
    (gcm : Gcm) (nonce plain key sealed : Bytes)
    → Opens gcm
    → length nonce ≡ nonce_size
    → seal gcm nonce plain key ≡ some sealed
    → open_box gcm sealed key ≡ some plain
unfolding seal open_box
open_box-seal gcm nonce plain key sealed opens h e =
    let c = gcm.seal key nonce plain in
    let front = ap (λ (n : ℕ). take n (nonce ++ c)) (sym h) ∙ take-append_left nonce c in
    let back = ap (λ (n : ℕ). drop n (nonce ++ c)) (sym h) ∙ drop-append_left nonce c in
    ground (arith, front, back, length-append nonce c, opens key nonce plain h)

pub seal-eq :
    (gcm : Gcm) (nonce plain key sealed : Bytes)
    → seal gcm nonce plain key ≡ some sealed
    → sealed ≡ nonce ++ gcm.seal key nonce plain
unfolding seal
seal-eq gcm nonce plain key sealed e = ground arith

pub write_tree_head-written :
    (host : Host) (world : Surroundings) (s : Store) (disk disk' : Disk)
    → write_tree_head host world s disk ≡ (disk', none)
    → (signed : TreeHead) × (sign_head host world s.signer
          (unsigned_tree_head host world s.key disk s.leaves)
          (root host.blake3 s.leaves)
        ≡ some signed)
      × (disk' ≡ record disk { head_file = some (host.marshal_head signed) })
unfolding write_tree_head
write_tree_head-written host world s disk disk' e =
    elim (Option-cases (
      sign_head host world s.signer (unsigned_tree_head host world s.key disk s.leaves)
        (root host.blake3 s.leaves))) [
          | inl failed ↦ absurd (ground arith)
          | inr (signed, es) ↦ (signed, es, ground arith)
        ]

-- What a successful end of `Append` has done.
pub record IsCommitted (host : Host) (world : Surroundings) (s : Store) (disk : Disk) (e : Entry)
    (s' : Store) (disk' : Disk) : Type 0 where
  pub sealed : Bytes
  pub seals : seal host.gcm world.nonce (host.marshal_entry e) s.key ≡ some sealed
  pub store_eq : s' ≡ record s { leaves = s.leaves ++ leaf_hash host e ∷ []; last = some e }
  pub head_written :
      write_tree_head host world s' (append_log host world disk (frame sealed)) ≡ (disk', none)

pub commit_entry-IsCommitted :
    (host : Host) (world : Surroundings) (s : Store) (disk : Disk) (e : Entry) (s' : Store)
    (disk' : Disk)
    → commit_entry host world s disk e ≡ (s', disk', none)
    → IsCommitted host world s disk e s' disk'
unfolding commit_entry
commit_entry-IsCommitted host world s disk e s' disk' h =
    elim (Option-cases (seal host.gcm world.nonce (host.marshal_entry e) s.key)) [
      | inl failed ↦ absurd (ground arith)
      | inr (sealed, es) ↦ elim (Option-cases world.torn_at) [
        | inr (n, torn) ↦ absurd (ground arith)
        | inl whole ↦ record {
          sealed = sealed;
          seals = es;
          store_eq = ground arith;
          head_written = ground arith;
        }
      ]
    ]

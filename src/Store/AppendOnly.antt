-- ===== src/Store/AppendOnly.antt =====
-- What an export that `VerifyExport` accepts establishes, and why a list of prior heads makes the log
-- append-only.
use kiss_protocol.Base.{
  ℕ, suc, ◌-◌, ◌≤◌, ◌≡◌, refl, sym, ap, subst, ◌∙◌, ◌==◌, ◌||◌, ◌&&◌, not, ◌⊎◌, inl, inr, true,
  Option, none, some, List, [], ◌∷◌, Bytes, bytes_eq, bytes_eq_sound, length, take, get_elem?,
  length-take, All, All-take, All-get, ltb, ok, refused-then, needed-then, done-then, arith,
  Option-cases, Bool-cases,
}
use kiss_protocol.Codec.Hex.{encode, decode, encode-injective, decode-AreBytes}
use kiss_protocol.Merkle.Tree.{root}
use kiss_protocol.Merkle.Root.{max_leaves}
use kiss_protocol.Merkle.NodeHash.{IsDigest}
use kiss_protocol.Merkle.Logs.{NodeClash, root-located}
use kiss_protocol.Store.Types.{Entry, TreeHead, Host}
use kiss_protocol.Store.Head.{
  is_empty, decode_sized, leaf_hash, tree_head_sig_input, signature_size, public_key_size,
}
use kiss_protocol.Store.HeadLaws.{Listed, key_listed-Listed}
use kiss_protocol.Store.Written.{IsHash, root-IsHash}
use kiss_protocol.Store.Export.{
  Export, entry_outside, entry_altered, prior_longer, prior_rewritten, export_format,
  unknown_format, no_pins, leaf_count, malformed_leaf, export_root_mismatch, decode_leaves,
  verify_head_signature, same_leaf, check_entries, check_priors, verify_export,
}

decode_sized-IsHash : (text d : Bytes) → decode_sized 32 text ≡ some d → IsHash d
unfolding decode_sized
decode_sized-IsHash text d h = elim (Option-cases (decode text)) [
  | inl missing ↦ absurd (ground arith)
  | inr (bytes, e) ↦
      let same : bytes ≡ d = ground arith in
      subst IsHash same (ground arith, decode-AreBytes text bytes e)
]

decode_leaves-IsHash :
    (hs ds : List Bytes) → decode_leaves hs ≡ some ds → (length ds ≡ length hs) × All IsHash ds
unfolding decode_leaves
decode_leaves-IsHash [] ds h =
    let same : [] ≡ ds = cc in subst (λ xs. (length xs ≡ 0) × All IsHash xs) same (refl, tt)
decode_leaves-IsHash (t ∷ ts) ds h = elim (Option-cases (decode_sized 32 t)) [
  | inl missing ↦ absurd (ground arith)
  | inr (d, e) ↦ elim (Option-cases (decode_leaves ts)) [
    | inl missing ↦ absurd (ground arith)
    | inr (rest, er) ↦
        let same : d ∷ rest ≡ ds = ground arith in
        let (counted, hashes) = decode_leaves-IsHash ts rest er in
        subst (λ xs. (length xs ≡ suc (length ts)) × All IsHash xs) same
          (ap suc counted, (decode_sized-IsHash t d e, hashes))
  ]
]

All-IsDigest : (ds : List Bytes) → All IsHash ds → All IsDigest ds
All-IsDigest [] h = tt
All-IsDigest (d ∷ ds) h = (h.0.0, All-IsDigest ds h.1)

no_leaves : (xs ys : List Bytes) → length xs ≡ 0 → length ys ≡ 0 → xs ≡ ys
no_leaves [] [] h h' = refl
no_leaves [] (y ∷ ys) h h' = absurd (omega arith)
no_leaves (x ∷ xs) ys h h' = absurd (omega arith)

module _ (host : Host) (pins : List Bytes) where
  -- A head of a log with records carries a signature by a pinned key.
  pub record IsPinned (h : TreeHead) (digest : Bytes) : Type 0 where
    pub signer_bytes : Bytes
    pub signature_bytes : Bytes
    pub key_decodes : decode_sized public_key_size h.signer_key ≡ some signer_bytes
    pub signature_decodes : decode_sized signature_size h.signature ≡ some signature_bytes
    pub pinned : Listed signer_bytes pins
    pub verifies :
        host.ed25519_verify signer_bytes (tree_head_sig_input h.size digest) signature_bytes ≡ true

  verify_head_signature-IsPinned :
      (h : TreeHead) (digest : Bytes)
      → verify_head_signature host pins h digest ≡ ok tt
      → (h.size ≡ 0) ⊎ IsPinned h digest
  unfolding verify_head_signature
  verify_head_signature-IsPinned h digest e = elim (Bool-cases (h.size == 0)) [
    | inl bare ↦ inl (ground arith)
    | inr records ↦ elim (Option-cases (decode_sized signature_size h.signature)) [
      | inl missing ↦ absurd (ground arith)
      | inr (sig, es) ↦ elim (Option-cases (decode_sized public_key_size h.signer_key)) [
        | inl missing ↦ absurd (ground arith)
        | inr (pub_key, ek) ↦ inr (record {
          signer_bytes = pub_key;
          signature_bytes = sig;
          key_decodes = ek;
          signature_decodes = es;
          pinned = key_listed-Listed pub_key pins (ground arith);
          verifies = ground arith;
        })
      ]
    ]
  ]

  -- An entry that stands at the position it names.
  abbrev pub StandsIn : List Bytes → Entry → Type 0
  StandsIn leaves e = (1 ≤ e.seq) × (get_elem? leaves (e.seq - 1) ≡ some (leaf_hash host e))

  -- An earlier head that heads a prefix of the log.
  pub record HeadsPrefix (leaves : List Bytes) (p : TreeHead) : Type 0 where
    pub not_longer : p.size ≤ length leaves
    pub prior_root : encode (root host.blake3 (take p.size leaves)) ≡ p.root
    pub prior_signed : (p.size ≡ 0) ⊎ IsPinned p (root host.blake3 (take p.size leaves))

  same_leaf-eq : (o : Option Bytes) (d : Bytes) → same_leaf host pins o d ≡ true → o ≡ some d
  same_leaf-eq none d e = cc
  same_leaf-eq (some leaf) d e = ap some (sym (bytes_eq_sound d leaf e))

  check_entries-StandsIn :
      (size : ℕ) (leaves : List Bytes) (es : List Entry)
      → check_entries host pins size leaves es ≡ ok tt
      → All (StandsIn leaves) es
  unfolding check_entries
  check_entries-StandsIn size leaves [] h = tt
  check_entries-StandsIn size leaves (e ∷ es) h =
      let (inside, after) = refused-then (e.seq == 0 || ltb size e.seq) entry_outside _ h in
      let (same, rest) =
        refused-then (not (same_leaf host pins (get_elem? leaves (e.seq - 1)) (leaf_hash host e)))
          entry_altered _ after in
      (
        (
          ground arith,
          same_leaf-eq (get_elem? leaves (e.seq - 1)) (leaf_hash host e) (ground arith),
        ),
        check_entries-StandsIn size leaves es rest,
      )

  check_priors-HeadsPrefix :
      (size : ℕ) (leaves : List Bytes) (ps : List TreeHead)
      → size ≡ length leaves
      → check_priors host pins size leaves ps ≡ ok tt
      → All (HeadsPrefix leaves) ps
  unfolding check_priors
  check_priors-HeadsPrefix size leaves [] es h = tt
  check_priors-HeadsPrefix size leaves (p ∷ ps) es h =
      let digest = root host.blake3 (take p.size leaves) in
      let (fits, after) = refused-then (ltb size p.size) prior_longer _ h in
      let (same, signed) =
        refused-then (not (bytes_eq (encode digest) p.root)) prior_rewritten _ after in
      let (verified, rest) = done-then (verify_head_signature host pins p digest) _ signed in
      (
        record {
          not_longer = ground arith;
          prior_root = bytes_eq_sound (encode digest) p.root (ground arith);
          prior_signed = verify_head_signature-IsPinned p digest verified;
        },
        check_priors-HeadsPrefix size leaves ps es rest,
      )

  pub record IsEstablished (x : Export) (priors : List TreeHead) (leaves : List Bytes)
      : Type 0 where
    pub leaves_decode : decode_leaves x.leaf_hashes ≡ some leaves
    pub head_size : length leaves ≡ x.head.size
    pub head_root : (x.head.size ≡ 0) ⊎ (encode (root host.blake3 leaves) ≡ x.head.root)
    pub head_signed : (x.head.size ≡ 0) ⊎ IsPinned x.head (root host.blake3 leaves)
    pub entries_stand : All (StandsIn leaves) x.entries
    pub priors_prefix : All (HeadsPrefix leaves) priors

  -- Every export that `VerifyExport` accepts has as many leaves as its head says, has each of its entries
  -- at the position that the entry names, and has each prior head as the head of a prefix of its leaves;
  -- and, unless its head has size 0, the root of its leaves is that of the head and the head is signed by
  -- a pinned key. A prior head of size 0 needs no signature.
  pub verify_export-IsEstablished :
      (x : Export) (priors : List TreeHead) (leaves : List Bytes)
      → verify_export host pins x priors ≡ ok leaves
      → IsEstablished x priors leaves
  unfolding verify_export
  verify_export-IsEstablished x priors leaves h =
      let (known, h1) = refused-then (not (bytes_eq x.format export_format)) unknown_format _ h in
      let (pinned, h2) = refused-then (is_empty pins) no_pins _ h1 in
      let (counted, h3) =
        refused-then (not (length x.leaf_hashes == x.head.size)) leaf_count _ h2 in
      let (ds, decoded, h4) = needed-then (decode_leaves x.leaf_hashes) malformed_leaf _ h3 in
      let digest = root host.blake3 ds in
      let (rooted, h5) =
        refused-then (not (x.head.size == 0) && not (bytes_eq (encode digest) x.head.root))
          export_root_mismatch _ h4 in
      let (signed, h6) = done-then (verify_head_signature host pins x.head digest) _ h5 in
      let (shown, h7) = done-then (check_entries host pins x.head.size ds x.entries) _ h6 in
      let (prior, h8) = done-then (check_priors host pins x.head.size ds priors) _ h7 in
      let size : length ds ≡ x.head.size =
        ground (arith, (decode_leaves-IsHash x.leaf_hashes ds decoded).0) in
      let same : ds ≡ leaves = cc in
      subst (λ ls. IsEstablished x priors ls) same
        (record {
          leaves_decode = decoded;
          head_size = size;
          head_root = elim (Bool-cases (x.head.size == 0)) [
            | inl bare ↦ inl (ground arith)
            | inr records ↦ inr (bytes_eq_sound (encode digest) x.head.root (ground arith))
          ];
          head_signed = verify_head_signature-IsPinned x.head digest signed;
          entries_stand = check_entries-StandsIn x.head.size ds x.entries shown;
          priors_prefix = check_priors-HeadsPrefix x.head.size ds priors (sym size) prior;
        })

  prefix-bound :
      ((d : Bytes) → IsHash (host.blake3 d))
      → (x y : Export) (xs ys : List Bytes) (priors older : List TreeHead)
      → IsEstablished x priors xs
      → IsEstablished y older ys
      → HeadsPrefix xs y.head
      → length ys ≤ max_leaves
      → (ys ≡ take y.head.size xs) ⊎ NodeClash host.blake3 (length ys) ys (take y.head.size xs)
  prefix-bound hashes x y xs ys priors older ex ey p m =
      let hx = (decode_leaves-IsHash x.leaf_hashes xs ex.leaves_decode).1 in
      let hy = (decode_leaves-IsHash y.leaf_hashes ys ey.leaves_decode).1 in
      let zs = take y.head.size xs in
      let hz = All-take IsHash y.head.size xs hx in
      let counted : length ys ≡ length zs =
        omega (arith, length-take y.head.size xs, ey.head_size, p.not_longer) in
      elim ey.head_root [
        | inl bare ↦
            inl
              (no_leaves ys zs (omega (arith, ey.head_size)) (omega (arith, counted, ey.head_size)))
        | inr rooted ↦
            let ry = root-IsHash host.blake3 hashes ys hy in
            let rz = root-IsHash host.blake3 hashes zs hz in
            root-located host.blake3 (λ d. (hashes d).0) ys zs counted m (All-IsDigest ys hy)
              (All-IsDigest zs hz)
              (encode-injective (root host.blake3 ys) (root host.blake3 zs) ry.1 rz.1
                (rooted ∙ sym p.prior_root))
      ]

  -- Append-only: if the head of an accepted export `y` is among the priors of an accepted export `x`,
  -- then the leaves of `y` are the first leaves of `x`, or the trees of `y` and of as many leaves of
  -- `x` have, at one place, two different nodes of one BLAKE3 hash.
  pub verify_export-append_only :
      ((d : Bytes) → IsHash (host.blake3 d))
      → (x y : Export) (xs ys : List Bytes) (priors older : List TreeHead) (i : ℕ)
      → verify_export host pins x priors ≡ ok xs
      → verify_export host pins y older ≡ ok ys
      → get_elem? priors i ≡ some y.head
      → length ys ≤ max_leaves
      → (ys ≡ take y.head.size xs) ⊎ NodeClash host.blake3 (length ys) ys (take y.head.size xs)
  verify_export-append_only hashes x y xs ys priors older i hx hy at m =
      let ex = verify_export-IsEstablished x priors xs hx in
      let ey = verify_export-IsEstablished y older ys hy in
      prefix-bound hashes x y xs ys priors older ex ey
        (All-get (HeadsPrefix xs) priors i y.head ex.priors_prefix at) m

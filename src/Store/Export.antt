-- ===== src/Store/Export.antt =====
-- internal/store/export.go: self-verifying copies of the log, and their check with public data only.
use kiss_protocol.Base.{
  ℕ, ◌-◌, ◌==◌, ◌||◌, ◌&&◌, not, Bool, true, false, Option, none, some, List, [], ◌∷◌, Bytes, codes,
  bytes_eq, length, take, get_elem?, ltb, if◌then◌else◌, Result, ok, err, ◌>>=◌, ◌>>◌, refuse_if,
  or_fail, map,
}
use kiss_protocol.Codec.Hex.{encode}
use kiss_protocol.Merkle.Tree.{root}
use kiss_protocol.Store.Types.{Entry, TreeHead, Host}
use kiss_protocol.Store.Head.{
  is_empty, decode_sized, key_listed, leaf_hash, tree_head_sig_input, signature_size,
  public_key_size,
}
use kiss_protocol.Store.Opening.{leaves_of}
use kiss_protocol.Store.Frames.{read_log}
use kiss_protocol.Store.Frames.{entries as log_entries}

pub record Filter : Type 0 where
  pub since : Option ℕ  -- none is the zero time
  pub until : Option ℕ
  pub sources : List Bytes

pub record Export : Type 0 where
  pub format : Bytes
  pub head : TreeHead
  pub leaf_hashes : List Bytes  -- hex
  pub entries : List Entry
  pub filter : Filter

abbrev pub export_format : Bytes
export_format = codes "witness-export/1"

pub data ExportError : Type 0 where
  unknown_format no_pins leaf_count malformed_leaf export_root_mismatch : ExportError
  entry_outside entry_altered : ExportError
  prior_longer prior_rewritten : ExportError
  not_signed malformed_export_signature malformed_export_key unpinned_signer bad_signature :
      ExportError

-- The errors of `ExportDir`.
pub data ReadFailure : Type 0 where
  stored_head_unreadable never_agreed : ReadFailure

-- The zero value of a head.
abbrev pub zero_head : TreeHead
zero_head = record {
  size = 0;
  root = [];
  prev_root = [];
  timestamp = [];
  mac = [];
  signature = [];
  signer_key = [];
}

-- A test of an optional bound; a missing bound passes.
abbrev pub passes : Option ℕ → (ℕ → Bool) → Bool
passes none test = true
passes (some t) test = test t

-- `Filter.match`
unfoldable pub matches : Filter → Entry → Bool
matches f e =
    passes f.since (λ t. not (ltb e.timestamp t))
    && passes f.until (λ t. ltb e.timestamp t)
    && (is_empty f.sources || key_listed e.source f.sources)

unfoldable pub matching : Filter → List Entry → List Entry
matching f [] = []
matching f (e ∷ es) = let rest = matching f es in if matches f e then e ∷ rest else rest

-- The hashes of an export, decoded into 32-byte digests.
unfoldable pub decode_leaves : List Bytes → Option (List Bytes)
decode_leaves [] = some []
decode_leaves (h ∷ hs) = elim (decode_sized 32 h) [
  | none ↦ none
  | some d ↦ elim (decode_leaves hs) [ none ↦ none | some ds ↦ some (d ∷ ds) ]
]

module _ (host : Host) where
  -- What `ExportDir` makes of a head and the entries that it covers, once they agree.
  unfoldable pub make_export : TreeHead → List Entry → Filter → Export
  make_export head es f = record {
    format = export_format;
    head = head;
    leaf_hashes = map encode (leaves_of host es);
    entries = matching f es;
    filter = f;
  }

  -- One attempt of `ExportDir`: the head, then the log.
  unfoldable pub try_export :
      Bytes → Filter → Option Bytes → Option Bytes → Option (Result ReadFailure Export)
  try_export key f none log_file = some (
      ok (record {
        format = export_format;
        head = zero_head;
        leaf_hashes = [];
        entries = [];
        filter = f;
      }))
  try_export key f (some file) log_file = elim (host.unmarshal_head file) [
    | none ↦ some (err stored_head_unreadable)
    | some head ↦
        let found = log_entries (read_log host key log_file) in
        let es = take head.size found in
        if ltb (length found) head.size
          || not (bytes_eq (encode (root host.blake3 (leaves_of host es))) head.root)
        then none
        else some (ok (make_export head es f))
  ]

  -- `ExportDir`: what the files hold at each attempt is an argument, as a writer may be running.
  unfoldable pub export_dir :
      Bytes → Filter → List (Option Bytes × Option Bytes) → Result ReadFailure Export
  export_dir key f [] = err never_agreed
  export_dir key f ((head_file, log_file) ∷ rest) = elim (try_export key f head_file log_file) [
    | none ↦ export_dir key f rest
    | some result ↦ result
  ]

  module _ (pins : List Bytes) where
    unfoldable pub verify_head_signature : TreeHead → Bytes → Result ExportError (Unit {0})
    verify_head_signature h digest = if h.size == 0 then ok tt else do
      refuse_if (is_empty h.signature) not_signed
      sig ← or_fail (decode_sized signature_size h.signature) malformed_export_signature
      pub_key ← or_fail (decode_sized public_key_size h.signer_key) malformed_export_key
      refuse_if (not (key_listed pub_key pins)) unpinned_signer
      refuse_if (not (host.ed25519_verify pub_key (tree_head_sig_input h.size digest) sig))
          bad_signature

    abbrev pub same_leaf : Option Bytes → Bytes → Bool
    same_leaf none h = false
    same_leaf (some leaf) h = bytes_eq h leaf

    -- The loop over the entries shown; `Seq` counts from 1.
    unfoldable pub check_entries : ℕ → List Bytes → List Entry → Result ExportError (Unit {0})
    check_entries size leaves [] = ok tt
    check_entries size leaves (e ∷ es) = do
      refuse_if (e.seq == 0 || ltb size e.seq) entry_outside
      refuse_if (not (same_leaf (get_elem? leaves (e.seq - 1)) (leaf_hash host e))) entry_altered
      check_entries size leaves es

    -- The loop over the heads of earlier exports.
    unfoldable pub check_priors : ℕ → List Bytes → List TreeHead → Result ExportError (Unit {0})
    check_priors size leaves [] = ok tt
    check_priors size leaves (p ∷ ps) = do
      refuse_if (ltb size p.size) prior_longer
      let prior_root = root host.blake3 (take p.size leaves)
      refuse_if (not (bytes_eq (encode prior_root) p.root)) prior_rewritten
      verify_head_signature p prior_root
      check_priors size leaves ps

    -- `VerifyExport`, with the decoded leaves as its result.
    unfoldable pub verify_export : Export → List TreeHead → Result ExportError (List Bytes)
    verify_export x priors = do
      refuse_if (not (bytes_eq x.format export_format)) unknown_format
      refuse_if (is_empty pins) no_pins
      refuse_if (not (length x.leaf_hashes == x.head.size)) leaf_count
      leaves ← or_fail (decode_leaves x.leaf_hashes) malformed_leaf
      let digest = root host.blake3 leaves
      refuse_if (not (x.head.size == 0) && not (bytes_eq (encode digest) x.head.root))
          export_root_mismatch
      verify_head_signature x.head digest
      check_entries x.head.size leaves x.entries
      check_priors x.head.size leaves priors
      ok leaves

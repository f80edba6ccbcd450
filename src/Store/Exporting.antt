-- ===== src/Store/Exporting.antt =====
-- What `ExportDir` returns, and that `VerifyExport` accepts it.
use mathlib.Core.List.{append_assoc}
use kiss_protocol.Base.{
  ℕ, suc, ◌+◌, ◌-◌, ◌≤◌, ◌≡◌, refl, sym, ap, subst, ◌∙◌, ◌==◌, ◌||◌, ◌⊎◌, inl, inr, true, false,
  Option, none, some, List, [], ◌∷◌, ◌++◌, map, Bytes, bytes_eq, bytes_eq_sound, bytes_eq_refl,
  length, take, get_elem?, length-take, length-append, All, ltb, Result, ok, refuse_if, arith,
  Option-cases, Bool-cases,
}
use kiss_protocol.Codec.Hex.{encode}
use kiss_protocol.Merkle.Tree.{root}
use kiss_protocol.Store.Types.{Entry, TreeHead, Host}
use kiss_protocol.Store.Frames.{read_log}
use kiss_protocol.Store.Frames.{entries as log_entries}
use kiss_protocol.Store.Head.{is_empty, leaf_hash}
use kiss_protocol.Store.Opening.{leaves_of}
use kiss_protocol.Store.Offsets.{length-map}
use kiss_protocol.Store.Written.{IsHash, decode_sized-encode}
use kiss_protocol.Store.Persistence.{leaves-IsHash}
use kiss_protocol.Store.Export.{
  Export, Filter, ReadFailure, zero_head, export_format, matches, matching, entry_outside,
  decode_leaves, make_export, try_export, export_dir, verify_head_signature, check_entries,
  check_priors, verify_export,
}

-- Entries whose numbers go up by one from `n`.
abbrev pub AreNumbered : ℕ → List Entry → Type 0
AreNumbered n [] = Unit {0}
AreNumbered n (e ∷ es) = (e.seq ≡ n) × AreNumbered (suc n) es

module _ (host : Host) (hashes : (x : Bytes) → IsHash (host.blake3 x)) where
  decode_leaves-map : (ds : List Bytes) → All IsHash ds → decode_leaves (map encode ds) ≡ some ds
  unfolding decode_leaves
  decode_leaves-map [] h = refl
  decode_leaves-map (d ∷ ds) h =
      rw (decode_leaves, decode_sized-encode 32 d h.0.0 h.0.1, decode_leaves-map ds h.1) refl

  entry_inside : (i n : ℕ) → 1 ≤ i → i ≤ n → refuse_if (i == 0 || ltb n i) entry_outside ≡ ok tt
  entry_inside i n h h' = ground arith

  get_elem?-leaf :
      (before : List Entry) (e : Entry) (es : List Entry)
      → get_elem? (leaves_of host (before ++ e ∷ es)) (length before) ≡ some (leaf_hash host e)
  unfolding leaves_of
  get_elem?-leaf [] e es = refl
  get_elem?-leaf (b ∷ before) e es = get_elem?-leaf before e es

  module _ (pins : List Bytes) (all : List Entry) where
    shown :
        (f : Filter) (before es : List Entry)
        → before ++ es ≡ all
        → AreNumbered (suc (length before)) es
        → check_entries host pins (length all) (leaves_of host all) (matching f es) ≡ ok tt
    unfolding check_entries matching
    shown f before [] split numbered = refl
    shown f before (e ∷ es) split numbered =
        let here : get_elem? (leaves_of host all) (e.seq - 1) ≡ some (leaf_hash host e) =
          ap (λ (i : ℕ). get_elem? (leaves_of host all) i) (omega (arith, numbered.0))
          ∙ (ap (λ (xs : List Entry). get_elem? (leaves_of host xs) (length before)) (sym split)
              ∙ get_elem?-leaf before e es) in
        let inside : length all ≡ length before + suc (length es) =
          ap length (sym split) ∙ length-append before (e ∷ es) in
        let rest = shown f (before ++ e ∷ []) es (append_assoc before (e ∷ []) es ∙ split) (
          subst (λ n. AreNumbered n es) (omega (arith, length-append before (e ∷ [])))
            numbered.1) in
        elim (Bool-cases (matches f e)) [
          | inl kept ↦
              let fits =
                entry_inside e.seq (length all) (omega (arith, numbered.0))
                  (omega (arith, numbered.0, inside)) in
              rw (kept, fits, here, bytes_eq_refl (leaf_hash host e), rest) refl
          | inr left_out ↦ rw (left_out, rest) refl
        ]

  -- A third party that pins the signer accepts an export of the whole numbered log, whatever the
  -- filter shows of it, and reads the log's own leaves from it.
  pub make_export-accepted :
      (pins : List Bytes) (head : TreeHead) (es : List Entry) (f : Filter)
      → is_empty pins ≡ false
      → AreNumbered 1 es
      → head.size ≡ length es
      → head.root ≡ encode (root host.blake3 (leaves_of host es))
      → verify_head_signature host pins head (root host.blake3 (leaves_of host es)) ≡ ok tt
      → verify_export host pins (make_export host head es f) [] ≡ ok (leaves_of host es)
  unfolding verify_export make_export check_priors leaves_of
  make_export-accepted pins head es f pinned numbered size rooted signed =
      let leaves = leaves_of host es in
      let decoded = decode_leaves-map leaves (leaves-IsHash host es hashes) in
      let counted : (length (map encode leaves) == head.size) ≡ true =
        ground (arith, length-map encode leaves, length-map (leaf_hash host) es) in
      let agreed : bytes_eq (encode (root host.blake3 leaves)) head.root ≡ true =
        rw rooted (bytes_eq_refl (encode (root host.blake3 leaves))) in
      let seen : check_entries host pins head.size leaves (matching f es) ≡ ok tt =
        rw size (shown pins es f [] es refl numbered) in
      rw (decoded, pinned, counted, agreed, signed, seen, bytes_eq_refl export_format)
        (ground arith)

same_export :
    {x y : Export}
    → ◌≡◌ {A = Option (Result ReadFailure Export)} (some (ok x)) (some (ok y))
    → x ≡ y
same_export h = cc

-- The export of a log without a head.
abbrev pub empty_export : Filter → Export
empty_export f = record {
  format = export_format;
  head = zero_head;
  leaf_hashes = [];
  entries = [];
  filter = f;
}

module _ (host : Host) (key : Bytes) (f : Filter) where
  -- An export of the entries that its head covers in a log file.
  pub record IsExportOf (head_file : Bytes) (log_file : Option Bytes) (x : Export) : Type 0 where
    pub head_read : host.unmarshal_head head_file ≡ some x.head
    pub made :
        x ≡ make_export host x.head (take x.head.size (log_entries (read_log host key log_file))) f
    pub covered : length (take x.head.size (log_entries (read_log host key log_file))) ≡ x.head.size
    pub agrees :
        encode (
          root host.blake3
            (leaves_of host (take x.head.size (log_entries (read_log host key log_file)))))
        ≡ x.head.root

  -- What one attempt has read, against the export.
  abbrev pub ReadsAs : Option Bytes → Option Bytes → Export → Type 0
  ReadsAs none log_file x = x ≡ empty_export f
  ReadsAs (some head_file) log_file x = IsExportOf head_file log_file x

  -- One of the attempts read the export.
  abbrev pub IsRead : List (Option Bytes × Option Bytes) → Export → Type 0
  IsRead [] x = ⊥
  IsRead ((head_file, log_file) ∷ rest) x = ReadsAs head_file log_file x ⊎ IsRead rest x

  try_export-ReadsAs :
      (head_file log_file : Option Bytes) (x : Export)
      → try_export host key f head_file log_file ≡ some (ok x)
      → ReadsAs head_file log_file x
  unfolding try_export make_export
  try_export-ReadsAs none log_file x e = sym (same_export e)
  try_export-ReadsAs (some file) log_file x e = elim (Option-cases (host.unmarshal_head file)) [
    | inl missing ↦ absurd (ground arith)
    | inr (head, eh) ↦
        let all = log_entries (read_log host key log_file) in
        let es = take head.size all in
        let same : make_export host head es f ≡ x = ground arith in
        subst (λ y. IsExportOf file log_file y) same
          (record {
            head_read = eh;
            made = refl;
            covered = ground (arith, length-take head.size all);
            agrees =
                bytes_eq_sound (encode (root host.blake3 (leaves_of host es))) head.root
                  (ground arith);
          })
  ]

  -- What `ExportDir` returns is what one of its attempts read: the empty export, where that attempt
  -- found no head; or else the export of the entries that the head of the attempt covers in the log of
  -- the attempt, with the root of those entries as the root of the head.
  pub export_dir-IsExportOf :
      (attempts : List (Option Bytes × Option Bytes)) (x : Export)
      → export_dir host key f attempts ≡ ok x
      → IsRead attempts x
  unfolding export_dir
  export_dir-IsExportOf [] x e = absurd (ground arith)
  export_dir-IsExportOf ((head_file, log_file) ∷ rest) x e =
      elim (Option-cases (try_export host key f head_file log_file)) [
        | inl again ↦ inr (export_dir-IsExportOf rest x (rw (again, export_dir) at e))
        | inr (result, er) ↦
            inl (try_export-ReadsAs head_file log_file x (er ∙ ap some (rw (er, export_dir) at e)))
      ]

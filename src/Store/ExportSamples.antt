-- ===== src/Store/ExportSamples.antt =====
-- Exports of the sample log: of its first record, and of both with the first head as a prior.
use kiss_protocol.Base.{
  length, ◌≡◌, ◌⊎◌, refl, Option, none, some, List, [], ◌∷◌, Bytes, bytes_eq, take, arith, ok,
}
use mathlib.Core.Option
use kiss_protocol.Encrypt.{open_box}
use kiss_protocol.Codec.BigEndian.{uint32, put_uint32, put_uint64}
use kiss_protocol.Codec.Hex.{encode, decode}
use kiss_protocol.Merkle.Tree.{root, hash_leaf, hash_node, split}
use kiss_protocol.Merkle.Logs.{NodeClash}
use kiss_protocol.Store.Rows.{file_of}
use kiss_protocol.Store.Head.{leaf_hash, compute_mac, decode_sized, key_listed, tree_head_sig_input}
use kiss_protocol.Store.Opening.{leaves_of}
use kiss_protocol.Store.Frames.{frame, read_log, read_frames, next_frame, decode_record}
use kiss_protocol.Store.Appending.{unsigned_tree_head, sign_head}
use kiss_protocol.Store.Export.{
  Export, Filter, make_export, verify_export, verify_head_signature, check_entries, check_priors,
  matches, matching, decode_leaves, export_dir, try_export,
}
use kiss_protocol.Store.AppendOnly.{
  IsEstablished, verify_export-IsEstablished, verify_export-append_only,
}
use kiss_protocol.Store.Exporting.{make_export-accepted, IsRead, export_dir-IsExportOf}
use kiss_protocol.Store.SampleHost.{host, write_head, public_key, checksum, checksum-IsHash}
use kiss_protocol.Store.Samples.{key, first, second, row_of, head_of, leaves_one}

abbrev everything : Filter
everything = record { since = none; until = none; sources = [] }

abbrev pins : List Bytes
pins = public_key ∷ []

abbrev leaves_two : List Bytes
leaves_two = leaf_hash host first ∷ leaf_hash host second ∷ []

abbrev export_one : Export
export_one = make_export host (head_of leaves_one) (first ∷ []) everything

abbrev export_two : Export
export_two = make_export host (head_of leaves_two) (first ∷ second ∷ []) everything

accepts_one : verify_export host pins export_one [] ≡ ok leaves_one
unfolding verify_export make_export leaves_of matching matches decode_leaves verify_head_signature
    check_entries check_priors unsigned_tree_head sign_head root decode_sized decode encode
    leaf_hash hash_leaf bytes_eq tree_head_sig_input key_listed
accepts_one = refl

accepts_two : verify_export host pins export_two (head_of leaves_one ∷ []) ≡ ok leaves_two
unfolding verify_export make_export leaves_of matching matches decode_leaves verify_head_signature
    check_entries check_priors unsigned_tree_head sign_head root split hash_node decode_sized decode
    encode leaf_hash hash_leaf bytes_eq tree_head_sig_input key_listed
accepts_two = refl

verify_export-IsEstablished_example :
    IsEstablished host pins export_two (head_of leaves_one ∷ []) leaves_two
verify_export-IsEstablished_example =
    verify_export-IsEstablished host pins export_two (head_of leaves_one ∷ []) leaves_two
      accepts_two

head_kept : some (head_of leaves_one) ≡ some export_one.head
unfolding make_export
head_kept = refl

verify_export-append_only_example :
    (leaves_one ≡ take export_one.head.size leaves_two)
    ⊎ NodeClash checksum (length leaves_one) leaves_one (take export_one.head.size leaves_two)
verify_export-append_only_example =
    verify_export-append_only host pins checksum-IsHash export_two export_one leaves_two leaves_one
      (head_of leaves_one ∷ []) [] 0 accepts_two accepts_one head_kept (omega arith)

signed_two : verify_head_signature host pins (head_of leaves_two) (root checksum leaves_two) ≡ ok tt
unfolding verify_head_signature unsigned_tree_head sign_head root split hash_node decode_sized
    decode encode leaf_hash hash_leaf bytes_eq tree_head_sig_input key_listed
signed_two = refl

root_two : (head_of leaves_two).root ≡ encode (root checksum leaves_two)
unfolding unsigned_tree_head sign_head
root_two = refl

size_two : (head_of leaves_two).size ≡ 2
unfolding unsigned_tree_head sign_head
size_two = refl

make_export-accepted_example :
    verify_export host pins
      (make_export host (head_of leaves_two) (first ∷ second ∷ []) everything)
      []
    ≡ ok (leaves_of host (first ∷ second ∷ []))
unfolding leaves_of
make_export-accepted_example =
    make_export-accepted host checksum-IsHash pins (head_of leaves_two) (first ∷ second ∷ [])
      everything refl (refl, (refl, tt)) size_two root_two signed_two

abbrev attempts : List (Option Bytes × Option Bytes)
attempts = (some (write_head (head_of leaves_one)), some (file_of (row_of first ∷ []))) ∷ []

exports_one : export_dir host key everything attempts ≡ ok export_one
unfolding export_dir try_export make_export leaves_of matching matches unsigned_tree_head sign_head
    root decode_sized decode encode leaf_hash hash_leaf bytes_eq tree_head_sig_input read_log
    read_frames next_frame uint32 frame decode_record open_box Option.bind compute_mac put_uint64
    put_uint32
exports_one = refl

export_dir-IsExportOf_example : IsRead host key everything attempts export_one
export_dir-IsExportOf_example =
    export_dir-IsExportOf host key everything attempts export_one exports_one

-- ===== src/Soul/Samples.antt =====
-- A document of the sample signer, its signature file, and allowlists with and without its key.
use kiss_protocol.Base.{
  ◌≡◌, refl, true, false, Option, some, List, [], ◌∷◌, Bytes, All, codes, bytes_eq, bytes_eq_refl,
  take-append_left, drop-append_left, ok, err,
}
use kiss_protocol.Codec.Hex.{encode}
use kiss_protocol.Store.SampleHost.{
  host, signer, signer-IsSound, public_key, put_field, get_field, signature_of,
}
use kiss_protocol.Accept.Approvals.{Operator}
use kiss_protocol.Soul.Allowlist.{
  TextHost, is_listed, IsKey, missing_field, parse_line, parse_lines, load_allowlist,
}
use kiss_protocol.Soul.Signatures.{
  SoulSig, SigCodec, IsVouched, ed25519_name, sign_soul, verify_soul, verify_soul-sign_soul,
  verify_soul-IsVouched,
}

abbrev write_sig : SoulSig → Bytes
write_sig s =
    put_field s.algorithm
      (put_field s.signer_key (put_field s.signature (put_field s.signed_at [])))

abbrev read_sig : Bytes → Option SoulSig
read_sig bytes =
    let (algorithm, r1) = get_field bytes in
    let (signer_key, r2) = get_field r1 in
    let (signature, r3) = get_field r2 in
    let (signed_at, r4) = get_field r3 in
    some (record {
      algorithm = algorithm;
      signer_key = signer_key;
      signature = signature;
      signed_at = signed_at;
    })

abbrev codec : SigCodec
codec = record { marshal = write_sig; unmarshal = read_sig }

reads_back : (s : SoulSig) → codec.unmarshal (codec.marshal s) ≡ some s
reads_back s =
    let f3 = put_field s.signed_at [] in
    let f2 = put_field s.signature f3 in
    let f1 = put_field s.signer_key f2 in
    rw
      (
        take-append_left s.algorithm f1,
        drop-append_left s.algorithm f1,
        take-append_left s.signer_key f2,
        drop-append_left s.signer_key f2,
        take-append_left s.signature f3,
        drop-append_left s.signature f3,
        take-append_left s.signed_at [],
      )
      refl

abbrev document : Bytes
document = codes "watch"

abbrev sig_file : Bytes
sig_file = write_sig (record {
  algorithm = ed25519_name;
  signer_key = encode public_key;
  signature = encode (signature_of public_key document);
  signed_at = codes "now";
})

abbrev trusted : List Operator
trusted = record { label = codes "alice"; pub_key = public_key } ∷ []

signed : sign_soul host codec (codes "now") signer (some document) ≡ ok sig_file
unfolding sign_soul
signed = refl

listed : is_listed (encode public_key) trusted ≡ true
unfolding is_listed
listed = rw (bytes_eq_refl (encode public_key)) refl

trusted-AreKeys : All IsKey trusted
trusted-AreKeys = ((signer-IsSound.key_bytes, refl), tt)

accepted : verify_soul host codec (some document) (some sig_file) trusted ≡ ok tt
accepted =
    (verify_soul-sign_soul host codec (codes "now") document sig_file signer trusted signer-IsSound
        reads_back signed).1
      listed

verify_soul-IsVouched_example : IsVouched host (some document) trusted
verify_soul-IsVouched_example =
    verify_soul-IsVouched host codec (some document) (some sig_file) trusted trusted-AreKeys
      accepted

-- A list of one line, which has no key.
abbrev one_word : TextHost
one_word = record { scan = λ file. (file ∷ [], false); trim_space = λ s. s; fields = λ s. s ∷ [] }

lone_label : load_allowlist one_word (some (codes "alice")) ≡ err missing_field
unfolding load_allowlist parse_lines parse_line bytes_eq
lone_label = refl

-- ===== src/Soul/Signatures.antt =====
-- `SignSoul` and `VerifySoulSignature` of internal/soul/verify.go.
use kiss_protocol.Base.{
  ◌≡◌, ◌↔◌, ◌⊎◌, refl, sym, ap, ◌∙◌, inl, inr, not, Bool, true, false, Option, some, List, [], ◌∷◌,
  Bytes, All, codes, bytes_eq, bytes_eq_sound, bytes_eq_refl, arith, Bool-cases, Result, ok, ◌>>=◌,
  ◌>>◌, refuse_if, or_fail, refused-then, needed-then,
}
use kiss_protocol.Codec.Hex.{encode, decode, decode-encode}
use kiss_protocol.Store.Types.{Host, Signer}
use kiss_protocol.Store.Head.{public_key_size, signature_size, decode_sized}
use kiss_protocol.Store.Written.{IsSound, decode_sized-encode}
use kiss_protocol.Accept.Approvals.{Operator}
use kiss_protocol.Soul.Allowlist.{is_listed, IsKey, decode_sized_sound}

pub record SoulSig : Type 0 where
  pub algorithm : Bytes
  pub signer_key : Bytes  -- hex
  pub signature : Bytes  -- hex
  pub signed_at : Bytes

pub data SoulError : Type 0 where
  no_soul_file not_signed no_signature_file unparseable unsupported_algorithm : SoulError
  malformed_key malformed_signature verification_failed not_in_allowlist : SoulError

abbrev pub ed25519_name : Bytes
ed25519_name = codes "ed25519"

-- JSON.
pub record SigCodec : Type 0 where
  pub marshal : SoulSig → Bytes
  pub unmarshal : Bytes → Option SoulSig

same_file : {a b : Bytes} → ◌≡◌ {A = Result SoulError Bytes} (ok a) (ok b) → a ≡ b
same_file h = cc

last_check : (listed : Bool) → (refuse_if (not listed) not_in_allowlist ≡ ok tt) ↔ (listed ≡ true)
last_check true = ((λ h. refl), (λ h. refl))
last_check false = ((λ h. cc), (λ h. cc))

some-same : {a b : Bytes} → ◌≡◌ {A = Option Bytes} (some a) (some b) → a ≡ b
some-same h = cc

abbrev pub HasKey : Bytes → List Operator → Type 0
HasKey key [] = ⊥
HasKey key (o ∷ os) = (o.pub_key ≡ key) ⊎ HasKey key os

-- The document is there, and a key of the allowlist signed it.
abbrev pub IsVouched : Host → Option Bytes → List Operator → Type 0
IsVouched host soul_file allowlist =
    (soul : Bytes) × (key : Bytes) × (sig : Bytes) × (soul_file ≡ some soul)
    × (host.ed25519_verify key soul sig ≡ true)
    × HasKey key allowlist

is_listed-HasKey :
    (text key : Bytes) (os : List Operator)
    → All IsKey os
    → decode text ≡ some key
    → is_listed text os ≡ true
    → HasKey key os
unfolding is_listed
is_listed-HasKey text key [] keys e h = absurd (ground (arith, h))
is_listed-HasKey text key (o ∷ os) (here, keys) e h =
    elim (Bool-cases (bytes_eq (encode o.pub_key) text)) [
      | inl same ↦
          let spelled : encode o.pub_key ≡ text = bytes_eq_sound _ _ same in
          let back : decode text ≡ some o.pub_key =
            ap decode (sym spelled) ∙ decode-encode o.pub_key here.0 in
          inl (some-same (sym back ∙ e))
      | inr other ↦ inr (is_listed-HasKey text key os keys e (rw (other, is_listed) at h))
    ]

module _ (host : Host) (codec : SigCodec) where
  -- `SignSoul`: the signature file.
  unfoldable pub sign_soul : Bytes → Signer → Option Bytes → Result SoulError Bytes
  sign_soul signed_at s soul_file = do
    soul ← or_fail soul_file no_soul_file
    sig ← or_fail (s.sign soul) not_signed
    ok (
        codec.marshal (record {
          algorithm = ed25519_name;
          signer_key = encode s.public_key;
          signature = encode sig;
          signed_at = signed_at;
        }))

  -- `VerifySoulSignature`; `none` is a file that does not read.
  unfoldable pub verify_soul :
      Option Bytes → Option Bytes → List Operator → Result SoulError (Unit {0})
  verify_soul soul_file sig_file allowlist = do
    soul ← or_fail soul_file no_soul_file
    raw ← or_fail sig_file no_signature_file
    ss ← or_fail (codec.unmarshal raw) unparseable
    refuse_if (not (bytes_eq ss.algorithm ed25519_name)) unsupported_algorithm
    signer_pub ← or_fail (decode_sized public_key_size ss.signer_key) malformed_key
    raw_sig ← or_fail (decode_sized signature_size ss.signature) malformed_signature
    refuse_if (not (host.ed25519_verify signer_pub soul raw_sig)) verification_failed
    refuse_if (not (is_listed ss.signer_key allowlist)) not_in_allowlist

  -- A soul document that a signer signed passes the check exactly when the key of the signer is in the
  -- allowlist, where the signature file reads back from its JSON.
  pub verify_soul-sign_soul :
      (signed_at soul file : Bytes) (s : Signer) (allowlist : List Operator)
      → IsSound host s
      → ((ss : SoulSig) → codec.unmarshal (codec.marshal ss) ≡ some ss)
      → sign_soul signed_at s (some soul) ≡ ok file
      → (verify_soul (some soul) (some file) allowlist ≡ ok tt)
        ↔ (is_listed (encode s.public_key) allowlist ≡ true)
  unfolding sign_soul verify_soul
  verify_soul-sign_soul signed_at soul file s allowlist sound reads_back h =
      let (sig, signed, made) = needed-then (s.sign soul) not_signed _ h in
      let ss : SoulSig = record {
        algorithm = ed25519_name;
        signer_key = encode s.public_key;
        signature = encode sig;
        signed_at = signed_at;
      } in
      let read : codec.unmarshal file ≡ some ss =
        ap codec.unmarshal (sym (same_file made)) ∙ reads_back ss in
      rw
        (
          read,
          bytes_eq_refl ed25519_name,
          decode_sized-encode public_key_size s.public_key sound.key_length sound.key_bytes,
          decode_sized-encode signature_size sig (sound.signature_length soul sig signed)
              (sound.signature_bytes soul sig signed),
          sound.verifies soul sig signed,
        )
        (last_check (is_listed (encode s.public_key) allowlist))

  -- A document passes the check only with a signature that verifies over its bytes, for a key of the
  -- allowlist, where every key of the allowlist has 32 bytes.
  pub verify_soul-IsVouched :
      (soul_file sig_file : Option Bytes) (allowlist : List Operator)
      → All IsKey allowlist
      → verify_soul soul_file sig_file allowlist ≡ ok tt
      → IsVouched host soul_file allowlist
  unfolding verify_soul
  verify_soul-IsVouched soul_file sig_file allowlist keys h =
      let (soul, found, h1) = needed-then soul_file no_soul_file _ h in
      let (raw, signed, h2) = needed-then sig_file no_signature_file _ h1 in
      let (ss, parsed, h3) = needed-then (codec.unmarshal raw) unparseable _ h2 in
      let (named, h4) =
        refused-then (not (bytes_eq ss.algorithm ed25519_name)) unsupported_algorithm _ h3 in
      let (key, ek, h5) =
        needed-then (decode_sized public_key_size ss.signer_key) malformed_key _ h4 in
      let (sig, es, h6) =
        needed-then (decode_sized signature_size ss.signature) malformed_signature _ h5 in
      let (verified, h7) =
        refused-then (not (host.ed25519_verify key soul sig)) verification_failed _ h6 in
      let listed = (last_check (is_listed ss.signer_key allowlist)).0 h7 in
      let (decoded, sized) = decode_sized_sound public_key_size ss.signer_key key ek in
      (
        soul,
        key,
        sig,
        found,
        ground (arith, verified),
        is_listed-HasKey ss.signer_key key allowlist keys decoded listed,
      )

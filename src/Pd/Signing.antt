-- ===== src/Pd/Signing.antt =====
-- Which signatures `Verify` of internal/pd/export accepts.
use kiss_protocol.Base.{
  ◌==◌, ◌≡◌, ◌≢◌, refl, ap, sym, ◌∙◌, ◌∷◌, [], not, true, false, some, Bytes, AreBytes, length,
  arith, Result, ok, err, refused-then, needed-then,
}
use kiss_protocol.Codec.Hex.{encode, decode, decode-encode, length-encode}
use kiss_protocol.Store.Head.{is_empty, public_key_size}
use kiss_protocol.Pd.Bundles.{
  Bundle, BundleHost, BundleError, malformed_private_key, wrong_private_key_size, not_marshalled,
  panicked, private_key_size, bundle_payload, sign_bundle, verify_bundle,
}

same_bundle : {a b : Bundle} → ◌≡◌ {A = Result BundleError Bundle} (ok a) (ok b) → a ≡ b
same_bundle h = cc

module _ (host : BundleHost) where
  -- ed25519, of one pair of keys.
  pub record IsKeyPair (private_key public_key : Bytes) : Type 0 where
    pub public_length : length public_key ≡ public_key_size
    pub public_bytes : AreBytes public_key
    pub signature_length : (m : Bytes) → length (host.sign private_key m) ≡ 64
    pub signature_bytes : (m : Bytes) → AreBytes (host.sign private_key m)
    pub verifies : (m : Bytes) → host.ed25519_verify public_key m (host.sign private_key m) ≡ true

  encode-present : (xs : Bytes) → length xs ≡ 64 → is_empty (encode xs) ≡ false
  encode-present xs h = present (encode xs) (omega (arith, length-encode xs))
    where
      present : (ys : Bytes) → length ys ≡ 128 → is_empty ys ≡ false
      present [] e = absurd (omega arith)
      present (y ∷ ys) e = refl

  signed_verifies :
      (b : Bundle) (private_key public_key payload : Bytes)
      → IsKeyPair private_key public_key
      → bundle_payload host b ≡ some payload
      → verify_bundle host
          (record b { signature = encode (host.sign private_key payload) })
          (encode public_key)
        ≡ ok tt
  unfolding verify_bundle bundle_payload
  signed_verifies b private_key public_key payload pair ep =
      let sig = host.sign private_key payload in
      rw
        (
          encode-present sig (pair.signature_length payload),
          decode-encode public_key pair.public_bytes,
          decode-encode sig (pair.signature_bytes payload),
          ep,
          pair.public_length,
          pair.verifies payload,
        )
        refl

  -- A bundle that `Sign` returns for a private key passes `Verify` with the public key of its pair,
  -- and differs from the bundle that was given only in its signature.
  pub verify_bundle-sign_bundle :
      (b signed : Bundle) (private_text private_key public_key : Bytes)
      → decode private_text ≡ some private_key
      → IsKeyPair private_key public_key
      → sign_bundle host b private_text ≡ ok signed
      → (verify_bundle host signed (encode public_key) ≡ ok tt)
        × (b ≡ record signed { signature = b.signature })
  unfolding sign_bundle verify_bundle bundle_payload
  verify_bundle-sign_bundle b signed private_text private_key public_key he pair h =
      let (key, ek, h1) = needed-then (decode private_text) malformed_private_key _ h in
      let same_key : key ≡ private_key = ground (arith, ek, he) in
      let (sized, h2) =
        refused-then (not (length key == private_key_size)) wrong_private_key_size _ h1 in
      let (payload, ep, h3) = needed-then (bundle_payload host b) not_marshalled _ h2 in
      let made : signed ≡ record b { signature = encode (host.sign private_key payload) } =
        sym (same_bundle h3)
        ∙ ap (λ k. record b { signature = encode (host.sign k payload) }) same_key in
      rw made (signed_verifies b private_key public_key payload pair ep, refl)

  -- `Verify` panics on a signed bundle when the key that it is given is hexadecimal but not 32 bytes
  -- long, instead of reporting an error.
  pub verify_bundle-panics :
      (b : Bundle) (public_text public_key signature payload : Bytes)
      → is_empty b.signature ≡ false
      → decode b.signature ≡ some signature
      → bundle_payload host b ≡ some payload
      → decode public_text ≡ some public_key
      → length public_key ≢ public_key_size
      → verify_bundle host b public_text ≡ err panicked
  unfolding verify_bundle
  verify_bundle-panics b public_text public_key signature payload hs es ep ek short =
      rw (hs, ek, es, ep) (ground arith)

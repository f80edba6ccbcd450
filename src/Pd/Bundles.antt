-- ===== src/Pd/Bundles.antt =====
-- internal/pd/export/export.go: the signed bundle of the entries of one case.
use kiss_protocol.Base.{
  ℕ, ◌==◌, not, Bool, false, Option, none, some, List, [], ◌∷◌, ◌++◌, Bytes, codes, bytes_eq,
  length, if◌then◌else◌, Result, ok, err, ◌>>=◌, ◌>>◌, refuse_if, or_fail,
}
use kiss_protocol.Codec.Hex.{encode, decode}
use kiss_protocol.Store.Types.{Entry}
use kiss_protocol.Store.Head.{is_empty, public_key_size}

pub record Bundle : Type 0 where
  pub bundle_id : Bytes
  pub generated_at : ℕ
  pub case_number : Bytes
  pub department : Bytes
  pub node_id : Bytes
  pub entry_count : ℕ
  pub sha256_chain : Bytes  -- hex
  pub signature : Bytes  -- hex, "" if absent
  pub entries : List Entry

-- sha256, ed25519 and JSON. An entry or a bundle with malformed data does not marshal.
pub record BundleHost : Type 0 where
  pub sha256 : Bytes → Bytes
  pub sign : Bytes → Bytes → Bytes
  pub ed25519_verify : Bytes → Bytes → Bytes → Bool
  pub marshal_bundle : Bundle → Option Bytes
  pub marshal_entry : Entry → Option Bytes
  pub read_case : Bytes → Option Bytes

pub data BundleError : Type 0 where
  no_id malformed_private_key wrong_private_key_size unsigned malformed_public_key : BundleError
  malformed_signature not_marshalled bad_signature : BundleError
  panicked : BundleError  -- ed25519.Verify, on a key that is not 32 bytes long

abbrev pub private_key_size : ℕ
private_key_size = 64

-- `newBundleID`, of the date and four random bytes.
unfoldable pub new_bundle_id : Bytes → Option Bytes → Result BundleError Bytes
new_bundle_id today none = err no_id
new_bundle_id today (some b) = ok (codes "BUNDLE-" ++ today ++ codes "-" ++ encode b)

module _ (host : BundleHost) where
  -- `matchesCase`
  unfoldable pub matches_case : Bytes → Entry → Bool
  matches_case case_number e =
      if is_empty e.body
      then false
      else elim (host.read_case e.body) [ none ↦ false | some c ↦ bytes_eq c case_number ]

  unfoldable pub case_entries : Bytes → List Entry → List Entry
  case_entries case_number [] = []
  case_entries case_number (e ∷ es) =
      let rest = case_entries case_number es in
      if matches_case case_number e then e ∷ rest else rest

  -- What `computeChain` hashes; an entry that does not marshal adds nothing.
  unfoldable pub chain_input : List Entry → Bytes
  chain_input [] = []
  chain_input (e ∷ es) = elim (host.marshal_entry e) [ none ↦ [] | some b ↦ b ] ++ chain_input es

  -- `computeChain`
  unfoldable pub compute_chain : List Entry → Bytes
  compute_chain es = encode (host.sha256 (chain_input es))

  -- `Generate`
  unfoldable pub generate :
      ℕ → Bytes → Option Bytes → List Entry → Bytes → Bytes → Bytes → Result BundleError Bundle
  generate now today random entries case_number department node_id = do
    id ← new_bundle_id today random
    ok (record {
      bundle_id = id;
      generated_at = now;
      case_number = case_number;
      department = department;
      node_id = node_id;
      entry_count = length (case_entries case_number entries);
      sha256_chain = compute_chain (case_entries case_number entries);
      signature = [];
      entries = case_entries case_number entries;
    })

  -- `bundlePayload`
  unfoldable pub bundle_payload : Bundle → Option Bytes
  bundle_payload b = host.marshal_bundle (record b { signature = [] })

  -- `Sign`
  unfoldable pub sign_bundle : Bundle → Bytes → Result BundleError Bundle
  sign_bundle b private_key = do
    key ← or_fail (decode private_key) malformed_private_key
    refuse_if (not (length key == private_key_size)) wrong_private_key_size
    payload ← or_fail (bundle_payload b) not_marshalled
    ok (record b { signature = encode (host.sign key payload) })

  -- `Verify`
  unfoldable pub verify_bundle : Bundle → Bytes → Result BundleError (Unit {0})
  verify_bundle b public_key = do
    refuse_if (is_empty b.signature) unsigned
    key ← or_fail (decode public_key) malformed_public_key
    sig ← or_fail (decode b.signature) malformed_signature
    payload ← or_fail (bundle_payload b) not_marshalled
    refuse_if (not (length key == public_key_size)) panicked
    refuse_if (not (host.ed25519_verify key payload sig)) bad_signature

-- ===== src/Accept/Samples.antt =====
-- An approval of one changed file, and its revocation.
use kiss_protocol.Base.{
  ◌≡◌, ◌≢◌, refl, true, false, some, [], ◌∷◌, ◌++◌, Bytes, bytes_eq, codes, replicate, ok,
}
use kiss_protocol.Codec.Hex.{encode, decode}
use kiss_protocol.Store.Types.{Entry}
use kiss_protocol.Store.Head.{decode_sized, key_listed}
use kiss_protocol.Accept.Requests.{
  Change, Request, item_key, all_pinned, check_accept, check_revoke, check_kind, check_request,
  Signing, signer_key, signed_payload, verify_sig,
}
use kiss_protocol.Accept.Approvals.{
  Policy, Set, new_set, operator_label, key_label, signer_label, keys_of, keys_of_changes,
  without_id, has_id, settled, apply_kind, apply, approval_of, filter, replay,
}
use kiss_protocol.Accept.Trust.{IsTrusted, apply-IsTrusted, apply-once}
use kiss_protocol.Accept.Coverage.{IsRebuilt, Sifted, filter-Sifted}
use kiss_protocol.Accept.Effects.{replay-IsRebuilt}

abbrev signature : Bytes
signature = 1 ∷ 2 ∷ 3 ∷ []

abbrev signing : Signing
signing = record {
  ed25519_verify = λ pub_key m sig. bytes_eq sig signature;
  marshal_request = λ r. r.id ++ r.reason;
}

abbrev operator_key : Bytes
operator_key = replicate 32 5

abbrev own_key : Bytes
own_key = replicate 32 6

abbrev policy : Policy
policy = record {
  machine_id = codes "box";
  operators = record { label = codes "alice"; pub_key = operator_key } ∷ [];
  own = some own_key;
  allow_own = false;
  any_signer = false;
}

abbrev edited : Change
edited = record {
  type = codes "file_changed";
  path = codes "/etc/hosts";
  process = [];
  old = codes "aa";
  new = codes "bb";
}

abbrev approve : Request
approve = record {
  version = 1;
  kind = codes "accept";
  id = codes "r1";
  machine_id = codes "box";
  created = codes "now";
  reason = codes "update";
  changes = edited ∷ [];
  revokes = [];
  signer = encode operator_key;
  sig = encode signature;
}

abbrev withdraw : Request
withdraw = record approve {
  kind = codes "revoke";
  id = codes "r2";
  changes = [];
  revokes = codes "r1";
}

abbrev approved : Set
approved = settled new_set approve (approval_of approve (codes "alice") ∷ [])

abbrev withdrawn : Set
withdrawn = settled approved withdraw []

approves : apply signing new_set approve policy ≡ ok (approved, codes "alice")
unfolding apply check_request check_kind check_accept all_pinned item_key verify_sig signer_label
    signer_key signed_payload key_label operator_label apply_kind settled keys_of keys_of_changes
    without_id key_listed bytes_eq encode decode decode_sized
approves = refl

withdraws : apply signing approved withdraw policy ≡ ok (withdrawn, codes "alice")
unfolding apply check_request check_kind check_revoke verify_sig signer_label signer_key
    signed_payload key_label operator_label apply_kind settled keys_of has_id without_id key_listed
    bytes_eq encode decode decode_sized
withdraws = refl

apply-IsTrusted_example : IsTrusted signing new_set approve policy
apply-IsTrusted_example =
    apply-IsTrusted signing new_set approved approve policy (codes "alice") approves

abbrev own_request : Request
own_request = record approve { signer = encode own_key }

signed_by_own : signer_key own_request ≡ some own_key
unfolding signer_key encode decode decode_sized
signed_by_own = refl

apply-once_example : apply signing approved approve policy ≢ ok (withdrawn, codes "alice")
apply-once_example =
    apply-once signing new_set approved withdrawn approve policy policy (codes "alice")
      (codes "alice") approves

approved-IsRebuilt : IsRebuilt approved
unfolding settled
approved-IsRebuilt = refl

filter-Sifted_example :
    Sifted approved
      (edited ∷ record edited { new = codes "cc" } ∷ [])
      (filter approved (edited ∷ record edited { new = codes "cc" } ∷ [])).0
      (filter approved (edited ∷ record edited { new = codes "cc" } ∷ [])).1
filter-Sifted_example =
    filter-Sifted approved (edited ∷ record edited { new = codes "cc" } ∷ []) approved-IsRebuilt

not_accept : bytes_eq withdraw.kind (codes "accept") ≡ false
unfolding bytes_eq
not_accept = refl

is_revoke : bytes_eq withdraw.kind (codes "revoke") ≡ true
unfolding bytes_eq
is_revoke = refl

abbrev log_entry : Entry
log_entry = record {
  seq = 1;
  timestamp = 0;
  level = codes "INFO";
  event = codes "drift_accepted";
  source = codes "operator";
  body = codes "x";
}

replay-IsRebuilt_example :
    IsRebuilt (replay signing (λ b. some approve) policy new_set 0 (log_entry ∷ log_entry ∷ [])).0
unfolding keys_of
replay-IsRebuilt_example =
    replay-IsRebuilt signing (λ b. some approve) policy new_set 0 (log_entry ∷ log_entry ∷ []) refl

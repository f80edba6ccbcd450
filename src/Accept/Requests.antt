-- ===== src/Accept/Requests.antt =====
-- internal/accept/request.go, and `itemKey` of set.go: signed requests and their shape.
use kiss_protocol.Base.{
  ℕ, ◌==◌, ◌||◌, not, Bool, true, false, Option, none, some, List, [], ◌∷◌, ◌++◌, Bytes, codes,
  bytes_eq, if◌then◌else◌, Result, err, ◌>>=◌, ◌>>◌, refuse_if, or_fail,
}
use kiss_protocol.Codec.Hex.{decode}
use kiss_protocol.Store.Head.{is_empty, decode_sized, public_key_size}

-- drift.Change
pub record Change : Type 0 where
  pub type : Bytes
  pub path : Bytes
  pub process : Bytes
  pub old : Bytes
  pub new : Bytes

pub record Request : Type 0 where
  pub version : ℕ
  pub kind : Bytes
  pub id : Bytes
  pub machine_id : Bytes
  pub created : Bytes
  pub reason : Bytes
  pub changes : List Change
  pub revokes : Bytes
  pub signer : Bytes  -- hex
  pub sig : Bytes  -- hex

pub data RequestError : Type 0 where
  unsupported_version no_identity no_reason no_changes malformed_change revoke_target_named :
      RequestError
  no_revoke_target changes_listed unknown_kind : RequestError
  other_machine unsigned malformed_signer malformed_sig bad_signature : RequestError
  own_key untrusted_signer already_applied no_active_approval : RequestError

abbrev pub kind_accept : Bytes
kind_accept = codes "accept"

abbrev pub kind_revoke : Bytes
kind_revoke = codes "revoke"

-- What an approval pins for one change; `none` is a change that cannot be pinned.
unfoldable pub item_key : Change → Option Bytes
item_key c =
    if bytes_eq c.type (codes "file_changed") || bytes_eq c.type (codes "file_mode_changed")
    then (if is_empty c.path || is_empty c.new
        then none
        else some (c.type ++ 0 ∷ c.path ++ 0 ∷ c.new))
    else if bytes_eq c.type (codes "file_removed")
    then (if is_empty c.path then none else some (c.type ++ 0 ∷ c.path))
    else if bytes_eq c.type (codes "new_process")
    then (if is_empty c.process then none else some (c.type ++ 0 ∷ c.process))
    else none

unfoldable pub all_pinned : List Change → Bool
all_pinned [] = true
all_pinned (c ∷ cs) = elim (item_key c) [ none ↦ false | some key ↦ all_pinned cs ]

unfoldable pub check_accept : Request → Result RequestError (Unit {0})
check_accept r = do
  refuse_if (is_empty r.changes) no_changes
  refuse_if (not (all_pinned r.changes)) malformed_change
  refuse_if (not (is_empty r.revokes)) revoke_target_named

unfoldable pub check_revoke : Request → Result RequestError (Unit {0})
check_revoke r = do
  refuse_if (is_empty r.revokes) no_revoke_target
  refuse_if (not (is_empty r.changes)) changes_listed

-- The switch at the end of `check`.
unfoldable pub check_kind : Request → Result RequestError (Unit {0})
check_kind r =
    if bytes_eq r.kind kind_accept
    then check_accept r
    else if bytes_eq r.kind kind_revoke
    then check_revoke r
    else err unknown_kind

-- `check`
unfoldable pub check_request : Request → Result RequestError (Unit {0})
check_request r = do
  refuse_if (not (r.version == 1)) unsupported_version
  refuse_if (is_empty r.id || is_empty r.machine_id) no_identity
  refuse_if (is_empty r.reason) no_reason
  check_kind r

-- ed25519, and the JSON of a request, which always encodes.
pub record Signing : Type 0 where
  pub ed25519_verify : Bytes → Bytes → Bytes → Bool
  pub marshal_request : Request → Bytes

-- `SignerKey`
unfoldable pub signer_key : Request → Option Bytes
signer_key r = decode_sized public_key_size r.signer

module _ (signing : Signing) where
  -- The bytes that the signature covers.
  unfoldable pub signed_payload : Request → Bytes
  signed_payload r = signing.marshal_request (record r { sig = [] })

  -- `verifySig`
  unfoldable pub verify_sig : Request → Result RequestError (Unit {0})
  verify_sig r = do
    refuse_if (is_empty r.sig) unsigned
    pub_key ← or_fail (signer_key r) malformed_signer
    sig ← or_fail (decode r.sig) malformed_sig
    refuse_if (not (signing.ed25519_verify pub_key (signed_payload r) sig)) bad_signature

-- ===== src/Accept/Approvals.antt =====
-- internal/accept/set.go: the active approvals, rebuilt from the log and extended by requests.
use kiss_protocol.Base.{
  ℕ, ◌+◌, ◌||◌, ◌&&◌, not, Bool, false, Option, none, some, List, [], ◌∷◌, Bytes, codes, bytes_eq,
  length, if◌then◌else◌, Result, ok, err, ◌>>=◌, ◌>>◌, refuse_if, or_fail,
}
use kiss_protocol.Store.Types.{Entry}
use kiss_protocol.Store.Head.{key_listed}
use kiss_protocol.Accept.Requests.{
  Change, Request, RequestError, other_machine, malformed_signer, own_key, untrusted_signer,
  already_applied, no_active_approval, kind_accept, kind_revoke, item_key, check_request, Signing,
  signer_key, verify_sig,
}

-- soul.AllowlistEntry
pub record Operator : Type 0 where
  pub label : Bytes
  pub pub_key : Bytes

pub record Policy : Type 0 where
  pub machine_id : Bytes
  pub operators : List Operator
  pub own : Option Bytes
  pub allow_own : Bool
  pub any_signer : Bool

pub record Approval : Type 0 where
  pub id : Bytes
  pub by : Bytes
  pub label : Bytes
  pub reason : Bytes
  pub created : Bytes
  pub changes : List Change

pub record Set : Type 0 where
  pub approvals : List Approval  -- a map by id
  pub items : List Bytes
  pub seen : List Bytes

abbrev pub new_set : Set
new_set = record { approvals = []; items = []; seen = [] }

abbrev pub is_own : Option Bytes → Bytes → Bool
is_own none pub_key = false
is_own (some own) pub_key = bytes_eq pub_key own

unfoldable pub operator_label : Bytes → List Operator → Option Bytes
operator_label pub_key [] = none
operator_label pub_key (op ∷ ops) =
    if bytes_eq pub_key op.pub_key then some op.label else operator_label pub_key ops

-- The part of `signerLabel` after the key is decoded.
unfoldable pub key_label : Policy → Bytes → Result RequestError Bytes
key_label p pub_key =
    if is_own p.own pub_key
    then (if p.allow_own then ok (codes "witness-key(dev)") else err own_key)
    else elim (operator_label pub_key p.operators) [
      | some label ↦ ok label
      | none ↦ if p.any_signer then ok (codes "(not in operators.txt)") else err untrusted_signer
    ]

-- `signerLabel`
unfoldable pub signer_label : Policy → Request → Result RequestError Bytes
signer_label p r = or_fail (signer_key r) malformed_signer >>= λ pub_key. key_label p pub_key

unfoldable pub without_id : Bytes → List Approval → List Approval
without_id id [] = []
without_id id (a ∷ rest) =
    let kept = without_id id rest in if bytes_eq a.id id then kept else a ∷ kept

unfoldable pub has_id : Bytes → List Approval → Bool
has_id id [] = false
has_id id (a ∷ rest) = bytes_eq a.id id || has_id id rest

unfoldable pub keys_of_changes : List Change → List Bytes → List Bytes
keys_of_changes [] more = more
keys_of_changes (c ∷ cs) more =
    let rest = keys_of_changes cs more in elim (item_key c) [ none ↦ rest | some key ↦ key ∷ rest ]

-- The items that `rebuild` makes.
unfoldable pub keys_of : List Approval → List Bytes
keys_of [] = []
keys_of (a ∷ rest) = keys_of_changes a.changes (keys_of rest)

-- The end of `Apply`: the request is marked as seen, and `rebuild` makes the items again.
unfoldable pub settled : Set → Request → List Approval → Set
settled s r approvals = record {
  approvals = approvals;
  items = keys_of approvals;
  seen = r.id ∷ s.seen;
}

abbrev pub approval_of : Request → Bytes → Approval
approval_of r label = record {
  id = r.id;
  by = r.signer;
  label = label;
  reason = r.reason;
  created = r.created;
  changes = r.changes;
}

-- The switch of `Apply`; another kind changes no approval.
unfoldable pub apply_kind : Set → Request → Bytes → Result RequestError Set
apply_kind s r label =
    if bytes_eq r.kind kind_accept
    then ok (settled s r (approval_of r label ∷ without_id r.id s.approvals))
    else if bytes_eq r.kind kind_revoke
    then (if has_id r.revokes s.approvals
        then ok (settled s r (without_id r.revokes s.approvals))
        else err no_active_approval)
    else ok (settled s r s.approvals)

module _ (signing : Signing) where
  -- `Apply`, with the set and the label that it trusts the signer under.
  unfoldable pub apply : Set → Request → Policy → Result RequestError (Set × Bytes)
  apply s r p = do
    check_request r
    refuse_if (not (bytes_eq r.machine_id p.machine_id)) other_machine
    verify_sig signing r
    label ← signer_label p r
    refuse_if (key_listed r.id s.seen) already_applied
    s' ← apply_kind s r label
    ok (s', label)

  -- What `Replay` reads of an entry: `none` is another entry, `some none` data without a request.
  unfoldable pub recorded : (Bytes → Option Request) → Entry → Option (Option Request)
  recorded read_request e =
      if not (bytes_eq e.source (codes "operator"))
        || (not (bytes_eq e.event (codes "drift_accepted"))
            && not (bytes_eq e.event (codes "drift_accept_revoked")))
      then none
      else some (read_request e.body)

  -- `Replay`, from a set and a number of skipped entries; `read_request` is the JSON of an entry's data.
  unfoldable pub replay : (Bytes → Option Request) → Policy → Set → ℕ → List Entry → Set × ℕ
  replay read_request p s skipped [] = (s, skipped)
  replay read_request p s skipped (e ∷ es) = elim (recorded read_request e) [
    | none ↦ replay read_request p s skipped es
    | some none ↦ replay read_request p s (skipped + 1) es
    | some (some r) ↦ elim (apply s r p) [
      | ok (s', label) ↦ replay read_request p s' skipped es
      | err failure ↦ replay read_request p s (skipped + 1) es
    ]
  ]

abbrev pub is_approved : Set → Option Bytes → Bool
is_approved s none = false
is_approved s (some key) = key_listed key s.items

-- `Filter`
unfoldable pub filter : Set → List Change → List Change × ℕ
filter s [] = ([], 0)
filter s (c ∷ cs) =
    let (unapproved, approved) = filter s cs in
    if is_approved s (item_key c) then (unapproved, approved + 1) else (c ∷ unapproved, approved)

pub record EntryData : Type 0 where
  pub id : Bytes
  pub label : Bytes
  pub reason : Bytes
  pub revokes : Bytes
  pub items : ℕ
  pub request : Request

-- `EntryFor`: the event that records an applied request, and its data.
unfoldable pub entry_for : Request → Bytes → Bytes × EntryData
entry_for r label =
    if bytes_eq r.kind kind_revoke
    then (
      codes "drift_accept_revoked",
      record {
        id = r.id;
        label = label;
        reason = r.reason;
        revokes = r.revokes;
        items = 0;
        request = r;
      },
    )
    else (
      codes "drift_accepted",
      record {
        id = r.id;
        label = label;
        reason = r.reason;
        revokes = [];
        items = length r.changes;
        request = r;
      },
    )

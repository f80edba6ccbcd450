-- ===== src/Accept/Trust.antt =====
-- Whose requests `Apply` takes, and how often.
use kiss_protocol.Base.{
  ◌≡◌, ◌≢◌, ◌⊎◌, inl, inr, refl, sym, ap, ◌∙◌, not, true, false, Option, some, List, ◌∷◌, Bytes,
  bytes_eq, bytes_eq_sound, bytes_eq_refl, Result, ok, refused-then, needed-then, done-then,
  bound-then, arith, Option-cases, Bool-cases,
}
use kiss_protocol.Codec.Hex.{decode}
use kiss_protocol.Store.Head.{is_empty, key_listed}
use kiss_protocol.Accept.Requests.{
  Request, RequestError, unsigned, malformed_signer, malformed_sig, other_machine, already_applied,
  kind_accept, kind_revoke, check_request, Signing, signer_key, signed_payload, verify_sig,
}
use kiss_protocol.Accept.Approvals.{
  Policy, Set, is_own, operator_label, key_label, signer_label, has_id, settled, apply_kind, apply,
}

-- A key that a policy lets approve.
abbrev pub IsAllowed : Policy → Bytes → Type 0
IsAllowed p pub_key =
    ((is_own p.own pub_key ≡ true) × (p.allow_own ≡ true))
    ⊎ ((is_own p.own pub_key ≡ false)
        × (((label : Bytes) × (operator_label pub_key p.operators ≡ some label))
            ⊎ (p.any_signer ≡ true)))

key_label-IsAllowed :
    (p : Policy) (pub_key label : Bytes) → key_label p pub_key ≡ ok label → IsAllowed p pub_key
unfolding key_label
key_label-IsAllowed p pub_key label h = elim (Bool-cases (is_own p.own pub_key)) [
  | inl own ↦ inl (own, ground arith)
  | inr other ↦ elim (Option-cases (operator_label pub_key p.operators)) [
    | inl unlisted ↦ inr (other, inr (ground arith))
    | inr (found, e) ↦ inr (other, inl (found, e))
  ]
]

same_some : (a b : Bytes) → ◌≡◌ {A = Option Bytes} (some a) (some b) → a ≡ b
same_some a b e = cc

first_ok :
    (s : Set) (l : Bytes) (s' : Set) (l' : Bytes)
    → ◌≡◌ {A = Result RequestError (Set × Bytes)} (ok (s, l)) (ok (s', l'))
    → s ≡ s'
first_ok s l s' l' e = cc

key_listed-first : (k : Bytes) (ks : List Bytes) → key_listed k (k ∷ ks) ≡ true
unfolding key_listed
key_listed-first k ks = rw (bytes_eq_refl k) refl

apply_kind-seen :
    (s s' : Set) (r : Request) (label : Bytes)
    → apply_kind s r label ≡ ok s'
    → s'.seen ≡ r.id ∷ s.seen
unfolding apply_kind settled
apply_kind-seen s s' r label h = elim (Bool-cases (bytes_eq r.kind kind_accept)) [
  | inl accept ↦ ground arith
  | inr other ↦ elim (Bool-cases (bytes_eq r.kind kind_revoke)) [
    | inl revoke ↦ elim (Bool-cases (has_id r.revokes s.approvals)) [
      | inl active ↦ ground arith
      | inr missing ↦ absurd (ground arith)
    ]
    | inr neither ↦ ground arith
  ]
]

module _ (signing : Signing) where
  -- The evidence behind a request that was taken.
  pub record IsTrusted (s : Set) (r : Request) (p : Policy) : Type 0 where
    pub well_formed : check_request r ≡ ok tt
    pub same_machine : r.machine_id ≡ p.machine_id
    pub signer_bytes : Bytes
    pub signature_bytes : Bytes
    pub key_decodes : signer_key r ≡ some signer_bytes
    pub signature_decodes : decode r.sig ≡ some signature_bytes
    pub verifies :
        signing.ed25519_verify signer_bytes (signed_payload signing r) signature_bytes ≡ true
    pub allowed : IsAllowed p signer_bytes
    pub not_seen : key_listed r.id s.seen ≡ false

  -- `Apply` takes a request only if it is well formed, for this machine, signed by the key it names,
  -- that key may approve under the policy, and its id has not been seen.
  pub apply-IsTrusted :
      (s s' : Set) (r : Request) (p : Policy) (label : Bytes)
      → apply signing s r p ≡ ok (s', label)
      → IsTrusted s r p
  unfolding apply verify_sig signer_label
  apply-IsTrusted s s' r p label h =
      let (shape, h1) = done-then (check_request r) _ h in
      let (here, h2) = refused-then (not (bytes_eq r.machine_id p.machine_id)) other_machine _ h1 in
      let (good, h3) = done-then (verify_sig signing r) _ h2 in
      let (found, labelled, h4) = bound-then (signer_label p r) _ h3 in
      let (fresh_id, h5) = refused-then (key_listed r.id s.seen) already_applied _ h4 in
      let (has_sig, g1) = refused-then (is_empty r.sig) unsigned _ good in
      let (pub_key, ek, g2) = needed-then (signer_key r) malformed_signer _ g1 in
      let (sig, es, g3) = needed-then (decode r.sig) malformed_sig _ g2 in
      let (other_key, ek', g4) = needed-then (signer_key r) malformed_signer _ labelled in
      let one_key : other_key ≡ pub_key = ground arith in
      record {
        well_formed = shape;
        same_machine = bytes_eq_sound r.machine_id p.machine_id (ground arith);
        signer_bytes = pub_key;
        signature_bytes = sig;
        key_decodes = ek;
        signature_decodes = es;
        verifies = ground arith;
        allowed = key_label-IsAllowed p pub_key found (rw one_key at g4);
        not_seen = fresh_id;
      }

  pub apply-made :
      (s s' : Set) (r : Request) (p : Policy) (label : Bytes)
      → apply signing s r p ≡ ok (s', label)
      → (found : Bytes) × (apply_kind s r found ≡ ok s')
  unfolding apply
  apply-made s s' r p label h =
      let (shape, h1) = done-then (check_request r) _ h in
      let (same, h2) = refused-then (not (bytes_eq r.machine_id p.machine_id)) other_machine _ h1 in
      let (good, h3) = done-then (verify_sig signing r) _ h2 in
      let (found, labelled, h4) = bound-then (signer_label p r) _ h3 in
      let (fresh_id, h5) = refused-then (key_listed r.id s.seen) already_applied _ h4 in
      let (made, applied, h6) = bound-then (apply_kind s r found) _ h5 in
      (found, applied ∙ ap ok (first_ok made found s' label h6))

  apply-seen :
      (s s' : Set) (r : Request) (p : Policy) (label : Bytes)
      → apply signing s r p ≡ ok (s', label)
      → s'.seen ≡ r.id ∷ s.seen
  apply-seen s s' r p label h =
      let (found, made) = apply-made s s' r p label h in apply_kind-seen s s' r found made

  -- The witness's own key approves nothing unless the policy allows it.
  pub apply-own_key :
      (s s' : Set) (r : Request) (p : Policy) (label own : Bytes)
      → p.own ≡ some own
      → p.allow_own ≡ false
      → signer_key r ≡ some own
      → apply signing s r p ≢ ok (s', label)
  apply-own_key s s' r p label own is refused signed h =
      let t = apply-IsTrusted s s' r p label h in
      let one_key : t.signer_bytes ≡ own =
        same_some t.signer_bytes own (sym t.key_decodes ∙ signed) in
      let own_signs : is_own p.own t.signer_bytes ≡ true = rw (is, one_key) (bytes_eq_refl own) in
      elim t.allowed [ inl (own_key, allows) ↦ cc | inr (other_key, listed) ↦ cc ]

  -- A request that was taken is not taken again, whatever the policy is then.
  pub apply-once :
      (s s' s'' : Set) (r : Request) (p p' : Policy) (label : Bytes) (again : Bytes)
      → apply signing s r p ≡ ok (s', label)
      → apply signing s' r p' ≢ ok (s'', again)
  apply-once s s' s'' r p p' label again h h' =
      let t = apply-IsTrusted s' s'' r p' again h' in
      let listed : key_listed r.id s'.seen ≡ true =
        rw (apply-seen s s' r p label h) (key_listed-first r.id s.seen) in
      cc

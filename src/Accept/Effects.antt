-- ===== src/Accept/Effects.antt =====
-- What `Apply` and `Replay` do to the approvals.
use kiss_protocol.Base.{
  ℕ, ◌+◌, ◌≡◌, ◌⊎◌, inl, inr, refl, true, false, Option, List, [], ◌∷◌, Bytes, bytes_eq, Result, ok,
  err, arith, Option-cases, Bool-cases,
}
use kiss_protocol.Store.Types.{Entry}
use kiss_protocol.Accept.Requests.{Request, Signing, kind_accept, kind_revoke}
use kiss_protocol.Accept.Approvals.{
  Policy, Set, without_id, has_id, settled, apply_kind, apply, recorded, replay,
}
use kiss_protocol.Accept.Trust.{apply-made}
use kiss_protocol.Accept.Coverage.{IsRebuilt, without_id_gone}

apply_kind-IsRebuilt :
    (s s' : Set) (r : Request) (label : Bytes) → apply_kind s r label ≡ ok s' → IsRebuilt s'
unfolding apply_kind settled
apply_kind-IsRebuilt s s' r label h = elim (Bool-cases (bytes_eq r.kind kind_accept)) [
  | inl accept ↦ ground arith
  | inr other ↦ elim (Bool-cases (bytes_eq r.kind kind_revoke)) [
    | inl revoke ↦ elim (Bool-cases (has_id r.revokes s.approvals)) [
      | inl active ↦ ground arith
      | inr missing ↦ absurd (ground arith)
    ]
    | inr neither ↦ ground arith
  ]
]

Result-cases : {E A : Type 0} (m : Result E A) → ((a : A) × (m ≡ ok a)) ⊎ ((e : E) × (m ≡ err e))
Result-cases (err e) = inr (e, refl)
Result-cases (ok a) = inl (a, refl)

module _ (signing : Signing) where
  -- A revocation that was taken leaves no active approval of the id that it names.
  pub apply-revokes :
      (s s' : Set) (r : Request) (p : Policy) (label : Bytes)
      → bytes_eq r.kind kind_accept ≡ false
      → bytes_eq r.kind kind_revoke ≡ true
      → apply signing s r p ≡ ok (s', label)
      → (has_id r.revokes s.approvals ≡ true) × (has_id r.revokes s'.approvals ≡ false)
  unfolding apply_kind settled
  apply-revokes s s' r p label other revoke h =
      let (found, made) = apply-made signing s s' r p label h in
      elim (Bool-cases (has_id r.revokes s.approvals)) [
        | inl active ↦
            let same : s'.approvals ≡ without_id r.revokes s.approvals = ground arith in
            (active, rw same (without_id_gone r.revokes s.approvals))
        | inr missing ↦ absurd (ground arith)
      ]

  -- From a rebuilt set, `Replay` makes a rebuilt set, whatever the entries hold.
  pub replay-IsRebuilt :
      (read_request : Bytes → Option Request) (p : Policy) (s : Set) (skipped : ℕ) (es : List Entry)
      → IsRebuilt s
      → IsRebuilt (replay signing read_request p s skipped es).0
  unfolding replay
  replay-IsRebuilt read_request p s skipped [] built = built
  replay-IsRebuilt read_request p s skipped (e ∷ es) built =
      elim (Option-cases (recorded signing read_request e)) [
        | inl other ↦ rw (replay, other) (replay-IsRebuilt read_request p s skipped es built)
        | inr (found, er) ↦ elim (Option-cases found) [
          | inl bad ↦
              rw (replay, er, bad) (replay-IsRebuilt read_request p s (skipped + 1) es built)
          | inr (r, ef) ↦ elim (Result-cases (apply signing s r p)) [
            | inl ((s', label), ea) ↦
                let (l, made) = apply-made signing s s' r p label ea in
                rw (replay, er, ef, ea)
                  (replay-IsRebuilt read_request p s' skipped es
                    (apply_kind-IsRebuilt s s' r l made))
            | inr (failure, ea) ↦
                rw (replay, er, ef, ea) (replay-IsRebuilt read_request p s (skipped + 1) es built)
          ]
        ]
      ]

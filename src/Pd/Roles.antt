-- ===== src/Pd/Roles.antt =====
-- internal/pd/roles/roles.go.
use kiss_protocol.Base.{
  ◌≡◌, ◌⊎◌, inl, inr, refl, Bool, true, false, ◌||◌, Option, none, some, List, [], ◌∷◌, Bytes,
  codes, bytes_eq, if◌then◌else◌, Bool-cases, bytes_eq_sound, arith,
}

abbrev pub role_chief : Bytes
role_chief = codes "chief"

abbrev pub role_evidence_clerk : Bytes
role_evidence_clerk = codes "evidence_clerk"

abbrev pub role_tech_admin : Bytes
role_tech_admin = codes "tech_admin"

abbrev pub role_officer : Bytes
role_officer = codes "officer"

abbrev pub role_auditor : Bytes
role_auditor = codes "auditor"

abbrev pub perm_intake : Bytes
perm_intake = codes "intake"

abbrev pub perm_transfer : Bytes
perm_transfer = codes "transfer"

abbrev pub perm_hold_set : Bytes
perm_hold_set = codes "hold:set"

abbrev pub perm_hold_release : Bytes
perm_hold_release = codes "hold:release"

abbrev pub perm_export : Bytes
perm_export = codes "export"

abbrev pub perm_destroy : Bytes
perm_destroy = codes "destroy"

abbrev pub perm_audit_read : Bytes
perm_audit_read = codes "audit:read"

abbrev pub perm_node_admin : Bytes
perm_node_admin = codes "node:admin"

abbrev pub perm_status : Bytes
perm_status = codes "status"

-- The keys of the table; a `Role` is any string.
abbrev pub all_roles : List Bytes
all_roles = role_chief ∷ role_evidence_clerk ∷ role_tech_admin ∷ role_officer ∷ role_auditor ∷ []

-- `grants`; `none` is a role that the table does not have.
unfoldable pub grants : Bytes → Option (List Bytes)
grants role =
    if bytes_eq role role_chief
    then some (
        perm_intake ∷ perm_transfer ∷ perm_hold_set ∷ perm_hold_release ∷ perm_export ∷ perm_destroy
        ∷ perm_audit_read ∷ perm_node_admin ∷ perm_status ∷ [])
    else if bytes_eq role role_evidence_clerk
    then some (perm_intake ∷ perm_transfer ∷ perm_hold_set ∷ perm_hold_release ∷ perm_status ∷ [])
    else if bytes_eq role role_tech_admin
    then some (perm_node_admin ∷ perm_status ∷ perm_audit_read ∷ [])
    else if bytes_eq role role_officer
    then some (perm_intake ∷ perm_status ∷ [])
    else if bytes_eq role role_auditor
    then some (perm_audit_read ∷ perm_status ∷ [])
    else none

unfoldable pub listed_perm : Bytes → List Bytes → Bool
listed_perm perm [] = false
listed_perm perm (p ∷ ps) = bytes_eq p perm || listed_perm perm ps

-- `Can`
unfoldable pub can : Bytes → Bytes → Bool
can role perm = elim (grants role) [ none ↦ false | some perms ↦ listed_perm perm perms ]

-- `Valid`
unfoldable pub valid_role : Bytes → Bool
valid_role role = elim (grants role) [ none ↦ false | some perms ↦ true ]

grants-cases :
    (role : Bytes)
    → (role ≡ role_chief)
      ⊎ (role ≡ role_evidence_clerk)
      ⊎ (role ≡ role_tech_admin)
      ⊎ (role ≡ role_officer)
      ⊎ (role ≡ role_auditor)
      ⊎ (grants role ≡ none)
unfolding grants
grants-cases role = elim (Bool-cases (bytes_eq role role_chief)) [
  | inl is ↦ inl (bytes_eq_sound role role_chief is)
  | inr not_1 ↦ elim (Bool-cases (bytes_eq role role_evidence_clerk)) [
    | inl is ↦ inr (inl (bytes_eq_sound role role_evidence_clerk is))
    | inr not_2 ↦ elim (Bool-cases (bytes_eq role role_tech_admin)) [
      | inl is ↦ inr (inr (inl (bytes_eq_sound role role_tech_admin is)))
      | inr not_3 ↦ elim (Bool-cases (bytes_eq role role_officer)) [
        | inl is ↦ inr (inr (inr (inl (bytes_eq_sound role role_officer is))))
        | inr not_4 ↦ elim (Bool-cases (bytes_eq role role_auditor)) [
          | inl is ↦ inr (inr (inr (inr (inl (bytes_eq_sound role role_auditor is)))))
          | inr not_5 ↦
              inr (inr (inr (inr (inr (rw (not_1, not_2, not_3, not_4, not_5, grants) refl)))))
        ]
      ]
    ]
  ]
]

-- What a role string may do.
pub record IsDutyBound (role : Bytes) : Type 0 where
  pub destroys : can role perm_destroy ≡ true → role ≡ role_chief
  pub exports : can role perm_export ≡ true → role ≡ role_chief
  pub releases :
      can role perm_hold_release ≡ true → (role ≡ role_chief) ⊎ (role ≡ role_evidence_clerk)
  pub reads_audit :
      can role perm_audit_read ≡ true
      → (role ≡ role_chief) ⊎ (role ≡ role_tech_admin) ⊎ (role ≡ role_auditor)
  pub unknown : valid_role role ≡ false → (perm : Bytes) → can role perm ≡ false

chief-IsDutyBound : IsDutyBound role_chief
unfolding can valid_role grants bytes_eq
chief-IsDutyBound = record {
  destroys = λ h. refl;
  exports = λ h. refl;
  releases = λ h. inl refl;
  reads_audit = λ h. inl refl;
  unknown = λ h perm. absurd (cc);
}

clerk-IsDutyBound : IsDutyBound role_evidence_clerk
unfolding can valid_role grants listed_perm bytes_eq
clerk-IsDutyBound = record {
  destroys = λ h. absurd (cc);
  exports = λ h. absurd (cc);
  releases = λ h. inr refl;
  reads_audit = λ h. absurd (cc);
  unknown = λ h perm. absurd (cc);
}

tech_admin-IsDutyBound : IsDutyBound role_tech_admin
unfolding can valid_role grants listed_perm bytes_eq
tech_admin-IsDutyBound = record {
  destroys = λ h. absurd (cc);
  exports = λ h. absurd (cc);
  releases = λ h. absurd (cc);
  reads_audit = λ h. inr (inl refl);
  unknown = λ h perm. absurd (cc);
}

officer-IsDutyBound : IsDutyBound role_officer
unfolding can valid_role grants listed_perm bytes_eq
officer-IsDutyBound = record {
  destroys = λ h. absurd (cc);
  exports = λ h. absurd (cc);
  releases = λ h. absurd (cc);
  reads_audit = λ h. absurd (cc);
  unknown = λ h perm. absurd (cc);
}

auditor-IsDutyBound : IsDutyBound role_auditor
unfolding can valid_role grants listed_perm bytes_eq
auditor-IsDutyBound = record {
  destroys = λ h. absurd (cc);
  exports = λ h. absurd (cc);
  releases = λ h. absurd (cc);
  reads_audit = λ h. inr (inr refl);
  unknown = λ h perm. absurd (cc);
}

unknown-IsDutyBound : (role : Bytes) → grants role ≡ none → IsDutyBound role
unfolding can
unknown-IsDutyBound role h = record {
  destroys = λ is. absurd (ground (arith, h, is));
  exports = λ is. absurd (ground (arith, h, is));
  releases = λ is. absurd (ground (arith, h, is));
  reads_audit = λ is. absurd (ground (arith, h, is));
  unknown = λ is perm. rw (h, can) refl;
}

-- Whatever string is given as the role, `Can` lets only the chief destroy or export, only the chief
-- and the evidence clerk release a hold, only the chief, the tech admin and the auditor read the
-- audit log, and a role that `Valid` does not know do nothing at all.
pub can-IsDutyBound : (role : Bytes) → IsDutyBound role
can-IsDutyBound role = elim (grants-cases role) [
  | inl is ↦ rw is chief-IsDutyBound
  | inr (inl is) ↦ rw is clerk-IsDutyBound
  | inr (inr (inl is)) ↦ rw is tech_admin-IsDutyBound
  | inr (inr (inr (inl is))) ↦ rw is officer-IsDutyBound
  | inr (inr (inr (inr (inl is)))) ↦ rw is auditor-IsDutyBound
  | inr (inr (inr (inr (inr missing)))) ↦ unknown-IsDutyBound role missing
]

-- ===== src/Watchdog/Audit.antt =====
-- The comparison of cmd/witness/audit.go: the head that the mirror holds against the local log.
use kiss_protocol.Base.{
  ℕ, ◌-◌, ◌≤◌, ◌==◌, ◌&&◌, ◌≡◌, ◌≢◌, ◌↔◌, refl, sym, ap, ◌∙◌, inl, inr, not, Bool, true, false,
  Option, none, some, Bytes, bytes_eq, bytes_eq_sound, bytes_eq_refl, length, take, take_all, ltb,
  arith, Bool-cases, if◌then◌else◌,
}
use kiss_protocol.Codec.Hex.{encode}
use kiss_protocol.Merkle.Tree.{root}
use kiss_protocol.Store.Types.{Host, Store, TreeHead}
use kiss_protocol.Store.Head.{is_empty}
use kiss_protocol.Store.Queries.{current_head, root_at}

-- What the audit ends with.
pub data Finding : Type 0 where
  agrees : Bool → Finding  -- whether the previous roots differ
  behind : ℕ → Finding
  ahead roots_differ rewritten lagging unreachable unparseable : Finding

unfoldable pub exit_code : Finding → ℕ
exit_code (agrees warned) = 0
exit_code (behind lag) = 0
exit_code ahead = 1
exit_code roots_differ = 1
exit_code rewritten = 1
exit_code lagging = 2
exit_code unreachable = 2
exit_code unparseable = 2

abbrev pub fetched : Option Bytes → Option Bytes → Option Bytes
fetched none second = second
fetched (some raw) second = some raw

unequal : (xs ys : Bytes) → bytes_eq xs ys ≡ false → xs ≢ ys
unequal xs ys h e = let same : bytes_eq xs ys ≡ true = rw e (bytes_eq_refl ys) in cc

zero-one : ◌≢◌ {A = ℕ} 0 1
zero-one h = omega (arith, h)

two-one : ◌≢◌ {A = ℕ} 2 1
two-one h = omega (arith, h)

module _ (host : Host) where
  -- The case of a mirror that is behind.
  unfoldable pub audit_behind : Store → ℕ → TreeHead → Finding
  audit_behind s max_lag remote = elim (root_at host s remote.size) [
    | none ↦ rewritten
    | some prefix ↦
        if not (bytes_eq prefix remote.root)
        then rewritten
        else if ltb 0 max_lag && ltb max_lag (length s.leaves - remote.size)
        then lagging
        else behind (length s.leaves - remote.size)
  ]

  -- The switch over the sizes.
  unfoldable pub audit_head : Bytes → Store → ℕ → TreeHead → Finding
  audit_head now_text s max_lag remote =
      let local = current_head host now_text s in
      if ltb local.size remote.size
      then ahead
      else if remote.size == local.size
      then if not (bytes_eq local.root remote.root)
        then roots_differ
        else agrees (
            not (is_empty remote.prev_root)
            && not (is_empty local.prev_root)
            && not (bytes_eq remote.prev_root local.prev_root))
      else audit_behind s max_lag remote

  -- `cmdAudit` from the fetch on: a fetch that fails is made once more.
  unfoldable pub audit : Bytes → Store → ℕ → Option Bytes → Option Bytes → Finding
  audit now_text s max_lag first second = elim (fetched first second) [
    | none ↦ unreachable
    | some raw ↦ elim (host.unmarshal_head raw) [
      | none ↦ unparseable
      | some remote ↦ audit_head now_text s max_lag remote
    ]
  ]

  -- The mirror holds the root of the first leaves of the local log.
  abbrev pub IsExtended : Store → TreeHead → Type 0
  IsExtended s remote =
      (remote.size ≤ length s.leaves)
      × (remote.root ≡ encode (root host.blake3 (take remote.size s.leaves)))

  root_at-within :
      (s : Store) (size : ℕ)
      → size ≤ length s.leaves
      → root_at host s size ≡ some (encode (root host.blake3 (take size s.leaves)))
  unfolding root_at
  root_at-within s size le =
      let within : ltb (length s.leaves) size ≡ false = ground (arith, le) in
      rw (within, root_at) refl

  audit_behind_iff :
      (s : Store) (max_lag : ℕ) (remote : TreeHead)
      → remote.size ≤ length s.leaves
      → (exit_code (audit_behind s max_lag remote) ≢ 1) ↔ IsExtended s remote
  unfolding audit_behind exit_code
  audit_behind_iff s max_lag remote le =
      let prefix = encode (root host.blake3 (take remote.size s.leaves)) in
      let found = root_at-within s remote.size le in
      elim (Bool-cases (bytes_eq prefix remote.root)) [
        | inr differs ↦
            rw (found, differs, audit_behind)
              (
                (λ h. absurd (h refl)),
                (λ (within, same). absurd (unequal prefix remote.root differs (sym same))),
              )
        | inl same ↦
            elim (Bool-cases (ltb 0 max_lag && ltb max_lag (length s.leaves - remote.size))) [
              | inl late ↦
                  rw (found, same, late, audit_behind)
                    ((λ h. (le, sym (bytes_eq_sound prefix remote.root same))), (λ e. two-one))
              | inr tolerated ↦
                  rw (found, same, tolerated, audit_behind)
                    ((λ h. (le, sym (bytes_eq_sound prefix remote.root same))), (λ e. zero-one))
            ]
      ]

  -- The audit ends with 1 exactly when the local log does not extend the head that the mirror holds:
  -- the head is larger than the log, or its root is not that of the leaves of its size. A lag or a
  -- different previous root never makes it end with 1.
  pub audit_head-fails_iff :
      (now_text : Bytes) (s : Store) (max_lag : ℕ) (remote : TreeHead)
      → (exit_code (audit_head now_text s max_lag remote) ≢ 1) ↔ IsExtended s remote
  unfolding audit_head current_head exit_code
  audit_head-fails_iff now_text s max_lag remote =
      elim (Bool-cases (ltb (length s.leaves) remote.size)) [
        | inl larger ↦
            rw (larger, audit_head)
              ((λ h. absurd (h refl)), (λ (within, same). absurd (ground (arith, larger, within))))
        | inr within ↦ elim (Bool-cases (remote.size == length s.leaves)) [
          | inr smaller ↦
              rw (within, smaller, audit_head)
                (audit_behind_iff s max_lag remote (ground (arith, within)))
          | inl equal ↦
              let all : take remote.size s.leaves ≡ s.leaves =
                take_all remote.size s.leaves (ground (arith, equal)) in
              elim (Bool-cases (bytes_eq (encode (root host.blake3 s.leaves)) remote.root)) [
                | inr differs ↦
                    rw (within, equal, differs, audit_head)
                      (
                        (λ h. absurd (h refl)),
                        (λ (le, same). absurd (
                            unequal (encode (root host.blake3 s.leaves)) remote.root differs
                              (sym (same ∙ ap (λ ls. encode (root host.blake3 ls)) all)))),
                      )
                | inl same ↦
                    rw (within, equal, same, audit_head)
                      (
                        (λ h. (
                          ground (arith, within),
                          sym (bytes_eq_sound (encode (root host.blake3 s.leaves)) remote.root same)
                              ∙ ap (λ ls. encode (root host.blake3 ls)) (sym all),
                        )),
                        (λ e. zero-one),
                      )
              ]
        ]
      ]

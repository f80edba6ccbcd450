-- ===== src/Bridges/Levels.antt =====
-- The levels that internal/pipelock_bridge/bridge.go, internal/pipelock_bridge/stderr.go and
-- internal/sbh/bridge.go give to what they forward. strings.ToUpper and strings.ToLower are arguments,
-- and so is what the regular expressions match.
use kiss_protocol.Base.{
  ◌≡◌, ◌↔◌, refl, ap, ◌∙◌, inl, inr, not, ◌&&◌, ◌||◌, Bool, true, false, List, [], ◌∷◌, ◌++◌, Bytes,
  codes, bytes_eq, bytes_eq_sound, bytes_eq_refl, arith, Bool-cases, All, suc, length, take,
  replicate, if◌then◌else◌,
}
use kiss_protocol.Store.Head.{is_empty, key_listed}
use kiss_protocol.Bridges.Events.{
  Value, text, flag, object, other_value, Fields, get, text_of, flag_of, event_level, receipt_event,
  receipt_verdict,
}

abbrev pub info : Bytes
info = codes "INFO"

abbrev pub warn : Bytes
warn = codes "WARN"

-- The verdicts of `elevateForVerdict`.
abbrev pub raised_verdicts : List Bytes
raised_verdicts =
    codes "block"
    ∷ codes "blocked"
    ∷ codes "deny"
    ∷ codes "denied"
    ∷ codes "warn"
    ∷ codes "warning"
    ∷ []

-- `ClassifyForge`
abbrev pub is_failed : Value → Bool
is_failed (flag b) = not b
is_failed (text s) = false
is_failed (object fs) = false
is_failed other_value = false

unfoldable pub classify_forge : Fields → Bytes × Bytes
classify_forge evt =
    let capability = text_of (get (codes "capability") evt) in
    (
      if is_failed (get (codes "succeeded") evt) then warn else info,
      if is_empty capability then codes "forge_run" else codes "forge_run:" ++ capability,
    )

-- `ClassifyDecision`
unfoldable pub classify_decision : Fields → Bytes × Bytes
classify_decision evt =
    let stopped = flag_of (get (codes "stop_and_ask") evt) in
    let escalated = flag_of (get (codes "escalation") evt) in
    let risk = text_of (get (codes "manipulation_risk") evt) in
    (
      if stopped || escalated || bytes_eq risk (codes "high") then warn else info,
      if stopped then codes "sbh_decision:stop_and_ask" else codes "sbh_decision:pass",
    )

-- `ClassifyEscalation`
abbrev pub classify_escalation : Fields → Bytes × Bytes
classify_escalation evt = (warn, codes "sbh_escalation")

module _ (to_upper to_lower : Bytes → Bytes) where
  -- `normalizeLevel`
  unfoldable pub normalize_level : Bytes → Bytes
  normalize_level level =
      let upper = to_upper level in
      if bytes_eq upper (codes "DEBUG") || bytes_eq upper (codes "TRACE") || is_empty upper
      then info
      else upper

  -- `elevateForVerdict`
  unfoldable pub elevate_for_verdict : Bytes → Bytes → Bytes
  elevate_for_verdict level verdict =
      if key_listed (to_lower verdict) raised_verdicts && bytes_eq level info then warn else level

  -- `classifyReceipt`
  unfoldable pub classify_receipt : Fields → Bytes × Bytes
  classify_receipt evt = (
    elevate_for_verdict (normalize_level (event_level evt)) (receipt_verdict evt),
    receipt_event evt,
  )

  warn-info : bytes_eq warn info ≡ false
  unfolding bytes_eq
  warn-info = refl

  -- A receipt is recorded as INFO exactly when its own level is, and its verdict, in lower letters, is
  -- none of those that block or warn.
  pub classify_receipt-info_iff :
      (evt : Fields)
      → ((classify_receipt evt).0 ≡ info) ↔ (
          (normalize_level (event_level evt) ≡ info)
          × (key_listed (to_lower (receipt_verdict evt)) raised_verdicts ≡ false))
  unfolding classify_receipt elevate_for_verdict
  classify_receipt-info_iff evt =
      let level = normalize_level (event_level evt) in
      let listed = key_listed (to_lower (receipt_verdict evt)) raised_verdicts in
      elim (Bool-cases listed) [
        | inl raised ↦ elim (Bool-cases (bytes_eq level info)) [
          | inl is_info ↦
              rw (raised, is_info, elevate_for_verdict)
                (
                  (λ e.
                      let same : bytes_eq warn info ≡ true =
                        ap (λ x. bytes_eq x info) e ∙ bytes_eq_refl info in
                      absurd (ground (arith, same, warn-info))),
                  (λ (same, none_listed). absurd (ground (arith, none_listed))),
                )
          | inr differs ↦
              rw (raised, differs, elevate_for_verdict)
                (
                  (λ e.
                      let same : bytes_eq level info ≡ true =
                        ap (λ x. bytes_eq x info) e ∙ bytes_eq_refl info in
                      absurd (ground (arith, same, differs))),
                  (λ (same, none_listed). absurd (ground (arith, none_listed))),
                )
        ]
        | inr quiet ↦
            rw (quiet, elevate_for_verdict) ((λ e. (e, refl)), (λ (same, none_listed). same))
      ]

-- The regular expressions of stderr.go.
pub data Pattern : Type 0 where
  error_word error_prefix warn_prefix banner_start banner_stop banner_field : Pattern

abbrev pub error : Bytes
error = codes "ERROR"

module _ (matches : Pattern → Bytes → Bool) where
  -- `classifyStderr`
  unfoldable pub classify_stderr : Bytes → Bytes
  classify_stderr line =
      if matches error_word line || matches error_prefix line
      then error
      else if matches warn_prefix line
      then warn
      else if matches banner_start line || matches banner_stop line || matches banner_field line
      then info
      else warn

  -- `stderrLevels.level`: the level of a line, which is kept for the next.
  unfoldable pub stderr_level : Bytes → Bytes → Bytes
  stderr_level prev line =
      let lvl = classify_stderr line in
      let indented = bytes_eq (take 4 line) (codes "    ") in
      if not (is_empty prev) && indented && not (bytes_eq lvl error) then prev else lvl

  -- The levels of a run of lines.
  unfoldable pub stderr_levels : Bytes → List Bytes → List Bytes
  stderr_levels prev [] = []
  stderr_levels prev (line ∷ rest) =
      let lvl = stderr_level prev line in lvl ∷ stderr_levels lvl rest

  error_line : (prev line : Bytes) → classify_stderr line ≡ error → stderr_level prev line ≡ error
  unfolding stderr_level
  error_line prev line h =
      rw (h, bytes_eq_refl error)
        (ground (
          arith,
          Bool-cases (not (is_empty prev)),
          Bool-cases (bytes_eq (take 4 line) (codes "    ")),
        ))

  continued_line :
      (line : Bytes)
      → bytes_eq (take 4 line) (codes "    ") ≡ true
      → stderr_level error line ≡ error
  unfolding stderr_level
  continued_line line h = elim (Bool-cases (bytes_eq (classify_stderr line) error)) [
    | inl same ↦ rw (h, same) (bytes_eq_sound _ _ same)
    | inr differs ↦ rw (h, differs) refl
  ]

  -- The lines behind an error that are indented by four blanks are errors as it is, whatever they say.
  pub stderr_levels-error :
      (prev line : Bytes) (more : List Bytes)
      → classify_stderr line ≡ error
      → All (λ l. bytes_eq (take 4 l) (codes "    ") ≡ true) more
      → stderr_levels prev (line ∷ more) ≡ replicate (suc (length more)) error
  unfolding stderr_levels
  stderr_levels-error prev line more h indented =
      rw (error_line prev line h) (ap (◌∷◌ error) (continued more indented))
    where
      continued :
          (ls : List Bytes)
          → All (λ l. bytes_eq (take 4 l) (codes "    ") ≡ true) ls
          → stderr_levels error ls ≡ replicate (length ls) error
      continued [] all = refl
      continued (l ∷ ls) (here, all) =
          rw (continued_line l here) (ap (◌∷◌ error) (continued ls all))

-- ===== src/Soul/Allowlist.antt =====
-- The trust allowlist of internal/soul/verify.go. The scanner, strings.TrimSpace and strings.Fields
-- are arguments, and so is whether the file can be written.
use kiss_protocol.Base.{
  ℕ, subst, ◌≡◌, ◌||◌, inl, inr, Bool, true, false, Option, none, some, List, [], ◌∷◌, ◌++◌, Bytes,
  AreBytes, All, codes, bytes_eq, length, arith, Option-cases, Bool-cases, if◌then◌else◌, Result,
  ok, err, ◌>>=◌, or_fail, needed-then, bound-then,
}
use kiss_protocol.Codec.Hex.{encode, decode, decode-AreBytes}
use kiss_protocol.Store.Head.{is_empty, public_key_size, decode_sized}
use kiss_protocol.Accept.Approvals.{Operator}

-- What is not this program's own code.
pub record TextHost : Type 0 where
  pub scan : Bytes → List Bytes × Bool  -- the lines, and whether an error ended them
  pub trim_space : Bytes → Bytes
  pub fields : Bytes → List Bytes

pub data AllowlistError : Type 0 where
  not_found missing_field invalid_key unreadable : AllowlistError

abbrev pub is_comment : Bytes → Bool
is_comment [] = true
is_comment (c ∷ cs) = bytes_eq (c ∷ []) (codes "#")

-- A line with data: its label and its key.
unfoldable pub parse_line : List Bytes → Result AllowlistError Operator
parse_line (label ∷ key_text ∷ rest) = do
  key ← or_fail (decode_sized public_key_size key_text) invalid_key
  ok (record { label = label; pub_key = key })
parse_line _ = err missing_field

module _ (host : TextHost) where
  -- The loop of `LoadAllowlist`.
  unfoldable pub parse_lines : List Bytes → Result AllowlistError (List Operator)
  parse_lines [] = ok []
  parse_lines (line ∷ rest) =
      let text = host.trim_space line in
      let others = parse_lines rest in
      let entry = parse_line (host.fields text) in
      if is_comment text then others else entry >>= λ e. others >>= λ es. ok (e ∷ es)

  -- `LoadAllowlist`; `none` is a file that does not exist.
  unfoldable pub load_allowlist : Option Bytes → Result AllowlistError (List Operator)
  load_allowlist none = err not_found
  load_allowlist (some file) =
      let (lines, failed) = host.scan file in
      parse_lines lines >>= λ es. if failed then err unreadable else ok es

  abbrev pub loaded : Option Bytes → List Operator
  loaded file = elim (load_allowlist file) [ err e ↦ [] | ok es ↦ es ]

-- Whether the allowlist has a key of that hexadecimal text.
unfoldable pub is_listed : Bytes → List Operator → Bool
is_listed text [] = false
is_listed text (o ∷ os) = bytes_eq (encode o.pub_key) text || is_listed text os

-- The header that a new file begins with.
abbrev pub allowlist_header : Bytes
allowlist_header =
    codes "# SGAIL Labs Harborlight "
    ++ (226 ∷ 128 ∷ 148 ∷ [])
    ++ codes " trust allowlist"
    ++ (10 ∷ [])
    ++ codes "# One entry per line: <label> <hex-ed25519-public-key>"
    ++ (10 ∷ [])
    ++ codes "# This file is the bootstrap trust root. Verify it out-of-band."
    ++ (10 ∷ [])
    ++ codes "#"
    ++ (10 ∷ [])

abbrev pub content_of : Option Bytes → Bytes
content_of none = []
content_of (some file) = file

-- `AppendAllowlist`, on a file that can be written.
unfoldable pub append_allowlist : TextHost → Option Bytes → Bytes → Bytes → Option Bytes
append_allowlist host file label pub_key =
    let content = content_of file in
    let started = if is_empty content then allowlist_header else content in
    if is_listed (encode pub_key) (loaded host file)
    then file
    else some (started ++ label ++ codes " " ++ encode pub_key ++ (10 ∷ []))

-- A 32-byte key.
abbrev pub IsKey : Operator → Type 0
IsKey o = AreBytes o.pub_key × (length o.pub_key ≡ public_key_size)

pub decode_sized_sound :
    (n : ℕ) (text key : Bytes)
    → decode_sized n text ≡ some key
    → (decode text ≡ some key) × (length key ≡ n)
unfolding decode_sized
decode_sized_sound n text key h = elim (Option-cases (decode text)) [
  | inl missing ↦ absurd (ground (arith, rw (missing, decode_sized) at h))
  | inr (raw, e) ↦ ground (arith, rw (e, decode_sized) at h, e)
]

same_operator : {a b : Operator} → ◌≡◌ {A = Result AllowlistError Operator} (ok a) (ok b) → a ≡ b
same_operator h = cc

same_operators :
    {a b : List Operator} → ◌≡◌ {A = Result AllowlistError (List Operator)} (ok a) (ok b) → a ≡ b
same_operators h = cc

parse_line-IsKey : (parts : List Bytes) (o : Operator) → parse_line parts ≡ ok o → IsKey o
unfolding parse_line
parse_line-IsKey [] o h = cc
parse_line-IsKey (a ∷ []) o h = cc
parse_line-IsKey (label ∷ text ∷ rest) o h =
    let (key, e, made) = needed-then (decode_sized public_key_size text) invalid_key _ h in
    let (decoded, sized) = decode_sized_sound public_key_size text key e in
    subst IsKey (same_operator made) (decode-AreBytes text key decoded, sized)

module _ (host : TextHost) where
  parse_lines-AreKeys :
      (lines : List Bytes) (es : List Operator) → parse_lines host lines ≡ ok es → All IsKey es
  unfolding parse_lines
  parse_lines-AreKeys [] es h = subst (All IsKey) (same_operators h) tt
  parse_lines-AreKeys (line ∷ rest) es h = elim (Bool-cases (is_comment (host.trim_space line))) [
    | inl comment ↦ parse_lines-AreKeys rest es (rw (comment, parse_lines) at h)
    | inr entry ↦
        let (e, parsed, h1) =
          bound-then (parse_line (host.fields (host.trim_space line))) _
            (rw (entry, parse_lines) at h) in
        let (later, others, made) = bound-then (parse_lines host rest) _ h1 in
        subst (All IsKey) (same_operators made)
          (parse_line-IsKey _ e parsed, parse_lines-AreKeys rest later others)
  ]

  -- Every entry of an allowlist that loads has a key of 32 bytes.
  pub load_allowlist-AreKeys :
      (file : Option Bytes) (es : List Operator) → load_allowlist host file ≡ ok es → All IsKey es
  unfolding load_allowlist
  load_allowlist-AreKeys none es h = cc
  load_allowlist-AreKeys (some file) es h =
      let (found, parsed, h1) = bound-then (parse_lines host (host.scan file).0) _ h in
      elim (Bool-cases (host.scan file).1) [
        | inl failed ↦ absurd (ground (arith, rw failed at h1))
        | inr read ↦
            subst (All IsKey) (same_operators (rw read at h1))
              (parse_lines-AreKeys (host.scan file).0 found parsed)
      ]

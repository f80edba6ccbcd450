-- ===== src/Pipelock/Lines.antt =====
-- The lines of a log file: what `ReadString('\n')` returns, and `trimNewline`.
use kiss_protocol.Base.{
  ℕ, ◌==◌, ◌||◌, ◌≡◌, refl, sym, ap, ◌∙◌, inl, inr, Bool, true, false, Option, none, some, List, [],
  ◌∷◌, ◌++◌, Bytes, arith, Option-cases, Bool-cases, if◌then◌else◌,
}

-- The first line with its newline, and what follows; `none` without a newline.
unfoldable pub split_line : Bytes → Option (Bytes × Bytes)
split_line [] = none
split_line (x ∷ xs) =
    if x == 10
    then some (x ∷ [], xs)
    else elim (split_line xs) [ none ↦ none | some (line, rest) ↦ some (x ∷ line, rest) ]

-- The complete lines, each with its newline.
unfoldable pub lines : Bytes → List Bytes
lines [] = []
lines (x ∷ xs) =
    if x == 10 then (x ∷ []) ∷ lines xs else elim (lines xs) [ [] ↦ [] | l ∷ ls ↦ (x ∷ l) ∷ ls ]

abbrev is_line_end : ℕ → Bool
is_line_end c = c == 10 || c == 13

-- `trimNewline`
unfoldable pub trim_newline : Bytes → Bytes
trim_newline [] = []
trim_newline (x ∷ xs) = elim (trim_newline xs) [
  | [] ↦ if is_line_end x then [] else x ∷ []
  | y ∷ ys ↦ x ∷ y ∷ ys
]

same_pair :
    {a b c d : Bytes}
    → ◌≡◌ {A = Option (Bytes × Bytes)} (some (a, b)) (some (c, d))
    → (a ≡ c) × (b ≡ d)
same_pair h = (cc, cc)

-- The first line, by cases on the first byte.
split_line-first :
    (x : ℕ) (xs : Bytes)
    → (x == 10) ≡ true
    → (split_line (x ∷ xs) ≡ some (x ∷ [], xs)) × (lines (x ∷ xs) ≡ (x ∷ []) ∷ lines xs)
unfolding split_line lines
split_line-first x xs h = (rw (h, split_line) refl, rw (h, lines) refl)

split_line-next :
    (x : ℕ) (xs line rest : Bytes)
    → (x == 10) ≡ false
    → split_line xs ≡ some (line, rest)
    → split_line (x ∷ xs) ≡ some (x ∷ line, rest)
unfolding split_line
split_line-next x xs line rest h e = rw (h, e, split_line) refl

lines-next :
    (x : ℕ) (xs line : Bytes) (more : List Bytes)
    → (x == 10) ≡ false
    → lines xs ≡ line ∷ more
    → lines (x ∷ xs) ≡ (x ∷ line) ∷ more
unfolding lines
lines-next x xs line more h e = rw (h, e, lines) refl

pub split_line-none : (xs : Bytes) → split_line xs ≡ none → lines xs ≡ []
unfolding split_line lines
split_line-none [] h = refl
split_line-none (x ∷ xs) h = elim (Option-cases (split_line xs)) [
  | inl missing ↦ rw (split_line-none xs missing) (ground (arith, missing, h))
  | inr (found, e) ↦ absurd (ground (arith, e, h))
]

pub split_line-some :
    (xs line rest : Bytes)
    → split_line xs ≡ some (line, rest)
    → (xs ≡ line ++ rest) × (lines xs ≡ line ∷ lines rest)
unfolding split_line lines
split_line-some [] line rest h = cc
split_line-some (x ∷ xs) line rest h = elim (Bool-cases (x == 10)) [
  | inl newline ↦
      let (split, listed) = split_line-first x xs newline in
      let (one, two) = same_pair (sym split ∙ h) in rw (← one, ← two) (refl, listed)
  | inr other ↦ elim (Option-cases (split_line xs)) [
    | inl missing ↦ absurd (ground (arith, missing, h))
    | inr ((l, r), e) ↦
        let (whole, first) = split_line-some xs l r e in
        let (one, two) = same_pair (sym (split_line-next x xs l r other e) ∙ h) in
        rw (← one, ← two) (ap (◌∷◌ x) whole, lines-next x xs l (lines r) other first)
  ]
]

-- More bytes behind a line do not change it.
pub split_line-append :
    (xs line rest more : Bytes)
    → split_line xs ≡ some (line, rest)
    → split_line (xs ++ more) ≡ some (line, rest ++ more)
unfolding split_line
split_line-append [] line rest more h = cc
split_line-append (x ∷ xs) line rest more h = elim (Bool-cases (x == 10)) [
  | inl newline ↦
      let (one, two) = same_pair (sym (split_line-first x xs newline).0 ∙ h) in
      rw (← one, ← two) (split_line-first x (xs ++ more) newline).0
  | inr other ↦ elim (Option-cases (split_line xs)) [
    | inl missing ↦ absurd (ground (arith, missing, h))
    | inr ((l, r), e) ↦
        let (one, two) = same_pair (sym (split_line-next x xs l r other e) ∙ h) in
        rw (← one, ← two)
          (split_line-next x (xs ++ more) l (r ++ more) other (split_line-append xs l r more e))
  ]
]

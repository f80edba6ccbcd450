-- ===== src/Pipelock/Spans.antt =====
-- Which lines of the file lie between two positions of the tailer.
use kiss_protocol.Base.{
  drop-drop, ℕ, zero, suc, ◌+◌, ◌≡◌, refl, sym, ap, subst, ◌∙◌, inl, inr, Option, none, some, List,
  [], ◌∷◌, ◌++◌, Bytes, length, drop, drop-append_left, Option-cases,
}
use kiss_protocol.Pipelock.Lines.{split_line, lines, split_line-some, split_line-append}
use kiss_protocol.Pipelock.Tailer.{event_of}

-- `ls` are the lines that are read from the position `a` on, up to the position `b`.
abbrev pub Between : Bytes → ℕ → List Bytes → ℕ → Type 0
Between file a [] b = a ≡ b
Between file a (l ∷ ls) b =
    (rest : Bytes) × (split_line (drop a file) ≡ some (l, rest)) × Between file (a + length l) ls b

pub Between-append :
    (file : Bytes) (a b c : ℕ) (ls ms : List Bytes)
    → Between file a ls b
    → Between file b ms c
    → Between file a (ls ++ ms) c
Between-append file a b c [] ms h k = subst (λ x. Between file x ms c) (sym h) k
Between-append file a b c (l ∷ ls) ms (rest, e, h) k =
    (rest, e, Between-append file (a + length l) b c ls ms h k)

split_line-grown :
    (a : ℕ) (file line rest more : Bytes)
    → split_line (drop a file) ≡ some (line, rest)
    → split_line (drop a (file ++ more)) ≡ some (line, rest ++ more)
unfolding split_line
split_line-grown zero file line rest more h = split_line-append file line rest more h
split_line-grown (suc a) [] line rest more h = absurd (cc)
split_line-grown (suc a) (x ∷ file) line rest more h = split_line-grown a file line rest more h

-- A file that grows keeps its lines.
pub Between-grown :
    (file : Bytes) (a b : ℕ) (ls : List Bytes) (more : Bytes)
    → Between file a ls b
    → Between (file ++ more) a ls b
Between-grown file a b [] more h = h
Between-grown file a b (l ∷ ls) more (rest, e, h) = (
  rest ++ more,
  split_line-grown a file l rest more e,
  Between-grown file (a + length l) b ls more h,
)

-- The lines from the first position on are those between, and then those from the second on.
pub Between-lines :
    (file : Bytes) (a b : ℕ) (ls : List Bytes)
    → Between file a ls b
    → lines (drop a file) ≡ ls ++ lines (drop b file)
Between-lines file a b [] h = ap (λ k. lines (drop k file)) h
Between-lines file a b (l ∷ ls) (rest, e, h) =
    let (whole, first) = split_line-some (drop a file) l rest e in
    let behind : drop (a + length l) file ≡ rest =
      drop-drop a (length l) file ∙ ap (drop (length l)) whole ∙ drop-append_left l rest in
    first
    ∙ ap (λ r. l ∷ lines r) (sym behind)
    ∙ ap (◌∷◌ l) (Between-lines file (a + length l) b ls h)

module _ {ℓ} {A : Type ℓ} (parse : Bytes → Option A) where
  abbrev pub emit : Option A → List A → List A
  emit none events = events
  emit (some event) events = event ∷ events

  -- The events of lines: the lines that are not blank and that decode.
  abbrev pub events_of : List Bytes → List A
  events_of [] = []
  events_of (l ∷ ls) = emit (event_of parse l) (events_of ls)

  pub events_of-append : (ls ms : List Bytes) → events_of (ls ++ ms) ≡ events_of ls ++ events_of ms
  events_of-append [] ms = refl
  events_of-append (l ∷ ls) ms = elim (Option-cases (event_of parse l)) [
    | inl missing ↦ rw missing (events_of-append ls ms)
    | inr (event, e) ↦ rw e (ap (◌∷◌ event) (events_of-append ls ms))
  ]

  -- Reading on from the second position gives the same events less those between.
  pub Between-events :
      (file : Bytes) (a b : ℕ) (ls : List Bytes)
      → Between file a ls b
      → events_of (lines (drop b file))
        ≡ drop (length (events_of ls)) (events_of (lines (drop a file)))
  Between-events file a b ls h =
      let later = events_of (lines (drop b file)) in
      sym (drop-append_left (events_of ls) later)
      ∙ ap (drop (length (events_of ls))) (
          sym (events_of-append ls (lines (drop b file)))
          ∙ ap events_of (sym (Between-lines file a b ls h)))

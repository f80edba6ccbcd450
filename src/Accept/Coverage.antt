-- ===== src/Accept/Coverage.antt =====
-- What the active approvals cover, and what `Filter` leaves.
use kiss_protocol.Base.{
  ℕ, ◌+◌, ◌≡◌, ◌⊎◌, inl, inr, refl, sym, ap, ◌∙◌, Bool, true, false, some, List, [], ◌∷◌, Bytes,
  bytes_eq, arith, Option-cases, Bool-cases,
}
use kiss_protocol.Store.HeadLaws.{Listed, here, there, key_listed-Listed, Listed-key_listed}
use kiss_protocol.Accept.Requests.{Change, item_key}
use kiss_protocol.Accept.Approvals.{
  Set, Approval, keys_of, keys_of_changes, is_approved, filter, without_id, has_id,
}

-- A change of the list has the item key `key`.
pub data Pins (key : Bytes) : List Change → Type 0 where
  pins_here : {c : Change} {cs : List Change} → item_key c ≡ some key → Pins key (c ∷ cs)
  pins_there : {c : Change} {cs : List Change} → Pins key cs → Pins key (c ∷ cs)

-- Some approval of the list pins `key`.
pub data Covers (key : Bytes) : List Approval → Type 0 where
  covers_here : {a : Approval} {rest : List Approval} → Pins key a.changes → Covers key (a ∷ rest)
  covers_there : {a : Approval} {rest : List Approval} → Covers key rest → Covers key (a ∷ rest)

keys_of_changes-Pins :
    (key : Bytes) (cs : List Change) (more : List Bytes)
    → Listed key (keys_of_changes cs more)
    → Pins key cs ⊎ Listed key more
unfolding keys_of_changes
keys_of_changes-Pins key [] more m = inr m
keys_of_changes-Pins key (c ∷ cs) more m = elim (Option-cases (item_key c)) [
  | inl none_pinned ↦
      elim (keys_of_changes-Pins key cs more (rw (keys_of_changes, none_pinned) at m)) [
        | inl later ↦ inl (pins_there later)
        | inr other ↦ inr other
      ]
  | inr (k, e) ↦
      elim (first_or_later key k (keys_of_changes cs more) (rw (keys_of_changes, e) at m)) [
        | inl same ↦ inl (pins_here (e ∙ ap some (sym same)))
        | inr after ↦ elim (keys_of_changes-Pins key cs more after) [
          | inl later ↦ inl (pins_there later)
          | inr other ↦ inr other
        ]
      ]
]
  where
    first_or_later :
        (key k : Bytes) (ks : List Bytes) → Listed key (k ∷ ks) → (key ≡ k) ⊎ Listed key ks
    first_or_later key k ks here = inl refl
    first_or_later key k ks (there m) = inr m

keys_of_changes_more :
    (key : Bytes) (c : Change) (cs : List Change) (more : List Bytes)
    → Listed key (keys_of_changes cs more)
    → Listed key (keys_of_changes (c ∷ cs) more)
unfolding keys_of_changes
keys_of_changes_more key c cs more m = elim (Option-cases (item_key c)) [
  | inl none_pinned ↦ rw (keys_of_changes, none_pinned) m
  | inr (k, e) ↦ rw (keys_of_changes, e) (there m)
]

keys_of_changes-Listed :
    (key : Bytes) (cs : List Change) (more : List Bytes)
    → Pins key cs ⊎ Listed key more
    → Listed key (keys_of_changes cs more)
unfolding keys_of_changes
keys_of_changes-Listed key [] more (inl p) = elim p [ ]
keys_of_changes-Listed key [] more (inr m) = m
keys_of_changes-Listed key (c ∷ cs) more (inl (pins_here e)) = rw (keys_of_changes, e) here
keys_of_changes-Listed key (c ∷ cs) more (inl (pins_there p)) =
    keys_of_changes_more key c cs more (keys_of_changes-Listed key cs more (inl p))
keys_of_changes-Listed key (c ∷ cs) more (inr m) =
    keys_of_changes_more key c cs more (keys_of_changes-Listed key cs more (inr m))

Covers-Listed :
    (key : Bytes) (approvals : List Approval)
    → Covers key approvals
    → Listed key (keys_of approvals)
unfolding keys_of
Covers-Listed key [] p = elim p [ ]
Covers-Listed key (a ∷ rest) (covers_here p) =
    keys_of_changes-Listed key a.changes (keys_of rest) (inl p)
Covers-Listed key (a ∷ rest) (covers_there p) =
    keys_of_changes-Listed key a.changes (keys_of rest) (inr (Covers-Listed key rest p))

Listed-Covers :
    (key : Bytes) (approvals : List Approval)
    → Listed key (keys_of approvals)
    → Covers key approvals
unfolding keys_of
Listed-Covers key [] m = elim m [ ]
Listed-Covers key (a ∷ rest) m = elim (keys_of_changes-Pins key a.changes (keys_of rest) m) [
  | inl p ↦ covers_here p
  | inr after ↦ covers_there (Listed-Covers key rest after)
]

-- A change whose key an active approval pins.
abbrev pub IsCovered : Set → Change → Type 0
IsCovered s c = (key : Bytes) × (item_key c ≡ some key) × Covers key s.approvals

-- `rebuild` has made the items from the approvals.
abbrev pub IsRebuilt : Set → Type 0
IsRebuilt s = s.items ≡ keys_of s.approvals

-- `unapproved` is what is left of `changes` without the covered ones, in their order, and `approved`
-- is the number of those.
pub data Sifted (s : Set) : List Change → List Change → ℕ → Type 0 where
  sifted_none : Sifted s [] [] 0
  sifted_covered :
      {c : Change} {cs us : List Change} {n : ℕ}
      → IsCovered s c
      → Sifted s cs us n
      → Sifted s (c ∷ cs) us (n + 1)
  sifted_kept :
      {c : Change} {cs us : List Change} {n : ℕ}
      → (IsCovered s c → ⊥)
      → Sifted s cs us n
      → Sifted s (c ∷ cs) (c ∷ us) n

is_approved-IsCovered :
    (s : Set) (c : Change) → IsRebuilt s → is_approved s (item_key c) ≡ true → IsCovered s c
is_approved-IsCovered s c built h = elim (Option-cases (item_key c)) [
  | inl missing ↦ absurd (ground arith)
  | inr (key, e) ↦
      let listed = key_listed-Listed key s.items (rw e at h) in
      (key, e, Listed-Covers key s.approvals (rw built at listed))
]

IsCovered-is_approved :
    (s : Set) (c : Change) → IsRebuilt s → IsCovered s c → is_approved s (item_key c) ≡ true
IsCovered-is_approved s c built (key, e, p) =
    rw (e, built) (Listed-key_listed key (keys_of s.approvals) (Covers-Listed key s.approvals p))

-- `Filter` takes away exactly the changes that an active approval covers, and counts them.
pub filter-Sifted :
    (s : Set) (cs : List Change) → IsRebuilt s → Sifted s cs (filter s cs).0 (filter s cs).1
unfolding filter
filter-Sifted s [] built = sifted_none
filter-Sifted s (c ∷ cs) built = elim (Bool-cases (is_approved s (item_key c))) [
  | inl covered ↦
      rw (filter, covered)
        (sifted_covered (is_approved-IsCovered s c built covered) (filter-Sifted s cs built))
  | inr other ↦
      rw (filter, other)
        (sifted_kept (λ p. not_both _ (IsCovered-is_approved s c built p) other)
          (filter-Sifted s cs built))
]
  where
    not_both : (b : Bool) → b ≡ true → b ≡ false → ⊥
    not_both b e e' = cc

pub without_id_gone :
    (id : Bytes) (approvals : List Approval) → has_id id (without_id id approvals) ≡ false
unfolding has_id without_id
without_id_gone id [] = refl
without_id_gone id (a ∷ rest) = elim (Bool-cases (bytes_eq a.id id)) [
  | inl gone ↦ rw gone (without_id_gone id rest)
  | inr kept ↦ rw (kept, without_id_gone id rest) (rw kept refl)
]

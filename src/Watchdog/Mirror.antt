-- ===== src/Watchdog/Mirror.antt =====
-- `httpBackend.Push` of internal/mirror/static.go: three attempts, whose answers are an argument.
use kiss_protocol.Base.{
  ◌≡◌, ◌⊎◌, ◌↔◌, inl, inr, refl, Bool, true, false, List, [], ◌∷◌, take, if◌then◌else◌,
}

pub data Answer : Type 0 where
  stored precondition_failed client_error transient_error : Answer

pub data Pushed : Type 0 where
  pushed refused retries_exhausted : Pushed

-- The loop over the answers of the attempts that are left; a transient error is kept in `lastErr`.
unfoldable pub push_loop : Bool → List Answer → Pushed
push_loop failed [] = if failed then retries_exhausted else pushed
push_loop failed (stored ∷ rest) = pushed
push_loop failed (precondition_failed ∷ rest) = push_loop failed rest
push_loop failed (client_error ∷ rest) = refused
push_loop failed (transient_error ∷ rest) = push_loop true rest

-- `pushed` is a nil error.
unfoldable pub push : List Answer → Pushed
push answers = push_loop false (take 3 answers)

-- The first answer that is not retried says that the head was stored.
abbrev pub IsStored : List Answer → Type 0
IsStored [] = ⊥
IsStored (stored ∷ rest) = Unit
IsStored (client_error ∷ rest) = ⊥
IsStored (precondition_failed ∷ rest) = IsStored rest
IsStored (transient_error ∷ rest) = IsStored rest

abbrev pub AreConflicts : List Answer → Type 0
AreConflicts [] = Unit
AreConflicts (precondition_failed ∷ rest) = AreConflicts rest
AreConflicts (_ ∷ rest) = ⊥

push_loop-pushed :
    (failed : Bool) (answers : List Answer)
    → push_loop failed answers ≡ pushed
    → IsStored answers ⊎ ((failed ≡ false) × AreConflicts answers)
unfolding push_loop
push_loop-pushed true [] h = cc
push_loop-pushed false [] h = inr (refl, tt)
push_loop-pushed failed (stored ∷ rest) h = inl tt
push_loop-pushed failed (precondition_failed ∷ rest) h = push_loop-pushed failed rest h
push_loop-pushed failed (client_error ∷ rest) h = cc
push_loop-pushed failed (transient_error ∷ rest) h = elim (push_loop-pushed true rest h) [
  | inl done ↦ inl done
  | inr (clear, all) ↦ cc
]

pushed-push_loop :
    (failed : Bool) (answers : List Answer)
    → IsStored answers ⊎ ((failed ≡ false) × AreConflicts answers)
    → push_loop failed answers ≡ pushed
unfolding push_loop
pushed-push_loop failed [] (inl e) = elim e [ ]
pushed-push_loop failed [] (inr (clear, all)) = rw clear refl
pushed-push_loop failed (stored ∷ rest) s = refl
pushed-push_loop failed (precondition_failed ∷ rest) s = pushed-push_loop failed rest s
pushed-push_loop failed (client_error ∷ rest) (inl e) = elim e [ ]
pushed-push_loop failed (client_error ∷ rest) (inr (clear, e)) = elim e [ ]
pushed-push_loop failed (transient_error ∷ rest) (inl s) = pushed-push_loop true rest (inl s)
pushed-push_loop failed (transient_error ∷ rest) (inr (clear, e)) = elim e [ ]

-- `Push` returns no error exactly when the head was stored by one of three attempts, or when every
-- attempt was answered with 412.
pub push-pushed_iff :
    (answers : List Answer)
    → (push answers ≡ pushed) ↔ (IsStored (take 3 answers) ⊎ AreConflicts (take 3 answers))
unfolding push
push-pushed_iff answers = (
  (λ h. elim (push_loop-pushed false (take 3 answers) h) [
    | inl done ↦ inl done
    | inr (clear, all) ↦ inr all
  ]),
  (λ s. elim s [
    | inl done ↦ pushed-push_loop false (take 3 answers) (inl done)
    | inr all ↦ pushed-push_loop false (take 3 answers) (inr (refl, all))
  ]),
)

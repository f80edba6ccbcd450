-- ===== src/Store/Offsets.antt =====
-- Where the rows of a log file end, and how many of them a head covers.
use mathlib.Core.List.{append-nil}
use kiss_protocol.Base.{
  ℕ, zero, suc, ◌+◌, ◌≤◌, ◌<◌, ◌≡◌, refl, ap, ◌∙◌, some, List, [], ◌∷◌, ◌++◌, map, length, take,
  arith,
}
use kiss_protocol.Store.Types.{TreeHead}
use kiss_protocol.Store.Frames.{Record}
use kiss_protocol.Store.Rows.{Row, file_of, records_from, length-file_of_cons}
use kiss_protocol.Store.Opening.{uint64_mod, end_of, committed_count}

pub length-map {ℓ κ} :
    {A : Type ℓ} {B : Type κ} (f : A → B) (xs : List A) → length (map f xs) ≡ length xs
length-map f [] = refl
length-map f (x ∷ xs) = ap suc (length-map f xs)

pub map-take {ℓ κ} :
    {A : Type ℓ} {B : Type κ} (f : A → B) (n : ℕ) (xs : List A)
    → take n (map f xs) ≡ map f (take n xs)
map-take f zero xs = refl
map-take f (suc n) [] = refl
map-take f (suc n) (x ∷ xs) = ap (◌∷◌ (f x)) (map-take f n xs)

end_of-zero : (rs : List Record) → end_of 0 rs ≡ 0
unfolding end_of
end_of-zero [] = refl
end_of-zero (r ∷ rs) = refl

end_of-rows_cons :
    (off : ℕ) (r : Row) (rows extra : List Row)
    → end_of (suc (length rows)) (records_from off ((r ∷ rows) ++ extra))
      ≡ off + length (file_of (r ∷ rows))
unfolding end_of
end_of-rows_cons off r [] extra = omega (arith, length-file_of_cons r [])
end_of-rows_cons off r (q ∷ rows) extra =
    end_of-rows_cons (off + 4 + length r.sealed) q rows extra
    ∙ omega (arith, length-file_of_cons r (q ∷ rows))

-- The committed records end where their rows do.
pub end_of-rows :
    (rows extra : List Row)
    → end_of (length rows) (records_from 0 (rows ++ extra)) ≡ length (file_of rows)
end_of-rows [] extra = end_of-zero (records_from 0 extra)
end_of-rows (r ∷ rows) extra = end_of-rows_cons 0 r rows extra ∙ omega arith

pub end_of-all :
    (rows : List Row) → end_of (length rows) (records_from 0 rows) ≡ length (file_of rows)
end_of-all rows = rw append-nil at (end_of-rows rows [])

pub empty_file : (rows : List Row) → length rows ≡ 0 → length (file_of rows) ≡ 0
empty_file [] h = refl
empty_file (r ∷ rows) h = absurd (omega arith)

pub committed_count-rows :
    (head : TreeHead) (n k : ℕ)
    → head.size ≡ n
    → 1 ≤ n
    → k ≤ 1
    → n + 1 < uint64_mod
    → committed_count (some head) (n + k) ≡ n
unfolding committed_count
committed_count-rows head n k e h h' m = ground arith

-- ===== src/Store/Rows.antt =====
-- A log file as the rows that were written to it: an entry with its sealed bytes.
use mathlib.Core.List.{append_assoc}
use kiss_protocol.Base.{
  ℕ, suc, ◌+◌, ◌≤◌, ◌≡◌, refl, sym, ap, ◌∙◌, some, List, [], ◌∷◌, ◌++◌, map, Bytes, length,
  length-append, arith,
}
use kiss_protocol.Codec.BigEndian.{put_uint32}
use kiss_protocol.Store.Types.{Entry, Host}
use kiss_protocol.Store.Frames.{Record, frame, decode_record, max_frame}

pub record Row : Type 0 where
  pub entry : Entry
  pub sealed : Bytes

abbrev pub row_entries : List Row → List Entry
row_entries = map (λ (r : Row). r.entry)

abbrev pub file_of : List Row → Bytes
file_of [] = []
file_of (r ∷ rs) = frame r.sealed ++ file_of rs

-- The records that a reader finds from offset `off` on.
abbrev pub records_from : ℕ → List Row → List Record
records_from off [] = []
records_from off (r ∷ rs) =
    record { entry = r.entry; end_offset = off + 4 + length r.sealed }
    ∷ records_from (off + 4 + length r.sealed) rs

-- A row that decrypts to its entry and whose length the reader accepts.
pub record IsReadable (host : Host) (key : Bytes) (r : Row) : Type 0 where
  pub decodes : decode_record host key r.sealed ≡ some r.entry
  pub not_empty : 1 ≤ length r.sealed
  pub not_too_long : length r.sealed ≤ max_frame

pub length-frame : (sealed : Bytes) → length (frame sealed) ≡ 4 + length sealed
unfolding frame put_uint32
length-frame sealed = omega arith

pub file_of-append : (rs qs : List Row) → file_of (rs ++ qs) ≡ file_of rs ++ file_of qs
file_of-append [] qs = refl
file_of-append (r ∷ rs) qs =
    ap (◌++◌ (frame r.sealed)) (file_of-append rs qs)
    ∙ sym (append_assoc (frame r.sealed) (file_of rs) (file_of qs))

pub length-file_of_cons :
    (r : Row) (rs : List Row)
    → length (file_of (r ∷ rs)) ≡ 4 + length r.sealed + length (file_of rs)
length-file_of_cons r rs =
    omega (arith, length-append (frame r.sealed) (file_of rs), length-frame r.sealed)

pub length-file_of-le : (rs : List Row) → length rs ≤ length (file_of rs)
length-file_of-le [] = omega arith
length-file_of-le (r ∷ rs) = omega (
  arith,
  length-append (frame r.sealed) (file_of rs),
  length-frame r.sealed,
  length-file_of-le rs,
)

pub row_entries-append :
    (rs qs : List Row) → row_entries (rs ++ qs) ≡ row_entries rs ++ row_entries qs
row_entries-append [] qs = refl
row_entries-append (r ∷ rs) qs = ap (◌∷◌ r.entry) (row_entries-append rs qs)

pub entries-records_from :
    (off : ℕ) (rs : List Row) → map (λ (x : Record). x.entry) (records_from off rs) ≡ row_entries rs
entries-records_from off [] = refl
entries-records_from off (r ∷ rs) =
    ap (◌∷◌ r.entry) (entries-records_from (off + 4 + length r.sealed) rs)

pub length-records_from : (off : ℕ) (rs : List Row) → length (records_from off rs) ≡ length rs
length-records_from off [] = refl
length-records_from off (r ∷ rs) = ap suc (length-records_from (off + 4 + length r.sealed) rs)

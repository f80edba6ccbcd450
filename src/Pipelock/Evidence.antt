-- ===== src/Pipelock/Evidence.antt =====
-- internal/pipelock/evidence_tailer.go: which files of the directory are followed, and from where.
use kiss_protocol.Base.{
  ◌≡◌, refl, ap, inl, inr, ◌&&◌, ◌||◌, not, Bool, true, false, List, [], ◌∷◌, ◌++◌, Bytes, bytes_eq,
  bytes_eq_sound, arith, Bool-cases, if◌then◌else◌,
}
use kiss_protocol.Store.Head.{key_listed}

-- A follower of a path, from the start of the file or from its end.
abbrev pub Follower : Type 0
Follower = Bytes × Bool

-- `scan`, with the paths that the glob found: the paths that are followed now, and the new followers.
unfoldable pub scan : Bool → List Bytes → List Bytes → List Bytes × List Follower
scan from_start [] followed = (followed, [])
scan from_start (p ∷ ps) followed =
    let old = scan from_start ps followed in
    let (followed', launched) = scan from_start ps (p ∷ followed) in
    if key_listed p followed then old else (followed', (p, from_start) ∷ launched)

-- The scans of `Run` after the first.
unfoldable pub later_scans : List (List Bytes) → List Bytes → List Follower
later_scans [] followed = []
later_scans (found ∷ rest) followed =
    let (followed', launched) = scan true found followed in launched ++ later_scans rest followed'

-- `Run`: the scans of the directory, the first of which skips history.
unfoldable pub run_scans : List Bytes → List (List Bytes) → List Follower
run_scans found rest =
    let (followed, launched) = scan false found [] in launched ++ later_scans rest followed

-- How a path is followed, once for each follower.
unfoldable pub starts_of : Bytes → List Follower → List Bool
starts_of path [] = []
starts_of path ((p, from_start) ∷ rest) =
    let more = starts_of path rest in if bytes_eq path p then from_start ∷ more else more

unfoldable pub found_in : Bytes → List (List Bytes) → Bool
found_in path [] = false
found_in path (found ∷ rest) = key_listed path found || found_in path rest

starts_of-append :
    (path : Bytes) (xs ys : List Follower)
    → starts_of path (xs ++ ys) ≡ starts_of path xs ++ starts_of path ys
unfolding starts_of
starts_of-append path [] ys = refl
starts_of-append path ((p, b) ∷ xs) ys = elim (Bool-cases (bytes_eq path p)) [
  | inl same ↦ rw (same, starts_of) (ap (◌∷◌ b) (starts_of-append path xs ys))
  | inr other ↦ rw (other, starts_of) (starts_of-append path xs ys)
]

scan_lem :
    (path : Bytes) (from_start : Bool) (found followed : List Bytes)
    → (key_listed path (scan from_start found followed).0
        ≡ (key_listed path followed || key_listed path found))
      × (starts_of path (scan from_start found followed).1 ≡ (
          if not (key_listed path followed) && key_listed path found then from_start ∷ [] else []))
unfolding scan key_listed starts_of
scan_lem path from_start [] followed = (ground arith, ground arith)
scan_lem path from_start (p ∷ ps) followed = elim (Bool-cases (key_listed p followed)) [
  | inl old ↦ elim (Bool-cases (bytes_eq path p)) [
    | inl same ↦
        let listed : key_listed path followed ≡ true = rw (bytes_eq_sound path p same) old in
        rw (old, scan) (ground (arith, same, listed, scan_lem path from_start ps followed))
    | inr other ↦ rw (old, scan) (ground (arith, other, scan_lem path from_start ps followed))
  ]
  | inr new ↦ elim (Bool-cases (bytes_eq path p)) [
    | inl same ↦
        let unlisted : key_listed path followed ≡ false = rw (bytes_eq_sound path p same) new in
        rw (new, scan) (ground (arith, same, unlisted, scan_lem path from_start ps (p ∷ followed)))
    | inr other ↦ rw (new, scan) (ground (arith, other, scan_lem path from_start ps (p ∷ followed)))
  ]
]

later_scans_lem :
    (path : Bytes) (rest : List (List Bytes)) (followed : List Bytes)
    → starts_of path (later_scans rest followed)
      ≡ (if not (key_listed path followed) && found_in path rest then true ∷ [] else [])
unfolding later_scans found_in starts_of
later_scans_lem path [] followed = ground arith
later_scans_lem path (found ∷ rest) followed =
    let (now, launched) = scan_lem path true found followed in
    let later = later_scans_lem path rest (scan true found followed).0 in
    let joined =
      starts_of-append path (scan true found followed).1
        (later_scans rest (scan true found followed).0) in
    ground (arith, now, launched, later, joined)

-- Whatever the scans find, and however often: a path that the first scan finds is followed once, from
-- its end, a path that only a later scan finds is followed once, from its start, and no other path is
-- followed.
pub run_scans-starts :
    (path : Bytes) (found : List Bytes) (rest : List (List Bytes))
    → starts_of path (run_scans found rest)
      ≡ (if key_listed path found then false ∷ [] else if found_in path rest then true ∷ [] else [])
unfolding run_scans key_listed
run_scans-starts path found rest =
    let (now, launched) = scan_lem path false found [] in
    let later = later_scans_lem path rest (scan false found []).0 in
    let joined =
      starts_of-append path (scan false found []).1 (later_scans rest (scan false found []).0) in
    ground (arith, now, launched, later, joined)

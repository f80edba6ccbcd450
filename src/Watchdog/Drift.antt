-- ===== src/Watchdog/Drift.antt =====
-- `Measure` of internal/drift/drift.go. The files and the processes of the machine are arguments.
use kiss_protocol.Base.{
  ℕ, ◌≡◌, ◌↔◌, refl, inl, inr, not, Bool, true, false, Option, none, some, List, [], ◌∷◌, ◌++◌,
  Bytes, codes, bytes_eq, bytes_eq_sound, bytes_eq_refl, append-empty, All, arith, Option-cases,
}
use kiss_protocol.Store.Head.{key_listed}
use kiss_protocol.Accept.Requests.{Change}

-- genesis.FileEntry
pub record FileEntry : Type 0 where
  pub path : Bytes
  pub sha256 : Bytes
  pub mode : Bytes
  pub size : ℕ

-- The fields of genesis.Snapshot that are measured.
pub record Snapshot : Type 0 where
  pub files : List FileEntry
  pub procs : List Bytes

abbrev pub no_change : Change
no_change = record { type = []; path = []; process = []; old = []; new = [] }

abbrev pub change_if : Bool → Change → List Change
change_if true c = c ∷ []
change_if false c = []

-- The body of the loop over the files; `none` is a file that is not there.
unfoldable pub measure_file : FileEntry → Option FileEntry → List Change
measure_file entry none =
    record no_change { type = codes "file_removed"; path = entry.path; old = entry.sha256 } ∷ []
measure_file entry (some cur) =
    change_if (not (bytes_eq cur.sha256 entry.sha256)) (record no_change {
      type = codes "file_changed";
      path = entry.path;
      old = entry.sha256;
      new = cur.sha256;
    })
    ++ change_if (not (bytes_eq cur.mode entry.mode)) (record no_change {
      type = codes "file_mode_changed";
      path = entry.path;
      old = entry.mode;
      new = cur.mode;
    })

unfoldable pub measure_files : (Bytes → Option FileEntry) → List FileEntry → List Change
measure_files machine [] = []
measure_files machine (entry ∷ rest) =
    measure_file entry (machine entry.path) ++ measure_files machine rest

unfoldable pub measure_procs : List Bytes → List Bytes → List Change
measure_procs known [] = []
measure_procs known (p ∷ ps) =
    change_if (not (key_listed p known))
      (record no_change { type = codes "new_process"; process = p })
    ++ measure_procs known ps

-- `Measure`
unfoldable pub measure : (Bytes → Option FileEntry) → List Bytes → Snapshot → List Change
measure machine procs snap = measure_files machine snap.files ++ measure_procs snap.procs procs

-- The file is there with the digest and the mode of the snapshot.
abbrev pub IsSame : (Bytes → Option FileEntry) → FileEntry → Type 0
IsSame machine entry =
    (cur : FileEntry) × (machine entry.path ≡ some cur)
    × (cur.sha256 ≡ entry.sha256)
    × (cur.mode ≡ entry.mode)

change_if-empty : (b : Bool) (c : Change) → change_if (not b) c ≡ [] → b ≡ true
change_if-empty true c h = refl
change_if-empty false c h = cc

measure_file-empty :
    (machine : Bytes → Option FileEntry) (entry : FileEntry)
    → (measure_file entry (machine entry.path) ≡ []) ↔ IsSame machine entry
unfolding measure_file
measure_file-empty machine entry = (to, from)
  where
    to : measure_file entry (machine entry.path) ≡ [] → IsSame machine entry
    to h = elim (Option-cases (machine entry.path)) [
      | inl missing ↦ absurd (ground (arith, rw (missing, measure_file) at h))
      | inr (cur, found) ↦
          let (digest, mode) = append-empty _ _ (rw (found, measure_file) at h) in
          (
            cur,
            found,
            bytes_eq_sound cur.sha256 entry.sha256 (change_if-empty _ _ digest),
            bytes_eq_sound cur.mode entry.mode (change_if-empty _ _ mode),
          )
    ]

    from : IsSame machine entry → measure_file entry (machine entry.path) ≡ []
    from (cur, found, digest, mode) =
        rw (found, measure_file, digest, mode, bytes_eq_refl entry.sha256, bytes_eq_refl entry.mode)
          refl

measure_files-empty :
    (machine : Bytes → Option FileEntry) (files : List FileEntry)
    → (measure_files machine files ≡ []) ↔ All (IsSame machine) files
unfolding measure_files
measure_files-empty machine [] = ((λ h. tt), (λ h. refl))
measure_files-empty machine (entry ∷ rest) =
    let here = measure_file-empty machine entry in
    let later = measure_files-empty machine rest in
    (
      λ h.
          let (one, more) = append-empty (measure_file entry (machine entry.path)) _ h in
          (here.0 one, later.0 more),
      λ (same, all). rw (here.1 same) (later.1 all),
    )

measure_procs-empty :
    (known procs : List Bytes)
    → (measure_procs known procs ≡ []) ↔ All (λ p. key_listed p known ≡ true) procs
unfolding measure_procs
measure_procs-empty known [] = ((λ h. tt), (λ h. refl))
measure_procs-empty known (p ∷ ps) =
    let later = measure_procs-empty known ps in
    (
      λ h.
          let (one, more) = append-empty (change_if (not (key_listed p known)) _) _ h in
          (change_if-empty (key_listed p known) _ one, later.0 more),
      λ (listed, all). rw listed (later.1 all),
    )

-- `Measure` reports no change exactly when every file of the snapshot is there with its digest and its
-- mode, and every process that runs is one of the snapshot's.
pub measure-empty_iff :
    (machine : Bytes → Option FileEntry) (procs : List Bytes) (snap : Snapshot)
    → (measure machine procs snap ≡ [])
      ↔ (All (IsSame machine) snap.files × All (λ p. key_listed p snap.procs ≡ true) procs)
unfolding measure
measure-empty_iff machine procs snap =
    let files = measure_files-empty machine snap.files in
    let running = measure_procs-empty snap.procs procs in
    (
      λ h.
          let (one, more) = append-empty (measure_files machine snap.files) _ h in
          (files.0 one, running.0 more),
      λ (same, known). rw (files.1 same) (running.1 known),
    )

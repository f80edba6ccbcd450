-- ===== src/Pd/Runs.antt =====
-- What runs of calls on a PDStore do to one evidence item.
use kiss_protocol.Base.{◌≡◌, ◌≢◌, refl, sym, ap, ◌∙◌, Bool, true, some, List, [], ◌∷◌, Bytes, All}
use kiss_protocol.Pd.Custody.{Item, PdStore, PdDisk, PdHost, PdWorld, status_destroyed, find_item}
use kiss_protocol.Pd.Operations.{Operation, hold_release, perform, run}
use kiss_protocol.Pd.Holds.{Step, untouched, moved, held, released, destroyed, Spares, perform-Step}

-- Every call of the run spares the id, and none of them releases it.
abbrev pub KeepsHold : Bytes → PdWorld × Operation → Type 0
KeepsHold id (w, op) =
    Spares id (w, op) × ((actor notes : Bytes) → op ≢ hold_release id actor notes)

module _ (pd_host : PdHost) where
  frozen-Step :
      (id : Bytes) (op : Operation) (item item' : Item)
      → ((actor notes : Bytes) → op ≢ hold_release id actor notes)
      → item.legal_hold ≡ true
      → Step id op item item'
      → item' ≡ record item { hold_reason = item'.hold_reason }
  frozen-Step id op item item' kept on untouched = refl
  frozen-Step id op item item' kept on (moved loose) = cc
  frozen-Step id op item item' kept on (held {reason}) =
      ap (λ (b : Bool). record item { legal_hold = b; hold_reason = reason }) (sym on)
  frozen-Step id op item item' kept on (released {actor} {notes} is) = absurd (kept actor notes is)
  frozen-Step id op item item' kept on (destroyed loose) = cc

  -- An item under legal hold stays in the catalog through every run of calls without a release of
  -- it and without an intake that is given its id, and nothing of it changes but the hold's reason:
  -- not its case, its status or where it is.
  pub run-held :
      (id : Bytes) (ops : List (PdWorld × Operation)) (pd : PdStore) (disk : PdDisk) (item : Item)
      → All (KeepsHold id) ops
      → item.legal_hold ≡ true
      → find_item id pd.items ≡ some item
      → (item' : Item) × (find_item id (run pd_host ops pd disk).0.items ≡ some item')
        × (item' ≡ record item { hold_reason = item'.hold_reason })
  unfolding run
  run-held id [] pd disk item keeps on h = (item, h, refl)
  run-held id ((w, op) ∷ rest) pd disk item (keep, keeps) on h =
      let (next, found, step) = perform-Step pd_host id w op pd disk item keep.0 h in
      let frozen = frozen-Step id op item next keep.1 on step in
      let on' : next.legal_hold ≡ true = ap (λ (x : Item). x.legal_hold) frozen ∙ on in
      let out = perform pd_host w op pd disk in
      let (final, at_end, same) = run-held id rest out.0 out.1 next keeps on' found in
      (final, at_end, same ∙ ap (λ (x : Item). record x { hold_reason = final.hold_reason }) frozen)

  destroyed-Step :
      (id : Bytes) (op : Operation) (item item' : Item)
      → item.status ≡ status_destroyed
      → Step id op item item'
      → item'.status ≡ status_destroyed
  destroyed-Step id op item item' gone untouched = gone
  destroyed-Step id op item item' gone (moved loose) = gone
  destroyed-Step id op item item' gone held = gone
  destroyed-Step id op item item' gone (released is) = gone
  destroyed-Step id op item item' gone (destroyed loose) = refl

  -- An item that has been destroyed is never active again, through every run of calls without an
  -- intake that is given its id.
  pub run-destroyed :
      (id : Bytes) (ops : List (PdWorld × Operation)) (pd : PdStore) (disk : PdDisk) (item : Item)
      → All (Spares id) ops
      → item.status ≡ status_destroyed
      → find_item id pd.items ≡ some item
      → (item' : Item) × (find_item id (run pd_host ops pd disk).0.items ≡ some item')
        × (item'.status ≡ status_destroyed)
  unfolding run
  run-destroyed id [] pd disk item spares gone h = (item, h, gone)
  run-destroyed id ((w, op) ∷ rest) pd disk item (spare, spares) gone h =
      let (next, found, step) = perform-Step pd_host id w op pd disk item spare h in
      let out = perform pd_host w op pd disk in
      run-destroyed id rest out.0 out.1 next spares (destroyed-Step id op item next gone step) found

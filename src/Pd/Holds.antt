-- ===== src/Pd/Holds.antt =====
-- What one call on a PDStore does to one evidence item.
use kiss_protocol.Base.{
  ◌≡◌, ◌≢◌, sym, ap, subst, ◌∙◌, inl, inr, true, false, Option, some, [], Bytes, bytes_eq,
  bytes_eq_sound, Option-cases, Bool-cases, Result, ok,
}
use kiss_protocol.Pd.Custody.{
  Item, Catalog, PdStore, PdDisk, PdHost, PdWorld, PdError, status_destroyed, find_item, put_item,
  new_item_id,
}
use kiss_protocol.Pd.Operations.{
  on_item, unless_held, Operation, intake, transfer, access, hold_set, hold_release, export,
  destroy, system, Plan, perform, plan,
}
use kiss_protocol.Pd.Plans.{planned_items, find_item-put_other, find_item-put_same, perform-items}

-- One call leaves an item alone, or changes it in one of these ways.
pub data Step (id : Bytes) (op : Operation) (item : Item) : Item → Type 0 where
  untouched : Step id op item item
  moved :
      {node : Bytes}
      → item.legal_hold ≡ false
      → Step id op item (record item { current_node = node })
  held :
      {reason : Bytes} → Step id op item (record item { legal_hold = true; hold_reason = reason })
  released :
      {actor notes : Bytes}
      → op ≡ hold_release id actor notes
      → Step id op item (record item { legal_hold = false; hold_reason = [] })
  destroyed : item.legal_hold ≡ false → Step id op item (record item { status = status_destroyed })

-- No intake is given the id of an item that is there.
abbrev pub Spares : Bytes → PdWorld × Operation → Type 0
Spares id (w, intake item actor) = new_item_id w ≢ some id
Spares id (w, op) = Unit

abbrev After : Bytes → Operation → Item → Catalog → Type 0
After id op item items = (item' : Item) × (find_item id items ≡ some item') × Step id op item item'

same_item : {a b : Item} → ◌≡◌ {A = Option Item} (some a) (some b) → a ≡ b
same_item e = cc

module _ (pd_host : PdHost) where
  untouched-After :
      (id : Bytes) (op : Operation) (item : Item) (items : Catalog)
      → find_item id items ≡ some item
      → After id op item items
  untouched-After id op item items h = (item, h, untouched)

  -- The item under `key` has been replaced.
  put-After :
      (id key : Bytes) (op : Operation) (item old new : Item) (items : Catalog)
      → find_item id items ≡ some item
      → find_item key items ≡ some old
      → (id ≡ key → Step id op old new)
      → After id op item (put_item key new items)
  put-After id key op item old new items h at_key step = elim (Bool-cases (bytes_eq id key)) [
    | inl same ↦
        let one : id ≡ key = bytes_eq_sound id key same in
        let one_item : old ≡ item = same_item (sym at_key ∙ (rw one at h)) in
        (
          new,
          rw one (find_item-put_same key new items),
          subst (λ x. Step id op x new) one_item (step one),
        )
    | inr other ↦ untouched-After id op item _ (find_item-put_other id key new items other ∙ h)
  ]

  abbrev AfterPlan : Bytes → Operation → Item → Catalog → Result PdError Plan → Type 0
  AfterPlan id op item items r = After id op item (planned_items items r)

  on_item-After :
      (id key : Bytes) (op : Operation) (items : Catalog) (item : Item)
      (next : Item → Result PdError Plan)
      → find_item id items ≡ some item
      → ((old : Item) → find_item key items ≡ some old → AfterPlan id op item items (next old))
      → AfterPlan id op item items (on_item pd_host key items next)
  on_item-After id key op items item next h step = elim (Option-cases (find_item key items)) [
    | inl missing ↦ rw (missing, on_item) (untouched-After id op item items h)
    | inr (old, at_key) ↦ rw (at_key, on_item) (step old at_key)
  ]

  unless_held-After :
      (id : Bytes) (op : Operation) (items : Catalog) (item old : Item) (p : Plan)
      → find_item id items ≡ some item
      → (old.legal_hold ≡ false → AfterPlan id op item items (ok p))
      → AfterPlan id op item items (unless_held pd_host old p)
  unless_held-After id op items item old p h step = elim (Bool-cases old.legal_hold) [
    | inl kept ↦ rw (kept, unless_held) (untouched-After id op item items h)
    | inr loose ↦ rw (loose, unless_held) (step loose)
  ]

  plan-After :
      (id : Bytes) (w : PdWorld) (op : Operation) (items : Catalog) (item : Item)
      → Spares id (w, op)
      → find_item id items ≡ some item
      → AfterPlan id op item items (plan pd_host w op items)
  unfolding plan
  plan-After id w (intake new actor) items item spared h = elim (Option-cases (new_item_id w)) [
    | inl none_made ↦ rw (none_made, plan) (untouched-After id _ item items h)
    | inr (key, made) ↦
        rw (made, plan)
          (elim (Bool-cases (bytes_eq id key)) [
            | inl same ↦ absurd (spared (made ∙ ap some (sym (bytes_eq_sound id key same))))
            | inr other ↦ untouched-After id _ item _ (find_item-put_other id key _ items other ∙ h)
          ])
  ]
  plan-After id w (transfer key actor from_node to_node notes) items item spared h =
      on_item-After id key _ items item _ h (λ old at_key.
        unless_held-After id _ items item old _ h
          (λ loose. put-After id key _ item old _ items h at_key (λ same. moved loose)))
  plan-After id w (access key actor notes) items item spared h = untouched-After id _ item items h
  plan-After id w (hold_set key actor reason) items item spared h =
      on_item-After id key _ items item _ h
        (λ old at_key. put-After id key _ item old _ items h at_key (λ same. held))
  plan-After id w (hold_release key actor notes) items item spared h =
      on_item-After id key _ items item _ h (λ old at_key.
        put-After id key _ item old _ items h at_key
          (λ same. released (ap (λ k. hold_release k actor notes) (sym same))))
  plan-After id w (export key actor export_ref) items item spared h =
      untouched-After id _ item items h
  plan-After id w (destroy key actor notes) items item spared h =
      on_item-After id key _ items item _ h (λ old at_key.
        unless_held-After id _ items item old _ h
          (λ loose. put-After id key _ item old _ items h at_key (λ same. destroyed loose)))
  plan-After id w (system level event notes) items item spared h = untouched-After id _ item items h

  -- A call that does not give out the id of an item leaves that item in the catalog, as it was or
  -- changed by one step: moved or destroyed only if it was not under legal hold, put under hold, or
  -- released by a release of that id.
  pub perform-Step :
      (id : Bytes) (w : PdWorld) (op : Operation) (pd : PdStore) (disk : PdDisk) (item : Item)
      → Spares id (w, op)
      → find_item id pd.items ≡ some item
      → (item' : Item) × (find_item id (perform pd_host w op pd disk).0.items ≡ some item')
        × Step id op item item'
  perform-Step id w op pd disk item spared h =
      subst (After id op item) (sym (perform-items pd_host w op pd disk))
        (plan-After id w op pd.items item spared h)

-- ===== src/Pd/Plans.antt =====
-- Each call on a PDStore carries out its plan, and what the plan makes of the catalog.
use kiss_protocol.Base.{
  ◌≡◌, ◌∙◌, refl, ap, false, Option, none, some, [], ◌∷◌, Bytes, bytes_eq, bytes_eq_sound,
  bytes_eq_refl, Result, inl, inr, Option-cases, Bool-cases, ok, err,
}
use kiss_protocol.Store.Types.{Store, Disk}
use kiss_protocol.Store.Appending.{AppendError}
use kiss_protocol.Pd.Custody.{
  Item, Catalog, Outcome, PdError, PdStore, PdDisk, PdHost, PdWorld, find_item, without_item,
  put_item, save_catalog, appended, log_event, new_item_id, log_custody, commit_change,
  record_intake, change_item, record_transfer, record_access, set_legal_hold, release_legal_hold,
  record_export, record_destroyed, append_system,
}
use kiss_protocol.Pd.Operations.{
  Plan, Operation, intake, transfer, access, hold_set, hold_release, export, destroy, system,
  perform, plan, carry_out, save_then_log,
}

-- Every call of the store does what its plan says: a refused call returns the store and the
-- directory as they were, and every other saves its catalog, if it changes one, and then appends
-- its entry unless the save failed.
pub perform-planned :
    (pd_host : PdHost) (w : PdWorld) (op : Operation) (pd : PdStore) (disk : PdDisk)
    → perform pd_host w op pd disk ≡ carry_out pd_host w (plan pd_host w op pd.items) pd disk
unfolding perform plan carry_out save_then_log record_intake record_transfer record_access
    set_legal_hold release_legal_hold record_export record_destroyed append_system change_item
    commit_change log_custody
perform-planned pd_host w (intake item actor) pd disk = elim (Option-cases (new_item_id w)) [
  | inl missing ↦ rw (missing, carry_out, plan, perform, record_intake) refl
  | inr (id, e) ↦ rw (e, carry_out, plan, perform, record_intake) refl
]
perform-planned pd_host w (transfer id actor from_node to_node notes) pd disk =
    elim (Option-cases (find_item id pd.items)) [
      | inl missing ↦ rw (missing, carry_out, plan, perform, record_transfer) refl
      | inr (item, e) ↦
          rw (e, carry_out, plan, perform, record_transfer)
            (elim (Bool-cases item.legal_hold) [
              | inl held ↦ rw held refl
              | inr loose ↦ rw loose refl
            ])
    ]
perform-planned pd_host w (access id actor notes) pd disk = refl
perform-planned pd_host w (hold_set id actor reason) pd disk =
    elim (Option-cases (find_item id pd.items)) [
      | inl missing ↦ rw (missing, carry_out, plan, perform, set_legal_hold) refl
      | inr (item, e) ↦ rw (e, carry_out, plan, perform, set_legal_hold) refl
    ]
perform-planned pd_host w (hold_release id actor notes) pd disk =
    elim (Option-cases (find_item id pd.items)) [
      | inl missing ↦ rw (missing, carry_out, plan, perform, release_legal_hold) refl
      | inr (item, e) ↦ rw (e, carry_out, plan, perform, release_legal_hold) refl
    ]
perform-planned pd_host w (export id actor export_ref) pd disk = refl
perform-planned pd_host w (destroy id actor notes) pd disk =
    elim (Option-cases (find_item id pd.items)) [
      | inl missing ↦ rw (missing, carry_out, plan, perform, record_destroyed) refl
      | inr (item, e) ↦
          rw (e, carry_out, plan, perform, record_destroyed)
            (elim (Bool-cases item.legal_hold) [
              | inl held ↦ rw held refl
              | inr loose ↦ rw loose refl
            ])
    ]
perform-planned pd_host w (system level event notes) pd disk = refl

find_item-without :
    (id key : Bytes) (items : Catalog)
    → bytes_eq id key ≡ false
    → find_item id (without_item key items) ≡ find_item id items
unfolding find_item without_item
find_item-without id key [] h = refl
find_item-without id key ((k, item) ∷ rest) h = elim (Bool-cases (bytes_eq key k)) [
  | inl same ↦
      let other : bytes_eq id k ≡ false = rw (← bytes_eq_sound key k same) h in
      rw (same, other) (find_item-without id key rest h)
  | inr differs ↦ rw (differs, find_item-without id key rest h) refl
]

pub find_item-put_other :
    (id key : Bytes) (item : Item) (items : Catalog)
    → bytes_eq id key ≡ false
    → find_item id (put_item key item items) ≡ find_item id items
unfolding find_item put_item
find_item-put_other id key item items h = rw h (find_item-without id key items h)

pub find_item-put_same :
    (id : Bytes) (item : Item) (items : Catalog) → find_item id (put_item id item items) ≡ some item
unfolding find_item put_item
find_item-put_same id item items = rw (bytes_eq_refl id) refl

abbrev pub saved_or : Catalog → Option Catalog → Catalog
saved_or items none = items
saved_or items (some saved) = saved

abbrev pub planned_items : Catalog → Result PdError Plan → Catalog
planned_items items (err e) = items
planned_items items (ok p) = saved_or items p.saved

module _ (pd_host : PdHost) where
  appended-items :
      (w : PdWorld) (pd : PdStore) (disk : PdDisk) (out : Store × Disk × Option AppendError)
      → (appended pd_host w pd disk out).0.items ≡ pd.items
  appended-items w pd disk (s, log, none) = refl
  appended-items w pd disk (s, log, some e) = refl

  log_event-items :
      (w : PdWorld) (level event source : Bytes) (body : Option Bytes) (pd : PdStore)
      (disk : PdDisk)
      → (log_event pd_host w level event source body pd disk).0.items ≡ pd.items
  unfolding log_event
  log_event-items w level event source body pd disk = appended-items w pd disk _

  save_then_log-items :
      (w : PdWorld) (p : Plan) (saved : Option Catalog) (pd : PdStore) (disk : PdDisk)
      → (save_then_log pd_host w p saved pd disk).0.items ≡ saved_or pd.items saved
  unfolding save_then_log
  save_then_log-items w p none pd disk = log_event-items w _ _ _ _ pd disk
  save_then_log-items w p (some items) pd disk =
      elim (Option-cases (save_catalog pd_host w items disk).1) [
        | inl written ↦
            rw (written, save_then_log) (log_event-items w _ _ _ _ (record pd { items = items }) _)
        | inr (e, failed) ↦ rw (failed, save_then_log) refl
      ]

  carry_out-items :
      (w : PdWorld) (r : Result PdError Plan) (pd : PdStore) (disk : PdDisk)
      → (carry_out pd_host w r pd disk).0.items ≡ planned_items pd.items r
  unfolding carry_out
  carry_out-items w (err e) pd disk = refl
  carry_out-items w (ok p) pd disk = save_then_log-items w p p.saved pd disk

  pub perform-items :
      (w : PdWorld) (op : Operation) (pd : PdStore) (disk : PdDisk)
      → (perform pd_host w op pd disk).0.items ≡ planned_items pd.items (plan pd_host w op pd.items)
  perform-items w op pd disk =
      ap (λ (out : Outcome). out.0.items) (perform-planned pd_host w op pd disk)
      ∙ carry_out-items w (plan pd_host w op pd.items) pd disk

-- ===== src/Pd/Custody.antt =====
-- internal/pd/evidence/evidence.go: the evidence catalog, saved in one file, and the custody events,
-- appended to the store of the same directory.
use kiss_protocol.Base.{
  not, ℕ, ◌||◌, Bool, true, false, Option, none, some, List, [], ◌∷◌, ◌++◌, Bytes, codes, bytes_eq,
  take, if◌then◌else◌,
}
use kiss_protocol.Codec.Hex.{encode}
use kiss_protocol.Store.Types.{Host, Disk, Store}
use kiss_protocol.Store.Head.{is_empty}
use kiss_protocol.Store.Appending.{AppendError, Surroundings, append}

pub record Item : Type 0 where
  pub id : Bytes
  pub case_number : Bytes
  pub description : Bytes
  pub category : Bytes
  pub created_at : ℕ
  pub created_by : Bytes
  pub legal_hold : Bool
  pub hold_reason : Bytes
  pub status : Bytes
  pub current_node : Bytes

pub record CustodyEvent : Type 0 where
  pub item_id : Bytes
  pub case_number : Bytes
  pub event_type : Bytes
  pub timestamp : ℕ
  pub actor : Bytes
  pub from_node : Bytes
  pub to_node : Bytes
  pub notes : Bytes
  pub export_ref : Bytes

-- The map from ids to items, in the order of the latest assignment.
abbrev pub Catalog : Type 0
Catalog = List (Bytes × Item)

pub record PdStore : Type 0 where
  pub store : Store
  pub items : Catalog

-- The directory: the files of the store and pd-items.json.
pub record PdDisk : Type 0 where
  pub log : Disk
  pub catalog_file : Option Bytes

-- The JSON of the catalog, of an event and of the data of a system entry.
pub record PdHost : Type 0 where
  pub host : Host
  pub marshal_items : Catalog → Option Bytes
  pub unmarshal_items : Bytes → Option Catalog
  pub marshal_event : CustodyEvent → Option Bytes
  pub marshal_notes : Bytes → Option Bytes

-- What the machine does in one call.
pub record PdWorld : Type 0 where
  pub appending : Surroundings
  pub now : ℕ
  pub today : Bytes  -- the date in the layout 20060102
  pub random : Option Bytes  -- four bytes
  pub catalog_opens : Bool  -- whether the catalog file opens for writing
  pub catalog_torn_at : Option ℕ  -- `some n`: the write of the catalog fails after `n` of its bytes

pub data PdError : Type 0 where
  no_random item_not_found under_legal_hold catalog_not_marshalled catalog_not_written : PdError
  not_logged : AppendError → PdError

abbrev pub status_active : Bytes
status_active = codes "active"

abbrev pub status_destroyed : Bytes
status_destroyed = codes "destroyed"

unfoldable pub find_item : Bytes → Catalog → Option Item
find_item id [] = none
find_item id ((key, item) ∷ rest) = if bytes_eq id key then some item else find_item id rest

unfoldable pub without_item : Bytes → Catalog → Catalog
without_item id [] = []
without_item id ((key, item) ∷ rest) =
    let kept = without_item id rest in if bytes_eq id key then kept else (key, item) ∷ kept

-- `pd.items[id] = item`
unfoldable pub put_item : Bytes → Item → Catalog → Catalog
put_item id item items = (id, item) ∷ without_item id items

abbrev pub no_event : CustodyEvent
no_event = record {
  item_id = [];
  case_number = [];
  event_type = [];
  timestamp = 0;
  actor = [];
  from_node = [];
  to_node = [];
  notes = [];
  export_ref = [];
}

-- `newItemID`
unfoldable pub new_item_id : PdWorld → Option Bytes
new_item_id w = elim w.random [
  | none ↦ none
  | some b ↦ some (codes "EV-" ++ w.today ++ codes "-" ++ encode b)
]

-- `caseNumberFor`
unfoldable pub case_number_for : Bytes → Catalog → Bytes
case_number_for id items = elim (find_item id items) [ none ↦ [] | some item ↦ item.case_number ]

abbrev pub Outcome : Type 0
Outcome = PdStore × PdDisk × Option PdError

module _ (pd_host : PdHost) (w : PdWorld) where
  -- `saveCatalog`; os.WriteFile empties the file before it writes.
  unfoldable pub save_catalog : Catalog → PdDisk → PdDisk × Option PdError
  save_catalog items disk = elim (pd_host.marshal_items items) [
    | none ↦ (disk, some catalog_not_marshalled)
    | some bytes ↦
        if not w.catalog_opens then (disk, some catalog_not_written) else elim w.catalog_torn_at [
          | none ↦ (record disk { catalog_file = some bytes }, none)
          | some n ↦ (record disk { catalog_file = some (take n bytes) }, some catalog_not_written)
        ]
  ]

  abbrev pub appended : PdStore → PdDisk → Store × Disk × Option AppendError → Outcome
  appended pd disk (s, log, none) = (record pd { store = s }, record disk { log = log }, none)
  appended pd disk (s, log, some e) =
      (record pd { store = s }, record disk { log = log }, some (not_logged e))

  -- `pd.store.Append`
  unfoldable pub log_event : Bytes → Bytes → Bytes → Option Bytes → PdStore → PdDisk → Outcome
  log_event level event source body pd disk = appended pd disk (
      append pd_host.host w.appending pd.store
        (record { level = level; event = event; source = source; body = some body }) disk.log)

  -- An event of an item, under the name that `Append` is given for its type.
  unfoldable pub log_custody : Bytes → CustodyEvent → PdStore → PdDisk → Outcome
  log_custody level ev pd disk =
      log_event level (codes "pd/" ++ ev.event_type) (codes "pd") (pd_host.marshal_event ev) pd disk

  -- The end of every call that changes the catalog: save it, then log the event.
  unfoldable pub commit_change : Bytes → CustodyEvent → PdStore → PdDisk → Outcome
  commit_change level ev pd disk =
      let (disk', failure) = save_catalog pd.items disk in
      elim failure [ some e ↦ (pd, disk', some e) | none ↦ log_custody level ev pd disk' ]

  -- The item that `RecordIntake` stores.
  unfoldable pub taken_in : Bytes → Bytes → Item → Item
  taken_in id actor item = record item {
    id = id;
    created_at = w.now;
    created_by = actor;
    status = status_active;
  }

  -- `RecordIntake`
  unfoldable pub record_intake : Item → Bytes → PdStore → PdDisk → Outcome
  record_intake item actor pd disk = elim (new_item_id w) [
    | none ↦ (pd, disk, some no_random)
    | some id ↦
        commit_change (codes "INFO")
          (record no_event {
            item_id = id;
            case_number = item.case_number;
            event_type = codes "intake";
            timestamp = w.now;
            actor = actor;
            to_node = item.current_node;
            notes = item.description;
          })
          (record pd { items = put_item id (taken_in id actor item) pd.items }) disk
  ]

  -- The item under `id` is replaced, and the change committed with an event of its case.
  unfoldable pub change_item : Bytes → Item → Bytes → CustodyEvent → PdStore → PdDisk → Outcome
  change_item id item level ev pd disk =
      commit_change level
        (record ev { item_id = id; case_number = item.case_number; timestamp = w.now })
        (record pd { items = put_item id item pd.items }) disk

  -- `RecordTransfer`
  unfoldable pub record_transfer :
      Bytes → Bytes → Bytes → Bytes → Bytes → PdStore → PdDisk → Outcome
  record_transfer id actor from_node to_node notes pd disk = elim (find_item id pd.items) [
    | none ↦ (pd, disk, some item_not_found)
    | some item ↦
        if item.legal_hold
        then (pd, disk, some under_legal_hold)
        else change_item id (record item { current_node = to_node }) (codes "INFO")
            (record no_event {
              event_type = codes "transfer";
              actor = actor;
              from_node = from_node;
              to_node = to_node;
              notes = notes;
            })
            pd disk
  ]

  -- `RecordAccess`
  unfoldable pub record_access : Bytes → Bytes → Bytes → PdStore → PdDisk → Outcome
  record_access id actor notes pd disk =
      log_custody (codes "INFO")
        (record no_event {
          item_id = id;
          case_number = case_number_for id pd.items;
          event_type = codes "access";
          timestamp = w.now;
          actor = actor;
          notes = notes;
        })
        pd disk

  -- `SetLegalHold`
  unfoldable pub set_legal_hold : Bytes → Bytes → Bytes → PdStore → PdDisk → Outcome
  set_legal_hold id actor reason pd disk = elim (find_item id pd.items) [
    | none ↦ (pd, disk, some item_not_found)
    | some item ↦
        change_item id (record item { legal_hold = true; hold_reason = reason }) (codes "WARN")
          (record no_event { event_type = codes "hold_set"; actor = actor; notes = reason }) pd disk
  ]

  -- `ReleaseLegalHold`
  unfoldable pub release_legal_hold : Bytes → Bytes → Bytes → PdStore → PdDisk → Outcome
  release_legal_hold id actor notes pd disk = elim (find_item id pd.items) [
    | none ↦ (pd, disk, some item_not_found)
    | some item ↦
        change_item id (record item { legal_hold = false; hold_reason = [] }) (codes "INFO")
          (record no_event { event_type = codes "hold_release"; actor = actor; notes = notes }) pd
          disk
  ]

  -- `RecordExport`
  unfoldable pub record_export : Bytes → Bytes → Bytes → PdStore → PdDisk → Outcome
  record_export id actor export_ref pd disk =
      log_custody (codes "INFO")
        (record no_event {
          item_id = id;
          case_number = case_number_for id pd.items;
          event_type = codes "export";
          timestamp = w.now;
          actor = actor;
          export_ref = export_ref;
        })
        pd disk

  -- `RecordDestroyed`
  unfoldable pub record_destroyed : Bytes → Bytes → Bytes → PdStore → PdDisk → Outcome
  record_destroyed id actor notes pd disk = elim (find_item id pd.items) [
    | none ↦ (pd, disk, some item_not_found)
    | some item ↦
        if item.legal_hold
        then (pd, disk, some under_legal_hold)
        else change_item id (record item { status = status_destroyed }) (codes "WARN")
            (record no_event { event_type = codes "destroyed"; actor = actor; notes = notes }) pd
            disk
  ]

  -- `AppendSystem`
  unfoldable pub append_system : Bytes → Bytes → Bytes → PdStore → PdDisk → Outcome
  append_system level event notes pd disk =
      log_event level event (codes "pd-system") (pd_host.marshal_notes notes) pd disk

-- `GetItems`, in the order of the catalog.
unfoldable pub get_items : Bytes → Catalog → List Item
get_items case_number [] = []
get_items case_number ((key, item) ∷ rest) =
    let found = get_items case_number rest in
    if is_empty case_number || bytes_eq item.case_number case_number then item ∷ found else found

-- `loadCatalog`; `none` is a catalog that does not read.
unfoldable pub load_catalog : PdHost → PdDisk → Option Catalog
load_catalog pd_host disk = elim disk.catalog_file [
  | none ↦ some []
  | some bytes ↦ pd_host.unmarshal_items bytes
]

-- ===== src/Pd/Operations.antt =====
-- The calls on a PDStore of internal/pd/evidence/evidence.go as values, and runs of them.
use kiss_protocol.Base.{
  true, false, Option, none, some, List, [], ◌∷◌, ◌++◌, Bytes, codes, if◌then◌else◌, Result, ok,
  err,
}
use kiss_protocol.Pd.Custody.{
  Item, CustodyEvent, Catalog, PdStore, PdDisk, PdHost, PdWorld, PdError, no_random, item_not_found,
  under_legal_hold, status_destroyed, find_item, put_item, no_event, new_item_id, case_number_for,
  Outcome, save_catalog, log_event, taken_in, record_intake, record_transfer, record_access,
  set_legal_hold, release_legal_hold, record_export, record_destroyed, append_system,
}

pub data Operation : Type 0 where
  intake : Item → Bytes → Operation
  transfer : Bytes → Bytes → Bytes → Bytes → Bytes → Operation
  access : Bytes → Bytes → Bytes → Operation
  hold_set : Bytes → Bytes → Bytes → Operation
  hold_release : Bytes → Bytes → Bytes → Operation
  export : Bytes → Bytes → Bytes → Operation
  destroy : Bytes → Bytes → Bytes → Operation
  system : Bytes → Bytes → Bytes → Operation

-- What a call does: the catalog it saves, if it saves one, and the entry it then appends.
pub record Plan : Type 0 where
  pub saved : Option Catalog
  pub level : Bytes
  pub event : Bytes
  pub source : Bytes
  pub body : Option Bytes

module _ (pd_host : PdHost) where
  unfoldable pub perform : PdWorld → Operation → PdStore → PdDisk → Outcome
  perform w (intake item actor) pd disk = record_intake pd_host w item actor pd disk
  perform w (transfer id actor from_node to_node notes) pd disk =
      record_transfer pd_host w id actor from_node to_node notes pd disk
  perform w (access id actor notes) pd disk = record_access pd_host w id actor notes pd disk
  perform w (hold_set id actor reason) pd disk = set_legal_hold pd_host w id actor reason pd disk
  perform w (hold_release id actor notes) pd disk =
      release_legal_hold pd_host w id actor notes pd disk
  perform w (export id actor export_ref) pd disk =
      record_export pd_host w id actor export_ref pd disk
  perform w (destroy id actor notes) pd disk = record_destroyed pd_host w id actor notes pd disk
  perform w (system level event notes) pd disk = append_system pd_host w level event notes pd disk

  -- A run of calls, each with what the machine does in it.
  unfoldable pub run : List (PdWorld × Operation) → PdStore → PdDisk → PdStore × PdDisk
  run [] pd disk = (pd, disk)
  run ((w, op) ∷ rest) pd disk =
      let (pd', disk', failure) = perform w op pd disk in run rest pd' disk'

  abbrev pub event_plan : Option Catalog → Bytes → CustodyEvent → Plan
  event_plan saved level ev = record {
    saved = saved;
    level = level;
    event = codes "pd/" ++ ev.event_type;
    source = codes "pd";
    body = pd_host.marshal_event ev;
  }

  abbrev pub changed : PdWorld → Bytes → Item → Catalog → Bytes → CustodyEvent → Plan
  changed w id item items level ev =
      event_plan (some (put_item id item items)) level
        (record ev { item_id = id; case_number = item.case_number; timestamp = w.now })

  abbrev pub unless_held : Item → Plan → Result PdError Plan
  unless_held item p = if item.legal_hold then err under_legal_hold else ok p

  abbrev pub on_item : Bytes → Catalog → (Item → Result PdError Plan) → Result PdError Plan
  on_item id items next = elim (find_item id items) [ none ↦ err item_not_found | some i ↦ next i ]

  -- What a call does, read off the catalog alone.
  unfoldable pub plan : PdWorld → Operation → Catalog → Result PdError Plan
  plan w (intake item actor) items = elim (new_item_id w) [
    | none ↦ err no_random
    | some id ↦ ok (
        event_plan (some (put_item id (taken_in pd_host w id actor item) items)) (codes "INFO")
          (record no_event {
            item_id = id;
            case_number = item.case_number;
            event_type = codes "intake";
            timestamp = w.now;
            actor = actor;
            to_node = item.current_node;
            notes = item.description;
          }))
  ]
  plan w (transfer id actor from_node to_node notes) items = on_item id items (λ i. unless_held i (
      changed w id (record i { current_node = to_node }) items (codes "INFO")
        (record no_event {
          event_type = codes "transfer";
          actor = actor;
          from_node = from_node;
          to_node = to_node;
          notes = notes;
        })))
  plan w (access id actor notes) items = ok (
      event_plan none (codes "INFO") (record no_event {
        item_id = id;
        case_number = case_number_for id items;
        event_type = codes "access";
        timestamp = w.now;
        actor = actor;
        notes = notes;
      }))
  plan w (hold_set id actor reason) items = on_item id items (λ i. ok (
      changed w id (record i { legal_hold = true; hold_reason = reason }) items (codes "WARN")
        (record no_event { event_type = codes "hold_set"; actor = actor; notes = reason })))
  plan w (hold_release id actor notes) items = on_item id items (λ i. ok (
      changed w id (record i { legal_hold = false; hold_reason = [] }) items (codes "INFO")
        (record no_event { event_type = codes "hold_release"; actor = actor; notes = notes })))
  plan w (export id actor export_ref) items = ok (
      event_plan none (codes "INFO") (record no_event {
        item_id = id;
        case_number = case_number_for id items;
        event_type = codes "export";
        timestamp = w.now;
        actor = actor;
        export_ref = export_ref;
      }))
  plan w (destroy id actor notes) items = on_item id items (λ i. unless_held i (
      changed w id (record i { status = status_destroyed }) items (codes "WARN")
        (record no_event { event_type = codes "destroyed"; actor = actor; notes = notes })))
  plan w (system level event notes) items = ok (record {
    saved = none;
    level = level;
    event = event;
    source = codes "pd-system";
    body = pd_host.marshal_notes notes;
  })

  -- Save, then append: a failed save ends the call.
  unfoldable pub save_then_log : PdWorld → Plan → Option Catalog → PdStore → PdDisk → Outcome
  save_then_log w p none pd disk = log_event pd_host w p.level p.event p.source p.body pd disk
  save_then_log w p (some items) pd disk =
      let pd' = record pd { items = items } in
      let (disk', failure) = save_catalog pd_host w items disk in
      elim failure [
        | some e ↦ (pd', disk', some e)
        | none ↦ log_event pd_host w p.level p.event p.source p.body pd' disk'
      ]

  unfoldable pub carry_out : PdWorld → Result PdError Plan → PdStore → PdDisk → Outcome
  carry_out w (err e) pd disk = (pd, disk, some e)
  carry_out w (ok p) pd disk = save_then_log w p p.saved pd disk

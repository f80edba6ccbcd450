-- ===== src/Pd/Exports.antt =====
-- The bundle of a case has the entries that calls on its items logged.
use mathlib.Core.Option
use mathlib.Core.List.{append-nil}
use kiss_protocol.Base.{
  ap, All, All-append, length, ◌≡◌, refl, sym, subst, ◌∙◌, inl, inr, Bool, true, false, none, some,
  List, [], ◌∷◌, ◌++◌, Bytes, bytes_eq_refl, Option-cases, Bool-cases, Result, ok, err,
}
use kiss_protocol.Encrypt.{nonce_size}
use kiss_protocol.Store.Types.{Entry}
use kiss_protocol.Store.Frames.{frame, read_log}
use kiss_protocol.Store.Frames.{entries as log_entries}
use kiss_protocol.Store.Rows.{Row, IsReadable, file_of, file_of-append, row_entries-append}
use kiss_protocol.Store.Reading.{entries-rows}
use kiss_protocol.Store.Committing.{Opens}
use kiss_protocol.Store.Persistence.{IsStorable, sealed-IsReadable}
use kiss_protocol.Store.Head.{is_empty}
use kiss_protocol.Store.Appending.{new_entry}
use kiss_protocol.Pd.Custody.{
  Item, CustodyEvent, Catalog, PdStore, PdDisk, PdHost, PdWorld, PdError, find_item, new_item_id,
  case_number_for,
}
use kiss_protocol.Pd.Operations.{
  on_item, unless_held, Operation, intake, transfer, access, hold_set, hold_release, export,
  destroy, system, Plan, perform, plan,
}
use kiss_protocol.Pd.Logged.{IsLogged, entry_of, perform-IsLogged}
use kiss_protocol.Pd.Bundles.{BundleHost, matches_case, case_entries}

-- The case of the item that a call is about.
abbrev pub case_of : Operation → Catalog → Bytes
case_of (intake item actor) items = item.case_number
case_of (transfer id actor from_node to_node notes) items = case_number_for id items
case_of (access id actor notes) items = case_number_for id items
case_of (hold_set id actor reason) items = case_number_for id items
case_of (hold_release id actor notes) items = case_number_for id items
case_of (export id actor export_ref) items = case_number_for id items
case_of (destroy id actor notes) items = case_number_for id items
case_of (system level event notes) items = []

abbrev pub is_custody : Operation → Bool
is_custody (system level event notes) = false
is_custody _ = true

-- The JSON of an event of that case is not empty, and its case number reads back.
abbrev pub CaseReadsBack : PdHost → BundleHost → Bytes → Type 0
CaseReadsBack pd_host bundle_host case_number =
    (ev : CustodyEvent) (body : Bytes)
    → ev.case_number ≡ case_number
    → pd_host.marshal_event ev ≡ some body
    → (is_empty body ≡ false) × (bundle_host.read_case body ≡ some case_number)

module _ (pd_host : PdHost) where
  abbrev LogsCase : Bytes → Result PdError Plan → Type 0
  LogsCase case_number (err e) = Unit
  LogsCase case_number (ok p) =
      (ev : CustodyEvent) × (p.body ≡ pd_host.marshal_event ev) × (ev.case_number ≡ case_number)

  on_item-LogsCase :
      (key : Bytes) (items : Catalog) (next : Item → Result PdError Plan)
      → ((item : Item) → LogsCase item.case_number (next item))
      → LogsCase (case_number_for key items) (on_item pd_host key items next)
  unfolding case_number_for
  on_item-LogsCase key items next step = elim (Option-cases (find_item key items)) [
    | inl missing ↦ rw (missing, on_item) tt
    | inr (item, at_key) ↦ rw (at_key, on_item, case_number_for) (step item)
  ]

  unless_held-LogsCase :
      (case_number : Bytes) (item : Item) (p : Plan)
      → LogsCase case_number (ok p)
      → LogsCase case_number (unless_held pd_host item p)
  unless_held-LogsCase case_number item p h = elim (Bool-cases item.legal_hold) [
    | inl kept ↦ rw (kept, unless_held) tt
    | inr loose ↦ rw (loose, unless_held) h
  ]

  plan-LogsCase :
      (w : PdWorld) (op : Operation) (items : Catalog)
      → is_custody op ≡ true
      → LogsCase (case_of op items) (plan pd_host w op items)
  unfolding plan
  plan-LogsCase w (intake item actor) items h = elim (Option-cases (new_item_id w)) [
    | inl none_made ↦ rw (none_made, plan) tt
    | inr (id, made) ↦ rw (made, plan) (_, refl, refl)
  ]
  plan-LogsCase w (transfer id actor from_node to_node notes) items h =
      on_item-LogsCase id items _
        (λ item. unless_held-LogsCase item.case_number item _ (_, refl, refl))
  plan-LogsCase w (access id actor notes) items h = (_, refl, refl)
  plan-LogsCase w (hold_set id actor reason) items h =
      on_item-LogsCase id items _ (λ item. (_, refl, refl))
  plan-LogsCase w (hold_release id actor notes) items h =
      on_item-LogsCase id items _ (λ item. (_, refl, refl))
  plan-LogsCase w (export id actor export_ref) items h = (_, refl, refl)
  plan-LogsCase w (destroy id actor notes) items h =
      on_item-LogsCase id items _
        (λ item. unless_held-LogsCase item.case_number item _ (_, refl, refl))
  plan-LogsCase w (system level event notes) items h = cc

case_entries-last :
    (host : BundleHost) (case_number : Bytes) (es : List Entry) (e : Entry)
    → matches_case host case_number e ≡ true
    → case_entries host case_number (es ++ e ∷ []) ≡ case_entries host case_number es ++ e ∷ []
unfolding case_entries
case_entries-last host case_number [] e h = rw h refl
case_entries-last host case_number (x ∷ es) e h =
    elim (Bool-cases (matches_case host case_number x)) [
      | inl matching ↦ rw (matching, case_entries-last host case_number es e h) refl
      | inr other ↦ rw (other, case_entries-last host case_number es e h) refl
    ]

module _ (pd_host : PdHost) (bundle_host : BundleHost) (w : PdWorld) where
  -- AES-GCM opens what it sealed, the nonce has its 12 bytes, and the entry of the call reads back from
  -- its JSON and fits into a frame.
  pub record CanLog (op : Operation) (pd : PdStore) : Type 0 where
    pub opens : Opens pd_host.host.gcm
    pub nonce_length : length w.appending.nonce ≡ nonce_size
    pub storable :
        (p : Plan) (body : Bytes)
        → plan pd_host w op pd.items ≡ ok p
        → p.body ≡ some body
        → IsStorable pd_host.host w.appending pd.store.key (entry_of pd_host w pd.store p body)

  abbrev pub entries_on : PdStore → PdDisk → List Entry
  entries_on pd disk = log_entries (read_log pd_host.host pd.store.key disk.log.log_file)

  logged-entries :
      (op : Operation) (pd pd' : PdStore) (disk disk' : PdDisk) (rows : List Row) (p : Plan)
      → CanLog op pd
      → disk.log.log_file ≡ some (file_of rows)
      → All (IsReadable pd_host.host pd.store.key) rows
      → plan pd_host w op pd.items ≡ ok p
      → (logged : IsLogged pd_host w p pd.store pd'.store disk.log disk'.log)
      → entries_on pd disk' ≡ entries_on pd disk ++ entry_of pd_host w pd.store p logged.body ∷ []
  logged-entries op pd pd' disk disk' rows p can at readable planned logged =
      let key = pd.store.key in
      let e = entry_of pd_host w pd.store p logged.body in
      let row : Row = record { entry = e; sealed = logged.sealed } in
      let new =
        sealed-IsReadable pd_host.host w.appending key e logged.sealed can.opens can.nonce_length
          (can.storable p logged.body planned logged.body_made) logged.seals in
      let file : disk'.log.log_file ≡ some (file_of (rows ++ row ∷ [])) =
        logged.written
        ∙ ap (λ o. some (Option.get_or o [] ++ frame logged.sealed)) at
        ∙ ap (λ back. some (file_of rows ++ back)) (sym (append-nil (frame logged.sealed)))
        ∙ ap some (sym (file_of-append rows (row ∷ []))) in
      ap (λ f. log_entries (read_log pd_host.host key f)) file
      ∙ entries-rows pd_host.host key (rows ++ row ∷ [])
          (All-append (IsReadable pd_host.host key) rows (row ∷ []) readable (new, tt))
      ∙ row_entries-append rows (row ∷ [])
      ∙ ap (λ es. es ++ e ∷ [])
          (sym (
            ap (λ f. log_entries (read_log pd_host.host key f)) at
            ∙ entries-rows pd_host.host key rows readable))

  -- Where the log file is whole rows, the call can log (`CanLog`), and the case number of an event of
  -- the item's case reads back from its JSON: when a call on an item reports no error, the log file on
  -- disk reads as its earlier entries with one entry behind them, and the bundle of the case of the item
  -- over that log is the one over the earlier log with this entry behind it.
  pub perform-exported :
      (op : Operation) (pd pd' : PdStore) (disk disk' : PdDisk) (rows : List Row)
      → CanLog op pd
      → CaseReadsBack pd_host bundle_host (case_of op pd.items)
      → is_custody op ≡ true
      → disk.log.log_file ≡ some (file_of rows)
      → All (IsReadable pd_host.host pd.store.key) rows
      → perform pd_host w op pd disk ≡ (pd', disk', none)
      → (e : Entry) × (entries_on pd disk' ≡ entries_on pd disk ++ e ∷ [])
        × (case_entries bundle_host (case_of op pd.items) (entries_on pd disk')
            ≡ case_entries bundle_host (case_of op pd.items) (entries_on pd disk) ++ e ∷ [])
  unfolding matches_case new_entry
  perform-exported op pd pd' disk disk' rows can reads custody at readable h =
      let (p, planned, changed, logged) = perform-IsLogged pd_host w op pd pd' disk disk' h in
      let (ev, same, of_case) : LogsCase pd_host (case_of op pd.items) (ok p) =
        subst (LogsCase pd_host (case_of op pd.items)) planned
          (plan-LogsCase pd_host w op pd.items custody) in
      let (present, read) = reads ev logged.body of_case (sym same ∙ logged.body_made) in
      let e = entry_of pd_host w pd.store p logged.body in
      let matching : matches_case bundle_host (case_of op pd.items) e ≡ true =
        rw (present, read, bytes_eq_refl (case_of op pd.items)) refl in
      let longer = logged-entries op pd pd' disk disk' rows p can at readable planned logged in
      (
        e,
        longer,
        ap (case_entries bundle_host (case_of op pd.items)) longer
            ∙ case_entries-last bundle_host (case_of op pd.items) (entries_on pd disk) e matching,
      )

-- ===== src/Pd/Records.antt =====
-- What a call on a PDStore has left on disk and in the log when it returns.
use kiss_protocol.Base.{
  ◌≡◌, ◌≢◌, refl, sym, ap, subst, ◌∙◌, ◌⊎◌, inl, inr, Bool, true, false, Option, none, some, Bytes,
  arith, Option-cases, Bool-cases, Result, ok, err,
}
use kiss_protocol.Store.Types.{Store, Disk}
use kiss_protocol.Store.Appending.{AppendError, append}
use kiss_protocol.Pd.Custody.{
  Catalog, PdStore, PdDisk, PdHost, PdWorld, PdError, no_random, item_not_found, under_legal_hold,
  catalog_not_marshalled, catalog_not_written, Outcome, find_item, save_catalog, appended,
  log_event, load_catalog,
}
use kiss_protocol.Pd.Operations.{Operation, Plan, perform, plan, save_then_log, carry_out}
use kiss_protocol.Pd.Plans.{saved_or, planned_items, perform-planned, perform-items}

-- The catalog that loads from disk is the one in memory.
abbrev pub InSync : PdHost → PdStore → PdDisk → Type 0
InSync pd_host pd disk =
    (loaded : Catalog) × (load_catalog pd_host disk ≡ some loaded)
    × ((id : Bytes) → find_item id loaded ≡ find_item id pd.items)

-- The catalog, once marshalled, reads back as the same map.
abbrev pub ReadsBack : PdHost → Catalog → Type 0
ReadsBack pd_host items =
    (bytes : Bytes)
    → pd_host.marshal_items items ≡ some bytes
    → (loaded : Catalog) × (pd_host.unmarshal_items bytes ≡ some loaded)
      × ((id : Bytes) → find_item id loaded ≡ find_item id items)

-- The save of the catalog failed.
abbrev pub lost_catalog : Option PdError → Bool
lost_catalog (some catalog_not_marshalled) = true
lost_catalog (some catalog_not_written) = true
lost_catalog _ = false

abbrev pub is_refusal : PdError → Bool
is_refusal no_random = true
is_refusal item_not_found = true
is_refusal under_legal_hold = true
is_refusal _ = false

lost-true : (e : PdError) → lost_catalog (some e) ≡ true → lost_catalog (some e) ≢ false
lost-true e h h' = cc

same_error : {a b : PdError} → ◌≡◌ {A = Option PdError} (some a) (some b) → a ≡ b
same_error h = cc

module _ (pd_host : PdHost) (w : PdWorld) where
  -- What `Append` has reported, as the call reports it.
  record IsAppended (pd : PdStore) (disk : PdDisk) (out : Outcome) : Type 0 where
    items_kept : out.0.items ≡ pd.items
    catalog_kept : out.1.catalog_file ≡ disk.catalog_file
    not_lost : lost_catalog out.2 ≡ false
    not_refused : (e : PdError) → out.2 ≡ some e → is_refusal e ≡ false

  appended-IsAppended :
      (pd : PdStore) (disk : PdDisk) (out : Store × Disk × Option AppendError)
      → IsAppended pd disk (appended pd_host w pd disk out)
  appended-IsAppended pd disk (s, log, none) = record {
    items_kept = refl;
    catalog_kept = refl;
    not_lost = refl;
    not_refused = λ e h. cc;
  }
  appended-IsAppended pd disk (s, log, some failure) = record {
    items_kept = refl;
    catalog_kept = refl;
    not_lost = refl;
    not_refused = λ e h. ground (arith, h);
  }

  log_event-IsAppended :
      (level event source : Bytes) (body : Option Bytes) (pd : PdStore) (disk : PdDisk)
      → IsAppended pd disk (log_event pd_host w level event source body pd disk)
  unfolding log_event
  log_event-IsAppended level event source body pd disk = appended-IsAppended pd disk (
      append pd_host.host w.appending pd.store
        (record { level = level; event = event; source = source; body = some body }) disk.log)

  pub save_catalog-cases :
      (items : Catalog) (disk : PdDisk)
      → ((e : PdError) × (lost_catalog (some e) ≡ true)
          × (is_refusal e ≡ false)
          × ((save_catalog pd_host w items disk).1 ≡ some e))
        ⊎ ((bytes : Bytes) × (pd_host.marshal_items items ≡ some bytes)
            × ((save_catalog pd_host w items disk).0 ≡ record disk { catalog_file = some bytes })
            × ((save_catalog pd_host w items disk).1 ≡ none))
  unfolding save_catalog
  save_catalog-cases items disk = elim (Option-cases (pd_host.marshal_items items)) [
    | inl failed ↦ inl (catalog_not_marshalled, refl, refl, rw (failed, save_catalog) refl)
    | inr (bytes, made) ↦ elim (Bool-cases w.catalog_opens) [
      | inr shut ↦ inl (catalog_not_written, refl, refl, rw (made, shut, save_catalog) refl)
      | inl opens ↦ elim (Option-cases w.catalog_torn_at) [
        | inr (n, torn) ↦
            inl (catalog_not_written, refl, refl, rw (made, opens, torn, save_catalog) refl)
        | inl whole ↦ inr (
          bytes,
          made,
          rw (made, opens, whole, save_catalog) refl,
          rw (made, opens, whole, save_catalog) refl,
        )
      ]
    ]
  ]

  -- What a call has done before its entry: nothing yet, or the catalog has been saved.
  -- The catalog that a plan saves reads back.
  abbrev SavedReadsBack : Option Catalog → Type 0
  SavedReadsBack none = Unit
  SavedReadsBack (some items) = ReadsBack pd_host items

  save_then_log-kept :
      (p : Plan) (saved : Option Catalog) (pd : PdStore) (disk : PdDisk)
      → let out = save_then_log pd_host w p saved pd disk in
        (SavedReadsBack saved
          → InSync pd_host pd disk
          → lost_catalog out.2 ≡ false
          → InSync pd_host out.0 out.1)
        × ((e : PdError) → out.2 ≡ some e → is_refusal e ≡ false)
  unfolding save_then_log load_catalog
  save_then_log-kept p none pd disk =
      let done = log_event-IsAppended p.level p.event p.source p.body pd disk in
      (
        λ reads (loaded, loads, same) h. (
          loaded,
          rw (done.catalog_kept, load_catalog) loads,
          λ id. same id ∙ ap (find_item id) (sym done.items_kept),
        ),
        done.not_refused,
      )
  save_then_log-kept p (some items) pd disk = elim (save_catalog-cases items disk) [
    | inl (failure, lost, not_refusal, failed) ↦
        rw (failed, save_then_log)
          (
            λ reads sync h. absurd (lost-true failure lost h),
            λ e h. subst (λ x. is_refusal x ≡ false) (same_error h) not_refusal,
          )
    | inr (bytes, made, file, written) ↦
        let pd' = record pd { items = items } in
        let disk' = record disk { catalog_file = some bytes } in
        let done = log_event-IsAppended p.level p.event p.source p.body pd' disk' in
        rw (written, file, save_then_log)
          (
            λ reads sync h.
                let (loaded, loads, same) = reads bytes made in
                (
                  loaded,
                  rw (done.catalog_kept, load_catalog) loads,
                  λ id. same id ∙ ap (find_item id) (sym done.items_kept),
                ),
            done.not_refused,
          )
  ]

  abbrev PlanReadsBack : Result PdError Plan → Type 0
  PlanReadsBack (err e) = Unit
  PlanReadsBack (ok p) = SavedReadsBack p.saved

  saved-reads :
      (r : Result PdError Plan) (items : Catalog)
      → ReadsBack pd_host (planned_items items r)
      → PlanReadsBack r
  saved-reads (err e) items reads = tt
  saved-reads (ok p) items reads = saved_reads p.saved items reads
    where
      saved_reads :
          (saved : Option Catalog) (items : Catalog)
          → ReadsBack pd_host (saved_or items saved)
          → SavedReadsBack saved
      saved_reads none items reads = tt
      saved_reads (some saved) items reads = reads

  carry_out-kept :
      (r : Result PdError Plan) (pd : PdStore) (disk : PdDisk)
      → let out = carry_out pd_host w r pd disk in
        (PlanReadsBack r
          → InSync pd_host pd disk
          → lost_catalog out.2 ≡ false
          → InSync pd_host out.0 out.1)
        × ((e : PdError) → out.2 ≡ some e → is_refusal e ≡ true → (out.0 ≡ pd) × (out.1 ≡ disk))
  unfolding carry_out
  carry_out-kept (err e) pd disk = ((λ reads sync h. sync), (λ e' h r. (refl, refl)))
  carry_out-kept (ok p) pd disk =
      let kept = save_then_log-kept p p.saved pd disk in
      (kept.0, λ e h r. absurd (ground (arith, kept.1 e h)))

  -- Where the catalog that a call leaves in memory, once marshalled, reads back as the same map, the
  -- call keeps the catalog that loads from disk equal to the one in memory unless the save of the
  -- catalog itself fails: a failed `Append` leaves the change standing in both.
  pub perform-InSync :
      (op : Operation) (pd : PdStore) (disk : PdDisk)
      → ReadsBack pd_host (perform pd_host w op pd disk).0.items
      → InSync pd_host pd disk
      → lost_catalog (perform pd_host w op pd disk).2 ≡ false
      → InSync pd_host (perform pd_host w op pd disk).0 (perform pd_host w op pd disk).1
  perform-InSync op pd disk reads sync h =
      let planned = perform-planned pd_host w op pd disk in
      let reads_planned =
        saved-reads (plan pd_host w op pd.items) pd.items
          (subst (ReadsBack pd_host) (perform-items pd_host w op pd disk) reads) in
      rw planned (
        (carry_out-kept (plan pd_host w op pd.items) pd disk).0 reads_planned sync
          (rw planned at h))

  -- A call that is refused, because the item is missing or under legal hold or no id was made,
  -- changes neither the store nor the directory.
  pub perform-refused :
      (op : Operation) (pd pd' : PdStore) (disk disk' : PdDisk) (e : PdError)
      → perform pd_host w op pd disk ≡ (pd', disk', some e)
      → is_refusal e ≡ true
      → (pd' ≡ pd) × (disk' ≡ disk)
  perform-refused op pd pd' disk disk' e h refusal =
      let out = sym (perform-planned pd_host w op pd disk) ∙ h in
      let (same, kept) =
        (carry_out-kept (plan pd_host w op pd.items) pd disk).1 e (ap (λ (o : Outcome). o.2) out)
          refusal in
      (sym (ap (λ (o : Outcome). o.0) out) ∙ same, sym (ap (λ (o : Outcome). o.1) out) ∙ kept)

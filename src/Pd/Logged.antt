-- ===== src/Pd/Logged.antt =====
-- What a call on a PDStore that reports no error has written to the log.
use mathlib.Core.Option
use kiss_protocol.Base.{
  ◌≡◌, refl, sym, ap, ◌∙◌, inl, inr, Option, none, some, [], ◌∷◌, ◌++◌, Bytes, arith, Result, ok,
  err,
}
use kiss_protocol.Encrypt.{seal}
use kiss_protocol.Store.Types.{Store, Disk, Entry}
use kiss_protocol.Store.Frames.{frame}
use kiss_protocol.Store.Head.{leaf_hash}
use kiss_protocol.Store.Appending.{
  AppendError, Request, request_body, append, append_log, new_entry, next_seq,
}
use kiss_protocol.Store.Committing.{write_tree_head-written, commit_entry-IsCommitted}
use kiss_protocol.Store.Reopening.{append-commits}
use kiss_protocol.Pd.Custody.{
  Catalog, PdStore, PdDisk, PdHost, PdWorld, PdError, Outcome, appended, log_event,
}
use kiss_protocol.Pd.Operations.{Operation, Plan, perform, plan, save_then_log, carry_out}
use kiss_protocol.Pd.Plans.{saved_or, perform-planned, planned_items, perform-items}
use kiss_protocol.Pd.Records.{save_catalog-cases}

module _ (pd_host : PdHost) (w : PdWorld) where
  -- The entry that `Append` makes of a plan.
  abbrev pub entry_of : Store → Plan → Bytes → Entry
  entry_of s p body =
      new_entry pd_host.host w.appending (next_seq pd_host.host w.appending s)
        (record { level = p.level; event = p.event; source = p.source; body = some (some body) })
        body

  -- One entry has been appended for the plan: its frame stands behind the bytes that the log file held,
  -- and its leaf behind the leaves in memory.
  pub record IsLogged (p : Plan) (s s' : Store) (log log' : Disk) : Type 0 where
    pub body : Bytes
    pub sealed : Bytes
    pub body_made : p.body ≡ some body
    pub seals :
        seal pd_host.host.gcm w.appending.nonce
          (pd_host.host.marshal_entry (entry_of s p body))
          s.key
        ≡ some sealed
    pub written : log'.log_file ≡ some (Option.get_or log.log_file [] ++ frame sealed)
    pub last : s'.last ≡ some (entry_of s p body)
    pub leaves : s'.leaves ≡ s.leaves ++ leaf_hash pd_host.host (entry_of s p body) ∷ []

  appended-none :
      (pd : PdStore) (disk : PdDisk) (out : Store × Disk × Option AppendError) (pd' : PdStore)
      (disk' : PdDisk)
      → appended pd_host w pd disk out ≡ (pd', disk', none)
      → out ≡ (pd'.store, disk'.log, none)
  appended-none pd disk (s, log, none) pd' disk' h = cc
  appended-none pd disk (s, log, some e) pd' disk' h = absurd (ground arith)

  log_event-IsLogged :
      (p : Plan) (pd pd' : PdStore) (disk disk' : PdDisk)
      → log_event pd_host w p.level p.event p.source p.body pd disk ≡ (pd', disk', none)
      → IsLogged p pd.store pd'.store disk.log disk'.log
  unfolding log_event request_body next_seq new_entry
  log_event-IsLogged p pd pd' disk disk' h =
      let r : Request = record {
        level = p.level;
        event = p.event;
        source = p.source;
        body = some p.body;
      } in
      let out = append pd_host.host w.appending pd.store r disk.log in
      let reported = appended-none pd disk out pd' disk' h in
      let (body, made, committed) =
        append-commits pd_host.host w.appending pd.store r disk.log pd'.store disk'.log reported in
      let s = next_seq pd_host.host w.appending pd.store in
      let e = new_entry pd_host.host w.appending s r body in
      let done =
        commit_entry-IsCommitted pd_host.host w.appending s disk.log e pd'.store disk'.log
          committed in
      let (signed, head_made, disk_eq) =
        write_tree_head-written pd_host.host w.appending pd'.store
          (append_log pd_host.host w.appending disk.log (frame done.sealed)) disk'.log
          done.head_written in
      record {
        body = body;
        sealed = done.sealed;
        body_made = made;
        seals = done.seals;
        written = ap (λ (x : Disk). x.log_file) disk_eq;
        last = ap (λ (x : Store). x.last) done.store_eq;
        leaves = ap (λ (x : Store). x.leaves) done.store_eq;
      }

  save_then_log-IsLogged :
      (p : Plan) (saved : Option Catalog) (pd pd' : PdStore) (disk disk' : PdDisk)
      → save_then_log pd_host w p saved pd disk ≡ (pd', disk', none)
      → IsLogged p pd.store pd'.store disk.log disk'.log
  unfolding save_then_log
  save_then_log-IsLogged p none pd pd' disk disk' h = log_event-IsLogged p pd pd' disk disk' h
  save_then_log-IsLogged p (some items) pd pd' disk disk' h =
      elim (save_catalog-cases pd_host w items disk) [
        | inl (failure, lost, not_refusal, failed) ↦ absurd (ground (arith, failed, h))
        | inr (bytes, made, file, written) ↦
            log_event-IsLogged p (record pd { items = items }) pd'
              (record disk { catalog_file = some bytes }) disk'
              (rw (written, file, save_then_log) at h)
      ]

  carry_out-IsLogged :
      (r : Result PdError Plan) (pd pd' : PdStore) (disk disk' : PdDisk)
      → carry_out pd_host w r pd disk ≡ (pd', disk', none)
      → (p : Plan) × (r ≡ ok p) × IsLogged p pd.store pd'.store disk.log disk'.log
  unfolding carry_out
  carry_out-IsLogged (err e) pd pd' disk disk' h = absurd (ground (arith, h))
  carry_out-IsLogged (ok p) pd pd' disk disk' h =
      (p, refl, save_then_log-IsLogged p p.saved pd pd' disk disk' h)

  -- A call that reports no error has a plan, has changed the catalog in memory as the plan says, and has
  -- written exactly one frame behind the bytes of the log file, which seals the entry of the plan, and
  -- one leaf behind the leaves in memory, which is that of this entry.
  pub perform-IsLogged :
      (op : Operation) (pd pd' : PdStore) (disk disk' : PdDisk)
      → perform pd_host w op pd disk ≡ (pd', disk', none)
      → (p : Plan) × (plan pd_host w op pd.items ≡ ok p)
        × (pd'.items ≡ saved_or pd.items p.saved)
        × IsLogged p pd.store pd'.store disk.log disk'.log
  perform-IsLogged op pd pd' disk disk' h =
      let (p, planned, logged) =
        carry_out-IsLogged (plan pd_host w op pd.items) pd pd' disk disk'
          (sym (perform-planned pd_host w op pd disk) ∙ h) in
      (
        p,
        planned,
        ap (λ (o : Outcome). o.0.items) (sym h)
            ∙ perform-items pd_host w op pd disk
            ∙ ap (planned_items pd.items) planned,
        logged,
      )

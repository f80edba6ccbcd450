-- ===== src/Pd/Samples.antt =====
-- Two evidence items, one of them under legal hold, and a court export.
use kiss_protocol.Base.{
  sym, subst, ◌∙◌, Result, arith, ◌≡◌, refl, true, false, none, some, List, [], ◌∷◌, ◌++◌, Bytes,
  codes, bytes_eq, bytes_eq_refl, arith, replicate, All, ok, ap, Option, take, take-append_left,
}
use kiss_protocol.Codec.Hex.{encode, decode}
use kiss_protocol.Encrypt.{seal}
use kiss_protocol.Store.Types.{Store, Entry}
use kiss_protocol.Store.Appending.{
  new_entry, append, write_failed, commit_entry, request_body, write_tree_head, sign_head, next_seq,
}
use kiss_protocol.Store.SampleHost.{
  world, checksum, signature_of, signature_of-AreBytes, host, put_field, marking-Opens,
  read_entry-write_entry,
}
use kiss_protocol.Pd.Custody.{
  put_item, PdError, not_logged, record_transfer, change_item, commit_change, save_catalog,
  log_custody, log_event, Item, PdStore, PdDisk, PdWorld, find_item, load_catalog, status_active,
}
use kiss_protocol.Pd.Operations.{Operation, transfer, hold_set, destroy, perform, run, Plan, plan}
use kiss_protocol.Pd.Runs.{KeepsHold, run-held}
use kiss_protocol.Pd.Records.{InSync, lost_catalog, perform-InSync}
use kiss_protocol.Pd.Plans.{saved_or}
use kiss_protocol.Pd.Logged.{IsLogged, entry_of, perform-IsLogged}
use kiss_protocol.Pd.Bundles.{
  Bundle, BundleHost, case_entries, bundle_payload, sign_bundle, verify_bundle,
}
use kiss_protocol.Pd.Exports.{case_of, CaseReadsBack, CanLog, entries_on, perform-exported}
use kiss_protocol.Pd.Signing.{IsKeyPair, verify_bundle-sign_bundle}
use kiss_protocol.Store.Persistence.{IsStorable}
use kiss_protocol.Pd.SampleHost.{pd_host, pd_world, pd_host-ReadsBack}

abbrev rifle : Item
rifle = record {
  id = codes "EV-1";
  case_number = codes "C-7";
  description = codes "rifle";
  category = codes "firearms";
  created_at = 0;
  created_by = codes "clerk";
  legal_hold = true;
  hold_reason = codes "appeal";
  status = status_active;
  current_node = codes "vault";
}

abbrev phone : Item
phone = record rifle { id = codes "EV-2"; description = codes "phone"; legal_hold = false }

abbrev empty_store : Store
empty_store = record {
  key = replicate 32 1;
  signer = none;
  trusted = [];
  pinned = [];
  unsigned_head = false;
  recovered = record { moved_bytes = 0; uncommitted_records = 0; has_quarantine = false };
  read_only = false;
  uncovered = record { trailing_records = 0; trailing_bytes = 0 };
  last = none;
  seq = 0;
  leaves = [];
}

abbrev pd : PdStore
pd = record { store = empty_store; items = (codes "EV-1", rifle) ∷ (codes "EV-2", phone) ∷ [] }

abbrev disk : PdDisk
disk = record {
  log = record { log_file = some []; head_file = none; quarantined = [] };
  catalog_file = pd_host.marshal_items pd.items;
}

abbrev calls : List (PdWorld × Operation)
calls =
    (pd_world, transfer (codes "EV-1") (codes "clerk") (codes "vault") (codes "lab") [])
    ∷ (pd_world, hold_set (codes "EV-1") (codes "chief") (codes "retrial"))
    ∷ (pd_world, destroy (codes "EV-1") (codes "chief") [])
    ∷ []

keeps : All (KeepsHold (codes "EV-1")) calls
keeps = ((tt, λ a n h. cc), ((tt, λ a n h. cc), ((tt, λ a n h. cc), tt)))

rifle_found : find_item (codes "EV-1") pd.items ≡ some rifle
unfolding find_item bytes_eq
rifle_found = refl

run-held_example :
    (item : Item) × (find_item (codes "EV-1") (run pd_host calls pd disk).0.items ≡ some item)
    × (item ≡ record rifle { hold_reason = item.hold_reason })
run-held_example = run-held pd_host (codes "EV-1") calls pd disk rifle keeps refl rifle_found

in_sync : InSync pd_host pd disk
unfolding load_catalog
in_sync = pd_host-ReadsBack pd.items _ refl

abbrev move_phone : Operation
move_phone = transfer (codes "EV-2") (codes "clerk") (codes "vault") (codes "lab") []

-- The file of the log takes only four bytes of the entry.
abbrev full_disk : PdWorld
full_disk = record pd_world { appending = record world { torn_at = some 4 } }

phone_found : find_item (codes "EV-2") pd.items ≡ some phone
unfolding find_item bytes_eq
phone_found = refl

abbrev torn : PdStore × PdDisk × Option PdError
torn = perform pd_host full_disk move_phone pd disk

torn_fails : torn.2 ≡ some (not_logged write_failed)
unfolding perform record_transfer change_item commit_change save_catalog log_custody log_event
    append commit_entry request_body seal next_seq find_item bytes_eq
torn_fails = refl

catalog_kept : lost_catalog torn.2 ≡ false
catalog_kept = rw torn_fails refl

perform-InSync_example : InSync pd_host torn.0 torn.1
perform-InSync_example =
    perform-InSync pd_host full_disk move_phone pd disk (pd_host-ReadsBack torn.0.items) in_sync
      catalog_kept

abbrev done : PdStore × PdDisk × Option PdError
done = perform pd_host pd_world move_phone pd disk

succeeds : done.2 ≡ none
unfolding perform record_transfer change_item commit_change save_catalog log_custody log_event
    append commit_entry request_body seal write_tree_head sign_head next_seq find_item bytes_eq
succeeds = refl

reported : done ≡ (done.0, done.1, none)
reported = ap (λ (e : Option PdError). (done.0, done.1, e)) succeeds

perform-IsLogged_example :
    (p : Plan) × (plan pd_host pd_world move_phone pd.items ≡ ok p)
    × (done.0.items ≡ saved_or pd.items p.saved)
    × IsLogged pd_host pd_world p pd.store done.0.store disk.log done.1.log
perform-IsLogged_example =
    perform-IsLogged pd_host pd_world move_phone pd done.0 disk done.1 reported

abbrev read_case : Bytes → Option Bytes
read_case [] = none
read_case (n ∷ rest) = some (take n rest)

abbrev key_of : Bytes → Bytes
key_of private_key = take 32 private_key

abbrev bundle_host : BundleHost
bundle_host = record {
  sha256 = checksum;
  sign = λ private_key m. signature_of (key_of private_key) m;
  ed25519_verify = λ public_key m sig. bytes_eq sig (signature_of public_key m);
  marshal_bundle = λ b. some (b.bundle_id ++ b.sha256_chain);
  marshal_entry = λ e. some e.body;
  read_case = read_case;
}

case_reads_back : CaseReadsBack pd_host bundle_host (case_of move_phone pd.items)
case_reads_back ev body of_case made =
    let same : body ≡ put_field ev.case_number (put_field ev.item_id ev.event_type) = cc in
    rw (same, ← of_case)
      (refl, ap some (take-append_left ev.case_number (put_field ev.item_id ev.event_type)))

abbrev moved_body : Bytes
moved_body = put_field (codes "C-7") (put_field (codes "EV-2") (codes "transfer"))

abbrev moved_plan : Plan
moved_plan = record {
  saved = some (put_item (codes "EV-2") (record phone { current_node = codes "lab" }) pd.items);
  level = codes "INFO";
  event = codes "pd/transfer";
  source = codes "pd";
  body = some moved_body;
}

moves_phone : plan pd_host pd_world move_phone pd.items ≡ ok moved_plan
unfolding plan find_item bytes_eq
moves_phone = refl

same_plan : {a b : Plan} → ◌≡◌ {A = Result PdError Plan} (ok a) (ok b) → a ≡ b
same_plan h = cc

same_body : {a b : Bytes} → ◌≡◌ {A = Option Bytes} (some a) (some b) → a ≡ b
same_body h = cc

abbrev Storable : Plan → Bytes → Type 0
Storable p body =
    IsStorable host pd_world.appending pd.store.key (entry_of pd_host pd_world pd.store p body)

moved-Storable : Storable moved_plan moved_body
unfolding new_entry
moved-Storable = record {
  json_reads_back =
      read_entry-write_entry (entry_of pd_host pd_world pd.store moved_plan moved_body);
  fits = omega arith;
}

can_log : CanLog pd_host bundle_host pd_world move_phone pd
can_log = record {
  opens = marking-Opens;
  nonce_length = refl;
  storable = λ p body planned made.
      let same_p : moved_plan ≡ p = same_plan (sym moves_phone ∙ planned) in
      let same_b : moved_body ≡ body = same_body (ap (λ (q : Plan). q.body) same_p ∙ made) in
      subst (Storable p) same_b (subst (λ q. Storable q moved_body) same_p moved-Storable);
}

perform-exported_example :
    (e : Entry) × (entries_on pd_host bundle_host pd_world pd done.1
      ≡ entries_on pd_host bundle_host pd_world pd disk ++ e ∷ [])
    × (case_entries bundle_host
          (case_of move_phone pd.items)
          (entries_on pd_host bundle_host pd_world pd done.1)
        ≡ case_entries bundle_host
            (case_of move_phone pd.items)
            (entries_on pd_host bundle_host pd_world pd disk)
          ++ e ∷ [])
perform-exported_example =
    perform-exported pd_host bundle_host pd_world move_phone pd done.0 disk done.1 [] can_log
      case_reads_back refl refl tt reported

abbrev private_key : Bytes
private_key = replicate 64 9

abbrev bundle : Bundle
bundle = record {
  bundle_id = codes "BUNDLE-1";
  generated_at = 0;
  case_number = codes "C-7";
  department = codes "PD";
  node_id = codes "n";
  entry_count = 0;
  sha256_chain = [];
  signature = [];
  entries = [];
}

abbrev signed_bundle : Bundle
signed_bundle = record bundle {
  signature = encode (signature_of (replicate 32 9) (codes "BUNDLE-1"));
}

pair-IsKeyPair : IsKeyPair bundle_host private_key (replicate 32 9)
pair-IsKeyPair = record {
  public_length = refl;
  public_bytes = omega arith;
  signature_length = λ m. refl;
  signature_bytes = λ m. signature_of-AreBytes (replicate 32 9) m;
  verifies = λ m. bytes_eq_refl (signature_of (replicate 32 9) m);
}

key_reads : decode (encode private_key) ≡ some private_key
unfolding encode decode
key_reads = refl

signs : sign_bundle bundle_host bundle (encode private_key) ≡ ok signed_bundle
unfolding sign_bundle bundle_payload encode decode
signs = refl

verify_bundle-sign_bundle_example :
    (verify_bundle bundle_host signed_bundle (encode (replicate 32 9)) ≡ ok tt)
    × (bundle ≡ record signed_bundle { signature = [] })
verify_bundle-sign_bundle_example =
    verify_bundle-sign_bundle bundle_host bundle signed_bundle (encode private_key) private_key
      (replicate 32 9) key_reads pair-IsKeyPair signs

-- ===== src/Pd/SampleHost.antt =====
-- A small JSON for the catalog and the events, and a key pair.
use kiss_protocol.Base.{
  ℕ, zero, suc, ◌==◌, ◌≡◌, refl, Bool, true, false, Option, none, some, [], ◌∷◌, Bytes, codes,
  length, take-append_left, drop-append_left,
}
use kiss_protocol.Store.SampleHost.{host, world, put_field, get_field}
use kiss_protocol.Pd.Custody.{Item, CustodyEvent, Catalog, PdHost, PdWorld}
use kiss_protocol.Pd.Records.{ReadsBack}

abbrev bit_of : Bool → ℕ
bit_of true = 1
bit_of false = 0

bit_of-read : (b : Bool) → (bit_of b == 1) ≡ b
bit_of-read true = refl
bit_of-read false = refl

unfoldable pub write_item : Bytes → Item → Bytes → Bytes
write_item id item rest =
    item.created_at
    ∷ bit_of item.legal_hold
    ∷ (put_field id (
        put_field item.id (
          put_field item.case_number (
            put_field item.description (
              put_field item.category (
                put_field item.created_by (
                  put_field item.hold_reason
                    (put_field item.status (put_field item.current_node rest)))))))))

abbrev read_fields : ℕ → Bool → Bytes → (Bytes × Item) × Bytes
read_fields created_at legal_hold r0 =
    let (key, r1) = get_field r0 in
    let (id, r2) = get_field r1 in
    let (case_number, r3) = get_field r2 in
    let (description, r4) = get_field r3 in
    let (category, r5) = get_field r4 in
    let (created_by, r6) = get_field r5 in
    let (hold_reason, r7) = get_field r6 in
    let (status, r8) = get_field r7 in
    let (current_node, r9) = get_field r8 in
    (
      (
        key,
        record {
          id = id;
          case_number = case_number;
          description = description;
          category = category;
          created_at = created_at;
          created_by = created_by;
          legal_hold = legal_hold;
          hold_reason = hold_reason;
          status = status;
          current_node = current_node;
        },
      ),
      r9,
    )

unfoldable pub read_item : Bytes → Option ((Bytes × Item) × Bytes)
read_item (created_at ∷ hold ∷ rest) = some (read_fields created_at (hold == 1) rest)
read_item _ = none

read_item-write_item :
    (id : Bytes) (item : Item) (rest : Bytes)
    → read_item (write_item id item rest) ≡ some ((id, item), rest)
unfolding read_item write_item
read_item-write_item id item rest =
    let f8 = put_field item.current_node rest in
    let f7 = put_field item.status f8 in
    let f6 = put_field item.hold_reason f7 in
    let f5 = put_field item.created_by f6 in
    let f4 = put_field item.category f5 in
    let f3 = put_field item.description f4 in
    let f2 = put_field item.case_number f3 in
    let f1 = put_field item.id f2 in
    rw
      (
        bit_of-read item.legal_hold,
        take-append_left id f1,
        drop-append_left id f1,
        take-append_left item.id f2,
        drop-append_left item.id f2,
        take-append_left item.case_number f3,
        drop-append_left item.case_number f3,
        take-append_left item.description f4,
        drop-append_left item.description f4,
        take-append_left item.category f5,
        drop-append_left item.category f5,
        take-append_left item.created_by f6,
        drop-append_left item.created_by f6,
        take-append_left item.hold_reason f7,
        drop-append_left item.hold_reason f7,
        take-append_left item.status f8,
        drop-append_left item.status f8,
        take-append_left item.current_node rest,
        drop-append_left item.current_node rest,
      )
      refl

abbrev write_items : Catalog → Bytes
write_items [] = []
write_items ((id, item) ∷ items) = write_item id item (write_items items)

abbrev read_items : ℕ → Bytes → Option Catalog
read_items zero bytes = some []
read_items (suc n) bytes = elim (read_item bytes) [
  | none ↦ none
  | some (entry, rest) ↦ elim (read_items n rest) [
    | none ↦ none
    | some items ↦ some (entry ∷ items)
  ]
]

abbrev write_catalog : Catalog → Option Bytes
write_catalog items = some (length items ∷ write_items items)

abbrev read_catalog : Bytes → Option Catalog
read_catalog [] = none
read_catalog (n ∷ bytes) = read_items n bytes

read_items-write_items :
    (items : Catalog) → read_items (length items) (write_items items) ≡ some items
read_items-write_items [] = refl
read_items-write_items ((id, item) ∷ items) =
    rw (read_items, read_item-write_item id item (write_items items), read_items-write_items items)
      refl

abbrev write_event : CustodyEvent → Option Bytes
write_event ev = some (put_field ev.case_number (put_field ev.item_id ev.event_type))

abbrev pub pd_host : PdHost
pd_host = record {
  host = host;
  marshal_items = write_catalog;
  unmarshal_items = read_catalog;
  marshal_event = write_event;
  marshal_notes = λ notes. some notes;
}

abbrev pub pd_world : PdWorld
pd_world = record {
  appending = world;
  now = 1700000000;
  today = codes "20260512";
  random = some (1 ∷ 2 ∷ 3 ∷ 4 ∷ []);
  catalog_opens = true;
  catalog_torn_at = none;
}

pub pd_host-ReadsBack : (items : Catalog) → ReadsBack pd_host items
pd_host-ReadsBack items bytes made =
    let same : bytes ≡ length items ∷ write_items items = cc in
    (items, rw same (read_items-write_items items), λ id. refl)

-- ===== src/Store/SampleHost.antt =====
-- Small stand-ins for what the store calls, with the properties that the theorems ask of the real ones.
use kiss_protocol.Base.{
  ℕ, ◌+◌, ◌*◌, ◌%◌, ◌<◌, ◌≡◌, refl, sym, ap, subst, ◌∙◌, ◌==◌, true, Option, none, some, [], ◌∷◌,
  ◌++◌, Bytes, AreBytes, codes, bytes_eq, bytes_eq_refl, length, take, drop, take-append_left,
  drop-append_left, replicate, arith, if◌then◌else◌,
}
use kiss_protocol.Encrypt.{Gcm}
use kiss_protocol.Store.Types.{Entry, TreeHead, Signer, Host}
use kiss_protocol.Store.Written.{IsHash, IsSound}
use kiss_protocol.Store.Committing.{Opens}
use kiss_protocol.Store.Persistence.{IsLawful}
use kiss_protocol.Store.Appending.{Surroundings}

-- A 32-byte checksum.
abbrev pub fold_bytes : Bytes → ℕ
fold_bytes [] = 7
fold_bytes (x ∷ xs) = (x + 31 * fold_bytes xs) % 251

abbrev pub checksum : Bytes → Bytes
checksum xs = fold_bytes xs ∷ replicate 31 0

fold_bytes-bound : (xs : Bytes) → fold_bytes xs < 256
fold_bytes-bound [] = omega arith
fold_bytes-bound (x ∷ xs) = omega arith

pub checksum-IsHash : (xs : Bytes) → IsHash (checksum xs)
checksum-IsHash xs = (refl, omega (arith, fold_bytes-bound xs))

-- Fields behind their length.
abbrev pub put_field : Bytes → Bytes → Bytes
put_field xs rest = length xs ∷ xs ++ rest

abbrev pub get_field : Bytes → Bytes × Bytes
get_field [] = ([], [])
get_field (n ∷ rest) = (take n rest, drop n rest)

pub get_field-put_field : (xs rest : Bytes) → get_field (put_field xs rest) ≡ (xs, rest)
get_field-put_field xs rest = rw (take-append_left xs rest, drop-append_left xs rest) refl

abbrev pub write_head : TreeHead → Bytes
write_head h =
    h.size
    ∷ put_field h.root (
        put_field h.prev_root (
          put_field h.timestamp
            (put_field h.mac (put_field h.signature (put_field h.signer_key [])))))

abbrev read_head : Bytes → Option TreeHead
read_head [] = none
read_head (n ∷ r0) =
    let (root, r1) = get_field r0 in
    let (prev_root, r2) = get_field r1 in
    let (timestamp, r3) = get_field r2 in
    let (mac, r4) = get_field r3 in
    let (signature, r5) = get_field r4 in
    let (signer_key, r6) = get_field r5 in
    some (record {
      size = n;
      root = root;
      prev_root = prev_root;
      timestamp = timestamp;
      mac = mac;
      signature = signature;
      signer_key = signer_key;
    })

read_head-write_head : (h : TreeHead) → read_head (write_head h) ≡ some h
read_head-write_head h =
    let f6 = put_field h.signer_key [] in
    let f5 = put_field h.signature f6 in
    let f4 = put_field h.mac f5 in
    let f3 = put_field h.timestamp f4 in
    let f2 = put_field h.prev_root f3 in
    rw
      (
        take-append_left h.root f2,
        drop-append_left h.root f2,
        take-append_left h.prev_root f3,
        drop-append_left h.prev_root f3,
        take-append_left h.timestamp f4,
        drop-append_left h.timestamp f4,
        take-append_left h.mac f5,
        drop-append_left h.mac f5,
        take-append_left h.signature f6,
        drop-append_left h.signature f6,
        take-append_left h.signer_key [],
      )
      refl

abbrev pub write_entry : Entry → Bytes
write_entry e =
    e.seq
    ∷ e.timestamp
    ∷ put_field e.level (put_field e.event (put_field e.source (put_field e.body [])))

abbrev read_entry : Bytes → Option Entry
read_entry (n ∷ t ∷ r0) =
    let (level, r1) = get_field r0 in
    let (event, r2) = get_field r1 in
    let (source, r3) = get_field r2 in
    let (body, r4) = get_field r3 in
    some (record {
      seq = n;
      timestamp = t;
      level = level;
      event = event;
      source = source;
      body = body;
    })
read_entry _ = none

pub read_entry-write_entry : (e : Entry) → read_entry (write_entry e) ≡ some e
read_entry-write_entry e =
    let f4 = put_field e.body [] in
    let f3 = put_field e.source f4 in
    let f2 = put_field e.event f3 in
    rw
      (
        take-append_left e.level f2,
        drop-append_left e.level f2,
        take-append_left e.event f3,
        drop-append_left e.event f3,
        take-append_left e.source f4,
        drop-append_left e.source f4,
        take-append_left e.body [],
      )
      refl

-- A cipher that only marks the text with its key and nonce.
abbrev pub marking : Gcm
marking = record {
  seal = λ key nonce plain. fold_bytes (key ++ nonce) ∷ plain;
  open_sealed = λ key nonce c. unmark (fold_bytes (key ++ nonce)) c;
}
  where
    unmark : ℕ → Bytes → Option Bytes
    unmark tag [] = none
    unmark tag (t ∷ c) = if t == tag then some c else none

pub marking-Opens : Opens marking
marking-Opens key nonce plain h = ground arith

abbrev pub signature_of : Bytes → Bytes → Bytes
signature_of pub_key m = checksum (pub_key ++ m) ++ checksum m

pub signature_of-AreBytes : (pub_key m : Bytes) → AreBytes (signature_of pub_key m)
signature_of-AreBytes pub_key m = omega (arith, fold_bytes-bound (pub_key ++ m), fold_bytes-bound m)

abbrev pub host : Host
host = record {
  blake3 = checksum;
  blake3_keyed = λ key m. checksum (key ++ m);
  ed25519_verify = λ pub_key m sig. bytes_eq sig (signature_of pub_key m);
  gcm = marking;
  marshal_entry = write_entry;
  unmarshal_entry = read_entry;
  marshal_head = write_head;
  unmarshal_head = read_head;
  to_valid_utf8 = λ s. s;
}

abbrev pub public_key : Bytes
public_key = replicate 32 9

abbrev pub signer : Signer
signer = record { public_key = public_key; sign = λ m. some (signature_of public_key m) }

signature_of-eq : (m sig : Bytes) → signer.sign m ≡ some sig → signature_of public_key m ≡ sig
signature_of-eq m sig e = cc

pub signer-IsSound : IsSound host signer
signer-IsSound = record {
  key_length = refl;
  key_bytes = omega arith;
  signature_length = λ m sig e. ap length (sym (signature_of-eq m sig e)) ∙ refl;
  signature_bytes = λ m sig e.
      subst AreBytes (signature_of-eq m sig e)
        (omega (arith, fold_bytes-bound (public_key ++ m), fold_bytes-bound m));
  verifies = λ m sig e.
      subst (λ x. bytes_eq x (signature_of public_key m) ≡ true) (signature_of-eq m sig e)
        (bytes_eq_refl (signature_of public_key m));
}

abbrev pub world : Surroundings
world = record {
  now = 1700000000;
  now_text = codes "now";
  nonce = replicate 12 4;
  torn_at = none;
  head_written = true;
}

pub host-IsLawful : IsLawful host world
host-IsLawful = record {
  hashes = checksum-IsHash;
  macs = λ k x. checksum-IsHash (k ++ x);
  opens = marking-Opens;
  heads_read_back = read_head-write_head;
  nonce_length = refl;
}

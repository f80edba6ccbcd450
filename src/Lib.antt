-- ===== src/Lib.antt =====
-- Verification of the witness: a log of security events that its own machine cannot rewrite
-- unseen.
--
-- Each event is a record, encrypted and framed into one log file. The hash of a record is a leaf
-- of a Merkle tree, and a signed head with the number of leaves and their root is written after
-- each record. A third party checks a proof that a record is in the log, or an export of the log
-- against heads that it has kept.
--
-- The parts, and where they are modelled:
--   - Merkle: internal/merkle/tree.go and internal/merkle/proof.go. splitPoint, subtreeRoot,
--     auditPath, Prove, recompute and Verify. The recursion of the code on slices is recursion on
--     a bound, and the number of leaves is enough. The loop of splitPoint runs on 64 rounds, which
--     is enough for every length up to 2^62 leaves (max_leaves); above that its shift wraps around
--     as in the code. An index out of range and a loop that does not end are values of their own.
--   - Encrypt: internal/encrypt/encrypt.go. Seal and Open; the AES-GCM cipher is a record of two
--     functions.
--   - Store: internal/store/store.go and internal/store/export.go. Types has the records, Frames
--     readLog, Head checkTreeHead and verifyTreeHead, Opening openStore, Appending Append and
--     writeTreeHead, Committed readCommitted and OpenPinned, Queries the read operations, and
--     Export the exports. The loop of readLog runs on the length of the file as its rounds, as
--     each round reads a byte at least. The other files of the folder hold proofs.
--   - Gossip: internal/gossip/heartbeat.go, internal/gossip/peer.go and internal/gossip/death.go.
--     Packet has encodePacket and decodePacket, Node the state of a node with handlePacket,
--     checkPeers, sendHeartbeat, NewNode and BroadcastDeath, and Peers the list of trusted peers.
--     A run of a node is a sequence of packets and checks at any times; the thresholds are not
--     negative, and sockets and timers are not modelled.
--   - Accept: internal/accept/request.go and internal/accept/set.go. Requests has the shape and
--     the signature of a request, Approvals the policy and the set with Apply, rebuild, Filter and
--     Replay. The maps of the code are lists, and the JSON of a request is a parameter.
--   - Pd: internal/pd. Custody has the catalog of evidence items and the calls of PDStore over the
--     store, Operations the calls as values with a plan for each, Roles the table of grants, and
--     Bundles the signed court exports. The map of items is a list in the order of assignment, and
--     its JSON is a parameter; the catalog holds a copy of an item that is taken in.
--   - Pipelock: internal/pipelock/tailer.go and internal/pipelock/evidence_tailer.go. Lines has
--     the reading of lines, Tailer the pending lines, Ack, Flush and the choice of the position
--     that a file is opened at, Delivery the tailer with its consumer, the loop of
--     internal/sbh/bridge.go whose Append succeeds or fails, as a sequence of steps on one file,
--     and Evidence the scans of the evidence directory. The steps are those before Stop and
--     between two rotations.
--   - Bridges: internal/pipelock_bridge/bridge.go, internal/pipelock_bridge/stderr.go and
--     internal/sbh/bridge.go. Events has an audit event as a JSON object with what is read of it,
--     and Levels the classifiers. The changes of case and what a regular expression matches are
--     arguments.
--   - Death: internal/death/death.go, internal/death/chain.go and internal/death/verify.go.
--     Records has the records and their digests, Checks loadRecord and checkLink, Capture fire and
--     hashLog with what each read of the log finds, and Verification the failures that Verify
--     reports.
--   - Config: internal/config/config.go. The check of the event feeds and the thresholds; the form
--     of a source and the cleaning of a path are arguments.
--   - Soul: internal/soul/verify.go. Allowlist has LoadAllowlist and AppendAllowlist, Signatures
--     SignSoul and VerifySoulSignature. The scanner, the trimming and the splitting at blanks are
--     arguments.
--   - Enforcer: internal/enforcer/reader.go. Reader has poll with the room in the channel, and the
--     polls of Run.
--   - Watchdog: internal/lifecycle/lifecycle.go, the loops of internal/anomaly/detector.go and the
--     HTTP Push of internal/mirror/static.go. Their clocks, probes and requests are arguments.
--     Drift has Measure of internal/drift/drift.go over what the machine holds, and Audit the
--     comparison of cmd/witness/audit.go.
--   - Codec: the standard encodings that the program calls (encoding/hex, encoding/binary) and the
--     bit operations.
--   - Base: lists, numbers, results and byte strings.
--
-- State is passed explicitly: a Disk is the log file, the head file and the quarantined files, and
-- a Store is the struct of that name. What a call takes from its machine (the clock, the nonce,
-- the outcome of each write, the contents of the files at each read beside a running writer) is an
-- argument. Numbers are natural numbers; where the code has a uint64 or an int that can wrap
-- around, the remainder is written out.
--
-- BLAKE3, SHA-256, ed25519, AES-GCM, the JSON encodings and the repair of UTF-8 are a record of
-- functions (Host), and the theorems say what they ask of them. A property that rests on collision
-- resistance is stated with its alternative: two inputs of one digest, and where the hypotheses
-- bound the digests, two inputs at one place of the two logs that are compared.
--
-- Not modelled: errors of file operations other than the writes of Append and of the evidence
-- catalog, the daemon with its feeds, the other mirrors, the sandbox and the command line but for
-- the comparison of the audit.
pub mod Accept
pub mod Base
pub mod Bridges
pub mod Codec
pub mod Config
pub mod Death
pub mod Encrypt
pub mod Merkle
pub mod Pd
pub mod Pipelock
pub mod Enforcer
pub mod Gossip
pub mod Soul
pub mod Store
pub mod Watchdog

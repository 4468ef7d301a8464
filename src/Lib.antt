-- ===== src/Lib.antt =====
-- The evidence format of sealr: hash-chained records, checkpoints and the bundles that carry them.
--
-- A recorder appends records to a chain (`crates/evidence/src/chain.rs`): each record carries the
-- hash of the record before it and its own hash, which is BLAKE3 over its canonical JSON
-- (`record.rs`, `jcs.rs`). Checkpoints sign a Merkle root over a run of record hashes
-- (`checkpoint.rs`, `merkle.rs`, `keys.rs`); batches of checkpoint digests are anchored under one
-- root (`crates/bundle/src/anchors.rs`). The verifier (`crates/verify`) reads a bundle and reports
-- findings, whose severities give the result and the exit code.
--
-- Files and what they model (paths from the root of the repository):
--   Common       lists, texts, Boolean tests; Common/Result has the error enums of
--                crates/evidence/src/error.rs and crates/bundle/src/error.rs, without their texts
--   Deps         the libraries that are called: blake3 and sha2, ed25519_dalek, ulid, chrono,
--                serde_json, zip and zstd, x509_parser, and cms, der, x509_tsp and rsa for tokens,
--                each as a record of operations and documented laws
--   Hash         crates/evidence/src/hash.rs
--   Merkle       crates/evidence/src/merkle.rs
--   Json, Jcs    serde_json's values as they are used, and crates/evidence/src/jcs.rs
--   Record       crates/evidence/src/record.rs: the schema, its JSON form, the hash
--   Chain        crates/evidence/src/chain.rs: `ChainHead` and `StreamVerifier`
--   Keys         crates/evidence/src/keys.rs; Keys/Pem is its import and export of PEM texts
--   Certs        crates/evidence/src/certs.rs: the validation of a chain of certificates
--   Commitment   crates/evidence/src/commitment.rs
--   Revocation   crates/evidence/src/revocation.rs
--   Checkpoint   crates/evidence/src/checkpoint.rs
--   Projection   crates/evidence/src/projection.rs
--   Bundle       crates/bundle/src: Bundle/Anchors is anchors.rs, Bundle/Types types.rs, Bundle/Manifest
--                manifest.rs, Bundle/Writer write.rs (Writer/Records its shards, Writer/Documents the
--                other methods), Bundle/Reader read.rs; Bundle/RoundTrip and Bundle/Shards take the
--                writer and the reader together
--   Report       crates/verify/src/report.rs: findings, result, exit code
--   Tsa          crates/verify/src/tsa.rs: the verification of a timestamp token
--   Engine       crates/verify/src/engine.rs: Engine/Stream is the chain of a stream, Engine/Checkpoints
--                its checkpoints, Engine/Coverage the cross-checks for truncation, Engine/Trust the
--                choice of the roots, Engine/Base64 the PEM form of a certificate, Engine/Identity the
--                certificates and the console keys, Engine/Anchors the timestamps, Engine/Run
--                `verify_bundle`, which takes these phases in order; Engine/Findings is about how
--                each phase adds to the findings of those before it
--   Tests        stand-ins for the libraries, and runs on small inputs
--
-- State is passed explicitly: an operation on `&mut self` returns the new state with its result.
-- The bundle writer keeps what it has changed when it returns an error (Common/Run); in the other
-- parts the state after an error is not used. The containers of the crate `zip`, the compression of
-- `zstd` and the derived parsers of `serde` are interfaces (Deps/Archives, Bundle/Reader). Results
-- are values of `Result`; the texts in errors and findings are left out. A string is the list of
-- its code points, a byte string the list of its bytes. A u64 is a natural number with the wrap-
-- around of a release build where the source adds one; a JSON value is a tree, and a struct that is
-- serialized is given by its JSON form.
--
-- Fuel: the recursions on halves in Merkle take the number of leaves, `split_point` the size, and
-- `decimal` the number itself, `lines_of_64` the length of the text. Merkle/Shape, Merkle/Split,
-- Jcs/Numbers and Engine/Base64/Pem show that this is enough.
--
-- Tamper evidence rests on BLAKE3: a statement that a root or a commitment binds its contents ends
-- in an alternative: two different texts with one digest, each of which is hashed on one of the two
-- sides that the statement compares (Hash/Collision, Merkle/Inputs).
--
-- The walk up a chain of certificates is bounded by the code itself: `max_hops` is the number of turns
-- that it allows, and `walk_up` recurses on what is left of it.
--
-- Not modelled: the issuance of certificates (`certs.rs`), which is calls of rcgen; random keys and
-- salts, which are the system's; the printed report with its standing limits and the command line,
-- which are texts and arguments.
pub mod Common
pub mod Deps
pub mod Hash
pub mod Merkle
pub mod Json
pub mod Jcs
pub mod Record
pub mod Chain
pub mod Certs
pub mod Keys
pub mod Commitment
pub mod Revocation
pub mod Checkpoint
pub mod Bundle
pub mod Projection
pub mod Report
pub mod Tsa
pub mod Engine
mod Tests

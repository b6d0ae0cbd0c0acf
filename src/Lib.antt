-- ===== src/Lib.antt =====
-- Verification of three parts of the browser extension's Rust code that decide what the user is
-- shown and what the native wallet may do.
--
-- The MeshMine pool-statistics verifier (rust/crates/hns-meshmine-pool-stats/src/hrm.rs) admits a
-- document of two signed objects, a delegation and a snapshot, under an authority that a broker
-- vouches for. It keeps a replay state, commits that state before it releases a snapshot, and
-- releases it only while the broker's lease is held. The files under PoolStats model it:
--   Error, Literals      `HrmPoolStatsError`, the constants and hash domains
--   Bytes, Reader        integers as bytes, `Reader` with its error for each kind of object
--   Crypto               the hash, signature and key crates as a record of functions, and the
--                        helpers of hrm.rs that call them
--   Label, Cbor          `is_canonical_hns_label`, `named_service_resource_id`
--   Authority            `HrmPoolStatsRequest`, `CurrentHrmNamedService`
--   Document             `PoolStatsDocument`, with serde_json and hex as a record of functions
--   Endpoint, Snapshot   `EndpointDelegation::decode`, `PoolStatsSnapshot::decode`
--   Verify               the two `verify` methods
--   History              sorted lists with `binary_search_by_key` and `insert`; History.Latest
--                        reads such a list as a finite map
--   State                `HrmPoolStatsState`; State.Observe is `observe_authority`, State.Advance
--                        is `advance_endpoint` and `advance_snapshot`
--   Codec                `HrmPoolStatsState::encode` and `decode`
--   Admission            `verify_document`, `minimize`, `reconfirm_current`
--   Commit, Engine       `verify_hrm_and_commit`, `verify_engine_current_hrm_and_commit`
-- The modules below these hold the proofs, Sample and Runs the test data and the runs on it.
--
-- The native-messaging host (rust/crates/hns-chromium-native-host/src/lib.rs) speaks with the
-- extension in frames and keeps what the proxy observed of the active runtime:
--   NativeHost.Framing        `read_native_message`, `write_native_message`
--   NativeHost.Observations   the changes of `SecurityObservationState`
-- Of the dispatcher, the certificates and the installation in that crate nothing is modelled.
--
-- The wallet interface of that host (rust/crates/hns-chromium-native-host/src/wallet_abi.rs) admits a
-- signed wallet service and speaks with it over two pipes. The files under Wallet model it:
--   Text, Jcs                the grammars of names and digests, the canonical JSON writer
--   Manifest, Configuration  the manifest and its contract, the qualification tables
--   Metadata, Rejection      the tests on files, the codes of a rejection
--   RollbackState            `WalletAntiRollbackState`, its validity and checksum
--   AntiRollback             `commit_anti_rollback` and what it calls: the lock, the read, the decision,
--                            the temporary file and its rename, the check after the write
--   Capability, Lease        the capability sets, `WalletNamespaceLease::use_if_current`
--   Responses                what the service answers, and the validators
--   Controller               `WalletServiceController`: Negotiate is its hello, Reads its operations,
--                            Exchanges what a run of its steps that succeeded went through
--   Lifecycle                `WalletReadSessionLifecycle`, the slot of the one active session
-- A session is started with a generation from the slot, negotiates a controller, and every operation
-- goes through `service_request`; a controller that sees the protocol broken is poisoned.
--
-- How the code is read. A method on `&mut self` is an action on the state that returns the state
-- beside the result, on an error too (Prelude.Exec). Bytes and machine integers are native numbers;
-- where the width matters a theorem has it as a hypothesis (Codec.RoundTrip.IsTyped), and the
-- additions that may overflow are checked in the source and here. A hash is its bytes. The binary
-- search is read as a linear one, which agrees with it on the sorted lists it is called on. A
-- `String` is its bytes. The loops run over lists, counts and the events of a reader; only the
-- digits of a number are written on fuel, one more than the number. An `io::Error` of the wallet is
-- its kind, and the code of a failure that the service reports. A `BTreeSet` of capabilities is a
-- list without repetitions, whose order nothing reads. A guard of a lease is a tree of the calls it
-- makes, so a theorem on it covers every guard.
--
-- Parameters: `Crypto` and `Formats` for other crates, the `commit` closure, the engine's guard,
-- the caller's `Write`, and `serde_json::to_vec`; for the wallet `Encodings`, `Files`, `Transport`
-- and `HelloFormat`, with the laws of a directory under its lock in
-- AntiRollback.FileSystem.IsFileSystem, which tell the state file's name from every other. The reader of a frame is the list of what its reads meet.
-- The mutex around the observations is held by each call, so calls are steps in an order.
--
-- Not modelled: of the wallet the discovery, copying and launch of the artifact, the bootstrap and
-- the reads and writes under a deadline, which are I/O; the platform runtime, the browser setup,
-- and all that is not Rust.
pub mod Prelude
pub mod PoolStats
pub mod NativeHost
pub mod Wallet

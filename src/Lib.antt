-- ===== src/Lib.antt =====
-- Defing is a configuration centre: projects have branches, a branch has numbered versions of a map
-- group -> key -> value, and every change is a command of a replicated log that one state machine
-- applies. This library models that state machine, server/crates/dsh-core/src, and states what it
-- promises. Around it, it models the store on disk and what a node adds to the replication: the
-- install of a snapshot, the start of a node after it, and the reads of the log.
--
-- How the parts interact. A command (Commands, from command.rs) goes through `apply` to its
-- handler. A handler reads the store and the operations that it has itself collected (Machine), and
-- collects puts and deletes; `apply` writes them in one batch at the end, or drops them on an
-- error. Documents are encoded by serde_json. A branch's versions are stored whole or as diffs
-- (Version, Diff); its draft, its bindings to shared items and its gray release are in one state
-- document.
--
-- Which file models which part, with the functions of the source:
--   Prelude            bytes, Boolean tests, lists, i64 and decimal texts for all files
--   BTreeMap, Store    the sorted map and the store in memory (store.rs)
--   Model, Error       the entities (model.rs) and the kinds of error (error.rs)
--   Keys               the texts of the keys (keys.rs)
--   Machine            StateMachine: put_pending, get_merged, get_prefix_merged, flush_pending
--   Serde              load, load_merged and save_pending over an encoder
--   Diff, Version      compute_diff (diff.rs), apply_diff, snapshot_of, write_version_snapshot
--   Validator          the checks (validator.rs, limits.rs, and the name tests of state.rs)
--   Reads              the reads and lists that the handlers share
--   Publish            materialize_resolved, apply_publish, apply_rollback
--   Gray               rule_matches, resolve_version and the three gray commands
--   Config             get_config and get_config_resolved
--   Projects, Branches, Structures, Drafts, Shared, Sessions, Accounts, Tokens
--                      the handlers of that name in state.rs
--   Snapshots          dump_batches, chunk_pairs, restore_stream, restore_all
--   Retention          version_history, prune_versions, get_audit, prune_audit
--   Rewrap             rewrap_deks
--   Redb               RedbStorage over redb (server/crates/dsh-storage/src/lib.rs)
--   Raft/Io            a call of the disk, which passes, fails, or is where the node is cut off
--   Raft/Install       install_snapshot (server/crates/dsh-raft/src/store.rs)
--   Raft/Boot          new_with_rotation and recover_interrupted_restore, as main calls them
--   Raft/Log           read_entries, read_entries_limited and the key of an entry
--   Commands           Command, apply_inner, apply over the store in memory, the audit sequence
--   Commands/Over      apply and its flush over any store, whose batch may fail
--   Tests              small inputs at which the theorems are applied
-- A module below one of these states theorems about it: Diff/RoundTrip, Machine/View and Flush,
-- Model/Reread, Version/History, Write, Commit and Gap, Publish/Effect and Rollback, Gray/Rule,
-- Stable, Promote, Gap and Effect, Config/Published, Drafts/Lock, Structures/Lock,
-- Projects/Deletes, Accounts/Logout, Shared/Loss and Unbound, Commands/Atomic and Runs,
-- Snapshots/Pages and Restore, Retention/Prune, Sorted and Audit, Rewrap/Secrets, Redb/Refines and
-- Scans, Raft/Log/Key and Reads. Raft/Keeps has the rules for what a sequence of calls ensures
-- under any faults, Raft/Calm what the calls come to without one, and Raft/Safe the nodes that an
-- install and starts can leave. Version/Local is about what a read of one branch depends on.
--
-- How state corresponds. A `&mut self` method that may fail is an `Action`: it takes the machine
-- and returns a result and the machine, also with an error. A `&self` method is a function of the
-- machine. The store is a list of pairs in the order of its keys; a theorem that needs that order
-- assumes it.
--
-- The disk of a node (Raft) is a record of the values that it has in its tables and files, and a
-- schedule says of each call, in order, what happens to it. A call is a transaction or one
-- operation on a file: one that fails or is cut off has done nothing. A part file that is half
-- written is never read, and is not told apart from one that is not there.
--
-- Parameters. `Serde` has one encoder and one decoder for each kind of document, and the law that a
-- document is read back from its encoding, but for its floats: `reread_float` says which float is
-- read for one that is written, since the text of a finite float need not be read as the same one,
-- and one that is not finite is written as null and read as 0 (Model/Reread). Serde/Tagged is an
-- instance. `parse_addr` stands for `str::parse::<IpAddr>`. `Redb` has the calls of redb with what
-- it documents of a transaction; a commit that fails has done all or nothing. The closure of
-- `rewrap_deks` is an argument, with what it keeps of a secret. The check and the decoding of a
-- payload file, the decoding of an entry of the log and its length are arguments as well, and so is
-- the name of a new payload file, which the source makes of the process and of the clock.
--
-- Bounds. The loop of `snapshot_of` runs for the number of versions from its base to its target;
-- the consumer of `dump_batches` has fuel, and one call for each row and one are enough; the rounds
-- of `chunk_pairs` are as many as there are pairs, each of which takes one at least. Every other
-- loop is over a list. A u64 counter is a number without a bound, an i64 an integer without one;
-- the 32-bit hash and the bounds of `try_get_log_entries` have their wrap-around written out.
--
-- Not modelled: the locks of the store, reads of a store that fail inside a command, texts of
-- errors, the encodings themselves, the opening of the database and its backup, of the Raft layer
-- the writes of the log, the building of snapshots, the formats of a payload, the migration of an
-- old registry and the network, the HTTP and gRPC servers, encryption, jobs, watching and
-- rendering. The switches for tests in dsh-raft are left out.
pub mod Prelude
pub mod BTreeMap
pub mod Error
pub mod Model
pub mod Keys
pub mod Store
pub mod Machine
pub mod Diff
pub mod Serde
pub mod Version
pub mod Validator
pub mod Reads
pub mod Publish
pub mod Gray
pub mod Config
pub mod Sessions
pub mod Accounts
pub mod Tokens
pub mod Projects
pub mod Branches
pub mod Structures
pub mod Drafts
pub mod Shared
pub mod Snapshots
pub mod Retention
pub mod Rewrap
pub mod Redb
pub mod Raft
pub mod Commands
pub mod Tests

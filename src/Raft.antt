-- ===== src/Raft.antt =====
-- server/crates/dsh-raft: what the code adds to openraft, the store of its log and the store of the
-- state machine's snapshots.
pub mod Io
pub mod Keeps
pub mod Install
pub mod Boot
pub mod Log
pub mod Calm
pub mod Safe

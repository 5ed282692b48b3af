-- ===== src/Version.antt =====
-- server/crates/dsh-core/src/state.rs, the storage of versions: every hundredth version and the
-- first are stored whole, the others as a diff against the version before.
pub mod History
pub mod Write
pub mod Commit
pub mod Gap
pub mod Local
use defing.Prelude.{
  ℕ, zero, suc, ◌+◌, ◌-◌, ◌*◌, ◌/◌, ◌%◌, Bool, true, false, ◌||◌, List, [], Option, none, some,
  Bytes, ◌==◌, if◌then◌else◌,
}
use defing.Error.{Result, ok, err, not_found, and_then}
use defing.Keys.{snapshot_key, diff_key, version_key}
use defing.Model.{SnapshotMap, DiffEntry, VersionRecord, full, diff}
use defing.Diff.{compute_diff, apply_diff}
use defing.Serde.{Serde, Kind, Sm, load_merged, save_pending}

abbrev pub checkpoint_interval : ℕ
checkpoint_interval = 100

-- `v.is_multiple_of(CHECKPOINT_INTERVAL)`
abbrev pub is_multiple : ℕ → Bool
is_multiple v = v % checkpoint_interval == 0

-- The version from which `snapshot_of` starts to read.
unfoldable pub chain_start : ℕ → ℕ
chain_start version =
    if is_multiple version
    then version
    else let base = ((version - 1) / checkpoint_interval) * checkpoint_interval in
      if base == 0 then 1 else base

abbrev pub or_not_found {ℓ} : {A : Type ℓ} → Option A → Result A
or_not_found none = err not_found
or_not_found (some a) = ok a

module _ (S : Serde) (id branch : Bytes) where
  -- a snapshot that must be there
  unfoldable pub read_snapshot : ℕ → Sm S → Result SnapshotMap
  read_snapshot v m =
      and_then (load_merged S Kind.snapshot (snapshot_key id branch v) m) or_not_found

  -- The loop of `snapshot_of`: `rounds` versions from `v` on. A missing diff ends it with the
  -- snapshot of that version.
  unfoldable pub replay : ℕ → ℕ → SnapshotMap → Sm S → Result SnapshotMap
  unfolding read_snapshot
  replay zero v snap m = ok snap
  replay (suc rounds) v snap m = elim (is_multiple v) [
    | true ↦ and_then (read_snapshot v m) (λ whole. replay rounds (suc v) whole m)
    | false ↦
        and_then (load_merged S Kind.diff (diff_key id branch v) m)
          (elim [ none ↦ read_snapshot v m | some d ↦ replay rounds (suc v) (apply_diff d snap) m ])
  ]

  -- the reads behind the base, which may be missing
  unfoldable pub replay_from : ℕ → ℕ → Sm S → Option SnapshotMap → Result SnapshotMap
  unfolding replay
  replay_from start version m none = read_snapshot version m
  replay_from start version m (some snap) = replay (version - start) (suc start) snap m

  -- `snapshot_of`
  unfoldable pub snapshot_of : ℕ → Sm S → Result SnapshotMap
  unfolding replay_from chain_start
  snapshot_of version m =
      if version == 0
      then err not_found
      else and_then (load_merged S Kind.snapshot (snapshot_key id branch (chain_start version)) m)
          (replay_from (chain_start version) version m)

  -- `write_version_snapshot`
  unfoldable pub write_version_snapshot :
      ℕ → SnapshotMap → SnapshotMap → VersionRecord → Sm S → Sm S
  write_version_snapshot vno old new rec m =
      if (vno == 1) || is_multiple vno
      then save_pending S Kind.version (version_key id branch vno) (record rec { kind = full })
          (save_pending S Kind.snapshot (snapshot_key id branch vno) new m)
      else save_pending S Kind.version (version_key id branch vno) (record rec { kind = diff })
          (save_pending S Kind.diff (diff_key id branch vno) (compute_diff old new) m)

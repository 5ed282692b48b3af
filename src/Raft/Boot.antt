-- ===== src/Raft/Boot.antt =====
-- server/crates/dsh-raft/src/store.rs, the start of a node: the sweep of the directory of the
-- snapshots, and what is done about an install of a snapshot that was interrupted.
pub mod Sweep
use defing.Prelude.{
  Bool, true, false, List, [], ◌∷◌, ◌++◌, Option, none, some, Bytes, bytes_eq, codes, ltb,
  if◌then◌else◌, not, ◌&&◌, ◌||◌, starts_with, ends_with,
}
use defing.BTreeMap.{BTreeMap, get, contains_key}
use defing.Error.{Result, ok, err, storage, and_then}
use defing.Raft.Io.{Io, pure, throw, gets, puts, sets, handle, ◌>>=◌, ◌>>◌, attempt}
use defing.Raft.Install.{
  LogId, SnapshotMeta, RestoreBegin, Node, opened, remove_file, delete_old_snapshot_file, poison,
  restore_and_persist_inner, clear_marker,
}

-- the paths that a sweep keeps: of the registry, and of the marker, if it can be read
abbrev pub keep_set :
    {M : Type 0}
    → Option (SnapshotMeta M × Bytes)
    → Option (Result (RestoreBegin M))
    → Result (List Bytes)
keep_set none none = ok []
keep_set (some (meta, path)) none = ok (path ∷ [])
keep_set none (some (ok marker)) = ok (marker.payload ∷ [])
keep_set (some (meta, path)) (some (ok marker)) = ok (path ∷ marker.payload ∷ [])
keep_set registry (some (err e)) = err storage

unfoldable pub contains : List Bytes → Bytes → Bool
contains [] p = false
contains (q ∷ qs) p = bytes_eq q p || contains qs p

-- the two tests of the sweep on a name
unfoldable pub is_residue : List Bytes → Bytes → Bool
is_residue keep p =
    ends_with p (codes ".part") || (ends_with p (codes ".snap") && not (contains keep p))

abbrev pub older_than : Option LogId → Option LogId → Bool
older_than (some marker_id) (some applied_id) = ltb marker_id.index applied_id.index
older_than (some marker_id) none = false
older_than none applied = false

-- the names in a directory
unfoldable pub read_dir : {F : Type 0} → Bytes → BTreeMap F → List Bytes
read_dir dir [] = []
read_dir dir ((p, f) ∷ files) =
    let rest = read_dir dir files in if starts_with p (dir ++ codes "/") then p ∷ rest else rest

module _ {R F M : Type 0} where
  -- The loop of `sweep_snapshot_payloads` over the names of the directory.
  unfoldable pub sweep_files : List Bytes → List Bytes → Io (Node R F M) Unit
  sweep_files keep [] = pure tt
  sweep_files keep (p ∷ ps) =
      let rest = sweep_files keep ps in
      handle (gets (λ n. ok tt))
        (λ u. (if is_residue keep p then attempt (puts (remove_file p)) else pure tt) >> rest)
        (λ e. pure tt)

  -- `sweep_snapshot_payloads`
  unfoldable pub sweep_snapshot_payloads : Bytes → Io (Node R F M) Unit
  unfolding sweep_files read_dir
  sweep_snapshot_payloads dir = gets (λ n. keep_set n.registry n.restore_begin) >>= λ keep.
      gets (λ n. ok (read_dir dir n.files)) >>= sweep_files keep

  -- `reset_registry_if_file_missing`
  abbrev pub file_missing : Node R F M → Option (SnapshotMeta M × Bytes) → Bool
  file_missing n none = false
  file_missing n (some (meta, path)) = not (contains_key path n.files)

  unfoldable pub reset_registry_if_file_missing : Io (Node R F M) Unit
  reset_registry_if_file_missing = gets (λ n. ok (file_missing n n.registry)) >>= λ missing.
      if missing then puts (λ n. record n { registry = none }) else pure tt

  -- `new_with_rotation`, on the memory of a process that starts
  unfoldable pub new_with_rotation : Bytes → Bool → Io (Node R F M) Unit
  unfolding sweep_snapshot_payloads reset_registry_if_file_missing
  new_with_rotation dir restore_marker =
      attempt (sweep_snapshot_payloads dir)
      >> (attempt reset_registry_if_file_missing
          >> (sets (λ n. record n {
            poisoned = false;
            current_snapshot = none;
            restore_marker = restore_marker;
          })
              >> handle (gets (λ n. ok n.restore_poison))
                  (λ raw. if raw then sets (λ n. record n { poisoned = true }) else pure tt)
                  (λ e. pure tt)))

  module _ (read_payload_batches : F → Result (List (Result (BTreeMap R)))) where
    -- `recover_interrupted_restore_with` on a marker that must be replayed
    unfoldable pub replay_restore :
        Bytes → RestoreBegin M → Io (Node R F M) (Option (SnapshotMeta M))
    unfolding restore_and_persist_inner delete_old_snapshot_file sweep_snapshot_payloads
    replay_restore dir marker =
        gets (λ n. and_then (opened (get marker.payload n.files)) read_payload_batches)
        >>= λ batches. restore_and_persist_inner marker.meta batches marker.payload >>= λ old.
            delete_old_snapshot_file old marker.payload
            >> (puts clear_marker
                >> (sets (λ n. record n { poisoned = false })
                    >> (attempt (sweep_snapshot_payloads dir) >> pure (some marker.meta))))

    unfoldable pub recover_from :
        Bytes → Bool → Option (Result (RestoreBegin M)) → Io (Node R F M) (Option (SnapshotMeta M))
    unfolding replay_restore poison
    recover_from dir force_ignore none = pure none
    recover_from dir force_ignore (some (err e)) = throw storage
    recover_from dir force_ignore (some (ok marker)) = gets (λ n. ok n.last_applied) >>= λ applied.
        if older_than marker.meta.last_log_id applied
        then puts (λ n. record n { restore_begin = none }) >> pure none
        else if force_ignore
        then poison >> pure none
        else replay_restore dir marker

    -- `recover_interrupted_restore_with`
    unfoldable pub recover_interrupted_restore_with :
        Bytes → Bool → Io (Node R F M) (Option (SnapshotMeta M))
    unfolding recover_from
    recover_interrupted_restore_with dir force_ignore =
        gets (λ n. ok n.restore_begin) >>= recover_from dir force_ignore

    -- the start of a node
    unfoldable pub boot : Bytes → Bool → Bool → Io (Node R F M) (Option (SnapshotMeta M))
    unfolding new_with_rotation recover_interrupted_restore_with
    boot dir restore_marker force_ignore =
        new_with_rotation dir restore_marker >> recover_interrupted_restore_with dir force_ignore

-- ===== src/Raft/Install.antt =====
-- server/crates/dsh-raft/src/store.rs, the install of a snapshot that a leader sent, and what a
-- node does at its start about an install that was interrupted. Values that serde writes are kept
-- as they are; the restore marker alone may also be unreadable. Paths are spelled in one way, so
-- `fs::canonicalize` is the identity. `R` is the type of stored values, `F` of the contents of a
-- file and `M` of a membership.
pub mod Copy
pub mod Restore
use defing.Prelude.{
  ℕ, Bool, true, false, List, [], ◌∷◌, ◌++◌, Option, none, some, Bytes, bytes_eq, codes,
  if◌then◌else◌,
}
use mathlib.Core.Option
use defing.BTreeMap.{BTreeMap, get, insert, remove}
use defing.Error.{Result, ok, err, storage, and_then}
use defing.Store.{write_batch, get_prefix_keys}
use defing.Raft.Io.{Io, pure, throw, gets, asks, puts, sets, handle, ◌>>=◌, ◌>>◌, attempt}

-- `LogIdOf`
pub record LogId : Type 0 where
  pub term : ℕ
  pub node_id : ℕ
  pub index : ℕ

-- `SnapshotMetaOf`
pub record SnapshotMeta (M : Type 0) : Type 0 where
  pub last_log_id : Option LogId
  pub last_membership : M

-- `RestoreBegin`
pub record RestoreBegin (M : Type 0) : Type 0 where
  pub meta : SnapshotMeta M
  pub payload : Bytes

-- What a node has on its disk, and of `StateMachineStore` the fields `poisoned`, `current_snapshot`
-- and `restore_marker`, which it has in memory.
pub record Node (R F M : Type 0) : Type 0 where
  pub store : BTreeMap R
  pub last_applied : Option LogId
  pub membership : M
  pub restore_begin : Option (Result (RestoreBegin M))
  pub restore_poison : Bool
  pub registry : Option (SnapshotMeta M × Bytes)
  pub files : BTreeMap F
  pub poisoned : Bool
  pub current_snapshot : Option (SnapshotMeta M × Bytes)
  pub restore_marker : Bool

-- what an open of a path finds
abbrev pub opened : {F : Type 0} → Option F → Result F
opened (some f) = ok f
opened none = err storage

module _ {R F M : Type 0} where
  -- `fs::remove_file`
  abbrev pub remove_file : Bytes → Node R F M → Node R F M
  remove_file path n = record n { files = remove path n.files }

  -- `copy_payload_file` from the copy on
  unfoldable pub copy_to_part : Bytes → Bytes → Io (Node R F M) Unit
  copy_to_part part src =
      handle
        (gets (λ n. opened (get src n.files)) >>= λ f.
          puts (λ n. record n { files = insert part f n.files }))
        pure (λ e. attempt (puts (remove_file part)) >> throw storage)

  unfoldable pub rename_part : Bytes → Bytes → Io (Node R F M) Bytes
  rename_part part path =
      handle
        (gets (λ n. opened (get part n.files)) >>= λ f.
          puts (λ n. record n { files = insert path f (remove part n.files) }))
        (λ u. gets (λ n. ok path)) (λ e. attempt (puts (remove_file part)) >> throw storage)

  -- `copy_payload_file`
  unfoldable pub copy_payload_file : Bytes → Bytes → Bytes → Io (Node R F M) Bytes
  unfolding copy_to_part rename_part
  copy_payload_file dir name src =
      let path = dir ++ codes "/" ++ name in
      let part = path ++ codes ".part" in
      attempt (puts (remove_file part))
      >> (copy_to_part part src
          >> (gets (λ n. opened (get part n.files)) >>= λ f. rename_part part path))

  -- `persist_snapshot_registry`
  unfoldable pub persist_snapshot_registry : SnapshotMeta M → Bytes → Io (Node R F M) (Option Bytes)
  persist_snapshot_registry meta path = gets (λ n. ok (Option.map (λ r. r.1) n.registry)) >>= λ old.
      puts (λ n. record n { registry = some (meta, path) }) >> pure old

  -- `delete_old_snapshot_file`, under the test that it is another file
  unfoldable pub delete_old_snapshot_file : Option Bytes → Bytes → Io (Node R F M) Unit
  delete_old_snapshot_file none path = pure tt
  delete_old_snapshot_file (some old) path =
      if bytes_eq old path then pure tt else attempt (puts (remove_file old))

  -- `poison`
  unfoldable pub poison : Io (Node R F M) Unit
  poison =
      sets (λ n. record n { poisoned = true })
      >> attempt (puts (λ n. record n { restore_poison = true }))

  -- `put_last_applied`, and the `meta_del` of an initial snapshot
  unfoldable pub put_last_applied : Option LogId → Io (Node R F M) Unit
  put_last_applied id = puts (λ n. record n { last_applied = id })

  -- `put_membership`
  unfoldable pub put_membership : M → Io (Node R F M) Unit
  put_membership membership = puts (λ n. record n { membership = membership })

  -- one transaction of `restore_stream`
  abbrev pub write_pairs : BTreeMap R → Node R F M → Node R F M
  write_pairs batch n = record n { store = write_batch batch [] n.store }

  abbrev pub replace_pairs : BTreeMap R → Node R F M → Node R F M
  replace_pairs batch n = record n {
    store = write_batch batch (get_prefix_keys n.store []) n.store;
  }

  -- `StateMachine::restore_stream`, a call of the disk for each batch
  unfoldable pub restore_rest : List (Result (BTreeMap R)) → Io (Node R F M) Unit
  restore_rest [] = pure tt
  restore_rest (err e ∷ batches) = throw e
  restore_rest (ok [] ∷ batches) = restore_rest batches
  restore_rest (ok (kv ∷ batch) ∷ batches) = puts (write_pairs (kv ∷ batch)) >> restore_rest batches

  unfoldable pub restore_stream : List (Result (BTreeMap R)) → Io (Node R F M) Unit
  unfolding restore_rest
  restore_stream [] = puts (replace_pairs [])
  restore_stream (err e ∷ batches) = throw e
  restore_stream (ok batch ∷ batches) = puts (replace_pairs batch) >> restore_rest batches

  -- `restore_and_persist_inner`
  unfoldable pub restore_and_persist_inner :
      SnapshotMeta M → List (Result (BTreeMap R)) → Bytes → Io (Node R F M) (Option Bytes)
  unfolding restore_stream put_last_applied put_membership persist_snapshot_registry
  restore_and_persist_inner meta batches path =
      restore_stream batches
      >> (put_last_applied meta.last_log_id
          >> (put_membership meta.last_membership >> persist_snapshot_registry meta path))

  -- `meta_del_many` of the poison and of the marker: one transaction
  abbrev pub clear_marker : Node R F M → Node R F M
  clear_marker n = record n { restore_poison = false; restore_begin = none }

  -- the marker of `install_snapshot`
  unfoldable pub put_marker : Bool → RestoreBegin M → Io (Node R F M) Unit
  put_marker true marker = puts (λ n. record n { restore_begin = some (ok marker) })
  put_marker false marker = pure tt

  -- `install_snapshot` on the canonical copy
  unfoldable pub install_payload :
      SnapshotMeta M → Bytes → List (Result (BTreeMap R)) → Io (Node R F M) Unit
  unfolding restore_and_persist_inner delete_old_snapshot_file poison put_marker
  install_payload meta path batches = asks (λ n. n.restore_marker) >>= λ marks.
      put_marker marks (record { meta = meta; payload = path })
      >> handle (restore_and_persist_inner meta batches path)
          (λ old.
            delete_old_snapshot_file old path
            >> handle (puts clear_marker)
                (λ u.
                  sets (λ n. record n { poisoned = false; current_snapshot = some (meta, path) }))
                (λ e. poison >> throw e))
          (λ e. poison >> throw e)

  module _ (read_payload_batches : F → Result (List (Result (BTreeMap R)))) where
    -- `install_snapshot`; `dir` and `name` are the directory and the new name that
    -- `snap_file_name` makes of the process and of the clock
    unfoldable pub install_snapshot :
        (F → Result (Unit {0})) → Bytes → Bytes → SnapshotMeta M → Bytes → Io (Node R F M) Unit
    unfolding copy_payload_file install_payload
    install_snapshot verify_payload_file dir name meta src =
        gets (λ n. and_then (opened (get src n.files)) verify_payload_file)
        >> (copy_payload_file dir name src >>= λ path.
            gets (λ n. and_then (opened (get path n.files)) read_payload_batches)
            >>= install_payload meta path)

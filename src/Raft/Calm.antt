-- ===== src/Raft/Calm.antt =====
-- The calls of an install and of a start when nothing fails: what each comes to.
use defing.Prelude.{
  List, [], ◌∷◌, Option, none, some, ◌≡◌, refl, sym, ap, ◌∙◌, Bool, true, false, Bool-cases, inl,
  inr, Bytes, bytes_eq, map, if◌then◌else◌,
}
use mathlib.Core.Option
use defing.BTreeMap.{BTreeMap, remove}
use defing.BTreeMap.Order.{IsSorted}
use defing.Error.{Result, ok, err}
use defing.Store.{get_prefix_keys, write_batch, insert_all, remove_all}
use defing.Snapshots.{concat}
use defing.Snapshots.Restore.{
  insert_all-append, insert_all-write_batch, write_batch-all, concat-nil,
}
use defing.Raft.Io.{
  Outcome, done, Io, pure, throw, gets, puts, sets, follow, handle, ◌>>=◌, ◌>>◌, attempt,
}
use defing.Raft.Install.{
  SnapshotMeta, Node, remove_file, delete_old_snapshot_file, restore_rest, restore_stream,
  restore_and_persist_inner, put_last_applied, put_membership, persist_snapshot_registry,
}
use defing.Raft.Boot.{
  keep_set, is_residue, read_dir, sweep_files, sweep_snapshot_payloads, file_missing,
  reset_registry_if_file_missing, new_with_rotation,
}

-- a call behind one that has a result
pub bind-calm :
    {N A B : Type 0} (m : Io N A) (k : A → Io N B) (n : N) {n' : N} {a : A} {o : Outcome N B}
    → m [] n ≡ done (ok a) n' []
    → k a [] n' ≡ o
    → (m >>= k) [] n ≡ o
bind-calm m k n h h' = ap (λ x. follow x k throw) h ∙ h'

module _ {R F M : Type 0} where
  restore_rest-calm :
      (pages : List (BTreeMap R)) (n : Node R F M)
      → restore_rest (map ok pages) [] n
        ≡ done (ok tt) (record n { store = insert_all (concat pages) n.store }) []
  unfolding restore_rest concat insert_all write_batch remove_all puts
  restore_rest-calm [] n = refl
  restore_rest-calm ([] ∷ pages) n = restore_rest-calm pages n
  restore_rest-calm ((kv ∷ page) ∷ pages) n =
      restore_rest-calm pages (record n { store = insert_all (kv ∷ page) n.store })
      ∙ ap (λ z. done (ok tt) (record n { store = z }) [])
          (sym (insert_all-append (kv ∷ page) (concat pages) n.store))

  restore_stream-calm :
      (pages : List (BTreeMap R)) (n : Node R F M)
      → IsSorted n.store
      → IsSorted (concat pages)
      → restore_stream (map ok pages) [] n ≡ done (ok tt) (record n { store = concat pages }) []
  unfolding restore_stream puts
  restore_stream-calm [] n h s =
      ap (λ z. done (ok tt) (record n { store = z }) [])
        (write_batch-all n.store h ∙ sym concat-nil)
  restore_stream-calm (page ∷ pages) n h s =
      restore_rest-calm pages
        (record n { store = write_batch page (get_prefix_keys n.store []) n.store })
      ∙ ap (λ z. done (ok tt) (record n { store = z }) [])
          (insert_all-write_batch n.store page pages h s)

  pub restore_and_persist_inner-calm :
      (meta : SnapshotMeta M) (pages : List (BTreeMap R)) (path : Bytes) (n : Node R F M)
      → IsSorted n.store
      → IsSorted (concat pages)
      → restore_and_persist_inner meta (map ok pages) path [] n
        ≡ done
            (ok (Option.map (λ r. r.1) n.registry))
            (record n {
              store = concat pages;
              last_applied = meta.last_log_id;
              membership = meta.last_membership;
              registry = some (meta, path);
            })
            []
  unfolding restore_and_persist_inner put_last_applied put_membership persist_snapshot_registry gets
      puts
  restore_and_persist_inner-calm meta pages path n h s = rw (restore_stream-calm pages n h s) refl

  -- A call that changes the files at most.
  abbrev pub Files : Io (Node R F M) (Unit {0}) → Node R F M → Type 0
  Files m n = (files : BTreeMap F) × (m [] n ≡ done (ok tt) (record n { files = files }) [])

  pub delete_old_snapshot_file-calm :
      (old : Option Bytes) (path : Bytes) (n : Node R F M)
      → Files (delete_old_snapshot_file old path) n
  unfolding delete_old_snapshot_file puts
  delete_old_snapshot_file-calm none path n = (n.files, refl)
  delete_old_snapshot_file-calm (some old) path n = elim (Bool-cases (bytes_eq old path)) [
    | inl same ↦ (n.files, rw same refl)
    | inr other ↦ (remove old n.files, rw other refl)
  ]

  sweep_files-calm : (keep ps : List Bytes) (n : Node R F M) → Files (sweep_files keep ps) n
  unfolding sweep_files gets puts
  sweep_files-calm keep [] n = (n.files, refl)
  sweep_files-calm keep (p ∷ ps) n = elim (Bool-cases (is_residue keep p)) [
    | inl removes ↦
        (let rest = sweep_files-calm keep ps (remove_file p n) in (rest.0, rw removes rest.1))
    | inr keeps ↦ (let rest = sweep_files-calm keep ps n in (rest.0, rw keeps rest.1))
  ]

  pub sweep_snapshot_payloads-calm :
      (dir : Bytes) (n : Node R F M) → Files (attempt (sweep_snapshot_payloads dir)) n
  unfolding sweep_snapshot_payloads gets
  sweep_snapshot_payloads-calm dir n = by_keep (keep_set n.registry n.restore_begin)
    where
      k : List Bytes → Io (Node R F M) (Unit {0})
      k keep = gets (λ m. ok (read_dir dir m.files)) >>= sweep_files keep

      by_keep :
          (r : Result (List Bytes))
          → (files : BTreeMap F) × (follow
                (follow (done r n []) k throw)
                (λ u. pure tt)
                (λ e. pure tt)
              ≡ done (ok tt) (record n { files = files }) [])
      by_keep (ok keep) =
          let swept = sweep_files-calm keep (read_dir dir n.files) n in
          (swept.0, ap (λ o. follow o (λ u. pure tt) (λ e. pure tt)) swept.1)
      by_keep (err e) = (n.files, refl)

  reset-calm :
      (n : Node R F M)
      → (registry : Option (SnapshotMeta M × Bytes)) × (attempt reset_registry_if_file_missing [] n
          ≡ done (ok tt) (record n { registry = registry }) [])
  unfolding reset_registry_if_file_missing gets puts
  reset-calm n = elim (Bool-cases (file_missing n n.registry)) [
    | inl missing ↦ (none, rw missing refl)
    | inr there ↦ (n.registry, rw there refl)
  ]

  flag-calm :
      (raw : Bool) (n : Node R F M)
      → n.poisoned ≡ false
      → (if raw then sets (λ m. record m { poisoned = true }) else pure tt) [] n
        ≡ done (ok tt) (record n { poisoned = raw }) []
  flag-calm true n h = refl
  flag-calm false n h = ap (λ b. done (ok tt) (record n { poisoned = b }) []) h

  pub new_with_rotation-calm :
      (dir : Bytes) (marks : Bool) (n : Node R F M)
      → (files : BTreeMap F) × (registry : Option (SnapshotMeta M × Bytes)) × (new_with_rotation dir
            marks [] n
          ≡ done
              (ok tt)
              (record n {
                files = files;
                registry = registry;
                poisoned = n.restore_poison;
                current_snapshot = none;
                restore_marker = marks;
              })
              [])
  unfolding new_with_rotation gets
  new_with_rotation-calm dir marks n =
      let swept = sweep_snapshot_payloads-calm dir n in
      let reset = reset-calm (record n { files = swept.0 }) in
      let fresh : Io (Node R F M) (Unit {0}) =
        sets
          (λ m. record m { poisoned = false; current_snapshot = none; restore_marker = marks }) in
      let flag : Io (Node R F M) (Unit {0}) =
        handle (gets (λ m. ok m.restore_poison))
          (λ raw. if raw then sets (λ m. record m { poisoned = true }) else pure tt)
          (λ e. pure tt) in
      (
        swept.0,
        reset.0,
        bind-calm (attempt (sweep_snapshot_payloads dir))
            (λ u. attempt reset_registry_if_file_missing >> (fresh >> flag)) n swept.1
            (bind-calm (attempt reset_registry_if_file_missing) (λ u. fresh >> flag)
              (record n { files = swept.0 }) reset.1
              (flag-calm n.restore_poison
                (record n {
                  files = swept.0;
                  registry = reset.0;
                  poisoned = false;
                  current_snapshot = none;
                  restore_marker = marks;
                })
                refl)),
      )

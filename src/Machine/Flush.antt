-- ===== src/Machine/Flush.antt =====
-- The write at a command's end against what the command read: `flush_pending` over `write_batch`.
use defing.Prelude.{
  Bool, true, false, List, [], ◌∷◌, ◌++◌, Option, none, some, ◌≡◌, refl, ap, sym, ◌∙◌, append_assoc,
  arith, Bytes, bytes_eq, bytes_eq_iff, bytes_eq_refl, if◌then◌else◌, Bool-cases, inl, inr,
}
use defing.BTreeMap
use defing.BTreeMap.{BTreeMap, get-insert, get-remove}
use defing.BTreeMap.Order.{IsSorted, insert-IsSorted, remove-IsSorted}
use defing.Store.{write_batch, remove_all, insert_all}
use defing.Machine.{
  PendingOp, put, delete, Machine, put_pending, delete_pending, get_merged, puts_of, deletes_of,
  flush_pending,
}
use defing.Machine.View.{apply_ops, last_op-apply_ops, get_merged-delete_pending}

module _ {R : Type 0} where
  unfoldable pub is_deleted : Bytes → List (PendingOp R) → Bool
  is_deleted key [] = false
  is_deleted key (put k v ∷ ops) = is_deleted key ops
  is_deleted key (delete k ∷ ops) = if bytes_eq k key then true else is_deleted key ops

  -- No key is deleted after it was put.
  abbrev pub NoPutThenDelete : List (PendingOp R) → Type 0
  NoPutThenDelete [] = Unit
  NoPutThenDelete (put k v ∷ ops) = (is_deleted k ops ≡ false) × NoPutThenDelete ops
  NoPutThenDelete (delete k ∷ ops) = NoPutThenDelete ops

  -- what the two loops of a batch do to one key
  removed : List Bytes → Bytes → Option R → Option R
  removed [] key found = found
  removed (k ∷ ks) key found = removed ks key (if bytes_eq k key then none else found)

  inserted : List (Bytes × R) → Bytes → Option R → Option R
  inserted [] key found = found
  inserted ((k, v) ∷ kvs) key found = inserted kvs key (if bytes_eq k key then some v else found)

  get-remove_all :
      (key : Bytes) (ks : List Bytes) (s : BTreeMap R)
      → BTreeMap.get key (remove_all ks s) ≡ removed ks key (BTreeMap.get key s)
  unfolding remove_all removed
  get-remove_all key [] s = refl
  get-remove_all key (k ∷ ks) s =
      get-remove_all key ks (BTreeMap.remove k s) ∙ ap (removed ks key) (get-remove k key s)

  get-insert_all :
      (key : Bytes) (kvs : List (Bytes × R)) (s : BTreeMap R)
      → BTreeMap.get key (insert_all kvs s) ≡ inserted kvs key (BTreeMap.get key s)
  unfolding insert_all inserted
  get-insert_all key [] s = refl
  get-insert_all key ((k, v) ∷ kvs) s =
      get-insert_all key kvs (BTreeMap.insert k v s) ∙ ap (inserted kvs key) (get-insert k key v s)

  get-write_batch :
      (key : Bytes) (puts : List (Bytes × R)) (deletes : List Bytes) (s : BTreeMap R)
      → BTreeMap.get key (write_batch puts deletes s)
        ≡ inserted puts key (removed deletes key (BTreeMap.get key s))
  unfolding write_batch
  get-write_batch key puts deletes s =
      get-insert_all key puts (remove_all deletes s)
      ∙ ap (inserted puts key) (get-remove_all key deletes s)

  removed-none_of :
      (key : Bytes) (ops : List (PendingOp R)) (found : Option R)
      → is_deleted key ops ≡ false
      → removed (deletes_of ops) key found ≡ found
  unfolding removed deletes_of is_deleted
  removed-none_of key [] found h = refl
  removed-none_of key (put k v ∷ ops) found h = removed-none_of key ops found h
  removed-none_of key (delete k ∷ ops) found h = ground (arith, removed-none_of key ops found)

  batch-apply_ops :
      (key : Bytes) (ops : List (PendingOp R)) (found : Option R)
      → NoPutThenDelete ops
      → inserted (puts_of ops) key (removed (deletes_of ops) key found) ≡ apply_ops ops key found
  unfolding inserted removed puts_of deletes_of
  batch-apply_ops key [] found h = refl
  batch-apply_ops key (put k v ∷ ops) found (fresh, h) = elim (Bool-cases (bytes_eq k key)) [
    | inl same ↦ ground (
      arith,
      same,
      (bytes_eq_iff k key).0 same,
      removed-none_of key ops (some v),
      batch-apply_ops key ops (some v) h,
    )
    | inr other ↦ ground (arith, other, batch-apply_ops key ops found h)
  ]
  batch-apply_ops key (delete k ∷ ops) found h =
      batch-apply_ops key ops (if bytes_eq k key then none else found) h

  -- After the flush the store has, for every key, what the command would have read last, provided
  -- that no key was deleted after it was put.
  pub get-flush_pending :
      (key : Bytes) (m : Machine R)
      → NoPutThenDelete m.pending_ops
      → BTreeMap.get key (flush_pending m).store ≡ get_merged key m
  unfolding flush_pending get_merged
  get-flush_pending key m h =
      get-write_batch key (puts_of m.pending_ops) (deletes_of m.pending_ops) m.store
      ∙ batch-apply_ops key m.pending_ops (BTreeMap.get key m.store) h
      ∙ sym (last_op-apply_ops key m.pending_ops (BTreeMap.get key m.store))

  inserted-put :
      (k : Bytes) (v : R) (ops : List (PendingOp R)) (found : Option R)
      → inserted (puts_of (ops ++ put k v ∷ delete k ∷ [])) k found ≡ some v
  unfolding inserted puts_of
  inserted-put k v [] found = rw bytes_eq_refl
  inserted-put k v (put j w ∷ ops) found =
      inserted-put k v ops (if bytes_eq j k then some w else found)
  inserted-put k v (delete j ∷ ops) found = inserted-put k v ops found

  -- A command that puts a key and then deletes it reads it as missing, and its flush leaves the put
  -- value in the store, whatever was pending before: the batch does all deletes before all puts.
  pub flush_pending-put_delete :
      (k : Bytes) (v : R) (m : Machine R)
      → (get_merged k (delete_pending k (put_pending k v m)) ≡ none)
        × (BTreeMap.get k (flush_pending (delete_pending k (put_pending k v m))).store ≡ some v)
  unfolding flush_pending delete_pending put_pending
  flush_pending-put_delete k v m = (
    unfold delete_pending put_pending in
        (get_merged-delete_pending k k (put_pending k v m) ∙ rw bytes_eq_refl refl),
    get-write_batch k (puts_of ops) (deletes_of ops) m.store
        ∙ ap (λ o. inserted (puts_of o) k (removed (deletes_of ops) k (BTreeMap.get k m.store)))
            (append_assoc m.pending_ops (put k v ∷ []) (delete k ∷ []))
        ∙ inserted-put k v m.pending_ops (removed (deletes_of ops) k (BTreeMap.get k m.store)),
  )
    where
      ops : List (PendingOp R)
      ops = (m.pending_ops ++ put k v ∷ []) ++ delete k ∷ []

  remove_all-IsSorted : (ks : List Bytes) (s : BTreeMap R) → IsSorted s → IsSorted (remove_all ks s)
  unfolding remove_all
  remove_all-IsSorted [] s h = h
  remove_all-IsSorted (k ∷ ks) s h =
      remove_all-IsSorted ks (BTreeMap.remove k s) (remove-IsSorted k s h)

  insert_all-IsSorted :
      (kvs : List (Bytes × R)) (s : BTreeMap R) → IsSorted s → IsSorted (insert_all kvs s)
  unfolding insert_all
  insert_all-IsSorted [] s h = h
  insert_all-IsSorted ((k, v) ∷ kvs) s h =
      insert_all-IsSorted kvs (BTreeMap.insert k v s) (insert-IsSorted k v s h)

  -- A batch over a sorted store leaves it sorted.
  pub write_batch-IsSorted :
      (puts : List (Bytes × R)) (deletes : List Bytes) (s : BTreeMap R)
      → IsSorted s
      → IsSorted (write_batch puts deletes s)
  unfolding write_batch
  write_batch-IsSorted puts deletes s h =
      insert_all-IsSorted puts (remove_all deletes s) (remove_all-IsSorted deletes s h)

-- ===== src/Machine/View.antt =====
-- What a command reads while it writes: the reads of one key, and of a prefix.
use mathlib.Core.List.{reverse, reverse-append}
use defing.Prelude.{
  List, [], ◌∷◌, ◌++◌, Option, none, some, ◌≡◌, refl, arith, Bytes, bytes_eq, bytes_eq_iff,
  starts_with, if◌then◌else◌,
}
use defing.BTreeMap
use defing.BTreeMap.{BTreeMap, get-insert, get-remove}
use defing.BTreeMap.Order.{IsSorted}
use defing.Store.Prefix.{get-get_prefix}
use defing.Machine.{
  PendingOp, put, delete, Machine, put_pending, delete_pending, last_op, or_store, get_merged,
  merge_ops, get_prefix_merged,
}

module _ {R : Type 0} where
  -- A command reads what it has written.
  pub get_merged-put_pending :
      (k j : Bytes) (v : R) (m : Machine R)
      → get_merged j (put_pending k v m) ≡ (if bytes_eq k j then some v else get_merged j m)
  unfolding get_merged put_pending last_op
  get_merged-put_pending k j v m = rw reverse-append (ground arith)

  pub get_merged-delete_pending :
      (k j : Bytes) (m : Machine R)
      → get_merged j (delete_pending k m) ≡ (if bytes_eq k j then none else get_merged j m)
  unfolding get_merged delete_pending last_op
  get_merged-delete_pending k j m = rw reverse-append (ground arith)

  -- one operation, as a change of what a read finds
  abbrev pub apply_op : PendingOp R → Bytes → Option R → Option R
  apply_op (put k v) key found = if bytes_eq k key then some v else found
  apply_op (delete k) key found = if bytes_eq k key then none else found

  abbrev pub apply_ops : List (PendingOp R) → Bytes → Option R → Option R
  apply_ops [] key found = found
  apply_ops (op ∷ ops) key found = apply_ops ops key (apply_op op key found)

  last_op-append :
      (key : Bytes) (op : PendingOp R) (ops : List (PendingOp R)) (found : Option R)
      → or_store (last_op key (ops ++ op ∷ [])) found
        ≡ or_store (last_op key ops) (apply_op op key found)
  unfolding last_op
  last_op-append key (put k v) [] found = ground arith
  last_op-append key (delete k) [] found = ground arith
  last_op-append key op (put k v ∷ ops) found = ground (arith, last_op-append key op ops found)
  last_op-append key op (delete k ∷ ops) found = ground (arith, last_op-append key op ops found)

  -- The operations, read backwards up to the first on the key, do what they do one after another.
  pub last_op-apply_ops :
      (key : Bytes) (ops : List (PendingOp R)) (found : Option R)
      → or_store (last_op key (reverse ops)) found ≡ apply_ops ops key found
  last_op-apply_ops key [] found = unfold last_op in refl
  last_op-apply_ops key (op ∷ ops) found = rw (reverse-append (op ∷ []) ops) (
      rw (last_op-append key op (reverse ops) found)
        (last_op-apply_ops key ops (apply_op op key found)))

  get-merge_ops :
      (prefix key : Bytes) (ops : List (PendingOp R)) (out : BTreeMap R)
      → BTreeMap.get key (merge_ops prefix ops out) ≡ (
          if starts_with key prefix
          then apply_ops ops key (BTreeMap.get key out)
          else BTreeMap.get key out)
  unfolding merge_ops
  get-merge_ops prefix key [] out = ground arith
  get-merge_ops prefix key (put k v ∷ ops) out = ground (
    arith,
    bytes_eq_iff k key,
    get-insert k key v out,
    get-merge_ops prefix key ops (if starts_with k prefix then BTreeMap.insert k v out else out),
  )
  get-merge_ops prefix key (delete k ∷ ops) out = ground (
    arith,
    bytes_eq_iff k key,
    get-remove k key out,
    get-merge_ops prefix key ops (if starts_with k prefix then BTreeMap.remove k out else out),
  )

  -- Over a sorted store, whatever is pending, a prefix scan inside a command and the reads of
  -- single keys agree: a key with the prefix is in the scan with exactly the value that
  -- `get_merged` reads, and no other key is.
  pub get_prefix_merged-get_merged :
      (prefix key : Bytes) (m : Machine R)
      → IsSorted m.store
      → BTreeMap.get key (get_prefix_merged prefix m)
        ≡ (if starts_with key prefix then get_merged key m else none)
  unfolding get_prefix_merged get_merged
  get_prefix_merged-get_merged prefix key m h = ground (
    arith,
    get-merge_ops prefix key m.pending_ops (defing.Store.get_prefix m.store prefix),
    get-get_prefix m.store prefix key h,
    last_op-apply_ops key m.pending_ops (BTreeMap.get key m.store),
  )

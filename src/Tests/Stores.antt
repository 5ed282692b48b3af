-- ===== src/Tests/Stores.antt =====
-- The theorems about stores, machines, keys and diffs, at small inputs.
use defing.Prelude.{
  starts_with, ℕ, List, [], ◌∷◌, none, some, ◌≡◌, refl, false, true, Bytes, codes, inr, bytes_eq,
}
use defing.BTreeMap
use defing.BTreeMap.{BTreeMap}
use defing.BTreeMap.Nested.{get2}
use defing.BTreeMap.Order.{IsSorted}
use defing.Diff.{compute_diff, apply_diff}
use defing.Diff.RoundTrip.{Agrees, apply_diff-compute_diff}
use defing.Keys.Distinct.{BranchKey, branch_key, branch_key-same_key}
use defing.Machine.{
  PendingOp, clear_pending, puts_of, deletes_of, put, delete, put_pending, delete_pending, Machine,
  get_merged, get_prefix_merged, flush_pending,
}
use defing.Machine.Flush.{get-flush_pending, flush_pending-put_delete, write_batch-IsSorted}
use defing.Machine.View.{get_prefix_merged-get_merged}
use defing.Tests.{shop, dev, group_name, item_key, snapshot_one, snapshot_two}

abbrev pub two_rows : BTreeMap ℕ
two_rows = (codes "p/a", 1) ∷ (codes "p/b", 2) ∷ []

pub two_rows-IsSorted : IsSorted two_rows
unfolding defing.Prelude.bytes_lt
two_rows-IsSorted = ((refl, tt), (tt, tt))

-- one row deleted and another put over the two
abbrev busy : Machine ℕ
busy = record { store = two_rows; pending_ops = delete (codes "p/a") ∷ put (codes "p/c") 3 ∷ [] }

get_prefix_merged-get_merged_example :
    BTreeMap.get (codes "p/c") (get_prefix_merged (codes "p/") busy) ≡ some 3
unfolding defing.Prelude.starts_with get_merged defing.Machine.last_op bytes_eq
get_prefix_merged-get_merged_example =
    get_prefix_merged-get_merged (codes "p/") (codes "p/c") busy two_rows-IsSorted

get-flush_pending_example :
    BTreeMap.get (codes "p/c") (flush_pending busy).store ≡ get_merged (codes "p/c") busy
unfolding defing.Machine.Flush.is_deleted
get-flush_pending_example = get-flush_pending (codes "p/c") busy (refl, tt)

flush_pending-put_delete_example :
    (get_merged (codes "k") (delete_pending (codes "k") (put_pending (codes "k") 7 busy)) ≡ none)
    × (BTreeMap.get
          (codes "k")
          (flush_pending (delete_pending (codes "k") (put_pending (codes "k") 7 busy))).store
        ≡ some 7)
flush_pending-put_delete_example = flush_pending-put_delete (codes "k") 7 busy

branch_key-same_key_example :
    bytes_eq
      (branch_key shop dev (BranchKey.version 12))
      (branch_key shop dev (BranchKey.snapshot 1))
    ≡ false
branch_key-same_key_example =
    branch_key-same_key shop dev (BranchKey.version 12) (BranchKey.snapshot 1)

apply_diff-compute_diff_example :
    Agrees
      (get2 group_name item_key (apply_diff (compute_diff snapshot_one snapshot_two) snapshot_one))
      (get2 group_name item_key snapshot_two)
apply_diff-compute_diff_example =
    apply_diff-compute_diff group_name item_key snapshot_one snapshot_two (tt, ((tt, tt), tt))
      (tt, ((tt, tt), tt))

-- ===== src/Sessions/Deletes.antt =====
-- What is left after the deletes of sessions.
use defing.Prelude.{[], ◌∷◌, none, ◌≡◌, refl, arith, Bytes, starts_with, is_some, if◌then◌else◌}
use defing.BTreeMap
use defing.BTreeMap.{BTreeMap}
use defing.BTreeMap.Order.{IsSorted}
use defing.Machine.{Machine, delete_pending, get_merged, get_prefix_merged}
use defing.Machine.View.{get_merged-delete_pending, get_prefix_merged-get_merged}
use defing.Sessions.{delete_rows, delete_prefix}

module _ {R : Type 0} where
  pub get_merged-delete_rows :
      (key : Bytes) (rows : BTreeMap R) (m : Machine R)
      → get_merged key (delete_rows rows m)
        ≡ (if is_some (BTreeMap.get key rows) then none else get_merged key m)
  unfolding delete_rows BTreeMap.get
  get_merged-delete_rows key [] m = refl
  get_merged-delete_rows key ((k, v) ∷ rows) m = ground (
    arith,
    get_merged-delete_rows key rows (delete_pending k m),
    get_merged-delete_pending k key m,
  )

  pub delete_rows-store : (rows : BTreeMap R) (m : Machine R) → (delete_rows rows m).store ≡ m.store
  unfolding delete_rows delete_pending
  delete_rows-store [] m = refl
  delete_rows-store ((k, v) ∷ rows) m = delete_rows-store rows (delete_pending k m)

  -- Over a sorted store, the deletes under a prefix take exactly the keys that start with it, those
  -- that the command itself has written included, and every other key is read as before.
  pub get_merged-delete_prefix :
      (key prefix : Bytes) (m : Machine R)
      → IsSorted m.store
      → get_merged key (delete_prefix prefix m)
        ≡ (if starts_with key prefix then none else get_merged key m)
  unfolding delete_prefix
  get_merged-delete_prefix key prefix m sorted = ground (
    arith,
    get_merged-delete_rows key (get_prefix_merged prefix m) m,
    get_prefix_merged-get_merged prefix key m sorted,
  )

  pub delete_prefix-store :
      (prefix : Bytes) (m : Machine R) → (delete_prefix prefix m).store ≡ m.store
  unfolding delete_prefix
  delete_prefix-store prefix m = delete_rows-store (get_prefix_merged prefix m) m

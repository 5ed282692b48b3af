-- ===== src/Diff.antt =====
-- server/crates/dsh-core/src/diff.rs, `compute_diff`, and the `apply_diff` of state.rs.
pub mod RoundTrip
use defing.Prelude.{
  Bool, true, false, not, List, [], ◌∷◌, ◌++◌, Option, none, some, Bytes, if◌then◌else◌, is_some,
}
use defing.BTreeMap.{BTreeMap}
use defing.BTreeMap.Nested.{get2, insert2, remove2}
use defing.Model.{Value, DiffEntry, ChangeKind, upsert, delete, SnapshotMap}
use defing.Model.Equality.{is_value}

abbrev pub upsert_entry : Bytes → Bytes → Value → DiffEntry
upsert_entry g k v = record { group = g; key = k; kind = upsert; new_value = some v }

abbrev pub delete_entry : Bytes → Bytes → DiffEntry
delete_entry g k = record { group = g; key = k; kind = delete; new_value = none }

-- the inner loop over `new`
unfoldable pub upsert_items : SnapshotMap → Bytes → BTreeMap Value → List DiffEntry
upsert_items old group [] = []
upsert_items old group ((key, value) ∷ items) =
    let rest = upsert_items old group items in
    if is_value (get2 group key old) value then rest else upsert_entry group key value ∷ rest

unfoldable pub upserts : SnapshotMap → SnapshotMap → List DiffEntry
unfolding upsert_items
upserts old [] = []
upserts old ((group, items) ∷ new) = upsert_items old group items ++ upserts old new

-- the inner loop over `old`
unfoldable pub delete_items : SnapshotMap → Bytes → BTreeMap Value → List DiffEntry
delete_items new group [] = []
delete_items new group ((key, value) ∷ items) =
    let rest = delete_items new group items in
    if not (is_some (get2 group key new)) then delete_entry group key ∷ rest else rest

unfoldable pub deletes : SnapshotMap → SnapshotMap → List DiffEntry
unfolding delete_items
deletes [] new = []
deletes ((group, items) ∷ old) new = delete_items new group items ++ deletes old new

-- `compute_diff`
unfoldable pub compute_diff : SnapshotMap → SnapshotMap → List DiffEntry
unfolding upserts deletes
compute_diff old new = upserts old new ++ deletes old new

-- one round of `StateMachine::apply_diff`
unfoldable pub apply_entry : ChangeKind → Bytes → Bytes → Option Value → SnapshotMap → SnapshotMap
apply_entry upsert g k none snap = snap
apply_entry upsert g k (some v) snap = insert2 g k v snap
apply_entry delete g k v snap = remove2 g k snap

-- `StateMachine::apply_diff`
unfoldable pub apply_diff : List DiffEntry → SnapshotMap → SnapshotMap
unfolding apply_entry
apply_diff [] snap = snap
apply_diff (e ∷ es) snap = apply_diff es (apply_entry e.kind e.group e.key e.new_value snap)

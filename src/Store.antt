-- ===== src/Store.antt =====
-- server/crates/dsh-core/src/store.rs: the key-value store in memory, which is the contract of the
-- `Store` trait. `R` is the type of a stored value (`Vec<u8>` in the source).
pub mod Prefix
use defing.Prelude.{
  ℕ, ◌+◌, Bool, true, false, List, [], ◌∷◌, Option, none, some, Bytes, starts_with, bytes_lt, leb,
  bytes_eq, length, if◌then◌else◌, map, ◌||◌, max,
}
use defing.BTreeMap
use defing.BTreeMap.{BTreeMap}

module _ {R : Type 0} where
  -- `range(start..)`: skips the keys below `start`
  unfoldable pub range_from : Bytes → BTreeMap R → BTreeMap R
  range_from start [] = []
  range_from start ((k, v) ∷ m) =
      let rest = range_from start m in if bytes_lt k start then rest else (k, v) ∷ m

  -- `take_while(|(k, _)| k.starts_with(prefix))`
  unfoldable pub take_prefix : Bytes → BTreeMap R → BTreeMap R
  take_prefix prefix [] = []
  take_prefix prefix ((k, v) ∷ m) =
      let rest = take_prefix prefix m in if starts_with k prefix then (k, v) ∷ rest else []

  -- `InMemoryStore::get_prefix`
  unfoldable pub get_prefix : BTreeMap R → Bytes → BTreeMap R
  unfolding range_from take_prefix
  get_prefix s prefix = take_prefix prefix (range_from prefix s)

  -- `Store::get_prefix_keys`
  unfoldable pub get_prefix_keys : BTreeMap R → Bytes → List Bytes
  get_prefix_keys s prefix = map (λ kv. kv.0) (get_prefix s prefix)

  -- the two loops of `write_batch`
  unfoldable pub remove_all : List Bytes → BTreeMap R → BTreeMap R
  remove_all [] s = s
  remove_all (k ∷ ks) s = remove_all ks (BTreeMap.remove k s)

  unfoldable pub insert_all : List (Bytes × R) → BTreeMap R → BTreeMap R
  insert_all [] s = s
  insert_all ((k, v) ∷ kvs) s = insert_all kvs (BTreeMap.insert k v s)

  -- `InMemoryStore::write_batch`: first the deletes, then the puts
  unfoldable pub write_batch : List (Bytes × R) → List Bytes → BTreeMap R → BTreeMap R
  unfolding remove_all insert_all
  write_batch puts deletes s = insert_all puts (remove_all deletes s)

  module _ (len : R → ℕ) where
    -- The loop of `Store::get_prefix_page` over the rows, with `bytes` counted so far.
    unfoldable pub page_rows : BTreeMap R → ℕ → ℕ → BTreeMap R
    page_rows [] budget bytes = []
    page_rows ((k, v) ∷ rows) budget bytes =
        let total = bytes + (length k + len v) in
        let rest = page_rows rows budget total in
        if leb (max budget 1) total then (k, v) ∷ [] else (k, v) ∷ rest

    -- the rows behind `after`
    unfoldable pub rows_after : Option Bytes → BTreeMap R → BTreeMap R
    rows_after none rows = rows
    rows_after (some a) [] = []
    rows_after (some a) ((k, v) ∷ rows) =
        let rest = rows_after (some a) rows in
        if bytes_lt k a || bytes_eq k a then rest else (k, v) ∷ rows

    -- `Store::get_prefix_page`
    unfoldable pub get_prefix_page : BTreeMap R → Bytes → Option Bytes → ℕ → BTreeMap R
    get_prefix_page s prefix after budget =
        page_rows (rows_after after (get_prefix s prefix)) budget 0

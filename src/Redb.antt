-- ===== src/Redb.antt =====
-- server/crates/dsh-storage/src/lib.rs: `RedbStorage`, the store on disk, over the database library
-- redb, of which `Redb` has the calls that the code makes on the table of the state. Opening the
-- files, the backup and the raft tables are not modelled here.
pub mod Refines
pub mod Scans
use defing.Prelude.{
  ℕ, ◌+◌, Bool, false, List, [], ◌∷◌, Option, none, some, Bytes, starts_with, bytes_lt, bytes_eq,
  ◌||◌, leb, max, length, not, if◌then◌else◌, ◌≡◌, ◌⊎◌,
}
use mathlib.Core.Option
use defing.BTreeMap
use defing.BTreeMap.{BTreeMap}
use defing.Error.{Result, ok, err, and_then}
use defing.Store.{range_from}

module _ {R : Type 0} where
  -- The entries of a range against rows; behind an entry that cannot be read there may be anything.
  abbrev pub Yields : List (Result (Bytes × R)) → BTreeMap R → Type 0
  Yields [] [] = Unit
  Yields [] (row ∷ rows) = ⊥
  Yields (ok entry ∷ entries) [] = ⊥
  Yields (ok entry ∷ entries) (row ∷ rows) = (entry ≡ row) × Yields entries rows
  Yields (err e ∷ entries) rows = Unit

-- redb: a committed database, the table of the state in a read transaction, and a write transaction
-- with that table open. `rows`, `table_rows` and `txn_rows` are what is in them. A call that
-- succeeds does what it is documented to do; any call may fail.
pub record Redb (R : Type 0) : Type 1 where
  pub Db : Type 0
  pub Table : Type 0
  pub Txn : Type 0
  pub rows : Db → BTreeMap R
  pub table_rows : Table → BTreeMap R
  pub txn_rows : Txn → BTreeMap R
  pub begin_read : Db → Result Table
  pub table_get : Bytes → Table → Result (Option R)
  pub range : Bytes → Table → Result (List (Result (Bytes × R)))
  pub begin_write : Db → Result Txn
  pub table_insert : Bytes → R → Txn → Result Txn
  pub table_remove : Bytes → Txn → Result Txn
  pub commit : Db → Txn → Result (Unit {0}) × Db
  pub begin_read-ok : (db : Db) (t : Table) → begin_read db ≡ ok t → table_rows t ≡ rows db
  pub table_get-ok :
      (key : Bytes) (t : Table) (v : Option R)
      → table_get key t ≡ ok v
      → v ≡ BTreeMap.get key (table_rows t)
  pub range-ok :
      (start : Bytes) (t : Table) (entries : List (Result (Bytes × R)))
      → range start t ≡ ok entries
      → Yields entries (range_from start (table_rows t))
  pub begin_write-ok : (db : Db) (t : Txn) → begin_write db ≡ ok t → txn_rows t ≡ rows db
  pub table_insert-ok :
      (key : Bytes) (v : R) (t t' : Txn)
      → table_insert key v t ≡ ok t'
      → txn_rows t' ≡ BTreeMap.insert key v (txn_rows t)
  pub table_remove-ok :
      (key : Bytes) (t t' : Txn)
      → table_remove key t ≡ ok t'
      → txn_rows t' ≡ BTreeMap.remove key (txn_rows t)
  pub commit-ok : (db : Db) (t : Txn) → (commit db t).0 ≡ ok tt → rows (commit db t).1 ≡ txn_rows t
  pub commit-all_or_nothing :
      (db : Db) (t : Txn) → ((commit db t).1 ≡ db) ⊎ (rows (commit db t).1 ≡ txn_rows t)

module _ {R : Type 0} (X : Redb R) where
  abbrev pub Written : Type 0
  Written = Result (Unit {0}) × X.Db

  -- A write goes to a transaction: on an error before the commit it is dropped, and the database is
  -- what it was; what the commit does, with an error too, is for the database to say.
  abbrev pub settled : X.Db → Result X.Txn → Written
  settled db (ok t) = X.commit db t
  settled db (err e) = (err e, db)

  abbrev pub write : (X.Txn → Result X.Txn) → X.Db → Written
  write body db = settled db (and_then (X.begin_write db) body)

  -- `RedbStorage::get`
  unfoldable pub get : Bytes → X.Db → Result (Option R)
  get key db = and_then (X.begin_read db) (X.table_get key)

  -- `RedbStorage::put`
  unfoldable pub put : Bytes → R → X.Db → Written
  put key v = write (X.table_insert key v)

  -- `RedbStorage::delete`
  unfoldable pub delete : Bytes → X.Db → Written
  delete key = write (X.table_remove key)

  -- the loops of `put_batch` and `write_batch`
  unfoldable pub insert_all : List (Bytes × R) → X.Txn → Result X.Txn
  insert_all [] t = ok t
  insert_all ((k, v) ∷ kvs) t = and_then (X.table_insert k v t) (insert_all kvs)

  unfoldable pub remove_all : List Bytes → X.Txn → Result X.Txn
  remove_all [] t = ok t
  remove_all (k ∷ ks) t = and_then (X.table_remove k t) (remove_all ks)

  -- `RedbStorage::put_batch`
  unfoldable pub put_batch : List (Bytes × R) → X.Db → Written
  unfolding insert_all
  put_batch pairs = write (insert_all pairs)

  -- `RedbStorage::write_batch`: first the deletes, then the puts
  unfoldable pub write_batch : List (Bytes × R) → List Bytes → X.Db → Written
  unfolding insert_all remove_all
  write_batch puts deletes = write (λ t. and_then (remove_all deletes t) (insert_all puts))

  -- The loop of `get_prefix`: an entry that cannot be read is an error, and the first key without
  -- the prefix ends it.
  unfoldable pub scan_prefix : Bytes → List (Result (Bytes × R)) → Result (BTreeMap R)
  scan_prefix prefix [] = ok []
  scan_prefix prefix (err e ∷ entries) = err e
  scan_prefix prefix (ok (k, v) ∷ entries) =
      let rest = scan_prefix prefix entries in
      if starts_with k prefix then and_then rest (λ rows. ok ((k, v) ∷ rows)) else ok []

  -- `RedbStorage::get_prefix`
  unfoldable pub get_prefix : Bytes → X.Db → Result (BTreeMap R)
  unfolding scan_prefix
  get_prefix prefix db =
      and_then (X.begin_read db) (λ t. and_then (X.range prefix t) (scan_prefix prefix))

  -- The loop of `get_prefix_keys`
  unfoldable pub scan_keys : Bytes → List (Result (Bytes × R)) → Result (List Bytes)
  scan_keys prefix [] = ok []
  scan_keys prefix (err e ∷ entries) = err e
  scan_keys prefix (ok (k, v) ∷ entries) =
      let rest = scan_keys prefix entries in
      if starts_with k prefix then and_then rest (λ keys. ok (k ∷ keys)) else ok []

  -- `RedbStorage::get_prefix_keys`
  unfoldable pub get_prefix_keys : Bytes → X.Db → Result (List Bytes)
  unfolding scan_keys
  get_prefix_keys prefix db =
      and_then (X.begin_read db) (λ t. and_then (X.range prefix t) (scan_keys prefix))

  module _ (len : R → ℕ) where
    -- `after.is_some_and(|a| k <= a)`
    abbrev pub not_after : Option Bytes → Bytes → Bool
    not_after none k = false
    not_after (some a) k = bytes_lt k a || bytes_eq k a

    -- The loop of `get_prefix_page`, with `bytes` counted so far.
    unfoldable pub scan_page :
        Bytes → Option Bytes → ℕ → ℕ → List (Result (Bytes × R)) → Result (BTreeMap R)
    scan_page prefix after budget bytes [] = ok []
    scan_page prefix after budget bytes (err e ∷ entries) = err e
    scan_page prefix after budget bytes (ok (k, v) ∷ entries) =
        let total = bytes + (length k + len v) in
        let skip = scan_page prefix after budget bytes entries in
        let rest = scan_page prefix after budget total entries in
        if not (starts_with k prefix)
        then ok []
        else if not_after after k
        then skip
        else if leb (max budget 1) total
        then ok ((k, v) ∷ [])
        else and_then rest (λ rows. ok ((k, v) ∷ rows))

    -- `RedbStorage::get_prefix_page`: the range starts at the cursor itself
    unfoldable pub get_prefix_page : Bytes → Option Bytes → ℕ → X.Db → Result (BTreeMap R)
    unfolding scan_page
    get_prefix_page prefix after budget db =
        and_then (X.begin_read db)
          (λ t. and_then (X.range (Option.get_or after prefix) t) (scan_page prefix after budget 0))

-- ===== src/Redb/Refines.antt =====
-- The store on disk does what the store in memory does: a write that succeeds has the rows of the
-- one in memory, one that fails changes nothing or all, and what a read returns is what it reads there.
use defing.Prelude.{List, [], ◌∷◌, ◌≡◌, ◌⊎◌, inl, inr, refl, ap, sym, ◌∙◌, Bytes}
use defing.BTreeMap
use defing.BTreeMap.{BTreeMap}
use defing.Error.{Result, ok, err, and_then, and_then-ok, ok-injective}
use defing.Store
use defing.Store.{range_from, take_prefix}
use defing.Redb.{
  Redb, Written, settled, write, put, delete, insert_all, remove_all, put_batch, write_batch,
}

module _ {R : Type 0} (X : Redb R) where
  -- What a write came to: the new rows, or on an error the old database, or the new rows if the
  -- commit took effect nevertheless.
  abbrev pub Implements : X.Db → BTreeMap R → Written X → Type 0
  Implements db new (ok u, db') = X.rows db' ≡ new
  Implements db new (err e, db') = (db' ≡ db) ⊎ (X.rows db' ≡ new)

  settled-Implements :
      (db : X.Db) (new : BTreeMap R) (r : Result X.Txn)
      → ((t : X.Txn) → r ≡ ok t → X.txn_rows t ≡ new)
      → Implements db new (settled X db r)
  settled-Implements db new (ok t) h =
      by_result (X.commit db t) (λ done. X.commit-ok db t done ∙ h t refl)
        (all_or_nothing (X.commit-all_or_nothing db t))
    where
      all_or_nothing :
          ((X.commit db t).1 ≡ db) ⊎ (X.rows (X.commit db t).1 ≡ X.txn_rows t)
          → ((X.commit db t).1 ≡ db) ⊎ (X.rows (X.commit db t).1 ≡ new)
      all_or_nothing (inl same) = inl same
      all_or_nothing (inr all) = inr (all ∙ h t refl)

      by_result :
          (w : Written X)
          → (w.0 ≡ ok tt → X.rows w.1 ≡ new)
          → (w.1 ≡ db) ⊎ (X.rows w.1 ≡ new)
          → Implements db new w
      by_result (ok u, db') done either = done refl
      by_result (err e, db') done either = either
  settled-Implements db new (err e) h = inl refl

  write-Implements :
      (body : X.Txn → Result X.Txn) (change : BTreeMap R → BTreeMap R) (db : X.Db)
      → ((t t' : X.Txn) → body t ≡ ok t' → X.txn_rows t' ≡ change (X.txn_rows t))
      → Implements db (change (X.rows db)) (write X body db)
  write-Implements body change db h = settled-Implements db (change (X.rows db)) _ λ t' ran.
      let (t, begun, written) = and_then-ok (X.begin_write db) body ran in
      h t t' written ∙ ap change (X.begin_write-ok db t begun)

  insert_all-rows :
      (kvs : List (Bytes × R)) (t t' : X.Txn)
      → insert_all X kvs t ≡ ok t'
      → X.txn_rows t' ≡ Store.insert_all kvs (X.txn_rows t)
  unfolding insert_all Store.insert_all
  insert_all-rows [] t t' h = sym (ap X.txn_rows (ok-injective h))
  insert_all-rows ((k, v) ∷ kvs) t t' h =
      let (u, first, rest) = and_then-ok (X.table_insert k v t) (insert_all X kvs) h in
      insert_all-rows kvs u t' rest ∙ ap (Store.insert_all kvs) (X.table_insert-ok k v t u first)

  remove_all-rows :
      (ks : List Bytes) (t t' : X.Txn)
      → remove_all X ks t ≡ ok t'
      → X.txn_rows t' ≡ Store.remove_all ks (X.txn_rows t)
  unfolding remove_all Store.remove_all
  remove_all-rows [] t t' h = sym (ap X.txn_rows (ok-injective h))
  remove_all-rows (k ∷ ks) t t' h =
      let (u, first, rest) = and_then-ok (X.table_remove k t) (remove_all X ks) h in
      remove_all-rows ks u t' rest ∙ ap (Store.remove_all ks) (X.table_remove-ok k t u first)

  batch-rows :
      (puts : List (Bytes × R)) (deletes : List Bytes) (t t' : X.Txn)
      → and_then (remove_all X deletes t) (insert_all X puts) ≡ ok t'
      → X.txn_rows t' ≡ Store.write_batch puts deletes (X.txn_rows t)
  unfolding Store.write_batch
  batch-rows puts deletes t t' h =
      let (u, first, rest) = and_then-ok (remove_all X deletes t) (insert_all X puts) h in
      insert_all-rows puts u t' rest
      ∙ ap (Store.insert_all puts) (remove_all-rows deletes t u first)

  -- Every write of the store on disk is atomic and does what the store in memory does: if it
  -- succeeds, the rows are those that the put, the delete or the batch leaves in memory; if it
  -- fails, the database is the old one, or its rows are the new ones where a commit took effect and
  -- yet reported an error.
  pub writes-Implements :
      (key : Bytes) (v : R) (puts : List (Bytes × R)) (deletes : List Bytes) (db : X.Db)
      → Implements db (BTreeMap.insert key v (X.rows db)) (put X key v db)
        × Implements db (BTreeMap.remove key (X.rows db)) (delete X key db)
        × Implements db (Store.insert_all puts (X.rows db)) (put_batch X puts db)
        × Implements db (Store.write_batch puts deletes (X.rows db)) (write_batch X puts deletes db)
  unfolding put delete put_batch write_batch
  writes-Implements key v puts deletes db = (
    write-Implements (X.table_insert key v) (BTreeMap.insert key v) db (X.table_insert-ok key v),
    write-Implements (X.table_remove key) (BTreeMap.remove key) db (X.table_remove-ok key),
    write-Implements (insert_all X puts) (Store.insert_all puts) db (insert_all-rows puts),
    write-Implements (λ t. and_then (remove_all X deletes t) (insert_all X puts))
        (Store.write_batch puts deletes) db (batch-rows puts deletes),
  )

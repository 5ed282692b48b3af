-- ===== src/Snapshots/Restore.antt =====
-- A restore puts the state of a dump in the place of whatever the node had.
use defing.Prelude.{
  ℕ, zero, suc, ◌+◌, ◌<◌, ◌≤◌, List, [], ◌∷◌, ◌++◌, some, ◌≡◌, refl, ap, sym, ◌∙◌, arith, Bytes,
  append_assoc, append-nil, length, length-append, max, map, bytes_lt_irrefl, ltb, bytes_lt_asym,
  bytes_eq_refl, bytes_eq_iff, Bool-cases, inl, inr,
}
use mathlib.Core.Path.{subst}
use defing.BTreeMap.{BTreeMap, insert, remove}
use defing.BTreeMap.Order.{IsSorted, Above}
use defing.Error.{ok}
use defing.Machine.{Machine, get_prefix_merged, merge_ops}
use defing.Store.{get_prefix_keys, remove_all, insert_all, write_batch}
use defing.Snapshots.{
  concat, dump_all, dump_batches, restore_rest, restore_stream, fill_chunk, chunk_rounds,
  chunk_pairs, restore_all_batched,
}
use defing.Snapshots.Pages.{Above-append, get_prefix-nil, concat-cons, dump_batches-concat}

module _ {R : Type 0} where
  -- a key above all others goes to the end
  insert_last :
      (k : Bytes) (v : R) (acc rest : BTreeMap R)
      → IsSorted (acc ++ (k, v) ∷ rest)
      → insert k v acc ≡ acc ++ (k, v) ∷ []
  unfolding insert
  insert_last k v [] rest s = refl
  insert_last k v ((j, w) ∷ acc) rest (a, s) =
      let below = Above-append j k v acc rest a in
      ground (
        arith,
        below,
        bytes_eq_iff j k,
        bytes_lt_irrefl k,
        bytes_lt_asym j k,
        insert_last k v acc rest s,
      )

  insert_all-append_sorted :
      (acc kvs : BTreeMap R) → IsSorted (acc ++ kvs) → insert_all kvs acc ≡ acc ++ kvs
  unfolding insert_all
  insert_all-append_sorted acc [] s = sym (append-nil acc)
  insert_all-append_sorted acc ((k, v) ∷ kvs) s =
      ap (insert_all kvs) (insert_last k v acc kvs s)
      ∙ insert_all-append_sorted (acc ++ (k, v) ∷ []) kvs
          (subst IsSorted (sym (append_assoc acc ((k, v) ∷ []) kvs)) s)
      ∙ append_assoc acc ((k, v) ∷ []) kvs

  -- the puts of a sorted store into an empty one
  pub insert_all-nil : (s : BTreeMap R) → IsSorted s → insert_all s [] ≡ s
  insert_all-nil s h = insert_all-append_sorted [] s h

  pub insert_all-append :
      (xs ys acc : BTreeMap R) → insert_all (xs ++ ys) acc ≡ insert_all ys (insert_all xs acc)
  unfolding insert_all
  insert_all-append [] ys acc = refl
  insert_all-append ((k, v) ∷ xs) ys acc = insert_all-append xs ys (insert k v acc)

  remove-Above : (k : Bytes) (s : BTreeMap R) → Above k s → remove k s ≡ s
  unfolding remove
  remove-Above k [] a = refl
  remove-Above k ((j, w) ∷ s) (h, a) =
      ground (arith, bytes_eq_iff j k, bytes_lt_irrefl k, remove-Above k s a)

  remove_first : (k : Bytes) (v : R) (s : BTreeMap R) → Above k s → remove k ((k, v) ∷ s) ≡ s
  unfolding remove
  remove_first k v s a = ground (arith, bytes_eq_refl k, remove-Above k s a)

  -- the deletes of all keys
  remove_all-keys : (s : BTreeMap R) → IsSorted s → remove_all (map (λ kv. kv.0) s) s ≡ []
  unfolding remove_all
  remove_all-keys [] h = refl
  remove_all-keys ((k, v) ∷ s) (a, h) =
      ap (remove_all (map (λ kv. kv.0) s)) (remove_first k v s a) ∙ remove_all-keys s h

  -- a batch with the deletes of all keys
  write_batch-over :
      (s batch : BTreeMap R)
      → IsSorted s
      → write_batch batch (get_prefix_keys s []) s ≡ insert_all batch []
  unfolding write_batch get_prefix_keys
  write_batch-over s batch h = rw get_prefix-nil (rw (remove_all-keys s h) refl)

  -- The first batch with the deletes, and what the others hold, are the batches together.
  pub insert_all-write_batch :
      (s page : BTreeMap R) (pages : List (BTreeMap R))
      → IsSorted s
      → IsSorted (concat (page ∷ pages))
      → insert_all (concat pages) (write_batch page (get_prefix_keys s []) s)
        ≡ concat (page ∷ pages)
  insert_all-write_batch s page pages h t =
      ap (insert_all (concat pages)) (write_batch-over s page h)
      ∙ sym (insert_all-append page (concat pages) [])
      ∙ ap (λ z. insert_all z []) (sym (concat-cons page pages))
      ∙ insert_all-nil (concat (page ∷ pages)) t

  pub write_batch-all : (s : BTreeMap R) → IsSorted s → write_batch [] (get_prefix_keys s []) s ≡ []
  write_batch-all s h = write_batch-over s [] h ∙ insert_all-nil [] tt

  restore_rest-concat :
      (pages : List (BTreeMap R)) (m : Machine R)
      → restore_rest (map ok pages) m
        ≡ (ok tt, record m { store = insert_all (concat pages) m.store })
  unfolding restore_rest concat insert_all write_batch remove_all
  restore_rest-concat [] m = refl
  restore_rest-concat ([] ∷ pages) m = restore_rest-concat pages m
  restore_rest-concat ((kv ∷ page) ∷ pages) m =
      restore_rest-concat pages (record m { store = insert_all (kv ∷ page) m.store })
      ∙ ap (λ z. (ok tt, record m { store = z }))
          (sym (insert_all-append (kv ∷ page) (concat pages) m.store))

  pub concat-nil : concat {A = Bytes × R} [] ≡ []
  unfolding concat
  concat-nil = refl

  -- Batches without an error replace the state by what they hold together.
  pub restore_stream-concat :
      (pages : List (BTreeMap R)) (m : Machine R)
      → IsSorted m.store
      → IsSorted (concat pages)
      → restore_stream (map ok pages) m ≡ (ok tt, record m { store = concat pages })
  unfolding restore_stream
  restore_stream-concat [] m h s =
      ap (λ z. (ok tt, record m { store = z })) (write_batch-all m.store h ∙ sym concat-nil)
  restore_stream-concat (page ∷ pages) m h s =
      restore_rest-concat pages
        (record m { store = write_batch page (get_prefix_keys m.store []) m.store })
      ∙ ap (λ z. (ok tt, record m { store = z })) (insert_all-write_batch m.store page pages h s)

pub get_prefix_merged-nil :
    {R : Type 0} (m : Machine R) → m.pending_ops ≡ [] → get_prefix_merged [] m ≡ m.store
unfolding get_prefix_merged
get_prefix_merged-nil m h = rw h (unfold merge_ops in get_prefix-nil m.store)

module _ {R : Type 0} (len : R → ℕ) where
  fill_chunk-append :
      (budget bytes : ℕ) (pairs : BTreeMap R)
      → (fill_chunk len budget bytes pairs).0 ++ (fill_chunk len budget bytes pairs).1 ≡ pairs
  unfolding fill_chunk
  fill_chunk-append budget bytes [] = refl
  fill_chunk-append budget bytes ((k, v) ∷ pairs) = elim (Bool-cases (ltb bytes budget)) [
    | inl room ↦ rw room (
        ap (λ (z : BTreeMap R). (k, v) ∷ z)
          (fill_chunk-append budget (bytes + (length k + len v)) pairs))
    | inr full ↦ rw full refl
  ]

  chunk_rounds-concat :
      (rounds budget : ℕ) (pairs : BTreeMap R)
      → length pairs ≤ rounds
      → concat (chunk_rounds len rounds budget pairs) ≡ pairs
  unfolding chunk_rounds concat
  chunk_rounds-concat zero budget [] h = refl
  chunk_rounds-concat zero budget (kv ∷ pairs) h = absurd (omega arith)
  chunk_rounds-concat (suc rounds) budget [] h = refl
  chunk_rounds-concat (suc rounds) budget ((k, v) ∷ pairs) h =
      let (chunk, left) = fill_chunk len budget (length k + len v) pairs in
      let cut : chunk ++ left ≡ pairs = fill_chunk-append budget (length k + len v) pairs in
      ap (λ (z : BTreeMap R). (k, v) ∷ z)
        (ap (λ (z : BTreeMap R). chunk ++ z)
            (chunk_rounds-concat rounds budget left
              (omega (arith, ap length cut, length-append chunk left)))
          ∙ cut)

  -- the chunks are the pairs, cut into pieces
  pub chunk_pairs-concat :
      (pairs : BTreeMap R) (chunk_bytes : ℕ) → concat (chunk_pairs len pairs chunk_bytes) ≡ pairs
  unfolding chunk_pairs
  chunk_pairs-concat pairs chunk_bytes =
      chunk_rounds-concat (length pairs) (max chunk_bytes 1) pairs (omega arith)

  dump_all-store : (m : Machine R) → m.pending_ops ≡ [] → dump_all m ≡ m.store
  unfolding dump_all
  dump_all-store m h = get_prefix_merged-nil m h

  -- A node that restores the whole dump of another, over which no command is running, has the store
  -- of that node in the place of its own, in chunks of whatever size, over sorted stores.
  pub restore_all_batched-dump_all :
      (chunk_bytes : ℕ) (from to : Machine R)
      → IsSorted from.store
      → IsSorted to.store
      → from.pending_ops ≡ []
      → restore_all_batched len (dump_all from) chunk_bytes to
        ≡ (ok tt, record to { store = from.store })
  unfolding restore_all_batched
  restore_all_batched-dump_all chunk_bytes from to s t none_pending =
      let all = chunk_pairs-concat (dump_all from) chunk_bytes ∙ dump_all-store from none_pending in
      restore_stream-concat (chunk_pairs len (dump_all from) chunk_bytes) to t
        (subst IsSorted (sym all) s)
      ∙ ap (λ z. (ok tt, record to { store = z })) all

-- Snapshot transfer: over sorted stores, the dump of one node ends within one call of `next` for
-- each row and one, and its pages, whatever their budget, restored on another node as a stream
-- without errors, leave that node with exactly the store of the first in the place of its own.
pub restore_stream-dump_batches :
    {R : Type 0} (len : R → ℕ) (fuel budget : ℕ) (from to : Machine R)
    → IsSorted from.store
    → IsSorted to.store
    → length from.store < fuel
    → (pages : List (BTreeMap R)) × (dump_batches len fuel budget from ≡ some pages)
      × (restore_stream (map ok pages) to ≡ (ok tt, record to { store = from.store }))
restore_stream-dump_batches len fuel budget from to s t lt =
    let (pages, run, all) = dump_batches-concat len fuel budget from s lt in
    (
      pages,
      run,
      restore_stream-concat pages to t (subst IsSorted (sym all) s)
          ∙ ap (λ z. (ok tt, record to { store = z })) all,
    )

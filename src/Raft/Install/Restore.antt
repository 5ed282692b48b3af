-- ===== src/Raft/Install/Restore.antt =====
-- The restore of a node batch by batch: at any batch the store is sorted, and behind the last it is
-- what the batches hold.
use defing.Prelude.{List, [], ◌∷◌, ◌≡◌, sym, ◌∙◌, map}
use defing.BTreeMap.{BTreeMap}
use defing.BTreeMap.Order.{IsSorted}
use defing.Error.{ok}
use defing.Machine.Flush.{write_batch-IsSorted}
use defing.Store.{get_prefix_keys, write_batch, insert_all, remove_all}
use defing.Snapshots.{concat}
use defing.Snapshots.Restore.{
  insert_all-append, insert_all-write_batch, write_batch-all, concat-nil,
}
use defing.Raft.Io.{Fault, puts, Ensures, Ensures-bind, Ensures-puts}
use defing.Raft.Install.{Node, write_pairs, replace_pairs, restore_rest, restore_stream}

module _ {R F M : Type 0} (P : Node R F M → Type 0)
    (closed : (n : Node R F M) (s : BTreeMap R) → IsSorted s → P n → P (record n { store = s }))
    (sorted : (n : Node R F M) → P n → IsSorted n.store) where
  abbrev Reads : BTreeMap R → Node R F M → Type 0
  Reads s n = P n × (n.store ≡ s)

  restore_rest-Reads :
      (pages : List (BTreeMap R)) (s : BTreeMap R) (fs : List Fault) (n : Node R F M)
      → P n
      → insert_all (concat pages) n.store ≡ s
      → Ensures P (λ u. Reads s) P (restore_rest (map ok pages) fs n)
  unfolding restore_rest concat insert_all write_batch remove_all
  restore_rest-Reads [] s fs n p h = (p, h)
  restore_rest-Reads ([] ∷ pages) s fs n p h = restore_rest-Reads pages s fs n p h
  restore_rest-Reads ((kv ∷ page) ∷ pages) s fs n p h =
      Ensures-bind P P (λ u n'. P n' × (insert_all (concat pages) n'.store ≡ s)) (λ u. Reads s)
        (puts (write_pairs (kv ∷ page))) (λ u. restore_rest (map ok pages)) fs n
        (Ensures-puts P P (λ u n'. P n' × (insert_all (concat pages) n'.store ≡ s))
          (write_pairs (kv ∷ page)) fs n p p
          (
            closed n (write_batch (kv ∷ page) [] n.store)
                (write_batch-IsSorted (kv ∷ page) [] n.store (sorted n p)) p,
            sym (insert_all-append (kv ∷ page) (concat pages) n.store) ∙ h,
          ))
        (λ u gs n' q. restore_rest-Reads pages s gs n' q.0 q.1)

  pub restore_stream-Reads :
      (pages : List (BTreeMap R)) (fs : List Fault) (n : Node R F M)
      → IsSorted (concat pages)
      → P n
      → Ensures P (λ u. Reads (concat pages)) P (restore_stream (map ok pages) fs n)
  unfolding restore_stream
  restore_stream-Reads [] fs n t p =
      Ensures-puts P P (λ u. Reads (concat [])) (replace_pairs []) fs n p p
        (
          closed n (write_batch [] (get_prefix_keys n.store []) n.store)
              (write_batch-IsSorted [] (get_prefix_keys n.store []) n.store (sorted n p)) p,
          write_batch-all n.store (sorted n p) ∙ sym concat-nil,
        )
  restore_stream-Reads (page ∷ pages) fs n t p =
      Ensures-bind P P (λ u n'. P n' × (insert_all (concat pages) n'.store ≡ concat (page ∷ pages)))
        (λ u. Reads (concat (page ∷ pages))) (puts (replace_pairs page))
        (λ u. restore_rest (map ok pages)) fs n
        (Ensures-puts P P
          (λ u n'. P n' × (insert_all (concat pages) n'.store ≡ concat (page ∷ pages)))
          (replace_pairs page) fs n p p
          (
            closed n (write_batch page (get_prefix_keys n.store []) n.store)
                (write_batch-IsSorted page (get_prefix_keys n.store []) n.store (sorted n p)) p,
            insert_all-write_batch n.store page pages (sorted n p) t,
          ))
        (λ u gs n' q. restore_rest-Reads pages (concat (page ∷ pages)) gs n' q.0 q.1)

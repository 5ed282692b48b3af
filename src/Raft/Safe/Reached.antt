-- ===== src/Raft/Safe/Reached.antt =====
-- What an install and any number of starts after it can leave.
use defing.Prelude.{
  List, some, ◌≡◌, true, false, inl, inr, Bytes, codes, ◌++◌, Bool, map, ends_with,
}
use defing.BTreeMap.{BTreeMap, get}
use defing.BTreeMap.Order.{IsSorted}
use defing.Error.{Result, ok}
use defing.Snapshots.{concat}
use defing.Raft.Io.{Fault, node_of, Ensures}
use defing.Raft.Keeps.{Ensures-node_of}
use defing.Raft.Install.{SnapshotMeta, Node, install_snapshot}
use defing.Raft.Boot.{older_than, boot}
use defing.Raft.Safe.{Transfer, IsOld, IsSafe, IsFailed, IsStarted}
use defing.Raft.Safe.Installs.{install_snapshot-IsSafe}
use defing.Raft.Safe.Starts.{boot-IsStarted}

module _ {R F M : Type 0} (verify_payload_file : F → Result (Unit {0}))
    (read_payload_batches : F → Result (List (Result (BTreeMap R)))) where
  -- One install from the node `n`, with any faults; then starts, each with its faults and settings.
  pub data Reached (dir name src : Bytes) (meta : SnapshotMeta M) (n : Node R F M)
      : Node R F M → Type 0 where
    installs :
        (fs : List Fault)
        → Reached dir name src meta n (
            node_of
              (install_snapshot read_payload_batches verify_payload_file dir name meta src fs n))
    boots :
        (marks force_ignore : Bool) (fs : List Fault) (n' : Node R F M)
        → Reached dir name src meta n n'
        → Reached dir name src meta n
            (node_of (boot read_payload_batches dir marks force_ignore fs n'))

  module _ (t : Transfer R F M) (before_sorted : IsSorted t.store_before)
      (sorted : IsSorted (concat t.pages))
      (ahead : older_than t.marker.meta.last_log_id t.applied_before ≡ false)
      (reads : read_payload_batches t.content ≡ ok (map ok t.pages)) (dir name src : Bytes)
      (path : t.marker.payload ≡ dir ++ codes "/" ++ name)
      (named : ends_with t.marker.payload (codes ".part") ≡ false) (n : Node R F M)
      (old : IsOld t n) (marks : n.restore_marker ≡ true)
      (received : get src n.files ≡ some t.content) where
    pub Reached-IsSafe : (n' : Node R F M) → Reached dir name src t.marker.meta n n' → IsSafe t n'
    Reached-IsSafe n' (installs fs) =
        Ensures-node_of (IsSafe t)
          (install_snapshot read_payload_batches verify_payload_file dir name t.marker.meta src fs
            n)
          (λ m x. x) (λ u m x. inr (inr x.0)) (λ m x. failed m x)
          (install_snapshot-IsSafe t before_sorted sorted verify_payload_file read_payload_batches
            reads dir name src fs n path (old, marks) received)
      where
        failed : (m : Node R F M) → IsFailed t m → IsSafe t m
        failed m (inl x) = inl x
        failed m (inr (x, y)) = inr (inl y)
    Reached-IsSafe n' (boots mk force fs m r) =
        Ensures-node_of (IsSafe t) (boot read_payload_batches dir mk force fs m) (λ l x. x)
          (λ u l x. started l x) (λ l x. x)
          (boot-IsStarted t sorted ahead named read_payload_batches reads dir mk force fs m
            (Reached-IsSafe m r))
      where
        started : (l : Node R F M) → IsStarted t l → IsSafe t l
        started l (inl (inl x)) = inl x
        started l (inl (inr x)) = inr (inr x)
        started l (inr (x, y)) = inr (inl y)

    -- A snapshot install is safe against faults and cuts. Let a node with a sorted store, with the
    -- marker switched on and with no marker and no poison left, install a snapshot whose last entry
    -- is not before what the node has applied, whose received file reads as batches that are sorted
    -- together, and whose new file has a name that does not end in .part. Whatever calls of the
    -- disk fail during the install, wherever the node is cut off, and however many starts with
    -- their own faults, cuts and settings follow, a start that has a result leaves a node with the
    -- state from before the install, with exactly the state of the snapshot, or stopped behind the
    -- marker; and a start that ends with an error or is cut off leaves a node from which the same
    -- holds again.
    pub boot_reached-IsStarted :
        (n' : Node R F M)
        → Reached dir name src t.marker.meta n n'
        → (mk force_ignore : Bool) (fs : List Fault)
        → Ensures
            (IsSafe t)
            (λ r. IsStarted t)
            (IsSafe t)
            (boot read_payload_batches dir mk force_ignore fs n')
    boot_reached-IsStarted n' r mk force fs =
        boot-IsStarted t sorted ahead named read_payload_batches reads dir mk force fs n'
          (Reached-IsSafe n' r)

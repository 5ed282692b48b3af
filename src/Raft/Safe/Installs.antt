-- ===== src/Raft/Safe/Installs.antt =====
-- An install of a snapshot under any faults.
use defing.Prelude.{
  Bool, List, some, ◌≡◌, refl, sym, ◌∙◌, true, false, inl, inr, Bytes, codes, ◌++◌, map,
}
use mathlib.Core.Path.{subst}
use defing.BTreeMap.{BTreeMap, get}
use defing.BTreeMap.Order.{IsSorted}
use defing.Error.{Result, ErrorKind, ok, and_then}
use defing.Snapshots.{concat}
use defing.Raft.Io.{
  Fault, Io, throw, gets, puts, sets, handle, ◌>>=◌, ◌>>◌, Ensures, Ensures-handle, Ensures-bind,
  Ensures-puts, Ensures-gets,
}
use defing.Raft.Keeps.{Ensures-weaken}
use defing.Raft.Install.{
  Node, opened, clear_marker, put_marker, delete_old_snapshot_file, poison,
  restore_and_persist_inner, copy_payload_file, install_payload, install_snapshot,
}
use defing.Raft.Install.Copy.{copy_payload_file-Has}
use defing.Raft.Safe.{
  Transfer, IsOld, IsNew, IsInterrupted, IsReplaced, IsSafe, IsFailed, IsInstalled,
}
use defing.Raft.Safe.Restored.{
  read_content, delete_old_snapshot_file-IsReplaced, restore_and_persist_inner-IsReplaced,
  poison-IsStopped,
}

module _ {R F M : Type 0} (t : Transfer R F M) (before_sorted : IsSorted t.store_before)
    (sorted : IsSorted (concat t.pages)) where
  -- before the marker is written
  abbrev IsReady : Node R F M → Type 0
  IsReady n = IsOld t n × (n.restore_marker ≡ true)

  abbrev Installed : Unit {0} → Node R F M → Type 0
  Installed u = IsInstalled t

  abbrev install_end : Unit {0} → Io (Node R F M) Unit
  install_end v = sets (λ m. record m {
    poisoned = false;
    current_snapshot = some (t.marker.meta, t.marker.payload);
  })

  stop :
      (e : ErrorKind) (fs : List Fault) (n : Node R F M)
      → IsInterrupted t n
      → Ensures (IsSafe t) Installed (IsFailed t) ((poison >> throw e) fs n)
  stop e fs n p = poison-IsStopped t Installed (IsFailed t) (throw e) fs n p (λ gs n' q. inr q)

  -- the end of an install: the marker goes
  marker_clears :
      (u : Unit {0}) (fs : List Fault) (n : Node R F M)
      → IsReplaced t n
      → Ensures
          (IsSafe t)
          Installed
          (IsFailed t)
          (handle (puts clear_marker) install_end (λ e. poison >> throw e) fs n)
  marker_clears u fs n p =
      Ensures-handle (IsSafe t) (IsFailed t) (λ v m. IsNew t m) (IsInterrupted t) Installed
        (puts clear_marker) install_end (λ e. poison >> throw e) fs n
        (Ensures-puts (IsSafe t) (IsInterrupted t) (λ v m. IsNew t m) clear_marker fs n
          (inr (inl p.0)) p.0 (p.1.0, p.1.1, p.1.2, refl, refl))
        (λ v gs m q. (q, refl)) (λ e gs m q. stop e gs m q)

  -- the change of the state and the end
  replaced :
      (fs : List Fault) (n : Node R F M)
      → IsInterrupted t n
      → Ensures (IsSafe t) Installed (IsFailed t) (
          handle
            (restore_and_persist_inner t.marker.meta (map ok t.pages) t.marker.payload)
            (λ old.
              delete_old_snapshot_file old t.marker.payload
              >> handle (puts clear_marker) install_end (λ e. poison >> throw e))
            (λ e. poison >> throw e)
            fs
            n)
  replaced fs n p =
      let clearing : Io (Node R F M) Unit =
        handle (puts clear_marker) install_end (λ e. poison >> throw e) in
      Ensures-handle (IsSafe t) (IsFailed t) (λ old. IsReplaced t) (IsInterrupted t) Installed
        (restore_and_persist_inner t.marker.meta (map ok t.pages) t.marker.payload)
        (λ old. delete_old_snapshot_file old t.marker.payload >> clearing) (λ e. poison >> throw e)
        fs n
        (Ensures-weaken
          (restore_and_persist_inner t.marker.meta (map ok t.pages) t.marker.payload fs n)
          (λ m q. inr (inl q)) (λ old m q. q) (λ m q. q)
          (restore_and_persist_inner-IsReplaced t sorted fs n p))
        (λ old gs m q.
          Ensures-bind (IsSafe t) (IsFailed t) (λ u. IsReplaced t) Installed
            (delete_old_snapshot_file old t.marker.payload) (λ u. clearing) gs m
            (delete_old_snapshot_file-IsReplaced t (IsSafe t) (IsFailed t) old gs m
              (λ l r. inr (inl r.0)) q)
            (λ u hs l r. marker_clears u hs l r))
        (λ e gs m q. stop e gs m q)

  install_payload-IsSafe :
      (fs : List Fault) (n : Node R F M)
      → IsReady n
      → get t.marker.payload n.files ≡ some t.content
      → Ensures
          (IsSafe t)
          Installed
          (IsFailed t)
          (install_payload t.marker.meta t.marker.payload (map ok t.pages) fs n)
  unfolding install_payload put_marker
  install_payload-IsSafe fs n p h =
      let k : Io (Node R F M) Unit =
        handle (restore_and_persist_inner t.marker.meta (map ok t.pages) t.marker.payload)
          (λ old.
            delete_old_snapshot_file old t.marker.payload
            >> handle (puts clear_marker) install_end (λ e. poison >> throw e))
          (λ e. poison >> throw e) in
      let set_marker : Node R F M → Node R F M =
        λ m. record m { restore_begin = some (ok t.marker) } in
      let marked : (marks : Bool)
          → marks ≡ true
          → Ensures (IsSafe t) Installed (IsFailed t) ((put_marker marks t.marker >> k) fs n) =
        λ marks on. rw on (
          Ensures-bind (IsSafe t) (IsFailed t) (λ u. IsInterrupted t) Installed (puts set_marker)
            (λ u. k) fs n
            (Ensures-puts (IsSafe t) (IsFailed t) (λ u. IsInterrupted t) set_marker fs n (inl p.0)
              (inl p.0) (refl, h, inl p.0.1, subst IsSorted (sym p.0.0) before_sorted))
            (λ u hs l r. replaced hs l r)) in
      marked n.restore_marker p.1

  module _ (verify_payload_file : F → Result (Unit {0}))
      (read_payload_batches : F → Result (List (Result (BTreeMap R))))
      (reads : read_payload_batches t.content ≡ ok (map ok t.pages)) where
    payload_read :
        (to : Bytes) (fs : List Fault) (n : Node R F M)
        → IsReady n
        → to ≡ t.marker.payload
        → get t.marker.payload n.files ≡ some t.content
        → Ensures (IsSafe t) Installed (IsFailed t) (
            (gets (λ m. and_then (opened (get to m.files)) read_payload_batches)
                >>= install_payload t.marker.meta to)
              fs n)
    payload_read to fs n p same h = rw same (
        let read : Node R F M → Result (List (Result (BTreeMap R))) =
          λ m. and_then (opened (get t.marker.payload m.files)) read_payload_batches in
        let Q : List (Result (BTreeMap R)) → Node R F M → Type 0 = λ batches m.
          (IsReady m × (get t.marker.payload m.files ≡ some t.content))
          × (batches ≡ map ok t.pages) in
        Ensures-bind (IsSafe t) (IsFailed t) Q Installed (gets read)
          (install_payload t.marker.meta t.marker.payload) fs n
          (Ensures-gets (IsSafe t) (IsFailed t) Q read fs n (inl p.0) (inl p.0)
            (λ batches eq. ((p, h), read_content t read_payload_batches reads n h batches eq)))
          (λ batches gs m q. rw q.1 (install_payload-IsSafe gs m q.0.0 q.0.1)))

    -- An install on a node with a sorted store, with the marker switched on and with no marker and
    -- no poison left, of a received file whose content reads as batches that are sorted together,
    -- which succeeds leaves exactly the state of the snapshot, no marker and a node that serves;
    -- one that ends with an error leaves the state from before, or a node that is stopped with its
    -- marker and payload in place; one that is cut off leaves the state from before, the marker
    -- with its payload, or the state of the snapshot.
    pub install_snapshot-IsSafe :
        (dir name src : Bytes) (fs : List Fault) (n : Node R F M)
        → t.marker.payload ≡ dir ++ codes "/" ++ name
        → IsReady n
        → get src n.files ≡ some t.content
        → Ensures (IsSafe t) Installed (IsFailed t) (
            install_snapshot read_payload_batches verify_payload_file dir name t.marker.meta src fs
              n)
    unfolding install_snapshot
    install_snapshot-IsSafe dir name src fs n named p h =
        let path = dir ++ codes "/" ++ name in
        let verify : Node R F M → Result (Unit {0}) =
          λ m. and_then (opened (get src m.files)) verify_payload_file in
        let k : Bytes → Io (Node R F M) Unit = λ to.
          gets (λ m. and_then (opened (get to m.files)) read_payload_batches)
          >>= install_payload t.marker.meta to in
        let Received : Node R F M → Type 0 = λ m. IsReady m × (get src m.files ≡ some t.content) in
        let Copied : Bytes → Node R F M → Type 0 =
          λ to m. (IsReady m × (get path m.files ≡ some t.content)) × (to ≡ path) in
        Ensures-bind (IsSafe t) (IsFailed t) (λ u. Received) Installed (gets verify)
          (λ u. copy_payload_file dir name src >>= k) fs n
          (Ensures-gets (IsSafe t) (IsFailed t) (λ u. Received) verify fs n (inl p.0) (inl p.0)
            (λ u eq. (p, h)))
          (λ u gs m q.
            Ensures-bind (IsSafe t) (IsFailed t) Copied Installed (copy_payload_file dir name src) k
              gs m
              (Ensures-weaken (copy_payload_file dir name src gs m) (λ l r. inl r.0) (λ to l r. r)
                (λ l r. inl r.0)
                (copy_payload_file-Has IsReady t.content (λ l files r. r) dir name src gs m q.0
                  q.1))
              (λ to hs l r. payload_read to hs l r.0.0 (r.1 ∙ sym named) (rw named r.0.1)))

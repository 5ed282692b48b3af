-- ===== src/Raft/Safe/Recovers.antt =====
-- A start without a fault, after an install and starts with any faults.
use defing.Prelude.{
  List, [], Option, none, some, ◌≡◌, refl, ap, ◌∙◌, true, false, ◌⊎◌, inl, inr, Bytes, codes, ◌++◌,
  Bool, map, ends_with,
}
use mathlib.Core.Option
use mathlib.Core.Path.{subst}
use defing.BTreeMap.{BTreeMap, get}
use defing.BTreeMap.Order.{IsSorted}
use defing.Error.{Result, ok, and_then}
use defing.Snapshots.{concat}
use defing.Raft.Io.{done, Io, pure, gets, puts, sets, ◌>>=◌, ◌>>◌, attempt, Ensures}
use defing.Raft.Calm.{
  bind-calm, restore_and_persist_inner-calm, delete_old_snapshot_file-calm,
  sweep_snapshot_payloads-calm, new_with_rotation-calm,
}
use defing.Raft.Install.{
  LogId, SnapshotMeta, Node, opened, clear_marker, delete_old_snapshot_file,
  restore_and_persist_inner,
}
use defing.Raft.Boot.{
  older_than, sweep_snapshot_payloads, new_with_rotation, replay_restore, recover_from,
  recover_interrupted_restore_with, boot,
}
use defing.Raft.Safe.{Transfer, IsOld, IsNew, IsInterrupted, IsSafe, IsStarted, Settled}
use defing.Raft.Safe.Quiet.{older_than-IsInterrupted, new_with_rotation-IsInterrupted}
use defing.Raft.Safe.Reached.{Reached, Reached-IsSafe, boot_reached-IsStarted}

module _ {R F M : Type 0} (read_payload_batches : F → Result (List (Result (BTreeMap R)))) where
  -- the start has a result, and the node is not stopped
  abbrev Starts : Bytes → Bool → Node R F M → Type 0
  Starts dir marks n =
      (r : Option (SnapshotMeta M)) × (n' : Node R F M) × (boot read_payload_batches dir marks false
          [] n
        ≡ done (ok r) n' [])
      × (n'.poisoned ≡ false)

  boot-Settled_calm :
      (s : BTreeMap R) (l : Option LogId) (mb : M) (dir : Bytes) (marks : Bool) (n : Node R F M)
      → Settled s l mb n
      → Starts dir marks n
  unfolding boot recover_interrupted_restore_with recover_from gets
  boot-Settled_calm s l mb dir marks n p =
      let rotated = new_with_rotation-calm dir marks n in
      let n' = record n {
        files = rotated.0;
        registry = rotated.1;
        poisoned = n.restore_poison;
        current_snapshot = none;
        restore_marker = marks;
      } in
      (
        none,
        n',
        bind-calm (new_with_rotation dir marks)
            (λ u. recover_interrupted_restore_with read_payload_batches dir false) n rotated.2
            (ap (λ raw. recover_from read_payload_batches dir false raw [] n') p.3),
        p.4,
      )

  module _ (t : Transfer R F M) (sorted : IsSorted (concat t.pages))
      (reads : read_payload_batches t.content ≡ ok (map ok t.pages)) where
    replay_restore-calm :
        (dir : Bytes) (n : Node R F M)
        → IsInterrupted t n
        → (r : Option (SnapshotMeta M)) × (n' : Node R F M) × (replay_restore read_payload_batches
              dir t.marker [] n
            ≡ done (ok r) n' [])
          × (n'.poisoned ≡ false)
    unfolding replay_restore gets puts
    replay_restore-calm dir n p =
        let meta = t.marker.meta in
        let path = t.marker.payload in
        let old = Option.map (λ r. r.1) n.registry in
        let n1 : Node R F M = record n {
          store = concat t.pages;
          last_applied = meta.last_log_id;
          membership = meta.last_membership;
          registry = some (meta, path);
        } in
        let deleted = delete_old_snapshot_file-calm old path n1 in
        let n2 : Node R F M = record n1 {
          files = deleted.0;
          restore_poison = false;
          restore_begin = none;
          poisoned = false;
        } in
        let swept = sweep_snapshot_payloads-calm dir n2 in
        let swept_io : Io (Node R F M) (Option (SnapshotMeta M)) =
          attempt (sweep_snapshot_payloads dir) >> pure (some meta) in
        let end : Io (Node R F M) (Option (SnapshotMeta M)) =
          puts clear_marker >> (sets (λ m. record m { poisoned = false }) >> swept_io) in
        let behind : Option Bytes → Io (Node R F M) (Option (SnapshotMeta M)) =
          λ o. delete_old_snapshot_file o path >> end in
        (
          some meta,
          record n2 { files = swept.0 },
          bind-calm (gets (λ m. and_then (opened (get path m.files)) read_payload_batches))
              (λ batches. restore_and_persist_inner meta batches path >>= behind) n
              (ap (λ r. done r n [])
                (ap (λ o. and_then (opened o) read_payload_batches) p.1 ∙ reads))
              (bind-calm (restore_and_persist_inner meta (map ok t.pages) path) behind n
                (restore_and_persist_inner-calm meta t.pages path n p.3 sorted)
                (bind-calm (delete_old_snapshot_file old path) (λ u. end) n1 deleted.1
                  (bind-calm (attempt (sweep_snapshot_payloads dir)) (λ u. pure (some meta)) n2
                    swept.1 refl))),
          refl,
        )

    boot-IsInterrupted_calm :
        (dir : Bytes) (marks : Bool) (n : Node R F M)
        → older_than t.marker.meta.last_log_id t.applied_before ≡ false
        → ends_with t.marker.payload (codes ".part") ≡ false
        → IsInterrupted t n
        → Starts dir marks n
    unfolding boot recover_interrupted_restore_with recover_from gets
    boot-IsInterrupted_calm dir marks n ahead named p =
        let rotated = new_with_rotation-calm dir marks n in
        let n' : Node R F M = record n {
          files = rotated.0;
          registry = rotated.1;
          poisoned = n.restore_poison;
          current_snapshot = none;
          restore_marker = marks;
        } in
        let kept : IsInterrupted t n' =
          subst (Ensures (IsInterrupted t) (λ u. IsInterrupted t) (IsInterrupted t)) rotated.2
            (new_with_rotation-IsInterrupted t named dir marks [] n p) in
        let replayed = replay_restore-calm dir n' kept in
        (
          replayed.0,
          replayed.1,
          bind-calm (new_with_rotation dir marks)
              (λ u. recover_interrupted_restore_with read_payload_batches dir false) n rotated.2
              (ap (λ raw. recover_from read_payload_batches dir false raw [] n') kept.0
                ∙ rw (older_than-IsInterrupted t ahead n' kept.2) replayed.2),
          replayed.3,
        )

  module _ (verify_payload_file : F → Result (Unit {0})) (t : Transfer R F M)
      (before_sorted : IsSorted t.store_before) (sorted : IsSorted (concat t.pages))
      (ahead : older_than t.marker.meta.last_log_id t.applied_before ≡ false)
      (reads : read_payload_batches t.content ≡ ok (map ok t.pages)) (dir name src : Bytes)
      (path : t.marker.payload ≡ dir ++ codes "/" ++ name)
      (named : ends_with t.marker.payload (codes ".part") ≡ false) (n : Node R F M)
      (old : IsOld t n) (marks : n.restore_marker ≡ true)
      (received : get src n.files ≡ some t.content) where
    safe-Starts : (mk : Bool) (n' : Node R F M) → IsSafe t n' → Starts dir mk n'
    safe-Starts mk n' (inl x) =
        boot-Settled_calm t.store_before t.applied_before t.membership_before dir mk n' x
    safe-Starts mk n' (inr (inl x)) = boot-IsInterrupted_calm t sorted reads dir mk n' ahead named x
    safe-Starts mk n' (inr (inr x)) =
        boot-Settled_calm (concat t.pages) t.marker.meta.last_log_id t.marker.meta.last_membership
          dir mk n' x

    serving : (m : Node R F M) → m.poisoned ≡ false → IsStarted t m → IsOld t m ⊎ IsNew t m
    serving m h (inl x) = x
    serving m h (inr (x, y)) = cc

    -- A node recovers. Let a node with a sorted store, with the marker switched on and with no
    -- marker and no poison left, install a snapshot whose last entry is not before what the node
    -- has applied, whose received file reads as batches that are sorted together, and whose new
    -- file has a name that does not end in .part. After the install and any number of starts, with
    -- any faults and cuts, one start in which no call of the disk fails, without the order to
    -- ignore the marker, has a result, the node is not stopped, and it has the state from before
    -- the install or exactly the state of the snapshot: its rows, its last applied entry and its
    -- membership.
    pub boot_reached-calm :
        (n' : Node R F M)
        → Reached verify_payload_file read_payload_batches dir name src t.marker.meta n n'
        → (mk : Bool)
        → (r : Option (SnapshotMeta M)) × (m : Node R F M) × (boot read_payload_batches dir mk false
              [] n'
            ≡ done (ok r) m [])
          × (m.poisoned ≡ false)
          × (IsOld t m ⊎ IsNew t m)
    boot_reached-calm n' reach mk =
        let (r, m, h, free) = safe-Starts mk n' (
          Reached-IsSafe verify_payload_file read_payload_batches t before_sorted sorted ahead reads
            dir name src path named n old marks received n' reach) in
        let started =
          boot_reached-IsStarted verify_payload_file read_payload_batches t before_sorted sorted
            ahead reads dir name src path named n old marks received n' reach mk false [] in
        (
          r,
          m,
          h,
          free,
          serving m free (subst (Ensures (IsSafe t) (λ x. IsStarted t) (IsSafe t)) h started),
        )

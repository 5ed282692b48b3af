-- ===== src/Raft/Safe/Starts.antt =====
-- The start of a node that an install left behind, under any faults.
use defing.Prelude.{
  List, Option, none, some, ◌≡◌, refl, sym, ◌∙◌, Bool, true, false, inl, inr, Bytes, codes, map,
  ends_with, if◌then◌else◌,
}
use defing.BTreeMap.{BTreeMap, get}
use defing.BTreeMap.Order.{IsSorted}
use defing.Error.{Result, ok, ok-injective, and_then}
use defing.Snapshots.{concat}
use defing.Raft.Io.{
  Fault, Io, pure, gets, puts, sets, ◌>>=◌, ◌>>◌, attempt, Ensures, Ensures-bind, Ensures-puts,
  Ensures-gets,
}
use defing.Raft.Keeps.{Keeps-attempt, Ensures-weaken}
use defing.Raft.Install.{
  LogId, SnapshotMeta, RestoreBegin, Node, opened, clear_marker, delete_old_snapshot_file, poison,
  restore_and_persist_inner,
}
use defing.Raft.Boot.{
  older_than, sweep_snapshot_payloads, new_with_rotation, replay_restore, recover_from,
  recover_interrupted_restore_with, boot,
}
use defing.Raft.Safe.{Transfer, IsNew, IsInterrupted, IsReplaced, IsSafe, IsStarted}
use defing.Raft.Safe.Restored.{
  read_content, delete_old_snapshot_file-IsReplaced, restore_and_persist_inner-IsReplaced,
  poison-IsStopped,
}
use defing.Raft.Safe.Quiet.{
  sweep-Settled, boot-Settled, older_than-IsInterrupted, new_with_rotation-IsInterrupted,
}

module _ {R F M : Type 0} (t : Transfer R F M) (sorted : IsSorted (concat t.pages))
    (ahead : older_than t.marker.meta.last_log_id t.applied_before ≡ false)
    (named : ends_with t.marker.payload (codes ".part") ≡ false)
    (read_payload_batches : F → Result (List (Result (BTreeMap R))))
    (reads : read_payload_batches t.content ≡ ok (map ok t.pages)) where
  abbrev Started : Option (SnapshotMeta M) → Node R F M → Type 0
  Started r = IsStarted t

  -- the end of a replay: the marker goes, then the files that are not needed
  replay_restore_end :
      (dir : Bytes) (fs : List Fault) (n : Node R F M)
      → IsReplaced t n
      → Ensures (IsSafe t) Started (IsSafe t) (
          (puts clear_marker
              >> (sets (λ m. record m { poisoned = false })
                  >> (attempt (sweep_snapshot_payloads dir) >> pure (some t.marker.meta))))
            fs n)
  replay_restore_end dir fs n p =
      let I = IsSafe t in
      let New : Unit {0} → Node R F M → Type 0 = λ u. IsNew t in
      let swept : Io (Node R F M) (Option (SnapshotMeta M)) =
        attempt (sweep_snapshot_payloads dir) >> pure (some t.marker.meta) in
      let keeps =
        sweep-Settled {F = F} (concat t.pages) t.marker.meta.last_log_id
          t.marker.meta.last_membership dir in
      Ensures-bind I I New Started (puts clear_marker)
        (λ u. sets (λ m. record m { poisoned = false }) >> swept) fs n
        (Ensures-puts I I New clear_marker fs n (inr (inl p.0)) (inr (inl p.0))
          (p.1.0, p.1.1, p.1.2, refl, refl))
        (λ u gs m q.
          Ensures-bind I I New Started (attempt (sweep_snapshot_payloads dir))
            (λ v. pure (some t.marker.meta)) gs (record m { poisoned = false })
            (Ensures-weaken
              (attempt (sweep_snapshot_payloads dir) gs (record m { poisoned = false }))
              (λ l x. inr (inr x)) (λ v l x. x) (λ l x. inr (inr x))
              (Keeps-attempt (IsNew t) (sweep_snapshot_payloads dir) keeps gs
                (record m { poisoned = false }) q))
            (λ v hs l x. inl (inr x)))

  -- the replay of an install that was cut off
  replay_restore-IsStarted :
      (dir : Bytes) (fs : List Fault) (n : Node R F M)
      → IsInterrupted t n
      → Ensures
          (IsSafe t)
          Started
          (IsSafe t)
          (replay_restore read_payload_batches dir t.marker fs n)
  unfolding replay_restore
  replay_restore-IsStarted dir fs n p =
      let I = IsSafe t in
      let read : Node R F M → Result (List (Result (BTreeMap R))) =
        λ m. and_then (opened (get t.marker.payload m.files)) read_payload_batches in
      let Q : List (Result (BTreeMap R)) → Node R F M → Type 0 =
        λ batches m. IsInterrupted t m × (batches ≡ map ok t.pages) in
      let end : Io (Node R F M) (Option (SnapshotMeta M)) =
        puts clear_marker
        >> (sets (λ m. record m { poisoned = false })
            >> (attempt (sweep_snapshot_payloads dir) >> pure (some t.marker.meta))) in
      let behind : Option Bytes → Io (Node R F M) (Option (SnapshotMeta M)) =
        λ old. delete_old_snapshot_file old t.marker.payload >> end in
      let new_here : (m : Node R F M) → IsNew t m → I m = λ m q. inr (inr q) in
      Ensures-bind I I Q Started (gets read)
        (λ batches. restore_and_persist_inner t.marker.meta batches t.marker.payload >>= behind) fs
        n
        (Ensures-gets I I Q read fs n (inr (inl p)) (inr (inl p))
          (λ batches h. (p, read_content t read_payload_batches reads n p.1 batches h)))
        (λ batches gs m q. rw q.1 (
          Ensures-bind I I (λ old. IsReplaced t) Started
            (restore_and_persist_inner t.marker.meta (map ok t.pages) t.marker.payload) behind gs m
            (Ensures-weaken
              (restore_and_persist_inner t.marker.meta (map ok t.pages) t.marker.payload gs m)
              (λ l x. inr (inl x)) (λ old l x. x) (λ l x. inr (inl x))
              (restore_and_persist_inner-IsReplaced t sorted gs m q.0))
            (λ old hs l r.
              Ensures-bind I I (λ u. IsReplaced t) Started
                (delete_old_snapshot_file old t.marker.payload) (λ u. end) hs l
                (delete_old_snapshot_file-IsReplaced t I I old hs l (λ k x. inr (inl x.0)) r)
                (λ u is k x. replay_restore_end dir is k x))))

  recover_from-IsStarted :
      (dir : Bytes) (force : Bool) (fs : List Fault) (n : Node R F M)
      → IsInterrupted t n
      → Ensures
          (IsSafe t)
          Started
          (IsSafe t)
          (recover_from read_payload_batches dir force (some (ok t.marker)) fs n)
  unfolding recover_from
  recover_from-IsStarted dir force fs n p =
      let I = IsSafe t in
      let Q : Option LogId → Node R F M → Type 0 =
        λ applied m. IsInterrupted t m × (older_than t.marker.meta.last_log_id applied ≡ false) in
      let k : Option LogId → Io (Node R F M) (Option (SnapshotMeta M)) = λ applied.
        if older_than t.marker.meta.last_log_id applied
        then puts (λ m. record m { restore_begin = none }) >> pure none
        else if force
        then poison >> pure none
        else replay_restore read_payload_batches dir t.marker in
      Ensures-bind I I Q Started (gets (λ m. ok m.last_applied)) k fs n
        (Ensures-gets I I Q (λ m. ok m.last_applied) fs n (inr (inl p)) (inr (inl p))
          (λ applied h. (p, rw (sym (ok-injective h)) (older_than-IsInterrupted t ahead n p.2))))
        (λ applied gs m q. rw q.1 (by_force force gs m q.0))
    where
      by_force :
          (b : Bool) (gs : List Fault) (m : Node R F M)
          → IsInterrupted t m
          → Ensures (IsSafe t) Started (IsSafe t) (
              (if b then poison >> pure none else replay_restore read_payload_batches dir t.marker)
                gs m)
      by_force true gs m q =
          poison-IsStopped t Started (IsSafe t) (pure none) gs m q (λ hs l x. inr x)
      by_force false gs m q = replay_restore-IsStarted dir gs m q

  boot-IsInterrupted :
      (dir : Bytes) (marks force_ignore : Bool) (fs : List Fault) (n : Node R F M)
      → IsInterrupted t n
      → Ensures
          (IsSafe t)
          Started
          (IsSafe t)
          (boot read_payload_batches dir marks force_ignore fs n)
  unfolding boot recover_interrupted_restore_with
  boot-IsInterrupted dir marks force fs n p =
      let I = IsSafe t in
      let P : Node R F M → Type 0 = IsInterrupted t in
      let Q : Option (Result (RestoreBegin M)) → Node R F M → Type 0 =
        λ raw m. P m × (raw ≡ some (ok t.marker)) in
      Ensures-bind I I (λ u. P) Started (new_with_rotation dir marks)
        (λ u. recover_interrupted_restore_with read_payload_batches dir force) fs n
        (Ensures-weaken (new_with_rotation dir marks fs n) (λ m x. inr (inl x)) (λ u m x. x)
          (λ m x. inr (inl x)) (new_with_rotation-IsInterrupted t named dir marks fs n p))
        (λ u gs m q.
          Ensures-bind I I Q Started (gets (λ x. ok x.restore_begin))
            (recover_from read_payload_batches dir force) gs m
            (Ensures-gets I I Q (λ x. ok x.restore_begin) gs m (inr (inl q)) (inr (inl q))
              (λ raw h. (q, sym (ok-injective h) ∙ q.0)))
            (λ raw hs x r. rw r.1 (recover_from-IsStarted dir force hs x r.0)))

  pub boot-IsStarted :
      (dir : Bytes) (marks force_ignore : Bool) (fs : List Fault) (n : Node R F M)
      → IsSafe t n
      → Ensures
          (IsSafe t)
          Started
          (IsSafe t)
          (boot read_payload_batches dir marks force_ignore fs n)
  boot-IsStarted dir marks force fs n (inl old) =
      Ensures-weaken (boot read_payload_batches dir marks force fs n) (λ m x. inl x)
        (λ r m x. inl (inl x)) (λ m x. inl x)
        (boot-Settled t.store_before t.applied_before t.membership_before read_payload_batches dir
          marks force fs n old)
  boot-IsStarted dir marks force fs n (inr (inl p)) = boot-IsInterrupted dir marks force fs n p
  boot-IsStarted dir marks force fs n (inr (inr new)) =
      Ensures-weaken (boot read_payload_batches dir marks force fs n) (λ m x. inr (inr x))
        (λ r m x. inl (inr x)) (λ m x. inr (inr x))
        (boot-Settled (concat t.pages) t.marker.meta.last_log_id t.marker.meta.last_membership
          read_payload_batches dir marks force fs n new)

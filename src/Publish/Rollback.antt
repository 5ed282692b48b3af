-- ===== src/Publish/Rollback.antt =====
-- What a rollback does on each of its branches.
use defing.Prelude.{
  ℕ, suc, ◌<◌, ◌≤◌, false, ◌||◌, List, [], ◌∷◌, none, some, ◌≡◌, refl, sym, ◌∙◌, arith, Bytes, leb,
  ◌==◌, Option-cases, inl, inr,
}
use defing.Prelude.Int.{ℤ}
use defing.Model.Reread.{IsExact}
use defing.Diff.{compute_diff}
use defing.Diff.RoundTrip.{IsSnapshot}
use defing.Error.{Result, ok, not_found, ok-injective}
use mathlib.Core.Path.{subst}
use defing.Version.History.{history, snapshot_of-history}
use defing.Keys.{branch_state_key}
use defing.Model.{BranchState, SnapshotMap, VersionRecord, EventType, PublishEvent, full}
use defing.Publish.{is_request, operator_id, active_snapshot, apply_rollback}
use defing.Publish.Effect.{active_snapshot-read, active_snapshot-IsSnapshot}
use defing.Reads.{expect}
use defing.Serde.{Serde, Kind, Sm, read_back, load_merged}
use defing.Version.{snapshot_of}
use defing.Version.Commit.{commit, IsChain, commit-state, commit-IsNextVersion, commit-IsChain}
use defing.Version.Write.{IsNextVersion}

module _ (S : Serde) (id branch comment request_id operator : Bytes) (now_ms : ℤ) (m : Sm S) where
  abbrev pub rollback_run : ℕ → Result (List PublishEvent) × Sm S
  rollback_run to = apply_rollback S id branch to comment request_id now_ms operator m

  abbrev pub rollback_record : ℕ → BranchState → VersionRecord
  rollback_record to st = record {
    no = suc st.active_version;
    structure_version = st.structure_version;
    created_at = now_ms;
    operator = operator_id operator;
    comment = comment;
    rollback_of = some to;
    kind = full;
    snapshot_ref = none;
    diff_ref = none;
    event_ty = some EventType.rollback;
    gray = false;
  }

  abbrev pub rolled_state : BranchState → BranchState
  rolled_state st = record st {
    active_version = suc st.active_version;
    last_request_id = some request_id;
  }

  abbrev pub rollback_event : BranchState → SnapshotMap → SnapshotMap → PublishEvent
  rollback_event st old snap = record {
    project = id;
    branch = branch;
    version = suc st.active_version;
    ty = EventType.rollback;
    structure_version = st.structure_version;
    comment = comment;
    request_id = request_id;
    changes = compute_diff old snap;
    gray = false;
  }

  -- a version of a readable branch, and what `snapshot_of` answers for it
  version-read :
      (to n : ℕ) (snap : SnapshotMap)
      → IsChain S id branch m n
      → 0 < to
      → to ≤ n
      → snapshot_of S id branch to m ≡ ok snap
      → IsSnapshot snap
  version-read to n snap chain pos le h = elim (Option-cases (history S id branch m to)) [
    | inl missing ↦ absurd (ground (arith, missing, chain.readable to pos le))
    | inr (s, there) ↦
        subst IsSnapshot
          (ok-injective (
            sym (
              snapshot_of-history S id branch m to s pos (λ v p l. chain.readable v p (omega arith))
                there)
            ∙ h))
          (chain.sorted to s le there)
  ]

  module _ (st : BranchState) (to : ℕ)
      (has_state : expect S Kind.branch_state not_found (branch_state_key id branch) m ≡ ok st)
      (fresh : is_request st.last_request_id request_id ≡ false) (pos : 0 < to)
      (earlier : to < st.active_version) where
    apply_rollback-run :
        (snap old : SnapshotMap)
        → snapshot_of S id branch to m ≡ ok snap
        → active_snapshot S id branch st.active_version m ≡ ok old
        → rollback_run to ≡ (
          ok (rollback_event st old snap ∷ []),
          commit S id branch st.active_version old snap (rollback_record to st) (rolled_state st) m,
        )
    unfolding apply_rollback
    apply_rollback-run snap old has_snap has_old =
        rw (has_state, fresh, allowed, has_snap, has_old) refl
      where
        allowed : ((to == 0) || leb st.active_version to) ≡ false
        allowed = ground arith

    -- A rollback to an earlier version of a readable branch, which is no repetition of the last
    -- request, succeeds and makes the content of that version the next version, where no float of
    -- that content changes when it is written and read: the new version is read back item by item
    -- as that content (up to the program's own comparison of values), every earlier version is read
    -- as before, the branch's state is read back with the new active version and the request's id
    -- and is else the old one, but for what one write and one read make of the floats of its draft,
    -- one event tells of it, and the branch is readable again.
    pub apply_rollback-IsNextVersion :
        (snap old : SnapshotMap)
        → IsChain S id branch m st.active_version
        → snapshot_of S id branch to m ≡ ok snap
        → active_snapshot S id branch st.active_version m ≡ ok old
        → IsExact S.reread_float snap
        → ((rollback_run to).0 ≡ ok (rollback_event st old snap ∷ []))
          × IsNextVersion S id branch st.active_version old snap
              (rollback_record to st)
              m
              (rollback_run to).1
          × (load_merged S Kind.branch_state (branch_state_key id branch) (rollback_run to).1
              ≡ ok (some (read_back S Kind.branch_state (rolled_state st))))
          × IsChain S id branch (rollback_run to).1 (suc st.active_version)
    apply_rollback-IsNextVersion snap old chain has_snap has_old exact =
        let n = st.active_version in
        let rec : VersionRecord = rollback_record to st in
        let st' : BranchState = rolled_state st in
        let before : (0 < n → snapshot_of S id branch n m ≡ ok old) =
          active_snapshot-read S id branch n old m has_old in
        let so : IsSnapshot old = active_snapshot-IsSnapshot S id branch n old m chain has_old in
        let sn : IsSnapshot snap = version-read to n snap chain pos (omega arith) has_snap in
        subst
          (λ (r : Result (List PublishEvent) × Sm S).
            (r.0 ≡ ok (rollback_event st old snap ∷ []))
            × IsNextVersion S id branch n old snap rec m r.1
            × (load_merged S Kind.branch_state (branch_state_key id branch) r.1
                ≡ ok (some (read_back S Kind.branch_state st')))
            × IsChain S id branch r.1 (suc n))
          (sym (apply_rollback-run snap old has_snap has_old))
          (
            refl,
            commit-IsNextVersion S id branch n old snap rec st' m chain before so sn exact,
            commit-state S id branch n old snap rec st' m,
            commit-IsChain S id branch n old snap rec st' m chain before so sn exact,
          )

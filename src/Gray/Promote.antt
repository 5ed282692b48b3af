-- ===== src/Gray/Promote.antt =====
-- The promotion of a gray release on a branch whose numbers have no gap.
use mathlib.Core.Path.{subst}
use defing.Prelude.{
  ℕ, suc, ◌≤◌, ◌<◌, false, true, some, [], ◌∷◌, List, ◌≡◌, refl, ap, sym, ◌∙◌, arith, Bytes,
  is_some, bytes_eq_refl,
}
use defing.Prelude.Int.{ℤ}
use defing.Model.Reread.{IsExact}
use defing.Diff.RoundTrip.{IsSnapshot}
use defing.Error.{Result, ok, not_found}
use defing.Gray.{no_gray}
use defing.Gray.Commands.{next_monotonic, gray_snapshot_of, apply_gray_promote}
use defing.Gray.Effect.{promote_record, promoted_state, promote_event, apply_gray_promote-run}
use defing.Gray.Stable.{SameStored-delete, SameStored-state}
use defing.Keys.{branch_state_key, gray_snap_key}
use defing.Machine.{delete_pending}
use defing.Model.{BranchState, SnapshotMap, VersionRecord, PublishEvent}
use defing.Publish.{is_request, active_snapshot}
use defing.Publish.Effect.{active_snapshot-read, active_snapshot-IsSnapshot}
use defing.Reads.{expect}
use defing.Serde.{Serde, Kind, Sm, read_back, load_merged, save_pending}
use defing.Serde.Laws.{load_merged-save_pending}
use defing.Version.{write_version_snapshot}
use defing.Version.Commit.{IsChain}
use defing.Version.History.{history}
use defing.Version.Write.{
  SameStored, SameStored-trans, IsNextVersion, history-SameStored, snapshot_of-kept,
  write_version_snapshot-IsNextVersion,
}

module _ (S : Serde) (id branch : Bytes) where
  -- a new version stays one where the stored versions are the same
  IsNextVersion-SameStored :
      (n : ℕ) (old new : SnapshotMap) (rec : VersionRecord) (m m' m'' : Sm S)
      → IsNextVersion S id branch n old new rec m m'
      → SameStored S id branch (suc n) m' m''
      → IsNextVersion S id branch n old new rec m m''
  IsNextVersion-SameStored n old new rec m m' m'' next same =
      let readable : ((v : ℕ) → 0 < v → v ≤ suc n → is_some (history S id branch m'' v) ≡ true) =
        λ v pos le.
          ap is_some (history-SameStored S id branch (suc n) v m' m'' same le)
          ∙ next.readable v pos le in
      let (s, read, agrees) = next.content in
      record {
        readable = readable;
        content = (
          s,
          snapshot_of-kept S id branch (suc n) m' m'' (suc n) same next.readable readable
                (omega arith) (omega arith)
              ∙ read,
          agrees,
        );
        kept = λ v pos le.
            snapshot_of-kept S id branch (suc n) m' m'' v same next.readable readable pos
              (omega arith)
            ∙ next.kept v pos le;
      }

  -- the writes of a promotion, under the number `vno` that is the next one
  written-IsNextVersion :
      (n vno seq : ℕ) (old new : SnapshotMap) (rec : VersionRecord) (st : BranchState) (m : Sm S)
      → vno ≡ suc n
      → IsChain S id branch m n
      → active_snapshot S id branch n m ≡ ok old
      → IsSnapshot new
      → IsExact S.reread_float new
      → IsNextVersion S id branch n old new rec m (
          save_pending S Kind.branch_state (branch_state_key id branch) st (
            delete_pending
              (gray_snap_key id branch seq)
              (write_version_snapshot S id branch vno old new rec m)))
  written-IsNextVersion n vno seq old new rec st m number chain has_old sorted exact =
      let after = write_version_snapshot S id branch (suc n) old new rec m in
      let dropped = delete_pending (gray_snap_key id branch seq) after in
      let final = save_pending S Kind.branch_state (branch_state_key id branch) st dropped in
      subst
        (λ v. IsNextVersion S id branch n old new rec m (
          save_pending S Kind.branch_state (branch_state_key id branch) st (
            delete_pending (gray_snap_key id branch seq)
              (write_version_snapshot S id branch v old new rec m))))
        (sym number)
        (IsNextVersion-SameStored n old new rec m after final
          (write_version_snapshot-IsNextVersion S id branch n old new rec m chain.readable
            (active_snapshot-read S id branch n old m has_old)
            (active_snapshot-IsSnapshot S id branch n old m chain has_old) sorted exact)
          (SameStored-trans S id branch (suc n) after dropped final
            (SameStored-delete S id branch seq (suc n) after)
            (SameStored-state S id branch (suc n) st dropped)))

  module _ (comment request_id operator : Bytes) (now_ms : ℤ) (m : Sm S) (st : BranchState)
      (has_state : expect S Kind.branch_state not_found (branch_state_key id branch) m ≡ ok st)
      (fresh : is_request st.last_request_id request_id ≡ false) (under_way : no_gray st ≡ false)
      (snap : SnapshotMap) (has_gray : gray_snapshot_of S id branch st.gray_seq m ≡ ok snap) where
    abbrev pub promote_run : Result (List PublishEvent) × Sm S
    promote_run = apply_gray_promote S id branch comment request_id now_ms operator m

    abbrev pub promoted : BranchState
    promoted =
        promoted_state S id branch comment request_id operator now_ms m st has_state fresh under_way
          snap has_gray

    abbrev pub promotion : VersionRecord
    promotion =
        promote_record S id branch comment request_id operator now_ms m st has_state fresh under_way
          snap has_gray

    abbrev pub promoted_event : SnapshotMap → PublishEvent
    promoted_event =
        promote_event S id branch comment request_id operator now_ms m st has_state fresh under_way
          snap has_gray

    no_gap_number :
        st.gray_seq ≤ st.active_version → promoted.active_version ≡ suc st.active_version
    unfolding next_monotonic
    no_gap_number le = omega arith

    -- On a branch whose stable versions can be read and whose gray number is at most the active
    -- version, the promotion of a gray release that is under way, whose snapshot is read, is a
    -- sorted map and has no float that changes when it is written and read, and which is no
    -- repetition of the last request, succeeds; the gray snapshot becomes the next version, read
    -- back item by item (up to the program's own comparison of values), every earlier version is
    -- read as before, and the branch's state is read back with the next number and no gray release,
    -- but for what one write and one read make of the floats of its draft.
    pub apply_gray_promote-IsNextVersion :
        (old : SnapshotMap)
        → IsChain S id branch m st.active_version
        → IsSnapshot snap
        → IsExact S.reread_float snap
        → st.gray_seq ≤ st.active_version
        → active_snapshot S id branch st.active_version m ≡ ok old
        → (promote_run.0 ≡ ok (promoted_event old ∷ []))
          × IsNextVersion S id branch st.active_version old snap promotion m promote_run.1
          × (load_merged S Kind.branch_state (branch_state_key id branch) promote_run.1
              ≡ ok (some (read_back S Kind.branch_state promoted)))
          × (promoted.active_version ≡ suc st.active_version)
    apply_gray_promote-IsNextVersion old chain sorted exact no_gap has_old =
        let n = st.active_version in
        let dropped =
          delete_pending (gray_snap_key id branch st.gray_seq)
            (write_version_snapshot S id branch promoted.active_version old snap promotion m) in
        subst
          (λ (r : Result (List PublishEvent) × Sm S).
            (r.0 ≡ ok (promoted_event old ∷ []))
            × IsNextVersion S id branch n old snap promotion m r.1
            × (load_merged S Kind.branch_state (branch_state_key id branch) r.1
                ≡ ok (some (read_back S Kind.branch_state promoted)))
            × (promoted.active_version ≡ suc n))
          (sym (
            apply_gray_promote-run S id branch comment request_id operator now_ms m st has_state
              fresh under_way snap has_gray old has_old))
          (
            refl,
            written-IsNextVersion n promoted.active_version st.gray_seq old snap promotion promoted
                m (no_gap_number no_gap) chain has_old sorted exact,
            (load_merged-save_pending S Kind.branch_state (branch_state_key id branch)
                  (branch_state_key id branch) promoted dropped
                ∙ rw bytes_eq_refl refl),
            no_gap_number no_gap,
          )

-- ===== src/Gray/Gap.antt =====
-- The promotion of a gray release whose number is above the active version.
use mathlib.Core.Path.{subst}
use defing.Prelude.{
  ℕ, suc, ◌≤◌, ◌<◌, false, some, ◌∷◌, [], List, ◌≡◌, refl, ap, sym, ◌∙◌, arith, Bytes, is_some,
  bytes_eq_refl,
}
use defing.Prelude.Int.{ℤ}
use defing.Error.{Result, ok, not_found}
use defing.Gray.{no_gray}
use defing.Gray.Commands.{next_monotonic, gray_snapshot_of, apply_gray_promote}
use defing.Gray.Effect.{apply_gray_promote-run}
use defing.Gray.Promote.{promoted, promotion, promoted_event}
use defing.Gray.Stable.{SameStored-delete, SameStored-state}
use defing.Keys.{branch_state_key, gray_snap_key}
use defing.Machine.{delete_pending}
use defing.Model.{BranchState, SnapshotMap, VersionRecord, PublishEvent}
use defing.Publish.{is_request, active_snapshot}
use defing.Reads.{expect}
use defing.Serde.{Serde, Kind, Sm, read_back, load_merged, save_pending}
use defing.Serde.Laws.{load_merged-save_pending}
use defing.Version.{chain_start, snapshot_of, write_version_snapshot}
use defing.Version.Gap.{Fails, IsGap, snapshot_of-Fails}
use defing.Version.Write.{SameStored, SameStored-trans, write-SameStored, history-SameStored}

module _ (S : Serde) (id branch : Bytes) where
  IsGap-SameStored :
      (n seq : ℕ) (m m' : Sm S)
      → n < seq
      → SameStored S id branch seq m m'
      → IsGap S id branch m n
      → IsGap S id branch m' n
  IsGap-SameStored n seq m m' lt same gap = record {
    readable = λ v pos le.
        ap is_some (history-SameStored S id branch seq v m m' same (omega arith))
        ∙ gap.readable v pos le;
    not_whole = gap.not_whole;
    no_diff = same.diffs (suc n) (omega arith) ∙ gap.no_diff;
    no_snapshot = same.snapshots (suc n) (omega arith) ∙ gap.no_snapshot;
  }

  -- the writes of a promotion under the number behind the gray one
  written-SameStored :
      (vno seq : ℕ) (old new : SnapshotMap) (rec : VersionRecord) (st : BranchState) (m : Sm S)
      → vno ≡ suc seq
      → SameStored S id branch seq m (
          save_pending S Kind.branch_state (branch_state_key id branch) st (
            delete_pending
              (gray_snap_key id branch seq)
              (write_version_snapshot S id branch vno old new rec m)))
  written-SameStored vno seq old new rec st m number =
      let after = write_version_snapshot S id branch (suc seq) old new rec m in
      let dropped = delete_pending (gray_snap_key id branch seq) after in
      let final = save_pending S Kind.branch_state (branch_state_key id branch) st dropped in
      subst
        (λ v. SameStored S id branch seq m (
          save_pending S Kind.branch_state (branch_state_key id branch) st (
            delete_pending (gray_snap_key id branch seq)
              (write_version_snapshot S id branch v old new rec m))))
        (sym number)
        (SameStored-trans S id branch seq m after final
          (write-SameStored S id branch seq old new rec m)
          (SameStored-trans S id branch seq after dropped final
            (SameStored-delete S id branch seq seq after)
            (SameStored-state S id branch seq st dropped)))

  module _ (comment request_id operator : Bytes) (now_ms : ℤ) (m : Sm S) (st : BranchState)
      (has_state : expect S Kind.branch_state not_found (branch_state_key id branch) m ≡ ok st)
      (fresh : is_request st.last_request_id request_id ≡ false) (under_way : no_gray st ≡ false)
      (snap : SnapshotMap) (has_gray : gray_snapshot_of S id branch st.gray_seq m ≡ ok snap) where
    abbrev after_promotion : BranchState
    after_promotion =
        promoted S id branch comment request_id operator now_ms m st has_state fresh under_way snap
          has_gray

    abbrev record_of : VersionRecord
    record_of =
        promotion S id branch comment request_id operator now_ms m st has_state fresh under_way snap
          has_gray

    gap_number : st.active_version < st.gray_seq → after_promotion.active_version ≡ suc st.gray_seq
    unfolding next_monotonic
    gap_number lt = omega arith

    -- On a branch whose versions up to the active one can be read, with nothing stored of the next
    -- one, which is no multiple of a hundred, the promotion of a gray release that is under way,
    -- whose snapshot is read, which is no repetition of the last request, whose number is above the
    -- active version, and whose next number is replayed from a version that is not above the active
    -- one, reports success with one event and makes its number the active version, and the read of
    -- that version fails.
    pub apply_gray_promote-Fails :
        (old : SnapshotMap)
        → IsGap S id branch m st.active_version
        → st.active_version < st.gray_seq
        → chain_start (suc st.gray_seq) ≤ st.active_version
        → active_snapshot S id branch st.active_version m ≡ ok old
        → let r = apply_gray_promote S id branch comment request_id now_ms operator m in
          (r.0
            ≡ ok (
                promoted_event S id branch comment request_id operator now_ms m st has_state fresh
                  under_way snap has_gray old
                ∷ []))
          × (load_merged S Kind.branch_state (branch_state_key id branch) r.1
              ≡ ok (some (read_back S Kind.branch_state after_promotion)))
          × Fails (snapshot_of S id branch after_promotion.active_version r.1)
    apply_gray_promote-Fails old gap above block has_old =
        let n = st.active_version in
        let number : after_promotion.active_version ≡ suc st.gray_seq = gap_number above in
        let dropped = delete_pending (gray_snap_key id branch st.gray_seq) (
          write_version_snapshot S id branch after_promotion.active_version old snap record_of m) in
        let final =
          save_pending S Kind.branch_state (branch_state_key id branch) after_promotion dropped in
        subst
          (λ (r : Result (List PublishEvent) × Sm S).
            (r.0
              ≡ ok (
                  promoted_event S id branch comment request_id operator now_ms m st has_state fresh
                    under_way snap has_gray old
                  ∷ []))
            × (load_merged S Kind.branch_state (branch_state_key id branch) r.1
                ≡ ok (some (read_back S Kind.branch_state after_promotion)))
            × Fails (snapshot_of S id branch after_promotion.active_version r.1))
          (sym (
            apply_gray_promote-run S id branch comment request_id operator now_ms m st has_state
              fresh under_way snap has_gray old has_old))
          (
            refl,
            (load_merged-save_pending S Kind.branch_state (branch_state_key id branch)
                  (branch_state_key id branch) after_promotion dropped
                ∙ rw bytes_eq_refl refl),
            snapshot_of-Fails S id branch final n after_promotion.active_version
                (IsGap-SameStored n st.gray_seq m final above
                  (written-SameStored after_promotion.active_version st.gray_seq old snap record_of
                    after_promotion m number)
                  gap)
                (omega arith) (subst (λ v. chain_start v ≤ n) (sym number) block),
          )

-- ===== src/Gray/Stable.antt =====
-- A gray release next to the stable versions: what its publish and its abort change.
use defing.Prelude.{
  ℕ, suc, ◌≤◌, ◌<◌, true, false, not, ◌&&◌, ◌∷◌, [], Option, none, some, ◌≡◌, refl, ap, ◌∙◌, arith,
  Bytes, is_empty, bytes_eq_refl, ltb, Bool-cases, inl, inr,
}
use defing.Error.{ok, not_found}
use defing.Gray.{IpAddr, no_gray, validate_gray_rule}
use defing.Gray.Commands.{gray_snapshot_of, apply_gray_publish, apply_gray_abort, drop_gray}
use defing.Gray.Effect.{delete-other}
use defing.Version.History.{found}
use defing.Version.Commit.{IsChain, IsChain-SameStored}
use defing.Keys.{branch_state_key, struct_key, gray_snap_key}
use defing.Keys.Distinct.{BranchKey, branch_key, branch_keys}
use defing.Machine.{delete_pending}
use defing.Model.{
  BranchState, Structure, SnapshotMap, GrayRule, PublishPolicy, EventType, PublishEvent,
}
use defing.Publish.{Resolved, is_request, active_snapshot, materialize_resolved}
use defing.Reads.{expect, expect-ok}
use defing.Serde.{Serde, Kind, Sm, read_back, load_merged, save_pending}
use defing.Serde.Laws.{load_merged-save_pending}
use defing.Model.Reread.{reread_snapshot}
use defing.Diff.{compute_diff}
use defing.Version.{snapshot_of}
use defing.Version.Write.{
  SameStored, SameStored-save, SameStored-trans, save-other, snapshot_of-kept,
}

module _ (S : Serde) (id branch : Bytes) where
  pub SameStored-delete :
      (seq n : ℕ) (m : Sm S)
      → SameStored S id branch n m (delete_pending (gray_snap_key id branch seq) m)
  SameStored-delete seq n m = record {
    snapshots = λ v le. simp branch_keys (
        ap found (
          delete-other S id branch Kind.snapshot (BranchKey.gray_snap seq) (BranchKey.snapshot v) m
            refl));
    diffs = λ v le. simp branch_keys (
        ap found
          (delete-other S id branch Kind.diff (BranchKey.gray_snap seq) (BranchKey.diff v) m refl));
  }

  SameStored-drop :
      (seq n : ℕ) (m : Sm S) → SameStored S id branch n m (drop_gray S id branch seq m)
  SameStored-drop seq n m = elim (Bool-cases (ltb 0 seq)) [
    | inl old ↦ rw old (SameStored-delete seq n m)
    | inr none_yet ↦ rw none_yet (record { snapshots = λ v le. refl; diffs = λ v le. refl })
  ]

  pub SameStored-gray :
      (seq n : ℕ) (snap : SnapshotMap) (m : Sm S)
      → SameStored S id branch n m
          (save_pending S Kind.snapshot (gray_snap_key id branch seq) snap m)
  SameStored-gray seq n snap m = simp branch_keys (
      SameStored-save S id branch Kind.snapshot (BranchKey.gray_snap seq) snap n m (λ v le. refl)
        (λ v le. refl))

  pub SameStored-state :
      (n : ℕ) (st : BranchState) (m : Sm S)
      → SameStored S id branch n m
          (save_pending S Kind.branch_state (branch_state_key id branch) st m)
  SameStored-state n st m = simp branch_keys (
      SameStored-save S id branch Kind.branch_state BranchKey.state st n m (λ v le. refl)
        (λ v le. refl))

  -- The stable versions of a branch are the same in two states.
  pub record SameStable (n : ℕ) (m m' : Sm S) : Type 0 where
    pub chain : IsChain S id branch m' n
    pub versions :
        (v : ℕ) → 0 < v → v ≤ n → snapshot_of S id branch v m' ≡ snapshot_of S id branch v m

  SameStored-SameStable :
      (n : ℕ) (m m' : Sm S)
      → IsChain S id branch m n
      → SameStored S id branch n m m'
      → SameStable n m m'
  SameStored-SameStable n m m' chain same =
      let chain' : IsChain S id branch m' n = IsChain-SameStored S id branch n m m' same chain in
      record {
        chain = chain';
        versions = λ v pos le.
            snapshot_of-kept S id branch n m m' v same chain.readable chain'.readable pos le;
      }

  abbrev with_gray : ℕ → SnapshotMap → Sm S → Sm S
  with_gray seq snap m = save_pending S Kind.snapshot (gray_snap_key id branch (suc seq)) snap m

  saved_read :
      (seq : ℕ) (snap : SnapshotMap) (m : Sm S)
      → load_merged S Kind.snapshot (gray_snap_key id branch (suc seq)) (with_gray seq snap m)
        ≡ ok (some (reread_snapshot S.reread_float snap))
  saved_read seq snap m =
      load_merged-save_pending S Kind.snapshot (gray_snap_key id branch (suc seq))
        (gray_snap_key id branch (suc seq)) snap m
      ∙ rw bytes_eq_refl refl

  drop_read :
      (seq : ℕ) (snap : SnapshotMap) (m : Sm S)
      → load_merged S Kind.snapshot
          (gray_snap_key id branch (suc seq))
          (drop_gray S id branch seq (with_gray seq snap m))
        ≡ ok (some (reread_snapshot S.reread_float snap))
  unfolding branch_key gray_snap_key
  drop_read seq snap m = elim (Bool-cases (ltb 0 seq)) [
    | inl old ↦ rw old (
        simp branch_keys (
          delete-other S id branch Kind.snapshot (BranchKey.gray_snap seq)
            (BranchKey.gray_snap (suc seq)) (with_gray seq snap m) (ground arith))
        ∙ saved_read seq snap m)
    | inr none_yet ↦ rw none_yet (saved_read seq snap m)
  ]

  gray_read :
      (seq : ℕ) (snap : SnapshotMap) (st : BranchState) (m : Sm S)
      → gray_snapshot_of S id branch (suc seq) (
          save_pending S Kind.branch_state (branch_state_key id branch) st (
            drop_gray S id branch seq
              (save_pending S Kind.snapshot (gray_snap_key id branch (suc seq)) snap m)))
        ≡ ok (reread_snapshot S.reread_float snap)
  unfolding gray_snapshot_of branch_key gray_snap_key
  gray_read seq snap st m =
      expect-ok S Kind.snapshot not_found (gray_snap_key id branch (suc seq))
        (reread_snapshot S.reread_float snap)
        (save_pending S Kind.branch_state (branch_state_key id branch) st
          (drop_gray S id branch seq (with_gray seq snap m)))
        (simp branch_keys (
            save-other S id branch Kind.branch_state Kind.snapshot BranchKey.state
              (BranchKey.gray_snap (suc seq)) st (drop_gray S id branch seq (with_gray seq snap m))
              refl)
          ∙ drop_read seq snap m)

  module _ (comment request_id : Bytes) (m : Sm S) (st : BranchState)
      (has_state : expect S Kind.branch_state not_found (branch_state_key id branch) m ≡ ok st)
      (fresh : is_request st.last_request_id request_id ≡ false)
      (chain : IsChain S id branch m st.active_version) where
    abbrev pub aborted_state : BranchState
    aborted_state = record st { gray_seq = 0; gray_rule = none; last_request_id = some request_id }

    abbrev pub abort_event : PublishEvent
    abort_event = record {
      project = id;
      branch = branch;
      version = st.active_version;
      ty = EventType.value_publish;
      structure_version = st.structure_version;
      comment = comment;
      request_id = request_id;
      changes = [];
      gray = true;
    }

    -- On a branch whose stable versions can be read, the abort of a gray release that is under way,
    -- which is no repetition of the last request, succeeds, takes the release and its rule out of
    -- the branch's state, which is read back so but for what one write and one read make of the
    -- floats of its draft, and changes neither the active version nor what is read for any stable
    -- version.
    pub apply_gray_abort-SameStable :
        no_gray st ≡ false
        → let r = apply_gray_abort S id branch comment request_id m in
          (r.0 ≡ ok (abort_event ∷ []))
          × (load_merged S Kind.branch_state (branch_state_key id branch) r.1
              ≡ ok (some (read_back S Kind.branch_state aborted_state)))
          × SameStable st.active_version m r.1
    unfolding apply_gray_abort
    apply_gray_abort-SameStable under_way =
        let dropped = delete_pending (gray_snap_key id branch st.gray_seq) m in
        rw (has_state, fresh, under_way)
          (
            refl,
            (load_merged-save_pending S Kind.branch_state (branch_state_key id branch)
                  (branch_state_key id branch) aborted_state dropped
                ∙ rw bytes_eq_refl refl),
            SameStored-SameStable st.active_version m
                (save_pending S Kind.branch_state (branch_state_key id branch) aborted_state
                  dropped)
                chain
                (SameStored-trans S id branch st.active_version m dropped
                  (save_pending S Kind.branch_state (branch_state_key id branch) aborted_state
                    dropped)
                  (SameStored-delete st.gray_seq st.active_version m)
                  (SameStored-state st.active_version aborted_state dropped)),
          )

    module _ (rule : GrayRule) (parse_addr : Bytes → Option IpAddr) (policy : PublishPolicy)
        (structure : Structure) (old : SnapshotMap) (resolved : Resolved)
        (valid : validate_gray_rule parse_addr rule ≡ ok tt)
        (has_structure : expect S Kind.structure not_found (struct_key id) m ≡ ok structure)
        (pending : (is_empty st.value_draft && not st.bindings_dirty) ≡ false)
        (has_old : active_snapshot S id branch st.active_version m ≡ ok old)
        (has_resolved : materialize_resolved S st structure old policy m ≡ ok resolved) where
      abbrev pub gray_state : BranchState
      gray_state = record st {
        gray_seq = suc st.gray_seq;
        gray_rule = some rule;
        last_request_id = some request_id;
        value_draft = [];
        bindings_dirty = false;
      }

      abbrev pub gray_event : PublishEvent
      gray_event = record {
        project = id;
        branch = branch;
        version = st.active_version;
        ty = EventType.value_publish;
        structure_version = structure.version;
        comment = comment;
        request_id = request_id;
        changes = compute_diff old resolved.0;
        gray = true;
      }

      -- On a branch whose stable versions can be read, a gray publish with a valid rule, which is
      -- no repetition of the last request, has something to publish and is materialised, succeeds;
      -- what is read as the gray snapshot under the branch's new gray number is the materialised
      -- one with its floats as one write and one read leave them, the active version stays, and
      -- every stable version is read as before.
      pub apply_gray_publish-SameStable :
          let r = apply_gray_publish S id branch parse_addr rule comment request_id policy m in
          (r.0 ≡ ok (gray_event ∷ []))
          × (load_merged S Kind.branch_state (branch_state_key id branch) r.1
              ≡ ok (some gray_state))
          × (gray_snapshot_of S id branch gray_state.gray_seq r.1
              ≡ ok (reread_snapshot S.reread_float resolved.0))
          × SameStable st.active_version m r.1
      unfolding apply_gray_publish
      apply_gray_publish-SameStable =
          let n = st.active_version in
          let saved = with_gray st.gray_seq resolved.0 m in
          let dropped = drop_gray S id branch st.gray_seq saved in
          rw (valid, has_state, has_structure, fresh, pending, has_old, has_resolved)
            (
              refl,
              (load_merged-save_pending S Kind.branch_state (branch_state_key id branch)
                    (branch_state_key id branch) gray_state dropped
                  ∙ rw bytes_eq_refl refl),
              gray_read st.gray_seq resolved.0 gray_state m,
              SameStored-SameStable n m
                  (save_pending S Kind.branch_state (branch_state_key id branch) gray_state dropped)
                  chain
                  (SameStored-trans S id branch n m saved
                    (save_pending S Kind.branch_state (branch_state_key id branch) gray_state
                      dropped)
                    (SameStored-gray (suc st.gray_seq) n resolved.0 m)
                    (SameStored-trans S id branch n saved dropped
                      (save_pending S Kind.branch_state (branch_state_key id branch) gray_state
                        dropped)
                      (SameStored-drop st.gray_seq n saved)
                      (SameStored-state n gray_state dropped))),
            )

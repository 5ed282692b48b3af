-- ===== src/Gray/Effect.antt =====
-- What the gray commands do to the versions of a branch.
use mathlib.Core.Path.{subst}
use defing.Prelude.{
  ℕ, suc, true, false, List, [], ◌∷◌, none, some, ◌≡◌, refl, sym, ◌∙◌, arith, Bytes, ◌==◌,
  Bool-cases, inl, inr, bytes_eq_refl,
}
use defing.Prelude.Int.{ℤ}
use defing.Error.{Result, ok, err, not_found}
use defing.Diff.{compute_diff}
use defing.Gray.{no_gray}
use defing.Gray.Commands.{next_monotonic, gray_snapshot_of, apply_gray_promote}
use defing.Keys.{branch_state_key, snapshot_key, gray_snap_key}
use defing.Keys.Distinct.{BranchKey, branch_key, branch_key-same_key, branch_keys, same_key}
use defing.Machine.{delete_pending}
use defing.Model.{BranchState, SnapshotMap, VersionRecord, EventType, PublishEvent, full, diff}
use defing.Publish.{is_request, active_snapshot, operator_id}
use defing.Reads.{expect, expect-ok}
use defing.Serde.{Serde, Kind, Sm, read_back, load_merged, save_pending}
use defing.Serde.Laws.{load_merged-save_pending, load_merged-delete_pending}
use defing.Version.{snapshot_of, write_version_snapshot, is_multiple, replay_from, chain_start}
use defing.Version.History.{is_checkpoint}
use defing.Version.Write.{save-other}

module _ (S : Serde) (id branch : Bytes) where
  pub delete-other :
      (l : Kind) (at read : BranchKey) (m : Sm S)
      → same_key at read ≡ false
      → load_merged S l (branch_key id branch read) (delete_pending (branch_key id branch at) m)
        ≡ load_merged S l (branch_key id branch read) m
  delete-other l at read m other =
      load_merged-delete_pending S l (branch_key id branch at) (branch_key id branch read) m
      ∙ rw (branch_key-same_key, other)

  -- A branch with no whole snapshot of any version.
  abbrev pub NoSnapshot : Sm S → Type 0
  NoSnapshot m = (v : ℕ) → load_merged S Kind.snapshot (snapshot_key id branch v) m ≡ ok none

  snapshot_of-NoSnapshot :
      (v : ℕ) (m : Sm S) → NoSnapshot m → snapshot_of S id branch v m ≡ err not_found
  unfolding snapshot_of
  snapshot_of-NoSnapshot v m h = elim (Bool-cases (v == 0)) [
    | inl first ↦ rw first
    | inr later ↦ rw (later, h (chain_start v)) (unfold replay_from in rw (h v))
  ]

  module _ (comment request_id operator : Bytes) (now_ms : ℤ) (m : Sm S) (st : BranchState)
      (has_state : expect S Kind.branch_state not_found (branch_state_key id branch) m ≡ ok st)
      (fresh : is_request st.last_request_id request_id ≡ false) (active_gray : no_gray st ≡ false)
      (snap : SnapshotMap) (has_gray : gray_snapshot_of S id branch st.gray_seq m ≡ ok snap) where
    abbrev pub run : Result (List PublishEvent) × Sm S
    run = apply_gray_promote S id branch comment request_id now_ms operator m

    abbrev pub promoted_no : ℕ
    promoted_no = next_monotonic st.active_version st.gray_seq

    abbrev pub promote_record : VersionRecord
    promote_record = record {
      no = promoted_no;
      structure_version = st.structure_version;
      created_at = now_ms;
      operator = operator_id operator;
      comment = comment;
      rollback_of = none;
      kind = full;
      snapshot_ref = none;
      diff_ref = none;
      event_ty = some EventType.value_publish;
      gray = true;
    }

    abbrev pub promoted_state : BranchState
    promoted_state = record st {
      active_version = promoted_no;
      gray_seq = 0;
      gray_rule = none;
      last_request_id = some request_id;
    }

    abbrev pub promote_event : SnapshotMap → PublishEvent
    promote_event old = record {
      project = id;
      branch = branch;
      version = promoted_no;
      ty = EventType.value_publish;
      structure_version = st.structure_version;
      comment = comment;
      request_id = request_id;
      changes = compute_diff old snap;
      gray = true;
    }

    abbrev dropped : SnapshotMap → Sm S
    dropped old =
        delete_pending (gray_snap_key id branch st.gray_seq)
          (write_version_snapshot S id branch promoted_no old snap promote_record m)

    pub apply_gray_promote-run :
        (old : SnapshotMap)
        → active_snapshot S id branch st.active_version m ≡ ok old
        → run ≡ (
          ok (promote_event old ∷ []),
          save_pending S Kind.branch_state
              (branch_state_key id branch)
              promoted_state
              (dropped old),
        )
    unfolding apply_gray_promote
    apply_gray_promote-run old has_old = rw (has_state, fresh, active_gray, has_gray, has_old) refl

    module _ (never : st.active_version ≡ 0) (number : is_multiple (suc st.gray_seq) ≡ false)
        (empty : NoSnapshot m) where
      first_number : promoted_no ≡ suc st.gray_seq
      unfolding next_monotonic
      first_number = omega arith

      not_checkpoint : is_checkpoint promoted_no ≡ false
      not_checkpoint = rw first_number (ground arith)

      none_active : active_snapshot S id branch st.active_version m ≡ ok []
      unfolding active_snapshot
      none_active = ground arith

      abbrev final : Sm S
      final =
          save_pending S Kind.branch_state (branch_state_key id branch) promoted_state (dropped [])

      write-NoSnapshot :
          NoSnapshot (write_version_snapshot S id branch promoted_no [] snap promote_record m)
      unfolding write_version_snapshot
      write-NoSnapshot v = rw not_checkpoint (
          simp branch_keys (
            save-other S id branch Kind.version Kind.snapshot (BranchKey.version promoted_no)
              (BranchKey.snapshot v) (record promote_record { kind = diff })
              (save_pending S Kind.diff (branch_key id branch (BranchKey.diff promoted_no))
                (compute_diff [] snap) m)
              refl
            ∙ save-other S id branch Kind.diff Kind.snapshot (BranchKey.diff promoted_no)
                (BranchKey.snapshot v) (compute_diff [] snap) m refl
            ∙ (simp branch_keys at (empty v))))

      final-NoSnapshot : NoSnapshot final
      final-NoSnapshot v = simp branch_keys (
          save-other S id branch Kind.branch_state Kind.snapshot BranchKey.state
            (BranchKey.snapshot v) promoted_state
            (delete_pending (branch_key id branch (BranchKey.gray_snap st.gray_seq))
              (write_version_snapshot S id branch promoted_no [] snap promote_record m))
            refl
          ∙ delete-other Kind.snapshot (BranchKey.gray_snap st.gray_seq) (BranchKey.snapshot v)
              (write_version_snapshot S id branch promoted_no [] snap promote_record m) refl
          ∙ (simp branch_keys at (write-NoSnapshot v)))

      -- On a branch that was never published and has no whole snapshot, the promotion of a gray
      -- release whose successor number is no multiple of a hundred, which is no repetition of the
      -- last request, reports success with one event and makes its number the active version, and
      -- reading that version fails with not_found, since the release is stored as a diff without a
      -- base.
      pub gray_promote_unreadable :
          (run.0 ≡ ok (promote_event [] ∷ []))
          × (expect S Kind.branch_state not_found (branch_state_key id branch) run.1
              ≡ ok (read_back S Kind.branch_state promoted_state))
          × (snapshot_of S id branch promoted_state.active_version run.1 ≡ err not_found)
      gray_promote_unreadable =
          subst
            (λ (r : Result (List PublishEvent) × Sm S).
              (r.0 ≡ ok (promote_event [] ∷ []))
              × (expect S Kind.branch_state not_found (branch_state_key id branch) r.1
                  ≡ ok (read_back S Kind.branch_state promoted_state))
              × (snapshot_of S id branch promoted_state.active_version r.1 ≡ err not_found))
            (sym (apply_gray_promote-run [] none_active))
            (
              refl,
              expect-ok S Kind.branch_state not_found (branch_state_key id branch)
                  (read_back S Kind.branch_state promoted_state) final
                  (load_merged-save_pending S Kind.branch_state (branch_state_key id branch)
                      (branch_state_key id branch) promoted_state (dropped [])
                    ∙ rw bytes_eq_refl),
              snapshot_of-NoSnapshot promoted_no final final-NoSnapshot,
            )

-- ===== src/Gray/Commands.antt =====
-- server/crates/dsh-core/src/state.rs: the three commands of a gray release, and the reads they share.
use defing.Prelude.{
  suc, ℕ, ◌+◌, true, false, not, ◌&&◌, List, [], ◌∷◌, Option, none, some, Bytes, ltb, if◌then◌else◌,
  is_empty, max,
}
use defing.Prelude.Int.{ℤ}
use defing.Error.{Result, not_found, validation, no_draft}
use defing.Machine.{Action, pure, throw, read, modify, delete_pending, ◌>>=◌, ◌>>◌}
use defing.Keys.{branch_state_key, struct_key, gray_snap_key}
use defing.Model.{SnapshotMap, GrayRule, VersionKind, EventType, PublishEvent, PublishPolicy}
use defing.Diff.{compute_diff}
use defing.Serde.{Serde, Kind, Sm, save_pending}
use defing.Version.{write_version_snapshot}
use defing.Publish.{is_request, operator_id, active_snapshot, materialize_resolved}
use defing.Reads.{expect}
use defing.Gray.{IpAddr, no_gray, validate_gray_rule}

-- `next_monotonic`
unfoldable pub next_monotonic : ℕ → ℕ → ℕ
next_monotonic active seq = max active seq + 1

module _ (S : Serde) (id branch : Bytes) where
  -- `gray_snapshot_of`
  unfoldable pub gray_snapshot_of : ℕ → Sm S → Result SnapshotMap
  gray_snapshot_of seq = expect S Kind.snapshot not_found (gray_snap_key id branch seq)

  -- the removal of an old gray snapshot
  abbrev pub drop_gray : ℕ → Sm S → Sm S
  drop_gray seq m = if ltb 0 seq then delete_pending (gray_snap_key id branch seq) m else m

  -- `apply_gray_promote`
  unfoldable pub apply_gray_promote : Bytes → Bytes → ℤ → Bytes → Action S.Raw (List PublishEvent)
  unfolding active_snapshot gray_snapshot_of next_monotonic
  apply_gray_promote comment request_id now_ms operator = do
    st ← read (expect S Kind.branch_state not_found (branch_state_key id branch))
    if is_request st.last_request_id request_id
        then pure []
        else if no_gray st
        then throw validation
        else do
          snap ← read (gray_snapshot_of st.gray_seq)
          old ← read (active_snapshot S id branch st.active_version)
          let vno = next_monotonic st.active_version st.gray_seq
          modify (
              write_version_snapshot S id branch vno old snap (record {
                no = vno;
                structure_version = st.structure_version;
                created_at = now_ms;
                operator = operator_id operator;
                comment = comment;
                rollback_of = none;
                kind = VersionKind.full;
                snapshot_ref = none;
                diff_ref = none;
                event_ty = some EventType.value_publish;
                gray = true;
              }))
          modify (delete_pending (gray_snap_key id branch st.gray_seq))
          modify (
              save_pending S Kind.branch_state (branch_state_key id branch) (record st {
                active_version = vno;
                gray_seq = 0;
                gray_rule = none;
                last_request_id = some request_id;
              }))
          pure (
              record {
                project = id;
                branch = branch;
                version = vno;
                ty = EventType.value_publish;
                structure_version = st.structure_version;
                comment = comment;
                request_id = request_id;
                changes = compute_diff old snap;
                gray = true;
              }
              ∷ [])

  -- `apply_gray_abort`
  unfoldable pub apply_gray_abort : Bytes → Bytes → Action S.Raw (List PublishEvent)
  apply_gray_abort comment request_id = do
    st ← read (expect S Kind.branch_state not_found (branch_state_key id branch))
    if is_request st.last_request_id request_id
        then pure []
        else if no_gray st
        then throw validation
        else do
          modify (delete_pending (gray_snap_key id branch st.gray_seq))
          modify (
              save_pending S Kind.branch_state (branch_state_key id branch)
                (record st { gray_seq = 0; gray_rule = none; last_request_id = some request_id }))
          pure (
              record {
                project = id;
                branch = branch;
                version = st.active_version;
                ty = EventType.value_publish;
                structure_version = st.structure_version;
                comment = comment;
                request_id = request_id;
                changes = [];
                gray = true;
              }
              ∷ [])

  module _ (parse_addr : Bytes → Option IpAddr) where
    -- `apply_gray_publish`
    unfoldable pub apply_gray_publish :
        GrayRule → Bytes → Bytes → PublishPolicy → Action S.Raw (List PublishEvent)
    unfolding active_snapshot
    apply_gray_publish rule comment request_id policy = do
      read (λ m. validate_gray_rule parse_addr rule)
      st ← read (expect S Kind.branch_state not_found (branch_state_key id branch))
      structure ← read (expect S Kind.structure not_found (struct_key id))
      if is_request st.last_request_id request_id
          then pure []
          else if is_empty st.value_draft && not st.bindings_dirty
          then throw no_draft
          else do
            old ← read (active_snapshot S id branch st.active_version)
            resolved ← read (materialize_resolved S st structure old policy)
            let seq = suc st.gray_seq
            modify (save_pending S Kind.snapshot (gray_snap_key id branch seq) resolved.0)
            modify (drop_gray st.gray_seq)
            modify (
                save_pending S Kind.branch_state (branch_state_key id branch) (record st {
                  gray_seq = seq;
                  gray_rule = some rule;
                  last_request_id = some request_id;
                  value_draft = [];
                  bindings_dirty = false;
                }))
            pure (
                record {
                  project = id;
                  branch = branch;
                  version = st.active_version;
                  ty = EventType.value_publish;
                  structure_version = structure.version;
                  comment = comment;
                  request_id = request_id;
                  changes = compute_diff old resolved.0;
                  gray = true;
                }
                ∷ [])

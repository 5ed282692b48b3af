-- ===== src/Publish.antt =====
-- server/crates/dsh-core/src/state.rs: `materialize_resolved`, `apply_publish` and
-- `apply_rollback`.
pub mod Materialize
pub mod Effect
pub mod Rollback
use defing.Prelude.{
  ℕ, suc, ◌+◌, Bool, true, false, not, ◌&&◌, ◌||◌, List, [], ◌∷◌, ◌++◌, Option, none, some, Bytes,
  codes, bytes_eq, ltb, leb, ◌==◌, if◌then◌else◌, is_empty, is_some, map,
}
use defing.Prelude.Int.{ℤ, pos, int_positive}
use defing.BTreeMap.{BTreeMap}
use defing.BTreeMap.Nested.{get2, insert2}
use defing.Error.{
  ErrorKind, Result, ok, err, and_then, not_found, validation, publish_blocked, no_draft,
}
use defing.Machine.{Action, pure, throw, read, modify, ◌>>=◌, ◌>>◌}
use defing.Keys.{branch_state_key, struct_key, shared_key}
use defing.Model.{
  Value, ValueType, ItemDef, GroupDef, Structure, BranchState, DraftValue, SnapshotMap,
  VersionRecord, VersionKind, EventType, PublishEvent, PublishPolicy, SharedItem, DiffEntry,
}
use defing.Model.Equality.{type_eq}
use defing.Diff.{compute_diff}
use defing.Serde.{Serde, Kind, Sm, load_merged, save_pending}
use defing.Version.{snapshot_of, write_version_snapshot}
use defing.Validator.{Issue, unbound, type_differs, dangling, each_item, validate_publish}
use defing.Reads.{expect}

abbrev pub Draft : Type 0
Draft = BTreeMap (BTreeMap DraftValue)

-- `eff_ts`: the command's time, or the caller's if it has none
unfoldable pub eff_ts : ℤ → ℤ → ℤ
eff_ts ts fallback = if int_positive ts then ts else fallback

-- `operator_id`
unfoldable pub operator_id : Bytes → Bytes
operator_id operator = if is_empty operator then codes "admin" else operator

-- `st.last_request_id.as_deref() == Some(request_id)`
abbrev pub is_request : Option Bytes → Bytes → Bool
is_request none r = false
is_request (some q) r = bytes_eq q r

-- One round of the first loop of `materialize_resolved`: a secret with no draft value keeps the
-- published one.
abbrev kept_secret : Bytes → Bytes → Draft → Option Value → Draft
kept_secret g key draft none = draft
kept_secret g key draft (some v) = insert2 g key (record { value = v; updated_at = pos 0 }) draft

unfoldable pub keep_secret : Bytes → ItemDef → SnapshotMap → Draft → Draft
keep_secret g item old draft =
    if item.shared || not (type_eq item.ty ValueType.secret)
    then draft
    else if is_some (get2 g item.key draft)
    then draft
    else kept_secret g item.key draft (get2 g item.key old)

unfoldable pub keep_secrets : List (Bytes × ItemDef) → SnapshotMap → Draft → Draft
unfolding keep_secret
keep_secrets [] old draft = draft
keep_secrets ((g, item) ∷ items) old draft = keep_secrets items old (keep_secret g item old draft)

-- the draft with its values alone
unfoldable pub draft_items : BTreeMap DraftValue → BTreeMap Value
draft_items [] = []
draft_items ((k, dv) ∷ items) = (k, dv.value) ∷ draft_items items

unfoldable pub draft_values : Draft → SnapshotMap
unfolding draft_items
draft_values [] = []
draft_values ((g, items) ∷ draft) = (g, draft_items items) ∷ draft_values draft

-- the snapshot and the issues that the second loop adds to
abbrev pub Resolved : Type 0
Resolved = SnapshotMap × List Issue

-- the new branch state of `apply_publish`
abbrev pub published_state : BranchState → ℕ → Bytes → BranchState
published_state st vno request_id = record st {
  active_version = vno;
  last_request_id = some request_id;
  value_draft = [];
  bindings_dirty = false;
}

module _ (S : Serde) where
  -- What a bound item adds: the value of the shared item that was read.
  unfoldable pub resolve_found : Bytes → ItemDef → Bytes → Option SharedItem → Resolved → Resolved
  resolve_found g item rk none (snap, errs) = (snap, errs ++ dangling g item.key ∷ [])
  resolve_found g item rk (some shared) (snap, errs) =
      if not (type_eq shared.ty item.ty)
      then (snap, errs ++ type_differs g item.key ∷ [])
      else (insert2 g item.key shared.value snap, errs)

  unfoldable pub resolve_bound : Bytes → ItemDef → Option Bytes → Resolved → Sm S → Result Resolved
  unfolding resolve_found
  resolve_bound g item none (snap, errs) m = ok (snap, errs ++ unbound g item.key ∷ [])
  resolve_bound g item (some rk) r m =
      and_then (load_merged S Kind.shared_item (shared_key rk) m)
        (λ o. ok (resolve_found g item rk o r))

  -- the loop over the items that are marked as shared
  unfoldable pub resolve_shared :
      List (Bytes × ItemDef) → BTreeMap (BTreeMap Bytes) → Resolved → Sm S → Result Resolved
  unfolding resolve_bound
  resolve_shared [] bindings r m = ok r
  resolve_shared ((g, item) ∷ items) bindings r m =
      if item.shared
      then and_then (resolve_bound g item (get2 g item.key bindings) r m)
          (λ r'. resolve_shared items bindings r' m)
      else resolve_shared items bindings r m

  -- the verdict of the policy on the issues
  unfoldable pub judge : PublishPolicy → Resolved → Result Resolved
  judge PublishPolicy.block (snap, []) = ok (snap, [])
  judge PublishPolicy.block (snap, e ∷ errs) = err publish_blocked
  judge PublishPolicy.warn r = ok r

  -- `materialize_resolved`
  unfoldable pub materialize_resolved :
      BranchState → Structure → SnapshotMap → PublishPolicy → Sm S → Result Resolved
  unfolding keep_secrets draft_values resolve_shared judge
  materialize_resolved st structure old policy m =
      let items = each_item structure.groups in
      let draft = keep_secrets items old st.value_draft in
      let errs = validate_publish S.json_valid draft items in
      and_then (resolve_shared items st.shared_bindings (draft_values draft, errs) m) (judge policy)

  -- the active snapshot, or the empty one of a branch that was never published
  unfoldable pub active_snapshot : Bytes → Bytes → ℕ → Sm S → Result SnapshotMap
  active_snapshot id branch active m =
      if active == 0 then ok [] else snapshot_of S id branch active m

  module _ (id branch : Bytes) where
    -- `apply_publish`
    unfoldable pub apply_publish :
        Bytes → Bytes → ℤ → Bytes → PublishPolicy → Action S.Raw (List PublishEvent)
    unfolding active_snapshot
    apply_publish comment request_id now_ms operator policy = do
      st ← read (expect S Kind.branch_state not_found (branch_state_key id branch))
      structure ← read (expect S Kind.structure not_found (struct_key id))
      if is_request st.last_request_id request_id
          then pure []
          else if is_empty st.value_draft && not st.bindings_dirty
          then throw no_draft
          else do
            old ← read (active_snapshot id branch st.active_version)
            resolved ← read (materialize_resolved st structure old policy)
            let vno = suc st.active_version
            modify (
                write_version_snapshot S id branch vno old resolved.0 (record {
                  no = vno;
                  structure_version = structure.version;
                  created_at = now_ms;
                  operator = operator_id operator;
                  comment = comment;
                  rollback_of = none;
                  kind = VersionKind.full;
                  snapshot_ref = none;
                  diff_ref = none;
                  event_ty = some EventType.value_publish;
                  gray = false;
                }))
            modify (
                save_pending S Kind.branch_state (branch_state_key id branch)
                  (published_state st vno request_id))
            pure (
                record {
                  project = id;
                  branch = branch;
                  version = vno;
                  ty = EventType.value_publish;
                  structure_version = structure.version;
                  comment = comment;
                  request_id = request_id;
                  changes = compute_diff old resolved.0;
                  gray = false;
                }
                ∷ [])

    -- `apply_rollback`
    unfoldable pub apply_rollback : ℕ → Bytes → Bytes → ℤ → Bytes → Action S.Raw (List PublishEvent)
    unfolding active_snapshot
    apply_rollback to_version comment request_id now_ms operator = do
      st ← read (expect S Kind.branch_state not_found (branch_state_key id branch))
      if is_request st.last_request_id request_id
          then pure []
          else if (to_version == 0) || leb st.active_version to_version
          then throw validation
          else do
            snap ← read (snapshot_of S id branch to_version)
            old ← read (active_snapshot id branch st.active_version)
            let vno = suc st.active_version
            modify (
                write_version_snapshot S id branch vno old snap (record {
                  no = vno;
                  structure_version = st.structure_version;
                  created_at = now_ms;
                  operator = operator_id operator;
                  comment = comment;
                  rollback_of = some to_version;
                  kind = VersionKind.full;
                  snapshot_ref = none;
                  diff_ref = none;
                  event_ty = some EventType.rollback;
                  gray = false;
                }))
            modify (
                save_pending S Kind.branch_state (branch_state_key id branch)
                  (record st { active_version = vno; last_request_id = some request_id }))
            pure (
                record {
                  project = id;
                  branch = branch;
                  version = vno;
                  ty = EventType.rollback;
                  structure_version = st.structure_version;
                  comment = comment;
                  request_id = request_id;
                  changes = compute_diff old snap;
                  gray = false;
                }
                ∷ [])

-- ===== src/Structures.antt =====
-- server/crates/dsh-core/src/state.rs: `apply_structure_draft_set` and `apply_publish_structure`.
pub mod Lock
use defing.Prelude.{
  ℕ, suc, ◌+◌, Bool, false, not, ◌&&◌, List, [], ◌∷◌, Option, none, some, Bytes, bytes_eq, ◌==◌,
  is_empty, is_some, if◌then◌else◌,
}
use defing.Prelude.Int.{ℤ}
use defing.BTreeMap.{BTreeMap}
use defing.BTreeMap.Nested.{get2, insert2, remove_item}
use defing.BTreeMap.Retain.{retain2}
use defing.Error.{Result, ok, err, not_found, conflict, no_draft, publish_blocked, internal}
use defing.Gray.Commands.{gray_snapshot_of, next_monotonic}
use defing.Keys.{struct_key, struct_draft_key, branch_state_key, gray_snap_key}
use defing.Machine.{Action, pure, throw, read, modify, delete_pending, ◌>>=◌, ◌>>◌}
use defing.Model.{
  ValueType, ItemDef, GroupDef, Structure, VersionKind, EventType, PublishEvent, PublishPolicy,
  SharedItem,
}
use defing.Model.Equality.{type_eq}
use defing.Publish.{Draft, operator_id, active_snapshot}
use defing.Reads.{expect, get_shared, list_branches}
use defing.Serde.{Serde, Kind, Sm, save_pending}
use defing.Validator.{each_item, validate_structure}
use defing.Version.{write_version_snapshot}

-- the index `group → key → item` of a structure (`index` of the draft update; `known` of the
-- structure publish is its keys)
unfoldable pub index_items :
    List (Bytes × ItemDef) → BTreeMap (BTreeMap ItemDef) → BTreeMap (BTreeMap ItemDef)
index_items [] index = index
index_items ((g, item) ∷ items) index = index_items items (insert2 g item.key item index)

-- the removal of the draft values of items that are now shared
unfoldable pub drop_shared : List (Bytes × ItemDef) → Draft → Draft
drop_shared [] draft = draft
drop_shared ((g, item) ∷ items) draft =
    drop_shared items (if item.shared then remove_item g item.key draft else draft)

-- the clean-up of a branch's draft after a structure publish
unfoldable pub clean_draft : List (Bytes × ItemDef) → Draft → Draft
unfolding index_items drop_shared retain2
clean_draft items draft =
    drop_shared items (retain2 (λ g k v. is_some (get2 g k (index_items items []))) draft)

-- `new_shared.get(&(g, k))`: the last item of that name decides
unfoldable pub shared_type : Bytes → Bytes → List (Bytes × ItemDef) → Option ValueType
shared_type g k [] = none
shared_type g k ((h, item) ∷ items) = elim (shared_type g k items) [
  | some ty ↦ some ty
  | none ↦ if item.shared && (bytes_eq h g && bytes_eq item.key k) then some item.ty else none
]

-- the verdict on a binding: the item is shared, and what it is bound to is there with its type
unfoldable pub binding_fits : Option ValueType → Result (Option SharedItem) → Bool
binding_fits none r = false
binding_fits (some ty) (err e) = false
binding_fits (some ty) (ok none) = false
binding_fits (some ty) (ok (some shared)) = type_eq shared.ty ty

-- `!errs.is_empty() && policy == PublishPolicy::Block`
abbrev pub blocks : PublishPolicy → Bool → Bool
blocks PublishPolicy.block errs = errs
blocks PublishPolicy.warn errs = false

module _ (S : Serde) (id : Bytes) where
  -- `apply_structure_draft_set`
  unfoldable pub apply_structure_draft_set : ℕ → List GroupDef → Action S.Raw (List PublishEvent)
  apply_structure_draft_set base_version groups = do
    structure ← read (expect S Kind.structure not_found (struct_key id))
    if not (base_version == structure.version)
        then throw conflict
        else if not (is_empty (validate_structure groups))
        then throw publish_blocked
        else do
          modify (
              save_pending S Kind.structure_draft (struct_draft_key id)
                (record { base_version = base_version; groups = groups }))
          pure []

  -- the retain of the branch's bindings
  unfoldable pub clean_bindings :
      List (Bytes × ItemDef) → BTreeMap (BTreeMap Bytes) → Sm S → BTreeMap (BTreeMap Bytes)
  unfolding shared_type binding_fits retain2
  clean_bindings items bindings m =
      retain2 (λ g k rk. binding_fits (shared_type g k items) (get_shared S rk m)) bindings

  -- the gray snapshot of a branch moves to the number `gray_next`
  unfoldable pub bump_gray : Bytes → ℕ → ℕ → Action S.Raw ℕ
  bump_gray branch gray_seq gray_next = if gray_seq == 0 then pure gray_seq else do
    gray_snap ← read (gray_snapshot_of S id branch gray_seq)
    modify (save_pending S Kind.snapshot (gray_snap_key id branch gray_next) gray_snap)
    modify (delete_pending (gray_snap_key id branch gray_seq))
    pure gray_next

  module _ (comment request_id operator : Bytes) (now_ms : ℤ) (new : Structure) where
    -- one round of the loop of `apply_publish_structure`
    unfoldable pub publish_structure_to : Bytes → Action S.Raw PublishEvent
    unfolding active_snapshot next_monotonic bump_gray clean_draft clean_bindings
    publish_structure_to branch = do
      st ← read (expect S Kind.branch_state internal (branch_state_key id branch))
      values ← read (active_snapshot S id branch st.active_version)
      let vno = next_monotonic st.active_version st.gray_seq
      modify (
          write_version_snapshot S id branch vno values values (record {
            no = vno;
            structure_version = new.version;
            created_at = now_ms;
            operator = operator_id operator;
            comment = comment;
            rollback_of = none;
            kind = VersionKind.full;
            snapshot_ref = none;
            diff_ref = none;
            event_ty = some EventType.structure_publish;
            gray = false;
          }))
      gray_seq ← bump_gray branch st.gray_seq (vno + 1)
      bindings ← read (λ m. ok (clean_bindings (each_item new.groups) st.shared_bindings m))
      modify (
          save_pending S Kind.branch_state (branch_state_key id branch) (record st {
            active_version = vno;
            structure_version = new.version;
            gray_seq = gray_seq;
            value_draft = clean_draft (each_item new.groups) st.value_draft;
            shared_bindings = bindings;
          }))
      pure (record {
        project = id;
        branch = branch;
        version = vno;
        ty = EventType.structure_publish;
        structure_version = new.version;
        comment = comment;
        request_id = request_id;
        changes = [];
        gray = false;
      })

    -- the loop over the branches
    unfoldable pub publish_structure_to_all : List Bytes → Action S.Raw (List PublishEvent)
    unfolding publish_structure_to
    publish_structure_to_all [] = pure []
    publish_structure_to_all (branch ∷ branches) = do
      event ← publish_structure_to branch
      events ← publish_structure_to_all branches
      pure (event ∷ events)

  -- `apply_publish_structure`
  unfoldable pub apply_publish_structure :
      Bytes → Bytes → ℤ → Bytes → PublishPolicy → Action S.Raw (List PublishEvent)
  unfolding publish_structure_to_all
  apply_publish_structure comment request_id now_ms operator policy = do
    structure ← read (expect S Kind.structure not_found (struct_key id))
    draft ← read (expect S Kind.structure_draft no_draft (struct_draft_key id))
    if not (draft.base_version == structure.version)
        then throw conflict
        else if blocks policy (not (is_empty (validate_structure draft.groups)))
        then throw publish_blocked
        else do
          let new : Structure = record { version = suc structure.version; groups = draft.groups }
          branches ← read (λ m. ok (list_branches S id m))
          events ← publish_structure_to_all comment request_id operator now_ms new branches
          modify (save_pending S Kind.structure (struct_key id) new)
          modify (delete_pending (struct_draft_key id))
          pure events

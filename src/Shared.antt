-- ===== src/Shared.antt =====
-- server/crates/dsh-core/src/state.rs: the library of shared items and the cascade of a publish to
-- the branches that are bound to them.
pub mod Loss
pub mod Unbound
use defing.Prelude.{
  ℕ, zero, suc, Bool, true, false, not, ◌&&◌, ◌||◌, List, [], ◌∷◌, ◌++◌, Option, none, some, Bytes,
  codes, bytes_eq, ltb, is_empty, is_some, if◌then◌else◌,
}
use defing.Prelude.Int.{ℤ}
use defing.BTreeMap
use defing.BTreeMap.{BTreeMap}
use defing.BTreeMap.Nested.{insert2}
use defing.Diff.{compute_diff}
use defing.Error.{Result, ok, and_then, validation, conflict, limit_exceeded, no_draft, internal}
use defing.Keys.{shared_key, shared_draft_key, branch_state_key}
use defing.Machine.{Action, pure, throw, read, modify, delete_pending, ◌>>=◌, ◌>>◌}
use defing.Model.{
  ValueType, Value, Project, BranchState, SharedItem, SharedCascadeMode, VersionKind, EventType,
  PublishEvent,
}
use defing.Model.Equality.{type_eq}
use defing.Publish.{active_snapshot}
use defing.Reads.{
  expect, get_shared, get_branch_state, list_projects, list_branches, list_shared_drafts,
}
use defing.Serde.{Serde, Kind, Sm, save_pending}
use defing.Validator.{max_value_bytes, valid_key_name}
use defing.Version.{write_version_snapshot}

-- where a shared item is bound: project, branch, group and key
pub record Usage : Type 0 where
  pub project : Bytes
  pub branch : Bytes
  pub group : Bytes
  pub key : Bytes

-- the two inner loops of `shared_usage`
unfoldable pub usage_items : Bytes → Bytes → Bytes → Bytes → BTreeMap Bytes → List Usage
usage_items key p b g [] = []
usage_items key p b g ((k, rk) ∷ items) =
    let rest = usage_items key p b g items in
    if bytes_eq rk key
    then (record { project = p; branch = b; group = g; key = k }) ∷ rest
    else rest

unfoldable pub usage_groups : Bytes → Bytes → Bytes → BTreeMap (BTreeMap Bytes) → List Usage
unfolding usage_items
usage_groups key p b [] = []
usage_groups key p b ((g, items) ∷ groups) =
    usage_items key p b g items ++ usage_groups key p b groups

abbrev pub usage_state : Bytes → Bytes → Bytes → Option BranchState → List Usage
usage_state key p b none = []
usage_state key p b (some st) = usage_groups key p b st.shared_bindings

-- the version after the one that was published
abbrev pub next_shared_version : Option SharedItem → ℕ
next_shared_version none = suc zero
next_shared_version (some prev) = suc prev.version

-- whether the cascade is automatic
abbrev pub is_auto : SharedCascadeMode → Bool
is_auto SharedCascadeMode.auto = true
is_auto SharedCascadeMode.manual = false

module _ (S : Serde) where
  abbrev Outcome : Type 0
  Outcome = Action S.Raw (List PublishEvent)

  unfoldable pub usage_branches : Bytes → Bytes → List Bytes → Sm S → Result (List Usage)
  unfolding usage_groups
  usage_branches key p [] m = ok []
  usage_branches key p (b ∷ bs) m =
      and_then (get_branch_state S p b m)
        (λ st. and_then (usage_branches key p bs m) (λ rest. ok (usage_state key p b st ++ rest)))

  unfoldable pub usage_projects : Bytes → List Project → Sm S → Result (List Usage)
  unfolding usage_branches
  usage_projects key [] m = ok []
  usage_projects key (p ∷ ps) m =
      and_then (usage_branches key p.id (list_branches S p.id m) m)
        (λ here. and_then (usage_projects key ps m) (λ rest. ok (here ++ rest)))

  -- `shared_usage`
  unfoldable pub shared_usage : Bytes → Sm S → Result (List Usage)
  unfolding usage_projects
  shared_usage key m = usage_projects key (list_projects S m) m

  -- `apply_shared_draft_update`
  unfoldable pub apply_shared_draft_update : SharedItem → Outcome
  apply_shared_draft_update item =
      if is_empty item.key || not (valid_key_name item.key)
      then throw validation
      else if item.secret && not (type_eq item.ty ValueType.secret)
      then throw validation
      else if not item.secret && type_eq item.ty ValueType.secret
      then throw validation
      else if ltb max_value_bytes (S.len (S.to_vec Kind.shared_item item))
      then throw limit_exceeded
      else do modify (save_pending S Kind.shared_item (shared_draft_key item.key) item); pure []

  module _ (comment request_id : Bytes) (now_ms : ℤ) where
    -- `cascade_to_branch`, with the event that it adds
    unfoldable pub cascade_to_branch : Usage → Value → Action S.Raw PublishEvent
    unfolding active_snapshot
    cascade_to_branch u value = do
      st ← read (expect S Kind.branch_state internal (branch_state_key u.project u.branch))
      old ← read (active_snapshot S u.project u.branch st.active_version)
      let new_snap = insert2 u.group u.key value old
      let vno = suc st.active_version
      modify (
          write_version_snapshot S u.project u.branch vno old new_snap (record {
            no = vno;
            structure_version = st.structure_version;
            created_at = now_ms;
            operator = codes "shared";
            comment = comment;
            rollback_of = none;
            kind = VersionKind.full;
            snapshot_ref = none;
            diff_ref = none;
            event_ty = some EventType.shared_cascade;
            gray = false;
          }))
      modify (
          save_pending S Kind.branch_state (branch_state_key u.project u.branch)
            (record st { active_version = vno }))
      pure (record {
        project = u.project;
        branch = u.branch;
        version = vno;
        ty = EventType.shared_cascade;
        structure_version = st.structure_version;
        comment = comment;
        request_id = request_id;
        changes = compute_diff old new_snap;
        gray = false;
      })

    -- the loop over the places where the item is bound
    unfoldable pub cascade_all : List Usage → Value → Outcome
    unfolding cascade_to_branch
    cascade_all [] value = pure []
    cascade_all (u ∷ us) value = do
      event ← cascade_to_branch u value
      events ← cascade_all us value
      pure (event ∷ events)

    unfoldable pub cascade_item : SharedCascadeMode → SharedItem → Outcome
    unfolding cascade_all shared_usage
    cascade_item mode item =
        if not (is_auto mode)
        then pure []
        else do usage ← read (shared_usage item.key); cascade_all usage item.value

    -- One round of the loop of `apply_shared_publish`. The draft is deleted in the store itself,
    -- past the pending operations.
    unfoldable pub publish_shared : SharedCascadeMode → SharedItem → Outcome
    unfolding cascade_item
    publish_shared mode item = do
      prev ← read (get_shared S item.key)
      modify (
          save_pending S Kind.shared_item (shared_key item.key)
            (record item { version = next_shared_version prev }))
      modify (λ m. record m { store = BTreeMap.remove (shared_draft_key item.key) m.store })
      cascade_item mode item

    unfoldable pub publish_all_shared : SharedCascadeMode → List SharedItem → Outcome
    unfolding publish_shared
    publish_all_shared mode [] = pure []
    publish_all_shared mode (item ∷ items) = do
      events ← publish_shared mode item
      rest ← publish_all_shared mode items
      pure (events ++ rest)

    -- `apply_shared_publish`
    unfoldable pub apply_shared_publish : SharedCascadeMode → Outcome
    unfolding publish_all_shared
    apply_shared_publish mode = do
      drafts ← read (λ m. ok (list_shared_drafts S m))
      if is_empty drafts then throw no_draft else publish_all_shared mode drafts

  -- the check of `apply_shared_delete` on a published item, and its delete
  unfoldable pub delete_published : Bytes → Outcome
  unfolding shared_usage
  delete_published key = do
    refs ← read (shared_usage key)
    if not (is_empty refs)
        then throw conflict
        else do modify (delete_pending (shared_key key)); pure []

  -- `apply_shared_delete`
  unfoldable pub apply_shared_delete : Bytes → Outcome
  unfolding delete_published
  apply_shared_delete key = if not (valid_key_name key) then throw validation else do
    current ← read (get_shared S key)
    _ ← if is_some current then delete_published key else pure []
    modify (delete_pending (shared_draft_key key))
    pure []

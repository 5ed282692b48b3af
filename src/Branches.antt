-- ===== src/Branches.antt =====
-- server/crates/dsh-core/src/state.rs: `apply_branch_create` and `apply_branch_delete`.
use defing.Prelude.{
  Bool, false, not, ◌&&◌, ◌||◌, List, [], ◌∷◌, Option, none, some, Bytes, bytes_eq, ltb, leb, ◌==◌,
  length, is_empty, is_some, any, if◌then◌else◌,
}
use defing.Prelude.Int.{ℤ}
use defing.BTreeMap.{BTreeMap}
use defing.BTreeMap.Retain.{retain2}
use defing.Error.{Result, ok, err, and_then, not_found, validation, conflict, limit_exceeded}
use defing.Keys.{project_key, branch_prefix, branch_state_key}
use defing.Machine.{Action, pure, throw, read, modify, ◌>>=◌, ◌>>◌}
use defing.Model.{
  Value, ItemDef, Structure, BranchState, DraftValue, SnapshotMap, PublishEvent, new_branch_state,
}
use defing.Publish.{Draft}
use defing.Reads.{expect, get_structure, get_branch_state, list_branches}
use defing.Serde.{Serde, Kind, Sm, save_pending}
use defing.Sessions.{delete_prefix}
use defing.Validator.{max_branches_per_project, valid_branch, each_item}
use defing.Version.{snapshot_of}

-- `shared_items.contains(&(g, k))`
unfoldable pub is_shared_item : Bytes → Bytes → List (Bytes × ItemDef) → Bool
is_shared_item g k items = any (λ gi. gi.1.shared && (bytes_eq gi.0 g && bytes_eq gi.1.key k)) items

-- a snapshot's values as draft values of the time `now_ms`
unfoldable pub stamp_items : ℤ → BTreeMap Value → BTreeMap DraftValue
stamp_items now_ms [] = []
stamp_items now_ms ((k, v) ∷ items) =
    (k, record { value = v; updated_at = now_ms }) ∷ stamp_items now_ms items

unfoldable pub stamp : ℤ → SnapshotMap → Draft
unfolding stamp_items
stamp now_ms [] = []
stamp now_ms ((g, items) ∷ snap) = (g, stamp_items now_ms items) ∷ stamp now_ms snap

-- The draft that a branch gets from its source's snapshot: no shared items, no empty groups.
unfoldable pub clone_draft : ℤ → List (Bytes × ItemDef) → SnapshotMap → Draft
unfolding is_shared_item stamp retain2
clone_draft now_ms items snap =
    stamp now_ms (retain2 (λ g k v. not (is_shared_item g k items)) snap)

-- `unwrap_or(Structure { version: 1, groups: vec![] })`
abbrev pub structure_or_empty : Option Structure → Structure
structure_or_empty none = record { version = 1; groups = [] }
structure_or_empty (some structure) = structure

module _ (S : Serde) where
  -- the state of the new branch
  unfoldable pub branch_from : Bytes → Option Bytes → ℤ → Structure → Sm S → Result BranchState
  unfolding clone_draft
  branch_from id none now_ms structure m = ok (new_branch_state structure.version)
  branch_from id (some src) now_ms structure m =
      and_then (expect S Kind.branch_state validation (branch_state_key id src) m) (λ src_state.
        if src_state.active_version == 0
        then err validation
        else and_then (snapshot_of S id src src_state.active_version m) (λ snap.
          ok (record (new_branch_state structure.version) {
            value_draft = clone_draft now_ms (each_item structure.groups) snap;
            shared_bindings = src_state.shared_bindings;
            bindings_dirty = false;
          })))

  -- `apply_branch_create`
  unfoldable pub apply_branch_create :
      Bytes → Bytes → Option Bytes → ℤ → Action S.Raw (List PublishEvent)
  unfolding branch_from
  apply_branch_create id name source now_ms =
      if not (valid_branch name) then throw validation else do
        _ ← read (expect S Kind.project not_found (project_key id))
        current ← read (get_branch_state S id name)
        if is_some current then throw conflict else do
          branches ← read (λ m. ok (list_branches S id m))
          if leb max_branches_per_project (length branches) then throw limit_exceeded else do
            structure ← read (get_structure S id)
            state ← read (branch_from id source now_ms (structure_or_empty structure))
            modify (save_pending S Kind.branch_state (branch_state_key id name) state)
            pure []

  -- `apply_branch_delete`: its loop takes every key that starts with `p/{id}/b/{name}`
  unfoldable pub apply_branch_delete : Bytes → Bytes → Action S.Raw (List PublishEvent)
  unfolding delete_prefix
  apply_branch_delete id name = do
    st ← read (expect S Kind.branch_state not_found (branch_state_key id name))
    if ltb 0 st.active_version || not (is_empty st.value_draft)
        then throw conflict
        else do modify (delete_prefix (branch_prefix id name)); pure []

-- ===== src/Drafts.antt =====
-- server/crates/dsh-core/src/state.rs: `apply_draft_update`; `DraftUpdateItem` and `SharedBinding`
-- of command.rs.
pub mod Lock
use defing.Prelude.{
  ℕ, suc, ◌+◌, Bool, true, false, not, ◌||◌, List, [], ◌∷◌, Option, none, some, Bytes, bytes_eq,
  ltb, ◌==◌, length, is_empty, is_some, if◌then◌else◌,
}
use defing.Prelude.Int.{ℤ}
use defing.BTreeMap.{BTreeMap}
use defing.BTreeMap.Nested.{get2, insert2, remove_item, remove2}
use defing.Error.{Result, ok, err, and_then, not_found, validation, conflict, limit_exceeded}
use defing.Keys.{struct_key, shared_key, branch_state_key}
use defing.Machine.{Action, pure, throw, read, modify, ◌>>=◌, ◌>>◌}
use defing.Model.{Value, ItemDef, PublishEvent}
use defing.Model.Equality.{type_eq}
use defing.Publish.{Draft}
use defing.Reads.{expect, or_fail}
use defing.Serde.{Serde, Kind, Sm, save_pending}
use defing.Structures.{index_items}
use defing.Validator.{
  max_items_per_project, max_value_bytes, each_item, valid_key_name, validate_value,
}

pub record DraftUpdateItem : Type 0 where
  pub group : Bytes
  pub key : Bytes
  pub value : Value

pub record SharedBinding : Type 0 where
  pub group : Bytes
  pub key : Bytes
  pub shared_key : Bytes

abbrev pub Index : Type 0
Index = BTreeMap (BTreeMap ItemDef)

-- the bindings, and whether one has changed
abbrev pub Bound : Type 0
Bound = BTreeMap (BTreeMap Bytes) × Bool

-- the number of values in a draft
unfoldable pub draft_size : Draft → ℕ
draft_size [] = 0
draft_size ((g, items) ∷ draft) = length items + draft_size draft

-- `expected_draft_rev` is given and is not the draft's number
unfoldable pub is_stale : Option ℕ → ℕ → Bool
is_stale none rev = false
is_stale (some expected) rev = not (expected == rev)

-- `cur != Some(shared_key)`
abbrev pub differs : Option Bytes → Bytes → Bool
differs none key = true
differs (some cur) key = not (bytes_eq cur key)

-- `for (g, key) in deletes`: a group that loses its last value stays
unfoldable pub delete_values : List (Bytes × Bytes) → Draft → Draft
delete_values [] draft = draft
delete_values ((g, key) ∷ deletes) draft = delete_values deletes (remove_item g key draft)

-- `for u in updates`
unfoldable pub set_values : ℤ → List DraftUpdateItem → Draft → Draft
set_values now_ms [] draft = draft
set_values now_ms (u ∷ updates) draft =
    set_values now_ms updates
      (insert2 u.group u.key (record { value = u.value; updated_at = now_ms }) draft)

module _ (S : Serde) where
  -- One round of the loop that checks the updates, with the number of values so far.
  unfoldable pub check_update : Index → Draft → DraftUpdateItem → ℕ → Result ℕ
  check_update index draft u total =
      and_then (or_fail validation (get2 u.group u.key index)) (λ def.
        if def.shared || not (is_empty (validate_value S.json_valid def u.value))
        then err validation
        else if ltb max_value_bytes (S.len (S.to_vec Kind.value u.value))
        then err limit_exceeded
        else if is_some (get2 u.group u.key draft)
        then ok total
        else if ltb max_items_per_project (suc total)
        then err limit_exceeded
        else ok (suc total))

  unfoldable pub check_updates : Index → Draft → List DraftUpdateItem → ℕ → Result ℕ
  unfolding check_update
  check_updates index draft [] total = ok total
  check_updates index draft (u ∷ updates) total =
      and_then (check_update index draft u total) (check_updates index draft updates)

  -- A binding to nothing removes the one that is there.
  unfoldable pub unbind : SharedBinding → Bound → Bound
  unbind b (bindings, changed) =
      if is_some (get2 b.group b.key bindings)
      then (remove2 b.group b.key bindings, true)
      else (bindings, changed)

  -- A binding to a shared item, which must be published and have the item's type.
  unfoldable pub bind_to : SharedBinding → ItemDef → Bound → Sm S → Result Bound
  bind_to b def (bindings, changed) m =
      if not (valid_key_name b.shared_key)
      then err validation
      else and_then (expect S Kind.shared_item validation (shared_key b.shared_key) m) (λ shared.
        if not (type_eq shared.ty def.ty)
        then err validation
        else ok (
          insert2 b.group b.key b.shared_key bindings,
          changed || differs (get2 b.group b.key bindings) b.shared_key,
        ))

  -- one round of the loop over the bindings
  unfoldable pub bind : Index → SharedBinding → Bound → Sm S → Result Bound
  unfolding unbind bind_to
  bind index b bound m = and_then (or_fail validation (get2 b.group b.key index)) (λ def.
      if not def.shared
      then err validation
      else if is_empty b.shared_key
      then ok (unbind b bound)
      else bind_to b def bound m)

  unfoldable pub bind_all : Index → List SharedBinding → Bound → Sm S → Result Bound
  unfolding bind
  bind_all index [] bound m = ok bound
  bind_all index (b ∷ bs) bound m =
      and_then (bind index b bound m) (λ bound'. bind_all index bs bound' m)

  -- `apply_draft_update`
  unfoldable pub apply_draft_update :
      Bytes
      → Bytes
      → List DraftUpdateItem
      → List (Bytes × Bytes)
      → List SharedBinding
      → ℤ
      → Option ℕ
      → Action S.Raw (List PublishEvent)
  unfolding draft_size is_stale delete_values set_values check_updates bind_all
  apply_draft_update id branch updates deletes bindings now_ms expected = do
    st ← read (expect S Kind.branch_state not_found (branch_state_key id branch))
    if is_stale expected st.draft_rev then throw conflict else do
      structure ← read (expect S Kind.structure not_found (struct_key id))
      let index = index_items (each_item structure.groups) []
      _ ← read (λ m. check_updates index st.value_draft updates (draft_size st.value_draft))
      bound ← read (bind_all index bindings (st.shared_bindings, false))
      modify (
          save_pending S Kind.branch_state (branch_state_key id branch) (record st {
            value_draft = set_values now_ms updates (delete_values deletes st.value_draft);
            shared_bindings = bound.0;
            bindings_dirty = st.bindings_dirty || bound.1;
            draft_rev = suc st.draft_rev;
          }))
      pure []

-- ===== src/Rewrap.antt =====
-- server/crates/dsh-core/src/state.rs: `rewrap_deks`, which goes through every stored secret after a
-- change of the master key. `f` is the closure that the job gives it: nothing for a ciphertext that
-- is to stay, and else the new one or an error.
pub mod Secrets
use defing.Prelude.{
  ℕ, suc, Bool, true, false, ◌&&◌, ◌||◌, List, [], ◌∷◌, ◌++◌, Option, none, some, Bytes, codes,
  ends_with, starts_with, strip_prefix, if◌then◌else◌,
}
use defing.BTreeMap
use defing.BTreeMap.{BTreeMap}
use defing.Error.{Result, ok, err, and_then}
use defing.Keys.{k_shared, k_shared_draft, k_gray_snap, k_project, k_branch, k_state}
use defing.Machine.{Action, get_prefix_merged}
use defing.Model.{
  Ciphertext, Value, SnapshotMap, DiffEntry, ChangeKind, upsert, delete, SharedItem, DraftValue,
  BranchState,
}
use defing.Serde.{Serde, Kind, Sem, Sm}

-- `key.contains(p)` for a text `p`
unfoldable pub contains_text : Bytes → Bytes → Bool
contains_text [] p = starts_with [] p
contains_text (c ∷ s) p = starts_with (c ∷ s) p || contains_text s p

-- A loop over the values of a map, with `changed`; an error ends it.
unfoldable pub rewrap_entries :
    {A : Type 0} → (A → Result (Bool × A)) → BTreeMap A → Result (Bool × BTreeMap A)
rewrap_entries rewrap [] = ok (false, [])
rewrap_entries rewrap ((k, a) ∷ m) =
    and_then (rewrap a)
      (λ r. and_then (rewrap_entries rewrap m) (λ rest. ok (r.0 || rest.0, (k, r.1) ∷ rest.1)))

module _ (f : Ciphertext → Option (Result Ciphertext)) where
  abbrev pub replaced : Value → Option (Result Ciphertext) → Result (Bool × Value)
  replaced v none = ok (false, v)
  replaced v (some res) = and_then res (λ ct. ok (true, Value.secret ct))

  -- `rewrap_value`: whether the value was rewritten, and the value
  unfoldable pub rewrap_value : Value → Result (Bool × Value)
  rewrap_value (Value.secret ct) = replaced (Value.secret ct) (f ct)
  rewrap_value v = ok (false, v)

  -- `rewrap_snapshot`
  unfoldable pub rewrap_snapshot : SnapshotMap → Result (Bool × SnapshotMap)
  unfolding rewrap_entries rewrap_value
  rewrap_snapshot = rewrap_entries (rewrap_entries rewrap_value)

  abbrev pub rewrap_new_value : DiffEntry → Option Value → Result (Bool × DiffEntry)
  rewrap_new_value entry none = ok (false, entry)
  rewrap_new_value entry (some v) =
      and_then (rewrap_value v) (λ r. ok (r.0, record entry { new_value = some r.1 }))

  unfoldable pub rewrap_entry : ChangeKind → DiffEntry → Result (Bool × DiffEntry)
  rewrap_entry upsert entry = rewrap_new_value entry entry.new_value
  rewrap_entry delete entry = ok (false, entry)

  -- the loop over a diff
  unfoldable pub rewrap_diff : List DiffEntry → Result (Bool × List DiffEntry)
  unfolding rewrap_entry rewrap_value
  rewrap_diff [] = ok (false, [])
  rewrap_diff (entry ∷ diff) =
      and_then (rewrap_entry entry.kind entry)
        (λ r. and_then (rewrap_diff diff) (λ rest. ok (r.0 || rest.0, r.1 ∷ rest.1)))

  unfoldable pub rewrap_item : SharedItem → Result (Bool × SharedItem)
  unfolding rewrap_value
  rewrap_item item = and_then (rewrap_value item.value) (λ r. ok (r.0, record item { value = r.1 }))

  unfoldable pub rewrap_draft_value : DraftValue → Result (Bool × DraftValue)
  unfolding rewrap_value
  rewrap_draft_value dv =
      and_then (rewrap_value dv.value) (λ r. ok (r.0, record dv { value = r.1 }))

  -- the loop over the draft of a branch
  unfoldable pub rewrap_state : BranchState → Result (Bool × BranchState)
  unfolding rewrap_entries rewrap_draft_value
  rewrap_state st =
      and_then (rewrap_entries (rewrap_entries rewrap_draft_value) st.value_draft)
        (λ r. ok (r.0, record st { value_draft = r.1 }))

  module _ (S : Serde) where
    -- The document to save under a key, if any: one that does not parse is passed over.
    abbrev pub to_save :
        (k : Kind) → (Sem k → Result (Bool × Sem k)) → Option (Sem k) → Result (Option S.Raw)
    to_save k rewrap none = ok none
    to_save k rewrap (some x) =
        and_then (rewrap x) (λ r. ok (if r.0 then some (S.to_vec k r.1) else none))

    -- `p/{id}/b/{branch}/state`
    abbrev pub is_state_key : Bytes → Bool
    is_state_key key = elim (strip_prefix key k_project) [
      | none ↦ false
      | some rest ↦ contains_text rest k_branch && ends_with key k_state
    ]

    -- what the kinds of key in the loop of `rewrap_deks` do with the document of one row
    unfoldable pub rewrap_row : Bytes → S.Raw → Result (Option S.Raw)
    unfolding rewrap_snapshot rewrap_diff rewrap_item rewrap_state contains_text
    rewrap_row key raw =
        if ends_with key (codes "/snap")
        then to_save Kind.snapshot rewrap_snapshot (S.from_slice Kind.snapshot raw)
        else if ends_with key (codes "/diff")
        then to_save Kind.diff rewrap_diff (S.from_slice Kind.diff raw)
        else if starts_with key k_shared || starts_with key k_shared_draft
        then to_save Kind.shared_item rewrap_item (S.from_slice Kind.shared_item raw)
        else if contains_text key k_gray_snap
        then to_save Kind.snapshot rewrap_snapshot (S.from_slice Kind.snapshot raw)
        else if is_state_key key
        then to_save Kind.branch_state rewrap_state (S.from_slice Kind.branch_state raw)
        else ok none

    -- `save`: straight to the store
    abbrev pub save_raw : Bytes → Option S.Raw → ℕ × Sm S → ℕ × Sm S
    save_raw key none s = s
    save_raw key (some raw) (count, m) =
        (suc count, record m { store = BTreeMap.insert key raw m.store })

    abbrev pub save_row :
        Bytes → Result (Option S.Raw) → (ℕ × Sm S → Result ℕ × Sm S) → ℕ × Sm S → Result ℕ × Sm S
    save_row key (ok new) rest s = rest (save_raw key new s)
    save_row key (err e) rest s = (err e, s.1)

    -- The loop of `rewrap_deks`; an error leaves what was saved before it.
    unfoldable pub rewrap_rows : BTreeMap S.Raw → ℕ × Sm S → Result ℕ × Sm S
    unfolding rewrap_row
    rewrap_rows [] (count, m) = (ok count, m)
    rewrap_rows ((key, raw) ∷ rows) s = save_row key (rewrap_row key raw) (rewrap_rows rows) s

    -- `rewrap_deks`
    unfoldable pub rewrap_deks : Action S.Raw ℕ
    unfolding rewrap_rows
    rewrap_deks m = rewrap_rows (get_prefix_merged [] m) (0, m)

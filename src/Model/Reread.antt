-- ===== src/Model/Reread.antt =====
-- server/crates/dsh-core/src/model.rs, what serde_json makes of the floats of a document that is
-- written and read again. A text for a finite float need not be read as the same float, and NaN and
-- the infinities are written as null and read as 0. Here `reread` gives, for the bits of a float,
-- the bits that are read. Everything else in a document is read as it was.
use defing.Prelude.{
  ℕ, List, [], ◌∷◌, ◌++◌, Option, none, some, ◌≡◌, refl, ap, ◌∙◌, Bytes, Bool-cases, inl, inr, not,
  is_some,
}
use defing.BTreeMap.{BTreeMap}
use defing.BTreeMap.Nested.{get2}
use defing.Diff.{
  upsert_entry, delete_entry, upsert_items, upserts, delete_items, deletes, compute_diff,
}
use defing.Model.{Value, DraftValue, BranchState, DiffEntry, SharedItem, SnapshotMap}
use defing.Model.Equality.{is_value}

module _ (reread : ℕ → ℕ) where
  -- `Value::deserialize` of `Value::serialize`
  abbrev pub reread_value : Value → Value
  reread_value (Value.float bits) = Value.float (reread bits)
  reread_value v = v

  abbrev pub reread_items : BTreeMap Value → BTreeMap Value
  reread_items [] = []
  reread_items ((k, v) ∷ items) = (k, reread_value v) ∷ reread_items items

  abbrev pub reread_snapshot : SnapshotMap → SnapshotMap
  reread_snapshot [] = []
  reread_snapshot ((g, items) ∷ snap) = (g, reread_items items) ∷ reread_snapshot snap

  abbrev pub reread_new : Option Value → Option Value
  reread_new none = none
  reread_new (some v) = some (reread_value v)

  abbrev pub reread_diff : List DiffEntry → List DiffEntry
  reread_diff [] = []
  reread_diff (e ∷ es) = record e { new_value = reread_new e.new_value } ∷ reread_diff es

  abbrev pub reread_drafts : BTreeMap DraftValue → BTreeMap DraftValue
  reread_drafts [] = []
  reread_drafts ((k, d) ∷ items) =
      (k, record d { value = reread_value d.value }) ∷ reread_drafts items

  abbrev pub reread_draft : BTreeMap (BTreeMap DraftValue) → BTreeMap (BTreeMap DraftValue)
  reread_draft [] = []
  reread_draft ((g, items) ∷ draft) = (g, reread_drafts items) ∷ reread_draft draft

  abbrev pub reread_state : BranchState → BranchState
  reread_state st = record st { value_draft = reread_draft st.value_draft }

  abbrev pub reread_shared : SharedItem → SharedItem
  reread_shared item = record item { value = reread_value item.value }

  abbrev ExactItems : BTreeMap Value → Type 0
  ExactItems [] = Unit
  ExactItems ((k, v) ∷ items) = (reread_value v ≡ v) × ExactItems items

  -- no float of the snapshot is read as another
  abbrev pub IsExact : SnapshotMap → Type 0
  IsExact [] = Unit
  IsExact ((g, items) ∷ snap) = ExactItems items × IsExact snap

  exact_items : (items : BTreeMap Value) → ExactItems items → reread_items items ≡ items
  exact_items [] h = refl
  exact_items ((k, v) ∷ items) (e, h) =
      ap (λ (z : Value). (k, z) ∷ reread_items items) e
      ∙ ap (λ (z : BTreeMap Value). (k, v) ∷ z) (exact_items items h)

  pub reread_snapshot-IsExact : (snap : SnapshotMap) → IsExact snap → reread_snapshot snap ≡ snap
  reread_snapshot-IsExact [] h = refl
  reread_snapshot-IsExact ((g, items) ∷ snap) (e, h) =
      ap (λ (z : BTreeMap Value). (g, z) ∷ reread_snapshot snap) (exact_items items e)
      ∙ ap (λ (z : SnapshotMap). (g, items) ∷ z) (reread_snapshot-IsExact snap h)

  reread_diff-append :
      (es fs : List DiffEntry) → reread_diff (es ++ fs) ≡ reread_diff es ++ reread_diff fs
  reread_diff-append [] fs = refl
  reread_diff-append (e ∷ es) fs =
      ap (λ (z : List DiffEntry). record e { new_value = reread_new e.new_value } ∷ z)
        (reread_diff-append es fs)

  upsert_items-exact :
      (old : SnapshotMap) (g : Bytes) (items : BTreeMap Value)
      → ExactItems items
      → reread_diff (upsert_items old g items) ≡ upsert_items old g items
  unfolding upsert_items
  upsert_items-exact old g [] h = refl
  upsert_items-exact old g ((k, v) ∷ items) (e, h) = elim (Bool-cases (is_value (get2 g k old) v)) [
    | inl same ↦ rw same (upsert_items-exact old g items h)
    | inr other ↦ rw other (
        ap (λ (z : Value). upsert_entry g k z ∷ reread_diff (upsert_items old g items)) e
        ∙ ap (λ (z : List DiffEntry). upsert_entry g k v ∷ z) (upsert_items-exact old g items h))
  ]

  upserts-exact :
      (old new : SnapshotMap) → IsExact new → reread_diff (upserts old new) ≡ upserts old new
  unfolding upserts
  upserts-exact old [] h = refl
  upserts-exact old ((g, items) ∷ new) (e, h) =
      reread_diff-append (upsert_items old g items) (upserts old new)
      ∙ ap (λ z. z ++ reread_diff (upserts old new)) (upsert_items-exact old g items e)
      ∙ ap (λ z. upsert_items old g items ++ z) (upserts-exact old new h)

  delete_items-exact :
      (new : SnapshotMap) (g : Bytes) (items : BTreeMap Value)
      → reread_diff (delete_items new g items) ≡ delete_items new g items
  unfolding delete_items
  delete_items-exact new g [] = refl
  delete_items-exact new g ((k, v) ∷ items) = elim (Bool-cases (not (is_some (get2 g k new)))) [
    | inl gone ↦
        rw gone (ap (λ (z : List DiffEntry). delete_entry g k ∷ z) (delete_items-exact new g items))
    | inr there ↦ rw there (delete_items-exact new g items)
  ]

  deletes-exact : (old new : SnapshotMap) → reread_diff (deletes old new) ≡ deletes old new
  unfolding deletes
  deletes-exact [] new = refl
  deletes-exact ((g, items) ∷ old) new =
      reread_diff-append (delete_items new g items) (deletes old new)
      ∙ ap (λ z. z ++ reread_diff (deletes old new)) (delete_items-exact new g items)
      ∙ ap (λ z. delete_items new g items ++ z) (deletes-exact old new)

  -- The diff to a snapshot whose floats are read as they are is read as it is.
  pub reread_diff-compute_diff :
      (old new : SnapshotMap)
      → IsExact new
      → reread_diff (compute_diff old new) ≡ compute_diff old new
  unfolding compute_diff
  reread_diff-compute_diff old new h =
      reread_diff-append (upserts old new) (deletes old new)
      ∙ ap (λ z. z ++ reread_diff (deletes old new)) (upserts-exact old new h)
      ∙ ap (λ z. upserts old new ++ z) (deletes-exact old new)

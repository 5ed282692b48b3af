-- ===== src/Shared/Loss.antt =====
-- What the publish of shared items takes out of the store, past the pending operations.
use defing.Prelude.{
  List, [], ◌∷◌, ◌++◌, Option, none, true, ◌≡◌, refl, ◌∙◌, Bytes, bytes_eq_refl, starts_with,
}
use defing.Prelude.Int.{ℤ}
use defing.BTreeMap
use defing.BTreeMap.{BTreeMap, get-remove}
use defing.Commands.Handlers.{save_pending-store, write_version_snapshot-store}
use defing.Keys.{k_shared_draft, shared_key, shared_draft_key}
use defing.Machine.{pure, modify, continue, ◌>>=◌}
use defing.Error.{Result, ok, err}
use defing.Machine.Removes.{
  IsPart-remove, Removes, Removes-bind, Removes-pure, Removes-throw, removes_rules,
}
use defing.Model.{PublishEvent, SharedItem, SharedCascadeMode, Value}
use defing.Reads.{list_shared_drafts, get_shared}
use defing.Serde.{Serde, Kind, Sm, save_pending}
use defing.Shared.{
  Usage, cascade_to_branch, cascade_all, cascade_item, publish_shared, publish_all_shared,
  apply_shared_publish, next_shared_version,
}

draft_key_inside : (key : Bytes) → starts_with (shared_draft_key key) k_shared_draft ≡ true
unfolding shared_draft_key starts_with
draft_key_inside [] = refl
draft_key_inside (c ∷ key) = refl

-- the delete of a draft in the store
Removes-draft :
    {R : Type 0} (key : Bytes)
    → Removes {R = R} k_shared_draft
        (modify (λ m. record m { store = BTreeMap.remove (shared_draft_key key) m.store }))
Removes-draft key = record {
  at = λ m. IsPart-remove k_shared_draft (shared_draft_key key) m.store (draft_key_inside key);
}

module _ (S : Serde) (comment request_id : Bytes) (now_ms : ℤ) where
  ruleset shared_rules =
      (removes_rules, save_pending-store, write_version_snapshot-store, Removes-draft)

  cascade_to_branch-Removes :
      (u : Usage) (value : Value)
      → Removes k_shared_draft (cascade_to_branch S comment request_id now_ms u value)
  unfolding cascade_to_branch
  cascade_to_branch-Removes u value = search shared_rules depth 20

  cascade_all-Removes :
      (us : List Usage) (value : Value)
      → Removes k_shared_draft (cascade_all S comment request_id now_ms us value)
  unfolding cascade_all
  cascade_all-Removes [] value = search shared_rules
  cascade_all-Removes (u ∷ us) value =
      Removes-bind (cascade_to_branch S comment request_id now_ms u value) _
        (cascade_to_branch-Removes u value)
        (λ event.
          Removes-bind (cascade_all S comment request_id now_ms us value) _
            (cascade_all-Removes us value) (λ events. Removes-pure (event ∷ events)))

  cascade_item-Removes :
      (mode : SharedCascadeMode) (item : SharedItem)
      → Removes k_shared_draft (cascade_item S comment request_id now_ms mode item)
  unfolding cascade_item
  cascade_item-Removes mode item = search (shared_rules, cascade_all-Removes) depth 20

  publish_shared-Removes :
      (mode : SharedCascadeMode) (item : SharedItem)
      → Removes k_shared_draft (publish_shared S comment request_id now_ms mode item)
  unfolding publish_shared
  publish_shared-Removes mode item = search (shared_rules, cascade_item-Removes) depth 20

  publish_all_shared-Removes :
      (mode : SharedCascadeMode) (items : List SharedItem)
      → Removes k_shared_draft (publish_all_shared S comment request_id now_ms mode items)
  unfolding publish_all_shared
  publish_all_shared-Removes mode [] = search shared_rules
  publish_all_shared-Removes mode (item ∷ items) =
      Removes-bind (publish_shared S comment request_id now_ms mode item) _
        (publish_shared-Removes mode item)
        (λ events.
          Removes-bind (publish_all_shared S comment request_id now_ms mode items) _
            (publish_all_shared-Removes mode items) (λ rest. Removes-pure (events ++ rest)))

  pub apply_shared_publish-Removes :
      (mode : SharedCascadeMode)
      → Removes k_shared_draft (apply_shared_publish S comment request_id now_ms mode)
  unfolding apply_shared_publish
  apply_shared_publish-Removes mode = search (shared_rules, publish_all_shared-Removes) depth 20

  -- The draft of an item whose published state can be read is out of the store once its round of
  -- the loop is over, whether the cascade has succeeded or failed.
  publish_shared-gone :
      (mode : SharedCascadeMode) (item : SharedItem) (prev : Option SharedItem) (m : Sm S)
      → get_shared S item.key m ≡ ok prev
      → BTreeMap.get
          (shared_draft_key item.key)
          (publish_shared S comment request_id now_ms mode item m).1.store
        ≡ none
  unfolding publish_shared
  publish_shared-gone mode item prev m has =
      let published =
        save_pending S Kind.shared_item (shared_key item.key)
          (record item { version = next_shared_version prev }) m in
      let after : Sm S = record published {
        store = BTreeMap.remove (shared_draft_key item.key) published.store;
      } in
      rw has (
        ((cascade_item-Removes mode item).at after).missing (shared_draft_key item.key) (
          get-remove (shared_draft_key item.key) (shared_draft_key item.key) published.store
          ∙ rw bytes_eq_refl refl))

  rest-Removes :
      (mode : SharedCascadeMode) (items : List SharedItem) (r : Result (List PublishEvent))
      → Removes k_shared_draft (
          continue r (λ events.
            publish_all_shared S comment request_id now_ms mode items >>= λ rest.
            pure (events ++ rest)))
  rest-Removes mode items (err e) = Removes-throw e
  rest-Removes mode items (ok events) =
      Removes-bind (publish_all_shared S comment request_id now_ms mode items) _
        (publish_all_shared-Removes mode items) (λ rest. Removes-pure (events ++ rest))

  pub apply_shared_publish-gone :
      (mode : SharedCascadeMode) (item : SharedItem) (items : List SharedItem)
      (prev : Option SharedItem) (m : Sm S)
      → list_shared_drafts S m ≡ item ∷ items
      → get_shared S item.key m ≡ ok prev
      → BTreeMap.get
          (shared_draft_key item.key)
          (apply_shared_publish S comment request_id now_ms mode m).1.store
        ≡ none
  unfolding apply_shared_publish publish_all_shared
  apply_shared_publish-gone mode item items prev m drafts has =
      let r = publish_shared S comment request_id now_ms mode item m in
      rw drafts (
        ((rest-Removes mode items r.0).at r.1).missing (shared_draft_key item.key)
          (publish_shared-gone mode item prev m has))

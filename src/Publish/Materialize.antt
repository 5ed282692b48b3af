-- ===== src/Publish/Materialize.antt =====
-- What `materialize_resolved` returns: a sorted snapshot, and under the blocking policy one with a
-- value for every required item and every shared item.
use mathlib.Core.Path.{subst}
use defing.Prelude.{
  ◌||◌, not, List, [], ◌∷◌, Option, none, some, ◌≡◌, arith, Bytes, is_some, Bool-cases, inl, inr,
}
use defing.BTreeMap.{BTreeMap}
use defing.BTreeMap.Order.{IsSorted, Above}
use defing.BTreeMap.Nested.{get2, IsNested, insert2-IsNested}
use defing.Diff.RoundTrip.{IsSnapshot}
use defing.Error.{ok, ok-injective, and_then-ok}
use defing.Keys.{shared_key}
use defing.Model.{
  Value, ItemDef, Structure, BranchState, DraftValue, SnapshotMap, PublishPolicy, SharedItem,
  ValueType,
}
use defing.Model.Equality.{type_eq}
use defing.Validator.{each_item, validate_publish}
use defing.Publish.{
  Draft, Resolved, kept_secret, keep_secret, keep_secrets, draft_items, draft_values, resolve_found,
  resolve_bound, resolve_shared, judge, materialize_resolved,
}
use defing.Serde.{Serde, Kind, Sm, load_merged}

kept_secret-IsNested :
    (g key : Bytes) (draft : Draft) (o : Option Value)
    → IsNested draft
    → IsNested (kept_secret g key draft o)
kept_secret-IsNested g key draft none s = s
kept_secret-IsNested g key draft (some v) s = insert2-IsNested g key _ draft s

keep_secret-IsNested :
    (g : Bytes) (item : ItemDef) (old : SnapshotMap) (draft : Draft)
    → IsNested draft
    → IsNested (keep_secret g item old draft)
unfolding keep_secret
keep_secret-IsNested g item old draft s =
    elim (Bool-cases (item.shared || not (type_eq item.ty ValueType.secret))) [
      | inl skip ↦ rw skip s
      | inr secret ↦ elim (Bool-cases (is_some (get2 g item.key draft))) [
        | inl given ↦ rw (secret, given) s
        | inr absent ↦
            rw (secret, absent) (kept_secret-IsNested g item.key draft (get2 g item.key old) s)
      ]
    ]

keep_secrets-IsNested :
    (items : List (Bytes × ItemDef)) (old : SnapshotMap) (draft : Draft)
    → IsNested draft
    → IsNested (keep_secrets items old draft)
unfolding keep_secrets
keep_secrets-IsNested [] old draft s = s
keep_secrets-IsNested ((g, item) ∷ items) old draft s =
    keep_secrets-IsNested items old (keep_secret g item old draft)
      (keep_secret-IsNested g item old draft s)

draft_items-Above :
    (k : Bytes) (items : BTreeMap DraftValue) → Above k items → Above k (draft_items items)
unfolding draft_items
draft_items-Above k [] a = tt
draft_items-Above k ((j, dv) ∷ items) (p, a) = (p, draft_items-Above k items a)

draft_items-IsSorted : (items : BTreeMap DraftValue) → IsSorted items → IsSorted (draft_items items)
unfolding draft_items
draft_items-IsSorted [] s = tt
draft_items-IsSorted ((j, dv) ∷ items) (a, s) =
    (draft_items-Above j items a, draft_items-IsSorted items s)

draft_values-Above : (k : Bytes) (draft : Draft) → Above k draft → Above k (draft_values draft)
unfolding draft_values
draft_values-Above k [] a = tt
draft_values-Above k ((g, items) ∷ draft) (p, a) = (p, draft_values-Above k draft a)

draft_values-IsSnapshot : (draft : Draft) → IsNested draft → IsSnapshot (draft_values draft)
unfolding draft_values
draft_values-IsSnapshot [] s = tt
draft_values-IsSnapshot ((g, items) ∷ draft) (a, (si, s)) =
    (draft_values-Above g draft a, (draft_items-IsSorted items si, draft_values-IsSnapshot draft s))

module _ (S : Serde) (m : Sm S) where
  resolve_found-IsSnapshot :
      (g : Bytes) (item : ItemDef) (rk : Bytes) (o : Option SharedItem) (r : Resolved)
      → IsSnapshot r.0
      → IsSnapshot (resolve_found S g item rk o r).0
  unfolding resolve_found
  resolve_found-IsSnapshot g item rk none (snap, errs) s = s
  resolve_found-IsSnapshot g item rk (some shared) (snap, errs) s =
      elim (Bool-cases (not (type_eq shared.ty item.ty))) [
        | inl differs ↦ rw differs s
        | inr same ↦ rw same (insert2-IsNested g item.key shared.value snap s)
      ]

  resolve_bound-IsSnapshot :
      (g : Bytes) (item : ItemDef) (o : Option Bytes) (r r' : Resolved)
      → IsSnapshot r.0
      → resolve_bound S g item o r m ≡ ok r'
      → IsSnapshot r'.0
  unfolding resolve_bound
  resolve_bound-IsSnapshot g item none (snap, errs) r' s h =
      subst (λ (z : Resolved). IsSnapshot z.0) (ok-injective h) s
  resolve_bound-IsSnapshot g item (some rk) r r' s h =
      let (o, got, done) =
        and_then-ok (load_merged S Kind.shared_item (shared_key rk) m)
          (λ o. ok (resolve_found S g item rk o r)) h in
      subst (λ (z : Resolved). IsSnapshot z.0) (ok-injective done)
        (resolve_found-IsSnapshot g item rk o r s)

  resolve_shared-IsSnapshot :
      (items : List (Bytes × ItemDef)) (bindings : BTreeMap (BTreeMap Bytes)) (r r' : Resolved)
      → IsSnapshot r.0
      → resolve_shared S items bindings r m ≡ ok r'
      → IsSnapshot r'.0
  unfolding resolve_shared
  resolve_shared-IsSnapshot [] bindings r r' s h =
      subst (λ (z : Resolved). IsSnapshot z.0) (ok-injective h) s
  resolve_shared-IsSnapshot ((g, item) ∷ items) bindings r r' s h = elim (Bool-cases item.shared) [
    | inl shared ↦
        let (q, bound, rest) =
          and_then-ok (resolve_bound S g item (get2 g item.key bindings) r m)
            (λ r'. resolve_shared S items bindings r' m) (ground (arith, shared, h)) in
        resolve_shared-IsSnapshot items bindings q r'
          (resolve_bound-IsSnapshot g item (get2 g item.key bindings) r q s bound) rest
    | inr local ↦ resolve_shared-IsSnapshot items bindings r r' s (ground (arith, local, h))
  ]

  judge-ok : (policy : PublishPolicy) (r r' : Resolved) → judge S policy r ≡ ok r' → r ≡ r'
  unfolding judge
  judge-ok PublishPolicy.block (snap, []) r' h = ok-injective h
  judge-ok PublishPolicy.block (snap, e ∷ errs) r' h = cc
  judge-ok PublishPolicy.warn r r' h = ok-injective h

  -- From a draft that is a sorted map of sorted maps, a materialised snapshot is one too.
  pub materialize_resolved-IsSnapshot :
      (st : BranchState) (structure : Structure) (old : SnapshotMap) (policy : PublishPolicy)
      (r : Resolved)
      → IsNested st.value_draft
      → materialize_resolved S st structure old policy m ≡ ok r
      → IsSnapshot r.0
  unfolding materialize_resolved
  materialize_resolved-IsSnapshot st structure old policy r s h =
      let items = each_item structure.groups in
      let draft = keep_secrets items old st.value_draft in
      let start : Resolved = (draft_values draft, validate_publish S.json_valid draft items) in
      let (q, resolved, judged) =
        and_then-ok (resolve_shared S items st.shared_bindings start m) (judge S policy) h in
      subst (λ (z : Resolved). IsSnapshot z.0) (judge-ok policy q r judged)
        (resolve_shared-IsSnapshot items st.shared_bindings start q
          (draft_values-IsSnapshot draft (keep_secrets-IsNested items old st.value_draft s))
          resolved)

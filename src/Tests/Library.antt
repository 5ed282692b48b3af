-- ===== src/Tests/Library.antt =====
-- The theorems about the delete of shared items, at small inputs.
use defing.Prelude.{List, [], ◌∷◌, none, some, ◌≡◌, refl, true, false, codes}
use defing.Prelude.Int.{pos}
use mathlib.Core.List.{Memᴰ}
use defing.Error.{ErrorKind, ok, err}
use defing.Model.{ValueType, Value, BranchState, Project, SharedItem}
use defing.Reads.{get_shared, list_projects, list_branches}
use defing.Serde.{Kind, Sm}
use defing.Serde.Tagged.{tagged}
use defing.Shared.{shared_usage, apply_shared_delete}
use defing.Shared.Unbound.{IsBoundIn, apply_shared_delete-bound, apply_shared_delete-unbound}
use defing.Validator.{valid_key_name}
use defing.Tests.{shop, dev, group_name, item_key, first_state}

abbrev shared_item : SharedItem
shared_item = record {
  key = codes "url";
  ty = ValueType.string;
  secret = false;
  required = false;
  value = Value.string (codes "new");
  version = 1;
  description = none;
}

abbrev shop_project : Project
shop_project = record { id = shop; name = shop; created_at = pos 1 }

abbrev bound_state : BranchState
bound_state = record first_state {
  shared_bindings = (group_name, (item_key, codes "url") ∷ []) ∷ [];
}

-- a published item that one branch is bound to, and one without a branch
abbrev bound_store : Sm tagged
bound_store = record {
  store =
      (codes "p/shop", (Kind.project, shop_project))
      ∷ (codes "p/shop/b/dev/state", (Kind.branch_state, bound_state))
      ∷ (codes "sh/url", (Kind.shared_item, shared_item))
      ∷ [];
  pending_ops = [];
}

abbrev free_store : Sm tagged
free_store = record {
  store = (codes "sh/url", (Kind.shared_item, shared_item)) ∷ [];
  pending_ops = [];
}

url-named : valid_key_name (codes "url") ≡ true
unfolding valid_key_name
url-named = refl

bound-read : get_shared tagged (codes "url") bound_store ≡ ok (some shared_item)
unfolding defing.Serde.load_merged defing.Machine.get_merged defing.Machine.last_op
    defing.BTreeMap.get defing.Prelude.bytes_eq defing.Keys.shared_key
bound-read = refl

free-read : get_shared tagged (codes "url") free_store ≡ ok (some shared_item)
unfolding defing.Serde.load_merged defing.Machine.get_merged defing.Machine.last_op
    defing.BTreeMap.get defing.Prelude.bytes_eq defing.Keys.shared_key
free-read = refl

free-usage : shared_usage tagged (codes "url") free_store ≡ ok []
unfolding shared_usage defing.Reads.list_projects defing.Reads.list_branches
    defing.Machine.get_prefix_merged defing.Store.get_prefix defing.Prelude.bytes_lt
    defing.Prelude.starts_with
free-usage = refl

shop-listed : Memᴰ shop_project (list_projects tagged bound_store)
unfolding list_projects defing.Machine.get_prefix_merged defing.Store.get_prefix
    defing.Prelude.bytes_lt defing.Prelude.starts_with defing.Prelude.strip_prefix
    defing.Prelude.contains
shop-listed = Memᴰ.head refl

dev-listed : Memᴰ dev (list_branches tagged shop bound_store)
unfolding list_branches defing.Machine.get_prefix_merged defing.Store.get_prefix
    defing.Prelude.bytes_lt defing.Prelude.starts_with defing.Prelude.strip_prefix
dev-listed = Memᴰ.head refl

dev-bound : IsBoundIn tagged (codes "url") group_name item_key bound_store shop dev
unfolding defing.Serde.load_merged defing.Machine.get_merged defing.Machine.last_op
    defing.BTreeMap.get defing.Prelude.bytes_eq defing.Keys.branch_state_key
    defing.BTreeMap.Nested.get2
dev-bound = (bound_state, refl, refl)

apply_shared_delete-bound_example :
    (e : ErrorKind) × (apply_shared_delete tagged (codes "url") bound_store ≡ (err e, bound_store))
apply_shared_delete-bound_example =
    apply_shared_delete-bound tagged (codes "url") bound_store shared_item url-named bound-read
      shop_project dev group_name item_key shop-listed dev-listed dev-bound

apply_shared_delete-unbound_example :
    (apply_shared_delete tagged (codes "url") free_store).0 ≡ ok []
apply_shared_delete-unbound_example =
    (apply_shared_delete-unbound tagged (codes "url") free_store shared_item url-named free-read
      free-usage).0

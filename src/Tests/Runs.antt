-- ===== src/Tests/Runs.antt =====
-- The theorems about whole commands and runs of them, at small inputs.
use defing.Prelude.{
  starts_with, ℕ, List, [], ◌∷◌, none, some, ◌≡◌, refl, false, true, Bytes, codes, inl, inr,
  bytes_eq,
}
use defing.Prelude.Int.{pos}
use defing.BTreeMap
use defing.BTreeMap.{BTreeMap}
use defing.BTreeMap.Order.{IsSorted}
use defing.Accounts.Logout.{apply_project_admin_set_password-IsLoggedOut}
use defing.Accounts.{apply_project_admin_set_password}
use defing.Commands.{Command, apply_inner, apply}
use defing.Commands.Over.{Batch, IsWhole, apply_over, apply_over-IsWhole}
use defing.Commands.Atomic.{apply-err, apply-ok}
use defing.Commands.Runs.{shared_publish_run, shared_publish-loses_draft}
use defing.Shared.{apply_shared_publish}
use defing.Keys.{k_shared_draft, shared_draft_key}
use defing.Error.{ok, err, internal, not_found, conflict}
use defing.Keys.{project_key, project_admin_key}
use defing.Machine.{
  PendingOp, clear_pending, puts_of, deletes_of, put, delete, put_pending, delete_pending, Machine,
  get_merged, get_prefix_merged, flush_pending,
}
use defing.Model.{
  ValueType, Value, SharedItem, SharedCascadeMode, PublishPolicy, BranchState, Project,
  ProjectAdminAccount,
}
use defing.Projects.{apply_project_delete}
use defing.Projects.Deletes.{apply_project_delete-gone}
use defing.Reads.{expect, stored, list_shared_drafts, get_shared}
use defing.Serde.{Kind, Sm}
use defing.Serde.Tagged.{tagged}
use defing.Sessions.{delete_prefix}
use defing.Store.{get_prefix, write_batch}
use defing.Tests.{shop, group_name, item_key, first_state}

abbrev shop_project : Project
shop_project = record { id = shop; name = shop; created_at = pos 1 }

abbrev admin_account : ProjectAdminAccount
admin_account = record {
  username = codes "eve";
  project = shop;
  salt = codes "s";
  password_hash = codes "h";
  created_at = pos 1;
}

-- a project and one of its administrators, with a session
abbrev office : Sm tagged
office = record {
  store =
      (codes "adm/pa/eve", (Kind.project_admin, admin_account))
      ∷ (codes "p/shop", (Kind.project, shop_project))
      ∷ (codes "sess/pa/eve/1", (Kind.index, codes "1"))
      ∷ [];
  pending_ops = [];
}

office-IsSorted : IsSorted office.store
unfolding defing.Prelude.bytes_lt
office-IsSorted = ((refl, (refl, tt)), ((refl, tt), (tt, tt)))

office-project : expect tagged Kind.project not_found (project_key shop) office ≡ ok shop_project
unfolding expect defing.Serde.load_merged get_merged defing.Machine.last_op BTreeMap.get bytes_eq
    project_key
office-project = refl

office-admin :
    stored tagged Kind.project_admin not_found (project_admin_key (codes "eve")) office
    ≡ ok admin_account
unfolding stored defing.Serde.load BTreeMap.get bytes_eq project_admin_key
office-admin = refl

apply_project_delete-gone_example : (apply_project_delete tagged shop office).0 ≡ ok []
apply_project_delete-gone_example =
    (apply_project_delete-gone tagged shop office shop_project office-IsSorted office-project).0

apply_project_admin_set_password-IsLoggedOut_example :
    (apply_project_admin_set_password tagged (codes "eve") (codes "t") (codes "i") office).0 ≡ ok []
apply_project_admin_set_password-IsLoggedOut_example =
    (apply_project_admin_set_password-IsLoggedOut tagged (codes "eve") (codes "t") (codes "i")
      office office-IsSorted admin_account office-admin).0

abbrev no_address : Bytes → defing.Prelude.Option defing.Gray.IpAddr
no_address s = none

-- a second project of the same name
abbrev create_again : Command
create_again = Command.project_create shop [] (pos 2) none

conflict-again : (apply tagged no_address create_again (pos 3) office).0 ≡ err conflict
unfolding apply defing.Commands.apply_inner defing.Projects.apply_project_create
    defing.Validator.valid_name defing.Reads.list_projects get_prefix_merged
    defing.Machine.clear_pending get_prefix defing.Prelude.bytes_lt defing.Prelude.starts_with
    defing.Prelude.strip_prefix defing.Prelude.contains defing.Serde.load_merged get_merged
    defing.Machine.last_op BTreeMap.get bytes_eq project_key
conflict-again = refl

apply-err_example :
    (apply tagged no_address create_again (pos 3) office).1
    ≡ record { store = office.store; pending_ops = [] }
unfolding defing.Commands.Atomic.is_shared_publish
apply-err_example =
    apply-err tagged no_address create_again (pos 3) office conflict refl conflict-again

abbrev logout : Command
logout = Command.multi_pa_session_logout (codes "eve") (codes "1")

logout-ok : (apply tagged no_address logout (pos 3) office).0 ≡ ok []
unfolding apply defing.Commands.apply_inner defing.Sessions.apply_multi_pa_session_logout
logout-ok = refl

abbrev logout_ops : List (PendingOp tagged.Raw)
logout_ops = (apply_inner tagged no_address logout (pos 3) (clear_pending office)).1.pending_ops

-- a store whose batch fails without an effect
abbrev full_disk : Batch tagged.Raw
full_disk puts deletes rows = (err internal, rows)

apply_over-IsWhole_example :
    ((apply_over tagged no_address full_disk logout (pos 3) office).1.pending_ops ≡ [])
    × IsWhole office.store (write_batch (puts_of logout_ops) (deletes_of logout_ops) office.store) (
      (apply_over tagged no_address full_disk logout (pos 3) office).0,
      (apply_over tagged no_address full_disk logout (pos 3) office).1.store,
    )
unfolding defing.Commands.Atomic.is_shared_publish
apply_over-IsWhole_example =
    apply_over-IsWhole tagged no_address full_disk logout (pos 3) office
      (λ puts deletes rows. inl refl) refl

apply-ok_example : (apply tagged no_address logout (pos 3) office).1 ≡ record {
  store = write_batch (puts_of logout_ops) (deletes_of logout_ops) office.store;
  pending_ops = [];
}
unfolding defing.Commands.Atomic.is_shared_publish
apply-ok_example = apply-ok tagged no_address logout (pos 3) office [] refl logout-ok

abbrev shared_url : SharedItem
shared_url = record {
  key = codes "url";
  ty = ValueType.string;
  secret = false;
  required = false;
  value = Value.string (codes "new");
  version = 0;
  description = none;
}

-- a branch that is bound to the item and whose active version is missing
abbrev broken_state : BranchState
broken_state = record first_state {
  active_version = 1;
  value_draft = [];
  shared_bindings = (group_name, (item_key, codes "url") ∷ []) ∷ [];
}

abbrev broken : Sm tagged
broken = record {
  store =
      (codes "p/shop", (Kind.project, shop_project))
      ∷ (codes "p/shop/b/dev/state", (Kind.branch_state, broken_state))
      ∷ (codes "sh-draft/url", (Kind.shared_item, shared_url))
      ∷ [];
  pending_ops = [];
}

broken-drafts : list_shared_drafts tagged (clear_pending broken) ≡ shared_url ∷ []
unfolding list_shared_drafts clear_pending get_prefix_merged get_prefix defing.Prelude.bytes_lt
    defing.Prelude.starts_with
broken-drafts = refl

broken-shared : get_shared tagged (codes "url") (clear_pending broken) ≡ ok none
unfolding clear_pending defing.Serde.load_merged get_merged defing.Machine.last_op BTreeMap.get
    bytes_eq defing.Keys.shared_key
broken-shared = refl

broken-fails :
    (shared_publish_run tagged no_address []
      (codes "r")
      []
      (pos 1)
      (pos 2)
      SharedCascadeMode.auto
      PublishPolicy.block
      broken).0
    ≡ err not_found
unfolding apply apply_inner apply_shared_publish list_shared_drafts get_prefix_merged clear_pending
    get_prefix defing.Prelude.bytes_lt defing.Prelude.starts_with defing.Serde.load_merged
    get_merged defing.Machine.last_op BTreeMap.get bytes_eq defing.Keys.shared_key
    defing.Reads.list_projects defing.Reads.list_branches defing.Serde.save_pending put_pending
    BTreeMap.remove shared_draft_key defing.Shared.shared_usage defing.Keys.project_key
    defing.Keys.branch_state_key defing.Keys.snapshot_key defing.Prelude.Decimal.decimal
    defing.Version.snapshot_of defing.Shared.cascade_to_branch defing.Prelude.strip_prefix
    defing.Prelude.contains defing.Reads.expect
broken-fails = refl

shared_publish-loses_draft_example :
    (BTreeMap.get
        (shared_draft_key (codes "url"))
        (shared_publish_run tagged no_address []
          (codes "r")
          []
          (pos 1)
          (pos 2)
          SharedCascadeMode.auto
          PublishPolicy.block
          broken).1.store
      ≡ none)
    × ((key : Bytes)
        → starts_with key k_shared_draft ≡ false
        → BTreeMap.get key
            (shared_publish_run tagged no_address []
              (codes "r")
              []
              (pos 1)
              (pos 2)
              SharedCascadeMode.auto
              PublishPolicy.block
              broken).1.store
          ≡ BTreeMap.get key broken.store)
shared_publish-loses_draft_example =
    shared_publish-loses_draft tagged no_address [] (codes "r") [] (pos 1) (pos 2)
      SharedCascadeMode.auto PublishPolicy.block broken shared_url [] none not_found broken-drafts
      broken-shared broken-fails

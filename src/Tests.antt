-- ===== src/Tests.antt =====
-- Small inputs for the theorems about the code: a project with one branch, whose structure has one
-- item.
pub mod Stores
pub mod Transfers
pub mod Logs
pub mod Installs
pub mod Branches
pub mod Gaps
pub mod Rules
pub mod Runs
pub mod Library
use defing.Prelude.{ℕ, List, [], ◌∷◌, Option, none, some, Bytes, codes, false, true}
use defing.Prelude.Int.{ℤ, pos}
use defing.Keys.{branch_state_key, struct_key}
use defing.Machine.{Machine}
use defing.Model.{
  ValueType, Value, ItemDef, GroupDef, Structure, BranchState, SnapshotMap, VersionRecord,
  VersionKind, new_branch_state,
}
use defing.Publish.{Draft}
use defing.Serde.{Kind, Sm}
use defing.Serde.Tagged.{tagged}

abbrev pub shop : Bytes
shop = codes "shop"

abbrev pub dev : Bytes
dev = codes "dev"

abbrev pub group_name : Bytes
group_name = codes "db"

abbrev pub item_key : Bytes
item_key = codes "url"

abbrev pub item : ItemDef
item = record {
  key = item_key;
  ty = ValueType.string;
  required = true;
  secret = false;
  validate = none;
  description = none;
  shared = false;
}

abbrev pub groups : List GroupDef
groups = (record { name = group_name; items = item ∷ [] }) ∷ []

abbrev pub structure : Structure
structure = record { version = 1; groups = groups }

abbrev pub snapshot_one : SnapshotMap
snapshot_one = (group_name, (item_key, Value.string (codes "one")) ∷ []) ∷ []

abbrev pub snapshot_two : SnapshotMap
snapshot_two = (group_name, (item_key, Value.string (codes "two")) ∷ []) ∷ []

abbrev pub draft_one : Draft
draft_one =
    (group_name, (item_key, record { value = Value.string (codes "one"); updated_at = pos 5 }) ∷ [])
    ∷ []

-- a branch that was never published, with a draft
abbrev pub first_state : BranchState
first_state = record {
  active_version = 0;
  structure_version = 1;
  last_request_id = none;
  value_draft = draft_one;
  draft_rev = 1;
  gray_seq = 0;
  gray_rule = none;
  shared_bindings = [];
  bindings_dirty = false;
}

abbrev pub first_store : Sm tagged
first_store = record {
  store =
      (codes "p/shop/b/dev/state", (Kind.branch_state, first_state))
      ∷ (codes "p/shop/struct", (Kind.structure, structure))
      ∷ [];
  pending_ops = [];
}

abbrev pub version_record : ℕ → VersionRecord
version_record n = record {
  no = n;
  structure_version = 1;
  created_at = pos 5;
  operator = codes "admin";
  comment = [];
  rollback_of = none;
  kind = VersionKind.full;
  snapshot_ref = none;
  diff_ref = none;
  event_ty = none;
  gray = false;
}

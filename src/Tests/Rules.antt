-- ===== src/Tests/Rules.antt =====
-- The theorems about gray releases, drafts, structures and their checks, at small inputs.
use defing.Prelude.{
  ℕ, ◌<◌, List, [], ◌∷◌, none, some, ◌≡◌, refl, false, true, Bytes, codes, arith, Option,
}
use defing.Prelude.Int.{pos}
use defing.Drafts.{DraftUpdateItem, apply_draft_update}
use defing.Drafts.Lock.{apply_draft_update-once}
use defing.Error.{ok, not_found}
use defing.Gray.{IpAddr, v4, ClientCtx, rule_matches, validate_gray_rule}
use defing.Gray.Commands.{gray_snapshot_of, apply_gray_publish, apply_gray_abort}
use defing.Gray.Effect.{NoSnapshot}
use defing.Gray.Rule.{rule_matches_mono, IsGrayRule, validate_gray_rule-IsGrayRule}
use defing.Gray.Stable.{
  gray_event, abort_event, apply_gray_publish-SameStable, apply_gray_abort-SameStable,
}
use defing.Keys.{branch_state_key, struct_key}
use defing.Model.{
  LabelSelector, GrayRule, BranchState, Value, PublishPolicy, StructureDraft, SnapshotMap,
}
use defing.Publish.{active_snapshot, materialize_resolved}
use defing.Reads.{expect, list_branches}
use defing.Serde.{Kind, Sm}
use defing.Serde.Tagged.{tagged}
use defing.Structures.{apply_publish_structure, publish_structure_to_all}
use defing.Structures.Lock.{apply_publish_structure-once}
use defing.Validator.Sound.{IsStructure, validate_structure-IsStructure}
use defing.Version.Commit.{IsChain-zero}
use defing.Tests.{
  shop, dev, group_name, item_key, groups, structure, snapshot_one, first_state, first_store,
}

-- addresses of one byte
abbrev parse_byte : Bytes → Option IpAddr
parse_byte [] = none
parse_byte (c ∷ s) = some (v4 c)

abbrev rule : GrayRule
rule = record {
  match_labels = (record { key = codes "zone"; value = codes "a" }) ∷ [];
  ip_cidrs = codes "7/8" ∷ [];
  percentage = some 10;
}

abbrev client : ClientCtx
client = record { instance_id = codes "i-1"; labels = (codes "zone", codes "a") ∷ []; ip = none }

rule-matches : rule_matches parse_byte rule client ≡ true
unfolding rule_matches defing.BTreeMap.get defing.Prelude.bytes_eq
rule-matches = refl

rule_matches_mono_example :
    rule_matches parse_byte (record rule { percentage = some 50 }) client ≡ true
rule_matches_mono_example =
    rule_matches_mono parse_byte rule client 10 50 (omega arith) rule-matches

not_anonymous : (codes "i-1" ≡ []) → ⊥
not_anonymous h = absurd (ground (arith, h))

rule-valid : validate_gray_rule parse_byte rule ≡ ok tt
unfolding validate_gray_rule defing.Prelude.Decimal.digits_value
rule-valid = refl

validate_gray_rule-IsGrayRule_example : IsGrayRule parse_byte rule
validate_gray_rule-IsGrayRule_example = validate_gray_rule-IsGrayRule parse_byte rule rule-valid

abbrev with_gray : BranchState
with_gray = record first_state { gray_seq = 3; gray_rule = some rule }

validate_structure-IsStructure_example : IsStructure groups
unfolding defing.Validator.validate_structure defing.Validator.valid_key_name
validate_structure-IsStructure_example = validate_structure-IsStructure groups refl

first-state :
    expect tagged Kind.branch_state not_found (branch_state_key shop dev) first_store
    ≡ ok first_state
unfolding expect defing.Serde.load_merged defing.Machine.get_merged defing.Machine.last_op
    defing.BTreeMap.get defing.Prelude.bytes_eq branch_state_key
first-state = refl

first-structure :
    expect tagged Kind.structure not_found (struct_key shop) first_store ≡ ok structure
unfolding expect defing.Serde.load_merged defing.Machine.get_merged defing.Machine.last_op
    defing.BTreeMap.get defing.Prelude.bytes_eq struct_key
first-structure = refl

first-resolved :
    materialize_resolved tagged first_state structure [] PublishPolicy.block first_store
    ≡ ok (snapshot_one, [])
unfolding materialize_resolved defing.Validator.each_item defing.Validator.validate_publish
    defing.BTreeMap.Nested.get2 defing.Model.Equality.type_eq defing.Prelude.bytes_eq
    defing.Validator.validate_value
first-resolved = refl

first-old : active_snapshot tagged shop dev 0 first_store ≡ ok []
unfolding active_snapshot
first-old = refl

apply_gray_publish-SameStable_example :
    (apply_gray_publish tagged shop dev parse_byte rule []
      (codes "r1")
      PublishPolicy.block
      first_store).0
    ≡ ok (
        gray_event tagged shop dev []
          (codes "r1")
          first_store
          first_state
          first-state
          refl
          (IsChain-zero tagged shop dev first_store)
          rule
          parse_byte
          PublishPolicy.block
          structure
          []
          (snapshot_one, [])
          rule-valid
          first-structure
          refl
          first-old
          first-resolved
        ∷ [])
apply_gray_publish-SameStable_example =
    (apply_gray_publish-SameStable tagged shop dev [] (codes "r1") first_store first_state
      first-state refl (IsChain-zero tagged shop dev first_store) rule parse_byte
      PublishPolicy.block structure [] (snapshot_one, []) rule-valid first-structure refl first-old
      first-resolved).0

-- the branch with a gray release before its first publish
abbrev gray_store : Sm tagged
gray_store = record {
  store =
      (codes "p/shop/b/dev/gray-snap/3", (Kind.snapshot, snapshot_one))
      ∷ (codes "p/shop/b/dev/state", (Kind.branch_state, with_gray))
      ∷ (codes "p/shop/struct", (Kind.structure, structure))
      ∷ [];
  pending_ops = [];
}

gray-state :
    expect tagged Kind.branch_state not_found (branch_state_key shop dev) gray_store ≡ ok with_gray
unfolding expect defing.Serde.load_merged defing.Machine.get_merged defing.Machine.last_op
    defing.BTreeMap.get defing.Prelude.bytes_eq branch_state_key
gray-state = refl

gray-read : gray_snapshot_of tagged shop dev 3 gray_store ≡ ok snapshot_one
unfolding gray_snapshot_of expect defing.Serde.load_merged defing.Machine.get_merged
    defing.Machine.last_op defing.BTreeMap.get defing.Prelude.bytes_eq defing.Keys.gray_snap_key
    defing.Prelude.Decimal.decimal
gray-read = refl

apply_gray_abort-SameStable_example :
    (apply_gray_abort tagged shop dev [] (codes "r2") gray_store).0
    ≡ ok (
        abort_event tagged shop dev []
          (codes "r2")
          gray_store
          with_gray
          gray-state
          refl
          (IsChain-zero tagged shop dev gray_store)
        ∷ [])
apply_gray_abort-SameStable_example =
    (apply_gray_abort-SameStable tagged shop dev [] (codes "r2") gray_store with_gray gray-state
      refl (IsChain-zero tagged shop dev gray_store) refl).0

no-snapshot : NoSnapshot tagged shop dev gray_store
unfolding defing.Serde.load_merged defing.Machine.get_merged defing.Machine.last_op
    defing.BTreeMap.get defing.Prelude.bytes_eq defing.Keys.snapshot_key
no-snapshot v = refl

abbrev update : DraftUpdateItem
update = record { group = group_name; key = item_key; value = Value.string (codes "two") }

apply_draft_update-once_example :
    (apply_draft_update tagged shop dev (update ∷ []) [] [] (pos 9) (some 1) first_store).0 ≡ ok []
unfolding defing.Drafts.is_stale defing.Drafts.check_updates defing.BTreeMap.Nested.get2
    defing.Structures.index_items defing.Validator.each_item defing.BTreeMap.Nested.insert2
    defing.BTreeMap.insert defing.Prelude.bytes_eq defing.Validator.validate_value
    defing.Drafts.draft_size defing.Drafts.bind_all
apply_draft_update-once_example =
    (apply_draft_update-once tagged shop dev (update ∷ []) [] [] (pos 9) (some 1) first_store
      first_state structure 1 ([], false) first-state first-structure refl refl refl [] [] []
      (pos 9)).0

abbrev structure_draft : StructureDraft
structure_draft = record { base_version = 1; groups = groups }

-- a project without branches, whose structure has a draft
abbrev planned : Sm tagged
planned = record {
  store =
      (codes "p/shop/struct", (Kind.structure, structure))
      ∷ (codes "p/shop/struct-draft", (Kind.structure_draft, structure_draft))
      ∷ [];
  pending_ops = [];
}

apply_publish_structure-once_example :
    (apply_publish_structure tagged shop [] (codes "r1") (pos 9) [] PublishPolicy.block planned).0
    ≡ ok []
unfolding expect defing.Serde.load_merged defing.Machine.get_merged defing.Machine.last_op
    defing.BTreeMap.get defing.Prelude.bytes_eq struct_key defing.Keys.struct_draft_key
    defing.Validator.validate_structure defing.Validator.valid_key_name publish_structure_to_all
    list_branches defing.Machine.get_prefix_merged defing.Store.get_prefix defing.Prelude.bytes_lt
    defing.Prelude.starts_with
apply_publish_structure-once_example =
    (apply_publish_structure-once tagged shop [] (codes "r1") [] (pos 9) PublishPolicy.block planned
      planned structure structure_draft [] refl refl refl refl refl groups [] (codes "r2") []
      (pos 10) PublishPolicy.block).0

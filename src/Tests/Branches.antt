-- ===== src/Tests/Branches.antt =====
-- The theorems about one branch, at the branch of Tests.
use defing.Prelude.{ℕ, [], ◌∷◌, none, some, ◌≡◌, refl, arith, Bytes, codes, bytes_eq}
use defing.Prelude.Int.{pos}
use defing.Error.{ok, not_found}
use defing.Keys.{gray_snap_key, branch_state_key, struct_key, snapshot_key, diff_key, version_key}
use defing.Prelude.Decimal.{decimal}
use defing.Diff.{compute_diff, apply_diff}
use defing.Model.{GrayRule, SnapshotMap, BranchState, PublishPolicy}
use defing.Publish.{active_snapshot, materialize_resolved, apply_publish}
use defing.Publish.Effect.{
  IsBranch, publish_event, apply_publish-IsNextVersion, apply_publish_again,
}
use defing.Reads.{expect, expect-ok}
use defing.BTreeMap
use defing.BTreeMap.Nested.{get2, insert2}
use defing.Model.Reread.{IsExact}
use defing.Model.Equality.{type_eq, value_eq, is_value}
use defing.Machine.{get_merged, last_op, put_pending, clear_pending}
use defing.Validator.{each_item, validate_publish, validate_value}
use defing.Serde.{Kind, Sm, load_merged, save_pending}
use defing.Serde.Tagged.{tagged}
use defing.Version.Commit.{
  commit, IsChain, IsChain-zero, IsChain-SameStored, commit-state, commit-IsNextVersion,
  commit-IsChain,
}
use defing.Config.{get_config}
use defing.Config.Published.{published_config, publish_applied, get_config-apply_publish}
use defing.Diff.RoundTrip.{Agrees, IsSnapshot}
use defing.Publish.Rollback.{rollback_run, rollback_event, apply_rollback-IsNextVersion}
use defing.Version.{snapshot_of, write_version_snapshot}
use defing.Version.History.{history, snapshot_of-history}
use defing.Gray.Commands.{gray_snapshot_of}
use defing.Gray.Promote.{promote_run, promoted_event, apply_gray_promote-IsNextVersion}
use defing.Gray.Stable.{SameStored-gray, SameStored-state}
use defing.Version.Write.{SameStored-trans, IsNextVersion, write_version_snapshot-IsNextVersion}
use defing.Tests.{
  shop, dev, structure, snapshot_one, snapshot_two, first_state, first_store, version_record,
}

abbrev pub request : Bytes
request = codes "r1"

first-state :
    expect tagged Kind.branch_state not_found (branch_state_key shop dev) first_store
    ≡ ok first_state
unfolding expect load_merged get_merged last_op BTreeMap.get branch_state_key bytes_eq
first-state = refl

first-structure :
    expect tagged Kind.structure not_found (struct_key shop) first_store ≡ ok structure
unfolding expect load_merged get_merged last_op BTreeMap.get struct_key bytes_eq
first-structure = refl

first-resolved :
    materialize_resolved tagged first_state structure [] PublishPolicy.block first_store
    ≡ ok (snapshot_one, [])
unfolding materialize_resolved each_item validate_publish get2 type_eq bytes_eq validate_value
first-resolved = refl

first-IsBranch : IsBranch tagged shop dev first_store first_state
first-IsBranch = record {
  chain = IsChain-zero tagged shop dev first_store;
  draft = (tt, ((tt, tt), tt));
}

one-IsExact : IsExact tagged.reread_float snapshot_one
one-IsExact = ((refl, tt), tt)

two-IsExact : IsExact tagged.reread_float snapshot_two
two-IsExact = ((refl, tt), tt)

first-old : active_snapshot tagged shop dev 0 first_store ≡ ok []
unfolding active_snapshot
first-old = refl

apply_publish-IsNextVersion_example :
    (apply_publish tagged shop dev [] request (pos 5) [] PublishPolicy.block first_store).0
    ≡ ok (
        publish_event tagged shop dev [] request []
          (pos 5)
          PublishPolicy.block
          first_store
          first_state
          structure
          []
          snapshot_one
        ∷ [])
apply_publish-IsNextVersion_example =
    (apply_publish-IsNextVersion tagged shop dev [] request [] (pos 5) PublishPolicy.block
      first_store first_state structure first-state first-structure [] (snapshot_one, [])
      first-IsBranch refl refl first-old first-resolved one-IsExact).0

abbrev published : Sm tagged
published = (apply_publish tagged shop dev [] request (pos 5) [] PublishPolicy.block first_store).1

apply_publish_again_example :
    apply_publish tagged shop dev (codes "again") request (pos 9) [] PublishPolicy.warn published
    ≡ (ok [], published)
apply_publish_again_example =
    apply_publish_again tagged shop dev [] request [] (pos 5) PublishPolicy.block first_store
      first_state structure first-state first-structure [] (snapshot_one, []) refl refl first-old
      first-resolved (codes "again") [] (pos 9) PublishPolicy.warn

-- a branch with two versions
abbrev pub state_of : ℕ → BranchState
state_of n = record first_state { active_version = n; value_draft = [] }

abbrev store_one : Sm tagged
store_one = commit tagged shop dev 0 [] snapshot_one (version_record 1) (state_of 1) first_store

abbrev pub store_two : Sm tagged
store_two =
    commit tagged shop dev 1 snapshot_one snapshot_two (version_record 2) (state_of 2) store_one

one-IsSnapshot : IsSnapshot snapshot_one
one-IsSnapshot = (tt, ((tt, tt), tt))

two-IsSnapshot : IsSnapshot snapshot_two
two-IsSnapshot = (tt, ((tt, tt), tt))

one-IsChain : IsChain tagged shop dev store_one 1
one-IsChain =
    commit-IsChain tagged shop dev 0 [] snapshot_one (version_record 1) (state_of 1) first_store
      (IsChain-zero tagged shop dev first_store) (λ lt. absurd (omega arith)) tt one-IsSnapshot
      one-IsExact

read-one : snapshot_of tagged shop dev 1 store_one ≡ ok snapshot_one
unfolding snapshot_of load_merged get_merged last_op save_pending put_pending write_version_snapshot
    bytes_eq branch_state_key snapshot_key diff_key version_key decimal compute_diff apply_diff
    is_value get2 value_eq insert2 BTreeMap.insert
read-one = refl

pub two-IsChain : IsChain tagged shop dev store_two 2
two-IsChain =
    commit-IsChain tagged shop dev 1 snapshot_one snapshot_two (version_record 2) (state_of 2)
      store_one one-IsChain (λ lt. read-one) one-IsSnapshot two-IsSnapshot two-IsExact

two-state :
    expect tagged Kind.branch_state not_found (branch_state_key shop dev) store_two
    ≡ ok (state_of 2)
two-state =
    expect-ok tagged Kind.branch_state not_found (branch_state_key shop dev) (state_of 2) store_two
      (commit-state tagged shop dev 1 snapshot_one snapshot_two (version_record 2) (state_of 2)
        store_one)

read-two-one : snapshot_of tagged shop dev 1 store_two ≡ ok snapshot_one
unfolding snapshot_of load_merged get_merged last_op save_pending put_pending write_version_snapshot
    bytes_eq branch_state_key snapshot_key diff_key version_key decimal compute_diff apply_diff
    is_value get2 value_eq insert2 BTreeMap.insert
read-two-one = refl

read-two : snapshot_of tagged shop dev 2 store_two ≡ ok snapshot_two
unfolding snapshot_of load_merged get_merged last_op save_pending put_pending write_version_snapshot
    bytes_eq branch_state_key snapshot_key diff_key version_key decimal compute_diff apply_diff
    is_value get2 value_eq insert2 BTreeMap.insert
read-two = refl

old-two : active_snapshot tagged shop dev 2 store_two ≡ ok snapshot_two
unfolding active_snapshot
old-two = read-two

apply_rollback-IsNextVersion_example :
    (rollback_run tagged shop dev [] request [] (pos 9) store_two 1).0
    ≡ ok (
        rollback_event tagged shop dev [] request []
          (pos 9)
          store_two
          (state_of 2)
          snapshot_two
          snapshot_one
        ∷ [])
apply_rollback-IsNextVersion_example =
    (apply_rollback-IsNextVersion tagged shop dev [] request [] (pos 9) store_two (state_of 2) 1
      two-state refl (omega arith) (omega arith) snapshot_one snapshot_two two-IsChain read-two-one
      old-two one-IsExact).0

commit-IsNextVersion_example :
    IsNextVersion tagged shop dev 1 snapshot_one snapshot_two (version_record 2) store_one store_two
commit-IsNextVersion_example =
    commit-IsNextVersion tagged shop dev 1 snapshot_one snapshot_two (version_record 2) (state_of 2)
      store_one one-IsChain (λ lt. read-one) one-IsSnapshot two-IsSnapshot two-IsExact

write_version_snapshot-IsNextVersion_example :
    IsNextVersion tagged shop dev 1 snapshot_one snapshot_two (version_record 2) store_one (
      write_version_snapshot tagged shop dev 2 snapshot_one snapshot_two
        (version_record 2)
        store_one)
write_version_snapshot-IsNextVersion_example =
    write_version_snapshot-IsNextVersion tagged shop dev 1 snapshot_one snapshot_two
      (version_record 2) store_one one-IsChain.readable (λ lt. read-one) one-IsSnapshot
      two-IsSnapshot two-IsExact

history-two : history tagged shop dev store_two 2 ≡ some snapshot_two
unfolding history load_merged get_merged last_op save_pending put_pending write_version_snapshot
    bytes_eq branch_state_key snapshot_key diff_key version_key decimal compute_diff apply_diff
    is_value get2 value_eq insert2 BTreeMap.insert
history-two = refl

snapshot_of-history_example : snapshot_of tagged shop dev 2 store_two ≡ ok snapshot_two
snapshot_of-history_example =
    snapshot_of-history tagged shop dev store_two 2 snapshot_two (omega arith) two-IsChain.readable
      history-two

get_config-apply_publish_example :
    (s : SnapshotMap) × (get_config tagged shop dev 0
        (publish_applied tagged shop dev [] request []
          (pos 5)
          (pos 5)
          PublishPolicy.block
          first_store
          first_state
          structure
          []
          (snapshot_one, [])
          (λ a. none)).1
      ≡ ok (published_config tagged shop dev 1 1 s))
    × ((g k : Bytes) → Agrees (get2 g k s) (get2 g k snapshot_one))
unfolding clear_pending
get_config-apply_publish_example =
    get_config-apply_publish tagged shop dev [] request [] (pos 5) (pos 5) PublishPolicy.block
      first_store first_state structure [] (snapshot_one, []) (λ a. none) first-state
      first-structure first-IsBranch refl refl first-old first-resolved one-IsExact

-- the branch with two versions and a gray release
abbrev pub rule : GrayRule
rule = record { match_labels = []; ip_cidrs = []; percentage = some 10 }

abbrev gray_two_state : BranchState
gray_two_state = record (state_of 2) { gray_seq = 1; gray_rule = some rule }

abbrev gray_saved : Sm tagged
gray_saved = save_pending tagged Kind.snapshot (gray_snap_key shop dev 1) snapshot_one store_two

abbrev gray_two : Sm tagged
gray_two =
    save_pending tagged Kind.branch_state (branch_state_key shop dev) gray_two_state gray_saved

gray-two-IsChain : IsChain tagged shop dev gray_two 2
gray-two-IsChain =
    IsChain-SameStored tagged shop dev 2 store_two gray_two
      (SameStored-trans tagged shop dev 2 store_two gray_saved gray_two
        (SameStored-gray tagged shop dev 1 2 snapshot_one store_two)
        (SameStored-state tagged shop dev 2 gray_two_state gray_saved))
      two-IsChain

gray-two-state :
    expect tagged Kind.branch_state not_found (branch_state_key shop dev) gray_two
    ≡ ok gray_two_state
unfolding expect load_merged get_merged last_op save_pending put_pending bytes_eq branch_state_key
    write_version_snapshot
gray-two-state = refl

gray-two-read : gray_snapshot_of tagged shop dev 1 gray_two ≡ ok snapshot_one
unfolding gray_snapshot_of load_merged get_merged last_op save_pending put_pending bytes_eq
    branch_state_key decimal expect write_version_snapshot gray_snap_key
gray-two-read = refl

gray-two-old : active_snapshot tagged shop dev 2 gray_two ≡ ok snapshot_two
unfolding active_snapshot snapshot_of load_merged get_merged last_op save_pending put_pending
    write_version_snapshot bytes_eq branch_state_key snapshot_key diff_key version_key decimal
    compute_diff apply_diff is_value get2 value_eq insert2 BTreeMap.insert defing.Keys.gray_snap_key
gray-two-old = refl

apply_gray_promote-IsNextVersion_example :
    (promote_run tagged shop dev [] request []
      (pos 9)
      gray_two
      gray_two_state
      gray-two-state
      refl
      refl
      snapshot_one
      gray-two-read).0
    ≡ ok (
        promoted_event tagged shop dev [] request []
          (pos 9)
          gray_two
          gray_two_state
          gray-two-state
          refl
          refl
          snapshot_one
          gray-two-read
          snapshot_two
        ∷ [])
apply_gray_promote-IsNextVersion_example =
    (apply_gray_promote-IsNextVersion tagged shop dev [] request [] (pos 9) gray_two gray_two_state
      gray-two-state refl refl snapshot_one gray-two-read snapshot_two gray-two-IsChain
      one-IsSnapshot one-IsExact (omega arith) gray-two-old).0

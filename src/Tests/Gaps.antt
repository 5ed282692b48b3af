-- ===== src/Tests/Gaps.antt =====
-- The theorems about numbers that were left out, at the branch of Tests with two versions.
use defing.Prelude.{[], ◌∷◌, none, some, ◌≡◌, refl, arith, bytes_eq}
use defing.Prelude.Decimal.{decimal}
use defing.Prelude.Int.{pos}
use defing.BTreeMap
use defing.BTreeMap.Nested.{get2, insert2}
use defing.Diff.{compute_diff, apply_diff}
use defing.Error.{ok, not_found}
use defing.Gray.Commands.{gray_snapshot_of, apply_gray_promote}
use defing.Gray.Gap.{apply_gray_promote-Fails}
use defing.Gray.Promote.{promoted_event}
use defing.Gray.Stable.{SameStored-gray, SameStored-state}
use defing.Keys.{gray_snap_key, branch_state_key, snapshot_key, diff_key, version_key}
use defing.Machine.{get_merged, last_op, put_pending}
use defing.Model.{BranchState}
use defing.Model.Equality.{value_eq, is_value}
use defing.Publish.{active_snapshot}
use defing.Reads.{expect}
use defing.Serde.{Kind, Sm, load_merged, save_pending}
use defing.Serde.Tagged.{tagged}
use defing.Version.{chain_start, snapshot_of, write_version_snapshot}
use defing.Version.Commit.{IsChain, IsChain-SameStored}
use defing.Version.Gap.{Fails, IsGap, snapshot_of-Fails}
use defing.Version.History.{stored_diff, stored_snapshot}
use defing.Version.Write.{SameStored-trans}
use defing.Tests.{shop, dev, snapshot_one, snapshot_two}
use defing.Tests.Branches.{request, state_of, store_two, two-IsChain, rule}

-- two versions, and a gray release with the number three
abbrev gray_state : BranchState
gray_state = record (state_of 2) { gray_seq = 3; gray_rule = some rule }

abbrev gray_saved : Sm tagged
gray_saved = save_pending tagged Kind.snapshot (gray_snap_key shop dev 3) snapshot_one store_two

abbrev gray_three : Sm tagged
gray_three = save_pending tagged Kind.branch_state (branch_state_key shop dev) gray_state gray_saved

three-IsChain : IsChain tagged shop dev gray_three 2
three-IsChain =
    IsChain-SameStored tagged shop dev 2 store_two gray_three
      (SameStored-trans tagged shop dev 2 store_two gray_saved gray_three
        (SameStored-gray tagged shop dev 3 2 snapshot_one store_two)
        (SameStored-state tagged shop dev 2 gray_state gray_saved))
      two-IsChain

no-diff : stored_diff tagged shop dev gray_three 3 ≡ none
unfolding load_merged get_merged last_op save_pending put_pending write_version_snapshot bytes_eq
    branch_state_key snapshot_key diff_key version_key gray_snap_key decimal compute_diff apply_diff
    is_value get2 value_eq insert2 BTreeMap.insert
no-diff = refl

no-snapshot : stored_snapshot tagged shop dev gray_three 3 ≡ none
unfolding load_merged get_merged last_op save_pending put_pending write_version_snapshot bytes_eq
    branch_state_key snapshot_key diff_key version_key gray_snap_key decimal compute_diff apply_diff
    is_value get2 value_eq insert2 BTreeMap.insert
no-snapshot = refl

three-IsGap : IsGap tagged shop dev gray_three 2
three-IsGap = record {
  readable = three-IsChain.readable;
  not_whole = refl;
  no_diff = no-diff;
  no_snapshot = no-snapshot;
}

three-state :
    expect tagged Kind.branch_state not_found (branch_state_key shop dev) gray_three ≡ ok gray_state
unfolding expect load_merged get_merged last_op save_pending put_pending write_version_snapshot
    bytes_eq branch_state_key snapshot_key diff_key version_key gray_snap_key decimal compute_diff
    apply_diff is_value get2 value_eq insert2 BTreeMap.insert
three-state = refl

three-read : gray_snapshot_of tagged shop dev 3 gray_three ≡ ok snapshot_one
unfolding gray_snapshot_of load_merged get_merged last_op save_pending put_pending
    write_version_snapshot bytes_eq branch_state_key snapshot_key diff_key version_key gray_snap_key
    decimal compute_diff apply_diff is_value get2 value_eq insert2 BTreeMap.insert expect
three-read = refl

three-old : active_snapshot tagged shop dev 2 gray_three ≡ ok snapshot_two
unfolding active_snapshot snapshot_of load_merged get_merged last_op save_pending put_pending
    write_version_snapshot bytes_eq branch_state_key snapshot_key diff_key version_key gray_snap_key
    decimal compute_diff apply_diff is_value get2 value_eq insert2 BTreeMap.insert
three-old = refl

start-of-four : chain_start 4 ≡ 1
unfolding chain_start
start-of-four = refl

snapshot_of-Fails_example : Fails (snapshot_of tagged shop dev 4 gray_three)
snapshot_of-Fails_example =
    snapshot_of-Fails tagged shop dev gray_three 2 4 three-IsGap (omega arith)
      (omega (arith, start-of-four))

apply_gray_promote-Fails_example :
    (apply_gray_promote tagged shop dev [] request (pos 9) [] gray_three).0
    ≡ ok (
        promoted_event tagged shop dev [] request []
          (pos 9)
          gray_three
          gray_state
          three-state
          refl
          refl
          snapshot_one
          three-read
          snapshot_two
        ∷ [])
apply_gray_promote-Fails_example =
    (apply_gray_promote-Fails tagged shop dev [] request [] (pos 9) gray_three gray_state
      three-state refl refl snapshot_one three-read snapshot_two three-IsGap (omega arith)
      (omega (arith, start-of-four)) three-old).0

-- ===== src/Commands/Handlers.antt =====
-- What the handlers change in a machine: their writes are pending ones.
use defing.Prelude.{
  ℕ, List, [], ◌∷◌, Option, none, some, ◌≡◌, refl, ◌∙◌, arith, Bytes, if◌then◌else◌, strip_prefix,
}
use defing.Prelude.Int.{ℤ}
use defing.BTreeMap.{BTreeMap}
use defing.Gray.Commands.{drop_gray}
use defing.Keys.{k_ga_account, branch_state_key}
use defing.Machine.{Machine, put_pending, delete_pending}
use defing.Machine.Keeps.{Keeps, keeps_rules}
use defing.Model.{SnapshotMap, VersionRecord, Structure, new_branch_state}
use defing.Projects.Deletes.{delete_admins-store}
use defing.Projects.{save_default_branches, delete_tokens, is_owned_by}
use defing.Serde.{Serde, Kind, Sem, Sm, save_pending}
use defing.Sessions.{
  delete_all_pa_sessions, delete_all_ga_sessions, delete_all_admin_sessions, revoke_account,
  revoke_rows,
}
use defing.Sessions.Deletes.{delete_prefix-store}
use defing.Structures.{bump_gray, publish_structure_to, publish_structure_to_all}
use defing.Tokens.{revoke_at}
use defing.Version.{write_version_snapshot}

module _ {R : Type 0} where
  pub delete_pending-store : (k : Bytes) (m : Machine R) → (delete_pending k m).store ≡ m.store
  unfolding delete_pending
  delete_pending-store k m = refl

  pub delete_all_pa_sessions-store :
      (u : Bytes) (m : Machine R) → (delete_all_pa_sessions u m).store ≡ m.store
  unfolding delete_all_pa_sessions
  delete_all_pa_sessions-store u m = rw (delete_prefix-store, delete_pending-store) refl

  pub delete_all_ga_sessions-store :
      (u : Bytes) (m : Machine R) → (delete_all_ga_sessions u m).store ≡ m.store
  unfolding delete_all_ga_sessions
  delete_all_ga_sessions-store u m = rw delete_prefix-store refl

  pub delete_all_admin_sessions-store :
      (m : Machine R) → (delete_all_admin_sessions m).store ≡ m.store
  unfolding delete_all_admin_sessions
  delete_all_admin_sessions-store m = rw (delete_prefix-store, delete_pending-store) refl

  revoke_account-store :
      (account : Option Bytes) (m : Machine R) → (revoke_account account m).store ≡ m.store
  revoke_account-store none m = refl
  revoke_account-store (some u) m = delete_all_ga_sessions-store u m

  pub revoke_rows-store : (rows : BTreeMap R) (m : Machine R) → (revoke_rows rows m).store ≡ m.store
  unfolding revoke_rows
  revoke_rows-store [] m = refl
  revoke_rows-store ((k, v) ∷ rows) m =
      revoke_rows-store rows (revoke_account (strip_prefix k k_ga_account) m)
      ∙ revoke_account-store (strip_prefix k k_ga_account) m

module _ (S : Serde) where
  pub save_pending-store :
      (k : Kind) (key : Bytes) (x : Sem k) (m : Sm S) → (save_pending S k key x m).store ≡ m.store
  unfolding save_pending put_pending
  save_pending-store k key x m = refl

  pub write_version_snapshot-store :
      (id branch : Bytes) (n : ℕ) (old new : SnapshotMap) (rec : VersionRecord) (m : Sm S)
      → (write_version_snapshot S id branch n old new rec m).store ≡ m.store
  unfolding write_version_snapshot save_pending put_pending
  write_version_snapshot-store id branch n old new rec m = ground arith

  pub drop_gray-store :
      (id branch : Bytes) (seq : ℕ) (m : Sm S) → (drop_gray S id branch seq m).store ≡ m.store
  unfolding delete_pending
  drop_gray-store id branch seq m = ground arith

  pub save_default_branches-store :
      (id : Bytes) (bs : List Bytes) (m : Sm S) → (save_default_branches S id bs m).store ≡ m.store
  unfolding save_default_branches save_pending put_pending
  save_default_branches-store id [] m = refl
  save_default_branches-store id (b ∷ bs) m =
      save_default_branches-store id bs
        (save_pending S Kind.branch_state (branch_state_key id b) (new_branch_state 1) m)

  pub delete_tokens-store :
      (id : Bytes) (rows : BTreeMap S.Raw) (m : Sm S) → (delete_tokens S id rows m).store ≡ m.store
  unfolding delete_tokens
  delete_tokens-store id [] m = refl
  delete_tokens-store id ((k, raw) ∷ rows) m = ground (
    arith,
    delete_tokens-store id rows
        (if is_owned_by id (S.from_slice Kind.token raw) then delete_pending k m else m),
    delete_pending-store k m,
  )

  pub ruleset writes = (
    keeps_rules, delete_pending-store, save_pending-store, write_version_snapshot-store,
    save_default_branches-store, delete_prefix-store, delete_admins-store, delete_tokens-store,
    drop_gray-store, delete_all_pa_sessions-store, delete_all_ga_sessions-store,
    delete_all_admin_sessions-store, revoke_rows-store,
  )

  pub revoke_at-Keeps : (target : Option Bytes) → Keeps (revoke_at S target)
  unfolding revoke_at
  revoke_at-Keeps none = search writes
  revoke_at-Keeps (some key) = search writes depth 20

  module _ (id : Bytes) where
    bump_gray-Keeps : (branch : Bytes) (seq next : ℕ) → Keeps (bump_gray S id branch seq next)
    unfolding bump_gray
    bump_gray-Keeps branch seq next = search writes depth 20

    module _ (comment request_id operator : Bytes) (now_ms : ℤ) (new : Structure) where
      publish_structure_to-Keeps :
          (branch : Bytes)
          → Keeps (publish_structure_to S id comment request_id operator now_ms new branch)
      unfolding publish_structure_to
      publish_structure_to-Keeps branch = search (writes, bump_gray-Keeps) depth 20

      pub publish_structure_to_all-Keeps :
          (branches : List Bytes)
          → Keeps (publish_structure_to_all S id comment request_id operator now_ms new branches)
      unfolding publish_structure_to_all
      publish_structure_to_all-Keeps [] = search writes
      publish_structure_to_all-Keeps (branch ∷ branches) =
          search
            (writes, publish_structure_to-Keeps branch, publish_structure_to_all-Keeps branches)
            depth 20

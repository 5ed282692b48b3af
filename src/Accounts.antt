-- ===== src/Accounts.antt =====
-- server/crates/dsh-core/src/state.rs: the accounts of project and of global administrators.
pub mod Logout
use defing.Prelude.{
  Bool, true, false, not, ◌||◌, List, [], ◌∷◌, Option, none, some, Bytes, bytes_eq, if◌then◌else◌,
  is_some, keep_if, strip_prefix, is_empty,
}
use defing.Prelude.Int.{ℤ}
use defing.BTreeMap.{BTreeMap}
use defing.Error.{Result, ok, err, not_found, validation, conflict}
use defing.Keys.{k_pa_account, k_ga_account, project_key, project_admin_key, global_admin_key}
use defing.Machine.{
  Action, pure, throw, read, modify, delete_pending, get_prefix_merged, ◌>>=◌, ◌>>◌,
}
use defing.Model.{ProjectAdminAccount, GlobalAdminAccount, PublishEvent}
use defing.Reads.{stored, parsed_rows, sort_by}
use defing.Serde.{Serde, Kind, Sm, load, save_pending}
use defing.Sessions.{delete_all_pa_sessions, delete_all_ga_sessions}
use defing.Validator.{valid_account_username, eq_ignore_case}

-- the loop of the two `…_username_taken`: a key behind the prefix that differs at most in case
unfoldable pub name_taken : {R : Type 0} → Bytes → Bytes → BTreeMap R → Bool
name_taken prefix username [] = false
name_taken prefix username ((k, v) ∷ rows) =
    let rest = name_taken prefix username rows in
    elim (strip_prefix k prefix) [
      | none ↦ rest
      | some u ↦ if eq_ignore_case u username then true else rest
    ]

module _ (S : Serde) where
  abbrev Outcome : Type 0
  Outcome = Action S.Raw (List PublishEvent)

  unfoldable pub project_admin_username_taken : Bytes → Sm S → Bool
  unfolding name_taken
  project_admin_username_taken username m =
      name_taken k_pa_account username (get_prefix_merged k_pa_account m)

  unfoldable pub global_admin_username_taken : Bytes → Sm S → Bool
  unfolding name_taken
  global_admin_username_taken username m =
      name_taken k_ga_account username (get_prefix_merged k_ga_account m)

  -- `list_project_admins`
  unfoldable pub list_project_admins : Bytes → Sm S → List ProjectAdminAccount
  unfolding parsed_rows sort_by
  list_project_admins project m =
      sort_by (λ a. a.username)
        (keep_if (λ a. bytes_eq a.project project)
          (parsed_rows S Kind.project_admin (get_prefix_merged k_pa_account m)))

  -- `list_global_admins`
  unfoldable pub list_global_admins : Sm S → List GlobalAdminAccount
  unfolding parsed_rows sort_by
  list_global_admins m =
      sort_by (λ a. a.username) (parsed_rows S Kind.global_admin (get_prefix_merged k_ga_account m))

  -- `has_global_admins`
  unfoldable pub has_global_admins : Sm S → Bool
  has_global_admins m = not (is_empty (get_prefix_merged k_ga_account m))

  -- `apply_project_admin_create`
  unfoldable pub apply_project_admin_create : Bytes → Bytes → Bytes → Bytes → ℤ → Outcome
  unfolding global_admin_username_taken
  apply_project_admin_create project username salt password_hash now_ms =
      if not (valid_account_username username) then throw validation else do
        _ ← read (stored S Kind.project not_found (project_key project))
        current ← read (load S Kind.project_admin (project_admin_key username))
        taken ← read (λ m. ok (global_admin_username_taken username m))
        if is_some current || taken then throw conflict else do
          modify (
              save_pending S Kind.project_admin (project_admin_key username) (record {
                username = username;
                project = project;
                salt = salt;
                password_hash = password_hash;
                created_at = now_ms;
              }))
          pure []

  -- `apply_project_admin_delete`
  unfoldable pub apply_project_admin_delete : Bytes → Outcome
  apply_project_admin_delete username = do
    _ ← read (stored S Kind.project_admin not_found (project_admin_key username))
    modify (delete_all_pa_sessions username)
    modify (delete_pending (project_admin_key username))
    pure []

  -- `apply_project_admin_set_password`
  unfoldable pub apply_project_admin_set_password : Bytes → Bytes → Bytes → Outcome
  apply_project_admin_set_password username salt password_hash = do
    acct ← read (stored S Kind.project_admin not_found (project_admin_key username))
    modify (
        save_pending S Kind.project_admin (project_admin_key username)
          (record acct { salt = salt; password_hash = password_hash }))
    modify (delete_all_pa_sessions username)
    pure []

  -- `apply_global_admin_create`
  unfoldable pub apply_global_admin_create : Bytes → Bytes → Bytes → ℤ → Outcome
  unfolding project_admin_username_taken
  apply_global_admin_create username salt password_hash now_ms =
      if not (valid_account_username username) then throw validation else do
        current ← read (load S Kind.global_admin (global_admin_key username))
        taken ← read (λ m. ok (project_admin_username_taken username m))
        if is_some current || taken then throw conflict else do
          modify (
              save_pending S Kind.global_admin (global_admin_key username) (record {
                username = username;
                salt = salt;
                password_hash = password_hash;
                created_at = now_ms;
              }))
          pure []

  -- `apply_global_admin_delete`
  unfoldable pub apply_global_admin_delete : Bytes → Outcome
  apply_global_admin_delete username = do
    _ ← read (stored S Kind.global_admin not_found (global_admin_key username))
    modify (delete_pending (global_admin_key username))
    modify (delete_all_ga_sessions username)
    pure []

  -- `apply_global_admin_set_password`
  unfoldable pub apply_global_admin_set_password : Bytes → Bytes → Bytes → Outcome
  apply_global_admin_set_password username salt password_hash = do
    acct ← read (stored S Kind.global_admin not_found (global_admin_key username))
    modify (
        save_pending S Kind.global_admin (global_admin_key username)
          (record acct { salt = salt; password_hash = password_hash }))
    modify (delete_all_ga_sessions username)
    pure []

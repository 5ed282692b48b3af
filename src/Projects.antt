-- ===== src/Projects.antt =====
-- server/crates/dsh-core/src/state.rs: `apply_project_create` and `apply_project_delete`.
pub mod Deletes
use defing.Prelude.{
  Bool, false, not, ◌||◌, List, [], ◌∷◌, Option, none, some, Bytes, codes, bytes_eq, leb, length,
  is_empty, is_some, if◌then◌else◌,
}
use defing.Prelude.Int.{ℤ}
use defing.BTreeMap.{BTreeMap}
use defing.Error.{
  Result, ok, err, and_then, not_found, validation, conflict, limit_exceeded, publish_blocked,
}
use defing.Keys.{
  k_data_token, project_key, struct_key, branch_state_key, idx_pname, project_admin_key,
}
use defing.Machine.{
  Action, pure, throw, read, modify, delete_pending, get_prefix_merged, ◌>>=◌, ◌>>◌,
}
use defing.Model.{GroupDef, ProjectAdminAccount, ProjectTokenRecord, PublishEvent, new_branch_state}
use defing.Reads.{expect, get_project, list_projects}
use defing.Serde.{Serde, Kind, Sm, save_pending}
use defing.Accounts.{list_project_admins}
use defing.Sessions.{delete_prefix, delete_all_pa_sessions}
use defing.Validator.{max_projects, valid_name, validate_structure}

-- whether a row parses as a token's record, and the token is the project's
unfoldable pub is_owned_by : Bytes → Option ProjectTokenRecord → Bool
is_owned_by id none = false
is_owned_by id (some rec) = bytes_eq rec.project id

module _ (S : Serde) where
  -- The groups that a new project takes from the published structure of its source.
  unfoldable pub clone_groups : Bytes → Option Bytes → Sm S → Result (List GroupDef)
  clone_groups name none m = ok []
  clone_groups name (some src) m =
      if bytes_eq src name || not (valid_name src)
      then err validation
      else and_then (expect S Kind.structure validation (struct_key src) m) (λ structure.
        if is_empty (validate_structure structure.groups)
        then ok structure.groups
        else err publish_blocked)

  -- `for default_branch in [dev, test, prod]`
  unfoldable pub save_default_branches : Bytes → List Bytes → Sm S → Sm S
  save_default_branches id [] m = m
  save_default_branches id (b ∷ bs) m =
      save_default_branches id bs
        (save_pending S Kind.branch_state (branch_state_key id b) (new_branch_state 1) m)

  abbrev pub default_branches : List Bytes
  default_branches = codes "dev" ∷ codes "test" ∷ codes "prod" ∷ []

  -- `apply_project_create`
  unfoldable pub apply_project_create : Bytes → ℤ → Option Bytes → Action S.Raw (List PublishEvent)
  unfolding clone_groups save_default_branches
  apply_project_create name now_ms clone_from =
      if not (valid_name name) then throw validation else do
        projects ← read (λ m. ok (list_projects S m))
        if leb max_projects (length projects) then throw limit_exceeded else do
          current ← read (get_project S name)
          if is_some current then throw conflict else do
            groups ← read (clone_groups name clone_from)
            modify (
                save_pending S Kind.project (project_key name)
                  (record { id = name; name = name; created_at = now_ms }))
            modify (save_pending S Kind.index (idx_pname name) (codes "1"))
            modify (
                save_pending S Kind.structure (struct_key name)
                  (record { version = 1; groups = groups }))
            modify (save_default_branches name default_branches)
            pure []

  -- the loop over the project's administrators
  unfoldable pub delete_admins : List ProjectAdminAccount → Sm S → Sm S
  unfolding delete_all_pa_sessions
  delete_admins [] m = m
  delete_admins (acct ∷ accts) m =
      delete_admins accts
        (delete_pending (project_admin_key acct.username) (delete_all_pa_sessions acct.username m))

  -- the loop over the rows of the tokens
  unfoldable pub delete_tokens : Bytes → BTreeMap S.Raw → Sm S → Sm S
  unfolding is_owned_by
  delete_tokens id [] m = m
  delete_tokens id ((k, raw) ∷ rows) m =
      delete_tokens id rows
        (if is_owned_by id (S.from_slice Kind.token raw) then delete_pending k m else m)

  -- `apply_project_delete`: its first loop takes every key that starts with `p/{id}`
  unfoldable pub apply_project_delete : Bytes → Action S.Raw (List PublishEvent)
  unfolding delete_prefix delete_admins delete_tokens
  apply_project_delete id = do
    project ← read (expect S Kind.project not_found (project_key id))
    modify (delete_prefix (project_key id))
    modify (delete_pending (idx_pname project.name))
    modify (λ m. delete_admins (list_project_admins S id m) m)
    modify (λ m. delete_tokens id (get_prefix_merged k_data_token m) m)
    pure []

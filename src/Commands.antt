-- ===== src/Commands.antt =====
-- server/crates/dsh-core/src/command.rs, the commands of the replicated log, and of state.rs
-- `apply_inner`, which gives each to its handler, and `apply`, which makes a command atomic.
pub mod Handlers
pub mod Atomic
pub mod Runs
pub mod Over
use defing.Prelude.{ℕ, suc, List, [], Option, none, some, Bytes}
use defing.Prelude.Int.{ℤ}
use defing.Drafts.{DraftUpdateItem, SharedBinding}
use defing.Error.{Result, ok, err}
use defing.Gray.{IpAddr}
use defing.Keys.{k_audit_seq, audit_key}
use defing.Machine.{Action, pure, read, modify, flush_pending, clear_pending, ◌>>=◌, ◌>>◌}
use defing.Model.{
  GroupDef, GrayRule, SharedItem, AuditEntry, PublishPolicy, SharedCascadeMode, PublishEvent,
}
use defing.Publish.{eff_ts}
use defing.Serde.{Serde, Kind, Sm, load_merged, save_pending}
use defing.Projects.{apply_project_create, apply_project_delete}
use defing.Branches.{apply_branch_create, apply_branch_delete}
use defing.Structures.{apply_structure_draft_set, apply_publish_structure}
use defing.Drafts.{apply_draft_update}
use defing.Publish.{apply_publish, apply_rollback}
use defing.Shared.{apply_shared_draft_update, apply_shared_publish, apply_shared_delete}
use defing.Sessions.{
  apply_session_login, apply_session_logout, apply_session_heartbeat, apply_multi_session_login,
  apply_multi_session_logout, apply_multi_session_heartbeat, apply_multi_pa_session_login,
  apply_multi_pa_session_logout, apply_multi_pa_session_heartbeat, apply_multi_session_logout_all,
  apply_multi_pa_session_logout_all, apply_multi_ga_session_login, apply_multi_ga_session_logout,
  apply_multi_ga_session_heartbeat, apply_multi_ga_session_logout_all,
  apply_global_admin_sessions_revoke_all, apply_pa_session_login, apply_pa_session_logout,
  apply_pa_session_heartbeat, apply_admin_set_password,
}
use defing.Accounts.{
  apply_project_admin_create, apply_project_admin_delete, apply_project_admin_set_password,
  apply_global_admin_create, apply_global_admin_delete, apply_global_admin_set_password,
}
use defing.Tokens.{apply_project_token_create, apply_project_token_revoke}
use defing.Gray.Commands.{apply_gray_promote, apply_gray_abort, apply_gray_publish}

-- `Command`, with the fields of each variant in the source's order
pub data Command : Type 0 where
  project_create : Bytes → Bytes → ℤ → Option Bytes → Command
  project_delete : Bytes → Bytes → Command
  branch_create : Bytes → Bytes → Option Bytes → Bytes → ℤ → Command
  branch_delete : Bytes → Bytes → Bytes → Command
  structure_draft_set : Bytes → ℕ → List GroupDef → Bytes → Command
  publish_structure : Bytes → Bytes → Bytes → Bytes → ℤ → PublishPolicy → Command
  draft_update :
      Bytes
      → Bytes
      → List DraftUpdateItem
      → List (Bytes × Bytes)
      → List SharedBinding
      → Bytes
      → ℤ
      → Option ℕ
      → Command
  publish : Bytes → Bytes → Bytes → Bytes → Bytes → ℤ → PublishPolicy → Command
  rollback : Bytes → Bytes → ℕ → Bytes → Bytes → Bytes → ℤ → Command
  shared_draft_update : SharedItem → Bytes → Command
  shared_publish : Bytes → Bytes → Bytes → ℤ → SharedCascadeMode → PublishPolicy → Command
  shared_delete : Bytes → Bytes → Command
  session_login : Bytes → ℤ → Option ℤ → Command
  session_logout : Command
  session_heartbeat : Option ℤ → Command
  project_admin_create : Bytes → Bytes → Bytes → Bytes → ℤ → Command
  project_admin_delete : Bytes → Command
  project_admin_set_password : Bytes → Bytes → Bytes → Command
  pa_session_login : Bytes → Bytes → ℤ → Option ℤ → Bytes → Command
  pa_session_logout : Bytes → Command
  pa_session_heartbeat : Bytes → Option ℤ → Command
  admin_set_password : Bytes → Command
  multi_session_login : Bytes → ℤ → Option ℤ → Bytes → Command
  multi_session_logout : Bytes → Command
  multi_session_heartbeat : Bytes → Option ℤ → Command
  multi_pa_session_login : Bytes → Bytes → ℤ → Option ℤ → Bytes → Bytes → Command
  multi_pa_session_logout : Bytes → Bytes → Command
  multi_pa_session_heartbeat : Bytes → Bytes → Option ℤ → Command
  multi_session_logout_all : Command
  multi_pa_session_logout_all : Bytes → Command
  global_admin_create : Bytes → Bytes → Bytes → ℤ → Command
  global_admin_delete : Bytes → Command
  global_admin_set_password : Bytes → Bytes → Bytes → Command
  multi_ga_session_login : Bytes → Bytes → ℤ → Option ℤ → Bytes → Bytes → Command
  multi_ga_session_logout : Bytes → Bytes → Command
  multi_ga_session_heartbeat : Bytes → Bytes → Option ℤ → Command
  multi_ga_session_logout_all : Bytes → Command
  global_admin_sessions_revoke_all : Command
  audit_append : AuditEntry → Command
  rotate_master_key : Bytes → Bytes → Command
  gray_publish : Bytes → Bytes → GrayRule → Bytes → Bytes → Bytes → ℤ → PublishPolicy → Command
  gray_promote : Bytes → Bytes → Bytes → Bytes → Bytes → ℤ → Command
  gray_abort : Bytes → Bytes → Bytes → Bytes → Bytes → ℤ → Command
  project_token_create : Bytes → Bytes → Bytes → Bytes → ℤ → Command
  project_token_revoke : Bytes → Bytes → Command

-- `prev.unwrap_or(0) + 1`
abbrev pub next_seq : Option ℕ → ℕ
next_seq none = 1
next_seq (some seq) = suc seq

module _ (S : Serde) (parse_addr : Bytes → Option IpAddr) where
  abbrev Outcome : Type 0
  Outcome = Action S.Raw (List PublishEvent)

  -- `apply_audit_append`
  unfoldable pub apply_audit_append : AuditEntry → Outcome
  apply_audit_append entry = do
    prev ← read (load_merged S Kind.audit_seq k_audit_seq)
    let seq = next_seq prev
    modify (save_pending S Kind.audit_entry (audit_key seq) (record entry { seq = seq }))
    modify (save_pending S Kind.audit_seq k_audit_seq seq)
    pure []

  -- `apply_rotate_master_key`
  unfoldable pub apply_rotate_master_key : Outcome
  apply_rotate_master_key = pure []

  -- `apply_inner`
  unfoldable pub apply_inner : Command → ℤ → Outcome
  apply_inner (Command.project_create name _ ts clone_from) now_ms =
      apply_project_create S name (eff_ts ts now_ms) clone_from
  apply_inner (Command.project_delete id _) now_ms = apply_project_delete S id
  apply_inner (Command.branch_create project name source _ ts) now_ms =
      apply_branch_create S project name source (eff_ts ts now_ms)
  apply_inner (Command.branch_delete project name _) now_ms = apply_branch_delete S project name
  apply_inner (Command.structure_draft_set project base_version groups _) now_ms =
      apply_structure_draft_set S project base_version groups
  apply_inner (Command.publish_structure project comment request_id operator ts policy) now_ms =
      apply_publish_structure S project comment request_id (eff_ts ts now_ms) operator policy
  apply_inner (Command.draft_update project branch updates deletes bindings _ ts expected) now_ms =
      apply_draft_update S project branch updates deletes bindings (eff_ts ts now_ms) expected
  apply_inner (Command.publish project branch comment request_id operator ts policy) now_ms =
      apply_publish S project branch comment request_id (eff_ts ts now_ms) operator policy
  apply_inner (Command.rollback project branch to_version comment request_id operator ts) now_ms =
      apply_rollback S project branch to_version comment request_id (eff_ts ts now_ms) operator
  apply_inner (Command.shared_draft_update item _) now_ms = apply_shared_draft_update S item
  apply_inner (Command.shared_publish comment request_id _ ts cascade _) now_ms =
      apply_shared_publish S comment request_id (eff_ts ts now_ms) cascade
  apply_inner (Command.shared_delete key _) now_ms = apply_shared_delete S key
  apply_inner (Command.session_login token_hash issued_at expires_at) now_ms =
      apply_session_login S token_hash issued_at expires_at
  apply_inner Command.session_logout now_ms = apply_session_logout S
  apply_inner (Command.session_heartbeat expires_at) now_ms = apply_session_heartbeat S expires_at
  apply_inner (Command.project_admin_create project username salt password_hash ts) now_ms =
      apply_project_admin_create S project username salt password_hash (eff_ts ts now_ms)
  apply_inner (Command.project_admin_delete username) now_ms = apply_project_admin_delete S username
  apply_inner (Command.project_admin_set_password username salt password_hash) now_ms =
      apply_project_admin_set_password S username salt password_hash
  apply_inner (Command.pa_session_login username token_hash issued_at expires_at device_id) now_ms =
      apply_pa_session_login S username token_hash issued_at expires_at device_id
  apply_inner (Command.pa_session_logout username) now_ms = apply_pa_session_logout S username
  apply_inner (Command.pa_session_heartbeat username expires_at) now_ms =
      apply_pa_session_heartbeat S username expires_at
  apply_inner (Command.admin_set_password password_hash) now_ms =
      apply_admin_set_password S password_hash
  apply_inner (Command.multi_session_login token_hash issued_at expires_at session_id) now_ms =
      apply_multi_session_login S token_hash issued_at expires_at session_id
  apply_inner (Command.multi_session_logout session_id) now_ms =
      apply_multi_session_logout S session_id
  apply_inner (Command.multi_session_heartbeat session_id expires_at) now_ms =
      apply_multi_session_heartbeat S session_id expires_at
  apply_inner
        (Command.multi_pa_session_login username token_hash issued_at expires_at device_id
          session_id)
        now_ms =
      apply_multi_pa_session_login S username token_hash issued_at expires_at device_id session_id
  apply_inner (Command.multi_pa_session_logout username session_id) now_ms =
      apply_multi_pa_session_logout S username session_id
  apply_inner (Command.multi_pa_session_heartbeat username session_id expires_at) now_ms =
      apply_multi_pa_session_heartbeat S username session_id expires_at
  apply_inner Command.multi_session_logout_all now_ms = apply_multi_session_logout_all S
  apply_inner (Command.multi_pa_session_logout_all username) now_ms =
      apply_multi_pa_session_logout_all S username
  apply_inner (Command.global_admin_create username salt password_hash ts) now_ms =
      apply_global_admin_create S username salt password_hash (eff_ts ts now_ms)
  apply_inner (Command.global_admin_delete username) now_ms = apply_global_admin_delete S username
  apply_inner (Command.global_admin_set_password username salt password_hash) now_ms =
      apply_global_admin_set_password S username salt password_hash
  apply_inner
        (Command.multi_ga_session_login username token_hash issued_at expires_at device_id
          session_id)
        now_ms =
      apply_multi_ga_session_login S username token_hash issued_at expires_at device_id session_id
  apply_inner (Command.multi_ga_session_logout username session_id) now_ms =
      apply_multi_ga_session_logout S username session_id
  apply_inner (Command.multi_ga_session_heartbeat username session_id expires_at) now_ms =
      apply_multi_ga_session_heartbeat S username session_id expires_at
  apply_inner (Command.multi_ga_session_logout_all username) now_ms =
      apply_multi_ga_session_logout_all S username
  apply_inner Command.global_admin_sessions_revoke_all now_ms =
      apply_global_admin_sessions_revoke_all S
  apply_inner (Command.audit_append entry) now_ms = apply_audit_append entry
  apply_inner (Command.rotate_master_key _ _) now_ms = apply_rotate_master_key
  apply_inner (Command.gray_publish project branch rule comment request_id _ _ policy) now_ms =
      apply_gray_publish S project branch parse_addr rule comment request_id policy
  apply_inner (Command.gray_promote project branch comment request_id operator ts) now_ms =
      apply_gray_promote S project branch comment request_id (eff_ts ts now_ms) operator
  apply_inner (Command.gray_abort project branch comment request_id _ _) now_ms =
      apply_gray_abort S project branch comment request_id
  apply_inner (Command.project_token_create project name token_hash operator ts) now_ms =
      apply_project_token_create S project name token_hash operator (eff_ts ts now_ms)
  apply_inner (Command.project_token_revoke project token_id) now_ms =
      apply_project_token_revoke S project token_id

  -- The end of `apply` over the store in memory, whose batch does not fail: the flush, or the drop of
  -- what was not written. Over has the same for any store.
  unfoldable pub finish : Result (List PublishEvent) × Sm S → Result (List PublishEvent) × Sm S
  finish (ok events, m) = (ok events, flush_pending m)
  finish (err e, m) = (err e, clear_pending m)

  -- `apply`
  unfoldable pub apply : Command → ℤ → Outcome
  unfolding finish
  apply cmd now_ms m = finish (apply_inner cmd now_ms (clear_pending m))

-- ===== src/Commands/Atomic.antt =====
-- A command takes effect in one step at its end, or not at all.
use defing.Prelude.{Bool, true, false, List, [], Option, ◌≡◌, refl, ap, ◌∙◌, arith, Bytes}
use defing.Prelude.Int.{ℤ}
use defing.Commands.{
  Command, apply_audit_append, apply_rotate_master_key, apply_inner, finish, apply,
}
use defing.Commands.Handlers.{writes, revoke_at-Keeps, publish_structure_to_all-Keeps}
use defing.Error.{ErrorKind, Result, ok, err}
use defing.Gray.{IpAddr}
use defing.Store.{write_batch}
use defing.Machine.{puts_of, deletes_of, flush_pending, clear_pending}
use defing.Machine.Keeps.{Keeps}
use defing.Model.{PublishEvent}
use defing.Serde.{Serde, Sm}
use defing.Sessions.{renew_session}
use defing.Shared.{delete_published}
use defing.Projects.{apply_project_create, apply_project_delete}
use defing.Branches.{apply_branch_create, apply_branch_delete}
use defing.Structures.{apply_structure_draft_set, apply_publish_structure}
use defing.Drafts.{apply_draft_update}
use defing.Publish.{apply_publish, apply_rollback}
use defing.Shared.{apply_shared_draft_update, apply_shared_delete}
use defing.Sessions.{
  apply_session_login, apply_session_logout, apply_session_heartbeat, apply_multi_session_login,
  apply_multi_session_logout, apply_multi_session_heartbeat, apply_multi_pa_session_login,
  apply_multi_pa_session_logout, apply_multi_pa_session_heartbeat, apply_multi_session_logout_all,
  apply_multi_pa_session_logout_all, apply_multi_ga_session_login, apply_multi_ga_session_logout,
  apply_multi_ga_session_heartbeat, apply_multi_ga_session_logout_all,
  apply_global_admin_sessions_revoke_all, apply_pa_session_login, apply_pa_session_logout,
  apply_pa_session_heartbeat, apply_admin_set_password,
}
use defing.Accounts.{
  apply_project_admin_create, apply_project_admin_delete, apply_project_admin_set_password,
  apply_global_admin_create, apply_global_admin_delete, apply_global_admin_set_password,
}
use defing.Tokens.{apply_project_token_create, apply_project_token_revoke}
use defing.Gray.Commands.{apply_gray_promote, apply_gray_abort, apply_gray_publish}

-- the one command that writes to the store itself
unfoldable pub is_shared_publish : Command → Bool
is_shared_publish (Command.shared_publish _ _ _ _ _ _) = true
is_shared_publish _ = false

module _ (S : Serde) (parse_addr : Bytes → Option IpAddr) where
  pub apply_inner-Keeps :
      (cmd : Command) (now_ms : ℤ)
      → is_shared_publish cmd ≡ false
      → Keeps (apply_inner S parse_addr cmd now_ms)
  unfolding apply_inner is_shared_publish apply_admin_set_password apply_audit_append
      apply_branch_create apply_branch_delete apply_draft_update apply_global_admin_create
      apply_global_admin_delete apply_global_admin_sessions_revoke_all
      apply_global_admin_set_password apply_gray_abort apply_gray_promote apply_gray_publish
      apply_multi_ga_session_heartbeat apply_multi_ga_session_login apply_multi_ga_session_logout
      apply_multi_ga_session_logout_all apply_multi_pa_session_heartbeat
      apply_multi_pa_session_login apply_multi_pa_session_logout apply_multi_pa_session_logout_all
      apply_multi_session_heartbeat apply_multi_session_login apply_multi_session_logout
      apply_multi_session_logout_all apply_pa_session_heartbeat apply_pa_session_login
      apply_pa_session_logout apply_project_admin_create apply_project_admin_delete
      apply_project_admin_set_password apply_project_create apply_project_delete
      apply_project_token_create apply_project_token_revoke apply_publish apply_publish_structure
      apply_rollback apply_rotate_master_key apply_session_heartbeat apply_session_login
      apply_session_logout apply_shared_delete apply_shared_draft_update apply_structure_draft_set
      renew_session delete_published
  apply_inner-Keeps (Command.shared_publish _ _ _ _ _ _) now_ms other =
      absurd (ground (arith, other))
  apply_inner-Keeps (Command.publish_structure id comment request_id operator ts policy) now_ms
        other =
      search (writes, publish_structure_to_all-Keeps S id) depth 20
  apply_inner-Keeps (Command.project_token_revoke project token_id) now_ms other =
      search (writes, revoke_at-Keeps) depth 20
  apply_inner-Keeps _ now_ms other = search writes depth 20

  -- Whatever a command does, with success or with an error, nothing is pending after it.
  pub finish-pending :
      (r : Result (List PublishEvent) × Sm S) → (finish S parse_addr r).1.pending_ops ≡ []
  unfolding finish flush_pending clear_pending
  finish-pending (ok events, m) = refl
  finish-pending (err e, m) = refl

  finish-err :
      (e : ErrorKind) (r : Result (List PublishEvent) × Sm S)
      → (finish S parse_addr r).0 ≡ err e
      → (finish S parse_addr r).1 ≡ record { store = r.1.store; pending_ops = [] }
  unfolding finish clear_pending
  finish-err e (ok events, m) h = absurd (ground (arith, h))
  finish-err e (err d, m) h = refl

  -- A command that fails has no effect: for every command but the publish of shared items, the
  -- store afterwards is the store before, and nothing is pending, whatever was pending before.
  pub apply-err :
      (cmd : Command) (now_ms : ℤ) (m : Sm S) (e : ErrorKind)
      → is_shared_publish cmd ≡ false
      → (apply S parse_addr cmd now_ms m).0 ≡ err e
      → (apply S parse_addr cmd now_ms m).1 ≡ record { store = m.store; pending_ops = [] }
  unfolding apply clear_pending
  apply-err cmd now_ms m e other h =
      finish-err e (apply_inner S parse_addr cmd now_ms (clear_pending m)) h
      ∙ ap (λ s. record { store = s; pending_ops = [] })
          ((apply_inner-Keeps cmd now_ms other).at (clear_pending m))

  finish-ok :
      (events : List PublishEvent) (r : Result (List PublishEvent) × Sm S)
      → (finish S parse_addr r).0 ≡ ok events
      → (r.0 ≡ ok events) × ((finish S parse_addr r).1 ≡ flush_pending r.1)
  unfolding finish
  finish-ok events (ok evs, m) h = (h, refl)
  finish-ok events (err d, m) h = absurd (ground (arith, h))

  -- A command that succeeds, for every command but the publish of shared items, changes the store
  -- by one batch, which holds the writes that its handler has collected, and leaves nothing
  -- pending.
  pub apply-ok :
      (cmd : Command) (now_ms : ℤ) (m : Sm S) (events : List PublishEvent)
      → is_shared_publish cmd ≡ false
      → (apply S parse_addr cmd now_ms m).0 ≡ ok events
      → let ops = (apply_inner S parse_addr cmd now_ms (clear_pending m)).1.pending_ops in
        (apply S parse_addr cmd now_ms m).1
        ≡ record { store = write_batch (puts_of ops) (deletes_of ops) m.store; pending_ops = [] }
  unfolding apply clear_pending
  apply-ok cmd now_ms m events other h =
      let r = apply_inner S parse_addr cmd now_ms (clear_pending m) in
      (finish-ok events r h).1
      ∙ unfold flush_pending in
        ap
          (λ s. record {
            store = write_batch (puts_of r.1.pending_ops) (deletes_of r.1.pending_ops) s;
            pending_ops = [];
          })
          ((apply_inner-Keeps cmd now_ms other).at (clear_pending m))

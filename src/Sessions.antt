-- ===== src/Sessions.antt =====
-- server/crates/dsh-core/src/state.rs: the sessions of the three kinds of administrator, and the
-- deletes of whole groups of them.
pub mod Deletes
use defing.Prelude.{
  ℕ, Bool, List, [], ◌∷◌, Option, none, some, Bytes, codes, if◌then◌else◌, is_some, map,
  strip_prefix,
}
use defing.Prelude.Int.{ℤ}
use defing.BTreeMap.{BTreeMap}
use defing.Error.{ErrorKind, Result, ok, err, and_then, not_found, session_in_use, session_expired}
use defing.Keys.{
  session_key, session_key_with, k_session_prefix, pa_session_key, pa_session_prefix,
  pa_session_key_with, ga_session_prefix, ga_session_key_with, project_admin_key, global_admin_key,
  k_ga_account, k_admin_pw,
}
use defing.Machine.{
  Machine, Action, pure, throw, read, modify, delete_pending, get_prefix_merged, ◌>>=◌, ◌>>◌,
}
use defing.Model.{AdminSession, Principal, admin, project_admin, global_admin, PublishEvent}
use defing.Reads.{expect, stored}
use defing.Serde.{Serde, Kind, Sem, Sm, load, load_merged, save_pending}

module _ {R : Type 0} where
  -- `for (k, _) in rows { self.delete_pending(&k)?; }`
  unfoldable pub delete_rows : BTreeMap R → Machine R → Machine R
  delete_rows [] m = m
  delete_rows ((k, v) ∷ rows) m = delete_rows rows (delete_pending k m)

  -- the deletes of everything under a prefix
  unfoldable pub delete_prefix : Bytes → Machine R → Machine R
  unfolding delete_rows
  delete_prefix prefix m = delete_rows (get_prefix_merged prefix m) m

  -- `delete_all_pa_sessions`: the key of old, and the prefix
  unfoldable pub delete_all_pa_sessions : Bytes → Machine R → Machine R
  unfolding delete_prefix
  delete_all_pa_sessions username m =
      delete_prefix (pa_session_prefix username) (delete_pending (pa_session_key username) m)

  -- `delete_all_ga_sessions`
  unfoldable pub delete_all_ga_sessions : Bytes → Machine R → Machine R
  unfolding delete_prefix
  delete_all_ga_sessions username = delete_prefix (ga_session_prefix username)

  -- `delete_all_admin_sessions`
  unfoldable pub delete_all_admin_sessions : Machine R → Machine R
  unfolding delete_prefix
  delete_all_admin_sessions m = delete_prefix k_session_prefix (delete_pending session_key m)

  abbrev pub revoke_account : Option Bytes → Machine R → Machine R
  revoke_account none m = m
  revoke_account (some u) m = delete_all_ga_sessions u m

  -- the loop of `apply_global_admin_sessions_revoke_all` over the rows of the accounts
  unfoldable pub revoke_rows : BTreeMap R → Machine R → Machine R
  revoke_rows [] m = m
  revoke_rows ((k, v) ∷ rows) m = revoke_rows rows (revoke_account (strip_prefix k k_ga_account) m)

abbrev cli_session : Bytes → ℤ → Option ℤ → AdminSession
cli_session token_hash issued_at expires_at = record {
  token_hash = token_hash;
  issued_at = issued_at;
  expires_at = expires_at;
  device_id = codes "cli";
  principal = admin;
}

module _ (S : Serde) where
  abbrev Outcome : Type 0
  Outcome = Action S.Raw (List PublishEvent)

  -- `apply_session_login`: one session at a time
  unfoldable pub apply_session_login : Bytes → ℤ → Option ℤ → Outcome
  apply_session_login token_hash issued_at expires_at = do
    current ← read (load_merged S Kind.session session_key)
    if is_some current then throw session_in_use else do
      modify (save_pending S Kind.session session_key (cli_session token_hash issued_at expires_at))
      pure []

  unfoldable pub apply_session_logout : Outcome
  apply_session_logout = do modify (delete_pending session_key); pure []

  -- The heartbeats of sessions under a key: read, move the end, save.
  unfoldable pub renew_session : Bytes → Option ℤ → Outcome
  renew_session key expires_at = do
    session ← read (expect S Kind.session session_expired key)
    modify (save_pending S Kind.session key (record session { expires_at = expires_at }))
    pure []

  unfoldable pub apply_session_heartbeat : Option ℤ → Outcome
  unfolding renew_session
  apply_session_heartbeat = renew_session session_key

  unfoldable pub apply_multi_session_login : Bytes → ℤ → Option ℤ → Bytes → Outcome
  apply_multi_session_login token_hash issued_at expires_at session_id = do
    modify (
        save_pending S Kind.session (session_key_with session_id)
          (cli_session token_hash issued_at expires_at))
    pure []

  unfoldable pub apply_multi_session_logout : Bytes → Outcome
  apply_multi_session_logout session_id = do
    modify (delete_pending (session_key_with session_id))
    pure []

  unfoldable pub apply_multi_session_heartbeat : Bytes → Option ℤ → Outcome
  unfolding renew_session
  apply_multi_session_heartbeat session_id = renew_session (session_key_with session_id)

  unfoldable pub apply_multi_pa_session_login :
      Bytes → Bytes → ℤ → Option ℤ → Bytes → Bytes → Outcome
  apply_multi_pa_session_login username token_hash issued_at expires_at device_id session_id = do
    acct ← read (expect S Kind.project_admin not_found (project_admin_key username))
    modify (
        save_pending S Kind.session (pa_session_key_with username session_id) (record {
          token_hash = token_hash;
          issued_at = issued_at;
          expires_at = expires_at;
          device_id = device_id;
          principal = project_admin username acct.project;
        }))
    pure []

  unfoldable pub apply_multi_pa_session_logout : Bytes → Bytes → Outcome
  apply_multi_pa_session_logout username session_id = do
    modify (delete_pending (pa_session_key_with username session_id))
    pure []

  unfoldable pub apply_multi_pa_session_heartbeat : Bytes → Bytes → Option ℤ → Outcome
  unfolding renew_session
  apply_multi_pa_session_heartbeat username session_id =
      renew_session (pa_session_key_with username session_id)

  unfoldable pub apply_multi_session_logout_all : Outcome
  unfolding delete_all_admin_sessions
  apply_multi_session_logout_all = do modify delete_all_admin_sessions; pure []

  unfoldable pub apply_multi_pa_session_logout_all : Bytes → Outcome
  unfolding delete_all_pa_sessions
  apply_multi_pa_session_logout_all username = do modify (delete_all_pa_sessions username); pure []

  unfoldable pub apply_multi_ga_session_login :
      Bytes → Bytes → ℤ → Option ℤ → Bytes → Bytes → Outcome
  apply_multi_ga_session_login username token_hash issued_at expires_at device_id session_id = do
    acct ← read (expect S Kind.global_admin not_found (global_admin_key username))
    modify (
        save_pending S Kind.session (ga_session_key_with username session_id) (record {
          token_hash = token_hash;
          issued_at = issued_at;
          expires_at = expires_at;
          device_id = device_id;
          principal = global_admin acct.username;
        }))
    pure []

  unfoldable pub apply_multi_ga_session_logout : Bytes → Bytes → Outcome
  apply_multi_ga_session_logout username session_id = do
    modify (delete_pending (ga_session_key_with username session_id))
    pure []

  unfoldable pub apply_multi_ga_session_heartbeat : Bytes → Bytes → Option ℤ → Outcome
  unfolding renew_session
  apply_multi_ga_session_heartbeat username session_id =
      renew_session (ga_session_key_with username session_id)

  unfoldable pub apply_multi_ga_session_logout_all : Bytes → Outcome
  unfolding delete_all_ga_sessions
  apply_multi_ga_session_logout_all username = do modify (delete_all_ga_sessions username); pure []

  unfoldable pub apply_global_admin_sessions_revoke_all : Outcome
  unfolding revoke_rows
  apply_global_admin_sessions_revoke_all = do
    modify (λ m. revoke_rows (get_prefix_merged k_ga_account m) m)
    pure []

  -- `apply_pa_session_login`: one session for each account, read from the store
  unfoldable pub apply_pa_session_login : Bytes → Bytes → ℤ → Option ℤ → Bytes → Outcome
  apply_pa_session_login username token_hash issued_at expires_at device_id = do
    current ← read (load S Kind.session (pa_session_key username))
    if is_some current then throw session_in_use else do
      acct ← read (stored S Kind.project_admin not_found (project_admin_key username))
      modify (
          save_pending S Kind.session (pa_session_key username) (record {
            token_hash = token_hash;
            issued_at = issued_at;
            expires_at = expires_at;
            device_id = device_id;
            principal = project_admin username acct.project;
          }))
      pure []

  unfoldable pub apply_pa_session_logout : Bytes → Outcome
  apply_pa_session_logout username = do modify (delete_pending (pa_session_key username)); pure []

  unfoldable pub apply_pa_session_heartbeat : Bytes → Option ℤ → Outcome
  apply_pa_session_heartbeat username expires_at = do
    session ← read (stored S Kind.session session_expired (pa_session_key username))
    modify (
        save_pending S Kind.session (pa_session_key username)
          (record session { expires_at = expires_at }))
    pure []

  -- `apply_admin_set_password`
  unfoldable pub apply_admin_set_password : Bytes → Outcome
  apply_admin_set_password password_hash = do
    modify (save_pending S Kind.password k_admin_pw password_hash)
    pure []

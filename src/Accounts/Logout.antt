-- ===== src/Accounts/Logout.antt =====
-- A change of a project administrator's password, or the account's delete, ends its sessions.
use defing.Prelude.{
  true, false, [], ◌∷◌, ◌++◌, none, some, ◌≡◌, refl, ap, ◌∙◌, arith, Bytes, codes, bytes_eq,
  bytes_eq_refl, starts_with,
}
use defing.BTreeMap.Order.{IsSorted}
use defing.Accounts.{apply_project_admin_set_password}
use defing.Error.{ok, not_found}
use defing.Keys.{pa_session_prefix, pa_session_key, pa_session_key_with, project_admin_key}
use defing.Machine.{Machine, put_pending, delete_pending, get_merged}
use defing.Machine.View.{get_merged-delete_pending}
use defing.Model.{ProjectAdminAccount}
use defing.Reads.{stored}
use defing.Serde.{Serde, Kind, Sm, decoded, load_merged, save_pending}
use defing.Serde.Laws.{load_merged-save_pending}
use defing.Sessions.{delete_all_pa_sessions}
use defing.Sessions.Deletes.{get_merged-delete_prefix}

-- a key of a session with an id starts with the prefix of the account's sessions
starts_with-append : (p s : Bytes) → starts_with (p ++ s) p ≡ true
unfolding starts_with
starts_with-append [] [] = refl
starts_with-append [] (c ∷ s) = refl
starts_with-append (c ∷ p) s = ground (arith, starts_with-append p s)

starts_with_mono : (q p s : Bytes) → starts_with (q ++ s) (q ++ p) ≡ starts_with s p
unfolding starts_with
starts_with_mono [] p s = refl
starts_with_mono (c ∷ q) p s = ground (arith, starts_with_mono q p s)

session_in_prefix :
    (u sid : Bytes) → starts_with (pa_session_key_with u sid) (pa_session_prefix u) ≡ true
unfolding pa_session_key_with pa_session_prefix
session_in_prefix u sid =
    starts_with_mono (codes "sess/pa/") (u ++ codes "/") (u ++ (codes "/" ++ sid))
    ∙ starts_with_mono u (codes "/") (codes "/" ++ sid)
    ∙ starts_with-append (codes "/") sid

account_not_in_prefix :
    (u v : Bytes) → starts_with (project_admin_key u) (pa_session_prefix v) ≡ false
unfolding project_admin_key pa_session_prefix starts_with
account_not_in_prefix u v = refl

account_not_session : (u v : Bytes) → bytes_eq (pa_session_key u) (project_admin_key v) ≡ false
unfolding pa_session_key project_admin_key bytes_eq
account_not_session u v = refl

module _ {R : Type 0} where
  -- No session of the account is left, neither the one of old nor one with an id.
  pub record IsLoggedOut (u : Bytes) (m : Machine R) : Type 0 where
    pub single : get_merged (pa_session_key u) m ≡ none
    pub multi : (sid : Bytes) → get_merged (pa_session_key_with u sid) m ≡ none

  delete_all-IsLoggedOut :
      (u : Bytes) (m : Machine R) → IsSorted m.store → IsLoggedOut u (delete_all_pa_sessions u m)
  unfolding delete_all_pa_sessions delete_pending
  delete_all-IsLoggedOut u m sorted = record {
    single = ground (
      arith,
      get_merged-delete_prefix (pa_session_key u) (pa_session_prefix u)
          (delete_pending (pa_session_key u) m) sorted,
      get_merged-delete_pending (pa_session_key u) (pa_session_key u) m,
      bytes_eq_refl (pa_session_key u),
    );
    multi = λ sid. ground (
      arith,
      get_merged-delete_prefix (pa_session_key_with u sid) (pa_session_prefix u)
          (delete_pending (pa_session_key u) m) sorted,
      session_in_prefix u sid,
    );
  }

  -- the account itself is kept
  delete_all-account :
      (u v : Bytes) (m : Machine R)
      → IsSorted m.store
      → get_merged (project_admin_key v) (delete_all_pa_sessions u m)
        ≡ get_merged (project_admin_key v) m
  unfolding delete_all_pa_sessions delete_pending
  delete_all-account u v m sorted = ground (
    arith,
    get_merged-delete_prefix (project_admin_key v) (pa_session_prefix u)
        (delete_pending (pa_session_key u) m) sorted,
    get_merged-delete_pending (pa_session_key u) (project_admin_key v) m,
    account_not_in_prefix v u,
    account_not_session u v,
  )

module _ (S : Serde) (username salt password_hash : Bytes) (m : Sm S) (sorted : IsSorted m.store)
    (acct : ProjectAdminAccount)
    (has : stored S Kind.project_admin not_found (project_admin_key username) m ≡ ok acct) where
  abbrev renewed : ProjectAdminAccount
  renewed = record acct { salt = salt; password_hash = password_hash }

  abbrev saved : Sm S
  saved = save_pending S Kind.project_admin (project_admin_key username) renewed m

  saved-IsSorted : IsSorted saved.store
  unfolding save_pending put_pending
  saved-IsSorted = sorted

  account_read :
      load_merged S Kind.project_admin
        (project_admin_key username)
        (delete_all_pa_sessions username saved)
      ≡ ok (some renewed)
  unfolding load_merged
  account_read =
      ap (decoded S Kind.project_admin) (delete_all-account username username saved saved-IsSorted)
      ∙ load_merged-save_pending S Kind.project_admin (project_admin_key username)
          (project_admin_key username) renewed m
      ∙ rw bytes_eq_refl refl

  -- Over a sorted store, a change of an existing project administrator's password succeeds, stores
  -- the new salt and hash, and leaves the account without a session, the key of old and every
  -- session id included.
  pub apply_project_admin_set_password-IsLoggedOut :
      let r = apply_project_admin_set_password S username salt password_hash m in
      (r.0 ≡ ok [])
      × (load_merged S Kind.project_admin (project_admin_key username) r.1
          ≡ ok (some (record acct { salt = salt; password_hash = password_hash })))
      × IsLoggedOut username r.1
  unfolding apply_project_admin_set_password
  apply_project_admin_set_password-IsLoggedOut =
      rw has (refl, account_read, delete_all-IsLoggedOut username saved saved-IsSorted)

-- ===== src/Projects/Deletes.antt =====
-- What a project's delete removes.
use defing.Prelude.{
  Bool, true, false, ◌||◌, ◌&&◌, [], ◌∷◌, List, none, some, ◌≡◌, refl, sym, ◌∙◌, arith, Bytes,
  bytes_eq, starts_with, if◌then◌else◌,
}
use mathlib.Core.Path.{subst}
use defing.BTreeMap
use defing.BTreeMap.{BTreeMap}
use defing.BTreeMap.Order.{IsSorted}
use defing.Accounts.{list_project_admins}
use defing.Error.{ok, not_found}
use defing.Keys.{
  pa_session_key, pa_session_prefix, project_key, idx_pname, k_data_token, data_token_key,
  project_admin_key,
}
use defing.Machine.{delete_pending, get_merged, get_prefix_merged}
use defing.Machine.View.{get_merged-delete_pending, get_prefix_merged-get_merged}
use defing.Model.{Project, ProjectAdminAccount}
use defing.Projects.{is_owned_by, delete_admins, delete_tokens, apply_project_delete}
use defing.Reads.{expect}
use defing.Serde.{Serde, Kind, Sm}
use defing.Sessions.{delete_prefix, delete_all_pa_sessions}
use defing.Sessions.Deletes.{get_merged-delete_rows, get_merged-delete_prefix, delete_prefix-store}

module _ (S : Serde) where
  pub delete_admins-store :
      (accts : List ProjectAdminAccount) (m : Sm S) → (delete_admins S accts m).store ≡ m.store
  unfolding delete_admins delete_all_pa_sessions delete_pending
  delete_admins-store [] m = refl
  delete_admins-store (acct ∷ accts) m =
      delete_admins-store accts
        (delete_pending (project_admin_key acct.username) (delete_all_pa_sessions acct.username m))
      ∙ delete_prefix-store (pa_session_prefix acct.username)
          (delete_pending (pa_session_key acct.username) m)

module _ (S : Serde) (id : Bytes) where
  -- A key that is read as nothing stays so through deletes.
  delete_pending-none :
      (key k : Bytes) (m : Sm S)
      → get_merged key m ≡ none
      → get_merged key (delete_pending k m) ≡ none
  delete_pending-none key k m h = ground (arith, get_merged-delete_pending k key m)

  delete_all-none :
      (key u : Bytes) (m : Sm S)
      → get_merged key m ≡ none
      → get_merged key (delete_all_pa_sessions u m) ≡ none
  unfolding delete_all_pa_sessions delete_prefix
  delete_all-none key u m h = ground (
    arith,
    get_merged-delete_rows key
        (get_prefix_merged (pa_session_prefix u) (delete_pending (pa_session_key u) m))
        (delete_pending (pa_session_key u) m),
    delete_pending-none key (pa_session_key u) m h,
  )

  delete_admins-none :
      (key : Bytes) (accts : List ProjectAdminAccount) (m : Sm S)
      → get_merged key m ≡ none
      → get_merged key (delete_admins S accts m) ≡ none
  unfolding delete_admins
  delete_admins-none key [] m h = h
  delete_admins-none key (acct ∷ accts) m h =
      delete_admins-none key accts
        (delete_pending (project_admin_key acct.username) (delete_all_pa_sessions acct.username m))
        (delete_pending-none key (project_admin_key acct.username)
          (delete_all_pa_sessions acct.username m) (delete_all-none key acct.username m h))

  -- a row under the key whose record is of the project
  unfoldable owned_row : Bytes → BTreeMap S.Raw → Bool
  owned_row key [] = false
  owned_row key ((k, raw) ∷ rows) =
      (bytes_eq k key && is_owned_by id (S.from_slice Kind.token raw)) || owned_row key rows

  get_merged-delete_tokens :
      (key : Bytes) (rows : BTreeMap S.Raw) (m : Sm S)
      → get_merged key (delete_tokens S id rows m)
        ≡ (if owned_row key rows then none else get_merged key m)
  unfolding delete_tokens owned_row
  get_merged-delete_tokens key [] m = refl
  get_merged-delete_tokens key ((k, raw) ∷ rows) m = ground (
    arith,
    get_merged-delete_tokens key rows
        (if is_owned_by id (S.from_slice Kind.token raw) then delete_pending k m else m),
    get_merged-delete_pending k key m,
  )

  owned_row-get :
      (key : Bytes) (raw : S.Raw) (rows : BTreeMap S.Raw)
      → BTreeMap.get key rows ≡ some raw
      → is_owned_by id (S.from_slice Kind.token raw) ≡ true
      → owned_row key rows ≡ true
  unfolding owned_row BTreeMap.get
  owned_row-get key raw [] h o = absurd (ground (arith, h))
  owned_row-get key raw ((k, r) ∷ rows) h o = ground (arith, h, o, owned_row-get key raw rows)

  module _ (m : Sm S) (project : Project) (sorted : IsSorted m.store)
      (has : expect S Kind.project not_found (project_key id) m ≡ ok project) where
    abbrev cleared : Sm S
    cleared = delete_pending (idx_pname project.name) (delete_prefix (project_key id) m)

    abbrev without_admins : Sm S
    without_admins = delete_admins S (list_project_admins S id cleared) cleared

    gone :
        (key : Bytes)
        → starts_with key (project_key id) ≡ true
        → get_merged key without_admins ≡ none
    gone key inside = delete_admins-none key (list_project_admins S id cleared) cleared (
        delete_pending-none key (idx_pname project.name) (delete_prefix (project_key id) m)
          (ground (arith, get_merged-delete_prefix key (project_key id) m sorted, inside)))

    without_admins-store : without_admins.store ≡ m.store
    unfolding delete_pending
    without_admins-store =
        delete_admins-store S (list_project_admins S id cleared) cleared
        ∙ delete_prefix-store (project_key id) m

    abbrev token_rows : BTreeMap S.Raw
    token_rows = get_prefix_merged k_data_token without_admins

    is_token_key : (hash : Bytes) → starts_with (data_token_key hash) k_data_token ≡ true
    unfolding data_token_key starts_with
    is_token_key [] = refl
    is_token_key (c ∷ hash) = refl

    rows_at :
        (hash : Bytes)
        → BTreeMap.get (data_token_key hash) token_rows
          ≡ get_merged (data_token_key hash) without_admins
    rows_at hash = ground (
      arith,
      get_prefix_merged-get_merged k_data_token (data_token_key hash) without_admins
          (subst IsSorted (sym without_admins-store) sorted),
      is_token_key hash,
    )

    no_token :
        (hash : Bytes) (raw : S.Raw)
        → get_merged (data_token_key hash) (delete_tokens S id token_rows without_admins) ≡ some raw
        → is_owned_by id (S.from_slice Kind.token raw) ≡ false
    no_token hash raw h = ground (
      arith,
      h,
      get_merged-delete_tokens (data_token_key hash) token_rows without_admins,
      rows_at hash,
      owned_row-get (data_token_key hash) raw token_rows,
    )

    -- The delete of a project that exists succeeds over a sorted store. Afterwards nothing is read
    -- under any key that starts with the project's key, which takes in the keys of another project
    -- whose name continues this one's, and no token record that is still read is the project's.
    pub apply_project_delete-gone :
        let r = apply_project_delete S id m in
        (r.0 ≡ ok [])
        × ((key : Bytes) → starts_with key (project_key id) ≡ true → get_merged key r.1 ≡ none)
        × ((hash : Bytes) (raw : S.Raw)
            → get_merged (data_token_key hash) r.1 ≡ some raw
            → is_owned_by id (S.from_slice Kind.token raw) ≡ false)
    unfolding apply_project_delete
    apply_project_delete-gone = rw has (
      refl,
      λ key inside.
          ground (arith, get_merged-delete_tokens key token_rows without_admins, gone key inside),
      no_token,
    )

-- ===== src/Retention.antt =====
-- server/crates/dsh-core/src/state.rs: the lists of versions and of audit entries, and the two jobs
-- that cut them. A key is read as UTF-8 text, which for the keys of keys.rs are its bytes. The jobs
-- write past the pending operations, straight to the store.
pub mod Prune
pub mod Sorted
pub mod Audit
use defing.Prelude.{
  ℕ, zero, suc, ◌+◌, ◌-◌, ◌*◌, ◌/◌, Bool, true, false, not, ◌&&◌, ◌||◌, List, [], ◌∷◌, ◌++◌, Option,
  none, some, Bytes, codes, ltb, leb, ◌==◌, length, take, drop, bytes_eq, ends_with, strip_prefix,
  if◌then◌else◌,
}
use defing.Prelude.Decimal.{parse_u64}
use defing.Prelude.Int.{ℤ, int_lt}
use defing.BTreeMap
use defing.BTreeMap.{BTreeMap}
use defing.Error.{Result, ok, err, not_found}
use defing.Keys.{
  k_project, k_branch, k_version, k_audit, version_key, snapshot_key, diff_key, branch_state_key,
  audit_key,
}
use defing.Machine.{get_prefix_merged, ◌>>=◌, read, Action}
use defing.Model.{VersionRecord, AuditEntry}
use defing.Reads.{expect, parsed_rows}
use defing.Serde.{Serde, Kind, Sm}
use defing.Version.{checkpoint_interval, is_multiple}

-- `sort_by_key` with a number as key: a stable sort
unfoldable pub insert_by_no {ℓ} : {A : Type ℓ} → (A → ℕ) → A → List A → List A
insert_by_no key a [] = a ∷ []
insert_by_no key a (b ∷ bs) =
    let rest = insert_by_no key a bs in if ltb (key b) (key a) then b ∷ rest else a ∷ b ∷ bs

unfoldable pub sort_by_no {ℓ} : {A : Type ℓ} → (A → ℕ) → List A → List A
unfolding insert_by_no
sort_by_no key [] = []
sort_by_no key (a ∷ as') = insert_by_no key a (sort_by_no key as')

-- the same with `Reverse(key)`
unfoldable pub insert_by_reverse {ℓ} : {A : Type ℓ} → (A → ℕ) → A → List A → List A
insert_by_reverse key a [] = a ∷ []
insert_by_reverse key a (b ∷ bs) =
    let rest = insert_by_reverse key a bs in if ltb (key a) (key b) then b ∷ rest else a ∷ b ∷ bs

unfoldable pub sort_by_reverse {ℓ} : {A : Type ℓ} → (A → ℕ) → List A → List A
unfolding insert_by_reverse
sort_by_reverse key [] = []
sort_by_reverse key (a ∷ as') = insert_by_reverse key a (sort_by_reverse key as')

-- The number from which `prune_versions` keeps, for the newest version that it need not keep: the
-- whole snapshot below it.
unfoldable pub keep_from : ℕ → ℕ
keep_from newest =
    if not (is_multiple newest) && not (newest == 1)
    then (let base = ((newest - 1) / checkpoint_interval) * checkpoint_interval in
        if base == 0 then 1 else base)
    else newest

-- `hist[total - keep - 1].no`; the source panics where there is no such record, which the test
-- before it excludes
abbrev pub no_at : List VersionRecord → ℕ
no_at [] = 0
no_at (rec ∷ hist) = rec.no

abbrev pub newest_unkept : ℕ → List VersionRecord → ℕ
newest_unkept keep hist = no_at (drop (length hist - keep - 1) hist)

module _ (S : Serde) where
  -- the rows of `version_history` that are no snapshot and no diff
  unfoldable pub record_rows : BTreeMap S.Raw → BTreeMap S.Raw
  record_rows [] = []
  record_rows ((key, raw) ∷ rows) =
      let rest = record_rows rows in
      if ends_with key (codes "/snap") || ends_with key (codes "/diff")
      then rest
      else (key, raw) ∷ rest

  -- `version_history`
  unfoldable pub version_history : Bytes → Bytes → Sm S → List VersionRecord
  unfolding record_rows parsed_rows sort_by_no
  version_history id branch m =
      let prefix = k_project ++ (id ++ (k_branch ++ (branch ++ k_version))) in
      sort_by_no (λ r. r.no) (parsed_rows S Kind.version (record_rows (get_prefix_merged prefix m)))

  -- the three deletes of a version
  unfoldable pub delete_version : Bytes → Bytes → ℕ → Sm S → Sm S
  delete_version id branch n m = record m {
    store = BTreeMap.remove (diff_key id branch n) (
        BTreeMap.remove (snapshot_key id branch n)
          (BTreeMap.remove (version_key id branch n) m.store));
  }

  -- A round of the loop of `prune_versions`, on the count of the removed versions and the machine.
  unfoldable pub prune_version : Bytes → Bytes → ℕ → ℕ → VersionRecord → ℕ × Sm S → ℕ × Sm S
  unfolding delete_version
  prune_version id branch from active rec (removed, m) =
      if leb from rec.no || (rec.no == active)
      then (removed, m)
      else (suc removed, delete_version id branch rec.no m)

  unfoldable pub prune_loop : Bytes → Bytes → ℕ → ℕ → List VersionRecord → ℕ × Sm S → ℕ × Sm S
  unfolding prune_version
  prune_loop id branch from active [] s = s
  prune_loop id branch from active (rec ∷ hist) s =
      prune_loop id branch from active hist (prune_version id branch from active rec s)

  abbrev pub counted : ℕ × Sm S → Result ℕ × Sm S
  counted (removed, m) = (ok removed, m)

  -- `prune_versions` behind the read of the branch
  unfoldable pub prune_history : Bytes → Bytes → ℕ → ℕ → Sm S → Result ℕ × Sm S
  unfolding prune_loop keep_from
  prune_history id branch keep active m =
      let hist = version_history id branch m in
      if leb (length hist) keep
      then (ok 0, m)
      else counted (prune_loop id branch (keep_from (newest_unkept keep hist)) active hist (0, m))

  -- `prune_versions`
  unfoldable pub prune_versions : Bytes → Bytes → ℕ → Action S.Raw ℕ
  unfolding prune_history
  prune_versions id branch keep =
      read (expect S Kind.branch_state not_found (branch_state_key id branch)) >>= λ st.
      prune_history id branch keep st.active_version

  -- the number in an audit key; the counter `audit/seq` has none
  abbrev pub audit_no : Bytes → Option ℕ
  audit_no key = elim (strip_prefix key k_audit) [ none ↦ none | some rest ↦ parse_u64 rest ]

  -- the rows of `get_audit` that are entries
  unfoldable pub entry_rows : BTreeMap S.Raw → BTreeMap S.Raw
  unfolding parse_u64
  entry_rows [] = []
  entry_rows ((key, raw) ∷ rows) =
      let rest = entry_rows rows in
      elim (audit_no key) [ none ↦ rest | some seq ↦ (key, raw) ∷ rest ]

  -- the tests of `get_audit`; an option that is not given lets every entry pass
  abbrev pub is_action : Option Bytes → AuditEntry → Bool
  is_action none e = true
  is_action (some a) e = bytes_eq e.action a

  abbrev pub is_of_project : Option Bytes → Option Bytes → Bool
  is_of_project none p = true
  is_of_project (some a) none = false
  is_of_project (some a) (some p) = bytes_eq p a

  abbrev pub is_since : Option ℤ → AuditEntry → Bool
  is_since none e = true
  is_since (some s) e = not (int_lt e.ts s)

  unfoldable pub audit_matches :
      Option Bytes → Option Bytes → Option ℤ → List AuditEntry → List AuditEntry
  audit_matches action project since [] = []
  audit_matches action project since (e ∷ es) =
      let rest = audit_matches action project since es in
      if is_action action e && is_of_project project e.project && is_since since e
      then e ∷ rest
      else rest

  -- `get_audit`
  unfoldable pub get_audit : Option Bytes → Option Bytes → Option ℤ → ℕ → Sm S → List AuditEntry
  unfolding entry_rows parsed_rows audit_matches sort_by_reverse
  get_audit action project since limit m = take limit (
      sort_by_reverse (λ e. e.seq)
        (audit_matches action project since
          (parsed_rows S Kind.audit_entry (entry_rows (get_prefix_merged k_audit m)))))

  unfoldable pub audit_seqs : BTreeMap S.Raw → List ℕ
  unfolding parse_u64
  audit_seqs [] = []
  audit_seqs ((key, raw) ∷ rows) =
      let rest = audit_seqs rows in elim (audit_no key) [ none ↦ rest | some seq ↦ seq ∷ rest ]

  -- the deletes of `prune_audit`
  unfoldable pub delete_entries : List ℕ → Sm S → Sm S
  delete_entries [] m = m
  delete_entries (seq ∷ seqs) m =
      delete_entries seqs (record m { store = BTreeMap.remove (audit_key seq) m.store })

  -- `prune_audit`
  unfoldable pub prune_audit : ℕ → Action S.Raw ℕ
  unfolding audit_seqs sort_by_no delete_entries
  prune_audit keep m =
      let seqs = sort_by_no (λ n. n) (audit_seqs (get_prefix_merged k_audit m)) in
      if leb (length seqs) keep
      then (ok 0, m)
      else (ok (length seqs - keep), delete_entries (take (length seqs - keep) seqs) m)

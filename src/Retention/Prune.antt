-- ===== src/Retention/Prune.antt =====
-- What `prune_versions` leaves: every version from the whole snapshot below the newest that it need
-- not keep, and all that is no version of the branch.
use defing.Prelude.{
  ℕ, zero, suc, ◌-◌, ◌≤◌, ◌<◌, false, ◌||◌, List, [], ◌∷◌, some, ◌≡◌, refl, sym, ◌∙◌, arith, Bytes,
  ◌==◌, leb, bytes_eq, All, drop, length, Bool-cases, inl, inr, if◌then◌else◌,
}
use defing.BTreeMap.{get, get-remove}
use defing.Config.{get_config, config_at}
use defing.Error.{ok, and_then_cong, not_found}
use defing.Keys.{version_key, snapshot_key, diff_key, branch_state_key, struct_key}
use defing.Keys.Distinct.{
  BranchKey, state, version, snapshot, diff, same_key, branch_key, branch_key-same_key,
  struct_key-branch_key, branch_state_key-branch_key, version_key-branch_key,
  snapshot_key-branch_key, diff_key-branch_key,
}
use defing.Machine.{get_merged}
use defing.Model.{BranchState, VersionRecord}
use defing.Reads.{expect-ok}
use defing.Retention.{
  keep_from, delete_version, prune_version, prune_loop, prune_history, prune_versions,
  version_history, no_at, newest_unkept,
}
use defing.Serde.{Serde, Kind, Sm, load_merged}
use defing.Version.{chain_start}
use defing.Version.Local.{SameDocs, snapshot_of-same}

-- The bound is a first number of a chain: it is not above the newest version that need not stay,
-- and the chain of no version from it on starts below it.
keep_from-le : (n : ℕ) → keep_from n ≤ n
unfolding keep_from
keep_from-le n = ground arith

keep_from-chain_start : (n v : ℕ) → keep_from n ≤ v → keep_from n ≤ chain_start v
unfolding keep_from chain_start
keep_from-chain_start n v h = ground arith

module _ (S : Serde) (id branch : Bytes) where
  -- a key that is of no version below `from`
  abbrev IsSpared : ℕ → Bytes → Type 0
  IsSpared from at =
      (n : ℕ)
      → n < from
      → (bytes_eq (version_key id branch n) at ≡ false)
        × (bytes_eq (snapshot_key id branch n) at ≡ false)
        × (bytes_eq (diff_key id branch n) at ≡ false)

  get-delete_version :
      (from n : ℕ) (at : Bytes) (m : Sm S)
      → n < from
      → IsSpared from at
      → get at (delete_version S id branch n m).store ≡ get at m.store
  unfolding delete_version
  get-delete_version from n at m lt spared =
      let (v, s, d) = spared n lt in rw (get-remove, d) (rw (get-remove, s) (rw (get-remove, v)))

  -- what a sequence of rounds leaves of a key and of the pending operations
  abbrev Leaves : Bytes → Sm S → Sm S → Type 0
  Leaves at m m' = (get at m'.store ≡ get at m.store) × (m'.pending_ops ≡ m.pending_ops)

  prune_version-Leaves :
      (from active : ℕ) (rec : VersionRecord) (s : ℕ × Sm S) (at : Bytes)
      → IsSpared from at
      → Leaves at s.1 (prune_version S id branch from active rec s).1
  unfolding prune_version
  prune_version-Leaves from active rec (removed, m) at spared =
      elim (Bool-cases (leb from rec.no || (rec.no == active))) [
        | inl kept ↦ rw kept (refl, refl)
        | inr gone ↦ rw gone (
          get-delete_version from rec.no at m (ground (arith, gone)) spared,
          unfold delete_version in refl,
        )
      ]

  prune_loop-Leaves :
      (from active : ℕ) (hist : List VersionRecord) (s : ℕ × Sm S) (at : Bytes)
      → IsSpared from at
      → Leaves at s.1 (prune_loop S id branch from active hist s).1
  unfolding prune_loop
  prune_loop-Leaves from active [] s at spared = (refl, refl)
  prune_loop-Leaves from active (rec ∷ hist) s at spared =
      let t = prune_version S id branch from active rec s in
      let (a, b) = prune_version-Leaves from active rec s at spared in
      let (c, d) = prune_loop-Leaves from active hist t at spared in (c ∙ a, d ∙ b)

  -- The number from which a run of `prune_versions` keeps every version.
  abbrev pub kept_from : ℕ → Sm S → ℕ
  kept_from keep m = keep_from (newest_unkept keep (version_history S id branch m))

  prune_history-Leaves :
      (keep active : ℕ) (m : Sm S) (at : Bytes)
      → IsSpared (kept_from keep m) at
      → Leaves at m (prune_history S id branch keep active m).1
  unfolding prune_history
  prune_history-Leaves keep active m at spared =
      elim (Bool-cases (leb (length (version_history S id branch m)) keep)) [
        | inl few ↦ rw few (refl, refl)
        | inr many ↦ rw many (
            prune_loop-Leaves (kept_from keep m) active (version_history S id branch m) (0, m) at
              spared)
      ]

  load_merged-Leaves :
      (k : Kind) (at : Bytes) (m m' : Sm S)
      → Leaves at m m'
      → load_merged S k at m' ≡ load_merged S k at m
  unfolding load_merged get_merged
  load_merged-Leaves k at m m' (e, p) = rw (e, p) refl

  branch_key-IsSpared :
      (from : ℕ) (k : BranchKey)
      → ((n : ℕ)
          → n < from
          → (same_key (version n) k ≡ false)
            × (same_key (snapshot n) k ≡ false)
            × (same_key (diff n) k ≡ false))
      → IsSpared from (branch_key id branch k)
  branch_key-IsSpared from k h n lt =
      let (a, b, c) = h n lt in
      (
        rw version_key-branch_key (branch_key-same_key id branch (version n) k ∙ a),
        rw snapshot_key-branch_key (branch_key-same_key id branch (snapshot n) k ∙ b),
        rw diff_key-branch_key (branch_key-same_key id branch (diff n) k ∙ c),
      )

  state-IsSpared : (from : ℕ) → IsSpared from (branch_state_key id branch)
  state-IsSpared from =
      rw branch_state_key-branch_key (branch_key-IsSpared from state (λ n lt. (refl, refl, refl)))

  struct-IsSpared : (from : ℕ) → IsSpared from (struct_key id)
  struct-IsSpared from n lt = (
    rw version_key-branch_key (struct_key-branch_key id branch (version n)),
    rw snapshot_key-branch_key (struct_key-branch_key id branch (snapshot n)),
    rw diff_key-branch_key (struct_key-branch_key id branch (diff n)),
  )

  Leaves-SameDocs :
      (from : ℕ) (m m' : Sm S)
      → ((at : Bytes) → IsSpared from at → Leaves at m m')
      → SameDocs S id branch m m' from
  Leaves-SameDocs from m m' h = record {
    whole = λ n le. load_merged-Leaves Kind.snapshot (snapshot_key id branch n) m m' (
        h (snapshot_key id branch n) (
          rw snapshot_key-branch_key
            (branch_key-IsSpared from (snapshot n) (λ k lt. (refl, ground arith, refl)))));
    step = λ n le. load_merged-Leaves Kind.diff (diff_key id branch n) m m' (
        h (diff_key id branch n) (
          rw diff_key-branch_key
            (branch_key-IsSpared from (diff n) (λ k lt. (refl, refl, ground arith)))));
  }

  config_at-same :
      (from v : ℕ) (m m' : Sm S)
      → ((at : Bytes) → IsSpared from at → Leaves at m m')
      → from ≤ chain_start v
      → config_at S id branch v m' ≡ config_at S id branch v m
  unfolding config_at
  config_at-same from v m m' h le = elim (Bool-cases (v == 0)) [
    | inl none_asked ↦ rw none_asked refl
    | inr asked ↦ rw asked (
        and_then_cong (snapshot_of-same S id branch m m' from (Leaves-SameDocs from m m' h) v le)
          (λ snap.
            and_then_cong
              (load_merged-Leaves Kind.structure (struct_key id) m m'
                (h (struct_key id) (struct-IsSpared from)))
              (λ structure. refl)))
  ]

  no_at-drop-le :
      (n active : ℕ) (hist : List VersionRecord)
      → All (λ r. r.no ≤ active) hist
      → no_at (drop n hist) ≤ active
  no_at-drop-le zero active [] h = omega arith
  no_at-drop-le zero active (rec ∷ hist) (le, h) = le
  no_at-drop-le (suc n) active [] h = omega arith
  no_at-drop-le (suc n) active (rec ∷ hist) (le, h) = no_at-drop-le n active hist h

  prune_versions-history :
      (keep : ℕ) (m : Sm S) (st : BranchState)
      → load_merged S Kind.branch_state (branch_state_key id branch) m ≡ ok (some st)
      → prune_versions S id branch keep m ≡ prune_history S id branch keep st.active_version m
  unfolding prune_versions
  prune_versions-history keep m st h =
      rw (expect-ok S Kind.branch_state not_found (branch_state_key id branch) st m h) refl

  get_config-state :
      (v : ℕ) (m : Sm S) (st : BranchState)
      → load_merged S Kind.branch_state (branch_state_key id branch) m ≡ ok (some st)
      → get_config S id branch v m
        ≡ config_at S id branch (if v == 0 then st.active_version else v) m
  unfolding get_config
  get_config-state v m st h =
      rw (expect-ok S Kind.branch_state not_found (branch_state_key id branch) st m h) refl

  -- Retention is safe: on a branch no record of which is above its active version, a run of
  -- `prune_versions` leaves what clients read of the active version, and of every version from the
  -- whole snapshot on that the newest version not among the last `keep` builds on.
  pub prune_versions-get_config :
      (keep v : ℕ) (m : Sm S) (st : BranchState)
      → load_merged S Kind.branch_state (branch_state_key id branch) m ≡ ok (some st)
      → All (λ r. r.no ≤ st.active_version) (version_history S id branch m)
      → kept_from keep m ≤ v
      → (get_config S id branch 0 (prune_versions S id branch keep m).1
          ≡ get_config S id branch 0 m)
        × (get_config S id branch v (prune_versions S id branch keep m).1
            ≡ get_config S id branch v m)
  prune_versions-get_config keep v m st h below le =
      let hist = version_history S id branch m in
      let m' = (prune_history S id branch keep st.active_version m).1 in
      let leaves = prune_history-Leaves keep st.active_version m in
      let state' : load_merged S Kind.branch_state (branch_state_key id branch) m' ≡ ok (some st) =
        load_merged-Leaves Kind.branch_state (branch_state_key id branch) m m'
          (leaves (branch_state_key id branch) (state-IsSpared (kept_from keep m)))
        ∙ h in
      let active_kept : kept_from keep m ≤ st.active_version = omega (
        arith,
        keep_from-le (newest_unkept keep hist),
        no_at-drop-le (length hist - keep - 1) st.active_version hist below,
      ) in
      let same = λ (w : ℕ) (from : kept_from keep m ≤ w).
        config_at-same (kept_from keep m) w m m' leaves
          (keep_from-chain_start (newest_unkept keep hist) w from) in
      rw (prune_versions-history keep m st h) (
        get_config-state 0 m' st state'
            ∙ same st.active_version active_kept
            ∙ sym (get_config-state 0 m st h),
        get_config-state v m' st state'
            ∙ same (if v == 0 then st.active_version else v) (ground arith)
            ∙ sym (get_config-state v m st h),
      )

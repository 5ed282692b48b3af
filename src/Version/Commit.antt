-- ===== src/Version/Commit.antt =====
-- A new version and the branch state that makes it the active one, written together: what every
-- command that publishes does last.
use defing.Prelude.{
  ℕ, zero, suc, ◌≤◌, ◌<◌, true, false, some, ◌≡◌, refl, ap, sym, ◌∙◌, arith, Bytes, ◌==◌, ==_iff,
  is_some, if◌then◌else◌, Bool-cases, inl, inr, ◌⊎◌, bytes_eq, bytes_eq_refl,
}
use mathlib.Core.Path.{subst}
use defing.Error.{ok}
use defing.Keys.{branch_state_key}
use defing.Keys.Distinct.{BranchKey, branch_key, branch_keys, branch_state_key-branch_key}
use defing.Model.{full, diff, SnapshotMap, VersionRecord, BranchState}
use defing.Model.Reread.{IsExact}
use defing.Diff.{compute_diff, apply_diff}
use defing.Diff.RoundTrip.{IsSnapshot, apply_diff-IsSnapshot}
use defing.Serde.{Serde, Kind, Sm, read_back, load_merged, save_pending}
use defing.Serde.Laws.{load_merged-save_pending, load_merged-save_pending_ne}
use defing.Version.{snapshot_of, write_version_snapshot}
use defing.Version.History.{is_checkpoint, history, IsReadable}
use defing.Version.Write.{
  SameStored, SameStored-save, SameStored-trans, history-SameStored, written, history-write,
  write-SameStored, IsNextVersion, snapshot_of-same, history-snapshot_of,
  write_version_snapshot-IsNextVersion,
}

module _ (S : Serde) (id branch : Bytes) where
  abbrev pub commit : ℕ → SnapshotMap → SnapshotMap → VersionRecord → BranchState → Sm S → Sm S
  commit n old new rec st m =
      save_pending S Kind.branch_state (branch_state_key id branch) st
        (write_version_snapshot S id branch (suc n) old new rec m)

  -- a key that is none of the branch
  abbrev pub IsOutside : Bytes → Type 0
  IsOutside key = (k : BranchKey) → bytes_eq (branch_key id branch k) key ≡ false

  -- The versions up to `n` can be read, and each is a sorted snapshot.
  pub record IsChain (m : Sm S) (n : ℕ) : Type 0 where
    pub readable : IsReadable S id branch m n
    pub sorted : (v : ℕ) (s : SnapshotMap) → v ≤ n → history S id branch m v ≡ some s → IsSnapshot s

  pub IsChain-zero : (m : Sm S) → IsChain m 0
  IsChain-zero m = record {
    readable = λ v pos le. absurd (omega arith);
    sorted = λ v s le h. absurd (none_at_zero v s le h);
  }
    where
      none_at_zero : (v : ℕ) (s : SnapshotMap) → v ≤ 0 → history S id branch m v ≡ some s → ⊥
      none_at_zero zero s le h = unfold history in cc
      none_at_zero (suc v) s le h = absurd (omega arith)

  pub IsChain-SameStored :
      (n : ℕ) (m m' : Sm S) → SameStored S id branch n m m' → IsChain m n → IsChain m' n
  IsChain-SameStored n m m' same chain = record {
    readable = λ v pos le.
        ap is_some (history-SameStored S id branch n v m m' same le) ∙ chain.readable v pos le;
    sorted =
        λ v s le h. chain.sorted v s le (sym (history-SameStored S id branch n v m m' same le) ∙ h);
  }

  module _ (n : ℕ) (old new : SnapshotMap) (rec : VersionRecord) (st : BranchState) (m : Sm S) where
    abbrev written_only : Sm S
    written_only = write_version_snapshot S id branch (suc n) old new rec m

    state-SameStored : (k : ℕ) → SameStored S id branch k written_only (commit n old new rec st m)
    state-SameStored k = simp branch_keys (
        SameStored-save S id branch Kind.branch_state BranchKey.state st k written_only
          (λ v le. refl) (λ v le. refl))

    pub commit-state :
        load_merged S Kind.branch_state (branch_state_key id branch) (commit n old new rec st m)
        ≡ ok (some (read_back S Kind.branch_state st))
    commit-state =
        load_merged-save_pending S Kind.branch_state (branch_state_key id branch)
          (branch_state_key id branch) st written_only
        ∙ rw bytes_eq_refl

    write-outside :
        (k : Kind) (key : Bytes)
        → IsOutside key
        → load_merged S k key written_only ≡ load_merged S k key m
    unfolding write_version_snapshot
    write-outside k key out = elim (Bool-cases (is_checkpoint (suc n))) [
      | inl whole ↦ rw whole (
          simp branch_keys (
            load_merged-save_pending_ne S Kind.version k
              (branch_key id branch (BranchKey.version (suc n))) key (record rec { kind = full })
              (save_pending S Kind.snapshot (branch_key id branch (BranchKey.snapshot (suc n))) new
                m)
              (out (BranchKey.version (suc n)))
            ∙ load_merged-save_pending_ne S Kind.snapshot k
                (branch_key id branch (BranchKey.snapshot (suc n))) key new m
                (out (BranchKey.snapshot (suc n)))))
      | inr other ↦ rw other (
          simp branch_keys (
            load_merged-save_pending_ne S Kind.version k
              (branch_key id branch (BranchKey.version (suc n))) key (record rec { kind = diff })
              (save_pending S Kind.diff (branch_key id branch (BranchKey.diff (suc n)))
                (compute_diff old new) m)
              (out (BranchKey.version (suc n)))
            ∙ load_merged-save_pending_ne S Kind.diff k
                (branch_key id branch (BranchKey.diff (suc n))) key (compute_diff old new) m
                (out (BranchKey.diff (suc n)))))
    ]

    -- What is read under a key outside the branch stays as it is.
    pub commit-outside :
        (k : Kind) (key : Bytes)
        → IsOutside key
        → load_merged S k key (commit n old new rec st m) ≡ load_merged S k key m
    commit-outside k key out =
        load_merged-save_pending_ne S Kind.branch_state k (branch_state_key id branch) key st
          written_only (rw branch_state_key-branch_key (out BranchKey.state))
        ∙ write-outside k key out

    written-IsSnapshot :
        IsSnapshot old → IsSnapshot new → IsSnapshot (written S id branch n old new rec m)
    written-IsSnapshot so sn = elim (Bool-cases (is_checkpoint (suc n))) [
      | inl whole ↦
          subst (λ b. IsSnapshot (if b then new else apply_diff (compute_diff old new) old))
            (sym whole) sn
      | inr other ↦
          subst (λ b. IsSnapshot (if b then new else apply_diff (compute_diff old new) old))
            (sym other) (apply_diff-IsSnapshot (compute_diff old new) old so)
    ]

    module _ (chain : IsChain m n) (before : 0 < n → snapshot_of S id branch n m ≡ ok old)
        (so : IsSnapshot old) (sn : IsSnapshot new) (exact : IsExact S.reread_float new) where
      next : IsNextVersion S id branch n old new rec m written_only
      next =
          write_version_snapshot-IsNextVersion S id branch n old new rec m chain.readable before so
            sn exact

      commit-IsReadable : IsReadable S id branch (commit n old new rec st m) (suc n)
      commit-IsReadable v pos le =
          ap is_some (
            history-SameStored S id branch (suc n) v written_only (commit n old new rec st m)
              (state-SameStored (suc n)) le)
          ∙ next.readable v pos le

      -- The new version is there, and those before it are unchanged.
      pub commit-IsNextVersion :
          IsNextVersion S id branch n old new rec m (commit n old new rec st m)
      commit-IsNextVersion =
          let (s, read, agrees) = next.content in
          record {
            readable = commit-IsReadable;
            content = (
              s,
              snapshot_of-same S id branch (suc n) old new rec written_only
                    (commit n old new rec st m) (suc n) (state-SameStored (suc n)) next.readable
                    commit-IsReadable (omega arith) (omega arith)
                  ∙ read,
              agrees,
            );
            kept = λ v pos le.
                snapshot_of-same S id branch (suc n) old new rec written_only
                  (commit n old new rec st m) v (state-SameStored (suc n)) next.readable
                  commit-IsReadable pos (omega arith)
                ∙ next.kept v pos le;
          }

      pub commit-IsChain : IsChain (commit n old new rec st m) (suc n)
      commit-IsChain = record {
        readable = commit-IsReadable;
        sorted = λ v s le h. sorted_at v s le h (Bool-cases (v == suc n));
      }
        where
          sorted_at :
              (v : ℕ) (s : SnapshotMap)
              → v ≤ suc n
              → history S id branch (commit n old new rec st m) v ≡ some s
              → ((v == suc n) ≡ true) ⊎ ((v == suc n) ≡ false)
              → IsSnapshot s
          sorted_at v s le h (inl last) =
              subst IsSnapshot
                (cc (
                  (==_iff v (suc n)).0 last,
                  h,
                  history-SameStored S id branch (suc n) v written_only (commit n old new rec st m)
                      (state-SameStored (suc n)) le,
                  history-write S id branch n old new rec m exact
                      (history-snapshot_of S id branch n old new rec m chain.readable before),
                ))
                (written-IsSnapshot so sn)
          sorted_at v s le h (inr earlier) = chain.sorted v s (ground arith) (
              sym (
                history-SameStored S id branch n v m (commit n old new rec st m)
                  (SameStored-trans S id branch n m written_only (commit n old new rec st m)
                    (write-SameStored S id branch n old new rec m) (state-SameStored n))
                  (ground arith))
              ∙ h)

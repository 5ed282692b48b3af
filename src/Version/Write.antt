-- ===== src/Version/Write.antt =====
-- Writing the next version: it is read back, and the versions before it stay as they are.
use defing.Prelude.{
  ℕ, zero, suc, ◌≤◌, ◌<◌, true, false, some, ◌≡◌, refl, ap, sym, ◌∙◌, arith, Bytes, ◌==◌, ==_refl,
  ==_iff, if◌then◌else◌, is_some, Bool-cases, Option-cases, inl, inr,
}
use defing.BTreeMap.Nested.{get2}
use defing.Error.{ok}
use defing.Keys.Distinct.{BranchKey, branch_key, branch_key-same_key, branch_keys, same_key}
use defing.Model.{SnapshotMap, VersionRecord, full, diff}
use defing.Model.Reread.{IsExact, reread_snapshot-IsExact, reread_diff-compute_diff}
use defing.Diff.{compute_diff, apply_diff}
use defing.Diff.RoundTrip.{IsSnapshot, Agrees, Agrees-refl, apply_diff-compute_diff}
use defing.Serde.{Serde, Kind, Sem, Sm, read_back, load_merged, save_pending}
use defing.Serde.Laws.{load_merged-save_pending, load_merged-save_pending_ne}
use defing.Version.{snapshot_of, write_version_snapshot}
use defing.Version.History.{
  found, is_checkpoint, stored_snapshot, stored_diff, history, IsReadable, snapshot_of-history,
}

module _ (S : Serde) (id branch : Bytes) where
  -- What `history` reads for the versions up to `n` is the same in two states.
  pub record SameStored (n : ℕ) (m m' : Sm S) : Type 0 where
    pub snapshots :
        (v : ℕ) → v ≤ n → stored_snapshot S id branch m' v ≡ stored_snapshot S id branch m v
    pub diffs : (v : ℕ) → v ≤ n → stored_diff S id branch m' v ≡ stored_diff S id branch m v

  pub history-SameStored :
      (n v : ℕ) (m m' : Sm S)
      → SameStored n m m'
      → v ≤ n
      → history S id branch m' v ≡ history S id branch m v
  unfolding history
  history-SameStored n zero m m' same le = refl
  history-SameStored n (suc v) m m' same le = ground (
    arith,
    same.snapshots (suc v) le,
    same.diffs (suc v) le,
    history-SameStored n v m m' same (omega arith),
  )

  -- readable versions with the same stored content are read alike
  pub snapshot_of-kept :
      (n : ℕ) (m m' : Sm S) (v : ℕ)
      → SameStored n m m'
      → IsReadable S id branch m n
      → IsReadable S id branch m' n
      → 0 < v
      → v ≤ n
      → snapshot_of S id branch v m' ≡ snapshot_of S id branch v m
  snapshot_of-kept n m m' v same all all' pos le = elim (Option-cases (history S id branch m v)) [
    | inl missing ↦ absurd (ground (arith, missing, all v pos le))
    | inr (s, there) ↦
        snapshot_of-history S id branch m' v s pos (λ w p q. all' w p (omega arith))
          (history-SameStored n v m m' same le ∙ there)
        ∙ sym (snapshot_of-history S id branch m v s pos (λ w p q. all w p (omega arith)) there)
  ]

  -- a save under a key of the branch, seen from another key of it
  pub save-other :
      (k l : Kind) (at read : BranchKey) (x : Sem k) (m : Sm S)
      → same_key at read ≡ false
      → load_merged S l (branch_key id branch read) (save_pending S k (branch_key id branch at) x m)
        ≡ load_merged S l (branch_key id branch read) m
  save-other k l at read x m other =
      load_merged-save_pending_ne S k l (branch_key id branch at) (branch_key id branch read) x m
        (branch_key-same_key id branch at read ∙ other)

  pub save-same :
      (k : Kind) (at : BranchKey) (x : Sem k) (m : Sm S)
      → same_key at at ≡ true
      → load_merged S k (branch_key id branch at) (save_pending S k (branch_key id branch at) x m)
        ≡ ok (some (read_back S k x))
  save-same k at x m same =
      load_merged-save_pending S k (branch_key id branch at) (branch_key id branch at) x m
      ∙ rw (branch_key-same_key, same)

  -- A save under a key of the branch that holds no content of a version up to `n`.
  pub SameStored-save :
      (k : Kind) (at : BranchKey) (x : Sem k) (n : ℕ) (m : Sm S)
      → ((v : ℕ) → v ≤ n → same_key at (BranchKey.snapshot v) ≡ false)
      → ((v : ℕ) → v ≤ n → same_key at (BranchKey.diff v) ≡ false)
      → SameStored n m (save_pending S k (branch_key id branch at) x m)
  SameStored-save k at x n m no_snapshot no_diff = record {
    snapshots = λ v le.
        simp branch_keys
          (ap found (save-other k Kind.snapshot at (BranchKey.snapshot v) x m (no_snapshot v le)));
    diffs = λ v le.
        simp branch_keys
          (ap found (save-other k Kind.diff at (BranchKey.diff v) x m (no_diff v le)));
  }

  pub SameStored-trans :
      (n : ℕ) (a b c : Sm S) → SameStored n a b → SameStored n b c → SameStored n a c
  SameStored-trans n a b c ab bc = record {
    snapshots = λ v le. bc.snapshots v le ∙ ab.snapshots v le;
    diffs = λ v le. bc.diffs v le ∙ ab.diffs v le;
  }

  below : (n v : ℕ) → v ≤ n → (suc n == v) ≡ false
  below n v le = ground arith

  module _ (n : ℕ) (old new : SnapshotMap) (rec : VersionRecord) (m : Sm S) where
    abbrev after : Sm S
    after = write_version_snapshot S id branch (suc n) old new rec m

    pub write-SameStored : SameStored n m after
    unfolding write_version_snapshot
    write-SameStored = elim (Bool-cases (is_checkpoint (suc n))) [
      | inl whole ↦ rw whole (
          simp branch_keys (
            SameStored-trans n m (with_snapshot) after_whole
              (SameStored-save Kind.snapshot (BranchKey.snapshot (suc n)) new n m (below n)
                (λ v le. refl))
              (SameStored-save Kind.version (BranchKey.version (suc n)) (record rec { kind = full })
                n with_snapshot (λ v le. refl) (λ v le. refl))))
      | inr other ↦ rw other (
          simp branch_keys (
            SameStored-trans n m with_diff after_diff
              (SameStored-save Kind.diff (BranchKey.diff (suc n)) (compute_diff old new) n m
                (λ v le. refl) (below n))
              (SameStored-save Kind.version (BranchKey.version (suc n)) (record rec { kind = diff })
                n with_diff (λ v le. refl) (λ v le. refl))))
    ]
      where
        with_snapshot : Sm S
        with_snapshot =
            save_pending S Kind.snapshot (branch_key id branch (BranchKey.snapshot (suc n))) new m

        with_diff : Sm S
        with_diff =
            save_pending S Kind.diff (branch_key id branch (BranchKey.diff (suc n)))
              (compute_diff old new) m

        after_whole : Sm S
        after_whole =
            save_pending S Kind.version (branch_key id branch (BranchKey.version (suc n)))
              (record rec { kind = full }) with_snapshot

        after_diff : Sm S
        after_diff =
            save_pending S Kind.version (branch_key id branch (BranchKey.version (suc n)))
              (record rec { kind = diff }) with_diff

    stored-whole :
        IsExact S.reread_float new
        → is_checkpoint (suc n) ≡ true
        → stored_snapshot S id branch after (suc n) ≡ some new
    unfolding write_version_snapshot
    stored-whole exact whole = rw whole (
        simp branch_keys (
          ap found (
            save-other Kind.version Kind.snapshot (BranchKey.version (suc n))
              (BranchKey.snapshot (suc n)) (record rec { kind = full })
              (save_pending S Kind.snapshot (branch_key id branch (BranchKey.snapshot (suc n))) new
                m)
              refl
            ∙ save-same Kind.snapshot (BranchKey.snapshot (suc n)) new m (==_refl (suc n))))
        ∙ ap some (reread_snapshot-IsExact S.reread_float new exact))

    stored-diff :
        IsExact S.reread_float new
        → is_checkpoint (suc n) ≡ false
        → stored_diff S id branch after (suc n) ≡ some (compute_diff old new)
    unfolding write_version_snapshot
    stored-diff exact other = rw other (
        simp branch_keys (
          ap found (
            save-other Kind.version Kind.diff (BranchKey.version (suc n)) (BranchKey.diff (suc n))
              (record rec { kind = diff })
              (save_pending S Kind.diff (branch_key id branch (BranchKey.diff (suc n)))
                (compute_diff old new) m)
              refl
            ∙ save-same Kind.diff (BranchKey.diff (suc n)) (compute_diff old new) m
                (==_refl (suc n))))
        ∙ ap some (reread_diff-compute_diff S.reread_float old new exact))

    -- what the new version holds
    abbrev pub written : SnapshotMap
    written = if is_checkpoint (suc n) then new else apply_diff (compute_diff old new) old

    pub history-write :
        IsExact S.reread_float new
        → (0 < n → history S id branch m n ≡ some old)
        → history S id branch after (suc n) ≡ some written
    unfolding history
    history-write exact before = elim (Bool-cases (is_checkpoint (suc n))) [
      | inl whole ↦ ground (arith, whole, stored-whole exact whole)
      | inr other ↦ ground (
        arith,
        other,
        stored-diff exact other,
        history-SameStored n n m after write-SameStored (omega arith),
        before (first other),
      )
    ]
      where
        first : is_checkpoint (suc n) ≡ false → 0 < n
        first other = ground arith

    pub IsReadable-write :
        IsExact S.reread_float new
        → IsReadable S id branch m n
        → (0 < n → history S id branch m n ≡ some old)
        → IsReadable S id branch after (suc n)
    IsReadable-write exact all before v pos le = elim (Bool-cases (v == suc n)) [
      | inl last ↦
          ap (λ w. is_some (history S id branch after w)) ((==_iff v (suc n)).0 last)
          ∙ ap is_some (history-write exact before)
      | inr earlier ↦
          ap is_some (history-SameStored n v m after write-SameStored (ground arith))
          ∙ all v pos (ground arith)
    ]

    written-Agrees :
        IsSnapshot old → IsSnapshot new → (g k : Bytes) → Agrees (get2 g k written) (get2 g k new)
    written-Agrees so sn g k = elim (Bool-cases (is_checkpoint (suc n))) [
      | inl whole ↦ rw whole (Agrees-refl (get2 g k new))
      | inr other ↦ rw other (apply_diff-compute_diff g k old new so sn)
    ]

    -- Version `n + 1` is there with the new content, every version up to it can be read, and what
    -- was read of the versions before it is read unchanged.
    pub record IsNextVersion (m' : Sm S) : Type 0 where
      pub readable : IsReadable S id branch m' (suc n)
      pub content :
          (s : SnapshotMap) × (snapshot_of S id branch (suc n) m' ≡ ok s)
          × ((g k : Bytes) → Agrees (get2 g k s) (get2 g k new))
      pub kept :
          (v : ℕ) → 0 < v → v ≤ n → snapshot_of S id branch v m' ≡ snapshot_of S id branch v m

    pub snapshot_of-same :
        (m' : Sm S) (v : ℕ)
        → SameStored n m m'
        → IsReadable S id branch m n
        → IsReadable S id branch m' n
        → 0 < v
        → v ≤ n
        → snapshot_of S id branch v m' ≡ snapshot_of S id branch v m
    snapshot_of-same m' v same all all' pos le = snapshot_of-kept n m m' v same all all' pos le

    pub history-snapshot_of :
        IsReadable S id branch m n
        → (0 < n → snapshot_of S id branch n m ≡ ok old)
        → 0 < n
        → history S id branch m n ≡ some old
    history-snapshot_of all before pos = elim (Option-cases (history S id branch m n)) [
      | inl missing ↦ absurd (ground (arith, missing, all n pos (omega arith)))
      | inr (s, there) ↦
          there ∙ ap some (cc (snapshot_of-history S id branch m n s pos all there, before pos))
    ]

    -- In a branch whose versions up to n can be read, where version n (if there is one) has the
    -- content old, old and new are sorted snapshots, and no float of new changes when it is written
    -- and read, writing version n + 1 makes it readable with a content that agrees with new item by
    -- item (up to the program's own comparison of values), be it stored whole or as a diff, and
    -- changes the content of no version up to n.
    pub write_version_snapshot-IsNextVersion :
        IsReadable S id branch m n
        → (0 < n → snapshot_of S id branch n m ≡ ok old)
        → IsSnapshot old
        → IsSnapshot new
        → IsExact S.reread_float new
        → IsNextVersion after
    write_version_snapshot-IsNextVersion all before so sn exact =
        let earlier : (0 < n → history S id branch m n ≡ some old) =
          history-snapshot_of all before in
        let readable : IsReadable S id branch after (suc n) = IsReadable-write exact all earlier in
        record {
          readable = readable;
          content = (
            written,
            snapshot_of-history S id branch after (suc n) written (omega arith) readable
                (history-write exact earlier),
            written-Agrees so sn,
          );
          kept = λ v pos le.
              snapshot_of-same after v write-SameStored all (λ w p q. readable w p (omega arith))
                pos le;
        }

-- ===== src/Version/Local.antt =====
-- What `snapshot_of` reads: the documents from the last whole snapshot on, and no others.
use defing.Prelude.{
  ℕ, zero, suc, ◌-◌, ◌≤◌, ◌<◌, true, false, List, Option, none, some, ◌≡◌, refl, ap, sym, ◌∙◌,
  arith, Bytes, ◌==◌, Bool-cases, inl, inr,
}
use defing.Error.{Result, and_then, and_then_cong}
use defing.Keys.{snapshot_key, diff_key}
use defing.Model.{SnapshotMap, DiffEntry}
use defing.Diff.{apply_diff}
use defing.Serde.{Serde, Kind, Sm, load_merged}
use defing.Version.{
  is_multiple, chain_start, read_snapshot, replay, replay_from, snapshot_of, or_not_found,
}
use defing.Version.History.{chain_start_bounds}

module _ (S : Serde) (id branch : Bytes) (m m' : Sm S) where
  -- `m'` has the snapshots and the diffs of `m` from the number `from` on
  pub record SameDocs (from : ℕ) : Type 0 where
    pub whole :
        (n : ℕ)
        → from ≤ n
        → load_merged S Kind.snapshot (snapshot_key id branch n) m'
          ≡ load_merged S Kind.snapshot (snapshot_key id branch n) m
    pub step :
        (n : ℕ)
        → from ≤ n
        → load_merged S Kind.diff (diff_key id branch n) m'
          ≡ load_merged S Kind.diff (diff_key id branch n) m

  module _ (from : ℕ) (same : SameDocs from) where
    read_snapshot-same :
        (n : ℕ) → from ≤ n → read_snapshot S id branch n m' ≡ read_snapshot S id branch n m
    unfolding read_snapshot
    read_snapshot-same n h = ap (λ r. and_then r or_not_found) (same.whole n h)

    after_diff : ℕ → ℕ → SnapshotMap → Sm S → Option (List DiffEntry) → Result SnapshotMap
    after_diff rounds v snap n none = read_snapshot S id branch v n
    after_diff rounds v snap n (some d) = replay S id branch rounds (suc v) (apply_diff d snap) n

    replay-whole :
        (rounds v : ℕ) (snap : SnapshotMap) (n : Sm S)
        → is_multiple v ≡ true
        → replay S id branch (suc rounds) v snap n
          ≡ and_then (read_snapshot S id branch v n) (λ t. replay S id branch rounds (suc v) t n)
    unfolding replay
    replay-whole rounds v snap n at = ground (arith, at)

    replay-diff :
        (rounds v : ℕ) (snap : SnapshotMap) (n : Sm S)
        → is_multiple v ≡ false
        → replay S id branch (suc rounds) v snap n
          ≡ and_then (load_merged S Kind.diff (diff_key id branch v) n) (after_diff rounds v snap n)
    unfolding replay after_diff
    replay-diff rounds v snap n at = ground (arith, at)

    replay-same :
        (rounds v : ℕ) (snap : SnapshotMap)
        → from ≤ v
        → replay S id branch rounds v snap m' ≡ replay S id branch rounds v snap m
    replay-same zero v snap h = unfold replay in refl
    replay-same (suc rounds) v snap h = elim (Bool-cases (is_multiple v)) [
      | inl at ↦
          replay-whole rounds v snap m' at
          ∙ and_then_cong (read_snapshot-same v h) (λ t. replay-same rounds (suc v) t (omega arith))
          ∙ sym (replay-whole rounds v snap m at)
      | inr at ↦
          replay-diff rounds v snap m' at
          ∙ and_then_cong (same.step v h)
              (next_same (λ t. replay-same rounds (suc v) t (omega arith)))
          ∙ sym (replay-diff rounds v snap m at)
    ]
      where
        next_same :
            ((t : SnapshotMap)
              → replay S id branch rounds (suc v) t m' ≡ replay S id branch rounds (suc v) t m)
            → (d : Option (List DiffEntry))
            → after_diff rounds v snap m' d ≡ after_diff rounds v snap m d
        next_same ih none = unfold after_diff in read_snapshot-same v h
        next_same ih (some d) = unfold after_diff in ih (apply_diff d snap)

    replay_from-same :
        (v : ℕ) (base : Option SnapshotMap)
        → from ≤ chain_start v
        → 0 < v
        → replay_from S id branch (chain_start v) v m' base
          ≡ replay_from S id branch (chain_start v) v m base
    unfolding replay_from
    replay_from-same v none h pos =
        read_snapshot-same v (omega (arith, (chain_start_bounds S id branch m v pos).1))
    replay_from-same v (some snap) h pos =
        replay-same (v - chain_start v) (suc (chain_start v)) snap (omega arith)

    -- Where the documents from the last whole snapshot of a version on are the same, the version
    -- reads the same.
    pub snapshot_of-same :
        (v : ℕ) → from ≤ chain_start v → snapshot_of S id branch v m' ≡ snapshot_of S id branch v m
    unfolding snapshot_of
    snapshot_of-same v h = elim (Bool-cases (v == 0)) [
      | inl none_asked ↦ rw none_asked refl
      | inr asked ↦ rw asked (
          and_then_cong (same.whole (chain_start v) h)
            (λ base. replay_from-same v base h (ground (arith, asked))))
    ]

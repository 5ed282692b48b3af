-- ===== src/Version/History.antt =====
-- The content of a version, as its definition from the first version on, and `snapshot_of`, which
-- starts from the last whole snapshot, against it.
use defing.Prelude.{
  ℕ, zero, suc, ◌+◌, ◌-◌, ◌≤◌, ◌<◌, Bool, true, false, ◌||◌, List, Option, none, some, ◌≡◌, ap, ◌∙◌,
  arith, Bytes, ◌==◌, if◌then◌else◌, is_some, Bool-cases, Option-cases, inl, inr,
}
use defing.Error.{Result, ok, err}
use defing.Keys.{snapshot_key, diff_key}
use defing.Model.{SnapshotMap, DiffEntry}
use defing.Diff.{apply_diff}
use defing.Serde.{Serde, Kind, Sm, load_merged}
use defing.Version.{is_multiple, chain_start, read_snapshot, replay, replay_from, snapshot_of}

-- a document that is there and parses
abbrev pub found {ℓ} : {A : Type ℓ} → Result (Option A) → Option A
found (ok o) = o
found (err e) = none

abbrev pub is_checkpoint : ℕ → Bool
is_checkpoint v = (v == 1) || is_multiple v

abbrev applied : Option (List DiffEntry) → Option SnapshotMap → Option SnapshotMap
applied (some d) (some s) = some (apply_diff d s)
applied _ _ = none

module _ (S : Serde) (id branch : Bytes) (m : Sm S) where
  abbrev pub stored_snapshot : ℕ → Option SnapshotMap
  stored_snapshot v = found (load_merged S Kind.snapshot (snapshot_key id branch v) m)

  abbrev pub stored_diff : ℕ → Option (List DiffEntry)
  stored_diff v = found (load_merged S Kind.diff (diff_key id branch v) m)

  -- The content of a version: a checkpoint is what is stored whole, any other version is the one
  -- before with its diff applied.
  unfoldable pub history : ℕ → Option SnapshotMap
  history zero = none
  history (suc v) =
      if is_checkpoint (suc v)
      then stored_snapshot (suc v)
      else applied (stored_diff (suc v)) (history v)

  -- Every version up to `n` has a content.
  abbrev pub IsReadable : ℕ → Type 0
  IsReadable n = (v : ℕ) → 0 < v → v ≤ n → is_some (history v) ≡ true

  read_snapshot-stored :
      (v : ℕ) (s : SnapshotMap) → stored_snapshot v ≡ some s → read_snapshot S id branch v m ≡ ok s
  unfolding read_snapshot
  read_snapshot-stored v s h = ground arith

  -- one round of the loop, at a checkpoint and at a diff
  replay-whole :
      (rounds v : ℕ) (snap t : SnapshotMap)
      → is_multiple v ≡ true
      → stored_snapshot v ≡ some t
      → replay S id branch (suc rounds) v snap m ≡ replay S id branch rounds (suc v) t m
  unfolding replay
  replay-whole rounds v snap t at h = ground (arith, at, read_snapshot-stored v t h)

  replay-diff :
      (rounds v : ℕ) (snap : SnapshotMap) (d : List DiffEntry)
      → is_multiple v ≡ false
      → load_merged S Kind.diff (diff_key id branch v) m ≡ ok (some d)
      → replay S id branch (suc rounds) v snap m
        ≡ replay S id branch rounds (suc v) (apply_diff d snap) m
  unfolding replay
  replay-diff rounds v snap d at h = ground (arith, at, h)

  pub found-ok {ℓ} :
      {A : Type ℓ} (r : Result (Option A)) (a : A) → found r ≡ some a → r ≡ ok (some a)
  found-ok (ok o) a h = ap ok h
  found-ok (err e) a h = cc

  pub replay-round :
      (rounds w : ℕ) (snap t : SnapshotMap)
      → 0 < w
      → history w ≡ some snap
      → history (suc w) ≡ some t
      → replay S id branch (suc rounds) (suc w) snap m ≡ replay S id branch rounds (suc (suc w)) t m
  unfolding history
  replay-round rounds w snap t pos h e = elim (Bool-cases (is_multiple (suc w))) [
    | inl whole ↦ replay-whole rounds (suc w) snap t whole (ground (arith, whole))
    | inr other ↦ elim (Option-cases (stored_diff (suc w))) [
      | inl missing ↦ absurd (ground (arith, other, missing))
      | inr (d, there) ↦
          replay-diff rounds (suc w) snap d other
            (found-ok (load_merged S Kind.diff (diff_key id branch (suc w)) m) d there)
          ∙ ap (λ (z : SnapshotMap). replay S id branch rounds (suc (suc w)) z m)
              (ground (arith, other, there))
    ]
  ]

  replay-history :
      (rounds w n : ℕ) (snap s : SnapshotMap)
      → n ≡ w + rounds
      → 0 < w
      → history w ≡ some snap
      → IsReadable n
      → history n ≡ some s
      → replay S id branch rounds (suc w) snap m ≡ ok s
  replay-history zero w n snap s eq pos h all e =
      let same : n ≡ w = omega arith in unfold replay in cc (same, h, e)
  replay-history (suc rounds) w n snap s eq pos h all e = elim (Option-cases (history (suc w))) [
    | inl missing ↦ absurd (ground (arith, missing, all (suc w) (omega arith) (omega arith)))
    | inr (t, there) ↦
        replay-round rounds w snap t pos h there
        ∙ replay-history rounds (suc w) n t s (omega arith) (omega arith) there all e
  ]

  pub chain_start_bounds : (v : ℕ) → 0 < v → (0 < chain_start v) × (chain_start v ≤ v)
  unfolding chain_start
  chain_start_bounds v pos = ground arith

  pub chain_start-is_checkpoint : (v : ℕ) → 0 < v → is_checkpoint (chain_start v) ≡ true
  unfolding chain_start
  chain_start-is_checkpoint v pos = ground arith

  pub history-checkpoint :
      (v : ℕ) (s : SnapshotMap)
      → 0 < v
      → is_checkpoint v ≡ true
      → history v ≡ some s
      → stored_snapshot v ≡ some s
  unfolding history
  history-checkpoint zero s pos at h = absurd (omega arith)
  history-checkpoint (suc v) s pos at h = rw at at h

  -- Where every version up to n has a content, `snapshot_of` returns that of a version n from 1 on:
  -- the replay from the last whole snapshot gives what the recursive definition of the history
  -- gives.
  pub snapshot_of-history :
      (n : ℕ) (s : SnapshotMap)
      → 0 < n
      → IsReadable n
      → history n ≡ some s
      → snapshot_of S id branch n m ≡ ok s
  unfolding snapshot_of
  snapshot_of-history n s pos all h =
      let start = chain_start n in
      let (low, high) = chain_start_bounds n pos in
      elim (Option-cases (history start)) [
        | inl missing ↦ absurd (ground (arith, missing, all start low high))
        | inr (base, there) ↦
            let last : replay_from S id branch start n m (some base) ≡ ok s =
              unfold replay_from in
              replay-history (n - start) start n base s (omega arith) low there all h in
            ground (
              arith,
              last,
              found-ok (load_merged S Kind.snapshot (snapshot_key id branch start) m) base
                  (history-checkpoint start base low (chain_start-is_checkpoint n pos) there),
            )
      ]

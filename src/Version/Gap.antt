-- ===== src/Version/Gap.antt =====
-- A number that was left out, and the versions behind it.
use defing.Prelude.{
  ℕ, zero, suc, ◌+◌, ◌-◌, ◌≤◌, ◌<◌, false, List, Option, none, some, ◌≡◌, refl, sym, arith, Bytes,
  ◌==◌, ==_iff, Bool-cases, Option-cases, inl, inr,
}
use mathlib.Core.Path.{subst}
use defing.Error.{ErrorKind, Result, ok, err, and_then, not_found}
use defing.Keys.{snapshot_key, diff_key}
use defing.Model.{SnapshotMap, DiffEntry}
use defing.Serde.{Serde, Kind, Sm, load_merged}
use defing.Version.{
  or_not_found, is_multiple, chain_start, read_snapshot, replay, replay_from, snapshot_of,
}
use defing.Version.History.{
  found, stored_snapshot, stored_diff, history, IsReadable, replay-round, found-ok,
  chain_start_bounds, chain_start-is_checkpoint, history-checkpoint,
}

-- a failure of some kind
abbrev pub Fails {ℓ} : {A : Type ℓ} → Result A → Type ℓ
Fails r = (e : ErrorKind) × (r ≡ err e)

module _ (S : Serde) (id branch : Bytes) (m : Sm S) where
  -- The versions up to `n` can be read, and nothing is stored of the next one, which is no
  -- multiple of the checkpoint interval.
  pub record IsGap (n : ℕ) : Type 0 where
    pub readable : IsReadable S id branch m n
    pub not_whole : is_multiple (suc n) ≡ false
    pub no_diff : stored_diff S id branch m (suc n) ≡ none
    pub no_snapshot : stored_snapshot S id branch m (suc n) ≡ none

  missing-Fails :
      (r : Result (Option SnapshotMap)) → found r ≡ none → Fails (and_then r or_not_found)
  missing-Fails (ok none) h = (not_found, refl)
  missing-Fails (ok (some s)) h = absurd (ground (arith, h))
  missing-Fails (err e) h = (e, refl)

  round-Fails :
      (rounds v : ℕ) (snap : SnapshotMap)
      → is_multiple v ≡ false
      → stored_diff S id branch m v ≡ none
      → stored_snapshot S id branch m v ≡ none
      → Fails (replay S id branch (suc rounds) v snap m)
  unfolding replay read_snapshot
  round-Fails rounds v snap other no_diff no_snapshot =
      go (load_merged S Kind.diff (diff_key id branch v) m) refl no_diff
    where
      go :
          (r : Result (Option (List DiffEntry)))
          → load_merged S Kind.diff (diff_key id branch v) m ≡ r
          → found r ≡ none
          → Fails (replay S id branch (suc rounds) v snap m)
      go (err e) h none_found = (e, ground (arith, other, h))
      go (ok (some d)) h none_found = absurd (ground (arith, none_found))
      go (ok none) h none_found =
          let (e, fails) =
            missing-Fails (load_merged S Kind.snapshot (snapshot_key id branch v) m) no_snapshot in
          (e, ground (arith, other, h, fails))

  replay-Fails :
      (rounds w n : ℕ) (snap : SnapshotMap)
      → 0 < w
      → w ≤ n
      → n < w + rounds
      → history S id branch m w ≡ some snap
      → IsGap n
      → Fails (replay S id branch rounds (suc w) snap m)
  replay-Fails zero w n snap pos le lt h gap = absurd (omega arith)
  replay-Fails (suc rounds) w n snap pos le lt h gap = elim (Bool-cases (w == n)) [
    | inl last ↦
        let same : w ≡ n = (==_iff w n).0 last in
        subst (λ z. Fails (replay S id branch (suc rounds) (suc z) snap m)) (sym same)
          (round-Fails rounds (suc n) snap gap.not_whole gap.no_diff gap.no_snapshot)
    | inr before ↦ elim (Option-cases (history S id branch m (suc w))) [
      | inl missing ↦
          absurd
            (ground (arith, missing, before, gap.readable (suc w) (omega arith) (ground arith)))
      | inr (t, there) ↦
          subst Fails (sym (replay-round S id branch m rounds w snap t pos h there))
            (replay-Fails rounds (suc w) n t (omega arith) (ground arith) (omega arith) there gap)
    ]
  ]

  -- Where the versions up to n can be read and nothing is stored of version n + 1, which is no
  -- multiple of a hundred, the read of every later version whose replay starts at or below n fails.
  pub snapshot_of-Fails :
      (n v : ℕ) → IsGap n → n < v → chain_start v ≤ n → Fails (snapshot_of S id branch v m)
  unfolding snapshot_of
  snapshot_of-Fails n v gap behind block =
      let start = chain_start v in
      let (low, high) = chain_start_bounds S id branch m v (omega arith) in
      elim (Option-cases (history S id branch m start)) [
        | inl missing ↦ absurd (ground (arith, missing, gap.readable start low block))
        | inr (base, there) ↦
            let (e, fails) =
              replay-Fails (v - start) start n base low block (omega arith) there gap in
            let last : replay_from S id branch start v m (some base) ≡ err e =
              unfold replay_from in fails in
            (
              e,
              ground (
                arith,
                last,
                found-ok S id branch m
                    (load_merged S Kind.snapshot (snapshot_key id branch start) m) base
                    (history-checkpoint S id branch m start base low
                      (chain_start-is_checkpoint S id branch m v (omega arith)) there),
              ),
            )
      ]

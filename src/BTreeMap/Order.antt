-- ===== src/BTreeMap/Order.antt =====
-- The order of the keys: what `insert`, `remove` and `retain` keep, and what it is good for.
use defing.Prelude.{
  Bool, true, [], ◌∷◌, none, ◌≡◌, refl, arith, Bytes, bytes_eq, bytes_eq_iff, bytes_lt,
  bytes_lt_irrefl, bytes_lt_trans, bytes_lt_total, Bool-cases, inl, inr,
}
use defing.BTreeMap.{BTreeMap, get, insert, remove, retain}

module _ {ℓ} {V : Type ℓ} where
  -- every key of `m` is above `k`
  abbrev pub Above : Bytes → BTreeMap V → Type 0
  Above k [] = Unit
  Above k ((j, w) ∷ m) = (bytes_lt k j ≡ true) × Above k m

  abbrev pub IsSorted : BTreeMap V → Type 0
  IsSorted [] = Unit
  IsSorted ((j, w) ∷ m) = Above j m × IsSorted m

  pub Above-trans : (k j : Bytes) (m : BTreeMap V) → bytes_lt k j ≡ true → Above j m → Above k m
  Above-trans k j [] h a = tt
  Above-trans k j ((i, w) ∷ m) h (p, a) = (bytes_lt_trans k j i h p, Above-trans k j m h a)

  -- A key that is below all others is not there.
  pub get-Above : (k : Bytes) (m : BTreeMap V) → Above k m → get k m ≡ none
  unfolding get
  get-Above k [] a = refl
  get-Above k ((j, w) ∷ m) (p, a) =
      ground (arith, bytes_eq_iff j k, bytes_lt_irrefl k, get-Above k m a)

  pub insert-Above :
      (j k : Bytes) (v : V) (m : BTreeMap V)
      → bytes_lt j k ≡ true
      → Above j m
      → Above j (insert k v m)
  unfolding insert
  insert-Above j k v [] h a = (h, tt)
  insert-Above j k v ((i, w) ∷ m) h (p, a) = elim (Bool-cases (bytes_eq i k)) [
    | inl same ↦ rw same (h, a)
    | inr other ↦ elim (Bool-cases (bytes_lt k i)) [
      | inl below ↦ rw (other, below) (h, (p, a))
      | inr not_below ↦ rw (other, not_below) (p, insert-Above j k v m h a)
    ]
  ]

  pub insert-IsSorted : (k : Bytes) (v : V) (m : BTreeMap V) → IsSorted m → IsSorted (insert k v m)
  unfolding insert
  insert-IsSorted k v [] s = (tt, tt)
  insert-IsSorted k v ((i, w) ∷ m) (a, s) = elim (Bool-cases (bytes_eq i k)) [
    | inl same ↦ rw same (rw ((bytes_eq_iff i k).0 same) at a, s)
    | inr other ↦ elim (Bool-cases (bytes_lt k i)) [
      | inl below ↦ rw (other, below) ((below, Above-trans k i m below a), (a, s))
      | inr not_below ↦
          rw (other, not_below)
            (
              insert-Above i k v m
                  (ground (arith, bytes_lt_total k i, bytes_eq_iff k i, bytes_eq_iff i k)) a,
              insert-IsSorted k v m s,
            )
    ]
  ]

  pub remove-Above : (j k : Bytes) (m : BTreeMap V) → Above j m → Above j (remove k m)
  unfolding remove
  remove-Above j k [] a = tt
  remove-Above j k ((i, w) ∷ m) (p, a) = elim (Bool-cases (bytes_eq i k)) [
    | inl same ↦ rw same (remove-Above j k m a)
    | inr other ↦ rw other (p, remove-Above j k m a)
  ]

  pub remove-IsSorted : (k : Bytes) (m : BTreeMap V) → IsSorted m → IsSorted (remove k m)
  unfolding remove
  remove-IsSorted k [] s = tt
  remove-IsSorted k ((i, w) ∷ m) (a, s) = elim (Bool-cases (bytes_eq i k)) [
    | inl same ↦ rw same (remove-IsSorted k m s)
    | inr other ↦ rw other (remove-Above i k m a, remove-IsSorted k m s)
  ]

  retain-Above :
      (p : Bytes → V → Bool) (j : Bytes) (m : BTreeMap V) → Above j m → Above j (retain p m)
  unfolding retain
  retain-Above p j [] a = tt
  retain-Above p j ((i, w) ∷ m) (h, a) = elim (Bool-cases (p i w)) [
    | inl kept ↦ rw kept (h, retain-Above p j m a)
    | inr gone ↦ rw gone (retain-Above p j m a)
  ]

  pub retain-IsSorted : (p : Bytes → V → Bool) (m : BTreeMap V) → IsSorted m → IsSorted (retain p m)
  unfolding retain
  retain-IsSorted p [] s = tt
  retain-IsSorted p ((i, w) ∷ m) (a, s) = elim (Bool-cases (p i w)) [
    | inl kept ↦ rw kept (retain-Above p i m a, retain-IsSorted p m s)
    | inr gone ↦ rw gone (retain-IsSorted p m s)
  ]

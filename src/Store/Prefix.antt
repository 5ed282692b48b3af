-- ===== src/Store/Prefix.antt =====
-- A prefix scan returns exactly the entries whose key has the prefix.
use defing.Prelude.{
  true, false, [], ◌∷◌, none, ◌≡◌, refl, arith, Bytes, starts_with, bytes_lt, bytes_eq_iff,
  bytes_lt_trans, if◌then◌else◌, Bool-cases, inl, inr,
}
use defing.BTreeMap.{BTreeMap, get}
use defing.BTreeMap.Order.{IsSorted, Above}
use defing.Store.{range_from, take_prefix, get_prefix}

-- a text with the prefix `p` is not below `p`
pub starts_with-bytes_lt : (k p : Bytes) → starts_with k p ≡ true → bytes_lt k p ≡ false
unfolding starts_with bytes_lt
starts_with-bytes_lt [] [] h = refl
starts_with-bytes_lt (c ∷ k) [] h = refl
starts_with-bytes_lt [] (d ∷ p) h = ground arith
starts_with-bytes_lt (c ∷ k) (d ∷ p) h = ground (arith, starts_with-bytes_lt k p)

-- above a text that is past the prefix's range there is none in the range
pub past_prefix :
    (k j p : Bytes)
    → bytes_lt k p ≡ false
    → starts_with k p ≡ false
    → bytes_lt k j ≡ true
    → starts_with j p ≡ false
unfolding starts_with bytes_lt
past_prefix [] j [] a b h = ground arith
past_prefix (c ∷ k) j [] a b h = ground arith
past_prefix [] j (d ∷ p) a b h = ground arith
past_prefix (c ∷ k) [] (d ∷ p) a b h = refl
past_prefix (c ∷ k) (e ∷ j) (d ∷ p) a b h = ground (arith, past_prefix k j p)

module _ {R : Type 0} where
  no_prefix-Above :
      (k j p : Bytes) (m : BTreeMap R)
      → bytes_lt k p ≡ false
      → starts_with k p ≡ false
      → Above k m
      → starts_with j p ≡ true
      → get j m ≡ none
  unfolding get
  no_prefix-Above k j p [] a b h s = refl
  no_prefix-Above k j p ((i, v) ∷ m) a b (q, h) s =
      ground (arith, past_prefix k i p a b q, bytes_eq_iff i j, no_prefix-Above k j p m a b h s)

  get-take_prefix :
      (p j : Bytes) (m : BTreeMap R) → starts_with j p ≡ false → get j (take_prefix p m) ≡ none
  unfolding get take_prefix
  get-take_prefix p j [] h = refl
  get-take_prefix p j ((i, v) ∷ m) h = ground (arith, bytes_eq_iff i j, get-take_prefix p j m h)

  -- no key of `m` is below `p`
  abbrev pub NotBelow : Bytes → BTreeMap R → Type 0
  NotBelow p [] = Unit
  NotBelow p ((i, v) ∷ m) = (bytes_lt i p ≡ false) × NotBelow p m

  pub Above-NotBelow :
      (p k : Bytes) (m : BTreeMap R) → bytes_lt k p ≡ false → Above k m → NotBelow p m
  Above-NotBelow p k [] a h = tt
  Above-NotBelow p k ((i, v) ∷ m) a (q, h) = (not_below, Above-NotBelow p k m a h)
    where
      not_below : bytes_lt i p ≡ false
      not_below = elim (Bool-cases (bytes_lt i p)) [
        | inl below ↦ ground (arith, bytes_lt_trans k i p q below)
        | inr other ↦ other
      ]

  all_taken :
      (p j : Bytes) (m : BTreeMap R)
      → IsSorted m
      → NotBelow p m
      → starts_with j p ≡ true
      → get j (take_prefix p m) ≡ get j m
  unfolding get take_prefix
  all_taken p j [] s b t = refl
  all_taken p j ((i, v) ∷ m) (a, s) (b, bs) t = elim (Bool-cases (starts_with i p)) [
    | inl has ↦ rw has (ground (arith, all_taken p j m s bs t))
    | inr lacks ↦ rw lacks (ground (arith, bytes_eq_iff i j, no_prefix-Above i j p m b lacks a t))
  ]

  get-range_from :
      (p j : Bytes) (m : BTreeMap R)
      → IsSorted m
      → starts_with j p ≡ true
      → get j (take_prefix p (range_from p m)) ≡ get j m
  unfolding get range_from
  get-range_from p j [] s t = unfold take_prefix in refl
  get-range_from p j ((i, v) ∷ m) (a, s) t = elim (Bool-cases (bytes_lt i p)) [
    | inl below ↦
        rw below
          (ground (arith, bytes_eq_iff i j, starts_with-bytes_lt j p t, get-range_from p j m s t))
    | inr from ↦ rw from (all_taken p j ((i, v) ∷ m) (a, s) (from, Above-NotBelow p i m from a) t)
  ]

  -- A prefix scan of a sorted store finds a key with the prefix exactly where the store has it, and
  -- no other key.
  pub get-get_prefix :
      (s : BTreeMap R) (p j : Bytes)
      → IsSorted s
      → get j (get_prefix s p) ≡ (if starts_with j p then get j s else none)
  unfolding get_prefix
  get-get_prefix s p j h = elim (Bool-cases (starts_with j p)) [
    | inl has ↦ rw has (get-range_from p j s h has)
    | inr lacks ↦ rw lacks (get-take_prefix p j (range_from p s) lacks)
  ]

  range_from-Above : (p i : Bytes) (m : BTreeMap R) → Above i m → Above i (range_from p m)
  unfolding range_from
  range_from-Above p i [] a = tt
  range_from-Above p i ((j, v) ∷ m) (q, a) = elim (Bool-cases (bytes_lt j p)) [
    | inl below ↦ rw below (range_from-Above p i m a)
    | inr from ↦ rw from (q, a)
  ]

  pub range_from-IsSorted : (p : Bytes) (m : BTreeMap R) → IsSorted m → IsSorted (range_from p m)
  unfolding range_from
  range_from-IsSorted p [] s = tt
  range_from-IsSorted p ((j, v) ∷ m) (a, s) = elim (Bool-cases (bytes_lt j p)) [
    | inl below ↦ rw below (range_from-IsSorted p m s)
    | inr from ↦ rw from (a, s)
  ]

  pub take_prefix-Above : (p i : Bytes) (m : BTreeMap R) → Above i m → Above i (take_prefix p m)
  unfolding take_prefix
  take_prefix-Above p i [] a = tt
  take_prefix-Above p i ((j, v) ∷ m) (q, a) = elim (Bool-cases (starts_with j p)) [
    | inl has ↦ rw has (q, take_prefix-Above p i m a)
    | inr lacks ↦ rw lacks tt
  ]

  take_prefix-IsSorted : (p : Bytes) (m : BTreeMap R) → IsSorted m → IsSorted (take_prefix p m)
  unfolding take_prefix
  take_prefix-IsSorted p [] s = tt
  take_prefix-IsSorted p ((j, v) ∷ m) (a, s) = elim (Bool-cases (starts_with j p)) [
    | inl has ↦ rw has (take_prefix-Above p j m a, take_prefix-IsSorted p m s)
    | inr lacks ↦ rw lacks tt
  ]

  -- A scan is in the order of the keys.
  pub get_prefix-IsSorted : (s : BTreeMap R) (p : Bytes) → IsSorted s → IsSorted (get_prefix s p)
  unfolding get_prefix
  get_prefix-IsSorted s p h = take_prefix-IsSorted p (range_from p s) (range_from-IsSorted p s h)

-- ===== src/Keys/Distinct.antt =====
-- The keys of one branch, told apart: two of them are one text exactly if they are of one kind and
-- of one number.
use defing.Prelude.{
  ℕ, Bool, true, false, ◌&&◌, [], ◌∷◌, ◌++◌, ◌≡◌, ◌∙◌, ap, refl, arith, Bytes, codes, append_assoc,
  bytes_eq, bytes_eq_iff, bytes_eq_refl, ◌==◌, All, Lacks,
}
use defing.Prelude.Decimal.{decimal, decimal_injective, decimal-IsDigit, IsDigit}
use defing.Keys.{
  branch_prefix, branch_state_key, version_key, snapshot_key, diff_key, gray_snap_key, k_state,
  k_version, k_gray_snap, k_project, k_struct, k_branch, struct_key,
}

pub bytes_eq-append_left : (p a b : Bytes) → bytes_eq (p ++ a) (p ++ b) ≡ bytes_eq a b
unfolding bytes_eq
bytes_eq-append_left [] a b = refl
bytes_eq-append_left (c ∷ p) a b = ground (arith, bytes_eq-append_left p a b)

-- Two texts cut at their first slash.
pub bytes_eq-cut :
    (a b r q : Bytes)
    → Lacks b'/' a
    → Lacks b'/' b
    → bytes_eq (a ++ b'/' ∷ r) (b ++ b'/' ∷ q) ≡ (bytes_eq a b && bytes_eq r q)
unfolding bytes_eq
bytes_eq-cut [] [] r q ha hb = ground arith
bytes_eq-cut [] (y ∷ b) r q ha (hy, hb) = ground arith
bytes_eq-cut (x ∷ a) [] r q (hx, ha) hb = ground arith
bytes_eq-cut (x ∷ a) (y ∷ b) r q (hx, ha) (hy, hb) = ground (arith, bytes_eq-cut a b r q ha hb)

-- A text with no slash is none that has one.
pub bytes_eq-slash : (a b r : Bytes) → Lacks b'/' a → bytes_eq a (b ++ b'/' ∷ r) ≡ false
unfolding bytes_eq
bytes_eq-slash [] [] r ha = refl
bytes_eq-slash [] (y ∷ b) r ha = refl
bytes_eq-slash (x ∷ a) [] r (hx, ha) = ground arith
bytes_eq-slash (x ∷ a) (y ∷ b) r (hx, ha) = ground (arith, bytes_eq-slash a b r ha)

IsDigit-Lacks : (s : Bytes) → All IsDigit s → Lacks b'/' s
IsDigit-Lacks [] h = tt
IsDigit-Lacks (c ∷ s) ((lo, hi), h) = (omega arith, IsDigit-Lacks s h)

pub decimal-Lacks : (n : ℕ) → Lacks b'/' (decimal n)
decimal-Lacks n = IsDigit-Lacks (decimal n) (decimal-IsDigit n)

pub bytes_eq-decimal : (m n : ℕ) → bytes_eq (decimal m) (decimal n) ≡ (m == n)
bytes_eq-decimal m n =
    ground (
      arith,
      bytes_eq_iff (decimal m) (decimal n),
      decimal_injective m n,
      bytes_eq_refl (decimal m),
    )

-- What a key of a branch is for, behind the branch's prefix.
pub data BranchKey : Type 0 where
  state : BranchKey
  version snapshot diff gray_snap : ℕ → BranchKey

suffix : BranchKey → Bytes
suffix state = k_state
suffix (version n) = k_version ++ decimal n
suffix (snapshot n) = k_version ++ (decimal n ++ codes "/snap")
suffix (diff n) = k_version ++ (decimal n ++ codes "/diff")
suffix (gray_snap n) = k_gray_snap ++ decimal n

unfoldable pub branch_key : Bytes → Bytes → BranchKey → Bytes
unfolding suffix
branch_key id branch k = branch_prefix id branch ++ suffix k

abbrev pub same_key : BranchKey → BranchKey → Bool
same_key state state = true
same_key (version m) (version n) = m == n
same_key (snapshot m) (snapshot n) = m == n
same_key (diff m) (diff n) = m == n
same_key (gray_snap m) (gray_snap n) = m == n
same_key _ _ = false

bytes_eq_comm : (a b : Bytes) → bytes_eq a b ≡ bytes_eq b a
unfolding bytes_eq
bytes_eq_comm [] [] = refl
bytes_eq_comm [] (y ∷ b) = refl
bytes_eq_comm (x ∷ a) [] = refl
bytes_eq_comm (x ∷ a) (y ∷ b) = ground (arith, bytes_eq_comm a b)

module _ (m n : ℕ) where
  marked :
      (r q : Bytes)
      → bytes_eq (decimal m ++ b'/' ∷ r) (decimal n ++ b'/' ∷ q) ≡ ((m == n) && bytes_eq r q)
  marked r q =
      rw (bytes_eq-cut (decimal m) (decimal n) r q (decimal-Lacks m) (decimal-Lacks n))
        (rw bytes_eq-decimal)

  bare : (r : Bytes) → bytes_eq (decimal m) (decimal n ++ b'/' ∷ r) ≡ false
  bare r = bytes_eq-slash (decimal m) (decimal n) r (decimal-Lacks m)

  bare_right : (r : Bytes) → bytes_eq (decimal m ++ b'/' ∷ r) (decimal n) ≡ false
  bare_right r =
      rw (bytes_eq_comm (decimal m ++ b'/' ∷ r) (decimal n))
        (bytes_eq-slash (decimal n) (decimal m) r (decimal-Lacks n))

suffix-same_key : (s t : BranchKey) → bytes_eq (suffix s) (suffix t) ≡ same_key s t
unfolding suffix bytes_eq
suffix-same_key state state = refl
suffix-same_key (version m) (version n) = bytes_eq-decimal m n
suffix-same_key (version m) (snapshot n) = bare m n (codes "snap")
suffix-same_key (version m) (diff n) = bare m n (codes "diff")
suffix-same_key (snapshot m) (version n) = bare_right m n (codes "snap")
suffix-same_key (snapshot m) (snapshot n) = ground (arith, marked m n (codes "snap") (codes "snap"))
suffix-same_key (snapshot m) (diff n) = ground (arith, marked m n (codes "snap") (codes "diff"))
suffix-same_key (diff m) (version n) = bare_right m n (codes "diff")
suffix-same_key (diff m) (snapshot n) = ground (arith, marked m n (codes "diff") (codes "snap"))
suffix-same_key (diff m) (diff n) = ground (arith, marked m n (codes "diff") (codes "diff"))
suffix-same_key (gray_snap m) (gray_snap n) = bytes_eq-decimal m n
suffix-same_key _ _ = refl

-- Two keys of one branch (its state, or the record, snapshot, diff or gray snapshot of a number)
-- are equal exactly if they are of one kind and of one number.
pub branch_key-same_key :
    (id branch : Bytes) (s t : BranchKey)
    → bytes_eq (branch_key id branch s) (branch_key id branch t) ≡ same_key s t
unfolding branch_key
branch_key-same_key id branch s t = rw bytes_eq-append_left (suffix-same_key s t)

-- The keys of keys.rs, by their kind.
module _ (id branch : Bytes) where
  pub branch_state_key-branch_key : branch_state_key id branch ≡ branch_key id branch state
  unfolding branch_state_key branch_key
  branch_state_key-branch_key = refl

  pub version_key-branch_key : (n : ℕ) → version_key id branch n ≡ branch_key id branch (version n)
  unfolding version_key branch_key
  version_key-branch_key n = refl

  pub snapshot_key-branch_key :
      (n : ℕ) → snapshot_key id branch n ≡ branch_key id branch (snapshot n)
  unfolding snapshot_key branch_key
  snapshot_key-branch_key n = refl

  pub diff_key-branch_key : (n : ℕ) → diff_key id branch n ≡ branch_key id branch (diff n)
  unfolding diff_key branch_key
  diff_key-branch_key n = refl

  pub gray_snap_key-branch_key :
      (n : ℕ) → gray_snap_key id branch n ≡ branch_key id branch (gray_snap n)
  unfolding gray_snap_key branch_key
  gray_snap_key-branch_key n = refl

  -- The structure of a project is no key of one of its branches.
  pub struct_key-branch_key :
      (k : BranchKey) → bytes_eq (branch_key id branch k) (struct_key id) ≡ false
  unfolding branch_key branch_prefix struct_key
  struct_key-branch_key k =
      ap (λ z. bytes_eq z (struct_key id)) (spread k)
      ∙ bytes_eq-append_left k_project (id ++ (k_branch ++ (branch ++ suffix k))) (id ++ k_struct)
      ∙ bytes_eq-append_left id (k_branch ++ (branch ++ suffix k)) k_struct
      ∙ (unfold bytes_eq in refl)
    where
      spread :
          (k : BranchKey)
          → branch_key id branch k ≡ k_project ++ (id ++ (k_branch ++ (branch ++ suffix k)))
      spread k = simp append_assoc

pub ruleset branch_keys = (
  branch_state_key-branch_key, version_key-branch_key, snapshot_key-branch_key, diff_key-branch_key,
  gray_snap_key-branch_key,
)

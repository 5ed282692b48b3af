-- ===== src/Retention/Sorted.antt =====
-- `sort_by_key` with a reversed number, and the truncation behind it, as `get_audit` has them.
use defing.Prelude.{
  ◌⊎◌, refl, sym, ap, ℕ, zero, suc, ◌≤◌, List, [], ◌∷◌, ◌≡◌, arith, All, length, take, ltb,
  Bool-cases, inl, inr,
}
use mathlib.Core.List.{Memᴰ}
use mathlib.Core.List.Memᴰ
use mathlib.Core.Path.{subst}
use defing.Retention.{insert_by_reverse, sort_by_reverse}

module _ {A : Type 0} where
  insert_by_reverse-All :
      (P : A → Type 0) (key : A → ℕ) (a : A) (xs : List A)
      → P a
      → All P xs
      → All P (insert_by_reverse key a xs)
  unfolding insert_by_reverse
  insert_by_reverse-All P key a [] pa h = (pa, tt)
  insert_by_reverse-All P key a (b ∷ bs) pa (pb, h) = elim (Bool-cases (ltb (key a) (key b))) [
    | inl behind ↦ rw behind (pb, insert_by_reverse-All P key a bs pa h)
    | inr here ↦ rw here (pa, (pb, h))
  ]

  pub sort_by_reverse-All :
      (P : A → Type 0) (key : A → ℕ) (xs : List A) → All P xs → All P (sort_by_reverse key xs)
  unfolding sort_by_reverse
  sort_by_reverse-All P key [] h = tt
  sort_by_reverse-All P key (a ∷ as') (pa, h) =
      insert_by_reverse-All P key a (sort_by_reverse key as') pa (sort_by_reverse-All P key as' h)

  pub take-All : (P : A → Type 0) (n : ℕ) (xs : List A) → All P xs → All P (take n xs)
  take-All P zero xs h = tt
  take-All P (suc n) [] h = tt
  take-All P (suc n) (x ∷ xs) (px, h) = (px, take-All P n xs h)

  pub length-take-le : (n : ℕ) (xs : List A) → length (take n xs) ≤ n
  length-take-le zero xs = omega arith
  length-take-le (suc n) [] = omega arith
  length-take-le (suc n) (x ∷ xs) = omega (arith, length-take-le n xs)

  -- each number is at least every one behind it
  abbrev pub IsDescending : (A → ℕ) → List A → Type 0
  IsDescending key [] = Unit
  IsDescending key (a ∷ as') = All (λ b. key b ≤ key a) as' × IsDescending key as'

  All-le_trans :
      (key : A → ℕ) (a b : A) (xs : List A)
      → key b ≤ key a
      → All (λ c. key c ≤ key b) xs
      → All (λ c. key c ≤ key a) xs
  All-le_trans key a b [] le h = tt
  All-le_trans key a b (x ∷ xs) le (p, h) = (omega arith, All-le_trans key a b xs le h)

  insert_by_reverse-IsDescending :
      (key : A → ℕ) (a : A) (xs : List A)
      → IsDescending key xs
      → IsDescending key (insert_by_reverse key a xs)
  unfolding insert_by_reverse
  insert_by_reverse-IsDescending key a [] h = (tt, tt)
  insert_by_reverse-IsDescending key a (b ∷ bs) (p, h) = elim (Bool-cases (ltb (key a) (key b))) [
    | inl behind ↦ rw behind (
      insert_by_reverse-All (λ c. key c ≤ key b) key a bs (ground (arith, behind)) p,
      insert_by_reverse-IsDescending key a bs h,
    )
    | inr here ↦
        let le : key b ≤ key a = ground (arith, here) in
        rw here ((le, All-le_trans key a b bs le p), (p, h))
  ]

  pub sort_by_reverse-IsDescending :
      (key : A → ℕ) (xs : List A) → IsDescending key (sort_by_reverse key xs)
  unfolding sort_by_reverse
  sort_by_reverse-IsDescending key [] = tt
  sort_by_reverse-IsDescending key (a ∷ as') =
      insert_by_reverse-IsDescending key a (sort_by_reverse key as')
        (sort_by_reverse-IsDescending key as')

  pub take-IsDescending :
      (key : A → ℕ) (n : ℕ) (xs : List A) → IsDescending key xs → IsDescending key (take n xs)
  take-IsDescending key zero xs h = tt
  take-IsDescending key (suc n) [] h = tt
  take-IsDescending key (suc n) (x ∷ xs) (p, h) =
      (take-All (λ b. key b ≤ key x) n xs p, take-IsDescending key n xs h)

  insert_by_reverse-Memᴰ_new :
      (key : A → ℕ) (a : A) (xs : List A) → Memᴰ a (insert_by_reverse key a xs)
  unfolding insert_by_reverse
  insert_by_reverse-Memᴰ_new key a [] = Memᴰ.head refl
  insert_by_reverse-Memᴰ_new key a (b ∷ bs) = elim (Bool-cases (ltb (key a) (key b))) [
    | inl behind ↦ rw behind (Memᴰ.tail (insert_by_reverse-Memᴰ_new key a bs))
    | inr here ↦ rw here (Memᴰ.head refl)
  ]

  insert_by_reverse-Memᴰ :
      (key : A → ℕ) (a x : A) (xs : List A) → Memᴰ x xs → Memᴰ x (insert_by_reverse key a xs)
  unfolding insert_by_reverse
  insert_by_reverse-Memᴰ key a x [] in_none = elim in_none [ ]
  insert_by_reverse-Memᴰ key a x (b ∷ bs) h = elim (Bool-cases (ltb (key a) (key b))) [
    | inl behind ↦ rw behind (elim (Memᴰ.cases_cons h) [
      | inl e ↦ Memᴰ.head e
      | inr rest ↦ Memᴰ.tail (insert_by_reverse-Memᴰ key a x bs rest)
    ])
    | inr here ↦ rw here (Memᴰ.tail h)
  ]

  pub sort_by_reverse-Memᴰ :
      (key : A → ℕ) (x : A) (xs : List A) → Memᴰ x xs → Memᴰ x (sort_by_reverse key xs)
  unfolding sort_by_reverse
  sort_by_reverse-Memᴰ key x [] in_none = elim in_none [ ]
  sort_by_reverse-Memᴰ key x (a ∷ as') (Memᴰ.head e) =
      Memᴰ.cast e (insert_by_reverse-Memᴰ_new key a (sort_by_reverse key as'))
  sort_by_reverse-Memᴰ key x (a ∷ as') (Memᴰ.tail h) =
      insert_by_reverse-Memᴰ key a x (sort_by_reverse key as') (sort_by_reverse-Memᴰ key x as' h)

  -- what is in a list is taken, or as many are taken as were wanted, and none is smaller
  abbrev pub IsTaken : (A → ℕ) → ℕ → A → List A → Type 0
  IsTaken key n x ys = Memᴰ x ys ⊎ ((length ys ≡ n) × All (λ y. key x ≤ key y) ys)

  All-key :
      (key : A → ℕ) (x b : A) (xs : List A)
      → All (λ c. key c ≤ key b) xs
      → Memᴰ x xs
      → key x ≤ key b
  All-key key x b [] h in_none = elim in_none [ ]
  All-key key x b (a ∷ as') (p, h) (Memᴰ.head e) = subst (λ z. key z ≤ key b) (sym e) p
  All-key key x b (a ∷ as') (p, h) (Memᴰ.tail rest) = All-key key x b as' h rest

  pub take-IsTaken :
      (key : A → ℕ) (n : ℕ) (x : A) (xs : List A)
      → IsDescending key xs
      → Memᴰ x xs
      → IsTaken key n x (take n xs)
  take-IsTaken key n x [] h in_none = elim in_none [ ]
  take-IsTaken key zero x (a ∷ as') h found = inr (refl, tt)
  take-IsTaken key (suc n) x (a ∷ as') h (Memᴰ.head e) = inl (Memᴰ.head e)
  take-IsTaken key (suc n) x (a ∷ as') (p, h) (Memᴰ.tail rest) =
      elim (take-IsTaken key n x as' h rest) [
        | inl found ↦ inl (Memᴰ.tail found)
        | inr (full, below) ↦ inr (ap suc full, (All-key key x a as' p rest, below))
      ]

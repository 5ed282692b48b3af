-- ===== src/BTreeMap/Nested.antt =====
-- Maps of maps, `group → key → value`, as the drafts, bindings and snapshots are.
use mathlib.Core.Path.{subst}
use defing.BTreeMap.Order.{
  IsSorted, Above, Above-trans, insert-Above, remove-Above, insert-IsSorted, remove-IsSorted,
}
use defing.Prelude.{
  ◌∷◌, [], Option, none, some, ◌≡◌, refl, arith, Bytes, bytes_eq, bytes_eq_iff, bytes_lt,
  bytes_lt_total, if◌then◌else◌, is_empty, ◌&&◌, Option-cases, Bool-cases, inl, inr, true, false,
}
use defing.BTreeMap
use defing.BTreeMap.{BTreeMap, get-insert, get-remove, get-nil}

module _ {ℓ} {V : Type ℓ} where
  -- `o.unwrap_or_default()` of an inner map
  abbrev pub or_default : Option (BTreeMap V) → BTreeMap V
  or_default none = []
  or_default (some m) = m

  -- `m.get(g).and_then(|m| m.get(k))`
  unfoldable pub get2 : Bytes → Bytes → BTreeMap (BTreeMap V) → Option V
  unfolding BTreeMap.get
  get2 g k m = BTreeMap.get k (or_default (BTreeMap.get g m))

  -- `m.entry(g).or_default().insert(k, v)`
  unfoldable pub insert2 : Bytes → Bytes → V → BTreeMap (BTreeMap V) → BTreeMap (BTreeMap V)
  insert2 g k v m = BTreeMap.insert g (BTreeMap.insert k v (or_default (BTreeMap.get g m))) m

  -- `if let Some(items) = m.get_mut(g) { items.remove(k); }`: the group stays, even if empty
  remove_item_of :
      Bytes → Bytes → BTreeMap (BTreeMap V) → Option (BTreeMap V) → BTreeMap (BTreeMap V)
  remove_item_of g k m none = m
  remove_item_of g k m (some items) = BTreeMap.insert g (BTreeMap.remove k items) m

  unfoldable pub remove_item : Bytes → Bytes → BTreeMap (BTreeMap V) → BTreeMap (BTreeMap V)
  unfolding remove_item_of
  remove_item g k m = remove_item_of g k m (BTreeMap.get g m)

  -- the same, and an emptied group is removed too
  remove2_of : Bytes → Bytes → BTreeMap (BTreeMap V) → Option (BTreeMap V) → BTreeMap (BTreeMap V)
  remove2_of g k m none = m
  remove2_of g k m (some items) =
      if is_empty (BTreeMap.remove k items)
      then BTreeMap.remove g m
      else BTreeMap.insert g (BTreeMap.remove k items) m

  unfoldable pub remove2 : Bytes → Bytes → BTreeMap (BTreeMap V) → BTreeMap (BTreeMap V)
  unfolding remove2_of
  remove2 g k m = remove2_of g k m (BTreeMap.get g m)

  pub get2-insert2 :
      (g k h j : Bytes) (v : V) (m : BTreeMap (BTreeMap V))
      → get2 h j (insert2 g k v m) ≡ (if bytes_eq g h && bytes_eq k j then some v else get2 h j m)
  unfolding get2 insert2
  get2-insert2 g k h j v m = ground (
    arith,
    bytes_eq_iff g h,
    get-insert g h (BTreeMap.insert k v (or_default (BTreeMap.get g m))) m,
    get-insert k j v (or_default (BTreeMap.get g m)),
  )

  pub get2-remove2 :
      (g k h j : Bytes) (m : BTreeMap (BTreeMap V))
      → get2 h j (remove2 g k m) ≡ (if bytes_eq g h && bytes_eq k j then none else get2 h j m)
  unfolding get2 remove2
  get2-remove2 g k h j m = elim (Option-cases (BTreeMap.get g m)) [
    | inl missing ↦ ground (arith, missing, bytes_eq_iff g h, get-nil {V = V} j)
    | inr (items, found) ↦ ground (
      arith,
      found,
      bytes_eq_iff g h,
      get-remove k j items,
      get-nil {V = V} j,
      get-remove g h m,
      get-insert g h (BTreeMap.remove k items) m,
    )
  ]

  pub get2-remove_item :
      (g k h j : Bytes) (m : BTreeMap (BTreeMap V))
      → get2 h j (remove_item g k m) ≡ (if bytes_eq g h && bytes_eq k j then none else get2 h j m)
  unfolding get2 remove_item
  get2-remove_item g k h j m = elim (Option-cases (BTreeMap.get g m)) [
    | inl missing ↦ ground (arith, missing, bytes_eq_iff g h, get-nil {V = V} j)
    | inr (items, found) ↦ ground (
      arith,
      found,
      bytes_eq_iff g h,
      get-remove k j items,
      get-insert g h (BTreeMap.remove k items) m,
    )
  ]

module _ {ℓ} {V : Type ℓ} where
  -- A map of maps as the program builds them: sorted, and each inner map sorted.
  abbrev pub IsNested : BTreeMap (BTreeMap V) → Type 0
  IsNested [] = Unit
  IsNested ((g, items) ∷ m) = Above g m × (IsSorted items × IsNested m)

  IsNested-IsSorted : (m : BTreeMap (BTreeMap V)) → IsNested m → IsSorted m
  IsNested-IsSorted [] s = tt
  IsNested-IsSorted ((g, items) ∷ m) (a, (si, s)) = (a, IsNested-IsSorted m s)

  insert-IsNested :
      (g : Bytes) (items : BTreeMap V) (m : BTreeMap (BTreeMap V))
      → IsSorted items
      → IsNested m
      → IsNested (BTreeMap.insert g items m)
  unfolding BTreeMap.insert
  insert-IsNested g items [] si s = (tt, (si, tt))
  insert-IsNested g items ((h, others) ∷ m) si (a, (so, s)) = elim (Bool-cases (bytes_eq h g)) [
    | inl same ↦ rw same (rw ((bytes_eq_iff h g).0 same) at a, (si, s))
    | inr other ↦ elim (Bool-cases (bytes_lt g h)) [
      | inl below ↦ rw (other, below) ((below, Above-trans g h m below a), (si, (a, (so, s))))
      | inr not_below ↦
          rw (other, not_below)
            (
              insert-Above h g items m (above_of other not_below) a,
              (so, insert-IsNested g items m si s),
            )
    ]
  ]
    where
      above_of : bytes_eq h g ≡ false → bytes_lt g h ≡ false → bytes_lt h g ≡ true
      above_of other not_below =
          ground (arith, bytes_lt_total g h, bytes_eq_iff g h, bytes_eq_iff h g)

  remove-IsNested :
      (g : Bytes) (m : BTreeMap (BTreeMap V)) → IsNested m → IsNested (BTreeMap.remove g m)
  unfolding BTreeMap.remove
  remove-IsNested g [] s = tt
  remove-IsNested g ((h, items) ∷ m) (a, (si, s)) = elim (Bool-cases (bytes_eq h g)) [
    | inl same ↦ rw same (remove-IsNested g m s)
    | inr other ↦ rw other (remove-Above h g m a, (si, remove-IsNested g m s))
  ]

  -- the inner map of a group is sorted
  get-IsNested :
      (g : Bytes) (m : BTreeMap (BTreeMap V))
      → IsNested m
      → IsSorted (or_default (BTreeMap.get g m))
  unfolding BTreeMap.get
  get-IsNested g [] s = tt
  get-IsNested g ((h, items) ∷ m) (a, (si, s)) = elim (Bool-cases (bytes_eq h g)) [
    | inl same ↦ rw same si
    | inr other ↦ rw other (get-IsNested g m s)
  ]

  pub insert2-IsNested :
      (g k : Bytes) (v : V) (m : BTreeMap (BTreeMap V)) → IsNested m → IsNested (insert2 g k v m)
  unfolding insert2
  insert2-IsNested g k v m s =
      insert-IsNested g (BTreeMap.insert k v (or_default (BTreeMap.get g m))) m
        (insert-IsSorted k v (or_default (BTreeMap.get g m)) (get-IsNested g m s)) s

  items-IsSorted :
      (g : Bytes) (items : BTreeMap V) (m : BTreeMap (BTreeMap V))
      → IsNested m
      → BTreeMap.get g m ≡ some items
      → IsSorted items
  items-IsSorted g items m s e = subst (λ o. IsSorted (or_default o)) e (get-IsNested g m s)

  remove_item_of-IsNested :
      (g k : Bytes) (m : BTreeMap (BTreeMap V)) (o : Option (BTreeMap V))
      → IsNested m
      → BTreeMap.get g m ≡ o
      → IsNested (remove_item_of g k m o)
  unfolding remove_item_of
  remove_item_of-IsNested g k m none s e = s
  remove_item_of-IsNested g k m (some items) s e =
      insert-IsNested g (BTreeMap.remove k items) m
        (remove-IsSorted k items (items-IsSorted g items m s e)) s

  pub remove_item-IsNested :
      (g k : Bytes) (m : BTreeMap (BTreeMap V)) → IsNested m → IsNested (remove_item g k m)
  unfolding remove_item
  remove_item-IsNested g k m s = remove_item_of-IsNested g k m (BTreeMap.get g m) s refl

  remove2_of-IsNested :
      (g k : Bytes) (m : BTreeMap (BTreeMap V)) (o : Option (BTreeMap V))
      → IsNested m
      → BTreeMap.get g m ≡ o
      → IsNested (remove2_of g k m o)
  unfolding remove2_of
  remove2_of-IsNested g k m none s e = s
  remove2_of-IsNested g k m (some items) s e =
      elim (Bool-cases (is_empty (BTreeMap.remove k items))) [
        | inl empty ↦ rw empty (remove-IsNested g m s)
        | inr rest ↦ rw rest (
            insert-IsNested g (BTreeMap.remove k items) m
              (remove-IsSorted k items (items-IsSorted g items m s e)) s)
      ]

  pub remove2-IsNested :
      (g k : Bytes) (m : BTreeMap (BTreeMap V)) → IsNested m → IsNested (remove2 g k m)
  unfolding remove2
  remove2-IsNested g k m s = remove2_of-IsNested g k m (BTreeMap.get g m) s refl

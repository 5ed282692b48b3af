-- ===== src/Diff/RoundTrip.antt =====
-- Applying a computed diff to the old snapshot gives the new one, item by item.
use defing.Prelude.{
  true, ◌&&◌, List, [], ◌∷◌, ◌++◌, Option, none, some, ◌≡◌, refl, ap, sym, ◌∙◌, arith, ◌⊎◌, inl,
  inr, Bytes, bytes_eq, bytes_eq_iff, if◌then◌else◌, Bool-cases,
}
use defing.BTreeMap.{BTreeMap, get, get-nil}
use mathlib.Core.Path.{subst}
use defing.BTreeMap.Order.{IsSorted, Above, get-Above}
use defing.BTreeMap.Nested.{
  IsNested, insert2-IsNested, remove2-IsNested, get2, get2-insert2, get2-remove2,
}
use defing.Model.{Value, DiffEntry, ChangeKind, upsert, delete, SnapshotMap}
use defing.Model.Equality.{is_value, value_eq}
use defing.Diff.{
  upsert_items, upserts, delete_items, deletes, compute_diff, apply_entry, apply_diff,
}

-- A snapshot as the program builds them: sorted, and each group sorted.
abbrev pub IsSnapshot : SnapshotMap → Type 0
IsSnapshot = IsNested

-- Equal, or equal as the program compares values.
abbrev pub Agrees : Option Value → Option Value → Type 0
Agrees none none = Unit
Agrees (some a) (some b) = (a ≡ b) ⊎ (value_eq a b ≡ true)
Agrees _ _ = ⊥

pub Agrees-refl : (o : Option Value) → Agrees o o
Agrees-refl none = tt
Agrees-refl (some a) = inl refl

apply_entry-IsSnapshot :
    (c : ChangeKind) (g k : Bytes) (v : Option Value) (snap : SnapshotMap)
    → IsSnapshot snap
    → IsSnapshot (apply_entry c g k v snap)
unfolding apply_entry
apply_entry-IsSnapshot upsert g k none snap s = s
apply_entry-IsSnapshot upsert g k (some v) snap s = insert2-IsNested g k v snap s
apply_entry-IsSnapshot delete g k v snap s = remove2-IsNested g k snap s

pub apply_diff-IsSnapshot :
    (es : List DiffEntry) (snap : SnapshotMap) → IsSnapshot snap → IsSnapshot (apply_diff es snap)
unfolding apply_diff
apply_diff-IsSnapshot [] snap s = s
apply_diff-IsSnapshot (e ∷ es) snap s =
    apply_diff-IsSnapshot es (apply_entry e.kind e.group e.key e.new_value snap)
      (apply_entry-IsSnapshot e.kind e.group e.key e.new_value snap s)

-- what one entry does to the item `key` of `group`
abbrev entry_effect :
    ChangeKind → Bytes → Bytes → Option Value → Bytes → Bytes → Option Value → Option Value
entry_effect upsert g k none group key found = found
entry_effect upsert g k (some v) group key found =
    if bytes_eq g group && bytes_eq k key then some v else found
entry_effect delete g k v group key found =
    if bytes_eq g group && bytes_eq k key then none else found

effects : List DiffEntry → Bytes → Bytes → Option Value → Option Value
effects [] group key found = found
effects (e ∷ es) group key found =
    effects es group key (entry_effect e.kind e.group e.key e.new_value group key found)

apply_entry-effect :
    (c : ChangeKind) (g k : Bytes) (v : Option Value) (group key : Bytes) (snap : SnapshotMap)
    → get2 group key (apply_entry c g k v snap)
      ≡ entry_effect c g k v group key (get2 group key snap)
unfolding apply_entry
apply_entry-effect upsert g k none group key snap = refl
apply_entry-effect upsert g k (some v) group key snap = get2-insert2 g k group key v snap
apply_entry-effect delete g k v group key snap = get2-remove2 g k group key snap

apply_diff-effects :
    (es : List DiffEntry) (group key : Bytes) (snap : SnapshotMap)
    → get2 group key (apply_diff es snap) ≡ effects es group key (get2 group key snap)
unfolding apply_diff effects
apply_diff-effects [] group key snap = refl
apply_diff-effects (e ∷ es) group key snap =
    apply_diff-effects es group key (apply_entry e.kind e.group e.key e.new_value snap)
    ∙ ap (effects es group key) (apply_entry-effect e.kind e.group e.key e.new_value group key snap)

effects-append :
    (ds es : List DiffEntry) (group key : Bytes) (found : Option Value)
    → effects (ds ++ es) group key found ≡ effects es group key (effects ds group key found)
unfolding effects
effects-append [] es group key found = refl
effects-append (d ∷ ds) es group key found =
    effects-append ds es group key (entry_effect d.kind d.group d.key d.new_value group key found)

-- the outcome of the loop over `new` for one item
abbrev upserted : Option Value → Option Value → Option Value → Option Value
upserted old none found = found
upserted old (some v) found = if is_value old v then found else some v

abbrev deleted : Option Value → Option Value → Option Value → Option Value
deleted none new found = found
deleted (some v) none found = none
deleted (some v) (some w) found = found

module _ (group key : Bytes) where
  upsert_items-effect :
      (old : SnapshotMap) (g : Bytes) (items : BTreeMap Value) (found : Option Value)
      → IsSorted items
      → effects (upsert_items old g items) group key found
        ≡ (if bytes_eq g group then upserted (get2 group key old) (get key items) found else found)
  unfolding effects upsert_items get
  upsert_items-effect old g [] found s = ground arith
  upsert_items-effect old g ((k, v) ∷ items) found (a, s) = ground (
    arith,
    bytes_eq_iff g group,
    bytes_eq_iff k key,
    get-Above k items a,
    upsert_items-effect old g items found s,
    upsert_items-effect old g items (some v) s,
  )

  get2-cons :
      (g : Bytes) (items : BTreeMap Value) (snap : SnapshotMap)
      → get2 group key ((g, items) ∷ snap)
        ≡ (if bytes_eq g group then get key items else get2 group key snap)
  unfolding get2 get
  get2-cons g items snap = ground arith

  get2-Above :
      (g : Bytes) (snap : SnapshotMap)
      → Above g snap
      → bytes_eq g group ≡ true
      → get2 group key snap ≡ none
  unfolding get2
  get2-Above g snap a same =
      ground (arith, (bytes_eq_iff g group).0 same, get-Above g snap a, get-nil {V = Value} key)

  upserts-effect :
      (old new : SnapshotMap) (found : Option Value)
      → IsSnapshot new
      → effects (upserts old new) group key found
        ≡ upserted (get2 group key old) (get2 group key new) found
  unfolding upserts
  upserts-effect old [] found s = unfold effects get2 get in refl
  upserts-effect old ((g, items) ∷ new) found (a, (si, s)) = ground (
    arith,
    effects-append (upsert_items old g items) (upserts old new) group key found,
    upsert_items-effect old g items found si,
    upserts-effect old new found s,
    upserts-effect old new (upserted (get2 group key old) (get key items) found) s,
    get2-cons g items new,
    get2-Above g new a,
  )

  delete_items-effect :
      (new : SnapshotMap) (g : Bytes) (items : BTreeMap Value) (found : Option Value)
      → IsSorted items
      → effects (delete_items new g items) group key found
        ≡ (if bytes_eq g group then deleted (get key items) (get2 group key new) found else found)
  unfolding effects delete_items get
  delete_items-effect new g [] found s = ground arith
  delete_items-effect new g ((k, v) ∷ items) found (a, s) = ground (
    arith,
    bytes_eq_iff g group,
    bytes_eq_iff k key,
    get-Above k items a,
    delete_items-effect new g items found s,
    delete_items-effect new g items none s,
  )

  deletes-effect :
      (old new : SnapshotMap) (found : Option Value)
      → IsSnapshot old
      → effects (deletes old new) group key found
        ≡ deleted (get2 group key old) (get2 group key new) found
  unfolding deletes
  deletes-effect [] new found s = unfold effects get2 get in refl
  deletes-effect ((g, items) ∷ old) new found (a, (si, s)) = ground (
    arith,
    effects-append (delete_items new g items) (deletes old new) group key found,
    delete_items-effect new g items found si,
    deletes-effect old new found s,
    deletes-effect old new (deleted (get key items) (get2 group key new) found) s,
    get2-cons g items old,
    get2-Above g old a,
  )

  settled : (o n : Option Value) → Agrees (deleted o n (upserted o n o)) n
  unfolding is_value
  settled none none = tt
  settled (some a) none = tt
  settled none (some b) = inl refl
  settled (some a) (some b) = elim (Bool-cases (value_eq a b)) [
    | inl same ↦ rw same (inr same)
    | inr other ↦ rw other (inl refl)
  ]

  -- The diff of two snapshots that are sorted maps, applied to the first, gives for every group and
  -- key what the second has, up to the program's own comparison of values.
  pub apply_diff-compute_diff :
      (old new : SnapshotMap)
      → IsSnapshot old
      → IsSnapshot new
      → Agrees (get2 group key (apply_diff (compute_diff old new) old)) (get2 group key new)
  unfolding compute_diff
  apply_diff-compute_diff old new so sn =
      subst (λ found. Agrees found (get2 group key new)) (sym computed)
        (settled (get2 group key old) (get2 group key new))
    where
      computed :
          get2 group key (apply_diff (upserts old new ++ deletes old new) old)
          ≡ deleted
              (get2 group key old)
              (get2 group key new)
              (upserted (get2 group key old) (get2 group key new) (get2 group key old))
      computed =
          apply_diff-effects (upserts old new ++ deletes old new) group key old
          ∙ effects-append (upserts old new) (deletes old new) group key (get2 group key old)
          ∙ ap (effects (deletes old new) group key)
              (upserts-effect old new (get2 group key old) sn)
          ∙ deletes-effect old new
              (upserted (get2 group key old) (get2 group key new) (get2 group key old)) so

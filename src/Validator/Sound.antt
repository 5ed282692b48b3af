-- ===== src/Validator/Sound.antt =====
-- What a structure without issues satisfies.
use defing.Prelude.{
  ◌≤◌, Bool, true, false, not, ◌&&◌, ◌||◌, List, [], ◌∷◌, ◌++◌, ◌≡◌, refl, arith, Bytes, bytes_eq,
  ltb, length, is_empty, map, All,
}
use defing.Model.{ValueType, ItemDef, GroupDef}
use defing.Model.Equality.{type_eq}
use defing.Validator.{
  Issue, issue_if, valid_key_name, seen_in, validate_items, validate_groups, total_items,
  validate_structure, max_groups_per_project, max_items_per_project, bad_group_length,
  bad_group_name, duplicate_group, bad_key_length, bad_key_name, duplicate_item, secret_needs_type,
  too_many_groups, too_many_items,
}

-- no two of the names are equal
pub Distinct : List Bytes → Type 0
Distinct [] = Unit
Distinct (n ∷ ns) = All (λ k. bytes_eq n k ≡ false) ns × Distinct ns

-- a key with a valid name, and a secret only with the type of secrets
pub record IsItem (item : ItemDef) : Type 0 where
  pub named : valid_key_name item.key ≡ true
  pub typed : item.secret ≡ true → type_eq item.ty ValueType.secret ≡ true

pub record IsGroup (g : GroupDef) : Type 0 where
  pub named : valid_key_name g.name ≡ true
  pub items : All IsItem g.items
  pub keys : Distinct (map (λ i. i.key) g.items)

pub record IsStructure (groups : List GroupDef) : Type 0 where
  pub groups_bound : length groups ≤ max_groups_per_project
  pub items_bound : total_items groups ≤ max_items_per_project
  pub each : All IsGroup groups
  pub names : Distinct (map (λ g. g.name) groups)

append-[] : {A : Type 0} (xs ys : List A) → xs ++ ys ≡ [] → (xs ≡ []) × (ys ≡ [])
append-[] [] ys h = (refl, h)
append-[] (x ∷ xs) ys h = absurd (ground (arith, h))

-- a list of issues that begins with a test and is empty: the test fails, and the rest is empty
no_issue :
    (b : Bool) (e : Issue) (rest : List Issue)
    → issue_if b e ++ rest ≡ []
    → (b ≡ false) × (rest ≡ [])
no_issue true e rest h = absurd (ground (arith, h))
no_issue false e rest h = (refl, h)

-- names that are not seen with one more are not that one, and not seen before
unseen :
    (n : Bytes) (seen ns : List Bytes)
    → All (λ k. seen_in k (n ∷ seen) ≡ false) ns
    → All (λ k. bytes_eq n k ≡ false) ns × All (λ k. seen_in k seen ≡ false) ns
unseen n seen [] h = (tt, tt)
unseen n seen (k ∷ ns) (h, hs) =
    let (a, b) = unseen n seen ns hs in ((ground arith, a), (ground arith, b))

validate_items-IsItem :
    (g : Bytes) (seen : List Bytes) (items : List ItemDef)
    → validate_items g seen items ≡ []
    → All IsItem items
      × Distinct (map (λ i. i.key) items)
      × All (λ k. seen_in k seen ≡ false) (map (λ i. i.key) items)
unfolding validate_items Distinct
validate_items-IsItem g seen [] h = (tt, tt, tt)
validate_items-IsItem g seen (item ∷ items) h =
    let (_, h1) =
      no_issue (ltb 128 (length item.key) || is_empty item.key) (bad_key_length item.key) _ h in
    let (named, h2) = no_issue (not (valid_key_name item.key)) (bad_key_name item.key) _ h1 in
    let (fresh, h3) = no_issue (seen_in item.key seen) (duplicate_item g item.key) _ h2 in
    let (typed, h4) =
      no_issue (item.secret && not (type_eq item.ty ValueType.secret))
        (secret_needs_type g item.key) _ h3 in
    let (all, distinct, rest) = validate_items-IsItem g (item.key ∷ seen) items h4 in
    let (apart, unseen_rest) = unseen item.key seen (map (λ i. i.key) items) rest in
    (
      (record { named = ground arith; typed = λ s. ground arith }, all),
      (apart, distinct),
      (fresh, unseen_rest),
    )

validate_groups-IsGroup :
    (seen : List Bytes) (groups : List GroupDef)
    → validate_groups seen groups ≡ []
    → All IsGroup groups
      × Distinct (map (λ g. g.name) groups)
      × All (λ k. seen_in k seen ≡ false) (map (λ g. g.name) groups)
unfolding validate_groups Distinct
validate_groups-IsGroup seen [] h = (tt, tt, tt)
validate_groups-IsGroup seen (g ∷ groups) h =
    let (_, h1) = no_issue (ltb 128 (length g.name) || is_empty g.name) bad_group_length _ h in
    let (named, h2) = no_issue (not (valid_key_name g.name)) (bad_group_name g.name) _ h1 in
    let (fresh, h3) = no_issue (seen_in g.name seen) (duplicate_group g.name) _ h2 in
    let (items_ok, h4) =
      append-[] (validate_items g.name [] g.items) (validate_groups (g.name ∷ seen) groups) h3 in
    let (items, keys, _) = validate_items-IsItem g.name [] g.items items_ok in
    let (all, distinct, rest) = validate_groups-IsGroup (g.name ∷ seen) groups h4 in
    let (apart, unseen_rest) = unseen g.name seen (map (λ g'. g'.name) groups) rest in
    (
      (record { named = ground arith; items = items; keys = keys }, all),
      (apart, distinct),
      (fresh, unseen_rest),
    )

-- A structure that is accepted without an issue is within the bounds on its groups and its items,
-- every group and key has a valid name, no two groups and no two keys of a group are equal, and
-- only an item with the type of secrets is marked as one.
pub validate_structure-IsStructure :
    (groups : List GroupDef) → validate_structure groups ≡ [] → IsStructure groups
unfolding validate_structure
validate_structure-IsStructure groups h =
    let (few, h1) = no_issue (ltb max_groups_per_project (length groups)) too_many_groups _ h in
    let (groups_ok, h2) =
      append-[] (validate_groups [] groups)
        (issue_if (ltb max_items_per_project (total_items groups)) too_many_items) h1 in
    let (each, names, _) = validate_groups-IsGroup [] groups groups_ok in
    record { groups_bound = ground arith; items_bound = ground arith; each = each; names = names }

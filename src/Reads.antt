-- ===== src/Reads.antt =====
-- server/crates/dsh-core/src/state.rs: the reads of the state machine that the commands share.
use defing.Prelude.{
  List, [], ◌∷◌, ◌++◌, Option, none, some, ◌≡◌, ap, arith, Bytes, bytes_eq, bytes_lt, contains,
  ◌==◌, strip_prefix, if◌then◌else◌, is_empty,
}
use mathlib.Core.Option
use defing.BTreeMap.{BTreeMap}
use defing.Error.{ErrorKind, Result, ok, err, and_then, ok-injective}
use defing.Keys.{
  k_project, k_branch, struct_key, struct_draft_key, project_key, branch_state_key, shared_key,
  shared_draft_key, k_shared_draft, k_shared,
}
use defing.Machine.{get_prefix_merged}
use defing.Model.{Project, Structure, StructureDraft, BranchState, SharedItem}
use defing.Serde.{Serde, Kind, Sem, Sm, load, load_merged}

-- `ok_or_else(|| e)?` on what was read
abbrev pub or_fail {ℓ} : {A : Type ℓ} → ErrorKind → Option A → Result A
or_fail e none = err e
or_fail e (some a) = ok a

-- `sort_by`: a stable sort by a byte-string key
unfoldable pub insert_by {ℓ} : {A : Type ℓ} → (A → Bytes) → A → List A → List A
insert_by key a [] = a ∷ []
insert_by key a (b ∷ bs) =
    let rest = insert_by key a bs in if bytes_lt (key b) (key a) then b ∷ rest else a ∷ b ∷ bs

unfoldable pub sort_by {ℓ} : {A : Type ℓ} → (A → Bytes) → List A → List A
unfolding insert_by
sort_by key [] = []
sort_by key (a ∷ as') = insert_by key a (sort_by key as')

-- `dedup` of a sorted list of names
abbrev dedup_from : Bytes → List Bytes → List Bytes
dedup_from a [] = a ∷ []
dedup_from a (b ∷ bs) = let rest = dedup_from b bs in if bytes_eq a b then rest else a ∷ rest

unfoldable pub dedup : List Bytes → List Bytes
dedup [] = []
dedup (a ∷ bs) = dedup_from a bs

-- `rest[..rest.find('/')?]`
unfoldable pub before_slash : Bytes → Option Bytes
before_slash [] = none
before_slash (c ∷ s) =
    let rest = before_slash s in if c == b'/' then some [] else Option.map (λ t. c ∷ t) rest

module _ (S : Serde) where
  abbrev pub get_project : Bytes → Sm S → Result (Option Project)
  get_project id = load_merged S Kind.project (project_key id)

  abbrev pub get_structure : Bytes → Sm S → Result (Option Structure)
  get_structure id = load_merged S Kind.structure (struct_key id)

  abbrev pub get_structure_draft : Bytes → Sm S → Result (Option StructureDraft)
  get_structure_draft id = load_merged S Kind.structure_draft (struct_draft_key id)

  abbrev pub get_branch_state : Bytes → Bytes → Sm S → Result (Option BranchState)
  get_branch_state id branch = load_merged S Kind.branch_state (branch_state_key id branch)

  abbrev pub get_shared : Bytes → Sm S → Result (Option SharedItem)
  get_shared key = load_merged S Kind.shared_item (shared_key key)

  -- what must be there, or the error
  unfoldable pub expect : (k : Kind) → ErrorKind → Bytes → Sm S → Result (Sem k)
  expect k e key m = and_then (load_merged S k key m) (or_fail e)

  -- the same, straight from the store
  unfoldable pub stored : (k : Kind) → ErrorKind → Bytes → Sm S → Result (Sem k)
  stored k e key m = and_then (load S k key m) (or_fail e)

  pub expect-ok :
      (k : Kind) (e : ErrorKind) (key : Bytes) (x : Sem k) (m : Sm S)
      → load_merged S k key m ≡ ok (some x)
      → expect k e key m ≡ ok x
  unfolding expect
  expect-ok k e key x m h = ap (λ r. and_then r (or_fail e)) h

  pub expect-some :
      (k : Kind) (e : ErrorKind) (key : Bytes) (x : Sem k) (m : Sm S)
      → expect k e key m ≡ ok x
      → load_merged S k key m ≡ ok (some x)
  unfolding expect
  expect-some k e key x m h = read_some (load_merged S k key m) h
    where
      read_some : (r : Result (Option (Sem k))) → and_then r (or_fail e) ≡ ok x → r ≡ ok (some x)
      read_some (ok none) h = absurd (ground (arith, h))
      read_some (ok (some y)) h = ap (λ z. ok (some z)) (ok-injective h)
      read_some (err d) h = absurd (ground (arith, h))

  pub expect-same :
      (k : Kind) (e : ErrorKind) (key : Bytes) (m m' : Sm S)
      → load_merged S k key m' ≡ load_merged S k key m
      → expect k e key m' ≡ expect k e key m
  unfolding expect
  expect-same k e key m m' h = ap (λ r. and_then r (or_fail e)) h

  -- the values of some rows that parse; the others are skipped
  unfoldable pub parsed_rows : (k : Kind) → BTreeMap S.Raw → List (Sem k)
  parsed_rows k [] = []
  parsed_rows k ((key, raw) ∷ rows) = elim (S.from_slice k raw) [
    | none ↦ parsed_rows k rows
    | some x ↦ x ∷ parsed_rows k rows
  ]

  -- the rows of `list_projects`: the keys `p/{id}` with no further slash
  unfoldable pub project_rows : BTreeMap S.Raw → BTreeMap S.Raw
  project_rows [] = []
  project_rows ((key, raw) ∷ rows) =
      let rest = project_rows rows in
      elim (strip_prefix key k_project) [
        | none ↦ rest
        | some name ↦ if contains name b'/' then rest else (key, raw) ∷ rest
      ]

  unfoldable pub list_projects : Sm S → List Project
  unfolding project_rows parsed_rows sort_by
  list_projects m =
      sort_by (λ p. p.name)
        (parsed_rows Kind.project (project_rows (get_prefix_merged k_project m)))

  -- the branch names in the rows of `list_branches`
  unfoldable pub branch_names : Bytes → BTreeMap S.Raw → List Bytes
  branch_names prefix [] = []
  branch_names prefix ((key, raw) ∷ rows) =
      let rest = branch_names prefix rows in
      elim (strip_prefix key prefix) [
        | none ↦ rest
        | some tail ↦ elim (before_slash tail) [
          | none ↦ rest
          | some name ↦ if is_empty name then rest else name ∷ rest
        ]
      ]

  unfoldable pub list_branches : Bytes → Sm S → List Bytes
  unfolding branch_names sort_by dedup before_slash
  list_branches id m =
      let prefix = k_project ++ (id ++ k_branch) in
      dedup (sort_by (λ b. b) (branch_names prefix (get_prefix_merged prefix m)))

  unfoldable pub list_shared_drafts : Sm S → List SharedItem
  unfolding parsed_rows sort_by
  list_shared_drafts m =
      sort_by (λ item. item.key) (parsed_rows Kind.shared_item (get_prefix_merged k_shared_draft m))

  unfoldable pub list_shared_published : Sm S → List SharedItem
  unfolding parsed_rows sort_by
  list_shared_published m =
      sort_by (λ item. item.key) (parsed_rows Kind.shared_item (get_prefix_merged k_shared m))

  -- `get_shared_effective`: the draft, and else what is published
  unfoldable pub get_shared_effective : Bytes → Sm S → Result (Option SharedItem)
  get_shared_effective key m =
      and_then (load_merged S Kind.shared_item (shared_draft_key key) m)
        (elim [ none ↦ get_shared key m | some item ↦ ok (some item) ])

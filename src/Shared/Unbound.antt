-- ===== src/Shared/Unbound.antt =====
-- The delete of a shared item that is published.
use defing.Prelude.{
  ◌++◌, Option, arith, Bool-cases, inl, inr, is_empty, bytes_eq_iff, true, false, List, [], ◌∷◌,
  none, some, ◌≡◌, refl, ◌∙◌, Bytes, bytes_eq, bytes_eq_refl,
}
use defing.BTreeMap
use defing.BTreeMap.{BTreeMap}
use defing.BTreeMap.Nested.{get2}
use mathlib.Core.List.{Memᴰ}
use mathlib.Core.Path.{subst}
use defing.Error.{ErrorKind, Result, and_then, ok, err, conflict}
use defing.Keys.{shared_key, shared_draft_key}
use defing.Machine.{delete_pending}
use defing.Model.{BranchState, Project, SharedItem}
use defing.Reads.{get_shared, get_branch_state, list_branches, list_projects}
use defing.Serde.{Serde, Kind, Sm, load_merged}
use defing.Serde.Laws.{load_merged-delete_pending}
use defing.Shared.{
  Usage, usage_items, usage_groups, usage_state, usage_branches, usage_projects, shared_usage,
  delete_published, apply_shared_delete,
}
use defing.Validator.{valid_key_name}

draft_key-shared_key : (a b : Bytes) → bytes_eq (shared_draft_key a) (shared_key b) ≡ false
unfolding shared_draft_key shared_key bytes_eq
draft_key-shared_key a b = refl

is_empty-append_left : (us vs : List Usage) → is_empty us ≡ false → is_empty (us ++ vs) ≡ false
is_empty-append_left [] vs h = ground (arith, h)
is_empty-append_left (u ∷ us) vs h = refl

is_empty-append_right : (us vs : List Usage) → is_empty vs ≡ false → is_empty (us ++ vs) ≡ false
is_empty-append_right [] vs h = h
is_empty-append_right (u ∷ us) vs h = refl

-- the uses found for a binding, one inner loop after the other
module _ (key p b : Bytes) where
  usage_items-used :
      (g k : Bytes) (items : BTreeMap Bytes)
      → BTreeMap.get k items ≡ some key
      → is_empty (usage_items key p b g items) ≡ false
  unfolding usage_items BTreeMap.get
  usage_items-used g k [] h = ground (arith, h)
  usage_items-used g k ((j, v) ∷ items) h =
      ground (arith, bytes_eq_iff v key, usage_items-used g k items)

  usage_groups-used :
      (g k : Bytes) (groups : BTreeMap (BTreeMap Bytes))
      → get2 g k groups ≡ some key
      → is_empty (usage_groups key p b groups) ≡ false
  unfolding usage_groups get2 BTreeMap.get
  usage_groups-used g k [] h = ground (arith, h)
  usage_groups-used g k ((i, items) ∷ groups) h = elim (Bool-cases (bytes_eq i g)) [
    | inl same ↦
        is_empty-append_left (usage_items key p b i items) (usage_groups key p b groups)
          (usage_items-used i k items (ground (arith, same, h)))
    | inr other ↦
        is_empty-append_right (usage_items key p b i items) (usage_groups key p b groups)
          (usage_groups-used g k groups (ground (arith, other, h)))
  ]

-- an error, or at least one use
abbrev IsInUse : Result (List Usage) → Type 0
IsInUse (ok us) = is_empty us ≡ false
IsInUse (err e) = Unit

-- the uses of one place, and then those of the others
abbrev joined : Result (List Usage) → Result (List Usage) → Result (List Usage)
joined here rest = and_then here (λ us. and_then rest (λ vs. ok (us ++ vs)))

joined-here : (here rest : Result (List Usage)) → IsInUse here → IsInUse (joined here rest)
joined-here (err d) rest h = tt
joined-here (ok us) (err d) h = tt
joined-here (ok us) (ok vs) h = is_empty-append_left us vs h

joined-rest : (here rest : Result (List Usage)) → IsInUse rest → IsInUse (joined here rest)
joined-rest (err d) rest h = tt
joined-rest (ok us) (err d) h = tt
joined-rest (ok us) (ok vs) h = is_empty-append_right us vs h

module _ (S : Serde) (key g k : Bytes) (m : Sm S) where
  -- the state of the branch binds the item
  abbrev pub IsBoundIn : Bytes → Bytes → Type 0
  IsBoundIn p b =
      (st : BranchState) × (get_branch_state S p b m ≡ ok (some st))
      × (get2 g k st.shared_bindings ≡ some key)

  usage_branches-IsInUse :
      (p b : Bytes) (bs : List Bytes)
      → IsBoundIn p b
      → Memᴰ b bs
      → IsInUse (usage_branches S key p bs m)
  unfolding usage_branches
  usage_branches-IsInUse p b [] bound in_none = elim in_none [ ]
  usage_branches-IsInUse p b (c ∷ cs) bound (Memᴰ.head e) =
      let (st, read, binds) = subst (IsBoundIn p) e bound in
      rw read (
        joined-here (ok (usage_state key p c (some st))) (usage_branches S key p cs m)
          (usage_groups-used key p c g k st.shared_bindings binds))
  usage_branches-IsInUse p b (c ∷ cs) bound (Memᴰ.tail rest) =
      by_cases (get_branch_state S p c m) (usage_branches S key p cs m)
        (usage_branches-IsInUse p b cs bound rest)
    where
      by_cases :
          (r : Result (Option BranchState)) (us : Result (List Usage))
          → IsInUse us
          → IsInUse (and_then r (λ st. joined (ok (usage_state key p c st)) us))
      by_cases (err d) us h = tt
      by_cases (ok st) us h = joined-rest (ok (usage_state key p c st)) us h

  usage_projects-IsInUse :
      (p : Project) (b : Bytes) (ps : List Project)
      → IsBoundIn p.id b
      → Memᴰ b (list_branches S p.id m)
      → Memᴰ p ps
      → IsInUse (usage_projects S key ps m)
  unfolding usage_projects
  usage_projects-IsInUse p b [] bound listed in_none = elim in_none [ ]
  usage_projects-IsInUse p b (q ∷ qs) bound listed (Memᴰ.head e) =
      joined-here (usage_branches S key q.id (list_branches S q.id m) m) (usage_projects S key qs m)
        (subst (λ (z : Project). IsInUse (usage_branches S key z.id (list_branches S z.id m) m)) e
          (usage_branches-IsInUse p.id b (list_branches S p.id m) bound listed))
  usage_projects-IsInUse p b (q ∷ qs) bound listed (Memᴰ.tail rest) =
      joined-rest (usage_branches S key q.id (list_branches S q.id m) m) (usage_projects S key qs m)
        (usage_projects-IsInUse p b qs bound listed rest)

module _ (S : Serde) (key : Bytes) (m : Sm S) (x : SharedItem) (named : valid_key_name key ≡ true)
    (published : get_shared S key m ≡ ok (some x)) where
  delete_published-IsInUse :
      (uses : Result (List Usage))
      → IsInUse uses
      → shared_usage S key m ≡ uses
      → (e : ErrorKind) × (apply_shared_delete S key m ≡ (err e, m))
  unfolding apply_shared_delete delete_published
  delete_published-IsInUse (ok us) used eq = (conflict, rw (named, published, eq, used) refl)
  delete_published-IsInUse (err d) used eq = (d, rw (named, published, eq) refl)

  -- A published shared item with a valid key that is in use is not deleted: where a branch that is
  -- listed, of a project that is listed, has a state that binds some group and key to the item, the
  -- delete fails and leaves the machine as it was.
  pub apply_shared_delete-bound :
      (p : Project) (b g k : Bytes)
      → Memᴰ p (list_projects S m)
      → Memᴰ b (list_branches S p.id m)
      → IsBoundIn S key g k m p.id b
      → (e : ErrorKind) × (apply_shared_delete S key m ≡ (err e, m))
  unfolding shared_usage
  apply_shared_delete-bound p b g k has_project has_branch bound =
      delete_published-IsInUse (shared_usage S key m)
        (usage_projects-IsInUse S key g k m p b (list_projects S m) bound has_branch has_project)
        refl

  abbrev deleted : Sm S
  deleted = delete_pending (shared_draft_key key) (delete_pending (shared_key key) m)

  -- The delete of a published shared item with a valid key that no branch is bound to succeeds, and
  -- afterwards neither the item nor a draft of it is read.
  pub apply_shared_delete-unbound :
      shared_usage S key m ≡ ok []
      → let r = apply_shared_delete S key m in
        (r.0 ≡ ok [])
        × (get_shared S key r.1 ≡ ok none)
        × (load_merged S Kind.shared_item (shared_draft_key key) r.1 ≡ ok none)
  unfolding apply_shared_delete delete_published
  apply_shared_delete-unbound free =
      rw (named, published, free)
        (
          refl,
          (load_merged-delete_pending S Kind.shared_item (shared_draft_key key) (shared_key key)
                (delete_pending (shared_key key) m)
              ∙ rw draft_key-shared_key (
                  load_merged-delete_pending S Kind.shared_item (shared_key key) (shared_key key) m
                  ∙ rw bytes_eq_refl refl)),
          (load_merged-delete_pending S Kind.shared_item (shared_draft_key key)
                (shared_draft_key key) (delete_pending (shared_key key) m)
              ∙ rw bytes_eq_refl refl),
        )

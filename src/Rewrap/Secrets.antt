-- ===== src/Rewrap/Secrets.antt =====
-- A rewrap changes ciphertexts alone, and what they hold stays.
use defing.Prelude.{
  ℕ, Bool, true, false, [], ◌∷◌, Option, none, some, ◌≡◌, refl, ap, sym, ◌∙◌, arith, Bytes, codes,
  All, ends_with, bytes_eq, bytes_eq_iff, bytes_eq_refl, bytes_lt_irrefl, Bool-cases, inl, inr, ◌⊎◌,
  if◌then◌else◌,
}
use mathlib.Core.Option
use mathlib.Core.Path.{subst}
use defing.BTreeMap.{BTreeMap, get, get-insert}
use defing.BTreeMap.Order.{IsSorted, Above}
use defing.Error.{Result, ok, err, and_then-ok, ok-injective}
use defing.Machine.{get_prefix_merged}
use defing.Model.{Ciphertext, Value, SnapshotMap}
use defing.Model.Reread.{reread_value, reread_items, reread_snapshot}
use defing.Rewrap.{
  rewrap_value, replaced, rewrap_entries, rewrap_snapshot, to_save, rewrap_row, save_raw, save_row,
  rewrap_rows, rewrap_deks,
}
use defing.Serde.{Serde, Kind, Sm}
use defing.Snapshots.Restore.{get_prefix_merged-nil}

-- every value of a map, rewritten
unfoldable pub map_values : {A : Type 0} → (A → A) → BTreeMap A → BTreeMap A
map_values g [] = []
map_values g ((k, a) ∷ m) = (k, g a) ∷ map_values g m

-- a value with its ciphertext in a form that depends on what it holds alone
unfoldable pub normal_value : (Ciphertext → Ciphertext) → Value → Value
normal_value norm (Value.secret ct) = Value.secret (norm ct)
normal_value norm v = v

unfoldable pub normal_snapshot : (Ciphertext → Ciphertext) → SnapshotMap → SnapshotMap
normal_snapshot norm = map_values (map_values (normal_value norm))

-- a change of the floats and a change of the ciphertexts do not meet
module _ (reread : ℕ → ℕ) (norm : Ciphertext → Ciphertext) where
  normal_value-reread :
      (v : Value)
      → normal_value norm (reread_value reread v) ≡ reread_value reread (normal_value norm v)
  unfolding normal_value
  normal_value-reread (Value.secret ct) = refl
  normal_value-reread _ = refl

  map_values-reread_items :
      (items : BTreeMap Value)
      → map_values (normal_value norm) (reread_items reread items)
        ≡ reread_items reread (map_values (normal_value norm) items)
  unfolding map_values
  map_values-reread_items [] = refl
  map_values-reread_items ((k, v) ∷ items) =
      ap (λ (z : Value). (k, z) ∷ map_values (normal_value norm) (reread_items reread items))
        (normal_value-reread v)
      ∙ ap (λ (z : BTreeMap Value). (k, reread_value reread (normal_value norm v)) ∷ z)
          (map_values-reread_items items)

  normal_snapshot-reread_snapshot :
      (snap : SnapshotMap)
      → normal_snapshot norm (reread_snapshot reread snap)
        ≡ reread_snapshot reread (normal_snapshot norm snap)
  unfolding normal_snapshot map_values
  normal_snapshot-reread_snapshot [] = refl
  normal_snapshot-reread_snapshot ((g, items) ∷ snap) =
      ap (λ (z : BTreeMap Value). (g, z) ∷ normal_snapshot norm (reread_snapshot reread snap))
        (map_values-reread_items items)
      ∙ ap
          (λ (z : SnapshotMap). (g, reread_items reread (map_values (normal_value norm) items)) ∷ z)
          (normal_snapshot-reread_snapshot snap)

rewrap_entries-map_values :
    {A : Type 0} (rewrap : A → Result (Bool × A)) (g : A → A)
    → ((a : A) (b : Bool) (a' : A) → rewrap a ≡ ok (b, a') → g a' ≡ g a)
    → (m : BTreeMap A) (b : Bool) (m' : BTreeMap A) → rewrap_entries rewrap m ≡ ok (b, m')
    → map_values g m' ≡ map_values g m
unfolding rewrap_entries map_values
rewrap_entries-map_values {A} rewrap g keeps [] b m' h =
    sym (ap (λ z. map_values g z.1) (ok-injective h))
rewrap_entries-map_values {A} rewrap g keeps ((k, a) ∷ m) b m' h =
    let (r, p, q) = and_then-ok (rewrap a) _ h in
    let (rest, p', q') = and_then-ok (rewrap_entries rewrap m) _ q in
    sym (ap (λ z. map_values g z.1) (ok-injective q'))
    ∙ ap (λ (z : A). (k, z) ∷ map_values g rest.1) (keeps a r.0 r.1 p)
    ∙ ap (λ (z : BTreeMap A). (k, g a) ∷ z)
        (rewrap_entries-map_values rewrap g keeps m rest.0 rest.1 p')

module _ {R : Type 0} where
  -- the rows of a sorted store are what its keys are read as
  abbrev Found : BTreeMap R → BTreeMap R → Type 0
  Found s = All (λ kv. get kv.0 s ≡ some kv.1)

  Found-cons : (j : Bytes) (v : R) (s t : BTreeMap R) → Above j t → Found s t → Found ((j, v) ∷ s) t
  unfolding get
  Found-cons j v s [] a h = tt
  Found-cons j v s ((k, w) ∷ t) (lt, a) (e, h) =
      (ground (arith, e, bytes_eq_iff j k, bytes_lt_irrefl k), Found-cons j v s t a h)

  IsSorted-Found : (s : BTreeMap R) → IsSorted s → Found s s
  IsSorted-Found [] h = tt
  IsSorted-Found ((j, v) ∷ s) (a, h) =
      (unfold get in (rw (bytes_eq_refl j) refl), Found-cons j v s s a (IsSorted-Found s h))

module _ (norm : Ciphertext → Ciphertext) (S : Serde) where
  -- a version snapshot as it is stored, but for the form of its ciphertexts
  abbrev pub snapshot_view : Option S.Raw → Option SnapshotMap
  snapshot_view none = none
  snapshot_view (some raw) = Option.map (normal_snapshot norm) (S.from_slice Kind.snapshot raw)

  -- what a write and a read make of the floats of it
  abbrev pub reread_view : Option SnapshotMap → Option SnapshotMap
  reread_view = Option.map (reread_snapshot S.reread_float)

  -- a view is the given one, or that behind one write and one read
  abbrev pub IsKept : Option SnapshotMap → Option SnapshotMap → Type 0
  IsKept view before = (view ≡ before) ⊎ (view ≡ reread_view before)

module _ (f : Ciphertext → Option (Result Ciphertext)) (norm : Ciphertext → Ciphertext)
    (keeps : (ct ct' : Ciphertext) → f ct ≡ some (ok ct') → norm ct' ≡ norm ct) where
  rewrap_value-normal_value :
      (v : Value) (b : Bool) (v' : Value)
      → rewrap_value f v ≡ ok (b, v')
      → normal_value norm v' ≡ normal_value norm v
  unfolding rewrap_value normal_value
  rewrap_value-normal_value (Value.secret ct) b v' h = by_case (f ct) refl h
    where
      by_case :
          (r : Option (Result Ciphertext))
          → f ct ≡ r
          → replaced f (Value.secret ct) r ≡ ok (b, v')
          → normal_value norm v' ≡ normal_value norm (Value.secret ct)
      by_case none e h = sym (ap (λ z. normal_value norm z.1) (ok-injective h))
      by_case (some (ok new)) e h =
          sym (ap (λ z. normal_value norm z.1) (ok-injective h)) ∙ ap Value.secret (keeps ct new e)
      by_case (some (err d)) e h = cc
  rewrap_value-normal_value _ b v' h = sym (ap (λ z. normal_value norm z.1) (ok-injective h))

  pub rewrap_snapshot-normal_snapshot :
      (snap : SnapshotMap) (b : Bool) (snap' : SnapshotMap)
      → rewrap_snapshot f snap ≡ ok (b, snap')
      → normal_snapshot norm snap' ≡ normal_snapshot norm snap
  unfolding rewrap_snapshot normal_snapshot
  rewrap_snapshot-normal_snapshot =
      rewrap_entries-map_values (rewrap_entries (rewrap_value f)) (map_values (normal_value norm))
        (rewrap_entries-map_values (rewrap_value f) (normal_value norm) rewrap_value-normal_value)

  module _ (S : Serde) where
    saved-view :
        (snap : Option SnapshotMap) (raw' : S.Raw)
        → to_save f S Kind.snapshot (rewrap_snapshot f) snap ≡ ok (some raw')
        → snapshot_view norm S (some raw')
          ≡ reread_view norm S (Option.map (normal_snapshot norm) snap)
    saved-view none raw' h = cc
    saved-view (some snap) raw' h =
        let ((b, snap'), p, q) = and_then-ok (rewrap_snapshot f snap) _ h in written b snap' p q
      where
        written :
            (b : Bool) (snap' : SnapshotMap)
            → rewrap_snapshot f snap ≡ ok (b, snap')
            → ok (if b then some (S.to_vec Kind.snapshot snap') else none) ≡ ok (some raw')
            → snapshot_view norm S (some raw')
              ≡ some (reread_snapshot S.reread_float (normal_snapshot norm snap))
        written false snap' p q = absurd (ground (arith, q))
        written true snap' p q =
            sym (ap (snapshot_view norm S) (ok-injective q))
            ∙ ap (Option.map (normal_snapshot norm)) (S.from_slice-to_vec Kind.snapshot snap')
            ∙ ap some (normal_snapshot-reread_snapshot S.reread_float norm snap')
            ∙ ap (λ (z : SnapshotMap). some (reread_snapshot S.reread_float z))
                (rewrap_snapshot-normal_snapshot snap true snap' p)

    rewrap_row-view :
        (at : Bytes) (raw raw' : S.Raw)
        → ends_with at (codes "/snap") ≡ true
        → rewrap_row f S at raw ≡ ok (some raw')
        → snapshot_view norm S (some raw') ≡ reread_view norm S (snapshot_view norm S (some raw))
    unfolding rewrap_row
    rewrap_row-view at raw raw' is h = saved-view (S.from_slice Kind.snapshot raw) raw' (rw is at h)

    module _ (at : Bytes) (is : ends_with at (codes "/snap") ≡ true) (V : Option SnapshotMap) where
      -- a row at the key has the view `V`
      abbrev RowView : Bytes × S.Raw → Type 0
      RowView kv = bytes_eq kv.0 at ≡ true → snapshot_view norm S (some kv.1) ≡ V

      save_raw-view :
          (key : Bytes) (raw : S.Raw) (new : Option S.Raw) (s : ℕ × Sm S)
          → RowView (key, raw)
          → rewrap_row f S key raw ≡ ok new
          → IsKept norm S (snapshot_view norm S (get at s.1.store)) V
          → IsKept norm S (snapshot_view norm S (get at (save_raw f S key new s).1.store)) V
      save_raw-view key raw none s row e h = h
      save_raw-view key raw (some raw') s row e h = elim (Bool-cases (bytes_eq key at)) [
        | inl same ↦
            let key_at : key ≡ at = (bytes_eq_iff key at).0 same in
            rw (get-insert, same)
              (inr (
                rewrap_row-view at raw raw' is
                  (subst (λ z. rewrap_row f S z raw ≡ ok (some raw')) key_at e)
                ∙ ap (reread_view norm S) (row same)))
        | inr other ↦ rw (get-insert, other) h
      ]

      rewrap_rows-view :
          (rows : BTreeMap S.Raw) (s : ℕ × Sm S)
          → All RowView rows
          → IsKept norm S (snapshot_view norm S (get at s.1.store)) V
          → IsKept norm S (snapshot_view norm S (get at (rewrap_rows f S rows s).1.store)) V
      unfolding rewrap_rows
      rewrap_rows-view [] s rows h = h
      rewrap_rows-view ((key, raw) ∷ rest) s (row, rows) h =
          by_case (rewrap_row f S key raw) refl (λ t. rewrap_rows-view rest t rows)
        where
          by_case :
              (r : Result (Option S.Raw))
              → rewrap_row f S key raw ≡ r
              → ((t : ℕ × Sm S)
                  → IsKept norm S (snapshot_view norm S (get at t.1.store)) V
                  → IsKept norm S
                      (snapshot_view norm S (get at (rewrap_rows f S rest t).1.store))
                      V)
              → IsKept norm S
                  (snapshot_view norm S
                    (get at (save_row f S key r (rewrap_rows f S rest) s).1.store))
                  V
          by_case (ok new) e ih = ih (save_raw f S key new s) (save_raw-view key raw new s row e h)
          by_case (err d) e ih = h

      Found-RowView :
          (m : Sm S) (rows : BTreeMap S.Raw)
          → snapshot_view norm S (get at m.store) ≡ V
          → Found m.store rows
          → All RowView rows
      Found-RowView m [] v h = tt
      Found-RowView m ((k, raw) ∷ rows) v (e, h) = (
        λ same.
            sym (ap (snapshot_view norm S) e)
            ∙ ap (λ (z : Bytes). snapshot_view norm S (get z m.store)) ((bytes_eq_iff k at).0 same)
            ∙ v,
        Found-RowView m rows v h,
      )

    -- A rewrap keeps the secrets: where every ciphertext that `f` replaces holds what the old one
    -- held, a run of `rewrap_deks` outside a command over a sorted store leaves every stored
    -- version snapshot, but for the form of its ciphertexts, either as it was or as what one write
    -- and one read make of its floats, also when the run ends with an error.
    pub rewrap_deks-snapshot_view :
        (at : Bytes) (m : Sm S)
        → IsSorted m.store
        → m.pending_ops ≡ []
        → ends_with at (codes "/snap") ≡ true
        → IsKept norm S
            (snapshot_view norm S (get at (rewrap_deks f S m).1.store))
            (snapshot_view norm S (get at m.store))
    unfolding rewrap_deks
    rewrap_deks-snapshot_view at m sorted idle is =
        let V = snapshot_view norm S (get at m.store) in
        let rows : get_prefix_merged [] m ≡ m.store = get_prefix_merged-nil m idle in
        subst
          (λ z. IsKept norm S (snapshot_view norm S (get at (rewrap_rows f S z (0, m)).1.store)) V)
          (sym rows)
          (rewrap_rows-view at is V m.store (0, m)
            (Found-RowView at is V m m.store refl (IsSorted-Found m.store sorted)) (inl refl))

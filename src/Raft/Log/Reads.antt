-- ===== src/Raft/Log/Reads.antt =====
-- What the two reads of the log return.
use defing.Prelude.{
  ℕ, zero, suc, ◌+◌, ◌-◌, ◌≤◌, ◌<◌, List, [], ◌∷◌, ◌++◌, Option, true, false, ◌≡◌, refl, sym, ap,
  ◌∙◌, ◌⊎◌, inl, inr, Bool-cases, arith, Bytes, ltb, leb, ◌==◌, ==_iff, ltb→lt, take, drop, map,
  length, is_empty,
}
use mathlib.Core.Path.{subst}
use defing.BTreeMap.{BTreeMap}
use defing.Error.{Result, ok, and_then, and_then-ok, ok-injective}
use defing.Store.{range_from}
use defing.Raft.Log.{
  log_key, log_index_from_key, first_expected, read_rows, read_entries, limited_rows,
  read_entries_limited, limited_get_log_entries, max_batch_bytes,
}

-- the indices from the first on
abbrev pub indices : ℕ → ℕ → List ℕ
indices first zero = []
indices first (suc n) = first ∷ indices (first + 1) n

-- no row is left, or the next is behind the end
abbrev pub IsPast : {V : Type 0} → ℕ → BTreeMap V → Type 0
IsPast end [] = Unit
IsPast end ((k, v) ∷ rows) = end < log_index_from_key k

abbrev pub total : {V : Type 0} → (V → ℕ) → BTreeMap V → ℕ
total len [] = 0
total len ((k, v) ∷ rows) = len v + total len rows

module _ {V E : Type 0} (de : V → Result E) where
  -- The entries are those of the first rows, whose indices have no hole, and no row is missing.
  abbrev pub IsRead : ℕ → ℕ → BTreeMap V → List E → Type 0
  IsRead end expected rows es =
      (map (λ kv. log_index_from_key kv.0) (take (length es) rows) ≡ indices expected (length es))
      × (map (λ kv. de kv.1) (take (length es) rows) ≡ map ok es)
      × IsPast end (drop (length es) rows)

  IsRead-cons :
      (end expected : ℕ) (k : Bytes) (v : V) (rows : BTreeMap V) (e : E) (es : List E)
      → log_index_from_key k == expected ≡ true
      → de v ≡ ok e
      → IsRead end (log_index_from_key k + 1) rows es
      → IsRead end expected ((k, v) ∷ rows) (e ∷ es)
  IsRead-cons end expected k v rows e es same decoded (is, ds, past) =
      let at_index : log_index_from_key k ≡ expected =
        (==_iff (log_index_from_key k) expected).0 same in
      (
        ap (λ z. log_index_from_key k ∷ z) is ∙ ap (λ i. i ∷ indices (i + 1) (length es)) at_index,
        ap (λ r. r ∷ map (λ kv. de kv.1) (take (length es) rows)) decoded ∙ ap (λ z. ok e ∷ z) ds,
        past,
      )

  -- the ways in which a row is read: it is behind the end, or it is the next and is decoded
  read_rows-cons :
      (end expected : ℕ) (k : Bytes) (v : V) (rows : BTreeMap V) {es : List E}
      → read_rows de end expected ((k, v) ∷ rows) ≡ ok es
      → ((ltb end (log_index_from_key k) ≡ true) × ([] ≡ es))
        ⊎ ((e : E) × (es' : List E) × (ltb end (log_index_from_key k) ≡ false)
            × (log_index_from_key k == expected ≡ true)
            × (de v ≡ ok e)
            × (read_rows de end (log_index_from_key k + 1) rows ≡ ok es')
            × (e ∷ es' ≡ es))
  unfolding read_rows
  read_rows-cons end expected k v rows {es} h = elim (Bool-cases (ltb end (log_index_from_key k))) [
    | inl past ↦ inl (past, ok-injective (rw past at h))
    | inr inside ↦ elim (Bool-cases (log_index_from_key k == expected)) [
      | inl same ↦
          (let (e, decoded, h1) =
              and_then-ok (de v)
                (λ x.
                  and_then (read_rows de end (log_index_from_key k + 1) rows) (λ xs. ok (x ∷ xs)))
                (rw (inside, same) at h) in
            let (es', read, h2) =
              and_then-ok (read_rows de end (log_index_from_key k + 1) rows) (λ xs. ok (e ∷ xs))
                h1 in
            inr (e, es', inside, same, decoded, read, ok-injective h2))
      | inr other ↦ (let refused = rw (inside, other) at h in cc)
    ]
  ]

  pub read_rows-IsRead :
      (end expected : ℕ) (rows : BTreeMap V) {es : List E}
      → read_rows de end expected rows ≡ ok es
      → IsRead end expected rows es
  unfolding read_rows
  read_rows-IsRead end expected [] {es} h =
      subst (IsRead end expected []) (ok-injective h) (refl, refl, tt)
  read_rows-IsRead end expected ((k, v) ∷ rows) {es} h =
      elim (read_rows-cons end expected k v rows h) [
        | inl (past, none_read) ↦
            subst (IsRead end expected ((k, v) ∷ rows)) none_read
              (refl, refl, ltb→lt end (log_index_from_key k) past)
        | inr (e, es', inside, same, decoded, read, split) ↦
            subst (IsRead end expected ((k, v) ∷ rows)) split (
              IsRead-cons end expected k v rows e es' same decoded
                (read_rows-IsRead end (log_index_from_key k + 1) rows read))
      ]

  -- `read_entries` returns the entries behind one another and without a hole, up to the end.
  pub read_entries-IsRead :
      (purged : Option ℕ) (table : BTreeMap V) (start end : ℕ) (es : List E)
      → read_entries de purged table start end ≡ ok es
      → IsRead end (first_expected purged start) (range_from (log_key start) table) es
  unfolding read_entries
  read_entries-IsRead purged table start end es h =
      read_rows-IsRead end (first_expected purged start) (range_from (log_key start) table) h

  module _ (len : V → ℕ) (end cap : ℕ) where
    fits_cons :
        (acc : ℕ) (v : V) (rows : BTreeMap V) (n : ℕ)
        → ltb cap (acc + len v) ≡ false
        → (n ≡ 0) ⊎ (acc + len v + total len (take n rows) ≤ cap)
        → acc + (len v + total len (take n rows)) ≤ cap
    fits_cons acc v rows n under (inl h) = rw h (ground arith)
    fits_cons acc v rows n under (inr h) = omega arith

    -- what the limited read returns of what the other one does, behind a first entry
    more_rows :
        (acc expected : ℕ) (rows : BTreeMap V) {es : List E}
        → read_rows de end expected rows ≡ ok es
        → (batch : List E) × (rest : List E) × (limited_rows de len end cap acc false expected rows
            ≡ ok batch)
          × (es ≡ batch ++ rest)
          × ((length batch ≡ 0) ⊎ (acc + total len (take (length batch) rows) ≤ cap))
    unfolding read_rows limited_rows
    more_rows acc expected [] {es} h = ([], es, refl, refl, inl refl)
    more_rows acc expected ((k, v) ∷ rows) {es} h = elim (read_rows-cons end expected k v rows h) [
      | inl (past, none_read) ↦ ([], es, rw past refl, refl, inl refl)
      | inr (e, es', inside, same, decoded, read, split) ↦
          elim (Bool-cases (ltb cap (acc + len v))) [
            | inl over ↦ ([], es, rw (inside, same, over) refl, refl, inl refl)
            | inr under ↦
                (let (batch, rest, taken, es'_split, fits) =
                    more_rows (acc + len v) (log_index_from_key k + 1) rows read in
                  (
                    e ∷ batch,
                    rest,
                    rw (inside, same, under, decoded, taken) refl,
                    sym split ∙ ap (λ z. e ∷ z) es'_split,
                    inr (fits_cons acc v rows (length batch) under fits),
                  ))
          ]
    ]

    -- one entry, or no more bytes than the cap
    abbrev pub IsCapped : BTreeMap V → List E → Type 0
    IsCapped rows batch = (length batch ≤ 1) ⊎ (total len (take (length batch) rows) ≤ cap)

    first_row :
        (expected : ℕ) (rows : BTreeMap V) {es : List E}
        → read_rows de end expected rows ≡ ok es
        → (batch : List E) × (rest : List E) × (limited_rows de len end cap 0 true expected rows
            ≡ ok batch)
          × (es ≡ batch ++ rest)
          × ((es ≡ []) ⊎ (is_empty batch ≡ false))
          × IsCapped rows batch
    unfolding read_rows limited_rows
    first_row expected [] {es} h =
        ([], es, refl, refl, inl (sym (ok-injective h)), inl (omega arith))
    first_row expected ((k, v) ∷ rows) {es} h = elim (read_rows-cons end expected k v rows h) [
      | inl (past, none_read) ↦ ([], es, rw past refl, refl, inl (sym none_read), inl (omega arith))
      | inr (e, es', inside, same, decoded, read, split) ↦
          (let (batch, rest, taken, es'_split, fits) =
              more_rows (0 + len v) (log_index_from_key k + 1) rows read in
            (
              e ∷ batch,
              rest,
              rw (inside, same, decoded, taken) refl,
              sym split ∙ ap (λ z. e ∷ z) es'_split,
              inr refl,
              capped v rows batch e fits,
            ))
    ]
      where
        capped :
            (v : V) (rows : BTreeMap V) (batch : List E) (e : E)
            → (length batch ≡ 0) ⊎ (0 + len v + total len (take (length batch) rows) ≤ cap)
            → (length (e ∷ batch) ≤ 1) ⊎ (len v + total len (take (length batch) rows) ≤ cap)
        capped v rows batch e (inl h) = inl (omega arith)
        capped v rows batch e (inr h) = inr (omega arith)

  -- the batch that replication gets of the entries `es` that are there
  abbrev pub IsBatch : (V → ℕ) → BTreeMap V → List E → List E → Type 0
  IsBatch len rows es batch =
      (rest : List E) × (es ≡ batch ++ rest)
      × ((es ≡ []) ⊎ (is_empty batch ≡ false))
      × ((length batch ≤ 1) ⊎ (total len (take (length batch) rows) ≤ max_batch_bytes))

  -- Replication always advances: where the log can be read from a start up to below an end, the
  -- entries read are those of the rows from the start on, decoded, with indices one behind the
  -- other from the first that is expected and with no row left that is not behind the end; and the
  -- read that is limited in bytes then succeeds with a beginning of them, which is empty only if
  -- they are, and which has at most one entry or rows of at most 6 MiB together.
  pub limited_get_log_entries-IsBatch :
      (len : V → ℕ) (purged : Option ℕ) (table : BTreeMap V) (start end : ℕ) (es : List E)
      → start < end
      → read_entries de purged table start (end - 1) ≡ ok es
      → (batch : List E) × (limited_get_log_entries de len purged table start end ≡ ok batch)
        × IsBatch len (range_from (log_key start) table) es batch
        × IsRead (end - 1) (first_expected purged start) (range_from (log_key start) table) es
  unfolding limited_get_log_entries read_entries_limited read_entries
  limited_get_log_entries-IsBatch len purged table start end es h read =
      let rows = range_from (log_key start) table in
      let (batch, rest, taken, split, filled, capped) =
        first_row len (end - 1) max_batch_bytes (first_expected purged start) rows read in
      (
        batch,
        rw (before h) taken,
        (rest, split, filled, capped),
        read_entries-IsRead purged table start (end - 1) es read,
      )
    where
      before : {m n : ℕ} → m < n → leb n m ≡ false
      before h = ground arith

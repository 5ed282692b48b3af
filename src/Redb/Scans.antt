-- ===== src/Redb/Scans.antt =====
-- What a read of the store on disk returns is what the store in memory returns.
use defing.Prelude.{
  ℕ, ◌+◌, true, false, List, [], ◌∷◌, Option, none, some, ◌≡◌, refl, ap, sym, ◌∙◌, arith, Bytes,
  map, starts_with, bytes_lt, bytes_eq_iff, bytes_lt_total, bytes_lt_trans, leb, max, length,
  if◌then◌else◌, Bool-cases, inl, inr,
}
use mathlib.Core.Option
use mathlib.Core.Path.{subst}
use defing.BTreeMap
use defing.BTreeMap.{BTreeMap}
use defing.BTreeMap.Order.{IsSorted, Above, Above-trans}
use defing.Error.{Result, ok, err, and_then, and_then-ok, ok-injective}
use defing.Store
use defing.Store.{range_from, take_prefix, page_rows, rows_after}
use defing.Store.Prefix.{past_prefix, starts_with-bytes_lt, take_prefix-Above, range_from-IsSorted}
use defing.Snapshots.Pages.{rows_after-Above}
use defing.Redb.{
  Redb, Yields, get, scan_prefix, get_prefix, scan_keys, get_prefix_keys, not_after, scan_page,
  get_prefix_page,
}

module _ {R : Type 0} (X : Redb R) where
  -- what is behind a row, put behind it
  abbrev pushed : {A : Type 0} → A → Result (List A) → Result (List A)
  pushed a rest = and_then rest (λ as'. ok (a ∷ as'))

  scan_prefix-take_prefix :
      (prefix : Bytes) (entries : List (Result (Bytes × R))) (rows out : BTreeMap R)
      → Yields entries rows
      → scan_prefix X prefix entries ≡ ok out
      → out ≡ take_prefix prefix rows
  unfolding scan_prefix take_prefix
  scan_prefix-take_prefix prefix [] [] out y h = sym (ok-injective h)
  scan_prefix-take_prefix prefix [] (row ∷ rows) out y h = elim y [ ]
  scan_prefix-take_prefix prefix (ok entry ∷ entries) [] out y h = elim y [ ]
  scan_prefix-take_prefix prefix (err e ∷ entries) rows out y h = cc
  scan_prefix-take_prefix prefix (ok (k, v) ∷ entries) (row ∷ rows) out (same, y) h =
      subst (λ z. out ≡ take_prefix prefix (z ∷ rows)) same
        (elim (Bool-cases (starts_with k prefix)) [
          | inl has ↦
              let (rest, p, q) = and_then-ok (scan_prefix X prefix entries) _ (rw has at h) in
              rw has (
                sym (ok-injective q)
                ∙ ap (λ (z : BTreeMap R). (k, v) ∷ z)
                    (scan_prefix-take_prefix prefix entries rows rest y p))
          | inr lacks ↦ rw lacks (sym (ok-injective (rw lacks at h)))
        ])

  scan_keys-take_prefix :
      (prefix : Bytes) (entries : List (Result (Bytes × R))) (rows : BTreeMap R) (out : List Bytes)
      → Yields entries rows
      → scan_keys X prefix entries ≡ ok out
      → out ≡ map (λ kv. kv.0) (take_prefix prefix rows)
  unfolding scan_keys take_prefix
  scan_keys-take_prefix prefix [] [] out y h = sym (ok-injective h)
  scan_keys-take_prefix prefix [] (row ∷ rows) out y h = elim y [ ]
  scan_keys-take_prefix prefix (ok entry ∷ entries) [] out y h = elim y [ ]
  scan_keys-take_prefix prefix (err e ∷ entries) rows out y h = cc
  scan_keys-take_prefix prefix (ok (k, v) ∷ entries) (row ∷ rows) out (same, y) h =
      subst (λ z. out ≡ map (λ kv. kv.0) (take_prefix prefix (z ∷ rows))) same
        (elim (Bool-cases (starts_with k prefix)) [
          | inl has ↦
              let (rest, p, q) = and_then-ok (scan_keys X prefix entries) _ (rw has at h) in
              rw has (
                sym (ok-injective q)
                ∙ ap (λ (z : List Bytes). k ∷ z)
                    (scan_keys-take_prefix prefix entries rows rest y p))
          | inr lacks ↦ rw lacks (sym (ok-injective (rw lacks at h)))
        ])

  take_prefix-empty : (p : Bytes) → take_prefix {R = R} p [] ≡ []
  unfolding take_prefix
  take_prefix-empty p = refl

  take_prefix-has :
      (p k : Bytes) (v : R) (rows : BTreeMap R)
      → starts_with k p ≡ true
      → take_prefix p ((k, v) ∷ rows) ≡ (k, v) ∷ take_prefix p rows
  unfolding take_prefix
  take_prefix-has p k v rows h = rw h refl

  take_prefix-lacks :
      (p k : Bytes) (v : R) (rows : BTreeMap R)
      → starts_with k p ≡ false
      → take_prefix p ((k, v) ∷ rows) ≡ []
  unfolding take_prefix
  take_prefix-lacks p k v rows h = rw h refl

  module _ (len : R → ℕ) where
    rows_after-nil : (after : Option Bytes) → rows_after len after [] ≡ []
    unfolding rows_after
    rows_after-nil none = refl
    rows_after-nil (some a) = refl

    -- a row at or before the cursor is dropped
    rows_after-drop :
        (after : Option Bytes) (k : Bytes) (v : R) (rows : BTreeMap R)
        → not_after X len after k ≡ true
        → rows_after len after ((k, v) ∷ rows) ≡ rows_after len after rows
    unfolding rows_after
    rows_after-drop none k v rows h = absurd (ground (arith, h))
    rows_after-drop (some a) k v rows h = rw h refl

    -- from a row behind the cursor on none is
    rows_after-keep :
        (after : Option Bytes) (k : Bytes) (rows : BTreeMap R)
        → not_after X len after k ≡ false
        → Above k rows
        → rows_after len after rows ≡ rows
    rows_after-keep none k rows h above = unfold rows_after in refl
    rows_after-keep (some a) k rows h above = rows_after-Above len a rows (
        Above-trans a k rows
          (ground (arith, h, bytes_lt_total k a, bytes_eq_iff k a, bytes_eq_iff a k)) above)

    rows_after-keep_row :
        (after : Option Bytes) (k : Bytes) (v : R) (rows : BTreeMap R)
        → not_after X len after k ≡ false
        → rows_after len after ((k, v) ∷ rows) ≡ (k, v) ∷ rows
    unfolding rows_after
    rows_after-keep_row none k v rows h = refl
    rows_after-keep_row (some a) k v rows h = rw h refl

    page_of : Option Bytes → ℕ → ℕ → BTreeMap R → BTreeMap R
    page_of after budget bytes rows = page_rows len (rows_after len after rows) budget bytes

    page_of-nil : (after : Option Bytes) (budget bytes : ℕ) → page_of after budget bytes [] ≡ []
    unfolding page_of
    page_of-nil after budget bytes = rw rows_after-nil (unfold page_rows in refl)

    page_of-drop :
        (after : Option Bytes) (budget bytes : ℕ) (k : Bytes) (v : R) (rows : BTreeMap R)
        → not_after X len after k ≡ true
        → page_of after budget bytes ((k, v) ∷ rows) ≡ page_of after budget bytes rows
    unfolding page_of
    page_of-drop after budget bytes k v rows h =
        ap (λ z. page_rows len z budget bytes) (rows_after-drop after k v rows h)

    page_of-keep :
        (after : Option Bytes) (budget bytes : ℕ) (k : Bytes) (v : R) (rows : BTreeMap R)
        → not_after X len after k ≡ false
        → Above k rows
        → page_of after budget bytes ((k, v) ∷ rows) ≡ (
            if leb (max budget 1) (bytes + (length k + len v))
            then (k, v) ∷ []
            else (k, v) ∷ page_of after budget (bytes + (length k + len v)) rows)
    unfolding page_of
    page_of-keep after budget bytes k v rows h above =
        rw (rows_after-keep_row after k v rows h, rows_after-keep after k rows h above)
          (unfold page_rows in refl)

    -- one row of the loop, given what the loop does behind it
    scan_page-row :
        (prefix : Bytes) (after : Option Bytes) (budget bytes : ℕ) (k : Bytes) (v : R)
        (entries : List (Result (Bytes × R))) (rows out : BTreeMap R)
        → ((b : ℕ) (o : BTreeMap R)
            → scan_page X len prefix after budget b entries ≡ ok o
            → o ≡ page_of after budget b (take_prefix prefix rows))
        → Above k rows
        → scan_page X len prefix after budget bytes (ok (k, v) ∷ entries) ≡ ok out
        → out ≡ page_of after budget bytes (take_prefix prefix ((k, v) ∷ rows))
    unfolding scan_page
    scan_page-row prefix after budget bytes k v entries rows out ih above h =
        let total = bytes + (length k + len v) in
        elim (Bool-cases (starts_with k prefix)) [
          | inr lacks ↦
              rw (take_prefix-lacks prefix k v rows lacks)
                (sym (ok-injective (rw lacks at h)) ∙ sym (page_of-nil after budget bytes))
          | inl has ↦
              rw (take_prefix-has prefix k v rows has)
                (elim (Bool-cases (not_after X len after k)) [
                  | inl old ↦
                      ih bytes out (rw old at (rw has at h))
                      ∙ sym (page_of-drop after budget bytes k v (take_prefix prefix rows) old)
                  | inr new ↦
                      last_test (rw new at (rw has at h))
                      ∙ sym (
                          page_of-keep after budget bytes k v (take_prefix prefix rows) new
                            (take_prefix-Above prefix k rows above))
                ])
        ]
      where
        last_test :
            (if leb (max budget 1) (bytes + (length k + len v))
                then ok ((k, v) ∷ [])
                else and_then
                    (scan_page X len prefix after budget (bytes + (length k + len v)) entries)
                    (λ rest. ok ((k, v) ∷ rest)))
              ≡ ok out
            → out ≡ (
                if leb (max budget 1) (bytes + (length k + len v))
                then (k, v) ∷ []
                else (k, v)
                  ∷ page_of after budget (bytes + (length k + len v)) (take_prefix prefix rows))
        last_test e =
            let total = bytes + (length k + len v) in
            elim (Bool-cases (leb (max budget 1) total)) [
              | inl full ↦ rw full (sym (ok-injective (rw full at e)))
              | inr more ↦
                  let (rest, p, q) =
                    and_then-ok (scan_page X len prefix after budget total entries) _
                      (rw more at e) in
                  rw more
                    (sym (ok-injective q) ∙ ap (λ (z : BTreeMap R). (k, v) ∷ z) (ih total rest p))
            ]

    scan_page-page_of :
        (prefix : Bytes) (after : Option Bytes) (budget bytes : ℕ)
        (entries : List (Result (Bytes × R))) (rows out : BTreeMap R)
        → IsSorted rows
        → Yields entries rows
        → scan_page X len prefix after budget bytes entries ≡ ok out
        → out ≡ page_of after budget bytes (take_prefix prefix rows)
    unfolding scan_page
    scan_page-page_of prefix after budget bytes [] [] out s y h =
        sym (ok-injective h)
        ∙ sym (
            ap (page_of after budget bytes) (take_prefix-empty prefix)
            ∙ page_of-nil after budget bytes)
    scan_page-page_of prefix after budget bytes [] (row ∷ rows) out s y h = elim y [ ]
    scan_page-page_of prefix after budget bytes (ok entry ∷ entries) [] out s y h = elim y [ ]
    scan_page-page_of prefix after budget bytes (err e ∷ entries) rows out s y h = cc
    scan_page-page_of prefix after budget bytes (ok (k, v) ∷ entries) (row ∷ rows) out (a, s)
          (same, y) h =
        subst
          (λ z. Above z.0 rows → out ≡ page_of after budget bytes (take_prefix prefix (z ∷ rows)))
          same
          (λ above.
            scan_page-row prefix after budget bytes k v entries rows out
              (λ b o. scan_page-page_of prefix after budget b entries rows o s y) above h)
          a

    range_from-below :
        (start k : Bytes) (v : R) (s : BTreeMap R)
        → bytes_lt k start ≡ true
        → range_from start ((k, v) ∷ s) ≡ range_from start s
    unfolding range_from
    range_from-below start k v s h = rw h refl

    range_from-from :
        (start k : Bytes) (v : R) (s : BTreeMap R)
        → bytes_lt k start ≡ false
        → range_from start ((k, v) ∷ s) ≡ (k, v) ∷ s
    unfolding range_from
    range_from-from start k v s h = rw h refl

    range_from-Above :
        (start k : Bytes) (s : BTreeMap R)
        → bytes_lt k start ≡ false
        → Above k s
        → range_from start s ≡ s
    range_from-Above start k [] h above = unfold range_from in refl
    range_from-Above start k ((j, w) ∷ s) h (lt, above) =
        range_from-from start j w s (elim (Bool-cases (bytes_lt j start)) [
          | inl below ↦ ground (arith, bytes_lt_trans k j start lt below)
          | inr from ↦ from
        ])

    -- between a text from the prefix on and one with the prefix there are none without it
    starts_with-between :
        (p k a : Bytes)
        → bytes_lt k p ≡ false
        → bytes_lt k a ≡ true
        → starts_with a p ≡ true
        → starts_with k p ≡ true
    starts_with-between p k a from before h = elim (Bool-cases (starts_with k p)) [
      | inl has ↦ has
      | inr lacks ↦ ground (arith, past_prefix k a p from lacks before)
    ]

    -- a text from one with the prefix on is from the prefix on
    from_cursor :
        (p k a : Bytes) → bytes_lt k a ≡ false → starts_with a p ≡ true → bytes_lt k p ≡ false
    from_cursor p k a behind h = elim (Bool-cases (bytes_lt k p)) [
      | inr from ↦ from
      | inl below ↦ ground (
        arith,
        starts_with-bytes_lt a p h,
        bytes_lt_total k a behind,
        bytes_eq_iff k a,
        bytes_lt_trans a k p,
      )
    ]

    -- the scan from the cursor on, and the scan from the prefix on, behind the cursor
    rows_after-cursor :
        (p a : Bytes) (s : BTreeMap R)
        → IsSorted s
        → starts_with a p ≡ true
        → rows_after len (some a) (take_prefix p (range_from a s))
          ≡ rows_after len (some a) (take_prefix p (range_from p s))
    rows_after-cursor p a [] sorted h = unfold range_from in refl
    rows_after-cursor p a ((k, v) ∷ s) (above, sorted) h = elim (Bool-cases (bytes_lt k a)) [
      | inl before ↦ elim (Bool-cases (bytes_lt k p)) [
        | inl below ↦
            rw (range_from-below a k v s before, range_from-below p k v s below)
              (rows_after-cursor p a s sorted h)
        | inr from ↦
            ap (λ z. rows_after len (some a) (take_prefix p z)) (range_from-below a k v s before)
            ∙ rows_after-cursor p a s sorted h
            ∙ ap (λ z. rows_after len (some a) (take_prefix p z))
                (range_from-Above p k s from above)
            ∙ sym (
                ap (λ z. rows_after len (some a) (take_prefix p z)) (range_from-from p k v s from)
                ∙ ap (rows_after len (some a))
                    (take_prefix-has p k v s (starts_with-between p k a from before h))
                ∙ rows_after-drop (some a) k v (take_prefix p s) (ground (arith, before)))
      ]
      | inr behind ↦
          rw (range_from-from a k v s behind, range_from-from p k v s (from_cursor p k a behind h))
            refl
    ]

  page_rows-cursor :
      (len : R → ℕ) (prefix : Bytes) (after : Option Bytes) (budget : ℕ) (s : BTreeMap R)
      → IsSorted s
      → starts_with (Option.get_or after prefix) prefix ≡ true
      → page_of len after budget 0 (take_prefix prefix (range_from (Option.get_or after prefix) s))
        ≡ Store.get_prefix_page len s prefix after budget
  unfolding page_of Store.get_prefix_page Store.get_prefix
  page_rows-cursor len prefix none budget s sorted h = refl
  page_rows-cursor len prefix (some a) budget s sorted h =
      ap (λ z. page_rows len z budget 0) (rows_after-cursor len prefix a s sorted h)

  -- the rows that a range runs over are those of the database
  range-rows :
      {A : Type 0} (db : X.Db) (start : Bytes) (scan : List (Result (Bytes × R)) → Result A) (a : A)
      → and_then (X.begin_read db) (λ t. and_then (X.range start t) scan) ≡ ok a
      → (entries : List (Result (Bytes × R))) × Yields entries (range_from start (X.rows db))
        × (scan entries ≡ ok a)
  range-rows db start scan a h =
      let (t, begun, ran) = and_then-ok (X.begin_read db) _ h in
      let (entries, there, scanned) = and_then-ok (X.range start t) scan ran in
      (
        entries,
        subst (λ z. Yields entries (range_from start z)) (X.begin_read-ok db t begun)
            (X.range-ok start t entries there),
        scanned,
      )

  -- Every read of the store on disk that succeeds returns what the store in memory returns: the
  -- value of a key, the rows and the keys under a prefix, and, over a sorted store and behind a
  -- cursor that has the prefix or at the beginning, a page.
  pub reads-agree :
      (len : R → ℕ) (key prefix : Bytes) (after : Option Bytes) (budget : ℕ) (db : X.Db)
      (v : Option R) (rows page : BTreeMap R) (keys : List Bytes)
      → IsSorted (X.rows db)
      → starts_with (Option.get_or after prefix) prefix ≡ true
      → get X key db ≡ ok v
      → get_prefix X prefix db ≡ ok rows
      → get_prefix_keys X prefix db ≡ ok keys
      → get_prefix_page X len prefix after budget db ≡ ok page
      → (v ≡ BTreeMap.get key (X.rows db))
        × (rows ≡ Store.get_prefix (X.rows db) prefix)
        × (keys ≡ Store.get_prefix_keys (X.rows db) prefix)
        × (page ≡ Store.get_prefix_page len (X.rows db) prefix after budget)
  unfolding get get_prefix get_prefix_keys get_prefix_page Store.get_prefix Store.get_prefix_keys
  reads-agree len key prefix after budget db v rows page keys sorted cursor a b c d =
      let (t, begun, got) = and_then-ok (X.begin_read db) (X.table_get key) a in
      let (es, es_rows, es_done) = range-rows db prefix (scan_prefix X prefix) rows b in
      let (ks, ks_rows, ks_done) = range-rows db prefix (scan_keys X prefix) keys c in
      let start = Option.get_or after prefix in
      let (ps, ps_rows, ps_done) =
        range-rows db start (scan_page X len prefix after budget 0) page d in
      (
        X.table_get-ok key t v got ∙ ap (BTreeMap.get key) (X.begin_read-ok db t begun),
        scan_prefix-take_prefix prefix es (range_from prefix (X.rows db)) rows es_rows es_done,
        scan_keys-take_prefix prefix ks (range_from prefix (X.rows db)) keys ks_rows ks_done,
        scan_page-page_of len prefix after budget 0 ps (range_from start (X.rows db)) page
              (range_from-IsSorted start (X.rows db) sorted) ps_rows ps_done
            ∙ page_rows-cursor len prefix after budget (X.rows db) sorted cursor,
      )

-- ===== src/Snapshots/Pages.antt =====
-- The pages of a dump are the store, cut into pieces.
use defing.Prelude.{
  ℕ, zero, suc, ◌+◌, ◌<◌, true, false, List, [], ◌∷◌, ◌++◌, Option, none, some, ◌≡◌, refl, ap, sym,
  ◌∙◌, arith, Bytes, append_assoc, length, length-append, leb, max, bytes_lt, bytes_lt_irrefl,
  bytes_lt_asym, bytes_eq_refl, Bool, ◌||◌, bytes_eq_iff, starts_with, Bool-cases, inl, inr,
}
use mathlib.Core.Option
use mathlib.Core.Path.{subst}
use defing.BTreeMap.{BTreeMap}
use defing.BTreeMap.Order.{IsSorted, Above}
use defing.Machine.{Machine}
use defing.Store.{get_prefix, range_from, take_prefix, page_rows, rows_after, get_prefix_page}
use defing.Snapshots.{DumpBatches, last_key, concat, turn, follow, next, drain, dump_batches}

pub concat-cons :
    {A : Type 0} (xs : List A) (xss : List (List A)) → concat (xs ∷ xss) ≡ xs ++ concat xss
unfolding concat
concat-cons xs xss = refl

module _ {R : Type 0} where
  range_from-nil : (s : BTreeMap R) → range_from [] s ≡ s
  unfolding range_from bytes_lt
  range_from-nil [] = refl
  range_from-nil (([], v) ∷ s) = refl
  range_from-nil ((c ∷ k, v) ∷ s) = refl

  take_prefix-nil : (s : BTreeMap R) → take_prefix [] s ≡ s
  unfolding take_prefix starts_with
  take_prefix-nil [] = refl
  take_prefix-nil (([], v) ∷ s) = ap (λ z. ([], v) ∷ z) (take_prefix-nil s)
  take_prefix-nil ((c ∷ k, v) ∷ s) = ap (λ z. (c ∷ k, v) ∷ z) (take_prefix-nil s)

  -- every key has the empty prefix
  pub get_prefix-nil : (s : BTreeMap R) → get_prefix s [] ≡ s
  unfolding get_prefix
  get_prefix-nil s = rw range_from-nil (take_prefix-nil s)

  pub last_key-append :
      (xs : BTreeMap R) (k : Bytes) (v : R) → last_key (xs ++ (k, v) ∷ []) ≡ some k
  unfolding last_key
  last_key-append [] k v = refl
  last_key-append (kv ∷ []) k v = refl
  last_key-append (kv ∷ kw ∷ xs) k v = last_key-append (kw ∷ xs) k v

  pub Above-append :
      (j k : Bytes) (v : R) (xs ys : BTreeMap R) → Above j (xs ++ (k, v) ∷ ys) → bytes_lt j k ≡ true
  Above-append j k v [] ys (h, a) = h
  Above-append j k v ((i, w) ∷ xs) ys (h, a) = Above-append j k v xs ys a

  module _ (len : R → ℕ) where
    pub rows_after-Above : (k : Bytes) (s : BTreeMap R) → Above k s → rows_after len (some k) s ≡ s
    unfolding rows_after
    rows_after-Above k [] a = refl
    rows_after-Above k ((j, w) ∷ s) (h, a) =
        ground (arith, bytes_eq_iff j k, bytes_lt_irrefl k, bytes_lt_asym k j h)

    -- behind a key of the store are the rows behind it
    rows_after-append :
        (xs : BTreeMap R) (k : Bytes) (v : R) (rest : BTreeMap R)
        → IsSorted (xs ++ (k, v) ∷ rest)
        → rows_after len (some k) (xs ++ (k, v) ∷ rest) ≡ rest
    unfolding rows_after
    rows_after-append [] k v rest (a, s) = rw bytes_eq_refl (rw or_true (rows_after-Above k rest a))
      where
        or_true : (b : Bool) → (b || true) ≡ true
        or_true true = refl
        or_true false = refl
    rows_after-append ((j, w) ∷ xs) k v rest (a, s) =
        rw (Above-append j k v xs rest a) (rows_after-append xs k v rest s)

  -- a page takes the rows up to one of them
  abbrev Cut : BTreeMap R → BTreeMap R → Type 0
  Cut ys page =
      (init : BTreeMap R) × (k : Bytes) × (v : R) × (rest : BTreeMap R) × (page
        ≡ init ++ (k, v) ∷ [])
      × (ys ≡ init ++ (k, v) ∷ rest)

  Cut-one : (k : Bytes) (v : R) (ys : BTreeMap R) → Cut ((k, v) ∷ ys) ((k, v) ∷ [])
  Cut-one k v ys = ([], k, v, ys, refl, refl)

  page_rows-nil : (len : R → ℕ) (budget : ℕ) → page_rows len [] budget 0 ≡ []
  unfolding page_rows
  page_rows-nil len budget = refl

  page_rows-Cut :
      (len : R → ℕ) (k : Bytes) (v : R) (ys : BTreeMap R) (budget bytes : ℕ)
      → Cut ((k, v) ∷ ys) (page_rows len ((k, v) ∷ ys) budget bytes)
  unfolding page_rows
  page_rows-Cut len k v [] budget bytes =
      elim (Bool-cases (leb (max budget 1) (bytes + (length k + len v)))) [
        | inl full ↦ rw full (Cut-one k v [])
        | inr more ↦ rw more (Cut-one k v [])
      ]
  page_rows-Cut len k v ((j, w) ∷ ys) budget bytes =
      elim (Bool-cases (leb (max budget 1) (bytes + (length k + len v)))) [
        | inl full ↦ rw full (Cut-one k v ((j, w) ∷ ys))
        | inr more ↦
            let (init, k', v', rest, p, q) =
              page_rows-Cut len j w ys budget (bytes + (length k + len v)) in
            rw more (
              (k, v) ∷ init,
              k',
              v',
              rest,
              ap (λ (z : BTreeMap R). (k, v) ∷ z) p,
              ap (λ (z : BTreeMap R). (k, v) ∷ z) q,
            )
      ]

  module _ (len : R → ℕ) (budget : ℕ) (m : Machine R) (sorted : IsSorted m.store) where
    -- the iterator behind `after`
    abbrev at : Option Bytes → DumpBatches
    at after = record { after = after; done = false }

    turn-append :
        (init : BTreeMap R) (k : Bytes) (v : R) (after : Option Bytes)
        → turn (init ++ (k, v) ∷ []) (at after) ≡ (some (init ++ (k, v) ∷ []), at (some k))
    turn-append [] k v after = unfold last_key in refl
    turn-append (kv ∷ init) k v after =
        ap (λ z. (some ((kv ∷ init) ++ (k, v) ∷ []), at z)) (last_key-append (kv ∷ init) k v)

    next-at :
        (after : Option Bytes) (ys : BTreeMap R)
        → rows_after len after m.store ≡ ys
        → next len budget m (at after) ≡ turn (page_rows len ys budget 0) (at after)
    unfolding next get_prefix_page
    next-at after ys h = rw get_prefix-nil (ap (λ z. turn (page_rows len z budget 0) (at after)) h)

    drain-follow :
        (fuel : ℕ) (it : DumpBatches)
        → drain len (suc fuel) budget m it ≡ follow (next len budget m it) (drain len fuel budget m)
    unfolding drain
    drain-follow fuel it = refl

    drain-page :
        (fuel : ℕ) (after : Option Bytes) (ys init : BTreeMap R) (k : Bytes) (v : R)
        → rows_after len after m.store ≡ ys
        → page_rows len ys budget 0 ≡ init ++ (k, v) ∷ []
        → drain len (suc fuel) budget m (at after)
          ≡ Option.map
              (λ pages. (init ++ (k, v) ∷ []) ∷ pages)
              (drain len fuel budget m (at (some k)))
    drain-page fuel after ys init k v h p =
        drain-follow fuel (at after)
        ∙ ap (λ z. follow z (drain len fuel budget m))
            (next-at after ys h ∙ ap (λ z. turn z (at after)) p ∙ turn-append init k v after)

    rows_after-split :
        (pre : BTreeMap R) (k : Bytes) (v : R) (rest : BTreeMap R)
        → m.store ≡ pre ++ (k, v) ∷ rest
        → rows_after len (some k) m.store ≡ rest
    rows_after-split pre k v rest e =
        ap (rows_after len (some k)) e
        ∙ rows_after-append len pre k v rest (subst IsSorted e sorted)

    -- The pages from where `ys` is left are `ys`, if there is a round for each of its rows and one.
    drain-concat :
        (fuel : ℕ) (pre ys : BTreeMap R) (after : Option Bytes)
        → m.store ≡ pre ++ ys
        → rows_after len after m.store ≡ ys
        → length ys < fuel
        → (pages : List (BTreeMap R)) × (drain len fuel budget m (at after) ≡ some pages)
          × (concat pages ≡ ys)
    drain-concat zero pre ys after e h lt = absurd (omega arith)
    drain-concat (suc fuel) pre [] after e h lt = (
      [],
      drain-follow fuel (at after)
          ∙ ap (λ z. follow z (drain len fuel budget m))
              (next-at after [] h ∙ ap (λ z. turn z (at after)) (page_rows-nil len budget)),
      unfold concat in refl,
    )
    drain-concat (suc fuel) pre ((k, v) ∷ ys) after e h lt =
        let (init, k', v', rest, p, q) = page_rows-Cut len k v ys budget 0 in
        let split : m.store ≡ (pre ++ init) ++ (k', v') ∷ rest =
          e ∙ ap (λ (z : BTreeMap R). pre ++ z) q ∙ sym (append_assoc pre init ((k', v') ∷ rest)) in
        let (pages, run, all) =
          drain-concat fuel ((pre ++ init) ++ (k', v') ∷ []) rest (some k')
            (split ∙ sym (append_assoc (pre ++ init) ((k', v') ∷ []) rest))
            (rows_after-split (pre ++ init) k' v' rest split)
            (omega (arith, ap length q, length-append init ((k', v') ∷ rest))) in
        (
          (init ++ (k', v') ∷ []) ∷ pages,
          drain-page fuel after ((k, v) ∷ ys) init k' v' h p
              ∙ ap (Option.map (λ pages. (init ++ (k', v') ∷ []) ∷ pages)) run,
          concat-cons (init ++ (k', v') ∷ []) pages
              ∙ ap (λ (z : BTreeMap R). (init ++ (k', v') ∷ []) ++ z) all
              ∙ append_assoc init ((k', v') ∷ []) rest
              ∙ sym q,
        )

-- The dump ends, and its pages are the store: over a sorted store, one call of `next` for each of
-- its rows and one are enough for the iterator to end, whatever the budget of a page, and the pages
-- behind one another are all rows of the store, in order.
pub dump_batches-concat :
    {R : Type 0} (len : R → ℕ) (fuel budget : ℕ) (m : Machine R)
    → IsSorted m.store
    → length m.store < fuel
    → (pages : List (BTreeMap R)) × (dump_batches len fuel budget m ≡ some pages)
      × (concat pages ≡ m.store)
unfolding dump_batches
dump_batches-concat len fuel budget m sorted lt =
    drain-concat len (max budget 1) m sorted fuel [] m.store none refl (unfold rows_after in refl)
      lt

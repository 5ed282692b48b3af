-- ===== src/Snapshots.antt =====
-- server/crates/dsh-core/src/state.rs, the whole state as key-value pairs: the dump of a snapshot
-- in pages, and the restore that replaces the state of another node. `len` is the length of a
-- stored value in bytes. A read of the store in memory does not fail, so the iterator has no error
-- page.
pub mod Pages
pub mod Restore
use defing.Prelude.{
  ℕ, zero, suc, ◌+◌, Bool, true, false, List, [], ◌∷◌, ◌++◌, Option, none, some, Bytes, ltb, max,
  length, if◌then◌else◌, is_empty, map,
}
use mathlib.Core.Option
use defing.BTreeMap.{BTreeMap}
use defing.Error.{Result, ok, err}
use defing.Machine.{Machine, Action, get_prefix_merged}
use defing.Store.{get_prefix_keys, get_prefix_page, write_batch}

-- `DumpBatches`; the machine and the budget are arguments of `next`
pub record DumpBatches : Type 0 where
  pub after : Option Bytes
  pub done : Bool

-- `page.last().map(|(k, _)| k.clone())`
unfoldable pub last_key : {R : Type 0} → BTreeMap R → Option Bytes
last_key [] = none
last_key ((k, v) ∷ []) = some k
last_key (kv ∷ kw ∷ page) = last_key (kw ∷ page)

-- `pages.concat()`
unfoldable pub concat : {A : Type 0} → List (List A) → List A
concat [] = []
concat (xs ∷ xss) = xs ++ concat xss

-- `restore_all_batched` at 64 MiB
abbrev pub restore_chunk_bytes : ℕ
restore_chunk_bytes = 67108864

module _ {R : Type 0} where
  -- `dump_all`
  unfoldable pub dump_all : Machine R → BTreeMap R
  dump_all m = get_prefix_merged [] m

  -- `count_prefix_keys`
  unfoldable pub count_prefix_keys : Bytes → Machine R → ℕ
  count_prefix_keys prefix m = length (get_prefix_keys m.store prefix)

  -- The two cases of `next` on the page that was read.
  abbrev pub turn : BTreeMap R → DumpBatches → Option (BTreeMap R) × DumpBatches
  turn [] it = (none, record it { done = true })
  turn (kv ∷ page) it = (some (kv ∷ page), record it { after = last_key (kv ∷ page) })

  abbrev pub follow :
      Option (BTreeMap R) × DumpBatches
      → (DumpBatches → Option (List (BTreeMap R)))
      → Option (List (BTreeMap R))
  follow (none, it) rest = some []
  follow (some page, it) rest = Option.map (λ pages. page ∷ pages) (rest it)

  -- `restore_stream` behind its first batch
  unfoldable pub restore_rest : List (Result (BTreeMap R)) → Action R (Unit {0})
  restore_rest [] m = (ok tt, m)
  restore_rest (err e ∷ batches) m = (err e, m)
  restore_rest (ok batch ∷ batches) m =
      restore_rest batches
        (if is_empty batch then m else record m { store = write_batch batch [] m.store })

  -- `restore_stream`: the first batch also deletes every old key, and a stream of no batch empties
  -- the store
  unfoldable pub restore_stream : List (Result (BTreeMap R)) → Action R (Unit {0})
  unfolding restore_rest
  restore_stream [] m =
      (ok tt, record m { store = write_batch [] (get_prefix_keys m.store []) m.store })
  restore_stream (err e ∷ batches) m = (err e, m)
  restore_stream (ok batch ∷ batches) m =
      restore_rest batches
        (record m { store = write_batch batch (get_prefix_keys m.store []) m.store })

  module _ (len : R → ℕ) where
    -- `DumpBatches::next`
    unfoldable pub next : ℕ → Machine R → DumpBatches → Option (BTreeMap R) × DumpBatches
    next budget m it =
        if it.done then (none, it) else turn (get_prefix_page len m.store [] it.after budget) it

    -- The loop of the consumer of `dump_batches`: at most `fuel` calls of `next`.
    unfoldable pub drain : ℕ → ℕ → Machine R → DumpBatches → Option (List (BTreeMap R))
    unfolding next
    drain zero budget m it = none
    drain (suc fuel) budget m it = follow (next budget m it) (drain fuel budget m)

    -- `dump_batches`
    unfoldable pub dump_batches : ℕ → ℕ → Machine R → Option (List (BTreeMap R))
    unfolding drain
    dump_batches fuel budget m = drain fuel (max budget 1) m (record { after = none; done = false })

    -- The inner loop of `chunk_pairs`, with `bytes` counted: the rest of a chunk, and what is left.
    unfoldable pub fill_chunk : ℕ → ℕ → BTreeMap R → BTreeMap R × BTreeMap R
    fill_chunk budget bytes [] = ([], [])
    fill_chunk budget bytes ((k, v) ∷ pairs) =
        let rest = fill_chunk budget (bytes + (length k + len v)) pairs in
        if ltb bytes budget then ((k, v) ∷ rest.0, rest.1) else ([], (k, v) ∷ pairs)

    -- The outer loop: a chunk takes a pair at least, so as many rounds as there are pairs are enough.
    unfoldable pub chunk_rounds : ℕ → ℕ → BTreeMap R → List (BTreeMap R)
    unfolding fill_chunk
    chunk_rounds zero budget pairs = []
    chunk_rounds (suc rounds) budget [] = []
    chunk_rounds (suc rounds) budget ((k, v) ∷ pairs) =
        let (chunk, left) = fill_chunk budget (length k + len v) pairs in
        ((k, v) ∷ chunk) ∷ chunk_rounds rounds budget left

    -- `chunk_pairs`
    unfoldable pub chunk_pairs : BTreeMap R → ℕ → List (BTreeMap R)
    unfolding chunk_rounds
    chunk_pairs pairs chunk_bytes = chunk_rounds (length pairs) (max chunk_bytes 1) pairs

    -- `restore_all_batched`
    unfoldable pub restore_all_batched : BTreeMap R → ℕ → Action R (Unit {0})
    unfolding chunk_pairs restore_stream
    restore_all_batched pairs chunk_bytes = restore_stream (map ok (chunk_pairs pairs chunk_bytes))

    -- `restore_all`
    unfoldable pub restore_all : BTreeMap R → Action R (Unit {0})
    unfolding restore_all_batched
    restore_all pairs = restore_all_batched pairs restore_chunk_bytes

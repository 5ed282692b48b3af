-- ===== src/Raft/Log.antt =====
-- server/crates/dsh-raft/src/store.rs, the reads of the log that openraft replicates from: rows
-- under their index as 8 bytes, the most significant first. `V` is the type of stored rows, `E` of entries,
-- `len` the length of a row in bytes and `de` its decoding; any call of the database may fail, and
-- the reads here are of calls that do not.
pub mod Key
pub mod Reads
use defing.Prelude.{
  ℕ, zero, suc, ◌+◌, ◌-◌, ◌*◌, ◌/◌, ◌%◌, max, List, [], ◌∷◌, ◌++◌, Option, none, some, Bool, true,
  false, Bytes, ltb, leb, ◌==◌, if◌then◌else◌, not, ◌&&◌, take,
}
use defing.Prelude.Decimal.{u64_mod}
use defing.BTreeMap.{BTreeMap}
use defing.Error.{Result, ok, err, storage, and_then}
use defing.Store.{range_from}

-- `to_be_bytes` of a number in so many bytes
unfoldable pub be_bytes : ℕ → ℕ → Bytes
be_bytes zero n = []
be_bytes (suc w) n = be_bytes w (n / 256) ++ n % 256 ∷ []

-- `from_be_bytes`, behind the value `acc`
unfoldable pub be_value : ℕ → Bytes → ℕ
be_value acc [] = acc
be_value acc (b ∷ bs) = be_value (acc * 256 + b) bs

-- `log_key`
unfoldable pub log_key : ℕ → Bytes
unfolding be_bytes
log_key index = be_bytes 8 index

-- `log_index_from_key`
unfoldable pub log_index_from_key : Bytes → ℕ
unfolding be_value
log_index_from_key key = be_value 0 (take 8 key)

-- `MAX_BATCH_BYTES`
abbrev pub max_batch_bytes : ℕ
max_batch_bytes = 6291456

-- `std::ops::Bound`
pub data Bound : Type 0 where
  included excluded : ℕ → Bound
  unbounded : Bound

-- the two bounds of `try_get_log_entries`, with the wrap-around of the subtraction
abbrev pub range_start : Bound → ℕ
range_start (included i) = i
range_start (excluded i) = (i + 1) % u64_mod
range_start unbounded = 0

abbrev pub range_end : Bound → ℕ
range_end (included i) = i
range_end (excluded i) = (i + (u64_mod - 1)) % u64_mod
range_end unbounded = u64_mod - 1

-- `first_expected`: the index behind what was purged, or the start
unfoldable pub first_expected : Option ℕ → ℕ → ℕ
first_expected none start = max start start
first_expected (some purged) start = max (purged + 1) start

module _ {V E : Type 0} (de : V → Result E) where
  -- The loop of `read_entries`. No index is above that of 64 bits, so the successor of the highest
  -- is never compared.
  unfoldable pub read_rows : ℕ → ℕ → BTreeMap V → Result (List E)
  read_rows end expected [] = ok []
  read_rows end expected ((k, v) ∷ rows) =
      let idx = log_index_from_key k in
      let rest = read_rows end (idx + 1) rows in
      if ltb end idx
      then ok []
      else if idx == expected
      then and_then (de v) (λ e. and_then rest (λ es. ok (e ∷ es)))
      else err storage

  -- `read_entries`
  unfoldable pub read_entries : Option ℕ → BTreeMap V → ℕ → ℕ → Result (List E)
  unfolding read_rows first_expected
  read_entries purged table start end =
      read_rows end (first_expected purged start) (range_from (log_key start) table)

  -- `try_get_log_entries`
  unfoldable pub try_get_log_entries : Option ℕ → BTreeMap V → Bound → Bound → Result (List E)
  unfolding read_entries
  try_get_log_entries purged table from to =
      read_entries purged table (range_start from) (range_end to)

  module _ (len : V → ℕ) where
    -- The loop of `read_entries_limited`, with the bytes so far and whether there is no entry yet.
    unfoldable pub limited_rows : ℕ → ℕ → ℕ → Bool → ℕ → BTreeMap V → Result (List E)
    limited_rows end cap acc first expected [] = ok []
    limited_rows end cap acc first expected ((k, v) ∷ rows) =
        let idx = log_index_from_key k in
        let rest = limited_rows end cap (acc + len v) false (idx + 1) rows in
        if ltb end idx
        then ok []
        else if idx == expected
        then if not first && ltb cap (acc + len v)
          then ok []
          else and_then (de v) (λ e. and_then rest (λ es. ok (e ∷ es)))
        else err storage

    -- `read_entries_limited`
    unfoldable pub read_entries_limited : Option ℕ → BTreeMap V → ℕ → ℕ → ℕ → Result (List E)
    unfolding limited_rows first_expected
    read_entries_limited purged table start end cap =
        limited_rows end cap 0 true (first_expected purged start) (range_from (log_key start) table)

    -- `limited_get_log_entries`
    unfoldable pub limited_get_log_entries : Option ℕ → BTreeMap V → ℕ → ℕ → Result (List E)
    unfolding read_entries_limited
    limited_get_log_entries purged table start end =
        if leb end start
        then ok []
        else read_entries_limited purged table start (end - 1) max_batch_bytes

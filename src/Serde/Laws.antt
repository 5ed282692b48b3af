-- ===== src/Serde/Laws.antt =====
-- What a typed read finds after typed writes and deletes.
use defing.Prelude.{
  none, some, ◌≡◌, ap, false, Bytes, bytes_eq, if◌then◌else◌, Bool-cases, inl, inr,
}
use defing.Error.{ok}
use defing.Machine.{delete_pending}
use defing.Machine.View.{get_merged-put_pending, get_merged-delete_pending}
use defing.Serde.{Serde, Kind, Sem, Sm, read_back, parsed, load_merged, save_pending}

module _ (S : Serde) where
  -- A document is read as it was saved, but for its floats, and a save changes no other key.
  pub load_merged-save_pending :
      (k : Kind) (key at : Bytes) (x : Sem k) (m : Sm S)
      → load_merged S k at (save_pending S k key x m)
        ≡ (if bytes_eq key at then ok (some (read_back S k x)) else load_merged S k at m)
  unfolding load_merged save_pending
  load_merged-save_pending k key at x m = elim (Bool-cases (bytes_eq key at)) [
    | inl same ↦ rw (get_merged-put_pending, same) (ap (parsed S k) (S.from_slice-to_vec k x))
    | inr other ↦ rw (get_merged-put_pending, other)
  ]

  -- the same for a read of another kind, at another key
  pub load_merged-save_pending_ne :
      (k l : Kind) (key at : Bytes) (x : Sem k) (m : Sm S)
      → bytes_eq key at ≡ false
      → load_merged S l at (save_pending S k key x m) ≡ load_merged S l at m
  unfolding load_merged save_pending
  load_merged-save_pending_ne k l key at x m other = rw (get_merged-put_pending, other)

  pub load_merged-delete_pending :
      (k : Kind) (key at : Bytes) (m : Sm S)
      → load_merged S k at (delete_pending key m)
        ≡ (if bytes_eq key at then ok none else load_merged S k at m)
  unfolding load_merged
  load_merged-delete_pending k key at m = elim (Bool-cases (bytes_eq key at)) [
    | inl same ↦ rw (get_merged-delete_pending, same)
    | inr other ↦ rw (get_merged-delete_pending, other)
  ]

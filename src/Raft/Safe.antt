-- ===== src/Raft/Safe.antt =====
-- The nodes that an install of a snapshot and restarts can leave: the state before, an install that
-- is marked as interrupted, or the state of the snapshot.
pub mod Restored
pub mod Installs
pub mod Quiet
pub mod Starts
pub mod Reached
pub mod Recovers
use defing.Prelude.{List, Option, none, some, ◌≡◌, Bool, true, false, ◌⊎◌, Bytes}
use defing.BTreeMap.{BTreeMap, get}
use defing.BTreeMap.Order.{IsSorted}
use defing.Error.{ok}
use defing.Snapshots.{concat}
use defing.Raft.Install.{LogId, RestoreBegin, Node}

-- What an install is about: the state before it, and the snapshot with its marker, the content of
-- its file and the batches that the content holds.
pub record Transfer (R F M : Type 0) : Type 0 where
  pub store_before : BTreeMap R
  pub applied_before : Option LogId
  pub membership_before : M
  pub marker : RestoreBegin M
  pub content : F
  pub pages : List (BTreeMap R)

module _ {R F M : Type 0} where
  -- no install is under way, and the state is the given one
  abbrev pub Settled : BTreeMap R → Option LogId → M → Node R F M → Type 0
  Settled store applied membership n =
      (n.store ≡ store)
      × (n.last_applied ≡ applied)
      × (n.membership ≡ membership)
      × (n.restore_begin ≡ none)
      × (n.restore_poison ≡ false)

  abbrev pub IsOld : Transfer R F M → Node R F M → Type 0
  IsOld t n = Settled t.store_before t.applied_before t.membership_before n

  abbrev pub IsNew : Transfer R F M → Node R F M → Type 0
  IsNew t n = Settled (concat t.pages) t.marker.meta.last_log_id t.marker.meta.last_membership n

  -- the marker is there, and its payload is: the rest may be a mixture
  abbrev pub IsInterrupted : Transfer R F M → Node R F M → Type 0
  IsInterrupted t n =
      (n.restore_begin ≡ some (ok t.marker))
      × (get t.marker.payload n.files ≡ some t.content)
      × ((n.last_applied ≡ t.applied_before) ⊎ (n.last_applied ≡ t.marker.meta.last_log_id))
      × IsSorted n.store

  abbrev pub IsSafe : Transfer R F M → Node R F M → Type 0
  IsSafe t n = IsOld t n ⊎ (IsInterrupted t n ⊎ IsNew t n)

  -- a node that refuses to serve until the install is repeated
  abbrev pub IsStopped : Transfer R F M → Node R F M → Type 0
  IsStopped t n = (n.poisoned ≡ true) × IsInterrupted t n

  -- everything of the snapshot is there, behind the marker
  abbrev pub IsReplaced : Transfer R F M → Node R F M → Type 0
  IsReplaced t n =
      IsInterrupted t n
      × ((n.store ≡ concat t.pages)
          × (n.last_applied ≡ t.marker.meta.last_log_id)
          × (n.membership ≡ t.marker.meta.last_membership))

  -- what an install may leave that ends with an error, and one that does not
  abbrev pub IsFailed : Transfer R F M → Node R F M → Type 0
  IsFailed t n = IsOld t n ⊎ IsStopped t n

  abbrev pub IsInstalled : Transfer R F M → Node R F M → Type 0
  IsInstalled t n = IsNew t n × (n.poisoned ≡ false)

  -- a node that has started: it serves the one state or the other, or it refuses to serve
  abbrev pub IsStarted : Transfer R F M → Node R F M → Type 0
  IsStarted t n = (IsOld t n ⊎ IsNew t n) ⊎ IsStopped t n

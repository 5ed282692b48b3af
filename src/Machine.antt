-- ===== src/Machine.antt =====
-- server/crates/dsh-core/src/state.rs, the command's write buffer of `StateMachine`: what a command
-- writes is collected and written in one batch at its end; what it reads sees its own writes.
-- `R` is the type of a stored value.
pub mod View
pub mod Flush
pub mod Keeps
pub mod Removes
use defing.Prelude.{
  ℕ, Bool, true, false, List, [], ◌∷◌, ◌++◌, Option, none, some, Bytes, bytes_eq, starts_with,
  if◌then◌else◌,
}
use mathlib.Core.List.{reverse}
use defing.Error.{ErrorKind, Result, ok, err}
use defing.BTreeMap
use defing.BTreeMap.{BTreeMap}
use defing.Store

-- `PendingOp`
pub data PendingOp (R : Type 0) : Type 0 where
  put : Bytes → R → PendingOp R
  delete : Bytes → PendingOp R

-- `StateMachine`
pub record Machine (R : Type 0) : Type 0 where
  pub store : BTreeMap R
  pub pending_ops : List (PendingOp R)

module _ {R : Type 0} where
  unfoldable pub put_pending : Bytes → R → Machine R → Machine R
  put_pending k v m = record m { pending_ops = m.pending_ops ++ put k v ∷ [] }

  unfoldable pub delete_pending : Bytes → Machine R → Machine R
  delete_pending k m = record m { pending_ops = m.pending_ops ++ delete k ∷ [] }

  -- The loop of `get_merged`: the operations come last first, and the first on the key decides.
  unfoldable pub last_op : Bytes → List (PendingOp R) → Option (Option R)
  last_op key [] = none
  last_op key (put k v ∷ ops) = if bytes_eq k key then some (some v) else last_op key ops
  last_op key (delete k ∷ ops) = if bytes_eq k key then some none else last_op key ops

  abbrev pub or_store : Option (Option R) → Option R → Option R
  or_store none stored = stored
  or_store (some found) stored = found

  -- `get_merged`
  unfoldable pub get_merged : Bytes → Machine R → Option R
  get_merged key m = or_store (last_op key (reverse m.pending_ops)) (BTreeMap.get key m.store)

  -- The loop of `get_prefix_merged` over the pending operations, in order.
  unfoldable pub merge_ops : Bytes → List (PendingOp R) → BTreeMap R → BTreeMap R
  merge_ops prefix [] out = out
  merge_ops prefix (put k v ∷ ops) out =
      merge_ops prefix ops (if starts_with k prefix then BTreeMap.insert k v out else out)
  merge_ops prefix (delete k ∷ ops) out =
      merge_ops prefix ops (if starts_with k prefix then BTreeMap.remove k out else out)

  -- `get_prefix_merged`
  unfoldable pub get_prefix_merged : Bytes → Machine R → BTreeMap R
  unfolding merge_ops
  get_prefix_merged prefix m = merge_ops prefix m.pending_ops (Store.get_prefix m.store prefix)

  -- The two lists that `flush_pending` sorts the operations into.
  unfoldable pub puts_of : List (PendingOp R) → List (Bytes × R)
  puts_of [] = []
  puts_of (put k v ∷ ops) = (k, v) ∷ puts_of ops
  puts_of (delete k ∷ ops) = puts_of ops

  unfoldable pub deletes_of : List (PendingOp R) → List Bytes
  deletes_of [] = []
  deletes_of (put k v ∷ ops) = deletes_of ops
  deletes_of (delete k ∷ ops) = k ∷ deletes_of ops

  -- `flush_pending`; with nothing pending, the batch of no operation leaves the store as it is
  unfoldable pub flush_pending : Machine R → Machine R
  flush_pending m = record {
    store = Store.write_batch (puts_of m.pending_ops) (deletes_of m.pending_ops) m.store;
    pending_ops = [];
  }

  -- `self.pending_ops.clear()`
  unfoldable pub clear_pending : Machine R → Machine R
  clear_pending m = record m { pending_ops = [] }

-- A method that takes `&mut self` and may fail. What was written before a failure stays written, so
-- the machine comes back beside the error too.
abbrev pub Action : Type 0 → Type 0 → Type 0
Action R A = Machine R → Result A × Machine R

module _ {R A : Type 0} where
  abbrev pub pure : A → Action R A
  pure a m = (ok a, m)

  abbrev pub throw : ErrorKind → Action R A
  throw e m = (err e, m)

  -- a method that takes `&self`
  abbrev pub read : (Machine R → Result A) → Action R A
  read r m = (r m, m)

abbrev pub modify : {R : Type 0} → (Machine R → Machine R) → Action R (Unit {0})
modify f m = (ok tt, f m)

module _ {R A B : Type 0} where
  abbrev pub continue : Result A → (A → Action R B) → Action R B
  continue (ok a) f m = f a m
  continue (err e) f m = (err e, m)

  infixl 10 ◌>>=◌
  abbrev pub ◌>>=◌ : Action R A → (A → Action R B) → Action R B
  ◌>>=◌ a f m = let (r, m') = a m in continue r f m'

infixl 10 ◌>>◌
abbrev pub ◌>>◌ : {R B : Type 0} → Action R (Unit {0}) → Action R B → Action R B
a >> b = a >>= λ _. b

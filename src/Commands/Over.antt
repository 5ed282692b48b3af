-- ===== src/Commands/Over.antt =====
-- server/crates/dsh-core/src/state.rs: `flush_pending` and `apply` over any store behind the trait
-- `Store`, whose batch may fail.
use defing.Prelude.{false, List, [], ◌∷◌, Option, ◌≡◌, refl, ap, ◌⊎◌, inl, Bytes}
use defing.Prelude.Int.{ℤ}
use mathlib.Core.Path.{subst}
use defing.BTreeMap.{BTreeMap}
use defing.Commands.{Command, apply_inner, finish}
use defing.Commands.Atomic.{is_shared_publish, apply_inner-Keeps}
use defing.Error.{Result, ok, err}
use defing.Gray.{IpAddr}
use defing.Machine.{PendingOp, Machine, puts_of, deletes_of, flush_pending, clear_pending}
use defing.Model.{PublishEvent}
use defing.Serde.{Serde, Sm}
use defing.Store.{write_batch}

-- what a call may have done: all, or, where it has failed, all or nothing
abbrev pub IsWhole : {A R : Type 0} → BTreeMap R → BTreeMap R → Result A × BTreeMap R → Type 0
IsWhole old new (ok a, rows) = rows ≡ new
IsWhole old new (err e, rows) = (rows ≡ old) ⊎ (rows ≡ new)

-- `Store::write_batch`, with the rows of the store afterwards
abbrev pub Batch : Type 0 → Type 0
Batch R = List (Bytes × R) → List Bytes → BTreeMap R → Result (Unit {0}) × BTreeMap R

abbrev pub IsAtomic : {R : Type 0} → Batch R → Type 0
IsAtomic {R} batch =
    (puts : List (Bytes × R)) (deletes : List Bytes) (rows : BTreeMap R)
    → IsWhole rows (write_batch puts deletes rows) (batch puts deletes rows)

module _ {R : Type 0} (batch : Batch R) where
  -- `flush_pending`: the operations are taken, also where the batch then fails
  abbrev flushed : Result (Unit {0}) × BTreeMap R → Result (Unit {0}) × Machine R
  flushed (r, rows) = (r, record { store = rows; pending_ops = [] })

  abbrev flush_ops : List (PendingOp R) → BTreeMap R → Result (Unit {0}) × Machine R
  flush_ops [] rows = (ok tt, record { store = rows; pending_ops = [] })
  flush_ops (op ∷ ops) rows = flushed (batch (puts_of (op ∷ ops)) (deletes_of (op ∷ ops)) rows)

  abbrev flush_over : Machine R → Result (Unit {0}) × Machine R
  flush_over m = flush_ops m.pending_ops m.store

  abbrev flush_ended :
      List PublishEvent → Result (Unit {0}) × Machine R → Result (List PublishEvent) × Machine R
  flush_ended events (ok done, m) = (ok events, m)
  flush_ended events (err e, m) = (err e, clear_pending m)

  -- the end of `apply`
  abbrev finish_over :
      Result (List PublishEvent) × Machine R → Result (List PublishEvent) × Machine R
  finish_over (ok events, m) = flush_ended events (flush_over m)
  finish_over (err e, m) = (err e, clear_pending m)

  flush_ops-IsWhole :
      IsAtomic batch
      → (ops : List (PendingOp R)) (rows : BTreeMap R)
      → let r = flush_ops ops rows in
        (r.1.pending_ops ≡ [])
        × IsWhole rows (write_batch (puts_of ops) (deletes_of ops) rows) (r.0, r.1.store)
  unfolding write_batch puts_of deletes_of
  flush_ops-IsWhole atomic [] rows = (refl, refl)
  flush_ops-IsWhole atomic (op ∷ ops) rows =
      (refl, atomic (puts_of (op ∷ ops)) (deletes_of (op ∷ ops)) rows)

  flush_ended-IsWhole :
      (events : List PublishEvent) (old new : BTreeMap R) (q : Result (Unit {0}) × Machine R)
      → q.1.pending_ops ≡ []
      → IsWhole old new (q.0, q.1.store)
      → let r = flush_ended events q in (r.1.pending_ops ≡ []) × IsWhole old new (r.0, r.1.store)
  unfolding clear_pending
  flush_ended-IsWhole events old new (ok done, m) idle whole = (idle, whole)
  flush_ended-IsWhole events old new (err e, m) idle whole = (refl, whole)

  finish_over-IsWhole :
      IsAtomic batch
      → (r : Result (List PublishEvent) × Machine R)
      → let f = finish_over r in
        (f.1.pending_ops ≡ [])
        × IsWhole r.1.store
            (write_batch (puts_of r.1.pending_ops) (deletes_of r.1.pending_ops) r.1.store)
            (f.0, f.1.store)
  unfolding clear_pending
  finish_over-IsWhole atomic (ok events, m) =
      let (idle, whole) = flush_ops-IsWhole atomic m.pending_ops m.store in
      flush_ended-IsWhole events m.store _ (flush_over m) idle whole
  finish_over-IsWhole atomic (err e, m) = (refl, inl refl)

-- over the store in memory the end of `apply` is `finish`
abbrev memory_batch : {R : Type 0} → Batch R
memory_batch puts deletes rows = (ok tt, write_batch puts deletes rows)

module _ (S : Serde) (parse_addr : Bytes → Option IpAddr) where
  flush_over-memory : (m : Sm S) → flush_over memory_batch m ≡ (ok tt, flush_pending m)
  unfolding flush_pending write_batch puts_of deletes_of
  flush_over-memory m = by_cases m.pending_ops
    where
      by_cases :
          (ops : List (PendingOp S.Raw))
          → flush_ops memory_batch ops m.store ≡ (
            ok tt,
            record { store = write_batch (puts_of ops) (deletes_of ops) m.store; pending_ops = [] },
          )
      by_cases [] = refl
      by_cases (op ∷ ops) = refl

  finish_over-memory :
      (r : Result (List PublishEvent) × Sm S) → finish_over memory_batch r ≡ finish S parse_addr r
  unfolding finish
  finish_over-memory (err e, m) = refl
  finish_over-memory (ok events, m) =
      ap (λ q. flush_ended memory_batch events q) (flush_over-memory m)

  -- `apply` over a store whose batch may fail
  abbrev pub apply_over : Batch S.Raw → Command → ℤ → Sm S → Result (List PublishEvent) × Sm S
  apply_over batch cmd now_ms m =
      finish_over batch (apply_inner S parse_addr cmd now_ms (clear_pending m))

  -- A command is all or nothing also where its flush fails. Let the batch of a store do all that it
  -- is given or, where it fails, all or nothing. Over that store, with any command but the publish
  -- of shared items, nothing is pending afterwards; where the command succeeds, the store has the
  -- whole batch of the writes that its handler has collected; and where it fails, in its handler or
  -- in the flush, the store is as it was, or has that whole batch.
  pub apply_over-IsWhole :
      (batch : Batch S.Raw) (cmd : Command) (now_ms : ℤ) (m : Sm S)
      → IsAtomic batch
      → is_shared_publish cmd ≡ false
      → let ops = (apply_inner S parse_addr cmd now_ms (clear_pending m)).1.pending_ops in
        let r = apply_over batch cmd now_ms m in
        (r.1.pending_ops ≡ [])
        × IsWhole m.store (write_batch (puts_of ops) (deletes_of ops) m.store) (r.0, r.1.store)
  unfolding clear_pending
  apply_over-IsWhole batch cmd now_ms m atomic other =
      let r = apply_inner S parse_addr cmd now_ms (clear_pending m) in
      let ops = r.1.pending_ops in
      let (idle, whole) = finish_over-IsWhole batch atomic r in
      (
        idle,
        subst
            (λ s.
              IsWhole s (write_batch (puts_of ops) (deletes_of ops) s)
                ((finish_over batch r).0, (finish_over batch r).1.store))
            ((apply_inner-Keeps S parse_addr cmd now_ms other).at (clear_pending m)) whole,
      )

-- ===== src/Raft/Safe/Restored.antt =====
-- The part of an install that changes the state, behind its marker.
use defing.Prelude.{
  List, Option, none, some, ◌≡◌, refl, sym, ap, ◌∙◌, true, false, inl, inr, Bytes, bytes_eq,
  Bool-cases, map,
}
use mathlib.Core.Option
use defing.BTreeMap.{BTreeMap, get, get-remove}
use defing.BTreeMap.Order.{IsSorted}
use defing.Error.{Result, ok, ok-injective, and_then}
use defing.Snapshots.{concat}
use defing.Raft.Io.{
  Fault, Io, pure, gets, puts, ◌>>◌, attempt, Ensures, Ensures-bind, Ensures-puts, Ensures-gets,
}
use defing.Raft.Keeps.{Ensures-attempt}
use defing.Raft.Install.{
  Node, opened, remove_file, persist_snapshot_registry, delete_old_snapshot_file, poison,
  put_last_applied, put_membership, restore_stream, restore_and_persist_inner,
}
use defing.Raft.Install.Restore.{restore_stream-Reads}
use defing.Raft.Safe.{Transfer, IsInterrupted, IsReplaced, IsStopped, IsSafe}

module _ {R F M : Type 0} (t : Transfer R F M) where
  -- what a read of the payload gives
  pub read_content :
      (read_payload_batches : F → Result (List (Result (BTreeMap R))))
      → read_payload_batches t.content ≡ ok (map ok t.pages)
      → (n : Node R F M) → get t.marker.payload n.files ≡ some t.content
      → (batches : List (Result (BTreeMap R)))
      → and_then (opened (get t.marker.payload n.files)) read_payload_batches ≡ ok batches
      → batches ≡ map ok t.pages
  read_content read_payload_batches reads n h batches eq =
      ok-injective (sym eq ∙ ap (λ o. and_then (opened o) read_payload_batches) h ∙ reads)

  -- a file other than the payload may go
  pub remove_file-IsInterrupted :
      (p : Bytes) (n : Node R F M)
      → bytes_eq p t.marker.payload ≡ false
      → IsInterrupted t n
      → IsInterrupted t (remove_file p n)
  remove_file-IsInterrupted p n other (m, h, a, s) =
      (m, rw (get-remove p t.marker.payload n.files) (rw other h), a, s)

  pub delete_old_snapshot_file-IsReplaced :
      (I E : Node R F M → Type 0) (old : Option Bytes) (fs : List Fault) (n : Node R F M)
      → ((n' : Node R F M) → IsReplaced t n' → I n')
      → IsReplaced t n
      → Ensures I (λ u. IsReplaced t) E (delete_old_snapshot_file old t.marker.payload fs n)
  unfolding delete_old_snapshot_file
  delete_old_snapshot_file-IsReplaced I E none fs n weaker p = p
  delete_old_snapshot_file-IsReplaced I E (some old) fs n weaker p =
      elim (Bool-cases (bytes_eq old t.marker.payload)) [
        | inl same ↦ rw same p
        | inr other ↦ rw other (
            Ensures-attempt I E (IsReplaced t) (remove_file old) fs n weaker p
              (remove_file-IsInterrupted old n other p.0, p.1))
      ]

  persist_snapshot_registry-IsReplaced :
      (fs : List Fault) (n : Node R F M)
      → IsReplaced t n
      → Ensures
          (IsInterrupted t)
          (λ old. IsReplaced t)
          (IsInterrupted t)
          (persist_snapshot_registry t.marker.meta t.marker.payload fs n)
  unfolding persist_snapshot_registry
  persist_snapshot_registry-IsReplaced fs n p =
      let I = IsInterrupted t in
      let Q : Option Bytes → Node R F M → Type 0 = λ old. IsReplaced t in
      let read : Node R F M → Result (Option Bytes) = λ m. ok (Option.map (λ r. r.1) m.registry) in
      let write : Node R F M → Node R F M =
        λ m. record m { registry = some (t.marker.meta, t.marker.payload) } in
      Ensures-bind I I Q Q (gets read) (λ old. puts write >> pure old) fs n
        (Ensures-gets I I Q read fs n p.0 p.0 (λ old h. p))
        (λ old gs n' q.
          Ensures-bind I I (λ u. IsReplaced t) Q (puts write) (λ u. pure old) gs n'
            (Ensures-puts I I (λ u. IsReplaced t) write gs n' q.0 q.0 q) (λ u hs m r. r))

  module _ (sorted : IsSorted (concat t.pages)) where
    -- The whole of it, whatever happens.
    pub restore_and_persist_inner-IsReplaced :
        (fs : List Fault) (n : Node R F M)
        → IsInterrupted t n
        → Ensures
            (IsInterrupted t)
            (λ old. IsReplaced t)
            (IsInterrupted t)
            (restore_and_persist_inner t.marker.meta (map ok t.pages) t.marker.payload fs n)
    unfolding restore_and_persist_inner put_last_applied put_membership
    restore_and_persist_inner-IsReplaced fs n p =
        let I = IsInterrupted t in
        let Q : Option Bytes → Node R F M → Type 0 = λ old. IsReplaced t in
        let restored : Unit {0} → Node R F M → Type 0 = λ u m. I m × (m.store ≡ concat t.pages) in
        let applied : Unit {0} → Node R F M → Type 0 = λ u m.
          I m × ((m.store ≡ concat t.pages) × (m.last_applied ≡ t.marker.meta.last_log_id)) in
        let put_applied : Node R F M → Node R F M =
          λ m. record m { last_applied = t.marker.meta.last_log_id } in
        let put_members : Node R F M → Node R F M =
          λ m. record m { membership = t.marker.meta.last_membership } in
        let persist : Io (Node R F M) (Option Bytes) =
          persist_snapshot_registry t.marker.meta t.marker.payload in
        Ensures-bind I I restored Q (restore_stream (map ok t.pages))
          (λ u. puts put_applied >> (puts put_members >> persist)) fs n
          (restore_stream-Reads I (λ m s h (a, b, c, d). (a, b, c, h)) (λ m q. q.3) t.pages fs n
            sorted p)
          (λ u gs n' q.
            Ensures-bind I I applied Q (puts put_applied) (λ v. puts put_members >> persist) gs n'
              (Ensures-puts I I applied put_applied gs n' q.0 q.0
                ((q.0.0, q.0.1, inr refl, q.0.3), (q.1, refl)))
              (λ v hs m r.
                Ensures-bind I I (λ w. IsReplaced t) Q (puts put_members) (λ w. persist) hs m
                  (Ensures-puts I I (λ w. IsReplaced t) put_members hs m r.0 r.0
                    (r.0, (r.1.0, r.1.1, refl)))
                  (λ w is l x. persist_snapshot_registry-IsReplaced is l x)))

  -- the fail-stop
  pub poison-IsStopped :
      {A : Type 0} (Q : A → Node R F M → Type 0) (E : Node R F M → Type 0) (k : Io (Node R F M) A)
      (fs : List Fault) (n : Node R F M)
      → IsInterrupted t n
      → ((gs : List Fault) (n' : Node R F M) → IsStopped t n' → Ensures (IsSafe t) Q E (k gs n'))
      → Ensures (IsSafe t) Q E ((poison >> k) fs n)
  unfolding poison
  poison-IsStopped Q E k fs n p then_k =
      let n' = record n { poisoned = true } in
      let write : Node R F M → Node R F M = λ m. record m { restore_poison = true } in
      Ensures-bind (IsSafe t) E (λ u. IsStopped t) Q (attempt (puts write)) (λ u. k) fs n'
        (Ensures-attempt (IsSafe t) E (IsStopped t) write fs n' (λ m q. inr (inl q.1)) (refl, p)
          (refl, p))
        (λ u gs m q. then_k gs m q)

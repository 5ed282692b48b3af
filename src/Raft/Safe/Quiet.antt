-- ===== src/Raft/Safe/Quiet.antt =====
-- What the parts of a start leave as it was.
use defing.Prelude.{
  List, Option, none, some, ◌≡◌, refl, sym, ap, ◌∙◌, Bool, true, false, ◌⊎◌, inl, inr, Bytes, codes,
  ends_with, arith,
}
use defing.BTreeMap.{BTreeMap}
use defing.Error.{Result, ok, ok-injective}
use defing.Raft.Io.{gets, Ensures-bind, Ensures-gets}
use defing.Raft.Keeps.{Keeps}
use defing.Raft.Install.{LogId, RestoreBegin, Node, remove_file}
use defing.Raft.Boot.{
  keep_set, is_residue, older_than, sweep_snapshot_payloads, new_with_rotation, recover_from,
  recover_interrupted_restore_with, boot,
}
use defing.Raft.Boot.Sweep.{
  keep_set-payload, is_residue-payload, sweep_snapshot_payloads-Keeps, new_with_rotation-Keeps,
}
use defing.Raft.Safe.{Transfer, IsInterrupted, Settled}
use defing.Raft.Safe.Restored.{remove_file-IsInterrupted}

pub older_than_irrefl : (id : Option LogId) → older_than id id ≡ false
older_than_irrefl none = refl
older_than_irrefl (some id) = ground arith

module _ {R F M : Type 0} (s : BTreeMap R) (l : Option LogId) (mb : M) where
  pub sweep-Settled :
      (dir : Bytes) → Keeps (Settled s l mb) (sweep_snapshot_payloads {R = R} {F = F} {M = M} dir)
  sweep-Settled dir = sweep_snapshot_payloads-Keeps (Settled s l mb) (λ n keep q h p n' r x. x) dir

  -- without a marker there is nothing to recover
  pub boot-Settled :
      (read_payload_batches : F → Result (List (Result (BTreeMap R)))) (dir : Bytes)
      (marks force_ignore : Bool)
      → Keeps (Settled s l mb) (boot read_payload_batches dir marks force_ignore)
  unfolding boot recover_interrupted_restore_with recover_from
  boot-Settled read dir marks force fs n p =
      let P : Node R F M → Type 0 = Settled s l mb in
      let Q : Option (Result (RestoreBegin M)) → Node R F M → Type 0 =
        λ raw m. P m × (raw ≡ none) in
      Ensures-bind P P (λ u. P) (λ r. P) (new_with_rotation dir marks)
        (λ u. recover_interrupted_restore_with read dir force) fs n
        (new_with_rotation-Keeps P (λ m keep q h x n' r y. y) (λ m q. q) (λ m b c d q. q) dir marks
          fs n p)
        (λ u gs m q.
          Ensures-bind P P Q (λ r. P) (gets (λ x. ok x.restore_begin)) (recover_from read dir force)
            gs m
            (Ensures-gets P P Q (λ x. ok x.restore_begin) gs m q q
              (λ raw h. (q, sym (ok-injective h) ∙ q.3)))
            (λ raw hs x r. rw r.1 r.0))

-- the marker of an interrupted install is not stale
pub older_than-IsInterrupted :
    {R F M : Type 0} (t : Transfer R F M)
    → older_than t.marker.meta.last_log_id t.applied_before ≡ false
    → (n : Node R F M)
    → (n.last_applied ≡ t.applied_before) ⊎ (n.last_applied ≡ t.marker.meta.last_log_id)
    → older_than t.marker.meta.last_log_id n.last_applied ≡ false
older_than-IsInterrupted t ahead n (inl h) = ap (older_than t.marker.meta.last_log_id) h ∙ ahead
older_than-IsInterrupted t ahead n (inr h) =
    ap (older_than t.marker.meta.last_log_id) h ∙ older_than_irrefl t.marker.meta.last_log_id

-- what a start does before the recovery keeps the payload
pub new_with_rotation-IsInterrupted :
    {R F M : Type 0} (t : Transfer R F M)
    → ends_with t.marker.payload (codes ".part") ≡ false
    → (dir : Bytes) (marks : Bool) → Keeps (IsInterrupted t) (new_with_rotation dir marks)
new_with_rotation-IsInterrupted {R} {F} {M} t named dir marks =
    let P : Node R F M → Type 0 = IsInterrupted t in
    let fits : (m : Node R F M) (keep : List Bytes)
        → P m
        → keep_set m.registry m.restore_begin ≡ ok keep
        → (q : Bytes) (m' : Node R F M) → is_residue keep q ≡ true
        → P m'
        → P (remove_file q m') =
      λ m keep x h q m' residue y.
        remove_file-IsInterrupted t q m'
          (is_residue-payload keep t.marker.payload q
            (keep_set-payload m.registry t.marker keep (ap (keep_set m.registry) (sym x.0) ∙ h))
            named residue)
          y in
    new_with_rotation-Keeps P fits (λ m q. q) (λ m b c d q. q) dir marks

-- ===== src/Raft/Boot/Sweep.antt =====
-- The sweep of the snapshots removes residue only, and the payload of a marker is none.
use defing.Prelude.{
  List, [], ◌∷◌, Option, none, some, ◌≡◌, refl, Bool, true, false, Bool-cases, inl, inr, Bytes,
  bytes_eq, bytes_eq_iff, bytes_eq_refl, ends_with, codes, if◌then◌else◌, arith,
}
use mathlib.Core.Path.{subst}
use defing.Error.{ok, ok-injective}
use defing.Raft.Io.{
  Fault, Io, pure, gets, puts, sets, handle, ◌>>=◌, ◌>>◌, attempt, Ensures, Ensures-handle,
  Ensures-bind, Ensures-gets,
}
use defing.Raft.Keeps.{Keeps, Keeps-attempt, Keeps-puts, Keeps-bind}
use defing.Raft.Install.{SnapshotMeta, RestoreBegin, Node, remove_file}
use defing.Raft.Boot.{
  keep_set, contains, is_residue, read_dir, sweep_files, sweep_snapshot_payloads, file_missing,
  reset_registry_if_file_missing, new_with_rotation,
}

pub keep_set-payload :
    {M : Type 0} (registry : Option (SnapshotMeta M × Bytes)) (marker : RestoreBegin M)
    (keep : List Bytes)
    → keep_set registry (some (ok marker)) ≡ ok keep
    → contains keep marker.payload ≡ true
unfolding contains
keep_set-payload none marker keep h =
    subst (λ ks. contains ks marker.payload ≡ true) (ok-injective h)
      (rw (bytes_eq_refl marker.payload) refl)
keep_set-payload (some (meta, path)) marker keep h =
    subst (λ ks. contains ks marker.payload ≡ true) (ok-injective h)
      (ground (arith, bytes_eq_refl marker.payload))

pub is_residue-payload :
    (keep : List Bytes) (payload p : Bytes)
    → contains keep payload ≡ true
    → ends_with payload (codes ".part") ≡ false
    → is_residue keep p ≡ true
    → bytes_eq p payload ≡ false
unfolding is_residue
is_residue-payload keep payload p kept named residue = elim (Bool-cases (bytes_eq p payload)) [
  | inl same ↦
      (let eq = (bytes_eq_iff p payload).0 same in
        let kept_residue = subst (λ q. is_residue keep q ≡ true) eq residue in
        ground (arith, kept, named, kept_residue))
  | inr other ↦ other
]

module _ {R F M : Type 0} (P : Node R F M → Type 0) where
  removal :
      (keep : List Bytes) (p : Bytes) (residue : Bool)
      → is_residue keep p ≡ residue
      → ((n : Node R F M) → is_residue keep p ≡ true → P n → P (remove_file p n))
      → Keeps P (if residue then attempt (puts (remove_file p)) else pure tt)
  removal keep p false h closed fs n q = q
  removal keep p true h closed fs n q =
      Keeps-attempt P (puts (remove_file p)) (Keeps-puts P (remove_file p) (λ n' r. closed n' h r))
        fs n q

  sweep_files-Keeps :
      (keep ps : List Bytes)
      → ((p : Bytes) (n : Node R F M) → is_residue keep p ≡ true → P n → P (remove_file p n))
      → Keeps P (sweep_files keep ps)
  unfolding sweep_files
  sweep_files-Keeps keep [] closed fs n q = q
  sweep_files-Keeps keep (p ∷ ps) closed fs n q =
      let one : Io (Node R F M) Unit =
        if is_residue keep p then attempt (puts (remove_file p)) else pure tt in
      Ensures-handle P P (λ u. P) P (λ u. P) (gets (λ m. ok tt)) (λ u. one >> sweep_files keep ps)
        (λ e. pure tt) fs n (Ensures-gets P P (λ u. P) (λ m. ok tt) fs n q q (λ u h. q))
        (λ u gs m r.
          Keeps-bind P one (λ v. sweep_files keep ps)
            (removal keep p (is_residue keep p) refl (λ n' h. closed p n' h))
            (λ v. sweep_files-Keeps keep ps closed) gs m r)
        (λ e gs m r. r)

  reset-Keeps :
      ((n : Node R F M) → P n → P (record n { registry = none }))
      → Keeps P reset_registry_if_file_missing
  unfolding reset_registry_if_file_missing
  reset-Keeps unregistered =
      Keeps-bind P (gets (λ n. ok (file_missing n n.registry)))
        (λ missing. if missing then puts (λ n. record n { registry = none }) else pure tt)
        (λ fs n q.
          Ensures-gets P P (λ b. P) (λ m. ok (file_missing m m.registry)) fs n q q (λ b h. q))
        (λ missing. reset missing)
    where
      reset :
          (missing : Bool)
          → Keeps P (if missing then puts (λ n. record n { registry = none }) else pure tt)
      reset true fs n q = Keeps-puts P (λ n'. record n' { registry = none }) unregistered fs n q
      reset false fs n q = q

  flagged :
      (raw : Bool) (fs : List Fault) (n : Node R F M)
      → P (record n { poisoned = true })
      → P n
      → Ensures P
          (λ u. P)
          P
          ((if raw then sets (λ m. record m { poisoned = true }) else pure tt) fs n)
  flagged true fs n p q = p
  flagged false fs n p q = q

  module _
      (fits : (n : Node R F M) (keep : List Bytes)
        → P n
        → keep_set n.registry n.restore_begin ≡ ok keep
        → (p : Bytes) (n' : Node R F M) → is_residue keep p ≡ true
        → P n'
        → P (remove_file p n')) where
    pub sweep_snapshot_payloads-Keeps : (dir : Bytes) → Keeps P (sweep_snapshot_payloads dir)
    unfolding sweep_snapshot_payloads
    sweep_snapshot_payloads-Keeps dir fs n q =
        let Closed : List Bytes → Node R F M → Type 0 = λ keep n'.
          P n'
          × ((p : Bytes) (m : Node R F M) → is_residue keep p ≡ true → P m → P (remove_file p m)) in
        Ensures-bind P P Closed (λ u. P) (gets (λ m. keep_set m.registry m.restore_begin))
          (λ keep. gets (λ m. ok (read_dir dir m.files)) >>= sweep_files keep) fs n
          (Ensures-gets P P Closed (λ m. keep_set m.registry m.restore_begin) fs n q q
            (λ keep h. (q, fits n keep q h)))
          (λ keep gs m r.
            Ensures-bind P P (λ ps. P) (λ u. P) (gets (λ l. ok (read_dir dir l.files)))
              (sweep_files keep) gs m
              (Ensures-gets P P (λ ps. P) (λ l. ok (read_dir dir l.files)) gs m r.0 r.0
                (λ ps h. r.0))
              (λ ps hs l x. sweep_files-Keeps keep ps r.1 hs l x))

    module _ (unregistered : (n : Node R F M) → P n → P (record n { registry = none }))
        (started : (n : Node R F M) (poisoned marks : Bool)
            (current : Option (SnapshotMeta M × Bytes))
          → P n
          → P (record n {
            poisoned = poisoned;
            current_snapshot = current;
            restore_marker = marks;
          })) where
      -- Nothing that a start does before the recovery touches what the predicate is about.
      pub new_with_rotation-Keeps :
          (dir : Bytes) (marks : Bool) → Keeps P (new_with_rotation dir marks)
      unfolding new_with_rotation
      new_with_rotation-Keeps dir marks =
          let flag : Io (Node R F M) Unit =
            handle (gets (λ n. ok n.restore_poison))
              (λ raw. if raw then sets (λ n. record n { poisoned = true }) else pure tt)
              (λ e. pure tt) in
          let fresh : Io (Node R F M) Unit =
            sets (λ n. record n {
              poisoned = false;
              current_snapshot = none;
              restore_marker = marks;
            }) in
          Keeps-bind P (attempt (sweep_snapshot_payloads dir))
            (λ u. attempt reset_registry_if_file_missing >> (fresh >> flag))
            (Keeps-attempt P (sweep_snapshot_payloads dir) (sweep_snapshot_payloads-Keeps dir))
            (λ u.
              Keeps-bind P (attempt reset_registry_if_file_missing) (λ v. fresh >> flag)
                (Keeps-attempt P reset_registry_if_file_missing (reset-Keeps unregistered))
                (λ v.
                  Keeps-bind P fresh (λ w. flag) (λ fs n q. started n false marks none q)
                    (λ w fs n q.
                      Ensures-handle P P (λ raw. P) P (λ x. P) (gets (λ m. ok m.restore_poison))
                        (λ raw. if raw then sets (λ m. record m { poisoned = true }) else pure tt)
                        (λ e. pure tt) fs n
                        (Ensures-gets P P (λ raw. P) (λ m. ok m.restore_poison) fs n q q
                          (λ raw h. q))
                        (λ raw gs m r.
                          flagged raw gs m (started m true m.restore_marker m.current_snapshot r) r)
                        (λ e gs m r. r))))

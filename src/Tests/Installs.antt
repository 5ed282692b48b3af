-- ===== src/Tests/Installs.antt =====
-- Examples for the installs of a snapshot and the starts after them.
use defing.Prelude.{
  List, [], ◌∷◌, ◌++◌, Option, some, none, ◌≡◌, refl, true, false, ℕ, Bytes, codes, map, ◌⊎◌, inl,
  inr,
}
use defing.BTreeMap.{BTreeMap, get}
use defing.Error.{Result, ok}
use defing.Snapshots.{concat}
use defing.Raft.Io.{Fault, passes, fails, crashes, done, node_of, Ensures}
use defing.Raft.Install.{LogId, SnapshotMeta, Node, install_snapshot}
use defing.Raft.Boot.{boot}
use defing.Raft.Safe.{Transfer, IsOld, IsNew, IsSafe, IsFailed, IsStarted, IsInstalled}
use defing.Raft.Safe.Installs.{install_snapshot-IsSafe}
use defing.Raft.Safe.Reached.{Reached, installs, boots, boot_reached-IsStarted}
use defing.Raft.Safe.Recovers.{boot_reached-calm}

abbrev Content : Type 0
Content = List (Result (BTreeMap ℕ))

abbrev pages : List (BTreeMap ℕ)
pages = ((codes "a", 1) ∷ []) ∷ ((codes "b", 2) ∷ []) ∷ []

abbrev old_id : LogId
old_id = record { term = 1; node_id = 1; index = 3 }

abbrev new_id : LogId
new_id = record { term = 1; node_id = 1; index = 7 }

abbrev meta : SnapshotMeta ℕ
meta = record { last_log_id = some new_id; last_membership = 5 }

abbrev transfer : Transfer ℕ Content ℕ
transfer = record {
  store_before = (codes "z", 9) ∷ [];
  applied_before = some old_id;
  membership_before = 4;
  marker = record { meta = meta; payload = codes "d/s.snap" };
  content = map ok pages;
  pages = pages;
}

abbrev node : Node ℕ Content ℕ
node = record {
  store = (codes "z", 9) ∷ [];
  last_applied = some old_id;
  membership = 4;
  restore_begin = none;
  restore_poison = false;
  registry = none;
  files = (codes "in", map ok pages) ∷ [];
  poisoned = false;
  current_snapshot = none;
  restore_marker = true;
}

abbrev verify : Content → Result (Unit {0})
verify content = ok tt

abbrev read : Content → Result (List (Result (BTreeMap ℕ)))
read content = ok content

-- the disk fails at the second batch
abbrev second_batch_fails : List Fault
second_batch_fails =
    passes ∷ passes ∷ passes ∷ passes ∷ passes ∷ passes ∷ passes ∷ passes ∷ passes ∷ passes ∷ passes
    ∷ fails ∷ []

install_snapshot-IsSafe_example :
    Ensures
      (IsSafe transfer)
      (λ u. IsInstalled transfer)
      (IsFailed transfer)
      (install_snapshot read verify
        (codes "d")
        (codes "s.snap")
        meta
        (codes "in")
        second_batch_fails
        node)
unfolding get concat defing.Prelude.bytes_lt defing.Prelude.bytes_eq
install_snapshot-IsSafe_example =
    install_snapshot-IsSafe transfer (tt, tt) ((refl, tt), (tt, tt)) verify read refl (codes "d")
      (codes "s.snap") (codes "in") second_batch_fails node refl
      ((refl, refl, refl, refl, refl), refl) refl

-- the node is cut off at the second batch, and again in the start behind that
abbrev cut_off : List Fault
cut_off =
    passes ∷ passes ∷ passes ∷ passes ∷ passes ∷ passes ∷ passes ∷ passes ∷ passes ∷ passes ∷ passes
    ∷ crashes ∷ []

abbrev left : Node ℕ Content ℕ
left =
    node_of
      (install_snapshot read verify (codes "d") (codes "s.snap") meta (codes "in") cut_off node)

abbrev left_again : Node ℕ Content ℕ
left_again =
    node_of
      (boot read (codes "d") true false (passes ∷ passes ∷ passes ∷ passes ∷ crashes ∷ []) left)

abbrev left-Reached :
    Reached verify read (codes "d") (codes "s.snap") (codes "in") meta node left_again
left-Reached =
    boots true false (passes ∷ passes ∷ passes ∷ passes ∷ crashes ∷ []) left (installs cut_off)

boot_reached-IsStarted_example :
    Ensures
      (IsSafe transfer)
      (λ r. IsStarted transfer)
      (IsSafe transfer)
      (boot read (codes "d") true false (passes ∷ fails ∷ []) left_again)
unfolding get concat defing.Prelude.bytes_lt defing.Prelude.ends_with defing.Prelude.bytes_eq
boot_reached-IsStarted_example =
    boot_reached-IsStarted verify read transfer (tt, tt) ((refl, tt), (tt, tt)) refl refl
      (codes "d") (codes "s.snap") (codes "in") refl refl node (refl, refl, refl, refl, refl) refl
      refl left_again left-Reached true false (passes ∷ fails ∷ [])

boot_reached-calm_example :
    (r : Option (SnapshotMeta ℕ)) × (m : Node ℕ Content ℕ) × (boot read
        (codes "d")
        true
        false
        []
        left_again
      ≡ done (ok r) m [])
    × (m.poisoned ≡ false)
    × (IsOld transfer m ⊎ IsNew transfer m)
unfolding get concat defing.Prelude.bytes_lt defing.Prelude.ends_with defing.Prelude.bytes_eq
boot_reached-calm_example =
    boot_reached-calm read verify transfer (tt, tt) ((refl, tt), (tt, tt)) refl refl (codes "d")
      (codes "s.snap") (codes "in") refl refl node (refl, refl, refl, refl, refl) refl refl
      left_again left-Reached true

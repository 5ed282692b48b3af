-- ===== src/Serde.antt =====
-- What the state machine stores, and `serde_json` as a parameter: one encoder and one decoder for
-- each kind of document, with the law that a document is read back from its encoding, but for what
-- becomes of its floats. The typed reads and writes of server/crates/dsh-core/src/state.rs stand on
-- it.
pub mod Laws
pub mod Tagged
use defing.Prelude.{ℕ, List, Option, none, some, ◌≡◌, Bytes, Bool}
use defing.Error.{Result, ok, err, internal}
use defing.BTreeMap
use defing.BTreeMap.{BTreeMap}
use defing.Model.Reread.{reread_value, reread_snapshot, reread_diff, reread_state, reread_shared}
use defing.Machine.{Machine, put_pending, get_merged}
use defing.Model.{
  Value, Structure, StructureDraft, Project, BranchState, VersionRecord, DiffEntry, SharedItem,
  ProjectAdminAccount, GlobalAdminAccount, ProjectTokenRecord, AdminSession, AuditEntry,
  SnapshotMap,
}

-- The kinds of document under the keys of keys.rs; `value` is encoded only to be measured.
pub data Kind : Type 0 where
  project index structure structure_draft branch_state version snapshot diff shared_item : Kind
  session project_admin global_admin token audit_entry audit_seq password value : Kind

abbrev pub Sem : Kind → Type 0
Sem project = Project
Sem index = Bytes
Sem structure = Structure
Sem structure_draft = StructureDraft
Sem branch_state = BranchState
Sem version = VersionRecord
Sem snapshot = SnapshotMap
Sem diff = List DiffEntry
Sem shared_item = SharedItem
Sem session = AdminSession
Sem project_admin = ProjectAdminAccount
Sem global_admin = GlobalAdminAccount
Sem token = ProjectTokenRecord
Sem audit_entry = AuditEntry
Sem audit_seq = ℕ
Sem password = Bytes
Sem value = Value

-- what is read of a document that was written, where `reread` says what becomes of a float
abbrev pub reread_doc : (ℕ → ℕ) → (k : Kind) → Sem k → Sem k
reread_doc reread branch_state st = reread_state reread st
reread_doc reread snapshot snap = reread_snapshot reread snap
reread_doc reread diff entries = reread_diff reread entries
reread_doc reread shared_item item = reread_shared reread item
reread_doc reread value v = reread_value reread v
reread_doc reread _ x = x

-- `serde_json`: `to_vec`, its length in bytes, `from_slice` at each type, and whether a text parses
-- as JSON.
pub record Serde : Type 1 where
  pub Raw : Type 0
  pub len : Raw → ℕ
  pub to_vec : (k : Kind) → Sem k → Raw
  pub from_slice : (k : Kind) → Raw → Option (Sem k)
  pub json_valid : Bytes → Bool
  pub reread_float : ℕ → ℕ
  pub from_slice-to_vec :
      (k : Kind) (x : Sem k) → from_slice k (to_vec k x) ≡ some (reread_doc reread_float k x)

module _ (S : Serde) where
  -- the state machine over the encoded documents
  abbrev pub Sm : Type 0
  Sm = Machine S.Raw

  -- a document as it is read after it was saved
  abbrev pub read_back : (k : Kind) → Sem k → Sem k
  read_back = reread_doc S.reread_float

  -- `from_slice` under `load`: what is there and does not parse is an internal error
  unfoldable pub parsed : (k : Kind) → Option (Sem k) → Result (Option (Sem k))
  parsed k none = err internal
  parsed k (some x) = ok (some x)

  unfoldable pub decoded : (k : Kind) → Option S.Raw → Result (Option (Sem k))
  unfolding parsed
  decoded k none = ok none
  decoded k (some raw) = parsed k (S.from_slice k raw)

  -- `load`: straight from the store
  unfoldable pub load : (k : Kind) → Bytes → Sm → Result (Option (Sem k))
  unfolding decoded
  load k key m = decoded k (BTreeMap.get key m.store)

  -- `load_merged`: what the running command sees
  unfoldable pub load_merged : (k : Kind) → Bytes → Sm → Result (Option (Sem k))
  unfolding decoded
  load_merged k key m = decoded k (get_merged key m)

  -- `save_pending`
  unfoldable pub save_pending : (k : Kind) → Bytes → Sem k → Sm → Sm
  save_pending k key x m = put_pending key (S.to_vec k x) m

-- ===== src/Model.antt =====
-- server/crates/dsh-core/src/model.rs: the entities that the state machine stores. Strings are
-- bytes, `i64` are integers, `u64` are numbers, and an `f64` is its bit pattern.
pub mod Equality
pub mod Reread
use defing.Prelude.{ℕ, List, [], Bool, false, Option, none, Bytes}
use defing.Prelude.Int.{ℤ}
use defing.BTreeMap.{BTreeMap}

pub data ValueType : Type 0 where
  string int float bool json array secret : ValueType

pub record Ciphertext : Type 0 where
  pub enc : Bytes
  pub v : ℕ
  pub dek_v : ℕ
  pub nonce : Bytes
  pub ct : Bytes
  pub edek : Bytes
  pub edek_nonce : Bytes

pub data Value : Type 0 where
  string : Bytes → Value
  int : ℤ → Value
  float : ℕ → Value
  bool : Bool → Value
  json : Bytes → Value
  array : List Bytes → Value
  secret : Ciphertext → Value

-- `Value::value_type`
unfoldable pub value_type : Value → ValueType
value_type (Value.string _) = ValueType.string
value_type (Value.int _) = ValueType.int
value_type (Value.float _) = ValueType.float
value_type (Value.bool _) = ValueType.bool
value_type (Value.json _) = ValueType.json
value_type (Value.array _) = ValueType.array
value_type (Value.secret _) = ValueType.secret

pub record ItemDef : Type 0 where
  pub key : Bytes
  pub ty : ValueType
  pub required : Bool
  pub secret : Bool
  pub validate : Option Bytes
  pub description : Option Bytes
  pub shared : Bool

pub record GroupDef : Type 0 where
  pub name : Bytes
  pub items : List ItemDef

pub record Structure : Type 0 where
  pub version : ℕ
  pub groups : List GroupDef

pub record StructureDraft : Type 0 where
  pub base_version : ℕ
  pub groups : List GroupDef

pub record Project : Type 0 where
  pub id : Bytes
  pub name : Bytes
  pub created_at : ℤ

pub record DraftValue : Type 0 where
  pub value : Value
  pub updated_at : ℤ

pub record LabelSelector : Type 0 where
  pub key : Bytes
  pub value : Bytes

pub record GrayRule : Type 0 where
  pub match_labels : List LabelSelector
  pub ip_cidrs : List Bytes
  pub percentage : Option ℕ

pub record BranchState : Type 0 where
  pub active_version : ℕ
  pub structure_version : ℕ
  pub last_request_id : Option Bytes
  pub value_draft : BTreeMap (BTreeMap DraftValue)
  pub draft_rev : ℕ
  pub gray_seq : ℕ
  pub gray_rule : Option GrayRule
  pub shared_bindings : BTreeMap (BTreeMap Bytes)
  pub bindings_dirty : Bool

-- `BranchState::new`
unfoldable pub new_branch_state : ℕ → BranchState
new_branch_state structure_version = record {
  active_version = 0;
  structure_version = structure_version;
  last_request_id = none;
  value_draft = [];
  draft_rev = 0;
  gray_seq = 0;
  gray_rule = none;
  shared_bindings = [];
  bindings_dirty = false;
}

pub data VersionKind : Type 0 where
  full diff : VersionKind

pub data ChangeKind : Type 0 where
  upsert delete : ChangeKind

pub record DiffEntry : Type 0 where
  pub group : Bytes
  pub key : Bytes
  pub kind : ChangeKind
  pub new_value : Option Value

pub data EventType : Type 0 where
  value_publish structure_publish shared_cascade rollback : EventType

pub record VersionRecord : Type 0 where
  pub no : ℕ
  pub structure_version : ℕ
  pub created_at : ℤ
  pub operator : Bytes
  pub comment : Bytes
  pub rollback_of : Option ℕ
  pub kind : VersionKind
  pub snapshot_ref : Option Bytes
  pub diff_ref : Option Bytes
  pub event_ty : Option EventType
  pub gray : Bool

pub record PublishEvent : Type 0 where
  pub project : Bytes
  pub branch : Bytes
  pub version : ℕ
  pub ty : EventType
  pub structure_version : ℕ
  pub comment : Bytes
  pub request_id : Bytes
  pub changes : List DiffEntry
  pub gray : Bool

pub data PublishPolicy : Type 0 where
  block warn : PublishPolicy

pub data SharedCascadeMode : Type 0 where
  auto manual : SharedCascadeMode

pub record SharedItem : Type 0 where
  pub key : Bytes
  pub ty : ValueType
  pub secret : Bool
  pub required : Bool
  pub value : Value
  pub version : ℕ
  pub description : Option Bytes

pub data Principal : Type 0 where
  admin : Principal
  project_admin : Bytes → Bytes → Principal
  global_admin : Bytes → Principal

pub record ProjectAdminAccount : Type 0 where
  pub username : Bytes
  pub project : Bytes
  pub salt : Bytes
  pub password_hash : Bytes
  pub created_at : ℤ

pub record GlobalAdminAccount : Type 0 where
  pub username : Bytes
  pub salt : Bytes
  pub password_hash : Bytes
  pub created_at : ℤ

pub record ProjectTokenRecord : Type 0 where
  pub id : Bytes
  pub name : Bytes
  pub project : Bytes
  pub hash : Bytes
  pub created_at : ℕ
  pub created_by : Bytes
  pub revoked : Bool

pub record AdminSession : Type 0 where
  pub token_hash : Bytes
  pub issued_at : ℤ
  pub expires_at : Option ℤ
  pub device_id : Bytes
  pub principal : Principal

-- The JSON `detail` of an entry is kept as its text.
pub record AuditEntry : Type 0 where
  pub seq : ℕ
  pub ts : ℤ
  pub operator : Bytes
  pub action : Bytes
  pub project : Option Bytes
  pub branch : Option Bytes
  pub version : Option ℕ
  pub request_id : Option Bytes
  pub detail : Bytes

abbrev pub SnapshotMap : Type 0
SnapshotMap = BTreeMap (BTreeMap Value)

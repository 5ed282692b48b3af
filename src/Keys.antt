-- ===== src/Keys.antt =====
-- server/crates/dsh-core/src/keys.rs: the texts of the keys. The keys of one branch are also given
-- by their kind, `branch_key`, and the laws below this file tell them apart.
pub mod Distinct
use defing.Prelude.{ℕ, ◌++◌, Bytes, codes}
use defing.Prelude.Decimal.{decimal, decimal_padded}

abbrev pub k_project : Bytes
k_project = codes "p/"

abbrev pub k_struct : Bytes
k_struct = codes "/struct"

abbrev pub k_struct_draft : Bytes
k_struct_draft = codes "/struct-draft"

abbrev pub k_branch : Bytes
k_branch = codes "/b/"

abbrev pub k_state : Bytes
k_state = codes "/state"

abbrev pub k_version : Bytes
k_version = codes "/v/"

abbrev pub k_gray_snap : Bytes
k_gray_snap = codes "/gray-snap/"

abbrev pub k_shared : Bytes
k_shared = codes "sh/"

abbrev pub k_shared_draft : Bytes
k_shared_draft = codes "sh-draft/"

abbrev pub k_session : Bytes
k_session = codes "sess/admin"

abbrev pub k_session_prefix : Bytes
k_session_prefix = codes "sess/admin/"

abbrev pub k_admin_pw : Bytes
k_admin_pw = codes "sess/admin-pw"

abbrev pub k_audit : Bytes
k_audit = codes "audit/"

abbrev pub k_audit_seq : Bytes
k_audit_seq = codes "audit/seq"

abbrev pub k_idx_pname : Bytes
k_idx_pname = codes "idx/pname/"

abbrev pub k_pa_account : Bytes
k_pa_account = codes "adm/pa/"

abbrev pub k_ga_account : Bytes
k_ga_account = codes "adm/ga/"

abbrev pub k_data_token : Bytes
k_data_token = codes "tok/"

abbrev pub k_pa_session : Bytes
k_pa_session = codes "sess/pa/"

abbrev pub k_ga_session : Bytes
k_ga_session = codes "sess/ga/"

unfoldable pub data_token_key : Bytes → Bytes
data_token_key hash = k_data_token ++ hash

unfoldable pub project_key : Bytes → Bytes
project_key id = k_project ++ id

unfoldable pub struct_key : Bytes → Bytes
struct_key id = k_project ++ (id ++ k_struct)

unfoldable pub struct_draft_key : Bytes → Bytes
struct_draft_key id = k_project ++ (id ++ k_struct_draft)

unfoldable pub branch_prefix : Bytes → Bytes → Bytes
branch_prefix id branch = k_project ++ (id ++ (k_branch ++ branch))

unfoldable pub branch_state_key : Bytes → Bytes → Bytes
unfolding branch_prefix
branch_state_key id branch = branch_prefix id branch ++ k_state

unfoldable pub version_key : Bytes → Bytes → ℕ → Bytes
unfolding branch_prefix
version_key id branch n = branch_prefix id branch ++ (k_version ++ decimal n)

unfoldable pub snapshot_key : Bytes → Bytes → ℕ → Bytes
unfolding branch_prefix
snapshot_key id branch n = branch_prefix id branch ++ (k_version ++ (decimal n ++ codes "/snap"))

unfoldable pub diff_key : Bytes → Bytes → ℕ → Bytes
unfolding branch_prefix
diff_key id branch n = branch_prefix id branch ++ (k_version ++ (decimal n ++ codes "/diff"))

unfoldable pub gray_snap_key : Bytes → Bytes → ℕ → Bytes
unfolding branch_prefix
gray_snap_key id branch seq = branch_prefix id branch ++ (k_gray_snap ++ decimal seq)

unfoldable pub shared_key : Bytes → Bytes
shared_key key = k_shared ++ key

unfoldable pub shared_draft_key : Bytes → Bytes
shared_draft_key key = k_shared_draft ++ key

unfoldable pub session_key : Bytes
session_key = k_session

unfoldable pub session_key_with : Bytes → Bytes
session_key_with sid = k_session_prefix ++ sid

unfoldable pub project_admin_key : Bytes → Bytes
project_admin_key username = k_pa_account ++ username

unfoldable pub pa_session_key : Bytes → Bytes
pa_session_key username = k_pa_session ++ username

unfoldable pub pa_session_prefix : Bytes → Bytes
pa_session_prefix username = k_pa_session ++ (username ++ codes "/")

unfoldable pub pa_session_key_with : Bytes → Bytes → Bytes
pa_session_key_with username sid = k_pa_session ++ (username ++ (codes "/" ++ sid))

unfoldable pub global_admin_key : Bytes → Bytes
global_admin_key username = k_ga_account ++ username

unfoldable pub ga_session_prefix : Bytes → Bytes
ga_session_prefix username = k_ga_session ++ (username ++ codes "/")

unfoldable pub ga_session_key_with : Bytes → Bytes → Bytes
ga_session_key_with username sid = k_ga_session ++ (username ++ (codes "/" ++ sid))

-- `{seq:020}`
unfoldable pub audit_key : ℕ → Bytes
audit_key seq = k_audit ++ decimal_padded 20 seq

unfoldable pub idx_pname : Bytes → Bytes
idx_pname name = k_idx_pname ++ name

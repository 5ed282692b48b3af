-- ===== src/Config.antt =====
-- server/crates/dsh-core/src/state.rs: `get_config` and `get_config_resolved`, the reads of the
-- data plane.
pub mod Published
use defing.Prelude.{ℕ, Bool, true, false, Option, none, some, Bytes, ◌==◌, if◌then◌else◌}
use defing.Error.{Result, ok, err, and_then, not_found}
use defing.Gray.{IpAddr, ClientCtx, ResolvedVersion, stable, gray, resolve_version}
use defing.Gray.Commands.{gray_snapshot_of}
use defing.Keys.{branch_state_key}
use defing.Model.{Structure, SnapshotMap}
use defing.Reads.{expect, get_structure}
use defing.Serde.{Serde, Kind, Sm}
use defing.Version.{snapshot_of}

-- `ConfigSnapshot`
pub record ConfigSnapshot : Type 0 where
  pub project : Bytes
  pub branch : Bytes
  pub version : ℕ
  pub resolved_version : ℕ
  pub structure_version : ℕ
  pub groups : SnapshotMap
  pub gray : Bool

-- `unwrap_or(Structure { version: 0, … })`, of which the version is used
abbrev pub version_or_zero : Option Structure → ℕ
version_or_zero none = 0
version_or_zero (some s) = s.version

module _ (S : Serde) (id branch : Bytes) where
  -- `get_config` behind the choice of the version
  unfoldable pub config_at : ℕ → Sm S → Result ConfigSnapshot
  config_at vno m =
      if vno == 0
      then err not_found
      else and_then (snapshot_of S id branch vno m) (λ snap.
        and_then (get_structure S id m) (λ structure. ok (record {
          project = id;
          branch = branch;
          version = vno;
          resolved_version = vno;
          structure_version = version_or_zero structure;
          groups = snap;
          gray = false;
        })))

  -- `get_config`: version 0 is the active one
  unfoldable pub get_config : ℕ → Sm S → Result ConfigSnapshot
  unfolding config_at
  get_config version m =
      and_then (expect S Kind.branch_state not_found (branch_state_key id branch) m)
        (λ st. config_at (if version == 0 then st.active_version else version) m)

  module _ (parse_addr : Bytes → Option IpAddr) where
    unfoldable pub gray_config : ℕ → Sm S → Result ConfigSnapshot
    gray_config seq m = and_then (gray_snapshot_of S id branch seq m) (λ snap.
        and_then (get_structure S id m) (λ structure.
          and_then (expect S Kind.branch_state not_found (branch_state_key id branch) m) (λ st.
            ok (record {
              project = id;
              branch = branch;
              version = st.active_version;
              resolved_version = seq;
              structure_version = version_or_zero structure;
              groups = snap;
              gray = true;
            }))))

    unfoldable pub config_of : ResolvedVersion → Sm S → Result ConfigSnapshot
    unfolding get_config gray_config
    config_of (stable v) m = get_config 0 m
    config_of (gray seq) m = gray_config seq m

    -- `get_config_resolved`
    unfoldable pub get_config_resolved : ℕ → ClientCtx → Sm S → Result ConfigSnapshot
    unfolding config_of
    get_config_resolved version ctx m =
        if version == 0
        then and_then (resolve_version S parse_addr id branch ctx m) (λ r. config_of r m)
        else get_config version m

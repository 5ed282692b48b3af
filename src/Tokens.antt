-- ===== src/Tokens.antt =====
-- server/crates/dsh-core/src/state.rs: the access tokens of projects.
use defing.Prelude.{
  ℕ, zero, suc, Bool, true, false, not, ◌&&◌, List, [], ◌∷◌, Option, none, some, Bytes, bytes_eq,
  if◌then◌else◌, is_some, any,
}
use defing.Prelude.Int.{ℤ, clamp_u64}
use defing.BTreeMap.{BTreeMap}
use defing.Error.{Result, ok, not_found, validation, conflict}
use defing.Keys.{k_data_token, project_key, data_token_key}
use defing.Machine.{Action, pure, throw, read, modify, get_prefix_merged, ◌>>=◌, ◌>>◌}
use defing.Model.{ProjectTokenRecord, PublishEvent}
use defing.Publish.{operator_id}
use defing.Reads.{stored, parsed_rows}
use defing.Serde.{Serde, Kind, Sm, load, load_merged, save_pending}
use defing.Validator.{valid_token_name}

-- `chars().take(n)`, of an ASCII text
abbrev take : ℕ → Bytes → Bytes
take zero s = []
take (suc n) [] = []
take (suc n) (c ∷ s) = c ∷ take n s

module _ (S : Serde) where
  abbrev Outcome : Type 0
  Outcome = Action S.Raw (List PublishEvent)

  -- the token records of all projects, in the order of their keys
  abbrev pub all_tokens : Sm S → List ProjectTokenRecord
  all_tokens m = parsed_rows S Kind.token (get_prefix_merged k_data_token m)

  unfoldable pub named : Bytes → Bytes → ProjectTokenRecord → Bool
  named project name rec = bytes_eq rec.project project && bytes_eq rec.name name

  -- `apply_project_token_create`
  unfoldable pub apply_project_token_create : Bytes → Bytes → Bytes → Bytes → ℤ → Outcome
  unfolding named
  apply_project_token_create project name token_hash operator now_ms =
      if not (valid_token_name name) then throw validation else do
        _ ← read (stored S Kind.project not_found (project_key project))
        current ← read (load S Kind.token (data_token_key token_hash))
        if is_some current then pure [] else do
          clash ← read (λ m. ok (any (named project name) (all_tokens m)))
          if clash then throw conflict else do
            modify (
                save_pending S Kind.token (data_token_key token_hash) (record {
                  id = take 16 token_hash;
                  name = name;
                  project = project;
                  hash = token_hash;
                  created_at = clamp_u64 now_ms;
                  created_by = operator_id operator;
                  revoked = false;
                }))
            pure []

  -- the loop of `apply_project_token_revoke`: the key of the first record that fits
  unfoldable pub find_token : Bytes → Bytes → BTreeMap S.Raw → Option Bytes
  find_token project token_id [] = none
  find_token project token_id ((k, raw) ∷ rows) =
      let rest = find_token project token_id rows in
      elim (S.from_slice Kind.token raw) [
        | none ↦ rest
        | some rec ↦
            if bytes_eq rec.project project && bytes_eq rec.id token_id then some k else rest
      ]

  unfoldable pub revoke_at : Option Bytes → Outcome
  revoke_at none = throw not_found
  revoke_at (some key) = do
    rec ← read (stored S Kind.token not_found key)
    if rec.revoked
        then pure []
        else do modify (save_pending S Kind.token key (record rec { revoked = true })); pure []

  -- `apply_project_token_revoke`
  unfoldable pub apply_project_token_revoke : Bytes → Bytes → Outcome
  unfolding find_token revoke_at
  apply_project_token_revoke project token_id = do
    target ← read (λ m. ok (find_token project token_id (get_prefix_merged k_data_token m)))
    revoke_at target

  -- `get_data_token`
  abbrev pub get_data_token : Bytes → Sm S → Result (Option ProjectTokenRecord)
  get_data_token hash = load_merged S Kind.token (data_token_key hash)

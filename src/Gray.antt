-- ===== src/Gray.antt =====
-- server/crates/dsh-core/src/state.rs: gray releases. The rule and its evaluation, and the three
-- commands (in Gray/Commands). `parse_addr` is `str::parse::<IpAddr>`.
pub mod Commands
pub mod Rule
pub mod Effect
pub mod Stable
pub mod Promote
pub mod Gap
use defing.Prelude.{
  ℕ, zero, suc, ◌+◌, ◌-◌, ◌*◌, ◌/◌, ◌%◌, ◌^◌, Bool, true, false, not, ◌&&◌, ◌||◌, List, [], ◌∷◌,
  ◌++◌, Option, none, some, Bytes, bytes_eq, ltb, leb, ◌==◌, if◌then◌else◌, is_empty, is_some,
  every, any, max, bit_and, bit_xor,
}
use defing.Prelude.Decimal.{digits_value}
use defing.Prelude.Int.{ℤ}
use defing.BTreeMap
use defing.BTreeMap.{BTreeMap}
use defing.Error.{ErrorKind, Result, ok, err, and_then, not_found, validation, no_draft}
use defing.Machine.{Action, pure, throw, read, modify, delete_pending, ◌>>=◌, ◌>>◌}
use defing.Keys.{branch_state_key, struct_key, gray_snap_key}
use defing.Model.{
  BranchState, Structure, SnapshotMap, LabelSelector, GrayRule, VersionRecord, VersionKind,
  EventType, PublishEvent, PublishPolicy,
}
use defing.Diff.{compute_diff}
use defing.Serde.{Serde, Kind, Sm, load_merged, save_pending}
use defing.Version.{snapshot_of, write_version_snapshot}
use defing.Validator.{is_digit}
use defing.Publish.{is_request, operator_id, active_snapshot, materialize_resolved}
use defing.Reads.{expect, or_fail}

-- `std::net::IpAddr`, by its bits
pub data IpAddr : Type 0 where
  v4 v6 : ℕ → IpAddr

-- `ClientCtx`
pub record ClientCtx : Type 0 where
  pub instance_id : Bytes
  pub labels : BTreeMap Bytes
  pub ip : Option IpAddr

-- `ResolvedVersion`
pub data ResolvedVersion : Type 0 where
  stable gray : ℕ → ResolvedVersion

abbrev pub u32_mod : ℕ
u32_mod = 2 ^ 32

-- the loop of `fnv1a_hash`
unfoldable pub fnv1a_from : ℕ → Bytes → ℕ
fnv1a_from h [] = h
fnv1a_from h (b ∷ s) = fnv1a_from ((bit_xor h b * 0x01000193) % u32_mod) s

-- `fnv1a_hash`
unfoldable pub fnv1a_hash : Bytes → ℕ
unfolding fnv1a_from
fnv1a_hash s = fnv1a_from 0x811c9dc5 s

-- `cidr.split_once('/')`
unfoldable pub split_slash : Bytes → Option (Bytes × Bytes)
split_slash [] = none
split_slash (c ∷ s) =
    let rest = split_slash s in
    if c == b'/' then some ([], s) else elim rest [ none ↦ none | some p ↦ some (c ∷ p.0, p.1) ]

-- the digits of `str::parse::<u32>`: at least one, and no overflow
unfoldable pub parse_digits : Bytes → Option ℕ
parse_digits s =
    if is_empty s || not (every is_digit s)
    then none
    else if ltb (digits_value 0 s) u32_mod
    then some (digits_value 0 s)
    else none

-- `str::parse::<u32>`, which takes one leading plus sign
unfoldable pub parse_u32 : Bytes → Option ℕ
unfolding parse_digits
parse_u32 [] = none
parse_u32 (c ∷ s) = if c == b'+' then parse_digits s else parse_digits (c ∷ s)

-- The mask of `ip_in_cidr`, `MAX << (w - prefix)` in w bits.
unfoldable pub prefix_mask : ℕ → ℕ → ℕ
prefix_mask w prefix = if prefix == 0 then 0 else ((2 ^ w - 1) * 2 ^ (w - prefix)) % 2 ^ w

-- the comparison under the mask
unfoldable pub same_network : ℕ → ℕ → ℕ → ℕ → Bool
unfolding prefix_mask
same_network w prefix a b =
    if ltb w prefix
    then false
    else bit_and a (prefix_mask w prefix) == bit_and b (prefix_mask w prefix)

unfoldable pub in_network : ℕ → IpAddr → IpAddr → Bool
unfolding same_network
in_network prefix (v4 a) (v4 b) = same_network 32 prefix a b
in_network prefix (v6 a) (v6 b) = same_network 128 prefix a b
in_network prefix _ _ = false

-- the width of an address in bits
abbrev pub width : IpAddr → ℕ
width (v4 a) = 32
width (v6 a) = 128

module _ (parse_addr : Bytes → Option IpAddr) where
  -- the address and the prefix length of a CIDR text, as both readers of it parse them
  unfoldable pub parse_cidr : Bytes → Option (IpAddr × ℕ)
  unfolding split_slash parse_u32
  parse_cidr cidr = elim (split_slash cidr) [
    | none ↦ none
    | some parts ↦ elim (parse_addr parts.0) [
      | none ↦ none
      | some addr ↦ elim (parse_u32 parts.1) [ none ↦ none | some prefix ↦ some (addr, prefix) ]
    ]
  ]

  -- `ip_in_cidr`
  unfoldable pub ip_in_cidr : IpAddr → Bytes → Bool
  unfolding parse_cidr in_network
  ip_in_cidr ip cidr = elim (parse_cidr cidr) [ none ↦ false | some p ↦ in_network p.1 ip p.0 ]

  -- `ctx.labels.get(&sel.key) == Some(&sel.value)`
  unfoldable pub label_hit : BTreeMap Bytes → LabelSelector → Bool
  label_hit labels sel = elim (BTreeMap.get sel.key labels) [
    | none ↦ false
    | some v ↦ bytes_eq v sel.value
  ]

  unfoldable pub ip_hit : Option IpAddr → List Bytes → Bool
  unfolding ip_in_cidr
  ip_hit none cidrs = false
  ip_hit (some ip) cidrs = any (ip_in_cidr ip) cidrs

  unfoldable pub percent_hit : Bytes → Option ℕ → Bool
  unfolding fnv1a_hash
  percent_hit instance_id none = false
  percent_hit instance_id (some pct) =
      not (is_empty instance_id) && ltb (fnv1a_hash instance_id % 100) pct

  -- `rule_matches`: labels, then addresses, then the percentage
  unfoldable pub rule_matches : GrayRule → ClientCtx → Bool
  unfolding label_hit ip_hit percent_hit
  rule_matches rule ctx =
      any (label_hit ctx.labels) rule.match_labels
      || (ip_hit ctx.ip rule.ip_cidrs || percent_hit ctx.instance_id rule.percentage)

  abbrev cidr_fits : Option (IpAddr × ℕ) → Bool
  cidr_fits none = false
  cidr_fits (some p) = leb p.1 (width p.0)

  unfoldable pub valid_cidr : Bytes → Bool
  unfolding parse_cidr
  valid_cidr cidr = cidr_fits (parse_cidr cidr)

  abbrev pub percentage_fits : Option ℕ → Bool
  percentage_fits none = true
  percentage_fits (some pct) = leb pct 100

  -- `validate_gray_rule`
  unfoldable pub validate_gray_rule : GrayRule → Result (Unit {0})
  unfolding valid_cidr
  validate_gray_rule rule =
      if is_empty rule.match_labels && (is_empty rule.ip_cidrs && not (is_some rule.percentage))
      then err validation
      else if any (λ sel. is_empty sel.key || is_empty sel.value) rule.match_labels
      then err validation
      else if not (every valid_cidr rule.ip_cidrs)
      then err validation
      else if not (percentage_fits rule.percentage)
      then err validation
      else ok tt

-- `st.gray_seq == 0 || st.gray_rule.is_none()`
abbrev pub no_gray : BranchState → Bool
no_gray st = (st.gray_seq == 0) || not (is_some st.gray_rule)

abbrev rule_or_stable :
    ResolvedVersion → (GrayRule → ResolvedVersion) → Option GrayRule → ResolvedVersion
rule_or_stable s f none = s
rule_or_stable s f (some rule) = f rule

module _ (S : Serde) (parse_addr : Bytes → Option IpAddr) (id branch : Bytes) where
  -- the answer of `resolve_version` for a branch state
  unfoldable pub resolve_state : ClientCtx → BranchState → ResolvedVersion
  unfolding rule_matches
  resolve_state ctx st =
      if no_gray st
      then stable st.active_version
      else if is_empty ctx.instance_id
      then stable st.active_version
      else rule_or_stable (stable st.active_version)
          (λ rule.
            if rule_matches parse_addr rule ctx then gray st.gray_seq else stable st.active_version)
          st.gray_rule

  -- `resolve_version`
  unfoldable pub resolve_version : ClientCtx → Sm S → Result ResolvedVersion
  unfolding resolve_state
  resolve_version ctx m =
      and_then (expect S Kind.branch_state not_found (branch_state_key id branch) m)
        (λ st. ok (resolve_state ctx st))
